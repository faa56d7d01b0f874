-- ===== src/MutationStore/Keys.antt =====
-- The order of the keys of the headers is the order of blocks, and of orders in a block.
use rtstore.Base.{refl, ◌∷◌, ℕ, ◌^◌, ◌<◌, ◌≡◌, sym, ◌∙◌, false, ◌&&◌, ◌||◌, [], arith, ltb, ◌==◌}
use rtstore.Base.Bytes.{Bytes, bytes_eq, bytes_lt, be}
use rtstore.Base.Bytes.Order.{bytes_lt-append, bytes_eq-append}
use rtstore.Base.Bytes.BigEndian.{length-be, bytes_eq-be, bytes_lt-be}
use rtstore.MutationStore.{header_key}
use mathlib.Core.List.{append-nil}

-- A block is a `u64` and an order a `u32`.
abbrev pub IsNumber : ℕ → ℕ → Type 0
IsNumber block order = (block < 256 ^ 8) × (order < 256 ^ 4)

pub bytes_eq-header_key :
    (b o b' o' : ℕ)
    → IsNumber b o
    → IsNumber b' o'
    → bytes_eq (header_key b o) (header_key b' o') ≡ ((b == b') && (o == o'))
unfolding header_key
bytes_eq-header_key b o b' o' h h' = ground (
  arith,
  bytes_eq-append (be 8 b) (be 8 b') (be 4 o) (be 4 o') (length-be 8 b ∙ sym (length-be 8 b')),
  bytes_eq-be 8 b b' h.0 h'.0,
  bytes_eq-be 4 o o' h.1 h'.1,
)

pub bytes_lt-header_key :
    (b o b' o' : ℕ)
    → IsNumber b o
    → IsNumber b' o'
    → bytes_lt (header_key b o) (header_key b' o') ≡ (ltb b b' || ((b == b') && ltb o o'))
unfolding header_key
bytes_lt-header_key b o b' o' h h' = ground (
  arith,
  bytes_lt-append (be 8 b) (be 8 b') (be 4 o) (be 4 o') (length-be 8 b ∙ sym (length-be 8 b')),
  bytes_eq-be 8 b b' h.0 h'.0,
  bytes_lt-be 8 b b' h.0 h'.0,
  bytes_lt-be 4 o o' h.1 h'.1,
)

nothing_below : (x : Bytes) → bytes_lt x [] ≡ false
unfolding bytes_lt
nothing_below [] = refl
nothing_below (b ∷ x) = refl

-- Against the bare bytes of a block, which `gc_range_mutation` gives as the ends of its range.
pub bytes_lt-header_key_block :
    (b o e : ℕ) → IsNumber b o → e < 256 ^ 8 → bytes_lt (header_key b o) (be 8 e) ≡ ltb b e
unfolding header_key
bytes_lt-header_key_block b o e h k = rw (← append-nil (be 8 e)) (
    ground (
      arith,
      bytes_lt-append (be 8 b) (be 8 e) (be 4 o) [] (length-be 8 b ∙ sym (length-be 8 e)),
      bytes_lt-be 8 b e h.0 k,
      nothing_below (be 4 o),
    ))
