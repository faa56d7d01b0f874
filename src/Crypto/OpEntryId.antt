-- ===== src/Crypto/OpEntryId.antt =====
-- OpEntryId, of src/crypto/src/id_v2.rs: a block, an order in the block, and an index.
use rtstore.Base.{
  ℕ, ◌^◌, ◌<◌, sym, ◌∙◌, ◌&&◌, ◌||◌, ltb, ◌≡◌, ◌++◌, arith, length, length-append, take, drop, ◌==◌,
  if◌then◌else◌,
}
use rtstore.Base.Bytes.Order.{bytes_lt-append}
use rtstore.Base.Bytes.{bytes_lt, Bytes, be, of_be}
use rtstore.Base.Bytes.BigEndian.{
  take-be, drop-be, drop_past_be, take-be_all, of_be-be, bytes_eq-be, bytes_lt-be, length-be,
}
use rtstore.Base.Result.{invalid_op_entry_id_bytes, Result, ok, err}

abbrev pub op_entry_id_length : ℕ
op_entry_id_length = 14

pub record OpEntryId : Type 0 where
  pub bytes : Bytes

unfoldable pub try_from_bytes : Bytes → Result OpEntryId
try_from_bytes b =
    if length b == op_entry_id_length
    then ok (record { bytes = b })
    else err invalid_op_entry_id_bytes

-- The writes to a vector do not fail.
unfoldable pub create : ℕ → ℕ → ℕ → Result OpEntryId
unfolding try_from_bytes
create block_id order_id idx = try_from_bytes (be 8 block_id ++ (be 4 order_id ++ be 2 idx))

unfoldable pub get_block_id : OpEntryId → ℕ
get_block_id i = of_be (take 8 i.bytes)

unfoldable pub get_order_id : OpEntryId → ℕ
get_order_id i = of_be (take 4 (drop 8 i.bytes))

unfoldable pub get_idx : OpEntryId → ℕ
get_idx i = of_be (take 2 (drop 12 i.bytes))

-- The id of three numbers.
abbrev pub id_of : ℕ → ℕ → ℕ → OpEntryId
id_of block order idx = record { bytes = be 8 block ++ (be 4 order ++ be 2 idx) }

pub create_total : (block order idx : ℕ) → create block order idx ≡ ok (id_of block order idx)
unfolding create
create_total block order idx = ground (
  arith,
  length-append (be 8 block) (be 4 order ++ be 2 idx),
  length-append (be 4 order) (be 2 idx),
  length-be 8 block,
  length-be 4 order,
  length-be 2 idx,
)

-- If the three numbers fit their fields, `create` gives an id from which they read back.
pub create_fields :
    (block order idx : ℕ)
    → block < 256 ^ 8
    → order < 256 ^ 4
    → idx < 256 ^ 2
    → (i : OpEntryId) × (create block order idx ≡ ok i)
      × (get_block_id i ≡ block)
      × (get_order_id i ≡ order)
      × (get_idx i ≡ idx)
create_fields block order idx hb ho hi = (
  id_of block order idx,
  create_total block order idx,
  unfold get_block_id in rw (take-be 8 block (be 4 order ++ be 2 idx)) (of_be-be 8 block hb),
  unfold get_order_id in
      rw (drop-be 8 block (be 4 order ++ be 2 idx), take-be 4 order (be 2 idx))
        (of_be-be 4 order ho),
  unfold get_idx in
      rw
        (
          drop_past_be 8 block 4 (be 4 order ++ be 2 idx),
          drop-be 4 order (be 2 idx),
          take-be_all 2 idx,
        )
        (of_be-be 2 idx hi),
)

-- Ids are ordered by block, then by order, then by index.
pub id_of_order :
    (b o i b' o' i' : ℕ)
    → b < 256 ^ 8
    → b' < 256 ^ 8
    → o < 256 ^ 4
    → o' < 256 ^ 4
    → i < 256 ^ 2
    → i' < 256 ^ 2
    → bytes_lt (id_of b o i).bytes (id_of b' o' i').bytes
      ≡ (ltb b b' || ((b == b') && (ltb o o' || ((o == o') && ltb i i'))))
id_of_order b o i b' o' i' hb hb' ho ho' hi hi' = ground (
  arith,
  bytes_lt-append (be 8 b) (be 8 b') (be 4 o ++ be 2 i) (be 4 o' ++ be 2 i')
      (length-be 8 b ∙ sym (length-be 8 b')),
  bytes_lt-append (be 4 o) (be 4 o') (be 2 i) (be 2 i') (length-be 4 o ∙ sym (length-be 4 o')),
  bytes_eq-be 8 b b' hb hb',
  bytes_lt-be 8 b b' hb hb',
  bytes_eq-be 4 o o' ho ho',
  bytes_lt-be 4 o o' ho ho',
  bytes_lt-be 2 i i' hi hi',
)
