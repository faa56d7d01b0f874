-- ===== src/MutationStore/Range.antt =====
-- `get_range_mutations` against a plain reading of the whole table.
use rtstore.Base.{ℕ, ◌≡◌, refl, Bool, false, ◌&&◌, not, List, [], ◌∷◌, arith, leb, if◌then◌else◌}
use rtstore.Base.Bytes.{Bytes, bytes_lt}
use rtstore.Base.Bytes.Order.{bytes_lt_trans}
use rtstore.Base.Result.{Result, ok, err, read_store_error}
use rtstore.Engine.{Engine, IsUp, Codec}
use rtstore.Engine.Entries.{Entry, from, IsAfter, IsAscending}
use rtstore.Crypto.{Hex}
use rtstore.Proto.{MutationHeader, MutationBody}
use rtstore.MutationStore.{Cf, cf_eq, block_store, MutationStore, header_key}
use rtstore.MutationStore.Read.{take_header, range_loop, get_range_mutations}

-- The key lies in the range from `lo` on and below `hi`.
abbrev pub is_between : Bytes → Bytes → Bytes → Bool
is_between lo hi k = not (bytes_lt k lo) && bytes_lt k hi

-- The entries of a table whose key lies in a range.
unfoldable pub between : Bytes → Bytes → List Entry → List Entry
between lo hi [] = []
between lo hi ((k, v) ∷ es) =
    let rest = between lo hi es in if is_between lo hi k then (k, v) ∷ rest else rest

from_after :
    (lo k : Bytes) (es : List Entry) → bytes_lt k lo ≡ false → IsAfter k es → from lo es ≡ es
unfolding from
from_after lo k [] h g = refl
from_after lo k ((j, v) ∷ es) h g = ground (arith, bytes_lt_trans k j lo, from_after lo k es h g.1)

between_after :
    (lo hi k : Bytes) (es : List Entry)
    → bytes_lt k hi ≡ false
    → IsAfter k es
    → between lo hi es ≡ []
unfolding between
between_after lo hi k [] h g = refl
between_after lo hi k ((j, v) ∷ es) h g =
    ground (arith, bytes_lt_trans k j hi, between_after lo hi k es h g.1)

module _ {Db : Type 0} ⦃E : Engine Cf Db⦄ ⦃ch : Codec MutationHeader⦄ ⦃cb : Codec MutationBody⦄
    ⦃h : Hex⦄ where
  -- Every entry is read, in order: no iterator, no early end.
  unfoldable pub read_all :
      List Entry → MutationStore Db → Result (List (MutationHeader × MutationBody))
  read_all [] s = ok []
  read_all ((k, v) ∷ es) s = take_header (ch.decode v) (read_all es s) s

  range_loop-from :
      (lo hi : Bytes) (es : List Entry) (s : MutationStore Db)
      → IsAscending es
      → range_loop hi (from lo es) s ≡ read_all (between lo hi es) s
  unfolding range_loop between from read_all
  range_loop-from lo hi [] s a = refl
  range_loop-from lo hi ((k, v) ∷ es) s a =
      ground (arith, from_after lo k es, between_after lo hi k es, range_loop-from lo hi es s a.1)

  -- On an engine that is up, the seek and the loop that stops early read exactly the headers whose
  -- key is not below block_start at order 0 and is below block_end at order 0, in ascending order;
  -- an empty range is refused.
  pub get_range_mutations-eq-read_all :
      (up : IsUp E) (block_start block_end : ℕ) (s : MutationStore Db)
      → get_range_mutations block_start block_end s ≡ (
          if leb block_end block_start
          then err read_store_error
          else read_all
              (between
                (header_key block_start 0)
                (header_key block_end 0)
                (up.entries s.se block_store))
              s)
  unfolding get_range_mutations
  get_range_mutations-eq-read_all up a b s = ground (
    arith,
    up.open_cf s.se block_store,
    up.seeks s.se block_store (header_key a 0),
    range_loop-from (header_key a 0) (header_key b 0) (up.entries s.se block_store) s
        (up.ascending s.se block_store),
  )
