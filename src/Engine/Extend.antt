-- ===== src/Engine/Extend.antt =====
-- What a batch makes of a whole table: writes to other tables leave it, and a new key above all others
-- goes to the end.
use rtstore.Base.{
  ◌∙◌, ◌≡◌, refl, true, false, Option, some, List, [], ◌∷◌, ◌++◌, arith, Eq, if◌then◌else◌,
}
use rtstore.Base.Bytes.{Bytes, bytes_eq, bytes_lt}
use rtstore.Base.Bytes.Order.{bytes_eq_refl, eq_of_bytes_eq, bytes_lt_irrefl, bytes_lt-total}
use rtstore.Engine.Entries.{Entry, lookup, IsAfter, IsAscending, IsAfter-trans, lookup_after}
use rtstore.Engine.{Op, put_cf, delete_cf, delete_range_cf, batch_at, Engine, IsUp}

-- The two heads of tables with the same content.
head_keys :
    (k j v w : Bytes) (es fs : List Entry)
    → IsAfter k es
    → IsAfter j fs
    → lookup k ((k, v) ∷ es) ≡ lookup k ((j, w) ∷ fs)
    → lookup j ((k, v) ∷ es) ≡ lookup j ((j, w) ∷ fs)
    → (k ≡ j) × (v ≡ w)
unfolding lookup
head_keys k j v w es fs a b e g = ground (
  arith,
  bytes_eq_refl k,
  bytes_eq_refl j,
  eq_of_bytes_eq k j,
  eq_of_bytes_eq j k,
  bytes_lt-total k j,
  IsAfter-trans k j fs,
  IsAfter-trans j k es,
  lookup_after k fs,
  lookup_after j es,
)

tail_lookup :
    (k j v w i : Bytes) (es fs : List Entry)
    → k ≡ j
    → v ≡ w
    → IsAfter k es
    → IsAfter j fs
    → lookup i ((k, v) ∷ es) ≡ lookup i ((j, w) ∷ fs)
    → lookup i es ≡ lookup i fs
unfolding lookup
tail_lookup k j v w i es fs same value a b e =
    ground (arith, eq_of_bytes_eq k i, lookup_after k es a, lookup_after j fs b)

-- A table is what its lookups say.
pub entries_ext :
    (es fs : List Entry)
    → IsAscending es
    → IsAscending fs
    → ((i : Bytes) → lookup i es ≡ lookup i fs)
    → es ≡ fs
unfolding lookup
entries_ext [] [] a b e = refl
entries_ext [] ((j, w) ∷ fs) a b e = ground (arith, e j, bytes_eq_refl j)
entries_ext ((k, v) ∷ es) [] a b e = ground (arith, e k, bytes_eq_refl k)
entries_ext ((k, v) ∷ es) ((j, w) ∷ fs) a b e =
    let (same, value) = head_keys k j v w es fs a.0 b.0 (e k) (e j) in
    let rest =
      entries_ext es fs a.1 b.1 (λ i. tail_lookup k j v w i es fs same value a.0 b.0 (e i)) in
    ground (arith, same, value, rest)

-- All keys come before `key`.
abbrev pub IsBelow : Bytes → List Entry → Type 0
IsBelow key [] = Unit {0}
IsBelow key ((k, v) ∷ es) = (bytes_lt k key ≡ true) × IsBelow key es

append-IsAfter :
    (a key w : Bytes) (es : List Entry)
    → bytes_lt a key ≡ true
    → IsAfter a es
    → IsAfter a (es ++ ((key, w) ∷ []))
append-IsAfter a key w [] h k = (h, tt)
append-IsAfter a key w ((c, v) ∷ es) h k = (k.0, append-IsAfter a key w es h k.1)

append-IsAscending :
    (key w : Bytes) (es : List Entry)
    → IsBelow key es
    → IsAscending es
    → IsAscending (es ++ ((key, w) ∷ []))
append-IsAscending key w [] below a = (tt, tt)
append-IsAscending key w ((k, v) ∷ es) below a =
    (append-IsAfter k key w es below.0 a.0, append-IsAscending key w es below.1 a.1)

lookup-append :
    (key w i : Bytes) (es : List Entry)
    → IsBelow key es
    → lookup i (es ++ ((key, w) ∷ [])) ≡ (if bytes_eq key i then some w else lookup i es)
unfolding lookup
lookup-append key w i [] below = refl
lookup-append key w i ((k, v) ∷ es) below = ground (
  arith,
  eq_of_bytes_eq k i,
  eq_of_bytes_eq key i,
  bytes_lt_irrefl key,
  lookup-append key w i es below.1,
)

module _ {Cf : Type 0} ⦃q : Eq Cf⦄ where
  -- No write of the batch is to the table.
  abbrev pub IsElsewhere : Cf → List (Op Cf) → Type 0
  IsElsewhere cf [] = Unit {0}
  IsElsewhere cf (put_cf c k v ∷ ops) = (q.beq c cf ≡ false) × IsElsewhere cf ops
  IsElsewhere cf (delete_cf c k ∷ ops) = (q.beq c cf ≡ false) × IsElsewhere cf ops
  IsElsewhere cf (delete_range_cf c lo hi ∷ ops) = (q.beq c cf ≡ false) × IsElsewhere cf ops

  batch_elsewhere :
      (cf : Cf) (ops : List (Op Cf)) (key : Bytes) (o : Option Bytes)
      → IsElsewhere cf ops
      → batch_at ops cf key o ≡ o
  batch_elsewhere cf [] key o h = refl
  batch_elsewhere cf (put_cf c k v ∷ ops) key o h =
      ground (arith, h.0, batch_elsewhere cf ops key o h.1)
  batch_elsewhere cf (delete_cf c k ∷ ops) key o h =
      ground (arith, h.0, batch_elsewhere cf ops key o h.1)
  batch_elsewhere cf (delete_range_cf c lo hi ∷ ops) key o h =
      ground (arith, h.0, batch_elsewhere cf ops key o h.1)

  module _ {Db : Type 0} ⦃E : Engine Cf Db⦄ (up : IsUp E) where
    pub applied_elsewhere :
        (db : Db) (cf : Cf) (ops : List (Op Cf))
        → IsElsewhere cf ops
        → up.entries (up.applied db ops) cf ≡ up.entries db cf
    applied_elsewhere db cf ops h =
        entries_ext (up.entries (up.applied db ops) cf) (up.entries db cf)
          (up.ascending (up.applied db ops) cf) (up.ascending db cf)
          (λ i. up.written db ops cf i ∙ batch_elsewhere cf ops i (lookup i (up.entries db cf)) h)

    pub applied_above :
        (db : Db) (cf : Cf) (key value : Bytes)
        → q.beq cf cf ≡ true
        → IsBelow key (up.entries db cf)
        → up.entries (up.applied db (put_cf cf key value ∷ [])) cf
          ≡ up.entries db cf ++ ((key, value) ∷ [])
    applied_above db cf key value same below =
        entries_ext (up.entries (up.applied db (put_cf cf key value ∷ [])) cf)
          (up.entries db cf ++ ((key, value) ∷ []))
          (up.ascending (up.applied db (put_cf cf key value ∷ [])) cf)
          (append-IsAscending key value (up.entries db cf) below (up.ascending db cf))
          (λ i. ground (
            arith,
            up.written db (put_cf cf key value ∷ []) cf i,
            lookup-append key value i (up.entries db cf) below,
          ))
