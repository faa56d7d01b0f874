-- ===== src/Engine/Memory.antt =====
-- An engine that keeps its tables as lists in memory and never fails. It shows that the behaviour
-- asked of an engine can be had, and the tests run on it.
use rtstore.Base.{
  ◌≡◌, refl, Bool, true, ◌&&◌, not, none, some, List, [], ◌∷◌, reverse, arith, Eq, ◌∙◌, ap,
  if◌then◌else◌,
}
use rtstore.Base.Bytes.{Bytes, bytes_eq, bytes_lt}
use rtstore.Base.Bytes.Order.{bytes_eq_refl, eq_of_bytes_eq, bytes_lt-total}
use rtstore.Engine.Entries.{Entry, lookup, from, IsAfter, IsAscending, IsAfter-trans}
use rtstore.Engine.{Op, put_cf, delete_cf, delete_range_cf, op_at, batch_at, Engine, IsUp}

insert : Bytes → Bytes → List Entry → List Entry
insert key w [] = (key, w) ∷ []
insert key w ((k, v) ∷ es) =
    if bytes_eq k key
    then (k, w) ∷ es
    else if bytes_lt key k
    then (key, w) ∷ (k, v) ∷ es
    else (k, v) ∷ insert key w es

lookup-insert :
    (key j w : Bytes) (es : List Entry)
    → lookup j (insert key w es) ≡ (if bytes_eq key j then some w else lookup j es)
unfolding lookup insert
lookup-insert key j w [] = refl
lookup-insert key j w ((k, v) ∷ es) = ground (
  arith,
  eq_of_bytes_eq k key,
  eq_of_bytes_eq k j,
  eq_of_bytes_eq key j,
  bytes_eq_refl k,
  lookup-insert key j w es,
)

insert-IsAfter :
    (a key w : Bytes) (es : List Entry)
    → bytes_lt a key ≡ true
    → IsAfter a es
    → IsAfter a (insert key w es)
unfolding insert
insert-IsAfter a key w [] h k = (h, tt)
insert-IsAfter a key w ((c, v) ∷ es) h k = ground (arith, insert-IsAfter a key w es h k.1)

insert-IsAscending :
    (key w : Bytes) (es : List Entry) → IsAscending es → IsAscending (insert key w es)
unfolding insert
insert-IsAscending key w [] h = (tt, tt)
insert-IsAscending key w ((k, v) ∷ es) h = ground (
  arith,
  IsAfter-trans key k es,
  bytes_lt-total key k,
  eq_of_bytes_eq k key,
  eq_of_bytes_eq key k,
  bytes_eq_refl k,
  insert-IsAfter k key w es,
  insert-IsAscending key w es h.1,
)

-- The entries whose key passes a test.
keep : (Bytes → Bool) → List Entry → List Entry
keep p [] = []
keep p ((k, v) ∷ es) = let rest = keep p es in if p k then (k, v) ∷ rest else rest

lookup-keep :
    (p : Bytes → Bool) (j : Bytes) (es : List Entry)
    → lookup j (keep p es) ≡ (if p j then lookup j es else none)
unfolding lookup keep
lookup-keep p j [] = ground arith
lookup-keep p j ((k, v) ∷ es) = ground (arith, eq_of_bytes_eq k j, lookup-keep p j es)

keep-IsAfter :
    (p : Bytes → Bool) (a : Bytes) (es : List Entry) → IsAfter a es → IsAfter a (keep p es)
unfolding keep
keep-IsAfter p a [] h = tt
keep-IsAfter p a ((k, v) ∷ es) h = ground (arith, keep-IsAfter p a es h.1)

keep-IsAscending : (p : Bytes → Bool) (es : List Entry) → IsAscending es → IsAscending (keep p es)
unfolding keep
keep-IsAscending p [] h = tt
keep-IsAscending p ((k, v) ∷ es) h =
    ground (arith, keep-IsAfter p k es h.0, keep-IsAscending p es h.1)

pub record Tables (Cf : Type 0) : Type 0 where
  pub rows : Cf → List Entry
  pub sorted : (cf : Cf) → IsAscending (rows cf)

abbrev pub no_rows : {Cf : Type 0} → Tables Cf
no_rows = record { rows = λ cf. []; sorted = λ cf. tt }

module _ {Cf : Type 0} ⦃q : Eq Cf⦄ where
  pub run_op : Op Cf → Cf → List Entry → List Entry
  run_op (put_cf c k v) cf es = if q.beq c cf then insert k v es else es
  run_op (delete_cf c k) cf es = if q.beq c cf then keep (λ j. not (bytes_eq k j)) es else es
  run_op (delete_range_cf c lo hi) cf es =
      if q.beq c cf then keep (λ j. not (not (bytes_lt j lo) && bytes_lt j hi)) es else es

  pub run_op-IsAscending :
      (op : Op Cf) (cf : Cf) (es : List Entry) → IsAscending es → IsAscending (run_op op cf es)
  unfolding run_op
  run_op-IsAscending (put_cf c k v) cf es h = ground (arith, insert-IsAscending k v es h)
  run_op-IsAscending (delete_cf c k) cf es h =
      ground (arith, keep-IsAscending (λ j. not (bytes_eq k j)) es h)
  run_op-IsAscending (delete_range_cf c lo hi) cf es h =
      ground (arith, keep-IsAscending (λ j. not (not (bytes_lt j lo) && bytes_lt j hi)) es h)

  lookup-run_op :
      (op : Op Cf) (cf : Cf) (es : List Entry) (j : Bytes)
      → lookup j (run_op op cf es) ≡ op_at op cf j (lookup j es)
  unfolding run_op
  lookup-run_op (put_cf c k v) cf es j = ground (arith, lookup-insert k j v es)
  lookup-run_op (delete_cf c k) cf es j = ground (arith, lookup-keep (λ i. not (bytes_eq k i)) j es)
  lookup-run_op (delete_range_cf c lo hi) cf es j =
      ground (arith, lookup-keep (λ i. not (not (bytes_lt i lo) && bytes_lt i hi)) j es)

  after_op : Tables Cf → Op Cf → Tables Cf
  unfolding run_op keep insert
  after_op db op = record {
    rows = λ cf. run_op op cf (db.rows cf);
    sorted = λ cf. run_op-IsAscending op cf (db.rows cf) (db.sorted cf);
  }

  unfoldable pub run_ops : Tables Cf → List (Op Cf) → Tables Cf
  unfolding after_op
  run_ops db [] = db
  run_ops db (op ∷ ops) = run_ops (after_op db op) ops

  pub lookup-run_ops :
      (db : Tables Cf) (ops : List (Op Cf)) (cf : Cf) (j : Bytes)
      → lookup j ((run_ops db ops).rows cf) ≡ batch_at ops cf j (lookup j (db.rows cf))
  unfolding run_ops after_op
  lookup-run_ops db [] cf j = refl
  lookup-run_ops db (op ∷ ops) cf j =
      lookup-run_ops (after_op db op) ops cf j
      ∙ ap (batch_at ops cf j) (lookup-run_op op cf (db.rows cf) j)

  instance abbrev pub memory : Engine Cf (Tables Cf)
  memory = record {
    cf_handle = λ db cf. true;
    get_cf = λ db cf k. some (lookup k (db.rows cf));
    write = λ db ops. some (run_ops db ops);
    seek = λ db cf k. from k (db.rows cf);
    seek_to_last = λ db cf. reverse (db.rows cf);
  }

  unfoldable pub memory-IsUp : IsUp memory
  memory-IsUp = record {
    entries = λ db cf. db.rows cf;
    applied = run_ops;
    open_cf = λ db cf. refl;
    ascending = λ db cf. db.sorted cf;
    reads = λ db cf k. refl;
    seeks = λ db cf k. refl;
    seeks_last = λ db cf. refl;
    writes = λ db ops. refl;
    written = lookup-run_ops;
  }
