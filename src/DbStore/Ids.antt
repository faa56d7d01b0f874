-- ===== src/DbStore/Ids.antt =====
-- Which ids the documents of a database are given.
use rtstore.Base.{
  ℕ, zero, suc, ◌+◌, ◌<◌, ◌^◌, ◌%◌, ◌≡◌, refl, sym, inl, inr, false, Option, none, some, List, [],
  ◌∷◌, ◌++◌, arith, length, All, true, Bool-cases, if◌then◌else◌,
}
use mathlib.Core.Path.{subst}
use rtstore.Base.Bytes.{Bytes, bytes_eq}
use rtstore.Base.Bytes.Order.{bytes_eq_refl, eq_of_bytes_eq}
use rtstore.Base.Counting.{IsCounting, IsCounting-append}
use rtstore.Base.Words.{add_u64}
use rtstore.Base.Dict
use rtstore.Base.Dict.{Dict, get-adjust}
use rtstore.Base.Result.{Result, ok, err}
use rtstore.DbStore.{DatabaseState}
use rtstore.DbStore.State.{
  next_ids, with_collection, without_docs, with_docs, ids_for, add_docs_at, add_docs_to,
  update_db_state_for_new_collection, update_db_state_for_delete_docs, update_db_state_for_add_docs,
}

next_ids-IsCounting : (o k n : ℕ) → o + k + n < 2 ^ 64 → IsCounting (o + k) (next_ids o (suc k) n)
unfolding next_ids
next_ids-IsCounting o k zero fits = tt
next_ids-IsCounting o k (suc n) fits =
    (omega arith, ground (arith, next_ids-IsCounting o (suc k) n (omega arith)))

length-next_ids : (o k n : ℕ) → length (next_ids o k n) ≡ n
unfolding next_ids
length-next_ids o k zero = refl
length-next_ids o k (suc n) = omega (arith, length-next_ids o (suc k) n)

-- What happens to the states of the databases once a database is there, by the hex text of its
-- address. Documents that are added may bring their ids along, as they do in a recovery.
pub data Change : Type 0 where
  new_collection : Bytes → Bytes → Change
  deleted : Bytes → Bytes → ℕ → Change
  added : Bytes → Bytes → ℕ → Option (List ℕ) → Change

unfoldable pub changed : Change → Dict DatabaseState → Dict DatabaseState
unfolding update_db_state_for_new_collection update_db_state_for_delete_docs
    update_db_state_for_add_docs
changed (new_collection db col) = update_db_state_for_new_collection db col
changed (deleted db col n) = update_db_state_for_delete_docs db col n
changed (added db col n given) = λ states. (update_db_state_for_add_docs db col n given states).1

abbrev ids_in : Result (Option (List ℕ)) → List ℕ
ids_in (ok (some ids)) = ids
ids_in _ = []

-- The ids that one change gives to documents of the database.
unfoldable pub ids_by : Bytes → Change → Dict DatabaseState → List ℕ
unfolding update_db_state_for_add_docs
ids_by hex (added db col n given) states =
    let ids = ids_in (update_db_state_for_add_docs db col n given states).0 in
    if bytes_eq db hex then ids else []
ids_by hex _ states = []

unfoldable pub issued : Bytes → List Change → Dict DatabaseState → List ℕ
unfolding changed ids_by
issued hex [] states = []
issued hex (c ∷ cs) states = ids_by hex c states ++ issued hex cs (changed c states)

-- How many documents the changes add to the database.
unfoldable pub demand : Bytes → List Change → ℕ
demand hex [] = 0
demand hex (added db col n given ∷ cs) =
    let rest = demand hex cs in if bytes_eq db hex then n + rest else rest
demand hex (_ ∷ cs) = demand hex cs

abbrev HasOrder : Bytes → ℕ → Dict DatabaseState → Type 0
HasOrder hex o states = (s : DatabaseState) × (Dict.get hex states ≡ some s) × (s.doc_order ≡ o)

-- One change: the database goes on from the last id that it gave.
abbrev IsStep : Bytes → ℕ → ℕ → Change → Dict DatabaseState → Type 0
IsStep hex o n c states =
    IsCounting o (ids_by hex c states)
    × (length (ids_by hex c states) ≡ n)
    × HasOrder hex (o + n) (changed c states)

added_here :
    (hex col : Bytes) (n o : ℕ) (states : Dict DatabaseState)
    → HasOrder hex o states
    → o + n < 2 ^ 63
    → IsStep hex o n (added hex col n none) states
unfolding ids_by changed update_db_state_for_add_docs add_docs_at add_docs_to ids_for with_docs
added_here hex col n o states (s, at, same) fits = (
  ground (arith, at, same, bytes_eq_refl hex, next_ids-IsCounting o 0 n (omega arith)),
  ground (arith, at, same, bytes_eq_refl hex, length-next_ids s.doc_order 1 n),
  (
    with_docs col n (o + n) s,
    ground (
      arith,
      at,
      same,
      get-adjust hex hex (with_docs col n (add_u64 s.doc_order (n % 2 ^ 64))) states,
      bytes_eq_refl hex,
    ),
    refl,
  ),
)

-- Ids for another database, or a refusal of those that were brought.
added_to-elsewhere :
    (hex db col : Bytes) (n o : ℕ) (r : Result (List ℕ × ℕ)) (states : Dict DatabaseState)
    → bytes_eq db hex ≡ false
    → HasOrder hex o states
    → HasOrder hex o (add_docs_to db col n states r).1
unfolding add_docs_to
added_to-elsewhere hex db col n o (err e) states other at = at
added_to-elsewhere hex db col n o (ok (ids, order)) states other (s, at, same) =
    (s, ground (arith, at, other, get-adjust db hex (with_docs col n order) states), same)

added_at-elsewhere :
    (hex db col : Bytes) (n o : ℕ) (given : Option (List ℕ)) (states : Dict DatabaseState)
    (found : Option DatabaseState)
    → bytes_eq db hex ≡ false
    → HasOrder hex o states
    → HasOrder hex o (add_docs_at db col n given states found).1
unfolding add_docs_at
added_at-elsewhere hex db col n o given states none other at = at
added_at-elsewhere hex db col n o given states (some t) other at =
    added_to-elsewhere hex db col n o (ids_for n given t.doc_order) states other at

added_elsewhere :
    (hex db col : Bytes) (n o : ℕ) (given : Option (List ℕ)) (states : Dict DatabaseState)
    → bytes_eq db hex ≡ false
    → HasOrder hex o states
    → IsStep hex o 0 (added db col n given) states
unfolding ids_by changed update_db_state_for_add_docs
added_elsewhere hex db col n o given states other at =
    let (s, there, same) =
      added_at-elsewhere hex db col n o given states (Dict.get db states) other at in
    (ground (arith, other), ground (arith, other), (s, there, ground (arith, same)))

-- A change of a state that leaves the order alone.
adjusted :
    (hex db : Bytes) (f : DatabaseState → DatabaseState) (o : ℕ) (states : Dict DatabaseState)
    → ((t : DatabaseState) → (f t).doc_order ≡ t.doc_order)
    → HasOrder hex o states
    → HasOrder hex (o + 0) (Dict.adjust db f states)
adjusted hex db f o states keeps (s, at, same) = elim (Bool-cases (bytes_eq db hex)) [
  | inl here ↦
      (f s, ground (arith, at, here, get-adjust db hex f states), ground (arith, keeps s, same))
  | inr other ↦ (s, ground (arith, at, other, get-adjust db hex f states), ground (arith, same))
]

demand_of : Bytes → Change → ℕ
demand_of hex (added db col n given) = if bytes_eq db hex then n else 0
demand_of hex _ = 0

demand-cons :
    (hex : Bytes) (c : Change) (cs : List Change)
    → demand hex (c ∷ cs) ≡ demand_of hex c + demand hex cs
unfolding demand demand_of
demand-cons hex (new_collection db col) cs = ground arith
demand-cons hex (deleted db col n) cs = ground arith
demand-cons hex (added db col n given) cs = ground arith

added-IsStep :
    (hex db col : Bytes) (n o : ℕ) (given : Option (List ℕ)) (states : Dict DatabaseState)
    → (bytes_eq db hex ≡ true → given ≡ none)
    → HasOrder hex o states
    → o + (if bytes_eq db hex then n else 0) < 2 ^ 63
    → IsStep hex o (if bytes_eq db hex then n else 0) (added db col n given) states
added-IsStep hex db col n o given states brings at fits = elim (Bool-cases (bytes_eq db hex)) [
  | inl here ↦
      let same : hex ≡ db = sym (eq_of_bytes_eq db hex here) in
      rw here (
        subst (λ d. IsStep hex o n (added d col n given) states) same
          (subst (λ g. IsStep hex o n (added hex col n g) states) (sym (brings here))
            (added_here hex col n o states at (ground (arith, fits, here)))))
  | inr other ↦ rw other (added_elsewhere hex db col n o given states other at)
]

-- Who adds documents to the database brings no ids along for them.
abbrev pub BringsNone : Bytes → Change → Type 0
BringsNone hex (new_collection db col) = Unit
BringsNone hex (deleted db col n) = Unit
BringsNone hex (added db col n given) = bytes_eq db hex ≡ true → given ≡ none

changed-IsStep :
    (hex : Bytes) (c : Change) (o : ℕ) (states : Dict DatabaseState)
    → BringsNone hex c
    → HasOrder hex o states
    → o + demand_of hex c < 2 ^ 63
    → IsStep hex o (demand_of hex c) c states
unfolding demand_of changed ids_by update_db_state_for_new_collection
    update_db_state_for_delete_docs with_collection without_docs
changed-IsStep hex (new_collection db col) o states brings at fits =
    (tt, refl, adjusted hex db (with_collection col) o states (λ t. refl) at)
changed-IsStep hex (deleted db col n) o states brings at fits =
    (tt, refl, adjusted hex db (without_docs col n) o states (λ t. refl) at)
changed-IsStep hex (added db col n given) o states brings at fits =
    added-IsStep hex db col n o given states brings at fits

issued_from :
    (hex : Bytes) (cs : List Change) (o : ℕ) (states : Dict DatabaseState)
    → All (BringsNone hex) cs
    → HasOrder hex o states
    → o + demand hex cs < 2 ^ 63
    → IsCounting o (issued hex cs states)
unfolding issued
issued_from hex [] o states brings at fits = tt
issued_from hex (c ∷ cs) o states brings at fits =
    let total = demand-cons hex c cs in
    let (counts, n, next) = changed-IsStep hex c o states brings.0 at (omega (arith, total)) in
    IsCounting-append o (ids_by hex c states) (issued hex cs (changed c states)) counts (
      rw n (
        issued_from hex cs (o + demand_of hex c) (changed c states) brings.1 next
          (omega (arith, total))))

-- Collections are made, and documents are added and deleted, in any order and in any databases. If who
-- adds documents to one database brings no ids along for them, and they are few enough for its ids to
-- stay below 2 ^ 63, as an `i64` can count, then the ids that it gives to new documents count up one by
-- one from the last that it gave, so that no id is given twice.
pub issued-IsCounting :
    (hex : Bytes) (cs : List Change) (states : Dict DatabaseState) (s : DatabaseState)
    → All (BringsNone hex) cs
    → Dict.get hex states ≡ some s
    → s.doc_order + demand hex cs < 2 ^ 63
    → IsCounting s.doc_order (issued hex cs states)
issued-IsCounting hex cs states s brings at fits =
    issued_from hex cs s.doc_order states brings (s, at, refl) fits
