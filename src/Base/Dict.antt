-- ===== src/Base/Dict.antt =====
-- A `HashMap` with texts for keys: an association list that has every key once.
use mathlib.Core.Path.{◌≡◌, refl}
use mathlib.Core.Logic.{inl, inr}
use mathlib.Core.Option.{Option, none, some}
use mathlib.Core.List.{List, [], ◌∷◌}
use native.Mathlib.Omega.{arith}
use rtstore.Base.Tests.{if◌then◌else◌, Bool-cases, map_option}
use rtstore.Base.Bytes.{Bytes, bytes_eq}
use rtstore.Base.Bytes.Order.{bytes_eq_refl, eq_of_bytes_eq}

abbrev pub Dict : Type 0 → Type 0
Dict A = List (Bytes × A)

module _ {A : Type 0} where
  unfoldable pub get : Bytes → Dict A → Option A
  get key [] = none
  get key ((k, a) ∷ d) = if bytes_eq k key then some a else get key d

  unfoldable pub insert : Bytes → A → Dict A → Dict A
  insert key a [] = (key, a) ∷ []
  insert key a ((k, b) ∷ d) =
      let rest = insert key a d in if bytes_eq k key then (k, a) ∷ d else (k, b) ∷ rest

  -- `if let Some(a) = map.get_mut(key) { … }`
  unfoldable pub adjust : Bytes → (A → A) → Dict A → Dict A
  adjust key f [] = []
  adjust key f ((k, b) ∷ d) =
      let rest = adjust key f d in if bytes_eq k key then (k, f b) ∷ d else (k, b) ∷ rest

  -- `map.remove(key)`
  unfoldable pub remove : Bytes → Dict A → Dict A
  remove key [] = []
  remove key ((k, b) ∷ d) =
      let rest = remove key d in if bytes_eq k key then rest else (k, b) ∷ rest

  -- Every key is there once.
  abbrev pub IsUnique : Dict A → Type 0
  IsUnique [] = Unit
  IsUnique ((k, b) ∷ d) = (get k d ≡ none) × IsUnique d

  pub get-remove :
      (key j : Bytes) (d : Dict A)
      → get j (remove key d) ≡ (if bytes_eq key j then none else get j d)
  unfolding get remove
  get-remove key j [] = elim (Bool-cases (bytes_eq key j)) [
    | inl same ↦ rw same refl
    | inr different ↦ rw different refl
  ]
  get-remove key j ((k, b) ∷ d) = ground (
    arith,
    eq_of_bytes_eq k key,
    eq_of_bytes_eq k j,
    eq_of_bytes_eq key j,
    bytes_eq_refl k,
    get-remove key j d,
  )

  pub get-insert :
      (key j : Bytes) (a : A) (d : Dict A)
      → get j (insert key a d) ≡ (if bytes_eq key j then some a else get j d)
  unfolding get insert
  get-insert key j a [] = refl
  get-insert key j a ((k, b) ∷ d) = ground (
    arith,
    eq_of_bytes_eq k key,
    eq_of_bytes_eq k j,
    eq_of_bytes_eq key j,
    bytes_eq_refl k,
    get-insert key j a d,
  )

  pub get-adjust :
      (key j : Bytes) (f : A → A) (d : Dict A)
      → get j (adjust key f d) ≡ (if bytes_eq key j then map_option f (get j d) else get j d)
  unfolding get adjust
  get-adjust key j f [] = elim (Bool-cases (bytes_eq key j)) [
    | inl same ↦ rw same
    | inr different ↦ rw different
  ]
  get-adjust key j f ((k, b) ∷ d) = ground (
    arith,
    eq_of_bytes_eq k key,
    eq_of_bytes_eq k j,
    eq_of_bytes_eq key j,
    bytes_eq_refl k,
    get-adjust key j f d,
  )

  pub remove-IsUnique : (key : Bytes) (d : Dict A) → IsUnique d → IsUnique (remove key d)
  unfolding remove
  remove-IsUnique key [] u = tt
  remove-IsUnique key ((k, b) ∷ d) u =
      ground (arith, u.0, get-remove key k d, remove-IsUnique key d u.1)

  pub insert-IsUnique : (key : Bytes) (a : A) (d : Dict A) → IsUnique d → IsUnique (insert key a d)
  unfolding insert get
  insert-IsUnique key a [] u = (refl, tt)
  insert-IsUnique key a ((k, b) ∷ d) u = ground (
    arith,
    u.0,
    eq_of_bytes_eq k key,
    eq_of_bytes_eq key k,
    bytes_eq_refl k,
    get-insert key k a d,
    insert-IsUnique key a d u.1,
  )
