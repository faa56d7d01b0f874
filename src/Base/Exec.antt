-- ===== src/Base/Exec.antt =====
-- Methods that may fail and that change the object they are called on.
use mathlib.Core.List.{List, [], ◌∷◌}
use rtstore.Base.Result.{Db3Error, Result, ok, err, map_err}

-- A method on `&self` that changes what `self` owns: what was written before an error stays
-- written, so the object comes back beside the error too.
abbrev pub Exec {ℓ} : Type ℓ → Type ℓ → Type ℓ
Exec S A = S → Result A × S

module _ {ℓ} {S A : Type ℓ} where
  abbrev pub pure : A → Exec S A
  pure a s = (ok a, s)

  abbrev pub raise : Db3Error → Exec S A
  raise e s = (err e, s)

  -- A step that changes nothing: `f(self)?`.
  abbrev pub query : (S → Result A) → Exec S A
  query f s = (f s, s)

  abbrev pub lift : Result A → Exec S A
  lift r s = (r, s)

-- A change of the object's fields.
abbrev pub modify : {S : Type 0} → (S → S) → Exec S (Unit {0})
modify f s = (ok tt, f s)

module _ {ℓ} {S A B : Type ℓ} where
  abbrev pub continue : Result A → (A → Exec S B) → Exec S B
  continue (ok a) f s = f a s
  continue (err e) f s = (err e, s)

  infixl 5 ◌>>=◌ ◌>>◌
  abbrev pub ◌>>=◌ : Exec S A → (A → Exec S B) → Exec S B
  ◌>>=◌ m f s = let (r, s') = m s in continue r f s'

  abbrev pub ◌>>◌ : Exec S A → Exec S B → Exec S B
  m >> n = m >>= λ _. n

-- `m.map_err(|_| e)?` for a method.
abbrev pub map_err_m {ℓ} : {S A : Type ℓ} → Exec S A → Db3Error → Exec S A
map_err_m m e s = let (r, s') = m s in (map_err r e, s')

-- `for x in xs { f(x)? }`
abbrev pub each : {S A : Type 0} → (A → Exec S (Unit {0})) → List A → Exec S (Unit {0})
each f [] = pure tt
each f (x ∷ xs) = f x >> each f xs
