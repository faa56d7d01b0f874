-- ===== src/Base/Answer.antt =====
-- What a handler of a request answers: a message, or a status of gRPC (without its text).
use mathlib.Core.Bool.{Bool, true, false}
use mathlib.Core.Path.{◌≡◌, refl}
use mathlib.Core.Logic.{◌⊎◌, inl, inr}
use rtstore.Base.Result.{Result, ok, err}

pub data Status : Type 0 where
  invalid_argument permission_denied internal : Status

pub data Answer {ℓ} (A : Type ℓ) : Type ℓ where
  answer : A → Answer A
  status : Status → Answer A

-- `r.map_err(|e| Status::…)?`
abbrev pub or_status {ℓ} : {A : Type ℓ} → Result A → Status → Answer A
or_status (ok a) st = answer a
or_status (err e) st = status st

-- `if … { return Err(Status::…) }`, with what has to hold.
abbrev pub require : Bool → Status → Answer (Unit {0})
require true st = answer tt
require false st = status st

infixl 5 ◌>>=◌ ◌>>◌
abbrev pub ◌>>=◌ {ℓ κ} : {A : Type ℓ} {B : Type κ} → Answer A → (A → Answer B) → Answer B
answer a >>= f = f a
status st >>= f = status st

abbrev pub ◌>>◌ {ℓ κ} : {A : Type ℓ} {B : Type κ} → Answer A → Answer B → Answer B
m >> n = m >>= λ _. n

pub Answer-cases {ℓ} :
    {A : Type ℓ} (r : Answer A) → ((st : Status) × (r ≡ status st)) ⊎ ((a : A) × (r ≡ answer a))
Answer-cases (answer a) = inr (a, refl)
Answer-cases (status st) = inl (st, refl)
