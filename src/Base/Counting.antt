-- ===== src/Base/Counting.antt =====
-- Numbers that come one by one.
use Prim.Native.Nat.{ℕ, ◌+◌}
use mathlib.Core.Path.{◌≡◌}
use mathlib.Core.List.{List, [], ◌∷◌, ◌++◌}
use native.Mathlib.Omega.{arith}
use rtstore.Base.Lists.{length}

-- The numbers that come right after `n`.
abbrev pub IsCounting : ℕ → List ℕ → Type 0
IsCounting n [] = Unit {0}
IsCounting n (m ∷ ms) = (m ≡ n + 1) × IsCounting m ms

pub IsCounting-append :
    (n : ℕ) (xs ys : List ℕ)
    → IsCounting n xs
    → IsCounting (n + length xs) ys
    → IsCounting n (xs ++ ys)
IsCounting-append n [] ys h k = ground (arith, k)
IsCounting-append n (x ∷ xs) ys h k = (h.0, IsCounting-append x xs ys h.1 (ground (arith, k, h.0)))
