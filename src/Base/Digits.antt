-- ===== src/Base/Digits.antt =====
-- The decimal text of a number reads back.
use Prim.Native.Nat.{ℕ, zero, suc, ◌+◌, ◌-◌, ◌*◌, ◌/◌, ◌%◌, ◌^◌, ◌<◌, ◌≤◌}
use mathlib.Core.Path.{◌≡◌, refl, ap, ◌∙◌}
use mathlib.Core.Logic.{◌≢◌, inl, inr}
use mathlib.Core.Option.{some}
use mathlib.Core.List.{[], ◌∷◌, ◌++◌}
use native.Mathlib.Omega.{arith}
use rtstore.Base.Tests.{ltb, lt→ltb, map_option, Bool-cases}
use rtstore.Base.Bytes.{Bytes}
use rtstore.Base.Decimal.{decimal_of, decimal, signed_decimal}
use rtstore.Base.Numerals.{digits_from, parse_unsigned, parse_u64, parse_i64}

-- A text of digits: one at least, and nothing else.
abbrev pub AreDigits : Bytes → Type 0
AreDigits [] = Unit
AreDigits (c ∷ cs) = (48 ≤ c) × (c < 58) × AreDigits cs

abbrev pub tens : ℕ → ℕ
tens zero = 1
tens (suc k) = 10 * tens k

AreDigits-append : (a b : Bytes) → AreDigits a → AreDigits b → AreDigits (a ++ b)
AreDigits-append [] b h k = k
AreDigits-append (c ∷ a) b h k = (h.0, h.1, AreDigits-append a b h.2 k)

decimal_of-AreDigits : (k n : ℕ) → AreDigits (decimal_of k n)
unfolding decimal_of
decimal_of-AreDigits zero n = tt
decimal_of-AreDigits (suc k) n = elim (Bool-cases (ltb n 10)) [
  | inl small ↦ rw small (ground arith)
  | inr large ↦ rw large (
      AreDigits-append (decimal_of k (n / 10)) ((48 + n % 10) ∷ [])
        (decimal_of-AreDigits k (n / 10)) (omega arith))
]

digits_from-snoc :
    (acc d : ℕ) (b : Bytes)
    → d < 10
    → digits_from acc (b ++ (48 + d) ∷ []) ≡ map_option (λ v. v * 10 + d) (digits_from acc b)
unfolding digits_from
digits_from-snoc acc d [] h = ground arith
digits_from-snoc acc d (c ∷ b) h = ground (arith, digits_from-snoc (acc * 10 + (c - 48)) d b h)

digit_reads : (n : ℕ) → n < 10 → digits_from 0 ((48 + n) ∷ []) ≡ some n
unfolding digits_from
digit_reads n h = ground arith

digits_from-decimal_of :
    (k n : ℕ) → n < tens (suc k) → digits_from 0 (decimal_of (suc k) n) ≡ some n
unfolding decimal_of
digits_from-decimal_of zero n h = ground (arith, digit_reads n (omega arith))
digits_from-decimal_of (suc k) n h = elim (Bool-cases (ltb n 10)) [
  | inl small ↦ rw small (digit_reads n (ground arith))
  | inr large ↦ rw large (
      digits_from-snoc 0 (n % 10) (decimal_of (suc k) (n / 10)) (omega arith)
      ∙ ap (map_option (λ v. v * 10 + n % 10)) (digits_from-decimal_of k (n / 10) (omega arith))
      ∙ ap some (omega arith))
]

-- A text of digits reads as an `i64`, if its number fits.
parse_digits :
    (t : Bytes) (n : ℕ)
    → AreDigits t
    → digits_from 0 t ≡ some n
    → t ≢ []
    → n < 2 ^ 63
    → parse_i64 t ≡ some n
unfolding parse_i64 parse_unsigned
parse_digits [] n h e ne fits = absurd (ne refl)
parse_digits (c ∷ cs) n h e ne fits = ground arith

snoc-nonempty : (xs : Bytes) (c : ℕ) → xs ++ c ∷ [] ≢ []
snoc-nonempty [] c e = cc
snoc-nonempty (x ∷ xs) c e = cc

decimal_of-nonempty : (k n : ℕ) → decimal_of (suc k) n ≢ []
unfolding decimal_of
decimal_of-nonempty k n e = ground (arith, snoc-nonempty (decimal_of k (n / 10)) (48 + n % 10))

-- The text of such a number is not empty and has only digits.
pub signed_decimal-AreDigits :
    (n : ℕ) → n < 2 ^ 63 → AreDigits (signed_decimal n) × (signed_decimal n ≢ [])
unfolding signed_decimal decimal
signed_decimal-AreDigits n h =
    rw (lt→ltb n (2 ^ 63) h) (decimal_of-AreDigits 20 n, decimal_of-nonempty 19 n)

-- A number that is an `i64` and not negative reads back from its text.
pub parse_i64-signed_decimal : (n : ℕ) → n < 2 ^ 63 → parse_i64 (signed_decimal n) ≡ some n
unfolding signed_decimal decimal
parse_i64-signed_decimal n h = rw (lt→ltb n (2 ^ 63) h) (
    parse_digits (decimal_of 20 n) n (decimal_of-AreDigits 20 n)
      (digits_from-decimal_of 19 n (omega arith)) (decimal_of-nonempty 19 n) h)

parse_unsigned_digits :
    (bound : ℕ) (t : Bytes) (n : ℕ)
    → AreDigits t
    → digits_from 0 t ≡ some n
    → t ≢ []
    → n < bound
    → parse_unsigned bound t ≡ some n
unfolding parse_unsigned
parse_unsigned_digits bound [] n h e ne fits = absurd (ne refl)
parse_unsigned_digits bound (c ∷ cs) n h e ne fits = ground arith

-- A number of 64 bits reads back from its text.
pub parse_u64-decimal : (n : ℕ) → n < 2 ^ 64 → parse_u64 (decimal n) ≡ some n
unfolding decimal
parse_u64-decimal n h =
    parse_unsigned_digits (2 ^ 64) (decimal_of 20 n) n (decimal_of-AreDigits 20 n)
      (digits_from-decimal_of 19 n (omega arith)) (decimal_of-nonempty 19 n) h
