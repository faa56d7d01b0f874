-- ===== src/Base/Decimal.antt =====
-- The decimal text of a number: `to_string` of Rust.
use Prim.Native.Nat.{ℕ, zero, suc, ◌+◌, ◌-◌, ◌/◌, ◌%◌, ◌^◌}
use mathlib.Core.List.{[], ◌∷◌, ◌++◌}
use rtstore.Base.Tests.{ltb, if◌then◌else◌}
use rtstore.Base.Bytes.{Bytes}

-- At most `digits` digits.
unfoldable pub decimal_of : ℕ → ℕ → Bytes
decimal_of zero n = []
decimal_of (suc digits) n =
    let high = decimal_of digits (n / 10) in
    if ltb n 10 then (b'0' + n) ∷ [] else high ++ ((b'0' + n % 10) ∷ [])

-- A number below 2 ^ 64 has at most twenty digits.
unfoldable pub decimal : ℕ → Bytes
unfolding decimal_of
decimal = decimal_of 20

-- Of an `i64`, given by its 64 bits.
unfoldable pub signed_decimal : ℕ → Bytes
unfolding decimal
signed_decimal n = if ltb n (2 ^ 63) then decimal n else b'-' ∷ decimal (2 ^ 64 - n)
