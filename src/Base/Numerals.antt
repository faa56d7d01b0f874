-- ===== src/Base/Numerals.antt =====
-- `from_str` of Rust's integers: a sign, then one digit or more, of a number that fits.
use Prim.Native.Nat.{ℕ, ◌+◌, ◌-◌, ◌*◌, ◌%◌, ◌^◌}
use mathlib.Core.Bool.{◌&&◌}
use mathlib.Core.Option.{Option, none, some}
use mathlib.Core.List.{[], ◌∷◌}
use rtstore.Base.Tests.{ltb, leb, ◌==◌, if◌then◌else◌}
use rtstore.Base.Bytes.{Bytes}

unfoldable pub digits_from : ℕ → Bytes → Option ℕ
digits_from acc [] = some acc
digits_from acc (c ∷ cs) =
    let rest = digits_from (acc * 10 + (c - b'0')) cs in
    if leb b'0' c && leb c b'9' then rest else none

abbrev pub digits : Bytes → Option ℕ
unfolding digits_from
digits [] = none
digits (c ∷ cs) = digits_from 0 (c ∷ cs)

abbrev pub below : ℕ → Option ℕ → Option ℕ
below bound none = none
below bound (some n) = if ltb n bound then some n else none

-- An integer without sign, below the bound.
unfoldable pub parse_unsigned : ℕ → Bytes → Option ℕ
unfolding digits
parse_unsigned bound [] = none
parse_unsigned bound (c ∷ cs) =
    if c == b'+' then below bound (digits cs) else below bound (digits (c ∷ cs))

abbrev pub parse_u32 : Bytes → Option ℕ
parse_u32 = parse_unsigned (2 ^ 32)

abbrev pub parse_u64 : Bytes → Option ℕ
parse_u64 = parse_unsigned (2 ^ 64)

abbrev pub negative : Option ℕ → Option ℕ
negative none = none
negative (some n) = if leb n (2 ^ 63) then some ((2 ^ 64 - n) % 2 ^ 64) else none

-- An `i64`, as its 64 bits.
unfoldable pub parse_i64 : Bytes → Option ℕ
unfolding digits parse_unsigned
parse_i64 [] = none
parse_i64 (c ∷ cs) = if c == b'-' then negative (digits cs) else parse_unsigned (2 ^ 63) (c ∷ cs)
