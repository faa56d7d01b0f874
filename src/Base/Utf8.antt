-- ===== src/Base/Utf8.antt =====
-- `String::from_utf8` and `trim_matches(char::from(0))`.
use Prim.Native.Nat.{ℕ, ◌-◌}
use mathlib.Core.Bool.{Bool, false, ◌&&◌}
use mathlib.Core.Option.{Option, none, some}
use mathlib.Core.List.{[], ◌∷◌, reverse}
use rtstore.Base.Tests.{ltb, leb, ◌==◌, if◌then◌else◌}
use rtstore.Base.Bytes.{Bytes}

-- What has to follow a byte: how many bytes, and the range of the next one.
pub record Expect : Type 0 where
  pub more : ℕ
  pub low : ℕ
  pub high : ℕ

abbrev between : ℕ → ℕ → ℕ → Bool
between low high c = leb low c && leb c high

abbrev first_byte : ℕ → Option Expect
first_byte c =
    if ltb c 0x80
    then some (record { more = 0; low = 0; high = 0 })
    else if between 0xC2 0xDF c
    then some (record { more = 1; low = 0x80; high = 0xBF })
    else if c == 0xE0
    then some (record { more = 2; low = 0xA0; high = 0xBF })
    else if c == 0xED
    then some (record { more = 2; low = 0x80; high = 0x9F })
    else if between 0xE1 0xEF c
    then some (record { more = 2; low = 0x80; high = 0xBF })
    else if c == 0xF0
    then some (record { more = 3; low = 0x90; high = 0xBF })
    else if between 0xF1 0xF3 c
    then some (record { more = 3; low = 0x80; high = 0xBF })
    else if c == 0xF4
    then some (record { more = 3; low = 0x80; high = 0x8F })
    else none

abbrev next_byte : Expect → ℕ → Option Expect
next_byte e c =
    if e.more == 0
    then first_byte c
    else if between e.low e.high c
    then some (record { more = e.more - 1; low = 0x80; high = 0xBF })
    else none

abbrev and_then : Option Expect → (Expect → Bool) → Bool
and_then none f = false
and_then (some e) f = f e

utf8_from : Expect → Bytes → Bool
utf8_from e [] = e.more == 0
utf8_from e (c ∷ cs) = and_then (next_byte e c) (λ e'. utf8_from e' cs)

unfoldable pub from_utf8 : Bytes → Option Bytes
unfolding utf8_from
from_utf8 b = if utf8_from (record { more = 0; low = 0; high = 0 }) b then some b else none

abbrev drop_zeros : Bytes → Bytes
drop_zeros [] = []
drop_zeros (c ∷ cs) = let rest = drop_zeros cs in if c == 0 then rest else c ∷ cs

unfoldable pub trim_zeros : Bytes → Bytes
trim_zeros b = reverse (drop_zeros (reverse (drop_zeros b)))
