-- ===== src/Base/Words.antt =====
-- Machine integers: a `u64` and a `u32` are numbers, an `i64` is the number of its 64 bits. In a build
-- for release, `+` and `-` wrap around.
use Prim.Native.Nat.{ℕ, ◌+◌, ◌-◌, ◌%◌, ◌^◌}
use mathlib.Core.Bool.{Bool}
use rtstore.Base.Tests.{ltb}

-- `fetch_add` on an `AtomicU64`, and `+` on a `u64`, on a `u32` and on an `i64`.
abbrev pub add_u64 : ℕ → ℕ → ℕ
add_u64 a b = (a + b) % 2 ^ 64

abbrev pub add_u32 : ℕ → ℕ → ℕ
add_u32 a b = (a + b) % 2 ^ 32

-- `a - b` on a `u64`.
abbrev pub sub_u64 : ℕ → ℕ → ℕ
sub_u64 a b = (a + (2 ^ 64 - b)) % 2 ^ 64

-- `a < b` on an `i64`.
abbrev pub lt_i64 : ℕ → ℕ → Bool
lt_i64 a b = ltb ((a + 2 ^ 63) % 2 ^ 64) ((b + 2 ^ 63) % 2 ^ 64)
