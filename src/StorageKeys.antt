-- ===== src/StorageKeys.antt =====
-- The keys under which src/storage keeps documents, databases and collections.
pub mod DocOwnerKey
pub mod DbDocKey
pub mod DbOwnerKey
pub mod CollectionKey
mod Tests
use mathlib.Core.List.{append-nil}
use rtstore.Base.{
  ℕ, Bool, true, false, ◌+◌, ◌≡◌, Option, none, some, ◌∷◌, [], ◌++◌, arith, length, length-append,
  take, drop, drop_past, take-append, ltb, if◌then◌else◌,
}
use rtstore.Base.Bytes.{Bytes}

-- `&data[from..from + n]`, which panics, `none`, past the end.
unfoldable pub slice : ℕ → ℕ → Bytes → Option Bytes
slice start n data_ =
    if ltb (length data_) (start + n) then none else some (take n (drop start data_))

-- What comes after a panic is not run.
infixl 5 ◌>>=◌
abbrev pub ◌>>=◌ : {A B : Type 0} → Option A → (A → Option B) → Option B
none >>= f = none
some a >>= f = f a

abbrev pub returns : {A : Type 0} → Option A → Bool
returns none = false
returns (some a) = true

-- A slice past a first part is a slice of the rest.
pub slice_past :
    (pre rest : Bytes) (a start n : ℕ)
    → length pre ≡ a
    → slice (a + start) n (pre ++ rest) ≡ slice start n rest
unfolding slice
slice_past pre rest a start n e =
    ground (arith, e, length-append pre rest, drop_past pre rest start)

pub slice_here :
    (part rest : Bytes) (n : ℕ) → length part ≡ n → slice 0 n (part ++ rest) ≡ some part
unfolding slice
slice_here part rest n e = ground (arith, length-append part rest, take-append part rest)

pub slice_all : (part : Bytes) (n : ℕ) → length part ≡ n → slice 0 n part ≡ some part
slice_all part n e = rw append-nil at (slice_here part [] n e)
