-- ===== src/Base/Bytes/BigEndian.antt =====
-- Big endian integers: the width, the round trip, and that the order of the bytes is numeric.
use Prim.Native.Nat.{ℕ, zero, suc, ◌+◌, ◌*◌, ◌/◌, ◌%◌, ◌^◌, ◌<◌}
use mathlib.Core.Path.{◌≡◌, refl, sym, ◌∙◌}
use mathlib.Core.List.{append-nil, [], ◌∷◌, ◌++◌}
use native.Mathlib.Omega.{arith}
use native.Mathlib.Nat.{pow-suc}
use rtstore.Base.Tests.{ltb, ◌==◌}
use rtstore.Base.Lists.{length, length-append, take, drop, take-append, drop-append, drop_past}
use rtstore.Base.Bytes.{Bytes, bytes_eq, bytes_lt, be, of_be, of_be_from}
use rtstore.Base.Bytes.Order.{bytes_lt-append, bytes_eq-append}

pub length-be : (w n : ℕ) → length (be w n) ≡ w
unfolding be
length-be zero n = refl
length-be (suc w) n = rw length-append (omega (arith, length-be w (n / 256)))

of_be_from-snoc :
    (acc b : ℕ) (x : Bytes) → of_be_from acc (x ++ b ∷ []) ≡ of_be_from acc x * 256 + b
unfolding of_be_from
of_be_from-snoc acc b [] = refl
of_be_from-snoc acc b (a ∷ x) = of_be_from-snoc (acc * 256 + a) b x

-- The upper bytes of a number that fits hold a number that fits.
upper_fits : (w n : ℕ) → n < 256 ^ suc w → n / 256 < 256 ^ w
upper_fits w n h = omega (arith, pow-suc 256 w)

-- Reading back an integer that fits its width.
pub of_be-be : (w n : ℕ) → n < 256 ^ w → of_be (be w n) ≡ n
unfolding of_be be of_be_from
of_be-be zero n h = omega arith
of_be-be (suc w) n h =
    of_be_from-snoc 0 (n % 256) (be w (n / 256))
    ∙ omega (arith, of_be-be w (n / 256) (upper_fits w n h))

same_width : (w m n : ℕ) → length (be w m) ≡ length (be w n)
same_width w m n = length-be w m ∙ sym (length-be w n)

pub bytes_eq-be : (w m n : ℕ) → m < 256 ^ w → n < 256 ^ w → bytes_eq (be w m) (be w n) ≡ (m == n)
unfolding be bytes_eq
bytes_eq-be zero m n h k = ground arith
bytes_eq-be (suc w) m n h k = ground (
  arith,
  bytes_eq-append (be w (m / 256)) (be w (n / 256)) (m % 256 ∷ []) (n % 256 ∷ [])
      (same_width w _ _),
  bytes_eq-be w (m / 256) (n / 256) (upper_fits w m h) (upper_fits w n k),
)

-- The order of the encodings is the order of the numbers.
pub bytes_lt-be : (w m n : ℕ) → m < 256 ^ w → n < 256 ^ w → bytes_lt (be w m) (be w n) ≡ ltb m n
unfolding be bytes_lt
bytes_lt-be zero m n h k = ground arith
bytes_lt-be (suc w) m n h k = ground (
  arith,
  bytes_lt-append (be w (m / 256)) (be w (n / 256)) (m % 256 ∷ []) (n % 256 ∷ [])
      (same_width w _ _),
  bytes_eq-be w (m / 256) (n / 256) (upper_fits w m h) (upper_fits w n k),
  bytes_lt-be w (m / 256) (n / 256) (upper_fits w m h) (upper_fits w n k),
)

-- Cutting a record of fixed-width fields: its first field, and what follows it.
pub take-be : (w n : ℕ) (rest : Bytes) → take w (be w n ++ rest) ≡ be w n
take-be w n rest = rw (length-be w n) at (take-append (be w n) rest)

pub drop-be : (w n : ℕ) (rest : Bytes) → drop w (be w n ++ rest) ≡ rest
drop-be w n rest = rw (length-be w n) at (drop-append (be w n) rest)

pub drop_past_be : (w n j : ℕ) (rest : Bytes) → drop (w + j) (be w n ++ rest) ≡ drop j rest
drop_past_be w n j rest = rw (length-be w n) at (drop_past (be w n) rest j)

pub take-be_all : (w n : ℕ) → take w (be w n) ≡ be w n
take-be_all w n = rw append-nil at (take-be w n [])
