-- ===== src/Base/Bytes/Order.antt =====
-- The order of slices: equality is decided, and equal-length parts are compared one after the other.
use mathlib.Core.Path.{◌≡◌, refl}
use mathlib.Core.Logic.{◌↔◌}
use mathlib.Core.Bool.{true, false, ◌&&◌, ◌||◌}
use mathlib.Core.List.{[], ◌∷◌, ◌++◌}
use native.Mathlib.Omega.{arith}
use rtstore.Base.Lists.{length}
use rtstore.Base.Bytes.{Bytes, bytes_eq, bytes_lt}

pub bytes_eq_refl : (x : Bytes) → bytes_eq x x ≡ true
unfolding bytes_eq
bytes_eq_refl [] = refl
bytes_eq_refl (b ∷ x) = ground (arith, bytes_eq_refl x)

pub eq_of_bytes_eq : (x y : Bytes) → bytes_eq x y ≡ true → x ≡ y
unfolding bytes_eq
eq_of_bytes_eq [] [] h = refl
eq_of_bytes_eq [] (b ∷ y) h = cc
eq_of_bytes_eq (a ∷ x) [] h = cc
eq_of_bytes_eq (a ∷ x) (b ∷ y) h = ground (arith, eq_of_bytes_eq x y)

pub bytes_eq_iff : (x y : Bytes) → (bytes_eq x y ≡ true) ↔ (x ≡ y)
bytes_eq_iff x y = (eq_of_bytes_eq x y, λ e. rw e (bytes_eq_refl y))

pub bytes_lt_irrefl : (x : Bytes) → bytes_lt x x ≡ false
unfolding bytes_lt
bytes_lt_irrefl [] = refl
bytes_lt_irrefl (b ∷ x) = ground (arith, bytes_lt_irrefl x)

pub bytes_lt_trans :
    (x y z : Bytes) → bytes_lt x y ≡ true → bytes_lt y z ≡ true → bytes_lt x z ≡ true
unfolding bytes_lt
bytes_lt_trans [] [] z h k = cc
bytes_lt_trans [] (b ∷ y) [] h k = cc
bytes_lt_trans [] (b ∷ y) (c ∷ z) h k = refl
bytes_lt_trans (a ∷ x) [] z h k = cc
bytes_lt_trans (a ∷ x) (b ∷ y) [] h k = cc
bytes_lt_trans (a ∷ x) (b ∷ y) (c ∷ z) h k = ground (arith, bytes_lt_trans x y z)

-- Of two different slices one comes first.
pub bytes_lt-total :
    (x y : Bytes) → bytes_lt x y ≡ false → bytes_eq x y ≡ false → bytes_lt y x ≡ true
unfolding bytes_lt bytes_eq
bytes_lt-total [] [] h k = cc
bytes_lt-total [] (b ∷ y) h k = cc
bytes_lt-total (a ∷ x) [] h k = refl
bytes_lt-total (a ∷ x) (b ∷ y) h k = ground (arith, bytes_lt-total x y)

-- Slices that begin with parts of one length.
pub bytes_lt-append :
    (x y u v : Bytes)
    → length x ≡ length y
    → bytes_lt (x ++ u) (y ++ v) ≡ (bytes_lt x y || (bytes_eq x y && bytes_lt u v))
unfolding bytes_lt bytes_eq
bytes_lt-append [] [] u v h = refl
bytes_lt-append [] (b ∷ y) u v h = absurd (omega arith)
bytes_lt-append (a ∷ x) [] u v h = absurd (omega arith)
bytes_lt-append (a ∷ x) (b ∷ y) u v h = ground (arith, bytes_lt-append x y u v)

pub bytes_eq-append :
    (x y u v : Bytes)
    → length x ≡ length y
    → bytes_eq (x ++ u) (y ++ v) ≡ (bytes_eq x y && bytes_eq u v)
unfolding bytes_eq
bytes_eq-append [] [] u v h = refl
bytes_eq-append [] (b ∷ y) u v h = absurd (omega arith)
bytes_eq-append (a ∷ x) [] u v h = absurd (omega arith)
bytes_eq-append (a ∷ x) (b ∷ y) u v h = ground (arith, bytes_eq-append x y u v)
