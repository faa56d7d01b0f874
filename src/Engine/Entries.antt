-- ===== src/Engine/Entries.antt =====
-- The content of one table: its entries in the order of the keys.
use rtstore.Base.{◌≡◌, refl, true, Option, none, some, List, [], ◌∷◌, arith, if◌then◌else◌}
use rtstore.Base.Bytes.{Bytes, bytes_eq, bytes_lt}
use rtstore.Base.Bytes.Order.{eq_of_bytes_eq, bytes_lt_irrefl, bytes_lt_trans}

abbrev pub Entry : Type 0
Entry = Bytes × Bytes

unfoldable pub lookup : Bytes → List Entry → Option Bytes
lookup key [] = none
lookup key ((k, v) ∷ es) = if bytes_eq k key then some v else lookup key es

-- What is left from the first key that is not below `key`.
unfoldable pub from : Bytes → List Entry → List Entry
from key [] = []
from key ((k, v) ∷ es) = if bytes_lt k key then from key es else (k, v) ∷ es

-- All keys come after `key`.
abbrev pub IsAfter : Bytes → List Entry → Type 0
IsAfter key [] = Unit {0}
IsAfter key ((k, v) ∷ es) = (bytes_lt key k ≡ true) × IsAfter key es

abbrev pub IsAscending : List Entry → Type 0
IsAscending [] = Unit {0}
IsAscending ((k, v) ∷ es) = IsAfter k es × IsAscending es

pub IsAfter-trans :
    (a b : Bytes) (es : List Entry) → bytes_lt a b ≡ true → IsAfter b es → IsAfter a es
IsAfter-trans a b [] h k = tt
IsAfter-trans a b ((c, v) ∷ es) h k = (bytes_lt_trans a b c h k.0, IsAfter-trans a b es h k.1)

-- A key that all others come after is not there.
pub lookup_after : (key : Bytes) (es : List Entry) → IsAfter key es → lookup key es ≡ none
unfolding lookup
lookup_after key [] h = refl
lookup_after key ((k, v) ∷ es) h =
    ground (arith, eq_of_bytes_eq k key, bytes_lt_irrefl key, lookup_after key es h.1)

-- Everything is left from the empty key.
pub from_first : (es : List Entry) → from [] es ≡ es
unfolding from bytes_lt
from_first [] = refl
from_first (([], v) ∷ es) = refl
from_first ((b ∷ k, v) ∷ es) = refl
