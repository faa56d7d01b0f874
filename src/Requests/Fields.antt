-- ===== src/Requests/Fields.antt =====
-- The fields of typed data: `get_str_field`, `get_u32_field` and `get_u64_field`. A field that is
-- missing, no text or no number gives the default.
use rtstore.Base.{ℕ, Option, none, some}
use rtstore.Base.Bytes.{Bytes}
use rtstore.Base.Dict
use rtstore.Base.Numerals.{parse_u32, parse_u64}
use rtstore.Requests.{TypedData}

abbrev unwrap_or : {A : Type 0} → Option A → A → A
unwrap_or none default = default
unwrap_or (some a) default = a

abbrev and_then : {A B : Type 0} → Option A → (A → Option B) → Option B
and_then none f = none
and_then (some a) f = f a

-- `data.message.get(name)` and `as_str`
unfoldable pub text_field : TypedData → Bytes → Option Bytes
unfolding Dict.get
text_field typed name = and_then (Dict.get name typed.message) (λ v. v.as_str)

unfoldable pub get_str_field : TypedData → Bytes → Bytes → Bytes
unfolding text_field
get_str_field typed name default_val = unwrap_or (text_field typed name) default_val

unfoldable pub get_u32_field : TypedData → Bytes → ℕ → ℕ
unfolding text_field
get_u32_field typed name default_val =
    unwrap_or (and_then (text_field typed name) parse_u32) default_val

unfoldable pub get_u64_field : TypedData → Bytes → ℕ → ℕ
unfolding text_field
get_u64_field typed name default_val =
    unwrap_or (and_then (text_field typed name) parse_u64) default_val
