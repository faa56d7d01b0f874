-- ===== src/Filters/Tests.antt =====
-- A composite filter of one field, and one with another operator, on documents that are dictionaries.
use rtstore.Base.{◌≡◌, ◌≢◌, ◌↔◌, refl, Bool, true, false, Option, none, some, [], ◌∷◌, map_option}
use rtstore.Base.Text.{codes}
use rtstore.Base.Bytes.{Bytes, bytes_eq}
use rtstore.Base.Result.{invalid_filter_json, ok, err}
use rtstore.Base.Dict
use rtstore.Base.Dict.{Dict}
use rtstore.Filters.{
  Element, boolean, int32, int64, string, other, BsonLib, equal, and_op, FieldFilter,
  composite_filter, integer_value, equality_filter, equality_filters, field_filter_from_json_value,
  filter_value_from_bson_value, composite_filter_from_json_value,
}
use rtstore.Filters.Accepted.{AreEqualities, composite_filter-AreEqualities}

abbrev text_of : Element → Option Bytes
text_of (boolean b) = none
text_of (int32 n) = none
text_of (int64 n) = none
text_of (string s) = some s
text_of other = none

abbrev and_then : Option Element → Option Bytes
and_then none = none
and_then (some e) = text_of e

abbrev is_some : Option Element → Bool
is_some none = false
is_some (some e) = true

abbrev Item : Type 0
Item = Element × Option (Dict Element)

abbrev toy_bson : BsonLib Bytes Item (Dict Element)
unfolding Dict.get
toy_bson = record {
  from_str = λ b. some b;
  to_document = λ b. some [];
  contains_key = λ d k. is_some (Dict.get k d);
  get = λ d k. map_option (λ e. (e, none)) (Dict.get k d);
  get_str = λ d k. and_then (Dict.get k d);
  get_array = λ d k. none;
  as_document = λ v. v.1;
  element = λ v. v.0;
}

abbrev age_is : Bytes → Item
age_is op = (
  other,
  some (
      (codes "field", string (codes "age"))
      ∷ (codes "value", int32 44)
      ∷ (codes "op", string op)
      ∷ []),
)

abbrev age_filter : FieldFilter
age_filter = record { field = codes "age"; op = equal; value = integer_value 44 }

accepted :
    composite_filter_from_json_value toy_bson (age_is (codes "==") ∷ []) and_op
    ≡ ok (composite_filter (age_filter ∷ []) and_op)
unfolding composite_filter_from_json_value equality_filters equality_filter
    field_filter_from_json_value filter_value_from_bson_value toy_bson Dict.get bytes_eq
accepted = refl

refused :
    composite_filter_from_json_value toy_bson (age_is (codes ">=") ∷ []) and_op
    ≡ err invalid_filter_json
unfolding composite_filter_from_json_value equality_filters equality_filter
    field_filter_from_json_value filter_value_from_bson_value toy_bson Dict.get bytes_eq
refused = refl

composite_filter-AreEqualities_example :
    (composite_filter_from_json_value toy_bson (age_is (codes "==") ∷ []) and_op
      ≡ ok (composite_filter (age_filter ∷ []) and_op))
    ↔ (((age_is (codes "==") ∷ []) ≢ [])
        × AreEqualities toy_bson (age_is (codes "==") ∷ []) (age_filter ∷ []))
composite_filter-AreEqualities_example =
    composite_filter-AreEqualities toy_bson (age_is (codes "==") ∷ []) and_op (age_filter ∷ [])
