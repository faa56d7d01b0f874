-- ===== src/Filters.antt =====
-- The filters of queries, of src/base/src/bson_util.rs: a filter in JSON is read into the message
-- `StructuredQuery::Filter`. JSON and BSON are the interface `BsonLib`.
pub mod Accepted
mod Tests
use rtstore.Base.{
  ℕ, ◌+◌, ◌-◌, ◌^◌, ltb, Bool, not, Option, none, some, List, [], ◌∷◌, if◌then◌else◌,
}
use rtstore.Base.Text.{codes}
use rtstore.Base.Bytes.{Bytes, bytes_eq}
use rtstore.Base.Result.{
  invalid_json, invalid_document_bytes, invalid_filter_value, invalid_filter_json,
  invalid_filter_op, Result, ok, err, ok_or, map_err, ◌>>=◌,
}

-- What a BSON value is to a filter; an `i32` and an `i64` are the numbers of their bits.
pub data Element : Type 0 where
  boolean : Bool → Element
  int32 : ℕ → Element
  int64 : ℕ → Element
  string : Bytes → Element
  other : Element

-- The packages serde_json and bson: an accessor is `none` where there is no such key or the value has
-- another type.
pub record BsonLib (Json Value Doc : Type 0) : Type 0 where
  pub from_str : Bytes → Option Json
  pub to_document : Json → Option Doc
  pub contains_key : Doc → Bytes → Bool
  pub get : Doc → Bytes → Option Value
  pub get_str : Doc → Bytes → Option Bytes
  pub get_array : Doc → Bytes → Option (List Value)
  pub as_document : Value → Option Doc
  pub element : Value → Element

-- `structured_query::Value` and its filters; the other types of value are not told apart.
pub data ValueType : Type 0 where
  boolean_value : Bool → ValueType
  integer_value : ℕ → ValueType
  string_value : Bytes → ValueType
  unsupported : ValueType

pub data Operator : Type 0 where
  equal greater_than less_than greater_than_or_equal less_than_or_equal : Operator

pub data CompositeOp : Type 0 where
  and_op : CompositeOp

pub record FieldFilter : Type 0 where
  pub field : Bytes
  pub op : Operator
  pub value : ValueType

pub data Filter : Type 0 where
  field_filter : FieldFilter → Filter
  composite_filter : List FieldFilter → CompositeOp → Filter

-- `n as i64` of an `i32`
abbrev pub extended : ℕ → ℕ
extended n = if ltb n (2 ^ 31) then n else n + (2 ^ 64 - 2 ^ 32)

abbrev pub filter_value : Element → Result ValueType
filter_value (boolean b) = ok (boolean_value b)
filter_value (int32 n) = ok (integer_value (extended n))
filter_value (int64 n) = ok (integer_value n)
filter_value (string s) = ok (string_value s)
filter_value other = err invalid_filter_value

-- `bson_value_from_proto_value`
unfoldable pub bson_value_from_proto_value : Option ValueType → Result Element
bson_value_from_proto_value none = err invalid_filter_value
bson_value_from_proto_value (some (boolean_value b)) = ok (boolean b)
bson_value_from_proto_value (some (integer_value n)) = ok (int64 n)
bson_value_from_proto_value (some (string_value s)) = ok (string s)
bson_value_from_proto_value (some unsupported) = err invalid_filter_value

-- "!=" and every other text are refused.
abbrev pub operator : Bytes → Result Operator
operator s =
    if bytes_eq s (codes "==")
    then ok equal
    else if bytes_eq s (codes ">")
    then ok greater_than
    else if bytes_eq s (codes "<")
    then ok less_than
    else if bytes_eq s (codes ">=")
    then ok greater_than_or_equal
    else if bytes_eq s (codes "<=")
    then ok less_than_or_equal
    else err invalid_filter_op

module _ {Json Value Doc : Type 0} (B : BsonLib Json Value Doc) where
  unfoldable pub json_str_to_bson_document : Bytes → Result Doc
  json_str_to_bson_document json_str = do
    value ← ok_or (B.from_str json_str) invalid_json
    ok_or (B.to_document value) invalid_document_bytes

  unfoldable pub filter_value_from_bson_value : Value → Result ValueType
  filter_value_from_bson_value value = filter_value (B.element value)

  unfoldable pub field_filter_from_json_value : Doc → Result FieldFilter
  unfolding filter_value_from_bson_value
  field_filter_from_json_value doc = do
    field ← ok_or (B.get_str doc (codes "field")) invalid_filter_json
    v ← ok_or (B.get doc (codes "value")) invalid_filter_json
    value ← filter_value_from_bson_value v
    op_str ← ok_or (B.get_str doc (codes "op")) invalid_filter_json
    op ← operator op_str
    ok (record { field = field; op = op; value = value })

  -- One of the filters of a composite one: only "==" is there.
  unfoldable pub equality_filter : Value → Result FieldFilter
  unfolding field_filter_from_json_value
  equality_filter filter = do
    doc ← ok_or (B.as_document filter) invalid_filter_json
    op_str ← ok_or (B.get_str doc (codes "op")) invalid_filter_json
    if not (bytes_eq op_str (codes "=="))
        then err invalid_filter_json
        else map_err (field_filter_from_json_value doc) invalid_filter_json

  unfoldable pub equality_filters : List Value → Result (List FieldFilter)
  unfolding equality_filter
  equality_filters [] = ok []
  equality_filters (v ∷ vs) = do f ← equality_filter v; fs ← equality_filters vs; ok (f ∷ fs)

  unfoldable pub composite_filter_from_json_value : List Value → CompositeOp → Result Filter
  unfolding equality_filters
  composite_filter_from_json_value [] op = err invalid_filter_json
  composite_filter_from_json_value (v ∷ vs) op = do
    fs ← equality_filters (v ∷ vs)
    ok (composite_filter fs op)

  abbrev composite_under : Option (List Value) → Result (Option Filter)
  unfolding composite_filter_from_json_value
  composite_under none = err invalid_filter_json
  composite_under (some filters) = do
    f ← composite_filter_from_json_value filters and_op
    ok (some f)

  abbrev filter_of_doc : Doc → Result (Option Filter)
  unfolding field_filter_from_json_value composite_under
  filter_of_doc doc =
      if B.contains_key doc (codes "field")
      then (do f ← field_filter_from_json_value doc; ok (some (field_filter f)))
      else if B.contains_key doc (codes "AND")
      then composite_under (B.get_array doc (codes "AND"))
      else if B.contains_key doc (codes "and")
      then composite_under (B.get_array doc (codes "and"))
      else err invalid_filter_json

  unfoldable pub filter_from_json_value : Bytes → Result (Option Filter)
  unfolding json_str_to_bson_document filter_of_doc
  filter_from_json_value [] = ok none
  filter_from_json_value (c ∷ cs) = do
    doc ← map_err (json_str_to_bson_document (c ∷ cs)) invalid_filter_value
    filter_of_doc doc
