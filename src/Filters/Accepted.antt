-- ===== src/Filters/Accepted.antt =====
-- Which composite filters are accepted, told without the code's loop.
use mathlib.Core.Path.{subst}
use rtstore.Base.{
  ◌≡◌, ◌↔◌, ◌≢◌, refl, not, if◌then◌else◌, sym, ap, ◌∙◌, inl, inr, true, Bool-cases, Option, none,
  some, List, [], ◌∷◌, arith,
}
use rtstore.Base.Text.{codes}
use rtstore.Base.Bytes.{Bytes, bytes_eq}
use rtstore.Base.Bytes.Order.{eq_of_bytes_eq}
use rtstore.Base.Result.{Db3Error, invalid_filter_json, Result, ok, err, ok_or, map_err, ◌>>=◌}
use rtstore.Filters.{
  BsonLib, equal, CompositeOp, FieldFilter, composite_filter, operator, filter_value,
  filter_value_from_bson_value, field_filter_from_json_value, equality_filter, equality_filters,
  composite_filter_from_json_value,
}

-- What a chain of results that ended well went through.
bind-ok :
    {A B : Type 0} (r : Result A) (f : A → Result B) {b : B}
    → (r >>= f) ≡ ok b
    → (a : A) × (r ≡ ok a) × (f a ≡ ok b)
bind-ok (ok a) f done = (a, refl, done)
bind-ok (err e) f done = ground (arith, done)

some_of_ok_or : {A : Type 0} (o : Option A) (e : Db3Error) {a : A} → ok_or o e ≡ ok a → o ≡ some a
some_of_ok_or none e done = ground (arith, done)
some_of_ok_or (some a) e done = ground (arith, done)

ok_of_map_err : {A : Type 0} (r : Result A) (e : Db3Error) {a : A} → map_err r e ≡ ok a → r ≡ ok a
ok_of_map_err (ok a) e done = done
ok_of_map_err (err x) e done = ground (arith, done)

ok_injective : {A : Type 0} {a b : A} → ok a ≡ ok b → a ≡ b
ok_injective {A} {a} {b} same = ground (arith, same)

some_injective : {A : Type 0} {a b : A} → some a ≡ some b → a ≡ b
some_injective {A} {a} {b} same = ground (arith, same)

composite_injective :
    {fs gs : List FieldFilter} {op : CompositeOp}
    → composite_filter fs op ≡ composite_filter gs op
    → fs ≡ gs
composite_injective {fs} {gs} same = ground (arith, same)

cons_not_empty : {A : Type 0} {v : A} {vs : List A} → (v ∷ vs) ≢ []
cons_not_empty same = ground (arith, same)

module _ {Json Value Doc : Type 0} (B : BsonLib Json Value Doc) where
  -- A value that says that a field is equal to a value.
  pub record IsEquality (v : Value) (f : FieldFilter) : Type 0 where
    pub doc : Doc
    pub value : Value
    pub is_doc : B.as_document v ≡ some doc
    pub has_field : B.get_str doc (codes "field") ≡ some f.field
    pub has_value : B.get doc (codes "value") ≡ some value
    pub has_type : filter_value (B.element value) ≡ ok f.value
    pub has_op : B.get_str doc (codes "op") ≡ some (codes "==")
    pub is_equal : f.op ≡ equal

  -- Filter by filter, in order.
  abbrev pub AreEqualities : List Value → List FieldFilter → Type 0
  AreEqualities [] [] = Unit
  AreEqualities [] (f ∷ fs) = ⊥
  AreEqualities (v ∷ vs) [] = ⊥
  AreEqualities (v ∷ vs) (f ∷ fs) = IsEquality v f × AreEqualities vs fs

  equality_accepts : (v : Value) (f : FieldFilter) → IsEquality v f → equality_filter B v ≡ ok f
  unfolding equality_filter field_filter_from_json_value filter_value_from_bson_value bytes_eq
  equality_accepts v f e = rw e.is_doc (
      rw e.has_op (
        rw e.has_field
          (rw e.has_value (rw e.has_type (ap (λ o. ok (record f { op = o })) (sym e.is_equal))))))

  -- What a field filter that is accepted was read from.
  record IsRead (doc : Doc) (f : FieldFilter) : Type 0 where
    pub value : Value
    pub op_str : Bytes
    pub has_field : B.get_str doc (codes "field") ≡ some f.field
    pub has_value : B.get doc (codes "value") ≡ some value
    pub has_type : filter_value (B.element value) ≡ ok f.value
    pub has_op : B.get_str doc (codes "op") ≡ some op_str
    pub is_op : operator op_str ≡ ok f.op

  field_filter-IsRead :
      (doc : Doc) (f : FieldFilter) → field_filter_from_json_value B doc ≡ ok f → IsRead doc f
  unfolding field_filter_from_json_value filter_value_from_bson_value
  field_filter-IsRead doc f done =
      let (field, field_ok, s1) = bind-ok (ok_or (B.get_str doc (codes "field")) _) _ done in
      let (x, x_ok, s2) = bind-ok (ok_or (B.get doc (codes "value")) _) _ s1 in
      let (value, value_ok, s3) = bind-ok (filter_value (B.element x)) _ s2 in
      let (text, text_ok, s4) = bind-ok (ok_or (B.get_str doc (codes "op")) _) _ s3 in
      let (op, op_ok, s5) = bind-ok (operator text) _ s4 in
      let same = ok_injective s5 in
      record {
        value = x;
        op_str = text;
        has_field = some_of_ok_or _ _ field_ok ∙ ap (λ g. some g.field) same;
        has_value = some_of_ok_or _ _ x_ok;
        has_type = value_ok ∙ ap (λ g. ok g.value) same;
        has_op = some_of_ok_or _ _ text_ok;
        is_op = op_ok ∙ ap (λ g. ok g.op) same;
      }

  read-IsEquality :
      (v : Value) (doc : Doc) (f : FieldFilter) (op : Bytes)
      → B.as_document v ≡ some doc
      → B.get_str doc (codes "op") ≡ some op
      → bytes_eq op (codes "==") ≡ true
      → IsRead doc f
      → IsEquality v f
  unfolding bytes_eq
  read-IsEquality v doc f op is_doc has_op equals r =
      let is_text = eq_of_bytes_eq op (codes "==") equals in
      let the_op = has_op ∙ ap (λ t. some t) is_text in
      record {
        doc = doc;
        value = r.value;
        is_doc = is_doc;
        has_field = r.has_field;
        has_value = r.has_value;
        has_type = r.has_type;
        has_op = the_op;
        is_equal =
            sym
              (ok_injective (ap operator (sym (some_injective (sym r.has_op ∙ the_op))) ∙ r.is_op));
      }

  only-IsEquality :
      (v : Value) (doc : Doc) (f : FieldFilter) (op : Bytes)
      → B.as_document v ≡ some doc
      → B.get_str doc (codes "op") ≡ some op
      → (if not (bytes_eq op (codes "=="))
          then err invalid_filter_json
          else map_err (field_filter_from_json_value B doc) invalid_filter_json)
        ≡ ok f
      → IsEquality v f
  only-IsEquality v doc f op is_doc has_op done = elim (Bool-cases (bytes_eq op (codes "=="))) [
    | inl equals ↦
        let read =
          ok_of_map_err (field_filter_from_json_value B doc) invalid_filter_json
            (ground (arith, equals, done)) in
        read-IsEquality v doc f op is_doc has_op equals (field_filter-IsRead doc f read)
    | inr differs ↦ ground (arith, differs, done)
  ]

  accepted-IsEquality : (v : Value) (f : FieldFilter) → equality_filter B v ≡ ok f → IsEquality v f
  unfolding equality_filter
  accepted-IsEquality v f done =
      let (doc, doc_ok, s1) = bind-ok (ok_or (B.as_document v) _) _ done in
      let (op, op_ok, s2) = bind-ok (ok_or (B.get_str doc (codes "op")) _) _ s1 in
      only-IsEquality v doc f op (some_of_ok_or _ _ doc_ok) (some_of_ok_or _ _ op_ok) s2

  all_accept :
      (vs : List Value) (fs : List FieldFilter)
      → AreEqualities vs fs
      → equality_filters B vs ≡ ok fs
  unfolding equality_filters
  all_accept [] [] e = refl
  all_accept [] (f ∷ fs) e = elim e [ ]
  all_accept (v ∷ vs) [] e = elim e [ ]
  all_accept (v ∷ vs) (f ∷ fs) e = rw (equality_accepts v f e.0) (rw (all_accept vs fs e.1) refl)

  all-AreEqualities :
      (vs : List Value) (fs : List FieldFilter)
      → equality_filters B vs ≡ ok fs
      → AreEqualities vs fs
  unfolding equality_filters
  all-AreEqualities [] [] done = tt
  all-AreEqualities [] (f ∷ fs) done = ground (arith, done)
  all-AreEqualities (v ∷ vs) fs done =
      let (g, g_ok, s1) = bind-ok (equality_filter B v) _ done in
      let (gs, gs_ok, s2) = bind-ok (equality_filters B vs) _ s1 in
      subst (λ (hs : List FieldFilter). AreEqualities (v ∷ vs) hs) (ok_injective s2)
        (accepted-IsEquality v g g_ok, all-AreEqualities vs gs gs_ok)

  -- A composite filter is accepted exactly if there is a filter and each says that a field is equal to
  -- a value; the message has them in their order.
  pub composite_filter-AreEqualities :
      (vs : List Value) (op : CompositeOp) (fs : List FieldFilter)
      → (composite_filter_from_json_value B vs op ≡ ok (composite_filter fs op))
        ↔ ((vs ≢ []) × AreEqualities vs fs)
  unfolding composite_filter_from_json_value
  composite_filter-AreEqualities [] op fs = ground arith
  composite_filter-AreEqualities (v ∷ vs) op fs = (
    λ done.
        let (gs, gs_ok, s) = bind-ok (equality_filters B (v ∷ vs)) _ done in
        (
          cons_not_empty,
          all-AreEqualities (v ∷ vs) fs (gs_ok ∙ ap ok (composite_injective (ok_injective s))),
        ),
    λ e. rw (all_accept (v ∷ vs) fs e.1) refl,
  )
