-- ===== src/Node/DocIds.antt =====
-- The ids of new documents go from the storage node to the indexers as a JSON text in the header of a
-- mutation.
use rtstore.Base.{ℕ, ◌≡◌, refl, ◌≢◌, ◌<◌, ◌^◌, ◌∙◌, ap, some, List, [], ◌∷◌, ◌++◌, map, arith}
use rtstore.Base.Bytes.{Bytes, bytes_eq}
use rtstore.Base.Decimal.{signed_decimal}
use rtstore.Base.Digits.{AreDigits, signed_decimal-AreDigits, parse_i64-signed_decimal}
use rtstore.Base.Result.{ok}
use rtstore.Proto.Mutation.{ExtraItem}
use rtstore.Requests.DocIds.{
  JsonObjects, split_commas, parse_ids, ids_of_members, convert_doc_ids_map_to_vec,
}
use rtstore.Node.{
  Verify, document_key, document_values, join_with_commas, ids_text, get_create_doc_ids_map,
}

-- The items of an `AddDocument` mutation: one to a document.
abbrev pub document_item : ℕ → ExtraItem
document_item id = record { key = document_key; value = signed_decimal id }

abbrev pub AreIds : List ℕ → Type 0
AreIds [] = Unit
AreIds (id ∷ ids) = (id < 2 ^ 63) × AreIds ids

-- What is asked of `serde_json`: the object with the ids under "0" reads back.
pub record ReadsBack (u : Verify) (j : JsonObjects) : Type 0 where
  pub members_lem :
      (text : Bytes) → j.members (u.json_of_ids text) ≡ some ((b'0' ∷ [], some text) ∷ [])

split_commas-digits : (v : Bytes) → AreDigits v → split_commas v ≡ v ∷ []
unfolding split_commas
split_commas-digits [] h = refl
split_commas-digits (c ∷ v) h = ground (arith, split_commas-digits v h.2)

split_commas-comma :
    (v rest : Bytes) → AreDigits v → split_commas (v ++ (b',' ∷ rest)) ≡ v ∷ split_commas rest
unfolding split_commas
split_commas-comma [] rest h = refl
split_commas-comma (c ∷ v) rest h = ground (arith, split_commas-comma v rest h.2)

-- The texts of the ids.
texts : List ℕ → List Bytes
texts [] = []
texts (id ∷ ids) = signed_decimal id ∷ texts ids

document_values-texts : (ids : List ℕ) → document_values (map document_item ids) ≡ texts ids
unfolding document_values texts bytes_eq
document_values-texts [] = refl
document_values-texts (id ∷ ids) = ap (λ vs. signed_decimal id ∷ vs) (document_values-texts ids)

split-join :
    (id : ℕ) (ids : List ℕ)
    → AreIds (id ∷ ids)
    → split_commas (join_with_commas (texts (id ∷ ids))) ≡ texts (id ∷ ids)
unfolding join_with_commas texts
split-join id [] h = split_commas-digits (signed_decimal id) (signed_decimal-AreDigits id h.0).0
split-join id (next ∷ ids) h =
    split_commas-comma (signed_decimal id) (join_with_commas (texts (next ∷ ids)))
      (signed_decimal-AreDigits id h.0).0
    ∙ ap (λ vs. signed_decimal id ∷ vs) (split-join next ids h.1)

parse_ids-texts : (ids : List ℕ) → AreIds ids → parse_ids (texts ids) ≡ ok ids
unfolding parse_ids texts
parse_ids-texts [] h = refl
parse_ids-texts (id ∷ ids) h =
    ground (arith, parse_i64-signed_decimal id h.0, parse_ids-texts ids h.1)

append-nonempty : (v w : Bytes) → v ≢ [] → v ++ w ≢ []
append-nonempty [] w h e = h refl
append-nonempty (c ∷ v) w h e = cc

join-nonempty :
    (id : ℕ) (ids : List ℕ) → AreIds (id ∷ ids) → join_with_commas (texts (id ∷ ids)) ≢ []
unfolding join_with_commas texts
join-nonempty id [] h = (signed_decimal-AreDigits id h.0).1
join-nonempty id (next ∷ ids) h =
    append-nonempty (signed_decimal id) (b',' ∷ join_with_commas (texts (next ∷ ids)))
      (signed_decimal-AreDigits id h.0).1

module _ ⦃u : Verify⦄ ⦃j : JsonObjects⦄ where
  ids_text-nonempty : (t : Bytes) → t ≢ [] → ids_text t ≡ u.json_of_ids t
  ids_text-nonempty [] h = absurd (h refl)
  ids_text-nonempty (c ∷ t) h = refl

  -- If the JSON object reads back, the ids of the documents that a mutation adds, one at least and
  -- none negative, come out of the header's text as they went in, all under "0".
  pub convert-get_create_doc_ids_map :
      ReadsBack u j
      → (id : ℕ) (ids : List ℕ) → AreIds (id ∷ ids)
      → convert_doc_ids_map_to_vec (get_create_doc_ids_map (map document_item (id ∷ ids)))
        ≡ ok ((b'0' ∷ [], id ∷ ids) ∷ [])
  unfolding convert_doc_ids_map_to_vec get_create_doc_ids_map ids_of_members
  convert-get_create_doc_ids_map law id ids h =
      let text = join_with_commas (texts (id ∷ ids)) in
      let split : split_commas text ≡ texts (id ∷ ids) = split-join id ids h in
      rw (document_values-texts (id ∷ ids)) (
        rw (ids_text-nonempty text (join-nonempty id ids h))
          (rw (law.members_lem text) (rw split (rw (parse_ids-texts (id ∷ ids) h) refl))))
