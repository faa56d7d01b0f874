-- ===== src/Requests/DocIds.antt =====
-- `convert_doc_ids_map_to_vec`: the ids of a mutation's documents, from the JSON text in its header.
use rtstore.Base.{ℕ, Option, none, some, List, [], ◌∷◌, ◌==◌, if◌then◌else◌}
use rtstore.Base.Bytes.{Bytes}
use rtstore.Base.Dict
use rtstore.Base.Dict.{Dict}
use rtstore.Base.Numerals.{parse_i64}
use rtstore.Base.Result.{apply_mutation_error, Result, ok, ok_or, ◌>>=◌}

-- The members of a JSON object, with their values if these are texts; `none` for any other text.
pub record JsonObjects : Type 0 where
  pub members : Bytes → Option (List (Bytes × Option Bytes))

abbrev push_char : ℕ → List Bytes → List Bytes
push_char c [] = (c ∷ []) ∷ []
push_char c (w ∷ ws) = (c ∷ w) ∷ ws

-- `split(",")`: there is always a first piece.
unfoldable pub split_commas : Bytes → List Bytes
split_commas [] = [] ∷ []
split_commas (c ∷ cs) =
    let rest = split_commas cs in if c == b',' then [] ∷ rest else push_char c rest

unfoldable pub parse_ids : List Bytes → Result (List ℕ)
unfolding parse_i64
parse_ids [] = ok []
parse_ids (v ∷ vs) = do
  id ← ok_or (parse_i64 v) apply_mutation_error
  ids ← parse_ids vs
  ok (id ∷ ids)

-- A member that is no text is passed over.
abbrev pub insert_ids : Bytes → Dict (List ℕ) → Option Bytes → Result (Dict (List ℕ))
insert_ids k res none = ok res
insert_ids k res (some v) = do doc_ids ← parse_ids (split_commas v); ok (Dict.insert k doc_ids res)

unfoldable pub ids_of_members : List (Bytes × Option Bytes) → Dict (List ℕ) → Result (Dict (List ℕ))
unfolding parse_ids split_commas Dict.insert
ids_of_members [] res = ok res
ids_of_members ((k, v) ∷ ms) res = do res' ← insert_ids k res v; ids_of_members ms res'

abbrev pub ids_of_json : Option (List (Bytes × Option Bytes)) → Result (Dict (List ℕ))
ids_of_json none = ok []
ids_of_json (some members) = ids_of_members members []

-- A text that is no JSON object has no ids.
unfoldable pub convert_doc_ids_map_to_vec : ⦃j : JsonObjects⦄ → Bytes → Result (Dict (List ℕ))
unfolding ids_of_members
convert_doc_ids_map_to_vec ⦃j⦄ text = ids_of_json (j.members text)
