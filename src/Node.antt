-- ===== src/Node.antt =====
-- StorageNodeV2Impl, of src/node/src/storage_node_light_impl.rs: what the node does with a mutation
-- that a client sends. The check of the signature is the interface `Verify`; the clock is an argument.
-- The three stores are owned by the node: a request is one step.
pub mod Send
pub mod Accepted
pub mod Replays
pub mod DocIds
pub mod Queries
pub mod Tasks
mod Tests
use rtstore.Base.{ℕ, Option, none, some, List, [], ◌∷◌, ◌++◌, ◌==◌, if◌then◌else◌}
use rtstore.Base.Bytes.{Bytes, bytes_eq}
use rtstore.Base.Result.{Db3Error, Result, ok, err}
use rtstore.Crypto.Address.{Db3Address}
use rtstore.Proto.Mutation.{Mutation, ExtraItem}
use rtstore.MutationStore.{MutationStore}
use rtstore.StateStore.{StateStore}
use rtstore.DbStore.{DbStore}

-- `tonic::Status`, without its text.
pub data Status : Type 0 where
  invalid_argument internal : Status

pub record SendMutationRequest : Type 0 where
  pub signature : Bytes
  pub payload : Bytes

pub record SendMutationResponse : Type 0 where
  pub id : Bytes
  pub code : ℕ
  pub msg : Bytes
  pub items : List ExtraItem
  pub block : ℕ
  pub order : ℕ

-- The fields that `send_mutation` uses.
pub record StorageNode (Mdb Sdb Ddb Docs : Type 0) : Type 0 where
  pub storage : MutationStore Mdb
  pub state_store : StateStore Sdb
  pub db_store : DbStore Ddb Docs
  pub network_id : ℕ

-- `MutationUtil::unwrap_and_light_verify`: the typed data, the signature and the encoding of the
-- mutation are other packages'. `json_of_ids` is the text of the JSON object that has the ids under
-- "0".
pub record Verify : Type 0 where
  pub unwrap_and_light_verify : Bytes → Bytes → Result (Mutation × Db3Address × ℕ)
  pub json_of_ids : Bytes → Bytes

-- "document"
abbrev pub document_key : Bytes
document_key = b'd' ∷ b'o' ∷ b'c' ∷ b'u' ∷ b'm' ∷ b'e' ∷ b'n' ∷ b't' ∷ []

-- The values of the documents' items.
unfoldable pub document_values : List ExtraItem → List Bytes
document_values [] = []
document_values (i ∷ is) =
    let rest = document_values is in if bytes_eq i.key document_key then i.value ∷ rest else rest

-- `join(",")`
unfoldable pub join_with_commas : List Bytes → Bytes
join_with_commas [] = []
join_with_commas (v ∷ []) = v
join_with_commas (v ∷ w ∷ vs) = v ++ (b',' ∷ join_with_commas (w ∷ vs))

abbrev pub ids_text : ⦃u : Verify⦄ → Bytes → Bytes
ids_text [] = []
ids_text ⦃u⦄ (c ∷ cs) = u.json_of_ids (c ∷ cs)

-- `MutationUtil::get_create_doc_ids_map`
unfoldable pub get_create_doc_ids_map : ⦃u : Verify⦄ → List ExtraItem → Bytes
unfolding document_values join_with_commas
get_create_doc_ids_map items = ids_text (join_with_commas (document_values items))
