-- ===== src/Mint.antt =====
-- MetaStoreEventProcessor, of src/event/src/meta_store_event_processor.rs: databases and collections
-- that were made on a chain are minted by the storage node, which signs a mutation of its own. The
-- decoding of logs, the signing and the JSON text of typed data are the interface `Registry`; the
-- connection to the chain is the network's, and a log with its transaction is the argument of a step.
pub mod Handle
pub mod Light
mod Tests
use rtstore.Base.{ℕ, Bool, true, false, not, Option, none, some, List, [], ◌∷◌, ◌==◌, if◌then◌else◌}
use rtstore.Base.Text.{codes}
use rtstore.Base.Words.{add_u64}
use rtstore.Base.Decimal.{decimal}
use rtstore.Base.Utf8.{from_utf8, trim_zeros}
use rtstore.Base.Bytes.{Bytes, bytes_eq}
use rtstore.Base.Result.{store_event_error, Result, ok, err, ok_or, map_err, ◌>>=◌}
use rtstore.Engine.{Engine, Codec}
use rtstore.Crypto.{Hex, Sha3}
use rtstore.Crypto.Address.{Db3Address, to_hex}
use rtstore.Proto.{
  MutationAction, create_document_db, add_collection, add_document, delete_document,
  update_document, create_event_db, mint_document_db, mint_collection, add_index, delete_event_db,
  MutationHeader, MutationBody,
}
use rtstore.Proto.Database.{Collection, DatabaseMessage, BlockState}
use rtstore.Proto.Mutation.{
  Body, mint_doc_database_mutation, mint_collection_mutation, Mutation, ExtraItem,
}
use rtstore.MutationStore
use rtstore.MutationStore.Mutations.{Submission, generate_mutation_block_and_order, add_mutation}
use rtstore.StateStore
use rtstore.StateStore.{StateStore, get_nonce}
use rtstore.DbStore
use rtstore.DbStore.{DocStore, Texts}
use rtstore.DbStore.Apply.{apply_mutation}
use rtstore.Requests.{TypedData}
use rtstore.Node.{StorageNode}

pub record Log : Type 0 where
  pub topics : List Bytes
  pub content : Bytes

-- The encoded transaction and the text of its signature.
pub record Transaction : Type 0 where
  pub rlp : Bytes
  pub signature : Bytes

pub record CreateDatabase : Type 0 where
  pub network_id : ℕ
  pub sender : Db3Address
  pub database_address : Db3Address
  pub desc : Bytes

pub record CreateCollection : Type 0 where
  pub network_id : ℕ
  pub sender : Db3Address
  pub db : Db3Address
  pub name : Bytes

-- `decode_log` of the two events, their signatures, and the node's wallet: its address,
-- `sign_typed_data` and the text of the signature. `to_vec` is the JSON text of typed data.
pub record Registry : Type 0 where
  pub decode_database : Log → Option CreateDatabase
  pub decode_collection : Log → Option CreateCollection
  pub database_signature : Bytes
  pub collection_signature : Bytes
  pub wallet_address : Bytes
  pub sign_typed_data : TypedData → Option Bytes
  pub to_vec : TypedData → Option Bytes
  pub mutation_type : Bytes

-- The action as an `i32`.
unfoldable pub to_i32 : MutationAction → ℕ
to_i32 create_document_db = 0
to_i32 add_collection = 1
to_i32 add_document = 2
to_i32 delete_document = 3
to_i32 update_document = 4
to_i32 create_event_db = 5
to_i32 mint_document_db = 6
to_i32 mint_collection = 7
to_i32 add_index = 8
to_i32 delete_event_db = 9

-- What was signed.
pub record Signed : Type 0 where
  pub signature : Bytes
  pub mutation : Mutation
  pub nonce : ℕ
  pub payload : Bytes

-- The typed data of a mutation: its bytes, as a hexadecimal text, and the nonce.
unfoldable pub typed_mutation : ⦃h : Hex⦄ → ⦃r : Registry⦄ → Bytes → ℕ → TypedData
unfolding decimal
typed_mutation ⦃h⦄ ⦃r⦄ mbuf nonce = record {
  message =
      (codes "nonce", record { as_str = some (decimal nonce); as_bytes = none })
      ∷ (
        codes "payload",
        record { as_str = some (b'0' ∷ b'x' ∷ h.encode mbuf); as_bytes = some mbuf },
      )
      ∷ [];
  types_and_domain = r.mutation_type;
}

abbrev pub minting : MutationAction → Body → Mutation
minting action body = record {
  action = to_i32 action;
  bodies = record { db_address = []; body = some body } ∷ [];
}

module _ ⦃h : Hex⦄ ⦃r : Registry⦄ where
  -- `sign_mutation`, with the nonce of the node's own account.
  unfoldable pub sign_mutation :
      {Sdb : Type 0} ⦃S : Engine StateStore.Table Sdb⦄ ⦃c : Codec Mutation⦄
      → StateStore Sdb
      → Body
      → MutationAction
      → Result Signed
  unfolding get_nonce typed_mutation to_i32
  sign_mutation ⦃S⦄ ⦃c⦄ store body action = do
    used ← get_nonce (record { bytes = r.wallet_address }) store
    mbuf ← ok_or (c.encode (minting action body)) store_event_error
    signature ← ok_or (r.sign_typed_data (typed_mutation mbuf (add_u64 used 1))) store_event_error
    payload ← ok_or (r.to_vec (typed_mutation mbuf (add_u64 used 1))) store_event_error
    ok (record {
      signature = signature;
      mutation = minting action body;
      nonce = add_u64 used 1;
      payload = payload;
    })

  -- The body that a log asks for and its sender; `none` for a log of another network.
  abbrev for_database : ℕ → Transaction → CreateDatabase → Result (Option (Body × Db3Address))
  for_database network t event = if not (event.network_id == network) then ok none else do
    desc ← ok_or (from_utf8 event.desc) store_event_error
    ok (
        some (
          mint_doc_database_mutation (record {
            signature = t.signature;
            tx = h.encode t.rlp;
            db_addr = to_hex event.database_address;
            desc = trim_zeros desc;
            sender = to_hex event.sender;
          }),
          event.sender,
        ))

  unfoldable pub database_body : ℕ → Log → Transaction → Result (Option (Body × Db3Address))
  unfolding from_utf8 trim_zeros to_hex
  database_body network log t = do
    event ← ok_or (r.decode_database log) store_event_error
    for_database network t event

  abbrev for_collection : ℕ → Transaction → CreateCollection → Result (Option (Body × Db3Address))
  for_collection network t event = if not (event.network_id == network) then ok none else do
    name ← ok_or (from_utf8 event.name) store_event_error
    ok (
        some (
          mint_collection_mutation (record {
            signature = t.signature;
            tx = h.encode t.rlp;
            db_addr = to_hex event.db;
            name = trim_zeros name;
            sender = to_hex event.sender;
          }),
          event.sender,
        ))

  unfoldable pub collection_body : ℕ → Log → Transaction → Result (Option (Body × Db3Address))
  unfolding from_utf8 trim_zeros to_hex
  collection_body network log t = do
    event ← ok_or (r.decode_collection log) store_event_error
    for_collection network t event
