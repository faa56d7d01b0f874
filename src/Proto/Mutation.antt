-- ===== src/Proto/Mutation.antt =====
-- The messages of db3_mutation_v2.proto in src/proto/proto: what a client asks the node to change.
use rtstore.Base.{ℕ, Option, none, some, List, ◌==◌, if◌then◌else◌}
use rtstore.Base.Bytes.{Bytes}
use rtstore.Proto.{
  MutationAction, create_document_db, add_collection, add_document, delete_document,
  update_document, create_event_db, mint_document_db, mint_collection, add_index, delete_event_db,
}
use rtstore.Proto.Database.{Index}

pub record DocumentDatabaseMutation : Type 0 where
  pub db_desc : Bytes

pub record CollectionMutation : Type 0 where
  pub index_fields : List Index
  pub collection_name : Bytes

pub record MintCollectionMutation : Type 0 where
  pub signature : Bytes
  pub tx : Bytes
  pub db_addr : Bytes
  pub name : Bytes
  pub sender : Bytes

pub record MintDocumentDatabaseMutation : Type 0 where
  pub signature : Bytes
  pub tx : Bytes
  pub db_addr : Bytes
  pub desc : Bytes
  pub sender : Bytes

pub record AddIndexMutation : Type 0 where
  pub collection_name : Bytes
  pub index_fields : List Index

pub record DocumentMask : Type 0 where
  pub fields : List Bytes

-- The ids are `i64`s.
pub record DocumentMutation : Type 0 where
  pub collection_name : Bytes
  pub documents : List Bytes
  pub ids : List ℕ
  pub masks : List DocumentMask

pub record EventDatabaseMutation : Type 0 where
  pub contract_address : Bytes
  pub ttl : ℕ
  pub desc : Bytes
  pub tables : List CollectionMutation
  pub events_json_abi : Bytes
  pub evm_node_url : Bytes
  pub start_block : ℕ

pub data Body : Type 0 where
  collection_mutation : CollectionMutation → Body
  document_mutation : DocumentMutation → Body
  event_database_mutation : EventDatabaseMutation → Body
  doc_database_mutation : DocumentDatabaseMutation → Body
  mint_doc_database_mutation : MintDocumentDatabaseMutation → Body
  mint_collection_mutation : MintCollectionMutation → Body
  add_index_mutation : AddIndexMutation → Body
  delete_event_database_mutation : Body

pub record BodyWrapper : Type 0 where
  pub db_address : Bytes
  pub body : Option Body

-- The action is the `i32` of the enumeration.
pub record Mutation : Type 0 where
  pub action : ℕ
  pub bodies : List BodyWrapper

-- `ExtraItem`, of db3_storage.proto: what the answer to a mutation tells besides its id.
pub record ExtraItem : Type 0 where
  pub key : Bytes
  pub value : Bytes

-- `MutationAction::from_i32`
unfoldable pub from_i32 : ℕ → Option MutationAction
from_i32 n =
    if n == 0
    then some create_document_db
    else if n == 1
    then some add_collection
    else if n == 2
    then some add_document
    else if n == 3
    then some delete_document
    else if n == 4
    then some update_document
    else if n == 5
    then some create_event_db
    else if n == 6
    then some mint_document_db
    else if n == 7
    then some mint_collection
    else if n == 8
    then some add_index
    else if n == 9
    then some delete_event_db
    else none
