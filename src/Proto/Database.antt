-- ===== src/Proto/Database.antt =====
-- The messages of db3_database_v2.proto in src/proto/proto: databases, collections and their states.
use rtstore.Base.{ℕ, Bool, Option, List}
use rtstore.Base.Bytes.{Bytes}
use rtstore.Base.Dict.{Dict}

-- `index_type` is an `i32`; the enum `IndexType` names 0, `UniqueKey`, to 3, and the decoder of messages
-- lets every number pass.
pub record Index : Type 0 where
  pub path : Bytes
  pub index_type : ℕ

pub record Collection : Type 0 where
  pub name : Bytes
  pub index_fields : List Index
  pub sender : Bytes

pub record DocumentDatabase : Type 0 where
  pub address : Bytes
  pub sender : Bytes
  pub desc : Bytes

pub record EventDatabase : Type 0 where
  pub address : Bytes
  pub sender : Bytes
  pub contract_address : Bytes
  pub desc : Bytes
  pub ttl : ℕ
  pub events_json_abi : Bytes
  pub evm_node_url : Bytes
  pub start_block : ℕ

pub data Database : Type 0 where
  doc_db : DocumentDatabase → Database
  event_db : EventDatabase → Database

pub record DatabaseMessage : Type 0 where
  pub database : Option Database

pub record CollectionState : Type 0 where
  pub total_doc_count : ℕ

-- `doc_order` is an `i64`.
pub record DatabaseState : Type 0 where
  pub total_doc_count : ℕ
  pub total_col_count : ℕ
  pub doc_order : ℕ

pub record DatabaseStatePersistence : Type 0 where
  pub addr : Bytes
  pub total_doc_count : ℕ
  pub total_col_count : ℕ
  pub collection_states : Dict CollectionState
  pub doc_order : ℕ

pub record BlockState : Type 0 where
  pub block : ℕ
  pub order : ℕ

pub record Document : Type 0 where
  pub id : ℕ
  pub doc : Bytes

pub data Parameter : Type 0 where
  int64_value : ℕ → Parameter
  bool_value : Bool → Parameter
  str_value : Bytes → Parameter

pub record QueryParameter : Type 0 where
  pub name : Bytes
  pub parameter : Option Parameter
  pub idx : ℕ

pub record Query : Type 0 where
  pub query_str : Bytes
  pub parameters : List QueryParameter
