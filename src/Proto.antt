-- ===== src/Proto.antt =====
-- The messages of src/proto/proto that the node keeps in its stores (db3_mutation_v2.proto,
-- db3_rollup.proto, db3_base.proto). Strings and byte fields are byte strings.
pub mod Flat
pub mod Frames
pub mod Database
pub mod Mutation
use rtstore.Base.{ℕ}
use rtstore.Base.Bytes.{Bytes}

pub data MutationAction : Type 0 where
  create_document_db add_collection add_document delete_document update_document : MutationAction
  create_event_db mint_document_db mint_collection add_index delete_event_db : MutationAction

pub record MutationHeader : Type 0 where
  pub block_id : ℕ
  pub order_id : ℕ
  pub sender : Bytes
  pub time : ℕ
  pub id : Bytes
  pub size : ℕ
  pub nonce : ℕ
  pub network : ℕ
  pub action : MutationAction
  pub doc_ids_map : Bytes

pub record MutationBody : Type 0 where
  pub payload : Bytes
  pub signature : Bytes

pub record GcRecord : Type 0 where
  pub start_block : ℕ
  pub end_block : ℕ
  pub data_size : ℕ
  pub time : ℕ
  pub processed_time : ℕ

pub record RollupRecord : Type 0 where
  pub end_block : ℕ
  pub raw_data_size : ℕ
  pub compress_data_size : ℕ
  pub processed_time : ℕ
  pub arweave_tx : Bytes
  pub time : ℕ
  pub mutation_count : ℕ
  pub cost : ℕ
  pub start_block : ℕ
  pub evm_tx : Bytes
  pub evm_cost : ℕ

pub record MutationState : Type 0 where
  pub mutation_count : ℕ
  pub total_mutation_bytes : ℕ
  pub gc_count : ℕ
  pub rollup_count : ℕ
  pub total_rollup_bytes : ℕ
  pub total_gc_bytes : ℕ
  pub total_rollup_raw_bytes : ℕ
  pub total_storage_cost : Bytes
  pub total_evm_cost : Bytes
  pub total_rollup_mutation_count : ℕ
