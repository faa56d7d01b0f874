-- ===== src/Indexer/Queries.antt =====
-- The requests to an indexer, which only read.
use rtstore.Base.{ℕ, Option, none, some, List, map}
use rtstore.Base.Bytes.{Bytes}
use rtstore.Base.Answer.{invalid_argument, internal, Answer, answer, status, or_status, ◌>>=◌}
use rtstore.Engine.{Engine, Codec}
use rtstore.Crypto.{Hex}
use rtstore.Crypto.Address.{from_hex}
use rtstore.Proto.Database
use rtstore.Proto.Database.{Collection, Document, Query}
use rtstore.DbStore
use rtstore.DbStore.{DbStore, DocStore}
use rtstore.DbStore.Lookup.{query_docs, get_doc, get_collection_of_database}
use rtstore.Event.{EventProcessor}
use rtstore.Indexer.{IndexerNode}

-- `ContractSyncStatus`, of db3_indexer.proto.
pub record ContractSyncStatus : Type 0 where
  pub addr : Bytes
  pub evm_node_url : Bytes
  pub block_number : ℕ
  pub event_number : ℕ

abbrev pub sync_status : Bytes × EventProcessor → ContractSyncStatus
sync_status (name, p) = record {
  addr = p.config.contract_addr;
  evm_node_url = p.config.evm_node_url;
  block_number = p.block_number;
  event_number = p.event_number;
}

-- `if let Some(q) = &r.query`
abbrev pub asked : {A : Type 0} → (Query → Answer A) → Option Query → Answer A
asked f none = status invalid_argument
asked f (some q) = f q

module _ {Db Docs : Type 0} where
  unfoldable pub get_contract_sync_status : IndexerNode Db Docs → Answer (List ContractSyncStatus)
  get_contract_sync_status x = answer (map sync_status x.processor_mapping)

  module _ ⦃h : Hex⦄ ⦃E : Engine DbStore.Cf Db⦄ where
    unfoldable pub collections_of :
        ⦃c : Codec Collection⦄
        → Bytes
        → DbStore Db Docs
        → Answer (List Collection × List Database.CollectionState)
    unfolding from_hex get_collection_of_database
    collections_of db_addr d = do
      addr ← or_status (from_hex db_addr) invalid_argument
      or_status (get_collection_of_database addr d) internal

    module _ ⦃D : DocStore Docs⦄ where
      unfoldable pub doc_of : Bytes → Bytes → ℕ → IndexerNode Db Docs → Answer (Option Document)
      unfolding from_hex get_doc
      doc_of db_addr col_name id x = do
        addr ← or_status (from_hex db_addr) invalid_argument
        or_status (get_doc addr col_name id x.db_store) internal

      unfoldable pub run_query :
          Bytes → Bytes → Option Query → IndexerNode Db Docs → Answer (List Document × ℕ)
      unfolding from_hex query_docs
      run_query db col_name query x = do
        addr ← or_status (from_hex db) invalid_argument
        asked (λ q. or_status (query_docs addr col_name q x.db_store) internal) query
