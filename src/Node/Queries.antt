-- ===== src/Node/Queries.antt =====
-- The requests to a storage node that only read.
use rtstore.Base.{ℕ, Option, List, ◌∷◌}
use rtstore.Base.Words.{add_u64}
use rtstore.Base.Bytes.{Bytes}
use rtstore.Base.Result.{invalid_address, ok_or}
use rtstore.Base.Answer
use rtstore.Base.Answer.{Answer, answer, or_status, ◌>>=◌}
use rtstore.Engine.{Engine, Codec}
use rtstore.Crypto.{Hex}
use rtstore.Crypto.Address.{from_hex}
use rtstore.Crypto.TxId.{try_from_hex}
use rtstore.Proto.{MutationHeader, MutationBody, GcRecord, RollupRecord, MutationState}
use rtstore.Proto.Database
use rtstore.Proto.Database.{Collection, DatabaseMessage}
use rtstore.MutationStore
use rtstore.MutationStore.{MutationStore}
use rtstore.MutationStore.Read.{
  scan_gc_records, scan_rollup_records, scan_mutation_headers, get_mutation_header, get_mutation,
  get_range_mutations, get_latest_state,
}
use rtstore.StateStore
use rtstore.StateStore.{StateStore, get_nonce}
use rtstore.DbStore
use rtstore.DbStore.{Texts}
use rtstore.DbStore.Read.{get_database, get_database_state}
use rtstore.DbStore.Lookup.{get_database_of_owner, get_collection_of_database}
use rtstore.Node.{StorageNode}

-- `MutationStateView`, of db3_storage.proto: the counters, with the costs as texts.
pub record MutationStateView : Type 0 where
  pub mutation_count : ℕ
  pub total_mutation_bytes : ℕ
  pub gc_count : ℕ
  pub rollup_count : ℕ
  pub total_rollup_bytes : ℕ
  pub total_storage_cost : Bytes
  pub total_evm_cost : Bytes
  pub total_gc_bytes : ℕ
  pub total_rollup_raw_bytes : ℕ
  pub total_rollup_mutation_count : ℕ

-- The texts of costs, which go through floating point: `ar_to_readable_num_str` and
-- `evm_to_readable_num_str` of the big endian bytes.
pub record Costs : Type 0 where
  pub ar_to_readable_num_str : Bytes → Bytes
  pub evm_to_readable_num_str : Bytes → Bytes

unfoldable pub view_of : ⦃c : Costs⦄ → MutationState → MutationStateView
view_of ⦃c⦄ s = record {
  mutation_count = s.mutation_count;
  total_mutation_bytes = s.total_mutation_bytes;
  gc_count = s.gc_count;
  rollup_count = s.rollup_count;
  total_rollup_bytes = s.total_rollup_bytes;
  total_storage_cost = c.ar_to_readable_num_str s.total_storage_cost;
  total_evm_cost = c.evm_to_readable_num_str s.total_evm_cost;
  total_gc_bytes = s.total_gc_bytes;
  total_rollup_raw_bytes = s.total_rollup_raw_bytes;
  total_rollup_mutation_count = s.total_rollup_mutation_count;
}

module _ {Mdb Sdb Ddb Docs : Type 0} where
  unfoldable pub get_mutation_state :
      ⦃c : Costs⦄ → StorageNode Mdb Sdb Ddb Docs → Answer MutationStateView
  unfolding view_of get_latest_state
  get_mutation_state n = answer (view_of (get_latest_state n.storage))

  module _ ⦃M : Engine MutationStore.Cf Mdb⦄ where
    unfoldable pub scan_gc_record :
        ⦃c : Codec GcRecord⦄ → ℕ → ℕ → StorageNode Mdb Sdb Ddb Docs → Answer (List GcRecord)
    unfolding scan_gc_records
    scan_gc_record start limit n = or_status (scan_gc_records start limit n.storage) Answer.internal

    -- The rollup that is being made comes first.
    unfoldable pub scan_rollup_record :
        ⦃c : Codec RollupRecord⦄
        → RollupRecord
        → ℕ
        → ℕ
        → StorageNode Mdb Sdb Ddb Docs
        → Answer (List RollupRecord)
    unfolding scan_rollup_records
    scan_rollup_record pending start limit n = do
      records_done ← or_status (scan_rollup_records start limit n.storage) Answer.internal
      answer (pending ∷ records_done)

    unfoldable pub scan_mutation_header :
        ⦃c : Codec MutationHeader⦄
        → ℕ
        → ℕ
        → StorageNode Mdb Sdb Ddb Docs
        → Answer (List MutationHeader)
    unfolding scan_mutation_headers
    scan_mutation_header start limit n =
        or_status (scan_mutation_headers start limit n.storage) Answer.internal

    unfoldable pub mutation_header :
        ⦃c : Codec MutationHeader⦄
        → ℕ
        → ℕ
        → StorageNode Mdb Sdb Ddb Docs
        → Answer (Option MutationHeader)
    unfolding get_mutation_header
    mutation_header block order n =
        or_status (get_mutation_header block order n.storage) Answer.internal

    unfoldable pub get_mutation_body :
        ⦃c : Codec MutationBody⦄
        → ⦃h : Hex⦄ → Bytes
        → StorageNode Mdb Sdb Ddb Docs
        → Answer (Option MutationBody)
    unfolding try_from_hex get_mutation
    get_mutation_body id n = do
      tx_id ← or_status (try_from_hex id) Answer.invalid_argument
      or_status (get_mutation tx_id n.storage) Answer.internal

    -- The mutations of a range of blocks, as the source wraps them.
    unfoldable pub get_block :
        ⦃ch : Codec MutationHeader⦄
        → ⦃cb : Codec MutationBody⦄ → ⦃h : Hex⦄ → ℕ
        → ℕ
        → StorageNode Mdb Sdb Ddb Docs
        → Answer (List (MutationHeader × MutationBody))
    unfolding get_range_mutations
    get_block block_start block_end n =
        or_status (get_range_mutations block_start block_end n.storage) Answer.internal

  -- The next nonce of an account.
  unfoldable pub next_nonce :
      ⦃S : Engine StateStore.Table Sdb⦄
      → ⦃t : Texts⦄ → Bytes
      → StorageNode Mdb Sdb Ddb Docs
      → Answer ℕ
  unfolding get_nonce
  next_nonce ⦃S⦄ ⦃t⦄ text n = do
    address ← or_status (ok_or (t.decode_bytes_hex text) invalid_address) Answer.invalid_argument
    used_nonce ← or_status (get_nonce address n.state_store) Answer.internal
    answer (add_u64 used_nonce 1)

  module _ ⦃h : Hex⦄ ⦃E : Engine DbStore.Cf Ddb⦄ ⦃cd : Codec DatabaseMessage⦄ where
    unfoldable pub database_with_state :
        Bytes
        → StorageNode Mdb Sdb Ddb Docs
        → Answer (Option DatabaseMessage × Option Database.DatabaseState)
    unfolding from_hex get_database get_database_state
    database_with_state text n = do
      addr ← or_status (from_hex text) Answer.invalid_argument
      database ← or_status (get_database addr n.db_store) Answer.internal
      answer (database, get_database_state addr n.db_store)

    unfoldable pub databases_of_owner :
        Bytes
        → StorageNode Mdb Sdb Ddb Docs
        → Answer (List (DatabaseMessage × Database.DatabaseState))
    unfolding from_hex get_database_of_owner
    databases_of_owner text n = do
      addr ← or_status (from_hex text) Answer.invalid_argument
      or_status (get_database_of_owner addr n.db_store) Answer.internal

  unfoldable pub collections_of_database :
      ⦃h : Hex⦄
      → ⦃E : Engine DbStore.Cf Ddb⦄ → ⦃c : Codec Collection⦄ → Bytes
      → StorageNode Mdb Sdb Ddb Docs
      → Answer (List Collection × List Database.CollectionState)
  unfolding from_hex get_collection_of_database
  collections_of_database text n = do
    addr ← or_status (from_hex text) Answer.invalid_argument
    or_status (get_collection_of_database addr n.db_store) Answer.internal
