-- ===== src/Rollup/Process.antt =====
-- The two tasks of RollupExecutor: `gc_mutation` and `process`.
use rtstore.Base.{
  ℕ, Bool, true, false, ◌&&◌, Option, none, some, List, [], leb, ltb, length, ◌==◌, if◌then◌else◌,
}
use rtstore.Base.Bytes.{Bytes}
use rtstore.Base.Result.{rollup_error, Result, ok}
use rtstore.Base.Exec.{Exec, pure, query, lift, modify, map_err_m, ◌>>=◌, ◌>>◌}
use rtstore.Engine.{Engine, Codec}
use rtstore.Crypto.{Hex, to_hex_text}
use rtstore.Proto.{MutationHeader, MutationBody, GcRecord, RollupRecord, MutationState}
use rtstore.MutationStore.{Cf, MutationStore}
use rtstore.MutationStore.Read.{
  has_enough_round_left, get_last_gc_record, get_last_rollup_record, get_rollup_record,
  get_next_rollup_record, get_current_block, get_range_mutations,
}
use rtstore.MutationStore.Write.{flush_state, add_gc_record, add_rollup_record}
use rtstore.MutationStore.Mutations.{gc_range_mutation}
use rtstore.Rollup.{Upload, Network, Clock, RollupExecutor, on_storage, set_pending}

-- The start of the last collection, and whether there was none.
abbrev pub last_gc : Option GcRecord → ℕ × Bool
last_gc none = (0, true)
last_gc (some r) = (r.start_block, false)

-- The end of the last rollup and its transaction.
abbrev pub last_rollup : Option RollupRecord → ℕ × Bytes
last_rollup none = (0, [])
last_rollup (some r) = (r.end_block, r.arweave_tx)

-- The record of an uploaded rollup. The source panics on an `evm_cost` that passes 64 bits.
abbrev pub record_of : ⦃h : Hex⦄ → Clock → ℕ → ℕ → ℕ → Upload → ℕ × Bytes → RollupRecord
record_of clock last_end_block current_block memory_size up (evm_cost, tx_hash) = record {
  end_block = current_block;
  raw_data_size = memory_size;
  compress_data_size = up.size;
  processed_time = clock.processed_time;
  arweave_tx = up.id;
  time = clock.time;
  mutation_count = up.num_rows;
  cost = up.reward;
  start_block = last_end_block;
  evm_tx = to_hex_text tx_hash;
  evm_cost = evm_cost;
}

module _ {Db : Type 0} ⦃E : Engine Cf Db⦄ where
  -- The rollup whose blocks are collected: the first one, or the one after the last collection.
  unfoldable pub rollup_to_collect :
      ⦃cr : Codec RollupRecord⦄ → ℕ → Bool → RollupExecutor Db → Result (Option RollupRecord)
  rollup_to_collect last_start_block first x =
      if first
      then get_rollup_record last_start_block x.storage
      else get_next_rollup_record last_start_block x.storage

  module _ ⦃h : Hex⦄ ⦃ch : Codec MutationHeader⦄ ⦃cb : Codec MutationBody⦄
      ⦃cg : Codec GcRecord⦄ where
    unfoldable pub collect : Clock → Option RollupRecord → Exec (MutationStore Db) (Unit {0})
    collect clock none = pure tt
    collect clock (some r) = do
      gc_range_mutation r.start_block r.end_block
      add_gc_record (record {
        start_block = r.start_block;
        end_block = r.end_block;
        data_size = r.raw_data_size;
        time = clock.time;
        processed_time = clock.processed_time;
      })

    module _ ⦃cr : Codec RollupRecord⦄ where
      unfoldable pub gc_mutation : Clock → Exec (RollupExecutor Db) (Unit {0})
      unfolding rollup_to_collect collect
      gc_mutation clock = do
        last ← query (λ x. get_last_gc_record x.storage)
        let (last_start_block, first) = last_gc last
        enough ← query (λ x. has_enough_round_left last_start_block x.min_gc_round_offset x.storage)
        if enough
            then (query (rollup_to_collect last_start_block first) >>= λ r.
                on_storage (collect clock r))
            else pure tt

      module _ {Batch : Type 0} (network : Network Batch) where
        -- The upload, the call of the contract, the record, and the collection.
        unfoldable pub upload_rollup :
            Clock → ℕ → ℕ → Bytes → Batch → Exec (RollupExecutor Db) (Unit {0})
        unfolding gc_mutation
        upload_rollup clock last_end_block current_block tx recordbatch = do
          modify (set_pending current_block current_block)
          modify (λ x. record x { pending_data_size = 0; pending_mutations = 0 })
          network_id ← query (λ x. ok x.network_id)
          up ← lift (
              network.compress_and_upload_record_batch tx last_end_block current_block recordbatch
                network_id)
          paid ← lift (network.update_rollup_step up.id network_id)
          map_err_m
              (on_storage (
                add_rollup_record (
                  record_of clock last_end_block current_block
                    (network.get_array_memory_size recordbatch) up paid)))
              rollup_error
          gc_mutation clock

        -- What is done with the mutations since the last rollup.
        unfoldable pub process_mutations :
            Clock
            → ℕ
            → ℕ
            → Bytes
            → List (MutationHeader × MutationBody)
            → Exec (RollupExecutor Db) (Unit {0})
        unfolding upload_rollup
        process_mutations clock last_end_block current_block tx mutations =
            if length mutations == 0 then pure tt else do
              modify (λ x. record x { pending_mutations = length mutations })
              recordbatch ← lift (network.convert_mutations_to_recordbatch mutations)
              modify
                  (λ x. record x { pending_data_size = network.get_array_memory_size recordbatch })
              min_rollup_size ← query (λ x. ok x.min_rollup_size)
              if ltb (network.get_array_memory_size recordbatch) min_rollup_size
                  then pure tt
                  else upload_rollup clock last_end_block current_block tx recordbatch

        unfoldable pub process_blocks : Clock → ℕ → Bytes → ℕ → Exec (RollupExecutor Db) (Unit {0})
        unfolding process_mutations
        process_blocks clock last_end_block tx current_block =
            if leb current_block last_end_block then pure tt else do
              modify (set_pending last_end_block current_block)
              mutations ← query (λ x. get_range_mutations last_end_block current_block x.storage)
              process_mutations clock last_end_block current_block tx mutations

        -- Without the two clients the system is not set up, and nothing is done.
        unfoldable pub process :
            ⦃cs : Codec MutationState⦄ → Clock → Exec (RollupExecutor Db) (Unit {0})
        unfolding process_blocks
        process clock = do
          ready ← query (λ x. ok (x.has_meta_store && x.has_ar_toolbox))
          if ready
              then (do
                on_storage (flush_state clock.time)
                last ← query (λ x. get_last_rollup_record x.storage)
                current_block ← query (λ x. get_current_block x.storage)
                process_blocks clock (last_rollup last).0 (last_rollup last).1 current_block)
              else pure tt
