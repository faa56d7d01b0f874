-- ===== src/Rollup.antt =====
-- RollupExecutor, of src/node/src/rollup_executor.rs: it uploads the mutations of the blocks since the
-- last rollup, records the rollup, and collects old mutations.
-- The archive (`ArToolBox`, on arrow and arweave) and the contract (`MetaStoreClient`) are an
-- interface; the clock is an argument. The atomic fields are fields.
pub mod Process
pub mod Tiles
pub mod Keeps
pub mod Chain
pub mod Progress
mod Tests
use rtstore.Base.{
  false, ℕ, Bool, true, Option, none, some, List, [], ◌∷◌, leb, ltb, length, ◌==◌, if◌then◌else◌,
}
use rtstore.Base.Bytes.{Bytes}
use rtstore.Base.Result.{Result, ok, err}
use rtstore.Base.Exec.{Exec, pure, query, lift, modify, ◌>>=◌, ◌>>◌}
use rtstore.Proto.{MutationHeader, MutationBody, RollupRecord}
use rtstore.MutationStore.{MutationStore}

-- What `compress_and_upload_record_batch` returns.
pub record Upload : Type 0 where
  pub id : Bytes
  pub reward : ℕ
  pub num_rows : ℕ
  pub size : ℕ

pub record Network (Batch : Type 0) : Type 0 where
  pub convert_mutations_to_recordbatch : List (MutationHeader × MutationBody) → Result Batch
  pub get_array_memory_size : Batch → ℕ
  pub compress_and_upload_record_batch : Bytes → ℕ → ℕ → Batch → ℕ → Result Upload
  pub update_rollup_step : Bytes → ℕ → Result (ℕ × Bytes)

pub record Clock : Type 0 where
  pub time : ℕ
  pub processed_time : ℕ

-- The part of `SystemConfig` that the executor keeps.
pub record RollupConfig : Type 0 where
  pub min_rollup_size : ℕ
  pub rollup_max_interval : ℕ
  pub min_gc_offset : ℕ
  pub network_id : ℕ

-- `has_meta_store` and `has_ar_toolbox` tell whether the two clients are there.
pub record RollupExecutor (Db : Type 0) : Type 0 where
  pub storage : MutationStore Db
  pub has_ar_toolbox : Bool
  pub min_rollup_size : ℕ
  pub has_meta_store : Bool
  pub pending_mutations : ℕ
  pub pending_data_size : ℕ
  pub pending_start_block : ℕ
  pub pending_end_block : ℕ
  pub network_id : ℕ
  pub rollup_max_interval : ℕ
  pub min_gc_round_offset : ℕ

-- `r?`
abbrev and_then : {A B : Type 0} → Result A → (A → Result B) → Result B
and_then (ok a) f = f a
and_then (err e) f = err e

abbrev no_config : RollupConfig
no_config = record {
  min_rollup_size = 0;
  rollup_max_interval = 0;
  min_gc_offset = 0;
  network_id = 0;
}

module _ {Db : Type 0} where
  -- A call of the mutation store.
  abbrev pub on_storage : {A : Type 0} → Exec (MutationStore Db) A → Exec (RollupExecutor Db) A
  on_storage m x = let (r, s) = m x.storage in (r, record x { storage = s })

  abbrev pub set_pending : ℕ → ℕ → RollupExecutor Db → RollupExecutor Db
  set_pending start_block end_block x = record x {
    pending_start_block = start_block;
    pending_end_block = end_block;
  }

  unfoldable pub get_pending_rollup : ℕ → RollupExecutor Db → RollupRecord
  get_pending_rollup time x = record {
    end_block = x.pending_end_block;
    raw_data_size = x.pending_data_size;
    compress_data_size = 0;
    processed_time = 0;
    arweave_tx = [];
    time = time;
    mutation_count = x.pending_mutations;
    cost = 0;
    start_block = x.pending_start_block;
    evm_tx = [];
    evm_cost = 0;
  }

  apply_config :
      Result (Unit {0})
      → Result (Unit {0})
      → Result (Unit {0})
      → Option RollupConfig
      → Exec (RollupExecutor Db) (Unit {0})
  apply_config wallet client toolbox none = pure tt
  apply_config wallet client toolbox (some c) = do
    lift wallet
    modify (λ x. record x {
      min_rollup_size = c.min_rollup_size;
      rollup_max_interval = c.rollup_max_interval;
    })
    lift client
    modify (λ x. record x { min_gc_round_offset = c.min_gc_offset; has_meta_store = true })
    lift toolbox
    modify (λ x. record x { has_ar_toolbox = true; network_id = c.network_id })

  -- The update hook. `config`, `wallet`, `client` and `toolbox` are what the calls that read the
  -- configuration and build the clients return: what was set before an error stays set.
  unfoldable pub update_config :
      Result (Option RollupConfig)
      → Result (Unit {0})
      → Result (Unit {0})
      → Result (Unit {0})
      → Exec (RollupExecutor Db) (Unit {0})
  unfolding apply_config
  update_config config wallet client toolbox = do
    found ← lift config
    apply_config wallet client toolbox found

  -- A new executor; the arguments are those of `update_config` and the mutation store.
  executor_of : MutationStore Db → RollupConfig → Bool → RollupExecutor Db
  executor_of storage c ready = record {
    storage = storage;
    has_ar_toolbox = ready;
    min_rollup_size = c.min_rollup_size;
    has_meta_store = ready;
    pending_mutations = 0;
    pending_data_size = 0;
    pending_start_block = 0;
    pending_end_block = 0;
    network_id = c.network_id;
    rollup_max_interval = c.rollup_max_interval;
    min_gc_round_offset = c.min_gc_offset;
  }

  new_with :
      Result (Unit {0})
      → Result (Unit {0})
      → Result (Unit {0})
      → MutationStore Db
      → Option RollupConfig
      → Result (RollupExecutor Db)
  unfolding executor_of
  new_with wallet client toolbox storage none = ok (executor_of storage no_config false)
  new_with wallet client toolbox storage (some c) =
      and_then wallet
        (λ u. and_then client (λ v. and_then toolbox (λ w. ok (executor_of storage c true))))

  unfoldable pub new :
      Result (Option RollupConfig)
      → Result (Unit {0})
      → Result (Unit {0})
      → Result (Unit {0})
      → MutationStore Db
      → Result (RollupExecutor Db)
  unfolding new_with
  new config wallet client toolbox storage =
      and_then config (new_with wallet client toolbox storage)
