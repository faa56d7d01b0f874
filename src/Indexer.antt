-- ===== src/Indexer.antt =====
-- IndexerNodeImpl, of src/node/src/indexer_impl.rs: a node that follows a storage node and applies its
-- mutations to databases of its own. The storage node is the interface `StoreSdk`.
pub mod Apply
pub mod Blocks
pub mod Queries
pub mod Stops
mod Tests
use rtstore.Base.{ℕ, Option, none, some, List, [], ◌∷◌, map, if◌then◌else◌}
use rtstore.Base.Bytes.{Bytes}
use rtstore.Base.Dict
use rtstore.Base.Dict.{Dict}
use rtstore.Base.Result.{database_already_exist, database_not_found, Result, ok, err}
use rtstore.Base.Exec.{Exec, query, ◌>>=◌, ◌>>◌}
use rtstore.Crypto.{Hex}
use rtstore.Crypto.Address.{Db3Address, to_hex}
use rtstore.Proto.{MutationHeader, MutationBody}
use rtstore.Proto.Database.{Collection, EventDatabase}
use rtstore.DbStore.{DbStore}
use rtstore.Event
use rtstore.Event.{EventProcessorConfig, EventProcessor}

-- The processors of the event databases by the addresses' texts. The tasks that run them share them.
pub record IndexerNode (Db Docs : Type 0) : Type 0 where
  pub db_store : DbStore Db Docs
  pub processor_mapping : Dict EventProcessor

-- A mutation of a block. The source unwraps both parts, which the storage node always sends.
pub record MutationWrapper : Type 0 where
  pub header : MutationHeader
  pub body : MutationBody

-- `none` is an error of the call.
pub record StoreSdk : Type 0 where
  pub get_blocks : ℕ → ℕ → Option (List MutationWrapper)
  pub get_block_by_height : ℕ → Option (List MutationWrapper)

-- What the task of an event database is given.
abbrev pub task_config : Bytes → EventDatabase → List Collection → EventProcessorConfig
task_config db_addr d collections = record {
  evm_node_url = d.evm_node_url;
  db_addr = db_addr;
  abi = d.events_json_abi;
  target_events = map (λ (c : Collection). c.name) collections;
  contract_addr = d.contract_address;
  start_block = 0;
}

module _ {Db Docs : Type 0} where
  abbrev pub on_db : {A : Type 0} → Exec (DbStore Db Docs) A → Exec (IndexerNode Db Docs) A
  on_db m x = let (r, d) = m x.db_store in (r, record x { db_store = d })

  abbrev pub add_task :
      Bytes → EventProcessor → Option EventProcessor → Exec (IndexerNode Db Docs) (Unit {0})
  add_task db_addr task (some other) x = (err (database_already_exist db_addr), x)
  add_task db_addr task none x =
      (ok tt, record x { processor_mapping = Dict.insert db_addr task x.processor_mapping })

  -- The processor that is started is in the mapping; it runs as a task of its own.
  unfoldable pub start_an_event_task : EventProcessorConfig → Exec (IndexerNode Db Docs) (Unit {0})
  unfolding Dict.get Dict.insert Event.new
  start_an_event_task config = do
    running ← query (λ x. ok (Dict.get config.db_addr x.processor_mapping))
    add_task config.db_addr (Event.new config) running

  abbrev pub remove_task : Bytes → Option EventProcessor → Exec (IndexerNode Db Docs) (Unit {0})
  remove_task db_addr none x = (err (database_not_found db_addr), x)
  remove_task db_addr (some task) x =
      (ok tt, record x { processor_mapping = Dict.remove db_addr x.processor_mapping })

  unfoldable pub close_event_task : ⦃h : Hex⦄ → Db3Address → Exec (IndexerNode Db Docs) (Unit {0})
  unfolding Dict.get Dict.remove to_hex
  close_event_task db = do
    running ← query (λ x. ok (Dict.get (to_hex db) x.processor_mapping))
    remove_task (to_hex db) running
