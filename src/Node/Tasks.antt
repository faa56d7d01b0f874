-- ===== src/Node/Tasks.antt =====
-- The tasks of a storage node: what one turn of each loop does. An error is only logged, and the next
-- turn comes after a pause.
use rtstore.Base.{ℕ, Option, none, some}
use rtstore.Base.Result.{Result, ok, err}
use rtstore.Engine.{Engine, Codec}
use rtstore.Crypto.{Hex}
use rtstore.Proto.Database.{DatabaseStatePersistence}
use rtstore.MutationStore
use rtstore.MutationStore.{MutationStore}
use rtstore.MutationStore.Write.{increase_block_return_last_state}
use rtstore.DbStore
use rtstore.DbStore.Persist.{flush_database_state}
use rtstore.Subscribers.{BlockEvent}
use rtstore.Node.{StorageNode}

-- The event of a block that was closed.
abbrev pub event_of : Result (ℕ × ℕ) → Option BlockEvent
event_of (err e) = none
event_of (ok (block_id, mutation_count)) =
    some (record { block_id = block_id; mutation_count = mutation_count })

module _ {Mdb Sdb Ddb Docs : Type 0} where
  -- A turn of the block producer, and what it broadcasts.
  unfoldable pub produce_block :
      ⦃M : Engine MutationStore.Cf Mdb⦄
      → StorageNode Mdb Sdb Ddb Docs
      → Option BlockEvent × StorageNode Mdb Sdb Ddb Docs
  unfolding increase_block_return_last_state
  produce_block n =
      let (r, storage) = increase_block_return_last_state n.storage in
      (event_of r, record n { storage = storage })

  -- A turn of the task that flushes the states of the databases.
  unfoldable pub flush_state :
      ⦃E : Engine DbStore.Cf Ddb⦄
      → ⦃h : Hex⦄ → ⦃cs : Codec DatabaseStatePersistence⦄ → StorageNode Mdb Sdb Ddb Docs
      → StorageNode Mdb Sdb Ddb Docs
  unfolding flush_database_state
  flush_state n = record n { db_store = (flush_database_state n.db_store).1 }
