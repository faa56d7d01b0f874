-- ===== src/Indexer/Blocks.antt =====
-- How the indexer fetches blocks: one by one as the storage node announces them, and from the last
-- block that it applied on when it starts. That loop runs on fuel; `none` is a run that needs more.
use rtstore.Base.{ℕ, zero, suc, Option, none, some, List, [], ◌∷◌, ◌==◌, if◌then◌else◌}
use rtstore.Base.Words.{add_u64}
use rtstore.Base.Result.{write_store_error, Result, ok, err, ok_or}
use rtstore.Base.Exec.{Exec, pure, query, lift, each, ◌>>=◌, ◌>>◌}
use rtstore.Engine.{Engine, Codec}
use rtstore.Crypto.{Hex, Sha3}
use rtstore.Crypto.Address.{to_hex, try_from}
use rtstore.Proto.Database.{
  Collection, DatabaseMessage, EventDatabase, DatabaseStatePersistence, BlockState,
}
use rtstore.Proto.Mutation.{Mutation}
use rtstore.DbStore
use rtstore.DbStore.{DbStore, DocStore, Texts}
use rtstore.DbStore.Read.{recover_block_state, get_all_event_db}
use rtstore.DbStore.Lookup.{get_collection_of_database}
use rtstore.DbStore.Persist.{recover_db_state}
use rtstore.Requests.{Signing}
use rtstore.Requests.DocIds.{JsonObjects}
use rtstore.Indexer.{
  IndexerNode, MutationWrapper, StoreSdk, on_db, task_config, start_an_event_task,
}
use rtstore.Indexer.Apply.{ignore, parse_and_apply_mutations}

abbrev pub start_of : Option BlockState → ℕ
start_of none = 0
start_of (some s) = s.block

-- A window that was applied is followed by the next one.
abbrev pub after_window :
    {S : Type 0}
    → (S → Option (Result (Unit {0}) × S))
    → Result (Unit {0}) × S
    → Option (Result (Unit {0}) × S)
after_window next (ok u, x) = next x
after_window next (err e, x) = some (err e, x)

abbrev pub window :
    {S : Type 0}
    → (List MutationWrapper → Exec S (Unit {0}))
    → (S → Option (Result (Unit {0}) × S))
    → Option (List MutationWrapper)
    → S
    → Option (Result (Unit {0}) × S)
window apply next none x = some (err write_store_error, x)
window apply next (some []) x = some (ok tt, x)
window apply next (some (m ∷ ms)) x = after_window next (apply (m ∷ ms) x)

module _ {Db Docs : Type 0} ⦃h : Hex⦄ ⦃E : Engine DbStore.Cf Db⦄ ⦃cc : Codec Collection⦄
    ⦃cd : Codec DatabaseMessage⦄ where
  -- A task that does not start is only logged.
  unfoldable pub recover_task : EventDatabase → Exec (IndexerNode Db Docs) (Unit {0})
  unfolding try_from to_hex get_collection_of_database start_an_event_task
  recover_task d = do
    addr ← lift (try_from d.address)
    (collections, states) ← query (λ x. get_collection_of_database addr x.db_store)
    ignore (start_an_event_task (task_config (to_hex addr) d collections))

  unfoldable pub recover_state :
      ⦃cs : Codec DatabaseStatePersistence⦄ → Exec (IndexerNode Db Docs) (Unit {0})
  unfolding recover_db_state get_all_event_db recover_task
  recover_state = do
    on_db recover_db_state
    databases ← query (λ x. get_all_event_db x.db_store)
    each recover_task databases

  module _ ⦃D : DocStore Docs⦄ ⦃sha : Sha3⦄ ⦃cb : Codec BlockState⦄ ⦃t : Texts⦄ ⦃g : Signing⦄
      ⦃cm : Codec Mutation⦄ ⦃j : JsonObjects⦄ (sdk : StoreSdk) where
    -- A window has a thousand blocks; the next one starts a hundred blocks later.
    unfoldable pub fetch_windows :
        ℕ → ℕ → IndexerNode Db Docs → Option (Result (Unit {0}) × IndexerNode Db Docs)
    unfolding parse_and_apply_mutations
    fetch_windows zero start_block x = none
    fetch_windows (suc fuel) start_block x =
        window parse_and_apply_mutations (fetch_windows fuel (add_u64 start_block 100))
          (sdk.get_blocks start_block (add_u64 start_block 1000)) x

    abbrev pub from_state :
        ℕ
        → Result (Option BlockState)
        → IndexerNode Db Docs
        → Option (Result (Unit {0}) × IndexerNode Db Docs)
    from_state fuel (err e) x = some (err e, x)
    from_state fuel (ok state) x = fetch_windows fuel (start_of state) x

    unfoldable pub recover_from_fetched_blocks :
        ℕ → IndexerNode Db Docs → Option (Result (Unit {0}) × IndexerNode Db Docs)
    unfolding recover_block_state fetch_windows
    recover_from_fetched_blocks fuel x = from_state fuel (recover_block_state x.db_store) x

    unfoldable pub recover :
        ⦃cs : Codec DatabaseStatePersistence⦄
        → ℕ
        → IndexerNode Db Docs
        → Option (Result (Unit {0}) × IndexerNode Db Docs)
    unfolding recover_state recover_from_fetched_blocks
    recover fuel x = after_window (recover_from_fetched_blocks fuel) (recover_state x)

    -- What a block event brings; a block without mutations is passed over.
    unfoldable pub handle_block_event : ℕ → ℕ → Exec (IndexerNode Db Docs) (Unit {0})
    unfolding parse_and_apply_mutations
    handle_block_event block_id mutation_count = if mutation_count == 0 then pure tt else do
      mutations ← lift (ok_or (sdk.get_block_by_height block_id) write_store_error)
      parse_and_apply_mutations mutations
