-- ===== src/DbStore/Persist.antt =====
-- How DBStoreV2 keeps the states of the databases over a restart: `flush_database_state` stores them
-- and `recover_db_state` reads them back. Both follow the keys of the databases.
use rtstore.Base.{Option, none, some, []}
use rtstore.Base.Bytes.{Bytes}
use rtstore.Base.Dict
use rtstore.Base.Result.{read_store_error, ok}
use rtstore.Base.Exec.{Exec, pure, query, lift, each, ◌>>=◌, ◌>>◌}
use rtstore.Engine.{Engine, Codec}
use rtstore.Engine.Entries.{Entry}
use rtstore.Crypto.{Hex}
use rtstore.Crypto.Address.{to_hex, try_from}
use rtstore.Proto.Database.{Collection, DatabaseStatePersistence}
use rtstore.DbStore.{Cf, db_store_cf, state_cf, DbStore}
use rtstore.DbStore.Read.{build_persistence_state}
use rtstore.DbStore.Write.{on_state, cf_handle, put_entry}
use rtstore.DbStore.Recovery.{recover_database}

module _ {Db Docs : Type 0} ⦃E : Engine Cf Db⦄ ⦃h : Hex⦄ ⦃cs : Codec DatabaseStatePersistence⦄ where
  -- A database without a state is passed over.
  abbrev pub put_state : Bytes → Option DatabaseStatePersistence → Exec (DbStore Db Docs) (Unit {0})
  unfolding put_entry
  put_state k none = pure tt
  put_state k (some state) = put_entry state_cf k state

  unfoldable pub flush_entry : Entry → Exec (DbStore Db Docs) (Unit {0})
  unfolding try_from build_persistence_state
  flush_entry (k, v) = do
    addr ← lift (try_from k)
    state ← query (λ s. ok (build_persistence_state addr s))
    put_state k state

  unfoldable pub flush_database_state : Exec (DbStore Db Docs) (Unit {0})
  unfolding flush_entry
  flush_database_state = do
    cf_handle db_store_cf read_store_error
    es ← query (λ s. ok (E.seek s.se db_store_cf []))
    each flush_entry es

  module _ ⦃cc : Codec Collection⦄ where
    unfoldable pub recover_entry : Entry → Exec (DbStore Db Docs) (Unit {0})
    unfolding try_from to_hex recover_database Dict.insert
    recover_entry (k, v) = do
      address ← lift (try_from k)
      state ← query (recover_database address)
      on_state (Dict.insert (to_hex address) state)

    unfoldable pub recover_db_state : Exec (DbStore Db Docs) (Unit {0})
    unfolding recover_entry
    recover_db_state = do
      cf_handle db_store_cf read_store_error
      es ← query (λ s. ok (E.seek s.se db_store_cf []))
      each recover_entry es
