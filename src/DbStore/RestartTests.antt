-- ===== src/DbStore/RestartTests.antt =====
-- The theorem on restarts at work on an engine in memory.
use rtstore.Base.{◌≡◌, refl, some, []}
use rtstore.Base.Bytes.{be, bytes_eq}
use rtstore.Base.Dict
use rtstore.Base.Result.{ok}
use rtstore.Engine.Entries.{lookup}
use rtstore.Engine.Memory.{memory, memory-IsUp, run_ops}
use rtstore.Crypto.HexText.{hex_text}
use rtstore.Crypto.Address.{to_hex}
use rtstore.Proto.Frames.{
  collection_codec, persistence_codec, persistence_codec-IsCodec, flat_database,
}
use rtstore.DbStore.{cf_eq, DatabaseState}
use rtstore.DbStore.Databases.{document_database}
use rtstore.DbStore.Persist.{flush_database_state, recover_db_state}
use rtstore.DbStore.Flushed.{restarted}
use rtstore.DbStore.Restored.{reopened, recover_db_state-flush_database_state}
use rtstore.DbStore.Fixtures.{
  counting_docs, alice, bob, bob-IsAddress, with_users, db, with_db, bob_state, bob_has_state,
}

recover_db_state-flush_database_state_example :
    ((flush_database_state with_users).0 ≡ ok tt)
    × ((recover_db_state (reopened (flush_database_state with_users).1)).0 ≡ ok tt)
    × (Dict.get
          (to_hex bob)
          (recover_db_state (reopened (flush_database_state with_users).1)).1.db_state
        ≡ some (restarted bob_state))
unfolding memory-IsUp with_users with_db lookup rtstore.DbStore.new run_ops bytes_eq be Dict.get
    rtstore.Crypto.HexText.encode rtstore.Proto.Frames.read_database
    rtstore.Proto.Frames.flat_database
recover_db_state-flush_database_state_example =
    recover_db_state-flush_database_state memory-IsUp persistence_codec-IsCodec with_users
      ((bob-IsAddress, (bob_state, bob_has_state)), tt) bob
      (flat_database (document_database alice db [])) bob_state refl bob_has_state
