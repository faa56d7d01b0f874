-- ===== src/DbStore/Recovery.antt =====
-- What `recover_db_state` of DBStoreV2 makes of one database after a restart.
use rtstore.Base.{ℕ, Bool, false, Option, none, some, List, [], ◌∷◌, map, if◌then◌else◌}
use rtstore.Base.Bytes.{Bytes}
use rtstore.Base.Words.{add_u64}
use rtstore.Base.Dict
use rtstore.Base.Dict.{Dict}
use rtstore.Base.Result.{read_store_error, key_codec_error, Result, ok, err, map_err, ◌>>=◌}
use rtstore.Engine.{Engine, Codec}
use rtstore.Engine.Calls.{handle}
use rtstore.Engine.Entries.{Entry}
use rtstore.Crypto.Address.{Db3Address}
use rtstore.Proto.Database.{Collection, DatabaseStatePersistence}
use rtstore.Proto.Database
use rtstore.StorageKeys.DbDocKey
use rtstore.DbStore.{
  Cf, collection_store_cf, doc_owner_store_cf, CollectionState, DatabaseState, DbStore,
}
use rtstore.DbStore.Read.{get_entries_with_prefix, recover_from_state}

-- A key that is too short for an address makes the source panic; the model ends the loop.
abbrev pub same_db : Option Bool → Bool
same_db none = false
same_db (some same) = same

-- It returns for every key, with the error for one of another length.
abbrev pub doc_id_of : Option (Result ℕ) → Result ℕ
doc_id_of none = err key_codec_error
doc_id_of (some id) = id

-- The last id of the database's, from `doc_id` on.
unfoldable pub last_doc_id : Db3Address → ℕ → List Entry → Result ℕ
unfolding DbDocKey.is_the_same_db DbDocKey.decode_id
last_doc_id address doc_id [] = ok doc_id
last_doc_id address doc_id ((k, v) ∷ es) =
    let rest = doc_id_of (DbDocKey.decode_id k) >>= λ id. last_doc_id address id es in
    if same_db (DbDocKey.is_the_same_db k address) then rest else ok doc_id

abbrev pub stored_entry : Bytes × Database.CollectionState → Bytes × CollectionState
stored_entry (col, c) = (col, record { total_doc_count = c.total_doc_count })

-- What is made of a stored state: the count of the documents is that of the collections.
unfoldable pub of_stored : DatabaseStatePersistence → DatabaseState
of_stored state = record {
  doc_order = add_u64 state.doc_order 1;
  collection_state = map stored_entry state.collection_states;
  total_doc_count = state.total_col_count;
}

-- Without one, the collections count no documents.
unfoldable pub empty_collections : List Collection → Dict CollectionState
unfolding Dict.insert
empty_collections [] = []
empty_collections (c ∷ cs) =
    Dict.insert c.name (record { total_doc_count = 0 }) (empty_collections cs)

abbrev pub of_doc_order : ℕ → Dict CollectionState → Option ℕ → DatabaseState
of_doc_order doc_start_id collections none = record {
  doc_order = doc_start_id;
  collection_state = collections;
  total_doc_count = 0;
}
of_doc_order doc_start_id collections (some doc_order) = record {
  doc_order = add_u64 doc_order 1;
  collection_state = collections;
  total_doc_count = 0;
}

module _ {Db Docs : Type 0} ⦃E : Engine Cf Db⦄ where
  -- Always some id: 0 for a database without documents.
  unfoldable pub recover_db_doc_id : Db3Address → DbStore Db Docs → Result (Option ℕ)
  unfolding last_doc_id DbDocKey.build_prefix
  recover_db_doc_id address s = do
    _ ← handle (E.cf_handle s.se doc_owner_store_cf) read_store_error
    doc_id ← last_doc_id address 0 (E.seek s.se doc_owner_store_cf (DbDocKey.build_prefix address))
    ok (some doc_id)

  module _ ⦃cc : Codec Collection⦄ ⦃cs : Codec DatabaseStatePersistence⦄ where
    -- The state of one database: the stored one, or one from its collections and the owners of its
    -- documents.
    unfoldable pub recovered_state :
        Db3Address → DbStore Db Docs → Option DatabaseStatePersistence → Result DatabaseState
    unfolding of_stored empty_collections get_entries_with_prefix recover_db_doc_id
    recovered_state address s (some state) = ok (of_stored state)
    recovered_state address s none = do
      collections ← get_entries_with_prefix address.bytes collection_store_cf s
      doc_order ← recover_db_doc_id address s
      ok (of_doc_order s.config.doc_start_id (empty_collections collections) doc_order)

    unfoldable pub recover_database : Db3Address → DbStore Db Docs → Result DatabaseState
    unfolding recover_from_state recovered_state
    recover_database address s = do
      state ← map_err (recover_from_state address s) read_store_error
      recovered_state address s state
