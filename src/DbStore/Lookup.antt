-- ===== src/DbStore/Lookup.antt =====
-- What DBStoreV2 answers about documents, collections and the databases of an owner.
use rtstore.Base.{
  ℕ, Bool, true, false, Option, none, some, List, [], ◌∷◌, map, map_option, if◌then◌else◌,
}
use rtstore.Base.Bytes.{Bytes}
use rtstore.Base.Result.{
  Db3Error, read_store_error, collection_not_found, Result, ok, err, map_err, ◌>>=◌,
}
use rtstore.Engine.{Engine, Codec}
use rtstore.Engine.Calls.{handle}
use rtstore.Engine.Entries.{Entry}
use rtstore.Crypto.{Hex}
use rtstore.Crypto.Address.{Db3Address, to_hex, try_from}
use rtstore.Proto.Database.{Collection, DatabaseMessage, DatabaseState, Document, Query}
use rtstore.Proto.Database
use rtstore.DbStore.{Cf, collection_store_cf, db_owner_store_cf, DbStore, DocStore}
use rtstore.DbStore.Read.{
  is_db_collection_exist, get_entries_with_prefix, get_collection_state, get_database,
  get_database_state, has_prefix, push_database,
}

-- A state for each collection, or the error of the first that has none.
abbrev pub push_state : {A : Type 0} → Option A → Db3Error → Result (List A) → Result (List A)
push_state none e rest = err e
push_state (some state) e rest = do states ← rest; ok (state ∷ states)

-- `Document { id, doc }`
abbrev pub document : ℕ × Bytes → Document
document (id, doc) = record { id = id; doc = doc }

abbrev guard_collection : ⦃h : Hex⦄ → Bool → Db3Address → Bytes → Result (Unit {0})
guard_collection true db_addr col_name = ok tt
guard_collection false db_addr col_name = err (collection_not_found col_name (to_hex db_addr))

module _ {Db Docs : Type 0} ⦃E : Engine Cf Db⦄ ⦃h : Hex⦄ where
  -- `if !self.is_db_collection_exist(…)? { return Err(…) }`
  unfoldable pub must_exist : Db3Address → Bytes → DbStore Db Docs → Result (Unit {0})
  unfolding is_db_collection_exist to_hex
  must_exist db_addr col_name s = is_db_collection_exist db_addr col_name s >>= λ exists.
      guard_collection exists db_addr col_name

  module _ ⦃D : DocStore Docs⦄ where
    unfoldable pub query_docs :
        Db3Address → Bytes → Query → DbStore Db Docs → Result (List Document × ℕ)
    unfolding must_exist
    query_docs db_addr col_name q s = do
      _ ← must_exist db_addr col_name s
      if s.config.enable_doc_store
          then (do
            (result, count) ← D.execute_query s.doc_store db_addr col_name q
            ok (map document result, count))
          else ok ([], 0)

    unfoldable pub get_doc : Db3Address → Bytes → ℕ → DbStore Db Docs → Result (Option Document)
    unfolding must_exist
    get_doc db_addr col_name doc_id s = do
      _ ← must_exist db_addr col_name s
      if s.config.enable_doc_store
          then (do
            doc ← D.get_doc s.doc_store db_addr col_name doc_id
            ok (map_option (λ d. document (doc_id, d)) doc))
          else ok none

  unfoldable pub collection_states :
      Db3Address → List Collection → DbStore Db Docs → Result (List Database.CollectionState)
  unfolding get_collection_state to_hex
  collection_states db_addr [] s = ok []
  collection_states db_addr (col ∷ cols) s =
      push_state (get_collection_state db_addr col.name s)
        (collection_not_found (to_hex db_addr) col.name) (collection_states db_addr cols s)

  unfoldable pub get_collection_of_database :
      ⦃c : Codec Collection⦄
      → Db3Address
      → DbStore Db Docs
      → Result (List Collection × List Database.CollectionState)
  unfolding get_entries_with_prefix collection_states
  get_collection_of_database db_addr s = do
    collections ← get_entries_with_prefix db_addr.bytes collection_store_cf s
    states ← collection_states db_addr collections s
    ok (collections, states)

  module _ ⦃c : Codec DatabaseMessage⦄ where
    -- The loop of `get_database_of_owner_internal`: keys, databases and their states. A database that
    -- is gone, or does not decode, or has no state, is left out.
    unfoldable pub owned_databases :
        Db3Address
        → List Entry
        → DbStore Db Docs
        → Result (List (Bytes × (DatabaseMessage × DatabaseState)))
    unfolding try_from get_database get_database_state
    owned_databases owner [] s = ok []
    owned_databases owner ((k, v) ∷ es) s =
        let rest = owned_databases owner es s in
        if has_prefix owner.bytes k
        then (do
          addr ← map_err (try_from v) read_store_error
          found ← rest
          ok (push_database k (get_database addr s) (get_database_state addr s) found))
        else ok []

    unfoldable pub get_database_of_owner_internal :
        Db3Address → DbStore Db Docs → Result (List (Bytes × (DatabaseMessage × DatabaseState)))
    unfolding owned_databases
    get_database_of_owner_internal owner s = do
      _ ← handle (E.cf_handle s.se db_owner_store_cf) read_store_error
      owned_databases owner (E.seek s.se db_owner_store_cf owner.bytes) s

    unfoldable pub get_database_of_owner :
        Db3Address → DbStore Db Docs → Result (List (DatabaseMessage × DatabaseState))
    unfolding get_database_of_owner_internal
    get_database_of_owner owner s = do
      found ← get_database_of_owner_internal owner s
      ok (map (λ f. f.1) found)
