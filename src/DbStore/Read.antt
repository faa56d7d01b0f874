-- ===== src/DbStore/Read.antt =====
-- The methods of DBStoreV2 that change nothing.
-- Where a loop cuts the prefix off a key that is shorter, the source panics and the model ends the loop.
use rtstore.Base.{
  ℕ, Bool, true, false, Option, none, some, List, [], ◌∷◌, map, map_option, length, take,
  if◌then◌else◌,
}
use rtstore.Base.Bytes.{Bytes, bytes_eq, be}
use rtstore.Base.Dict
use rtstore.Base.Dict.{Dict}
use rtstore.Base.Result.{read_store_error, owner_verify_failed, Result, ok, err, ok_or, ◌>>=◌}
use rtstore.Engine.{Engine, Codec}
use rtstore.Engine.Calls.{handle, decode_opt}
use rtstore.Engine.Entries.{Entry}
use rtstore.Crypto.{Hex}
use rtstore.Crypto.Address
use rtstore.Crypto.Address.{Db3Address, to_hex}
use rtstore.Proto.Database.{
  Collection, EventDatabase, Database, doc_db, event_db, DatabaseMessage, DatabaseStatePersistence,
  BlockState, Document, Query,
}
use rtstore.Proto.Database
use rtstore.StorageKeys.CollectionKey.{build_collection_key}
use rtstore.StorageKeys.DbDocKey
use rtstore.DbStore.{
  Cf, db_store_cf, collection_store_cf, doc_owner_store_cf, state_cf, block_state_cf,
  CollectionState, DatabaseState, DbStore, block_state_key,
}

abbrev pub is_some : {A : Type 0} → Option A → Bool
is_some none = false
is_some (some a) = true

abbrev pub has_prefix : Bytes → Bytes → Bool
has_prefix prefix k = bytes_eq (take (length prefix) k) prefix

-- The event database of a message.
abbrev pub event_of : Option Database → Option EventDatabase
event_of (some (event_db d)) = some d
event_of _ = none

abbrev pub event_of_message : Option DatabaseMessage → Option EventDatabase
event_of_message none = none
event_of_message (some m) = event_of m.database

abbrev pub push_event : Option EventDatabase → List EventDatabase → List EventDatabase
push_event none ds = ds
push_event (some d) ds = d ∷ ds

unfoldable pub event_dbs : ⦃c : Codec DatabaseMessage⦄ → List Entry → Result (List EventDatabase)
event_dbs [] = ok []
event_dbs ⦃c⦄ ((k, v) ∷ es) = do
  m ← ok_or (c.decode v) read_store_error
  databases ← event_dbs es
  ok (push_event (event_of m.database) databases)

-- The loop of `get_entries_with_prefix`.
unfoldable pub decode_prefixed : {T : Type 0} ⦃c : Codec T⦄ → Bytes → List Entry → Result (List T)
decode_prefixed prefix [] = ok []
decode_prefixed ⦃c⦄ prefix ((k, v) ∷ es) =
    let rest = decode_prefixed prefix es in
    if has_prefix prefix k
    then (do m ← ok_or (c.decode v) read_store_error; entries ← rest; ok (m ∷ entries))
    else ok []

abbrev pub message_of : CollectionState → Database.CollectionState
message_of c = record { total_doc_count = c.total_doc_count }

abbrev pub state_in : Bytes → Option DatabaseState → Option Database.CollectionState
state_in col none = none
state_in col (some s) = map_option message_of (Dict.get col s.collection_state)

abbrev pub counts_of : DatabaseState → Database.DatabaseState
counts_of s = record {
  total_doc_count = s.total_doc_count;
  total_col_count = length s.collection_state;
  doc_order = s.doc_order;
}

abbrev pub message_entry : Bytes × CollectionState → Bytes × Database.CollectionState
message_entry (col, c) = (col, message_of c)

abbrev pub persistent : Bytes → DatabaseState → DatabaseStatePersistence
persistent addr s = record {
  addr = addr;
  total_doc_count = s.total_doc_count;
  total_col_count = length s.collection_state;
  collection_states = map message_entry s.collection_state;
  doc_order = s.doc_order;
}

-- A document's owner, as stored, against the sender of a mutation.
abbrev pub verify_owner : Option Bytes → Db3Address → Result (Unit {0})
verify_owner none sender = err owner_verify_failed
verify_owner (some owner) sender =
    if bytes_eq owner sender.bytes then ok tt else err owner_verify_failed

-- `if let Ok(Some(d)) = database { if let Some(state) = state { … } }`
abbrev pub push_database :
    Bytes
    → Result (Option DatabaseMessage)
    → Option Database.DatabaseState
    → List (Bytes × (DatabaseMessage × Database.DatabaseState))
    → List (Bytes × (DatabaseMessage × Database.DatabaseState))
push_database key (ok (some d)) (some state) rest = (key, (d, state)) ∷ rest
push_database key _ _ rest = rest

module _ {Db Docs : Type 0} where
  module _ ⦃h : Hex⦄ where
    unfoldable pub state_of : Db3Address → DbStore Db Docs → Option DatabaseState
    unfolding Dict.get Address.to_hex
    state_of db_addr s = Dict.get (to_hex db_addr) s.db_state

    unfoldable pub get_collection_state :
        Db3Address → Bytes → DbStore Db Docs → Option Database.CollectionState
    unfolding state_of Dict.get
    get_collection_state db_addr col s = state_in col (state_of db_addr s)

    unfoldable pub build_persistence_state :
        Db3Address → DbStore Db Docs → Option DatabaseStatePersistence
    unfolding state_of Address.to_hex
    build_persistence_state db_addr s =
        map_option (persistent (to_hex db_addr)) (state_of db_addr s)

    unfoldable pub get_database_state : Db3Address → DbStore Db Docs → Option Database.DatabaseState
    unfolding state_of
    get_database_state db_addr s = map_option counts_of (state_of db_addr s)

  module _ ⦃E : Engine Cf Db⦄ where
    unfoldable pub get_entry :
        {T : Type 0} ⦃c : Codec T⦄ → Cf → Bytes → DbStore Db Docs → Result (Option T)
    unfolding decode_opt
    get_entry cf id s = do
      _ ← handle (E.cf_handle s.se cf) read_store_error
      value ← ok_or (E.get_cf s.se cf id) read_store_error
      decode_opt value

    unfoldable pub get_entries_with_prefix :
        {T : Type 0} ⦃c : Codec T⦄ → Bytes → Cf → DbStore Db Docs → Result (List T)
    unfolding decode_prefixed
    get_entries_with_prefix prefix cf s = do
      _ ← handle (E.cf_handle s.se cf) read_store_error
      decode_prefixed prefix (E.seek s.se cf prefix)

    unfoldable pub get_collection :
        ⦃c : Codec Collection⦄ → Db3Address → Bytes → DbStore Db Docs → Result (Option Collection)
    unfolding build_collection_key get_entry
    get_collection db_addr name s = do
      ck ← build_collection_key db_addr name
      get_entry collection_store_cf ck s

    unfoldable pub get_database :
        ⦃c : Codec DatabaseMessage⦄ → Db3Address → DbStore Db Docs → Result (Option DatabaseMessage)
    unfolding get_entry
    get_database db_addr = get_entry db_store_cf db_addr.bytes

    unfoldable pub get_event_db :
        ⦃c : Codec DatabaseMessage⦄ → Db3Address → DbStore Db Docs → Result (Option EventDatabase)
    unfolding get_database
    get_event_db addr s = do database ← get_database addr s; ok (event_of_message database)

    unfoldable pub get_all_event_db :
        ⦃c : Codec DatabaseMessage⦄ → DbStore Db Docs → Result (List EventDatabase)
    unfolding event_dbs
    get_all_event_db s = do
      _ ← handle (E.cf_handle s.se db_store_cf) read_store_error
      event_dbs (E.seek s.se db_store_cf [])

    unfoldable pub recover_block_state :
        ⦃c : Codec BlockState⦄ → DbStore Db Docs → Result (Option BlockState)
    unfolding get_entry
    recover_block_state = get_entry block_state_cf block_state_key

    unfoldable pub recover_from_state :
        ⦃c : Codec DatabaseStatePersistence⦄
        → Db3Address
        → DbStore Db Docs
        → Result (Option DatabaseStatePersistence)
    unfolding get_entry
    recover_from_state address = get_entry state_cf address.bytes

    unfoldable pub is_db_collection_exist : Db3Address → Bytes → DbStore Db Docs → Result Bool
    unfolding build_collection_key
    is_db_collection_exist db_addr col_name s = do
      ck ← build_collection_key db_addr col_name
      _ ← handle (E.cf_handle s.se collection_store_cf) read_store_error
      value ← ok_or (E.get_cf s.se collection_store_cf ck) read_store_error
      ok (is_some value)

    -- The ids of the loop of `verify_docs_ownership`.
    unfoldable pub verify_docs :
        Db3Address → Db3Address → List ℕ → DbStore Db Docs → Result (Unit {0})
    unfolding DbDocKey.encode
    verify_docs sender db_addr [] s = ok tt
    verify_docs sender db_addr (id ∷ ids) s = do
      value ←
          ok_or
            (E.get_cf s.se doc_owner_store_cf
              (DbDocKey.encode (record { address = db_addr; id = id })))
            read_store_error
      _ ← verify_owner value sender
      verify_docs sender db_addr ids s

    unfoldable pub verify_docs_ownership :
        Db3Address → Db3Address → List ℕ → DbStore Db Docs → Result (Unit {0})
    unfolding verify_docs
    verify_docs_ownership sender db_addr doc_ids s = do
      _ ← handle (E.cf_handle s.se doc_owner_store_cf) read_store_error
      verify_docs sender db_addr doc_ids s

    unfoldable pub get_doc_key_from_doc_id : ℕ → DbStore Db Docs → Result Bytes
    get_doc_key_from_doc_id doc_id s = do
      _ ← handle (E.cf_handle s.se doc_owner_store_cf) read_store_error
      value ← ok_or (E.get_cf s.se doc_owner_store_cf (be 8 doc_id)) read_store_error
      ok_or value read_store_error
