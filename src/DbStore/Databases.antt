-- ===== src/DbStore/Databases.antt =====
-- The methods of DBStoreV2 that create and delete databases.
use rtstore.Base.{ℕ, Bool, true, false, not, Option, none, some, List, [], ◌∷◌, ◌++◌, if◌then◌else◌}
use rtstore.Base.Bytes.{Bytes, bytes_eq}
use rtstore.Base.Result.{
  read_store_error, write_store_error, database_permission_denied, database_not_found,
  database_already_exist, Result, ok, err, ok_or, map_err,
}
use rtstore.Base.Exec.{Exec, pure, raise, query, lift, map_err_m, each, ◌>>=◌, ◌>>◌}
use rtstore.Engine.{Op, put_cf, delete_cf, Engine, Codec}
use rtstore.Engine.Entries.{Entry}
use rtstore.Crypto.{Hex, Sha3}
use rtstore.Crypto.Address.{Db3Address, to_hex, try_from}
use rtstore.Crypto.DbId
use rtstore.Crypto.DbId.{DbId, of_sender}
use rtstore.Proto.Database.{Collection, EventDatabase, doc_db, event_db, DatabaseMessage}
use rtstore.Proto.Mutation.{DocumentDatabaseMutation, EventDatabaseMutation}
use rtstore.StorageKeys.DbOwnerKey
use rtstore.DbStore.{Cf, db_store_cf, db_owner_store_cf, DbStore, DocStore}
use rtstore.DbStore.State.{update_db_state_for_add_db}
use rtstore.DbStore.Read.{has_prefix, get_database, get_event_db}
use rtstore.DbStore.Write.{on_state, cf_handle, write}
use rtstore.DbStore.Docs.{if_docs}
use rtstore.DbStore.Collections.{create_collection}

abbrev pub document_database : Db3Address → DbId → Bytes → DatabaseMessage
document_database sender db_addr desc = record {
  database =
      some (doc_db (record { address = db_addr.addr.bytes; sender = sender.bytes; desc = desc }));
}

abbrev pub event_database : Db3Address → DbId → EventDatabaseMutation → DatabaseMessage
event_database sender db_addr m = record {
  database = some (
      event_db (record {
        address = db_addr.addr.bytes;
        sender = sender.bytes;
        contract_address = m.contract_address;
        desc = m.desc;
        ttl = m.ttl;
        events_json_abi = m.events_json_abi;
        evm_node_url = m.evm_node_url;
        start_block = m.start_block;
      }));
}

abbrev pub key_to_delete :
    Db3Address → Bytes → Result (List (Op Cf)) → Result Db3Address → Result (List (Op Cf))
key_to_delete db_addr k rest (err e) = err e
key_to_delete db_addr k rest (ok addr) =
    if bytes_eq addr.bytes db_addr.bytes then ok (delete_cf db_owner_store_cf k ∷ []) else rest

-- The loop of `delete_event_db_internal`: the key of the owner's that leads to the database, if there
-- is one.
unfoldable pub owner_key_ops : Db3Address → Db3Address → List Entry → Result (List (Op Cf))
unfolding try_from
owner_key_ops owner db_addr [] = ok []
owner_key_ops owner db_addr ((k, v) ∷ es) =
    let rest = owner_key_ops owner db_addr es in
    if has_prefix owner.bytes k
    then key_to_delete db_addr k rest (map_err (try_from v) read_store_error)
    else ok []

-- `if let Ok(Some(_)) = …`
abbrev pub is_there : {A : Type 0} → Result (Option A) → Bool
is_there (ok (some a)) = true
is_there _ = false

module _ {Db Docs : Type 0} ⦃E : Engine Cf Db⦄ ⦃D : DocStore Docs⦄ ⦃h : Hex⦄ ⦃cc : Codec Collection⦄
    ⦃cd : Codec DatabaseMessage⦄ where
  -- The batch that creates a database: its message, and its key under the owner.
  unfoldable pub save_database :
      Db3Address → DbId → DatabaseMessage → ℕ → ℕ → Exec (DbStore Db Docs) (Unit {0})
  unfolding DbOwnerKey.encode update_db_state_for_add_db DbId.to_hex
  save_database sender db_addr message block order = do
    cf_handle db_store_cf read_store_error
    cf_handle db_owner_store_cf read_store_error
    key ← lift (DbOwnerKey.encode (record { owner = sender; block = block; order = order }))
    buf ← lift (ok_or (cd.encode message) write_store_error)
    write (
        put_cf db_store_cf db_addr.addr.bytes buf
        ∷ put_cf db_owner_store_cf key db_addr.addr.bytes
        ∷ [])
    on_state (update_db_state_for_add_db (DbId.to_hex db_addr))

  unfoldable pub create_event_database :
      ⦃sha : Sha3⦄
      → Db3Address
      → EventDatabaseMutation
      → ℕ
      → ℕ
      → ℕ
      → ℕ
      → Exec (DbStore Db Docs) DbId
  unfolding of_sender save_database create_collection
  create_event_database sender mutation nonce network_id block order =
      let db_addr = of_sender sender nonce network_id in
      do
        save_database sender db_addr (event_database sender db_addr mutation) block order
        each (create_collection sender db_addr.addr) mutation.tables
        map_err_m (if_docs (D.create_database db_addr.addr)) write_store_error
        pure db_addr

  unfoldable pub delete_event_db_internal :
      Db3Address → Db3Address → Exec (DbStore Db Docs) (Unit {0})
  unfolding owner_key_ops
  delete_event_db_internal owner db_addr = do
    cf_handle db_owner_store_cf read_store_error
    keys ← query (λ s. owner_key_ops owner db_addr (E.seek s.se db_owner_store_cf owner.bytes))
    cf_handle db_store_cf read_store_error
    write (keys ++ (delete_cf db_store_cf db_addr.bytes ∷ []))

  unfoldable pub delete_found :
      Db3Address → Db3Address → Option EventDatabase → Exec (DbStore Db Docs) (Unit {0})
  unfolding delete_event_db_internal to_hex
  delete_found sender db_addr none = raise (database_not_found (to_hex db_addr))
  delete_found sender db_addr (some database) =
      if not (bytes_eq database.sender sender.bytes)
      then raise database_permission_denied
      else delete_event_db_internal sender db_addr

  unfoldable pub delete_event_db : Db3Address → Db3Address → Exec (DbStore Db Docs) (Unit {0})
  unfolding get_event_db delete_found
  delete_event_db sender db_addr = do
    database ← query (get_event_db db_addr)
    delete_found sender db_addr database

  unfoldable pub create_predefined_doc_database :
      Db3Address → DbId → Bytes → ℕ → ℕ → Exec (DbStore Db Docs) (Unit {0})
  unfolding get_database save_database DbId.to_hex
  create_predefined_doc_database sender db_addr desc block order = do
    exists ← query (λ s. ok (is_there (get_database db_addr.addr s)))
    if exists then raise (database_already_exist (DbId.to_hex db_addr)) else pure tt
    save_database sender db_addr (document_database sender db_addr desc) block order
    map_err_m (if_docs (D.create_database db_addr.addr)) write_store_error

  unfoldable pub create_doc_database :
      ⦃sha : Sha3⦄
      → Db3Address
      → DocumentDatabaseMutation
      → ℕ
      → ℕ
      → ℕ
      → ℕ
      → Exec (DbStore Db Docs) DbId
  unfolding of_sender create_predefined_doc_database
  create_doc_database sender mutation nonce network_id block order =
      let db_addr = of_sender sender nonce network_id in
      do create_predefined_doc_database sender db_addr mutation.db_desc block order; pure db_addr
