-- ===== src/DbStore/Keeps/Databases.antt =====
-- The methods on databases leave the number of the last mutation alone.
use mathlib.Core.Path.{subst}
use rtstore.Base.{
  ℕ, ◌≡◌, ◌∙◌, refl, inl, inr, not, Bool-cases, Option, none, some, List, [], ◌∷◌, ◌++◌, arith,
}
use rtstore.Base.Bytes.{Bytes, bytes_eq}
use rtstore.Base.Result.{
  read_store_error, write_store_error, database_permission_denied, database_not_found,
  database_already_exist, Result, ok, err, ok_or, map_err,
}
use rtstore.Engine.{Op, op_at, batch_at, put_cf, delete_cf, Engine, IsUp, Codec}
use rtstore.Engine.Entries.{Entry}
use rtstore.Crypto.{Hex, Sha3}
use rtstore.Crypto.Address.{Db3Address, to_hex, try_from}
use rtstore.Crypto.DbId
use rtstore.Crypto.DbId.{DbId, of_sender}
use rtstore.Proto.Database.{Collection, EventDatabase, DatabaseMessage}
use rtstore.Proto.Mutation.{DocumentDatabaseMutation, EventDatabaseMutation}
use rtstore.StorageKeys.DbOwnerKey
use rtstore.DbStore.{
  Cf, cf_eq, block_state_cf, block_state_key, db_store_cf, db_owner_store_cf, DocStore,
}
use rtstore.DbStore.Read.{has_prefix, get_database, get_event_db}
use rtstore.DbStore.State.{update_db_state_for_add_db}
use rtstore.DbStore.Databases.{
  is_there, owner_key_ops, key_to_delete, save_database, document_database, event_database,
  create_event_database, delete_event_db_internal, delete_found, delete_event_db,
  create_predefined_doc_database, create_doc_database,
}
use rtstore.DbStore.Keeps.Collections.{create_collection-KeepsNumber}
use rtstore.DbStore.Keeps.{
  IsElsewhere, KeepsNumber, KeepsNumber-bind, KeepsNumber-then, KeepsNumber-map_err_m,
  KeepsNumber-if, KeepsNumber-each, KeepsNumber-write, KeepsNumber-on_state, KeepsNumber-if_docs,
  KeepsNumber-query, KeepsNumber-result, KeepsNumber-handle, KeepsNumber-answer,
}

-- What the loop over the keys of an owner deletes.
key_to_delete-IsElsewhere :
    (db : Db3Address) (k : Bytes) (rest : Result (List (Op Cf))) (addr : Result Db3Address)
    (ops : List (Op Cf))
    → ((ops : List (Op Cf)) → rest ≡ ok ops → IsElsewhere ops)
    → key_to_delete db k rest addr ≡ ok ops
    → IsElsewhere ops
key_to_delete-IsElsewhere db k rest (err e) ops others found = ground (arith, found)
key_to_delete-IsElsewhere db k rest (ok addr) ops others found =
    elim (Bool-cases (bytes_eq addr.bytes db.bytes)) [
      | inl here ↦
          let same : delete_cf db_owner_store_cf k ∷ [] ≡ ops = ground (arith, here, found) in
          subst IsElsewhere same (λ o. refl)
      | inr other ↦ others ops (ground (arith, other, found))
    ]

owner_key_ops-IsElsewhere :
    (owner db : Db3Address) (es : List Entry) (ops : List (Op Cf))
    → owner_key_ops owner db es ≡ ok ops
    → IsElsewhere ops
unfolding owner_key_ops
owner_key_ops-IsElsewhere owner db [] ops found =
    let same : [] ≡ ops = ground (arith, found) in subst IsElsewhere same (λ o. refl)
owner_key_ops-IsElsewhere owner db ((k, v) ∷ es) ops found =
    elim (Bool-cases (has_prefix owner.bytes k)) [
      | inl mine ↦
          key_to_delete-IsElsewhere db k (owner_key_ops owner db es)
            (map_err (try_from v) read_store_error) ops
            (λ ops'. owner_key_ops-IsElsewhere owner db es ops') (ground (arith, mine, found))
      | inr past ↦
          let same : [] ≡ ops = ground (arith, past, found) in subst IsElsewhere same (λ o. refl)
    ]

batch-append :
    (ops rest : List (Op Cf)) (o : Option Bytes)
    → batch_at (ops ++ rest) block_state_cf block_state_key o
      ≡ batch_at rest block_state_cf block_state_key (batch_at ops block_state_cf block_state_key o)
batch-append [] rest o = refl
batch-append (op ∷ ops) rest o = batch-append ops rest (op_at op block_state_cf block_state_key o)

-- A batch with the database itself, too.
append-IsElsewhere :
    (ops rest : List (Op Cf)) → IsElsewhere ops → IsElsewhere rest → IsElsewhere (ops ++ rest)
append-IsElsewhere ops rest first second o = batch-append ops rest o ∙ second _ ∙ first o

module _ {Db Docs : Type 0} ⦃E : Engine Cf Db⦄ ⦃D : DocStore Docs⦄ ⦃h : Hex⦄ ⦃cc : Codec Collection⦄
    ⦃cd : Codec DatabaseMessage⦄ (up : IsUp E) where
  save_database-KeepsNumber :
      (sender : Db3Address) (id : DbId) (m : DatabaseMessage) (block order : ℕ)
      → KeepsNumber up (save_database {Docs = Docs} sender id m block order)
  unfolding save_database
  save_database-KeepsNumber sender id m block order =
      KeepsNumber-then (KeepsNumber-handle db_store_cf read_store_error) (
        KeepsNumber-then (KeepsNumber-handle db_owner_store_cf read_store_error) (
          KeepsNumber-bind
            (KeepsNumber-result
              (DbOwnerKey.encode (record { owner = sender; block = block; order = order })))
            λ key.
              KeepsNumber-bind (KeepsNumber-result (ok_or (cd.encode m) write_store_error)) λ buf.
                KeepsNumber-then
                  (KeepsNumber-write
                    (put_cf db_store_cf id.addr.bytes buf
                      ∷ put_cf db_owner_store_cf key id.addr.bytes
                      ∷ [])
                    (λ o. refl))
                  (KeepsNumber-on_state (update_db_state_for_add_db (DbId.to_hex id)))))

  pub create_event_database-KeepsNumber :
      ⦃sha : Sha3⦄ (sender : Db3Address) (m : EventDatabaseMutation) (nonce network block order : ℕ)
      → KeepsNumber up (create_event_database {Docs = Docs} sender m nonce network block order)
  unfolding create_event_database
  create_event_database-KeepsNumber sender m nonce network block order =
      let id = of_sender sender nonce network in
      KeepsNumber-then
        (save_database-KeepsNumber sender id (event_database sender id m) block order)
        (KeepsNumber-then
          (KeepsNumber-each m.tables (λ c. create_collection-KeepsNumber up sender id.addr c))
          (KeepsNumber-then
            (KeepsNumber-map_err_m write_store_error
              (KeepsNumber-if_docs (D.create_database id.addr)))
            (KeepsNumber-result (ok id))))

  delete_event_db_internal-KeepsNumber :
      (owner db_addr : Db3Address)
      → KeepsNumber up (delete_event_db_internal {Docs = Docs} owner db_addr)
  unfolding delete_event_db_internal
  delete_event_db_internal-KeepsNumber owner db_addr =
      KeepsNumber-then (KeepsNumber-handle db_owner_store_cf read_store_error) (
        KeepsNumber-answer
          (λ s. owner_key_ops owner db_addr (E.seek s.se db_owner_store_cf owner.bytes))
          λ s keys found. KeepsNumber-then (KeepsNumber-handle db_store_cf read_store_error) (
            KeepsNumber-write (keys ++ (delete_cf db_store_cf db_addr.bytes ∷ [])) (
              append-IsElsewhere keys (delete_cf db_store_cf db_addr.bytes ∷ [])
                (owner_key_ops-IsElsewhere owner db_addr (E.seek s.se db_owner_store_cf owner.bytes)
                  keys found)
                (λ o. refl))))

  delete_found-KeepsNumber :
      (sender db_addr : Db3Address) (d : Option EventDatabase)
      → KeepsNumber up (delete_found {Docs = Docs} sender db_addr d)
  unfolding delete_found
  delete_found-KeepsNumber sender db_addr none =
      KeepsNumber-result (err (database_not_found (to_hex db_addr)))
  delete_found-KeepsNumber sender db_addr (some d) =
      KeepsNumber-if (not (bytes_eq d.sender sender.bytes))
        (KeepsNumber-result (err database_permission_denied))
        (delete_event_db_internal-KeepsNumber sender db_addr)

  pub delete_event_db-KeepsNumber :
      (sender db_addr : Db3Address) → KeepsNumber up (delete_event_db {Docs = Docs} sender db_addr)
  unfolding delete_event_db
  delete_event_db-KeepsNumber sender db_addr =
      KeepsNumber-bind (KeepsNumber-query (get_event_db db_addr))
        λ d. delete_found-KeepsNumber sender db_addr d

  pub create_predefined-KeepsNumber :
      (sender : Db3Address) (id : DbId) (desc : Bytes) (block order : ℕ)
      → KeepsNumber up (create_predefined_doc_database {Docs = Docs} sender id desc block order)
  unfolding create_predefined_doc_database
  create_predefined-KeepsNumber sender id desc block order =
      KeepsNumber-bind (KeepsNumber-query (λ s. ok (is_there (get_database id.addr s)))) λ exists.
        KeepsNumber-then
          (KeepsNumber-if exists
            (KeepsNumber-result (err (database_already_exist (DbId.to_hex id))))
            (KeepsNumber-result (ok tt)))
          (KeepsNumber-then
            (save_database-KeepsNumber sender id (document_database sender id desc) block order)
            (KeepsNumber-map_err_m write_store_error
              (KeepsNumber-if_docs (D.create_database id.addr))))

  pub create_doc_database-KeepsNumber :
      ⦃sha : Sha3⦄ (sender : Db3Address) (m : DocumentDatabaseMutation)
      (nonce network block order : ℕ)
      → KeepsNumber up (create_doc_database {Docs = Docs} sender m nonce network block order)
  unfolding create_doc_database
  create_doc_database-KeepsNumber sender m nonce network block order =
      let id = of_sender sender nonce network in
      KeepsNumber-then (create_predefined-KeepsNumber sender id m.db_desc block order)
        (KeepsNumber-result (ok id))
