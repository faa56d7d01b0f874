-- ===== src/DbStore/Created.antt =====
-- What the methods on databases leave in the store of the databases.
use rtstore.Base.{◌≡◌, inl, inr, ℕ, some, List, [], ◌∷◌, arith, Bool-cases, if◌then◌else◌}
use rtstore.Base.Bytes.{Bytes, bytes_eq}
use rtstore.Base.Bytes.Order.{bytes_eq_refl}
use rtstore.Base.Result.{database_already_exist, ok, err, Result-cases}
use rtstore.Base.Exec.{Exec}
use rtstore.Engine.{Op, put_cf, Engine, IsUp, Codec, IsCodec}
use rtstore.Crypto.{Hex}
use rtstore.Crypto.Address.{Db3Address}
use rtstore.Crypto.DbId
use rtstore.Crypto.DbId.{DbId}
use rtstore.Proto.Database.{Collection, DatabaseMessage}
use rtstore.StorageKeys.DbOwnerKey
use rtstore.StorageKeys.DbOwnerKey.{key_bytes}
use rtstore.DbStore.{Cf, cf_eq, db_store_cf, db_owner_store_cf, DbStore, DocStore}
use rtstore.DbStore.State.{update_db_state_for_add_db}
use rtstore.DbStore.Read.{get_database, get_entry}
use rtstore.DbStore.Docs.{if_docs, if_docs-keeps}
use rtstore.DbStore.Databases.{
  is_there, document_database, save_database, create_predefined_doc_database,
}

-- The writes of a database.
abbrev saved :
    {cd : Codec DatabaseMessage}
    → IsCodec cd
    → DbOwnerKey.DbOwnerKey
    → DbId
    → DatabaseMessage
    → List (Op Cf)
saved law key db message =
    put_cf db_store_cf db.addr.bytes (law.encoded message)
    ∷ put_cf db_owner_store_cf (key_bytes key) db.addr.bytes
    ∷ []

module _ {Db Docs : Type 0} ⦃E : Engine Cf Db⦄ ⦃D : DocStore Docs⦄ ⦃h : Hex⦄ ⦃cc : Codec Collection⦄
    ⦃cd : Codec DatabaseMessage⦄ (up : IsUp E) (law : IsCodec cd) where
  save_database-writes :
      (sender : Db3Address) (db : DbId) (message : DatabaseMessage) (block order : ℕ)
      (s : DbStore Db Docs)
      → save_database sender db message block order s ≡ (
        ok tt,
        record s {
          se =
              up.applied s.se
                (saved law (record { owner = sender; block = block; order = order }) db message);
          db_state = update_db_state_for_add_db (DbId.to_hex db) s.db_state;
        },
      )
  unfolding save_database DbOwnerKey.encode
  save_database-writes sender db message block order s =
      let key : DbOwnerKey.DbOwnerKey = record { owner = sender; block = block; order = order } in
      ground (
        arith,
        up.open_cf s.se db_store_cf,
        up.open_cf s.se db_owner_store_cf,
        law.encodes message,
        up.writes s.se (saved law key db message),
      )

  get_database-answers :
      (a : Db3Address) (s : DbStore Db Docs) (key : DbOwnerKey.DbOwnerKey) (db : DbId)
      (message : DatabaseMessage) (t : DbStore Db Docs)
      → t.se ≡ up.applied s.se (saved law key db message)
      → get_database a t
        ≡ (if bytes_eq db.addr.bytes a.bytes then ok (some message) else get_database a s)
  unfolding get_database get_entry
  get_database-answers a s key db message t writes =
      let ops : List (Op Cf) = saved law key db message in
      ground (
        arith,
        writes,
        up.open_cf s.se db_store_cf,
        up.open_cf (up.applied s.se ops) db_store_cf,
        up.reads s.se db_store_cf a.bytes,
        up.reads (up.applied s.se ops) db_store_cf a.bytes,
        up.written s.se ops db_store_cf a.bytes,
        law.decodes message,
      )

  refused_again :
      (other : Db3Address) (db : DbId) (desc : Bytes) (block order : ℕ) (t : DbStore Db Docs)
      (message : DatabaseMessage)
      → get_database db.addr t ≡ ok (some message)
      → create_predefined_doc_database other db desc block order t
        ≡ (err (database_already_exist (DbId.to_hex db)), t)
  unfolding create_predefined_doc_database
  refused_again other db desc block order t message there = ground (arith, there)

  -- On an engine that is up, a document database that was created is found with its sender and its
  -- description, every other database is found as before, and the database is not created again, by
  -- nobody and with no description. Encoded databases decode.
  pub get_database-create :
      (sender : Db3Address) (db : DbId) (desc : Bytes) (block order : ℕ) (s t : DbStore Db Docs)
      → create_predefined_doc_database sender db desc block order s ≡ (ok tt, t)
      → (a other : Db3Address) (desc' : Bytes) (block' order' : ℕ)
      → (get_database a t ≡ (
          if bytes_eq db.addr.bytes a.bytes
          then ok (some (document_database sender db desc))
          else get_database a s))
        × (create_predefined_doc_database other db desc' block' order' t
            ≡ (err (database_already_exist (DbId.to_hex db)), t))
  unfolding create_predefined_doc_database
  get_database-create sender db desc block order s t run a other desc' block' order' =
      let message : DatabaseMessage = document_database sender db desc in
      let key : DbOwnerKey.DbOwnerKey = record { owner = sender; block = block; order = order } in
      let s1 : DbStore Db Docs = record s {
        se = up.applied s.se (saved law key db message);
        db_state = update_db_state_for_add_db (DbId.to_hex db) s.db_state;
      } in
      let m : Exec Docs (Unit {0}) = D.create_database db.addr in
      let saves = save_database-writes sender db message block order s in
      let writes : t.se ≡ up.applied s.se (saved law key db message) =
        elim (Bool-cases (is_there (get_database db.addr s))) [
          | inl there ↦ ground (arith, run, there)
          | inr new ↦ elim (Result-cases (if_docs m s1).0) [
            | inl (x, failed) ↦ ground (arith, run, new, saves, failed)
            | inr (u, done) ↦ ground (arith, run, new, saves, done, if_docs-keeps m s1)
          ]
        ] in
      let found = get_database-answers db.addr s key db message t writes in
      (
        get_database-answers a s key db message t writes,
        refused_again other db desc' block' order' t message
            (ground (arith, found, bytes_eq_refl db.addr.bytes)),
      )
