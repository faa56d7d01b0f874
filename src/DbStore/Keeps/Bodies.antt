-- ===== src/DbStore/Keeps/Bodies.antt =====
-- A body of a mutation leaves the number of the last mutation alone, for each action.
use rtstore.Base.{ℕ, ◌==◌, not, Option, some, List, [], ◌∷◌, map, length}
use rtstore.Base.Bytes.{Bytes}
use rtstore.Base.Decimal.{decimal}
use rtstore.Base.Dict
use rtstore.Base.Dict.{Dict}
use rtstore.Base.Result.{apply_mutation_error, ok, err, map_err}
use rtstore.Base.Exec.{Exec, lift, ◌>>=◌}
use rtstore.Engine.{Engine, IsUp, Codec}
use rtstore.Crypto.{Hex, Sha3}
use rtstore.Crypto.Address.{Db3Address, to_hex, try_from}
use rtstore.Crypto.DbId
use rtstore.Crypto.DbId.{DbId}
use rtstore.Proto.Database.{Collection, DatabaseMessage}
use rtstore.Proto.Mutation.{
  ExtraItem, Body, collection_mutation, document_mutation, event_database_mutation,
  doc_database_mutation, mint_doc_database_mutation, mint_collection_mutation, add_index_mutation,
  delete_event_database_mutation,
}
use rtstore.DbStore.{DbStore, Cf, cf_eq, DocStore, Texts}
use rtstore.DbStore.Decode.{address_of_text, document_texts}
use rtstore.DbStore.Bodies.{
  db_addr_item, collection_item, document_item, delete_event_db_body, add_index_body,
  mint_collection_body, mint_document_db_body, create_event_db_body, create_document_db_body,
  add_collection_body, add_document_body, update_document_body, delete_document_body,
}
use rtstore.DbStore.Keeps.{
  KeepsNumber, KeepsNumber-bind, KeepsNumber-then, KeepsNumber-map_err_m, KeepsNumber-if,
  KeepsNumber-result,
}
use rtstore.DbStore.Keeps.Loops.{MayKeep}
use rtstore.DbStore.Keeps.Collections.{
  must_be_new-KeepsNumber, save_collection_internal-KeepsNumber, create_collection-KeepsNumber,
  add_index-KeepsNumber,
}
use rtstore.DbStore.Keeps.Docs.{
  add_docs-KeepsNumber, update_docs-KeepsNumber, delete_docs-KeepsNumber,
}
use rtstore.DbStore.Keeps.Databases.{
  create_event_database-KeepsNumber, delete_event_db-KeepsNumber, create_predefined-KeepsNumber,
  create_doc_database-KeepsNumber,
}

module _ {Db : Type 0} (Docs : Type 0) ⦃E : Engine Cf Db⦄ ⦃D : DocStore Docs⦄ ⦃h : Hex⦄
    ⦃cc : Codec Collection⦄ ⦃cd : Codec DatabaseMessage⦄ (up : IsUp E) where
  pub delete_event_db_body-MayKeep :
      (sender : Db3Address) (a : Bytes) (x : Option Body)
      → MayKeep up (delete_event_db_body {Docs = Docs} sender (record { db_address = a; body = x }))
  unfolding MayKeep delete_event_db_body
  delete_event_db_body-MayKeep sender a (some delete_event_database_mutation) =
      KeepsNumber-bind (KeepsNumber-result (try_from a)) λ db_addr.
        KeepsNumber-then (delete_event_db-KeepsNumber up sender db_addr)
          (KeepsNumber-result (ok (db_addr_item (to_hex db_addr) ∷ [])))
  delete_event_db_body-MayKeep sender a _ = tt

  pub add_index_body-MayKeep :
      (sender : Db3Address) (a : Bytes) (x : Option Body)
      → MayKeep up (add_index_body {Docs = Docs} sender (record { db_address = a; body = x }))
  unfolding MayKeep add_index_body
  add_index_body-MayKeep sender a (some (add_index_mutation m)) =
      KeepsNumber-bind (KeepsNumber-result (try_from a)) λ db_addr.
        KeepsNumber-then (add_index-KeepsNumber up db_addr m.collection_name m.index_fields sender)
          (KeepsNumber-result (ok (collection_item m.collection_name ∷ [])))
  add_index_body-MayKeep sender a _ = tt

  pub create_document_db_body-MayKeep :
      ⦃sha : Sha3⦄ (sender : Db3Address) (nonce network block order : ℕ) (a : Bytes)
      (x : Option Body)
      → MayKeep up (
          create_document_db_body {Docs = Docs} sender nonce network block order
            (record { db_address = a; body = x }))
  unfolding MayKeep create_document_db_body
  create_document_db_body-MayKeep sender nonce network block order a
        (some (doc_database_mutation m)) =
      KeepsNumber-bind
        (KeepsNumber-map_err_m apply_mutation_error
          (create_doc_database-KeepsNumber up sender m nonce network block order))
        λ id. KeepsNumber-result (ok (db_addr_item (DbId.to_hex id) ∷ []))
  create_document_db_body-MayKeep sender nonce network block order a _ = tt

  pub create_event_db_body-MayKeep :
      ⦃sha : Sha3⦄ (sender : Db3Address) (nonce network block order : ℕ) (a : Bytes)
      (x : Option Body)
      → MayKeep up (
          create_event_db_body {Docs = Docs} sender nonce network block order
            (record { db_address = a; body = x }))
  unfolding MayKeep create_event_db_body
  create_event_db_body-MayKeep sender nonce network block order a
        (some (event_database_mutation m)) =
      KeepsNumber-bind
        (KeepsNumber-map_err_m apply_mutation_error
          (create_event_database-KeepsNumber up sender m nonce network block order))
        λ id. KeepsNumber-result (ok (db_addr_item (DbId.to_hex id) ∷ []))
  create_event_db_body-MayKeep sender nonce network block order a _ = tt

  -- What follows the decoding of a body's address.
  at_address :
      (a : Bytes) {f : Db3Address → Exec (DbStore Db Docs) (List ExtraItem)}
      → ((db_addr : Db3Address) → KeepsNumber up (f db_addr))
      → KeepsNumber up (lift (map_err (try_from a) apply_mutation_error) >>= f)
  at_address a rest =
      KeepsNumber-bind (KeepsNumber-result (map_err (try_from a) apply_mutation_error)) rest

  pub add_collection_body-KeepsNumber :
      (sender : Db3Address) (i : ℕ) (a : Bytes) (x : Option Body)
      → KeepsNumber up
          (add_collection_body {Docs = Docs} sender i (record { db_address = a; body = x }))
  unfolding add_collection_body
  add_collection_body-KeepsNumber sender i a (some (collection_mutation m)) =
      at_address a λ db_addr.
        KeepsNumber-then
          (KeepsNumber-map_err_m apply_mutation_error
            (create_collection-KeepsNumber up sender db_addr m))
          (KeepsNumber-result (ok (collection_item m.collection_name ∷ [])))
  add_collection_body-KeepsNumber sender i a _ = at_address a λ db_addr. KeepsNumber-result (ok [])

  pub delete_document_body-KeepsNumber :
      (sender : Db3Address) (i : ℕ) (a : Bytes) (x : Option Body)
      → KeepsNumber up
          (delete_document_body {Docs = Docs} sender i (record { db_address = a; body = x }))
  unfolding delete_document_body
  delete_document_body-KeepsNumber sender i a (some (document_mutation m)) = at_address a λ db_addr.
      KeepsNumber-then
        (KeepsNumber-map_err_m apply_mutation_error
          (delete_docs-KeepsNumber up db_addr sender m.collection_name m.ids))
        (KeepsNumber-result (ok []))
  delete_document_body-KeepsNumber sender i a _ = at_address a λ db_addr. KeepsNumber-result (ok [])

  module _ ⦃t : Texts⦄ where
    pub mint_collection_body-MayKeep :
        (a : Bytes) (x : Option Body)
        → MayKeep up (mint_collection_body {Docs = Docs} (record { db_address = a; body = x }))
    unfolding MayKeep mint_collection_body
    mint_collection_body-MayKeep a (some (mint_collection_mutation m)) =
        KeepsNumber-bind (KeepsNumber-result (address_of_text m.sender)) λ sender.
          KeepsNumber-bind (KeepsNumber-result (address_of_text m.db_addr)) λ db_addr.
            KeepsNumber-then (must_be_new-KeepsNumber up db_addr m.name) (
              KeepsNumber-then (save_collection_internal-KeepsNumber up sender db_addr m.name [])
                (KeepsNumber-result (ok (collection_item m.name ∷ []))))
    mint_collection_body-MayKeep a _ = tt

    pub mint_document_db_body-MayKeep :
        (block order : ℕ) (a : Bytes) (x : Option Body)
        → MayKeep up
            (mint_document_db_body {Docs = Docs} block order (record { db_address = a; body = x }))
    unfolding MayKeep mint_document_db_body
    mint_document_db_body-MayKeep block order a (some (mint_doc_database_mutation m)) =
        KeepsNumber-bind (KeepsNumber-result (address_of_text m.sender)) λ sender.
          KeepsNumber-bind (KeepsNumber-result (address_of_text m.db_addr)) λ addr.
            KeepsNumber-then
              (KeepsNumber-map_err_m apply_mutation_error (
                create_predefined-KeepsNumber up sender (record { addr = addr }) m.desc block
                  order))
              (KeepsNumber-result (ok (db_addr_item (DbId.to_hex (record { addr = addr })) ∷ [])))
    mint_document_db_body-MayKeep block order a _ = tt

    pub add_document_body-KeepsNumber :
        (sender : Db3Address) (ids : Dict (List ℕ)) (i : ℕ) (a : Bytes) (x : Option Body)
        → KeepsNumber up
            (add_document_body {Docs = Docs} sender ids i (record { db_address = a; body = x }))
    unfolding add_document_body
    add_document_body-KeepsNumber sender ids i a (some (document_mutation m)) =
        at_address a λ db_addr.
          KeepsNumber-bind (KeepsNumber-result (document_texts m.documents)) λ docs.
            KeepsNumber-bind
              (KeepsNumber-map_err_m apply_mutation_error (
                add_docs-KeepsNumber up db_addr sender m.collection_name docs
                  (Dict.get (decimal i) ids)))
              λ given. KeepsNumber-result (ok (map document_item given))
    add_document_body-KeepsNumber sender ids i a _ =
        at_address a λ db_addr. KeepsNumber-result (ok [])

    pub update_document_body-KeepsNumber :
        (sender : Db3Address) (i : ℕ) (a : Bytes) (x : Option Body)
        → KeepsNumber up
            (update_document_body {Docs = Docs} sender i (record { db_address = a; body = x }))
    unfolding update_document_body
    update_document_body-KeepsNumber sender i a (some (document_mutation m)) =
        at_address a λ db_addr.
          KeepsNumber-if (not (length m.documents == length m.ids))
            (KeepsNumber-result (err apply_mutation_error))
            (KeepsNumber-bind (KeepsNumber-result (document_texts m.documents)) λ docs.
              KeepsNumber-then
                (KeepsNumber-map_err_m apply_mutation_error
                  (update_docs-KeepsNumber up db_addr sender m.collection_name docs m.ids))
                (KeepsNumber-result (ok [])))
    update_document_body-KeepsNumber sender i a _ =
        at_address a λ db_addr. KeepsNumber-result (ok [])
