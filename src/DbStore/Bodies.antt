-- ===== src/DbStore/Bodies.antt =====
-- What `DBStoreV2::apply_mutation` does with one body of a mutation, for each action. `none` is a body
-- that is passed over.
use rtstore.Base.{ℕ, Option, none, some, List, [], ◌∷◌, map, length, ◌==◌, not, if◌then◌else◌}
use rtstore.Base.Bytes.{Bytes}
use rtstore.Base.Decimal.{decimal, signed_decimal}
use rtstore.Base.Dict
use rtstore.Base.Dict.{Dict}
use rtstore.Base.Result.{apply_mutation_error, map_err}
use rtstore.Base.Exec.{Exec, pure, raise, lift, map_err_m, ◌>>=◌, ◌>>◌}
use rtstore.Engine.{Engine, Codec}
use rtstore.Crypto.{Hex, Sha3}
use rtstore.Crypto.Address.{Db3Address, to_hex, try_from}
use rtstore.Crypto.DbId
use rtstore.Proto.Database.{Collection, DatabaseMessage}
use rtstore.Proto.Mutation.{
  collection_mutation, document_mutation, event_database_mutation, doc_database_mutation,
  mint_doc_database_mutation, mint_collection_mutation, add_index_mutation,
  delete_event_database_mutation, BodyWrapper, ExtraItem,
}
use rtstore.DbStore.{Cf, DbStore, DocStore, Texts}
use rtstore.DbStore.Decode.{address_of_text, document_texts}
use rtstore.DbStore.Docs.{add_docs, update_docs, delete_docs}
use rtstore.DbStore.Collections.{
  save_collection_internal, must_be_new, create_collection, add_index,
}
use rtstore.DbStore.Databases
use rtstore.DbStore.Databases.{
  create_event_database, create_predefined_doc_database, create_doc_database,
}

-- "db_addr", "collection" and "document"
abbrev pub db_addr_item : Bytes → ExtraItem
db_addr_item value = record {
  key = b'd' ∷ b'b' ∷ b'_' ∷ b'a' ∷ b'd' ∷ b'd' ∷ b'r' ∷ [];
  value = value;
}

abbrev pub collection_item : Bytes → ExtraItem
collection_item value = record {
  key = b'c' ∷ b'o' ∷ b'l' ∷ b'l' ∷ b'e' ∷ b'c' ∷ b't' ∷ b'i' ∷ b'o' ∷ b'n' ∷ [];
  value = value;
}

abbrev pub document_item : ℕ → ExtraItem
unfolding signed_decimal
document_item id = record {
  key = b'd' ∷ b'o' ∷ b'c' ∷ b'u' ∷ b'm' ∷ b'e' ∷ b'n' ∷ b't' ∷ [];
  value = signed_decimal id;
}

module _ {Db Docs : Type 0} ⦃E : Engine Cf Db⦄ ⦃D : DocStore Docs⦄ ⦃h : Hex⦄ ⦃cc : Codec Collection⦄
    ⦃cd : Codec DatabaseMessage⦄ where
  unfoldable pub delete_event_db_body :
      Db3Address → BodyWrapper → Option (Exec (DbStore Db Docs) (List ExtraItem))
  unfolding Databases.delete_event_db try_from to_hex
  delete_event_db_body address b = elim b.body [
    | some delete_event_database_mutation ↦ some (do
      db_addr ← lift (try_from b.db_address)
      Databases.delete_event_db address db_addr
      pure (db_addr_item (to_hex db_addr) ∷ []))
    | _ ↦ none
  ]

  unfoldable pub add_index_body :
      Db3Address → BodyWrapper → Option (Exec (DbStore Db Docs) (List ExtraItem))
  unfolding add_index try_from
  add_index_body address b = elim b.body [
    | some (add_index_mutation m) ↦ some (do
      db_addr ← lift (try_from b.db_address)
      add_index db_addr m.collection_name m.index_fields address
      pure (collection_item m.collection_name ∷ []))
    | _ ↦ none
  ]

  unfoldable pub create_document_db_body :
      ⦃sha : Sha3⦄
      → Db3Address
      → ℕ
      → ℕ
      → ℕ
      → ℕ
      → BodyWrapper
      → Option (Exec (DbStore Db Docs) (List ExtraItem))
  unfolding create_doc_database DbId.to_hex
  create_document_db_body address nonce network block order b = elim b.body [
    | some (doc_database_mutation m) ↦ some (do
      db_id ←
          map_err_m (create_doc_database address m nonce network block order) apply_mutation_error
      pure (db_addr_item (DbId.to_hex db_id) ∷ []))
    | _ ↦ none
  ]

  unfoldable pub create_event_db_body :
      ⦃sha : Sha3⦄
      → Db3Address
      → ℕ
      → ℕ
      → ℕ
      → ℕ
      → BodyWrapper
      → Option (Exec (DbStore Db Docs) (List ExtraItem))
  unfolding create_event_database DbId.to_hex
  create_event_db_body address nonce network block order b = elim b.body [
    | some (event_database_mutation m) ↦ some (do
      db_id ←
          map_err_m (create_event_database address m nonce network block order) apply_mutation_error
      pure (db_addr_item (DbId.to_hex db_id) ∷ []))
    | _ ↦ none
  ]

  unfoldable pub add_collection_body :
      Db3Address → ℕ → BodyWrapper → Exec (DbStore Db Docs) (List ExtraItem)
  unfolding create_collection try_from
  add_collection_body address i b = do
    db_addr ← lift (map_err (try_from b.db_address) apply_mutation_error)
    elim b.body [
      | some (collection_mutation m) ↦ (do
        map_err_m (create_collection address db_addr m) apply_mutation_error
        pure (collection_item m.collection_name ∷ []))
      | _ ↦ pure []
    ]

  unfoldable pub delete_document_body :
      Db3Address → ℕ → BodyWrapper → Exec (DbStore Db Docs) (List ExtraItem)
  unfolding delete_docs try_from
  delete_document_body address i b = do
    db_addr ← lift (map_err (try_from b.db_address) apply_mutation_error)
    elim b.body [
      | some (document_mutation m) ↦ (do
        map_err_m (delete_docs db_addr address m.collection_name m.ids) apply_mutation_error
        pure [])
      | _ ↦ pure []
    ]

  module _ ⦃t : Texts⦄ where
    unfoldable pub mint_collection_body :
        BodyWrapper → Option (Exec (DbStore Db Docs) (List ExtraItem))
    unfolding must_be_new save_collection_internal
    mint_collection_body b = elim b.body [
      | some (mint_collection_mutation m) ↦ some (do
        sender ← lift (address_of_text m.sender)
        db_addr ← lift (address_of_text m.db_addr)
        must_be_new db_addr m.name
        save_collection_internal sender db_addr m.name []
        pure (collection_item m.name ∷ []))
      | _ ↦ none
    ]

    unfoldable pub mint_document_db_body :
        ℕ → ℕ → BodyWrapper → Option (Exec (DbStore Db Docs) (List ExtraItem))
    unfolding create_predefined_doc_database DbId.to_hex
    mint_document_db_body block order b = elim b.body [
      | some (mint_doc_database_mutation m) ↦ some (do
        sender ← lift (address_of_text m.sender)
        addr ← lift (address_of_text m.db_addr)
        map_err_m
            (create_predefined_doc_database sender (record { addr = addr }) m.desc block order)
            apply_mutation_error
        pure (db_addr_item (DbId.to_hex (record { addr = addr })) ∷ []))
      | _ ↦ none
    ]

    -- The ids that the mutation brings along for this body, by the decimal text of its number.
    unfoldable pub add_document_body :
        Db3Address → Dict (List ℕ) → ℕ → BodyWrapper → Exec (DbStore Db Docs) (List ExtraItem)
    unfolding add_docs document_texts try_from Dict.get decimal
    add_document_body address doc_ids_map i b = do
      db_addr ← lift (map_err (try_from b.db_address) apply_mutation_error)
      elim b.body [
        | some (document_mutation m) ↦ (do
          docs ← lift (document_texts m.documents)
          ids ←
              map_err_m
                (add_docs db_addr address m.collection_name docs (Dict.get (decimal i) doc_ids_map))
                apply_mutation_error
          pure (map document_item ids))
        | _ ↦ pure []
      ]

    unfoldable pub update_document_body :
        Db3Address → ℕ → BodyWrapper → Exec (DbStore Db Docs) (List ExtraItem)
    unfolding update_docs document_texts try_from
    update_document_body address i b = do
      db_addr ← lift (map_err (try_from b.db_address) apply_mutation_error)
      elim b.body [
        | some (document_mutation m) ↦
            if not (length m.documents == length m.ids) then raise apply_mutation_error else (do
              docs ← lift (document_texts m.documents)
              map_err_m (update_docs db_addr address m.collection_name docs m.ids)
                  apply_mutation_error
              pure [])
        | _ ↦ pure []
      ]
