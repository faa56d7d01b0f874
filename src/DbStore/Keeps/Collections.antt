-- ===== src/DbStore/Keeps/Collections.antt =====
-- The methods on collections leave the number of the last mutation alone.
use rtstore.Base.{refl, not, Option, none, some, List, [], ◌∷◌, ◌++◌}
use rtstore.Base.Bytes.{Bytes, bytes_eq}
use rtstore.Base.Result.{
  read_store_error, write_store_error, database_not_found, collection_permission_denied,
  collection_not_found, collection_already_exist, invalid_key_path_error, ok, err, ok_or,
}
use rtstore.Engine.{put_cf, Engine, IsUp, Codec}
use rtstore.Crypto.{Hex}
use rtstore.Crypto.Address.{Db3Address, to_hex}
use rtstore.Proto.Database.{Index, Collection, DatabaseMessage}
use rtstore.Proto.Mutation.{CollectionMutation}
use rtstore.StorageKeys.CollectionKey.{build_collection_key}
use rtstore.DbStore.{Cf, cf_eq, collection_store_cf, DocStore}
use rtstore.DbStore.Read.{is_some, get_database, get_collection, is_db_collection_exist}
use rtstore.DbStore.State.{update_db_state_for_new_collection}
use rtstore.DbStore.Collections.{
  collection_of, any_path_exists, save_collection_internal, must_be_new, create_collection,
  add_index_to, add_index,
}
use rtstore.DbStore.Keeps.{
  KeepsNumber, KeepsNumber-bind, KeepsNumber-then, KeepsNumber-map_err_m, KeepsNumber-if,
  KeepsNumber-write, KeepsNumber-on_state, KeepsNumber-if_docs, KeepsNumber-query,
  KeepsNumber-result, KeepsNumber-handle,
}

module _ {Db Docs : Type 0} ⦃E : Engine Cf Db⦄ ⦃D : DocStore Docs⦄ ⦃h : Hex⦄ ⦃cc : Codec Collection⦄
    ⦃cd : Codec DatabaseMessage⦄ (up : IsUp E) where
  pub save_collection_internal-KeepsNumber :
      (sender db_addr : Db3Address) (name : Bytes) (indexes : List Index)
      → KeepsNumber up (save_collection_internal {Docs = Docs} sender db_addr name indexes)
  unfolding save_collection_internal
  save_collection_internal-KeepsNumber sender db_addr name indexes =
      KeepsNumber-bind (KeepsNumber-query (get_database db_addr)) λ db.
        KeepsNumber-then
          (KeepsNumber-if (is_some db) (KeepsNumber-result (ok tt))
            (KeepsNumber-result (err read_store_error)))
          (KeepsNumber-bind (KeepsNumber-result (build_collection_key db_addr name)) λ ck.
            KeepsNumber-then (KeepsNumber-handle collection_store_cf read_store_error) (
              KeepsNumber-bind
                (KeepsNumber-result
                  (ok_or (cc.encode (collection_of sender name indexes)) write_store_error))
                λ buf.
                  KeepsNumber-then
                    (KeepsNumber-write (put_cf collection_store_cf ck buf ∷ []) (λ o. refl))
                    (KeepsNumber-then
                      (KeepsNumber-on_state
                        (update_db_state_for_new_collection (to_hex db_addr) name))
                      (KeepsNumber-map_err_m write_store_error
                        (KeepsNumber-if_docs (D.add_index db_addr name indexes))))))

  pub must_be_new-KeepsNumber :
      (db_addr : Db3Address) (name : Bytes)
      → KeepsNumber up (must_be_new {Docs = Docs} db_addr name)
  unfolding must_be_new
  must_be_new-KeepsNumber db_addr name =
      KeepsNumber-bind (KeepsNumber-query (is_db_collection_exist db_addr name)) λ exists.
        KeepsNumber-if exists
          (KeepsNumber-result (err (collection_already_exist name (to_hex db_addr))))
          (KeepsNumber-result (ok tt))

  pub create_collection-KeepsNumber :
      (sender db_addr : Db3Address) (m : CollectionMutation)
      → KeepsNumber up (create_collection {Docs = Docs} sender db_addr m)
  unfolding create_collection
  create_collection-KeepsNumber sender db_addr m =
      KeepsNumber-then (must_be_new-KeepsNumber db_addr m.collection_name)
        (save_collection_internal-KeepsNumber sender db_addr m.collection_name m.index_fields)

  add_index_to-KeepsNumber :
      (db_addr : Db3Address) (col : Bytes) (indexes : List Index) (sender : Db3Address)
      (c : Option Collection)
      → KeepsNumber up (add_index_to {Docs = Docs} db_addr col indexes sender c)
  unfolding add_index_to
  add_index_to-KeepsNumber db_addr col indexes sender none =
      KeepsNumber-result (err (collection_not_found col (to_hex db_addr)))
  add_index_to-KeepsNumber db_addr col indexes sender (some c) =
      KeepsNumber-if (not (bytes_eq c.sender sender.bytes))
        (KeepsNumber-result (err collection_permission_denied))
        (KeepsNumber-if (any_path_exists c.index_fields indexes)
          (KeepsNumber-result (err invalid_key_path_error))
          (save_collection_internal-KeepsNumber sender db_addr col (c.index_fields ++ indexes)))

  pub add_index-KeepsNumber :
      (db_addr : Db3Address) (col : Bytes) (indexes : List Index) (sender : Db3Address)
      → KeepsNumber up (add_index {Docs = Docs} db_addr col indexes sender)
  unfolding add_index
  add_index-KeepsNumber db_addr col indexes sender =
      KeepsNumber-bind (KeepsNumber-query (get_database db_addr)) λ db.
        KeepsNumber-then
          (KeepsNumber-if (is_some db) (KeepsNumber-result (ok tt))
            (KeepsNumber-result (err (database_not_found (to_hex db_addr)))))
          (KeepsNumber-bind (KeepsNumber-query (get_collection db_addr col))
            λ c. add_index_to-KeepsNumber db_addr col indexes sender c)
