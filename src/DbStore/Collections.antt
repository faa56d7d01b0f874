-- ===== src/DbStore/Collections.antt =====
-- The methods of DBStoreV2 that create and change collections.
use rtstore.Base.{Bool, true, false, not, Option, none, some, List, [], ◌∷◌, ◌++◌, if◌then◌else◌}
use rtstore.Base.Bytes.{Bytes, bytes_eq}
use rtstore.Base.Result.{
  read_store_error, write_store_error, collection_permission_denied, database_not_found,
  collection_not_found, collection_already_exist, invalid_key_path_error, ok_or,
}
use rtstore.Base.Exec.{Exec, pure, raise, query, lift, map_err_m, ◌>>=◌, ◌>>◌}
use rtstore.Engine.{put_cf, Engine, Codec}
use rtstore.Crypto.{Hex}
use rtstore.Crypto.Address.{Db3Address, to_hex}
use rtstore.Proto.Database.{Index, Collection, DatabaseMessage}
use rtstore.Proto.Mutation.{CollectionMutation}
use rtstore.StorageKeys.CollectionKey.{build_collection_key}
use rtstore.DbStore.{Cf, collection_store_cf, DbStore, DocStore}
use rtstore.DbStore.State.{update_db_state_for_new_collection}
use rtstore.DbStore.Read.{is_some, get_database, get_collection, is_db_collection_exist}
use rtstore.DbStore.Write.{on_state, cf_handle, write}
use rtstore.DbStore.Docs.{if_docs}

abbrev pub collection_of : Db3Address → Bytes → List Index → Collection
collection_of sender name indexes = record {
  name = name;
  index_fields = indexes;
  sender = sender.bytes;
}

-- `path_set.contains(path)`
unfoldable pub has_path : Bytes → List Index → Bool
has_path path [] = false
has_path path (i ∷ is) = let rest = has_path path is in if bytes_eq i.path path then true else rest

-- `exist_paths.len() > 0`
unfoldable pub any_path_exists : List Index → List Index → Bool
unfolding has_path
any_path_exists fields [] = false
any_path_exists fields (i ∷ is) =
    let rest = any_path_exists fields is in if has_path i.path fields then true else rest

module _ {Db Docs : Type 0} ⦃E : Engine Cf Db⦄ ⦃D : DocStore Docs⦄ ⦃h : Hex⦄ ⦃cc : Codec Collection⦄
    ⦃cd : Codec DatabaseMessage⦄ where
  unfoldable pub save_collection_internal :
      Db3Address → Db3Address → Bytes → List Index → Exec (DbStore Db Docs) (Unit {0})
  unfolding get_database build_collection_key update_db_state_for_new_collection to_hex
  save_collection_internal sender db_addr name indexes = do
    db ← query (get_database db_addr)
    if is_some db then pure tt else raise read_store_error
    ck ← lift (build_collection_key db_addr name)
    cf_handle collection_store_cf read_store_error
    buf ← lift (ok_or (cc.encode (collection_of sender name indexes)) write_store_error)
    write (put_cf collection_store_cf ck buf ∷ [])
    on_state (update_db_state_for_new_collection (to_hex db_addr) name)
    map_err_m (if_docs (D.add_index db_addr name indexes)) write_store_error

  -- `if self.is_db_collection_exist(…)? { return Err(…) }`
  unfoldable pub must_be_new : Db3Address → Bytes → Exec (DbStore Db Docs) (Unit {0})
  unfolding is_db_collection_exist to_hex
  must_be_new db_addr name = do
    exists ← query (is_db_collection_exist db_addr name)
    if exists then raise (collection_already_exist name (to_hex db_addr)) else pure tt

  -- The block, the order and the index are not used.
  unfoldable pub create_collection :
      Db3Address → Db3Address → CollectionMutation → Exec (DbStore Db Docs) (Unit {0})
  unfolding must_be_new save_collection_internal
  create_collection sender db_addr collection = do
    must_be_new db_addr collection.collection_name
    save_collection_internal sender db_addr collection.collection_name collection.index_fields

  unfoldable pub add_index_to :
      Db3Address
      → Bytes
      → List Index
      → Db3Address
      → Option Collection
      → Exec (DbStore Db Docs) (Unit {0})
  unfolding any_path_exists save_collection_internal to_hex
  add_index_to db_addr col indexes sender none = raise (collection_not_found col (to_hex db_addr))
  add_index_to db_addr col indexes sender (some collection) =
      if not (bytes_eq collection.sender sender.bytes)
      then raise collection_permission_denied
      else if any_path_exists collection.index_fields indexes
      then raise invalid_key_path_error
      else save_collection_internal sender db_addr col (collection.index_fields ++ indexes)

  unfoldable pub add_index :
      Db3Address → Bytes → List Index → Db3Address → Exec (DbStore Db Docs) (Unit {0})
  unfolding get_database get_collection add_index_to to_hex
  add_index db_addr col indexes sender = do
    db ← query (get_database db_addr)
    if is_some db then pure tt else raise (database_not_found (to_hex db_addr))
    collection ← query (get_collection db_addr col)
    add_index_to db_addr col indexes sender collection
