-- ===== src/DbStore/Write.antt =====
-- What the methods of DBStoreV2 that change it are made of, and the ownership of documents.
use rtstore.Base.{ℕ, Option, none, some, List, [], ◌∷◌}
use rtstore.Base.Bytes.{Bytes}
use rtstore.Base.Dict.{Dict}
use rtstore.Base.Result.{Db3Error, read_store_error, write_store_error, Result, ok, err, ok_or}
use rtstore.Base.Exec.{Exec, lift, ◌>>=◌, ◌>>◌}
use rtstore.Engine.{Op, put_cf, delete_cf, Engine, Codec}
use rtstore.Engine.Calls.{handle}
use rtstore.Crypto.Address.{Db3Address}
use rtstore.Proto.Database.{BlockState}
use rtstore.StorageKeys.DbDocKey
use rtstore.DbStore.{
  Cf, doc_owner_store_cf, block_state_cf, DatabaseState, DbStore, block_state_key,
}

abbrev pub doc_key : Db3Address → ℕ → Bytes
doc_key db_addr id = DbDocKey.encode (record { address = db_addr; id = id })

-- The batches of the loops over the ids of documents.
unfoldable pub own_ops : Db3Address → Db3Address → List ℕ → List (Op Cf)
own_ops sender db_addr [] = []
own_ops sender db_addr (id ∷ ids) =
    put_cf doc_owner_store_cf (doc_key db_addr id) sender.bytes ∷ own_ops sender db_addr ids

unfoldable pub disown_ops : Db3Address → List ℕ → List (Op Cf)
disown_ops db_addr [] = []
disown_ops db_addr (id ∷ ids) =
    delete_cf doc_owner_store_cf (doc_key db_addr id) ∷ disown_ops db_addr ids

module _ {Db Docs : Type 0} where
  -- A call of the document store.
  abbrev pub on_docs : {A : Type 0} → Exec Docs A → Exec (DbStore Db Docs) A
  on_docs m s = let (r, d) = m s.doc_store in (r, record s { doc_store = d })

  -- A change of the states of the databases.
  abbrev pub on_state :
      (Dict DatabaseState → Dict DatabaseState) → Exec (DbStore Db Docs) (Unit {0})
  on_state f s = (ok tt, record s { db_state = f s.db_state })

  abbrev pub on_states :
      {A : Type 0} → (Dict DatabaseState → Result A × Dict DatabaseState) → Exec (DbStore Db Docs) A
  on_states f s = let (r, d) = f s.db_state in (r, record s { db_state = d })

  module _ ⦃E : Engine Cf Db⦄ where
    abbrev pub cf_handle : Cf → Db3Error → Exec (DbStore Db Docs) (Unit {0})
    cf_handle cf e s = (handle (E.cf_handle s.se cf) e, s)

    abbrev pub commit : Option Db → Exec (DbStore Db Docs) (Unit {0})
    commit none s = (err write_store_error, s)
    commit (some se) s = (ok tt, record s { se = se })

    -- `self.se.write(batch).map_err(…)?`
    abbrev pub write : List (Op Cf) → Exec (DbStore Db Docs) (Unit {0})
    write ops s = commit (E.write s.se ops) s

    unfoldable pub put_entry :
        {T : Type 0} ⦃c : Codec T⦄ → Cf → Bytes → T → Exec (DbStore Db Docs) (Unit {0})
    put_entry ⦃c⦄ cf ck value = do
      cf_handle cf write_store_error
      buf ← lift (ok_or (c.encode value) write_store_error)
      write (put_cf cf ck buf ∷ [])

    unfoldable pub store_block_state :
        ⦃c : Codec BlockState⦄ → BlockState → Exec (DbStore Db Docs) (Unit {0})
    unfolding put_entry
    store_block_state = put_entry block_state_cf block_state_key

    unfoldable pub create_doc_ownership :
        Db3Address → Db3Address → List ℕ → Exec (DbStore Db Docs) (Unit {0})
    unfolding own_ops
    create_doc_ownership sender db_addr doc_ids = do
      cf_handle doc_owner_store_cf read_store_error
      write (own_ops sender db_addr doc_ids)

    unfoldable pub delete_doc_ids_from_owner_store :
        Db3Address → List ℕ → Exec (DbStore Db Docs) (Unit {0})
    unfolding disown_ops
    delete_doc_ids_from_owner_store db_addr doc_ids = do
      cf_handle doc_owner_store_cf read_store_error
      write (disown_ops db_addr doc_ids)
