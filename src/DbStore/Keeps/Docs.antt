-- ===== src/DbStore/Keeps/Docs.antt =====
-- The methods on documents leave the number of the last mutation alone.
use rtstore.Base.{ℕ, refl, Option, none, some, List, [], ◌∷◌, length}
use rtstore.Base.Bytes.{Bytes}
use rtstore.Base.Result.{read_store_error, ok}
use rtstore.Engine.{Engine, IsUp}
use rtstore.Crypto.{Hex}
use rtstore.Crypto.Address.{Db3Address, to_hex}
use rtstore.DbStore.{Cf, cf_eq, doc_owner_store_cf, DocStore}
use rtstore.DbStore.Read.{verify_docs_ownership}
use rtstore.DbStore.Lookup.{must_exist}
use rtstore.DbStore.State.{update_db_state_for_add_docs, update_db_state_for_delete_docs}
use rtstore.DbStore.Write.{
  own_ops, disown_ops, create_doc_ownership, delete_doc_ids_from_owner_store,
}
use rtstore.DbStore.Docs.{own_docs, add_docs, update_docs, delete_docs}
use rtstore.DbStore.Keeps.{
  IsElsewhere, KeepsNumber, KeepsNumber-bind, KeepsNumber-then, KeepsNumber-write,
  KeepsNumber-on_state, KeepsNumber-on_states, KeepsNumber-if_docs, KeepsNumber-query,
  KeepsNumber-result, KeepsNumber-handle,
}

own_ops-IsElsewhere : (sender db : Db3Address) (ids : List ℕ) → IsElsewhere (own_ops sender db ids)
unfolding own_ops
own_ops-IsElsewhere sender db [] o = refl
own_ops-IsElsewhere sender db (id ∷ ids) o = own_ops-IsElsewhere sender db ids o

disown_ops-IsElsewhere : (db : Db3Address) (ids : List ℕ) → IsElsewhere (disown_ops db ids)
unfolding disown_ops
disown_ops-IsElsewhere db [] o = refl
disown_ops-IsElsewhere db (id ∷ ids) o = disown_ops-IsElsewhere db ids o

module _ {Db Docs : Type 0} ⦃E : Engine Cf Db⦄ ⦃D : DocStore Docs⦄ ⦃h : Hex⦄ (up : IsUp E) where
  create_doc_ownership-KeepsNumber :
      (sender db_addr : Db3Address) (ids : List ℕ)
      → KeepsNumber up (create_doc_ownership {Docs = Docs} sender db_addr ids)
  unfolding create_doc_ownership
  create_doc_ownership-KeepsNumber sender db_addr ids =
      KeepsNumber-then (KeepsNumber-handle doc_owner_store_cf read_store_error)
        (KeepsNumber-write (own_ops sender db_addr ids) (own_ops-IsElsewhere sender db_addr ids))

  disown-KeepsNumber :
      (db_addr : Db3Address) (ids : List ℕ)
      → KeepsNumber up (delete_doc_ids_from_owner_store {Docs = Docs} db_addr ids)
  unfolding delete_doc_ids_from_owner_store
  disown-KeepsNumber db_addr ids =
      KeepsNumber-then (KeepsNumber-handle doc_owner_store_cf read_store_error)
        (KeepsNumber-write (disown_ops db_addr ids) (disown_ops-IsElsewhere db_addr ids))

  pub update_docs-KeepsNumber :
      (db_addr sender : Db3Address) (col : Bytes) (docs : List Bytes) (ids : List ℕ)
      → KeepsNumber up (update_docs {Docs = Docs} db_addr sender col docs ids)
  unfolding update_docs
  update_docs-KeepsNumber db_addr sender col docs ids =
      KeepsNumber-then (KeepsNumber-query (must_exist db_addr col)) (
        KeepsNumber-then (KeepsNumber-query (verify_docs_ownership sender db_addr ids))
          (KeepsNumber-if_docs (D.patch_docs db_addr col docs ids)))

  pub delete_docs-KeepsNumber :
      (db_addr sender : Db3Address) (col : Bytes) (ids : List ℕ)
      → KeepsNumber up (delete_docs {Docs = Docs} db_addr sender col ids)
  unfolding delete_docs
  delete_docs-KeepsNumber db_addr sender col ids =
      KeepsNumber-then (KeepsNumber-query (must_exist db_addr col)) (
        KeepsNumber-then (KeepsNumber-query (verify_docs_ownership sender db_addr ids)) (
          KeepsNumber-then (KeepsNumber-if_docs (D.delete_docs db_addr col ids)) (
            KeepsNumber-then
              (KeepsNumber-on_state
                (update_db_state_for_delete_docs (to_hex db_addr) col (length ids)))
              (disown-KeepsNumber db_addr ids))))

  own_docs-KeepsNumber :
      (db_addr sender : Db3Address) (col : Bytes) (docs : List Bytes) (ids : Option (List ℕ))
      → KeepsNumber up (own_docs {Docs = Docs} db_addr sender col docs ids)
  unfolding own_docs
  own_docs-KeepsNumber db_addr sender col docs none = KeepsNumber-result (ok [])
  own_docs-KeepsNumber db_addr sender col docs (some ids) =
      KeepsNumber-then (create_doc_ownership-KeepsNumber sender db_addr ids) (
        KeepsNumber-then (KeepsNumber-if_docs (D.add_str_docs db_addr col docs ids))
          (KeepsNumber-result (ok ids)))

  pub add_docs-KeepsNumber :
      (db_addr sender : Db3Address) (col : Bytes) (docs : List Bytes) (given : Option (List ℕ))
      → KeepsNumber up (add_docs {Docs = Docs} db_addr sender col docs given)
  unfolding add_docs
  add_docs-KeepsNumber db_addr sender col docs given =
      KeepsNumber-then (KeepsNumber-query (must_exist db_addr col)) (
        KeepsNumber-bind
          (KeepsNumber-on_states
            (update_db_state_for_add_docs (to_hex db_addr) col (length docs) given))
          λ ids. own_docs-KeepsNumber db_addr sender col docs ids)
