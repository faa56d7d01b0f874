-- ===== src/DbStore/Docs.antt =====
-- The methods of DBStoreV2 on documents. Who changes a document must own it, and who adds one owns it.
use rtstore.Base.{◌≡◌, inl, inr, Bool-cases, ℕ, Option, none, some, List, [], length, if◌then◌else◌}
use rtstore.Base.Bytes.{Bytes}
use rtstore.Base.Result.{ok}
use rtstore.Base.Exec.{Exec, pure, query, ◌>>=◌, ◌>>◌}
use rtstore.Engine.{Engine}
use rtstore.Crypto.{Hex}
use rtstore.Crypto.Address.{Db3Address, to_hex}
use rtstore.DbStore.{Cf, DbStore, DocStore}
use rtstore.DbStore.State.{update_db_state_for_add_docs, update_db_state_for_delete_docs}
use rtstore.DbStore.Read.{verify_docs_ownership}
use rtstore.DbStore.Lookup.{must_exist}
use rtstore.DbStore.Write.{
  on_docs, on_state, on_states, create_doc_ownership, delete_doc_ids_from_owner_store,
}

module _ {Db Docs : Type 0} ⦃E : Engine Cf Db⦄ ⦃D : DocStore Docs⦄ ⦃h : Hex⦄ where
  -- What is only done with a document store.
  abbrev pub if_docs : Exec Docs (Unit {0}) → Exec (DbStore Db Docs) (Unit {0})
  if_docs m s = if s.config.enable_doc_store then on_docs m s else (ok tt, s)

  -- It leaves the databases' own tables alone.
  pub if_docs-keeps : (m : Exec Docs (Unit {0})) (s : DbStore Db Docs) → (if_docs m s).1.se ≡ s.se
  if_docs-keeps m s = elim (Bool-cases s.config.enable_doc_store) [
    | inl on ↦ rw on
    | inr off ↦ rw off
  ]

  unfoldable pub update_docs :
      Db3Address → Db3Address → Bytes → List Bytes → List ℕ → Exec (DbStore Db Docs) (Unit {0})
  unfolding must_exist verify_docs_ownership
  update_docs db_addr sender col_name docs doc_ids = do
    query (must_exist db_addr col_name)
    query (verify_docs_ownership sender db_addr doc_ids)
    if_docs (D.patch_docs db_addr col_name docs doc_ids)

  unfoldable pub delete_docs :
      Db3Address → Db3Address → Bytes → List ℕ → Exec (DbStore Db Docs) (Unit {0})
  unfolding must_exist verify_docs_ownership update_db_state_for_delete_docs
      delete_doc_ids_from_owner_store to_hex
  delete_docs db_addr sender col_name doc_ids = do
    query (must_exist db_addr col_name)
    query (verify_docs_ownership sender db_addr doc_ids)
    if_docs (D.delete_docs db_addr col_name doc_ids)
    on_state (update_db_state_for_delete_docs (to_hex db_addr) col_name (length doc_ids))
    delete_doc_ids_from_owner_store db_addr doc_ids

  -- `if let Some(all_doc_ids) = doc_ids { … }`
  unfoldable pub own_docs :
      Db3Address
      → Db3Address
      → Bytes
      → List Bytes
      → Option (List ℕ)
      → Exec (DbStore Db Docs) (List ℕ)
  unfolding create_doc_ownership
  own_docs db_addr sender col_name docs none = pure []
  own_docs db_addr sender col_name docs (some all_doc_ids) = do
    create_doc_ownership sender db_addr all_doc_ids
    if_docs (D.add_str_docs db_addr col_name docs all_doc_ids)
    pure all_doc_ids

  unfoldable pub add_docs :
      Db3Address
      → Db3Address
      → Bytes
      → List Bytes
      → Option (List ℕ)
      → Exec (DbStore Db Docs) (List ℕ)
  unfolding must_exist update_db_state_for_add_docs own_docs to_hex
  add_docs db_addr sender col_name docs given_doc_ids = do
    query (must_exist db_addr col_name)
    doc_ids ←
        on_states
          (update_db_state_for_add_docs (to_hex db_addr) col_name (length docs) given_doc_ids)
    own_docs db_addr sender col_name docs doc_ids
