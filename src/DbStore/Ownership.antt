-- ===== src/DbStore/Ownership.antt =====
-- What the methods on documents make of the owners: who adds documents owns them, who deletes them
-- frees them, and nobody changes a document of another sender.
use rtstore.Base.{
  ℕ, ◌<◌, ◌^◌, ◌≡◌, ◌∙◌, inl, inr, true, false, Option, none, some, List, arith, length, Bool-cases,
  if◌then◌else◌,
}
use rtstore.Base.Bytes.{Bytes}
use rtstore.Base.Result.{Db3Error, owner_verify_failed, ok, err, Result-cases}
use rtstore.Base.Exec.{Exec}
use rtstore.Engine.{Op, batch_at, Engine, IsUp}
use rtstore.Crypto.{Hex}
use rtstore.Crypto.Address.{Db3Address, IsAddress, to_hex}
use rtstore.DbStore.{Cf, cf_eq, doc_owner_store_cf, DbStore, DocStore}
use rtstore.DbStore.State.{update_db_state_for_add_docs}
use rtstore.DbStore.Lookup.{must_exist}
use rtstore.DbStore.Write.{
  doc_key, own_ops, disown_ops, create_doc_ownership, delete_doc_ids_from_owner_store,
}
use rtstore.DbStore.Docs.{if_docs, if_docs-keeps, own_docs, add_docs, update_docs, delete_docs}
use rtstore.DbStore.Owners.{
  AreIds, batch-own_ops, batch-disown_ops, same_doc, owner, owns_all, verify_docs_ownership-answers,
}

module _ {Db Docs : Type 0} ⦃E : Engine Cf Db⦄ ⦃D : DocStore Docs⦄ ⦃h : Hex⦄ (up : IsUp E) where
  -- What a success of `own_docs` writes.
  own_docs-writes :
      (db sender : Db3Address) (col : Bytes) (docs : List Bytes) (o : Option (List ℕ))
      (s t : DbStore Db Docs) (ids : List ℕ)
      → own_docs db sender col docs o s ≡ (ok ids, t)
      → (e : Db3Address) (j : ℕ)
      → owner up t e j
        ≡ batch_at (own_ops sender db ids) doc_owner_store_cf (doc_key e j) (owner up s e j)
  unfolding own_docs create_doc_ownership own_ops
  own_docs-writes db sender col docs none s t ids run e j = ground (arith, run)
  own_docs-writes db sender col docs (some all) s t ids run e j =
      let ops : List (Op Cf) = own_ops sender db all in
      let s1 : DbStore Db Docs = record s { se = up.applied s.se ops } in
      let m : Exec Docs (Unit {0}) = D.add_str_docs db col docs all in
      elim (Result-cases (if_docs m s1).0) [
        | inl (x, failed) ↦
            ground (arith, run, up.open_cf s.se doc_owner_store_cf, up.writes s.se ops, failed)
        | inr (u, done) ↦ ground (
          arith,
          run,
          up.open_cf s.se doc_owner_store_cf,
          up.writes s.se ops,
          done,
          if_docs-keeps m s1,
          up.written s.se ops doc_owner_store_cf (doc_key e j),
        )
      ]

  -- On an engine that is up, after documents were added their owner is the sender, and every other
  -- document, of this or of another database, has the owner it had. Addresses have twenty bytes, ids
  -- fit 64 bits.
  pub owner-add_docs :
      (db sender : Db3Address) (col : Bytes) (docs : List Bytes) (given : Option (List ℕ))
      (s t : DbStore Db Docs) (ids : List ℕ)
      → add_docs db sender col docs given s ≡ (ok ids, t)
      → (e : Db3Address) (j : ℕ) → IsAddress db
      → IsAddress e
      → AreIds ids
      → j < 2 ^ 64
      → owner up t e j ≡ (if same_doc db ids e j then some sender.bytes else owner up s e j)
  unfolding add_docs
  owner-add_docs db sender col docs given s t ids run e j v w fit fits =
      let states = update_db_state_for_add_docs (to_hex db) col (length docs) given s.db_state in
      let s1 : DbStore Db Docs = record s { db_state = states.1 } in
      elim (Result-cases (must_exist db col s)) [
        | inl (x, failed) ↦ ground (arith, run, failed)
        | inr (u, exists) ↦ elim (Result-cases states.0) [
          | inl (x, failed) ↦ ground (arith, run, exists, failed)
          | inr (o, done) ↦
              let run' : own_docs db sender col docs o s1 ≡ (ok ids, t) =
                ground (arith, run, exists, done) in
              own_docs-writes db sender col docs o s1 t ids run' e j
              ∙ batch-own_ops sender db ids e j (owner up s e j) v w fit fits
        ]
      ]

  delete_docs-refuses :
      (db sender : Db3Address) (col : Bytes) (ids : List ℕ) (s : DbStore Db Docs)
      → owns_all up sender db ids s ≡ false
      → (x : Db3Error) × (delete_docs db sender col ids s ≡ (err x, s))
  unfolding delete_docs
  delete_docs-refuses db sender col ids s unowned = elim (Result-cases (must_exist db col s)) [
    | inl (x, failed) ↦ (x, ground (arith, failed))
    | inr (u, exists) ↦ (
      owner_verify_failed,
      ground (arith, exists, unowned, verify_docs_ownership-answers up sender db ids s),
    )
  ]

  update_docs-refuses :
      (db sender : Db3Address) (col : Bytes) (docs : List Bytes) (ids : List ℕ)
      (s : DbStore Db Docs)
      → owns_all up sender db ids s ≡ false
      → (x : Db3Error) × (update_docs db sender col docs ids s ≡ (err x, s))
  unfolding update_docs
  update_docs-refuses db sender col docs ids s unowned = elim (Result-cases (must_exist db col s)) [
    | inl (x, failed) ↦ (x, ground (arith, failed))
    | inr (u, exists) ↦ (
      owner_verify_failed,
      ground (arith, exists, unowned, verify_docs_ownership-answers up sender db ids s),
    )
  ]

  -- On an engine that is up, after documents were deleted the sender owned all of them before, they
  -- have no owner, and every other document has the owner it had. Addresses have twenty bytes, ids fit
  -- 64 bits.
  pub owner-delete_docs :
      (db sender : Db3Address) (col : Bytes) (ids : List ℕ) (s t : DbStore Db Docs)
      → delete_docs db sender col ids s ≡ (ok tt, t)
      → (e : Db3Address) (j : ℕ) → IsAddress db
      → IsAddress e
      → AreIds ids
      → j < 2 ^ 64
      → (owns_all up sender db ids s ≡ true)
        × (owner up t e j ≡ (if same_doc db ids e j then none else owner up s e j))
  unfolding delete_docs delete_doc_ids_from_owner_store
  owner-delete_docs db sender col ids s t run e j v w fit fits =
      let ops : List (Op Cf) = disown_ops db ids in
      let m : Exec Docs (Unit {0}) = D.delete_docs db col ids in
      let s1 : DbStore Db Docs = (if_docs m s).1 in
      let verified = verify_docs_ownership-answers up sender db ids s in
      elim (Bool-cases (owns_all up sender db ids s)) [
        | inl owned ↦ elim (Result-cases (must_exist db col s)) [
          | inl (x, failed) ↦ ground (arith, run, failed)
          | inr (u, exists) ↦ elim (Result-cases (if_docs m s).0) [
            | inl (x, failed) ↦ ground (arith, run, exists, verified, owned, failed)
            | inr (u, done) ↦ (
              owned,
              ground (
                arith,
                run,
                exists,
                verified,
                owned,
                done,
                if_docs-keeps m s,
                up.open_cf s1.se doc_owner_store_cf,
                up.writes s1.se ops,
                up.written s.se ops doc_owner_store_cf (doc_key e j),
                batch-disown_ops db ids e j (owner up s e j) v w fit fits,
              ),
            )
          ]
        ]
        | inr other ↦
            let (x, refused) = delete_docs-refuses db sender col ids s other in
            ground (arith, run, refused)
      ]

  -- On an engine that is up, a sender that does not own all the documents changes nothing at all by
  -- updating or deleting them, and gets an error.
  pub unowned_unchanged :
      (db sender : Db3Address) (col : Bytes) (docs : List Bytes) (ids : List ℕ)
      (s : DbStore Db Docs)
      → owns_all up sender db ids s ≡ false
      → ((x : Db3Error) × (update_docs db sender col docs ids s ≡ (err x, s)))
        × ((x : Db3Error) × (delete_docs db sender col ids s ≡ (err x, s)))
  unowned_unchanged db sender col docs ids s unowned = (
    update_docs-refuses db sender col docs ids s unowned,
    delete_docs-refuses db sender col ids s unowned,
  )
