-- ===== src/DbStore/Found.antt =====
-- What the methods on collections leave in the collection store.
use rtstore.Base.{
  ◌≡◌, inl, inr, true, false, none, some, List, [], ◌∷◌, arith, Option-cases, if◌then◌else◌,
}
use rtstore.Base.Bytes.{Bytes, bytes_eq}
use rtstore.Base.Bytes.Order.{bytes_eq_refl}
use rtstore.Base.Result.{collection_already_exist, ok, err, Result-cases}
use rtstore.Base.Exec.{Exec}
use rtstore.Engine.{Op, put_cf, Engine, IsUp, Codec, IsCodec}
use rtstore.Engine.Entries.{lookup}
use rtstore.Crypto.{Hex}
use rtstore.Crypto.Address.{Db3Address, to_hex}
use rtstore.Proto.Database.{Index, Collection, DatabaseMessage}
use rtstore.Proto.Mutation.{CollectionMutation}
use rtstore.StorageKeys.CollectionKey.{build_collection_key}
use rtstore.DbStore.{Cf, cf_eq, collection_store_cf, DbStore, DocStore}
use rtstore.DbStore.State.{update_db_state_for_new_collection}
use rtstore.DbStore.Read.{get_database, get_collection, get_entry, is_db_collection_exist}
use rtstore.DbStore.Docs.{if_docs, if_docs-keeps}
use rtstore.DbStore.Collections.{
  collection_of, save_collection_internal, create_collection, must_be_new,
}

-- The write of a collection.
abbrev pub saved :
    {cc : Codec Collection} → IsCodec cc → Db3Address → Bytes → List Index → Bytes → List (Op Cf)
saved law sender name indexes ck =
    put_cf collection_store_cf ck (law.encoded (collection_of sender name indexes)) ∷ []

module _ {Db Docs : Type 0} ⦃E : Engine Cf Db⦄ ⦃D : DocStore Docs⦄ ⦃h : Hex⦄ ⦃cc : Codec Collection⦄
    ⦃cd : Codec DatabaseMessage⦄ (up : IsUp E) (law : IsCodec cc) where
  pub save-writes :
      (sender db : Db3Address) (name : Bytes) (indexes : List Index) (s t : DbStore Db Docs)
      → save_collection_internal sender db name indexes s ≡ (ok tt, t)
      → (ck : Bytes) × (build_collection_key db name ≡ ok ck)
        × (t.se ≡ up.applied s.se (saved law sender name indexes ck))
  unfolding save_collection_internal
  save-writes sender db name indexes s t run = elim (Result-cases (get_database db s)) [
    | inl (x, failed) ↦ ground (arith, run, failed)
    | inr (none, gone) ↦ ground (arith, run, gone)
    | inr (some d, there) ↦ elim (Result-cases (build_collection_key db name)) [
      | inl (x, failed) ↦ ground (arith, run, there, failed)
      | inr (ck, key) ↦
          let ops : List (Op Cf) = saved law sender name indexes ck in
          let m : Exec Docs (Unit {0}) = D.add_index db name indexes in
          let s1 : DbStore Db Docs = record s {
            se = up.applied s.se ops;
            db_state = update_db_state_for_new_collection (to_hex db) name s.db_state;
          } in
          elim (Result-cases (if_docs m s1).0) [
            | inl (x, failed) ↦ ground (
              arith,
              run,
              there,
              key,
              up.open_cf s.se collection_store_cf,
              law.encodes (collection_of sender name indexes),
              up.writes s.se ops,
              failed,
            )
            | inr (u, done) ↦ (
              ck,
              key,
              ground (
                arith,
                run,
                there,
                key,
                up.open_cf s.se collection_store_cf,
                law.encodes (collection_of sender name indexes),
                up.writes s.se ops,
                done,
                if_docs-keeps m s1,
              ),
            )
          ]
    ]
  ]

  -- What is found in the collection store after a collection was saved under `ck`.
  pub found_after :
      (sender : Db3Address) (name : Bytes) (indexes : List Index) (ck : Bytes)
      (s t : DbStore Db Docs)
      → t.se ≡ up.applied s.se (saved law sender name indexes ck)
      → (d : Db3Address) (n k : Bytes) → build_collection_key d n ≡ ok k
      → get_collection d n t ≡ (
          if bytes_eq ck k
          then ok (some (collection_of sender name indexes))
          else get_collection d n s)
  unfolding get_collection get_entry
  found_after sender name indexes ck s t writes d n k key =
      let ops : List (Op Cf) = saved law sender name indexes ck in
      ground (
        arith,
        key,
        writes,
        up.open_cf s.se collection_store_cf,
        up.open_cf (up.applied s.se ops) collection_store_cf,
        up.reads s.se collection_store_cf k,
        up.reads (up.applied s.se ops) collection_store_cf k,
        up.written s.se ops collection_store_cf k,
        law.decodes (collection_of sender name indexes),
      )

  exists_after :
      (sender db : Db3Address) (name : Bytes) (indexes : List Index) (ck : Bytes)
      (s t : DbStore Db Docs)
      → t.se ≡ up.applied s.se (saved law sender name indexes ck)
      → build_collection_key db name ≡ ok ck
      → is_db_collection_exist db name t ≡ ok true
  unfolding is_db_collection_exist
  exists_after sender db name indexes ck s t writes key =
      let ops : List (Op Cf) = saved law sender name indexes ck in
      ground (
        arith,
        key,
        writes,
        up.open_cf (up.applied s.se ops) collection_store_cf,
        up.reads (up.applied s.se ops) collection_store_cf ck,
        up.written s.se ops collection_store_cf ck,
        bytes_eq_refl ck,
      )

  new-get_collection :
      (db : Db3Address) (name ck : Bytes) (s : DbStore Db Docs)
      → build_collection_key db name ≡ ok ck
      → is_db_collection_exist db name s ≡ ok false
      → get_collection db name s ≡ ok none
  unfolding get_collection get_entry is_db_collection_exist
  new-get_collection db name ck s key new =
      elim (Option-cases (lookup ck (up.entries s.se collection_store_cf))) [
        | inl gone ↦ ground (
          arith,
          key,
          gone,
          up.open_cf s.se collection_store_cf,
          up.reads s.se collection_store_cf ck,
        )
        | inr (v, there) ↦ ground (
          arith,
          key,
          new,
          there,
          up.open_cf s.se collection_store_cf,
          up.reads s.se collection_store_cf ck,
        )
      ]

  refused_again :
      (other db : Db3Address) (name : Bytes) (ix : List Index) (t : DbStore Db Docs)
      → is_db_collection_exist db name t ≡ ok true
      → create_collection other db (record { index_fields = ix; collection_name = name }) t
        ≡ (err (collection_already_exist name (to_hex db)), t)
  unfolding create_collection must_be_new
  refused_again other db name ix t there = ground (arith, there)

  -- On an engine that is up, a collection that was created was not there before, is found with its
  -- indexes and its sender, and is not created again, by nobody and with no indexes. All other
  -- collections are found as before. Encoded collections decode.
  pub get_collection-create_collection :
      (sender db : Db3Address) (m : CollectionMutation) (s t : DbStore Db Docs)
      → create_collection sender db m s ≡ (ok tt, t)
      → (d : Db3Address) (n k : Bytes) → build_collection_key d n ≡ ok k
      → (other : Db3Address) (ix : List Index)
      → (ck : Bytes) × (build_collection_key db m.collection_name ≡ ok ck)
        × (get_collection db m.collection_name s ≡ ok none)
        × (create_collection other db
              (record { index_fields = ix; collection_name = m.collection_name })
              t
            ≡ (err (collection_already_exist m.collection_name (to_hex db)), t))
        × (get_collection d n t ≡ (
            if bytes_eq ck k
            then ok (some (collection_of sender m.collection_name m.index_fields))
            else get_collection d n s))
  unfolding create_collection must_be_new
  get_collection-create_collection sender db m s t run d n k key other ix =
      elim (Result-cases (is_db_collection_exist db m.collection_name s)) [
        | inl (x, failed) ↦ ground (arith, run, failed)
        | inr (true, there) ↦ ground (arith, run, there)
        | inr (false, new) ↦
            let run' : save_collection_internal sender db m.collection_name m.index_fields s
                ≡ (ok tt, t) =
              ground (arith, run, new) in
            let (ck, made, writes) =
              save-writes sender db m.collection_name m.index_fields s t run' in
            (
              ck,
              made,
              new-get_collection db m.collection_name ck s made new,
              refused_again other db m.collection_name ix t
                  (exists_after sender db m.collection_name m.index_fields ck s t writes made),
              found_after sender m.collection_name m.index_fields ck s t writes d n k key,
            )
      ]
