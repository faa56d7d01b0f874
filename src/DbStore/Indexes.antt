-- ===== src/DbStore/Indexes.antt =====
-- Who adds which indexes to a collection.
use rtstore.Base.{
  ◌≡◌, ◌≢◌, [], ◌∷◌, All, inl, inr, true, false, none, some, List, ◌++◌, arith, Bool-cases,
}
use rtstore.Base.Bytes.{Bytes, bytes_eq}
use rtstore.Base.Bytes.Order.{bytes_eq_refl}
use rtstore.Base.Result.{ok, Result-cases}
use rtstore.Engine.{Engine, IsUp, Codec, IsCodec}
use rtstore.Crypto.{Hex}
use rtstore.Crypto.Address.{Db3Address}
use rtstore.Proto.Database.{Index, Collection, DatabaseMessage}
use rtstore.DbStore.{Cf, cf_eq, DbStore, DocStore}
use rtstore.DbStore.Read.{get_database, get_collection}
use rtstore.DbStore.Collections.{
  collection_of, save_collection_internal, add_index, add_index_to, has_path, any_path_exists,
}
use rtstore.DbStore.Found.{save-writes, found_after}

different_paths : (p q : Bytes) → bytes_eq p q ≡ false → p ≢ q
different_paths p q other same = ground (arith, other, same, bytes_eq_refl q)

-- No path of the indexes is one of the fields.
abbrev pub AreNew : List Index → List Index → Type 0
AreNew fields indexes = All (λ i. All (λ f. f.path ≢ i.path) fields) indexes

has_path-none :
    (path : Bytes) (fields : List Index)
    → has_path path fields ≡ false
    → All (λ f. f.path ≢ path) fields
unfolding has_path
has_path-none path [] none_there = tt
has_path-none path (f ∷ fs) none_there = elim (Bool-cases (bytes_eq f.path path)) [
  | inl here ↦ ground (arith, none_there, here)
  | inr other ↦ (
    λ same. different_paths f.path path other same,
    has_path-none path fs (ground (arith, none_there, other)),
  )
]

any_path_exists-AreNew :
    (fields indexes : List Index) → any_path_exists fields indexes ≡ false → AreNew fields indexes
unfolding any_path_exists
any_path_exists-AreNew fields [] none_there = tt
any_path_exists-AreNew fields (i ∷ is) none_there = elim (Bool-cases (has_path i.path fields)) [
  | inl here ↦ ground (arith, none_there, here)
  | inr new ↦ (
    has_path-none i.path fields new,
    any_path_exists-AreNew fields is (ground (arith, none_there, new)),
  )
]

module _ {Db Docs : Type 0} ⦃E : Engine Cf Db⦄ ⦃D : DocStore Docs⦄ ⦃h : Hex⦄ ⦃cc : Codec Collection⦄
    ⦃cd : Codec DatabaseMessage⦄ (up : IsUp E) (law : IsCodec cc) where
  -- On an engine that is up, after indexes were added to a collection: the sender is the one that made
  -- the collection, no path of the new indexes is one of an index that was there, and the collection is found with the indexes
  -- that it had and after them the new ones. Encoded collections decode.
  pub get_collection-add_index :
      (db sender : Db3Address) (col : Bytes) (indexes : List Index) (s t : DbStore Db Docs)
      (old : Collection)
      → get_collection db col s ≡ ok (some old)
      → add_index db col indexes sender s ≡ (ok tt, t)
      → (bytes_eq old.sender sender.bytes ≡ true)
        × AreNew old.index_fields indexes
        × (get_collection db col t
            ≡ ok (some (collection_of sender col (old.index_fields ++ indexes))))
  unfolding add_index add_index_to
  get_collection-add_index db sender col indexes s t old there run =
      elim (Result-cases (get_database db s)) [
        | inl (x, failed) ↦ ground (arith, run, failed)
        | inr (none, gone) ↦ ground (arith, run, gone)
        | inr (some d, found) ↦ elim (Bool-cases (bytes_eq old.sender sender.bytes)) [
          | inr other ↦ ground (arith, run, found, there, other)
          | inl same ↦ elim (Bool-cases (any_path_exists old.index_fields indexes)) [
            | inl clash ↦ ground (arith, run, found, there, same, clash)
            | inr new ↦
                let run' : save_collection_internal sender db col (old.index_fields ++ indexes) s
                    ≡ (ok tt, t) =
                  ground (arith, run, found, there, same, new) in
                let (ck, made, writes) =
                  save-writes up law sender db col (old.index_fields ++ indexes) s t run' in
                let found =
                  found_after up law sender col (old.index_fields ++ indexes) ck s t writes db col
                    ck made in
                (
                  same,
                  any_path_exists-AreNew old.index_fields indexes new,
                  ground (arith, found, bytes_eq_refl ck),
                )
          ]
        ]
      ]
