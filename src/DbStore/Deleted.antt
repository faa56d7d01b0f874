-- ===== src/DbStore/Deleted.antt =====
-- Who deletes which event database.
use rtstore.Base.{
  ◌≡◌, refl, inl, inr, ◌⊎◌, true, Option, none, some, List, [], ◌∷◌, ◌++◌, arith, Bool-cases,
  if◌then◌else◌,
}
use rtstore.Base.Bytes.{Bytes, bytes_eq}
use rtstore.Base.Result.{read_store_error, ok, Result-cases, map_err}
use rtstore.Engine.{Op, delete_cf, batch_at, Engine, IsUp, Codec}
use rtstore.Engine.Entries.{Entry, lookup}
use rtstore.Crypto.{Hex}
use rtstore.Crypto.Address.{Db3Address, try_from}
use rtstore.Proto.Database.{Collection, DatabaseMessage, EventDatabase}
use rtstore.DbStore.{Cf, cf_eq, db_store_cf, db_owner_store_cf, DbStore, DocStore}
use rtstore.DbStore.Read.{has_prefix, get_database, get_event_db, get_entry}
use rtstore.DbStore.Databases.{
  owner_key_ops, delete_found, delete_event_db_internal, delete_event_db,
}

-- At most one key of the owner's.
IsOneKey : List (Op Cf) → Type 0
IsOneKey keys = (keys ≡ []) ⊎ ((k : Bytes) × (keys ≡ delete_cf db_owner_store_cf k ∷ []))

owner_key_ops-IsOneKey :
    (owner db : Db3Address) (es : List Entry) (keys : List (Op Cf))
    → owner_key_ops owner db es ≡ ok keys
    → IsOneKey keys
unfolding owner_key_ops IsOneKey
owner_key_ops-IsOneKey owner db [] keys e = inl (ground (arith, e))
owner_key_ops-IsOneKey owner db ((k, v) ∷ es) keys e =
    elim (Bool-cases (has_prefix owner.bytes k)) [
      | inr other ↦ inl (ground (arith, e, other))
      | inl mine ↦ elim (Result-cases (map_err (try_from v) read_store_error)) [
        | inl (x, failed) ↦ ground (arith, e, mine, failed)
        | inr (a, found) ↦ elim (Bool-cases (bytes_eq a.bytes db.bytes)) [
          | inl same ↦ inr (k, ground (arith, e, mine, found, same))
          | inr different ↦
              owner_key_ops-IsOneKey owner db es keys (ground (arith, e, mine, found, different))
        ]
      ]
    ]

abbrev deletes : List (Op Cf) → Db3Address → List (Op Cf)
deletes keys db = keys ++ (delete_cf db_store_cf db.bytes ∷ [])

batch-deletes :
    (keys : List (Op Cf)) (db : Db3Address) (k : Bytes) (o : Option Bytes)
    → IsOneKey keys
    → batch_at (deletes keys db) db_store_cf k o ≡ (if bytes_eq db.bytes k then none else o)
unfolding IsOneKey
batch-deletes keys db k o (inl e) = ground (arith, e)
batch-deletes keys db k o (inr (j, e)) = ground (arith, e)

module _ {Db Docs : Type 0} ⦃E : Engine Cf Db⦄ ⦃D : DocStore Docs⦄ ⦃h : Hex⦄ ⦃cc : Codec Collection⦄
    ⦃cd : Codec DatabaseMessage⦄ (up : IsUp E) where
  get_database-deleted :
      (owner db : Db3Address) (s t : DbStore Db Docs)
      → delete_event_db_internal owner db s ≡ (ok tt, t)
      → (a : Db3Address)
      → get_database a t ≡ (if bytes_eq db.bytes a.bytes then ok none else get_database a s)
  unfolding delete_event_db_internal get_database get_entry
  get_database-deleted owner db s t run a =
      elim (Result-cases (owner_key_ops owner db (E.seek s.se db_owner_store_cf owner.bytes))) [
        | inl (x, failed) ↦ ground (arith, run, up.open_cf s.se db_owner_store_cf, failed)
        | inr (keys, found) ↦
            let ops : List (Op Cf) = deletes keys db in
            let one =
              owner_key_ops-IsOneKey owner db (E.seek s.se db_owner_store_cf owner.bytes) keys
                found in
            ground (
              arith,
              run,
              up.open_cf s.se db_owner_store_cf,
              found,
              up.open_cf s.se db_store_cf,
              up.writes s.se ops,
              up.open_cf (up.applied s.se ops) db_store_cf,
              up.reads s.se db_store_cf a.bytes,
              up.reads (up.applied s.se ops) db_store_cf a.bytes,
              up.written s.se ops db_store_cf a.bytes,
              batch-deletes keys db a.bytes (lookup a.bytes (up.entries s.se db_store_cf)) one,
            )
      ]

  -- On an engine that is up, after an event database was deleted it is gone, every other database is
  -- found as before, and it was the sender's own.
  pub get_database-delete_event_db :
      (sender db : Db3Address) (s t : DbStore Db Docs) (found : Option EventDatabase)
      → get_event_db db s ≡ ok found
      → delete_event_db sender db s ≡ (ok tt, t)
      → (a : Db3Address)
      → ((d : EventDatabase) × (found ≡ some d) × (bytes_eq d.sender sender.bytes ≡ true))
        × (get_database a t ≡ (if bytes_eq db.bytes a.bytes then ok none else get_database a s))
  unfolding delete_event_db delete_found
  get_database-delete_event_db sender db s t none e run a = ground (arith, run, e)
  get_database-delete_event_db sender db s t (some d) e run a =
      elim (Bool-cases (bytes_eq d.sender sender.bytes)) [
        | inr other ↦ ground (arith, run, e, other)
        | inl same ↦
            ((d, refl, same), get_database-deleted sender db s t (ground (arith, run, e, same)) a)
      ]
