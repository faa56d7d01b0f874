-- ===== src/DbStore/Flushed.antt =====
-- The tables after the states of the databases were flushed.
use rtstore.Base.{◌≡◌, ◌∙◌, refl, ap, some, List, [], ◌∷◌, arith, length, map, All}
use rtstore.Base.Bytes.{Bytes}
use rtstore.Base.Bytes.Order.{bytes_eq_refl, eq_of_bytes_eq}
use rtstore.Base.Words.{add_u64}
use rtstore.Base.Dict
use rtstore.Base.Dict.{Dict, get-insert}
use rtstore.Engine.{Op, put_cf, Engine, IsUp, Codec, IsCodec}
use rtstore.Engine.Entries.{Entry, lookup}
use rtstore.Engine.Extend.{applied_elsewhere}
use rtstore.Crypto.{Hex}
use rtstore.Crypto.Address.{Db3Address, IsAddress, to_hex}
use rtstore.Proto.Database.{DatabaseStatePersistence}
use rtstore.DbStore.{Cf, cf_eq, db_store_cf, state_cf, CollectionState, DatabaseState}
use rtstore.DbStore.Read.{message_entry, persistent}
use rtstore.DbStore.Recovery.{stored_entry, of_stored}

-- The state that a restart gives a database.
abbrev pub restarted : DatabaseState → DatabaseState
restarted s = record {
  doc_order = add_u64 s.doc_order 1;
  collection_state = s.collection_state;
  total_doc_count = length s.collection_state;
}

entries_back : (d : Dict CollectionState) → map stored_entry (map message_entry d) ≡ d
entries_back [] = refl
entries_back ((c, s) ∷ d) = ap (λ t. (c, s) ∷ t) (entries_back d)

pub of_stored-persistent :
    (addr : Bytes) (s : DatabaseState) → of_stored (persistent addr s) ≡ restarted s
unfolding of_stored
of_stored-persistent addr s = ground (arith, entries_back s.collection_state)

abbrev pub at : Bytes → Db3Address
at k = record { bytes = k }

-- The key is of a database that has a state.
abbrev pub HasState : ⦃h : Hex⦄ → Dict DatabaseState → Entry → Type 0
HasState states (k, v) =
    IsAddress (at k) × ((s : DatabaseState) × (Dict.get (to_hex (at k)) states ≡ some s))

-- The write of a database's state.
abbrev pub flushed :
    ⦃h : Hex⦄ {cs : Codec DatabaseStatePersistence}
    → IsCodec cs
    → Bytes
    → DatabaseState
    → List (Op Cf)
flushed law k s = put_cf state_cf k (law.encoded (persistent (to_hex (at k)) s)) ∷ []

module _ {Db : Type 0} ⦃E : Engine Cf Db⦄ ⦃h : Hex⦄ {cs : Codec DatabaseStatePersistence}
    (up : IsUp E) (law : IsCodec cs) where
  unfoldable pub flushed_all :
      (states : Dict DatabaseState) (es : List Entry) → All (HasState states) es → Db → Db
  flushed_all states [] all se = se
  flushed_all states ((k, v) ∷ es) (a, rest) se =
      flushed_all states es rest (up.applied se (flushed law k a.1.0))

  pub flushed_all-elsewhere :
      (states : Dict DatabaseState) (es : List Entry) (all : All (HasState states) es) (se : Db)
      → up.entries (flushed_all states es all se) db_store_cf ≡ up.entries se db_store_cf
  unfolding flushed_all
  flushed_all-elsewhere states [] all se = refl
  flushed_all-elsewhere states ((k, v) ∷ es) (a, rest) se =
      flushed_all-elsewhere states es rest (up.applied se (flushed law k a.1.0))
      ∙ applied_elsewhere up se db_store_cf (flushed law k a.1.0) (refl, tt)

  -- The state of the database under the key is stored.
  abbrev pub IsStored : Bytes → DatabaseState → Db → Type 0
  IsStored k s se =
      lookup k (up.entries se state_cf) ≡ some (law.encoded (persistent (to_hex (at k)) s))

  flushed_all-keeps :
      (states : Dict DatabaseState) (es : List Entry) (all : All (HasState states) es) (se : Db)
      (j : Bytes) (s : DatabaseState)
      → Dict.get (to_hex (at j)) states ≡ some s
      → IsStored j s se
      → IsStored j s (flushed_all states es all se)
  unfolding flushed_all
  flushed_all-keeps states [] all se j s found stored = stored
  flushed_all-keeps states ((k, v) ∷ es) ((a, (st, here)), rest) se j s found stored =
      flushed_all-keeps states es rest (up.applied se (flushed law k st)) j s found (
        ground (
          arith,
          stored,
          found,
          here,
          eq_of_bytes_eq k j,
          up.written se (flushed law k st) state_cf j,
        ))

  abbrev pub AreStored :
      (states : Dict DatabaseState) (es : List Entry) → All (HasState states) es → Db → Type 0
  AreStored states [] all se = Unit {0}
  AreStored states ((k, v) ∷ es) (a, rest) se = IsStored k a.1.0 se × AreStored states es rest se

  pub flushed_all-AreStored :
      (states : Dict DatabaseState) (es : List Entry) (all : All (HasState states) es) (se : Db)
      → AreStored states es all (flushed_all states es all se)
  unfolding flushed_all
  flushed_all-AreStored states [] all se = tt
  flushed_all-AreStored states ((k, v) ∷ es) ((a, (st, here)), rest) se = (
    flushed_all-keeps states es rest (up.applied se (flushed law k st)) k st here
        (ground (arith, up.written se (flushed law k st) state_cf k, bytes_eq_refl k)),
    flushed_all-AreStored states es rest (up.applied se (flushed law k st)),
  )
