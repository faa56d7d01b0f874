-- ===== src/DbStore/Restored.antt =====
-- What a restart makes of the states of the databases that were flushed.
use rtstore.Base.{◌≡◌, ◌∙◌, refl, inl, inr, some, List, [], ◌∷◌, arith, Bool-cases, All}
use rtstore.Base.Bytes.{Bytes, bytes_eq}
use rtstore.Base.Bytes.Order.{bytes_eq_refl, eq_of_bytes_eq}
use rtstore.Base.Dict
use rtstore.Base.Dict.{Dict, get-insert}
use rtstore.Base.Result.{ok}
use rtstore.Base.Exec.{each}
use rtstore.Engine.{Engine, IsUp, Codec, IsCodec}
use rtstore.Engine.Entries.{Entry, lookup, from_first}
use rtstore.Crypto.{Hex}
use rtstore.Crypto.Address.{Db3Address, IsAddress, to_hex, try_from}
use rtstore.Proto.Database.{Collection, DatabaseStatePersistence}
use rtstore.DbStore
use rtstore.DbStore.{Cf, cf_eq, db_store_cf, state_cf, CollectionState, DatabaseState, DbStore}
use rtstore.DbStore.Read.{
  persistent, state_of, build_persistence_state, recover_from_state, get_entry,
}
use rtstore.DbStore.Write.{put_entry}
use rtstore.DbStore.Recovery.{recovered_state, recover_database}
use rtstore.DbStore.Persist.{flush_entry, flush_database_state, recover_entry, recover_db_state}
use rtstore.DbStore.Flushed.{
  restarted, of_stored-persistent, at, HasState, flushed, flushed_all, flushed_all-elsewhere,
  IsStored, AreStored, flushed_all-AreStored,
}

-- The states after the databases were recovered one by one.
restored_all :
    ⦃h : Hex⦄ (states : Dict DatabaseState) (es : List Entry)
    → All (HasState states) es
    → Dict DatabaseState
    → Dict DatabaseState
restored_all states [] all d = d
restored_all states ((k, v) ∷ es) (a, rest) d =
    restored_all states es rest (Dict.insert (to_hex (at k)) (restarted a.1.0) d)

restored_all-keeps :
    ⦃h : Hex⦄ (states : Dict DatabaseState) (es : List Entry) (all : All (HasState states) es)
    (d : Dict DatabaseState) (hex : Bytes) (st : DatabaseState)
    → Dict.get hex states ≡ some st
    → Dict.get hex d ≡ some (restarted st)
    → Dict.get hex (restored_all states es all d) ≡ some (restarted st)
unfolding restored_all
restored_all-keeps states [] all d hex st found there = there
restored_all-keeps states ((k, v) ∷ es) ((a, (s, here)), rest) d hex st found there =
    restored_all-keeps states es rest (Dict.insert (to_hex (at k)) (restarted s) d) hex st found (
      ground (
        arith,
        found,
        here,
        there,
        eq_of_bytes_eq (to_hex (at k)) hex,
        get-insert (to_hex (at k)) hex (restarted s) d,
      ))

get-restored_all :
    ⦃h : Hex⦄ (states : Dict DatabaseState) (es : List Entry) (all : All (HasState states) es)
    (d : Dict DatabaseState) (a : Db3Address) (w : Bytes) (st : DatabaseState)
    → Dict.get (to_hex a) states ≡ some st
    → lookup a.bytes es ≡ some w
    → Dict.get (to_hex a) (restored_all states es all d) ≡ some (restarted st)
unfolding restored_all lookup
get-restored_all states [] all d a w st found there = ground (arith, there)
get-restored_all states ((k, v) ∷ es) ((b, (s, here)), rest) d a w st found there =
    elim (Bool-cases (bytes_eq k a.bytes)) [
      | inl same ↦
          let e : k ≡ a.bytes = eq_of_bytes_eq k a.bytes same in
          restored_all-keeps states es rest (Dict.insert (to_hex (at k)) (restarted s) d) (to_hex a)
            st found
            (ground (
              arith,
              found,
              here,
              e,
              get-insert (to_hex (at k)) (to_hex a) (restarted s) d,
              bytes_eq_refl (to_hex a),
            ))
      | inr other ↦
          get-restored_all states es rest (Dict.insert (to_hex (at k)) (restarted s) d) a w st found
            (ground (arith, there, other))
    ]

-- A new process on the same tables.
abbrev pub reopened : {Db Docs : Type 0} → DbStore Db Docs → DbStore Db Docs
reopened s = DbStore.new s.config s.se s.doc_store

module _ {Db Docs : Type 0} ⦃E : Engine Cf Db⦄ ⦃h : Hex⦄ ⦃cs : Codec DatabaseStatePersistence⦄
    (up : IsUp E) (law : IsCodec cs) where
  flush_entry-writes :
      (k v : Bytes) (s : DbStore Db Docs) (st : DatabaseState)
      → IsAddress (at k)
      → Dict.get (to_hex (at k)) s.db_state ≡ some st
      → flush_entry (k, v) s ≡ (ok tt, record s { se = up.applied s.se (flushed law k st) })
  unfolding flush_entry try_from build_persistence_state state_of put_entry
  flush_entry-writes k v s st a found = ground (
    arith,
    a.size,
    found,
    up.open_cf s.se state_cf,
    law.encodes (persistent (to_hex (at k)) st),
    up.writes s.se (flushed law k st),
  )

  each-flush_entry :
      (es : List Entry) (s : DbStore Db Docs) (all : All (HasState s.db_state) es)
      → each flush_entry es s ≡ (ok tt, record s { se = flushed_all up law s.db_state es all s.se })
  unfolding flushed_all
  each-flush_entry [] s all = refl
  each-flush_entry ((k, v) ∷ es) s ((a, (st, found)), rest) =
      let s1 : DbStore Db Docs = record s { se = up.applied s.se (flushed law k st) } in
      ground (arith, flush_entry-writes k v s st a found, each-flush_entry es s1 rest)

  module _ ⦃cc : Codec Collection⦄ where
    recover_entry-inserts :
        (k v : Bytes) (s : DbStore Db Docs) (st : DatabaseState)
        → IsAddress (at k)
        → IsStored up law k st s.se
        → recover_entry (k, v) s
          ≡ (ok tt, record s { db_state = Dict.insert (to_hex (at k)) (restarted st) s.db_state })
    unfolding recover_entry try_from recover_database recover_from_state get_entry recovered_state
    recover_entry-inserts k v s st a stored = ground (
      arith,
      a.size,
      stored,
      up.open_cf s.se state_cf,
      up.reads s.se state_cf k,
      law.decodes (persistent (to_hex (at k)) st),
      of_stored-persistent (to_hex (at k)) st,
    )

    each-recover_entry :
        (states : Dict DatabaseState) (es : List Entry) (all : All (HasState states) es)
        (s : DbStore Db Docs)
        → AreStored up law states es all s.se
        → each recover_entry es s
          ≡ (ok tt, record s { db_state = restored_all states es all s.db_state })
    unfolding restored_all
    each-recover_entry states [] all s stored = refl
    each-recover_entry states ((k, v) ∷ es) ((a, (st, found)), rest) s (stored, others) =
        let s1 : DbStore Db Docs = record s {
          db_state = Dict.insert (to_hex (at k)) (restarted st) s.db_state;
        } in
        ground (
          arith,
          recover_entry-inserts k v s st a stored,
          each-recover_entry states es rest s1 others,
        )

    -- On an engine that is up, if every database has an address for its key and a state, flushing the
    -- states succeeds, and so does recovering them in a new process. A recovered database has the
    -- document counts of its collections; the next of its ids is one further than before, and its own
    -- count of documents is the number of its collections. Encoded states decode.
    pub recover_db_state-flush_database_state :
        (s : DbStore Db Docs)
        → All (HasState s.db_state) (up.entries s.se db_store_cf)
        → (a : Db3Address) (v : Bytes) (st : DatabaseState)
        → lookup a.bytes (up.entries s.se db_store_cf) ≡ some v
        → Dict.get (to_hex a) s.db_state ≡ some st
        → ((flush_database_state s).0 ≡ ok tt)
          × ((recover_db_state (reopened (flush_database_state s).1)).0 ≡ ok tt)
          × (Dict.get (to_hex a) (recover_db_state (reopened (flush_database_state s).1)).1.db_state
              ≡ some (restarted st))
    unfolding flush_database_state recover_db_state DbStore.new
    recover_db_state-flush_database_state s all a v st there found =
        let es : List Entry = up.entries s.se db_store_cf in
        let t : DbStore Db Docs = record s { se = flushed_all up law s.db_state es all s.se } in
        let flushes = each-flush_entry es s all in
        let recovers =
          each-recover_entry s.db_state es all (reopened t)
            (flushed_all-AreStored up law s.db_state es all s.se) in
        let restored = get-restored_all s.db_state es all [] a v st found there in
        let elsewhere = flushed_all-elsewhere up law s.db_state es all s.se in
        let opens = up.open_cf s.se db_store_cf in
        let opens' = up.open_cf t.se db_store_cf in
        let seeks : E.seek s.se db_store_cf [] ≡ es =
          up.seeks s.se db_store_cf [] ∙ from_first es in
        let seeks' : E.seek t.se db_store_cf [] ≡ es =
          up.seeks t.se db_store_cf [] ∙ from_first (up.entries t.se db_store_cf) ∙ elsewhere in
        (
          ground (arith, opens, seeks, flushes),
          ground (arith, opens, seeks, flushes, opens', seeks', recovers),
          ground (arith, opens, seeks, flushes, opens', seeks', recovers, restored),
        )
