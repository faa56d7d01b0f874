-- ===== src/Rollup/Keeps.antt =====
-- What leaves the table of rollups and the current block alone.
use rtstore.Base.{
  ℕ, ◌/◌, ◌==◌, ◌≡◌, refl, false, Option, none, some, Option-cases, inl, inr, List, [], ◌∷◌, ◌++◌,
  arith,
}
use rtstore.Base.Bytes.{Bytes, be}
use rtstore.Base.Result.{Result-cases}
use rtstore.Base.Exec.{Exec}
use rtstore.Engine.{Op, put_cf, delete_range_cf, Engine, IsUp, Codec}
use rtstore.Engine.Entries.{Entry}
use rtstore.Engine.Extend.{IsElsewhere, applied_elsewhere}
use rtstore.Crypto.{Hex}
use rtstore.Proto.{MutationHeader, MutationBody, GcRecord, RollupRecord, MutationState}
use rtstore.MutationStore.{
  Cf, cf_code, cf_eq, rollup_store, block_store, tx_store, gc_store, state, MutationStore,
}
use rtstore.MutationStore.Read.{get_latest_state, get_range_mutations}
use rtstore.MutationStore.Write.{add_record, flush_state, add_gc_record}
use rtstore.MutationStore.Mutations.{delete_bodies, gc_range_mutation}
use rtstore.Rollup.{Clock}
use rtstore.Rollup.Process.{collect}

module _ {Db : Type 0} ⦃E : Engine Cf Db⦄ (up : IsUp E) where
  abbrev pub rollups : MutationStore Db → List Entry
  rollups s = up.entries s.se rollup_store

  abbrev pub IsSame : MutationStore Db → MutationStore Db → Type 0
  IsSame s t = (rollups s ≡ rollups t) × (s.blocks.block ≡ t.blocks.block)

  abbrev pub Keeps : {A : Type 0} → Exec (MutationStore Db) A → Type 0
  Keeps m = (s : MutationStore Db) → IsSame (m s).1 s

  add_record-Keeps :
      {T : Type 0} ⦃c : Codec T⦄ (cf : Cf) (key : Bytes) (value : T)
      → (cf_code cf == 2) ≡ false
      → Keeps (add_record cf key value)
  unfolding add_record
  add_record-Keeps ⦃c⦄ cf key value ne s = elim (Option-cases (c.encode value)) [
    | inl failed ↦ ground (arith, failed, up.open_cf s.se cf)
    | inr (buf, encoded) ↦ ground (
      arith,
      encoded,
      up.open_cf s.se cf,
      up.writes s.se (put_cf cf key buf ∷ []),
      applied_elsewhere up s.se rollup_store (put_cf cf key buf ∷ []) (ne, tt),
    )
  ]

  pub flush_state-Keeps : ⦃c : Codec MutationState⦄ (now : ℕ) → Keeps (flush_state now)
  unfolding flush_state
  flush_state-Keeps now s =
      ground (arith, add_record-Keeps state (be 8 (now / 60 / 60)) (get_latest_state s) refl s)

  add_gc_record-Keeps : ⦃c : Codec GcRecord⦄ (r : GcRecord) → Keeps (add_gc_record r)
  unfolding add_gc_record
  add_gc_record-Keeps r s = ground (arith, add_record-Keeps gc_store (be 8 r.start_block) r refl s)

  abbrev gc_ops : List (MutationHeader × MutationBody) → ℕ → ℕ → List (Op Cf)
  gc_ops ms a b = delete_bodies ms ++ (delete_range_cf block_store (be 8 a) (be 8 b) ∷ [])

  gc_ops-IsElsewhere :
      (ms : List (MutationHeader × MutationBody)) (a b : ℕ)
      → IsElsewhere rollup_store (gc_ops ms a b)
  gc_ops-IsElsewhere [] a b = (refl, tt)
  gc_ops-IsElsewhere ((m, mb) ∷ ms) a b = (refl, gc_ops-IsElsewhere ms a b)

  module _ ⦃ch : Codec MutationHeader⦄ ⦃cb : Codec MutationBody⦄ ⦃h : Hex⦄ where
    gc_range_mutation-Keeps : (a b : ℕ) → Keeps (gc_range_mutation a b)
    unfolding gc_range_mutation
    gc_range_mutation-Keeps a b s = elim (Result-cases (get_range_mutations a b s)) [
      | inl (e, failed) ↦ ground (arith, failed, up.open_cf s.se tx_store)
      | inr (ms, found) ↦ ground (
        arith,
        found,
        up.open_cf s.se tx_store,
        up.open_cf s.se block_store,
        up.writes s.se (gc_ops ms a b),
        applied_elsewhere up s.se rollup_store (gc_ops ms a b) (gc_ops-IsElsewhere ms a b),
      )
    ]

    pub collect-Keeps :
        ⦃cg : Codec GcRecord⦄ (clock : Clock) (o : Option RollupRecord) → Keeps (collect clock o)
    unfolding collect
    collect-Keeps clock none s = (refl, refl)
    collect-Keeps clock (some r) s = ground (
      arith,
      gc_range_mutation-Keeps r.start_block r.end_block s,
      add_gc_record-Keeps
          (record {
            start_block = r.start_block;
            end_block = r.end_block;
            data_size = r.raw_data_size;
            time = clock.time;
            processed_time = clock.processed_time;
          })
          (gc_range_mutation r.start_block r.end_block s).1,
    )
