-- ===== src/MutationStore/Stats.antt =====
-- The counters of the store: what a rollup adds to them, and how they survive a restart.
use mathlib.Core.List.{reverse-append}
use rtstore.Base.{ℕ, ◌+◌, ◌*◌, ◌/◌, ◌<◌, ◌^◌, ◌≡◌, refl, some, [], ◌∷◌, arith}
use rtstore.Base.Bytes.{Bytes, be}
use rtstore.Base.Bytes.BigEndian.{of_be-be}
use rtstore.Base.Bytes.Order.{bytes_eq_refl}
use rtstore.Base.Result.{ok}
use rtstore.Engine.{put_cf, Engine, IsUp, Codec, IsCodec}
use rtstore.Engine.Extend.{IsBelow, applied_above}
use rtstore.Proto.{RollupRecord, MutationState}
use rtstore.MutationStore.{Cf, cf_eq, rollup_store, state, MutationStore, new, add_u64}
use rtstore.MutationStore.Read.{
  get_record, get_rollup_record, get_last_record, decode_first, get_latest_state,
}
use rtstore.MutationStore.Write.{add_record, add_rollup_record, flush_state, recover_last_state}

-- The costs are 256-bit integers.
pub record HasCosts {Db : Type 0} (s : MutationStore Db) : Type 0 where
  pub ar_fits : s.rollup_cost.rollup_ar_cost < 2 ^ 256
  pub evm_fits : s.rollup_cost.rollup_evm_cost < 2 ^ 256

-- The two stores count the same: the ten counters, one by one.
abbrev pub HasCountersOf : {Db : Type 0} → MutationStore Db → MutationStore Db → Type 0
HasCountersOf s t =
    (t.mutation_count ≡ s.mutation_count)
    × (t.total_mutation_bytes ≡ s.total_mutation_bytes)
    × (t.gc_count ≡ s.gc_count)
    × (t.total_gc_bytes ≡ s.total_gc_bytes)
    × (t.rollup_count ≡ s.rollup_count)
    × (t.total_rollup_bytes ≡ s.total_rollup_bytes)
    × (t.total_rollup_raw_bytes ≡ s.total_rollup_raw_bytes)
    × (t.total_rollup_mutation_count ≡ s.total_rollup_mutation_count)
    × (t.rollup_cost.rollup_ar_cost ≡ s.rollup_cost.rollup_ar_cost)
    × (t.rollup_cost.rollup_evm_cost ≡ s.rollup_cost.rollup_evm_cost)

module _ {Db : Type 0} ⦃E : Engine Cf Db⦄ (up : IsUp E) where
  module _ ⦃cr : Codec RollupRecord⦄ (law : IsCodec cr) where
    -- On an engine that is up, a rollup record is added without an error and is found under the block
    -- it starts at. The rollup is counted, and its cost is added to the storage cost. The cost of the
    -- contract calls becomes the new storage cost plus the record's cost once more: neither the cost of
    -- the contract calls so far nor the record's `evm_cost` goes into it.
    pub add_rollup_record_effect :
        (r : RollupRecord) (s : MutationStore Db)
        → let t = (add_rollup_record r s).1 in
          ((add_rollup_record r s).0 ≡ ok tt)
          × (get_rollup_record r.start_block t ≡ ok (some r))
          × (t.rollup_count ≡ add_u64 s.rollup_count 1)
          × (t.rollup_cost.rollup_ar_cost ≡ s.rollup_cost.rollup_ar_cost + r.cost)
          × (t.rollup_cost.rollup_evm_cost ≡ s.rollup_cost.rollup_ar_cost + 2 * r.cost)
    unfolding add_rollup_record get_rollup_record get_record
    add_rollup_record_effect r s =
        let key : Bytes = be 8 r.start_block in
        let db : Db = up.applied s.se (put_cf rollup_store key (law.encoded r) ∷ []) in
        ground (
          arith,
          law.encodes r,
          law.decodes r,
          up.open_cf s.se rollup_store,
          up.writes s.se (put_cf rollup_store key (law.encoded r) ∷ []),
          up.open_cf db rollup_store,
          up.reads db rollup_store key,
          up.written s.se (put_cf rollup_store key (law.encoded r) ∷ []) rollup_store key,
          bytes_eq_refl key,
        )

  module _ ⦃cs : Codec MutationState⦄ (law : IsCodec cs) where
    -- A new process on the flushed database, once it has read the last state.
    unfoldable pub reopened : ℕ → MutationStore Db → MutationStore Db
    reopened now s = (recover_last_state (new s.scan_max_limit (flush_state now s).1.se)).1

    flushed-se :
        (now : ℕ) (s : MutationStore Db)
        → (flush_state now s).1.se
          ≡ up.applied s.se
              (put_cf state (be 8 (now / 60 / 60)) (law.encoded (get_latest_state s)) ∷ [])
    unfolding flush_state add_record
    flushed-se now s = ground (
      arith,
      law.encodes (get_latest_state s),
      up.open_cf s.se state,
      up.writes s.se (put_cf state (be 8 (now / 60 / 60)) (law.encoded (get_latest_state s)) ∷ []),
    )

    last_flushed :
        (now : ℕ) (s : MutationStore Db)
        → IsBelow (be 8 (now / 60 / 60)) (up.entries s.se state)
        → get_last_record state (new s.scan_max_limit (flush_state now s).1.se)
          ≡ ok (some (get_latest_state s))
    unfolding get_last_record decode_first new
    last_flushed now s below =
        let key : Bytes = be 8 (now / 60 / 60) in
        let value : Bytes = law.encoded (get_latest_state s) in
        let db : Db = up.applied s.se (put_cf state key value ∷ []) in
        rw (flushed-se now s) (
          ground (
            arith,
            up.open_cf db state,
            up.seeks_last db state,
            applied_above up s.se state key value refl below,
            reverse-append (up.entries s.se state) ((key, value) ∷ []),
            law.decodes (get_latest_state s),
          ))

    -- On an engine that is up: if the two costs fit 256 bits, a state that is flushed in a later hour
    -- than all states before it is read back by a new process on the database: each of the ten counters
    -- is what it was.
    pub reopened-HasCountersOf :
        (now : ℕ) (s : MutationStore Db)
        → HasCosts s
        → IsBelow (be 8 (now / 60 / 60)) (up.entries s.se state)
        → HasCountersOf s (reopened now s)
    unfolding reopened recover_last_state get_latest_state
    reopened-HasCountersOf now s fits below = ground (
      arith,
      last_flushed now s below,
      of_be-be 32 s.rollup_cost.rollup_ar_cost (omega (arith, fits.ar_fits)),
      of_be-be 32 s.rollup_cost.rollup_evm_cost (omega (arith, fits.evm_fits)),
    )
