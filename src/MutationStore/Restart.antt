-- ===== src/MutationStore/Restart.antt =====
-- What a restart does to the numbering: `recover` on a store that opens the same database.
use rtstore.Base.{
  ℕ, ◌+◌, ◌≤◌, ◌<◌, ◌^◌, ◌≡◌, refl, inl, Option, none, some, List, [], ◌∷◌, arith, length, All,
}
use rtstore.Base.Bytes.{Bytes, be}
use rtstore.Base.Bytes.BigEndian.{of_be-be, length-be}
use rtstore.Base.Bytes.Order.{bytes_eq_refl}
use rtstore.Engine.{Op, put_cf, Engine, IsUp, Codec}
use rtstore.Engine.Entries.{lookup}
use rtstore.Crypto.{Hex, Sha3}
use rtstore.Proto.{MutationState}
use rtstore.MutationStore.{cf_eq, add_u64, Cf, block_state, block_key, MutationStore, new}
use rtstore.MutationStore.Write.{increase_block_return_last_state, recover, recover_last_state}
use rtstore.MutationStore.Mutations.{generate_mutation_block_and_order}
use rtstore.MutationStore.Numbering.{
  Number, Before, Call, submit, tick, ticked, numbered, issued, generate_answers,
  increase_block_moves,
}

module _ {Db : Type 0} ⦃E : Engine Cf Db⦄ ⦃c : Codec MutationState⦄ where
  -- A new process on the database that `s` leaves behind.
  unfoldable pub restarted : MutationStore Db → MutationStore Db
  unfolding new
  restarted s = (recover (new s.scan_max_limit s.se)).1

  recover_last_state_keeps : (s : MutationStore Db) → (recover_last_state s).1.blocks ≡ s.blocks
  unfolding recover_last_state
  recover_last_state_keeps s = ground arith

module _ {Db : Type 0} ⦃E : Engine Cf Db⦄ (up : IsUp E) where
  -- The block that the database remembers.
  abbrev pub kept_block : MutationStore Db → Option Bytes
  kept_block s = lookup block_key (up.entries s.se block_state)

  -- The database remembers the block that the store is at.
  abbrev pub IsPersisted : MutationStore Db → Type 0
  IsPersisted s = kept_block s ≡ some (be 8 s.blocks.block)

  ticked-IsPersisted : (s : MutationStore Db) → IsPersisted (ticked s)
  unfolding ticked increase_block_return_last_state
  ticked-IsPersisted s =
      let ops : List (Op Cf) =
        put_cf block_state block_key (be 8 (add_u64 s.blocks.block 1)) ∷ [] in
      ground (
        arith,
        up.open_cf s.se block_state,
        up.writes s.se ops,
        up.written s.se ops block_state block_key,
        bytes_eq_refl block_key,
      )

  module _ ⦃c : Codec MutationState⦄ where
    restarted_after :
        (s : MutationStore Db)
        → IsPersisted s
        → s.blocks.block + 1 < 2 ^ 64
        → ((restarted s).blocks.block ≡ s.blocks.block + 1) × ((restarted s).blocks.order ≡ 0)
    unfolding restarted recover
    restarted_after s h fits = ground (
      arith,
      up.open_cf s.se block_state,
      up.reads s.se block_state block_key,
      length-be 8 s.blocks.block,
      of_be-be 8 s.blocks.block (omega arith),
      λ (t : MutationStore Db). recover_last_state_keeps t,
    )

-- The store after a schedule of calls.
module _ {Db : Type 0} ⦃E : Engine Cf Db⦄ ⦃sha : Sha3⦄ ⦃h : Hex⦄ where
  unfoldable pub run : List Call → MutationStore Db → MutationStore Db
  unfolding ticked numbered
  run [] s = s
  run (submit payload signature ∷ cs) s = run cs (numbered payload signature s)
  run (tick ∷ cs) s = run cs (ticked s)

  numbered-se : (p g : Bytes) (s : MutationStore Db) → (numbered p g s).se ≡ s.se
  unfolding numbered generate_mutation_block_and_order
  numbered-se p g s = refl

  numbered-block :
      (p g : Bytes) (s : MutationStore Db) → (numbered p g s).blocks.block ≡ s.blocks.block
  unfolding numbered generate_mutation_block_and_order
  numbered-block p g s = refl

  -- The block never falls, and no number is given out for a later block than the store is at.
  run_climbs :
      (cs : List Call) (s : MutationStore Db)
      → length cs + s.blocks.block < 2 ^ 64
      → (s.blocks.block ≤ (run cs s).blocks.block)
        × ((run cs s).blocks.block ≤ length cs + s.blocks.block)
  unfolding run
  run_climbs [] s fits = omega arith
  run_climbs (submit p g ∷ cs) s fits = omega (
    arith,
    numbered-block p g s,
    run_climbs cs (numbered p g s) (omega (arith, numbered-block p g s)),
  )
  run_climbs (tick ∷ cs) s fits =
      let moves = increase_block_moves s (omega arith) in
      omega (arith, moves, run_climbs cs (ticked s) (omega (arith, moves)))

  issued_up_to :
      (cs : List Call) (s : MutationStore Db)
      → length cs + s.blocks.block < 2 ^ 64
      → All (λ n. n.0 ≤ (run cs s).blocks.block) (issued cs s)
  unfolding run issued
  issued_up_to [] s fits = tt
  issued_up_to (submit p g ∷ cs) s fits =
      let fits' : length cs + (numbered p g s).blocks.block < 2 ^ 64 =
        omega (arith, numbered-block p g s) in
      let climbs = run_climbs cs (numbered p g s) fits' in
      rw (generate_answers p g s) (climbs.0, issued_up_to cs (numbered p g s) fits')
  issued_up_to (tick ∷ cs) s fits =
      issued_up_to cs (ticked s) (omega (arith, increase_block_moves s (omega arith)))

  module _ (up : IsUp E) where
    run-IsPersisted :
        (cs : List Call) (s : MutationStore Db) → IsPersisted up s → IsPersisted up (run cs s)
    unfolding run
    run-IsPersisted [] s k = k
    run-IsPersisted (submit p g ∷ cs) s k =
        run-IsPersisted cs (numbered p g s) (rw (numbered-se p g s, numbered-block p g s) k)
    run-IsPersisted (tick ∷ cs) s k = run-IsPersisted cs (ticked s) (ticked-IsPersisted up s)

    All-Before :
        (a : ℕ) (ns : List Number)
        → All (λ n. n.0 ≤ a) ns
        → (m : Number) → a < m.0
        → All (λ n. Before n m) ns
    All-Before a [] k m lt = tt
    All-Before a ((b, o) ∷ ns) k m lt = (inl (omega arith), All-Before a ns k.1 m lt)

    -- On an engine that is up, once the database remembers the block: a process that is stopped
    -- after any schedule and started again is at a block and order that come after all that the
    -- schedule gave out.
    pub restart_is_fresh :
        ⦃c : Codec MutationState⦄ (cs : List Call) (s : MutationStore Db)
        → IsPersisted up s
        → length cs + s.blocks.block + 1 < 2 ^ 64
        → let r = restarted (run cs s) in
          All (λ n. Before n (r.blocks.block, r.blocks.order)) (issued cs s)
    restart_is_fresh cs s k fits =
        let climbs = run_climbs cs s (omega arith) in
        let after =
          restarted_after up (run cs s) (run-IsPersisted cs s k) (omega (arith, climbs)) in
        All-Before (run cs s).blocks.block (issued cs s) (issued_up_to cs s (omega arith)) _
          (omega (arith, after))

    -- Before the first tick the database remembers no block: a new process on it numbers its first
    -- mutation as the process before it did, whatever the two mutations are.
    pub first_block_reissued :
        ⦃c : Codec MutationState⦄ (limit : ℕ) (db : Db) (p g p' g' : Bytes)
        → lookup block_key (up.entries db block_state) ≡ none
        → let s = numbered p g (new limit db) in
          let r = numbered p' g' (restarted s) in
          (r.blocks.block ≡ s.blocks.block) × (r.blocks.order ≡ s.blocks.order)
    unfolding numbered generate_mutation_block_and_order restarted recover new
    first_block_reissued limit db p g p' g' absent = ground (
      arith,
      up.open_cf db block_state,
      up.reads db block_state block_key,
      recover_last_state_keeps (new limit db),
    )
