-- ===== src/Rollup/Progress.antt =====
-- A rollup that meets no failure is recorded.
use rtstore.Base.{
  ℕ, ◌/◌, ◌<◌, ◌^◌, ◌≡◌, ◌∙◌, sym, ap, true, false, ◌&&◌, inl, inr, List, [], ◌∷◌, arith, leb, ltb,
  length, ◌==◌,
}
use rtstore.Base.Bytes.{Bytes, be}
use rtstore.Base.Result.{Result-cases, ok}
use rtstore.Engine.{put_cf, Engine, IsUp, Codec, IsCodec}
use rtstore.Crypto.{Hex}
use rtstore.Proto.{MutationHeader, MutationBody, GcRecord, RollupRecord, MutationState}
use rtstore.MutationStore.{Cf, cf_eq, state, MutationStore}
use rtstore.MutationStore.Read.{
  get_last_rollup_record, get_range_mutations, get_current_block, get_latest_state,
}
use rtstore.MutationStore.Write.{add_record, flush_state}
use rtstore.MutationStore.Stats.{add_rollup_record_effect}
use rtstore.Rollup.{Upload, Network, Clock, RollupExecutor}
use rtstore.Rollup.Process.{
  last_rollup, record_of, gc_mutation, upload_rollup, process_mutations, process_blocks, process,
}
use rtstore.Rollup.Tiles.{end_of}
use rtstore.Rollup.Keeps.{flush_state-Keeps}
use rtstore.Rollup.Chain.{
  last_end, gc_mutation-Keeps, IsRolledUp, same_IsRolledUp, last_record_end,
  add_rollup_record-IsRolledUp, recorded,
}

flush_state_succeeds :
    {Db : Type 0} ⦃E : Engine Cf Db⦄ (up : IsUp E) ⦃cs : Codec MutationState⦄ (law : IsCodec cs)
    (now : ℕ) (s : MutationStore Db)
    → (flush_state now s).0 ≡ ok tt
unfolding flush_state add_record
flush_state_succeeds up law now s = ground (
  arith,
  law.encodes (get_latest_state s),
  up.open_cf s.se state,
  up.writes s.se (put_cf state (be 8 (now / 60 / 60)) (law.encoded (get_latest_state s)) ∷ []),
)

-- The store that `process` reads: the state is flushed first.
abbrev pub flushed :
    {Db : Type 0} ⦃E : Engine Cf Db⦄ ⦃cs : Codec MutationState⦄
    → Clock
    → RollupExecutor Db
    → MutationStore Db
flushed clock x = (flush_state clock.time x.storage).1

module _ {Db : Type 0} ⦃E : Engine Cf Db⦄ (up : IsUp E) ⦃h : Hex⦄ ⦃ch : Codec MutationHeader⦄
    ⦃cb : Codec MutationBody⦄ ⦃cg : Codec GcRecord⦄ ⦃cr : Codec RollupRecord⦄ (law : IsCodec cr)
    {Batch : Type 0} (network : Network Batch) (clock : Clock) where
  -- The archive and the contract accept the rollup of the blocks from `b` up to `n`.
  pub record IsAccepted (b n network_id : ℕ) (ms : List (MutationHeader × MutationBody))
      (batch : Batch) (uploaded : Upload) (paid : ℕ × Bytes) : Type 0 where
    pub converts : network.convert_mutations_to_recordbatch ms ≡ ok batch
    pub uploads :
        (tx : Bytes)
        → network.compress_and_upload_record_batch tx b n batch network_id ≡ ok uploaded
    pub steps : network.update_rollup_step uploaded.id network_id ≡ ok paid

  module _ (b n : ℕ) (m : MutationHeader × MutationBody) (ms : List (MutationHeader × MutationBody))
      (batch : Batch) (uploaded : Upload) (paid : ℕ × Bytes) (later : b < n)
      (fits : b < 2 ^ 64) where
    upload_rollup_records :
        (tx : Bytes) (x : RollupExecutor Db)
        → IsAccepted b n x.network_id (m ∷ ms) batch uploaded paid
        → IsRolledUp up x.storage b
        → IsRolledUp up (upload_rollup network clock b n tx batch x).1.storage n
    unfolding upload_rollup
    upload_rollup_records tx x accepted t =
        let r = record_of clock b n (network.get_array_memory_size batch) uploaded paid in
        let y : RollupExecutor Db = recorded up law network clock b n batch uploaded paid x in
        rw (accepted.uploads tx, accepted.steps, (add_rollup_record_effect up law r x.storage).0)
          (same_IsRolledUp up (gc_mutation clock y).1.storage y.storage n
            (gc_mutation-Keeps up clock y)
            (add_rollup_record-IsRolledUp up law r x.storage t later fits))

    process_blocks_records :
        (c k : ℕ) (tx : Bytes) (x : RollupExecutor Db)
        → c ≡ b
        → k ≡ n
        → get_range_mutations b n x.storage ≡ ok (m ∷ ms)
        → ltb (network.get_array_memory_size batch) x.min_rollup_size ≡ false
        → IsAccepted b n x.network_id (m ∷ ms) batch uploaded paid
        → IsRolledUp up x.storage b
        → IsRolledUp up (process_blocks network clock c tx k x).1.storage n
    unfolding process_blocks process_mutations
    process_blocks_records c k tx x e g found large accepted t =
        let ahead : leb n b ≡ false = ground (arith, later) in
        let some_there : (length (m ∷ ms) == 0) ≡ false = ground arith in
        let y : RollupExecutor Db = record x {
          pending_start_block = b;
          pending_end_block = n;
          pending_mutations = length (m ∷ ms);
          pending_data_size = network.get_array_memory_size batch;
        } in
        rw (e, g, ahead, found, some_there, accepted.converts, large)
          (upload_rollup_records tx y accepted t)

    -- On an engine that is up: if the clients are there, the store is at block `n`, the blocks up to
    -- an earlier `b` are rolled up, there are mutations from `b` on, they are large enough, and the
    -- archive and the contract accept them, then after `process` the blocks up to `n` are rolled up.
    pub process-IsRolledUp :
        ⦃cs : Codec MutationState⦄ (laws : IsCodec cs) (x : RollupExecutor Db)
        → x.has_meta_store && x.has_ar_toolbox ≡ true
        → x.storage.blocks.block ≡ n
        → IsRolledUp up x.storage b
        → get_range_mutations b n (flushed clock x) ≡ ok (m ∷ ms)
        → ltb (network.get_array_memory_size batch) x.min_rollup_size ≡ false
        → IsAccepted b n x.network_id (m ∷ ms) batch uploaded paid
        → IsRolledUp up (process network clock x).1.storage n
    unfolding process get_current_block
    process-IsRolledUp laws x ready at t found large accepted =
        let same = flush_state-Keeps up clock.time x.storage in
        let s1 : MutationStore Db = flushed clock x in
        let y : RollupExecutor Db = record x { storage = s1 } in
        let kept = same_IsRolledUp up s1 x.storage b same t in
        rw (ready, flush_state_succeeds up laws clock.time x.storage)
          (elim (Result-cases (get_last_rollup_record s1)) [
            | inl (e, failed) ↦ ground (arith, failed, last_record_end up s1 b kept)
            | inr (last, read) ↦
                let (start, tx) = last_rollup last in
                let ends = last_end last b (sym (ap end_of read) ∙ last_record_end up s1 b kept) in
                rw read (
                  process_blocks_records start s1.blocks.block tx y ends (same.1 ∙ at) found large
                    accepted kept)
          ])
