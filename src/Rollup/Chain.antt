-- ===== src/Rollup/Chain.antt =====
-- The rollups that `process` records cover the blocks without gaps and overlaps.
use rtstore.Base.{
  ℕ, ◌<◌, ◌≤◌, ◌^◌, ◌≡◌, ◌∙◌, sym, ap, refl, Option, none, some, Bool-cases, ◌&&◌, ◌⊎◌, inl, inr,
  List, [], ◌∷◌, arith, leb, ltb, length, ◌==◌,
}
use rtstore.Base.Bytes.{Bytes, be}
use rtstore.Base.Result.{Result-cases, ok}
use rtstore.Engine.{put_cf, Engine, IsUp, Codec, IsCodec}
use rtstore.Engine.Extend.{applied_above}
use rtstore.Crypto.{Hex}
use rtstore.Proto.{MutationHeader, MutationBody, GcRecord, RollupRecord, MutationState}
use rtstore.MutationStore.{Cf, cf_eq, rollup_store, MutationStore}
use rtstore.MutationStore.Read.{
  get_last_gc_record, get_last_rollup_record, get_last_record, has_enough_round_left,
  get_range_mutations, get_current_block,
}
use rtstore.MutationStore.Write.{add_rollup_record, flush_state}
use rtstore.Rollup.{Upload, Network, Clock, RollupExecutor}
use rtstore.Rollup.Process.{
  last_gc, last_rollup, record_of, rollup_to_collect, gc_mutation, upload_rollup, process_mutations,
  process_blocks, process,
}
use rtstore.Rollup.Tiles.{IsTile, IsTiled, tiled-IsBelow, IsTiled-append, end_of, end_of-tiled}
use rtstore.Rollup.Keeps.{rollups, IsSame, flush_state-Keeps, collect-Keeps}

pub last_end :
    (last : Option RollupRecord) (b : ℕ) → end_of (ok last) ≡ some b → (last_rollup last).0 ≡ b
last_end none b e = ground arith
last_end (some r) b e = ground arith

module _ {Db : Type 0} ⦃E : Engine Cf Db⦄ (up : IsUp E) ⦃h : Hex⦄ ⦃ch : Codec MutationHeader⦄
    ⦃cb : Codec MutationBody⦄ ⦃cg : Codec GcRecord⦄ ⦃cr : Codec RollupRecord⦄ where
  pub gc_mutation-Keeps :
      (clock : Clock) (x : RollupExecutor Db) → IsSame up (gc_mutation clock x).1.storage x.storage
  unfolding gc_mutation
  gc_mutation-Keeps clock x = elim (Result-cases (get_last_gc_record x.storage)) [
    | inl (e, failed) ↦ ground (arith, failed)
    | inr (last, found) ↦
        let (start, first) = last_gc last in
        elim (Result-cases (has_enough_round_left start x.min_gc_round_offset x.storage)) [
          | inl (e, failed) ↦ ground (arith, found, failed)
          | inr (enough, counted) ↦ elim (Result-cases (rollup_to_collect start first x)) [
            | inl (e, failed) ↦ ground (arith, found, counted, failed)
            | inr (r, next) ↦
                ground (arith, found, counted, next, collect-Keeps up clock r x.storage)
          ]
        ]
  ]

  -- The blocks up to `b` are rolled up, and each once.
  abbrev pub IsRolledUp : MutationStore Db → ℕ → Type 0
  IsRolledUp s b = IsTiled 0 (rollups up s) b

  pub same_IsRolledUp :
      (s t : MutationStore Db) (b : ℕ) → IsSame up s t → IsRolledUp t b → IsRolledUp s b
  same_IsRolledUp s t b (same, _) k = rw same k

  pub last_record_end :
      (s : MutationStore Db) (b : ℕ) → IsRolledUp s b → end_of (get_last_rollup_record s) ≡ some b
  unfolding get_last_rollup_record get_last_record
  last_record_end s b t = ground (
    arith,
    up.open_cf s.se rollup_store,
    up.seeks_last s.se rollup_store,
    end_of-tiled (rollups up s) b t,
  )

  module _ (law : IsCodec cr) where
    pub add_rollup_record-IsRolledUp :
        (r : RollupRecord) (s : MutationStore Db)
        → IsRolledUp s r.start_block
        → r.start_block < r.end_block
        → r.start_block < 2 ^ 64
        → IsRolledUp (add_rollup_record r s).1 r.end_block
    unfolding add_rollup_record
    add_rollup_record-IsRolledUp r s t later fits =
        let key : Bytes = be 8 r.start_block in
        let tile : IsTile r.start_block key (law.encoded r) r = record {
          holds = law.decodes r;
          keyed = refl;
          starts = refl;
          ends_later = later;
        } in
        let appended = IsTiled-append 0 (rollups up s) r.start_block (law.encoded r) r t tile in
        ground (
          arith,
          law.encodes r,
          up.open_cf s.se rollup_store,
          up.writes s.se (put_cf rollup_store key (law.encoded r) ∷ []),
          applied_above up s.se rollup_store key (law.encoded r) refl
              (tiled-IsBelow 0 (rollups up s) r.start_block t fits),
          appended,
        )

    -- The blocks are rolled up as before, or up to `n` as well.
    abbrev pub IsRolledUpTo : MutationStore Db → ℕ → ℕ → Type 0
    IsRolledUpTo s b n = (c : ℕ) × IsRolledUp s c × (b ≤ c) × ((c ≡ b) ⊎ (c ≡ n))

    unmoved : (s : MutationStore Db) (b n : ℕ) → IsRolledUp s b → IsRolledUpTo s b n
    unmoved s b n t = (b, t, omega arith, inl refl)

    moved : (s : MutationStore Db) (b n : ℕ) → b < n → IsRolledUp s n → IsRolledUpTo s b n
    moved s b n later t = (n, t, omega arith, inr refl)

    module _ {Batch : Type 0} (network : Network Batch) (clock : Clock) where
      -- The executor once the rollup is recorded.
      abbrev pub recorded :
          ℕ → ℕ → Batch → Upload → ℕ × Bytes → RollupExecutor Db → RollupExecutor Db
      recorded b n batch uploaded paid x = record x {
        pending_start_block = n;
        pending_end_block = n;
        pending_data_size = 0;
        pending_mutations = 0;
        storage =
            (add_rollup_record
              (record_of clock b n (network.get_array_memory_size batch) uploaded paid)
              x.storage).1;
      }

      upload_rollup-IsRolledUpTo :
          (b n : ℕ) (tx : Bytes) (batch : Batch) (x : RollupExecutor Db)
          → IsRolledUp x.storage b
          → b < n
          → b < 2 ^ 64
          → IsRolledUpTo (upload_rollup network clock b n tx batch x).1.storage b n
      unfolding upload_rollup
      upload_rollup-IsRolledUpTo b n tx batch x t later fits =
          elim (Result-cases (network.compress_and_upload_record_batch tx b n batch x.network_id)) [
            | inl (e, failed) ↦ rw failed (unmoved x.storage b n t)
            | inr (uploaded, sent) ↦
                elim (Result-cases (network.update_rollup_step uploaded.id x.network_id)) [
                  | inl (e, failed) ↦ rw (sent, failed) (unmoved x.storage b n t)
                  | inr (paid, called) ↦
                      let r =
                        record_of clock b n (network.get_array_memory_size batch) uploaded paid in
                      let after = add_rollup_record-IsRolledUp r x.storage t later fits in
                      rw (sent, called)
                        (elim (Result-cases (add_rollup_record r x.storage).0) [
                          | inl (e, failed) ↦
                              rw failed (moved (add_rollup_record r x.storage).1 b n later after)
                          | inr (u, added) ↦
                              let y = recorded b n batch uploaded paid x in
                              rw added (
                                moved (gc_mutation clock y).1.storage b n later (
                                  same_IsRolledUp (gc_mutation clock y).1.storage y.storage n
                                    (gc_mutation-Keeps clock y) after))
                        ])
                ]
          ]

      process_mutations-IsRolledUpTo :
          (b n : ℕ) (tx : Bytes) (ms : List (MutationHeader × MutationBody)) (x : RollupExecutor Db)
          → IsRolledUp x.storage b
          → b < n
          → b < 2 ^ 64
          → IsRolledUpTo (process_mutations network clock b n tx ms x).1.storage b n
      unfolding process_mutations
      process_mutations-IsRolledUpTo b n tx ms x t later fits = elim (Bool-cases (length ms == 0)) [
        | inr many ↦ rw many (elim (Result-cases (network.convert_mutations_to_recordbatch ms)) [
          | inl (e, failed) ↦ rw failed (unmoved x.storage b n t)
          | inr (batch, converted) ↦
              let size = network.get_array_memory_size batch in
              let y : RollupExecutor Db = record x {
                pending_mutations = length ms;
                pending_data_size = size;
              } in
              rw converted (elim (Bool-cases (ltb size x.min_rollup_size)) [
                | inr large ↦ rw large (upload_rollup-IsRolledUpTo b n tx batch y t later fits)
                | inl small ↦ rw small (unmoved x.storage b n t)
              ])
        ])
        | inl none_there ↦ rw none_there (unmoved x.storage b n t)
      ]

      process_blocks-IsRolledUpTo :
          (b n : ℕ) (tx : Bytes) (x : RollupExecutor Db)
          → IsRolledUp x.storage b
          → b < 2 ^ 64
          → IsRolledUpTo (process_blocks network clock b tx n x).1.storage b n
      unfolding process_blocks
      process_blocks-IsRolledUpTo b n tx x t fits = elim (Bool-cases (leb n b)) [
        | inr later ↦
            let y : RollupExecutor Db = record x {
              pending_start_block = b;
              pending_end_block = n;
            } in
            rw later (elim (Result-cases (get_range_mutations b n x.storage)) [
              | inl (e, failed) ↦ rw failed (unmoved x.storage b n t)
              | inr (ms, found) ↦
                  rw found
                    (process_mutations-IsRolledUpTo b n tx ms y t (ground (arith, later)) fits)
            ])
        | inl nothing ↦ rw nothing (unmoved x.storage b n t)
      ]

      process_blocks_at :
          (b c n m : ℕ) (tx : Bytes) (x : RollupExecutor Db)
          → c ≡ b
          → m ≡ n
          → IsRolledUp x.storage b
          → b < 2 ^ 64
          → IsRolledUpTo (process_blocks network clock c tx m x).1.storage b n
      process_blocks_at b c n m tx x e g t fits =
          rw (e, g) (process_blocks-IsRolledUpTo b n tx x t fits)

      -- On an engine that is up: if the recorded rollups cover the blocks up to `b`, each once and in
      -- order, then so do the rollups after `process`, whatever it returns and whether or not the
      -- uploads fail. They end at `b` still, or at the block at which `process` began.
      pub process-IsRolledUpTo :
          ⦃cs : Codec MutationState⦄ (b : ℕ) (x : RollupExecutor Db)
          → IsRolledUp x.storage b
          → b < 2 ^ 64
          → IsRolledUpTo (process network clock x).1.storage b x.storage.blocks.block
      unfolding process get_current_block
      process-IsRolledUpTo b x t fits = elim (Bool-cases (x.has_meta_store && x.has_ar_toolbox)) [
        | inr missing ↦ rw missing (unmoved x.storage b x.storage.blocks.block t)
        | inl ready ↦
            let same = flush_state-Keeps up clock.time x.storage in
            let flushed = same_IsRolledUp (flush_state clock.time x.storage).1 x.storage b same t in
            rw ready (elim (Result-cases (flush_state clock.time x.storage).0) [
              | inl (e, failed) ↦
                  rw failed
                    (unmoved (flush_state clock.time x.storage).1 b x.storage.blocks.block flushed)
              | inr (u, done) ↦
                  let s1 : MutationStore Db = (flush_state clock.time x.storage).1 in
                  let y : RollupExecutor Db = record x { storage = s1 } in
                  rw done (elim (Result-cases (get_last_rollup_record s1)) [
                    | inl (e, failed) ↦ rw failed (unmoved s1 b x.storage.blocks.block flushed)
                    | inr (last, found) ↦
                        let (start, tx) = last_rollup last in
                        let ends =
                          last_end last b (sym (ap end_of found) ∙ last_record_end s1 b flushed) in
                        rw found (
                          process_blocks_at b start x.storage.blocks.block s1.blocks.block tx y ends
                            same.1 flushed fits)
                  ])
            ])
      ]
