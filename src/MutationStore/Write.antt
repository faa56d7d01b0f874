-- ===== src/MutationStore/Write.antt =====
-- The methods of MutationStore that change the store: they are actions of `Exec`.
use rtstore.Base.{ℕ, ◌+◌, ◌/◌, Option, none, some, List, [], ◌∷◌, length, ◌==◌, if◌then◌else◌}
use rtstore.Base.Bytes.{Bytes, be, of_be}
use rtstore.Base.Result.{
  Db3Error, read_store_error, write_store_error, key_codec_error, ok, err, ok_or,
}
use rtstore.Base.Exec.{Exec, pure, raise, query, lift, modify, ◌>>=◌, ◌>>◌}
use rtstore.Engine.{Op, put_cf, Engine, Codec}
use rtstore.Proto.{GcRecord, RollupRecord, MutationState}
use rtstore.MutationStore.{
  Cf, rollup_store, gc_store, block_state, state, MutationCost, MutationStore, block_key, add_u32,
  add_u64,
}
use rtstore.MutationStore.Read.{handle, get_last_record, get_latest_state}

-- `rollup_evm_cost` is computed from the storage cost that was just updated. The sums are not bounded:
-- the source panics where one passes 256 bits.
abbrev pub add_cost : ℕ → MutationCost → MutationCost
add_cost cost m = record {
  rollup_ar_cost = m.rollup_ar_cost + cost;
  rollup_evm_cost = (m.rollup_ar_cost + cost) + cost;
}

module _ {Db : Type 0} ⦃E : Engine Cf Db⦄ where
  abbrev pub cf_handle : Cf → Db3Error → Exec (MutationStore Db) (Unit {0})
  cf_handle cf e = query (λ s. handle (E.cf_handle s.se cf) e)

  abbrev pub commit : Option Db → Exec (MutationStore Db) (Unit {0})
  commit none s = (err write_store_error, s)
  commit (some se) s = (ok tt, record s { se = se })

  -- `self.se.write(batch).map_err(…)?`
  abbrev pub write : List (Op Cf) → Exec (MutationStore Db) (Unit {0})
  write ops s = commit (E.write s.se ops) s

  unfoldable pub add_record :
      {T : Type 0} ⦃c : Codec T⦄ → Cf → Bytes → T → Exec (MutationStore Db) ℕ
  add_record ⦃c⦄ cf key value = do
    cf_handle cf read_store_error
    buf ← lift (ok_or (c.encode value) write_store_error)
    write (put_cf cf key buf ∷ [])
    pure (length buf)

  -- A data point in every hour; `now` is the time in seconds.
  unfoldable pub flush_state : ⦃c : Codec MutationState⦄ → ℕ → Exec (MutationStore Db) (Unit {0})
  unfolding add_record
  flush_state now = do
    st ← query (λ s. ok (get_latest_state s))
    add_record state (be 8 (now / 60 / 60)) st
    pure tt

  restore : Option MutationState → MutationStore Db → MutationStore Db
  restore none s = s
  restore (some m) s = record s {
    mutation_count = m.mutation_count;
    total_mutation_bytes = m.total_mutation_bytes;
    gc_count = m.gc_count;
    rollup_count = m.rollup_count;
    total_rollup_bytes = m.total_rollup_bytes;
    total_gc_bytes = m.total_gc_bytes;
    total_rollup_raw_bytes = m.total_rollup_raw_bytes;
    total_rollup_mutation_count = m.total_rollup_mutation_count;
    rollup_cost = record {
      rollup_ar_cost = of_be m.total_storage_cost;
      rollup_evm_cost = of_be m.total_evm_cost;
    };
  }

  unfoldable pub recover_last_state : ⦃c : Codec MutationState⦄ → Exec (MutationStore Db) (Unit {0})
  unfolding restore
  recover_last_state = do m ← query (get_last_record state); modify (restore m)

  -- The block goes on after the persisted one, at order 0.
  recover_block : Option Bytes → Exec (MutationStore Db) (Unit {0})
  recover_block none = pure tt
  recover_block (some v) =
      if length v == 8
      then modify (λ s. record s { blocks = record { block = add_u64 (of_be v) 1; order = 0 } })
      else raise key_codec_error

  unfoldable pub recover : ⦃c : Codec MutationState⦄ → Exec (MutationStore Db) (Unit {0})
  unfolding recover_block recover_last_state
  recover = do
    cf_handle block_state read_store_error
    value ← query (λ s. ok_or (E.get_cf s.se block_state block_key) read_store_error)
    recover_block value
    recover_last_state

  unfoldable pub add_gc_record :
      ⦃c : Codec GcRecord⦄ → GcRecord → Exec (MutationStore Db) (Unit {0})
  unfolding add_record
  add_gc_record r = do
    record_size ← add_record gc_store (be 8 r.start_block) r
    modify (λ s. record s {
      gc_count = add_u64 s.gc_count 1;
      total_gc_bytes = add_u64 s.total_gc_bytes record_size;
    })

  unfoldable pub add_rollup_record :
      ⦃c : Codec RollupRecord⦄ → RollupRecord → Exec (MutationStore Db) (Unit {0})
  add_rollup_record ⦃c⦄ r = do
    cf_handle rollup_store read_store_error
    buf ← lift (ok_or (c.encode r) write_store_error)
    write (put_cf rollup_store (be 8 r.start_block) buf ∷ [])
    modify (λ s. record s {
      rollup_count = add_u64 s.rollup_count 1;
      total_rollup_bytes = add_u64 s.total_rollup_bytes r.compress_data_size;
      total_rollup_raw_bytes = add_u64 s.total_rollup_raw_bytes r.raw_data_size;
      rollup_cost = add_cost r.cost s.rollup_cost;
    })

  -- The counter moves before the write, and stays moved if the write fails.
  unfoldable pub increase_block_return_last_state : Exec (MutationStore Db) (ℕ × ℕ)
  increase_block_return_last_state = do
    last ← query (λ s. ok (s.blocks.block, s.blocks.order))
    modify (λ s. record s { blocks = record { block = add_u64 s.blocks.block 1; order = 0 } })
    cf_handle block_state write_store_error
    block ← query (λ s. ok s.blocks.block)
    write (put_cf block_state block_key (be 8 block) ∷ [])
    pure last

  unfoldable pub increase_order : Exec (MutationStore Db) (ℕ × ℕ)
  increase_order = do
    modify (λ s. record s {
      blocks = record { block = s.blocks.block; order = add_u32 s.blocks.order 1 };
    })
    query (λ s. ok (s.blocks.block, s.blocks.order))

  unfoldable pub set_block_state : ℕ → ℕ → Exec (MutationStore Db) (Unit {0})
  set_block_state block order =
      modify (λ s. record s { blocks = record { block = block; order = order } })
