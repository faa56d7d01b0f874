-- ===== src/MutationStore/Read.antt =====
-- The methods of MutationStore that change nothing.
use rtstore.Base.{
  ℕ, ◌+◌, ◌%◌, ◌^◌, Bool, true, false, not, Option, none, some, List, [], ◌∷◌, ltb, leb,
  if◌then◌else◌,
}
use rtstore.Base.Bytes.{Bytes, bytes_lt, be}
use rtstore.Base.Result.{read_store_error, Result, ok, err, ok_or, map_err, ◌>>=◌}
use rtstore.Engine.{Engine, Codec}
pub use rtstore.Engine.Calls.{handle, decode_opt}
use rtstore.Engine.Entries.{Entry}
use rtstore.Crypto.{Hex}
use rtstore.Crypto.TxId
use rtstore.Crypto.TxId.{TxId}
use rtstore.Proto.{MutationHeader, MutationBody, GcRecord, RollupRecord, MutationState}
use rtstore.MutationStore.{
  Cf, block_store, tx_store, rollup_store, gc_store, MutationStore, header_key, add_u32,
}

-- The value under the iterator.
unfoldable pub decode_first : {T : Type 0} ⦃c : Codec T⦄ → List Entry → Result (Option T)
decode_first [] = ok none
decode_first ⦃c⦄ ((k, v) ∷ es) = do m ← ok_or (c.decode v) read_store_error; ok (some m)

-- `it.next()`, which does nothing to an iterator that is not valid.
abbrev pub next : List Entry → List Entry
next [] = []
next (e ∷ es) = es

-- The two loops of `scan_records`, over what the iterator has ahead.
unfoldable pub scan_skip : List Entry → ℕ → ℕ → List Entry × ℕ
scan_skip [] count start = ([], count)
scan_skip (e ∷ es) count start =
    let rest = scan_skip es (count + 1) start in if ltb count start then rest else (e ∷ es, count)

unfoldable pub push_decoded : {T : Type 0} → Option T → List T → List T
push_decoded none records = records
push_decoded (some m) records = m ∷ records

unfoldable pub scan_take : {T : Type 0} ⦃c : Codec T⦄ → List Entry → ℕ → ℕ → List T
unfolding push_decoded
scan_take [] count end_ = []
scan_take ⦃c⦄ ((k, v) ∷ es) count end_ =
    let rest = push_decoded (c.decode v) (scan_take es (count + 1) end_) in
    if ltb count end_ then rest else []

-- The loop of `has_enough_round_left`.
unfoldable pub count_rounds : List Entry → ℕ → ℕ → Bool
count_rounds [] count min_rounds = false
count_rounds (e ∷ es) count min_rounds =
    let rest = count_rounds es (count + 1) min_rounds in
    if leb min_rounds (count + 1) then true else rest

-- `if let Ok(Some(mb)) = … { mutations.push((m, mb)) }`
unfoldable pub push_found :
    MutationHeader
    → Result (Option MutationBody)
    → List (MutationHeader × MutationBody)
    → List (MutationHeader × MutationBody)
push_found m (ok (some mb)) mutations = (m, mb) ∷ mutations
push_found m _ mutations = mutations

module _ {Db : Type 0} ⦃E : Engine Cf Db⦄ where
  module _ {T : Type 0} ⦃c : Codec T⦄ where
    unfoldable pub get_record : Cf → Bytes → MutationStore Db → Result (Option T)
    unfolding decode_opt
    get_record cf id s = do
      _ ← handle (E.cf_handle s.se cf) read_store_error
      value ← ok_or (E.get_cf s.se cf id) read_store_error
      decode_opt value

    unfoldable pub get_next_record : Cf → Bytes → MutationStore Db → Result (Option T)
    unfolding decode_first
    get_next_record cf id s = do
      _ ← handle (E.cf_handle s.se cf) read_store_error
      decode_first (next (E.seek s.se cf id))

    unfoldable pub get_last_record : Cf → MutationStore Db → Result (Option T)
    unfolding decode_first
    get_last_record cf s = do
      _ ← handle (E.cf_handle s.se cf) read_store_error
      decode_first (E.seek_to_last s.se cf)

    unfoldable pub scan_records : Cf → ℕ → ℕ → MutationStore Db → Result (List T)
    unfolding scan_skip scan_take
    scan_records cf from limit s =
        if ltb (s.scan_max_limit % 2 ^ 32) limit then err read_store_error else do
          _ ← handle (E.cf_handle s.se cf) read_store_error
          let (ahead, count) = scan_skip (E.seek_to_last s.se cf) 0 from
          ok (scan_take ahead count (add_u32 from limit))

  unfoldable pub get_last_gc_record :
      ⦃c : Codec GcRecord⦄ → MutationStore Db → Result (Option GcRecord)
  get_last_gc_record = get_last_record gc_store

  unfoldable pub get_last_rollup_record :
      ⦃c : Codec RollupRecord⦄ → MutationStore Db → Result (Option RollupRecord)
  get_last_rollup_record = get_last_record rollup_store

  unfoldable pub get_next_rollup_record :
      ⦃c : Codec RollupRecord⦄ → ℕ → MutationStore Db → Result (Option RollupRecord)
  get_next_rollup_record start_block = get_next_record rollup_store (be 8 start_block)

  unfoldable pub get_rollup_record :
      ⦃c : Codec RollupRecord⦄ → ℕ → MutationStore Db → Result (Option RollupRecord)
  get_rollup_record start_block = get_record rollup_store (be 8 start_block)

  unfoldable pub scan_rollup_records :
      ⦃c : Codec RollupRecord⦄ → ℕ → ℕ → MutationStore Db → Result (List RollupRecord)
  scan_rollup_records = scan_records rollup_store

  unfoldable pub scan_mutation_headers :
      ⦃c : Codec MutationHeader⦄ → ℕ → ℕ → MutationStore Db → Result (List MutationHeader)
  scan_mutation_headers = scan_records block_store

  unfoldable pub scan_gc_records :
      ⦃c : Codec GcRecord⦄ → ℕ → ℕ → MutationStore Db → Result (List GcRecord)
  scan_gc_records = scan_records gc_store

  unfoldable pub has_enough_round_left : ℕ → ℕ → MutationStore Db → Result Bool
  unfolding count_rounds
  has_enough_round_left start_block min_rounds s = do
    _ ← handle (E.cf_handle s.se rollup_store) read_store_error
    ok (count_rounds (E.seek s.se rollup_store (be 8 start_block)) 0 min_rounds)

  unfoldable pub get_mutation_header :
      ⦃c : Codec MutationHeader⦄ → ℕ → ℕ → MutationStore Db → Result (Option MutationHeader)
  get_mutation_header block order = get_record block_store (header_key block order)

  unfoldable pub get_mutation :
      ⦃c : Codec MutationBody⦄ → TxId → MutationStore Db → Result (Option MutationBody)
  get_mutation tx_id = get_record tx_store tx_id.bytes

  module _ ⦃ch : Codec MutationHeader⦄ ⦃cb : Codec MutationBody⦄ ⦃h : Hex⦄ where
    -- The body of the loop under one key. A value that does not decode is passed over.
    unfoldable pub take_header :
        Option MutationHeader
        → Result (List (MutationHeader × MutationBody))
        → MutationStore Db
        → Result (List (MutationHeader × MutationBody))
    unfolding push_found
    take_header none rest s = rest
    take_header (some m) rest s = do
      tx_id ← map_err (TxId.try_from_hex m.id) read_store_error
      mutations ← rest
      ok (push_found m (get_mutation tx_id s) mutations)

    unfoldable pub range_loop :
        Bytes → List Entry → MutationStore Db → Result (List (MutationHeader × MutationBody))
    unfolding take_header
    range_loop end_id [] s = ok []
    range_loop end_id ((k, v) ∷ es) s =
        let rest = take_header (ch.decode v) (range_loop end_id es s) s in
        if not (bytes_lt k end_id) then ok [] else rest

    unfoldable pub get_range_mutations :
        ℕ → ℕ → MutationStore Db → Result (List (MutationHeader × MutationBody))
    unfolding range_loop
    get_range_mutations block_start block_end s =
        if leb block_end block_start then err read_store_error else do
          _ ← handle (E.cf_handle s.se block_store) read_store_error
          range_loop (header_key block_end 0) (E.seek s.se block_store (header_key block_start 0)) s

unfoldable pub get_current_block : {Db : Type 0} → MutationStore Db → Result ℕ
get_current_block s = ok s.blocks.block

unfoldable pub get_latest_state : {Db : Type 0} → MutationStore Db → MutationState
get_latest_state s = record {
  mutation_count = s.mutation_count;
  total_mutation_bytes = s.total_mutation_bytes;
  gc_count = s.gc_count;
  total_gc_bytes = s.total_gc_bytes;
  rollup_count = s.rollup_count;
  total_rollup_bytes = s.total_rollup_bytes;
  total_rollup_raw_bytes = s.total_rollup_raw_bytes;
  total_storage_cost = be 32 s.rollup_cost.rollup_ar_cost;
  total_evm_cost = be 32 s.rollup_cost.rollup_evm_cost;
  total_rollup_mutation_count = s.total_rollup_mutation_count;
}
