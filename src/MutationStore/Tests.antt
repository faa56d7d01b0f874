-- ===== src/MutationStore/Tests.antt =====
-- The theorems on the mutation store at work on an engine in memory.
use rtstore.Base.{
  ℕ, ◌%◌, ◌<◌, ◌^◌, ◌≡◌, refl, ◌&&◌, some, none, List, [], ◌∷◌, reverse, arith, length, take, drop,
  leb, ltb, ◌==◌, if◌then◌else◌, All,
}
use rtstore.Base.Bytes.{Bytes, be, bytes_eq}
use rtstore.Base.Result.{ok, err, read_store_error}
use rtstore.Engine.Entries.{from, lookup}
use rtstore.Engine.Memory.{Tables, no_rows, run_ops, memory, memory-IsUp}
use rtstore.Crypto.HexText.{hex_text, toy_digest}
use rtstore.Crypto.TxId
use rtstore.Proto.{MutationHeader, MutationBody, RollupRecord, add_document}
use rtstore.Proto.Flat.{
  header_codec, body_codec, rollup_codec, state_codec, header_codec-IsCodec, body_codec-IsCodec,
  rollup_codec-IsCodec, state_codec-IsCodec,
}
use rtstore.MutationStore.{
  Cf, cf_eq, block_store, rollup_store, MutationStore, new, header_key, add_u64,
}
use rtstore.Crypto.HexText.{hex_text-IsHex, toy_digest-IsSha3}
use rtstore.MutationStore.Restart.{restarted, run, restart_is_fresh, first_block_reissued}
use rtstore.MutationStore.Gc.{Mutations, gc_range_mutation_effect}
use rtstore.MutationStore.Read.{
  get_record, get_mutation, get_mutation_header, get_range_mutations, scan_records,
  has_enough_round_left, get_rollup_record,
}
use rtstore.MutationStore.Write.{add_rollup_record, increase_block_return_last_state}
use rtstore.MutationStore.Mutations.{
  Submission, body_of, header_of, add_mutation, gc_range_mutation,
}
use rtstore.MutationStore.Numbering.{
  IsRising, Before, numbered, ticked, issued, submit, tick, Call, issued-IsRising,
}
use rtstore.MutationStore.RoundTrip.{added, stored_header, add_mutation_stores}
use rtstore.MutationStore.Range.{between, read_all, get_range_mutations-eq-read_all}
use rtstore.MutationStore.Scan.{decoded, scan_records-eq-page, has_enough_round_left-eq-count}
use rtstore.MutationStore.Stats.{
  add_rollup_record_effect, HasCountersOf, reopened, reopened-HasCountersOf,
}

abbrev Store : Type 0
Store = MutationStore (Tables Cf)

abbrev empty : Store
empty = new 50 no_rows

abbrev schedule : List Call
schedule =
    tick
    ∷ submit (b'a' ∷ []) (b'b' ∷ [])
    ∷ submit (b'c' ∷ []) (b'd' ∷ [])
    ∷ tick
    ∷ submit (b'e' ∷ []) (b'f' ∷ [])
    ∷ []

issued-IsRising_example : IsRising (issued schedule empty)
unfolding new
issued-IsRising_example = issued-IsRising schedule empty (omega arith) (omega arith)

abbrev submission : Submission
submission = record {
  payload = b'a' ∷ [];
  signature = b'b' ∷ [];
  doc_ids_map = [];
  sender = record { bytes = be 20 7 };
  nonce = 1;
  block = 1;
  order = 2;
  network = 1;
  action = add_document;
  now = 60;
}

abbrev tx : TxId.TxId
tx = TxId.of_pair (b'a' ∷ []) (b'b' ∷ [])

abbrev stored : Store
stored = added memory-IsUp header_codec-IsCodec body_codec-IsCodec submission empty

add_mutation_stores_example :
    ((add_mutation submission empty).0 ≡ ok (TxId.to_hex tx, 1, 2))
    × (get_mutation tx stored ≡ (
        if bytes_eq tx.bytes tx.bytes
        then ok (some (body_of submission))
        else get_mutation tx empty))
    × (get_mutation_header 1 2 stored ≡ (
        if (1 == 1) && (2 == 2)
        then ok
            (some (stored_header memory-IsUp header_codec-IsCodec body_codec-IsCodec submission))
        else get_mutation_header 1 2 empty))
add_mutation_stores_example =
    add_mutation_stores memory-IsUp header_codec-IsCodec body_codec-IsCodec submission tx 1 2 empty
      (omega arith) (omega arith)

get_range_mutations-eq-read_all_example : get_range_mutations 1 2 stored ≡ (
    if leb 2 1
    then err read_store_error
    else read_all (between (header_key 1 0) (header_key 2 0) (stored.se.rows block_store)) stored)
unfolding memory-IsUp
get_range_mutations-eq-read_all_example = get_range_mutations-eq-read_all memory-IsUp 1 2 stored

scan_records-eq-page_example : scan_records {T = MutationHeader} block_store 0 10 stored ≡ (
    if ltb (50 % 2 ^ 32) 10
    then err read_store_error
    else ok (decoded (take 10 (drop 0 (reverse (stored.se.rows block_store))))))
unfolding memory-IsUp add_mutation new
scan_records-eq-page_example =
    scan_records-eq-page memory-IsUp block_store 0 10 stored (omega arith)

abbrev rollup : RollupRecord
rollup = record {
  end_block = 5;
  raw_data_size = 1000;
  compress_data_size = 300;
  processed_time = 2;
  arweave_tx = b't' ∷ [];
  time = 60;
  mutation_count = 4;
  cost = 9;
  start_block = 0;
  evm_tx = b'e' ∷ [];
  evm_cost = 3;
}

abbrev rolled_up : Store
rolled_up = (add_rollup_record rollup empty).1

has_enough_round_left-eq-count_example :
    has_enough_round_left 0 1 rolled_up
    ≡ ok (
        leb 1 (length (from (be 8 0) (rolled_up.se.rows rollup_store)))
        && leb 1 (length (from (be 8 0) (rolled_up.se.rows rollup_store))))
unfolding memory-IsUp
has_enough_round_left-eq-count_example = has_enough_round_left-eq-count memory-IsUp 0 1 rolled_up

add_rollup_record_effect_example :
    ((add_rollup_record rollup empty).0 ≡ ok tt)
    × (get_rollup_record 0 rolled_up ≡ ok (some rollup))
    × (rolled_up.rollup_count ≡ add_u64 0 1)
    × (rolled_up.rollup_cost.rollup_ar_cost ≡ 9)
    × (rolled_up.rollup_cost.rollup_evm_cost ≡ 18)
unfolding new
add_rollup_record_effect_example =
    add_rollup_record_effect memory-IsUp rollup_codec-IsCodec rollup empty

reopened-HasCountersOf_example :
    HasCountersOf rolled_up (reopened memory-IsUp state_codec-IsCodec 7200 rolled_up)
unfolding memory-IsUp add_rollup_record new run_ops
reopened-HasCountersOf_example =
    reopened-HasCountersOf memory-IsUp state_codec-IsCodec 7200 rolled_up
      (record { ar_fits = omega arith; evm_fits = omega arith }) tt

-- Once a tick is persisted.
abbrev ticking : Store
ticking = ticked empty

abbrev after_restart : Store
after_restart = restarted (run schedule ticking)

restart_is_fresh_example :
    All
      (λ n. Before n (after_restart.blocks.block, after_restart.blocks.order))
      (issued schedule ticking)
unfolding memory-IsUp new ticked run_ops lookup increase_block_return_last_state bytes_eq
restart_is_fresh_example = restart_is_fresh memory-IsUp schedule ticking refl (omega arith)

first_block_reissued_example :
    ((numbered
        (b'c' ∷ [])
        (b'd' ∷ [])
        (restarted (numbered (b'a' ∷ []) (b'b' ∷ []) empty))).blocks.block
      ≡ (numbered (b'a' ∷ []) (b'b' ∷ []) empty).blocks.block)
    × ((numbered
          (b'c' ∷ [])
          (b'd' ∷ [])
          (restarted (numbered (b'a' ∷ []) (b'b' ∷ []) empty))).blocks.order
        ≡ (numbered (b'a' ∷ []) (b'b' ∷ []) empty).blocks.order)
unfolding memory-IsUp lookup
first_block_reissued_example =
    first_block_reissued memory-IsUp 50 no_rows (b'a' ∷ []) (b'b' ∷ []) (b'c' ∷ []) (b'd' ∷ []) refl

abbrev collected : Store
collected = (gc_range_mutation 1 2 stored).1

abbrev in_range : Mutations
in_range = (header_of submission (TxId.to_hex tx) 3, body_of submission) ∷ []

stored-in_range : get_range_mutations 1 2 stored ≡ ok in_range
unfolding get_range_mutations from add_mutation run_ops new rtstore.Base.Bytes.bytes_lt bytes_eq
    lookup header_key be rtstore.Proto.Flat.read_header rtstore.Proto.Flat.flat_header
    rtstore.Proto.Flat.read_body rtstore.Proto.Flat.flat_body TxId.try_from_hex
    rtstore.Crypto.HexText.decode TxId.to_hex rtstore.Crypto.HexText.encode TxId.of_pair
    rtstore.Crypto.HexText.fill mathlib.Core.List.flatten get_mutation get_record
stored-in_range = refl

gc_range_mutation_effect_example :
    ((gc_range_mutation 1 2 stored).0 ≡ ok tt)
    × (get_mutation_header 1 2 collected
        ≡ (if leb 1 1 && ltb 1 2 then ok none else get_mutation_header 1 2 stored))
    × (get_mutation tx collected ≡ get_mutation tx stored)
unfolding memory-IsUp
gc_range_mutation_effect_example =
    gc_range_mutation_effect memory-IsUp hex_text-IsHex 1 2 stored in_range 1 2 tx (omega arith)
      (omega arith) stored-in_range (omega arith, omega arith)
      (TxId.of_pair-IsTxId toy_digest-IsSha3 (b'a' ∷ []) (b'b' ∷ []))
