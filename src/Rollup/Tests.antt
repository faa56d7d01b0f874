-- ===== src/Rollup/Tests.antt =====
-- The theorems on rollups at work on an engine in memory.
use rtstore.Base.{ℕ, ◌<◌, ◌^◌, ◌≡◌, refl, true, some, List, [], ◌∷◌, arith}
use rtstore.Base.Bytes.{Bytes, be}
use rtstore.Base.Result.{ok}
use rtstore.Engine.Memory.{Tables, no_rows, run_ops, memory, memory-IsUp}
use rtstore.Crypto.HexText.{hex_text, toy_digest}
use rtstore.Proto.{MutationHeader, MutationBody, add_document}
use rtstore.Proto.Flat.{
  header_codec, body_codec, rollup_codec, state_codec, gc_codec, rollup_codec-IsCodec,
  state_codec-IsCodec,
}
use rtstore.MutationStore.{Cf, cf_eq, MutationStore, new}
use rtstore.MutationStore.Mutations.{Submission, body_of, header_of, add_mutation}
use rtstore.Engine.Entries.{from}
use rtstore.Crypto.TxId
use rtstore.MutationStore.Read.{get_range_mutations, get_record, get_mutation}
use rtstore.MutationStore.Write.{add_record, flush_state}
use rtstore.Rollup.{Network, Clock, RollupExecutor}
use rtstore.Rollup.Process.{process}
use rtstore.Rollup.Progress.{flushed, process-IsRolledUp}
use rtstore.Rollup.Chain.{IsRolledUp, IsRolledUpTo, process-IsRolledUpTo}

abbrev submission : Submission
submission = record {
  payload = b'a' ∷ [];
  signature = b'b' ∷ [];
  doc_ids_map = [];
  sender = record { bytes = be 20 7 };
  nonce = 1;
  block = 1;
  order = 2;
  network = 1;
  action = add_document;
  now = 60;
}

-- A store at block 2, with a mutation in block 1.
abbrev store : MutationStore (Tables Cf)
store = record (add_mutation submission (new 50 no_rows)).1 {
  blocks = record { block = 2; order = 0 };
}

-- A network that takes every batch; a batch is its mutations.
abbrev network : Network (List (MutationHeader × MutationBody))
network = record {
  convert_mutations_to_recordbatch = λ ms. ok ms;
  get_array_memory_size = λ ms. 2000;
  compress_and_upload_record_batch = λ tx start_block end_block ms network_id.
      ok (record { id = b't' ∷ []; reward = 5; num_rows = 1; size = 300 });
  update_rollup_step = λ id network_id. ok (7, b'e' ∷ []);
}

abbrev clock : Clock
clock = record { time = 7200; processed_time = 1 }

abbrev executor : RollupExecutor (Tables Cf)
executor = record {
  storage = store;
  has_ar_toolbox = true;
  min_rollup_size = 1000;
  has_meta_store = true;
  pending_mutations = 0;
  pending_data_size = 0;
  pending_start_block = 0;
  pending_end_block = 0;
  network_id = 1;
  rollup_max_interval = 0;
  min_gc_round_offset = 1;
}

process-IsRolledUpTo_example :
    IsRolledUpTo memory-IsUp rollup_codec-IsCodec (process network clock executor).1.storage 0 2
unfolding memory-IsUp add_mutation new run_ops
process-IsRolledUpTo_example =
    process-IsRolledUpTo memory-IsUp rollup_codec-IsCodec network clock 0 executor refl
      (omega arith)

abbrev in_range : MutationHeader × MutationBody
in_range = (
  header_of submission (TxId.to_hex (TxId.of_pair (b'a' ∷ []) (b'b' ∷ []))) 3,
  body_of submission,
)

flushed-in_range : get_range_mutations 0 2 (flushed clock executor) ≡ ok (in_range ∷ [])
unfolding get_range_mutations from add_mutation run_ops new rtstore.Base.Bytes.bytes_lt
    rtstore.Base.Bytes.bytes_eq rtstore.Engine.Entries.lookup rtstore.MutationStore.header_key be
    rtstore.Proto.Flat.read_header rtstore.Proto.Flat.flat_header rtstore.Proto.Flat.read_body
    rtstore.Proto.Flat.flat_body TxId.try_from_hex rtstore.Crypto.HexText.decode TxId.to_hex
    rtstore.Crypto.HexText.encode TxId.of_pair rtstore.Crypto.HexText.fill mathlib.Core.List.flatten
    get_mutation get_record flush_state add_record
flushed-in_range = refl

process-IsRolledUp_example : IsRolledUp memory-IsUp (process network clock executor).1.storage 2
unfolding memory-IsUp add_mutation new run_ops
process-IsRolledUp_example =
    process-IsRolledUp memory-IsUp rollup_codec-IsCodec network clock 0 2 in_range []
      (in_range ∷ []) (record { id = b't' ∷ []; reward = 5; num_rows = 1; size = 300 })
      (7, b'e' ∷ []) (omega arith) (omega arith) state_codec-IsCodec executor refl refl refl
      flushed-in_range refl (record { converts = refl; uploads = λ tx. refl; steps = refl })
