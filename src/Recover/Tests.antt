-- ===== src/Recover/Tests.antt =====
-- The recovery at work on an archive of two rollups.
use rtstore.Base.{ℕ, ◌≡◌, refl, none, some, List, [], ◌∷◌, arith, if◌then◌else◌, false}
use rtstore.Base.Bytes.{Bytes, bytes_eq}
use rtstore.Base.Result.{ok}
use rtstore.Engine.Memory.{Tables, memory}
use rtstore.Crypto.HexText.{hex_text, toy_digest}
use rtstore.Proto.{add_document}
use rtstore.Proto.Flat.{header_codec, body_codec}
use rtstore.MutationStore.{Cf, cf_eq}
use rtstore.Recover.{
  Fetched, Archive, Row, Replay, RecoverConfig, Recover, recover_from_arweave_tx,
  recover_from_arweave,
}
use rtstore.Recover.Fetch.{since, recover_from_arweave-replays}

abbrev first_tx : Fetched
first_tx = record { tx = b'a' ∷ []; end_block = 5; version = none }

abbrev second_tx : Fetched
second_tx = record { tx = b'b' ∷ []; end_block = 9; version = none }

abbrev archive : Archive
archive = record {
  get_latest_arweave_tx = λ network_id. ok second_tx.tx;
  get_tx_tags = λ tx.
      if bytes_eq tx second_tx.tx
      then ok (record {
        start_block = 5;
        end_block = 9;
        last_rollup_tx = some first_tx.tx;
        version = none;
      })
      else ok (record { start_block = 0; end_block = 5; last_rollup_tx = none; version = none });
}

-- The database store is the list of the blocks that were applied, the last one first. Each transaction
-- is a batch of one row, whose block is the first character of its id.
abbrev row_of : Bytes → Row
row_of [] = record {
  body = record { payload = []; signature = [] };
  block = 0;
  order = 0;
  doc_ids = [];
}
row_of (b ∷ bs) = record {
  body = record { payload = []; signature = [] };
  block = b;
  order = 0;
  doc_ids = [];
}

abbrev replay : Replay (List ℕ) Bytes Bytes Bytes
replay = record {
  download_and_parse_record_batch = λ tx. ok (tx ∷ []);
  convert_recordbatch_to_mutation = λ batch version. ok (row_of batch ∷ []);
  unwrap_and_light_verify = λ payload signature. ok (payload, record { bytes = [] }, 1);
  action_from_i32 = λ dm. some add_document;
  convert_doc_ids_map_to_vec = λ ids. ok ids;
  apply_mutation = λ action dm address network_id nonce block order ids d. (ok tt, block ∷ d);
  recover_db_state = λ d. (ok tt, d);
  recover_block_state = λ d. (ok none, d);
}

abbrev config : RecoverConfig
config = record { is_recover_rollup = false; network_id = 1 }

abbrev start : Recover (Tables Cf) (List ℕ)
start = record { db_store = []; storage = none }

abbrev after_first : Recover (Tables Cf) (List ℕ)
after_first = record { db_store = b'a' ∷ []; storage = none }

abbrev replayed : Recover (Tables Cf) (List ℕ)
replayed = record { db_store = b'b' ∷ b'a' ∷ []; storage = none }

recover_from_arweave-replays_example :
    recover_from_arweave replay config 60 archive 2 2 0 start ≡ some (ok 10, replayed)
unfolding bytes_eq since recover_from_arweave_tx
recover_from_arweave-replays_example =
    recover_from_arweave-replays archive replay config 60 0 2 0 second_tx (first_tx ∷ []) start
      replayed refl (record { start = 5; tagged = refl }, record { start = 0; tagged = refl })
      (omega arith) (omega arith) (omega arith) (after_first, (start, refl, refl), refl)
