-- ===== src/Proto/Flat.antt =====
-- An encoding of the stored messages for the tests: numbers, lengths and texts in a row. It shows that
-- what is asked of the codec of a message can be had; the node uses protobuf.
use rtstore.Base.{
  ℕ, ◌≡◌, refl, Option, none, some, [], ◌∷◌, ◌++◌, arith, length, take, drop, take-append,
  drop-append, ◌==◌, if◌then◌else◌,
}
use rtstore.Base.Bytes.{Bytes}
use rtstore.Engine.{Codec, IsCodec}
use rtstore.Proto.{
  MutationAction, create_document_db, add_collection, add_document, delete_document,
  update_document, create_event_db, mint_document_db, mint_collection, add_index, delete_event_db,
  MutationHeader, MutationBody, GcRecord, RollupRecord, MutationState,
}

action_code : MutationAction → ℕ
action_code create_document_db = 0
action_code add_collection = 1
action_code add_document = 2
action_code delete_document = 3
action_code update_document = 4
action_code create_event_db = 5
action_code mint_document_db = 6
action_code mint_collection = 7
action_code add_index = 8
action_code delete_event_db = 9

action_of : ℕ → MutationAction
action_of n =
    if n == 0
    then create_document_db
    else if n == 1
    then add_collection
    else if n == 2
    then add_document
    else if n == 3
    then delete_document
    else if n == 4
    then update_document
    else if n == 5
    then create_event_db
    else if n == 6
    then mint_document_db
    else if n == 7
    then mint_collection
    else if n == 8
    then add_index
    else delete_event_db

action_of-action_code : (a : MutationAction) → action_of (action_code a) ≡ a
unfolding action_of action_code
action_of-action_code create_document_db = refl
action_of-action_code add_collection = refl
action_of-action_code add_document = refl
action_of-action_code delete_document = refl
action_of-action_code update_document = refl
action_of-action_code create_event_db = refl
action_of-action_code mint_document_db = refl
action_of-action_code mint_collection = refl
action_of-action_code add_index = refl
action_of-action_code delete_event_db = refl

unfoldable pub flat_body : MutationBody → Bytes
flat_body m = length m.payload ∷ (m.payload ++ m.signature)

unfoldable pub read_body : Bytes → Option MutationBody
read_body [] = none
read_body (l ∷ rest) = some (record { payload = take l rest; signature = drop l rest })

read_body-flat_body : (m : MutationBody) → read_body (flat_body m) ≡ some m
unfolding read_body flat_body
read_body-flat_body m =
    ground (arith, take-append m.payload m.signature, drop-append m.payload m.signature)

unfoldable pub flat_header : MutationHeader → Bytes
unfolding action_code
flat_header m =
    m.block_id
    ∷ m.order_id
    ∷ m.time
    ∷ m.size
    ∷ m.nonce
    ∷ m.network
    ∷ action_code m.action
    ∷ length m.sender
    ∷ length m.id
    ∷ (m.sender ++ (m.id ++ m.doc_ids_map))

unfoldable pub read_header : Bytes → Option MutationHeader
unfolding action_of
read_header (block ∷ order ∷ time ∷ size ∷ nonce ∷ network ∷ action ∷ l ∷ k ∷ rest) = some (record {
  block_id = block;
  order_id = order;
  sender = take l rest;
  time = time;
  id = take k (drop l rest);
  size = size;
  nonce = nonce;
  network = network;
  action = action_of action;
  doc_ids_map = drop k (drop l rest);
})
read_header _ = none

read_header-flat_header : (m : MutationHeader) → read_header (flat_header m) ≡ some m
unfolding read_header flat_header
read_header-flat_header m = ground (
  arith,
  action_of-action_code m.action,
  take-append m.sender (m.id ++ m.doc_ids_map),
  drop-append m.sender (m.id ++ m.doc_ids_map),
  take-append m.id m.doc_ids_map,
  drop-append m.id m.doc_ids_map,
)

unfoldable pub flat_rollup : RollupRecord → Bytes
flat_rollup r =
    r.end_block
    ∷ r.raw_data_size
    ∷ r.compress_data_size
    ∷ r.processed_time
    ∷ r.time
    ∷ r.mutation_count
    ∷ r.cost
    ∷ r.start_block
    ∷ r.evm_cost
    ∷ length r.arweave_tx
    ∷ (r.arweave_tx ++ r.evm_tx)

unfoldable pub read_rollup : Bytes → Option RollupRecord
read_rollup
      (end_block ∷ raw ∷ compressed ∷ processed ∷ time ∷ count ∷ cost ∷ start_block ∷ evm_cost ∷ l
        ∷ rest) =
    some (record {
      end_block = end_block;
      raw_data_size = raw;
      compress_data_size = compressed;
      processed_time = processed;
      arweave_tx = take l rest;
      time = time;
      mutation_count = count;
      cost = cost;
      start_block = start_block;
      evm_tx = drop l rest;
      evm_cost = evm_cost;
    })
read_rollup _ = none

read_rollup-flat_rollup : (r : RollupRecord) → read_rollup (flat_rollup r) ≡ some r
unfolding read_rollup flat_rollup
read_rollup-flat_rollup r =
    ground (arith, take-append r.arweave_tx r.evm_tx, drop-append r.arweave_tx r.evm_tx)

unfoldable pub flat_state : MutationState → Bytes
flat_state m =
    m.mutation_count
    ∷ m.total_mutation_bytes
    ∷ m.gc_count
    ∷ m.rollup_count
    ∷ m.total_rollup_bytes
    ∷ m.total_gc_bytes
    ∷ m.total_rollup_raw_bytes
    ∷ m.total_rollup_mutation_count
    ∷ length m.total_storage_cost
    ∷ (m.total_storage_cost ++ m.total_evm_cost)

unfoldable pub read_state : Bytes → Option MutationState
read_state (count ∷ bytes ∷ gc ∷ rollups ∷ rollup_bytes ∷ gc_bytes ∷ raw ∷ rolled ∷ l ∷ rest) =
    some (record {
      mutation_count = count;
      total_mutation_bytes = bytes;
      gc_count = gc;
      rollup_count = rollups;
      total_rollup_bytes = rollup_bytes;
      total_gc_bytes = gc_bytes;
      total_rollup_raw_bytes = raw;
      total_storage_cost = take l rest;
      total_evm_cost = drop l rest;
      total_rollup_mutation_count = rolled;
    })
read_state _ = none

read_state-flat_state : (m : MutationState) → read_state (flat_state m) ≡ some m
unfolding read_state flat_state
read_state-flat_state m = ground (
  arith,
  take-append m.total_storage_cost m.total_evm_cost,
  drop-append m.total_storage_cost m.total_evm_cost,
)

unfoldable pub flat_gc : GcRecord → Bytes
flat_gc r = r.start_block ∷ r.end_block ∷ r.data_size ∷ r.time ∷ r.processed_time ∷ []

unfoldable pub read_gc : Bytes → Option GcRecord
read_gc (a ∷ b ∷ c ∷ d ∷ e ∷ []) =
    some (record { start_block = a; end_block = b; data_size = c; time = d; processed_time = e })
read_gc _ = none

instance abbrev pub header_codec : Codec MutationHeader
header_codec = record { encode = λ m. some (flat_header m); decode = read_header }

instance abbrev pub body_codec : Codec MutationBody
body_codec = record { encode = λ m. some (flat_body m); decode = read_body }

instance abbrev pub rollup_codec : Codec RollupRecord
rollup_codec = record { encode = λ r. some (flat_rollup r); decode = read_rollup }

instance abbrev pub state_codec : Codec MutationState
state_codec = record { encode = λ m. some (flat_state m); decode = read_state }

instance abbrev pub gc_codec : Codec GcRecord
gc_codec = record { encode = λ r. some (flat_gc r); decode = read_gc }

pub header_codec-IsCodec : IsCodec header_codec
header_codec-IsCodec = record {
  encoded = flat_header;
  encodes = λ m. refl;
  decodes = read_header-flat_header;
}

pub body_codec-IsCodec : IsCodec body_codec
body_codec-IsCodec = record {
  encoded = flat_body;
  encodes = λ m. refl;
  decodes = read_body-flat_body;
}

pub rollup_codec-IsCodec : IsCodec rollup_codec
rollup_codec-IsCodec = record {
  encoded = flat_rollup;
  encodes = λ m. refl;
  decodes = read_rollup-flat_rollup;
}

pub state_codec-IsCodec : IsCodec state_codec
state_codec-IsCodec = record {
  encoded = flat_state;
  encodes = λ m. refl;
  decodes = read_state-flat_state;
}
