-- ===== src/Indexer/Tests.antt =====
-- The recovery of an indexer at work in memory.
use rtstore.Base.{ℕ, suc, ◌+◌, ◌≡◌, refl, true, none, some, [], ◌∷◌, arith, ltb, if◌then◌else◌}
use rtstore.Base.Text.{codes}
use rtstore.Base.Bytes.{be}
use rtstore.Base.Result.{Result, ok}
use rtstore.Engine.{Codec}
use rtstore.Engine.Entries.{lookup}
use rtstore.Engine.Memory.{Tables, no_rows, memory}
use rtstore.Crypto.HexText.{hex_text, toy_digest}
use rtstore.Proto.{create_document_db}
use rtstore.Proto.Frames.{collection_codec, database_codec, block_codec}
use rtstore.Proto.Mutation.{doc_database_mutation, Mutation}
use rtstore.DbStore
use rtstore.DbStore.{cf_eq, DocStore, Texts}
use rtstore.DbStore.Read.{recover_block_state}
use rtstore.Requests.{Signing}
use rtstore.Requests.DocIds.{JsonObjects}
use rtstore.Indexer.{IndexerNode, MutationWrapper, StoreSdk}
use rtstore.Indexer.Blocks.{recover_from_fetched_blocks}
use rtstore.Indexer.Stops.{HasNoneFrom, recover_from_fetched_blocks-stops}

-- It counts its calls.
instance abbrev counting_docs : DocStore ℕ
counting_docs = record {
  create_database = λ a n. (ok tt, suc n);
  add_index = λ a c is n. (ok tt, suc n);
  add_str_docs = λ a c docs ids n. (ok tt, suc n);
  patch_docs = λ a c docs ids n. (ok tt, suc n);
  delete_docs = λ a c ids n. (ok tt, suc n);
  execute_query = λ n a c q. ok ([], 0);
  get_doc = λ n a c id. ok none;
}

instance abbrev no_texts : Texts
no_texts = record { document_text = λ b. none; decode_bytes_hex = λ b. none }

instance abbrev no_objects : JsonObjects
no_objects = record { members = λ b. none }

-- Every mutation makes a database.
instance abbrev creations : Codec Mutation
creations = record {
  encode = λ m. none;
  decode = λ b. some (record {
    action = 0;
    bodies =
        record { db_address = []; body = some (doc_database_mutation (record { db_desc = [] })) }
        ∷ [];
  });
}

-- A payload is its own typed data, and a signature tells the signer.
instance abbrev trusting : Signing
trusting = record {
  parse_typed_data = λ payload. some (record {
    message =
        (codes "payload", record { as_str = none; as_bytes = some payload })
        ∷ (codes "nonce", record { as_str = some (codes "1"); as_bytes = none })
        ∷ [];
    types_and_domain = [];
  });
  parse_signature = λ sig. some sig;
  recover_typed_data = λ sig typed. some sig;
}

abbrev wrapper : MutationWrapper
wrapper = record {
  header = record {
    block_id = 3;
    order_id = 1;
    sender = be 20 1;
    time = 0;
    id = [];
    size = 1;
    nonce = 1;
    network = 1;
    action = create_document_db;
    doc_ids_map = [];
  };
  body = record { payload = codes "p"; signature = be 20 1 };
}

-- One mutation, in block 3.
abbrev short_chain : StoreSdk
short_chain = record {
  get_blocks = λ from to. if ltb from 4 then some (wrapper ∷ []) else some [];
  get_block_by_height = λ block. some (wrapper ∷ []);
}

short_chain_ends : HasNoneFrom 4 short_chain
short_chain_ends b h = ground arith

abbrev indexer : IndexerNode (Tables DbStore.Cf) ℕ
indexer = record {
  db_store = DbStore.new (record { enable_doc_store = true; doc_start_id = 1000 }) no_rows 0;
  processor_mapping = [];
}

recover_from_fetched_blocks-stops_example :
    (r : Result (Unit {0}) × IndexerNode (Tables DbStore.Cf) ℕ) × ((extra : ℕ)
      → recover_from_fetched_blocks short_chain (suc (1 + extra)) indexer ≡ some r)
unfolding recover_block_state lookup DbStore.new
recover_from_fetched_blocks-stops_example =
    recover_from_fetched_blocks-stops short_chain 4 1 indexer none refl short_chain_ends
      (omega arith) (omega arith)
