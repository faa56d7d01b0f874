-- ===== src/Node/Tests.antt =====
-- The theorems on `send_mutation` at work on engines in memory.
use rtstore.Base.{map, ◌≡◌, refl, ℕ, suc, true, none, some, [], ◌∷◌, arith}
use rtstore.Base.Bytes.{be}
use rtstore.Base.Result.{ok}
use rtstore.Engine.Entries.{lookup}
use rtstore.Engine.Memory.{Tables, no_rows, memory, memory-IsUp}
use rtstore.Crypto.HexText.{hex_text, toy_digest}
use rtstore.Crypto.Address.{Db3Address}
use rtstore.Proto.{create_document_db}
use rtstore.Proto.Flat.{header_codec, body_codec}
use rtstore.Proto.Frames.{collection_codec, database_codec, block_codec}
use rtstore.Proto.Mutation.{doc_database_mutation, Mutation, from_i32}
use rtstore.MutationStore
use rtstore.MutationStore.{cf_eq as mutation_cf_eq}
use rtstore.StateStore
use rtstore.StateStore.{table_eq}
use rtstore.DbStore
use rtstore.DbStore.{cf_eq as db_cf_eq, DocStore, Texts}
use rtstore.Requests.DocIds.{JsonObjects, convert_doc_ids_map_to_vec}
use rtstore.Node.{SendMutationRequest, StorageNode, Verify, get_create_doc_ids_map}
use rtstore.Node.DocIds.{document_item, convert-get_create_doc_ids_map}
use rtstore.Node.Send.{response, bad_nonce, send_mutation}
use rtstore.Node.Replays.{send_mutation_again}

-- It counts its calls.
instance abbrev counting_docs : DocStore ℕ
counting_docs = record {
  create_database = λ a n. (ok tt, suc n);
  add_index = λ a c is n. (ok tt, suc n);
  add_str_docs = λ a c docs ids n. (ok tt, suc n);
  patch_docs = λ a c docs ids n. (ok tt, suc n);
  delete_docs = λ a c ids n. (ok tt, suc n);
  execute_query = λ n a c q. ok ([], 0);
  get_doc = λ n a c id. ok none;
}

instance abbrev no_texts : Texts
no_texts = record { document_text = λ b. none; decode_bytes_hex = λ b. none }

abbrev alice : Db3Address
alice = record { bytes = be 20 1 }

abbrev creation : Mutation
creation = record {
  action = 0;
  bodies =
      record { db_address = []; body = some (doc_database_mutation (record { db_desc = [] })) }
      ∷ [];
}

-- Every request is alice's, with her first nonce.
instance abbrev trusting : Verify
trusting = record {
  unwrap_and_light_verify = λ payload sig. ok (creation, alice, 1);
  json_of_ids = λ ids. ids;
}

abbrev request : SendMutationRequest
request = record { signature = b's' ∷ []; payload = b'p' ∷ [] }

abbrev node : StorageNode (Tables MutationStore.Cf) (Tables StateStore.Table) (Tables DbStore.Cf) ℕ
node = record {
  storage = MutationStore.new 50 no_rows;
  state_store = record { db = no_rows };
  db_store = DbStore.new (record { enable_doc_store = true; doc_start_id = 1000 }) no_rows 0;
  network_id = 1;
}

send_mutation_again_example :
    (send_mutation 200 request (send_mutation 100 request node).1).0 ≡ response bad_nonce
unfolding memory-IsUp lookup from_i32
send_mutation_again_example =
    send_mutation_again memory-IsUp 100 200 request node creation alice 1 create_document_db 0 refl
      refl refl refl (omega arith)

instance abbrev one_member : JsonObjects
one_member = record { members = λ t. some ((b'0' ∷ [], some t) ∷ []) }

convert-get_create_doc_ids_map_example :
    convert_doc_ids_map_to_vec (get_create_doc_ids_map (map document_item (1001 ∷ 1002 ∷ [])))
    ≡ ok ((b'0' ∷ [], 1001 ∷ 1002 ∷ []) ∷ [])
convert-get_create_doc_ids_map_example =
    convert-get_create_doc_ids_map (record { members_lem = λ t. refl }) 1001 (1002 ∷ [])
      (omega arith)
