-- ===== src/DbStore/DatabaseTests.antt =====
-- The theorems on databases and collections at work on an engine in memory.
use rtstore.Base.{◌≡◌, refl, true, none, some, [], ◌∷◌, ◌++◌, if◌then◌else◌}
use rtstore.Base.Bytes.{Bytes, be, bytes_eq, bytes_lt}
use rtstore.Base.Dict
use rtstore.Base.Result.{Result, ok, err}
use rtstore.Engine.Entries.{lookup}
use rtstore.Engine.Memory.{memory, memory-IsUp, run_ops}
use rtstore.Crypto.{Hex}
use rtstore.Crypto.HexText.{hex_text, toy_digest}
use rtstore.Crypto.Address.{Db3Address, to_hex}
use rtstore.Crypto.DbId
use rtstore.Crypto.DbId.{DbId}
use rtstore.Proto.Frames.{
  collection_codec, database_codec, block_codec, collection_codec-IsCodec, database_codec-IsCodec,
  block_codec-IsCodec,
}
use rtstore.DbStore.{Cf, cf_eq, DatabaseState, DbStore, DocStore}
use rtstore.DbStore
use rtstore.DbStore.Collections.{create_collection}
use rtstore.DbStore.Databases.{create_predefined_doc_database}
use rtstore.Proto.{create_document_db, MutationAction}
use rtstore.Proto.Database.{Index, EventDatabase}
use rtstore.Proto.Mutation.{doc_database_mutation, Mutation, EventDatabaseMutation}
use rtstore.StorageKeys.CollectionKey.{build_collection_key}
use rtstore.DbStore.Read.{get_collection, get_database, get_event_db, recover_block_state}
use rtstore.DbStore.Collections.{collection_of, add_index}
use rtstore.DbStore.Databases.{document_database, create_event_database, delete_event_db}
use rtstore.DbStore.Apply.{apply_bodies, apply_mutation}
use rtstore.DbStore.Found.{get_collection-create_collection}
use rtstore.DbStore.Indexes.{AreNew, get_collection-add_index}
use rtstore.DbStore.Created.{get_database-create}
use rtstore.DbStore.Deleted.{get_database-delete_event_db}
use rtstore.DbStore.Numbered.{found_after, recover_block_state-apply_mutation}
use rtstore.Base.Result.{collection_already_exist, database_already_exist}
use rtstore.DbStore.{Texts}
use rtstore.DbStore.Fixtures.{
  counting_docs, alice, bob, users, Store, empty, db, with_db, creates_run, with_users, users_run,
}

users_key : build_collection_key bob users ≡ ok (be 20 2 ++ users)
unfolding build_collection_key
users_key = refl

get_collection-create_collection_example :
    (ck : Bytes) × (build_collection_key bob users ≡ ok ck)
    × (get_collection bob users with_db ≡ ok none)
    × (create_collection bob bob (record { index_fields = []; collection_name = users }) with_users
        ≡ (err (collection_already_exist users (to_hex bob)), with_users))
    × (get_collection bob users with_users ≡ (
        if bytes_eq ck (be 20 2 ++ users)
        then ok (some (collection_of alice users []))
        else get_collection bob users with_db))
get_collection-create_collection_example =
    get_collection-create_collection memory-IsUp collection_codec-IsCodec alice bob
      (record { index_fields = []; collection_name = users }) with_db with_users users_run bob users
      (be 20 2 ++ users) users_key bob []

abbrev name_index : Index
name_index = record { path = b'/' ∷ b'n' ∷ []; index_type = 1 }

unfoldable with_index : Store
unfolding add_index with_users
with_index = (add_index bob users (name_index ∷ []) alice with_users).1

index_run : add_index bob users (name_index ∷ []) alice with_users ≡ (ok tt, with_index)
unfolding add_index with_index with_users with_db lookup rtstore.DbStore.new run_ops bytes_eq be
    Dict.get rtstore.Crypto.HexText.encode rtstore.Proto.Frames.read_database
    rtstore.Proto.Frames.flat_database rtstore.Proto.Frames.read_collection
    rtstore.Proto.Frames.flat_collection
index_run = refl

users_found : get_collection bob users with_users ≡ ok (some (collection_of alice users []))
unfolding get_collection with_users with_db lookup rtstore.DbStore.new run_ops bytes_eq be Dict.get
    rtstore.Crypto.HexText.encode rtstore.Proto.Frames.read_database
    rtstore.Proto.Frames.flat_database rtstore.Proto.Frames.read_collection
    rtstore.Proto.Frames.flat_collection
users_found = refl

get_collection-add_index_example :
    (bytes_eq (be 20 1) (be 20 1) ≡ true)
    × AreNew [] (name_index ∷ [])
    × (get_collection bob users with_index
        ≡ ok (some (collection_of alice users ([] ++ (name_index ∷ [])))))
get_collection-add_index_example =
    get_collection-add_index memory-IsUp collection_codec-IsCodec bob alice users (name_index ∷ [])
      with_users with_index (collection_of alice users []) users_found index_run

get_database-create_example :
    (get_database bob with_db ≡ (
      if bytes_eq (be 20 2) (be 20 2)
      then ok (some (document_database alice db []))
      else get_database bob empty))
    × (create_predefined_doc_database bob db users 2 0 with_db
        ≡ (err (database_already_exist (DbId.to_hex db)), with_db))
get_database-create_example =
    get_database-create memory-IsUp database_codec-IsCodec alice db [] 1 0 empty with_db creates_run
      bob bob users 2 0

abbrev event_mutation : EventDatabaseMutation
event_mutation = record {
  contract_address = [];
  ttl = 0;
  desc = [];
  tables = [];
  events_json_abi = [];
  evm_node_url = [];
  start_block = 0;
}

unfoldable events : Result DbId × Store
unfolding create_event_database
events = create_event_database alice event_mutation 1 1 1 0 empty

abbrev events_addr : Db3Address
events_addr = (DbId.of_sender alice 1 1).addr

abbrev events_db : EventDatabase
events_db = record {
  address = events_addr.bytes;
  sender = be 20 1;
  contract_address = [];
  desc = [];
  ttl = 0;
  events_json_abi = [];
  evm_node_url = [];
  start_block = 0;
}

events_found : get_event_db events_addr events.1 ≡ ok (some events_db)
unfolding get_event_db events DbId.of_sender rtstore.Crypto.HexText.fill mathlib.Core.List.flatten
    lookup rtstore.DbStore.new run_ops bytes_eq be Dict.get rtstore.Crypto.HexText.encode
    rtstore.Proto.Frames.read_database rtstore.Proto.Frames.flat_database
    rtstore.Proto.Frames.read_collection rtstore.Proto.Frames.flat_collection
events_found = refl

unfoldable without_events : Store
unfolding delete_event_db events
without_events = (delete_event_db alice events_addr events.1).1

events_run : delete_event_db alice events_addr events.1 ≡ (ok tt, without_events)
unfolding delete_event_db without_events events DbId.of_sender rtstore.Crypto.HexText.fill
    mathlib.Core.List.flatten rtstore.Engine.Entries.from bytes_lt lookup rtstore.DbStore.new
    run_ops bytes_eq be Dict.get rtstore.Crypto.HexText.encode rtstore.Proto.Frames.read_database
    rtstore.Proto.Frames.flat_database rtstore.Proto.Frames.read_collection
    rtstore.Proto.Frames.flat_collection
events_run = refl

get_database-delete_event_db_example :
    ((d : EventDatabase) × (some events_db ≡ some d) × (bytes_eq d.sender (be 20 1) ≡ true))
    × (get_database bob without_events
        ≡ (if bytes_eq events_addr.bytes (be 20 2) then ok none else get_database bob events.1))
get_database-delete_event_db_example =
    get_database-delete_event_db memory-IsUp alice events_addr events.1 without_events
      (some events_db) events_found events_run bob

instance abbrev no_texts : Texts
no_texts = record { document_text = λ b. none; decode_bytes_hex = λ b. none }

abbrev creation : Mutation
creation = record {
  action = 0;
  bodies =
      record { db_address = []; body = some (doc_database_mutation (record { db_desc = [] })) }
      ∷ [];
}

recover_block_state-apply_mutation_example :
    ((apply_mutation create_document_db creation alice 1 1 7 3 [] empty).0
      ≡ (apply_bodies create_document_db creation.bodies alice 1 1 7 3 [] empty).0)
    × (recover_block_state (apply_mutation create_document_db creation alice 1 1 7 3 [] empty).1
        ≡ found_after
            (record { block = 7; order = 3 })
            (apply_bodies create_document_db creation.bodies alice 1 1 7 3 [] empty).0
            (recover_block_state empty))
recover_block_state-apply_mutation_example =
    recover_block_state-apply_mutation memory-IsUp block_codec-IsCodec create_document_db creation
      alice 1 1 7 3 [] empty
