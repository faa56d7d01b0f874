-- ===== src/DbStore/Fixtures.antt =====
-- A database with a collection on an engine in memory, and a document store that answers every call,
-- for the tests.
use rtstore.Base.{some, ◌≡◌, refl, ℕ, suc, true, none, [], ◌∷◌, arith}
use rtstore.Base.Bytes.{Bytes, be, bytes_eq}
use rtstore.Base.Result.{ok}
use rtstore.Engine.Entries.{lookup}
use rtstore.Engine.Memory.{Tables, no_rows, memory, run_ops}
use rtstore.Crypto.HexText.{hex_text, toy_digest}
use rtstore.Crypto.Address.{Db3Address, IsAddress}
use rtstore.Crypto.DbId.{DbId}
use rtstore.Proto.Frames.{
  collection_codec, database_codec, block_codec, collection_codec-IsCodec, database_codec-IsCodec,
  block_codec-IsCodec,
}
use rtstore.Base.Dict
use rtstore.Crypto.Address.{to_hex}
use rtstore.DbStore.{DatabaseState, Cf, cf_eq, DatabaseState, DbStore, DocStore}
use rtstore.DbStore
use rtstore.DbStore.Collections.{create_collection}
use rtstore.DbStore.Databases.{create_predefined_doc_database}

-- It counts its calls.
instance abbrev pub counting_docs : DocStore ℕ
counting_docs = record {
  create_database = λ a n. (ok tt, suc n);
  add_index = λ a c is n. (ok tt, suc n);
  add_str_docs = λ a c docs ids n. (ok tt, suc n);
  patch_docs = λ a c docs ids n. (ok tt, suc n);
  delete_docs = λ a c ids n. (ok tt, suc n);
  execute_query = λ n a c q. ok ([], 0);
  get_doc = λ n a c id. ok none;
}

abbrev pub alice : Db3Address
alice = record { bytes = be 20 1 }

abbrev pub bob : Db3Address
bob = record { bytes = be 20 2 }

pub bob-IsAddress : IsAddress bob
unfolding be
bob-IsAddress = record { size = refl; are_bytes = ground arith }

abbrev pub users : Bytes
users = b'u' ∷ b's' ∷ b'e' ∷ b'r' ∷ []

abbrev pub Store : Type 0
Store = DbStore (Tables Cf) ℕ

abbrev pub empty : Store
empty = DbStore.new (record { enable_doc_store = true; doc_start_id = 1000 }) no_rows 0

-- The database at bob's address is alice's.
abbrev pub db : DbId
db = record { addr = bob }

unfoldable pub with_db : Store
unfolding create_predefined_doc_database
with_db = (create_predefined_doc_database alice db [] 1 0 empty).1

unfoldable pub with_users : Store
unfolding create_collection with_db
with_users =
    (create_collection alice bob (record { index_fields = []; collection_name = users }) with_db).1

pub creates_run : create_predefined_doc_database alice db [] 1 0 empty ≡ (ok tt, with_db)
unfolding create_predefined_doc_database with_db lookup rtstore.DbStore.new
creates_run = refl

pub users_run :
    create_collection alice bob (record { index_fields = []; collection_name = users }) with_db
    ≡ (ok tt, with_users)
unfolding create_collection with_users with_db lookup rtstore.DbStore.new run_ops bytes_eq be
    rtstore.Proto.Frames.read_database rtstore.Proto.Frames.flat_database
users_run = refl

abbrev pub bob_state : DatabaseState
bob_state = record {
  doc_order = 0;
  collection_state = (users, record { total_doc_count = 0 }) ∷ [];
  total_doc_count = 0;
}

pub bob_has_state : Dict.get (to_hex bob) with_users.db_state ≡ some bob_state
unfolding with_users with_db lookup rtstore.DbStore.new run_ops bytes_eq be Dict.get
    rtstore.Crypto.HexText.encode rtstore.Proto.Frames.read_database
    rtstore.Proto.Frames.flat_database
bob_has_state = refl
