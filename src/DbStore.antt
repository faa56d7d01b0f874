-- ===== src/DbStore.antt =====
-- DBStoreV2, of src/storage/src/db_store_v2.rs: the databases, their collections, and who owns which
-- document. Its state and what it calls. `db_state` is the concurrent map of the states of the
-- databases; a method is one step. The documents themselves are in the store behind `DocStore`.
pub mod State
pub mod Read
pub mod Lookup
pub mod Write
pub mod Docs
pub mod Collections
pub mod Databases
pub mod Decode
pub mod Bodies
pub mod Apply
pub mod Recovery
pub mod Persist
pub mod Owners
pub mod Ownership
pub mod Ids
pub mod Found
pub mod Indexes
pub mod Created
pub mod Deleted
pub mod Keeps
pub mod Numbered
pub mod Flushed
pub mod Restored
mod Fixtures
mod Tests
mod DatabaseTests
mod RestartTests
use rtstore.Base.{ℕ, ◌≡◌, Bool, true, Option, List, [], ◌∷◌, arith, Eq, ◌==◌, ◌↔◌}
use rtstore.Base.Bytes.{Bytes}
use rtstore.Base.Dict.{Dict}
use rtstore.Base.Result.{Result}
use rtstore.Base.Exec.{Exec}
use rtstore.Crypto.Address.{Db3Address}
use rtstore.Proto.Database.{Index, Query}

-- The column families; the first six are named by the configuration.
pub data Cf : Type 0 where
  db_store_cf doc_store_cf collection_store_cf index_store_cf doc_owner_store_cf : Cf
  db_owner_store_cf state_cf block_state_cf : Cf

abbrev pub cf_code : Cf → ℕ
cf_code db_store_cf = 0
cf_code doc_store_cf = 1
cf_code collection_store_cf = 2
cf_code index_store_cf = 3
cf_code doc_owner_store_cf = 4
cf_code db_owner_store_cf = 5
cf_code state_cf = 6
cf_code block_state_cf = 7

pub cf_code_iff : (a b : Cf) → ((cf_code a == cf_code b) ≡ true) ↔ (a ≡ b)
cf_code_iff a b = ground arith

instance abbrev pub cf_eq : Eq Cf
cf_eq = record { beq = λ a b. cf_code a == cf_code b; beq_iff = cf_code_iff }

pub record CollectionState : Type 0 where
  pub total_doc_count : ℕ

-- `doc_order` is an `i64`.
pub record DatabaseState : Type 0 where
  pub doc_order : ℕ
  pub collection_state : Dict CollectionState
  pub total_doc_count : ℕ

-- `doc_start_id` is an `i64`.
pub record DbStoreConfig : Type 0 where
  pub enable_doc_store : Bool
  pub doc_start_id : ℕ

pub record DbStore (Db Docs : Type 0) : Type 0 where
  pub config : DbStoreConfig
  pub se : Db
  pub doc_store : Docs
  pub db_state : Dict DatabaseState

-- `DBStoreV2::new`, once the two stores are open.
unfoldable pub new : {Db Docs : Type 0} → DbStoreConfig → Db → Docs → DbStore Db Docs
new config se doc_store = record { config = config; se = se; doc_store = doc_store; db_state = [] }

-- The calls of the document store (ejdb), which may change it.
pub record DocStore (Docs : Type 0) : Type 0 where
  pub create_database : Db3Address → Exec Docs (Unit {0})
  pub add_index : Db3Address → Bytes → List Index → Exec Docs (Unit {0})
  pub add_str_docs : Db3Address → Bytes → List Bytes → List ℕ → Exec Docs (Unit {0})
  pub patch_docs : Db3Address → Bytes → List Bytes → List ℕ → Exec Docs (Unit {0})
  pub delete_docs : Db3Address → Bytes → List ℕ → Exec Docs (Unit {0})
  pub execute_query : Docs → Db3Address → Bytes → Query → Result (List (ℕ × Bytes) × ℕ)
  pub get_doc : Docs → Db3Address → Bytes → ℕ → Result (Option Bytes)

-- Texts that other packages make: the text of a document in BSON (`bytes_to_bson_document` and
-- `to_string`), and the bytes of an address in hex digits (`decode_bytes_hex`).
pub record Texts : Type 0 where
  pub document_text : Bytes → Option Bytes
  pub decode_bytes_hex : Bytes → Option Db3Address

-- "BLOCK_STATE_KEY"
abbrev pub block_state_key : Bytes
block_state_key =
    b'B' ∷ b'L' ∷ b'O' ∷ b'C' ∷ b'K' ∷ b'_' ∷ b'S' ∷ b'T' ∷ b'A' ∷ b'T' ∷ b'E' ∷ b'_' ∷ b'K' ∷ b'E'
    ∷ b'Y' ∷ []
