-- ===== src/MutationStore.antt =====
-- MutationStore, of src/storage/src/mutation_store.rs: its state and how it opens.
-- `se` is the engine's database. The two mutexes and the atomic counters are fields: a method is one
-- step, and a lock is never poisoned. `U256` costs are numbers.
pub mod Read
pub mod Write
pub mod Mutations
pub mod Numbering
pub mod Restart
pub mod Keys
pub mod RoundTrip
pub mod Range
pub mod Gc
pub mod Scan
pub mod Stats
mod Tests
use rtstore.Base.{true, ◌++◌, [], ◌∷◌, ℕ, ◌+◌, ◌%◌, ◌^◌, ◌≡◌, refl, Bool, arith, Eq, ◌==◌, ◌↔◌}
use rtstore.Base.Bytes.{Bytes, be}
pub use rtstore.Base.Words.{add_u64, add_u32}

-- The column families, by the field of the configuration that names them.
pub data Cf : Type 0 where
  block_store tx_store rollup_store gc_store block_state state : Cf

abbrev pub cf_code : Cf → ℕ
cf_code block_store = 0
cf_code tx_store = 1
cf_code rollup_store = 2
cf_code gc_store = 3
cf_code block_state = 4
cf_code state = 5

pub cf_code_iff : (a b : Cf) → ((cf_code a == cf_code b) ≡ true) ↔ (a ≡ b)
cf_code_iff a b = ground arith

instance abbrev pub cf_eq : Eq Cf
cf_eq = record { beq = λ a b. cf_code a == cf_code b; beq_iff = cf_code_iff }

pub record BlockState : Type 0 where
  pub block : ℕ
  pub order : ℕ

pub record MutationCost : Type 0 where
  pub rollup_ar_cost : ℕ
  pub rollup_evm_cost : ℕ

pub record MutationStore (Db : Type 0) : Type 0 where
  pub scan_max_limit : ℕ
  pub se : Db
  pub blocks : BlockState
  pub mutation_count : ℕ
  pub total_mutation_bytes : ℕ
  pub total_rollup_bytes : ℕ
  pub gc_count : ℕ
  pub rollup_count : ℕ
  pub total_gc_bytes : ℕ
  pub rollup_cost : MutationCost
  pub total_rollup_raw_bytes : ℕ
  pub total_rollup_mutation_count : ℕ

-- `MutationStore::new`, once the database is open.
unfoldable pub new : {Db : Type 0} → ℕ → Db → MutationStore Db
new scan_max_limit se = record {
  scan_max_limit = scan_max_limit;
  se = se;
  blocks = record { block = 0; order = 0 };
  mutation_count = 0;
  total_mutation_bytes = 0;
  total_rollup_bytes = 0;
  gc_count = 0;
  rollup_count = 0;
  total_gc_bytes = 0;
  rollup_cost = record { rollup_ar_cost = 0; rollup_evm_cost = 0 };
  total_rollup_raw_bytes = 0;
  total_rollup_mutation_count = 0;
}

-- The key of a mutation's header: block and order, big endian.
unfoldable pub header_key : ℕ → ℕ → Bytes
header_key block order = be 8 block ++ be 4 order

-- "block_key"
abbrev pub block_key : Bytes
block_key = b'b' ∷ b'l' ∷ b'o' ∷ b'c' ∷ b'k' ∷ b'_' ∷ b'k' ∷ b'e' ∷ b'y' ∷ []
