-- ===== src/StateStore.antt =====
-- StateStore, of src/storage/src/state_store.rs: nonces of accounts, progress of contract events, and
-- the node's configuration. A transaction of libmdbx is one batch, and nothing if it is dropped.
pub mod Write
pub mod Nonces
mod Tests
use rtstore.Base.{
  ℕ, ◌+◌, ◌%◌, ◌^◌, Bool, true, false, ◌≡◌, Option, none, some, [], ◌∷◌, arith, length, Eq, ◌==◌,
  ◌↔◌, if◌then◌else◌,
}
use rtstore.Base.Bytes.{Bytes, be, of_be}
use rtstore.Base.Result.{
  Db3Error, read_store_error, write_store_error, Result, ok, err, ok_or, ◌>>=◌,
}
use rtstore.Engine.{Engine, Codec}
use rtstore.Crypto.Address.{Db3Address}

pub data Table : Type 0 where
  account_meta_table config_meta_table contract_event_table : Table

abbrev pub table_code : Table → ℕ
table_code account_meta_table = 0
table_code config_meta_table = 1
table_code contract_event_table = 2

pub table_code_iff : (a b : Table) → ((table_code a == table_code b) ≡ true) ↔ (a ≡ b)
table_code_iff a b = ground arith

instance abbrev pub table_eq : Eq Table
table_eq = record { beq = λ a b. table_code a == table_code b; beq_iff = table_code_iff }

pub record StateStore (Db : Type 0) : Type 0 where
  pub db : Db

-- `txn.open_table(name)?`
abbrev pub open_table : Bool → Db3Error → Result (Unit {0})
open_table true e = ok tt
open_table false e = err e

-- `txn.get::<[u8; 8]>` and `u64::from_be_bytes`: the engine refuses a value of another length.
abbrev pub read_u64 : Option Bytes → Db3Error → Result (Option ℕ)
read_u64 none e = ok none
read_u64 (some v) e = if length v == 8 then ok (some (of_be v)) else err e

-- `if let Ok(Some(v)) = … { Ok(v) } else { Ok(0) }`
abbrev pub nonce_or_zero : Result (Option ℕ) → Result ℕ
nonce_or_zero (ok (some v)) = ok v
nonce_or_zero _ = ok 0

-- A value that does not decode is an error.
abbrev decode_config :
    {SystemConfig : Type 0} ⦃c : Codec SystemConfig⦄ → Option Bytes → Result (Option SystemConfig)
decode_config none = ok none
decode_config ⦃c⦄ (some v) = do config ← ok_or (c.decode v) read_store_error; ok (some config)

module _ {Db : Type 0} ⦃E : Engine Table Db⦄ where
  unfoldable pub get_u64_value : Bytes → Table → StateStore Db → Result (Option ℕ)
  get_u64_value key table s = do
    _ ← open_table (E.cf_handle s.db table) read_store_error
    value ← ok_or (E.get_cf s.db table key) read_store_error
    read_u64 value read_store_error

  unfoldable pub get_event_progress : Db3Address → StateStore Db → Result (Option ℕ)
  unfolding get_u64_value
  get_event_progress address = get_u64_value address.bytes contract_event_table

  unfoldable pub get_nonce : Db3Address → StateStore Db → Result ℕ
  unfolding get_u64_value
  get_nonce id s = nonce_or_zero (get_u64_value id.bytes account_meta_table s)

  unfoldable pub get_node_config :
      {SystemConfig : Type 0} ⦃c : Codec SystemConfig⦄
      → Bytes
      → StateStore Db
      → Result (Option SystemConfig)
  get_node_config key s = do
    _ ← open_table (E.cf_handle s.db config_meta_table) read_store_error
    value ← ok_or (E.get_cf s.db config_meta_table key) write_store_error
    decode_config value
