-- ===== src/StateStore/Write.antt =====
-- The methods of StateStore that change the store: each is one transaction.
use rtstore.Base.{ℕ, ◌+◌, ◌%◌, ◌^◌, Option, none, some, [], ◌∷◌, ◌==◌, if◌then◌else◌}
use rtstore.Base.Bytes.{Bytes, be}
use rtstore.Base.Result.{write_store_error, ok, err, ok_or}
use rtstore.Base.Exec.{Exec, pure, raise, query, lift, ◌>>=◌, ◌>>◌}
use rtstore.Engine.{put_cf, Engine, Codec}
use rtstore.Crypto.Address.{Db3Address}
use rtstore.StateStore.{
  Table, account_meta_table, config_meta_table, contract_event_table, StateStore, open_table,
  read_u64,
}

-- The nonce that is accepted after the stored one.
abbrev pub new_nonce : Option ℕ → ℕ
new_nonce none = 1
new_nonce (some v) = (v + 1) % 2 ^ 64

module _ {Db : Type 0} ⦃E : Engine Table Db⦄ where
  abbrev commit : Option Db → Exec (StateStore Db) (Unit {0})
  commit none s = (err write_store_error, s)
  commit (some db) s = (ok tt, record { db = db })

  -- `txn.put(&table, key, value, UPSERT)?; txn.commit()?`
  abbrev pub upsert : Table → Bytes → Bytes → Exec (StateStore Db) (Unit {0})
  upsert table key value s = commit (E.write s.db (put_cf table key value ∷ [])) s

  unfoldable pub store_event_progress : Db3Address → ℕ → Exec (StateStore Db) (Unit {0})
  store_event_progress address block = do
    query (λ s. open_table (E.cf_handle s.db contract_event_table) write_store_error)
    upsert contract_event_table address.bytes (be 8 block)

  unfoldable pub store_node_config :
      {SystemConfig : Type 0} ⦃c : Codec SystemConfig⦄
      → Bytes
      → SystemConfig
      → Exec (StateStore Db) (Unit {0})
  store_node_config ⦃c⦄ key config = do
    query (λ s. open_table (E.cf_handle s.db config_meta_table) write_store_error)
    buf ← lift (ok_or (c.encode config) write_store_error)
    upsert config_meta_table key buf

  unfoldable pub incr_nonce : Db3Address → ℕ → Exec (StateStore Db) ℕ
  incr_nonce id nonce = do
    query (λ s. open_table (E.cf_handle s.db account_meta_table) write_store_error)
    value ← query (λ s. ok_or (E.get_cf s.db account_meta_table id.bytes) write_store_error)
    stored ← lift (read_u64 value write_store_error)
    if new_nonce stored == nonce
        then (upsert account_meta_table id.bytes (be 8 (new_nonce stored))
            >> pure (new_nonce stored))
        else raise write_store_error
