-- ===== src/System.antt =====
-- SystemStore, of src/storage/src/system_store.rs, and SystemImpl, of src/node/src/system_impl.rs: the
-- wallets of the node, and its setup by the administrator. The wallets of Ethereum and Arweave are
-- the interface `Wallets`; what is drawn at random is an argument.
pub mod Wallet
pub mod Setup
pub mod Status
pub mod Config
pub mod Network
pub mod Sequences
pub mod Made
pub mod Stable
pub mod Frames
mod Tests
use rtstore.Base.{ℕ, Option}
use rtstore.Base.Bytes.{Bytes}
use rtstore.Base.Text.{codes}
use rtstore.Base.Result.{Result}
use rtstore.Base.Exec.{Exec}
use rtstore.Engine.{Engine, Codec}
use rtstore.StateStore
use rtstore.StateStore.{StateStore, get_node_config}
use rtstore.StateStore.Write.{store_node_config}

pub data SystemRole : Type 0 where
  data_rollup_node data_index_node : SystemRole

unfoldable pub get_name : SystemRole → Bytes
get_name data_rollup_node = codes "storage"
get_name data_index_node = codes "index"

-- `SystemConfig`, of db3_base.proto.
pub record SystemConfig : Type 0 where
  pub min_rollup_size : ℕ
  pub rollup_interval : ℕ
  pub network_id : ℕ
  pub evm_node_url : Bytes
  pub ar_node_url : Bytes
  pub chain_id : ℕ
  pub rollup_max_interval : ℕ
  pub contract_addr : Bytes
  pub min_gc_offset : ℕ

pub record SystemStoreConfig : Type 0 where
  pub key_root_path : Bytes
  pub evm_wallet_key : Bytes
  pub ar_wallet_key : Bytes

-- The files are those of the machine that the store runs on.
pub record SystemStore (Fs Sdb : Type 0) : Type 0 where
  pub config : SystemStoreConfig
  pub state_store : StateStore Sdb
  pub files : Fs

-- Methods of what the store owns.
abbrev pub on_state : {Fs Sdb A : Type 0} → Exec (StateStore Sdb) A → Exec (SystemStore Fs Sdb) A
on_state m s = let (r, store) = m s.state_store in (r, record s { state_store = store })

abbrev pub on_files : {Fs Sdb A : Type 0} → Exec Fs A → Exec (SystemStore Fs Sdb) A
on_files m s = let (r, fs) = m s.files in (r, record s { files = fs })

module _ {Fs Sdb : Type 0} ⦃E : Engine StateStore.Table Sdb⦄ ⦃c : Codec SystemConfig⦄ where
  unfoldable pub get_config : SystemRole → SystemStore Fs Sdb → Result (Option SystemConfig)
  unfolding get_name get_node_config
  get_config role s = get_node_config (get_name role) s.state_store

  unfoldable pub update_config : SystemRole → SystemConfig → Exec (SystemStore Fs Sdb) (Unit {0})
  unfolding get_name store_node_config
  update_config role config = on_state (store_node_config (get_name role) config)
