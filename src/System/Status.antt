-- ===== src/System/Status.antt =====
-- The status of a node: its wallets, its configuration and its administrator.
use rtstore.Base.{ℕ, Bool, true, false, not, Option, none, some, []}
use rtstore.Base.Bytes.{Bytes}
use rtstore.Base.Result.{Result, ok, err}
use rtstore.Base.Answer.{internal, Answer, answer, status}
use rtstore.Engine.{Engine, Codec}
use rtstore.Crypto.{Hex, to_hex_text}
use rtstore.Crypto.Address.{Db3Address, try_from, to_hex}
use rtstore.StateStore
use rtstore.Keys.{Files, Base64}
use rtstore.System.{SystemConfig, SystemStore, get_config}
use rtstore.System.Wallet.{Wallets, get_evm_address, get_ar_address}
use rtstore.System.Setup.{SystemImpl}

-- `Version` and `SystemStatus`, of db3_base.proto.
pub record Version : Type 0 where
  pub build_time : Bytes
  pub git_hash : Bytes
  pub version_label : Bytes

pub record SystemStatus : Type 0 where
  pub evm_account : Bytes
  pub evm_balance : Bytes
  pub ar_account : Bytes
  pub ar_balance : Bytes
  pub node_url : Bytes
  pub config : Option SystemConfig
  pub has_inited : Bool
  pub admin_addr : Bytes
  pub version : Version

abbrev is_none : {A : Type 0} → Option A → Bool
is_none none = true
is_none (some a) = false

module _ {Fs Sdb Wallet Rsa Arweave : Type 0} ⦃E : Engine StateStore.Table Sdb⦄
    ⦃c : Codec SystemConfig⦄ (w : Wallets Wallet Rsa Arweave) ⦃F : Files Fs⦄ ⦃b : Base64⦄ ⦃h : Hex⦄
    (seed seed' : ℕ) (version : Version) where
  abbrev status_of :
      Option SystemConfig
      → Bytes
      → Bytes
      → Result Db3Address
      → SystemImpl Fs Sdb
      → Answer SystemStatus
  status_of config evm ar (err e) n = status internal
  status_of config evm ar (ok admin) n = answer (record {
    evm_account = to_hex_text evm;
    evm_balance = [];
    ar_account = ar;
    ar_balance = [];
    node_url = n.public_node_url;
    config = config;
    has_inited = not (is_none config);
    admin_addr = to_hex admin;
    version = version;
  })

  -- The wallets are made if they are not there.
  abbrev with_ar :
      Option SystemConfig
      → Bytes
      → Result Bytes × SystemStore Fs Sdb
      → SystemImpl Fs Sdb
      → Answer SystemStatus × SystemImpl Fs Sdb
  with_ar config evm (err e, store) n = (status internal, record n { system_store = store })
  with_ar config evm (ok ar, store) n =
      (status_of config evm ar (try_from n.admin_addr) n, record n { system_store = store })

  abbrev with_evm :
      Option SystemConfig
      → Result Bytes × SystemStore Fs Sdb
      → SystemImpl Fs Sdb
      → Answer SystemStatus × SystemImpl Fs Sdb
  with_evm config (err e, store) n = (status internal, record n { system_store = store })
  with_evm config (ok evm, store) n = with_ar config evm (get_ar_address w seed' store) n

  abbrev with_config :
      Result (Option SystemConfig) → SystemImpl Fs Sdb → Answer SystemStatus × SystemImpl Fs Sdb
  with_config (err e) n = (status internal, n)
  with_config (ok config) n = with_evm config (get_evm_address w seed n.system_store) n

  unfoldable pub get_system_status : SystemImpl Fs Sdb → Answer SystemStatus × SystemImpl Fs Sdb
  unfolding get_config get_evm_address get_ar_address try_from to_hex
  get_system_status n = with_config (get_config n.role n.system_store) n
