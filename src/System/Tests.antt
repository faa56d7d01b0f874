-- ===== src/System/Tests.antt =====
-- The theorems on setups and wallets at work in memory.
use rtstore.Base.{ℕ, ◌*◌, ◌≡◌, refl, ◌⊎◌, true, none, some, List, [], ◌∷◌, arith}
use rtstore.Base.Dict
use rtstore.Base.Dict.{Dict}
use rtstore.Base.Bytes.{Bytes, be, bytes_eq}
use rtstore.Base.Text.{codes}
use rtstore.Base.Numerals.{parse_unsigned}
use rtstore.Base.Result.{ok}
use rtstore.Engine.Entries.{lookup}
use rtstore.Engine.Memory.{Tables, no_rows, run_ops, memory, memory-IsUp}
use rtstore.StateStore
use rtstore.StateStore.{table_eq}
use rtstore.Keys.Memory.{dict_files, dict_files-IsReliable, plain_base64}
use rtstore.Requests.{Value, TypedData, Signing}
use rtstore.System.{SystemConfig, SystemStore, data_rollup_node, get_config}
use rtstore.System.Wallet.{Wallets, get_evm_address}
use rtstore.System.Setup.{SystemImpl, SetupRequest, setup}
use rtstore.System.Network.{IsRefused, IsSetUp, setup_outcome}
use rtstore.System.Sequences.{set_ups, IsOnNetwork, set_ups-IsOnNetwork}
use rtstore.System.Made.{IsWallets}
use rtstore.System.Stable.{
  Call, evm_address, evm_wallet, ar_address, ar_wallet, after_calls, wallet_stays,
}
use rtstore.System.Frames.{flat_config, read_config, config_codec, config_codec-IsCodec}

abbrev admin : Bytes
admin = be 20 7

abbrev text_value : Bytes → Value
text_value t = record { as_str = some t; as_bytes = none }

-- A request for a network and a chain, given by their texts.
abbrev request_for : Bytes → Bytes → TypedData
request_for network chain = record {
  message =
      (codes "chainId", text_value chain)
      ∷ (codes "contractAddr", text_value (codes "0x12"))
      ∷ (codes "evmNodeUrl", text_value (codes "ws://evm"))
      ∷ (codes "arNodeUrl", text_value (codes "ar"))
      ∷ (codes "networkId", text_value network)
      ∷ [];
  types_and_domain = [];
}

-- The payload tells the network, and the signature the signer.
instance abbrev trusting : Signing
trusting = record {
  parse_typed_data = λ payload. some (request_for payload (codes "5"));
  parse_signature = λ sig. some sig;
  recover_typed_data = λ sig typed. some sig;
}

abbrev store : SystemStore (Dict Bytes) (Tables StateStore.Table)
store = record {
  config = record {
    key_root_path = codes "/keys";
    evm_wallet_key = codes "evm";
    ar_wallet_key = codes "ar";
  };
  state_store = record { db = no_rows };
  files = [];
}

abbrev node : SystemImpl (Dict Bytes) (Tables StateStore.Table)
node = record {
  system_store = store;
  role = data_rollup_node;
  public_node_url = codes "http://node";
  admin_addr = admin;
  sender = record { sent = 0; is_open = true };
}

abbrev first_request : SetupRequest
first_request = record { signature = admin; payload = codes "10" }

abbrev second_request : SetupRequest
second_request = record { signature = admin; payload = codes "11" }

setup_outcome_example :
    IsRefused node (setup first_request node)
    ⊎ IsSetUp first_request node none (setup first_request node).0 (setup first_request node).1
unfolding memory-IsUp lookup get_config
setup_outcome_example =
    setup_outcome memory-IsUp config_codec-IsCodec first_request node none refl tt

-- The request of another network is taken, and changes nothing of the network.
abbrev first_config : SystemConfig
first_config = record {
  min_rollup_size = 1024 * 1024;
  rollup_interval = 10 * 60 * 1000;
  network_id = 10;
  evm_node_url = codes "ws://evm";
  ar_node_url = codes "ar";
  chain_id = 5;
  rollup_max_interval = 24 * 60 * 60 * 1000;
  contract_addr = codes "0x12";
  min_gc_offset = 10 * 24 * 60 * 1000;
}

abbrev settled : SystemImpl (Dict Bytes) (Tables StateStore.Table)
settled = (setup first_request node).1

settled-IsOnNetwork : IsOnNetwork first_config settled
unfolding setup memory-IsUp lookup get_config be bytes_eq parse_unsigned run_ops read_config
    flat_config
settled-IsOnNetwork = record {
  config = first_config;
  stored = refl;
  valid = record {
    has_chain = omega arith;
    has_network = omega arith;
    has_contract = refl;
    is_web_socket = refl;
    has_ar_node = refl;
  };
  same = record { network = refl; chain = refl; contract = refl };
}

set_ups-IsOnNetwork_example :
    IsOnNetwork first_config (set_ups (second_request ∷ first_request ∷ []) settled)
set_ups-IsOnNetwork_example =
    set_ups-IsOnNetwork memory-IsUp config_codec-IsCodec (second_request ∷ first_request ∷ [])
      first_config settled settled-IsOnNetwork

-- A wallet is its secret and its chain; its address is the secret.
abbrev plain_wallets : Wallets (Bytes × ℕ) Bytes (Bytes × Bytes)
plain_wallets = record {
  random_wallet = λ seed. (be 32 seed, 1);
  signer_bytes = λ w. w.0;
  from_bytes = λ b. some (b, 1);
  with_chain_id = λ chain w. (w.0, chain);
  address = λ w. w.0;
  random_rsa = λ seed. some (be 32 seed);
  to_pkcs8_der = λ k. some k;
  from_pkcs8_der = λ b. some b;
  wallet_address = λ k. some k;
  parse_url = λ u. some u;
  from_private_key = λ k u. some (k, u);
}

plain_wallets-IsWallets : IsWallets plain_wallets plain_base64
plain_wallets-IsWallets = record {
  decode_encode = λ x. refl;
  restores = λ seed. refl;
  same_address = λ chain w. refl;
}

abbrev calls : List Call
calls = ar_address 4 ∷ evm_wallet 5 80001 ∷ ar_wallet 6 (codes "https://ar") ∷ evm_address 7 ∷ []

wallet_stays_example :
    ((get_evm_address plain_wallets 3 store).0 ≡ ok (be 32 3))
    × ((get_evm_address plain_wallets 8
          (after_calls plain_wallets calls (get_evm_address plain_wallets 3 store).1)).0
        ≡ ok (be 32 3))
unfolding dict_files-IsReliable Dict.get
wallet_stays_example =
    wallet_stays plain_wallets dict_files-IsReliable plain_wallets-IsWallets calls 3 8 store refl
