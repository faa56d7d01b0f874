-- ===== src/System/Setup.antt =====
-- SystemImpl: the setup of a node by its administrator.
use rtstore.Base.{
  ℕ, suc, ◌*◌, Bool, true, false, ◌||◌, not, Option, none, some, [], ◌∷◌, ◌==◌, if◌then◌else◌,
}
use rtstore.Base.Bytes.{Bytes, bytes_eq}
use rtstore.Base.Text.{codes}
use rtstore.Base.Numerals.{parse_u64}
use rtstore.Base.Result.{store_event_error, Result, ok, err, ok_or}
use rtstore.Base.Answer.{
  invalid_argument, permission_denied, internal, Answer, answer, status, or_status, require, ◌>>=◌,
  ◌>>◌,
}
use rtstore.Engine.{Engine, Codec}
use rtstore.StateStore
use rtstore.Requests.{TypedData, Signing, verify_setup}
use rtstore.Requests.Fields.{get_str_field, get_u32_field, get_u64_field}
use rtstore.System.{SystemRole, SystemConfig, SystemStore, get_config, update_config}

-- The sending end of a channel: what is in it, and whether anyone listens.
pub record Sender : Type 0 where
  pub sent : ℕ
  pub is_open : Bool

pub record SystemImpl (Fs Sdb : Type 0) : Type 0 where
  pub system_store : SystemStore Fs Sdb
  pub role : SystemRole
  pub public_node_url : Bytes
  pub admin_addr : Bytes
  pub sender : Sender

pub record SetupRequest : Type 0 where
  pub signature : Bytes
  pub payload : Bytes

pub record SetupResponse : Type 0 where
  pub code : ℕ
  pub msg : Bytes

abbrev pub is_empty : Bytes → Bool
is_empty [] = true
is_empty (c ∷ cs) = false

abbrev pub starts_with : Bytes → Bytes → Bool
starts_with [] text = true
starts_with (p ∷ ps) [] = false
starts_with (p ∷ ps) (c ∷ cs) = if p == c then starts_with ps cs else false

-- What a node that is set up for the first time stores: the checks of the request in their order.
unfoldable pub requested_config : TypedData → Answer SystemConfig
unfolding get_str_field get_u32_field get_u64_field
requested_config typed = do
  let chain_id = get_u32_field typed (codes "chainId") 0
  require (not (chain_id == 0)) invalid_argument
  let contract_addr = get_str_field typed (codes "contractAddr") []
  require (not (is_empty contract_addr)) invalid_argument
  let evm_node_rpc = get_str_field typed (codes "evmNodeUrl") []
  require (not (is_empty evm_node_rpc)) invalid_argument
  require (starts_with (codes "wss") evm_node_rpc || starts_with (codes "ws") evm_node_rpc)
      invalid_argument
  let ar_node_url = get_str_field typed (codes "arNodeUrl") []
  require (not (is_empty ar_node_url)) invalid_argument
  network ←
      or_status
        (ok_or (parse_u64 (get_str_field typed (codes "networkId") (codes "0"))) store_event_error)
        invalid_argument
  require (not (network == 0)) invalid_argument
  answer (record {
    min_rollup_size = get_u64_field typed (codes "minRollupSize") (1024 * 1024);
    rollup_interval = get_u64_field typed (codes "rollupInterval") (10 * 60 * 1000);
    network_id = network;
    evm_node_url = evm_node_rpc;
    ar_node_url = ar_node_url;
    chain_id = chain_id;
    rollup_max_interval = get_u64_field typed (codes "rollupMaxInterval") (24 * 60 * 60 * 1000);
    contract_addr = contract_addr;
    min_gc_offset = get_u64_field typed (codes "minGcOffset") (10 * 24 * 60 * 1000);
  })

-- If the node has been set up, its network, chain and contract stay.
unfoldable pub config_over : Option SystemConfig → SystemConfig → SystemConfig
config_over none c = c
config_over (some old) c = record c {
  network_id = old.network_id;
  chain_id = old.chain_id;
  contract_addr = old.contract_addr;
}

-- Only the administrator can ask for a setup.
unfoldable pub setup_request : ⦃g : Signing⦄ → Bytes → SetupRequest → Answer SystemConfig
unfolding verify_setup requested_config
setup_request admin r = do
  (address, typed) ← or_status (verify_setup r.payload r.signature) invalid_argument
  require (bytes_eq admin address) permission_denied
  requested_config typed

-- A message that nobody listens to is only logged.
unfoldable pub send : Sender → Sender
send c = if c.is_open then record c { sent = suc c.sent } else c

abbrev pub setup_done : SetupResponse
setup_done = record { code = 0; msg = codes "ok" }

module _ {Fs Sdb : Type 0} where
  -- `SystemImpl::new`; `parsed` is the administrator's address, parsed by ethers.
  unfoldable pub new :
      Sender → SystemStore Fs Sdb → SystemRole → Bytes → Option Bytes → Result (SystemImpl Fs Sdb)
  new sender store role url none = err store_event_error
  new sender store role url (some address) = ok (record {
    system_store = store;
    role = role;
    public_node_url = url;
    admin_addr = address;
    sender = sender;
  })

  module _ ⦃E : Engine StateStore.Table Sdb⦄ ⦃c : Codec SystemConfig⦄ where
    abbrev pub after_update :
        Result (Unit {0}) × SystemStore Fs Sdb
        → SystemImpl Fs Sdb
        → Answer SetupResponse × SystemImpl Fs Sdb
    after_update (err e, store) n = (status internal, record n { system_store = store })
    after_update (ok u, store) n =
        (answer setup_done, record n { system_store = store; sender = send n.sender })

    abbrev pub with_old :
        SystemConfig
        → Answer (Option SystemConfig)
        → SystemImpl Fs Sdb
        → Answer SetupResponse × SystemImpl Fs Sdb
    with_old requested (status st) n = (status st, n)
    with_old requested (answer old) n =
        after_update (update_config n.role (config_over old requested) n.system_store) n

    abbrev pub with_request :
        Answer SystemConfig → SystemImpl Fs Sdb → Answer SetupResponse × SystemImpl Fs Sdb
    with_request (status st) n = (status st, n)
    with_request (answer requested) n =
        with_old requested (or_status (get_config n.role n.system_store) internal) n

    unfoldable pub setup :
        ⦃g : Signing⦄ → SetupRequest → SystemImpl Fs Sdb → Answer SetupResponse × SystemImpl Fs Sdb
    unfolding setup_request get_config update_config config_over send
    setup r n = with_request (setup_request n.admin_addr r) n
