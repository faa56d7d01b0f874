-- ===== src/System/Network.antt =====
-- What a setup makes of the configuration.
use rtstore.Base.{◌≡◌, refl, ◌<◌, ◌⊎◌, inl, inr, true, false, Option, none, some, [], arith}
use rtstore.Base.Bytes.{Bytes, bytes_eq}
use rtstore.Base.Bytes.Order.{bytes_eq_refl, eq_of_bytes_eq}
use rtstore.Base.Text.{codes}
use rtstore.Base.Result.{ok, Result-cases}
use rtstore.Base.Answer.{Status, Answer, answer, status, Answer-cases}
use rtstore.Engine.{Engine, IsUp, Codec, IsCodec}
use rtstore.StateStore
use rtstore.StateStore.{table_eq}
use rtstore.Requests.{TypedData, Signing, verify_setup}
use rtstore.Requests.Fields.{get_str_field}
use rtstore.System.{SystemRole, get_name, SystemConfig, get_config}
use rtstore.System.Config.{after_config, update_config-succeeds, get_config-after_config}
use rtstore.System.Setup.{
  SystemImpl, SetupRequest, SetupResponse, setup_done, is_empty, starts_with, send,
  requested_config, config_over, setup_request, setup,
}

-- What is checked of a configuration before it is stored.
pub record IsValid (c : SystemConfig) : Type 0 where
  pub has_chain : 0 < c.chain_id
  pub has_network : 0 < c.network_id
  pub has_contract : is_empty c.contract_addr ≡ false
  pub is_web_socket : starts_with (codes "ws") c.evm_node_url ≡ true
  pub has_ar_node : is_empty c.ar_node_url ≡ false

-- The part of a configuration that never changes.
pub record SameNetwork (old new : SystemConfig) : Type 0 where
  pub network : new.network_id ≡ old.network_id
  pub chain : new.chain_id ≡ old.chain_id
  pub contract : new.contract_addr ≡ old.contract_addr

abbrev pub KeepsNetwork : Option SystemConfig → SystemConfig → Type 0
KeepsNetwork none new = Unit
KeepsNetwork (some old) new = SameNetwork old new

abbrev pub IsValidIfThere : Option SystemConfig → Type 0
IsValidIfThere none = Unit
IsValidIfThere (some c) = IsValid c

starts_with_ws :
    (t : Bytes) → starts_with (codes "wss") t ≡ true → starts_with (codes "ws") t ≡ true
starts_with_ws t h = ground arith

requested_config-IsValid :
    (t : TypedData) {c : SystemConfig} → requested_config t ≡ answer c → IsValid c
unfolding requested_config
requested_config-IsValid t {c} h =
    let url = get_str_field t (codes "evmNodeUrl") [] in ground (arith, starts_with_ws url)

config_over-IsValid :
    (old : Option SystemConfig) (c : SystemConfig)
    → IsValidIfThere old
    → IsValid c
    → IsValid (config_over old c)
unfolding config_over
config_over-IsValid none c o v = v
config_over-IsValid (some old) c o v = ground arith

config_over-KeepsNetwork :
    (old : Option SystemConfig) (c : SystemConfig) → KeepsNetwork old (config_over old c)
unfolding config_over
config_over-KeepsNetwork none c = tt
config_over-KeepsNetwork (some old) c = record { network = refl; chain = refl; contract = refl }

setup_request-IsSigned :
    ⦃g : Signing⦄ (admin : Bytes) (r : SetupRequest) {c : SystemConfig}
    → setup_request admin r ≡ answer c
    → (typed : TypedData) × (verify_setup r.payload r.signature ≡ ok (admin, typed))
      × (requested_config typed ≡ answer c)
unfolding setup_request
setup_request-IsSigned admin r h = elim (Result-cases (verify_setup r.payload r.signature)) [
  | inl (e, bad) ↦ absurd (ground arith)
  | inr ((address, typed), good) ↦
      (typed, ground (arith, eq_of_bytes_eq admin address), ground arith)
]

module _ {Fs Sdb : Type 0} ⦃E : Engine StateStore.Table Sdb⦄ ⦃c : Codec SystemConfig⦄
    ⦃g : Signing⦄ where
  -- The request was refused, and nothing changed.
  abbrev pub IsRefused : SystemImpl Fs Sdb → Answer SetupResponse × SystemImpl Fs Sdb → Type 0
  IsRefused n (reply, n') = ((st : Status) × (reply ≡ status st)) × (n' ≡ n)

  -- The administrator signed the request, and a valid configuration of the same network is stored for
  -- the node's role and for no other; whoever listens is told.
  pub record IsSetUp (r : SetupRequest) (n : SystemImpl Fs Sdb) (old : Option SystemConfig)
      (reply : Answer SetupResponse) (n' : SystemImpl Fs Sdb) : Type 0 where
    pub config : SystemConfig
    pub typed : TypedData
    pub done : reply ≡ answer setup_done
    pub signed : verify_setup r.payload r.signature ≡ ok (n.admin_addr, typed)
    pub stored : get_config n.role n'.system_store ≡ ok (some config)
    pub valid : IsValid config
    pub network_kept : KeepsNetwork old config
    pub others_kept :
        (role : SystemRole)
        → bytes_eq (get_name n.role) (get_name role) ≡ false
        → get_config role n'.system_store ≡ get_config role n.system_store
    pub told : n'.sender ≡ send n.sender
    pub same_role : n'.role ≡ n.role
    pub same_admin : n'.admin_addr ≡ n.admin_addr

  module _ (up : IsUp E) (law : IsCodec c) where
    abbrev set_up : SystemConfig → SystemImpl Fs Sdb → SystemImpl Fs Sdb
    set_up config n = record n {
      system_store = after_config up law n.role config n.system_store;
      sender = send n.sender;
    }

    setup-accepts :
        (r : SetupRequest) (n : SystemImpl Fs Sdb) (old : Option SystemConfig)
        (requested : SystemConfig)
        → get_config n.role n.system_store ≡ ok old
        → setup_request n.admin_addr r ≡ answer requested
        → setup r n ≡ (answer setup_done, set_up (config_over old requested) n)
    unfolding setup
    setup-accepts r n old requested before asked =
        ground
          (arith, update_config-succeeds up law n.role (config_over old requested) n.system_store)

    setup-refuses :
        (r : SetupRequest) (n : SystemImpl Fs Sdb) (st : Status)
        → setup_request n.admin_addr r ≡ status st
        → setup r n ≡ (status st, n)
    unfolding setup
    setup-refuses r n st refused = ground arith

    -- On an engine that is up, with a configuration that reads and is valid if it is there: a setup is
    -- refused and changes nothing, or it was signed by the administrator and stores a valid
    -- configuration with the network, chain and contract of the one before, for its role only.
    pub setup_outcome :
        (r : SetupRequest) (n : SystemImpl Fs Sdb) (old : Option SystemConfig)
        → get_config n.role n.system_store ≡ ok old
        → IsValidIfThere old
        → IsRefused n (setup r n) ⊎ IsSetUp r n old (setup r n).0 (setup r n).1
    setup_outcome r n old before valid = elim (Answer-cases (setup_request n.admin_addr r)) [
      | inl (st, refused) ↦ inl (rw (setup-refuses r n st refused) ((st, refl), refl))
      | inr (requested, asked) ↦
          let config = config_over old requested in
          let (typed, signed, checked) = setup_request-IsSigned n.admin_addr r asked in
          inr (
            rw (setup-accepts r n old requested before asked) (record {
              config = config;
              typed = typed;
              done = refl;
              signed = signed;
              stored =
                  rw (get_config-after_config up law n.role n.role config n.system_store)
                    (rw (bytes_eq_refl (get_name n.role)) refl);
              valid =
                  config_over-IsValid old requested valid (requested_config-IsValid typed checked);
              network_kept = config_over-KeepsNetwork old requested;
              others_kept = λ role apart.
                  rw (get_config-after_config up law n.role role config n.system_store)
                    (rw apart refl);
              told = refl;
              same_role = refl;
              same_admin = refl;
            }))
    ]
