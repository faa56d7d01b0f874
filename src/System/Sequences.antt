-- ===== src/System/Sequences.antt =====
-- The configuration over many setups, and a node that nobody but its administrator can set up.
use rtstore.Base.{◌≡◌, ◌∙◌, inl, inr, some, List, [], ◌∷◌}
use rtstore.Base.Result.{ok}
use rtstore.Engine.{Engine, IsUp, Codec, IsCodec}
use rtstore.StateStore
use rtstore.StateStore.{table_eq}
use rtstore.Requests.{Signing}
use rtstore.System.{SystemConfig, get_config}
use rtstore.System.Setup.{SystemImpl, SetupRequest, setup}
use rtstore.System.Network.{IsValid, SameNetwork, setup_outcome}

module _ {Fs Sdb : Type 0} ⦃E : Engine StateStore.Table Sdb⦄ ⦃c : Codec SystemConfig⦄
    ⦃g : Signing⦄ where
  -- The node after a list of requests.
  unfoldable pub set_ups : List SetupRequest → SystemImpl Fs Sdb → SystemImpl Fs Sdb
  unfolding setup
  set_ups [] n = n
  set_ups (r ∷ rs) n = set_ups rs (setup r n).1

  -- The node has a valid configuration of this network.
  pub record IsOnNetwork (first : SystemConfig) (n : SystemImpl Fs Sdb) : Type 0 where
    pub config : SystemConfig
    pub stored : get_config n.role n.system_store ≡ ok (some config)
    pub valid : IsValid config
    pub same : SameNetwork first config

  module _ (up : IsUp E) (law : IsCodec c) where
    setup-IsOnNetwork :
        (r : SetupRequest) (first : SystemConfig) (n : SystemImpl Fs Sdb)
        → IsOnNetwork first n
        → IsOnNetwork first (setup r n).1
    setup-IsOnNetwork r first n on =
        elim (setup_outcome up law r n (some on.config) on.stored on.valid) [
          | inl (_, same) ↦ rw same on
          | inr done ↦ record {
            config = done.config;
            stored = rw done.same_role done.stored;
            valid = done.valid;
            same = record {
              network = done.network_kept.network ∙ on.same.network;
              chain = done.network_kept.chain ∙ on.same.chain;
              contract = done.network_kept.contract ∙ on.same.contract;
            };
          }
        ]

    -- On an engine that is up, a node that is on a network stays on it whatever setups are asked for:
    -- its configuration is always there and valid, with the same network, chain and contract.
    pub set_ups-IsOnNetwork :
        (rs : List SetupRequest) (first : SystemConfig) (n : SystemImpl Fs Sdb)
        → IsOnNetwork first n
        → IsOnNetwork first (set_ups rs n)
    unfolding set_ups
    set_ups-IsOnNetwork [] first n on = on
    set_ups-IsOnNetwork (r ∷ rs) first n on =
        set_ups-IsOnNetwork rs first (setup r n).1 (setup-IsOnNetwork r first n on)
