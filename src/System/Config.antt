-- ===== src/System/Config.antt =====
-- The configuration of a node in the state store, on an engine that is up.
use rtstore.Base.{◌≡◌, some, [], ◌∷◌, arith, if◌then◌else◌}
use rtstore.Base.Bytes.{bytes_eq}
use rtstore.Base.Result.{ok}
use rtstore.Engine.{put_cf, Engine, IsUp, Codec, IsCodec}
use rtstore.StateStore
use rtstore.StateStore.{table_eq, config_meta_table, StateStore, get_node_config}
use rtstore.StateStore.Write.{store_node_config}
use rtstore.System.{SystemRole, get_name, SystemConfig, SystemStore, get_config, update_config}

module _ {Fs Sdb : Type 0} ⦃E : Engine StateStore.Table Sdb⦄ ⦃c : Codec SystemConfig⦄ (up : IsUp E)
    (law : IsCodec c) where
  abbrev pub after_config : SystemRole → SystemConfig → SystemStore Fs Sdb → SystemStore Fs Sdb
  after_config role config s = record s {
    state_store = record {
      db =
          up.applied s.state_store.db
            (put_cf config_meta_table (get_name role) (law.encoded config) ∷ []);
    };
  }

  pub update_config-succeeds :
      (role : SystemRole) (config : SystemConfig) (s : SystemStore Fs Sdb)
      → update_config role config s ≡ (ok tt, after_config role config s)
  unfolding update_config store_node_config
  update_config-succeeds role config s = ground (
    arith,
    up.open_cf s.state_store.db config_meta_table,
    law.encodes config,
    up.writes s.state_store.db (put_cf config_meta_table (get_name role) (law.encoded config) ∷ []),
  )

  -- A configuration that was stored is read back; the other role's stays.
  pub get_config-after_config :
      (role other : SystemRole) (config : SystemConfig) (s : SystemStore Fs Sdb)
      → get_config other (after_config role config s) ≡ (
          if bytes_eq (get_name role) (get_name other)
          then ok (some config)
          else get_config other s)
  unfolding get_config get_node_config
  get_config-after_config role other config s = ground (
    arith,
    up.open_cf s.state_store.db config_meta_table,
    up.open_cf (after_config role config s).state_store.db config_meta_table,
    up.reads s.state_store.db config_meta_table (get_name other),
    up.reads (after_config role config s).state_store.db config_meta_table (get_name other),
    up.written s.state_store.db (put_cf config_meta_table (get_name role) (law.encoded config) ∷ [])
        config_meta_table (get_name other),
    law.decodes config,
  )
