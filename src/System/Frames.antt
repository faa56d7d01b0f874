-- ===== src/System/Frames.antt =====
-- An encoding of the configuration for the tests; the node uses protobuf.
use rtstore.Base.{ℕ, ◌≡◌, refl, Option, none, some, List, [], ◌∷◌, arith}
use rtstore.Base.Bytes.{Bytes}
use rtstore.Engine.{Codec, IsCodec}
use rtstore.Proto.Frames.{frames, framed, unframe, unframed, unframe-frames}
use rtstore.System.{SystemConfig}

unfoldable pub flat_config : SystemConfig → Bytes
unfolding framed frames
flat_config c =
    c.min_rollup_size
    ∷ c.rollup_interval
    ∷ c.network_id
    ∷ c.chain_id
    ∷ c.rollup_max_interval
    ∷ c.min_gc_offset
    ∷ framed (c.evm_node_url ∷ c.ar_node_url ∷ c.contract_addr ∷ [])

abbrev pub config_of : ℕ → ℕ → ℕ → ℕ → ℕ → ℕ → List Bytes → Option SystemConfig
config_of size interval network chain max gc (evm ∷ ar ∷ contract ∷ []) = some (record {
  min_rollup_size = size;
  rollup_interval = interval;
  network_id = network;
  evm_node_url = evm;
  ar_node_url = ar;
  chain_id = chain;
  rollup_max_interval = max;
  contract_addr = contract;
  min_gc_offset = gc;
})
config_of size interval network chain max gc texts = none

unfoldable pub read_config : Bytes → Option SystemConfig
unfolding unframed unframe
read_config (size ∷ interval ∷ network ∷ chain ∷ max ∷ gc ∷ texts) =
    config_of size interval network chain max gc (unframed texts)
read_config _ = none

read_config-flat_config : (c : SystemConfig) → read_config (flat_config c) ≡ some c
unfolding flat_config read_config
read_config-flat_config c =
    ground (arith, unframe-frames (c.evm_node_url ∷ c.ar_node_url ∷ c.contract_addr ∷ []))

instance abbrev pub config_codec : Codec SystemConfig
config_codec = record { encode = λ c. some (flat_config c); decode = read_config }

pub config_codec-IsCodec : IsCodec config_codec
config_codec-IsCodec = record {
  encoded = flat_config;
  encodes = λ c. refl;
  decodes = read_config-flat_config;
}
