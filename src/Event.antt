-- ===== src/Event.antt =====
-- EventProcessor, of src/event/src/event_processor.rs: the events of one contract become documents of
-- one database. The connection to the chain is the network's: a log is an argument of the step that
-- takes it. What `ethabi` makes of the contract's interface is a list of events.
pub mod Tokens
pub mod Logs
use rtstore.Base.{ℕ, Bool, true, false, ◌||◌, Option, none, some, List, [], ◌∷◌, if◌then◌else◌}
use rtstore.Base.Bytes.{Bytes, bytes_eq}

-- `target_events` is a set of names.
pub record EventProcessorConfig : Type 0 where
  pub evm_node_url : Bytes
  pub db_addr : Bytes
  pub abi : Bytes
  pub target_events : List Bytes
  pub contract_addr : Bytes
  pub start_block : ℕ

-- The fields besides the store, which the node shares with its processors.
pub record EventProcessor : Type 0 where
  pub config : EventProcessorConfig
  pub running : Bool
  pub block_number : ℕ
  pub event_number : ℕ

unfoldable pub new : EventProcessorConfig → EventProcessor
new config = record { config = config; running = false; block_number = 0; event_number = 0 }

unfoldable pub close : EventProcessor → EventProcessor
close p = record p { running = false }

-- `target_events.contains(name)`
unfoldable pub contains : Bytes → List Bytes → Bool
contains name [] = false
contains name (t ∷ ts) = bytes_eq t name || contains name ts
