-- ===== src/Event/Logs.antt =====
-- What a processor does with the logs of its contract: `start`, from a subscription on. The chain and
-- the reconnections are the network's; a stream of logs is a list.
use rtstore.Base.{ℕ, true, ◌&&◌, not, Option, none, some, List, [], ◌∷◌, if◌then◌else◌}
use rtstore.Base.Bytes.{Bytes, bytes_eq}
use rtstore.Base.Words.{add_u64}
use rtstore.Base.Dict
use rtstore.Base.Dict.{Dict}
use rtstore.Base.Result.{store_event_error, Result, ok, err, ok_or, map_err}
use rtstore.Base.Exec.{Exec, pure, lift, modify, ◌>>=◌, ◌>>◌}
use rtstore.Engine.{Engine}
use rtstore.Crypto.{Hex}
use rtstore.Crypto.Address.{Db3Address, from_hex}
use rtstore.DbStore
use rtstore.DbStore.{DbStore, DocStore}
use rtstore.DbStore.Docs.{add_docs}
use rtstore.Event.{EventProcessor, contains}
use rtstore.Event.Tokens.{Json, LogParam, param_to_value}

-- An event of the contract's interface.
pub record AbiEvent : Type 0 where
  pub name : Bytes
  pub signature : Bytes
  pub parse_log : List Bytes → Bytes → Option (List LogParam)

pub record Log : Type 0 where
  pub topics : List Bytes
  pub content : Bytes
  pub block_number : Option ℕ

-- `address` is `parse::<Address>`, `abi` reads the interface of a contract and `print` is
-- `serde_json::to_string` of an object.
pub record Abis : Type 0 where
  pub address : Bytes → Option Bytes
  pub abi : Bytes → Option (List AbiEvent)
  pub print : Dict Json → Option Bytes

-- A processor and the store that it writes to.
pub record Listener (Db Docs : Type 0) : Type 0 where
  pub processor : EventProcessor
  pub db_store : DbStore Db Docs

pub data Next : Type 0 where
  go_on stop : Next

abbrev insert_param : ⦃h : Hex⦄ → LogParam → Dict Json → Dict Json
unfolding param_to_value Dict.insert
insert_param p d = Dict.insert p.name (param_to_value p.value) d

abbrev doc_from : ⦃h : Hex⦄ → List LogParam → Dict Json → Dict Json
doc_from [] d = d
doc_from (p ∷ ps) d = doc_from ps (insert_param p d)

unfoldable pub log_to_doc : ⦃h : Hex⦄ → List LogParam → Dict Json
unfolding insert_param
log_to_doc params = doc_from params []

-- `DB3Address::ZERO`
abbrev pub zero_address : Db3Address
zero_address = record {
  bytes = 0 ∷ 0 ∷ 0 ∷ 0 ∷ 0 ∷ 0 ∷ 0 ∷ 0 ∷ 0 ∷ 0 ∷ 0 ∷ 0 ∷ 0 ∷ 0 ∷ 0 ∷ 0 ∷ 0 ∷ 0 ∷ 0 ∷ 0 ∷ [];
}

module _ {Db Docs : Type 0} where
  abbrev on_processor : (EventProcessor → EventProcessor) → Listener Db Docs → Listener Db Docs
  on_processor f x = record x { processor = f x.processor }

  unfoldable pub set_block : Option ℕ → Listener Db Docs → Listener Db Docs
  set_block none x = x
  set_block (some n) x = on_processor (λ p. record p { block_number = n }) x

  module _ ⦃E : Engine DbStore.Cf Db⦄ ⦃D : DocStore Docs⦄ ⦃h : Hex⦄ ⦃a : Abis⦄
      (db_addr : Db3Address) where
    -- A document that was added is counted; an error is only logged.
    abbrev counted : Result (List ℕ) × DbStore Db Docs → Listener Db Docs → Listener Db Docs
    counted (err e, d) x = record x { db_store = d }
    counted (ok ids, d) x =
        on_processor (λ p. record p { event_number = add_u64 p.event_number 1 })
          (record x { db_store = d })

    abbrev add_printed : Bytes → Option Bytes → Listener Db Docs → Listener Db Docs
    add_printed name none x = x
    add_printed name (some value) x =
        counted (add_docs db_addr zero_address name (value ∷ []) none x.db_store) x

    unfoldable pub add_event : Bytes → List LogParam → Listener Db Docs → Listener Db Docs
    unfolding log_to_doc add_docs
    add_event name params = add_printed name (a.print (log_to_doc params))

    abbrev parsed_or :
        Bytes
        → Option (List LogParam)
        → Result (Unit {0}) × Listener Db Docs
        → Listener Db Docs
        → Result (Unit {0}) × Listener Db Docs
    parsed_or name none rest x = rest
    parsed_or name (some params) rest x = (ok tt, add_event name params x)

    abbrev match_event :
        Log
        → List Bytes
        → AbiEvent
        → Result (Unit {0}) × Listener Db Docs
        → Listener Db Docs
        → Result (Unit {0}) × Listener Db Docs
    match_event log [] e rest x = (err store_event_error, x)
    match_event log (t ∷ ts) e rest x =
        if bytes_eq t e.signature && contains e.name x.processor.config.target_events
        then parsed_or e.name (e.parse_log log.topics log.content) rest x
        else rest

    -- The first event that has the log's signature, is a target and can be parsed is added.
    unfoldable pub match_events : Log → List AbiEvent → Exec (Listener Db Docs) (Unit {0})
    unfolding add_event contains
    match_events log [] x = (ok tt, x)
    match_events log (e ∷ es) x =
        let rest = match_events log es x in match_event log log.topics e rest x

    -- A log that comes after the processor was closed ends the subscription.
    unfoldable pub take_log : List AbiEvent → Log → Exec (Listener Db Docs) Next
    unfolding match_events set_block
    take_log events log x =
        if not x.processor.running
        then (ok stop, x)
        else (match_events log events >>= λ _. pure go_on) (set_block log.block_number x)

    abbrev then_next :
        (Listener Db Docs → Result (Unit {0}) × Listener Db Docs)
        → Result Next × Listener Db Docs
        → Result (Unit {0}) × Listener Db Docs
    then_next next (err e, x) = (err e, x)
    then_next next (ok stop, x) = (ok tt, x)
    then_next next (ok go_on, x) = next x

    -- The logs of one subscription.
    unfoldable pub listen : List AbiEvent → List Log → Exec (Listener Db Docs) (Unit {0})
    unfolding take_log
    listen events [] x = (ok tt, x)
    listen events (l ∷ ls) x = then_next (listen events ls) (take_log events l x)

  -- `start`, up to the connection.
  unfoldable pub start :
      ⦃h : Hex⦄ ⦃a : Abis⦄ → Exec (Listener Db Docs) (Bytes × Db3Address × List AbiEvent)
  unfolding from_hex
  start ⦃h⦄ ⦃a⦄ = do
    modify (on_processor λ p. record p { running = true })
    config ← (λ x. (ok x.processor.config, x))
    address ← lift (ok_or (a.address config.contract_addr) store_event_error)
    db_addr ← lift (map_err (from_hex config.db_addr) store_event_error)
    events ← lift (ok_or (a.abi config.abi) store_event_error)
    pure (address, db_addr, events)
