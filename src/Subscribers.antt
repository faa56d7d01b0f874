-- ===== src/Subscribers.antt =====
-- `keep_subscription` and `subscribe` of src/node/src/storage_node_light_impl.rs: who gets the events
-- of the blocks. A client's channel is a bounded queue; one turn of the loop is one step.
pub mod Delivery
mod Tests
use rtstore.Base.{
  ℕ, Bool, true, false, not, ◌&&◌, Option, none, some, List, [], ◌∷◌, ◌++◌, length, ltb, ◌==◌,
  if◌then◌else◌,
}
use rtstore.Base.Text.{codes}
use rtstore.Base.Bytes.{Bytes, bytes_eq}
use rtstore.Base.Dict
use rtstore.Base.Dict.{Dict}
use rtstore.Base.Result.{store_event_error, Result, ok, err, ok_or}
use rtstore.Base.Answer.{
  invalid_argument, internal, Answer, answer, status, or_status, require, ◌>>=◌, ◌>>◌,
}
use rtstore.Engine.{Codec}
use rtstore.Requests.{Value, Signing, verify_setup}
use rtstore.System.{SystemConfig}

-- `EventMessage` of db3_storage.proto: a block and how many mutations it has.
pub record BlockEvent : Type 0 where
  pub block_id : ℕ
  pub mutation_count : ℕ

-- Topics are numbers: `EventType::Block` is 0.
pub record Subscription : Type 0 where
  pub topics : List ℕ

-- A `tokio` channel, seen from its sender.
pub record Mailbox : Type 0 where
  pub queue : List BlockEvent
  pub capacity : ℕ
  pub is_open : Bool

pub record Subscriber : Type 0 where
  pub sender : Mailbox
  pub sub : Subscription

pub data Sent : Type 0 where
  sent : Mailbox → Sent
  full closed : Sent

unfoldable pub try_send : BlockEvent → Mailbox → Sent
try_send e m =
    if not m.is_open
    then closed
    else if ltb (length m.queue) m.capacity
    then sent (record m { queue = m.queue ++ (e ∷ []) })
    else full

-- The loop over the topics: whether the subscriber is to be removed, and its channel. It ends with the
-- first message that is sent.
abbrev pub tried : Sent → Bool × Mailbox → Bool × Mailbox
tried (sent m) rest = (false, m)
tried full rest = rest
tried closed (gone, m) = (true, m)

unfoldable pub offer : BlockEvent → List ℕ → Mailbox → Bool × Mailbox
unfolding try_send
offer e [] m = (false, m)
offer e (t ∷ ts) m = let rest = offer e ts m in if t == 0 then tried (try_send e m) rest else rest

-- One subscriber.
unfoldable pub offered : BlockEvent → Subscriber → Bool × Subscriber
unfolding offer
offered e s =
    let (gone, m) = offer e s.sub.topics s.sender in
    if not s.sender.is_open then (true, s) else (gone, record s { sender = m })

abbrev pub swept :
    Bytes → Bool × Subscriber → Dict Subscriber × List Bytes → Dict Subscriber × List Bytes
swept k (true, s) (d, removed) = ((k, s) ∷ d, k ∷ removed)
swept k (false, s) (d, removed) = ((k, s) ∷ d, removed)

-- All subscribers, and the addresses that are to be removed.
unfoldable pub sweep : BlockEvent → Dict Subscriber → Dict Subscriber × List Bytes
unfolding offered
sweep e [] = ([], [])
sweep e ((k, s) ∷ d) = swept k (offered e s) (sweep e d)

unfoldable pub remove_all : List Bytes → Dict Subscriber → Dict Subscriber
unfolding Dict.remove
remove_all [] d = d
remove_all (k ∷ ks) d = remove_all ks (Dict.remove k d)

-- What the loop does with an event of the broadcast.
unfoldable pub on_event : BlockEvent → Dict Subscriber → Dict Subscriber
unfolding sweep remove_all
on_event e d = let (d', removed) = sweep e d in remove_all removed d'

-- A client that subscribes again replaces what it had.
unfoldable pub on_subscribe : Bytes → Subscriber → Dict Subscriber → Dict Subscriber
unfolding Dict.insert
on_subscribe addr s d = Dict.insert addr s d

-- What a notice of a new configuration makes of the node's network and interval.
unfoldable pub on_update : Result (Option SystemConfig) → ℕ × ℕ → ℕ × ℕ
on_update (ok (some c)) (network_id, rollup_interval) = (c.network_id, c.rollup_interval)
on_update _ settings = settings

abbrev is_empty : Bytes → Bool
is_empty [] = true
is_empty (c ∷ cs) = false

abbrev payload_of : ⦃c : Codec Subscription⦄ → Option Value → Answer Subscription
payload_of none = status invalid_argument
payload_of ⦃c⦄ (some payload) = do
  bytes ← or_status (ok_or payload.as_bytes store_event_error) invalid_argument
  or_status (ok_or (c.decode bytes) store_event_error) invalid_argument

-- `subscribe`: who subscribes to what. `takes` tells whether the loop's own channel takes it.
unfoldable pub subscribe :
    ⦃g : Signing⦄ → ⦃c : Codec Subscription⦄ → Bool → Bytes → Bytes → Answer (Bytes × Subscriber)
unfolding verify_setup Dict.get
subscribe takes payload signature = do
  require (not (is_empty payload) && not (is_empty signature)) invalid_argument
  (address, typed) ← or_status (verify_setup payload signature) invalid_argument
  sub ← payload_of (Dict.get (codes "payload") typed.message)
  require takes internal
  answer
      (address, record { sender = record { queue = []; capacity = 10; is_open = true }; sub = sub })
