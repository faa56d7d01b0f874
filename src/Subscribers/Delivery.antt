-- ===== src/Subscribers/Delivery.antt =====
-- What an event makes of the subscribers: every client that listens to blocks and has room gets it
-- once, and the clients that are gone are removed.
use rtstore.Base.{
  ℕ, ◌≡◌, refl, ◌∙◌, Bool, true, false, ◌&&◌, ◌||◌, not, Bool-cases, inl, inr, Option, none, some,
  List, [], ◌∷◌, ◌++◌, arith, length, ltb, ◌==◌, map_option, if◌then◌else◌,
}
use rtstore.Base.Bytes.{Bytes, bytes_eq}
use rtstore.Base.Bytes.Order.{eq_of_bytes_eq}
use rtstore.Base.Dict
use rtstore.Base.Dict.{Dict, IsUnique, get-insert, get-remove}
use rtstore.Subscribers.{
  BlockEvent, Mailbox, Subscriber, try_send, offer, offered, sweep, remove_all, on_event,
  on_subscribe,
}

-- The client asked for blocks.
abbrev pub wants_blocks : List ℕ → Bool
wants_blocks [] = false
wants_blocks (t ∷ ts) = (t == 0) || wants_blocks ts

abbrev pub has_room : Mailbox → Bool
has_room m = ltb (length m.queue) m.capacity

-- What is left of a subscriber after an event.
unfoldable pub after_event : BlockEvent → Subscriber → Option Subscriber
after_event e s =
    if not s.sender.is_open
    then none
    else if wants_blocks s.sub.topics && has_room s.sender
    then some (record s { sender = record s.sender { queue = s.sender.queue ++ (e ∷ []) } })
    else some s

abbrev pub and_then : {A B : Type 0} → (A → Option B) → Option A → Option B
and_then f none = none
and_then f (some a) = f a

offer_lem :
    (e : BlockEvent) (ts : List ℕ) (m : Mailbox)
    → m.is_open ≡ true
    → offer e ts m ≡ (
      false,
      if wants_blocks ts && has_room m then record m { queue = m.queue ++ (e ∷ []) } else m,
    )
unfolding offer try_send
offer_lem e [] m open_ = refl
offer_lem e (t ∷ ts) m open_ = ground (arith, offer_lem e ts m open_)

-- Whether a subscriber is removed.
unfoldable pub is_gone : Option Subscriber → Bool
is_gone none = false
is_gone (some s) = not s.sender.is_open

offered_lem :
    (e : BlockEvent) (s : Subscriber)
    → ((offered e s).0 ≡ not s.sender.is_open)
      × (s.sender.is_open ≡ true → after_event e s ≡ some (offered e s).1)
unfolding offered after_event
offered_lem e s = (
  ground (arith, offer_lem e s.sub.topics s.sender),
  λ open_. ground (arith, open_, offer_lem e s.sub.topics s.sender open_),
)

after_event-closed :
    (e : BlockEvent) (s : Subscriber) → s.sender.is_open ≡ false → after_event e s ≡ none
unfolding after_event
after_event-closed e s closed_ = ground arith

contains : Bytes → List Bytes → Bool
contains j [] = false
contains j (k ∷ ks) = bytes_eq k j || contains j ks

get-remove_all :
    (j : Bytes) (ks : List Bytes) (d : Dict Subscriber)
    → Dict.get j (remove_all ks d) ≡ (if contains j ks then none else Dict.get j d)
unfolding remove_all contains
get-remove_all j [] d = refl
get-remove_all j (k ∷ ks) d =
    ground (arith, get-remove_all j ks (Dict.remove k d), get-remove k j d)

get-sweep :
    (e : BlockEvent) (j : Bytes) (d : Dict Subscriber)
    → Dict.get j (sweep e d).0 ≡ map_option (λ s. (offered e s).1) (Dict.get j d)
unfolding sweep Dict.get
get-sweep e j [] = refl
get-sweep e j ((k, s) ∷ d) = ground (arith, get-sweep e j d)

gone-sweep :
    (e : BlockEvent) (j : Bytes) (d : Dict Subscriber)
    → IsUnique d
    → contains j (sweep e d).1 ≡ is_gone (Dict.get j d)
unfolding sweep contains is_gone Dict.get
gone-sweep e j [] u = refl
gone-sweep e j ((k, s) ∷ d) u =
    ground (arith, gone-sweep e j d u.1, offered_lem e s, eq_of_bytes_eq k j, u.0)

settled :
    (e : BlockEvent) (o : Option Subscriber)
    → (if is_gone o then none else map_option (λ s. (offered e s).1) o) ≡ and_then (after_event e) o
unfolding is_gone
settled e none = refl
settled e (some s) = elim (Bool-cases s.sender.is_open) [
  | inl open_ ↦ ground (arith, open_, (offered_lem e s).1 open_)
  | inr closed_ ↦ ground (arith, closed_, after_event-closed e s closed_)
]

sweep-IsUnique : (e : BlockEvent) (d : Dict Subscriber) → IsUnique d → IsUnique (sweep e d).0
unfolding sweep
sweep-IsUnique e [] u = tt
sweep-IsUnique e ((k, s) ∷ d) u = ground (arith, u.0, get-sweep e k d, sweep-IsUnique e d u.1)

remove_all-IsUnique :
    (ks : List Bytes) (d : Dict Subscriber) → IsUnique d → IsUnique (remove_all ks d)
unfolding remove_all
remove_all-IsUnique [] d u = u
remove_all-IsUnique (k ∷ ks) d u =
    remove_all-IsUnique ks (Dict.remove k d) (Dict.remove-IsUnique k d u)

-- A new client does not take the place of another.
pub on_subscribe-IsUnique :
    (addr : Bytes) (s : Subscriber) (d : Dict Subscriber)
    → IsUnique d
    → IsUnique (on_subscribe addr s d)
unfolding on_subscribe
on_subscribe-IsUnique addr s d u = Dict.insert-IsUnique addr s d u

-- If every address is there once, an event leaves of a subscriber what `after_event` says: a client
-- that is gone is removed, one that asked for blocks and has room gets the event, once and last, and
-- any other stays as it was; nobody else is there afterwards, and every address is there once.
pub get-on_event :
    (e : BlockEvent) (j : Bytes) (d : Dict Subscriber)
    → IsUnique d
    → (Dict.get j (on_event e d) ≡ and_then (after_event e) (Dict.get j d))
      × IsUnique (on_event e d)
unfolding on_event
get-on_event e j d u = (
  get-remove_all j (sweep e d).1 (sweep e d).0
      ∙ rw (gone-sweep e j d u, get-sweep e j d) (settled e (Dict.get j d)),
  remove_all-IsUnique (sweep e d).1 (sweep e d).0 (sweep-IsUnique e d u),
)
