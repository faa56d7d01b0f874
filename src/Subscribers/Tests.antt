-- ===== src/Subscribers/Tests.antt =====
-- An event at work: one client gets it, one has no room, one asked for other events and one is gone.
use rtstore.Base.{ℕ, ◌≡◌, refl, true, false, [], ◌∷◌, Bool, List}
use rtstore.Base.Bytes.{bytes_eq}
use rtstore.Base.Dict
use rtstore.Base.Dict.{Dict, IsUnique}
use rtstore.Subscribers.{BlockEvent, Subscriber, on_event}
use rtstore.Subscribers.Delivery.{after_event, and_then, get-on_event}

abbrev block_event : BlockEvent
block_event = record { block_id = 7; mutation_count = 2 }

abbrev client : ℕ → Bool → List ℕ → Subscriber
client capacity is_open topics = record {
  sender = record { queue = []; capacity = capacity; is_open = is_open };
  sub = record { topics = topics };
}

abbrev clients : Dict Subscriber
clients =
    (1 ∷ [], client 10 true (2 ∷ 0 ∷ 0 ∷ []))
    ∷ (2 ∷ [], client 0 true (0 ∷ []))
    ∷ (3 ∷ [], client 10 true (1 ∷ []))
    ∷ (4 ∷ [], client 10 false (0 ∷ []))
    ∷ []

get-on_event_example :
    (Dict.get (1 ∷ []) (on_event block_event clients)
      ≡ and_then (after_event block_event) (Dict.get (1 ∷ []) clients))
    × IsUnique (on_event block_event clients)
unfolding Dict.get bytes_eq
get-on_event_example = get-on_event block_event (1 ∷ []) clients (refl, (refl, (refl, (refl, tt))))
