-- ===== src/Dispatcher/FanOut.antt =====
-- What fanOut of internal/service/dispatcher.go gives to each subscriber.
pub mod Each
pub mod Prefix
pub mod Taken
use deepiri_sugar_glider.Base.{ℕ, ◌≡◌, List, [], map}
use deepiri_sugar_glider.Dispatcher.{Subscriber, fan_events}
use Each.{offer_many, fan_events-map}
use Prefix.{Fits, offer_many-Fits}
use Taken.{Served, offer_many-Served}

module _ {E : Type 0} where
  -- A fan-out of events treats every subscriber by itself. Whoever takes events from a channel meanwhile, what a
  -- subscriber takes and then holds is what it held before and then some of the events, in their order; an event
  -- is left out only where the channel was full, none if there was room for all, and there is at most one drop
  -- for each that is left out. Where nobody takes anything, the subscriber gets the longest prefix of the events
  -- that its channel has room for.
  pub fan_events-Fits :
      (buffer : ℕ) (takers : List (List ℕ)) (events : List E) (ss : List (Subscriber E))
      (remove : List ℕ)
      → ((fan_events buffer takers events ss remove).0 ≡ map (offer_many buffer takers events) ss)
        × ((s : Subscriber E) → Served buffer takers events s (offer_many buffer takers events s))
        × ((s : Subscriber E) → Fits buffer events s (offer_many buffer [] events s))
  fan_events-Fits buffer takers events ss remove = (
    fan_events-map buffer takers events ss remove,
    offer_many-Served buffer takers events,
    offer_many-Fits buffer events,
  )
