-- ===== src/Dispatcher.antt =====
-- The subscribers of a streamDispatcher, internal/service/dispatcher.go. A channel of events is the list
-- of what it buffers. The maps `subscribers` and `dropCounts` have the same keys: they are one list here,
-- in the order of subscription, where the code's order of a map is random. `closed` records each close.
pub mod Safety
pub mod FanOut
pub mod Removal
pub mod Spans
pub mod Acks
pub mod AckLoop
pub mod Manager
pub mod Requests
mod Examples
use deepiri_sugar_glider.Base.{
  ℕ, suc, ◌+◌, ◌*◌, ◌/◌, ◌%◌, ◌^◌, Bool, true, false, List, [], ◌∷◌, ◌++◌, ltb, leb, ◌==◌,
  if◌then◌else◌, length, map,
}
use deepiri_sugar_glider.Metrics.{Collector, inc_error, inc_dispatcher_dropped_subscribers}

abbrev pub dispatcher_max_consecutive_drops : ℕ
dispatcher_max_consecutive_drops = 8

pub record Subscriber (E : Type 0) : Type 0 where
  pub id : ℕ
  pub events : List E
  pub drops : ℕ

-- What the operations on subscribers read and change.
pub record Dispatcher (E : Type 0) : Type 0 where
  pub subscriber_buffer : ℕ
  pub subscribers : List (Subscriber E)
  pub next_sub_id : ℕ
  pub stopped : Bool
  pub closed : List ℕ

-- The threshold in floating point is this one for the buffer sizes below 2 ^ 49.
unfoldable pub backpressure_threshold : ℕ → ℕ
backpressure_threshold buffer =
    let threshold = buffer * 9 / 10 in if threshold == 0 then 1 else threshold

-- Those that take before the next event, and those that do so later; at the end nobody takes.
abbrev pub first_takers : List (List ℕ) → List ℕ
first_takers [] = []
first_takers (is ∷ _) = is

abbrev pub later_takers : List (List ℕ) → List (List ℕ)
later_takers [] = []
later_takers (_ ∷ takers) = takers

module _ {E : Type 0} where
  abbrev pub ids : List (Subscriber E) → List ℕ
  ids [] = []
  ids (s ∷ ss) = s.id ∷ ids ss

  -- The counter is a uint64.
  unfoldable pub subscribe : Dispatcher E → Dispatcher E × ℕ
  subscribe d =
      let id = (d.next_sub_id + 1) % 2 ^ 64 in
      (
        record d {
          next_sub_id = id;
          subscribers = d.subscribers ++ record { id = id; events = []; drops = 0 } ∷ [];
        },
        id,
      )

  unfoldable pub stop : Dispatcher E → Dispatcher E
  stop d =
      if d.stopped
      then d
      else record d { stopped = true; subscribers = []; closed = ids d.subscribers ++ d.closed }

  pub is_present : ℕ → List (Subscriber E) → Bool
  is_present i [] = false
  is_present i (s ∷ ss) = let rest = is_present i ss in if s.id == i then true else rest

  -- delete
  pub delete : ℕ → List (Subscriber E) → List (Subscriber E)
  delete i [] = []
  delete i (s ∷ ss) = let rest = delete i ss in if s.id == i then rest else s ∷ rest

  unfoldable pub close_one : ℕ → Dispatcher E → Dispatcher E
  unfolding is_present delete
  close_one i d =
      if is_present i d.subscribers
      then record d { subscribers = delete i d.subscribers; closed = i ∷ d.closed }
      else d

  is_nil : List (Subscriber E) → Bool
  is_nil [] = true
  is_nil (_ ∷ _) = false

  -- The Boolean is that the dispatcher is to leave its manager.
  unfoldable pub remove_subscriber : Dispatcher E → ℕ → Dispatcher E × Bool
  unfolding close_one is_nil stop
  remove_subscriber d i =
      let left = close_one i d in
      if is_nil left.subscribers then (stop left, true) else (left, false)

  unfoldable pub subscriber_count : Dispatcher E → ℕ
  subscriber_count d = length d.subscribers

  pub any_full : ℕ → List (Subscriber E) → Bool
  any_full threshold [] = false
  any_full threshold (s ∷ ss) =
      let rest = any_full threshold ss in if leb threshold (length s.events) then true else rest

  unfoldable pub subscribers_backpressured : Dispatcher E → Bool
  unfolding any_full backpressure_threshold
  subscribers_backpressured d = any_full (backpressure_threshold d.subscriber_buffer) d.subscribers

  tail : List E → List E
  tail [] = []
  tail (_ ∷ es) = es

  -- The subscriber with this id takes the oldest event of its channel.
  unfoldable pub receive_one : ℕ → Subscriber E → Subscriber E
  unfolding tail
  receive_one i s = if s.id == i then record s { events = tail s.events } else s

  unfoldable pub receive_all : List ℕ → Subscriber E → Subscriber E
  unfolding receive_one
  receive_all [] s = s
  receive_all (i ∷ is) s = receive_all is (receive_one i s)

  unfoldable pub receive : ℕ → Dispatcher E → Dispatcher E
  unfolding receive_one
  receive i d = record d { subscribers = map (receive_one i) d.subscribers }

  -- One event for one subscriber: it is buffered, or the drop is counted.
  unfoldable pub offer : ℕ → E → Subscriber E → Subscriber E
  offer buffer event s =
      if ltb (length s.events) buffer
      then record s { events = s.events ++ event ∷ []; drops = 0 }
      else record s { drops = suc s.drops }

  -- The drop of this event is one too many.
  unfoldable pub is_excessive : ℕ → Subscriber E → Bool
  is_excessive buffer s =
      if ltb (length s.events) buffer
      then false
      else leb dispatcher_max_consecutive_drops (suc s.drops)

  unfoldable pub offer_all : ℕ → E → List (Subscriber E) → List (Subscriber E)
  unfolding offer
  offer_all buffer event [] = []
  offer_all buffer event (s ∷ ss) = offer buffer event s ∷ offer_all buffer event ss

  unfoldable pub excessive : ℕ → List (Subscriber E) → List ℕ
  unfolding is_excessive
  excessive buffer [] = []
  excessive buffer (s ∷ ss) =
      let rest = excessive buffer ss in if is_excessive buffer s then s.id ∷ rest else rest

  -- The subscribers after the events, and those to remove, which may be named more than once. A receiver takes
  -- no lock: `takers` has, for each event, the subscribers that take an event from their channels since the last
  -- offer to them. What one takes makes no difference to the others, so its place among their offers does not
  -- matter.
  unfoldable pub fan_events :
      ℕ → List (List ℕ) → List E → List (Subscriber E) → List ℕ → List (Subscriber E) × List ℕ
  unfolding receive_all offer_all excessive
  fan_events buffer takers [] ss remove = (ss, remove)
  fan_events buffer takers (event ∷ events) ss remove =
      let ready = map (receive_all (first_takers takers)) ss in
      fan_events buffer (later_takers takers) events (offer_all buffer event ready)
        (remove ++ excessive buffer ready)

  unfoldable pub count_removed : ℕ → Dispatcher E → Collector → Collector
  unfolding is_present
  count_removed i d c =
      if is_present i d.subscribers then inc_dispatcher_dropped_subscribers (inc_error c) else c

  unfoldable pub remove_all : List ℕ → Dispatcher E → Collector → Dispatcher E × Collector
  unfolding close_one count_removed
  remove_all [] d c = (d, c)
  remove_all (i ∷ is) d c = remove_all is (close_one i d) (count_removed i d c)

  unfoldable pub fan_out :
      List (List ℕ) → List E → Dispatcher E → Collector → Dispatcher E × Collector
  unfolding fan_events remove_all
  fan_out takers events d c =
      let (ss, remove) = fan_events d.subscriber_buffer takers events d.subscribers [] in
      remove_all remove (record d { subscribers = ss }) c
