-- ===== src/Dispatcher/Requests/Reads.antt =====
-- The turns of runReadLoop, internal/service/dispatcher.go, in any number.
use deepiri_sugar_glider.Base.{
  ℕ, Bool, true, false, Option, none, some, List, [], ◌∷◌, length, ◌==◌, if◌then◌else◌, GoError,
  canceled, deadline_exceeded, redis_nil, queue_full, stopped, other, Result, ok, err,
}
use deepiri_sugar_glider.Metrics.{inc_error, inc_read_events}
use deepiri_sugar_glider.Redis.{Redis, Messages, Event, is_no_group_error}
use deepiri_sugar_glider.Service.{Sidecar, count}
use deepiri_sugar_glider.Consume.{forget_ensured_consumer_group, ensure_consumer_group}
use deepiri_sugar_glider.Dispatcher.{Dispatcher, subscriber_count, subscribers_backpressured}
use deepiri_sugar_glider.Dispatcher.Removal.{IsServed, fan_out-IsServed}
use deepiri_sugar_glider.Dispatcher.Requests.{
  Reader, Loop, events_of, deliver, after_read, after_ensure, read_turn,
}

module _ {W : Type 0} (r : Redis W) (reader : Reader) where
  abbrev Serves : Loop W → Type 0
  Serves (s, d, goes_on) = IsServed d

  if-Serves : (b : Bool) (x y : Loop W) → Serves x → Serves y → Serves (if b then x else y)
  if-Serves true x y h k = h
  if-Serves false x y h k = k

  deliver-Serves :
      (takers : List (List ℕ)) (s : Sidecar W) (d : Dispatcher Event) (events : List Event)
      → IsServed d
      → Serves (deliver r reader takers s d events)
  unfolding deliver
  deliver-Serves takers s d [] i = i
  deliver-Serves takers s d (event ∷ events) i =
      fan_out-IsServed takers (event ∷ events) d
        (inc_read_events s.collector (length (event ∷ events))) i

  failed-Serves :
      (cancelled : Bool) (s : Sidecar W) (d : Dispatcher Event) (e : GoError)
      → IsServed d
      → let counted = count s (inc_error s.collector) in
        Serves (
          if cancelled
          then (s, d, false)
          else if is_no_group_error e
          then (
            forget_ensured_consumer_group counted reader.stream_name reader.consumer_group,
            d,
            true,
          )
          else (counted, d, true))
  failed-Serves cancelled s d e i =
      let counted = count s (inc_error s.collector) in
      let forgotten =
        forget_ensured_consumer_group counted reader.stream_name reader.consumer_group in
      if-Serves cancelled (s, d, false)
        (if is_no_group_error e then (forgotten, d, true) else (counted, d, true)) i
        (if-Serves (is_no_group_error e) (forgotten, d, true) (counted, d, true) i i)

  after_read-Serves :
      (cancelled : Bool) (takers : List (List ℕ)) (s : Sidecar W) (d : Dispatcher Event)
      (x : Result GoError (List Messages))
      → IsServed d
      → Serves (after_read r reader cancelled takers s d x)
  unfolding after_read
  after_read-Serves cancelled takers s d (ok streams) i =
      deliver-Serves takers s d (events_of (r.now s.world) streams) i
  after_read-Serves cancelled takers s d (err redis_nil) i = i
  after_read-Serves cancelled takers s d (err canceled) i = failed-Serves cancelled s d canceled i
  after_read-Serves cancelled takers s d (err deadline_exceeded) i =
      failed-Serves cancelled s d deadline_exceeded i
  after_read-Serves cancelled takers s d (err queue_full) i =
      failed-Serves cancelled s d queue_full i
  after_read-Serves cancelled takers s d (err stopped) i = failed-Serves cancelled s d stopped i
  after_read-Serves cancelled takers s d (err (other t)) i = failed-Serves cancelled s d (other t) i

  after_ensure-Serves :
      (cancelled : Bool) (takers : List (List ℕ)) (d : Dispatcher Event)
      (p : Sidecar W × Option GoError)
      → IsServed d
      → Serves (after_ensure r reader cancelled takers d p)
  unfolding after_ensure
  after_ensure-Serves cancelled takers d (s, some e) i = i
  after_ensure-Serves cancelled takers d (s, none) i =
      let (w, x) = r.xread_group s.world (record {
        group = reader.consumer_group;
        consumer = reader.consumer_name;
        stream = reader.stream_name;
        count = reader.read_count;
        block = reader.block_duration;
      }) in
      after_read-Serves cancelled takers (record s { world = w }) d x i

  turn-Serves :
      (cancelled : Bool) (takers : List (List ℕ)) (s : Sidecar W) (d : Dispatcher Event)
      → IsServed d
      → Serves (read_turn r reader cancelled takers s d)
  unfolding read_turn
  turn-Serves cancelled takers s d i =
      let p = ensure_consumer_group r s reader.stream_name reader.consumer_group in
      let reads = after_ensure r reader cancelled takers d p in
      if-Serves d.stopped (s, d, false)
        (if subscriber_count d == 0
          then (s, d, true)
          else if subscribers_backpressured d
          then (s, d, true)
          else reads)
        i
        (if-Serves (subscriber_count d == 0) (s, d, true)
          (if subscribers_backpressured d then (s, d, true) else reads) i
          (if-Serves (subscribers_backpressured d) (s, d, true) reads i
            (after_ensure-Serves cancelled takers d p i)))

  -- The turns of the loop: for each whether the read was cancelled, and who takes events meanwhile.
  unfoldable pub read_turns : List (Bool × List (List ℕ)) → Loop W → Loop W
  unfolding read_turn
  read_turns [] l = l
  read_turns ((cancelled, takers) ∷ rest) (s, d, false) = (s, d, false)
  read_turns ((cancelled, takers) ∷ rest) (s, d, true) =
      read_turns rest (read_turn r reader cancelled takers s d)

  -- However often the loop reads, and whatever Redis answers and the subscribers take, no subscriber has eight drops in a row and no
  -- channel holds more than its size, if that was so before.
  pub read_turns-IsServed :
      (turns : List (Bool × List (List ℕ))) (s : Sidecar W) (d : Dispatcher Event) (goes_on : Bool)
      → IsServed d
      → IsServed (read_turns turns (s, d, goes_on)).1
  unfolding read_turns
  read_turns-IsServed [] s d goes_on i = i
  read_turns-IsServed ((cancelled, takers) ∷ turns) s d false i = i
  read_turns-IsServed ((cancelled, takers) ∷ turns) s d true i =
      let t = read_turn r reader cancelled takers s d in
      read_turns-IsServed turns t.0 t.1 t.2 (turn-Serves cancelled takers s d i)
