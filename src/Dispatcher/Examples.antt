-- ===== src/Dispatcher/Examples.antt =====
-- Runs of the dispatcher, and its theorems at concrete inputs.
use Prim.Native.String.{String}
use deepiri_sugar_glider.Base.{
  ◌+◌, ◌-◌, ◌^◌, ◌≤◌, ◌≡◌, refl, arith, false, none, some, List, [], ◌∷◌, map, length, All, Result,
  ok, GoError, ℕ,
}
use deepiri_sugar_glider.Base.Int.{ℤ, pos}
use deepiri_sugar_glider.Metrics.{Collector}
use deepiri_sugar_glider.Dispatcher.{
  Subscriber, Dispatcher, subscribe, remove_subscriber, fan_events,
}
use deepiri_sugar_glider.Dispatcher.Safety.{
  IsSafe, initial, next, subscribes, removes, new, Reachable-IsSafe,
}
use deepiri_sugar_glider.Dispatcher.FanOut.{fan_events-Fits}
use deepiri_sugar_glider.Dispatcher.FanOut.Each.{offer_many}
use deepiri_sugar_glider.Dispatcher.FanOut.Prefix.{Fits}
use deepiri_sugar_glider.Dispatcher.FanOut.Taken.{Served}
use deepiri_sugar_glider.Dispatcher.Manager.{
  Manager, empty, get_or_create, subscribe_at, remove_at, find,
}
use deepiri_sugar_glider.Dispatcher.Manager.Live.{IsLive, Reachable-IsLive}
use deepiri_sugar_glider.Dispatcher.Manager as Managers
use deepiri_sugar_glider.Dispatcher.AckLoop.{Acker, AckSettings, AckState, flush}
use deepiri_sugar_glider.Dispatcher.AckLoop.Flush.{Acknowledges, sent, Commands, flush_empties}
use deepiri_sugar_glider.Dispatcher.AckLoop.Pending.{occurrences}
use deepiri_sugar_glider.Dispatcher.Acks.{
  chunk_string_slice, concat, Sized, capacity, safe_chunk_size, clamp_int64_to_int,
  chunk_string_slice-concat,
}

abbrev no_counts : Collector
no_counts = record {
  publish_attempts = 0;
  publish_success = 0;
  publish_queued = 0;
  publish_pipeline_enqueued = 0;
  publish_pipeline_flushed_batch = 0;
  publish_pipeline_flushed_entry = 0;
  publish_pipeline_fallback = 0;
  publish_pipeline_adaptive_direct = 0;
  publish_pipeline_adaptive_active = pos 0;
  publish_pipeline_error = 0;
  read_requests = 0;
  read_events = 0;
  ack_requests = 0;
  ack_rpc_requests = 0;
  acked_entries = 0;
  dispatcher_ack_flush_calls = 0;
  dispatcher_ack_flush_chunks = 0;
  dispatcher_ack_queue_depth_peak = 0;
  dispatcher_ack_input_entries = 0;
  dispatcher_ack_deduped_entries = 0;
  dispatcher_ack_duplicate_entries = 0;
  dispatcher_ack_contiguous_spans = 0;
  dispatcher_ack_contiguous_saved = 0;
  group_ensure_attempts = 0;
  wal_replayed = 0;
  wal_replay_sync_calls = 0;
  dlq_moved = 0;
  dlq_replayed = 0;
  dispatcher_dropped_subscribers = 0;
  errors_total = 0;
}

abbrev idle : Dispatcher String
idle = record {
  subscriber_buffer = 2;
  subscribers = record { id = 1; events = "a" ∷ []; drops = 7 } ∷ [];
  next_sub_id = 1;
  stopped = false;
  closed = [];
}

-- A subscriber whose channel has room for one of three events.
fan_out_runs :
    (fan_events 2 [] ("b" ∷ "c" ∷ "d" ∷ []) idle.subscribers []).0
    ≡ record { id = 1; events = "a" ∷ "b" ∷ []; drops = 2 } ∷ []
unfolding fan_events
fan_out_runs = refl

-- The second dispatcher closes the channel of its only subscriber, and stops.
Reachable-IsSafe_example : IsSafe (remove_subscriber (subscribe (new {E = String} 2)).0 1).0
Reachable-IsSafe_example = Reachable-IsSafe 2 (remove_subscriber (subscribe (new 2)).0 1).0 (
    next (subscribe (new 2)).0 (remove_subscriber (subscribe (new 2)).0 1).0
      (next (new 2) (subscribe (new 2)).0 initial (subscribes (omega arith))) (removes 1))

-- It takes "a" between the second event and the third.
abbrev taking : List (List ℕ)
taking = [] ∷ [] ∷ (1 ∷ []) ∷ []

taken_runs :
    (fan_events 2 taking ("b" ∷ "c" ∷ "d" ∷ []) idle.subscribers []).0
    ≡ record { id = 1; events = "b" ∷ "d" ∷ []; drops = 0 } ∷ []
unfolding fan_events
taken_runs = refl

fan_events-Fits_example :
    ((fan_events 2 taking ("b" ∷ "c" ∷ "d" ∷ []) idle.subscribers []).0
      ≡ map (offer_many 2 taking ("b" ∷ "c" ∷ "d" ∷ [])) idle.subscribers)
    × ((s : Subscriber String)
        → Served 2 taking ("b" ∷ "c" ∷ "d" ∷ []) s (offer_many 2 taking ("b" ∷ "c" ∷ "d" ∷ []) s))
    × ((s : Subscriber String)
        → Fits 2 ("b" ∷ "c" ∷ "d" ∷ []) s (offer_many 2 [] ("b" ∷ "c" ∷ "d" ∷ []) s))
fan_events-Fits_example = fan_events-Fits 2 taking ("b" ∷ "c" ∷ "d" ∷ []) idle.subscribers []

abbrev letters : List String
letters = "a" ∷ "b" ∷ "c" ∷ []

few_letters : length letters + safe_chunk_size (pos 2) ≤ 2 ^ 63
unfolding safe_chunk_size clamp_int64_to_int
few_letters = omega arith

chunk_string_slice-concat_example :
    (chunks : List (List String)) × (chunk_string_slice ("a" ∷ "b" ∷ "c" ∷ []) (pos 2)
      ≡ some chunks)
    × (concat chunks ≡ "a" ∷ "b" ∷ "c" ∷ [])
    × All (Sized (safe_chunk_size (pos 2))) chunks
chunk_string_slice-concat_example = chunk_string_slice-concat letters (pos 2) few_letters

-- A batch size at the top of int64 makes the capacity overflow: make panics.
capacity_overflows : chunk_string_slice {A = String} ("a" ∷ "b" ∷ []) (pos (2 ^ 63 - 1)) ≡ none
unfolding chunk_string_slice capacity safe_chunk_size clamp_int64_to_int
capacity_overflows = refl

abbrev one_each : List (List String) → List (Result GoError ℤ)
one_each [] = []
one_each (chunk ∷ chunks) = ok (pos 1) ∷ one_each chunks

-- Redis acknowledges every command.
abbrev acks_all : Acker ℕ
acks_all w chunks = (w + 1, none, one_each chunks)

one_each-ok :
    (chunks : List (List String))
    → All (λ (r : Result GoError ℤ). (n : ℤ) × (r ≡ ok n)) (one_each chunks)
one_each-ok [] = tt
one_each-ok (chunk ∷ chunks) = ((pos 1, refl), one_each-ok chunks)

length-one_each : (chunks : List (List String)) → length (one_each chunks) ≡ length chunks
length-one_each [] = refl
length-one_each (chunk ∷ chunks) = omega (arith, length-one_each chunks)

acks_all-Acknowledges : Acknowledges acks_all
acks_all-Acknowledges = record {
  no_error = λ w chunks. refl;
  results_ok = λ w chunks. one_each-ok chunks;
  results_length = λ w chunks. length-one_each chunks;
}

abbrev ack_settings : AckSettings
ack_settings = record { ack_batch_size = pos 2; ack_flush_concurrency = pos 1; ack_queue_size = 4 }

abbrev ack_state : AckState ℕ
ack_state = record {
  queue = [];
  pending = letters;
  pending_input_entries = 3;
  cancelled = false;
  collector = no_counts;
  world = 0;
}

flush_empties_example :
    (t : AckState ℕ) × (flush acks_all ack_settings ack_state ≡ some t)
    × (t.pending ≡ [])
    × (ids : List String) × ((x : String) → occurrences x ids ≡ occurrences x letters)
    × (groups : List (List (List String))) × Commands acks_all ack_settings acks_all-Acknowledges
        ids groups
    × (t.world ≡ sent acks_all ack_settings acks_all-Acknowledges 0 groups)
flush_empties_example =
    flush_empties acks_all ack_settings acks_all-Acknowledges ack_state few_letters

-- One dispatcher, whose only subscriber leaves, and a second one under the same key.
abbrev first : Manager String
first = (get_or_create 2 empty "s|g").0

abbrev served : Manager String
served = (subscribe_at first 0).0

abbrev left : Manager String
left = remove_at served 0 1

abbrev managed : Manager String
managed = (get_or_create 2 left "s|g").0

managed-Reachable : Managers.Reachable 2 managed
managed-Reachable =
    Managers.next left managed
      (Managers.next served left
        (Managers.next first served
          (Managers.next empty first Managers.initial (Managers.gets "s|g"))
          (Managers.subscribes 0))
        (Managers.removes 0 1))
      (Managers.gets "s|g")

Reachable-IsLive_example : IsLive managed
Reachable-IsLive_example = Reachable-IsLive 2 managed managed-Reachable

managed_finds : find "s|g" managed.dispatchers ≡ some 1
unfolding find get_or_create subscribe_at remove_at
managed_finds = refl
