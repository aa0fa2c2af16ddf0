-- ===== src/Service/Grpc/Calls/Examples.antt =====
-- Runs of Ack of internal/service/grpc.go, and its theorem at a concrete input.
use deepiri_sugar_glider.Base.{◌+◌, ◌≡◌, refl, true, false, some, [], ◌∷◌, ok, ℕ}
use deepiri_sugar_glider.Base.Int.{pos}
use deepiri_sugar_glider.Base.Text.{trim_space, is_space}
use deepiri_sugar_glider.Config.{dispatcher}
use deepiri_sugar_glider.Redis.{Event}
use deepiri_sugar_glider.Service.{Sidecar}
use deepiri_sugar_glider.Service.Examples.{sidecar}
use deepiri_sugar_glider.Consume.{AckRequest}
use deepiri_sugar_glider.Consume.Examples.{toy}
use deepiri_sugar_glider.Dispatcher.AckLoop.{AckSettings}
use deepiri_sugar_glider.Dispatcher.Manager.{Manager, empty, get_or_create}
use deepiri_sugar_glider.Dispatcher.Requests.{Acks}
use deepiri_sugar_glider.Service.Grpc.Calls.{ack}
use deepiri_sugar_glider.Service.Grpc.Calls.Counts.{failures, ack-counts}

abbrev settings : AckSettings
settings = record { ack_batch_size = pos 2; ack_flush_concurrency = pos 1; ack_queue_size = 1 }

abbrev acks : Acks ℕ
acks = λ h. record {
  queue = [];
  pending = [];
  pending_input_entries = 0;
  cancelled = false;
  collector = sidecar.collector;
  world = 0;
}

abbrev dispatching : Sidecar ℕ
dispatching = record sidecar { cfg = record sidecar.cfg { consume_mode = dispatcher } }

abbrev manager : Manager Event
manager = (get_or_create 2 empty "events|g").0

abbrev request : AckRequest
request = record { stream = "events"; consumer_group = "g "; entry_ids = "1-0" ∷ "2-0" ∷ [] }

-- A dispatcher that is found queues the ids, and Redis is not asked.
ack_runs :
    ((ack toy settings true (some manager) acks dispatching (some request)).2 ≡ ok (pos 2))
    × ((ack toy settings true (some manager) acks dispatching (some request)).1.world ≡ 0)
    × ((ack toy settings true (some empty) acks dispatching (some request)).1.world ≡ 1)
unfolding ack get_or_create trim_space is_space
ack_runs = (refl, refl, refl)

ack-counts_example :
    (ack toy settings true (some manager) acks dispatching (some request)).1.collector.errors_total
    ≡ dispatching.collector.errors_total
      + failures toy settings true
          (ack toy settings true (some manager) acks dispatching (some request)).2
ack-counts_example = ack-counts toy settings true (some manager) acks dispatching (some request)
