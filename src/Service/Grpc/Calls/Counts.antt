-- ===== src/Service/Grpc/Calls/Counts.antt =====
-- The errors that Ack of internal/service/grpc.go counts, in both modes.
use Prim.Native.String.{String}
use text.Mathlib.Text.{◌==◌ as str_eq}
use deepiri_sugar_glider.Base.{
  ℕ, ◌+◌, ◌≡◌, refl, ap, ◌∙◌, arith, Bool, true, false, not, ◌||◌, Option, none, some, List,
  if◌then◌else◌, Result, ok, err,
}
use deepiri_sugar_glider.Base.Int.{ℤ}
use deepiri_sugar_glider.Base.Text.{is_empty, trim_space}
use deepiri_sugar_glider.Config.{is_stream_allowed, dispatcher}
use deepiri_sugar_glider.Metrics.{inc_ack_request, inc_ack_rpc_request}
use deepiri_sugar_glider.Redis.{Redis, Event}
use deepiri_sugar_glider.Service.{Sidecar, count}
use deepiri_sugar_glider.Service.Publish.{Refusal}
use deepiri_sugar_glider.Service.Grpc.{Status}
use deepiri_sugar_glider.Consume.{AckRequest, ack_entries_internal}
use deepiri_sugar_glider.Consume.Counted.{errors_in, ack_entries_internal-Told}
use deepiri_sugar_glider.Dispatcher.AckLoop.{AckSettings, queue_ack-errors}
use deepiri_sugar_glider.Dispatcher.Manager.{Manager, dispatcher_key, find}
use deepiri_sugar_glider.Dispatcher.Requests.{
  names_required, not_allowed, manager_closed, not_found, not_queued, Acks, Queued, queue_found,
  queue_trimmed, manager_queue_ack, is_nil,
}
use deepiri_sugar_glider.Service.Grpc.Calls.{
  Acked, acked_directly, ack_direct, after_queue, ack_managed, ack,
}

module _ {W : Type 0} where
  abbrev QueuedQuietly : ℕ → Queued W → Type 0
  QueuedQuietly n (acks, s, reply) = s.collector.errors_total ≡ n

  if-QueuedQuietly :
      (n : ℕ) (b : Bool) (x y : Queued W)
      → QueuedQuietly n x
      → QueuedQuietly n y
      → QueuedQuietly n (if b then x else y)
  if-QueuedQuietly n true x y h k = h
  if-QueuedQuietly n false x y h k = k

module _ {W : Type 0} (r : Redis W) (settings : AckSettings) (picks_queue : Bool) where
  queue_found-quiet :
      (acks : Acks W) (s : Sidecar W) (ids : List String) (o : Option ℕ)
      → QueuedQuietly s.collector.errors_total (queue_found settings picks_queue acks s ids o)
  unfolding queue_found
  queue_found-quiet acks s ids none = refl
  queue_found-quiet acks s ids (some h) =
      queue_ack-errors settings picks_queue (record (acks h) { collector = s.collector }) ids

  queue_trimmed-quiet :
      (m : Manager Event) (acks : Acks W) (s : Sidecar W) (stream group : String)
      (ids : List String)
      → QueuedQuietly s.collector.errors_total
          (queue_trimmed settings picks_queue m acks s stream group ids)
  unfolding queue_trimmed
  queue_trimmed-quiet m acks s stream group ids =
      let n = s.collector.errors_total in
      let found = find (dispatcher_key stream group) m.dispatchers in
      let q = queue_found settings picks_queue acks s ids found in
      if-QueuedQuietly n (is_empty stream || is_empty group || is_nil ids)
        (acks, s, err names_required)
        (if not (is_stream_allowed s.cfg.consume_streams stream)
          then (acks, s, err not_allowed)
          else q)
        refl
        (if-QueuedQuietly n (not (is_stream_allowed s.cfg.consume_streams stream))
          (acks, s, err not_allowed) q refl (queue_found-quiet acks s ids found))

  manager_queue_ack-quiet :
      (m : Manager Event) (acks : Acks W) (s : Sidecar W) (req : AckRequest)
      → QueuedQuietly s.collector.errors_total (manager_queue_ack settings picks_queue m acks s req)
  unfolding manager_queue_ack
  manager_queue_ack-quiet m acks s req =
      queue_trimmed-quiet m acks s (trim_space req.stream) (trim_space req.consumer_group)
        req.entry_ids

  abbrev pub failures : Result Status ℤ → ℕ
  failures (ok n) = 0
  failures (err e) = 1

  abbrev Told : ℕ → Acked r settings picks_queue → Type 0
  Told n (acks, s, reply) = s.collector.errors_total ≡ n + failures reply

  acked_directly-Told :
      (acks : Acks W) (n : ℕ) (p : Sidecar W × Result Refusal ℕ)
      → p.0.collector.errors_total ≡ n + errors_in p.1
      → Told n (acked_directly r settings picks_queue acks p)
  unfolding acked_directly errors_in
  acked_directly-Told acks n (s, ok k) h = h
  acked_directly-Told acks n (s, err (status, message)) h = h

  ack_direct-Told :
      (acks : Acks W) (s : Sidecar W) (req : AckRequest)
      → Told s.collector.errors_total (ack_direct r settings picks_queue acks s req)
  unfolding ack_direct
  ack_direct-Told acks s req =
      acked_directly-Told acks s.collector.errors_total (ack_entries_internal r s req)
        (ack_entries_internal-Told r s req).0

  after_queue-Told :
      (req : AckRequest) (n : ℕ) (q : Queued W)
      → QueuedQuietly n q
      → Told n (after_queue r settings picks_queue req q)
  unfolding after_queue
  after_queue-Told req n (acks, s, ok k) h = omega (arith, h)
  after_queue-Told req n (acks, s, err not_found) h =
      ack_direct-Told acks s req ∙ ap (λ m. m + failures (direct acks s)) h
    where
      direct : Acks W → Sidecar W → Result Status ℤ
      direct acks s = (ack_direct r settings picks_queue acks s req).2
  after_queue-Told req n (acks, s, err names_required) h = omega (arith, h)
  after_queue-Told req n (acks, s, err not_allowed) h = omega (arith, h)
  after_queue-Told req n (acks, s, err manager_closed) h = omega (arith, h)
  after_queue-Told req n (acks, s, err (not_queued e)) h = omega (arith, h)

  if-Told :
      (n : ℕ) (b : Bool) (x y : Acked r settings picks_queue)
      → Told n x
      → Told n y
      → Told n (if b then x else y)
  if-Told n true x y h k = h
  if-Told n false x y h k = k

  ack_managed-Told :
      (manager : Option (Manager Event)) (acks : Acks W) (s : Sidecar W) (req : AckRequest)
      → Told s.collector.errors_total (ack_managed r settings picks_queue manager acks s req)
  unfolding ack_managed
  ack_managed-Told none acks s req = ack_direct-Told acks s req
  ack_managed-Told (some m) acks s req =
      after_queue-Told req s.collector.errors_total
        (manager_queue_ack settings picks_queue m acks s req) (manager_queue_ack-quiet m acks s req)

  -- Ack counts one error exactly if it answers with an error, whether the entries go to the queue of a
  -- dispatcher, to Redis, or to Redis since no dispatcher was found.
  pub ack-counts :
      (manager : Option (Manager Event)) (acks : Acks W) (s : Sidecar W)
      (request : Option AckRequest)
      → let (_, t, reply) = ack r settings picks_queue manager acks s request in
        t.collector.errors_total ≡ s.collector.errors_total + failures reply
  unfolding ack
  ack-counts manager acks s none = omega arith
  ack-counts manager acks s (some req) =
      let t = count s (inc_ack_rpc_request (inc_ack_request s.collector)) in
      if-Told s.collector.errors_total (str_eq s.cfg.consume_mode dispatcher)
        (ack_managed r settings picks_queue manager acks t req)
        (ack_direct r settings picks_queue acks t req) (ack_managed-Told manager acks t req)
        (ack_direct-Told acks t req)
