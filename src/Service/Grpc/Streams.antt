-- ===== src/Service/Grpc/Streams.antt =====
-- Subscribe of internal/service/grpc.go, in both modes.
use Prim.Native.String.{String, ◌++◌ as append_text}
use text.Mathlib.Text.{◌==◌ as str_eq}
use deepiri_sugar_glider.Base.{
  ℕ, Bool, true, false, Option, none, some, List, [], ◌∷◌, if◌then◌else◌, GoError, error_text,
  Result, ok, err,
}
use deepiri_sugar_glider.Base.Int.{ℤ, pos, leb_ℤ}
use deepiri_sugar_glider.Config.{dispatcher}
use deepiri_sugar_glider.Metrics.{inc_error, inc_read_request}
use deepiri_sugar_glider.Redis.{Redis, Event, field, to_string}
use deepiri_sugar_glider.Service.{Sidecar, count}
use deepiri_sugar_glider.Service.Publish.{Refusal}
use deepiri_sugar_glider.Service.Grpc.{
  Status, invalid_argument, unavailable, internal, grpc_status_from_http_status,
}
use deepiri_sugar_glider.Consume.{ReadEvent, consume_group_once}
use deepiri_sugar_glider.Dispatcher.Manager.{Manager}
use deepiri_sugar_glider.Dispatcher.Requests.{
  RequestError, request_error_text, Subscription, manager_subscribe,
}

-- The message of the protocol; a request that is nil is `none`.
pub record SubscribeRequest : Type 0 where
  pub stream : String
  pub consumer_group : String
  pub consumer_name : String
  pub batch_size : ℤ

-- Where the events of a call go, and the error of a send.
abbrev pub Sender : Type 0 → Type 0
Sender W = W → Event → W × Option GoError

unfoldable pub send_failed : GoError → Status
unfolding error_text
send_failed e = (unavailable, append_text "failed to stream event: " (error_text e))

-- The event of a stateless read.
unfoldable pub to_event : ReadEvent → Event
unfolding field to_string
to_event event = record {
  stream = event.stream;
  entry_id = event.entry_id;
  event_type = to_string (field "event_type" event.fields);
  sender = to_string (field "sender" event.fields);
  payload = to_string (field "payload" event.fields);
  timestamp = to_string (field "timestamp" event.fields);
}

module _ {W : Type 0} (send : Sender W) where
  -- `rest` sends the other events.
  after_send : (W → W × Option Status) → W × Option GoError → W × Option Status
  unfolding send_failed
  after_send rest (w, some e) = (w, some (send_failed e))
  after_send rest (w, none) = rest w

  unfoldable pub send_all : List ReadEvent → W → W × Option Status
  unfolding after_send to_event
  send_all [] w = (w, none)
  send_all (event ∷ events) w = after_send (send_all events) (send w (to_event event))

module _ {W : Type 0} (r : Redis W) (send : Sender W) where
  after_consume : Sidecar W × Result Refusal (List ReadEvent) → Sidecar W × Option Status
  unfolding grpc_status_from_http_status send_all
  after_consume (s, err (status, message)) = (s, some (grpc_status_from_http_status status message))
  after_consume (s, ok events) =
      let (w, failure) = send_all send events s.world in (record s { world = w }, failure)

  -- Subscribe in the mode without dispatchers: one read, and its events.
  unfoldable pub subscribe_stateless : Sidecar W → SubscribeRequest → Sidecar W × Option Status
  unfolding consume_group_once after_consume
  subscribe_stateless s req = after_consume (
      consume_group_once r s (record {
        stream = req.stream;
        consumer_group = req.consumer_group;
        consumer_name = req.consumer_name;
        count = if leb_ℤ req.batch_size (pos 0) then pos 10 else req.batch_size;
        block_ms = pos 1000;
      }))

-- How a call of Subscribe begins: it has ended, or it forwards the events of a subscription.
pub data Call : Type 0 where
  ended : Option Status → Call
  forwards : Subscription → Call

abbrev pub Managed : Type 0 → Type 0
Managed W = Option (Manager Event) × Sidecar W × Call

module _ {W : Type 0} (buffer : ℕ) where
  after_subscribe : Sidecar W → Manager Event × Result RequestError Subscription → Managed W
  unfolding request_error_text grpc_status_from_http_status
  after_subscribe s (m, ok subscription) = (some m, s, forwards subscription)
  after_subscribe s (m, err e) = (
    some m,
    count s (inc_error s.collector),
    ended (
        some (
          grpc_status_from_http_status 400
            (request_error_text "stream and consumer_group are required" e))),
  )

  unfoldable pub subscribe_with_dispatcher :
      Option (Manager Event) → Sidecar W → SubscribeRequest → Managed W
  unfolding after_subscribe manager_subscribe
  subscribe_with_dispatcher none s req = (
    none,
    count s (inc_error s.collector),
    ended (some (internal, "dispatcher mode is enabled but dispatcher manager is not initialized")),
  )
  subscribe_with_dispatcher (some m) s req = after_subscribe s (
      manager_subscribe buffer s.cfg m (record {
        stream = req.stream;
        consumer_group = req.consumer_group;
        consumer_name = req.consumer_name;
        count = req.batch_size;
        block_ms = s.cfg.dispatcher_block_ms;
      }))

module _ {W : Type 0} (r : Redis W) (send : Sender W) (buffer : ℕ) where
  in_mode : Bool → Option (Manager Event) → Sidecar W → SubscribeRequest → Managed W
  unfolding subscribe_with_dispatcher subscribe_stateless
  in_mode true manager s req = subscribe_with_dispatcher buffer manager s req
  in_mode false manager s req =
      let (t, failure) = subscribe_stateless r send s req in (manager, t, ended failure)

  unfoldable pub subscribe :
      Option (Manager Event) → Sidecar W → Option SubscribeRequest → Managed W
  unfolding in_mode
  subscribe manager s₀ request =
      let s = count s₀ (inc_read_request s₀.collector) in
      elim request [
        | none ↦ (
          manager,
          count s (inc_error s.collector),
          ended (some (invalid_argument, "request is required")),
        )
        | some req ↦ in_mode (str_eq s.cfg.consume_mode dispatcher) manager s req
      ]

-- A turn of the loop that forwards: the case of its select, the context, the channel.
pub data Forward : Type 0 where
  context_done channel_closed : Forward
  received : Event → Forward

module _ {W : Type 0} (send : Sender W) where
  sent : W × Option GoError → W × Option (Option Status)
  unfolding send_failed
  sent (w, none) = (w, none)
  sent (w, some e) = (w, some (some (send_failed e)))

  -- `none` is that the loop goes on; `caller_done` is that the context has ended when the channel closes.
  unfoldable pub forward : Bool → W → Forward → W × Option (Option Status)
  unfolding sent
  forward caller_done w context_done = (w, some none)
  forward caller_done w channel_closed =
      if caller_done
      then (w, some none)
      else (w, some (some (unavailable, "dispatcher stream closed")))
  forward caller_done w (received event) = sent (send w event)
