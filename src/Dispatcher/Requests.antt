-- ===== src/Dispatcher/Requests.antt =====
-- The requests to consumeDispatcherManager and the loop that reads from Redis, internal/service/dispatcher.go.
pub mod Reads
mod Examples
use Prim.Native.String.{String}
use deepiri_sugar_glider.Base.{
  ℕ, Bool, true, false, not, ◌||◌, Option, none, some, List, [], ◌∷◌, ◌++◌, length, ◌==◌,
  if◌then◌else◌, GoError, redis_nil, Result, ok, err,
}
use deepiri_sugar_glider.Base.Int.{ℤ, pos, leb_ℤ}
use deepiri_sugar_glider.Base.Text.{is_empty, trim_space}
use deepiri_sugar_glider.Env.{millisecond}
use deepiri_sugar_glider.Config.{Config, is_stream_allowed}
use deepiri_sugar_glider.Metrics.{inc_error, inc_read_events}
use deepiri_sugar_glider.Redis.{
  Message, Messages, ReadArgs, Redis, Event, is_no_group_error, redis_message_to_proto_event,
}
use deepiri_sugar_glider.Service.{Sidecar, count}
use deepiri_sugar_glider.Consume.{
  ReadRequest, AckRequest, ensure_consumer_group, forget_ensured_consumer_group,
}
use deepiri_sugar_glider.Dispatcher.{
  Dispatcher, subscriber_count, subscribers_backpressured, fan_out,
}
use deepiri_sugar_glider.Dispatcher.AckLoop.{
  AckSettings, AckState, AckError, ids_required, dispatcher_closed, ack_backlog, queue_ack,
}
use deepiri_sugar_glider.Dispatcher.Manager.{
  Manager, dispatcher_key, find, get_or_create, subscribe_at,
}

-- The errors of Subscribe and QueueAck, and their texts.
pub data RequestError : Type 0 where
  names_required not_allowed manager_closed not_found : RequestError
  not_queued : AckError → RequestError

unfoldable pub request_error_text : String → RequestError → String
request_error_text required names_required = required
request_error_text required not_allowed = "stream not allowed for this sugar glider"
request_error_text required manager_closed = "dispatcher is closed"
request_error_text required not_found = "dispatcher not found for stream/group"
request_error_text required (not_queued ids_required) = "entry_ids are required"
request_error_text required (not_queued dispatcher_closed) = "dispatcher is closed"
request_error_text required (not_queued ack_backlog) = "dispatcher ack queue is full"

-- What newStreamDispatcher takes from the request and the configuration for the loop that reads.
pub record Reader : Type 0 where
  pub stream_name : String
  pub consumer_group : String
  pub consumer_name : String
  pub read_count : ℤ
  pub block_duration : ℤ

unfoldable pub reader_of : Config → ReadRequest → Reader
unfolding millisecond
reader_of cfg req = record {
  stream_name = req.stream;
  consumer_group = req.consumer_group;
  consumer_name = cfg.dispatcher_consumer_name;
  read_count = if leb_ℤ req.count (pos 0) then cfg.dispatcher_read_count else req.count;
  block_duration =
      millisecond (if leb_ℤ req.block_ms (pos 0) then cfg.dispatcher_block_ms else req.block_ms);
}

-- A subscription: the handle of its dispatcher, its id, and the reader that a new dispatcher would have.
pub record Subscription : Type 0 where
  pub handle : ℕ
  pub id : ℕ
  pub reader : Reader

module _ {E : Type 0} where
  subscribe_found :
      Config → ReadRequest → Manager E × Option ℕ → Manager E × Result RequestError Subscription
  unfolding subscribe_at reader_of
  subscribe_found cfg req (m, none) = (m, err manager_closed)
  subscribe_found cfg req (m, some h) =
      let (n, id) = subscribe_at m h in
      (n, ok (record { handle = h; id = id; reader = reader_of cfg req }))

  subscribe_trimmed :
      ℕ → Config → Manager E → ReadRequest → Manager E × Result RequestError Subscription
  unfolding is_stream_allowed get_or_create dispatcher_key subscribe_found
  subscribe_trimmed buffer cfg m req =
      if is_empty req.stream || is_empty req.consumer_group
      then (m, err names_required)
      else if not (is_stream_allowed cfg.consume_streams req.stream)
      then (m, err not_allowed)
      else subscribe_found cfg req
          (get_or_create buffer m (dispatcher_key req.stream req.consumer_group))

  -- `buffer` is the size of the channel of a new subscriber.
  unfoldable pub manager_subscribe :
      ℕ → Config → Manager E → ReadRequest → Manager E × Result RequestError Subscription
  unfolding subscribe_trimmed trim_space
  manager_subscribe buffer cfg m req = subscribe_trimmed buffer cfg m (record req {
    stream = trim_space req.stream;
    consumer_group = trim_space req.consumer_group;
  })

-- The acknowledgements of the dispatchers, by their handles.
abbrev pub Acks : Type 0 → Type 0
Acks W = ℕ → AckState W

abbrev pub Queued : Type 0 → Type 0
Queued W = Acks W × Sidecar W × Result RequestError ℕ

abbrev from_queue : Result AckError ℕ → Result RequestError ℕ
from_queue (ok n) = ok n
from_queue (err e) = err (not_queued e)

unfoldable pub is_nil : List String → Bool
is_nil [] = true
is_nil (_ ∷ _) = false

module _ {W : Type 0} where
  unfoldable pub queue_found :
      AckSettings → Bool → Acks W → Sidecar W → List String → Option ℕ → Queued W
  unfolding queue_ack
  queue_found settings picks_queue acks s entry_ids none = (acks, s, err not_found)
  queue_found settings picks_queue acks s entry_ids (some h) =
      let (st, answer) =
        queue_ack settings picks_queue (record (acks h) { collector = s.collector }) entry_ids in
      (
        (λ i. if i == h then st else acks i),
        record s { collector = st.collector },
        from_queue answer,
      )

module _ {E W : Type 0} where
  unfoldable pub queue_trimmed :
      AckSettings → Bool → Manager E → Acks W → Sidecar W → String → String → List String → Queued W
  unfolding is_stream_allowed queue_found find dispatcher_key is_nil
  queue_trimmed settings picks_queue m acks s stream consumer_group entry_ids =
      if is_empty stream || is_empty consumer_group || is_nil entry_ids
      then (acks, s, err names_required)
      else if not (is_stream_allowed s.cfg.consume_streams stream)
      then (acks, s, err not_allowed)
      else queue_found settings picks_queue acks s entry_ids
          (find (dispatcher_key stream consumer_group) m.dispatchers)

  unfoldable pub manager_queue_ack :
      AckSettings → Bool → Manager E → Acks W → Sidecar W → AckRequest → Queued W
  unfolding queue_trimmed trim_space
  manager_queue_ack settings picks_queue m acks s req =
      queue_trimmed settings picks_queue m acks s (trim_space req.stream)
        (trim_space req.consumer_group) req.entry_ids

events_of_stream : String → String → List Message → List Event
unfolding redis_message_to_proto_event
events_of_stream now stream [] = []
events_of_stream now stream (message ∷ messages) =
    redis_message_to_proto_event now stream message ∷ events_of_stream now stream messages

-- `now` is the time for the messages that have none.
unfoldable pub events_of : String → List Messages → List Event
unfolding events_of_stream
events_of now [] = []
events_of now (s ∷ streams) = events_of_stream now s.stream s.messages ++ events_of now streams

-- The state of the loop that reads; the Boolean is that it goes on.
abbrev pub Loop : Type 0 → Type 0
Loop W = Sidecar W × Dispatcher Event × Bool

module _ {W : Type 0} (r : Redis W) (reader : Reader) where
  unfoldable pub deliver : List (List ℕ) → Sidecar W → Dispatcher Event → List Event → Loop W
  unfolding fan_out
  deliver takers s d [] = (s, d, true)
  deliver takers s d (event ∷ events) =
      let (e, c) =
        fan_out takers (event ∷ events) d (inc_read_events s.collector (length (event ∷ events))) in
      (count s c, e, true)

  -- `cancelled` is that the dispatcher was stopped while the read waited, and `takers` who takes events from
  -- the channels during the fan-out.
  unfoldable pub after_read :
      Bool → List (List ℕ) → Sidecar W → Dispatcher Event → Result GoError (List Messages) → Loop W
  unfolding is_no_group_error forget_ensured_consumer_group events_of deliver
  after_read cancelled takers s d (ok streams) =
      deliver takers s d (events_of (r.now s.world) streams)
  after_read cancelled takers s d (err redis_nil) = (s, d, true)
  after_read cancelled takers s d (err e) =
      if cancelled
      then (s, d, false)
      else let counted = count s (inc_error s.collector) in
        if is_no_group_error e
        then (
          forget_ensured_consumer_group counted reader.stream_name reader.consumer_group,
          d,
          true,
        )
        else (counted, d, true)

  unfoldable pub after_ensure :
      Bool → List (List ℕ) → Dispatcher Event → Sidecar W × Option GoError → Loop W
  unfolding after_read
  after_ensure cancelled takers d (s, some e) = (count s (inc_error s.collector), d, true)
  after_ensure cancelled takers d (s, none) =
      let (w, answer) = r.xread_group s.world (record {
        group = reader.consumer_group;
        consumer = reader.consumer_name;
        stream = reader.stream_name;
        count = reader.read_count;
        block = reader.block_duration;
      }) in
      after_read cancelled takers (record s { world = w }) d answer

  -- One turn of runReadLoop; the pauses are left out.
  unfoldable pub read_turn : Bool → List (List ℕ) → Sidecar W → Dispatcher Event → Loop W
  unfolding subscriber_count subscribers_backpressured ensure_consumer_group after_ensure
  read_turn cancelled takers s d =
      if d.stopped
      then (s, d, false)
      else if subscriber_count d == 0
      then (s, d, true)
      else if subscribers_backpressured d
      then (s, d, true)
      else after_ensure cancelled takers d
          (ensure_consumer_group r s reader.stream_name reader.consumer_group)
