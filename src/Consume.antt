-- ===== src/Consume.antt =====
-- internal/service/consume.go: reading with a consumer group, acknowledging, and the memory of the groups
-- that exist. A reply of the service is its status and text, or its result, whose status is 200.
pub mod Keys
pub mod Cache
pub mod Remembered
pub mod Counted
pub mod Commands
pub mod Examples
use Prim.Native.String.{String, ◌++◌ as append_text}
use text.Mathlib.Text.{◌==◌ as str_eq}
use deepiri_sugar_glider.Base.{
  ℕ, Bool, true, false, not, ◌||◌, Option, none, some, List, [], ◌∷◌, ◌++◌, length, if◌then◌else◌,
  GoError, redis_nil, error_text, Result, ok, err,
}
use deepiri_sugar_glider.Base.Int.{ℤ, pos, ltb_ℤ, leb_ℤ}
use deepiri_sugar_glider.Base.Parse.{to_upper, contains}
use deepiri_sugar_glider.Base.Text.{is_empty, trim_space}
use deepiri_sugar_glider.Env.{millisecond}
use deepiri_sugar_glider.Config.{is_stream_allowed}
use deepiri_sugar_glider.Metrics.{
  inc_error, inc_read_request, inc_read_events, inc_ack_request, inc_acked_entries,
  inc_group_ensure_attempt,
}
use deepiri_sugar_glider.Redis.{
  Fields, Message, Messages, ReadArgs, Redis, is_no_group_error, normalize_redis_value,
}
use deepiri_sugar_glider.Service.{
  Sidecar, count, status_ok, bad_request, forbidden, method_not_allowed, service_unavailable,
}
use deepiri_sugar_glider.Service.Publish.{Refusal}

pub record ReadRequest : Type 0 where
  pub stream : String
  pub consumer_group : String
  pub consumer_name : String
  pub count : ℤ
  pub block_ms : ℤ

pub record ReadEvent : Type 0 where
  pub stream : String
  pub entry_id : String
  pub fields : Fields

pub record AckRequest : Type 0 where
  pub stream : String
  pub consumer_group : String
  pub entry_ids : List String

unfoldable pub consumer_group_key : String → String → String
unfolding trim_space
consumer_group_key stream consumer_group =
    append_text (trim_space stream) (append_text "|" (trim_space consumer_group))

-- The map consumerGroupsEnsured, as the list of its keys.
unfoldable pub is_key : String → List String → Bool
is_key k [] = false
is_key k (j ∷ ks) = let rest = is_key k ks in if str_eq j k then true else rest

unfoldable pub add_key : String → List String → List String
unfolding is_key
add_key k ks = if is_key k ks then ks else k ∷ ks

unfoldable pub remove_key : String → List String → List String
remove_key k [] = []
remove_key k (j ∷ ks) = let rest = remove_key k ks in if str_eq j k then rest else j ∷ rest

abbrev pub trimmed_read : ReadRequest → ReadRequest
trimmed_read req = record req {
  stream = trim_space req.stream;
  consumer_group = trim_space req.consumer_group;
  consumer_name = trim_space req.consumer_name;
}

-- A count that is not positive is the default, and one above the limit is the limit.
unfoldable pub clamp : ℤ → ℤ → ℤ → ℤ
clamp default limit n =
    let chosen = if leb_ℤ n (pos 0) then default else n in
    if ltb_ℤ limit chosen then limit else chosen

unfoldable pub read_args : ReadRequest → ReadArgs
unfolding clamp millisecond
read_args req = record {
  group = req.consumer_group;
  consumer = req.consumer_name;
  stream = req.stream;
  count = clamp (pos 10) (pos 100) req.count;
  block = millisecond (if leb_ℤ req.block_ms (pos 0) then pos 1000 else req.block_ms);
}

normalize_fields : Fields → Fields
unfolding normalize_redis_value
normalize_fields [] = []
normalize_fields ((k, v) ∷ fields) = (k, normalize_redis_value v) ∷ normalize_fields fields

events_of_stream : String → List Message → List ReadEvent
unfolding normalize_fields
events_of_stream stream [] = []
events_of_stream stream (message ∷ messages) =
    record { stream = stream; entry_id = message.id; fields = normalize_fields message.values }
    ∷ events_of_stream stream messages

unfoldable pub read_events : List Messages → List ReadEvent
unfolding events_of_stream
read_events [] = []
read_events (s ∷ streams) = events_of_stream s.stream s.messages ++ read_events streams

-- The state after a command, and what it answered.
abbrev pub Answer : Type 0 → Type 0
Answer W = Sidecar W × Result GoError (List Messages)

abbrev pub is_none : List String → Bool
is_none [] = true
is_none (_ ∷ _) = false

module _ {W : Type 0} where
  unfoldable pub is_consumer_group_ensured : Sidecar W → String → String → Bool
  unfolding is_key consumer_group_key
  is_consumer_group_ensured s stream consumer_group =
      is_key (consumer_group_key stream consumer_group) s.consumer_groups_ensured

  unfoldable pub remember_consumer_group : Sidecar W → String → String → Sidecar W
  unfolding add_key consumer_group_key
  remember_consumer_group s stream consumer_group = record s {
    consumer_groups_ensured =
        add_key (consumer_group_key stream consumer_group) s.consumer_groups_ensured;
  }

  unfoldable pub forget_ensured_consumer_group : Sidecar W → String → String → Sidecar W
  unfolding remove_key consumer_group_key
  forget_ensured_consumer_group s stream consumer_group = record s {
    consumer_groups_ensured =
        remove_key (consumer_group_key stream consumer_group) s.consumer_groups_ensured;
  }

  abbrev pub refuse : {A : Type 0} → Sidecar W → ℕ → String → Sidecar W × Result Refusal A
  refuse s status message = (count s (inc_error s.collector), err (status, message))

  -- A group that exists already is as good as a new one.
  unfoldable pub after_create :
      Sidecar W → String → String → Option GoError → Sidecar W × Option GoError
  unfolding remember_consumer_group contains to_upper
  after_create s stream consumer_group none =
      (remember_consumer_group s stream consumer_group, none)
  after_create s stream consumer_group (some e) =
      if contains (to_upper (error_text e)) "BUSYGROUP"
      then (remember_consumer_group s stream consumer_group, none)
      else (s, some e)

  unfoldable pub finish_read : Answer W → Sidecar W × Result Refusal (List ReadEvent)
  unfolding read_events
  finish_read (s, err redis_nil) = (s, ok [])
  finish_read (s, err _) = refuse s service_unavailable "failed to read from stream"
  finish_read (s, ok streams) =
      let events = read_events streams in
      (count s (inc_read_events s.collector (length events)), ok events)

  unfoldable pub finish_ack : Sidecar W → Result GoError ℕ → Sidecar W × Result Refusal ℕ
  finish_ack s (err _) = refuse s service_unavailable "failed to ack stream entries"
  finish_ack s (ok acked) = (count s (inc_acked_entries s.collector acked), ok acked)

module _ {W : Type 0} (r : Redis W) where
  unfoldable pub create_group : Sidecar W → String → String → Sidecar W × Option GoError
  unfolding after_create
  create_group s stream consumer_group =
      let (w, e) = r.xgroup_create s.world stream consumer_group in
      after_create (record s { world = w; collector = inc_group_ensure_attempt s.collector }) stream
        consumer_group e

  unfoldable pub ensure_consumer_group : Sidecar W → String → String → Sidecar W × Option GoError
  unfolding is_consumer_group_ensured create_group
  ensure_consumer_group s stream consumer_group =
      if is_consumer_group_ensured s stream consumer_group
      then (s, none)
      else create_group s stream consumer_group

  unfoldable pub read_once : Sidecar W → ReadRequest → Answer W
  unfolding read_args
  read_once s req =
      let (w, answer) = r.xread_group s.world (read_args req) in (record s { world = w }, answer)

  retry_ensured : ReadRequest → GoError → Sidecar W × Option GoError → Answer W
  unfolding read_once
  retry_ensured req e (s, none) = read_once s req
  retry_ensured req e (s, some _) = (s, err e)

  -- One more try where the group is missing.
  unfoldable pub retry : ReadRequest → Answer W → Answer W
  unfolding is_no_group_error forget_ensured_consumer_group ensure_consumer_group retry_ensured
  retry req (s, ok streams) = (s, ok streams)
  retry req (s, err e) =
      if is_no_group_error e
      then retry_ensured req e (
          ensure_consumer_group (forget_ensured_consumer_group s req.stream req.consumer_group)
            req.stream req.consumer_group)
      else (s, err e)

  unfoldable pub read_ensured :
      ReadRequest → Sidecar W × Option GoError → Sidecar W × Result Refusal (List ReadEvent)
  unfolding read_once retry finish_read
  read_ensured req (s, some _) = refuse s service_unavailable "failed to ensure consumer group"
  read_ensured req (s, none) = finish_read (retry req (read_once s req))

  unfoldable pub consume_trimmed :
      Sidecar W → ReadRequest → Sidecar W × Result Refusal (List ReadEvent)
  unfolding is_stream_allowed ensure_consumer_group read_ensured
  consume_trimmed s req =
      if is_empty req.stream || is_empty req.consumer_group || is_empty req.consumer_name
      then refuse s bad_request "stream, consumer_group, and consumer_name are required"
      else if not (is_stream_allowed s.cfg.consume_streams req.stream)
      then refuse s forbidden "stream not allowed for this sugar glider"
      else read_ensured req (ensure_consumer_group s req.stream req.consumer_group)

  unfoldable pub consume_group_once :
      Sidecar W → ReadRequest → Sidecar W × Result Refusal (List ReadEvent)
  unfolding consume_trimmed trim_space
  consume_group_once s req = consume_trimmed s (trimmed_read req)

  unfoldable pub ack_trimmed :
      Sidecar W → String → String → List String → Sidecar W × Result Refusal ℕ
  unfolding is_stream_allowed finish_ack
  ack_trimmed s stream consumer_group entry_ids =
      if is_empty stream || is_empty consumer_group || is_none entry_ids
      then refuse s bad_request "stream, consumer_group, and entry_ids are required"
      else if not (is_stream_allowed s.cfg.consume_streams stream)
      then refuse s forbidden "stream not allowed for this sugar glider"
      else let (w, answer) = r.xack s.world stream consumer_group entry_ids in
        finish_ack (record s { world = w }) answer

  unfoldable pub ack_entries_internal : Sidecar W → AckRequest → Sidecar W × Result Refusal ℕ
  unfolding ack_trimmed trim_space
  ack_entries_internal s req =
      ack_trimmed s (trim_space req.stream) (trim_space req.consumer_group) req.entry_ids

-- The bodies that the two handlers write.
pub data Body : Type 0 where
  empty : Body
  error : String → Body
  events : List ReadEvent → Body
  acked : ℕ → Body

module _ {W A : Type 0} where
  unfoldable pub respond : (A → Body) → Sidecar W × Result Refusal A → Sidecar W × (ℕ × Body)
  respond body (s, err (status, message)) = (s, (status, Body.error message))
  respond body (s, ok a) = (s, (status_ok, body a))

module _ {W : Type 0} (r : Redis W) where
  -- `decoded` is what the JSON decoder makes of the body.
  unfoldable pub read_from_stream : Sidecar W → String → Option ReadRequest → Sidecar W × (ℕ × Body)
  unfolding consume_group_once respond
  read_from_stream s₀ method decoded =
      let s = count s₀ (inc_read_request s₀.collector) in
      if str_eq method "POST"
      then elim decoded [
        | none ↦ (count s (inc_error s.collector), (bad_request, Body.error "invalid JSON"))
        | some req ↦ respond Body.events (consume_group_once r s req)
      ]
      else (s₀, (method_not_allowed, empty))

  unfoldable pub ack_entries : Sidecar W → String → Option AckRequest → Sidecar W × (ℕ × Body)
  unfolding ack_entries_internal respond
  ack_entries s₀ method decoded =
      let s = count s₀ (inc_ack_request s₀.collector) in
      if str_eq method "POST"
      then elim decoded [
        | none ↦ (count s (inc_error s.collector), (bad_request, Body.error "invalid JSON"))
        | some req ↦ respond Body.acked (ack_entries_internal r s req)
      ]
      else (s₀, (method_not_allowed, empty))
