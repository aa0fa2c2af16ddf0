-- ===== src/Service/Grpc/Calls.antt =====
-- Ack, StreamInfo, Health and ReplayDLQ of internal/service/grpc.go. A request that is nil is `none`.
pub mod Counts
mod Examples
use Prim.Native.String.{String, ◌++◌ as append_text}
use text.Mathlib.Text.{◌==◌ as str_eq}
use deepiri_sugar_glider.Base.{
  ℕ, ◌+◌, ◌-◌, ◌%◌, ◌^◌, Bool, true, false, not, ◌&&◌, ◌||◌, Option, none, some, List, [], ◌∷◌,
  length, ltb, if◌then◌else◌, GoError, redis_nil, error_text, Result, ok, err,
}
use deepiri_sugar_glider.Base.Int.{ℤ, pos, negsuc, leb_ℤ}
use deepiri_sugar_glider.Base.Text.{is_empty, trim_space}
use deepiri_sugar_glider.Config.{Config, dispatcher, is_stream_allowed}
use deepiri_sugar_glider.Metrics.{inc_error, inc_read_request, inc_ack_request, inc_ack_rpc_request}
use deepiri_sugar_glider.Redis.{
  Fields, Redis, Event, StreamInfo, field, to_string, is_no_such_stream_err,
}
use deepiri_sugar_glider.Service.{Sidecar, count}
use deepiri_sugar_glider.Service.Publish.{Refusal}
use deepiri_sugar_glider.Service.Grpc.{
  Code, Status, invalid_argument, permission_denied, unavailable, internal,
  grpc_status_from_http_status,
}
use deepiri_sugar_glider.Consume.{
  ReadRequest, ReadEvent, AckRequest, consume_group_once, ack_entries_internal,
}
use deepiri_sugar_glider.DeadLetter.Replay.{ReplayRequest, ReplayResult, replay_dlq_internal}
use deepiri_sugar_glider.Dispatcher.AckLoop.{AckSettings}
use deepiri_sugar_glider.Dispatcher.Manager.{Manager}
use deepiri_sugar_glider.Dispatcher.Requests.{
  RequestError, not_found, request_error_text, Subscription, manager_subscribe, Acks, Queued,
  manager_queue_ack,
}

pub record StreamInfoResponse : Type 0 where
  pub length : ℤ
  pub groups : ℤ
  pub first_entry_id : String
  pub last_entry_id : String

pub record HealthResponse : Type 0 where
  pub healthy : Bool
  pub redis_status : String

pub record ReplayResponse : Type 0 where
  pub replayed : ℤ
  pub skipped : ℤ
  pub entry_ids : List String

-- int32(n)
unfoldable pub to_int32 : ℕ → ℤ
to_int32 n =
    let bits = n % 2 ^ 32 in if ltb bits (2 ^ 31) then pos bits else negsuc (2 ^ 32 - 1 - bits)

module _ {W : Type 0} (r : Redis W) (settings : AckSettings) (picks_queue : Bool) where
  abbrev pub Acked : Type 0
  Acked = Acks W × Sidecar W × Result Status ℤ

  unfoldable pub acked_directly : Acks W → Sidecar W × Result Refusal ℕ → Acked
  unfolding grpc_status_from_http_status to_int32
  acked_directly acks (s, err (status, message)) =
      (acks, s, err (grpc_status_from_http_status status message))
  acked_directly acks (s, ok n) = (acks, s, ok (to_int32 n))

  unfoldable pub ack_direct : Acks W → Sidecar W → AckRequest → Acked
  unfolding acked_directly ack_entries_internal
  ack_direct acks s req = acked_directly acks (ack_entries_internal r s req)

  -- A dispatcher that is not found leaves the request to the direct way.
  unfoldable pub after_queue : AckRequest → Queued W → Acked
  unfolding ack_direct to_int32 request_error_text
  after_queue req (acks, s, ok n) = (acks, s, ok (to_int32 n))
  after_queue req (acks, s, err not_found) = ack_direct acks s req
  after_queue req (acks, s, err e) = (
    acks,
    count s (inc_error s.collector),
    err (unavailable, request_error_text "stream, consumer_group, and entry_ids are required" e),
  )

  unfoldable pub ack_managed : Option (Manager Event) → Acks W → Sidecar W → AckRequest → Acked
  unfolding ack_direct after_queue manager_queue_ack
  ack_managed none acks s req = ack_direct acks s req
  ack_managed (some m) acks s req =
      after_queue req (manager_queue_ack settings picks_queue m acks s req)

  unfoldable pub ack : Option (Manager Event) → Acks W → Sidecar W → Option AckRequest → Acked
  unfolding ack_managed ack_direct
  ack manager acks s₀ request =
      let s = count s₀ (inc_ack_rpc_request (inc_ack_request s₀.collector)) in
      elim request [
        | none ↦
            (acks, count s (inc_error s.collector), err (invalid_argument, "request is required"))
        | some req ↦
            if str_eq s.cfg.consume_mode dispatcher
            then ack_managed manager acks s req
            else ack_direct acks s req
      ]

module _ {W : Type 0} (r : Redis W) where
  abbrev Info : Type 0
  Info = Sidecar W × Result Status StreamInfoResponse

  info_of : Sidecar W → StreamInfo → List String → Info
  unfolding to_int32
  info_of s info groups = (
    s,
    ok (record {
      length = info.length;
      groups = to_int32 (length groups);
      first_entry_id = info.first_entry_id;
      last_entry_id = info.last_entry_id;
    }),
  )

  -- A stream that does not exist has no groups.
  after_groups : StreamInfo → Sidecar W → Result GoError (List String) → Info
  unfolding info_of is_no_such_stream_err
  after_groups info s (ok groups) = info_of s info groups
  after_groups info s (err redis_nil) = info_of s info []
  after_groups info s (err e) =
      if is_no_such_stream_err e
      then info_of s info []
      else (count s (inc_error s.collector), err (unavailable, "failed to fetch stream groups"))

  abbrev no_stream : StreamInfoResponse
  no_stream = record { length = pos 0; groups = pos 0; first_entry_id = ""; last_entry_id = "" }

  after_info : String → Sidecar W → Result GoError StreamInfo → Info
  unfolding after_groups is_no_such_stream_err
  after_info name s (ok info) =
      let (w, groups) = r.xinfo_groups s.world name in
      after_groups info (record s { world = w }) groups
  after_info name s (err redis_nil) = (s, ok no_stream)
  after_info name s (err e) =
      if is_no_such_stream_err e
      then (s, ok no_stream)
      else (count s (inc_error s.collector), err (unavailable, "failed to fetch stream info"))

  info_named : Sidecar W → String → Info
  unfolding after_info is_stream_allowed
  info_named s name =
      if is_empty name
      then (count s (inc_error s.collector), err (invalid_argument, "stream is required"))
      else if not (is_stream_allowed s.cfg.publish_streams name)
          && not (is_stream_allowed s.cfg.consume_streams name)
      then (
        count s (inc_error s.collector),
        err (permission_denied, "stream not allowed for this sugar glider"),
      )
      else let (w, info) = r.xinfo_stream s.world name in
        after_info name (record s { world = w }) info

  -- The request is the name of its stream.
  unfoldable pub stream_info : Sidecar W → Option String → Info
  unfolding info_named trim_space
  stream_info s none = info_named s ""
  stream_info s (some name) = info_named s (trim_space name)

  health_of : Sidecar W → W × Option GoError → Sidecar W × HealthResponse
  health_of s (w, none) = (record s { world = w }, record { healthy = true; redis_status = "ok" })
  health_of s (w, some e) =
      (record s { world = w }, record { healthy = false; redis_status = "down" })

  unfoldable pub health : Sidecar W → Sidecar W × HealthResponse
  unfolding health_of
  health s = health_of s (r.ping s.world)

  replayed_of : Sidecar W × ReplayResult × Option Refusal → Sidecar W × Result Status ReplayResponse
  unfolding grpc_status_from_http_status to_int32
  replayed_of (s, result, some (status, message)) =
      (s, err (grpc_status_from_http_status status message))
  replayed_of (s, result, none) = (
    s,
    ok (record {
      replayed = to_int32 result.replayed;
      skipped = to_int32 result.skipped;
      entry_ids = result.entry_ids;
    }),
  )

  unfoldable pub replay_dlq :
      Sidecar W → Option ReplayRequest → Sidecar W × Result Status ReplayResponse
  unfolding replayed_of replay_dlq_internal
  replay_dlq s none =
      (count s (inc_error s.collector), err (invalid_argument, "request is required"))
  replay_dlq s (some req) = replayed_of (replay_dlq_internal r s req)
