-- ===== src/Service/Grpc.antt =====
-- The publish methods of internal/service/grpc.go, and publishBatchToRedis of service.go.
pub mod Batch
pub mod Streams
pub mod Calls
use Prim.Native.String.{String}
use text.Mathlib.Text.{◌==◌ as str_eq}
use deepiri_sugar_glider.Base.{
  ℕ, ◌+◌, Bool, true, false, ◌||◌, Option, none, some, List, [], ◌∷◌, length, ◌==◌, if◌then◌else◌,
  GoError, error_text, Result, ok, err,
}
use deepiri_sugar_glider.Base.Text.{is_empty, trim_space}
use deepiri_sugar_glider.RedisStreams.{PublishRequest}
use deepiri_sugar_glider.Config.{sync_on_success}
use deepiri_sugar_glider.Metrics.{
  Collector, inc_error, inc_publish_attempts, inc_publish_success, inc_publish_pipeline_fallback,
  inc_publish_pipeline_error, inc_wal_replay_sync_call,
}
use deepiri_sugar_glider.Service.{Pipeline, Outside, Sidecar, count, gateway_timeout}
use deepiri_sugar_glider.Service.Publish.{
  Reply, Refusal, falls_back, direct, count_error, publish_to_redis, publish_internal,
  should_skip_wal, replay_wal, normalize_publish_request,
}

pub data Code : Type 0 where
  invalid_argument permission_denied not_found unavailable deadline_exceeded internal : Code

abbrev pub Status : Type 0
Status = Code × String

unfoldable pub grpc_status_from_http_status : ℕ → String → Status
grpc_status_from_http_status status message =
    if status == 400
    then (invalid_argument, message)
    else if status == 403
    then (permission_denied, message)
    else if status == 404
    then (not_found, message)
    else if status == 503
    then (unavailable, message)
    else if status == 504
    then (deadline_exceeded, message)
    else (internal, message)

pub record PublishResponse : Type 0 where
  pub entry_id : String
  pub queued : Bool

unfoldable pub respond : Reply → Result Status PublishResponse
unfolding grpc_status_from_http_status
respond reply = elim reply.error [
  | some text ↦ err (grpc_status_from_http_status reply.status text)
  | none ↦
      if reply.queued
      then ok (record { entry_id = ""; queued = true })
      else ok (record { entry_id = reply.entry_id; queued = false })
]

-- A request that is nil is `none`; the message of the protocol has the fields of PublishRequest.
unfoldable pub publish :
    {W : Type 0}
    → Outside W
    → Sidecar W
    → Option PublishRequest
    → Sidecar W × Result Status PublishResponse
unfolding publish_internal respond
publish o s₀ request =
    let s = count s₀ (inc_publish_attempts s₀.collector) in
    elim request [
      | none ↦ (count s (inc_error s.collector), err (invalid_argument, "request is required"))
      | some req ↦ let (t, reply) = publish_internal o s req in (t, respond reply)
    ]

pub record PublishBatchRequest : Type 0 where
  pub stream : String
  pub events : List (Option PublishRequest)

-- What a batch of publications did: the ids it got, and the error that ended it.
abbrev pub Sent : Type 0 → Type 0
Sent W = Sidecar W × List String × Option GoError

module _ {W : Type 0} where
  abbrev prepend : String → Sent W → Sent W
  prepend id (s, ids, e) = (s, id ∷ ids, e)

  -- One publication after the other, up to the first error.
  unfoldable pub publish_each :
      (Sidecar W → PublishRequest → Sidecar W × Result GoError String)
      → Sidecar W
      → List PublishRequest
      → Sent W
  publish_each send s [] = (s, [], none)
  publish_each send s (req ∷ reqs) =
      let (t, r) = send s req in
      elim r [ err e ↦ (t, [], some e) | ok id ↦ prepend id (publish_each send t reqs) ]

  -- The results of the pipeline up to the first error.
  unfoldable pub collect_results : Sidecar W → List (Result GoError String) → Sent W
  collect_results s [] = (s, [], none)
  collect_results s (err e ∷ results) =
      (count s (inc_publish_pipeline_error s.collector 1), [], some e)
  collect_results s (ok id ∷ results) = prepend id (collect_results s results)

module _ {W : Type 0} (o : Outside W) where
  abbrev direct_counted : Sidecar W → PublishRequest → Sidecar W × Result GoError String
  direct_counted s req = count_error o (direct o s req)

  after_many :
      Sidecar W → List PublishRequest → Result GoError (List (Result GoError String)) → Sent W
  unfolding falls_back direct count_error publish_each collect_results
  after_many s reqs (err e) =
      if falls_back e
      then publish_each direct_counted (count s (inc_publish_pipeline_fallback s.collector)) reqs
      else (count s (inc_publish_pipeline_error s.collector (length reqs)), [], some e)
  after_many s reqs (ok results) = collect_results s results

  batch_route : Option (Pipeline W) → Sidecar W → List PublishRequest → Sent W
  unfolding publish_each publish_to_redis after_many
  batch_route p s [] = (s, [], none)
  batch_route none s (req ∷ reqs) = publish_each (publish_to_redis o) s (req ∷ reqs)
  batch_route (some p) s (req ∷ []) = publish_each (publish_to_redis o) s (req ∷ [])
  batch_route (some p) s (a ∷ b ∷ reqs) =
      let (c, w, r) = p.publish_many s.collector s.world (a ∷ b ∷ reqs) in
      after_many (record s { collector = c; world = w }) (a ∷ b ∷ reqs) r

  unfoldable pub publish_batch_to_redis : Sidecar W → List PublishRequest → Sent W
  unfolding batch_route
  publish_batch_to_redis s reqs = batch_route o.pipeline s reqs

  -- An event without a stream of its own has that of the batch.
  abbrev of_event : String → PublishRequest → PublishRequest
  of_event stream event =
      let own = trim_space event.stream in
      record event { stream = if is_empty own then stream else own }

  cons_ok :
      {A : Type 0} → A → Sidecar W × Result Status (List A) → Sidecar W × Result Status (List A)
  cons_ok x (s, err e) = (s, err e)
  cons_ok x (s, ok xs) = (s, ok (x ∷ xs))

  -- The events, normalized, up to the first that is refused.
  normalize_events :
      String
      → Sidecar W
      → List (Option PublishRequest)
      → Sidecar W × Result Status (List PublishRequest)
  unfolding normalize_publish_request grpc_status_from_http_status trim_space cons_ok
  normalize_events stream s [] = (s, ok [])
  normalize_events stream s (none ∷ events) =
      (count s (inc_error s.collector), err (invalid_argument, "batch contains nil event"))
  normalize_events stream s (some event ∷ events) =
      let (t, r) = normalize_publish_request s (of_event stream event) stream in
      elim r [
        | err (status, text) ↦ (t, err (grpc_status_from_http_status status text))
        | ok req ↦ cons_ok req (normalize_events stream t events)
      ]

  repeat_count : {A : Type 0} → (Collector → Collector) → List A → Collector → Collector
  repeat_count f [] c = c
  repeat_count f (_ ∷ xs) c = repeat_count f xs (f c)

  -- Each event by itself, which the log can take; the id of one that is queued is empty.
  fallback_each : Sidecar W → List PublishRequest → Sidecar W × Result Status (List String)
  unfolding publish_internal respond cons_ok
  fallback_each s [] = (s, ok [])
  fallback_each s (req ∷ reqs) =
      let (t, reply) = publish_internal o s req in
      elim (respond reply) [
        | err e ↦ (t, err e)
        | ok response ↦ cons_ok response.entry_id (fallback_each t reqs)
      ]

  after_batch : List PublishRequest → Sent W → Sidecar W × Result Status (List String)
  unfolding should_skip_wal grpc_status_from_http_status fallback_each repeat_count replay_wal
  after_batch reqs (s, ids, none) =
      let counted = count s (repeat_count inc_publish_success reqs s.collector) in
      if str_eq s.cfg.wal_replay_mode sync_on_success
      then (replay_wal o (count counted (inc_wal_replay_sync_call counted.collector)), ok ids)
      else (counted, ok ids)
  after_batch reqs (s, id ∷ ids, some e) =
      (count s (inc_error s.collector), err (unavailable, error_text e))
  after_batch reqs (s, [], some e) =
      if should_skip_wal (o.caller_done s.world) e
      then (
        count s (inc_error s.collector),
        err (grpc_status_from_http_status gateway_timeout (error_text e)),
      )
      else fallback_each s reqs

  publish_normalized :
      Sidecar W × Result Status (List PublishRequest) → Sidecar W × Result Status (List String)
  unfolding publish_batch_to_redis after_batch repeat_count
  publish_normalized (s, err e) = (s, err e)
  publish_normalized (s, ok reqs) =
      after_batch reqs
        (publish_batch_to_redis (count s (repeat_count inc_publish_attempts reqs s.collector)) reqs)

  publish_events :
      Sidecar W → String → List (Option PublishRequest) → Sidecar W × Result Status (List String)
  unfolding normalize_events publish_normalized trim_space
  publish_events s stream [] =
      (count s (inc_error s.collector), err (invalid_argument, "events are required"))
  publish_events s stream (event ∷ events) =
      publish_normalized (normalize_events (trim_space stream) s (event ∷ events))

  unfoldable pub publish_batch :
      Sidecar W → Option PublishBatchRequest → Sidecar W × Result Status (List String)
  unfolding publish_events
  publish_batch s none =
      (count s (inc_error s.collector), err (invalid_argument, "request is required"))
  publish_batch s (some request) = publish_events s request.stream request.events
