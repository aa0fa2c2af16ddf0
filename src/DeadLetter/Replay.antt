-- ===== src/DeadLetter/Replay.antt =====
-- internal/service/dlq_replay.go: entries of a dead-letter stream that are published again.
use Prim.Native.String.{String, ◌++◌ as append_text}
use package.text.Mathlib.Text.{◌==◌ as str_eq}
use deepiri_sugar_glider.Base.{
  ℕ, suc, Bool, true, not, ◌||◌, Option, none, some, List, [], ◌∷◌, ◌++◌, if◌then◌else◌, GoError,
  redis_nil, error_text, Result, ok, err,
}
use deepiri_sugar_glider.Base.Int.{ℤ, pos}
use deepiri_sugar_glider.Base.Parse.{has_prefix}
use deepiri_sugar_glider.Base.Text.{is_empty, trim_space}
use deepiri_sugar_glider.Config.{is_stream_allowed}
use deepiri_sugar_glider.Metrics.{inc_error, inc_dlq_replayed}
use deepiri_sugar_glider.RedisStreams.{Value, text}
use deepiri_sugar_glider.Redis.{
  Fields, Message, Redis, field, assign, sprint, is_no_such_stream_err,
}
use deepiri_sugar_glider.Service.{
  Sidecar, count, status_ok, bad_request, method_not_allowed, service_unavailable,
}
use deepiri_sugar_glider.Service.Publish.{Refusal}
use deepiri_sugar_glider.Consume.{clamp}

pub record ReplayRequest : Type 0 where
  pub dlq_stream : String
  pub target_stream : String
  pub count : ℤ
  pub start : String
  pub stop : String
  pub delete_from_dlq : Bool

pub record ReplayResult : Type 0 where
  pub replayed : ℕ
  pub skipped : ℕ
  pub entry_ids : List String

abbrev pub no_result : ReplayResult
no_result = record { replayed = 0; skipped = 0; entry_ids = [] }

-- A request with its names trimmed.
abbrev pub trimmed_replay : ReplayRequest → ReplayRequest
trimmed_replay req = record req {
  dlq_stream = trim_space req.dlq_stream;
  target_stream = trim_space req.target_stream;
  start = trim_space req.start;
  stop = trim_space req.stop;
}

abbrev or_else : String → String → String
or_else s default = if is_empty s then default else s

unfoldable pub with_defaults : ReplayRequest → ReplayRequest
unfolding clamp
with_defaults req = record req {
  count = clamp (pos 100) (pos 1000) req.count;
  start = or_else req.start "-";
  stop = or_else req.stop "+";
}

-- The stream of the request, or that which the entry came from.
unfoldable pub target_of : String → Message → String
unfolding field sprint trim_space
target_of requested message =
    if is_empty requested
    then elim (field "dlq_original_stream" message.values) [
      | none ↦ ""
      | some raw ↦ trim_space (sprint raw)
    ]
    else requested

-- The fields that do not start with "dlq_".
unfoldable pub strip_dlq : Fields → Fields
unfolding has_prefix
strip_dlq [] = []
strip_dlq ((k, v) ∷ fields) =
    let rest = strip_dlq fields in if has_prefix k "dlq_" then rest else (k, v) ∷ rest

unfoldable pub keep_original : Option Value → Fields → Fields
unfolding assign
keep_original none values = values
keep_original (some original_id) values = assign "dlq_original_id" original_id values

unfoldable pub replay_values : String → String → Message → Fields
unfolding assign strip_dlq field keep_original
replay_values now dlq_stream message = keep_original (field "dlq_original_id" message.values) (
    assign "dlq_replayed_at" (text now)
      (assign "dlq_replayed_from" (text dlq_stream) (strip_dlq message.values)))

-- What becomes of one entry.
pub data Outcome : Type 0 where
  skipped replayed : Outcome
  failed : Refusal → Outcome

unfoldable pub add_skipped : ReplayResult → ReplayResult
add_skipped result = record result { skipped = suc result.skipped }

unfoldable pub add_replayed : String → ReplayResult → ReplayResult
add_replayed id result = record result {
  replayed = suc result.replayed;
  entry_ids = result.entry_ids ++ id ∷ [];
}

-- A message of an error that wraps another.
wrap : String → String → GoError → String
unfolding error_text
wrap what id e = append_text what (append_text id (append_text ": " (error_text e)))

module _ {W : Type 0} (r : Redis W) where
  unfoldable pub after_delete : String → Sidecar W × Option GoError → Sidecar W × Outcome
  unfolding wrap
  after_delete id (s, none) = (s, replayed)
  after_delete id (s, some e) = (
    count s (inc_error s.collector),
    failed (service_unavailable, wrap "requeued but failed to delete dlq entry " id e),
  )

  unfoldable pub after_requeue :
      ReplayRequest → String → Sidecar W × Option GoError → Sidecar W × Outcome
  unfolding wrap after_delete
  after_requeue req id (s, some e) = (
    count s (inc_error s.collector),
    failed (service_unavailable, wrap "failed to requeue dlq entry " id e),
  )
  after_requeue req id (s, none) =
      if req.delete_from_dlq
      then after_delete id
          (let (w, e) = r.xdel s.world req.dlq_stream id in (record s { world = w }, e))
      else (s, replayed)

  unfoldable pub requeue : ReplayRequest → String → Sidecar W → Message → Sidecar W × Outcome
  unfolding replay_values after_requeue
  requeue req target s message = after_requeue req message.id (
      let (w, e) = r.xadd s.world (record {
        stream = target;
        max_len = s.cfg.max_stream_len;
        approx = true;
        values = replay_values (r.now s.world) req.dlq_stream message;
      }) in
      (record s { world = w }, e))

  unfoldable pub replay_one : ReplayRequest → Sidecar W → Message → Sidecar W × Outcome
  unfolding target_of is_stream_allowed requeue
  replay_one req s message =
      let target = target_of req.target_stream message in
      if is_empty target || not (is_stream_allowed s.cfg.publish_streams target)
      then (s, skipped)
      else requeue req target s message

  -- The results of replayDLQInternal; the status of one without an error is 200.
  abbrev pub Replayed : Type 0
  Replayed = Sidecar W × ReplayResult × Option Refusal

  -- `rest` is the loop over the other entries.
  unfoldable pub go_on :
      (Sidecar W → ReplayResult → Replayed) → String → ReplayResult → Sidecar W × Outcome → Replayed
  unfolding add_skipped add_replayed
  go_on rest id result (s, skipped) = rest s (add_skipped result)
  go_on rest id result (s, replayed) = rest s (add_replayed id result)
  go_on rest id result (s, failed refusal) = (s, result, some refusal)

  unfoldable pub replay_messages :
      ReplayRequest → Sidecar W → ReplayResult → List Message → Replayed
  unfolding replay_one go_on
  replay_messages req s result [] = (s, result, none)
  replay_messages req s result (message ∷ messages) =
      go_on (λ t counted. replay_messages req t counted messages) message.id result
        (replay_one req s message)

  unfoldable pub count_replayed : Replayed → Replayed
  unfolding inc_dlq_replayed
  count_replayed (s, result, some refusal) = (s, result, some refusal)
  count_replayed (s, result, none) =
      (count s (inc_dlq_replayed s.collector result.replayed), result, none)

  unfoldable pub after_range : ReplayRequest → Sidecar W → Result GoError (List Message) → Replayed
  unfolding is_no_such_stream_err error_text replay_messages count_replayed
  after_range req s (ok messages) = count_replayed (replay_messages req s no_result messages)
  after_range req s (err redis_nil) = (s, no_result, none)
  after_range req s (err e) = if is_no_such_stream_err e then (s, no_result, none) else (
    count s (inc_error s.collector),
    no_result,
    some (service_unavailable, append_text "failed to read dlq stream: " (error_text e)),
  )

  unfoldable pub replay_range : ReplayRequest → Sidecar W → Replayed
  unfolding after_range
  replay_range req s =
      let (w, answer) = r.xrange_n s.world req.dlq_stream req.start req.stop req.count in
      after_range req (record s { world = w }) answer

  unfoldable pub replay_trimmed : ReplayRequest → Sidecar W → Replayed
  unfolding with_defaults replay_range
  replay_trimmed req s =
      if is_empty req.dlq_stream
      then (
        count s (inc_error s.collector),
        no_result,
        some (bad_request, "dlq_stream is required"),
      )
      else replay_range (with_defaults req) s

  unfoldable pub replay_dlq_internal : Sidecar W → ReplayRequest → Replayed
  unfolding replay_trimmed trim_space
  replay_dlq_internal s req = replay_trimmed (trimmed_replay req) s

-- The bodies that the handler writes.
pub data Body : Type 0 where
  empty : Body
  error : String → Body
  result : ReplayResult → Body

module _ {W : Type 0} (r : Redis W) where
  unfoldable pub respond : Replayed r → Sidecar W × (ℕ × Body)
  respond (s, done, some (status, message)) = (s, (status, Body.error message))
  respond (s, done, none) = (s, (status_ok, Body.result done))

  -- `decoded` is what the JSON decoder makes of the body.
  unfoldable pub replay_dlq_http :
      Sidecar W → String → Option ReplayRequest → Sidecar W × (ℕ × Body)
  unfolding replay_dlq_internal respond
  replay_dlq_http s method decoded =
      if str_eq method "POST"
      then elim decoded [
        | none ↦ (count s (inc_error s.collector), (bad_request, Body.error "invalid JSON"))
        | some req ↦ respond (replay_dlq_internal r s req)
      ]
      else (s, (method_not_allowed, empty))
