-- ===== src/Service/Publish.antt =====
-- The publish path of internal/service/service.go, from a request to Redis or to the log.
pub mod Kept
pub mod Counts
pub mod Normalize
pub mod Durability
pub mod Queued
use Prim.Native.String.{String}
use text.Mathlib.Text.{◌==◌ as str_eq}
use deepiri_sugar_glider.Base.{
  ℕ, suc, ◌+◌, Bool, true, false, not, ◌&&◌, ◌||◌, Option, none, some, List, [], ◌∷◌, ◌++◌, ltb,
  if◌then◌else◌, GoError, canceled, deadline_exceeded, queue_full, stopped, other, error_text,
  Result, ok, err,
}
use deepiri_sugar_glider.Base.Int.{ℤ, pos, negsuc, ltb_ℤ, leb_ℤ}
use deepiri_sugar_glider.Base.{length}
use deepiri_sugar_glider.Base.Text.{is_empty, trim_space}
use deepiri_sugar_glider.RedisStreams.{PublishRequest}
use deepiri_sugar_glider.Config.{Config, is_stream_allowed, sync_on_success}
use deepiri_sugar_glider.Metrics.{
  Collector, inc_error, inc_publish_success, inc_publish_queued, inc_publish_pipeline_fallback,
  inc_publish_pipeline_adaptive_direct, inc_publish_pipeline_error, inc_wal_replayed,
  inc_wal_replay_sync_call, add_publish_pipeline_adaptive_active,
}
use deepiri_sugar_glider.Wal.{WalError, wal_full, wal_disk_full, Log, Fs, append}
use deepiri_sugar_glider.Wal.Replay.{Callback, Replayed, replay}
use deepiri_sugar_glider.Service.{
  Pipeline, Outside, Sidecar, count, status_ok, bad_request, forbidden, service_unavailable,
  gateway_timeout,
}

-- `caller_done` is that the caller's context has ended.
unfoldable pub should_skip_wal : Bool → GoError → Bool
should_skip_wal caller_done canceled = true
should_skip_wal caller_done deadline_exceeded = caller_done
should_skip_wal caller_done _ = false

-- A pipeline that is full or stopped; the caller publishes by itself.
unfoldable pub falls_back : GoError → Bool
falls_back queue_full = true
falls_back stopped = true
falls_back _ = false

abbrev pub trimmed : PublishRequest → PublishRequest
trimmed req = record req {
  stream = trim_space req.stream;
  event_type = trim_space req.event_type;
  sender = trim_space req.sender;
  recipient = trim_space req.recipient;
  priority = trim_space req.priority;
}

-- A failure of normalizePublishRequest: its status and its text.
abbrev pub Refusal : Type 0
Refusal = ℕ × String

-- The stream of a request: its own, the default, or the only one there is.
unfoldable pub choose_stream : List String → String → String → Result Refusal String
choose_stream publish_streams default_stream stream =
    if not (is_empty stream)
    then ok stream
    else if not (is_empty default_stream)
    then ok default_stream
    else elim publish_streams [ only ∷ [] ↦ ok only | _ ↦ err (bad_request, "stream is required") ]

unfoldable pub check_request : List String → PublishRequest → Result Refusal PublishRequest
unfolding is_stream_allowed
check_request publish_streams req =
    if not (is_stream_allowed publish_streams req.stream)
    then err (forbidden, "stream not allowed for this sugar glider")
    else if is_empty req.event_type
    then err (bad_request, "event_type is required")
    else if is_empty req.payload
    then err (bad_request, "payload is required")
    else ok req

unfoldable pub normalize : List String → PublishRequest → String → Result Refusal PublishRequest
unfolding choose_stream check_request trim_space
normalize publish_streams req default_stream =
    elim (choose_stream publish_streams default_stream (trim_space req.stream)) [
      | err e ↦ err e
      | ok stream ↦ check_request publish_streams (record (trimmed req) { stream = stream })
    ]

module _ {W : Type 0} where
  count_refusal : Sidecar W → Result Refusal PublishRequest → Sidecar W
  count_refusal s (err _) = count s (inc_error s.collector)
  count_refusal s (ok _) = s

  unfoldable pub normalize_publish_request :
      Sidecar W → PublishRequest → String → Sidecar W × Result Refusal PublishRequest
  unfolding normalize count_refusal
  normalize_publish_request s req default_stream =
      let r = normalize s.cfg.publish_streams req default_stream in (count_refusal s r, r)

module _ {W : Type 0} (o : Outside W) where
  -- s.publisher.Publish
  unfoldable pub direct : Sidecar W → PublishRequest → Sidecar W × Result GoError String
  direct s req = let (w, r) = o.publish s.world req in (record s { world = w }, r)

  unfoldable pub count_error : Sidecar W × Result GoError String → Sidecar W × Result GoError String
  count_error (s, ok id) = (s, ok id)
  count_error (s, err e) = (count s (inc_publish_pipeline_error s.collector 1), err e)

  -- What follows the pipeline's answer.
  after_pipeline :
      Sidecar W → PublishRequest → Result GoError String → Sidecar W × Result GoError String
  unfolding falls_back direct count_error
  after_pipeline s req (ok id) = (s, ok id)
  after_pipeline s req (err e) =
      if falls_back e
      then count_error (direct (count s (inc_publish_pipeline_fallback s.collector)) req)
      else (count s (inc_publish_pipeline_error s.collector 1), err e)

  unfoldable pub should_use_adaptive_direct_publish : Pipeline W → Sidecar W → ℤ → Bool
  should_use_adaptive_direct_publish p s active =
      s.cfg.publish_pipeline_adaptive_enabled
      && (ltb_ℤ active s.cfg.publish_pipeline_min_batch
          && ltb_ℤ (pos (p.queue_length s.world + 1)) s.cfg.publish_pipeline_min_batch)

  via_pipeline : Pipeline W → Sidecar W → ℤ → PublishRequest → Sidecar W × Result GoError String
  unfolding should_use_adaptive_direct_publish direct after_pipeline
  via_pipeline p s active req =
      if should_use_adaptive_direct_publish p s active
      then direct (count s (inc_publish_pipeline_adaptive_direct s.collector)) req
      else let (c, w, r) = p.publish s.collector s.world req in
        after_pipeline (record s { collector = c; world = w }) req r

  add_active : Sidecar W → ℤ → Sidecar W
  unfolding add_publish_pipeline_adaptive_active
  add_active s delta = count s (add_publish_pipeline_adaptive_active s.collector delta)

  abbrev enter : Sidecar W → Sidecar W
  enter s = add_active s (pos 1)

  -- The deferred call.
  abbrev leave : Sidecar W × Result GoError String → Sidecar W × Result GoError String
  leave (s, r) = (add_active s (negsuc 0), r)

  route : Option (Pipeline W) → Sidecar W → PublishRequest → Sidecar W × Result GoError String
  unfolding direct via_pipeline add_active
  route none s req = direct s req
  route (some p) s req =
      if s.cfg.publish_pipeline_adaptive_enabled
      then leave (via_pipeline p (enter s) (enter s).collector.publish_pipeline_adaptive_active req)
      else via_pipeline p s (pos 0) req

  unfoldable pub publish_to_redis : Sidecar W → PublishRequest → Sidecar W × Result GoError String
  unfolding route
  publish_to_redis s req = route o.pipeline s req

  error_of : W × Result GoError String → W × Option GoError
  error_of (w, ok _) = (w, none)
  error_of (w, err e) = (w, some e)

  pub republish : Callback W
  unfolding error_of
  republish w req = error_of (o.publish w req)

  -- The counters after a replay.
  replay_counts : Collector → ℕ → Option WalError → Collector
  replay_counts c n (some _) = inc_error c
  replay_counts c n none = if ltb 0 n then inc_wal_replayed c n else c

  abbrev pub run_replay : Sidecar W → Replayed W
  run_replay s =
      replay o.json s.wal s.fs (o.faults s.world) s.cfg.wal_replay_batch republish s.world

  unfoldable pub replay_wal : Sidecar W → Sidecar W
  unfolding replay republish replay_counts
  replay_wal s =
      if (leb_ℤ s.cfg.wal_replay_batch (pos 0) && leb_ℤ (pos 0) s.cfg.wal_replay_batch)
        || s.replaying
      then s
      else let r = run_replay s in
        record s {
          wal = r.log;
          fs = r.fs;
          world = r.world;
          collector = replay_counts s.collector r.count r.error;
        }

-- The five results of publishInternal.
pub record Reply : Type 0 where
  pub entry_id : String
  pub queued : Bool
  pub wal_depth : ℤ
  pub status : ℕ
  pub error : Option String

abbrev pub failed : ℕ → String → Reply
failed status text = record {
  entry_id = "";
  queued = false;
  wal_depth = pos 0;
  status = status;
  error = some text;
}

abbrev pub published : String → Reply
published id = record {
  entry_id = id;
  queued = false;
  wal_depth = pos 0;
  status = status_ok;
  error = none;
}

abbrev pub queued_at : ℤ → Reply
queued_at depth = record {
  entry_id = "";
  queued = true;
  wal_depth = depth;
  status = service_unavailable;
  error = none;
}

unfoldable pub append_failure : WalError → String
append_failure wal_full = "redis unavailable and wal is full"
append_failure wal_disk_full = "redis unavailable and wal is full"
append_failure _ = "redis unavailable and wal append failed"

module _ {W : Type 0} (o : Outside W) where
  pub after_append : Sidecar W → Log × Fs × Option WalError → Sidecar W × Reply
  unfolding append_failure
  after_append s (wal, fs, some failure) = (
    record s { wal = wal; fs = fs; collector = inc_error s.collector },
    failed service_unavailable (append_failure failure),
  )
  after_append s (wal, fs, none) = (
    record s { wal = wal; fs = fs; collector = inc_publish_queued s.collector },
    queued_at wal.depth,
  )

  -- The log gets a request that Redis did not.
  unfoldable pub queue_in_wal : Sidecar W → PublishRequest → GoError → Sidecar W × Reply
  unfolding append after_append
  queue_in_wal s req e =
      after_append s
        (append o.json s.wal s.fs (o.faults s.world) (o.now s.world) (error_text e) req)

  unfoldable pub after_publish :
      Sidecar W → PublishRequest → Result GoError String → Sidecar W × Reply
  unfolding should_skip_wal queue_in_wal replay_wal
  after_publish s req (err e) =
      if should_skip_wal (o.caller_done s.world) e
      then (count s (inc_error s.collector), failed gateway_timeout (error_text e))
      else queue_in_wal s req e
  after_publish s req (ok id) =
      let counted = count s (inc_publish_success s.collector) in
      if str_eq s.cfg.wal_replay_mode sync_on_success
      then (replay_wal o (count counted (inc_wal_replay_sync_call counted.collector)), published id)
      else (counted, published id)

  publish_checked : Sidecar W → Result Refusal PublishRequest → Sidecar W × Reply
  unfolding publish_to_redis after_publish
  publish_checked s (err (status, text)) = (s, failed status text)
  publish_checked s (ok req) = let (sent, r) = publish_to_redis o s req in after_publish sent req r

  unfoldable pub publish_internal : Sidecar W → PublishRequest → Sidecar W × Reply
  unfolding normalize_publish_request publish_checked
  publish_internal s req =
      let (checked, n) = normalize_publish_request s req "" in publish_checked checked n
