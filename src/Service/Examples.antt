-- ===== src/Service/Examples.antt =====
-- Runs of the publish path, and its theorems at concrete inputs.
use Prim.Native.String.{String}
use deepiri_sugar_glider.Base.{
  ℕ, ◌+◌, false, none, some, [], ◌∷◌, ◌≡◌, ◌≢◌, refl, other, canceled, error_text, Result, ok, err,
  GoError,
}
use deepiri_sugar_glider.Base.Int.{pos}
use deepiri_sugar_glider.Base.Text.{trim_space, is_space}
use deepiri_sugar_glider.Config.{Config, stateless, sync_on_success}
use deepiri_sugar_glider.Metrics.{Collector}
use deepiri_sugar_glider.Wal.{no_faults, append}
use deepiri_sugar_glider.Wal.Examples.{
  request, toy_json, toy_json-WritesLines, line-IsKept, log-IsSound, three_lines,
}
use deepiri_sugar_glider.Service.{Outside, Sidecar}
use deepiri_sugar_glider.Service.Publish.{publish_internal, normalize}
use deepiri_sugar_glider.Service.Publish.Durability.{
  IsOrderly, Sound, publish_internal-Sound, publish_internal_failed,
}
use deepiri_sugar_glider.Service.Publish.Queued.{Queued, publish_internal_queued}
use deepiri_sugar_glider.Service.Publish.Normalize.{normalize_idem}
use deepiri_sugar_glider.Service.Grpc.{PublishBatchRequest, publish_batch}
use deepiri_sugar_glider.Service.Grpc.Batch.{publish_batch-length}

abbrev pub cfg : Config
cfg = record {
  service_name = "s";
  redis_url = "r";
  listen_addr = "l";
  grpc_listen_addr = "g";
  publish_pipeline_enabled = false;
  publish_pipeline_adaptive_enabled = false;
  publish_pipeline_max_batch = pos 64;
  publish_pipeline_min_batch = pos 2;
  publish_pipeline_flush_interval = pos 0;
  publish_pipeline_queue_size = pos 8;
  publish_pipeline_max_bytes = pos 9;
  consume_mode = stateless;
  wal_replay_mode = sync_on_success;
  dispatcher_consumer_name = "d";
  dispatcher_read_count = pos 1;
  dispatcher_block_ms = pos 1;
  dispatcher_subscriber_buffer = pos 1;
  dispatcher_ack_batch_size = pos 1;
  dispatcher_ack_flush_concurrency = pos 1;
  dispatcher_ack_flush_interval = pos 1;
  dispatcher_ack_queue_size = pos 1;
  wal_dir = "w";
  wal_max_entries = pos 0;
  wal_max_bytes = pos 0;
  wal_replay_batch = pos 9;
  wal_replay_interval = pos 0;
  publish_streams = "events" ∷ [];
  consume_streams = [];
  max_stream_len = pos 9;
  dlq_max_retries = pos 3;
  dlq_min_idle = pos 0;
  dlq_scan_interval = pos 0;
  dlq_scan_batch = pos 1;
  dlq_stream_policies = [];
  readiness_timeout = pos 0;
  ready_max_wal_depth = pos 0;
  ready_max_publish_queue_depth = pos 0;
}

abbrev pub counters : Collector
counters = record {
  publish_attempts = 0;
  publish_success = 0;
  publish_queued = 0;
  publish_pipeline_enqueued = 0;
  publish_pipeline_flushed_batch = 0;
  publish_pipeline_flushed_entry = 0;
  publish_pipeline_fallback = 0;
  publish_pipeline_adaptive_direct = 0;
  publish_pipeline_adaptive_active = pos 0;
  publish_pipeline_error = 0;
  read_requests = 0;
  read_events = 0;
  ack_requests = 0;
  ack_rpc_requests = 0;
  acked_entries = 0;
  dispatcher_ack_flush_calls = 0;
  dispatcher_ack_flush_chunks = 0;
  dispatcher_ack_queue_depth_peak = 0;
  dispatcher_ack_input_entries = 0;
  dispatcher_ack_deduped_entries = 0;
  dispatcher_ack_duplicate_entries = 0;
  dispatcher_ack_contiguous_spans = 0;
  dispatcher_ack_contiguous_saved = 0;
  group_ensure_attempts = 0;
  wal_replayed = 0;
  wal_replay_sync_calls = 0;
  dlq_moved = 0;
  dlq_replayed = 0;
  dispatcher_dropped_subscribers = 0;
  errors_total = 0;
}

-- Redis answers with this, the clock stands still, and the caller waits.
abbrev pub outside : Result GoError String → Outside ℕ
outside r = record {
  publish = λ n req. (n + 1, r);
  pipeline = none;
  json = toy_json "line";
  now = λ n. "t";
  faults = λ n. no_faults;
  caller_done = λ n. false;
}

abbrev pub sidecar : Sidecar ℕ
sidecar = record {
  cfg = cfg;
  wal = record { path = "wal"; depth = pos 3; max_entries = pos 0; max_bytes = pos 0 };
  fs = three_lines;
  replaying = false;
  consumer_groups_ensured = [];
  collector = counters;
  world = 0;
}

outside-IsOrderly : (r : Result GoError String) → IsOrderly (outside r)
outside-IsOrderly r = record {
  writes_lines = toy_json-WritesLines "line" line-IsKept;
  whole_writes = λ w. refl;
}

publish_internal-Sound_example :
    Sound
      (outside (err (other "down")))
      (publish_internal (outside (err (other "down"))) sidecar (request "x")).0
publish_internal-Sound_example =
    publish_internal-Sound (outside (err (other "down"))) sidecar (request "x")
      (outside-IsOrderly (err (other "down")))
      (record { terminated = log-IsSound.terminated; counted = log-IsSound.counted })

publish_internal_queued_example :
    Queued
      (outside (err (other "down")))
      sidecar
      (request "x")
      (publish_internal (outside (err (other "down"))) sidecar (request "x")).0
      (publish_internal (outside (err (other "down"))) sidecar (request "x")).1
publish_internal_queued_example =
    publish_internal_queued (outside (err (other "down"))) sidecar (request "x")
      (unfold publish_internal append trim_space is_space in refl)

publish_internal_failed_example :
    ((publish_internal (outside (err canceled)) sidecar (request "x")).0.wal ≡ sidecar.wal)
    × ((publish_internal (outside (err canceled)) sidecar (request "x")).0.fs ≡ three_lines)
publish_internal_failed_example =
    publish_internal_failed (outside (err canceled)) sidecar (request "x") (error_text canceled)
      (outside-IsOrderly (err canceled))
      (unfold publish_internal append trim_space is_space in refl)

normalize_idem_example :
    normalize ("events" ∷ []) (record (request "x") { event_type = "e"; recipient = "r" }) ""
    ≡ ok (record (request "x") { event_type = "e"; recipient = "r" })
normalize_idem_example =
    normalize_idem ("events" ∷ [])
      (record (request "x") { stream = " "; event_type = " e"; recipient = "r " }) ""
      (record (request "x") { event_type = "e"; recipient = "r" })
      (((unfold trim_space is_space in refl), refl), tt) (unfold trim_space is_space in refl)
      (unfold normalize trim_space is_space in refl)

abbrev batch : PublishBatchRequest
batch = record { stream = "events"; events = some (request "a") ∷ some (request "b") ∷ [] }

publish_batch-length_example : (◌≡◌ {A = ℕ} 2 2) × (batch.events ≢ [])
publish_batch-length_example =
    publish_batch-length (outside (err (other "down"))) sidecar batch ("" ∷ "" ∷ [])
      (unfold publish_batch publish_internal append trim_space is_space in refl)
