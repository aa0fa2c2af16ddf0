-- ===== src/Config.antt =====
-- internal/config/config.go: the configuration, as it is read from the environment.
pub mod Dlq
pub mod Listen
pub mod Bounds
mod Examples
use Prim.Native.String.{String}
use text.Mathlib.Text.{◌==◌}
use deepiri_sugar_glider.Base.{
  ℕ, Bool, true, false, not, ◌||◌, List, [], ◌∷◌, Result, ok, err, if◌then◌else◌,
}
use deepiri_sugar_glider.Base.Int.{ℤ, pos, ltb_ℤ, leb_ℤ}
use deepiri_sugar_glider.Base.Text.{trim_space}
use deepiri_sugar_glider.Base.Parse.{to_lower}
use deepiri_sugar_glider.Env.{
  Env, get_env_dual, get_env_int64_dual, get_env_bool_dual, split_csv, millisecond,
}
use Dlq.{PolicyError, Policies, parse_dlq_stream_policies}

pub record Config : Type 0 where
  pub service_name : String
  pub redis_url : String
  pub listen_addr : String
  pub grpc_listen_addr : String
  pub publish_pipeline_enabled : Bool
  pub publish_pipeline_adaptive_enabled : Bool
  pub publish_pipeline_max_batch : ℤ
  pub publish_pipeline_min_batch : ℤ
  pub publish_pipeline_flush_interval : ℤ
  pub publish_pipeline_queue_size : ℤ
  pub publish_pipeline_max_bytes : ℤ
  pub consume_mode : String
  pub wal_replay_mode : String
  pub dispatcher_consumer_name : String
  pub dispatcher_read_count : ℤ
  pub dispatcher_block_ms : ℤ
  pub dispatcher_subscriber_buffer : ℤ
  pub dispatcher_ack_batch_size : ℤ
  pub dispatcher_ack_flush_concurrency : ℤ
  pub dispatcher_ack_flush_interval : ℤ
  pub dispatcher_ack_queue_size : ℤ
  pub wal_dir : String
  pub wal_max_entries : ℤ
  pub wal_max_bytes : ℤ
  pub wal_replay_batch : ℤ
  pub wal_replay_interval : ℤ
  pub publish_streams : List String
  pub consume_streams : List String
  pub max_stream_len : ℤ
  pub dlq_max_retries : ℤ
  pub dlq_min_idle : ℤ
  pub dlq_scan_interval : ℤ
  pub dlq_scan_batch : ℤ
  pub dlq_stream_policies : Policies
  pub readiness_timeout : ℤ
  pub ready_max_wal_depth : ℤ
  pub ready_max_publish_queue_depth : ℤ

abbrev pub stateless : String
stateless = "stateless"

abbrev pub dispatcher : String
dispatcher = "dispatcher"

abbrev pub background : String
background = "background"

abbrev pub sync_on_success : String
sync_on_success = "sync_on_success"

-- What Load reads before it checks anything.
pub read_config : Env → Config
unfolding to_lower get_env_dual get_env_int64_dual get_env_bool_dual split_csv millisecond
read_config env = record {
  service_name =
      get_env_dual env "SUGAR_GLIDER_SERVICE_NAME" "SIDECAR_SERVICE_NAME" "real-time-gateway";
  redis_url = get_env_dual env "SUGAR_GLIDER_REDIS_URL" "SIDECAR_REDIS_URL" "";
  listen_addr =
      get_env_dual env "SUGAR_GLIDER_LISTEN_ADDR" "SIDECAR_LISTEN_ADDR" "tcp://0.0.0.0:8081";
  grpc_listen_addr =
      get_env_dual env "SUGAR_GLIDER_GRPC_ADDR" "SIDECAR_GRPC_ADDR" "tcp://0.0.0.0:50051";
  publish_pipeline_enabled =
      get_env_bool_dual env "SUGAR_GLIDER_PUBLISH_PIPELINE_ENABLED"
        "SIDECAR_PUBLISH_PIPELINE_ENABLED" false;
  publish_pipeline_adaptive_enabled =
      get_env_bool_dual env "SUGAR_GLIDER_PUBLISH_PIPELINE_ADAPTIVE_ENABLED"
        "SIDECAR_PUBLISH_PIPELINE_ADAPTIVE_ENABLED" false;
  publish_pipeline_max_batch =
      get_env_int64_dual env "SUGAR_GLIDER_PUBLISH_PIPELINE_MAX_BATCH"
        "SIDECAR_PUBLISH_PIPELINE_MAX_BATCH" (pos 64);
  publish_pipeline_min_batch =
      get_env_int64_dual env "SUGAR_GLIDER_PUBLISH_PIPELINE_MIN_BATCH"
        "SIDECAR_PUBLISH_PIPELINE_MIN_BATCH" (pos 2);
  publish_pipeline_flush_interval = millisecond (
      get_env_int64_dual env "SUGAR_GLIDER_PUBLISH_PIPELINE_FLUSH_MS"
        "SIDECAR_PUBLISH_PIPELINE_FLUSH_MS" (pos 0));
  publish_pipeline_queue_size =
      get_env_int64_dual env "SUGAR_GLIDER_PUBLISH_PIPELINE_QUEUE_SIZE"
        "SIDECAR_PUBLISH_PIPELINE_QUEUE_SIZE" (pos 8192);
  publish_pipeline_max_bytes =
      get_env_int64_dual env "SUGAR_GLIDER_PUBLISH_PIPELINE_MAX_BYTES"
        "SIDECAR_PUBLISH_PIPELINE_MAX_BYTES" (pos 1048576);
  consume_mode =
      to_lower (get_env_dual env "SUGAR_GLIDER_CONSUME_MODE" "SIDECAR_CONSUME_MODE" stateless);
  wal_replay_mode =
      to_lower
        (get_env_dual env "SUGAR_GLIDER_WAL_REPLAY_MODE" "SIDECAR_WAL_REPLAY_MODE" background);
  dispatcher_consumer_name =
      get_env_dual env "SUGAR_GLIDER_DISPATCHER_CONSUMER_NAME" "SIDECAR_DISPATCHER_CONSUMER_NAME"
        "sugar-glider-dispatcher";
  dispatcher_read_count =
      get_env_int64_dual env "SUGAR_GLIDER_DISPATCHER_READ_COUNT" "SIDECAR_DISPATCHER_READ_COUNT"
        (pos 100);
  dispatcher_block_ms =
      get_env_int64_dual env "SUGAR_GLIDER_DISPATCHER_BLOCK_MS" "SIDECAR_DISPATCHER_BLOCK_MS"
        (pos 1000);
  dispatcher_subscriber_buffer =
      get_env_int64_dual env "SUGAR_GLIDER_DISPATCHER_SUBSCRIBER_BUFFER"
        "SIDECAR_DISPATCHER_SUBSCRIBER_BUFFER" (pos 256);
  dispatcher_ack_batch_size =
      get_env_int64_dual env "SUGAR_GLIDER_DISPATCHER_ACK_BATCH_SIZE"
        "SIDECAR_DISPATCHER_ACK_BATCH_SIZE" (pos 64);
  dispatcher_ack_flush_concurrency =
      get_env_int64_dual env "SUGAR_GLIDER_DISPATCHER_ACK_FLUSH_CONCURRENCY"
        "SIDECAR_DISPATCHER_ACK_FLUSH_CONCURRENCY" (pos 2);
  dispatcher_ack_flush_interval = millisecond (
      get_env_int64_dual env "SUGAR_GLIDER_DISPATCHER_ACK_FLUSH_MS"
        "SIDECAR_DISPATCHER_ACK_FLUSH_MS" (pos 10));
  dispatcher_ack_queue_size =
      get_env_int64_dual env "SUGAR_GLIDER_DISPATCHER_ACK_QUEUE_SIZE"
        "SIDECAR_DISPATCHER_ACK_QUEUE_SIZE" (pos 4096);
  wal_dir = get_env_dual env "SUGAR_GLIDER_WAL_DIR" "SIDECAR_WAL_DIR" "/data/synapse-wal";
  wal_max_entries =
      get_env_int64_dual env "SUGAR_GLIDER_WAL_MAX_ENTRIES" "SIDECAR_WAL_MAX_ENTRIES" (pos 0);
  wal_max_bytes =
      get_env_int64_dual env "SUGAR_GLIDER_WAL_MAX_BYTES" "SIDECAR_WAL_MAX_BYTES" (pos 0);
  wal_replay_batch =
      get_env_int64_dual env "SUGAR_GLIDER_WAL_REPLAY_BATCH" "SIDECAR_WAL_REPLAY_BATCH" (pos 100);
  wal_replay_interval = millisecond (
      get_env_int64_dual env "SUGAR_GLIDER_WAL_REPLAY_INTERVAL_MS" "SIDECAR_WAL_REPLAY_INTERVAL_MS"
        (pos 2000));
  publish_streams =
      split_csv (
        get_env_dual env "SUGAR_GLIDER_PUBLISH_STREAMS" "SIDECAR_PUBLISH_STREAMS"
          "platform-events");
  consume_streams =
      split_csv (get_env_dual env "SUGAR_GLIDER_CONSUME_STREAMS" "SIDECAR_CONSUME_STREAMS" "");
  max_stream_len =
      get_env_int64_dual env "SUGAR_GLIDER_MAX_STREAM_LEN" "SIDECAR_MAX_STREAM_LEN" (pos 10000);
  dlq_max_retries =
      get_env_int64_dual env "SUGAR_GLIDER_DLQ_MAX_RETRIES" "SIDECAR_DLQ_MAX_RETRIES" (pos 3);
  dlq_min_idle =
      millisecond (
        get_env_int64_dual env "SUGAR_GLIDER_DLQ_MIN_IDLE_MS" "SIDECAR_DLQ_MIN_IDLE_MS"
          (pos 30000));
  dlq_scan_interval = millisecond (
      get_env_int64_dual env "SUGAR_GLIDER_DLQ_SCAN_INTERVAL_MS" "SIDECAR_DLQ_SCAN_INTERVAL_MS"
        (pos 5000));
  dlq_scan_batch =
      get_env_int64_dual env "SUGAR_GLIDER_DLQ_SCAN_BATCH" "SIDECAR_DLQ_SCAN_BATCH" (pos 100);
  dlq_stream_policies = [];
  readiness_timeout = millisecond (
      get_env_int64_dual env "SUGAR_GLIDER_READINESS_TIMEOUT_MS" "SIDECAR_READINESS_TIMEOUT_MS"
        (pos 1500));
  ready_max_wal_depth =
      get_env_int64_dual env "SUGAR_GLIDER_READY_MAX_WAL_DEPTH" "SIDECAR_READY_MAX_WAL_DEPTH"
        (pos 0);
  ready_max_publish_queue_depth =
      get_env_int64_dual env "SUGAR_GLIDER_READY_MAX_PUBLISH_QUEUE_DEPTH"
        "SIDECAR_READY_MAX_PUBLISH_QUEUE_DEPTH" (pos 0);
}

-- The checks of Load in their order: what must hold, and the error if it does not.
checks : Config → List (Bool × String)
unfolding trim_space
checks cfg =
    (not (cfg.redis_url == ""), "SUGAR_GLIDER_REDIS_URL or SIDECAR_REDIS_URL is required")
    ∷ (
      cfg.consume_mode == stateless || cfg.consume_mode == dispatcher,
      "SUGAR_GLIDER_CONSUME_MODE/SIDECAR_CONSUME_MODE must be one of: stateless, dispatcher",
    )
    ∷ (
      ltb_ℤ (pos 0) cfg.publish_pipeline_max_batch,
      "SUGAR_GLIDER_PUBLISH_PIPELINE_MAX_BATCH must be > 0",
    )
    ∷ (
      ltb_ℤ (pos 0) cfg.publish_pipeline_min_batch,
      "SUGAR_GLIDER_PUBLISH_PIPELINE_MIN_BATCH must be > 0",
    )
    ∷ (
      leb_ℤ (pos 0) cfg.publish_pipeline_flush_interval,
      "SUGAR_GLIDER_PUBLISH_PIPELINE_FLUSH_MS must be >= 0",
    )
    ∷ (
      ltb_ℤ (pos 0) cfg.publish_pipeline_queue_size,
      "SUGAR_GLIDER_PUBLISH_PIPELINE_QUEUE_SIZE must be > 0",
    )
    ∷ (
      ltb_ℤ (pos 0) cfg.publish_pipeline_max_bytes,
      "SUGAR_GLIDER_PUBLISH_PIPELINE_MAX_BYTES must be > 0",
    )
    ∷ (
      cfg.wal_replay_mode == background || cfg.wal_replay_mode == sync_on_success,
      "SUGAR_GLIDER_WAL_REPLAY_MODE must be one of: background, sync_on_success",
    )
    ∷ (
      not (trim_space cfg.dispatcher_consumer_name == ""),
      "SUGAR_GLIDER_DISPATCHER_CONSUMER_NAME must be non-empty",
    )
    ∷ (ltb_ℤ (pos 0) cfg.dispatcher_read_count, "SUGAR_GLIDER_DISPATCHER_READ_COUNT must be > 0")
    ∷ (ltb_ℤ (pos 0) cfg.dispatcher_block_ms, "SUGAR_GLIDER_DISPATCHER_BLOCK_MS must be > 0")
    ∷ (
      ltb_ℤ (pos 0) cfg.dispatcher_subscriber_buffer,
      "SUGAR_GLIDER_DISPATCHER_SUBSCRIBER_BUFFER must be > 0",
    )
    ∷ (
      ltb_ℤ (pos 0) cfg.dispatcher_ack_batch_size,
      "SUGAR_GLIDER_DISPATCHER_ACK_BATCH_SIZE must be > 0",
    )
    ∷ (
      ltb_ℤ (pos 0) cfg.dispatcher_ack_flush_concurrency,
      "SUGAR_GLIDER_DISPATCHER_ACK_FLUSH_CONCURRENCY must be > 0",
    )
    ∷ (
      ltb_ℤ (pos 0) cfg.dispatcher_ack_flush_interval,
      "SUGAR_GLIDER_DISPATCHER_ACK_FLUSH_MS must be > 0",
    )
    ∷ (
      ltb_ℤ (pos 0) cfg.dispatcher_ack_queue_size,
      "SUGAR_GLIDER_DISPATCHER_ACK_QUEUE_SIZE must be > 0",
    )
    ∷ (ltb_ℤ (pos 0) cfg.max_stream_len, "SUGAR_GLIDER_MAX_STREAM_LEN must be > 0")
    ∷ (leb_ℤ (pos 0) cfg.wal_max_entries, "SUGAR_GLIDER_WAL_MAX_ENTRIES must be >= 0")
    ∷ (leb_ℤ (pos 0) cfg.wal_max_bytes, "SUGAR_GLIDER_WAL_MAX_BYTES must be >= 0")
    ∷ (leb_ℤ (pos 0) cfg.wal_replay_batch, "SUGAR_GLIDER_WAL_REPLAY_BATCH must be >= 0")
    ∷ (leb_ℤ (pos 0) cfg.wal_replay_interval, "SUGAR_GLIDER_WAL_REPLAY_INTERVAL_MS must be >= 0")
    ∷ (leb_ℤ (pos 0) cfg.dlq_max_retries, "SUGAR_GLIDER_DLQ_MAX_RETRIES must be >= 0")
    ∷ (leb_ℤ (pos 0) cfg.dlq_min_idle, "SUGAR_GLIDER_DLQ_MIN_IDLE_MS must be >= 0")
    ∷ (leb_ℤ (pos 0) cfg.dlq_scan_interval, "SUGAR_GLIDER_DLQ_SCAN_INTERVAL_MS must be >= 0")
    ∷ (ltb_ℤ (pos 0) cfg.dlq_scan_batch, "SUGAR_GLIDER_DLQ_SCAN_BATCH must be > 0")
    ∷ (leb_ℤ (pos 0) cfg.ready_max_wal_depth, "SUGAR_GLIDER_READY_MAX_WAL_DEPTH must be >= 0")
    ∷ (
      leb_ℤ (pos 0) cfg.ready_max_publish_queue_depth,
      "SUGAR_GLIDER_READY_MAX_PUBLISH_QUEUE_DEPTH must be >= 0",
    )
    ∷ []

check_all : List (Bool × String) → Config → Result String Config
check_all [] cfg = ok cfg
check_all ((holds, message) ∷ rest) cfg =
    let result = check_all rest cfg in if holds then result else err message

with_policies : Config → Result PolicyError Policies → Result String Config
unfolding checks check_all
with_policies cfg (err e) = err "invalid DLQ stream policy"
with_policies cfg (ok policies) =
    let full = record cfg { dlq_stream_policies = policies } in check_all (checks full) full

pub load : Env → Result String Config
unfolding read_config with_policies parse_dlq_stream_policies get_env_dual
load env = with_policies (read_config env) (
    parse_dlq_stream_policies
      (get_env_dual env "SUGAR_GLIDER_DLQ_STREAM_POLICIES" "SIDECAR_DLQ_STREAM_POLICIES" ""))

is_listed : List String → String → Bool
is_listed [] stream = false
is_listed (s ∷ allowed) stream = s == stream || is_listed allowed stream

unfoldable pub is_stream_allowed : List String → String → Bool
unfolding is_listed
is_stream_allowed [] stream = true
is_stream_allowed (s ∷ allowed) stream = is_listed (s ∷ allowed) stream
