-- ===== src/Pipeline/Examples.antt =====
-- A run of the pipeline, and its theorem at a concrete input.
use Prim.Native.String.{String}
use deepiri_sugar_glider.Base.{
  ℕ, false, none, some, List, [], ◌∷◌, length, ◌≡◌, refl, arith, Result, ok, if◌then◌else◌, ◌==◌,
  GoError, canceled,
}
use deepiri_sugar_glider.Base.Int.{pos}
use deepiri_sugar_glider.Base.Count.{count}
use deepiri_sugar_glider.RedisStreams.{XAddArgs}
use deepiri_sugar_glider.Metrics.{Collector}
use deepiri_sugar_glider.Pipeline.{
  Server, Job, Settings, looping, drained, State, send_case, enqueue, on_stop, on_drained,
  on_return,
}
use deepiri_sugar_glider.Pipeline.Conserved.{job_ids, answer_ids}
use deepiri_sugar_glider.Pipeline.Answered.{
  Run, start, accepts, accepts_late, stops, flushes, returns, stopped_run-answers,
}

abbrev all_ok : List XAddArgs → List (Result GoError String)
all_ok [] = []
all_ok (_ ∷ args) = ok "1-0" ∷ all_ok args

pub length-all_ok : (args : List XAddArgs) → length (all_ok args) ≡ length args
length-all_ok [] = refl
length-all_ok (a ∷ args) = omega (arith, length-all_ok args)

-- The caller of job 2 is gone.
abbrev pub server : Server ℕ
server = record {
  ctx_err = λ w i. if i == 2 then some canceled else none;
  now = λ w. "t";
  exec = λ w args. (w, none, all_ok args);
  exec_length = λ w args. length-all_ok args;
}

abbrev pub cfg : Settings
cfg = record {
  max_stream_len = pos 9;
  max_batch = 4;
  max_bytes = 1000;
  flush_interval = 5;
  queue_size = 2;
}

abbrev pub job : ℕ → Job
job i = record {
  id = i;
  req = record {
    stream = "s";
    event_type = "t";
    sender = "";
    recipient = "";
    priority = "";
    payload = "{}";
    ttl_sec = pos 0;
  };
  estimated_bytes = 128;
}

abbrev no_counts : Collector
no_counts = record {
  publish_attempts = 0;
  publish_success = 0;
  publish_queued = 0;
  publish_pipeline_enqueued = 0;
  publish_pipeline_flushed_batch = 0;
  publish_pipeline_flushed_entry = 0;
  publish_pipeline_fallback = 0;
  publish_pipeline_adaptive_direct = 0;
  publish_pipeline_adaptive_active = pos 0;
  publish_pipeline_error = 0;
  read_requests = 0;
  read_events = 0;
  ack_requests = 0;
  ack_rpc_requests = 0;
  acked_entries = 0;
  dispatcher_ack_flush_calls = 0;
  dispatcher_ack_flush_chunks = 0;
  dispatcher_ack_queue_depth_peak = 0;
  dispatcher_ack_input_entries = 0;
  dispatcher_ack_deduped_entries = 0;
  dispatcher_ack_duplicate_entries = 0;
  dispatcher_ack_contiguous_spans = 0;
  dispatcher_ack_contiguous_saved = 0;
  group_ensure_attempts = 0;
  wal_replayed = 0;
  wal_replay_sync_calls = 0;
  dlq_moved = 0;
  dlq_replayed = 0;
  dispatcher_dropped_subscribers = 0;
  errors_total = 0;
}

abbrev pub fresh : State ℕ
fresh = record {
  queue = [];
  buffer = [];
  buffer_bytes = 0;
  answers = [];
  stage = looping;
  done = false;
  collector = no_counts;
  world = 0;
}

abbrev one : State ℕ
one = (enqueue server cfg send_case fresh (job 1)).0

abbrev two : State ℕ
two = (enqueue server cfg send_case one (job 2)).0

abbrev drained_two : State ℕ
drained_two = on_stop server cfg two

-- Job 3 comes while the goroutine flushes the first two.
abbrev three : State ℕ
three = (enqueue server cfg send_case drained_two (job 3)).0

abbrev ended : State ℕ
ended = on_return server cfg (on_drained server cfg three)

run : Run server cfg fresh ended (2 ∷ 1 ∷ []) (3 ∷ [])
unfolding enqueue on_stop on_drained on_return
run =
    returns (on_drained server cfg three) (2 ∷ 1 ∷ []) (3 ∷ [])
      (flushes three (2 ∷ 1 ∷ []) (3 ∷ [])
        (accepts_late drained_two three (2 ∷ 1 ∷ []) [] send_case (job 3)
          (stops two (2 ∷ 1 ∷ []) []
            (accepts one two (1 ∷ []) [] send_case (job 2)
              (accepts fresh one [] [] send_case (job 1) start refl refl) refl refl)
            refl)
          (λ e. not_looping e) refl)
        refl)
      refl
  where
    not_looping : drained ≡ looping → ⊥
    not_looping e = cc

stopped_run-answers_example :
    (ended.buffer ≡ [])
    × ((i : ℕ) → count i (answer_ids ended.answers) ≡ count i (2 ∷ 1 ∷ []))
    × ((i : ℕ) → count i (job_ids ended.queue) ≡ count i (3 ∷ []))
stopped_run-answers_example =
    stopped_run-answers server cfg fresh ended (2 ∷ 1 ∷ []) (3 ∷ [])
      (record { queue = refl; buffer = refl; answers = refl; stage = refl }) run
      (unfold on_stop on_drained on_return enqueue in refl)
