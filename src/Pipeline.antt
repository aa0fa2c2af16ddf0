-- ===== src/Pipeline.antt =====
-- internal/service/publish_pipeline.go: the queue of jobs and the goroutine that sends them in batches.
-- A job is known by a number; `answers` records what is sent on the jobs' result channels.
pub mod Conserved
pub mod Answered
pub mod Estimate
pub mod Client
pub mod Examples
use Prim.Native.String.{String, len}
use deepiri_sugar_glider.Base.{
  ℕ, suc, ◌+◌, Bool, true, false, ◌||◌, Option, none, some, List, [], ◌∷◌, ◌++◌, length, map, ltb,
  leb, ◌==◌, if◌then◌else◌, GoError, redis_nil, queue_full, stopped, Result, ok, err, ◌≡◌,
}
use deepiri_sugar_glider.Base.Int.{ℤ, pos, ltb_ℤ}
use deepiri_sugar_glider.RedisStreams.{PublishRequest, XAddArgs, build_x_add_args}
use deepiri_sugar_glider.Metrics.{
  Collector, inc_publish_pipeline_enqueued, inc_publish_pipeline_flushed_batch,
  inc_publish_pipeline_flushed_entries, inc_publish_pipeline_error,
}

-- The client of Redis, the clock and the contexts of the callers. A pipeline of commands has a result for
-- each of them.
pub record Server (W : Type 0) : Type 0 where
  pub ctx_err : W → ℕ → Option GoError
  pub now : W → String
  pub exec : W → List XAddArgs → W × Option GoError × List (Result GoError String)
  pub exec_length : (w : W) (args : List XAddArgs) → length (exec w args).2 ≡ length args

pub record Job : Type 0 where
  pub id : ℕ
  pub req : PublishRequest
  pub estimated_bytes : ℕ

pub record Settings : Type 0 where
  pub max_stream_len : ℤ
  pub max_batch : ℕ
  pub max_bytes : ℕ
  pub flush_interval : ℕ
  pub queue_size : ℕ

abbrev pub Answer : Type 0
Answer = ℕ × Result GoError String

-- How far the goroutine has got: it goes through its loop, or the case of stopCh has drained the queue, or it
-- has also flushed and returns. No lock is held between these, so callers go on.
pub data Stage : Type 0 where
  looping drained flushed : Stage

-- `buffer` and `buffer_bytes` are the variables of run, the bytes without a bound; `done` is that doneCh is
-- closed.
pub record State (W : Type 0) : Type 0 where
  pub queue : List Job
  pub buffer : List Job
  pub buffer_bytes : ℕ
  pub answers : List Answer
  pub stage : Stage
  pub done : Bool
  pub collector : Collector
  pub world : W

unfoldable pub estimate_publish_request_bytes : PublishRequest → ℕ
estimate_publish_request_bytes req =
    let size =
      len req.stream
      + len req.event_type
      + len req.sender
      + len req.recipient
      + len req.priority
      + len req.payload in
    let sized = if ltb_ℤ (pos 0) req.ttl_sec then size + 8 else size in
    if ltb sized 128 then 128 else sized

-- The cases of a select that may be ready; Go picks one of the ready ones.
pub data Select : Type 0 where
  done_case ctx_case send_case : Select

module _ {W : Type 0} (server : Server W) (cfg : Settings) where
  send : State W → Job → State W × Option GoError
  send st job =
      if ltb (length st.queue) cfg.queue_size
      then (
        record st {
          queue = st.queue ++ job ∷ [];
          collector = inc_publish_pipeline_enqueued st.collector;
        },
        none,
      )
      else (st, some queue_full)

  -- A case that is ready, and the default if none is.
  first_ready : State W → Job → State W × Option GoError
  unfolding send
  first_ready st job =
      if ltb (length st.queue) cfg.queue_size
      then send st job
      else if st.done
      then (st, some stopped)
      else elim (server.ctx_err st.world job.id) [
        | some e ↦ (st, some e)
        | none ↦ (st, some queue_full)
      ]

  -- The first select of Publish: the case that is picked if it is ready, and another one if not.
  unfoldable pub enqueue : Select → State W → Job → State W × Option GoError
  unfolding first_ready
  enqueue done_case st job = if st.done then (st, some stopped) else first_ready st job
  enqueue ctx_case st job = elim (server.ctx_err st.world job.id) [
    | some e ↦ (st, some e)
    | none ↦ first_ready st job
  ]
  enqueue send_case st job = first_ready st job

  -- The jobs whose caller is gone, with their answers, and the others.
  unfoldable pub gone : W → List Job → List Answer
  gone w [] = []
  gone w (job ∷ jobs) =
      let rest = gone w jobs in
      elim (server.ctx_err w job.id) [ some e ↦ (job.id, err e) ∷ rest | none ↦ rest ]

  unfoldable pub live : W → List Job → List Job
  live w [] = []
  live w (job ∷ jobs) =
      let rest = live w jobs in elim (server.ctx_err w job.id) [ some e ↦ rest | none ↦ job ∷ rest ]

  args_of : W → List Job → List XAddArgs
  unfolding build_x_add_args
  args_of w [] = []
  args_of w (job ∷ jobs) =
      build_x_add_args (server.now w) job.req cfg.max_stream_len ∷ args_of w jobs

  all_failed : GoError → List Job → List Answer
  all_failed e [] = []
  all_failed e (job ∷ jobs) = (job.id, err e) ∷ all_failed e jobs

  answer_each : List Job → List (Result GoError String) → List Answer
  answer_each [] results = []
  answer_each (job ∷ jobs) [] = []
  answer_each (job ∷ jobs) (r ∷ results) = (job.id, r) ∷ answer_each jobs results

  count_failed : List (Result GoError String) → Collector → Collector
  count_failed [] c = c
  count_failed (ok _ ∷ results) c = count_failed results c
  count_failed (err _ ∷ results) c = count_failed results (inc_publish_pipeline_error c 1)

  -- redis.Nil is no error of the whole pipeline.
  exec_error : Option GoError → Option GoError
  exec_error (some redis_nil) = none
  exec_error e = e

  after_exec : State W → List Job → Option GoError → List (Result GoError String) → State W
  unfolding all_failed answer_each count_failed
  after_exec st jobs (some e) results = record st {
    answers = st.answers ++ all_failed e jobs;
    collector = inc_publish_pipeline_error st.collector (length jobs);
  }
  after_exec st jobs none results = record st {
    answers = st.answers ++ answer_each jobs results;
    collector =
        count_failed results (inc_publish_pipeline_flushed_entries st.collector (length jobs));
  }

  send_live : State W → List Job → State W
  unfolding args_of exec_error after_exec
  send_live st [] = st
  send_live st (job ∷ jobs) =
      let (w, e, results) = server.exec st.world (args_of st.world (job ∷ jobs)) in
      after_exec (record st { world = w }) (job ∷ jobs) (exec_error e) results

  unfoldable pub flush_batch : State W → List Job → State W
  unfolding gone live send_live
  flush_batch st [] = st
  flush_batch st (job ∷ jobs) =
      send_live
        (record st {
          collector = inc_publish_pipeline_flushed_batch st.collector;
          answers = st.answers ++ gone st.world (job ∷ jobs);
        })
        (live st.world (job ∷ jobs))

  flush_buffer : State W → List Job → State W
  unfolding flush_batch
  flush_buffer st [] = st
  flush_buffer st (job ∷ jobs) =
      flush_batch (record st { buffer = []; buffer_bytes = 0 }) (job ∷ jobs)

  unfoldable pub flush : State W → State W
  unfolding flush_buffer
  flush st = flush_buffer st st.buffer

  sum_bytes : List Job → ℕ
  sum_bytes [] = 0
  sum_bytes (job ∷ jobs) = job.estimated_bytes + sum_bytes jobs

  unfoldable pub drain : State W → State W
  unfolding sum_bytes
  drain st = record st {
    queue = [];
    buffer = st.buffer ++ st.queue;
    buffer_bytes = st.buffer_bytes + sum_bytes st.queue;
  }

  -- The case of stopCh in the loop of run, up to the end of drain, then its flush, and then the deferred close
  -- of doneCh.
  unfoldable pub on_stop : State W → State W
  unfolding drain
  on_stop st = record (drain st) { stage = drained }

  unfoldable pub on_drained : State W → State W
  unfolding flush
  on_drained st = record (flush st) { stage = flushed }

  unfoldable pub on_return : State W → State W
  on_return st = record st { done = true }

  -- The other two cases of the loop.

  unfoldable pub on_tick : State W → State W
  unfolding flush
  on_tick st = flush st

  is_due : State W → Bool
  is_due st =
      cfg.flush_interval == 0
      || leb cfg.max_batch (length st.buffer)
      || leb cfg.max_bytes st.buffer_bytes

  after_drain : State W → State W
  unfolding is_due flush
  after_drain st = if is_due st then flush st else st

  take_job : State W → List Job → State W
  unfolding drain after_drain
  take_job st [] = st
  take_job st (job ∷ jobs) = after_drain (
      drain (record st {
        queue = jobs;
        buffer = st.buffer ++ job ∷ [];
        buffer_bytes = st.buffer_bytes + job.estimated_bytes;
      }))

  -- Nothing happens while the queue is empty.
  unfoldable pub on_job : State W → State W
  unfolding take_job
  on_job st = take_job st st.queue
