-- ===== src/Pipeline/Client/Outcomes.antt =====
-- What the steps of internal/service/publish_pipeline.go do to the counters of requests.
use Prim.Native.String.{String}
use deepiri_sugar_glider.Base.{
  ◌+◌, refl, ◌∙◌, Bool, true, false, Option, none, some, List, [], ◌∷◌, ◌++◌, length, ltb,
  if◌then◌else◌, inl, inr, Bool-cases, Option-cases, GoError, stopped, Result, ok, err,
}
use deepiri_sugar_glider.Metrics.{
  Collector, SameOutcomes, inc_publish_pipeline_error, inc_publish_pipeline_flushed_batch,
  inc_publish_pipeline_flushed_entries,
}
use deepiri_sugar_glider.Pipeline.{
  Server, Job, Settings, State, Select, done_case, ctx_case, send_case, send, first_ready, enqueue,
  gone, live, args_of, exec_error, count_failed, after_exec, send_live, flush_batch, flush_buffer,
  flush, drain, on_stop, on_drained, on_return, on_tick, is_due, after_drain, take_job, on_job,
}

pub same_refl : (c : Collector) → SameOutcomes c c
same_refl c = record { attempts = refl; success = refl; queued = refl; errors = refl }

pub same_trans : (a b c : Collector) → SameOutcomes a b → SameOutcomes b c → SameOutcomes a c
same_trans a b c h k = record {
  attempts = k.attempts ∙ h.attempts;
  success = k.success ∙ h.success;
  queued = k.queued ∙ h.queued;
  errors = k.errors ∙ h.errors;
}

module _ {W : Type 0} (server : Server W) (cfg : Settings) where
  abbrev pub Same : State W → State W → Type 0
  Same st t = SameOutcomes st.collector t.collector

  pub if-Same :
      (st : State W) (b : Bool) (x y : State W)
      → Same st x
      → Same st y
      → Same st (if b then x else y)
  if-Same st true x y h k = h
  if-Same st false x y h k = k

  count_failed-Same :
      (results : List (Result GoError String)) (c : Collector)
      → SameOutcomes c (count_failed server cfg results c)
  unfolding count_failed
  count_failed-Same [] c = same_refl c
  count_failed-Same (ok id ∷ results) c = count_failed-Same results c
  count_failed-Same (err e ∷ results) c =
      same_trans c (inc_publish_pipeline_error c 1)
        (count_failed server cfg results (inc_publish_pipeline_error c 1))
        (record { attempts = refl; success = refl; queued = refl; errors = refl })
        (count_failed-Same results (inc_publish_pipeline_error c 1))

  after_exec-Same :
      (st : State W) (jobs : List Job) (e : Option GoError) (results : List (Result GoError String))
      → Same st (after_exec server cfg st jobs e results)
  unfolding after_exec
  after_exec-Same st jobs (some e) results = record {
    attempts = refl;
    success = refl;
    queued = refl;
    errors = refl;
  }
  after_exec-Same st jobs none results =
      let c = inc_publish_pipeline_flushed_entries st.collector (length jobs) in
      same_trans st.collector c (count_failed server cfg results c)
        (record { attempts = refl; success = refl; queued = refl; errors = refl })
        (count_failed-Same results c)

  send_live-Same : (st : State W) (jobs : List Job) → Same st (send_live server cfg st jobs)
  unfolding send_live
  send_live-Same st [] = same_refl st.collector
  send_live-Same st (job ∷ jobs) =
      let (w, e, results) = server.exec st.world (args_of server cfg st.world (job ∷ jobs)) in
      after_exec-Same (record st { world = w }) (job ∷ jobs) (exec_error server cfg e) results

  flush_buffer-Same : (st : State W) (jobs : List Job) → Same st (flush_buffer server cfg st jobs)
  unfolding flush_buffer flush_batch
  flush_buffer-Same st [] = same_refl st.collector
  flush_buffer-Same st (job ∷ jobs) =
      let t = record st {
        buffer = [];
        buffer_bytes = 0;
        collector = inc_publish_pipeline_flushed_batch st.collector;
        answers = st.answers ++ gone server cfg st.world (job ∷ jobs);
      } in
      let sending = live server cfg st.world (job ∷ jobs) in
      same_trans st.collector t.collector (send_live server cfg t sending).collector
        (record { attempts = refl; success = refl; queued = refl; errors = refl })
        (send_live-Same t sending)

  flush-Same : (st : State W) → Same st (flush server cfg st)
  unfolding flush
  flush-Same st = flush_buffer-Same st st.buffer

  take_job-Same : (st : State W) (jobs : List Job) → Same st (take_job server cfg st jobs)
  unfolding take_job after_drain drain
  take_job-Same st [] = same_refl st.collector
  take_job-Same st (job ∷ jobs) =
      let t = drain server cfg (record st {
        queue = jobs;
        buffer = st.buffer ++ job ∷ [];
        buffer_bytes = st.buffer_bytes + job.estimated_bytes;
      }) in
      if-Same st (is_due server cfg t) (flush server cfg t) t (flush-Same t)
        (same_refl st.collector)

  pub on_job-Same : (st : State W) → Same st (on_job server cfg st)
  unfolding on_job
  on_job-Same st = take_job-Same st st.queue

  pub on_stop-Same : (st : State W) → Same st (on_stop server cfg st)
  unfolding on_stop drain
  on_stop-Same st = same_refl st.collector

  pub on_drained-Same : (st : State W) → Same st (on_drained server cfg st)
  unfolding on_drained
  on_drained-Same st = flush-Same st

  pub on_return-Same : (st : State W) → Same st (on_return server cfg st)
  unfolding on_return
  on_return-Same st = same_refl st.collector

  pub on_tick-Same : (st : State W) → Same st (on_tick server cfg st)
  unfolding on_tick
  on_tick-Same st = flush-Same st

  abbrev pub SameTried : State W → State W × Option GoError → Type 0
  SameTried st (t, e) = Same st t

  if-SameTried :
      (st : State W) (b : Bool) (x y : State W × Option GoError)
      → SameTried st x
      → SameTried st y
      → SameTried st (if b then x else y)
  if-SameTried st true x y h k = h
  if-SameTried st false x y h k = k

  first_ready-Same : (st : State W) (job : Job) → SameTried st (first_ready server cfg st job)
  unfolding first_ready send
  first_ready-Same st job = elim (Bool-cases (ltb (length st.queue) cfg.queue_size)) [
    | inl e ↦ rw e (record { attempts = refl; success = refl; queued = refl; errors = refl })
    | inr e ↦ rw e (elim (Bool-cases st.done) [
      | inl f ↦ simp f (same_refl st.collector)
      | inr f ↦ simp f (elim (Option-cases (server.ctx_err st.world job.id)) [
        | inr (x, g) ↦ rw g (same_refl st.collector)
        | inl g ↦ rw g (same_refl st.collector)
      ])
    ])
  ]

  pub enqueue-Same :
      (pick : Select) (st : State W) (job : Job) → SameTried st (enqueue server cfg pick st job)
  unfolding enqueue
  enqueue-Same done_case st job =
      if-SameTried st st.done (st, some stopped) (first_ready server cfg st job)
        (same_refl st.collector) (first_ready-Same st job)
  enqueue-Same ctx_case st job = elim (Option-cases (server.ctx_err st.world job.id)) [
    | inr (x, e) ↦ rw (e, enqueue) (same_refl st.collector)
    | inl e ↦ rw (e, enqueue) (first_ready-Same st job)
  ]
  enqueue-Same send_case st job = first_ready-Same st job
