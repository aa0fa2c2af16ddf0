-- ===== src/Pipeline/Answered.antt =====
-- The answers to the jobs over a run of the pipeline, internal/service/publish_pipeline.go.
use Prim.Native.String.{String}
use deepiri_sugar_glider.Base.{
  ℕ, ◌+◌, ◌≡◌, refl, sym, ap, subst, ◌∙◌, arith, Bool, true, false, if◌then◌else◌, Option, none,
  some, List, [], ◌∷◌, ◌++◌, GoError, Result,
}
use deepiri_sugar_glider.Base.Count.{count}
use deepiri_sugar_glider.Metrics.{inc_publish_pipeline_flushed_batch}
use deepiri_sugar_glider.Pipeline.{
  Server, Job, Settings, State, Select, enqueue, gone, live, args_of, exec_error, after_exec,
  send_live, flush_batch, flush_buffer, flush, drain, on_stop, on_drained, on_return, on_tick,
  is_due, after_drain, take_job, on_job, Stage, looping, drained, flushed,
}
use deepiri_sugar_glider.Pipeline.Conserved.{
  job_ids, answer_ids, count-job_ids, places, flush-places, on_job-places, Accepted,
  Accepted-places, Enqueued, enqueue-Enqueued,
}

module _ {W : Type 0} (server : Server W) (cfg : Settings) where
  -- A flush keeps the queue and the stage, and empties the buffer.
  Keeps : State W → State W → Type 0
  Keeps st t = (t.queue ≡ st.queue) × (t.buffer ≡ st.buffer) × (t.stage ≡ st.stage)

  after_exec-Keeps :
      (st : State W) (jobs : List Job) (e : Option GoError) (results : List (Result GoError String))
      → Keeps st (after_exec server cfg st jobs e results)
  unfolding after_exec Keeps
  after_exec-Keeps st jobs (some e) results = (refl, refl, refl)
  after_exec-Keeps st jobs none results = (refl, refl, refl)

  send_live-Keeps : (st : State W) (jobs : List Job) → Keeps st (send_live server cfg st jobs)
  unfolding send_live Keeps
  send_live-Keeps st [] = (refl, refl, refl)
  send_live-Keeps st (job ∷ jobs) =
      let r = server.exec st.world (args_of server cfg st.world (job ∷ jobs)) in
      after_exec-Keeps (record st { world = r.0 }) (job ∷ jobs) (exec_error server cfg r.1) r.2

  flush_buffer_empties :
      (st : State W) (jobs : List Job)
      → st.buffer ≡ jobs
      → ((flush_buffer server cfg st jobs).queue ≡ st.queue)
        × ((flush_buffer server cfg st jobs).buffer ≡ [])
        × ((flush_buffer server cfg st jobs).stage ≡ st.stage)
  unfolding flush_buffer flush_batch Keeps
  flush_buffer_empties st [] h = (refl, h, refl)
  flush_buffer_empties st (job ∷ jobs) h =
      send_live-Keeps
        (record st {
          buffer = [];
          buffer_bytes = 0;
          collector = inc_publish_pipeline_flushed_batch st.collector;
          answers = st.answers ++ gone server cfg st.world (job ∷ jobs);
        })
        (live server cfg st.world (job ∷ jobs))

  pub flush_empties :
      (st : State W)
      → ((flush server cfg st).queue ≡ st.queue)
        × ((flush server cfg st).buffer ≡ [])
        × ((flush server cfg st).stage ≡ st.stage)
  unfolding flush
  flush_empties st = flush_buffer_empties st st.buffer refl

  -- The steps of the loop leave the stage.
  if-stage :
      (b : Bool) (x y : State W) (s : Stage)
      → x.stage ≡ s
      → y.stage ≡ s
      → (if b then x else y).stage ≡ s
  if-stage true x y s h k = h
  if-stage false x y s h k = k

  take_job-stage : (st : State W) (jobs : List Job) → (take_job server cfg st jobs).stage ≡ st.stage
  unfolding take_job after_drain drain
  take_job-stage st [] = refl
  take_job-stage st (job ∷ jobs) =
      let t = drain server cfg (record st {
        queue = jobs;
        buffer = st.buffer ++ job ∷ [];
        buffer_bytes = st.buffer_bytes + job.estimated_bytes;
      }) in
      if-stage (is_due server cfg t) (flush server cfg t) t st.stage (flush_empties t).2 refl

  on_job-stage : (st : State W) → (on_job server cfg st).stage ≡ st.stage
  unfolding on_job
  on_job-stage st = take_job-stage st st.queue

  -- A run of the pipeline up to some state, with the numbers of the jobs that it has accepted, `early` before
  -- the queue was drained for the last time and `late` since then: callers offer jobs at any time, the
  -- goroutine goes through its loop, drains, flushes and returns, and what lies outside changes at any time.
  pub data Run (st₀ : State W) : State W → List ℕ → List ℕ → Type 0 where
    start : Run st₀ st₀ [] []
    accepts :
        (st t : State W) (early late : List ℕ) (pick : Select) (job : Job)
        → Run st₀ st early late
        → st.stage ≡ looping
        → enqueue server cfg pick st job ≡ (t, none)
        → Run st₀ t (job.id ∷ early) late
    accepts_late :
        (st t : State W) (early late : List ℕ) (pick : Select) (job : Job)
        → Run st₀ st early late
        → (st.stage ≡ looping → ⊥)
        → enqueue server cfg pick st job ≡ (t, none)
        → Run st₀ t early (job.id ∷ late)
    refuses :
        (st t : State W) (early late : List ℕ) (pick : Select) (job : Job) (e : GoError)
        → Run st₀ st early late
        → enqueue server cfg pick st job ≡ (t, some e)
        → Run st₀ t early late
    takes :
        (st : State W) (early late : List ℕ)
        → Run st₀ st early late
        → st.stage ≡ looping
        → Run st₀ (on_job server cfg st) early late
    ticks :
        (st : State W) (early late : List ℕ)
        → Run st₀ st early late
        → st.stage ≡ looping
        → Run st₀ (on_tick server cfg st) early late
    stops :
        (st : State W) (early late : List ℕ)
        → Run st₀ st early late
        → st.stage ≡ looping
        → Run st₀ (on_stop server cfg st) early late
    flushes :
        (st : State W) (early late : List ℕ)
        → Run st₀ st early late
        → st.stage ≡ drained
        → Run st₀ (on_drained server cfg st) early late
    returns :
        (st : State W) (early late : List ℕ)
        → Run st₀ st early late
        → st.stage ≡ flushed
        → Run st₀ (on_return server cfg st) early late
    changes :
        (st : State W) (early late : List ℕ) (w : W)
        → Run st₀ st early late
        → Run st₀ (record st { world = w }) early late

  pub record IsFresh (st : State W) : Type 0 where
    pub queue : st.queue ≡ []
    pub buffer : st.buffer ≡ []
    pub answers : st.answers ≡ []
    pub stage : st.stage ≡ looping

  abbrev queued : ℕ → State W → ℕ
  queued i st = count i (job_ids st.queue)

  abbrev held : ℕ → State W → ℕ
  held i st = count i (job_ids st.buffer) + count i (answer_ids st.answers)

  -- Where the jobs are, at each stage.
  Placed : Stage → State W → List ℕ → List ℕ → Type 0
  Placed looping st early late = (late ≡ []) × ((i : ℕ) → places server cfg i st ≡ count i early)
  Placed drained st early late =
      ((i : ℕ) → held i st ≡ count i early) × ((i : ℕ) → queued i st ≡ count i late)
  Placed flushed st early late =
      (st.buffer ≡ [])
      × ((i : ℕ) → count i (answer_ids st.answers) ≡ count i early)
      × ((i : ℕ) → queued i st ≡ count i late)

  at_stage :
      (s : Stage) (st : State W) (early late : List ℕ)
      → st.stage ≡ s
      → Placed st.stage st early late
      → Placed s st early late
  at_stage s st early late e h = subst (λ x. Placed x st early late) e h

  to_stage :
      (s : Stage) (st : State W) (early late : List ℕ)
      → st.stage ≡ s
      → Placed s st early late
      → Placed st.stage st early late
  to_stage s st early late e h = subst (λ x. Placed x st early late) (sym e) h

  one_more :
      (i : ℕ) (st t : State W) (late : List ℕ) (job : Job)
      → Accepted server cfg st job t
      → queued i st ≡ count i late
      → queued i t ≡ count i (job.id ∷ late)
  unfolding count
  one_more i st t late job a q =
      ground (arith, q, count-job_ids i st.queue (job ∷ []), ap (λ b. count i (job_ids b)) a.queue)

  accepted_late :
      (s : Stage) (st t : State W) (early late : List ℕ) (job : Job)
      → Accepted server cfg st job t
      → (s ≡ looping → ⊥)
      → Placed s st early late
      → Placed s t early (job.id ∷ late)
  unfolding Placed count
  accepted_late looping st t early late job a n h = absurd (n refl)
  accepted_late drained st t early late job a n (h, q) = (
    λ i. omega (
      arith,
      h i,
      ap (λ b. count i (job_ids b)) a.buffer,
      ap (λ b. count i (answer_ids b)) a.answers,
    ),
    λ i. one_more i st t late job a (q i),
  )
  accepted_late flushed st t early late job a n (b, h, q) = (
    a.buffer ∙ b,
    λ i. ap (λ x. count i (answer_ids x)) a.answers ∙ h i,
    λ i. one_more i st t late job a (q i),
  )

  moved :
      (s : Stage) (st : State W) (early late : List ℕ) (w : W)
      → Placed s st early late
      → Placed s (record st { world = w }) early late
  unfolding Placed
  moved looping st early late w h = h
  moved drained st early late w h = h
  moved flushed st early late w h = h

  run-Placed :
      (st₀ st : State W) (early late : List ℕ)
      → IsFresh st₀
      → Run st₀ st early late
      → Placed st.stage st early late
  unfolding Placed count on_tick on_stop on_drained on_return drain Enqueued
  run-Placed st₀ _ _ _ f start = to_stage looping st₀ [] [] f.stage (
    refl,
    λ i. omega (
      arith,
      ap (λ b. count i (job_ids b)) f.queue,
      ap (λ b. count i (job_ids b)) f.buffer,
      ap (λ b. count i (answer_ids b)) f.answers,
    ),
  )
  run-Placed st₀ t _ late f (accepts st _ early _ pick job r s h) =
      let a = subst (Enqueued server cfg st job) h (enqueue-Enqueued server cfg pick st job) in
      let (l, p) = at_stage looping st early late s (run-Placed st₀ st early late f r) in
      to_stage looping t (job.id ∷ early) late (a.stage ∙ s)
        (l, λ i. ground (arith, Accepted-places server cfg st t job a i, p i))
  run-Placed st₀ t early _ f (accepts_late st _ _ late pick job r s h) =
      let a = subst (Enqueued server cfg st job) h (enqueue-Enqueued server cfg pick st job) in
      to_stage st.stage t early (job.id ∷ late) a.stage
        (accepted_late st.stage st t early late job a s (run-Placed st₀ st early late f r))
  run-Placed st₀ t early late f (refuses st _ _ _ pick job e r h) =
      subst (λ x. Placed x.stage x early late)
        (sym (subst (Enqueued server cfg st job) h (enqueue-Enqueued server cfg pick st job)))
        (run-Placed st₀ st early late f r)
  run-Placed st₀ _ early late f (takes st _ _ r s) =
      let (l, p) = at_stage looping st early late s (run-Placed st₀ st early late f r) in
      to_stage looping (on_job server cfg st) early late (on_job-stage st ∙ s)
        (l, λ i. on_job-places server cfg i st ∙ p i)
  run-Placed st₀ _ early late f (ticks st _ _ r s) =
      let (l, p) = at_stage looping st early late s (run-Placed st₀ st early late f r) in
      to_stage looping (flush server cfg st) early late ((flush_empties st).2 ∙ s)
        (l, λ i. flush-places server cfg i st ∙ p i)
  run-Placed st₀ _ early late f (stops st _ _ r s) =
      let (l, p) = at_stage looping st early late s (run-Placed st₀ st early late f r) in
      (λ i. omega (arith, p i, count-job_ids i st.buffer st.queue), λ i. sym (ap (count i) l))
  run-Placed st₀ _ early late f (flushes st _ _ r s) =
      let (h, q) = at_stage drained st early late s (run-Placed st₀ st early late f r) in
      let (k, b, _) = flush_empties st in
      (
        b,
        λ i. omega (
          arith,
          h i,
          flush-places server cfg i st,
          ap (λ x. count i (job_ids x)) k,
          ap (λ x. count i (job_ids x)) b,
        ),
        λ i. ap (λ x. count i (job_ids x)) k ∙ q i,
      )
  run-Placed st₀ _ early late f (returns st _ _ r s) =
      to_stage flushed (on_return server cfg st) early late s
        (at_stage flushed st early late s (run-Placed st₀ st early late f r))
  run-Placed st₀ _ early late f (changes st _ _ w r) =
      to_stage st.stage (record st { world = w }) early late refl
        (moved st.stage st early late w (run-Placed st₀ st early late f r))

  -- When the goroutine has flushed for the last time, in any run from a fresh state, each job that was accepted
  -- before the last drain has been answered as often as it was accepted: once, if each has a number of its own.
  -- Each job that was accepted since then is in the queue, and is not answered.
  pub stopped_run-answers :
      (st₀ st : State W) (early late : List ℕ)
      → IsFresh st₀
      → Run st₀ st early late
      → st.stage ≡ flushed
      → (st.buffer ≡ [])
        × ((i : ℕ) → count i (answer_ids st.answers) ≡ count i early)
        × ((i : ℕ) → count i (job_ids st.queue) ≡ count i late)
  unfolding Placed
  stopped_run-answers st₀ st early late f r s =
      at_stage flushed st early late s (run-Placed st₀ st early late f r)
