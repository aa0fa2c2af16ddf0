-- ===== src/Pipeline/Client/Returns.antt =====
-- That a caller of the pipeline in internal/service/publish_pipeline.go gets an answer.
use Prim.Native.String.{String}
use deepiri_sugar_glider.Base.{
  ℕ, ◌+◌, ◌≤◌, ◌⊎◌, ◌≡◌, refl, sym, ap, ◌∙◌, subst, arith, Bool, true, false, Option, none, some,
  List, [], ◌∷◌, ◌++◌, ◌==◌, if◌then◌else◌, inl, inr, Bool-cases, GoError, Result,
}
use deepiri_sugar_glider.Base.Count.{count}
use deepiri_sugar_glider.Pipeline.{
  Server, Job, Settings, Answer, State, Select, enqueue, flush, drain, on_stop, on_drained,
  on_return, on_tick, is_due, Stage, looping, drained, flushed, after_drain, take_job, on_job,
}
use deepiri_sugar_glider.Pipeline.Conserved.{
  job_ids, answer_ids, places, flush-places, on_stop-places, on_drained-places, on_job-places,
  Accepted-places, Enqueued, enqueue-Enqueued,
}
use deepiri_sugar_glider.Pipeline.Answered.{flush_empties}
use deepiri_sugar_glider.Pipeline.Client.{
  Turn, takes, ticks, stops, flushes, returns, at_stage, settle_at, offers, changes, Wait,
  result_case, Waited, turn, answer_of, choose, wait, settle, Ended, or_later, await,
}

counted : (i : ℕ) → 1 ≤ count i (i ∷ [])
unfolding count
counted i = ground arith

-- A job that has been answered has an answer.
answer_of-count :
    (i : ℕ) (answers : List Answer)
    → 1 ≤ count i (answer_ids answers)
    → (r : Result GoError String) × (answer_of i answers ≡ some r)
unfolding count answer_of
answer_of-count i [] h = absurd (omega (arith, h))
answer_of-count i ((j, r) ∷ answers) h = elim (Bool-cases (j == i)) [
  | inl e ↦ rw e (r, refl)
  | inr e ↦ rw e (answer_of-count i answers (rw e at h))
]

module _ {W : Type 0} (server : Server W) (cfg : Settings) where
  abbrev IsSomewhere : ℕ → State W → Type 0
  IsSomewhere i st = 1 ≤ places server cfg i st

  tried-IsSomewhere :
      (i : ℕ) (st : State W) (job : Job) (p : State W × Option GoError)
      → Enqueued server cfg st job p
      → IsSomewhere i st
      → IsSomewhere i p.0
  unfolding Enqueued
  tried-IsSomewhere i st job (t, none) e h =
      omega (arith, Accepted-places server cfg st t job e i, h)
  tried-IsSomewhere i st job (t, some x) e h = subst (IsSomewhere i) (sym e) h

  on_tick-IsSomewhere :
      (i : ℕ) (st : State W) → IsSomewhere i st → IsSomewhere i (on_tick server cfg st)
  unfolding on_tick
  on_tick-IsSomewhere i st h = omega (arith, flush-places server cfg i st, h)

  on_job-IsSomewhere :
      (i : ℕ) (st : State W) → IsSomewhere i st → IsSomewhere i (on_job server cfg st)
  on_job-IsSomewhere i st h = omega (arith, on_job-places server cfg i st, h)

  at_stage-IsSomewhere :
      (i : ℕ) (a b : Stage) (step : State W → State W) (st : State W)
      → IsSomewhere i st
      → IsSomewhere i (step st)
      → IsSomewhere i (at_stage server cfg a b step st)
  unfolding at_stage
  at_stage-IsSomewhere i looping looping step st h k = k
  at_stage-IsSomewhere i looping drained step st h k = h
  at_stage-IsSomewhere i looping flushed step st h k = h
  at_stage-IsSomewhere i drained looping step st h k = h
  at_stage-IsSomewhere i drained drained step st h k = k
  at_stage-IsSomewhere i drained flushed step st h k = h
  at_stage-IsSomewhere i flushed looping step st h k = h
  at_stage-IsSomewhere i flushed drained step st h k = h
  at_stage-IsSomewhere i flushed flushed step st h k = k

  turn-IsSomewhere :
      (i : ℕ) (t : Turn W) (st : State W) → IsSomewhere i st → IsSomewhere i (turn server cfg t st)
  unfolding turn on_return
  turn-IsSomewhere i takes st h =
      at_stage-IsSomewhere i looping st.stage (on_job server cfg) st h (on_job-IsSomewhere i st h)
  turn-IsSomewhere i ticks st h =
      at_stage-IsSomewhere i looping st.stage (on_tick server cfg) st h (on_tick-IsSomewhere i st h)
  turn-IsSomewhere i stops st h =
      at_stage-IsSomewhere i looping st.stage (on_stop server cfg) st h
        (omega (arith, on_stop-places server cfg i st, h))
  turn-IsSomewhere i flushes st h =
      at_stage-IsSomewhere i drained st.stage (on_drained server cfg) st h
        (omega (arith, on_drained-places server cfg i st, h))
  turn-IsSomewhere i returns st h =
      at_stage-IsSomewhere i flushed st.stage (on_return server cfg) st h h
  turn-IsSomewhere i (offers pick job) st h =
      tried-IsSomewhere i st job (enqueue server cfg pick st job)
        (enqueue-Enqueued server cfg pick st job) h
  turn-IsSomewhere i (changes w) st h = h

  -- The queue is empty after a job is taken, and the buffer too after the ticker fires.
  if-queue :
      (b : Bool) (x y : State W) → x.queue ≡ [] → y.queue ≡ [] → (if b then x else y).queue ≡ []
  if-queue true x y h k = h
  if-queue false x y h k = k

  take_job-queue :
      (st : State W) (jobs : List Job) → st.queue ≡ jobs → (take_job server cfg st jobs).queue ≡ []
  unfolding take_job after_drain drain
  take_job-queue st [] h = h
  take_job-queue st (job ∷ jobs) h =
      let t = drain server cfg (record st {
        queue = jobs;
        buffer = st.buffer ++ job ∷ [];
        buffer_bytes = st.buffer_bytes + job.estimated_bytes;
      }) in
      if-queue (is_due server cfg t) (flush server cfg t) t (flush_empties server cfg t).0 refl

  on_job-queue : (st : State W) → (on_job server cfg st).queue ≡ []
  unfolding on_job
  on_job-queue st = take_job-queue st st.queue refl

  -- A job that is somewhere is answered when the state has settled.
  settled_answer :
      (i : ℕ) (st : State W)
      → IsSomewhere i st
      → let t = on_tick server cfg (on_job server cfg st) in 1 ≤ count i (answer_ids t.answers)
  unfolding on_tick flush count
  settled_answer i st h =
      let taken = on_job server cfg st in
      let (q, b, _) = flush_empties server cfg taken in
      omega (
        arith,
        on_tick-IsSomewhere i taken (on_job-IsSomewhere i st h),
        ap (λ x. count i (job_ids x)) (q ∙ on_job-queue st),
        ap (λ x. count i (job_ids x)) b,
      )

  -- The pipeline has stopped, or the job is answered.
  Answerable : ℕ → State W → Type 0
  Answerable i st = (st.done ≡ true) ⊎ (1 ≤ count i (answer_ids st.answers))

  settle_at-Answerable :
      (i : ℕ) (s : Stage) (st : State W)
      → IsSomewhere i st
      → Answerable i (settle_at server cfg s st)
  unfolding settle_at on_return Answerable
  settle_at-Answerable i looping st h = inr (settled_answer i st h)
  settle_at-Answerable i drained st h = inl refl
  settle_at-Answerable i flushed st h = inl refl

  settle-Answerable :
      (i : ℕ) (st : State W) → IsSomewhere i st → Answerable i (settle server cfg st)
  unfolding settle
  settle-Answerable i st h = settle_at-Answerable i st.stage st h

  abbrev Returns : Option Waited → Type 0
  Returns o = (w : Waited) × (o ≡ some w)

  choose_done :
      (answer : Option (Result GoError String)) (ctx : Option GoError)
      → Returns (choose result_case answer ctx true)
  unfolding choose
  choose_done (some r) ctx = (_, refl)
  choose_done none (some e) = (_, refl)
  choose_done none none = (_, refl)

  choose_answered :
      (r : Result GoError String) (ctx : Option GoError) (done : Bool)
      → Returns (choose result_case (some r) ctx done)
  unfolding choose
  choose_answered r ctx done = (_, refl)

  Answerable-Returns :
      (st : State W) (job : Job)
      → Answerable job.id st
      → Returns (wait server cfg result_case st job)
  unfolding wait Answerable
  Answerable-Returns st job (inl d) =
      subst
        (λ b.
          Returns
            (choose result_case (answer_of job.id st.answers) (server.ctx_err st.world job.id) b))
        (sym d) (choose_done (answer_of job.id st.answers) (server.ctx_err st.world job.id))
  Answerable-Returns st job (inr n) =
      let (r, e) = answer_of-count job.id st.answers n in
      subst (λ a. Returns (choose result_case a (server.ctx_err st.world job.id) st.done)) (sym e)
        (choose_answered r (server.ctx_err st.world job.id) st.done)

  or_later-Returns :
      (o : Option Waited) (st : State W) (later : Ended server cfg)
      → Returns later.1
      → Returns (or_later server cfg o st later).1
  unfolding or_later
  or_later-Returns none st later h = h
  or_later-Returns (some w) st later h = (w, refl)

  await-IsSomewhere :
      (waits : List (Wait × Turn W)) (st : State W) (job : Job)
      → IsSomewhere job.id st
      → Returns (await server cfg waits st job).1
  unfolding await
  await-IsSomewhere [] st job h =
      Answerable-Returns (settle server cfg st) job (settle-Answerable job.id st h)
  await-IsSomewhere ((pick, t) ∷ waits) st job h =
      let next = turn server cfg t st in
      or_later-Returns (wait server cfg pick st job) st (await server cfg waits next job)
        (await-IsSomewhere waits next job (turn-IsSomewhere job.id t st h))

  -- A caller whose job was accepted gets an answer: whatever happens while it waits, and whichever cases are
  -- picked, its wait ends once the loop of run has taken the jobs of the queue and its ticker has fired, or
  -- its goroutine has ended.
  pub await-returns :
      (pick : Select) (st t : State W) (job : Job) (waits : List (Wait × Turn W))
      → enqueue server cfg pick st job ≡ (t, none)
      → (w : Waited) × ((await server cfg waits t job).1 ≡ some w)
  unfolding Enqueued
  await-returns pick st t job waits h =
      let placed = subst (Enqueued server cfg st job) h (enqueue-Enqueued server cfg pick st job) in
      await-IsSomewhere waits t job
        (omega (arith, Accepted-places server cfg st t job placed job.id, counted job.id))
