-- ===== src/Pipeline/Client.antt =====
-- Publish and PublishMany of internal/service/publish_pipeline.go: what a caller does, between the steps of
-- the goroutine and of the other callers.
pub mod Outcomes
pub mod Interface
pub mod Returns
mod Examples
use Prim.Native.String.{String}
use deepiri_sugar_glider.Base.{
  ℕ, suc, Bool, true, false, Option, none, some, List, [], ◌∷◌, length, ◌==◌, if◌then◌else◌,
  GoError, stopped, Result, ok, err,
}
use deepiri_sugar_glider.RedisStreams.{PublishRequest}
use deepiri_sugar_glider.Metrics.{Collector}
use deepiri_sugar_glider.Pipeline.{
  Server, Job, Settings, Answer, Stage, looping, drained, flushed, State, Select,
  estimate_publish_request_bytes, enqueue, on_stop, on_drained, on_return, on_tick, on_job,
}

-- What may happen while a caller waits: a step of the loop of run, a job of another caller, or a change of
-- what lies outside.
pub data Turn (W : Type 0) : Type 0 where
  takes ticks stops flushes returns : Turn W
  offers : Select → Job → Turn W
  changes : W → Turn W

-- The cases of the second select.
pub data Wait : Type 0 where
  result_case ctx_case done_case : Wait

-- What the second select ends with: the result of the job, or an error of its own.
pub data Waited : Type 0 where
  got : Result GoError String → Waited
  gave_up : GoError → Waited

-- The result that was sent on the channel of a job.
unfoldable pub answer_of : ℕ → List Answer → Option (Result GoError String)
answer_of i [] = none
answer_of i ((j, r) ∷ answers) = let rest = answer_of i answers in if j == i then some r else rest

-- The innermost select: the result, if it is there.
unfoldable pub after_done : Option (Result GoError String) → Waited
after_done (some r) = got r
after_done none = gave_up stopped

-- The case that is picked, or another where it is not ready; `none` is that none is.
unfoldable pub choose :
    Wait → Option (Result GoError String) → Option GoError → Bool → Option Waited
unfolding after_done
choose result_case (some r) ctx done = some (got r)
choose result_case none (some e) done = some (gave_up e)
choose result_case none none true = some (gave_up stopped)
choose result_case none none false = none
choose ctx_case answer (some e) done = some (gave_up e)
choose ctx_case (some r) none done = some (got r)
choose ctx_case none none true = some (gave_up stopped)
choose ctx_case none none false = none
choose done_case answer ctx true = some (after_done answer)
choose done_case (some r) ctx false = some (got r)
choose done_case none (some e) false = some (gave_up e)
choose done_case none none false = none

-- How one job fares: what happens before it is offered, the case of its first select, and what happens
-- while its caller waits, with the case that the second select would pick each time.
pub record Plan (W : Type 0) : Type 0 where
  pub before : List (Turn W)
  pub pick : Select
  pub waits : List (Wait × Turn W)

module _ {W : Type 0} (server : Server W) (cfg : Settings) where
  -- A step of the goroutine is taken at its stage, and changes nothing at another one.
  unfoldable pub at_stage : Stage → Stage → (State W → State W) → State W → State W
  at_stage looping looping step st = step st
  at_stage drained drained step st = step st
  at_stage flushed flushed step st = step st
  at_stage _ _ step st = st

  unfoldable pub turn : Turn W → State W → State W
  unfolding enqueue on_job on_tick on_stop on_drained on_return at_stage
  turn takes st = at_stage looping st.stage (on_job server cfg) st
  turn ticks st = at_stage looping st.stage (on_tick server cfg) st
  turn stops st = at_stage looping st.stage (on_stop server cfg) st
  turn flushes st = at_stage drained st.stage (on_drained server cfg) st
  turn returns st = at_stage flushed st.stage (on_return server cfg) st
  turn (offers pick job) st = (enqueue server cfg pick st job).0
  turn (changes w) st = record st { world = w }

  unfoldable pub turns : List (Turn W) → State W → State W
  unfolding turn
  turns [] st = st
  turns (t ∷ ts) st = turns ts (turn t st)

  unfoldable pub wait : Wait → State W → Job → Option Waited
  unfolding choose answer_of
  wait pick st job =
      choose pick (answer_of job.id st.answers) (server.ctx_err st.world job.id) st.done

  -- The loop of run takes the next job and its ticker fires, as they do sooner or later, or the goroutine goes
  -- on to its end.
  unfoldable pub settle_at : Stage → State W → State W
  unfolding on_job on_tick on_drained on_return
  settle_at looping st = on_tick server cfg (on_job server cfg st)
  settle_at drained st = on_return server cfg (on_drained server cfg st)
  settle_at flushed st = on_return server cfg st

  unfoldable pub settle : State W → State W
  unfolding settle_at
  settle st = settle_at st.stage st

  abbrev pub Ended : Type 0
  Ended = State W × Option Waited

  -- A wait that is over, or what follows.
  unfoldable pub or_later : Option Waited → State W → Ended → Ended
  or_later (some w) st later = (st, some w)
  or_later none st later = later

  unfoldable pub await : List (Wait × Turn W) → State W → Job → Ended
  unfolding or_later wait settle turn
  await [] st job = (settle st, wait result_case (settle st) job)
  await ((pick, t) ∷ waits) st job = or_later (wait pick st job) st (await waits (turn t st) job)

  unfoldable pub result_of : Ended → State W × Result GoError String
  result_of (st, some (got r)) = (st, r)
  result_of (st, some (gave_up e)) = (st, err e)
  result_of (st, none) = (st, err stopped)

  unfoldable pub after_enqueue :
      List (Wait × Turn W) → Job → State W × Option GoError → State W × Result GoError String
  unfolding result_of await
  after_enqueue waits job (st, some e) = (st, err e)
  after_enqueue waits job (st, none) = result_of (await waits st job)

  unfoldable pub publish : Plan W → State W → Job → State W × Result GoError String
  unfolding turns enqueue after_enqueue
  publish plan st job =
      after_enqueue plan.waits job (enqueue server cfg plan.pick (turns plan.before st) job)

  unfoldable pub stop_at :
      State W × Option GoError → (State W → State W × Option GoError) → State W × Option GoError
  stop_at (t, some e) rest = (t, some e)
  stop_at (t, none) rest = rest t

  -- The first loop of PublishMany; `plans` says how each job fares, by its number.
  unfoldable pub enqueue_all : (ℕ → Plan W) → State W → List Job → State W × Option GoError
  unfolding turns enqueue stop_at
  enqueue_all plans st [] = (st, none)
  enqueue_all plans st (job ∷ jobs) =
      let plan = plans job.id in
      stop_at (enqueue server cfg plan.pick (turns plan.before st) job)
        (λ t. enqueue_all plans t jobs)

  abbrev pub Results : Type 0
  Results = State W × Result GoError (List (Result GoError String))

  unfoldable pub cons_result : Result GoError String → Results → Results
  cons_result r (st, ok results) = (st, ok (r ∷ results))
  cons_result r (st, err e) = (st, err e)

  -- A result, after which the others are waited for, or an error of the whole.
  unfoldable pub next_result : (State W → Results) → Ended → Results
  unfolding cons_result
  next_result rest (st, some (got r)) = cons_result r (rest st)
  next_result rest (st, some (gave_up e)) = (st, err e)
  next_result rest (st, none) = (st, err stopped)

  -- The second loop.
  unfoldable pub await_all : (ℕ → Plan W) → State W → List Job → Results
  unfolding next_result await
  await_all plans st [] = (st, ok [])
  await_all plans st (job ∷ jobs) =
      next_result (λ t. await_all plans t jobs) (await (plans job.id).waits st job)

  unfoldable pub after_enqueue_all : (ℕ → Plan W) → List Job → State W × Option GoError → Results
  unfolding await_all
  after_enqueue_all plans jobs (st, some e) = (st, err e)
  after_enqueue_all plans jobs (st, none) = await_all plans st jobs

  unfoldable pub publish_many : (ℕ → Plan W) → State W → List Job → Results
  unfolding enqueue_all after_enqueue_all
  publish_many plans st jobs = after_enqueue_all plans jobs (enqueue_all plans st jobs)

unfoldable pub new_job : ℕ → PublishRequest → Job
unfolding estimate_publish_request_bytes
new_job id req = record { id = id; req = req; estimated_bytes = estimate_publish_request_bytes req }

-- Jobs are numbered in their order.
unfoldable pub new_jobs : ℕ → List PublishRequest → List Job
unfolding new_job
new_jobs id [] = []
new_jobs id (req ∷ reqs) = new_job id req ∷ new_jobs (suc id) reqs
