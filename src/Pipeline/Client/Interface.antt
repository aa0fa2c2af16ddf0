-- ===== src/Pipeline/Client/Interface.antt =====
-- The pipeline of internal/service/publish_pipeline.go as the client that the publish path calls.
use Prim.Native.String.{String}
use deepiri_sugar_glider.Base.{
  ℕ, suc, ◌+◌, ◌≡◌, refl, ap, ◌∙◌, subst, Option, none, some, List, [], ◌∷◌, length, GoError,
  Result, ok, err,
}
use deepiri_sugar_glider.RedisStreams.{PublishRequest}
use deepiri_sugar_glider.Metrics.{Collector}
use deepiri_sugar_glider.Pipeline.{
  Server, Job, Settings, Stage, looping, drained, flushed, State, enqueue, on_stop, on_drained,
  on_return, on_tick, on_job,
}
use deepiri_sugar_glider.Pipeline.Client.{
  Turn, takes, ticks, stops, flushes, returns, at_stage, settle_at, offers, changes, Wait, Waited,
  got, gave_up, Plan, turn, turns, wait, settle, Ended, or_later, await, result_of, after_enqueue,
  publish, stop_at, enqueue_all, Results, cons_result, next_result, await_all, after_enqueue_all,
  publish_many, new_job, new_jobs,
}
use deepiri_sugar_glider.Pipeline.Client.Outcomes.{
  same_refl, same_trans, Same, SameTried, on_job-Same, on_stop-Same, on_drained-Same,
  on_return-Same, on_tick-Same, enqueue-Same,
}
use deepiri_sugar_glider.Service.{Pipeline}

module _ {W : Type 0} (server : Server W) (cfg : Settings) where
  at_stage-Same :
      (a b : Stage) (step : State W → State W) (st : State W)
      → Same server cfg st (step st)
      → Same server cfg st (at_stage server cfg a b step st)
  unfolding at_stage
  at_stage-Same looping looping step st h = h
  at_stage-Same looping drained step st h = same_refl st.collector
  at_stage-Same looping flushed step st h = same_refl st.collector
  at_stage-Same drained looping step st h = same_refl st.collector
  at_stage-Same drained drained step st h = h
  at_stage-Same drained flushed step st h = same_refl st.collector
  at_stage-Same flushed looping step st h = same_refl st.collector
  at_stage-Same flushed drained step st h = same_refl st.collector
  at_stage-Same flushed flushed step st h = h

  turn-Same : (t : Turn W) (st : State W) → Same server cfg st (turn server cfg t st)
  unfolding turn
  turn-Same takes st =
      at_stage-Same looping st.stage (on_job server cfg) st (on_job-Same server cfg st)
  turn-Same ticks st =
      at_stage-Same looping st.stage (on_tick server cfg) st (on_tick-Same server cfg st)
  turn-Same stops st =
      at_stage-Same looping st.stage (on_stop server cfg) st (on_stop-Same server cfg st)
  turn-Same flushes st =
      at_stage-Same drained st.stage (on_drained server cfg) st (on_drained-Same server cfg st)
  turn-Same returns st =
      at_stage-Same flushed st.stage (on_return server cfg) st (on_return-Same server cfg st)
  turn-Same (offers pick job) st = enqueue-Same server cfg pick st job
  turn-Same (changes w) st = same_refl st.collector

  turns-Same : (ts : List (Turn W)) (st : State W) → Same server cfg st (turns server cfg ts st)
  unfolding turns
  turns-Same [] st = same_refl st.collector
  turns-Same (t ∷ ts) st =
      let next = turn server cfg t st in
      same_trans st.collector next.collector (turns server cfg ts next).collector (turn-Same t st)
        (turns-Same ts next)

  settle_at-Same : (s : Stage) (st : State W) → Same server cfg st (settle_at server cfg s st)
  unfolding settle_at
  settle_at-Same looping st =
      let t = on_job server cfg st in
      same_trans st.collector t.collector (on_tick server cfg t).collector
        (on_job-Same server cfg st) (on_tick-Same server cfg t)
  settle_at-Same drained st =
      let t = on_drained server cfg st in
      same_trans st.collector t.collector (on_return server cfg t).collector
        (on_drained-Same server cfg st) (on_return-Same server cfg t)
  settle_at-Same flushed st = on_return-Same server cfg st

  settle-Same : (st : State W) → Same server cfg st (settle server cfg st)
  unfolding settle
  settle-Same st = settle_at-Same st.stage st

  or_later-Same :
      (st : State W) (o : Option Waited) (later : Ended server cfg)
      → Same server cfg st later.0
      → Same server cfg st (or_later server cfg o st later).0
  unfolding or_later
  or_later-Same st none later h = h
  or_later-Same st (some w) later h = same_refl st.collector

  await-Same :
      (waits : List (Wait × Turn W)) (st : State W) (job : Job)
      → Same server cfg st (await server cfg waits st job).0
  unfolding await
  await-Same [] st job = settle-Same st
  await-Same ((pick, t) ∷ waits) st job =
      let next = turn server cfg t st in
      let later = await server cfg waits next job in
      or_later-Same st (wait server cfg pick st job) later (
        same_trans st.collector next.collector later.0.collector (turn-Same t st)
          (await-Same waits next job))

  result_of-Same :
      (st : State W) (e : Ended server cfg)
      → Same server cfg st e.0
      → Same server cfg st (result_of server cfg e).0
  unfolding result_of
  result_of-Same st (t, some (got r)) h = h
  result_of-Same st (t, some (gave_up e)) h = h
  result_of-Same st (t, none) h = h

  after_enqueue-Same :
      (st : State W) (waits : List (Wait × Turn W)) (job : Job) (p : State W × Option GoError)
      → SameTried server cfg st p
      → Same server cfg st (after_enqueue server cfg waits job p).0
  unfolding after_enqueue
  after_enqueue-Same st waits job (t, some e) h = h
  after_enqueue-Same st waits job (t, none) h =
      let ended = await server cfg waits t job in
      result_of-Same st ended
        (same_trans st.collector t.collector ended.0.collector h (await-Same waits t job))

  tried-Same :
      (plan : Plan W) (st : State W) (job : Job)
      → SameTried server cfg st (enqueue server cfg plan.pick (turns server cfg plan.before st) job)
  tried-Same plan st job =
      let t = turns server cfg plan.before st in
      same_trans st.collector t.collector (enqueue server cfg plan.pick t job).0.collector
        (turns-Same plan.before st) (enqueue-Same server cfg plan.pick t job)

  pub publish-Same :
      (plan : Plan W) (st : State W) (job : Job)
      → Same server cfg st (publish server cfg plan st job).0
  unfolding publish
  publish-Same plan st job =
      after_enqueue-Same st plan.waits job
        (enqueue server cfg plan.pick (turns server cfg plan.before st) job)
        (tried-Same plan st job)

  stop_at-Same :
      (st : State W) (p : State W × Option GoError) (rest : State W → State W × Option GoError)
      → SameTried server cfg st p
      → ((t : State W) → SameTried server cfg t (rest t))
      → SameTried server cfg st (stop_at server cfg p rest)
  unfolding stop_at
  stop_at-Same st (t, some e) rest h k = h
  stop_at-Same st (t, none) rest h k =
      same_trans st.collector t.collector (rest t).0.collector h (k t)

  enqueue_all-Same :
      (plans : ℕ → Plan W) (jobs : List Job) (st : State W)
      → SameTried server cfg st (enqueue_all server cfg plans st jobs)
  unfolding enqueue_all
  enqueue_all-Same plans [] st = same_refl st.collector
  enqueue_all-Same plans (job ∷ jobs) st =
      let plan = plans job.id in
      stop_at-Same st (enqueue server cfg plan.pick (turns server cfg plan.before st) job)
        (λ t. enqueue_all server cfg plans t jobs) (tried-Same plan st job)
        (enqueue_all-Same plans jobs)

  -- The results are as many as the jobs, if there are any, and no outcome is counted.
  abbrev pub HasLength : ℕ → Result GoError (List (Result GoError String)) → Type 0
  HasLength n (err e) = Unit
  HasLength n (ok results) = length results ≡ n

  abbrev pub Fair : State W → ℕ → Results server cfg → Type 0
  Fair st n (t, answer) = Same server cfg st t × HasLength n answer

  cons_result-Fair :
      (st : State W) (n : ℕ) (r : Result GoError String) (x : Results server cfg)
      → Fair st n x
      → Fair st (suc n) (cons_result server cfg r x)
  unfolding cons_result
  cons_result-Fair st n r (t, ok results) (s, l) = (s, ap suc l)
  cons_result-Fair st n r (t, err e) (s, l) = (s, tt)

  Fair-trans :
      (st t : State W) (n : ℕ) (x : Results server cfg)
      → Same server cfg st t
      → Fair t n x
      → Fair st n x
  Fair-trans st t n (u, answer) h (s, l) = (same_trans st.collector t.collector u.collector h s, l)

  next_result-Fair :
      (st : State W) (n : ℕ) (rest : State W → Results server cfg) (e : Ended server cfg)
      → Same server cfg st e.0
      → ((t : State W) → Fair t n (rest t))
      → Fair st (suc n) (next_result server cfg rest e)
  unfolding next_result
  next_result-Fair st n rest (t, some (got r)) h k =
      cons_result-Fair st n r (rest t) (Fair-trans st t n (rest t) h (k t))
  next_result-Fair st n rest (t, some (gave_up e)) h k = (h, tt)
  next_result-Fair st n rest (t, none) h k = (h, tt)

  await_all-Fair :
      (plans : ℕ → Plan W) (jobs : List Job) (st : State W)
      → Fair st (length jobs) (await_all server cfg plans st jobs)
  unfolding await_all
  await_all-Fair plans [] st = (same_refl st.collector, refl)
  await_all-Fair plans (job ∷ jobs) st =
      next_result-Fair st (length jobs) (λ t. await_all server cfg plans t jobs)
        (await server cfg (plans job.id).waits st job) (await-Same (plans job.id).waits st job)
        (await_all-Fair plans jobs)

  after_enqueue_all-Fair :
      (st : State W) (plans : ℕ → Plan W) (jobs : List Job) (p : State W × Option GoError)
      → SameTried server cfg st p
      → Fair st (length jobs) (after_enqueue_all server cfg plans jobs p)
  unfolding after_enqueue_all
  after_enqueue_all-Fair st plans jobs (t, some e) h = (h, tt)
  after_enqueue_all-Fair st plans jobs (t, none) h =
      Fair-trans st t (length jobs) (await_all server cfg plans t jobs) h
        (await_all-Fair plans jobs t)

  pub publish_many-Fair :
      (plans : ℕ → Plan W) (jobs : List Job) (st : State W)
      → Fair st (length jobs) (publish_many server cfg plans st jobs)
  unfolding publish_many
  publish_many-Fair plans jobs st =
      after_enqueue_all-Fair st plans jobs (enqueue_all server cfg plans st jobs)
        (enqueue_all-Same plans jobs st)

  pub HasLength-ok :
      (n : ℕ) (answer : Result GoError (List (Result GoError String)))
      → (results : List (Result GoError String)) → HasLength n answer
      → answer ≡ ok results
      → length results ≡ n
  HasLength-ok n answer results h e = subst (HasLength n) e h

pub length-new_jobs :
    (id : ℕ) (reqs : List PublishRequest) → length (new_jobs id reqs) ≡ length reqs
unfolding new_jobs
length-new_jobs id [] = refl
length-new_jobs id (req ∷ reqs) = ap suc (length-new_jobs (suc id) reqs)

-- The pipeline with the number of the next job, which is what its callers pass on.
pub record Client (W : Type 0) : Type 0 where
  pub state : State W
  pub next : ℕ

module _ {W : Type 0} (server : Server W) (cfg : Settings) (plans : ℕ → Plan W) where
  -- A caller's collector is that of the sidecar, which the pipeline shares.
  abbrev entered : Collector → Client W → State W
  entered c w = record w.state { collector = c }

  client_publish :
      Collector → Client W → PublishRequest → Collector × Client W × Result GoError String
  unfolding publish new_job
  client_publish c w req =
      let (st, r) = publish server cfg (plans w.next) (entered c w) (new_job w.next req) in
      (st.collector, record { state = st; next = suc w.next }, r)

  client_publish_many :
      Collector
      → Client W
      → List PublishRequest
      → Collector × Client W × Result GoError (List (Result GoError String))
  unfolding publish_many new_jobs
  client_publish_many c w reqs =
      let (st, r) = publish_many server cfg plans (entered c w) (new_jobs w.next reqs) in
      (st.collector, record { state = st; next = w.next + length reqs }, r)

  -- The pipeline keeps what the publish path relies on, however its callers and its goroutine are scheduled.
  unfoldable pub pipeline_client : Pipeline (Client W)
  unfolding client_publish client_publish_many
  pipeline_client = record {
    publish = client_publish;
    publish_many = client_publish_many;
    queue_length = λ w. length w.state.queue;
    publish_outcomes =
        λ c w req. publish-Same server cfg (plans w.next) (entered c w) (new_job w.next req);
    publish_many_outcomes =
        λ c w reqs. (publish_many-Fair server cfg plans (new_jobs w.next reqs) (entered c w)).0;
    publish_many_length = λ c w reqs results h.
        HasLength-ok server cfg (length (new_jobs w.next reqs))
          (publish_many server cfg plans (entered c w) (new_jobs w.next reqs)).1 results
          (publish_many-Fair server cfg plans (new_jobs w.next reqs) (entered c w)).1 h
        ∙ length-new_jobs w.next reqs;
  }
