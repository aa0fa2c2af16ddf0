-- ===== src/Pipeline/Conserved.antt =====
-- Where the jobs of internal/service/publish_pipeline.go are: in the queue, in the buffer, or answered.
use Prim.Native.String.{String}
use deepiri_sugar_glider.Base.{
  ℕ, suc, ◌+◌, ◌≡◌, refl, ap, ◌∙◌, arith, Bool, true, false, Option, none, some, List, [], ◌∷◌,
  ◌++◌, length, ltb, if◌then◌else◌, GoError, Result, inl, inr, Bool-cases, Option-cases,
}
use deepiri_sugar_glider.Base.Count.{count}
use deepiri_sugar_glider.Metrics.{inc_publish_pipeline_flushed_batch}
use deepiri_sugar_glider.Pipeline.{
  Server, Job, Settings, Answer, State, Select, done_case, ctx_case, send_case, send, first_ready,
  enqueue, gone, live, args_of, all_failed, answer_each, exec_error, after_exec, send_live,
  flush_batch, flush_buffer, flush, drain, on_stop, on_drained, is_due, after_drain, take_job,
  on_job,
}

abbrev pub job_ids : List Job → List ℕ
job_ids [] = []
job_ids (job ∷ jobs) = job.id ∷ job_ids jobs

abbrev pub answer_ids : List Answer → List ℕ
answer_ids [] = []
answer_ids ((i, r) ∷ answers) = i ∷ answer_ids answers

pub count-job_ids :
    (i : ℕ) (xs ys : List Job)
    → count i (job_ids (xs ++ ys)) ≡ count i (job_ids xs) + count i (job_ids ys)
unfolding count
count-job_ids i [] ys = omega arith
count-job_ids i (x ∷ xs) ys = ground (arith, count-job_ids i xs ys)

count-answer_ids :
    (i : ℕ) (xs ys : List Answer)
    → count i (answer_ids (xs ++ ys)) ≡ count i (answer_ids xs) + count i (answer_ids ys)
unfolding count
count-answer_ids i [] ys = omega arith
count-answer_ids i ((j, r) ∷ xs) ys = ground (arith, count-answer_ids i xs ys)

module _ {W : Type 0} (server : Server W) (cfg : Settings) where
  gone_or_live :
      (i : ℕ) (w : W) (jobs : List Job)
      → count i (answer_ids (gone server cfg w jobs)) + count i (job_ids (live server cfg w jobs))
        ≡ count i (job_ids jobs)
  unfolding gone live count
  gone_or_live i w [] = refl
  gone_or_live i w (job ∷ jobs) = elim (Option-cases (server.ctx_err w job.id)) [
    | inl e ↦ rw (e, gone, live) (ground (arith, gone_or_live i w jobs))
    | inr (x, e) ↦ rw (e, gone, live) (ground (arith, gone_or_live i w jobs))
  ]

  all_failed-ids :
      (e : GoError) (jobs : List Job) → answer_ids (all_failed server cfg e jobs) ≡ job_ids jobs
  unfolding all_failed
  all_failed-ids e [] = refl
  all_failed-ids e (job ∷ jobs) = ap (◌∷◌ job.id) (all_failed-ids e jobs)

  answer_each-ids :
      (jobs : List Job) (results : List (Result GoError String))
      → length results ≡ length jobs
      → answer_ids (answer_each server cfg jobs results) ≡ job_ids jobs
  unfolding answer_each
  answer_each-ids [] results h = refl
  answer_each-ids (job ∷ jobs) [] h = absurd (omega (arith, h))
  answer_each-ids (job ∷ jobs) (r ∷ results) h =
      ap (◌∷◌ job.id) (answer_each-ids jobs results (omega (arith, h)))

  length-args_of : (w : W) (jobs : List Job) → length (args_of server cfg w jobs) ≡ length jobs
  unfolding args_of
  length-args_of w [] = refl
  length-args_of w (job ∷ jobs) = ap suc (length-args_of w jobs)

  -- Where a job is: in the queue, in the buffer, or answered.
  abbrev pub places : ℕ → State W → ℕ
  places i st =
      count i (job_ids st.queue) + count i (job_ids st.buffer) + count i (answer_ids st.answers)

  after_exec-places :
      (i : ℕ) (st : State W) (jobs : List Job) (e : Option GoError)
      (results : List (Result GoError String))
      → length results ≡ length jobs
      → places i (after_exec server cfg st jobs e results) ≡ places i st + count i (job_ids jobs)
  unfolding after_exec
  after_exec-places i st jobs (some e) results h = omega (
    arith,
    count-answer_ids i st.answers (all_failed server cfg e jobs),
    ap (count i) (all_failed-ids e jobs),
  )
  after_exec-places i st jobs none results h = omega (
    arith,
    count-answer_ids i st.answers (answer_each server cfg jobs results),
    ap (count i) (answer_each-ids jobs results h),
  )

  send_live-places :
      (i : ℕ) (st : State W) (jobs : List Job)
      → places i (send_live server cfg st jobs) ≡ places i st + count i (job_ids jobs)
  unfolding send_live count
  send_live-places i st [] = omega arith
  send_live-places i st (job ∷ jobs) =
      let r = server.exec st.world (args_of server cfg st.world (job ∷ jobs)) in
      after_exec-places i (record st { world = r.0 }) (job ∷ jobs) (exec_error server cfg r.1) r.2
        (server.exec_length st.world (args_of server cfg st.world (job ∷ jobs))
          ∙ length-args_of st.world (job ∷ jobs))

  flush_batch-places :
      (i : ℕ) (st : State W) (jobs : List Job)
      → places i (flush_batch server cfg st jobs) ≡ places i st + count i (job_ids jobs)
  unfolding flush_batch count
  flush_batch-places i st [] = omega arith
  flush_batch-places i st (job ∷ jobs) =
      let answered = record st {
        collector = inc_publish_pipeline_flushed_batch st.collector;
        answers = st.answers ++ gone server cfg st.world (job ∷ jobs);
      } in
      omega (
        arith,
        send_live-places i answered (live server cfg st.world (job ∷ jobs)),
        count-answer_ids i st.answers (gone server cfg st.world (job ∷ jobs)),
        gone_or_live i st.world (job ∷ jobs),
      )

  flush_buffer-places :
      (i : ℕ) (st : State W) (jobs : List Job)
      → st.buffer ≡ jobs
      → places i (flush_buffer server cfg st jobs) ≡ places i st
  unfolding flush_buffer count
  flush_buffer-places i st [] h = refl
  flush_buffer-places i st (job ∷ jobs) h = omega (
    arith,
    flush_batch-places i (record st { buffer = []; buffer_bytes = 0 }) (job ∷ jobs),
    ap (λ b. count i (job_ids b)) h,
  )

  pub flush-places : (i : ℕ) (st : State W) → places i (flush server cfg st) ≡ places i st
  unfolding flush
  flush-places i st = flush_buffer-places i st st.buffer refl

  drain-places : (i : ℕ) (st : State W) → places i (drain server cfg st) ≡ places i st
  unfolding drain count
  drain-places i st = omega (arith, count-job_ids i st.buffer st.queue)

  pub on_stop-places : (i : ℕ) (st : State W) → places i (on_stop server cfg st) ≡ places i st
  unfolding on_stop
  on_stop-places i st = drain-places i st

  pub on_drained-places : (i : ℕ) (st : State W) → places i (on_drained server cfg st) ≡ places i st
  unfolding on_drained
  on_drained-places i st = flush-places i st

  after_drain-places : (i : ℕ) (st : State W) → places i (after_drain server cfg st) ≡ places i st
  unfolding after_drain
  after_drain-places i st = elim (Bool-cases (is_due server cfg st)) [
    | inl e ↦ rw e (flush-places i st)
    | inr e ↦ rw e refl
  ]

  take_job-places :
      (i : ℕ) (st : State W) (jobs : List Job)
      → st.queue ≡ jobs
      → places i (take_job server cfg st jobs) ≡ places i st
  unfolding take_job count
  take_job-places i st [] h = refl
  take_job-places i st (job ∷ jobs) h =
      let taken = record st {
        queue = jobs;
        buffer = st.buffer ++ job ∷ [];
        buffer_bytes = st.buffer_bytes + job.estimated_bytes;
      } in
      after_drain-places i (drain server cfg taken)
      ∙ drain-places i taken
      ∙ ground (arith, count-job_ids i st.buffer (job ∷ []), ap (λ b. count i (job_ids b)) h)

  pub on_job-places : (i : ℕ) (st : State W) → places i (on_job server cfg st) ≡ places i st
  unfolding on_job
  on_job-places i st = take_job-places i st st.queue refl

  -- An accepted job is at the end of the queue, and nothing else has changed but a counter.
  pub record Accepted (st : State W) (job : Job) (t : State W) : Type 0 where
    pub queue : t.queue ≡ st.queue ++ job ∷ []
    pub buffer : t.buffer ≡ st.buffer
    pub answers : t.answers ≡ st.answers
    pub stage : t.stage ≡ st.stage

  -- One that is refused leaves the state as it was.
  unfoldable pub Enqueued : State W → Job → State W × Option GoError → Type 0
  Enqueued st job (t, none) = Accepted st job t
  Enqueued st job (t, some e) = t ≡ st

  -- A job that is accepted is in one place more.
  pub Accepted-places :
      (st t : State W) (job : Job)
      → Accepted st job t
      → (i : ℕ) → places i t ≡ places i st + count i (job.id ∷ [])
  unfolding count
  Accepted-places st t job a i = ground (
    arith,
    count-job_ids i st.queue (job ∷ []),
    ap (λ b. count i (job_ids b)) a.queue,
    ap (λ b. count i (job_ids b)) a.buffer,
    ap (λ b. count i (answer_ids b)) a.answers,
  )

  first_ready-Enqueued :
      (st : State W) (job : Job) → Enqueued st job (first_ready server cfg st job)
  unfolding first_ready send Enqueued
  first_ready-Enqueued st job = elim (Bool-cases (ltb (length st.queue) cfg.queue_size)) [
    | inl e ↦ rw e (record { queue = refl; buffer = refl; answers = refl; stage = refl })
    | inr e ↦ rw e (elim (Bool-cases st.done) [
      | inl f ↦ simp f refl
      | inr f ↦ simp f (elim (Option-cases (server.ctx_err st.world job.id)) [
        | inr (x, g) ↦ rw g refl
        | inl g ↦ rw g refl
      ])
    ])
  ]

  if-Enqueued :
      (st : State W) (job : Job) (b : Bool) (x y : State W × Option GoError)
      → Enqueued st job x
      → Enqueued st job y
      → Enqueued st job (if b then x else y)
  if-Enqueued st job true x y h k = h
  if-Enqueued st job false x y h k = k

  pub enqueue-Enqueued :
      (pick : Select) (st : State W) (job : Job) → Enqueued st job (enqueue server cfg pick st job)
  unfolding enqueue Enqueued
  enqueue-Enqueued done_case st job =
      if-Enqueued st job st.done (st, some GoError.stopped) (first_ready server cfg st job) refl
        (first_ready-Enqueued st job)
  enqueue-Enqueued ctx_case st job = elim (Option-cases (server.ctx_err st.world job.id)) [
    | inr (x, e) ↦ rw (e, enqueue) refl
    | inl e ↦ rw (e, enqueue) (first_ready-Enqueued st job)
  ]
  enqueue-Enqueued send_case st job = first_ready-Enqueued st job
