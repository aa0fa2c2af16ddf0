-- ===== src/DeadLetter/Commands.antt =====
-- The commands that replayDLQInternal of internal/service/dlq_replay.go sends to Redis.
use Prim.Native.String.{String}
use deepiri_sugar_glider.Base.{
  ◌≡◌, refl, ap, sym, ◌∙◌, subst, arith, Bool, true, false, ◌||◌, not, Option, none, some, List, [],
  ◌∷◌, if◌then◌else◌, inl, inr, Bool-cases, GoError, canceled, deadline_exceeded, redis_nil,
  queue_full, stopped, other, Result, ok, err,
}
use deepiri_sugar_glider.Base.Int.{ℤ, pos, ◌≤ℤ◌}
use deepiri_sugar_glider.Base.Text.{is_empty}
use deepiri_sugar_glider.Config.{Config, is_stream_allowed}
use deepiri_sugar_glider.Metrics.{inc_error}
use deepiri_sugar_glider.RedisStreams.{XAddArgs}
use deepiri_sugar_glider.Redis.{Redis, Message}
use deepiri_sugar_glider.Service.{Sidecar, count}
use deepiri_sugar_glider.Consume.Commands.{clamp-bounds, if_agree, or_false, not-false}
use deepiri_sugar_glider.DeadLetter.Replay.{
  ReplayRequest, ReplayResult, Outcome, skipped, replayed, failed, no_result, trimmed_replay,
  with_defaults, target_of, replay_values, after_delete, after_requeue, requeue, replay_one, go_on,
  replay_messages, Replayed, count_replayed, after_range, replay_range, replay_trimmed,
  replay_dlq_internal,
}

-- Two clients that answer alike what a replay may send: a read of 1 to 1000 entries of a stream with a name,
-- additions to a stream with a name that the configuration allows to publish to, with its limit on the
-- length, and deletions from the stream of the request, if it asks for them. Their clocks are the same.
pub record Agree {W : Type 0} (cfg : Config) (req : ReplayRequest) (r r' : Redis W) : Type 0 where
  pub on_range :
      (w : W) (start stop : String) (n : ℤ)
      → is_empty req.dlq_stream ≡ false
      → pos 1 ≤ℤ n
      → n ≤ℤ pos 1000
      → r.xrange_n w req.dlq_stream start stop n ≡ r'.xrange_n w req.dlq_stream start stop n
  pub on_add :
      (w : W) (args : XAddArgs)
      → is_empty args.stream ≡ false
      → is_stream_allowed cfg.publish_streams args.stream ≡ true
      → args.max_len ≡ cfg.max_stream_len
      → r.xadd w args ≡ r'.xadd w args
  pub on_delete :
      (w : W) (id : String)
      → req.delete_from_dlq ≡ true
      → r.xdel w req.dlq_stream id ≡ r'.xdel w req.dlq_stream id
  pub on_now : (w : W) → r.now w ≡ r'.now w

module _ {W : Type 0} (r : Redis W) where
  abbrev Keeps : Config → Sidecar W × Outcome → Type 0
  Keeps cfg (s, outcome) = s.cfg ≡ cfg

  if-Keeps :
      (cfg : Config) (b : Bool) (x y : Sidecar W × Outcome)
      → Keeps cfg x
      → Keeps cfg y
      → Keeps cfg (if b then x else y)
  if-Keeps cfg true x y h k = h
  if-Keeps cfg false x y h k = k

  after_delete-Keeps :
      (id : String) (p : Sidecar W × Option GoError) → Keeps p.0.cfg (after_delete r id p)
  unfolding after_delete
  after_delete-Keeps id (s, none) = refl
  after_delete-Keeps id (s, some e) = refl

  after_requeue-Keeps :
      (req : ReplayRequest) (id : String) (p : Sidecar W × Option GoError)
      → Keeps p.0.cfg (after_requeue r req id p)
  unfolding after_requeue
  after_requeue-Keeps req id (s, some e) = refl
  after_requeue-Keeps req id (s, none) =
      let (w, e) = r.xdel s.world req.dlq_stream id in
      if-Keeps s.cfg req.delete_from_dlq (after_delete r id (record s { world = w }, e))
        (s, replayed) (after_delete-Keeps id (record s { world = w }, e)) refl

  replay_one-Keeps :
      (req : ReplayRequest) (s : Sidecar W) (m : Message) → Keeps s.cfg (replay_one r req s m)
  unfolding replay_one requeue
  replay_one-Keeps req s m =
      let target = target_of req.target_stream m in
      let (w, e) = r.xadd s.world (record {
        stream = target;
        max_len = s.cfg.max_stream_len;
        approx = true;
        values = replay_values (r.now s.world) req.dlq_stream m;
      }) in
      if-Keeps s.cfg (is_empty target || not (is_stream_allowed s.cfg.publish_streams target))
        (s, skipped) (requeue r req target s m) refl
        (after_requeue-Keeps req m.id (record s { world = w }, e))

module _ {W : Type 0} (r r' : Redis W) where
  after_delete-same :
      (id : String) (p : Sidecar W × Option GoError) → after_delete r id p ≡ after_delete r' id p
  unfolding after_delete
  after_delete-same id (s, none) = refl
  after_delete-same id (s, some e) = refl

  abbrev with_world : Sidecar W → W × Option GoError → Sidecar W × Option GoError
  with_world s (w, e) = (record s { world = w }, e)

  after_requeue-Agree :
      (req : ReplayRequest) (id : String) (p : Sidecar W × Option GoError)
      → Agree p.0.cfg req r r'
      → after_requeue r req id p ≡ after_requeue r' req id p
  unfolding after_requeue
  after_requeue-Agree req id (s, some e) a = refl
  after_requeue-Agree req id (s, none) a = elim (Bool-cases req.delete_from_dlq) [
    | inr n ↦ simp n refl
    | inl d ↦ simp d (
        ap (λ x. after_delete r id (with_world s x)) (a.on_delete s.world id d)
        ∙ after_delete-same id (with_world s (r'.xdel s.world req.dlq_stream id)))
  ]

  abbrev args_of : ReplayRequest → String → Sidecar W → Message → String → XAddArgs
  args_of req target s m now = record {
    stream = target;
    max_len = s.cfg.max_stream_len;
    approx = true;
    values = replay_values now req.dlq_stream m;
  }

  requeue-Agree :
      (req : ReplayRequest) (target : String) (s : Sidecar W) (m : Message)
      → Agree s.cfg req r r'
      → is_empty target ≡ false
      → is_stream_allowed s.cfg.publish_streams target ≡ true
      → requeue r req target s m ≡ requeue r' req target s m
  unfolding requeue
  requeue-Agree req target s m a n allowed =
      let args = args_of req target s m in
      ap (λ x. after_requeue r req m.id (with_world s x))
        (a.on_add s.world (args (r.now s.world)) n allowed refl
          ∙ ap (λ t. r'.xadd s.world (args t)) (a.on_now s.world))
      ∙ after_requeue-Agree req m.id (with_world s (r'.xadd s.world (args (r'.now s.world)))) a

  replay_one-Agree :
      (req : ReplayRequest) (s : Sidecar W) (m : Message)
      → Agree s.cfg req r r'
      → replay_one r req s m ≡ replay_one r' req s m
  unfolding replay_one
  replay_one-Agree req s m a =
      let target = target_of req.target_stream m in
      let allowed = is_stream_allowed s.cfg.publish_streams target in
      if_agree (is_empty target || not allowed) (s, skipped) (requeue r req target s m)
        (requeue r' req target s m)
        (λ g.
          let (n, o) = or_false (is_empty target) (not allowed) g in
          requeue-Agree req target s m a n (not-false allowed o))

  go_on-agree :
      (rest : Sidecar W → ReplayResult → Replayed r)
      (rest' : Sidecar W → ReplayResult → Replayed r')
      → (id : String) (result : ReplayResult) (p : Sidecar W × Outcome)
      → ((s : Sidecar W) (b : ReplayResult) → s.cfg ≡ p.0.cfg → rest s b ≡ rest' s b)
      → go_on r rest id result p ≡ go_on r' rest' id result p
  unfolding go_on
  go_on-agree rest rest' id result (s, skipped) h = h s _ refl
  go_on-agree rest rest' id result (s, replayed) h = h s _ refl
  go_on-agree rest rest' id result (s, failed f) h = refl

  replay_messages-Agree :
      (req : ReplayRequest) (ms : List Message) (s : Sidecar W) (result : ReplayResult)
      → Agree s.cfg req r r'
      → replay_messages r req s result ms ≡ replay_messages r' req s result ms
  unfolding replay_messages
  replay_messages-Agree req [] s result a = refl
  replay_messages-Agree req (m ∷ ms) s result a =
      go_on-agree (λ t b. replay_messages r req t b ms) (λ t b. replay_messages r' req t b ms) m.id
        result (replay_one r req s m)
        (λ t b e.
          replay_messages-Agree req ms t b
            (subst (λ c. Agree c req r r') (sym (e ∙ replay_one-Keeps r req s m)) a))
      ∙ ap (go_on r' (λ t b. replay_messages r' req t b ms) m.id result)
          (replay_one-Agree req s m a)

  count_replayed-same : (x : Replayed r) → count_replayed r x ≡ count_replayed r' x
  unfolding count_replayed
  count_replayed-same (s, result, none) = refl
  count_replayed-same (s, result, some f) = refl

  after_range-Agree :
      (req : ReplayRequest) (s : Sidecar W) (x : Result GoError (List Message))
      → Agree s.cfg req r r'
      → after_range r req s x ≡ after_range r' req s x
  unfolding after_range
  after_range-Agree req s (ok ms) a =
      count_replayed-same (replay_messages r req s no_result ms)
      ∙ ap (count_replayed r') (replay_messages-Agree req ms s no_result a)
  after_range-Agree req s (err redis_nil) a = refl
  after_range-Agree req s (err canceled) a = refl
  after_range-Agree req s (err deadline_exceeded) a = refl
  after_range-Agree req s (err queue_full) a = refl
  after_range-Agree req s (err stopped) a = refl
  after_range-Agree req s (err (other t)) a = refl

  replay_range-Agree :
      (req : ReplayRequest) (s : Sidecar W)
      → Agree s.cfg req r r'
      → is_empty req.dlq_stream ≡ false
      → pos 1 ≤ℤ req.count
      → req.count ≤ℤ pos 1000
      → replay_range r req s ≡ replay_range r' req s
  unfolding replay_range
  replay_range-Agree req s a n lo hi =
      let (w, x) = r.xrange_n s.world req.dlq_stream req.start req.stop req.count in
      after_range-Agree req (record s { world = w }) x a
      ∙ ap (λ y. after_range r' req (record s { world = y.0 }) y.1)
          (a.on_range s.world req.start req.stop req.count n lo hi)

  with_defaults-Agree :
      (req : ReplayRequest) (cfg : Config) → Agree cfg req r r' → Agree cfg (with_defaults req) r r'
  unfolding with_defaults
  with_defaults-Agree req cfg a = record {
    on_range = a.on_range;
    on_add = a.on_add;
    on_delete = a.on_delete;
    on_now = a.on_now;
  }

  -- A replay adds entries only to streams that the configuration allows to publish to, reads at most 1000
  -- entries of the stream that the request names, and deletes only from that stream, and only if the request
  -- asks for it: a client that differs on no such command changes nothing.
  pub replay_dlq_internal-Agree :
      (s : Sidecar W) (req : ReplayRequest)
      → Agree s.cfg (trimmed_replay req) r r'
      → replay_dlq_internal r s req ≡ replay_dlq_internal r' s req
  unfolding replay_dlq_internal replay_trimmed with_defaults
  replay_dlq_internal-Agree s req a =
      let named = trimmed_replay req in
      let d = with_defaults named in
      let bounds = clamp-bounds (pos 100) (pos 1000) req.count (omega arith) (omega arith) in
      if_agree (is_empty named.dlq_stream)
        (count s (inc_error s.collector), no_result, some (400, "dlq_stream is required"))
        (replay_range r d s) (replay_range r' d s)
        (λ n. replay_range-Agree d s (with_defaults-Agree named s.cfg a) n bounds.0 bounds.1)
