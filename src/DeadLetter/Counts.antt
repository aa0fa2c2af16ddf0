-- ===== src/DeadLetter/Counts.antt =====
-- What the replay of internal/service/dlq_replay.go does to its counters and to its result.
use Prim.Native.String.{String, ◌++◌ as append_text}
use deepiri_sugar_glider.Base.{
  ℕ, suc, ◌==◌, ==_iff, ◌+◌, ◌≡◌, refl, ◌∙◌, arith, Bool, true, false, not, ◌||◌, Option, none,
  some, List, [], ◌∷◌, length, length-append, if◌then◌else◌, inl, inr, Bool-cases, GoError,
  canceled, deadline_exceeded, redis_nil, queue_full, stopped, other, error_text, Result, ok, err,
}
use deepiri_sugar_glider.Base.Text.{is_empty}
use deepiri_sugar_glider.Config.{is_stream_allowed}
use deepiri_sugar_glider.Metrics.{Collector, inc_error, inc_dlq_replayed}
use deepiri_sugar_glider.Redis.{Redis, Message, is_no_such_stream_err}
use deepiri_sugar_glider.Service.{Sidecar, count}
use deepiri_sugar_glider.Service.Publish.{Refusal}
use deepiri_sugar_glider.DeadLetter.Replay.{
  ReplayRequest, ReplayResult, Outcome, skipped, replayed, failed, no_result, trimmed_replay,
  with_defaults, add_skipped, add_replayed, target_of, after_delete, after_requeue, requeue,
  replay_one, go_on, replay_messages, Replayed, count_replayed, after_range, replay_range,
  replay_trimmed, replay_dlq_internal,
}

-- What a replay does to the counters, and to the result.
module _ {W : Type 0} (r : Redis W) where
  abbrev pub errors_in : Option Refusal → ℕ
  errors_in none = 0
  errors_in (some _) = 1

  abbrev failures_in : Outcome → ℕ
  failures_in skipped = 0
  failures_in replayed = 0
  failures_in (failed _) = 1

  abbrev OneTold : Collector → Sidecar W × Outcome → Type 0
  OneTold c (s, outcome) =
      (s.collector.errors_total ≡ c.errors_total + failures_in outcome)
      × (s.collector.dlq_replayed ≡ c.dlq_replayed)

  if-OneTold :
      (c : Collector) (b : Bool) (x y : Sidecar W × Outcome)
      → OneTold c x
      → OneTold c y
      → OneTold c (if b then x else y)
  if-OneTold c true x y h k = h
  if-OneTold c false x y h k = k

  after_delete-OneTold :
      (id : String) (p : Sidecar W × Option GoError) → OneTold p.0.collector (after_delete r id p)
  unfolding after_delete
  after_delete-OneTold id (s, none) = (omega arith, refl)
  after_delete-OneTold id (s, some e) = (omega arith, refl)

  after_requeue-OneTold :
      (req : ReplayRequest) (id : String) (p : Sidecar W × Option GoError)
      → OneTold p.0.collector (after_requeue r req id p)
  unfolding after_requeue
  after_requeue-OneTold req id (s, some e) = (omega arith, refl)
  after_requeue-OneTold req id (s, none) =
      let (w, e) = r.xdel s.world req.dlq_stream id in
      if-OneTold s.collector req.delete_from_dlq (after_delete r id (record s { world = w }, e))
        (s, replayed) (after_delete-OneTold id (record s { world = w }, e)) (omega arith, refl)

  replay_one-OneTold :
      (req : ReplayRequest) (s : Sidecar W) (m : Message)
      → OneTold s.collector (replay_one r req s m)
  unfolding replay_one requeue
  replay_one-OneTold req s m =
      let target = target_of req.target_stream m in
      if-OneTold s.collector
        (is_empty target || not (is_stream_allowed s.cfg.publish_streams target)) (s, skipped)
        (requeue r req target s m) (omega arith, refl)
        (after_requeue-OneTold req m.id (record s { world = _ }, _))

  -- What a loop from a result on adds: the error that ended it, the ids, and every message if none failed.
  record Done (c : Collector) (start : ReplayResult) (n : ℕ) (x : Replayed r) : Type 0 where
    errors : x.0.collector.errors_total ≡ c.errors_total + errors_in x.2
    not_yet : x.0.collector.dlq_replayed ≡ c.dlq_replayed
    ids : length x.1.entry_ids + start.replayed ≡ x.1.replayed + length start.entry_ids
    all : x.2 ≡ none → x.1.replayed + x.1.skipped ≡ start.replayed + start.skipped + n

  some-none : (f : Refusal) → some f ≡ none → ⊥
  some-none f z = cc

  Done-after :
      (c d : Collector) (a b : ReplayResult) (n : ℕ) (x : Replayed r)
      → d.errors_total ≡ c.errors_total + 0
      → d.dlq_replayed ≡ c.dlq_replayed
      → b.replayed + b.skipped ≡ suc (a.replayed + a.skipped)
      → b.replayed + length a.entry_ids ≡ a.replayed + length b.entry_ids
      → Done d b n x
      → Done c a (suc n) x
  Done-after c d a b n x e m t i h = record {
    errors = omega (arith, h.errors);
    not_yet = h.not_yet ∙ m;
    ids = omega (arith, h.ids);
    all = λ z. omega (arith, h.all z);
  }

  go_on-Done :
      (rest : Sidecar W → ReplayResult → Replayed r) (id : String) (result : ReplayResult) (n : ℕ)
      → (c : Collector) (p : Sidecar W × Outcome) → OneTold c p
      → ((s : Sidecar W) (b : ReplayResult) → Done s.collector b n (rest s b))
      → Done c result (suc n) (go_on r rest id result p)
  unfolding go_on add_skipped add_replayed
  go_on-Done rest id result n c (s, skipped) (e, m) h =
      let b = add_skipped result in
      Done-after c s.collector result b n (rest s b) e m (omega arith) refl (h s b)
  go_on-Done rest id result n c (s, replayed) (e, m) h =
      let b = add_replayed id result in
      Done-after c s.collector result b n (rest s b) e m (omega arith)
        (omega (arith, length-append result.entry_ids (id ∷ []))) (h s b)
  go_on-Done rest id result n c (s, failed f) (e, m) h = record {
    errors = e;
    not_yet = m;
    ids = omega arith;
    all = λ z. absurd (some-none f z);
  }

  replay_messages-Done :
      (req : ReplayRequest) (ms : List Message) (s : Sidecar W) (start : ReplayResult)
      → Done s.collector start (length ms) (replay_messages r req s start ms)
  unfolding replay_messages
  replay_messages-Done req [] s start = record {
    errors = omega arith;
    not_yet = refl;
    ids = omega arith;
    all = λ z. omega arith;
  }
  replay_messages-Done req (m ∷ ms) s start =
      go_on-Done (λ t b. replay_messages r req t b ms) m.id start (length ms) s.collector
        (replay_one r req s m) (replay_one-OneTold req s m) (replay_messages-Done req ms)

  abbrev pub counted : Option Refusal → ReplayResult → ℕ
  counted none result = result.replayed
  counted (some _) result = 0

  abbrev Told : Collector → Replayed r → Type 0
  Told c (s, result, e) =
      (s.collector.errors_total ≡ c.errors_total + errors_in e)
      × (s.collector.dlq_replayed ≡ c.dlq_replayed + counted e result)
      × (length result.entry_ids ≡ result.replayed)

  if-Told :
      (c : Collector) (b : Bool) (x y : Replayed r)
      → Told c x
      → Told c y
      → Told c (if b then x else y)
  if-Told c true x y h k = h
  if-Told c false x y h k = k

  inc_dlq_replayed-adds :
      (c : Collector) (n : ℕ)
      → ((inc_dlq_replayed c n).dlq_replayed ≡ c.dlq_replayed + n)
        × ((inc_dlq_replayed c n).errors_total ≡ c.errors_total)
  unfolding inc_dlq_replayed
  inc_dlq_replayed-adds c n = elim (Bool-cases (n == 0)) [
    | inl e ↦ rw e (omega (arith, (==_iff n 0).0 e), refl)
    | inr e ↦ rw e (refl, refl)
  ]

  count_replayed-Told :
      (c : Collector) (n : ℕ) (x : Replayed r) → Done c no_result n x → Told c (count_replayed r x)
  unfolding count_replayed
  count_replayed-Told c n (s, result, none) h =
      let (a, b) = inc_dlq_replayed-adds s.collector result.replayed in
      (omega (arith, b, h.errors), omega (arith, a, h.not_yet), omega (arith, h.ids))
  count_replayed-Told c n (s, result, some f) h =
      (h.errors, omega (arith, h.not_yet), omega (arith, h.ids))

  quiet-Told : (s : Sidecar W) → Told s.collector (s, no_result, none)
  quiet-Told s = (omega arith, omega arith, refl)

  refused-Told :
      (s : Sidecar W) (f : Refusal)
      → Told s.collector (count s (inc_error s.collector), no_result, some f)
  refused-Told s f = (omega arith, omega arith, refl)

  unread :
      (s : Sidecar W) (e : GoError)
      → Told s.collector (
          if is_no_such_stream_err e then (s, no_result, none) else (
            count s (inc_error s.collector),
            no_result,
            some (503, append_text "failed to read dlq stream: " (error_text e)),
          ))
  unread s e =
      let f : Refusal = (503, append_text "failed to read dlq stream: " (error_text e)) in
      if-Told s.collector (is_no_such_stream_err e) (s, no_result, none)
        (count s (inc_error s.collector), no_result, some f) (quiet-Told s) (refused-Told s f)

  after_range-Told :
      (req : ReplayRequest) (s : Sidecar W) (a : Result GoError (List Message))
      → Told s.collector (after_range r req s a)
  unfolding after_range
  after_range-Told req s (ok ms) =
      count_replayed-Told s.collector (length ms) (replay_messages r req s no_result ms)
        (replay_messages-Done req ms s no_result)
  after_range-Told req s (err redis_nil) = quiet-Told s
  after_range-Told req s (err canceled) = unread s canceled
  after_range-Told req s (err deadline_exceeded) = unread s deadline_exceeded
  after_range-Told req s (err queue_full) = unread s queue_full
  after_range-Told req s (err stopped) = unread s stopped
  after_range-Told req s (err (other t)) = unread s (other t)

  -- A replay counts one error exactly if it returns one, and the ids that it returns are as many as the
  -- entries that it says were replayed; the counter of replayed entries grows by that number if there is
  -- no error, and not at all if there is one.
  pub replay_dlq_internal-Told :
      (s : Sidecar W) (req : ReplayRequest)
      → let (t, result, e) = replay_dlq_internal r s req in
        (t.collector.errors_total ≡ s.collector.errors_total + errors_in e)
        × (t.collector.dlq_replayed ≡ s.collector.dlq_replayed + counted e result)
        × (length result.entry_ids ≡ result.replayed)
  unfolding replay_dlq_internal replay_trimmed replay_range
  replay_dlq_internal-Told s req =
      let named = trimmed_replay req in
      let d = with_defaults named in
      let (w, a) = r.xrange_n s.world d.dlq_stream d.start d.stop d.count in
      if-Told s.collector (is_empty named.dlq_stream)
        (count s (inc_error s.collector), no_result, some (400, "dlq_stream is required"))
        (replay_range r d s) (refused-Told s (400, "dlq_stream is required"))
        (after_range-Told d (record s { world = w }) a)
