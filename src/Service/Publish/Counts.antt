-- ===== src/Service/Publish/Counts.antt =====
-- How the counters tell the outcome of a publish request.
use Prim.Native.String.{String}
use text.Mathlib.Text.{◌==◌ as str_eq}
use deepiri_sugar_glider.Base.{
  ℕ, suc, ◌≤◌, ◌≡◌, refl, ap, ◌∙◌, arith, ◌&&◌, ◌||◌, Option, none, some, inl, inr, Bool-cases,
  GoError, error_text, Result, ok, err, ltb,
}
use deepiri_sugar_glider.Base.Int.{pos, leb_ℤ}
use deepiri_sugar_glider.RedisStreams.{PublishRequest}
use deepiri_sugar_glider.Config.{sync_on_success}
use deepiri_sugar_glider.Metrics.{
  Collector, SameOutcomes, inc_publish_success, inc_wal_replay_sync_call,
}
use deepiri_sugar_glider.Wal.{WalError, Log, Fs, append}
use deepiri_sugar_glider.Service.{Outside, Sidecar, count}
use deepiri_sugar_glider.Service.Publish.{
  Reply, Refusal, after_append, publish_checked, published, queued_at, failed, publish_to_redis,
  replay_counts, replay_wal, run_replay, queue_in_wal, after_publish, should_skip_wal,
  publish_internal, normalize, normalize_publish_request, count_refusal,
}
use deepiri_sugar_glider.Service.Publish.Kept.{publish_to_redis-Kept}

-- Between the two collectors one request has had this reply. A replay of the log that follows a success
-- may count an error of its own.
pub data Accounted (c d : Collector) : Reply → Type 0 where
  published_once :
      {id : String}
      → d.publish_success ≡ suc c.publish_success
      → d.publish_queued ≡ c.publish_queued
      → c.errors_total ≤ d.errors_total
      → d.errors_total ≤ suc c.errors_total
      → Accounted c d (published id)
  queued_once :
      {depth : _}
      → d.publish_success ≡ c.publish_success
      → d.publish_queued ≡ suc c.publish_queued
      → d.errors_total ≡ c.errors_total
      → Accounted c d (queued_at depth)
  failed_once :
      {status : ℕ} {text : String}
      → d.publish_success ≡ c.publish_success
      → d.publish_queued ≡ c.publish_queued
      → d.errors_total ≡ suc c.errors_total
      → Accounted c d (failed status text)

module _ {W : Type 0} (o : Outside W) where
  -- What a replay does to the counters.
  pub record Replays (c d : Collector) : Type 0 where
    pub success : d.publish_success ≡ c.publish_success
    pub queued : d.publish_queued ≡ c.publish_queued
    pub errors_from : c.errors_total ≤ d.errors_total
    pub errors_to : d.errors_total ≤ suc c.errors_total

  nothing_replayed : (c : Collector) → Replays c c
  nothing_replayed c = record {
    success = refl;
    queued = refl;
    errors_from = omega arith;
    errors_to = omega arith;
  }

  replay_counts-Replays :
      (c : Collector) (n : ℕ) (e : Option WalError) → Replays c (replay_counts o c n e)
  unfolding replay_counts
  replay_counts-Replays c n (some e) = record {
    success = refl;
    queued = refl;
    errors_from = omega arith;
    errors_to = omega arith;
  }
  replay_counts-Replays c n none = elim (Bool-cases (ltb 0 n)) [
    | inl h ↦ rw h (record {
      success = refl;
      queued = refl;
      errors_from = omega arith;
      errors_to = omega arith;
    })
    | inr h ↦ rw h (nothing_replayed c)
  ]

  replay_wal-Replays : (s : Sidecar W) → Replays s.collector (replay_wal o s).collector
  unfolding replay_wal
  replay_wal-Replays s =
      elim (Bool-cases (
        (leb_ℤ s.cfg.wal_replay_batch (pos 0) && leb_ℤ (pos 0) s.cfg.wal_replay_batch)
        || s.replaying)) [
          | inl h ↦ simp h (nothing_replayed s.collector)
          | inr h ↦
              simp h
                (replay_counts-Replays s.collector (run_replay o s).count (run_replay o s).error)
        ]

  after_append-Accounted :
      (s : Sidecar W) (r : Log × Fs × Option WalError)
      → Accounted s.collector (after_append o s r).0.collector (after_append o s r).1
  unfolding after_append
  after_append-Accounted s (l, fs, some e) = failed_once refl refl refl
  after_append-Accounted s (l, fs, none) = queued_once refl refl refl

  queue_in_wal-Accounted :
      (s : Sidecar W) (req : PublishRequest) (e : GoError)
      → Accounted s.collector (queue_in_wal o s req e).0.collector (queue_in_wal o s req e).1
  unfolding queue_in_wal
  queue_in_wal-Accounted s req e =
      after_append-Accounted s
        (append o.json s.wal s.fs (o.faults s.world) (o.now s.world) (error_text e) req)

  after_publish-Accounted :
      (s : Sidecar W) (req : PublishRequest) (r : Result GoError String)
      → Accounted s.collector (after_publish o s req r).0.collector (after_publish o s req r).1
  unfolding after_publish
  after_publish-Accounted s req (err e) =
      elim (Bool-cases (should_skip_wal (o.caller_done s.world) e)) [
        | inl h ↦ rw h (failed_once refl refl refl)
        | inr h ↦ rw h (queue_in_wal-Accounted s req e)
      ]
  after_publish-Accounted s req (ok id) =
      elim (Bool-cases (str_eq s.cfg.wal_replay_mode sync_on_success)) [
        | inl h ↦ simp h (
            after_replay (
              replay_wal-Replays
                (count s (inc_wal_replay_sync_call (inc_publish_success s.collector)))))
        | inr h ↦ simp h (published_once refl refl (omega arith) (omega arith))
      ]
    where
      after_replay :
          {c d : Collector} {id : String}
          → Replays (inc_wal_replay_sync_call (inc_publish_success c)) d
          → Accounted c d (published id)
      after_replay r = published_once r.success r.queued r.errors_from r.errors_to

  from_kept :
      {c d e : Collector} {reply : Reply}
      → SameOutcomes c d
      → Accounted d e reply
      → Accounted c e reply
  from_kept h (published_once a b x y) =
      published_once (a ∙ ap suc h.success) (b ∙ h.queued) (omega (arith, h.errors))
        (omega (arith, h.errors))
  from_kept h (queued_once a b x) = queued_once (a ∙ h.success) (b ∙ ap suc h.queued) (x ∙ h.errors)
  from_kept h (failed_once a b x) = failed_once (a ∙ h.success) (b ∙ h.queued) (x ∙ ap suc h.errors)

  publish_checked-Accounted :
      (s : Sidecar W) (n : Result Refusal PublishRequest)
      → Accounted s.collector
          (publish_checked o (count_refusal s n) n).0.collector
          (publish_checked o (count_refusal s n) n).1
  unfolding publish_checked count_refusal
  publish_checked-Accounted s (err e) = failed_once refl refl refl
  publish_checked-Accounted s (ok n) =
      from_kept (publish_to_redis-Kept o s n).outcomes
        (after_publish-Accounted (publish_to_redis o s n).0 n (publish_to_redis o s n).1)

  -- Every publish request is counted once: as a success, as queued, or as an error, the one that its
  -- reply says.
  pub publish_internal-Accounted :
      (s : Sidecar W) (req : PublishRequest)
      → Accounted s.collector (publish_internal o s req).0.collector (publish_internal o s req).1
  unfolding publish_internal normalize_publish_request
  publish_internal-Accounted s req =
      publish_checked-Accounted s (normalize s.cfg.publish_streams req "")
