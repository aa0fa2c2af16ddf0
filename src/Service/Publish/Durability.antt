-- ===== src/Service/Publish/Durability.antt =====
-- What a publish request leaves in the write-ahead log.
use Prim.Native.String.{String}
use text.Mathlib.Text.{◌==◌ as str_eq}
use deepiri_sugar_glider.Base.{
  ◌≡◌, refl, sym, ◌∙◌, subst, ◌&&◌, ◌||◌, Option, none, some, inl, inr, Bool-cases, GoError,
  error_text, Result, ok, err,
}
use deepiri_sugar_glider.Base.Int.{pos, leb_ℤ}
use deepiri_sugar_glider.RedisStreams.{PublishRequest}
use deepiri_sugar_glider.Config.{sync_on_success}
use deepiri_sugar_glider.Metrics.{inc_publish_success, inc_wal_replay_sync_call}
use deepiri_sugar_glider.Wal.{WalError, Log, Fs, append}
use deepiri_sugar_glider.Wal.Depth.{IsSound, WritesLines, append-IsSound}
use deepiri_sugar_glider.Wal.Inversion.{append-some}
use deepiri_sugar_glider.Wal.Replay.Depth.{replay-IsSound}
use deepiri_sugar_glider.Service.{Outside, Sidecar, count}
use deepiri_sugar_glider.Service.Publish.{
  Refusal, publish_to_redis, replay_wal, republish, queue_in_wal, after_append, after_publish,
  should_skip_wal, publish_checked, publish_internal, normalize, normalize_publish_request,
  count_refusal,
}
use deepiri_sugar_glider.Service.Publish.Kept.{Kept, publish_to_redis-Kept}

module _ {W : Type 0} (o : Outside W) where
  -- What the log relies on outside: a codec that writes lines, and writes that do not tear.
  pub record IsOrderly : Type 0 where
    pub writes_lines : WritesLines o.json
    pub whole_writes : (w : W) → (o.faults w).write ≡ none

  abbrev pub Sound : Sidecar W → Type 0
  Sound s = IsSound s.wal s.fs

  pub after_append-wal :
      (s : Sidecar W) (r : Log × Fs × Option WalError) → (after_append o s r).0.wal ≡ r.0
  unfolding after_append
  after_append-wal s (l, fs, some e) = refl
  after_append-wal s (l, fs, none) = refl

  pub after_append-fs :
      (s : Sidecar W) (r : Log × Fs × Option WalError) → (after_append o s r).0.fs ≡ r.1
  unfolding after_append
  after_append-fs s (l, fs, some e) = refl
  after_append-fs s (l, fs, none) = refl

  after_append-Sound :
      (s : Sidecar W) (r : Log × Fs × Option WalError)
      → IsSound r.0 r.1
      → Sound (after_append o s r).0
  unfolding after_append
  after_append-Sound s (l, fs, some e) h = h
  after_append-Sound s (l, fs, none) h = h

  queue_in_wal-Sound :
      (s : Sidecar W) (req : PublishRequest) (e : GoError)
      → IsOrderly
      → Sound s
      → Sound (queue_in_wal o s req e).0
  unfolding queue_in_wal
  queue_in_wal-Sound s req e q h = after_append-Sound s _ (
      append-IsSound o.json s.wal s.fs (o.faults s.world) (o.now s.world) (error_text e) req
        q.writes_lines (q.whole_writes s.world) h)

  pub replay_wal-Sound : (s : Sidecar W) → Sound s → Sound (replay_wal o s)
  unfolding replay_wal
  replay_wal-Sound s h =
      elim (Bool-cases (
        (leb_ℤ s.cfg.wal_replay_batch (pos 0) && leb_ℤ (pos 0) s.cfg.wal_replay_batch)
        || s.replaying)) [
          | inl e ↦ simp e h
          | inr e ↦ simp e (
              replay-IsSound o.json s.wal s.fs (o.faults s.world) s.cfg.wal_replay_batch
                (republish o) s.world h)
        ]

  after_publish-Sound :
      (s : Sidecar W) (req : PublishRequest) (r : Result GoError String)
      → IsOrderly
      → Sound s
      → Sound (after_publish o s req r).0
  unfolding after_publish
  after_publish-Sound s req (err e) q h =
      elim (Bool-cases (should_skip_wal (o.caller_done s.world) e)) [
        | inl b ↦ rw b h
        | inr b ↦ rw b (queue_in_wal-Sound s req e q h)
      ]
  after_publish-Sound s req (ok id) q h =
      elim (Bool-cases (str_eq s.cfg.wal_replay_mode sync_on_success)) [
        | inl b ↦ simp b (
            replay_wal-Sound (count s (inc_wal_replay_sync_call (inc_publish_success s.collector)))
              h)
        | inr b ↦ simp b h
      ]

  Kept-Sound : (s t : Sidecar W) → Kept o s t → Sound s → Sound t
  Kept-Sound s t k h =
      subst (λ l. IsSound l t.fs) (sym k.wal) (subst (λ f. IsSound s.wal f) (sym k.fs) h)

  publish_checked-Sound :
      (s : Sidecar W) (n : Result Refusal PublishRequest)
      → IsOrderly
      → Sound s
      → Sound (publish_checked o (count_refusal s n) n).0
  unfolding publish_checked count_refusal
  publish_checked-Sound s (err e) q h = h
  publish_checked-Sound s (ok n) q h =
      after_publish-Sound (publish_to_redis o s n).0 n (publish_to_redis o s n).1 q
        (Kept-Sound s (publish_to_redis o s n).0 (publish_to_redis-Kept o s n) h)

  -- Where the codec writes lines and no write tears, the depth counter of the log stays exact whatever becomes
  -- of a request.
  pub publish_internal-Sound :
      (s : Sidecar W) (req : PublishRequest)
      → IsOrderly
      → Sound s
      → Sound (publish_internal o s req).0
  unfolding publish_internal normalize_publish_request
  publish_internal-Sound s req q h =
      publish_checked-Sound s (normalize s.cfg.publish_streams req "") q h

  after_append-failed :
      (s : Sidecar W) (r : Log × Fs × Option WalError) (text : String)
      → (after_append o s r).1.error ≡ some text
      → (e : WalError) × (r.2 ≡ some e)
  unfolding after_append
  after_append-failed s (l, fs, some e) text h = (e, refl)
  after_append-failed s (l, fs, none) text h = cc

  record SameLog (s t : Sidecar W) : Type 0 where
    wal : t.wal ≡ s.wal
    fs : t.fs ≡ s.fs

  queue_in_wal-failed :
      (s : Sidecar W) (req : PublishRequest) (e : GoError) (text : String)
      → IsOrderly
      → (queue_in_wal o s req e).1.error ≡ some text
      → SameLog s (queue_in_wal o s req e).0
  unfolding queue_in_wal
  queue_in_wal-failed s req e text q h =
      let r = append o.json s.wal s.fs (o.faults s.world) (o.now s.world) (error_text e) req in
      let (x, f) = after_append-failed s r text h in
      let u =
        append-some o.json s.wal s.fs (o.faults s.world) (o.now s.world) (error_text e) req x
          (q.whole_writes s.world) f in
      record { wal = after_append-wal s r ∙ u.log; fs = after_append-fs s r ∙ u.file }

  after_publish-failed :
      (s : Sidecar W) (req : PublishRequest) (r : Result GoError String) (text : String)
      → IsOrderly
      → (after_publish o s req r).1.error ≡ some text
      → SameLog s (after_publish o s req r).0
  unfolding after_publish
  after_publish-failed s req (err e) text q h =
      elim (Bool-cases (should_skip_wal (o.caller_done s.world) e)) [
        | inl b ↦ rw b (record { wal = refl; fs = refl })
        | inr b ↦ rw b (queue_in_wal-failed s req e text q (rw b at h))
      ]
  after_publish-failed s req (ok id) text q h =
      elim (Bool-cases (str_eq s.cfg.wal_replay_mode sync_on_success)) [
        | inl b ↦ cc (simp b at h)
        | inr b ↦ cc (simp b at h)
      ]

  checked_failed :
      (s : Sidecar W) (n : Result Refusal PublishRequest) (text : String)
      → IsOrderly
      → (publish_checked o (count_refusal s n) n).1.error ≡ some text
      → SameLog s (publish_checked o (count_refusal s n) n).0
  unfolding publish_checked count_refusal
  checked_failed s (err e) text q h = record { wal = refl; fs = refl }
  checked_failed s (ok n) text q h =
      let k = publish_to_redis-Kept o s n in
      let m =
        after_publish-failed (publish_to_redis o s n).0 n (publish_to_redis o s n).1 text q h in
      record { wal = m.wal ∙ k.wal; fs = m.fs ∙ k.fs }

  -- Where the codec writes lines and no write tears, a request whose reply has an error, since it was refused, cancelled or not taken by
  -- the log, leaves the log and the files as they were.
  pub publish_internal_failed :
      (s : Sidecar W) (req : PublishRequest) (text : String)
      → IsOrderly
      → (publish_internal o s req).1.error ≡ some text
      → ((publish_internal o s req).0.wal ≡ s.wal) × ((publish_internal o s req).0.fs ≡ s.fs)
  unfolding publish_internal normalize_publish_request
  publish_internal_failed s req text q h =
      let m = checked_failed s (normalize s.cfg.publish_streams req "") text q h in (m.wal, m.fs)
