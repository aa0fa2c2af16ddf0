-- ===== src/Service/Publish/Queued.antt =====
-- What a publish request that is queued leaves in the write-ahead log.
use Prim.Native.String.{String, ◌++◌ as append_text}
use text.Mathlib.Text.{◌==◌ as str_eq}
use deepiri_sugar_glider.Base.{
  ◌≡◌, refl, sym, ap, ◌∙◌, subst, true, false, Option, none, some, inl, inr, Bool-cases,
  Result-cases, GoError, error_text, Result, ok, err,
}
use deepiri_sugar_glider.Base.Int.{pos, ◌+ℤ◌}
use deepiri_sugar_glider.RedisStreams.{PublishRequest}
use deepiri_sugar_glider.Config.{sync_on_success}
use deepiri_sugar_glider.Wal.{WalError, Log, Fs, write_to, content, append}
use deepiri_sugar_glider.Wal.Depth.{entry_of}
use deepiri_sugar_glider.Wal.Inversion.{append-none}
use deepiri_sugar_glider.Service.{Outside, Sidecar}
use deepiri_sugar_glider.Service.Publish.{
  Reply, failed, publish_to_redis, queue_in_wal, after_append, after_publish, should_skip_wal,
  publish_checked, publish_internal, normalize, normalize_publish_request, count_refusal,
}
use deepiri_sugar_glider.Service.Publish.Kept.{publish_to_redis-Kept}
use deepiri_sugar_glider.Service.Publish.Durability.{after_append-wal, after_append-fs}

module _ {W : Type 0} (o : Outside W) where
  -- What a request that is queued leaves: Redis answered with an error that the log is for, and the log
  -- has one more line, the request's, with the text of that error.
  pub record Queued (s : Sidecar W) (req : PublishRequest) (t : Sidecar W) (reply : Reply)
      : Type 0 where
    pub normalized : PublishRequest
    pub is_normalized : normalize s.cfg.publish_streams req "" ≡ ok normalized
    pub failure : GoError
    pub redis_failed : (publish_to_redis o s normalized).1 ≡ err failure
    pub line : String
    pub is_line :
        o.json.marshal (
          entry_of
            (o.now (publish_to_redis o s normalized).0.world)
            (error_text failure)
            normalized)
        ≡ some line
    pub file :
        t.fs
        ≡ write_to s.fs s.wal.path (append_text (content s.fs s.wal.path) (append_text line "\n"))
    pub log : t.wal ≡ record s.wal { depth = s.wal.depth +ℤ pos 1 }
    pub depth : reply.wal_depth ≡ t.wal.depth

  after_append-queued :
      (s : Sidecar W) (r : Log × Fs × Option WalError)
      → (after_append o s r).1.queued ≡ true
      → (r.2 ≡ none) × ((after_append o s r).1.wal_depth ≡ r.0.depth)
  unfolding after_append
  after_append-queued s (l, fs, some e) h = cc
  after_append-queued s (l, fs, none) h = (refl, refl)

  -- after_publish, told from its reply: it is queue_in_wal at an error that the log is for.
  after_publish-queued :
      (s : Sidecar W) (req : PublishRequest) (r : Result GoError String)
      → (after_publish o s req r).1.queued ≡ true
      → (e : GoError) × (r ≡ err e)
        × (should_skip_wal (o.caller_done s.world) e ≡ false)
        × (after_publish o s req r ≡ queue_in_wal o s req e)
  unfolding after_publish
  after_publish-queued s req (err e) h =
      elim (Bool-cases (should_skip_wal (o.caller_done s.world) e)) [
        | inl b ↦ cc (rw b at h)
        | inr b ↦ (e, refl, b, rw b refl)
      ]
  after_publish-queued s req (ok id) h =
      elim (Bool-cases (str_eq s.cfg.wal_replay_mode sync_on_success)) [
        | inl b ↦ cc (simp b at h)
        | inr b ↦ cc (simp b at h)
      ]

  -- The line that queue_in_wal wrote.
  record Written (s : Sidecar W) (req : PublishRequest) (e : GoError) (t : Sidecar W)
      (reply : Reply) : Type 0 where
    line : String
    is_line : o.json.marshal (entry_of (o.now s.world) (error_text e) req) ≡ some line
    file :
        t.fs
        ≡ write_to s.fs s.wal.path (append_text (content s.fs s.wal.path) (append_text line "\n"))
    log : t.wal ≡ record s.wal { depth = s.wal.depth +ℤ pos 1 }
    depth : reply.wal_depth ≡ t.wal.depth

  queue_in_wal-queued :
      (s : Sidecar W) (req : PublishRequest) (e : GoError)
      → (queue_in_wal o s req e).1.queued ≡ true
      → Written s req e (queue_in_wal o s req e).0 (queue_in_wal o s req e).1
  unfolding queue_in_wal
  queue_in_wal-queued s req e h =
      let r = append o.json s.wal s.fs (o.faults s.world) (o.now s.world) (error_text e) req in
      let (done, deep) = after_append-queued s r h in
      let (t, m, w) =
        append-none o.json s.wal s.fs (o.faults s.world) (o.now s.world) (error_text e) req done in
      record {
        line = t;
        is_line = m;
        file = after_append-fs o s r ∙ w.file;
        log = after_append-wal o s r ∙ w.log;
        depth = deep ∙ ap (λ (l : Log). l.depth) (sym (after_append-wal o s r));
      }

  one_deeper :
      (l k : Log)
      → l ≡ k
      → ◌≡◌ {A = Log}
          (record l { depth = l.depth +ℤ pos 1 })
          (record k { depth = k.depth +ℤ pos 1 })
  one_deeper l k e = ap (λ (l : Log). record l { depth = l.depth +ℤ pos 1 }) e

  same_file :
      (line : String) (l k : Log) (fs gs : Fs)
      → l ≡ k
      → fs ≡ gs
      → write_to fs l.path (append_text (content fs l.path) line)
        ≡ write_to gs k.path (append_text (content gs k.path) line)
  same_file line l k fs gs e f =
      ap (λ (m : Log). write_to fs m.path (append_text (content fs m.path) line)) e
      ∙ ap (λ (g : Fs). write_to g k.path (append_text (content g k.path) line)) f

  checked_queued :
      (s : Sidecar W) (req n : PublishRequest)
      → normalize s.cfg.publish_streams req "" ≡ ok n
      → (publish_checked o s (ok n)).1.queued ≡ true
      → Queued s req (publish_checked o s (ok n)).0 (publish_checked o s (ok n)).1
  unfolding publish_checked
  checked_queued s req n is h =
      let sent = publish_to_redis o s n in
      let k = publish_to_redis-Kept o s n in
      let (e, failed, skip, q) = after_publish-queued sent.0 n sent.1 h in
      let w =
        subst (λ r. r.1.queued ≡ true → Written sent.0 n e r.0 r.1) (sym q)
          (queue_in_wal-queued sent.0 n e) h in
      record {
        normalized = n;
        is_normalized = is;
        failure = e;
        redis_failed = failed;
        line = w.line;
        is_line = w.is_line;
        file = w.file ∙ same_file (append_text w.line "\n") _ _ _ _ k.wal k.fs;
        log = w.log ∙ one_deeper _ _ k.wal;
        depth = w.depth;
      }

  -- A reply that says queued is true: Redis answered with an error, and the log has one more line, that of
  -- the normalized request with the text of that error, and the depth that the reply gives.
  pub publish_internal_queued :
      (s : Sidecar W) (req : PublishRequest)
      → (publish_internal o s req).1.queued ≡ true
      → Queued s req (publish_internal o s req).0 (publish_internal o s req).1
  unfolding publish_internal normalize_publish_request publish_checked count_refusal
  publish_internal_queued s req h = elim (Result-cases (normalize s.cfg.publish_streams req "")) [
    | inl (e, n) ↦ cc (simp n at h)
    | inr (n, is) ↦ simp is (checked_queued s req n is (simp is at h))
  ]
