-- ===== src/Service/Publish/Kept.antt =====
-- What a publication to Redis leaves as it was: all but the counters that tell no outcome.
use Prim.Native.String.{String}
use deepiri_sugar_glider.Base.{
  ◌≡◌, refl, ◌∙◌, Bool, true, false, Option, none, some, inl, inr, Bool-cases, GoError, Result, ok,
  err, if◌then◌else◌,
}
use deepiri_sugar_glider.Base.Int.{pos, negsuc}
use deepiri_sugar_glider.RedisStreams.{PublishRequest}
use deepiri_sugar_glider.Metrics.{
  Collector, SameOutcomes, inc_publish_pipeline_error, inc_publish_pipeline_fallback,
  inc_publish_pipeline_adaptive_direct, add_publish_pipeline_adaptive_active,
}
use deepiri_sugar_glider.Service.{Pipeline, Outside, Sidecar, count}
use deepiri_sugar_glider.Service.Publish.{
  enter, leave, route, direct, count_error, after_pipeline, via_pipeline, falls_back, add_active,
  publish_to_redis, should_use_adaptive_direct_publish,
}

same : (c : Collector) → SameOutcomes c c
same c = record { attempts = refl; success = refl; queued = refl; errors = refl }

SameOutcomes-SameOutcomes :
    {c d e : Collector} → SameOutcomes c d → SameOutcomes d e → SameOutcomes c e
SameOutcomes-SameOutcomes p q = record {
  attempts = q.attempts ∙ p.attempts;
  success = q.success ∙ p.success;
  queued = q.queued ∙ p.queued;
  errors = q.errors ∙ p.errors;
}

module _ {W : Type 0} (o : Outside W) where
  -- What a publication leaves as it was.
  pub record Kept (s t : Sidecar W) : Type 0 where
    pub cfg : t.cfg ≡ s.cfg
    pub wal : t.wal ≡ s.wal
    pub fs : t.fs ≡ s.fs
    pub replaying : t.replaying ≡ s.replaying
    pub outcomes : SameOutcomes s.collector t.collector

  Kept-Kept : {s t u : Sidecar W} → Kept s t → Kept t u → Kept s u
  Kept-Kept p q = record {
    cfg = q.cfg ∙ p.cfg;
    wal = q.wal ∙ p.wal;
    fs = q.fs ∙ p.fs;
    replaying = q.replaying ∙ p.replaying;
    outcomes = SameOutcomes-SameOutcomes p.outcomes q.outcomes;
  }

  -- A step of a counter that tells no outcome.
  bump : (c : Collector) → SameOutcomes c (inc_publish_pipeline_error c 1)
  bump c = record { attempts = refl; success = refl; queued = refl; errors = refl }

  count-Kept : (s : Sidecar W) (c : Collector) → SameOutcomes s.collector c → Kept s (count s c)
  count-Kept s c h = record { cfg = refl; wal = refl; fs = refl; replaying = refl; outcomes = h }

  direct-Kept : (s : Sidecar W) (req : PublishRequest) → Kept s (direct o s req).0
  unfolding direct
  direct-Kept s req = record {
    cfg = refl;
    wal = refl;
    fs = refl;
    replaying = refl;
    outcomes = same s.collector;
  }

  count_error-Kept :
      (s : Sidecar W) (p : Sidecar W × Result GoError String)
      → Kept s p.0
      → Kept s (count_error o p).0
  unfolding count_error
  count_error-Kept s (t, ok id) h = h
  count_error-Kept s (t, err e) h = Kept-Kept h (count-Kept t _ (bump t.collector))

  abbrev fallback : Sidecar W → Sidecar W
  fallback s = count s (inc_publish_pipeline_fallback s.collector)

  fallback-Kept : (s : Sidecar W) → Kept s (fallback s)
  fallback-Kept s =
      count-Kept s _ (record { attempts = refl; success = refl; queued = refl; errors = refl })

  after_pipeline-Kept :
      (s : Sidecar W) (req : PublishRequest) (r : Result GoError String)
      → Kept s (after_pipeline o s req r).0
  unfolding after_pipeline
  after_pipeline-Kept s req (ok id) = count-Kept s s.collector (same s.collector)
  after_pipeline-Kept s req (err e) = elim (Bool-cases (falls_back e)) [
    | inl h ↦ rw h (
        count_error-Kept s (direct o (fallback s) req)
          (Kept-Kept (fallback-Kept s) (direct-Kept (fallback s) req)))
    | inr h ↦ rw h (count-Kept s _ (bump s.collector))
  ]

  via_pipeline-Kept :
      (p : Pipeline W) (s : Sidecar W) (active : _) (req : PublishRequest)
      → Kept s (via_pipeline o p s active req).0
  unfolding via_pipeline
  via_pipeline-Kept p s active req =
      elim (Bool-cases (should_use_adaptive_direct_publish o p s active)) [
        | inl h ↦ rw h (
            Kept-Kept
              (count-Kept s (inc_publish_pipeline_adaptive_direct s.collector)
                (record { attempts = refl; success = refl; queued = refl; errors = refl }))
              (direct-Kept (count s (inc_publish_pipeline_adaptive_direct s.collector)) req))
        | inr h ↦ rw h (
            Kept-Kept (answered (p.publish_outcomes s.collector s.world req))
              (after_pipeline-Kept _ req _))
      ]
    where
      answered :
          {s : Sidecar W} {c : Collector} {w : W}
          → SameOutcomes s.collector c
          → Kept s (record s { collector = c; world = w })
      answered h = record { cfg = refl; wal = refl; fs = refl; replaying = refl; outcomes = h }

  add_active-Kept : (s : Sidecar W) (n : _) → Kept s (add_active o s n)
  unfolding add_active add_publish_pipeline_adaptive_active
  add_active-Kept s n =
      count-Kept s _ (record { attempts = refl; success = refl; queued = refl; errors = refl })

  if-Kept :
      {s : Sidecar W} (b : Bool) (x y : Sidecar W × Result GoError String)
      → Kept s x.0
      → Kept s y.0
      → Kept s (if b then x else y).0
  if-Kept true x y h k = h
  if-Kept false x y h k = k

  route-Kept :
      (p : Option (Pipeline W)) (s : Sidecar W) (req : PublishRequest) → Kept s (route o p s req).0
  unfolding route
  route-Kept none s req = direct-Kept s req
  route-Kept (some p) s req =
      if-Kept s.cfg.publish_pipeline_adaptive_enabled
        (leave o
          (via_pipeline o p (enter o s) (enter o s).collector.publish_pipeline_adaptive_active req))
        (via_pipeline o p s (pos 0) req)
        (Kept-Kept (add_active-Kept s (pos 1)) (
          Kept-Kept
            (via_pipeline-Kept p (enter o s) (enter o s).collector.publish_pipeline_adaptive_active
              req)
            (add_active-Kept
              (via_pipeline o p (enter o s) (enter o s).collector.publish_pipeline_adaptive_active
                req).0
              (negsuc 0))))
        (via_pipeline-Kept p s (pos 0) req)

  pub publish_to_redis-Kept :
      (s : Sidecar W) (req : PublishRequest) → Kept s (publish_to_redis o s req).0
  unfolding publish_to_redis
  publish_to_redis-Kept s req = route-Kept o.pipeline s req
