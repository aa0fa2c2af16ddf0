-- ===== src/Service/Ready.antt =====
-- readyz and readinessSnapshot of internal/service/service.go, with internal/health/health.go.
mod Examples
use Prim.Native.String.{String}
use deepiri_sugar_glider.Base.{
  ℕ, ◌+◌, ◌<◌, ◌≡◌, refl, sym, ap, ◌∙◌, subst, arith, Bool, true, false, ◌&&◌, ◌==◌, ◌⊎◌, ◌↔◌,
  Option, none, some, List, [], ◌∷◌, ◌++◌, if◌then◌else◌, inl, inr, Bool-cases, GoError, Result, ok,
  err,
}
use deepiri_sugar_glider.Base.Int.{ℤ, pos, pos_part, neg_part, ltb_ℤ, leb_ℤ, ◌≤ℤ◌}
use deepiri_sugar_glider.Wal.{WalError, bytes}
use deepiri_sugar_glider.Redis.{Redis, Event}
use deepiri_sugar_glider.Service.{Pipeline, Outside, Sidecar, status_ok, service_unavailable}
use deepiri_sugar_glider.Dispatcher.Manager.{Manager, manager_subscriber_count}
use deepiri_sugar_glider.Dispatcher.Manager.{count as dispatcher_count}

-- The payload of readyz.
pub record Snapshot : Type 0 where
  pub ready : Bool
  pub redis_status : String
  pub wal_depth : ℤ
  pub wal_bytes : ℕ
  pub wal_max_entries : ℤ
  pub wal_max_bytes : ℤ
  pub publish_pipeline_queue_depth : ℕ
  pub dispatcher_active : ℕ
  pub dispatcher_subscribers : ℕ
  pub reasons : List String

-- CheckReady of package health: only that the probe failed is kept.
unfoldable pub check_ready : Option GoError → Bool
check_ready none = true
check_ready (some e) = false

-- A limit that is set, and reached.
unfoldable pub reaches : ℤ → ℤ → Bool
reaches limit n = ltb_ℤ (pos 0) limit && leb_ℤ limit n

reason : Bool → String → List String
reason true text = text ∷ []
reason false text = []

is_err : Result WalError ℕ → Bool
is_err (ok n) = false
is_err (err e) = true

or_zero : Result WalError ℕ → ℕ
or_zero (ok n) = n
or_zero (err e) = 0

is_nil : List String → Bool
is_nil [] = true
is_nil (_ ∷ _) = false

module _ {W : Type 0} where
  queue_depth_of : Option (Pipeline W) → W → ℕ
  queue_depth_of none w = 0
  queue_depth_of (some p) w = p.queue_length w

  unfoldable pub publish_pipeline_queue_depth : Outside W → Sidecar W → ℕ
  unfolding queue_depth_of
  publish_pipeline_queue_depth o s = queue_depth_of o.pipeline s.world

module _ (manager : Option (Manager Event)) where
  active_dispatchers : ℕ
  unfolding dispatcher_count
  active_dispatchers = elim manager [ none ↦ 0 | some m ↦ dispatcher_count m ]

  active_subscribers : ℕ
  unfolding manager_subscriber_count
  active_subscribers = elim manager [ none ↦ 0 | some m ↦ manager_subscriber_count m ]

module _ {W : Type 0} (o : Outside W) (manager : Option (Manager Event)) where
  -- `up` is that Redis answered the ping.
  reasons_of : Bool → Sidecar W → List String
  unfolding reason is_err reaches publish_pipeline_queue_depth bytes
  reasons_of up s =
      reason (if up then false else true) "redis_unavailable"
      ++ (reason (is_err (bytes s.wal s.fs (o.faults s.world))) "wal_stat_failed"
          ++ (reason (reaches s.cfg.ready_max_wal_depth s.wal.depth) "wal_depth_exceeded"
              ++ reason
                  (reaches s.cfg.ready_max_publish_queue_depth
                    (pos (publish_pipeline_queue_depth o s)))
                  "publish_pipeline_queue_depth_exceeded"))

  snapshot_of : Bool → Sidecar W → Snapshot
  unfolding reasons_of is_nil or_zero bytes publish_pipeline_queue_depth active_dispatchers
      active_subscribers
  snapshot_of up s = record {
    ready = is_nil (reasons_of up s);
    redis_status = if up then "ok" else "down";
    wal_depth = s.wal.depth;
    wal_bytes = or_zero (bytes s.wal s.fs (o.faults s.world));
    wal_max_entries = s.cfg.wal_max_entries;
    wal_max_bytes = s.cfg.wal_max_bytes;
    publish_pipeline_queue_depth = publish_pipeline_queue_depth o s;
    dispatcher_active = active_dispatchers manager;
    dispatcher_subscribers = active_subscribers manager;
    reasons = reasons_of up s;
  }

  unfoldable pub readiness_snapshot : Redis W → Sidecar W → Sidecar W × Snapshot
  unfolding snapshot_of check_ready
  readiness_snapshot r s =
      let (w, e) = r.ping s.world in
      let t = record s { world = w } in (t, snapshot_of (check_ready e) t)

  readyz_of : Sidecar W × Snapshot → Sidecar W × (ℕ × Snapshot)
  readyz_of (s, payload) = (s, (if payload.ready then status_ok else service_unavailable, payload))

  unfoldable pub readyz : Redis W → Sidecar W → Sidecar W × (ℕ × Snapshot)
  unfolding readiness_snapshot readyz_of
  readyz r s = readyz_of (readiness_snapshot r s)

-- Below a limit, which one that is not positive does not set.
abbrev pub IsBelow : ℤ → ℤ → Type 0
IsBelow limit n = (limit ≤ℤ pos 0) ⊎ (pos_part n + neg_part limit < pos_part limit + neg_part n)

IsBelow-iff : (limit n : ℤ) → (reaches limit n ≡ false) ↔ IsBelow limit n
unfolding reaches
IsBelow-iff limit n = ground arith

false-true : false ≡ true → ⊥
false-true e = cc

clear :
    (a b c d : Bool) (x y z v : String)
    → is_nil (reason a x ++ (reason b y ++ (reason c z ++ reason d v))) ≡ true
    → (a ≡ false) × (b ≡ false) × (c ≡ false) × (d ≡ false)
unfolding is_nil reason
clear true b c d x y z v h = absurd (false-true h)
clear false true c d x y z v h = absurd (false-true h)
clear false false true d x y z v h = absurd (false-true h)
clear false false false true x y z v h = absurd (false-true h)
clear false false false false x y z v h = (refl, refl, refl, refl)

all_clear :
    (a b c d : Bool) (x y z v : String)
    → (a ≡ false) × (b ≡ false) × (c ≡ false) × (d ≡ false)
    → is_nil (reason a x ++ (reason b y ++ (reason c z ++ reason d v))) ≡ true
unfolding is_nil reason
all_clear a b c d x y z v (ha, hb, hc, hd) = rw (ha, hb, hc, hd) refl

up_iff : (e : Option GoError) → ((if check_ready e then false else true) ≡ false) ↔ (e ≡ none)
unfolding check_ready
up_iff none = ((λ h. refl), (λ h. refl))
up_iff (some e) = ((λ h. absurd (bad h)), (λ h. absurd (worse h)))
  where
    bad : true ≡ false → ⊥
    bad z = cc

    worse : some e ≡ none → ⊥
    worse z = cc

readable_iff : (a : Result WalError ℕ) → (is_err a ≡ false) ↔ ((n : ℕ) × (a ≡ ok n))
unfolding is_err
readable_iff (ok n) = ((λ h. (n, refl)), (λ h. refl))
readable_iff (err e) = ((λ h. absurd (bad h)), (λ h. absurd (worse h.0 h.1)))
  where
    bad : true ≡ false → ⊥
    bad z = cc

    worse : (n : ℕ) → err e ≡ ok n → ⊥
    worse n z = cc

ok_status : (b : Bool) → ((if b then status_ok else service_unavailable) ≡ 200) ↔ (b ≡ true)
ok_status b = ground arith

module _ {W : Type 0} (o : Outside W) (manager : Option (Manager Event)) (r : Redis W) where
  -- The readiness probe answers 200 exactly if Redis answers the ping, the size of the log's file can be
  -- read, and the depth of the log and of the publish queue are below those limits that are set.
  pub readyz-ready :
      (s : Sidecar W)
      → let (w, e) = r.ping s.world in
        let t = record s { world = w } in
        ((readyz o manager r s).1.0 ≡ 200) ↔ (
          (e ≡ none)
          × ((n : ℕ) × (bytes s.wal s.fs (o.faults w) ≡ ok n))
          × IsBelow s.cfg.ready_max_wal_depth s.wal.depth
          × IsBelow s.cfg.ready_max_publish_queue_depth (pos (publish_pipeline_queue_depth o t)))
  unfolding readyz readiness_snapshot snapshot_of reasons_of
  readyz-ready s =
      let (w, e) = r.ping s.world in
      let t = record s { world = w } in
      let a = if check_ready e then false else true in
      let file = bytes s.wal s.fs (o.faults w) in
      let queued = pos (publish_pipeline_queue_depth o t) in
      let c = reaches s.cfg.ready_max_wal_depth s.wal.depth in
      let d = reaches s.cfg.ready_max_publish_queue_depth queued in
      let x : String = "redis_unavailable" in
      let y : String = "wal_stat_failed" in
      let z : String = "wal_depth_exceeded" in
      let v : String = "publish_pipeline_queue_depth_exceeded" in
      let b = is_err file in
      let ready = is_nil (reason a x ++ (reason b y ++ (reason c z ++ reason d v))) in
      (
        (λ h.
            let (ha, hb, hc, hd) = clear a b c d x y z v ((ok_status ready).0 h) in
            (
              (up_iff e).0 ha,
              (readable_iff file).0 hb,
              (IsBelow-iff s.cfg.ready_max_wal_depth s.wal.depth).0 hc,
              (IsBelow-iff s.cfg.ready_max_publish_queue_depth queued).0 hd,
            )),
        (λ p.
            let (pa, pb, pc, pd) = p in
            (ok_status ready).1 (
              all_clear a b c d x y z v (
                (up_iff e).1 pa,
                (readable_iff file).1 pb,
                (IsBelow-iff s.cfg.ready_max_wal_depth s.wal.depth).1 pc,
                (IsBelow-iff s.cfg.ready_max_publish_queue_depth queued).1 pd,
              ))),
      )
