-- ===== src/DeadLetter/Scan.antt =====
-- The loops of scanAndMoveToDLQ in internal/service/service.go.
use Prim.Native.String.{String, ◌++◌ as append_text}
use deepiri_sugar_glider.Base.{
  ℕ, zero, suc, ◌<◌, ◌≡◌, refl, arith, Bool, true, false, Option, none, some, List, [], ◌∷◌, length,
  All, if◌then◌else◌, GoError, canceled, deadline_exceeded, redis_nil, queue_full, stopped, other,
  Result, ok, err,
}
use deepiri_sugar_glider.Base.Int.{pos, ltb_ℤ}
use deepiri_sugar_glider.Config.Dlq.{StreamDlqPolicy}
use deepiri_sugar_glider.Metrics.{inc_error}
use deepiri_sugar_glider.Redis.{
  Redis, Pending, PendingArgs, is_no_group_error, is_no_such_stream_err,
}
use deepiri_sugar_glider.Service.{Sidecar, count}
use deepiri_sugar_glider.DeadLetter.{
  Turn, finished, more, after, last_id, scan_page, after_pending, turn, resume, and_then,
  scan_pages, scan_groups, scan_listed, policy_of, scan_stream, scan_streams, scan_and_move_to_dlq,
  tracked_streams_for_dlq,
}

-- What XPENDING documents of a start that excludes an id: `left` counts the ids after a start, and each
-- entry of a page comes after the start of the page.
pub record IsPaged {W : Type 0} (r : Redis W) (left : String → String → String → ℕ) : Type 0 where
  pub advances :
      (w : W) (args : PendingArgs) (page : List Pending)
      → (r.xpending_ext w args).1 ≡ ok page
      → All
          (λ q.
            left args.stream args.group (append_text "(" q.id)
            < left args.stream args.group args.start)
          page

-- What holds of the ids of a page holds of the last.
last-All :
    (P : String → Type 0) (p : Pending) (ps : List Pending)
    → All (λ q. P q.id) (p ∷ ps)
    → P (last_id p ps)
unfolding last_id
last-All P p [] h = h.0
last-All P p (q ∷ qs) h = last-All P q qs h.1

module _ {W : Type 0} where
  -- A next turn has fewer ids left than this.
  abbrev Lower : (String → ℕ) → ℕ → Turn W → Type 0
  Lower left n (finished s) = Unit
  Lower left n (more next s) = left next < n

  abbrev Ends : Option (Sidecar W) → Type 0
  Ends none = ⊥
  Ends (some s) = Unit

  if-Lower :
      (left : String → ℕ) (n : ℕ) (b : Bool) (x y : Turn W)
      → Lower left n x
      → Lower left n y
      → Lower left n (if b then x else y)
  if-Lower left n true x y h k = h
  if-Lower left n false x y h k = k

  if-Ends : (b : Bool) (x y : Option (Sidecar W)) → Ends x → Ends y → Ends (if b then x else y)
  if-Ends true x y h k = h
  if-Ends false x y h k = k

  and_then-Ends :
      (o : Option (Sidecar W)) (f : Sidecar W → Option (Sidecar W))
      → Ends o
      → ((s : Sidecar W) → Ends (f s))
      → Ends (and_then o f)
  unfolding and_then
  and_then-Ends none f h k = absurd h
  and_then-Ends (some s) f h k = k s

  resume-Ends :
      (left : String → ℕ) (n : ℕ) (f : String → Sidecar W → Option (Sidecar W)) (x : Turn W)
      → Lower left n x
      → ((next : String) (s : Sidecar W) → left next < n → Ends (f next s))
      → Ends (resume f x)
  unfolding resume
  resume-Ends left n f (finished s) l k = tt
  resume-Ends left n f (more next s) l k = k next s l

  Ends-with : (o : Option (Sidecar W)) → Ends o → (s : Sidecar W) × (o ≡ some s)
  Ends-with none h = absurd h
  Ends-with (some s) h = (s, refl)

module _ {W : Type 0} (r : Redis W) (left : String → String → String → ℕ)
    (paged : IsPaged r left) where
  after_pending-Lower :
      (policy : StreamDlqPolicy) (stream group start : String) (w : W) (s : Sidecar W)
      → (a : Result GoError (List Pending))
      → (r.xpending_ext w (record {
        stream = stream;
        group = group;
        start = start;
        count = s.cfg.dlq_scan_batch;
      })).1
        ≡ a
      → Lower
          (left stream group)
          (left stream group start)
          (after_pending r policy stream group s a)
  unfolding after_pending after
  after_pending-Lower policy stream group start w s (err e) h =
      if-Lower (left stream group) (left stream group start) (is_no_group_error e) (finished s)
        (finished (count s (inc_error s.collector))) tt tt
  after_pending-Lower policy stream group start w s (ok []) h = tt
  after_pending-Lower policy stream group start w s (ok (p ∷ ps)) h =
      let t = scan_page r policy stream group s (p ∷ ps) in
      if-Lower (left stream group) (left stream group start)
        (ltb_ℤ (pos (length (p ∷ ps))) s.cfg.dlq_scan_batch) (finished t) (more (after p ps) t) tt
        (last-All (λ id. left stream group (append_text "(" id) < left stream group start) p ps
          (paged.advances w
            (record { stream = stream; group = group; start = start; count = s.cfg.dlq_scan_batch })
            (p ∷ ps) h))

  turn-Lower :
      (policy : StreamDlqPolicy) (stream group start : String) (s : Sidecar W)
      → Lower (left stream group) (left stream group start) (turn r policy stream group start s)
  unfolding turn
  turn-Lower policy stream group start s =
      let (w, a) =
        r.xpending_ext s.world (record {
          stream = stream;
          group = group;
          start = start;
          count = s.cfg.dlq_scan_batch;
        }) in
      after_pending-Lower policy stream group start s.world (record s { world = w }) a refl

  scan_pages-Ends :
      (fuel : ℕ) (policy : StreamDlqPolicy) (stream group start : String) (s : Sidecar W)
      → left stream group start < fuel
      → Ends (scan_pages r fuel policy stream group start s)
  unfolding scan_pages
  scan_pages-Ends zero policy stream group start s h = absurd (omega (arith, h))
  scan_pages-Ends (suc fuel) policy stream group start s h =
      resume-Ends (left stream group) (left stream group start)
        (scan_pages r fuel policy stream group) (turn r policy stream group start s)
        (turn-Lower policy stream group start s)
        (λ next t l. scan_pages-Ends fuel policy stream group next t (omega (arith, l, h)))

  -- The fuel is above the number of entries of every group.
  abbrev IsEnough : ℕ → Type 0
  IsEnough fuel = (stream group : String) → left stream group "-" < fuel

  scan_groups-Ends :
      (fuel : ℕ) (policy : StreamDlqPolicy) (stream : String) (groups : List String) (s : Sidecar W)
      → IsEnough fuel
      → Ends (scan_groups r fuel policy stream groups s)
  unfolding scan_groups
  scan_groups-Ends fuel policy stream [] s h = tt
  scan_groups-Ends fuel policy stream (group ∷ groups) s h =
      and_then-Ends (scan_pages r fuel policy stream group "-" s)
        (scan_groups r fuel policy stream groups)
        (scan_pages-Ends fuel policy stream group "-" s (h stream group))
        (λ t. scan_groups-Ends fuel policy stream groups t h)

  scan_listed-Ends :
      (fuel : ℕ) (policy : StreamDlqPolicy) (stream : String) (s : Sidecar W)
      → (a : Result GoError (List String)) → IsEnough fuel
      → Ends (scan_listed r fuel policy stream s a)
  unfolding scan_listed
  scan_listed-Ends fuel policy stream s (ok groups) h =
      scan_groups-Ends fuel policy stream groups s h
  scan_listed-Ends fuel policy stream s (err redis_nil) h = tt
  scan_listed-Ends fuel policy stream s (err canceled) h =
      if-Ends (is_no_such_stream_err canceled) (some s) (some (count s (inc_error s.collector))) tt
        tt
  scan_listed-Ends fuel policy stream s (err deadline_exceeded) h =
      if-Ends (is_no_such_stream_err deadline_exceeded) (some s)
        (some (count s (inc_error s.collector))) tt tt
  scan_listed-Ends fuel policy stream s (err queue_full) h =
      if-Ends (is_no_such_stream_err queue_full) (some s) (some (count s (inc_error s.collector)))
        tt tt
  scan_listed-Ends fuel policy stream s (err stopped) h =
      if-Ends (is_no_such_stream_err stopped) (some s) (some (count s (inc_error s.collector))) tt
        tt
  scan_listed-Ends fuel policy stream s (err (other t)) h =
      if-Ends (is_no_such_stream_err (other t)) (some s) (some (count s (inc_error s.collector))) tt
        tt

  scan_streams-Ends :
      (fuel : ℕ) (streams : List String) (s : Sidecar W)
      → IsEnough fuel
      → Ends (scan_streams r fuel streams s)
  unfolding scan_streams scan_stream
  scan_streams-Ends fuel [] s h = tt
  scan_streams-Ends fuel (stream ∷ streams) s h =
      let (w, a) = r.xinfo_groups s.world stream in
      and_then-Ends (scan_stream r fuel stream s) (scan_streams r fuel streams)
        (scan_listed-Ends fuel (policy_of s.cfg stream) stream (record s { world = w }) a h)
        (λ t. scan_streams-Ends fuel streams t h)

  -- The scan ends: where a page of pending entries holds only ids after its start, as Redis documents, and the
  -- fuel is above the number of entries of every group, the loops over pages, groups and streams come to
  -- their end, whatever Redis answers otherwise and whichever moves fail.
  pub scan_and_move_to_dlq-terminates :
      (fuel : ℕ) (s : Sidecar W)
      → ((stream group : String) → left stream group "-" < fuel)
      → (t : Sidecar W) × (scan_and_move_to_dlq r fuel s ≡ some t)
  unfolding scan_and_move_to_dlq
  scan_and_move_to_dlq-terminates fuel s h =
      Ends-with (scan_streams r fuel (tracked_streams_for_dlq s.cfg) s)
        (scan_streams-Ends fuel (tracked_streams_for_dlq s.cfg) s h)
