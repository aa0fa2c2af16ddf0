-- ===== src/DeadLetter.antt =====
-- The dead-letter scan of internal/service/service.go: scanAndMoveToDLQ and what it calls.
pub mod Replay
pub mod Tracked
pub mod Scan
pub mod Moves
pub mod Counts
pub mod Sent
pub mod Values
pub mod Commands
mod Examples
use Prim.Native.String.{String, compare, ◌++◌ as append_text}
use Prim.Native.Nat.{Ordering}
use deepiri_sugar_glider.Base.{
  ℕ, zero, suc, ◌+◌, ◌/◌, Bool, true, false, not, ◌&&◌, ◌||◌, Option, none, some, List, [], ◌∷◌,
  length, if◌then◌else◌, GoError, redis_nil, error_text, Result, ok, err,
}
use deepiri_sugar_glider.Base.Int.{ℤ, pos, negsuc, ltb_ℤ, sub_ℕ}
use deepiri_sugar_glider.Base.Parse.{to_lower, contains}
use deepiri_sugar_glider.Base.Text.{is_empty, trim_space}
use deepiri_sugar_glider.Config.{Config}
use deepiri_sugar_glider.Config.Dlq.{StreamDlqPolicy, resolve_dlq_policy}
use deepiri_sugar_glider.Metrics.{inc_error, inc_dlq_moved}
use deepiri_sugar_glider.RedisStreams.{Value, text, int, XAddArgs}
use deepiri_sugar_glider.Redis.{
  Fields, Message, Pending, Redis, assign, is_no_group_error, is_no_such_stream_err,
}
use deepiri_sugar_glider.Service.{Sidecar, count}
use deepiri_sugar_glider.Consume.{add_key}

-- time.Duration.Milliseconds
unfoldable pub milliseconds : ℤ → ℤ
milliseconds (pos n) = pos (n / 1000000)
milliseconds (negsuc n) = sub_ℕ 0 ((n + 1) / 1000000)

-- The fields of the entry in the dead-letter stream, without those of the message.
unfoldable pub dlq_metadata : String → String → String → String → Pending → Fields
unfolding milliseconds
dlq_metadata now stream group id pending =
    ("dlq_original_stream", text stream)
    ∷ ("dlq_original_group", text group)
    ∷ ("dlq_original_id", text id)
    ∷ ("dlq_reason", text "max_retries_exceeded")
    ∷ ("dlq_retry_count", int pending.retry_count)
    ∷ ("dlq_idle_ms", int (milliseconds pending.idle))
    ∷ ("dlq_moved_at", text now)
    ∷ []

-- The fields of a message, assigned one after the other.
unfoldable pub overlay : Fields → Fields → Fields
unfolding assign
overlay [] out = out
overlay ((k, v) ∷ fields) out = overlay fields (assign k v out)

unfoldable pub dlq_values : String → String → String → Message → Pending → Fields
unfolding overlay dlq_metadata
dlq_values now stream group message pending =
    overlay message.values (dlq_metadata now stream group message.id pending)

unfoldable pub is_due : StreamDlqPolicy → Pending → Bool
is_due policy pending =
    not (ltb_ℤ pending.retry_count policy.max_retries)
    && not (ltb_ℤ (pos 0) policy.min_idle && ltb_ℤ pending.idle policy.min_idle)

-- The streams to scan. sort.Strings orders by bytes, which is the order of the characters.
place : Ordering → String → String → List String → List String → List String
place Ordering.gt x y ys rest = y ∷ rest
place _ x y ys rest = x ∷ y ∷ ys

insert_sorted : String → List String → List String
unfolding place
insert_sorted x [] = x ∷ []
insert_sorted x (y ∷ ys) = place (compare x y) x y ys (insert_sorted x ys)

sort_strings : List String → List String
unfolding insert_sorted
sort_strings [] = []
sort_strings (x ∷ xs) = insert_sorted x (sort_strings xs)

-- `seen` is the map of the names.
see_all : List String → List String → List String
unfolding add_key trim_space
see_all [] seen = seen
see_all (stream ∷ streams) seen =
    let trimmed = trim_space stream in
    see_all streams (if is_empty trimmed then seen else add_key trimmed seen)

unfoldable pub tracked_streams_for_dlq : Config → List String
unfolding sort_strings see_all
tracked_streams_for_dlq cfg =
    sort_strings (see_all cfg.publish_streams (see_all cfg.consume_streams []))

-- What one turn of the loop over pages ends with.
pub data Turn (W : Type 0) : Type 0 where
  finished : Sidecar W → Turn W
  more : String → Sidecar W → Turn W

last_id : Pending → List Pending → String
last_id p [] = p.id
last_id p (q ∷ qs) = last_id q qs

-- The start of the next page: after this entry.
unfoldable pub after : Pending → List Pending → String
unfolding last_id
after p ps = append_text "(" (last_id p ps)

unfoldable pub policy_of : Config → String → StreamDlqPolicy
unfolding resolve_dlq_policy
policy_of cfg stream =
    resolve_dlq_policy cfg.dlq_stream_policies cfg.dlq_max_retries cfg.dlq_min_idle stream

module _ {W : Type 0} where
  unfoldable pub resume : (String → Sidecar W → Option (Sidecar W)) → Turn W → Option (Sidecar W)
  resume continue (finished s) = some s
  resume continue (more next s) = continue next s

  unfoldable pub and_then :
      Option (Sidecar W) → (Sidecar W → Option (Sidecar W)) → Option (Sidecar W)
  and_then none rest = none
  and_then (some s) rest = rest s

module _ {W : Type 0} (r : Redis W) where
  after_ack : W × Result GoError ℕ → W × Result GoError Bool
  after_ack (w, err e) = (w, err e)
  after_ack (w, ok _) = (w, ok true)

  after_add : String → String → String → W × Option GoError → W × Result GoError Bool
  unfolding after_ack
  after_add stream group id (w, some e) = (w, err e)
  after_add stream group id (w, none) = after_ack (r.xack w stream group (id ∷ []))

  move_found :
      Config
      → String
      → String
      → Pending
      → String
      → W × Result GoError (List Message)
      → W × Result GoError Bool
  unfolding after_add dlq_values
  move_found cfg stream group pending dlq_stream (w, err e) = (w, err e)
  move_found cfg stream group pending dlq_stream (w, ok []) = (w, ok false)
  move_found cfg stream group pending dlq_stream (w, ok (message ∷ _)) =
      after_add stream group message.id (
        r.xadd w (record {
          stream = dlq_stream;
          max_len = cfg.max_stream_len;
          approx = true;
          values = dlq_values (r.now w) stream group message pending;
        }))

  -- The Boolean is that the entry was moved.
  unfoldable pub move_pending_entry_to_dlq :
      Config → W → String → String → Pending → String → W × Result GoError Bool
  unfolding move_found
  move_pending_entry_to_dlq cfg w stream group pending dlq_stream =
      move_found cfg stream group pending dlq_stream (r.xrange w stream pending.id pending.id)

  unfoldable pub count_move : Sidecar W → W × Result GoError Bool → Sidecar W
  count_move s (w, err e) = record s { world = w; collector = inc_error s.collector }
  count_move s (w, ok true) = record s { world = w; collector = inc_dlq_moved s.collector }
  count_move s (w, ok false) = record s { world = w }

  unfoldable pub move_one : StreamDlqPolicy → String → String → Sidecar W → Pending → Sidecar W
  unfolding move_pending_entry_to_dlq count_move
  move_one policy stream group s pending =
      count_move s (move_pending_entry_to_dlq s.cfg s.world stream group pending policy.dlq_stream)

  unfoldable pub scan_page :
      StreamDlqPolicy → String → String → Sidecar W → List Pending → Sidecar W
  unfolding is_due move_one
  scan_page policy stream group s [] = s
  scan_page policy stream group s (pending ∷ page) =
      scan_page policy stream group
        (if is_due policy pending then move_one policy stream group s pending else s) page

  unfoldable pub after_pending :
      StreamDlqPolicy → String → String → Sidecar W → Result GoError (List Pending) → Turn W
  unfolding is_no_group_error scan_page after
  after_pending policy stream group s (err e) =
      if is_no_group_error e then finished s else finished (count s (inc_error s.collector))
  after_pending policy stream group s (ok []) = finished s
  after_pending policy stream group s (ok (p ∷ ps)) =
      let t = scan_page policy stream group s (p ∷ ps) in
      if ltb_ℤ (pos (length (p ∷ ps))) s.cfg.dlq_scan_batch then finished t else more (after p ps) t

  unfoldable pub turn : StreamDlqPolicy → String → String → String → Sidecar W → Turn W
  unfolding after_pending
  turn policy stream group start s =
      let (w, answer) =
        r.xpending_ext s.world (record {
          stream = stream;
          group = group;
          start = start;
          count = s.cfg.dlq_scan_batch;
        }) in
      after_pending policy stream group (record s { world = w }) answer

  -- The loop over the pages of a group; `none` is that the fuel has run out.
  unfoldable pub scan_pages :
      ℕ → StreamDlqPolicy → String → String → String → Sidecar W → Option (Sidecar W)
  unfolding turn resume
  scan_pages zero policy stream group start s = none
  scan_pages (suc fuel) policy stream group start s =
      resume (scan_pages fuel policy stream group) (turn policy stream group start s)

  unfoldable pub scan_groups :
      ℕ → StreamDlqPolicy → String → List String → Sidecar W → Option (Sidecar W)
  unfolding scan_pages and_then
  scan_groups fuel policy stream [] s = some s
  scan_groups fuel policy stream (group ∷ groups) s =
      and_then (scan_pages fuel policy stream group "-" s) (scan_groups fuel policy stream groups)

  unfoldable pub scan_listed :
      ℕ → StreamDlqPolicy → String → Sidecar W → Result GoError (List String) → Option (Sidecar W)
  unfolding is_no_such_stream_err scan_groups
  scan_listed fuel policy stream s (ok groups) = scan_groups fuel policy stream groups s
  scan_listed fuel policy stream s (err redis_nil) = some s
  scan_listed fuel policy stream s (err e) =
      if is_no_such_stream_err e then some s else some (count s (inc_error s.collector))

  unfoldable pub scan_stream : ℕ → String → Sidecar W → Option (Sidecar W)
  unfolding scan_listed policy_of
  scan_stream fuel stream s =
      let (w, groups) = r.xinfo_groups s.world stream in
      scan_listed fuel (policy_of s.cfg stream) stream (record s { world = w }) groups

  unfoldable pub scan_streams : ℕ → List String → Sidecar W → Option (Sidecar W)
  unfolding scan_stream and_then
  scan_streams fuel [] s = some s
  scan_streams fuel (stream ∷ streams) s =
      and_then (scan_stream fuel stream s) (scan_streams fuel streams)

  unfoldable pub scan_and_move_to_dlq : ℕ → Sidecar W → Option (Sidecar W)
  unfolding scan_streams tracked_streams_for_dlq
  scan_and_move_to_dlq fuel s = scan_streams fuel (tracked_streams_for_dlq s.cfg) s
