-- ===== src/DeadLetter/Examples.antt =====
-- Runs of the dead-letter scan and of the replay, and the theorems on them at concrete inputs.
use Prim.Native.String.{String, ◌++◌ as append_text}
use deepiri_sugar_glider.Base.{
  ℕ, ◌+◌, ◌≤◌, ◌<◌, ◌≡◌, refl, subst, All, arith, true, false, ◌||◌, none, some, Option, List, [],
  ◌∷◌, length, if◌then◌else◌, GoError, other, Result, ok, err,
}
use deepiri_sugar_glider.Base.Int.{ℤ, pos, ltb_ℤ, ◌≤ℤ◌}
use deepiri_sugar_glider.Base.Text.{is_empty, trim_space, is_space}
use deepiri_sugar_glider.Base.Parse.{has_prefix}
use deepiri_sugar_glider.Config.Dlq.{StreamDlqPolicy}
use deepiri_sugar_glider.Redis.{Redis, Pending, field}
use deepiri_sugar_glider.Service.{Sidecar}
use deepiri_sugar_glider.Service.Examples.{sidecar, cfg}
use deepiri_sugar_glider.Consume.{is_key}
use deepiri_sugar_glider.Consume.Examples.{toy, page, order}
use deepiri_sugar_glider.DeadLetter.{scan_page, scan_and_move_to_dlq, tracked_streams_for_dlq}
use deepiri_sugar_glider.DeadLetter.Scan.{IsPaged, scan_and_move_to_dlq-terminates}
use deepiri_sugar_glider.DeadLetter.Tracked.{is_named, IsDistinct, tracked_streams_for_dlq-exact}
use deepiri_sugar_glider.DeadLetter.Moves.{due, move_each, scan_page-due}
use deepiri_sugar_glider.DeadLetter.Counts.{errors_in, counted, replay_dlq_internal-Told}
use deepiri_sugar_glider.DeadLetter.Sent.{Goes, replay_dlq_internal-all}
use deepiri_sugar_glider.DeadLetter.Values.{expected, replay_values-field, dead, replay-move}
use deepiri_sugar_glider.DeadLetter.Commands.{Agree, replay_dlq_internal-Agree}
use deepiri_sugar_glider.DeadLetter.Replay.{
  ReplayRequest, trimmed_replay, with_defaults, replay_values, target_of, replay_dlq_internal,
}

-- The entries after a start: the server has two in the first page and none later.
abbrev left : String → String → String → ℕ
left stream group String.[] = 0
left stream group (String.◌∷◌ c String.[]) = 1
left stream group (String.◌∷◌ c (String.◌∷◌ d s)) = 0

abbrev Later : String → List Pending → Type 0
Later start page = All (λ q. left "" "" (append_text "(" q.id) < left "" "" start) page

abbrev LaterIn : String → Result GoError (List Pending) → Type 0
LaterIn start (err e) = Unit
LaterIn start (ok page) = Later start page

page-Later : (start : String) → Later start (page start)
page-Later String.[] = tt
page-Later (String.◌∷◌ c String.[]) = (omega arith, (omega arith, tt))
page-Later (String.◌∷◌ c (String.◌∷◌ d s)) = tt

toy-IsPaged : IsPaged toy left
toy-IsPaged = record {
  advances = λ w args q h. subst (LaterIn args.start) h (page-Later args.start);
}

scan_and_move_to_dlq-terminates_example :
    (t : Sidecar ℕ) × (scan_and_move_to_dlq toy 2 sidecar ≡ some t)
scan_and_move_to_dlq-terminates_example =
    scan_and_move_to_dlq-terminates toy left toy-IsPaged 2 sidecar (λ stream group. omega arith)

abbrev moved_in : Option (Sidecar ℕ) → ℕ
moved_in none = 0
moved_in (some s) = s.collector.dlq_moved

-- Of the two pending entries of the one stream, one has been tried often enough.
scan_runs : moved_in (scan_and_move_to_dlq toy 3 sidecar) ≡ 1
unfolding scan_and_move_to_dlq is_space
scan_runs = refl

tracked_streams_for_dlq-exact_example :
    (is_key "events" (tracked_streams_for_dlq cfg)
      ≡ (is_named "events" cfg.publish_streams || is_named "events" cfg.consume_streams))
    × IsDistinct (tracked_streams_for_dlq cfg)
tracked_streams_for_dlq-exact_example = tracked_streams_for_dlq-exact cfg "events"

tracked_runs :
    tracked_streams_for_dlq
      (record cfg { publish_streams = " b" ∷ "" ∷ "a" ∷ []; consume_streams = "b" ∷ [] })
    ≡ "a" ∷ "b" ∷ []
unfolding tracked_streams_for_dlq is_space
tracked_runs = refl

abbrev policy : StreamDlqPolicy
policy = record { max_retries = pos 3; min_idle = pos 5; dlq_stream = "events:dlq" }

scan_page-due_example :
    (scan_page toy policy "events" "g" sidecar (page "-")
      ≡ move_each toy policy "events" "g" sidecar (due policy (page "-")))
    × ((scan_page toy policy "events" "g" sidecar (page "-")).collector.dlq_moved
          + (scan_page toy policy "events" "g" sidecar (page "-")).collector.errors_total
        ≤ 0 + 0 + length (due policy (page "-")))
scan_page-due_example = scan_page-due toy policy "events" "g" (page "-") sidecar

abbrev request : ReplayRequest
request = record {
  dlq_stream = "events:dlq";
  target_stream = " events ";
  count = pos 0;
  start = "";
  stop = "";
  delete_from_dlq = true;
}

replay_dlq_internal-Told_example :
    ((replay_dlq_internal toy sidecar request).0.collector.errors_total
      ≡ 0 + errors_in toy (replay_dlq_internal toy sidecar request).2)
    × ((replay_dlq_internal toy sidecar request).0.collector.dlq_replayed
        ≡ 0
          + counted toy
              (replay_dlq_internal toy sidecar request).2
              (replay_dlq_internal toy sidecar request).1)
    × (length (replay_dlq_internal toy sidecar request).1.entry_ids
        ≡ (replay_dlq_internal toy sidecar request).1.replayed)
replay_dlq_internal-Told_example = replay_dlq_internal-Told toy sidecar request

replay_dlq_internal-all_example :
    Goes toy
      (with_defaults (trimmed_replay request))
      sidecar.cfg
      (order ∷ [])
      1
      (replay_dlq_internal toy sidecar request).0.world
      (replay_dlq_internal toy sidecar request).1.entry_ids
      (replay_dlq_internal toy sidecar request).1.skipped
    × ((replay_dlq_internal toy sidecar request).1.replayed
        ≡ length (replay_dlq_internal toy sidecar request).1.entry_ids)
replay_dlq_internal-all_example =
    replay_dlq_internal-all toy sidecar request (order ∷ []) (unfold trim_space is_space in refl)
      refl (unfold replay_dlq_internal trim_space is_space in refl)

-- A client that answers differently what a replay never sends.
abbrev odd : Redis ℕ
odd = record toy {
  xadd = λ n args. if is_empty args.stream then (n, some (other "x")) else toy.xadd n args;
  xrange_n = λ n stream start stop limit.
      if ltb_ℤ (pos 1000) limit then (n, ok []) else toy.xrange_n n stream start stop limit;
}

few : (n : ℤ) → n ≤ℤ pos 1000 → ltb_ℤ (pos 1000) n ≡ false
few n h = ground arith

odd-Agree : Agree cfg (trimmed_replay request) toy odd
odd-Agree = record {
  on_range = λ w start stop n e lo hi. rw (few n hi) refl;
  on_add = λ w args e allowed m. rw e refl;
  on_delete = λ w id d. refl;
  on_now = λ w. refl;
}

replay_dlq_internal-Agree_example :
    replay_dlq_internal toy sidecar request ≡ replay_dlq_internal odd sidecar request
replay_dlq_internal-Agree_example = replay_dlq_internal-Agree toy odd sidecar request odd-Agree

replay_values-field_example :
    field "event_type" (replay_values "t" "events:dlq" order)
    ≡ expected "t" "events:dlq" order "event_type"
replay_values-field_example = replay_values-field "t" "events:dlq" order "event_type"

abbrev pending : Pending
pending = record { id = "1-0"; idle = pos 9; retry_count = pos 5 }

replay-move_example :
    (field "event_type" (replay_values "u" "events:dlq" (dead "7-0" "t" "events" "g" order pending))
      ≡ field "event_type" order.values)
    × (target_of "" (dead "7-0" "t" "events" "g" order pending) ≡ "events")
replay-move_example =
    replay-move "7-0" "t" "u" "events" "g" "events:dlq" "event_type" order pending
      (unfold field in (refl, (refl, (refl, tt)))) (unfold has_prefix in refl)
      (unfold field in refl) (unfold trim_space is_space in refl)
