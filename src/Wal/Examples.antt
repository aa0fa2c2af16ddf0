-- ===== src/Wal/Examples.antt =====
-- Runs of the log, and its theorems at concrete inputs.
use Prim.Native.String.{String, len}
use text.Mathlib.Text.{◌==◌ as str_eq}
use deepiri_sugar_glider.Base.{
  ℕ, ◌+◌, [], ◌==◌, subst, ◌≡◌, refl, arith, if◌then◌else◌, none, some, other, err,
}
use deepiri_sugar_glider.Base.Int.{pos, ◌-ℤ◌, ◌≤ℤ◌}
use deepiri_sugar_glider.Base.Text.{trim_space, is_space}
use deepiri_sugar_glider.RedisStreams.{PublishRequest}
use deepiri_sugar_glider.Wal.{
  Json, count_non_blank, resolve_wal_path, token_too_long, count_depth_failed, Fs, content,
  no_faults, Log, append, new,
}
use deepiri_sugar_glider.Wal.Scan.{scan, raw_lines}
use deepiri_sugar_glider.Wal.Depth.{IsSound, WritesLines, append-IsSound}
use deepiri_sugar_glider.Wal.Lines.{IsKept}
use deepiri_sugar_glider.Wal.Replay.{replay, replay_lines, rewritten, Callback}
use deepiri_sugar_glider.Wal.Replay.Depth.{replay-IsSound}
use deepiri_sugar_glider.Wal.Replay.Drain.{entries, Drained, replay_drains}
use deepiri_sugar_glider.Wal.Replay.Blocked.{Blocked}
use deepiri_sugar_glider.Wal.Bounds.{append-max_entries, append-max_bytes}
use deepiri_sugar_glider.Wal.Restart.{restart_depth, append_blocks_restart}
use deepiri_sugar_glider.Wal.Long.{doubled, doubled-IsKept, len-doubled}

abbrev pub request : String → PublishRequest
request body = record {
  stream = "events";
  event_type = "t";
  sender = "s";
  recipient = "";
  priority = "";
  payload = body;
  ttl_sec = pos 0;
}

-- A codec that writes every entry as `text`, and reads every line but one as a request.
abbrev pub toy_json : String → Json
toy_json text = record {
  marshal = λ _. some text;
  unmarshal = λ line.
      if str_eq line "junk"
      then none
      else some (record { time = ""; reason = ""; request = request line });
}

pub toy_json-WritesLines : (text : String) → IsKept text → WritesLines (toy_json text)
toy_json-WritesLines text k = record { kept = λ e t h. subst IsKept (some_text text t h) k }
  where
    some_text : (a b : String) → some a ≡ some b → a ≡ b
    some_text a b h = cc

pub line-IsKept : IsKept "line"
line-IsKept = record {
  one_line = (refl, (refl, (refl, (refl, tt))));
  trimmed = unfold trim_space is_space in refl;
  some_text = refl;
}

-- A callback that counts, and answers the second request with an error.
abbrev second_fails : Callback ℕ
second_fails n req = if n == 1 then (5, some (other "down")) else (n + 1, none)

abbrev pub three_lines : Fs
three_lines p = if str_eq p "wal" then some "a\njunk\nb\n" else none

abbrev pub log : Log
log = record { path = "wal"; depth = pos 3; max_entries = pos 4; max_bytes = pos 100 }

pub log-IsSound : IsSound log three_lines
log-IsSound = record {
  terminated = refl;
  counted = unfold count_non_blank raw_lines trim_space is_space in refl;
}

append-IsSound_example :
    IsSound
      (append (toy_json "line") log three_lines no_faults "t" "r" (request "x")).0
      (append (toy_json "line") log three_lines no_faults "t" "r" (request "x")).1
append-IsSound_example =
    append-IsSound (toy_json "line") log three_lines no_faults "t" "r" (request "x")
      (toy_json-WritesLines "line" line-IsKept) refl log-IsSound

replay-IsSound_example :
    IsSound
      (replay (toy_json "line") log three_lines no_faults (pos 9) second_fails 0).log
      (replay (toy_json "line") log three_lines no_faults (pos 9) second_fails 0).fs
replay-IsSound_example =
    replay-IsSound (toy_json "line") log three_lines no_faults (pos 9) second_fails 0 log-IsSound

replay_drains_example :
    ((replay (toy_json "line") log three_lines no_faults (pos 9) second_fails 0).error ≡ none)
    × Drained
        (toy_json "line")
        (pos 9)
        second_fails
        (entries three_lines log)
        log
        0
        (replay (toy_json "line") log three_lines no_faults (pos 9) second_fails 0)
replay_drains_example =
    replay_drains (toy_json "line") (pos 9) second_fails log three_lines 0 refl
      (unfold scan in refl)

-- The first entry is delivered, the second cannot be decoded and the third fails: two are left.
replay_runs :
    (replay (toy_json "line") log three_lines no_faults (pos 9) second_fails 0).log.depth ≡ pos 2
unfolding replay replay_lines scan trim_space is_space rewritten ◌-ℤ◌
replay_runs = refl

append-max_entries_example :
    (append (toy_json "line") log three_lines no_faults "t" "r" (request "x")).0.depth ≤ℤ pos 4
append-max_entries_example =
    append-max_entries (toy_json "line") log three_lines no_faults "t" "r" (request "x") refl
      (unfold append in refl)

append-max_bytes_example :
    pos (
      len (
        content (append (toy_json "line") log three_lines no_faults "t" "r" (request "x")).1 "wal"))
    ≤ℤ pos 100
append-max_bytes_example =
    append-max_bytes (toy_json "line") log three_lines no_faults "t" "r" (request "x") refl
      (unfold append in refl)

-- A file of one line of 4 MiB.
abbrev long_file : Fs
long_file p = if str_eq p "wal" then some (doubled 22 "a") else none

abbrev dir_log : Log
dir_log = record {
  path = "/w/sugar-glider.wal.jsonl";
  depth = pos 0;
  max_entries = pos 0;
  max_bytes = pos 0;
}

abbrev no_files : Fs
no_files _ = none

dir_log-IsSound : IsSound dir_log no_files
dir_log-IsSound = record { terminated = tt; counted = unfold count_non_blank raw_lines in refl }

abbrev opened_log : Log
opened_log = record dir_log { depth = pos 3 }

abbrev dir_files : Fs
dir_files p = if str_eq p "/w/sugar-glider.wal.jsonl" then some "a\njunk\nb\n" else none

restart_depth_example : pos 3 ≡ pos 3
restart_depth_example =
    restart_depth dir_files no_faults "/w" [] opened_log opened_log
      (record {
        terminated = refl;
        counted = unfold count_non_blank raw_lines trim_space is_space in refl;
      })
      (unfold new scan trim_space is_space in refl) (unfold resolve_wal_path in refl)

append_blocks_restart_example :
    (new
      (append (toy_json (doubled 16 "a")) dir_log no_files no_faults "t" "r" (request "x")).1
      no_faults
      "/w"
      []).1
    ≡ err (count_depth_failed token_too_long)
append_blocks_restart_example =
    append_blocks_restart (toy_json (doubled 16 "a")) dir_log no_files "t" "r" (doubled 16 "a") "/w"
      (request "x") [] (toy_json-WritesLines (doubled 16 "a") (doubled-IsKept 16)) dir_log-IsSound
      refl (rw len-doubled (omega arith)) (unfold append in refl)
      (unfold append resolve_wal_path in refl)
