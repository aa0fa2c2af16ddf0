-- ===== src/Wal.antt =====
-- internal/wal/wal.go: the write-ahead log. Its files are in a file system that is passed along, with
-- the system calls that fail as an argument; package encoding/json is a parameter.
pub mod Scan
pub mod Replay
mod Lines
pub mod Depth
pub mod Inversion
pub mod Restart
pub mod Bounds
mod Long
pub mod Examples
use Prim.Native.String.{String, len, ◌++◌ as append_text}
use text.Mathlib.Text.{◌==◌ as str_eq}
use deepiri_sugar_glider.Base.{
  ℕ, suc, ◌+◌, Bool, false, ◌&&◌, Option, none, some, List, [], ◌∷◌, if◌then◌else◌, Result, ok, err,
}
use deepiri_sugar_glider.Base.Int.{ℤ, pos, ltb_ℤ, leb_ℤ, ◌+ℤ◌}
use deepiri_sugar_glider.Base.Text.{is_empty, trim_space}
use deepiri_sugar_glider.RedisStreams.{PublishRequest}
use Scan.{Scanned, scan, default_limit}

pub record Entry : Type 0 where
  pub time : String
  pub reason : String
  pub request : PublishRequest

-- json.Marshal and json.Unmarshal at Entry; `none` is an error.
pub record Json : Type 0 where
  pub marshal : Entry → Option String
  pub unmarshal : String → Option Entry

pub data WalError : Type 0 where
  wal_full wal_disk_full marshal_failed io_failed token_too_long negative_max_entries : WalError
  create_dir_failed resolve_path_failed : WalError
  count_depth_failed : WalError → WalError

-- The contents of the files that exist.
abbrev pub Fs : Type 0
Fs = String → Option String

pub write_to : Fs → String → String → Fs
write_to fs path content p = if str_eq path p then some content else fs p

pub remove_from : Fs → String → Fs
remove_from fs path p = if str_eq path p then none else fs p

abbrev pub content_of : Option String → String
content_of none = ""
content_of (some content) = content

abbrev pub content : Fs → String → String
content fs path = content_of (fs path)

-- The system calls that fail during one operation. A write that fails may have written a part.
pub record Faults : Type 0 where
  pub mkdir : Bool
  pub stat : String → Bool
  pub open_file : Bool
  pub write : Option String
  pub write_tmp : Option String
  pub rename : Bool

abbrev pub no_faults : Faults
no_faults = record {
  mkdir = false;
  stat = λ _. false;
  open_file = false;
  write = none;
  write_tmp = none;
  rename = false;
}

pub record Log : Type 0 where
  pub path : String
  pub depth : ℤ
  pub max_entries : ℤ
  pub max_bytes : ℤ

pub record Options : Type 0 where
  pub max_entries : ℤ
  pub max_bytes : ℤ

-- filepath.Join at a clean directory
join_path : String → String → String
join_path dir name = append_text dir (append_text "/" name)

pub data StatResult : Type 0 where
  present missing stat_failed : StatResult

stat : Fs → Faults → String → StatResult
stat fs faults path =
    if faults.stat path then stat_failed else elim (fs path) [ none ↦ missing | some _ ↦ present ]

pub resolve_wal_path : Fs → Faults → String → Result WalError String
unfolding join_path stat
resolve_wal_path fs faults dir =
    let sugar_path = join_path dir "sugar-glider.wal.jsonl" in
    let legacy_path = join_path dir "sidecar.wal.jsonl" in
    elim (stat fs faults sugar_path) [
      | present ↦ ok sugar_path
      | stat_failed ↦ err io_failed
      | missing ↦ elim (stat fs faults legacy_path) [
        | present ↦ ok legacy_path
        | stat_failed ↦ err io_failed
        | missing ↦ ok sugar_path
      ]
    ]

-- The lines that hold more than white space.
pub count_non_blank : List String → ℕ
count_non_blank [] = 0
count_non_blank (l ∷ ls) =
    if is_empty (trim_space l) then count_non_blank ls else suc (count_non_blank ls)

-- os.O_CREATE
pub open_create : Fs → String → Fs
unfolding write_to
open_create fs path = write_to fs path (content fs path)

finish_count : Scanned → Result WalError ℕ
unfolding count_non_blank
finish_count s = if s.too_long then err token_too_long else ok (count_non_blank s.tokens)

pub count_file_lines : Fs → Faults → String → Fs × Result WalError ℕ
unfolding open_create finish_count
count_file_lines fs faults path =
    if faults.open_file
    then (fs, err io_failed)
    else (open_create fs path, finish_count (scan default_limit (content fs path)))

pub limits : List Options → Options
limits [] = record { max_entries = pos 0; max_bytes = pos 0 }
limits (o ∷ _) = o

with_depth : String → Options → Fs × Result WalError ℕ → Fs × Result WalError Log
with_depth path o (fs, err e) = (fs, err (count_depth_failed e))
with_depth path o (fs, ok n) = (
  fs,
  ok (record { path = path; depth = pos n; max_entries = o.max_entries; max_bytes = o.max_bytes }),
)

pub new : Fs → Faults → String → List Options → Fs × Result WalError Log
unfolding resolve_wal_path count_file_lines limits with_depth
new fs faults dir opts =
    if faults.mkdir then (fs, err create_dir_failed) else elim (resolve_wal_path fs faults dir) [
      | err _ ↦ (fs, err resolve_path_failed)
      | ok path ↦ with_depth path (limits opts) (count_file_lines fs faults path)
    ]

-- The result of fileSizeLocked; a file that is missing has size 0.
file_size : Log → Fs → Faults → Result WalError ℕ
unfolding stat
file_size l fs faults = elim (stat fs faults l.path) [
  | stat_failed ↦ err io_failed
  | missing ↦ ok 0
  | present ↦ ok (len (content fs l.path))
]

-- Log.Bytes
unfoldable pub bytes : Log → Fs → Faults → Result WalError ℕ
unfolding file_size
bytes l fs faults = file_size l fs faults

over_bytes : Log → Fs → Faults → String → Option WalError
unfolding file_size
over_bytes l fs faults line =
    if ltb_ℤ (pos 0) l.max_bytes
    then elim (file_size l fs faults) [
      | err e ↦ some e
      | ok size ↦ if ltb_ℤ l.max_bytes (pos (size + len line)) then some wal_disk_full else none
    ]
    else none

write_line : Log → Fs → Faults → String → Log × Fs × Option WalError
unfolding write_to ◌+ℤ◌
write_line l fs faults line =
    if faults.open_file then (l, fs, some io_failed) else elim faults.write [
      | some part ↦ (l, write_to fs l.path (append_text (content fs l.path) part), some io_failed)
      | none ↦ (
        record l { depth = l.depth +ℤ pos 1 },
        write_to fs l.path (append_text (content fs l.path) line),
        none,
      )
    ]

append_line : Log → Fs → Faults → String → Log × Fs × Option WalError
unfolding over_bytes write_line
append_line l fs faults line = elim (over_bytes l fs faults line) [
  | some e ↦ (l, fs, some e)
  | none ↦ write_line l fs faults line
]

-- `now` is the formatted time of the call.
unfoldable pub append :
    Json → Log → Fs → Faults → String → String → PublishRequest → Log × Fs × Option WalError
unfolding append_line
append json l fs faults now reason req =
    if ltb_ℤ (pos 0) l.max_entries && leb_ℤ l.max_entries l.depth
    then (l, fs, some wal_full)
    else elim (json.marshal (record { time = now; reason = reason; request = req })) [
      | none ↦ (l, fs, some marshal_failed)
      | some payload ↦ append_line l fs faults (append_text payload "\n")
    ]
