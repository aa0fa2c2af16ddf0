-- ===== src/Wal/Replay.antt =====
-- Log.Replay and Log.rewrite of internal/wal/wal.go.
pub mod Depth
pub mod Order
pub mod Drain
pub mod Blocked
use Prim.Native.String.{String, ◌++◌ as append_text}
use deepiri_sugar_glider.Base.{
  ℕ, suc, Bool, true, false, ◌&&◌, Option, none, some, List, [], ◌∷◌, ◌++◌, ◌==◌, if◌then◌else◌,
  GoError,
}
use deepiri_sugar_glider.Base.Int.{ℤ, pos, ltb_ℤ, leb_ℤ, ◌-ℤ◌}
use deepiri_sugar_glider.Base.Text.{is_empty, trim_space}
use deepiri_sugar_glider.RedisStreams.{PublishRequest}
use deepiri_sugar_glider.Wal.{
  Json, WalError, io_failed, token_too_long, negative_max_entries, Fs, write_to, remove_from,
  content, open_create, Faults, Log,
}
use deepiri_sugar_glider.Wal.Scan.{scan, replay_limit}

-- What Replay keeps between the lines of its loop; `world` is what its callback acts on.
pub record Pass {ℓ} (W : Type ℓ) : Type ℓ where
  pub replayed : ℕ
  pub remaining : List String
  pub processing : Bool
  pub world : W

abbrev pub Callback {ℓ} : Type ℓ → Type ℓ
Callback W = W → PublishRequest → W × Option GoError

module _ {ℓ} {W : Type ℓ} (json : Json) (max : ℤ) (publish : Callback W) where
  keep : Pass W → String → Bool → W → Pass W
  keep p line go w = record p { remaining = p.remaining ++ line ∷ []; processing = go; world = w }

  delivered : Pass W → String → W × Option GoError → Pass W
  unfolding keep
  delivered p line (w, none) = record p { replayed = suc p.replayed; world = w }
  delivered p line (w, some _) = keep p line false w

  process_line : Pass W → String → Pass W
  unfolding keep delivered
  process_line p line =
      if p.processing
      then if leb_ℤ max (pos p.replayed)
        then keep p line false p.world
        else elim (json.unmarshal line) [
          | none ↦ keep p line true p.world
          | some entry ↦ delivered p line (publish p.world entry.request)
        ]
      else keep p line false p.world

  replay_line : Pass W → String → Pass W
  unfolding process_line
  replay_line p token =
      let line = trim_space token in if is_empty line then p else process_line p line

  unfoldable pub replay_lines : Pass W → List String → Pass W
  unfolding replay_line
  replay_lines p [] = p
  replay_lines p (token ∷ tokens) = replay_lines (replay_line p token) tokens

-- strings.Join with a newline, and one more newline if the text is not empty.
unfoldable pub join_lines : List String → String
join_lines [] = ""
join_lines (l ∷ []) = l
join_lines (l ∷ m ∷ ls) = append_text l (append_text "\n" (join_lines (m ∷ ls)))

unfoldable pub rewritten : List String → String
unfolding join_lines
rewritten lines =
    let text = join_lines lines in if is_empty text then text else append_text text "\n"

pub tmp_path : Log → String
tmp_path l = append_text l.path ".tmp"

-- The new content reaches the log by a rename, or not at all.
unfoldable pub rewrite : Log → Fs → Faults → List String → Fs × Option WalError
unfolding rewritten tmp_path write_to remove_from
rewrite l fs faults lines = elim faults.write_tmp [
  | some part ↦ (write_to fs (tmp_path l) part, some io_failed)
  | none ↦
      let staged = write_to fs (tmp_path l) (rewritten lines) in
      if faults.rename
      then (staged, some io_failed)
      else (write_to (remove_from staged (tmp_path l)) l.path (rewritten lines), none)
]

-- What Replay leaves behind and returns.
pub record Replayed {ℓ} (W : Type ℓ) : Type ℓ where
  pub log : Log
  pub fs : Fs
  pub world : W
  pub count : ℕ
  pub error : Option WalError

abbrev is_zero : ℤ → Bool
is_zero n = leb_ℤ n (pos 0) && leb_ℤ (pos 0) n

is_nil : List String → Bool
is_nil [] = true
is_nil (_ ∷ _) = false

module _ {ℓ} {W : Type ℓ} where
  settle : Log → Pass W → Fs × Option WalError → Replayed W
  settle l p (fs, some e) = record {
    log = l;
    fs = fs;
    world = p.world;
    count = p.replayed;
    error = some e;
  }
  settle l p (fs, none) = record {
    log = record l { depth = l.depth -ℤ pos p.replayed };
    fs = fs;
    world = p.world;
    count = p.replayed;
    error = none;
  }

  finish : Log → Fs → Faults → Bool → Pass W → Replayed W
  unfolding rewrite settle is_nil ◌-ℤ◌
  finish l fs faults too_long p =
      if too_long
      then record {
        log = l;
        fs = fs;
        world = p.world;
        count = p.replayed;
        error = some token_too_long;
      }
      else if p.replayed == 0 && is_nil p.remaining
      then record { log = l; fs = fs; world = p.world; count = 0; error = none }
      else settle l p (rewrite l fs faults p.remaining)

  abbrev start : W → Pass W
  start w = record { replayed = 0; remaining = []; processing = true; world = w }

  unfoldable pub replay : Json → Log → Fs → Faults → ℤ → Callback W → W → Replayed W
  unfolding open_create replay_lines finish
  replay json l fs faults max publish w =
      if is_zero max
      then record { log = l; fs = fs; world = w; count = 0; error = none }
      else if ltb_ℤ max (pos 0)
      then record { log = l; fs = fs; world = w; count = 0; error = some negative_max_entries }
      else if faults.open_file
      then record { log = l; fs = fs; world = w; count = 0; error = some io_failed }
      else let lines = scan replay_limit (content fs l.path) in
        finish l (open_create fs l.path) faults lines.too_long
          (replay_lines json max publish (start w) lines.tokens)
