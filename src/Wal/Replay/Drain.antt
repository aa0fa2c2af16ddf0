-- ===== src/Wal/Replay/Drain.antt =====
-- What a whole Replay has done to the file when it returns.
use Prim.Native.String.{String}
use deepiri_sugar_glider.Base.{
  ℕ, ◌+◌, Bool, true, false, List, [], ◌∷◌, ◌++◌, ◌≡◌, refl, sym, ap, ◌∙◌, subst, arith, length,
  All, inl, inr, Bool-cases, Option, none, some, length-append, ◌&&◌, ◌==◌,
}
use deepiri_sugar_glider.Base.Int.{ℤ, pos, ltb_ℤ}
use deepiri_sugar_glider.Wal.{Json, WalError, Fs, content, open_create, Faults, Log, no_faults}
use deepiri_sugar_glider.Wal.Scan.{scan, scan_lines, raw_lines, replay_limit, trim_space-drop_cr}
use deepiri_sugar_glider.Wal.Lines.{IsKept, raw_lines-rewritten, scan-IsOneLine}
use deepiri_sugar_glider.Wal.Replay.{
  Pass, Callback, replay_lines, rewritten, Replayed, settle, finish, replay, start, is_zero, is_nil,
}
use deepiri_sugar_glider.Wal.Replay.Depth.{replay_lines-Takes, rewrite_works, open_create-content}
use deepiri_sugar_glider.Wal.Replay.Order.{
  trimmed_lines, Interleave, neither, to_left, to_right, Delivers, nothing, Ending, enough, Outcome,
  replay_lines-Outcome,
}

trimmed_lines-scan_lines :
    (limit : ℕ) (ls : List String)
    → (scan_lines limit ls).too_long ≡ false
    → trimmed_lines (scan_lines limit ls).tokens ≡ trimmed_lines ls
unfolding scan_lines trimmed_lines
trimmed_lines-scan_lines limit [] h = refl
trimmed_lines-scan_lines limit (l ∷ ls) h =
    ground (arith, trimmed_lines-scan_lines limit ls, trim_space-drop_cr l)

trimmed_lines-scan :
    (limit : ℕ) (s : String)
    → (scan limit s).too_long ≡ false
    → trimmed_lines (scan limit s).tokens ≡ trimmed_lines (raw_lines s)
unfolding scan
trimmed_lines-scan limit s = trimmed_lines-scan_lines limit (raw_lines s)

trimmed_lines-IsKept : (ls : List String) → All IsKept ls → trimmed_lines ls ≡ ls
unfolding trimmed_lines
trimmed_lines-IsKept [] h = refl
trimmed_lines-IsKept (l ∷ ls) (k, h) =
    rw (k.trimmed, k.some_text) (ap (◌∷◌ l) (trimmed_lines-IsKept ls h))

length-Interleave :
    {A : Type 0} {xs ds rs : List A} → Interleave xs ds rs → length xs ≡ length ds + length rs
length-Interleave neither = omega arith
length-Interleave (to_left m) = omega (arith, length-Interleave m)
length-Interleave (to_right m) = omega (arith, length-Interleave m)

-- The entries that are in the file: its lines that are not blank.
abbrev pub entries : Fs → Log → List String
entries fs l = trimmed_lines (raw_lines (content fs l.path))

is_nil-nil : (ls : List String) → is_nil ls ≡ true → ls ≡ []
unfolding is_nil
is_nil-nil [] h = refl
is_nil-nil (l ∷ ls) h = cc

module _ {W : Type 0} (json : Json) (max : ℤ) (publish : Callback W) where
  -- A first part of the entries has been gone through, in order: each of them was delivered (`done`)
  -- or could not be decoded (`bad`). The bad ones and all that comes later are in the file again.
  pub record Drained (lines : List String) (l : Log) (w : W) (r : Replayed W) : Type 0 where
    pub reached : List String
    pub done : List String
    pub bad : List String
    pub later : List String
    pub last : W
    pub split : lines ≡ reached ++ later
    pub merge : Interleave reached done bad
    pub bad_lines : All (λ line. json.unmarshal line ≡ none) bad
    pub left : entries r.fs l ≡ bad ++ later
    pub count : r.count ≡ length done
    pub delivers : Delivers json max publish w done last
    pub ending : Ending json max publish last r.count later r.world

  from_Outcome :
      (lines : List String) (l : Log) (w : W) (p : Pass W) (r : Replayed W)
      → Outcome json max publish lines (start w) p
      → r.count ≡ p.replayed
      → r.world ≡ p.world
      → entries r.fs l ≡ p.remaining
      → Drained lines l w r
  from_Outcome lines l w p r o c v e = record {
    reached = o.reached;
    done = o.done;
    bad = o.bad;
    later = o.later;
    last = o.last;
    split = o.split;
    merge = o.merge;
    bad_lines = o.bad_lines;
    left = e ∙ o.kept;
    count = omega (arith, c, o.count);
    delivers = o.delivers;
    ending = rw (c, v) o.ending;
  }

  nil_lines : (lines : List String) → length lines ≡ 0 → lines ≡ []
  nil_lines [] h = refl
  nil_lines (l ∷ ls) h = absurd (omega arith)

  -- Nothing was delivered and nothing kept: there was no entry.
  no_entries :
      (lines : List String) (w : W) (p : Pass W)
      → Outcome json max publish lines (start w) p
      → (p.replayed == 0 && is_nil p.remaining) ≡ true
      → (lines ≡ p.remaining) × (p.replayed ≡ 0)
  unfolding is_nil
  no_entries lines w p o h = (nil_lines lines no_length ∙ sym nothing_kept, none_sent)
    where
      none_sent : p.replayed ≡ 0
      none_sent = ground arith

      nothing_kept : p.remaining ≡ []
      nothing_kept = is_nil-nil p.remaining (ground arith)

      no_length : length lines ≡ 0
      no_length = omega (
        arith,
        ap length o.split,
        length-append o.reached o.later,
        length-Interleave o.merge,
        ap length o.kept,
        ap length nothing_kept,
        length-append o.bad o.later,
        o.count,
        none_sent,
      )

  settle-Drained :
      (lines : List String) (l : Log) (w : W) (p : Pass W) (r : Fs × Option WalError)
      → Outcome json max publish lines (start w) p
      → All IsKept p.remaining
      → (r.1 ≡ none → content r.0 l.path ≡ rewritten p.remaining)
      → (settle l p r).error ≡ none
      → Drained lines l w (settle l p r)
  unfolding settle
  settle-Drained lines l w p (fs, some e) o k works h = cc
  settle-Drained lines l w p (fs, none) o k works h = from_Outcome lines l w p _ o refl refl (
      ap (λ t. trimmed_lines (raw_lines t)) (works refl)
      ∙ ap trimmed_lines (raw_lines-rewritten p.remaining k)
      ∙ trimmed_lines-IsKept p.remaining k)

  finish-Drained :
      (lines : List String) (l : Log) (fs : Fs) (faults : Faults) (w : W) (too_long : Bool)
      (p : Pass W)
      → Outcome json max publish lines (start w) p
      → All IsKept p.remaining
      → (too_long ≡ false → lines ≡ entries fs l)
      → (finish l fs faults too_long p).error ≡ none
      → Drained (entries fs l) l w (finish l fs faults too_long p)
  unfolding finish
  finish-Drained lines l fs faults w true p o k c h = cc
  finish-Drained lines l fs faults w false p o k c h =
      subst (λ ls. Drained ls l w (finish l fs faults false p)) (c refl)
        (elim (Bool-cases (p.replayed == 0 && is_nil p.remaining)) [
          | inl e ↦
              let (same, zero_sent) = no_entries lines w p o e in
              simp e (from_Outcome lines l w p _ o (sym zero_sent) refl (sym (c refl) ∙ same))
          | inr e ↦ simp e (
              settle-Drained lines l w p _ o k (rewrite_works l fs faults p.remaining)
                (simp e at h))
        ])

  -- What Replay does once the file is open.
  abbrev scanned : Log → Fs → Faults → W → Replayed W
  scanned l fs faults w =
      let lines = scan replay_limit (content fs l.path) in
      finish l (open_create fs l.path) faults lines.too_long
        (replay_lines json max publish (start w) lines.tokens)

  scanned-Drained :
      (l : Log) (fs : Fs) (faults : Faults) (w : W)
      → (scanned l fs faults w).error ≡ none
      → Drained (entries fs l) l w (scanned l fs faults w)
  scanned-Drained l fs faults w h =
      subst (λ ls. Drained ls l w (scanned l fs faults w))
        (ap (λ t. trimmed_lines (raw_lines t)) (open_create-content fs l.path))
        (finish-Drained _ l (open_create fs l.path) faults w _ _
          (replay_lines-Outcome json max publish w (scan replay_limit (content fs l.path)).tokens)
          (replay_lines-Takes json max publish (start w)
            (scan replay_limit (content fs l.path)).tokens
            (scan-IsOneLine replay_limit (content fs l.path)) tt).kept
          (λ whole.
            trimmed_lines-scan replay_limit (content fs l.path) whole
            ∙ ap (λ t. trimmed_lines (raw_lines t)) (sym (open_create-content fs l.path)))
          h)

  skipped :
      (l : Log) (fs : Fs) (w : W)
      → is_zero max ≡ true
      → Drained (entries fs l) l w (record { log = l; fs = fs; world = w; count = 0; error = none })
  unfolding is_zero
  skipped l fs w z = record {
    reached = [];
    done = [];
    bad = [];
    later = entries fs l;
    last = w;
    split = refl;
    merge = neither;
    bad_lines = tt;
    left = refl;
    count = refl;
    delivers = nothing;
    ending = enough (ground arith) refl;
  }

  -- A Replay that returns no error has drained the log, whatever the callback answered.
  pub replay-Drained :
      (l : Log) (fs : Fs) (faults : Faults) (w : W)
      → (replay json l fs faults max publish w).error ≡ none
      → Drained (entries fs l) l w (replay json l fs faults max publish w)
  unfolding replay
  replay-Drained l fs faults w h = elim (Bool-cases (is_zero max)) [
    | inl z ↦ rw z (skipped l fs w z)
    | inr z ↦ rw z (elim (Bool-cases (ltb_ℤ max (pos 0))) [
      | inl g ↦ cc (rw (z, g) at h)
      | inr g ↦ rw g (elim (Bool-cases faults.open_file) [
        | inl o ↦ cc (simp (z, g, o) at h)
        | inr o ↦ simp o (scanned-Drained l fs faults w (simp (z, g, o) at h))
      ])
    ])
  ]

  finish_succeeds : (l : Log) (fs : Fs) (p : Pass W) → (finish l fs no_faults false p).error ≡ none
  unfolding finish
  finish_succeeds l fs p = elim (Bool-cases (p.replayed == 0 && is_nil p.remaining)) [
    | inl e ↦ simp e
    | inr e ↦ simp e
  ]

  replay_succeeds :
      (l : Log) (fs : Fs) (w : W)
      → ltb_ℤ max (pos 0) ≡ false
      → (scan replay_limit (content fs l.path)).too_long ≡ false
      → (replay json l fs no_faults max publish w).error ≡ none
  unfolding replay
  replay_succeeds l fs w g t = elim (Bool-cases (is_zero max)) [
    | inl z ↦ rw z
    | inr z ↦
        rw (z, g, t)
          (finish_succeeds l (open_create fs l.path) (
            replay_lines json max publish (start w) (scan replay_limit (content fs l.path)).tokens))
  ]

  -- With no fault of the file system, a limit that is not negative and no line too long for the
  -- buffer, Replay returns no error and has drained the log.
  pub replay_drains :
      (l : Log) (fs : Fs) (w : W)
      → ltb_ℤ max (pos 0) ≡ false
      → (scan replay_limit (content fs l.path)).too_long ≡ false
      → ((replay json l fs no_faults max publish w).error ≡ none)
        × Drained (entries fs l) l w (replay json l fs no_faults max publish w)
  replay_drains l fs w g t =
      (replay_succeeds l fs w g t, replay-Drained l fs no_faults w (replay_succeeds l fs w g t))
