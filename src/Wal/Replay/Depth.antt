-- ===== src/Wal/Replay/Depth.antt =====
-- The depth counter of the log over a Replay, internal/wal/wal.go.
use Prim.Native.String.{String, len, ◌++◌ as append_text}
use text.Mathlib.Text.{◌==◌ as str_eq}
use text.Mathlib.TextEquality.{eq_iff}
use text.Mathlib.TextPositions.{len-append}
use deepiri_sugar_glider.Base.{
  ℕ, ◌+◌, Bool, true, false, List, [], ◌∷◌, ◌≡◌, refl, sym, ap, ◌∙◌, arith, length, All, All-append,
  inl, inr, Bool-cases, Option-cases, Option, none, some, GoError, length-append, ◌==◌, ◌&&◌, ◌<◌,
}
use deepiri_sugar_glider.Base.Int.{ℤ, pos, leb_ℤ, ltb_ℤ, ◌-ℤ◌}
use deepiri_sugar_glider.Base.Text.{is_empty, trim_space}
use deepiri_sugar_glider.Wal.{
  Json, WalError, Fs, write_to, remove_from, content, content_of, open_create, Faults, Log,
  count_non_blank,
}
use deepiri_sugar_glider.Wal.Depth.{IsSound, write_to_self}
use deepiri_sugar_glider.Wal.Scan.{scan, raw_lines, IsOneLine, replay_limit}
use deepiri_sugar_glider.Wal.Lines.{
  IsKept, trim_space-IsKept, count-IsKept, count-scan, scan-IsOneLine, raw_lines-rewritten,
  IsTerminated-rewritten,
}
use deepiri_sugar_glider.Wal.Replay.{
  Pass, Callback, keep, delivered, process_line, replay_line, replay_lines, tmp_path, rewritten,
  rewrite, settle, finish, replay, start, is_zero, is_nil,
}

-- From `p` to `q` the pass has taken `n` lines, each into `replayed` or into `remaining`.
pub record Takes {ℓ} {W : Type ℓ} (n : ℕ) (p q : Pass W) : Type 0 where
  pub kept : All IsKept q.remaining
  pub total : q.replayed + length q.remaining ≡ n + (p.replayed + length p.remaining)

module _ {ℓ} {W : Type ℓ} (json : Json) (max : ℤ) (publish : Callback W) where
  keep-Takes :
      (p : Pass W) (line : String) (go : Bool) (w : W)
      → IsKept line
      → All IsKept p.remaining
      → Takes 1 p (keep json max publish p line go w)
  unfolding keep
  keep-Takes p line go w k h = record {
    kept = All-append IsKept p.remaining (line ∷ []) h (k, tt);
    total = omega (arith, length-append p.remaining (line ∷ []));
  }

  delivered-Takes :
      (p : Pass W) (line : String) (r : W × Option GoError)
      → IsKept line
      → All IsKept p.remaining
      → Takes 1 p (delivered json max publish p line r)
  unfolding delivered
  delivered-Takes p line (w, none) k h = record { kept = h; total = omega arith }
  delivered-Takes p line (w, some e) k h = keep-Takes p line false w k h

  process_line-Takes :
      (p : Pass W) (line : String)
      → IsKept line
      → All IsKept p.remaining
      → Takes 1 p (process_line json max publish p line)
  unfolding process_line
  process_line-Takes p line k h = elim (Bool-cases p.processing) [
    | inr e ↦ simp e (keep-Takes p line false p.world k h)
    | inl e ↦ simp e (elim (Bool-cases (leb_ℤ max (pos p.replayed))) [
      | inl m ↦ rw m (keep-Takes p line false p.world k h)
      | inr m ↦ rw m (elim (Option-cases (json.unmarshal line)) [
        | inl u ↦ rw u (keep-Takes p line true p.world k h)
        | inr (entry, u) ↦ rw u (delivered-Takes p line (publish p.world entry.request) k h)
      ])
    ])
  ]

  pub replay_lines-Takes :
      (p : Pass W) (tokens : List String)
      → All IsOneLine tokens
      → All IsKept p.remaining
      → Takes (count_non_blank tokens) p (replay_lines json max publish p tokens)
  unfolding replay_lines replay_line count_non_blank
  replay_lines-Takes p [] o h = record { kept = h; total = omega arith }
  replay_lines-Takes p (t ∷ ts) o h = elim (Bool-cases (is_empty (trim_space t))) [
    | inl e ↦ rw e (replay_lines-Takes p ts o.1 h)
    | inr e ↦
        let one = process_line-Takes p (trim_space t) (trim_space-IsKept t o.0 e) h in
        let rest =
          replay_lines-Takes (process_line json max publish p (trim_space t)) ts o.1 one.kept in
        rw e (record { kept = rest.kept; total = omega (arith, one.total, rest.total) })
  ]

IsSound-content :
    (l : Log) (fs gs : Fs) → content gs l.path ≡ content fs l.path → IsSound l fs → IsSound l gs
IsSound-content l fs gs e s = record { terminated = rw e s.terminated; counted = rw e s.counted }

write_to-other : (fs : Fs) (path t p : String) → str_eq path p ≡ false → write_to fs path t p ≡ fs p
unfolding write_to
write_to-other fs path t p h = rw h

longer : (s t : String) → 0 < len t → str_eq (append_text s t) s ≡ false
longer s t h = elim (Bool-cases (str_eq (append_text s t) s)) [
  | inl e ↦ absurd (omega (arith, len-append s t, ap len ((eq_iff (append_text s t) s).0 e)))
  | inr e ↦ e
]

tmp_path-other : (l : Log) → str_eq (tmp_path l) l.path ≡ false
unfolding tmp_path
tmp_path-other l = longer l.path ".tmp" (omega arith)

pub open_create-content :
    (fs : Fs) (path : String) → content (open_create fs path) path ≡ content fs path
unfolding open_create
open_create-content fs path = ap content_of (write_to_self fs path (content fs path))

-- A rewrite that fails leaves the log's file as it was.
pub rewrite_fails :
    (l : Log) (fs : Fs) (faults : Faults) (lines : List String) (e : WalError)
    → (rewrite l fs faults lines).1 ≡ some e
    → content (rewrite l fs faults lines).0 l.path ≡ content fs l.path
unfolding rewrite
rewrite_fails l fs faults lines e h = elim (Option-cases faults.write_tmp) [
  | inr (part, w) ↦
      rw w (ap content_of (write_to-other fs (tmp_path l) part l.path (tmp_path-other l)))
  | inl w ↦ elim (Bool-cases faults.rename) [
    | inl r ↦
        rw (w, r)
          (ap content_of
            (write_to-other fs (tmp_path l) (rewritten lines) l.path (tmp_path-other l)))
    | inr r ↦ cc (rw (w, r) at h)
  ]
]

pub rewrite_works :
    (l : Log) (fs : Fs) (faults : Faults) (lines : List String)
    → (rewrite l fs faults lines).1 ≡ none
    → content (rewrite l fs faults lines).0 l.path ≡ rewritten lines
unfolding rewrite
rewrite_works l fs faults lines h = elim (Option-cases faults.write_tmp) [
  | inr (part, w) ↦ cc (rw w at h)
  | inl w ↦ elim (Bool-cases faults.rename) [
    | inl r ↦ cc (rw (w, r) at h)
    | inr r ↦
        rw (w, r)
          (ap content_of (
            write_to_self (remove_from (write_to fs (tmp_path l) (rewritten lines)) (tmp_path l))
              l.path (rewritten lines)))
  ]
]

minus_replayed : (d : ℤ) (n r m : ℕ) → d ≡ pos n → r + m ≡ n → d -ℤ pos r ≡ pos m
unfolding ◌-ℤ◌
minus_replayed d n r m h e = ground arith

module _ {ℓ} {W : Type ℓ} (l : Log) (fs : Fs) (faults : Faults) where
  settle-IsSound :
      (n : ℕ) (w : W) (p : Pass W)
      → Takes n (start w) p
      → n ≡ count_non_blank (raw_lines (content fs l.path))
      → IsSound l fs
      → (r : Fs × Option WalError)
      → ((e : WalError) → r.1 ≡ some e → content r.0 l.path ≡ content fs l.path)
      → (r.1 ≡ none → content r.0 l.path ≡ rewritten p.remaining)
      → IsSound (settle l p r).log (settle l p r).fs
  unfolding settle
  settle-IsSound n w p t c s (gs, some e) fails works = IsSound-content l fs gs (fails e refl) s
  settle-IsSound n w p t c s (gs, none) fails works = record {
    terminated = rw (works refl) (IsTerminated-rewritten p.remaining);
    counted =
        rw (works refl, raw_lines-rewritten p.remaining t.kept, count-IsKept p.remaining t.kept)
          (minus_replayed l.depth n p.replayed (length p.remaining) (s.counted ∙ ap pos (sym c))
            (omega (arith, t.total)));
  }

  finish-IsSound :
      (n : ℕ) (w : W) (too_long : Bool) (p : Pass W)
      → Takes n (start w) p
      → (too_long ≡ false → n ≡ count_non_blank (raw_lines (content fs l.path)))
      → IsSound l fs
      → IsSound (finish l fs faults too_long p).log (finish l fs faults too_long p).fs
  unfolding finish
  finish-IsSound n w true p t c s = s
  finish-IsSound n w false p t c s = elim (Bool-cases (p.replayed == 0 && is_nil p.remaining)) [
    | inl e ↦ simp e s
    | inr e ↦ simp e (
        settle-IsSound n w p t (c refl) s (rewrite l fs faults p.remaining)
          (rewrite_fails l fs faults p.remaining) (rewrite_works l fs faults p.remaining))
  ]

scanned-IsSound {ℓ} :
    {W : Type ℓ} (json : Json) (l : Log) (fs : Fs) (faults : Faults) (max : ℤ)
    (publish : Callback W) (w : W)
    → IsSound l fs
    → let lines = scan replay_limit (content fs l.path) in
      let r =
        finish l
          (open_create fs l.path)
          faults
          lines.too_long
          (replay_lines json max publish (start w) lines.tokens) in
      IsSound r.log r.fs
scanned-IsSound json l fs faults max publish w s =
    finish-IsSound l (open_create fs l.path) faults _ w _ _
      (replay_lines-Takes json max publish (start w) (scan replay_limit (content fs l.path)).tokens
        (scan-IsOneLine replay_limit (content fs l.path)) tt)
      (λ whole.
        count-scan replay_limit (content fs l.path) whole
        ∙ ap (λ t. count_non_blank (raw_lines t)) (sym (open_create-content fs l.path)))
      (IsSound-content l fs (open_create fs l.path) (open_create-content fs l.path) s)

-- Whatever the callback does and whichever system calls fail, Replay leaves a counter exact that was so.
pub replay-IsSound {ℓ} :
    {W : Type ℓ} (json : Json) (l : Log) (fs : Fs) (faults : Faults) (max : ℤ)
    (publish : Callback W) (w : W)
    → IsSound l fs
    → IsSound (replay json l fs faults max publish w).log (replay json l fs faults max publish w).fs
unfolding replay
replay-IsSound json l fs faults max publish w s = elim (Bool-cases (is_zero max)) [
  | inl z ↦ rw z s
  | inr z ↦ rw z (elim (Bool-cases (ltb_ℤ max (pos 0))) [
    | inl g ↦ rw g s
    | inr g ↦ rw g (elim (Bool-cases faults.open_file) [
      | inl o ↦ simp o s
      | inr o ↦ simp o (scanned-IsSound json l fs faults max publish w s)
    ])
  ])
]
