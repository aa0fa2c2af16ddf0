-- ===== src/Wal/Lines.antt =====
-- The lines of the log's file: what a scan returns, what Replay keeps, and what a rewrite puts down.
use Prim.Native.Char.{Char}
use Prim.Native.String.{String, len, ◌++◌ as append_text}
use text.Mathlib.TextLemmas as T
use deepiri_sugar_glider.Base.{
  ℕ, suc, false, List, [], ◌∷◌, ◌≡◌, refl, ap, ◌∙◌, arith, length, All, if◌then◌else◌, inl, inr,
  Bool-cases, leb,
}
use deepiri_sugar_glider.Base.Text.{is_empty, trim_left, trim_right, trim_space, trim_space_idem}
use deepiri_sugar_glider.Wal.{count_non_blank}
use deepiri_sugar_glider.Wal.Replay.{join_lines, rewritten}
use deepiri_sugar_glider.Wal.Scan.{
  scan, scan_lines, raw_lines, drop_cr, trim_space-drop_cr, IsOneLine, IsTerminated, raw_lines-line,
  add_to_first, is_newline,
}

trim_left-IsOneLine : (s : String) → IsOneLine s → IsOneLine (trim_left s)
unfolding trim_left
trim_left-IsOneLine String.[] h = h
trim_left-IsOneLine (String.◌∷◌ c s) h = ground (arith, trim_left-IsOneLine s)

trim_right-IsOneLine : (s : String) → IsOneLine s → IsOneLine (trim_right s)
unfolding trim_right
trim_right-IsOneLine String.[] h = h
trim_right-IsOneLine (String.◌∷◌ c s) h = ground (arith, trim_right-IsOneLine s h.1)

pub trim_space-IsOneLine : (s : String) → IsOneLine s → IsOneLine (trim_space s)
unfolding trim_space
trim_space-IsOneLine s h = trim_left-IsOneLine _ (trim_right-IsOneLine s h)

drop_cr-IsOneLine : (s : String) → IsOneLine s → IsOneLine (drop_cr s)
unfolding drop_cr
drop_cr-IsOneLine String.[] h = h
drop_cr-IsOneLine (String.◌∷◌ c s) h = ground (arith, drop_cr-IsOneLine s h.1)

add_to_first-IsOneLine :
    (c : Char) (ls : List String)
    → IsOneLine (String.◌∷◌ c String.[])
    → All IsOneLine ls
    → All IsOneLine (add_to_first c ls)
unfolding add_to_first
add_to_first-IsOneLine c [] h a = (h, tt)
add_to_first-IsOneLine c (l ∷ ls) h a = ((h.0, a.0), a.1)

raw_lines-IsOneLine : (s : String) → All IsOneLine (raw_lines s)
unfolding raw_lines
raw_lines-IsOneLine String.[] = tt
raw_lines-IsOneLine (String.◌∷◌ c s) = elim (Bool-cases (is_newline c)) [
  | inl t ↦ rw t (tt, raw_lines-IsOneLine s)
  | inr t ↦ rw t (add_to_first-IsOneLine c _ (t, tt) (raw_lines-IsOneLine s))
]

scan_lines-IsOneLine :
    (limit : ℕ) (ls : List String) → All IsOneLine ls → All IsOneLine (scan_lines limit ls).tokens
unfolding scan_lines
scan_lines-IsOneLine limit [] h = tt
scan_lines-IsOneLine limit (l ∷ ls) h = elim (Bool-cases (leb limit (len l))) [
  | inl t ↦ rw t tt
  | inr t ↦ rw t (drop_cr-IsOneLine l h.0, scan_lines-IsOneLine limit ls h.1)
]

pub scan-IsOneLine : (limit : ℕ) (s : String) → All IsOneLine (scan limit s).tokens
unfolding scan
scan-IsOneLine limit s = scan_lines-IsOneLine limit _ (raw_lines-IsOneLine s)

count-scan_lines :
    (limit : ℕ) (ls : List String)
    → (scan_lines limit ls).too_long ≡ false
    → count_non_blank (scan_lines limit ls).tokens ≡ count_non_blank ls
unfolding scan_lines count_non_blank
count-scan_lines limit [] h = refl
count-scan_lines limit (l ∷ ls) h = ground (arith, count-scan_lines limit ls, trim_space-drop_cr l)

-- A scan that is not cut off counts the lines of the text.
pub count-scan :
    (limit : ℕ) (s : String)
    → (scan limit s).too_long ≡ false
    → count_non_blank (scan limit s).tokens ≡ count_non_blank (raw_lines s)
unfolding scan
count-scan limit s = count-scan_lines limit (raw_lines s)

-- A line as Replay keeps it.
pub record IsKept (l : String) : Type 0 where
  pub one_line : IsOneLine l
  pub trimmed : trim_space l ≡ l
  pub some_text : is_empty l ≡ false

pub trim_space-IsKept :
    (s : String) → IsOneLine s → is_empty (trim_space s) ≡ false → IsKept (trim_space s)
trim_space-IsKept s h e = record {
  one_line = trim_space-IsOneLine s h;
  trimmed = trim_space_idem s;
  some_text = e;
}

pub count-IsKept : (ls : List String) → All IsKept ls → count_non_blank ls ≡ length ls
unfolding count_non_blank
count-IsKept [] h = refl
count-IsKept (l ∷ ls) (k, h) = rw (k.trimmed, k.some_text) (ap suc (count-IsKept ls h))

-- Every line with a newline behind it.
closed : List String → String
closed [] = ""
closed (l ∷ ls) = append_text l (append_text "\n" (closed ls))

join_lines-closed :
    (l : String) (ls : List String) → append_text (join_lines (l ∷ ls)) "\n" ≡ closed (l ∷ ls)
unfolding join_lines closed
join_lines-closed l [] = refl
join_lines-closed l (m ∷ ls) = rw (T.append_assoc, T.append_assoc, join_lines-closed m ls)

pub is_empty-append : (s t : String) → is_empty s ≡ false → is_empty (append_text s t) ≡ false
is_empty-append String.[] t h = cc
is_empty-append (String.◌∷◌ c s) t h = rw T.cons-append

is_empty-join_lines :
    (l : String) (ls : List String) → is_empty l ≡ false → is_empty (join_lines (l ∷ ls)) ≡ false
unfolding join_lines
is_empty-join_lines l [] h = h
is_empty-join_lines l (m ∷ ls) h = is_empty-append l _ h

rewritten-closed : (ls : List String) → All IsKept ls → rewritten ls ≡ closed ls
unfolding rewritten
rewritten-closed [] h = unfold closed in refl
rewritten-closed (l ∷ ls) (k, h) =
    rw (is_empty-join_lines l ls k.some_text) (join_lines-closed l ls)

raw_lines-closed : (ls : List String) → All IsKept ls → raw_lines (closed ls) ≡ ls
unfolding closed
raw_lines-closed [] h = unfold raw_lines in refl
raw_lines-closed (l ∷ ls) (k, h) =
    raw_lines-line l (closed ls) k.one_line ∙ ap (◌∷◌ l) (raw_lines-closed ls h)

-- The rewritten log holds the lines that were kept, and nothing else.
pub raw_lines-rewritten : (ls : List String) → All IsKept ls → raw_lines (rewritten ls) ≡ ls
raw_lines-rewritten ls h = ap raw_lines (rewritten-closed ls h) ∙ raw_lines-closed ls h

pub IsTerminated-newline : (s : String) → IsTerminated (append_text s "\n")
IsTerminated-newline String.[] = refl
IsTerminated-newline (String.◌∷◌ c String.[]) = rw T.cons-append refl
IsTerminated-newline (String.◌∷◌ c (String.◌∷◌ d s)) =
    rw (T.cons-append, T.cons-append)
      (rw (T.cons-append d s "\n") at (IsTerminated-newline (String.◌∷◌ d s)))

or_newline-IsTerminated : (t : String) → IsTerminated (if is_empty t then t else append_text t "\n")
or_newline-IsTerminated String.[] = tt
or_newline-IsTerminated (String.◌∷◌ c t) = IsTerminated-newline (String.◌∷◌ c t)

pub IsTerminated-rewritten : (ls : List String) → IsTerminated (rewritten ls)
unfolding rewritten
IsTerminated-rewritten ls = or_newline-IsTerminated (join_lines ls)
