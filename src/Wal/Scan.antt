-- ===== src/Wal/Scan.antt =====
-- bufio.Scanner over the lines of a text, as internal/wal/wal.go uses it.
use Prim.Native.Char.{Char, char, code}
use Prim.Native.String.{String, len, ◌++◌ as append}
use text.Mathlib.TextLemmas.{cons-append, nil-append}
use deepiri_sugar_glider.Base.{
  ℕ, ◌*◌, Bool, true, false, ◌&&◌, List, [], ◌∷◌, ◌++◌, ◌≡◌, refl, ap, ◌∙◌, arith, leb, ◌==◌,
  if◌then◌else◌, Bool-cases, inl, inr,
}
use deepiri_sugar_glider.Base.Text.{is_empty, is_space, trim_left, trim_right, trim_space}

abbrev pub is_newline : Char → Bool
is_newline c = code c == 10

unfoldable pub add_to_first : Char → List String → List String
add_to_first c [] = String.◌∷◌ c String.[] ∷ []
add_to_first c (l ∷ ls) = String.◌∷◌ c l ∷ ls

-- The lines of a text, without their newlines; the last one may lack its newline.
unfoldable pub raw_lines : String → List String
unfolding add_to_first
raw_lines String.[] = []
raw_lines (String.◌∷◌ c s) =
    let rest = raw_lines s in if is_newline c then String.[] ∷ rest else add_to_first c rest

-- dropCR of package bufio
unfoldable pub drop_cr : String → String
drop_cr String.[] = String.[]
drop_cr (String.◌∷◌ c s) =
    if code c == 13 && is_empty s then String.[] else String.◌∷◌ c (drop_cr s)

pub record Scanned : Type 0 where
  pub tokens : List String
  pub too_long : Bool

unfoldable pub scan_lines : ℕ → List String → Scanned
scan_lines limit [] = record { tokens = []; too_long = false }
scan_lines limit (l ∷ ls) =
    let rest = scan_lines limit ls in
    if leb limit (len l)
    then record { tokens = []; too_long = true }
    else record { tokens = drop_cr l ∷ rest.tokens; too_long = rest.too_long }

-- A line is read if it and its newline fit a buffer of `limit` bytes. The first one that does not
-- ends the scan with bufio.ErrTooLong.
unfoldable pub scan : ℕ → String → Scanned
unfolding raw_lines drop_cr scan_lines
scan limit content = scan_lines limit (raw_lines content)

-- bufio.MaxScanTokenSize, the buffer of a scanner that is given none.
abbrev pub default_limit : ℕ
default_limit = 64 * 1024

-- The buffer of the scanner in Replay.
abbrev pub replay_limit : ℕ
replay_limit = 4 * 1024 * 1024

scan_crlf : scan 4 "ab\r\n\nabc" ≡ record { tokens = "ab" ∷ "" ∷ "abc" ∷ []; too_long = false }
unfolding scan
scan_crlf = refl

scan_too_long : scan 3 "ab\nabc\n" ≡ record { tokens = "ab" ∷ []; too_long = true }
unfolding scan
scan_too_long = refl

abbrev is_blank : String → Bool
is_blank l = is_empty (trim_space l)

-- Every text is empty or ends with a newline.
abbrev pub IsTerminated : String → Type 0
IsTerminated String.[] = Unit
IsTerminated (String.◌∷◌ c String.[]) = is_newline c ≡ true
IsTerminated (String.◌∷◌ c (String.◌∷◌ d s)) = IsTerminated (String.◌∷◌ d s)

-- No newline in the text.
abbrev pub IsOneLine : String → Type 0
IsOneLine String.[] = Unit
IsOneLine (String.◌∷◌ c s) = (is_newline c ≡ false) × IsOneLine s

abbrev newline : Char
newline = char 10 tt

append-newline : (rest : String) → append "\n" rest ≡ String.◌∷◌ newline rest
append-newline rest = cons-append newline String.[] rest ∙ ap (String.◌∷◌ newline) (nil-append rest)

-- A newline closes a line.
pub raw_lines-line :
    (l rest : String) → IsOneLine l → raw_lines (append l (append "\n" rest)) ≡ l ∷ raw_lines rest
unfolding raw_lines
raw_lines-line String.[] rest h = rw (nil-append, append-newline)
raw_lines-line (String.◌∷◌ c l) rest h = rw (cons-append, raw_lines-line l rest h.1) (ground arith)

add_to_first-append :
    (c d : Char) (s : String) (ls : List String)
    → add_to_first c (raw_lines (String.◌∷◌ d s) ++ ls)
      ≡ add_to_first c (raw_lines (String.◌∷◌ d s)) ++ ls
unfolding raw_lines
add_to_first-append c d s ls = ground arith

raw_lines_step :
    (c : Char) (s : String)
    → raw_lines (String.◌∷◌ c s)
      ≡ (if is_newline c then String.[] ∷ raw_lines s else add_to_first c (raw_lines s))
unfolding raw_lines
raw_lines_step c s = refl

regroup :
    (b : Bool) (c : Char) (xs ls : List String)
    → add_to_first c (xs ++ ls) ≡ add_to_first c xs ++ ls
    → (if b then String.[] ∷ (xs ++ ls) else add_to_first c (xs ++ ls))
      ≡ (if b then String.[] ∷ xs else add_to_first c xs) ++ ls
regroup true c xs ls h = refl
regroup false c xs ls h = h

-- A text that ends with a newline can be read before what follows it.
pub raw_lines-append :
    (s t : String) → IsTerminated s → raw_lines (append s t) ≡ raw_lines s ++ raw_lines t
raw_lines-append String.[] t h = unfold raw_lines in rw nil-append
raw_lines-append (String.◌∷◌ c String.[]) t h =
    unfold raw_lines in rw (cons-append, nil-append) (ground arith)
raw_lines-append (String.◌∷◌ c (String.◌∷◌ d s)) t h =
    rw
      (
        cons-append,
        raw_lines_step c (append (String.◌∷◌ d s) t),
        raw_lines-append (String.◌∷◌ d s) t h,
      )
      (rw (raw_lines_step c (String.◌∷◌ d s))
        (regroup (is_newline c) c _ (raw_lines t) (add_to_first-append c d s (raw_lines t))))

keep_head :
    (b : Bool) (c : Char) (t s : String)
    → trim_right t ≡ trim_right s
    → trim_right (if b && false then String.[] else String.◌∷◌ c t) ≡ trim_right (String.◌∷◌ c s)
unfolding trim_right
keep_head true c t s h = rw h
keep_head false c t s h = rw h

is_space_cr : (c : Char) → (code c == 13) ≡ true → is_space c ≡ true
unfolding is_space
is_space_cr c h = ground arith

trim_right-drop_cr : (s : String) → trim_right (drop_cr s) ≡ trim_right s
unfolding drop_cr trim_right
trim_right-drop_cr String.[] = refl
trim_right-drop_cr (String.◌∷◌ c String.[]) = elim (Bool-cases (code c == 13)) [
  | inl t ↦ rw (t, is_space_cr c t)
  | inr t ↦ rw t
]
trim_right-drop_cr (String.◌∷◌ c (String.◌∷◌ d s)) =
    keep_head (code c == 13) c _ (String.◌∷◌ d s) (trim_right-drop_cr (String.◌∷◌ d s))

-- Trimming takes a carriage return too.
pub trim_space-drop_cr : (s : String) → trim_space (drop_cr s) ≡ trim_space s
unfolding trim_space
trim_space-drop_cr s = ap trim_left (trim_right-drop_cr s)
