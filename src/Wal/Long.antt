-- ===== src/Wal/Long.antt =====
-- Long lines, for the runs in which a line does not fit the buffer of a scan.
use Prim.Native.Char.{Char}
use Prim.Native.String.{String, len, ◌++◌ as append_text}
use text.Mathlib.TextLemmas as T
use text.Mathlib.TextPositions.{len-append}
use deepiri_sugar_glider.Base.{
  ℕ, zero, suc, ◌≤◌, ◌^◌, true, false, [], ◌∷◌, ◌≡◌, refl, ap, ◌∙◌, arith,
}
use deepiri_sugar_glider.Base.Text.{is_empty, is_space, trim_left, trim_right, trim_space}
use deepiri_sugar_glider.Wal.Scan.{scan, raw_lines, is_newline, IsOneLine}
use deepiri_sugar_glider.Wal.Restart.{scan_lines-too_long}
use native.Mathlib.Nat.{pow-suc}
use deepiri_sugar_glider.Wal.Lines.{IsKept, is_empty-append}

-- 2 ^ n copies of a text.
pub doubled : ℕ → String → String
doubled zero s = s
doubled (suc n) s = let half = doubled n s in append_text half half

-- No white space in the text.
abbrev IsSolid : String → Type 0
IsSolid String.[] = Unit
IsSolid (String.◌∷◌ c s) = (is_space c ≡ false) × IsSolid s

IsSolid-append : (s t : String) → IsSolid s → IsSolid t → IsSolid (append_text s t)
IsSolid-append String.[] t a b = rw T.nil-append b
IsSolid-append (String.◌∷◌ c s) t a b = rw T.cons-append (a.0, IsSolid-append s t a.1 b)

doubled-IsSolid : (n : ℕ) (s : String) → IsSolid s → IsSolid (doubled n s)
unfolding doubled
doubled-IsSolid zero s h = h
doubled-IsSolid (suc n) s h = IsSolid-append _ _ (doubled-IsSolid n s h) (doubled-IsSolid n s h)

pub len-doubled : (n : ℕ) → len (doubled n "a") ≡ 2 ^ n
unfolding doubled
len-doubled zero = refl
len-doubled (suc n) = rw len-append (omega (arith, len-doubled n, pow-suc 2 n))

solid_newline : (c : Char) → is_space c ≡ false → is_newline c ≡ false
unfolding is_space
solid_newline c h = ground arith

solid-IsOneLine : (s : String) → IsSolid s → IsOneLine s
solid-IsOneLine String.[] h = tt
solid-IsOneLine (String.◌∷◌ c s) h = (solid_newline c h.0, solid-IsOneLine s h.1)

solid_right : (s : String) → IsSolid s → trim_right s ≡ s
unfolding trim_right
solid_right String.[] h = refl
solid_right (String.◌∷◌ c s) h = rw h.0 (ap (String.◌∷◌ c) (solid_right s h.1))

solid_left : (s : String) → IsSolid s → trim_left s ≡ s
unfolding trim_left
solid_left String.[] h = refl
solid_left (String.◌∷◌ c s) h = rw h.0

not_empty : (n : ℕ) → is_empty (doubled n "a") ≡ false
unfolding doubled
not_empty zero = refl
not_empty (suc n) = is_empty-append _ _ (not_empty n)

solid : (n : ℕ) → IsSolid (doubled n "a")
unfolding is_space
solid n = doubled-IsSolid n "a" (refl, tt)

pub doubled-IsKept : (n : ℕ) → IsKept (doubled n "a")
doubled-IsKept n = record {
  one_line = solid-IsOneLine _ (solid n);
  trimmed = unfold trim_space in (ap trim_left (solid_right _ (solid n)) ∙ solid_left _ (solid n));
  some_text = not_empty n;
}

raw_lines-one : (s : String) → IsOneLine s → is_empty s ≡ false → raw_lines s ≡ s ∷ []
unfolding raw_lines
raw_lines-one String.[] h e = cc
raw_lines-one (String.◌∷◌ c String.[]) h e = rw h.0
raw_lines-one (String.◌∷◌ c (String.◌∷◌ d s)) h e =
    rw (h.0, raw_lines-one (String.◌∷◌ d s) h.1 refl)

pub scan-doubled : (limit n : ℕ) → limit ≤ 2 ^ n → (scan limit (doubled n "a")).too_long ≡ true
unfolding scan
scan-doubled limit n h =
    rw (raw_lines-one _ (doubled-IsKept n).one_line (doubled-IsKept n).some_text)
      (scan_lines-too_long limit [] [] (doubled n "a") (rw len-doubled h))
