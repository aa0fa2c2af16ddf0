-- ===== src/Base/Text.antt =====
-- Go strings, as the native texts, and the functions of package strings that the program calls.
-- A length is a number of bytes of UTF-8, as in Go.
use Prim.Native.Char.{Char, code}
use Prim.Native.String.{String}
use text.Mathlib.TextLemmas.{nil≢cons, tail-eq_of_cons-eq}
use deepiri_sugar_glider.Base.{
  ◌≡◌, refl, Bool, true, false, ◌&&◌, ◌||◌, ap, sym, ◌∙◌, arith, leb, ◌==◌, if◌then◌else◌,
  Bool-cases, inl, inr,
}

abbrev pub is_empty : String → Bool
is_empty String.[] = true
is_empty (String.◌∷◌ c s) = false

-- unicode.IsSpace
unfoldable pub is_space : Char → Bool
is_space c =
    leb 9 (code c) && leb (code c) 13
    || code c == 32
    || code c == 0x85
    || code c == 0xA0
    || code c == 0x1680
    || leb 0x2000 (code c) && leb (code c) 0x200a
    || code c == 0x2028
    || code c == 0x2029
    || code c == 0x202f
    || code c == 0x205f
    || code c == 0x3000

unfoldable pub trim_left : String → String
trim_left String.[] = String.[]
trim_left (String.◌∷◌ c s) = if is_space c then trim_left s else String.◌∷◌ c s

unfoldable pub trim_right : String → String
trim_right String.[] = String.[]
trim_right (String.◌∷◌ c s) =
    let r = trim_right s in if is_space c && is_empty r then String.[] else String.◌∷◌ c r

-- strings.TrimSpace
unfoldable pub trim_space : String → String
unfolding trim_left trim_right
trim_space s = trim_left (trim_right s)

trim_space_runs : trim_space " a b\n" ≡ "a b"
unfolding trim_space is_space
trim_space_runs = refl

trim_left_idem : (s : String) → trim_left (trim_left s) ≡ trim_left s
unfolding trim_left
trim_left_idem String.[] = refl
trim_left_idem (String.◌∷◌ c s) = ground (arith, trim_left_idem s)

trim_right-tail :
    (c : Char) (s : String) → trim_right (String.◌∷◌ c s) ≡ String.◌∷◌ c s → trim_right s ≡ s
unfolding trim_right
trim_right-tail c s h = elim (Bool-cases (is_space c && is_empty (trim_right s))) [
  | inl t ↦ absurd (nil≢cons (rw t at h))
  | inr t ↦ tail-eq_of_cons-eq (rw t at h)
]

trim_right-trim_left : (s : String) → trim_right s ≡ s → trim_right (trim_left s) ≡ trim_left s
unfolding trim_left
trim_right-trim_left String.[] h = h
trim_right-trim_left (String.◌∷◌ c s) h =
    ground (arith, trim_right-trim_left s (trim_right-tail c s h))

trim_right_idem : (s : String) → trim_right (trim_right s) ≡ trim_right s
unfolding trim_right
trim_right_idem String.[] = refl
trim_right_idem (String.◌∷◌ c s) = ground (arith, trim_right_idem s)

pub trim_space_idem : (s : String) → trim_space (trim_space s) ≡ trim_space s
unfolding trim_space
trim_space_idem s =
    ap trim_left (trim_right-trim_left (trim_right s) (trim_right_idem s))
    ∙ trim_left_idem (trim_right s)

-- A text that trimming leaves alone ends in no white space.
pub trim_space-right : (s : String) → trim_space s ≡ s → trim_right s ≡ s
unfolding trim_space
trim_space-right s h =
    ap trim_right (sym h) ∙ trim_right-trim_left (trim_right s) (trim_right_idem s) ∙ h
