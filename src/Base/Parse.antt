-- ===== src/Base/Parse.antt =====
-- The functions of packages strings and strconv that read settings and identifiers.
pub mod Cut
use Prim.Native.Char.{Char, code}
use Prim.Native.String.{String}
use deepiri_sugar_glider.Base.{
  ℕ, ◌+◌, ◌-◌, ◌*◌, ◌^◌, Bool, true, false, ◌&&◌, ◌≡◌, refl, List, [], ◌∷◌, Option, none, some, leb,
  ltb, ◌==◌, if◌then◌else◌,
}
use deepiri_sugar_glider.Base.Int.{ℤ, pos, negsuc, sub_ℕ}

-- The character of the second text at the place of `c` in the first, or `c`.
translate : String → String → Char → Char
translate String.[] _ c = c
translate (String.◌∷◌ a from) String.[] c = c
translate (String.◌∷◌ a from) (String.◌∷◌ b to) c =
    if code a == code c then b else translate from to c

map_text : (Char → Char) → String → String
map_text f String.[] = String.[]
map_text f (String.◌∷◌ c s) = String.◌∷◌ (f c) (map_text f s)

-- strings.ToLower, where the result is only compared with texts in ASCII: a letter outside ASCII stays
-- as it is, unless its lower case is in ASCII (U+0130 and U+212A, the last two).
unfoldable pub to_lower : String → String
unfolding map_text translate
to_lower = map_text (translate "ABCDEFGHIJKLMNOPQRSTUVWXYZİK" "abcdefghijklmnopqrstuvwxyzik")

-- strings.ToUpper, where the result is only searched for texts in ASCII: U+0131 and U+017F, the last two,
-- have an upper case in ASCII.
unfoldable pub to_upper : String → String
unfolding map_text translate
to_upper = map_text (translate "abcdefghijklmnopqrstuvwxyzıſ" "ABCDEFGHIJKLMNOPQRSTUVWXYZIS")

add_to_first : Char → List String → List String
add_to_first c [] = String.◌∷◌ c String.[] ∷ []
add_to_first c (p ∷ ps) = String.◌∷◌ c p ∷ ps

-- strings.Split at one character
unfoldable pub split : String → ℕ → List String
unfolding add_to_first
split String.[] sep = String.[] ∷ []
split (String.◌∷◌ c s) sep =
    let rest = split s sep in if code c == sep then String.[] ∷ rest else add_to_first c rest

strip_prefix : String → String → Option String
strip_prefix String.[] s = some s
strip_prefix (String.◌∷◌ p ps) String.[] = none
strip_prefix (String.◌∷◌ p ps) (String.◌∷◌ c s) =
    let rest = strip_prefix ps s in if code p == code c then rest else none

abbrev add_before : Char → Option (String × String) → Option (String × String)
add_before c none = none
add_before c (some (before, after)) = some (String.◌∷◌ c before, after)

-- The cut at the start, if the separator is there, or a later one.
found : Option String → Option (String × String) → Option (String × String)
found (some after) later = some ("", after)
found none later = later

-- strings.Cut
unfoldable pub cut : String → String → Option (String × String)
unfolding strip_prefix found
cut String.[] sep = found (strip_prefix sep String.[]) none
cut (String.◌∷◌ c s) sep = found (strip_prefix sep (String.◌∷◌ c s)) (add_before c (cut s sep))

-- strings.Contains
unfoldable pub contains : String → String → Bool
unfolding cut
contains s sep = elim (cut s sep) [ none ↦ false | some _ ↦ true ]

-- strings.HasPrefix
unfoldable pub has_prefix : String → String → Bool
unfolding strip_prefix
has_prefix s prefix = elim (strip_prefix prefix s) [ none ↦ false | some _ ↦ true ]

digits : ℕ → String → Option ℕ
digits n String.[] = some n
digits n (String.◌∷◌ c s) =
    let rest = digits (n * 10 + (code c - 48)) s in
    if leb 48 (code c) && leb (code c) 57 then rest else none

unsigned : String → Option ℕ
unfolding digits
unsigned String.[] = none
unsigned (String.◌∷◌ c s) = digits 0 (String.◌∷◌ c s)

abbrev below : ℕ → Option ℕ → Option ℕ
below limit none = none
below limit (some n) = if ltb n limit then some n else none

-- strconv.ParseUint(s, 10, 64)
unfoldable pub parse_uint64 : String → Option ℕ
unfolding unsigned
parse_uint64 s = below (2 ^ 64) (unsigned s)

abbrev negated : Option ℕ → Option ℤ
negated none = none
negated (some n) = some (sub_ℕ 0 n)

abbrev as_pos : Option ℕ → Option ℤ
as_pos none = none
as_pos (some n) = some (pos n)

-- strconv.ParseInt(s, 10, 64)
unfoldable pub parse_int64 : String → Option ℤ
unfolding unsigned
parse_int64 String.[] = none
parse_int64 (String.◌∷◌ c s) =
    if code c == b'-'
    then negated (below (2 ^ 63 + 1) (unsigned s))
    else if code c == b'+'
    then as_pos (below (2 ^ 63) (unsigned s))
    else as_pos (below (2 ^ 63) (unsigned (String.◌∷◌ c s)))

parse_runs :
    (parse_int64 "-9223372036854775808" ≡ some (negsuc 9223372036854775807))
    × (parse_int64 "+7" ≡ some (pos 7))
    × (parse_int64 "9223372036854775808" ≡ none)
    × (parse_int64 "-" ≡ none)
    × (parse_uint64 "18446744073709551615" ≡ some 18446744073709551615)
    × (parse_uint64 "-1" ≡ none)
unfolding parse_int64 parse_uint64
parse_runs = (refl, refl, refl, refl, refl, refl)

text_runs :
    (split "a,,b" b',' ≡ "a" ∷ "" ∷ "b" ∷ [])
    × (cut "tcp://x://y" "://" ≡ some ("tcp", "x://y"))
    × (to_lower "TrUe" ≡ "true")
unfolding split cut to_lower
text_runs = (refl, refl, refl)
