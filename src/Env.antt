-- ===== src/Env.antt =====
-- internal/config/env.go, and splitCSV of internal/config/config.go: the environment is the function
-- os.Getenv, which gives "" for a name that is not set.
use Prim.Native.String.{String}
use text.Mathlib.Text.{◌==◌}
use deepiri_sugar_glider.Base.{
  ℕ, ◌+◌, ◌-◌, ◌*◌, ◌%◌, ◌^◌, Bool, true, false, ◌||◌, ◌≡◌, refl, List, [], ◌∷◌, Option, none, some,
  ltb, if◌then◌else◌,
}
use deepiri_sugar_glider.Base.Int.{ℤ, pos, negsuc}
use deepiri_sugar_glider.Base.Text.{is_empty, trim_space, is_space}
use deepiri_sugar_glider.Base.Parse.{to_lower, split, parse_int64}

abbrev pub Env : Type 0
Env = String → String

unfoldable pub get_env_dual : Env → String → String → String → String
get_env_dual env sugar_key sidecar_key fallback =
    if is_empty (env sugar_key)
    then (if is_empty (env sidecar_key) then fallback else env sidecar_key)
    else env sugar_key

abbrev pub or_else {ℓ} : {A : Type ℓ} → Option A → A → A
or_else none a = a
or_else (some b) a = b

read_int64 : String → Option ℤ
read_int64 val = if is_empty val then none else parse_int64 val

unfoldable pub get_env_int64_dual : Env → String → String → ℤ → ℤ
unfolding read_int64
get_env_int64_dual env sugar_key sidecar_key fallback =
    or_else (read_int64 (env sugar_key)) (or_else (read_int64 (env sidecar_key)) fallback)

-- The cases of the switch; no case matches the empty text.
switch_bool : String → Option Bool
switch_bool val =
    if val == "1" || val == "true" || val == "yes" || val == "on"
    then some true
    else if val == "0" || val == "false" || val == "no" || val == "off"
    then some false
    else none

read_bool : String → Option Bool
unfolding switch_bool to_lower trim_space
read_bool raw =
    let val = trim_space (to_lower raw) in if is_empty val then none else switch_bool val

unfoldable pub get_env_bool_dual : Env → String → String → Bool → Bool
unfolding read_bool
get_env_bool_dual env sugar_key sidecar_key fallback =
    or_else (read_bool (env sugar_key)) (or_else (read_bool (env sidecar_key)) fallback)

keep_trimmed : List String → List String
unfolding trim_space
keep_trimmed [] = []
keep_trimmed (p ∷ ps) =
    let rest = keep_trimmed ps in
    let trimmed = trim_space p in if is_empty trimmed then rest else trimmed ∷ rest

unfoldable pub split_csv : String → List String
unfolding keep_trimmed split
split_csv value = if is_empty value then [] else keep_trimmed (split value b',')

-- An int64 from its 64 bits.
to_int64 : ℕ → ℤ
to_int64 bits = if ltb bits (2 ^ 63) then pos bits else negsuc (2 ^ 64 - 1 - bits)

-- A product in int64, which wraps around.
wrap_int64 : ℤ → ℤ
unfolding to_int64
wrap_int64 (pos n) = to_int64 (n % 2 ^ 64)
wrap_int64 (negsuc n) = to_int64 (2 ^ 64 - 1 - n % 2 ^ 64)

scale : ℤ → ℕ → ℤ
scale (pos n) k = pos (n * k)
scale (negsuc n) k = negsuc ((n + 1) * k - 1)

-- time.Duration(ms) * time.Millisecond, in nanoseconds
unfoldable pub millisecond : ℤ → ℤ
unfolding wrap_int64 scale
millisecond ms = wrap_int64 (scale ms 1000000)

millisecond_runs :
    (millisecond (pos 25) ≡ pos 25000000)
    × (millisecond (negsuc 0) ≡ negsuc 999999)
    × (millisecond (pos 18446744073710) ≡ pos 448384)
unfolding millisecond
millisecond_runs = (refl, refl, refl)

env_runs : get_env_bool_dual (λ k. if k == "A" then " ON " else "") "B" "A" false ≡ true
unfolding get_env_bool_dual is_space
env_runs = refl

split_csv_runs : split_csv " a, ,b" ≡ "a" ∷ "b" ∷ []
unfolding split_csv is_space
split_csv_runs = refl
