-- ===== src/Config/Dlq.antt =====
-- internal/config/dlq_policy.go: the policies of the dead-letter streams.
pub mod Resolve
use Prim.Native.String.{String, ◌++◌ as append_text}
use text.Mathlib.Text.{◌==◌}
use deepiri_sugar_glider.Base.{List, [], ◌∷◌, Option, none, some, Result, ok, err, if◌then◌else◌}
use deepiri_sugar_glider.Base.Int.{ℤ, pos, ltb_ℤ}
use deepiri_sugar_glider.Base.Text.{is_empty, trim_space}
use deepiri_sugar_glider.Base.Parse.{split, parse_int64}
use deepiri_sugar_glider.Env.{split_csv, millisecond}

pub record StreamDlqPolicy : Type 0 where
  pub max_retries : ℤ
  pub min_idle : ℤ
  pub dlq_stream : String

abbrev pub Policies : Type 0
Policies = List (String × StreamDlqPolicy)

-- out[stream] = policy
unfoldable pub insert : String → StreamDlqPolicy → Policies → Policies
insert stream policy [] = (stream, policy) ∷ []
insert stream policy ((other, old) ∷ policies) =
    let rest = insert stream policy policies in
    if other == stream then (stream, policy) ∷ policies else (other, old) ∷ rest

unfoldable pub lookup : String → Policies → Option StreamDlqPolicy
lookup stream [] = none
lookup stream ((other, policy) ∷ policies) =
    let rest = lookup stream policies in if other == stream then some policy else rest

-- The kinds of error of a policy entry.
pub data PolicyError : Type 0 where
  bad_format stream_required bad_max_retries bad_min_idle_ms dlq_stream_empty : PolicyError

non_negative : PolicyError → Option ℤ → Result PolicyError ℤ
non_negative e none = err e
non_negative e (some n) = if ltb_ℤ n (pos 0) then err e else ok n

infixl 5 ◌>>=◌
abbrev ◌>>=◌ : {E A B : Type 0} → Result E A → (A → Result E B) → Result E B
ok a >>= f = f a
err e >>= f = err e

require_text : PolicyError → String → Result PolicyError String
require_text e s = if is_empty s then err e else ok s

-- The dlq_stream of an entry: the fourth part, if there is one.
target : String → List String → Result PolicyError String
unfolding require_text trim_space
target stream [] = ok (append_text stream ":dlq")
target stream (d ∷ _) = require_text dlq_stream_empty (trim_space d)

parse_fields :
    String → String → String → List String → Result PolicyError (String × StreamDlqPolicy)
unfolding require_text non_negative target trim_space parse_int64 millisecond
parse_fields stream_raw retries_raw idle_raw rest = do
  stream ← require_text stream_required (trim_space stream_raw)
  max_retries ← non_negative bad_max_retries (parse_int64 (trim_space retries_raw))
  min_idle_ms ← non_negative bad_min_idle_ms (parse_int64 (trim_space idle_raw))
  dlq_stream ← target stream rest
  ok (
    stream,
    record {
      max_retries = max_retries;
      min_idle = millisecond min_idle_ms;
      dlq_stream = dlq_stream;
    },
  )

-- An entry has three parts or four.
parse_entry : List String → Result PolicyError (String × StreamDlqPolicy)
unfolding parse_fields
parse_entry (a ∷ b ∷ c ∷ []) = parse_fields a b c []
parse_entry (a ∷ b ∷ c ∷ d ∷ []) = parse_fields a b c (d ∷ [])
parse_entry _ = err bad_format

parse_entries : Policies → List String → Result PolicyError Policies
unfolding parse_entry split insert
parse_entries out [] = ok out
parse_entries out (entry ∷ entries) = elim (parse_entry (split entry b':')) [
  | err e ↦ err e
  | ok (stream, policy) ↦ parse_entries (insert stream policy out) entries
]

unfoldable pub parse_dlq_stream_policies : String → Result PolicyError Policies
unfolding parse_entries split_csv trim_space
parse_dlq_stream_policies raw =
    let trimmed = trim_space raw in
    if is_empty trimmed then ok [] else parse_entries [] (split_csv trimmed)

-- The two defaults of Config that ResolveDLQPolicy reads are arguments.
unfoldable pub resolve_dlq_policy : Policies → ℤ → ℤ → String → StreamDlqPolicy
unfolding lookup
resolve_dlq_policy policies max_retries min_idle stream = elim (lookup stream policies) [
  | some policy ↦ policy
  | none ↦ record {
    max_retries = max_retries;
    min_idle = min_idle;
    dlq_stream = append_text stream ":dlq";
  }
]
