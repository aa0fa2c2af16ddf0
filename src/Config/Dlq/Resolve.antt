-- ===== src/Config/Dlq/Resolve.antt =====
-- What the policies of the dead-letter streams hold, and which one a stream gets.
use Prim.Native.String.{String, ◌++◌ as append_text}
use text.Mathlib.Text.{◌==◌}
use text.Mathlib.TextEquality.{eq_iff}
use text.Mathlib.TextLemmas.{cons-append}
use deepiri_sugar_glider.Base.{
  false, List, [], ◌∷◌, ◌≡◌, ◌⊎◌, refl, sym, ap, ◌∙◌, subst, arith, Option, none, some, Result, ok,
  err, if◌then◌else◌, Bool-cases, Option-cases, Result-cases, inl, inr,
}
use deepiri_sugar_glider.Base.Int.{ℤ, pos, ◌≤ℤ◌}
use deepiri_sugar_glider.Base.Text.{is_empty, trim_space}
use deepiri_sugar_glider.Base.Parse.{split, parse_int64}
use deepiri_sugar_glider.Env.{split_csv}
use deepiri_sugar_glider.Config.Dlq.{
  StreamDlqPolicy, Policies, PolicyError, stream_required, bad_max_retries, bad_min_idle_ms, insert,
  lookup, non_negative, require_text, target, parse_fields, parse_entry, parse_entries,
  parse_dlq_stream_policies, resolve_dlq_policy, ◌>>=◌,
}

-- What holds of the policy of every stream.
pub record IsGood (stream : String) (p : StreamDlqPolicy) : Type 0 where
  pub named : is_empty stream ≡ false
  pub retries : pos 0 ≤ℤ p.max_retries
  pub target_named : is_empty p.dlq_stream ≡ false

abbrev pub AllGood : Policies → Type 0
AllGood m = (stream : String) (p : StreamDlqPolicy) → lookup stream m ≡ some p → IsGood stream p

non_negative-le : (e : PolicyError) (o : Option ℤ) (n : ℤ) → non_negative e o ≡ ok n → pos 0 ≤ℤ n
unfolding non_negative
non_negative-le e o n h = ground arith

require_text_lem : (e : PolicyError) (s t : String) → require_text e s ≡ ok t → is_empty t ≡ false
unfolding require_text
require_text_lem e s t h = ground arith

append-not_empty : (s t : String) → is_empty s ≡ false → is_empty (append_text s t) ≡ false
append-not_empty String.[] t h = cc
append-not_empty (String.◌∷◌ c s) t h = rw cons-append refl

ok_inj : {A : Type 0} {a b : A} → ◌≡◌ {A = Result PolicyError A} (ok a) (ok b) → a ≡ b
ok_inj e = cc

target-named :
    (stream : String) (rest : List String) (t : String)
    → is_empty stream ≡ false
    → target stream rest ≡ ok t
    → is_empty t ≡ false
unfolding target
target-named stream [] t h e =
    subst (λ s. is_empty s ≡ false) (ok_inj e) (append-not_empty stream ":dlq" h)
target-named stream (d ∷ _) t h e = require_text_lem _ _ t e

bind-ok :
    {A B : Type 0} (r : Result PolicyError A) (f : A → Result PolicyError B) (b : B)
    → r >>= f ≡ ok b
    → (a : A) × (r ≡ ok a) × (f a ≡ ok b)
bind-ok (ok a) f b h = (a, refl, h)
bind-ok (err e) f b h = cc

parse_fields-IsGood :
    (a b c : String) (rest : List String) (stream : String) (p : StreamDlqPolicy)
    → parse_fields a b c rest ≡ ok (stream, p)
    → IsGood stream p
unfolding parse_fields
parse_fields-IsGood a b c rest stream p h =
    let (s, es, h₁) = bind-ok (require_text stream_required (trim_space a)) _ (stream, p) h in
    let (n, en, h₂) =
      bind-ok (non_negative bad_max_retries (parse_int64 (trim_space b))) _ (stream, p) h₁ in
    let (i, ei, h₃) =
      bind-ok (non_negative bad_min_idle_ms (parse_int64 (trim_space c))) _ (stream, p) h₂ in
    let (t, et, h₄) = bind-ok (target s rest) _ (stream, p) h₃ in
    let named = require_text_lem stream_required (trim_space a) s es in
    subst (λ (q : String × StreamDlqPolicy). IsGood q.0 q.1) (ok_inj h₄)
      (record {
        named = named;
        retries = non_negative-le bad_max_retries (parse_int64 (trim_space b)) n en;
        target_named = target-named s rest t named et;
      })

parse_entry-IsGood :
    (parts : List String) (stream : String) (p : StreamDlqPolicy)
    → parse_entry parts ≡ ok (stream, p)
    → IsGood stream p
unfolding parse_entry
parse_entry-IsGood [] stream p h = cc
parse_entry-IsGood (a ∷ []) stream p h = cc
parse_entry-IsGood (a ∷ b ∷ []) stream p h = cc
parse_entry-IsGood (a ∷ b ∷ c ∷ []) stream p h = parse_fields-IsGood a b c [] stream p h
parse_entry-IsGood (a ∷ b ∷ c ∷ d ∷ []) stream p h = parse_fields-IsGood a b c (d ∷ []) stream p h
parse_entry-IsGood (a ∷ b ∷ c ∷ d ∷ e ∷ parts) stream p h = cc

lookup-insert :
    (stream wanted : String) (policy : StreamDlqPolicy) (policies : Policies)
    → lookup wanted (insert stream policy policies)
      ≡ (if stream == wanted then some policy else lookup wanted policies)
unfolding insert lookup
lookup-insert stream wanted policy ((other, old) ∷ policies) = ground (
  arith,
  lookup-insert stream wanted policy policies,
  eq_iff other stream,
  eq_iff other wanted,
  eq_iff stream wanted,
)
lookup-insert stream wanted policy [] = refl

some_inj : {a b : StreamDlqPolicy} → some a ≡ some b → a ≡ b
some_inj e = cc

insert-AllGood :
    (k : String) (v : StreamDlqPolicy) (m : Policies)
    → IsGood k v
    → AllGood m
    → AllGood (insert k v m)
insert-AllGood k v m g h stream p e = elim (Bool-cases (k == stream)) [
  | inl f ↦
      subst (λ (q : String × StreamDlqPolicy). IsGood q.0 q.1)
        (ap (λ s. (s, v)) ((eq_iff k stream).0 f)
          ∙ ap (λ w. (stream, w)) (some_inj (sym (lookup-insert k stream v m ∙ rw f refl) ∙ e)))
        g
  | inr f ↦ h stream p (sym (lookup-insert k stream v m ∙ rw f refl) ∙ e)
]

parse_entries-AllGood :
    (out : Policies) (entries : List String) (m : Policies)
    → AllGood out
    → parse_entries out entries ≡ ok m
    → AllGood m
unfolding parse_entries
parse_entries-AllGood out [] m g h = subst AllGood (ok_inj h) g
parse_entries-AllGood out (entry ∷ entries) m g h =
    elim (Result-cases (parse_entry (split entry b':'))) [
      | inl (e, f) ↦ cc (rw (f, parse_entries) at h)
      | inr ((stream, p), f) ↦
          parse_entries-AllGood (insert stream p out) entries m
            (insert-AllGood stream p out (parse_entry-IsGood (split entry b':') stream p f) g)
            (rw (f, parse_entries) at h)
    ]

no_policies-AllGood : AllGood []
unfolding lookup
no_policies-AllGood stream p h = cc

-- The policy that a stream gets is one that was written for it, in which the stream and its target have names
-- and the retries are not negative, or it is made of the defaults, with the stream's name and ":dlq" as the
-- target; the policies are those that ParseDLQStreamPolicies read.
pub resolve_dlq_policy-cases :
    (raw : String) (m : Policies) (max_retries min_idle : ℤ) (stream : String)
    → parse_dlq_stream_policies raw ≡ ok m
    → ((lookup stream m ≡ some (resolve_dlq_policy m max_retries min_idle stream))
        × IsGood stream (resolve_dlq_policy m max_retries min_idle stream))
      ⊎ ((lookup stream m ≡ none)
          × (resolve_dlq_policy m max_retries min_idle stream ≡ record {
            max_retries = max_retries;
            min_idle = min_idle;
            dlq_stream = append_text stream ":dlq";
          }))
unfolding resolve_dlq_policy parse_dlq_stream_policies
resolve_dlq_policy-cases raw m max_retries min_idle stream h =
    elim (Option-cases (lookup stream m)) [
      | inl e ↦ rw (e, resolve_dlq_policy) (inr (refl, refl))
      | inr (p, e) ↦ rw (e, resolve_dlq_policy) (inl (refl, good p e))
    ]
  where
    all_good : AllGood m
    all_good = elim (Bool-cases (is_empty (trim_space raw))) [
      | inl f ↦ subst AllGood (ok_inj (rw f at h)) no_policies-AllGood
      | inr f ↦ parse_entries-AllGood [] (split_csv (trim_space raw)) m no_policies-AllGood (
          subst (λ b. (if b then ok [] else parse_entries [] (split_csv (trim_space raw))) ≡ ok m) f
            h)
    ]

    good : (p : StreamDlqPolicy) → lookup stream m ≡ some p → IsGood stream p
    good p e = all_good stream p e
