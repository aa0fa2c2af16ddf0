-- ===== src/Base/Parse/Cut.antt =====
-- The parts of strings.Cut put together again.
use Prim.Native.Char.{Char, code}
use Prim.Native.String.{String, ◌++◌ as append_text}
use Prim.Native.String.append
use text.Mathlib.TextEquality.{Char-path}
use deepiri_sugar_glider.Base.{
  ◌≡◌, ◌⊎◌, sym, ap, ◌∙◌, Option, none, some, ◌==◌, ==_iff, inl, inr, Bool-cases,
}
use deepiri_sugar_glider.Base.Parse.{strip_prefix, add_before, found, cut}

nothing : {A : Type 0} (a : A) → none ≡ some a → ⊥
nothing a z = cc

append-strip_prefix :
    (prefix s after : String) → strip_prefix prefix s ≡ some after → s ≡ append_text prefix after
unfolding strip_prefix
append-strip_prefix String.[] s after h = some_inj h ∙ sym (append.nil after)
  where
    some_inj : {a b : String} → some a ≡ some b → a ≡ b
    some_inj e = cc
append-strip_prefix (String.◌∷◌ p ps) String.[] after h = absurd (nothing after h)
append-strip_prefix (String.◌∷◌ p ps) (String.◌∷◌ c s) after h =
    elim (Bool-cases (code p == code c)) [
      | inr e ↦ absurd (nothing after (rw e at h))
      | inl e ↦
          ap (λ t. String.◌∷◌ c t) (append-strip_prefix ps s after (rw e at h))
          ∙ ap (λ d. String.◌∷◌ d (append_text ps after))
              (sym (Char-path p c ((==_iff (code p) (code c)).0 e)))
          ∙ sym (append.cons p ps after)
    ]

-- Where a cut comes from.
found-cases :
    (o : Option String) (later : Option (String × String)) (before after : String)
    → found o later ≡ some (before, after)
    → ((o ≡ some after) × ("" ≡ before)) ⊎ (later ≡ some (before, after))
unfolding found
found-cases (some rest) later before after h = inl (ap (second) h, ap first h)
  where
    second : Option (String × String) → Option String
    second none = none
    second (some (b, a)) = some a

    first : Option (String × String) → String
    first none = ""
    first (some (b, a)) = b
found-cases none later before after h = inr h

at_start :
    (s sep before after : String)
    → strip_prefix sep s ≡ some after
    → "" ≡ before
    → s ≡ append_text before (append_text sep after)
at_start s sep before after h e =
    append-strip_prefix sep s after h
    ∙ sym (append.nil (append_text sep after))
    ∙ ap (λ b. append_text b (append_text sep after)) e

before_cases :
    (c : Char) (o : Option (String × String)) (before after : String)
    → add_before c o ≡ some (before, after)
    → (b : String) × ((o ≡ some (b, after)) × (String.◌∷◌ c b ≡ before))
before_cases c none before after h = absurd (nothing (before, after) h)
before_cases c (some (b, a)) before after h = (b, (ap (λ x. some (b, x)) (ap second h), ap first h))
  where
    second : Option (String × String) → String
    second none = ""
    second (some (b, a)) = a

    first : Option (String × String) → String
    first none = ""
    first (some (b, a)) = b

-- The parts that strings.Cut returns make the text again, with the separator between them.
pub append-cut :
    (s sep before after : String)
    → cut s sep ≡ some (before, after)
    → s ≡ append_text before (append_text sep after)
unfolding cut
append-cut String.[] sep before after h =
    elim (found-cases (strip_prefix sep String.[]) none before after h) [
      | inl (e, b) ↦ at_start String.[] sep before after e b
      | inr z ↦ absurd (nothing (before, after) z)
    ]
append-cut (String.◌∷◌ c s) sep before after h =
    elim (found-cases (strip_prefix sep (String.◌∷◌ c s)) (add_before c (cut s sep)) before after
      h) [
        | inl (e, b) ↦ at_start (String.◌∷◌ c s) sep before after e b
        | inr later ↦
            let (b, (e, d)) = before_cases c (cut s sep) before after later in
            ap (λ t. String.◌∷◌ c t) (append-cut s sep b after e)
            ∙ sym (append.cons c b (append_text sep after))
            ∙ ap (λ x. append_text x (append_text sep after)) d
      ]
