-- ===== src/Consume/Keys.antt =====
-- The keys of consumer groups in internal/service/consume.go: consumerGroupKey, which joins two names.
use Prim.Native.Char.{Char, char, code}
use Prim.Native.String.{String, ◌++◌ as append_text}
use Prim.Native.String.append
use text.Mathlib.Text.{◌==◌ as str_eq}
use text.Mathlib.TextEquality.{eq_iff}
use deepiri_sugar_glider.Base.{
  ◌≡◌, refl, sym, ap, ap₂, ◌∙◌, Bool, false, ◌&&◌, ◌==◌, inl, inr, Bool-cases,
}

-- No "|" in a name.
abbrev is_bar : Char → Bool
is_bar c = code c == 124

abbrev pub IsPlain : String → Type 0
IsPlain String.[] = Unit
IsPlain (String.◌∷◌ c s) = (is_bar c ≡ false) × IsPlain s

abbrev pub joined : String → String → String
joined s t = append_text s (append_text "|" t)

abbrev bar : Char
bar = char 124 tt

joined-nil : (t : String) → joined "" t ≡ String.◌∷◌ bar t
joined-nil t =
    append.nil (append_text "|" t)
    ∙ append.cons bar String.[] t
    ∙ ap (String.◌∷◌ bar) (append.nil t)

joined-cons : (c : Char) (s t : String) → joined (String.◌∷◌ c s) t ≡ String.◌∷◌ c (joined s t)
joined-cons c s t = append.cons c s (append_text "|" t)

head_of : String → Char
head_of String.[] = bar
head_of (String.◌∷◌ c s) = c

tail_of : String → String
tail_of String.[] = String.[]
tail_of (String.◌∷◌ c s) = s

-- A cons is its head and its tail.
cons_inj : (c d : Char) (s t : String) → String.◌∷◌ c s ≡ String.◌∷◌ d t → (c ≡ d) × (s ≡ t)
unfolding head_of tail_of
cons_inj c d s t e = (ap head_of e, ap tail_of e)

-- The first name has no "|": the key gives both names back.
pub joined-inj :
    (s s' t t' : String) → IsPlain s → IsPlain s' → joined s t ≡ joined s' t' → (s ≡ s') × (t ≡ t')
joined-inj String.[] String.[] t t' p q e =
    (refl, (cons_inj bar bar t t' (sym (joined-nil t) ∙ e ∙ joined-nil t')).1)
joined-inj String.[] (String.◌∷◌ d s') t t' p q e =
    let h = (cons_inj bar d t (joined s' t') (sym (joined-nil t) ∙ e ∙ joined-cons d s' t')).0 in
    cc (ap is_bar h ∙ q.0)
joined-inj (String.◌∷◌ c s) String.[] t t' p q e =
    let h = (cons_inj c bar (joined s t) t' (sym (joined-cons c s t) ∙ e ∙ joined-nil t')).0 in
    cc (ap is_bar (sym h) ∙ p.0)
joined-inj (String.◌∷◌ c s) (String.◌∷◌ d s') t t' p q e =
    let (h, k) =
      cons_inj c d (joined s t) (joined s' t')
        (sym (joined-cons c s t) ∙ e ∙ joined-cons d s' t') in
    let (u, v) = joined-inj s s' t t' p.1 q.1 k in (ap₂ String.◌∷◌ h u, v)

-- Two keys are one exactly if the names are the same.
pub joined-eq :
    (s s' t t' : String)
    → IsPlain s
    → IsPlain s'
    → str_eq (joined s t) (joined s' t') ≡ (str_eq s s' && str_eq t t')
joined-eq s s' t t' p q = elim (Bool-cases (str_eq (joined s t) (joined s' t'))) [
  | inl e ↦
      let (u, v) = joined-inj s s' t t' p q ((eq_iff (joined s t) (joined s' t')).0 e) in
      e ∙ sym (rw ((eq_iff s s').1 u, (eq_iff t t').1 v) refl)
  | inr e ↦ e ∙ sym (apart e)
]
  where
    apart : str_eq (joined s t) (joined s' t') ≡ false → (str_eq s s' && str_eq t t') ≡ false
    apart e = elim (Bool-cases (str_eq s s')) [
      | inr f ↦ rw f refl
      | inl f ↦ elim (Bool-cases (str_eq t t')) [
        | inr g ↦ rw (f, g) refl
        | inl g ↦ cc (
          (eq_iff (joined s t) (joined s' t')).1
              (ap₂ joined ((eq_iff s s').0 f) ((eq_iff t t').0 g)),
          e,
        )
      ]
    ]
