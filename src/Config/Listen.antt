-- ===== src/Config/Listen.antt =====
-- ParseListenAddress of internal/config/config.go.
use Prim.Native.String.{String, ◌++◌ as append_text}
use Prim.Native.String.append
use text.Mathlib.Text.{◌==◌ as str_eq}
use text.Mathlib.TextEquality.{eq_iff}
use deepiri_sugar_glider.Base.{
  true-false, ◌≡◌, refl, sym, ap, ◌∙◌, subst, ◌⊎◌, ◌↔◌, false, not, ◌&&◌, Option, none, some,
  if◌then◌else◌, inl, inr, Bool-cases, Result, ok, err,
}
use deepiri_sugar_glider.Base.Parse.{cut}
use deepiri_sugar_glider.Base.Parse.Cut.{append-cut}
use deepiri_sugar_glider.Base.Text.{is_empty}

pub data ListenError : Type 0 where
  bad_format : ListenError
  unsupported_network : String → ListenError
  no_address : ListenError

check_parts : Option (String × String) → Result ListenError (String × String)
check_parts none = err bad_format
check_parts (some (network, address)) =
    if not (str_eq network "tcp") && not (str_eq network "unix")
    then err (unsupported_network network)
    else if is_empty address
    then err no_address
    else ok (network, address)

-- The two parts of strings.SplitN are those of strings.Cut.
unfoldable pub parse_listen_address : String → Result ListenError (String × String)
unfolding check_parts cut
parse_listen_address value = check_parts (cut value "://")

runs :
    (parse_listen_address "unix:///a" ≡ ok ("unix", "/a"))
    × (parse_listen_address "tcp:/x" ≡ err bad_format)
    × (parse_listen_address "udp://x" ≡ err (unsupported_network "udp"))
unfolding parse_listen_address
runs = (refl, refl, refl)

-- An accepted network in front of the separator, and what is put before an address.
after_tcp :
    (address : String)
    → cut (append_text "tcp" (append_text "://" address)) "://" ≡ some ("tcp", address)
unfolding cut
after_tcp address =
    rw (append.cons, append.cons, append.cons, append.nil)
      (rw (append.cons, append.cons, append.cons, append.nil) refl)

after_unix :
    (address : String)
    → cut (append_text "unix" (append_text "://" address)) "://" ≡ some ("unix", address)
unfolding cut
after_unix address =
    rw (append.cons, append.cons, append.cons, append.cons, append.nil)
      (rw (append.cons, append.cons, append.cons, append.nil) refl)

both_parts :
    (network address : String)
    → (network ≡ "tcp") ⊎ (network ≡ "unix")
    → cut (append_text network (append_text "://" address)) "://" ≡ some (network, address)
both_parts network address (inl e) =
    subst (λ n. cut (append_text n (append_text "://" address)) "://" ≡ some (n, address)) (sym e)
      (after_tcp address)
both_parts network address (inr e) =
    subst (λ n. cut (append_text n (append_text "://" address)) "://" ≡ some (n, address)) (sym e)
      (after_unix address)

-- What the checks accept.
abbrev pub IsListenable : String → String → Type 0
IsListenable network address = ((network ≡ "tcp") ⊎ (network ≡ "unix")) × (is_empty address ≡ false)

accepts :
    (network address : String)
    → IsListenable network address
    → check_parts (some (network, address)) ≡ ok (network, address)
unfolding check_parts
accepts network address (inl e, a) = rw ((eq_iff network "tcp").1 e, a) refl
accepts network address (inr e, a) = elim (Bool-cases (str_eq network "tcp")) [
  | inl t ↦ rw (t, a) refl
  | inr f ↦ rw (f, (eq_iff network "unix").1 e, a) refl
]

err_ok : (e : ListenError) (p : String × String) → err e ≡ ok p → ⊥
err_ok e p z = cc

only :
    (o : Option (String × String)) (network address : String)
    → check_parts o ≡ ok (network, address)
    → (o ≡ some (network, address)) × IsListenable network address
unfolding check_parts
only none network address h = absurd (err_ok bad_format (network, address) h)
only (some (n, a)) network address h =
    elim (Bool-cases (not (str_eq n "tcp") && not (str_eq n "unix"))) [
      | inl bad ↦ absurd (err_ok (unsupported_network n) (network, address) (rw bad at h))
      | inr good ↦ elim (Bool-cases (is_empty a)) [
        | inl bad ↦ absurd (err_ok no_address (network, address) (rw (good, bad) at h))
        | inr named ↦
            let same = parts_of (rw (good, named) at h) in
            (ap some same, subst (λ p. IsListenable p.0 p.1) same (network_of n good, named))
      ]
    ]
  where
    as_ok : String × String → Result ListenError (String × String)
    as_ok p = ok p

    parts_of : {p q : String × String} → as_ok p ≡ as_ok q → p ≡ q
    parts_of z = cc

    network_of :
        (n : String)
        → not (str_eq n "tcp") && not (str_eq n "unix") ≡ false
        → (n ≡ "tcp") ⊎ (n ≡ "unix")
    network_of n g = elim (Bool-cases (str_eq n "tcp")) [
      | inl t ↦ inl ((eq_iff n "tcp").0 t)
      | inr f ↦ elim (Bool-cases (str_eq n "unix")) [
        | inl u ↦ inr ((eq_iff n "unix").0 u)
        | inr g' ↦ absurd (true-false (rw (f, g') at g))
      ]
    ]

-- The addresses that ParseListenAddress accepts are those of the form <network>://<address>, where the
-- network is tcp or unix and the address is not empty, and it returns these two parts.
pub parse_listen_address-exact :
    (value network address : String)
    → (parse_listen_address value ≡ ok (network, address)) ↔ (
        (value ≡ append_text network (append_text "://" address))
        × (((network ≡ "tcp") ⊎ (network ≡ "unix")) × (is_empty address ≡ false)))
unfolding parse_listen_address
parse_listen_address-exact value network address = (
  (λ h.
      let (o, l) = only (cut value "://") network address h in
      (append-cut value "://" network address o, l)),
  (λ p.
      let (v, l) = p in
      subst (λ t. check_parts (cut t "://") ≡ ok (network, address)) (sym v)
        (ap check_parts (both_parts network address l.0) ∙ accepts network address l)),
)
