-- ===== src/Consume/Cache.antt =====
-- The memory of consumer groups in internal/service/consume.go: consumerGroupsEnsured and its operations.
use Prim.Native.String.{String}
use text.Mathlib.Text.{◌==◌ as str_eq}
use text.Mathlib.TextEquality.{eq_iff}
use deepiri_sugar_glider.Base.{
  ◌≡◌, refl, ap, ap₂, sym, All, ◌&&◌, ◌∙◌, arith, Bool, true, false, List, [], ◌∷◌, if◌then◌else◌,
  inl, inr, Bool-cases,
}
use deepiri_sugar_glider.Base.Text.{trim_space}
use deepiri_sugar_glider.Consume.Keys.{IsPlain, joined, joined-eq}
use deepiri_sugar_glider.Service.{Sidecar}
use deepiri_sugar_glider.Consume.{
  consumer_group_key, is_key, add_key, remove_key, is_consumer_group_ensured,
  remember_consumer_group, forget_ensured_consumer_group,
}

pub is_key-add_key :
    (j k : String) (ks : List String)
    → is_key j (add_key k ks) ≡ (if str_eq k j then true else is_key j ks)
unfolding add_key is_key
is_key-add_key j k ks = elim (Bool-cases (is_key k ks)) [
  | inr e ↦ simp e refl
  | inl e ↦ elim (Bool-cases (str_eq k j)) [
    | inr d ↦ rw (e, d) refl
    | inl d ↦ rw (e, d) (ap (λ x. is_key x ks) (sym ((eq_iff k j).0 d)) ∙ e)
  ]
]

is_key-remove_key :
    (j k : String) (ks : List String)
    → is_key j (remove_key k ks) ≡ (if str_eq k j then false else is_key j ks)
unfolding remove_key is_key
is_key-remove_key j k [] = ground arith
is_key-remove_key j k (i ∷ ks) =
    ground (arith, eq_iff i k, eq_iff i j, eq_iff k j, is_key-remove_key j k ks)

-- The operations on the memory, in any order.
pub data Op : Type 0 where
  remembers forgets : String → String → Op

-- What the memory is for: a set of groups, each by the name of its stream and its own.
abbrev pub Groups : Type 0
Groups = String → String → Bool

unfoldable pub step_groups : Op → Groups → Groups
unfolding trim_space
step_groups (remembers stream group) groups a b =
    if str_eq (trim_space stream) a && str_eq (trim_space group) b then true else groups a b
step_groups (forgets stream group) groups a b =
    if str_eq (trim_space stream) a && str_eq (trim_space group) b then false else groups a b

unfoldable pub run_groups : List Op → Groups → Groups
unfolding step_groups
run_groups [] groups = groups
run_groups (op ∷ ops) groups = run_groups ops (step_groups op groups)

-- The name of the stream has no "|".
abbrev pub HasPlain : Op → Type 0
HasPlain (remembers stream group) = IsPlain (trim_space stream)
HasPlain (forgets stream group) = IsPlain (trim_space stream)

module _ {W : Type 0} where
  unfoldable pub step : Op → Sidecar W → Sidecar W
  unfolding remember_consumer_group forget_ensured_consumer_group
  step (remembers stream group) s = remember_consumer_group s stream group
  step (forgets stream group) s = forget_ensured_consumer_group s stream group

  unfoldable pub run : List Op → Sidecar W → Sidecar W
  unfolding step
  run [] s = s
  run (op ∷ ops) s = run ops (step op s)

  -- The memory has the key of a group exactly if the group is in the set.
  abbrev Represents : Sidecar W → Groups → Type 0
  Represents s groups =
      (a b : String) → IsPlain a → is_key (joined a b) s.consumer_groups_ensured ≡ groups a b

  step-Represents :
      (op : Op) (s : Sidecar W) (groups : Groups)
      → HasPlain op
      → Represents s groups
      → Represents (step op s) (step_groups op groups)
  unfolding step step_groups remember_consumer_group forget_ensured_consumer_group
      consumer_group_key
  step-Represents (remembers stream group) s groups p h a b q =
      is_key-add_key (joined a b) (joined (trim_space stream) (trim_space group))
        s.consumer_groups_ensured
      ∙ ap₂ (λ (x y : Bool). if x then true else y)
          (joined-eq (trim_space stream) a (trim_space group) b p q) (h a b q)
  step-Represents (forgets stream group) s groups p h a b q =
      is_key-remove_key (joined a b) (joined (trim_space stream) (trim_space group))
        s.consumer_groups_ensured
      ∙ ap₂ (λ (x y : Bool). if x then false else y)
          (joined-eq (trim_space stream) a (trim_space group) b p q) (h a b q)

  run-Represents :
      (ops : List Op) (s : Sidecar W) (groups : Groups)
      → All HasPlain ops
      → Represents s groups
      → Represents (run ops s) (run_groups ops groups)
  unfolding run run_groups
  run-Represents [] s groups p h = h
  run-Represents (op ∷ ops) s groups p h =
      run-Represents ops (step op s) (step_groups op groups) p.1 (step-Represents op s groups p.0 h)

  -- The memory is a set of groups: where no name of a stream has a "|", after any sequence of operations on a
  -- memory that was empty, a group is remembered exactly if it is in the set of pairs, of the trimmed names of
  -- a stream and of a group, to which the same operations add and from which they take that pair alone.
  pub run-refines :
      (ops : List Op) (s : Sidecar W) (stream group : String)
      → s.consumer_groups_ensured ≡ []
      → All HasPlain ops
      → IsPlain (trim_space stream)
      → is_consumer_group_ensured (run ops s) stream group
        ≡ run_groups ops (λ _ _. false) (trim_space stream) (trim_space group)
  unfolding is_consumer_group_ensured consumer_group_key is_key
  run-refines ops s stream group e p q =
      run-Represents ops s (λ _ _. false) p (λ a b _. ap (is_key (joined a b)) e)
        (trim_space stream) (trim_space group) q
