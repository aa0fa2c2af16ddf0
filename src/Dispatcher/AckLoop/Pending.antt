-- ===== src/Dispatcher/AckLoop/Pending.antt =====
-- The set of pending ids of runAckLoop, internal/service/dispatcher.go, sorted and taken away.
use Prim.Native.String.{String}
use text.Mathlib.Text.{◌==◌ as str_eq}
use text.Mathlib.TextPositions.{eq_refl}
use deepiri_sugar_glider.Base.{
  ℕ, suc, ◌+◌, ◌≡◌, refl, ap, ◌∙◌, arith, Bool, true, ◌||◌, List, [], ◌∷◌, ◌++◌, length, All, inl,
  inr, Bool-cases, if◌then◌else◌,
}
use deepiri_sugar_glider.Dispatcher.AckLoop.{
  is_member, remove_ids, is_before, insert_text, sort_texts,
}

is_member-append :
    (x : String) (xs ys : List String) → is_member x (xs ++ ys) ≡ (is_member x xs || is_member x ys)
unfolding is_member
is_member-append x [] ys = refl
is_member-append x (y ∷ xs) ys = elim (Bool-cases (str_eq x y)) [
  | inl e ↦ rw e refl
  | inr e ↦ rw e (is_member-append x xs ys)
]

pub remove_ids-remove_ids :
    (xs ys p : List String) → remove_ids ys (remove_ids xs p) ≡ remove_ids (xs ++ ys) p
unfolding remove_ids
remove_ids-remove_ids xs ys [] = refl
remove_ids-remove_ids xs ys (x ∷ p) = elim (Bool-cases (is_member x xs)) [
  | inl e ↦ rw (is_member-append x xs ys, e) (remove_ids-remove_ids xs ys p)
  | inr e ↦
      rw (is_member-append x xs ys, e)
        (elim (Bool-cases (is_member x ys)) [
          | inl f ↦ rw f (remove_ids-remove_ids xs ys p)
          | inr f ↦ rw f (ap (◌∷◌ x) (remove_ids-remove_ids xs ys p))
        ])
]

pub remove_nothing : (p : List String) → remove_ids [] p ≡ p
unfolding remove_ids is_member
remove_nothing [] = refl
remove_nothing (x ∷ p) = ap (◌∷◌ x) (remove_nothing p)

remove_everything :
    (ids p : List String) → All (λ x. is_member x ids ≡ true) p → remove_ids ids p ≡ []
unfolding remove_ids
remove_everything ids [] h = refl
remove_everything ids (x ∷ p) h = rw h.0 (remove_everything ids p h.1)

is_member-insert_text :
    (x y : String) (ys : List String) → is_member x (insert_text y ys) ≡ is_member x (y ∷ ys)
unfolding insert_text is_member
is_member-insert_text x y [] = refl
is_member-insert_text x y (z ∷ ys) = elim (Bool-cases (is_before z y)) [
  | inr e ↦ rw e refl
  | inl e ↦ rw e (swapped (is_member-insert_text x y ys))
]
  where
    swapped :
        {b : Bool}
        → b ≡ (if str_eq x y then true else is_member x ys)
        → (if str_eq x z then true else b)
          ≡ (if str_eq x y then true else (if str_eq x z then true else is_member x ys))
    swapped h = elim (Bool-cases (str_eq x y)) [
      | inl f ↦ elim (Bool-cases (str_eq x z)) [
        | inl g ↦ rw (f, g) refl
        | inr g ↦ rw (f, g) (h ∙ rw f refl)
      ]
      | inr f ↦ elim (Bool-cases (str_eq x z)) [
        | inl g ↦ rw (f, g) refl
        | inr g ↦ rw (f, g) (h ∙ rw f refl)
      ]
    ]

pub is_member-sort_texts :
    (x : String) (xs : List String) → is_member x (sort_texts xs) ≡ is_member x xs
unfolding sort_texts is_member
is_member-sort_texts x [] = refl
is_member-sort_texts x (y ∷ xs) =
    is_member-insert_text x y (sort_texts xs)
    ∙ ap (λ b. if str_eq x y then true else b) (is_member-sort_texts x xs)

All-is_member :
    (p q : List String)
    → ((x : String) → is_member x p ≡ true → is_member x q ≡ true)
    → All (λ x. is_member x q ≡ true) p
unfolding is_member
All-is_member [] q h = tt
All-is_member (x ∷ p) q h = (h x (rw eq_refl refl), All-is_member p q (λ y k. h y (later y k)))
  where
    later :
        (y : String) → is_member y p ≡ true → (if str_eq y x then true else is_member y p) ≡ true
    later y k = elim (Bool-cases (str_eq y x)) [ inl e ↦ rw e refl | inr e ↦ rw e k ]

-- Removing the sorted ids from the ids leaves none.
pub remove_sorted : (p : List String) → remove_ids (sort_texts p) p ≡ []
remove_sorted p =
    remove_everything (sort_texts p) p
      (All-is_member p (sort_texts p) (λ x h. is_member-sort_texts x p ∙ h))

length-insert_text : (x : String) (xs : List String) → length (insert_text x xs) ≡ suc (length xs)
unfolding insert_text
length-insert_text x [] = refl
length-insert_text x (y ∷ xs) = elim (Bool-cases (is_before y x)) [
  | inl e ↦ rw e (ap suc (length-insert_text x xs))
  | inr e ↦ rw e refl
]

pub length-sort_texts : (xs : List String) → length (sort_texts xs) ≡ length xs
unfolding sort_texts
length-sort_texts [] = refl
length-sort_texts (x ∷ xs) = length-insert_text x (sort_texts xs) ∙ ap suc (length-sort_texts xs)

-- How often a text is in a list.
abbrev pub occurrences : String → List String → ℕ
occurrences x [] = 0
occurrences x (y ∷ ys) = (if str_eq x y then 1 else 0) + occurrences x ys

occurrences-insert_text :
    (x y : String) (ys : List String) → occurrences x (insert_text y ys) ≡ occurrences x (y ∷ ys)
unfolding insert_text
occurrences-insert_text x y [] = refl
occurrences-insert_text x y (z ∷ ys) = elim (Bool-cases (is_before z y)) [
  | inr e ↦ rw e refl
  | inl e ↦ rw e (omega (arith, occurrences-insert_text x y ys))
]

-- Sorting keeps each text as often as it is there.
pub occurrences-sort_texts :
    (x : String) (xs : List String) → occurrences x (sort_texts xs) ≡ occurrences x xs
unfolding sort_texts
occurrences-sort_texts x [] = refl
occurrences-sort_texts x (y ∷ xs) =
    occurrences-insert_text x y (sort_texts xs)
    ∙ ap (λ n. (if str_eq x y then 1 else 0) + n) (occurrences-sort_texts x xs)
