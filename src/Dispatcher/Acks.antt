-- ===== src/Dispatcher/Acks.antt =====
-- The chunks of an acknowledgement: chunkStringSlice of internal/service/dispatcher.go and
-- clampInt64ToInt of internal/service/intconv.go, on a machine whose int has 64 bits.
use deepiri_sugar_glider.Base.{
  ℕ, suc, zero, ◌+◌, ◌-◌, ◌/◌, ◌≤◌, ◌^◌, ◌≡◌, refl, ap, ◌∙◌, arith, Option, none, some, List, [],
  ◌∷◌, ◌++◌, leb, if◌then◌else◌, le→leb, length, take, drop, All, take-append-drop, length-take,
  length-drop,
}
use deepiri_sugar_glider.Base.Int.{ℤ, pos, negsuc, ltb_ℤ}

abbrev pub max_int : ℕ
max_int = 2 ^ 63 - 1

-- negsuc max_int is -2 ^ 63.
unfoldable pub clamp_int64_to_int : ℤ → ℤ
clamp_int64_to_int value =
    if ltb_ℤ (pos max_int) value
    then pos max_int
    else if ltb_ℤ value (negsuc max_int)
    then negsuc max_int
    else value

unfoldable pub safe_chunk_size : ℤ → ℕ
unfolding clamp_int64_to_int
safe_chunk_size size = at_least_one (clamp_int64_to_int size)
  where
    at_least_one : ℤ → ℕ
    at_least_one (pos (suc n)) = suc n
    at_least_one _ = 1

-- The capacity given to make, (length + size - 1) / size on an int; make panics if it is negative.
unfoldable pub capacity : ℕ → ℕ → Option ℕ
capacity length size =
    let total = length + size - 1 in
    if leb total max_int
    then some (total / size)
    else if leb size (2 ^ 64 - total)
    then none
    else some 0

pub safe_positive : (n : ℤ) → 1 ≤ safe_chunk_size n
unfolding safe_chunk_size
safe_positive n = ground arith

capacity-some : (l n : ℕ) → l + n ≤ 2 ^ 63 → capacity l n ≡ some ((l + n - 1) / n)
unfolding capacity
capacity-some l n h = rw (le→leb (l + n - 1) max_int (omega (arith, h))) refl

module _ {A : Type 0} where
  -- The loop; a step takes one item or more, so the fuel is the number of items.
  unfoldable pub chunk_loop : ℕ → ℕ → List A → List (List A)
  chunk_loop zero size items = []
  chunk_loop (suc fuel) size [] = []
  chunk_loop (suc fuel) size (x ∷ xs) =
      take size (x ∷ xs) ∷ chunk_loop fuel size (drop size (x ∷ xs))

  -- `none` is a panic.
  unfoldable pub chunk_string_slice : List A → ℤ → Option (List (List A))
  unfolding safe_chunk_size capacity chunk_loop
  chunk_string_slice items chunk_size =
      let size = safe_chunk_size chunk_size in
      elim (capacity (length items) size) [
        | none ↦ none
        | some _ ↦ some (chunk_loop (length items) size items)
      ]

  unfoldable pub concat : List (List A) → List A
  concat [] = []
  concat (xs ∷ xss) = xs ++ concat xss

  pub chunk_loop-concat :
      (fuel size : ℕ) (items : List A)
      → length items ≤ fuel
      → 1 ≤ size
      → concat (chunk_loop fuel size items) ≡ items
  unfolding chunk_loop concat
  chunk_loop-concat zero size [] h k = refl
  chunk_loop-concat zero size (x ∷ xs) h k = absurd (omega (arith, h))
  chunk_loop-concat (suc fuel) size [] h k = refl
  chunk_loop-concat (suc fuel) size (x ∷ xs) h k =
      ap (λ ys. take size (x ∷ xs) ++ ys)
        (chunk_loop-concat fuel size (drop size (x ∷ xs))
          (omega (arith, h, k, length-drop size (x ∷ xs))) k)
      ∙ take-append-drop size (x ∷ xs)

  abbrev pub Sized : ℕ → List A → Type 0
  Sized size chunk = (1 ≤ length chunk) × (length chunk ≤ size)

  pub chunk_loop-Sized :
      (fuel size : ℕ) (items : List A) → 1 ≤ size → All (Sized size) (chunk_loop fuel size items)
  unfolding chunk_loop
  chunk_loop-Sized zero size items k = tt
  chunk_loop-Sized (suc fuel) size [] k = tt
  chunk_loop-Sized (suc fuel) size (x ∷ xs) k = (
    (omega (arith, k, length-take size (x ∷ xs)), omega (arith, length-take size (x ∷ xs))),
    chunk_loop-Sized fuel size (drop size (x ∷ xs)) k,
  )

  -- The chunks are the items, cut in their order into lists that are not empty and not above the size; the
  -- number of items and the size add up to at most 2 ^ 63, without which the capacity overflows.
  pub chunk_string_slice-concat :
      (items : List A) (chunk_size : ℤ)
      → length items + safe_chunk_size chunk_size ≤ 2 ^ 63
      → (chunks : List (List A)) × (chunk_string_slice items chunk_size ≡ some chunks)
        × (concat chunks ≡ items)
        × All (Sized (safe_chunk_size chunk_size)) chunks
  unfolding chunk_string_slice
  chunk_string_slice-concat items chunk_size h =
      let size = safe_chunk_size chunk_size in
      (
        chunk_loop (length items) size items,
        rw (capacity-some (length items) size h, chunk_string_slice) refl,
        chunk_loop-concat (length items) size items (omega arith) (safe_positive chunk_size),
        chunk_loop-Sized (length items) size items (safe_positive chunk_size),
      )
