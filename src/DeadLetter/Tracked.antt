-- ===== src/DeadLetter/Tracked.antt =====
-- trackedStreamsForDLQ of internal/service/service.go.
use Prim.Native.String.{String, compare}
use Prim.Native.Nat.{Ordering}
use text.Mathlib.Text.{◌==◌ as str_eq}
use text.Mathlib.TextEquality.{eq_iff}
use deepiri_sugar_glider.Base.{
  ◌≡◌, refl, ap, ◌∙◌, arith, Bool, true, false, ◌||◌, List, [], ◌∷◌, if◌then◌else◌, inl, inr,
  Bool-cases,
}
use deepiri_sugar_glider.Base.Text.{is_empty, trim_space}
use deepiri_sugar_glider.Config.{Config}
use deepiri_sugar_glider.Consume.{is_key, add_key}
use deepiri_sugar_glider.Consume.Cache.{is_key-add_key}
use deepiri_sugar_glider.DeadLetter.{
  place, insert_sorted, sort_strings, see_all, tracked_streams_for_dlq,
}

-- A name that one of the settings has, trimmed.
unfoldable pub is_named : String → List String → Bool
unfolding trim_space
is_named k [] = false
is_named k (stream ∷ streams) =
    let rest = is_named k streams in
    let trimmed = trim_space stream in
    if is_empty trimmed then rest else if str_eq trimmed k then true else rest

abbrev pub IsDistinct : List String → Type 0
IsDistinct [] = Unit
IsDistinct (x ∷ xs) = (is_key x xs ≡ false) × IsDistinct xs

is_key-place :
    (o : Ordering) (k x y : String) (ys rest : List String)
    → is_key k rest ≡ (if str_eq x k then true else is_key k ys)
    → is_key k (place o x y ys rest) ≡ (if str_eq x k then true else is_key k (y ∷ ys))
unfolding place is_key
is_key-place Ordering.lt k x y ys rest h = refl
is_key-place Ordering.eq k x y ys rest h = refl
is_key-place Ordering.gt k x y ys rest h = ground (arith, h)

is_key-insert_sorted :
    (k x : String) (ys : List String)
    → is_key k (insert_sorted x ys) ≡ (if str_eq x k then true else is_key k ys)
unfolding insert_sorted is_key
is_key-insert_sorted k x [] = refl
is_key-insert_sorted k x (y ∷ ys) =
    is_key-place (compare x y) k x y ys (insert_sorted x ys) (is_key-insert_sorted k x ys)

is_key-sort_strings : (k : String) (xs : List String) → is_key k (sort_strings xs) ≡ is_key k xs
unfolding sort_strings is_key
is_key-sort_strings k [] = refl
is_key-sort_strings k (x ∷ xs) =
    is_key-insert_sorted k x (sort_strings xs) ∙ rw (is_key-sort_strings k xs) refl

place-IsDistinct :
    (o : Ordering) (x y : String) (ys rest : List String)
    → is_key x (y ∷ ys) ≡ false
    → is_key y rest ≡ false
    → IsDistinct (y ∷ ys)
    → IsDistinct rest
    → IsDistinct (place o x y ys rest)
unfolding place
place-IsDistinct Ordering.lt x y ys rest h k d e = (h, d)
place-IsDistinct Ordering.eq x y ys rest h k d e = (h, d)
place-IsDistinct Ordering.gt x y ys rest h k d e = (k, e)

true-false : true ≡ false → ⊥
true-false z = cc

-- What it means that a name is not in a list with a head.
not_key :
    (x y : String) (ys : List String)
    → is_key x (y ∷ ys) ≡ false
    → (str_eq x y ≡ false) × (is_key x ys ≡ false)
unfolding is_key
not_key x y ys h = elim (Bool-cases (str_eq y x)) [
  | inl e ↦ absurd (true-false (rw e at h))
  | inr e ↦ (ground (arith, eq_iff x y, eq_iff y x), rw e at h)
]

insert_sorted-IsDistinct :
    (x : String) (ys : List String)
    → is_key x ys ≡ false
    → IsDistinct ys
    → IsDistinct (insert_sorted x ys)
unfolding insert_sorted
insert_sorted-IsDistinct x [] h d = (h, tt)
insert_sorted-IsDistinct x (y ∷ ys) h (n, d) =
    let (e, k) = not_key x y ys h in
    place-IsDistinct (compare x y) x y ys (insert_sorted x ys) h
      (is_key-insert_sorted y x ys ∙ rw (e, n) refl) (n, d) (insert_sorted-IsDistinct x ys k d)

sort_strings-IsDistinct : (xs : List String) → IsDistinct xs → IsDistinct (sort_strings xs)
unfolding sort_strings
sort_strings-IsDistinct [] d = tt
sort_strings-IsDistinct (x ∷ xs) (n, d) =
    insert_sorted-IsDistinct x (sort_strings xs) (is_key-sort_strings x xs ∙ n)
      (sort_strings-IsDistinct xs d)

add_key-IsDistinct : (k : String) (ks : List String) → IsDistinct ks → IsDistinct (add_key k ks)
unfolding add_key
add_key-IsDistinct k ks d = elim (Bool-cases (is_key k ks)) [ inl e ↦ rw e d | inr e ↦ rw e (e, d) ]

is_key-see_all :
    (k : String) (streams seen : List String)
    → is_key k (see_all streams seen) ≡ (is_named k streams || is_key k seen)
unfolding see_all is_named
is_key-see_all k [] seen = refl
is_key-see_all k (stream ∷ streams) seen = elim (Bool-cases (is_empty (trim_space stream))) [
  | inl e ↦ rw e (is_key-see_all k streams seen)
  | inr e ↦ rw e (
      is_key-see_all k streams (add_key (trim_space stream) seen)
      ∙ rw (is_key-add_key k (trim_space stream) seen)
          (shuffle (is_named k streams) (str_eq (trim_space stream) k) (is_key k seen)))
]
  where
    shuffle : (a b c : Bool) → (a || (if b then true else c)) ≡ ((if b then true else a) || c)
    shuffle true true c = refl
    shuffle true false c = refl
    shuffle false b c = ground arith

see_all-IsDistinct :
    (streams seen : List String) → IsDistinct seen → IsDistinct (see_all streams seen)
unfolding see_all
see_all-IsDistinct [] seen d = d
see_all-IsDistinct (stream ∷ streams) seen d = elim (Bool-cases (is_empty (trim_space stream))) [
  | inl e ↦ rw e (see_all-IsDistinct streams seen d)
  | inr e ↦ rw e (
      see_all-IsDistinct streams (add_key (trim_space stream) seen)
        (add_key-IsDistinct (trim_space stream) seen d))
]

-- The streams to scan are the trimmed names, those that are not empty, of the streams that the configuration
-- lists for consuming or publishing, each once.
pub tracked_streams_for_dlq-exact :
    (cfg : Config) (k : String)
    → (is_key k (tracked_streams_for_dlq cfg)
        ≡ (is_named k cfg.publish_streams || is_named k cfg.consume_streams))
      × IsDistinct (tracked_streams_for_dlq cfg)
unfolding tracked_streams_for_dlq
tracked_streams_for_dlq-exact cfg k =
    let seen = see_all cfg.consume_streams [] in
    let all = see_all cfg.publish_streams seen in
    (
      is_key-sort_strings k all
          ∙ is_key-see_all k cfg.publish_streams seen
          ∙ ap (λ b. is_named k cfg.publish_streams || b)
              (is_key-see_all k cfg.consume_streams [] ∙ or_false (is_named k cfg.consume_streams)),
      sort_strings-IsDistinct all (
          see_all-IsDistinct cfg.publish_streams seen
            (see_all-IsDistinct cfg.consume_streams [] tt)),
    )
  where
    or_false : (b : Bool) → (b || false) ≡ b
    or_false true = refl
    or_false false = refl
