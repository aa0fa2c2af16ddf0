-- ===== src/Dispatcher/Removal.antt =====
-- Which subscribers fanOut of internal/service/dispatcher.go removes.
use deepiri_sugar_glider.Base.{
  ℕ, ◌≤◌, ◌<◌, ◌≡◌, ◌≢◌, refl, subst, sym, ◌∙◌, arith, true, false, List, [], ◌∷◌, ◌++◌, ◌==◌, inl,
  inr, Bool-cases, length, All, map, length-append,
}
use deepiri_sugar_glider.Metrics.{Collector}
use deepiri_sugar_glider.Dispatcher.{
  Subscriber, Dispatcher, is_present, delete, close_one, offer, is_excessive, offer_all, excessive,
  fan_events, count_removed, remove_all, fan_out, tail, receive_one, receive_all, first_takers,
  later_takers,
}
use deepiri_sugar_glider.Base.Count.{count}

count-after : (i : ℕ) (xs ys : List ℕ) → 1 ≤ count i ys → 1 ≤ count i (xs ++ ys)
unfolding count
count-after i [] ys h = h
count-after i (x ∷ xs) ys h = ground (arith, count-after i xs ys h)

module _ {E : Type 0} where
  -- Each subscriber that had drops below the limit and has too many of them is named for removal.
  Marked : List ℕ → Subscriber E → Type 0
  Marked remove s = 8 ≤ s.drops → 1 ≤ count s.id remove

  offer-Marked :
      (buffer : ℕ) (event : E) (s : Subscriber E) (remove : List ℕ)
      → (is_excessive buffer s ≡ true → 1 ≤ count s.id remove)
      → Marked remove (offer buffer event s)
  unfolding offer is_excessive Marked
  offer-Marked buffer event s remove h = ground arith

  -- `whole` is where the ids of the excessive subscribers are.
  offer_all-Marked :
      (buffer : ℕ) (event : E) (ss : List (Subscriber E)) (whole : List ℕ)
      → ((i : ℕ) → 1 ≤ count i (excessive buffer ss) → 1 ≤ count i whole)
      → All (Marked whole) (offer_all buffer event ss)
  unfolding offer_all excessive count
  offer_all-Marked buffer event [] whole h = tt
  offer_all-Marked buffer event (s ∷ ss) whole h = (
    offer-Marked buffer event s whole (λ e. h s.id (ground arith)),
    offer_all-Marked buffer event ss whole (λ i k. h i (ground arith)),
  )

  fan_events-Marked :
      (buffer : ℕ) (takers : List (List ℕ)) (events : List E) (ss : List (Subscriber E))
      (remove : List ℕ)
      → All (Marked remove) ss
      → let (after, named) = fan_events buffer takers events ss remove in All (Marked named) after
  unfolding fan_events
  fan_events-Marked buffer takers [] ss remove h = h
  fan_events-Marked buffer takers (event ∷ events) ss remove h =
      let ready = map (receive_all (first_takers takers)) ss in
      fan_events-Marked buffer (later_takers takers) events (offer_all buffer event ready)
        (remove ++ excessive buffer ready)
        (offer_all-Marked buffer event ready (remove ++ excessive buffer ready)
          (λ i k. count-after i remove (excessive buffer ready) k))

  module _ (P : Subscriber E → Type 0) where
    delete-All : (i : ℕ) (ss : List (Subscriber E)) → All P ss → All P (delete i ss)
    unfolding delete
    delete-All i [] h = tt
    delete-All i (s ∷ ss) h = elim (Bool-cases (s.id == i)) [
      | inl e ↦ rw e (delete-All i ss h.1)
      | inr e ↦ rw e (h.0, delete-All i ss h.1)
    ]

    close_one-All :
        (i : ℕ) (d : Dispatcher E) → All P d.subscribers → All P (close_one i d).subscribers
    unfolding close_one
    close_one-All i d h = elim (Bool-cases (is_present i d.subscribers)) [
      | inl e ↦ simp e (delete-All i d.subscribers h)
      | inr e ↦ simp e h
    ]

    remove_all-All :
        (is : List ℕ) (d : Dispatcher E) (c : Collector)
        → All P d.subscribers
        → All P (remove_all is d c).0.subscribers
    unfolding remove_all
    remove_all-All [] d c h = h
    remove_all-All (i ∷ is) d c h =
        remove_all-All is (close_one i d) (count_removed i d c) (close_one-All i d h)

    All-imp :
        (Q : Subscriber E → Type 0) (ss : List (Subscriber E))
        → ((s : Subscriber E) → P s → Q s)
        → All P ss
        → All Q ss
    All-imp Q [] f h = tt
    All-imp Q (s ∷ ss) f h = (f s h.0, All-imp Q ss f h.1)

  delete-gone : (i : ℕ) (ss : List (Subscriber E)) → All (λ s. s.id ≢ i) (delete i ss)
  unfolding delete
  delete-gone i [] = tt
  delete-gone i (s ∷ ss) = elim (Bool-cases (s.id == i)) [
    | inl e ↦ rw e (delete-gone i ss)
    | inr e ↦ rw e ((λ z. ground arith), delete-gone i ss)
  ]

  is_absent : (i : ℕ) (ss : List (Subscriber E)) → is_present i ss ≡ false → All (λ s. s.id ≢ i) ss
  unfolding is_present
  is_absent i [] h = tt
  is_absent i (s ∷ ss) h = ((λ z. ground arith), is_absent i ss (ground arith))

  close_one-gone : (i : ℕ) (d : Dispatcher E) → All (λ s. s.id ≢ i) (close_one i d).subscribers
  unfolding close_one
  close_one-gone i d = elim (Bool-cases (is_present i d.subscribers)) [
    | inl e ↦ simp e (delete-gone i d.subscribers)
    | inr e ↦ simp e (is_absent i d.subscribers e)
  ]

  remove_all-gone :
      (is : List ℕ) (d : Dispatcher E) (c : Collector)
      → All (λ s. count s.id is ≡ 0) (remove_all is d c).0.subscribers
  unfolding remove_all count
  remove_all-gone [] d c = all_of d.subscribers
    where
      all_of : (ss : List (Subscriber E)) → All (λ s. count s.id [] ≡ 0) ss
      all_of [] = tt
      all_of (s ∷ ss) = (refl, all_of ss)
  remove_all-gone (i ∷ is) d c =
      both (remove_all is (close_one i d) (count_removed i d c)).0.subscribers
        (remove_all-All (λ s. s.id ≢ i) is (close_one i d) (count_removed i d c)
          (close_one-gone i d))
        (remove_all-gone is (close_one i d) (count_removed i d c))
    where
      both :
          (ss : List (Subscriber E))
          → All (λ s. s.id ≢ i) ss
          → All (λ s. count s.id is ≡ 0) ss
          → All (λ s. count s.id (i ∷ is) ≡ 0) ss
      both [] a b = tt
      both (s ∷ ss) a b = (ground (arith, a.0, b.0), both ss a.1 b.1)

  -- A fan-out leaves no subscriber with eight drops in a row, and no channel above its size, if there were
  -- none before.
  pub record IsServed (d : Dispatcher E) : Type 0 where
    pub patient : All (λ s. s.drops < 8) d.subscribers
    pub bounded : All (λ s. length s.events ≤ d.subscriber_buffer) d.subscribers

  offer-bounded :
      (buffer : ℕ) (event : E) (s : Subscriber E)
      → length s.events ≤ buffer
      → length (offer buffer event s).events ≤ buffer
  unfolding offer
  offer-bounded buffer event s h = ground (arith, length-append s.events (event ∷ []))

  offer_all-bounded :
      (buffer : ℕ) (event : E) (ss : List (Subscriber E))
      → All (λ s. length s.events ≤ buffer) ss
      → All (λ s. length s.events ≤ buffer) (offer_all buffer event ss)
  unfolding offer_all
  offer_all-bounded buffer event [] h = tt
  offer_all-bounded buffer event (s ∷ ss) h =
      (offer-bounded buffer event s h.0, offer_all-bounded buffer event ss h.1)

  receive_one-bounded :
      (n i : ℕ) (s : Subscriber E) → length s.events ≤ n → length (receive_one i s).events ≤ n
  unfolding receive_one tail
  receive_one-bounded n i s h = ground arith

  receive_all-bounded :
      (n : ℕ) (is : List ℕ) (s : Subscriber E)
      → length s.events ≤ n
      → length (receive_all is s).events ≤ n
  unfolding receive_all
  receive_all-bounded n [] s h = h
  receive_all-bounded n (i ∷ is) s h =
      receive_all-bounded n is (receive_one i s) (receive_one-bounded n i s h)

  map-bounded :
      (n : ℕ) (is : List ℕ) (ss : List (Subscriber E))
      → All (λ s. length s.events ≤ n) ss
      → All (λ s. length s.events ≤ n) (map (receive_all is) ss)
  map-bounded n is [] h = tt
  map-bounded n is (s ∷ ss) h = (receive_all-bounded n is s h.0, map-bounded n is ss h.1)

  fan_events-bounded :
      (buffer : ℕ) (takers : List (List ℕ)) (events : List E) (ss : List (Subscriber E))
      (remove : List ℕ)
      → All (λ s. length s.events ≤ buffer) ss
      → All (λ s. length s.events ≤ buffer) (fan_events buffer takers events ss remove).0
  unfolding fan_events
  fan_events-bounded buffer takers [] ss remove h = h
  fan_events-bounded buffer takers (event ∷ events) ss remove h =
      let ready = map (receive_all (first_takers takers)) ss in
      fan_events-bounded buffer (later_takers takers) events (offer_all buffer event ready)
        (remove ++ excessive buffer ready)
        (offer_all-bounded buffer event ready (map-bounded buffer (first_takers takers) ss h))

  close_one-buffer :
      (i : ℕ) (d : Dispatcher E) → (close_one i d).subscriber_buffer ≡ d.subscriber_buffer
  unfolding close_one
  close_one-buffer i d = elim (Bool-cases (is_present i d.subscribers)) [
    | inl e ↦ simp e refl
    | inr e ↦ simp e refl
  ]

  remove_all-buffer :
      (is : List ℕ) (d : Dispatcher E) (c : Collector)
      → (remove_all is d c).0.subscriber_buffer ≡ d.subscriber_buffer
  unfolding remove_all
  remove_all-buffer [] d c = refl
  remove_all-buffer (i ∷ is) d c =
      remove_all-buffer is (close_one i d) (count_removed i d c) ∙ close_one-buffer i d

  few_drops-Marked : (ss : List (Subscriber E)) → All (λ s. s.drops < 8) ss → All (Marked []) ss
  unfolding Marked
  few_drops-Marked [] h = tt
  few_drops-Marked (s ∷ ss) h = ((λ k. absurd (omega (arith, h.0, k))), few_drops-Marked ss h.1)

  unmarked :
      (remove : List ℕ) (ss : List (Subscriber E))
      → All (Marked remove) ss
      → All (λ s. count s.id remove ≡ 0) ss
      → All (λ s. s.drops < 8) ss
  unfolding Marked
  unmarked remove [] a b = tt
  unmarked remove (s ∷ ss) a b = (ground (arith, a.0, b.0), unmarked remove ss a.1 b.1)

  pub fan_out-IsServed :
      (takers : List (List ℕ)) (events : List E) (d : Dispatcher E) (c : Collector)
      → IsServed d
      → IsServed (fan_out takers events d c).0
  unfolding fan_out
  fan_out-IsServed takers events d c s =
      let r = fan_events d.subscriber_buffer takers events d.subscribers [] in
      let after = record d { subscribers = r.0 } in
      record {
        patient =
            unmarked r.1 (remove_all r.1 after c).0.subscribers
              (remove_all-All (Marked r.1) r.1 after c (
                fan_events-Marked d.subscriber_buffer takers events d.subscribers []
                  (few_drops-Marked d.subscribers s.patient)))
              (remove_all-gone r.1 after c);
        bounded =
            subst (λ n. All (λ u. length u.events ≤ n) (remove_all r.1 after c).0.subscribers)
              (sym (remove_all-buffer r.1 after c))
              (remove_all-All (λ u. length u.events ≤ d.subscriber_buffer) r.1 after c
                (fan_events-bounded d.subscriber_buffer takers events d.subscribers [] s.bounded));
      }
