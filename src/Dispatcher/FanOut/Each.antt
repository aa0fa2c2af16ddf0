-- ===== src/Dispatcher/FanOut/Each.antt =====
-- What fanOut of internal/service/dispatcher.go does to one subscriber.
use deepiri_sugar_glider.Base.{
  ℕ, suc, ◌≤◌, ◌<◌, ◌≡◌, refl, ap, sym, ◌∙◌, arith, List, [], ◌∷◌, ◌++◌, ltb, inl, inr, Bool-cases,
  length, map,
}
use deepiri_sugar_glider.Dispatcher.{
  Subscriber, offer, offer_all, excessive, fan_events, receive_all, first_takers, later_takers,
}

module _ {E : Type 0} where
  -- What a fan-out does to one subscriber.
  unfoldable pub offer_many : ℕ → List (List ℕ) → List E → Subscriber E → Subscriber E
  unfolding offer receive_all
  offer_many buffer takers [] s = s
  offer_many buffer takers (event ∷ events) s =
      offer_many buffer (later_takers takers) events
        (offer buffer event (receive_all (first_takers takers) s))

  map-offer :
      (buffer : ℕ) (takers : List (List ℕ)) (event : E) (events : List E) (ss : List (Subscriber E))
      → map
          (offer_many buffer (later_takers takers) events)
          (offer_all buffer event (map (receive_all (first_takers takers)) ss))
        ≡ map (offer_many buffer takers (event ∷ events)) ss
  unfolding offer_many offer_all
  map-offer buffer takers event events [] = refl
  map-offer buffer takers event events (s ∷ ss) =
      ap (◌∷◌ (offer_many buffer takers (event ∷ events) s))
        (map-offer buffer takers event events ss)

  map-none :
      (buffer : ℕ) (takers : List (List ℕ)) (ss : List (Subscriber E))
      → map (offer_many buffer takers []) ss ≡ ss
  unfolding offer_many
  map-none buffer takers [] = refl
  map-none buffer takers (s ∷ ss) = ap (◌∷◌ s) (map-none buffer takers ss)

  -- No subscriber has an effect on what another one gets.
  pub fan_events-map :
      (buffer : ℕ) (takers : List (List ℕ)) (events : List E) (ss : List (Subscriber E))
      (remove : List ℕ)
      → (fan_events buffer takers events ss remove).0 ≡ map (offer_many buffer takers events) ss
  unfolding fan_events
  fan_events-map buffer takers [] ss remove = sym (map-none buffer takers ss)
  fan_events-map buffer takers (event ∷ events) ss remove =
      let ready = map (receive_all (first_takers takers)) ss in
      fan_events-map buffer (later_takers takers) events (offer_all buffer event ready)
        (remove ++ excessive buffer ready)
      ∙ map-offer buffer takers event events ss

  pub offer-full :
      (buffer : ℕ) (event : E) (s : Subscriber E)
      → buffer ≤ length s.events
      → offer buffer event s ≡ record s { drops = suc s.drops }
  unfolding offer
  offer-full buffer event s h = elim (Bool-cases (ltb (length s.events) buffer)) [
    | inl e ↦ absurd (ground arith)
    | inr e ↦ rw e refl
  ]

  pub offer-room :
      (buffer : ℕ) (event : E) (s : Subscriber E)
      → length s.events < buffer
      → offer buffer event s ≡ record s { events = s.events ++ event ∷ []; drops = 0 }
  unfolding offer
  offer-room buffer event s h = elim (Bool-cases (ltb (length s.events) buffer)) [
    | inl e ↦ rw e refl
    | inr e ↦ absurd (ground arith)
  ]
