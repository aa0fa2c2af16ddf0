-- ===== src/Dispatcher/FanOut/Prefix.antt =====
-- What a subscriber gets from fanOut of internal/service/dispatcher.go where nobody takes an event meanwhile.
use deepiri_sugar_glider.Base.{
  ℕ, suc, zero, ◌+◌, ◌-◌, ◌≤◌, ◌≡◌, refl, subst, ltb→lt, ap, sym, ◌∙◌, arith, true, List, [], ◌∷◌,
  ◌++◌, append_assoc, append-nil, ltb, inl, inr, Bool-cases, length, take, length-append,
}
use deepiri_sugar_glider.Dispatcher.{Subscriber, offer, receive_all}
use deepiri_sugar_glider.Dispatcher.FanOut.Each.{offer_many, offer-full, offer-room}

module _ {E : Type 0} where
  -- The longest prefix of the events that the channel has room for, and the drops from its last event on.
  pub record Fits (buffer : ℕ) (offered : List E) (s t : Subscriber E) : Type 0 where
    pub id : t.id ≡ s.id
    pub events : t.events ≡ s.events ++ take (buffer - length s.events) offered
    pub drops : t.drops ≤ s.drops + length offered

  take_nothing : (k : ℕ) (es xs : List E) → k ≡ 0 → xs ≡ xs ++ take k es
  take_nothing zero es xs h = sym (append-nil xs)
  take_nothing (suc k) es xs h = absurd (omega (arith, h))

  take_one :
      (k j : ℕ) (e : E) (es xs : List E)
      → k ≡ suc j
      → (xs ++ e ∷ []) ++ take j es ≡ xs ++ take k (e ∷ es)
  take_one zero j e es xs h = absurd (omega (arith, h))
  take_one (suc k) j e es xs h =
      append_assoc xs (e ∷ []) (take j es) ∙ ap (λ n. xs ++ e ∷ take n es) (omega (arith, h))

  offer_then :
      (buffer : ℕ) (event : E) (events : List E) (s t : Subscriber E)
      → Fits buffer events (offer buffer event s) t
      → Fits buffer (event ∷ events) s t
  offer_then buffer event events s t h = elim (Bool-cases (ltb (length s.events) buffer)) [
    | inl e ↦
        room e (subst (λ u. Fits buffer events u t) (offer-room buffer event s (ltb→lt _ _ e)) h)
    | inr e ↦
        full (ground arith)
          (subst (λ u. Fits buffer events u t) (offer-full buffer event s (ground arith)) h)
  ]
    where
      room :
          {t : Subscriber E}
          → ltb (length s.events) buffer ≡ true
          → Fits buffer events (record s { events = s.events ++ event ∷ []; drops = 0 }) t
          → Fits buffer (event ∷ events) s t
      room e h = record {
        id = h.id;
        events =
            h.events
            ∙ take_one (buffer - length s.events) (buffer - length (s.events ++ event ∷ [])) event
                events s.events (ground (arith, length-append s.events (event ∷ [])));
        drops = omega (arith, h.drops);
      }

      full :
          {t : Subscriber E}
          → buffer ≤ length s.events
          → Fits buffer events (record s { drops = suc s.drops }) t
          → Fits buffer (event ∷ events) s t
      full e h = record {
        id = h.id;
        events =
            h.events
            ∙ sym (take_nothing (buffer - length s.events) events s.events (omega arith))
            ∙ take_nothing (buffer - length s.events) (event ∷ events) s.events (omega arith);
        drops = omega (arith, h.drops);
      }

  pub offer_many-Fits :
      (buffer : ℕ) (events : List E) (s : Subscriber E)
      → Fits buffer events s (offer_many buffer [] events s)
  unfolding offer_many receive_all
  offer_many-Fits buffer [] s = record {
    id = refl;
    events = none_taken (buffer - length s.events) s.events;
    drops = omega arith;
  }
    where
      none_taken : (k : ℕ) (xs : List E) → xs ≡ xs ++ take k []
      none_taken zero xs = sym (append-nil xs)
      none_taken (suc k) xs = sym (append-nil xs)
  offer_many-Fits buffer (event ∷ events) s =
      offer_then buffer event events s (offer_many buffer [] events (offer buffer event s))
        (offer_many-Fits buffer events (offer buffer event s))
