-- ===== src/Dispatcher/FanOut/Taken.antt =====
-- What a subscriber gets from fanOut of internal/service/dispatcher.go whoever takes events meanwhile.
use deepiri_sugar_glider.Base.{
  ℕ, suc, ◌+◌, ◌≤◌, ◌≡◌, refl, subst, ltb→lt, ap, sym, ◌∙◌, arith, true, false, ◌==◌, List, [], ◌∷◌,
  ◌++◌, append_assoc, append-nil, ltb, inl, inr, Bool-cases, length, length-append,
}
use deepiri_sugar_glider.Base.Count.{count}
use deepiri_sugar_glider.Dispatcher.{
  Subscriber, offer, tail, receive_one, receive_all, first_takers, later_takers,
}
use deepiri_sugar_glider.Dispatcher.FanOut.Each.{offer_many, offer-full, offer-room}

-- How often a subscriber takes an event.
abbrev pub takes : ℕ → List (List ℕ) → ℕ
takes i [] = 0
takes i (is ∷ takers) = count i is + takes i takers

takes_split :
    (i : ℕ) (takers : List (List ℕ))
    → takes i takers ≡ count i (first_takers takers) + takes i (later_takers takers)
unfolding count
takes_split i [] = omega arith
takes_split i (is ∷ takers) = refl

module _ {E : Type 0} where
  -- Some of the events, in their order, and how many are left out.
  pub data Part : List E → List E → ℕ → Type 0 where
    no_more : Part [] [] 0
    given :
        {event : E} {got events : List E} {n : ℕ}
        → Part got events n
        → Part (event ∷ got) (event ∷ events) n
    left_out :
        {event : E} {got events : List E} {n : ℕ}
        → Part got events n
        → Part got (event ∷ events) (suc n)

  -- What a subscriber has taken meanwhile, and then what its channel holds, are what it held and then the events
  -- that it got. An event is left out, and counted as a drop, only where the channel was full.
  pub record Served (buffer : ℕ) (takers : List (List ℕ)) (offered : List E) (s t : Subscriber E)
      : Type 0 where
    pub taken : List E
    pub got : List E
    pub missed : ℕ
    pub id : t.id ≡ s.id
    pub in_order : taken ++ t.events ≡ s.events ++ got
    pub part : Part got offered missed
    pub few : length taken ≤ takes s.id takers
    pub drops : t.drops ≤ s.drops + missed
    pub all_fit : length s.events + length offered ≤ buffer → missed ≡ 0

  -- The part that receiving has in this.
  record Took (is : List ℕ) (s t : Subscriber E) : Type 0 where
    taken : List E
    id : t.id ≡ s.id
    drops : t.drops ≡ s.drops
    in_order : taken ++ t.events ≡ s.events
    few : length taken ≤ count s.id is

  receive_one-Took :
      (i : ℕ) (is : List ℕ) (s t : Subscriber E) → Took is (receive_one i s) t → Took (i ∷ is) s t
  unfolding receive_one count
  receive_one-Took i is s t k = elim (Bool-cases (s.id == i)) [
    | inr e ↦ kept (subst (λ u. Took is u t) (if_false e) k)
    | inl e ↦ gone s.events refl e (subst (λ u. Took is u t) (if_true e) k)
  ]
    where
      if_false : s.id == i ≡ false → receive_one i s ≡ s
      if_false e = rw e refl

      if_true : s.id == i ≡ true → receive_one i s ≡ record s { events = tail s.events }
      if_true e = rw e refl

      kept : Took is s t → Took (i ∷ is) s t
      kept k = record {
        taken = k.taken;
        id = k.id;
        drops = k.drops;
        in_order = k.in_order;
        few = ground (arith, k.few);
      }

      gone :
          (events : List E)
          → s.events ≡ events
          → s.id == i ≡ true
          → Took is (record s { events = tail s.events }) t
          → Took (i ∷ is) s t
      gone [] z e k = record {
        taken = k.taken;
        id = k.id;
        drops = k.drops;
        in_order = k.in_order ∙ ap tail z ∙ sym z;
        few = ground (arith, k.few);
      }
      gone (x ∷ xs) z e k = record {
        taken = x ∷ k.taken;
        id = k.id;
        drops = k.drops;
        in_order = ap (◌∷◌ x) (k.in_order ∙ ap tail z) ∙ sym z;
        few = ground (arith, k.few);
      }

  receive_all-Took : (is : List ℕ) (s : Subscriber E) → Took is s (receive_all is s)
  unfolding receive_all count
  receive_all-Took [] s = record {
    taken = [];
    id = refl;
    drops = refl;
    in_order = refl;
    few = omega arith;
  }
  receive_all-Took (i ∷ is) s =
      receive_one-Took i is s (receive_all is (receive_one i s))
        (receive_all-Took is (receive_one i s))

  module _ (buffer : ℕ) (takers : List (List ℕ)) (event : E) (events : List E) where
    Served-given :
        (s u t : Subscriber E)
        → Took (first_takers takers) s u
        → Served buffer
            (later_takers takers)
            events
            (record u { events = u.events ++ event ∷ []; drops = 0 })
            t
        → Served buffer takers (event ∷ events) s t
    Served-given s u t k h = record {
      taken = k.taken ++ h.taken;
      got = event ∷ h.got;
      missed = h.missed;
      id = h.id ∙ k.id;
      in_order =
          append_assoc k.taken h.taken t.events
          ∙ ap (λ xs. k.taken ++ xs) (h.in_order ∙ append_assoc u.events (event ∷ []) h.got)
          ∙ sym (append_assoc k.taken u.events (event ∷ h.got))
          ∙ ap (λ xs. xs ++ event ∷ h.got) k.in_order;
      part = given h.part;
      few = omega (
        arith,
        length-append k.taken h.taken,
        k.few,
        h.few,
        takes_split s.id takers,
        ap (λ i. takes i (later_takers takers)) k.id,
      );
      drops = omega (arith, h.drops);
      all_fit = λ z. h.all_fit (
          omega (
            arith,
            z,
            length-append u.events (event ∷ []),
            length-append k.taken u.events,
            ap length k.in_order,
          ));
    }

    Served-full :
        (s u t : Subscriber E)
        → buffer ≤ length u.events
        → Took (first_takers takers) s u
        → Served buffer (later_takers takers) events (record u { drops = suc u.drops }) t
        → Served buffer takers (event ∷ events) s t
    Served-full s u t full k h = record {
      taken = k.taken ++ h.taken;
      got = h.got;
      missed = suc h.missed;
      id = h.id ∙ k.id;
      in_order =
          append_assoc k.taken h.taken t.events
          ∙ ap (λ xs. k.taken ++ xs) h.in_order
          ∙ sym (append_assoc k.taken u.events h.got)
          ∙ ap (λ xs. xs ++ h.got) k.in_order;
      part = left_out h.part;
      few = omega (
        arith,
        length-append k.taken h.taken,
        k.few,
        h.few,
        takes_split s.id takers,
        ap (λ i. takes i (later_takers takers)) k.id,
      );
      drops = omega (arith, h.drops, k.drops);
      all_fit = λ z.
          absurd (omega (arith, z, full, length-append k.taken u.events, ap length k.in_order));
    }

  pub offer_many-Served :
      (buffer : ℕ) (takers : List (List ℕ)) (events : List E) (s : Subscriber E)
      → Served buffer takers events s (offer_many buffer takers events s)
  unfolding offer_many
  offer_many-Served buffer takers [] s = record {
    taken = [];
    got = [];
    missed = 0;
    id = refl;
    in_order = sym (append-nil s.events);
    part = no_more;
    few = omega arith;
    drops = omega arith;
    all_fit = λ _. refl;
  }
  offer_many-Served buffer takers (event ∷ events) s =
      let u = receive_all (first_takers takers) s in
      let t = offer_many buffer (later_takers takers) events (offer buffer event u) in
      let k = receive_all-Took (first_takers takers) s in
      let h = offer_many-Served buffer (later_takers takers) events (offer buffer event u) in
      elim (Bool-cases (ltb (length u.events) buffer)) [
        | inl e ↦ Served-given buffer takers event events s u t k (
            subst (λ v. Served buffer (later_takers takers) events v t)
              (offer-room buffer event u (ltb→lt _ _ e)) h)
        | inr e ↦ Served-full buffer takers event events s u t (ground arith) k (
            subst (λ v. Served buffer (later_takers takers) events v t)
              (offer-full buffer event u (ground arith)) h)
      ]
