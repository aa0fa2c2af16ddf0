-- ===== src/Dispatcher/Safety.antt =====
-- The channels of a dispatcher over its operations, in internal/service/dispatcher.go: which are open and
-- which have been closed.
use deepiri_sugar_glider.Base.{
  ℕ, ◌+◌, ◌≤◌, ◌<◌, ◌%◌, ◌^◌, ◌≡◌, refl, ap₂, map, ◌∙◌, arith, true, false, List, [], ◌∷◌, ◌++◌,
  ◌==◌, if◌then◌else◌, inl, inr, Bool-cases,
}
use deepiri_sugar_glider.Base.Count.{count, count-append}
use deepiri_sugar_glider.Metrics.{Collector}
use deepiri_sugar_glider.Dispatcher.{
  Subscriber, Dispatcher, ids, subscribe, stop, is_present, delete, close_one, is_nil,
  remove_subscriber, offer, offer_all, excessive, fan_events, count_removed, remove_all, fan_out,
  receive_one, receive_all, receive, first_takers, later_takers,
}

new_id : ℕ → ℕ
new_id n = (n + 1) % 2 ^ 64

new_id-suc : (n : ℕ) → n + 1 < 2 ^ 64 → new_id n ≡ n + 1
unfolding new_id
new_id-suc n h = omega arith

module _ {E : Type 0} where
  uses : Dispatcher E → ℕ → ℕ
  uses d i = count i (ids d.subscribers) + count i d.closed

  -- A channel is that of one subscriber, or has been closed once, and its id was given out.
  pub record IsSafe (d : Dispatcher E) : Type 0 where
    pub once : (i : ℕ) → count i (ids d.subscribers) + count i d.closed ≤ 1
    pub given : (i : ℕ) → d.next_sub_id < i → count i (ids d.subscribers) + count i d.closed ≡ 0

  ids-append : (xs ys : List (Subscriber E)) → ids (xs ++ ys) ≡ ids xs ++ ids ys
  ids-append [] ys = refl
  ids-append (x ∷ xs) ys = rw (ids-append xs ys) refl

  count_new :
      (i n : ℕ) (ss : List (Subscriber E))
      → count i (ids (ss ++ record { id = n; events = []; drops = 0 } ∷ []))
        ≡ count i (ids ss) + (if n == i then 1 else 0)
  unfolding count
  count_new i n [] = ground arith
  count_new i n (s ∷ ss) = ground (arith, count_new i n ss)

  pub subscribe-IsSafe :
      (d : Dispatcher E) → d.next_sub_id + 1 < 2 ^ 64 → IsSafe d → IsSafe (subscribe d).0
  unfolding subscribe new_id
  subscribe-IsSafe d h s = record {
    once = λ i. ground (
      arith,
      s.once i,
      s.given i,
      count_new i (new_id d.next_sub_id) d.subscribers,
      new_id-suc d.next_sub_id h,
    );
    given = λ i j. ground (
      arith,
      s.given i,
      count_new i (new_id d.next_sub_id) d.subscribers,
      new_id-suc d.next_sub_id h,
    );
  }

  pub stop-IsSafe : (d : Dispatcher E) → IsSafe d → IsSafe (stop d)
  unfolding stop count
  stop-IsSafe d s = elim (Bool-cases d.stopped) [
    | inl e ↦ simp e s
    | inr e ↦ simp e (record {
      once = λ i. omega (arith, s.once i, count-append i (ids d.subscribers) d.closed);
      given = λ i j. omega (arith, s.given i j, count-append i (ids d.subscribers) d.closed);
    })
  ]

  count-delete :
      (j i : ℕ) (ss : List (Subscriber E))
      → count j (ids (delete i ss)) ≡ (if i == j then 0 else count j (ids ss))
  unfolding count delete
  count-delete j i [] = ground arith
  count-delete j i (s ∷ ss) = ground (arith, count-delete j i ss)

  count_present : (i : ℕ) (ss : List (Subscriber E)) → is_present i ss ≡ true → 1 ≤ count i (ids ss)
  unfolding count is_present
  count_present i [] h = cc
  count_present i (s ∷ ss) h = ground (arith, count_present i ss)

  pub close_one-IsSafe : (i : ℕ) (d : Dispatcher E) → IsSafe d → IsSafe (close_one i d)
  unfolding close_one count
  close_one-IsSafe i d s = elim (Bool-cases (is_present i d.subscribers)) [
    | inr e ↦ simp e s
    | inl e ↦ simp e (record {
      once = λ j. ground (
        arith,
        s.once j,
        s.once i,
        count_present i d.subscribers e,
        count-delete j i d.subscribers,
      );
      given = λ j k. ground (
        arith,
        s.given j k,
        s.given i,
        s.once j,
        count_present i d.subscribers e,
        count-delete j i d.subscribers,
      );
    })
  ]

  pub remove_subscriber-IsSafe :
      (d : Dispatcher E) (i : ℕ) → IsSafe d → IsSafe (remove_subscriber d i).0
  unfolding remove_subscriber
  remove_subscriber-IsSafe d i s = elim (Bool-cases (is_nil (close_one i d).subscribers)) [
    | inl e ↦ rw e (stop-IsSafe (close_one i d) (close_one-IsSafe i d s))
    | inr e ↦ rw e (close_one-IsSafe i d s)
  ]

  -- The ids are the same: nothing was opened or closed.
  same_ids-IsSafe :
      (d : Dispatcher E) (ss : List (Subscriber E))
      → ids ss ≡ ids d.subscribers
      → IsSafe d
      → IsSafe (record d { subscribers = ss })
  same_ids-IsSafe d ss e s = record {
    once = λ i. rw e (s.once i);
    given = λ i j. rw e (s.given i j);
  }

  offer-id : (buffer : ℕ) (event : E) (s : Subscriber E) → (offer buffer event s).id ≡ s.id
  unfolding offer
  offer-id buffer event s = ground arith

  offer_all-ids :
      (buffer : ℕ) (event : E) (ss : List (Subscriber E)) → ids (offer_all buffer event ss) ≡ ids ss
  unfolding offer_all
  offer_all-ids buffer event [] = refl
  offer_all-ids buffer event (s ∷ ss) =
      rw (offer-id buffer event s, offer_all-ids buffer event ss) refl

  receive_one-id : (i : ℕ) (s : Subscriber E) → (receive_one i s).id ≡ s.id
  unfolding receive_one
  receive_one-id i s = ground arith

  receive_all-id : (is : List ℕ) (s : Subscriber E) → (receive_all is s).id ≡ s.id
  unfolding receive_all
  receive_all-id [] s = refl
  receive_all-id (i ∷ is) s = receive_all-id is (receive_one i s) ∙ receive_one-id i s

  map-ids :
      (f : Subscriber E → Subscriber E) (ss : List (Subscriber E))
      → ((s : Subscriber E) → (f s).id ≡ s.id)
      → ids (map f ss) ≡ ids ss
  map-ids f [] h = refl
  map-ids f (s ∷ ss) h = ap₂ ◌∷◌ (h s) (map-ids f ss h)

  pub fan_events-ids :
      (buffer : ℕ) (takers : List (List ℕ)) (events : List E) (ss : List (Subscriber E))
      (remove : List ℕ)
      → ids (fan_events buffer takers events ss remove).0 ≡ ids ss
  unfolding fan_events
  fan_events-ids buffer takers [] ss remove = refl
  fan_events-ids buffer takers (event ∷ events) ss remove =
      let ready = map (receive_all (first_takers takers)) ss in
      fan_events-ids buffer (later_takers takers) events (offer_all buffer event ready)
        (remove ++ excessive buffer ready)
      ∙ offer_all-ids buffer event ready
      ∙ map-ids (receive_all (first_takers takers)) ss (receive_all-id (first_takers takers))

  remove_all-IsSafe :
      (is : List ℕ) (d : Dispatcher E) (c : Collector) → IsSafe d → IsSafe (remove_all is d c).0
  unfolding remove_all
  remove_all-IsSafe [] d c s = s
  remove_all-IsSafe (i ∷ is) d c s =
      remove_all-IsSafe is (close_one i d) (count_removed i d c) (close_one-IsSafe i d s)

  pub fan_out-IsSafe :
      (takers : List (List ℕ)) (events : List E) (d : Dispatcher E) (c : Collector)
      → IsSafe d
      → IsSafe (fan_out takers events d c).0
  unfolding fan_out
  fan_out-IsSafe takers events d c s =
      let r = fan_events d.subscriber_buffer takers events d.subscribers [] in
      remove_all-IsSafe r.1 (record d { subscribers = r.0 }) c
        (same_ids-IsSafe d r.0 (fan_events-ids d.subscriber_buffer takers events d.subscribers [])
          s)

  receive-IsSafe : (i : ℕ) (d : Dispatcher E) → IsSafe d → IsSafe (receive i d)
  unfolding receive
  receive-IsSafe i d s =
      same_ids-IsSafe d (map (receive_one i) d.subscribers)
        (map-ids (receive_one i) d.subscribers (receive_one-id i)) s

  abbrev pub new : ℕ → Dispatcher E
  new buffer = record {
    subscriber_buffer = buffer;
    subscribers = [];
    next_sub_id = 0;
    stopped = false;
    closed = [];
  }

  -- The operations in any order, of any goroutine; each holds the lock of the subscribers, but for those that
  -- receive, also while another one fans out.
  pub data Step (d : Dispatcher E) : Dispatcher E → Type 0 where
    subscribes : d.next_sub_id + 1 < 2 ^ 64 → Step d (subscribe d).0
    removes : (i : ℕ) → Step d (remove_subscriber d i).0
    fans_out :
        (takers : List (List ℕ)) (events : List E) (c : Collector)
        → Step d (fan_out takers events d c).0
    receives : (i : ℕ) → Step d (receive i d)
    stops : Step d (stop d)

  pub data Reachable (buffer : ℕ) : Dispatcher E → Type 0 where
    initial : Reachable buffer (new buffer)
    next : (d e : Dispatcher E) → Reachable buffer d → Step d e → Reachable buffer e

  Step-IsSafe : (d e : Dispatcher E) → IsSafe d → Step d e → IsSafe e
  Step-IsSafe d _ s (subscribes h) = subscribe-IsSafe d h s
  Step-IsSafe d _ s (removes i) = remove_subscriber-IsSafe d i s
  Step-IsSafe d _ s (fans_out takers events c) = fan_out-IsSafe takers events d c s
  Step-IsSafe d _ s (receives i) = receive-IsSafe i d s
  Step-IsSafe d _ s stops = stop-IsSafe d s

  -- In every order of operations that starts from a new dispatcher and gives out fewer than 2 ^ 64 ids, each
  -- channel is closed at most once, and none that is closed belongs to a subscriber, to whom events are sent.
  pub Reachable-IsSafe : (buffer : ℕ) (d : Dispatcher E) → Reachable buffer d → IsSafe d
  unfolding count
  Reachable-IsSafe buffer _ initial = record { once = λ i. omega arith; given = λ i h. refl }
  Reachable-IsSafe buffer e (next d _ r st) = Step-IsSafe d e (Reachable-IsSafe buffer d r) st

  present_last :
      (i : ℕ) (ss : List (Subscriber E))
      → is_present i (ss ++ record { id = i; events = []; drops = 0 } ∷ []) ≡ true
  unfolding is_present
  present_last i [] = ground arith
  present_last i (s ∷ ss) = ground (arith, present_last i ss)

  -- A dispatcher that has stopped still takes a subscriber, and stopping it again does not close that one's
  -- channel: whoever subscribes after the stop waits on a channel that is never closed by it.
  pub subscribe_stopped :
      (d : Dispatcher E)
      → d.stopped ≡ true
      → (is_present (subscribe d).1 (stop (subscribe d).0).subscribers ≡ true)
        × ((stop (subscribe d).0).closed ≡ d.closed)
  unfolding subscribe stop new_id
  subscribe_stopped d h = simp h (present_last (new_id d.next_sub_id) d.subscribers, refl)
