-- ===== src/Service/Grpc/Batch.antt =====
-- How many ids PublishBatch returns, on each of its ways to Redis and to the log.
use Prim.Native.String.{String}
use text.Mathlib.Text.{◌==◌ as str_eq}
use deepiri_sugar_glider.Base.{
  ℕ, suc, ◌≡◌, ◌≢◌, refl, sym, ap, ◌∙◌, Option, none, some, List, [], ◌∷◌, length, GoError, Result,
  ok, err, inl, inr, Bool-cases, Result-cases,
}
use deepiri_sugar_glider.Base.Text.{trim_space}
use deepiri_sugar_glider.RedisStreams.{PublishRequest}
use deepiri_sugar_glider.Config.{sync_on_success}
use deepiri_sugar_glider.Metrics.{inc_publish_pipeline_fallback, inc_publish_attempts}
use deepiri_sugar_glider.Service.{Pipeline, Outside, Sidecar, count}
use deepiri_sugar_glider.Service.Publish.{
  falls_back, publish_to_redis, publish_internal, should_skip_wal, normalize_publish_request,
}
use deepiri_sugar_glider.Service.Grpc.{
  Status, Sent, PublishBatchRequest, publish_each, prepend, collect_results, after_many,
  direct_counted, batch_route, publish_batch_to_redis, cons_ok, of_event, normalize_events,
  fallback_each, after_batch, publish_normalized, publish_events, publish_batch, respond,
  repeat_count,
}

module _ {W : Type 0} where
  -- If nothing went wrong there are `n` ids.
  abbrev HasAll : ℕ → Sent W → Type 0
  HasAll n (s, ids, e) = e ≡ none → length ids ≡ n

  prepend-HasAll : (n : ℕ) (id : String) (x : Sent W) → HasAll n x → HasAll (suc n) (prepend id x)
  prepend-HasAll n id (s, ids, e) h z = ap suc (h z)

  publish_each-HasAll :
      (send : Sidecar W → PublishRequest → Sidecar W × Result GoError String) (s : Sidecar W)
      (reqs : List PublishRequest)
      → HasAll (length reqs) (publish_each send s reqs)
  unfolding publish_each
  publish_each-HasAll send s [] = λ z. refl
  publish_each-HasAll send s (req ∷ reqs) = elim (Result-cases (send s req).1) [
    | inl (e, h) ↦ rw (h, publish_each) (λ z. absurd (none_some e z))
    | inr (id, h) ↦
        rw (h, publish_each)
          (prepend-HasAll (length reqs) id (publish_each send (send s req).0 reqs)
            (publish_each-HasAll send (send s req).0 reqs))
  ]
    where
      none_some : (e : GoError) → some e ≡ none → ⊥
      none_some e z = cc

  collect_results-HasAll :
      (s : Sidecar W) (results : List (Result GoError String))
      → HasAll (length results) (collect_results s results)
  unfolding collect_results
  collect_results-HasAll s [] = λ z. refl
  collect_results-HasAll s (err e ∷ results) = λ z. cc
  collect_results-HasAll s (ok id ∷ results) =
      prepend-HasAll (length results) id (collect_results s results)
        (collect_results-HasAll s results)

module _ {W : Type 0} (o : Outside W) where
  after_many-HasAll :
      (s : Sidecar W) (reqs : List PublishRequest)
      (r : Result GoError (List (Result GoError String)))
      → ((results : List (Result GoError String)) → r ≡ ok results → length results ≡ length reqs)
      → HasAll (length reqs) (after_many o s reqs r)
  unfolding after_many
  after_many-HasAll s reqs (ok results) h = λ z. collect_results-HasAll s results z ∙ h results refl
  after_many-HasAll s reqs (err e) h = elim (Bool-cases (falls_back e)) [
    | inl b ↦ rw b (
        publish_each-HasAll (direct_counted o) (count s (inc_publish_pipeline_fallback s.collector))
          reqs)
    | inr b ↦ rw b (λ z. cc)
  ]

  batch_route-HasAll :
      (p : Option (Pipeline W)) (s : Sidecar W) (reqs : List PublishRequest)
      → HasAll (length reqs) (batch_route o p s reqs)
  unfolding batch_route
  batch_route-HasAll p s [] = λ z. refl
  batch_route-HasAll none s (req ∷ reqs) = publish_each-HasAll (publish_to_redis o) s (req ∷ reqs)
  batch_route-HasAll (some p) s (req ∷ []) = publish_each-HasAll (publish_to_redis o) s (req ∷ [])
  batch_route-HasAll (some p) s (a ∷ b ∷ reqs) =
      after_many-HasAll _ (a ∷ b ∷ reqs) _
        (p.publish_many_length s.collector s.world (a ∷ b ∷ reqs))

  ok_inj : {A : Type 0} {a b : List A} → ◌≡◌ {A = Result Status (List A)} (ok a) (ok b) → a ≡ b
  ok_inj e = cc

  abbrev OkLength : {A B : Type 0} → List B → Sidecar W × Result Status (List A) → Type 0
  OkLength {A = A} ys (s, r) = (xs : List A) → r ≡ ok xs → length xs ≡ length ys

  cons_ok-length :
      {A B : Type 0} (x : A) (y : B) (ys : List B) (r : Sidecar W × Result Status (List A))
      → OkLength ys r
      → OkLength (y ∷ ys) (cons_ok o x r)
  unfolding cons_ok
  cons_ok-length x y ys (s, err e) h xs z = cc
  cons_ok-length x y ys (s, ok zs) h xs z = ap length (sym (ok_inj z)) ∙ ap suc (h zs refl)

  fallback_each-length :
      (s : Sidecar W) (reqs : List PublishRequest) → OkLength reqs (fallback_each o s reqs)
  unfolding fallback_each
  fallback_each-length s [] = λ xs h. ap length (sym (ok_inj h))
  fallback_each-length s (req ∷ reqs) = elim (Result-cases (respond (publish_internal o s req).1)) [
    | inl (e, h) ↦ rw (h, fallback_each) (λ xs z. cc)
    | inr (response, h) ↦
        rw (h, fallback_each)
          (cons_ok-length response.entry_id req reqs
            (fallback_each o (publish_internal o s req).0 reqs)
            (fallback_each-length (publish_internal o s req).0 reqs))
  ]

  normalize_events-length :
      (stream : String) (s : Sidecar W) (events : List (Option PublishRequest))
      → OkLength events (normalize_events o stream s events)
  unfolding normalize_events
  normalize_events-length stream s [] = λ xs h. ap length (sym (ok_inj h))
  normalize_events-length stream s (none ∷ events) = λ xs h. cc
  normalize_events-length stream s (some event ∷ events) =
      elim (Result-cases (normalize_publish_request s (of_event o stream event) stream).1) [
        | inl (e, h) ↦ rw (h, normalize_events) (λ xs z. cc)
        | inr (req, h) ↦
            rw (h, normalize_events)
              (cons_ok-length req (some event) events
                (normalize_events o stream
                  (normalize_publish_request s (of_event o stream event) stream).0 events)
                (normalize_events-length stream
                  (normalize_publish_request s (of_event o stream event) stream).0 events))
      ]

  after_batch-length :
      (reqs : List PublishRequest) (x : Sent W)
      → HasAll (length reqs) x
      → OkLength reqs (after_batch o reqs x)
  unfolding after_batch
  after_batch-length reqs (s, ids, none) h =
      elim (Bool-cases (str_eq s.cfg.wal_replay_mode sync_on_success)) [
        | inl b ↦ simp b (λ xs z. ap length (sym (ok_inj z)) ∙ h refl)
        | inr b ↦ simp b (λ xs z. ap length (sym (ok_inj z)) ∙ h refl)
      ]
  after_batch-length reqs (s, id ∷ ids, some e) h = λ xs z. cc
  after_batch-length reqs (s, [], some e) h =
      elim (Bool-cases (should_skip_wal (o.caller_done s.world) e)) [
        | inl b ↦ rw b (λ xs z. cc)
        | inr b ↦ rw b (fallback_each-length s reqs)
      ]

  abbrev attempted : Sidecar W → List PublishRequest → Sidecar W
  attempted s reqs = count s (repeat_count o inc_publish_attempts reqs s.collector)

  publish_normalized-length :
      {B : Type 0} (events : List B) (x : Sidecar W × Result Status (List PublishRequest))
      → OkLength events x
      → OkLength events (publish_normalized o x)
  unfolding publish_normalized publish_batch_to_redis
  publish_normalized-length events (s, err e) h = λ xs z. cc
  publish_normalized-length events (s, ok reqs) h = λ xs z.
      after_batch-length reqs (batch_route o o.pipeline (attempted s reqs) reqs)
        (batch_route-HasAll o.pipeline (attempted s reqs) reqs) xs z
      ∙ h reqs refl

  -- PublishBatch answers a batch with as many ids as it has events, if it answers with ids at all,
  -- whether they went through the pipeline, one by one or into the log; and it does not do so for no event.
  pub publish_batch-length :
      (s : Sidecar W) (request : PublishBatchRequest) (ids : List String)
      → (publish_batch o s (some request)).1 ≡ ok ids
      → (length ids ≡ length request.events) × (request.events ≢ [])
  unfolding publish_batch publish_events
  publish_batch-length s request ids h = from_events request.events h
    where
      no_ids :
          {e : Status} {xs : List String}
          → ◌≡◌ {A = Result Status (List String)} (err e) (ok xs)
          → ⊥
      no_ids z = cc

      from_events :
          (events : List (Option PublishRequest))
          → (publish_events o s request.stream events).1 ≡ ok ids
          → (length ids ≡ length events) × (events ≢ [])
      from_events [] h = absurd (no_ids h)
      from_events (event ∷ events) h = (
        publish_normalized-length (event ∷ events) _
            (normalize_events-length (trim_space request.stream) s (event ∷ events)) ids h,
        λ e. cc,
      )
