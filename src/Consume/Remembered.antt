-- ===== src/Consume/Remembered.antt =====
-- What a read of internal/service/consume.go leaves in the memory of consumer groups.
use text.Mathlib.TextEquality.{eq_iff}
use deepiri_sugar_glider.Base.{
  ◌≡◌, refl, sym, subst, ◌∙◌, Bool, true, false, ◌||◌, not, Option, none, some, List, if◌then◌else◌,
  GoError, canceled, deadline_exceeded, redis_nil, queue_full, stopped, other, error_text,
  error_text-redis_nil, suc, Result, ok, err,
}
use deepiri_sugar_glider.Base.Text.{is_empty, trim_space}
use deepiri_sugar_glider.Base.Parse.{contains, to_upper, to_lower}
use deepiri_sugar_glider.Config.{is_stream_allowed}
use deepiri_sugar_glider.Redis.{Redis, Messages, is_no_group_error}
use deepiri_sugar_glider.Service.{Sidecar}
use deepiri_sugar_glider.Service.Publish.{Refusal}
use deepiri_sugar_glider.Consume.{
  ReadRequest, ReadEvent, consumer_group_key, trimmed_read, is_consumer_group_ensured,
  remember_consumer_group, forget_ensured_consumer_group, after_create, create_group,
  ensure_consumer_group, Answer, read_once, retry_ensured, retry, finish_read, read_ensured,
  consume_trimmed, consume_group_once, refuse,
}
use deepiri_sugar_glider.Consume.Cache.{is_key-add_key}

module _ {W : Type 0} (r : Redis W) where
  abbrev IsEnsured : ReadRequest → Sidecar W → Type 0
  IsEnsured req s = is_consumer_group_ensured s req.stream req.consumer_group ≡ true

  abbrev IsOk : {A : Type 0} → Result Refusal A → Type 0
  IsOk (ok a) = Unit
  IsOk (err e) = ⊥

  remember-IsEnsured :
      (s : Sidecar W) (req : ReadRequest)
      → IsEnsured req (remember_consumer_group s req.stream req.consumer_group)
  unfolding is_consumer_group_ensured remember_consumer_group
  remember-IsEnsured s req =
      let k = consumer_group_key req.stream req.consumer_group in
      is_key-add_key k k s.consumer_groups_ensured ∙ rw ((eq_iff k k).1 refl) refl

  -- What ensureConsumerGroup promises: without an error the group is remembered.
  abbrev Ensures : ReadRequest → Sidecar W × Option GoError → Type 0
  Ensures req (s, none) = IsEnsured req s
  Ensures req (s, some e) = Unit

  if-Ensures :
      (req : ReadRequest) (b : Bool) (x y : Sidecar W × Option GoError)
      → (b ≡ true → Ensures req x)
      → Ensures req y
      → Ensures req (if b then x else y)
  if-Ensures req true x y h k = h refl
  if-Ensures req false x y h k = k

  after_create-Ensures :
      (s : Sidecar W) (req : ReadRequest) (e : Option GoError)
      → Ensures req (after_create s req.stream req.consumer_group e)
  unfolding after_create
  after_create-Ensures s req none = remember-IsEnsured s req
  after_create-Ensures s req (some e) =
      if-Ensures req (contains (to_upper (error_text e)) "BUSYGROUP")
        (remember_consumer_group s req.stream req.consumer_group, none) (s, some e)
        (λ _. remember-IsEnsured s req) tt

  ensure-Ensures :
      (s : Sidecar W) (req : ReadRequest)
      → Ensures req (ensure_consumer_group r s req.stream req.consumer_group)
  unfolding ensure_consumer_group create_group
  ensure-Ensures s req =
      if-Ensures req (is_consumer_group_ensured s req.stream req.consumer_group) (s, none)
        (create_group r s req.stream req.consumer_group) (λ h. h)
        (after_create-Ensures
          (record s {
            world = (r.xgroup_create s.world req.stream req.consumer_group).0;
            collector = record s.collector {
              group_ensure_attempts = suc s.collector.group_ensure_attempts;
            };
          })
          req (r.xgroup_create s.world req.stream req.consumer_group).1)

  -- What the two tries leave for the end of a read: the group is remembered, or an error that refuses it.
  abbrev Settled : ReadRequest → Answer W → Type 0
  Settled req (s, ok _) = IsEnsured req s
  Settled req (s, err redis_nil) = IsEnsured req s
  Settled req (s, err _) = Unit

  Settled-of :
      (req : ReadRequest) (s : Sidecar W) (a : Result GoError (List Messages))
      → IsEnsured req s
      → Settled req (s, a)
  Settled-of req s (ok _) h = h
  Settled-of req s (err redis_nil) h = h
  Settled-of req s (err canceled) h = tt
  Settled-of req s (err deadline_exceeded) h = tt
  Settled-of req s (err queue_full) h = tt
  Settled-of req s (err stopped) h = tt
  Settled-of req s (err (other t)) h = tt

  read_once-Settled :
      (s : Sidecar W) (req : ReadRequest) → IsEnsured req s → Settled req (read_once r s req)
  unfolding read_once is_consumer_group_ensured
  read_once-Settled s req h = Settled-of req (read_once r s req).0 (read_once r s req).1 h

  Settled-lost :
      (req : ReadRequest) (s : Sidecar W) (e : GoError)
      → is_no_group_error e ≡ true
      → Settled req (s, err e)
  unfolding is_no_group_error contains to_lower
  Settled-lost req s redis_nil h =
      absurd (lost (subst (λ t. contains (to_lower t) "nogroup" ≡ true) error_text-redis_nil h))
    where
      lost : false ≡ true → ⊥
      lost z = cc
  Settled-lost req s canceled h = tt
  Settled-lost req s deadline_exceeded h = tt
  Settled-lost req s queue_full h = tt
  Settled-lost req s stopped h = tt
  Settled-lost req s (other t) h = tt

  retry_ensured-Settled :
      (req : ReadRequest) (e : GoError) (p : Sidecar W × Option GoError)
      → is_no_group_error e ≡ true
      → Ensures req p
      → Settled req (retry_ensured r req e p)
  unfolding retry_ensured
  retry_ensured-Settled req e (s, none) n h = read_once-Settled s req h
  retry_ensured-Settled req e (s, some _) n h = Settled-lost req s e n

  if-Settled :
      (req : ReadRequest) (b : Bool) (x y : Answer W)
      → (b ≡ true → Settled req x)
      → Settled req y
      → Settled req (if b then x else y)
  if-Settled req true x y h k = h refl
  if-Settled req false x y h k = k

  retry-Settled : (req : ReadRequest) (p : Answer W) → Settled req p → Settled req (retry r req p)
  unfolding retry
  retry-Settled req (s, ok streams) h = h
  retry-Settled req (s, err e) h =
      let t = forget_ensured_consumer_group s req.stream req.consumer_group in
      let p = ensure_consumer_group r t req.stream req.consumer_group in
      if-Settled req (is_no_group_error e) (retry_ensured r req e p) (s, err e)
        (λ n. retry_ensured-Settled req e p n (ensure-Ensures t req)) h

  finish_read-remembers :
      (req : ReadRequest) (p : Answer W)
      → Settled req p
      → IsOk (finish_read p).1
      → IsEnsured req (finish_read p).0
  unfolding finish_read is_consumer_group_ensured
  finish_read-remembers req (s, ok streams) h k = h
  finish_read-remembers req (s, err redis_nil) h k = h
  finish_read-remembers req (s, err canceled) h k = absurd k
  finish_read-remembers req (s, err deadline_exceeded) h k = absurd k
  finish_read-remembers req (s, err queue_full) h k = absurd k
  finish_read-remembers req (s, err stopped) h k = absurd k
  finish_read-remembers req (s, err (other t)) h k = absurd k

  read_ensured-remembers :
      (req : ReadRequest) (p : Sidecar W × Option GoError)
      → Ensures req p
      → IsOk (read_ensured r req p).1
      → IsEnsured req (read_ensured r req p).0
  unfolding read_ensured
  read_ensured-remembers req (s, some _) h k = absurd k
  read_ensured-remembers req (s, none) h k =
      finish_read-remembers req (retry r req (read_once r s req))
        (retry-Settled req (read_once r s req) (read_once-Settled s req h)) k

  if-remembers :
      (req : ReadRequest) (b : Bool) (x y : Sidecar W × Result Refusal (List ReadEvent))
      → (IsOk x.1 → ⊥)
      → (IsOk y.1 → IsEnsured req y.0)
      → IsOk (if b then x else y).1
      → IsEnsured req (if b then x else y).0
  if-remembers req true x y h k z = absurd (h z)
  if-remembers req false x y h k z = k z

  consume_trimmed-remembers :
      (s : Sidecar W) (req : ReadRequest)
      → IsOk (consume_trimmed r s req).1
      → IsEnsured req (consume_trimmed r s req).0
  unfolding consume_trimmed
  consume_trimmed-remembers s req =
      let q = read_ensured r req (ensure_consumer_group r s req.stream req.consumer_group) in
      if-remembers req
        (is_empty req.stream || is_empty req.consumer_group || is_empty req.consumer_name)
        (refuse s 400 "stream, consumer_group, and consumer_name are required")
        (if not (is_stream_allowed s.cfg.consume_streams req.stream)
          then refuse s 403 "stream not allowed for this sugar glider"
          else q)
        (λ z. z)
        (if-remembers req (not (is_stream_allowed s.cfg.consume_streams req.stream))
          (refuse s 403 "stream not allowed for this sugar glider") q (λ z. z)
          (read_ensured-remembers req (ensure_consumer_group r s req.stream req.consumer_group)
            (ensure-Ensures s req)))

  -- After a read that is answered without an error the group is remembered, also where the first try
  -- missed the group and a second followed; a call of ensureConsumerGroup for it then sends no command and
  -- changes nothing. (A later read that Redis answers with NOGROUP still forgets the group and creates it.)
  pub consume_group_once-remembers :
      (s : Sidecar W) (req : ReadRequest) (events : List ReadEvent)
      → (consume_group_once r s req).1 ≡ ok events
      → let t = (consume_group_once r s req).0 in
        let stream = trim_space req.stream in
        let group = trim_space req.consumer_group in
        (is_consumer_group_ensured t stream group ≡ true)
        × (ensure_consumer_group r t stream group ≡ (t, none))
  unfolding consume_group_once ensure_consumer_group
  consume_group_once-remembers s req events h =
      let e = consume_trimmed-remembers s (trimmed_read req) (subst IsOk (sym h) tt) in
      (e, rw e refl)
