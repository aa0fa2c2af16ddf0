-- ===== src/Consume/Counted.antt =====
-- What reading and acknowledging in internal/service/consume.go add to the counters.
use Prim.Native.String.{String}
use deepiri_sugar_glider.Base.{
  ℕ, suc, ◌+◌, ◌≤◌, ◌≡◌, refl, ◌∙◌, arith, Bool, true, false, ◌||◌, not, Option, none, some, List,
  length, if◌then◌else◌, GoError, canceled, deadline_exceeded, redis_nil, queue_full, stopped,
  other, error_text, Result, ok, err,
}
use deepiri_sugar_glider.Base.Text.{is_empty, trim_space}
use deepiri_sugar_glider.Base.Parse.{contains, to_upper}
use deepiri_sugar_glider.Config.{is_stream_allowed}
use deepiri_sugar_glider.Metrics.{Collector, inc_error}
use deepiri_sugar_glider.Redis.{Redis, is_no_group_error}
use deepiri_sugar_glider.Service.{Sidecar}
use deepiri_sugar_glider.Service.Publish.{Refusal}
use deepiri_sugar_glider.Consume.{
  ReadRequest, ReadEvent, AckRequest, trimmed_read, is_consumer_group_ensured,
  remember_consumer_group, forget_ensured_consumer_group, after_create, create_group,
  ensure_consumer_group, Answer, read_once, retry_ensured, retry, finish_read, read_ensured,
  consume_trimmed, consume_group_once, finish_ack, is_none, ack_trimmed, ack_entries_internal,
  refuse,
}

-- At most n attempts to create a group, and no other change that a reply reports.
abbrev Quiet : ℕ → Collector → Collector → Type 0
Quiet n c d =
    (d.errors_total ≡ c.errors_total)
    × (d.read_events ≡ c.read_events)
    × (d.acked_entries ≡ c.acked_entries)
    × (d.group_ensure_attempts ≤ c.group_ensure_attempts + n)

Quiet-trans : (m n : ℕ) (a b c : Collector) → Quiet m a b → Quiet n b c → Quiet (m + n) a c
Quiet-trans m n a b c (e, f, g, h) (e', f', g', h') = (e' ∙ e, f' ∙ f, g' ∙ g, omega arith)

-- What a reply says: whether it is an error, and how much it carries.
abbrev pub Reply : Type 0 → Type 0
Reply A = Result Refusal A

module _ {A : Type 0} where
  unfoldable pub errors_in : Reply A → ℕ
  errors_in (err e) = 1
  errors_in (ok a) = 0

  unfoldable pub amount_in : (A → ℕ) → Reply A → ℕ
  amount_in size (err e) = 0
  amount_in size (ok a) = size a

-- The counters of errors, of events and of acknowledged entries say what the reply says.
abbrev pub Told : ℕ → ℕ → ℕ → ℕ → Collector → Collector → Type 0
Told errors read acked attempts c d =
    (d.errors_total ≡ c.errors_total + errors)
    × (d.read_events ≡ c.read_events + read)
    × (d.acked_entries ≡ c.acked_entries + acked)
    × (d.group_ensure_attempts ≤ c.group_ensure_attempts + attempts)

Quiet-Told :
    (m n e r a : ℕ) (b c d : Collector) → Quiet m b c → Told e r a n c d → Told e r a (m + n) b d
Quiet-Told m n e r a b c d (h₀, h₁, h₂, h₃) (k₀, k₁, k₂, k₃) =
    (omega arith, omega arith, omega arith, omega arith)

refuse-Told : (n : ℕ) (c : Collector) → Told 1 0 0 n c (inc_error c)
refuse-Told n c = (omega arith, omega arith, omega arith, omega arith)

module _ {W : Type 0} where
  if-Quiet :
      {A : Type 0} (n : ℕ) (c : Collector) (b : Bool) (x y : Sidecar W × A)
      → Quiet n c x.0.collector
      → Quiet n c y.0.collector
      → Quiet n c (if b then x else y).0.collector
  if-Quiet n c true x y h k = h
  if-Quiet n c false x y h k = k

  abbrev ToldRead : ℕ → Collector → Sidecar W × Reply (List ReadEvent) → Type 0
  ToldRead n c (s, reply) = Told (errors_in reply) (amount_in length reply) 0 n c s.collector

  abbrev ToldAck : ℕ → Collector → Sidecar W × Reply ℕ → Type 0
  ToldAck n c (s, reply) = Told (errors_in reply) 0 (amount_in (λ m. m) reply) n c s.collector

  if-ToldRead :
      (n : ℕ) (c : Collector) (b : Bool) (x y : Sidecar W × Reply (List ReadEvent))
      → ToldRead n c x
      → ToldRead n c y
      → ToldRead n c (if b then x else y)
  if-ToldRead n c true x y h k = h
  if-ToldRead n c false x y h k = k

  if-ToldAck :
      (n : ℕ) (c : Collector) (b : Bool) (x y : Sidecar W × Reply ℕ)
      → ToldAck n c x
      → ToldAck n c y
      → ToldAck n c (if b then x else y)
  if-ToldAck n c true x y h k = h
  if-ToldAck n c false x y h k = k

module _ {W : Type 0} (r : Redis W) where
  after_create-Quiet :
      (s : Sidecar W) (stream group : String) (e : Option GoError)
      → Quiet 0 s.collector (after_create s stream group e).0.collector
  unfolding after_create remember_consumer_group
  after_create-Quiet s stream group none = (refl, refl, refl, omega arith)
  after_create-Quiet s stream group (some e) =
      if-Quiet 0 s.collector (contains (to_upper (error_text e)) "BUSYGROUP")
        (remember_consumer_group s stream group, none) (s, some e) (refl, refl, refl, omega arith)
        (refl, refl, refl, omega arith)

  create_group-Quiet :
      (s : Sidecar W) (stream group : String)
      → Quiet 1 s.collector (create_group r s stream group).0.collector
  unfolding create_group
  create_group-Quiet s stream group =
      let (w, e) = r.xgroup_create s.world stream group in
      let t = record s {
        world = w;
        collector = record s.collector {
          group_ensure_attempts = suc s.collector.group_ensure_attempts;
        };
      } in
      Quiet-trans 1 0 s.collector t.collector (after_create t stream group e).0.collector
        (refl, refl, refl, omega arith) (after_create-Quiet t stream group e)

  ensure-Quiet :
      (s : Sidecar W) (stream group : String)
      → Quiet 1 s.collector (ensure_consumer_group r s stream group).0.collector
  unfolding ensure_consumer_group
  ensure-Quiet s stream group =
      if-Quiet 1 s.collector (is_consumer_group_ensured s stream group) (s, none)
        (create_group r s stream group) (refl, refl, refl, omega arith)
        (create_group-Quiet s stream group)

  read_once-Quiet :
      (s : Sidecar W) (req : ReadRequest) → Quiet 0 s.collector (read_once r s req).0.collector
  unfolding read_once
  read_once-Quiet s req = (refl, refl, refl, omega arith)

  retry_ensured-Quiet :
      (req : ReadRequest) (e : GoError) (p : Sidecar W × Option GoError)
      → Quiet 0 p.0.collector (retry_ensured r req e p).0.collector
  unfolding retry_ensured
  retry_ensured-Quiet req e (s, none) = read_once-Quiet s req
  retry_ensured-Quiet req e (s, some _) = (refl, refl, refl, omega arith)

  retry-Quiet :
      (req : ReadRequest) (p : Answer W) → Quiet 1 p.0.collector (retry r req p).0.collector
  unfolding retry forget_ensured_consumer_group
  retry-Quiet req (s, ok streams) = (refl, refl, refl, omega arith)
  retry-Quiet req (s, err e) =
      let t = forget_ensured_consumer_group s req.stream req.consumer_group in
      let p = ensure_consumer_group r t req.stream req.consumer_group in
      if-Quiet 1 s.collector (is_no_group_error e) (retry_ensured r req e p) (s, err e)
        (Quiet-trans 1 0 s.collector p.0.collector (retry_ensured r req e p).0.collector
          (ensure-Quiet t req.stream req.consumer_group) (retry_ensured-Quiet req e p))
        (refl, refl, refl, omega arith)

  finish_read-Told : (p : Answer W) → ToldRead 0 p.0.collector (finish_read p)
  unfolding finish_read errors_in amount_in
  finish_read-Told (s, ok streams) = (omega arith, refl, omega arith, omega arith)
  finish_read-Told (s, err redis_nil) = (omega arith, omega arith, omega arith, omega arith)
  finish_read-Told (s, err canceled) = refuse-Told 0 s.collector
  finish_read-Told (s, err deadline_exceeded) = refuse-Told 0 s.collector
  finish_read-Told (s, err queue_full) = refuse-Told 0 s.collector
  finish_read-Told (s, err stopped) = refuse-Told 0 s.collector
  finish_read-Told (s, err (other t)) = refuse-Told 0 s.collector

  read_ensured-Told :
      (req : ReadRequest) (p : Sidecar W × Option GoError)
      → ToldRead 1 p.0.collector (read_ensured r req p)
  unfolding read_ensured errors_in amount_in
  read_ensured-Told req (s, some _) = refuse-Told 1 s.collector
  read_ensured-Told req (s, none) =
      let p = read_once r s req in
      let q = retry r req p in
      let f = finish_read q in
      Quiet-Told 1 0 (errors_in f.1) (amount_in length f.1) 0 s.collector q.0.collector
        f.0.collector
        (Quiet-trans 0 1 s.collector p.0.collector q.0.collector (read_once-Quiet s req)
          (retry-Quiet req p))
        (finish_read-Told q)

  consume_trimmed-Told :
      (s : Sidecar W) (req : ReadRequest) → ToldRead 2 s.collector (consume_trimmed r s req)
  unfolding consume_trimmed errors_in amount_in
  consume_trimmed-Told s req =
      let p = ensure_consumer_group r s req.stream req.consumer_group in
      let q = read_ensured r req p in
      if-ToldRead 2 s.collector
        (is_empty req.stream || is_empty req.consumer_group || is_empty req.consumer_name)
        (refuse s 400 "stream, consumer_group, and consumer_name are required")
        (if not (is_stream_allowed s.cfg.consume_streams req.stream)
          then refuse s 403 "stream not allowed for this sugar glider"
          else q)
        (refuse-Told 2 s.collector)
        (if-ToldRead 2 s.collector (not (is_stream_allowed s.cfg.consume_streams req.stream))
          (refuse s 403 "stream not allowed for this sugar glider") q (refuse-Told 2 s.collector)
          (Quiet-Told 1 1 (errors_in q.1) (amount_in length q.1) 0 s.collector p.0.collector
            q.0.collector (ensure-Quiet s req.stream req.consumer_group) (read_ensured-Told req p)))

  -- A read counts one error exactly if it answers with an error, and counts the events that it returns; the
  -- counter of acknowledged entries stays, and that of the attempts to create a group grows by two at most.
  pub consume_group_once-Told :
      (s : Sidecar W) (req : ReadRequest)
      → let (t, reply) = consume_group_once r s req in
        Told (errors_in reply) (amount_in length reply) 0 2 s.collector t.collector
  unfolding consume_group_once
  consume_group_once-Told s req = consume_trimmed-Told s (trimmed_read req)

  finish_ack-Told :
      (s : Sidecar W) (answer : Result GoError ℕ) → ToldAck 0 s.collector (finish_ack s answer)
  unfolding finish_ack errors_in amount_in
  finish_ack-Told s (err _) = refuse-Told 0 s.collector
  finish_ack-Told s (ok n) = (omega arith, omega arith, refl, omega arith)

  -- An acknowledgement counts one error exactly if it answers with an error, and counts the entries that
  -- Redis acknowledged; it reads nothing, and creates no group.
  pub ack_entries_internal-Told :
      (s : Sidecar W) (req : AckRequest)
      → let (t, reply) = ack_entries_internal r s req in
        Told (errors_in reply) 0 (amount_in (λ n. n) reply) 0 s.collector t.collector
  unfolding ack_entries_internal ack_trimmed errors_in amount_in
  ack_entries_internal-Told s req =
      let stream = trim_space req.stream in
      let group = trim_space req.consumer_group in
      let (w, answer) = r.xack s.world stream group req.entry_ids in
      let q = finish_ack (record s { world = w }) answer in
      if-ToldAck 0 s.collector (is_empty stream || is_empty group || is_none req.entry_ids)
        (refuse s 400 "stream, consumer_group, and entry_ids are required")
        (if not (is_stream_allowed s.cfg.consume_streams stream)
          then refuse s 403 "stream not allowed for this sugar glider"
          else q)
        (refuse-Told 0 s.collector)
        (if-ToldAck 0 s.collector (not (is_stream_allowed s.cfg.consume_streams stream))
          (refuse s 403 "stream not allowed for this sugar glider") q (refuse-Told 0 s.collector)
          (finish_ack-Told (record s { world = w }) answer))
