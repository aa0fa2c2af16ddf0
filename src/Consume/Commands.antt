-- ===== src/Consume/Commands.antt =====
-- The commands that reading and acknowledging in internal/service/consume.go send to Redis.
use Prim.Native.String.{String}
use deepiri_sugar_glider.Base.{
  ◌≡◌, refl, ap, sym, ◌∙◌, arith, Bool, true, false, ◌||◌, not, Option, none, some, List, [], ◌∷◌,
  if◌then◌else◌, inl, inr, Bool-cases, GoError, ok, err,
}
use deepiri_sugar_glider.Base.Int.{ℤ, pos, ◌≤ℤ◌}
use deepiri_sugar_glider.Base.Text.{is_empty, trim_space}
use deepiri_sugar_glider.Config.{is_stream_allowed}
use deepiri_sugar_glider.Redis.{Redis, ReadArgs, is_no_group_error}
use deepiri_sugar_glider.Service.{Sidecar}
use deepiri_sugar_glider.Consume.{
  ReadRequest, AckRequest, trimmed_read, clamp, read_args, is_consumer_group_ensured,
  forget_ensured_consumer_group, after_create, create_group, ensure_consumer_group, Answer,
  read_once, retry_ensured, retry, finish_read, read_ensured, consume_trimmed, consume_group_once,
  finish_ack, ack_trimmed, ack_entries_internal, refuse,
}

pub clamp-bounds :
    (d limit n : ℤ)
    → pos 1 ≤ℤ d
    → d ≤ℤ limit
    → (pos 1 ≤ℤ clamp d limit n) × (clamp d limit n ≤ℤ limit)
unfolding clamp
clamp-bounds d limit n h k = ground arith

-- Names that are not empty, and a stream that the configuration allows.
pub record IsPermitted (allowed : List String) (stream group : String) : Type 0 where
  pub stream_named : is_empty stream ≡ false
  pub group_named : is_empty group ≡ false
  pub stream_allowed : is_stream_allowed allowed stream ≡ true

-- Two clients that answer alike what a read may send to them: commands on a stream that is allowed, and
-- reads of 1 to 100 entries. They may differ on every acknowledgement.
pub record Agree {W : Type 0} (allowed : List String) (r r' : Redis W) : Type 0 where
  pub on_create :
      (w : W) (stream group : String)
      → IsPermitted allowed stream group
      → r.xgroup_create w stream group ≡ r'.xgroup_create w stream group
  pub on_read :
      (w : W) (args : ReadArgs)
      → IsPermitted allowed args.stream args.group
      → is_empty args.consumer ≡ false
      → pos 1 ≤ℤ args.count
      → args.count ≤ℤ pos 100
      → r.xread_group w args ≡ r'.xread_group w args

-- Two clients that answer alike what an acknowledgement may send to them.
pub record AgreeAck {W : Type 0} (allowed : List String) (r r' : Redis W) : Type 0 where
  pub on_ack :
      (w : W) (stream group : String) (id : String) (ids : List String)
      → IsPermitted allowed stream group
      → r.xack w stream group (id ∷ ids) ≡ r'.xack w stream group (id ∷ ids)

pub if_agree :
    {A : Type 0} (b : Bool) (x y y' : A)
    → (b ≡ false → y ≡ y')
    → (if b then x else y) ≡ (if b then x else y')
if_agree true x y y' h = refl
if_agree false x y y' h = h refl

if_agree_left :
    {A : Type 0} (b : Bool) (x x' y : A) → x ≡ x' → (if b then x else y) ≡ (if b then x' else y)
if_agree_left b x x' y h = ap (λ z. if b then z else y) h

pub or_false : (a b : Bool) → (a || b) ≡ false → (a ≡ false) × (b ≡ false)
or_false true b h = absurd (z h)
  where
    z : true ≡ false → ⊥
    z e = cc
or_false false b h = (refl, h)

or_true : (b : Bool) → (b || true) ≡ true
or_true true = refl
or_true false = refl

pub not-false : (b : Bool) → not b ≡ false → b ≡ true
not-false true h = refl
not-false false h = sym h

module _ {W : Type 0} (r r' : Redis W) where
  create_group-agree :
      (s : Sidecar W) (stream group : String)
      → ((w : W) → r.xgroup_create w stream group ≡ r'.xgroup_create w stream group)
      → create_group r s stream group ≡ create_group r' s stream group
  unfolding create_group after_create
  create_group-agree s stream group h = rw (h s.world) refl

  ensure-agree :
      (s : Sidecar W) (stream group : String)
      → ((w : W) → r.xgroup_create w stream group ≡ r'.xgroup_create w stream group)
      → ensure_consumer_group r s stream group ≡ ensure_consumer_group r' s stream group
  unfolding ensure_consumer_group
  ensure-agree s stream group h =
      if_agree (is_consumer_group_ensured s stream group) (s, none) (create_group r s stream group)
        (create_group r' s stream group) (λ _. create_group-agree s stream group h)

  read_once-agree :
      (s : Sidecar W) (req : ReadRequest)
      → ((w : W) → r.xread_group w (read_args req) ≡ r'.xread_group w (read_args req))
      → read_once r s req ≡ read_once r' s req
  unfolding read_once
  read_once-agree s req h = rw (h s.world) refl

  -- The hypotheses of one request.
  record AgreeOn (req : ReadRequest) : Type 0 where
    creates :
        (w : W)
        → r.xgroup_create w req.stream req.consumer_group
          ≡ r'.xgroup_create w req.stream req.consumer_group
    reads : (w : W) → r.xread_group w (read_args req) ≡ r'.xread_group w (read_args req)

  retry_ensured-agree :
      (req : ReadRequest) (e : GoError) (p : Sidecar W × Option GoError)
      → AgreeOn req
      → retry_ensured r req e p ≡ retry_ensured r' req e p
  unfolding retry_ensured
  retry_ensured-agree req e (s, none) a = read_once-agree s req a.reads
  retry_ensured-agree req e (s, some _) a = refl

  retry-agree : (req : ReadRequest) (p : Answer W) → AgreeOn req → retry r req p ≡ retry r' req p
  unfolding retry
  retry-agree req (s, ok streams) a = refl
  retry-agree req (s, err e) a =
      let t = forget_ensured_consumer_group s req.stream req.consumer_group in
      let p = ensure_consumer_group r t req.stream req.consumer_group in
      if_agree_left (is_no_group_error e) (retry_ensured r req e p)
        (retry_ensured r' req e (ensure_consumer_group r' t req.stream req.consumer_group))
        (s, err e)
        (retry_ensured-agree req e p a
          ∙ ap (retry_ensured r' req e) (ensure-agree t req.stream req.consumer_group a.creates))

  read_ensured-agree :
      (req : ReadRequest) (p : Sidecar W × Option GoError)
      → AgreeOn req
      → read_ensured r req p ≡ read_ensured r' req p
  unfolding read_ensured
  read_ensured-agree req (s, some _) a = refl
  read_ensured-agree req (s, none) a =
      ap finish_read
        (retry-agree req (read_once r s req) a ∙ ap (retry r' req) (read_once-agree s req a.reads))

  ack_trimmed-Agree :
      (s : Sidecar W) (stream group : String) (ids : List String)
      → AgreeAck s.cfg.consume_streams r r'
      → ack_trimmed r s stream group ids ≡ ack_trimmed r' s stream group ids
  unfolding ack_trimmed finish_ack
  ack_trimmed-Agree s stream group [] a = rw (or_true (is_empty stream || is_empty group)) refl
  ack_trimmed-Agree s stream group (id ∷ ids) a =
      elim (Bool-cases (is_empty stream || is_empty group || false)) [
        | inl e ↦ rw e refl
        | inr g ↦ elim (Bool-cases (is_stream_allowed s.cfg.consume_streams stream)) [
          | inr e ↦ rw (g, e) refl
          | inl e ↦
              let (names, _) = or_false (is_empty stream || is_empty group) false g in
              let (st, gr) = or_false (is_empty stream) (is_empty group) names in
              rw
                (a.on_ack s.world stream group id ids
                  (record { stream_named = st; group_named = gr; stream_allowed = e }))
                refl
        ]
      ]

  Agree-AgreeOn :
      (allowed : List String) (req : ReadRequest)
      → Agree allowed r r'
      → IsPermitted allowed req.stream req.consumer_group
      → is_empty req.consumer_name ≡ false
      → AgreeOn req
  unfolding read_args
  Agree-AgreeOn allowed req a p n =
      let c = clamp-bounds (pos 10) (pos 100) req.count (omega arith) (omega arith) in
      record {
        creates = λ w. a.on_create w req.stream req.consumer_group p;
        reads = λ w. a.on_read w (read_args req) p n c.0 c.1;
      }

  consume_trimmed-Agree :
      (s : Sidecar W) (req : ReadRequest)
      → Agree s.cfg.consume_streams r r'
      → consume_trimmed r s req ≡ consume_trimmed r' s req
  unfolding consume_trimmed
  consume_trimmed-Agree s req a =
      let guard =
        is_empty req.stream || is_empty req.consumer_group || is_empty req.consumer_name in
      let is_open = is_stream_allowed s.cfg.consume_streams req.stream in
      let p = ensure_consumer_group r s req.stream req.consumer_group in
      let p' = ensure_consumer_group r' s req.stream req.consumer_group in
      let no = refuse s 400 "stream, consumer_group, and consumer_name are required" in
      let closed = refuse s 403 "stream not allowed for this sugar glider" in
      if_agree guard no (if not is_open then closed else read_ensured r req p)
        (if not is_open then closed else read_ensured r' req p')
        (λ g. if_agree (not is_open) closed (read_ensured r req p) (read_ensured r' req p') (λ o.
          let (names, nm) =
            or_false (is_empty req.stream || is_empty req.consumer_group)
              (is_empty req.consumer_name) g in
          let (st, gr) = or_false (is_empty req.stream) (is_empty req.consumer_group) names in
          let on =
            Agree-AgreeOn s.cfg.consume_streams req a
              (record { stream_named = st; group_named = gr; stream_allowed = not-false is_open o })
              nm in
          read_ensured-agree req p on
          ∙ ap (read_ensured r' req) (ensure-agree s req.stream req.consumer_group on.creates)))

  -- A read sends to Redis only commands on the streams that the configuration allows to consume, with names
  -- that are not empty, and asks for 1 to 100 entries, and it sends no acknowledgement: a client that differs
  -- on no such command changes nothing.
  pub consume_group_once-Agree :
      (s : Sidecar W) (req : ReadRequest)
      → Agree s.cfg.consume_streams r r'
      → consume_group_once r s req ≡ consume_group_once r' s req
  unfolding consume_group_once
  consume_group_once-Agree s req a = consume_trimmed-Agree s (trimmed_read req) a

  -- An acknowledgement sends to Redis only a command on a stream that the configuration allows to consume,
  -- with names that are not empty, and for one id or more.
  pub ack_entries_internal-Agree :
      (s : Sidecar W) (req : AckRequest)
      → AgreeAck s.cfg.consume_streams r r'
      → ack_entries_internal r s req ≡ ack_entries_internal r' s req
  unfolding ack_entries_internal
  ack_entries_internal-Agree s req a =
      ack_trimmed-Agree s (trim_space req.stream) (trim_space req.consumer_group) req.entry_ids a
