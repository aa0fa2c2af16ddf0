-- ===== src/Service/Publish/Normalize.antt =====
-- normalizePublishRequest: which requests pass, and how they are changed.
use Prim.Native.String.{String}
use deepiri_sugar_glider.Base.{
  ◌≡◌, ◌⊎◌, refl, sym, ap, ◌∙◌, subst, true, false, List, [], ◌∷◌, All, Result, ok, err, inl, inr,
  Bool-cases, Result-cases,
}
use deepiri_sugar_glider.Base.Text.{is_empty, trim_space, trim_space_idem}
use deepiri_sugar_glider.RedisStreams.{PublishRequest}
use deepiri_sugar_glider.Config.{is_stream_allowed}
use deepiri_sugar_glider.Service.Publish.{trimmed, Refusal, choose_stream, check_request, normalize}

-- What the rest of the path relies on.
pub record IsPublishable (publish_streams : List String) (req : PublishRequest) : Type 0 where
  pub allowed : is_stream_allowed publish_streams req.stream ≡ true
  pub named : is_empty req.event_type ≡ false
  pub filled : is_empty req.payload ≡ false

IsTrimmed : String → Type 0
IsTrimmed s = trim_space s ≡ s

check_request-ok :
    (streams : List String) (req n : PublishRequest)
    → check_request streams req ≡ ok n
    → (n ≡ req) × IsPublishable streams n
unfolding check_request
check_request-ok streams req n h = elim (Bool-cases (is_stream_allowed streams req.stream)) [
  | inr a ↦ cc (simp a at h)
  | inl a ↦ elim (Bool-cases (is_empty req.event_type)) [
    | inl b ↦ cc (simp (a, b) at h)
    | inr b ↦ elim (Bool-cases (is_empty req.payload)) [
      | inl c ↦ cc (simp (a, b, c) at h)
      | inr c ↦ result (simp (a, b, c) at h) (record { allowed = a; named = b; filled = c })
    ]
  ]
]
  where
    result :
        {streams : List String} {r n : PublishRequest}
        → ◌≡◌ {A = Result Refusal PublishRequest} (ok r) (ok n)
        → IsPublishable streams r
        → (n ≡ r) × IsPublishable streams n
    result e p = let same = same_ok e in (sym same, subst (IsPublishable _) same p)
      where
        same_ok :
            {r n : PublishRequest} → ◌≡◌ {A = Result Refusal PublishRequest} (ok r) (ok n) → r ≡ n
        same_ok e = cc

check_request-passes :
    (streams : List String) (req : PublishRequest)
    → IsPublishable streams req
    → check_request streams req ≡ ok req
unfolding check_request
check_request-passes streams req p = simp (p.allowed, p.named, p.filled) refl

-- A request that passes: its fields are trimmed, its stream is its own, the default or the only one, the
-- stream is allowed, and it has an event type and a payload.
pub normalize-IsPublishable :
    (streams : List String) (req : PublishRequest) (default_stream : String) (n : PublishRequest)
    → normalize streams req default_stream ≡ ok n
    → (stream : String) × (choose_stream streams default_stream (trim_space req.stream) ≡ ok stream)
      × (n ≡ record (trimmed req) { stream = stream })
      × IsPublishable streams n
unfolding normalize
normalize-IsPublishable streams req d n h =
    elim (Result-cases (choose_stream streams d (trim_space req.stream))) [
      | inl (e, c) ↦ cc (rw (c, normalize) at h)
      | inr (stream, c) ↦
          let (same, p) =
            check_request-ok streams (record (trimmed req) { stream = stream }) n
              (rw (c, normalize) at h) in
          (stream, c, same, p)
    ]

-- What splitCSV makes of each stream of the configuration.
abbrev pub IsName : String → Type 0
IsName s = (trim_space s ≡ s) × (is_empty s ≡ false)

choose_stream-IsName :
    (streams : List String) (d t stream : String)
    → All IsName streams
    → trim_space d ≡ d
    → trim_space t ≡ t
    → choose_stream streams d t ≡ ok stream
    → IsName stream
unfolding choose_stream
choose_stream-IsName streams d t stream a td tt h = elim (Bool-cases (is_empty t)) [
  | inr e ↦ subst IsName (ok_inj (rw e at h)) (tt, e)
  | inl e ↦ elim (Bool-cases (is_empty d)) [
    | inr f ↦ subst IsName (ok_inj (rw (e, f) at h)) (td, f)
    | inl f ↦ only streams a (rw (e, f) at h)
  ]
]
  where
    ok_inj : {a b : String} → ◌≡◌ {A = Result Refusal String} (ok a) (ok b) → a ≡ b
    ok_inj e = cc

    only :
        (streams : List String)
        → All IsName streams
        → choose_stream streams "" "" ≡ ok stream
        → IsName stream
    only [] a h = cc
    only (s ∷ []) a h = subst IsName (ok_inj h) a.0
    only (s ∷ t ∷ ss) a h = cc

choose_own :
    (streams : List String) (d s : String) → is_empty s ≡ false → choose_stream streams d s ≡ ok s
unfolding choose_stream
choose_own streams d s h = rw h refl

normalize_at :
    (streams : List String) (req : PublishRequest) (d stream : String)
    (r : Result Refusal PublishRequest)
    → choose_stream streams d (trim_space req.stream) ≡ ok stream
    → check_request streams (record (trimmed req) { stream = stream }) ≡ r
    → normalize streams req d ≡ r
unfolding normalize
normalize_at streams req d stream r c h = rw (c, normalize) h

trimmed_again :
    (req : PublishRequest) (stream : String)
    → ◌≡◌ {A = PublishRequest}
        (record (trimmed (record (trimmed req) { stream = stream })) { stream = stream })
        (record (trimmed req) { stream = stream })
trimmed_again req stream =
    rw
      (
        trim_space_idem req.event_type,
        trim_space_idem req.sender,
        trim_space_idem req.recipient,
        trim_space_idem req.priority,
      )
      refl

normalize_trimmed :
    (streams : List String) (req : PublishRequest) (stream : String)
    → IsName stream
    → IsPublishable streams (record (trimmed req) { stream = stream })
    → normalize streams (record (trimmed req) { stream = stream }) ""
      ≡ ok (record (trimmed req) { stream = stream })
normalize_trimmed streams req stream name p =
    normalize_at streams (record (trimmed req) { stream = stream }) "" stream
      (ok (record (trimmed req) { stream = stream }))
      (rw name.0 (choose_own streams "" stream name.1))
      (ap (check_request streams) (trimmed_again req stream)
        ∙ check_request-passes streams (record (trimmed req) { stream = stream }) p)

-- A normalized request is its own normal form, so the second pass of PublishBatch over the events changes
-- nothing; the streams of the configuration are names, and the default stream is trimmed.
pub normalize_idem :
    (streams : List String) (req : PublishRequest) (default_stream : String) (n : PublishRequest)
    → All IsName streams
    → trim_space default_stream ≡ default_stream
    → normalize streams req default_stream ≡ ok n
    → normalize streams n "" ≡ ok n
normalize_idem streams req d n a td h =
    let (stream, c, same, p) = normalize-IsPublishable streams req d n h in
    let name =
      choose_stream-IsName streams d (trim_space req.stream) stream a td
        (trim_space_idem req.stream) c in
    subst (λ m. normalize streams m "" ≡ ok m) (sym same)
      (normalize_trimmed streams req stream name (subst (IsPublishable streams) same p))

choose_stream-status :
    (streams : List String) (d t : String) (e : Refusal)
    → choose_stream streams d t ≡ err e
    → e.0 ≡ 400
unfolding choose_stream
choose_stream-status streams d t e h = elim (Bool-cases (is_empty t)) [
  | inr x ↦ cc (rw x at h)
  | inl x ↦ elim (Bool-cases (is_empty d)) [
    | inr y ↦ cc (rw (x, y) at h)
    | inl y ↦ none_chosen streams (rw (x, y) at h)
  ]
]
  where
    err_inj : {a b : Refusal} → ◌≡◌ {A = Result Refusal String} (err a) (err b) → a ≡ b
    err_inj e = cc

    none_chosen : (streams : List String) → choose_stream streams "" "" ≡ err e → e.0 ≡ 400
    none_chosen [] h = ap (λ (x : Refusal). x.0) (sym (err_inj h))
    none_chosen (s ∷ []) h = cc
    none_chosen (s ∷ t ∷ ss) h = ap (λ (x : Refusal). x.0) (sym (err_inj h))

check_request-status :
    (streams : List String) (req : PublishRequest) (e : Refusal)
    → check_request streams req ≡ err e
    → (e.0 ≡ 400) ⊎ (e.0 ≡ 403)
unfolding check_request
check_request-status streams req e h = elim (Bool-cases (is_stream_allowed streams req.stream)) [
  | inr a ↦ inr (of_status (simp a at h))
  | inl a ↦ elim (Bool-cases (is_empty req.event_type)) [
    | inl b ↦ inl (of_status (simp (a, b) at h))
    | inr b ↦ elim (Bool-cases (is_empty req.payload)) [
      | inl c ↦ inl (of_status (simp (a, b, c) at h))
      | inr c ↦ cc (simp (a, b, c) at h)
    ]
  ]
]
  where
    of_status :
        {a b : Refusal} → ◌≡◌ {A = Result Refusal PublishRequest} (err a) (err b) → b.0 ≡ a.0
    of_status e = ap (λ (x : Refusal). x.0) (sym (err_inj e))
      where
        err_inj : {a b : Refusal} → ◌≡◌ {A = Result Refusal PublishRequest} (err a) (err b) → a ≡ b
        err_inj e = cc

-- A refusal has status 400 or 403.
pub normalize-status :
    (streams : List String) (req : PublishRequest) (d : String) (e : Refusal)
    → normalize streams req d ≡ err e
    → (e.0 ≡ 400) ⊎ (e.0 ≡ 403)
unfolding normalize
normalize-status streams req d e h =
    elim (Result-cases (choose_stream streams d (trim_space req.stream))) [
      | inl (x, c) ↦ inl (
          choose_stream-status streams d (trim_space req.stream) e
            (c ∙ again (rw (c, normalize) at h)))
      | inr (stream, c) ↦
          check_request-status streams (record (trimmed req) { stream = stream }) e
            (rw (c, normalize) at h)
    ]
  where
    again :
        {a b : Refusal}
        → ◌≡◌ {A = Result Refusal PublishRequest} (err a) (err b)
        → ◌≡◌ {A = Result Refusal String} (err a) (err b)
    again e = cc
