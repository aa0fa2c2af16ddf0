-- ===== src/DeadLetter/Sent.antt =====
-- What a replay of internal/service/dlq_replay.go without an error has sent for each entry.
use Prim.Native.String.{String}
use deepiri_sugar_glider.Base.{
  ℕ, suc, ◌+◌, ◌≡◌, ◌⊎◌, refl, sym, ap, ◌∙◌, subst, arith, Bool, true, false, not, ◌||◌, Option,
  none, some, List, [], ◌∷◌, ◌++◌, length, append_assoc, append-nil, if◌then◌else◌, inl, inr,
  GoError, Result, ok, true-false,
}
use deepiri_sugar_glider.Base.Text.{is_empty, trim_space}
use deepiri_sugar_glider.Config.{Config, is_stream_allowed}
use deepiri_sugar_glider.Metrics.{inc_error}
use deepiri_sugar_glider.RedisStreams.{XAddArgs}
use deepiri_sugar_glider.Redis.{Redis, Message}
use deepiri_sugar_glider.Service.{Sidecar, count}
use deepiri_sugar_glider.DeadLetter.Counts.{replay_dlq_internal-Told}
use deepiri_sugar_glider.DeadLetter.Replay.{
  ReplayRequest, ReplayResult, Outcome, skipped, replayed, failed, no_result, trimmed_replay,
  with_defaults, target_of, replay_values, add_skipped, add_replayed, after_delete, after_requeue,
  requeue, replay_one, go_on, replay_messages, Replayed, count_replayed, after_range, replay_range,
  replay_trimmed, replay_dlq_internal,
}

module _ {W : Type 0} (r : Redis W) (req : ReplayRequest) (cfg : Config) where
  -- The entry has a target, to which the configuration allows to publish.
  abbrev pub IsOpen : Message → Type 0
  IsOpen m =
      let target = target_of req.target_stream m in
      (is_empty target ≡ false) × (is_stream_allowed cfg.publish_streams target ≡ true)

  abbrev pub IsClosed : Message → Type 0
  IsClosed m =
      let target = target_of req.target_stream m in
      (is_empty target ≡ true) ⊎ (is_stream_allowed cfg.publish_streams target ≡ false)

  -- The entry as it is added to its target at this time.
  abbrev pub requeued : W → Message → XAddArgs
  requeued w m = record {
    stream = target_of req.target_stream m;
    max_len = cfg.max_stream_len;
    approx = true;
    values = replay_values (r.now w) req.dlq_stream m;
  }

  -- The entry is deleted from the dead-letter stream if the request asks for it; nothing else is sent.
  abbrev pub Deletes : Bool → String → W → W → Type 0
  Deletes true id u v = r.xdel u req.dlq_stream id ≡ (v, none)
  Deletes false id u v = v ≡ u

  -- The commands for these entries, in their order, from one state of Redis to another; the ids of the entries
  -- that were replayed, and how many were skipped.
  pub data Goes : List Message → W → W → List String → ℕ → Type 0 where
    nothing : {w : W} → Goes [] w w [] 0
    skips :
        {m : Message} {ms : List Message} {w v : W} {ids : List String} {n : ℕ}
        → IsClosed m
        → Goes ms w v ids n
        → Goes (m ∷ ms) w v ids (suc n)
    replays :
        {m : Message} {ms : List Message} {w u x v : W} {ids : List String} {n : ℕ}
        → IsOpen m
        → r.xadd w (requeued w m) ≡ (u, none)
        → Deletes req.delete_from_dlq m.id u x
        → Goes ms x v ids n
        → Goes (m ∷ ms) w v (m.id ∷ ids) n

  -- The same for one entry, by its outcome.
  abbrev OneGoes : W → Message → Sidecar W × Outcome → Type 0
  OneGoes w m (s, skipped) = IsClosed m × (s.world ≡ w) × (s.cfg ≡ cfg)
  OneGoes w m (s, replayed) =
      (u : W) × IsOpen m
      × (r.xadd w (requeued w m) ≡ (u, none))
      × Deletes req.delete_from_dlq m.id u s.world
      × (s.cfg ≡ cfg)
  OneGoes w m (s, failed _) = Unit

  if-OneGoes :
      (w : W) (m : Message) (b : Bool) (x y : Sidecar W × Outcome)
      → (b ≡ true → OneGoes w m x)
      → (b ≡ false → OneGoes w m y)
      → OneGoes w m (if b then x else y)
  if-OneGoes w m true x y h k = h refl
  if-OneGoes w m false x y h k = k refl

  deleted :
      (b : Bool) (id : String) (u v : W)
      → b ≡ true
      → r.xdel u req.dlq_stream id ≡ (v, none)
      → Deletes b id u v
  deleted true id u v h d = d
  deleted false id u v h d = cc

  delete-OneGoes :
      (w u v : W) (m : Message) (s : Sidecar W) (e : Option GoError)
      → s.cfg ≡ cfg
      → IsOpen m
      → r.xadd w (requeued w m) ≡ (u, none)
      → req.delete_from_dlq ≡ true
      → r.xdel u req.dlq_stream m.id ≡ (v, e)
      → OneGoes w m (after_delete r m.id (record s { world = v }, e))
  unfolding after_delete
  delete-OneGoes w u v m s none c o a b d = (u, o, a, deleted req.delete_from_dlq m.id u v b d, c)
  delete-OneGoes w u v m s (some e) c o a b d = tt

  requeue-OneGoes :
      (w u : W) (m : Message) (s : Sidecar W) (e : Option GoError)
      → s.cfg ≡ cfg
      → IsOpen m
      → r.xadd w (requeued w m) ≡ (u, e)
      → OneGoes w m (after_requeue r req m.id (record s { world = u }, e))
  unfolding after_requeue
  requeue-OneGoes w u m s (some e) c o a = tt
  requeue-OneGoes w u m s none c o a =
      let d = r.xdel u req.dlq_stream m.id in
      if-OneGoes w m req.delete_from_dlq (after_delete r m.id (record s { world = d.0 }, d.1))
        (record s { world = u }, replayed) (λ b. delete-OneGoes w u d.0 m s d.1 c o a b refl)
        (λ b. (u, o, a, kept req.delete_from_dlq b, c))
    where
      kept : (b : Bool) → b ≡ false → Deletes b m.id u u
      kept true e = cc
      kept false e = refl

  replay_one-OneGoes :
      (s : Sidecar W) (m : Message) → s.cfg ≡ cfg → OneGoes s.world m (replay_one r req s m)
  unfolding replay_one requeue
  replay_one-OneGoes s m c =
      let target = target_of req.target_stream m in
      let sent = r.xadd s.world (record {
        stream = target;
        max_len = s.cfg.max_stream_len;
        approx = true;
        values = replay_values (r.now s.world) req.dlq_stream m;
      }) in
      if-OneGoes s.world m (is_empty target || not (is_stream_allowed s.cfg.publish_streams target))
        (s, skipped) (after_requeue r req m.id (record s { world = sent.0 }, sent.1))
        (λ b. (
          subst
              (λ (k : Config).
                (is_empty target ≡ true) ⊎ (is_stream_allowed k.publish_streams target ≡ false))
              c (is_closed (is_empty target) (is_stream_allowed s.cfg.publish_streams target) b),
          refl,
          c,
        ))
        (λ b.
          let (e, a) =
            is_open (is_empty target) (is_stream_allowed s.cfg.publish_streams target) b in
          requeue-OneGoes s.world sent.0 m s sent.1 c (e, at_cfg target true a)
            (ap
              (λ (k : Config). r.xadd s.world (record {
                stream = target;
                max_len = k.max_stream_len;
                approx = true;
                values = replay_values (r.now s.world) req.dlq_stream m;
              }))
              (sym c)))
    where
      at_cfg :
          (target : String) (b : Bool)
          → is_stream_allowed s.cfg.publish_streams target ≡ b
          → is_stream_allowed cfg.publish_streams target ≡ b
      at_cfg target b a =
          ap (λ (k : Config). is_stream_allowed k.publish_streams target) (sym c) ∙ a

      is_open : (x y : Bool) → (x || not y) ≡ false → (x ≡ false) × (y ≡ true)
      is_open true y h = cc
      is_open false true h = (refl, refl)
      is_open false false h = cc

      is_closed : (x y : Bool) → (x || not y) ≡ true → (x ≡ true) ⊎ (y ≡ false)
      is_closed true y h = inl refl
      is_closed false true h = cc
      is_closed false false h = inr refl

  -- What a loop from a result on has sent and counted, if no error ended it.
  record Went (s : Sidecar W) (start : ReplayResult) (ms : List Message) (x : Replayed r)
      : Type 0 where
    ids : List String
    skips_in : ℕ
    goes : Goes ms s.world x.0.world ids skips_in
    entry_ids : x.1.entry_ids ≡ start.entry_ids ++ ids
    skipped_in : x.1.skipped ≡ start.skipped + skips_in

  go_on-Went :
      (rest : Sidecar W → ReplayResult → Replayed r) (s : Sidecar W) (m : Message)
      (ms : List Message) (start : ReplayResult) (p : Sidecar W × Outcome)
      → OneGoes s.world m p
      → ((t : Sidecar W) (b : ReplayResult)
          → t.cfg ≡ cfg
          → (rest t b).2 ≡ none
          → Went t b ms (rest t b))
      → (go_on r rest m.id start p).2 ≡ none
      → Went s start (m ∷ ms) (go_on r rest m.id start p)
  unfolding go_on add_skipped add_replayed
  go_on-Went rest s m ms start (t, skipped) (o, w, c) k h =
      let b = add_skipped start in
      let g = k t b c h in
      record {
        ids = g.ids;
        skips_in = suc g.skips_in;
        goes = skips o (subst (λ v. Goes ms v (rest t b).0.world g.ids g.skips_in) w g.goes);
        entry_ids = g.entry_ids;
        skipped_in = omega (arith, g.skipped_in);
      }
  go_on-Went rest s m ms start (t, replayed) (u, o, a, d, c) k h =
      let g = k t (add_replayed m.id start) c h in
      record {
        ids = m.id ∷ g.ids;
        skips_in = g.skips_in;
        goes = replays o a d g.goes;
        entry_ids = g.entry_ids ∙ append_assoc start.entry_ids (m.id ∷ []) g.ids;
        skipped_in = g.skipped_in;
      }
  go_on-Went rest s m ms start (t, failed f) o k h = cc

  replay_messages-Went :
      (ms : List Message) (s : Sidecar W) (start : ReplayResult)
      → s.cfg ≡ cfg
      → (replay_messages r req s start ms).2 ≡ none
      → Went s start ms (replay_messages r req s start ms)
  unfolding replay_messages
  replay_messages-Went [] s start c h = record {
    ids = [];
    skips_in = 0;
    goes = nothing;
    entry_ids = sym (append-nil start.entry_ids);
    skipped_in = omega arith;
  }
  replay_messages-Went (m ∷ ms) s start c h =
      go_on-Went (λ t b. replay_messages r req t b ms) s m ms start (replay_one r req s m)
        (replay_one-OneGoes s m c) (replay_messages-Went ms) h

  -- What the whole has sent: the commands for the entries that were read.
  abbrev Sent : W → List Message → Replayed r → Type 0
  Sent w ms (t, result, e) = e ≡ none → Goes ms w t.world result.entry_ids result.skipped

  count_replayed-Sent :
      (s : Sidecar W) (ms : List Message) (x : Replayed r)
      → (x.2 ≡ none → Went s no_result ms x)
      → Sent s.world ms (count_replayed r x)
  unfolding count_replayed
  count_replayed-Sent s ms (t, result, some f) k h = cc
  count_replayed-Sent s ms (t, result, none) k h =
      let g = k refl in
      subst (λ ids. Goes ms s.world t.world ids result.skipped) (sym g.entry_ids)
        (subst (Goes ms s.world t.world g.ids) (exactly g.skipped_in) g.goes)
    where
      exactly : {a b : ℕ} → b ≡ 0 + a → a ≡ b
      exactly e = omega (arith, e)

  pub after_range-Sent :
      (s : Sidecar W) (ms : List Message) (a : Result GoError (List Message))
      → s.cfg ≡ cfg
      → a ≡ ok ms
      → Sent s.world ms (after_range r req s a)
  unfolding after_range
  after_range-Sent s ms a c e =
      subst (λ b. Sent s.world ms (after_range r req s b)) (sym e)
        (count_replayed-Sent s ms (replay_messages r req s no_result ms)
          (replay_messages-Went ms s no_result c))

module _ {W : Type 0} (r : Redis W) where
  if-Sent :
      (req : ReplayRequest) (cfg : Config) (w : W) (ms : List Message) (b : Bool) (x y : Replayed r)
      → b ≡ false
      → Sent r req cfg w ms y
      → Sent r req cfg w ms (if b then x else y)
  if-Sent req cfg w ms true x y e h = absurd (true-false e)
  if-Sent req cfg w ms false x y e h = h

  -- Where Redis returns entries to a replay that no error ends, their commands have gone to Redis in their
  -- order and nothing else has: an entry without a target that the configuration allows is skipped, and for
  -- every other one the entry is added to its target, without an error, and is then deleted from the
  -- dead-letter stream if the request asks for it. The result has the ids of the second kind in this order, and
  -- counts those of both kinds.
  pub replay_dlq_internal-all :
      (s : Sidecar W) (req : ReplayRequest) (messages : List Message)
      → is_empty (trim_space req.dlq_stream) ≡ false
      → let d = with_defaults (trimmed_replay req) in
        let (w, answer) = r.xrange_n s.world d.dlq_stream d.start d.stop d.count in
        let (t, result, e) = replay_dlq_internal r s req in
        answer ≡ ok messages
        → e ≡ none
        → Goes r d s.cfg messages w t.world result.entry_ids result.skipped
          × (result.replayed ≡ length result.entry_ids)
  unfolding replay_dlq_internal replay_trimmed replay_range
  replay_dlq_internal-all s req messages n h e =
      let named = trimmed_replay req in
      let d = with_defaults named in
      let (w, answer) = r.xrange_n s.world d.dlq_stream d.start d.stop d.count in
      (
        if-Sent d s.cfg w messages (is_empty named.dlq_stream)
            (count s (inc_error s.collector), no_result, some (400, "dlq_stream is required"))
            (replay_range r d s) n
            (after_range-Sent r d s.cfg (record s { world = w }) messages answer refl h) e,
        sym (replay_dlq_internal-Told r s req).2,
      )
