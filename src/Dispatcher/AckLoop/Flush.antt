-- ===== src/Dispatcher/AckLoop/Flush.antt =====
-- What the flush of runAckLoop, internal/service/dispatcher.go, does to the pending ids.
use Prim.Native.String.{String}
use deepiri_sugar_glider.Base.{
  ℕ, ◌+◌, ◌≤◌, ◌^◌, ◌≡◌, refl, sym, ap, ◌∙◌, subst, arith, Bool, true, false, Option, none, some,
  List, [], ◌∷◌, ◌++◌, length, All, GoError, Result, ok, err, append_assoc,
}
use deepiri_sugar_glider.Base.Int.{ℤ}
use deepiri_sugar_glider.Dispatcher.Acks.{
  safe_chunk_size, chunk_loop, chunk_string_slice, concat, chunk_loop-concat, chunk_loop-Sized,
  Sized, safe_positive, chunk_string_slice-concat,
}
use deepiri_sugar_glider.Dispatcher.Spans.{count_contiguous_ack_spans}
use deepiri_sugar_glider.Dispatcher.AckLoop.Pending.{
  remove_ids-remove_ids, remove_nothing, remove_sorted, length-sort_texts, occurrences,
  occurrences-sort_texts,
}
use deepiri_sugar_glider.Dispatcher.AckLoop.{
  Acker, AckSettings, AckState, remove_ids, sort_texts, count_acked, apply_results, after_exec,
  flush_ack_chunk_batch, flush_groups, finish_flush, flush_chunks, flush_sorted, flush_pending,
  flush,
}

concat-append : (xs ys : List (List String)) → concat (xs ++ ys) ≡ concat xs ++ concat ys
unfolding concat
concat-append [] ys = refl
concat-append (x ∷ xs) ys =
    ap (λ z. x ++ z) (concat-append xs ys) ∙ sym (append_assoc x (concat xs) (concat ys))

-- Every command is answered without an error.
pub record Acknowledges {W : Type 0} (ack : Acker W) : Type 0 where
  pub no_error : (w : W) (chunks : List (List String)) → (ack w chunks).1 ≡ none
  pub results_ok :
      (w : W) (chunks : List (List String))
      → All (λ (r : Result GoError ℤ). (n : ℤ) × (r ≡ ok n)) (ack w chunks).2
  pub results_length :
      (w : W) (chunks : List (List String)) → length (ack w chunks).2 ≡ length chunks

module _ {W : Type 0} (ack : Acker W) (cfg : AckSettings) (good : Acknowledges ack) where
  apply_results-pending :
      (st : AckState W) (chunks : List (List String)) (results : List (Result GoError ℤ))
      → All (λ (r : Result GoError ℤ). (n : ℤ) × (r ≡ ok n)) results
      → length results ≡ length chunks
      → (apply_results ack cfg st chunks results).pending ≡ remove_ids (concat chunks) st.pending
  unfolding apply_results concat
  apply_results-pending st [] results a h = sym (remove_nothing st.pending)
  apply_results-pending st (chunk ∷ chunks) [] a h = absurd (omega (arith, h))
  apply_results-pending st (chunk ∷ chunks) (err e ∷ results) a h = absurd (err_ok a.0.1)
    where
      err_ok : {n : ℤ} → ◌≡◌ {A = Result GoError ℤ} (err e) (ok n) → ⊥
      err_ok z = cc
  apply_results-pending st (chunk ∷ chunks) (ok n ∷ results) a h =
      apply_results-pending
        (record st {
          collector = count_acked ack cfg n st.collector;
          pending = remove_ids chunk st.pending;
        })
        chunks results a.1 (omega (arith, h))
      ∙ remove_ids-remove_ids chunk (concat chunks) st.pending

  after_exec-none :
      (st : AckState W) (chunks : List (List String)) (e : Option GoError)
      (results : List (Result GoError ℤ))
      → e ≡ none
      → after_exec ack cfg st chunks e results ≡ (apply_results ack cfg st chunks results, none)
  unfolding after_exec
  after_exec-none st chunks none results h = refl
  after_exec-none st chunks (some e) results h = cc

  batch-pending :
      (st : AckState W) (chunks : List (List String))
      → ((flush_ack_chunk_batch ack cfg st chunks).1 ≡ none)
        × ((flush_ack_chunk_batch ack cfg st chunks).0.pending
            ≡ remove_ids (concat chunks) st.pending)
  unfolding flush_ack_chunk_batch concat
  batch-pending st [] = (refl, sym (remove_nothing st.pending))
  batch-pending st (chunk ∷ chunks) =
      let r = ack st.world (chunk ∷ chunks) in
      let e =
        after_exec-none (record st { world = r.0 }) (chunk ∷ chunks) r.1 r.2
          (good.no_error st.world (chunk ∷ chunks)) in
      (
        ap (λ p. p.1) e,
        ap (λ p. p.0.pending) e
            ∙ apply_results-pending (record st { world = r.0 }) (chunk ∷ chunks) r.2
                (good.results_ok st.world (chunk ∷ chunks))
                (good.results_length st.world (chunk ∷ chunks)),
      )

  -- The world after these commands, one pipeline for each group of chunks.
  pub sent : W → List (List (List String)) → W
  sent w [] = w
  sent w (group ∷ groups) = sent (ack w group).0 groups

  apply_results-world :
      (st : AckState W) (chunks : List (List String)) (results : List (Result GoError ℤ))
      → (apply_results ack cfg st chunks results).world ≡ st.world
  unfolding apply_results
  apply_results-world st [] results = refl
  apply_results-world st (chunk ∷ chunks) [] = refl
  apply_results-world st (chunk ∷ chunks) (err e ∷ results) =
      apply_results-world (record st { collector = _ }) chunks results
  apply_results-world st (chunk ∷ chunks) (ok n ∷ results) =
      apply_results-world (record st { collector = _; pending = remove_ids chunk st.pending })
        chunks results

  batch-world :
      (st : AckState W) (chunk : List String) (chunks : List (List String))
      → (flush_ack_chunk_batch ack cfg st (chunk ∷ chunks)).0.world
        ≡ (ack st.world (chunk ∷ chunks)).0
  unfolding flush_ack_chunk_batch
  batch-world st chunk chunks =
      let r = ack st.world (chunk ∷ chunks) in
      ap (λ p. p.0.world)
        (after_exec-none (record st { world = r.0 }) (chunk ∷ chunks) r.1 r.2
          (good.no_error st.world (chunk ∷ chunks)))
      ∙ apply_results-world (record st { world = r.0 }) (chunk ∷ chunks) r.2

  groups-world :
      (st : AckState W) (groups : List (List (List String)))
      → All (λ g. 1 ≤ length g) groups
      → (flush_groups ack cfg st groups).0.world ≡ sent st.world groups
  unfolding flush_groups sent
  groups-world st [] h = refl
  groups-world st ([] ∷ groups) h = absurd (omega (arith, h.0))
  groups-world st ((chunk ∷ chunks) ∷ groups) h =
      let t = (flush_ack_chunk_batch ack cfg st (chunk ∷ chunks)).0 in
      rw ((batch-pending st (chunk ∷ chunks)).0, flush_groups)
        (groups-world t groups h.1 ∙ ap (λ w. sent w groups) (batch-world st chunk chunks))

  groups-pending :
      (st : AckState W) (groups : List (List (List String)))
      → ((flush_groups ack cfg st groups).1 ≡ true)
        × ((flush_groups ack cfg st groups).0.pending
            ≡ remove_ids (concat (concat groups)) st.pending)
  unfolding flush_groups concat
  groups-pending st [] = (refl, sym (remove_nothing st.pending))
  groups-pending st (group ∷ groups) =
      let (e, p) = batch-pending st group in
      let t = (flush_ack_chunk_batch ack cfg st group).0 in
      let (f, q) = groups-pending t groups in
      rw (e, flush_groups)
        (
          f,
          q
              ∙ ap (remove_ids (concat (concat groups))) p
              ∙ remove_ids-remove_ids (concat group) (concat (concat groups)) st.pending
              ∙ ap (λ ids. remove_ids ids st.pending) (sym (concat-append group (concat groups))),
        )

  finish_flush-pending :
      (entries spans saved chunks : ℕ) (r : AckState W × Bool)
      → (finish_flush ack cfg entries spans saved chunks r).pending ≡ r.0.pending
  unfolding finish_flush
  finish_flush-pending entries spans saved chunks (st, true) = refl
  finish_flush-pending entries spans saved chunks (st, false) = refl

  finish_flush-world :
      (entries spans saved chunks : ℕ) (r : AckState W × Bool)
      → (finish_flush ack cfg entries spans saved chunks r).world ≡ r.0.world
  unfolding finish_flush
  finish_flush-world entries spans saved chunks (st, true) = refl
  finish_flush-world entries spans saved chunks (st, false) = refl

  -- The commands that acknowledge these ids: the ids cut into chunks, and the chunks into groups.
  pub record Commands (ids : List String) (groups : List (List (List String))) : Type 0 where
    pub in_order : concat (concat groups) ≡ ids
    pub chunk_sizes : All (Sized (safe_chunk_size cfg.ack_batch_size)) (concat groups)
    pub group_sizes : All (Sized (safe_chunk_size cfg.ack_flush_concurrency)) groups

  -- All of the ids have been sent, and are pending no more.
  pub record Flushed (st t : AckState W) (ids : List String) : Type 0 where
    pub groups : List (List (List String))
    pub commands : Commands ids groups
    pub world : t.world ≡ sent st.world groups
    pub pending : t.pending ≡ remove_ids ids st.pending

  All-some :
      (n : ℕ) (groups : List (List (List String)))
      → All (Sized n) groups
      → All (λ g. 1 ≤ length g) groups
  All-some n [] h = tt
  All-some n (g ∷ groups) (h, k) = (h.0, All-some n groups k)

  flush_chunks-Flushed :
      (st : AckState W) (entry_ids : List String) (chunks : List (List String))
      → concat chunks ≡ entry_ids
      → All (Sized (safe_chunk_size cfg.ack_batch_size)) chunks
      → Flushed st (flush_chunks ack cfg st entry_ids chunks) entry_ids
  unfolding flush_chunks
  flush_chunks-Flushed st entry_ids chunks c z =
      let size = safe_chunk_size cfg.ack_flush_concurrency in
      let one = safe_positive cfg.ack_flush_concurrency in
      let groups = chunk_loop (length chunks) size chunks in
      let (spans, saved) = count_contiguous_ack_spans entry_ids in
      let flushed = flush_groups ack cfg st groups in
      let whole = chunk_loop-concat (length chunks) size chunks (omega arith) one in
      let sizes = chunk_loop-Sized (length chunks) size chunks one in
      record {
        groups = groups;
        commands = record {
          in_order = ap concat whole ∙ c;
          chunk_sizes = subst (All (Sized (safe_chunk_size cfg.ack_batch_size))) (sym whole) z;
          group_sizes = sizes;
        };
        world =
            finish_flush-world (length entry_ids) spans saved (length chunks) flushed
            ∙ groups-world st groups (All-some size groups sizes);
        pending =
            finish_flush-pending (length entry_ids) spans saved (length chunks) flushed
            ∙ (groups-pending st groups).1
            ∙ ap (λ ids. remove_ids ids st.pending) (ap concat whole ∙ c);
      }

  flush_sorted-some :
      (st : AckState W) (entry_ids : List String) (chunks : List (List String))
      → chunk_string_slice entry_ids cfg.ack_batch_size ≡ some chunks
      → flush_sorted ack cfg st entry_ids ≡ some (flush_chunks ack cfg st entry_ids chunks)
  unfolding flush_sorted
  flush_sorted-some st entry_ids chunks e = rw (e, flush_sorted) refl

  flush_pending-Flushed :
      (st : AckState W) (p : List String)
      → length p + safe_chunk_size cfg.ack_batch_size ≤ 2 ^ 63
      → (t : AckState W) × (flush_pending ack cfg st p ≡ some t) × Flushed st t (sort_texts p)
  unfolding flush_pending sort_texts sent concat
  flush_pending-Flushed st [] b = (
    st,
    refl,
    record {
      groups = [];
      commands = record { in_order = refl; chunk_sizes = tt; group_sizes = tt };
      world = refl;
      pending = sym (remove_nothing st.pending);
    },
  )
  flush_pending-Flushed st (x ∷ xs) b =
      let sorted = sort_texts (x ∷ xs) in
      let (chunks, e, c, z) = chunk_string_slice-concat sorted cfg.ack_batch_size (
        subst (λ n. n + safe_chunk_size cfg.ack_batch_size ≤ 2 ^ 63)
          (sym (length-sort_texts (x ∷ xs))) b) in
      (
        flush_chunks ack cfg st sorted chunks,
        flush_sorted-some st sorted chunks e,
        flush_chunks-Flushed st sorted chunks c z,
      )

  -- Where every command is answered without an error, and the pending ids and the batch size add up to at most
  -- 2 ^ 63, a flush sends the pending ids, each as often as it is pending, in chunks of at most the batch size
  -- and one pipeline for each group of chunks, it sends nothing else, and no id is left pending.
  pub flush_empties :
      (st : AckState W)
      → length st.pending + safe_chunk_size cfg.ack_batch_size ≤ 2 ^ 63
      → (t : AckState W) × (flush ack cfg st ≡ some t)
        × (t.pending ≡ [])
        × (ids : List String) × ((x : String) → occurrences x ids ≡ occurrences x st.pending)
        × (groups : List (List (List String))) × Commands ids groups
        × (t.world ≡ sent st.world groups)
  unfolding flush
  flush_empties st b =
      let (t, e, f) = flush_pending-Flushed st st.pending b in
      (
        t,
        e,
        f.pending ∙ remove_sorted st.pending,
        sort_texts st.pending,
        (λ x. occurrences-sort_texts x st.pending),
        f.groups,
        f.commands,
        f.world,
      )
