-- ===== src/Dispatcher/AckLoop.antt =====
-- queueAck, runAckLoop and flushAckChunkBatch of internal/service/dispatcher.go. The set of pending ids is a
-- list without repetitions; durations are left out.
pub mod Pending
pub mod Flush
use Prim.Native.Char.{code}
use Prim.Native.String.{String}
use text.Mathlib.Text.{◌==◌ as str_eq}
use deepiri_sugar_glider.Base.{
  ℕ, suc, ◌+◌, Bool, true, false, not, ◌&&◌, ◌||◌, Option, none, some, List, [], ◌∷◌, ◌++◌, length,
  ltb, leb, ◌==◌, if◌then◌else◌, GoError, redis_nil, Result, ok, err, ◌≡◌, refl, inl, inr,
  Bool-cases,
}
use deepiri_sugar_glider.Base.Int.{ℤ, pos, negsuc, leb_ℤ}
use deepiri_sugar_glider.Base.Text.{is_empty, trim_space}
use deepiri_sugar_glider.Metrics.{
  Collector, inc_error, inc_acked_entries, observe_dispatcher_ack_queue_depth,
  observe_dispatcher_ack_compression, observe_dispatcher_ack_flush,
}
use deepiri_sugar_glider.Dispatcher.Acks.{safe_chunk_size, chunk_loop, chunk_string_slice}
use deepiri_sugar_glider.Dispatcher.Spans.{count_contiguous_ack_spans}

-- The pipeline of XACK commands: the error of the whole, and the result of each.
abbrev pub Acker : Type 0 → Type 0
Acker W = W → List (List String) → W × Option GoError × List (Result GoError ℤ)

pub record AckSettings : Type 0 where
  pub ack_batch_size : ℤ
  pub ack_flush_concurrency : ℤ
  pub ack_queue_size : ℕ

pub record AckState (W : Type 0) : Type 0 where
  pub queue : List (List String)
  pub pending : List String
  pub pending_input_entries : ℕ
  pub cancelled : Bool
  pub collector : Collector
  pub world : W

pub data AckError : Type 0 where
  ids_required dispatcher_closed ack_backlog : AckError

unfoldable pub clean_ids : List String → List String
unfolding trim_space
clean_ids [] = []
clean_ids (entry_id ∷ entry_ids) =
    let rest = clean_ids entry_ids in
    let trimmed = trim_space entry_id in if is_empty trimmed then rest else trimmed ∷ rest

-- A set of texts.
unfoldable pub is_member : String → List String → Bool
is_member x [] = false
is_member x (y ∷ ys) = let rest = is_member x ys in if str_eq x y then true else rest

unfoldable pub add_ids : List String → List String → List String
unfolding is_member
add_ids pending [] = pending
add_ids pending (x ∷ xs) = add_ids (if is_member x pending then pending else pending ++ x ∷ []) xs

unfoldable pub remove_ids : List String → List String → List String
unfolding is_member
remove_ids ids [] = []
remove_ids ids (x ∷ pending) =
    let rest = remove_ids ids pending in if is_member x ids then rest else x ∷ rest

-- The order of texts by their characters, which is that of their bytes in UTF-8.
is_before : String → String → Bool
is_before String.[] String.[] = false
is_before String.[] (String.◌∷◌ d t) = true
is_before (String.◌∷◌ c s) String.[] = false
is_before (String.◌∷◌ c s) (String.◌∷◌ d t) =
    let rest = is_before s t in if code c == code d then rest else ltb (code c) (code d)

insert_text : String → List String → List String
unfolding is_before
insert_text x [] = x ∷ []
insert_text x (y ∷ ys) =
    let rest = insert_text x ys in if is_before y x then y ∷ rest else x ∷ y ∷ ys

-- sort.Strings
unfoldable pub sort_texts : List String → List String
unfolding insert_text
sort_texts [] = []
sort_texts (x ∷ xs) = insert_text x (sort_texts xs)

module _ {W : Type 0} (cfg : AckSettings) where
  -- Where the queue has room and the dispatcher is cancelled, the select picks either case: `picks_queue`.
  queue_cleaned : Bool → AckState W → List String → AckState W × Result AckError ℕ
  unfolding observe_dispatcher_ack_queue_depth
  queue_cleaned picks_queue st [] = (st, err ids_required)
  queue_cleaned picks_queue st (x ∷ xs) =
      if ltb (length st.queue) cfg.ack_queue_size && (picks_queue || not st.cancelled)
      then (
        record st {
          queue = st.queue ++ (x ∷ xs) ∷ [];
          collector = observe_dispatcher_ack_queue_depth st.collector (length st.queue + 1);
        },
        ok (suc (length xs)),
      )
      else if st.cancelled
      then (st, err dispatcher_closed)
      else (st, err ack_backlog)

  unfoldable pub queue_ack : Bool → AckState W → List String → AckState W × Result AckError ℕ
  unfolding queue_cleaned clean_ids
  queue_ack picks_queue st entry_ids = queue_cleaned picks_queue st (clean_ids entry_ids)

observed-errors :
    (c : Collector) (depth : ℕ)
    → (observe_dispatcher_ack_queue_depth c depth).errors_total ≡ c.errors_total
unfolding observe_dispatcher_ack_queue_depth
observed-errors c depth = elim (Bool-cases (ltb c.dispatcher_ack_queue_depth_peak depth)) [
  | inl e ↦ simp e refl
  | inr e ↦ simp e refl
]

module _ {W : Type 0} (cfg : AckSettings) where
  if-errors :
      (n : ℕ) (b : Bool) (x y : AckState W × Result AckError ℕ)
      → x.0.collector.errors_total ≡ n
      → y.0.collector.errors_total ≡ n
      → (if b then x else y).0.collector.errors_total ≡ n
  if-errors n true x y h k = h
  if-errors n false x y h k = k

  queue_cleaned-errors :
      (picks_queue : Bool) (st : AckState W) (ids : List String)
      → (queue_cleaned cfg picks_queue st ids).0.collector.errors_total ≡ st.collector.errors_total
  unfolding queue_cleaned
  queue_cleaned-errors picks_queue st [] = refl
  queue_cleaned-errors picks_queue st (x ∷ xs) =
      let n = st.collector.errors_total in
      if-errors n (ltb (length st.queue) cfg.ack_queue_size && (picks_queue || not st.cancelled))
        (
          record st {
            queue = st.queue ++ (x ∷ xs) ∷ [];
            collector = observe_dispatcher_ack_queue_depth st.collector (length st.queue + 1);
          },
          ok (suc (length xs)),
        )
        (if st.cancelled then (st, err dispatcher_closed) else (st, err ack_backlog))
        (observed-errors st.collector (length st.queue + 1))
        (if-errors n st.cancelled (st, err dispatcher_closed) (st, err ack_backlog) refl refl)

  -- An acknowledgement that is queued counts no error.
  pub queue_ack-errors :
      (picks_queue : Bool) (st : AckState W) (ids : List String)
      → (queue_ack cfg picks_queue st ids).0.collector.errors_total ≡ st.collector.errors_total
  unfolding queue_ack
  queue_ack-errors picks_queue st ids = queue_cleaned-errors picks_queue st (clean_ids ids)

module _ {W : Type 0} (ack : Acker W) (cfg : AckSettings) where
  count_acked : ℤ → Collector → Collector
  count_acked (pos n) c = if ltb 0 n then inc_acked_entries c n else c
  count_acked (negsuc n) c = c

  -- The results of the commands, one for each chunk.
  unfoldable pub apply_results :
      AckState W → List (List String) → List (Result GoError ℤ) → AckState W
  unfolding count_acked remove_ids
  apply_results st [] results = st
  apply_results st (chunk ∷ chunks) [] = st
  apply_results st (chunk ∷ chunks) (err e ∷ results) =
      apply_results (record st { collector = inc_error st.collector }) chunks results
  apply_results st (chunk ∷ chunks) (ok acked ∷ results) =
      apply_results
        (record st {
          collector = count_acked acked st.collector;
          pending = remove_ids chunk st.pending;
        })
        chunks results

  after_exec :
      AckState W
      → List (List String)
      → Option GoError
      → List (Result GoError ℤ)
      → AckState W × Option GoError
  unfolding apply_results
  after_exec st chunks none results = (apply_results st chunks results, none)
  after_exec st chunks (some redis_nil) results = (apply_results st chunks results, none)
  after_exec st chunks (some e) results = (st, some e)

  unfoldable pub flush_ack_chunk_batch :
      AckState W → List (List String) → AckState W × Option GoError
  unfolding after_exec
  flush_ack_chunk_batch st [] = (st, none)
  flush_ack_chunk_batch st (chunk ∷ chunks) =
      let (w, e, results) = ack st.world (chunk ∷ chunks) in
      after_exec (record st { world = w }) (chunk ∷ chunks) e results

  -- The batches of chunks up to the first error, which is counted.
  unfoldable pub flush_groups : AckState W → List (List (List String)) → AckState W × Bool
  unfolding flush_ack_chunk_batch
  flush_groups st [] = (st, true)
  flush_groups st (group ∷ groups) =
      let (t, e) = flush_ack_chunk_batch st group in
      elim e [
        | some _ ↦ (record t { collector = inc_error t.collector }, false)
        | none ↦ flush_groups t groups
      ]

  finish_flush : ℕ → ℕ → ℕ → ℕ → AckState W × Bool → AckState W
  unfolding observe_dispatcher_ack_compression observe_dispatcher_ack_flush
  finish_flush entries spans saved chunks (st, false) = st
  finish_flush entries spans saved chunks (st, true) = record st {
    collector =
        observe_dispatcher_ack_flush
          (observe_dispatcher_ack_compression st.collector st.pending_input_entries entries spans
            saved)
          chunks;
    pending_input_entries = length st.pending;
  }

  flush_chunks : AckState W → List String → List (List String) → AckState W
  unfolding flush_groups finish_flush count_contiguous_ack_spans chunk_loop safe_chunk_size
  flush_chunks st entry_ids chunks =
      let (spans, saved) = count_contiguous_ack_spans entry_ids in
      finish_flush (length entry_ids) spans saved (length chunks) (
        flush_groups st
          (chunk_loop (length chunks) (safe_chunk_size cfg.ack_flush_concurrency) chunks))

  flush_sorted : AckState W → List String → Option (AckState W)
  unfolding chunk_string_slice flush_chunks
  flush_sorted st entry_ids = elim (chunk_string_slice entry_ids cfg.ack_batch_size) [
    | none ↦ none
    | some chunks ↦ some (flush_chunks st entry_ids chunks)
  ]

  flush_pending : AckState W → List String → Option (AckState W)
  unfolding flush_sorted sort_texts
  flush_pending st [] = some st
  flush_pending st (x ∷ xs) = flush_sorted st (sort_texts (x ∷ xs))

  -- `none` is the panic of chunkStringSlice.
  unfoldable pub flush : AckState W → Option (AckState W)
  unfolding flush_pending
  flush st = flush_pending st st.pending

  add_pending : AckState W → List String → AckState W
  unfolding add_ids
  add_pending st entry_ids = record st {
    pending_input_entries = st.pending_input_entries + length entry_ids;
    pending = add_ids st.pending entry_ids;
  }

  add_all : AckState W → List (List String) → AckState W
  unfolding add_pending
  add_all st [] = st
  add_all st (more ∷ queue) = add_all (add_pending st more) queue

  unfoldable pub drain_queue : AckState W → AckState W
  unfolding add_all
  drain_queue st = add_all (record st { queue = [] }) st.queue

  -- The cases of the loop: the context is done or the ticker ticks, and ids that arrive.
  unfoldable pub on_tick : AckState W → Option (AckState W)
  unfolding drain_queue flush
  on_tick st = flush (drain_queue st)

  flush_if_full : AckState W → Option (AckState W)
  unfolding flush
  flush_if_full st =
      if leb_ℤ cfg.ack_batch_size (pos (length st.pending)) then flush st else some st

  on_ids : AckState W → List (List String) → Option (AckState W)
  unfolding add_pending drain_queue flush_if_full
  on_ids st [] = some st
  on_ids st (entry_ids ∷ queue) =
      flush_if_full (drain_queue (add_pending (record st { queue = queue }) entry_ids))

  unfoldable pub on_ack : AckState W → Option (AckState W)
  unfolding on_ids
  on_ack st = on_ids st st.queue
