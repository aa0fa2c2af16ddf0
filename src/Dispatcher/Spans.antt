-- ===== src/Dispatcher/Spans.antt =====
-- Entry ids and the spans that they make: parseStreamIDParts and countContiguousAckSpans of
-- internal/service/dispatcher.go.
use Prim.Native.String.{String}
use deepiri_sugar_glider.Base.{
  ℕ, suc, ◌+◌, ◌-◌, ◌≤◌, ◌%◌, ◌^◌, ◌≡◌, refl, ap, ◌∙◌, arith, Bool, ◌&&◌, Option, none, some, List,
  [], ◌∷◌, ◌==◌, ltb, if◌then◌else◌, inl, inr, Bool-cases, length,
}
use deepiri_sugar_glider.Base.Parse.{cut, parse_uint64}

pub record StreamIdParts : Type 0 where
  pub ms : ℕ
  pub seq : ℕ

both_parts : Option ℕ → Option ℕ → Option StreamIdParts
both_parts (some ms) (some seq) = some (record { ms = ms; seq = seq })
both_parts _ _ = none

unfoldable pub parse_stream_id_parts : String → Option StreamIdParts
unfolding cut parse_uint64 both_parts
parse_stream_id_parts entry_id = elim (cut entry_id "-") [
  | none ↦ none
  | some (ms_raw, seq_raw) ↦ both_parts (parse_uint64 ms_raw) (parse_uint64 seq_raw)
]

-- The ids that parse.
unfoldable pub parse_all : List String → List StreamIdParts
unfolding parse_stream_id_parts
parse_all [] = []
parse_all (entry_id ∷ entry_ids) =
    let rest = parse_all entry_ids in
    elim (parse_stream_id_parts entry_id) [ none ↦ rest | some parts ↦ parts ∷ rest ]

-- The order of the sort.
is_before : StreamIdParts → StreamIdParts → Bool
is_before a b = if a.ms == b.ms then ltb a.seq b.seq else ltb a.ms b.ms

insert : StreamIdParts → List StreamIdParts → List StreamIdParts
unfolding is_before
insert p [] = p ∷ []
insert p (q ∷ qs) = let rest = insert p qs in if is_before q p then q ∷ rest else p ∷ q ∷ qs

-- sort.Slice
unfoldable pub sort_parts : List StreamIdParts → List StreamIdParts
unfolding insert
sort_parts [] = []
sort_parts (p ∷ ps) = insert p (sort_parts ps)

-- The sequence number is a uint64.
pub is_next : StreamIdParts → StreamIdParts → Bool
is_next previous current = current.ms == previous.ms && current.seq == (previous.seq + 1) % 2 ^ 64

saved_by : ℕ → ℕ
saved_by length = if ltb 1 length then length - 1 else 0

-- The loop over the sorted parts: spans, the length of the current one, and the entries saved.
span_loop : StreamIdParts → List StreamIdParts → ℕ → ℕ → ℕ → ℕ × ℕ
unfolding is_next saved_by
span_loop previous [] spans current saved = (spans, saved + saved_by current)
span_loop previous (p ∷ ps) spans current saved =
    let next = is_next previous p in
    span_loop p ps (if next then spans else suc spans) (if next then suc current else 1)
      (if next then saved else saved + saved_by current)

count_sorted : List StreamIdParts → ℕ × ℕ
unfolding span_loop
count_sorted [] = (0, 0)
count_sorted (p ∷ ps) = span_loop p ps 1 1 0

unfoldable pub count_contiguous_ack_spans : List String → ℕ × ℕ
unfolding count_sorted sort_parts parse_all
count_contiguous_ack_spans entry_ids = count_sorted (sort_parts (parse_all entry_ids))

-- The neighbours that differ by one in their sequence numbers.
pub neighbours : List StreamIdParts → ℕ
neighbours [] = 0
neighbours (p ∷ []) = 0
neighbours (p ∷ q ∷ ps) = let rest = neighbours (q ∷ ps) in if is_next p q then suc rest else rest

span_loop-counts :
    (previous : StreamIdParts) (ps : List StreamIdParts) (spans current saved : ℕ)
    → 1 ≤ current
    → ((span_loop previous ps spans current saved).1
        ≡ saved + (current - 1) + neighbours (previous ∷ ps))
      × ((span_loop previous ps spans current saved).0 + neighbours (previous ∷ ps)
          ≡ spans + length ps)
unfolding span_loop neighbours saved_by
span_loop-counts previous [] spans current saved h = (ground arith, omega arith)
span_loop-counts previous (p ∷ ps) spans current saved h =
    let next = is_next previous p in
    let (a, b) =
      span_loop-counts p ps (if next then spans else suc spans) (if next then suc current else 1)
        (if next then saved else saved + saved_by current) (ground arith) in
    (ground (arith, a, h), ground (arith, b))

length-insert :
    (p : StreamIdParts) (ps : List StreamIdParts) → length (insert p ps) ≡ suc (length ps)
unfolding insert
length-insert p [] = refl
length-insert p (q ∷ qs) = elim (Bool-cases (is_before q p)) [
  | inl e ↦ rw e (ap suc (length-insert p qs))
  | inr e ↦ rw e refl
]

length-sort_parts : (ps : List StreamIdParts) → length (sort_parts ps) ≡ length ps
unfolding sort_parts
length-sort_parts [] = refl
length-sort_parts (p ∷ ps) = length-insert p (sort_parts ps) ∙ ap suc (length-sort_parts ps)

count_sorted-counts :
    (ps : List StreamIdParts)
    → ((count_sorted ps).1 ≡ neighbours ps)
      × ((count_sorted ps).0 + (count_sorted ps).1 ≡ length ps)
unfolding count_sorted neighbours
count_sorted-counts [] = (refl, refl)
count_sorted-counts (p ∷ ps) =
    let (a, b) = span_loop-counts p ps 1 1 0 (omega arith) in
    (omega (arith, a), omega (arith, a, b))

-- The entries saved are the neighbours in the sorted ids that differ by one, and the spans and the entries
-- saved add up to the ids that parse.
pub count_contiguous_ack_spans-counts :
    (entry_ids : List String)
    → ((count_contiguous_ack_spans entry_ids).1 ≡ neighbours (sort_parts (parse_all entry_ids)))
      × ((count_contiguous_ack_spans entry_ids).0 + (count_contiguous_ack_spans entry_ids).1
          ≡ length (parse_all entry_ids))
unfolding count_contiguous_ack_spans
count_contiguous_ack_spans-counts entry_ids =
    let sorted = sort_parts (parse_all entry_ids) in
    let (a, b) = count_sorted-counts sorted in (a, b ∙ length-sort_parts (parse_all entry_ids))
