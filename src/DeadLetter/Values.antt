-- ===== src/DeadLetter/Values.antt =====
-- The fields of an entry that movePendingEntryToDLQ of internal/service/service.go writes and that
-- replayDLQInternal of internal/service/dlq_replay.go publishes again.
use Prim.Native.String.{String}
use package.text.Mathlib.Text.{◌==◌ as str_eq}
use package.text.Mathlib.TextEquality.{eq_iff}
use deepiri_sugar_glider.Base.{
  true-false, ◌≡◌, refl, sym, ap, ◌∙◌, subst, arith, Bool, true, false, Option, none, some, [], ◌∷◌,
  if◌then◌else◌, inl, inr, Bool-cases,
}
use deepiri_sugar_glider.Base.Text.{trim_space}
use deepiri_sugar_glider.Base.Parse.{has_prefix}
use deepiri_sugar_glider.RedisStreams.{Value, text}
use deepiri_sugar_glider.Redis.{Fields, Message, Pending, field, assign, sprint}
use deepiri_sugar_glider.DeadLetter.{dlq_metadata, overlay, dlq_values}
use deepiri_sugar_glider.DeadLetter.Replay.{target_of, strip_dlq, keep_original, replay_values}

-- The keys of a map are different.
abbrev pub IsMap : Fields → Type 0
IsMap [] = Unit
IsMap ((k, v) ∷ fields) = (field k fields ≡ none) × IsMap fields

abbrev pub over : Option Value → Option Value → Option Value
over (some v) o = some v
over none o = o

field-assign :
    (j k : String) (v : Value) (fields : Fields)
    → field j (assign k v fields) ≡ (if str_eq k j then some v else field j fields)
unfolding field assign
field-assign j k v [] = ground arith
field-assign j k v ((i, old) ∷ fields) =
    ground (arith, eq_iff i k, eq_iff i j, eq_iff k j, field-assign j k v fields)

field-overlay :
    (k : String) (fields out : Fields)
    → IsMap fields
    → field k (overlay fields out) ≡ over (field k fields) (field k out)
unfolding overlay field
field-overlay k [] out m = refl
field-overlay k ((j, v) ∷ fields) out (n, m) = elim (Bool-cases (str_eq j k)) [
  | inl e ↦
      field-overlay k fields (assign j v out) m
      ∙ rw (subst (λ i. field i fields ≡ none) ((eq_iff j k).0 e) n, field-assign k j v out, e) refl
  | inr e ↦ field-overlay k fields (assign j v out) m ∙ rw (field-assign k j v out, e) refl
]

field-strip_dlq :
    (k : String) (fields : Fields)
    → field k (strip_dlq fields) ≡ (if has_prefix k "dlq_" then none else field k fields)
unfolding strip_dlq field
field-strip_dlq k [] = elim (Bool-cases (has_prefix k "dlq_")) [
  | inl e ↦ rw e refl
  | inr e ↦ rw e refl
]
field-strip_dlq k ((j, v) ∷ fields) = elim (Bool-cases (has_prefix j "dlq_")) [
  | inl p ↦ elim (Bool-cases (str_eq j k)) [
    | inl e ↦
        let marked = subst (λ i. has_prefix i "dlq_" ≡ true) ((eq_iff j k).0 e) p in
        rw (p, marked) (rw marked at (field-strip_dlq k fields))
    | inr e ↦ rw (p, e) (field-strip_dlq k fields)
  ]
  | inr p ↦ elim (Bool-cases (str_eq j k)) [
    | inl e ↦ rw (p, e, subst (λ i. has_prefix i "dlq_" ≡ false) ((eq_iff j k).0 e) p) refl
    | inr e ↦ rw (p, e) (field-strip_dlq k fields)
  ]
]

field-keep_original :
    (o : Option Value) (values : Fields) (k : String)
    → field k (keep_original o values)
      ≡ over (if str_eq "dlq_original_id" k then o else none) (field k values)
unfolding keep_original
field-keep_original none values k = elim (Bool-cases (str_eq "dlq_original_id" k)) [
  | inl e ↦ rw e refl
  | inr e ↦ rw e refl
]
field-keep_original (some v) values k =
    field-assign k "dlq_original_id" v values
    ∙ over_if (str_eq "dlq_original_id" k) v (field k values)
  where
    over_if :
        (b : Bool) (v : Value) (o : Option Value)
        → (if b then some v else o) ≡ over (if b then some v else none) o
    over_if true v o = refl
    over_if false v o = refl

-- What a replayed entry has in a field, read off the entry of the dead-letter stream.
unfoldable pub expected : String → String → Message → String → Option Value
unfolding field has_prefix
expected now dlq_stream message k =
    over (if str_eq "dlq_original_id" k then field "dlq_original_id" message.values else none) (
      if str_eq "dlq_replayed_at" k
      then some (text now)
      else if str_eq "dlq_replayed_from" k
      then some (text dlq_stream)
      else if has_prefix k "dlq_"
      then none
      else field k message.values)

-- The fields of a replayed entry are those of the entry in the dead-letter stream, less the ones that start
-- with "dlq_", with the time and the stream of the replay, and the original id where there was one.
pub replay_values-field :
    (now dlq_stream : String) (message : Message) (k : String)
    → field k (replay_values now dlq_stream message) ≡ expected now dlq_stream message k
unfolding replay_values expected
replay_values-field now dlq_stream message k =
    let inner = assign "dlq_replayed_from" (text dlq_stream) (strip_dlq message.values) in
    field-keep_original (field "dlq_original_id" message.values)
      (assign "dlq_replayed_at" (text now) inner) k
    ∙ ap
        (over (if str_eq "dlq_original_id" k then field "dlq_original_id" message.values else none))
        (field-assign k "dlq_replayed_at" (text now) inner
          ∙ ap (λ o. if str_eq "dlq_replayed_at" k then some (text now) else o)
              (field-assign k "dlq_replayed_from" (text dlq_stream) (strip_dlq message.values)
                ∙ ap (λ o. if str_eq "dlq_replayed_from" k then some (text dlq_stream) else o)
                    (field-strip_dlq k message.values)))

-- Fields that all start with "dlq_".
abbrev IsMarked : Fields → Type 0
IsMarked [] = Unit
IsMarked ((k, v) ∷ fields) = (has_prefix k "dlq_" ≡ true) × IsMarked fields

marked_apart :
    (j k : String) → has_prefix j "dlq_" ≡ true → has_prefix k "dlq_" ≡ false → str_eq j k ≡ false
marked_apart j k h n = elim (Bool-cases (str_eq j k)) [
  | inr e ↦ e
  | inl e ↦
      absurd (true-false (sym (subst (λ i. has_prefix i "dlq_" ≡ true) ((eq_iff j k).0 e) h) ∙ n))
]

field-IsMarked :
    (k : String) (fields : Fields)
    → IsMarked fields
    → has_prefix k "dlq_" ≡ false
    → field k fields ≡ none
unfolding field
field-IsMarked k [] m h = refl
field-IsMarked k ((j, v) ∷ fields) (p, m) h =
    rw (marked_apart j k p h) (field-IsMarked k fields m h)

metadata-IsMarked :
    (now stream group id : String) (pending : Pending)
    → IsMarked (dlq_metadata now stream group id pending)
unfolding dlq_metadata has_prefix
metadata-IsMarked now stream group id pending =
    (refl, (refl, (refl, (refl, (refl, (refl, (refl, tt)))))))

expected_unmarked :
    (now dlq_stream : String) (message : Message) (k : String)
    → has_prefix k "dlq_" ≡ false
    → expected now dlq_stream message k ≡ field k message.values
unfolding expected
expected_unmarked now dlq_stream message k h =
    rw
      (
        h,
        marked_apart "dlq_original_id" k (unfold has_prefix in refl) h,
        marked_apart "dlq_replayed_at" k (unfold has_prefix in refl) h,
        marked_apart "dlq_replayed_from" k (unfold has_prefix in refl) h,
      )
      refl

over-none : (o : Option Value) → over o none ≡ o
over-none none = refl
over-none (some v) = refl

-- The entry of the dead-letter stream that a message becomes.
unfoldable pub dead : String → String → String → String → Message → Pending → Message
unfolding dlq_values
dead id now stream group message pending = record {
  id = id;
  values = dlq_values now stream group message pending;
}

-- A message that is moved to the dead-letter stream and replayed from there has its own fields again, those
-- that do not start with "dlq_"; it goes to the stream that it came from, if the request names no other, the
-- name of that stream is trimmed and the message had no field of its own in place of the original stream.
pub replay-move :
    (id now now' stream group dlq_stream k : String) (message : Message) (pending : Pending)
    → IsMap message.values
    → has_prefix k "dlq_" ≡ false
    → field "dlq_original_stream" message.values ≡ none
    → trim_space stream ≡ stream
    → let entry = dead id now stream group message pending in
      (field k (replay_values now' dlq_stream entry) ≡ field k message.values)
      × (target_of "" entry ≡ stream)
unfolding dead dlq_values target_of
replay-move id now now' stream group dlq_stream k message pending m h n t =
    let entry = dead id now stream group message pending in
    let meta = dlq_metadata now stream group message.id pending in
    (
      replay_values-field now' dlq_stream entry k
          ∙ expected_unmarked now' dlq_stream entry k h
          ∙ field-overlay k message.values meta m
          ∙ ap (over (field k message.values))
              (field-IsMarked k meta (metadata-IsMarked now stream group message.id pending) h)
          ∙ over-none (field k message.values),
      rw (field-overlay "dlq_original_stream" message.values meta m, n)
          (unfold dlq_metadata field sprint in t),
    )
