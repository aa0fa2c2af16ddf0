-- ===== src/Redis.antt =====
-- The client of Redis that internal/service calls for consumer groups and dead-letter streams, and the
-- functions of internal/service on the values that it returns.
use Prim.Native.String.{String, ◌++◌ as append_text}
use Prim.Native.Char.{code}
use package.text.Mathlib.Text.{◌==◌ as str_eq}
use deepiri_sugar_glider.Base.{
  ℕ, zero, suc, ◌+◌, ◌/◌, ◌%◌, ◌≡◌, refl, Bool, Option, none, some, List, [], ◌∷◌, ltb, ◌==◌,
  if◌then◌else◌, GoError, error_text, Result,
}
use deepiri_sugar_glider.Base.Int.{ℤ, pos, negsuc}
use deepiri_sugar_glider.Base.Parse.{to_lower, contains}
use deepiri_sugar_glider.Base.Text.{is_empty}
use deepiri_sugar_glider.RedisStreams.{Value, text, int, bytes, XAddArgs}

abbrev pub Fields : Type 0
Fields = List (String × Value)

-- redis.XMessage
pub record Message : Type 0 where
  pub id : String
  pub values : Fields

-- redis.XStream
pub record Messages : Type 0 where
  pub stream : String
  pub messages : List Message

-- redis.XReadGroupArgs, of one stream and its new entries; `block` is in nanoseconds.
pub record ReadArgs : Type 0 where
  pub group : String
  pub consumer : String
  pub stream : String
  pub count : ℤ
  pub block : ℤ

-- redis.XPendingExt; `idle` is in nanoseconds.
pub record Pending : Type 0 where
  pub id : String
  pub idle : ℤ
  pub retry_count : ℤ

-- redis.XPendingExtArgs, up to the last entry.
pub record PendingArgs : Type 0 where
  pub stream : String
  pub group : String
  pub start : String
  pub count : ℤ

-- redis.XInfoStream, as far as the service reads it.
pub record StreamInfo : Type 0 where
  pub length : ℤ
  pub first_entry_id : String
  pub last_entry_id : String

-- The commands. `W` is the state of what lies outside; `now` is the formatted time; a group is created with
-- the stream, from the start of it (XGROUP CREATE MKSTREAM, "0").
pub record Redis (W : Type 0) : Type 0 where
  pub xgroup_create : W → String → String → W × Option GoError
  pub xread_group : W → ReadArgs → W × Result GoError (List Messages)
  pub xack : W → String → String → List String → W × Result GoError ℕ
  pub xadd : W → XAddArgs → W × Option GoError
  pub xdel : W → String → String → W × Option GoError
  pub xrange_n : W → String → String → String → ℤ → W × Result GoError (List Message)
  pub xrange : W → String → String → String → W × Result GoError (List Message)
  pub xpending_ext : W → PendingArgs → W × Result GoError (List Pending)
  pub xinfo_groups : W → String → W × Result GoError (List String)
  pub xinfo_stream : W → String → W × Result GoError StreamInfo
  pub ping : W → W × Option GoError
  pub now : W → String

-- The value of a field, and a field that is assigned; the order of a map is random in Go.
unfoldable pub field : String → Fields → Option Value
field k [] = none
field k ((other, v) ∷ fields) = let rest = field k fields in if str_eq other k then some v else rest

unfoldable pub assign : String → Value → Fields → Fields
assign k v [] = (k, v) ∷ []
assign k v ((other, old) ∷ fields) =
    let rest = assign k v fields in if str_eq other k then (k, v) ∷ fields else (other, old) ∷ rest

-- isNoGroupError
unfoldable pub is_no_group_error : GoError → Bool
unfolding contains to_lower
is_no_group_error e = contains (to_lower (error_text e)) "nogroup"

-- isNoSuchStreamErr
unfoldable pub is_no_such_stream_err : GoError → Bool
unfolding contains to_lower
is_no_such_stream_err e = contains (to_lower (error_text e)) "no such key"

unfoldable pub normalize_redis_value : Value → Value
normalize_redis_value (bytes b) = text b
normalize_redis_value v = v

-- The character of the list at this place.
digit : List String → ℕ → String
digit [] n = ""
digit (d ∷ ds) zero = d
digit (d ∷ ds) (suc n) = digit ds n

abbrev ten : List String
ten = "0" ∷ "1" ∷ "2" ∷ "3" ∷ "4" ∷ "5" ∷ "6" ∷ "7" ∷ "8" ∷ "9" ∷ []

-- The number in decimal; an int64 has at most 19 digits, and the fuel is the number of digits.
decimal : ℕ → ℕ → String → String
unfolding digit
decimal zero n out = out
decimal (suc fuel) n out =
    let shown = append_text (digit ten (n % 10)) out in
    let rest = decimal fuel (n / 10) shown in if ltb n 10 then shown else rest

utf8 : ℕ → List ℕ
utf8 c =
    if ltb c 0x80
    then c ∷ []
    else if ltb c 0x800
    then (0xC0 + c / 64) ∷ (0x80 + c % 64) ∷ []
    else if ltb c 0x10000
    then (0xE0 + c / 4096) ∷ (0x80 + c / 64 % 64) ∷ (0x80 + c % 64) ∷ []
    else (0xF0 + c / 262144) ∷ (0x80 + c / 4096 % 64) ∷ (0x80 + c / 64 % 64) ∷ (0x80 + c % 64) ∷ []

show_all : List ℕ → String → String
unfolding decimal
show_all [] out = out
show_all (b ∷ bs) out = append_text " " (append_text (decimal 3 b "") (show_all bs out))

show_bytes : String → String
unfolding show_all utf8
show_bytes String.[] = "]"
show_bytes (String.◌∷◌ c s) = show_all (utf8 (code c)) (show_bytes s)

drop_space : String → String
drop_space String.[] = ""
drop_space (String.◌∷◌ c s) = if code c == b' ' then s else String.◌∷◌ c s

-- fmt.Sprint of a value; a byte slice prints its numbers.
unfoldable pub sprint : Value → String
unfolding decimal show_bytes drop_space
sprint (text t) = t
sprint (int (pos n)) = decimal 20 n ""
sprint (int (negsuc n)) = append_text "-" (decimal 20 (n + 1) "")
sprint (bytes b) = append_text "[" (drop_space (show_bytes b))

sprint_runs :
    (sprint (int (negsuc 119)) ≡ "-120")
    × (sprint (bytes "aé") ≡ "[97 195 169]")
    × (sprint (bytes "") ≡ "[]")
    × (sprint (int (pos 0)) ≡ "0")
unfolding sprint
sprint_runs = (refl, refl, refl, refl)

-- toString; `none` is nil.
unfoldable pub to_string : Option Value → String
unfolding sprint
to_string none = ""
to_string (some (text t)) = t
to_string (some (bytes b)) = b
to_string (some (int n)) = sprint (int n)

-- synapsev1.Event; the payload is the text of its bytes.
pub record Event : Type 0 where
  pub stream : String
  pub entry_id : String
  pub event_type : String
  pub sender : String
  pub payload : String
  pub timestamp : String

normalized_field : String → Fields → Option Value
unfolding field normalize_redis_value
normalized_field k fields = elim (field k fields) [
  | none ↦ none
  | some v ↦ some (normalize_redis_value v)
]

unfoldable pub redis_message_to_proto_event : String → String → Message → Event
unfolding normalized_field to_string
redis_message_to_proto_event now stream_name message =
    let timestamp = to_string (normalized_field "timestamp" message.values) in
    record {
      stream = stream_name;
      entry_id = message.id;
      event_type = to_string (normalized_field "event_type" message.values);
      sender = to_string (normalized_field "sender" message.values);
      payload = to_string (normalized_field "payload" message.values);
      timestamp = if is_empty timestamp then now else timestamp;
    }
