-- ===== src/RedisStreams.antt =====
-- internal/redisstreams/publisher.go: the request, and the arguments of XADD that it becomes.
use Prim.Native.String.{String}
use deepiri_sugar_glider.Base.{Bool, true, List, [], ◌∷◌, ◌++◌, if◌then◌else◌}
use deepiri_sugar_glider.Base.Int.{ℤ, pos, ltb_ℤ}
use deepiri_sugar_glider.Base.Text.{is_empty}

pub record PublishRequest : Type 0 where
  pub stream : String
  pub event_type : String
  pub sender : String
  pub recipient : String
  pub priority : String
  pub payload : String
  pub ttl_sec : ℤ

-- A value of type `any` in a stream entry; `bytes` is a byte slice, of the text that it is in UTF-8.
pub data Value : Type 0 where
  text : String → Value
  int : ℤ → Value
  bytes : String → Value

pub record XAddArgs : Type 0 where
  pub stream : String
  pub max_len : ℤ
  pub approx : Bool
  pub values : List (String × Value)

-- The two defaults at the head of BuildXAddArgs.
with_defaults : PublishRequest → PublishRequest
with_defaults req = record req {
  priority = if is_empty req.priority then "normal" else req.priority;
  sender = if is_empty req.sender then "real-time-gateway" else req.sender;
}

-- `now` is the formatted time of the call.
unfoldable pub build_x_add_args : String → PublishRequest → ℤ → XAddArgs
unfolding with_defaults
build_x_add_args now req₀ max_stream_len =
    let req = with_defaults req₀ in
    record {
      stream = req.stream;
      max_len = max_stream_len;
      approx = true;
      values =
          ("event_type", text req.event_type)
          ∷ ("sender", text req.sender)
          ∷ ("priority", text req.priority)
          ∷ ("payload", text req.payload)
          ∷ ("timestamp", text now)
          ∷ ((if is_empty req.recipient then [] else ("recipient", text req.recipient) ∷ [])
              ++ (if ltb_ℤ (pos 0) req.ttl_sec then ("ttl_sec", int req.ttl_sec) ∷ [] else []));
    }
