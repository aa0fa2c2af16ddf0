-- ===== src/Base/Errors.antt =====
-- The Go errors that the program tells apart, and results that carry one.
use Prim.Native.String.{String}
use mathlib.Core.Path.{◌≡◌, refl}

-- `redis_nil` is redis.Nil; `queue_full` and `stopped` are the two errors of the publish pipeline.
pub data GoError : Type 0 where
  canceled deadline_exceeded redis_nil queue_full stopped : GoError
  other : String → GoError

-- err.Error()
unfoldable pub error_text : GoError → String
error_text GoError.canceled = "context canceled"
error_text GoError.deadline_exceeded = "context deadline exceeded"
error_text GoError.redis_nil = "redis: nil"
error_text GoError.queue_full = "publish pipeline queue is full"
error_text GoError.stopped = "publish pipeline is stopped"
error_text (GoError.other t) = t

pub error_text-redis_nil : error_text GoError.redis_nil ≡ "redis: nil"
unfolding error_text
error_text-redis_nil = refl

pub data Result {ℓ κ} (E : Type ℓ) (A : Type κ) : Type (ℓ ⊔ κ) where
  ok : A → Result E A
  err : E → Result E A
