-- ===== src/Service/Http.antt =====
-- The HTTP handler for /v1/publish of internal/service/service.go.
use Prim.Native.String.{String}
use text.Mathlib.Text.{◌==◌ as str_eq}
use deepiri_sugar_glider.Base.{ℕ, Option, none, some, if◌then◌else◌}
use deepiri_sugar_glider.Base.Int.{ℤ}
use deepiri_sugar_glider.RedisStreams.{PublishRequest}
use deepiri_sugar_glider.Metrics.{inc_publish_attempts, inc_error}
use deepiri_sugar_glider.Service.{
  Outside, Sidecar, count, status_ok, bad_request, method_not_allowed, service_unavailable,
}
use deepiri_sugar_glider.Service.Publish.{Reply, publish_internal}

-- The bodies that the handler writes.
pub data Body : Type 0 where
  empty : Body
  error : String → Body
  queued : ℤ → Body
  entry_id : String → Body

unfoldable pub respond : Reply → ℕ × Body
respond reply = elim reply.error [
  | some text ↦ (reply.status, Body.error text)
  | none ↦
      if reply.queued
      then (service_unavailable, Body.queued reply.wal_depth)
      else (status_ok, Body.entry_id reply.entry_id)
]

-- `decoded` is what the JSON decoder makes of the body.
unfoldable pub publish :
    {W : Type 0} → Outside W → Sidecar W → String → Option PublishRequest → Sidecar W × (ℕ × Body)
unfolding publish_internal respond
publish o s₀ method decoded =
    let s = count s₀ (inc_publish_attempts s₀.collector) in
    if str_eq method "POST"
    then elim decoded [
      | none ↦ (count s (inc_error s.collector), (bad_request, Body.error "invalid JSON"))
      | some req ↦ let (t, reply) = publish_internal o s req in (t, respond reply)
    ]
    else (s, (method_not_allowed, empty))
