-- ===== src/Pipeline/Estimate.antt =====
-- estimatePublishRequestBytes of internal/service/publish_pipeline.go.
use Prim.Native.String.{len}
use deepiri_sugar_glider.Base.{◌≤◌, arith}
use deepiri_sugar_glider.RedisStreams.{PublishRequest}
use deepiri_sugar_glider.Pipeline.{estimate_publish_request_bytes}

-- No request counts for less than 128 bytes, nor for less than its payload.
pub estimate-bounds :
    (req : PublishRequest)
    → (128 ≤ estimate_publish_request_bytes req)
      × (len req.payload ≤ estimate_publish_request_bytes req)
unfolding estimate_publish_request_bytes
estimate-bounds req = (ground arith, ground arith)
