-- ===== src/Service.antt =====
-- internal/service/service.go: the sidecar's state and what it calls.
pub mod Publish
pub mod Http
pub mod Grpc
pub mod Ready
pub mod Examples
use Prim.Native.String.{String}
use deepiri_sugar_glider.Base.{
  ℕ, Bool, true, false, Option, none, some, List, ◌≡◌, GoError, Result, ok, err,
}
use deepiri_sugar_glider.Base.{length}
use deepiri_sugar_glider.RedisStreams.{PublishRequest}
use deepiri_sugar_glider.Config.{Config}
use deepiri_sugar_glider.Metrics.{Collector, SameOutcomes}
use deepiri_sugar_glider.Wal.{Json, Fs, Faults, Log}

-- publishPipelineClient, with what its callers rely on. `W` is what lies outside the sidecar.
pub record Pipeline (W : Type 0) : Type 0 where
  pub publish : Collector → W → PublishRequest → Collector × W × Result GoError String
  pub publish_many :
      Collector
      → W
      → List PublishRequest
      → Collector × W × Result GoError (List (Result GoError String))
  pub queue_length : W → ℕ
  pub publish_outcomes :
      (c : Collector) (w : W) (req : PublishRequest) → SameOutcomes c (publish c w req).0
  pub publish_many_outcomes :
      (c : Collector) (w : W) (reqs : List PublishRequest)
      → SameOutcomes c (publish_many c w reqs).0
  pub publish_many_length :
      (c : Collector) (w : W) (reqs : List PublishRequest) (results : List (Result GoError String))
      → (publish_many c w reqs).2 ≡ ok results
      → length results ≡ length reqs

-- What the sidecar meets: the client of Redis, its pipeline if it is enabled, the clock, the codec, the
-- system calls that fail, and whether the caller's context has ended.
pub record Outside (W : Type 0) : Type 0 where
  pub publish : W → PublishRequest → W × Result GoError String
  pub pipeline : Option (Pipeline W)
  pub json : Json
  pub now : W → String
  pub faults : W → Faults
  pub caller_done : W → Bool

-- The fields of Sidecar that change, and its configuration. `replaying` is held by a concurrent replay.
pub record Sidecar (W : Type 0) : Type 0 where
  pub cfg : Config
  pub wal : Log
  pub fs : Fs
  pub replaying : Bool
  pub consumer_groups_ensured : List String
  pub collector : Collector
  pub world : W

module _ {W : Type 0} where
  abbrev pub count : Sidecar W → Collector → Sidecar W
  count s c = record s { collector = c }

-- The HTTP status codes that the service returns.
abbrev pub status_ok : ℕ
status_ok = 200

abbrev pub bad_request : ℕ
bad_request = 400

abbrev pub forbidden : ℕ
forbidden = 403

abbrev pub method_not_allowed : ℕ
method_not_allowed = 405

abbrev pub service_unavailable : ℕ
service_unavailable = 503

abbrev pub gateway_timeout : ℕ
gateway_timeout = 504
