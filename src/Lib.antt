-- ===== src/Lib.antt =====
-- Sugar glider (github.com/Team-Deepiri/deepiri-sugar-glider): the sidecar between a gateway and Redis
-- Streams. It publishes events to Redis, keeps those that Redis does not take in a write-ahead log, and
-- hands the events of consumer groups to its subscribers.
--
-- The parts, with the files that model them (paths from the root of the repository):
-- - internal/wal/wal.go: Wal, with Wal/Scan (bufio.Scanner) and Wal/Replay (Replay, rewrite). The files are
--   a function from paths to contents, passed along; Faults says which system calls of one operation fail,
--   and a write that fails leaves any text. package encoding/json is the record Json.
-- - internal/config: Env (env.go and splitCSV), Config (Config, Load, IsStreamAllowed), Config/Listen
--   (ParseListenAddress) and Config/Dlq (dlq_policy.go). The environment is a function; the checks of Load are the list `checks`.
-- - internal/redisstreams/publisher.go: RedisStreams.
-- - internal/metrics/collector.go: Metrics, the counters as numbers.
-- - internal/service/service.go, the publish path: Service (the state Sidecar, and Outside, what it calls),
--   Service/Publish (publishInternal and below), Service/Http (the handler). The client of Redis is the
--   operation `publish` of Outside and the pipeline is the record Pipeline, whose last three fields are the
--   laws that the path relies on. `W` is the state of what lies outside; a call passes it on.
-- - internal/service/grpc.go: Service/Grpc (Publish and PublishBatch), Service/Grpc/Streams (Subscribe) and
--   Service/Grpc/Calls (Ack, StreamInfo, Health, ReplayDLQ).
-- - The client of Redis, as far as consumption needs it: Redis, a record of the commands and the functions on
--   the values they return (normalizeRedisValue, toString, redisMessageToProtoEvent).
-- - internal/service/consume.go: Consume, with the memory of the consumer groups that were ensured.
-- - internal/service/service.go, the dead-letter scan: DeadLetter; internal/service/dlq_replay.go:
--   DeadLetter/Replay. The fields of an entry are a list of keys and values, with lookup and assignment.
-- - internal/service/service.go, readyz, and internal/health/health.go: Service/Ready.
-- - internal/service/publish_pipeline.go: Pipeline, the queue, the loop of run and flushBatch as steps on a
--   state, with what is sent on the result channels recorded in `answers`; Pipeline/Client, what a caller of
--   Publish and PublishMany does, and in Pipeline/Client/Interface the pipeline as the record Pipeline of the
--   publish path.
-- - internal/service/dispatcher.go: Dispatcher (the subscribers of a streamDispatcher), Dispatcher/Acks
--   (chunkStringSlice, and intconv.go), Dispatcher/Spans (countContiguousAckSpans), Dispatcher/AckLoop
--   (queueAck, the loop of acknowledgements and their flush), Dispatcher/Manager (the manager, whose
--   dispatchers are known by handles), Dispatcher/Requests (Subscribe and QueueAck of the manager, and a turn
--   of the loop that reads from Redis).
--
-- How they interact: the handlers of Service/Http and Service/Grpc normalize a request and publish it through
-- the pipeline or directly; an error of Redis sends the request to the log, unless the caller has gone; a
-- success may start a replay of the log, which publishes directly. The pipeline and the publish path share the
-- collector. A read, over HTTP or by a dispatcher, makes sure that its consumer group exists and remembers it;
-- an acknowledgement goes to the queue of a dispatcher, or to Redis where there is none. The scan moves entries
-- that were tried too often to a dead-letter stream, with metadata in fields that start with "dlq_"; a replay
-- strips these and adds the entry to its stream again.
--
-- Numbers: int64 settings are signed integers of Base/Int; an int has 64 bits. Durations keep the wrap-around
-- of int64 (Env.millisecond). Ids of subscribers are taken modulo 2 ^ 64. Fuel: chunk_loop has as much fuel as
-- there are items, and each step takes one or more; the loop over the pages of a group takes fuel above the
-- number of its entries, since each page starts after the last; a caller of the pipeline waits along a plan, a
-- list of what happens meanwhile, after which the loop of run takes the queue and its ticker fires; every other loop is on the structure of a list.
--
-- Where a theorem says which commands may be sent, it compares two clients that differ only on other commands;
-- where it says which ones are sent, it gives the states of Redis that they lead through.
--
-- Not modelled: the timers of the loops and the pauses between their turns; the process entry points, generated
-- protocol code, durations and the export of metrics, which are input, output or calls of libraries; healthz and
-- the handlers that print the configuration and the metrics, which only copy fields. A value that Redis returns
-- is a text, an integer or a byte slice that is text.
-- Concurrency is modelled as sequences of steps in any order: of operations that a lock makes atomic
-- (Dispatcher/Safety, Dispatcher/Manager/Live), and of the steps of the pipeline's goroutine, between which
-- callers go on, also while it stops (Pipeline/Answered). The receivers of a dispatcher take no lock: what they
-- take during a fan-out is an argument of it (Dispatcher/FanOut). The removal of the last subscriber, which is
-- two critical sections in the code, is one step of the manager.
pub mod Base
pub mod Config
pub mod Consume
pub mod DeadLetter
pub mod Dispatcher
pub mod Env
pub mod Metrics
pub mod Pipeline
pub mod Redis
pub mod RedisStreams
pub mod Service
pub mod Wal
