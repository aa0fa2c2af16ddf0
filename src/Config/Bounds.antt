-- ===== src/Config/Bounds.antt =====
-- What Load guarantees of a configuration that it returns, and which ones it accepts.
use Prim.Native.String.{String}
use text.Mathlib.Text.{◌==◌}
use text.Mathlib.TextEquality.{eq_iff}
use deepiri_sugar_glider.Base.{
  Bool, true, false, not, ◌||◌, List, [], ◌∷◌, ◌≡◌, ◌≢◌, ◌⊎◌, refl, inl, inr, arith, Result, ok,
  All, sym, subst, Bool-cases, Result-cases,
}
use deepiri_sugar_glider.Base.Int.{ℤ, pos, ltb_ℤ, leb_ℤ, ◌≤ℤ◌}
use deepiri_sugar_glider.Base.Text.{trim_space}
use deepiri_sugar_glider.Env.{Env, get_env_dual}
use deepiri_sugar_glider.Config.{
  Config, stateless, dispatcher, background, sync_on_success, read_config, checks, check_all, load,
}
use deepiri_sugar_glider.Config.Dlq.{PolicyError, Policies, parse_dlq_stream_policies}

-- What the service relies on in its configuration.
pub record IsValid (cfg : Config) : Type 0 where
  pub redis_url : cfg.redis_url ≢ ""
  pub consume_mode : (cfg.consume_mode ≡ stateless) ⊎ (cfg.consume_mode ≡ dispatcher)
  pub publish_pipeline_max_batch : pos 1 ≤ℤ cfg.publish_pipeline_max_batch
  pub publish_pipeline_min_batch : pos 1 ≤ℤ cfg.publish_pipeline_min_batch
  pub publish_pipeline_flush_interval : pos 0 ≤ℤ cfg.publish_pipeline_flush_interval
  pub publish_pipeline_queue_size : pos 1 ≤ℤ cfg.publish_pipeline_queue_size
  pub publish_pipeline_max_bytes : pos 1 ≤ℤ cfg.publish_pipeline_max_bytes
  pub wal_replay_mode : (cfg.wal_replay_mode ≡ background) ⊎ (cfg.wal_replay_mode ≡ sync_on_success)
  pub dispatcher_consumer_name : trim_space cfg.dispatcher_consumer_name ≢ ""
  pub dispatcher_read_count : pos 1 ≤ℤ cfg.dispatcher_read_count
  pub dispatcher_block_ms : pos 1 ≤ℤ cfg.dispatcher_block_ms
  pub dispatcher_subscriber_buffer : pos 1 ≤ℤ cfg.dispatcher_subscriber_buffer
  pub dispatcher_ack_batch_size : pos 1 ≤ℤ cfg.dispatcher_ack_batch_size
  pub dispatcher_ack_flush_concurrency : pos 1 ≤ℤ cfg.dispatcher_ack_flush_concurrency
  pub dispatcher_ack_flush_interval : pos 1 ≤ℤ cfg.dispatcher_ack_flush_interval
  pub dispatcher_ack_queue_size : pos 1 ≤ℤ cfg.dispatcher_ack_queue_size
  pub max_stream_len : pos 1 ≤ℤ cfg.max_stream_len
  pub wal_max_entries : pos 0 ≤ℤ cfg.wal_max_entries
  pub wal_max_bytes : pos 0 ≤ℤ cfg.wal_max_bytes
  pub wal_replay_batch : pos 0 ≤ℤ cfg.wal_replay_batch
  pub wal_replay_interval : pos 0 ≤ℤ cfg.wal_replay_interval
  pub dlq_max_retries : pos 0 ≤ℤ cfg.dlq_max_retries
  pub dlq_min_idle : pos 0 ≤ℤ cfg.dlq_min_idle
  pub dlq_scan_interval : pos 0 ≤ℤ cfg.dlq_scan_interval
  pub dlq_scan_batch : pos 1 ≤ℤ cfg.dlq_scan_batch
  pub ready_max_wal_depth : pos 0 ≤ℤ cfg.ready_max_wal_depth
  pub ready_max_publish_queue_depth : pos 0 ≤ℤ cfg.ready_max_publish_queue_depth

at_least_one : (n : ℤ) → ltb_ℤ (pos 0) n ≡ true → pos 1 ≤ℤ n
at_least_one n h = ground arith

at_least_zero : (n : ℤ) → leb_ℤ (pos 0) n ≡ true → pos 0 ≤ℤ n
at_least_zero n h = ground arith

positive : (n : ℤ) → pos 1 ≤ℤ n → ltb_ℤ (pos 0) n ≡ true
positive n h = ground arith

non_negative : (n : ℤ) → pos 0 ≤ℤ n → leb_ℤ (pos 0) n ≡ true
non_negative n h = ground arith

not_empty : (s : String) → not (s == "") ≡ true → s ≢ ""
not_empty s h e = cc (rw ((eq_iff s "").1 e) at h)

is_not_empty : (s : String) → s ≢ "" → not (s == "") ≡ true
is_not_empty s h = elim (Bool-cases (s == "")) [
  | inl e ↦ absurd (h ((eq_iff s "").0 e))
  | inr e ↦ rw e
]

one_of_two : (s a b : String) → (s == a || s == b) ≡ true → (s ≡ a) ⊎ (s ≡ b)
one_of_two s a b h = ground (arith, eq_iff s a, eq_iff s b)

is_one_of_two : (s a b : String) → (s ≡ a) ⊎ (s ≡ b) → (s == a || s == b) ≡ true
is_one_of_two s a b h = ground (arith, eq_iff s a, eq_iff s b)

abbrev Holds : Bool × String → Type 0
Holds (holds, message) = holds ≡ true

check_all-Holds :
    (cs : List (Bool × String)) (cfg cfg' : Config)
    → check_all cs cfg ≡ ok cfg'
    → All Holds cs × (cfg ≡ cfg')
unfolding check_all
check_all-Holds [] cfg cfg' h = (tt, cc)
check_all-Holds ((true, m) ∷ cs) cfg cfg' h =
    let (a, e) = check_all-Holds cs cfg cfg' h in ((refl, a), e)
check_all-Holds ((false, m) ∷ cs) cfg cfg' h = cc

check_all_passes :
    (cs : List (Bool × String)) (cfg : Config) → All Holds cs → check_all cs cfg ≡ ok cfg
unfolding check_all
check_all_passes [] cfg a = refl
check_all_passes ((holds, m) ∷ cs) cfg a = rw a.0 (check_all_passes cs cfg a.1)

checks-IsValid : (cfg : Config) → All Holds (checks cfg) → IsValid cfg
unfolding checks
checks-IsValid cfg a = record {
  redis_url = not_empty _ a.0;
  consume_mode = one_of_two _ _ _ a.1.0;
  publish_pipeline_max_batch = at_least_one cfg.publish_pipeline_max_batch a.1.1.0;
  publish_pipeline_min_batch = at_least_one cfg.publish_pipeline_min_batch a.1.1.1.0;
  publish_pipeline_flush_interval = at_least_zero cfg.publish_pipeline_flush_interval a.1.1.1.1.0;
  publish_pipeline_queue_size = at_least_one cfg.publish_pipeline_queue_size a.1.1.1.1.1.0;
  publish_pipeline_max_bytes = at_least_one cfg.publish_pipeline_max_bytes a.1.1.1.1.1.1.0;
  wal_replay_mode = one_of_two _ _ _ a.1.1.1.1.1.1.1.0;
  dispatcher_consumer_name = not_empty _ a.1.1.1.1.1.1.1.1.0;
  dispatcher_read_count = at_least_one cfg.dispatcher_read_count a.1.1.1.1.1.1.1.1.1.0;
  dispatcher_block_ms = at_least_one cfg.dispatcher_block_ms a.1.1.1.1.1.1.1.1.1.1.0;
  dispatcher_subscriber_buffer =
      at_least_one cfg.dispatcher_subscriber_buffer a.1.1.1.1.1.1.1.1.1.1.1.0;
  dispatcher_ack_batch_size =
      at_least_one cfg.dispatcher_ack_batch_size a.1.1.1.1.1.1.1.1.1.1.1.1.0;
  dispatcher_ack_flush_concurrency =
      at_least_one cfg.dispatcher_ack_flush_concurrency a.1.1.1.1.1.1.1.1.1.1.1.1.1.0;
  dispatcher_ack_flush_interval =
      at_least_one cfg.dispatcher_ack_flush_interval a.1.1.1.1.1.1.1.1.1.1.1.1.1.1.0;
  dispatcher_ack_queue_size =
      at_least_one cfg.dispatcher_ack_queue_size a.1.1.1.1.1.1.1.1.1.1.1.1.1.1.1.0;
  max_stream_len = at_least_one cfg.max_stream_len a.1.1.1.1.1.1.1.1.1.1.1.1.1.1.1.1.0;
  wal_max_entries = at_least_zero cfg.wal_max_entries a.1.1.1.1.1.1.1.1.1.1.1.1.1.1.1.1.1.0;
  wal_max_bytes = at_least_zero cfg.wal_max_bytes a.1.1.1.1.1.1.1.1.1.1.1.1.1.1.1.1.1.1.0;
  wal_replay_batch = at_least_zero cfg.wal_replay_batch a.1.1.1.1.1.1.1.1.1.1.1.1.1.1.1.1.1.1.1.0;
  wal_replay_interval =
      at_least_zero cfg.wal_replay_interval a.1.1.1.1.1.1.1.1.1.1.1.1.1.1.1.1.1.1.1.1.0;
  dlq_max_retries = at_least_zero cfg.dlq_max_retries a.1.1.1.1.1.1.1.1.1.1.1.1.1.1.1.1.1.1.1.1.1.0;
  dlq_min_idle = at_least_zero cfg.dlq_min_idle a.1.1.1.1.1.1.1.1.1.1.1.1.1.1.1.1.1.1.1.1.1.1.0;
  dlq_scan_interval =
      at_least_zero cfg.dlq_scan_interval a.1.1.1.1.1.1.1.1.1.1.1.1.1.1.1.1.1.1.1.1.1.1.1.0;
  dlq_scan_batch =
      at_least_one cfg.dlq_scan_batch a.1.1.1.1.1.1.1.1.1.1.1.1.1.1.1.1.1.1.1.1.1.1.1.1.0;
  ready_max_wal_depth =
      at_least_zero cfg.ready_max_wal_depth a.1.1.1.1.1.1.1.1.1.1.1.1.1.1.1.1.1.1.1.1.1.1.1.1.1.0;
  ready_max_publish_queue_depth =
      at_least_zero cfg.ready_max_publish_queue_depth
        a.1.1.1.1.1.1.1.1.1.1.1.1.1.1.1.1.1.1.1.1.1.1.1.1.1.1.0;
}

IsValid-checks : (cfg : Config) → IsValid cfg → All Holds (checks cfg)
unfolding checks
IsValid-checks cfg v = (
  is_not_empty _ v.redis_url,
  (
    is_one_of_two _ _ _ v.consume_mode,
    (
      positive cfg.publish_pipeline_max_batch v.publish_pipeline_max_batch,
      (
        positive cfg.publish_pipeline_min_batch v.publish_pipeline_min_batch,
        (
          non_negative cfg.publish_pipeline_flush_interval v.publish_pipeline_flush_interval,
          (
            positive cfg.publish_pipeline_queue_size v.publish_pipeline_queue_size,
            (
              positive cfg.publish_pipeline_max_bytes v.publish_pipeline_max_bytes,
              (
                is_one_of_two _ _ _ v.wal_replay_mode,
                (
                  is_not_empty _ v.dispatcher_consumer_name,
                  (
                    positive cfg.dispatcher_read_count v.dispatcher_read_count,
                    (
                      positive cfg.dispatcher_block_ms v.dispatcher_block_ms,
                      (
                        positive cfg.dispatcher_subscriber_buffer v.dispatcher_subscriber_buffer,
                        (
                          positive cfg.dispatcher_ack_batch_size v.dispatcher_ack_batch_size,
                          (
                            positive cfg.dispatcher_ack_flush_concurrency
                                v.dispatcher_ack_flush_concurrency,
                            (
                              positive cfg.dispatcher_ack_flush_interval
                                  v.dispatcher_ack_flush_interval,
                              (
                                positive cfg.dispatcher_ack_queue_size v.dispatcher_ack_queue_size,
                                (
                                  positive cfg.max_stream_len v.max_stream_len,
                                  (
                                    non_negative cfg.wal_max_entries v.wal_max_entries,
                                    (
                                      non_negative cfg.wal_max_bytes v.wal_max_bytes,
                                      (
                                        non_negative cfg.wal_replay_batch v.wal_replay_batch,
                                        (
                                          non_negative cfg.wal_replay_interval
                                              v.wal_replay_interval,
                                          (
                                            non_negative cfg.dlq_max_retries v.dlq_max_retries,
                                            (
                                              non_negative cfg.dlq_min_idle v.dlq_min_idle,
                                              (
                                                non_negative cfg.dlq_scan_interval
                                                    v.dlq_scan_interval,
                                                (
                                                  positive cfg.dlq_scan_batch v.dlq_scan_batch,
                                                  (
                                                    non_negative cfg.ready_max_wal_depth
                                                        v.ready_max_wal_depth,
                                                    (
                                                      non_negative cfg.ready_max_publish_queue_depth
                                                          v.ready_max_publish_queue_depth,
                                                      tt,
                                                    ),
                                                  ),
                                                ),
                                              ),
                                            ),
                                          ),
                                        ),
                                      ),
                                    ),
                                  ),
                                ),
                              ),
                            ),
                          ),
                        ),
                      ),
                    ),
                  ),
                ),
              ),
            ),
          ),
        ),
      ),
    ),
  ),
)

-- The outcome of parsing the policies in the environment.
abbrev pub policies_of : Env → Result PolicyError Policies
policies_of env =
    parse_dlq_stream_policies
      (get_env_dual env "SUGAR_GLIDER_DLQ_STREAM_POLICIES" "SIDECAR_DLQ_STREAM_POLICIES" "")

abbrev pub settings : Env → Policies → Config
settings env policies = record (read_config env) { dlq_stream_policies = policies }

-- A configuration that Load returns is the environment's, with its policies, and is valid.
pub load-IsValid :
    (env : Env) (cfg : Config)
    → load env ≡ ok cfg
    → (policies : Policies) × (policies_of env ≡ ok policies)
      × (cfg ≡ settings env policies)
      × IsValid cfg
unfolding load
load-IsValid env cfg h = elim (Result-cases (policies_of env)) [
  | inl (e, p) ↦ cc (rw p at h)
  | inr (policies, p) ↦
      let (a, same) =
        check_all-Holds (checks (settings env policies)) (settings env policies) cfg (rw p at h) in
      (policies, p, sym same, subst IsValid same (checks-IsValid (settings env policies) a))
]

-- Load refuses nothing else: where the policies parse and the settings are valid, it returns them.
pub load_accepts :
    (env : Env) (policies : Policies)
    → policies_of env ≡ ok policies
    → IsValid (settings env policies)
    → load env ≡ ok (settings env policies)
unfolding load
load_accepts env policies p v = rw p (
    check_all_passes (checks (settings env policies)) (settings env policies)
      (IsValid-checks (settings env policies) v))
