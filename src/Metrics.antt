-- ===== src/Metrics.antt =====
-- internal/metrics/collector.go: the counters. A Prometheus counter is a float64; a number stands for
-- it here, which it is up to 2 ^ 53. Durations and the HTTP handler are left out.
use deepiri_sugar_glider.Base.{ℕ, suc, ◌+◌, ◌-◌, ◌≡◌, ltb, if◌then◌else◌, ◌==◌}
use deepiri_sugar_glider.Base.Int.{ℤ, ◌+ℤ◌}

pub record Collector : Type 0 where
  pub publish_attempts : ℕ
  pub publish_success : ℕ
  pub publish_queued : ℕ
  pub publish_pipeline_enqueued : ℕ
  pub publish_pipeline_flushed_batch : ℕ
  pub publish_pipeline_flushed_entry : ℕ
  pub publish_pipeline_fallback : ℕ
  pub publish_pipeline_adaptive_direct : ℕ
  pub publish_pipeline_adaptive_active : ℤ
  pub publish_pipeline_error : ℕ
  pub read_requests : ℕ
  pub read_events : ℕ
  pub ack_requests : ℕ
  pub ack_rpc_requests : ℕ
  pub acked_entries : ℕ
  pub dispatcher_ack_flush_calls : ℕ
  pub dispatcher_ack_flush_chunks : ℕ
  pub dispatcher_ack_queue_depth_peak : ℕ
  pub dispatcher_ack_input_entries : ℕ
  pub dispatcher_ack_deduped_entries : ℕ
  pub dispatcher_ack_duplicate_entries : ℕ
  pub dispatcher_ack_contiguous_spans : ℕ
  pub dispatcher_ack_contiguous_saved : ℕ
  pub group_ensure_attempts : ℕ
  pub wal_replayed : ℕ
  pub wal_replay_sync_calls : ℕ
  pub dlq_moved : ℕ
  pub dlq_replayed : ℕ
  pub dispatcher_dropped_subscribers : ℕ
  pub errors_total : ℕ

module _ (c : Collector) where
  abbrev pub inc_publish_attempts : Collector
  inc_publish_attempts = record c { publish_attempts = suc c.publish_attempts }

  abbrev pub inc_publish_success : Collector
  inc_publish_success = record c { publish_success = suc c.publish_success }

  abbrev pub inc_publish_queued : Collector
  inc_publish_queued = record c { publish_queued = suc c.publish_queued }

  abbrev pub inc_publish_pipeline_enqueued : Collector
  inc_publish_pipeline_enqueued = record c {
    publish_pipeline_enqueued = suc c.publish_pipeline_enqueued;
  }

  abbrev pub inc_publish_pipeline_flushed_batch : Collector
  inc_publish_pipeline_flushed_batch = record c {
    publish_pipeline_flushed_batch = suc c.publish_pipeline_flushed_batch;
  }

  abbrev pub inc_publish_pipeline_flushed_entries : ℕ → Collector
  inc_publish_pipeline_flushed_entries n = record c {
    publish_pipeline_flushed_entry = c.publish_pipeline_flushed_entry + n;
  }

  abbrev pub inc_publish_pipeline_fallback : Collector
  inc_publish_pipeline_fallback = record c {
    publish_pipeline_fallback = suc c.publish_pipeline_fallback;
  }

  abbrev pub inc_publish_pipeline_adaptive_direct : Collector
  inc_publish_pipeline_adaptive_direct = record c {
    publish_pipeline_adaptive_direct = suc c.publish_pipeline_adaptive_direct;
  }

  abbrev pub inc_publish_pipeline_error : ℕ → Collector
  inc_publish_pipeline_error n = record c { publish_pipeline_error = c.publish_pipeline_error + n }

  abbrev pub inc_wal_replayed : ℕ → Collector
  inc_wal_replayed n = record c { wal_replayed = c.wal_replayed + n }

  abbrev pub inc_wal_replay_sync_call : Collector
  inc_wal_replay_sync_call = record c { wal_replay_sync_calls = suc c.wal_replay_sync_calls }

  abbrev pub inc_read_request : Collector
  inc_read_request = record c { read_requests = suc c.read_requests }

  abbrev pub inc_read_events : ℕ → Collector
  inc_read_events n = record c { read_events = c.read_events + n }

  abbrev pub inc_ack_request : Collector
  inc_ack_request = record c { ack_requests = suc c.ack_requests }

  abbrev pub inc_ack_rpc_request : Collector
  inc_ack_rpc_request = record c { ack_rpc_requests = suc c.ack_rpc_requests }

  abbrev pub inc_acked_entries : ℕ → Collector
  inc_acked_entries n = record c { acked_entries = c.acked_entries + n }

  abbrev pub inc_group_ensure_attempt : Collector
  inc_group_ensure_attempt = record c { group_ensure_attempts = suc c.group_ensure_attempts }

  abbrev pub inc_dlq_moved : Collector
  inc_dlq_moved = record c { dlq_moved = suc c.dlq_moved }

  unfoldable pub inc_dlq_replayed : ℕ → Collector
  inc_dlq_replayed n = if n == 0 then c else record c { dlq_replayed = c.dlq_replayed + n }

  abbrev pub inc_dispatcher_dropped_subscribers : Collector
  inc_dispatcher_dropped_subscribers = record c {
    dispatcher_dropped_subscribers = suc c.dispatcher_dropped_subscribers;
  }

  abbrev pub inc_error : Collector
  inc_error = record c { errors_total = suc c.errors_total }

  unfoldable pub add_publish_pipeline_adaptive_active : ℤ → Collector
  unfolding ◌+ℤ◌
  add_publish_pipeline_adaptive_active delta = record c {
    publish_pipeline_adaptive_active = c.publish_pipeline_adaptive_active +ℤ delta;
  }

  -- A depth of 0 is never above the peak.
  unfoldable pub observe_dispatcher_ack_queue_depth : ℕ → Collector
  observe_dispatcher_ack_queue_depth depth =
      if ltb c.dispatcher_ack_queue_depth_peak depth
      then record c { dispatcher_ack_queue_depth_peak = depth }
      else c

  -- Counters that add 0 where the code skips the call.
  unfoldable pub observe_dispatcher_ack_compression : ℕ → ℕ → ℕ → ℕ → Collector
  observe_dispatcher_ack_compression input deduped spans saved = record c {
    dispatcher_ack_input_entries = c.dispatcher_ack_input_entries + input;
    dispatcher_ack_deduped_entries = c.dispatcher_ack_deduped_entries + deduped;
    dispatcher_ack_duplicate_entries =
        if ltb deduped input
        then c.dispatcher_ack_duplicate_entries + (input - deduped)
        else c.dispatcher_ack_duplicate_entries;
    dispatcher_ack_contiguous_spans = c.dispatcher_ack_contiguous_spans + spans;
    dispatcher_ack_contiguous_saved = c.dispatcher_ack_contiguous_saved + saved;
  }

  unfoldable pub observe_dispatcher_ack_flush : ℕ → Collector
  observe_dispatcher_ack_flush chunks = record c {
    dispatcher_ack_flush_calls = suc c.dispatcher_ack_flush_calls;
    dispatcher_ack_flush_chunks = c.dispatcher_ack_flush_chunks + chunks;
  }

-- The counters that say how the requests ended.
pub record SameOutcomes (c d : Collector) : Type 0 where
  pub attempts : d.publish_attempts ≡ c.publish_attempts
  pub success : d.publish_success ≡ c.publish_success
  pub queued : d.publish_queued ≡ c.publish_queued
  pub errors : d.errors_total ≡ c.errors_total
