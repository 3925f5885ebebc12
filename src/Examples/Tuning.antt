-- ===== src/Examples/Tuning.antt =====
-- src/config/tuning.cpp: a host with 4 processors and 16 GiB, and some measurements.
use tcpquic_proxy.Base.{◌≡◌, ◌≤◌, ◌*◌, refl, some, [], ◌∷◌, inl, inr, ◌⊎◌, List, arith}
use tcpquic_proxy.Base.Select.{has}
use tcpquic_proxy.Config.Tuning.{
  mib, clamp, Machine, apply_wan_defaults, normalize_event_queue_capacity, smear,
}
use tcpquic_proxy.Config.Tuning.Values.{Tuning, TuningInput, new_tuning, wan}
use tcpquic_proxy.Config.Tuning.Compute.{
  compute_tuning, apply_mode, apply_custom_overrides, apply_high_bdp_pipeline_scaling,
  apply_linux_relay_defaults, apply_relay_sizes, sync_linux_relay_legacy_fields, apply_validation,
}
use tcpquic_proxy.Config.Tuning.Capacity.{normalize_event_queue_capacity-normalize_capacity}
use tcpquic_proxy.Config.Tuning.Bounds.{IsTuned, IsSynced, compute_tuning-IsTuned}
use tcpquic_proxy.Config.Runtime.{
  update_ema, record_measured_rtt, record_compression_sample, maybe_log, apply_relay_pool_budget,
}
use tcpquic_proxy.Config.Runtime.Pool.{apply_relay_pool_budget-bounds}
use tcpquic_proxy.Config.Runtime.Samples.{
  Measurement, rtt, compression, measure, measured, is_rtt, IsMeasured, measured-IsMeasured,
}
use tcpquic_proxy.Tunnel.EventQueue.{normalize_capacity}

abbrev host : Machine
host = record { processors = 4; page_count = 4194304; page_size = 4096 }

abbrev input : TuningInput
input = record {
  tuning_mode = wan;
  max_memory_mb = 0;
  override_relay_io_size = 0;
  override_relay_read_chunk_size = 0;
  override_relay_tcp_write_max_bytes = 0;
  override_relay_tcp_write_burst_bytes = 0;
  override_relay_event_queue_capacity = 5000;
  override_relay_worker_count = 0;
  override_linux_relay_read_chunk_size = 0;
  override_linux_relay_tcp_write_max_bytes = 0;
  override_linux_relay_tcp_write_burst_bytes = 0;
  override_linux_relay_event_queue_capacity = 0;
  override_linux_relay_worker_count = 0;
  override_windows_relay_worker_count = 20;
  override_quic_iw = 0;
  override_quic_init_rtt_ms = 0;
  override_terminal_watchdog_seconds = 0;
}

compute_tuning-IsTuned_example :
    IsTuned (compute_tuning host input new_tuning).0
    × IsSynced (compute_tuning host input new_tuning).0
compute_tuning-IsTuned_example = compute_tuning-IsTuned host input new_tuning

normalize_event_queue_capacity-normalize_capacity_example :
    (normalize_capacity (clamp 5000 1024 1048576) ≡ some (normalize_event_queue_capacity 5000))
    × (normalize_capacity (normalize_event_queue_capacity 5000)
        ≡ some (normalize_event_queue_capacity 5000))
normalize_event_queue_capacity-normalize_capacity_example =
    normalize_event_queue_capacity-normalize_capacity 5000 (omega arith)

rounds_up : normalize_event_queue_capacity 5000 ≡ 8192
unfolding normalize_event_queue_capacity smear
rounds_up = refl

-- 100 relays on 1000 MiB: ten buffers of 1 MiB each.
abbrev pooled : Tuning
pooled = apply_relay_pool_budget 1000 new_tuning 100

ten : pooled.relay_max_in_flight_sends ≡ 10
unfolding apply_relay_pool_budget
ten = refl

apply_relay_pool_budget-bounds_example :
    (1 ≤ pooled.relay_max_in_flight_sends)
    × (pooled.relay_max_in_flight_sends ≤ 64)
    × (pooled.relay_max_free_send_contexts ≡ pooled.relay_max_in_flight_sends)
    × (pooled.relay_default_ideal_send ≤ 64 * mib)
    × (100 * pooled.relay_default_ideal_send ≤ 1000 * mib)
    × ((100 * (mib * pooled.relay_max_in_flight_sends) ≤ 1000 * mib)
        ⊎ (pooled.relay_max_in_flight_sends ≡ 1))
apply_relay_pool_budget-bounds_example =
    apply_relay_pool_budget-bounds 1000 100 new_tuning pooled (omega arith) (omega arith)
      (omega arith) (omega arith) refl

abbrev samples : List Measurement
samples = rtt 9000 40 ∷ compression 5000 10000 2500 ∷ rtt 1000 0 ∷ rtt 1000 200 ∷ []

averages : (measured samples).obs.measured_rtt_ms ≡ 180
unfolding measured measure record_measured_rtt record_compression_sample update_ema maybe_log
averages = refl

measured-IsMeasured_example :
    ((measured samples).obs.has_rtt ≡ has is_rtt samples) × IsMeasured 40 200 (measured samples)
measured-IsMeasured_example =
    measured-IsMeasured 40 200 samples (omega arith)
      (inr (omega arith, omega arith), (tt, (inl refl, (inr (omega arith, omega arith), tt))))

socket_buffer : (compute_tuning host input new_tuning).0.tcp_socket_buffer_bytes ≡ 16 * mib
unfolding compute_tuning apply_mode apply_wan_defaults apply_custom_overrides
    apply_high_bdp_pipeline_scaling apply_linux_relay_defaults apply_relay_sizes
    sync_linux_relay_legacy_fields apply_validation
socket_buffer = refl
