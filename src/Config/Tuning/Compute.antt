-- ===== src/Config/Tuning/Compute.antt =====
-- src/config/tuning.cpp: the steps of TqComputeTuning.
use tcpquic_proxy.Base.{ℕ, ◌*◌, ◌/◌, ltb, if◌then◌else◌, min}
use Prim.Native.Nat.{max}
use tcpquic_proxy.Config.Tuning.Values.{Tuning, TuningInput, TuningMode, auto, lan, wan}
use tcpquic_proxy.Config.Tuning.{
  mib, clamp, Machine, target_pending, bytes_to_mb_round_up, automatic_relay_budget_bytes,
  apply_wan_defaults, apply_lan_defaults, detect_relay_workers, normalize_relay_worker_count,
  normalize_event_queue_capacity,
}

-- SyncLinuxRelayLegacyFields
unfoldable pub sync_linux_relay_legacy_fields : Tuning → Tuning
sync_linux_relay_legacy_fields t = record t {
  linux_relay_worker_count = t.relay_worker_count;
  linux_relay_max_iov = t.relay_max_iov;
  linux_relay_read_chunk_size = t.relay_read_chunk_size;
  linux_relay_read_batch_bytes = t.relay_read_batch_bytes;
  linux_relay_quic_recv_batch_bytes = t.relay_quic_recv_batch_bytes;
  linux_relay_tcp_write_max_bytes = t.relay_tcp_write_max_bytes;
  linux_relay_tcp_write_burst_bytes = t.relay_tcp_write_burst_bytes;
  linux_relay_global_pending_bytes = t.relay_global_pending_bytes;
  linux_relay_per_tunnel_pending_bytes = t.relay_per_tunnel_pending_bytes;
  linux_relay_worker_event_budget = t.relay_worker_event_budget;
  linux_relay_event_queue_capacity = t.relay_event_queue_capacity;
  linux_relay_worker_byte_budget_per_tick = t.relay_worker_byte_budget_per_tick;
  linux_relay_quic_receive_complete_batch_bytes = t.relay_quic_receive_complete_batch_bytes;
}

-- ApplyHighBdpPipelineScaling
unfoldable pub apply_high_bdp_pipeline_scaling : Tuning → Tuning
apply_high_bdp_pipeline_scaling t =
    let pending_bytes = min t.relay_default_ideal_send (512 * mib) in
    let tcp_buf = min (pending_bytes / 4) (64 * mib) in
    if ltb t.relay_default_ideal_send (64 * mib) then t else record t {
      relay_per_tunnel_pending_bytes = pending_bytes;
      max_pending_buffer_bytes_per_relay =
          max pending_bytes (t.relay_global_pending_bytes / max t.relay_worker_count 1);
      relay_worker_byte_budget_per_tick = min pending_bytes (512 * mib);
      initial_quic_read_ahead_bytes = max t.initial_quic_read_ahead_bytes pending_bytes;
      relay_read_batch_bytes = max t.relay_read_batch_bytes (4 * mib);
      relay_quic_recv_batch_bytes = max t.relay_quic_recv_batch_bytes (4 * mib);
      relay_max_iov = max t.relay_max_iov 32;
      tcp_socket_buffer_bytes =
          if ltb t.tcp_socket_buffer_bytes tcp_buf
          then max tcp_buf (16 * mib)
          else t.tcp_socket_buffer_bytes;
    }

-- An override that is not 0, in place of the value.
abbrev pub over : ℕ → ℕ → ℕ
over setting value = if ltb 0 setting then setting else value

abbrev pub over_capacity : ℕ → ℕ → ℕ
over_capacity setting value =
    if ltb 0 setting then normalize_event_queue_capacity setting else value

abbrev pub over_workers : ℕ → ℕ → ℕ
over_workers setting value = if ltb 0 setting then normalize_relay_worker_count setting else value

-- ApplyCustomOverrides
unfoldable pub apply_custom_overrides : TuningInput → Tuning → Tuning
apply_custom_overrides c t = record t {
  terminal_watchdog_seconds = over c.override_terminal_watchdog_seconds t.terminal_watchdog_seconds;
  relay_io_size = over c.override_relay_io_size t.relay_io_size;
  relay_read_chunk_size =
      over c.override_relay_read_chunk_size
        (over c.override_linux_relay_read_chunk_size t.relay_read_chunk_size);
  relay_tcp_write_max_bytes =
      over c.override_relay_tcp_write_max_bytes
        (over c.override_linux_relay_tcp_write_max_bytes t.relay_tcp_write_max_bytes);
  relay_tcp_write_burst_bytes =
      over c.override_relay_tcp_write_burst_bytes
        (over c.override_linux_relay_tcp_write_burst_bytes t.relay_tcp_write_burst_bytes);
  relay_event_queue_capacity =
      over_capacity c.override_relay_event_queue_capacity
        (over_capacity c.override_linux_relay_event_queue_capacity t.relay_event_queue_capacity);
  relay_worker_count =
      over_workers c.override_relay_worker_count
        (over_workers c.override_linux_relay_worker_count t.relay_worker_count);
  windows_relay_worker_count =
      over_workers c.override_windows_relay_worker_count t.windows_relay_worker_count;
  initial_window_packets = over c.override_quic_iw t.initial_window_packets;
  initial_rtt_ms = over c.override_quic_init_rtt_ms t.initial_rtt_ms;
}

-- The branches of TqApplyLinuxRelayDefaults for the mode.
unfoldable pub apply_relay_sizes : TuningMode → Tuning → Tuning
apply_relay_sizes lan t = record t {
  relay_max_iov = 8;
  relay_read_chunk_size = 131072;
  relay_read_batch_bytes = 262144;
  relay_quic_recv_batch_bytes = 262144;
  relay_worker_event_budget = 1024;
  relay_event_queue_capacity = 4096;
  relay_worker_byte_budget_per_tick = 16 * mib;
}
apply_relay_sizes _ t = record t {
  relay_max_iov = 16;
  relay_read_chunk_size = 131072;
  relay_read_batch_bytes = mib;
  relay_quic_recv_batch_bytes = mib;
  relay_worker_event_budget = 4096;
  relay_event_queue_capacity = 4096;
  relay_worker_byte_budget_per_tick = 64 * mib;
}

-- TqApplyLinuxRelayDefaults
unfoldable pub apply_linux_relay_defaults : Machine → TuningMode → ℕ → Tuning → Tuning
apply_linux_relay_defaults m mode auto_budget_bytes t =
    let workers = detect_relay_workers m in
    let sized =
      apply_relay_sizes mode
        (record t { relay_worker_count = workers; windows_relay_worker_count = workers }) in
    let global = clamp auto_budget_bytes (256 * mib) (8192 * mib) / 2 in
    let target = target_pending sized in
    sync_linux_relay_legacy_fields (record sized {
      relay_global_pending_bytes = global;
      relay_per_tunnel_pending_bytes = target;
      max_pending_buffer_bytes_per_relay = max target (global / max workers 1);
    })

unfoldable pub apply_mode : TuningMode → Tuning → Tuning
apply_mode lan t = apply_lan_defaults t
apply_mode wan t = apply_wan_defaults t
apply_mode auto t = apply_wan_defaults t

unfoldable pub budget_bytes_of : Machine → TuningInput → Tuning → ℕ
budget_bytes_of m c t =
    if ltb 0 c.max_memory_mb then c.max_memory_mb * mib else automatic_relay_budget_bytes m t

-- The assignments at the end of TqComputeTuning.
unfoldable pub apply_validation : Tuning → Tuning
apply_validation t = record t {
  stream_recv_window = 2147483648;
  conn_flow_control_window = 2147483648;
  initial_quic_read_ahead_bytes = max t.initial_quic_read_ahead_bytes (128 * mib);
  max_pending_buffer_bytes_per_relay = max t.max_pending_buffer_bytes_per_relay (512 * mib);
  relay_per_tunnel_pending_bytes = max t.relay_per_tunnel_pending_bytes (512 * mib);
  relay_worker_byte_budget_per_tick = max t.relay_worker_byte_budget_per_tick (128 * mib);
}

-- TqComputeTuning: the values, and the argument of TqSetRelayMemoryBudget.
unfoldable pub compute_tuning : Machine → TuningInput → Tuning → Tuning × ℕ
compute_tuning m c t =
    let chosen = apply_custom_overrides c (apply_mode c.tuning_mode t) in
    let budget_bytes = budget_bytes_of m c chosen in
    let scaled =
      apply_high_bdp_pipeline_scaling
        (apply_linux_relay_defaults m c.tuning_mode budget_bytes chosen) in
    (
      sync_linux_relay_legacy_fields (apply_validation (apply_custom_overrides c scaled)),
      bytes_to_mb_round_up budget_bytes,
    )
