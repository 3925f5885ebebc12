-- ===== src/Config/Tuning/Values.antt =====
-- src/config/tuning.h: the values that tune the relays and QUIC, and what the configuration holds for
-- them.
use tcpquic_proxy.Base.{ℕ}

-- TqTuningMode
pub data TuningMode : Type 0 where
  auto : TuningMode
  lan : TuningMode
  wan : TuningMode

-- TqTuningConfig
pub record Tuning : Type 0 where
  pub terminal_watchdog_seconds : ℕ
  pub stream_recv_window : ℕ
  pub conn_flow_control_window : ℕ
  pub initial_window_packets : ℕ
  pub initial_rtt_ms : ℕ
  pub relay_io_size : ℕ
  pub relay_compress_io_size : ℕ
  pub relay_default_ideal_send : ℕ
  pub relay_max_in_flight_sends : ℕ
  pub relay_max_free_send_contexts : ℕ
  pub tcp_socket_buffer_bytes : ℕ
  pub relay_worker_count : ℕ
  pub relay_max_iov : ℕ
  pub relay_read_chunk_size : ℕ
  pub relay_read_batch_bytes : ℕ
  pub relay_quic_recv_batch_bytes : ℕ
  pub relay_tcp_write_max_bytes : ℕ
  pub relay_tcp_write_burst_bytes : ℕ
  pub relay_global_pending_bytes : ℕ
  pub relay_per_tunnel_pending_bytes : ℕ
  pub relay_worker_event_budget : ℕ
  pub relay_event_queue_capacity : ℕ
  pub relay_worker_byte_budget_per_tick : ℕ
  pub relay_quic_receive_complete_batch_bytes : ℕ
  pub linux_relay_worker_count : ℕ
  pub windows_relay_worker_count : ℕ
  pub linux_relay_max_iov : ℕ
  pub linux_relay_read_chunk_size : ℕ
  pub linux_relay_read_batch_bytes : ℕ
  pub linux_relay_quic_recv_batch_bytes : ℕ
  pub linux_relay_tcp_write_max_bytes : ℕ
  pub linux_relay_tcp_write_burst_bytes : ℕ
  pub initial_quic_read_ahead_bytes : ℕ
  pub linux_relay_global_pending_bytes : ℕ
  pub max_pending_buffer_bytes_per_relay : ℕ
  pub linux_relay_per_tunnel_pending_bytes : ℕ
  pub linux_relay_worker_event_budget : ℕ
  pub linux_relay_event_queue_capacity : ℕ
  pub linux_relay_worker_byte_budget_per_tick : ℕ
  pub linux_relay_quic_receive_complete_batch_bytes : ℕ
  pub windows_relay_max_pending_quic_receive_bytes_per_relay : ℕ
  pub windows_relay_quic_receive_complete_batch_bytes : ℕ
  pub windows_relay_max_buffered_quic_send_bytes : ℕ

abbrev pub new_tuning : Tuning
new_tuning = record {
  terminal_watchdog_seconds = 5;
  stream_recv_window = 536870912;
  conn_flow_control_window = 500000000;
  initial_window_packets = 2000;
  initial_rtt_ms = 100;
  relay_io_size = 1048576;
  relay_compress_io_size = 262144;
  relay_default_ideal_send = 67108864;
  relay_max_in_flight_sends = 64;
  relay_max_free_send_contexts = 64;
  tcp_socket_buffer_bytes = 4194304;
  relay_worker_count = 0;
  relay_max_iov = 16;
  relay_read_chunk_size = 131072;
  relay_read_batch_bytes = 1048576;
  relay_quic_recv_batch_bytes = 1048576;
  relay_tcp_write_max_bytes = 0;
  relay_tcp_write_burst_bytes = 0;
  relay_global_pending_bytes = 268435456;
  relay_per_tunnel_pending_bytes = 4194304;
  relay_worker_event_budget = 4096;
  relay_event_queue_capacity = 4096;
  relay_worker_byte_budget_per_tick = 67108864;
  relay_quic_receive_complete_batch_bytes = 0;
  linux_relay_worker_count = 0;
  windows_relay_worker_count = 0;
  linux_relay_max_iov = 16;
  linux_relay_read_chunk_size = 131072;
  linux_relay_read_batch_bytes = 1048576;
  linux_relay_quic_recv_batch_bytes = 1048576;
  linux_relay_tcp_write_max_bytes = 0;
  linux_relay_tcp_write_burst_bytes = 0;
  initial_quic_read_ahead_bytes = 1048576;
  linux_relay_global_pending_bytes = 268435456;
  max_pending_buffer_bytes_per_relay = 33554432;
  linux_relay_per_tunnel_pending_bytes = 4194304;
  linux_relay_worker_event_budget = 4096;
  linux_relay_event_queue_capacity = 4096;
  linux_relay_worker_byte_budget_per_tick = 67108864;
  linux_relay_quic_receive_complete_batch_bytes = 0;
  windows_relay_max_pending_quic_receive_bytes_per_relay = 16777216;
  windows_relay_quic_receive_complete_batch_bytes = 0;
  windows_relay_max_buffered_quic_send_bytes = 67108864;
}

-- The fields of TqConfig that TqComputeTuning reads.
pub record TuningInput : Type 0 where
  pub tuning_mode : TuningMode
  pub max_memory_mb : ℕ
  pub override_relay_io_size : ℕ
  pub override_relay_read_chunk_size : ℕ
  pub override_relay_tcp_write_max_bytes : ℕ
  pub override_relay_tcp_write_burst_bytes : ℕ
  pub override_relay_event_queue_capacity : ℕ
  pub override_relay_worker_count : ℕ
  pub override_linux_relay_read_chunk_size : ℕ
  pub override_linux_relay_tcp_write_max_bytes : ℕ
  pub override_linux_relay_tcp_write_burst_bytes : ℕ
  pub override_linux_relay_event_queue_capacity : ℕ
  pub override_linux_relay_worker_count : ℕ
  pub override_windows_relay_worker_count : ℕ
  pub override_quic_iw : ℕ
  pub override_quic_init_rtt_ms : ℕ
  pub override_terminal_watchdog_seconds : ℕ
