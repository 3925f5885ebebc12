-- ===== src/Config/Tuning/Bounds.antt =====
-- src/config/tuning.cpp: the bounds of what TqComputeTuning leaves.
use tcpquic_proxy.Base.{ℕ, ◌*◌, ◌^◌, ◌≤◌, ◌≡◌, refl, ltb, arith, Bool-cases, inl, inr}
use tcpquic_proxy.Config.Tuning.Values.{Tuning, TuningInput, TuningMode, auto, lan, wan}
use tcpquic_proxy.Config.Tuning.{
  mib, Machine, normalize_relay_worker_count, detect_relay_workers, target_pending,
}
use tcpquic_proxy.Config.Tuning.Capacity.{capacity-bounds}
use tcpquic_proxy.Config.Tuning.Compute.{
  sync_linux_relay_legacy_fields, apply_high_bdp_pipeline_scaling, over_capacity, over_workers,
  apply_custom_overrides, apply_relay_sizes, apply_linux_relay_defaults, apply_validation,
  compute_tuning, apply_mode, budget_bytes_of,
}

workers_lem : (n : ℕ) → (1 ≤ normalize_relay_worker_count n) × (normalize_relay_worker_count n ≤ 8)
unfolding normalize_relay_worker_count
workers_lem n = ground arith

pub over_workers-bounds :
    (setting value : ℕ)
    → (1 ≤ value) × (value ≤ 8)
    → (1 ≤ over_workers setting value) × (over_workers setting value ≤ 8)
over_workers-bounds setting value h = ground (arith, workers_lem setting)

over_capacity-bounds :
    (setting value : ℕ)
    → (1024 ≤ value) × (value ≤ 1048576)
    → (1024 ≤ over_capacity setting value) × (over_capacity setting value ≤ 1048576)
over_capacity-bounds setting value h = ground (arith, capacity-bounds setting)

detected_lem : (m : Machine) → (1 ≤ detect_relay_workers m) × (detect_relay_workers m ≤ 8)
unfolding detect_relay_workers
detected_lem m = ground arith

-- What the first part of TqComputeTuning has set.
abbrev IsScaled : Tuning → Type 0
IsScaled t =
    ((1 ≤ t.relay_worker_count) × (t.relay_worker_count ≤ 8))
    × ((1 ≤ t.windows_relay_worker_count) × (t.windows_relay_worker_count ≤ 8))
    × (t.relay_event_queue_capacity ≡ 4096)
    × (128 * mib ≤ t.relay_global_pending_bytes)
    × (t.relay_global_pending_bytes ≤ 4096 * mib)
    × (t.relay_per_tunnel_pending_bytes ≤ 512 * mib)
    × (t.relay_per_tunnel_pending_bytes ≤ t.max_pending_buffer_bytes_per_relay)
    × (t.relay_worker_byte_budget_per_tick ≤ 512 * mib)

defaults-IsScaled :
    (m : Machine) (mode : TuningMode) (bytes : ℕ) (t : Tuning)
    → IsScaled (apply_linux_relay_defaults m mode bytes t)
unfolding target_pending apply_linux_relay_defaults apply_relay_sizes sync_linux_relay_legacy_fields
defaults-IsScaled m lan bytes t = (
  detected_lem m,
  detected_lem m,
  refl,
  ground arith,
  ground arith,
  ground arith,
  ground arith,
  omega arith,
)
defaults-IsScaled m auto bytes t = (
  detected_lem m,
  detected_lem m,
  refl,
  ground arith,
  ground arith,
  ground arith,
  ground arith,
  omega arith,
)
defaults-IsScaled m wan bytes t = (
  detected_lem m,
  detected_lem m,
  refl,
  ground arith,
  ground arith,
  ground arith,
  ground arith,
  omega arith,
)

scaling-IsScaled : (t : Tuning) → IsScaled t → IsScaled (apply_high_bdp_pipeline_scaling t)
unfolding apply_high_bdp_pipeline_scaling
scaling-IsScaled t h = elim (Bool-cases (ltb t.relay_default_ideal_send (64 * mib))) [
  | inl e ↦ rw e h
  | inr e ↦
      let (workers, windows, queue, low, high, _, _, _) = h in
      rw e (workers, windows, queue, low, high, omega arith, omega arith, omega arith)
]

-- Each of the older fields has the value of the one that replaces it.
abbrev pub IsSynced : Tuning → Type 0
IsSynced t =
    (t.linux_relay_worker_count ≡ t.relay_worker_count)
    × (t.linux_relay_max_iov ≡ t.relay_max_iov)
    × (t.linux_relay_read_chunk_size ≡ t.relay_read_chunk_size)
    × (t.linux_relay_read_batch_bytes ≡ t.relay_read_batch_bytes)
    × (t.linux_relay_quic_recv_batch_bytes ≡ t.relay_quic_recv_batch_bytes)
    × (t.linux_relay_tcp_write_max_bytes ≡ t.relay_tcp_write_max_bytes)
    × (t.linux_relay_tcp_write_burst_bytes ≡ t.relay_tcp_write_burst_bytes)
    × (t.linux_relay_global_pending_bytes ≡ t.relay_global_pending_bytes)
    × (t.linux_relay_per_tunnel_pending_bytes ≡ t.relay_per_tunnel_pending_bytes)
    × (t.linux_relay_worker_event_budget ≡ t.relay_worker_event_budget)
    × (t.linux_relay_event_queue_capacity ≡ t.relay_event_queue_capacity)
    × (t.linux_relay_worker_byte_budget_per_tick ≡ t.relay_worker_byte_budget_per_tick)
    × (t.linux_relay_quic_receive_complete_batch_bytes ≡ t.relay_quic_receive_complete_batch_bytes)

-- The ranges of the values that bound the relays' queues, buffers and windows.
abbrev pub IsTuned : Tuning → Type 0
IsTuned t =
    ((1 ≤ t.relay_worker_count) × (t.relay_worker_count ≤ 8))
    × ((1 ≤ t.windows_relay_worker_count) × (t.windows_relay_worker_count ≤ 8))
    × ((1024 ≤ t.relay_event_queue_capacity) × (t.relay_event_queue_capacity ≤ 1048576))
    × ((128 * mib ≤ t.relay_global_pending_bytes) × (t.relay_global_pending_bytes ≤ 4096 * mib))
    × ((t.relay_per_tunnel_pending_bytes ≡ 512 * mib)
        × (512 * mib ≤ t.max_pending_buffer_bytes_per_relay))
    × ((128 * mib ≤ t.relay_worker_byte_budget_per_tick)
        × (t.relay_worker_byte_budget_per_tick ≤ 512 * mib))
    × (128 * mib ≤ t.initial_quic_read_ahead_bytes)
    × ((t.stream_recv_window ≡ 2 ^ 31) × (t.conn_flow_control_window ≡ 2 ^ 31))

ends_lem :
    (c : TuningInput) (t : Tuning)
    → IsScaled t
    → IsTuned (sync_linux_relay_legacy_fields (apply_validation (apply_custom_overrides c t)))
      × IsSynced (sync_linux_relay_legacy_fields (apply_validation (apply_custom_overrides c t)))
unfolding sync_linux_relay_legacy_fields apply_validation apply_custom_overrides
ends_lem c t (workers, windows, queue, low, high, tunnel, most, tick) =
    let workers' =
      over_workers-bounds c.override_linux_relay_worker_count t.relay_worker_count workers in
    let capacity =
      over_capacity-bounds c.override_linux_relay_event_queue_capacity t.relay_event_queue_capacity
        (omega arith, omega arith) in
    (
      (
        over_workers-bounds c.override_relay_worker_count _ workers',
        over_workers-bounds c.override_windows_relay_worker_count _ windows,
        over_capacity-bounds c.override_relay_event_queue_capacity _ capacity,
        (low, high),
        (omega arith, omega arith),
        (omega arith, omega arith),
        omega arith,
        (refl, refl),
      ),
      (refl, refl, refl, refl, refl, refl, refl, refl, refl, refl, refl, refl, refl),
    )

-- Whatever the host reports, the configuration asks for and the values were, TqComputeTuning leaves 1
-- to 8 relay workers, an event queue of 1024 to 1048576, a global budget of 128 MiB to 4 GiB, 512 MiB
-- for each tunnel and at least as much for the buffers of a relay, 128 to 512 MiB for a tick of
-- a worker, at least 128 MiB to read ahead, flow windows of 2 GiB, and each older Linux field equal to
-- the field that has replaced it.
pub compute_tuning-IsTuned :
    (m : Machine) (c : TuningInput) (t : Tuning)
    → IsTuned (compute_tuning m c t).0 × IsSynced (compute_tuning m c t).0
unfolding compute_tuning
compute_tuning-IsTuned m c t =
    let chosen = apply_custom_overrides c (apply_mode c.tuning_mode t) in
    let bytes = budget_bytes_of m c chosen in
    let start = apply_linux_relay_defaults m c.tuning_mode bytes chosen in
    ends_lem c (apply_high_bdp_pipeline_scaling start)
      (scaling-IsScaled start (defaults-IsScaled m c.tuning_mode bytes chosen))
