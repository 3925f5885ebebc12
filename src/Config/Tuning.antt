-- ===== src/Config/Tuning.antt =====
-- src/config/tuning.cpp: TqComputeTuning. The processors and the memory that the host reports are
-- parameters.
pub mod Values
pub mod Compute
pub mod Smear
pub mod Capacity
pub mod Bounds
use tcpquic_proxy.Base.{
  ℕ, ◌+◌, ◌-◌, ◌*◌, ◌/◌, ◌%◌, ◌^◌, ◌<◌, Bool, true, false, Option, none, some, ltb, leb, ◌==◌,
  if◌then◌else◌, min, bit_or, ◌||◌, Bytes,
}
use Prim.Native.Nat.{max}
use tcpquic_proxy.Base.Bits.{shr}
use tcpquic_proxy.Base.Text.{codes, bytes_eq}
use tcpquic_proxy.Config.Tuning.Values.{Tuning, TuningInput, TuningMode, auto, lan, wan}

abbrev pub mib : ℕ
mib = 1048576

-- ClampU64, and ClampU32 with bounds of 32 bits.
abbrev pub clamp : ℕ → ℕ → ℕ → ℕ
clamp value min_value max_value = min (max value min_value) max_value

-- What sysconf or the system reports: the pages, and the bytes of a page.
pub record Machine : Type 0 where
  pub processors : ℕ
  pub page_count : ℕ
  pub page_size : ℕ

unfoldable pub detect_system_memory_bytes : Machine → ℕ
detect_system_memory_bytes m =
    if m.page_count == 0 || m.page_size == 0
    then 0
    else if ltb ((2 ^ 64 - 1) / m.page_size) m.page_count
    then 2 ^ 64 - 1
    else m.page_count * m.page_size

unfoldable pub compute_system_soft_limit_bytes : Machine → ℕ
compute_system_soft_limit_bytes m =
    let bytes = detect_system_memory_bytes m in
    if bytes == 0 then 512 * mib else clamp (bytes / 8) (256 * mib) (8192 * mib)

unfoldable pub target_pending : Tuning → ℕ
target_pending t = clamp t.relay_default_ideal_send (16 * mib) (512 * mib)

unfoldable pub bytes_to_mb_round_up : ℕ → ℕ
bytes_to_mb_round_up bytes = clamp ((bytes + mib - 1) % 2 ^ 64 / mib) 0 (2 ^ 32 - 1)

unfoldable pub automatic_relay_budget_bytes : Machine → Tuning → ℕ
automatic_relay_budget_bytes m t =
    clamp (max (max (compute_system_soft_limit_bytes m) (target_pending t)) (512 * mib)) (256 * mib)
      (8192 * mib)

unfoldable pub apply_wan_defaults : Tuning → Tuning
apply_wan_defaults t = record t {
  stream_recv_window = 536870912;
  conn_flow_control_window = 500000000;
  initial_window_packets = 2000;
  initial_rtt_ms = 100;
  relay_io_size = 1048576;
  relay_compress_io_size = 262144;
  relay_default_ideal_send = 67108864;
  relay_max_in_flight_sends = 64;
  relay_max_free_send_contexts = 64;
  tcp_socket_buffer_bytes = 4194304;
}

unfoldable pub apply_lan_defaults : Tuning → Tuning
apply_lan_defaults t = record t {
  stream_recv_window = 16777216;
  conn_flow_control_window = 16777216;
  initial_window_packets = 256;
  initial_rtt_ms = 10;
  relay_io_size = 262144;
  relay_compress_io_size = 65536;
  relay_default_ideal_send = 4194304;
  relay_max_in_flight_sends = 16;
  relay_max_free_send_contexts = 16;
  tcp_socket_buffer_bytes = 1048576;
}

unfoldable pub detect_relay_workers : Machine → ℕ
detect_relay_workers m = if m.processors == 0 then 1 else max 1 (min (m.processors % 2 ^ 32) 8)

unfoldable pub normalize_relay_worker_count : ℕ → ℕ
normalize_relay_worker_count count = max 1 (min count 8)

-- The five assignments that copy the highest bit down.
unfoldable pub smear : ℕ → ℕ
smear capacity =
    let capacity = bit_or capacity (shr capacity 1) in
    let capacity = bit_or capacity (shr capacity 2) in
    let capacity = bit_or capacity (shr capacity 4) in
    let capacity = bit_or capacity (shr capacity 8) in bit_or capacity (shr capacity 16)

unfoldable pub normalize_event_queue_capacity : ℕ → ℕ
normalize_event_queue_capacity capacity =
    if leb capacity 1024
    then 1024
    else if leb 1048576 capacity
    then 1048576
    else min ((smear (capacity - 1) + 1) % 2 ^ 32) 1048576

-- TqParseTuningMode; none is a null pointer.
unfoldable pub parse_tuning_mode : Option Bytes → TuningMode
parse_tuning_mode none = wan
parse_tuning_mode (some value) =
    if bytes_eq value (codes "auto")
    then auto
    else if bytes_eq value (codes "lan")
    then lan
    else wan
