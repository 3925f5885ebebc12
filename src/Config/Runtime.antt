-- ===== src/Config/Runtime.antt =====
-- src/config/tuning.cpp: what is measured at run time, and what it changes. The clock is a parameter of
-- the functions that read it, and the line that is logged is a Boolean.
pub mod Pool
pub mod Samples
use Prim.Native.Nat.{max}
use tcpquic_proxy.Base.{
  ℕ, suc, ◌+◌, ◌-◌, ◌*◌, ◌/◌, ◌%◌, ◌^◌, Bool, true, false, not, ◌&&◌, ◌||◌, ltb, leb, ◌==◌,
  if◌then◌else◌, min, Bytes,
}
use tcpquic_proxy.Base.Text.{codes, bytes_eq}
use tcpquic_proxy.Config.Tuning.{mib, clamp}
use tcpquic_proxy.Config.Tuning.Values.{Tuning, TuningMode, auto, lan, wan}

-- TqRuntimeObservations
pub record RuntimeObservations : Type 0 where
  pub measured_rtt_ms : ℕ
  pub throughput_mbps : ℕ
  pub ideal_send_bytes : ℕ
  pub sample_count : ℕ
  pub has_rtt : Bool
  pub has_throughput : Bool
  pub has_ideal_send : Bool

-- TqCompressionObservations
pub record CompressionObservations : Type 0 where
  pub ratio_permille : ℕ
  pub comp_sample_count : ℕ
  pub has_sample : Bool

-- TqRuntimeState
pub record Runtime : Type 0 where
  pub obs : RuntimeObservations
  pub comp_obs : CompressionObservations
  pub last_log_unix_ms : ℕ

abbrev pub no_compression : CompressionObservations
no_compression = record { ratio_permille = 0; comp_sample_count = 0; has_sample = false }

-- TqResetRuntimeObservations
abbrev pub new_runtime : Runtime
new_runtime = record {
  obs = record {
    measured_rtt_ms = 0;
    throughput_mbps = 0;
    ideal_send_bytes = 0;
    sample_count = 0;
    has_rtt = false;
    has_throughput = false;
    has_ideal_send = false;
  };
  comp_obs = no_compression;
  last_log_unix_ms = 0;
}

unfoldable pub update_ema : ℕ → ℕ → Bool → ℕ
update_ema current sample has_value =
    if not has_value || current == 0 then sample else (current * 7 + sample) % 2 ^ 32 / 8

-- TqMaybeLogRuntimeObservationsLocked at the time `now`; the Boolean says that it logs a line.
unfoldable pub maybe_log : ℕ → Runtime → Runtime × Bool
maybe_log now r =
    let since = (now + (2 ^ 64 - r.last_log_unix_ms)) % 2 ^ 64 in
    if r.obs.sample_count == 0 && not r.comp_obs.has_sample
    then (r, false)
    else if not (r.last_log_unix_ms == 0) && ltb since 30000
    then (r, false)
    else (record r { last_log_unix_ms = now }, true)

unfoldable pub record_measured_rtt : ℕ → ℕ → Runtime → Runtime
record_measured_rtt now rtt_ms r =
    let obs = record r.obs {
      measured_rtt_ms = update_ema r.obs.measured_rtt_ms rtt_ms r.obs.has_rtt;
      has_rtt = true;
      sample_count = (r.obs.sample_count + 1) % 2 ^ 64;
    } in
    if rtt_ms == 0 then r else (maybe_log now (record r { obs = obs })).0

unfoldable pub record_ideal_send_hint : ℕ → ℕ → Runtime → Runtime
record_ideal_send_hint now bytes r =
    let higher = not r.obs.has_ideal_send || ltb r.obs.ideal_send_bytes bytes in
    let obs = record r.obs {
      ideal_send_bytes = if higher then bytes else r.obs.ideal_send_bytes;
      has_ideal_send = true;
      sample_count = (r.obs.sample_count + 1) % 2 ^ 64;
    } in
    if bytes == 0 then r else (maybe_log now (record r { obs = obs })).0

-- The rate that TqRecordRelayThroughput computes.
unfoldable pub mbps_of : ℕ → ℕ → ℕ
mbps_of bytes_sent elapsed_ms =
    bytes_sent * 8 % 2 ^ 64 * 1000 % 2 ^ 64 / (elapsed_ms * 1000000) % 2 ^ 32

unfoldable pub record_relay_throughput : ℕ → ℕ → ℕ → ℕ → Runtime → Runtime
record_relay_throughput now bytes_sent elapsed_ms ideal_send_bytes r =
    let mbps = mbps_of bytes_sent elapsed_ms in
    let obs = record r.obs {
      throughput_mbps = update_ema r.obs.throughput_mbps mbps r.obs.has_throughput;
      has_throughput = true;
      sample_count = (r.obs.sample_count + 1) % 2 ^ 64;
    } in
    let recorded = record r { obs = obs } in
    if bytes_sent == 0 || ltb elapsed_ms 100
    then r
    else if mbps == 0
    then r
    else if ltb 0 ideal_send_bytes
    then record_ideal_send_hint now ideal_send_bytes recorded
    else recorded

unfoldable pub permille_of : ℕ → ℕ → ℕ
permille_of raw_bytes compressed_bytes = min (compressed_bytes * 1000 % 2 ^ 64 / raw_bytes) 2000

unfoldable pub record_compression_sample : ℕ → ℕ → ℕ → Runtime → Runtime
record_compression_sample now raw_bytes compressed_bytes r =
    let comp = record r.comp_obs {
      ratio_permille =
          update_ema r.comp_obs.ratio_permille (permille_of raw_bytes compressed_bytes)
            r.comp_obs.has_sample;
      has_sample = true;
      comp_sample_count = (r.comp_obs.comp_sample_count + 1) % 2 ^ 64;
    } in
    if ltb raw_bytes 4096 || compressed_bytes == 0
    then r
    else (maybe_log now (record r { comp_obs = comp })).0

-- TqResolveAutoCompress, with TqModeFromRatioPermille.
unfoldable pub resolve_auto_compress : Bytes → Runtime → Bytes
resolve_auto_compress compress r =
    let c = r.comp_obs in
    if not (bytes_eq compress (codes "auto"))
    then compress
    else if not c.has_sample || c.comp_sample_count == 0
    then codes "off"
    else if leb 980 c.ratio_permille
    then codes "off"
    else codes "zstd"

unfoldable pub runtime_tuning_enabled : TuningMode → Bool
runtime_tuning_enabled lan = false
runtime_tuning_enabled _ = true

-- The change of TqApplyRuntimeObservations where the hint is below the ideal.
unfoldable pub apply_ideal_send : RuntimeObservations → Tuning → Tuning
apply_ideal_send obs t =
    let contexts =
      clamp ((obs.ideal_send_bytes + t.relay_io_size - 1) % 2 ^ 64 / t.relay_io_size) 1
        t.relay_max_in_flight_sends in
    let lower = record t { relay_default_ideal_send = obs.ideal_send_bytes } in
    if ltb 0 t.relay_io_size
    then record lower {
      relay_max_in_flight_sends = min t.relay_max_in_flight_sends contexts;
      relay_max_free_send_contexts = min t.relay_max_free_send_contexts contexts;
    }
    else lower

-- TqApplyRuntimeObservations
unfoldable pub apply_runtime_observations : RuntimeObservations → TuningMode → ℕ → Tuning → Tuning
apply_runtime_observations obs mode override_rtt t =
    let with_rtt =
      if obs.has_rtt && override_rtt == 0
      then record t { initial_rtt_ms = clamp obs.measured_rtt_ms 1 60000 }
      else t in
    let with_ideal =
      if obs.has_ideal_send && ltb obs.ideal_send_bytes with_rtt.relay_default_ideal_send
      then apply_ideal_send obs with_rtt
      else with_rtt in
    if not (runtime_tuning_enabled mode) || obs.sample_count == 0 then t else record with_ideal {
      stream_recv_window = 2147483648;
      conn_flow_control_window = 2147483648;
    }

-- TqApplyRelayPoolBudget
unfoldable pub apply_relay_pool_budget : ℕ → Tuning → ℕ → Tuning
apply_relay_pool_budget budget_mb t active_relays =
    let per_tunnel = budget_mb * mib / active_relays in
    let contexts = clamp (per_tunnel / t.relay_io_size) 1 t.relay_max_in_flight_sends in
    let capped = min per_tunnel (t.relay_io_size * contexts % 2 ^ 64) in
    let pooled = record t {
      relay_max_free_send_contexts = contexts;
      relay_max_in_flight_sends = min t.relay_max_in_flight_sends contexts;
    } in
    if budget_mb == 0 || active_relays == 0 || t.relay_io_size == 0
    then t
    else if ltb capped t.relay_default_ideal_send
    then record pooled { relay_default_ideal_send = capped }
    else pooled

-- TqRelayRegisterActive: the count, and what is returned.
unfoldable pub register_active : ℕ → ℕ × ℕ
register_active active = ((active + 1) % 2 ^ 32, (active + 1) % 2 ^ 32)

-- A round of TqRelayUnregisterActive with the value that was read, and what the weak exchange fails
-- on without a reason: the count, and whether there is a next round.
unfoldable pub unregister_round : ℕ → ℕ → Bool → ℕ × Bool
unregister_round active prev spurious =
    if prev == 0
    then (active, false)
    else if active == prev && not spurious
    then (prev - 1, false)
    else (active, true)
