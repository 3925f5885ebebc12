-- ===== src/Config/Runtime/Samples.antt =====
-- src/config/tuning.cpp: the averages after any sequence of measurements.
use tcpquic_proxy.Base.{
  ℕ, ◌^◌, ◌≤◌, ◌<◌, ◌≡◌, Bool, true, false, not, ◌||◌, ltb, ◌==◌, if◌then◌else◌, List, [], ◌∷◌, All,
  arith, refl, ap, ◌∙◌, ◌⊎◌, inl, inr,
}
use tcpquic_proxy.Base.Select.{has}
use tcpquic_proxy.Config.Runtime.{
  Runtime, new_runtime, update_ema, maybe_log, record_measured_rtt, record_ideal_send_hint, mbps_of,
  record_relay_throughput, permille_of, record_compression_sample,
}

-- A call of one of the functions that record a measurement.
pub data Measurement : Type 0 where
  rtt : (now rtt_ms : ℕ) → Measurement
  ideal_send : (now bytes : ℕ) → Measurement
  throughput : (now bytes_sent elapsed_ms ideal_send_bytes : ℕ) → Measurement
  compression : (now raw_bytes compressed_bytes : ℕ) → Measurement

unfoldable pub measure : Measurement → Runtime → Runtime
measure (rtt now rtt_ms) r = record_measured_rtt now rtt_ms r
measure (ideal_send now bytes) r = record_ideal_send_hint now bytes r
measure (throughput now bytes_sent elapsed_ms ideal_send_bytes) r =
    record_relay_throughput now bytes_sent elapsed_ms ideal_send_bytes r
measure (compression now raw_bytes compressed_bytes) r =
    record_compression_sample now raw_bytes compressed_bytes r

-- The last one of the list is the first measurement.
unfoldable pub measured : List Measurement → Runtime
measured [] = new_runtime
measured (m ∷ ms) = measure m (measured ms)

-- A round trip time that is counted lies in the range.
abbrev pub IsInRange : ℕ → ℕ → Measurement → Type 0
IsInRange low high (rtt now rtt_ms) = (rtt_ms ≡ 0) ⊎ (low ≤ rtt_ms) × (rtt_ms ≤ high)
IsInRange low high _ = Unit

abbrev pub IsMeasured : ℕ → ℕ → Runtime → Type 0
IsMeasured low high r =
    ((r.obs.has_rtt ≡ false) ⊎ (low ≤ r.obs.measured_rtt_ms) × (r.obs.measured_rtt_ms ≤ high))
    × (r.comp_obs.ratio_permille ≤ 2000)

log_lem :
    (low high now : ℕ) (r : Runtime)
    → IsMeasured low high r
    → IsMeasured low high (maybe_log now r).0
unfolding maybe_log
log_lem low high now r h = ground arith

ema_lem :
    (low high current sample : ℕ) (has_value : Bool)
    → (has_value ≡ false) ⊎ (low ≤ current) × (current ≤ high)
    → low ≤ sample
    → sample ≤ high
    → high < 2 ^ 29
    → (low ≤ update_ema current sample has_value) × (update_ema current sample has_value ≤ high)
unfolding update_ema
ema_lem low high current sample has_value h l u small = ground arith

-- A function that tests its arguments, then changes the observations and logs.
if_lem :
    (low high : ℕ) (skips : Bool) (r r' : Runtime)
    → IsMeasured low high r
    → IsMeasured low high r'
    → IsMeasured low high (if skips then r else r')
if_lem low high true r r' h h' = h
if_lem low high false r r' h h' = h'

hint_lem :
    (low high now bytes : ℕ) (r : Runtime)
    → IsMeasured low high r
    → IsMeasured low high (record_ideal_send_hint now bytes r)
unfolding record_ideal_send_hint
hint_lem low high now bytes r h = if_lem low high _ r _ h (log_lem low high now _ h)

throughput_lem :
    (low high now bytes_sent elapsed_ms ideal_send_bytes : ℕ) (r : Runtime)
    → IsMeasured low high r
    → IsMeasured low high (record_relay_throughput now bytes_sent elapsed_ms ideal_send_bytes r)
unfolding record_relay_throughput
throughput_lem low high now bytes_sent elapsed_ms ideal_send_bytes r h =
    if_lem low high (bytes_sent == 0 || ltb elapsed_ms 100) r _ h (
      if_lem low high (mbps_of bytes_sent elapsed_ms == 0) r _ h (
        if_lem low high (ltb 0 ideal_send_bytes) _ _ (hint_lem low high now ideal_send_bytes _ h)
          h))

rtt_lem :
    (low high now rtt_ms : ℕ) (r : Runtime)
    → high < 2 ^ 29
    → (rtt_ms ≡ 0) ⊎ (low ≤ rtt_ms) × (rtt_ms ≤ high)
    → IsMeasured low high r
    → IsMeasured low high (record_measured_rtt now rtt_ms r)
unfolding record_measured_rtt
rtt_lem low high now rtt_ms r small (inl e) h = rw e h
rtt_lem low high now rtt_ms r small (inr (l, u)) (h, c) =
    if_lem low high (rtt_ms == 0) r _ (h, c)
      (log_lem low high now _
        (inr (ema_lem low high r.obs.measured_rtt_ms rtt_ms r.obs.has_rtt h l u small), c))

sample_lem :
    (low high now raw_bytes compressed_bytes : ℕ) (r : Runtime)
    → IsMeasured low high r
    → IsMeasured low high (record_compression_sample now raw_bytes compressed_bytes r)
unfolding record_compression_sample permille_of
sample_lem low high now raw_bytes compressed_bytes r (h, c) =
    let ratio =
      ema_lem 0 2000 r.comp_obs.ratio_permille (permille_of raw_bytes compressed_bytes)
        r.comp_obs.has_sample (inr (omega arith, c)) (omega arith) (omega arith) (omega arith) in
    if_lem low high (ltb raw_bytes 4096 || compressed_bytes == 0) r _ (h, c)
      (log_lem low high now _ (h, ratio.1))

-- A round trip time that is recorded.
abbrev pub is_rtt : Measurement → Bool
is_rtt (rtt now rtt_ms) = not (rtt_ms == 0)
is_rtt _ = false

measure_lem :
    (low high : ℕ) (m : Measurement) (r : Runtime)
    → high < 2 ^ 29
    → IsInRange low high m
    → IsMeasured low high r
    → IsMeasured low high (measure m r)
unfolding measure
measure_lem low high (rtt now rtt_ms) r small fits h = rtt_lem low high now rtt_ms r small fits h
measure_lem low high (ideal_send now bytes) r small fits h = hint_lem low high now bytes r h
measure_lem low high (throughput now bytes_sent elapsed_ms ideal_send_bytes) r small fits h =
    throughput_lem low high now bytes_sent elapsed_ms ideal_send_bytes r h
measure_lem low high (compression now raw_bytes compressed_bytes) r small fits h =
    sample_lem low high now raw_bytes compressed_bytes r h

measure-has_rtt :
    (m : Measurement) (r : Runtime) → (measure m r).obs.has_rtt ≡ is_rtt m || r.obs.has_rtt
unfolding measure record_measured_rtt record_ideal_send_hint record_relay_throughput
    record_compression_sample maybe_log
measure-has_rtt (rtt now rtt_ms) r = ground arith
measure-has_rtt (ideal_send now bytes) r = ground arith
measure-has_rtt (throughput now bytes_sent elapsed_ms ideal_send_bytes) r = ground arith
measure-has_rtt (compression now raw_bytes compressed_bytes) r = ground arith

measured_lem :
    (low high : ℕ) (ms : List Measurement)
    → high < 2 ^ 29
    → All (IsInRange low high) ms
    → IsMeasured low high (measured ms)
unfolding measured
measured_lem low high [] small fits = (inl refl, omega arith)
measured_lem low high (m ∷ ms) small (fit, fits) =
    measure_lem low high m (measured ms) small fit (measured_lem low high ms small fits)

measured-has_rtt : (ms : List Measurement) → (measured ms).obs.has_rtt ≡ has is_rtt ms
unfolding measured
measured-has_rtt [] = refl
measured-has_rtt (m ∷ ms) =
    measure-has_rtt m (measured ms) ∙ ap (λ b. is_rtt m || b) (measured-has_rtt ms)

-- After any sequence of measurements there is an averaged round trip time just when one that is not 0
-- was recorded. It then lies between the least and the greatest of the times that were recorded,
-- which are below 2 ^ 29 ms, where the average does not overflow; and the compression ratio is
-- at most 2000 permille.
pub measured-IsMeasured :
    (low high : ℕ) (ms : List Measurement)
    → high < 2 ^ 29
    → All (IsInRange low high) ms
    → ((measured ms).obs.has_rtt ≡ has is_rtt ms) × IsMeasured low high (measured ms)
measured-IsMeasured low high ms small fits =
    (measured-has_rtt ms, measured_lem low high ms small fits)
