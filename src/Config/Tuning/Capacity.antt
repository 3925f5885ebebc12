-- ===== src/Config/Tuning/Capacity.antt =====
-- src/config/tuning.cpp and src/tunnel/linux_relay_event_queue.h: the capacity of the event queue.
use tcpquic_proxy.Base.{ℕ, zero, suc, ◌+◌, ◌-◌, ◌^◌, ◌≤◌, ◌<◌, ◌≡◌, ◌∙◌, refl, ap, some, arith}
use native.Mathlib.Decide.{dec_lt}
use native.Mathlib.Nat.{pow-suc, one-le-pow, pow-le-pow_right}
use tcpquic_proxy.Config.Tuning.{clamp, normalize_event_queue_capacity, smear}
use tcpquic_proxy.Config.Tuning.Smear.{smear_bits}
use tcpquic_proxy.Tunnel.EventQueue.{normalize_capacity}
use tcpquic_proxy.Tunnel.EventQueue.Bounded.{Doubled, normalize_capacity-Doubled}

-- The least exponent is the one whose power is not below the capacity, and whose half is.
smear-Doubled :
    (capacity j : ℕ)
    → 1024 < capacity
    → capacity < 2 ^ 20
    → Doubled 1 capacity j
    → (smear (capacity - 1) + 1 ≡ 2 ^ j) × (2 ^ j ≤ 2 ^ 20)
smear-Doubled capacity zero above below (fits, low, top, least) = absurd (omega arith)
smear-Doubled capacity (suc zero) above below (fits, low, top, least) = absurd (omega arith)
smear-Doubled capacity (suc (suc k)) above below (fits, low, top, least) =
    let last : suc (suc k) ≤ 20 = least 20 (omega arith) (omega arith) in
    let most = pow-le-pow_right {n = 2} (omega arith) {i = suc (suc k)} {j = 20} last in
    elim (dec_lt (2 ^ suc k) capacity) [
      | yes half ↦
          (smear_bits (suc k) (capacity - 1) (omega arith) (omega arith) (omega arith), most)
      | no whole ↦ let less = least (suc k) (omega arith) (omega arith) in absurd (omega arith)
    ]

own_power : (j : ℕ) → 1 ≤ j → j ≤ 63 → normalize_capacity (2 ^ j) ≡ some (2 ^ j)
own_power j low top =
    let small = pow-le-pow_right {n = 2} (omega arith) {i = j} {j = 63} top in
    let (i, e, (fits, _, _, least)) = normalize_capacity-Doubled (2 ^ j) small in
    elim (dec_lt i j) [
      | yes less ↦
          let up = pow-le-pow_right {n = 2} (omega arith) {i = suc i} {j = j} less in
          let double = pow-suc 2 i in
          let some_bit = one-le-pow i 2 (omega arith) in absurd (omega arith)
      | no more ↦
          let same : i ≡ j = omega (arith, least j low (omega arith), more) in
          e ∙ ap (λ n. some (2 ^ n)) same
    ]

-- The bit operations of TqNormalizeLinuxRelayEventQueueCapacity find what the loop of NormalizeCapacity
-- finds: for each 32-bit capacity, brought between 1024 and 1048576, the loop returns the
-- same size, and the queue takes that size unchanged.
pub normalize_event_queue_capacity-normalize_capacity :
    (capacity : ℕ)
    → capacity < 2 ^ 32
    → (normalize_capacity (clamp capacity 1024 1048576)
        ≡ some (normalize_event_queue_capacity capacity))
      × (normalize_capacity (normalize_event_queue_capacity capacity)
          ≡ some (normalize_event_queue_capacity capacity))
unfolding normalize_event_queue_capacity
normalize_event_queue_capacity-normalize_capacity capacity small = elim (dec_lt 1024 capacity) [
  | no low ↦
      let e : clamp capacity 1024 1048576 ≡ 1024 = ground arith in
      let e' : normalize_event_queue_capacity capacity ≡ 1024 = ground arith in
      rw (e, e')
        (own_power 10 (omega arith) (omega arith), own_power 10 (omega arith) (omega arith))
  | yes above ↦ elim (dec_lt capacity 1048576) [
    | no high ↦
        let e : clamp capacity 1024 1048576 ≡ 1048576 = ground arith in
        let e' : normalize_event_queue_capacity capacity ≡ 1048576 = ground arith in
        rw (e, e')
          (own_power 20 (omega arith) (omega arith), own_power 20 (omega arith) (omega arith))
    | yes below ↦
        let (j, e, least) = normalize_capacity-Doubled capacity (omega arith) in
        let (bits, top) = smear-Doubled capacity j above below least in
        let same : clamp capacity 1024 1048576 ≡ capacity = ground arith in
        let e' : normalize_event_queue_capacity capacity ≡ 2 ^ j = ground arith in
        let (_, some_j, last, _) = least in rw (same, e', e) (refl, own_power j some_j last)
  ]
]

pub capacity-bounds :
    (capacity : ℕ)
    → (1024 ≤ normalize_event_queue_capacity capacity)
      × (normalize_event_queue_capacity capacity ≤ 1048576)
unfolding normalize_event_queue_capacity
capacity-bounds capacity = elim (dec_lt 1024 capacity) [
  | no low ↦ ground arith
  | yes above ↦ elim (dec_lt capacity 1048576) [
    | no high ↦ ground arith
    | yes below ↦
        let (j, e, least) = normalize_capacity-Doubled capacity (omega arith) in
        let (bits, top) = smear-Doubled capacity j above below least in
        let fits = least.0 in ground arith
  ]
]
