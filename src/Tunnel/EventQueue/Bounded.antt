-- ===== src/Tunnel/EventQueue/Bounded.antt =====
-- src/tunnel/linux_relay_event_queue.h: the length of the queue, and the capacity it is given.
use native.Mathlib.Decide.{dec_lt, ℕ_discrete}
use native.Mathlib.Nat.{pow-suc, pow-le-pow_right, mod-eq_of_lt}
use tcpquic_proxy.Base.{
  ℕ, zero, suc, ◌+◌, ◌*◌, ◌%◌, ◌^◌, ◌≤◌, ◌<◌, ◌≡◌, sym, ap, subst, ◌∙◌, Option, some, arith, List,
  ◌∷◌, [], length, length-append,
}
use tcpquic_proxy.Tunnel.EventQueue.{
  System, Reachable, start, next, normalize_loop, normalize_capacity,
}
use tcpquic_proxy.Tunnel.EventQueue.Queue.{
  Caller, Act, stays, offers, accepts, refuses, asks, takes, finds_none, hands, push_ends,
  refusal_ends, pop_ends, queue_of,
}
use tcpquic_proxy.Tunnel.EventQueue.Refine.{step-Act}

module _ (capacity : ℕ) where
  Act-bounded :
      (q r : List (Option ℕ)) (c d : Caller)
      → Act capacity q c r d
      → length q ≤ capacity
      → length r ≤ capacity
  Act-bounded _ _ _ _ (stays q c) low = low
  Act-bounded _ _ _ _ (offers q x) low = low
  Act-bounded _ _ _ _ (accepts q x room) low = omega (arith, length-append q (some x ∷ []))
  Act-bounded _ _ _ _ (refuses q x) low = low
  Act-bounded _ _ _ _ (asks q) low = low
  Act-bounded _ _ _ _ (takes q x) low = omega arith
  Act-bounded _ _ _ _ (finds_none q) low = low
  Act-bounded _ _ _ _ (hands q x) low = low
  Act-bounded _ _ _ _ (push_ends q x) low = low
  Act-bounded _ _ _ _ (refusal_ends q x) low = low
  Act-bounded _ _ _ _ (pop_ends q x) low = low

  -- In each state that the new queue reaches it holds at most `capacity` events.
  pub Reachable-bounded :
      (s : System capacity)
      → 2 ≤ capacity
      → Reachable capacity s
      → length (queue_of s.memory) ≤ capacity
  Reachable-bounded _ big start = omega arith
  Reachable-bounded t big (next s _ before step) =
      let (me, act, others) = step-Act capacity s t big before step in
      Act-bounded (queue_of s.memory) (queue_of t.memory) _ _ act (Reachable-bounded s big before)

-- The least exponent from k on whose power is not below the capacity.
abbrev pub Doubled : ℕ → ℕ → ℕ → Type 0
Doubled k capacity j =
    (capacity ≤ 2 ^ j) × (k ≤ j) × (j ≤ 63) × ((i : ℕ) → k ≤ i → capacity ≤ 2 ^ i → j ≤ i)

doubled : (k : ℕ) → k < 63 → 2 ^ k * 2 % 2 ^ 64 ≡ 2 ^ (k + 1)
doubled k low =
    let next_one : k + 1 ≡ suc k = omega arith in
    let twice : 2 ^ (k + 1) ≡ 2 ^ k * 2 = ap (λ n. 2 ^ n) next_one ∙ pow-suc 2 k in
    let top = pow-le-pow_right {n = 2} (omega arith) {i = k + 1} {j = 63} (omega arith) in
    mod-eq_of_lt (omega arith) ∙ sym twice

stops :
    (fuel normalized capacity : ℕ)
    → capacity ≤ normalized
    → normalize_loop (suc fuel) normalized capacity ≡ some normalized
unfolding normalize_loop
stops fuel normalized capacity high = ground arith

goes_on :
    (fuel normalized capacity : ℕ)
    → normalized < capacity
    → normalize_loop (suc fuel) normalized capacity
      ≡ normalize_loop fuel (normalized * 2 % 2 ^ 64) capacity
unfolding normalize_loop
goes_on fuel normalized capacity low = ground arith

below_top : (k capacity : ℕ) → 2 ^ k < capacity → k ≤ 63 → capacity ≤ 2 ^ 63 → k < 63
below_top k capacity below low small = elim (ℕ_discrete k 63) [
  | yes top ↦ let e = ap (λ n. 2 ^ n) top in absurd (omega arith)
  | no other ↦ omega arith
]

not_first : (i k capacity : ℕ) → k ≤ i → 2 ^ k < capacity → capacity ≤ 2 ^ i → k + 1 ≤ i
not_first i k capacity h below c = elim (ℕ_discrete i k) [
  | yes same ↦ let e = ap (λ n. 2 ^ n) same in absurd (omega arith)
  | no other ↦ omega arith
]

-- The loop returns the first of the doubled sizes that is not below the capacity.
loop-power :
    (fuel k capacity : ℕ)
    → 63 ≤ fuel + k
    → k ≤ 63
    → capacity ≤ 2 ^ 63
    → (j : ℕ) × (normalize_loop (suc fuel) (2 ^ k) capacity ≡ some (2 ^ j)) × Doubled k capacity j
loop-power zero k capacity enough low small =
    let top : k ≡ 63 = omega arith in
    let high : capacity ≤ 2 ^ k = subst (λ n. capacity ≤ 2 ^ n) (sym top) small in
    (k, stops 0 (2 ^ k) capacity high, (high, omega arith, low, λ i h c. h))
loop-power (suc fuel) k capacity enough low small = elim (dec_lt (2 ^ k) capacity) [
  | no high ↦ (
    k,
    stops (suc fuel) (2 ^ k) capacity (omega arith),
    (omega arith, omega arith, low, λ i h c. h),
  )
  | yes below ↦
      let under : k < 63 = below_top k capacity below low small in
      let (j, returned, (fits, above, top, least)) =
        loop-power fuel (k + 1) capacity (omega arith) (omega arith) small in
      (
        j,
        goes_on (suc fuel) (2 ^ k) capacity below
            ∙ ap (λ n. normalize_loop (suc fuel) n capacity) (doubled k under)
            ∙ returned,
        (fits, omega arith, top, λ i h c. least i (not_first i k capacity h below c) c),
      )
]

-- For a capacity of at most 2 ^ 63 the loop of NormalizeCapacity ends, on the least power of two that
-- is at least 2 and not below the capacity.
pub normalize_capacity-Doubled :
    (capacity : ℕ)
    → capacity ≤ 2 ^ 63
    → (j : ℕ) × (normalize_capacity capacity ≡ some (2 ^ j)) × Doubled 1 capacity j
unfolding normalize_capacity
normalize_capacity-Doubled capacity small =
    loop-power 63 1 capacity (omega arith) (omega arith) small
