-- ===== src/Config/Runtime/Pool.antt =====
-- src/config/tuning.cpp: the memory of all relays together.
use native.Mathlib.Nat.{mul-div-le, mul-le-mul_left}
use tcpquic_proxy.Base.{
  ℕ, ◌*◌, ◌/◌, ◌%◌, ◌^◌, ◌≤◌, ◌<◌, ◌≡◌, ◌⊎◌, inl, inr, ap, ◌∙◌, refl, Bool-cases, false, ltb, ◌==◌,
  min, arith,
}
use tcpquic_proxy.Config.Tuning.{mib, clamp}
use tcpquic_proxy.Config.Tuning.Values.{Tuning}
use tcpquic_proxy.Config.Runtime.{apply_relay_pool_budget}

contexts_lem :
    (q sends : ℕ)
    → 0 < sends
    → (1 ≤ clamp q 1 sends)
      × (clamp q 1 sends ≤ sends)
      × ((clamp q 1 sends ≤ q) ⊎ (clamp q 1 sends ≡ 1))
contexts_lem q sends some_send = ground arith

pooled_lem :
    (budget_mb active_relays : ℕ) (t : Tuning)
    → 0 < budget_mb
    → 0 < active_relays
    → 0 < t.relay_io_size
    → let per_tunnel = budget_mb * mib / active_relays in
      let contexts = clamp (per_tunnel / t.relay_io_size) 1 t.relay_max_in_flight_sends in
      ((apply_relay_pool_budget budget_mb t active_relays).relay_max_in_flight_sends
        ≡ min t.relay_max_in_flight_sends contexts)
      × ((apply_relay_pool_budget budget_mb t active_relays).relay_max_free_send_contexts
          ≡ contexts)
      × ((apply_relay_pool_budget budget_mb t active_relays).relay_default_ideal_send
          ≡ min t.relay_default_ideal_send (min per_tunnel (t.relay_io_size * contexts % 2 ^ 64)))
unfolding apply_relay_pool_budget
pooled_lem budget_mb active_relays t h_1 h_2 h_3 =
    let e_1 : (budget_mb == 0) ≡ false = ground arith in
    let e_2 : (active_relays == 0) ≡ false = ground arith in
    let e_3 : (t.relay_io_size == 0) ≡ false = ground arith in
    let per_tunnel = budget_mb * mib / active_relays in
    let contexts = clamp (per_tunnel / t.relay_io_size) 1 t.relay_max_in_flight_sends in
    let capped = min per_tunnel (t.relay_io_size * contexts % 2 ^ 64) in
    elim (Bool-cases (ltb capped t.relay_default_ideal_send)) [
      | inl e ↦ rw (e_1, e_2, e_3, e) (refl, refl, ground arith)
      | inr e ↦ rw (e_1, e_2, e_3, e) (refl, refl, ground arith)
    ]

-- With a budget, a relay and a size of its buffers that are not 0, and at least one send in flight,
-- TqApplyRelayPoolBudget leaves at least one send in flight and no more than before, as many
-- contexts, and no larger ideal; the ideals of all the active relays together, and their buffers in
-- flight unless one buffer each is left, stay within the budget.
pub apply_relay_pool_budget-bounds :
    (budget_mb active_relays : ℕ) (t t' : Tuning)
    → 0 < budget_mb
    → 0 < active_relays
    → 0 < t.relay_io_size
    → 0 < t.relay_max_in_flight_sends
    → t' ≡ apply_relay_pool_budget budget_mb t active_relays
    → (1 ≤ t'.relay_max_in_flight_sends)
      × (t'.relay_max_in_flight_sends ≤ t.relay_max_in_flight_sends)
      × (t'.relay_max_free_send_contexts ≡ t'.relay_max_in_flight_sends)
      × (t'.relay_default_ideal_send ≤ t.relay_default_ideal_send)
      × (active_relays * t'.relay_default_ideal_send ≤ budget_mb * mib)
      × ((active_relays * (t.relay_io_size * t'.relay_max_in_flight_sends) ≤ budget_mb * mib)
          ⊎ (t'.relay_max_in_flight_sends ≡ 1))
apply_relay_pool_budget-bounds budget_mb active_relays t t' h_1 h_2 h_3 h_4 e =
    let per_tunnel = budget_mb * mib / active_relays in
    let q = per_tunnel / t.relay_io_size in
    let (low, high, few) = contexts_lem q t.relay_max_in_flight_sends h_4 in
    let (f_1, f_2, f_3) = pooled_lem budget_mb active_relays t h_1 h_2 h_3 in
    let g_1 = ap (λ u. u.relay_max_in_flight_sends) e ∙ f_1 in
    let g_2 = ap (λ u. u.relay_max_free_send_contexts) e ∙ f_2 in
    let g_3 = ap (λ u. u.relay_default_ideal_send) e ∙ f_3 in
    let contexts = clamp q 1 t.relay_max_in_flight_sends in
    let g : t'.relay_max_in_flight_sends ≡ contexts = omega (arith, g_1, high) in
    let whole = mul-div-le (budget_mb * mib) active_relays in
    let ideal : t'.relay_default_ideal_send ≤ per_tunnel = omega (arith, g_3) in
    let part = mul-le-mul_left active_relays ideal in
    let budgeted = λ (h : contexts ≤ q).
      let one = mul-le-mul_left t.relay_io_size h in
      let fits = mul-div-le per_tunnel t.relay_io_size in
      mul-le-mul_left {m = t.relay_io_size * contexts} {n = per_tunnel} active_relays
        (omega arith) in
    (
      omega arith,
      omega arith,
      omega arith,
      omega (arith, g_3),
      omega arith,
      elim few [ inl h ↦ let all = budgeted h in rw g (inl (omega arith)) | inr h ↦ inr (g ∙ h) ],
    )
