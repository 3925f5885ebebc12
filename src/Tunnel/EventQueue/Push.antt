-- ===== src/Tunnel/EventQueue/Push.antt =====
-- src/tunnel/linux_relay_event_queue.h: the steps of TryPush that change the memory.
use mathlib.Core.Bool.{false≢true}
use tcpquic_proxy.Base.{
  ℕ, ◌+◌, ◌≤◌, ◌<◌, ◌≡◌, ◌≢◌, refl, sym, ap, subst, ◌∙◌, true, false, some, arith, update,
  update_same, update_other,
}
use tcpquic_proxy.Tunnel.EventQueue.{
  Stage, fresh, writing, publishing, published, reading, releasing, released, Memory, cell,
}
use tcpquic_proxy.Tunnel.EventQueue.Stages.{
  is_fresh, is_released, At, Cells, cell-neighbour, At-same,
}
use tcpquic_proxy.Tunnel.EventQueue.Keep.{At-update, fresh-waits, changed, keep-Cells}

-- The memory behind the producer's steps.
abbrev pub claimed : Memory → ℕ → ℕ → ℕ → Memory
claimed m me x p = record m { enqueue_pos = p + 1; stage = update m.stage p (writing me x) }

module _ (capacity : ℕ) where
  neighbours :
      (m : Memory) (r p : ℕ)
      → 2 ≤ capacity
      → m.sequence (cell capacity p) ≡ p
      → cell capacity r ≡ cell capacity p
      → m.sequence (cell capacity r) ≢ r + 1
  neighbours m r p big free same h =
      let e : r + 1 ≡ p = sym h ∙ ap m.sequence same ∙ free in
      cell-neighbour capacity r big (ap (cell capacity) e ∙ sym same)

  -- The sequence that a producer finds free leaves each earlier position of its cell released.
  pub free-released :
      (m : Memory) (r p : ℕ) (st : Stage)
      → 2 ≤ capacity
      → m.sequence (cell capacity p) ≡ p
      → r < p
      → cell capacity r ≡ cell capacity p
      → is_fresh st ≡ false
      → At capacity m r st
      → is_released st ≡ true
  free-released m r p fresh big free low same used h = cc
  free-released m r p (writing o x) big free low same used h =
      absurd (omega (arith, sym (ap m.sequence same) ∙ h, free))
  free-released m r p (publishing o x) big free low same used h =
      absurd (omega (arith, sym (ap m.sequence same) ∙ h.0, free))
  free-released m r p (published x) big free low same used h =
      absurd (neighbours m r p big free same h.0)
  free-released m r p (reading o x) big free low same used h =
      absurd (neighbours m r p big free same h.0)
  free-released m r p (releasing o x) big free low same used h =
      absurd (neighbours m r p big free same h)
  free-released m r p (released x) big free low same used h = refl

  pub claim-Cells :
      (m : Memory) (me x p : ℕ)
      → Cells capacity m
      → m.enqueue_pos ≡ p
      → m.sequence (cell capacity p) ≡ p
      → ((r : ℕ) → r < p → cell capacity r ≡ cell capacity p → is_released (m.stage r) ≡ true)
      → Cells capacity (claimed m me x p)
  claim-Cells m me x p v at free earlier = record {
    fresh_above = λ q h. ground (arith, v.fresh_above q);
    used_below = λ q h. ground (arith, v.used_below q);
    taken_below = λ q h. ground (arith, v.taken_below q, v.fresh_above p);
    kept_above = λ q h. ground (arith, v.kept_above q);
    alone = λ a b low same used. ground (arith, v.alone a b low same, earlier a, v.fresh_above b);
    stands =
        At-update capacity (claimed m me x p) m.stage p (writing me x) free
          (λ q other. At-same capacity m (claimed m me x p) q (m.stage q) refl refl (v.stands q));
  }

  pub write-Cells :
      (m : Memory) (me x p : ℕ)
      → Cells capacity m
      → m.stage p ≡ writing me x
      → Cells capacity (
          changed capacity m p
            (publishing me x)
            m.sequence
            (update m.event (cell capacity p) (some x)))
  write-Cells m me x p v holds =
      keep-Cells capacity m p (publishing me x) m.sequence
        (update m.event (cell capacity p) (some x)) v (ground arith, ground arith)
        (refl, ground arith)
        (subst (At capacity m p) holds (v.stands p), update_same m.event (cell capacity p) (some x))
        (λ c apart. (refl, update_other m.event (cell capacity p) (some x) c apart))
        (λ q same e. fresh-waits capacity m q (m.stage q) e (v.stands q))

  pub store-Cells :
      (m : Memory) (me x p : ℕ)
      → Cells capacity m
      → m.stage p ≡ publishing me x
      → Cells capacity
          (changed capacity m p (published x) (update m.sequence (cell capacity p) (p + 1)) m.event)
  store-Cells m me x p v holds =
      keep-Cells capacity m p (published x) (update m.sequence (cell capacity p) (p + 1)) m.event v
        (ground arith, ground arith) (refl, ground arith)
        (
          update_same m.sequence (cell capacity p) (p + 1),
          (subst (At capacity m p) holds (v.stands p)).1,
        )
        (λ c apart. (update_other m.sequence (cell capacity p) (p + 1) c apart, refl))
        (λ q same e h.
          let put = update_same m.sequence (cell capacity p) (p + 1) in
          let got = ap (update m.sequence (cell capacity p) (p + 1)) same in
          let one : q ≡ p = omega (arith, put, got, h) in
          absurd
            (false≢true (sym (ap is_fresh holds) ∙ ap (λ r. is_fresh (m.stage r)) (sym one) ∙ e)))
