-- ===== src/Tunnel/EventQueue/Pop.antt =====
-- src/tunnel/linux_relay_event_queue.h: the steps of TryPop that change the memory.
use tcpquic_proxy.Base.{
  ℕ, ◌+◌, ◌≤◌, ◌≡◌, refl, sym, ap, subst, ◌∙◌, true, false, none, arith, update, update_same,
  update_other,
}
use tcpquic_proxy.Tunnel.EventQueue.{
  Stage, fresh, writing, publishing, published, reading, releasing, released, Memory, cell,
}
use tcpquic_proxy.Tunnel.EventQueue.Stages.{
  is_published, is_taken, At, Cells, cell-neighbour, At-same,
}
use tcpquic_proxy.Tunnel.EventQueue.{to_reading}
use tcpquic_proxy.Tunnel.EventQueue.Stages.{cell-round}
use tcpquic_proxy.Tunnel.EventQueue.Keep.{At-update, fresh-waits, changed, keep-Cells}

abbrev pub taken_over : Memory → ℕ → ℕ → Memory
taken_over m me p = record m {
  dequeue_pos = p + 1;
  stage = update m.stage p (to_reading me (m.stage p));
}

module _ (capacity : ℕ) where
  -- The sequence that a consumer waits for shows a published event.
  pub there-published :
      (m : Memory) (p : ℕ) (st : Stage)
      → m.sequence (cell capacity p) ≡ p + 1
      → is_taken st ≡ false
      → At capacity m p st
      → is_published st ≡ true
  there-published m p fresh e k h = absurd (h e)
  there-published m p (writing o x) e k h = absurd (omega (arith, e, h))
  there-published m p (publishing o x) e k h = absurd (omega (arith, e, h.0))
  there-published m p (published x) e k h = refl
  there-published m p (reading o x) e k h = cc
  there-published m p (releasing o x) e k h = cc
  there-published m p (released x) e k h = cc

  reading-At :
      (m n : Memory) (me p : ℕ) (st : Stage)
      → n.sequence (cell capacity p) ≡ m.sequence (cell capacity p)
      → n.event (cell capacity p) ≡ m.event (cell capacity p)
      → is_published st ≡ true
      → At capacity m p st
      → At capacity n p (to_reading me st)
  reading-At m n me p fresh s e k h = cc
  reading-At m n me p (writing o x) s e k h = cc
  reading-At m n me p (publishing o x) s e k h = cc
  reading-At m n me p (published x) s e k h = (s ∙ h.0, e ∙ h.1)
  reading-At m n me p (reading o x) s e k h = cc
  reading-At m n me p (releasing o x) s e k h = cc
  reading-At m n me p (released x) s e k h = cc

  pub take-Cells :
      (m : Memory) (me p : ℕ)
      → Cells capacity m
      → m.dequeue_pos ≡ p
      → is_published (m.stage p) ≡ true
      → Cells capacity (taken_over m me p)
  take-Cells m me p v at there = record {
    fresh_above = λ q h. ground (arith, v.fresh_above q);
    used_below = λ q h. ground (arith, v.used_below q);
    taken_below = λ q h. ground (arith, v.taken_below q);
    kept_above = λ q h. ground (arith, v.kept_above q);
    alone = λ a b low same used. ground (arith, v.alone a b low same);
    stands =
        At-update capacity (taken_over m me p) m.stage p (to_reading me (m.stage p))
          (reading-At m (taken_over m me p) me p (m.stage p) refl refl there (v.stands p))
          (λ q other. At-same capacity m (taken_over m me p) q (m.stage q) refl refl (v.stands q));
  }

  pub read-Cells :
      (m : Memory) (me x p : ℕ)
      → Cells capacity m
      → m.stage p ≡ reading me x
      → Cells capacity
          (changed capacity m p (releasing me x) m.sequence (update m.event (cell capacity p) none))
  read-Cells m me x p v holds =
      keep-Cells capacity m p (releasing me x) m.sequence (update m.event (cell capacity p) none) v
        (ground arith, ground arith) (refl, ground arith)
        (subst (At capacity m p) holds (v.stands p)).0
        (λ c apart. (refl, update_other m.event (cell capacity p) none c apart))
        (λ q same e. fresh-waits capacity m q (m.stage q) e (v.stands q))

  pub release-Cells :
      (m : Memory) (me x p : ℕ)
      → 2 ≤ capacity
      → Cells capacity m
      → m.stage p ≡ releasing me x
      → Cells capacity (
          changed capacity m p
            (released x)
            (update m.sequence (cell capacity p) (p + capacity))
            m.event)
  release-Cells m me x p big v holds =
      let sequence = update m.sequence (cell capacity p) (p + capacity) in
      keep-Cells capacity m p (released x) sequence m.event v (ground arith, ground arith)
        (refl, ground arith) tt
        (λ c apart. (update_other m.sequence (cell capacity p) (p + capacity) c apart, refl))
        (λ q same e h.
          let put = update_same m.sequence (cell capacity p) (p + capacity) in
          let got = ap sequence same in
          let one : q + 1 ≡ p + capacity = sym h ∙ got ∙ put in
          cell-neighbour capacity q big (ap (cell capacity) one ∙ cell-round capacity p ∙ sym same))
