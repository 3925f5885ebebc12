-- ===== src/Tunnel/EventQueue/Others.antt =====
-- src/tunnel/linux_relay_event_queue.h: what a thread knows survives the steps of the others.
use native.Mathlib.Decide.{ℕ_discrete, dec_lt}
use tcpquic_proxy.Base.{ℕ, ◌≤◌, ◌<◌, ◌≡◌, ◌≢◌, sym, ap, ◌∙◌, true, Option, some, arith}
use tcpquic_proxy.Tunnel.EventQueue.{Stage, Memory, cell}
use tcpquic_proxy.Tunnel.EventQueue.Stages.{is_released, is_published, Cells}
use tcpquic_proxy.Tunnel.EventQueue.{
  Pc, outside, push_check, push_cas, push_write, push_store, push_refused, pop_check, pop_cas,
  pop_read, pop_store, got,
}
use tcpquic_proxy.Tunnel.EventQueue.Stages.{Knows, holder}
use tcpquic_proxy.Tunnel.EventQueue.Keep.{changed}
use tcpquic_proxy.Tunnel.EventQueue.Push.{claimed}
use tcpquic_proxy.Tunnel.EventQueue.Pop.{taken_over}

module _ (capacity : ℕ) where
  -- What the memories before and behind a step of another thread have in common for thread `i`.
  pub record Spares (i : ℕ) (m n : Memory) : Type 0 where
    pub enqueue_grows : m.enqueue_pos ≤ n.enqueue_pos
    pub dequeue_grows : m.dequeue_pos ≤ n.dequeue_pos
    pub held : (r : ℕ) → holder (m.stage r) ≡ some i → n.stage r ≡ m.stage r
    pub done : (r : ℕ) → is_released (m.stage r) ≡ true → n.stage r ≡ m.stage r
    pub there :
        (r : ℕ)
        → n.dequeue_pos ≡ m.dequeue_pos
        → is_published (m.stage r) ≡ true
        → is_published (n.stage r) ≡ true
    pub free :
        (r : ℕ)
        → n.enqueue_pos ≡ m.enqueue_pos
        → m.enqueue_pos ≡ r
        → m.sequence (cell capacity r) ≡ r
        → ((t : ℕ) → t < r → cell capacity t ≡ cell capacity r → is_released (m.stage t) ≡ true)
        → n.sequence (cell capacity r) ≡ r

  pub Knows-Spares :
      (i : ℕ) (m n : Memory) (pc : Pc)
      → Spares i m n
      → Knows capacity i m pc
      → Knows capacity i n pc
  Knows-Spares i m n outside v k = tt
  Knows-Spares i m n (push_check x p) v k = let a = v.enqueue_grows in omega arith
  Knows-Spares i m n (push_cas x p) v (low, k) =
      let a = v.enqueue_grows in
      (
        omega arith,
        λ e.
            let here : m.enqueue_pos ≡ p = omega arith in
            let (s, earlier) = k here in
            (
              v.free p (omega arith) here s earlier,
              λ r h c. ap is_released (v.done r (earlier r h c)) ∙ earlier r h c,
            ),
      )
  Knows-Spares i m n (push_write x p) v k = v.held p (ap holder k) ∙ k
  Knows-Spares i m n (push_store x p) v k = v.held p (ap holder k) ∙ k
  Knows-Spares i m n (push_refused x) v k = tt
  Knows-Spares i m n (pop_check p) v k = let a = v.dequeue_grows in omega arith
  Knows-Spares i m n (pop_cas p) v (low, k) =
      let a = v.dequeue_grows in (omega arith, λ e. v.there p (omega arith) (k (omega arith)))
  Knows-Spares i m n (pop_read p) v (x, k) = (x, v.held p (ap holder k) ∙ k)
  Knows-Spares i m n (pop_store e p) v (x, k, g) = (x, v.held p (ap holder k) ∙ k, g)
  Knows-Spares i m n (got e p) v (x, k, g) = (x, v.done p (ap is_released k) ∙ k, g)

  pub changed-Spares :
      (i me : ℕ) (m : Memory) (p : ℕ) (st : Stage) (sequence : ℕ → ℕ) (event : ℕ → Option ℕ)
      → Cells capacity m
      → i ≢ me
      → holder (m.stage p) ≡ some me
      → ((c : ℕ) → c ≢ cell capacity p → sequence c ≡ m.sequence c)
      → Spares i m (changed capacity m p st sequence event)
  changed-Spares i me m p st sequence event v other mine kept = record {
    enqueue_grows = omega arith;
    dequeue_grows = omega arith;
    held = λ r h. ground arith;
    done = λ r h. ground arith;
    there = λ r e h. ground arith;
    free = λ r e at s earlier. elim (ℕ_discrete (cell capacity r) (cell capacity p)) [
      | no apart ↦ kept (cell capacity r) apart ∙ s
      | yes same ↦ elim (dec_lt p r) [
        | yes low ↦ absurd (ground (arith, earlier p low (sym same)))
        | no high ↦ absurd (ground (arith, v.fresh_above p (omega arith)))
      ]
    ];
  }

  pub claimed-Spares :
      (i me x p : ℕ) (m : Memory)
      → Cells capacity m
      → m.enqueue_pos ≡ p
      → Spares i m (claimed m me x p)
  claimed-Spares i me x p m v at = record {
    enqueue_grows = omega arith;
    dequeue_grows = omega arith;
    held = λ r h. ground (arith, v.fresh_above p);
    done = λ r h. ground (arith, v.fresh_above p);
    there = λ r e h. ground (arith, v.fresh_above p);
    free = λ r e here s earlier. s;
  }

  pub taken_over-Spares :
      (i me p : ℕ) (m : Memory)
      → m.dequeue_pos ≡ p
      → is_published (m.stage p) ≡ true
      → Spares i m (taken_over m me p)
  taken_over-Spares i me p m at there = record {
    enqueue_grows = omega arith;
    dequeue_grows = omega arith;
    held = λ r h. ground arith;
    done = λ r h. ground arith;
    there = λ r e h. absurd (omega arith);
    free = λ r e here s earlier. s;
  }
