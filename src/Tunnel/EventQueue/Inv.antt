-- ===== src/Tunnel/EventQueue/Inv.antt =====
-- src/tunnel/linux_relay_event_queue.h: what holds of each queue that steps reach.
use native.Mathlib.Decide.{ℕ_discrete}
use tcpquic_proxy.Base.{
  ℕ, ◌+◌, ◌≤◌, ◌≡◌, ◌≢◌, refl, sym, ap, subst, ◌∙◌, true, Option, none, some, arith, update,
  update_same, update_other,
}
use tcpquic_proxy.Tunnel.EventQueue.{
  Stage, fresh, writing, publishing, published, reading, releasing, released, Memory, Pc, outside,
  push_check, push_cas, push_store, push_refused, pop_check, pop_cas, pop_store, got, to_reading,
  to_releasing, to_released, cell, Move, push_begins, push_is_free, push_is_full, push_is_late,
  push_claims, push_retries, push_writes, push_stores, pop_begins, pop_is_there, pop_is_empty,
  pop_is_late, pop_claims, pop_retries, pop_reads, pop_stores, push_returns, pop_returns, System,
  Step, moves, Reachable, start, next,
}
use tcpquic_proxy.Tunnel.EventQueue.Stages.{is_published, holder, At, Cells, Knows, new-Cells}
use tcpquic_proxy.Tunnel.EventQueue.Keep.{changed}
use tcpquic_proxy.Tunnel.EventQueue.Push.{free-released, claim-Cells, write-Cells, store-Cells}
use tcpquic_proxy.Tunnel.EventQueue.Pop.{there-published, take-Cells, read-Cells, release-Cells}
use tcpquic_proxy.Tunnel.EventQueue.Others.{
  Spares, Knows-Spares, changed-Spares, claimed-Spares, taken_over-Spares,
}

module _ (capacity : ℕ) where
  -- What a move of thread `me` leaves behind.
  pub record After (me : ℕ) (m n : Memory) (pc : Pc) : Type 0 where
    cells : Cells capacity n
    mine : Knows capacity me n pc
    pub theirs : (i : ℕ) → i ≢ me → Spares capacity i m n

  unchanged :
      (me : ℕ) (m : Memory) (pc : Pc) → Cells capacity m → Knows capacity me m pc → After me m m pc
  unchanged me m pc v k = record {
    cells = v;
    mine = k;
    theirs = λ i other. record {
      enqueue_grows = omega arith;
      dequeue_grows = omega arith;
      held = λ r h. refl;
      done = λ r h. refl;
      there = λ r e h. h;
      free = λ r e at s earlier. s;
    };
  }

  -- The stage that the holder of p gives it stands there.
  given : (m : Memory) (p : ℕ) (st : Stage) → update m.stage p st p ≡ st
  given m p st = update_same m.stage p st

  published-reading :
      (me : ℕ) (st : Stage) → is_published st ≡ true → (x : ℕ) × (to_reading me st ≡ reading me x)
  published-reading me (published x) e = (x, refl)
  published-reading me fresh e = cc
  published-reading me (writing o x) e = cc
  published-reading me (publishing o x) e = cc
  published-reading me (reading o x) e = cc
  published-reading me (releasing o x) e = cc
  published-reading me (released x) e = cc

  -- A move of the thread that holds p.
  by_holder :
      (me p : ℕ) (m : Memory) (st : Stage) (sequence : ℕ → ℕ) (event : ℕ → Option ℕ) (pc : Pc)
      → Cells capacity m
      → holder (m.stage p) ≡ some me
      → ((c : ℕ) → c ≢ cell capacity p → sequence c ≡ m.sequence c)
      → Cells capacity (changed capacity m p st sequence event)
      → Knows capacity me (changed capacity m p st sequence event) pc
      → After me m (changed capacity m p st sequence event) pc
  by_holder me p m st sequence event pc v mine kept cells k = record {
    cells = cells;
    mine = k;
    theirs = λ i other. changed-Spares capacity i me m p st sequence event v other mine kept;
  }

  after_push_free :
      (me x p : ℕ) (m : Memory)
      → 2 ≤ capacity
      → Cells capacity m
      → p ≤ m.enqueue_pos
      → m.sequence (cell capacity p) ≡ p
      → Knows capacity me m (push_cas x p)
  after_push_free me x p m big v low free = (
    low,
    λ at. (
      free,
      λ r h c.
          free-released capacity m r p (m.stage r) big free h c (v.used_below r (omega arith))
            (v.stands r),
    ),
  )

  after_pop_there :
      (me p : ℕ) (m : Memory)
      → Cells capacity m
      → p ≤ m.dequeue_pos
      → m.sequence (cell capacity p) ≡ p + 1
      → Knows capacity me m (pop_cas p)
  after_pop_there me p m v low there = (
    low,
    λ at.
        there-published capacity m p (m.stage p) there (v.kept_above p (omega arith)) (v.stands p),
  )

  after_read :
      (me x p : ℕ) (m : Memory)
      → Cells capacity m
      → m.stage p ≡ reading me x
      → After me m
          (changed capacity m p
            (to_releasing me (m.stage p))
            m.sequence
            (update m.event (cell capacity p) none))
          (pop_store (m.event (cell capacity p)) p)
  after_read me x p m v holds =
      subst
        (λ st.
          After me m (changed capacity m p st m.sequence (update m.event (cell capacity p) none))
            (pop_store (m.event (cell capacity p)) p))
        (sym (ap (to_releasing me) holds))
        (by_holder me p m (releasing me x) m.sequence (update m.event (cell capacity p) none)
          (pop_store (m.event (cell capacity p)) p) v (ap holder holds) (λ c apart. refl)
          (read-Cells capacity m me x p v holds)
          (x, given m p (releasing me x), (subst (At capacity m p) holds (v.stands p)).1))

  after_release :
      (me x p : ℕ) (e : Option ℕ) (m : Memory)
      → 2 ≤ capacity
      → Cells capacity m
      → m.stage p ≡ releasing me x
      → e ≡ some x
      → After me m
          (changed capacity m p
            (to_released (m.stage p))
            (update m.sequence (cell capacity p) (p + capacity))
            m.event)
          (got e p)
  after_release me x p e m big v holds g =
      subst
        (λ st.
          After me m
            (changed capacity m p st (update m.sequence (cell capacity p) (p + capacity)) m.event)
            (got e p))
        (sym (ap to_released holds))
        (by_holder me p m (released x) (update m.sequence (cell capacity p) (p + capacity)) m.event
          (got e p) v (ap holder holds)
          (λ c apart. update_other m.sequence (cell capacity p) (p + capacity) c apart)
          (release-Cells capacity m me x p big v holds) (x, given m p (released x), g))

  pub after :
      (me : ℕ) (m n : Memory) (p q : Pc)
      → 2 ≤ capacity
      → Move capacity me m p n q
      → Cells capacity m
      → Knows capacity me m p
      → After me m n q
  after me m _ _ _ big (push_begins x) v k =
      unchanged me m (push_check x m.enqueue_pos) v (omega arith)
  after me m _ _ _ big (push_is_free x p free) v k =
      unchanged me m (push_cas x p) v (after_push_free me x p m big v k free)
  after me m _ _ _ big (push_is_full x p full) v k = unchanged me m (push_refused x) v tt
  after me m _ _ _ big (push_is_late x p late) v k =
      unchanged me m (push_check x m.enqueue_pos) v (omega arith)
  after me m _ _ _ big (push_claims x p at) v k =
      let (free, earlier) = k.1 at in
      record {
        cells = claim-Cells capacity m me x p v at free earlier;
        mine = given m p (writing me x);
        theirs = λ i other. claimed-Spares capacity i me x p m v at;
      }
  after me m _ _ _ big (push_retries x p) v k =
      unchanged me m (push_check x m.enqueue_pos) v (omega arith)
  after me m _ _ _ big (push_writes x p) v k =
      by_holder me p m (publishing me x) m.sequence (update m.event (cell capacity p) (some x))
        (push_store x p) v (ap holder k) (λ c apart. refl) (write-Cells capacity m me x p v k)
        (given m p (publishing me x))
  after me m _ _ _ big (push_stores x p) v k =
      by_holder me p m (published x) (update m.sequence (cell capacity p) (p + 1)) m.event outside v
        (ap holder k) (λ c apart. update_other m.sequence (cell capacity p) (p + 1) c apart)
        (store-Cells capacity m me x p v k) tt
  after me m _ _ _ big pop_begins v k = unchanged me m (pop_check m.dequeue_pos) v (omega arith)
  after me m _ _ _ big (pop_is_there p there) v k =
      unchanged me m (pop_cas p) v (after_pop_there me p m v k there)
  after me m _ _ _ big (pop_is_empty p empty) v k = unchanged me m outside v tt
  after me m _ _ _ big (pop_is_late p late) v k =
      unchanged me m (pop_check m.dequeue_pos) v (omega arith)
  after me m _ _ _ big (pop_claims p at) v k =
      let there = k.1 at in
      let (x, e) = published-reading me (m.stage p) there in
      record {
        cells = take-Cells capacity m me p v at there;
        mine = (x, given m p (to_reading me (m.stage p)) ∙ e);
        theirs = λ i other. taken_over-Spares capacity i me p m at there;
      }
  after me m _ _ _ big (pop_retries p) v k =
      unchanged me m (pop_check m.dequeue_pos) v (omega arith)
  after me m _ _ _ big (pop_reads p) v (x, holds) = after_read me x p m v holds
  after me m _ _ _ big (pop_stores e p) v (x, holds, g) = after_release me x p e m big v holds g
  after me m _ _ _ big (push_returns x) v k = unchanged me m outside v tt
  after me m _ _ _ big (pop_returns e p) v k = unchanged me m outside v tt

  -- The invariant of the queue and of the threads at it.
  pub record Holds (s : System capacity) : Type 0 where
    pub cells : Cells capacity s.memory
    pub knows : (i : ℕ) → Knows capacity i s.memory (s.pc i)

  after-Holds :
      (s : System capacity) (me : ℕ) (n : Memory) (pc : Pc)
      → Holds s
      → After me s.memory n pc
      → Holds (record { memory = n; pc = update s.pc me pc })
  after-Holds s me n pc v a = record {
    cells = a.cells;
    knows = λ i. elim (ℕ_discrete i me) [
      | yes e ↦
          subst (λ j. Knows capacity j n (update s.pc me pc j)) (sym e)
            (subst (Knows capacity me n) (sym (update_same s.pc me pc)) a.mine)
      | no other ↦
          subst (Knows capacity i n) (sym (update_other s.pc me pc i other))
            (Knows-Spares capacity i s.memory n (s.pc i) (a.theirs i other) (v.knows i))
    ];
  }

  pub step-Holds : (s t : System capacity) → 2 ≤ capacity → Step capacity s t → Holds s → Holds t
  step-Holds s _ big (moves me n pc move) v =
      after-Holds s me n pc v (after me s.memory n (s.pc me) pc big move v.cells (v.knows me))

  pub Reachable-Holds : (s : System capacity) → 2 ≤ capacity → Reachable capacity s → Holds s
  Reachable-Holds _ big start = record { cells = new-Cells capacity big; knows = λ i. tt }
  Reachable-Holds t big (next s _ before step) =
      step-Holds s t big step (Reachable-Holds s big before)
