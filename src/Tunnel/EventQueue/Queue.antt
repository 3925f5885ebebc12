-- ===== src/Tunnel/EventQueue/Queue.antt =====
-- src/tunnel/linux_relay_event_queue.h: what the queue promises, a bounded queue whose operations
-- take effect in one step, and the view of the cells as that queue.
use tcpquic_proxy.Base.{
  ℕ, zero, suc, ◌+◌, ◌-◌, ◌<◌, ◌≤◌, ◌≡◌, refl, ap, Option, some, List, ◌∷◌, [], ◌++◌, length, arith,
}
use tcpquic_proxy.Tunnel.EventQueue.{
  Memory, Stage, Pc, outside, push_check, push_cas, push_write, push_store, push_refused, pop_check,
  pop_cas, pop_read, pop_store, got, item_of, System,
}

-- A caller of the queue.
pub data Caller : Type 0 where
  idle : Caller
  offering accepted refused : (event : ℕ) → Caller
  asking : Caller
  taken handed : (event : Option ℕ) → Caller

-- One step of a caller, and what it makes of the queue. A push takes effect while it is offered,
-- if the queue has room, and a pop while it is asked for, on the head of the queue.
pub data Act (capacity : ℕ) : List (Option ℕ) → Caller → List (Option ℕ) → Caller → Type 0 where
  stays : (q : List (Option ℕ)) (c : Caller) → Act capacity q c q c
  offers : (q : List (Option ℕ)) (x : ℕ) → Act capacity q idle q (offering x)
  accepts :
      (q : List (Option ℕ)) (x : ℕ)
      → length q < capacity
      → Act capacity q (offering x) (q ++ (some x ∷ [])) (accepted x)
  refuses : (q : List (Option ℕ)) (x : ℕ) → Act capacity q (offering x) q (refused x)
  asks : (q : List (Option ℕ)) → Act capacity q idle q asking
  takes : (q : List (Option ℕ)) (x : ℕ) → Act capacity (some x ∷ q) asking q (taken (some x))
  finds_none : (q : List (Option ℕ)) → Act capacity q asking q idle
  hands : (q : List (Option ℕ)) (x : ℕ) → Act capacity q (taken (some x)) q (handed (some x))
  push_ends : (q : List (Option ℕ)) (x : ℕ) → Act capacity q (accepted x) q idle
  refusal_ends : (q : List (Option ℕ)) (x : ℕ) → Act capacity q (refused x) q idle
  pop_ends : (q : List (Option ℕ)) (x : ℕ) → Act capacity q (handed (some x)) q idle

-- The items of the positions from `from` on.
abbrev pub window : (ℕ → Stage) → ℕ → ℕ → List (Option ℕ)
window stage from zero = []
window stage from (suc count) = item_of (stage from) ∷ window stage (from + 1) count

abbrev pub queue_of : Memory → List (Option ℕ)
queue_of m = window m.stage m.dequeue_pos (m.enqueue_pos - m.dequeue_pos)

abbrev pub caller_at : Memory → Pc → Caller
caller_at m outside = idle
caller_at m (push_check x p) = offering x
caller_at m (push_cas x p) = offering x
caller_at m (push_write x p) = accepted x
caller_at m (push_store x p) = accepted x
caller_at m (push_refused x) = refused x
caller_at m (pop_check p) = asking
caller_at m (pop_cas p) = asking
caller_at m (pop_read p) = taken (item_of (m.stage p))
caller_at m (pop_store e p) = taken e
caller_at m (got e p) = handed e

abbrev pub caller_of : (capacity : ℕ) → System capacity → ℕ → Caller
caller_of capacity s i = caller_at s.memory (s.pc i)

pub length-window : (stage : ℕ → Stage) (from count : ℕ) → length (window stage from count) ≡ count
length-window stage from zero = refl
length-window stage from (suc count) = rw (length-window stage (from + 1) count) (omega arith)

-- Positions that keep their items keep the window.
pub window-same :
    (f g : ℕ → Stage) (from count : ℕ)
    → ((p : ℕ) → from ≤ p → p < from + count → item_of (g p) ≡ item_of (f p))
    → window g from count ≡ window f from count
window-same f g from zero same = refl
window-same f g from (suc count) same =
    let tail =
      window-same f g (from + 1) count (λ p low high. same p (omega arith) (omega arith)) in
    rw (same from (omega arith) (omega arith)) (rw tail refl)

pub window-last :
    (f : ℕ → Stage) (from count last : ℕ)
    → last ≡ from + count
    → window f from (suc count) ≡ window f from count ++ (item_of (f last) ∷ [])
window-last f from zero last e =
    let here : from ≡ last = omega arith in ap (λ p. item_of (f p) ∷ []) here
window-last f from (suc count) last e =
    ap (λ tail. item_of (f from) ∷ tail) (window-last f (from + 1) count last (omega arith))
