-- ===== src/Tunnel/EventQueue/Refine.antt =====
-- src/tunnel/linux_relay_event_queue.h: the cells do what the bounded queue promises.
use native.Mathlib.Decide.{dec_lt}
use mathlib.Core.Bool.{false≢true}
use tcpquic_proxy.Base.{
  ℕ, suc, ◌+◌, ◌-◌, ◌≤◌, ◌<◌, ◌≡◌, ◌≢◌, refl, sym, ap, subst, ◌∙◌, true, Option, none, some, arith,
  List, ◌∷◌, [], ◌++◌, length, update, update_same, update_other,
}
use tcpquic_proxy.Tunnel.EventQueue.{
  Stage, fresh, writing, publishing, published, reading, releasing, released, Memory, Pc, outside,
  push_check, push_cas, push_write, push_store, push_refused, pop_check, pop_cas, pop_read,
  pop_store, got, to_reading, to_releasing, to_released, item_of, cell, Move, push_begins,
  push_is_free, push_is_full, push_is_late, push_claims, push_retries, push_writes, push_stores,
  pop_begins, pop_is_there, pop_is_empty, pop_is_late, pop_claims, pop_retries, pop_reads,
  pop_stores, push_returns, pop_returns, System, Step, moves, Reachable,
}
use tcpquic_proxy.Tunnel.EventQueue.Stages.{
  is_released, is_published, is_taken, holder, At, Cells, Knows, cell-round,
}
use tcpquic_proxy.Tunnel.EventQueue.Keep.{changed}
use tcpquic_proxy.Tunnel.EventQueue.Push.{claimed}
use tcpquic_proxy.Tunnel.EventQueue.Pop.{taken_over}
use tcpquic_proxy.Tunnel.EventQueue.Inv.{Reachable-Holds, after}
use tcpquic_proxy.Tunnel.EventQueue.Others.{Spares}
use tcpquic_proxy.Tunnel.EventQueue.Queue.{
  Caller, offering, accepted, asking, taken, handed, Act, stays, offers, accepts, refuses, asks,
  takes, finds_none, hands, push_ends, refusal_ends, pop_ends, window, queue_of, caller_at,
  caller_of, length-window, window-same, window-last,
}

module _ (capacity : ℕ) where
  pub in-order : (m : Memory) → Cells capacity m → m.dequeue_pos ≤ m.enqueue_pos
  in-order m v = elim (dec_lt m.enqueue_pos m.dequeue_pos) [
    | no low ↦ omega arith
    | yes past ↦ absurd (
        false≢true (
          sym (ap is_taken (v.fresh_above m.enqueue_pos (omega arith)))
          ∙ v.taken_below m.enqueue_pos past))
  ]

  -- A producer that finds its cell free finds room in the queue.
  room :
      (m : Memory) (p : ℕ)
      → 2 ≤ capacity
      → Cells capacity m
      → ((r : ℕ) → r < p → cell capacity r ≡ cell capacity p → is_released (m.stage r) ≡ true)
      → p < m.dequeue_pos + capacity
  room m p big v earlier = elim (dec_lt p capacity) [
    | yes low ↦ omega arith
    | no high ↦
        let r = p - capacity in
        let back : r + capacity ≡ p = omega arith in
        let gone =
          earlier r (omega arith) (sym (cell-round capacity r) ∙ ap (cell capacity) back) in
        elim (dec_lt r m.dequeue_pos) [
          | yes below ↦ omega arith
          | no above ↦ absurd (ground (arith, v.kept_above r (omega arith)))
        ]
  ]

  keeps :
      (m : Memory) (p : ℕ) (st : Stage) (sequence : ℕ → ℕ) (event : ℕ → Option ℕ)
      → item_of st ≡ item_of (m.stage p)
      → queue_of (changed capacity m p st sequence event) ≡ queue_of m
  keeps m p st sequence event same =
      window-same m.stage (update m.stage p st) m.dequeue_pos (m.enqueue_pos - m.dequeue_pos)
        (λ q low high. ground arith)

  appends :
      (m : Memory) (me x p : ℕ)
      → m.enqueue_pos ≡ p
      → m.dequeue_pos ≤ p
      → queue_of (claimed m me x p) ≡ queue_of m ++ (some x ∷ [])
  appends m me x p at low =
      let count = m.enqueue_pos - m.dequeue_pos in
      let stage = update m.stage p (writing me x) in
      let more : p + 1 - m.dequeue_pos ≡ suc count = omega arith in
      let older = window-same m.stage stage m.dequeue_pos count (λ q from_low high. ground arith) in
      let newest : item_of (stage p) ≡ some x = ap item_of (update_same m.stage p (writing me x)) in
      ap (window stage m.dequeue_pos) more
      ∙ window-last stage m.dequeue_pos count p (omega arith)
      ∙ ap (λ q. q ++ (item_of (stage p) ∷ [])) older
      ∙ ap (λ item. queue_of m ++ (item ∷ [])) newest

  removes :
      (m : Memory) (me x p : ℕ)
      → m.dequeue_pos ≡ p
      → p < m.enqueue_pos
      → item_of (m.stage p) ≡ some x
      → queue_of m ≡ some x ∷ queue_of (taken_over m me p)
  removes m me x p at low e =
      let count = m.enqueue_pos - (p + 1) in
      let stage = update m.stage p (to_reading me (m.stage p)) in
      let less : m.enqueue_pos - m.dequeue_pos ≡ suc count = omega arith in
      let younger = window-same m.stage stage (p + 1) count (λ q low_q high. ground arith) in
      ap (window m.stage m.dequeue_pos) less
      ∙ ap (λ r. window m.stage r (suc count)) at
      ∙ ap (λ item. item ∷ window m.stage (p + 1) count) e
      ∙ ap (λ tail. some x ∷ tail) (sym younger)

  published-event : (st : Stage) → is_published st ≡ true → (x : ℕ) × (st ≡ published x)
  published-event (published x) e = (x, refl)
  published-event fresh e = cc
  published-event (writing o x) e = cc
  published-event (publishing o x) e = cc
  published-event (reading o x) e = cc
  published-event (releasing o x) e = cc
  published-event (released x) e = cc

  is_used :
      (m : Memory) (p : ℕ) → Cells capacity m → is_published (m.stage p) ≡ true → p < m.enqueue_pos
  is_used m p v e = elim (dec_lt p m.enqueue_pos) [
    | yes below ↦ below
    | no above ↦ absurd (false≢true (sym (ap is_published (v.fresh_above p (omega arith))) ∙ e))
  ]

  along :
      {q q' r r' : List (Option ℕ)} {c c' d d' : Caller}
      → q ≡ q'
      → c ≡ c'
      → r ≡ r'
      → d ≡ d'
      → Act capacity q' c' r' d'
      → Act capacity q c r d
  along {q} {q'} {r} {r'} {c} {c'} {d} {d'} eq ec er ed h =
      subst (λ a. Act capacity a c r d) (sym eq)
        (subst (λ b. Act capacity q' b r d) (sym ec)
          (subst (λ b. Act capacity q' c' b d) (sym er)
            (subst (λ b. Act capacity q' c' r' b) (sym ed) h)))

  -- What thread `me` does by one move, as a caller of the bounded queue.
  move-Act :
      (me : ℕ) (m n : Memory) (p q : Pc)
      → 2 ≤ capacity
      → Move capacity me m p n q
      → Cells capacity m
      → Knows capacity me m p
      → Act capacity (queue_of m) (caller_at m p) (queue_of n) (caller_at n q)
  move-Act me m _ _ _ big (push_begins x) v k = offers (queue_of m) x
  move-Act me m _ _ _ big (push_is_free x p free) v k = stays (queue_of m) (offering x)
  move-Act me m _ _ _ big (push_is_full x p full) v k = refuses (queue_of m) x
  move-Act me m _ _ _ big (push_is_late x p late) v k = stays (queue_of m) (offering x)
  move-Act me m _ _ _ big (push_claims x p at) v k =
      let low = in-order m v in
      let here = room m p big v (k.1 at).1 in
      let fits : length (queue_of m) < capacity =
        omega (arith, length-window m.stage m.dequeue_pos (m.enqueue_pos - m.dequeue_pos)) in
      along refl refl (appends m me x p at (omega arith)) refl (accepts (queue_of m) x fits)
  move-Act me m _ _ _ big (push_retries x p) v k = stays (queue_of m) (offering x)
  move-Act me m _ _ _ big (push_writes x p) v k =
      along refl refl
        (keeps m p (publishing me x) m.sequence (update m.event (cell capacity p) (some x))
          (sym (ap item_of k)))
        refl (stays (queue_of m) (accepted x))
  move-Act me m _ _ _ big (push_stores x p) v k =
      along refl refl
        (keeps m p (published x) (update m.sequence (cell capacity p) (p + 1)) m.event
          (sym (ap item_of k)))
        refl (push_ends (queue_of m) x)
  move-Act me m _ _ _ big pop_begins v k = asks (queue_of m)
  move-Act me m _ _ _ big (pop_is_there p there) v k = stays (queue_of m) asking
  move-Act me m _ _ _ big (pop_is_empty p empty) v k = finds_none (queue_of m)
  move-Act me m _ _ _ big (pop_is_late p late) v k = stays (queue_of m) asking
  move-Act me m _ _ _ big (pop_claims p at) v k =
      let (x, e) = published-event (m.stage p) (k.1 at) in
      let item = ap item_of e in
      let below : p < m.enqueue_pos = is_used m p v (k.1 at) in
      along (removes m me x p at below item) refl refl
        (ap taken (
          ap item_of (update_same m.stage p (to_reading me (m.stage p)))
          ∙ ap (λ st. item_of (to_reading me st)) e))
        (takes (queue_of (taken_over m me p)) x)
  move-Act me m _ _ _ big (pop_retries p) v k = stays (queue_of m) asking
  move-Act me m _ _ _ big (pop_reads p) v (x, holds) =
      along refl (ap (λ st. taken (item_of st)) holds)
        (keeps m p (to_releasing me (m.stage p)) m.sequence (update m.event (cell capacity p) none)
          (ap (λ st. item_of (to_releasing me st)) holds ∙ sym (ap item_of holds)))
        (ap taken (subst (At capacity m p) holds (v.stands p)).1)
        (stays (queue_of m) (taken (some x)))
  move-Act me m _ _ _ big (pop_stores e p) v (x, holds, g) =
      along refl (ap taken g)
        (keeps m p (to_released (m.stage p)) (update m.sequence (cell capacity p) (p + capacity))
          m.event (ap (λ st. item_of (to_released st)) holds ∙ sym (ap item_of holds)))
        (ap handed g) (hands (queue_of m) x)
  move-Act me m _ _ _ big (push_returns x) v k = refusal_ends (queue_of m) x
  move-Act me m _ _ _ big (pop_returns e p) v (x, holds, g) =
      along refl (ap handed g) refl refl (pop_ends (queue_of m) x)

  others-Act :
      (i : ℕ) (m n : Memory) (pc : Pc)
      → Spares capacity i m n
      → Knows capacity i m pc
      → caller_at n pc ≡ caller_at m pc
  others-Act i m n (pop_read p) v (x, holds) =
      ap (λ st. taken (item_of st)) (v.held p (ap holder holds))
  others-Act i m n outside v k = refl
  others-Act i m n (push_check x p) v k = refl
  others-Act i m n (push_cas x p) v k = refl
  others-Act i m n (push_write x p) v k = refl
  others-Act i m n (push_store x p) v k = refl
  others-Act i m n (push_refused x) v k = refl
  others-Act i m n (pop_check p) v k = refl
  others-Act i m n (pop_cas p) v k = refl
  others-Act i m n (pop_store e p) v k = refl
  others-Act i m n (got e p) v k = refl

  -- Each step of any thread, from a state that the new queue reaches, is one step of that thread as a
  -- caller of the bounded queue: a push whose compare-exchange succeeds appends its event to a queue
  -- of fewer than `capacity` events, a pop whose compare-exchange succeeds takes the head and later
  -- returns that event, every other step leaves the queue; and the other threads stay where they are.
  pub step-Act :
      (s t : System capacity)
      → 2 ≤ capacity
      → Reachable capacity s
      → Step capacity s t
      → (me : ℕ) × Act capacity
          (queue_of s.memory)
          (caller_of capacity s me)
          (queue_of t.memory)
          (caller_of capacity t me)
        × ((i : ℕ) → i ≢ me → caller_of capacity t i ≡ caller_of capacity s i)
  step-Act s _ big before (moves me n pc move) =
      let v = Reachable-Holds capacity s big before in
      let a = after capacity me s.memory n (s.pc me) pc big move v.cells (v.knows me) in
      (
        me,
        subst (Act capacity (queue_of s.memory) (caller_of capacity s me) (queue_of n))
            (sym (ap (caller_at n) (update_same s.pc me pc)))
            (move-Act me s.memory n (s.pc me) pc big move v.cells (v.knows me)),
        λ i other.
            ap (caller_at n) (update_other s.pc me pc i other)
            ∙ others-Act i s.memory n (s.pc i) (a.theirs i other) (v.knows i),
      )
