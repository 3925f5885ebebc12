-- ===== src/Tunnel/EventQueue.antt =====
-- src/tunnel/linux_relay_event_queue.h: the bounded queue between the callbacks of MsQuic and a relay
-- worker, and any number of threads that push and pop, one access to a shared variable at a time
-- (darwin_relay_event_queue.h has the same two loops). The accesses are in one order: the acquire
-- and release pairs of the code order each use of a cell behind the sequence number that allows it.
-- Positions are counted without a wrap, so the signed difference is that of the numbers: a queue sees
-- fewer than 2 ^ 63 events. An event is a number, and the default event none.
pub mod Stages
pub mod Keep
pub mod Push
pub mod Pop
pub mod Others
pub mod Inv
pub mod Queue
pub mod Refine
pub mod Bounded
use tcpquic_proxy.Base.{
  ℕ, zero, suc, ◌+◌, ◌*◌, ◌%◌, ◌^◌, ◌<◌, ◌≡◌, ◌≢◌, Bool, true, false, Option, none, some, ltb, ◌==◌,
  if◌then◌else◌, update, update_same, update_other,
}

-- The loop of NormalizeCapacity on fuel; the shift of a size_t drops what leaves 64 bits.
unfoldable pub normalize_loop : ℕ → ℕ → ℕ → Option ℕ
normalize_loop zero normalized capacity = none
normalize_loop (suc fuel) normalized capacity =
    let rest = normalize_loop fuel (normalized * 2 % 2 ^ 64) capacity in
    if ltb normalized capacity then rest else some normalized

unfoldable pub normalize_capacity : ℕ → Option ℕ
normalize_capacity capacity = normalize_loop 64 2 capacity

-- What has become of a position: a ghost, with the thread that holds it and its event.
pub data Stage : Type 0 where
  fresh : Stage
  writing publishing : (owner event : ℕ) → Stage
  published : (event : ℕ) → Stage
  reading releasing : (owner event : ℕ) → Stage
  released : (event : ℕ) → Stage

-- The atomics and the cells. `stage` is read by nothing.
pub record Memory : Type 0 where
  pub enqueue_pos : ℕ
  pub dequeue_pos : ℕ
  pub sequence : ℕ → ℕ
  pub event : ℕ → Option ℕ
  pub stage : ℕ → Stage

-- Where a thread stands, with its local variables: in TryPush before the load of the sequence, the
-- compare-exchange, the write and the store; in TryPop likewise. `got` has returned an event.
pub data Pc : Type 0 where
  outside : Pc
  push_check push_cas : (event position : ℕ) → Pc
  push_write push_store : (event position : ℕ) → Pc
  push_refused : (event : ℕ) → Pc
  pop_check pop_cas pop_read : (position : ℕ) → Pc
  pop_store : (event : Option ℕ) (position : ℕ) → Pc
  got : (event : Option ℕ) (position : ℕ) → Pc

abbrev pub item_of : Stage → Option ℕ
item_of fresh = none
item_of (writing _ x) = some x
item_of (publishing _ x) = some x
item_of (published x) = some x
item_of (reading _ x) = some x
item_of (releasing _ x) = some x
item_of (released x) = some x

-- What a consumer makes of a stage; a position without an event keeps its stage.
abbrev pub to_reading : ℕ → Stage → Stage
to_reading me st = elim (item_of st) [ none ↦ st | some x ↦ reading me x ]

abbrev pub to_releasing : ℕ → Stage → Stage
to_releasing me st = elim (item_of st) [ none ↦ st | some x ↦ releasing me x ]

abbrev pub to_released : Stage → Stage
to_released st = elim (item_of st) [ none ↦ st | some x ↦ released x ]

-- The constructor: each cell's sequence is its index.
abbrev pub new_memory : Memory
new_memory = record {
  enqueue_pos = 0;
  dequeue_pos = 0;
  sequence = λ i. i;
  event = λ i. none;
  stage = λ p. fresh;
}

-- Sections of one queue with `capacity` cells, whose Mask is capacity - 1 for a power of two.
module _ (capacity : ℕ) where
  abbrev pub cell : ℕ → ℕ
  cell position = position % capacity

  -- One step of thread `me`.
  pub data Move (me : ℕ) (m : Memory) : Pc → Memory → Pc → Type 0 where
    push_begins : (x : ℕ) → Move me m outside m (push_check x m.enqueue_pos)
    push_is_free : (x p : ℕ) → m.sequence (cell p) ≡ p → Move me m (push_check x p) m (push_cas x p)
    push_is_full :
        (x p : ℕ) → m.sequence (cell p) < p → Move me m (push_check x p) m (push_refused x)
    push_is_late :
        (x p : ℕ)
        → p < m.sequence (cell p)
        → Move me m (push_check x p) m (push_check x m.enqueue_pos)
    push_claims :
        (x p : ℕ)
        → m.enqueue_pos ≡ p
        → Move me m
            (push_cas x p)
            (record m { enqueue_pos = p + 1; stage = update m.stage p (writing me x) })
            (push_write x p)
    push_retries : (x p : ℕ) → Move me m (push_cas x p) m (push_check x m.enqueue_pos)
    push_writes :
        (x p : ℕ)
        → Move me m
            (push_write x p)
            (record m {
              event = update m.event (cell p) (some x);
              stage = update m.stage p (publishing me x);
            })
            (push_store x p)
    push_stores :
        (x p : ℕ)
        → Move me m
            (push_store x p)
            (record m {
              sequence = update m.sequence (cell p) (p + 1);
              stage = update m.stage p (published x);
            })
            outside
    pop_begins : Move me m outside m (pop_check m.dequeue_pos)
    pop_is_there : (p : ℕ) → m.sequence (cell p) ≡ p + 1 → Move me m (pop_check p) m (pop_cas p)
    pop_is_empty : (p : ℕ) → m.sequence (cell p) < p + 1 → Move me m (pop_check p) m outside
    pop_is_late :
        (p : ℕ) → p + 1 < m.sequence (cell p) → Move me m (pop_check p) m (pop_check m.dequeue_pos)
    pop_claims :
        (p : ℕ)
        → m.dequeue_pos ≡ p
        → Move me m
            (pop_cas p)
            (record m { dequeue_pos = p + 1; stage = update m.stage p (to_reading me (m.stage p)) })
            (pop_read p)
    pop_retries : (p : ℕ) → Move me m (pop_cas p) m (pop_check m.dequeue_pos)
    pop_reads :
        (p : ℕ)
        → Move me m
            (pop_read p)
            (record m {
              event = update m.event (cell p) none;
              stage = update m.stage p (to_releasing me (m.stage p));
            })
            (pop_store (m.event (cell p)) p)
    pop_stores :
        (e : Option ℕ) (p : ℕ)
        → Move me m
            (pop_store e p)
            (record m {
              sequence = update m.sequence (cell p) (p + capacity);
              stage = update m.stage p (to_released (m.stage p));
            })
            (got e p)
    push_returns : (x : ℕ) → Move me m (push_refused x) m outside
    pop_returns : (e : Option ℕ) (p : ℕ) → Move me m (got e p) m outside

  pub record System : Type 0 where
    pub memory : Memory
    pub pc : ℕ → Pc

  pub data Step (s : System) : System → Type 0 where
    moves :
        (me : ℕ) (m : Memory) (pc : Pc)
        → Move me s.memory (s.pc me) m pc
        → Step s (record { memory = m; pc = update s.pc me pc })

  pub data Reachable : System → Type 0 where
    start : Reachable (record { memory = new_memory; pc = λ i. outside })
    next : (s t : System) → Reachable s → Step s t → Reachable t
