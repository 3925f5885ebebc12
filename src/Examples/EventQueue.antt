-- ===== src/Examples/EventQueue.antt =====
-- src/tunnel/linux_relay_event_queue.h: a queue of two cells, a push by thread 0 and a pop by thread 1.
use tcpquic_proxy.Base.{ℕ, ◌^◌, ◌≤◌, ◌≡◌, ◌≢◌, refl, arith, some, ◌∷◌, [], length, update}
use tcpquic_proxy.Tunnel.EventQueue.{
  writing, publishing, published, reading, Memory, new_memory, Pc, outside, push_check, push_cas,
  push_write, push_store, pop_check, pop_cas, pop_read, System, Reachable, start, next, moves, Move,
  push_begins, push_is_free, push_claims, push_writes, push_stores, pop_begins, pop_is_there,
  pop_claims, normalize_capacity,
}
use tcpquic_proxy.Tunnel.EventQueue.Queue.{Act, queue_of, caller_of}
use tcpquic_proxy.Tunnel.EventQueue.Refine.{step-Act}
use tcpquic_proxy.Tunnel.EventQueue.Bounded.{Reachable-bounded, normalize_capacity-Doubled, Doubled}

abbrev empty : System 2
empty = record { memory = new_memory; pc = λ i. outside }

abbrev put : System 2 → ℕ → Memory → Pc → System 2
put s me m pc = record { memory = m; pc = update s.pc me pc }

go :
    (s : System 2) (me : ℕ) (m : Memory) (pc : Pc)
    → Reachable 2 s
    → Move 2 me s.memory (s.pc me) m pc
    → Reachable 2 (put s me m pc)
go s me m pc before move = next s (put s me m pc) before (moves me m pc move)

abbrev memory_1 : Memory
memory_1 = record new_memory { enqueue_pos = 1; stage = update new_memory.stage 0 (writing 0 7) }

abbrev memory_2 : Memory
memory_2 = record memory_1 {
  event = update memory_1.event 0 (some 7);
  stage = update memory_1.stage 0 (publishing 0 7);
}

abbrev memory_3 : Memory
memory_3 = record memory_2 {
  sequence = update memory_2.sequence 0 1;
  stage = update memory_2.stage 0 (published 7);
}

abbrev memory_4 : Memory
memory_4 = record memory_3 { dequeue_pos = 1; stage = update memory_3.stage 0 (reading 1 7) }

abbrev offered : System 2
offered = put (put empty 0 new_memory (push_check 7 0)) 0 new_memory (push_cas 7 0)

abbrev stored : System 2
stored =
    put (put (put offered 0 memory_1 (push_write 7 0)) 0 memory_2 (push_store 7 0)) 0 memory_3
      outside

abbrev asked : System 2
asked = put (put stored 1 memory_3 (pop_check 0)) 1 memory_3 (pop_cas 0)

push_run : Reachable 2 stored
push_run =
    go (put (put offered 0 memory_1 (push_write 7 0)) 0 memory_2 (push_store 7 0)) 0 memory_3
      outside
      (go (put offered 0 memory_1 (push_write 7 0)) 0 memory_2 (push_store 7 0)
        (go offered 0 memory_1 (push_write 7 0)
          (go (put empty 0 new_memory (push_check 7 0)) 0 new_memory (push_cas 7 0)
            (go empty 0 new_memory (push_check 7 0) start (push_begins 7)) (push_is_free 7 0 refl))
          (push_claims 7 0 refl))
        (push_writes 7 0))
      (push_stores 7 0)

pop_run : Reachable 2 asked
pop_run =
    go (put stored 1 memory_3 (pop_check 0)) 1 memory_3 (pop_cas 0)
      (go stored 1 memory_3 (pop_check 0) push_run pop_begins) (pop_is_there 0 refl)

Reachable-bounded_example : length (queue_of memory_3) ≤ 2
Reachable-bounded_example = Reachable-bounded 2 stored (omega arith) push_run

abbrev claimed : System 2
claimed = put asked 1 memory_4 (pop_read 0)

step-Act_example :
    (me : ℕ) × Act 2 (some 7 ∷ []) (caller_of 2 asked me) [] (caller_of 2 claimed me)
    × ((i : ℕ) → i ≢ me → caller_of 2 claimed i ≡ caller_of 2 asked i)
step-Act_example =
    step-Act 2 asked claimed (omega arith) pop_run
      (moves 1 memory_4 (pop_read 0) (pop_claims 0 refl))

normalize_capacity-Doubled_example :
    (j : ℕ) × (normalize_capacity 1000 ≡ some (2 ^ j)) × Doubled 1 1000 j
normalize_capacity-Doubled_example = normalize_capacity-Doubled 1000 (omega arith)
