-- ===== src/Examples/Buffer.antt =====
-- src/tunnel/relay_buffer.cpp: a buffer of 40 bytes, out of a budget of 100.
use tcpquic_proxy.Base.{◌+◌, ◌≤◌, ◌≡◌, refl, true, false, some, [], ◌∷◌, All, arith}
use tcpquic_proxy.Base.Sums.{total}
use tcpquic_proxy.Tunnel.Buffer.{
  Budget, Handle, new_budget, begin, looping, reserve_round, no_room, pending_bytes_limit, taken,
  allocate, no_failure,
}
use tcpquic_proxy.Tunnel.Buffer.System.{
  in_loop, behind_loop, System, new_system, Reachable, fresh, next, begins, reserves, allocates,
}
use tcpquic_proxy.Tunnel.Buffer.Covered.{reserved_by, capacity_of, IsWhole, Reachable-pending}

abbrev budget : Budget
budget = record { pending = 40; max = 100; allocate_count = 1 }

abbrev handle : Handle
handle = record {
  buffer = some (record { capacity = 40; used = 0 });
  has_budget = true;
  reserved = 40;
}

abbrev reserving : System
reserving = record (new_system 100) { calls = in_loop 40 0 ∷ []; requests = 40 ∷ [] }

abbrev allocating : System
allocating = record {
  budget = record (new_budget 100) { pending = 40 };
  calls = behind_loop 40 ∷ [];
  handles = [];
  requests = 40 ∷ [];
}

abbrev held : System
held = record { budget = budget; calls = []; handles = handle ∷ []; requests = 40 ∷ [] }

enters : begin (some (new_budget 100)) 40 ≡ looping 0
unfolding begin
enters = refl

takes : reserve_round (new_budget 100) 40 0 false ≡ (allocating.budget, taken)
unfolding reserve_round
takes = refl

gets : allocate allocating.budget 40 true true ≡ (budget, handle, no_failure)
unfolding allocate
gets = refl

reached : Reachable 100 held
reached =
    next allocating held
      (next reserving allocating (next (new_system 100) reserving fresh (begins 40 0 enters))
        (reserves [] [] 40 0 false allocating.budget refl takes))
      (allocates [] [] 40 true true budget handle no_failure refl gets)

Reachable-pending_example :
    (held.budget.pending ≡ total reserved_by held.calls + total capacity_of held.handles)
    × (held.budget.pending ≤ 100)
    × All IsWhole held.handles
Reachable-pending_example = Reachable-pending 100 held (omega arith) (omega arith, tt) reached

-- A second one of 61 bytes finds no room.
refuses : reserve_round budget 61 40 false ≡ (budget, no_room pending_bytes_limit)
unfolding reserve_round
refuses = refl

-- A size near 2 ^ 64 wraps around, finds room, and lowers what is pending.
wraps : reserve_round budget 18446744073709551586 40 false ≡ (record budget { pending = 10 }, taken)
unfolding reserve_round
wraps = refl
