-- ===== src/Examples/Registry.antt =====
-- src/tunnel/tunnel_registry.cpp: a tunnel that an abort has taken is unregistered from its callback.
use tcpquic_proxy.Base.{◌≡◌, refl, true, false, some, [], ◌∷◌, arith, All}
use tcpquic_proxy.Base.Select.{has}
use tcpquic_proxy.Tunnel.Registry.{
  Tunnel, Registry, new_registry, new_tunnel, is_at, register, register_scan, unregister,
  begin_abort_all, tunnel_id_text, parse_tunnel_id,
}
use tcpquic_proxy.Tunnel.Registry.System.{
  Call, System, new_system, Reachable, start, next, registers, begins_all,
}
use tcpquic_proxy.Tunnel.Registry.Ids.{parse-tunnel_id_text}
use tcpquic_proxy.Tunnel.Registry.Safe.{IsHarmless, Reachable-unregister}

abbrev tunnel : Tunnel
tunnel = new_tunnel 7 1 9 5 6

abbrev taken : Tunnel
taken = record tunnel { aborting = true; abort_in_progress = true; abort_thread = 2 }

abbrev registry_1 : Registry
registry_1 = record { tunnels = tunnel ∷ []; next_id = 2 }

abbrev registry_2 : Registry
registry_2 = record registry_1 { tunnels = taken ∷ [] }

abbrev call : Call
call = record { connection = 7; id = 1; context = 9; thread = 2; dismissed = false }

abbrev system_2 : System
system_2 = record { registry = registry_2; running = call ∷ [] }

enters : register new_registry 7 9 5 6 1 ≡ (registry_1, false)
unfolding register register_scan
enters = refl

takes : begin_abort_all registry_1 7 2 ≡ (registry_2, taken ∷ [])
unfolding begin_abort_all
takes = refl

before : Reachable system_2
unfolding register register_scan
before =
    next _ system_2
      (next _ (record new_system { registry = registry_1 }) start (registers 7 9 5 6 1))
      (begins_all 7 2 registry_2 (taken ∷ []) takes)

returns : (unregister registry_2 7 9 2).1 ≡ false
unfolding unregister
returns = refl

Reachable-unregister_example :
    (has (is_at 7 9) (unregister registry_2 7 9 2).0.tunnels ≡ false)
    × All (IsHarmless 7 9 2) (call ∷ [])
Reachable-unregister_example =
    Reachable-unregister system_2 7 9 2 before (omega arith) (omega arith) returns

-- Another thread waits until the call has ended.
waits : (unregister registry_2 7 9 3).1 ≡ true
unfolding unregister
waits = refl

parse-tunnel_id_text_example :
    parse_tunnel_id (tunnel_id_text 18446744073709551615) ≡ some 18446744073709551615
parse-tunnel_id_text_example = parse-tunnel_id_text 18446744073709551615 (omega arith)
