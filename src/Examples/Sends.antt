-- ===== src/Examples/Sends.antt =====
-- src/tunnel/stream_lifetime.cpp: a send completion that is registered, claimed and cleaned up.
use tcpquic_proxy.Base.{◌≡◌, refl, true, none, some, update}
use tcpquic_proxy.Tunnel.Lifetime.{Control, Route, started, new_control}
use tcpquic_proxy.Tunnel.Sends.{
  Retention, Registry, register_route, register_insert, claim_send, claim_of, duplicate_claim,
}
use tcpquic_proxy.Tunnel.Sends.System.{
  System, new_system, Reachable, start, next, allocates, inserts, claims, cleans,
}
use tcpquic_proxy.Tunnel.Sends.Once.{KeyAt, Reachable-KeyAt, Reachable-duplicate}

abbrev running : Control
running = record (new_control started (some 3) true) { has_stream = true }

abbrev route : Route
route = record { owner = some 3; route_generation = 1 }

abbrev entry : Retention
entry = record { owner = 5; route = route; context = 8 }

abbrev system_1 : System
system_1 = record new_system {
  envelopes = update new_system.envelopes 9 (some 5);
  starting = update new_system.starting 9 (some entry);
}

abbrev registry_2 : Registry
registry_2 = record system_1.registry { sends = update system_1.registry.sends 9 (some entry) }

abbrev system_2 : System
system_2 = record system_1 {
  registry = registry_2;
  starting = update system_1.starting 9 none;
  issued = update system_1.issued 9 (some entry);
  inserted = update system_1.inserted 9 1;
}

abbrev registry_3 : Registry
registry_3 = record {
  sends = update registry_2.sends 9 none;
  claimed = update registry_2.claimed 9 (some 5);
}

abbrev system_3 : System
system_3 = record system_2 {
  registry = registry_3;
  in_hand = update system_2.in_hand 9 (some entry);
}

abbrev system_4 : System
system_4 = record system_3 {
  in_hand = update system_3.in_hand 9 none;
  cleaned = update system_3.cleaned 9 1;
}

routes : register_route running ≡ some route
unfolding register_route
routes = refl

enters : register_insert system_1.registry 9 entry ≡ (registry_2, some 9)
unfolding register_insert
enters = refl

completes : claim_send registry_2 5 9 ≡ (registry_3, claim_of entry)
unfolding claim_send
completes = refl

run : Reachable system_4
run =
    next system_3 system_4
      (next system_2 system_3
        (next system_1 system_2
          (next new_system system_1 start (allocates running 5 9 8 route routes refl))
          (inserts 9 entry registry_2 refl enters))
        (claims 5 9 entry registry_3 completes))
      (cleans 9 entry refl)

Reachable-KeyAt_example : KeyAt system_4 9
Reachable-KeyAt_example = Reachable-KeyAt system_4 run 9

Reachable-duplicate_example : claim_send registry_3 5 9 ≡ (registry_3, duplicate_claim)
Reachable-duplicate_example = Reachable-duplicate system_4 5 9 run refl
