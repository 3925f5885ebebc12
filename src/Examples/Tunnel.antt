-- ===== src/Examples/Tunnel.antt =====
-- src/tunnel/stream_lifetime.cpp: a graceful shutdown, overtaken by an immediate abort.
use tcpquic_proxy.Base.{◌≡◌, refl, true, false, [], ◌∷◌}
use tcpquic_proxy.Tunnel.Shutdown.{
  graceful_send, abort_both_immediate, ShutdownState, Request, call, desire, take_reservations,
  reserve,
}
use tcpquic_proxy.Tunnel.Shutdown.Once.{
  System, enter, new_shutdown, new_system, Reachable, start, next, IsExclusive,
  Reachable-IsExclusive,
}

abbrev first_call : Request
first_call = record {
  send_request = 1;
  receive_request = false;
  immediate_request = false;
  owns_send = true;
  owns_receive = false;
  owns_immediate = false;
}

abbrev second_call : Request
second_call = record {
  send_request = 2;
  receive_request = true;
  immediate_request = true;
  owns_send = true;
  owns_receive = true;
  owns_immediate = true;
}

abbrev state_1 : ShutdownState
state_1 = record new_shutdown { desired_send = 1; reserved_send = 1 }

abbrev state_2 : ShutdownState
state_2 = record new_shutdown {
  desired_send = 2;
  reserved_send = 2;
  desired_receive = true;
  reserved_receive = true;
  desired_immediate = true;
  reserved_immediate = true;
}

first_run : reserve new_shutdown graceful_send ≡ call state_1 first_call
unfolding reserve take_reservations desire
first_run = refl

second_run : reserve state_1 abort_both_immediate ≡ call state_2 second_call
unfolding reserve take_reservations desire
second_run = refl

abbrev system_1 : System
system_1 = record {
  state = state_1;
  in_flight = first_call ∷ [];
  immediate_accepted = 0;
  terminal_accepted = 0;
}

abbrev system_2 : System
system_2 = record {
  state = state_2;
  in_flight = second_call ∷ first_call ∷ [];
  immediate_accepted = 0;
  terminal_accepted = 0;
}

both_in_flight : Reachable system_2
both_in_flight =
    next system_1 system_2
      (next new_system system_1 start (enter new_system graceful_send state_1 first_call first_run))
      (enter system_1 abort_both_immediate state_2 second_call second_run)

Reachable-IsExclusive_example : IsExclusive system_2
Reachable-IsExclusive_example = Reachable-IsExclusive system_2 both_in_flight
