-- ===== src/Examples/Lifetime.antt =====
-- src/tunnel/stream_lifetime.cpp: a stream that is started and aborted, and attempts that all fail.
use tcpquic_proxy.Base.{ℕ, ◌≡◌, refl, arith, true, false, some, ◌∷◌, []}
use tcpquic_proxy.Tunnel.Terminal.{Status, success, failure, abort_both_immediate, new_ledger}
use tcpquic_proxy.Tunnel.Lifetime.{
  Control, created_not_started, started, new_control, install_stream, begin_start, reserve_terminal,
  begin_terminal, begun, settle_terminal, ledger_reserve,
}
use tcpquic_proxy.Tunnel.Lifetime.System.{
  System, new_system, Reachable, outgoing, next, in_control, on_install, on_begin_start, begins,
  settles,
}
use tcpquic_proxy.Tunnel.Lifetime.Once.{HappensOnce, Reachable-HappensOnce}
use tcpquic_proxy.Tunnel.Lifetime.Retry.{Stream, Shutdown, retrying, connection_shutdown, attempts}
use tcpquic_proxy.Tunnel.Lifetime.Retry.Ends.{IsReady, attempts-expected}

abbrev system_0 : System
system_0 = new_system (new_control created_not_started (some 3) true)

abbrev system_1 : System
system_1 = record system_0 { control = (install_stream system_0.control true).0; taken = 0 }

abbrev system_2 : System
system_2 = record system_1 { control = (begin_start system_1.control).0; taken = 0 }

abbrev aborted : Control
aborted = reserve_terminal system_2.control 5 (some 4) true abort_both_immediate

abbrev system_3 : System
system_3 = record system_2 {
  control = aborted;
  ledger = ledger_reserve system_2.ledger 5 aborted.attempt;
  terminal_calls = 1;
}

abbrev system_4 : System
system_4 = record system_3 {
  control = (settle_terminal aborted success).0;
  terminal_calls = 0;
  accepted_terminal = 1;
}

aborts : begin_terminal system_2.control 5 (some 4) true abort_both_immediate ≡ begun aborted
unfolding begin_terminal reserve_terminal install_stream begin_start
aborts = refl

abort_run : Reachable system_4
abort_run =
    next system_3 system_4
      (next system_2 system_3
        (next system_1 system_2
          (next system_0 system_1 (outgoing (some 3) true)
            (in_control system_1.control false (on_install true)))
          (in_control system_2.control false on_begin_start))
        (begins 5 (some 4) true abort_both_immediate aborted aborts))
      (settles success 0 refl)

Reachable-HappensOnce_example : HappensOnce system_4
Reachable-HappensOnce_example = Reachable-HappensOnce system_4 abort_run

abbrev running : Stream
running = record {
  control = record (new_control started (some 3) true) { has_stream = true };
  ledger = new_ledger;
}

abbrev abort : Shutdown
abort = record { error = 5; sink = some 4; escalation = true; kind = abort_both_immediate }

abbrev refused : ℕ → Status
refused i = failure 1

running-IsReady : IsReady running abort 0
running-IsReady = record {
  with_stream = refl;
  with_ledger = refl;
  live = refl;
  fresh = refl;
  count = refl;
  unwatched = refl;
  unescalated = refl;
  going = refl;
  with_sink = refl;
  with_escalation = refl;
  abort = refl;
}

attempts-expected_example :
    attempts 4 true refused running abort
    ≡ retrying 10 ∷ retrying 50 ∷ retrying 250 ∷ connection_shutdown ∷ []
attempts-expected_example =
    attempts-expected 4 true refused running abort (omega arith) running-IsReady
