-- ===== src/Tunnel/Lifetime/System.antt =====
-- src/tunnel/stream_lifetime.cpp and terminal_convergence.cpp: one stream, its ledger, and any
-- number of threads that call them. A critical section is one step; between the two sections of a
-- terminal shutdown or of its upgrade other threads may run.
use tcpquic_proxy.Base.{ℕ, suc, ◌+◌, ◌≡◌, Bool, false, ◌&&◌, Option, not, if◌then◌else◌}
use tcpquic_proxy.Tunnel.Terminal.{
  Status, succeeded, TerminalIntent, TerminalEvent, Ledger, new_ledger, record_event,
  record_shutdown, mark_handoff_facts, complete_accounting_once, mark_escalated, mark_timed_out,
  arm_and_enqueue, cancel,
}
use tcpquic_proxy.Tunnel.Lifetime.{
  created_not_started, started, Target, Control, new_control, is_some, install_stream, begin_start,
  complete_start, publish_target, publish_start_failure, publish_terminal, begun, begin_terminal,
  ledger_reserve, ledger_illegal, settle_terminal, upgrade, reserve_upgrade, settle_upgrade,
  record_upgrade,
}

abbrev pub count_if : Bool → ℕ
count_if b = if b then 1 else 0

-- `terminal_calls` and `upgrade_calls` are between their sections; the accepted ones have got
-- a success from MsQuic. `connection_shutdowns` counts the calls of RequestConnectionShutdown, and
-- `taken` the targets that the end of the stream has given out.
pub record System : Type 0 where
  pub control : Control
  pub ledger : Ledger
  pub terminal_calls : ℕ
  pub upgrade_calls : ℕ
  pub accepted_terminal : ℕ
  pub accepted_upgrade : ℕ
  pub connection_shutdowns : ℕ
  pub taken : ℕ

abbrev pub new_system : Control → System
new_system c = record {
  control = c;
  ledger = new_ledger;
  terminal_calls = 0;
  upgrade_calls = 0;
  accepted_terminal = 0;
  accepted_upgrade = 0;
  connection_shutdowns = 0;
  taken = 0;
}

-- The sections on the ledger alone, with any arguments; the Boolean says whether the caller goes on
-- to request the connection's shutdown.
pub data LedgerStep (l : Ledger) : Ledger → Bool → Type 0 where
  on_event : (event : TerminalEvent) → LedgerStep l (record_event l event) false
  on_shutdown :
      (status : Status) (attempt : ℕ) (submitted : Bool) (intent : TerminalIntent)
      → LedgerStep l (record_shutdown l status attempt submitted intent) false
  on_handoff :
      (in_registry relay tcp : Bool)
      → LedgerStep l (mark_handoff_facts l in_registry relay tcp) false
  on_accounting : LedgerStep l (complete_accounting_once l).0 false
  on_escalation :
      (has_escalation : Bool)
      → LedgerStep l (mark_escalated l).0 ((mark_escalated l).1 && has_escalation)
  on_timeout : LedgerStep l (mark_timed_out l).0 false
  on_arm : (queued : Bool) → LedgerStep l (arm_and_enqueue l queued).0 false
  on_cancel : LedgerStep l (cancel l).0 false
  on_illegal : LedgerStep l (ledger_illegal l).0 (ledger_illegal l).1
  on_upgrade :
      (error : ℕ) (status : Status) (attempt : ℕ) (submitted escalation : Bool)
      → LedgerStep l
          (record_upgrade l error status attempt submitted escalation).0
          (record_upgrade l error status attempt submitted escalation).1

-- The sections on the control fields that are not part of a terminal shutdown, and whether they give
-- out the target of a stream that has ended.
pub data ControlStep (c : Control) : Control → Bool → Type 0 where
  on_install : (usable : Bool) → ControlStep c (install_stream c usable).0 false
  on_begin_start : ControlStep c (begin_start c).0 false
  on_complete_start :
      (status : Status)
      → ControlStep c
          (complete_start c status).0
          ((complete_start c status).1 && not (succeeded status))
  on_start_failure :
      (status : Status)
      → ControlStep c
          (publish_start_failure c status).0
          (is_some (publish_start_failure c status).1.owner)
  on_terminal : ControlStep c (publish_terminal c).0 (is_some (publish_terminal c).1.owner)
  on_target :
      (expected : ℕ) (target : Option Target)
      → ControlStep c (publish_target c expected target).0 false

pub data SystemStep (s : System) : System → Type 0 where
  in_control :
      (c : Control) (takes : Bool)
      → ControlStep s.control c takes
      → SystemStep s (record s { control = c; taken = s.taken + count_if takes })
  in_ledger :
      (l : Ledger) (calls : Bool)
      → LedgerStep s.ledger l calls
      → SystemStep s
          (record s { ledger = l; connection_shutdowns = s.connection_shutdowns + count_if calls })
  begins :
      (error : ℕ) (sink : Option Target) (escalation : Bool) (intent : TerminalIntent) (c : Control)
      → begin_terminal s.control error sink escalation intent ≡ begun c
      → SystemStep s (record s {
        control = c;
        ledger = ledger_reserve s.ledger error c.attempt;
        terminal_calls = suc s.terminal_calls;
      })
  settles :
      (status : Status) (n : ℕ)
      → s.terminal_calls ≡ suc n
      → SystemStep s (record s {
        control = (settle_terminal s.control status).0;
        terminal_calls = n;
        accepted_terminal = s.accepted_terminal + count_if (succeeded status);
      })
  upgrades :
      (error : ℕ) (escalation : Bool) (c : Control) (in_force : Bool)
      → reserve_upgrade s.control error escalation ≡ upgrade c in_force
      → SystemStep s (record s { control = c; upgrade_calls = suc s.upgrade_calls })
  settles_upgrade :
      (status : Status) (n : ℕ)
      → s.upgrade_calls ≡ suc n
      → SystemStep s (record s {
        control = (settle_upgrade s.control status).0;
        upgrade_calls = n;
        accepted_upgrade = s.accepted_upgrade + count_if (succeeded status);
      })

-- An outgoing stream starts as CreatedNotStarted, an accepted one as Started.
pub data Reachable : System → Type 0 where
  outgoing :
      (target : Option Target) (has_ledger : Bool)
      → Reachable (new_system (new_control created_not_started target has_ledger))
  incoming :
      (target : Option Target) (has_ledger : Bool)
      → Reachable (new_system (new_control started target has_ledger))
  next : (s t : System) → Reachable s → SystemStep s t → Reachable t
