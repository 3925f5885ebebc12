-- ===== src/Tunnel/Lifetime/Once.antt =====
-- src/tunnel/stream_lifetime.cpp and terminal_convergence.cpp: what happens at most once in the life
-- of a stream.
use tcpquic_proxy.Base.{ℕ, ◌+◌, ◌≤◌, ◌≡◌, Bool, false, none, arith}
use tcpquic_proxy.Tunnel.Terminal.{
  Ledger, record_event, record_shutdown, mark_handoff_facts, complete_accounting_once,
  mark_escalated, mark_timed_out, arm_and_enqueue, cancel,
}
use tcpquic_proxy.Tunnel.Lifetime.{ledger_reserve, ledger_illegal, record_upgrade}
use tcpquic_proxy.Tunnel.Lifetime.System.{
  count_if, System, LedgerStep, on_event, on_shutdown, on_handoff, on_accounting, on_escalation,
  on_timeout, on_arm, on_cancel, on_illegal, on_upgrade, SystemStep, in_control, in_ledger, begins,
  settles, upgrades, settles_upgrade, Reachable, outgoing, incoming, next,
}
use tcpquic_proxy.Tunnel.Lifetime.Counts.{
  is_open, TerminalCounts, UpgradeCounts, TargetCounts, control-TerminalCounts,
  control-UpgradeCounts, control-TargetCounts, begin-TerminalCounts, begin-UpgradeCounts,
  begin-TargetCounts, settle-TerminalCounts, settle-UpgradeCounts, settle-TargetCounts,
  upgrade-TerminalCounts, upgrade-UpgradeCounts, upgrade-TargetCounts,
  settle_upgrade-TerminalCounts, settle_upgrade-UpgradeCounts, settle_upgrade-TargetCounts,
}

-- Each request of the connection's shutdown sets the ledger's flag, which no section clears.
ledger_step :
    (l m : Ledger) (calls : Bool) (n : ℕ)
    → LedgerStep l m calls
    → n ≤ count_if l.connection_escalated
    → n + count_if calls ≤ count_if m.connection_escalated
unfolding record_event record_shutdown mark_handoff_facts complete_accounting_once mark_escalated
    mark_timed_out arm_and_enqueue cancel ledger_illegal record_upgrade
ledger_step l _ _ n (on_event event) h = ground arith
ledger_step l _ _ n (on_shutdown status attempt submitted shutdown) h = ground arith
ledger_step l _ _ n (on_handoff in_registry relay tcp) h = ground arith
ledger_step l _ _ n on_accounting h = ground arith
ledger_step l _ _ n (on_escalation has_escalation) h = ground arith
ledger_step l _ _ n on_timeout h = ground arith
ledger_step l _ _ n (on_arm queued) h = ground arith
ledger_step l _ _ n on_cancel h = ground arith
ledger_step l _ _ n on_illegal h = ground arith
ledger_step l _ _ n (on_upgrade error status attempt submitted escalation) h = ground arith

record Counts (s : System) : Type 0 where
  terminal : TerminalCounts s.control s.terminal_calls s.accepted_terminal
  upgrading : UpgradeCounts s.control s.upgrade_calls s.accepted_upgrade
  route : TargetCounts s.control s.taken
  connection : s.connection_shutdowns ≤ count_if s.ledger.connection_escalated

step-Counts : (s t : System) → SystemStep s t → Counts s → Counts t
unfolding ledger_reserve
step-Counts s _ (in_control c takes step) v = record {
  terminal =
      control-TerminalCounts s.control c takes s.terminal_calls s.accepted_terminal step v.terminal;
  upgrading =
      control-UpgradeCounts s.control c takes s.upgrade_calls s.accepted_upgrade step v.upgrading;
  route = control-TargetCounts s.control c takes s.taken step v.route;
  connection = v.connection;
}
step-Counts s _ (in_ledger l calls step) v = record {
  terminal = v.terminal;
  upgrading = v.upgrading;
  route = v.route;
  connection = ledger_step s.ledger l calls s.connection_shutdowns step v.connection;
}
step-Counts s _ (begins error sink escalation shutdown c e) v = record {
  terminal =
      begin-TerminalCounts s.control c error sink escalation shutdown s.terminal_calls
        s.accepted_terminal e v.terminal;
  upgrading =
      begin-UpgradeCounts s.control c error sink escalation shutdown s.upgrade_calls
        s.accepted_upgrade e v.upgrading;
  route = begin-TargetCounts s.control c error sink escalation shutdown s.taken e v.route;
  connection = v.connection;
}
step-Counts s _ (settles status n e) v = record {
  terminal = settle-TerminalCounts s.control status n s.accepted_terminal (rw (← e) v.terminal);
  upgrading = settle-UpgradeCounts s.control status s.upgrade_calls s.accepted_upgrade v.upgrading;
  route = settle-TargetCounts s.control status s.taken v.route;
  connection = v.connection;
}
step-Counts s _ (upgrades error escalation c in_force e) v = record {
  terminal =
      upgrade-TerminalCounts s.control c error escalation in_force s.terminal_calls
        s.accepted_terminal e v.terminal;
  upgrading =
      upgrade-UpgradeCounts s.control c error escalation in_force s.upgrade_calls s.accepted_upgrade
        e v.upgrading;
  route = upgrade-TargetCounts s.control c error escalation in_force s.taken e v.route;
  connection = v.connection;
}
step-Counts s _ (settles_upgrade status n e) v = record {
  terminal =
      settle_upgrade-TerminalCounts s.control status s.terminal_calls s.accepted_terminal
        v.terminal;
  upgrading =
      settle_upgrade-UpgradeCounts s.control status n s.accepted_upgrade (rw (← e) v.upgrading);
  route = settle_upgrade-TargetCounts s.control status s.taken v.route;
  connection = v.connection;
}

Reachable-Counts : (s : System) → Reachable s → Counts s
Reachable-Counts _ (outgoing target has_ledger) = record {
  terminal = ground arith;
  upgrading = ground arith;
  route = ground arith;
  connection = omega arith;
}
Reachable-Counts _ (incoming target has_ledger) = record {
  terminal = ground arith;
  upgrading = ground arith;
  route = ground arith;
  connection = omega arith;
}
Reachable-Counts _ (next s t r step) = step-Counts s t step (Reachable-Counts s r)

-- What has happened at most once.
pub record HappensOnce (s : System) : Type 0 where
  pub one_terminal : s.terminal_calls + s.accepted_terminal ≤ 1
  pub one_upgrade : s.upgrade_calls + s.accepted_upgrade ≤ 1
  pub one_connection_shutdown : s.connection_shutdowns ≤ 1
  pub one_target : s.taken ≤ 1
  pub target_gone : is_open s.control.phase ≡ false → s.control.target ≡ none

-- In every state that a stream can reach, whatever its threads call and however their critical
-- sections interleave: the terminal shutdowns that are being submitted or were accepted by MsQuic
-- are one at most, so are the upgrades to an abort; the shutdown of the connection was requested
-- once at most, and the stream's end gave out its target once at most; behind a failed start or a
-- published end there is no target.
pub Reachable-HappensOnce : (s : System) → Reachable s → HappensOnce s
Reachable-HappensOnce s r =
    let v = Reachable-Counts s r in
    let c = v.connection in
    record {
      one_terminal = v.terminal.once;
      one_upgrade = v.upgrading.once;
      one_connection_shutdown = ground arith;
      one_target = v.route.once;
      target_gone = v.route.gone;
    }
