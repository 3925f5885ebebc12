-- ===== src/Tunnel/Lifetime/Counts.antt =====
-- src/tunnel/stream_lifetime.cpp: how the sections move the counts of terminal shutdowns, of upgrades
-- and of the targets that are given out.
use tcpquic_proxy.Base.{ℕ, suc, ◌+◌, ◌≤◌, ◌≡◌, Bool, true, false, ◌||◌, Option, none, arith}
use tcpquic_proxy.Tunnel.Terminal.{
  Status, succeeded, TerminalPhase, shutdown_reserved, TerminalIntent,
}
use tcpquic_proxy.Tunnel.Lifetime.{
  Phase, created_not_started, is_live, is_published, is_observed, is_submitted, Target, Control,
  install_stream, begin_start, complete_start, publish_target, publish_start_failure,
  publish_terminal, begun, begin_terminal, reserve_terminal, settle_terminal, upgrade,
  reserve_upgrade, settle_upgrade,
}
use tcpquic_proxy.Tunnel.Lifetime.System.{
  count_if, ControlStep, on_install, on_begin_start, on_complete_start, on_start_failure,
  on_terminal, on_target,
}

abbrev pub is_reserved : TerminalPhase → Bool
is_reserved shutdown_reserved = true
is_reserved _ = false

-- The end has been observed.
abbrev pub ended : Control → Bool
ended c = is_observed c.terminal_phase || is_published c.phase

-- The stream has not ended, and its start has not failed.
abbrev pub is_open : Phase → Bool
is_open created_not_started = true
is_open p = is_live p

-- Until the end is observed, the counts of the terminal shutdown are read off the terminal phase.
pub record TerminalCounts (c : Control) (calls accepted : ℕ) : Type 0 where
  pub flying : ended c ≡ false → calls ≡ count_if (is_reserved c.terminal_phase)
  pub landed : ended c ≡ false → accepted ≡ count_if (is_submitted c.terminal_phase)
  pub once : calls + accepted ≤ 1

pub record UpgradeCounts (c : Control) (calls accepted : ℕ) : Type 0 where
  pub flying : calls ≡ count_if c.upgrade_reserved
  pub landed : ended c ≡ false → accepted ≡ count_if c.upgrade_applied
  pub once : calls + accepted ≤ 1

pub record TargetCounts (c : Control) (taken : ℕ) : Type 0 where
  pub still_there : is_open c.phase ≡ true → taken ≡ 0
  pub gone : is_open c.phase ≡ false → c.target ≡ none
  pub once : taken ≤ 1

pub control-TerminalCounts :
    (c d : Control) (takes : Bool) (calls accepted : ℕ)
    → ControlStep c d takes
    → TerminalCounts c calls accepted
    → TerminalCounts d calls accepted
unfolding install_stream begin_start complete_start publish_target publish_start_failure
    publish_terminal
control-TerminalCounts c _ _ calls accepted (on_install usable) v = ground arith
control-TerminalCounts c _ _ calls accepted on_begin_start v = ground arith
control-TerminalCounts c _ _ calls accepted (on_complete_start status) v = ground arith
control-TerminalCounts c _ _ calls accepted (on_start_failure status) v = ground arith
control-TerminalCounts c _ _ calls accepted on_terminal v = ground arith
control-TerminalCounts c _ _ calls accepted (on_target expected target) v = ground arith

pub control-UpgradeCounts :
    (c d : Control) (takes : Bool) (calls accepted : ℕ)
    → ControlStep c d takes
    → UpgradeCounts c calls accepted
    → UpgradeCounts d calls accepted
unfolding install_stream begin_start complete_start publish_target publish_start_failure
    publish_terminal
control-UpgradeCounts c _ _ calls accepted (on_install usable) v = ground arith
control-UpgradeCounts c _ _ calls accepted on_begin_start v = ground arith
control-UpgradeCounts c _ _ calls accepted (on_complete_start status) v = ground arith
control-UpgradeCounts c _ _ calls accepted (on_start_failure status) v = ground arith
control-UpgradeCounts c _ _ calls accepted on_terminal v = ground arith
control-UpgradeCounts c _ _ calls accepted (on_target expected target) v = ground arith

pub control-TargetCounts :
    (c d : Control) (takes : Bool) (taken : ℕ)
    → ControlStep c d takes
    → TargetCounts c taken
    → TargetCounts d (taken + count_if takes)
unfolding install_stream begin_start complete_start publish_target publish_start_failure
    publish_terminal
control-TargetCounts c _ _ taken (on_install usable) v = ground arith
control-TargetCounts c _ _ taken on_begin_start v = ground arith
control-TargetCounts c _ _ taken (on_complete_start status) v = ground arith
control-TargetCounts c _ _ taken (on_start_failure status) v = ground arith
control-TargetCounts c _ _ taken on_terminal v = ground arith
control-TargetCounts c _ _ taken (on_target expected target) v = ground arith

-- A begun shutdown finds none before it.
pub begin-TerminalCounts :
    (c d : Control) (error : ℕ) (sink : Option Target) (escalation : Bool)
    (shutdown : TerminalIntent) (calls accepted : ℕ)
    → begin_terminal c error sink escalation shutdown ≡ begun d
    → TerminalCounts c calls accepted
    → TerminalCounts d (suc calls) accepted
unfolding begin_terminal reserve_terminal
begin-TerminalCounts c d error sink escalation shutdown calls accepted e v = ground arith

pub begin-UpgradeCounts :
    (c d : Control) (error : ℕ) (sink : Option Target) (escalation : Bool)
    (shutdown : TerminalIntent) (calls accepted : ℕ)
    → begin_terminal c error sink escalation shutdown ≡ begun d
    → UpgradeCounts c calls accepted
    → UpgradeCounts d calls accepted
unfolding begin_terminal reserve_terminal
begin-UpgradeCounts c d error sink escalation shutdown calls accepted e v = ground arith

pub begin-TargetCounts :
    (c d : Control) (error : ℕ) (sink : Option Target) (escalation : Bool)
    (shutdown : TerminalIntent) (taken : ℕ)
    → begin_terminal c error sink escalation shutdown ≡ begun d
    → TargetCounts c taken
    → TargetCounts d taken
unfolding begin_terminal reserve_terminal
begin-TargetCounts c d error sink escalation shutdown taken e v = ground arith

pub settle-TerminalCounts :
    (c : Control) (status : Status) (calls accepted : ℕ)
    → TerminalCounts c (suc calls) accepted
    → TerminalCounts (settle_terminal c status).0 calls (accepted + count_if (succeeded status))
unfolding settle_terminal
settle-TerminalCounts c status calls accepted v = ground arith

pub settle-UpgradeCounts :
    (c : Control) (status : Status) (calls accepted : ℕ)
    → UpgradeCounts c calls accepted
    → UpgradeCounts (settle_terminal c status).0 calls accepted
unfolding settle_terminal
settle-UpgradeCounts c status calls accepted v = ground arith

pub settle-TargetCounts :
    (c : Control) (status : Status) (taken : ℕ)
    → TargetCounts c taken
    → TargetCounts (settle_terminal c status).0 taken
unfolding settle_terminal
settle-TargetCounts c status taken v = ground arith

pub upgrade-TerminalCounts :
    (c d : Control) (error : ℕ) (escalation in_force : Bool) (calls accepted : ℕ)
    → reserve_upgrade c error escalation ≡ upgrade d in_force
    → TerminalCounts c calls accepted
    → TerminalCounts d calls accepted
unfolding reserve_upgrade
upgrade-TerminalCounts c d error escalation in_force calls accepted e v = ground arith

pub upgrade-UpgradeCounts :
    (c d : Control) (error : ℕ) (escalation in_force : Bool) (calls accepted : ℕ)
    → reserve_upgrade c error escalation ≡ upgrade d in_force
    → UpgradeCounts c calls accepted
    → UpgradeCounts d (suc calls) accepted
unfolding reserve_upgrade
upgrade-UpgradeCounts c d error escalation in_force calls accepted e v = ground arith

pub upgrade-TargetCounts :
    (c d : Control) (error : ℕ) (escalation in_force : Bool) (taken : ℕ)
    → reserve_upgrade c error escalation ≡ upgrade d in_force
    → TargetCounts c taken
    → TargetCounts d taken
unfolding reserve_upgrade
upgrade-TargetCounts c d error escalation in_force taken e v = ground arith

pub settle_upgrade-TerminalCounts :
    (c : Control) (status : Status) (calls accepted : ℕ)
    → TerminalCounts c calls accepted
    → TerminalCounts (settle_upgrade c status).0 calls accepted
unfolding settle_upgrade
settle_upgrade-TerminalCounts c status calls accepted v = ground arith

pub settle_upgrade-UpgradeCounts :
    (c : Control) (status : Status) (calls accepted : ℕ)
    → UpgradeCounts c (suc calls) accepted
    → UpgradeCounts (settle_upgrade c status).0 calls (accepted + count_if (succeeded status))
unfolding settle_upgrade
settle_upgrade-UpgradeCounts c status calls accepted v = ground arith

pub settle_upgrade-TargetCounts :
    (c : Control) (status : Status) (taken : ℕ)
    → TargetCounts c taken
    → TargetCounts (settle_upgrade c status).0 taken
unfolding settle_upgrade
settle_upgrade-TargetCounts c status taken v = ground arith
