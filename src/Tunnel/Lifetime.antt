-- ===== src/Tunnel/Lifetime.antt =====
-- src/tunnel/stream_lifetime.cpp: the fields of TqStreamLifetime under ControlMutex_ but those of
-- Shutdown, and the critical sections that change them. A target is a number, and a shared_ptr that
-- may be null an Option. The hooks for unit tests are left out.
pub mod System
pub mod Counts
pub mod Once
pub mod Retry
use tcpquic_proxy.Base.{
  ℕ, ◌+◌, ◌%◌, ◌^◌, Bool, true, false, not, ◌&&◌, ◌||◌, Option, none, some, ◌==◌, if◌then◌else◌,
}
use tcpquic_proxy.Tunnel.Terminal.{
  Status, success, invalid_state, succeeded, TerminalPhase, active, shutdown_reserved,
  shutdown_submitted, terminal_observed, TerminalIntent, no_intent, graceful_complete,
  abort_both_immediate, escalated, Ledger, is_over,
}

pub data Phase : Type 0 where
  created_not_started starting started start_failed terminal_published phase_closed : Phase

abbrev pub Target : Type 0
Target = ℕ

-- `has_ledger` and `has_escalation` say that the pointers are not null.
pub record Control : Type 0 where
  pub phase : Phase
  pub has_stream : Bool
  pub target : Option Target
  pub generation : ℕ
  pub start_failure : Status
  pub has_ledger : Bool
  pub terminal_phase : TerminalPhase
  pub has_escalation : Bool
  pub error_code : ℕ
  pub intent : TerminalIntent
  pub attempt : ℕ
  pub retry_owned : Bool
  pub upgrade_reserved : Bool
  pub upgrade_applied : Bool
  pub sink : Option Target

abbrev pub new_control : Phase → Option Target → Bool → Control
new_control phase target has_ledger = record {
  phase = phase;
  has_stream = false;
  target = target;
  generation = 1;
  start_failure = success;
  has_ledger = has_ledger;
  terminal_phase = active;
  has_escalation = false;
  error_code = 0;
  intent = abort_both_immediate;
  attempt = 0;
  retry_owned = false;
  upgrade_reserved = false;
  upgrade_applied = false;
  sink = none;
}

-- Starting or Started
abbrev pub is_live : Phase → Bool
is_live starting = true
is_live started = true
is_live _ = false

abbrev pub is_published : Phase → Bool
is_published terminal_published = true
is_published _ = false

abbrev pub is_observed : TerminalPhase → Bool
is_observed terminal_observed = true
is_observed _ = false

abbrev pub is_some : Option Target → Bool
is_some none = false
is_some (some _) = true

-- InstallStream; `usable` says that the wrapper is there, valid and cleaned up by hand.
unfoldable pub install_stream : Control → Bool → Control × Bool
install_stream c usable =
    if not usable || c.has_stream
    then (c, false)
    else elim c.phase [ phase_closed ↦ (c, false) | _ ↦ (record c { has_stream = true }, true) ]

-- The first section of BeginStart.
unfoldable pub begin_start : Control → Control × Bool
begin_start c = elim c.phase [
  | created_not_started ↦ (record c { phase = starting }, true)
  | _ ↦ (c, false)
]

-- The snapshot of a route: the target's owner and the generation.
pub record Route : Type 0 where
  pub owner : Option Target
  pub route_generation : ℕ

abbrev pub no_route : Route
no_route = record { owner = none; route_generation = 0 }

-- The section of PublishStartFailureAndTakeTarget.
unfoldable pub publish_start_failure : Control → Status → Control × Route
publish_start_failure c status = elim c.phase [
  | starting ↦ (
    record c { phase = start_failed; start_failure = status; target = none },
    record { owner = c.target; route_generation = c.generation },
  )
  | _ ↦ (c, no_route)
]

-- The section of PublishTerminalAndTakeTarget, without the ledger's event.
unfoldable pub publish_terminal : Control → Control × Route
publish_terminal c =
    if is_live c.phase
    then (
      record c { terminal_phase = terminal_observed; phase = terminal_published; target = none },
      record { owner = c.target; route_generation = c.generation },
    )
    else (c, no_route)

-- CompleteStart
unfoldable pub complete_start : Control → Status → Control × Bool
complete_start c status =
    if succeeded status
    then elim c.phase [
      | starting ↦ (record c { phase = started }, true)
      | started ↦ (c, true)
      | terminal_published ↦ (c, true)
      | _ ↦ (c, false)
    ]
    else let (c', route) = publish_start_failure c status in (c', is_some route.owner)

-- TryAcquireApi and TryAcquireReceiveApi: whether a lease is given.
unfoldable pub try_acquire_api : Control → Bool
try_acquire_api c = c.has_stream && is_live c.phase

-- PublishTarget
unfoldable pub publish_target : Control → ℕ → Option Target → Control × Bool
publish_target c expected target =
    if not (is_some target)
    then (c, false)
    else if not (is_live c.phase) || not (expected == c.generation)
    then (c, false)
    else (record c { target = target; generation = (c.generation + 1) % 2 ^ 64 }, true)

-- The first section of BeginTerminalShutdown.
pub data Begun : Type 0 where
  begun_already_terminal begun_illegal : Begun
  begun_submitted begun_reserved : ℕ → Begun
  begun : Control → Begun

abbrev pub next_attempt : Control → ℕ
next_attempt c = (c.attempt + 1) % 2 ^ 32

-- The state behind the tests.
unfoldable pub reserve_terminal : Control → ℕ → Option Target → Bool → TerminalIntent → Control
reserve_terminal c error new_sink escalation intent = record c {
  target = new_sink;
  sink = new_sink;
  generation = (c.generation + 1) % 2 ^ 64;
  has_escalation = escalation;
  error_code = error;
  intent = intent;
  terminal_phase = shutdown_reserved;
  retry_owned = false;
  attempt = next_attempt c;
}

unfoldable pub begin_terminal : Control → ℕ → Option Target → Bool → TerminalIntent → Begun
begin_terminal c error new_sink escalation intent =
    let fresh : Begun =
      if not c.has_stream || not c.has_ledger || not (is_live c.phase) || not (is_some new_sink)
      then begun_illegal
      else begun (reserve_terminal c error new_sink escalation intent) in
    if is_observed c.terminal_phase || is_published c.phase
    then begun_already_terminal
    else elim c.terminal_phase [
      | shutdown_submitted ↦ begun_submitted c.attempt
      | shutdown_reserved ↦ begun_reserved c.attempt
      | _ ↦ fresh
    ]

-- The ledger in the first section, and on the illegal path with an escalation.
unfoldable pub ledger_reserve : Ledger → ℕ → ℕ → Ledger
ledger_reserve l error attempt = record l {
  phase = shutdown_reserved;
  error_code = error;
  shutdown_attempt = attempt;
}

unfoldable pub ledger_illegal : Ledger → Ledger × Bool
ledger_illegal l =
    if not l.connection_escalated
    then (record l { connection_escalated = true; watchdog = escalated }, true)
    else (l, false)

-- The section behind the downcall: `none` is AlreadyTerminal, else whether it was submitted.
unfoldable pub settle_terminal : Control → Status → Control × Option Bool
settle_terminal c status =
    if is_observed c.terminal_phase || is_published c.phase
    then (c, none)
    else if succeeded status
    then (record c { terminal_phase = shutdown_submitted }, some true)
    else elim c.terminal_phase [
      | shutdown_reserved ↦ (record c { terminal_phase = active; retry_owned = true }, some false)
      | _ ↦ (c, some false)
    ]

-- The first section of UpgradeTerminalShutdownToAbort.
pub data Upgrade : Type 0 where
  upgrade_already_terminal upgrade_submitted upgrade_pending upgrade_invalid : Upgrade
  upgrade : Control → Bool → Upgrade

abbrev pub has_intent : TerminalIntent → Bool
has_intent no_intent = false
has_intent _ = true

abbrev pub is_submitted : TerminalPhase → Bool
is_submitted shutdown_submitted = true
is_submitted _ = false

-- `escalation` says that one was given; the Boolean of the result, that one is in force.
unfoldable pub reserve_upgrade : Control → ℕ → Bool → Upgrade
reserve_upgrade c error escalation =
    if is_observed c.terminal_phase || is_published c.phase
    then upgrade_already_terminal
    else if c.upgrade_applied
    then upgrade_submitted
    else if c.upgrade_reserved
    then upgrade_pending
    else if not (is_submitted c.terminal_phase)
        || not (has_intent c.intent)
        || not c.has_stream
        || not c.has_ledger
    then upgrade_invalid
    else upgrade
        (record c {
          upgrade_reserved = true;
          intent = abort_both_immediate;
          error_code = error;
          has_escalation = escalation || c.has_escalation;
          attempt = next_attempt c;
        })
        (escalation || c.has_escalation)

-- The second section; the Boolean is result.Submitted.
unfoldable pub settle_upgrade : Control → Status → Control × Bool
settle_upgrade c status =
    if is_observed c.terminal_phase || is_published c.phase
    then (record c { upgrade_reserved = false }, false)
    else if succeeded status
    then (record c { upgrade_reserved = false; upgrade_applied = true }, true)
    else (record c { upgrade_reserved = false }, false)

-- The section on the ledger; the Boolean asks for the connection's shutdown.
unfoldable pub record_upgrade : Ledger → ℕ → Status → ℕ → Bool → Bool → Ledger × Bool
record_upgrade l error status attempt submitted escalation =
    let told = record l {
      error_code = error;
      shutdown_status = status;
      shutdown_intent = abort_both_immediate;
      shutdown_attempt = attempt;
    } in
    if not submitted || is_over l.phase
    then (told, false)
    else if escalation && not l.connection_escalated
    then (
      record told { phase = shutdown_submitted; connection_escalated = true; watchdog = escalated },
      true,
    )
    else (record told { phase = shutdown_submitted }, false)
