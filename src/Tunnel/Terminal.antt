-- ===== src/Tunnel/Terminal.antt =====
-- src/tunnel/terminal_convergence.h and .cpp: the ledger of a stream's end and the sections of the
-- scheduler that change it, each under the ledger's mutex. Timestamps and metrics are left out.
use tcpquic_proxy.Base.{
  ℕ, ◌-◌, Bool, true, false, not, ◌&&◌, ◌||◌, Option, none, some, ltb, leb, ◌==◌, if◌then◌else◌,
}

-- QUIC_STATUS, as far as the code tells the values apart.
pub data Status : Type 0 where
  success pending invalid_state : Status
  failure : ℕ → Status

-- QUIC_SUCCEEDED
abbrev pub succeeded : Status → Bool
succeeded success = true
succeeded pending = true
succeeded _ = false

pub data TerminalPhase : Type 0 where
  active shutdown_reserved shutdown_submitted terminal_observed closed : TerminalPhase

pub data Watchdog : Type 0 where
  idle armed canceled escalated terminal_timeout : Watchdog

pub data TerminalIntent : Type 0 where
  no_intent graceful_complete abort_both_immediate : TerminalIntent

pub data TerminalEvent : Type 0 where
  no_event start_complete receive_after_handoff send_complete peer_send_aborted peer_receive_aborted
        send_shutdown_complete shutdown_complete cancel_on_loss ideal_send_buffer_size :
      TerminalEvent

-- TqTerminalLedger::State_
pub record Ledger : Type 0 where
  pub phase : TerminalPhase
  pub error_code : ℕ
  pub shutdown_status : Status
  pub shutdown_intent : TerminalIntent
  pub shutdown_attempt : ℕ
  pub last_event : TerminalEvent
  pub in_tunnel_registry : Bool
  pub relay_active : Bool
  pub tcp_valid : Bool
  pub watchdog : Watchdog
  pub connection_escalated : Bool
  pub accounting_completed : Bool

abbrev pub new_ledger : Ledger
new_ledger = record {
  phase = active;
  error_code = 0;
  shutdown_status = success;
  shutdown_intent = no_intent;
  shutdown_attempt = 0;
  last_event = no_event;
  in_tunnel_registry = true;
  relay_active = true;
  tcp_valid = true;
  watchdog = idle;
  connection_escalated = false;
  accounting_completed = false;
}

-- TerminalObserved or Closed
abbrev pub is_over : TerminalPhase → Bool
is_over terminal_observed = true
is_over closed = true
is_over _ = false

abbrev pub is_shutdown_complete : TerminalEvent → Bool
is_shutdown_complete shutdown_complete = true
is_shutdown_complete _ = false

-- RecordEvent
unfoldable pub record_event : Ledger → TerminalEvent → Ledger
record_event l event =
    if is_shutdown_complete event
    then record l {
      last_event = event;
      phase = terminal_observed;
      watchdog = elim l.watchdog [ armed ↦ canceled | escalated ↦ canceled | w ↦ w ];
    }
    else record l { last_event = event }

-- RecordShutdown; a report that is older than the last attempt changes nothing.
unfoldable pub record_shutdown : Ledger → Status → ℕ → Bool → TerminalIntent → Ledger
record_shutdown l status attempt submitted intent =
    if ltb attempt l.shutdown_attempt then l else record l {
      shutdown_status = status;
      shutdown_intent = intent;
      shutdown_attempt = attempt;
      phase = if is_over l.phase then l.phase else if submitted then shutdown_submitted else active;
    }

-- MarkHandoffFacts
unfoldable pub mark_handoff_facts : Ledger → Bool → Bool → Bool → Ledger
mark_handoff_facts l in_registry relay tcp = record l {
  in_tunnel_registry = in_registry;
  relay_active = relay;
  tcp_valid = tcp;
}

-- CompleteAccountingOnce
unfoldable pub complete_accounting_once : Ledger → Ledger × Bool
complete_accounting_once l =
    if l.accounting_completed then (l, false) else (record l { accounting_completed = true }, true)

abbrev pub is_canceled : Watchdog → Bool
is_canceled canceled = true
is_canceled _ = false

abbrev pub is_timeout : Watchdog → Bool
is_timeout terminal_timeout = true
is_timeout _ = false

-- MarkEscalated: the result says whether the connection is to be shut down.
unfoldable pub mark_escalated : Ledger → Ledger × Bool
mark_escalated l =
    if not (is_over l.phase)
      && not (is_canceled l.watchdog)
      && not (is_timeout l.watchdog)
      && not l.connection_escalated
    then (record l { watchdog = escalated; connection_escalated = true }, true)
    else (l, false)

-- MarkTimedOut
unfoldable pub mark_timed_out : Ledger → Ledger × Bool
mark_timed_out l = elim l.watchdog [
  | escalated ↦ (record l { watchdog = terminal_timeout }, true)
  | _ ↦ (l, false)
]

-- ArmAndEnqueue; `queued` is the result of the enqueue under the scheduler's mutex.
unfoldable pub arm_and_enqueue : Ledger → Bool → Ledger × Bool
arm_and_enqueue l queued = elim l.phase [
  | shutdown_submitted ↦ elim l.watchdog [
    | idle ↦ (record l { watchdog = armed }, queued)
    | _ ↦ (l, false)
  ]
  | _ ↦ (l, false)
]

-- Cancel
unfoldable pub cancel : Ledger → Ledger × Bool
cancel l =
    if is_canceled l.watchdog || is_timeout l.watchdog
    then (l, false)
    else (record l { watchdog = canceled }, true)

-- RetryAllowed, which is also the guard of RetryAndEnqueue
unfoldable pub retry_allowed : Ledger → Bool
retry_allowed l = not (is_over l.phase) && not (is_canceled l.watchdog)

-- What ScheduleRetry does after an attempt.
pub data RetryPlan : Type 0 where
  refuse escalate_now : RetryPlan
  retry_after : ℕ → RetryPlan

-- The delays in milliseconds, delays[i].
abbrev pub delay_at : ℕ → Option ℕ
delay_at i =
    if i == 0 then some 10 else if i == 1 then some 50 else if i == 2 then some 250 else none

-- ScheduleRetry with a ledger; `none` is a read behind the end of the array.
unfoldable pub schedule_retry : ℕ → Option RetryPlan
schedule_retry completed =
    if completed == 0
    then some refuse
    else if leb 4 completed
    then some escalate_now
    else elim (delay_at (completed - 1)) [ none ↦ none | some ms ↦ some (retry_after ms) ]
