-- ===== src/Tunnel/Lifetime/Retry.antt =====
-- src/tunnel/stream_lifetime.cpp and terminal_convergence.cpp: a terminal shutdown from the first call
-- to the last retry, with no other thread between. `downcall` is the status that MsQuic gives to
-- each attempt, and `accepts` says whether the scheduler takes a task.
pub mod Ends
use tcpquic_proxy.Base.{
  ℕ, zero, suc, ◌<◌, ◌≤◌, ◌+◌, ◌≡◌, refl, Bool, true, false, not, ◌&&◌, ◌||◌, Option, none, some,
  List, [], ◌∷◌, arith, if◌then◌else◌,
}
use tcpquic_proxy.Tunnel.Terminal.{
  Status, succeeded, TerminalIntent, graceful_complete, abort_both_immediate, active, idle, Ledger,
  record_shutdown, mark_escalated, arm_and_enqueue, retry_allowed, schedule_retry, retry_after,
  escalate_now, refuse, is_over,
}
use tcpquic_proxy.Tunnel.Lifetime.{
  Target, Control, is_live, is_some, begun, begun_illegal, begin_terminal, reserve_terminal,
  ledger_reserve, ledger_illegal, settle_terminal,
}

pub record Stream : Type 0 where
  pub control : Control
  pub ledger : Ledger

-- The arguments of BeginTerminalShutdown.
pub record Shutdown : Type 0 where
  pub error : ℕ
  pub sink : Option Target
  pub escalation : Bool
  pub kind : TerminalIntent

pub data Outcome : Type 0 where
  nothing watchdog_armed gave_up connection_shutdown : Outcome
  retrying : ℕ → Outcome

abbrev pub is_graceful : TerminalIntent → Bool
is_graceful graceful_complete = true
is_graceful _ = false

-- Escalate. The task for the timeout that it queues is left out.
unfoldable pub escalate : Stream → Stream × Outcome
escalate s =
    let (l, call) = mark_escalated s.ledger in
    (
      record s { ledger = l },
      if call && s.control.has_escalation then connection_shutdown else gave_up,
    )

-- A failed attempt: ScheduleRetry, and where that is refused ScheduleRetry once more, as for a
-- fourth attempt. Behind an escalation the second one finds the connection escalated.
unfoldable pub after_failure : Bool → Stream → ℕ → Stream × Outcome
after_failure accepts s attempt = elim (schedule_retry attempt) [
  | some (retry_after ms) ↦
      if retry_allowed s.ledger && accepts then (s, retrying ms) else escalate s
  | _ ↦ escalate s
]

-- ArmWatchdog
unfoldable pub after_success : Bool → Stream → Stream × Outcome
after_success accepts s =
    let (l, queued) = arm_and_enqueue s.ledger accepts in
    let t : Stream = record s { ledger = l } in if queued then (t, watchdog_armed) else escalate t

-- BeginTerminalShutdown behind the downcall.
unfoldable pub finish_terminal : Bool → Stream → Status → ℕ → TerminalIntent → Stream × Outcome
finish_terminal accepts s status attempt kind =
    let (c, answer) = settle_terminal s.control status in
    elim answer [
      | none ↦ (record s { control = c }, nothing)
      | some submitted ↦
          let t : Stream = record {
            control = c;
            ledger = record_shutdown s.ledger status attempt submitted kind;
          } in
          if is_graceful kind
          then (t, nothing)
          else if submitted
          then after_success accepts t
          else after_failure accepts t attempt
    ]

-- The path of BeginTerminalShutdown for an illegal state, and the whole.
unfoldable pub illegal_shutdown : Stream → Bool → Stream × Outcome
illegal_shutdown s escalation =
    let (l, call) = ledger_illegal s.ledger in
    if escalation && s.control.has_ledger
    then (record s { ledger = l }, if call then connection_shutdown else nothing)
    else (s, nothing)

unfoldable pub terminal_shutdown : Bool → (ℕ → Status) → Stream → Shutdown → Stream × Outcome
terminal_shutdown accepts downcall s r =
    elim (begin_terminal s.control r.error r.sink r.escalation r.kind) [
      | begun c ↦
          finish_terminal accepts
            (record { control = c; ledger = ledger_reserve s.ledger r.error c.attempt })
            (downcall c.attempt) c.attempt r.kind
      | begun_illegal ↦ illegal_shutdown s r.escalation
      | _ ↦ (s, nothing)
    ]

-- RetryTerminalShutdown reads its arguments from the fields.
unfoldable pub stored : Control → Shutdown
stored c = record {
  error = c.error_code;
  sink = c.sink;
  escalation = c.has_escalation;
  kind = c.intent;
}

-- The outcomes of the attempts, on fuel: a retry goes on only where ExecuteTask allows it.
unfoldable pub attempts : ℕ → Bool → (ℕ → Status) → Stream → Shutdown → List Outcome
attempts zero accepts downcall s r = []
attempts (suc fuel) accepts downcall s r =
    let (t, outcome) = terminal_shutdown accepts downcall s r in
    let later = attempts fuel accepts downcall t (stored t.control) in
    elim outcome [
      | retrying ms ↦ retrying ms ∷ (if retry_allowed t.ledger then later else [])
      | o ↦ o ∷ []
    ]
