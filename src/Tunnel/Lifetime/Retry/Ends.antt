-- ===== src/Tunnel/Lifetime/Retry/Ends.antt =====
-- src/tunnel/stream_lifetime.cpp: the retries of a terminal shutdown, and their end.
use tcpquic_proxy.Base.{
  ℕ, zero, suc, ◌<◌, ◌≤◌, ◌+◌, ◌≡◌, refl, Bool, true, false, some, List, [], ◌∷◌, arith, length,
  Bool-cases, ◌⊎◌, inl, inr, if◌then◌else◌,
}
use tcpquic_proxy.Tunnel.Terminal.{
  Status, succeeded, abort_both_immediate, active, idle, record_shutdown, mark_escalated,
  arm_and_enqueue, retry_allowed, schedule_retry, retry_after, is_over,
}
use tcpquic_proxy.Tunnel.Lifetime.{
  is_live, is_some, begin_terminal, reserve_terminal, ledger_reserve, settle_terminal,
}
use tcpquic_proxy.Tunnel.Lifetime.Retry.{
  Stream, Shutdown, Outcome, watchdog_armed, connection_shutdown, retrying, escalate, after_failure,
  after_success, finish_terminal, terminal_shutdown, stored, attempts,
}

-- A stream on which an abort may begin.
pub record IsReady (s : Stream) (r : Shutdown) (done : ℕ) : Type 0 where
  pub with_stream : s.control.has_stream ≡ true
  pub with_ledger : s.control.has_ledger ≡ true
  pub live : is_live s.control.phase ≡ true
  pub fresh : s.control.terminal_phase ≡ active
  pub count : s.control.attempt ≡ done
  pub unwatched : s.ledger.watchdog ≡ idle
  pub unescalated : s.ledger.connection_escalated ≡ false
  pub going : is_over s.ledger.phase ≡ false
  pub with_sink : is_some r.sink ≡ true
  pub with_escalation : r.escalation ≡ true
  pub abort : r.kind ≡ abort_both_immediate

-- What the attempts are to come to, in words of the delays alone.
abbrev pub last_word : Bool → Outcome
last_word accepts = if accepts then watchdog_armed else connection_shutdown

abbrev pub expected_from : Bool → (ℕ → Status) → ℕ → List ℕ → List Outcome
expected_from accepts downcall i [] =
    (if succeeded (downcall i) then last_word accepts else connection_shutdown) ∷ []
expected_from accepts downcall i (ms ∷ delays) =
    if succeeded (downcall i)
    then last_word accepts ∷ []
    else if accepts
    then retrying ms ∷ expected_from accepts downcall (suc i) delays
    else connection_shutdown ∷ []

-- The state behind the first section.
abbrev reserved : Stream → Shutdown → Stream
reserved s r = record {
  control = reserve_terminal s.control r.error r.sink r.escalation r.kind;
  ledger = ledger_reserve s.ledger r.error (s.control.attempt + 1);
}

begins-ready :
    (accepts : Bool) (downcall : ℕ → Status) (s : Stream) (r : Shutdown) (n : ℕ)
    → n < 5
    → IsReady s r n
    → terminal_shutdown accepts downcall s r
      ≡ finish_terminal accepts (reserved s r) (downcall (suc n)) (suc n) abort_both_immediate
unfolding terminal_shutdown begin_terminal reserve_terminal
begins-ready accepts downcall s r n small v = ground arith

finish-success :
    (accepts : Bool) (s : Stream) (r : Shutdown) (status : Status) (n : ℕ)
    → n < 5
    → IsReady s r n
    → succeeded status ≡ true
    → (finish_terminal accepts (reserved s r) status (suc n) abort_both_immediate).1
      ≡ last_word accepts
unfolding finish_terminal reserve_terminal ledger_reserve settle_terminal record_shutdown
    after_success arm_and_enqueue escalate mark_escalated
finish-success accepts s r status n small v ok = ground arith

-- The state behind a failed attempt.
abbrev failed : Stream → Shutdown → Status → Stream
failed s r status = record {
  control = (settle_terminal (reserved s r).control status).0;
  ledger =
      record_shutdown (reserved s r).ledger status (s.control.attempt + 1) false
        abort_both_immediate;
}

failed-IsReady :
    (s : Stream) (r : Shutdown) (status : Status) (n : ℕ)
    → n < 5
    → IsReady s r n
    → succeeded status ≡ false
    → IsReady (failed s r status) (stored (failed s r status).control) (suc n)
unfolding settle_terminal reserve_terminal ledger_reserve record_shutdown stored
failed-IsReady s r status n small v bad = record {
  with_stream = ground arith;
  with_ledger = ground arith;
  live = ground arith;
  fresh = ground arith;
  count = ground arith;
  unwatched = ground arith;
  unescalated = ground arith;
  going = ground arith;
  with_sink = ground arith;
  with_escalation = ground arith;
  abort = ground arith;
}

finish-failure :
    (accepts : Bool) (s : Stream) (r : Shutdown) (status : Status) (n : ℕ)
    → n < 5
    → IsReady s r n
    → succeeded status ≡ false
    → finish_terminal accepts (reserved s r) status (suc n) abort_both_immediate
      ≡ after_failure accepts (failed s r status) (suc n)
unfolding finish_terminal reserve_terminal ledger_reserve settle_terminal record_shutdown
finish-failure accepts s r status n small v bad = ground arith

-- What follows a failure: a retry at the first three attempts if the scheduler takes it.
retry-IsReady :
    (s : Stream) (r : Shutdown) (n ms : ℕ)
    → IsReady s r n
    → schedule_retry n ≡ some (retry_after ms)
    → (after_failure true s n ≡ (s, retrying ms)) × (retry_allowed s.ledger ≡ true)
unfolding after_failure retry_allowed
retry-IsReady s r n ms v e = (ground arith, ground arith)

escalates :
    (s : Stream)
    → s.ledger.watchdog ≡ idle
    → s.ledger.connection_escalated ≡ false
    → is_over s.ledger.phase ≡ false
    → s.control.has_escalation ≡ true
    → (escalate s).1 ≡ connection_shutdown
unfolding escalate mark_escalated
escalates s w e o h = ground arith

-- One round of the loop, by what the downcall answers.
attempt-success :
    (fuel : ℕ) (accepts : Bool) (downcall : ℕ → Status) (s : Stream) (r : Shutdown) (n : ℕ)
    → n < 5
    → IsReady s r n
    → succeeded (downcall (suc n)) ≡ true
    → attempts (suc fuel) accepts downcall s r ≡ last_word accepts ∷ []
unfolding attempts
attempt-success fuel accepts downcall s r n small v ok = ground (
  arith,
  begins-ready accepts downcall s r n small v,
  finish-success accepts s r (downcall (suc n)) n small v ok,
)

attempt-end :
    (fuel : ℕ) (accepts : Bool) (downcall : ℕ → Status) (s : Stream) (r : Shutdown) (n : ℕ)
    → n < 5
    → IsReady s r n
    → succeeded (downcall (suc n)) ≡ false
    → (n ≡ 3) ⊎ ((accepts ≡ false) × (n < 3))
    → attempts (suc fuel) accepts downcall s r ≡ connection_shutdown ∷ []
unfolding attempts after_failure schedule_retry
attempt-end fuel accepts downcall s r n small v bad last =
    let status = downcall (suc n) in
    let t = failed s r status in
    let w = failed-IsReady s r status n small v bad in
    ground (
      arith,
      begins-ready accepts downcall s r n small v,
      finish-failure accepts s r status n small v bad,
      escalates t w.unwatched w.unescalated w.going (unfold stored in w.with_escalation),
    )

attempt-retry :
    (fuel : ℕ) (downcall : ℕ → Status) (s : Stream) (r : Shutdown) (n ms : ℕ)
    → n < 5
    → IsReady s r n
    → succeeded (downcall (suc n)) ≡ false
    → schedule_retry (suc n) ≡ some (retry_after ms)
    → let t = failed s r (downcall (suc n)) in
      attempts (suc fuel) true downcall s r
      ≡ retrying ms ∷ attempts fuel true downcall t (stored t.control)
unfolding attempts
attempt-retry fuel downcall s r n ms small v bad e =
    let status = downcall (suc n) in
    let t = failed s r status in
    let w = failed-IsReady s r status n small v bad in
    let (a, b) = retry-IsReady t (stored t.control) (suc n) ms w e in
    ground (
      arith,
      begins-ready true downcall s r n small v,
      finish-failure true s r status n small v bad,
      a,
      b,
    )

-- `delays` are those of ScheduleRetry behind attempt n.
Follow : ℕ → List ℕ → Type 0
Follow n [] = n ≡ 3
Follow n (ms ∷ delays) =
    (schedule_retry (suc n) ≡ some (retry_after ms)) × (n < 3) × Follow (suc n) delays

attempts_from :
    (fuel : ℕ) (accepts : Bool) (downcall : ℕ → Status) (s : Stream) (r : Shutdown) (n : ℕ)
    (delays : List ℕ)
    → Follow n delays
    → n < 5
    → length delays < fuel
    → IsReady s r n
    → attempts fuel accepts downcall s r ≡ expected_from accepts downcall (suc n) delays
unfolding Follow
attempts_from zero accepts downcall s r n delays w small enough v = absurd (omega arith)
attempts_from (suc fuel) accepts downcall s r n [] w small enough v =
    elim (Bool-cases (succeeded (downcall (suc n)))) [
      | inl ok ↦ rw ok (attempt-success fuel accepts downcall s r n small v ok)
      | inr bad ↦ rw bad (attempt-end fuel accepts downcall s r n small v bad (inl w))
    ]
attempts_from (suc fuel) accepts downcall s r n (ms ∷ delays) (e, below, w) small enough v =
    elim (Bool-cases (succeeded (downcall (suc n)))) [
      | inl ok ↦ rw ok (attempt-success fuel accepts downcall s r n small v ok)
      | inr bad ↦ elim (Bool-cases accepts) [
        | inr refused ↦
            rw (bad, refused)
              (rw (← refused)
                (attempt-end fuel accepts downcall s r n small v bad (inr (refused, below))))
        | inl taken ↦
            let status = downcall (suc n) in
            let t = failed s r status in
            let u = failed-IsReady s r status n small v bad in
            let later =
              attempts_from fuel accepts downcall t (stored t.control) (suc n) delays w
                (omega arith) (omega arith) u in
            ground (arith, attempt-retry fuel downcall s r n ms small v bad e, later)
      ]
    ]

-- A first abort of a stream that has a target for its end and an escalation, alone with the
-- scheduler: whatever MsQuic answers to the attempts, with fuel for four they come to an end. A
-- failed attempt is retried after 10, 50 and 250 ms if the scheduler takes the tasks, the first
-- attempt that is accepted arms the watchdog, and where a fourth one fails or the scheduler takes no
-- task the shutdown of the connection is requested.
pub attempts-expected :
    (fuel : ℕ) (accepts : Bool) (downcall : ℕ → Status) (s : Stream) (r : Shutdown)
    → 4 ≤ fuel
    → IsReady s r 0
    → attempts fuel accepts downcall s r ≡ expected_from accepts downcall 1 (10 ∷ 50 ∷ 250 ∷ [])
unfolding Follow schedule_retry
attempts-expected fuel accepts downcall s r enough v =
    attempts_from fuel accepts downcall s r 0 (10 ∷ 50 ∷ 250 ∷ [])
      (refl, omega arith, (refl, omega arith, (refl, omega arith, refl))) (omega arith)
      (omega arith) v
