-- ===== src/Tunnel/Shutdown.antt =====
-- src/tunnel/stream_lifetime.cpp: RequestShutdown. The call holds ControlMutex_ twice, with the
-- downcall into MsQuic between: `reserve` and `commit` are the two critical sections, and other
-- threads may run between them.
pub mod Once
use tcpquic_proxy.Base.{
  ℕ, Bool, true, false, not, ◌&&◌, ◌||◌, Option, none, some, ltb, ◌==◌, if◌then◌else◌,
}

pub data ShutdownIntent : Type 0 where
  graceful_send abort_send abort_receive abort_both abort_both_immediate : ShutdownIntent

-- The fields of TqStreamLifetime that RequestShutdown reads and writes. `live` says that Stream_ is
-- installed and Phase_ is Starting or Started. A send shutdown is 0 (open), 1 (graceful) or 2
-- (abort).
pub record ShutdownState : Type 0 where
  pub live : Bool
  pub desired_send : ℕ
  pub submitted_send : ℕ
  pub reserved_send : ℕ
  pub desired_receive : Bool
  pub submitted_receive : Bool
  pub reserved_receive : Bool
  pub desired_immediate : Bool
  pub submitted_immediate : Bool
  pub reserved_immediate : Bool

-- The local variables that survive from the first section to the second.
pub record Request : Type 0 where
  pub send_request : ℕ
  pub receive_request : Bool
  pub immediate_request : Bool
  pub owns_send : Bool
  pub owns_receive : Bool
  pub owns_immediate : Bool

-- QUIC_STREAM_SHUTDOWN_FLAGS, by the flags that the code combines.
pub record Flags : Type 0 where
  pub graceful : Bool
  pub abort_send : Bool
  pub abort_receive : Bool
  pub immediate : Bool

abbrev pub is_immediate : ShutdownIntent → Bool
is_immediate abort_both_immediate = true
is_immediate _ = false

-- The switch over the intent.
unfoldable pub desire : ShutdownState → ShutdownIntent → ShutdownState
desire s graceful_send = record s {
  desired_send = if ltb s.desired_send 1 then 1 else s.desired_send;
}
desire s abort_send = record s { desired_send = 2 }
desire s abort_receive = record s { desired_receive = true }
desire s abort_both_immediate = record s {
  desired_send = 2;
  desired_receive = true;
  desired_immediate = true;
}
desire s abort_both = record s { desired_send = 2; desired_receive = true }

abbrev pub takes_send : ShutdownState → Bool
takes_send s = ltb s.submitted_send s.desired_send && ltb s.reserved_send s.desired_send

abbrev pub takes_receive : ShutdownState → Bool
takes_receive s = s.desired_receive && not s.submitted_receive && not s.reserved_receive

abbrev pub takes_immediate : ShutdownState → ShutdownIntent → Bool
takes_immediate s intent =
    is_immediate intent
    && s.desired_immediate
    && not s.submitted_immediate
    && not s.reserved_immediate

-- The tests behind the switch, on the state with the new desires.
unfoldable pub take_reservations : ShutdownState → ShutdownIntent → ShutdownState × Request
take_reservations s intent =
    let imm = takes_immediate s intent in
    (
      record s {
        reserved_send = if takes_send s then s.desired_send else s.reserved_send;
        reserved_receive = s.reserved_receive || takes_receive s;
        reserved_immediate = s.reserved_immediate || imm;
      },
      record {
        send_request = if imm then 2 else if takes_send s then s.desired_send else 0;
        receive_request = imm || takes_receive s;
        immediate_request = imm;
        owns_send = takes_send s;
        owns_receive = takes_receive s;
        owns_immediate = imm;
      },
    )

pub data Reserved : Type 0 where
  invalid_state : Reserved
  nothing_to_do : ShutdownState → Reserved
  call : ShutdownState → Request → Reserved

-- The first critical section.
unfoldable pub reserve : ShutdownState → ShutdownIntent → Reserved
reserve s intent =
    let (t, r) = take_reservations (desire s intent) intent in
    if not s.live
    then invalid_state
    else if r.send_request == 0 && not r.receive_request
    then nothing_to_do t
    else call t r

unfoldable pub flags_of : Request → Flags
flags_of r = record {
  graceful = r.send_request == 1;
  abort_send = r.send_request == 2;
  abort_receive = r.receive_request;
  immediate = r.immediate_request;
}

-- The second critical section; `ok` is QUIC_SUCCEEDED(status).
unfoldable pub commit : ShutdownState → Request → Bool → ShutdownState
commit s r ok = record s {
  reserved_send = if r.owns_send && s.reserved_send == r.send_request then 0 else s.reserved_send;
  submitted_send =
      if ok && not (r.send_request == 0) && ltb s.submitted_send r.send_request
      then r.send_request
      else s.submitted_send;
  reserved_receive = s.reserved_receive && not r.owns_receive;
  submitted_receive = s.submitted_receive || (ok && r.receive_request);
  reserved_immediate = s.reserved_immediate && not r.owns_immediate;
  submitted_immediate = s.submitted_immediate || (ok && r.immediate_request);
}

-- A call that no other thread interrupts: `downcall` is stream->Shutdown.
unfoldable pub request_shutdown :
    (Flags → Bool) → ShutdownState → ShutdownIntent → ShutdownState × Bool
request_shutdown downcall s intent = elim (reserve s intent) [
  | invalid_state ↦ (s, false)
  | nothing_to_do t ↦ (t, true)
  | call t r ↦ (commit t r (downcall (flags_of r)), downcall (flags_of r))
]

-- Dispatch on QUIC_STREAM_EVENT_SEND_SHUTDOWN_COMPLETE.
unfoldable pub on_send_shutdown_complete : ShutdownState → Bool → ShutdownState
on_send_shutdown_complete s is_graceful = record s {
  submitted_send =
      if is_graceful
      then (if ltb s.submitted_send 1 then 1 else s.submitted_send)
      else if ltb s.submitted_send 2
      then 2
      else s.submitted_send;
}
