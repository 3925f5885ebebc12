-- ===== src/Tunnel/Shutdown/Once.antt =====
-- src/tunnel/stream_lifetime.cpp: several threads that request shutdowns of one stream.
use tcpquic_proxy.Base.{
  ℕ, ◌+◌, ◌*◌, ◌≤◌, ◌≡◌, refl, Bool, true, false, not, ap, sym, ◌∙◌, List, [], ◌∷◌, ◌++◌, arith,
  if◌then◌else◌,
}
use tcpquic_proxy.Tunnel.Shutdown.{
  ShutdownIntent, graceful_send, abort_send, abort_receive, abort_both, abort_both_immediate,
  ShutdownState, Request, nothing_to_do, call, desire, take_reservations, reserve, commit,
  on_send_shutdown_complete,
}

-- The stream, the calls of RequestShutdown that are between their two sections, and two counts of the
-- immediate aborts that MsQuic has accepted: from RequestShutdown, and from the terminal shutdown.
pub record System : Type 0 where
  pub state : ShutdownState
  pub in_flight : List Request
  pub immediate_accepted : ℕ
  pub terminal_accepted : ℕ

abbrev pub count_if : Bool → ℕ
count_if b = if b then 1 else 0

-- A start failure or the end of the stream.
abbrev pub end_life : ShutdownState → ShutdownState
end_life s = record s { live = false }

-- Any thread may enter the first section, and any call in flight may end, in any order, with any
-- status. The completion of the send direction and the end of the stream may come at any time, and
-- so may the immediate aborts that BeginTerminalShutdown and UpgradeTerminalShutdownToAbort submit:
-- they neither read nor write the fields of ShutdownState.
pub data SystemStep : System → System → Type 0 where
  enter :
      (s : System) (intent : ShutdownIntent) (t : ShutdownState) (r : Request)
      → reserve s.state intent ≡ call t r
      → SystemStep s (record s { state = t; in_flight = r ∷ s.in_flight })
  idle :
      (s : System) (intent : ShutdownIntent) (t : ShutdownState)
      → reserve s.state intent ≡ nothing_to_do t
      → SystemStep s (record s { state = t })
  leave :
      (s : System) (before after : List Request) (r : Request) (ok : Bool)
      → s.in_flight ≡ before ++ r ∷ after
      → SystemStep s (record s {
        state = commit s.state r ok;
        in_flight = before ++ after;
        immediate_accepted =
            s.immediate_accepted + count_if (if ok then r.immediate_request else false);
      })
  finish :
      (s : System) (is_graceful : Bool)
      → SystemStep s (record s { state = on_send_shutdown_complete s.state is_graceful })
  terminal :
      (s : System) (ok : Bool)
      → SystemStep s (record s { terminal_accepted = s.terminal_accepted + count_if ok })
  die : (s : System) → SystemStep s (record s { state = end_life s.state })

abbrev pub owners : (Request → Bool) → List Request → ℕ
owners p [] = 0
owners p (r ∷ rs) = count_if (p r) + owners p rs

owners-append :
    (p : Request → Bool) (xs ys : List Request) → owners p (xs ++ ys) ≡ owners p xs + owners p ys
owners-append p [] ys = omega arith
owners-append p (x ∷ xs) ys = omega (arith, owners-append p xs ys)

owners_remove :
    (p : Request → Bool) (before after : List Request) (r : Request)
    → owners p (before ++ r ∷ after) ≡ count_if (p r) + owners p (before ++ after)
owners_remove p before after r =
    omega (arith, owners-append p before (r ∷ after), owners-append p before after)

-- A call asks for the immediate abort exactly if it owns that reservation.
abbrev is_mixed : Request → Bool
is_mixed r = if r.owns_immediate then not r.immediate_request else r.immediate_request

-- Each reservation has exactly one owner among the calls in flight, and an immediate abort of
-- RequestShutdown is accepted at most once.
pub record IsExclusive (s : System) : Type 0 where
  pub receive_owner : owners (λ r. r.owns_receive) s.in_flight ≡ count_if s.state.reserved_receive
  pub immediate_owner :
      owners (λ r. r.immediate_request) s.in_flight ≡ count_if s.state.reserved_immediate
  pub unmixed : owners is_mixed s.in_flight ≡ 0
  pub accepted : s.immediate_accepted ≡ count_if s.state.submitted_immediate
  pub not_again : s.immediate_accepted + count_if s.state.reserved_immediate ≤ 1

-- What the first section does to the reservations.
record Entered (s t : ShutdownState) (r : Request) : Type 0 where
  receive_taken :
      count_if t.reserved_receive ≡ count_if r.owns_receive + count_if s.reserved_receive
  immediate_taken :
      count_if t.reserved_immediate ≡ count_if r.immediate_request + count_if s.reserved_immediate
  same_immediate : t.submitted_immediate ≡ s.submitted_immediate
  first :
      count_if s.submitted_immediate + count_if t.reserved_immediate
      ≤ 1 + count_if s.submitted_immediate * count_if s.reserved_immediate
  unmixed_call : is_mixed r ≡ false

reserve-Entered :
    (s : ShutdownState) (intent : ShutdownIntent) (t : ShutdownState) (r : Request)
    → reserve s intent ≡ call t r
    → Entered s t r
unfolding reserve take_reservations desire
reserve-Entered s graceful_send t r e = ground arith
reserve-Entered s abort_send t r e = ground arith
reserve-Entered s abort_receive t r e = ground arith
reserve-Entered s abort_both t r e = ground arith
reserve-Entered s abort_both_immediate t r e = ground arith

enter-IsExclusive :
    (s : System) (intent : ShutdownIntent) (t : ShutdownState) (r : Request)
    → reserve s.state intent ≡ call t r
    → IsExclusive s
    → IsExclusive (record s { state = t; in_flight = r ∷ s.in_flight })
enter-IsExclusive s intent t r e v = let n = reserve-Entered s.state intent t r e in ground arith

-- A call that asks for nothing reserves nothing either.
idle-IsExclusive :
    (s : System) (intent : ShutdownIntent) (t : ShutdownState)
    → reserve s.state intent ≡ nothing_to_do t
    → IsExclusive s
    → IsExclusive (record s { state = t })
unfolding reserve take_reservations desire
idle-IsExclusive s graceful_send t e v = ground arith
idle-IsExclusive s abort_send t e v = ground arith
idle-IsExclusive s abort_receive t e v = ground arith
idle-IsExclusive s abort_both t e v = ground arith
idle-IsExclusive s abort_both_immediate t e v = ground arith

-- A call in flight has its part in each of the counts.
record Parts (s : System) (before after : List Request) (r : Request) : Type 0 where
  receive_part :
      count_if r.owns_receive + owners (λ q. q.owns_receive) (before ++ after)
      ≡ count_if s.state.reserved_receive
  immediate_part :
      count_if r.immediate_request + owners (λ q. q.immediate_request) (before ++ after)
      ≡ count_if s.state.reserved_immediate
  unmixed_part : count_if (is_mixed r) + owners is_mixed (before ++ after) ≡ 0

split-Parts :
    (s : System) (before after : List Request) (r : Request)
    → s.in_flight ≡ before ++ r ∷ after
    → IsExclusive s
    → Parts s before after r
split-Parts s before after r e v =
    let at_receive = ap (owners (λ q. q.owns_receive)) e in
    let at_immediate = ap (owners (λ q. q.immediate_request)) e in
    let at_mixed = ap (owners is_mixed) e in
    let by_receive = owners_remove (λ q. q.owns_receive) before after r in
    let by_immediate = owners_remove (λ q. q.immediate_request) before after r in
    let by_mixed = owners_remove is_mixed before after r in
    let v1 = v.receive_owner in
    let v2 = v.immediate_owner in
    let v3 = v.unmixed in
    record {
      receive_part = sym by_receive ∙ sym at_receive ∙ v1;
      immediate_part = sym by_immediate ∙ sym at_immediate ∙ v2;
      unmixed_part = sym by_mixed ∙ sym at_mixed ∙ v3;
    }

leave-IsExclusive :
    (s : System) (before after : List Request) (r : Request) (ok : Bool)
    → s.in_flight ≡ before ++ r ∷ after
    → IsExclusive s
    → IsExclusive (record s {
      state = commit s.state r ok;
      in_flight = before ++ after;
      immediate_accepted =
          s.immediate_accepted + count_if (if ok then r.immediate_request else false);
    })
unfolding commit
leave-IsExclusive s before after r ok e v = let p = split-Parts s before after r e v in ground arith

finish-IsExclusive :
    (s : System) (is_graceful : Bool)
    → IsExclusive s
    → IsExclusive (record s { state = on_send_shutdown_complete s.state is_graceful })
unfolding on_send_shutdown_complete
finish-IsExclusive s is_graceful v = ground arith

SystemStep-IsExclusive : (s t : System) → SystemStep s t → IsExclusive s → IsExclusive t
SystemStep-IsExclusive s _ (enter _ intent t r e) v = enter-IsExclusive s intent t r e v
SystemStep-IsExclusive s _ (idle _ intent t e) v = idle-IsExclusive s intent t e v
SystemStep-IsExclusive s _ (leave _ before after r ok e) v =
    leave-IsExclusive s before after r ok e v
SystemStep-IsExclusive s _ (finish _ g) v = finish-IsExclusive s g v
SystemStep-IsExclusive s _ (terminal _ ok) v = ground arith
SystemStep-IsExclusive s _ (die _) v = ground arith

-- A stream that has been started, with the shutdown fields as their initialisers leave them. Before
-- the start, RequestShutdown changes nothing.
abbrev pub new_shutdown : ShutdownState
new_shutdown = record {
  live = true;
  desired_send = 0;
  submitted_send = 0;
  reserved_send = 0;
  desired_receive = false;
  submitted_receive = false;
  reserved_receive = false;
  desired_immediate = false;
  submitted_immediate = false;
  reserved_immediate = false;
}

abbrev pub new_system : System
new_system = record {
  state = new_shutdown;
  in_flight = [];
  immediate_accepted = 0;
  terminal_accepted = 0;
}

pub data Reachable : System → Type 0 where
  start : Reachable new_system
  next : (s t : System) → Reachable s → SystemStep s t → Reachable t

-- Whatever shutdowns the threads request by RequestShutdown of a started stream, in whatever order
-- their calls interleave with each other and with the terminal shutdown, and whatever status MsQuic
-- returns: the number of these calls in flight that own the receive abort is 1 if it is reserved and
-- 0 if not, the number of those that ask for the immediate abort is 1 if that is reserved and 0 if
-- not, a call asks for the immediate abort exactly if it owns its reservation, and of the immediate
-- aborts that RequestShutdown submits MsQuic has accepted at most one: one exactly if the stream
-- says that it was submitted. Those that the terminal shutdown submits are not counted among them.
pub Reachable-IsExclusive : (s : System) → Reachable s → IsExclusive s
Reachable-IsExclusive _ start = record {
  receive_owner = refl;
  immediate_owner = refl;
  unmixed = refl;
  accepted = refl;
  not_again = omega arith;
}
Reachable-IsExclusive _ (next s t r step) =
    SystemStep-IsExclusive s t step (Reachable-IsExclusive s r)
