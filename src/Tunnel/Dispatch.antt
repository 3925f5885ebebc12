-- ===== src/Tunnel/Dispatch.antt =====
-- src/tunnel/stream_lifetime.cpp: Dispatch for the events other than SEND_COMPLETE, with the calls that
-- change the target between two events. The calls of RequestShutdown are the business of Shutdown.
pub mod Last
use tcpquic_proxy.Base.{ℕ, Bool, true, false, Option, none, some, List, ◌∷◌, [], if◌then◌else◌}
use tcpquic_proxy.Tunnel.Terminal.{Status, succeeded, TerminalIntent}
use tcpquic_proxy.Tunnel.Lifetime.{
  Control, Target, Route, begin_start, complete_start, publish_start_failure, publish_terminal,
  publish_target, Begun, begun, begin_terminal, settle_terminal,
}

-- QUIC_STREAM_EVENT, as far as Dispatch tells the types apart.
pub data StreamEvent : Type 0 where
  start_complete : Status → StreamEvent
  stream_shutdown_complete : StreamEvent
  stream_send_shutdown_complete : (graceful : Bool) → StreamEvent
  stream_cancel_on_loss : StreamEvent
  other_event : StreamEvent

abbrev pub current_route : Control → Route
current_route c = record { owner = c.target; route_generation = c.generation }

-- The state behind the event, and the route that it takes.
unfoldable pub dispatch : Control → StreamEvent → Control × Route
dispatch c stream_shutdown_complete = publish_terminal c
dispatch c (start_complete status) =
    let done = (complete_start c status).0 in
    let (failed, route) = publish_start_failure c status in
    if succeeded status
    then (done, current_route done)
    else elim route.owner [ none ↦ (failed, current_route failed) | some target ↦ (failed, route) ]
dispatch c (stream_send_shutdown_complete graceful) = (c, current_route c)
dispatch c stream_cancel_on_loss = (c, current_route c)
dispatch c other_event = (c, current_route c)

-- What happens to a stream, in its order.
pub data Action : Type 0 where
  on_event : StreamEvent → Action
  on_begin_start : Action
  on_complete_start : Status → Action
  on_publish : (expected : ℕ) (target : Option Target) → Action
  on_terminal :
      (error : ℕ) (sink : Option Target) (escalation : Bool) (kind : TerminalIntent) → Action
  on_settle : Status → Action

-- The state where BeginTerminalShutdown has begun.
abbrev pub begun_or : Control → Begun → Control
begun_or c (begun c') = c'
begun_or c _ = c

unfoldable pub act : Control → Action → Control × Route
act c (on_event event) = dispatch c event
act c on_begin_start = ((begin_start c).0, record { owner = none; route_generation = 0 })
act c (on_complete_start status) =
    ((complete_start c status).0, record { owner = none; route_generation = 0 })
act c (on_publish expected target) =
    ((publish_target c expected target).0, record { owner = none; route_generation = 0 })
act c (on_terminal error sink escalation kind) = (
  begun_or c (begin_terminal c error sink escalation kind),
  record { owner = none; route_generation = 0 },
)
act c (on_settle status) =
    ((settle_terminal c status).0, record { owner = none; route_generation = 0 })

-- The calls of OnStreamEvent: what a target got, and with which generation.
pub record Delivery : Type 0 where
  pub action : Action
  pub target : Target
  pub with_generation : ℕ

unfoldable pub deliveries : Control → List Action → List Delivery
deliveries c [] = []
deliveries c (a ∷ actions) =
    let (c', route) = act c a in
    let later = deliveries c' actions in
    elim route.owner [
      | none ↦ later
      | some target ↦
          record { action = a; target = target; with_generation = route.route_generation } ∷ later
    ]
