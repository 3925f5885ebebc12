-- ===== src/Examples/Dispatch.antt =====
-- src/tunnel/stream_lifetime.cpp: a stream whose target is replaced before the stream ends.
use tcpquic_proxy.Base.{◌≡◌, refl, true, some, List, ◌∷◌, []}
use tcpquic_proxy.Tunnel.Lifetime.{Control, started, new_control, publish_target, publish_terminal}
use tcpquic_proxy.Tunnel.Dispatch.{
  stream_shutdown_complete, other_event, dispatch, Action, on_event, on_publish, act, deliveries,
}
use tcpquic_proxy.Tunnel.Dispatch.Last.{end_is_last, deliveries-end_is_last}

abbrev running : Control
running = record (new_control started (some 3) true) { has_stream = true }

abbrev actions : List Action
actions =
    on_event other_event
    ∷ on_publish 1 (some 4)
    ∷ on_event stream_shutdown_complete
    ∷ on_event other_event
    ∷ []

heard :
    deliveries running actions
    ≡ record { action = on_event other_event; target = 3; with_generation = 1 }
      ∷ record { action = on_event stream_shutdown_complete; target = 4; with_generation = 2 }
      ∷ []
unfolding deliveries act dispatch publish_target publish_terminal
heard = refl

deliveries-end_is_last_example : end_is_last (deliveries running actions) ≡ true
deliveries-end_is_last_example = deliveries-end_is_last running actions
