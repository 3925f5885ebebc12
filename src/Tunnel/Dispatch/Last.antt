-- ===== src/Tunnel/Dispatch/Last.antt =====
-- src/tunnel/stream_lifetime.cpp: the end of a stream is the last that a target hears of it.
use tcpquic_proxy.Base.{
  ◌≡◌, refl, Bool, true, false, Option, none, some, List, ◌∷◌, [], if◌then◌else◌, arith, ◌⊎◌, inl,
  inr, ap, ◌∙◌,
}
use tcpquic_proxy.Tunnel.Lifetime.{
  Control, Target, begin_start, complete_start, publish_start_failure, publish_terminal,
  publish_target, begin_terminal, settle_terminal, terminal_published,
}
use tcpquic_proxy.Tunnel.Dispatch.{
  start_complete, stream_shutdown_complete, stream_send_shutdown_complete, stream_cancel_on_loss,
  other_event, dispatch, Action, on_event, on_begin_start, on_complete_start, on_publish,
  on_terminal, on_settle, act, Delivery, deliveries,
}

abbrev pub is_end : Action → Bool
is_end (on_event stream_shutdown_complete) = true
is_end _ = false

-- Nothing is delivered behind the delivery of an end.
abbrev pub end_is_last : List Delivery → Bool
end_is_last [] = true
end_is_last (d ∷ []) = true
end_is_last (d ∷ e ∷ ds) = if is_end d.action then false else end_is_last (e ∷ ds)

record IsEnded (c : Control) : Type 0 where
  ended : c.phase ≡ terminal_published
  gone : c.target ≡ none

act-IsEnded :
    (c : Control) (a : Action) → IsEnded c → IsEnded (act c a).0 × ((act c a).1.owner ≡ none)
unfolding act dispatch publish_terminal publish_start_failure complete_start begin_start
    publish_target begin_terminal settle_terminal
act-IsEnded c (on_event (start_complete status)) v =
    (record { ended = ground arith; gone = ground arith }, ground arith)
act-IsEnded c (on_event stream_shutdown_complete) v =
    (record { ended = ground arith; gone = ground arith }, ground arith)
act-IsEnded c (on_event (stream_send_shutdown_complete g)) v = (v, v.gone)
act-IsEnded c (on_event stream_cancel_on_loss) v = (v, v.gone)
act-IsEnded c (on_event other_event) v = (v, v.gone)
act-IsEnded c on_begin_start v = (record { ended = ground arith; gone = ground arith }, refl)
act-IsEnded c (on_complete_start status) v =
    (record { ended = ground arith; gone = ground arith }, refl)
act-IsEnded c (on_publish expected target) v =
    (record { ended = ground arith; gone = ground arith }, refl)
act-IsEnded c (on_terminal error sink escalation kind) v =
    (record { ended = ground arith; gone = ground arith }, refl)
act-IsEnded c (on_settle status) v = (record { ended = ground arith; gone = ground arith }, refl)

-- An end that reaches a target ends the stream.
end-IsEnded :
    (c : Control) (target : Target)
    → (act c (on_event stream_shutdown_complete)).1.owner ≡ some target
    → IsEnded (act c (on_event stream_shutdown_complete)).0
unfolding act dispatch publish_terminal
end-IsEnded c target e = record { ended = ground arith; gone = ground arith }

silent-eq :
    (c : Control) (a : Action) (actions : List Action)
    → (act c a).1.owner ≡ none
    → deliveries c (a ∷ actions) ≡ deliveries (act c a).0 actions
unfolding deliveries
silent-eq c a actions e = rw (e, deliveries) refl

delivered-eq :
    (c : Control) (a : Action) (actions : List Action) (target : Target)
    → (act c a).1.owner ≡ some target
    → deliveries c (a ∷ actions)
      ≡ record { action = a; target = target; with_generation = (act c a).1.route_generation }
        ∷ deliveries (act c a).0 actions
unfolding deliveries
delivered-eq c a actions target e = rw (e, deliveries) refl

ended-silent : (c : Control) (actions : List Action) → IsEnded c → deliveries c actions ≡ []
unfolding deliveries
ended-silent c [] v = refl
ended-silent c (a ∷ actions) v =
    let (u, silent) = act-IsEnded c a v in
    silent-eq c a actions silent ∙ ended-silent (act c a).0 actions u

owner-cases : (o : Option Target) → (o ≡ none) ⊎ ((t : Target) × (o ≡ some t))
owner-cases none = inl refl
owner-cases (some t) = inr (t, refl)

goes_on :
    (d : Delivery) (later : List Delivery)
    → is_end d.action ≡ false
    → end_is_last later ≡ true
    → end_is_last (d ∷ later) ≡ true
goes_on d [] e h = refl
goes_on d (f ∷ later) e h = rw e h

-- The rest of the deliveries behind the delivery of an action.
rest :
    (c : Control) (a : Action) (actions : List Action) (target : Target)
    → (act c a).1.owner ≡ some target
    → (is_end a ≡ false) ⊎ (deliveries (act c a).0 actions ≡ [])
rest c (on_event stream_shutdown_complete) actions target e =
    inr
      (ended-silent (act c (on_event stream_shutdown_complete)).0 actions (end-IsEnded c target e))
rest c (on_event (start_complete status)) actions target e = inl refl
rest c (on_event (stream_send_shutdown_complete g)) actions target e = inl refl
rest c (on_event stream_cancel_on_loss) actions target e = inl refl
rest c (on_event other_event) actions target e = inl refl
rest c on_begin_start actions target e = inl refl
rest c (on_complete_start status) actions target e = inl refl
rest c (on_publish expected new) actions target e = inl refl
rest c (on_terminal error sink escalation kind) actions target e = inl refl
rest c (on_settle status) actions target e = inl refl

-- In any sequence of events other than SEND_COMPLETE, of starts, published targets and terminal
-- shutdowns, from any state of the stream: once SHUTDOWN_COMPLETE has been delivered to a target, none
-- of the further events is delivered to any target, so at most one target hears of the end, and it
-- hears it once.
pub deliveries-end_is_last :
    (c : Control) (actions : List Action) → end_is_last (deliveries c actions) ≡ true
unfolding deliveries
deliveries-end_is_last c [] = refl
deliveries-end_is_last c (a ∷ actions) =
    let later = deliveries-end_is_last (act c a).0 actions in
    elim (owner-cases (act c a).1.owner) [
      | inl none_there ↦ ap end_is_last (silent-eq c a actions none_there) ∙ later
      | inr (target, e) ↦
          let d : Delivery = record {
            action = a;
            target = target;
            with_generation = (act c a).1.route_generation;
          } in
          ap end_is_last (delivered-eq c a actions target e) ∙ elim (rest c a actions target e) [
            | inl other ↦ goes_on d (deliveries (act c a).0 actions) other later
            | inr nothing ↦ ap (λ ds. end_is_last (d ∷ ds)) nothing
          ]
    ]
