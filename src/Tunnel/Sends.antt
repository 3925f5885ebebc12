-- ===== src/Tunnel/Sends.antt =====
-- src/tunnel/stream_lifetime.cpp: the registry of send completions, g_sendCompletions and
-- g_claimedSendCompletions, and the critical sections under g_sendCompletionLock. A key is the address
-- of its envelope, and a stream the address of its TqStreamLifetime. The cleanup of an entry is known by
-- the entry's key. Times and counters are left out.
pub mod System
pub mod Keys
pub mod Once
use tcpquic_proxy.Base.{
  ℕ, Bool, true, false, not, ◌&&◌, Option, none, some, ◌==◌, if◌then◌else◌, update,
}
use tcpquic_proxy.Tunnel.Lifetime.{Control, Route, Target, is_live}

-- SendCompletionRetention
pub record Retention : Type 0 where
  pub owner : ℕ
  pub route : Route
  pub context : ℕ

-- The two maps.
pub record Registry : Type 0 where
  pub sends : ℕ → Option Retention
  pub claimed : ℕ → Option ℕ

abbrev pub empty_registry : Registry
empty_registry = record { sends = λ key. none; claimed = λ key. none }

-- The first section of RegisterSendCompletion: the route that the completion will take.
unfoldable pub register_route : Control → Option Route
register_route c = if not (is_live c.phase) then none else elim c.target [
  | none ↦ none
  | some target ↦ some (record { owner = some target; route_generation = c.generation })
]

-- The second section: emplace, and the key as the result where it was inserted.
unfoldable pub register_insert : Registry → ℕ → Retention → Registry × Option ℕ
register_insert r key entry = elim (r.sends key) [
  | some old ↦ (r, none)
  | none ↦ (record r { sends = update r.sends key (some entry) }, some key)
]

-- The section of CancelSendCompletion: the entry that was taken out, if the stream owns one.
unfoldable pub cancel_send : Registry → ℕ → ℕ → Registry × Option Retention
cancel_send r stream key = elim (r.sends key) [
  | none ↦ (r, none)
  | some entry ↦
      if entry.owner == stream
      then (record r { sends = update r.sends key none }, some entry)
      else (r, none)
]

-- What Dispatch makes of SEND_COMPLETE.
pub data Claim : Type 0 where
  unknown_claim duplicate_claim : Claim
  claim_of : Retention → Claim

-- The event is not for an entry of this stream.
unfoldable pub strange_claim : Registry → ℕ → ℕ → Claim
strange_claim r stream key = elim (r.claimed key) [
  | none ↦ unknown_claim
  | some claimer ↦ if claimer == stream then duplicate_claim else unknown_claim
]

unfoldable pub claim_send : Registry → ℕ → ℕ → Registry × Claim
claim_send r stream key = elim (r.sends key) [
  | none ↦ (r, strange_claim r stream key)
  | some entry ↦
      if entry.owner == stream
      then (
        record { sends = update r.sends key none; claimed = update r.claimed key (some stream) },
        claim_of entry,
      )
      else (r, strange_claim r stream key)
]

-- The destructor: no key of the stream stays claimed. `is_mine` says which envelopes it has.
unfoldable pub forget_claims : Registry → (ℕ → Bool) → Registry
forget_claims r is_mine = record r { claimed = λ key. if is_mine key then none else r.claimed key }

-- SendCompletionReservation: the stream and the key, and Armed_.
pub record Reservation : Type 0 where
  pub stream : Option ℕ
  pub key : Option ℕ
  pub armed : Bool

abbrev pub disarmed : Reservation
disarmed = record { stream = none; key = none; armed = false }

-- The constructor behind ReserveSendCompletion.
unfoldable pub reservation_of : ℕ → Option ℕ → Reservation
reservation_of stream none = disarmed
reservation_of stream (some key) = record { stream = some stream; key = some key; armed = true }

-- Cancel: the reservation, the registry, and the entry whose cleanup runs. The destructor is the same.
unfoldable pub reservation_cancel :
    Reservation → Registry → Reservation × Registry × Option Retention
reservation_cancel v r =
    if v.armed
    then elim v.stream [
      | none ↦ (disarmed, r, none)
      | some stream ↦ elim v.key [
        | none ↦ (disarmed, r, none)
        | some key ↦ let (r', entry) = cancel_send r stream key in (disarmed, r', entry)
      ]
    ]
    else (disarmed, r, none)

-- Dismiss
unfoldable pub reservation_dismiss : Reservation → Reservation
reservation_dismiss v = disarmed
