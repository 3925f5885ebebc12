-- ===== src/Tunnel/Sends/System.antt =====
-- src/tunnel/stream_lifetime.cpp: any number of streams and threads at the registry of send
-- completions. A critical section is one step, and a cleanup runs in a step of its own.
use tcpquic_proxy.Base.{
  ℕ, suc, ◌==◌, ◌≡◌, ◌≢◌, Bool, false, Option, none, some, update, if◌then◌else◌,
}
use tcpquic_proxy.Tunnel.Lifetime.{Control, Route}
use tcpquic_proxy.Tunnel.Sends.{
  Retention, Registry, empty_registry, register_route, register_insert, cancel_send, claim_of,
  claim_send, forget_claims,
}

abbrev pub owned_by : ℕ → Option ℕ → Bool
owned_by stream none = false
owned_by stream (some owner) = owner == stream

-- `envelopes` has the stream of each allocated key, `starting` what a thread between the sections of
-- RegisterSendCompletion is to insert, and `in_hand` what a thread has taken out and not cleaned up
-- yet. `inserted` and `cleaned` count, and `issued` has what was inserted last.
pub record System : Type 0 where
  pub registry : Registry
  pub envelopes : ℕ → Option ℕ
  pub starting : ℕ → Option Retention
  pub in_hand : ℕ → Option Retention
  pub issued : ℕ → Option Retention
  pub inserted : ℕ → ℕ
  pub cleaned : ℕ → ℕ

abbrev pub new_system : System
new_system = record {
  registry = empty_registry;
  envelopes = λ key. none;
  starting = λ key. none;
  in_hand = λ key. none;
  issued = λ key. none;
  inserted = λ key. 0;
  cleaned = λ key. 0;
}

-- No thread and no registry holds the stream, as far as send completions go.
pub record IsUnused (s : System) (stream : ℕ) : Type 0 where
  pub not_registered : (key : ℕ) (e : Retention) → s.registry.sends key ≡ some e → e.owner ≢ stream
  pub not_starting : (key : ℕ) (e : Retention) → s.starting key ≡ some e → e.owner ≢ stream
  pub not_in_hand : (key : ℕ) (e : Retention) → s.in_hand key ≡ some e → e.owner ≢ stream

-- An envelope has an address that no living stream has for another one. A stream is destroyed when
-- nothing shares it.
pub data Step (s : System) : System → Type 0 where
  allocates :
      (c : Control) (stream key context : ℕ) (route : Route)
      → register_route c ≡ some route
      → s.envelopes key ≡ none
      → Step s (record s {
        envelopes = update s.envelopes key (some stream);
        starting =
            update s.starting key
              (some (record { owner = stream; route = route; context = context }));
      })
  inserts :
      (key : ℕ) (entry : Retention) (registry : Registry)
      → s.starting key ≡ some entry
      → register_insert s.registry key entry ≡ (registry, some key)
      → Step s (record s {
        registry = registry;
        starting = update s.starting key none;
        issued = update s.issued key (some entry);
        inserted = update s.inserted key (suc (s.inserted key));
      })
  finds_taken :
      (key : ℕ) (entry : Retention) (registry : Registry)
      → s.starting key ≡ some entry
      → register_insert s.registry key entry ≡ (registry, none)
      → Step s (record s { registry = registry; starting = update s.starting key none })
  cancels :
      (stream key : ℕ) (entry : Retention) (registry : Registry)
      → cancel_send s.registry stream key ≡ (registry, some entry)
      → Step s (record s { registry = registry; in_hand = update s.in_hand key (some entry) })
  claims :
      (stream key : ℕ) (entry : Retention) (registry : Registry)
      → claim_send s.registry stream key ≡ (registry, claim_of entry)
      → Step s (record s { registry = registry; in_hand = update s.in_hand key (some entry) })
  cleans :
      (key : ℕ) (entry : Retention)
      → s.in_hand key ≡ some entry
      → Step s (record s {
        in_hand = update s.in_hand key none;
        cleaned = update s.cleaned key (suc (s.cleaned key));
      })
  destroys :
      (stream : ℕ)
      → IsUnused s stream
      → Step s (record s {
        registry = forget_claims s.registry (λ key. owned_by stream (s.envelopes key));
        envelopes = λ key. if owned_by stream (s.envelopes key) then none else s.envelopes key;
      })

pub data Reachable : System → Type 0 where
  start : Reachable new_system
  next : (s t : System) → Reachable s → Step s t → Reachable t
