-- ===== src/Tunnel/Sends/Once.antt =====
-- src/tunnel/stream_lifetime.cpp: each registered send completion is cleaned up once.
use tcpquic_proxy.Base.{
  ℕ, suc, ◌==◌, ◌≡◌, ◌≢◌, refl, sym, subst, true, false, Option, none, some, update, arith,
  Bool-cases, ◌⊎◌, inl, inr, ==_iff,
}
use tcpquic_proxy.Tunnel.Sends.{
  Retention, Registry, register_insert, cancel_send, claim_of, claim_send, forget_claims,
  strange_claim, duplicate_claim,
}
use native.Mathlib.Decide.{ℕ_discrete}
use tcpquic_proxy.Tunnel.Sends.Keys.{
  KeyState, is_unused, allocated, inserted, canceled, claimed, cleaned, forgotten, claimed-gone,
}
use tcpquic_proxy.Tunnel.Sends.System.{
  System, Step, allocates, inserts, finds_taken, cancels, claims, cleans, destroys, Reachable,
  start, next, owned_by,
}

-- What the sections do where they succeed.
insert-eq :
    (r registry : Registry) (key : ℕ) (entry : Retention) (found : Option ℕ)
    → register_insert r key entry ≡ (registry, found)
    → ((r.sends key ≡ none)
        × (registry ≡ record r { sends = update r.sends key (some entry) })
        × (found ≡ some key))
      ⊎ ((registry ≡ r) × (found ≡ none))
unfolding register_insert
insert-eq r registry key entry found e = ground arith

insert-free :
    (r registry : Registry) (key : ℕ) (entry : Retention)
    → r.sends key ≡ none
    → register_insert r key entry ≢ (registry, none)
unfolding register_insert
insert-free r registry key entry free e = ground arith

cancel-eq :
    (r registry : Registry) (stream key : ℕ) (entry : Retention)
    → cancel_send r stream key ≡ (registry, some entry)
    → (r.sends key ≡ some entry)
      × (entry.owner ≡ stream)
      × (registry ≡ record r { sends = update r.sends key none })
unfolding cancel_send
cancel-eq r registry stream key entry e = ground arith

claim-eq :
    (r registry : Registry) (stream key : ℕ) (entry : Retention)
    → claim_send r stream key ≡ (registry, claim_of entry)
    → (r.sends key ≡ some entry)
      × (entry.owner ≡ stream)
      × (registry ≡ record {
        sends = update r.sends key none;
        claimed = update r.claimed key (some stream);
      })
unfolding claim_send strange_claim
claim-eq r registry stream key entry e = ground arith

abbrev pub KeyAt : System → ℕ → Type 0
KeyAt s k =
    KeyState (s.envelopes k) (s.registry.claimed k) (s.registry.sends k) (s.in_hand k)
      (s.starting k) (s.issued k) (s.inserted k) (s.cleaned k)

here : (k : ℕ) → (k == k) ≡ true
here k = (==_iff k k).1 refl

there : (k key : ℕ) → k ≢ key → (k == key) ≡ false
there k key other = elim (Bool-cases (k == key)) [
  | inl e ↦ absurd (other ((==_iff k key).0 e))
  | inr e ↦ e
]

-- A step at one key.
at_key :
    (t : System) (key : ℕ)
    → KeyAt t key
    → ((k : ℕ) → (k == key) ≡ false → KeyAt t k)
    → (k : ℕ) → KeyAt t k
at_key t key at others k = elim (ℕ_discrete k key) [
  | yes e ↦ subst (KeyAt t) (sym e) at
  | no other ↦ others k (there k key other)
]

step-KeyAt : (s t : System) → Step s t → ((k : ℕ) → KeyAt s k) → (k : ℕ) → KeyAt t k
unfolding forget_claims
step-KeyAt s _ (allocates c stream key context route r free) v k =
    let entry : Retention = record { owner = stream; route = route; context = context } in
    let t : System = record s {
      envelopes = update s.envelopes key (some stream);
      starting = update s.starting key (some entry);
    } in
    at_key t key (rw (here key) (allocated _ _ _ _ _ _ _ _ entry (v key) free)) (λ j e. rw e (v j))
      k
step-KeyAt s _ (inserts key entry registry w e) v k =
    elim (insert-eq s.registry registry key entry (some key) e) [
      | inr (same, nothing) ↦ cc
      | inl (free, same, found) ↦
          let with_registry : Registry → System = λ r. record s {
            registry = r;
            starting = update s.starting key none;
            issued = update s.issued key (some entry);
            inserted = update s.inserted key (suc (s.inserted key));
          } in
          let r : Registry = record s.registry {
            sends = update s.registry.sends key (some entry);
          } in
          subst (λ q. KeyAt (with_registry q) k) (sym same)
            (at_key (with_registry r) key
              (rw (here key) (inserted _ _ _ _ _ _ _ _ entry (v key) w).1) (λ j e. rw e (v j)) k)
    ]
step-KeyAt s _ (finds_taken key entry registry w e) v k =
    let (free, later) = inserted _ _ _ _ _ _ _ _ entry (v key) w in
    absurd (insert-free s.registry registry key entry free e)
step-KeyAt s _ (cancels stream key entry registry e) v k =
    let (there_is, mine, same) = cancel-eq s.registry registry stream key entry e in
    let with_registry : Registry → System =
      λ r. record s { registry = r; in_hand = update s.in_hand key (some entry) } in
    let r : Registry = record s.registry { sends = update s.registry.sends key none } in
    subst (λ q. KeyAt (with_registry q) k) (sym same)
      (at_key (with_registry r) key
        (rw (here key) (canceled _ _ _ _ _ _ _ _ entry (v key) there_is)) (λ j e. rw e (v j)) k)
step-KeyAt s _ (claims stream key entry registry e) v k =
    let (there_is, mine, same) = claim-eq s.registry registry stream key entry e in
    let with_registry : Registry → System =
      λ r. record s { registry = r; in_hand = update s.in_hand key (some entry) } in
    let r : Registry = record {
      sends = update s.registry.sends key none;
      claimed = update s.registry.claimed key (some stream);
    } in
    subst (λ q. KeyAt (with_registry q) k) (sym same)
      (at_key (with_registry r) key
        (rw (here key) (claimed _ _ _ _ _ _ _ _ entry stream (v key) there_is mine))
        (λ j e. rw e (v j)) k)
step-KeyAt s _ (cleans key entry h) v k =
    let t : System = record s {
      in_hand = update s.in_hand key none;
      cleaned = update s.cleaned key (suc (s.cleaned key));
    } in
    at_key t key (rw (here key) (cleaned _ _ _ _ _ _ _ _ entry (v key) h)) (λ j e. rw e (v j)) k
step-KeyAt s _ (destroys stream u) v k = elim (Bool-cases (owned_by stream (s.envelopes k))) [
  | inl mine ↦ rw mine (
      forgotten _ _ _ _ _ _ _ _ stream (v k) (u.not_registered k) (u.not_starting k)
        (u.not_in_hand k) mine)
  | inr other ↦ rw other (v k)
]

-- In every state that any number of streams and threads reach at the registry, each key is in one
-- place of its life: unused, about to be inserted, registered, in the hand of the one thread that
-- canceled it or claimed it, or cleaned up. What is registered or in hand is the entry, with the
-- target and the generation, that was inserted. The entries inserted under the key are as many as the
-- cleanups that ran, and one more exactly where one is registered or in hand; and a key stays
-- claimed by its stream as long as the stream has its envelope.
pub Reachable-KeyAt : (s : System) → Reachable s → (k : ℕ) → KeyAt s k
Reachable-KeyAt _ start k = is_unused none 0
Reachable-KeyAt t (next s _ before step) k = step-KeyAt s t step (Reachable-KeyAt s before) k

-- In every such state a further SEND_COMPLETE for a key that its stream has claimed is told apart
-- as a duplicate, and changes nothing.
pub Reachable-duplicate :
    (s : System) (stream key : ℕ)
    → Reachable s
    → s.registry.claimed key ≡ some stream
    → claim_send s.registry stream key ≡ (s.registry, duplicate_claim)
unfolding claim_send strange_claim
Reachable-duplicate s stream key before mine =
    let gone = claimed-gone _ _ _ _ _ _ _ _ stream (Reachable-KeyAt s before key) mine in
    ground (arith, (==_iff stream stream).1 refl)
