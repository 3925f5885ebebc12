-- ===== src/Tunnel/Registry/Carry.antt =====
-- src/tunnel/tunnel_registry.cpp: a tunnel that is being aborted stays in the registry.
use mathlib.Core.Bool.{false≢true}
use tcpquic_proxy.Base.{
  ℕ, ◌≡◌, ◌≢◌, refl, sym, ◌∙◌, subst, Bool, true, false, Option, none, some, List, [], ◌∷◌, ◌==◌,
  if◌then◌else◌, Any, ◌⊎◌, inl, inr, arith,
}
use tcpquic_proxy.Base.Select.{has, Any-keep, Any-map, Any-append_left}
use tcpquic_proxy.Tunnel.Registry.{
  Tunnel, new_tunnel, Registry, Scan, replaced, scanned, scan_behind, register_scan, register,
  set_metadata, update_metadata, unregister, begin_abort_all, end_abort_all, begin_drain_id,
  find_by_id, change_by_id, marked, stays, is_idle_of,
}
use tcpquic_proxy.Tunnel.Registry.System.{Call, is_call_of}

-- The tunnel of a running call, as the thread has marked it.
abbrev pub Carries : Call → Tunnel → Type 0
Carries c t =
    (t.id ≡ c.id)
    × (t.connection ≡ c.connection)
    × (t.context ≡ c.context)
    × (t.aborting ≡ true)
    × (t.abort_in_progress ≡ true)
    × (t.abort_thread ≡ c.thread)

abbrev pub Carried : Call → Registry → Type 0
Carried c r = Any (Carries c) r.tunnels

behind-eq :
    (t : Tunnel) (s : Scan) (out : List Tunnel)
    → scan_behind t s ≡ replaced out
    → (rest : List Tunnel) × (s ≡ replaced rest) × (out ≡ t ∷ rest)
behind-eq t (replaced rest) out e = (rest, refl, ground arith)
behind-eq t (scanned a b) out e = cc

-- What the head of the vector makes of the scan.
scan-cases :
    (connection context abort_fn drain_fn me : ℕ) (same : Bool) (t : Tunnel)
    (tunnels out : List Tunnel)
    → register_scan connection context abort_fn drain_fn me same (t ∷ tunnels) ≡ replaced out
    → (scan_behind t (register_scan connection context abort_fn drain_fn me same tunnels)
        ≡ replaced out)
      ⊎ (scan_behind t (register_scan connection context abort_fn drain_fn me true tunnels)
          ≡ replaced out)
      ⊎ ((t.aborting ≡ false)
          × (out ≡ record t { abort_fn = abort_fn; drain_fn = drain_fn } ∷ tunnels))
unfolding register_scan
scan-cases connection context abort_fn drain_fn me same t tunnels out e = ground arith

behind-Carries :
    (c : Call) (t : Tunnel) (tunnels : List Tunnel) (s : Scan) (out : List Tunnel)
    → scan_behind t s ≡ replaced out
    → ((rest : List Tunnel) → s ≡ replaced rest → Any (Carries c) tunnels → Any (Carries c) rest)
    → Any (Carries c) (t ∷ tunnels)
    → Any (Carries c) out
behind-Carries c t tunnels s out on later h =
    let (rest, there, shape) = behind-eq t s out on in
    subst (Any (Carries c)) (sym shape)
      (elim h [ inl here ↦ inl here | inr k ↦ inr (later rest there k) ])

scan-Carries :
    (c : Call) (connection context abort_fn drain_fn me : ℕ) (same : Bool)
    (tunnels out : List Tunnel)
    → register_scan connection context abort_fn drain_fn me same tunnels ≡ replaced out
    → Any (Carries c) tunnels
    → Any (Carries c) out
unfolding register_scan
scan-Carries c connection context abort_fn drain_fn me same [] out e h = elim h [ ]
scan-Carries c connection context abort_fn drain_fn me same (t ∷ tunnels) out e h =
    let from : Bool → Scan =
      λ same. register_scan connection context abort_fn drain_fn me same tunnels in
    elim (scan-cases connection context abort_fn drain_fn me same t tunnels out e) [
      | inl on ↦
          behind-Carries c t tunnels (from same) out on
            (scan-Carries c connection context abort_fn drain_fn me same tunnels) h
      | inr (inl on) ↦
          behind-Carries c t tunnels (from true) out on
            (scan-Carries c connection context abort_fn drain_fn me true tunnels) h
      | inr (inr (idle, e')) ↦
          subst (Any (Carries c)) (sym e')
            (elim h [ inl k ↦ absurd (false≢true (sym idle ∙ k.3)) | inr k ↦ inr k ])
    ]

Scan-cases :
    (s : Scan)
    → ((out : List Tunnel) × (s ≡ replaced out)) ⊎ ((a : Bool) × (b : Bool) × (s ≡ scanned a b))
Scan-cases (replaced out) = inl (out, refl)
Scan-cases (scanned a b) = inr (a, b, refl)

pub register-Carried :
    (c : Call) (r : Registry) (connection context abort_fn drain_fn me : ℕ)
    → Carried c r
    → Carried c (register r connection context abort_fn drain_fn me).0
unfolding register
register-Carried c r connection context abort_fn drain_fn me h =
    let new = new_tunnel connection r.next_id context abort_fn drain_fn in
    let more = Any-append_left (Carries c) r.tunnels (new ∷ []) h in
    elim (Scan-cases (register_scan connection context abort_fn drain_fn me false r.tunnels)) [
      | inl (out, e) ↦
          let kept =
            scan-Carries c connection context abort_fn drain_fn me false r.tunnels out e h in
          ground arith
      | inr (a, b, e) ↦ ground arith
    ]

metadata-Carries :
    (c : Call) (connection context metadata : ℕ) (tunnels : List Tunnel)
    → Any (Carries c) tunnels
    → Any (Carries c) (set_metadata connection context metadata tunnels)
unfolding set_metadata
metadata-Carries c connection context metadata [] h = elim h [ ]
metadata-Carries c connection context metadata (t ∷ tunnels) (inl h) = ground arith
metadata-Carries c connection context metadata (t ∷ tunnels) (inr h) =
    ground (arith, metadata-Carries c connection context metadata tunnels h)

stays-Carries :
    (c : Call) (t : Tunnel) (connection context me : ℕ)
    → is_call_of connection context me c ≡ false
    → Carries c t
    → stays connection context me t ≡ true
stays-Carries c t connection context me other (i, n, x, a, p, h) = ground arith

pub unregister-Carried :
    (c : Call) (r : Registry) (connection context me : ℕ)
    → is_call_of connection context me c ≡ false
    → Carried c r
    → Carried c (unregister r connection context me).0
unfolding unregister
unregister-Carried c r connection context me other h =
    let kept =
      Any-keep (Carries c) (stays connection context me) r.tunnels
        (λ t carries. stays-Carries c t connection context me other carries) h in
    ground arith

pub begin_all-Carried :
    (c : Call) (r : Registry) (connection me : ℕ)
    → Carried c r
    → Carried c (begin_abort_all r connection me).0
unfolding begin_abort_all
begin_all-Carried c r connection me h =
    let all =
      Any-map (Carries c) (Carries c) (λ t. if is_idle_of connection t then marked me t else t)
        r.tunnels (λ t (i, n, x, a, p, k). ground arith) h in
    ground arith

pub end_all-Carried :
    (c : Call) (r : Registry) (connection : ℕ) (ids : List ℕ)
    → has (λ i. i == c.id) ids ≡ false
    → Carried c r
    → Carried c (end_abort_all r connection ids)
unfolding end_abort_all
end_all-Carried c r connection ids gone h =
    Any-keep (Carries c) _ r.tunnels (λ t (i, n, x, a, p, k). rw (i, gone) ground arith) h

-- The first tunnel with the id, while it is not being aborted, carries no call.
pub change-Carries :
    (c : Call) (id : ℕ) (f : Tunnel → Tunnel) (t : Tunnel) (tunnels : List Tunnel)
    → find_by_id id tunnels ≡ some t
    → t.aborting ≡ false
    → Any (Carries c) tunnels
    → Any (Carries c) (change_by_id id f tunnels)
unfolding find_by_id change_by_id
change-Carries c id f t [] e idle h = elim h [ ]
change-Carries c id f t (u ∷ tunnels) e idle (inl h) = ground arith
change-Carries c id f t (u ∷ tunnels) e idle (inr h) =
    ground (arith, change-Carries c id f t tunnels)

pub change_other-Carries :
    (c : Call) (id : ℕ) (f : Tunnel → Tunnel) (tunnels : List Tunnel)
    → c.id ≢ id
    → Any (Carries c) tunnels
    → Any (Carries c) (change_by_id id f tunnels)
unfolding change_by_id
change_other-Carries c id f [] other h = elim h [ ]
change_other-Carries c id f (u ∷ tunnels) other (inl h) = ground arith
change_other-Carries c id f (u ∷ tunnels) other (inr h) =
    ground (arith, change_other-Carries c id f tunnels other h)

pub found-Any :
    (id : ℕ) (t : Tunnel) (f : Tunnel → Tunnel) (tunnels : List Tunnel)
    → find_by_id id tunnels ≡ some t
    → Any (λ u. u ≡ f t) (change_by_id id f tunnels)
unfolding find_by_id change_by_id
found-Any id t f [] e = cc
found-Any id t f (u ∷ tunnels) e = ground (arith, found-Any id t f tunnels)

pub update-Carried :
    (c : Call) (r : Registry) (connection context metadata : ℕ)
    → Carried c r
    → Carried c (update_metadata r connection context metadata)
unfolding update_metadata
update-Carried c r connection context metadata h =
    let set = metadata-Carries c connection context metadata r.tunnels h in ground arith

drain-Carries :
    (c : Call) (id : ℕ) (tunnels : List Tunnel)
    → Any (Carries c) tunnels
    → Any (Carries c) (change_by_id id (λ t. record t { draining = true }) tunnels)
unfolding change_by_id
drain-Carries c id [] h = elim h [ ]
drain-Carries c id (t ∷ tunnels) (inl h) = ground arith
drain-Carries c id (t ∷ tunnels) (inr h) = ground (arith, drain-Carries c id tunnels h)

pub Option-cases {ℓ} : {A : Type ℓ} (o : Option A) → (o ≡ none) ⊎ ((x : A) × (o ≡ some x))
Option-cases none = inl refl
Option-cases (some x) = inr (x, refl)

pub drain-Carried :
    (c : Call) (r : Registry) (id : ℕ) → Carried c r → Carried c (begin_drain_id r id).0
unfolding begin_drain_id
drain-Carried c r id h =
    let set = drain-Carries c id r.tunnels h in
    elim (Option-cases (find_by_id id r.tunnels)) [
      | inl e ↦ rw (e, begin_drain_id) h
      | inr (t, e) ↦ rw (e, begin_drain_id) set
    ]
