-- ===== src/Tunnel/Registry/Safe.antt =====
-- src/tunnel/tunnel_registry.cpp: a thread that has unregistered a tunnel may free its context.
use mathlib.Core.Bool.{false≢true}
use native.Mathlib.Decide.{ℕ_discrete}
use tcpquic_proxy.Base.{
  ℕ, ◌≡◌, ◌≢◌, refl, sym, ◌∙◌, subst, true, false, not, some, List, [], ◌∷◌, map, ◌==◌,
  if◌then◌else◌, All, Any, ◌⊎◌, inl, inr, arith, Bool-cases,
}
use tcpquic_proxy.Base.Select.{
  keep, has, Any-map, All-imply, All-map, All-append, All-keep, keep-All, All-both, keep-Any,
  Any-imply, has-Any,
}
use tcpquic_proxy.Tunnel.Registry.{
  Tunnel, Registry, register, update_metadata, unregister, begin_abort_all, end_abort_all,
  begin_abort_id, end_abort_id, begin_drain_id, find_by_id, change_by_id, marked, unmarked, is_at,
  is_busy, stays, is_idle_of,
}
use tcpquic_proxy.Tunnel.Registry.System.{
  Call, call_of, is_call_of, dismiss, System, Step, registers, updates, unregisters, begins_all,
  ends_all, begins_id, ends_id, drains, Reachable, start, next,
}
use tcpquic_proxy.Tunnel.Registry.Carry.{
  Carries, Carried, register-Carried, update-Carried, drain-Carried, Option-cases,
  unregister-Carried, begin_all-Carried, end_all-Carried, change-Carries, change_other-Carries,
  found-Any,
}

-- A running call has its tunnel in the registry, or its thread has unregistered the tunnel itself.
abbrev Stands : Registry → Call → Type 0
Stands r c = (c.dismissed ≡ true) ⊎ Carried c r

stand : (r q : Registry) (c : Call) → (Carried c r → Carried c q) → Stands r c → Stands q c
stand r q c f (inl h) = inl h
stand r q c f (inr h) = inr (f h)

unregister-Stands :
    (r : Registry) (connection context me : ℕ) (c : Call)
    → Stands r c
    → Stands (unregister r connection context me).0 (dismiss connection context me c)
unregister-Stands r connection context me c h =
    elim (Bool-cases (is_call_of connection context me c)) [
      | inl e ↦ inl (rw e refl)
      | inr e ↦ rw e (
          stand r (unregister r connection context me).0 c
            (unregister-Carried c r connection context me e) h)
    ]

end_all-Stands :
    (r : Registry) (connection : ℕ) (ids : List ℕ) (c : Call)
    → not (has (λ id. id == c.id) ids) ≡ true
    → Stands r c
    → Stands (end_abort_all r connection ids) c
end_all-Stands r connection ids c open_call h =
    stand r (end_abort_all r connection ids) c (end_all-Carried c r connection ids (ground arith)) h

end_id-Stands :
    (r : Registry) (id : ℕ) (c : Call)
    → not (c.id == id) ≡ true
    → Stands r c
    → Stands (end_abort_id r id) c
unfolding end_abort_id
end_id-Stands r id c other h =
    stand r (end_abort_id r id) c (change_other-Carries c id unmarked r.tunnels (λ e. ground arith))
      h

abbrev mark_idle : ℕ → ℕ → Tunnel → Tunnel
mark_idle connection me t = if is_idle_of connection t then marked me t else t

begin_all-eq :
    (r registry : Registry) (connection me : ℕ) (taken : List Tunnel)
    → begin_abort_all r connection me ≡ (registry, taken)
    → (taken ≡ [])
      ⊎ ((taken ≡ map (marked me) (keep (is_idle_of connection) r.tunnels))
          × (registry ≡ record r { tunnels = map (mark_idle connection me) r.tunnels }))
unfolding begin_abort_all
begin_all-eq r registry connection me taken e = elim (Bool-cases (connection == 0)) [
  | inl null ↦ inl (ground arith)
  | inr there ↦ inr (ground arith, ground arith)
]

-- The tunnels that the first section takes are in the registry, marked.
taken-Stands :
    (r : Registry) (connection me : ℕ)
    → All
        (Stands (record r { tunnels = map (mark_idle connection me) r.tunnels }))
        (map call_of (map (marked me) (keep (is_idle_of connection) r.tunnels)))
taken-Stands r connection me =
    let r' : Registry = record r { tunnels = map (mark_idle connection me) r.tunnels } in
    let kept = keep (is_idle_of connection) r.tunnels in
    let each : All (λ t. Stands r' (call_of (marked me t))) kept =
      All-imply (λ t. Any (λ u. u ≡ t) r.tunnels × (is_idle_of connection t ≡ true)) _ kept
        (λ t (there_is, idle). inr (
          Any-map (λ u. u ≡ t) (Carries (call_of (marked me t))) (mark_idle connection me) r.tunnels
            (λ u eq. rw (eq, idle) (refl, refl, refl, refl, refl, refl)) there_is))
        (keep-Any (is_idle_of connection) r.tunnels r.tunnels (λ x h. h)) in
    All-map (λ t. Stands r' (call_of t)) (Stands r') call_of (map (marked me) kept) (λ t h. h)
      (All-map (λ t. Stands r' (call_of (marked me t))) (λ t. Stands r' (call_of t)) (marked me)
        kept (λ t h. h) each)

begin_id-eq :
    (r registry : Registry) (id me : ℕ) (t : Tunnel)
    → begin_abort_id r id me ≡ (registry, some t)
    → (u : Tunnel) × (find_by_id id r.tunnels ≡ some u)
      × (u.aborting ≡ false)
      × (t ≡ marked me u)
      × (registry ≡ record r { tunnels = change_by_id id (marked me) r.tunnels })
unfolding begin_abort_id
begin_id-eq r registry id me t e = elim (Option-cases (find_by_id id r.tunnels)) [
  | inl none_there ↦ ground arith
  | inr (u, found) ↦ (u, found, ground arith, ground arith, ground arith)
]

step-Stands :
    (s t : System)
    → Step s t
    → All (Stands s.registry) s.running
    → All (Stands t.registry) t.running
step-Stands s _ (registers connection context abort_fn drain_fn me) v =
    All-imply (Stands s.registry) _ s.running
      (λ c.
        stand s.registry (register s.registry connection context abort_fn drain_fn me).0 c
          (register-Carried c s.registry connection context abort_fn drain_fn me))
      v
step-Stands s _ (updates connection context metadata) v =
    All-imply (Stands s.registry) _ s.running
      (λ c.
        stand s.registry (update_metadata s.registry connection context metadata) c
          (update-Carried c s.registry connection context metadata))
      v
step-Stands s _ (unregisters connection context me here there) v =
    All-map (Stands s.registry) _ (dismiss connection context me) s.running
      (unregister-Stands s.registry connection context me) v
step-Stands s _ (begins_all connection me registry taken e) v =
    let old : All (Stands registry) s.running =
      All-imply (Stands s.registry) (Stands registry) s.running
        (λ c.
          stand s.registry registry c
            (λ h. subst (λ p. Carried c p.0) e (begin_all-Carried c s.registry connection me h)))
        v in
    elim (begin_all-eq s.registry registry connection me taken e) [
      | inl nothing ↦ rw nothing old
      | inr (some_taken, same) ↦
          All-append (Stands registry) (map call_of taken) s.running
            (rw (some_taken, same) (taken-Stands s.registry connection me)) old
    ]
step-Stands s _ (ends_all connection me ids mine) v =
    All-imply _ (Stands (end_abort_all s.registry connection ids)) _
      (λ c (h, k). end_all-Stands s.registry connection ids c k h)
      (All-both (Stands s.registry) _ (keep (λ c. not (has (λ id. id == c.id) ids)) s.running)
        (All-keep (Stands s.registry) (λ c. not (has (λ id. id == c.id) ids)) s.running v)
        (keep-All (λ c. not (has (λ id. id == c.id) ids)) s.running))
step-Stands s _ (begins_id id me registry t e) v =
    let (u, found, idle, shape, same) = begin_id-eq s.registry registry id me t e in
    let r : Registry = record s.registry {
      tunnels = change_by_id id (marked me) s.registry.tunnels;
    } in
    let own : Carried (call_of (marked me u)) r =
      Any-imply (λ w. w ≡ marked me u) (Carries (call_of (marked me u))) r.tunnels
        (λ w eq. rw eq (refl, refl, refl, refl, refl, refl))
        (found-Any id u (marked me) s.registry.tunnels found) in
    subst (λ q. All (Stands q) (call_of t ∷ s.running)) (sym same)
      (rw shape (
        inr own,
        All-imply (Stands s.registry) (Stands r) s.running
            (λ c.
              stand s.registry r c
                (change-Carries c id (marked me) u s.registry.tunnels found idle))
            v,
      ))
step-Stands s _ (ends_id id me mine) v =
    All-imply _ (Stands (end_abort_id s.registry id)) _
      (λ c (h, k). end_id-Stands s.registry id c k h)
      (All-both (Stands s.registry) _ (keep (λ c. not (c.id == id)) s.running)
        (All-keep (Stands s.registry) (λ c. not (c.id == id)) s.running v)
        (keep-All (λ c. not (c.id == id)) s.running))
step-Stands s _ (drains id) v =
    All-imply (Stands s.registry) _ s.running
      (λ c. stand s.registry (begin_drain_id s.registry id).0 c (drain-Carried c s.registry id)) v

Reachable-Stands : (s : System) → Reachable s → All (Stands s.registry) s.running
Reachable-Stands _ start = tt
Reachable-Stands t (next s _ before step) = step-Stands s t step (Reachable-Stands s before)

no_match :
    (connection context me : ℕ) (tunnels : List Tunnel)
    → has (is_busy connection context me) tunnels ≡ false
    → has (is_at connection context) (keep (stays connection context me) tunnels) ≡ false
no_match connection context me [] e = refl
no_match connection context me (t ∷ tunnels) e =
    ground (arith, no_match connection context me tunnels)

-- A call with that connection and context is one of thread `me`, or its own thread has unregistered
-- the tunnel.
abbrev pub IsHarmless : ℕ → ℕ → ℕ → Call → Type 0
IsHarmless connection context me c =
    (c.connection ≢ connection) ⊎ (c.context ≢ context) ⊎ (c.thread ≡ me) ⊎ (c.dismissed ≡ true)

Stands-IsHarmless :
    (r : Registry) (connection context me : ℕ) (c : Call)
    → has (is_busy connection context me) r.tunnels ≡ false
    → Stands r c
    → IsHarmless connection context me c
Stands-IsHarmless r connection context me c quiet (inl own) = inr (inr (inr own))
Stands-IsHarmless r connection context me c quiet (inr carried) =
    elim (ℕ_discrete c.connection connection) [
      | no other ↦ inl other
      | yes at_connection ↦ elim (ℕ_discrete c.context context) [
        | no other ↦ inr (inl other)
        | yes at_context ↦ elim (ℕ_discrete c.thread me) [
          | yes mine ↦ inr (inr (inl mine))
          | no other ↦
              let busy =
                has-Any (Carries c) (is_busy connection context me) r.tunnels
                  (λ t (i, n, x, a, p, k). ground arith) carried in
              absurd (false≢true (sym quiet ∙ busy))
        ]
      ]
    ]

-- What a thread may rely on once TqUnregisterConnectionTunnel has returned: in every state that any
-- number of threads reach, if a round of thread `me` for a connection and a context, neither of them
-- null, does not wait, then no tunnel of theirs is left, and each call of an Abort function that has
-- been taken and has not ended is for another connection or another context, or is one of thread `me`,
-- or its own thread has unregistered the tunnel.
pub Reachable-unregister :
    (s : System) (connection context me : ℕ)
    → Reachable s
    → connection ≢ 0
    → context ≢ 0
    → (unregister s.registry connection context me).1 ≡ false
    → (has (is_at connection context) (unregister s.registry connection context me).0.tunnels
        ≡ false)
      × All (IsHarmless connection context me) s.running
unfolding unregister
Reachable-unregister s connection context me before here there over =
    let quiet : has (is_busy connection context me) s.registry.tunnels ≡ false = ground arith in
    let left = no_match connection context me s.registry.tunnels quiet in
    (
      ground arith,
      All-imply (Stands s.registry) (IsHarmless connection context me) s.running
          (λ c. Stands-IsHarmless s.registry connection context me c quiet)
          (Reachable-Stands s before),
    )
