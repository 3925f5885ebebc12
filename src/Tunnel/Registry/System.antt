-- ===== src/Tunnel/Registry/System.antt =====
-- src/tunnel/tunnel_registry.cpp: any number of threads at the registry. A call of an Abort function
-- is in `running` from the section that took its tunnel to the section behind the call.
use tcpquic_proxy.Base.{
  ℕ, ◌≡◌, ◌≢◌, Bool, true, false, not, ◌&&◌, some, List, [], ◌∷◌, ◌++◌, map, ◌==◌, if◌then◌else◌,
  All,
}
use tcpquic_proxy.Base.Select.{keep, has}
use tcpquic_proxy.Tunnel.Registry.{
  Tunnel, Registry, new_registry, register, update_metadata, unregister, begin_abort_all,
  end_abort_all, begin_abort_id, end_abort_id, begin_drain_id,
}

-- `dismissed` says that the thread of the call has itself unregistered the tunnel.
pub record Call : Type 0 where
  pub connection : ℕ
  pub id : ℕ
  pub context : ℕ
  pub thread : ℕ
  pub dismissed : Bool

abbrev pub call_of : Tunnel → Call
call_of t = record {
  connection = t.connection;
  id = t.id;
  context = t.context;
  thread = t.abort_thread;
  dismissed = false;
}

abbrev pub is_call_of : ℕ → ℕ → ℕ → Call → Bool
is_call_of connection context me c =
    c.connection == connection && c.context == context && c.thread == me

abbrev pub dismiss : ℕ → ℕ → ℕ → Call → Call
dismiss connection context me c =
    if is_call_of connection context me c then record c { dismissed = true } else c

abbrev pub runs : ℕ → List Call → ℕ → Bool
runs me running id = has (λ c. c.id == id && c.thread == me) running

pub record System : Type 0 where
  pub registry : Registry
  pub running : List Call

abbrev pub new_system : System
new_system = record { registry = new_registry; running = [] }

-- One section of thread `me`. A thread ends the calls that it has begun.
pub data Step (s : System) : System → Type 0 where
  registers :
      (connection context abort_fn drain_fn me : ℕ)
      → Step s
          (record s { registry = (register s.registry connection context abort_fn drain_fn me).0 })
  updates :
      (connection context metadata : ℕ)
      → Step s (record s { registry = update_metadata s.registry connection context metadata })
  unregisters :
      (connection context me : ℕ)
      → connection ≢ 0
      → context ≢ 0
      → Step s (record {
        registry = (unregister s.registry connection context me).0;
        running = map (dismiss connection context me) s.running;
      })
  begins_all :
      (connection me : ℕ) (registry : Registry) (taken : List Tunnel)
      → begin_abort_all s.registry connection me ≡ (registry, taken)
      → Step s (record { registry = registry; running = map call_of taken ++ s.running })
  ends_all :
      (connection me : ℕ) (ids : List ℕ)
      → All (λ id. runs me s.running id ≡ true) ids
      → Step s (record {
        registry = end_abort_all s.registry connection ids;
        running = keep (λ c. not (has (λ id. id == c.id) ids)) s.running;
      })
  begins_id :
      (id me : ℕ) (registry : Registry) (t : Tunnel)
      → begin_abort_id s.registry id me ≡ (registry, some t)
      → Step s (record { registry = registry; running = call_of t ∷ s.running })
  ends_id :
      (id me : ℕ)
      → runs me s.running id ≡ true
      → Step s (record {
        registry = end_abort_id s.registry id;
        running = keep (λ c. not (c.id == id)) s.running;
      })
  drains : (id : ℕ) → Step s (record s { registry = (begin_drain_id s.registry id).0 })

pub data Reachable : System → Type 0 where
  start : Reachable new_system
  next : (s t : System) → Reachable s → Step s t → Reachable t
