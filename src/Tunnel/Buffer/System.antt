-- ===== src/Tunnel/Buffer/System.antt =====
-- src/tunnel/relay_buffer.cpp: any number of threads that allocate from one budget, and the handles.
use tcpquic_proxy.Base.{ℕ, ◌≡◌, Bool, some, List, [], ◌∷◌, ◌++◌}
use tcpquic_proxy.Tunnel.Buffer.{
  Budget, new_budget, Buffer, Handle, set_length, reset, move_from, assign, AcquireFailure, looping,
  begin, no_room, again, taken, reserve_round, allocate,
}

-- A thread in TqAllocateRelayBuffer: in the loop, with `current`, or behind it.
pub data Call : Type 0 where
  in_loop : (bytes current : ℕ) → Call
  behind_loop : (bytes : ℕ) → Call

-- `requests` are the sizes that were asked for.
pub record System : Type 0 where
  pub budget : Budget
  pub calls : List Call
  pub handles : List Handle
  pub requests : List ℕ

abbrev pub new_system : ℕ → System
new_system max = record { budget = new_budget max; calls = []; handles = []; requests = [] }

pub data Step (s : System) : System → Type 0 where
  begins :
      (bytes current : ℕ)
      → begin (some s.budget) bytes ≡ looping current
      → Step s (record s { calls = in_loop bytes current ∷ s.calls; requests = bytes ∷ s.requests })
  refused :
      (xs ys : List Call) (bytes current : ℕ) (spurious : Bool) (b : Budget)
      (reason : AcquireFailure)
      → s.calls ≡ xs ++ (in_loop bytes current ∷ ys)
      → reserve_round s.budget bytes current spurious ≡ (b, no_room reason)
      → Step s (record s { budget = b; calls = xs ++ ys })
  retries :
      (xs ys : List Call) (bytes current current' : ℕ) (spurious : Bool) (b : Budget)
      → s.calls ≡ xs ++ (in_loop bytes current ∷ ys)
      → reserve_round s.budget bytes current spurious ≡ (b, again current')
      → Step s (record s { budget = b; calls = xs ++ (in_loop bytes current' ∷ ys) })
  reserves :
      (xs ys : List Call) (bytes current : ℕ) (spurious : Bool) (b : Budget)
      → s.calls ≡ xs ++ (in_loop bytes current ∷ ys)
      → reserve_round s.budget bytes current spurious ≡ (b, taken)
      → Step s (record s { budget = b; calls = xs ++ (behind_loop bytes ∷ ys) })
  allocates :
      (xs ys : List Call) (bytes : ℕ) (has_bytes has_buffer : Bool) (b : Budget) (h : Handle)
      (reason : AcquireFailure)
      → s.calls ≡ xs ++ (behind_loop bytes ∷ ys)
      → allocate s.budget bytes has_bytes has_buffer ≡ (b, h, reason)
      → Step s (record s { budget = b; calls = xs ++ ys; handles = h ∷ s.handles })
  resets :
      (xs ys : List Handle) (h h' : Handle) (b : Budget)
      → s.handles ≡ xs ++ (h ∷ ys)
      → reset s.budget h ≡ (b, h')
      → Step s (record s { budget = b; handles = xs ++ (h' ∷ ys) })
  destroys :
      (xs ys : List Handle) (h h' : Handle) (b : Budget)
      → s.handles ≡ xs ++ (h ∷ ys)
      → reset s.budget h ≡ (b, h')
      → Step s (record s { budget = b; handles = xs ++ ys })
  moves :
      (xs ys : List Handle) (h h' other : Handle)
      → s.handles ≡ xs ++ (h ∷ ys)
      → move_from h ≡ (h', other)
      → Step s (record s { handles = xs ++ (other ∷ h' ∷ ys) })
  assigns :
      (xs ys zs : List Handle) (h other h' other' : Handle) (b : Budget)
      → s.handles ≡ xs ++ (h ∷ (ys ++ (other ∷ zs)))
      → assign s.budget h other ≡ (b, h', other')
      → Step s (record s { budget = b; handles = xs ++ (h' ∷ (ys ++ (other' ∷ zs))) })
  assigns_back :
      (xs ys zs : List Handle) (h other h' other' : Handle) (b : Budget)
      → s.handles ≡ xs ++ (other ∷ (ys ++ (h ∷ zs)))
      → assign s.budget h other ≡ (b, h', other')
      → Step s (record s { budget = b; handles = xs ++ (other' ∷ (ys ++ (h' ∷ zs))) })
  measures :
      (xs ys : List Handle) (h : Handle) (buffer : Buffer) (len : ℕ)
      → s.handles ≡ xs ++ (h ∷ ys)
      → h.buffer ≡ some buffer
      → Step s
          (record s { handles = xs ++ (record h { buffer = some (set_length buffer len) } ∷ ys) })

pub data Reachable (max : ℕ) : System → Type 0 where
  fresh : Reachable max (new_system max)
  next : (s t : System) → Reachable max s → Step s t → Reachable max t
