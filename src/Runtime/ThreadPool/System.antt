-- ===== src/Runtime/ThreadPool/System.antt =====
-- src/runtime/thread_pool.cpp: the workers, and any number of threads that use the pool.
use tcpquic_proxy.Base.{ℕ, ◌+◌, ◌≡◌, true, some, List, [], ◌∷◌, ◌++◌, replicate}
use tcpquic_proxy.Runtime.ThreadPool.{
  ThreadPool, start_pool, stop_pool, submit, returns, takes, take_task,
}

pub data Doing : Type 0 where
  idle : Doing
  busy : ℕ → Doing
  ended : Doing

-- `born` is the number of the call of Start that started the worker.
pub record Worker : Type 0 where
  pub born : ℕ
  pub doing : Doing

-- The tasks that Submit has accepted and that workers have taken, oldest first, and those that have
-- run.
pub record System : Type 0 where
  pub pool : ThreadPool
  pub starts : ℕ
  pub workers : List Worker
  pub accepted : List ℕ
  pub taken : List ℕ
  pub finished : List ℕ

abbrev pub new_system : ThreadPool → System
new_system p = record {
  pool = p;
  starts = 0;
  workers = [];
  accepted = [];
  taken = [];
  finished = [];
}

pub data Step (s : System) : System → Type 0 where
  begins :
      (p : ThreadPool) (n : ℕ)
      → start_pool s.pool ≡ (p, some n)
      → Step s (record s {
        pool = p;
        starts = s.starts + 1;
        workers = replicate n (record { born = s.starts + 1; doing = idle }) ++ s.workers;
      })
  stops : (p : ThreadPool) → stop_pool s.pool ≡ (p, true) → Step s (record s { pool = p })
  submits :
      (p : ThreadPool) (task : ℕ)
      → submit s.pool task ≡ (p, true)
      → Step s (record s { pool = p; accepted = s.accepted ++ (task ∷ []) })
  picks :
      (p : ThreadPool) (task born : ℕ) (xs ys : List Worker)
      → s.workers ≡ xs ++ (record { born = born; doing = idle } ∷ ys)
      → take_task s.pool ≡ (p, takes task)
      → Step s (record s {
        pool = p;
        workers = xs ++ (record { born = born; doing = busy task } ∷ ys);
        taken = s.taken ++ (task ∷ []);
      })
  ends :
      (p : ThreadPool) (born : ℕ) (xs ys : List Worker)
      → s.workers ≡ xs ++ (record { born = born; doing = idle } ∷ ys)
      → take_task s.pool ≡ (p, returns)
      → Step s (record s { pool = p; workers = xs ++ (record { born = born; doing = ended } ∷ ys) })
  finishes :
      (task born : ℕ) (xs ys : List Worker)
      → s.workers ≡ xs ++ (record { born = born; doing = busy task } ∷ ys)
      → Step s (record s {
        workers = xs ++ (record { born = born; doing = idle } ∷ ys);
        finished = task ∷ s.finished;
      })

pub data Reachable (p : ThreadPool) : System → Type 0 where
  fresh : Reachable p (new_system p)
  next : (s t : System) → Reachable p s → Step s t → Reachable p t
