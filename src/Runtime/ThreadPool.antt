-- ===== src/Runtime/ThreadPool.antt =====
-- src/runtime/thread_pool.cpp: the sections of TqThreadPool under its lock. A task is a number, 0 is an
-- empty function.
pub mod System
pub mod Drained
use tcpquic_proxy.Base.{
  ℕ, ◌%◌, ◌^◌, Bool, true, false, not, ◌&&◌, ◌||◌, Option, none, some, List, [], ◌∷◌, ◌++◌, ltb,
  ◌==◌, if◌then◌else◌, min,
}

-- The fields of TqThreadPool, less its threads.
pub record ThreadPool : Type 0 where
  pub worker_count : ℕ
  pub running : Bool
  pub stop_requested : Bool
  pub queue : List ℕ

-- ResolveWorkerCount, on a machine with `hw` processors.
unfoldable pub resolve_worker_count : ℕ → ℕ → ℕ
resolve_worker_count workers hw =
    if not (workers == 0) then workers else min (if hw == 0 then 1 else hw) 64

unfoldable pub new_pool : ℕ → ℕ → ThreadPool
new_pool workers hw = record {
  worker_count = resolve_worker_count workers hw;
  running = false;
  stop_requested = false;
  queue = [];
}

-- TqThreadPool::Start: the workers that it starts, if it does not return at once.
unfoldable pub start_pool : ThreadPool → ThreadPool × Option ℕ
start_pool p =
    if p.running
    then (p, none)
    else (record p { running = true; stop_requested = false }, some p.worker_count)

-- TqThreadPool::Stop: whether it goes on to join the workers.
unfoldable pub stop_pool : ThreadPool → ThreadPool × Bool
stop_pool p =
    if not p.running
    then (p, false)
    else (record p { running = false; stop_requested = true }, true)

-- TqThreadPool::Submit
unfoldable pub submit : ThreadPool → ℕ → ThreadPool × Bool
submit p fn =
    if fn == 0
    then (p, false)
    else if not p.running || p.stop_requested
    then (p, false)
    else (record p { queue = p.queue ++ (fn ∷ []) }, true)

-- The section of WorkerLoop: the worker waits, returns, or has a task.
pub data Taken : Type 0 where
  waits : Taken
  returns : Taken
  takes : ℕ → Taken

unfoldable pub take_task : ThreadPool → ThreadPool × Taken
take_task p = elim p.queue [
  | [] ↦ (p, if p.stop_requested then returns else waits)
  | task ∷ queue ↦ (record p { queue = queue }, takes task)
]
