-- ===== src/Examples/ThreadPool.antt =====
-- src/runtime/thread_pool.cpp: one worker that runs a task, and a stop.
use tcpquic_proxy.Base.{◌≡◌, refl, true, false, [], ◌∷◌, inl}
use tcpquic_proxy.Runtime.ThreadPool.{
  ThreadPool, new_pool, resolve_worker_count, start_pool, stop_pool, submit, take_task,
}
use tcpquic_proxy.Runtime.ThreadPool.System.{
  idle, busy, ended, System, new_system, begins, stops, submits, picks, ends, finishes, Reachable,
  fresh, next,
}
use tcpquic_proxy.Runtime.ThreadPool.Drained.{count, Reachable-finished}

abbrev pool : ThreadPool
pool = record { worker_count = 1; running = true; stop_requested = false; queue = [] }

abbrev filled : ThreadPool
filled = record pool { queue = 7 ∷ [] }

abbrev stopped : ThreadPool
stopped = record pool { running = false; stop_requested = true }

abbrev started : System
started = record {
  pool = pool;
  starts = 1;
  workers = record { born = 1; doing = idle } ∷ [];
  accepted = [];
  taken = [];
  finished = [];
}

abbrev submitted : System
submitted = record started { pool = filled; accepted = 7 ∷ [] }

abbrev working : System
working = record submitted {
  pool = pool;
  workers = record { born = 1; doing = busy 7 } ∷ [];
  taken = 7 ∷ [];
}

abbrev worked : System
worked = record working { workers = record { born = 1; doing = idle } ∷ []; finished = 7 ∷ [] }

abbrev stopping : System
stopping = record worked { pool = stopped }

abbrev joined : System
joined = record stopping { workers = record { born = 1; doing = ended } ∷ [] }

reached : Reachable (new_pool 1 0) joined
unfolding new_pool resolve_worker_count start_pool stop_pool submit take_task
reached =
    next stopping joined
      (next worked stopping
        (next working worked
          (next submitted working
            (next started submitted
              (next (new_system (new_pool 1 0)) started fresh (begins pool 1 refl))
              (submits filled 7 refl))
            (picks pool 7 1 [] [] refl refl))
          (finishes 7 1 [] [] refl))
        (stops stopped refl))
      (ends stopped 1 [] [] refl refl)

Reachable-finished_example :
    (joined.taken ≡ joined.accepted) × (count 7 joined.finished ≡ count 7 joined.accepted)
Reachable-finished_example = Reachable-finished 1 0 joined 7 reached (refl, tt) (inl refl)
