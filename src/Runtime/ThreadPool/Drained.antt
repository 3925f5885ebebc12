-- ===== src/Runtime/ThreadPool/Drained.antt =====
-- src/runtime/thread_pool.cpp: the tasks that are accepted are run.
use mathlib.Core.List.{append_assoc, append-nil}
use tcpquic_proxy.Base.{
  ℕ, zero, suc, ◌+◌, ◌≤◌, ◌<◌, ◌≡◌, ◌≢◌, refl, sym, ap, ◌∙◌, subst, true, List, [], ◌∷◌, ◌++◌, ◌==◌,
  if◌then◌else◌, All, Any, replicate, arith, ◌⊎◌, inl, inr,
}
use tcpquic_proxy.Base.Sums.{total, total-middle, total-append, middle-All, All-middle}
use tcpquic_proxy.Base.Select.{All-append, All-imply}
use tcpquic_proxy.Runtime.ThreadPool.{
  ThreadPool, new_pool, start_pool, stop_pool, submit, returns, takes, take_task,
}
use tcpquic_proxy.Runtime.ThreadPool.System.{
  Doing, idle, busy, ended, Worker, System, Step, begins, stops, submits, picks, ends, finishes,
  Reachable, fresh, next,
}

abbrev pub is_task : ℕ → ℕ → ℕ
is_task x task = if task == x then 1 else 0

-- How often the task occurs.
abbrev pub count : ℕ → List ℕ → ℕ
count x = total (is_task x)

abbrev runs_of : ℕ → Doing → ℕ
runs_of x (busy task) = is_task x task
runs_of x _ = 0

abbrev runs : ℕ → Worker → ℕ
runs x w = runs_of x w.doing

-- The worker is of an earlier start, or has not ended.
abbrev IsOn : ℕ → Worker → Type 0
IsOn starts w = (w.born < starts) ⊎ (w.doing ≢ ended)

abbrev IsBorn : ℕ → Worker → Type 0
IsBorn starts w = w.born ≤ starts

abbrev IsDrained : System → Type 0
IsDrained s = (s.pool.stop_requested ≡ true) × (s.pool.queue ≡ []) ⊎ All (IsOn s.starts) s.workers

abbrev IsCounted : System → Type 0
IsCounted s =
    (s.accepted ≡ s.taken ++ s.pool.queue)
    × ((x : ℕ) → count x s.taken ≡ count x s.finished + total (runs x) s.workers)

replicate-runs : (x n : ℕ) (w : Worker) → runs x w ≡ 0 → total (runs x) (replicate n w) ≡ 0
replicate-runs x zero w e = refl
replicate-runs x (suc n) w e = omega (arith, e, replicate-runs x n w e)

take_lem :
    (p p' : ThreadPool) (task : ℕ)
    → take_task p ≡ (p', takes task)
    → (p.queue ≡ task ∷ p'.queue) × (p'.stop_requested ≡ p.stop_requested)
unfolding take_task
take_lem p p' task e = ground arith

return_lem :
    (p p' : ThreadPool)
    → take_task p ≡ (p', returns)
    → (p ≡ p') × (p.queue ≡ []) × (p.stop_requested ≡ true)
unfolding take_task
return_lem p p' e = ground arith

step-IsCounted : (s t : System) → IsCounted s → Step s t → IsCounted t
unfolding start_pool stop_pool submit take_task
step-IsCounted s t (a, c) (begins p n e) = (
  a ∙ ap (λ q. s.taken ++ q) (ground arith),
  λ x.
      let rest =
        total-append (runs x) (replicate n (record { born = s.starts + 1; doing = idle }))
          s.workers in
      let none_runs = replicate-runs x n (record { born = s.starts + 1; doing = idle }) refl in
      omega (arith, c x, rest, none_runs),
)
step-IsCounted s t (a, c) (stops p e) = (a ∙ ap (λ q. s.taken ++ q) (ground arith), c)
step-IsCounted s t (a, c) (submits p task e) =
    let q : p.queue ≡ s.pool.queue ++ (task ∷ []) = ground arith in
    (
      ap (λ l. l ++ (task ∷ [])) a
          ∙ append_assoc s.taken s.pool.queue (task ∷ [])
          ∙ ap (λ l. s.taken ++ l) (sym q),
      c,
    )
step-IsCounted s t (a, c) (picks p task born xs ys e r) =
    let (q, _) = take_lem s.pool p task r in
    (
      a ∙ ap (λ l. s.taken ++ l) q ∙ sym (append_assoc s.taken (task ∷ []) p.queue),
      λ x.
          let before =
            ap (total (runs x)) e
            ∙ total-middle (runs x) xs (record { born = born; doing = idle }) ys in
          let after = total-middle (runs x) xs (record { born = born; doing = busy task }) ys in
          let more = total-append (is_task x) s.taken (task ∷ []) in
          omega (arith, c x, before, after, more),
    )
step-IsCounted s t (a, c) (ends p born xs ys e r) =
    let (same, _, _) = return_lem s.pool p r in
    (
      a ∙ ap (λ q. s.taken ++ q.queue) same,
      λ x.
          let before =
            ap (total (runs x)) e
            ∙ total-middle (runs x) xs (record { born = born; doing = idle }) ys in
          let after = total-middle (runs x) xs (record { born = born; doing = ended }) ys in
          omega (arith, c x, before, after),
    )
step-IsCounted s t (a, c) (finishes task born xs ys e) = (
  a,
  λ x.
      let before =
        ap (total (runs x)) e
        ∙ total-middle (runs x) xs (record { born = born; doing = busy task }) ys in
      let after = total-middle (runs x) xs (record { born = born; doing = idle }) ys in
      omega (arith, c x, before, after),
)

replicate-IsOn :
    (starts n : ℕ) → All (IsOn starts) (replicate n (record { born = starts; doing = idle }))
replicate-IsOn starts zero = tt
replicate-IsOn starts (suc n) = (inr (λ e. cc), replicate-IsOn starts n)

replicate-IsBorn :
    (starts n : ℕ) → All (IsBorn starts) (replicate n (record { born = starts; doing = idle }))
replicate-IsBorn starts zero = tt
replicate-IsBorn starts (suc n) = (omega arith, replicate-IsBorn starts n)

step-IsBorn :
    (s t : System) → All (IsBorn s.starts) s.workers → Step s t → All (IsBorn t.starts) t.workers
step-IsBorn s t w (begins p n e) =
    All-append (IsBorn (s.starts + 1)) _ s.workers (replicate-IsBorn (s.starts + 1) n)
      (All-imply (IsBorn s.starts) (IsBorn (s.starts + 1)) s.workers (λ u h. omega arith) w)
step-IsBorn s t w (stops p e) = w
step-IsBorn s t w (submits p task e) = w
step-IsBorn s t w (picks p task born xs ys e r) =
    let (h, hs) =
      middle-All (IsBorn s.starts) xs (record { born = born; doing = idle }) ys
        (subst (All (IsBorn s.starts)) e w) in
    All-middle (IsBorn s.starts) xs (record { born = born; doing = busy task }) ys h hs
step-IsBorn s t w (ends p born xs ys e r) =
    let (h, hs) =
      middle-All (IsBorn s.starts) xs (record { born = born; doing = idle }) ys
        (subst (All (IsBorn s.starts)) e w) in
    All-middle (IsBorn s.starts) xs (record { born = born; doing = ended }) ys h hs
step-IsBorn s t w (finishes task born xs ys e) =
    let (h, hs) =
      middle-All (IsBorn s.starts) xs (record { born = born; doing = busy task }) ys
        (subst (All (IsBorn s.starts)) e w) in
    All-middle (IsBorn s.starts) xs (record { born = born; doing = idle }) ys h hs

step-IsDrained :
    (s t : System) → All (IsBorn s.starts) s.workers → IsDrained s → Step s t → IsDrained t
unfolding start_pool stop_pool submit
step-IsDrained s t w d (begins p n e) = inr (
    All-append (IsOn (s.starts + 1)) _ s.workers (replicate-IsOn (s.starts + 1) n)
      (All-imply (IsBorn s.starts) (IsOn (s.starts + 1)) s.workers (λ u h. inl (omega arith)) w))
step-IsDrained s t w (inl d) (stops p e) = inl (ground arith)
step-IsDrained s t w (inr d) (stops p e) = inr d
step-IsDrained s t w (inl d) (submits p task e) = absurd (ground arith)
step-IsDrained s t w (inr d) (submits p task e) = inr d
step-IsDrained s t w (inl d) (picks p task born xs ys e r) =
    let (q, _) = take_lem s.pool p task r in absurd (ground arith)
step-IsDrained s t w (inr d) (picks p task born xs ys e r) =
    let (h, hs) =
      middle-All (IsOn s.starts) xs (record { born = born; doing = idle }) ys
        (subst (All (IsOn s.starts)) e d) in
    inr (
      All-middle (IsOn s.starts) xs (record { born = born; doing = busy task }) ys (inr (λ e. cc))
        hs)
step-IsDrained s t w d (ends p born xs ys e r) =
    let (same, empty, stop) = return_lem s.pool p r in inl (ground arith)
step-IsDrained s t w (inl d) (finishes task born xs ys e) = inl d
step-IsDrained s t w (inr d) (finishes task born xs ys e) =
    let (h, hs) =
      middle-All (IsOn s.starts) xs (record { born = born; doing = busy task }) ys
        (subst (All (IsOn s.starts)) e d) in
    inr (All-middle (IsOn s.starts) xs (record { born = born; doing = idle }) ys (inr (λ e. cc)) hs)

Reachable-kept :
    (workers hw : ℕ) (s : System)
    → Reachable (new_pool workers hw) s
    → IsCounted s × All (IsBorn s.starts) s.workers × IsDrained s
unfolding new_pool
Reachable-kept workers hw _ fresh = ((refl, λ x. omega arith), tt, inr tt)
Reachable-kept workers hw _ (next s t before step) =
    let (c, w, d) = Reachable-kept workers hw s before in
    (step-IsCounted s t c step, step-IsBorn s t w step, step-IsDrained s t w d step)

-- A worker of the last start.
abbrev pub IsLast : ℕ → Worker → Type 0
IsLast starts w = w.born ≡ starts

abbrev pub IsEnded : Worker → Type 0
IsEnded w = w.doing ≡ ended

ended-runs : (x : ℕ) (ws : List Worker) → All IsEnded ws → total (runs x) ws ≡ 0
ended-runs x [] h = refl
ended-runs x (w ∷ ws) (h, hs) =
    let none_runs = ap (runs_of x) h in omega (arith, none_runs, ended-runs x ws hs)

last_ended :
    (starts : ℕ) (ws : List Worker)
    → All (IsOn starts) ws
    → All IsEnded ws
    → Any (IsLast starts) ws
    → ⊥
last_ended starts [] on h k = elim k [ ]
last_ended starts (w ∷ ws) (inl o, os) (h, hs) (inl k) = omega arith
last_ended starts (w ∷ ws) (inr o, os) (h, hs) (inl k) = o h
last_ended starts (w ∷ ws) (o, os) (h, hs) (inr k) = last_ended starts ws os hs k

-- In every state that any number of threads reach which start and stop the pool and submit to it,
-- once all workers have ended, one of the last start at least among them: every accepted task
-- has been taken, in the order in which they were accepted, and each has run as often as it was
-- accepted.
pub Reachable-finished :
    (workers hw : ℕ) (s : System) (x : ℕ)
    → Reachable (new_pool workers hw) s
    → All IsEnded s.workers
    → Any (IsLast s.starts) s.workers
    → (s.taken ≡ s.accepted) × (count x s.finished ≡ count x s.accepted)
Reachable-finished workers hw s x before over last =
    let ((order, counted), _, drained) = Reachable-kept workers hw s before in
    elim drained [
      | inr on ↦ absurd (last_ended s.starts s.workers on over last)
      | inl (stop, empty) ↦
          let same : s.accepted ≡ s.taken =
            order ∙ ap (λ q. s.taken ++ q) empty ∙ append-nil s.taken in
          let idle_all = ended-runs x s.workers over in
          let taken_all = ap (count x) same in
          (sym same, omega (arith, counted x, idle_all, taken_all))
    ]
