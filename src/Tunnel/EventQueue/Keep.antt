-- ===== src/Tunnel/EventQueue/Keep.antt =====
-- src/tunnel/linux_relay_event_queue.h: what a step of the thread that holds a position keeps.
use mathlib.Core.Bool.{false≢true}
use tcpquic_proxy.Base.{
  ℕ, ◌+◌, ◌≡◌, ◌≢◌, sym, subst, ◌∙◌, true, false, Option, arith, ◌==◌, ==_iff, inl, inr, Bool-cases,
  update,
}
use tcpquic_proxy.Tunnel.EventQueue.{
  Stage, fresh, writing, publishing, published, reading, releasing, released, Memory, cell,
}
use tcpquic_proxy.Tunnel.EventQueue.Stages.{
  is_fresh, is_released, is_taken, At, Cells, stands-others,
}

module _ (capacity : ℕ) where
  pub At-update :
      (n : Memory) (f : ℕ → Stage) (p : ℕ) (st : Stage)
      → At capacity n p st
      → ((q : ℕ) → q ≢ p → At capacity n q (f q))
      → (q : ℕ) → At capacity n q (update f p st q)
  At-update n f p st here there q = elim (Bool-cases (q == p)) [
    | inl e ↦ rw e (subst (λ r. At capacity n r st) (sym ((==_iff q p).0 e)) here)
    | inr e ↦ rw e (there q (λ t. absurd (false≢true (sym e ∙ (==_iff q p).1 t))))
  ]

  pub fresh-waits :
      (m : Memory) (q : ℕ) (st : Stage)
      → is_fresh st ≡ true
      → At capacity m q st
      → m.sequence (cell capacity q) ≢ q + 1
  fresh-waits m q fresh e h = h
  fresh-waits m q (writing o x) e h = cc
  fresh-waits m q (publishing o x) e h = cc
  fresh-waits m q (published x) e h = cc
  fresh-waits m q (reading o x) e h = cc
  fresh-waits m q (releasing o x) e h = cc
  fresh-waits m q (released x) e h = cc

  abbrev pub changed : Memory → ℕ → Stage → (ℕ → ℕ) → (ℕ → Option ℕ) → Memory
  changed m p st sequence event = record m {
    sequence = sequence;
    event = event;
    stage = update m.stage p st;
  }

  -- The holder of p moves it on to the stage st, and changes no cell but that of p.
  pub keep-Cells :
      (m : Memory) (p : ℕ) (st : Stage) (sequence : ℕ → ℕ) (event : ℕ → Option ℕ)
      → Cells capacity m
      → (is_fresh (m.stage p) ≡ false) × (is_released (m.stage p) ≡ false)
      → (is_fresh st ≡ false) × (is_taken st ≡ is_taken (m.stage p))
      → At capacity (changed m p st sequence event) p st
      → ((c : ℕ) → c ≢ cell capacity p → (sequence c ≡ m.sequence c) × (event c ≡ m.event c))
      → ((q : ℕ)
          → cell capacity q ≡ cell capacity p
          → is_fresh (m.stage q) ≡ true
          → sequence (cell capacity q) ≢ q + 1)
      → Cells capacity (changed m p st sequence event)
  keep-Cells m p st sequence event v (used, held) (used', taken) here kept waits = record {
    fresh_above = λ q h. ground (arith, v.fresh_above q, v.fresh_above p);
    used_below = λ q h. ground (arith, v.used_below q);
    taken_below = λ q h. ground (arith, v.taken_below q);
    kept_above = λ q h. ground (arith, v.kept_above q);
    alone = λ a b low same used_b. ground (arith, v.alone a b low same);
    stands =
        At-update (changed m p st sequence event) m.stage p st here
          (stands-others capacity m (changed m p st sequence event) p v used held kept waits);
  }
