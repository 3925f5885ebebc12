-- ===== src/Tunnel/EventQueue/Stages.antt =====
-- src/tunnel/linux_relay_event_queue.h: how the cells follow the stages of the positions.
use native.Mathlib.Nat.{mod-le, mod-lt, mod-eq_of_lt, mod_self, mod-add-mod, add-mod_right}
use native.Mathlib.Decide.{dec_lt, ℕ_discrete}
use mathlib.Core.Bool.{false≢true}
use tcpquic_proxy.Base.{
  ℕ, ◌+◌, ◌%◌, ◌≤◌, ◌<◌, ◌≡◌, ◌≢◌, refl, sym, ap, ◌∙◌, Bool, true, false, Option, none, some, arith,
  ◌⊎◌, inl, inr, Bool-cases,
}
use tcpquic_proxy.Tunnel.EventQueue.{
  Stage, fresh, writing, publishing, published, reading, releasing, released, Memory, Pc,
  push_check, push_cas, push_write, push_store, pop_check, pop_cas, pop_read, pop_store, got,
  new_memory, cell,
}

abbrev pub is_fresh : Stage → Bool
is_fresh fresh = true
is_fresh _ = false

abbrev pub is_released : Stage → Bool
is_released (released _) = true
is_released _ = false

abbrev pub is_published : Stage → Bool
is_published (published _) = true
is_published _ = false

-- Claimed by a consumer.
abbrev pub is_taken : Stage → Bool
is_taken (reading _ _) = true
is_taken (releasing _ _) = true
is_taken (released _) = true
is_taken _ = false

-- The thread that holds a position.
abbrev pub holder : Stage → Option ℕ
holder (writing i _) = some i
holder (publishing i _) = some i
holder (reading i _) = some i
holder (releasing i _) = some i
holder _ = none

module _ (capacity : ℕ) where
  -- The cell of a position, by its stage.
  abbrev pub At : Memory → ℕ → Stage → Type 0
  At m p fresh = m.sequence (cell capacity p) ≢ p + 1
  At m p (writing _ x) = m.sequence (cell capacity p) ≡ p
  At m p (publishing _ x) =
      (m.sequence (cell capacity p) ≡ p) × (m.event (cell capacity p) ≡ some x)
  At m p (published x) =
      (m.sequence (cell capacity p) ≡ p + 1) × (m.event (cell capacity p) ≡ some x)
  At m p (reading _ x) =
      (m.sequence (cell capacity p) ≡ p + 1) × (m.event (cell capacity p) ≡ some x)
  At m p (releasing _ x) = m.sequence (cell capacity p) ≡ p + 1
  At m p (released x) = Unit

  pub record Cells (m : Memory) : Type 0 where
    pub fresh_above : (p : ℕ) → m.enqueue_pos ≤ p → m.stage p ≡ fresh
    pub used_below : (p : ℕ) → p < m.enqueue_pos → is_fresh (m.stage p) ≡ false
    pub taken_below : (p : ℕ) → p < m.dequeue_pos → is_taken (m.stage p) ≡ true
    pub kept_above : (p : ℕ) → m.dequeue_pos ≤ p → is_taken (m.stage p) ≡ false
    pub alone :
        (p q : ℕ)
        → p < q
        → cell capacity p ≡ cell capacity q
        → is_fresh (m.stage q) ≡ false
        → is_released (m.stage p) ≡ true
    pub stands : (p : ℕ) → At m p (m.stage p)

  -- What a thread knows where it stands.
  abbrev pub Knows : ℕ → Memory → Pc → Type 0
  Knows me m (push_check x p) = p ≤ m.enqueue_pos
  Knows me m (push_cas x p) =
      (p ≤ m.enqueue_pos)
      × (m.enqueue_pos ≡ p
          → (m.sequence (cell capacity p) ≡ p)
            × ((r : ℕ)
                → r < p
                → cell capacity r ≡ cell capacity p
                → is_released (m.stage r) ≡ true))
  Knows me m (push_write x p) = m.stage p ≡ writing me x
  Knows me m (push_store x p) = m.stage p ≡ publishing me x
  Knows me m (pop_check p) = p ≤ m.dequeue_pos
  Knows me m (pop_cas p) =
      (p ≤ m.dequeue_pos) × (m.dequeue_pos ≡ p → is_published (m.stage p) ≡ true)
  Knows me m (pop_read p) = (x : ℕ) × (m.stage p ≡ reading me x)
  Knows me m (pop_store e p) = (x : ℕ) × (m.stage p ≡ releasing me x) × (e ≡ some x)
  Knows me m (got e p) = (x : ℕ) × (m.stage p ≡ released x) × (e ≡ some x)
  Knows me m _ = Unit

  -- Two neighbours stand in two cells.
  pub cell-neighbour : (p : ℕ) → 2 ≤ capacity → cell capacity (p + 1) ≢ cell capacity p
  cell-neighbour p big e =
      let shifted = mod-add-mod p capacity 1 in
      let low = mod-lt p {m = capacity} (omega arith) in
      elim (dec_lt (p % capacity + 1) capacity) [
        | yes below ↦ omega (arith, shifted, e, mod-eq_of_lt below)
        | no last ↦
            let top : p % capacity + 1 ≡ capacity = omega arith in
            let turned = ap (λ n. n % capacity) top in
            omega (arith, shifted, e, turned, mod_self capacity)
      ]

  pub cell-round : (p : ℕ) → cell capacity (p + capacity) ≡ cell capacity p
  cell-round p = add-mod_right p capacity

  pub new-Cells : 2 ≤ capacity → Cells new_memory
  new-Cells big = record {
    fresh_above = λ p h. refl;
    used_below = λ p h. absurd (omega arith);
    taken_below = λ p h. absurd (omega arith);
    kept_above = λ p h. refl;
    alone = λ p q h c f. cc;
    stands = λ p e. omega (arith, mod-le p capacity);
  }

  At-released : (m : Memory) (q : ℕ) (st : Stage) → is_released st ≡ true → At m q st
  At-released m q st e = ground arith

  At-fresh :
      (m : Memory) (q : ℕ) (st : Stage)
      → is_fresh st ≡ true
      → m.sequence (cell capacity q) ≢ q + 1
      → At m q st
  At-fresh m q fresh e h = h
  At-fresh m q (writing _ x) e h = cc
  At-fresh m q (publishing _ x) e h = cc
  At-fresh m q (published x) e h = cc
  At-fresh m q (reading _ x) e h = cc
  At-fresh m q (releasing _ x) e h = cc
  At-fresh m q (released x) e h = cc

  pub At-same :
      (m n : Memory) (q : ℕ) (st : Stage)
      → n.sequence (cell capacity q) ≡ m.sequence (cell capacity q)
      → n.event (cell capacity q) ≡ m.event (cell capacity q)
      → At m q st
      → At n q st
  At-same m n q fresh s e h = λ t. h (sym s ∙ t)
  At-same m n q (writing _ x) s e h = s ∙ h
  At-same m n q (publishing _ x) s e h = (s ∙ h.0, e ∙ h.1)
  At-same m n q (published x) s e h = (s ∙ h.0, e ∙ h.1)
  At-same m n q (reading _ x) s e h = (s ∙ h.0, e ∙ h.1)
  At-same m n q (releasing _ x) s e h = s ∙ h
  At-same m n q (released x) s e h = tt

  -- Another position in the cell of a held one is released or fresh.
  elsewhere :
      (m : Memory) (p q : ℕ)
      → Cells m
      → is_fresh (m.stage p) ≡ false
      → is_released (m.stage p) ≡ false
      → q ≢ p
      → cell capacity q ≡ cell capacity p
      → (is_released (m.stage q) ≡ true) ⊎ (is_fresh (m.stage q) ≡ true)
  elsewhere m p q v used held other same = elim (dec_lt q p) [
    | yes before ↦ inl (v.alone q p before same used)
    | no after ↦ elim (Bool-cases (is_fresh (m.stage q))) [
      | inl e ↦ inr e
      | inr e ↦ absurd (false≢true (sym held ∙ v.alone p q (omega arith) (sym same) e))
    ]
  ]

  -- A change of the cell of a held position p leaves the other positions standing, if it writes no
  -- sequence that a fresh position waits for.
  pub stands-others :
      (m n : Memory) (p : ℕ)
      → Cells m
      → is_fresh (m.stage p) ≡ false
      → is_released (m.stage p) ≡ false
      → ((c : ℕ) → c ≢ cell capacity p → (n.sequence c ≡ m.sequence c) × (n.event c ≡ m.event c))
      → ((q : ℕ)
          → cell capacity q ≡ cell capacity p
          → is_fresh (m.stage q) ≡ true
          → n.sequence (cell capacity q) ≢ q + 1)
      → (q : ℕ) → q ≢ p
      → At n q (m.stage q)
  stands-others m n p v used held kept waits q other =
      elim (ℕ_discrete (cell capacity q) (cell capacity p)) [
        | yes same ↦ elim (elsewhere m p q v used held other same) [
          | inl e ↦ At-released n q (m.stage q) e
          | inr e ↦ At-fresh n q (m.stage q) e (waits q same e)
        ]
        | no apart ↦
            let (s, e) = kept (cell capacity q) apart in At-same m n q (m.stage q) s e (v.stands q)
      ]
