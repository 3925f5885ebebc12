-- ===== src/Tunnel/Buffer/Covered.antt =====
-- src/tunnel/relay_buffer.cpp: the pending bytes of the budget.
use tcpquic_proxy.Base.{
  ℕ, ◌+◌, ◌-◌, ◌^◌, ◌≤◌, ◌<◌, ◌≡◌, refl, Bool, true, false, none, some, List, [], ◌∷◌, All, arith,
  subst, ◌≢◌, ◌⊎◌,
}
use tcpquic_proxy.Base.Sums.{
  total, total-middle, middle-All, All-middle, total-two, two-All, All-two,
}
use tcpquic_proxy.Tunnel.Buffer.{
  Budget, Handle, set_length, release, reset, move_from, assign, AcquireFailure, begin, Round,
  no_room, again, taken, reserve_round, allocate,
}
use tcpquic_proxy.Tunnel.Buffer.System.{
  Call, in_loop, behind_loop, System, Step, begins, refused, retries, reserves, allocates, resets,
  destroys, moves, assigns, assigns_back, measures, Reachable, fresh, next,
}

abbrev pub capacity_of : Handle → ℕ
capacity_of h = elim h.buffer [ none ↦ 0 | some b ↦ b.capacity ]

abbrev pub reserved_of : Handle → ℕ
reserved_of h = h.reserved

abbrev pub used_of : Handle → ℕ
used_of h = elim h.buffer [ none ↦ 0 | some b ↦ b.used ]

abbrev pub has_buffer : Handle → Bool
has_buffer h = elim h.buffer [ none ↦ false | some b ↦ true ]

abbrev pub reserved_by : Call → ℕ
reserved_by (in_loop bytes current) = 0
reserved_by (behind_loop bytes) = bytes

abbrev pub bytes_of : Call → ℕ
bytes_of (in_loop bytes current) = bytes
bytes_of (behind_loop bytes) = bytes

-- A handle has reserved what its buffer holds.
abbrev pub IsWhole : Handle → Type 0
IsWhole h =
    (h.has_budget ≡ has_buffer h) × (h.reserved ≡ capacity_of h) × (used_of h ≤ capacity_of h)

abbrev pub IsCounted : ℕ → System → Type 0
IsCounted max s =
    (s.budget.pending ≡ total reserved_by s.calls + total reserved_of s.handles)
    × (s.budget.pending ≤ max)
    × (s.budget.max ≡ max)

-- A request whose size and the budget add up without a wrap.
abbrev pub Fits : ℕ → ℕ → Type 0
Fits max bytes = bytes + max < 2 ^ 64

abbrev pub IsSmall : ℕ → Call → Type 0
IsSmall max c = Fits max (bytes_of c)

abbrev pub IsCovered : ℕ → System → Type 0
IsCovered max s = IsCounted max s × All IsWhole s.handles × All (IsSmall max) s.calls

pub reset_lem :
    (b : Budget) (h : Handle) (b' : Budget) (h' : Handle)
    → reset b h ≡ (b', h')
    → IsWhole h
    → h.reserved ≤ b.pending
    → b.pending < 2 ^ 64
    → (b'.pending ≡ b.pending - h.reserved)
      × (b'.max ≡ b.max)
      × (h'.reserved ≡ 0)
      × (h'.buffer ≡ none)
      × IsWhole h'
unfolding reset release
reset_lem b h b' h' e (x, y, z) low small = ground arith

pub round_lem :
    (max bytes current : ℕ) (spurious : Bool) (b b' : Budget) (r : Round)
    → reserve_round b bytes current spurious ≡ (b', r)
    → max < 2 ^ 64
    → Fits max bytes
    → b.max ≡ max
    → b.pending ≤ max
    → (b'.max ≡ max)
      × (b'.pending ≤ max)
      × ((b' ≡ b) × (r ≢ taken) ⊎ (b'.pending ≡ b.pending + bytes) × (r ≡ taken))
unfolding reserve_round
round_lem max bytes current spurious b b' r e m small low top = ground arith

allocate_lem :
    (bytes : ℕ) (has_bytes has_buffer : Bool) (b b' : Budget) (h : Handle) (reason : AcquireFailure)
    → allocate b bytes has_bytes has_buffer ≡ (b', h, reason)
    → bytes ≤ b.pending
    → b.pending < 2 ^ 64
    → (b'.max ≡ b.max)
      × (b'.pending + bytes ≡ b.pending + h.reserved)
      × (b'.pending ≤ b.pending)
      × IsWhole h
unfolding allocate release
allocate_lem bytes has_bytes has_buffer b b' h reason e low small = ground arith

assign_lem :
    (b : Budget) (h other : Handle) (b' : Budget) (h' other' : Handle)
    → assign b h other ≡ (b', h', other')
    → IsWhole h
    → IsWhole other
    → h.reserved ≤ b.pending
    → b.pending < 2 ^ 64
    → (b'.pending ≡ b.pending - h.reserved)
      × (b'.max ≡ b.max)
      × (h'.reserved ≡ other.reserved)
      × (other'.reserved ≡ 0)
      × IsWhole h'
      × IsWhole other'
unfolding assign reset release
assign_lem b h other b' h' other' e (x, y, z) (u, v, w) low small = ground arith

step-IsCovered :
    (max : ℕ) (s t : System)
    → max < 2 ^ 64
    → IsCovered max s
    → All (Fits max) t.requests
    → Step s t
    → IsCovered max t
unfolding begin move_from set_length
step-IsCovered max s t m (c, w, k) f (begins bytes current e) = (ground arith, w, (f.0, k))
step-IsCovered max s t m (c, w, k) f (refused xs ys bytes current spurious b reason e r) =
    let at =
      middle-All (IsSmall max) xs (in_loop bytes current) ys (subst (All (IsSmall max)) e k) in
    let sum = total-middle reserved_by xs (in_loop bytes current) ys in
    let on = round_lem max bytes current spurious s.budget b (no_room reason) r m at.0 c.2 c.1 in
    (ground arith, w, at.1)
step-IsCovered max s t m (c, w, k) f (retries xs ys bytes current current' spurious b e r) =
    let at =
      middle-All (IsSmall max) xs (in_loop bytes current) ys (subst (All (IsSmall max)) e k) in
    let sum = total-middle reserved_by xs (in_loop bytes current) ys in
    let sum' = total-middle reserved_by xs (in_loop bytes current') ys in
    let on = round_lem max bytes current spurious s.budget b (again current') r m at.0 c.2 c.1 in
    (ground arith, w, All-middle (IsSmall max) xs (in_loop bytes current') ys at.0 at.1)
step-IsCovered max s t m (c, w, k) f (reserves xs ys bytes current spurious b e r) =
    let at =
      middle-All (IsSmall max) xs (in_loop bytes current) ys (subst (All (IsSmall max)) e k) in
    let sum = total-middle reserved_by xs (in_loop bytes current) ys in
    let sum' = total-middle reserved_by xs (behind_loop bytes) ys in
    let on = round_lem max bytes current spurious s.budget b taken r m at.0 c.2 c.1 in
    (ground arith, w, All-middle (IsSmall max) xs (behind_loop bytes) ys at.0 at.1)
step-IsCovered max s t m (c, w, k) f (allocates xs ys bytes has_bytes has_buffer b h reason e r) =
    let at = middle-All (IsSmall max) xs (behind_loop bytes) ys (subst (All (IsSmall max)) e k) in
    let sum = total-middle reserved_by xs (behind_loop bytes) ys in
    let low : bytes ≤ s.budget.pending = ground arith in
    let on = allocate_lem bytes has_bytes has_buffer s.budget b h reason r low (omega arith) in
    (ground arith, (on.3, w), at.1)
step-IsCovered max s t m (c, w, k) f (resets xs ys h h' b e r) =
    let at = middle-All IsWhole xs h ys (subst (All IsWhole) e w) in
    let sum = total-middle reserved_of xs h ys in
    let sum' = total-middle reserved_of xs h' ys in
    let low : h.reserved ≤ s.budget.pending = ground arith in
    let on = reset_lem s.budget h b h' r at.0 low (omega arith) in
    (ground arith, All-middle IsWhole xs h' ys on.4 at.1, k)
step-IsCovered max s t m (c, w, k) f (destroys xs ys h h' b e r) =
    let at = middle-All IsWhole xs h ys (subst (All IsWhole) e w) in
    let sum = total-middle reserved_of xs h ys in
    let low : h.reserved ≤ s.budget.pending = ground arith in
    let on = reset_lem s.budget h b h' r at.0 low (omega arith) in (ground arith, at.1, k)
step-IsCovered max s t m (c, w, k) f (moves xs ys h h' other e r) =
    let at = middle-All IsWhole xs h ys (subst (All IsWhole) e w) in
    let sum = total-middle reserved_of xs h ys in
    let sum' = total-middle reserved_of xs other (h' ∷ ys) in
    let sum'' = total-middle reserved_of xs h' ys in
    let first : IsWhole other = ground arith in
    let second : IsWhole h' = ground arith in
    (
      ground arith,
      All-middle IsWhole xs other (h' ∷ ys) first (All-middle IsWhole xs h' ys second at.1),
      k,
    )
step-IsCovered max s t m (c, w, k) f (assigns xs ys zs h other h' other' b e r) =
    let at = two-All IsWhole xs h ys other zs (subst (All IsWhole) e w) in
    let sum = total-two reserved_of xs h ys other zs in
    let sum' = total-two reserved_of xs h' ys other' zs in
    let low : h.reserved ≤ s.budget.pending = ground arith in
    let on = assign_lem s.budget h other b h' other' r at.0 at.1 low (omega arith) in
    (ground arith, All-two IsWhole xs h' ys other' zs on.4 on.5 at.2, k)
step-IsCovered max s t m (c, w, k) f (assigns_back xs ys zs h other h' other' b e r) =
    let at = two-All IsWhole xs other ys h zs (subst (All IsWhole) e w) in
    let sum = total-two reserved_of xs other ys h zs in
    let sum' = total-two reserved_of xs other' ys h' zs in
    let low : h.reserved ≤ s.budget.pending = ground arith in
    let on = assign_lem s.budget h other b h' other' r at.1 at.0 low (omega arith) in
    (ground arith, All-two IsWhole xs other' ys h' zs on.5 on.4 at.2, k)
step-IsCovered max s t m (c, w, k) f (measures xs ys h buffer len e r) =
    let at = middle-All IsWhole xs h ys (subst (All IsWhole) e w) in
    let h' : Handle = record h { buffer = some (set_length buffer len) } in
    let sum = total-middle reserved_of xs h ys in
    let sum' = total-middle reserved_of xs h' ys in
    let whole : IsWhole h' = ground arith in
    (ground arith, All-middle IsWhole xs h' ys whole at.1, k)

-- What was asked for before.
requests-All : (P : ℕ → Type 0) (s t : System) → Step s t → All P t.requests → All P s.requests
requests-All P s t (begins bytes current e) f = f.1
requests-All P s t (refused _ _ _ _ _ _ _ _ _) f = f
requests-All P s t (retries _ _ _ _ _ _ _ _ _) f = f
requests-All P s t (reserves _ _ _ _ _ _ _ _) f = f
requests-All P s t (allocates _ _ _ _ _ _ _ _ _ _) f = f
requests-All P s t (resets _ _ _ _ _ _ _) f = f
requests-All P s t (destroys _ _ _ _ _ _ _) f = f
requests-All P s t (moves _ _ _ _ _ _ _) f = f
requests-All P s t (assigns _ _ _ _ _ _ _ _ _ _) f = f
requests-All P s t (assigns_back _ _ _ _ _ _ _ _ _ _) f = f
requests-All P s t (measures _ _ _ _ _ _ _) f = f

Reachable-IsCovered :
    (max : ℕ) (s : System)
    → max < 2 ^ 64
    → All (Fits max) s.requests
    → Reachable max s
    → IsCovered max s
Reachable-IsCovered max _ m f fresh = ((refl, omega arith, refl), tt, tt)
Reachable-IsCovered max _ m f (next s t before step) =
    step-IsCovered max s t m
      (Reachable-IsCovered max s m (requests-All (Fits max) s t step f) before) f step

total-capacity_of :
    (hs : List Handle) → All IsWhole hs → total reserved_of hs ≡ total capacity_of hs
total-capacity_of [] w = refl
total-capacity_of (h ∷ hs) (w, ws) = omega (arith, w.1, total-capacity_of hs ws)

-- In every state that any number of threads reach with one 64-bit budget, if the size of each request
-- so far and the budget add up to less than 2 ^ 64: whatever the allocator and the weak exchange
-- return and however handles are moved, assigned, reset and destroyed, the pending bytes are the
-- bytes of the live buffers and of the calls that have reserved theirs, they do not exceed the
-- budget, and each handle has a budget just when it has a buffer, has reserved what its buffer
-- holds, and uses no more.
pub Reachable-pending :
    (max : ℕ) (s : System)
    → max < 2 ^ 64
    → All (Fits max) s.requests
    → Reachable max s
    → (s.budget.pending ≡ total reserved_by s.calls + total capacity_of s.handles)
      × (s.budget.pending ≤ max)
      × All IsWhole s.handles
Reachable-pending max s m f before =
    let ((sum, low, e), whole, small) = Reachable-IsCovered max s m f before in
    let same = total-capacity_of s.handles whole in (omega (arith, sum, same), low, whole)
