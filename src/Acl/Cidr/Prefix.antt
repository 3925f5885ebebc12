-- ===== src/Acl/Cidr/Prefix.antt =====
-- The match of src/acl/acl_matcher.h against the bits of addresses.
use native.Mathlib.Nat.{div-div-eq-div-mul, pow-suc}
use tcpquic_proxy.Base.{
  ℕ, zero, suc, ◌+◌, ◌-◌, ◌*◌, ◌/◌, ◌%◌, ◌^◌, ◌≤◌, ◌<◌, ◌≡◌, refl, sym, subst, ap, ◌∙◌, ◌↔◌, true,
  inl, inr, ◌⊎◌, Bytes, IsByte, IsBytes, arith, ◌==◌, ==_iff, holds_below, holds_at, bit_and,
}
use tcpquic_proxy.Protocol.Bytes.{at}
use tcpquic_proxy.Protocol.Bytes.Laws.{at-IsByte}
use tcpquic_proxy.Acl.Cidr.{
  Family, same_family, ParsedCidr, byte_count, match_full, prefix_mask, ip_matches_cidr,
}

-- Bit k of a byte, the most significant first, and bit i of a buffer.
unfoldable pub byte_bit : ℕ → ℕ → ℕ
byte_bit b k = b / 2 ^ (7 - k) % 2

unfoldable pub bit_at : Bytes → ℕ → ℕ
bit_at bs i = byte_bit (at bs (i / 8)) (i % 8)

-- The first r bits of a byte, as a number.
top : ℕ → ℕ → ℕ
top b r = b / 2 ^ (8 - r)

top-suc : (b r : ℕ) → r < 8 → top b (suc r) ≡ 2 * top b r + byte_bit b r
unfolding top byte_bit
top-suc b r h =
    let e : 8 - r ≡ suc (7 - r) = omega arith in
    ground (arith, e, pow-suc 2 (7 - r), div-div-eq-div-mul b (2 ^ (7 - r)) 2)

top-zero : (b : ℕ) → IsByte b → top b 0 ≡ 0
unfolding top
top-zero b h = omega arith

byte_bit-le : (b k : ℕ) → byte_bit b k ≤ 1
unfolding byte_bit
byte_bit-le b k = omega arith

last_or_before : (k r : ℕ) → k < suc r → (k < r) ⊎ (k ≡ r)
last_or_before k r h = grind arith

byte_bit_of_top : (r a b k : ℕ) → r ≤ 8 → top a r ≡ top b r → k < r → byte_bit a k ≡ byte_bit b k
byte_bit_of_top zero a b k h e lt = absurd (omega arith)
byte_bit_of_top (suc r) a b k h e lt =
    let ea = top-suc a r (omega arith) in
    let eb = top-suc b r (omega arith) in
    let rest =
      byte_bit_of_top r a b k (omega arith) (omega (arith, byte_bit-le a r, byte_bit-le b r)) in
    elim (last_or_before k r lt) [
      | inl before ↦ rest before
      | inr last ↦ rw last (omega (arith, byte_bit-le a r, byte_bit-le b r))
    ]

top_of_byte_bit :
    (r a b : ℕ)
    → r ≤ 8
    → IsByte a
    → IsByte b
    → ((k : ℕ) → k < r → byte_bit a k ≡ byte_bit b k)
    → top a r ≡ top b r
top_of_byte_bit zero a b h ha hb e = omega (arith, top-zero a ha, top-zero b hb)
top_of_byte_bit (suc r) a b h ha hb e = omega (
  arith,
  top-suc a r (omega arith),
  top-suc b r (omega arith),
  e r (omega arith),
  top_of_byte_bit r a b (omega arith) ha hb (λ k lt. e k (omega arith)),
)

mask_table :
    holds_below 256 (λ b. holds_below 8 (λ r. bit_and b (prefix_mask r) == top b r * 2 ^ (8 - r)))
    ≡ true
unfolding holds_below top
mask_table = refl

bit_and-prefix_mask :
    (b r : ℕ) → IsByte b → r < 8 → bit_and b (prefix_mask r) ≡ top b r * 2 ^ (8 - r)
bit_and-prefix_mask b r hb hr = (==_iff _ _).0 (holds_at _ 8 r hr (holds_at _ 256 b hb mask_table))

pow_double : (x s : ℕ) → x * 2 ^ suc s ≡ 2 * (x * 2 ^ s)
pow_double x s = omega (arith, ap (λ (t : ℕ). x * t) (pow-suc 2 s))

pow_cancel : (s x y : ℕ) → x * 2 ^ s ≡ y * 2 ^ s → x ≡ y
pow_cancel zero x y e = omega arith
pow_cancel (suc s) x y e = pow_cancel s x y (omega (arith, pow_double x s, pow_double y s))

-- The masked bytes are equal exactly if their first r bits are.
masked_iff :
    (a b r : ℕ)
    → IsByte a
    → IsByte b
    → r < 8
    → (bit_and a (prefix_mask r) ≡ bit_and b (prefix_mask r)) ↔ (top a r ≡ top b r)
masked_iff a b r ha hb hr = (
  λ e.
      pow_cancel (8 - r) _ _
        (sym (bit_and-prefix_mask a r ha hr) ∙ e ∙ bit_and-prefix_mask b r hb hr),
  λ e.
      bit_and-prefix_mask a r ha hr
      ∙ ap (λ (t : ℕ). t * 2 ^ (8 - r)) e
      ∙ sym (bit_and-prefix_mask b r hb hr),
)

byte_ext : (a b : ℕ) → IsByte a → IsByte b → ((k : ℕ) → k < 8 → byte_bit a k ≡ byte_bit b k) → a ≡ b
unfolding top
byte_ext a b ha hb e = omega (arith, top_of_byte_bit 8 a b (omega arith) ha hb e)

-- The whole bytes of the prefix agree.
match_full_iff :
    (n i count : ℕ) (a network : Bytes)
    → i + n ≤ count
    → (match_full n i count a network ≡ true)
      ↔ ((j : ℕ) → i ≤ j → j < i + n → at a j ≡ at network j)
unfolding match_full
match_full_iff zero i count a network h = (λ _ j lo hi. absurd (omega arith), λ _. refl)
match_full_iff (suc n) i count a network h =
    let ih = match_full_iff n (suc i) count a network (omega arith) in
    (
      λ m j lo hi. elim (last_or_before i j (omega arith)) [
        | inl before ↦ ih.0 (ground arith) j before (omega arith)
        | inr here ↦ rw (← here) (ground arith)
      ],
      λ e. ground (
        arith,
        e i (omega arith) (omega arith),
        ih.1 (λ j lo hi. e j (omega arith) (omega arith)),
      ),
    )

-- The whole bytes and the rest of a byte, put together.
abbrev SameBytes : ℕ → Bytes → Bytes → Type 0
SameBytes q a b = (j : ℕ) → 0 ≤ j → j < q → at a j ≡ at b j

abbrev pub SameBits : ℕ → Bytes → Bytes → Type 0
SameBits p a b = (i : ℕ) → i < p → bit_at a i ≡ bit_at b i

bit_from :
    (p : ℕ) (a b : Bytes) (j k : ℕ)
    → SameBits p a b
    → j * 8 + k < p
    → k < 8
    → byte_bit (at a j) k ≡ byte_bit (at b j) k
unfolding bit_at
bit_from p a b j k e h hk =
    let q : (j * 8 + k) / 8 ≡ j = omega arith in
    let r : (j * 8 + k) % 8 ≡ k = omega arith in
    subst (λ x. byte_bit (at a x) k ≡ byte_bit (at b x) k) q
      (subst (λ x. byte_bit (at a ((j * 8 + k) / 8)) x ≡ byte_bit (at b ((j * 8 + k) / 8)) x) r
        (e (j * 8 + k) h))

bits_of :
    (p : ℕ) (a b : Bytes)
    → SameBytes (p / 8) a b
    → top (at a (p / 8)) (p % 8) ≡ top (at b (p / 8)) (p % 8)
    → SameBits p a b
unfolding bit_at
bits_of p a b whole part i hi = elim (last_or_before (i / 8) (p / 8) (omega arith)) [
  | inl before ↦ rw (whole (i / 8) (omega arith) before)
  | inr last ↦
      let part' = subst (λ q. top (at a q) (p % 8) ≡ top (at b q) (p % 8)) (sym last) part in
      byte_bit_of_top (p % 8) _ _ (i % 8) (omega arith) part' (omega arith)
]

split_bits :
    (p : ℕ) (a b : Bytes)
    → IsBytes a
    → IsBytes b
    → SameBits p a b
      ↔ (SameBytes (p / 8) a b × (top (at a (p / 8)) (p % 8) ≡ top (at b (p / 8)) (p % 8)))
split_bits p a b ha hb = (
  λ e. (
    λ j lo hi.
        byte_ext _ _ (at-IsByte a j ha) (at-IsByte b j hb)
          (λ k hk. bit_from p a b j k e (omega arith) hk),
    top_of_byte_bit (p % 8) _ _ (omega arith) (at-IsByte a _ ha) (at-IsByte b _ hb)
        (λ k hk. bit_from p a b (p / 8) k e (omega arith) (omega arith)),
  ),
  λ e. bits_of p a b e.0 e.1,
)

-- A match, with its two tests told apart.
matches_parts :
    (family : Family) (a : Bytes) (cidr : ParsedCidr)
    → same_family family cidr.family ≡ true
    → cidr.prefix_len ≤ 8 * byte_count family
    → IsBytes a
    → IsBytes cidr.addr
    → let q = cidr.prefix_len / 8 in
      let r = cidr.prefix_len % 8 in
      (ip_matches_cidr family a cidr ≡ true) ↔ (
        (match_full q 0 (byte_count family) a cidr.addr ≡ true)
        × (top (at a q) r ≡ top (at cidr.addr q) r))
unfolding ip_matches_cidr
matches_parts family a cidr same len ha hc =
    let q = cidr.prefix_len / 8 in
    let r = cidr.prefix_len % 8 in
    let na = at-IsByte a q ha in
    let nc = at-IsByte cidr.addr q hc in
    let masked = masked_iff (at a q) (at cidr.addr q) r na nc (omega arith) in
    (
      λ e. ground (arith, masked.0, top-zero (at a q) na, top-zero (at cidr.addr q) nc),
      λ e. ground (arith, masked.1),
    )

-- A match is the agreement of the first prefix_len bits, for an entry of the same family.
pub ip_matches_cidr_iff :
    (family : Family) (a : Bytes) (cidr : ParsedCidr)
    → same_family family cidr.family ≡ true
    → cidr.prefix_len ≤ 8 * byte_count family
    → IsBytes a
    → IsBytes cidr.addr
    → (ip_matches_cidr family a cidr ≡ true) ↔ SameBits cidr.prefix_len a cidr.addr
ip_matches_cidr_iff family a cidr same len ha hc =
    let p = cidr.prefix_len in
    let parts = matches_parts family a cidr same len ha hc in
    let full = match_full_iff (p / 8) 0 (byte_count family) a cidr.addr (omega arith) in
    (
      λ m.
          let (f, t) = parts.0 m in
          bits_of p a cidr.addr (λ j lo hi. full.0 f j lo (omega arith)) t,
      λ e.
          let (w, t) = (split_bits p a cidr.addr ha hc).0 e in
          parts.1 (full.1 (λ j lo hi. w j lo (omega arith)), t),
    )
