-- ===== src/Acl/Cidr/Parse.antt =====
-- What the parser of CIDR entries of src/acl/acl_matcher.h accepts.
use tcpquic_proxy.Base.{
  ℕ, ◌+◌, ◌-◌, ◌*◌, ◌≤◌, ◌≡◌, ◌≢◌, refl, subst, sym, ◌↔◌, inl, inr, ◌⊎◌, true, some, [], ◌∷◌, ◌++◌,
  Bytes, IsBytes, All, arith, length, length-append, replicate, take, drop, Option-cases, ◌%◌,
}
use tcpquic_proxy.Base.Text.{find_byte, c_str}
use tcpquic_proxy.Acl.Cidr.{
  Family, af_unspec, af_inet, af_inet6, ParsedCidr, InetPton, is_digit, prefix_loop, parse_prefix,
  cidr_of, parse_cidr, byte_count, same_family, ip_matches_cidr,
}
use tcpquic_proxy.Acl.Cidr.Prefix.{SameBits, ip_matches_cidr_iff}

-- The number that a text of digits stands for, behind the digits read so far.
abbrev pub decimal : ℕ → Bytes → ℕ
decimal value [] = value
decimal value (c ∷ s) = decimal (value * 10 + (c - b'0')) s

le-decimal : (value : ℕ) (s : Bytes) → value ≤ decimal value s
le-decimal value [] = omega arith
le-decimal value (c ∷ s) = omega (arith, le-decimal (value * 10 + (c - b'0')) s)

prefix_loop_to :
    (value : ℕ) (s : Bytes) (n : ℕ)
    → value ≤ 128
    → prefix_loop value s ≡ some n
    → All (λ c. is_digit c ≡ true) s × (decimal value s ≡ n) × (n ≤ 128)
unfolding prefix_loop
prefix_loop_to value [] n h e = ground arith
prefix_loop_to value (c ∷ s) n h e = ground (arith, prefix_loop_to (value * 10 + (c - b'0')) s n)

prefix_loop_from :
    (value : ℕ) (s : Bytes)
    → All (λ c. is_digit c ≡ true) s
    → decimal value s ≤ 128
    → prefix_loop value s ≡ some (decimal value s)
unfolding prefix_loop
prefix_loop_from value [] d h = refl
prefix_loop_from value (c ∷ s) d h = ground (
  arith,
  le-decimal (value * 10 + (c - b'0')) s,
  prefix_loop_from (value * 10 + (c - b'0')) s d.1 h,
)

-- A prefix length is a non-empty text of digits that stands for a number up to 128, leading zeros
-- allowed, and that number is the result.
pub parse_prefix_iff :
    (s : Bytes) (n : ℕ)
    → (parse_prefix s ≡ some n)
      ↔ ((s ≢ []) × All (λ c. is_digit c ≡ true) s × (decimal 0 s ≡ n) × (n ≤ 128))
unfolding parse_prefix
parse_prefix_iff [] n = (λ e. cc, λ h. absurd (h.0 refl))
parse_prefix_iff (c ∷ s) n = (
  λ e. let (d, v, small) = prefix_loop_to 0 (c ∷ s) n (omega arith) e in (λ e'. cc, d, v, small),
  λ h. ground (arith, prefix_loop_from 0 (c ∷ s) h.1),
)

same_family_refl : (f : Family) → same_family f f ≡ true
same_family_refl f = ground arith

-- What inet_pton promises: the bytes of an address of its family.
pub record IsInetPton (pton : InetPton) : Type 0 where
  pub ipv4_bytes : (t a : Bytes) → pton.ipv4 t ≡ some a → (length a ≡ 4) × IsBytes a
  pub ipv6_bytes : (t a : Bytes) → pton.ipv6 t ≡ some a → (length a ≡ 16) × IsBytes a

pub record IsCidr (p : ParsedCidr) : Type 0 where
  pub known : p.family ≢ af_unspec
  pub prefix_fits : p.prefix_len ≤ 8 * byte_count p.family
  pub addr_length : length p.addr ≡ 16
  pub addr_bytes : IsBytes p.addr

IsBytes-append : (xs ys : Bytes) → IsBytes xs → IsBytes ys → IsBytes (xs ++ ys)
IsBytes-append [] ys hx hy = hy
IsBytes-append (x ∷ xs) ys hx hy = (hx.0, IsBytes-append xs ys hx.1 hy)

cidr4 : Bytes → ℕ → ParsedCidr
cidr4 v4 n = record { family = af_inet; addr = v4 ++ replicate 12 0; prefix_len = n % 256 }

cidr4-IsCidr : (v4 : Bytes) (n : ℕ) → n ≤ 32 → (length v4 ≡ 4) × IsBytes v4 → IsCidr (cidr4 v4 n)
unfolding cidr4
cidr4-IsCidr v4 n h (len, bytes) = record {
  known = λ e. cc;
  prefix_fits = omega arith;
  addr_length = omega (arith, length-append v4 (replicate 12 0));
  addr_bytes = IsBytes-append v4 (replicate 12 0) bytes (omega arith);
}

cidr6 : Bytes → ℕ → ParsedCidr
cidr6 v6 n = record { family = af_inet6; addr = v6; prefix_len = n % 256 }

cidr6-IsCidr : (v6 : Bytes) (n : ℕ) → n ≤ 128 → (length v6 ≡ 16) × IsBytes v6 → IsCidr (cidr6 v6 n)
unfolding cidr6
cidr6-IsCidr v6 n h (len, bytes) = record {
  known = λ e. cc;
  prefix_fits = omega arith;
  addr_length = len;
  addr_bytes = bytes;
}

cidr_of-eq-some :
    (pton : InetPton) (t : Bytes) (n : ℕ) (p : ParsedCidr)
    → cidr_of pton t n ≡ some p
    → ((a : Bytes) × (pton.ipv4 (c_str t) ≡ some a) × (n ≤ 32) × (p ≡ cidr4 a n))
      ⊎ ((a : Bytes) × (pton.ipv6 (c_str t) ≡ some a) × (n ≤ 128) × (p ≡ cidr6 a n))
unfolding cidr_of cidr4 cidr6
cidr_of-eq-some pton t n p e = elim (Option-cases (pton.ipv4 (c_str t))) [
  | inr (v4, q) ↦ inl (v4, q, ground arith, ground arith)
  | inl q ↦ elim (Option-cases (pton.ipv6 (c_str t))) [
    | inr (v6, r) ↦ inr (v6, r, ground arith, ground arith)
    | inl r ↦ absurd (ground arith)
  ]
]

cidr_of-IsCidr :
    (pton : InetPton) (t : Bytes) (n : ℕ) (p : ParsedCidr)
    → IsInetPton pton
    → cidr_of pton t n ≡ some p
    → IsCidr p
cidr_of-IsCidr pton t n p ok e = elim (cidr_of-eq-some pton t n p e) [
  | inl (a, q, small, shape) ↦ rw shape (cidr4-IsCidr a n small (ok.ipv4_bytes _ a q))
  | inr (a, q, small, shape) ↦ rw shape (cidr6-IsCidr a n small (ok.ipv6_bytes _ a q))
]

-- What the parser accepts is well formed: a known family, a prefix within it, and 16 bytes.
pub parse_cidr-IsCidr :
    (pton : InetPton) (cidr : Bytes) (p : ParsedCidr)
    → IsInetPton pton
    → parse_cidr pton cidr ≡ some p
    → IsCidr p
unfolding parse_cidr
parse_cidr-IsCidr pton cidr p ok e = elim (Option-cases (find_byte b'/' cidr)) [
  | inl none_found ↦ absurd (ground arith)
  | inr (slash, found) ↦ elim (Option-cases (parse_prefix (drop (slash + 1) cidr))) [
    | inl bad ↦ absurd (ground arith)
    | inr (n, good) ↦ cidr_of-IsCidr pton (take slash cidr) n p ok (ground arith)
  ]
]

matches-same_family :
    (f : Family) (a : Bytes) (p : ParsedCidr) → ip_matches_cidr f a p ≡ true → f ≡ p.family
unfolding ip_matches_cidr
matches-same_family f a p h = ground arith

-- If inet_pton returns 4 bytes for IPv4 and 16 for IPv6, then an entry that parses matches the bytes
-- of an address exactly if the families are the same and the first bits of the address are those of
-- the entry's network, as many as the entry's prefix length says.
pub parse_cidr-SameBits :
    (pton : InetPton) (cidr : Bytes) (p : ParsedCidr) (family : Family) (a : Bytes)
    → IsInetPton pton
    → parse_cidr pton cidr ≡ some p
    → IsBytes a
    → (ip_matches_cidr family a p ≡ true) ↔ ((family ≡ p.family) × SameBits p.prefix_len a p.addr)
parse_cidr-SameBits pton cidr p family a ok e h =
    let v = parse_cidr-IsCidr pton cidr p ok e in
    let same_case =
      ip_matches_cidr_iff p.family a p (same_family_refl p.family) v.prefix_fits h v.addr_bytes in
    (
      λ m.
          let f = matches-same_family family a p m in
          (f, same_case.0 (subst (λ x. ip_matches_cidr x a p ≡ true) f m)),
      λ (f, bits). subst (λ x. ip_matches_cidr x a p ≡ true) (sym f) (same_case.1 bits),
    )
