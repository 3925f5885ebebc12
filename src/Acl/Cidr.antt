-- ===== src/Acl/Cidr.antt =====
-- src/acl/acl_matcher.h: CIDR entries, their parser and the match of an address against one.
-- TqInetPton is the platform's inet_pton: a parameter of what calls it.
pub mod Parse
pub mod Prefix
use tcpquic_proxy.Base.{
  ℕ, zero, suc, ◌+◌, ◌-◌, ◌*◌, ◌/◌, ◌%◌, Bool, true, false, not, ◌&&◌, Option, none, some, List, [],
  ◌∷◌, ◌++◌, ltb, leb, ◌==◌, if◌then◌else◌, Bytes, take, drop, replicate, bit_and,
}
use tcpquic_proxy.Base.Bits.{shl}
use tcpquic_proxy.Base.Text.{find_byte, c_str}
use tcpquic_proxy.Protocol.Bytes.{at}

-- AF_UNSPEC stands for every family that the code does not know.
pub data Family : Type 0 where
  af_unspec af_inet af_inet6 : Family

abbrev pub same_family : Family → Family → Bool
same_family af_unspec af_unspec = true
same_family af_inet af_inet = true
same_family af_inet6 af_inet6 = true
same_family _ _ = false

-- `addr` has 16 bytes.
pub record ParsedCidr : Type 0 where
  pub family : Family
  pub addr : Bytes
  pub prefix_len : ℕ

-- inet_pton for AF_INET and for AF_INET6: the 4 or 16 bytes of a textual address.
pub record InetPton : Type 0 where
  pub ipv4 : Bytes → Option Bytes
  pub ipv6 : Bytes → Option Bytes

abbrev pub is_digit : ℕ → Bool
is_digit c = leb b'0' c && leb c b'9'

-- The loop of ParsePrefix, from the value read so far.
unfoldable pub prefix_loop : ℕ → Bytes → Option ℕ
prefix_loop value [] = some value
prefix_loop value (c ∷ s) =
    let value' = value * 10 + (c - b'0') in
    let rest = prefix_loop value' s in
    if not (is_digit c) then none else if ltb 128 value' then none else rest

unfoldable pub parse_prefix : Bytes → Option ℕ
parse_prefix [] = none
parse_prefix (c ∷ s) = prefix_loop 0 (c ∷ s)

-- The part of ParseCidr behind the prefix: the address text decides the family.
unfoldable pub cidr_of : InetPton → Bytes → ℕ → Option ParsedCidr
cidr_of pton text prefix = elim (pton.ipv4 (c_str text)) [
  | some v4 ↦
      if ltb 32 prefix
      then none
      else some
          (record { family = af_inet; addr = v4 ++ replicate 12 0; prefix_len = prefix % 256 })
  | none ↦ elim (pton.ipv6 (c_str text)) [
    | some v6 ↦
        if ltb 128 prefix
        then none
        else some (record { family = af_inet6; addr = v6; prefix_len = prefix % 256 })
    | none ↦ none
  ]
]

unfoldable pub parse_cidr : InetPton → Bytes → Option ParsedCidr
parse_cidr pton cidr = elim (find_byte b'/' cidr) [
  | none ↦ none
  | some slash ↦ elim (parse_prefix (drop (slash + 1) cidr)) [
    | none ↦ none
    | some prefix ↦ cidr_of pton (take slash cidr) prefix
  ]
]

-- Malformed entries are left out.
unfoldable pub parse_cidr_list : InetPton → List Bytes → List ParsedCidr
parse_cidr_list pton [] = []
parse_cidr_list pton (cidr ∷ cidrs) =
    let rest = parse_cidr_list pton cidrs in
    elim (parse_cidr pton cidr) [ none ↦ rest | some p ↦ p ∷ rest ]

abbrev pub byte_count : Family → ℕ
byte_count af_inet = 4
byte_count _ = 16

-- The loop over the whole bytes of a prefix: `n` rounds are left, from byte `i`.
unfoldable pub match_full : ℕ → ℕ → ℕ → Bytes → Bytes → Bool
match_full zero i count a network = true
match_full (suc n) i count a network =
    let rest = match_full n (suc i) count a network in
    if leb count i then false else if not (at a i == at network i) then false else rest

-- static_cast<uint8_t>(0xFF << (8 - remBits)).
abbrev pub prefix_mask : ℕ → ℕ
prefix_mask rem = shl 0xff (8 - rem) % 256

unfoldable pub ip_matches_cidr : Family → Bytes → ParsedCidr → Bool
unfolding match_full
ip_matches_cidr family a cidr =
    let full = cidr.prefix_len / 8 in
    let rem = cidr.prefix_len % 8 in
    let count = byte_count family in
    if not (same_family family cidr.family)
    then false
    else if not (match_full full 0 count a cidr.addr)
    then false
    else if rem == 0
    then true
    else if leb count full
    then false
    else bit_and (at a full) (prefix_mask rem) == bit_and (at cidr.addr full) (prefix_mask rem)
