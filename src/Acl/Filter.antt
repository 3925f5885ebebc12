-- ===== src/Acl/Filter.antt =====
-- src/acl/acl.cpp, acl_filter.cpp and the evaluation in acl_matcher.h: which resolved addresses may
-- be dialled. inet_pton and getaddrinfo are parameters.
pub mod Safety
pub mod Literal
use tcpquic_proxy.Base.{
  ℕ, Bool, true, false, not, Option, none, some, List, [], ◌∷◌, ◌++◌, map, if◌then◌else◌, Bytes,
  replicate, is_empty,
}
use tcpquic_proxy.Acl.Cidr.{
  Family, af_unspec, af_inet, af_inet6, ParsedCidr, InetPton, parse_cidr, parse_cidr_list,
  ip_matches_cidr,
}
use tcpquic_proxy.Base.Text.{c_str}

-- sockaddr_storage. `addr` is sin_addr or sin6_addr; the port is kept before htons, and `scope`
-- stands for the fields of sockaddr_in6 that are only carried along.
pub record SockAddr : Type 0 where
  pub family : Family
  pub addr : Bytes
  pub port : ℕ
  pub scope : ℕ

pub record Acl : Type 0 where
  pub allow_cidrs : List Bytes
  pub deny_cidrs : List Bytes

-- The 16 bytes of an IPv4 or IPv6 address.
unfoldable pub extract_ip_bytes : SockAddr → Option (Family × Bytes)
extract_ip_bytes ss = elim ss.family [
  | af_inet ↦ some (af_inet, ss.addr ++ replicate 12 0)
  | af_inet6 ↦ some (af_inet6, ss.addr)
  | af_unspec ↦ none
]

unfoldable pub parse_ip_literal : InetPton → Bytes → Option SockAddr
parse_ip_literal pton host = elim (pton.ipv4 (c_str host)) [
  | some v4 ↦ some (record { family = af_inet; addr = v4; port = 0; scope = 0 })
  | none ↦ elim (pton.ipv6 (c_str host)) [
    | some v6 ↦ some (record { family = af_inet6; addr = v6; port = 0; scope = 0 })
    | none ↦ none
  ]
]

unfoldable pub set_sockaddr_port : ℕ → SockAddr → SockAddr
set_sockaddr_port port ss = elim ss.family [
  | af_inet ↦ record ss { port = port }
  | af_inet6 ↦ record ss { port = port }
  | af_unspec ↦ ss
]

-- Each loop over a list of entries.
unfoldable pub matches_any : Family → Bytes → List ParsedCidr → Bool
matches_any family a [] = false
matches_any family a (cidr ∷ cidrs) =
    let rest = matches_any family a cidrs in if ip_matches_cidr family a cidr then true else rest

unfoldable pub ip_bytes_allowed : Family → Bytes → List ParsedCidr → List ParsedCidr → Bool
ip_bytes_allowed family a deny allow =
    if matches_any family a deny
    then false
    else if is_empty allow
    then false
    else matches_any family a allow

-- The first loop of EvaluateCandidates: some candidate is denied.
unfoldable pub any_denied : List ParsedCidr → List SockAddr → Bool
any_denied deny [] = false
any_denied deny (c ∷ cs) =
    let rest = any_denied deny cs in
    elim (extract_ip_bytes c) [
      | none ↦ rest
      | some (family, a) ↦ if matches_any family a deny then true else rest
    ]

-- The second loop: the candidates that an entry of the allow list matches, in their order.
unfoldable pub allowed_candidates : List ParsedCidr → List SockAddr → List SockAddr
allowed_candidates allow [] = []
allowed_candidates allow (c ∷ cs) =
    let rest = allowed_candidates allow cs in
    elim (extract_ip_bytes c) [
      | none ↦ rest
      | some (family, a) ↦ if ip_bytes_allowed family a [] allow then c ∷ rest else rest
    ]

abbrev pub non_empty : List SockAddr → Option (List SockAddr)
non_empty [] = none
non_empty (c ∷ cs) = some (c ∷ cs)

-- `none` is the result false, where the callers clear the list.
unfoldable pub evaluate_candidates :
    List ParsedCidr → List ParsedCidr → List SockAddr → Option (List SockAddr)
evaluate_candidates deny allow candidates =
    if is_empty allow
    then none
    else if any_denied deny candidates
    then none
    else non_empty (allowed_candidates allow candidates)

-- TqAclFilterResolvedAddresses.
unfoldable pub filter_resolved_addresses :
    InetPton → Acl → List SockAddr → ℕ → Option (List SockAddr)
filter_resolved_addresses pton acl candidates port =
    elim (evaluate_candidates (parse_cidr_list pton acl.deny_cidrs)
      (parse_cidr_list pton acl.allow_cidrs) candidates) [
        | none ↦ none
        | some outs ↦ some (map (set_sockaddr_port port) outs)
      ]

-- TqAcl::IsAllowed.
unfoldable pub is_allowed : InetPton → Acl → Bytes → Bool
is_allowed pton acl host = elim (parse_ip_literal pton host) [
  | none ↦ false
  | some ss ↦ elim (extract_ip_bytes ss) [
    | none ↦ false
    | some (family, a) ↦
        ip_bytes_allowed family a (parse_cidr_list pton acl.deny_cidrs)
          (parse_cidr_list pton acl.allow_cidrs)
  ]
]

-- getaddrinfo(host, port): `none` is an error, else the addresses that fit a sockaddr_storage.
abbrev pub Resolver : Type 0
Resolver = Bytes → ℕ → Option (List SockAddr)

-- TqAclResolveAndFilter.
unfoldable pub resolve_and_filter : InetPton → Resolver → Acl → Bytes → ℕ → Option (List SockAddr)
resolve_and_filter pton resolve acl host port = elim (parse_ip_literal pton host) [
  | some literal ↦ filter_resolved_addresses pton acl (set_sockaddr_port port literal ∷ []) port
  | none ↦ elim (resolve (c_str host) port) [
    | none ↦ none
    | some [] ↦ none
    | some (c ∷ cs) ↦ filter_resolved_addresses pton acl (c ∷ cs) port
  ]
]

-- TqValidateCidrList, with the text of its two messages as constructors.
pub data CidrError : Type 0 where
  empty_entry : CidrError
  invalid : Bytes → CidrError

unfoldable pub validate_cidr_list : InetPton → List Bytes → Option CidrError
validate_cidr_list pton [] = none
validate_cidr_list pton ([] ∷ cidrs) = some empty_entry
validate_cidr_list pton ((c ∷ cidr) ∷ cidrs) =
    let rest = validate_cidr_list pton cidrs in
    elim (parse_cidr pton (c ∷ cidr)) [ none ↦ some (invalid (c ∷ cidr)) | some _ ↦ rest ]
