-- ===== src/Acl/Filter/Literal.antt =====
-- src/acl/acl.cpp: the resolving filter on IP literals against TqAcl::IsAllowed, and validated lists.
use tcpquic_proxy.Base.{
  ℕ, ◌≡◌, refl, none, some, List, [], ◌∷◌, ◌++◌, replicate, map, arith, if◌then◌else◌, Bytes,
  Option-cases, inl, inr,
}
use tcpquic_proxy.Base.Text.{c_str}
use tcpquic_proxy.Acl.Cidr.{
  Family, af_inet, af_inet6, af_unspec, ParsedCidr, InetPton, parse_cidr, parse_cidr_list,
}
use tcpquic_proxy.Acl.Filter.{
  SockAddr, Acl, Resolver, extract_ip_bytes, parse_ip_literal, set_sockaddr_port, ip_bytes_allowed,
  matches_any, any_denied, allowed_candidates, evaluate_candidates, filter_resolved_addresses,
  is_allowed, resolve_and_filter, validate_cidr_list,
}
use tcpquic_proxy.Acl.Filter.Safety.{extract-set_port}

literal-extracts :
    (pton : InetPton) (host : Bytes) (ss : SockAddr)
    → parse_ip_literal pton host ≡ some ss
    → (e : Family × Bytes) × (extract_ip_bytes ss ≡ some e)
unfolding parse_ip_literal extract_ip_bytes
literal-extracts pton host ss h = elim (Option-cases (pton.ipv4 (c_str host))) [
  | inr (v4, e) ↦ ((af_inet, v4 ++ replicate 12 0), ground arith)
  | inl e ↦ elim (Option-cases (pton.ipv6 (c_str host))) [
    | inr (v6, e') ↦ ((af_inet6, v6), ground arith)
    | inl e' ↦ ((af_unspec, []), ground arith)
  ]
]

evaluate-one :
    (deny allow : List ParsedCidr) (ss : SockAddr) (family : Family) (a : Bytes)
    → extract_ip_bytes ss ≡ some (family, a)
    → evaluate_candidates deny allow (ss ∷ [])
      ≡ (if ip_bytes_allowed family a deny allow then some (ss ∷ []) else none)
unfolding evaluate_candidates ip_bytes_allowed any_denied allowed_candidates matches_any
evaluate-one deny allow ss family a e = ground arith

set_port_twice :
    (port : ℕ) (ss : SockAddr)
    → set_sockaddr_port port (set_sockaddr_port port ss) ≡ set_sockaddr_port port ss
unfolding set_sockaddr_port
set_port_twice port ss = ground arith

-- If the host is an IP literal, whatever the resolver would answer: the result is the literal with
-- the requested port if IsAllowed holds of the host, and nothing otherwise.
pub resolve_and_filter-literal :
    (pton : InetPton) (resolve : Resolver) (acl : Acl) (host : Bytes) (port : ℕ) (ss : SockAddr)
    → parse_ip_literal pton host ≡ some ss
    → resolve_and_filter pton resolve acl host port
      ≡ (if is_allowed pton acl host then some (set_sockaddr_port port ss ∷ []) else none)
unfolding resolve_and_filter filter_resolved_addresses is_allowed
resolve_and_filter-literal pton resolve acl host port ss h =
    let ((family, a), e) = literal-extracts pton host ss h in
    let deny = parse_cidr_list pton acl.deny_cidrs in
    let allow = parse_cidr_list pton acl.allow_cidrs in
    ground (
      arith,
      e,
      extract-set_port port ss,
      set_port_twice port ss,
      evaluate-one deny allow (set_sockaddr_port port ss) family a
          (ground (arith, extract-set_port port ss)),
    )

-- If a list of CIDRs validates, the entry parser accepts each of its entries, and the parsed list has
-- their results in the same order.
pub validate-parse_cidr_list :
    (pton : InetPton) (cidrs : List Bytes)
    → validate_cidr_list pton cidrs ≡ none
    → map some (parse_cidr_list pton cidrs) ≡ map (parse_cidr pton) cidrs
unfolding validate_cidr_list parse_cidr_list
validate-parse_cidr_list pton [] h = refl
validate-parse_cidr_list pton ([] ∷ cidrs) h = cc
validate-parse_cidr_list pton ((c ∷ cidr) ∷ cidrs) h =
    ground (arith, validate-parse_cidr_list pton cidrs)
