-- ===== src/Examples/Acl.antt =====
-- src/acl on a small list: 10.0.0.0/8 is allowed, but for 10.9.0.0/16.
use tcpquic_proxy.Base.{
  ℕ, ◌≡◌, ◌≢◌, ◌↔◌, ◌≤◌, refl, inl, inr, Option, none, some, true, List, [], ◌∷◌, All, Any, map,
  Bytes, IsBytes, arith, if◌then◌else◌, replicate,
}
use tcpquic_proxy.Base.Text.{codes, bytes_eq, c_str, find_byte}
use tcpquic_proxy.Acl.Cidr.{
  af_inet, ParsedCidr, InetPton, is_digit, prefix_loop, parse_prefix, parse_cidr, cidr_of,
  parse_cidr_list, match_full, ip_matches_cidr,
}
use tcpquic_proxy.Acl.Cidr.Prefix.{SameBits}
use tcpquic_proxy.Acl.Cidr.Parse.{decimal, IsInetPton, parse_prefix_iff, parse_cidr-SameBits}
use tcpquic_proxy.Acl.Filter.{
  SockAddr, Acl, Resolver, extract_ip_bytes, parse_ip_literal, set_sockaddr_port, matches_any,
  ip_bytes_allowed, any_denied, allowed_candidates, evaluate_candidates, filter_resolved_addresses,
  is_allowed, resolve_and_filter, validate_cidr_list,
}
use tcpquic_proxy.Acl.Filter.Safety.{
  Dialable, IsDenied, resolve_and_filter-Dialable, filter_resolved_addresses-IsDenied,
}
use tcpquic_proxy.Acl.Filter.Literal.{resolve_and_filter-literal, validate-parse_cidr_list}

-- The addresses that the examples write.
abbrev ipv4_table : Bytes → Option Bytes
ipv4_table t =
    if bytes_eq t (codes "10.0.0.0")
    then some (10 ∷ 0 ∷ 0 ∷ 0 ∷ [])
    else if bytes_eq t (codes "10.9.0.0")
    then some (10 ∷ 9 ∷ 0 ∷ 0 ∷ [])
    else if bytes_eq t (codes "10.1.2.3")
    then some (10 ∷ 1 ∷ 2 ∷ 3 ∷ [])
    else none

abbrev pton : InetPton
pton = record { ipv4 = ipv4_table; ipv6 = λ t. none }

pton-IsInetPton : IsInetPton pton
pton-IsInetPton = record { ipv4_bytes = λ t a e. ground arith; ipv6_bytes = λ t a e. cc }

abbrev acl : Acl
acl = record { allow_cidrs = codes "10.0.0.0/8" ∷ []; deny_cidrs = codes "10.9.0.0/16" ∷ [] }

abbrev to : Bytes → ℕ → SockAddr
to a port = record { family = af_inet; addr = a; port = port; scope = 0 }

abbrev inside : SockAddr
inside = to (10 ∷ 1 ∷ 2 ∷ 3 ∷ []) 0

abbrev outside : SockAddr
outside = to (192 ∷ 168 ∷ 0 ∷ 1 ∷ []) 0

abbrev denied : SockAddr
denied = to (10 ∷ 9 ∷ 2 ∷ 3 ∷ []) 0

abbrev resolver : Resolver
resolver host port = some (outside ∷ inside ∷ [])

abbrev dialled : List SockAddr
dialled = to (10 ∷ 1 ∷ 2 ∷ 3 ∷ []) 443 ∷ []

name_run : resolve_and_filter pton resolver acl (codes "db") 443 ≡ some dialled
unfolding resolve_and_filter filter_resolved_addresses parse_ip_literal extract_ip_bytes
    set_sockaddr_port matches_any ip_bytes_allowed any_denied allowed_candidates evaluate_candidates
    prefix_loop parse_prefix parse_cidr cidr_of parse_cidr_list match_full ip_matches_cidr bytes_eq
    c_str find_byte
name_run = refl

resolve_and_filter-Dialable_example : (dialled ≢ []) × All (Dialable pton acl 443) dialled
resolve_and_filter-Dialable_example =
    resolve_and_filter-Dialable pton resolver acl (codes "db") 443 dialled name_run

denied_hit : Any (IsDenied (parse_cidr_list pton acl.deny_cidrs)) (inside ∷ denied ∷ [])
unfolding extract_ip_bytes prefix_loop parse_prefix parse_cidr cidr_of parse_cidr_list match_full
    ip_matches_cidr bytes_eq c_str find_byte
denied_hit = inr (inl (af_inet, 10 ∷ 9 ∷ 2 ∷ 3 ∷ replicate 12 0, refl, inl refl))

filter_resolved_addresses-IsDenied_example :
    filter_resolved_addresses pton acl (inside ∷ denied ∷ []) 443 ≡ none
filter_resolved_addresses-IsDenied_example =
    filter_resolved_addresses-IsDenied pton acl (inside ∷ denied ∷ []) 443 denied_hit

abbrev ten : ParsedCidr
ten = record { family = af_inet; addr = 10 ∷ replicate 15 0; prefix_len = 8 }

ten_parsed : parse_cidr pton (codes "10.0.0.0/8") ≡ some ten
unfolding prefix_loop parse_prefix parse_cidr cidr_of bytes_eq c_str find_byte
ten_parsed = refl

inside-IsBytes : IsBytes (10 ∷ 1 ∷ 2 ∷ 3 ∷ [])
inside-IsBytes = ground arith

parse_cidr-SameBits_example :
    (ip_matches_cidr af_inet (10 ∷ 1 ∷ 2 ∷ 3 ∷ []) ten ≡ true)
    ↔ ((af_inet ≡ ten.family) × SameBits ten.prefix_len (10 ∷ 1 ∷ 2 ∷ 3 ∷ []) ten.addr)
parse_cidr-SameBits_example =
    parse_cidr-SameBits pton (codes "10.0.0.0/8") ten af_inet (10 ∷ 1 ∷ 2 ∷ 3 ∷ []) pton-IsInetPton
      ten_parsed inside-IsBytes

parse_prefix_iff_example : (parse_prefix (codes "016") ≡ some 16) ↔ (
    (codes "016" ≢ [])
    × All (λ c. is_digit c ≡ true) (codes "016")
    × (decimal 0 (codes "016") ≡ 16)
    × (16 ≤ 128))
parse_prefix_iff_example = parse_prefix_iff (codes "016") 16

literal_parsed : parse_ip_literal pton (codes "10.1.2.3") ≡ some inside
unfolding parse_ip_literal bytes_eq c_str
literal_parsed = refl

resolve_and_filter-literal_example : resolve_and_filter pton resolver acl (codes "10.1.2.3") 443 ≡ (
    if is_allowed pton acl (codes "10.1.2.3")
    then some (set_sockaddr_port 443 inside ∷ [])
    else none)
resolve_and_filter-literal_example =
    resolve_and_filter-literal pton resolver acl (codes "10.1.2.3") 443 inside literal_parsed

abbrev entries : List Bytes
entries = codes "10.0.0.0/8" ∷ codes "10.9.0.0/16" ∷ []

entries_valid : validate_cidr_list pton entries ≡ none
unfolding validate_cidr_list prefix_loop parse_prefix parse_cidr cidr_of bytes_eq c_str find_byte
entries_valid = refl

validate-parse_cidr_list_example :
    map some (parse_cidr_list pton entries) ≡ map (parse_cidr pton) entries
validate-parse_cidr_list_example = validate-parse_cidr_list pton entries entries_valid
