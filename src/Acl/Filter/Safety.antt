-- ===== src/Acl/Filter/Safety.antt =====
-- Which addresses leave the filter of src/acl/acl_filter.cpp and acl.cpp.
use tcpquic_proxy.Base.{
  ℕ, ◌≡◌, refl, subst, ◌∙◌, ◌≢◌, inl, inr, true, false, none, some, List, [], ◌∷◌, map, arith,
  Bytes, All, Any, Bool-cases, Option-cases,
}
use tcpquic_proxy.Acl.Cidr.{Family, ParsedCidr, InetPton, parse_cidr_list, ip_matches_cidr}
use tcpquic_proxy.Base.Text.{c_str}
use tcpquic_proxy.Acl.Filter.{
  SockAddr, Acl, Resolver, extract_ip_bytes, set_sockaddr_port, matches_any, ip_bytes_allowed,
  any_denied, allowed_candidates, evaluate_candidates, filter_resolved_addresses,
  resolve_and_filter, parse_ip_literal,
}

-- An address that no entry of `deny` matches and some entry of `allow` does.
abbrev pub Permitted : List ParsedCidr → List ParsedCidr → SockAddr → Type 0
Permitted deny allow ss =
    (family : Family) × (a : Bytes) × (extract_ip_bytes ss ≡ some (family, a))
    × All (λ cidr. ip_matches_cidr family a cidr ≡ false) deny
    × Any (λ cidr. ip_matches_cidr family a cidr ≡ true) allow

matches_any-false :
    (family : Family) (a : Bytes) (cidrs : List ParsedCidr)
    → matches_any family a cidrs ≡ false
    → All (λ cidr. ip_matches_cidr family a cidr ≡ false) cidrs
unfolding matches_any
matches_any-false family a [] h = tt
matches_any-false family a (c ∷ cs) h = ground (arith, matches_any-false family a cs)

matches_any-true :
    (family : Family) (a : Bytes) (cidrs : List ParsedCidr)
    → matches_any family a cidrs ≡ true
    → Any (λ cidr. ip_matches_cidr family a cidr ≡ true) cidrs
unfolding matches_any
matches_any-true family a [] h = cc
matches_any-true family a (c ∷ cs) h = ground (arith, matches_any-true family a cs)

-- What the two loops read of one candidate.
any_denied-cons :
    (deny : List ParsedCidr) (c : SockAddr) (cs : List SockAddr) (family : Family) (a : Bytes)
    → extract_ip_bytes c ≡ some (family, a)
    → any_denied deny (c ∷ cs) ≡ false
    → (matches_any family a deny ≡ false) × (any_denied deny cs ≡ false)
unfolding any_denied
any_denied-cons deny c cs family a e h = ground arith

allowed-matches :
    (allow : List ParsedCidr) (family : Family) (a : Bytes)
    → ip_bytes_allowed family a [] allow ≡ true
    → matches_any family a allow ≡ true
unfolding ip_bytes_allowed matches_any
allowed-matches allow family a h = ground arith

allowed_candidates-Permitted :
    (deny allow : List ParsedCidr) (cs : List SockAddr)
    → any_denied deny cs ≡ false
    → All (Permitted deny allow) (allowed_candidates allow cs)
unfolding allowed_candidates
allowed_candidates-Permitted deny allow [] h = tt
allowed_candidates-Permitted deny allow (c ∷ cs) h = elim (Option-cases (extract_ip_bytes c)) [
  | inl e ↦
      rw (e, allowed_candidates)
        (allowed_candidates-Permitted deny allow cs (unfold any_denied in ground arith))
  | inr ((family, a), e) ↦
      let (miss, rest) = any_denied-cons deny c cs family a e h in
      let ih = allowed_candidates-Permitted deny allow cs rest in
      elim (Bool-cases (ip_bytes_allowed family a [] allow)) [
        | inl hit ↦
            rw (e, allowed_candidates)
              (rw hit (
                (
                  family,
                  a,
                  e,
                  matches_any-false family a deny miss,
                  matches_any-true family a allow (allowed-matches allow family a hit),
                ),
                ih,
              ))
        | inr out ↦ rw (e, allowed_candidates) (rw out ih)
      ]
]

evaluate_candidates-eq-some :
    (deny allow : List ParsedCidr) (cs outs : List SockAddr)
    → evaluate_candidates deny allow cs ≡ some outs
    → (any_denied deny cs ≡ false) × (allowed_candidates allow cs ≡ outs) × (outs ≢ [])
unfolding evaluate_candidates
evaluate_candidates-eq-some deny allow cs outs e = ground arith

evaluate_candidates-Permitted :
    (deny allow : List ParsedCidr) (cs outs : List SockAddr)
    → evaluate_candidates deny allow cs ≡ some outs
    → (outs ≢ []) × All (Permitted deny allow) outs
evaluate_candidates-Permitted deny allow cs outs e =
    let (miss, same, some_left) = evaluate_candidates-eq-some deny allow cs outs e in
    (
      some_left,
      subst (All (Permitted deny allow)) same (allowed_candidates-Permitted deny allow cs miss),
    )

pub extract-set_port :
    (port : ℕ) (ss : SockAddr) → extract_ip_bytes (set_sockaddr_port port ss) ≡ extract_ip_bytes ss
unfolding extract_ip_bytes set_sockaddr_port
extract-set_port port ss = ground arith

port-set_port :
    (port : ℕ) (ss : SockAddr) (e : Family × Bytes)
    → extract_ip_bytes ss ≡ some e
    → (set_sockaddr_port port ss).port ≡ port
unfolding extract_ip_bytes set_sockaddr_port
port-set_port port ss e h = ground arith

-- What the dialler gets: a permitted address with the port that was asked for.
abbrev pub Dialable : InetPton → Acl → ℕ → SockAddr → Type 0
Dialable pton acl port ss =
    Permitted (parse_cidr_list pton acl.deny_cidrs) (parse_cidr_list pton acl.allow_cidrs) ss
    × (ss.port ≡ port)

Dialable-map :
    (pton : InetPton) (acl : Acl) (port : ℕ) (cs : List SockAddr)
    → All
        (Permitted (parse_cidr_list pton acl.deny_cidrs) (parse_cidr_list pton acl.allow_cidrs))
        cs
    → All (Dialable pton acl port) (map (set_sockaddr_port port) cs)
Dialable-map pton acl port [] h = tt
Dialable-map pton acl port (c ∷ cs) ((family, a, e, miss, hit), rest) = (
  ((family, a, extract-set_port port c ∙ e, miss, hit), port-set_port port c (family, a) e),
  Dialable-map pton acl port cs rest,
)

filter_resolved_addresses-eq-some :
    (pton : InetPton) (acl : Acl) (cs : List SockAddr) (port : ℕ) (outs : List SockAddr)
    → filter_resolved_addresses pton acl cs port ≡ some outs
    → (kept : List SockAddr) × (evaluate_candidates
          (parse_cidr_list pton acl.deny_cidrs)
          (parse_cidr_list pton acl.allow_cidrs)
          cs
        ≡ some kept)
      × (outs ≡ map (set_sockaddr_port port) kept)
unfolding filter_resolved_addresses
filter_resolved_addresses-eq-some pton acl cs port outs e = ground arith

map-ne-nil : (port : ℕ) (cs : List SockAddr) → cs ≢ [] → map (set_sockaddr_port port) cs ≢ []
map-ne-nil port [] h e = h refl
map-ne-nil port (c ∷ cs) h e = cc

pub filter_resolved_addresses-Dialable :
    (pton : InetPton) (acl : Acl) (cs : List SockAddr) (port : ℕ) (outs : List SockAddr)
    → filter_resolved_addresses pton acl cs port ≡ some outs
    → (outs ≢ []) × All (Dialable pton acl port) outs
filter_resolved_addresses-Dialable pton acl cs port outs e =
    let (kept, from, shape) = filter_resolved_addresses-eq-some pton acl cs port outs e in
    let (left, good) = evaluate_candidates-Permitted _ _ cs kept from in
    rw shape (map-ne-nil port kept left, Dialable-map pton acl port kept good)

-- What resolve_and_filter passes to the filter.
resolve_and_filter-eq-some :
    (pton : InetPton) (resolve : Resolver) (acl : Acl) (host : Bytes) (port : ℕ)
    (outs : List SockAddr)
    → resolve_and_filter pton resolve acl host port ≡ some outs
    → (cs : List SockAddr) × (filter_resolved_addresses pton acl cs port ≡ some outs)
unfolding resolve_and_filter
resolve_and_filter-eq-some pton resolve acl host port outs e =
    elim (Option-cases (parse_ip_literal pton host)) [
      | inr (literal, p) ↦ (set_sockaddr_port port literal ∷ [], ground arith)
      | inl p ↦ elim (Option-cases (resolve (c_str host) port)) [
        | inr (cs, q) ↦ (cs, ground arith)
        | inl q ↦ ([], ground arith)
      ]
    ]

-- Whatever host is asked for, a literal or a name, and whatever the resolver answers: the result is
-- not empty, and each address in it has the requested port, is matched by no deny entry and is
-- matched by some allow entry.
pub resolve_and_filter-Dialable :
    (pton : InetPton) (resolve : Resolver) (acl : Acl) (host : Bytes) (port : ℕ)
    (outs : List SockAddr)
    → resolve_and_filter pton resolve acl host port ≡ some outs
    → (outs ≢ []) × All (Dialable pton acl port) outs
resolve_and_filter-Dialable pton resolve acl host port outs e =
    let (cs, from) = resolve_and_filter-eq-some pton resolve acl host port outs e in
    filter_resolved_addresses-Dialable pton acl cs port outs from

-- One denied address among the candidates rejects them all.
matches_any-Any :
    (family : Family) (a : Bytes) (cidrs : List ParsedCidr)
    → Any (λ cidr. ip_matches_cidr family a cidr ≡ true) cidrs
    → matches_any family a cidrs ≡ true
unfolding matches_any
matches_any-Any family a [] h = absurd h
matches_any-Any family a (c ∷ cs) (inl hit) = ground arith
matches_any-Any family a (c ∷ cs) (inr rest) = ground (arith, matches_any-Any family a cs rest)

abbrev pub IsDenied : List ParsedCidr → SockAddr → Type 0
IsDenied deny ss =
    (family : Family) × (a : Bytes) × (extract_ip_bytes ss ≡ some (family, a))
    × Any (λ cidr. ip_matches_cidr family a cidr ≡ true) deny

any_denied-Any :
    (deny : List ParsedCidr) (cs : List SockAddr)
    → Any (IsDenied deny) cs
    → any_denied deny cs ≡ true
unfolding any_denied
any_denied-Any deny [] h = absurd h
any_denied-Any deny (c ∷ cs) (inl (family, a, e, hit)) =
    ground (arith, matches_any-Any family a deny hit)
any_denied-Any deny (c ∷ cs) (inr rest) = ground (arith, any_denied-Any deny cs rest)

-- If some candidate has readable address bytes that a parsed deny entry matches, the filter returns
-- nothing, whatever the other candidates and the allow list are.
pub filter_resolved_addresses-IsDenied :
    (pton : InetPton) (acl : Acl) (cs : List SockAddr) (port : ℕ)
    → Any (IsDenied (parse_cidr_list pton acl.deny_cidrs)) cs
    → filter_resolved_addresses pton acl cs port ≡ none
unfolding filter_resolved_addresses evaluate_candidates
filter_resolved_addresses-IsDenied pton acl cs port h =
    ground (arith, any_denied-Any (parse_cidr_list pton acl.deny_cidrs) cs h)
