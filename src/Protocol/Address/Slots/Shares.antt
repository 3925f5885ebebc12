-- ===== src/Protocol/Address/Slots/Shares.antt =====
-- src/protocol/quic_address.cpp: how the peers share the slots, and what a slot connects to.
use native.Mathlib.Nat.{mod-lt}
use tcpquic_proxy.Base.{
  ℕ, zero, suc, ◌+◌, ◌%◌, ◌<◌, ◌≡◌, ◌≢◌, refl, ap, ◌∙◌, true, List, [], ◌∷◌, ◌++◌, if◌then◌else◌,
  length, is_empty, get_or, replicate, All, arith, length-append, Bool-cases, inl, inr,
}
use tcpquic_proxy.Base.Sums.{total}
use tcpquic_proxy.Base.Select.{All-append}
use tcpquic_proxy.Base.Text.{codes}
use tcpquic_proxy.Protocol.Address.Endpoint.{
  Endpoint, endpoints, parse_endpoint, parse_endpoint_list,
}
use tcpquic_proxy.Protocol.Address.Slots.{
  QuicPath, ClientPaths, SlotPath, slots, slot_of, expand_paths, no_endpoint, expand_peers,
  build_client_slot_paths,
}
use tcpquic_proxy.Protocol.Address.Endpoint.Named.{
  IsNamed, parsed_cases, list_cases, parse_endpoint-IsNamed, parse_endpoint_list-IsNamed,
}

abbrev pub IsDialable : SlotPath → Type 0
IsDialable s = IsNamed s.peer_host s.peer_port

get_or-IsNamed :
    (es : List Endpoint) (i : ℕ)
    → All (λ e. IsNamed e.host e.port) es
    → i < length es
    → IsNamed (get_or es i no_endpoint).host (get_or es i no_endpoint).port
get_or-IsNamed [] i h low = absurd (omega arith)
get_or-IsNamed (e ∷ es) zero (h, hs) low = h
get_or-IsNamed (e ∷ es) (suc i) (h, hs) low = get_or-IsNamed es i hs (omega arith)

expand_peers-length :
    (peers : List Endpoint) (i left : ℕ) → length (expand_peers peers i left) ≡ left
unfolding expand_peers
expand_peers-length peers i zero = refl
expand_peers-length peers i (suc left) = ap suc (expand_peers-length peers (i + 1) left)

expand_peers-get_or :
    (peers : List Endpoint) (i left j : ℕ) (d : SlotPath)
    → j < left
    → get_or (expand_peers peers i left) j d
      ≡ slot_of (codes "default") [] (get_or peers ((i + j) % length peers) no_endpoint)
unfolding expand_peers
expand_peers-get_or peers i zero j d low = absurd (omega arith)
expand_peers-get_or peers i (suc left) zero d low =
    let same : i ≡ i + 0 = omega arith in
    ap (λ k. slot_of (codes "default") [] (get_or peers (k % length peers) no_endpoint)) same
expand_peers-get_or peers i (suc left) (suc j) d low =
    let same : i + 1 + j ≡ i + suc j = omega arith in
    expand_peers-get_or peers (i + 1) left j d (omega arith)
    ∙ ap (λ k. slot_of (codes "default") [] (get_or peers (k % length peers) no_endpoint)) same

expand_peers-IsDialable :
    (peers : List Endpoint) (i left : ℕ)
    → length peers ≢ 0
    → All (λ e. IsNamed e.host e.port) peers
    → All IsDialable (expand_peers peers i left)
unfolding expand_peers
expand_peers-IsDialable peers i zero some_peer h = tt
expand_peers-IsDialable peers i (suc left) some_peer h = (
  get_or-IsNamed peers (i % length peers) h (mod-lt i (omega arith)),
  expand_peers-IsDialable peers (i + 1) left some_peer h,
)

replicate-IsDialable :
    (n : ℕ) (s : SlotPath)
    → IsDialable s
    → All IsDialable (replicate n s) × (length (replicate n s) ≡ n)
replicate-IsDialable zero s h = (tt, refl)
replicate-IsDialable (suc n) s h =
    let (all, same) = replicate-IsDialable n s h in ((h, all), ap suc same)

abbrev pub connections_of : QuicPath → ℕ
connections_of p = p.connections

expand_paths-IsDialable :
    (paths : List QuicPath) (expanded ss : List SlotPath)
    → expand_paths paths expanded ≡ slots ss
    → All IsDialable expanded
    → All IsDialable ss
      × (length ss ≡ length expanded + total connections_of paths)
      × (length ss ≢ 0)
unfolding expand_paths
expand_paths-IsDialable [] [] ss e h = absurd (ground arith)
expand_paths-IsDialable [] (s ∷ expanded) ss e h =
    let same : ss ≡ s ∷ expanded = ground arith in
    rw same (h, omega arith, λ none_left. absurd (omega arith))
expand_paths-IsDialable (path ∷ paths) expanded ss e h =
    elim (parsed_cases (parse_endpoint path.peer)) [
      | inl f ↦ absurd (ground arith)
      | inr (peer, f) ↦
          let slot = slot_of path.name path.local_address peer in
          let (named, many) =
            replicate-IsDialable path.connections slot (parse_endpoint-IsNamed path.peer peer f) in
          let longer = length-append expanded (replicate path.connections slot) in
          let (all, same, some_slot) =
            expand_paths-IsDialable paths (expanded ++ replicate path.connections slot) ss
              (ground arith)
              (All-append IsDialable expanded (replicate path.connections slot) h named) in
          (all, omega arith, some_slot)
    ]

-- The connections that the configuration asks for.
abbrev pub wanted : ClientPaths → ℕ
wanted c = if is_empty c.quic_paths then c.quic_connections else total connections_of c.quic_paths

peers_lem :
    (c : ClientPaths)
    → is_empty c.quic_paths ≡ true
    → (peers : List Endpoint) → parse_endpoint_list c.quic_peer ≡ endpoints peers
    → 0 < c.quic_connections
    → build_client_slot_paths c ≡ slots (expand_peers peers 0 c.quic_connections)
unfolding build_client_slot_paths
peers_lem c no_path [] e some_connection =
    absurd ((parse_endpoint_list-IsNamed c.quic_peer [] e).0 refl)
peers_lem c no_path (peer ∷ peers) e some_connection = ground arith

-- Whenever TqBuildClientSlotPaths returns slots, there is at least one; there are as many as the
-- configuration asks for, the connections of all the paths or, without paths, of the peer list; and
-- each of them has a host and a port between 1 and 65535 to connect to.
pub build_client_slot_paths-IsDialable :
    (c : ClientPaths) (ss : List SlotPath)
    → build_client_slot_paths c ≡ slots ss
    → All IsDialable ss × (length ss ≡ wanted c) × (length ss ≢ 0)
unfolding build_client_slot_paths
build_client_slot_paths-IsDialable c ss e = elim (Bool-cases (is_empty c.quic_paths)) [
  | inr paths ↦
      let (all, same, some_slot) = expand_paths-IsDialable c.quic_paths [] ss (ground arith) tt in
      (all, ground arith, some_slot)
  | inl no_path ↦ elim (list_cases (parse_endpoint_list c.quic_peer)) [
    | inr (bad, f) ↦ absurd (ground arith)
    | inl (peers, f) ↦
        let (some_peer, named) = parse_endpoint_list-IsNamed c.quic_peer peers f in
        let some_connection : 0 < c.quic_connections = ground arith in
        let built = peers_lem c no_path peers f some_connection in
        let same : ss ≡ expand_peers peers 0 c.quic_connections = ground arith in
        let many = expand_peers-length peers 0 c.quic_connections in
        rw same (
          expand_peers-IsDialable peers 0 c.quic_connections some_peer named,
          ground arith,
          λ none_left. absurd (omega arith),
        )
  ]
]

-- Without paths the peers of a list that is parsed take the slots in turn: there are as many slots
-- as connections, and slot i belongs to the peer whose place in the list is i modulo their number.
pub build_client_slot_paths-in_turn :
    (c : ClientPaths) (peers : List Endpoint) (i : ℕ) (d : SlotPath)
    → is_empty c.quic_paths ≡ true
    → parse_endpoint_list c.quic_peer ≡ endpoints peers
    → i < c.quic_connections
    → (ss : List SlotPath) × (build_client_slot_paths c ≡ slots ss)
      × (length ss ≡ c.quic_connections)
      × (get_or ss i d ≡ slot_of (codes "default") [] (get_or peers (i % length peers) no_endpoint))
build_client_slot_paths-in_turn c peers i d no_path e low =
    let first : 0 + i ≡ i = omega arith in
    (
      expand_peers peers 0 c.quic_connections,
      peers_lem c no_path peers e (omega arith),
      expand_peers-length peers 0 c.quic_connections,
      expand_peers-get_or peers 0 c.quic_connections i d low
          ∙ ap (λ k. slot_of (codes "default") [] (get_or peers (k % length peers) no_endpoint))
              first,
    )
