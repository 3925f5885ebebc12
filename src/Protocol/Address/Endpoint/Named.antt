-- ===== src/Protocol/Address/Endpoint/Named.antt =====
-- src/protocol/quic_address.cpp: an endpoint that is parsed has a host and a port.
use tcpquic_proxy.Base.{
  ℕ, suc, ◌+◌, ◌-◌, ◌*◌, ◌≤◌, ◌<◌, ◌≡◌, ◌≢◌, refl, sym, ap, ◌∙◌, Option, none, some, List, [], ◌∷◌,
  Bytes, length, is_empty, All, arith, Bool-cases, inl, inr, ◌⊎◌,
}
use tcpquic_proxy.Protocol.Address.Endpoint.{
  Endpoint, EndpointList, endpoints, invalid_endpoint, port_digits, read_port, endpoint_of,
  cut_endpoint, parse_endpoint, trim_list_item, items_of, parse_items, parse_endpoint_list,
}

-- A host and a port that one can connect to.
abbrev pub IsNamed : Bytes → ℕ → Type 0
IsNamed host port = (host ≢ []) × (0 < port) × (port < 65536)

port_digits-bounds :
    (parsed : ℕ) (value : Bytes) (port : ℕ)
    → parsed ≤ 65535
    → port_digits parsed value ≡ some port
    → port ≤ 65535
unfolding port_digits
port_digits-bounds parsed [] port small e = ground arith
port_digits-bounds parsed (ch ∷ value) port small e =
    let on = port_digits-bounds (parsed * 10 + (ch - b'0')) value port in ground arith

read_port-bounds :
    (value : Bytes) (port : ℕ) → read_port value ≡ some port → (0 < port) × (port < 65536)
unfolding read_port
read_port-bounds value port e =
    let small = port_digits-bounds 0 value port (omega arith) in ground arith

pub cut_cases :
    (p : Option (Bytes × Bytes))
    → (p ≡ none) ⊎ ((host : Bytes) × (port_text : Bytes) × (p ≡ some (host, port_text)))
cut_cases none = inl refl
cut_cases (some (host, port_text)) = inr (host, port_text, refl)

pub parsed_cases : (p : Option Endpoint) → (p ≡ none) ⊎ ((e : Endpoint) × (p ≡ some e))
parsed_cases none = inl refl
parsed_cases (some e) = inr (e, refl)

pub list_cases :
    (p : EndpointList)
    → ((es : List Endpoint) × (p ≡ endpoints es)) ⊎ ((bad : Bytes) × (p ≡ invalid_endpoint bad))
list_cases (endpoints es) = inl (es, refl)
list_cases (invalid_endpoint bad) = inr (bad, refl)

endpoint_of-IsNamed :
    (host port_text : Bytes) (e : Endpoint)
    → endpoint_of host port_text ≡ some e
    → IsNamed e.host e.port
unfolding endpoint_of
endpoint_of-IsNamed [] port_text e parsed = absurd (ground arith)
endpoint_of-IsNamed (b ∷ host) port_text e parsed =
    let bounds = read_port-bounds port_text e.port in
    let same : e.host ≡ b ∷ host = ground arith in
    (λ empty. absurd (ground arith), ground arith, ground arith)

pub parse_endpoint-IsNamed :
    (value : Bytes) (e : Endpoint) → parse_endpoint value ≡ some e → IsNamed e.host e.port
unfolding parse_endpoint
parse_endpoint-IsNamed value e parsed = elim (Bool-cases (is_empty value)) [
  | inl f ↦ absurd (ground arith)
  | inr f ↦ elim (cut_cases (cut_endpoint value)) [
    | inl g ↦ absurd (ground arith)
    | inr (host, port_text, g) ↦ endpoint_of-IsNamed host port_text e (ground arith)
  ]
]

parse_items-IsNamed :
    (items : List Bytes) (es : List Endpoint)
    → parse_items items ≡ endpoints es
    → (length es ≡ length items) × All (λ e. IsNamed e.host e.port) es
unfolding parse_items
parse_items-IsNamed [] [] e = (refl, tt)
parse_items-IsNamed [] (e' ∷ es) e = absurd (ground arith)
parse_items-IsNamed (value ∷ items) es e =
    elim (parsed_cases (parse_endpoint (trim_list_item value))) [
      | inl f ↦ absurd (ground arith)
      | inr (first, f) ↦ elim (list_cases (parse_items items)) [
        | inr (bad, g) ↦ absurd (ground arith)
        | inl (rest, g) ↦
            let (same, named) = parse_items-IsNamed items rest g in
            let whole : es ≡ first ∷ rest = ground arith in
            rw whole (ap suc same, (parse_endpoint-IsNamed (trim_list_item value) first f, named))
      ]
    ]

items-some : (value : Bytes) → length (items_of value) ≢ 0
unfolding items_of
items-some [] = λ e. absurd (omega arith)
items-some (ch ∷ value) = λ e. items-some value (ground arith)

pub parse_endpoint_list-IsNamed :
    (value : Bytes) (es : List Endpoint)
    → parse_endpoint_list value ≡ endpoints es
    → (length es ≢ 0) × All (λ e. IsNamed e.host e.port) es
unfolding parse_endpoint_list
parse_endpoint_list-IsNamed value es e =
    let (same, named) = parse_items-IsNamed (items_of value) es e in
    (λ none_left. items-some value (sym same ∙ none_left), named)
