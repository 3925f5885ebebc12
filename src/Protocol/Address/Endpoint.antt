-- ===== src/Protocol/Address/Endpoint.antt =====
-- src/protocol/quic_address.cpp: the texts of endpoints, `host:port` and `[host]:port`, and of lists.
pub mod RoundTrip
pub mod Named
use tcpquic_proxy.Base.{
  ℕ, suc, ◌+◌, ◌-◌, ◌*◌, Bool, true, false, not, ◌&&◌, ◌||◌, Option, none, some, List, [], ◌∷◌,
  ◌++◌, ltb, leb, ◌==◌, if◌then◌else◌, Bytes, length, take, drop, is_empty,
}
use tcpquic_proxy.Base.Text.{find_byte, find_byte_from}
use tcpquic_proxy.Base.Decimal.{to_string}
use tcpquic_proxy.Protocol.Bytes.{at}
use tcpquic_proxy.Acl.Cidr.{is_digit}

-- TqEndpoint
pub record Endpoint : Type 0 where
  pub host : Bytes
  pub port : ℕ

-- The loop of TqParsePort.
unfoldable pub port_digits : ℕ → Bytes → Option ℕ
port_digits parsed [] = some parsed
port_digits parsed (ch ∷ value) =
    let parsed' = parsed * 10 + (ch - b'0') in
    let rest = port_digits parsed' value in
    if not (is_digit ch) then none else if ltb 65535 parsed' then none else rest

unfoldable pub read_port : Bytes → Option ℕ
read_port value = if is_empty value then none else elim (port_digits 0 value) [
  | none ↦ none
  | some parsed ↦ if parsed == 0 then none else some parsed
]

abbrev pub is_blank : ℕ → Bool
is_blank ch = ch == b' ' || ch == 9

-- The two loops of TqTrimListItem.
unfoldable pub trim_left : Bytes → Bytes
trim_left [] = []
trim_left (ch ∷ value) = let rest = trim_left value in if is_blank ch then rest else ch ∷ value

unfoldable pub trim_right : Bytes → Bytes
trim_right [] = []
trim_right (ch ∷ value) =
    let rest = trim_right value in if is_empty rest && is_blank ch then [] else ch ∷ rest

unfoldable pub trim_list_item : Bytes → Bytes
trim_list_item value = trim_right (trim_left value)

-- The end of TqParseEndpoint, behind both branches.
unfoldable pub endpoint_of : Bytes → Bytes → Option Endpoint
endpoint_of host port_text = if is_empty host then none else elim (read_port port_text) [
  | none ↦ none
  | some port ↦ some (record { host = host; port = port })
]

-- The host and the text of the port.
unfoldable pub cut_bracketed : Bytes → Option (Bytes × Bytes)
cut_bracketed value = elim (find_byte b']' value) [
  | none ↦ none
  | some close ↦
      if leb (length value) (close + 1) || not (at value (close + 1) == b':')
      then none
      else some (take (close - 1) (drop 1 value), drop (close + 2) value)
]

unfoldable pub cut_plain : Bytes → Option (Bytes × Bytes)
cut_plain value = elim (find_byte b':' value) [
  | none ↦ none
  | some colon ↦ elim (find_byte_from b':' value (colon + 1)) [
    | some _ ↦ none
    | none ↦
        if colon == 0 || leb (length value) (colon + 1)
        then none
        else some (take colon value, drop (colon + 1) value)
  ]
]

unfoldable pub cut_endpoint : Bytes → Option (Bytes × Bytes)
cut_endpoint value = if at value 0 == b'[' then cut_bracketed value else cut_plain value

-- TqParseEndpoint
unfoldable pub parse_endpoint : Bytes → Option Endpoint
parse_endpoint value = if is_empty value then none else elim (cut_endpoint value) [
  | none ↦ none
  | some (host, port_text) ↦ endpoint_of host port_text
]

-- The items that the loop of TqParseEndpointList cuts at the commas.
unfoldable pub items_of : Bytes → List Bytes
items_of [] = [] ∷ []
items_of (ch ∷ value) =
    let rest = items_of value in
    if ch == b','
    then [] ∷ rest
    else elim rest [ [] ↦ (ch ∷ []) ∷ [] | item ∷ items ↦ (ch ∷ item) ∷ items ]

-- The loop: the endpoints, or the first item that is not one.
pub data EndpointList : Type 0 where
  endpoints : List Endpoint → EndpointList
  invalid_endpoint : Bytes → EndpointList

unfoldable pub parse_items : List Bytes → EndpointList
parse_items [] = endpoints []
parse_items (value ∷ items) =
    let item = trim_list_item value in
    elim (parse_endpoint item) [
      | none ↦ invalid_endpoint item
      | some e ↦ elim (parse_items items) [
        | endpoints es ↦ endpoints (e ∷ es)
        | invalid_endpoint bad ↦ invalid_endpoint bad
      ]
    ]

-- TqParseEndpointList
unfoldable pub parse_endpoint_list : Bytes → EndpointList
parse_endpoint_list value = parse_items (items_of value)

-- TqFormatEndpoint
unfoldable pub format_endpoint : Endpoint → Bytes
format_endpoint e = elim (find_byte b':' e.host) [
  | some _ ↦ (b'[' ∷ []) ++ e.host ++ (b']' ∷ b':' ∷ to_string e.port)
  | none ↦ e.host ++ (b':' ∷ to_string e.port)
]
