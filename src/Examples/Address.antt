-- ===== src/Examples/Address.antt =====
-- src/protocol/quic_address.cpp: the endpoint [::1]:443.
use tcpquic_proxy.Base.{◌≡◌, refl, some, [], ◌∷◌, inl, Bytes, arith}
use tcpquic_proxy.Base.Text.{codes, find_byte, find_byte_from}
use tcpquic_proxy.Protocol.Address.Endpoint.{
  endpoints, invalid_endpoint, parse_endpoint, parse_endpoint_list, format_endpoint, parse_items,
  items_of, trim_list_item, trim_left, trim_right, cut_endpoint, cut_plain, cut_bracketed,
  endpoint_of, read_port, port_digits,
}
use tcpquic_proxy.Protocol.Address.Endpoint.RoundTrip.{IsHost, parse-format_endpoint}

abbrev loopback : Bytes
loopback = codes "::1"

loopback-IsHost : IsHost loopback
unfolding find_byte
loopback-IsHost = ((λ e. cc), inl ((λ e. cc), ((λ e. cc), ((λ e. cc), ((λ e. cc), tt)))))

parse-format_endpoint_example :
    parse_endpoint (format_endpoint (record { host = loopback; port = 443 }))
    ≡ some (record { host = loopback; port = 443 })
parse-format_endpoint_example =
    parse-format_endpoint loopback 443 loopback-IsHost (omega arith) (omega arith)

parses :
    parse_endpoint_list (codes "a:1, [::1]:443")
    ≡ endpoints
        (record { host = codes "a"; port = 1 } ∷ record { host = loopback; port = 443 } ∷ [])
unfolding parse_endpoint_list parse_items items_of trim_list_item trim_left trim_right
    parse_endpoint cut_endpoint cut_plain cut_bracketed endpoint_of read_port port_digits find_byte
    find_byte_from
parses = refl

refuses : parse_endpoint_list (codes "a:1,") ≡ invalid_endpoint []
unfolding parse_endpoint_list parse_items items_of trim_list_item trim_left trim_right
    parse_endpoint cut_endpoint cut_plain cut_bracketed endpoint_of read_port port_digits find_byte
    find_byte_from
refuses = refl
