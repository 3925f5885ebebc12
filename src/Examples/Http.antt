-- ===== src/Examples/Http.antt =====
-- src/ingress: an HTTP CONNECT client with the credentials of `u`, in two reads, with data behind the header.
use tcpquic_proxy.Base.{◌≡◌, refl, none, true, List, [], ◌∷◌, ◌++◌, Bytes}
use tcpquic_proxy.Base.Text.{
  codes, find_text, is_prefix, find_byte, find_byte_from, rfind_byte, bytes_eq, c_str,
}
use tcpquic_proxy.Acl.Cidr.{InetPton}
use tcpquic_proxy.Ingress.Auth.{User, enabled, difference, constant_time_equals, matched, validate}
use tcpquic_proxy.Ingress.Socks5.{InetNtop}
use tcpquic_proxy.Ingress.Http.{
  port_loop, parse_port, host_port_of, parse_bracketed, parse_plain, parse_host_port,
  addr_type_for_host, split_line, request_of_line, parse_http_connect_request,
}
use tcpquic_proxy.Ingress.HttpAuth.{
  base64_value, base64_decode_byte, base64_clean, base64_group, base64_groups, base64_decode,
  equals_ignore_case, skip_blanks, header_loop, find_http_header_value, split_credentials,
  parse_http_proxy_authorization, http_connect_request_auth_result, http_connect_request_authorized,
}
use tcpquic_proxy.Ingress.State.{
  http_connect, IngressState, new_state, opened, feed, dispatch, feed_http_connect, feed_header,
}
use tcpquic_proxy.Ingress.State.Opened.{Opened}
use tcpquic_proxy.Ingress.State.HttpSession.{start, sent, ready-Opened}

abbrev pton : InetPton
pton = record { ipv4 = λ t. none; ipv6 = λ t. none }

abbrev ntop : InetNtop
ntop = record { ipv4 = λ a. none; ipv6 = λ a. none }

abbrev users : List User
users = record { username = b'u' ∷ []; password = b'p' ∷ [] } ∷ []

abbrev start_state : IngressState
start_state = new_state http_connect users

abbrev part_1 : Bytes
part_1 = codes "CONNECT a:80 HTTP/1.1\r\nProxy-Auth"

abbrev part_2 : Bytes
part_2 = codes "orization: Basic dTpw\r\n\r\nhi"

abbrev final : IngressState
final = (feed pton ntop (feed pton ntop start_state part_1).0 part_2).0

request_run : final.ready ≡ true
unfolding feed dispatch feed_http_connect feed_header new_state opened find_text is_prefix find_byte
    find_byte_from rfind_byte bytes_eq c_str difference constant_time_equals matched validate
    port_loop parse_port host_port_of parse_bracketed parse_plain parse_host_port addr_type_for_host
    split_line request_of_line parse_http_connect_request base64_value base64_decode_byte
    base64_clean base64_group base64_groups base64_decode equals_ignore_case skip_blanks header_loop
    find_http_header_value split_credentials parse_http_proxy_authorization
    http_connect_request_auth_result http_connect_request_authorized
request_run = refl

-- The bytes behind the header are in the buffer.
request_rest : final.read_buffer ≡ codes "hi"
unfolding feed dispatch feed_http_connect feed_header new_state opened find_text is_prefix find_byte
    find_byte_from rfind_byte bytes_eq c_str difference constant_time_equals matched validate
    port_loop parse_port host_port_of parse_bracketed parse_plain parse_host_port addr_type_for_host
    split_line request_of_line parse_http_connect_request base64_value base64_decode_byte
    base64_clean base64_group base64_groups base64_decode equals_ignore_case skip_blanks header_loop
    find_http_header_value split_credentials parse_http_proxy_authorization
    http_connect_request_auth_result http_connect_request_authorized
request_rest = refl

is_on : enabled users ≡ true
is_on = refl

ready-Opened_example : Opened pton users ([] ++ part_1 ++ part_2) [] final
ready-Opened_example =
    ready-Opened {ntop = ntop} is_on (sent part_2 (sent part_1 start)) request_run
