-- ===== src/Ingress/Socks5/Accepts.antt =====
-- Which requests src/ingress/socks5_server.cpp accepts, against the messages a client writes.
use tcpquic_proxy.Base.{
  ℕ, ◌^◌, ◌≤◌, ◌<◌, ◌≡◌, some, [], ◌∷◌, ◌++◌, Bytes, arith, length, length-append, take-append, All,
  ◌≢◌, refl, ap, ◌∙◌,
}
use tcpquic_proxy.Base.Text.{c_str}
use tcpquic_proxy.Protocol.Bytes.{write_u16_be}
use tcpquic_proxy.Protocol.Bytes.Laws.{read-write_u16}
use tcpquic_proxy.Protocol.Frame.{addr_ipv4, addr_domain}
use tcpquic_proxy.Ingress.Request.{TunnelRequest}
use tcpquic_proxy.Ingress.Socks5.{
  socks5_version, cmd_connect, atyp_ipv4, atyp_domain, InetNtop, parse_address, finish_request,
  parse_connect_request,
}

-- RFC 1928: a CONNECT request with its address type and address, to a port.
abbrev pub connect_message : ℕ → Bytes → ℕ → Bytes
connect_message atyp addr port =
    socks5_version ∷ cmd_connect ∷ 0x00 ∷ atyp ∷ (addr ++ write_u16_be port [])

abbrev pub tunnel_to : ℕ → Bytes → ℕ → TunnelRequest
tunnel_to addr_type host port = record {
  addr_type = addr_type;
  host = host;
  port = port;
  compress_flags = 0;
  ingress_trace_proto = 0;
}

-- No byte of it is 0.
abbrev pub IsText : Bytes → Type 0
IsText = All (λ b. b ≢ 0)

-- Nothing, or bytes that begin with a 0.
abbrev pub IsCut : Bytes → Type 0
IsCut [] = Unit
IsCut (b ∷ bs) = b ≡ 0

c_str-append : (text rest : Bytes) → IsText text → IsCut rest → c_str (text ++ rest) ≡ text
unfolding c_str
c_str-append [] [] h e = refl
c_str-append [] (b ∷ bs) h e = ground arith
c_str-append (b ∷ text) rest (h, hs) e = ground (arith, c_str-append text rest hs e)

c_str-text : (text : Bytes) → IsText text → c_str text ≡ text
unfolding c_str
c_str-text [] h = refl
c_str-text (b ∷ text) (h, hs) = ground (arith, c_str-text text hs)

parse-name :
    (ntop : InetNtop) (host : Bytes) (port : ℕ)
    → 1 ≤ length host
    → length host ≤ 255
    → 1 ≤ port
    → port < 2 ^ 16
    → parse_connect_request ntop (connect_message atyp_domain (length host ∷ host) port)
      ≡ some (tunnel_to addr_domain (c_str host) port)
unfolding parse_connect_request parse_address finish_request
parse-name ntop host port low high h hp = ground (
  arith,
  length-append host (write_u16_be port []),
  take-append host (write_u16_be port []),
  read-write_u16 (socks5_version ∷ cmd_connect ∷ 0x00 ∷ atyp_domain ∷ length host ∷ host) [] port
      hp,
)

-- The CONNECT message for a name of 1 to 255 bytes and a port from 1 to 65535 is parsed into a
-- request for that port and for the text in front of the first byte 0 of the name, which is the whole
-- name if it has none.
pub parse-connect_domain :
    (ntop : InetNtop) (text rest : Bytes) (port : ℕ)
    → IsText text
    → IsCut rest
    → 1 ≤ length (text ++ rest)
    → length (text ++ rest) ≤ 255
    → 1 ≤ port
    → port < 2 ^ 16
    → parse_connect_request ntop
        (connect_message atyp_domain (length (text ++ rest) ∷ (text ++ rest)) port)
      ≡ some (tunnel_to addr_domain text port)
parse-connect_domain ntop text rest port clean cut low high h hp =
    parse-name ntop (text ++ rest) port low high h hp
    ∙ ap (λ t. some (tunnel_to addr_domain t port)) (c_str-append text rest clean cut)

-- The CONNECT message for an IPv4 address is parsed into a request for its text and port, if
-- inet_ntop writes a C string, a text of 1 to 255 bytes of which none is 0, and the port is from 1 to
-- 65535.
pub parse-connect_ipv4 :
    (ntop : InetNtop) (a b c d port : ℕ) (text : Bytes)
    → ntop.ipv4 (a ∷ b ∷ c ∷ d ∷ []) ≡ some text
    → IsText text
    → 1 ≤ length text
    → length text ≤ 255
    → 1 ≤ port
    → port < 2 ^ 16
    → parse_connect_request ntop (connect_message atyp_ipv4 (a ∷ b ∷ c ∷ d ∷ []) port)
      ≡ some (tunnel_to addr_ipv4 text port)
unfolding parse_connect_request parse_address finish_request
parse-connect_ipv4 ntop a b c d port text e clean low high h hp = ground (
  arith,
  c_str-text text clean,
  read-write_u16 (socks5_version ∷ cmd_connect ∷ 0x00 ∷ atyp_ipv4 ∷ a ∷ b ∷ c ∷ d ∷ []) [] port hp,
)
