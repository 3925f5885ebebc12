-- ===== src/Ingress/Http.antt =====
-- src/ingress/http_connect_server.cpp: the HTTP CONNECT request.
use tcpquic_proxy.Base.{
  ℕ, ◌+◌, ◌-◌, ◌*◌, not, ◌||◌, Option, none, some, [], ◌∷◌, ltb, leb, ◌==◌, if◌then◌else◌, Bytes,
  length, take, drop, is_empty,
}
use tcpquic_proxy.Base.Text.{
  codes, find_byte, find_byte_from, rfind_byte, find_text, is_prefix, bytes_eq, c_str,
}
use tcpquic_proxy.Protocol.Bytes.{at}
use tcpquic_proxy.Protocol.Frame.{addr_ipv4, addr_ipv6, addr_domain}
use tcpquic_proxy.Acl.Cidr.{InetPton, is_digit}
use tcpquic_proxy.Ingress.Request.{TunnelRequest, host_size}

abbrev pub crlf : Bytes
crlf = 13 ∷ 10 ∷ []

abbrev pub crlf_crlf : Bytes
crlf_crlf = 13 ∷ 10 ∷ 13 ∷ 10 ∷ []

pub record HostPort : Type 0 where
  pub host : Bytes
  pub port : ℕ

-- The loop of TqParsePort.
unfoldable pub port_loop : ℕ → Bytes → Option ℕ
port_loop value [] = some value
port_loop value (ch ∷ text) =
    let value' = value * 10 + (ch - b'0') in
    let rest = port_loop value' text in
    if not (is_digit ch) then none else if ltb 65535 value' then none else rest

unfoldable pub parse_port : Bytes → Option ℕ
parse_port text = if is_empty text then none else elim (port_loop 0 text) [
  | none ↦ none
  | some value ↦ if value == 0 then none else some value
]

-- The end of TqParseHostPort, behind both branches.
unfoldable pub host_port_of : Bytes → Bytes → Option HostPort
host_port_of host port_text = elim (parse_port port_text) [
  | none ↦ none
  | some port ↦ if is_empty host then none else some (record { host = host; port = port })
]

-- `[host]:port`
unfoldable pub parse_bracketed : Bytes → Option HostPort
parse_bracketed target = elim (find_byte b']' target) [
  | none ↦ none
  | some close ↦
      if leb (length target) (close + 1) || not (at target (close + 1) == b':')
      then none
      else host_port_of (take (close - 1) (drop 1 target)) (drop (close + 2) target)
]

-- `host:port`
unfoldable pub parse_plain : Bytes → Option HostPort
parse_plain target = elim (rfind_byte b':' target) [
  | none ↦ none
  | some colon ↦
      if colon == 0 || leb (length target) (colon + 1)
      then none
      else elim (find_byte b':' (take colon target)) [
        | some _ ↦ none
        | none ↦ host_port_of (take colon target) (drop (colon + 1) target)
      ]
]

unfoldable pub parse_host_port : Bytes → Option HostPort
parse_host_port target = elim (find_text (codes "://") target) [
  | some _ ↦ none
  | none ↦
      if is_empty target
      then none
      else if at target 0 == b'['
      then parse_bracketed target
      else parse_plain target
]

unfoldable pub addr_type_for_host : InetPton → Bytes → ℕ
addr_type_for_host pton host = elim (pton.ipv4 (c_str host)) [
  | some _ ↦ addr_ipv4
  | none ↦ elim (pton.ipv6 (c_str host)) [ some _ ↦ addr_ipv6 | none ↦ addr_domain ]
]

-- TqHttpStatusForOpenError, on the code of the error.
unfoldable pub status_for_open_error : ℕ → ℕ
status_for_open_error error =
    if error == 0x00
    then 200
    else if error == 0x01
    then 403
    else if error == 0x02 || error == 0x04
    then 502
    else if error == 0x03
    then 504
    else 500

-- The request line, cut at its two blanks.
pub record RequestLine : Type 0 where
  pub method : Bytes
  pub target : Bytes
  pub version : Bytes

unfoldable pub split_line : Bytes → Option RequestLine
split_line line = elim (find_byte b' ' line) [
  | none ↦ none
  | some method_end ↦ elim (find_byte_from b' ' line (method_end + 1)) [
    | none ↦ none
    | some target_end ↦ elim (find_byte_from b' ' line (target_end + 1)) [
      | some _ ↦ none
      | none ↦ some (record {
        method = take method_end line;
        target = take (target_end - method_end - 1) (drop (method_end + 1) line);
        version = drop (target_end + 1) line;
      })
    ]
  ]
]

-- The part of TqParseHttpConnectRequest behind the cut.
unfoldable pub request_of_line : InetPton → RequestLine → Option TunnelRequest
request_of_line pton line =
    let request : Option TunnelRequest = elim (parse_host_port line.target) [
      | none ↦ none
      | some hp ↦
          if leb host_size (length hp.host)
          then none
          else some (record {
            addr_type = addr_type_for_host pton hp.host;
            host = c_str hp.host;
            port = hp.port;
            compress_flags = 0;
            ingress_trace_proto = 0;
          })
    ] in
    if not (bytes_eq line.method (codes "CONNECT"))
      || not (is_prefix (codes "HTTP/1.") line.version)
      || not (length line.version == 8)
    then none
    else request

unfoldable pub parse_http_connect_request : InetPton → Bytes → Option TunnelRequest
parse_http_connect_request pton request = elim (find_text crlf_crlf request) [
  | none ↦ none
  | some header_end ↦ elim (find_text crlf request) [
    | none ↦ none
    | some line_end ↦
        if line_end == 0 || ltb header_end line_end
        then none
        else elim (split_line (take line_end request)) [
          | none ↦ none
          | some line ↦ request_of_line pton line
        ]
  ]
]
