-- ===== src/Ingress/Socks5.antt =====
-- src/ingress/socks5_server.cpp: the CONNECT request and the reply codes. TqInetNtop is the
-- platform's inet_ntop, a parameter.
pub mod Accepts
use tcpquic_proxy.Base.{
  ℕ, ◌+◌, Bool, not, ◌&&◌, ◌||◌, Option, none, some, ltb, leb, ◌==◌, if◌then◌else◌, Bytes, length,
  take, drop, is_empty,
}
use tcpquic_proxy.Base.Text.{c_str}
use tcpquic_proxy.Protocol.Bytes.{at, read_u16_be}
use tcpquic_proxy.Protocol.Frame.{addr_ipv4, addr_ipv6, addr_domain}
use tcpquic_proxy.Ingress.Request.{TunnelRequest, host_size}

abbrev pub socks5_version : ℕ
socks5_version = 0x05

abbrev pub cmd_connect : ℕ
cmd_connect = 0x01

abbrev pub atyp_ipv4 : ℕ
atyp_ipv4 = 0x01

abbrev pub atyp_domain : ℕ
atyp_domain = 0x03

abbrev pub atyp_ipv6 : ℕ
atyp_ipv6 = 0x04

-- inet_ntop for AF_INET and for AF_INET6: the text of 4 or 16 bytes.
pub record InetNtop : Type 0 where
  pub ipv4 : Bytes → Option Bytes
  pub ipv6 : Bytes → Option Bytes

-- TqSocks5RepForOpenError, on the code of the error.
unfoldable pub rep_for_open_error : ℕ → ℕ
rep_for_open_error error =
    if error == 0x00
    then 0x00
    else if error == 0x01
    then 0x02
    else if error == 0x02
    then 0x04
    else if error == 0x04
    then 0x05
    else if error == 0x03
    then 0x06
    else 0x01

-- The address of a request: its host, its type, and the offset behind it.
pub record Address : Type 0 where
  pub host : Bytes
  pub addr_type : ℕ
  pub offset : ℕ

unfoldable pub parse_address : InetNtop → Bytes → Option Address
parse_address ntop request =
    let ipv4 : Option Address = elim (ntop.ipv4 (take 4 (drop 4 request))) [
      | none ↦ none
      | some text ↦ some (record { host = text; addr_type = addr_ipv4; offset = 8 })
    ] in
    let ipv6 : Option Address = elim (ntop.ipv6 (take 16 (drop 4 request))) [
      | none ↦ none
      | some text ↦ some (record { host = text; addr_type = addr_ipv6; offset = 20 })
    ] in
    let len = at request 4 in
    if at request 3 == atyp_ipv4
    then if not (length request == 10) then none else ipv4
    else if at request 3 == atyp_domain
    then if len == 0 || not (length request == 7 + len)
      then none
      else some
          (record { host = take len (drop 5 request); addr_type = addr_domain; offset = 5 + len })
    else if at request 3 == atyp_ipv6
    then if not (length request == 22) then none else ipv6
    else none

-- What follows the switch: the host must fit, and the last two bytes are a port that is not 0. The
-- bytes of the host are copied into the array, which ends for its readers at the first NUL.
unfoldable pub finish_request : Bytes → Address → Option TunnelRequest
finish_request request a =
    let port = read_u16_be request a.offset in
    if is_empty a.host || leb host_size (length a.host) || not (a.offset + 2 == length request)
    then none
    else if port == 0
    then none
    else some (record {
      addr_type = a.addr_type;
      host = c_str a.host;
      port = port;
      compress_flags = 0;
      ingress_trace_proto = 0;
    })

-- TqParseSocks5ConnectRequest.
unfoldable pub parse_connect_request : InetNtop → Bytes → Option TunnelRequest
parse_connect_request ntop request =
    let address = parse_address ntop request in
    if ltb (length request) 7
      || not (at request 0 == socks5_version)
      || not (at request 1 == cmd_connect)
      || not (at request 2 == 0x00)
    then none
    else elim address [ none ↦ none | some a ↦ finish_request request a ]
