-- ===== src/Ingress/State.antt =====
-- src/ingress/client_ingress_state.cpp: what a front end does with the bytes of a client until a
-- tunnel can be opened.
pub mod Chunks
pub mod Gate
pub mod Http
pub mod Opened
pub mod HttpSession
pub mod Session
use tcpquic_proxy.Base.{
  ℕ, ◌+◌, Bool, true, false, not, ◌&&◌, ◌||◌, Option, none, some, List, [], ◌∷◌, ◌++◌, ltb, leb,
  ◌==◌, if◌then◌else◌, Bytes, length, take, drop, is_empty, min,
}
use tcpquic_proxy.Base.Text.{codes, find_text}
use tcpquic_proxy.Protocol.Bytes.{at}
use tcpquic_proxy.Acl.Cidr.{InetPton}
use tcpquic_proxy.Ingress.Request.{TunnelRequest, empty_request}
use tcpquic_proxy.Ingress.Auth.{User, enabled, validate, max_field_bytes}
use tcpquic_proxy.Ingress.Socks5.{
  InetNtop, socks5_version, atyp_ipv4, atyp_domain, atyp_ipv6, parse_connect_request,
}
use tcpquic_proxy.Ingress.Http.{crlf_crlf, parse_http_connect_request}
use tcpquic_proxy.Ingress.HttpAuth.{http_connect_request_authorized}

pub data Proto : Type 0 where
  socks5 http_connect : Proto

pub data IngressResult : Type 0 where
  need_read need_write ready_to_open close : IngressResult

pub record IngressState : Type 0 where
  pub proto : Proto
  pub auth : List User
  pub read_buffer : Bytes
  pub write_buffer : Bytes
  pub parsed_request : TunnelRequest
  pub socks_greeting_done : Bool
  pub socks_auth_pending : Bool
  pub close_after_write : Bool
  pub ready : Bool

unfoldable pub new_state : Proto → List User → IngressState
new_state proto auth = record {
  proto = proto;
  auth = auth;
  read_buffer = [];
  write_buffer = [];
  parsed_request = empty_request;
  socks_greeting_done = false;
  socks_auth_pending = false;
  close_after_write = false;
  ready = false;
}

abbrev pub no_auth : ℕ
no_auth = 0x00

abbrev pub user_pass : ℕ
user_pass = 0x02

abbrev pub no_acceptable : ℕ
no_acceptable = 0xff

abbrev pub user_pass_version : ℕ
user_pass_version = 0x01

abbrev pub auth_success : ℕ
auth_success = 0x00

abbrev pub auth_failure : ℕ
auth_failure = 0x01

abbrev pub header_cap : ℕ
header_cap = 16384

-- TqSocks5RequestLength: `none` asks for more bytes, and 0 stands for a bad request.
unfoldable pub socks5_request_length : Bytes → Option ℕ
socks5_request_length bs =
    if ltb (length bs) 4
    then none
    else if at bs 3 == atyp_ipv4
    then some 10
    else if at bs 3 == atyp_domain
    then if ltb (length bs) 5 then none else if at bs 4 == 0 then some 0 else some (7 + at bs 4)
    else if at bs 3 == atyp_ipv6
    then some 22
    else some 0

-- The loop over the offered methods.
unfoldable pub offers : ℕ → Bytes → Bool
offers method [] = false
offers method (m ∷ methods) = m == method || offers method methods

abbrev pub Step : Type 0
Step = IngressState × IngressResult

-- The lengths and the fields of a message with credentials.
abbrev pub user_len : Bytes → ℕ
user_len buf = at buf 1

abbrev pub pass_len : Bytes → ℕ
pass_len buf = at buf (2 + user_len buf)

abbrev pub auth_len : Bytes → ℕ
auth_len buf = 2 + user_len buf + 1 + pass_len buf

abbrev pub username : Bytes → Bytes
username buf = take (user_len buf) (drop 2 buf)

abbrev pub password : Bytes → Bytes
password buf = take (pass_len buf) (drop (3 + user_len buf) buf)

-- The end of the branch of FeedSocks5 under SocksAuthPending: the whole message is there.
unfoldable pub answer_auth : IngressState → IngressState
answer_auth s =
    let valid = validate s.auth (username s.read_buffer) (password s.read_buffer) in
    record s {
      read_buffer = drop (auth_len s.read_buffer) s.read_buffer;
      write_buffer = user_pass_version ∷ (if valid then auth_success else auth_failure) ∷ [];
      close_after_write = not valid;
      socks_auth_pending = false;
      socks_greeting_done = valid;
    }

-- The branch of FeedSocks5 under SocksAuthPending.
unfoldable pub feed_auth : IngressState → Step
feed_auth s =
    let buf = s.read_buffer in
    if ltb (length buf) 2
    then (s, need_read)
    else if not (at buf 0 == user_pass_version)
    then (s, close)
    else if user_len buf == 0 || ltb max_field_bytes (user_len buf)
    then (s, close)
    else if ltb (length buf) (2 + user_len buf + 1)
    then (s, need_read)
    else if pass_len buf == 0 || ltb max_field_bytes (pass_len buf)
    then (s, close)
    else if ltb (length buf) (auth_len buf)
    then (s, need_read)
    else (answer_auth s, need_write)

-- The three answers to a greeting, each behind the greeting's bytes.
unfoldable pub refuse_methods : IngressState → IngressState
refuse_methods s = record s {
  read_buffer = drop (2 + at s.read_buffer 1) s.read_buffer;
  write_buffer = socks5_version ∷ no_acceptable ∷ [];
  close_after_write = true;
}

unfoldable pub choose_no_auth : IngressState → IngressState
choose_no_auth s = record s {
  read_buffer = drop (2 + at s.read_buffer 1) s.read_buffer;
  write_buffer = socks5_version ∷ no_auth ∷ [];
  socks_greeting_done = true;
}

unfoldable pub choose_user_pass : IngressState → IngressState
choose_user_pass s = record s {
  read_buffer = drop (2 + at s.read_buffer 1) s.read_buffer;
  write_buffer = socks5_version ∷ user_pass ∷ [];
  socks_auth_pending = true;
}

-- The branch for the greeting.
unfoldable pub feed_greeting : IngressState → Step
feed_greeting s =
    let buf = s.read_buffer in
    let methods = take (at buf 1) (drop 2 buf) in
    if ltb (length buf) 2
    then (s, need_read)
    else if not (at buf 0 == socks5_version)
    then (s, close)
    else if ltb (length buf) (2 + at buf 1)
    then (s, need_read)
    else if not (enabled s.auth)
    then if not (offers no_auth methods)
      then (refuse_methods s, need_write)
      else (choose_no_auth s, need_write)
    else if not (offers user_pass methods)
    then (refuse_methods s, need_write)
    else (choose_user_pass s, need_write)

-- A request that was understood.
unfoldable pub opened : IngressState → ℕ → TunnelRequest → ℕ → IngressState
opened s trace parsed len = record s {
  parsed_request = record parsed { ingress_trace_proto = trace };
  read_buffer = drop len s.read_buffer;
  ready = true;
}

-- The branch for the request.
unfoldable pub feed_request : InetNtop → IngressState → Step
feed_request ntop s =
    let buf = s.read_buffer in
    elim (socks5_request_length buf) [
      | none ↦ (s, need_read)
      | some len ↦
          if len == 0
          then (s, close)
          else if ltb (length buf) len
          then (s, need_read)
          else elim (parse_connect_request ntop (take len buf)) [
            | none ↦ (s, close)
            | some parsed ↦ (opened s 1 parsed len, ready_to_open)
          ]
    ]

unfoldable pub feed_socks5 : InetNtop → IngressState → Step
feed_socks5 ntop s =
    if not (is_empty s.write_buffer)
    then (s, need_write)
    else if s.close_after_write
    then (s, close)
    else if not s.socks_greeting_done
    then if s.socks_auth_pending then feed_auth s else feed_greeting s
    else feed_request ntop s

abbrev pub proxy_auth_required : Bytes
proxy_auth_required =
    codes
      "HTTP/1.1 407 Proxy Authentication Required\r\nProxy-Authenticate: Basic realm=\"tcpquic-proxy\"\r\n\r\n"

-- The header of a request, once it is whole.
unfoldable pub feed_header : InetPton → IngressState → ℕ → Step
feed_header pton s header_size =
    let header = take header_size s.read_buffer in
    elim (parse_http_connect_request pton header) [
      | none ↦ (s, close)
      | some parsed ↦
          if not (http_connect_request_authorized header s.auth)
          then (
            record s { write_buffer = proxy_auth_required; close_after_write = true },
            need_write,
          )
          else (opened s 2 parsed header_size, ready_to_open)
    ]

unfoldable pub feed_http_connect : InetPton → IngressState → Step
feed_http_connect pton s =
    if not (is_empty s.write_buffer)
    then (s, need_write)
    else if s.close_after_write
    then (s, close)
    else elim (find_text crlf_crlf s.read_buffer) [
      | none ↦ if leb header_cap (length s.read_buffer) then (s, close) else (s, need_read)
      | some header_end ↦
          if ltb header_cap (header_end + 4)
          then (s, close)
          else feed_header pton s (header_end + 4)
    ]

-- Feed, behind the insertion into the read buffer.
unfoldable pub dispatch : InetPton → InetNtop → IngressState → Step
dispatch pton ntop s =
    if s.ready
    then (s, ready_to_open)
    else elim s.proto [ socks5 ↦ feed_socks5 ntop s | http_connect ↦ feed_http_connect pton s ]

unfoldable pub feed : InetPton → InetNtop → IngressState → Bytes → Step
feed pton ntop s bs = dispatch pton ntop (record s { read_buffer = s.read_buffer ++ bs })

-- MarkWriteComplete and TakeBufferedData.
unfoldable pub mark_write_complete : IngressState → ℕ → IngressState
mark_write_complete s bytes = record s {
  write_buffer = drop (min bytes (length s.write_buffer)) s.write_buffer;
}

unfoldable pub take_buffered_data : IngressState → IngressState × Bytes
take_buffered_data s = (record s { read_buffer = [] }, s.read_buffer)
