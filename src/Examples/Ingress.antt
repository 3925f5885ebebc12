-- ===== src/Examples/Ingress.antt =====
-- src/ingress: a SOCKS5 client that logs in as `u` with the password `p`.
use tcpquic_proxy.Base.{
  ◌≡◌, ◌≢◌, ◌≤◌, length, IsBytes, ◌↔◌, refl, none, some, true, List, [], ◌∷◌, ◌++◌, Any, Bytes,
  arith,
}
use tcpquic_proxy.Acl.Cidr.{InetPton}
use tcpquic_proxy.Protocol.Frame.{addr_ipv4, addr_domain}
use tcpquic_proxy.Protocol.Bytes.{read_u16_be}
use tcpquic_proxy.Ingress.Auth.Table.{validate_users-validate}
use tcpquic_proxy.Ingress.Auth.{
  max_users, validate_users, check_users, has_name, User, constant_time_equals, difference, matched,
  validate,
}
use tcpquic_proxy.Ingress.Auth.Credentials.{Holds, validate_iff}
use tcpquic_proxy.Ingress.Socks5.{
  InetNtop, atyp_domain, atyp_ipv4, parse_address, finish_request, parse_connect_request,
}
use tcpquic_proxy.Ingress.Socks5.Accepts.{
  connect_message, tunnel_to, parse-connect_domain, parse-connect_ipv4,
}
use tcpquic_proxy.Ingress.State.{
  socks5, need_read, IngressState, new_state, feed, dispatch, feed_socks5, feed_greeting, feed_auth,
  feed_request, answer_auth, choose_user_pass, opened, offers, socks5_request_length,
  mark_write_complete,
}
use tcpquic_proxy.Ingress.State.Gate.{LoggedIn}
use tcpquic_proxy.Ingress.State.Chunks.{feed-append}
use tcpquic_proxy.Ingress.State.Session.{Run, start, sent, wrote, ready-LoggedIn}

abbrev pton : InetPton
pton = record { ipv4 = λ t. none; ipv6 = λ t. none }

abbrev dotted : Bytes
dotted = b'1' ∷ b'.' ∷ b'2' ∷ b'.' ∷ b'3' ∷ b'.' ∷ b'4' ∷ []

abbrev ntop : InetNtop
ntop = record { ipv4 = λ a. some dotted; ipv6 = λ a. none }

abbrev letter_u : Bytes
letter_u = b'u' ∷ []

abbrev letter_p : Bytes
letter_p = b'p' ∷ []

abbrev users : List User
users = record { username = b'u' ∷ []; password = b'p' ∷ [] } ∷ []

validate_iff_example :
    (validate users letter_u letter_p ≡ true)
    ↔ ((letter_u ≢ []) × (letter_p ≢ []) × Any (Holds letter_u letter_p) users)
validate_iff_example =
    validate_iff users letter_u letter_p (λ e. cc) (ground arith) (ground arith) (ground arith)

parse-connect_domain_example :
    parse_connect_request ntop (connect_message atyp_domain (4 ∷ b'd' ∷ b'b' ∷ 0 ∷ b'x' ∷ []) 443)
    ≡ some (tunnel_to addr_domain (b'd' ∷ b'b' ∷ []) 443)
parse-connect_domain_example =
    parse-connect_domain ntop (b'd' ∷ b'b' ∷ []) (0 ∷ b'x' ∷ []) 443 (ground arith) refl
      (omega arith) (omega arith) (omega arith) (omega arith)

parse-connect_ipv4_example :
    parse_connect_request ntop (connect_message atyp_ipv4 (1 ∷ 2 ∷ 3 ∷ 4 ∷ []) 443)
    ≡ some (tunnel_to addr_ipv4 dotted 443)
parse-connect_ipv4_example =
    parse-connect_ipv4 ntop 1 2 3 4 443 dotted refl (ground arith) (omega arith) (omega arith)
      (omega arith) (omega arith)

abbrev greeting : Bytes
greeting = 5 ∷ 1 ∷ 2 ∷ []

abbrev login_message : Bytes
login_message = 1 ∷ 1 ∷ b'u' ∷ 1 ∷ b'p' ∷ []

abbrev connect : Bytes
connect = connect_message atyp_domain (2 ∷ b'd' ∷ b'b' ∷ []) 443

abbrev half_greeted : IngressState
half_greeted = record (new_state socks5 users) { read_buffer = 5 ∷ 1 ∷ [] }

half_run : feed pton ntop (new_state socks5 users) (5 ∷ 1 ∷ []) ≡ (half_greeted, need_read)
unfolding feed dispatch feed_socks5 feed_greeting new_state
half_run = refl

feed-append_example :
    feed pton ntop half_greeted (2 ∷ [])
    ≡ feed pton ntop (new_state socks5 users) ((5 ∷ 1 ∷ []) ++ (2 ∷ []))
feed-append_example =
    feed-append pton ntop (new_state socks5 users) half_greeted (5 ∷ 1 ∷ []) (2 ∷ []) half_run

-- The client sends its three messages, and takes each answer.
abbrev greeted : IngressState
greeted = mark_write_complete (feed pton ntop (new_state socks5 users) greeting).0 2

abbrev logged : IngressState
logged = mark_write_complete (feed pton ntop greeted login_message).0 2

abbrev connected : IngressState
connected = (feed pton ntop logged connect).0

session : Run pton ntop users ((([] ++ greeting) ++ login_message) ++ connect) connected
session = sent connect (wrote 2 (sent login_message (wrote 2 (sent greeting start))))

connected_ready : connected.ready ≡ true
unfolding feed dispatch feed_socks5 feed_greeting feed_auth feed_request new_state
    mark_write_complete answer_auth choose_user_pass opened offers socks5_request_length validate
    matched constant_time_equals difference parse_connect_request parse_address finish_request
    read_u16_be
connected_ready = refl

ready-LoggedIn_example : LoggedIn users ((([] ++ greeting) ++ login_message) ++ connect)
ready-LoggedIn_example = ready-LoggedIn refl session connected_ready

accepted_users : validate_users users ≡ none
unfolding validate_users check_users has_name
accepted_users = refl

validate_users-validate_example :
    (length users ≤ max_users)
    × ((user pass : Bytes)
        → IsBytes user
        → IsBytes pass
        → (validate users user pass ≡ true) ↔ Any (Holds user pass) users)
    × ((user pass other : Bytes)
        → IsBytes user
        → IsBytes pass
        → IsBytes other
        → validate users user pass ≡ true
        → validate users user other ≡ true
        → pass ≡ other)
validate_users-validate_example =
    validate_users-validate users (λ e. cc) (ground arith) accepted_users
