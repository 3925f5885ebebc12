-- ===== src/Protocol/Hello.antt =====
-- src/protocol/control_protocol.cpp: the client hello and the test of a client's name.
pub mod RoundTrip
use tcpquic_proxy.Base.{
  ℕ, ◌+◌, ◌%◌, ◌^◌, Bool, true, false, not, ◌&&◌, ◌||◌, Option, none, some, [], ◌∷◌, ltb, leb, ◌==◌,
  if◌then◌else◌, Bytes, length, take, drop,
}
use tcpquic_proxy.Protocol.Bytes.{at, write_u16_be, read_u16_be}
use tcpquic_proxy.Protocol.Frame.{header, has_magic, cmd_client_hello}

abbrev pub max_name_len : ℕ
max_name_len = 64

abbrev pub min_size : ℕ
min_size = 6

pub record ClientHello : Type 0 where
  pub client_name : Bytes

unfoldable pub is_name_byte : ℕ → Bool
is_name_byte ch =
    (leb b'A' ch && leb ch b'Z')
    || (leb b'a' ch && leb ch b'z')
    || (leb b'0' ch && leb ch b'9')
    || ch == b'.'
    || ch == b'_'
    || ch == b'-'
    || ch == b':'

-- The loop over the name.
unfoldable pub all_name_bytes : Bytes → Bool
all_name_bytes [] = true
all_name_bytes (ch ∷ name) =
    let rest = all_name_bytes name in if not (is_name_byte ch) then false else rest

unfoldable pub is_valid_client_name : Bytes → Bool
is_valid_client_name name =
    if length name == 0 || ltb max_name_len (length name) then false else all_name_bytes name

unfoldable pub encode_client_hello : ClientHello → Option Bytes
encode_client_hello msg =
    let name = msg.client_name in
    let bs = header cmd_client_hello (write_u16_be (length name % 2 ^ 16) name) in
    if not (is_valid_client_name name)
    then none
    else if length bs == min_size + length name
    then some bs
    else none

unfoldable pub decode_client_hello : Bytes → Option ClientHello
decode_client_hello bs =
    let name_len = read_u16_be bs 4 in
    let name = take name_len (drop min_size bs) in
    if ltb (length bs) min_size
    then none
    else if not (has_magic bs && at bs 3 == cmd_client_hello)
    then none
    else if name_len == 0 || ltb max_name_len name_len
    then none
    else if not (length bs == min_size + name_len)
    then none
    else if not (is_valid_client_name name)
    then none
    else some (record { client_name = name })
