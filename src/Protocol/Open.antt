-- ===== src/Protocol/Open.antt =====
-- src/protocol/control_protocol.cpp: the open request and the open response. An enum with the
-- underlying type uint8_t holds any byte that is cast to it, so an error is its code. `none` is
-- the result false; the callers read `out` only after true.
pub mod RoundTrip
use tcpquic_proxy.Base.{
  ℕ, ◌+◌, ◌%◌, ◌^◌, Bool, true, false, not, ◌&&◌, Option, none, some, [], ◌∷◌, ◌++◌, ltb, leb, ◌==◌,
  if◌then◌else◌, Bytes, length, take, drop, bit_and,
}
use tcpquic_proxy.Protocol.Bytes.{at, write_u16_be, write_u32_be, read_u16_be, read_u32_be}
use tcpquic_proxy.Protocol.Frame.{
  header, has_magic, cmd_open, cmd_open_ok, cmd_open_fail, addr_ipv4, addr_ipv6, addr_domain,
  flag_dns_remote,
}

-- TqOpenError.
abbrev pub error_ok : ℕ
error_ok = 0x00

pub record OpenRequest : Type 0 where
  pub flags : ℕ
  pub addr_type : ℕ
  pub port : ℕ
  pub addr : Bytes

pub record OpenResponse : Type 0 where
  pub is_ok : Bool
  pub error : ℕ
  pub conn_id : ℕ

unfoldable pub validate_addr : OpenRequest → Bool
validate_addr req =
    if req.addr_type == addr_ipv4
    then length req.addr == 4
    else if req.addr_type == addr_ipv6
    then length req.addr == 16
    else if req.addr_type == addr_domain
    then if length req.addr == 0
      then false
      else if ltb 255 (length req.addr)
      then false
      else not (bit_and req.flags flag_dns_remote == 0)
    else false

unfoldable pub encode_open_request : OpenRequest → Option Bytes
encode_open_request req =
    if not (validate_addr req)
    then none
    else some (
        header cmd_open (
          req.flags
          ∷ req.addr_type
          ∷ write_u16_be req.port (write_u16_be (length req.addr % 2 ^ 16) (req.addr ++ 0 ∷ []))))

unfoldable pub decode_open_request : Bytes → Option OpenRequest
decode_open_request bs =
    let addr_len = read_u16_be bs 8 in
    let out : OpenRequest = record {
      flags = at bs 4;
      addr_type = at bs 5;
      port = read_u16_be bs 6;
      addr = take addr_len (drop 10 bs);
    } in
    if ltb (length bs) 11
    then none
    else if not (has_magic bs)
    then none
    else if not (at bs 3 == cmd_open)
    then none
    else if not (length bs == 11 + addr_len)
    then none
    else if not (at bs (10 + addr_len) == 0)
    then none
    else if validate_addr out
    then some out
    else none

-- A response is a success exactly if it carries no error.
unfoldable pub coherent : Bool → ℕ → Bool
coherent true error = error == error_ok
coherent false error = not (error == error_ok)

unfoldable pub encode_open_response : OpenResponse → Option Bytes
encode_open_response resp =
    let bs =
      header (if resp.is_ok then cmd_open_ok else cmd_open_fail)
        ((if resp.is_ok then error_ok else resp.error) ∷ write_u32_be resp.conn_id []) in
    if not (coherent resp.is_ok resp.error) then none else if length bs == 9 then some bs else none

unfoldable pub decode_open_response : Bytes → Option OpenResponse
decode_open_response bs =
    let answer : Bool → Option OpenResponse = λ is_ok.
      if coherent is_ok (at bs 4)
      then some (record { is_ok = is_ok; error = at bs 4; conn_id = read_u32_be bs 5 })
      else none in
    if not (length bs == 9)
    then none
    else if not (has_magic bs)
    then none
    else if at bs 3 == cmd_open_ok
    then answer true
    else if at bs 3 == cmd_open_fail
    then answer false
    else none
