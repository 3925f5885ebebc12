-- ===== src/Protocol/Speed.antt =====
-- src/protocol/control_protocol.cpp: the five frames of the built-in speed test. The enums with the
-- underlying type uint8_t are their codes, and `none` is the result false.
pub mod Fixed
pub mod Variable
pub mod RoundTrips
use tcpquic_proxy.Base.{
  ℕ, ◌+◌, ◌%◌, ◌^◌, Bool, not, false, ◌&&◌, ◌||◌, Option, none, some, [], ◌∷◌, ltb, leb, ◌==◌,
  if◌then◌else◌, Bytes, length, take, drop,
}
use tcpquic_proxy.Protocol.Bytes.{
  at, write_u16_be, write_u32_be, write_u64_be, read_u16_be, read_u32_be, read_u64_be,
}
use tcpquic_proxy.Protocol.Frame.{
  header, has_magic, cmd_speed_start, cmd_speed_ready, cmd_speed_finish, cmd_speed_result,
  cmd_speed_error, addr_ipv4, addr_ipv6,
}

abbrev pub download : ℕ
download = 1

abbrev pub upload : ℕ
upload = 2

abbrev pub max_message_len : ℕ
max_message_len = 1024

pub record SpeedStart : Type 0 where
  pub session_id : ℕ
  pub direction : ℕ
  pub duration_sec : ℕ
  pub parallel : ℕ
  pub flags : ℕ

pub record SpeedReady : Type 0 where
  pub session_id : ℕ
  pub addr_type : ℕ
  pub port : ℕ
  pub addr : Bytes

pub record SpeedFinish : Type 0 where
  pub session_id : ℕ
  pub client_bytes : ℕ
  pub client_elapsed_us : ℕ

pub record SpeedResult : Type 0 where
  pub session_id : ℕ
  pub server_bytes : ℕ
  pub server_elapsed_us : ℕ
  pub accepted_connections : ℕ
  pub closed_connections : ℕ
  pub status : ℕ

pub record SpeedError : Type 0 where
  pub session_id : ℕ
  pub error : ℕ
  pub message : Bytes

abbrev pub is_valid_speed_direction : ℕ → Bool
is_valid_speed_direction v = v == download || v == upload

abbrev pub is_valid_speed_error_frame_code : ℕ → Bool
is_valid_speed_error_frame_code v = not (v == 0)

unfoldable pub validate_speed_start : SpeedStart → Bool
validate_speed_start msg =
    is_valid_speed_direction msg.direction
    && leb 1 msg.duration_sec
    && leb msg.duration_sec 86400
    && leb 1 msg.parallel
    && leb msg.parallel 128
    && msg.flags == 0

unfoldable pub validate_speed_ready : SpeedReady → Bool
validate_speed_ready msg =
    if msg.addr_type == addr_ipv4
    then length msg.addr == 4
    else if msg.addr_type == addr_ipv6
    then length msg.addr == 16
    else false

unfoldable pub validate_speed_error : SpeedError → Bool
validate_speed_error msg =
    is_valid_speed_error_frame_code msg.error && leb (length msg.message) max_message_len

-- `return out.size() == n` behind the writes.
abbrev pub sized : Bytes → ℕ → Option Bytes
sized bs n = if length bs == n then some bs else none

unfoldable pub encode_speed_start : SpeedStart → Option Bytes
encode_speed_start msg =
    let bs = header cmd_speed_start (
      write_u32_be msg.session_id (
        msg.direction
        ∷ write_u32_be msg.duration_sec (write_u16_be msg.parallel (msg.flags ∷ [])))) in
    if not (validate_speed_start msg) then none else sized bs 16

unfoldable pub decode_speed_start : Bytes → Option SpeedStart
decode_speed_start bs =
    let msg : SpeedStart = record {
      session_id = read_u32_be bs 4;
      direction = at bs 8;
      duration_sec = read_u32_be bs 9;
      parallel = read_u16_be bs 13;
      flags = at bs 15;
    } in
    if not (length bs == 16)
    then none
    else if not (has_magic bs && at bs 3 == cmd_speed_start)
    then none
    else if not (is_valid_speed_direction (at bs 8))
    then none
    else if not (at bs 15 == 0)
    then none
    else if not (validate_speed_start msg)
    then none
    else some msg

unfoldable pub encode_speed_ready : SpeedReady → Option Bytes
encode_speed_ready msg =
    let bs = header cmd_speed_ready (
      write_u32_be msg.session_id (
        msg.addr_type
        ∷ write_u16_be msg.port (write_u16_be (length msg.addr % 2 ^ 16) msg.addr))) in
    if not (validate_speed_ready msg) then none else sized bs (13 + length msg.addr)

unfoldable pub decode_speed_ready : Bytes → Option SpeedReady
decode_speed_ready bs =
    let addr_len = read_u16_be bs 11 in
    let msg : SpeedReady = record {
      session_id = read_u32_be bs 4;
      addr_type = at bs 8;
      port = read_u16_be bs 9;
      addr = take addr_len (drop 13 bs);
    } in
    if ltb (length bs) 13
    then none
    else if not (has_magic bs && at bs 3 == cmd_speed_ready)
    then none
    else if not (length bs == 13 + addr_len)
    then none
    else if not (validate_speed_ready msg)
    then none
    else some msg

unfoldable pub encode_speed_finish : SpeedFinish → Option Bytes
encode_speed_finish msg =
    sized
      (header cmd_speed_finish (
        write_u32_be msg.session_id
          (write_u64_be msg.client_bytes (write_u64_be msg.client_elapsed_us []))))
      24

unfoldable pub decode_speed_finish : Bytes → Option SpeedFinish
decode_speed_finish bs =
    if not (length bs == 24)
    then none
    else if not (has_magic bs && at bs 3 == cmd_speed_finish)
    then none
    else some (record {
      session_id = read_u32_be bs 4;
      client_bytes = read_u64_be bs 8;
      client_elapsed_us = read_u64_be bs 16;
    })

unfoldable pub encode_speed_result : SpeedResult → Option Bytes
encode_speed_result msg =
    sized
      (header cmd_speed_result (
        write_u32_be msg.session_id (
          write_u64_be msg.server_bytes (
            write_u64_be msg.server_elapsed_us (
              write_u32_be msg.accepted_connections
                (write_u32_be msg.closed_connections (msg.status ∷ [])))))))
      33

unfoldable pub decode_speed_result : Bytes → Option SpeedResult
decode_speed_result bs =
    if not (length bs == 33)
    then none
    else if not (has_magic bs && at bs 3 == cmd_speed_result)
    then none
    else some (record {
      session_id = read_u32_be bs 4;
      server_bytes = read_u64_be bs 8;
      server_elapsed_us = read_u64_be bs 16;
      accepted_connections = read_u32_be bs 24;
      closed_connections = read_u32_be bs 28;
      status = at bs 32;
    })

unfoldable pub encode_speed_error : SpeedError → Option Bytes
encode_speed_error msg =
    let bs = header cmd_speed_error (
      write_u32_be msg.session_id
        (msg.error ∷ write_u16_be (length msg.message % 2 ^ 16) msg.message)) in
    if not (validate_speed_error msg) then none else sized bs (11 + length msg.message)

unfoldable pub decode_speed_error : Bytes → Option SpeedError
decode_speed_error bs =
    let message_len = read_u16_be bs 9 in
    if ltb (length bs) 11
    then none
    else if not (has_magic bs && at bs 3 == cmd_speed_error)
    then none
    else if not (length bs == 11 + message_len) || ltb max_message_len message_len
    then none
    else if not (is_valid_speed_error_frame_code (at bs 8))
    then none
    else some (record {
      session_id = read_u32_be bs 4;
      error = at bs 8;
      message = take message_len (drop 11 bs);
    })
