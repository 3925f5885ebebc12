-- ===== src/Protocol/Speed/Fixed.antt =====
-- src/protocol/control_protocol.cpp: the round trips of the speed frames of a fixed size.
use tcpquic_proxy.Base.{
  ◌^◌, ◌<◌, ◌≡◌, ap, sym, ◌∙◌, true, some, [], ◌∷◌, ◌++◌, Bytes, IsBytes, arith, length, drop,
  length-drop, nil_of_length, ◌≤◌,
}
use tcpquic_proxy.Protocol.Bytes.{
  at, write_u16_be, write_u32_be, write_u64_be, read_u16_be, read_u32_be, read_u64_be,
}
use tcpquic_proxy.Protocol.Bytes.Laws.{
  read-write_u16, read-write_u32, read-write_u64, write_u16_be-read, write_u32_be-read,
  write_u64_be-read, bytes_from,
}
use tcpquic_proxy.Protocol.Frame.{
  Survives, header, has_magic, cmd_speed_start, cmd_speed_finish, cmd_speed_result,
}
use tcpquic_proxy.Protocol.Frame.Laws.{header-split}
use tcpquic_proxy.Protocol.Speed.{
  SpeedStart, SpeedFinish, SpeedResult, validate_speed_start, is_valid_speed_direction,
  encode_speed_start, decode_speed_start, encode_speed_finish, decode_speed_finish,
  encode_speed_result, decode_speed_result,
}

-- The fields of each message fit their integer types.
pub record FitsStart (msg : SpeedStart) : Type 0 where
  pub session_word : msg.session_id < 2 ^ 32

pub record FitsFinish (msg : SpeedFinish) : Type 0 where
  pub session_word : msg.session_id < 2 ^ 32
  pub bytes_word : msg.client_bytes < 2 ^ 64
  pub elapsed_word : msg.client_elapsed_us < 2 ^ 64

pub record FitsResult (msg : SpeedResult) : Type 0 where
  pub session_word : msg.session_id < 2 ^ 32
  pub bytes_word : msg.server_bytes < 2 ^ 64
  pub elapsed_word : msg.server_elapsed_us < 2 ^ 64
  pub accepted_word : msg.accepted_connections < 2 ^ 32
  pub closed_word : msg.closed_connections < 2 ^ 32

-- The bytes of a frame in front of its fields.
abbrev start_1 : SpeedStart → Bytes
start_1 msg = header cmd_speed_start (write_u32_be msg.session_id (msg.direction ∷ []))

abbrev start_2 : SpeedStart → Bytes
start_2 msg = start_1 msg ++ write_u32_be msg.duration_sec []

start_limits :
    (msg : SpeedStart)
    → validate_speed_start msg ≡ true
    → (msg.duration_sec ≤ 86400)
      × (msg.parallel ≤ 128)
      × (is_valid_speed_direction msg.direction ≡ true)
      × (msg.flags ≡ 0)
unfolding validate_speed_start
start_limits msg v = ground arith

-- A SPEED_START message whose fields fit their integer types and validate is encoded, and the decoder
-- returns it unchanged.
pub speed_start-Survives :
    (msg : SpeedStart)
    → FitsStart msg
    → validate_speed_start msg ≡ true
    → Survives encode_speed_start decode_speed_start msg
unfolding encode_speed_start decode_speed_start has_magic
speed_start-Survives msg h v =
    let fs = msg.flags ∷ [] in
    let ps = write_u16_be msg.parallel fs in
    let ds = write_u32_be msg.duration_sec ps in
    let lim = start_limits msg v in
    (
      header cmd_speed_start (write_u32_be msg.session_id (msg.direction ∷ ds)),
      ground arith,
      ground (
        arith,
        read-write_u32 (header cmd_speed_start []) (msg.direction ∷ ds) msg.session_id
            h.session_word,
        read-write_u32 (start_1 msg) ps msg.duration_sec (omega arith),
        read-write_u16 (start_2 msg) fs msg.parallel (omega arith),
      ),
    )

abbrev finish_1 : SpeedFinish → Bytes
finish_1 msg = header cmd_speed_finish (write_u32_be msg.session_id [])

-- A SPEED_FINISH message whose fields fit their integer types is encoded, and the decoder
-- returns it unchanged.
pub speed_finish-Survives :
    (msg : SpeedFinish) → FitsFinish msg → Survives encode_speed_finish decode_speed_finish msg
unfolding encode_speed_finish decode_speed_finish has_magic
speed_finish-Survives msg h =
    let us = write_u64_be msg.client_elapsed_us [] in
    let bs = write_u64_be msg.client_bytes us in
    (
      header cmd_speed_finish (write_u32_be msg.session_id bs),
      ground arith,
      ground (
        arith,
        read-write_u32 (header cmd_speed_finish []) bs msg.session_id h.session_word,
        read-write_u64 (finish_1 msg) us msg.client_bytes h.bytes_word,
        read-write_u64 (finish_1 msg ++ write_u64_be msg.client_bytes []) [] msg.client_elapsed_us
            h.elapsed_word,
      ),
    )

abbrev result_1 : SpeedResult → Bytes
result_1 msg = header cmd_speed_result (write_u32_be msg.session_id [])

abbrev result_2 : SpeedResult → Bytes
result_2 msg = result_1 msg ++ write_u64_be msg.server_bytes []

abbrev result_3 : SpeedResult → Bytes
result_3 msg = result_2 msg ++ write_u64_be msg.server_elapsed_us []

-- A SPEED_RESULT message whose fields fit their integer types is encoded, and the decoder
-- returns it unchanged.
pub speed_result-Survives :
    (msg : SpeedResult) → FitsResult msg → Survives encode_speed_result decode_speed_result msg
unfolding encode_speed_result decode_speed_result has_magic
speed_result-Survives msg h =
    let cs = write_u32_be msg.closed_connections (msg.status ∷ []) in
    let as' = write_u32_be msg.accepted_connections cs in
    let us = write_u64_be msg.server_elapsed_us as' in
    let bs = write_u64_be msg.server_bytes us in
    (
      header cmd_speed_result (write_u32_be msg.session_id bs),
      ground arith,
      ground (
        arith,
        read-write_u32 (header cmd_speed_result []) bs msg.session_id h.session_word,
        read-write_u64 (result_1 msg) us msg.server_bytes h.bytes_word,
        read-write_u64 (result_2 msg) as' msg.server_elapsed_us h.elapsed_word,
        read-write_u32 (result_3 msg) cs msg.accepted_connections h.accepted_word,
        read-write_u32 (result_3 msg ++ write_u32_be msg.accepted_connections []) (msg.status ∷ [])
            msg.closed_connections h.closed_word,
      ),
    )

-- If the SPEED_START decoder accepts a list of bytes, then the encoder turns the message that it
-- returned into the same bytes.
pub encode-decode_speed_start :
    (bs : Bytes) {msg : SpeedStart}
    → IsBytes bs
    → decode_speed_start bs ≡ some msg
    → encode_speed_start msg ≡ some bs
unfolding encode_speed_start decode_speed_start
encode-decode_speed_start bs h e = ground (
  arith,
  header-split 12 cmd_speed_start bs,
  length-drop 16 bs,
  write_u32_be-read bs
      (at bs 8 ∷ write_u32_be (read_u32_be bs 9) (write_u16_be (read_u16_be bs 13) (at bs 15 ∷ [])))
      4 h,
  write_u32_be-read bs (write_u16_be (read_u16_be bs 13) (at bs 15 ∷ [])) 9 h,
  write_u16_be-read bs (at bs 15 ∷ []) 13 h,
)

-- If the SPEED_FINISH decoder accepts a list of bytes, then the encoder turns the message that it
-- returned into the same bytes.
pub encode-decode_speed_finish :
    (bs : Bytes) {msg : SpeedFinish}
    → IsBytes bs
    → decode_speed_finish bs ≡ some msg
    → encode_speed_finish msg ≡ some bs
unfolding encode_speed_finish decode_speed_finish
encode-decode_speed_finish bs h e =
    let us = write_u64_be (read_u64_be bs 16) [] in
    ground (
      arith,
      header-split 20 cmd_speed_finish bs,
      length-drop 24 bs,
      write_u32_be-read bs (write_u64_be (read_u64_be bs 8) us) 4 h,
      write_u64_be-read bs us 8 h,
      write_u64_be-read bs [] 16 h,
    )

abbrev result_of : Bytes → SpeedResult
result_of bs = record {
  session_id = read_u32_be bs 4;
  server_bytes = read_u64_be bs 8;
  server_elapsed_us = read_u64_be bs 16;
  accepted_connections = read_u32_be bs 24;
  closed_connections = read_u32_be bs 28;
  status = at bs 32;
}

decode_speed_result-eq-some :
    (bs : Bytes) {msg : SpeedResult}
    → decode_speed_result bs ≡ some msg
    → (length bs ≡ 33) × (has_magic bs ≡ true) × (at bs 3 ≡ cmd_speed_result) × (msg ≡ result_of bs)
unfolding decode_speed_result
decode_speed_result-eq-some bs e = ground arith

result-frame :
    (bs : Bytes)
    → IsBytes bs
    → length bs ≡ 33
    → has_magic bs ≡ true
    → at bs 3 ≡ cmd_speed_result
    → encode_speed_result (result_of bs) ≡ some bs
unfolding encode_speed_result
result-frame bs h len magic cmd =
    let rest = drop 33 bs in
    let cs = write_u32_be (read_u32_be bs 28) (at bs 32 ∷ []) in
    let as' = write_u32_be (read_u32_be bs 24) cs in
    let us = write_u64_be (read_u64_be bs 16) as' in
    rw
      (
        write_u32_be-read bs (write_u64_be (read_u64_be bs 8) us) 4 h,
        write_u64_be-read bs us 8 h,
        write_u64_be-read bs as' 16 h,
        write_u32_be-read bs cs 24 h,
        write_u32_be-read bs (at bs 32 ∷ []) 28 h,
      )
      (ap some (
        ap (λ t. header cmd_speed_result (bytes_from bs 4 29 ++ t))
          (sym (nil_of_length rest (omega (arith, length-drop 33 bs))))
        ∙ header-split 29 cmd_speed_result bs magic cmd (omega arith)))

-- If the SPEED_RESULT decoder accepts a list of bytes, then the encoder turns the message that it
-- returned into the same bytes.
pub encode-decode_speed_result :
    (bs : Bytes) {msg : SpeedResult}
    → IsBytes bs
    → decode_speed_result bs ≡ some msg
    → encode_speed_result msg ≡ some bs
encode-decode_speed_result bs h e =
    let (len, magic, cmd, shape) = decode_speed_result-eq-some bs e in
    rw shape (result-frame bs h len magic cmd)
