-- ===== src/Protocol/Speed/Variable.antt =====
-- src/protocol/control_protocol.cpp: the round trips of the speed frames that end in an address or a
-- message.
use tcpquic_proxy.Base.{
  ℕ, ◌+◌, ◌^◌, ◌≤◌, ◌<◌, ◌≡◌, ap, ◌∙◌, true, some, [], ◌∷◌, ◌++◌, Bytes, IsBytes, arith, length,
  take, drop, length-drop, take_all,
}
use tcpquic_proxy.Protocol.Bytes.{at, write_u16_be, write_u32_be, read_u16_be, read_u32_be}
use tcpquic_proxy.Protocol.Bytes.Laws.{
  read-write_u16, read-write_u32, write_u16_be-read, write_u32_be-read,
}
use tcpquic_proxy.Protocol.Frame.{Survives, header, has_magic, cmd_speed_ready, cmd_speed_error}
use tcpquic_proxy.Protocol.Frame.Laws.{header-split}
use tcpquic_proxy.Protocol.Speed.{
  SpeedReady, SpeedError, validate_speed_ready, validate_speed_error, encode_speed_ready,
  decode_speed_ready, encode_speed_error, decode_speed_error, is_valid_speed_error_frame_code,
}

-- The fields of each message fit their integer types.
pub record FitsReady (msg : SpeedReady) : Type 0 where
  pub session_word : msg.session_id < 2 ^ 32
  pub port_word : msg.port < 2 ^ 16

pub record FitsError (msg : SpeedError) : Type 0 where
  pub session_word : msg.session_id < 2 ^ 32

ready-length : (msg : SpeedReady) → validate_speed_ready msg ≡ true → length msg.addr ≤ 16
unfolding validate_speed_ready
ready-length msg v = ground arith

error_limits :
    (msg : SpeedError)
    → validate_speed_error msg ≡ true
    → (length msg.message ≤ 1024) × (is_valid_speed_error_frame_code msg.error ≡ true)
unfolding validate_speed_error
error_limits msg v = ground arith

abbrev ready_1 : SpeedReady → Bytes
ready_1 msg = header cmd_speed_ready (write_u32_be msg.session_id (msg.addr_type ∷ []))

-- A SPEED_READY message whose fields fit their integer types and validate is encoded, and the decoder
-- returns it unchanged.
pub speed_ready-Survives :
    (msg : SpeedReady)
    → FitsReady msg
    → validate_speed_ready msg ≡ true
    → Survives encode_speed_ready decode_speed_ready msg
unfolding encode_speed_ready decode_speed_ready has_magic
speed_ready-Survives msg h v =
    let len = ready-length msg v in
    let as' = write_u16_be (length msg.addr) msg.addr in
    let ps = write_u16_be msg.port as' in
    (
      header cmd_speed_ready (write_u32_be msg.session_id (msg.addr_type ∷ ps)),
      ground (arith, len),
      ground (
        arith,
        len,
        v,
        take_all (length msg.addr) msg.addr (omega arith),
        read-write_u32 (header cmd_speed_ready []) (msg.addr_type ∷ ps) msg.session_id
            h.session_word,
        read-write_u16 (ready_1 msg) as' msg.port h.port_word,
        read-write_u16 (ready_1 msg ++ write_u16_be msg.port []) msg.addr (length msg.addr)
            (omega arith),
      ),
    )

abbrev error_1 : SpeedError → Bytes
error_1 msg = header cmd_speed_error (write_u32_be msg.session_id (msg.error ∷ []))

-- A SPEED_ERROR message whose fields fit their integer types and validate is encoded, and the decoder
-- returns it unchanged.
pub speed_error-Survives :
    (msg : SpeedError)
    → FitsError msg
    → validate_speed_error msg ≡ true
    → Survives encode_speed_error decode_speed_error msg
unfolding encode_speed_error decode_speed_error has_magic
speed_error-Survives msg h v =
    let lim = error_limits msg v in
    let ms = write_u16_be (length msg.message) msg.message in
    (
      header cmd_speed_error (write_u32_be msg.session_id (msg.error ∷ ms)),
      ground (arith, lim),
      ground (
        arith,
        lim,
        take_all (length msg.message) msg.message (omega arith),
        read-write_u32 (header cmd_speed_error []) (msg.error ∷ ms) msg.session_id h.session_word,
        read-write_u16 (error_1 msg) msg.message (length msg.message) (omega arith),
      ),
    )

-- The tail behind a length field that counts it.
tail_all :
    (k n : ℕ) (bs : Bytes)
    → length bs ≡ k + n
    → (length (drop k bs) ≡ n) × (take n (drop k bs) ≡ drop k bs)
tail_all k n bs h =
    let len : length (drop k bs) ≡ n = omega (arith, length-drop k bs) in
    (len, take_all n (drop k bs) (omega arith))

-- If the SPEED_READY decoder accepts a list of bytes, then the encoder turns the message that it
-- returned into the same bytes.
pub encode-decode_speed_ready :
    (bs : Bytes) {msg : SpeedReady}
    → IsBytes bs
    → decode_speed_ready bs ≡ some msg
    → encode_speed_ready msg ≡ some bs
unfolding encode_speed_ready decode_speed_ready
encode-decode_speed_ready bs {msg} h e =
    let n = read_u16_be bs 11 in
    ground (
      arith,
      ready-length msg,
      tail_all 13 n bs,
      header-split 9 cmd_speed_ready bs,
      write_u32_be-read bs (at bs 8 ∷ write_u16_be (read_u16_be bs 9) (write_u16_be n (drop 13 bs)))
          4 h,
      write_u16_be-read bs (write_u16_be n (drop 13 bs)) 9 h,
      write_u16_be-read bs (drop 13 bs) 11 h,
    )

error-valid :
    (msg : SpeedError)
    → validate_speed_error msg ≡ true
    → encode_speed_error msg
      ≡ some (
          header cmd_speed_error (
            write_u32_be msg.session_id
              (msg.error ∷ write_u16_be (length msg.message) msg.message)))
unfolding encode_speed_error
error-valid msg v = ground (arith, error_limits msg v)

decode_speed_error-eq-some :
    (bs : Bytes) {msg : SpeedError}
    → decode_speed_error bs ≡ some msg
    → let n = read_u16_be bs 9 in
      (length bs ≡ 11 + n)
      × (n ≤ 1024)
      × (is_valid_speed_error_frame_code (at bs 8) ≡ true)
      × (has_magic bs ≡ true)
      × (at bs 3 ≡ cmd_speed_error)
      × (msg ≡ record {
        session_id = read_u32_be bs 4;
        error = at bs 8;
        message = take n (drop 11 bs);
      })
unfolding decode_speed_error
decode_speed_error-eq-some bs e = ground arith

error-is_valid :
    (msg : SpeedError)
    → length msg.message ≤ 1024
    → is_valid_speed_error_frame_code msg.error ≡ true
    → validate_speed_error msg ≡ true
unfolding validate_speed_error
error-is_valid msg h c = ground arith

-- If the SPEED_ERROR decoder accepts a list of bytes, then the encoder turns the message that it
-- returned into the same bytes.
pub encode-decode_speed_error :
    (bs : Bytes) {msg : SpeedError}
    → IsBytes bs
    → decode_speed_error bs ≡ some msg
    → encode_speed_error msg ≡ some bs
encode-decode_speed_error bs {msg} h e =
    let (len, small, code, magic, cmd, shape) = decode_speed_error-eq-some bs e in
    let n = read_u16_be bs 9 in
    let (len', whole) = tail_all 11 n bs len in
    let body = write_u16_be n (drop 11 bs) in
    error-valid msg (error-is_valid msg (ground arith) (ground arith))
    ∙ ap some (
        rw
          (
            shape,
            whole,
            len',
            write_u32_be-read bs (at bs 8 ∷ body) 4 h,
            write_u16_be-read bs (drop 11 bs) 9 h,
          )
          (header-split 7 cmd_speed_error bs magic cmd (omega arith)))
