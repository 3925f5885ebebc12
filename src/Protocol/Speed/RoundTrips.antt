-- ===== src/Protocol/Speed/RoundTrips.antt =====
-- src/protocol/control_protocol.cpp: the five frames of the speed test, there and back.
use tcpquic_proxy.Base.{◌≡◌, some, true, Bytes, IsBytes}
use tcpquic_proxy.Protocol.Frame.{Survives}
use tcpquic_proxy.Protocol.Speed.{
  SpeedStart, SpeedReady, SpeedFinish, SpeedResult, SpeedError, validate_speed_start,
  validate_speed_ready, validate_speed_error, encode_speed_start, decode_speed_start,
  encode_speed_ready, decode_speed_ready, encode_speed_finish, decode_speed_finish,
  encode_speed_result, decode_speed_result, encode_speed_error, decode_speed_error,
}
use tcpquic_proxy.Protocol.Speed.Fixed.{
  FitsStart, FitsFinish, FitsResult, speed_start-Survives, encode-decode_speed_start,
  speed_finish-Survives, encode-decode_speed_finish, speed_result-Survives,
  encode-decode_speed_result,
}
use tcpquic_proxy.Protocol.Speed.Variable.{
  FitsReady, FitsError, speed_ready-Survives, encode-decode_speed_ready, speed_error-Survives,
  encode-decode_speed_error,
}

-- A SPEED_START message whose fields fit their integer types and validate is encoded, and the
-- decoder returns it unchanged; and if the decoder accepts a list of bytes, then the encoder turns
-- the message that it returned into the same bytes.
pub speed_start-RoundTrips :
    (msg : SpeedStart) (bs : Bytes) {other : SpeedStart}
    → FitsStart msg
    → validate_speed_start msg ≡ true
    → IsBytes bs
    → decode_speed_start bs ≡ some other
    → Survives encode_speed_start decode_speed_start msg × (encode_speed_start other ≡ some bs)
speed_start-RoundTrips msg bs fits valid bytes read =
    (speed_start-Survives msg fits valid, encode-decode_speed_start bs bytes read)

-- A SPEED_READY message whose fields fit their integer types and validate is encoded, and the
-- decoder returns it unchanged; and if the decoder accepts a list of bytes, then the encoder turns
-- the message that it returned into the same bytes.
pub speed_ready-RoundTrips :
    (msg : SpeedReady) (bs : Bytes) {other : SpeedReady}
    → FitsReady msg
    → validate_speed_ready msg ≡ true
    → IsBytes bs
    → decode_speed_ready bs ≡ some other
    → Survives encode_speed_ready decode_speed_ready msg × (encode_speed_ready other ≡ some bs)
speed_ready-RoundTrips msg bs fits valid bytes read =
    (speed_ready-Survives msg fits valid, encode-decode_speed_ready bs bytes read)

-- The two messages that end a speed test, SPEED_FINISH of the client and SPEED_RESULT of the
-- server: if its fields fit their integer types, each is encoded, and its decoder returns it
-- unchanged; and if its decoder accepts a list of bytes, then its encoder turns the message that was
-- returned into the same bytes.
pub speed_ends-RoundTrip :
    (finish : SpeedFinish) (finish_bytes : Bytes) {other_finish : SpeedFinish}
    (result : SpeedResult) (result_bytes : Bytes) {other_result : SpeedResult}
    → FitsFinish finish
    → IsBytes finish_bytes
    → decode_speed_finish finish_bytes ≡ some other_finish
    → FitsResult result
    → IsBytes result_bytes
    → decode_speed_result result_bytes ≡ some other_result
    → (Survives encode_speed_finish decode_speed_finish finish
        × (encode_speed_finish other_finish ≡ some finish_bytes))
      × (Survives encode_speed_result decode_speed_result result
          × (encode_speed_result other_result ≡ some result_bytes))
speed_ends-RoundTrip f fs r rs fits bytes read fits' bytes' read' = (
  (speed_finish-Survives f fits, encode-decode_speed_finish fs bytes read),
  (speed_result-Survives r fits', encode-decode_speed_result rs bytes' read'),
)

-- A SPEED_ERROR message whose fields fit their integer types and validate is encoded, and the
-- decoder returns it unchanged; and if the decoder accepts a list of bytes, then the encoder turns
-- the message that it returned into the same bytes.
pub speed_error-RoundTrips :
    (msg : SpeedError) (bs : Bytes) {other : SpeedError}
    → FitsError msg
    → validate_speed_error msg ≡ true
    → IsBytes bs
    → decode_speed_error bs ≡ some other
    → Survives encode_speed_error decode_speed_error msg × (encode_speed_error other ≡ some bs)
speed_error-RoundTrips msg bs fits valid bytes read =
    (speed_error-Survives msg fits valid, encode-decode_speed_error bs bytes read)
