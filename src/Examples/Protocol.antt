-- ===== src/Examples/Protocol.antt =====
-- The frames of src/protocol/control_protocol.cpp on small messages.
use tcpquic_proxy.Base.{◌≡◌, refl, some, true, false, [], ◌∷◌, Bytes, arith}
use tcpquic_proxy.Protocol.Bytes.{read_u16_be, read_u32_be, read_u64_be}
use tcpquic_proxy.Protocol.Frame.{Survives, has_magic}
use tcpquic_proxy.Protocol.Open.{
  OpenRequest, OpenResponse, validate_addr, coherent, encode_open_request, decode_open_request,
  encode_open_response, decode_open_response,
}
use tcpquic_proxy.Protocol.Open.RoundTrip.{open_request-RoundTrips, open_response-RoundTrips}
use tcpquic_proxy.Protocol.Hello.{
  ClientHello, is_name_byte, all_name_bytes, is_valid_client_name, encode_client_hello,
  decode_client_hello,
}
use tcpquic_proxy.Protocol.Hello.RoundTrip.{client_hello-RoundTrips}
use tcpquic_proxy.Protocol.Speed.{
  SpeedStart, SpeedReady, SpeedFinish, SpeedResult, SpeedError, validate_speed_start,
  validate_speed_ready, validate_speed_error, encode_speed_start, decode_speed_start,
  encode_speed_ready, decode_speed_ready, encode_speed_finish, decode_speed_finish,
  encode_speed_result, decode_speed_result, encode_speed_error, decode_speed_error,
}
use tcpquic_proxy.Protocol.Speed.Fixed.{FitsStart, FitsFinish, FitsResult}
use tcpquic_proxy.Protocol.Speed.Variable.{FitsReady, FitsError}
use tcpquic_proxy.Protocol.Speed.RoundTrips.{
  speed_start-RoundTrips, speed_ready-RoundTrips, speed_ends-RoundTrip, speed_error-RoundTrips,
}

abbrev open_db : OpenRequest
open_db = record { flags = 4; addr_type = 3; port = 443; addr = b'd' ∷ b'b' ∷ [] }

abbrev open_db_frame : Bytes
open_db_frame = 84 ∷ 81 ∷ 1 ∷ 1 ∷ 4 ∷ 3 ∷ 1 ∷ 187 ∷ 0 ∷ 2 ∷ b'd' ∷ b'b' ∷ 0 ∷ []

open_db_decoded : decode_open_request open_db_frame ≡ some open_db
unfolding decode_open_request has_magic validate_addr read_u16_be
open_db_decoded = refl

open_db_valid : validate_addr open_db ≡ true
unfolding validate_addr
open_db_valid = refl

open_request-RoundTrips_example :
    Survives encode_open_request decode_open_request open_db
    × (encode_open_request open_db ≡ some open_db_frame)
open_request-RoundTrips_example =
    open_request-RoundTrips open_db open_db_frame (omega arith) open_db_valid (ground arith)
      open_db_decoded

abbrev refused : OpenResponse
refused = record { is_ok = false; error = 3; conn_id = 7 }

abbrev refused_frame : Bytes
refused_frame = 84 ∷ 81 ∷ 1 ∷ 3 ∷ 3 ∷ 0 ∷ 0 ∷ 0 ∷ 7 ∷ []

refused_decoded : decode_open_response refused_frame ≡ some refused
unfolding decode_open_response has_magic coherent read_u32_be
refused_decoded = refl

refused_valid : coherent refused.is_ok refused.error ≡ true
unfolding coherent
refused_valid = refl

open_response-RoundTrips_example :
    Survives encode_open_response decode_open_response refused
    × (encode_open_response refused ≡ some refused_frame)
open_response-RoundTrips_example =
    open_response-RoundTrips refused refused_frame (omega arith) refused_valid (ground arith)
      refused_decoded

abbrev hello : ClientHello
hello = record { client_name = b'n' ∷ b'1' ∷ [] }

abbrev hello_frame : Bytes
hello_frame = 84 ∷ 81 ∷ 1 ∷ 32 ∷ 0 ∷ 2 ∷ b'n' ∷ b'1' ∷ []

hello_decoded : decode_client_hello hello_frame ≡ some hello
unfolding decode_client_hello has_magic is_valid_client_name all_name_bytes is_name_byte read_u16_be
hello_decoded = refl

hello_valid : is_valid_client_name hello.client_name ≡ true
unfolding is_valid_client_name all_name_bytes is_name_byte
hello_valid = refl

client_hello-RoundTrips_example :
    Survives encode_client_hello decode_client_hello hello
    × (encode_client_hello hello ≡ some hello_frame)
client_hello-RoundTrips_example =
    client_hello-RoundTrips hello hello_frame hello_valid (ground arith) hello_decoded

abbrev speed_start : SpeedStart
speed_start = record { session_id = 9; direction = 1; duration_sec = 10; parallel = 4; flags = 0 }

abbrev speed_start_frame : Bytes
speed_start_frame = 84 ∷ 81 ∷ 1 ∷ 16 ∷ 0 ∷ 0 ∷ 0 ∷ 9 ∷ 1 ∷ 0 ∷ 0 ∷ 0 ∷ 10 ∷ 0 ∷ 4 ∷ 0 ∷ []

speed_start_decoded : decode_speed_start speed_start_frame ≡ some speed_start
unfolding decode_speed_start has_magic validate_speed_start read_u16_be read_u32_be
speed_start_decoded = refl

speed_start_fits : FitsStart speed_start
speed_start_fits = record { session_word = omega arith }

speed_start_valid : validate_speed_start speed_start ≡ true
unfolding validate_speed_start
speed_start_valid = refl

speed_start-RoundTrips_example :
    Survives encode_speed_start decode_speed_start speed_start
    × (encode_speed_start speed_start ≡ some speed_start_frame)
speed_start-RoundTrips_example =
    speed_start-RoundTrips speed_start speed_start_frame speed_start_fits speed_start_valid
      (ground arith) speed_start_decoded

abbrev speed_ready : SpeedReady
speed_ready = record { session_id = 9; addr_type = 1; port = 5201; addr = 127 ∷ 0 ∷ 0 ∷ 1 ∷ [] }

abbrev speed_ready_frame : Bytes
speed_ready_frame = 84 ∷ 81 ∷ 1 ∷ 17 ∷ 0 ∷ 0 ∷ 0 ∷ 9 ∷ 1 ∷ 20 ∷ 81 ∷ 0 ∷ 4 ∷ 127 ∷ 0 ∷ 0 ∷ 1 ∷ []

speed_ready_decoded : decode_speed_ready speed_ready_frame ≡ some speed_ready
unfolding decode_speed_ready has_magic validate_speed_ready read_u16_be read_u32_be
speed_ready_decoded = refl

speed_ready_fits : FitsReady speed_ready
speed_ready_fits = record { session_word = omega arith; port_word = omega arith }

speed_ready_valid : validate_speed_ready speed_ready ≡ true
unfolding validate_speed_ready
speed_ready_valid = refl

speed_ready-RoundTrips_example :
    Survives encode_speed_ready decode_speed_ready speed_ready
    × (encode_speed_ready speed_ready ≡ some speed_ready_frame)
speed_ready-RoundTrips_example =
    speed_ready-RoundTrips speed_ready speed_ready_frame speed_ready_fits speed_ready_valid
      (ground arith) speed_ready_decoded

abbrev speed_finish : SpeedFinish
speed_finish = record { session_id = 9; client_bytes = 1000; client_elapsed_us = 500 }

abbrev speed_finish_frame : Bytes
speed_finish_frame =
    84 ∷ 81 ∷ 1 ∷ 18 ∷ 0 ∷ 0 ∷ 0 ∷ 9 ∷ 0 ∷ 0 ∷ 0 ∷ 0 ∷ 0 ∷ 0 ∷ 3 ∷ 232 ∷ 0 ∷ 0 ∷ 0 ∷ 0 ∷ 0 ∷ 0 ∷ 1
    ∷ 244 ∷ []

speed_finish_decoded : decode_speed_finish speed_finish_frame ≡ some speed_finish
unfolding decode_speed_finish has_magic read_u32_be read_u64_be
speed_finish_decoded = refl

speed_finish_fits : FitsFinish speed_finish
speed_finish_fits = record {
  session_word = omega arith;
  bytes_word = omega arith;
  elapsed_word = omega arith;
}

abbrev speed_result : SpeedResult
speed_result = record {
  session_id = 9;
  server_bytes = 1000;
  server_elapsed_us = 500;
  accepted_connections = 4;
  closed_connections = 4;
  status = 0;
}

abbrev speed_result_frame : Bytes
speed_result_frame =
    84 ∷ 81 ∷ 1 ∷ 19 ∷ 0 ∷ 0 ∷ 0 ∷ 9 ∷ 0 ∷ 0 ∷ 0 ∷ 0 ∷ 0 ∷ 0 ∷ 3 ∷ 232 ∷ 0 ∷ 0 ∷ 0 ∷ 0 ∷ 0 ∷ 0 ∷ 1
    ∷ 244 ∷ 0 ∷ 0 ∷ 0 ∷ 4 ∷ 0 ∷ 0 ∷ 0 ∷ 4 ∷ 0 ∷ []

speed_result_decoded : decode_speed_result speed_result_frame ≡ some speed_result
unfolding decode_speed_result has_magic read_u32_be read_u64_be
speed_result_decoded = refl

speed_result_fits : FitsResult speed_result
speed_result_fits = record {
  session_word = omega arith;
  bytes_word = omega arith;
  elapsed_word = omega arith;
  accepted_word = omega arith;
  closed_word = omega arith;
}

speed_ends-RoundTrip_example :
    (Survives encode_speed_finish decode_speed_finish speed_finish
      × (encode_speed_finish speed_finish ≡ some speed_finish_frame))
    × (Survives encode_speed_result decode_speed_result speed_result
        × (encode_speed_result speed_result ≡ some speed_result_frame))
speed_ends-RoundTrip_example =
    speed_ends-RoundTrip speed_finish speed_finish_frame speed_result speed_result_frame
      speed_finish_fits (ground arith) speed_finish_decoded speed_result_fits (ground arith)
      speed_result_decoded

abbrev speed_error : SpeedError
speed_error = record { session_id = 9; error = 2; message = b'n' ∷ b'o' ∷ [] }

abbrev speed_error_frame : Bytes
speed_error_frame = 84 ∷ 81 ∷ 1 ∷ 20 ∷ 0 ∷ 0 ∷ 0 ∷ 9 ∷ 2 ∷ 0 ∷ 2 ∷ b'n' ∷ b'o' ∷ []

speed_error_decoded : decode_speed_error speed_error_frame ≡ some speed_error
unfolding decode_speed_error has_magic read_u16_be read_u32_be
speed_error_decoded = refl

speed_error_fits : FitsError speed_error
speed_error_fits = record { session_word = omega arith }

speed_error_valid : validate_speed_error speed_error ≡ true
unfolding validate_speed_error
speed_error_valid = refl

speed_error-RoundTrips_example :
    Survives encode_speed_error decode_speed_error speed_error
    × (encode_speed_error speed_error ≡ some speed_error_frame)
speed_error-RoundTrips_example =
    speed_error-RoundTrips speed_error speed_error_frame speed_error_fits speed_error_valid
      (ground arith) speed_error_decoded
