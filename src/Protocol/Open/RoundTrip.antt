-- ===== src/Protocol/Open/RoundTrip.antt =====
-- src/protocol/control_protocol.cpp: the round trips of open requests and responses.
use tcpquic_proxy.Base.{
  if◌then◌else◌, ◌+◌, ◌^◌, ◌<◌, ◌≡◌, ap, sym, ◌∙◌, some, true, [], ◌∷◌, ◌++◌, Bytes, IsBytes, arith,
  length, length-drop, length-take, length-append, take, drop, take-append,
}
use tcpquic_proxy.Protocol.Bytes.{at, read_u16_be, write_u16_be, write_u32_be}
use tcpquic_proxy.Protocol.Bytes.Laws.{
  at-append, at-drop, split_last, split_frame, write_u16_be-read, write_u32_be-read, read-write_u16,
  read-write_u32,
}
use tcpquic_proxy.Protocol.Frame.{Survives, has_magic, header, cmd_open, cmd_open_ok, cmd_open_fail}
use tcpquic_proxy.Protocol.Frame.Laws.{header-split}
use tcpquic_proxy.Protocol.Open.{
  OpenRequest, OpenResponse, validate_addr, encode_open_request, decode_open_request,
  encode_open_response, decode_open_response, coherent,
}

response_frame : OpenResponse → Bytes
response_frame resp =
    header (if resp.is_ok then cmd_open_ok else cmd_open_fail)
      (resp.error ∷ write_u32_be resp.conn_id [])

-- An open response whose error is 0 exactly if it is a success, with a connection id below 2 ^ 32,
-- is encoded, and the decoder returns it unchanged.
pub open_response-Survives :
    (resp : OpenResponse)
    → resp.conn_id < 2 ^ 32
    → coherent resp.is_ok resp.error ≡ true
    → Survives encode_open_response decode_open_response resp
unfolding response_frame encode_open_response decode_open_response coherent has_magic
open_response-Survives resp h c = (
  response_frame resp,
  ground arith,
  ground (
    arith,
    read-write_u32 (header cmd_open_ok (resp.error ∷ [])) [] resp.conn_id h,
    read-write_u32 (header cmd_open_fail (resp.error ∷ [])) [] resp.conn_id h,
  ),
)

-- If the decoder accepts a list of bytes, then the encoder turns the response that it returned into
-- the same bytes.
pub encode-decode_open_response :
    (bs : Bytes) {resp : OpenResponse}
    → IsBytes bs
    → decode_open_response bs ≡ some resp
    → encode_open_response resp ≡ some bs
unfolding encode_open_response decode_open_response coherent has_magic
encode-decode_open_response bs h e =
    ground (arith, write_u32_be-read bs [] 5 h, split_frame 9 bs, length-drop 9 bs)

-- The frame of an open request, as the encoder lays it out for an address that fits 16 bits.
abbrev request_head : OpenRequest → Bytes
request_head req =
    header cmd_open
      (req.flags ∷ req.addr_type ∷ write_u16_be req.port (write_u16_be (length req.addr) []))

abbrev request_frame : OpenRequest → Bytes
request_frame req = request_head req ++ req.addr ++ 0 ∷ []

validate_addr-length : (req : OpenRequest) → validate_addr req ≡ true → length req.addr < 2 ^ 16
unfolding validate_addr
validate_addr-length req h = ground arith

decode-frame :
    (req : OpenRequest)
    → req.port < 2 ^ 16
    → validate_addr req ≡ true
    → decode_open_request (request_frame req) ≡ some req
unfolding decode_open_request has_magic
decode-frame req h v =
    let rest = req.addr ++ 0 ∷ [] in
    ground (
      arith,
      validate_addr-length req v,
      read-write_u16 (header cmd_open (req.flags ∷ req.addr_type ∷ []))
          (write_u16_be (length req.addr) rest) req.port h,
      read-write_u16 (header cmd_open (req.flags ∷ req.addr_type ∷ write_u16_be req.port [])) rest
          (length req.addr) (validate_addr-length req v),
      take-append req.addr (0 ∷ []),
      length-append req.addr (0 ∷ []),
      at-append (request_head req ++ req.addr) (0 ∷ []) 0,
    )

encode-valid :
    (req : OpenRequest)
    → validate_addr req ≡ true
    → encode_open_request req ≡ some (request_frame req)
unfolding encode_open_request
encode-valid req v = ground (arith, validate_addr-length req v)

open_request-Survives :
    (req : OpenRequest)
    → req.port < 2 ^ 16
    → validate_addr req ≡ true
    → Survives encode_open_request decode_open_request req
open_request-Survives req h v = (request_frame req, encode-valid req v, decode-frame req h v)

-- What a successful decoding says of the frame.
decode-eq-some :
    (bs : Bytes) {req : OpenRequest}
    → decode_open_request bs ≡ some req
    → let n = read_u16_be bs 8 in
      (has_magic bs ≡ true)
      × (at bs 3 ≡ cmd_open)
      × (length bs ≡ 11 + n)
      × (at bs (10 + n) ≡ 0)
      × (validate_addr req ≡ true)
      × (req ≡ record {
        flags = at bs 4;
        addr_type = at bs 5;
        port = read_u16_be bs 6;
        addr = take n (drop 10 bs);
      })
unfolding decode_open_request
decode-eq-some bs e = ground arith

abbrev addr_of : Bytes → Bytes
addr_of bs = take (read_u16_be bs 8) (drop 10 bs)

length-addr_of :
    (bs : Bytes) → length bs ≡ 11 + read_u16_be bs 8 → length (addr_of bs) ≡ read_u16_be bs 8
length-addr_of bs len = length-take _ (drop 10 bs) (omega (arith, length-drop 10 bs))

addr_of-tail :
    (bs : Bytes)
    → length bs ≡ 11 + read_u16_be bs 8
    → at bs (10 + read_u16_be bs 8) ≡ 0
    → addr_of bs ++ 0 ∷ [] ≡ drop 10 bs
addr_of-tail bs len last =
    let n = read_u16_be bs 8 in
    let tail = split_last n (drop 10 bs) (omega (arith, length-drop 10 bs)) in
    ap (λ b. addr_of bs ++ b ∷ []) (sym (at-drop 10 n bs ∙ last)) ∙ tail

encode-decode_open_request :
    (bs : Bytes) {req : OpenRequest}
    → IsBytes bs
    → decode_open_request bs ≡ some req
    → encode_open_request req ≡ some bs
encode-decode_open_request bs {req} h e =
    let (magic, cmd, len, last, v, shape) = decode-eq-some bs e in
    let tail = addr_of-tail bs len last in
    let n = read_u16_be bs 8 in
    encode-valid req v
    ∙ ap some (
        rw
          (
            shape,
            length-addr_of bs len,
            tail,
            write_u16_be-read bs (write_u16_be n (drop 10 bs)) 6 h,
            write_u16_be-read bs (drop 10 bs) 8 h,
          )
          (header-split 6 cmd_open bs magic cmd (omega arith)))

-- An open response whose error is 0 exactly if it is a success, with a connection id below 2 ^ 32,
-- is encoded, and the decoder returns it unchanged; and if the decoder accepts a list of bytes, then
-- the encoder turns the response that it returned into the same bytes.
pub open_response-RoundTrips :
    (msg : OpenResponse) (bs : Bytes) {other : OpenResponse}
    → msg.conn_id < 2 ^ 32
    → coherent msg.is_ok msg.error ≡ true
    → IsBytes bs
    → decode_open_response bs ≡ some other
    → Survives encode_open_response decode_open_response msg
      × (encode_open_response other ≡ some bs)
open_response-RoundTrips msg bs fits valid bytes read =
    (open_response-Survives msg fits valid, encode-decode_open_response bs bytes read)

-- An open request that validates, with a port below 2 ^ 16, is encoded, and the decoder returns it
-- unchanged; and if the decoder accepts a list of bytes, then the encoder turns the request that it
-- returned into the same bytes.
pub open_request-RoundTrips :
    (req : OpenRequest) (bs : Bytes) {other : OpenRequest}
    → req.port < 2 ^ 16
    → validate_addr req ≡ true
    → IsBytes bs
    → decode_open_request bs ≡ some other
    → Survives encode_open_request decode_open_request req × (encode_open_request other ≡ some bs)
open_request-RoundTrips req bs fits valid bytes read =
    (open_request-Survives req fits valid, encode-decode_open_request bs bytes read)
