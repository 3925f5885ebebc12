-- ===== src/Protocol/Hello/RoundTrip.antt =====
-- src/protocol/control_protocol.cpp: the round trips of client hellos.
use tcpquic_proxy.Base.{
  ◌+◌, ◌≤◌, ◌≡◌, ap, ◌∙◌, true, some, [], Bytes, IsBytes, arith, length, take, drop, length-drop,
  take_all,
}
use tcpquic_proxy.Protocol.Bytes.{at, write_u16_be, read_u16_be}
use tcpquic_proxy.Protocol.Bytes.Laws.{read-write_u16, write_u16_be-read}
use tcpquic_proxy.Protocol.Frame.{Survives, header, has_magic, cmd_client_hello}
use tcpquic_proxy.Protocol.Frame.Laws.{header-split}
use tcpquic_proxy.Protocol.Hello.{
  ClientHello, max_name_len, is_valid_client_name, encode_client_hello, decode_client_hello,
}

abbrev hello_frame : Bytes → Bytes
hello_frame name = header cmd_client_hello (write_u16_be (length name) name)

valid_name-length :
    (name : Bytes)
    → is_valid_client_name name ≡ true
    → (1 ≤ length name) × (length name ≤ max_name_len)
unfolding is_valid_client_name
valid_name-length name v = ground arith

encode-valid :
    (msg : ClientHello)
    → is_valid_client_name msg.client_name ≡ true
    → encode_client_hello msg ≡ some (hello_frame msg.client_name)
unfolding encode_client_hello
encode-valid msg v = ground (arith, valid_name-length msg.client_name v)

decode-frame :
    (msg : ClientHello)
    → is_valid_client_name msg.client_name ≡ true
    → decode_client_hello (hello_frame msg.client_name) ≡ some msg
unfolding decode_client_hello has_magic
decode-frame msg v =
    let name = msg.client_name in
    let len = valid_name-length name v in
    ground (
      arith,
      len,
      read-write_u16 (header cmd_client_hello []) name (length name) (omega arith),
      take_all (length name) name (omega arith),
    )

-- A hello with a valid client name is encoded, and the decoder returns it unchanged.
pub client_hello-Survives :
    (msg : ClientHello)
    → is_valid_client_name msg.client_name ≡ true
    → Survives encode_client_hello decode_client_hello msg
client_hello-Survives msg v = (hello_frame msg.client_name, encode-valid msg v, decode-frame msg v)

decode-eq-some :
    (bs : Bytes) {msg : ClientHello}
    → decode_client_hello bs ≡ some msg
    → let n = read_u16_be bs 4 in
      (has_magic bs ≡ true)
      × (at bs 3 ≡ cmd_client_hello)
      × (length bs ≡ 6 + n)
      × (is_valid_client_name msg.client_name ≡ true)
      × (msg.client_name ≡ take n (drop 6 bs))
unfolding decode_client_hello
decode-eq-some bs e = ground arith

-- If the decoder accepts a list of bytes, then the encoder turns the hello that it returned into the
-- same bytes.
pub encode-decode_client_hello :
    (bs : Bytes) {msg : ClientHello}
    → IsBytes bs
    → decode_client_hello bs ≡ some msg
    → encode_client_hello msg ≡ some bs
encode-decode_client_hello bs {msg} h e =
    let (magic, cmd, len, v, shape) = decode-eq-some bs e in
    let n = read_u16_be bs 4 in
    let len' : length (drop 6 bs) ≡ n = omega (arith, length-drop 6 bs) in
    let whole = take_all n (drop 6 bs) (omega arith) in
    encode-valid msg v
    ∙ ap some (
        rw (shape, whole, len', write_u16_be-read bs (drop 6 bs) 4 h)
          (header-split 2 cmd_client_hello bs magic cmd (omega arith)))

-- A hello with a valid client name is encoded, and the decoder returns it unchanged; and if the
-- decoder accepts a list of bytes, then the encoder turns the hello that it returned into the same
-- bytes.
pub client_hello-RoundTrips :
    (msg : ClientHello) (bs : Bytes) {other : ClientHello}
    → is_valid_client_name msg.client_name ≡ true
    → IsBytes bs
    → decode_client_hello bs ≡ some other
    → Survives encode_client_hello decode_client_hello msg × (encode_client_hello other ≡ some bs)
client_hello-RoundTrips msg bs valid bytes read =
    (client_hello-Survives msg valid, encode-decode_client_hello bs bytes read)
