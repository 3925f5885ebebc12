-- ===== src/Tunnel/Registry/Ids.antt =====
-- src/tunnel/tunnel_registry.cpp: the texts of tunnel ids.
use tcpquic_proxy.Base.{
  ℕ, ◌+◌, ◌-◌, ◌/◌, ◌%◌, ◌^◌, ◌≤◌, ◌<◌, ◌≡◌, ◌≢◌, some, ◌∷◌, length, Bytes, arith, nil_of_length,
}
use tcpquic_proxy.Base.Text.{is_prefix}
use tcpquic_proxy.Base.Decimal.{to_string, read-to_string, to_string-ne-nil}
use tcpquic_proxy.Tunnel.Registry.{tunnel_id_text, parse_tunnel_id, id_loop}

id_loop-step :
    (n : ℕ) (out : Bytes)
    → n ≤ 2 ^ 64 - 1
    → id_loop (n / 10) ((b'0' + n % 10) ∷ out) ≡ id_loop n out
unfolding id_loop
id_loop-step n out low = ground arith

-- The text of each 64-bit id is parsed back to the id.
pub parse-tunnel_id_text : (id : ℕ) → id < 2 ^ 64 → parse_tunnel_id (tunnel_id_text id) ≡ some id
unfolding parse_tunnel_id tunnel_id_text id_loop is_prefix
parse-tunnel_id_text id small =
    let digits = read-to_string id_loop (2 ^ 64 - 1) id_loop-step id (omega arith) (omega arith) in
    let some_digit : length (to_string id) ≢ 0 =
      λ e. to_string-ne-nil id (nil_of_length (to_string id) e) in
    ground arith
