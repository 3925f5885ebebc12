-- ===== src/Ingress/Request.antt =====
-- src/tunnel/tcp_tunnel.h: the request for a tunnel that every front end produces.
use tcpquic_proxy.Base.{ℕ, Bytes, []}

-- `host` is the C string in the array Host: what stands in front of its first NUL. No reader of the
-- array looks further.
pub record TunnelRequest : Type 0 where
  pub addr_type : ℕ
  pub host : Bytes
  pub port : ℕ
  pub compress_flags : ℕ
  pub ingress_trace_proto : ℕ

-- sizeof(TunnelRequest::Host)
abbrev pub host_size : ℕ
host_size = 256

-- TunnelRequest{}
abbrev pub empty_request : TunnelRequest
empty_request = record {
  addr_type = 0;
  host = [];
  port = 0;
  compress_flags = 0;
  ingress_trace_proto = 0;
}
