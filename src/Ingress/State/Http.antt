-- ===== src/Ingress/State/Http.antt =====
-- HTTP CONNECT connections of src/ingress/client_ingress_state.cpp: one call of Feed.
use tcpquic_proxy.Base.{
  ℕ, ◌+◌, ◌≤◌, ◌≡◌, true, false, some, arith, take, drop, ap, sym, subst, ◌∙◌, Option-cases,
  Bool-cases, inl, inr,
}
use tcpquic_proxy.Base.Text.{find_text}
use tcpquic_proxy.Acl.Cidr.{InetPton}
use tcpquic_proxy.Ingress.Request.{TunnelRequest}
use tcpquic_proxy.Ingress.Http.{crlf_crlf, parse_http_connect_request}
use tcpquic_proxy.Ingress.HttpAuth.{http_connect_request_authorized}
use tcpquic_proxy.Ingress.State.{IngressState, header_cap, opened, feed_header, feed_http_connect}

-- What gets a connection ready: a header that ends in the first empty line, within the cap, that is
-- authorized and is parsed into the request that is kept. The bytes behind it stay.
pub record Admitted (pton : InetPton) (s t : IngressState) : Type 0 where
  pub header_end : ℕ
  pub first_end : find_text crlf_crlf s.read_buffer ≡ some header_end
  pub capped : header_end + 4 ≤ header_cap
  pub is_authorized :
      http_connect_request_authorized (take (header_end + 4) s.read_buffer) s.auth ≡ true
  pub parsed : TunnelRequest
  pub is_parsed :
      parse_http_connect_request pton (take (header_end + 4) s.read_buffer) ≡ some parsed
  pub is_kept : t.parsed_request ≡ record parsed { ingress_trace_proto = 2 }
  pub remains : t.read_buffer ≡ drop (header_end + 4) s.read_buffer

header-Admitted :
    (pton : InetPton) (s : IngressState) (header_end : ℕ)
    → find_text crlf_crlf s.read_buffer ≡ some header_end
    → header_end + 4 ≤ header_cap
    → s.ready ≡ false
    → (feed_header pton s (header_end + 4)).0.ready ≡ true
    → Admitted pton s (feed_header pton s (header_end + 4)).0
unfolding feed_header opened
header-Admitted pton s header_end e fits closed ready =
    let header = take (header_end + 4) s.read_buffer in
    elim (Option-cases (parse_http_connect_request pton header)) [
      | inl bad ↦ absurd (ground arith)
      | inr (parsed, good) ↦ elim (Bool-cases (http_connect_request_authorized header s.auth)) [
        | inl allowed ↦ record {
          header_end = header_end;
          first_end = e;
          capped = fits;
          is_authorized = allowed;
          parsed = parsed;
          is_parsed = good;
          is_kept = ground arith;
          remains = ground arith;
        }
        | inr refused ↦ absurd (ground arith)
      ]
    ]

-- The state gets ready only where feed_header is called.
feed_http_connect-ready :
    (pton : InetPton) (s : IngressState)
    → s.ready ≡ false
    → (feed_http_connect pton s).0.ready ≡ true
    → (header_end : ℕ) × (find_text crlf_crlf s.read_buffer ≡ some header_end)
      × (header_end + 4 ≤ header_cap)
      × (feed_http_connect pton s ≡ feed_header pton s (header_end + 4))
unfolding feed_http_connect
feed_http_connect-ready pton s closed ready =
    elim (Option-cases (find_text crlf_crlf s.read_buffer)) [
      | inl e ↦ absurd (ground arith)
      | inr (header_end, e) ↦ (header_end, e, ground arith, ground arith)
    ]

-- A call that gets the connection ready.
pub feed-Admitted :
    (pton : InetPton) (s : IngressState)
    → s.ready ≡ false
    → (feed_http_connect pton s).0.ready ≡ true
    → Admitted pton s (feed_http_connect pton s).0
feed-Admitted pton s closed ready =
    let (header_end, e, fits, q) = feed_http_connect-ready pton s closed ready in
    subst (λ r. Admitted pton s r.0) (sym q)
      (header-Admitted pton s header_end e fits closed (sym (ap (λ r. r.0.ready) q) ∙ ready))

-- A call that does not.
pub feed-unread :
    (pton : InetPton) (s : IngressState)
    → (feed_http_connect pton s).0.ready ≡ false
    → (feed_http_connect pton s).0.read_buffer ≡ s.read_buffer
unfolding feed_http_connect feed_header opened
feed-unread pton s closed = ground arith

pub feed-same :
    (pton : InetPton) (s : IngressState)
    → ((feed_http_connect pton s).0.proto ≡ s.proto) × ((feed_http_connect pton s).0.auth ≡ s.auth)
unfolding feed_http_connect feed_header opened
feed-same pton s = ground arith
