-- ===== src/Ingress/State/Chunks.antt =====
-- src/ingress/client_ingress_state.cpp: a client's bytes cut into several reads.
use mathlib.Core.List.{append_assoc}
use tcpquic_proxy.Base.{◌≡◌, ap, ◌∙◌, ◌++◌, arith, Bytes}
use tcpquic_proxy.Acl.Cidr.{InetPton}
use tcpquic_proxy.Ingress.Socks5.{InetNtop}
use tcpquic_proxy.Ingress.State.{
  need_read, IngressState, feed_auth, feed_greeting, feed_request, feed_socks5, feed_header,
  feed_http_connect, dispatch, feed,
}

auth-need_read : (s t : IngressState) → feed_auth s ≡ (t, need_read) → t ≡ s
unfolding feed_auth
auth-need_read s t e = ground arith

greeting-need_read : (s t : IngressState) → feed_greeting s ≡ (t, need_read) → t ≡ s
unfolding feed_greeting
greeting-need_read s t e = ground arith

request-need_read :
    (ntop : InetNtop) (s t : IngressState) → feed_request ntop s ≡ (t, need_read) → t ≡ s
unfolding feed_request
request-need_read ntop s t e = ground arith

socks5-need_read :
    (ntop : InetNtop) (s t : IngressState) → feed_socks5 ntop s ≡ (t, need_read) → t ≡ s
unfolding feed_socks5
socks5-need_read ntop s t e =
    ground (arith, auth-need_read s t, greeting-need_read s t, request-need_read ntop s t)

http-need_read :
    (pton : InetPton) (s t : IngressState) → feed_http_connect pton s ≡ (t, need_read) → t ≡ s
unfolding feed_http_connect feed_header
http-need_read pton s t e = ground arith

dispatch-need_read :
    (pton : InetPton) (ntop : InetNtop) (s t : IngressState)
    → dispatch pton ntop s ≡ (t, need_read)
    → t ≡ s
unfolding dispatch
dispatch-need_read pton ntop s t e =
    ground (arith, socks5-need_read ntop s t, http-need_read pton s t)

-- If Feed asks for more bytes, feeding more bytes to the state that it left gives the same state and
-- the same result as feeding all the bytes to the first state in one call.
pub feed-append :
    (pton : InetPton) (ntop : InetNtop) (s t : IngressState) (bs more : Bytes)
    → feed pton ntop s bs ≡ (t, need_read)
    → feed pton ntop t more ≡ feed pton ntop s (bs ++ more)
unfolding feed
feed-append pton ntop s t bs more e =
    ap (λ x. dispatch pton ntop (record x { read_buffer = x.read_buffer ++ more }))
      (dispatch-need_read pton ntop (record s { read_buffer = s.read_buffer ++ bs }) t e)
    ∙ ap (λ b. dispatch pton ntop (record s { read_buffer = b }))
        (append_assoc s.read_buffer bs more)
