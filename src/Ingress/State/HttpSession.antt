-- ===== src/Ingress/State/HttpSession.antt =====
-- Whole HTTP CONNECT connections of src/ingress/client_ingress_state.cpp: what a client can do, and
-- what it takes to open a tunnel.
use mathlib.Core.List.{append-nil, append_assoc}
use mathlib.Core.Bool.{false≢true}
use tcpquic_proxy.Base.{
  ℕ, ◌≡◌, refl, ap, sym, ◌∙◌, subst, true, false, List, [], ◌++◌, ◌⊎◌, inl, inr, Bytes, arith,
  Bool-cases,
}
use tcpquic_proxy.Acl.Cidr.{InetPton}
use tcpquic_proxy.Ingress.Auth.{User, enabled}
use tcpquic_proxy.Ingress.Socks5.{InetNtop}
use tcpquic_proxy.Ingress.State.{
  http_connect, IngressState, new_state, feed_http_connect, dispatch, feed, mark_write_complete,
  take_buffered_data,
}
use tcpquic_proxy.Ingress.State.Http.{feed-Admitted, feed-unread, feed-same}
use tcpquic_proxy.Ingress.State.Opened.{Opened, Admitted-Opened, Opened-move}

-- What a client can do to a connection: send bytes, take what was written, and have the buffer
-- taken over once the connection is ready. The lists are all that the client has sent, and all
-- that was taken over.
pub data Run (pton : InetPton) (ntop : InetNtop) (users : List User)
    : Bytes → Bytes → IngressState → Type 0 where
  start : Run pton ntop users [] [] (new_state http_connect users)
  sent :
      {received handed : Bytes} {s : IngressState} (bs : Bytes)
      → Run pton ntop users received handed s
      → Run pton ntop users (received ++ bs) handed (feed pton ntop s bs).0
  wrote :
      {received handed : Bytes} {s : IngressState} (n : ℕ)
      → Run pton ntop users received handed s
      → Run pton ntop users received handed (mark_write_complete s n)
  taken :
      {received handed : Bytes} {s : IngressState}
      → s.ready ≡ true
      → Run pton ntop users received handed s
      → Run pton ntop users received (handed ++ (take_buffered_data s).1) (take_buffered_data s).0

-- Before the connection is ready, all bytes are in the buffer; behind, it is opened.
record Inv (pton : InetPton) (users : List User) (received handed : Bytes) (s : IngressState)
    : Type 0 where
  is_http : s.proto ≡ http_connect
  same_users : s.auth ≡ users
  stage :
      (s.ready ≡ false) × (received ≡ s.read_buffer) × (handed ≡ [])
      ⊎ (s.ready ≡ true) × Opened pton users received handed s

fed-Inv :
    (pton : InetPton) (users : List User) (s : IngressState)
    → enabled users ≡ true
    → s.proto ≡ http_connect
    → s.auth ≡ users
    → s.ready ≡ false
    → Inv pton users s.read_buffer [] (feed_http_connect pton s).0
fed-Inv pton users s on http same closed =
    let kept = feed-same pton s in
    record {
      is_http = kept.0 ∙ http;
      same_users = kept.1 ∙ same;
      stage = elim (Bool-cases (feed_http_connect pton s).0.ready) [
        | inl ready ↦
            inr (ready, Admitted-Opened pton users s _ on same (feed-Admitted pton s closed ready))
        | inr still ↦ inl (still, sym (feed-unread pton s still), refl)
      ];
    }

feed-http :
    (pton : InetPton) (ntop : InetNtop) (s : IngressState) (bs : Bytes)
    → s.proto ≡ http_connect
    → s.ready ≡ false
    → feed pton ntop s bs ≡ feed_http_connect pton (record s { read_buffer = s.read_buffer ++ bs })
unfolding feed dispatch
feed-http pton ntop s bs http closed = ground arith

feed-ready :
    (pton : InetPton) (ntop : InetNtop) (s : IngressState) (bs : Bytes)
    → s.ready ≡ true
    → (feed pton ntop s bs).0 ≡ record s { read_buffer = s.read_buffer ++ bs }
unfolding feed dispatch
feed-ready pton ntop s bs ready = ground arith

feed-Inv :
    (pton : InetPton) (ntop : InetNtop) (users : List User) (received handed bs : Bytes)
    (s : IngressState)
    → enabled users ≡ true
    → Inv pton users received handed s
    → Inv pton users (received ++ bs) handed (feed pton ntop s bs).0
feed-Inv pton ntop users received handed bs s on v =
    let s' : IngressState = record s { read_buffer = s.read_buffer ++ bs } in
    elim v.stage [
      | inl (closed, whole, none_handed) ↦
          let called : feed pton ntop s bs ≡ feed_http_connect pton s' =
            feed-http pton ntop s bs v.is_http closed in
          let base = fed-Inv pton users s' on v.is_http v.same_users closed in
          subst (λ r. Inv pton users (received ++ bs) handed r.0) (sym called)
            (subst (λ h. Inv pton users (received ++ bs) h (feed_http_connect pton s').0)
              (sym none_handed)
              (subst (λ r. Inv pton users r [] (feed_http_connect pton s').0)
                (sym (ap (λ r. r ++ bs) whole)) base))
      | inr (ready, o) ↦
          let called : (feed pton ntop s bs).0 ≡ s' = feed-ready pton ntop s bs ready in
          subst (Inv pton users (received ++ bs) handed) (sym called) (record {
            is_http = v.is_http;
            same_users = v.same_users;
            stage = inr (
              ready,
              Opened-move pton users received handed handed bs s s' refl
                  (append_assoc handed s.read_buffer bs) o,
            );
          })
    ]

-- A step without new bytes that keeps the stream.
still-Inv :
    (pton : InetPton) (users : List User) (received handed handed' : Bytes) (s t : IngressState)
    → (t.proto ≡ s.proto)
      × (t.auth ≡ s.auth)
      × (t.ready ≡ s.ready)
      × (t.parsed_request ≡ s.parsed_request)
    → handed ++ s.read_buffer ≡ handed' ++ t.read_buffer
    → (s.ready ≡ true) ⊎ (t.read_buffer ≡ s.read_buffer) × (handed' ≡ handed)
    → Inv pton users received handed s
    → Inv pton users received handed' t
still-Inv pton users received handed handed' s t (p, a, r, q) stream how v = record {
  is_http = p ∙ v.is_http;
  same_users = a ∙ v.same_users;
  stage = elim v.stage [
    | inl (closed, whole, none_handed) ↦ elim how [
      | inl ready ↦ absurd (false≢true (sym closed ∙ ready))
      | inr (same, kept) ↦ inl (r ∙ closed, whole ∙ sym same, kept ∙ none_handed)
    ]
    | inr (ready, o) ↦
        let moved =
          Opened-move pton users received handed handed' [] s t q
            (append-nil (handed ++ s.read_buffer) ∙ stream) o in
        inr (r ∙ ready, subst (λ b. Opened pton users b handed' t) (append-nil received) moved)
  ];
}

Run-Inv :
    {pton : InetPton} {ntop : InetNtop} {users : List User} {received handed : Bytes}
    {s : IngressState}
    → enabled users ≡ true
    → Run pton ntop users received handed s
    → Inv pton users received handed s
unfolding new_state mark_write_complete take_buffered_data
Run-Inv on start = record { is_http = refl; same_users = refl; stage = inl (refl, refl, refl) }
Run-Inv {pton} {ntop} {users} on (sent {received} {handed} {s} bs r) =
    feed-Inv pton ntop users received handed bs s on (Run-Inv on r)
Run-Inv {pton} {ntop} {users} on (wrote {received} {handed} {s} n r) =
    still-Inv pton users received handed handed s (mark_write_complete s n) (refl, refl, refl, refl)
      refl (inr (refl, refl)) (Run-Inv on r)
Run-Inv {pton} {ntop} {users} on (taken {received} {handed} {s} ready r) =
    still-Inv pton users received handed (handed ++ s.read_buffer) s (take_buffered_data s).0
      (refl, refl, refl, refl) (sym (append-nil (handed ++ s.read_buffer))) (inl ready)
      (Run-Inv on r)

-- With users configured, however the client cuts its bytes, if the buffer is taken over only while
-- the connection is ready: once an HTTP CONNECT connection is ready to open a tunnel, what the client
-- has sent begins with a header that ends in its first empty line and has at most 16384 bytes, that
-- names a user with a password which Validate accepts, and that is parsed into the request which is
-- kept; and the bytes behind the header, none of them lost, are those that were taken over and those
-- that are still buffered.
pub ready-Opened :
    {pton : InetPton} {ntop : InetNtop} {users : List User} {received handed : Bytes}
    {s : IngressState}
    → enabled users ≡ true
    → Run pton ntop users received handed s
    → s.ready ≡ true
    → Opened pton users received handed s
ready-Opened on r ready = elim (Run-Inv on r).stage [
  | inl (closed, _, _) ↦ absurd (false≢true (sym closed ∙ ready))
  | inr (_, o) ↦ o
]
