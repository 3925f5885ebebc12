-- ===== src/Ingress/State/Opened.antt =====
-- src/ingress/client_ingress_state.cpp: what stands behind an open HTTP CONNECT connection.
use mathlib.Core.List.{append_assoc}
use tcpquic_proxy.Base.{
  ◌+◌, ◌≤◌, ◌≡◌, refl, ap, sym, ◌∙◌, true, some, List, [], ◌++◌, inl, inr, Bytes, length, take,
  drop, length-append, take-append, drop-append, nil_of_length, arith, Option-cases,
}
use tcpquic_proxy.Base.Text.{codes}
use tcpquic_proxy.Base.Find.{find_text-split, find_text-first}
use tcpquic_proxy.Acl.Cidr.{InetPton}
use tcpquic_proxy.Ingress.Request.{TunnelRequest}
use tcpquic_proxy.Ingress.Auth.{User, enabled, validate}
use tcpquic_proxy.Ingress.Http.{crlf_crlf, parse_http_connect_request}
use tcpquic_proxy.Ingress.HttpAuth.{
  find_http_header_value, parse_http_proxy_authorization, http_connect_request_auth_result,
  http_connect_request_authorized,
}
use tcpquic_proxy.Ingress.State.{IngressState}
use tcpquic_proxy.Ingress.State.Http.{Admitted}

-- A header: it ends in an empty line, and no earlier line of it is empty.
pub record IsHeader (header : Bytes) : Type 0 where
  pub lines : Bytes
  pub ends : header ≡ lines ++ crlf_crlf
  pub first : (a b : Bytes) → header ≡ a ++ (crlf_crlf ++ b) → b ≡ []

-- The header names a user with the password.
pub record Names (users : List User) (header : Bytes) : Type 0 where
  pub value : Bytes
  pub user : Bytes
  pub pass : Bytes
  pub stands : find_http_header_value header (codes "Proxy-Authorization") ≡ some value
  pub credentials : parse_http_proxy_authorization value ≡ some (user, pass)
  pub valid : validate users user pass ≡ true

-- What the client has sent begins with a header; what follows it is the stream of the tunnel, of
-- which `handed` was taken over and the rest is buffered.
pub record Opened (pton : InetPton) (users : List User) (received handed : Bytes) (s : IngressState)
    : Type 0 where
  pub header : Bytes
  pub split : received ≡ header ++ (handed ++ s.read_buffer)
  pub is_header : IsHeader header
  pub capped : length header ≤ 16384
  pub parsed : TunnelRequest
  pub is_parsed : parse_http_connect_request pton header ≡ some parsed
  pub is_kept : s.parsed_request ≡ record parsed { ingress_trace_proto = 2 }
  pub names : Names users header

authorized-Names :
    (header : Bytes) (users : List User)
    → enabled users ≡ true
    → http_connect_request_authorized header users ≡ true
    → Names users header
unfolding http_connect_request_authorized http_connect_request_auth_result
authorized-Names header users on e =
    elim (Option-cases (find_http_header_value header (codes "Proxy-Authorization"))) [
      | inl nothing ↦ absurd (ground arith)
      | inr (value, found) ↦ elim (Option-cases (parse_http_proxy_authorization value)) [
        | inl bad ↦ absurd (ground arith)
        | inr ((user, pass), good) ↦ record {
          value = value;
          user = user;
          pass = pass;
          stands = found;
          credentials = good;
          valid = ground arith;
        }
      ]
    ]

-- The header that is cut behind the first empty line.
cut-IsHeader :
    (lines rest : Bytes)
    → ((a b : Bytes)
        → lines ++ (crlf_crlf ++ rest) ≡ a ++ (crlf_crlf ++ b)
        → length lines ≤ length a)
    → IsHeader (lines ++ crlf_crlf)
cut-IsHeader lines rest h = record {
  lines = lines;
  ends = refl;
  first = λ a b e.
      let whole =
        sym (append_assoc lines crlf_crlf rest)
        ∙ ap (λ t. t ++ rest) e
        ∙ append_assoc a (crlf_crlf ++ b) rest in
      let low = h a (b ++ rest) whole in
      let size = ap length e in
      let size_1 = length-append lines crlf_crlf in
      let size_2 = length-append a (crlf_crlf ++ b) in nil_of_length b (omega arith);
}

pub Admitted-Opened :
    (pton : InetPton) (users : List User) (s t : IngressState)
    → enabled users ≡ true
    → s.auth ≡ users
    → Admitted pton s t
    → Opened pton users s.read_buffer [] t
Admitted-Opened pton users s t on same a =
    let (lines, rest, len, cut) =
      find_text-split crlf_crlf s.read_buffer a.header_end a.first_end in
    let header = lines ++ crlf_crlf in
    let whole : s.read_buffer ≡ header ++ rest = cut ∙ sym (append_assoc lines crlf_crlf rest) in
    let joined = length-append lines crlf_crlf in
    let size : a.header_end + 4 ≡ length header = omega arith in
    let front : take (a.header_end + 4) s.read_buffer ≡ header =
      ap (λ n. take n s.read_buffer) size
      ∙ ap (take (length header)) whole
      ∙ take-append header rest in
    let behind : t.read_buffer ≡ rest =
      a.remains
      ∙ ap (λ n. drop n s.read_buffer) size
      ∙ ap (drop (length header)) whole
      ∙ drop-append header rest in
    let allowed =
      ap (http_connect_request_authorized header) (sym same)
      ∙ ap (λ h. http_connect_request_authorized h s.auth) (sym front)
      ∙ a.is_authorized in
    record {
      header = header;
      split = whole ∙ ap (λ r. header ++ r) (sym behind);
      is_header = cut-IsHeader lines rest (λ u b e.
          let low =
            find_text-first crlf_crlf s.read_buffer a.header_end u b a.first_end (cut ∙ e) in
          omega (arith, low, len));
      capped = omega (arith, a.capped, size);
      parsed = a.parsed;
      is_parsed = ap (parse_http_connect_request pton) (sym front) ∙ a.is_parsed;
      is_kept = a.is_kept;
      names = authorized-Names header users on allowed;
    }

-- The stream of the tunnel goes on with `bs`, and may move from the buffer to what was taken over.
pub Opened-move :
    (pton : InetPton) (users : List User) (received handed handed' bs : Bytes) (s t : IngressState)
    → t.parsed_request ≡ s.parsed_request
    → (handed ++ s.read_buffer) ++ bs ≡ handed' ++ t.read_buffer
    → Opened pton users received handed s
    → Opened pton users (received ++ bs) handed' t
Opened-move pton users received handed handed' bs s t kept stream o = record {
  header = o.header;
  split =
      ap (λ r. r ++ bs) o.split
      ∙ append_assoc o.header (handed ++ s.read_buffer) bs
      ∙ ap (λ r. o.header ++ r) stream;
  is_header = o.is_header;
  capped = o.capped;
  parsed = o.parsed;
  is_parsed = o.is_parsed;
  is_kept = kept ∙ o.is_kept;
  names = o.names;
}
