-- ===== src/Protocol/Address/Endpoint/RoundTrip.antt =====
-- src/protocol/quic_address.cpp: printing an endpoint and parsing it.
use tcpquic_proxy.Base.{
  ℕ, suc, ◌+◌, ◌/◌, ◌%◌, ◌≤◌, ◌<◌, ◌≡◌, ◌≢◌, refl, sym, ap, ◌∙◌, none, some, [], ◌∷◌, ◌++◌, Bytes,
  length, drop, All, arith, nil_of_length, drop-drop, drop-append, take-append, length-append, ◌⊎◌,
  inl, inr,
}
use tcpquic_proxy.Base.Text.{find_byte, find_byte_from}
use tcpquic_proxy.Base.Decimal.{to_string, read-to_string, to_string-ne-nil, to_string-All}
use tcpquic_proxy.Protocol.Bytes.{at}
use tcpquic_proxy.Protocol.Address.Endpoint.{
  port_digits, read_port, endpoint_of, cut_bracketed, cut_plain, cut_endpoint, parse_endpoint,
  format_endpoint,
}

port_digits-step :
    (n : ℕ) (out : Bytes)
    → n ≤ 65535
    → port_digits (n / 10) ((b'0' + n % 10) ∷ out) ≡ port_digits n out
unfolding port_digits
port_digits-step n out low = ground arith

pub read-port : (port : ℕ) → 0 < port → port < 65536 → read_port (to_string port) ≡ some port
unfolding read_port port_digits
read-port port some_port small =
    let digits =
      read-to_string port_digits 65535 port_digits-step port (omega arith) (omega arith) in
    let filled = to_string-ne-nil port in ground arith

-- A text without a byte.
abbrev pub Lacks : ℕ → Bytes → Type 0
Lacks b = All (λ c. c ≢ b)

find-append : (b : ℕ) (xs ys : Bytes) → Lacks b xs → find_byte b (xs ++ (b ∷ ys)) ≡ some (length xs)
unfolding find_byte
find-append b [] ys h = ground arith
find-append b (x ∷ xs) ys (h, hs) = ground (arith, find-append b xs ys hs)

find_none : (b : ℕ) (xs : Bytes) → Lacks b xs → find_byte b xs ≡ none
unfolding find_byte
find_none b [] h = refl
find_none b (x ∷ xs) (h, hs) = ground (arith, find_none b xs hs)

-- What lies behind the text in front.
pub at-append : (xs ys : Bytes) (n : ℕ) → at (xs ++ ys) (length xs + n) ≡ at ys n
at-append [] ys n = let e : 0 + n ≡ n = omega arith in rw e refl
at-append (x ∷ xs) ys n =
    let e : suc (length xs) + n ≡ suc (length xs + n) = omega arith in rw e (at-append xs ys n)

drop-append_plus : (xs ys : Bytes) (n : ℕ) → drop (length xs + n) (xs ++ ys) ≡ drop n ys
drop-append_plus xs ys n =
    sym (drop-drop (length xs) n (xs ++ ys)) ∙ ap (drop n) (drop-append xs ys)

to_string-Lacks : (port : ℕ) → Lacks b':' (to_string port)
to_string-Lacks port = to_string-All (λ c. c ≢ b':') port (λ d low e. absurd (omega arith))

-- A host that the text of an endpoint can hold.
abbrev pub IsHost : Bytes → Type 0
IsHost host =
    (host ≢ [])
    × ((find_byte b':' host ≢ none) × Lacks b']' host ⊎ Lacks b':' host × (at host 0 ≢ b'['))

cut_plain_lem :
    (host text : Bytes)
    → Lacks b':' host
    → Lacks b':' text
    → host ≢ []
    → text ≢ []
    → cut_plain (host ++ (b':' ∷ text)) ≡ some (host, text)
unfolding cut_plain find_byte_from
cut_plain_lem host text bare plain some_host some_text =
    let e = find-append b':' host text bare in
    let rest = drop-append_plus host (b':' ∷ text) 1 in
    let no_more = find_none b':' text plain in
    let front = take-append host (b':' ∷ text) in
    let wide = length-append host (b':' ∷ text) in
    let host_ok = λ (z : length host ≡ 0). some_host (nil_of_length host z) in
    let text_ok = λ (z : length text ≡ 0). some_text (nil_of_length text z) in ground arith

cut_bracketed_lem :
    (host text : Bytes)
    → Lacks b']' host
    → cut_bracketed (b'[' ∷ (host ++ (b']' ∷ b':' ∷ text))) ≡ some (host, text)
unfolding cut_bracketed find_byte
cut_bracketed_lem host text bare =
    let e = find-append b']' host (b':' ∷ text) bare in
    let rest = drop-append_plus host (b']' ∷ b':' ∷ text) 2 in
    let front = take-append host (b']' ∷ b':' ∷ text) in
    let mark = at-append host (b']' ∷ b':' ∷ text) 1 in
    let wide = length-append host (b']' ∷ b':' ∷ text) in ground arith

at-append_first : (xs ys : Bytes) → xs ≢ [] → at (xs ++ ys) 0 ≡ at xs 0
at-append_first [] ys h = absurd (h refl)
at-append_first (x ∷ xs) ys h = refl

-- An endpoint whose host is not empty and whose port is between 1 and 65535 is the one that is
-- parsed from its text. The host either holds a colon and no `]`, or no colon and does not begin
-- with `[`.
pub parse-format_endpoint :
    (host : Bytes) (port : ℕ)
    → IsHost host
    → 0 < port
    → port < 65536
    → parse_endpoint (format_endpoint (record { host = host; port = port }))
      ≡ some (record { host = host; port = port })
unfolding parse_endpoint format_endpoint cut_endpoint endpoint_of
parse-format_endpoint host port (some_host, inl (colon, bare)) some_port small =
    let e = cut_bracketed_lem host (to_string port) bare in
    let p = read-port port some_port small in ground arith
parse-format_endpoint host port (some_host, inr (bare, first)) some_port small =
    let e =
      cut_plain_lem host (to_string port) bare (to_string-Lacks port) some_host
        (to_string-ne-nil port) in
    let p = read-port port some_port small in
    let k = at-append_first host (b':' ∷ to_string port) some_host in
    let n = find_none b':' host bare in ground arith
