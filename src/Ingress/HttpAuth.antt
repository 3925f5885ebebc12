-- ===== src/Ingress/HttpAuth.antt =====
-- src/ingress/proxy_auth.cpp: the Proxy-Authorization header and its base64 credentials.
use tcpquic_proxy.Base.{
  ℕ, zero, suc, List, ◌+◌, ◌-◌, ◌%◌, Bool, true, false, not, ◌&&◌, ◌||◌, Option, none, some, [],
  ◌∷◌, ◌++◌, ltb, leb, ◌==◌, if◌then◌else◌, Bytes, length, take, drop, is_empty, bit_or,
}
use tcpquic_proxy.Base.Bits.{shl, shr}
use tcpquic_proxy.Base.Text.{codes, find_byte, find_text}
use tcpquic_proxy.Acl.Cidr.{is_digit}
use tcpquic_proxy.Ingress.Auth.{User, enabled, validate, max_field_bytes}
use tcpquic_proxy.Ingress.Http.{crlf, crlf_crlf}

abbrev is_upper : ℕ → Bool
is_upper c = leb b'A' c && leb c b'Z'

abbrev is_lower : ℕ → Bool
is_lower c = leb b'a' c && leb c b'z'

unfoldable pub base64_value : ℕ → Bool
base64_value ch = is_upper ch || is_lower ch || is_digit ch || ch == b'+' || ch == b'/'

-- `none` is -1.
unfoldable pub base64_decode_byte : ℕ → Option ℕ
base64_decode_byte ch =
    if is_upper ch
    then some (ch - b'A')
    else if is_lower ch
    then some (ch - b'a' + 26)
    else if is_digit ch
    then some (ch - b'0' + 52)
    else if ch == b'+'
    then some 62
    else if ch == b'/'
    then some 63
    else none

abbrev is_space : ℕ → Bool
is_space ch = ch == 32 || ch == 9 || ch == 13 || ch == 10

-- The first loop of TqBase64Decode: blanks are dropped, and any other foreign byte fails. The
-- count of the padding in front of it is never more than 2, and is not used behind it.
unfoldable pub base64_clean : Bytes → Option Bytes
unfolding base64_value
base64_clean [] = some []
base64_clean (ch ∷ input) =
    let rest = base64_clean input in
    if ch == b'=' || base64_value ch
    then elim rest [ none ↦ none | some cleaned ↦ some (ch ∷ cleaned) ]
    else if is_space ch
    then rest
    else none

abbrev pub triple_of : ℕ → ℕ → ℕ → ℕ → ℕ
triple_of b0 b1 b2 b3 = bit_or (bit_or (bit_or (shl b0 18) (shl b1 12)) (shl b2 6)) b3

abbrev pub padded_byte : ℕ → Option ℕ
padded_byte c = if c == b'=' then some 0 else base64_decode_byte c

-- The bytes of one group of four characters.
unfoldable pub base64_group : ℕ → ℕ → ℕ → ℕ → Option Bytes
base64_group c0 c1 c2 c3 = elim (base64_decode_byte c0) [
  | none ↦ none
  | some b0 ↦ elim (base64_decode_byte c1) [
    | none ↦ none
    | some b1 ↦ elim (padded_byte c2) [
      | none ↦ none
      | some b2 ↦ elim (padded_byte c3) [
        | none ↦ none
        | some b3 ↦
            let triple = triple_of b0 b1 b2 b3 in
            some (
              (shr triple 16 % 256)
              ∷ ((if c2 == b'=' then [] else (shr triple 8 % 256) ∷ [])
                  ++ (if c3 == b'=' then [] else (triple % 256) ∷ [])))
      ]
    ]
  ]
]

-- The second loop. The length is a multiple of 4 where it is entered.
unfoldable pub base64_groups : Bytes → Option Bytes
base64_groups [] = some []
base64_groups (c0 ∷ c1 ∷ c2 ∷ c3 ∷ cleaned) =
    let rest = base64_groups cleaned in
    elim (base64_group c0 c1 c2 c3) [
      | none ↦ none
      | some bs ↦ elim rest [ none ↦ none | some out ↦ some (bs ++ out) ]
    ]
base64_groups _ = none

unfoldable pub base64_decode : Bytes → Option Bytes
base64_decode input = if is_empty input then none else elim (base64_clean input) [
  | none ↦ none
  | some cleaned ↦
      if is_empty cleaned || not (length cleaned % 4 == 0)
      then none
      else elim (base64_groups cleaned) [
        | none ↦ none
        | some out ↦ if is_empty out then none else some out
      ]
]

-- std::tolower in the C locale.
abbrev pub to_lower : ℕ → ℕ
to_lower c = if is_upper c then c + 32 else c

unfoldable pub equals_ignore_case : Bytes → Bytes → Bool
equals_ignore_case [] [] = true
equals_ignore_case (a ∷ left) (b ∷ right) =
    to_lower a == to_lower b && equals_ignore_case left right
equals_ignore_case _ _ = false

-- The blanks in front of a header's value.
unfoldable pub skip_blanks : Bytes → Bytes
skip_blanks [] = []
skip_blanks (c ∷ s) = let rest = skip_blanks s in if c == 32 || c == 9 then rest else c ∷ s

abbrev header_value : Bytes → Bytes → Option Bytes
header_value name line = elim (find_byte b':' line) [
  | none ↦ none
  | some colon ↦
      if equals_ignore_case (take colon line) name
      then some (skip_blanks (drop (colon + 1) line))
      else none
]

-- The loop of TqFindHttpHeaderValue over the lines from `pos` on, on fuel: every round moves `pos`
-- by two bytes at least, so a fuel of headerEnd is enough.
unfoldable pub header_loop : ℕ → Bytes → Bytes → ℕ → ℕ → Option Bytes
header_loop zero request name header_end pos = none
header_loop (suc fuel) request name header_end pos = elim (find_text crlf (drop pos request)) [
  | none ↦ none
  | some len ↦
      let next = header_loop fuel request name header_end (pos + len + 2) in
      if leb header_end pos || ltb header_end (pos + len)
      then none
      else elim (header_value name (take len (drop pos request))) [
        | some value ↦ some value
        | none ↦ next
      ]
]

unfoldable pub find_http_header_value : Bytes → Bytes → Option Bytes
find_http_header_value request name = elim (find_text crlf_crlf request) [
  | none ↦ none
  | some header_end ↦ elim (find_text crlf request) [
    | none ↦ none
    | some pos ↦ header_loop header_end request name header_end (pos + 2)
  ]
]

abbrev pub basic : Bytes
basic = codes "Basic "

-- User and password behind the first colon of the decoded text.
unfoldable pub split_credentials : Bytes → Option (Bytes × Bytes)
split_credentials decoded = elim (find_byte b':' decoded) [
  | none ↦ none
  | some colon ↦
      let user = take colon decoded in
      let pass = drop (colon + 1) decoded in
      if colon == 0
        || is_empty user
        || ltb max_field_bytes (length user)
        || ltb max_field_bytes (length pass)
      then none
      else some (user, pass)
]

unfoldable pub parse_http_proxy_authorization : Bytes → Option (Bytes × Bytes)
parse_http_proxy_authorization value =
    if ltb (length value) (length basic) || not (equals_ignore_case (take 6 value) basic)
    then none
    else elim (base64_decode (drop 6 value)) [
      | none ↦ none
      | some decoded ↦ split_credentials decoded
    ]

pub data AuthResult : Type 0 where
  authorized disabled missing_header invalid_header invalid_credentials : AuthResult

unfoldable pub http_connect_request_auth_result : Bytes → List User → AuthResult
http_connect_request_auth_result request users =
    if not (enabled users)
    then disabled
    else elim (find_http_header_value request (codes "Proxy-Authorization")) [
      | none ↦ missing_header
      | some header ↦ elim (parse_http_proxy_authorization header) [
        | none ↦ invalid_header
        | some (user, pass) ↦
            if not (validate users user pass) then invalid_credentials else authorized
      ]
    ]

unfoldable pub http_connect_request_authorized : Bytes → List User → Bool
http_connect_request_authorized request users =
    elim (http_connect_request_auth_result request users) [
      | authorized ↦ true
      | disabled ↦ true
      | _ ↦ false
    ]
