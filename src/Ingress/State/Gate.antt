-- ===== src/Ingress/State/Gate.antt =====
-- One call of Feed in src/ingress/client_ingress_state.cpp on a SOCKS5 connection with users.
use mathlib.Core.List.{append_assoc}
use tcpquic_proxy.Base.{
  ℕ, suc, ◌+◌, ◌≤◌, ◌≡◌, refl, ap, sym, subst, ◌∙◌, true, false, List, [], ◌∷◌, ◌++◌, arith, Bytes,
  length, take, drop, take-append-drop, length-take, length-drop, drop-drop, drop-cons, ◌<◌, inl,
  inr, ◌⊎◌, Bool-cases, Option-cases, ◌==◌, ltb, ◌||◌,
}
use tcpquic_proxy.Protocol.Bytes.{at}
use tcpquic_proxy.Acl.Cidr.{InetPton}
use tcpquic_proxy.Ingress.Auth.{User, enabled, validate}
use tcpquic_proxy.Ingress.Socks5.{InetNtop, parse_connect_request}
use tcpquic_proxy.Ingress.Request.{TunnelRequest}
use tcpquic_proxy.Ingress.State.{
  socks5, IngressState, auth_len, username, password, answer_auth, refuse_methods, choose_user_pass,
  opened, socks5_request_length, feed_auth, feed_greeting, feed_request, feed_socks5, dispatch,
}

-- RFC 1929: the client's message with its credentials.
abbrev pub login : Bytes → Bytes → Bytes
login user pass = 0x01 ∷ length user ∷ (user ++ length pass ∷ pass)

-- Valid credentials stand among the bytes.
pub data LoggedIn (users : List User) (received : Bytes) : Type 0 where
  logged_in :
      (user pass before after : Bytes)
      → validate users user pass ≡ true
      → received ≡ before ++ (login user pass ++ after)
      → LoggedIn users received

pub LoggedIn-append :
    {users : List User} (received bs : Bytes)
    → LoggedIn users received
    → LoggedIn users (received ++ bs)
LoggedIn-append received bs (logged_in user pass before after v e) =
    logged_in user pass before (after ++ bs) v (
      ap (λ r. r ++ bs) e
      ∙ append_assoc before (login user pass ++ after) bs
      ∙ ap (λ t. before ++ t) (append_assoc (login user pass) after bs))

-- The message that feed_auth reads is a login: first without its two leading bytes.
login_tail :
    (n : ℕ) (rest : Bytes)
    → n < length rest
    → let m = at rest n in
      take n rest ++ (m ∷ (take m (drop (suc n) rest) ++ drop m (drop (suc n) rest))) ≡ rest
login_tail n rest h =
    rw (take-append-drop (at rest n) (drop (suc n) rest), ← drop-cons n rest 0 h)
      (take-append-drop n rest)

login-split :
    (buf : Bytes)
    → at buf 0 ≡ 0x01
    → 2 + at buf 1 + 1 + at buf (2 + at buf 1) ≤ length buf
    → let n = at buf 1 in
      let m = at buf (2 + n) in
      login (take n (drop 2 buf)) (take m (drop (3 + n) buf)) ++ drop (2 + n + 1 + m) buf ≡ buf
login-split [] v len = absurd (omega arith)
login-split (b ∷ []) v len = absurd (omega arith)
login-split (b ∷ n ∷ rest) v len =
    let two : 2 + n ≡ suc (suc n) = omega arith in
    let three : 3 + n ≡ suc (suc (suc n)) = omega arith in
    let m = at rest n in
    let total : suc (suc n) + 1 + m ≡ suc (suc (suc n + m)) = omega arith in
    let fits : suc (suc n) + 1 + m ≤ suc (suc (length rest)) = rw two at len in
    rw
      (
        two,
        three,
        total,
        v,
        length-take n rest (omega arith),
        ← drop-drop (suc n) m rest,
        length-take m (drop (suc n) rest) (omega (arith, length-drop (suc n) rest)),
      )
      (ap (λ t. 0x01 ∷ n ∷ t)
        (append_assoc (take n rest) _ (drop m (drop (suc n) rest))
          ∙ login_tail n rest (omega arith)))

-- What one call leaves behind: an untouched state, or one that has dropped some bytes from the
-- front of the buffer and was either no nearer to a tunnel, or greeted on valid credentials, or
-- opened behind the greeting.
pub data Leaves (s t : IngressState) : Type 0 where
  untouched : t ≡ s → Leaves s t
  answered :
      (count : ℕ)
      → (t.proto ≡ s.proto) × (t.auth ≡ s.auth)
      → t.read_buffer ≡ drop count s.read_buffer
      → t.socks_greeting_done ≡ s.socks_greeting_done
      → t.ready ≡ s.ready
      → Leaves s t
  greeted_now :
      (count : ℕ)
      → (t.proto ≡ s.proto) × (t.auth ≡ s.auth)
      → t.read_buffer ≡ drop count s.read_buffer
      → (t.socks_greeting_done ≡ true → LoggedIn s.auth s.read_buffer)
      → t.ready ≡ s.ready
      → s.socks_greeting_done ≡ false
      → Leaves s t
  opened_now :
      (count : ℕ)
      → (t.proto ≡ s.proto) × (t.auth ≡ s.auth)
      → t.read_buffer ≡ drop count s.read_buffer
      → t.socks_greeting_done ≡ s.socks_greeting_done
      → s.socks_greeting_done ≡ true
      → Leaves s t

feed_auth-cases :
    (s : IngressState)
    → ((feed_auth s).0 ≡ s)
      ⊎ ((at s.read_buffer 0 ≡ 0x01)
          × (auth_len s.read_buffer ≤ length s.read_buffer)
          × ((feed_auth s).0 ≡ answer_auth s))
unfolding feed_auth
feed_auth-cases s = ground arith

answer_auth-Leaves :
    (s : IngressState)
    → at s.read_buffer 0 ≡ 0x01
    → auth_len s.read_buffer ≤ length s.read_buffer
    → s.socks_greeting_done ≡ false
    → Leaves s (answer_auth s)
unfolding answer_auth
answer_auth-Leaves s v len g =
    greeted_now (auth_len s.read_buffer) (refl, refl) refl
      (λ valid.
        logged_in (username s.read_buffer) (password s.read_buffer) []
          (drop (auth_len s.read_buffer) s.read_buffer) valid
          (sym (login-split s.read_buffer v len)))
      refl g

feed_auth-Leaves : (s : IngressState) → s.socks_greeting_done ≡ false → Leaves s (feed_auth s).0
feed_auth-Leaves s g = elim (feed_auth-cases s) [
  | inl same ↦ untouched same
  | inr (v, len, e) ↦ subst (Leaves s) (sym e) (answer_auth-Leaves s v len g)
]

feed_greeting-cases :
    (s : IngressState)
    → enabled s.auth ≡ true
    → ((feed_greeting s).0 ≡ s)
      ⊎ ((feed_greeting s).0 ≡ refuse_methods s)
      ⊎ ((feed_greeting s).0 ≡ choose_user_pass s)
unfolding feed_greeting
feed_greeting-cases s on = ground arith

feed_greeting-Leaves : (s : IngressState) → enabled s.auth ≡ true → Leaves s (feed_greeting s).0
unfolding refuse_methods choose_user_pass
feed_greeting-Leaves s on = elim (feed_greeting-cases s on) [
  | inl same ↦ untouched same
  | inr (inl e) ↦
      subst (Leaves s) (sym e) (answered (2 + at s.read_buffer 1) (refl, refl) refl refl refl)
  | inr (inr e) ↦
      subst (Leaves s) (sym e) (answered (2 + at s.read_buffer 1) (refl, refl) refl refl refl)
]

feed_request-cases :
    (ntop : InetNtop) (s : IngressState)
    → ((feed_request ntop s).0 ≡ s)
      ⊎ ((len : ℕ) × (parsed : TunnelRequest) × ((feed_request ntop s).0 ≡ opened s 1 parsed len))
unfolding feed_request
feed_request-cases ntop s = elim (Option-cases (socks5_request_length s.read_buffer)) [
  | inl short ↦ inl (ground arith)
  | inr (len, e) ↦ elim (Option-cases (parse_connect_request ntop (take len s.read_buffer))) [
    | inl bad ↦ inl (ground arith)
    | inr (parsed, good) ↦ elim (Bool-cases (len == 0 || ltb (length s.read_buffer) len)) [
      | inl early ↦ inl (ground arith)
      | inr whole ↦ inr (len, parsed, ground arith)
    ]
  ]
]

feed_request-Leaves :
    (ntop : InetNtop) (s : IngressState)
    → s.socks_greeting_done ≡ true
    → Leaves s (feed_request ntop s).0
unfolding opened
feed_request-Leaves ntop s g = elim (feed_request-cases ntop s) [
  | inl same ↦ untouched same
  | inr (len, parsed, e) ↦ subst (Leaves s) (sym e) (opened_now len (refl, refl) refl refl g)
]

feed_socks5-cases :
    (ntop : InetNtop) (s : IngressState)
    → ((feed_socks5 ntop s).0 ≡ s)
      ⊎ ((s.socks_greeting_done ≡ false) × ((feed_socks5 ntop s).0 ≡ (feed_auth s).0))
      ⊎ ((feed_socks5 ntop s).0 ≡ (feed_greeting s).0)
      ⊎ ((s.socks_greeting_done ≡ true) × ((feed_socks5 ntop s).0 ≡ (feed_request ntop s).0))
unfolding feed_socks5
feed_socks5-cases ntop s = ground arith

feed_socks5-Leaves :
    (ntop : InetNtop) (s : IngressState) → enabled s.auth ≡ true → Leaves s (feed_socks5 ntop s).0
feed_socks5-Leaves ntop s on = elim (feed_socks5-cases ntop s) [
  | inl same ↦ untouched same
  | inr (inl (g, e)) ↦ subst (Leaves s) (sym e) (feed_auth-Leaves s g)
  | inr (inr (inl e)) ↦ subst (Leaves s) (sym e) (feed_greeting-Leaves s on)
  | inr (inr (inr (g, e))) ↦ subst (Leaves s) (sym e) (feed_request-Leaves ntop s g)
]

pub dispatch-Leaves :
    (pton : InetPton) (ntop : InetNtop) (s : IngressState)
    → s.proto ≡ socks5
    → enabled s.auth ≡ true
    → Leaves s (dispatch pton ntop s).0
unfolding dispatch
dispatch-Leaves pton ntop s p on = elim (Bool-cases s.ready) [
  | inl open_already ↦ untouched (ground arith)
  | inr not_yet ↦
      subst (Leaves s) (ap (λ r. r.0) (sym (socks5_branch s p not_yet)))
        (feed_socks5-Leaves ntop s on)
]
  where
    socks5_branch :
        (s : IngressState)
        → s.proto ≡ socks5
        → s.ready ≡ false
        → dispatch pton ntop s ≡ feed_socks5 ntop s
    socks5_branch s p r = ground arith
