-- ===== src/Ingress/State/Session.antt =====
-- Whole connections of src/ingress/client_ingress_state.cpp: what a client can do, and the SOCKS5
-- gate.
use mathlib.Core.List.{append-nil, append_assoc}
use mathlib.Core.Bool.{false≢true}
use tcpquic_proxy.Base.{
  ℕ, ◌≡◌, refl, ap, sym, ◌∙◌, subst, true, List, [], ◌++◌, Bytes, take, drop, take-append-drop,
}
use tcpquic_proxy.Acl.Cidr.{InetPton}
use tcpquic_proxy.Ingress.Auth.{User, enabled, validate}
use tcpquic_proxy.Ingress.Socks5.{InetNtop}
use tcpquic_proxy.Ingress.State.{
  socks5, IngressState, new_state, feed, mark_write_complete, take_buffered_data,
}
use tcpquic_proxy.Ingress.State.Gate.{
  LoggedIn, logged_in, LoggedIn-append, Leaves, untouched, answered, greeted_now, opened_now,
  dispatch-Leaves,
}

-- What a client can do to a connection: send bytes, take what was written, and have the buffer
-- taken over. The list is all that the client has sent.
pub data Run (pton : InetPton) (ntop : InetNtop) (users : List User)
    : Bytes → IngressState → Type 0 where
  start : Run pton ntop users [] (new_state socks5 users)
  sent :
      {received : Bytes} {s : IngressState} (bs : Bytes)
      → Run pton ntop users received s
      → Run pton ntop users (received ++ bs) (feed pton ntop s bs).0
  wrote :
      {received : Bytes} {s : IngressState} (n : ℕ)
      → Run pton ntop users received s
      → Run pton ntop users received (mark_write_complete s n)
  taken :
      {received : Bytes} {s : IngressState}
      → Run pton ntop users received s
      → Run pton ntop users received (take_buffered_data s).0

record Inv (users : List User) (received : Bytes) (s : IngressState) : Type 0 where
  is_socks5 : s.proto ≡ socks5
  same_users : s.auth ≡ users
  consumed : Bytes
  split : received ≡ consumed ++ s.read_buffer
  greeted : s.socks_greeting_done ≡ true → LoggedIn users received
  opened : s.ready ≡ true → s.socks_greeting_done ≡ true

start-Inv : (users : List User) → Inv users [] (new_state socks5 users)
unfolding new_state
start-Inv users = record {
  is_socks5 = refl;
  same_users = refl;
  consumed = [];
  split = refl;
  greeted = λ e. cc;
  opened = λ e. cc;
}

-- Bytes that arrive stand in the buffer.
arrive-Inv :
    (users : List User) (received bs : Bytes) (s : IngressState)
    → Inv users received s
    → Inv users (received ++ bs) (record s { read_buffer = s.read_buffer ++ bs })
arrive-Inv users received bs s v = record {
  is_socks5 = v.is_socks5;
  same_users = v.same_users;
  consumed = v.consumed;
  split = ap (λ r. r ++ bs) v.split ∙ append_assoc v.consumed s.read_buffer bs;
  greeted = λ e. LoggedIn-append received bs (v.greeted e);
  opened = v.opened;
}

-- Dropped bytes are consumed.
split_drop :
    (users : List User) (received : Bytes) (s t : IngressState) (v : Inv users received s) (n : ℕ)
    → t.read_buffer ≡ drop n s.read_buffer
    → received ≡ (v.consumed ++ take n s.read_buffer) ++ t.read_buffer
split_drop users received s t v n e =
    v.split
    ∙ ap (λ b. v.consumed ++ b) (sym (take-append-drop n s.read_buffer))
    ∙ sym (append_assoc v.consumed (take n s.read_buffer) (drop n s.read_buffer))
    ∙ ap (λ b. (v.consumed ++ take n s.read_buffer) ++ b) (sym e)

-- Credentials in the buffer were received.
LoggedIn-buffer :
    (users : List User) (received : Bytes) (s : IngressState) (v : Inv users received s)
    → LoggedIn s.auth s.read_buffer
    → LoggedIn users received
LoggedIn-buffer users received s v (logged_in user pass before after valid e) =
    logged_in user pass (v.consumed ++ before) after
      (subst (λ a. validate a user pass ≡ true) v.same_users valid)
      (v.split ∙ ap (λ b. v.consumed ++ b) e ∙ sym (append_assoc v.consumed before _))

Leaves-Inv :
    (users : List User) (received : Bytes) (s t : IngressState)
    → Leaves s t
    → Inv users received s
    → Inv users received t
Leaves-Inv users received s t (untouched e) v = subst (Inv users received) (sym e) v
Leaves-Inv users received s t (answered n (p, a) buf g r) v = record {
  is_socks5 = p ∙ v.is_socks5;
  same_users = a ∙ v.same_users;
  consumed = v.consumed ++ take n s.read_buffer;
  split = split_drop users received s t v n buf;
  greeted = λ e. v.greeted (sym g ∙ e);
  opened = λ e. g ∙ v.opened (sym r ∙ e);
}
Leaves-Inv users received s t (greeted_now n (p, a) buf g r new) v = record {
  is_socks5 = p ∙ v.is_socks5;
  same_users = a ∙ v.same_users;
  consumed = v.consumed ++ take n s.read_buffer;
  split = split_drop users received s t v n buf;
  greeted = λ e. LoggedIn-buffer users received s v (g e);
  opened = λ e. absurd (false≢true (sym new ∙ v.opened (sym r ∙ e)));
}
Leaves-Inv users received s t (opened_now n (p, a) buf g done) v = record {
  is_socks5 = p ∙ v.is_socks5;
  same_users = a ∙ v.same_users;
  consumed = v.consumed ++ take n s.read_buffer;
  split = split_drop users received s t v n buf;
  greeted = λ e. v.greeted done;
  opened = λ e. g ∙ done;
}

mark-Inv :
    (users : List User) (received : Bytes) (s : IngressState) (n : ℕ)
    → Inv users received s
    → Inv users received (mark_write_complete s n)
unfolding mark_write_complete
mark-Inv users received s n v = record {
  is_socks5 = v.is_socks5;
  same_users = v.same_users;
  consumed = v.consumed;
  split = v.split;
  greeted = v.greeted;
  opened = v.opened;
}

take-Inv :
    (users : List User) (received : Bytes) (s : IngressState)
    → Inv users received s
    → Inv users received (take_buffered_data s).0
unfolding take_buffered_data
take-Inv users received s v = record {
  is_socks5 = v.is_socks5;
  same_users = v.same_users;
  consumed = received;
  split = sym (append-nil received);
  greeted = v.greeted;
  opened = v.opened;
}

feed-Inv :
    (pton : InetPton) (ntop : InetNtop) (users : List User) (received bs : Bytes) (s : IngressState)
    → enabled users ≡ true
    → Inv users received s
    → Inv users (received ++ bs) (feed pton ntop s bs).0
unfolding feed
feed-Inv pton ntop users received bs s on v =
    let s' : IngressState = record s { read_buffer = s.read_buffer ++ bs } in
    Leaves-Inv users (received ++ bs) s' _
      (dispatch-Leaves pton ntop s' v.is_socks5 (ap enabled v.same_users ∙ on))
      (arrive-Inv users received bs s v)

Run-Inv :
    {pton : InetPton} {ntop : InetNtop} {users : List User} {received : Bytes} {s : IngressState}
    → enabled users ≡ true
    → Run pton ntop users received s
    → Inv users received s
Run-Inv {users} on start = start-Inv users
Run-Inv {pton} {ntop} {users} on (sent {received} {s} bs r) =
    feed-Inv pton ntop users received bs s on (Run-Inv on r)
Run-Inv {users} on (wrote {received} {s} n r) = mark-Inv users received s n (Run-Inv on r)
Run-Inv {users} on (taken {received} {s} r) = take-Inv users received s (Run-Inv on r)

-- With users configured, however the client cuts its bytes, a SOCKS5 connection is ready to open a
-- tunnel only if the bytes that it has sent hold a sub-negotiation message with credentials that
-- Validate accepts.
pub ready-LoggedIn :
    {pton : InetPton} {ntop : InetNtop} {users : List User} {received : Bytes} {s : IngressState}
    → enabled users ≡ true
    → Run pton ntop users received s
    → s.ready ≡ true
    → LoggedIn users received
ready-LoggedIn on r e = let v = Run-Inv on r in v.greeted (v.opened e)
