-- ===== src/Tunnel/Sends/Keys.antt =====
-- src/tunnel/stream_lifetime.cpp: the life of one key of the registry of send completions.
use tcpquic_proxy.Base.{ℕ, suc, ◌≡◌, ◌≢◌, refl, ap, subst, ◌∙◌, true, Option, none, some, ==_iff}
use tcpquic_proxy.Tunnel.Sends.{Retention}
use tcpquic_proxy.Tunnel.Sends.System.{owned_by}

-- The stream whose envelope the key is, its stream among the claimed, the entry in the registry, in
-- a thread's hand, and about to be inserted, the entry inserted last, and how often an entry of
-- the key was inserted and cleaned up.
pub data KeyState
    : Option ℕ
      → Option ℕ
      → Option Retention
      → Option Retention
      → Option Retention
      → Option Retention
      → ℕ
      → ℕ
      → Type 0 where
  is_unused : (issued : Option Retention) (n : ℕ) → KeyState none none none none none issued n n
  is_starting :
      (e : Retention) (issued : Option Retention) (n : ℕ)
      → KeyState (some e.owner) none none none (some e) issued n n
  is_registered :
      (e : Retention) (n : ℕ) → KeyState (some e.owner) none (some e) none none (some e) (suc n) n
  is_canceled :
      (e : Retention) (n : ℕ) → KeyState (some e.owner) none none (some e) none (some e) (suc n) n
  is_claimed :
      (e : Retention) (n : ℕ)
      → KeyState (some e.owner) (some e.owner) none (some e) none (some e) (suc n) n
  is_cleaned_canceled :
      (e : Retention) (n : ℕ) → KeyState (some e.owner) none none none none (some e) n n
  is_cleaned_claimed :
      (e : Retention) (n : ℕ) → KeyState (some e.owner) (some e.owner) none none none (some e) n n

-- The steps of a thread on the key.
pub allocated :
    (env cl : Option ℕ) (snd hand st iss : Option Retention) (n c : ℕ) (e : Retention)
    → KeyState env cl snd hand st iss n c
    → env ≡ none
    → KeyState (some e.owner) cl snd hand (some e) iss n c
allocated _ _ _ _ _ _ _ _ e (is_unused iss n) h = is_starting e iss n
allocated _ _ _ _ _ _ _ _ e (is_starting f iss n) h = cc
allocated _ _ _ _ _ _ _ _ e (is_registered f n) h = cc
allocated _ _ _ _ _ _ _ _ e (is_canceled f n) h = cc
allocated _ _ _ _ _ _ _ _ e (is_claimed f n) h = cc
allocated _ _ _ _ _ _ _ _ e (is_cleaned_canceled f n) h = cc
allocated _ _ _ _ _ _ _ _ e (is_cleaned_claimed f n) h = cc

pub inserted :
    (env cl : Option ℕ) (snd hand st iss : Option Retention) (n c : ℕ) (e : Retention)
    → KeyState env cl snd hand st iss n c
    → st ≡ some e
    → (snd ≡ none) × KeyState env cl (some e) hand none (some e) (suc n) c
inserted _ _ _ _ _ _ _ _ e (is_unused iss n) h = cc
inserted _ _ _ _ _ _ _ _ e (is_starting f iss n) h =
    let same : f ≡ e = cc in
    (
      refl,
      subst (λ g. KeyState (some f.owner) none (some g) none none (some g) (suc n) n) same
          (is_registered f n),
    )
inserted _ _ _ _ _ _ _ _ e (is_registered f n) h = cc
inserted _ _ _ _ _ _ _ _ e (is_canceled f n) h = cc
inserted _ _ _ _ _ _ _ _ e (is_claimed f n) h = cc
inserted _ _ _ _ _ _ _ _ e (is_cleaned_canceled f n) h = cc
inserted _ _ _ _ _ _ _ _ e (is_cleaned_claimed f n) h = cc

pub canceled :
    (env cl : Option ℕ) (snd hand st iss : Option Retention) (n c : ℕ) (e : Retention)
    → KeyState env cl snd hand st iss n c
    → snd ≡ some e
    → KeyState env cl none (some e) st iss n c
canceled _ _ _ _ _ _ _ _ e (is_unused iss n) h = cc
canceled _ _ _ _ _ _ _ _ e (is_starting f iss n) h = cc
canceled _ _ _ _ _ _ _ _ e (is_registered f n) h =
    let same : f ≡ e = cc in
    subst (λ g. KeyState (some f.owner) none none (some g) none (some f) (suc n) n) same
      (is_canceled f n)
canceled _ _ _ _ _ _ _ _ e (is_canceled f n) h = cc
canceled _ _ _ _ _ _ _ _ e (is_claimed f n) h = cc
canceled _ _ _ _ _ _ _ _ e (is_cleaned_canceled f n) h = cc
canceled _ _ _ _ _ _ _ _ e (is_cleaned_claimed f n) h = cc

pub claimed :
    (env cl : Option ℕ) (snd hand st iss : Option Retention) (n c : ℕ) (e : Retention) (stream : ℕ)
    → KeyState env cl snd hand st iss n c
    → snd ≡ some e
    → e.owner ≡ stream
    → KeyState env (some stream) none (some e) st iss n c
claimed _ _ _ _ _ _ _ _ e stream (is_unused iss n) h mine = cc
claimed _ _ _ _ _ _ _ _ e stream (is_starting f iss n) h mine = cc
claimed _ _ _ _ _ _ _ _ e stream (is_registered f n) h mine =
    let same : f ≡ e = cc in
    let owner : f.owner ≡ stream = ap (λ g. g.owner) same ∙ mine in
    subst (λ g. KeyState (some f.owner) (some stream) none (some g) none (some f) (suc n) n) same
      (subst (λ i. KeyState (some f.owner) (some i) none (some f) none (some f) (suc n) n) owner
        (is_claimed f n))
claimed _ _ _ _ _ _ _ _ e stream (is_canceled f n) h mine = cc
claimed _ _ _ _ _ _ _ _ e stream (is_claimed f n) h mine = cc
claimed _ _ _ _ _ _ _ _ e stream (is_cleaned_canceled f n) h mine = cc
claimed _ _ _ _ _ _ _ _ e stream (is_cleaned_claimed f n) h mine = cc

pub cleaned :
    (env cl : Option ℕ) (snd hand st iss : Option Retention) (n c : ℕ) (e : Retention)
    → KeyState env cl snd hand st iss n c
    → hand ≡ some e
    → KeyState env cl snd none st iss n (suc c)
cleaned _ _ _ _ _ _ _ _ e (is_unused iss n) h = cc
cleaned _ _ _ _ _ _ _ _ e (is_starting f iss n) h = cc
cleaned _ _ _ _ _ _ _ _ e (is_registered f n) h = cc
cleaned _ _ _ _ _ _ _ _ e (is_canceled f n) h = is_cleaned_canceled f (suc n)
cleaned _ _ _ _ _ _ _ _ e (is_claimed f n) h = is_cleaned_claimed f (suc n)
cleaned _ _ _ _ _ _ _ _ e (is_cleaned_canceled f n) h = cc
cleaned _ _ _ _ _ _ _ _ e (is_cleaned_claimed f n) h = cc

pub forgotten :
    (env cl : Option ℕ) (snd hand st iss : Option Retention) (n c : ℕ) (stream : ℕ)
    → KeyState env cl snd hand st iss n c
    → ((e : Retention) → snd ≡ some e → e.owner ≢ stream)
    → ((e : Retention) → st ≡ some e → e.owner ≢ stream)
    → ((e : Retention) → hand ≡ some e → e.owner ≢ stream)
    → owned_by stream env ≡ true
    → KeyState none none snd hand st iss n c
forgotten _ _ _ _ _ _ _ _ stream (is_unused iss n) a b d mine = cc
forgotten _ _ _ _ _ _ _ _ stream (is_starting f iss n) a b d mine =
    absurd (b f refl ((==_iff f.owner stream).0 mine))
forgotten _ _ _ _ _ _ _ _ stream (is_registered f n) a b d mine =
    absurd (a f refl ((==_iff f.owner stream).0 mine))
forgotten _ _ _ _ _ _ _ _ stream (is_canceled f n) a b d mine =
    absurd (d f refl ((==_iff f.owner stream).0 mine))
forgotten _ _ _ _ _ _ _ _ stream (is_claimed f n) a b d mine =
    absurd (d f refl ((==_iff f.owner stream).0 mine))
forgotten _ _ _ _ _ _ _ _ stream (is_cleaned_canceled f n) a b d mine = is_unused (some f) n
forgotten _ _ _ _ _ _ _ _ stream (is_cleaned_claimed f n) a b d mine = is_unused (some f) n

pub claimed-gone :
    (env cl : Option ℕ) (snd hand st iss : Option Retention) (n c stream : ℕ)
    → KeyState env cl snd hand st iss n c
    → cl ≡ some stream
    → snd ≡ none
claimed-gone _ _ _ _ _ _ _ _ stream (is_unused iss n) h = refl
claimed-gone _ _ _ _ _ _ _ _ stream (is_starting f iss n) h = refl
claimed-gone _ _ _ _ _ _ _ _ stream (is_registered f n) h = cc
claimed-gone _ _ _ _ _ _ _ _ stream (is_canceled f n) h = refl
claimed-gone _ _ _ _ _ _ _ _ stream (is_claimed f n) h = refl
claimed-gone _ _ _ _ _ _ _ _ stream (is_cleaned_canceled f n) h = refl
claimed-gone _ _ _ _ _ _ _ _ stream (is_cleaned_claimed f n) h = refl
