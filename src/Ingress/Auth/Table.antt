-- ===== src/Ingress/Auth/Table.antt =====
-- src/ingress/proxy_auth.cpp: what an accepted configuration of proxy users gives.
use tcpquic_proxy.Base.{
  ◌≡◌, ◌≢◌, IsBytes, ◌≤◌, ◌↔◌, refl, sym, ◌∙◌, subst, inl, inr, true, false, List, [], ◌∷◌, arith,
  ==_iff, Bytes, Any, length, none,
}
use tcpquic_proxy.Base.Text.{bytes_eq}
use tcpquic_proxy.Ingress.Auth.{User, max_users, validate, validate_users, check_users, has_name}
use tcpquic_proxy.Ingress.Auth.Credentials.{Holds, IsTable, validate_iff}

bytes_eq_refl : (xs : Bytes) → bytes_eq xs xs ≡ true
unfolding bytes_eq
bytes_eq_refl [] = refl
bytes_eq_refl (x ∷ xs) = rw ((==_iff x x).1 refl) (bytes_eq_refl xs)

-- What a user that is not refused is like.
record IsAccepted (seen : List Bytes) (u : User) (users : List User) : Type 0 where
  named : u.username ≢ []
  protected_by : u.password ≢ []
  is_new : has_name seen u.username ≡ false
  later : check_users (u.username ∷ seen) users ≡ none

check-IsAccepted :
    (seen : List Bytes) (u : User) (users : List User)
    → check_users seen (u ∷ users) ≡ none
    → IsAccepted seen u users
unfolding check_users
check-IsAccepted seen u users e = record {
  named = λ nil. ground arith;
  protected_by = λ nil. ground arith;
  is_new = ground arith;
  later = ground arith;
}

-- An entry of an accepted rest is not empty and has no name that was seen.
check-entry :
    (seen : List Bytes) (users : List User) (user pass : Bytes)
    → check_users seen users ≡ none
    → Any (Holds user pass) users
    → (user ≢ []) × (pass ≢ []) × (has_name seen user ≡ false)
unfolding has_name
check-entry seen [] user pass e h = absurd h
check-entry seen (u ∷ users) user pass e (inl (same, word)) =
    let a = check-IsAccepted seen u users e in
    (λ nil. a.named (same ∙ nil), λ nil. a.protected_by (word ∙ nil), rw (← same) a.is_new)
check-entry seen (u ∷ users) user pass e (inr h) =
    let a = check-IsAccepted seen u users e in
    let (named, worded, is_new) = check-entry (u.username ∷ seen) users user pass a.later h in
    (named, worded, ground arith)

-- A name that was seen is in no accepted rest.
seen-gone :
    (seen : List Bytes) (name : Bytes) (users : List User) (pass : Bytes)
    → check_users (name ∷ seen) users ≡ none
    → ¬ Any (Holds name pass) users
unfolding has_name
seen-gone seen name users pass e h =
    let (named, worded, is_new) = check-entry (name ∷ seen) users name pass e h in
    ground (arith, bytes_eq_refl name)

one_password :
    (seen : List Bytes) (users : List User) (user pass other : Bytes)
    → check_users seen users ≡ none
    → Any (Holds user pass) users
    → Any (Holds user other) users
    → pass ≡ other
one_password seen [] user pass other e h k = absurd h
one_password seen (u ∷ users) user pass other e (inl h) (inl k) = sym h.1 ∙ k.1
one_password seen (u ∷ users) user pass other e (inl h) (inr k) =
    let a = check-IsAccepted seen u users e in
    absurd (
      seen-gone seen u.username users other a.later
        (subst (λ n. Any (Holds n other) users) (sym h.0) k))
one_password seen (u ∷ users) user pass other e (inr h) (inl k) =
    let a = check-IsAccepted seen u users e in
    absurd (
      seen-gone seen u.username users pass a.later
        (subst (λ n. Any (Holds n pass) users) (sym k.0) h))
one_password seen (u ∷ users) user pass other e (inr h) (inr k) =
    let a = check-IsAccepted seen u users e in
    one_password (u.username ∷ seen) users user pass other a.later h k

accepted-checked :
    (users : List User)
    → validate_users users ≡ none
    → (length users ≤ max_users) × (check_users [] users ≡ none)
unfolding validate_users
accepted-checked users e = (ground arith, ground arith)

-- Where a non-empty list of users that consist of bytes is accepted as the configuration, it has 64
-- users at most, credentials are valid exactly if they are those of a configured user, and a name
-- has one valid password at most.
pub validate_users-validate :
    (users : List User)
    → users ≢ []
    → IsTable users
    → validate_users users ≡ none
    → (length users ≤ max_users)
      × ((user pass : Bytes)
          → IsBytes user
          → IsBytes pass
          → (validate users user pass ≡ true) ↔ Any (Holds user pass) users)
      × ((user pass other : Bytes)
          → IsBytes user
          → IsBytes pass
          → IsBytes other
          → validate users user pass ≡ true
          → validate users user other ≡ true
          → pass ≡ other)
validate_users-validate users some_user table e =
    let (few, checked) = accepted-checked users e in
    (
      few,
      λ user pass hu hp.
          let (to, from) = validate_iff users user pass some_user table hu hp in
          (
            λ valid. (to valid).2,
            λ h.
                let (named, worded, is_new) = check-entry [] users user pass checked h in
                from (named, worded, h),
          ),
      λ user pass other hu hp ho valid valid_other.
          let first = (validate_iff users user pass some_user table hu hp).0 valid in
          let second = (validate_iff users user other some_user table hu ho).0 valid_other in
          one_password [] users user pass other checked first.2 second.2,
    )
