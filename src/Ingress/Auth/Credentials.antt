-- ===== src/Ingress/Auth/Credentials.antt =====
-- src/ingress/proxy_auth.cpp: the constant-time comparison, and which credentials are valid.
use tcpquic_proxy.Base.{
  ℕ, ◌≡◌, ◌≢◌, refl, ◌↔◌, All, ◌⊎◌, inl, inr, true, false, Bool, not, ◌||◌, ◌&&◌, List, [], ◌∷◌,
  arith, ◌==◌, holds_below, holds_at, Bytes, IsByte, IsBytes, Any, length, bit_or, bit_xor,
}
use mathlib.Core.Path.{ap₂}
use tcpquic_proxy.Base.Bits.{bit_or_eq_zero}
use tcpquic_proxy.Ingress.Auth.{User, difference, constant_time_equals, matched, validate}

abbrev same : Bool → Bool → Bool
same true b = b
same false b = not b

xor_table : holds_below 256 (λ a. holds_below 256 (λ b. same (bit_xor a b == 0) (a == b))) ≡ true
unfolding holds_below
xor_table = refl

xor_row : (a b : ℕ) → IsByte a → IsByte b → same (bit_xor a b == 0) (a == b) ≡ true
xor_row a b ha hb = holds_at _ 256 b hb (holds_at _ 256 a ha xor_table)

bit_xor_eq_zero : (a b : ℕ) → IsByte a → IsByte b → bit_xor a b ≡ 0 → a ≡ b
bit_xor_eq_zero a b ha hb e = ground (arith, xor_row a b ha hb)

bit_xor_self : (a : ℕ) → IsByte a → bit_xor a a ≡ 0
bit_xor_self a ha = ground (arith, xor_row a a ha ha)

difference_zero :
    (diff : ℕ) (left right : Bytes)
    → IsBytes left
    → IsBytes right
    → length left ≡ length right
    → difference diff left right ≡ 0
    → (diff ≡ 0) × (left ≡ right)
unfolding difference
difference_zero diff [] [] hl hr len e = (e, refl)
difference_zero diff [] (b ∷ right) hl hr len e = absurd (omega arith)
difference_zero diff (a ∷ left) [] hl hr len e = absurd (omega arith)
difference_zero diff (a ∷ left) (b ∷ right) hl hr len e =
    let (none_so_far, tails) =
      difference_zero (bit_or diff (bit_xor a b)) left right hl.1 hr.1 (omega arith) e in
    let (d, x) = bit_or_eq_zero diff (bit_xor a b) none_so_far in
    (d, ap₂ ◌∷◌ (bit_xor_eq_zero a b hl.0 hr.0 x) tails)

difference_self : (xs : Bytes) → IsBytes xs → difference 0 xs xs ≡ 0
unfolding difference
difference_self [] h = refl
difference_self (a ∷ xs) h = rw (bit_xor_self a h.0) (difference_self xs h.1)

-- On lists of bytes the comparison is true exactly if the lists are equal.
pub constant_time_equals_iff :
    (left right : Bytes)
    → IsBytes left
    → IsBytes right
    → (constant_time_equals left right ≡ true) ↔ (left ≡ right)
unfolding constant_time_equals
constant_time_equals_iff left right hl hr = (
  λ e. (difference_zero 0 left right hl hr (ground arith) (ground arith)).1,
  λ e. rw e (ground (arith, difference_self right hr)),
)

-- An entry with these credentials.
abbrev pub Holds : Bytes → Bytes → User → Type 0
Holds user pass u = (u.username ≡ user) × (u.password ≡ pass)

abbrev pub IsTable : List User → Type 0
IsTable = All (λ u. IsBytes u.username × IsBytes u.password)

hit : Bytes → Bytes → User → Bool
hit user pass u = constant_time_equals u.username user && constant_time_equals u.password pass

hit_iff :
    (user pass : Bytes) (u : User)
    → IsBytes user
    → IsBytes pass
    → IsBytes u.username × IsBytes u.password
    → (hit user pass u ≡ true) ↔ Holds user pass u
unfolding hit
hit_iff user pass u hu hp (tu, tp) =
    let same_user = constant_time_equals_iff u.username user tu hu in
    let same_pass = constant_time_equals_iff u.password pass tp hp in
    (
      λ e. (same_user.0 (ground arith), same_pass.0 (ground arith)),
      λ h. rw (same_user.1 h.0, same_pass.1 h.1) refl,
    )

or_true : (a b : Bool) → (a || b) ≡ true → (a ≡ true) ⊎ (b ≡ true)
or_true true b e = inl refl
or_true false b e = inr e

true-or : (a b : Bool) → a ≡ true → (a || b) ≡ true
true-or a b e = rw e refl

or-true : (a b : Bool) → b ≡ true → (a || b) ≡ true
or-true a b e = ground arith

matched_to :
    (acc : Bool) (user pass : Bytes) (users : List User)
    → IsBytes user
    → IsBytes pass
    → IsTable users
    → matched acc user pass users ≡ true
    → (acc ≡ true) ⊎ Any (Holds user pass) users
unfolding matched hit
matched_to acc user pass [] hu hp t e = inl e
matched_to acc user pass (u ∷ users) hu hp (tu, t) e =
    elim (matched_to (acc || hit user pass u) user pass users hu hp t e) [
      | inr later ↦ inr (inr later)
      | inl now ↦ elim (or_true acc (hit user pass u) now) [
        | inl before ↦ inl before
        | inr here ↦ inr (inl ((hit_iff user pass u hu hp tu).0 here))
      ]
    ]

matched_from :
    (acc : Bool) (user pass : Bytes) (users : List User)
    → IsBytes user
    → IsBytes pass
    → IsTable users
    → (acc ≡ true) ⊎ Any (Holds user pass) users
    → matched acc user pass users ≡ true
unfolding matched hit
matched_from acc user pass [] hu hp t (inl e) = e
matched_from acc user pass [] hu hp t (inr h) = absurd h
matched_from acc user pass (u ∷ users) hu hp (tu, t) (inl e) =
    matched_from (acc || hit user pass u) user pass users hu hp t
      (inl (true-or acc (hit user pass u) e))
matched_from acc user pass (u ∷ users) hu hp (tu, t) (inr (inl h)) =
    matched_from (acc || hit user pass u) user pass users hu hp t
      (inl (or-true acc (hit user pass u) ((hit_iff user pass u hu hp tu).1 h)))
matched_from acc user pass (u ∷ users) hu hp (tu, t) (inr (inr h)) =
    matched_from (acc || hit user pass u) user pass users hu hp t (inr h)

-- With a non-empty table, where the table and the credentials are lists of bytes, credentials are
-- valid exactly if neither part is empty and an entry of the table has both.
pub validate_iff :
    (users : List User) (user pass : Bytes)
    → users ≢ []
    → IsTable users
    → IsBytes user
    → IsBytes pass
    → (validate users user pass ≡ true) ↔ ((user ≢ []) × (pass ≢ []) × Any (Holds user pass) users)
unfolding validate
validate_iff users user pass some_user t hu hp = (
  λ e. (
    λ nil. ground arith,
    λ nil. ground arith,
    elim (matched_to false user pass users hu hp t (ground arith)) [ inl no_hit ↦ cc | inr h ↦ h ],
  ),
  λ (u, p, h). ground (arith, some_user, u, p, matched_from false user pass users hu hp t (inr h)),
)
