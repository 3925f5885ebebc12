-- ===== src/Base/Decimal.antt =====
-- std::to_string of an unsigned number: its decimal digits.
use Prim.Native.Nat.{ℕ, zero, suc, ◌+◌, ◌/◌, ◌%◌, ◌^◌, ◌<◌, ◌≤◌}
use mathlib.Core.Path.{◌≡◌, ◌∙◌, sym, ap}
use mathlib.Core.Logic.{◌≢◌, inl, inr}
use mathlib.Core.List.{List, [], ◌∷◌}
use native.Mathlib.Nat.{pow-suc}
use native.Mathlib.Omega.{arith}
use tcpquic_proxy.Base.Tests.{◌==◌, ==_iff, Bool-cases, if◌then◌else◌}
use tcpquic_proxy.Base.Lists.{All}

-- The digits of n in front of `out`, with fuel for as many digits.
unfoldable pub put_digits : ℕ → ℕ → List ℕ → List ℕ
put_digits zero n out = out
put_digits (suc fuel) n out =
    let more = put_digits fuel (n / 10) ((b'0' + n % 10) ∷ out) in if n == 0 then out else more

-- A uint64_t has 20 digits at most.
unfoldable pub to_string : ℕ → List ℕ
to_string n = if n == 0 then b'0' ∷ [] else put_digits 20 n []

-- A reader of digits: `step n c` continues with the next digit, and the loop ends in `done n`.
-- On a number in its range it reads back what was put.
pub read-put :
    {A : Type 0} (loop : ℕ → List ℕ → A) (limit : ℕ)
    → ((n : ℕ) (out : List ℕ) → n ≤ limit → loop (n / 10) ((b'0' + n % 10) ∷ out) ≡ loop n out)
    → (fuel n : ℕ) (out : List ℕ) → n < 10 ^ fuel
    → n ≤ limit
    → loop 0 (put_digits fuel n out) ≡ loop n out
unfolding put_digits
read-put loop limit step zero n out small low =
    let nothing : n ≡ 0 = omega arith in ap (λ m. loop m out) (sym nothing)
read-put loop limit step (suc fuel) n out small low =
    let wide = pow-suc 10 fuel in
    let on =
      read-put loop limit step fuel (n / 10) ((b'0' + n % 10) ∷ out) (omega (arith, wide))
        (omega arith) in
    elim (Bool-cases (n == 0)) [
      | inl e ↦ rw e (ap (λ m. loop m out) (sym ((==_iff n 0).0 e)))
      | inr e ↦ rw e (on ∙ step n out low)
    ]

pub read-to_string :
    {A : Type 0} (loop : ℕ → List ℕ → A) (limit : ℕ)
    → ((n : ℕ) (out : List ℕ) → n ≤ limit → loop (n / 10) ((b'0' + n % 10) ∷ out) ≡ loop n out)
    → (n : ℕ) → n < 10 ^ 20
    → n ≤ limit
    → loop 0 (to_string n) ≡ loop n []
unfolding to_string
read-to_string loop limit step n small low = elim (Bool-cases (n == 0)) [
  | inl e ↦ rw e (step 0 [] (omega arith) ∙ ap (λ m. loop m []) (sym ((==_iff n 0).0 e)))
  | inr e ↦ rw e (read-put loop limit step 20 n [] small low)
]

pub put_digits-All :
    (P : ℕ → Type 0) (fuel n : ℕ) (out : List ℕ)
    → ((d : ℕ) → d < 10 → P (b'0' + d))
    → All P out
    → All P (put_digits fuel n out)
unfolding put_digits
put_digits-All P zero n out f h = h
put_digits-All P (suc fuel) n out f h = elim (Bool-cases (n == 0)) [
  | inl e ↦ rw e h
  | inr e ↦
      rw e (put_digits-All P fuel (n / 10) ((b'0' + n % 10) ∷ out) f (f (n % 10) (omega arith), h))
]

pub to_string-All :
    (P : ℕ → Type 0) (n : ℕ) → ((d : ℕ) → d < 10 → P (b'0' + d)) → All P (to_string n)
unfolding to_string
to_string-All P n f = elim (Bool-cases (n == 0)) [
  | inl e ↦ rw e (f 0 (omega arith), tt)
  | inr e ↦ rw e (put_digits-All P 20 n [] f tt)
]

put_digits-ne-nil : (fuel n : ℕ) (out : List ℕ) → out ≢ [] → put_digits fuel n out ≢ []
unfolding put_digits
put_digits-ne-nil zero n out h = h
put_digits-ne-nil (suc fuel) n out h =
    let on = put_digits-ne-nil fuel (n / 10) ((b'0' + n % 10) ∷ out) (λ e. cc) in
    elim (Bool-cases (n == 0)) [ inl e ↦ rw e h | inr e ↦ rw e on ]

pub to_string-ne-nil : (n : ℕ) → to_string n ≢ []
unfolding to_string put_digits
to_string-ne-nil n = elim (Bool-cases (n == 0)) [
  | inl e ↦ rw e (λ k. cc)
  | inr e ↦ rw e (put_digits-ne-nil 19 (n / 10) ((b'0' + n % 10) ∷ []) (λ k. cc))
]
