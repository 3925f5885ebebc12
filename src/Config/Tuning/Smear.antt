-- ===== src/Config/Tuning/Smear.antt =====
-- src/config/tuning.cpp: the assignments that copy the highest bit down.
use tcpquic_proxy.Base.{
  ℕ, zero, suc, ◌+◌, ◌*◌, ◌/◌, ◌%◌, ◌^◌, ◌≤◌, ◌<◌, ◌≡◌, ◌∙◌, sym, refl, ap, bit_or, arith, subst,
}
use native.Mathlib.Nat.{div-div-eq-div-mul, pow-suc, mul_comm, div-one, one-le-pow}
use tcpquic_proxy.Base.Bits.{bit_or_digit}
use tcpquic_proxy.Config.Tuning.{smear}

or_half : (x y : ℕ) → bit_or x y / 2 ≡ bit_or (x / 2) (y / 2)
or_half x y = omega (arith, bit_or_digit x y)

pow-suc' : (m : ℕ) → 2 ^ suc m ≡ 2 * 2 ^ m
pow-suc' m = omega (arith, pow-suc 2 m)

halves : (m x : ℕ) → x / 2 / 2 ^ m ≡ x / 2 ^ suc m
halves m x = div-div-eq-div-mul x 2 (2 ^ m) ∙ ap (◌/◌ x) (sym (pow-suc' m))

or-div : (m x y : ℕ) → bit_or x y / 2 ^ m ≡ bit_or (x / 2 ^ m) (y / 2 ^ m)
or-div zero x y =
    div-one (bit_or x y)
    ∙ ap (bit_or x) (sym (div-one y))
    ∙ ap (λ z. bit_or z (y / 2 ^ 0)) (sym (div-one x))
or-div (suc m) x y =
    ap (◌/◌ (bit_or x y)) (pow-suc' m)
    ∙ sym (div-div-eq-div-mul (bit_or x y) 2 (2 ^ m))
    ∙ ap (λ z. z / 2 ^ m) (or_half x y)
    ∙ or-div m (x / 2) (y / 2)
    ∙ ap (λ z. bit_or z (y / 2 / 2 ^ m)) (halves m x)
    ∙ ap (bit_or (x / 2 ^ suc m)) (halves m y)

abbrev spread : ℕ → ℕ → ℕ
spread m x = bit_or x (x / 2 ^ m)

div-swap : (a b x : ℕ) → x / a / b ≡ x / b / a
div-swap a b x =
    let e : a * b ≡ b * a = mul_comm a b in
    div-div-eq-div-mul x a b ∙ ap (◌/◌ x) e ∙ sym (div-div-eq-div-mul x b a)

spread-div : (m n x : ℕ) → spread m x / 2 ^ n ≡ spread m (x / 2 ^ n)
spread-div m n x = or-div n x (x / 2 ^ m) ∙ ap (bit_or (x / 2 ^ n)) (div-swap (2 ^ m) (2 ^ n) x)

-- Of the digits in base 2 ^ m, the lowest bits of the first w are 0.
abbrev Clear : ℕ → ℕ → ℕ → Type 0
Clear m zero x = Unit
Clear m (suc w) x = (x % 2 ≡ 0) × Clear m w (x / 2 ^ m)

abbrev twice : ℕ → ℕ
twice zero = zero
twice (suc w) = suc (suc (twice w))

spread-Clear : (m n w x : ℕ) → 2 ^ m * 2 ^ m ≡ 2 ^ n → Clear n w (spread m x) → Clear m (twice w) x
spread-Clear m n zero x e h = tt
spread-Clear m n (suc w) x e (h, hs) =
    let low = bit_or_digit x (x / 2 ^ m) in
    let far : spread m x / 2 ^ n ≡ spread m (x / 2 ^ m / 2 ^ m) =
      spread-div m n x
      ∙ ap (spread m) (ap (◌/◌ x) (sym e) ∙ sym (div-div-eq-div-mul x (2 ^ m) (2 ^ m))) in
    (
      omega arith,
      (omega arith, spread-Clear m n w (x / 2 ^ m / 2 ^ m) e (subst (Clear n w) far hs)),
    )

Clear-zero : (w x : ℕ) → x < 2 ^ w → Clear 1 w x → x ≡ 0
Clear-zero zero x small h = omega (arith, small)
Clear-zero (suc w) x small (h, hs) =
    let below = Clear-zero w (x / 2) (omega (arith, pow-suc' w)) hs in omega arith

smear_clear : (x : ℕ) → x < 2 ^ 32 → smear x % 2 ≡ 0 → x ≡ 0
unfolding smear
smear_clear x small e =
    let x_1 = spread 1 x in
    let x_2 = spread 2 x_1 in
    let x_3 = spread 4 x_2 in
    let x_4 = spread 8 x_3 in
    let h_4 = spread-Clear 16 32 1 x_4 refl (e, tt) in
    let h_3 = spread-Clear 8 16 2 x_3 refl h_4 in
    let h_2 = spread-Clear 4 8 4 x_2 refl h_3 in
    let h_1 = spread-Clear 2 4 8 x_1 refl h_2 in
    Clear-zero 32 x small (spread-Clear 1 2 16 x refl h_1)

spread_half : (m x : ℕ) → spread m x / 2 ≡ spread m (x / 2)
spread_half m x = or_half x (x / 2 ^ m) ∙ ap (bit_or (x / 2)) (div-swap (2 ^ m) 2 x)

smear_half : (x : ℕ) → smear x / 2 ≡ smear (x / 2)
unfolding smear
smear_half x =
    let x_1 = spread 1 x in
    let x_2 = spread 2 x_1 in
    let x_3 = spread 4 x_2 in
    let x_4 = spread 8 x_3 in
    let e_1 = spread_half 1 x in
    let e_2 = spread_half 2 x_1 ∙ ap (spread 2) e_1 in
    let e_3 = spread_half 4 x_2 ∙ ap (spread 4) e_2 in
    let e_4 = spread_half 8 x_3 ∙ ap (spread 8) e_3 in spread_half 16 x_4 ∙ ap (spread 16) e_4

smear_zero : smear 0 ≡ 0
unfolding smear
smear_zero = refl

-- From the number of bits of x: all of them are set.
pub smear_bits : (k x : ℕ) → 2 ^ k ≤ x → x < 2 ^ suc k → x < 2 ^ 32 → smear x + 1 ≡ 2 ^ suc k
smear_bits zero x above below small =
    let one : x ≡ 1 = omega (arith, above, below) in
    let half : x / 2 ≡ 0 = omega arith in
    let rest = smear_half x ∙ ap smear half ∙ smear_zero in
    let low = smear_clear x small in ground arith
smear_bits (suc k) x above below small =
    let e = pow-suc' k in
    let e' = pow-suc' (suc k) in
    let on = smear_bits k (x / 2) (omega arith) (omega arith) (omega arith) in
    let half = smear_half x in
    let low = smear_clear x small in
    let some_bit : 0 < x = omega (arith, one-le-pow k 2 (omega arith)) in ground arith
