-- ===== src/Base/Bits.antt =====
-- The bitwise or that assembles words from bytes, and the shifts around it.
use Prim.Native.Nat.{
  ℕ, zero, suc, ◌+◌, ◌-◌, ◌*◌, ◌/◌, ◌%◌, ◌^◌, ◌≤◌, ◌<◌, max, bit_or, digits, bit_or-bitwise,
}
use mathlib.Core.Path.{◌≡◌, refl, sym, ap, ◌∙◌}
use native.Mathlib.Nat.{pow-suc}
use native.Mathlib.Omega.{arith}

-- x << k and x >> k on unbounded numbers.
abbrev pub shl : ℕ → ℕ → ℕ
shl x k = x * 2 ^ k

abbrev pub shr : ℕ → ℕ → ℕ
shr x k = x / 2 ^ k

-- The native or, with the fuel that it runs on.
abbrev fueled_or : ℕ → ℕ → ℕ → ℕ
fueled_or fuel x y = digits (λ rest. rest) max fuel x y

fueled_or-zero : (fuel y : ℕ) → fueled_or fuel 0 y ≡ y
fueled_or-zero zero y = refl
fueled_or-zero (suc fuel) y = refl

-- Fuel beyond the left operand is not used.
fueled_or-spare :
    (fuel spare x y : ℕ) → x ≤ fuel → fueled_or (fuel + spare) x y ≡ fueled_or fuel x y
fueled_or-spare fuel spare zero y enough =
    omega (arith, fueled_or-zero (fuel + spare) y, fueled_or-zero fuel y)
fueled_or-spare zero spare (suc x) y enough = absurd (omega arith)
fueled_or-spare (suc fuel) spare (suc x) y enough =
    let ih = fueled_or-spare fuel spare (suc x / 2) (y / 2) (omega arith) in
    let one_more : suc fuel + spare ≡ suc (fuel + spare) = omega arith in
    ap (λ all. fueled_or all (suc x) y) one_more
    ∙ ap (λ rest. rest * 2 + max (suc x % 2) (y % 2)) ih

half_fuel : (x y : ℕ) → fueled_or x (suc x / 2) (y / 2) ≡ fueled_or (suc x / 2) (suc x / 2) (y / 2)
half_fuel x y =
    let spare = x - suc x / 2 in
    let all : suc x / 2 + spare ≡ x = omega arith in
    ap (λ fuel. fueled_or fuel (suc x / 2) (y / 2)) (sym all)
    ∙ fueled_or-spare (suc x / 2) spare (suc x / 2) (y / 2) (omega arith)

pub bit_or_digit : (x y : ℕ) → bit_or x y ≡ bit_or (x / 2) (y / 2) * 2 + max (x % 2) (y % 2)
bit_or_digit zero y = omega (arith, bit_or-bitwise 0 y, bit_or-bitwise 0 (y / 2))
bit_or_digit (suc x) y =
    let now = bit_or-bitwise (suc x) y in
    let below = bit_or-bitwise (suc x / 2) (y / 2) in omega (arith, now, below, half_fuel x y)

or_with_zero : (bound x : ℕ) → x ≤ bound → bit_or x 0 ≡ x
or_with_zero bound zero small = refl
or_with_zero zero (suc x) small = absurd (omega arith)
or_with_zero (suc bound) (suc x) small =
    let ih = or_with_zero bound (suc x / 2) (omega arith) in
    omega (arith, ih, bit_or_digit (suc x) 0)

shl-suc : (a k : ℕ) → shl a (suc k) ≡ 2 * shl a k
shl-suc a k = omega (arith, ap (λ (t : ℕ). a * t) (pow-suc 2 k))

-- Disjoint operands: the or of a shifted word and of bits below the shift is their sum.
pub bit_or-shl : (k a b : ℕ) → b < 2 ^ k → bit_or (shl a k) b ≡ shl a k + b
bit_or-shl zero a b h = ground (arith, or_with_zero a a (omega arith))
bit_or-shl (suc k) a b h = ground (
  arith,
  shl-suc a k,
  bit_or_digit (shl a (suc k)) b,
  bit_or-shl k a (b / 2) (omega (arith, pow-suc 2 k)),
)

bit_or_fuel : (n a b : ℕ) → a ≤ n → b ≤ n → bit_or a b ≡ 0 → (a ≡ 0) × (b ≡ 0)
bit_or_fuel zero a b ha hb e = (omega arith, omega arith)
bit_or_fuel (suc n) a b ha hb e =
    let digit = bit_or_digit a b in
    let ih = bit_or_fuel n (a / 2) (b / 2) (omega arith) (omega arith) (omega arith) in
    (omega arith, omega arith)

-- Nothing is or-ed in exactly if both operands are 0.
pub bit_or_eq_zero : (a b : ℕ) → bit_or a b ≡ 0 → (a ≡ 0) × (b ≡ 0)
bit_or_eq_zero a b e = bit_or_fuel (a + b) a b (omega arith) (omega arith) e

pub bit_or_zero_zero : bit_or 0 0 ≡ 0
bit_or_zero_zero = refl
