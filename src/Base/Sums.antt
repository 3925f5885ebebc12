-- ===== src/Base/Sums.antt =====
-- Sums over a list, and an element in the middle of a list.
use Prim.Native.Nat.{ℕ, ◌+◌}
use mathlib.Core.Path.{◌≡◌, refl}
use mathlib.Core.List.{List, [], ◌∷◌, ◌++◌}
use native.Mathlib.Omega.{arith}
use tcpquic_proxy.Base.Lists.{All}

module _ {ℓ} {A : Type ℓ} where
  abbrev pub total : (A → ℕ) → List A → ℕ
  total f [] = 0
  total f (x ∷ xs) = f x + total f xs

  pub total-middle :
      (f : A → ℕ) (xs : List A) (x : A) (ys : List A)
      → total f (xs ++ (x ∷ ys)) ≡ f x + total f (xs ++ ys)
  total-middle f [] x ys = refl
  total-middle f (y ∷ xs) x ys = omega (arith, total-middle f xs x ys)

  pub middle-All :
      (P : A → Type 0) (xs : List A) (x : A) (ys : List A)
      → All P (xs ++ (x ∷ ys))
      → P x × All P (xs ++ ys)
  middle-All P [] x ys h = h
  middle-All P (y ∷ xs) x ys (h, hs) = let on = middle-All P xs x ys hs in (on.0, (h, on.1))

  pub All-middle :
      (P : A → Type 0) (xs : List A) (x : A) (ys : List A)
      → P x
      → All P (xs ++ ys)
      → All P (xs ++ (x ∷ ys))
  All-middle P [] x ys h hs = (h, hs)
  All-middle P (y ∷ xs) x ys h (k, hs) = (k, All-middle P xs x ys h hs)

  -- Two elements.
  pub total-two :
      (f : A → ℕ) (xs : List A) (x : A) (ys : List A) (y : A) (zs : List A)
      → total f (xs ++ (x ∷ (ys ++ (y ∷ zs)))) ≡ f x + f y + total f (xs ++ (ys ++ zs))
  total-two f [] x ys y zs = omega (arith, total-middle f ys y zs)
  total-two f (u ∷ xs) x ys y zs = omega (arith, total-two f xs x ys y zs)

  pub two-All :
      (P : A → Type 0) (xs : List A) (x : A) (ys : List A) (y : A) (zs : List A)
      → All P (xs ++ (x ∷ (ys ++ (y ∷ zs))))
      → P x × P y × All P (xs ++ (ys ++ zs))
  two-All P [] x ys y zs (h, hs) = let on = middle-All P ys y zs hs in (h, on.0, on.1)
  two-All P (u ∷ xs) x ys y zs (h, hs) =
      let on = two-All P xs x ys y zs hs in (on.0, on.1, (h, on.2))

  pub All-two :
      (P : A → Type 0) (xs : List A) (x : A) (ys : List A) (y : A) (zs : List A)
      → P x
      → P y
      → All P (xs ++ (ys ++ zs))
      → All P (xs ++ (x ∷ (ys ++ (y ∷ zs))))
  All-two P [] x ys y zs h k hs = (h, All-middle P ys y zs k hs)
  All-two P (u ∷ xs) x ys y zs h k (l, hs) = (l, All-two P xs x ys y zs h k hs)

  pub total-append : (f : A → ℕ) (xs ys : List A) → total f (xs ++ ys) ≡ total f xs + total f ys
  total-append f [] ys = omega arith
  total-append f (x ∷ xs) ys = omega (arith, total-append f xs ys)
