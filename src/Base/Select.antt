-- ===== src/Base/Select.antt =====
-- Selecting from a list by a Boolean test, and what holds of all or of one of the elements.
use mathlib.Core.Path.{◌≡◌, refl}
use mathlib.Core.Logic.{inl, inr}
use mathlib.Core.Bool.{Bool, true, false, ◌||◌}
use mathlib.Core.List.{List, [], ◌∷◌, ◌++◌, map}
use tcpquic_proxy.Base.Tests.{if◌then◌else◌, Bool-cases}
use tcpquic_proxy.Base.Lists.{All, Any}

module _ {ℓ} {A : Type ℓ} where
  -- The elements that pass the test, in their order.
  abbrev pub keep : (A → Bool) → List A → List A
  keep p [] = []
  keep p (x ∷ xs) = let rest = keep p xs in if p x then x ∷ rest else rest

  abbrev pub has : (A → Bool) → List A → Bool
  has p [] = false
  has p (x ∷ xs) = p x || has p xs

  pub All-keep : (P : A → Type 0) (p : A → Bool) (xs : List A) → All P xs → All P (keep p xs)
  All-keep P p [] h = tt
  All-keep P p (x ∷ xs) (h, hs) = elim (Bool-cases (p x)) [
    | inl e ↦ rw e (h, All-keep P p xs hs)
    | inr e ↦ rw e (All-keep P p xs hs)
  ]

  -- What the test lets through has passed it.
  pub keep-All : (p : A → Bool) (xs : List A) → All (λ x. p x ≡ true) (keep p xs)
  keep-All p [] = tt
  keep-All p (x ∷ xs) = elim (Bool-cases (p x)) [
    | inl e ↦ rw e (e, keep-All p xs)
    | inr e ↦ rw e (keep-All p xs)
  ]

  pub Any-keep :
      (P : A → Type 0) (p : A → Bool) (xs : List A)
      → ((x : A) → P x → p x ≡ true)
      → Any P xs
      → Any P (keep p xs)
  Any-keep P p [] f h = h
  Any-keep P p (x ∷ xs) f (inl h) = rw (f x h) (inl h)
  Any-keep P p (x ∷ xs) f (inr h) = elim (Bool-cases (p x)) [
    | inl e ↦ rw e (inr (Any-keep P p xs f h))
    | inr e ↦ rw e (Any-keep P p xs f h)
  ]

  pub has-Any :
      (P : A → Type 0) (p : A → Bool) (xs : List A)
      → ((x : A) → P x → p x ≡ true)
      → Any P xs
      → has p xs ≡ true
  has-Any P p [] f h = elim h [ ]
  has-Any P p (x ∷ xs) f (inl h) = rw (f x h) refl
  has-Any P p (x ∷ xs) f (inr h) = elim (Bool-cases (p x)) [
    | inl e ↦ rw e refl
    | inr e ↦ rw e (has-Any P p xs f h)
  ]

  pub All-imply : (P Q : A → Type 0) (xs : List A) → ((x : A) → P x → Q x) → All P xs → All Q xs
  All-imply P Q [] f h = tt
  All-imply P Q (x ∷ xs) f (h, hs) = (f x h, All-imply P Q xs f hs)

  pub Any-imply : (P Q : A → Type 0) (xs : List A) → ((x : A) → P x → Q x) → Any P xs → Any Q xs
  Any-imply P Q [] f h = elim h [ ]
  Any-imply P Q (x ∷ xs) f (inl h) = inl (f x h)
  Any-imply P Q (x ∷ xs) f (inr h) = inr (Any-imply P Q xs f h)

  pub All-both : (P Q : A → Type 0) (xs : List A) → All P xs → All Q xs → All (λ x. P x × Q x) xs
  All-both P Q [] h k = tt
  All-both P Q (x ∷ xs) (h, hs) (k, ks) = ((h, k), All-both P Q xs hs ks)

  pub All-append : (P : A → Type 0) (xs ys : List A) → All P xs → All P ys → All P (xs ++ ys)
  All-append P [] ys h k = k
  All-append P (x ∷ xs) ys (h, hs) k = (h, All-append P xs ys hs k)

  pub Any-append_left : (P : A → Type 0) (xs ys : List A) → Any P xs → Any P (xs ++ ys)
  Any-append_left P [] ys h = elim h [ ]
  Any-append_left P (x ∷ xs) ys (inl h) = inl h
  Any-append_left P (x ∷ xs) ys (inr h) = inr (Any-append_left P xs ys h)

  pub All-Any :
      (P Q R : A → Type 0) (xs : List A)
      → ((x : A) → P x → Q x → R x)
      → All P xs
      → Any Q xs
      → Any R xs
  All-Any P Q R [] f h k = elim k [ ]
  All-Any P Q R (x ∷ xs) f (h, hs) (inl k) = inl (f x h k)
  All-Any P Q R (x ∷ xs) f (h, hs) (inr k) = inr (All-Any P Q R xs f hs k)

module _ {ℓ κ} {A : Type ℓ} {B : Type κ} where
  pub All-map :
      (P : A → Type 0) (Q : B → Type 0) (f : A → B) (xs : List A)
      → ((x : A) → P x → Q (f x))
      → All P xs
      → All Q (map f xs)
  All-map P Q f [] g h = tt
  All-map P Q f (x ∷ xs) g (h, hs) = (g x h, All-map P Q f xs g hs)

  pub Any-map :
      (P : A → Type 0) (Q : B → Type 0) (f : A → B) (xs : List A)
      → ((x : A) → P x → Q (f x))
      → Any P xs
      → Any Q (map f xs)
  Any-map P Q f [] g h = elim h [ ]
  Any-map P Q f (x ∷ xs) g (inl h) = inl (g x h)
  Any-map P Q f (x ∷ xs) g (inr h) = inr (Any-map P Q f xs g h)

module _ {A : Type 0} where
  -- Each of them is an element.
  pub keep-Any :
      (p : A → Bool) (ys xs : List A)
      → ((x : A) → Any (λ u. u ≡ x) xs → Any (λ u. u ≡ x) ys)
      → All (λ x. Any (λ u. u ≡ x) ys × (p x ≡ true)) (keep p xs)
  keep-Any p ys [] f = tt
  keep-Any p ys (x ∷ xs) f = elim (Bool-cases (p x)) [
    | inl e ↦ rw e ((f x (inl refl), e), keep-Any p ys xs (λ y h. f y (inr h)))
    | inr e ↦ rw e (keep-Any p ys xs (λ y h. f y (inr h)))
  ]
