-- ===== src/Base/Find.antt =====
-- Where find_text finds a pattern.
use Prim.Native.Nat.{ℕ, ◌≤◌}
use mathlib.Core.Path.{◌≡◌, refl, ap, sym, ◌∙◌, subst}
use mathlib.Core.Logic.{inl, inr}
use mathlib.Core.Bool.{true}
use mathlib.Core.Option.{some}
use mathlib.Core.List.{List, [], ◌∷◌, ◌++◌}
use native.Mathlib.Omega.{arith}
use tcpquic_proxy.Base.Lists.{length, drop}
use tcpquic_proxy.Base.Tests.{Bool-cases, Option-cases}
use tcpquic_proxy.Base.Text.{is_prefix, find_text}

is_prefix-append : (p s : List ℕ) → is_prefix p (p ++ s) ≡ true
unfolding is_prefix
is_prefix-append [] s = refl
is_prefix-append (b ∷ p) s = ground (arith, is_prefix-append p s)

-- What has the prefix is the prefix and the rest.
is_prefix-split : (p s : List ℕ) → is_prefix p s ≡ true → s ≡ p ++ drop (length p) s
unfolding is_prefix
is_prefix-split [] s e = refl
is_prefix-split (b ∷ p) [] e = ground arith
is_prefix-split (b ∷ p) (c ∷ s) e =
    let same : b ≡ c = ground arith in
    let on = is_prefix-split p s (ground arith) in ap (λ x. x ∷ s) (sym same) ∙ ap (λ t. b ∷ t) on

find_here : (p s : List ℕ) (n : ℕ) → is_prefix p s ≡ true → find_text p s ≡ some n → n ≡ 0
unfolding find_text
find_here p [] n here e = ground arith
find_here p (b ∷ s) n here e = ground arith

pub find_text-split :
    (p s : List ℕ) (n : ℕ)
    → find_text p s ≡ some n
    → (front : List ℕ) × (rest : List ℕ) × (length front ≡ n) × (s ≡ front ++ (p ++ rest))
unfolding find_text
find_text-split p [] n e =
    let here : is_prefix p [] ≡ true = ground arith in
    ([], drop (length p) [], ground arith, is_prefix-split p [] here)
find_text-split p (b ∷ s) n e = elim (Bool-cases (is_prefix p (b ∷ s))) [
  | inl here ↦ (
    [],
    drop (length p) (b ∷ s),
    sym (find_here p (b ∷ s) n here e),
    is_prefix-split p (b ∷ s) here,
  )
  | inr later ↦ elim (Option-cases (find_text p s)) [
    | inl nothing ↦ absurd (ground arith)
    | inr (m, found) ↦
        let (front, rest, len, split) = find_text-split p s m found in
        (b ∷ front, rest, ground arith, ap (λ t. b ∷ t) split)
  ]
]

-- No occurrence begins earlier.
pub find_text-first :
    (p s : List ℕ) (n : ℕ) (a b : List ℕ)
    → find_text p s ≡ some n
    → s ≡ a ++ (p ++ b)
    → n ≤ length a
unfolding find_text
find_text-first p s n [] b e f =
    let here = subst (λ t. is_prefix p t ≡ true) (sym f) (is_prefix-append p b) in
    let first = find_here p s n here e in omega (arith, first)
find_text-first p [] n (c ∷ a) b e f = absurd (ground arith)
find_text-first p (x ∷ s) n (c ∷ a) b e f = elim (Bool-cases (is_prefix p (x ∷ s))) [
  | inl here ↦ ground arith
  | inr later ↦ elim (Option-cases (find_text p s)) [
    | inl nothing ↦ absurd (ground arith)
    | inr (m, found) ↦ let on = find_text-first p s m a b found (ground arith) in ground arith
  ]
]
