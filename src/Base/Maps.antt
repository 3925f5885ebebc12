-- ===== src/Base/Maps.antt =====
-- Maps as functions, and the change of one entry.
use Prim.Native.Nat.{ℕ}
use mathlib.Core.Path.{◌≡◌, refl}
use mathlib.Core.Logic.{◌≢◌, inl, inr}
use tcpquic_proxy.Base.Tests.{◌==◌, ==_iff, Bool-cases, if◌then◌else◌}

abbrev pub update {ℓ} : {A : Type ℓ} → (ℕ → A) → ℕ → A → ℕ → A
update f k v j = if j == k then v else f j

pub update_same {ℓ} : {A : Type ℓ} (f : ℕ → A) (k : ℕ) (v : A) → update f k v k ≡ v
update_same f k v = rw ((==_iff k k).1 refl) refl

pub update_other {ℓ} :
    {A : Type ℓ} (f : ℕ → A) (k : ℕ) (v : A) (j : ℕ) → j ≢ k → update f k v j ≡ f j
update_other f k v j other = elim (Bool-cases (j == k)) [
  | inl e ↦ absurd (other ((==_iff j k).0 e))
  | inr e ↦ rw e refl
]
