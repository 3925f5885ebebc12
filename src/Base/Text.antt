-- ===== src/Base/Text.antt =====
-- std::string searches on byte strings.
use Prim.Native.Nat.{ℕ, suc, ◌+◌}
use Prim.Native.Char.{code}
use Prim.Native.String.{String}
use mathlib.Core.Bool.{Bool, true, false, ◌&&◌}
use mathlib.Core.Option
use mathlib.Core.Option.{Option, none, some}
use mathlib.Core.List.{List, [], ◌∷◌}
use tcpquic_proxy.Base.Lists.{drop}
use tcpquic_proxy.Base.Tests.{◌==◌, if◌then◌else◌}

-- s.find(c)
unfoldable pub find_byte : ℕ → List ℕ → Option ℕ
find_byte c [] = none
find_byte c (b ∷ s) = let rest = Option.map suc (find_byte c s) in if b == c then some 0 else rest

-- The C string that s.c_str() points to: up to the first NUL.
unfoldable pub c_str : List ℕ → List ℕ
c_str [] = []
c_str (b ∷ s) = let rest = c_str s in if b == 0 then [] else b ∷ rest

-- The bytes of an ASCII literal.
abbrev pub codes : String → List ℕ
codes String.[] = []
codes (String.◌∷◌ c s) = code c ∷ codes s

-- s.find(c, pos)
unfoldable pub find_byte_from : ℕ → List ℕ → ℕ → Option ℕ
unfolding find_byte
find_byte_from c s pos = Option.map (λ i. pos + i) (find_byte c (drop pos s))

-- s.rfind(c)
unfoldable pub rfind_byte : ℕ → List ℕ → Option ℕ
rfind_byte c [] = none
rfind_byte c (b ∷ s) = elim (rfind_byte c s) [
  | some i ↦ some (suc i)
  | none ↦ if b == c then some 0 else none
]

-- text starts with pattern
unfoldable pub is_prefix : List ℕ → List ℕ → Bool
is_prefix [] text = true
is_prefix (p ∷ pattern') [] = false
is_prefix (p ∷ pattern') (b ∷ text) = p == b && is_prefix pattern' text

-- s.find(pattern)
unfoldable pub find_text : List ℕ → List ℕ → Option ℕ
unfolding is_prefix
find_text p [] = if is_prefix p [] then some 0 else none
find_text p (b ∷ s) =
    let rest = Option.map suc (find_text p s) in if is_prefix p (b ∷ s) then some 0 else rest

unfoldable pub bytes_eq : List ℕ → List ℕ → Bool
bytes_eq [] [] = true
bytes_eq (a ∷ xs) (b ∷ ys) = a == b && bytes_eq xs ys
bytes_eq _ _ = false
