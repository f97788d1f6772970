-- ===== src/Base/Text.antt =====
-- `std::string` as the list of its bytes, and the exceptions that carry one.
use Prim.Native.Char.{code}
use Prim.Native.String.{String}
use mathlib.Core.Path.{◌≡◌, refl}
use mathlib.Core.Bool.{Bool, true, false, ◌&&◌, ◌||◌}
use mathlib.Core.List.{List, [], ◌∷◌}
use native.Mathlib.Omega.{arith}
use mtdd_server.Base.Tests.{◌==◌, if◌then◌else◌}
use Prim.Native.Nat.{ℕ, suc}
use mathlib.Core.Option.{Option, none, some}
use native.Mathlib.Decide.{ℕ_discrete}

abbrev pub Bytes : Type 0
Bytes = List ℕ

-- The bytes of an ASCII literal.
abbrev pub codes : String → Bytes
codes String.[] = []
codes (String.◌∷◌ c s) = code c ∷ codes s

unfoldable pub Bytes-discrete : Discrete Bytes
Bytes-discrete [] [] = yes refl
Bytes-discrete [] (y ∷ ys) = no (λ e. cc)
Bytes-discrete (x ∷ xs) [] = no (λ e. cc)
Bytes-discrete (x ∷ xs) (y ∷ ys) = elim (ℕ_discrete x y) [
  | yes p ↦ elim (Bytes-discrete xs ys) [ yes q ↦ yes (cc) | no q ↦ no (λ e. q (cc)) ]
  | no p ↦ no (λ e. p (cc))
]

-- s == t
unfoldable pub equal : Bytes → Bytes → Bool
equal [] [] = true
equal [] (y ∷ t) = false
equal (x ∷ s) [] = false
equal (x ∷ s) (y ∷ t) = x == y && equal s t

pub equal-true : (s t : Bytes) → equal s t ≡ true → s ≡ t
unfolding equal
equal-true [] [] h = refl
equal-true [] (y ∷ t) h = cc
equal-true (x ∷ s) [] h = cc
equal-true (x ∷ s) (y ∷ t) h = ground (arith, equal-true s t)

pub equal_refl : (s : Bytes) → equal s s ≡ true
unfolding equal
equal_refl [] = refl
equal_refl (x ∷ s) = ground (arith, equal_refl s)

-- s.empty()
abbrev pub is_empty : Bytes → Bool
is_empty [] = true
is_empty (c ∷ s) = false

-- s.rfind(c)
unfoldable pub rfind : ℕ → Bytes → Option ℕ
rfind c [] = none
rfind c (x ∷ s) = elim (rfind c s) [
  | some i ↦ some (suc i)
  | none ↦ if x == c then some 0 else none
]

-- s.rfind(p, 0) == 0
unfoldable pub starts_with : Bytes → Bytes → Bool
starts_with [] s = true
starts_with (c ∷ p) [] = false
starts_with (c ∷ p) (x ∷ s) = c == x && starts_with p s

-- s.find(p) != npos
unfoldable pub contains_text : Bytes → Bytes → Bool
contains_text p [] = starts_with p []
contains_text p (x ∷ s) = starts_with p (x ∷ s) || contains_text p s

-- s.back() == c, of a string that is not empty
unfoldable pub ends_in : ℕ → Bytes → Bool
ends_in c [] = false
ends_in c (x ∷ []) = x == c
ends_in c (x ∷ y ∷ s) = ends_in c (y ∷ s)
