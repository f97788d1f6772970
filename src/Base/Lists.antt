-- ===== src/Base/Lists.antt =====
-- Lists measured by native numbers, and membership as a Boolean test over a decision of equality.
use Prim.Native.Nat.{ℕ, zero, suc, ◌+◌}
use mathlib.Core.Path.{◌≡◌, refl, ap}
use mathlib.Core.Bool.{Bool, true, false}
use mathlib.Core.List.{List, [], ◌∷◌, ◌++◌}
use native.Mathlib.Omega.{arith}

module _ {ℓ} {A : Type ℓ} where
  abbrev pub length : List A → ℕ
  length [] = 0
  length (x ∷ xs) = suc (length xs)

  abbrev pub take : ℕ → List A → List A
  take zero xs = []
  take (suc n) [] = []
  take (suc n) (x ∷ xs) = x ∷ take n xs

  abbrev pub drop : ℕ → List A → List A
  drop zero xs = xs
  drop (suc n) [] = []
  drop (suc n) (x ∷ xs) = drop n xs

  pub length-append : (xs ys : List A) → length (xs ++ ys) ≡ length xs + length ys
  length-append [] ys = omega arith
  length-append (x ∷ xs) ys = omega (arith, length-append xs ys)

  pub take_of-append : (xs ys : List A) → take (length xs) (xs ++ ys) ≡ xs
  take_of-append [] ys = refl
  take_of-append (x ∷ xs) ys = ap (◌∷◌ x) (take_of-append xs ys)

  pub drop_of-append : (xs ys : List A) → drop (length xs) (xs ++ ys) ≡ ys
  drop_of-append [] ys = refl
  drop_of-append (x ∷ xs) ys = drop_of-append xs ys

  abbrev pub All {κ} : (A → Type κ) → List A → Type κ
  All P [] = Unit {κ}
  All P (x ∷ xs) = P x × All P xs

module _ {ℓ} {A : Type ℓ} (dec : Discrete A) where
  abbrev pub contains : A → List A → Bool
  contains a [] = false
  contains a (x ∷ xs) = elim (dec x a) [ yes _ ↦ true | no _ ↦ contains a xs ]

  pub contains-append_left :
      (a : A) (xs ys : List A) → contains a xs ≡ true → contains a (xs ++ ys) ≡ true
  contains-append_left a [] ys h = absurd (cc)
  contains-append_left a (x ∷ xs) ys h = ground (arith, contains-append_left a xs ys)

  pub contains-append_right :
      (a : A) (xs ys : List A) → contains a ys ≡ true → contains a (xs ++ ys) ≡ true
  contains-append_right a [] ys h = h
  contains-append_right a (x ∷ xs) ys h = ground (arith, contains-append_right a xs ys)

  pub contains-append_none :
      (a : A) (xs ys : List A) → contains a xs ≡ false → contains a (xs ++ ys) ≡ contains a ys
  contains-append_none a [] ys h = refl
  contains-append_none a (x ∷ xs) ys h = ground (arith, contains-append_none a xs ys)
