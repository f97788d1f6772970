-- ===== src/Base/Sets.antt =====
-- Finite sets as lists without repetition (`std::unordered_set`, `std::remove` on a vector).
use mathlib.Core.Path.{◌≡◌, refl}
use mathlib.Core.Bool.{true, false}
use mathlib.Core.List.{List, [], ◌∷◌}
use native.Mathlib.Omega.{arith}
use mtdd_server.Base.Lists.{contains}

module _ {ℓ} {A : Type ℓ} (dec : Discrete A) where
  -- s.insert(a): no change where `a` is there already.
  unfoldable pub insert : A → List A → List A
  insert a xs = elim (contains dec a xs) [ true ↦ xs | false ↦ a ∷ xs ]

  -- s.erase(a), and the erase-remove idiom on a vector: every occurrence goes.
  unfoldable pub erase : A → List A → List A
  erase a [] = []
  erase a (x ∷ xs) = elim (dec x a) [ yes _ ↦ erase a xs | no _ ↦ x ∷ erase a xs ]

  pub contains-insert :
      (a b : A) (xs : List A)
      → contains dec b (insert a xs) ≡ elim (dec a b) [ yes _ ↦ true | no _ ↦ contains dec b xs ]
  unfolding insert
  contains-insert a b xs = ground arith

  pub contains-erase :
      (a b : A) (xs : List A)
      → contains dec b (erase a xs) ≡ elim (dec a b) [ yes _ ↦ false | no _ ↦ contains dec b xs ]
  unfolding erase
  contains-erase a b [] = ground arith
  contains-erase a b (x ∷ xs) = ground (arith, contains-erase a b xs)

  pub contains-insert_self : (a : A) (xs : List A) → contains dec a (insert a xs) ≡ true
  unfolding insert
  contains-insert_self a xs = ground arith

  -- What is not there need not be erased.
  pub erase_absent : (a : A) (xs : List A) → contains dec a xs ≡ false → erase a xs ≡ xs
  unfolding erase
  erase_absent a [] h = refl
  erase_absent a (x ∷ xs) h = ground (arith, erase_absent a xs)
