-- ===== src/Base/Maps.antt =====
-- Maps as association lists over a decision of key equality (`std::unordered_map`). The order of
-- the entries stands for the iteration order, which the standard leaves open.
use mathlib.Core.Path.{◌≡◌, refl}
use mathlib.Core.Option.{Option, none, some}
use mathlib.Core.List.{List, [], ◌∷◌}
use Prim.Native.Nat.{suc, ◌≤◌}
use native.Mathlib.Omega.{arith}
use mtdd_server.Base.Lists.{length}

module _ {ℓ κ} {K : Type ℓ} {V : Type κ} (dec : Discrete K) where
  -- m.find(k)
  unfoldable pub lookup : K → List (K × V) → Option V
  lookup k [] = none
  lookup k ((j, v) ∷ m) = elim (dec j k) [ yes _ ↦ some v | no _ ↦ lookup k m ]

  -- m[k] = v
  unfoldable pub assign : K → V → List (K × V) → List (K × V)
  assign k v [] = (k, v) ∷ []
  assign k v ((j, w) ∷ m) = elim (dec j k) [ yes _ ↦ (j, v) ∷ m | no _ ↦ (j, w) ∷ assign k v m ]

  -- m.erase(k)
  unfoldable pub remove : K → List (K × V) → List (K × V)
  remove k [] = []
  remove k ((j, v) ∷ m) = elim (dec j k) [ yes _ ↦ remove k m | no _ ↦ (j, v) ∷ remove k m ]

  pub lookup-assign :
      (k j : K) (v : V) (m : List (K × V))
      → lookup j (assign k v m) ≡ elim (dec k j) [ yes _ ↦ some v | no _ ↦ lookup j m ]
  unfolding lookup assign
  lookup-assign k j v [] = refl
  lookup-assign k j v ((i, w) ∷ m) = ground (arith, lookup-assign k j v m)

  pub lookup-remove :
      (k j : K) (m : List (K × V))
      → lookup j (remove k m) ≡ elim (dec k j) [ yes _ ↦ none | no _ ↦ lookup j m ]
  unfolding lookup remove
  lookup-remove k j [] = ground arith
  lookup-remove k j ((i, w) ∷ m) = ground (arith, lookup-remove k j m)

  -- A key that is there is replaced; one that is not is one entry more.
  pub length-assign_present :
      (k : K) (v w : V) (m : List (K × V)) → lookup k m ≡ some w → length (assign k v m) ≡ length m
  unfolding lookup assign
  length-assign_present k v w [] h = absurd (cc)
  length-assign_present k v w ((i, u) ∷ m) h = ground (arith, length-assign_present k v w m)

  pub length-assign_le : (k : K) (v : V) (m : List (K × V)) → length (assign k v m) ≤ suc (length m)
  unfolding assign
  length-assign_le k v [] = omega arith
  length-assign_le k v ((i, u) ∷ m) = ground (arith, length-assign_le k v m)

  pub length-remove_le : (k : K) (m : List (K × V)) → length (remove k m) ≤ length m
  unfolding remove
  length-remove_le k [] = omega arith
  length-remove_le k ((i, u) ∷ m) = ground (arith, length-remove_le k m)

  pub length-remove_present :
      (k : K) (v : V) (m : List (K × V))
      → lookup k m ≡ some v
      → suc (length (remove k m)) ≤ length m
  unfolding lookup remove
  length-remove_present k v [] h = absurd (cc)
  length-remove_present k v ((i, u) ∷ m) h =
      ground (arith, length-remove_present k v m, length-remove_le k m)
