-- ===== src/Notify/Index.antt =====
-- A map from keys to non-empty sets, as the registry keeps three of: `m[k].insert(a)`, and the
-- erasure that drops a set which has become empty.
use mtdd_server.Base.{
  ◌≡◌, ◌≢◌, Bool, true, false, List, [], ◌∷◌, Option, none, some, arith, contains, insert, erase,
  contains-insert, contains-erase, ◌||◌, ◌&&◌, Option-cases, inl, inr, not,
}
use mtdd_server.Base.Maps.{lookup, assign, remove, lookup-assign, lookup-remove}

-- What a lookup that missed stands for, an empty set.
abbrev pub members {ℓ} : {A : Type ℓ} → Option (List A) → List A
members none = []
members (some xs) = xs

-- Erase the entry of a set that is empty now, write the set back otherwise.
module _ {ℓ κ} {K : Type ℓ} {A : Type κ} (key_dec : Discrete K) (dec : Discrete A) where
  unfoldable pub write_back : K → List A → List (K × List A) → List (K × List A)
  write_back k [] m = remove key_dec k m
  write_back k (x ∷ xs) m = assign key_dec k (x ∷ xs) m

  -- m[k].insert(a)
  unfoldable pub add : K → A → List (K × List A) → List (K × List A)
  add k a m = assign key_dec k (insert dec a (members (lookup key_dec k m))) m

  -- The element goes; so does the entry, if its set is empty then.
  unfoldable pub drop_member : K → A → List (K × List A) → List (K × List A)
  unfolding write_back
  drop_member k a m = elim (lookup key_dec k m) [
    | none ↦ m
    | some xs ↦ write_back k (erase dec a xs) m
  ]

  -- `a` is in the set of `k`.
  abbrev pub holds : A → K → List (K × List A) → Bool
  holds a k m = contains dec a (members (lookup key_dec k m))

  -- No entry has an empty set.
  abbrev pub NoEmpty : List (K × List A) → Type (ℓ ⊔ κ)
  NoEmpty m = (k : K) → lookup key_dec k m ≢ some []

  -- `a`, `k` is the pair `b`, `j`.
  abbrev pub same_pair : A → K → A → K → Bool
  same_pair a k b j = elim (key_dec k j) [
    | no _ ↦ false
    | yes _ ↦ elim (dec a b) [ yes _ ↦ true | no _ ↦ false ]
  ]

  pub holds-add :
      (k : K) (a : A) (m : List (K × List A)) (b : A) (j : K)
      → holds b j (add k a m) ≡ (same_pair a k b j || holds b j m)
  unfolding add
  holds-add k a m b j = ground (
    arith,
    lookup-assign key_dec k j (insert dec a (members (lookup key_dec k m))) m,
    contains-insert dec a b (members (lookup key_dec k m)),
  )

  lookup-write_back :
      (k j : K) (xs : List A) (m : List (K × List A))
      → members (lookup key_dec j (write_back k xs m))
        ≡ elim (key_dec k j) [ yes _ ↦ xs | no _ ↦ members (lookup key_dec j m) ]
  unfolding write_back
  lookup-write_back k j [] m = ground (arith, lookup-remove key_dec k j m)
  lookup-write_back k j (x ∷ xs) m = ground (arith, lookup-assign key_dec k j (x ∷ xs) m)

  pub holds-drop_member :
      (k : K) (a : A) (m : List (K × List A)) (b : A) (j : K)
      → holds b j (drop_member k a m) ≡ (not (same_pair a k b j) && holds b j m)
  unfolding drop_member
  holds-drop_member k a m b j = elim (Option-cases (lookup key_dec k m)) [
    | inl e ↦ ground arith
    | inr (xs, e) ↦
        ground (arith, lookup-write_back k j (erase dec a xs) m, contains-erase dec a b xs)
  ]

  pub add-NoEmpty : (k : K) (a : A) (m : List (K × List A)) → NoEmpty m → NoEmpty (add k a m)
  unfolding add insert
  add-NoEmpty k a m h j =
      ground (arith, lookup-assign key_dec k j (insert dec a (members (lookup key_dec k m))) m, h j)

  write_back-NoEmpty :
      (k : K) (xs : List A) (m : List (K × List A)) → NoEmpty m → NoEmpty (write_back k xs m)
  unfolding write_back
  write_back-NoEmpty k [] m h j = ground (arith, lookup-remove key_dec k j m, h j)
  write_back-NoEmpty k (x ∷ xs) m h j = ground (arith, lookup-assign key_dec k j (x ∷ xs) m, h j)

  pub drop_member-NoEmpty :
      (k : K) (a : A) (m : List (K × List A)) → NoEmpty m → NoEmpty (drop_member k a m)
  unfolding drop_member
  drop_member-NoEmpty k a m h = elim (Option-cases (lookup key_dec k m)) [
    | inl e ↦ rw (e, drop_member) h
    | inr (xs, e) ↦ rw (e, drop_member) (write_back-NoEmpty k (erase dec a xs) m h)
  ]
