-- ===== src/Unix/Parent.antt =====
-- ParentDirectory of src/unix/unix_socket.cpp climbs to the root.
use mtdd_server.Base.{
  ℕ, zero, suc, ◌<◌, ◌≤◌, Bytes, codes, false, Option, none, some, [], ◌∷◌, take, length, rfind,
  if◌then◌else◌, ◌==◌, inl, inr, ◌⊎◌, ◌≡◌, refl, arith,
}
use mtdd_server.Unix.Path.{parent_directory, parent_up_to, is_relative}

rfind_step :
    (c d : ℕ) (r : Option ℕ) (size n : ℕ)
    → ((i : ℕ) → r ≡ some i → i < size)
    → elim r [ some i ↦ some (suc i) | none ↦ if d == c then some 0 else none ] ≡ some n
    → n < suc size
rfind_step c d none size n h e = ground arith
rfind_step c d (some i) size n h e = ground (arith, h i refl)

rfind-lt : (c : ℕ) (s : Bytes) (n : ℕ) → rfind c s ≡ some n → n < length s
unfolding rfind
rfind-lt c [] n e = absurd cc
rfind-lt c (d ∷ s) n e = rfind_step c d (rfind c s) (length s) n (rfind-lt c s) e

length-take_le : (n : ℕ) (s : Bytes) → length (take n s) ≤ n
length-take_le zero s = omega arith
length-take_le (suc n) [] = omega arith
length-take_le (suc n) (c ∷ s) = omega (arith, length-take_le n s)

-- The root, for a path that has no other slash than its first.
root_lem :
    (path : Bytes)
    → is_relative path ≡ false
    → (codes "/" ≡ path) ⊎ (length (codes "/") < length path)
root_lem [] a = absurd cc
root_lem (c ∷ []) a = inl (ground arith)
root_lem (c ∷ d ∷ s) a = inr (omega arith)

-- Absolute, and shorter or the same.
abbrev pub Shortens : Bytes → Bytes → Type 0
Shortens parent path =
    (is_relative parent ≡ false) × ((parent ≡ path) ⊎ (length parent < length path))

taken :
    (n : ℕ) (path : Bytes)
    → is_relative path ≡ false
    → suc n < length path
    → Shortens (take (suc n) path) path
taken n [] a h = absurd cc
taken n (c ∷ s) a h = (a, inr (omega (arith, length-take_le n s)))

up_to_lem :
    (at : Option ℕ) (path : Bytes)
    → is_relative path ≡ false
    → ((n : ℕ) → at ≡ some n → n < length path)
    → Shortens (parent_up_to at path) path
up_to_lem none path a h = (refl, root_lem path a)
up_to_lem (some zero) path a h = (refl, root_lem path a)
up_to_lem (some (suc n)) path a h = taken n path a (h (suc n) refl)

-- The parent of an absolute path is absolute, and shorter but for the root's.
pub parent_directory_lem :
    (path : Bytes) → is_relative path ≡ false → Shortens (parent_directory path) path
unfolding parent_directory
parent_directory_lem path a = up_to_lem (rfind b'/' path) path a (rfind-lt b'/' path)
