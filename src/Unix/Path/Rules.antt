-- ===== src/Unix/Path/Rules.antt =====
-- The path rules against an independent reading: the path as its components.
use mtdd_server.Base.{sym}
use mtdd_server.Base.{
  ℕ, suc, ◌-◌, ◌≤◌, Bytes, codes, Bool, ◌&&◌, ◌||◌, length, drop, leb, ◌==◌, equal, starts_with,
  contains_text, ends_in, if◌then◌else◌, ◌∷◌, [], false, refl, ◌≡◌, arith, ◌↔◌,
}
use mtdd_server.Base.Results.{ok}
use mtdd_server.Unix.Path.{
  path_contains_dot_dot, validate_unix_socket_path, max_unix_path_length, is_relative,
}

-- The components of a path: the text before the first slash, and those behind it.
abbrev pub first_component : Bytes → Bytes
first_component [] = []
first_component (c ∷ s) = if c == b'/' then [] else c ∷ first_component s

abbrev is_dot_dot : Bytes → Bool
is_dot_dot s = equal s (codes "..")

-- A component behind a slash is `..`.
abbrev pub later_dot_dot : Bytes → Bool
later_dot_dot [] = false
later_dot_dot (c ∷ s) = c == b'/' && equal (first_component s) (codes "..") || later_dot_dot s

-- Some component of the path is `..`.
abbrev pub has_dot_dot_component : Bytes → Bool
has_dot_dot_component s = equal (first_component s) (codes "..") || later_dot_dot s

-- s ends with `t` at some place.
ends_with : Bytes → Bytes → Bool
ends_with t [] = equal [] t
ends_with t (x ∷ s) = equal (x ∷ s) t || ends_with t s

ends_with_short : (s : Bytes) → length s ≤ 2 → ends_with (codes "/..") s ≡ false
unfolding ends_with equal
ends_with_short [] h = refl
ends_with_short (a ∷ []) h = ground arith
ends_with_short (a ∷ b ∷ []) h = ground arith
ends_with_short (a ∷ b ∷ c ∷ s) h = absurd (omega arith)

equal_longer : (a b c d : ℕ) (s : Bytes) → equal (a ∷ b ∷ c ∷ d ∷ s) (codes "/..") ≡ false
unfolding equal
equal_longer a b c d s = ground arith

-- The test on the last three bytes is a test of the end.
last_three :
    (s : Bytes)
    → (leb 3 (length s) && equal (drop (length s - 3) s) (codes "/..")) ≡ ends_with (codes "/..") s
unfolding ends_with
last_three [] = unfold equal in refl
last_three (a ∷ []) = sym (ends_with_short (a ∷ []) (omega arith))
last_three (a ∷ b ∷ []) = sym (ends_with_short (a ∷ b ∷ []) (omega arith))
last_three (a ∷ b ∷ c ∷ []) = ground (arith, ends_with_short (b ∷ c ∷ []) (omega arith))
last_three (a ∷ b ∷ c ∷ d ∷ s) =
    let n = length s in
    let e : suc (suc (suc (suc n))) - 3 ≡ suc n = omega arith in
    let e' : suc (suc (suc n)) - 3 ≡ n = omega arith in
    ground (arith, e, e', equal_longer a b c d s, last_three (b ∷ c ∷ d ∷ s))

starts_with_cons :
    (x : ℕ) (s : Bytes)
    → starts_with (codes "/../") (x ∷ s) ≡ (x == b'/' && starts_with (codes "../") s)
unfolding starts_with
starts_with_cons x s = ground arith

equal_cons : (x : ℕ) (s : Bytes) → equal (x ∷ s) (codes "/..") ≡ (x == b'/' && equal s (codes ".."))
unfolding equal
equal_cons x s = refl

first_is_dot_dot :
    (s : Bytes)
    → equal (first_component s) (codes "..") ≡ (equal s (codes "..") || starts_with (codes "../") s)
unfolding equal starts_with
first_is_dot_dot [] = refl
first_is_dot_dot (a ∷ []) = ground arith
first_is_dot_dot (a ∷ b ∷ []) = ground arith
first_is_dot_dot (a ∷ b ∷ c ∷ s) = ground arith

later_is_dot_dot :
    (s : Bytes) → later_dot_dot s ≡ (contains_text (codes "/../") s || ends_with (codes "/..") s)
unfolding ends_with contains_text
later_is_dot_dot [] = unfold equal starts_with in refl
later_is_dot_dot (x ∷ s) =
    ground (arith, later_is_dot_dot s, first_is_dot_dot s, starts_with_cons x s, equal_cons x s)

-- The four searches of PathContainsDotDot find exactly the paths of which a component, the text
-- before the first slash or behind some slash, is two dots.
pub path_contains_dot_dot_lem :
    (path : Bytes) → path_contains_dot_dot path ≡ has_dot_dot_component path
unfolding path_contains_dot_dot
path_contains_dot_dot_lem path =
    ground (arith, first_is_dot_dot path, later_is_dot_dot path, last_three path)

-- A path that may name the socket: absolute, short enough for sockaddr_un, naming a file, and with
-- no component `..`.
pub record IsSocketPath (path : Bytes) : Type 0 where
  pub absolute : is_relative path ≡ false
  pub fits : length path ≤ max_unix_path_length
  pub names_file : ends_in b'/' path ≡ false
  pub no_dot_dot : has_dot_dot_component path ≡ false

not_root : (path : Bytes) → ends_in b'/' path ≡ false → equal path (codes "/") ≡ false
unfolding ends_in equal
not_root [] h = refl
not_root (x ∷ []) h = ground arith
not_root (x ∷ y ∷ s) h = ground arith

-- ValidateUnixSocketPath accepts a path exactly if it is absolute, at most 107 bytes long, does
-- not end with a slash, and has no component that is two dots.
pub validate_unix_socket_path_lem :
    (path : Bytes) → (validate_unix_socket_path path ≡ ok tt) ↔ IsSocketPath path
unfolding validate_unix_socket_path
validate_unix_socket_path_lem [] = ((λ h. absurd (cc)), λ v. absurd (cc (v.absolute)))
validate_unix_socket_path_lem (x ∷ s) = (
  (λ h. record {
    absolute = ground arith;
    fits = ground arith;
    names_file = ground arith;
    no_dot_dot = ground (arith, path_contains_dot_dot_lem (x ∷ s));
  }),
  (λ v. ground (
    arith,
    v.absolute,
    v.fits,
    v.names_file,
    v.no_dot_dot,
    path_contains_dot_dot_lem (x ∷ s),
    not_root (x ∷ s),
  )),
)
