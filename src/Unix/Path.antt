-- ===== src/Unix/Path.antt =====
-- The static path rules of src/unix/unix_socket.cpp, which need no filesystem.
pub mod Rules
use mtdd_server.Base.{
  ℕ, ◌-◌, Bytes, codes, Bool, ◌&&◌, ◌||◌, Option, none, some, zero, suc, length, take, drop, leb,
  ltb, ◌==◌, equal, rfind, starts_with, contains_text, ends_in, if◌then◌else◌, is_empty, not, ◌∷◌,
  [], ◌++◌, true, false, refl, ◌≡◌,
}
use mtdd_server.Base.Results.{Result, ok, throw, throw_if, ◌>>=◌, ◌>>◌}
use mtdd_server.Base.Decimal.{to_string}

-- kMaxUnixPathLength
abbrev pub max_unix_path_length : ℕ
max_unix_path_length = 107

-- The test on `pos` in `ParentDirectory`.
abbrev pub parent_up_to : Option ℕ → Bytes → Bytes
parent_up_to none path = codes "/"
parent_up_to (some zero) path = codes "/"
parent_up_to (some (suc pos)) path = take (suc pos) path

unfoldable pub parent_directory : Bytes → Bytes
unfolding rfind
parent_directory path = parent_up_to (rfind b'/' path) path

unfoldable pub path_contains_dot_dot : Bytes → Bool
path_contains_dot_dot path =
    equal path (codes "..")
    || starts_with (codes "../") path
    || contains_text (codes "/../") path
    || leb 3 (length path) && equal (drop (length path - 3) path) (codes "/..")

-- path[0] != '/'
abbrev pub is_relative : Bytes → Bool
is_relative [] = true
is_relative (c ∷ s) = not (c == b'/')

unfoldable pub validate_unix_socket_path : Bytes → Result (Unit {0})
validate_unix_socket_path path = do
  throw_if (is_empty path) (codes "unix socket path must not be empty")
  throw_if (is_relative path) (codes "unix socket path must be absolute")
  throw_if (ltb max_unix_path_length (length path)) (
      codes "unix socket path exceeds "
      ++ to_string max_unix_path_length
      ++ codes " bytes (Linux sockaddr_un limit): "
      ++ path)
  throw_if (ends_in b'/' path) (codes "unix socket path must not end with '/': " ++ path)
  throw_if (equal path (codes "/"))
      (codes "unix socket path must name a socket file, not the filesystem root")
  throw_if (path_contains_dot_dot path)
      (codes "unix socket path must not contain '..' components: " ++ path)

test_parent : parent_directory (codes "/run/mtdd/grpc.sock") ≡ codes "/run/mtdd"
unfolding parent_directory
test_parent = refl

test_dots : path_contains_dot_dot (codes "/run/../x") ≡ true
unfolding path_contains_dot_dot equal starts_with contains_text
test_dots = refl
