-- ===== src/Unix/Listen.antt =====
-- src/unix/unix_socket.cpp: preparing a socket's path, and removing the socket. The calls of the
-- system are an interface over an arbitrary state; `unlinked` lists the paths that were unlinked,
-- last first. Log lines are left out.
use mtdd_server.Base.{
  ℕ, zero, suc, Bytes, codes, Bool, true, not, Option, none, some, List, ◌++◌, equal, if◌then◌else◌,
}
use mtdd_server.Unix.Path.{parent_directory}

-- errno, as far as the code tells its values apart, and std::strerror.
pub data Errno : Type 0 where
  enoent eexist : Errno
  other_error : ℕ → Errno

pub data FileType : Type 0 where
  directory socket_file other_file : FileType

-- The st_mode of a struct stat.
pub record Node : Type 0 where
  pub file_type : FileType
  pub mode : ℕ

-- What `stat` says.
pub data Found : Type 0 where
  found : Node → Found
  missing : Errno → Found

-- `stat`, `access` for W_OK | X_OK, `mkdir`, `unlink`, `chmod`, `socket` and `connect` on a path; an
-- error is the errno, and none is success.
pub record Os (W : Type 0) : Type 0 where
  pub strerror : Errno → Bytes
  pub stat : Bytes → W → Found
  pub access : Bytes → W → Option Errno
  pub mkdir : Bytes → ℕ → W → Option Errno × W
  pub unlink : Bytes → W → Option Errno × W
  pub chmod : Bytes → ℕ → W → Option Errno × W
  pub socket : W → Option Errno
  pub connects : Bytes → W → Bool

pub record World (W : Type 0) : Type 0 where
  pub system : W
  pub unlinked : List Bytes

-- How a function ends; the recursion over directories runs on fuel.
pub data Outcome {ℓ} (W : Type ℓ) : Type ℓ where
  returned : W → Outcome W
  thrown : Bytes → W → Outcome W
  out_of_fuel : Outcome W

module _ {W : Type 0} where
  -- `f` behind a function that returned.
  infixl 5 ◌|>◌
  abbrev pub ◌|>◌ : Outcome (World W) → (World W → Outcome (World W)) → Outcome (World W)
  returned w |> f = f w
  thrown what w |> f = thrown what w
  out_of_fuel |> f = out_of_fuel

-- The texts of a directory that is not writable.
abbrev pub unwritable : Bytes → Bytes
unwritable dir = codes "unix socket directory is not writable: " ++ dir ++ codes " ("

abbrev pub advice : Bytes
advice =
    codes "); ensure systemd RuntimeDirectory=mtdd or add the service user to the directory group"

abbrev pub unwritable_created : Bytes → Bytes
unwritable_created dir =
    codes "created unix socket directory is not writable: " ++ dir ++ codes " ("

module _ {W : Type 0} (os : Os W) where
  -- ErrnoMessage
  abbrev pub errno_message : Bytes → Errno → Bytes
  errno_message context e = context ++ codes ": " ++ os.strerror e

  -- A directory that is there: the second half of EnsureDirectory, with its two texts.
  abbrev pub check_access : Bytes → Bytes → Option Errno → World W → Outcome (World W)
  check_access before after none w = returned w
  check_access before after (some e) w = thrown (before ++ os.strerror e ++ after) w

  abbrev pub check_directory : Bytes → Bytes → Bytes → Node → World W → Outcome (World W)
  check_directory dir before after node w = elim node.file_type [
    | directory ↦ check_access before after (os.access dir w.system) w
    | socket_file ↦ thrown (codes "unix socket parent path is not a directory: " ++ dir) w
    | other_file ↦ thrown (codes "unix socket parent path is not a directory: " ++ dir) w
  ]

  -- Behind `mkdir`.
  abbrev pub check_created : Bytes → Found → World W → Outcome (World W)
  check_created dir (missing e) w =
      thrown (errno_message (codes "stat unix socket directory " ++ dir) e) w
  check_created dir (found node) w = check_directory dir (unwritable_created dir) (codes ")") node w

  -- The answer of `mkdir`; EEXIST is no error.
  abbrev pub made : Bytes → Option Errno × W → World W → Outcome (World W)
  made dir (none, s) w = check_created dir (os.stat dir s) (record w { system = s })
  made dir (some eexist, s) w = check_created dir (os.stat dir s) (record w { system = s })
  made dir (some enoent, s) w =
      thrown (errno_message (codes "mkdir unix socket directory " ++ dir) enoent)
        (record w { system = s })
  made dir (some (other_error n), s) w =
      thrown (errno_message (codes "mkdir unix socket directory " ++ dir) (other_error n))
        (record w { system = s })

  abbrev pub make_directory : Bytes → ℕ → World W → Outcome (World W)
  make_directory dir mode w = made dir (os.mkdir dir mode w.system) w

  -- What `stat` found first; `parents` makes the parent directory.
  abbrev pub ensure_found :
      Bytes → ℕ → Bool → (World W → Outcome (World W)) → Found → World W → Outcome (World W)
  ensure_found dir mode create parents (found node) w =
      check_directory dir (unwritable dir) advice node w
  ensure_found dir mode create parents (missing enoent) w =
      if not create
      then thrown
          (codes "unix socket directory does not exist: "
            ++ dir
            ++ codes
                " (set MTDD_UNIX_SOCKET_CREATE_DIR=1 or configure systemd RuntimeDirectory=mtdd)")
          w
      else parents w |> make_directory dir mode
  ensure_found dir mode create parents (missing eexist) w =
      thrown (errno_message (codes "stat unix socket directory " ++ dir) eexist) w
  ensure_found dir mode create parents (missing (other_error n)) w =
      thrown (errno_message (codes "stat unix socket directory " ++ dir) (other_error n)) w

  unfoldable pub ensure_directory : ℕ → Bytes → ℕ → Bool → World W → Outcome (World W)
  unfolding parent_directory
  ensure_directory zero dir mode create w = out_of_fuel
  ensure_directory (suc fuel) dir mode create w =
      let parent = parent_directory dir in
      let above = ensure_directory fuel parent mode true in
      ensure_found dir mode create (if equal parent dir then returned else above)
        (os.stat dir w.system) w
