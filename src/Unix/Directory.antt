-- ===== src/Unix/Directory.antt =====
-- EnsureDirectory of src/unix/unix_socket.cpp comes to an end, and unlinks nothing.
use mtdd_server.Base.{
  ℕ, zero, suc, ◌<◌, Bytes, codes, Bool, true, false, Option, none, some, List, length, equal,
  equal_refl, if◌then◌else◌, Bool-cases, inl, inr, ◌⊎◌, ◌≡◌, sym, ap, ◌∙◌, arith,
}
use mtdd_server.Unix.Path.{parent_directory, is_relative}
use mtdd_server.Unix.Listen.{
  Errno, enoent, eexist, other_error, FileType, directory, socket_file, other_file, Found, found,
  missing, Os, World, Outcome, returned, thrown, out_of_fuel, ◌|>◌, check_access, check_directory,
  check_created, unwritable, unwritable_created, advice, made, make_directory, ensure_found,
  ensure_directory,
}
use mtdd_server.Unix.Parent.{Shortens, parent_directory_lem}

-- The run ends, by a return or by an exception, and these are the paths unlinked then.
abbrev pub Keeps : {W : Type 0} → List Bytes → Outcome (World W) → Type 0
Keeps u (returned w) = w.unlinked ≡ u
Keeps u (thrown what w) = w.unlinked ≡ u
Keeps u out_of_fuel = ⊥

module _ {W : Type 0} (os : Os W) (u : List Bytes) where
  then-Keeps :
      (o : Outcome (World W)) (f : World W → Outcome (World W))
      → Keeps u o
      → ((w : World W) → w.unlinked ≡ u → Keeps u (f w))
      → Keeps u (o |> f)
  then-Keeps (returned w) f h k = k w h
  then-Keeps (thrown what w) f h k = h
  then-Keeps out_of_fuel f h k = h

  check_access-Keeps :
      (before after : Bytes) (answer : Option Errno) (w : World W)
      → w.unlinked ≡ u
      → Keeps u (check_access os before after answer w)
  check_access-Keeps before after none w e = e
  check_access-Keeps before after (some n) w e = e

  check_directory-Keeps :
      (dir before after : Bytes) (file_type : FileType) (mode : ℕ) (w : World W)
      → w.unlinked ≡ u
      → Keeps u
          (check_directory os dir before after (record { file_type = file_type; mode = mode }) w)
  check_directory-Keeps dir before after directory mode w e =
      check_access-Keeps before after (os.access dir w.system) w e
  check_directory-Keeps dir before after socket_file mode w e = e
  check_directory-Keeps dir before after other_file mode w e = e

  check_created-Keeps :
      (dir : Bytes) (f : Found) (w : World W) → w.unlinked ≡ u → Keeps u (check_created os dir f w)
  check_created-Keeps dir (missing n) w e = e
  check_created-Keeps dir (found node) w e =
      check_directory-Keeps dir (unwritable_created dir) (codes ")") node.file_type node.mode w e

  made-Keeps :
      (dir : Bytes) (answer : Option Errno × W) (w : World W)
      → w.unlinked ≡ u
      → Keeps u (made os dir answer w)
  made-Keeps dir (none, s) w e = check_created-Keeps dir (os.stat dir s) (record w { system = s }) e
  made-Keeps dir (some eexist, s) w e =
      check_created-Keeps dir (os.stat dir s) (record w { system = s }) e
  made-Keeps dir (some enoent, s) w e = e
  made-Keeps dir (some (other_error n), s) w e = e

  ensure_found-Keeps :
      (dir : Bytes) (mode : ℕ) (create : Bool) (parents : World W → Outcome (World W)) (f : Found)
      (w : World W)
      → w.unlinked ≡ u
      → ((v : World W) → v.unlinked ≡ u → Keeps u (parents v))
      → Keeps u (ensure_found os dir mode create parents f w)
  ensure_found-Keeps dir mode create parents (found node) w e h =
      check_directory-Keeps dir (unwritable dir) advice node.file_type node.mode w e
  ensure_found-Keeps dir mode false parents (missing enoent) w e h = e
  ensure_found-Keeps dir mode true parents (missing enoent) w e h =
      then-Keeps (parents w) (make_directory os dir mode) (h w e)
        (λ v f. made-Keeps dir (os.mkdir dir mode v.system) v f)
  ensure_found-Keeps dir mode create parents (missing eexist) w e h = e
  ensure_found-Keeps dir mode create parents (missing (other_error n)) w e h = e

  shorter :
      (parent dir : Bytes) (fuel : ℕ)
      → equal parent dir ≡ false
      → (parent ≡ dir) ⊎ (length parent < length dir)
      → length dir < suc fuel
      → length parent < fuel
  shorter parent dir fuel e (inl p) m =
      absurd (cc (sym (equal_refl parent) ∙ ap (equal parent) p, e))
  shorter parent dir fuel e (inr p) m = omega arith

  pub ensure_directory-Keeps :
      (fuel : ℕ) (dir : Bytes) (mode : ℕ) (create : Bool) (w : World W)
      → is_relative dir ≡ false
      → length dir < fuel
      → w.unlinked ≡ u
      → Keeps u (ensure_directory os fuel dir mode create w)
  unfolding ensure_directory
  ensure_directory-Keeps zero dir mode create w a m e = absurd (omega arith)
  ensure_directory-Keeps (suc fuel) dir mode create w a m e =
      let parent = parent_directory dir in
      let p : Shortens parent dir = parent_directory_lem dir a in
      let above = ensure_directory os fuel parent mode true in
      ensure_found-Keeps dir mode create (if equal parent dir then returned else above)
        (os.stat dir w.system) w e
        (λ v f. elim (Bool-cases (equal parent dir)) [
          | inl t ↦ rw t f
          | inr t ↦ rw t (
              ensure_directory-Keeps fuel parent mode true v p.0 (shorter parent dir fuel t p.1 m)
                f)
        ])
