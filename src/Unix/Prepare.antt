-- ===== src/Unix/Prepare.antt =====
-- PrepareListen of src/unix/unix_socket.cpp comes to an end, and unlinks nothing but a socket file
-- that nobody listens on.
use mtdd_server.Unix.Socket.{unlink_stale}
use mtdd_server.Unix.Socket.{stale_file}
use mtdd_server.Unix.Socket.{probed}
use mtdd_server.Unix.Socket.{is_live_unix_socket}
use mtdd_server.Base.{
  ℕ, ◌<◌, ◌≤◌, Bytes, Bool, true, false, Option, none, some, List, ◌∷◌, length, inl, inr, ◌⊎◌, ◌≡◌,
  refl, subst, ap, arith,
}
use mtdd_server.Base.Int.{uint32_cast}
use mtdd_server.Base.Results.{Result, ok, throw}
use mtdd_server.Config.{ServerConfig}
use mtdd_server.Unix.Path.{parent_directory, validate_unix_socket_path}
use mtdd_server.Unix.Path.Rules.{validate_unix_socket_path_lem}
use mtdd_server.Unix.Listen.{
  Errno, enoent, eexist, other_error, FileType, directory, socket_file, other_file, Node, Found,
  found, missing, Os, World, Outcome, returned, thrown, out_of_fuel, ◌|>◌, ensure_directory,
}
use mtdd_server.Unix.Socket.{stale_found, remove_stale_socket_file, prepare_valid, prepare_listen}
use mtdd_server.Unix.Parent.{Shortens, parent_directory_lem}
use mtdd_server.Unix.Directory.{ensure_directory-Keeps, Keeps}

module _ {W : Type 0} (os : Os W) (path : Bytes) where
  -- The file is a socket that nobody listens on.
  abbrev pub IsStale : W → Type 0
  IsStale s =
      (node : Node) × (os.stat path s ≡ found node)
      × (node.file_type ≡ socket_file)
      × (os.connects path s ≡ false)

  -- Nothing was unlinked, or the path by the last call, where the file was stale before it.
  abbrev pub UnlinksStale : List Bytes → World W → Type 0
  UnlinksStale before w =
      (w.unlinked ≡ before)
      ⊎ ((w.unlinked ≡ path ∷ before) × ((s : W) × IsStale s × (w.system ≡ (os.unlink path s).1)))

  -- The run ends. Where it throws nothing was unlinked, and where it returns there is no file at
  -- the path.
  abbrev pub Prepared : List Bytes → Outcome (World W) → Type 0
  Prepared before (returned w) = UnlinksStale before w × (os.stat path w.system ≡ missing enoent)
  Prepared before (thrown what w) = w.unlinked ≡ before
  Prepared before out_of_fuel = ⊥

module _ {W : Type 0} (os : Os W) (path : Bytes)
    (goes : (s : W)
      → (os.unlink path s).0 ≡ none
      → os.stat path (os.unlink path s).1 ≡ missing enoent) where
  unlink_stale-Prepared :
      (answer : Option Errno × W) (s : W) (w : World W)
      → IsStale os path s
      → answer ≡ os.unlink path s
      → (answer.0 ≡ none → os.stat path answer.1 ≡ missing enoent)
      → Prepared os path w.unlinked (unlink_stale os path answer w)
  unlink_stale-Prepared (none, t) s w h e g = (inr (refl, (s, h, ap (λ x. x.1) e)), g refl)
  unlink_stale-Prepared (some n, t) s w h e g = refl

  probed-Prepared :
      (answer : Result Bool) (w : World W)
      → (answer ≡ ok false → IsStale os path w.system)
      → Prepared os path w.unlinked (probed os path answer w)
  probed-Prepared (throw what) w h = refl
  probed-Prepared (ok true) w h = refl
  probed-Prepared (ok false) w h =
      unlink_stale-Prepared (os.unlink path w.system) w.system w (h refl) refl (goes w.system)

  -- The answer of the probe.
  not_live :
      (w : World W) → is_live_unix_socket os path w ≡ ok false → os.connects path w.system ≡ false
  unfolding is_live_unix_socket
  not_live w e = ground arith

  stale_file-Prepared :
      (node : Node) (file_type : FileType) (w : World W)
      → os.stat path w.system ≡ found node
      → node.file_type ≡ file_type
      → Prepared os path w.unlinked (stale_file os path file_type w)
  stale_file-Prepared node directory w e t = refl
  stale_file-Prepared node other_file w e t = refl
  stale_file-Prepared node socket_file w e t =
      probed-Prepared (is_live_unix_socket os path w) w (λ l. (node, e, t, not_live w l))

  stale_found-Prepared :
      (f : Found) (w : World W)
      → os.stat path w.system ≡ f
      → Prepared os path w.unlinked (stale_found os path f w)
  stale_found-Prepared (found node) w e = stale_file-Prepared node node.file_type w e refl
  stale_found-Prepared (missing enoent) w e = (inl refl, e)
  stale_found-Prepared (missing eexist) w e = refl
  stale_found-Prepared (missing (other_error n)) w e = refl

  behind-Prepared :
      (u : List Bytes) (o : Outcome (World W))
      → Keeps u o
      → Prepared os path u (o |> remove_stale_socket_file os path)
  unfolding remove_stale_socket_file
  behind-Prepared u (returned w) h =
      subst (λ v. Prepared os path v (stale_found os path (os.stat path w.system) w)) h
        (stale_found-Prepared (os.stat path w.system) w refl)
  behind-Prepared u (thrown what w) h = h
  behind-Prepared u out_of_fuel h = h

  within :
      (parent : Bytes) (fuel : ℕ)
      → 107 < fuel
      → length path ≤ 107
      → (parent ≡ path) ⊎ (length parent < length path)
      → length parent < fuel
  within parent fuel m l (inl e) = omega (arith, ap length e)
  within parent fuel m l (inr h) = omega arith

  valid-Prepared :
      (fuel : ℕ) (config : ServerConfig) (checked : Result (Unit {0})) (w : World W)
      → 107 < fuel
      → config.unix_socket_path ≡ path
      → validate_unix_socket_path path ≡ checked
      → Prepared os path w.unlinked
          (prepare_valid os fuel (record config { unix_socket_path = path }) checked w)
  valid-Prepared fuel config (throw what) w m p e = refl
  valid-Prepared fuel config (ok u) w m p e =
      let v = (validate_unix_socket_path_lem path).0 e in
      let parent = parent_directory path in
      let h : Shortens parent path = parent_directory_lem path v.absolute in
      let mode = uint32_cast config.unix_socket_dir_mode in
      let create = config.unix_socket_create_dir in
      behind-Prepared w.unlinked (ensure_directory os fuel parent mode create w) (
        ensure_directory-Keeps os w.unlinked fuel parent mode create w h.0
          (within parent fuel m v.fits h.1) refl)

module _ {W : Type 0} (os : Os W) where
  -- If a path that was unlinked is no longer there, PrepareListen comes to an end with a fuel of
  -- more than 107, whatever else the system answers. Where it throws, it has unlinked nothing.
  -- Where it returns, nothing is at the socket's path, and it has unlinked nothing or, by its last
  -- call, this path, where a socket was that nobody was listening on.
  pub prepare_listen-Prepared :
      (fuel : ℕ) (config : ServerConfig) (w : World W)
      → ((s : W)
          → (os.unlink config.unix_socket_path s).0 ≡ none
          → os.stat config.unix_socket_path (os.unlink config.unix_socket_path s).1
            ≡ missing enoent)
      → 107 < fuel
      → Prepared os config.unix_socket_path w.unlinked (prepare_listen os fuel config w)
  unfolding prepare_listen
  prepare_listen-Prepared fuel config w goes m =
      valid-Prepared os config.unix_socket_path goes fuel config
        (validate_unix_socket_path config.unix_socket_path) w m refl refl
