-- ===== src/Unix/Socket.antt =====
-- src/unix/unix_socket.cpp: the socket file, from PrepareListen to CleanupListen, and ScopedListen.
use mtdd_server.Base.{
  ℕ, Bytes, codes, Bool, true, false, not, ◌&&◌, Option, none, some, ◌∷◌, ◌++◌, leb, length,
  if◌then◌else◌,
}
use mtdd_server.Base.Int.{uint32_cast}
use mtdd_server.Base.Results.{Result, ok, throw}
use mtdd_server.Config.{ServerConfig}
use mtdd_server.Unix.Path.{parent_directory, validate_unix_socket_path}
use mtdd_server.Unix.Listen.{
  Errno, enoent, FileType, directory, socket_file, other_file, Found, found, missing, Os, World,
  Outcome, returned, thrown, out_of_fuel, ◌|>◌, errno_message, ensure_directory,
}

module _ {W : Type 0} (os : Os W) where
  -- IsLiveUnixSocket: an error, or the answer. sizeof(sun_path) is 108.
  unfoldable pub is_live_unix_socket : Bytes → World W → Result Bool
  is_live_unix_socket path w = elim (os.socket w.system) [
    | some e ↦ throw (errno_message os (codes "socket(AF_UNIX) probe failed") e)
    | none ↦
        if leb 108 (length path)
        then throw (codes "unix socket path too long for sockaddr_un probe: " ++ path)
        else ok (os.connects path w.system)
  ]

  -- The call of `unlink`.
  abbrev pub unlinked_by : Bytes → Option Errno × W → World W → World W
  unlinked_by path (none, s) w = record { system = s; unlinked = path ∷ w.unlinked }
  unlinked_by path (some e, s) w = record w { system = s }

  abbrev pub unlink_stale : Bytes → Option Errno × W → World W → Outcome (World W)
  unlink_stale path (none, s) w = returned (unlinked_by path (none, s) w)
  unlink_stale path (some e, s) w =
      thrown (errno_message os (codes "unlink stale unix socket " ++ path) e)
        (unlinked_by path (some e, s) w)

  -- Behind the probe.
  abbrev pub probed : Bytes → Result Bool → World W → Outcome (World W)
  probed path (throw what) w = thrown what w
  probed path (ok true) w =
      thrown
        (codes "another process is already listening on unix socket: "
          ++ path
          ++ codes " (stop the other mtdd_server instance or choose a different MTDD_LISTEN path)")
        w
  probed path (ok false) w = unlink_stale path (os.unlink path w.system) w

  -- Behind `stat`, by the type of the file.
  abbrev pub stale_file : Bytes → FileType → World W → Outcome (World W)
  stale_file path directory w = thrown (codes "unix socket path is a directory: " ++ path) w
  stale_file path other_file w =
      thrown
        (codes "unix socket path is occupied by a non-socket file: "
          ++ path
          ++ codes " (remove it or choose a different MTDD_LISTEN path)")
        w
  stale_file path socket_file w = probed path (is_live_unix_socket path w) w

  abbrev pub stale_found : Bytes → Found → World W → Outcome (World W)
  stale_found path (found node) w = stale_file path node.file_type w
  stale_found path (missing enoent) w = returned w
  stale_found path (missing e) w = thrown (errno_message os (codes "stat unix socket " ++ path) e) w

  unfoldable pub remove_stale_socket_file : Bytes → World W → Outcome (World W)
  unfolding is_live_unix_socket
  remove_stale_socket_file path w = stale_found path (os.stat path w.system) w

  -- The mode is only compared for a log line.
  abbrev pub verified : Bytes → Found → World W → Outcome (World W)
  verified path (missing e) w =
      thrown (errno_message os (codes "stat bound unix socket " ++ path) e) w
  verified path (found node) w = elim node.file_type [
    | socket_file ↦ returned w
    | directory ↦ thrown (codes "expected unix socket after bind, found non-socket at: " ++ path) w
    | other_file ↦ thrown (codes "expected unix socket after bind, found non-socket at: " ++ path) w
  ]

  unfoldable pub verify_socket_node : Bytes → World W → Outcome (World W)
  verify_socket_node path w = verified path (os.stat path w.system) w

  -- Behind ValidateUnixSocketPath.
  abbrev pub prepare_valid : ℕ → ServerConfig → Result (Unit {0}) → World W → Outcome (World W)
  prepare_valid fuel config (throw what) w = thrown what w
  prepare_valid fuel config (ok u) w =
      ensure_directory os fuel (parent_directory config.unix_socket_path)
        (uint32_cast config.unix_socket_dir_mode) config.unix_socket_create_dir w
      |> remove_stale_socket_file config.unix_socket_path

  unfoldable pub prepare_listen : ℕ → ServerConfig → World W → Outcome (World W)
  unfolding remove_stale_socket_file
  prepare_listen fuel config w =
      prepare_valid fuel config (validate_unix_socket_path config.unix_socket_path) w

  -- The answer of `chmod`.
  abbrev pub chmod_done : Bytes → Option Errno × W → World W → Outcome (World W)
  chmod_done path (some e, s) w =
      thrown (errno_message os (codes "chmod unix socket " ++ path) e) (record w { system = s })
  chmod_done path (none, s) w = verify_socket_node path (record w { system = s })

  unfoldable pub finalize_listen : ServerConfig → World W → Outcome (World W)
  unfolding verify_socket_node
  finalize_listen config w =
      chmod_done config.unix_socket_path
        (os.chmod config.unix_socket_path (uint32_cast config.unix_socket_mode) w.system) w

  -- By what `stat` found; every failure is only logged.
  abbrev pub clean : Bytes → Found → World W → World W
  clean path (missing e) w = w
  clean path (found node) w = elim node.file_type [
    | socket_file ↦ unlinked_by path (os.unlink path w.system) w
    | directory ↦ w
    | other_file ↦ w
  ]

  unfoldable pub cleanup_listen : Bytes → World W → World W
  cleanup_listen path w = clean path (os.stat path w.system) w

-- ScopedListen
pub record ScopedListen : Type 0 where
  pub config : ServerConfig
  pub prepared : Bool
  pub finalized : Bool

abbrev pub make_scoped : ServerConfig → ScopedListen
make_scoped config = record { config = config; prepared = false; finalized = false }

module _ {W : Type 0} where
  -- The member is set where the call before it returned.
  abbrev pub set_behind :
      ScopedListen → ScopedListen → Outcome (World W) → Outcome (World W) × ScopedListen
  set_behind after before (returned w) = (returned w, after)
  set_behind after before (thrown what w) = (thrown what w, before)
  set_behind after before out_of_fuel = (out_of_fuel, before)

module _ {W : Type 0} (os : Os W) where
  unfoldable pub prepare : ℕ → ScopedListen → World W → Outcome (World W) × ScopedListen
  unfolding prepare_listen
  prepare fuel l w = set_behind (record l { prepared = true }) l (prepare_listen os fuel l.config w)

  unfoldable pub finalize : ScopedListen → World W → Outcome (World W) × ScopedListen
  unfolding finalize_listen
  finalize l w =
      if not l.prepared
      then (thrown (codes "ScopedListen::Finalize called before Prepare") w, l)
      else set_behind (record l { finalized = true }) l (finalize_listen os l.config w)

  unfoldable pub abort : ScopedListen → World W → World W × ScopedListen
  unfolding cleanup_listen
  abort l w =
      if l.prepared && not l.finalized
      then (cleanup_listen os l.config.unix_socket_path w, record l { prepared = false })
      else (w, l)

  -- The destructor.
  unfoldable pub destroy : ScopedListen → World W → World W
  unfolding cleanup_listen
  destroy l w = if l.finalized then cleanup_listen os l.config.unix_socket_path w else w
