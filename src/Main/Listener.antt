-- ===== src/Main/Listener.antt =====
-- However main (src/main.cpp) ends, it leaves no socket file of its own.
use mtdd_server.Base.{◌∷◌}
use mtdd_server.Unix.Socket.{unlinked_by}
use mtdd_server.Base.{
  ℕ, ◌<◌, [], ◌∷◌, Bytes, Bool, true, false, Option, none, some, List, ◌⊎◌, inl, inr, ◌≡◌, ◌≢◌,
  refl,
}
use mtdd_server.Base.Results.{ok}
use mtdd_server.Config.{ServerConfig}
use mtdd_server.Config.Load.{Env, load_config_from_env, is_unix}
use mtdd_server.Unix.Listen.{
  Errno, enoent, FileType, directory, socket_file, other_file, Node, Found, found, missing, Os,
  World, Outcome, returned, thrown, out_of_fuel,
}
use mtdd_server.Unix.Socket.{
  ScopedListen, set_behind, clean, cleanup_listen, unlinked_by, verified, verify_socket_node,
  chmod_done, prepare_listen, finalize_listen, prepare, finalize, abort, destroy,
}
use mtdd_server.Unix.Prepare.{Prepared, prepare_listen-Prepared}
use mtdd_server.Main.{
  Happening, works, signalled, Globals, during_wait, waited, serve, attached, serves_on, Grpc, Exit,
  exits, no_fuel, failed, finalized, built, prepared, main,
}

-- A signal is among what happens.
abbrev pub is_signalled : {W : Type 0} → List (Happening W) → Bool
is_signalled [] = false
is_signalled (works f ∷ hs) = is_signalled hs
is_signalled (signalled ∷ hs) = true

module _ {W : Type 0} (os : Os W) (path : Bytes) where
  -- What is at the path is not a socket.
  abbrev pub HasNoSocket : W → Type 0
  HasNoSocket s = (node : Node) → os.stat path s ≡ found node → node.file_type ≢ socket_file

  -- The process ends: the server never listened, with code 1 and nothing unlinked, or no socket
  -- is left at the path.
  abbrev pub LeavesNoSocket : List Bytes → Exit W → Type 0
  LeavesNoSocket before (exits code m w) =
      ((code ≡ 1) × (w.unlinked ≡ before)) ⊎ HasNoSocket w.system
  LeavesNoSocket before serves_on = ⊥
  LeavesNoSocket before no_fuel = ⊥

module _ {W : Type 0} (os : Os W) (config : ServerConfig)
    (unlinks : (s : W) (node : Node)
      → os.stat config.unix_socket_path s ≡ found node
      → node.file_type ≡ socket_file
      → (os.unlink config.unix_socket_path s).0 ≡ none)
    (goes : (s : W)
      → (os.unlink config.unix_socket_path s).0 ≡ none
      → os.stat config.unix_socket_path (os.unlink config.unix_socket_path s).1
        ≡ missing enoent) where
  abbrev path : Bytes
  path = config.unix_socket_path

  gone : (s : W) → os.stat path s ≡ missing enoent → HasNoSocket os path s
  gone s e node f t = cc

  unlinked-HasNoSocket :
      (w : World W) (answer : Option Errno × W)
      → (answer.0 ≡ none)
      → os.stat path answer.1 ≡ missing enoent
      → HasNoSocket os path (unlinked_by os path answer w).system
  unlinked-HasNoSocket w (none, s) e f = gone s f
  unlinked-HasNoSocket w (some n, s) e f = absurd cc

  cleaned-HasNoSocket :
      (node : Node) (file_type : FileType) (w : World W)
      → os.stat path w.system ≡ found node
      → node.file_type ≡ file_type
      → HasNoSocket os path (clean os path (found (record node { file_type = file_type })) w).system
  cleaned-HasNoSocket node socket_file w e t =
      let done_ = unlinks w.system node e t in
      unlinked-HasNoSocket w (os.unlink path w.system) done_ (goes w.system done_)
  cleaned-HasNoSocket node directory w e t = λ other f s. cc
  cleaned-HasNoSocket node other_file w e t = λ other f s. cc

  found-HasNoSocket :
      (f : Found) (w : World W)
      → os.stat path w.system ≡ f
      → HasNoSocket os path (clean os path f w).system
  found-HasNoSocket (missing n) w e = λ node f t. cc
  found-HasNoSocket (found node) w e = cleaned-HasNoSocket node node.file_type w e refl

  cleanup_listen-HasNoSocket : (w : World W) → HasNoSocket os path (cleanup_listen os path w).system
  unfolding cleanup_listen
  cleanup_listen-HasNoSocket w = found-HasNoSocket (os.stat path w.system) w refl

  -- A listener in its states.
  abbrev listener : Bool → Bool → ScopedListen
  listener prepared finalized = record {
    config = config;
    prepared = prepared;
    finalized = finalized;
  }

  failed-prepared :
      (u : List Bytes) (w : World W)
      → LeavesNoSocket os path u (failed os (some (listener true false)) w)
  unfolding abort destroy
  failed-prepared u w = inr (cleanup_listen-HasNoSocket w)

  failed-new :
      (u : List Bytes) (w : World W)
      → w.unlinked ≡ u
      → LeavesNoSocket os path u (failed os (some (listener false false)) w)
  unfolding abort destroy
  failed-new u w e = inl (refl, e)

  -- FinalizeListen has no loop.
  abbrev Comes : Outcome (World W) → Type 0
  Comes (returned w) = Unit
  Comes (thrown what w) = Unit
  Comes out_of_fuel = ⊥

  verified-Comes :
      (file_type : FileType) (mode : ℕ) (w : World W)
      → Comes (verified os path (found (record { file_type = file_type; mode = mode })) w)
  verified-Comes socket_file mode w = tt
  verified-Comes directory mode w = tt
  verified-Comes other_file mode w = tt

  verified_found-Comes : (f : Found) (w : World W) → Comes (verified os path f w)
  verified_found-Comes (missing n) w = tt
  verified_found-Comes (found node) w = verified-Comes node.file_type node.mode w

  chmod_done-Comes : (answer : Option Errno × W) (w : World W) → Comes (chmod_done os path answer w)
  unfolding verify_socket_node
  chmod_done-Comes (some n, s) w = tt
  chmod_done-Comes (none, s) w = verified_found-Comes (os.stat path s) (record w { system = s })

  module _ (grpc : Grpc W) (u : List Bytes)
      (ends : (s : W) → grpc.wait_returns (grpc.happenings s) ≡ true) where
    waited-LeavesNoSocket :
        (w : World W) (returns : Bool) (left : Globals × W)
        → returns ≡ true
        → LeavesNoSocket os path u (waited os (some (listener true true)) w returns left)
    unfolding destroy
    waited-LeavesNoSocket w true (g, s) e = inr (cleanup_listen-HasNoSocket _)
    waited-LeavesNoSocket w false left e = absurd cc

    finalized-LeavesNoSocket :
        (o : Outcome (World W))
        → Comes o
        → LeavesNoSocket os path u
            (finalized os grpc config (set_behind (listener true true) (listener true false) o))
    unfolding serve
    finalized-LeavesNoSocket (returned w) c =
        let g : Globals = record { health_monitor = some (attached config); has_server = true } in
        let hs = grpc.happenings w.system in
        waited-LeavesNoSocket w (grpc.wait_returns hs) (during_wait grpc hs g w.system)
          (ends w.system)
    finalized-LeavesNoSocket (thrown what w) c = failed-prepared u w
    finalized-LeavesNoSocket out_of_fuel c = absurd c

    built-LeavesNoSocket :
        (answer : Bool × W) (w : World W)
        → LeavesNoSocket os path u (built os grpc config (some (listener true false)) answer w)
    unfolding finalize finalize_listen
    built-LeavesNoSocket (false, s) w = failed-prepared u (record w { system = s })
    built-LeavesNoSocket (true, s) w =
        finalized-LeavesNoSocket (finalize_listen os config (record w { system = s }))
          (chmod_done-Comes (os.chmod path _ s) (record w { system = s }))

    prepared-LeavesNoSocket :
        (o : Outcome (World W))
        → Prepared os path u o
        → LeavesNoSocket os path u
            (prepared os grpc config (set_behind (listener true false) (listener false false) o))
    prepared-LeavesNoSocket (returned w) h = built-LeavesNoSocket _ w
    prepared-LeavesNoSocket (thrown what w) h = failed-new u w h
    prepared-LeavesNoSocket out_of_fuel h = absurd h

module _ {W : Type 0} (os : Os W) (grpc : Grpc W) where
  -- For a configuration that loads and listens on a unix socket, if unlinking the socket's path
  -- succeeds where a socket is there, and leaves nothing there where it succeeds, a signal comes
  -- while the server runs, and Wait returns once a handler has called Shutdown, main with a fuel
  -- of more than 107 comes to an end, whatever else the system, gRPC and the calls of the services
  -- do: either with code 1 and nothing unlinked, or with no socket at the path.
  pub main-LeavesNoSocket :
      (fuel : ℕ) (env : Env) (hardware_concurrency : ℕ) (config : ServerConfig) (w : World W)
      → load_config_from_env env hardware_concurrency ≡ ok config
      → is_unix config.listen_mode ≡ true
      → ((s : W) (node : Node)
          → os.stat config.unix_socket_path s ≡ found node
          → node.file_type ≡ socket_file
          → (os.unlink config.unix_socket_path s).0 ≡ none)
      → ((s : W)
          → (os.unlink config.unix_socket_path s).0 ≡ none
          → os.stat config.unix_socket_path (os.unlink config.unix_socket_path s).1
            ≡ missing enoent)
      → ((hs : List (Happening W)) → is_signalled hs ≡ true → grpc.wait_returns hs ≡ true)
      → ((s : W) → is_signalled (grpc.happenings s) ≡ true)
      → 107 < fuel
      → LeavesNoSocket os config.unix_socket_path w.unlinked
          (main os grpc fuel env hardware_concurrency w)
  unfolding main prepare
  main-LeavesNoSocket fuel env n config w l u unlinks goes returns signals m =
      rw (l, u)
        (prepared-LeavesNoSocket os config unlinks goes grpc w.unlinked
          (λ s. returns (grpc.happenings s) (signals s)) (prepare_listen os fuel config w)
          (prepare_listen-Prepared os fuel config w goes m))
