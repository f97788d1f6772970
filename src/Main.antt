-- ===== src/Main.antt =====
-- src/main.cpp: main, from the configuration to the exit code, and the signal handler. gRPC is an
-- interface on the state of the system. What happens during Wait, calls of the services and
-- signals, is a list, and gRPC says whether Wait returns from it. Log lines are left out. The services are in the modules Shard and Notify.
pub mod Listener
mod Tests
use mtdd_server.Base.{
  ℕ, Bytes, Bool, true, false, not, ◌||◌, Option, none, some, List, [], ◌∷◌, if◌then◌else◌,
}
use mtdd_server.Base.Int.{ℤ, pos}
use mtdd_server.Base.Results.{Result, ok, throw}
use mtdd_server.Config.{ServerConfig, ListenMode}
use mtdd_server.Config.Listen.{format_listen_target}
use mtdd_server.Config.Load.{Env, load_config_from_env, is_unix}
use mtdd_server.Health.Monitor.{Monitor, make_monitor, attach_server, set_serving_without_pg, stop}
use mtdd_server.Unix.Listen.{Os, World, Outcome, returned, thrown, out_of_fuel}
use mtdd_server.Unix.Socket.{ScopedListen, make_scoped, prepare, finalize, abort, destroy}

-- The services that may be registered.
pub data Service : Type 0 where
  shard notify : Service

-- grpc::ServerBuilder, and the two settings of the process: the default health check service, and
-- the plugin for reflection.
pub record Builder : Type 0 where
  pub health_check : Bool
  pub reflection : Bool
  pub listening_port : Bytes
  pub services : List Service
  pub num_cqs : ℤ
  pub min_pollers : ℤ
  pub max_pollers : ℤ

-- During Wait, calls of the services change the monitor and the system, and signals come.
pub data Happening (W : Type 0) : Type 0 where
  works : (Monitor → W → Monitor × W) → Happening W
  signalled : Happening W

-- BuildAndStart, which gives a server or null; what happens during Wait, and whether Wait returns
-- behind it; and Server::Shutdown.
pub record Grpc (W : Type 0) : Type 0 where
  pub build_and_start : Builder → W → Bool × W
  pub happenings : W → List (Happening W)
  pub wait_returns : List (Happening W) → Bool
  pub shutdown : W → W

-- The builder behind the `RegisterService` and `SetSyncServerOption` calls.
unfoldable pub builder_of : ServerConfig → Builder
builder_of config = record {
  health_check = true;
  reflection = config.grpc_reflection;
  listening_port = format_listen_target config;
  services = shard ∷ (if config.notify_enabled then notify ∷ [] else []);
  num_cqs = config.grpc_max_threads;
  min_pollers = pos 1;
  max_pollers = config.grpc_max_threads;
}

-- g_health_monitor and g_server, which may be null.
pub record Globals : Type 0 where
  pub health_monitor : Option Monitor
  pub has_server : Bool

abbrev pub stop_monitor : Option Monitor → Option Monitor
stop_monitor none = none
stop_monitor (some m) = some (stop m)

-- HandleSignal
unfoldable pub handle_signal : {W : Type 0} → Grpc W → Globals → W → Globals × W
handle_signal grpc g w = (
  record g { health_monitor = stop_monitor g.health_monitor },
  if g.has_server then grpc.shutdown w else w,
)

-- How the process ends: with its exit code, and the monitor where the server ran. It does not end
-- where Wait does not return.
pub data Exit (W : Type 0) : Type 0 where
  exits : ℕ → Option Monitor → World W → Exit W
  serves_on : Exit W
  no_fuel : Exit W

module _ {W : Type 0} (os : Os W) where
  -- `g_unix_listen.reset()`
  abbrev pub reset : Option ScopedListen → World W → World W
  reset none w = w
  reset (some l) w = destroy os l w

  -- Abort and reset, and the exit code 1: behind a null server, and in the handler.
  abbrev pub failed : Option ScopedListen → World W → Exit W
  failed none w = exits 1 none w
  failed (some l) w = let (w', l') = abort os l w in exits 1 none (destroy os l' w')

  -- Behind Wait. The monitor is stopped before the socket goes.
  abbrev pub waited : Option ScopedListen → World W → Bool → Globals × W → Exit W
  waited listen w false (g, s) = serves_on
  waited listen w true (g, s) =
      exits 0 (stop_monitor g.health_monitor) (reset listen (record w { system = s }))

-- The monitor that Wait begins with.
abbrev pub attached : ServerConfig → Monitor
attached config =
    let m = attach_server (make_monitor true config.health_probe_interval_sec) in
    if not config.health_require_pg then set_serving_without_pg m else m

-- A call of a service reaches the monitor through its own pointer.
abbrev at_work :
    {W : Type 0} → (Monitor → W → Monitor × W) → Globals → Option Monitor → W → Globals × W
at_work f g none s = (g, s)
at_work f g (some m) s = let (m', s') = f m s in (record g { health_monitor = some m' }, s')

module _ {W : Type 0} (grpc : Grpc W) where
  abbrev pub happen : Happening W → Globals → W → Globals × W
  happen (works f) g s = at_work f g g.health_monitor s
  happen signalled g s = handle_signal grpc g s

  unfoldable pub during_wait : List (Happening W) → Globals → W → Globals × W
  unfolding handle_signal
  during_wait [] g s = (g, s)
  during_wait (h ∷ hs) g s = let (g', s') = happen h g s in during_wait hs g' s'

module _ {W : Type 0} (os : Os W) (grpc : Grpc W) where
  -- Behind Finalize.
  unfoldable pub serve : ServerConfig → Option ScopedListen → World W → Exit W
  unfolding during_wait
  serve config listen w =
      let hs = grpc.happenings w.system in
      waited os listen w (grpc.wait_returns hs) (
        during_wait grpc hs (record { health_monitor = some (attached config); has_server = true })
          w.system)

  abbrev pub finalized : ServerConfig → Outcome (World W) × ScopedListen → Exit W
  finalized config (returned w, l) = serve config (some l) w
  finalized config (thrown what w, l) = failed os (some l) w
  finalized config (out_of_fuel, l) = no_fuel

  -- Behind BuildAndStart.
  abbrev pub started : ServerConfig → Option ScopedListen → World W → Exit W
  started config none w = serve config none w
  started config (some l) w = finalized config (finalize os l w)

  abbrev pub built : ServerConfig → Option ScopedListen → Bool × W → World W → Exit W
  built config listen (true, s) w = started config listen (record w { system = s })
  built config listen (false, s) w = failed os listen (record w { system = s })

  abbrev pub build : ServerConfig → Option ScopedListen → World W → Exit W
  build config listen w = built config listen (grpc.build_and_start (builder_of config) w.system) w

  -- Behind Prepare.
  abbrev pub prepared : ServerConfig → Outcome (World W) × ScopedListen → Exit W
  prepared config (returned w, l) = build config (some l) w
  prepared config (thrown what w, l) = failed os (some l) w
  prepared config (out_of_fuel, l) = no_fuel

  abbrev pub configured : ℕ → ServerConfig → World W → Exit W
  configured fuel config w =
      if is_unix config.listen_mode
      then prepared config (prepare os fuel (make_scoped config) w)
      else build config none w

  abbrev pub loaded : ℕ → Result ServerConfig → World W → Exit W
  loaded fuel (throw what) w = exits 1 none w
  loaded fuel (ok config) w = configured fuel config w

  unfoldable pub main : ℕ → Env → ℕ → World W → Exit W
  unfolding prepare finalize abort destroy builder_of serve
  main fuel env hardware_concurrency w =
      loaded fuel (load_config_from_env env hardware_concurrency) w
