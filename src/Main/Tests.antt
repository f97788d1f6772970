-- ===== src/Main/Tests.antt =====
-- The theorem on main at an empty environment, and on a small system whose state is whether the
-- socket file is there.
use mtdd_server.Base.{
  ◌<◌, Bytes, codes, Bool, true, false, none, some, [], equal, starts_with, contains_text, ends_in,
  rfind, if◌then◌else◌, ◌≡◌, refl, arith,
}
use mtdd_server.Base.Int
use mtdd_server.Base.Int.{pos}
use mtdd_server.Base.Decimal
use mtdd_server.Base.Results.{ok}
use mtdd_server.Config.{ServerConfig, default_config}
use mtdd_server.Config.Load
use mtdd_server.Config.Load.{Env, load_config_from_env}
use mtdd_server.Config.Listen
use mtdd_server.Config.Parse
use mtdd_server.Unix.Path
use mtdd_server.Unix.Listen.{
  enoent, eexist, directory, socket_file, Node, found, missing, Os, World,
}
use mtdd_server.Main.{Grpc, works, signalled, main}
use mtdd_server.Base.{◌∷◌}
use mtdd_server.Main.Listener.{is_signalled, LeavesNoSocket, main-LeavesNoSocket}

abbrev sock : Bytes
sock = codes "/run/mtdd/grpc.sock"

abbrev node_of : Bool → Node
node_of true = record { file_type = socket_file; mode = 0o660 }
node_of false = record { file_type = directory; mode = 0o750 }

abbrev os : Os Bool
os = record {
  strerror = λ e. codes "error";
  stat = λ path there.
      if equal path sock
      then (if there then found (node_of true) else missing enoent)
      else found (node_of false);
  access = λ path there. none;
  mkdir = λ path mode there. (some eexist, there);
  unlink = λ path there. (if there then none else some enoent, false);
  chmod = λ path mode there. (none, there);
  socket = λ there. none;
  connects = λ path there. false;
}

-- A server that binds the socket.
abbrev grpc : Grpc Bool
grpc = record {
  build_and_start = λ builder there. (true, true);
  happenings = λ there. works (λ monitor s. (monitor, s)) ∷ signalled ∷ [];
  wait_returns = λ hs. is_signalled hs;
  shutdown = λ there. there;
}

abbrev empty_env : Env
empty_env name = none

abbrev config : ServerConfig
config = record default_config { grpc_max_threads = pos 4; grpc_reflection = true }

loads : load_config_from_env empty_env 4 ≡ ok config
unfolding load_config_from_env Load.reject_server_tls_env equal Listen.parse_listen Load.load_fields
    Parse.parse_optional_host_index Parse.checked Decimal.strtol Decimal.scan
    Parse.parse_positive_int Parse.parse_bool_env Parse.parse_non_negative_int
    Parse.parse_octal_mode Path.validate_unix_socket_path ends_in Path.path_contains_dot_dot
    starts_with contains_text Decimal.scan_signed Decimal.skip_spaces Decimal.strtol_sign
    Int.int_cast rfind Load.reject_set Load.validate_listen_mode Load.validate_production_config
    Parse.is_production_env
loads = refl

unlinks :
    (s : Bool) (node : Node)
    → os.stat config.unix_socket_path s ≡ found node
    → node.file_type ≡ socket_file
    → (os.unlink config.unix_socket_path s).0 ≡ none
unfolding equal
unlinks true node e t = refl
unlinks false node e t = absurd cc

goes :
    (s : Bool)
    → (os.unlink config.unix_socket_path s).0 ≡ none
    → os.stat config.unix_socket_path (os.unlink config.unix_socket_path s).1 ≡ missing enoent
unfolding equal
goes s e = refl

enough : ◌<◌ 107 108
enough = omega arith

abbrev before : World Bool
before = record { system = true; unlinked = [] }

main-LeavesNoSocket_example :
    LeavesNoSocket os config.unix_socket_path [] (main os grpc 108 empty_env 4 before)
main-LeavesNoSocket_example =
    main-LeavesNoSocket os grpc 108 empty_env 4 config before loads refl unlinks goes (λ hs e. e)
      (λ s. refl) enough
