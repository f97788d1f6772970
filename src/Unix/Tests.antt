-- ===== src/Unix/Tests.antt =====
-- The theorems on socket paths at a concrete path, and those on the socket file on a small system,
-- whose state is whether the file is there.
use mtdd_server.Base.{
  ◌<◌, Bytes, codes, Bool, true, false, none, some, [], equal, if◌then◌else◌, ◌≡◌, ◌↔◌, refl, arith,
}
use mtdd_server.Config.{default_config}
use mtdd_server.Unix.Listen.{
  enoent, eexist, directory, socket_file, Node, found, missing, Os, World,
}
use mtdd_server.Unix.Socket.{prepare_listen}
use mtdd_server.Unix.Prepare.{Prepared, prepare_listen-Prepared}
use mtdd_server.Base.Results.{ok}
use mtdd_server.Unix.Path.{validate_unix_socket_path}
use mtdd_server.Unix.Path.Rules.{IsSocketPath, validate_unix_socket_path_lem}

validate_unix_socket_path_lem_example :
    (validate_unix_socket_path (codes "/run/mtdd/grpc.sock") ≡ ok tt)
    ↔ IsSocketPath (codes "/run/mtdd/grpc.sock")
validate_unix_socket_path_lem_example = validate_unix_socket_path_lem (codes "/run/mtdd/grpc.sock")

abbrev sock : Bytes
sock = codes "/run/mtdd/grpc.sock"

abbrev socket_node : Node
socket_node = record { file_type = socket_file; mode = 0o660 }

abbrev dir_node : Node
dir_node = record { file_type = directory; mode = 0o750 }

abbrev os : Os Bool
os = record {
  strerror = λ e. codes "error";
  stat = λ path there.
      if equal path sock
      then (if there then found socket_node else missing enoent)
      else found dir_node;
  access = λ path there. none;
  mkdir = λ path mode there. (some eexist, there);
  unlink = λ path there. (none, false);
  chmod = λ path mode there. (none, there);
  socket = λ there. none;
  connects = λ path there. false;
}

abbrev stale : World Bool
stale = record { system = true; unlinked = [] }

gone : (s : Bool) → (os.unlink sock s).0 ≡ none → os.stat sock (os.unlink sock s).1 ≡ missing enoent
unfolding equal
gone s e = refl

enough : ◌<◌ 107 108
enough = omega arith

prepare_listen-Prepared_example : Prepared os sock [] (prepare_listen os 108 default_config stale)
prepare_listen-Prepared_example = prepare_listen-Prepared os 108 default_config stale gone enough
