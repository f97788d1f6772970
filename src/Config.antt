-- ===== src/Config.antt =====
-- src/config.h and src/config.cpp: the server's configuration, read from the environment (the
-- build for Linux; the `_WIN32` branches are left out).
pub mod Parse
pub mod Listen
pub mod Load
mod Tests
use mtdd_server.Base.{ℕ, Bytes, codes, Bool, true, false, Option, none, some, ◌^◌, ◌||◌, equal}
use mtdd_server.Base.Int.{ℤ, pos}

pub data ListenMode : Type 0 where
  unix tcp : ListenMode

pub record ServerConfig : Type 0 where
  pub listen_mode : ListenMode
  pub unix_socket_path : Bytes
  pub listen_address : Bytes
  pub listen_port : ℤ
  pub unix_socket_mode : ℤ
  pub unix_socket_dir_mode : ℤ
  pub unix_socket_create_dir : Bool
  pub host_index : Option ℤ
  pub pg_host : Bytes
  pub pool_size : ℤ
  pub pg_fetch_rows : ℤ
  pub pg_wire_batch_rows : ℤ
  pub pg_connect_timeout_sec : ℤ
  pub max_sessions : ℤ
  pub grpc_max_threads : ℤ
  pub production_mode : Bool
  pub grpc_reflection : Bool
  pub notify_enabled : Bool
  pub statement_timeout_ms : ℤ
  pub max_query_text_bytes : ℤ
  pub max_notify_payload_bytes : ℤ
  pub max_notify_channel_bytes : ℤ
  pub health_probe_interval_sec : ℤ
  pub health_require_pg : Bool

-- The member initializers of the struct.
abbrev pub default_config : ServerConfig
default_config = record {
  listen_mode = unix;
  unix_socket_path = codes "/run/mtdd/grpc.sock";
  listen_address = codes "127.0.0.1";
  listen_port = pos 50051;
  unix_socket_mode = pos 0o660;
  unix_socket_dir_mode = pos 0o750;
  unix_socket_create_dir = false;
  host_index = none;
  pg_host = codes "127.0.0.1";
  pool_size = pos 8;
  pg_fetch_rows = pos 10000;
  pg_wire_batch_rows = pos 1000;
  pg_connect_timeout_sec = pos 5;
  max_sessions = pos 512;
  grpc_max_threads = pos 0;
  production_mode = false;
  grpc_reflection = false;
  notify_enabled = true;
  statement_timeout_ms = pos 0;
  max_query_text_bytes = pos (2 ^ 20);
  max_notify_payload_bytes = pos 65535;
  max_notify_channel_bytes = pos 63;
  health_probe_interval_sec = pos 30;
  health_require_pg = true;
}

-- IsLoopbackAddress. Only the Windows build calls it.
unfoldable pub is_loopback_address : Bytes → Bool
is_loopback_address address =
    equal address (codes "127.0.0.1")
    || equal address (codes "::1")
    || equal address (codes "localhost")
