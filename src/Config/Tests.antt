-- ===== src/Config/Tests.antt =====
-- The theorems on the configuration at concrete values and a concrete environment.
use mtdd_server.Base.{
  starts_with, ends_in, contains_text, rfind, ◌≤◌, ◌<◌, ◌^◌, codes, none, some, true, false, ◌≡◌,
  ◌⊎◌, inr, refl, arith, equal, if◌then◌else◌,
}
use mtdd_server.Base.Int.{ℤ, pos, is_positive}
use mtdd_server.Base.Decimal.{to_string}
use mtdd_server.Base.Results.{ok}
use mtdd_server.Base.Int
use mtdd_server.Base.Decimal
use mtdd_server.Config.Load
use mtdd_server.Config.Listen
use mtdd_server.Config.Parse
use mtdd_server.Unix.Path
use mtdd_server.Config.{ServerConfig, tcp, default_config}
use mtdd_server.Config.Parse.{parse_positive_int}
use mtdd_server.Config.Parse.Numbers.{parse_positive_int_lem}
use mtdd_server.Config.Listen.{parse_listen, format_listen_target}
use mtdd_server.Config.Listen.RoundTrip.{with_target, parse_listen-format_listen_target}
use mtdd_server.Config.Load.{Env, load_config_from_env}
use mtdd_server.Config.Load.Production.{IsLoaded, load_config_from_env-IsLoaded}

port_positive : ◌<◌ 0 50051
port_positive = omega arith

port_fits : ◌<◌ 50051 (2 ^ 31)
port_fits = omega arith

wraps_positive : ◌<◌ 0 4294967296
wraps_positive = omega arith

wraps_high : ◌≤◌ 4294967296 (2 ^ 32)
wraps_high = omega arith

parse_positive_int_lem_example :
    (m : ℤ) × (parse_positive_int (codes "MTDD_POOL_SIZE") (some (to_string 4294967296)) (pos 8)
      ≡ ok m)
    × (((◌<◌ 4294967296 (2 ^ 31)) × (m ≡ pos 4294967296))
        ⊎ ((2 ^ 31 ≤ 4294967296) × (is_positive m ≡ false)))
parse_positive_int_lem_example =
    parse_positive_int_lem (codes "MTDD_POOL_SIZE") 4294967296 (pos 8) wraps_positive wraps_high

abbrev tcp_config : ServerConfig
tcp_config = record default_config { listen_mode = tcp }

parse_listen-format_listen_target_example :
    parse_listen (some (format_listen_target tcp_config)) default_config
    ≡ ok (with_target tcp tcp_config default_config)
unfolding format_listen_target starts_with
parse_listen-format_listen_target_example =
    parse_listen-format_listen_target tcp_config default_config
      (inr (refl, 50051, refl, port_positive, port_fits, refl))

-- An environment of a production server.
abbrev environment : Env
environment name =
    if equal name (codes "MTDD_ENV")
    then some (codes "production")
    else if equal name (codes "MTDD_HOST_INDEX")
    then some (codes "3")
    else none

abbrev loaded : ServerConfig
loaded = record default_config {
  production_mode = true;
  host_index = some (pos 3);
  grpc_max_threads = pos 4;
}

loads : load_config_from_env environment 4 ≡ ok loaded
unfolding load_config_from_env Load.reject_server_tls_env equal Listen.parse_listen Load.load_fields
    Parse.parse_optional_host_index Parse.checked Decimal.strtol Decimal.scan
    Parse.parse_positive_int Parse.parse_bool_env Parse.parse_non_negative_int
    Parse.parse_octal_mode Path.validate_unix_socket_path ends_in Path.path_contains_dot_dot
    starts_with contains_text Decimal.scan_signed Decimal.skip_spaces Decimal.strtol_sign
    Int.int_cast rfind Load.reject_set Load.validate_listen_mode Load.validate_production_config
    Parse.is_production_env
loads = refl

load_config_from_env-IsLoaded_example : IsLoaded environment loaded
load_config_from_env-IsLoaded_example = load_config_from_env-IsLoaded environment 4 loaded loads
