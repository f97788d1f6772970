-- ===== src/Shard/Tests/Replies.antt =====
-- The theorems on Connect and on requests that are refused, at the small server.
use mtdd_server.Base.{
  ◌<◌, ◌≤◌, ◌^◌, ℕ, codes, true, false, none, some, [], length, equal, starts_with, ◌≡◌, ◌↔◌, refl,
  arith,
}
use mtdd_server.Base.Int.{pos}
use mtdd_server.Base.Results.{throw}
use mtdd_server.Config.{default_config}
use mtdd_server.Pg.Conn
use mtdd_server.Pg.Pool
use mtdd_server.Pg.Libpq.{Libpq, command_ok}
use mtdd_server.Pg.Conn.{World, ConnectParams, default_params, exec, exec_params, clear}
use mtdd_server.Shard.Replies.{
  Registers, IsValid, connect-Registers, connect-failed, refused_request-none,
}
use mtdd_server.Shard.Service.{
  ConnectRequest, make_shard, build_connect_params, validate_host_index, connect, connect_pool,
}
use mtdd_server.Shard.QueryStream.{refused_request}
use mtdd_server.Shard.Tests.{server, world, shard, request, result_of}

abbrev connect_request : ConnectRequest
connect_request = record {
  host_index = pos 0;
  dbname = [];
  user = codes "app";
  password = [];
  port = pos 0;
  database = codes "shop";
}

connect-Registers_example :
    Registers shard
      (build_connect_params shard.config connect_request)
      (connect server connect_request shard)
    × (((connect server connect_request shard).0.accepted ≡ true) → IsValid connect_request shard)
connect-Registers_example = connect-Registers server connect_request shard

-- The probe is answered with a row.
test_connect : (connect server connect_request shard).0.accepted ≡ true
unfolding connect make_shard validate_host_index connect_pool Conn.connect Pool.connect exec equal
    starts_with clear build_connect_params Pool.configure
test_connect = refl

-- A server that answers every statement, the probe too, with a result that is not one of rows.
abbrev rowless : Libpq ℕ
rowless = record server { exec = λ conn sql n. (some (result_of command_ok 0 0), n) }

probe_refused :
    (Conn.connect rowless (build_connect_params default_config connect_request) (pos 0) world).0
    ≡ throw (codes "refused")
unfolding Conn.connect exec equal starts_with
probe_refused = refl

connect-failed_example :
    ((connect rowless connect_request shard).0
      ≡ record { accepted = false; message = codes "refused" })
    × ((connect rowless connect_request shard).1.pool.params
        ≡ build_connect_params shard.config connect_request)
    × ((connect rowless connect_request shard).1.connect_params ≡ shard.connect_params)
    × ((connect rowless connect_request shard).1.has_executor ≡ shard.has_executor)
unfolding make_shard validate_host_index
connect-failed_example =
    connect-failed rowless connect_request shard (codes "refused") (refl, refl, refl) probe_refused

short_text : length request.text < 2 ^ 31
short_text = omega arith

refused_request-none_example : (refused_request default_config request ≡ none) ↔ (
    (validate_host_index default_config request.host_index ≡ none)
    × (request.name ≡ [])
    × (request.result_format ≡ pos 1)
    × (length request.text ≤ 1048576))
refused_request-none_example = refused_request-none default_config request 1048576 refl short_text
