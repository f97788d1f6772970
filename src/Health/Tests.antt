-- ===== src/Health/Tests.antt =====
-- The theorems on the health monitor on a server whose connections come up.
use mtdd_server.Base.{
  Bytes-discrete, ℕ_discrete, codes, ℕ, suc, List, [], ◌∷◌, none, some, true, false, ◌≡◌, refl,
  arith,
}
use mtdd_server.Base.Int.{pos, int_cast}
use mtdd_server.Base.Maps.{lookup}
use mtdd_server.Pg.Libpq.{Libpq, PgResult, tuples_ok, idle}
use mtdd_server.Pg.Conn.{World, default_params}
use mtdd_server.Health.Monitor.{
  Monitor, Event, succeeds, probes, fails, requests_stop, run, ticks, on_connect_success,
  probe_loop,
}
use mtdd_server.Health.Monitor.Verdicts.{Reports, last_verdict, run-Reports}
use mtdd_server.Health.Monitor.Loop.{Left, probe_loop-Stops}

abbrev one_row : PgResult
one_row = record {
  status = tuples_ok;
  error_message = [];
  error_field = λ f. none;
  cmd_status = none;
  cmd_tuples = none;
  num_fields = 0;
  num_rows = 1;
  field_name = λ c. none;
  field_table = λ c. 0;
  field_table_column = λ c. pos 0;
  field_type = λ c. 0;
  field_format = λ c. pos 0;
  is_null = λ r c. true;
  value = λ r c. none;
  value_length = λ r c. pos 0;
}

-- Its state is the address of the next connection.
abbrev server : Libpq ℕ
server = record {
  connectdb = λ info n. (some n, suc n);
  finish = λ conn n. n;
  connection_ok = λ conn n. true;
  connection_error = λ conn n. [];
  transaction_status = λ conn n. idle;
  exec = λ conn sql n. (some one_row, n);
  exec_params = λ conn sql params format n. (some one_row, n);
}

abbrev world : World ℕ
world = record { server = 5; open_connections = 4 ∷ []; live_results = 0; sent = [] }

abbrev monitor : Monitor
monitor = record {
  has_server = true;
  has_service = true;
  probe_interval_sec = pos 30;
  stopped = false;
  has_params = true;
  has_thread = true;
  params = default_params;
  statement_timeout_ms = pos 0;
  statuses = [];
}

-- The probe thread of an interval of one second; in the thirteenth of its sleeps, its stop is asked
-- for. A product of the interval beyond an int leaves no sleep.
abbrev idle_monitor : Monitor
idle_monitor = record monitor { has_thread = false; probe_interval_sec = pos 1 }

abbrev schedule : List (List Event)
schedule =
    (fails ∷ [])
    ∷ []
    ∷ []
    ∷ []
    ∷ []
    ∷ []
    ∷ []
    ∷ []
    ∷ []
    ∷ []
    ∷ (succeeds default_params (pos 100) ∷ [])
    ∷ []
    ∷ (requests_stop ∷ [])
    ∷ []
    ∷ []

test_ticks : ticks (pos 214748365) ≡ 0
unfolding ticks int_cast
test_ticks = refl

probe_loop-Stops_example : Left 10 12 schedule (
    probe_loop server 20 schedule
      (on_connect_success server default_params (pos 100) idle_monitor world))
probe_loop-Stops_example =
    probe_loop-Stops server default_params (pos 100) idle_monitor world 1 20 12 schedule refl refl
      (omega arith) (omega arith) refl (omega arith)

-- The health service has been told that the server does not serve.
abbrev told_monitor : Monitor
told_monitor = record monitor {
  statuses = ([], false) ∷ (codes "mtdd.MtddShard", false) ∷ (codes "mtdd.MtddNotify", false) ∷ [];
}

abbrev events : List Event
events = fails ∷ succeeds default_params (pos 100) ∷ probes ∷ requests_stop ∷ []

run-Reports_example :
    Reports
      (last_verdict server events (told_monitor, world) (some false))
      (run server events (told_monitor, world)).0
unfolding lookup Bytes-discrete ℕ_discrete
run-Reports_example =
    run-Reports server events (told_monitor, world) (some false) (refl, refl, refl, refl, refl)
