-- ===== src/Health/Monitor.antt =====
-- src/health/pg_health_monitor.cpp: PgHealthMonitor. The state beside the members is the map of
-- statuses that gRPC's health service holds, which is there or not, and the connections of the
-- process. `run` takes the thread's rounds and the calls of the other members in any order, without
-- the thread's sleep; `probe_loop` is the thread with it, among the calls of the others. Log lines
-- are left out.
pub mod Probe
pub mod Runs
pub mod Loop
pub mod Verdicts
use mtdd_server.Base.{
  ℕ, zero, suc, ◌*◌, Bytes, Bytes-discrete, codes, Bool, true, false, not, ◌||◌, List, [], ◌∷◌,
  Option, none, some, if◌then◌else◌,
}
use mtdd_server.Base.Int.{ℤ, pos, negsuc, int_cast, is_positive}
use mtdd_server.Base.Maps.{assign}
use mtdd_server.Base.Results.{Result, ok, throw}
use mtdd_server.Pg.Libpq.{Libpq}
use mtdd_server.Pg.Conn.{ConnectParams, default_params, World, connect, finish}

pub record Monitor : Type 0 where
  pub has_server : Bool
  pub has_service : Bool
  pub probe_interval_sec : ℤ
  pub stopped : Bool
  pub has_params : Bool
  pub has_thread : Bool
  pub params : ConnectParams
  pub statement_timeout_ms : ℤ
  pub statuses : List (Bytes × Bool)

-- The constructor, for a server that has the health service or not.
unfoldable pub make_monitor : Bool → ℤ → Monitor
make_monitor has_service probe_interval_sec = record {
  has_server = false;
  has_service = has_service;
  probe_interval_sec = if is_positive probe_interval_sec then probe_interval_sec else pos 30;
  stopped = false;
  has_params = false;
  has_thread = false;
  params = default_params;
  statement_timeout_ms = pos 0;
  statuses = [];
}

-- grpc::HealthCheckServiceInterface::SetServingStatus on the map.
abbrev set_status : Bytes → Bool → List (Bytes × Bool) → List (Bytes × Bool)
set_status service serving statuses = assign Bytes-discrete service serving statuses

unfoldable pub set_serving : Bool → Monitor → Monitor
set_serving serving m = if not m.has_server || not m.has_service then m else record m {
  statuses =
      set_status (codes "mtdd.MtddNotify") serving
        (set_status (codes "mtdd.MtddShard") serving (set_status [] serving m.statuses));
}

unfoldable pub attach_server : Monitor → Monitor
attach_server m = set_serving false (record m { has_server = true })

unfoldable pub on_connect_failure : Monitor → Monitor
on_connect_failure m = set_serving false m

unfoldable pub set_serving_without_pg : Monitor → Monitor
set_serving_without_pg m = set_serving true m

-- The two halves of Stop, which waits for the thread to end.
unfoldable pub request_stop : Monitor → Monitor
request_stop m = record m { stopped = true }

unfoldable pub join_thread : Monitor → Monitor
join_thread m = record m { has_thread = false }

unfoldable pub stop : Monitor → Monitor
unfolding request_stop join_thread
stop m = join_thread (request_stop m)

abbrev not_negative : ℤ → ℕ
not_negative (pos n) = n
not_negative (negsuc n) = 0

-- `probe_interval_sec_ * 10` as a number of turns. The constructor keeps the interval positive; a
-- product that an `int` does not hold wraps around here, and is undefined in the source.
unfoldable pub ticks : ℤ → ℕ
ticks (pos n) = not_negative (int_cast (pos (n * 10)))
ticks (negsuc n) = 0

-- What happens to a monitor, in order.
pub data Event : Type 0 where
  attaches fails serves_without_pg requests_stop joins probes : Event
  succeeds : ConnectParams → ℤ → Event

module _ {S : Type 0} (pq : Libpq S) where
  -- The end of ProbeOnce: a connection that was opened goes with the scope.
  abbrev pub probed_once : Result ℕ × World S → Bool × World S
  probed_once (ok conn, w) = (true, finish pq conn w)
  probed_once (throw e, w) = (false, w)

  unfoldable pub probe_once : Monitor → World S → Bool × World S
  probe_once m w =
      if not m.has_params
      then (false, w)
      else probed_once (connect pq m.params m.statement_timeout_ms w)

  abbrev with_status : Monitor → Bool × World S → Monitor × World S
  with_status m (healthy, w) = (set_serving healthy m, w)

  -- The thread starts unless one is there.
  abbrev pub with_thread : Monitor × World S → Monitor × World S
  with_thread (m, w) =
      if m.has_thread then (m, w) else (record m { stopped = false; has_thread = true }, w)

  unfoldable pub on_connect_success : ConnectParams → ℤ → Monitor → World S → Monitor × World S
  on_connect_success params statement_timeout_ms m w =
      let m' = record m {
        params = params;
        statement_timeout_ms = statement_timeout_ms;
        has_params = true;
      } in
      with_thread (with_status m' (probe_once m' w))

  -- The body of ProbeLoop before its sleep.
  unfoldable pub probe_body : Monitor → World S → Monitor × World S
  probe_body m w = if not m.has_params then (m, w) else with_status m (probe_once m w)

  unfoldable pub probe_round : Monitor → World S → Monitor × World S
  unfolding probe_body
  probe_round m w = if not m.has_thread || m.stopped then (m, w) else probe_body m w

  unfoldable pub step : Event → Monitor × World S → Monitor × World S
  step attaches (m, w) = (attach_server m, w)
  step fails (m, w) = (on_connect_failure m, w)
  step serves_without_pg (m, w) = (set_serving_without_pg m, w)
  step requests_stop (m, w) = (request_stop m, w)
  step joins (m, w) = (join_thread m, w)
  step probes (m, w) = probe_round m w
  step (succeeds params statement_timeout_ms) (m, w) =
      on_connect_success params statement_timeout_ms m w

  unfoldable pub run : List Event → Monitor × World S → Monitor × World S
  unfolding step
  run [] s = s
  run (e ∷ es) s = run es (step e s)

  -- `for (i = 0; i < ticks && !stop_; ++i) sleep_for(100 ms)`. The schedule holds what the other
  -- threads do in each of the sleeps; the result is empty where it says no more.
  unfoldable pub nap :
      ℕ → List (List Event) → Monitor × World S → Option (List (List Event) × (Monitor × World S))
  nap zero schedule s = some (schedule, s)
  nap (suc k) schedule s = elim s.0.stopped [
    | true ↦ some (schedule, s)
    | false ↦ elim schedule [ [] ↦ none | es ∷ schedule ↦ nap k schedule (run es s) ]
  ]

  -- ProbeLoop on fuel: how many rounds it makes, the schedule behind its end, and the state.
  unfoldable pub probe_loop :
      ℕ
      → List (List Event)
      → Monitor × World S
      → Option (ℕ × List (List Event) × (Monitor × World S))
  unfolding probe_body nap
  probe_loop zero schedule s = none
  probe_loop (suc fuel) schedule s = elim s.0.stopped [
    | true ↦ some (0, schedule, s)
    | false ↦ elim (nap (ticks s.0.probe_interval_sec) schedule (probe_body s.0 s.1)) [
      | none ↦ none
      | some r ↦ elim (probe_loop fuel r.0 r.1) [ none ↦ none | some t ↦ some (suc t.0, t.1, t.2) ]
    ]
  ]
