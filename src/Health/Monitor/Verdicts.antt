-- ===== src/Health/Monitor/Verdicts.antt =====
-- What the health service answers after a history of a PgHealthMonitor
-- (src/health/pg_health_monitor.cpp).
use mtdd_server.Base.{
  Bytes-discrete, codes, Bool, true, false, not, ◌||◌, List, [], ◌∷◌, Option, none, some, ◌≡◌, refl,
  arith, if_both, if_second, if_alike, if◌then◌else◌,
}
use mtdd_server.Base.Maps.{assign, lookup-assign}
use mtdd_server.Pg.Libpq.{Libpq}
use mtdd_server.Pg.Conn.{World}
use mtdd_server.Health.Monitor.{
  Monitor, set_serving, attach_server, on_connect_failure, set_serving_without_pg, request_stop,
  join_thread, probe_once, on_connect_success, probe_body, probe_round, Event, attaches, fails,
  serves_without_pg, requests_stop, joins, probes, succeeds, step, run,
}
use mtdd_server.Health.Monitor.Probe.{status_of}

-- The server runs, has a health service, and that answers `o` for the server as a whole and for
-- its two services.
abbrev pub Reports : Option Bool → Monitor → Type 0
Reports o m =
    (m.has_server ≡ true)
    × (m.has_service ≡ true)
    × (status_of [] m ≡ o)
    × (status_of (codes "mtdd.MtddShard") m ≡ o)
    × (status_of (codes "mtdd.MtddNotify") m ≡ o)

abbrev or_before : Option Bool → Option Bool → Option Bool
or_before none o = o
or_before (some v) o = some v

set_serving-Reports :
    (serving : Bool) (o : Option Bool) (m : Monitor)
    → Reports o m
    → Reports (some serving) (set_serving serving m)
unfolding set_serving Bytes-discrete
set_serving-Reports serving o m v =
    let shard = codes "mtdd.MtddShard" in
    let notify = codes "mtdd.MtddNotify" in
    let first = assign Bytes-discrete [] serving m.statuses in
    let second = assign Bytes-discrete shard serving first in
    if_second (Reports (some serving)) (not m.has_server || not m.has_service) m (ground arith) (
      v.0,
      v.1,
      ground (
        arith,
        lookup-assign Bytes-discrete notify [] serving second,
        lookup-assign Bytes-discrete shard [] serving first,
        lookup-assign Bytes-discrete [] [] serving m.statuses,
      ),
      ground (
        arith,
        lookup-assign Bytes-discrete notify shard serving second,
        lookup-assign Bytes-discrete shard shard serving first,
      ),
      ground (arith, lookup-assign Bytes-discrete notify notify serving second),
    )

module _ {S : Type 0} (pq : Libpq S) where
  -- What an event tells of the server: whether a probe that it makes succeeds.
  abbrev verdict : Event → Monitor × World S → Option Bool
  verdict attaches s = some false
  verdict fails s = some false
  verdict serves_without_pg s = some true
  verdict requests_stop s = none
  verdict joins s = none
  verdict probes (m, w) =
      if not m.has_thread || m.stopped
      then none
      else (if not m.has_params then none else some (probe_once pq m w).0)
  verdict (succeeds params timeout_ms) (m, w) =
      some
        (probe_once pq
          (record m { params = params; statement_timeout_ms = timeout_ms; has_params = true }) w).0

  -- The last verdict of a history, or what was told before it.
  abbrev pub last_verdict : List Event → Monitor × World S → Option Bool → Option Bool
  last_verdict [] s o = o
  last_verdict (e ∷ es) s o = last_verdict es (step pq e s) (or_before (verdict e s) o)

  step-Reports :
      (e : Event) (s : Monitor × World S) (o : Option Bool)
      → Reports o s.0
      → Reports (or_before (verdict e s) o) (step pq e s).0
  unfolding step attach_server on_connect_failure set_serving_without_pg request_stop join_thread
      on_connect_success probe_round probe_body
  step-Reports attaches (m, w) o v =
      set_serving-Reports false o (record m { has_server = true }) (refl, v.1, v.2, v.3, v.4)
  step-Reports fails (m, w) o v = set_serving-Reports false o m v
  step-Reports serves_without_pg (m, w) o v = set_serving-Reports true o m v
  step-Reports requests_stop (m, w) o v = v
  step-Reports joins (m, w) o v = v
  step-Reports probes (m, w) o v =
      if_alike (λ (u : Option Bool) (t : Monitor × World S). Reports (or_before u o) t.0)
        (not m.has_thread || m.stopped) v
        (if_alike (λ (u : Option Bool) (t : Monitor × World S). Reports (or_before u o) t.0)
          (not m.has_params) v (set_serving-Reports (probe_once pq m w).0 o m v))
  step-Reports (succeeds params timeout_ms) (m, w) o v =
      let m' = record m { params = params; statement_timeout_ms = timeout_ms; has_params = true } in
      let t = set_serving (probe_once pq m' w).0 m' in
      let told = set_serving-Reports (probe_once pq m' w).0 o m' v in
      if_both (λ (u : Monitor × World S). Reports (some (probe_once pq m' w).0) u.0) t.has_thread
        told told

  -- Once the server runs, and its health service has one answer for the server as a whole and for
  -- both of its services, that answer is the last verdict, if there has been one since, whatever
  -- happens to the monitor, in whatever order. The verdict is false where the monitor is attached
  -- to the server or a Connect fails, true where the server starts without PostgreSQL, and where
  -- Connect succeeds, or the running probe thread makes a round with parameters, whether the probe
  -- succeeds.
  pub run-Reports :
      (es : List Event) (s : Monitor × World S) (o : Option Bool)
      → Reports o s.0
      → Reports (last_verdict es s o) (run pq es s).0
  unfolding run
  run-Reports [] s o v = v
  run-Reports (e ∷ es) s o v =
      run-Reports es (step pq e s) (or_before (verdict e s) o) (step-Reports e s o v)
