-- ===== src/Health/Monitor/Probe.antt =====
-- What a probe leaves behind, and what the health service is told.
use mtdd_server.Base.{
  ℕ, Bytes, Bytes-discrete, codes, Bool, true, false, not, ◌||◌, List, [], ◌∷◌, Option, ◌≡◌, refl,
  arith, if_both, erase, ℕ_discrete, erase_absent,
}
use mtdd_server.Base.Maps.{assign, lookup, lookup-assign}
use mtdd_server.Base.Results.{Result, ok, throw}
use mtdd_server.Pg.Libpq.{Libpq}
use mtdd_server.Pg.Conn.{World, connect, finish}
use mtdd_server.Pg.Conn.Balance.{IsFresh, Balanced, connect-Balanced}
use mtdd_server.Health.Monitor.{
  Monitor, set_serving, attach_server, on_connect_failure, set_serving_without_pg, request_stop,
  join_thread, probed_once, probe_once, on_connect_success, probe_body, probe_round, Event,
  attaches, fails, serves_without_pg, requests_stop, joins, probes, succeeds, step, run,
}

-- The status that the health service answers for a service, if it was told one.
abbrev pub status_of : Bytes → Monitor → Option Bool
status_of service m = lookup Bytes-discrete service m.statuses

-- The server as a whole and its two services have one status.
abbrev IsUniform : Monitor → Type 0
IsUniform m =
    (status_of (codes "mtdd.MtddShard") m ≡ status_of [] m)
    × (status_of (codes "mtdd.MtddNotify") m ≡ status_of [] m)

set_serving-IsUniform :
    (serving : Bool) (m : Monitor) → IsUniform m → IsUniform (set_serving serving m)
unfolding set_serving Bytes-discrete
set_serving-IsUniform serving m v =
    let shard = codes "mtdd.MtddShard" in
    let notify = codes "mtdd.MtddNotify" in
    let first = assign Bytes-discrete [] serving m.statuses in
    let second = assign Bytes-discrete shard serving first in
    if_both IsUniform (not m.has_server || not m.has_service) v (
      ground (
        arith,
        lookup-assign Bytes-discrete notify shard serving second,
        lookup-assign Bytes-discrete shard shard serving first,
        lookup-assign Bytes-discrete notify [] serving second,
        lookup-assign Bytes-discrete shard [] serving first,
        lookup-assign Bytes-discrete [] [] serving m.statuses,
      ),
      ground (
        arith,
        lookup-assign Bytes-discrete notify notify serving second,
        lookup-assign Bytes-discrete notify [] serving second,
        lookup-assign Bytes-discrete shard [] serving first,
        lookup-assign Bytes-discrete [] [] serving m.statuses,
      ),
    )

module _ {S : Type 0} (pq : Libpq S) where
  probed_once-same :
      (w : World S) (r : Result ℕ × World S)
      → Balanced pq w r
      → ((probed_once pq r).1.open_connections ≡ w.open_connections)
        × ((probed_once pq r).1.live_results ≡ w.live_results)
  unfolding finish
  probed_once-same w (ok conn, v) h =
      unfold erase in ground (arith, erase_absent ℕ_discrete conn w.open_connections)
  probed_once-same w (throw e, v) h = h

  -- If libpq never returns the address of an open connection for a new one, a probe leaves the
  -- process with the connections that it had, and no result stays uncleared, whether the probe
  -- succeeds or fails.
  probe_once-Balanced :
      (m : Monitor) (w : World S)
      → IsFresh pq m.params w
      → ((probe_once pq m w).1.open_connections ≡ w.open_connections)
        × ((probe_once pq m w).1.live_results ≡ w.live_results)
  unfolding probe_once
  probe_once-Balanced m w f =
      if_both
        (λ (r : Bool × World S).
          (r.1.open_connections ≡ w.open_connections) × (r.1.live_results ≡ w.live_results))
        (not m.has_params) (refl, refl)
        (probed_once-same w (connect pq m.params m.statement_timeout_ms w)
          (connect-Balanced pq m.params m.statement_timeout_ms w f))

  step-IsUniform : (e : Event) (s : Monitor × World S) → IsUniform s.0 → IsUniform (step pq e s).0
  unfolding step attach_server on_connect_failure set_serving_without_pg request_stop join_thread
      on_connect_success probe_round probe_body
  step-IsUniform attaches (m, w) v = set_serving-IsUniform false (record m { has_server = true }) v
  step-IsUniform fails (m, w) v = set_serving-IsUniform false m v
  step-IsUniform serves_without_pg (m, w) v = set_serving-IsUniform true m v
  step-IsUniform requests_stop (m, w) v = v
  step-IsUniform joins (m, w) v = v
  step-IsUniform probes (m, w) v =
      if_both (λ (t : Monitor × World S). IsUniform t.0) (not m.has_thread || m.stopped) v
        (if_both (λ (t : Monitor × World S). IsUniform t.0) (not m.has_params) v
          (set_serving-IsUniform (probe_once pq m w).0 m v))
  step-IsUniform (succeeds params timeout_ms) (m, w) v =
      let m' = record m { params = params; statement_timeout_ms = timeout_ms; has_params = true } in
      let t = set_serving (probe_once pq m' w).0 m' in
      let uniform = set_serving-IsUniform (probe_once pq m' w).0 m' v in
      if_both (λ (u : Monitor × World S). IsUniform u.0) t.has_thread uniform uniform

  -- Whatever happens to a monitor, in whatever order, the server as a whole and its two services
  -- keep one status with the health service, if they have one at the beginning.
  run-IsUniform :
      (es : List Event) (s : Monitor × World S) → IsUniform s.0 → IsUniform (run pq es s).0
  unfolding run
  run-IsUniform [] s v = v
  run-IsUniform (e ∷ es) s v = run-IsUniform es (step pq e s) (step-IsUniform e s v)
