-- ===== src/Health/Monitor/Runs.antt =====
-- What the calls of the other threads do to a running probe thread of PgHealthMonitor
-- (src/health/pg_health_monitor.cpp).
use mtdd_server.Base.{
  ℕ, zero, suc, Bool, true, false, not, ◌||◌, ◌&&◌, List, [], ◌∷◌, ◌≡◌, refl, arith, if_both, ◌∙◌,
  subst,
}
use mtdd_server.Base.Int.{ℤ}
use mtdd_server.Pg.Libpq.{Libpq}
use mtdd_server.Pg.Conn.{World, ConnectParams}
use mtdd_server.Health.Monitor.{
  Monitor, set_serving, attach_server, on_connect_failure, set_serving_without_pg, request_stop,
  probe_once, with_thread, on_connect_success, probe_body, probe_round, Event, attaches, fails,
  serves_without_pg, requests_stop, joins, probes, succeeds, step, run,
}

abbrev is_request : Event → Bool
is_request requests_stop = true
is_request attaches = false
is_request fails = false
is_request serves_without_pg = false
is_request joins = false
is_request probes = false
is_request (succeeds params timeout_ms) = false

abbrev is_join : Event → Bool
is_join joins = true
is_join requests_stop = false
is_join attaches = false
is_join fails = false
is_join serves_without_pg = false
is_join probes = false
is_join (succeeds params timeout_ms) = false

-- Some event asks for the stop; no event joins the thread.
abbrev pub requested : List Event → Bool
requested [] = false
requested (e ∷ es) = is_request e || requested es

abbrev pub unjoined : List Event → Bool
unjoined [] = true
unjoined (e ∷ es) = not (is_join e) && unjoined es

-- The sleep with the given number is the first in which another thread asks for the stop, and up to
-- then none has joined the thread.
abbrev pub requested_at : ℕ → List (List Event) → Bool
requested_at n [] = false
requested_at zero (es ∷ schedule) = requested es && unjoined es
requested_at (suc n) (es ∷ schedule) = not (requested es) && unjoined es && requested_at n schedule

-- The thread is there, its stop is asked for or not, and its interval is as given.
abbrev pub Runs : ℤ → Bool → Monitor → Type 0
Runs interval stopped m =
    (m.has_thread ≡ true) × (m.stopped ≡ stopped) × (m.probe_interval_sec ≡ interval)

set_serving-Runs :
    (interval : ℤ) (b serving : Bool) (m : Monitor)
    → Runs interval b m
    → Runs interval b (set_serving serving m)
unfolding set_serving
set_serving-Runs interval b serving m f =
    if_both (Runs interval b) (not m.has_server || not m.has_service) f f

set_serving-kept :
    (serving : Bool) (m : Monitor)
    → ((set_serving serving m).has_thread ≡ m.has_thread)
      × ((set_serving serving m).probe_interval_sec ≡ m.probe_interval_sec)
unfolding set_serving
set_serving-kept serving m =
    if_both
      (λ (t : Monitor).
        (t.has_thread ≡ m.has_thread) × (t.probe_interval_sec ≡ m.probe_interval_sec))
      (not m.has_server || not m.has_service) (refl, refl) (refl, refl)

module _ {S : Type 0} (pq : Libpq S) (interval : ℤ) where
  pub probe_body-Runs :
      (b : Bool) (m : Monitor) (w : World S)
      → Runs interval b m
      → Runs interval b (probe_body pq m w).0
  unfolding probe_body
  probe_body-Runs b m w f =
      if_both (λ (t : Monitor × World S). Runs interval b t.0) (not m.has_params) f
        (set_serving-Runs interval b (probe_once pq m w).0 m f)

  step-Runs :
      (e : Event) (b : Bool) (s : Monitor × World S)
      → is_join e ≡ false
      → Runs interval b s.0
      → Runs interval (is_request e || b) (step pq e s).0
  unfolding step attach_server on_connect_failure set_serving_without_pg request_stop probe_round
      on_connect_success
  step-Runs attaches b (m, w) h f =
      set_serving-Runs interval b false (record m { has_server = true }) f
  step-Runs fails b (m, w) h f = set_serving-Runs interval b false m f
  step-Runs serves_without_pg b (m, w) h f = set_serving-Runs interval b true m f
  step-Runs requests_stop b (m, w) h f = (f.0, refl, f.2)
  step-Runs joins b (m, w) h f = absurd (cc)
  step-Runs probes b (m, w) h f =
      if_both (λ (t : Monitor × World S). Runs interval b t.0) (not m.has_thread || m.stopped) f
        (probe_body-Runs b m w f)
  step-Runs (succeeds params timeout_ms) b (m, w) h f =
      let m' = record m { params = params; statement_timeout_ms = timeout_ms; has_params = true } in
      let g = set_serving-Runs interval b (probe_once pq m' w).0 m' f in rw g.0 (refl, g.1, g.2)

  run-Runs :
      (es : List Event) (b : Bool) (s : Monitor × World S)
      → unjoined es ≡ true
      → Runs interval b s.0
      → Runs interval (requested es || b) (run pq es s).0
  unfolding run
  run-Runs [] b s h f = f
  run-Runs (e ∷ es) b s h f =
      subst (λ x. Runs interval x (run pq es (step pq e s)).0) (ground arith)
        (run-Runs es (is_request e || b) (step pq e s) (ground arith)
          (step-Runs e b s (ground arith) f))

  pub sleep-Runs :
      (es : List Event) (b : Bool) (s : Monitor × World S)
      → unjoined es ≡ true
      → requested es ≡ b
      → Runs interval false s.0
      → Runs interval b (run pq es s).0
  sleep-Runs es b s h q f =
      subst (λ x. Runs interval x (run pq es s).0) (ground arith) (run-Runs es false s h f)

  pub on_connect_success-Runs :
      (params : ConnectParams) (timeout_ms : ℤ) (m : Monitor) (w : World S)
      → m.has_thread ≡ false
      → m.probe_interval_sec ≡ interval
      → Runs interval false (on_connect_success pq params timeout_ms m w).0
  unfolding on_connect_success
  on_connect_success-Runs params timeout_ms m w h e =
      let m' = record m { params = params; statement_timeout_ms = timeout_ms; has_params = true } in
      started (set_serving (probe_once pq m' w).0 m') (probe_once pq m' w).1
        (set_serving-kept (probe_once pq m' w).0 m')
    where
      started :
          (t : Monitor) (v : World S)
          → (t.has_thread ≡ m.has_thread) × (t.probe_interval_sec ≡ m.probe_interval_sec)
          → Runs interval false (with_thread pq (t, v)).0
      started t v q = rw (q.0, h) (refl, refl, q.1 ∙ e)
