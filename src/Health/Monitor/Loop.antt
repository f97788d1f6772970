-- ===== src/Health/Monitor/Loop.antt =====
-- The probe thread (ProbeLoop of src/health/pg_health_monitor.cpp) among the calls of the others.
use mtdd_server.Base.{
  ℕ, zero, suc, ◌+◌, ◌*◌, ◌<◌, ◌≤◌, Bool, true, false, List, [], ◌∷◌, Option, none, some, ◌≡◌, refl,
  arith, inl, inr, ◌⊎◌, ◌∙◌, ap, drop, subst,
}
use mtdd_server.Base.Int.{ℤ, pos, int_cast_small}
use mtdd_server.Pg.Libpq.{Libpq}
use mtdd_server.Pg.Conn.{World, ConnectParams}
use mtdd_server.Health.Monitor.{
  Monitor, on_connect_success, probe_body, ticks, Event, run, nap, probe_loop,
}
use mtdd_server.Health.Monitor.Runs.{
  requested_at, Runs, sleep-Runs, probe_body-Runs, on_connect_success-Runs,
}

elim_true : {A : Type 0} (b : Bool) (x y : A) → b ≡ true → (elim b [ true ↦ x | false ↦ y ]) ≡ x
elim_true true x y h = refl
elim_true false x y h = absurd (cc)

elim_false : {A : Type 0} (b : Bool) (x y : A) → b ≡ false → (elim b [ true ↦ x | false ↦ y ]) ≡ y
elim_false true x y h = absurd (cc)
elim_false false x y h = refl

elim_some :
    {A : Type 0} {B : Type 0} (o : Option A) (a : A) (f : A → B) (z : B)
    → o ≡ some a
    → (elim o [ none ↦ z | some r ↦ f r ]) ≡ f a
elim_some o a f z h = rw h refl

ticks_lem : (n : ℕ) → n < 214748365 → ticks (pos n) ≡ n * 10
unfolding ticks
ticks_lem n h = rw (int_cast_small (n * 10) (omega (arith, h))) refl

module _ {S : Type 0} where
  -- The loop is left behind the sleep n, after as many rounds as begin up to then.
  abbrev pub Left :
      ℕ → ℕ → List (List Event) → Option (ℕ × List (List Event) × (Monitor × World S)) → Type 0
  Left d n schedule r =
      (rounds : ℕ) × (s : Monitor × World S) × (r ≡ some (rounds, drop (suc n) schedule, s))
      × (s.0.stopped ≡ true)
      × (n < rounds * d)
      × (rounds * d ≤ n + d)

module _ {S : Type 0} (pq : Libpq S) (interval : ℤ) where
  nap-stopped :
      (k : ℕ) (schedule : List (List Event)) (s : Monitor × World S)
      → s.0.stopped ≡ true
      → nap pq k schedule s ≡ some (schedule, s)
  unfolding nap
  nap-stopped zero schedule s h = refl
  nap-stopped (suc k) schedule s h = rw h refl

  nap_step :
      (k : ℕ) (es : List Event) (schedule : List (List Event)) (s : Monitor × World S)
      → s.0.stopped ≡ false
      → nap pq (suc k) (es ∷ schedule) s ≡ nap pq k schedule (run pq es s)
  unfolding nap
  nap_step k es schedule s h = elim_false s.0.stopped _ _ h

  -- A sleep that the request for the stop cuts short.
  abbrev Cut : ℕ → ℕ → List (List Event) → Option (List (List Event) × (Monitor × World S)) → Type 0
  Cut k n schedule r =
      (s : Monitor × World S) × (r ≡ some (drop (suc n) schedule, s))
      × Runs interval true s.0
      × (n < k)

  -- A sleep of full length, and when the request comes behind it.
  abbrev Slept :
      ℕ → ℕ → List (List Event) → Option (List (List Event) × (Monitor × World S)) → Type 0
  Slept k n schedule r =
      (s : Monitor × World S) × (n' : ℕ) × (rest : List (List Event)) × (r ≡ some (rest, s))
      × Runs interval false s.0
      × (n ≡ k + n')
      × (requested_at n' rest ≡ true)
      × (drop (suc n') rest ≡ drop (suc n) schedule)

  nap_lem :
      (k n : ℕ) (schedule : List (List Event)) (s : Monitor × World S)
      → requested_at n schedule ≡ true
      → Runs interval false s.0
      → Cut k n schedule (nap pq k schedule s) ⊎ Slept k n schedule (nap pq k schedule s)
  unfolding nap
  nap_lem zero n schedule s h f = inr (s, n, schedule, refl, f, omega arith, h, refl)
  nap_lem (suc k) n [] s h f = absurd (cc)
  nap_lem (suc k) zero (es ∷ schedule) s h f =
      let g = sleep-Runs pq interval es true s (ground arith) (ground arith) f in
      inl (
        run pq es s,
        nap_step k es schedule s f.1 ∙ nap-stopped k schedule (run pq es s) g.1,
        g,
        omega arith,
      )
  nap_lem (suc k) (suc n) (es ∷ schedule) s h f =
      let g = sleep-Runs pq interval es false s (ground arith) (ground arith) f in
      elim (nap_lem k n schedule (run pq es s) (ground arith) g) [
        | inl (s', e, r, l) ↦ inl (s', nap_step k es schedule s f.1 ∙ e, r, omega (arith, l))
        | inr (s', n', rest, e, r, l, q, d) ↦
            inr (s', n', rest, nap_step k es schedule s f.1 ∙ e, r, omega (arith, l), q, d)
      ]

  probe_loop-stopped :
      (fuel : ℕ) (schedule : List (List Event)) (s : Monitor × World S)
      → s.0.stopped ≡ true
      → probe_loop pq (suc fuel) schedule s ≡ some (0, schedule, s)
  unfolding probe_loop
  probe_loop-stopped fuel schedule s h = elim_true s.0.stopped _ _ h

  probe_loop_step :
      (fuel rounds : ℕ) (schedule rest behind : List (List Event)) (s s' s'' : Monitor × World S)
      → Runs interval false s.0
      → nap pq (ticks interval) schedule (probe_body pq s.0 s.1) ≡ some (rest, s')
      → probe_loop pq fuel rest s' ≡ some (rounds, behind, s'')
      → probe_loop pq (suc fuel) schedule s ≡ some (suc rounds, behind, s'')
  unfolding probe_loop
  probe_loop_step fuel rounds schedule rest behind s s' s'' f e e' =
      elim_false s.0.stopped _ _ f.1
      ∙ elim_some (nap pq (ticks s.0.probe_interval_sec) schedule (probe_body pq s.0 s.1))
          (rest, s') _ none (ap (λ i. nap pq (ticks i) schedule (probe_body pq s.0 s.1)) f.2 ∙ e)
      ∙ elim_some (probe_loop pq fuel rest s') (rounds, behind, s'') _ none e'

  probe_loop_lem :
      (fuel n : ℕ) (schedule : List (List Event)) (s : Monitor × World S)
      → 0 < ticks interval
      → requested_at n schedule ≡ true
      → Runs interval false s.0
      → suc n < fuel
      → Left (ticks interval) n schedule (probe_loop pq fuel schedule s)
  probe_loop_lem zero n schedule s p h f enough = absurd (omega (arith, enough))
  probe_loop_lem (suc zero) n schedule s p h f enough = absurd (omega (arith, enough))
  probe_loop_lem (suc (suc fuel)) n schedule s p h f enough =
      elim (nap_lem (ticks interval) n schedule (probe_body pq s.0 s.1) h
        (probe_body-Runs pq interval false s.0 s.1 f)) [
          | inl (s', e, r, l) ↦ (
            1,
            s',
            probe_loop_step (suc fuel) 0 schedule (drop (suc n) schedule) (drop (suc n) schedule) s
                s' s' f e (probe_loop-stopped fuel (drop (suc n) schedule) s' r.1),
            r.1,
            omega (arith, l),
            omega arith,
          )
          | inr (s', n', rest, e, r, l, q, d) ↦
              let (rounds, s'', e', stopped, low, high) =
                probe_loop_lem (suc fuel) n' rest s' p q r (omega (arith, l, p, enough)) in
              (
                suc rounds,
                s'',
                probe_loop_step (suc fuel) rounds schedule rest (drop (suc n) schedule) s s' s'' f e
                    (e' ∙ ap (λ x. some (rounds, x, s'')) d),
                stopped,
                ground (arith, l, low),
                ground (arith, l, high),
              )
        ]

-- Suppose that OnConnectSuccess starts the probe thread, whose interval is between 1 and 214748364
-- seconds, and that, of the thread's sleeps of 100 ms, the sleep n, counted from 0, is the first
-- in which another thread asks for the stop, and that nobody joins the thread up to then. With
-- fuel above n + 1, ProbeLoop then ends right behind that sleep, whatever the other threads call
-- meanwhile and whatever the probes find, and it has made one round at its start and one more each
-- time that the whole interval had passed.
pub probe_loop-Stops :
    {S : Type 0} (pq : Libpq S) (params : ConnectParams) (timeout_ms : ℤ) (m : Monitor)
    (w : World S) (seconds fuel n : ℕ) (schedule : List (List Event))
    → m.has_thread ≡ false
    → m.probe_interval_sec ≡ pos seconds
    → 0 < seconds
    → seconds < 214748365
    → requested_at n schedule ≡ true
    → suc n < fuel
    → Left
        (seconds * 10)
        n
        schedule
        (probe_loop pq fuel schedule (on_connect_success pq params timeout_ms m w))
probe_loop-Stops pq params timeout_ms m w seconds fuel n schedule h e p q at enough =
    let s = on_connect_success pq params timeout_ms m w in
    subst (λ d. Left d n schedule (probe_loop pq fuel schedule s)) (ticks_lem seconds q)
      (probe_loop_lem pq (pos seconds) fuel n schedule s
        (rw (ticks_lem seconds q) (omega (arith, p))) at
        (on_connect_success-Runs pq (pos seconds) params timeout_ms m w h e) enough)
