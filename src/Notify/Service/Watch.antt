-- ===== src/Notify/Service/Watch.antt =====
-- What a Watch of the notify service (src/service/mtdd_notify_service.cpp) does to the registry, from
-- its call to its end, among the calls of the other RPCs.
use mathlib.Core.Path.{sym, fun_ext}
use mtdd_server.Base.{
  ℕ, Bytes, Bytes-discrete, ℕ_discrete, List, [], ◌∷◌, ◌++◌, Option, none, some, Bool, true, false,
  not, ◌||◌, ◌&&◌, is_empty, if◌then◌else◌, contains, ◌≡◌, ◌≢◌, refl, arith, Bool-cases, inl, inr,
  ◌∙◌, ap,
}
use mtdd_server.Notify.Index.{same_pair}
use mtdd_server.Notify.ChannelKey.{channel_key}
use mtdd_server.Notify.Registry.{
  Registry, Call, subscribes, unsubscribes, unsubscribes_all, registers, unregisters, clears, step,
  run, publish_targets, register_watch,
}
use mtdd_server.Notify.Registry.Invariant.{is_subscribed, IsConsistent, run-IsConsistent}
use mtdd_server.Notify.Registry.Refinement.{spec_run, run-refines, step-refines}
use mtdd_server.Notify.Registry.Delivery.{is_watching, publish_targets_lem}
use mtdd_server.Notify.Registry.History.{
  WatchView, spec_watch, spec_watch_run, step-spec_watch, run-spec_watch,
}
use mtdd_server.Notify.Service.{
  Status, status_ok, Turn, after_loop, validate_client_id, watch_begin, watch_end, watch_loop,
  watch,
}

-- Whether IsCancelled has answered true, and the calls of the other RPCs up to then.
abbrev pub is_ended : List Turn → Bool
is_ended [] = false
is_ended ((calls, cancelled) ∷ turns) = cancelled || is_ended turns

abbrev pub calls_made : List Turn → List Call
calls_made [] = []
calls_made ((calls, cancelled) ∷ turns) =
    calls ++ (elim cancelled [ true ↦ [] | false ↦ calls_made turns ])

-- The calls neither end the client's watch on the stream nor clear the registry.
abbrev pub leaves_watch : Bytes → ℕ → List Call → Bool
leaves_watch c w [] = true
leaves_watch c w (unregisters d v ∷ calls) =
    not (same_pair Bytes-discrete ℕ_discrete v d w c) && leaves_watch c w calls
leaves_watch c w (clears ∷ calls) = false
leaves_watch c w (subscribes d channel scope ∷ calls) = leaves_watch c w calls
leaves_watch c w (unsubscribes d channel scope ∷ calls) = leaves_watch c w calls
leaves_watch c w (unsubscribes_all d ∷ calls) = leaves_watch c w calls
leaves_watch c w (registers d v ∷ calls) = leaves_watch c w calls

run-append : (xs ys : List Call) (r : Registry) → run (xs ++ ys) r ≡ run ys (run xs r)
unfolding run
run-append [] ys r = refl
run-append (x ∷ xs) ys r = run-append xs ys (step x r)

watch_loop_lem :
    (turns : List Turn) (r : Registry)
    → watch_loop turns r ≡ (is_ended turns, run (calls_made turns) r)
unfolding watch_loop run
watch_loop_lem [] r = refl
watch_loop_lem ((calls, true) ∷ turns) r = ap (λ x. (true, x)) (sym (run-append calls [] r))
watch_loop_lem ((calls, false) ∷ turns) r =
    watch_loop_lem turns (run calls r)
    ∙ ap (λ x. (is_ended turns, x)) (sym (run-append calls (calls_made turns) r))

-- The watch of a client on a stream that is registered stays, as long as the calls leave it.
spec_watch_run-kept :
    (c : Bytes) (w : ℕ) (calls : List Call) (view : WatchView)
    → leaves_watch c w calls ≡ true
    → view c w ≡ true
    → spec_watch_run calls view c w ≡ true
spec_watch_run-kept c w [] view h e = e
spec_watch_run-kept c w (unregisters d v ∷ calls) view h e =
    spec_watch_run-kept c w calls (spec_watch (unregisters d v) view) (ground arith) (ground arith)
spec_watch_run-kept c w (clears ∷ calls) view h e = absurd (cc)
spec_watch_run-kept c w (subscribes d channel scope ∷ calls) view h e =
    spec_watch_run-kept c w calls view h e
spec_watch_run-kept c w (unsubscribes d channel scope ∷ calls) view h e =
    spec_watch_run-kept c w calls view h e
spec_watch_run-kept c w (unsubscribes_all d ∷ calls) view h e =
    spec_watch_run-kept c w calls view h e
spec_watch_run-kept c w (registers d v ∷ calls) view h e =
    spec_watch_run-kept c w calls (spec_watch (registers d v) view) h (ground arith)

-- What the calls make of a stream's watch depends on that watch alone.
spec_watch_run-at :
    (d : Bytes) (v : ℕ) (calls : List Call) (view view' : WatchView)
    → view d v ≡ view' d v
    → spec_watch_run calls view d v ≡ spec_watch_run calls view' d v
spec_watch_run-at d v [] view view' e = e
spec_watch_run-at d v (call ∷ calls) view view' e =
    spec_watch_run-at d v calls (spec_watch call view) (spec_watch call view') (one call)
  where
    one : (call : Call) → spec_watch call view d v ≡ spec_watch call view' d v
    one (unregisters b u) = rw e refl
    one clears = refl
    one (subscribes b channel scope) = e
    one (unsubscribes b channel scope) = e
    one (unsubscribes_all b) = e
    one (registers b u) = rw e refl

same_pair_refl : (w : ℕ) (c : Bytes) → same_pair Bytes-discrete ℕ_discrete w c w c ≡ true
same_pair_refl w c = ground arith

same_pair-eq :
    (w v : ℕ) (c d : Bytes) → same_pair Bytes-discrete ℕ_discrete w c v d ≡ true → (c ≡ d) × (w ≡ v)
same_pair-eq w v c d h = (ground arith, ground arith)

registers-watching :
    (c : Bytes) (w : ℕ) (view : WatchView)
    → c ≢ []
    → w ≢ 0
    → spec_watch (registers c w) view c w ≡ true
registers-watching [] w view hc hw = absurd (hc refl)
registers-watching (x ∷ c) w view hc hw = ground (arith, same_pair_refl w (x ∷ c))

unregisters-watching :
    (c : Bytes) (w : ℕ) (view : WatchView) (d : Bytes) (v : ℕ)
    → c ≢ []
    → w ≢ 0
    → spec_watch (unregisters c w) view d v
      ≡ (view d v && not (same_pair Bytes-discrete ℕ_discrete w c v d))
unregisters-watching [] w view d v hc hw = absurd (hc refl)
unregisters-watching (x ∷ c) w view d v hc hw = ground arith

module _ (c : Bytes) (w : ℕ) (turns : List Turn) (r : Registry) where
  -- The registry while the loop runs, or has just been left.
  abbrev in_loop : Registry
  in_loop = run (registers c w ∷ calls_made turns) r

  -- What the watch of a client on a stream is after a call of Watch.
  abbrev watched : Bytes → ℕ → Bool
  watched d v =
      if same_pair Bytes-discrete ℕ_discrete w c v d
      then not (is_ended turns)
      else spec_watch_run (calls_made turns) (is_watching r) d v

  abbrev reaches : Bytes → Bytes → Registry → Bool
  reaches channel scope r' =
      is_empty channel
      || not (is_subscribed r' c (channel_key channel scope))
      || contains ℕ_discrete w (publish_targets channel scope r')

  -- The handler's status and the registry after the turns.
  abbrev pub Serves : Option Status × Registry → Type 0
  Serves (status, r') =
      (status ≡ (if is_ended turns then some status_ok else none))
      × (is_subscribed r' ≡ spec_run (calls_made turns) (is_subscribed r))
      × ((d : Bytes) (v : ℕ) → is_watching r' d v ≡ watched d v)
      × ((channel scope : Bytes) → (is_ended turns || reaches channel scope r') ≡ true)

  in_loop-watching :
      c ≢ [] → w ≢ 0 → leaves_watch c w (calls_made turns) ≡ true → is_watching in_loop c w ≡ true
  in_loop-watching hc hw h =
      ap (λ (view : WatchView). view c w) (run-spec_watch (registers c w ∷ calls_made turns) r)
      ∙ spec_watch_run-kept c w (calls_made turns) (spec_watch (registers c w) (is_watching r)) h
          (registers-watching c w (is_watching r) hc hw)

  in_loop-others :
      (d : Bytes) (v : ℕ)
      → same_pair Bytes-discrete ℕ_discrete w c v d ≡ false
      → is_watching in_loop d v ≡ spec_watch_run (calls_made turns) (is_watching r) d v
  in_loop-others d v h =
      ap (λ (view : WatchView). view d v) (run-spec_watch (registers c w ∷ calls_made turns) r)
      ∙ spec_watch_run-at d v (calls_made turns) (spec_watch (registers c w) (is_watching r))
          (is_watching r) (ground arith)

  in_loop-reaches :
      (channel scope : Bytes)
      → is_watching in_loop c w ≡ true
      → reaches channel scope in_loop ≡ true
  in_loop-reaches [] scope h = refl
  in_loop-reaches (x ∷ channel) scope h =
      elim (Bool-cases (is_subscribed in_loop c (channel_key (x ∷ channel) scope))) [
        | inl s ↦
            rw (s, (publish_targets_lem (x ∷ channel) scope in_loop w (λ e. cc)).1 (c, s, h)) refl
        | inr s ↦ rw s refl
      ]

  running :
      is_watching in_loop c w ≡ true
      → (d : Bytes) (v : ℕ)
      → is_watching in_loop d v ≡ (
          if same_pair Bytes-discrete ℕ_discrete w c v d
          then true
          else spec_watch_run (calls_made turns) (is_watching r) d v)
  running h d v = elim (Bool-cases (same_pair Bytes-discrete ℕ_discrete w c v d)) [
    | inl e ↦ rw e (rw (sym (same_pair-eq w v c d e).0, sym (same_pair-eq w v c d e).1) h)
    | inr e ↦ rw e (in_loop-others d v e)
  ]

  ended :
      c ≢ []
      → w ≢ 0
      → (d : Bytes) (v : ℕ)
      → is_watching (watch_end c w in_loop) d v ≡ (
          if same_pair Bytes-discrete ℕ_discrete w c v d
          then false
          else spec_watch_run (calls_made turns) (is_watching r) d v)
  unfolding watch_end step
  ended hc hw d v =
      step-spec_watch (unregisters c w) in_loop d v
      ∙ unregisters-watching c w (is_watching in_loop) d v hc hw
      ∙ ground (arith, in_loop-others d v)

  in_loop-subscribed :
      IsConsistent r → is_subscribed in_loop ≡ spec_run (calls_made turns) (is_subscribed r)
  in_loop-subscribed v = run-refines (registers c w ∷ calls_made turns) r v

  ended-subscribed : IsConsistent r → is_subscribed (watch_end c w in_loop) ≡ is_subscribed in_loop
  unfolding watch_end step
  ended-subscribed v = fun_ext λ d. fun_ext λ key.
      step-refines (unregisters c w) in_loop
        (run-IsConsistent (registers c w ∷ calls_made turns) r v) d key

  loop-Serves :
      IsConsistent r
      → c ≢ []
      → w ≢ 0
      → leaves_watch c w (calls_made turns) ≡ true
      → Serves (after_loop c w (is_ended turns, in_loop))
  loop-Serves v hc hw h = elim (Bool-cases (is_ended turns)) [
    | inl e ↦
        rw e (refl, ended-subscribed v ∙ in_loop-subscribed v, ended hc hw, (λ channel scope. refl))
    | inr e ↦ rw e (
      refl,
      in_loop-subscribed v,
      running (in_loop-watching hc hw h),
      (λ channel scope. in_loop-reaches channel scope (in_loop-watching hc hw h)),
    )
  ]

-- Suppose that, on a consistent registry, a client whose id is not empty calls Watch with a stream
-- that is not null, and that until IsCancelled answers true no other call ends this client's watch
-- on the stream or clears the registry. Then Watch stays in its loop until IsCancelled answers
-- true, and answers OK behind it. The stream watches for the client as long as the loop runs, and
-- not afterwards; all other watches, and all subscriptions, are what the specifications of the
-- other calls make of them. While the loop runs, a Publish of a channel that is not empty, with a
-- scope for which the client is subscribed to the channel, writes to the stream.
pub watch-Serves :
    (c : Bytes) (w : ℕ) (turns : List Turn) (r : Registry)
    → IsConsistent r
    → c ≢ []
    → w ≢ 0
    → leaves_watch c w (calls_made turns) ≡ true
    → Serves c w turns r (watch c w turns r)
unfolding watch watch_begin validate_client_id
watch-Serves [] w turns r v hc hw h = absurd (hc refl)
watch-Serves (x ∷ c) w turns r v hc hw h =
    rw (watch_loop_lem turns (register_watch (x ∷ c) w r))
      (unfold run step in loop-Serves (x ∷ c) w turns r v hc hw h)
