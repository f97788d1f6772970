-- ===== src/Notify/Registry/History.antt =====
-- Whom Publish of NotifyRegistry (src/notify/registry.cpp) writes to after a history of calls.
use mathlib.Core.Path.{subst}
use mtdd_server.Base.{
  ℕ, Bytes, Bytes-discrete, ℕ_discrete, List, [], ◌∷◌, Bool, true, false, ◌≡◌, ◌≢◌, refl, arith,
  not, ◌||◌, ◌&&◌, ◌==◌, contains, ◌∙◌, ap, ◌↔◌, ◌++◌, Bool-cases, inl, inr, contains-append_left,
  contains-append_none, Option-cases,
}
use mathlib.Core.Path.{fun_ext}
use mtdd_server.Base.Maps.{lookup, lookup-assign}
use mtdd_server.Notify.Index.{members, same_pair, holds-drop_member}
use mtdd_server.Notify.ChannelKey.{channel_key}
use mtdd_server.Notify.Registry.{
  Registry, subscribe, remove_client_from_key, unsubscribe, remove_client_from_keys,
  unsubscribe_all, register_watch, unregister_watch, clear, Call, subscribes, unsubscribes,
  unsubscribes_all, registers, unregisters, clears, step, run, is_valid_client_id, publish_targets,
}
use mtdd_server.Notify.Registry.Invariant.{is_subscribed, IsConsistent}
use mtdd_server.Notify.Registry.Refinement.{spec_run, run-refines}
use mtdd_server.Notify.Registry.Delivery.{is_watching, publish_targets_lem}

-- Which streams watch for which clients.
abbrev pub WatchView : Type 0
WatchView = Bytes → ℕ → Bool

-- The specification of each call on the watching streams; a null stream is not registered.
abbrev pub spec_watch : Call → WatchView → WatchView
spec_watch (registers c w) view d v =
    view d v
    || (is_valid_client_id c && not (w == 0) && same_pair Bytes-discrete ℕ_discrete w c v d)
spec_watch (unregisters c w) view d v =
    view d v
    && not (is_valid_client_id c && not (w == 0) && same_pair Bytes-discrete ℕ_discrete w c v d)
spec_watch clears view d v = false
spec_watch (subscribes c channel scope) view d v = view d v
spec_watch (unsubscribes c channel scope) view d v = view d v
spec_watch (unsubscribes_all c) view d v = view d v

abbrev pub spec_watch_run : List Call → WatchView → WatchView
spec_watch_run [] view = view
spec_watch_run (c ∷ cs) view = spec_watch_run cs (spec_watch c view)

remove_client_from_keys-watchers :
    (c : Bytes) (keys : List Bytes) (r : Registry)
    → (remove_client_from_keys c keys r).watchers ≡ r.watchers
unfolding remove_client_from_keys remove_client_from_key
remove_client_from_keys-watchers c [] r = refl
remove_client_from_keys-watchers c (k ∷ keys) r =
    remove_client_from_keys-watchers c keys (remove_client_from_key c k r)

unsubscribe_all-watchers : (c : Bytes) (r : Registry) → (unsubscribe_all c r).watchers ≡ r.watchers
unfolding unsubscribe_all
unsubscribe_all-watchers [] r = refl
unsubscribe_all-watchers (x ∷ c) r =
    elim (Option-cases (lookup Bytes-discrete (x ∷ c) r.client_keys)) [
      | inl e ↦ rw (e, unsubscribe_all) refl
      | inr (keys, e) ↦ rw (e, unsubscribe_all) (remove_client_from_keys-watchers (x ∷ c) keys r)
    ]

contains-snoc :
    (v w : ℕ) (xs : List ℕ)
    → contains ℕ_discrete v (xs ++ w ∷ [])
      ≡ (contains ℕ_discrete v xs || contains ℕ_discrete v (w ∷ []))
contains-snoc v w xs = elim (Bool-cases (contains ℕ_discrete v xs)) [
  | inl e ↦ ground (arith, contains-append_left ℕ_discrete v xs (w ∷ []))
  | inr e ↦ ground (arith, contains-append_none ℕ_discrete v xs (w ∷ []))
]

pub step-spec_watch :
    (call : Call) (r : Registry) (d : Bytes) (v : ℕ)
    → is_watching (step call r) d v ≡ spec_watch call (is_watching r) d v
unfolding step subscribe unsubscribe remove_client_from_key register_watch unregister_watch clear
    lookup
step-spec_watch (subscribes c channel scope) r d v = ground arith
step-spec_watch (unsubscribes c channel scope) r d v = ground arith
step-spec_watch (unsubscribes_all c) r d v =
    ap (λ m. contains ℕ_discrete v (members (lookup Bytes-discrete d m)))
      (unsubscribe_all-watchers c r)
step-spec_watch (registers c w) r d v = ground (
  arith,
  lookup-assign Bytes-discrete c d (members (lookup Bytes-discrete c r.watchers) ++ w ∷ [])
      r.watchers,
  contains-snoc v w (members (lookup Bytes-discrete c r.watchers)),
)
step-spec_watch (unregisters c w) r d v =
    ground (arith, holds-drop_member Bytes-discrete ℕ_discrete c w r.watchers v d)
step-spec_watch clears r d v = refl

pub run-spec_watch :
    (cs : List Call) (r : Registry) → is_watching (run cs r) ≡ spec_watch_run cs (is_watching r)
unfolding run
run-spec_watch [] r = refl
run-spec_watch (c ∷ cs) r =
    run-spec_watch cs (step c r)
    ∙ ap (spec_watch_run cs) (fun_ext λ d. fun_ext λ v. step-spec_watch c r d v)

-- After any history of calls on a consistent registry, the streams that Publish of a channel that
-- is not empty writes to are exactly those that, by the abstract specifications of the
-- subscriptions and of the watching streams run over the same history, watch for a client that is
-- subscribed to the channel's key.
pub run-publish_targets :
    (cs : List Call) (r : Registry) (channel scope : Bytes) (writer : ℕ)
    → IsConsistent r
    → channel ≢ []
    → (contains ℕ_discrete writer (publish_targets channel scope (run cs r)) ≡ true) ↔ (
        (c : Bytes) × (spec_run cs (is_subscribed r) c (channel_key channel scope) ≡ true)
        × (spec_watch_run cs (is_watching r) c writer ≡ true))
run-publish_targets cs r channel scope writer v h =
    subst
      (λ (views : (Bytes → Bytes → Bool) × WatchView).
        (contains ℕ_discrete writer (publish_targets channel scope (run cs r)) ≡ true) ↔ (
          (c : Bytes) × (views.0 c (channel_key channel scope) ≡ true) × (views.1 c writer ≡ true)))
      (pair_path (run-refines cs r v) (run-spec_watch cs r))
      (publish_targets_lem channel scope (run cs r) writer h)
  where
    pair_path :
        {a b : Bytes → Bytes → Bool} {x y : WatchView}
        → a ≡ b
        → x ≡ y
        → ◌≡◌ {A = (Bytes → Bytes → Bool) × WatchView} (a, x) (b, y)
    pair_path p q = λ i. (p i, q i)
