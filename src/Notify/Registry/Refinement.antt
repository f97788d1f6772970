-- ===== src/Notify/Registry/Refinement.antt =====
-- The registry as a client sees it: who is subscribed to which key, a Boolean for each pair. Each
-- call does to this view what the abstract specification says.
use mtdd_server.Base.{true}
use mtdd_server.Base.{
  Bytes, Bytes-discrete, List, [], ◌∷◌, Bool, false, ◌≡◌, refl, arith, inl, inr, not, ◌||◌, ◌&&◌,
  Option-cases, contains, ◌∙◌, ap,
}
use mathlib.Core.Path.{fun_ext}
use mtdd_server.Base.Maps.{lookup}
use mtdd_server.Notify.Index.{same_pair, holds-add, holds-drop_member}
use mtdd_server.Notify.ChannelKey.{channel_key}
use mtdd_server.Notify.Registry.{
  Registry, subscribe, remove_client_from_key, unsubscribe, remove_client_from_keys,
  unsubscribe_all, register_watch, unregister_watch, clear, Call, subscribes, unsubscribes,
  unsubscribes_all, registers, unregisters, clears, step, run, is_valid_client_id, is_valid_channel,
}
use mtdd_server.Notify.Registry.Invariant.{is_subscribed, IsConsistent, step-IsConsistent}

-- What a client can observe of the subscriptions.
abbrev pub View : Type 0
View = Bytes → Bytes → Bool

abbrev same : Bytes → Bytes → Bool
same c d = elim (Bytes-discrete c d) [ yes _ ↦ true | no _ ↦ false ]

-- The specification of each call on the view: who is subscribed to what afterwards.
abbrev pub spec : Call → View → View
spec (subscribes c channel scope) view d key =
    view d key
    || (is_valid_client_id c
        && is_valid_channel channel
        && same_pair Bytes-discrete Bytes-discrete c (channel_key channel scope) d key)
spec (unsubscribes c channel scope) view d key =
    view d key
    && not (
        is_valid_client_id c
        && is_valid_channel channel
        && same_pair Bytes-discrete Bytes-discrete c (channel_key channel scope) d key)
spec (unsubscribes_all c) view d key = view d key && not (is_valid_client_id c && same c d)
spec (registers c w) view d key = view d key
spec (unregisters c w) view d key = view d key
spec clears view d key = false

-- The loop of `UnsubscribeAll` removes the pairs of the client and the listed keys.
is_subscribed-remove_client_from_keys :
    (c : Bytes) (keys : List Bytes) (r : Registry) (d key : Bytes)
    → is_subscribed (remove_client_from_keys c keys r) d key
      ≡ (is_subscribed r d key && not (same c d && contains Bytes-discrete key keys))
unfolding remove_client_from_keys remove_client_from_key
is_subscribed-remove_client_from_keys c [] r d key = ground arith
is_subscribed-remove_client_from_keys c (k ∷ keys) r d key = ground (
  arith,
  is_subscribed-remove_client_from_keys c keys (remove_client_from_key c k r) d key,
  holds-drop_member Bytes-discrete Bytes-discrete k c r.subscriptions d key,
)

unsubscribe_all-spec_lem :
    (c : Bytes) (r : Registry)
    → IsConsistent r
    → (d key : Bytes)
    → is_subscribed (unsubscribe_all c r) d key ≡ spec (unsubscribes_all c) (is_subscribed r) d key
unfolding unsubscribe_all
unsubscribe_all-spec_lem [] r v d key = ground arith
unsubscribe_all-spec_lem (x ∷ c) r v d key =
    elim (Option-cases (lookup Bytes-discrete (x ∷ c) r.client_keys)) [
      | inl e ↦ ground (arith, v.mirrored (x ∷ c) key)
      | inr (keys, e) ↦ ground (
        arith,
        is_subscribed-remove_client_from_keys (x ∷ c) keys r d key,
        v.mirrored (x ∷ c) key,
      )
    ]

-- Refinement: of a consistent registry, a call changes the view exactly as the specification says.
pub step-refines :
    (call : Call) (r : Registry)
    → IsConsistent r
    → (d key : Bytes) → is_subscribed (step call r) d key ≡ spec call (is_subscribed r) d key
unfolding step subscribe unsubscribe remove_client_from_key register_watch unregister_watch clear
    lookup
step-refines (subscribes c channel scope) r v d key = ground (
  arith,
  holds-add Bytes-discrete Bytes-discrete (channel_key channel scope) c r.subscriptions d key,
)
step-refines (unsubscribes c channel scope) r v d key = ground (
  arith,
  holds-drop_member Bytes-discrete Bytes-discrete (channel_key channel scope) c r.subscriptions d
      key,
)
step-refines (unsubscribes_all c) r v d key = unsubscribe_all-spec_lem c r v d key
step-refines (registers c w) r v d key = ground arith
step-refines (unregisters c w) r v d key = ground arith
step-refines clears r v d key = refl

-- The specification run over a history.
abbrev pub spec_run : List Call → View → View
spec_run [] view = view
spec_run (c ∷ cs) view = spec_run cs (spec c view)

-- From a consistent registry, any history of calls changes the view of who is subscribed to which
-- key exactly as the abstract specification run over the same history does.
pub run-refines :
    (cs : List Call) (r : Registry)
    → IsConsistent r
    → is_subscribed (run cs r) ≡ spec_run cs (is_subscribed r)
unfolding run
run-refines [] r v = refl
run-refines (c ∷ cs) r v =
    run-refines cs (step c r) (step-IsConsistent c r v)
    ∙ ap (spec_run cs) (fun_ext λ d. fun_ext λ key. step-refines c r v d key)
