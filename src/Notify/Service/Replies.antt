-- ===== src/Notify/Service/Replies.antt =====
-- What the RPCs of the notify service (src/service/mtdd_notify_service.cpp) answer, and what they do
-- to the registry.
use mathlib.Core.Path.{fun_ext}
use mtdd_server.Base.{
  Bytes, codes, [], ◌∷◌, Bool, Bool-cases, ◌&&◌, not, true, false, is_empty, if◌then◌else◌, ◌≡◌,
  refl, inl, inr,
}
use mtdd_server.Base.Int.{pos}
use mtdd_server.Config.{ServerConfig}
use mtdd_server.Notify.Registry.{
  Registry, Call, subscribes, unsubscribes, unsubscribes_all, registers, step,
}
use mtdd_server.Notify.Registry.Refinement.{spec, step-refines}
use mtdd_server.Notify.Registry.History.{spec_watch, step-spec_watch}
use mtdd_server.Notify.Registry.Delivery.{is_watching}
use mtdd_server.Notify.Registry.Invariant.{is_subscribed, IsConsistent}
use mtdd_server.Notify.Service.{
  Status, status_ok, invalid_argument, NotifyAck, exceeds, validate_client_id, validate_channel,
  validate_notify_limits, set_ack, Rpc, subscribe_rpc, unsubscribe_rpc, unsubscribe_all_rpc,
  watch_rpc, answer,
}

abbrev pub is_ok : Status → Bool
is_ok status_ok = true
is_ok (invalid_argument e) = false

-- The requests that are accepted.
abbrev pub is_accepted : ServerConfig → Rpc → Bool
is_accepted config (subscribe_rpc c channel scope) =
    not (is_empty c)
    && not (is_empty channel)
    && not (exceeds channel config.max_notify_channel_bytes)
    && not (exceeds [] config.max_notify_payload_bytes)
is_accepted config (unsubscribe_rpc c channel scope) = not (is_empty c) && not (is_empty channel)
is_accepted config (unsubscribe_all_rpc c) = not (is_empty c)
is_accepted config (watch_rpc c writer) = not (is_empty c)

-- The call of the registry that an accepted request stands for.
abbrev pub call_of : Rpc → Call
call_of (subscribe_rpc c channel scope) = subscribes c channel scope
call_of (unsubscribe_rpc c channel scope) = unsubscribes c channel scope
call_of (unsubscribe_all_rpc c) = unsubscribes_all c
call_of (watch_rpc c writer) = registers c writer

abbrev acknowledged : Bytes → NotifyAck
acknowledged message = record { ack_ok = true; ack_message = message; delivered_count = pos 0 }

-- The response that an accepted request fills in; Watch has none.
abbrev pub ack_of : Rpc → NotifyAck → NotifyAck
ack_of (subscribe_rpc c channel scope) response = acknowledged (codes "subscribed")
ack_of (unsubscribe_rpc c channel scope) response = acknowledged (codes "unsubscribed")
ack_of (unsubscribe_all_rpc c) response = acknowledged (codes "unsubscribed all")
ack_of (watch_rpc c writer) response = response

-- An accepted request, or a refused one, on what a client can observe of the registry.
abbrev Changed : Rpc → Bool → NotifyAck × Registry → NotifyAck × Registry → Type 0
Changed rpc accepted (response, r) (response', r') =
    (is_subscribed r'
      ≡ (if accepted then spec (call_of rpc) (is_subscribed r) else is_subscribed r))
    × (is_watching r'
        ≡ (if accepted then spec_watch (call_of rpc) (is_watching r) else is_watching r))
    × (response' ≡ (if accepted then ack_of rpc response else response))

abbrev pub Replies :
    ServerConfig → Rpc → NotifyAck × Registry → Status × (NotifyAck × Registry) → Type 0
Replies config rpc before (status, after) =
    (is_ok status ≡ is_accepted config rpc) × Changed rpc (is_accepted config rpc) before after

kept :
    (response : NotifyAck) (r : Registry) (rpc : Rpc)
    → Changed rpc false (response, r) (response, r)
kept response r rpc = (refl, refl, refl)

module _ (response response' : NotifyAck) (r : Registry) where
  stepped :
      (rpc : Rpc)
      → IsConsistent r
      → response' ≡ ack_of rpc response
      → Changed rpc true (response, r) (response', step (call_of rpc) r)
  stepped rpc v e = (
    fun_ext λ d. fun_ext λ key. step-refines (call_of rpc) r v d key,
    fun_ext λ d. fun_ext λ w. step-spec_watch (call_of rpc) r d w,
    e,
  )

-- On a consistent registry, Subscribe, Unsubscribe, UnsubscribeAll and Watch, up to its loop,
-- answer OK exactly if the client id is not empty, the channel, where there is one, is not empty,
-- and, for Subscribe, the channel and the empty payload are within their limits. An accepted
-- request does to the subscriptions and to the watching streams what the specification of its call
-- says, and fills in the acknowledgement, but for Watch, which has none; a refused one leaves the
-- subscriptions, the watching streams and the response as they were.
pub answer-Replies :
    (config : ServerConfig) (rpc : Rpc) (response : NotifyAck) (r : Registry)
    → IsConsistent r
    → Replies config rpc (response, r) (answer config rpc (response, r))
unfolding answer validate_client_id validate_channel validate_notify_limits set_ack step
answer-Replies config (subscribe_rpc [] channel scope) response r v =
    (refl, kept response r (subscribe_rpc [] channel scope))
answer-Replies config (subscribe_rpc (x ∷ c) [] scope) response r v =
    (refl, kept response r (subscribe_rpc (x ∷ c) [] scope))
answer-Replies config (subscribe_rpc (x ∷ c) (y ∷ channel) scope) response r v =
    let rpc = subscribe_rpc (x ∷ c) (y ∷ channel) scope in
    elim (Bool-cases (exceeds (y ∷ channel) config.max_notify_channel_bytes)) [
      | inl long ↦ rw long (refl, kept response r rpc)
      | inr fits ↦ elim (Bool-cases (exceeds [] config.max_notify_payload_bytes)) [
        | inl long ↦ rw (fits, long) (refl, kept response r rpc)
        | inr fine ↦ rw (fits, fine) (refl, stepped response _ r rpc v refl)
      ]
    ]
answer-Replies config (unsubscribe_rpc [] channel scope) response r v =
    (refl, kept response r (unsubscribe_rpc [] channel scope))
answer-Replies config (unsubscribe_rpc (x ∷ c) [] scope) response r v =
    (refl, kept response r (unsubscribe_rpc (x ∷ c) [] scope))
answer-Replies config (unsubscribe_rpc (x ∷ c) (y ∷ channel) scope) response r v =
    (refl, stepped response _ r (unsubscribe_rpc (x ∷ c) (y ∷ channel) scope) v refl)
answer-Replies config (unsubscribe_all_rpc []) response r v =
    (refl, kept response r (unsubscribe_all_rpc []))
answer-Replies config (unsubscribe_all_rpc (x ∷ c)) response r v =
    (refl, stepped response _ r (unsubscribe_all_rpc (x ∷ c)) v refl)
answer-Replies config (watch_rpc [] writer) response r v =
    (refl, kept response r (watch_rpc [] writer))
answer-Replies config (watch_rpc (x ∷ c) writer) response r v =
    (refl, stepped response response r (watch_rpc (x ∷ c) writer) v refl)
