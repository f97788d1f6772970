-- ===== src/Notify/Service.antt =====
-- src/service/mtdd_notify_service.cpp: MtddNotifyServiceImpl, the RPCs that call the registry. A
-- handler takes the registry, the response it is to fill and its request's fields, and returns
-- grpc::Status beside the new ones. Log lines are left out. `watch` is told, for each turn of
-- Watch's loop, which calls the other RPCs make of the registry meanwhile, and what IsCancelled
-- answers.
pub mod Replies
pub mod Watch
use mtdd_server.Base.{[], List, ◌∷◌, Option, none, some}
use mtdd_server.Base.{ℕ, Bytes, codes, Bool, true, false, not, is_empty, if◌then◌else◌, length}
use mtdd_server.Base.Int.{ℤ, pos, ltb_ℤ, int_cast}
use mtdd_server.Config.{ServerConfig}
use mtdd_server.Notify.Registry
use mtdd_server.Notify.Registry.{Registry, Message, Call, run}

-- grpc::Status: OK, or INVALID_ARGUMENT with a message.
pub data Status : Type 0 where
  status_ok : Status
  invalid_argument : Bytes → Status

-- mtdd::NotifyAck
pub record NotifyAck : Type 0 where
  pub ack_ok : Bool
  pub ack_message : Bytes
  pub delivered_count : ℤ

abbrev pub empty_ack : NotifyAck
empty_ack = record { ack_ok = false; ack_message = []; delivered_count = pos 0 }

-- `if (status = ...; !status.ok()) return status;`
infixl 5 ◌then_check◌
abbrev pub ◌then_check◌ : Status → Status → Status
status_ok then_check next = next
(invalid_argument e) then_check next = invalid_argument e

unfoldable pub validate_client_id : Bytes → Status
validate_client_id client_id =
    if is_empty client_id then invalid_argument (codes "client_id is required") else status_ok

unfoldable pub validate_channel : Bytes → Status
validate_channel channel =
    if is_empty channel then invalid_argument (codes "channel is required") else status_ok

-- static_cast<int>(text.size()) > limit
abbrev pub exceeds : Bytes → ℤ → Bool
exceeds text limit = ltb_ℤ limit (int_cast (pos (length text)))

unfoldable pub validate_notify_limits : ServerConfig → Bytes → Bytes → Status
validate_notify_limits config channel payload =
    if exceeds channel config.max_notify_channel_bytes
    then invalid_argument (codes "channel exceeds MTDD_MAX_NOTIFY_CHANNEL_BYTES")
    else if exceeds payload config.max_notify_payload_bytes
    then invalid_argument (codes "payload exceeds MTDD_MAX_NOTIFY_PAYLOAD_BYTES")
    else status_ok

unfoldable pub set_ack : Bool → Bytes → ℤ → NotifyAck
set_ack ok message delivered_count = record {
  ack_ok = ok;
  ack_message = message;
  delivered_count = delivered_count;
}

-- What a handler leaves where its checks have passed, or one of them has not.
abbrev guarded : {A : Type 0} → Status → A → A → Status × A
guarded status_ok done_ kept = (status_ok, done_)
guarded (invalid_argument e) done_ kept = (invalid_argument e, kept)

unfoldable pub subscribe :
    ServerConfig → Bytes → Bytes → Bytes → NotifyAck × Registry → Status × (NotifyAck × Registry)
subscribe config client_id channel tid_scope (response, r) =
    guarded
      (validate_client_id client_id
        then_check validate_channel channel
        then_check validate_notify_limits config channel [])
      (set_ack true (codes "subscribed") (pos 0), Registry.subscribe client_id channel tid_scope r)
      (response, r)

unfoldable pub unsubscribe :
    Bytes → Bytes → Bytes → NotifyAck × Registry → Status × (NotifyAck × Registry)
unsubscribe client_id channel tid_scope (response, r) =
    guarded (validate_client_id client_id then_check validate_channel channel)
      (
        set_ack true (codes "unsubscribed") (pos 0),
        Registry.unsubscribe client_id channel tid_scope r,
      )
      (response, r)

unfoldable pub unsubscribe_all : Bytes → NotifyAck × Registry → Status × (NotifyAck × Registry)
unsubscribe_all client_id (response, r) =
    guarded (validate_client_id client_id)
      (set_ack true (codes "unsubscribed all") (pos 0), Registry.unsubscribe_all client_id r)
      (response, r)

module _ {S : Type 0} (write : ℕ → Message → S → Bool × S) where
  abbrev published : ℕ × S → NotifyAck × S
  published (delivered, s) = (set_ack true (codes "published") (int_cast (pos delivered)), s)

  -- The registry stays; the streams change.
  unfoldable pub publish :
      ServerConfig → Bytes → Bytes → Bytes → Registry → NotifyAck × S → Status × (NotifyAck × S)
  publish config channel payload tid_scope r (response, s) =
      guarded (validate_channel channel then_check validate_notify_limits config channel payload)
        (published (Registry.publish write channel payload tid_scope r s)) (response, s)

unfoldable pub watch_begin : Bytes → ℕ → Registry → Status × Registry
watch_begin client_id writer r =
    guarded (validate_client_id client_id) (Registry.register_watch client_id writer r) r

unfoldable pub watch_end : Bytes → ℕ → Registry → Registry
watch_end client_id writer r = Registry.unregister_watch client_id writer r

-- A turn of Watch's loop: the calls of other RPCs on the registry since the last turn, and the
-- answer of IsCancelled.
abbrev pub Turn : Type 0
Turn = List Call × Bool

-- Whether the loop is left after the turns, and the registry then.
unfoldable pub watch_loop : List Turn → Registry → Bool × Registry
watch_loop [] r = (false, r)
watch_loop ((calls, cancelled) ∷ turns) r = elim cancelled [
  | true ↦ (true, run calls r)
  | false ↦ watch_loop turns (run calls r)
]

abbrev after_loop : Bytes → ℕ → Bool × Registry → Option Status × Registry
after_loop client_id writer (true, r) = (some status_ok, watch_end client_id writer r)
after_loop client_id writer (false, r) = (none, r)

abbrev after_begin : Bytes → ℕ → List Turn → Status × Registry → Option Status × Registry
after_begin client_id writer turns (invalid_argument e, r) = (some (invalid_argument e), r)
after_begin client_id writer turns (status_ok, r) = after_loop client_id writer (watch_loop turns r)

-- No status means that the handler still is in its loop.
unfoldable pub watch : Bytes → ℕ → List Turn → Registry → Option Status × Registry
unfolding watch_begin watch_loop watch_end
watch client_id writer turns r = after_begin client_id writer turns (watch_begin client_id writer r)

-- The RPCs that change the registry. Watch is its part before the loop, and has no acknowledgement.
pub data Rpc : Type 0 where
  subscribe_rpc unsubscribe_rpc : Bytes → Bytes → Bytes → Rpc
  unsubscribe_all_rpc : Bytes → Rpc
  watch_rpc : Bytes → ℕ → Rpc

abbrev with_response : NotifyAck → Status × Registry → Status × (NotifyAck × Registry)
with_response response (status, r) = (status, (response, r))

unfoldable pub answer : ServerConfig → Rpc → NotifyAck × Registry → Status × (NotifyAck × Registry)
unfolding subscribe unsubscribe unsubscribe_all watch_begin
answer config (subscribe_rpc client_id channel tid_scope) s =
    subscribe config client_id channel tid_scope s
answer config (unsubscribe_rpc client_id channel tid_scope) s =
    unsubscribe client_id channel tid_scope s
answer config (unsubscribe_all_rpc client_id) s = unsubscribe_all client_id s
answer config (watch_rpc client_id writer) (response, r) =
    with_response response (watch_begin client_id writer r)
