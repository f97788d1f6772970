-- ===== src/Notify/Registry.antt =====
-- src/notify/registry.cpp: NotifyRegistry. Each public member function takes the lock for all that
-- it does to the maps, so a call is one step from state to state; the one exception, the writes of
-- `Publish` behind the lock, is `write_all`. A stream writer is its address, a number, and 0 is the
-- null pointer.
pub mod Invariant
pub mod Refinement
pub mod Delivery
pub mod History
use mtdd_server.Base.{
  ℕ, zero, suc, ◌+◌, Bytes, Bytes-discrete, ℕ_discrete, List, [], ◌∷◌, ◌++◌, Option, none, some,
  Bool, true, false, not, ◌||◌, is_empty, if◌then◌else◌, ◌==◌, erase, length,
}
use mtdd_server.Base.Maps.{lookup, assign, remove}
use mtdd_server.Notify.Index.{members, add, drop_member, write_back}
use mtdd_server.Notify.ChannelKey.{channel_key}

abbrev pub SetMap : Type 0
SetMap = List (Bytes × List Bytes)

pub record Registry : Type 0 where
  pub subscriptions : SetMap
  pub client_keys : SetMap
  pub watchers : List (Bytes × List ℕ)

-- mtdd::NotifyMessage
pub record Message : Type 0 where
  pub channel : Bytes
  pub payload : Bytes
  pub process_id : ℕ

unfoldable pub make_message : Bytes → Bytes → Message
make_message channel payload = record { channel = channel; payload = payload; process_id = 0 }

abbrev pub is_valid_client_id : Bytes → Bool
is_valid_client_id client_id = not (is_empty client_id)

abbrev pub is_valid_channel : Bytes → Bool
is_valid_channel channel = not (is_empty channel)

abbrev pub initial : Registry
initial = record { subscriptions = []; client_keys = []; watchers = [] }

unfoldable pub subscribe : Bytes → Bytes → Bytes → Registry → Registry
subscribe client_id channel tid_scope r =
    if not (is_valid_client_id client_id) || not (is_valid_channel channel)
    then r
    else (let key = channel_key channel tid_scope in
        record r {
          subscriptions = add Bytes-discrete Bytes-discrete key client_id r.subscriptions;
          client_keys = add Bytes-discrete Bytes-discrete client_id key r.client_keys;
        })

unfoldable pub remove_client_from_key : Bytes → Bytes → Registry → Registry
remove_client_from_key client_id key r = record r {
  subscriptions = drop_member Bytes-discrete Bytes-discrete key client_id r.subscriptions;
  client_keys = drop_member Bytes-discrete Bytes-discrete client_id key r.client_keys;
}

unfoldable pub unsubscribe : Bytes → Bytes → Bytes → Registry → Registry
unsubscribe client_id channel tid_scope r =
    if not (is_valid_client_id client_id) || not (is_valid_channel channel)
    then r
    else remove_client_from_key client_id (channel_key channel tid_scope) r

-- The loop over the copied key set.
unfoldable pub remove_client_from_keys : Bytes → List Bytes → Registry → Registry
remove_client_from_keys client_id [] r = r
remove_client_from_keys client_id (key ∷ keys) r =
    remove_client_from_keys client_id keys (remove_client_from_key client_id key r)

unfoldable pub unsubscribe_all : Bytes → Registry → Registry
unsubscribe_all client_id r =
    if not (is_valid_client_id client_id)
    then r
    else (elim (lookup Bytes-discrete client_id r.client_keys) [
      | none ↦ r
      | some keys ↦ remove_client_from_keys client_id keys r
    ])

-- The writers of the watching clients among `clients`, in order.
unfoldable pub writers_of : List (Bytes × List ℕ) → List Bytes → List ℕ
writers_of watchers [] = []
writers_of watchers (client_id ∷ clients) =
    members (lookup Bytes-discrete client_id watchers) ++ writers_of watchers clients

-- The part of `Publish` under the lock: the streams to write to.
unfoldable pub publish_targets : Bytes → Bytes → Registry → List ℕ
unfolding writers_of
publish_targets channel tid_scope r =
    if not (is_valid_channel channel)
    then []
    else (elim (lookup Bytes-discrete (channel_key channel tid_scope) r.subscriptions) [
      | none ↦ []
      | some clients ↦ writers_of r.watchers clients
    ])

-- `grpc::ServerWriter::Write` on whatever state `S` the streams have.
module _ {S : Type 0} (write : ℕ → Message → S → Bool × S) where
  -- The part of `Publish` behind the lock, with its count of accepted writes.
  unfoldable pub write_all : Message → List ℕ → S → ℕ × S
  write_all message [] s = (0, s)
  write_all message (writer ∷ targets) s =
      let (accepted, s') = write writer message s in
      let (delivered, s'') = write_all message targets s' in
      ((if accepted then suc delivered else delivered), s'')

  unfoldable pub publish : Bytes → Bytes → Bytes → Registry → S → ℕ × S
  unfolding write_all publish_targets make_message
  publish channel payload tid_scope r s =
      write_all (make_message channel payload) (publish_targets channel tid_scope r) s

unfoldable pub register_watch : Bytes → ℕ → Registry → Registry
register_watch client_id writer r =
    if not (is_valid_client_id client_id) || writer == 0 then r else record r {
      watchers =
          assign Bytes-discrete client_id
            (members (lookup Bytes-discrete client_id r.watchers) ++ writer ∷ []) r.watchers;
    }

unfoldable pub unregister_watch : Bytes → ℕ → Registry → Registry
unregister_watch client_id writer r =
    if not (is_valid_client_id client_id) || writer == 0
    then r
    else record r { watchers = drop_member Bytes-discrete ℕ_discrete client_id writer r.watchers }

-- SubscriptionCountForTest
unfoldable pub subscription_count : Bytes → Registry → ℕ
subscription_count key r = length (members (lookup Bytes-discrete key r.subscriptions))

-- ClearForTest
unfoldable pub clear : Registry → Registry
clear r = initial

-- The calls that change the registry.
pub data Call : Type 0 where
  subscribes unsubscribes : Bytes → Bytes → Bytes → Call
  unsubscribes_all : Bytes → Call
  registers unregisters : Bytes → ℕ → Call
  clears : Call

unfoldable pub step : Call → Registry → Registry
step (subscribes client_id channel tid_scope) r = subscribe client_id channel tid_scope r
step (unsubscribes client_id channel tid_scope) r = unsubscribe client_id channel tid_scope r
step (unsubscribes_all client_id) r = unsubscribe_all client_id r
step (registers client_id writer) r = register_watch client_id writer r
step (unregisters client_id writer) r = unregister_watch client_id writer r
step clears r = clear r

unfoldable pub run : List Call → Registry → Registry
unfolding step
run [] r = r
run (c ∷ cs) r = run cs (step c r)
