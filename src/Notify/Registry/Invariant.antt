-- ===== src/Notify/Registry/Invariant.antt =====
-- The two subscription indexes mirror each other, and no map keeps an empty entry.
use mtdd_server.Base.{
  ℕ, Bytes, Bytes-discrete, ℕ_discrete, List, [], ◌∷◌, Bool, ◌≡◌, refl, arith, inl, inr, not, ◌||◌,
  ◌==◌, Option-cases, ◌++◌, if_both,
}
use mathlib.Core.List.{concat-ne-nil}
use mtdd_server.Base.Maps.{lookup, assign, lookup-assign}
use mtdd_server.Notify.Index.{
  members, holds, NoEmpty, same_pair, holds-add, holds-drop_member, add-NoEmpty,
  drop_member-NoEmpty,
}
use mtdd_server.Notify.ChannelKey.{channel_key}
use mtdd_server.Notify.Registry.{
  Registry, is_valid_client_id, initial, subscribe, remove_client_from_key, unsubscribe,
  remove_client_from_keys, unsubscribe_all, register_watch, unregister_watch, clear, Call,
  subscribes, unsubscribes, unsubscribes_all, registers, unregisters, clears, step, run,
}

-- `client_id` is in the subscriber set of `key`.
abbrev pub is_subscribed : Registry → Bytes → Bytes → Bool
is_subscribed r client_id key = holds Bytes-discrete Bytes-discrete client_id key r.subscriptions

-- `key` is in the key set of `client_id`.
abbrev pub has_key : Registry → Bytes → Bytes → Bool
has_key r client_id key = holds Bytes-discrete Bytes-discrete key client_id r.client_keys

pub record IsConsistent (r : Registry) : Type 0 where
  pub mirrored : (client_id key : Bytes) → is_subscribed r client_id key ≡ has_key r client_id key
  pub subscriptions_kept : NoEmpty Bytes-discrete Bytes-discrete r.subscriptions
  pub client_keys_kept : NoEmpty Bytes-discrete Bytes-discrete r.client_keys
  pub watchers_kept : NoEmpty Bytes-discrete ℕ_discrete r.watchers

same_pair_comm :
    (a b c d : Bytes)
    → same_pair Bytes-discrete Bytes-discrete a b c d
      ≡ same_pair Bytes-discrete Bytes-discrete b a d c
same_pair_comm a b c d = ground arith

pub initial-IsConsistent : IsConsistent initial
unfolding lookup
initial-IsConsistent = record {
  mirrored = λ c k. refl;
  subscriptions_kept = λ k e. cc;
  client_keys_kept = λ k e. cc;
  watchers_kept = λ k e. cc;
}

subscribe-IsConsistent :
    (client_id channel tid_scope : Bytes) (r : Registry)
    → IsConsistent r
    → IsConsistent (subscribe client_id channel tid_scope r)
unfolding subscribe
subscribe-IsConsistent [] channel tid_scope r v = v
subscribe-IsConsistent (x ∷ c) [] tid_scope r v = v
subscribe-IsConsistent (x ∷ c) (y ∷ ch) tid_scope r v =
    let client_id = x ∷ c in
    let key = channel_key (y ∷ ch) tid_scope in
    record {
      mirrored = λ d k. ground (
        arith,
        holds-add Bytes-discrete Bytes-discrete key client_id r.subscriptions d k,
        holds-add Bytes-discrete Bytes-discrete client_id key r.client_keys k d,
        same_pair_comm client_id key d k,
        v.mirrored d k,
      );
      subscriptions_kept =
          add-NoEmpty Bytes-discrete Bytes-discrete key client_id r.subscriptions
            v.subscriptions_kept;
      client_keys_kept =
          add-NoEmpty Bytes-discrete Bytes-discrete client_id key r.client_keys v.client_keys_kept;
      watchers_kept = v.watchers_kept;
    }

remove_client_from_key-IsConsistent :
    (client_id key : Bytes) (r : Registry)
    → IsConsistent r
    → IsConsistent (remove_client_from_key client_id key r)
unfolding remove_client_from_key
remove_client_from_key-IsConsistent client_id key r v = record {
  mirrored = λ d k. ground (
    arith,
    holds-drop_member Bytes-discrete Bytes-discrete key client_id r.subscriptions d k,
    holds-drop_member Bytes-discrete Bytes-discrete client_id key r.client_keys k d,
    same_pair_comm client_id key d k,
    v.mirrored d k,
  );
  subscriptions_kept =
      drop_member-NoEmpty Bytes-discrete Bytes-discrete key client_id r.subscriptions
        v.subscriptions_kept;
  client_keys_kept =
      drop_member-NoEmpty Bytes-discrete Bytes-discrete client_id key r.client_keys
        v.client_keys_kept;
  watchers_kept = v.watchers_kept;
}

pub remove_client_from_keys-IsConsistent :
    (client_id : Bytes) (keys : List Bytes) (r : Registry)
    → IsConsistent r
    → IsConsistent (remove_client_from_keys client_id keys r)
unfolding remove_client_from_keys
remove_client_from_keys-IsConsistent client_id [] r v = v
remove_client_from_keys-IsConsistent client_id (key ∷ keys) r v =
    remove_client_from_keys-IsConsistent client_id keys _
      (remove_client_from_key-IsConsistent client_id key r v)

unsubscribe-IsConsistent :
    (client_id channel tid_scope : Bytes) (r : Registry)
    → IsConsistent r
    → IsConsistent (unsubscribe client_id channel tid_scope r)
unfolding unsubscribe
unsubscribe-IsConsistent [] channel tid_scope r v = v
unsubscribe-IsConsistent (x ∷ c) [] tid_scope r v = v
unsubscribe-IsConsistent (x ∷ c) (y ∷ ch) tid_scope r v =
    remove_client_from_key-IsConsistent (x ∷ c) (channel_key (y ∷ ch) tid_scope) r v

unsubscribe_all-IsConsistent :
    (client_id : Bytes) (r : Registry) → IsConsistent r → IsConsistent (unsubscribe_all client_id r)
unfolding unsubscribe_all
unsubscribe_all-IsConsistent [] r v = v
unsubscribe_all-IsConsistent (x ∷ c) r v =
    elim (Option-cases (lookup Bytes-discrete (x ∷ c) r.client_keys)) [
      | inl e ↦ rw (e, unsubscribe_all) v
      | inr (keys, e) ↦
          rw (e, unsubscribe_all) (remove_client_from_keys-IsConsistent (x ∷ c) keys r v)
    ]

register_watch-IsConsistent :
    (client_id : Bytes) (writer : ℕ) (r : Registry)
    → IsConsistent r
    → IsConsistent (register_watch client_id writer r)
unfolding register_watch
register_watch-IsConsistent client_id writer r v =
    if_both IsConsistent (not (is_valid_client_id client_id) || writer == 0)
      {y = record r {
        watchers =
            assign Bytes-discrete client_id
              (members (lookup Bytes-discrete client_id r.watchers) ++ writer ∷ []) r.watchers;
      }}
      v
      (record {
        mirrored = v.mirrored;
        subscriptions_kept = v.subscriptions_kept;
        client_keys_kept = v.client_keys_kept;
        watchers_kept = λ k. ground (
          arith,
          lookup-assign Bytes-discrete client_id k
              (members (lookup Bytes-discrete client_id r.watchers) ++ writer ∷ []) r.watchers,
          concat-ne-nil writer (members (lookup Bytes-discrete client_id r.watchers)),
          v.watchers_kept k,
        );
      })

unregister_watch-IsConsistent :
    (client_id : Bytes) (writer : ℕ) (r : Registry)
    → IsConsistent r
    → IsConsistent (unregister_watch client_id writer r)
unfolding unregister_watch
unregister_watch-IsConsistent client_id writer r v =
    if_both IsConsistent (not (is_valid_client_id client_id) || writer == 0) v (record {
      mirrored = v.mirrored;
      subscriptions_kept = v.subscriptions_kept;
      client_keys_kept = v.client_keys_kept;
      watchers_kept =
          drop_member-NoEmpty Bytes-discrete ℕ_discrete client_id writer r.watchers v.watchers_kept;
    })

-- Every call keeps the registry consistent.
pub step-IsConsistent : (c : Call) (r : Registry) → IsConsistent r → IsConsistent (step c r)
unfolding step clear
step-IsConsistent (subscribes c ch t) r v = subscribe-IsConsistent c ch t r v
step-IsConsistent (unsubscribes c ch t) r v = unsubscribe-IsConsistent c ch t r v
step-IsConsistent (unsubscribes_all c) r v = unsubscribe_all-IsConsistent c r v
step-IsConsistent (registers c w) r v = register_watch-IsConsistent c w r v
step-IsConsistent (unregisters c w) r v = unregister_watch-IsConsistent c w r v
step-IsConsistent clears r v = initial-IsConsistent

-- Any history of calls on a consistent registry leaves it consistent: the subscriptions and the
-- clients' key sets mirror each other, and no map keeps an empty entry.
pub run-IsConsistent : (cs : List Call) (r : Registry) → IsConsistent r → IsConsistent (run cs r)
unfolding run
run-IsConsistent [] r v = v
run-IsConsistent (c ∷ cs) r v = run-IsConsistent cs (step c r) (step-IsConsistent c r v)
