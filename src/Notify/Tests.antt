-- ===== src/Notify/Tests.antt =====
-- The theorems on the registry at concrete histories.
use mtdd_server.Base.{
  ℕ, Bytes, Bytes-discrete, ℕ_discrete, codes, List, [], ◌∷◌, ◌++◌, true, false, ◌≡◌, ◌≢◌, insert,
  erase, ◌↔◌, refl, map, arith, contains,
}
use mtdd_server.Config.{default_config}
use mtdd_server.Notify.ChannelKey.{channel_key, normalize_tid_scope}
use mtdd_server.Notify.ChannelKey.Injective.{channel_key_injective, channel_key_collides}
use mtdd_server.Base.Maps
use mtdd_server.Notify.Index
use mtdd_server.Notify.Registry
use mtdd_server.Notify.Registry.{
  Registry, Message, make_message, initial, Call, subscribes, unsubscribes, unsubscribes_all,
  registers, unregisters, run, publish, publish_targets,
}
use mtdd_server.Notify.Registry.Invariant.{
  is_subscribed, IsConsistent, initial-IsConsistent, run-IsConsistent,
}
use mtdd_server.Notify.Registry.Refinement.{spec_run, run-refines}
use mtdd_server.Notify.Registry.Delivery.{publish_lem, is_watching, logging, accepted}
use mtdd_server.Notify.Service
use mtdd_server.Notify.Service.{empty_ack, Rpc, subscribe_rpc, Turn}
use mtdd_server.Notify.Service.Watch.{Serves, watch-Serves}
use mtdd_server.Notify.Service.Replies.{Replies, answer-Replies}
use mtdd_server.Notify.Registry.History.{spec_watch_run, run-publish_targets}

-- Two clients of one tenant; the second leaves.
abbrev history : List Call
history =
    subscribes (codes "ann") (codes "news") (codes "t1")
    ∷ registers (codes "ann") 7
    ∷ subscribes (codes "bob") (codes "news") (codes "t1")
    ∷ unsubscribes (codes "ann") (codes "jobs") (codes "t1")
    ∷ unsubscribes_all (codes "bob")
    ∷ []

abbrev registry : Registry
registry = record {
  subscriptions = (codes "t1:news", codes "ann" ∷ []) ∷ [];
  client_keys = (codes "ann", codes "t1:news" ∷ []) ∷ [];
  watchers = (codes "ann", 7 ∷ []) ∷ [];
}

test_run : run history initial ≡ registry
unfolding run Registry.unsubscribe_all Maps.lookup Registry.unsubscribe
    Registry.remove_client_from_key Index.drop_member Registry.subscribe Index.add Maps.assign
    Registry.register_watch Bytes-discrete ℕ_discrete erase insert channel_key
    Registry.remove_client_from_keys Maps.remove
test_run = refl

run-refines_example : is_subscribed (run history initial) ≡ spec_run history (is_subscribed initial)
run-refines_example = run-refines history initial initial-IsConsistent

run-IsConsistent_example : IsConsistent (run history initial)
run-IsConsistent_example = run-IsConsistent history initial initial-IsConsistent

news_nonempty : codes "news" ≢ []
news_nonempty e = cc

ann_nonempty : codes "ann" ≢ []
ann_nonempty e = cc

publish_lem_example :
    let message = make_message (codes "news") (codes "hi") in
    let targets = publish_targets (codes "news") (codes "t1") registry in
    publish (logging (λ w m. true)) (codes "news") (codes "hi") (codes "t1") registry []
    ≡ (accepted (λ w m. true) message targets, [] ++ map (λ w. (w, message, true)) targets)
publish_lem_example = publish_lem (λ w m. true) (codes "news") (codes "hi") (codes "t1") registry []

seven_nonzero : ◌≢◌ {A = ℕ} 7 0
seven_nonzero e = omega (arith, e)

-- Ann subscribes while she watches; Bob comes and goes.
abbrev turns : List Turn
turns =
    (subscribes (codes "ann") (codes "news") (codes "t1") ∷ [], false)
    ∷ (registers (codes "bob") 9 ∷ [], false)
    ∷ (unregisters (codes "bob") 9 ∷ unsubscribes_all (codes "bob") ∷ [], true)
    ∷ []

watch-Serves_example :
    Serves (codes "ann") 7 turns initial (Service.watch (codes "ann") 7 turns initial)
unfolding Bytes-discrete ℕ_discrete
watch-Serves_example =
    watch-Serves (codes "ann") 7 turns initial initial-IsConsistent ann_nonempty seven_nonzero refl

channel_key_injective_example :
    (codes "news" ≡ codes "news")
    × (normalize_tid_scope (codes "t1") ≡ normalize_tid_scope (codes "t1"))
unfolding ℕ_discrete
channel_key_injective_example =
    channel_key_injective (codes "news") (codes "news") (codes "t1") (codes "t1") refl refl refl

a_nonempty : codes "a" ≢ []
a_nonempty e = cc

channel_key_collides_example :
    (channel_key (codes "b:c") (codes "a") ≡ channel_key (codes "c") (codes "a:b"))
    × (codes "b:c" ≢ codes "c")
    × (normalize_tid_scope (codes "a") ≢ normalize_tid_scope (codes "a:b"))
channel_key_collides_example = channel_key_collides (codes "a") (codes "b") (codes "c") a_nonempty

abbrev ann_subscribes : Rpc
ann_subscribes = subscribe_rpc (codes "ann") (codes "news") (codes "t1")

answer-Replies_example :
    Replies default_config ann_subscribes
      (empty_ack, initial)
      (Service.answer default_config ann_subscribes (empty_ack, initial))
answer-Replies_example =
    answer-Replies default_config ann_subscribes empty_ack initial initial-IsConsistent

run-publish_targets_example :
    (contains ℕ_discrete 7 (publish_targets (codes "news") (codes "t1") (run history initial))
      ≡ true)
    ↔ ((c : Bytes) × (spec_run history
            (is_subscribed initial)
            c
            (channel_key (codes "news") (codes "t1"))
          ≡ true)
        × (spec_watch_run history (is_watching initial) c 7 ≡ true))
run-publish_targets_example =
    run-publish_targets history initial (codes "news") (codes "t1") 7 initial-IsConsistent
      news_nonempty
