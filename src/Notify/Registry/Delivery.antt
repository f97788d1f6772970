-- ===== src/Notify/Registry/Delivery.antt =====
-- Whom `Publish` writes to, what it returns, and what a watch that ends leaves behind.
use mtdd_server.Base.{
  ℕ, suc, Bytes, Bytes-discrete, ℕ_discrete, List, [], ◌∷◌, Bool, true, ◌≡◌, ◌≢◌, refl, arith,
  Bool-cases, inl, inr, if◌then◌else◌, Option-cases, ◌++◌, contains, map, ◌↔◌, contains-append_left,
  contains-append_right, contains-append_none,
}
use mathlib.Core.List.{append_assoc, append-nil}
use mtdd_server.Base.Maps.{lookup}
use mtdd_server.Notify.Index.{members, holds}
use mtdd_server.Notify.ChannelKey.{channel_key}
use mtdd_server.Notify.Registry.{
  Registry, Message, make_message, writers_of, publish_targets, write_all, publish,
}
use mtdd_server.Notify.Registry.Invariant.{is_subscribed}

-- The stream `writer` is registered for `client_id`.
abbrev pub is_watching : Registry → Bytes → ℕ → Bool
is_watching r client_id writer = holds Bytes-discrete ℕ_discrete writer client_id r.watchers

-- `writer` belongs to one of the clients.
abbrev pub Watched : Registry → ℕ → List Bytes → Type 0
Watched r writer clients =
    (c : Bytes) × (contains Bytes-discrete c clients ≡ true) × (is_watching r c writer ≡ true)

writers_of_sound :
    (r : Registry) (writer : ℕ) (clients : List Bytes)
    → contains ℕ_discrete writer (writers_of r.watchers clients) ≡ true
    → Watched r writer clients
unfolding writers_of
writers_of_sound r writer [] h = absurd (cc)
writers_of_sound r writer (c ∷ clients) h = elim (Bool-cases (is_watching r c writer)) [
  | inl here ↦ (c, ground arith, here)
  | inr not_here ↦
      let (d, p, q) = writers_of_sound r writer clients (
        rw
          (contains-append_none ℕ_discrete writer (members (lookup Bytes-discrete c r.watchers))
            (writers_of r.watchers clients) not_here)
          at h) in
      (d, ground arith, q)
]

writers_of_complete :
    (r : Registry) (writer : ℕ) (c : Bytes) (clients : List Bytes)
    → contains Bytes-discrete c clients ≡ true
    → is_watching r c writer ≡ true
    → contains ℕ_discrete writer (writers_of r.watchers clients) ≡ true
unfolding writers_of
writers_of_complete r writer c [] p q = absurd (cc)
writers_of_complete r writer c (d ∷ clients) p q = ground (
  arith,
  contains-append_left ℕ_discrete writer (members (lookup Bytes-discrete d r.watchers))
      (writers_of r.watchers clients),
  contains-append_right ℕ_discrete writer (members (lookup Bytes-discrete d r.watchers))
      (writers_of r.watchers clients),
  writers_of_complete r writer c clients,
)

-- The streams that Publish of a channel that is not empty writes to are exactly the streams that
-- watch for a client which is subscribed to the channel's key.
pub publish_targets_lem :
    (channel scope : Bytes) (r : Registry) (writer : ℕ)
    → channel ≢ []
    → (contains ℕ_discrete writer (publish_targets channel scope r) ≡ true) ↔ (
        (c : Bytes) × (is_subscribed r c (channel_key channel scope) ≡ true)
        × (is_watching r c writer ≡ true))
publish_targets_lem [] scope r writer h = absurd (h refl)
publish_targets_lem (x ∷ ch) scope r writer h =
    elim (Option-cases (lookup Bytes-discrete (channel_key (x ∷ ch) scope) r.subscriptions)) [
      | inl e ↦
          unfold publish_targets in ((λ p. absurd (ground arith)), (λ p. absurd (ground arith)))
      | inr (clients, e) ↦
          unfold publish_targets in
          (
            (λ p.
                let (c, q, w) = writers_of_sound r writer clients (rw (e) at p) in
                (c, ground arith, w)),
            (λ p. rw (e) (writers_of_complete r writer p.0 clients (rw e at p.1) p.2)),
          )
    ]

-- Streams that accept or refuse by a fixed rule, and note each write.
abbrev pub Log : Type 0
Log = List (ℕ × Message × Bool)

abbrev pub logging : (ℕ → Message → Bool) → ℕ → Message → Log → Bool × Log
logging accepts writer message log =
    (accepts writer message, log ++ (writer, message, accepts writer message) ∷ [])

-- How many of the streams accept the message.
abbrev pub accepted : (ℕ → Message → Bool) → Message → List ℕ → ℕ
accepted accepts message [] = 0
accepted accepts message (w ∷ ws) =
    if accepts w message then suc (accepted accepts message ws) else accepted accepts message ws

write_all-logs :
    (accepts : ℕ → Message → Bool) (message : Message) (targets : List ℕ) (log : Log)
    → write_all (logging accepts) message targets log ≡ (
      accepted accepts message targets,
      log ++ map (λ w. (w, message, accepts w message)) targets,
    )
unfolding write_all
write_all-logs accepts message [] log = ground (arith, append-nil log)
write_all-logs accepts message (w ∷ ws) log = ground (
  arith,
  write_all-logs accepts message ws (log ++ (w, message, accepts w message) ∷ []),
  append_assoc log ((w, message, accepts w message) ∷ [])
      (map (λ w. (w, message, accepts w message)) ws),
)

-- For streams that accept or refuse by a fixed rule and note each write, Publish writes the
-- message once to each target, in order, whatever the streams answer, and returns the number of
-- streams that accepted it.
pub publish_lem :
    (accepts : ℕ → Message → Bool) (channel payload scope : Bytes) (r : Registry) (log : Log)
    → let message = make_message channel payload in
      let targets = publish_targets channel scope r in
      publish (logging accepts) channel payload scope r log ≡ (
        accepted accepts message targets,
        log ++ map (λ w. (w, message, accepts w message)) targets,
      )
unfolding publish
publish_lem accepts channel payload scope r log =
    write_all-logs accepts (make_message channel payload) (publish_targets channel scope r) log
