-- ===== src/Notify/ChannelKey/Injective.antt =====
-- When two channels share a key: never, as long as the scopes hold no colon.
use mtdd_server.Base.{
  ℕ, Bytes, ◌++◌, ◌∷◌, [], ◌≡◌, ◌≢◌, refl, contains, ℕ_discrete, false, arith, ap, sym, length,
  length-append,
}
use mathlib.Core.List.{append_assoc}
use mtdd_server.Notify.ChannelKey.{normalize_tid_scope, channel_key}

-- `s` holds the byte `c` nowhere.
abbrev pub Lacks : ℕ → Bytes → Type 0
Lacks c s = contains ℕ_discrete c s ≡ false

-- A list is cut at its first `c` in one way only.
split_at_first :
    (c : ℕ) (s t u v : Bytes) → Lacks c s → Lacks c t → s ++ c ∷ u ≡ t ++ c ∷ v → (s ≡ t) × (u ≡ v)
split_at_first c [] [] u v hs ht e = ground arith
split_at_first c [] (y ∷ t) u v hs ht e = ground arith
split_at_first c (x ∷ s) [] u v hs ht e = ground arith
split_at_first c (x ∷ s) (y ∷ t) u v hs ht e = ground (arith, split_at_first c s t u v)

normalize_tid_scope-Lacks : (t : Bytes) → Lacks b':' t → Lacks b':' (normalize_tid_scope t)
unfolding normalize_tid_scope ℕ_discrete
normalize_tid_scope-Lacks [] h = refl
normalize_tid_scope-Lacks (x ∷ t) h = h

-- For scopes without a colon, equal channel keys come from equal channels and equal normalized
-- scopes.
pub channel_key_injective :
    (channel channel' scope scope' : Bytes)
    → Lacks b':' scope
    → Lacks b':' scope'
    → channel_key channel scope ≡ channel_key channel' scope'
    → (channel ≡ channel') × (normalize_tid_scope scope ≡ normalize_tid_scope scope')
unfolding channel_key
channel_key_injective channel channel' scope scope' h h' e =
    let p =
      split_at_first b':' (normalize_tid_scope scope) (normalize_tid_scope scope') channel channel'
        (normalize_tid_scope-Lacks scope h) (normalize_tid_scope-Lacks scope' h') e in
    (p.1, p.0)

-- Whatever the two halves a and b of a scope, a not empty, and the channel c, the channel `b:c` of
-- scope a and the channel c of scope `a:b` have one key, although the channels and the normalized
-- scopes differ.
pub channel_key_collides :
    (a b c : Bytes)
    → a ≢ []
    → (channel_key (b ++ b':' ∷ c) a ≡ channel_key c (a ++ b':' ∷ b))
      × ((b ++ b':' ∷ c) ≢ c)
      × (normalize_tid_scope a ≢ normalize_tid_scope (a ++ b':' ∷ b))
unfolding channel_key
channel_key_collides [] b c h = absurd (h refl)
channel_key_collides (x ∷ a) b c h = (
  ap (◌∷◌ x) (sym (append_assoc a (b':' ∷ b) (b':' ∷ c))),
  (λ e. omega (arith, ap length e, length-append b (b':' ∷ c))),
  (λ e. omega (arith, ap length e, length-append a (b':' ∷ b))),
)
