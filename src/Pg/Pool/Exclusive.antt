-- ===== src/Pg/Pool/Exclusive.antt =====
-- No two users of the pool hold one connection, and none that is held is idle.
use mtdd_server.Base.{some}
use mathlib.Core.List.{
  Nodup, Perm, Nodup-cons, Nodup-nil, perm_middle, perm_append_singleton, append-nil, Nodup-append,
}
use mathlib.Core.List.Perm
use mtdd_server.Base.{ℕ, Bool, ◌||◌, not, List, [], ◌∷◌, ◌++◌, ◌≡◌, refl, inl, inr, Bool-cases}
use mtdd_server.Pg.Pool.{configure, connect, acquire_failed, release, close_all}
use mtdd_server.Pg.Pool.Accounting.{
  System, Step, configures, warms, leases, reserves, connects, gives_up, releases, closes, Reach,
  here, next, start, takes_idle, creates_room,
}

-- All the connections that the pool knows of: those held, and the idle ones.
abbrev pub known : System → List ℕ
known s = s.leased ++ s.pool.idle

tail_Nodup : {c : ℕ} {xs : List ℕ} → Nodup (c ∷ xs) → Nodup xs
tail_Nodup h = (Nodup-cons.0 h).1

-- One connection more at the end of the second list.
concat_perm : (xs ys : List ℕ) (c : ℕ) → Perm (c ∷ (xs ++ ys)) (xs ++ (ys ++ c ∷ []))
concat_perm xs ys c =
    Perm.symm (Perm.trans (Perm.append_left xs (perm_append_singleton c ys)) (perm_middle xs ys))

dropped_perm :
    (before after rest : List ℕ) (c : ℕ)
    → Perm ((before ++ c ∷ after) ++ rest) (c ∷ ((before ++ after) ++ rest))
dropped_perm before after rest c = Perm.append (perm_middle before after) (Perm.refl rest)

known-release :
    (s : System) (before after : List ℕ) (c : ℕ) (broken healthy : Bool)
    → s.leased ≡ before ++ c ∷ after
    → Nodup (known s)
    → Nodup ((before ++ after) ++ (release (some c) broken healthy s.pool).idle)
unfolding release
known-release s before after c broken healthy e h =
    let apart = Perm.nodup (dropped_perm before after s.pool.idle c) (rw e at h) in
    elim (Bool-cases (broken || not healthy)) [
      | inl gone ↦ rw gone (tail_Nodup apart)
      | inr kept ↦ rw kept (Perm.nodup (concat_perm (before ++ after) s.pool.idle c) apart)
    ]

-- A step keeps the connections apart.
pub Step-Nodup : {s t : System} → Step s t → Nodup (known s) → Nodup (known t)
Step-Nodup (configures params size peak h k one) d = unfold configure in d
Step-Nodup {s} (warms conn h) d =
    unfold connect in Perm.nodup (concat_perm s.leased s.pool.idle conn) (Nodup-cons.1 (h, d))
Step-Nodup {s} (leases conn m e) d =
    let (rest, i, f) = takes_idle s.pool m conn s.pool.idle refl e in
    rw f (Perm.nodup (perm_middle s.leased rest) (rw i at d))
Step-Nodup {s} (reserves m e) d = let (i, room, f) = creates_room s.pool m e in rw f d
Step-Nodup (connects conn n e h) d = Nodup-cons.1 (h, d)
Step-Nodup (gives_up n e) d = unfold acquire_failed in d
Step-Nodup {s} (releases before after conn broken healthy e) d =
    known-release s before after conn broken healthy e d
Step-Nodup {s} closes d = unfold close_all in rw (append-nil s.leased) (Nodup-append.0 d).0

-- In every state that the pool's users can reach, no connection is held by two users, none is idle
-- twice, and none is idle while it is held, provided that a new connection is none of those known.
pub Reach-Nodup : {s : System} → Reach start s → Nodup (known s)
Reach-Nodup here = Nodup-nil
Reach-Nodup (next r st) = Step-Nodup st (Reach-Nodup r)
