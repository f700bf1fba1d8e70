-- ===== src/Supervisor/Budget.antt =====
-- When `consider` restarts a service.
use hull.Prelude.{
  ℕ, suc, ◌<◌, ◌≡◌, ◌⊎◌, inl, inr, true, false, none, some, List, [], ◌∷◌, Bytes, arith, same_refl,
  Bool-cases,
}
use hull.Supervisor.Policy.{restarts}
use hull.Supervisor.Engine.{
  Service, Tracker, Observed, Effect, restart, gives_up, restart_failed, backing_off, seen_down,
  consider_tracker, Trackers, tracker_of, put, consider,
}

-- The restarts among the effects.
abbrev pub restart_count : List Effect → ℕ
restart_count [] = 0
restart_count (restart s ∷ es) = suc (restart_count es)
restart_count (gives_up s n ∷ es) = restart_count es
restart_count (restart_failed s n ∷ es) = restart_count es

-- What has to hold for `consider` to restart a service.
pub record MayRestart (m : Trackers) (t : Service) (o : Observed) : Type 0 where
  pub no_job : t.job ≡ false
  pub wants : restarts t.policy ≡ true
  pub down : o.alive ≡ false
  pub trying : (tracker_of (m t.name)).gave_up ≡ false
  pub in_budget :
      (t.policy.max_attempts ≡ 0) ⊎ ((tracker_of (m t.name)).attempts < t.policy.max_attempts)
  pub waited : backing_off (tracker_of (m t.name)).next o.now ≡ false

abbrev pub Justified : Trackers → Service → Observed → List Effect → Type 0
Justified m t o [] = Unit
Justified m t o (restart s ∷ es) = (s ≡ t) × MayRestart m t o × Justified m t o es
Justified m t o (_ ∷ es) = Justified m t o es

down-Justified :
    (m : Trackers) (t : Service) (o : Observed)
    → t.job ≡ false
    → restarts t.policy ≡ true
    → o.alive ≡ false
    → Justified m t o (seen_down t (record (tracker_of (m t.name)) { alive_since = none }) o).1
unfolding seen_down
down-Justified m t o job wants down = ground arith

tracker-Justified :
    (m : Trackers) (t : Service) (o : Observed)
    → t.job ≡ false
    → restarts t.policy ≡ true
    → Justified m t o (consider_tracker t (tracker_of (m t.name)) o).1
unfolding consider_tracker
tracker-Justified m t o job wants = elim (Bool-cases o.alive) [
  | inl up ↦ simp up tt
  | inr down ↦ simp down (down-Justified m t o job wants down)
]

-- `consider` behind its two early returns.
pub consider_on :
    (m : Trackers) (t : Service) (o : Observed)
    → t.job ≡ false
    → restarts t.policy ≡ true
    → consider m t o ≡ (
      put m t.name (consider_tracker t (tracker_of (m t.name)) o).0,
      (consider_tracker t (tracker_of (m t.name)) o).1,
    )
unfolding consider
consider_on m t o job wants = rw (job, wants)

-- Whatever the trackers hold: a service is restarted only if it is no job, its policy restarts, it
-- is down, its supervisor has not given up on it, its budget has an attempt left, and the wait
-- before the next attempt is over.
pub consider-Justified :
    (m : Trackers) (t : Service) (o : Observed) → Justified m t o (consider m t o).1
consider-Justified m t o = elim (Bool-cases t.job) [
  | inl job ↦ unfold consider in rw job tt
  | inr job ↦ elim (Bool-cases (restarts t.policy)) [
    | inr wants ↦ unfold consider in rw (job, wants) tt
    | inl wants ↦ rw (consider_on m t o job wants) (tracker-Justified m t o job wants)
  ]
]

pub put_self : (m : Trackers) (k : Bytes) (tr : Tracker) → put m k tr k ≡ some tr
put_self m k tr = rw (same_refl k)
