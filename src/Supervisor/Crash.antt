-- ===== src/Supervisor/Crash.antt =====
-- One service over a row of polls, without a run that is long enough to be forgiven.
use hull.Prelude.{
  ℕ, zero, suc, ◌+◌, ◌≤◌, ◌<◌, ◌≡◌, ◌⊎◌, inl, inr, refl, Bool, true, false, not, ◌&&◌, Option, none,
  some, List, [], ◌∷◌, Bytes, arith, if◌then◌else◌, ltb, leb, Bool-cases,
}
use hull.Supervisor.Policy.{restarts, restart_backoff, stable_uptime}
use hull.Supervisor.Engine.{
  Service, Tracker, fresh, Observed, Effect, backing_off, seen_down, consider_tracker, Trackers,
  tracker_of, put, consider,
}
use hull.Supervisor.Budget.{restart_count, consider_on, put_self}

-- The effects of considering the service at each observation in turn.
unfoldable pub watch : Trackers → Service → List Observed → List (ℕ × List Effect)
watch m t [] = []
watch m t (o ∷ os) = let (m', effects) = consider m t o in (o.now, effects) ∷ watch m' t os

-- When the run began that the service is in after an observation, if it is in one.
abbrev pub run_since : Option ℕ → Observed → Option ℕ
run_since since o = if o.alive then elim since [ none ↦ some o.now | some s ↦ some s ] else none

abbrev pub Unstable : Option ℕ → Observed → Type 0
Unstable none o = Unit
Unstable (some s) o = o.alive ≡ true → o.now < s + stable_uptime

-- No run of the service is seen to last for the stable uptime.
abbrev pub Flapping : Option ℕ → List Observed → Type 0
Flapping since [] = Unit
Flapping since (o ∷ os) = Unstable since o × Flapping (run_since since o) os

-- The restarts among the effects, over all observations.
abbrev pub total : List (ℕ × List Effect) → ℕ
total [] = 0
total ((_, es) ∷ rest) = restart_count es + total rest

-- What one observation does to the tracker of a flapping service.
record Follows (t : Service) (tr : Tracker) (since : Option ℕ) : Type 0 where
  alive_since : tr.alive_since ≡ since
  capped : 0 < t.policy.max_attempts → tr.attempts ≤ t.policy.max_attempts

step-Follows :
    (t : Service) (tr : Tracker) (since : Option ℕ) (o : Observed)
    → Follows t tr since
    → Unstable since o
    → Follows t (consider_tracker t tr o).0 (run_since since o)
unfolding consider_tracker seen_down
step-Follows t tr none o f u = ground arith
step-Follows t tr (some s) o f u = ground arith

step-attempts :
    (t : Service) (tr : Tracker) (since : Option ℕ) (o : Observed)
    → Follows t tr since
    → Unstable since o
    → tr.attempts + restart_count (consider_tracker t tr o).1 ≡ (consider_tracker t tr o).0.attempts
unfolding consider_tracker seen_down
step-attempts t tr none o f u = ground arith
step-attempts t tr (some s) o f u = ground arith

pub tracker_put : (m : Trackers) (k : Bytes) (tr : Tracker) → tracker_of (put m k tr k) ≡ tr
tracker_put m k tr = rw (put_self m k tr)

watch-attempts :
    (t : Service) (os : List Observed) (m : Trackers) (tr : Tracker) (since : Option ℕ)
    → t.job ≡ false
    → restarts t.policy ≡ true
    → 0 < t.policy.max_attempts
    → tracker_of (m t.name) ≡ tr
    → Follows t tr since
    → Flapping since os
    → tr.attempts + total (watch m t os) ≤ t.policy.max_attempts
unfolding watch
watch-attempts t [] m tr since job wants capped e f h = omega (arith, f.capped capped)
watch-attempts t (o ∷ os) m tr since job wants capped e f (u, h) =
    rw (consider_on m t o job wants) (
      rw e (
        omega (
          arith,
          step-attempts t tr since o f u,
          watch-attempts t os (put m t.name (consider_tracker t tr o).0) (consider_tracker t tr o).0
              (run_since since o) job wants capped
              (tracker_put m t.name (consider_tracker t tr o).0) (step-Follows t tr since o f u) h,
        )))

-- A service whose policy has a cap of attempts is restarted that often at most, over any row of
-- polls from a fresh start in which no run of it is seen to last for the stable uptime.
pub watch-within_budget :
    (t : Service) (os : List Observed)
    → t.job ≡ false
    → restarts t.policy ≡ true
    → 0 < t.policy.max_attempts
    → Flapping none os
    → total (watch (λ _. none) t os) ≤ t.policy.max_attempts
watch-within_budget t os job wants capped h = omega (
  arith,
  watch-attempts t os (λ _. none) fresh none job wants capped refl
      (record { alive_since = refl; capped = λ _. omega arith }) h,
)

-- The restarts of a row, the next of which is attempt `n + 1` and due at `due`: none comes before it
-- is due, and each puts the next one off by the wait of the schedule.
abbrev pub Spaced : ℕ → Option ℕ → List (ℕ × List Effect) → Type 0
Spaced n due [] = Unit
Spaced n due ((now, es) ∷ rest) = elim (restart_count es) [
  | zero ↦ Spaced n due rest
  | suc _ ↦
      (backing_off due now ≡ false) × Spaced (suc n) (some (now + restart_backoff (suc n))) rest
]

-- What an observation does to the attempts and the next time: nothing, or one restart that was due.
abbrev Quiet : Service → Tracker → Observed → Type 0
Quiet t tr o =
    (restart_count (consider_tracker t tr o).1 ≡ 0)
    × ((consider_tracker t tr o).0.attempts ≡ tr.attempts)
    × ((consider_tracker t tr o).0.next ≡ tr.next)

abbrev Restarted : Service → Tracker → Observed → Type 0
Restarted t tr o =
    (restart_count (consider_tracker t tr o).1 ≡ 1)
    × (backing_off tr.next o.now ≡ false)
    × ((consider_tracker t tr o).0.attempts ≡ suc tr.attempts)
    × ((consider_tracker t tr o).0.next ≡ some (o.now + restart_backoff (suc tr.attempts)))

abbrev restarts_now : Service → Tracker → Observed → Bool
restarts_now t tr o =
    not o.alive
    && not tr.gave_up
    && not (ltb 0 t.policy.max_attempts && leb t.policy.max_attempts tr.attempts)
    && not (backing_off tr.next o.now)

step-cases :
    (t : Service) (tr : Tracker) (since : Option ℕ) (o : Observed)
    → Follows t tr since
    → Unstable since o
    → Quiet t tr o ⊎ Restarted t tr o
unfolding consider_tracker seen_down
step-cases t tr none o f u = elim (Bool-cases (restarts_now t tr o)) [
  | inl now ↦ inr (ground arith, ground arith, ground arith, ground arith)
  | inr later ↦ inl (ground arith, ground arith, ground arith)
]
step-cases t tr (some s) o f u = elim (Bool-cases (restarts_now t tr o)) [
  | inl now ↦ inr (ground arith, ground arith, ground arith, ground arith)
  | inr later ↦ inl (ground arith, ground arith, ground arith)
]

watch-Spaced_from :
    (t : Service) (os : List Observed) (m : Trackers) (tr : Tracker) (since : Option ℕ)
    → t.job ≡ false
    → restarts t.policy ≡ true
    → tracker_of (m t.name) ≡ tr
    → Follows t tr since
    → Flapping since os
    → Spaced tr.attempts tr.next (watch m t os)
unfolding watch
watch-Spaced_from t [] m tr since job wants e f h = tt
watch-Spaced_from t (o ∷ os) m tr since job wants e f (u, h) =
    let tr' = (consider_tracker t tr o).0 in
    let ih : Spaced tr'.attempts tr'.next (watch (put m t.name tr') t os) =
      watch-Spaced_from t os (put m t.name tr') tr' (run_since since o) job wants
        (tracker_put m t.name tr') (step-Follows t tr since o f u) h in
    elim (step-cases t tr since o f u) [
      | inl (count, same_n, same_due) ↦
          let ih' : Spaced tr.attempts tr.next (watch (put m t.name tr') t os) =
            rw same_due at (rw same_n at ih) in
          rw (consider_on m t o job wants) (rw e (rw (count, Spaced) ih'))
      | inr (count, due, next_n, next_due) ↦
          let ih' : Spaced (suc tr.attempts) (some (o.now + restart_backoff (suc tr.attempts)))
              (watch (put m t.name tr') t os) =
            rw next_due at (rw next_n at ih) in
          rw (consider_on m t o job wants) (rw e (rw (count, Spaced) (due, ih')))
    ]

-- A flapping service is never restarted before the wait of the schedule is over: between a restart
-- and the next there are at least as many nanoseconds as `restartBackoff` has for the first of them.
pub watch-Spaced :
    (t : Service) (os : List Observed)
    → t.job ≡ false
    → restarts t.policy ≡ true
    → Flapping none os
    → Spaced 0 none (watch (λ _. none) t os)
watch-Spaced t os job wants h =
    watch-Spaced_from t os (λ _. none) fresh none job wants refl
      (record { alive_since = refl; capped = λ _. omega arith }) h
