-- ===== src/Supervisor/Persist.antt =====
-- A service that stays down, over any row of polls.
use hull.Prelude.{
  ℕ, suc, ap, ◌+◌, ◌-◌, ◌≤◌, ◌≡◌, refl, Bool, true, false, Option, none, some, List, [], ◌∷◌, arith,
  if◌then◌else◌, ltb, leb, ◌&&◌, ◌==◌, Bool-cases, inl, inr, min,
}
use hull.Supervisor.Policy.{restarts, restart_backoff, backoff_cap}
use hull.Supervisor.Backoff.{restart_backoff_lem}
use hull.Supervisor.Engine.{
  Service, Tracker, fresh, Observed, backing_off, seen_down, consider_tracker, Trackers, tracker_of,
  put,
}
use hull.Supervisor.Budget.{restart_count, consider_on}
use hull.Supervisor.Crash.{watch, total, tracker_put}

-- The service is down at each poll.
abbrev pub StaysDown : List Observed → Type 0
StaysDown [] = Unit
StaysDown (o ∷ os) = (o.alive ≡ false) × StaysDown os

-- The polls of a row, from a time on, between any two of which there is the longest wait of the
-- schedule at least: the first one, the next that is so far behind it, and so on.
abbrev pub chances : ℕ → List Observed → ℕ
chances earliest [] = 0
chances earliest (o ∷ os) =
    if leb earliest o.now then suc (chances (o.now + backoff_cap) os) else chances earliest os

-- What the budget has left for `n` attempts, behind those that were made.
abbrev left : Service → ℕ → ℕ → ℕ
left t attempts n =
    if t.policy.max_attempts == 0 then n else min n (t.policy.max_attempts - attempts)

-- The next attempt is due at a time, if not before.
abbrev DueBy : Option ℕ → ℕ → Type 0
DueBy none time = Unit
DueBy (some next) time = next ≤ time

-- To begin later leaves no more chances, and costs one at most if it is no more than a wait later.
chances-later :
    (os : List Observed) (e e' : ℕ)
    → (e ≤ e' → chances e' os ≤ chances e os)
      × (e' ≤ e + backoff_cap → chances e os ≤ suc (chances e' os))
chances-later [] e e' = (λ _. omega arith, λ _. omega arith)
chances-later (o ∷ os) e e' =
    let (_, from_e) = chances-later os e (o.now + backoff_cap) in
    let (_, from_e') = chances-later os e' (o.now + backoff_cap) in
    let (later, near) = chances-later os e e' in
    let (far, _) = chances-later os e' (o.now + backoff_cap) in
    (λ h. ground (arith, h, from_e', later), λ h. ground (arith, h, from_e, near, far))

wait_capped : (n : ℕ) → restart_backoff (suc n) ≤ backoff_cap
wait_capped n = rw (restart_backoff_lem n) (omega arith)

abbrev spent : Service → Tracker → Bool
spent t tr = ltb 0 t.policy.max_attempts && leb t.policy.max_attempts tr.attempts

-- A service that is down, and whose wait is over, is restarted within its budget.
step_restarts :
    (t : Service) (tr : Tracker) (o : Observed)
    → o.alive ≡ false
    → tr.gave_up ≡ false
    → spent t tr ≡ false
    → backing_off tr.next o.now ≡ false
    → (restart_count (consider_tracker t tr o).1 ≡ 1)
      × ((consider_tracker t tr o).0.attempts ≡ suc tr.attempts)
      × ((consider_tracker t tr o).0.gave_up ≡ false)
      × ((consider_tracker t tr o).0.next ≡ some (o.now + restart_backoff (suc tr.attempts)))
unfolding consider_tracker seen_down
step_restarts t tr o down trying budget waited =
    (ground arith, ground arith, ground arith, ground arith)

-- While it waits, nothing happens to its attempts.
step_waits :
    (t : Service) (tr : Tracker) (o : Observed)
    → o.alive ≡ false
    → tr.gave_up ≡ false
    → spent t tr ≡ false
    → backing_off tr.next o.now ≡ true
    → (restart_count (consider_tracker t tr o).1 ≡ 0)
      × ((consider_tracker t tr o).0.attempts ≡ tr.attempts)
      × ((consider_tracker t tr o).0.gave_up ≡ false)
      × ((consider_tracker t tr o).0.next ≡ tr.next)
unfolding consider_tracker seen_down
step_waits t tr o down trying budget waits =
    (ground arith, ground arith, ground arith, ground arith)

left-spent : (t : Service) (tr : Tracker) (n : ℕ) → spent t tr ≡ true → left t tr.attempts n ≡ 0
left-spent t tr n h = ground arith

left-suc :
    (t : Service) (tr : Tracker) (n k : ℕ)
    → spent t tr ≡ false
    → n ≤ suc k
    → left t tr.attempts n ≤ suc (left t (suc tr.attempts) k)
left-suc t tr n k h l = ground arith

-- A restart at a poll leaves at most one chance less.
chances-step :
    (o : Observed) (os : List Observed) (earliest : ℕ)
    → chances earliest (o ∷ os) ≤ suc (chances (o.now + backoff_cap) os)
chances-step o os earliest =
    let (_, near) = chances-later os earliest (o.now + backoff_cap) in ground (arith, near)

chances-waits :
    (o : Observed) (os : List Observed) (next : Option ℕ) (earliest : ℕ)
    → DueBy next earliest
    → backing_off next o.now ≡ true
    → chances earliest (o ∷ os) ≡ chances earliest os
chances-waits o os none earliest d h = absurd (ground (arith, h))
chances-waits o os (some next) earliest d h = ground arith

left-watch :
    (t : Service) (os : List Observed) (m : Trackers) (tr : Tracker) (earliest : ℕ)
    → t.job ≡ false
    → restarts t.policy ≡ true
    → tracker_of (m t.name) ≡ tr
    → tr.gave_up ≡ false
    → DueBy tr.next earliest
    → StaysDown os
    → left t tr.attempts (chances earliest os) ≤ total (watch m t os)
unfolding watch
left-watch t [] m tr earliest job wants e trying due h = ground arith
left-watch t (o ∷ os) m tr earliest job wants e trying due (down, h) =
    let tr' = (consider_tracker t tr o).0 in
    elim (Bool-cases (spent t tr)) [
      | inl over ↦ omega (arith, left-spent t tr (chances earliest (o ∷ os)) over)
      | inr budget ↦ elim (Bool-cases (backing_off tr.next o.now)) [
        | inl waits ↦
            let (count, same_n, still, same_due) = step_waits t tr o down trying budget waits in
            let ih =
              left-watch t os (put m t.name tr') tr' earliest job wants (tracker_put m t.name tr')
                still (rw same_due due) h in
            rw (consider_on m t o job wants) (
              rw e (
                rw (chances-waits o os tr.next earliest due waits)
                  (omega (arith, count, ih, ap (λ n. left t n (chances earliest os)) same_n))))
        | inr now ↦
            let (count, next_n, still, next_due) = step_restarts t tr o down trying budget now in
            let due' : DueBy tr'.next (o.now + backoff_cap) =
              rw next_due (omega (arith, wait_capped tr.attempts)) in
            let ih : left t (suc tr.attempts) (chances (o.now + backoff_cap) os)
                ≤ total (watch (put m t.name tr') t os) =
              rw next_n at (
                left-watch t os (put m t.name tr') tr' (o.now + backoff_cap) job wants
                  (tracker_put m t.name tr') still due' h) in
            rw (consider_on m t o job wants) (
              rw e (
                omega (
                  arith,
                  count,
                  ih,
                  left-suc t tr (chances earliest (o ∷ os)) (chances (o.now + backoff_cap) os)
                      budget (chances-step o os earliest),
                )))
      ]
    ]

-- A service that is no job, whose policy restarts, and that is down at every poll of a row from a
-- fresh start is restarted at least as often as the row has polls that are the longest wait of the
-- schedule apart, up to the cap of its policy if it has one.
pub watch-persists :
    (t : Service) (os : List Observed)
    → t.job ≡ false
    → restarts t.policy ≡ true
    → StaysDown os
    → (if t.policy.max_attempts == 0
        then chances 0 os
        else min (chances 0 os) t.policy.max_attempts)
      ≤ total (watch (λ _. none) t os)
watch-persists t os job wants h =
    ground (arith, left-watch t os (λ _. none) fresh 0 job wants refl refl tt h)
