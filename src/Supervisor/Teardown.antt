-- ===== src/Supervisor/Teardown.antt =====
-- When `run` restarts nothing, when it goes on, and when it ends.
use hull.Prelude.{
  ℕ, ◌+◌, ◌≤◌, ◌<◌, ◌≡◌, ◌⊎◌, inl, inr, refl, Bool, true, false, Option, none, some, List, [], ◌∷◌,
  ◌++◌, arith, if◌then◌else◌, ltb, Bool-cases, Option-cases,
}
use hull.Supervisor.Engine.{
  Service, Supervisor, Poll, consider_all, Ticked, tick_targets, tick_project, tick, after_tick,
  run, project_gone_streak,
}

-- The project state cannot be read, or its `Supervise` flag is cleared.
abbrev pub Unsupervised : List Poll → Type 0
Unsupervised [] = Unit
Unsupervised (p ∷ ps) = ((p.project ≡ none) ⊎ (p.project ≡ some false)) × Unsupervised ps

tick_unsupervised :
    (sv : Supervisor) (p : Poll)
    → (p.project ≡ none) ⊎ (p.project ≡ some false)
    → ((tick sv p).effects ≡ []) × ((tick sv p).supervisor.trackers ≡ sv.trackers)
unfolding tick
tick_unsupervised sv p (inl e) = rw e (refl, refl)
tick_unsupervised sv p (inr e) = rw e (refl, refl)

run_stops :
    (sv : Supervisor) (p : Poll) (ps : List Poll)
    → after_tick (tick sv p).supervisor (tick sv p).error ≡ none
    → run sv (p ∷ ps) ≡ ((tick sv p).effects, none)
unfolding run
run_stops sv p ps e = rw (e, run)

run_goes_on :
    (sv sv' : Supervisor) (p : Poll) (ps : List Poll)
    → after_tick (tick sv p).supervisor (tick sv p).error ≡ some sv'
    → run sv (p ∷ ps) ≡ ((tick sv p).effects ++ (run sv' ps).0, (run sv' ps).1)
unfolding run
run_goes_on sv sv' p ps e = rw (e, run)

-- While the flag is cleared on disk, or the state is gone, the supervisor restarts nothing and
-- warns of nothing, however many ticks pass.
pub run-Unsupervised : (ps : List Poll) (sv : Supervisor) → Unsupervised ps → (run sv ps).0 ≡ []
run-Unsupervised [] sv h = unfold run in refl
run-Unsupervised (p ∷ ps) sv (u, h) =
    elim (Option-cases (after_tick (tick sv p).supervisor (tick sv p).error)) [
      | inl ends ↦ rw (run_stops sv p ps ends) (tick_unsupervised sv p u).0
      | inr (sv', goes_on) ↦
          rw (run_goes_on sv sv' p ps goes_on)
            (rw (tick_unsupervised sv p u).0 (run-Unsupervised ps sv' h))
    ]

abbrev pub is_none {ℓ} : {A : Type ℓ} → Option A → Bool
is_none none = true
is_none (some _) = false

-- The polls that could not read the project state.
abbrev pub unreadable : List Poll → ℕ
unreadable [] = 0
unreadable (p ∷ ps) = (if is_none p.project then 1 else 0) + unreadable ps

-- One tick: the loop goes on, with the streak grown by the failed read at most, unless the streak
-- is full.
abbrev Within : ℕ → Ticked → Type 0
Within k r =
    (sv' : Supervisor) × (after_tick r.supervisor r.error ≡ some sv')
    × (sv'.gone_streak + k < project_gone_streak)

targets-Within :
    (sv : Supervisor) (p : Poll) (ts : Option (List Service)) (k : ℕ)
    → sv.gone_streak + k < project_gone_streak
    → Within k (tick_targets sv p ts)
targets-Within sv p none k h = (sv, refl, h)
targets-Within sv p (some ts) k h = (
  record sv { trackers = (consider_all sv.trackers ts p 0).0; gone_streak = 0 },
  refl,
  omega arith,
)

project-Within :
    (sv : Supervisor) (p : Poll) (x : Option Bool) (k : ℕ)
    → sv.gone_streak + (if is_none x then 1 else 0) + k < project_gone_streak
    → Within k (tick_project sv p x)
project-Within sv p none k h = elim (Bool-cases sv.saw_project) [
  | inr unseen ↦ (sv, ground arith, omega arith)
  | inl saw ↦ (record sv { gone_streak = sv.gone_streak + 1 }, ground arith, omega arith)
]
project-Within sv p (some false) k h =
    (record sv { saw_project = true; gone_streak = 0 }, refl, omega arith)
project-Within sv p (some true) k h =
    targets-Within (record sv { saw_project = true }) p p.targets k (omega arith)

step-Within :
    (sv : Supervisor) (p : Poll) (k : ℕ)
    → sv.gone_streak + (if is_none p.project then 1 else 0) + k < project_gone_streak
    → Within k (tick sv p)
unfolding tick
step-Within sv p k h = project-Within sv p p.project k h

-- Fewer than three failed reads in all do not end the supervision.
pub run-goes_on :
    (ps : List Poll) (sv : Supervisor)
    → sv.gone_streak + unreadable ps < project_gone_streak
    → (sv' : Supervisor) × ((run sv ps).1 ≡ some sv')
run-goes_on [] sv h = (sv, unfold run in refl)
run-goes_on (p ∷ ps) sv h =
    let (sv', goes_on, h') = step-Within sv p (unreadable ps) (omega arith) in
    let (end, e) = run-goes_on ps sv' h' in (end, rw (run_goes_on sv sv' p ps goes_on) e)

-- No tick of the row is a good one: the state cannot be read, or it can and the poll list cannot
-- be derived.
abbrev pub Failing : List Poll → Type 0
Failing [] = Unit
Failing (p ∷ ps) =
    ((p.project ≡ none) ⊎ ((p.project ≡ some true) × (p.targets ≡ none))) × Failing ps

step_gone :
    (sv : Supervisor) (p : Poll)
    → sv.saw_project ≡ true
    → p.project ≡ none
    → sv.gone_streak + 1 < project_gone_streak
    → after_tick (tick sv p).supervisor (tick sv p).error
      ≡ some (record sv { gone_streak = sv.gone_streak + 1 })
unfolding tick
step_gone sv p saw e h = ground (arith, e)

step_last :
    (sv : Supervisor) (p : Poll)
    → sv.saw_project ≡ true
    → p.project ≡ none
    → project_gone_streak ≤ sv.gone_streak + 1
    → after_tick (tick sv p).supervisor (tick sv p).error ≡ none
unfolding tick
step_last sv p saw e h = ground (arith, e)

step_transient :
    (sv : Supervisor) (p : Poll)
    → sv.saw_project ≡ true
    → p.project ≡ some true
    → p.targets ≡ none
    → after_tick (tick sv p).supervisor (tick sv p).error ≡ some (record sv { saw_project = true })
unfolding tick
step_transient sv p saw e h = ground (arith, e, h)

-- Where a project was seen and every tick of the row fails, because its state cannot be read or says
-- supervised with a poll list that cannot be derived, three unreadable states, with those that were
-- counted before, end the loop; a state that was read among them, without a poll list, does not
-- restart the count. (A good or a paused tick does, and is not in such a row.)
pub run-ends :
    (ps : List Poll) (sv : Supervisor)
    → sv.saw_project ≡ true
    → Failing ps
    → project_gone_streak ≤ sv.gone_streak + unreadable ps
    → sv.gone_streak < project_gone_streak
    → (run sv ps).1 ≡ none
run-ends [] sv saw f h k = absurd (omega arith)
run-ends (p ∷ ps) sv saw (inr (e, no_targets), f) h k =
    rw
      (run_goes_on sv (record sv { saw_project = true }) p ps
        (step_transient sv p saw e no_targets))
      (run-ends ps (record sv { saw_project = true }) refl f (ground (arith, e)) k)
run-ends (p ∷ ps) sv saw (inl e, f) h k =
    elim (Bool-cases (ltb (sv.gone_streak + 1) project_gone_streak)) [
      | inl more ↦
          rw
            (run_goes_on sv (record sv { gone_streak = sv.gone_streak + 1 }) p ps
              (step_gone sv p saw e (ground arith)))
            (run-ends ps (record sv { gone_streak = sv.gone_streak + 1 }) saw f (ground (arith, e))
              (ground arith))
      | inr full ↦ rw (run_stops sv p ps (step_last sv p saw e (ground arith)))
    ]
