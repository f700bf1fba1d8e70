-- ===== src/Supervisor/World.antt =====
-- The steps of a restart, as what they do to the record and the VM of an instance.
use hull.Prelude.{
  ◌≡◌, inl, inr, refl, sym, ap, ◌∙◌, Bool, true, false, Option, none, some, List, [], ◌∷◌, ◌++◌,
  arith, if◌then◌else◌, Bool-cases, Option-cases,
}
use hull.Supervisor.Service.{
  Step, reap_orphan, save, forget, preserve_log, delete, spawn, stop, Attempt,
}
use hull.Supervisor.Restart.{is_spawn, spawns}

-- Whether the instance has a record, and whether its VM runs.
pub record World : Type 0 where
  pub recorded : Bool
  pub up : Bool

-- One step, `none` where it must not be taken: a VM that runs does not lose its record, and none is
-- booted beside a record that stands.
unfoldable pub take_step : Attempt → Step → World → Option World
take_step a reap_orphan w = some w
take_step a (save st) w = some (record w { recorded = true })
take_step a forget w = some w
take_step a preserve_log w = some w
take_step a delete w =
    if w.up then none else if a.deletes then some (record w { recorded = false }) else some w
take_step a spawn w =
    if w.recorded
    then none
    else if a.boots
    then some (record { recorded = true; up = true })
    else some w
take_step a stop w = some (record w { up = false })

unfoldable pub take_steps : Attempt → List Step → World → Option World
take_steps a [] w = some w
take_steps a (s ∷ ss) w = elim (take_step a s w) [ none ↦ none | some v ↦ take_steps a ss v ]

take_steps_on :
    (a : Attempt) (s : Step) (ss : List Step) (w v : World)
    → take_step a s w ≡ some v
    → take_steps a (s ∷ ss) w ≡ take_steps a ss v
unfolding take_steps
take_steps_on a s ss w v e = rw (e, take_steps) refl

pub take_steps-append :
    (a : Attempt) (xs ys : List Step) (w v : World)
    → take_steps a xs w ≡ some v
    → take_steps a (xs ++ ys) w ≡ take_steps a ys v
unfolding take_steps
take_steps-append a [] ys w v e = ap (λ x. take_steps a ys x) (ground (arith, e))
take_steps-append a (s ∷ xs) ys w v e = elim (Option-cases (take_step a s w)) [
  | inl stuck ↦ absurd (ground (arith, e, stuck))
  | inr (u, on) ↦
      take_steps_on a s (xs ++ ys) w u on
      ∙ take_steps-append a xs ys u v (sym (take_steps_on a s xs w u on) ∙ e)
]

-- A VM that is down stays down where nothing is spawned, and each step may be taken.
quiet_step :
    (a : Attempt) (s : Step) (w : World)
    → is_spawn s ≡ false
    → w.up ≡ false
    → (v : World) × (take_step a s w ≡ some v) × (v.up ≡ false)
unfolding take_step
quiet_step a reap_orphan w q d = (w, refl, d)
quiet_step a (save st) w q d = (record w { recorded = true }, refl, d)
quiet_step a forget w q d = (w, refl, d)
quiet_step a preserve_log w q d = (w, refl, d)
quiet_step a delete w q d = elim (Bool-cases a.deletes) [
  | inl ok ↦ (record w { recorded = false }, ground (arith, d, ok), d)
  | inr stays ↦ (w, ground (arith, d, stays), d)
]
quiet_step a spawn w q d = absurd (ground (arith, q))
quiet_step a stop w q d = (record w { up = false }, refl, refl)

pub quiet_steps :
    (a : Attempt) (ss : List Step) (w : World)
    → spawns ss ≡ 0
    → w.up ≡ false
    → (v : World) × (take_steps a ss w ≡ some v) × (v.up ≡ false)
unfolding take_steps
quiet_steps a [] w q d = (w, refl, d)
quiet_steps a (s ∷ ss) w q d =
    let (v, e, d1) = quiet_step a s w (ground (arith, q)) d in
    let (u, f, d2) = quiet_steps a ss v (ground (arith, q)) d1 in
    (u, take_steps_on a s ss w v e ∙ f, d2)
