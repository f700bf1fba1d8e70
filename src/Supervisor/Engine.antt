-- ===== src/Supervisor/Engine.antt =====
-- The policy engine: `consider`, `tick` and `run`, with the hooks' answers as values.
use hull.Prelude.{
  ℕ, ◌+◌, Bool, true, false, not, ◌&&◌, Option, none, some, List, [], ◌∷◌, ◌++◌, Bytes,
  if◌then◌else◌, ltb, leb, same,
}
use hull.Supervisor.Policy.{RestartPolicy, restarts, restart_backoff, stable_uptime}

-- `supervisedService`.
pub record Service : Type 0 where
  pub name : Bytes
  pub instance_id : Bytes
  pub policy : RestartPolicy
  pub job : Bool

-- `restartTracker`. A time is a count of nanoseconds, and `none` is the zero time.
pub record Tracker : Type 0 where
  pub attempts : ℕ
  pub next : Option ℕ
  pub gave_up : Bool
  pub alive_since : Option ℕ

abbrev pub fresh : Tracker
fresh = record { attempts = 0; next = none; gave_up = false; alive_since = none }

-- What the hooks answer while one service is considered.
pub record Observed : Type 0 where
  pub now : ℕ
  pub alive : Bool
  pub restart_fails : Bool

-- The effects: the two warnings of `consider` with the attempts they name, and a restart.
pub data Effect : Type 0 where
  restart : Service → Effect
  gives_up : Service → ℕ → Effect
  restart_failed : Service → ℕ → Effect

-- A service that is there: the run begins to count, or its history is forgiven once it is stable.
abbrev pub seen_alive : Tracker → ℕ → Option ℕ → Tracker
seen_alive tr now none = record tr { alive_since = some now }
seen_alive tr now (some since) =
    if leb (since + stable_uptime) now
    then record { attempts = 0; next = none; gave_up = false; alive_since = some since }
    else tr

abbrev pub backing_off : Option ℕ → ℕ → Bool
backing_off none now = false
backing_off (some next) now = ltb now next

abbrev pub failed_to : Service → ℕ → Bool → List Effect
failed_to t n true = restart_failed t n ∷ []
failed_to t n false = []

-- A service that is gone, with `alive_since` already cleared.
unfoldable pub seen_down : Service → Tracker → Observed → Tracker × List Effect
seen_down t tr o =
    if tr.gave_up
    then (tr, [])
    else if ltb 0 t.policy.max_attempts && leb t.policy.max_attempts tr.attempts
    then (record tr { gave_up = true }, gives_up t tr.attempts ∷ [])
    else if backing_off tr.next o.now
    then (tr, [])
    else (
      record tr {
        attempts = tr.attempts + 1;
        next = some (o.now + restart_backoff (tr.attempts + 1));
      },
      restart t ∷ failed_to t (tr.attempts + 1) o.restart_fails,
    )

-- `consider` behind its first two returns, on the service's tracker.
unfoldable pub consider_tracker : Service → Tracker → Observed → Tracker × List Effect
consider_tracker t tr o =
    if o.alive
    then (seen_alive tr o.now tr.alive_since, [])
    else seen_down t (record tr { alive_since = none }) o

-- `sv.trackers`.
abbrev pub Trackers : Type 0
Trackers = Bytes → Option Tracker

abbrev pub tracker_of : Option Tracker → Tracker
tracker_of none = fresh
tracker_of (some tr) = tr

abbrev pub put : Trackers → Bytes → Tracker → Trackers
put m k tr j = if same k j then some tr else m j

unfoldable pub consider : Trackers → Service → Observed → Trackers × List Effect
consider m t o =
    if t.job
    then (m, [])
    else if not (restarts t.policy)
    then (m, [])
    else let (tr, effects) = consider_tracker t (tracker_of (m t.name)) o in
      (put m t.name tr, effects)

-- The parts of the supervisor that `run` and `tick` change.
pub record Supervisor : Type 0 where
  pub trackers : Trackers
  pub saw_project : Bool
  pub gone_streak : ℕ

unfoldable pub new_supervisor : Supervisor
new_supervisor = record { trackers = λ _. none; saw_project = false; gone_streak = 0 }

-- What one tick meets: the project state with its `Supervise` flag, or `none` where it cannot be
-- read; the poll list, or `none` where it cannot be derived; and before each service whether the
-- context is cancelled, and what the hooks answer.
pub record Poll : Type 0 where
  pub project : Option Bool
  pub targets : Option (List Service)
  pub cancelled : ℕ → Bool
  pub observed : ℕ → Observed

-- How a tick ends: `nil`, `errProjectGone`, or another error.
pub data TickError : Type 0 where
  fine project_gone transient : TickError

-- The loop over the targets, the next of which is the `i`-th.
unfoldable pub consider_all : Trackers → List Service → Poll → ℕ → Trackers × List Effect
consider_all m [] p i = (m, [])
consider_all m (t ∷ ts) p i =
    let (m', effects) = consider m t (p.observed i) in
    let (m'', more) = consider_all m' ts p (i + 1) in
    if p.cancelled i then (m, []) else (m'', effects ++ more)

pub record Ticked : Type 0 where
  pub supervisor : Supervisor
  pub effects : List Effect
  pub error : TickError

abbrev pub tick_targets : Supervisor → Poll → Option (List Service) → Ticked
tick_targets sv p none = record { supervisor = sv; effects = []; error = transient }
tick_targets sv p (some ts) =
    let (m, effects) = consider_all sv.trackers ts p 0 in
    record { supervisor = record sv { trackers = m }; effects = effects; error = fine }

abbrev pub tick_project : Supervisor → Poll → Option Bool → Ticked
tick_project sv p none = record { supervisor = sv; effects = []; error = project_gone }
tick_project sv p (some supervise) =
    let seen = record sv { saw_project = true } in
    if not supervise
    then record { supervisor = seen; effects = []; error = fine }
    else tick_targets seen p p.targets

unfoldable pub tick : Supervisor → Poll → Ticked
tick sv p = tick_project sv p p.project

abbrev pub project_gone_streak : ℕ
project_gone_streak = 3

-- What `run` does with the error of a tick: the next state, or `none` where it returns.
abbrev pub after_tick : Supervisor → TickError → Option Supervisor
after_tick sv fine = some (record sv { gone_streak = 0 })
after_tick sv project_gone =
    if sv.saw_project
    then (if ltb (sv.gone_streak + 1) project_gone_streak
        then some (record sv { gone_streak = sv.gone_streak + 1 })
        else none)
    else some sv
after_tick sv transient = some sv

-- `run` over the ticks before the context is cancelled: all effects, and the state if the loop is
-- still running behind them.
unfoldable pub run : Supervisor → List Poll → List Effect × Option Supervisor
run sv [] = ([], some sv)
run sv (p ∷ ps) =
    let r = tick sv p in
    elim (after_tick r.supervisor r.error) [
      | none ↦ (r.effects, none)
      | some sv' ↦ let (more, end) = run sv' ps in (r.effects ++ more, end)
    ]
