-- ===== src/Supervisor/Tests.antt =====
-- The theorems on restart policies and on the supervisor of cmd/hull/supervisor.go at concrete inputs.
use hull.Prelude.{
  same, ℕ, ◌*◌, ◌^◌, min, ◌≡◌, ◌≤◌, inl, inr, refl, Bool, true, false, Option, none, some, List, [],
  ◌∷◌, codes, arith,
}
use hull.Supervisor.Policy.{
  on_failure, RestartPolicy, policy, parse_restart_policy, string, restarts, restart_backoff,
  second, backoff_cap,
}
use hull.Supervisor.RoundTrip.{parse-string}
use hull.Supervisor.Backoff.{restart_backoff_lem}
use hull.Supervisor.Engine.{
  Service, Observed, Trackers, consider_tracker, seen_down, consider, Supervisor, Poll, run,
}
use hull.Supervisor.Budget.{Justified, consider-Justified}
use hull.Supervisor.Crash.{watch, total, Flapping, Spaced, watch-within_budget, watch-Spaced}
use hull.Supervisor.Persist.{chances, watch-persists}
use hull.Supervisor.World.{World, take_step, take_steps}
use hull.Supervisor.Teardown.{run-Unsupervised, run-goes_on, run-ends}
use hull.Supervisor.Service.{
  running, Instance, Probe, still_confirmed, alive, alive_record, Attempt, clear_instance,
  supervision_active, restart_declared, restart_service,
}
use hull.Supervisor.Restart.{MayBoot, restart-MayBoot, IsAlive, alive-IsAlive}

abbrev three_times : RestartPolicy
three_times = record { mode = on_failure; max_attempts = 3; declared = true }

parses : parse_restart_policy (codes " on-failure:3 ") ≡ policy three_times
unfolding parse_restart_policy
parses = refl

parse-string_example : parse_restart_policy (string three_times) ≡ policy three_times
unfolding parse_restart_policy
parse-string_example = parse-string (codes " on-failure:3 ") three_times refl

restart_backoff_lem_example : restart_backoff 4 ≡ min (2 ^ 3 * second) backoff_cap
restart_backoff_lem_example = restart_backoff_lem 3

abbrev web : Service
web = record { name = codes "web"; instance_id = codes "p-web"; policy = three_times; job = false }

abbrev no_trackers : Trackers
no_trackers = λ _. none

abbrev down_at : ℕ → Observed
down_at n = record { now = n * second; alive = false; restart_fails = false }

abbrev up_at : ℕ → Observed
up_at n = record { now = n * second; alive = true; restart_fails = false }

web_restarts : restarts three_times ≡ true
unfolding restarts
web_restarts = refl

consider-Justified_example :
    Justified no_trackers web (down_at 5) (consider no_trackers web (down_at 5)).1
consider-Justified_example = consider-Justified no_trackers web (down_at 5)

-- Down, restarted, up for ten seconds, and down again.
abbrev crashes : List Observed
crashes = down_at 0 ∷ up_at 2 ∷ up_at 12 ∷ down_at 14 ∷ down_at 15 ∷ down_at 18 ∷ down_at 30 ∷ []

crashes-Flapping : Flapping none crashes
crashes-Flapping = (tt, (tt, (λ _. omega arith, (λ h. cc, (tt, (tt, (tt, tt)))))))

watch-within_budget_example : total (watch no_trackers web crashes) ≤ 3
watch-within_budget_example =
    watch-within_budget web crashes refl web_restarts (omega arith) crashes-Flapping

restarted_three_times : total (watch no_trackers web crashes) ≡ 3
unfolding watch consider consider_tracker seen_down restarts restart_backoff same
restarted_three_times = refl

watch-Spaced_example : Spaced 0 none (watch no_trackers web crashes)
watch-Spaced_example = watch-Spaced web crashes refl web_restarts crashes-Flapping

-- Down at every poll, two of which are nearer than the longest wait.
abbrev outage : List Observed
outage = down_at 0 ∷ down_at 2 ∷ down_at 61 ∷ down_at 150 ∷ down_at 300 ∷ []

watch-persists_example : min (chances 0 outage) 3 ≤ total (watch no_trackers web outage)
watch-persists_example =
    watch-persists web outage refl web_restarts (refl, (refl, (refl, (refl, (refl, tt)))))

four_chances : chances 0 outage ≡ 4
four_chances = refl

abbrev poll : Option Bool → Option (List Service) → Poll
poll p ts = record { project = p; targets = ts; cancelled = λ _. false; observed = down_at }

abbrev watching : Supervisor
watching = record { trackers = no_trackers; saw_project = true; gone_streak = 0 }

abbrev teardown : List Poll
teardown = poll (some false) (some (web ∷ [])) ∷ poll none none ∷ poll none none ∷ []

run-Unsupervised_example : (run watching teardown).0 ≡ []
run-Unsupervised_example = run-Unsupervised teardown watching (inr refl, (inl refl, (inl refl, tt)))

run-goes_on_example : (sv : Supervisor) × ((run watching teardown).1 ≡ some sv)
run-goes_on_example = run-goes_on teardown watching (omega arith)

-- The third poll reads the project, and its poll list cannot be derived.
abbrev failing : List Poll
failing = poll none none ∷ poll none none ∷ poll (some true) none ∷ poll none none ∷ []

run-ends_example : (run watching failing).1 ≡ none
run-ends_example =
    run-ends failing watching refl (inl refl, (inl refl, (inr (refl, refl), (inl refl, tt))))
      (omega arith) (omega arith)

abbrev dead : Instance
dead = record {
  status = running;
  pid = 7;
  exit_code = none;
  exited_at = none;
  stopped_by_user = false;
}

abbrev dead_probe : Probe
dead_probe = record {
  instance_of = λ _. some dead;
  answers = λ _. false;
  is_vmm = λ _. false;
  now = 9;
}

-- The project is torn down while the service boots.
abbrev torn_down : Attempt
torn_down = record {
  probe = dead_probe;
  confirmations = λ _. none;
  project = some true;
  reloads = true;
  declared = true;
  one_shot = false;
  found = some dead;
  cleared = some dead;
  now = 9;
  deletes = true;
  has_arguments = true;
  boots = true;
  project_after = some false;
}

restart-MayBoot_example : MayBoot torn_down (codes "p-web")
unfolding restart_service restart_declared alive clear_instance supervision_active
restart-MayBoot_example = restart-MayBoot torn_down (codes "p-web") (omega arith)

-- The old record is replaced, and the VM that was booted is stopped again with its record.
torn_down_again :
    take_steps torn_down
      (restart_service torn_down (codes "p-web")).0
      (record { recorded = true; up = false })
    ≡ some (record { recorded = false; up = false })
unfolding take_steps take_step restart_service restart_declared alive alive_record clear_instance
    supervision_active
torn_down_again = refl

abbrev live_probe : Probe
live_probe = record {
  instance_of = λ _. some dead;
  answers = λ _. true;
  is_vmm = λ _. true;
  now = 9;
}

alive-IsAlive_example :
    (st : Instance) × IsAlive live_probe (λ _. none) (codes "p-web") st
    × (still_confirmed ((alive live_probe (λ _. none) (codes "p-web")).1 (codes "p-web")) st.pid 9
        ≡ true)
unfolding alive
alive-IsAlive_example = alive-IsAlive live_probe (λ _. none) (codes "p-web") refl
