-- ===== src/Exec/Tests.antt =====
-- Runs of the arguments and of the healthchecks, and each theorem at concrete inputs.
use hull.Prelude.{
  ◌≡◌, ◌≢◌, ◌↔◌, refl, true, false, none, some, List, [], ◌∷◌, ◌++◌, arith, codes, same, has_prefix,
}
use hull.Prelude.Int.{pos}
use hull.Exec.Args.{parsed, failed, needs_value, unknown_flag, parse_flags, parse_compose_exec_args}
use hull.Exec.Rendered.{rendered, parse_compose_exec_args-rendered}
use hull.Exec.Health.{
  HealthCheck, Attempt, cannot_run, exited, waiting, unhealthy, health_probe_argv,
  health_probe_budget, wait_attempts, wait_healthy_exec, validate_health_check, needs_command,
}
use hull.Exec.Hooks.{
  Hook, transport, exited as exited_with, done, stopped, failed as failed_with, exec_capture_retry,
  run_hooks, run_service_hooks,
}
use hull.Exec.Order.{AllSucceed, run_service_hooks_lem}
use hull.Exec.Tries.{wait_healthy_exec-waits, wait_attempts_ends}

value_missing : parse_compose_exec_args (codes "-u" ∷ []) ≡ failed (needs_value (codes "-u"))
unfolding parse_compose_exec_args parse_flags same has_prefix
value_missing = refl

no_joined_value :
    parse_compose_exec_args (codes "-uroot" ∷ codes "web" ∷ [])
    ≡ failed (unknown_flag (codes "-uroot"))
unfolding parse_compose_exec_args parse_flags same has_prefix
no_joined_value = refl

service_plain : has_prefix (codes "web") (codes "-") ≡ false
unfolding has_prefix
service_plain = refl

parse_compose_exec_args-rendered_example :
    parse_compose_exec_args
      (rendered true (codes "root") (codes "/") (codes "A=b" ∷ []) (codes "web") (codes "--" ∷ []))
    ≡ parsed (record {
      no_tty = true;
      user = codes "root";
      workdir = codes "/";
      env = codes "A=b" ∷ [];
      rest = codes "web" ∷ codes "--" ∷ [];
    })
parse_compose_exec_args-rendered_example =
    parse_compose_exec_args-rendered true (codes "root") (codes "/") (codes "A=b" ∷ [])
      (codes "web") (codes "--" ∷ []) service_plain

abbrev web_check : HealthCheck
web_check = record {
  disable = false;
  test = codes "CMD" ∷ codes "true" ∷ [];
  interval = some 10;
  timeout = some 5;
  retries = some 2;
  start_period = none;
}

abbrev failing : List Attempt
failing =
    record { outcome = cannot_run; took = 5; slept = 10 }
    ∷ record { outcome = exited (pos 1); took = 2; slept = 10 }
    ∷ []

web_argv : health_probe_argv (some web_check) ≡ some (codes "true" ∷ [])
unfolding health_probe_argv same
web_argv = refl

command_missing :
    validate_health_check (some (record web_check { test = codes "CMD" ∷ [] }))
    ≡ some (needs_command (codes "CMD"))
unfolding validate_health_check same
command_missing = refl

wait_healthy_exec-waits_example : wait_healthy_exec (some web_check) failing ≡ waiting
wait_healthy_exec-waits_example =
    wait_healthy_exec-waits web_check (codes "true" ∷ []) failing web_argv (omega arith)
      (refl, omega arith, omega arith, (refl, omega arith, omega arith, tt)) (omega arith)

wait_attempts_ends_example :
    wait_attempts 20 0 (failing ++ record { outcome = exited (pos 1); took = 5; slept = 10 } ∷ [])
    ≢ waiting
wait_attempts_ends_example =
    wait_attempts_ends 20 0 failing (record { outcome = exited (pos 1); took = 5; slept = 10 })
      (omega arith)

-- With so many retries the budget does not fit the duration, and the first failure is the verdict.
gives_up_at_once :
    wait_healthy_exec
      (some (record web_check { interval = none; timeout = none; retries = some 200000000 }))
      failing
    ≡ unhealthy cannot_run
unfolding wait_healthy_exec health_probe_argv health_probe_budget wait_attempts same
gives_up_at_once = refl

abbrev migrate : Hook
migrate = record {
  command = codes "migrate" ∷ [];
  tries =
      record { run = transport; over = false }
      ∷ record { run = exited_with (pos 0); over = false }
      ∷ [];
}

abbrev broken : Hook
broken = record migrate { tries = record { run = exited_with (pos 3); over = false } ∷ [] }

migrates : AllSucceed (migrate ∷ [])
unfolding exec_capture_retry
migrates = ((refl, refl), tt)

run_service_hooks_lem_example :
    ((run_service_hooks (broken ∷ []) ≡ done) ↔ AllSucceed (broken ∷ []))
    × (AllSucceed (migrate ∷ [])
        → run_service_hooks ((migrate ∷ []) ++ broken ∷ []) ≡ run_hooks 1 (broken ∷ []))
run_service_hooks_lem_example = run_service_hooks_lem (migrate ∷ []) (broken ∷ [])

fails_second : run_service_hooks (migrate ∷ broken ∷ []) ≡ stopped (failed_with 1 (pos 3))
unfolding run_service_hooks run_hooks exec_capture_retry
fails_second = refl
