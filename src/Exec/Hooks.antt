-- ===== src/Exec/Hooks.antt =====
-- `execCaptureRetry` and `runServiceHooks` of cmd/hull/exec_compose.go. What a run through the agent
-- gives, and whether the budget is over behind it, are listed run by run.
use hull.Prelude.{ℕ, ◌+◌, Bool, true, false, not, ◌||◌, List, [], ◌∷◌, Bytes, if◌then◌else◌}
use hull.Prelude.Int.{ℤ, is_zero}

-- The transport failed, it failed otherwise, or the command exited.
pub data Run : Type 0 where
  transport refused : Run
  exited : ℤ → Run

pub record Try : Type 0 where
  pub run : Run
  pub over : Bool

abbrev pub is_transport : Run → Bool
is_transport transport = true
is_transport _ = false

-- The run that the loop ends with; of a list that is too short, the last before `last`.
unfoldable pub exec_capture_retry : Run → List Try → Run
exec_capture_retry last [] = last
exec_capture_retry last (t ∷ ts) =
    let rest = exec_capture_retry t.run ts in
    if not (is_transport t.run) || t.over then t.run else rest

-- A hook: its command, and the runs that it gets.
pub record Hook : Type 0 where
  pub command : List Bytes
  pub tries : List Try

pub data HookError : Type 0 where
  command_required cannot_run : ℕ → HookError
  failed : ℕ → ℤ → HookError

pub data Hooked : Type 0 where
  done : Hooked
  stopped : HookError → Hooked

abbrev pub is_missing : List Bytes → Bool
is_missing [] = true
is_missing (_ ∷ _) = false

abbrev pub hook_behind : ℕ → Run → Hooked → Hooked
hook_behind i transport rest = stopped (cannot_run i)
hook_behind i refused rest = stopped (cannot_run i)
hook_behind i (exited code) rest = if not (is_zero code) then stopped (failed i code) else rest

-- The loop, from the hook of index `i` on.
unfoldable pub run_hooks : ℕ → List Hook → Hooked
run_hooks i [] = done
run_hooks i (h ∷ hooks) =
    let rest = run_hooks (i + 1) hooks in
    if is_missing h.command
    then stopped (command_required i)
    else hook_behind i (exec_capture_retry transport h.tries) rest

unfoldable pub run_service_hooks : List Hook → Hooked
run_service_hooks hooks = run_hooks 0 hooks
