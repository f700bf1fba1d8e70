-- ===== src/Exec/Health.antt =====
-- Healthchecks of cmd/hull/exec_compose.go. A duration is a 64-bit word: `time.Duration` in two's
-- complement, in nanoseconds.
use hull.Prelude.{
  ℕ, ◌+◌, ◌*◌, ◌%◌, ◌^◌, Bool, false, not, ◌&&◌, ◌||◌, Option, none, some, List, [], ◌∷◌, ◌++◌,
  Bytes, if◌then◌else◌, ltb, same, codes,
}
use hull.Prelude.Int.{ℤ, is_zero}

-- `types.HealthCheckConfig`, as far as it is read.
pub record HealthCheck : Type 0 where
  pub disable : Bool
  pub test : List Bytes
  pub interval : Option ℕ
  pub timeout : Option ℕ
  pub retries : Option ℕ
  pub start_period : Option ℕ

-- `strings.Join(words, " ")`.
abbrev pub join_words : List Bytes → Bytes
join_words [] = []
join_words (w ∷ []) = w
join_words (w ∷ v ∷ ws) = w ++ b' ' ∷ join_words (v ∷ ws)

-- The argv, or `none` for nil. (`hc.Test[1:]` of a one-word `CMD` is empty and not nil.)
abbrev pub test_argv : List Bytes → Option (List Bytes)
test_argv [] = none
test_argv (kind ∷ words) =
    if same kind (codes "NONE")
    then none
    else if same kind (codes "CMD")
    then some words
    else if same kind (codes "CMD-SHELL")
    then some (codes "/bin/sh" ∷ codes "-c" ∷ join_words words ∷ [])
    else none

unfoldable pub health_probe_argv : Option HealthCheck → Option (List Bytes)
health_probe_argv none = none
health_probe_argv (some hc) = if hc.disable then none else test_argv hc.test

pub data HealthError : Type 0 where
  test_required : HealthError
  needs_command unknown_kind : Bytes → HealthError

abbrev pub test_error : List Bytes → Option HealthError
test_error [] = some test_required
test_error (kind ∷ words) =
    if same kind (codes "NONE")
    then none
    else if same kind (codes "CMD") || same kind (codes "CMD-SHELL")
    then elim words [ [] ↦ some (needs_command kind) | _ ∷ _ ↦ none ]
    else some (unknown_kind kind)

unfoldable pub validate_health_check : Option HealthCheck → Option HealthError
validate_health_check none = none
validate_health_check (some hc) = if hc.disable then none else test_error hc.test

-- `d > 0`.
abbrev pub is_positive : ℕ → Bool
is_positive d = ltb 0 d && ltb d (2 ^ 63)

abbrev pub positive_or : ℕ → Option ℕ → ℕ
positive_or default none = default
positive_or default (some d) = if is_positive d then d else default

-- `retries` is unsigned.
abbrev pub retries_or : ℕ → Option ℕ → ℕ
retries_or default none = default
retries_or default (some n) = if ltb 0 n then n else default

abbrev pub or_zero : Option ℕ → ℕ
or_zero none = 0
or_zero (some d) = d

pub record Budget : Type 0 where
  pub interval : ℕ
  pub timeout : ℕ
  pub total : ℕ

abbrev pub half_minute : ℕ
half_minute = 30000000000

abbrev pub budget_of : ℕ → ℕ → ℕ → ℕ → Budget
budget_of interval timeout retries start = record {
  interval = interval;
  timeout = timeout;
  total = (start + (interval + timeout) * retries) % 2 ^ 64;
}

unfoldable pub health_probe_budget : Option HealthCheck → Budget
health_probe_budget none = budget_of half_minute half_minute 3 0
health_probe_budget (some hc) =
    budget_of (positive_or half_minute hc.interval) (positive_or half_minute hc.timeout)
      (retries_or 3 hc.retries) (or_zero hc.start_period)

-- One round of `waitHealthyExec`: what the probe gave, how long it took, and how long the sleep
-- behind it.
pub data Outcome : Type 0 where
  cannot_run : Outcome
  exited : ℤ → Outcome

pub record Attempt : Type 0 where
  pub outcome : Outcome
  pub took : ℕ
  pub slept : ℕ

pub data Waited : Type 0 where
  healthy waiting : Waited
  unhealthy : Outcome → Waited

abbrev pub is_success : Outcome → Bool
is_success cannot_run = false
is_success (exited code) = is_zero code

-- `time.Now().After(deadline)`, so long after the start; a negative budget is over at once.
abbrev pub is_over : ℕ → ℕ → Bool
is_over total elapsed = not (ltb total (2 ^ 63)) || ltb total elapsed

-- The loop; `waiting` where the attempts of the list are not the last.
unfoldable pub wait_attempts : ℕ → ℕ → List Attempt → Waited
wait_attempts total elapsed [] = waiting
wait_attempts total elapsed (a ∷ ts) =
    let rest = wait_attempts total (elapsed + a.took + a.slept) ts in
    if is_success a.outcome
    then healthy
    else if is_over total (elapsed + a.took)
    then unhealthy a.outcome
    else rest

abbrev pub wait_probes : Option (List Bytes) → ℕ → List Attempt → Waited
wait_probes none total ts = healthy
wait_probes (some argv) total ts = wait_attempts total 0 ts

unfoldable pub wait_healthy_exec : Option HealthCheck → List Attempt → Waited
wait_healthy_exec hc ts = wait_probes (health_probe_argv hc) (health_probe_budget hc).total ts
