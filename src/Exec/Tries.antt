-- ===== src/Exec/Tries.antt =====
-- How long `waitHealthyExec` goes on.
use hull.Prelude.{
  ℕ, zero, suc, ◌+◌, ◌*◌, ◌%◌, ◌^◌, ◌≤◌, ◌<◌, ◌≡◌, ◌≢◌, refl, inl, inr, true, false, some, List, [],
  ◌∷◌, ◌++◌, Bytes, arith, length, Bool-cases,
}
use hull.Exec.Health.{
  HealthCheck, Attempt, waiting, is_success, is_over, wait_attempts, wait_healthy_exec, or_zero,
  positive_or, half_minute, retries_or, health_probe_budget, health_probe_argv,
}

-- No attempt of the list succeeds, and each keeps to the bounds.
abbrev pub FailsWithin : ℕ → ℕ → List Attempt → Type 0
FailsWithin timeout interval [] = Unit
FailsWithin timeout interval (a ∷ ts) =
    (is_success a.outcome ≡ false)
    × a.took ≤ timeout
    × a.slept ≤ interval
    × FailsWithin timeout interval ts

-- `n * round`, by addition.
abbrev rounds_of : ℕ → ℕ → ℕ
rounds_of round zero = 0
rounds_of round (suc n) = round + rounds_of round n

rounds_of_mul : (round n : ℕ) → rounds_of round n ≡ round * n
rounds_of_mul round zero = omega arith
rounds_of_mul round (suc n) = omega (arith, rounds_of_mul round n)

rounds_of_le : (round n m : ℕ) → n ≤ m → rounds_of round n ≤ rounds_of round m
rounds_of_le round zero m h = omega arith
rounds_of_le round (suc n) zero h = absurd (omega arith)
rounds_of_le round (suc n) (suc m) h = omega (arith, rounds_of_le round n m (omega arith))

enough_rounds : (start round n r : ℕ) → n ≤ r → 0 + rounds_of round n ≤ start + round * r
enough_rounds start round n r h = omega (arith, rounds_of_le round n r h, rounds_of_mul round r)

keeps_waiting :
    (timeout interval total elapsed : ℕ) (ts : List Attempt)
    → FailsWithin timeout interval ts
    → total < 2 ^ 63
    → elapsed + rounds_of (interval + timeout) (length ts) ≤ total
    → wait_attempts total elapsed ts ≡ waiting
unfolding wait_attempts
keeps_waiting timeout interval total elapsed [] f t b = refl
keeps_waiting timeout interval total elapsed (a ∷ ts) (bad, took, slept, rest) t b =
    let on =
      keeps_waiting timeout interval total (elapsed + a.took + a.slept) ts rest t (omega arith) in
    let time : is_over total (elapsed + a.took) ≡ false = ground arith in rw (bad, time, on) refl

modulo_small : (n : ℕ) → n < 2 ^ 63 → n % 2 ^ 64 ≡ n
modulo_small n h = omega arith

-- A healthcheck that has a command gives no verdict in its first attempts, as many as its retries,
-- while none succeeds, each probe takes at most the timeout and each sleep the interval, and the
-- budget is no more than the largest duration.
pub wait_healthy_exec-waits :
    (hc : HealthCheck) (argv : List Bytes) (ts : List Attempt)
    → health_probe_argv (some hc) ≡ some argv
    → or_zero hc.start_period
        + (positive_or half_minute hc.interval + positive_or half_minute hc.timeout)
          * retries_or 3 hc.retries
      < 2 ^ 63
    → FailsWithin (positive_or half_minute hc.timeout) (positive_or half_minute hc.interval) ts
    → length ts ≤ retries_or 3 hc.retries
    → wait_healthy_exec (some hc) ts ≡ waiting
unfolding wait_healthy_exec health_probe_budget
wait_healthy_exec-waits hc argv ts probes small fails few =
    let i = positive_or half_minute hc.interval in
    let t = positive_or half_minute hc.timeout in
    let r = retries_or 3 hc.retries in
    let total = or_zero hc.start_period + (i + t) * r in
    let exact = modulo_small total small in
    let enough = enough_rounds (or_zero hc.start_period) (i + t) (length ts) r few in
    rw (probes, exact) (keeps_waiting t i total 0 ts fails small enough)

-- The time that the attempts take.
abbrev pub spent : List Attempt → ℕ
spent [] = 0
spent (a ∷ ts) = a.took + a.slept + spent ts

last_attempt :
    (total elapsed : ℕ) (a : Attempt)
    → is_over total (elapsed + a.took) ≡ true
    → wait_attempts total elapsed (a ∷ []) ≢ waiting
unfolding wait_attempts
last_attempt total elapsed a over e = ground (arith, over, e)

-- The wait for a healthy service ends: with the attempt that the budget runs out in there is a
-- verdict, whatever the attempts give.
pub wait_attempts_ends :
    (total elapsed : ℕ) (ts : List Attempt) (a : Attempt)
    → total < elapsed + spent ts + a.took
    → wait_attempts total elapsed (ts ++ a ∷ []) ≢ waiting
unfolding wait_attempts
wait_attempts_ends total elapsed [] a late e = last_attempt total elapsed a (ground arith) e
wait_attempts_ends total elapsed (b ∷ ts) a late e =
    let later = wait_attempts_ends total (elapsed + b.took + b.slept) ts a (omega arith) in
    elim (Bool-cases (is_success b.outcome)) [
      | inl good ↦ ground (arith, good, e)
      | inr bad ↦ elim (Bool-cases (is_over total (elapsed + b.took))) [
        | inl over ↦ ground (arith, bad, over, e)
        | inr not_over ↦ later (ground (arith, bad, not_over, e))
      ]
    ]
