-- ===== src/Supervisor/Backoff.antt =====
-- The schedule of `restartBackoff`.
use hull.Prelude.{
  ℕ, zero, suc, ◌-◌, ◌*◌, ◌^◌, ◌≤◌, min, ◌≡◌, refl, false, arith, leb, leb→le, ◌∙◌, Bool-cases, inl,
  inr,
}
use native.Mathlib.Nat.{pow-suc}
use hull.Supervisor.Policy.{second, backoff_base, backoff_cap, backoff_loop, restart_backoff}

two_pow_pos : (k : ℕ) → 1 ≤ 2 ^ k
two_pow_pos zero = omega arith
two_pow_pos (suc k) = omega (arith, two_pow_pos k, pow-suc 2 k)

grows : (d q : ℕ) → 1 ≤ q → d ≤ d * q
grows d q h = grind arith

backoff_loop_lem : (k d : ℕ) → d ≤ backoff_cap → backoff_loop k d ≡ min (d * 2 ^ k) backoff_cap
unfolding backoff_loop
backoff_loop_lem zero d h = omega arith
backoff_loop_lem (suc k) d h =
    let q = 2 ^ k in
    let twice : d * 2 ^ suc k ≡ d * q * 2 = rw (pow-suc 2 k) (omega arith) in
    elim (Bool-cases (leb backoff_cap (d * 2))) [
      | inl capped ↦
          rw (capped, twice)
            (omega (arith, leb→le backoff_cap (d * 2) capped, grows d q (two_pow_pos k)))
      | inr below ↦
          let again : d * 2 * q ≡ d * q * 2 = omega arith in
          rw (below, twice) (backoff_loop_lem k (d * 2) (ground arith) ∙ rw again)
    ]

-- The wait before the n-th restart doubles from one second on and is capped at sixty seconds.
pub restart_backoff_lem : (n : ℕ) → restart_backoff (suc n) ≡ min (2 ^ n * second) backoff_cap
unfolding restart_backoff
restart_backoff_lem zero = refl
restart_backoff_lem (suc n) =
    let k : suc (suc n) - 1 ≡ suc n = omega arith in
    let late : leb (suc (suc n)) 1 ≡ false = ground arith in
    rw (late, k) (backoff_loop_lem (suc n) backoff_base (omega arith) ∙ omega arith)
