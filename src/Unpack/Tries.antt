-- ===== src/Unpack/Tries.antt =====
-- Which attempt at a layer decides.
use hull.Prelude.{
  ℕ, zero, suc, ◌+◌, ◌-◌, ◌≤◌, ◌<◌, ◌≡◌, refl, ap, ◌∙◌, ◌⊎◌, inl, inr, true, false, not, Option,
  List, arith, length, Bool-cases,
}
use mathlib.Core.Path.{subst}
use hull.Unpack.Retry.{
  Fault, is_transient_transport_err, retry_from, layer_attempts, unpack_layer_with_retry,
}

-- The attempt whose result is returned, and why none before it was.
abbrev pub Decides : (ℕ → Option Fault) → ℕ → ℕ → Option Fault × List ℕ → Type 0
Decides unpack attempt left r =
    (r.0 ≡ unpack (attempt + length r.1))
    × (length r.1 ≤ left)
    × ((k : ℕ) → k < length r.1 → is_transient_transport_err (unpack (attempt + k)) ≡ true)
    × ((is_transient_transport_err r.0 ≡ false) ⊎ (length r.1 ≡ left))

shifted :
    (unpack : ℕ → Option Fault) (attempt n : ℕ)
    → is_transient_transport_err (unpack attempt) ≡ true
    → ((k : ℕ) → k < n → is_transient_transport_err (unpack (attempt + 1 + k)) ≡ true)
    → (k : ℕ) → k < suc n
    → is_transient_transport_err (unpack (attempt + k)) ≡ true
shifted unpack attempt n now later zero lt =
    let here : attempt ≡ attempt + 0 = omega arith in
    subst (λ v. is_transient_transport_err (unpack v) ≡ true) here now
shifted unpack attempt n now later (suc k) lt =
    let there : attempt + 1 + k ≡ attempt + suc k = omega arith in
    subst (λ v. is_transient_transport_err (unpack v) ≡ true) there (later k (omega (arith, lt)))

retry_from-Decides :
    (unpack : ℕ → Option Fault) (attempt left : ℕ)
    → Decides unpack attempt left (retry_from unpack attempt left)
unfolding retry_from
retry_from-Decides unpack attempt zero =
    (ap unpack (omega arith), omega arith, λ k lt. absurd (omega (arith, lt)), inr refl)
retry_from-Decides unpack attempt (suc left) =
    elim (Bool-cases (not (is_transient_transport_err (unpack attempt)))) [
      | inl ends ↦ rw ends (
        ap unpack (omega arith),
        omega arith,
        λ k lt. absurd (omega (arith, lt)),
        inl (ground (arith, ends)),
      )
      | inr again ↦
          let rest = retry_from unpack (attempt + 1) left in
          let (last, few, before, why) = retry_from-Decides unpack (attempt + 1) left in
          rw again (
            last ∙ ap unpack (omega arith),
            omega (arith, few),
            shifted unpack attempt (length rest.1) (ground (arith, again)) before,
            elim why [ inl other ↦ inl other | inr all ↦ inr (omega (arith, all)) ],
          )
    ]

-- A layer is tried four times at most. The result is that of the last attempt made, all attempts
-- before it failed with an error of the transport, and it is such an error itself only if it is that
-- of the fourth.
pub unpack_layer_with_retry-Decides :
    (unpack : ℕ → Option Fault)
    → Decides unpack 1 (layer_attempts - 1) (unpack_layer_with_retry unpack)
unfolding unpack_layer_with_retry
unpack_layer_with_retry-Decides unpack = retry_from-Decides unpack 1 (layer_attempts - 1)
