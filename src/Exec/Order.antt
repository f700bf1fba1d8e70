-- ===== src/Exec/Order.antt =====
-- The hooks of a service run in order, and all of them or none behind the first that fails.
use hull.Prelude.{
  ℕ, zero, suc, ◌+◌, ◌≡◌, ◌↔◌, refl, ap, ◌∙◌, inl, inr, false, List, [], ◌∷◌, ◌++◌, arith,
  Bool-cases, length,
}
use hull.Prelude.Int.{pos, negsuc}
use hull.Exec.Hooks.{
  Run, transport, refused, exited, Hook, Hooked, done, is_missing, exec_capture_retry, hook_behind,
  run_hooks, run_service_hooks,
}

-- The hook has a command, and the run that counts ends with status 0.
abbrev pub Succeeds : Hook → Type 0
Succeeds h =
    (is_missing h.command ≡ false) × (exec_capture_retry transport h.tries ≡ exited (pos 0))

abbrev pub AllSucceed : List Hook → Type 0
AllSucceed [] = Unit
AllSucceed (h ∷ hooks) = Succeeds h × AllSucceed hooks

hook_behind-done :
    (i : ℕ) (r : Run) (rest : Hooked)
    → hook_behind i r rest ≡ done
    → (r ≡ exited (pos 0)) × (rest ≡ done)
hook_behind-done i transport rest h = absurd (ground arith)
hook_behind-done i refused rest h = absurd (ground arith)
hook_behind-done i (exited (pos zero)) rest h = (refl, h)
hook_behind-done i (exited (pos (suc n))) rest h = absurd (ground (arith, h))
hook_behind-done i (exited (negsuc n)) rest h = absurd (ground (arith, h))

run_hooks-AllSucceed : (i : ℕ) (hooks : List Hook) → run_hooks i hooks ≡ done → AllSucceed hooks
unfolding run_hooks
run_hooks-AllSucceed i [] h = tt
run_hooks-AllSucceed i (x ∷ hooks) h = elim (Bool-cases (is_missing x.command)) [
  | inl missing ↦ absurd (ground (arith, h, missing))
  | inr there ↦
      let (r, e) =
        hook_behind-done i (exec_capture_retry transport x.tries) (run_hooks (i + 1) hooks)
          (ground (arith, h, there)) in
      ((there, r), run_hooks-AllSucceed (i + 1) hooks e)
]

run_hooks-after :
    (i : ℕ) (front hooks : List Hook)
    → AllSucceed front
    → run_hooks i (front ++ hooks) ≡ run_hooks (i + length front) hooks
unfolding run_hooks
run_hooks-after i [] hooks f = ap (λ n. run_hooks n hooks) (omega arith)
run_hooks-after i (x ∷ front) hooks ((there, r), rest) =
    rw (there, r)
      (run_hooks-after (i + 1) front hooks rest ∙ ap (λ n. run_hooks n hooks) (omega arith))

AllSucceed-run_hooks : (i : ℕ) (hooks : List Hook) → AllSucceed hooks → run_hooks i hooks ≡ done
unfolding run_hooks
AllSucceed-run_hooks i [] a = refl
AllSucceed-run_hooks i (x ∷ hooks) ((there, r), rest) =
    rw (there, r) (AllSucceed-run_hooks (i + 1) hooks rest)

-- The hooks succeed just if each has a command whose run that counts exits with 0; and behind hooks
-- that succeed the verdict is the one of the next hook, under its own index.
pub run_service_hooks_lem :
    (front hooks : List Hook)
    → ((run_service_hooks hooks ≡ done) ↔ AllSucceed hooks)
      × (AllSucceed front → run_service_hooks (front ++ hooks) ≡ run_hooks (length front) hooks)
unfolding run_service_hooks
run_service_hooks_lem front hooks = (
  (run_hooks-AllSucceed 0 hooks, AllSucceed-run_hooks 0 hooks),
  λ a. run_hooks-after 0 front hooks a ∙ ap (λ n. run_hooks n hooks) (omega arith),
)
