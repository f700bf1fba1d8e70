-- ===== src/Prelude/Fields.antt =====
-- The fields that `split` makes of a text.
use Prim.Native.Nat.{ℕ}
use mathlib.Core.Path.{◌≡◌, refl, ap, ◌∙◌}
use mathlib.Core.Logic.{inl, inr}
use mathlib.Core.Bool.{true, not}
use mathlib.Core.List.{List, [], ◌∷◌, ◌++◌}
use native.Mathlib.Omega.{arith}
use hull.Prelude.Tests.{◌==◌, Bool-cases}
use hull.Prelude.Slices.{Bytes, all_bytes, first_joined, split}

-- No byte of the text is `sep`.
abbrev pub Lacks : ℕ → Bytes → Type 0
Lacks sep s = all_bytes (λ c. not (c == sep)) s ≡ true

pub split_cons : (sep : ℕ) (s : Bytes) → (f : Bytes) × (fs : List Bytes) × (split sep s ≡ f ∷ fs)
unfolding split
split_cons sep [] = ([], [], refl)
split_cons sep (c ∷ s) = elim (Bool-cases (c == sep)) [
  | inl here ↦ ([], split sep s, ground arith)
  | inr other ↦ let (f, fs, e) = split_cons sep s in (c ∷ f, fs, ground (arith, e))
]

first_joined-append :
    (c : ℕ) (xs ys : List Bytes) (f : Bytes) (fs : List Bytes)
    → xs ≡ f ∷ fs
    → first_joined c (xs ++ ys) ≡ first_joined c xs ++ ys
first_joined-append c [] ys f fs e = cc
first_joined-append c (x ∷ xs) ys f fs e = refl

pub split-append : (sep : ℕ) (s t : Bytes) → split sep (s ++ sep ∷ t) ≡ split sep s ++ split sep t
unfolding split
split-append sep [] t = ground arith
split-append sep (c ∷ s) t = elim (Bool-cases (c == sep)) [
  | inl here ↦ rw here (ap (λ (l : List Bytes). [] ∷ l) (split-append sep s t))
  | inr other ↦
      let (f, fs, e) = split_cons sep s in
      rw other (
        ap (first_joined c) (split-append sep s t)
        ∙ first_joined-append c (split sep s) (split sep t) f fs e)
]

pub split-Lacks : (sep : ℕ) (s : Bytes) → Lacks sep s → split sep s ≡ s ∷ []
unfolding split all_bytes
split-Lacks sep [] h = refl
split-Lacks sep (c ∷ s) h = ground (arith, split-Lacks sep s)
