-- ===== src/Run/Resolve.antt =====
-- Where the entries come from that `resolveEnvEntries` hands to the guest.
use hull.Prelude.{
  In, In-append, ◌≡◌, refl, sym, ap, ◌∙◌, inl, inr, true, false, Option, some, List, [], ◌∷◌, ◌++◌,
  Bytes, arith, cut, Bool-cases, Option-cases,
}
use mathlib.Core.Path.{subst}
use hull.Run.Env.{is_blank, inherited, resolve_entry, resolve_env_entries}

-- The entry is one of the flags as it stands, which gives a value to a name, or a flag that is a
-- name only, with the value that the variable has.
pub data ComesFrom (lookup : Bytes → Option Bytes) (entries : List Bytes) (e : Bytes) : Type 0 where
  verbatim :
      In e entries
      → (cut b'=' e).found ≡ true
      → is_blank (cut b'=' e).before ≡ false
      → ComesFrom lookup entries e
  from_host :
      (flag value : Bytes)
      → In flag entries
      → (cut b'=' flag).found ≡ false
      → is_blank (cut b'=' flag).before ≡ false
      → lookup (cut b'=' flag).before ≡ some value
      → e ≡ (cut b'=' flag).before ++ b'=' ∷ value
      → ComesFrom lookup entries e

widen :
    (lookup : Bytes → Option Bytes) (x : Bytes) (entries : List Bytes) (e : Bytes)
    → ComesFrom lookup entries e
    → ComesFrom lookup (x ∷ entries) e
widen lookup x entries e (verbatim i f b) = verbatim (inr i) f b
widen lookup x entries e (from_host flag value i f b l r) = from_host flag value (inr i) f b l r

resolve_entry-ComesFrom :
    (lookup : Bytes → Option Bytes) (x : Bytes) (entries out : List Bytes) (e : Bytes)
    → resolve_entry lookup x ≡ some out
    → In e out
    → ComesFrom lookup (x ∷ entries) e
unfolding resolve_entry
resolve_entry-ComesFrom lookup x entries out e h i =
    elim (Bool-cases (is_blank (cut b'=' x).before)) [
      | inl blank ↦ absurd (ground (arith, h, blank))
      | inr named ↦ elim (Bool-cases (cut b'=' x).found) [
        | inl found ↦
            let l : x ∷ [] ≡ out = ground (arith, h, named, found) in
            elim (subst (λ o. In e o) (sym l) i) [
              | inl eq ↦
                  verbatim (inl eq) (ap (λ s. (cut b'=' s).found) eq ∙ found)
                    (ap (λ s. is_blank (cut b'=' s).before) eq ∙ named)
              | inr none_in ↦ absurd none_in
            ]
        | inr bare ↦
            let l : inherited (cut b'=' x).before (lookup (cut b'=' x).before) ≡ out =
              ground (arith, h, named, bare) in
            elim (Option-cases (lookup (cut b'=' x).before)) [
              | inl unset ↦
                  absurd (subst (λ o. In e o) (sym l ∙ ap (inherited (cut b'=' x).before) unset) i)
              | inr (value, set) ↦
                  elim (subst (λ o. In e o) (sym l ∙ ap (inherited (cut b'=' x).before) set) i) [
                    | inl eq ↦ from_host x value (inl refl) bare named set eq
                    | inr none_in ↦ absurd none_in
                  ]
            ]
      ]
    ]

-- Every entry for the guest gives a value to a name: it is a flag as it stands, or the name in a bare
-- flag with the value that the host has for it. The others are dropped.
pub resolve_env_entries-ComesFrom :
    (lookup : Bytes → Option Bytes) (entries out : List Bytes) (e : Bytes)
    → resolve_env_entries lookup entries ≡ some out
    → In e out
    → ComesFrom lookup entries e
unfolding resolve_env_entries
resolve_env_entries-ComesFrom lookup [] out e h i =
    let l : out ≡ [] = ground (arith, h) in absurd (subst (λ o. In e o) l i)
resolve_env_entries-ComesFrom lookup (x ∷ entries) out e h i =
    elim (Option-cases (resolve_entry lookup x)) [
      | inl bad ↦ absurd (ground (arith, h, bad))
      | inr (first, f) ↦ elim (Option-cases (resolve_env_entries lookup entries)) [
        | inl bad ↦ absurd (ground (arith, h, f, bad))
        | inr (rest, r) ↦
            let l : out ≡ first ++ rest = ground (arith, h, f, r) in
            elim (In-append e first rest (subst (λ o. In e o) l i)) [
              | inl j ↦ resolve_entry-ComesFrom lookup x entries first e f j
              | inr j ↦
                  widen lookup x entries e (resolve_env_entries-ComesFrom lookup entries rest e r j)
            ]
      ]
    ]
