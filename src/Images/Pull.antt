-- ===== src/Images/Pull.antt =====
-- `resolveImageDigest` of cmd/hull/run.go, and the pull policies of cmd/hull/runargs.go.
use hull.Prelude.{
  ◌≡◌, ◌≢◌, ◌⊎◌, ◌↔◌, refl, inl, inr, Bool, true, false, not, ◌||◌, Option, none, some, Bytes,
  arith, codes, if◌then◌else◌, same, same→eq, same_refl, Bool-cases, Option-cases,
}

abbrev pub pull_missing : Bytes
pull_missing = codes "missing"

abbrev pub pull_always : Bytes
pull_always = codes "always"

abbrev pub pull_never : Bytes
pull_never = codes "never"

unfoldable pub valid_pull_policy : Bytes → Bool
valid_pull_policy p = same p pull_missing || same p pull_always || same p pull_never

pub data Resolved : Type 0 where
  found : Bytes → Resolved
  not_cached pull_failed : Resolved

abbrev pub of_pull : Option Bytes → Resolved
of_pull none = pull_failed
of_pull (some digest) = found digest

abbrev pub of_cache : Bytes → Option Bytes → Option Bytes → Resolved × Bool
of_cache policy pulled (some digest) = (found digest, false)
of_cache policy pulled none =
    if same policy pull_never then (not_cached, false) else (of_pull pulled, true)

-- `cached` is what `cachedDigest` answers and `pulled` what a pull would; the second component says
-- whether the registry was asked.
unfoldable pub resolve_image_digest : Bytes → Option Bytes → Option Bytes → Resolved × Bool
resolve_image_digest policy cached pulled =
    if not (same policy pull_always) then of_cache policy pulled cached else (of_pull pulled, true)

differs : (s t : Bytes) → same s t ≡ false → s ≢ t
differs s t h e = ground (arith, h, e, same_refl t)

same_of_eq : (s t : Bytes) → s ≡ t → same s t ≡ true
same_of_eq s t e = rw e (same_refl t)

differs_back : (s t : Bytes) → s ≢ t → same s t ≡ false
differs_back s t ne = elim (Bool-cases (same s t)) [
  | inl equal ↦ absurd (ne (same→eq s t equal))
  | inr other ↦ other
]

asked :
    (policy : Bytes) (cached pulled : Option Bytes)
    → (resolve_image_digest policy cached pulled).1 ≡ true
    → (policy ≡ pull_always) ⊎ ((policy ≢ pull_never) × (cached ≡ none))
unfolding resolve_image_digest
asked policy cached pulled h = elim (Bool-cases (same policy pull_always)) [
  | inl always ↦ inl (same→eq policy pull_always always)
  | inr lazy ↦ elim (Option-cases cached) [
    | inr (d, hit) ↦ absurd (ground (arith, h, lazy, hit))
    | inl miss ↦ elim (Bool-cases (same policy pull_never)) [
      | inl never ↦ absurd (ground (arith, h, lazy, miss, never))
      | inr free ↦ inr (differs policy pull_never free, miss)
    ]
  ]
]

asks :
    (policy : Bytes) (cached pulled : Option Bytes)
    → (policy ≡ pull_always) ⊎ ((policy ≢ pull_never) × (cached ≡ none))
    → (resolve_image_digest policy cached pulled).1 ≡ true
unfolding resolve_image_digest
asks policy cached pulled (inl e) = rw (same_of_eq policy pull_always e) refl
asks policy cached pulled (inr (ne, miss)) = ground (arith, miss, differs_back policy pull_never ne)

independent :
    (policy : Bytes) (cached pulled other : Option Bytes)
    → (resolve_image_digest policy cached pulled).1 ≡ false
    → resolve_image_digest policy cached pulled ≡ resolve_image_digest policy cached other
unfolding resolve_image_digest
independent policy cached pulled other h = ground (arith, h)

-- The registry is asked just if the policy is `always`, or is not `never` while no image is cached;
-- where it is not asked, the result does not depend on it.
pub resolve_image_digest_lem :
    (policy : Bytes) (cached pulled other : Option Bytes)
    → (((resolve_image_digest policy cached pulled).1 ≡ true)
        ↔ ((policy ≡ pull_always) ⊎ ((policy ≢ pull_never) × (cached ≡ none))))
      × ((resolve_image_digest policy cached pulled).1 ≡ false
          → resolve_image_digest policy cached pulled ≡ resolve_image_digest policy cached other)
resolve_image_digest_lem policy cached pulled other = (
  (asked policy cached pulled, asks policy cached pulled),
  independent policy cached pulled other,
)
