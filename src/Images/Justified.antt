-- ===== src/Images/Justified.antt =====
-- What has to hold of the store for each directory that `prune` removes.
use hull.Prelude.{
  In, In-append, ◌≡◌, refl, sym, ◌≢◌, ◌⊎◌, inl, inr, Bool, true, false, Option, none, some, List,
  [], ◌∷◌, ◌++◌, Bytes, arith, same_refl, ltb, length, Bool-cases, Option-cases,
}
use mathlib.Core.Path.{subst}
use hull.Images.Reference.{Image, is_image_digest, or_empty}
use hull.Images.Order.{In-sort_by}
use hull.Images.Choice.{superseded_digests}
use hull.Images.Prune.{
  Reason, interrupted, displaced, no_metadata, unusable, unused, superseded, Target, Shelf,
  staging_targets, by_digest, reason_to_go, image_target, image_targets, prune_targets, target_of,
  reason_for, staging_target,
}
use hull.Images.Newest.{Replaced, superseded_digests-Replaced}

-- An image directory goes because no record names it and its name is a digest, because the image is
-- not whole, because a whole image of its group that is not older replaced it, or, under `--all`,
-- because nothing uses it.
pub data Goes (s : Shelf) (all : Bool) (name : Bytes) : Reason → Type 0 where
  unreadable :
      is_image_digest name ≡ true
      → ((m : Image) → In m s.images → m.digest ≢ name)
      → Goes s all name no_metadata
  broken : s.complete name ≡ false → Goes s all name unusable
  replaced :
      {by : Bytes}
      → s.complete name ≡ true
      → Replaced s.complete s.images name by
      → Goes s all name (superseded by)
  unneeded : all ≡ true → Goes s all name unused

-- A staging directory goes while no pull holds it, an image directory while no instance refers to it.
abbrev pub JustifiedAs : Shelf → Bool → Bytes → Reason → Bool → Type 0
JustifiedAs s all name reason true = In name s.staging_dirs × (s.in_flight name ≡ false)
JustifiedAs s all name reason false =
    In name s.image_names × (s.held name ≡ []) × Goes s all name reason

abbrev pub IsJustified : Shelf → Bool → Target → Type 0
IsJustified s all t = JustifiedAs s all t.name t.reason t.staging

by_eq : (s : Shelf) (all : Bool) (t u : Target) → t ≡ u → IsJustified s all u → IsJustified s all t
by_eq s all t u e h = subst (λ v. IsJustified s all v) (sym e) h

staging_targets-IsJustified :
    (s : Shelf) (all : Bool) (names : List Bytes) (t : Target)
    → ((n : Bytes) → In n names → In n s.staging_dirs)
    → In t (staging_targets s names)
    → IsJustified s all t
unfolding staging_targets
staging_targets-IsJustified s all [] t sub h = absurd h
staging_targets-IsJustified s all (n ∷ names) t sub h = elim (Bool-cases (s.in_flight n)) [
  | inl busy ↦
      staging_targets-IsJustified s all names t (λ m i. sub m (inr i)) (ground (arith, h, busy))
  | inr free ↦
      let split : (t ≡ staging_target s n) ⊎ In t (staging_targets s names) =
        ground (arith, h, free) in
      elim split [
        | inl e ↦ by_eq s all t (staging_target s n) e (sub n (inl refl), free)
        | inr i ↦ staging_targets-IsJustified s all names t (λ m i. sub m (inr i)) i
      ]
]

by_digest-none :
    (ms : List Image) (name : Bytes)
    → by_digest ms name ≡ none
    → (m : Image) → In m ms
    → m.digest ≢ name
unfolding by_digest
by_digest-none [] name h m i e = absurd i
by_digest-none (x ∷ ms) name h m i e = elim (Option-cases (by_digest ms name)) [
  | inr (a, later) ↦ ground (arith, h, later)
  | inl none_later ↦ elim i [
    | inl this ↦ ground (arith, h, none_later, this, e, same_refl m.digest)
    | inr there ↦ by_digest-none ms name none_later m there e
  ]
]

length_zero : {A : Type 0} (l : List A) → ltb 0 (length l) ≡ false → l ≡ []
length_zero [] h = refl
length_zero (x ∷ l) h = absurd (ground arith)

recorded_reason :
    (s : Shelf) (all : Bool) (name : Bytes) (m : Image) (by : Option Bytes) (reason : Reason)
    → superseded_digests s.complete s.images name ≡ by
    → reason_to_go s all name (some m) (or_empty by) ≡ some reason
    → Goes s all name reason
unfolding reason_to_go
recorded_reason s all name m by interrupted e h = absurd (ground arith)
recorded_reason s all name m by displaced e h = absurd (ground arith)
recorded_reason s all name m by no_metadata e h = absurd (ground arith)
recorded_reason s all name m by unusable e h = broken (ground arith)
recorded_reason s all name m by unused e h = unneeded (ground arith)
recorded_reason s all name m none (superseded d) e h = absurd (ground arith)
recorded_reason s all name m (some a) (superseded d) e h =
    replaced (ground arith)
      (superseded_digests-Replaced s.complete s.images name d (ground (arith, h, e)))

unrecorded_reason :
    (s : Shelf) (all : Bool) (name by : Bytes) (reason : Reason)
    → by_digest s.images name ≡ none
    → reason_to_go s all name none by ≡ some reason
    → Goes s all name reason
unfolding reason_to_go
unrecorded_reason s all name by interrupted e h = absurd (ground arith)
unrecorded_reason s all name by displaced e h = absurd (ground arith)
unrecorded_reason s all name by no_metadata e h =
    unreadable (ground arith) (by_digest-none s.images name e)
unrecorded_reason s all name by unusable e h = absurd (ground arith)
unrecorded_reason s all name by unused e h = absurd (ground arith)
unrecorded_reason s all name by (superseded d) e h = absurd (ground arith)

reason_for-Goes :
    (s : Shelf) (all : Bool) (name : Bytes) (reason : Reason)
    → reason_for s all name ≡ some reason
    → Goes s all name reason
reason_for-Goes s all name reason h = elim (Option-cases (by_digest s.images name)) [
  | inl e ↦
      unrecorded_reason s all name (or_empty (superseded_digests s.complete s.images name)) reason e
        (ground (arith, h, e))
  | inr (m, e) ↦
      recorded_reason s all name m (superseded_digests s.complete s.images name) reason refl
        (ground (arith, h, e))
]

image_target-IsJustified :
    (s : Shelf) (all : Bool) (n : Bytes) (t : Target)
    → In n s.image_names
    → In t (image_target s all n)
    → IsJustified s all t
image_target-IsJustified s all n t i h = elim (Bool-cases (ltb 0 (length (s.held n)))) [
  | inl held ↦ absurd (ground (arith, h, held))
  | inr free ↦ elim (Option-cases (reason_for s all n)) [
    | inl e ↦ absurd (ground (arith, h, free, e))
    | inr (reason, e) ↦
        by_eq s all t (target_of s n (by_digest s.images n) reason) (ground (arith, h, free, e))
          (i, length_zero (s.held n) free, reason_for-Goes s all n reason e)
  ]
]

image_targets-IsJustified :
    (s : Shelf) (all : Bool) (names : List Bytes) (t : Target)
    → ((n : Bytes) → In n names → In n s.image_names)
    → In t (image_targets s all names)
    → IsJustified s all t
unfolding image_targets
image_targets-IsJustified s all [] t sub h = absurd h
image_targets-IsJustified s all (n ∷ names) t sub h =
    elim (In-append t (image_target s all n) (image_targets s all names) h) [
      | inl here ↦ image_target-IsJustified s all n t (sub n (inl refl)) here
      | inr there ↦ image_targets-IsJustified s all names t (λ m i. sub m (inr i)) there
    ]

-- What `prune` removes is justified: a staging directory that no pull holds, or a directory of
-- `images/` that no instance refers to and that goes for the reason given with it: unreadable, not
-- whole, replaced by a whole image of its group that is not older, or, under `--all`, unneeded.
pub prune_targets-IsJustified :
    (s : Shelf) (all : Bool) (t : Target) → In t (prune_targets s all) → IsJustified s all t
unfolding prune_targets
prune_targets-IsJustified s all t h =
    let staged = staging_targets s s.staging_dirs in
    let unheld = image_targets s all s.image_names in
    elim (In-append t staged unheld (In-sort_by (λ t. t.name) t (staged ++ unheld) h)) [
      | inl i ↦ staging_targets-IsJustified s all s.staging_dirs t (λ n i. i) i
      | inr i ↦ image_targets-IsJustified s all s.image_names t (λ n i. i) i
    ]
