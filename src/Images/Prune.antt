-- ===== src/Images/Prune.antt =====
-- cmd/hull/prune.go: what `prune` removes, and the loop that removes it.
use hull.Prelude.{
  ℕ, ◌+◌, Bool, true, false, not, ◌||◌, Option, none, some, List, [], ◌∷◌, ◌++◌, Bytes,
  if◌then◌else◌, ltb, length, same, has_prefix, codes,
}
use hull.Images.Reference.{Image, is_empty, or_empty, is_image_digest}
use hull.Images.Order.{sort_by}
use hull.Images.Choice.{superseded_digests}
use hull.Images.Remove.{Holder}

pub data Reason : Type 0 where
  interrupted displaced no_metadata unusable unused : Reason
  superseded : Bytes → Reason

-- `pruneTarget`.
pub record Target : Type 0 where
  pub name : Bytes
  pub staging : Bool
  pub ref : Bytes
  pub reason : Reason
  pub bytes : ℕ

-- What `prune` reads of the store: the two listings of directories, the records, the locks, the
-- holders, which images are whole, and the disk usage of an entry.
pub record Shelf : Type 0 where
  pub staging_dirs : List Bytes
  pub in_flight : Bytes → Bool
  pub image_names : List Bytes
  pub images : List Image
  pub held : Bytes → List Holder
  pub complete : Bytes → Bool
  pub usage : Bytes → ℕ

-- `strings.Contains(name, ".old-")`. The names of a listing have no slash, so `filepath.Base` is
-- the name.
unfoldable pub is_displaced : Bytes → Bool
is_displaced [] = false
is_displaced (c ∷ s) = has_prefix (c ∷ s) (codes ".old-") || is_displaced s

abbrev pub staging_target : Shelf → Bytes → Target
staging_target s name = record {
  name = name;
  staging = true;
  ref = [];
  reason = if is_displaced name then displaced else interrupted;
  bytes = s.usage name;
}

unfoldable pub staging_targets : Shelf → List Bytes → List Target
staging_targets s [] = []
staging_targets s (name ∷ names) =
    let rest = staging_targets s names in
    if s.in_flight name then rest else staging_target s name ∷ rest

-- The map `byDigest`: of two records with one digest the last counts.
unfoldable pub by_digest : List Image → Bytes → Option Image
by_digest [] digest = none
by_digest (m ∷ ms) digest = elim (by_digest ms digest) [
  | none ↦ if same m.digest digest then some m else none
  | some later ↦ some later
]

-- The `switch` of the loop over the image directories; `replaced` is `superseded[name]`.
unfoldable pub reason_to_go : Shelf → Bool → Bytes → Option Image → Bytes → Option Reason
reason_to_go s all name none replaced =
    if not (is_image_digest name) then none else some no_metadata
reason_to_go s all name (some m) replaced =
    if not (s.complete name)
    then some unusable
    else if not (is_empty replaced)
    then some (superseded replaced)
    else if all
    then some unused
    else none

abbrev pub ref_of : Option Image → Bytes
ref_of none = []
ref_of (some m) = m.ref

abbrev pub target_of : Shelf → Bytes → Option Image → Reason → Target
target_of s name m reason = record {
  name = name;
  staging = false;
  ref = ref_of m;
  reason = reason;
  bytes = s.usage name;
}

abbrev pub target_for : Shelf → Bytes → Option Image → Option Reason → List Target
target_for s name m none = []
target_for s name m (some reason) = target_of s name m reason ∷ []

abbrev pub reason_for : Shelf → Bool → Bytes → Option Reason
reason_for s all name =
    reason_to_go s all name (by_digest s.images name)
      (or_empty (superseded_digests s.complete s.images name))

abbrev pub image_target : Shelf → Bool → Bytes → List Target
image_target s all name =
    if ltb 0 (length (s.held name))
    then []
    else target_for s name (by_digest s.images name) (reason_for s all name)

unfoldable pub image_targets : Shelf → Bool → List Bytes → List Target
image_targets s all [] = []
image_targets s all (name ∷ names) = image_target s all name ++ image_targets s all names

unfoldable pub prune_targets : Shelf → Bool → List Target
prune_targets s all =
    sort_by (λ t. t.name) (staging_targets s s.staging_dirs ++ image_targets s all s.image_names)

-- What the store answers to a removal.
pub data Answer : Type 0 where
  removed already_gone staging_in_use failed : Answer

-- What is printed, and the failures.
pub data Line : Type 0 where
  would_remove was_removed was_gone was_left failure : Bytes → Line

pub record Pruned : Type 0 where
  pub reclaimed : ℕ
  pub lines : List Line

abbrev pub tell : Line → Pruned → Pruned
tell l p = record p { lines = l ∷ p.lines }

abbrev pub count : ℕ → Line → Pruned → Pruned
count n l p = record { reclaimed = n + p.reclaimed; lines = l ∷ p.lines }

-- The answer of `DeleteImage` is not `already_gone`; the loop would count it as removed.
abbrev pub prune_one : Target → Answer → Pruned → Pruned
prune_one t removed p = count t.bytes (was_removed t.name) p
prune_one t already_gone p =
    if t.staging then tell (was_gone t.name) p else count t.bytes (was_removed t.name) p
prune_one t staging_in_use p = tell (was_left t.name) p
prune_one t failed p = tell (failure t.name) p

unfoldable pub remove_prune_targets : (Target → Answer) → Bool → List Target → Pruned
remove_prune_targets store dry_run [] = record { reclaimed = 0; lines = [] }
remove_prune_targets store dry_run (t ∷ ts) =
    let rest = remove_prune_targets store dry_run ts in
    if dry_run then count t.bytes (would_remove t.name) rest else prune_one t (store t) rest
