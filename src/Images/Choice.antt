-- ===== src/Images/Choice.antt =====
-- `cachedDigest` of cmd/hull/run.go (the cached image that `run` boots), and `supersededDigests` and
-- `newer` of cmd/hull/prune.go. `complete` is `Store.ImageComplete`.
use hull.Prelude.{
  less, ℕ, Bool, true, not, ◌&&◌, Option, none, some, List, [], ◌∷◌, ◌++◌, Bytes, if◌then◌else◌,
  ltb, ◌==◌, same, codes,
}
use hull.Images.Reference.{Image, parse_reference, answers, is_empty}

-- `ociclient.DefaultPlatform`.
abbrev pub default_platform : Bytes
default_platform = codes "linux/arm64"

-- A record without a platform was pulled for the default one.
abbrev pub platform_of : Image → Bytes
platform_of m = if is_empty m.platform then default_platform else m.platform

-- `t.After(u)`.
abbrev pub after : ℕ → ℕ → Bool
after t u = ltb u t

-- One image of the listing, against the best one before it.
abbrev pub best_of : Option Image → Image → Image
best_of none m = m
best_of (some best) m = if after m.pulled_at best.pulled_at then m else best

abbrev pub is_candidate : (Image → Bool) → (Bytes → Bool) → Bytes → Image → Bool
is_candidate asked complete platform m =
    asked m && same (platform_of m) platform && complete m.digest

unfoldable pub best_cached : (Image → Bool) → Option Image → List Image → Option Image
best_cached ok best [] = best
best_cached ok best (m ∷ ms) =
    if ok m then best_cached ok (some (best_of best m)) ms else best_cached ok best ms

unfoldable pub cached_image :
    (Bytes → Option Bytes) → (Bytes → Bool) → List Image → Bytes → Bytes → Option Image
cached_image canonical complete images ref platform =
    best_cached
      (is_candidate (λ m. answers canonical m (parse_reference canonical ref)) complete platform)
      none images

abbrev pub digest_of : Option Image → Option Bytes
digest_of none = none
digest_of (some m) = some m.digest

unfoldable pub cached_digest :
    (Bytes → Option Bytes) → (Bytes → Bool) → List Image → Bytes → Bytes → Option Bytes
cached_digest canonical complete images ref platform =
    digest_of (cached_image canonical complete images ref platform)

-- A tie of the times is broken on the digest.
unfoldable pub newer : Image → Image → Bool
newer a b =
    if a.pulled_at == b.pulled_at then less b.digest a.digest else after a.pulled_at b.pulled_at

-- The key of the groups: the reference, a zero byte, and the platform.
unfoldable pub group_key : Image → Bytes
group_key m = m.ref ++ 0 ∷ platform_of m

abbrev pub takes_over : Image → Option Image → Bool
takes_over m none = true
takes_over m (some best) = newer m best

-- The map `newest`, as a function of the key: the loop over the complete images.
unfoldable pub newest : (Bytes → Bool) → (Bytes → Option Image) → List Image → Bytes → Option Image
newest complete seen [] = seen
newest complete seen (m ∷ ms) =
    newest complete
      (λ k.
        if complete m.digest && same (group_key m) k && takes_over m (seen k)
        then some m
        else seen k)
      ms

abbrev pub other_digest : Image → Option Image → Option Bytes
other_digest m none = none
other_digest m (some keeper) =
    if not (same keeper.digest m.digest) then some keeper.digest else none

abbrev pub or_else : Option Bytes → Option Bytes → Option Bytes
or_else none d = d
or_else (some a) d = some a

-- The map `superseded`, as a function of the digest: the last image of the digest that a keeper
-- replaces decides.
unfoldable pub superseded_by : (Bytes → Option Image) → List Image → Bytes → Option Bytes
superseded_by keepers [] digest = none
superseded_by keepers (m ∷ ms) digest =
    or_else (superseded_by keepers ms digest)
      (if same m.digest digest then other_digest m (keepers (group_key m)) else none)

unfoldable pub superseded_digests : (Bytes → Bool) → List Image → Bytes → Option Bytes
superseded_digests complete images = superseded_by (newest complete (λ k. none) images) images
