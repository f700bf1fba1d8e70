-- ===== src/Images/Kept.antt =====
-- `prune` keeps the image that `run` finds in the cache.
use hull.Prelude.{
  In, ◌≤◌, ◌≡◌, refl, sym, ap, ◌∙◌, ◌≢◌, ◌⊎◌, inl, inr, Bool, true, false, Option, none, some, List,
  [], ◌∷◌, ◌++◌, Bytes, arith, same→eq, same_refl, Bool-cases, Option-cases, Lacks, all_bytes,
}
use mathlib.Core.Path.{subst}
use hull.Images.Reference.{Image, Reference, answers, parse_reference}
use hull.Images.Choice.{
  platform_of, is_candidate, best_cached, best_of, cached_image, cached_digest, group_key, after,
}
use hull.Images.Prune.{
  Reason, interrupted, displaced, Target, Shelf, prune_targets, superseded, unusable, unused,
  no_metadata,
}
use hull.Images.Newest.{Replaced}
use hull.Images.Justified.{
  JustifiedAs, Goes, unreadable, broken, replaced, unneeded, prune_targets-IsJustified,
}

none≢some : {A : Type 0} {a : A} → none ≡ some a → ⊥
none≢some e = cc

some_inj : {A : Type 0} {a b : A} → some a ≡ some b → a ≡ b
some_inj e = cc

-- The loop of `cachedDigest` ends with one of the candidates, and none was pulled later.
best_of-case : (o : Option Image) (x : Image) → (best_of o x ≡ x) ⊎ (o ≡ some (best_of o x))
best_of-case none x = inl refl
best_of-case (some b) x = elim (Bool-cases (after x.pulled_at b.pulled_at)) [
  | inl later ↦ inl (rw later refl)
  | inr earlier ↦ inr (rw earlier refl)
]

best_of-old : (b x : Image) → b.pulled_at ≤ (best_of (some b) x).pulled_at
best_of-old b x = ground arith

best_of-new : (o : Option Image) (x : Image) → x.pulled_at ≤ (best_of o x).pulled_at
best_of-new none x = omega arith
best_of-new (some b) x = ground arith

best_cached-candidate :
    (ok : Image → Bool) (o : Option Image) (ms : List Image) (best : Image)
    → best_cached ok o ms ≡ some best
    → (o ≡ some best) ⊎ (In best ms × (ok best ≡ true))
unfolding best_cached
best_cached-candidate ok o [] best h = inl h
best_cached-candidate ok o (x ∷ ms) best h = elim (Bool-cases (ok x)) [
  | inr other ↦ elim (best_cached-candidate ok o ms best (ground (arith, h, other))) [
    | inl e ↦ inl e
    | inr (i, k) ↦ inr (inr i, k)
  ]
  | inl here ↦
      elim (best_cached-candidate ok (some (best_of o x)) ms best (ground (arith, h, here))) [
        | inr (i, k) ↦ inr (inr i, k)
        | inl e ↦ elim (best_of-case o x) [
          | inl new ↦ inr (inl (some_inj (sym e) ∙ new), ap ok (some_inj (sym e) ∙ new) ∙ here)
          | inr old ↦ inl (old ∙ e)
        ]
      ]
]

best_cached-old :
    (ok : Image → Bool) (b : Image) (ms : List Image) (best : Image)
    → best_cached ok (some b) ms ≡ some best
    → b.pulled_at ≤ best.pulled_at
unfolding best_cached
best_cached-old ok b [] best h = ground (arith, h)
best_cached-old ok b (x ∷ ms) best h = elim (Bool-cases (ok x)) [
  | inr other ↦ best_cached-old ok b ms best (ground (arith, h, other))
  | inl here ↦ omega (
    arith,
    best_of-old b x,
    best_cached-old ok (best_of (some b) x) ms best (ground (arith, h, here)),
  )
]

best_cached-latest :
    (ok : Image → Bool) (o : Option Image) (ms : List Image) (best m : Image)
    → best_cached ok o ms ≡ some best
    → In m ms
    → ok m ≡ true
    → m.pulled_at ≤ best.pulled_at
unfolding best_cached
best_cached-latest ok o [] best m h i k = absurd i
best_cached-latest ok o (x ∷ ms) best m h (inl e) k =
    let first = best_cached-old ok (best_of o x) ms best (ground (arith, h, k, e)) in
    omega (arith, first, best_of-new o x, ap (λ (v : Image). v.pulled_at) e)
best_cached-latest ok o (x ∷ ms) best m h (inr i) k = elim (Bool-cases (ok x)) [
  | inr other ↦ best_cached-latest ok o ms best m (ground (arith, h, other)) i k
  | inl here ↦ best_cached-latest ok (some (best_of o x)) ms best m (ground (arith, h, here)) i k
]

-- The zero byte ends the reference in a key, as no reference has one.
key_injective :
    (a b p q : Bytes) → Lacks 0 a → Lacks 0 b → a ++ 0 ∷ p ≡ b ++ 0 ∷ q → (a ≡ b) × (p ≡ q)
unfolding all_bytes
key_injective [] [] p q la lb e = (refl, ground (arith, e))
key_injective [] (y ∷ b) p q la lb e = absurd (ground (arith, lb, e))
key_injective (x ∷ a) [] p q la lb e = absurd (ground (arith, la, e))
key_injective (x ∷ a) (y ∷ b) p q la lb e =
    let (f, g) =
      key_injective a b p q (ground (arith, la)) (ground (arith, lb)) (ground (arith, e)) in
    (ground (arith, e, f), g)

raw-parse_reference :
    (canonical : Bytes → Option Bytes) (ref : Bytes) → (parse_reference canonical ref).raw ≡ ref
unfolding parse_reference
raw-parse_reference canonical ref = ground arith

-- Without a digest a reference is answered as it is written only.
answers-tag :
    (canonical : Bytes → Option Bytes) (m : Image) (want : Reference)
    → want.digest ≡ []
    → answers canonical m want ≡ true
    → (m.ref ≡ want.raw) ⊎ (m.digest ≡ want.raw)
unfolding answers
answers-tag canonical m want d h = ground (arith, same→eq m.ref want.raw, same→eq m.digest want.raw)

answers_ref :
    (canonical : Bytes → Option Bytes) (m : Image) (want : Reference)
    → m.ref ≡ want.raw
    → answers canonical m want ≡ true
unfolding answers
answers_ref canonical m want e = ground (arith, same_refl want.raw)

group_key_injective :
    (a b : Image)
    → Lacks 0 a.ref
    → Lacks 0 b.ref
    → group_key a ≡ group_key b
    → (a.ref ≡ b.ref) × (platform_of a ≡ platform_of b)
unfolding group_key
group_key_injective a b la lb e = key_injective a.ref b.ref (platform_of a) (platform_of b) la lb e

-- The keeper of the group of the best image is a candidate too.
candidate_of_group :
    (canonical : Bytes → Option Bytes) (complete : Bytes → Bool) (ref platform : Bytes)
    (best keeper : Image)
    → (parse_reference canonical ref).digest ≡ []
    → best.digest ≢ ref
    → is_candidate (λ m. answers canonical m (parse_reference canonical ref)) complete platform best
      ≡ true
    → keeper.ref ≡ best.ref
    → platform_of keeper ≡ platform_of best
    → complete keeper.digest ≡ true
    → is_candidate
        (λ m. answers canonical m (parse_reference canonical ref))
        complete
        platform
        keeper
      ≡ true
candidate_of_group canonical complete ref platform best keeper tag ne ok r p c =
    let want = parse_reference canonical ref in
    let raw : want.raw ≡ ref = raw-parse_reference canonical ref in
    let asked : answers canonical best want ≡ true = ground (arith, ok) in
    let written : best.ref ≡ want.raw =
      ground (arith, answers-tag canonical best want tag asked, ne, raw) in
    let answered : answers canonical keeper want ≡ true =
      answers_ref canonical keeper want (r ∙ written) in
    ground (arith, ok, answered, p, c)

module _ (canonical : Bytes → Option Bytes) (s : Shelf) (ref platform : Bytes)
    (keyed : (a b : Image) → In a s.images → In b s.images → a.digest ≡ b.digest → a ≡ b)
    (untied : (a b : Image)
      → In a s.images
      → In b s.images
      → group_key a ≡ group_key b
      → a.pulled_at ≡ b.pulled_at
      → a.digest ≡ b.digest)
    (no_zero : (m : Image) → In m s.images → Lacks 0 m.ref)
    (tag : (parse_reference canonical ref).digest ≡ [])
    (no_digest : (m : Image) → In m s.images → m.digest ≢ ref) where
  abbrev candidate : Image → Bool
  candidate =
      is_candidate (λ m. answers canonical m (parse_reference canonical ref)) s.complete platform

  not-Replaced :
      (best : Image) (by : Bytes)
      → In best s.images
      → candidate best ≡ true
      → cached_image canonical s.complete s.images ref platform ≡ some best
      → ¬ Replaced s.complete s.images best.digest by
  unfolding cached_image
  not-Replaced best by i ok found r =
      let is_best : r.old ≡ best = keyed r.old best r.old_in i r.old_digest in
      let grouped : group_key r.keeper ≡ group_key best = r.same_group ∙ ap group_key is_best in
      let (refs, platforms) =
        group_key_injective r.keeper best (no_zero r.keeper r.keeper_in) (no_zero best i) grouped in
      let chosen =
        candidate_of_group canonical s.complete ref platform best r.keeper tag (no_digest best i) ok
          refs platforms r.keeper_complete in
      let upper =
        best_cached-latest candidate none s.images best r.keeper found r.keeper_in chosen in
      let whole : s.complete r.old.digest ≡ true =
        rw (ap (λ (m : Image). m.digest) is_best) (ground (arith, ok)) in
      let lower = r.not_older whole in
      let time : r.keeper.pulled_at ≡ best.pulled_at =
        omega (arith, upper, lower, ap (λ (m : Image). m.pulled_at) is_best) in
      r.differs (sym (untied r.keeper best r.keeper_in i grouped time) ∙ r.keeper_digest)

  found-candidate :
      (best : Image)
      → cached_image canonical s.complete s.images ref platform ≡ some best
      → In best s.images × (candidate best ≡ true)
  unfolding cached_image
  found-candidate best b = elim (best_cached-candidate candidate none s.images best b) [
    | inl e ↦ absurd (none≢some e)
    | inr (i, k) ↦ (i, k)
  ]

  not_gone :
      (best : Image) (name : Bytes) (reason : Reason)
      → cached_image canonical s.complete s.images ref platform ≡ some best
      → In best s.images
      → candidate best ≡ true
      → name ≡ best.digest
      → Goes s false name reason
      → ⊥
  not_gone best name interrupted found i ok e g = elim g [ ]
  not_gone best name displaced found i ok e g = elim g [ ]
  not_gone best name no_metadata found i ok e (unreadable d none_of) = none_of best i (sym e)
  not_gone best name unusable found i ok e (broken b) = ground (arith, ok, e, b)
  not_gone best name (superseded by) found i ok e (replaced c r) =
      not-Replaced best by i ok found (subst (λ n. Replaced s.complete s.images n by) e r)
  not_gone best name unused found i ok e (unneeded h) = ground (arith, h)

  -- `prune` without `--all` removes no image directory that `run` would boot: not the digest that
  -- the cache answers for a reference written without a digest, where the records have digests of
  -- their own, no reference has a zero byte or is itself asked for as a store key, and no two images
  -- of one reference and platform were pulled at the same time.
  pub prune_targets-keeps :
      (digest : Bytes) (t : Target)
      → cached_digest canonical s.complete s.images ref platform ≡ some digest
      → In t (prune_targets s false)
      → t.staging ≡ false
      → t.name ≢ digest
  unfolding cached_digest
  prune_targets-keeps digest t found gone staging e =
      elim (Option-cases (cached_image canonical s.complete s.images ref platform)) [
        | inl missing ↦ ground (arith, found, missing)
        | inr (best, b) ↦
            let is_digest : best.digest ≡ digest = ground (arith, found, b) in
            let (i, ok) = found-candidate best b in
            let justified =
              subst (JustifiedAs s false t.name t.reason) staging
                (prune_targets-IsJustified s false t gone) in
            not_gone best t.name t.reason b i ok (e ∙ sym is_digest) justified.2
      ]
