-- ===== src/Images/Newest.antt =====
-- The loop that fills `newest`, and the images that it makes the keepers of their groups.
use hull.Prelude.{
  In, ℕ, ◌≤◌, ◌≡◌, refl, sym, ◌≢◌, ◌⊎◌, inl, inr, Bool, true, false, ◌&&◌, Option, none, some, List,
  [], ◌∷◌, Bytes, arith, same, same→eq, same_refl, Bool-cases, Option-cases, if◌then◌else◌,
}
use hull.Images.Reference.{Image}
use hull.Images.Choice.{newer, newest, group_key, takes_over, superseded_by, superseded_digests}

-- `m` is a whole image of the listing, and in the group of the key.
abbrev pub InGroup : (Bytes → Bool) → List Image → Bytes → Image → Type 0
InGroup complete ms k b = In b ms × (complete b.digest ≡ true) × (group_key b ≡ k)

abbrev step : (Bytes → Bool) → Image → (Bytes → Option Image) → Bytes → Option Image
step complete m seen k =
    if complete m.digest && same (group_key m) k && takes_over m (seen k) then some m else seen k

step_from :
    (complete : Bytes → Bool) (m : Image) (seen : Bytes → Option Image) (k : Bytes) (b : Image)
    → step complete m seen k ≡ some b
    → ((complete b.digest ≡ true) × (group_key b ≡ k) × (b ≡ m)) ⊎ (seen k ≡ some b)
step_from complete m seen k b h = ground (arith, same→eq (group_key m) k)

pub newest-InGroup :
    (complete : Bytes → Bool) (ms : List Image) (seen : Bytes → Option Image) (k : Bytes)
    (b : Image)
    → newest complete seen ms k ≡ some b
    → InGroup complete ms k b ⊎ (seen k ≡ some b)
unfolding newest
newest-InGroup complete [] seen k b h = inr h
newest-InGroup complete (m ∷ ms) seen k b h =
    elim (newest-InGroup complete ms (step complete m seen) k b h) [
      | inl (i, c, g) ↦ inl (inr i, c, g)
      | inr e ↦ elim (step_from complete m seen k b e) [
        | inl (c, g, e) ↦ inl (inl e, c, g)
        | inr e ↦ inr e
      ]
    ]

-- The entry of a key is never lost, and never one pulled earlier.
abbrev AtLeast : ℕ → Option Image → Type 0
AtLeast t o = (b : Image) × (o ≡ some b) × t ≤ b.pulled_at

newer→le : (a b : Image) → newer a b ≡ true → b.pulled_at ≤ a.pulled_at
unfolding newer
newer→le a b h = ground arith

older→le : (a b : Image) → newer a b ≡ false → a.pulled_at ≤ b.pulled_at
unfolding newer
older→le a b h = ground arith

step-AtLeast :
    (complete : Bytes → Bool) (m : Image) (seen : Bytes → Option Image) (k : Bytes) (a : Image)
    → seen k ≡ some a
    → AtLeast a.pulled_at (step complete m seen k)
step-AtLeast complete m seen k a h =
    elim (Bool-cases (complete m.digest && same (group_key m) k && takes_over m (seen k))) [
      | inl taken ↦ (m, rw taken refl, newer→le m a (ground (arith, h)))
      | inr kept ↦ (a, rw kept h, omega arith)
    ]

step-enters :
    (complete : Bytes → Bool) (m : Image) (seen : Bytes → Option Image)
    → complete m.digest ≡ true
    → AtLeast m.pulled_at (step complete m seen (group_key m))
step-enters complete m seen c = elim (Option-cases (seen (group_key m))) [
  | inl fresh ↦ (m, rw (c, same_refl (group_key m), fresh) refl, omega arith)
  | inr (a, e) ↦ elim (Bool-cases (newer m a)) [
    | inl taken ↦ (m, rw (c, same_refl (group_key m), e, taken) refl, omega arith)
    | inr kept ↦ (a, rw (c, same_refl (group_key m), e, kept) refl, older→le m a kept)
  ]
]

newest-AtLeast :
    (complete : Bytes → Bool) (ms : List Image) (seen : Bytes → Option Image) (k : Bytes) (t : ℕ)
    → AtLeast t (seen k)
    → AtLeast t (newest complete seen ms k)
unfolding newest
newest-AtLeast complete [] seen k t h = h
newest-AtLeast complete (m ∷ ms) seen k t (a, e, le) =
    let (b, e', le') = step-AtLeast complete m seen k a e in
    newest-AtLeast complete ms (step complete m seen) k t (b, e', omega arith)

pub newest_complete :
    (complete : Bytes → Bool) (ms : List Image) (seen : Bytes → Option Image) (m : Image)
    → In m ms
    → complete m.digest ≡ true
    → AtLeast m.pulled_at (newest complete seen ms (group_key m))
unfolding newest
newest_complete complete [] seen m h c = absurd h
newest_complete complete (x ∷ ms) seen m (inl e) c =
    newest-AtLeast complete ms (step complete x seen) (group_key m) m.pulled_at
      (rw e (step-enters complete x seen (rw (sym e) c)))
newest_complete complete (x ∷ ms) seen m (inr h) c =
    newest_complete complete ms (step complete x seen) m h c

-- What `superseded[digest]` rests on: a record of the digest, and the keeper of its group.
pub record Replaced (complete : Bytes → Bool) (images : List Image) (digest by : Bytes)
    : Type 0 where
  pub old : Image
  pub keeper : Image
  pub old_in : In old images
  pub old_digest : old.digest ≡ digest
  pub keeper_in : In keeper images
  pub keeper_complete : complete keeper.digest ≡ true
  pub same_group : group_key keeper ≡ group_key old
  pub keeper_digest : keeper.digest ≡ by
  pub differs : digest ≢ by
  pub not_older : complete old.digest ≡ true → old.pulled_at ≤ keeper.pulled_at

pub superseded_by-entry :
    (keepers : Bytes → Option Image) (ms : List Image) (digest by : Bytes)
    → superseded_by keepers ms digest ≡ some by
    → (m keeper : Image) × In m ms
      × (m.digest ≡ digest)
      × (keepers (group_key m) ≡ some keeper)
      × (keeper.digest ≡ by)
      × (same keeper.digest m.digest ≡ false)
unfolding superseded_by
superseded_by-entry keepers [] digest by h = cc
superseded_by-entry keepers (m ∷ ms) digest by h =
    elim (Option-cases (superseded_by keepers ms digest)) [
      | inr (d, e) ↦
          let (x, keeper, i, d1, k1, b1, n1) =
            superseded_by-entry keepers ms digest by (ground (arith, h, e)) in
          (x, keeper, inr i, d1, k1, b1, n1)
      | inl e ↦ elim (Option-cases (keepers (group_key m))) [
        | inl fresh ↦ absurd (ground (arith, h, e, fresh))
        | inr (keeper, k) ↦ (
          m,
          keeper,
          inl refl,
          same→eq m.digest digest (ground (arith, h, e, k)),
          k,
          ground (arith, h, e, k),
          ground (arith, h, e, k),
        )
      ]
    ]

none≢some : {A : Type 0} {a : A} → none ≡ some a → ⊥
none≢some e = cc

keeper-Replaced :
    (complete : Bytes → Bool) (images : List Image) (digest by : Bytes) (m keeper : Image)
    → In m images
    → m.digest ≡ digest
    → newest complete (λ k. none) images (group_key m) ≡ some keeper
    → keeper.digest ≡ by
    → same keeper.digest m.digest ≡ false
    → InGroup complete images (group_key m) keeper
    → Replaced complete images digest by
keeper-Replaced complete images digest by m keeper i d k b n (ki, kc, kg) = record {
  old = m;
  keeper = keeper;
  old_in = i;
  old_digest = d;
  keeper_in = ki;
  keeper_complete = kc;
  same_group = kg;
  keeper_digest = b;
  differs = λ e. ground (arith, n, b, d, e, same_refl m.digest);
  not_older = λ c.
      let (x, e, le) = newest_complete complete images (λ k. none) m i c in
      ground (arith, le, e, k);
}

pub superseded_digests-Replaced :
    (complete : Bytes → Bool) (images : List Image) (digest by : Bytes)
    → superseded_digests complete images digest ≡ some by
    → Replaced complete images digest by
unfolding superseded_digests
superseded_digests-Replaced complete images digest by h =
    let (m, keeper, i, d, k, b, n) =
      superseded_by-entry (newest complete (λ k. none) images) images digest by h in
    elim (newest-InGroup complete images (λ k. none) (group_key m) keeper k) [
      | inr e ↦ absurd (none≢some e)
      | inl g ↦ keeper-Replaced complete images digest by m keeper i d k b n g
    ]
