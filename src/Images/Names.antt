-- ===== src/Images/Names.antt =====
-- What `MatchImages` finds, against a description of what a reference names.
use hull.Prelude.{
  In, ◌≡◌, sym, ◌≢◌, ◌⊎◌, inl, inr, Bool, true, false, not, ◌&&◌, ◌||◌, Option, some, List, [], ◌∷◌,
  Bytes, arith, same, same→eq, same_refl, has_prefix, cut, Bool-cases, Option-cases,
}
use hull.Images.Reference.{
  Image, Reference, keep, match_images, answers, parse_reference, is_digest_prefix,
  has_digest_prefix, matches_index, is_empty, none_kept,
}
use hull.Images.Order.{In-keep, keep-In}

-- `m` is what the reference names: by the text that it was pulled under, by its store key, or by a
-- pin of one of its digests, whose repository is the one of the image.
pub data IsPinned (canonical : Bytes → Option Bytes) (want : Reference) (m : Image) : Type 0 where
  written : m.ref ≡ want.raw → IsPinned canonical want m
  keyed : m.digest ≡ want.raw → IsPinned canonical want m
  pinned :
      want.digest ≢ []
      → (want.digest ≡ m.digest) ⊎ (want.digest ≡ m.index_digest)
      → want.repository_name ≢ []
      → canonical m.ref ≡ some want.repository_name
      → IsPinned canonical want m

answers-named :
    (canonical : Bytes → Option Bytes) (m : Image) (want : Reference) (stored : Bytes)
    → canonical m.ref ≡ some stored
    → same stored want.repository_name ≡ true
    → canonical m.ref ≡ some want.repository_name
answers-named canonical m want stored e h = ground (arith, e, same→eq stored want.repository_name h)

nonempty : (s : Bytes) → is_empty s ≡ false → s ≢ []
nonempty [] h = absurd (ground arith)
nonempty (a ∷ s) h = λ e. ground (arith, e)

answers-IsPinned :
    (canonical : Bytes → Option Bytes) (m : Image) (want : Reference)
    → answers canonical m want ≡ true
    → IsPinned canonical want m
unfolding answers
answers-IsPinned canonical m want h = elim (Bool-cases (same m.ref want.raw)) [
  | inl a ↦ written (same→eq m.ref want.raw a)
  | inr a ↦ elim (Bool-cases (same m.digest want.raw)) [
    | inl b ↦ keyed (same→eq m.digest want.raw b)
    | inr b ↦ elim (Option-cases (canonical m.ref)) [
      | inl e ↦ absurd (ground (arith, h, a, b, e))
      | inr (stored, e) ↦
          pinned (nonempty want.digest (ground (arith, h, a, b)))
            (ground
              (arith, h, a, b, same→eq want.digest m.digest, same→eq want.digest m.index_digest))
            (nonempty want.repository_name (ground (arith, h, a, b)))
            (answers-named canonical m want stored e (ground (arith, h, a, b, e)))
    ]
  ]
]

-- The fallbacks: an index digest, or the front of a digest, for a reference of that shape that
-- answers no image.
pub data IsFallback (canonical : Bytes → Option Bytes) (images : List Image) (ref : Bytes)
    (m : Image) : Bool → Type 0 where
  indexed : m.index_digest ≡ ref → IsFallback canonical images ref m false
  fronted :
      (has_prefix m.digest ref ≡ true) ⊎ (has_prefix m.index_digest ref ≡ true)
      → ((x : Image) → In x images → x.index_digest ≢ ref)
      → IsFallback canonical images ref m true

none_kept-empty : (m : Image) (l : List Image) → none_kept l ≡ true → In m l → ⊥
none_kept-empty m [] h i = i
none_kept-empty m (x ∷ l) h i = ground (arith, h)

none_kept-false :
    (ok : Image → Bool) (images : List Image) (m : Image)
    → none_kept (keep ok images) ≡ true
    → In m images
    → ok m ≡ false
none_kept-false ok images m h i = elim (Bool-cases (ok m)) [
  | inr other ↦ other
  | inl passes ↦ absurd (none_kept-empty m (keep ok images) h (keep-In ok m images i passes))
]

digest_prefix_nonempty : (ref : Bytes) → is_digest_prefix ref ≡ true → ref ≢ []
unfolding is_digest_prefix cut
digest_prefix_nonempty [] h = absurd (ground (arith, h))
digest_prefix_nonempty (c ∷ ref) h = λ e. ground (arith, e)

has_digest_prefix-or :
    (m : Image) (ref : Bytes)
    → has_digest_prefix m ref ≡ true
    → (has_prefix m.digest ref ≡ true) ⊎ (has_prefix m.index_digest ref ≡ true)
unfolding has_digest_prefix
has_digest_prefix-or m ref h = ground (arith, h)

index_is :
    (index ref : Bytes) → ref ≢ [] → (not (is_empty index) && same index ref) ≡ false → index ≢ ref
index_is [] ref ne h e = ne (sym e)
index_is (a ∷ index) ref ne h e = ground (arith, h, e, same_refl ref)

unindexed :
    (ref : Bytes) (x : Image)
    → is_digest_prefix ref ≡ true
    → matches_index ref x ≡ false
    → x.index_digest ≢ ref
unindexed ref x p h e = index_is x.index_digest ref (digest_prefix_nonempty ref p) h e

-- Each image that the reference matches is in the listing, and is pinned by the reference, or is
-- found by a fallback that is tried only where the reference has the shape of a digest prefix and
-- pins no image at all: the front of a digest only if the reference is no image's index digest.
pub match_images-IsPinned :
    (canonical : Bytes → Option Bytes) (images : List Image) (ref : Bytes) (m : Image)
    → In m (match_images canonical images ref).images
    → In m images
      × (IsPinned canonical (parse_reference canonical ref) m
          ⊎ ((is_digest_prefix ref ≡ true)
              × ((x : Image)
                  → In x images
                  → answers canonical x (parse_reference canonical ref) ≡ false)
              × IsFallback canonical images ref m (match_images canonical images ref).by_prefix))
unfolding match_images
match_images-IsPinned canonical images ref m h =
    let want = parse_reference canonical ref in
    let exact = keep (λ x. answers canonical x want) images in
    let indexed_ones = keep (matches_index ref) images in
    elim (Bool-cases (not (none_kept exact) || not (is_digest_prefix ref))) [
      | inl direct ↦
          let (i, a) =
            In-keep (λ x. answers canonical x want) m images (ground (arith, h, direct)) in
          (i, inl (answers-IsPinned canonical m want a))
      | inr fallback ↦
          let shape : is_digest_prefix ref ≡ true = ground (arith, fallback) in
          let silent : none_kept exact ≡ true = ground (arith, fallback) in
          let unanswered : (x : Image) → In x images → answers canonical x want ≡ false =
            λ x i. none_kept-false (λ x. answers canonical x want) images x silent i in
          elim (Bool-cases (not (none_kept indexed_ones))) [
            | inl some_indexed ↦
                let (i, a) =
                  In-keep (matches_index ref) m images
                    (ground (arith, h, fallback, some_indexed)) in
                (
                  i,
                  inr (
                    shape,
                    unanswered,
                    rw (fallback, some_indexed)
                        (indexed (same→eq m.index_digest ref (ground (arith, a)))),
                  ),
                )
            | inr none_indexed ↦
                let quiet : none_kept indexed_ones ≡ true = ground (arith, none_indexed) in
                let (i, a) =
                  In-keep (λ x. has_digest_prefix x ref) m images
                    (ground (arith, h, fallback, none_indexed)) in
                let found = fronted (has_digest_prefix-or m ref a) (λ x i.
                  unindexed ref x shape (none_kept-false (matches_index ref) images x quiet i)) in
                (i, inr (shape, unanswered, rw (fallback, none_indexed) found))
          ]
    ]
