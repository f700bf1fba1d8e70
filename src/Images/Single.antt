-- ===== src/Images/Single.antt =====
-- What `rmi` never removes: an image that is held, and more than one digest by a prefix.
use hull.Prelude.{
  In, ◌≤◌, ◌≡◌, ap, ◌∙◌, ◌≢◌, inl, inr, Bool, true, not, ◌&&◌, ◌||◌, Option, List, [], ◌∷◌, Bytes,
  arith, map, same, same→eq, same_refl, ltb, length, Bool-cases, if◌then◌else◌,
}
use mathlib.Core.Path.{subst}
use hull.Images.Reference.{Image, Matches, match_images, is_image_digest}
use hull.Images.Order.{sort_by, sort_by-In, keep-In}
use hull.Images.Remove.{
  Holder, running_holders, Deletion, deleted, aside, left_alone, after_deletion, delete_image,
  remove_one_image, remove_picked, remove_ref, remove_images, compact, matched_digests, ambiguous,
  Picked, refused, picked, pick_narrowed, pick_removals, narrowed,
}

-- All the texts of the list are one text.
abbrev AllOne : List Bytes → Type 0
AllOne l = (a b : Bytes) → In a l → In b l → a ≡ b

length-compact : (a : Bytes) (l : List Bytes) → 1 ≤ length (compact (a ∷ l))
unfolding compact
length-compact a [] = omega arith
length-compact a (b ∷ l) = ground (arith, length-compact b l)

shift : (x y : Bytes) (l : List Bytes) → x ≡ y → (a : Bytes) → In a (x ∷ y ∷ l) → In a (y ∷ l)
shift x y l e a (inl i) = inl (i ∙ e)
shift x y l e a (inr i) = i

compact-AllOne : (l : List Bytes) → length (compact l) ≤ 1 → AllOne l
unfolding compact
compact-AllOne [] h a b i j = absurd i
compact-AllOne (x ∷ []) h a b i j = ground (arith, i, j)
compact-AllOne (x ∷ y ∷ l) h a b i j = elim (Bool-cases (same x y)) [
  | inr other ↦ absurd (ground (arith, h, other, length-compact y l))
  | inl equal ↦
      let front = same→eq x y equal in
      compact-AllOne (y ∷ l) (ground (arith, h, equal)) a b (shift x y l front a i)
        (shift x y l front b j)
]

In-map : (m : Image) (ms : List Image) → In m ms → In m.digest (map (λ (m : Image). m.digest) ms)
In-map m [] h = h
In-map m (x ∷ ms) (inl e) = inl (ap (λ (m : Image). m.digest) e)
In-map m (x ∷ ms) (inr i) = inr (In-map m ms i)

matched_digests-one :
    (ms : List Image) (a b : Image)
    → length (matched_digests ms) ≤ 1
    → In a ms
    → In b ms
    → a.digest ≡ b.digest
unfolding matched_digests
matched_digests-one ms a b h i j =
    let digests = map (λ (m : Image). m.digest) ms in
    compact-AllOne (sort_by (λ d. d) digests) h a.digest b.digest
      (sort_by-In (λ d. d) a.digest digests (In-map a ms i))
      (sort_by-In (λ d. d) b.digest digests (In-map b ms j))

picked_one :
    (m : Image) (ms picks : List Image) (a b : Image)
    → (if ltb 1 (length (matched_digests (m ∷ ms)))
        then refused (ambiguous (matched_digests (m ∷ ms)))
        else picked (m ∷ ms))
      ≡ picked picks
    → In a picks
    → In b picks
    → a.digest ≡ b.digest
picked_one m ms picks a b h i j = elim (Bool-cases (ltb 1 (length (matched_digests (m ∷ ms))))) [
  | inl many ↦ absurd (ground (arith, h, many))
  | inr few ↦
      let same_list : m ∷ ms ≡ picks = ground (arith, h, few) in
      matched_digests-one picks a b
        (subst (λ l. length (matched_digests l) ≤ 1) same_list (ground arith)) i j
]

pick_narrowed-one :
    (found ms picks : List Image) (a b : Image)
    → pick_narrowed found true ms ≡ picked picks
    → In a picks
    → In b picks
    → a.digest ≡ b.digest
pick_narrowed-one [] [] picks a b h i j = absurd (ground arith)
pick_narrowed-one (_ ∷ _) [] picks a b h i j = absurd (ground arith)
pick_narrowed-one [] (m ∷ ms) picks a b h i j = picked_one m ms picks a b h i j
pick_narrowed-one (_ ∷ _) (m ∷ ms) picks a b h i j = picked_one m ms picks a b h i j

-- What a digest prefix picks for removal are the records of one digest, with and without a platform.
pub pick_removals-one :
    (platform : Bytes) (found : Matches) (picks : List Image) (a b : Image)
    → found.by_prefix ≡ true
    → pick_removals platform found ≡ picked picks
    → In a picks
    → In b picks
    → a.digest ≡ b.digest
unfolding pick_removals
pick_removals-one platform found picks a b p h i j =
    pick_narrowed-one found.images (narrowed platform found.images) picks a b (ground (arith, h, p))
      i j

-- An image that a running instance holds, or, without `--force`, any instance.
abbrev pub IsProtected : List Holder → Bool → Type 0
IsProtected held force =
    (ltb 0 (length (running_holders held)) || (ltb 0 (length held) && not force)) ≡ true

after_deletion-other :
    (d : Deletion) (images : List Image) (digest : Bytes) (m : Image)
    → In m images
    → m.digest ≢ digest
    → In m (after_deletion digest images d).0
after_deletion-other deleted images digest m i ne =
    keep-In _ m images i (ground (arith, ne, same→eq m.digest digest))
after_deletion-other aside images digest m i ne =
    keep-In _ m images i (ground (arith, ne, same→eq m.digest digest))
after_deletion-other left_alone images digest m i ne = i

delete_image-other :
    (store : Bytes → Deletion) (images : List Image) (digest : Bytes) (m : Image)
    → In m images
    → m.digest ≢ digest
    → In m (delete_image store images digest).0
unfolding delete_image
delete_image-other store images digest m i ne = elim (Bool-cases (is_image_digest digest)) [
  | inr invalid ↦ rw invalid i
  | inl valid ↦ rw valid (after_deletion-other (store digest) images digest m i ne)
]

remove_one_image-refuses :
    (store : Bytes → Deletion) (images : List Image) (x m : Image) (held : List Holder)
    (force : Bool)
    → IsProtected held force
    → In m images
    → In m (remove_one_image store images x held force).0
unfolding remove_one_image
remove_one_image-refuses store images x m held force p i =
    elim (Bool-cases (ltb 0 (length (running_holders held)))) [
      | inl running ↦ rw running i
      | inr idle ↦
          let named : (ltb 0 (length held) && not force) ≡ true = ground (arith, p, idle) in
          rw (idle, named) i
    ]

remove_one_image-other :
    (store : Bytes → Deletion) (images : List Image) (x m : Image) (held : List Holder)
    (force : Bool)
    → In m images
    → m.digest ≢ x.digest
    → In m (remove_one_image store images x held force).0
unfolding remove_one_image
remove_one_image-other store images x m held force i ne =
    elim (Bool-cases (ltb 0 (length (running_holders held)))) [
      | inl running ↦ rw running i
      | inr idle ↦ elim (Bool-cases (ltb 0 (length held) && not force)) [
        | inl referenced ↦ rw (idle, referenced) i
        | inr free ↦ rw (idle, free) (delete_image-other store images x.digest m i ne)
      ]
    ]

remove_one_image-protects :
    (store : Bytes → Deletion) (holders : Bytes → List Holder) (force : Bool) (images : List Image)
    (x m : Image)
    → IsProtected (holders m.digest) force
    → In m images
    → In m (remove_one_image store images x (holders x.digest) force).0
remove_one_image-protects store holders force images x m p i =
    elim (Bool-cases (same m.digest x.digest)) [
      | inl this ↦
          let equal = same→eq m.digest x.digest this in
          remove_one_image-refuses store images x m (holders x.digest) force
            (subst (λ d. IsProtected (holders d) force) equal p) i
      | inr other ↦
          remove_one_image-other store images x m (holders x.digest) force i
            (λ e. ground (arith, other, e, same_refl x.digest))
    ]

remove_picked-protects :
    (store : Bytes → Deletion) (holders : Bytes → List Holder) (force : Bool)
    (images ms : List Image) (m : Image)
    → IsProtected (holders m.digest) force
    → In m images
    → In m (remove_picked store holders force images ms).0
unfolding remove_picked
remove_picked-protects store holders force images [] m p i = i
remove_picked-protects store holders force images (x ∷ ms) m p i =
    remove_picked-protects store holders force
      (remove_one_image store images x (holders x.digest) force).0 ms m p
      (remove_one_image-protects store holders force images x m p i)

remove_ref-protects :
    (store : Bytes → Deletion) (holders : Bytes → List Holder) (force : Bool) (images : List Image)
    (choice : Picked) (m : Image)
    → IsProtected (holders m.digest) force
    → In m images
    → In m (remove_ref store holders force images choice).0
remove_ref-protects store holders force images (refused e) m p i = i
remove_ref-protects store holders force images (picked ms) m p i =
    remove_picked-protects store holders force images ms m p i

-- Whatever the references name, `rmi` leaves in the listing every image that a running instance holds,
-- and without `--force` every image that any instance refers to.
pub remove_images-protects :
    (canonical : Bytes → Option Bytes) (store : Bytes → Deletion) (holders : Bytes → List Holder)
    (platform : Bytes) (force : Bool) (images : List Image) (refs : List Bytes) (m : Image)
    → IsProtected (holders m.digest) force
    → In m images
    → In m (remove_images canonical store holders platform force images refs).0
unfolding remove_images
remove_images-protects canonical store holders platform force images [] m p i = i
remove_images-protects canonical store holders platform force images (ref ∷ refs) m p i =
    let choice = pick_removals platform (match_images canonical images ref) in
    remove_images-protects canonical store holders platform force
      (remove_ref store holders force images choice).0 refs m p
      (remove_ref-protects store holders force images choice m p i)
