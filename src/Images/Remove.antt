-- ===== src/Images/Remove.antt =====
-- cmd/hull/rmi.go and rmi_darwin.go: what `rmi` removes. The listing that `FindImages` reads anew for
-- each reference is passed on; that the store cannot list is not modelled.
use hull.Prelude.{
  Bool, not, ◌&&◌, Option, List, [], ◌∷◌, ◌++◌, Bytes, map, if◌then◌else◌, ltb, length, same,
}
use hull.Images.Reference.{Image, keep, Matches, match_images, is_empty, is_image_digest}
use hull.Images.Order.{sort_by}
use hull.Images.Choice.{platform_of}

-- `imageHolder`, and what of an instance record makes one.
pub record Holder : Type 0 where
  pub id : Bytes
  pub running : Bool

pub record Instance : Type 0 where
  pub id : Bytes
  pub image_digest : Bytes
  pub running : Bool

abbrev pub held_by : Bytes → List Instance → List Holder
held_by digest [] = []
held_by digest (i ∷ is) =
    let rest = held_by digest is in
    if not (is_empty i.image_digest) && same i.image_digest digest
    then record { id = i.id; running = i.running } ∷ rest
    else rest

-- The map of `instancesByImage`, as a function of the digest.
unfoldable pub instances_by_image : List Instance → Bytes → List Holder
instances_by_image instances digest = sort_by (λ h. h.id) (held_by digest instances)

unfoldable pub running_holders : List Holder → List Bytes
running_holders [] = []
running_holders (h ∷ held) =
    let rest = running_holders held in if h.running then h.id ∷ rest else rest

unfoldable pub holder_ids : List Holder → List Bytes
holder_ids [] = []
holder_ids (h ∷ held) = h.id ∷ holder_ids held

unfoldable pub keep_platform : List Image → Bytes → List Image
keep_platform images platform = keep (λ m. same (platform_of m) platform) images

-- `slices.Compact`: equal neighbours become one.
unfoldable pub compact : List Bytes → List Bytes
compact [] = []
compact (a ∷ []) = a ∷ []
compact (a ∷ b ∷ l) = let rest = compact (b ∷ l) in if same a b then rest else a ∷ rest

unfoldable pub matched_digests : List Image → List Bytes
matched_digests images = compact (sort_by (λ d. d) (map (λ (m : Image). m.digest) images))

-- The errors of `rmi`: no such image, none for the platform, a prefix of several digests, an image
-- that instances run or refer to, and one that the store did not delete.
pub data RemoveError : Type 0 where
  no_such_image other_platform : RemoveError
  ambiguous : List Bytes → RemoveError
  in_use referenced : List Bytes → RemoveError
  invalid_digest not_deleted : RemoveError

pub data Picked : Type 0 where
  refused : RemoveError → Picked
  picked : List Image → Picked

abbrev pub narrowed : Bytes → List Image → List Image
narrowed platform images = if is_empty platform then images else keep_platform images platform

abbrev pub pick_narrowed : List Image → Bool → List Image → Picked
pick_narrowed [] by_prefix [] = refused no_such_image
pick_narrowed (_ ∷ _) by_prefix [] = refused other_platform
pick_narrowed found by_prefix (m ∷ ms) =
    let digests = matched_digests (m ∷ ms) in
    if by_prefix && ltb 1 (length digests) then refused (ambiguous digests) else picked (m ∷ ms)

unfoldable pub pick_removals : Bytes → Matches → Picked
pick_removals platform found =
    pick_narrowed found.images found.by_prefix (narrowed platform found.images)

-- What the store does on a valid digest: the directory is renamed aside and deleted, or only
-- renamed (an error, but the listing has lost it), or left.
pub data Deletion : Type 0 where
  deleted aside left_alone : Deletion

-- The listing without the directory of a digest.
abbrev pub without : Bytes → List Image → List Image
without digest images = keep (λ m. not (same m.digest digest)) images

abbrev pub after_deletion : Bytes → List Image → Deletion → List Image × List RemoveError
after_deletion digest images deleted = (without digest images, [])
after_deletion digest images aside = (without digest images, not_deleted ∷ [])
after_deletion digest images left_alone = (images, not_deleted ∷ [])

unfoldable pub delete_image :
    (Bytes → Deletion) → List Image → Bytes → List Image × List RemoveError
delete_image store images digest =
    if not (is_image_digest digest)
    then (images, invalid_digest ∷ [])
    else after_deletion digest images (store digest)

unfoldable pub remove_one_image :
    (Bytes → Deletion) → List Image → Image → List Holder → Bool → List Image × List RemoveError
remove_one_image store images m held force =
    let running = running_holders held in
    if ltb 0 (length running)
    then (images, in_use running ∷ [])
    else if ltb 0 (length held) && not force
    then (images, referenced (holder_ids held) ∷ [])
    else delete_image store images m.digest

-- The loop over the matches, over one listing after the other.
unfoldable pub remove_picked :
    (Bytes → Deletion)
    → (Bytes → List Holder)
    → Bool
    → List Image
    → List Image
    → List Image × List RemoveError
remove_picked store holders force images [] = (images, [])
remove_picked store holders force images (m ∷ ms) =
    let (images1, e) = remove_one_image store images m (holders m.digest) force in
    let (images2, es) = remove_picked store holders force images1 ms in (images2, e ++ es)

abbrev pub remove_ref :
    (Bytes → Deletion)
    → (Bytes → List Holder)
    → Bool
    → List Image
    → Picked
    → List Image × List RemoveError
remove_ref store holders force images (refused e) = (images, e ∷ [])
remove_ref store holders force images (picked ms) = remove_picked store holders force images ms

-- `removeImagesIn`: the listing that is left, and the failures in their order.
unfoldable pub remove_images :
    (Bytes → Option Bytes)
    → (Bytes → Deletion)
    → (Bytes → List Holder)
    → Bytes
    → Bool
    → List Image
    → List Bytes
    → List Image × List RemoveError
remove_images canonical store holders platform force images [] = (images, [])
remove_images canonical store holders platform force images (ref ∷ refs) =
    let (images1, e) =
      remove_ref store holders force images
        (pick_removals platform (match_images canonical images ref)) in
    let (images2, es) = remove_images canonical store holders platform force images1 refs in
    (images2, e ++ es)
