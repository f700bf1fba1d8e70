-- ===== src/Images/Tests.antt =====
-- Runs of the image store's functions, and each theorem at a store in which its hypotheses hold.
use hull.Prelude.{
  less, none, ◌↔◌, In, ◌≡◌, ◌≢◌, refl, sym, ap, ◌∙◌, ◌⊎◌, inl, inr, true, false, Option, some, List,
  [], ◌∷◌, Bytes, arith, codes, same, same_refl, has_prefix, cut, all_bytes, Lacks,
}
use hull.Images.Reference.{
  Image, Matches, parse_reference, split_tag, last_index, is_digest_prefix, has_digest_prefix,
  answers, keep, match_images,
}
use hull.Images.Order.{sort_by}
use hull.Images.Choice.{
  cached_digest, cached_image, best_cached, newer, group_key, newest, superseded_by,
  superseded_digests,
}
use hull.Images.Remove.{
  Holder, deleted, picked, pick_removals, matched_digests, compact, running_holders, remove_images,
}
use hull.Images.Prune.{
  Shelf, Target, superseded, prune_targets, staging_targets, image_targets, by_digest, reason_to_go,
  is_displaced,
}
use hull.Images.Pull.{pull_always, pull_never, resolve_image_digest, resolve_image_digest_lem}
use hull.Images.Justified.{IsJustified, prune_targets-IsJustified}
use hull.Images.Kept.{prune_targets-keeps}
use hull.Images.Single.{IsProtected, pick_removals-one, remove_images-protects}
use hull.Images.Names.{IsPinned, IsFallback, match_images-IsPinned}
use hull.Images.Parts.{parse_reference-pinned_at}

-- A reference parses to the name before its colon.
abbrev canonical : Bytes → Option Bytes
canonical s = some ((cut b':' ((cut b'@' s).before)).before)

abbrev old_app : Image
old_app = record {
  ref = codes "app:1";
  digest = codes "sha256:aaaaaaaa";
  pulled_at = 1;
  platform = [];
  index_digest = [];
}

abbrev new_app : Image
new_app = record old_app { digest = codes "sha256:bbbbbbbb"; pulled_at = 2 }

abbrev shelf : Shelf
shelf = record {
  staging_dirs = codes "sha256:cc.tmp-7" ∷ [];
  in_flight = λ n. false;
  image_names = old_app.digest ∷ new_app.digest ∷ [];
  images = old_app ∷ new_app ∷ [];
  held = λ n. [];
  complete = λ n. true;
  usage = λ n. 4096;
}

port_is_no_tag : split_tag (codes "host:5000/app") ≡ (codes "host:5000/app", [])
unfolding split_tag last_index
port_is_no_tag = refl

boots_latest :
    cached_digest canonical shelf.complete shelf.images (codes "app:1") (codes "linux/arm64")
    ≡ some (codes "sha256:bbbbbbbb")
unfolding cached_digest cached_image best_cached parse_reference split_tag last_index answers cut
    has_prefix same
boots_latest = refl

abbrev old_target : Target
old_target = record {
  name = old_app.digest;
  staging = false;
  ref = codes "app:1";
  reason = superseded new_app.digest;
  bytes = 4096;
}

prunes_old : In old_target (prune_targets shelf false)
unfolding prune_targets staging_targets image_targets by_digest reason_to_go is_displaced
    superseded_digests superseded_by newest newer group_key sort_by less same has_prefix
prunes_old = inl refl

prune_targets-IsJustified_example : IsJustified shelf false old_target
prune_targets-IsJustified_example = prune_targets-IsJustified shelf false old_target prunes_old

other_digests : same old_app.digest new_app.digest ≡ false
unfolding same
other_digests = refl

distinct : old_app.digest ≢ new_app.digest
distinct e = ground (arith, e, other_digests, same_refl new_app.digest)

digest_keyed : (a b : Image) → In a shelf.images → In b shelf.images → a.digest ≡ b.digest → a ≡ b
digest_keyed a b (inl i) (inl j) e = i ∙ sym j
digest_keyed a b (inr (inl i)) (inr (inl j)) e = i ∙ sym j
digest_keyed a b (inl i) (inr (inl j)) e =
    absurd (distinct (sym (ap (λ (m : Image). m.digest) i) ∙ e ∙ ap (λ (m : Image). m.digest) j))
digest_keyed a b (inr (inl i)) (inl j) e =
    absurd
      (distinct (sym (ap (λ (m : Image). m.digest) j) ∙ sym e ∙ ap (λ (m : Image). m.digest) i))
digest_keyed a b (inl i) (inr (inr j)) e = elim j [ ]
digest_keyed a b (inr (inl i)) (inr (inr j)) e = elim j [ ]
digest_keyed a b (inr (inr i)) _ e = elim i [ ]

times_differ :
    (a b : Image)
    → In a shelf.images
    → In b shelf.images
    → group_key a ≡ group_key b
    → a.pulled_at ≡ b.pulled_at
    → a.digest ≡ b.digest
times_differ a b (inl i) (inl j) g e = ap (λ (m : Image). m.digest) (i ∙ sym j)
times_differ a b (inr (inl i)) (inr (inl j)) g e = ap (λ (m : Image). m.digest) (i ∙ sym j)
times_differ a b (inl i) (inr (inl j)) g e =
    absurd (omega (arith, e, ap (λ (m : Image). m.pulled_at) i, ap (λ (m : Image). m.pulled_at) j))
times_differ a b (inr (inl i)) (inl j) g e =
    absurd (omega (arith, e, ap (λ (m : Image). m.pulled_at) i, ap (λ (m : Image). m.pulled_at) j))
times_differ a b (inl i) (inr (inr j)) g e = elim j [ ]
times_differ a b (inr (inl i)) (inr (inr j)) g e = elim j [ ]
times_differ a b (inr (inr i)) _ g e = elim i [ ]

app-Lacks_zero : Lacks 0 (codes "app:1")
unfolding all_bytes
app-Lacks_zero = refl

refs_lack_zero : (m : Image) → In m shelf.images → Lacks 0 m.ref
refs_lack_zero m (inl i) = rw (ap (λ (m : Image). m.ref) i) app-Lacks_zero
refs_lack_zero m (inr (inl i)) = rw (ap (λ (m : Image). m.ref) i) app-Lacks_zero
refs_lack_zero m (inr (inr i)) = elim i [ ]

app_no_digest : (parse_reference canonical (codes "app:1")).digest ≡ []
unfolding parse_reference split_tag last_index cut has_prefix
app_no_digest = refl

no_app_key :
    (same old_app.digest (codes "app:1") ≡ false) × (same new_app.digest (codes "app:1") ≡ false)
unfolding same
no_app_key = (refl, refl)

app_no_key : (m : Image) → In m shelf.images → m.digest ≢ codes "app:1"
app_no_key m (inl i) e =
    ground
      (arith, sym (ap (λ (m : Image). m.digest) i) ∙ e, no_app_key.0, same_refl (codes "app:1"))
app_no_key m (inr (inl i)) e =
    ground
      (arith, sym (ap (λ (m : Image). m.digest) i) ∙ e, no_app_key.1, same_refl (codes "app:1"))
app_no_key m (inr (inr i)) e = elim i [ ]

prune_targets-keeps_example : old_app.digest ≢ codes "sha256:bbbbbbbb"
prune_targets-keeps_example =
    prune_targets-keeps canonical shelf (codes "app:1") (codes "linux/arm64") digest_keyed
      times_differ refs_lack_zero app_no_digest app_no_key (codes "sha256:bbbbbbbb") old_target
      boots_latest prunes_old refl

-- Pulled at one time: `run` boots the first of the listing, and `prune` keeps the last digest.
abbrev twin_app : Image
twin_app = record new_app { pulled_at = 1 }

boots_first :
    cached_digest canonical shelf.complete
      (old_app ∷ twin_app ∷ [])
      (codes "app:1")
      (codes "linux/arm64")
    ≡ some (codes "sha256:aaaaaaaa")
unfolding cached_digest cached_image best_cached parse_reference split_tag last_index answers cut
    has_prefix same
boots_first = refl

prunes_booted :
    In old_target (prune_targets (record shelf { images = old_app ∷ twin_app ∷ [] }) false)
unfolding prune_targets staging_targets image_targets by_digest reason_to_go is_displaced
    superseded_digests superseded_by newest newer group_key sort_by less same has_prefix
prunes_booted = inl refl

fronts :
    match_images canonical shelf.images (codes "sha256:aaaaaa")
    ≡ record { images = old_app ∷ []; by_prefix = true }
unfolding match_images keep parse_reference split_tag last_index answers cut has_prefix same
    is_digest_prefix all_bytes has_digest_prefix
fronts = refl

fronts_old : In old_app (match_images canonical shelf.images (codes "sha256:aaaaaa")).images
fronts_old = rw fronts (inl refl)

match_images-IsPinned_example :
    In old_app shelf.images
    × (IsPinned canonical (parse_reference canonical (codes "sha256:aaaaaa")) old_app
        ⊎ ((is_digest_prefix (codes "sha256:aaaaaa") ≡ true)
            × ((x : Image)
                → In x shelf.images
                → answers canonical x (parse_reference canonical (codes "sha256:aaaaaa")) ≡ false)
            × IsFallback canonical shelf.images
                (codes "sha256:aaaaaa")
                old_app
                (match_images canonical shelf.images (codes "sha256:aaaaaa")).by_prefix))
match_images-IsPinned_example =
    match_images-IsPinned canonical shelf.images (codes "sha256:aaaaaa") old_app fronts_old

abbrev alias_app : Image
alias_app = record old_app { ref = codes "web:1" }

abbrev by_front : Matches
by_front = record { images = old_app ∷ alias_app ∷ []; by_prefix = true }

picks_both : pick_removals [] by_front ≡ picked (old_app ∷ alias_app ∷ [])
unfolding pick_removals matched_digests compact sort_by less same
picks_both = refl

pick_removals-one_example : old_app.digest ≡ alias_app.digest
pick_removals-one_example =
    pick_removals-one [] by_front (old_app ∷ alias_app ∷ []) old_app alias_app refl picks_both
      (inl refl) (inr (inl refl))

abbrev one_holder : Bytes → List Holder
one_holder d = record { id = codes "web"; running = true } ∷ []

held_running : IsProtected (one_holder old_app.digest) true
unfolding running_holders
held_running = refl

remove_images-protects_example :
    In old_app
      (remove_images canonical
        (λ d. deleted)
        one_holder
        []
        true
        shelf.images
        (codes "app:1" ∷ [])).0
remove_images-protects_example =
    remove_images-protects canonical (λ d. deleted) one_holder [] true shelf.images
      (codes "app:1" ∷ []) old_app held_running (inl refl)

abbrev port_tag_digest : Bytes
port_tag_digest = codes "host:5000/app:1@sha256:aa"

no_key : has_prefix port_tag_digest (codes "sha256:") ≡ false
unfolding has_prefix
no_key = refl

tagged-Lacks_at : Lacks b'@' (codes "host:5000/app:1")
unfolding all_bytes
tagged-Lacks_at = refl

tag_is_plain : Lacks b'/' (codes "1") × Lacks b':' (codes "1")
unfolding all_bytes
tag_is_plain = (refl, refl)

parse_reference-pinned_at_example : parse_reference canonical port_tag_digest ≡ record {
  raw = port_tag_digest;
  repository = codes "host:5000/app";
  tag = codes "1";
  digest = codes "sha256:aa";
  repository_name = codes "host";
}
unfolding cut
parse_reference-pinned_at_example =
    parse_reference-pinned_at canonical (codes "host:5000/app") (some (codes "1"))
      (some (codes "sha256:aa")) no_key tagged-Lacks_at tag_is_plain

abbrev nothing : Option Bytes
nothing = none

resolve_image_digest_lem_example :
    (((resolve_image_digest pull_never nothing nothing).1 ≡ true)
      ↔ ((pull_never ≡ pull_always) ⊎ ((pull_never ≢ pull_never) × (nothing ≡ nothing))))
    × ((resolve_image_digest pull_never nothing nothing).1 ≡ false
        → resolve_image_digest pull_never nothing nothing
          ≡ resolve_image_digest pull_never nothing (some (codes "sha256:aa")))
resolve_image_digest_lem_example =
    resolve_image_digest_lem pull_never nothing nothing (some (codes "sha256:aa"))
