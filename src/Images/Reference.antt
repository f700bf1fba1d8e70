-- ===== src/Images/Reference.antt =====
-- pkg/store/reference.go, and `ValidateImageDigest` of pkg/store/image.go. The names that
-- go-containerregistry makes of a reference are a parameter: `canonical r` is `canonicalRepository`,
-- `none` for what does not parse.
use hull.Prelude.{
  ℕ, suc, ◌-◌, Bool, true, false, not, ◌&&◌, ◌||◌, Option, none, some, List, [], ◌∷◌, Bytes,
  if◌then◌else◌, ltb, leb, within, length, take, drop, same, has_prefix, cut, Cut, all_bytes, codes,
  ◌==◌,
}

-- `ImageMetadata` without the labels and the size. The time is a number of the clock's ticks.
pub record Image : Type 0 where
  pub ref : Bytes
  pub digest : Bytes
  pub pulled_at : ℕ
  pub platform : Bytes
  pub index_digest : Bytes

-- `repository_name` is the unexported field `repository`.
pub record Reference : Type 0 where
  pub raw : Bytes
  pub repository : Bytes
  pub tag : Bytes
  pub digest : Bytes
  pub repository_name : Bytes

-- `strings.LastIndex(s, string(c)) + 1`, so 0 where there is none.
unfoldable pub last_index : ℕ → Bytes → ℕ
last_index c [] = 0
last_index c (a ∷ s) =
    let rest = last_index c s in if ltb 0 rest then suc rest else if a == c then 1 else 0

-- The tag is behind the last colon, if that follows the last slash.
unfoldable pub split_tag : Bytes → Bytes × Bytes
split_tag s =
    let c = last_index b':' s in
    if ltb (last_index b'/' s) c then (take (c - 1) s, drop c s) else (s, [])

abbrev pub or_empty : Option Bytes → Bytes
or_empty none = []
or_empty (some s) = s

unfoldable pub parse_reference : (Bytes → Option Bytes) → Bytes → Reference
parse_reference canonical raw =
    if has_prefix raw (codes "sha256:")
    then record { raw = raw; repository = raw; tag = []; digest = []; repository_name = [] }
    else let at = cut b'@' raw in
      let (repository, tag) = split_tag at.before in
      record {
        raw = raw;
        repository = repository;
        tag = tag;
        digest = at.after;
        repository_name = or_empty (canonical raw);
      }

abbrev pub both_name : Option Bytes → Option Bytes → Bool
both_name (some first) (some second) = same first second
both_name _ _ = false

unfoldable pub same_repository : (Bytes → Option Bytes) → Bytes → Bytes → Bool
same_repository canonical a b = both_name (canonical a) (canonical b)

abbrev pub is_alnum : ℕ → Bool
is_alnum c = within b'a' b'z' c || within b'0' b'9' c

abbrev pub is_hex : ℕ → Bool
is_hex c = within b'a' b'f' c || within b'0' b'9' c

-- `^[a-z0-9]+:[a-f0-9]{least,}$`, which has one colon only.
abbrev pub algorithm_and_hex : ℕ → Cut → Bool
algorithm_and_hex least c =
    c.found
    && ltb 0 (length c.before)
    && all_bytes is_alnum c.before
    && leb least (length c.after)
    && all_bytes is_hex c.after

unfoldable pub is_digest_prefix : Bytes → Bool
is_digest_prefix raw = algorithm_and_hex 6 (cut b':' raw)

unfoldable pub is_image_digest : Bytes → Bool
is_image_digest digest =
    let c = cut b':' digest in algorithm_and_hex 32 c && leb (length c.after) 128

abbrev pub is_empty : Bytes → Bool
is_empty [] = true
is_empty (_ ∷ _) = false

unfoldable pub has_digest_prefix : Image → Bytes → Bool
has_digest_prefix m raw =
    has_prefix m.digest raw || (not (is_empty m.index_digest) && has_prefix m.index_digest raw)

abbrev pub is_named : Option Bytes → Bytes → Bool
is_named none name = false
is_named (some stored) name = same stored name

unfoldable pub answers : (Bytes → Option Bytes) → Image → Reference → Bool
answers canonical m ref =
    if same m.ref ref.raw || same m.digest ref.raw
    then true
    else if is_empty ref.digest || is_empty ref.repository_name
    then false
    else if not (same ref.digest m.digest) && not (same ref.digest m.index_digest)
    then false
    else is_named (canonical m.ref) ref.repository_name

-- The loops that append the images that pass a test.
unfoldable pub keep : (Image → Bool) → List Image → List Image
keep ok [] = []
keep ok (m ∷ ms) = let rest = keep ok ms in if ok m then m ∷ rest else rest

pub record Matches : Type 0 where
  pub images : List Image
  pub by_prefix : Bool

abbrev pub matches_index : Bytes → Image → Bool
matches_index ref m = not (is_empty m.index_digest) && same m.index_digest ref

abbrev pub none_kept : List Image → Bool
none_kept [] = true
none_kept (_ ∷ _) = false

unfoldable pub match_images : (Bytes → Option Bytes) → List Image → Bytes → Matches
match_images canonical images ref =
    let exact = keep (λ m. answers canonical m (parse_reference canonical ref)) images in
    let indexed = keep (matches_index ref) images in
    if not (none_kept exact) || not (is_digest_prefix ref)
    then record { images = exact; by_prefix = false }
    else if not (none_kept indexed)
    then record { images = indexed; by_prefix = false }
    else record { images = keep (λ m. has_digest_prefix m ref) images; by_prefix = true }
