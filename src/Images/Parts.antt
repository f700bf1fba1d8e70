-- ===== src/Images/Parts.antt =====
-- `ParseReference` splits a reference at the places at which its parts were put together.
use hull.Prelude.{
  ℕ, suc, ◌-◌, ◌≤◌, ◌≡◌, refl, ap, ◌∙◌, true, false, Option, none, some, [], ◌∷◌, ◌++◌, Bytes,
  arith, ltb, length, take, drop, take-append_le, take_all, has_prefix, cut, Cut, all_bytes, codes,
  Lacks,
}
use hull.Images.Reference.{last_index, split_tag, parse_reference, or_empty}

cut_front :
    (c : ℕ) (a b : Bytes)
    → Lacks c a
    → cut c (a ++ c ∷ b) ≡ record { before = a; after = b; found = true }
unfolding cut all_bytes
cut_front c [] b h = ground arith
cut_front c (x ∷ a) b h = ground (arith, cut_front c a b (ground (arith, h)))

cut_none :
    (c : ℕ) (a : Bytes) → Lacks c a → cut c a ≡ record { before = a; after = []; found = false }
unfolding cut all_bytes
cut_none c [] h = refl
cut_none c (x ∷ a) h = ground (arith, cut_none c a (ground (arith, h)))

last_index-Lacks : (c : ℕ) (s : Bytes) → Lacks c s → last_index c s ≡ 0
unfolding last_index all_bytes
last_index-Lacks c [] h = refl
last_index-Lacks c (x ∷ s) h = ground (arith, last_index-Lacks c s (ground (arith, h)))

last_index_behind : (c : ℕ) (a t : Bytes) → last_index c t ≡ 0 → last_index c (a ++ t) ≤ length a
unfolding last_index
last_index_behind c [] t h = omega (arith, h)
last_index_behind c (x ∷ a) t h = ground (arith, last_index_behind c a t h)

last_index-append : (c : ℕ) (a t : Bytes) → Lacks c t → last_index c (a ++ c ∷ t) ≡ suc (length a)
unfolding last_index
last_index-append c [] t h = ground (arith, last_index-Lacks c t h)
last_index-append c (x ∷ a) t h = ground (arith, last_index-append c a t h)

take_front : (a t : Bytes) → take (length a) (a ++ t) ≡ a
take_front a t = take-append_le (length a) a t (omega arith) ∙ take_all a

drop_front : (c : ℕ) (a t : Bytes) → drop (suc (length a)) (a ++ c ∷ t) ≡ t
drop_front c [] t = refl
drop_front c (x ∷ a) t = drop_front c a t

-- The text with its tag, if it has one.
abbrev pub tagged : Bytes → Option Bytes → Bytes
tagged r none = r
tagged r (some t) = r ++ b':' ∷ t

abbrev pub pinned_at : Bytes → Option Bytes → Bytes
pinned_at s none = s
pinned_at s (some d) = s ++ b'@' ∷ d

-- A tag has no slash and no colon; a repository without a tag has no colon behind its last slash.
abbrev pub Taggable : Bytes → Option Bytes → Type 0
Taggable r none = last_index b':' r ≤ last_index b'/' r
Taggable r (some t) = Lacks b'/' t × Lacks b':' t

suc_pred : (n : ℕ) → suc n - 1 ≡ n
suc_pred n = omega arith

no_slash : (t : Bytes) → Lacks b'/' t → last_index b'/' (b':' ∷ t) ≡ 0
unfolding last_index
no_slash t h = ground (arith, last_index-Lacks b'/' t h)

split_tag-tagged :
    (r : Bytes) (t : Option Bytes) → Taggable r t → split_tag (tagged r t) ≡ (r, or_empty t)
unfolding split_tag
split_tag-tagged r none h = ground (arith, h)
split_tag-tagged r (some t) (slash, colon) =
    let c = last_index-append b':' r t colon in
    let s = last_index_behind b'/' r (b':' ∷ t) (no_slash t slash) in
    let after : ltb (last_index b'/' (r ++ b':' ∷ t)) (suc (length r)) ≡ true = ground (arith, s) in
    rw (c, after, suc_pred (length r), take_front r (b':' ∷ t), drop_front b':' r t)

cut-pinned_at :
    (s : Bytes) (d : Option Bytes)
    → Lacks b'@' s
    → ((cut b'@' (pinned_at s d)).before ≡ s) × ((cut b'@' (pinned_at s d)).after ≡ or_empty d)
cut-pinned_at s none h =
    (ap (λ (c : Cut). c.before) (cut_none b'@' s h), ap (λ (c : Cut). c.after) (cut_none b'@' s h))
cut-pinned_at s (some d) h = (
  ap (λ (c : Cut). c.before) (cut_front b'@' s d h),
  ap (λ (c : Cut). c.after) (cut_front b'@' s d h),
)

-- A reference put together of a repository, a tag or none, and a digest or none is split into just
-- these, unless it begins as a store key: the repository and the tag have no `@`, the tag has no
-- slash and no colon, and a repository without a tag has no colon behind its last slash.
pub parse_reference-pinned_at :
    (canonical : Bytes → Option Bytes) (r : Bytes) (t d : Option Bytes)
    → has_prefix (pinned_at (tagged r t) d) (codes "sha256:") ≡ false
    → Lacks b'@' (tagged r t)
    → Taggable r t
    → parse_reference canonical (pinned_at (tagged r t) d) ≡ record {
      raw = pinned_at (tagged r t) d;
      repository = r;
      tag = or_empty t;
      digest = or_empty d;
      repository_name = or_empty (canonical (pinned_at (tagged r t) d));
    }
unfolding parse_reference
parse_reference-pinned_at canonical r t d key at tag =
    let (before, after) = cut-pinned_at (tagged r t) d at in
    rw (key, before, after, split_tag-tagged r t tag) refl
