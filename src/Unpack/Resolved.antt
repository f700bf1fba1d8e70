-- ===== src/Unpack/Resolved.antt =====
-- Where the ids of an image's user come from.
use hull.Prelude.{
  ℕ, ◌≤◌, ◌≡◌, refl, sym, ap, ◌∙◌, ◌⊎◌, inl, inr, Bool, true, false, ◌&&◌, Option, none, some, List,
  [], ◌∷◌, Bytes, arith, leb, length, same, same→eq, split, cut, In, Bool-cases, Option-cases,
}
use mathlib.Core.Path.{subst}
use hull.Unpack.User.{
  parse_uint32, field, find_line, file_lookup, passwd_lookup, User, Resolved, unresolved, resolved,
  numeric_user, both_ids, named_user, by_user, group_id, named_group, by_group, with_group,
  resolve_image_user,
}

-- The file has a line with so many fields, one of which is the key.
abbrev pub HasLine : Option Bytes → ℕ → Bytes → ℕ → List Bytes → Type 0
HasLine file key_idx key min_fields fields =
    (data_read : Bytes) × (line : Bytes) × (file ≡ some data_read)
    × In line (split b'\n' data_read)
    × (fields ≡ split b':' line)
    × (min_fields ≤ length fields)
    × (field fields key_idx ≡ key)

find_line-In :
    (lines : List Bytes) (key_idx : ℕ) (key : Bytes) (min_fields : ℕ) (fields : List Bytes)
    → find_line lines key_idx key min_fields ≡ some fields
    → (line : Bytes) × In line lines
      × (fields ≡ split b':' line)
      × (min_fields ≤ length fields)
      × (field fields key_idx ≡ key)
unfolding find_line
find_line-In [] key_idx key min_fields fields h = absurd (ground (arith, h))
find_line-In (line ∷ lines) key_idx key min_fields fields h =
    let parts = split b':' line in
    elim (Bool-cases (leb min_fields (length parts) && same (field parts key_idx) key)) [
      | inr other ↦
          let (l, i, e, n, k) =
            find_line-In lines key_idx key min_fields fields (ground (arith, h, other)) in
          (l, inr i, e, n, k)
      | inl here ↦
          let e : fields ≡ parts = ground (arith, h, here) in
          (
            line,
            inl refl,
            e,
            ground (arith, ap length e, here),
            ap (λ f. field f key_idx) e ∙ same→eq (field parts key_idx) key (ground (arith, here)),
          )
    ]

file_lookup-HasLine :
    (file : Option Bytes) (key_idx : ℕ) (key : Bytes) (min_fields : ℕ) (fields : List Bytes)
    → file_lookup file key_idx key min_fields ≡ some fields
    → HasLine file key_idx key min_fields fields
unfolding file_lookup
file_lookup-HasLine none key_idx key min_fields fields h = absurd (ground (arith, h))
file_lookup-HasLine (some data_read) key_idx key min_fields fields h =
    let (line, i, e, n, k) = find_line-In (split b'\n' data_read) key_idx key min_fields fields h in
    (data_read, line, refl, i, e, n, k)

-- A number, or the third field of the name's line.
abbrev pub IsId : Option Bytes → ℕ → Bytes → ℕ → Type 0
IsId file min_fields name id =
    (parse_uint32 name ≡ some id)
    ⊎ ((fields : List Bytes) × (parse_uint32 name ≡ none)
        × HasLine file 0 name min_fields fields
        × (parse_uint32 (field fields 2) ≡ some id))

numeric_user-uid :
    (n : ℕ) (o : Option (List Bytes)) (u : User) → numeric_user n o ≡ resolved u → n ≡ u.uid
numeric_user-uid n none u h = ground (arith, h)
numeric_user-uid n (some fields) u h = ground (arith, h)

both_ids-uid :
    (user home : Bytes) (a b : Option ℕ) (u : User)
    → both_ids user home a b ≡ resolved u
    → a ≡ some u.uid
both_ids-uid user home (some a) (some b) u h = ground (arith, h)
both_ids-uid user home none b u h = absurd (ground (arith, h))
both_ids-uid user home (some a) none u h = absurd (ground (arith, h))

by_user-IsId :
    (passwd : Option Bytes) (user : Bytes) (o : Option ℕ) (u : User)
    → parse_uint32 user ≡ o
    → by_user passwd user o ≡ resolved u
    → IsId passwd 7 user u.uid
by_user-IsId passwd user (some n) u e h =
    inl (e ∙ ap some (numeric_user-uid n (passwd_lookup passwd 2 user) u h))
by_user-IsId passwd user none u e h = elim (Option-cases (passwd_lookup passwd 0 user)) [
  | inl missing ↦ absurd (ground (arith, h, missing))
  | inr (fields, found) ↦ inr (
    fields,
    e,
    file_lookup-HasLine passwd 0 user 7 fields found,
    both_ids-uid user (field fields 5) (parse_uint32 (field fields 2))
        (parse_uint32 (field fields 3)) u (sym (ap (λ x. named_user user x) found) ∙ h),
  )
]

group_id-gid :
    (group : Bytes) (v u : User) (o : Option ℕ)
    → group_id group v o ≡ resolved u
    → (o ≡ some u.gid) × (v.uid ≡ u.uid)
group_id-gid group v u none h = absurd (ground (arith, h))
group_id-gid group v u (some gid) h = (ground (arith, h), ground (arith, h))

by_group-IsId :
    (groups : Option Bytes) (group : Bytes) (v u : User) (o : Option ℕ)
    → parse_uint32 group ≡ o
    → by_group groups group v o ≡ resolved u
    → IsId groups 4 group u.gid × (v.uid ≡ u.uid)
by_group-IsId groups group v u (some gid) e h =
    let same_gid : gid ≡ u.gid = ground (arith, h) in
    (inl (e ∙ ap some same_gid), ground (arith, h))
by_group-IsId groups group v u none e h = elim (Option-cases (file_lookup groups 0 group 4)) [
  | inl missing ↦ absurd (ground (arith, h, missing))
  | inr (fields, found) ↦
      let (gid, uid) =
        group_id-gid group v u (parse_uint32 (field fields 2))
          (sym (ap (λ x. named_group group v x) found) ∙ h) in
      (inr (fields, e, file_lookup-HasLine groups 0 group 4 fields found, gid), uid)
]

with_group-IsId :
    (passwd groups : Option Bytes) (user group : Bytes) (has_group : Bool) (r : Resolved) (u : User)
    → ((v : User) → r ≡ resolved v → IsId passwd 7 user v.uid)
    → with_group groups has_group group r ≡ resolved u
    → IsId passwd 7 user u.uid × ((has_group ≡ false) ⊎ IsId groups 4 group u.gid)
with_group-IsId passwd groups user group has_group (unresolved e) u from h =
    absurd (ground (arith, h))
with_group-IsId passwd groups user group false (resolved v) u from h = (from u h, inl refl)
with_group-IsId passwd groups user group true (resolved v) u from h =
    let (gid, uid) = by_group-IsId groups group v u (parse_uint32 group) refl h in
    (subst (λ n. IsId passwd 7 user n) uid (from v refl), inr gid)

-- Where an image's user is resolved, its uid is the number in front of the colon, or else what the
-- third field of a line of etc/passwd with at least seven fields says, whose first one is the name
-- there; and where there is a colon, the gid is the number behind it, or else the third field of such
-- a line of etc/group with at least four.
pub resolve_image_user-IsId :
    (passwd groups : Option Bytes) (spec : Bytes) (u : User)
    → resolve_image_user passwd groups spec ≡ resolved u
    → IsId passwd 7 (cut b':' spec).before u.uid
      × (((cut b':' spec).found ≡ false) ⊎ IsId groups 4 (cut b':' spec).after u.gid)
unfolding resolve_image_user
resolve_image_user-IsId passwd groups spec u h =
    let parts = cut b':' spec in
    with_group-IsId passwd groups parts.before parts.after parts.found
      (by_user passwd parts.before (parse_uint32 parts.before)) u
      (λ v e. by_user-IsId passwd parts.before (parse_uint32 parts.before) v refl e) h
