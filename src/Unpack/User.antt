-- ===== src/Unpack/User.antt =====
-- `resolveImageUser` of pkg/ociclient/unpack.go. What the image has at etc/passwd and etc/group is
-- given: `none` where it is not a regular file, or cannot be read.
use hull.Prelude.{
  ℕ, Bool, true, false, ◌&&◌, Option, none, some, List, [], ◌∷◌, Bytes, if◌then◌else◌, ltb, leb,
  length, get_or, same, split, cut,
}
use hull.Text.Number.{unsigned}

-- `strconv.ParseUint(s, 10, 32)`.
abbrev below_2_32 : Option ℕ → Option ℕ
below_2_32 none = none
below_2_32 (some n) = if ltb n 4294967296 then some n else none

unfoldable pub parse_uint32 : Bytes → Option ℕ
parse_uint32 s = below_2_32 (unsigned s)

abbrev pub field : List Bytes → ℕ → Bytes
field fields i = get_or fields i []

-- The first of the lines with enough fields whose field is the key.
unfoldable pub find_line : List Bytes → ℕ → Bytes → ℕ → Option (List Bytes)
find_line [] key_idx key min_fields = none
find_line (line ∷ lines) key_idx key min_fields =
    let fields = split b':' line in
    if leb min_fields (length fields) && same (field fields key_idx) key
    then some fields
    else find_line lines key_idx key min_fields

unfoldable pub file_lookup : Option Bytes → ℕ → Bytes → ℕ → Option (List Bytes)
file_lookup none key_idx key min_fields = none
file_lookup (some data_read) key_idx key min_fields =
    find_line (split b'\n' data_read) key_idx key min_fields

abbrev pub passwd_lookup : Option Bytes → ℕ → Bytes → Option (List Bytes)
passwd_lookup passwd key_idx key = file_lookup passwd key_idx key 7

pub record User : Type 0 where
  pub uid : ℕ
  pub gid : ℕ
  pub home : Bytes

pub data UserError : Type 0 where
  no_user malformed_passwd no_group malformed_group : Bytes → UserError

pub data Resolved : Type 0 where
  unresolved : UserError → Resolved
  resolved : User → Resolved

abbrev pub or_else : Option ℕ → ℕ → ℕ
or_else none n = n
or_else (some m) n = m

-- A number needs no entry, but takes what there is of one.
abbrev pub numeric_user : ℕ → Option (List Bytes) → Resolved
numeric_user n none = resolved (record { uid = n; gid = n; home = [] })
numeric_user n (some fields) =
    resolved
      (record { uid = n; gid = or_else (parse_uint32 (field fields 3)) n; home = field fields 5 })

abbrev pub both_ids : Bytes → Bytes → Option ℕ → Option ℕ → Resolved
both_ids user home (some uid) (some gid) = resolved (record { uid = uid; gid = gid; home = home })
both_ids user home none _ = unresolved (malformed_passwd user)
both_ids user home (some _) none = unresolved (malformed_passwd user)

abbrev pub named_user : Bytes → Option (List Bytes) → Resolved
named_user user none = unresolved (no_user user)
named_user user (some fields) =
    both_ids user (field fields 5) (parse_uint32 (field fields 2)) (parse_uint32 (field fields 3))

abbrev pub by_user : Option Bytes → Bytes → Option ℕ → Resolved
by_user passwd user (some n) = numeric_user n (passwd_lookup passwd 2 user)
by_user passwd user none = named_user user (passwd_lookup passwd 0 user)

abbrev pub group_id : Bytes → User → Option ℕ → Resolved
group_id group u none = unresolved (malformed_group group)
group_id group u (some gid) = resolved (record u { gid = gid })

abbrev pub named_group : Bytes → User → Option (List Bytes) → Resolved
named_group group u none = unresolved (no_group group)
named_group group u (some fields) = group_id group u (parse_uint32 (field fields 2))

abbrev pub by_group : Option Bytes → Bytes → User → Option ℕ → Resolved
by_group groups group u (some gid) = resolved (record u { gid = gid })
by_group groups group u none = named_group group u (file_lookup groups 0 group 4)

abbrev pub with_group : Option Bytes → Bool → Bytes → Resolved → Resolved
with_group groups has_group group (unresolved e) = unresolved e
with_group groups false group (resolved u) = resolved u
with_group groups true group (resolved u) = by_group groups group u (parse_uint32 group)

unfoldable pub resolve_image_user : Option Bytes → Option Bytes → Bytes → Resolved
resolve_image_user passwd groups spec =
    let parts = cut b':' spec in
    with_group groups parts.found parts.after
      (by_user passwd parts.before (parse_uint32 parts.before))
