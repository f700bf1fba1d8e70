-- ===== src/Run/Env.antt =====
-- cmd/hull/env.go.
use hull.Prelude.{
  Bool, true, false, ◌||◌, Option, none, some, List, [], ◌∷◌, ◌++◌, Bytes, if◌then◌else◌,
  has_prefix, cut,
}

abbrev pub is_blank : Bytes → Bool
is_blank [] = true
is_blank (_ ∷ _) = false

-- The loop over the entries: one of them sets the key.
unfoldable pub defines : List Bytes → Bytes → Bool
defines [] key = false
defines (entry ∷ entries) key = has_prefix entry (key ++ b'=' ∷ []) || defines entries key

unfoldable pub append_env_default : List Bytes → Bytes → Bytes → List Bytes
append_env_default entries key value =
    if is_blank value
    then entries
    else if defines entries key
    then entries
    else entries ++ (key ++ b'=' ∷ value) ∷ []

abbrev pub inherited : Bytes → Option Bytes → List Bytes
inherited name none = []
inherited name (some value) = (name ++ b'=' ∷ value) ∷ []

-- One entry; `none` is the error of the whole.
unfoldable pub resolve_entry : (Bytes → Option Bytes) → Bytes → Option (List Bytes)
resolve_entry lookup entry =
    let c = cut b'=' entry in
    if is_blank c.before
    then none
    else if c.found
    then some (entry ∷ [])
    else some (inherited c.before (lookup c.before))

abbrev pub behind : Option (List Bytes) → Option (List Bytes) → Option (List Bytes)
behind none rest = none
behind (some out) none = none
behind (some out) (some outs) = some (out ++ outs)

unfoldable pub resolve_env_entries : (Bytes → Option Bytes) → List Bytes → Option (List Bytes)
resolve_env_entries lookup [] = some []
resolve_env_entries lookup (entry ∷ entries) =
    behind (resolve_entry lookup entry) (resolve_env_entries lookup entries)
