-- ===== src/Unpack/Path.antt =====
-- What pkg/ociclient/unpack.go uses of path and path/filepath on Unix, and archiveName.
use hull.Prelude.{
  ℕ, zero, suc, ◌+◌, Bool, false, ◌||◌, List, [], ◌∷◌, ◌++◌, Bytes, if◌then◌else◌, ◌==◌, same,
  split, codes, has_prefix,
}

abbrev pub slash : ℕ
slash = b'/'

-- `strings.Join(fields, "/")`.
unfoldable pub join_fields : List Bytes → Bytes
join_fields [] = []
join_fields (f ∷ []) = f
join_fields (f ∷ g ∷ fs) = f ++ slash ∷ join_fields (g ∷ fs)

unfoldable pub is_abs : Bytes → Bool
is_abs [] = false
is_abs (c ∷ s) = c == slash

-- The elements that stay, and how many `..` in front of them no name takes up. An element `..` takes
-- the nearest name on its left that no other one takes.
pub record Walk : Type 0 where
  pub ups : ℕ
  pub names : List Bytes

abbrev pub took : Bytes → ℕ → List Bytes → Walk
took c zero names = record { ups = zero; names = c ∷ names }
took c (suc k) names = record { ups = k; names = names }

unfoldable pub walk : List Bytes → Walk
walk [] = record { ups = 0; names = [] }
walk (c ∷ fields) =
    let w = walk fields in
    if same c [] || same c (codes ".")
    then w
    else if same c (codes "..")
    then record w { ups = w.ups + 1 }
    else took c w.ups w.names

abbrev pub ups_and : ℕ → List Bytes → List Bytes
ups_and zero names = names
ups_and (suc k) names = codes ".." ∷ ups_and k names

abbrev pub or_dot : Bytes → Bytes
or_dot [] = codes "."
or_dot (c ∷ s) = c ∷ s

-- `path.Clean`: at the root, `..` is the root.
unfoldable pub clean : Bytes → Bytes
clean s =
    let w = walk (split slash s) in
    if is_abs s then slash ∷ join_fields w.names else or_dot (join_fields (ups_and w.ups w.names))

-- The path up to its last slash, and with it.
abbrev pub up_to_slash : List Bytes → Bytes
up_to_slash [] = []
up_to_slash (f ∷ []) = []
up_to_slash (f ∷ g ∷ fs) = f ++ slash ∷ up_to_slash (g ∷ fs)

-- `filepath.Dir`.
unfoldable pub dir : Bytes → Bytes
dir s = clean (up_to_slash (split slash s))

abbrev pub last_name : Bytes → List Bytes → Bytes
last_name found [] = found
last_name found (f ∷ fs) = last_name (if same f [] then found else f) fs

-- `filepath.Base`.
unfoldable pub base : Bytes → Bytes
base [] = codes "."
base (c ∷ s) = last_name (slash ∷ []) (split slash (c ∷ s))

-- `filepath.Join` of two elements, of which an empty one is left out.
unfoldable pub join : Bytes → Bytes → Bytes
join [] [] = []
join [] (c ∷ t) = clean (c ∷ t)
join (c ∷ s) [] = clean (c ∷ s)
join (c ∷ s) (d ∷ t) = clean ((c ∷ s) ++ slash ∷ d ∷ t)

pub data NameError : Type 0 where
  empty_name absolute leaves_rootfs : NameError

pub data Name : Type 0 where
  refused : NameError → Name
  named : Bytes → Name

-- `archiveName`.
unfoldable pub archive_name : Bytes → Name
archive_name name =
    let cleaned = clean name in
    if same name []
    then refused empty_name
    else if is_abs name
    then refused absolute
    else if same cleaned (codes "..") || has_prefix cleaned (codes "../")
    then refused leaves_rootfs
    else named cleaned
