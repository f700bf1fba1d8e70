-- ===== src/Unpack/Layer.antt =====
-- The loop of `extractTarIgnoreChown` of pkg/ociclient/unpack.go over the entries of a layer, and the
-- modes of its directories.
use hull.Prelude.{
  less, ℕ, ◌+◌, ◌*◌, ◌/◌, ◌%◌, ◌^◌, Bool, false, Option, none, some, List, [], ◌∷◌, Bytes,
  if◌then◌else◌, ltb, ◌==◌, same, codes, has_prefix,
}
use hull.Unpack.Path.{slash, base, join, NameError, Name, refused, named, archive_name}
use hull.Unpack.Path
use hull.Unpack.Tar.{
  TypeFlag, dir, reg, symlink, link, unsupported, Header, Item, entry, broken, Op, mkdir_all, chmod,
  record_attr, Root, Failure, broken_archive, not_opened, Error, too_many_entries, bad_name, failed,
}
use hull.Unpack.Extract.{Done, whiteout, regular_file, symbolic_link, hard_link}

abbrev pub gibibyte : ℕ
gibibyte = 1024 * (1024 * 1024)

abbrev pub max_layer_bytes : ℕ
max_layer_bytes = 16 * gibibyte

abbrev pub max_layer_entries : ℕ
max_layer_entries = 4000000

abbrev pub Modes : Type 0
Modes = List (Bytes × ℕ)

pub record State : Type 0 where
  pub history : List Op
  pub total : ℕ
  pub entries : ℕ
  pub dir_modes : Modes

unfoldable pub set_mode : Bytes → ℕ → Modes → Modes
set_mode name mode [] = (name, mode) ∷ []
set_mode name mode ((n, m) ∷ modes) =
    let rest = set_mode name mode modes in
    if same n name then (name, mode) ∷ modes else (n, m) ∷ rest

abbrev pub Outcome : Type 0
Outcome = Option Failure × State

abbrev pub with_history : State → Done → Outcome
with_history s (f, h) = (f, record s { history = h })

abbrev pub with_total : State → ℕ × Done → Outcome
with_total s (total, (f, h)) = (f, record s { history = h; total = total })

abbrev pub directory : Root → Header → Bytes → State → Outcome
directory root e name s =
    let op = mkdir_all name in
    elim (root s.history op).error [
      | some err ↦ (some (failed op err), record s { history = op ∷ s.history })
      | none ↦ (
        none,
        record s {
          history = record_attr name e false ∷ op ∷ s.history;
          dir_modes = set_mode name e.mode s.dir_modes;
        },
      )
    ]

-- What the entry is.
abbrev pub by_kind : Root → Header → Bytes → ℕ → State → TypeFlag → Outcome
by_kind root e name limit s dir = directory root e name s
by_kind root e name limit s reg = with_total s (regular_file root e name limit s.total s.history)
by_kind root e name limit s symlink = with_history s (symbolic_link root e name s.history)
by_kind root e name limit s link =
    with_history s (hard_link root e name s.history (archive_name e.linkname))
by_kind root e name limit s unsupported = (none, s)

-- Behind the parent directories.
abbrev pub with_parents : Root → Header → Bytes → ℕ → State → Outcome
with_parents root e name limit s =
    let parent = Path.dir name in
    let op = mkdir_all parent in
    let made = record s { history = op ∷ s.history } in
    if same parent (codes ".")
    then by_kind root e name limit s e.kind
    else elim (root s.history op).error [
      | none ↦ by_kind root e name limit made e.kind
      | some err ↦ (some (failed op err), made)
    ]

abbrev pub named_entry : Root → Header → ℕ → State → Name → Outcome
named_entry root e limit s (refused err) = (some (bad_name e.name err), s)
named_entry root e limit s (named name) =
    if same name (codes ".")
    then (none, s)
    else if has_prefix (base name) (codes ".wh.")
    then with_history s (whiteout root e (Path.dir name) (base name) s.history)
    else with_parents root e name limit s

unfoldable pub extract_entry : Root → ℕ → ℕ → Header → State → Outcome
extract_entry root limit entry_limit e s =
    let counted = record s { entries = s.entries + 1 } in
    if ltb entry_limit counted.entries
    then (some (too_many_entries e.name), counted)
    else named_entry root e limit counted (archive_name e.name)

-- A set bit k of the POSIX mode becomes bit `to` of an `os.FileMode`.
abbrev moved_bit : ℕ → ℕ → ℕ → ℕ
moved_bit k to m = m / 2 ^ k % 2 * 2 ^ to

unfoldable pub posix_file_mode : ℕ → ℕ
posix_file_mode m = m % 512 + (moved_bit 11 23 m + (moved_bit 10 22 m + moved_bit 9 20 m))

abbrev pub count_slashes : Bytes → ℕ
count_slashes [] = 0
count_slashes (c ∷ s) = if c == slash then count_slashes s + 1 else count_slashes s

-- The order of `applyDirModes`.
unfoldable pub deeper : Bytes → Bytes → Bool
deeper s t =
    if count_slashes s == count_slashes t then less s t else ltb (count_slashes t) (count_slashes s)

abbrev pub insert_mode : Bytes × ℕ → Modes → Modes
insert_mode m [] = m ∷ []
insert_mode m (n ∷ modes) =
    let rest = insert_mode m modes in if deeper n.0 m.0 then n ∷ rest else m ∷ n ∷ modes

unfoldable pub sort_modes : Modes → Modes
sort_modes [] = []
sort_modes (m ∷ modes) = insert_mode m (sort_modes modes)

abbrev pub chmod_all : Modes → List Op → List Op
chmod_all [] h = h
chmod_all ((name, mode) ∷ modes) h = chmod_all modes (chmod name (posix_file_mode mode) ∷ h)

-- `applyDirModes`: a mode that the file system does not take is no error.
unfoldable pub apply_dir_modes : State → State
apply_dir_modes s = record s { history = chmod_all (sort_modes s.dir_modes) s.history }

unfoldable pub extract_all : Root → ℕ → ℕ → List Item → State → Outcome
extract_all root limit entry_limit [] s = (none, apply_dir_modes s)
extract_all root limit entry_limit (broken ∷ items) s = (some broken_archive, s)
extract_all root limit entry_limit (entry e ∷ items) s =
    let (f, next) = extract_entry root limit entry_limit e s in
    elim f [
      | none ↦ extract_all root limit entry_limit items next
      | some failure ↦ (some failure, next)
    ]

abbrev pub fresh : State
fresh = record { history = []; total = 0; entries = 0; dir_modes = [] }

-- Whether the root could be opened comes first.
unfoldable pub extract_tar_ignore_chown : Root → Option Error → ℕ → ℕ → List Item → Outcome
extract_tar_ignore_chown root (some e) limit entry_limit items = (some (not_opened e), fresh)
extract_tar_ignore_chown root none limit entry_limit items =
    extract_all root limit entry_limit items fresh
