-- ===== src/Unpack/Extract.antt =====
-- What `extractTarIgnoreChown` of pkg/ociclient/unpack.go does for an entry, by its kind.
use hull.Prelude.{
  ℕ, ◌+◌, ◌-◌, ◌*◌, ◌/◌, ◌%◌, ◌^◌, Bool, true, false, not, ◌&&◌, ◌||◌, Option, none, some, List, [],
  ◌∷◌, Bytes, if◌then◌else◌, ltb, length, same, take, drop, codes,
}
use hull.Unpack.Path.{dir, join, Name, refused, named}
use hull.Unpack.Tar.{
  Header, Op, remove, remove_all, create, stat, lstat, read_file, open_dir, read_names, write_bytes,
  write_file, makes_symlink, makes_link, chmod, chmod_target, record_attr, Error, not_exist,
  permission, Root, Failure, bad_link, names_no_target, source_is_symlink, layer_bomb, failed,
}

abbrev pub is_gone : Option Error → Bool
is_gone none = true
is_gone (some not_exist) = true
is_gone (some _) = false

abbrev pub is_error : Option Error → Bool
is_error none = false
is_error (some e) = true

abbrev bit : ℕ → ℕ → ℕ
bit k m = m / 2 ^ k % 2 * 2 ^ k

-- The permission, setuid, setgid and sticky bits of an `fs.FileMode`.
abbrev pub restorable : ℕ → ℕ
restorable m = m % 512 + (bit 20 m + (bit 22 m + bit 23 m))

-- `m | 0o300`.
abbrev pub widened : ℕ → ℕ
widened m = m + ((64 - bit 6 m) + (128 - bit 7 m))

-- The parent is made writable for one operation, and put back.
unfoldable pub with_parent : Root → Bytes → Op → Option Error → List Op → Option Error × List Op
with_parent root parent retry first h =
    let found = root h (stat parent) in
    let wide = chmod parent (widened (restorable found.mode)) in
    let changed = root (stat parent ∷ h) wide in
    if is_error found.error
    then (first, stat parent ∷ h)
    else if is_error changed.error
    then (first, wide ∷ stat parent ∷ h)
    else (
      (root (wide ∷ stat parent ∷ h) retry).error,
      chmod parent (restorable found.mode) ∷ retry ∷ wide ∷ stat parent ∷ h,
    )

abbrev pub unless_gone : Option Error × List Op → Option Error × List Op
unless_gone (e, h) = if is_gone e then (none, h) else (e, h)

unfoldable pub remove_for_replace : Root → Bytes → List Op → Option Error × List Op
remove_for_replace root name h =
    let removed = root h (remove name) in
    if is_gone removed.error
    then (none, remove name ∷ h)
    else unless_gone (with_parent root (dir name) (remove name) removed.error (remove name ∷ h))

abbrev pub is_permission : Option Error → Bool
is_permission (some permission) = true
is_permission _ = false

unfoldable pub create_for_write : Root → Bytes → List Op → Option Error × List Op
create_for_write root name h =
    let created = root h (create name) in
    if not (is_permission created.error) || same (dir name) (codes ".")
    then (created.error, create name ∷ h)
    else with_parent root (dir name) (create name) created.error (create name ∷ h)

-- `rootDirNames`: the error, or the names.
unfoldable pub root_dir_names : Root → Bytes → List Op → Option Error × List Bytes × List Op
root_dir_names root d h =
    let opened = root h (open_dir d) in
    let listed = root (open_dir d ∷ h) (read_names d) in
    if is_gone opened.error
    then if is_error opened.error
      then (none, [], open_dir d ∷ h)
      else (listed.error, listed.names, read_names d ∷ open_dir d ∷ h)
    else (opened.error, [], open_dir d ∷ h)

abbrev pub Done : Type 0
Done = Option Failure × List Op

-- An error of the operation ends the extraction.
abbrev pub or_fail : Op → Option Error → List Op → Done → Done
or_fail op none h more = more
or_fail op (some e) h more = (some (failed op e), h)

unfoldable pub remove_names : Root → Bytes → List Bytes → List Op → Done
remove_names root d [] h = (none, h)
remove_names root d (n ∷ names) h =
    let op = remove_all (join d n) in
    or_fail op (root h op).error (op ∷ h) (remove_names root d names (op ∷ h))

abbrev pub listed_or_fail : Root → Bytes → Option Error × List Bytes × List Op → Done
listed_or_fail root d (some e, names, h) = (some (failed (open_dir d) e), h)
listed_or_fail root d (none, names, h) = remove_names root d names h

abbrev pub is_dots : Bytes → Bool
is_dots s = same s [] || same s (codes ".") || same s (codes "..")

-- A whiteout in the directory; `n` is the entry's last element.
unfoldable pub whiteout : Root → Header → Bytes → Bytes → List Op → Done
whiteout root e d n h =
    if same n (codes ".wh..wh..opq")
    then listed_or_fail root d (root_dir_names root d h)
    else if is_dots (drop 4 n)
    then (some (names_no_target e.name), h)
    else let op = remove_all (join d (drop 4 n)) in
      or_fail op (root h op).error (op ∷ h) (none, op ∷ h)

-- The file's bytes, one more than the layer has left at most: the new total, and the failure.
unfoldable pub write_body : Root → Header → Bytes → ℕ → ℕ → List Op → ℕ × Done
write_body root e name limit total h =
    let remaining = limit - total in
    let chunk = take (remaining + 1) e.body in
    let op = write_bytes name chunk in
    let attr = record_attr name e false in
    (
      total + length chunk,
      or_fail op (root h op).error (op ∷ h) (
          if ltb remaining (length chunk)
          then (some layer_bomb, op ∷ h)
          else (none, chmod_target name e.mode ∷ attr ∷ op ∷ h)),
    )

abbrev pub after_create : Root → Header → Bytes → ℕ → ℕ → Option Error × List Op → ℕ × Done
after_create root e name limit total (some err, h) = (total, (some (failed (create name) err), h))
after_create root e name limit total (none, h) = write_body root e name limit total h

abbrev pub after_remove : Root → Header → Bytes → ℕ → ℕ → Option Error × List Op → ℕ × Done
after_remove root e name limit total (some err, h) = (total, (some (failed (remove name) err), h))
after_remove root e name limit total (none, h) =
    after_create root e name limit total (create_for_write root name h)

unfoldable pub regular_file : Root → Header → Bytes → ℕ → ℕ → List Op → ℕ × Done
regular_file root e name limit total h =
    after_remove root e name limit total (remove_for_replace root name h)

abbrev pub gone : Option Error → Option Error
gone e = if is_gone e then none else e

unfoldable pub symbolic_link : Root → Header → Bytes → List Op → Done
symbolic_link root e name h =
    let old = remove_all name in
    let op = makes_symlink e.linkname name in
    or_fail old (gone (root h old).error) (old ∷ h) (
      or_fail op (root (old ∷ h) op).error (op ∷ old ∷ h)
        (none, record_attr name e true ∷ op ∷ old ∷ h))

-- A link that could not be made becomes a copy, unless there is nothing to copy.
unfoldable pub copy_source : Root → Header → Bytes → Bytes → List Op → Done
copy_source root e name source h =
    let found = root h (read_file source) in
    let op = write_file name found.data_read in
    if is_error found.error && is_gone found.error
    then (none, read_file source ∷ h)
    else or_fail (read_file source) found.error (read_file source ∷ h) (
        or_fail op (root (read_file source ∷ h) op).error (op ∷ read_file source ∷ h)
          (none, chmod_target name e.mode ∷ record_attr name e false ∷ op ∷ read_file source ∷ h))

unfoldable pub hard_link_to : Root → Header → Bytes → Bytes → List Op → Done
hard_link_to root e name source h =
    let there = root h (lstat source) in
    let old = remove_all name in
    let op = makes_link source name in
    let h1 = lstat source ∷ h in
    if not (is_error there.error) && there.is_symlink
    then (some (source_is_symlink source), h1)
    else or_fail old (gone (root h1 old).error) (old ∷ h1) (
        if is_error (root (old ∷ h1) op).error
        then copy_source root e name source (op ∷ old ∷ h1)
        else (none, op ∷ old ∷ h1))

abbrev pub hard_link : Root → Header → Bytes → List Op → Name → Done
hard_link root e name h (refused err) = (some (bad_link e.linkname err), h)
hard_link root e name h (named source) = hard_link_to root e name source h
