-- ===== src/Unpack/Contained.antt =====
-- What the extractor asks of the root for one entry stays inside the image.
use hull.Prelude.{
  ℕ, zero, suc, inl, inr, not, ◌||◌, Option, none, some, List, [], ◌∷◌, Bytes, arith, drop, codes,
  same, all_bytes, Lacks, Bool-cases,
}
use hull.Unpack.Path.{slash, dir, join}
use hull.Unpack.Inside.{AllProper, IsBelow, IsInside}
use hull.Unpack.Joined.{dir-IsInside, join-IsBelow}
use hull.Unpack.Tar.{
  Header, Op, remove, remove_all, mkdir_all, create, stat, lstat, read_file, open_dir, read_names,
  write_bytes, write_file, makes_symlink, makes_link, chmod, chmod_target, record_attr, Error, Root,
}
use hull.Unpack.Extract.{
  is_gone, is_error, restorable, widened, with_parent, remove_for_replace, is_permission,
  create_for_write, root_dir_names, Done, or_fail, remove_names, listed_or_fail, is_dots, whiteout,
}

-- A delete, a new file or link and what is set on it by its host path are below the root; what only
-- reads, makes or changes a directory may be at the root itself.
abbrev pub IsContained : Op → Type 0
IsContained (remove p) = IsBelow p
IsContained (remove_all p) = IsBelow p
IsContained (mkdir_all p) = IsInside p
IsContained (create p) = IsBelow p
IsContained (stat p) = IsInside p
IsContained (lstat p) = IsInside p
IsContained (read_file p) = IsInside p
IsContained (open_dir p) = IsInside p
IsContained (read_names p) = IsInside p
IsContained (write_bytes p _) = IsBelow p
IsContained (write_file p _) = IsBelow p
IsContained (makes_symlink _ p) = IsBelow p
IsContained (makes_link s p) = IsInside s × IsBelow p
IsContained (chmod p _) = IsInside p
IsContained (chmod_target p _) = IsBelow p
IsContained (record_attr p _ _) = IsBelow p

abbrev pub AllContained : List Op → Type 0
AllContained [] = Unit
AllContained (op ∷ h) = IsContained op × AllContained h

module _ (root : Root) where
  pub with_parent-AllContained :
      (parent : Bytes) (retry : Op) (first : Option Error) (h : List Op)
      → IsInside parent
      → IsContained retry
      → AllContained h
      → AllContained (with_parent root parent retry first h).1
  unfolding with_parent
  with_parent-AllContained parent retry first h p r c =
      let found = root h (stat parent) in
      let wide = chmod parent (widened (restorable found.mode)) in
      elim (Bool-cases (is_error found.error)) [
        | inl bad ↦ rw bad (p, c)
        | inr good ↦ elim (Bool-cases (is_error (root (stat parent ∷ h) wide).error)) [
          | inl bad ↦ rw (good, bad) (p, (p, c))
          | inr fine ↦ rw (good, fine) (p, (r, (p, (p, c))))
        ]
      ]

  pub remove_for_replace-AllContained :
      (name : Bytes) (h : List Op)
      → IsBelow name
      → AllContained h
      → AllContained (remove_for_replace root name h).1
  unfolding remove_for_replace
  remove_for_replace-AllContained name h b c =
      elim (Bool-cases (is_gone (root h (remove name)).error)) [
        | inl ok ↦ rw ok (b, c)
        | inr kept ↦
            let first = (root h (remove name)).error in
            let tried = with_parent root (dir name) (remove name) first (remove name ∷ h) in
            let more =
              with_parent-AllContained (dir name) (remove name) first (remove name ∷ h)
                (dir-IsInside name b) b (b, c) in
            rw kept (elim (Bool-cases (is_gone tried.0)) [
              | inl now ↦ rw now more
              | inr still ↦ rw still more
            ])
      ]

  pub create_for_write-AllContained :
      (name : Bytes) (h : List Op)
      → IsBelow name
      → AllContained h
      → AllContained (create_for_write root name h).1
  unfolding create_for_write
  create_for_write-AllContained name h b c =
      let first = (root h (create name)).error in
      elim (Bool-cases (not (is_permission first) || same (dir name) (codes "."))) [
        | inl ends ↦ rw ends (b, c)
        | inr tries ↦ rw tries (
            with_parent-AllContained (dir name) (create name) first (create name ∷ h)
              (dir-IsInside name b) b (b, c))
      ]

  pub or_fail-AllContained :
      (op : Op) (e : Option Error) (h : List Op) (more : Done)
      → AllContained h
      → AllContained more.1
      → AllContained (or_fail op e h more).1
  or_fail-AllContained op none h more c m = m
  or_fail-AllContained op (some e) h more c m = c

  remove_names-AllContained :
      (d : Bytes) (names : List Bytes) (h : List Op)
      → IsInside d
      → AllProper names
      → AllContained h
      → AllContained (remove_names root d names h).1
  unfolding remove_names
  remove_names-AllContained d [] h i p c = c
  remove_names-AllContained d (n ∷ names) h i (p, ps) c =
      let op = remove_all (join d n) in
      let b = join-IsBelow d n i p in
      or_fail-AllContained op (root h op).error (op ∷ h) (remove_names root d names (op ∷ h)) (b, c)
        (remove_names-AllContained d names (op ∷ h) i ps (b, c))

  listed_or_fail-AllContained :
      (d : Bytes) (r : Option Error × List Bytes × List Op)
      → IsInside d
      → AllProper r.1
      → AllContained r.2
      → AllContained (listed_or_fail root d r).1
  listed_or_fail-AllContained d (some e, names, h) i p c = c
  listed_or_fail-AllContained d (none, names, h) i p c = remove_names-AllContained d names h i p c

  -- A directory's entries are names: no slash, not empty, not `.` and not `..`.
  module _ (listing : (h : List Op) (d : Bytes) → AllProper (root h (read_names d)).names) where
    root_dir_names-AllContained :
        (d : Bytes) (h : List Op)
        → IsInside d
        → AllContained h
        → AllProper (root_dir_names root d h).1 × AllContained (root_dir_names root d h).2
    unfolding root_dir_names
    root_dir_names-AllContained d h i c = elim (Bool-cases (is_gone (root h (open_dir d)).error)) [
      | inr fails ↦ rw fails (tt, (i, c))
      | inl opened ↦ elim (Bool-cases (is_error (root h (open_dir d)).error)) [
        | inl missing ↦ rw (opened, missing) (tt, (i, c))
        | inr there ↦ rw (opened, there) (listing (open_dir d ∷ h) d, (i, (i, c)))
      ]
    ]

    drop-Lacks : (n : ℕ) (s : Bytes) → Lacks slash s → Lacks slash (drop n s)
    unfolding all_bytes
    drop-Lacks zero s l = l
    drop-Lacks (suc n) [] l = l
    drop-Lacks (suc n) (c ∷ s) l = drop-Lacks n s (ground (arith, l))

    pub whiteout-AllContained :
        (e : Header) (d n : Bytes) (h : List Op)
        → IsInside d
        → Lacks slash n
        → AllContained h
        → AllContained (whiteout root e d n h).1
    unfolding whiteout
    whiteout-AllContained e d n h i l c = elim (Bool-cases (same n (codes ".wh..wh..opq"))) [
      | inl opaque ↦
          let listed = root_dir_names-AllContained d h i c in
          rw opaque (listed_or_fail-AllContained d (root_dir_names root d h) i listed.0 listed.1)
      | inr one ↦ elim (Bool-cases (is_dots (drop 4 n))) [
        | inl dots ↦ rw (one, dots) c
        | inr names ↦
            let op = remove_all (join d (drop 4 n)) in
            let b = join-IsBelow d (drop 4 n) i (ground (arith, names, drop-Lacks 4 n l)) in
            rw (one, names)
              (or_fail-AllContained op (root h op).error (op ∷ h) (none, op ∷ h) (b, c) (b, c))
      ]
    ]
