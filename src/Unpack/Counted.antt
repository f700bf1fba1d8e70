-- ===== src/Unpack/Counted.antt =====
-- The bytes that the extractor has written into files are those that it counts.
use hull.Prelude.{
  ℕ, ◌+◌, ◌≡◌, refl, true, false, Option, none, some, List, [], ◌∷◌, Bytes, arith, length, drop,
}
use hull.Unpack.Path.{dir, join, Name, refused, named}
use hull.Unpack.Tar.{
  Header, Op, remove, remove_all, create, lstat, read_file, write_bytes, write_file, makes_symlink,
  makes_link, chmod_target, record_attr, Error, Root,
}
use hull.Unpack.Extract.{
  with_parent, remove_for_replace, create_for_write, root_dir_names, Done, or_fail, remove_names,
  listed_or_fail, whiteout, gone, symbolic_link, copy_source, hard_link_to, hard_link,
}

abbrev pub add_bytes : Op → ℕ → ℕ
add_bytes (write_bytes name bytes) n = length bytes + n
add_bytes _ n = n

-- The bytes of the entries of regular files.
unfoldable pub written : List Op → ℕ
written [] = 0
written (op ∷ h) = add_bytes op (written h)

module _ (root : Root) where
  written-with_parent :
      (parent : Bytes) (retry : Op) (first : Option Error) (h : List Op)
      → ((n : ℕ) → add_bytes retry n ≡ n)
      → written (with_parent root parent retry first h).1 ≡ written h
  unfolding with_parent written
  written-with_parent parent retry first h r = ground (arith, r (written h))

  pub written-remove_for_replace :
      (name : Bytes) (h : List Op) → written (remove_for_replace root name h).1 ≡ written h
  unfolding remove_for_replace written
  written-remove_for_replace name h =
      let first = (root h (remove name)).error in
      ground
        (arith, written-with_parent (dir name) (remove name) first (remove name ∷ h) (λ n. refl))

  pub written-create_for_write :
      (name : Bytes) (h : List Op) → written (create_for_write root name h).1 ≡ written h
  unfolding create_for_write written
  written-create_for_write name h =
      let first = (root h (create name)).error in
      ground
        (arith, written-with_parent (dir name) (create name) first (create name ∷ h) (λ n. refl))

  written-or_fail :
      (op : Op) (e : Option Error) (h : List Op) (more : Done) (n : ℕ)
      → written h ≡ n
      → written more.1 ≡ n
      → written (or_fail op e h more).1 ≡ n
  written-or_fail op none h more n c m = m
  written-or_fail op (some e) h more n c m = c

  written-remove_names :
      (d : Bytes) (names : List Bytes) (h : List Op)
      → written (remove_names root d names h).1 ≡ written h
  unfolding remove_names written
  written-remove_names d [] h = refl
  written-remove_names d (n ∷ names) h =
      let op = remove_all (join d n) in
      written-or_fail op (root h op).error (op ∷ h) (remove_names root d names (op ∷ h)) (written h)
        refl (written-remove_names d names (op ∷ h))

  written-listed_or_fail :
      (d : Bytes) (r : Option Error × List Bytes × List Op)
      → written (listed_or_fail root d r).1 ≡ written r.2
  written-listed_or_fail d (some e, names, h) = refl
  written-listed_or_fail d (none, names, h) = written-remove_names d names h

  written-root_dir_names :
      (d : Bytes) (h : List Op) → written (root_dir_names root d h).2 ≡ written h
  unfolding root_dir_names written
  written-root_dir_names d h = ground arith

  pub written-whiteout :
      (e : Header) (d n : Bytes) (h : List Op) → written (whiteout root e d n h).1 ≡ written h
  unfolding whiteout written
  written-whiteout e d n h =
      let op = remove_all (join d (drop 4 n)) in
      ground (
        arith,
        written-listed_or_fail d (root_dir_names root d h),
        written-root_dir_names d h,
        written-or_fail op (root h op).error (op ∷ h) (none, op ∷ h) (written h) refl refl,
      )

  pub written-symbolic_link :
      (e : Header) (name : Bytes) (h : List Op)
      → written (symbolic_link root e name h).1 ≡ written h
  unfolding symbolic_link written
  written-symbolic_link e name h =
      let old = remove_all name in
      let op = makes_symlink e.linkname name in
      let last : Done = (none, record_attr name e true ∷ op ∷ old ∷ h) in
      written-or_fail old (gone (root h old).error) (old ∷ h)
        (or_fail op (root (old ∷ h) op).error (op ∷ old ∷ h) last) (written h) refl
        (written-or_fail op (root (old ∷ h) op).error (op ∷ old ∷ h) last (written h) refl refl)

  written-copy_source :
      (e : Header) (name source : Bytes) (h : List Op)
      → written (copy_source root e name source h).1 ≡ written h
  unfolding copy_source written
  written-copy_source e name source h =
      let found = root h (read_file source) in
      let op = write_file name found.data_read in
      let h1 : List Op = read_file source ∷ h in
      let last : Done = (none, chmod_target name e.mode ∷ record_attr name e false ∷ op ∷ h1) in
      ground (
        arith,
        written-or_fail (read_file source) found.error h1
            (or_fail op (root h1 op).error (op ∷ h1) last) (written h) refl
            (written-or_fail op (root h1 op).error (op ∷ h1) last (written h) refl refl),
      )

  written-hard_link_to :
      (e : Header) (name source : Bytes) (h : List Op)
      → written (hard_link_to root e name source h).1 ≡ written h
  unfolding hard_link_to written
  written-hard_link_to e name source h =
      let old = remove_all name in
      let op = makes_link source name in
      let h1 : List Op = lstat source ∷ h in
      let h2 : List Op = op ∷ old ∷ h1 in
      let e1 = gone (root h1 old).error in
      ground (
        arith,
        written-or_fail old e1 (old ∷ h1) (copy_source root e name source h2) (written h) refl
            (written-copy_source e name source h2),
        written-or_fail old e1 (old ∷ h1) (none, h2) (written h) refl refl,
      )

  pub written-hard_link :
      (e : Header) (name : Bytes) (h : List Op) (n : Name)
      → written (hard_link root e name h n).1 ≡ written h
  written-hard_link e name h (refused err) = refl
  written-hard_link e name h (named source) = written-hard_link_to e name source h
