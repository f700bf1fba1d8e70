-- ===== src/Unpack/Written.antt =====
-- What a file, a symbolic link or a hard link asks of the root stays inside the image.
use hull.Prelude.{
  ℕ, ◌+◌, ◌-◌, ◌≡◌, refl, inl, inr, true, false, not, ◌&&◌, Option, none, some, List, ◌∷◌, Bytes,
  if◌then◌else◌, ltb, length, take, Bool-cases,
}
use hull.Unpack.Path.{Name, refused, named, archive_name}
use hull.Unpack.Inside.{IsBelow, IsInside, archive_name-IsInside}
use hull.Unpack.Tar.{
  Header, Op, remove_all, lstat, read_file, write_bytes, write_file, makes_symlink, makes_link,
  chmod_target, record_attr, Error, Root, layer_bomb,
}
use hull.Unpack.Extract.{
  is_gone, is_error, remove_for_replace, create_for_write, Done, or_fail, write_body, after_create,
  after_remove, regular_file, gone, symbolic_link, copy_source, hard_link_to, hard_link,
}
use hull.Unpack.Contained.{
  AllContained, remove_for_replace-AllContained, create_for_write-AllContained,
  or_fail-AllContained,
}

module _ (root : Root) where
  write_body-AllContained :
      (e : Header) (name : Bytes) (limit total : ℕ) (h : List Op)
      → IsBelow name
      → AllContained h
      → AllContained (write_body root e name limit total h).1.1
  unfolding write_body
  write_body-AllContained e name limit total h b c =
      let remaining = limit - total in
      let chunk = take (remaining + 1) e.body in
      let op = write_bytes name chunk in
      let ends : Done =
        if ltb remaining (length chunk)
        then (some layer_bomb, op ∷ h)
        else (none, chmod_target name e.mode ∷ record_attr name e false ∷ op ∷ h) in
      or_fail-AllContained root op (root h op).error (op ∷ h) ends (b, c)
        (elim (Bool-cases (ltb remaining (length chunk))) [
          | inl over ↦ rw over (b, c)
          | inr fits ↦ rw fits (b, (b, (b, c)))
        ])

  after_create-AllContained :
      (e : Header) (name : Bytes) (limit total : ℕ) (r : Option Error × List Op)
      → IsBelow name
      → AllContained r.1
      → AllContained (after_create root e name limit total r).1.1
  after_create-AllContained e name limit total (some err, h) b c = c
  after_create-AllContained e name limit total (none, h) b c =
      write_body-AllContained e name limit total h b c

  after_remove-AllContained :
      (e : Header) (name : Bytes) (limit total : ℕ) (r : Option Error × List Op)
      → IsBelow name
      → AllContained r.1
      → AllContained (after_remove root e name limit total r).1.1
  after_remove-AllContained e name limit total (some err, h) b c = c
  after_remove-AllContained e name limit total (none, h) b c =
      after_create-AllContained e name limit total (create_for_write root name h) b
        (create_for_write-AllContained root name h b c)

  pub regular_file-AllContained :
      (e : Header) (name : Bytes) (limit total : ℕ) (h : List Op)
      → IsBelow name
      → AllContained h
      → AllContained (regular_file root e name limit total h).1.1
  unfolding regular_file
  regular_file-AllContained e name limit total h b c =
      after_remove-AllContained e name limit total (remove_for_replace root name h) b
        (remove_for_replace-AllContained root name h b c)

  pub symbolic_link-AllContained :
      (e : Header) (name : Bytes) (h : List Op)
      → IsBelow name
      → AllContained h
      → AllContained (symbolic_link root e name h).1
  unfolding symbolic_link
  symbolic_link-AllContained e name h b c =
      let old = remove_all name in
      let op = makes_symlink e.linkname name in
      let last : Done = (none, record_attr name e true ∷ op ∷ old ∷ h) in
      or_fail-AllContained root old (gone (root h old).error) (old ∷ h)
        (or_fail op (root (old ∷ h) op).error (op ∷ old ∷ h) last) (b, c)
        (or_fail-AllContained root op (root (old ∷ h) op).error (op ∷ old ∷ h) last (b, (b, c))
          (b, (b, (b, c))))

  copy_source-AllContained :
      (e : Header) (name source : Bytes) (h : List Op)
      → IsBelow name
      → IsInside source
      → AllContained h
      → AllContained (copy_source root e name source h).1
  unfolding copy_source
  copy_source-AllContained e name source h b i c =
      let found = root h (read_file source) in
      let op = write_file name found.data_read in
      let h1 : List Op = read_file source ∷ h in
      let last : Done = (none, chmod_target name e.mode ∷ record_attr name e false ∷ op ∷ h1) in
      elim (Bool-cases (is_error found.error && is_gone found.error)) [
        | inl missing ↦ rw missing (i, c)
        | inr other ↦ rw other (
            or_fail-AllContained root (read_file source) found.error h1
              (or_fail op (root h1 op).error (op ∷ h1) last) (i, c)
              (or_fail-AllContained root op (root h1 op).error (op ∷ h1) last (b, (i, c))
                (b, (b, (b, (i, c))))))
      ]

  hard_link_to-AllContained :
      (e : Header) (name source : Bytes) (h : List Op)
      → IsBelow name
      → IsInside source
      → AllContained h
      → AllContained (hard_link_to root e name source h).1
  unfolding hard_link_to
  hard_link_to-AllContained e name source h b i c =
      let there = root h (lstat source) in
      let old = remove_all name in
      let op = makes_link source name in
      let h1 : List Op = lstat source ∷ h in
      let h2 : List Op = op ∷ old ∷ h1 in
      elim (Bool-cases (not (is_error there.error) && there.is_symlink)) [
        | inl follows ↦ rw follows (i, c)
        | inr plain ↦ elim (Bool-cases (is_error (root (old ∷ h1) op).error)) [
          | inl refuses ↦
              rw (plain, refuses)
                (or_fail-AllContained root old (gone (root h1 old).error) (old ∷ h1)
                  (copy_source root e name source h2) (b, (i, c))
                  (copy_source-AllContained e name source h2 b i ((i, b), (b, (i, c)))))
          | inr made ↦
              rw (plain, made)
                (or_fail-AllContained root old (gone (root h1 old).error) (old ∷ h1) (none, h2)
                  (b, (i, c)) ((i, b), (b, (i, c))))
        ]
      ]

  pub hard_link-AllContained :
      (e : Header) (name : Bytes) (h : List Op)
      → IsBelow name
      → AllContained h
      → AllContained (hard_link root e name h (archive_name e.linkname)).1
  hard_link-AllContained e name h b c = linked (archive_name e.linkname) refl
    where
      linked : (n : Name) → archive_name e.linkname ≡ n → AllContained (hard_link root e name h n).1
      linked (refused err) q = c
      linked (named source) q =
          hard_link_to-AllContained e name source h b (archive_name-IsInside e.linkname source q) c
