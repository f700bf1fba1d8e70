-- ===== src/Unpack/Bounded.antt =====
-- What a layer may expand into is bounded.
use hull.Prelude.{
  ℕ, ◌+◌, ◌-◌, ◌≤◌, ◌≡◌, refl, sym, ◌∙◌, inl, inr, false, Option, none, some, List, [], ◌∷◌, Bytes,
  arith, if◌then◌else◌, ltb, length, take, length-take, codes, same, has_prefix, Bool-cases,
  Option-cases,
}
use mathlib.Core.Path.{subst}
use hull.Unpack.Path
use hull.Unpack.Path.{base, Name, refused, named, archive_name}
use hull.Unpack.Tar.{
  Error, TypeFlag, dir, reg, symlink, link, unsupported, Header, Item, entry, broken, Op, mkdir_all,
  write_bytes, chmod, chmod_target, record_attr, Error, Root, Failure, layer_bomb,
}
use hull.Unpack.Extract.{
  remove_for_replace, create_for_write, Done, or_fail, whiteout, write_body, after_create,
  after_remove, regular_file, symbolic_link, hard_link,
}
use hull.Unpack.Layer.{
  State, Modes, Outcome, with_history, with_total, directory, by_kind, with_parents, named_entry,
  extract_entry, posix_file_mode, sort_modes, chmod_all, apply_dir_modes, extract_all, fresh,
  extract_tar_ignore_chown,
}
use hull.Unpack.Counted.{
  written, written-remove_for_replace, written-create_for_write, written-whiteout,
  written-symbolic_link, written-hard_link,
}

abbrev pub over : Option Failure → ℕ
over none = 0
over (some _) = 1

abbrev IsCounted : ℕ → ℕ × Done → Type 0
IsCounted limit r = (written r.1.1 ≡ r.0) × (r.0 ≤ limit + over r.1.0)

or_fail-IsCounted :
    (limit total : ℕ) (op : Op) (e : Option Error) (h : List Op) (more : Done)
    → written h ≡ total
    → total ≤ limit + 1
    → IsCounted limit (total, more)
    → IsCounted limit (total, or_fail op e h more)
or_fail-IsCounted limit total op none h more w le m = m
or_fail-IsCounted limit total op (some e) h more w le m = (w, le)

module _ (root : Root) (e : Header) (name : Bytes) (limit total : ℕ) (le : total ≤ limit) where
  write_body-IsCounted :
      (h : List Op) → written h ≡ total → IsCounted limit (write_body root e name limit total h)
  unfolding write_body written
  write_body-IsCounted h w =
      let remaining = limit - total in
      let chunk = take (remaining + 1) e.body in
      let op = write_bytes name chunk in
      let n = length chunk in
      let most : n ≤ remaining + 1 = ground (arith, length-take (remaining + 1) e.body) in
      let ends : Done =
        if ltb remaining n
        then (some layer_bomb, op ∷ h)
        else (none, chmod_target name e.mode ∷ record_attr name e false ∷ op ∷ h) in
      or_fail-IsCounted limit (total + n) op (root h op).error (op ∷ h) ends (omega (arith, w))
        (omega (arith, most, le))
        (elim (Bool-cases (ltb remaining n)) [
          | inl bomb ↦ rw bomb (omega (arith, w), omega (arith, most, le))
          | inr fits ↦ rw fits (omega (arith, w), ground (arith, fits, le))
        ])

  after_create-IsCounted :
      (r : Option Error × List Op)
      → written r.1 ≡ total
      → IsCounted limit (after_create root e name limit total r)
  after_create-IsCounted (some err, h) w = (w, omega (arith, le))
  after_create-IsCounted (none, h) w = write_body-IsCounted h w

  after_remove-IsCounted :
      (r : Option Error × List Op)
      → written r.1 ≡ total
      → IsCounted limit (after_remove root e name limit total r)
  after_remove-IsCounted (some err, h) w = (w, omega (arith, le))
  after_remove-IsCounted (none, h) w =
      after_create-IsCounted (create_for_write root name h)
        (written-create_for_write root name h ∙ w)

  regular_file-IsCounted :
      (h : List Op) → written h ≡ total → IsCounted limit (regular_file root e name limit total h)
  unfolding regular_file
  regular_file-IsCounted h w =
      after_remove-IsCounted (remove_for_replace root name h)
        (written-remove_for_replace root name h ∙ w)

abbrev IsBounded : ℕ → ℕ → Outcome → Type 0
IsBounded limit most o =
    (written o.1.history ≡ o.1.total)
    × (o.1.total ≤ limit + over o.0)
    × (o.1.entries ≤ most + over o.0)

module _ (root : Root) (limit most : ℕ) where
  -- What is done without writing a file's bytes.
  with_history-IsBounded :
      (s : State) (d : Done)
      → written d.1 ≡ written s.history
      → IsBounded limit most (none, s)
      → IsBounded limit most (with_history s d)
  with_history-IsBounded s (f, h) w (c, t, n) = (w ∙ c, omega (arith, t), omega (arith, n))

  with_total-IsBounded :
      (s : State) (r : ℕ × Done)
      → IsCounted limit r
      → IsBounded limit most (none, s)
      → IsBounded limit most (with_total s r)
  with_total-IsBounded s (total, (f, h)) (w, t) (c, b, n) = (w, t, omega (arith, n))

  directory-IsBounded :
      (e : Header) (name : Bytes) (s : State)
      → IsBounded limit most (none, s)
      → IsBounded limit most (directory root e name s)
  unfolding written
  directory-IsBounded e name s (c, t, n) =
      elim (Option-cases (root s.history (mkdir_all name)).error) [
        | inl ok ↦ rw (ok, directory) (c, t, n)
        | inr (err, bad) ↦ rw (bad, directory) (c, omega (arith, t), omega (arith, n))
      ]

  by_kind-IsBounded :
      (e : Header) (name : Bytes) (s : State) (k : TypeFlag)
      → IsBounded limit most (none, s)
      → IsBounded limit most (by_kind root e name limit s k)
  by_kind-IsBounded e name s dir b = directory-IsBounded e name s b
  by_kind-IsBounded e name s reg (c, t, n) =
      with_total-IsBounded s (regular_file root e name limit s.total s.history)
        (regular_file-IsCounted root e name limit s.total (omega (arith, t)) s.history c) (c, t, n)
  by_kind-IsBounded e name s symlink b =
      with_history-IsBounded s (symbolic_link root e name s.history)
        (written-symbolic_link root e name s.history) b
  by_kind-IsBounded e name s link b =
      with_history-IsBounded s (hard_link root e name s.history (archive_name e.linkname))
        (written-hard_link root e name s.history (archive_name e.linkname)) b
  by_kind-IsBounded e name s unsupported b = b

  with_parents-IsBounded :
      (e : Header) (name : Bytes) (s : State)
      → IsBounded limit most (none, s)
      → IsBounded limit most (with_parents root e name limit s)
  unfolding written
  with_parents-IsBounded e name s (c, t, n) =
      let parent = Path.dir name in
      let made = record s { history = mkdir_all parent ∷ s.history } in
      elim (Bool-cases (same parent (codes "."))) [
        | inl top ↦ rw top (by_kind-IsBounded e name s e.kind (c, t, n))
        | inr deep ↦ elim (Option-cases (root s.history (mkdir_all parent)).error) [
          | inl ok ↦ rw (deep, ok) (by_kind-IsBounded e name made e.kind (c, t, n))
          | inr (err, bad) ↦ rw (deep, bad) (c, omega (arith, t), omega (arith, n))
        ]
      ]

  named_entry-IsBounded :
      (e : Header) (s : State) (name : Name)
      → IsBounded limit most (none, s)
      → IsBounded limit most (named_entry root e limit s name)
  named_entry-IsBounded e s (refused err) (c, t, n) = (c, omega (arith, t), omega (arith, n))
  named_entry-IsBounded e s (named name) b = elim (Bool-cases (same name (codes "."))) [
    | inl itself ↦ rw itself b
    | inr below ↦ elim (Bool-cases (has_prefix (base name) (codes ".wh."))) [
      | inl deletes ↦
          rw (below, deletes)
            (with_history-IsBounded s (whiteout root e (Path.dir name) (base name) s.history)
              (written-whiteout root e (Path.dir name) (base name) s.history) b)
      | inr adds ↦ rw (below, adds) (with_parents-IsBounded e name s b)
    ]
  ]

  extract_entry-IsBounded :
      (e : Header) (s : State)
      → IsBounded limit most (none, s)
      → IsBounded limit most (extract_entry root limit most e s)
  unfolding extract_entry
  extract_entry-IsBounded e s (c, t, n) =
      let counted = record s { entries = s.entries + 1 } in
      elim (Bool-cases (ltb most (s.entries + 1))) [
        | inl many ↦ rw many (c, omega (arith, t), omega (arith, n))
        | inr few ↦
            rw few
              (named_entry-IsBounded e counted (archive_name e.name) (c, t, ground (arith, few)))
      ]

  written-chmod_all : (modes : Modes) (h : List Op) → written (chmod_all modes h) ≡ written h
  unfolding written
  written-chmod_all [] h = refl
  written-chmod_all ((name, mode) ∷ modes) h =
      written-chmod_all modes (chmod name (posix_file_mode mode) ∷ h)

  extract_all-IsBounded :
      (items : List Item) (s : State)
      → IsBounded limit most (none, s)
      → IsBounded limit most (extract_all root limit most items s)
  unfolding extract_all apply_dir_modes
  extract_all-IsBounded [] s (c, t, n) =
      (written-chmod_all (sort_modes s.dir_modes) s.history ∙ c, t, n)
  extract_all-IsBounded (broken ∷ items) s (c, t, n) = (c, omega (arith, t), omega (arith, n))
  extract_all-IsBounded (entry e ∷ items) s b =
      let next = extract_entry root limit most e s in
      let (c, t, n) = extract_entry-IsBounded e s b in
      elim (Option-cases next.0) [
        | inr (f, fails) ↦
            rw (fails, extract_all)
              (
                c,
                subst (λ o. next.1.total ≤ limit + over o) fails t,
                subst (λ o. next.1.entries ≤ most + over o) fails n,
              )
        | inl ok ↦
            rw (ok, extract_all)
              (extract_all-IsBounded items next.1 (
                c,
                subst (λ o. next.1.total ≤ limit + over o) ok t,
                subst (λ o. next.1.entries ≤ most + over o) ok n,
              ))
      ]

-- Whatever the archive holds and the root answers, an extraction that succeeds has read no more
-- entries than the bound and has written no more bytes of them into files than the bound; one that
-- fails has read one entry more at most, and has given one byte more to be written at most.
pub extract_tar-bounded :
    (root : Root) (opened : Option Error) (limit most : ℕ) (items : List Item)
    → (written (extract_tar_ignore_chown root opened limit most items).1.history
        ≤ limit + over (extract_tar_ignore_chown root opened limit most items).0)
      × ((extract_tar_ignore_chown root opened limit most items).1.entries
          ≤ most + over (extract_tar_ignore_chown root opened limit most items).0)
unfolding extract_tar_ignore_chown written
extract_tar-bounded root (some e) limit most items = (omega arith, omega arith)
extract_tar-bounded root none limit most items =
    let r = extract_all root limit most items fresh in
    let (c, t, n) =
      extract_all-IsBounded root limit most items fresh (refl, omega arith, omega arith) in
    (subst (λ v. v ≤ limit + over r.0) (sym c) t, n)
