-- ===== src/Unpack/Confined.antt =====
-- All that the extractor asks of the root, for any archive, stays inside the image.
use hull.Prelude.{
  some, none, Option, ℕ, ◌+◌, ◌≡◌, refl, sym, inl, inr, List, [], ◌∷◌, Bytes, arith, ltb, codes,
  same, has_prefix, split_cons, all_bytes, Lacks, Bool-cases, Option-cases,
}
use mathlib.Core.Path.{subst}
use hull.Unpack.Path
use hull.Unpack.Path.{slash, base, last_name, NameError, Name, refused, named, archive_name}
use hull.Unpack.Inside.{AllProper, IsBelow, IsInside, proper-Lacks, archive_name-IsInside}
use hull.Unpack.Joined.{dir-IsInside}
use hull.Unpack.Tar.{
  Error, TypeFlag, dir, reg, symlink, link, unsupported, Header, Item, entry, broken, Op, mkdir_all,
  read_names, chmod, Root,
}
use hull.Unpack.Extract.{Done, whiteout, regular_file, symbolic_link, hard_link}
use hull.Unpack.Layer.{
  State, Modes, set_mode, with_history, with_total, directory, by_kind, with_parents, named_entry,
  extract_entry, posix_file_mode, deeper, insert_mode, sort_modes, chmod_all, apply_dir_modes,
  extract_all, fresh, extract_tar_ignore_chown,
}
use hull.Unpack.Contained.{AllContained, whiteout-AllContained}
use hull.Unpack.Written.{
  regular_file-AllContained, symbolic_link-AllContained, hard_link-AllContained,
}

last_name-Lacks :
    (found : Bytes) (fs : List Bytes)
    → Lacks slash found
    → AllProper fs
    → Lacks slash (last_name found fs)
last_name-Lacks found [] l p = l
last_name-Lacks found (f ∷ fs) l (p, ps) = elim (Bool-cases (same f [])) [
  | inl empty ↦ rw empty (last_name-Lacks found fs l ps)
  | inr full ↦ rw full (last_name-Lacks f fs (proper-Lacks f p) ps)
]

last_name-first :
    (f : Bytes) (fs : List Bytes)
    → AllProper (f ∷ fs)
    → Lacks slash (last_name (slash ∷ []) (f ∷ fs))
last_name-first f fs (p, ps) = elim (Bool-cases (same f [])) [
  | inl empty ↦ absurd (ground (arith, p, empty))
  | inr full ↦ rw full (last_name-Lacks f fs (proper-Lacks f p) ps)
]

base-Lacks : (s : Bytes) → IsBelow s → Lacks slash (base s)
unfolding base all_bytes
base-Lacks [] b = refl
base-Lacks (c ∷ s) b =
    let (f, fs, e) = split_cons slash (c ∷ s) in
    subst (λ l. Lacks slash (last_name (slash ∷ []) l)) (sym e)
      (last_name-first f fs (subst (λ l. AllProper l) e b))

abbrev AllInside : Modes → Type 0
AllInside [] = Unit
AllInside ((name, mode) ∷ modes) = IsInside name × AllInside modes

set_mode-AllInside :
    (name : Bytes) (mode : ℕ) (modes : Modes)
    → IsInside name
    → AllInside modes
    → AllInside (set_mode name mode modes)
unfolding set_mode
set_mode-AllInside name mode [] i a = (i, tt)
set_mode-AllInside name mode ((n, m) ∷ modes) i (a, as_) = elim (Bool-cases (same n name)) [
  | inl here ↦ rw here (i, as_)
  | inr other ↦ rw other (a, set_mode-AllInside name mode modes i as_)
]

insert_mode-AllInside :
    (m : Bytes × ℕ) (modes : Modes)
    → IsInside m.0
    → AllInside modes
    → AllInside (insert_mode m modes)
insert_mode-AllInside m [] i a = (i, tt)
insert_mode-AllInside m (n ∷ modes) i (a, as_) = elim (Bool-cases (deeper n.0 m.0)) [
  | inl behind ↦ rw behind (a, insert_mode-AllInside m modes i as_)
  | inr front ↦ rw front (i, (a, as_))
]

sort_modes-AllInside : (modes : Modes) → AllInside modes → AllInside (sort_modes modes)
unfolding sort_modes
sort_modes-AllInside [] a = tt
sort_modes-AllInside (m ∷ modes) (a, as_) =
    insert_mode-AllInside m (sort_modes modes) a (sort_modes-AllInside modes as_)

chmod_all-AllContained :
    (modes : Modes) (h : List Op)
    → AllInside modes
    → AllContained h
    → AllContained (chmod_all modes h)
chmod_all-AllContained [] h a c = c
chmod_all-AllContained ((name, mode) ∷ modes) h (a, as_) c =
    chmod_all-AllContained modes (chmod name (posix_file_mode mode) ∷ h) as_ (a, c)

abbrev IsConfined : State → Type 0
IsConfined s = AllContained s.history × AllInside s.dir_modes

module _ (root : Root)
    (listing : (h : List Op) (d : Bytes) → AllProper (root h (read_names d)).names) where
  with_history-IsConfined :
      (s : State) (d : Done)
      → AllContained d.1
      → AllInside s.dir_modes
      → IsConfined (with_history s d).1
  with_history-IsConfined s (f, h) c a = (c, a)

  with_total-IsConfined :
      (s : State) (d : ℕ × Done)
      → AllContained d.1.1
      → AllInside s.dir_modes
      → IsConfined (with_total s d).1
  with_total-IsConfined s (total, (f, h)) c a = (c, a)

  directory-IsConfined :
      (e : Header) (name : Bytes) (s : State)
      → IsBelow name
      → IsConfined s
      → IsConfined (directory root e name s).1
  directory-IsConfined e name s b (c, a) =
      elim (Option-cases (root s.history (mkdir_all name)).error) [
        | inl ok ↦
            rw (ok, directory)
              ((b, (inr b, c)), set_mode-AllInside name e.mode s.dir_modes (inr b) a)
        | inr (err, bad) ↦ rw (bad, directory) ((inr b, c), a)
      ]

  by_kind-IsConfined :
      (e : Header) (name : Bytes) (limit : ℕ) (s : State) (k : TypeFlag)
      → IsBelow name
      → IsConfined s
      → IsConfined (by_kind root e name limit s k).1
  by_kind-IsConfined e name limit s dir b x = directory-IsConfined e name s b x
  by_kind-IsConfined e name limit s reg b (c, a) =
      with_total-IsConfined s (regular_file root e name limit s.total s.history)
        (regular_file-AllContained root e name limit s.total s.history b c) a
  by_kind-IsConfined e name limit s symlink b (c, a) =
      with_history-IsConfined s (symbolic_link root e name s.history)
        (symbolic_link-AllContained root e name s.history b c) a
  by_kind-IsConfined e name limit s link b (c, a) =
      with_history-IsConfined s (hard_link root e name s.history (archive_name e.linkname))
        (hard_link-AllContained root e name s.history b c) a
  by_kind-IsConfined e name limit s unsupported b x = x

  with_parents-IsConfined :
      (e : Header) (name : Bytes) (limit : ℕ) (s : State)
      → IsBelow name
      → IsConfined s
      → IsConfined (with_parents root e name limit s).1
  with_parents-IsConfined e name limit s b (c, a) =
      let parent = Path.dir name in
      let made = record s { history = mkdir_all parent ∷ s.history } in
      let i = dir-IsInside name b in
      elim (Bool-cases (same parent (codes "."))) [
        | inl top ↦ rw top (by_kind-IsConfined e name limit s e.kind b (c, a))
        | inr deep ↦ elim (Option-cases (root s.history (mkdir_all parent)).error) [
          | inl ok ↦ rw (deep, ok) (by_kind-IsConfined e name limit made e.kind b ((i, c), a))
          | inr (err, bad) ↦ rw (deep, bad) ((i, c), a)
        ]
      ]

  named_entry-IsConfined :
      (e : Header) (limit : ℕ) (s : State) (name : Bytes)
      → IsInside name
      → IsConfined s
      → IsConfined (named_entry root e limit s (named name)).1
  unfolding same
  named_entry-IsConfined e limit s name (inl here) x = rw here x
  named_entry-IsConfined e limit s name (inr b) (c, a) = elim (Bool-cases (same name (codes "."))) [
    | inl itself ↦ rw itself (c, a)
    | inr below ↦ elim (Bool-cases (has_prefix (base name) (codes ".wh."))) [
      | inl deletes ↦
          rw (below, deletes)
            (with_history-IsConfined s (whiteout root e (Path.dir name) (base name) s.history)
              (whiteout-AllContained root listing e (Path.dir name) (base name) s.history
                (dir-IsInside name b) (base-Lacks name b) c)
              a)
      | inr adds ↦ rw (below, adds) (with_parents-IsConfined e name limit s b (c, a))
    ]
  ]

  extract_entry-IsConfined :
      (limit entry_limit : ℕ) (e : Header) (s : State)
      → IsConfined s
      → IsConfined (extract_entry root limit entry_limit e s).1
  unfolding extract_entry
  extract_entry-IsConfined limit entry_limit e s x =
      elim (Bool-cases (ltb entry_limit (s.entries + 1))) [
        | inl over ↦ rw over x
        | inr fits ↦ rw fits (by_name (archive_name e.name) refl)
      ]
    where
      counted : State
      counted = record s { entries = s.entries + 1 }

      by_name :
          (n : Name) → archive_name e.name ≡ n → IsConfined (named_entry root e limit counted n).1
      by_name (refused err) q = x
      by_name (named name) q =
          named_entry-IsConfined e limit counted name (archive_name-IsInside e.name name q) x

  extract_all-AllContained :
      (limit entry_limit : ℕ) (items : List Item) (s : State)
      → IsConfined s
      → AllContained (extract_all root limit entry_limit items s).1.history
  unfolding extract_all apply_dir_modes
  extract_all-AllContained limit entry_limit [] s (c, a) =
      chmod_all-AllContained (sort_modes s.dir_modes) s.history (sort_modes-AllInside s.dir_modes a)
        c
  extract_all-AllContained limit entry_limit (broken ∷ items) s (c, a) = c
  extract_all-AllContained limit entry_limit (entry e ∷ items) s x =
      elim (Option-cases (extract_entry root limit entry_limit e s).0) [
        | inl ok ↦
            rw (ok, extract_all)
              (extract_all-AllContained limit entry_limit items
                (extract_entry root limit entry_limit e s).1
                (extract_entry-IsConfined limit entry_limit e s x))
        | inr (f, fails) ↦
            rw (fails, extract_all) (extract_entry-IsConfined limit entry_limit e s x).0
      ]

-- Whatever the archive holds and the root answers, if the entries of a directory are plain names,
-- each path that the extractor hands to the root is relative, and no element of it is empty or `..`;
-- what it deletes, creates or writes is below the root and never the root itself, a whiteout's
-- deletion included. This also holds of an extraction that fails.
pub extract_tar-AllContained :
    (root : Root) (opened : Option Error) (limit entry_limit : ℕ) (items : List Item)
    → ((h : List Op) (d : Bytes) → AllProper (root h (read_names d)).names)
    → AllContained (extract_tar_ignore_chown root opened limit entry_limit items).1.history
unfolding extract_tar_ignore_chown
extract_tar-AllContained root (some e) limit entry_limit items listing = tt
extract_tar-AllContained root none limit entry_limit items listing =
    extract_all-AllContained root listing limit entry_limit items fresh (tt, tt)
