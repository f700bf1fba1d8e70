-- ===== src/Unpack/Inside.antt =====
-- A name that archiveName accepts stays below the root of the image.
use hull.Prelude.{
  ℕ, zero, suc, ◌≡◌, refl, sym, ap, ◌∙◌, ◌⊎◌, inl, inr, Bool, true, false, not, ◌&&◌, ◌||◌, List,
  [], ◌∷◌, ◌++◌, Bytes, arith, ◌==◌, same, split, split_cons, split-append, split-Lacks, all_bytes,
  codes, has_prefix, Lacks, Bool-cases,
}
use mathlib.Core.Path.{subst}
use hull.Unpack.Path.{
  slash, join_fields, is_abs, took, walk, ups_and, or_dot, clean, named, archive_name,
}

-- An element that names a file of the directory it stands in.
abbrev pub is_proper : Bytes → Bool
is_proper c =
    not (same c [] || same c (codes "."))
    && not (same c (codes ".."))
    && all_bytes (λ b. not (b == slash)) c

abbrev pub AllProper : List Bytes → Type 0
AllProper [] = Unit
AllProper (c ∷ cs) = (is_proper c ≡ true) × AllProper cs

-- A path of proper elements, at least one.
abbrev pub IsBelow : Bytes → Type 0
IsBelow s = AllProper (split slash s)

-- The root of the image, or a path below it.
abbrev pub IsInside : Bytes → Type 0
IsInside s = (s ≡ codes ".") ⊎ IsBelow s

-- No field of a split has the separator.
abbrev AllLack : List Bytes → Type 0
AllLack [] = Unit
AllLack (c ∷ cs) = Lacks slash c × AllLack cs

first_joined-AllLack :
    (c : ℕ) (f : Bytes) (fs : List Bytes)
    → (c == slash) ≡ false
    → AllLack (f ∷ fs)
    → AllLack ((c ∷ f) ∷ fs)
unfolding all_bytes
first_joined-AllLack c f fs other (h, hs) = (ground (arith, other, h), hs)

split-AllLack : (s : Bytes) → AllLack (split slash s)
unfolding split all_bytes
split-AllLack [] = (refl, tt)
split-AllLack (c ∷ s) = elim (Bool-cases (c == slash)) [
  | inl here ↦ rw here (refl, split-AllLack s)
  | inr other ↦
      let (f, fs, e) = split_cons slash s in
      rw (other, e) (first_joined-AllLack c f fs other (subst (λ l. AllLack l) e (split-AllLack s)))
]

took-AllProper :
    (c : Bytes) (k : ℕ) (names : List Bytes)
    → is_proper c ≡ true
    → AllProper names
    → AllProper (took c k names).names
took-AllProper c zero names h hs = (h, hs)
took-AllProper c (suc k) names h hs = hs

walk-AllProper : (fields : List Bytes) → AllLack fields → AllProper (walk fields).names
unfolding walk
walk-AllProper [] l = tt
walk-AllProper (c ∷ fields) (l, ls) = elim (Bool-cases (same c [] || same c (codes "."))) [
  | inl skip ↦ rw skip (walk-AllProper fields ls)
  | inr other ↦ elim (Bool-cases (same c (codes ".."))) [
    | inl up ↦ rw (other, up) (walk-AllProper fields ls)
    | inr name ↦
        rw (other, name)
          (took-AllProper c (walk fields).ups (walk fields).names (ground (arith, other, name, l))
            (walk-AllProper fields ls))
  ]
]

pub proper-Lacks : (c : Bytes) → is_proper c ≡ true → Lacks slash c
proper-Lacks c h = ground (arith, h)

pub split-join_fields :
    (f : Bytes) (fs : List Bytes) → AllProper (f ∷ fs) → split slash (join_fields (f ∷ fs)) ≡ f ∷ fs
unfolding join_fields
split-join_fields f [] (h, hs) = split-Lacks slash f (proper-Lacks f h)
split-join_fields f (g ∷ fs) (h, hs) =
    split-append slash f (join_fields (g ∷ fs))
    ∙ (ap (λ l. l ++ split slash (join_fields (g ∷ fs))) (split-Lacks slash f (proper-Lacks f h))
        ∙ ap (λ (l : List Bytes). f ∷ l) (split-join_fields g fs hs))

or_dot-IsInside :
    (s : Bytes) (fs : List Bytes) → split slash s ≡ fs → AllProper fs → IsInside (or_dot s)
or_dot-IsInside [] fs e h = inl refl
or_dot-IsInside (c ∷ s) fs e h = inr (subst (λ l. AllProper l) (sym e) h)

names-IsInside : (names : List Bytes) → AllProper names → IsInside (or_dot (join_fields names))
unfolding join_fields
names-IsInside [] h = inl refl
names-IsInside (f ∷ fs) h =
    or_dot-IsInside (join_fields (f ∷ fs)) (f ∷ fs) (split-join_fields f fs h) h

pub clean_as :
    (s : Bytes)
    → is_abs s ≡ false
    → clean s
      ≡ or_dot (join_fields (ups_and (walk (split slash s)).ups (walk (split slash s)).names))
unfolding clean
clean_as s relative = ground (arith, relative)

pub clean-IsInside :
    (s : Bytes) → is_abs s ≡ false → (walk (split slash s)).ups ≡ 0 → IsInside (clean s)
clean-IsInside s relative none_up =
    let w = walk (split slash s) in
    subst (λ v. IsInside v)
      (sym (clean_as s relative ∙ ap (λ k. or_dot (join_fields (ups_and k w.names))) none_up))
      (names-IsInside w.names (walk-AllProper (split slash s) (split-AllLack s)))

leaves :
    (names : List Bytes)
    → (same (or_dot (join_fields (codes ".." ∷ names))) (codes "..")
        || has_prefix (or_dot (join_fields (codes ".." ∷ names))) (codes "../"))
      ≡ true
unfolding join_fields same has_prefix
leaves [] = refl
leaves (g ∷ names) = refl

clean-leaves :
    (s : Bytes) (k : ℕ)
    → is_abs s ≡ false
    → (walk (split slash s)).ups ≡ suc k
    → (same (clean s) (codes "..") || has_prefix (clean s) (codes "../")) ≡ true
clean-leaves s k relative up =
    let w = walk (split slash s) in
    subst (λ v. (same v (codes "..") || has_prefix v (codes "../")) ≡ true)
      (sym (clean_as s relative ∙ ap (λ n. or_dot (join_fields (ups_and n w.names))) up))
      (leaves (ups_and k w.names))

ℕ-cases : (n : ℕ) → (n ≡ 0) ⊎ ((k : ℕ) × (n ≡ suc k))
ℕ-cases zero = inl refl
ℕ-cases (suc k) = inr (k, refl)

-- A name that archiveName accepts is the root itself, or has no element that is empty, `.` or `..`.
pub archive_name-IsInside :
    (name cleaned : Bytes) → archive_name name ≡ named cleaned → IsInside cleaned
unfolding archive_name
archive_name-IsInside name cleaned h = elim (Bool-cases (is_abs name)) [
  | inl rooted ↦ absurd (ground (arith, h, rooted))
  | inr relative ↦ elim (ℕ-cases (walk (split slash name)).ups) [
    | inr (k, up) ↦ absurd (ground (arith, h, relative, clean-leaves name k relative up))
    | inl none_up ↦
        let same_name : clean name ≡ cleaned = ground (arith, h) in
        subst (λ v. IsInside v) same_name (clean-IsInside name relative none_up)
  ]
]
