-- ===== src/Unpack/Joined.antt =====
-- The directory of a path inside the image, and what is joined to it, is inside too.
use hull.Prelude.{
  ◌≡◌, ◌≢◌, refl, sym, ap, ◌∙◌, inl, inr, true, false, List, [], ◌∷◌, ◌++◌, Bytes, arith, ◌==◌,
  same, split, split_cons, split-append, split-Lacks, all_bytes, codes, Lacks, Bool-cases,
}
use mathlib.Core.Path.{subst}
use hull.Unpack.Path.{
  slash, join_fields, is_abs, Walk, walk, ups_and, or_dot, clean, up_to_slash, dir, join,
}
use hull.Unpack.Inside.{
  is_proper, AllProper, IsBelow, IsInside, proper-Lacks, split-join_fields, clean_as,
  clean-IsInside,
}

-- Walking proper elements.
walk_proper :
    (fields : List Bytes) → AllProper fields → walk fields ≡ record { ups = 0; names = fields }
unfolding walk
walk_proper [] h = refl
walk_proper (c ∷ fields) (h, hs) = ground (arith, h, walk_proper fields hs)

walk_proper_then :
    (fields rest : List Bytes)
    → AllProper fields
    → (walk rest).ups ≡ 0
    → walk (fields ++ rest) ≡ record { ups = 0; names = fields ++ (walk rest).names }
unfolding walk
walk_proper_then [] rest h none_up = ground (arith, none_up)
walk_proper_then (c ∷ fields) rest (h, hs) none_up =
    ground (arith, h, walk_proper_then fields rest hs none_up)

pub IsBelow-relative : (s : Bytes) → IsBelow s → is_abs s ≡ false
unfolding split is_abs same
IsBelow-relative [] h = refl
IsBelow-relative (c ∷ s) h = elim (Bool-cases (c == slash)) [
  | inl here ↦
      let empty_first : split slash (c ∷ s) ≡ [] ∷ split slash s = ground (arith, here) in
      absurd (ground (arith, (subst (λ l. AllProper l) empty_first h).0))
  | inr other ↦ other
]

abbrev without_last : List Bytes → List Bytes
without_last [] = []
without_last (f ∷ []) = []
without_last (f ∷ g ∷ fs) = f ∷ without_last (g ∷ fs)

without_last-AllProper : (fields : List Bytes) → AllProper fields → AllProper (without_last fields)
without_last-AllProper [] h = tt
without_last-AllProper (f ∷ []) h = tt
without_last-AllProper (f ∷ g ∷ fs) (h, hs) = (h, without_last-AllProper (g ∷ fs) hs)

split-up_to_slash :
    (fields : List Bytes)
    → AllProper fields
    → split slash (up_to_slash fields) ≡ without_last fields ++ [] ∷ []
unfolding split
split-up_to_slash [] h = refl
split-up_to_slash (f ∷ []) h = refl
split-up_to_slash (f ∷ g ∷ fs) (h, hs) =
    split-append slash f (up_to_slash (g ∷ fs))
    ∙ (ap (λ l. l ++ split slash (up_to_slash (g ∷ fs))) (split-Lacks slash f (proper-Lacks f h))
        ∙ ap (λ (l : List Bytes). f ∷ l) (split-up_to_slash (g ∷ fs) hs))

proper_relative : (c s : Bytes) → is_proper c ≡ true → is_abs (c ++ s) ≡ false
unfolding is_abs all_bytes same
proper_relative [] s h = absurd (ground (arith, h))
proper_relative (b ∷ c) s h = ground (arith, h)

up_to_slash_relative :
    (fields : List Bytes) → AllProper fields → is_abs (up_to_slash fields) ≡ false
unfolding is_abs
up_to_slash_relative [] h = refl
up_to_slash_relative (f ∷ []) h = refl
up_to_slash_relative (f ∷ g ∷ fs) (h, hs) = proper_relative f (slash ∷ up_to_slash (g ∷ fs)) h

empty_last : walk ([] ∷ []) ≡ record { ups = 0; names = [] }
unfolding walk same
empty_last = refl

pub dir-IsInside : (s : Bytes) → IsBelow s → IsInside (dir s)
unfolding dir
dir-IsInside s h =
    let fields = split slash s in
    let walked : walk (split slash (up_to_slash fields))
        ≡ record { ups = 0; names = without_last fields ++ [] } =
      ap walk (split-up_to_slash fields h)
      ∙ (walk_proper_then (without_last fields) ([] ∷ []) (without_last-AllProper fields h)
            (ap (λ (w : Walk). w.ups) empty_last)
          ∙ ap (λ (w : Walk). record { ups = 0; names = without_last fields ++ w.names })
              empty_last) in
    clean-IsInside (up_to_slash fields) (up_to_slash_relative fields h)
      (ap (λ (w : Walk). w.ups) walked)

or_dot-IsBelow :
    (s f : Bytes) (fs : List Bytes)
    → split slash s ≡ f ∷ fs
    → AllProper (f ∷ fs)
    → IsBelow (or_dot s)
unfolding split same
or_dot-IsBelow [] f fs e (h, hs) =
    let empty_first : f ≡ [] = ground (arith, e) in
    absurd (ground (arith, subst (λ v. is_proper v ≡ true) empty_first h))
or_dot-IsBelow (c ∷ s) f fs e h = subst (λ l. AllProper l) (sym e) h

AllProper-append : (fs gs : List Bytes) → AllProper fs → AllProper gs → AllProper (fs ++ gs)
AllProper-append [] gs h k = k
AllProper-append (f ∷ fs) gs (h, hs) k = (h, AllProper-append fs gs hs k)

clean-IsBelow :
    (s f : Bytes) (fs : List Bytes)
    → is_abs s ≡ false
    → walk (split slash s) ≡ record { ups = 0; names = f ∷ fs }
    → AllProper (f ∷ fs)
    → IsBelow (clean s)
clean-IsBelow s f fs relative walked h =
    subst (λ v. IsBelow v)
      (sym (
        clean_as s relative
        ∙ ap (λ (w : Walk). or_dot (join_fields (ups_and w.ups w.names))) walked))
      (or_dot-IsBelow (join_fields (f ∷ fs)) f fs (split-join_fields f fs h) h)

dot_first :
    (c : Bytes)
    → is_proper c ≡ true
    → walk (codes "." ∷ c ∷ []) ≡ record { ups = 0; names = c ∷ [] }
unfolding walk same
dot_first c h = ground (arith, h)

dot-Lacks : Lacks slash (codes ".")
unfolding all_bytes
dot-Lacks = refl

split_under_dot : (c : Bytes) → split slash (codes "./" ++ c) ≡ codes "." ∷ split slash c
split_under_dot c =
    split-append slash (codes ".") c
    ∙ ap (λ l. l ++ split slash c) (split-Lacks slash (codes ".") dot-Lacks)

below_nonempty : (f : Bytes) (fs : List Bytes) → split slash [] ≡ f ∷ fs → is_proper f ≢ true
unfolding split same
below_nonempty f fs e h =
    let empty_first : f ≡ [] = ground (arith, e) in
    absurd (ground (arith, subst (λ v. is_proper v ≡ true) empty_first h))

under-IsBelow :
    (d c f : Bytes) (fs : List Bytes)
    → split slash d ≡ f ∷ fs
    → AllProper (f ∷ fs)
    → is_proper c ≡ true
    → is_abs d ≡ false
    → IsBelow (clean (d ++ slash ∷ c))
unfolding is_abs
under-IsBelow [] c f fs e (h, hs) k relative = absurd (below_nonempty f fs e h)
under-IsBelow (b ∷ d) c f fs e (h, hs) k relative =
    let s = (b ∷ d) ++ slash ∷ c in
    let fields : split slash s ≡ f ∷ fs ++ c ∷ [] =
      split-append slash (b ∷ d) c
      ∙ (ap (λ l. l ++ split slash c) e
          ∙ ap (λ l. f ∷ fs ++ l) (split-Lacks slash c (proper-Lacks c k))) in
    let proper = AllProper-append (f ∷ fs) (c ∷ []) (h, hs) (k, tt) in
    clean-IsBelow s f (fs ++ c ∷ []) relative
      (ap walk fields ∙ walk_proper (f ∷ fs ++ c ∷ []) proper) proper

join_under_dot : (c : Bytes) → is_proper c ≡ true → IsBelow (clean (codes "./" ++ c))
unfolding is_abs
join_under_dot c k =
    clean-IsBelow (codes "./" ++ c) c [] refl
      (ap walk (
          split_under_dot c
          ∙ ap (λ (l : List Bytes). codes "." ∷ l) (split-Lacks slash c (proper-Lacks c k)))
        ∙ dot_first c k)
      (k, tt)

join_some : (d c : Bytes) → IsInside d → is_proper c ≡ true → join d c ≡ clean (d ++ slash ∷ c)
unfolding join same split
join_some d [] i k = absurd (ground (arith, k))
join_some [] (b ∷ c) (inl e) k = absurd (ground (arith, e))
join_some [] (b ∷ c) (inr (h, hs)) k = absurd (ground (arith, h))
join_some (a ∷ d) (b ∷ c) i k = refl

-- A proper element joined to a directory of the image is below the root.
pub join-IsBelow : (d c : Bytes) → IsInside d → is_proper c ≡ true → IsBelow (join d c)
join-IsBelow d c i k =
    subst (λ v. IsBelow v) (sym (join_some d c i k))
      (elim i [
        | inl e ↦ subst (λ v. IsBelow (clean (v ++ slash ∷ c))) (sym e) (join_under_dot c k)
        | inr h ↦
            let (f, fs, e) = split_cons slash d in
            under-IsBelow d c f fs e (subst (λ l. AllProper l) e h) k (IsBelow-relative d h)
      ])
