-- ===== src/Images/Order.antt =====
-- The order of Go strings, sorting by it, and membership of sorted and filtered lists.
use hull.Prelude.{less, In, ◌≡◌, Bool, true, List, [], ◌∷◌, Bytes, if◌then◌else◌, arith}
use hull.Images.Reference.{Image, keep}

module _ {A : Type 0} where
  abbrev pub insert_by : (A → Bytes) → A → List A → List A
  insert_by key x [] = x ∷ []
  insert_by key x (y ∷ ys) =
      let rest = insert_by key x ys in if less (key y) (key x) then y ∷ rest else x ∷ y ∷ ys

  -- `sort.Slice` with `key` as the order, and `sort.Strings` where `key` is the identity.
  unfoldable pub sort_by : (A → Bytes) → List A → List A
  sort_by key [] = []
  sort_by key (x ∷ xs) = insert_by key x (sort_by key xs)

  In-insert_by :
      (key : A → Bytes) (x : A) (a : A) (ys : List A) → In a (insert_by key x ys) → In a (x ∷ ys)
  In-insert_by key x a [] h = h
  In-insert_by key x a (y ∷ ys) h = ground (arith, In-insert_by key x a ys)

  insert_by-In :
      (key : A → Bytes) (x : A) (a : A) (ys : List A) → In a (x ∷ ys) → In a (insert_by key x ys)
  insert_by-In key x a [] h = h
  insert_by-In key x a (y ∷ ys) h = ground (arith, insert_by-In key x a ys)

  pub In-sort_by : (key : A → Bytes) (a : A) (xs : List A) → In a (sort_by key xs) → In a xs
  unfolding sort_by
  In-sort_by key a [] h = h
  In-sort_by key a (x ∷ xs) h =
      ground (arith, In-insert_by key x a (sort_by key xs) h, In-sort_by key a xs)

  pub sort_by-In : (key : A → Bytes) (a : A) (xs : List A) → In a xs → In a (sort_by key xs)
  unfolding sort_by
  sort_by-In key a [] h = h
  sort_by-In key a (x ∷ xs) h =
      insert_by-In key x a (sort_by key xs) (ground (arith, sort_by-In key a xs))

pub In-keep :
    (ok : Image → Bool) (a : Image) (xs : List Image) → In a (keep ok xs) → In a xs × (ok a ≡ true)
unfolding keep
In-keep ok a [] h = absurd h
In-keep ok a (x ∷ xs) h = ground (arith, In-keep ok a xs)

pub keep-In :
    (ok : Image → Bool) (a : Image) (xs : List Image) → In a xs → ok a ≡ true → In a (keep ok xs)
unfolding keep
keep-In ok a [] h k = h
keep-In ok a (x ∷ xs) h k = ground (arith, keep-In ok a xs)
