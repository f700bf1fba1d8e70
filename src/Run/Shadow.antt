-- ===== src/Run/Shadow.antt =====
-- A default never shadows what the caller set, in an environment in which the last entry counts.
use hull.Prelude.{
  ◌≡◌, refl, sym, ap, ◌∙◌, inl, inr, Bool, true, false, not, ◌&&◌, Option, none, some, List, [],
  ◌∷◌, ◌++◌, Bytes, arith, if◌then◌else◌, has_prefix, length, drop, Lacks, all_bytes, same, same→eq,
  Option-cases, Bool-cases,
}
use hull.Run.Env.{is_blank, defines, append_env_default}

abbrev pub last_one : Option Bytes → Option Bytes → Option Bytes
last_one earlier none = earlier
last_one earlier (some v) = some v

abbrev pub value_in : Bytes → Bytes → Option Bytes
value_in k entry =
    if has_prefix entry (k ++ b'=' ∷ []) then some (drop (length (k ++ b'=' ∷ [])) entry) else none

-- What the guest's process sees for a key: `exec.Cmd` keeps the last duplicate.
unfoldable pub value_of : Bytes → List Bytes → Option Bytes
value_of k [] = none
value_of k (entry ∷ entries) = last_one (value_in k entry) (value_of k entries)

value_of-snoc :
    (k : Bytes) (entries : List Bytes) (e : Bytes)
    → value_of k (entries ++ e ∷ []) ≡ last_one (value_of k entries) (value_in k e)
unfolding value_of
value_of-snoc k [] e = ground arith
value_of-snoc k (x ∷ entries) e = ground (arith, value_of-snoc k entries e)

undefined_value :
    (k : Bytes) (entries : List Bytes) → defines entries k ≡ false → value_of k entries ≡ none
unfolding value_of defines
undefined_value k [] h = refl
undefined_value k (x ∷ entries) h = ground (arith, undefined_value k entries (ground arith))

some≢none : {A : Type 0} {a : A} → some a ≡ none → ⊥
some≢none e = cc

defined_value :
    (k : Bytes) (entries : List Bytes)
    → defines entries k ≡ true
    → (v : Bytes) × (value_of k entries ≡ some v)
unfolding value_of defines
defined_value k [] h = absurd (ground (arith, h))
defined_value k (x ∷ entries) h = elim (Option-cases (value_of k entries)) [
  | inr (v, e) ↦ (v, rw e refl)
  | inl e ↦ elim (Bool-cases (has_prefix x (k ++ b'=' ∷ []))) [
    | inl here ↦ (drop (length (k ++ b'=' ∷ [])) x, rw (e, here) refl)
    | inr other ↦
        absurd (some≢none (sym (defined_value k entries (ground (arith, h, other))).1 ∙ e))
  ]
]

prefix_other :
    (k key v : Bytes)
    → Lacks b'=' key
    → Lacks b'=' k
    → same k key ≡ false
    → has_prefix (key ++ b'=' ∷ v) (k ++ b'=' ∷ []) ≡ false
unfolding has_prefix same all_bytes
prefix_other [] [] v lk l h = absurd (ground arith)
prefix_other [] (x ∷ key) v lk l h = ground (arith, lk)
prefix_other (y ∷ k) [] v lk l h = ground (arith, l)
prefix_other (y ∷ k) (x ∷ key) v lk l h =
    ground (arith, prefix_other k key v (ground (arith, lk)) (ground (arith, l)))

prefix_same : (key v : Bytes) → has_prefix (key ++ b'=' ∷ v) (key ++ b'=' ∷ []) ≡ true
unfolding has_prefix
prefix_same [] v = ground arith
prefix_same (x ∷ key) v = ground (arith, prefix_same key v)

drop_key : (key v : Bytes) → drop (length (key ++ b'=' ∷ [])) (key ++ b'=' ∷ v) ≡ v
drop_key [] v = refl
drop_key (x ∷ key) v = drop_key key v

value_in_same : (key v : Bytes) → value_in key (key ++ b'=' ∷ v) ≡ some v
value_in_same key v = rw (prefix_same key v, drop_key key v) refl

abbrev pub first_of : Option Bytes → Option Bytes → Option Bytes
first_of none d = d
first_of (some v) d = some v

first_of-none :
    (b : Bool) (o : Option Bytes) (v : Bytes) → o ≡ first_of o (if b && false then some v else none)
first_of-none b o v = ground arith

kept_value :
    (entries : List Bytes) (key k value : Bytes)
    → defines entries key ≡ true
    → value_of k entries
      ≡ first_of (value_of k entries) (if same k key && true then some value else none)
kept_value entries key k value h = elim (Bool-cases (same k key)) [
  | inr other ↦ rw other (first_of-none false (value_of k entries) value)
  | inl equal ↦
      let (v, e) = defined_value key entries h in
      let found : value_of k entries ≡ some v =
        ap (λ j. value_of j entries) (same→eq k key equal) ∙ e in
      rw found refl
]

new_value :
    (entries : List Bytes) (key k value : Bytes)
    → Lacks b'=' key
    → Lacks b'=' k
    → defines entries key ≡ false
    → last_one (value_of k entries) (value_in k (key ++ b'=' ∷ value))
      ≡ first_of (value_of k entries) (if same k key && true then some value else none)
new_value entries key k value lk l h = elim (Bool-cases (same k key)) [
  | inr other ↦
      rw (other, prefix_other k key value lk l other)
        (first_of-none false (value_of k entries) value)
  | inl equal ↦
      let e = same→eq k key equal in
      let absent : value_of k entries ≡ none =
        ap (λ j. value_of j entries) e ∙ undefined_value key entries h in
      let here : value_in k (key ++ b'=' ∷ value) ≡ some value =
        ap (λ j. value_in j (key ++ b'=' ∷ value)) e ∙ value_in_same key value in
      rw (absent, here, equal) refl
]

-- With a default for a key, the guest sees under that key what the entries set, and the default only
-- if they do not set the key and it is not empty; every other key is as before. Keys have no `=`.
pub append_env_default-value_of :
    (entries : List Bytes) (key value k : Bytes)
    → Lacks b'=' key
    → Lacks b'=' k
    → value_of k (append_env_default entries key value)
      ≡ first_of
          (value_of k entries)
          (if same k key && not (is_blank value) then some value else none)
unfolding append_env_default
append_env_default-value_of entries key value k lk l = elim (Bool-cases (is_blank value)) [
  | inl blank ↦ rw blank (first_of-none (same k key) (value_of k entries) value)
  | inr filled ↦ elim (Bool-cases (defines entries key)) [
    | inl defined ↦ rw (filled, defined) (kept_value entries key k value defined)
    | inr undefined ↦
        rw (filled, undefined)
          (value_of-snoc k entries (key ++ b'=' ∷ value)
            ∙ new_value entries key k value lk l undefined)
  ]
]
