-- ===== src/Prelude/Slices.antt =====
-- Go strings and byte slices as lists of byte values, with the tests that the components share.
use Prim.Native.Char.{code}
use Prim.Native.Nat.{ℕ}
use Prim.Native.String.{String}
use mathlib.Core.Path.{◌≡◌, refl, ap}
use mathlib.Core.Logic.{◌↔◌}
use mathlib.Core.Bool.{◌||◌, Bool, true, false, ◌&&◌}
use mathlib.Core.List.{List, [], ◌∷◌, ◌++◌}
use native.Mathlib.Omega.{arith}
use hull.Prelude.Tests.{ltb, ◌==◌, if◌then◌else◌, leb}
use hull.Prelude.Lists.{length, drop}

abbrev pub Bytes : Type 0
Bytes = List ℕ

-- The code points of a text: its bytes, as every literal of the sources is ASCII.
abbrev pub codes : String → Bytes
codes String.[] = []
codes (String.◌∷◌ c s) = code c ∷ codes s

-- `a == b` on strings.
unfoldable pub same : Bytes → Bytes → Bool
same [] [] = true
same [] (_ ∷ _) = false
same (_ ∷ _) [] = false
same (a ∷ s) (b ∷ t) = (a == b) && same s t

pub same→eq : (s t : Bytes) → same s t ≡ true → s ≡ t
unfolding same
same→eq [] [] h = refl
same→eq [] (_ ∷ _) h = cc
same→eq (_ ∷ _) [] h = cc
same→eq (a ∷ s) (b ∷ t) h = ground (arith, same→eq s t)

pub same_refl : (s : Bytes) → same s s ≡ true
unfolding same
same_refl [] = refl
same_refl (a ∷ s) = ground (arith, same_refl s)

pub same_iff : (s t : Bytes) → (same s t ≡ true) ↔ (s ≡ t)
same_iff s t = (same→eq s t, λ e. rw (← e) (same_refl s))

-- `strings.HasPrefix(s, p)`.
unfoldable pub has_prefix : Bytes → Bytes → Bool
has_prefix s [] = true
has_prefix [] (_ ∷ _) = false
has_prefix (a ∷ s) (b ∷ p) = (a == b) && has_prefix s p

pub has_prefix-append : (p s : Bytes) → has_prefix (p ++ s) p ≡ true
unfolding has_prefix
has_prefix-append [] s = refl
has_prefix-append (a ∷ p) s = ground (arith, has_prefix-append p s)

pub has_prefix→append : (s p : Bytes) → has_prefix s p ≡ true → s ≡ p ++ drop (length p) s
unfolding has_prefix
has_prefix→append s [] h = refl
has_prefix→append [] (b ∷ p) h = cc
has_prefix→append (a ∷ s) (b ∷ p) h = ground (arith, has_prefix→append s p)

-- `s[len(s)-1]` and `s[:len(s)-1]`; the first is 0 where Go would panic.
abbrev pub last : Bytes → ℕ
last [] = 0
last (a ∷ []) = a
last (a ∷ b ∷ s) = last (b ∷ s)

abbrev pub init : Bytes → Bytes
init [] = []
init (a ∷ []) = []
init (a ∷ b ∷ s) = a ∷ init (b ∷ s)

pub last_snoc : (s : Bytes) (a : ℕ) → last (s ++ a ∷ []) ≡ a
last_snoc [] a = refl
last_snoc (b ∷ []) a = refl
last_snoc (b ∷ c ∷ s) a = last_snoc (c ∷ s) a

pub init_snoc : (s : Bytes) (a : ℕ) → init (s ++ a ∷ []) ≡ s
init_snoc [] a = refl
init_snoc (b ∷ []) a = refl
init_snoc (b ∷ c ∷ s) a = ap (◌∷◌ b) (init_snoc (c ∷ s) a)

-- `lo <= c && c <= hi`.
abbrev pub within : ℕ → ℕ → ℕ → Bool
within first final byte = leb first byte && leb byte final

-- `strings.Split(s, string(sep))` for a one-byte separator: never empty.
abbrev pub first_joined : ℕ → List Bytes → List Bytes
first_joined c [] = (c ∷ []) ∷ []
first_joined c (f ∷ fs) = (c ∷ f) ∷ fs

unfoldable pub split : ℕ → Bytes → List Bytes
split sep [] = [] ∷ []
split sep (c ∷ s) = if c == sep then [] ∷ split sep s else first_joined c (split sep s)

-- `strings.Cut(s, string(sep))` for a one-byte separator.
pub record Cut : Type 0 where
  pub before : Bytes
  pub after : Bytes
  pub found : Bool

unfoldable pub cut : ℕ → Bytes → Cut
cut sep [] = record { before = []; after = []; found = false }
cut sep (c ∷ s) =
    let rest = cut sep s in
    if c == sep
    then record { before = []; after = s; found = true }
    else record rest { before = c ∷ rest.before }

-- `a < b` on strings.
unfoldable pub less : Bytes → Bytes → Bool
less s [] = false
less [] (_ ∷ _) = true
less (a ∷ s) (b ∷ t) = ltb a b || (a == b && less s t)

-- Every byte of the text is one that `ok` admits.
unfoldable pub all_bytes : (ℕ → Bool) → Bytes → Bool
all_bytes ok [] = true
all_bytes ok (c ∷ s) = ok c && all_bytes ok s

pub all_bytes-append :
    (ok : ℕ → Bool) (s t : Bytes)
    → all_bytes ok s ≡ true
    → all_bytes ok t ≡ true
    → all_bytes ok (s ++ t) ≡ true
unfolding all_bytes
all_bytes-append ok [] t h k = k
all_bytes-append ok (c ∷ s) t h k = ground (arith, all_bytes-append ok s t)
