-- ===== src/Text/Trim/Plain.antt =====
-- A text of visible ASCII is left as it is by `TrimSpace`.
use hull.Prelude.{
  ℕ, zero, suc, ◌≡◌, refl, Bool, true, [], ◌∷◌, Bytes, arith, within, length, all_bytes,
  all_bytes-append,
}
use mathlib.Core.List.{reverse, reverse-cons, reverse-reverse}
use hull.Text.Trim.{lead_space, trail_space, trim_by, trim_space}

abbrev pub is_visible : ℕ → Bool
is_visible c = within 0x21 0x7e c

all_bytes-reverse :
    (ok : ℕ → Bool) (s : Bytes) → all_bytes ok s ≡ true → all_bytes ok (reverse s) ≡ true
unfolding all_bytes
all_bytes-reverse ok [] h = refl
all_bytes-reverse ok (c ∷ s) h = rw (reverse-cons c s) (
    all_bytes-append ok (reverse s) (c ∷ []) (all_bytes-reverse ok s (ground arith)) (ground arith))

lead_space_visible : (s : Bytes) → all_bytes is_visible s ≡ true → lead_space s ≡ 0
unfolding lead_space all_bytes
lead_space_visible [] h = refl
lead_space_visible (a ∷ []) h = ground arith
lead_space_visible (a ∷ b ∷ []) h = ground arith
lead_space_visible (a ∷ b ∷ c ∷ s) h = ground arith

trail_space_visible : (s : Bytes) → all_bytes is_visible s ≡ true → trail_space s ≡ 0
unfolding trail_space all_bytes
trail_space_visible [] h = refl
trail_space_visible (a ∷ []) h = ground arith
trail_space_visible (b ∷ a ∷ []) h = ground arith
trail_space_visible (c ∷ b ∷ a ∷ s) h = ground arith

trim_by_none : (space : Bytes → ℕ) (f : ℕ) (s : Bytes) → space s ≡ 0 → trim_by space f s ≡ s
unfolding trim_by
trim_by_none space zero s h = refl
trim_by_none space (suc f) s h = rw (h, trim_by)

pub trim_space_visible : (s : Bytes) → all_bytes is_visible s ≡ true → trim_space s ≡ s
unfolding trim_space
trim_space_visible s h = rw (trim_by_none lead_space (length s) s (lead_space_visible s h)) (
    rw
      (trim_by_none trail_space (length s) (reverse s)
        (trail_space_visible (reverse s) (all_bytes-reverse is_visible s h)))
      (reverse-reverse s))
