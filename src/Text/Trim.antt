-- ===== src/Text/Trim.antt =====
-- `strings.TrimSpace`: white space as Unicode has it, over UTF-8.
pub mod Plain
use hull.Prelude.{
  ℕ, zero, suc, Bool, ◌&&◌, ◌||◌, [], ◌∷◌, Bytes, if◌then◌else◌, ◌==◌, within, length, drop,
}
use mathlib.Core.List.{reverse}

-- The ASCII white space: tab, line feed, vertical tab, form feed, carriage return, space.
abbrev is_ascii_space : ℕ → Bool
is_ascii_space c = within 9 13 c || c == 32

-- The third byte of the white space that begins with 0xE2 0x80.
abbrev is_e280_space : ℕ → Bool
is_e280_space c = within 0x80 0x8a c || c == 0xa8 || c == 0xa9 || c == 0xaf

abbrev is_space2 : ℕ → ℕ → Bool
is_space2 a b = a == 0xc2 && (b == 0x85 || b == 0xa0)

abbrev is_space3 : ℕ → ℕ → ℕ → Bool
is_space3 a b c =
    (a == 0xe1 && b == 0x9a && c == 0x80)
    || (a == 0xe2 && ((b == 0x80 && is_e280_space c) || (b == 0x81 && c == 0x9f)))
    || (a == 0xe3 && b == 0x80 && c == 0x80)

-- The bytes of the white space that `s` begins with, 0 where it begins with none.
lead_space : Bytes → ℕ
lead_space [] = 0
lead_space (a ∷ []) = if is_ascii_space a then 1 else 0
lead_space (a ∷ b ∷ []) = if is_ascii_space a then 1 else if is_space2 a b then 2 else 0
lead_space (a ∷ b ∷ c ∷ s) =
    if is_ascii_space a then 1 else if is_space2 a b then 2 else if is_space3 a b c then 3 else 0

-- The same at the end of a text, which is given from its last byte on.
trail_space : Bytes → ℕ
trail_space [] = 0
trail_space (a ∷ []) = if is_ascii_space a then 1 else 0
trail_space (b ∷ a ∷ []) = if is_ascii_space b then 1 else if is_space2 a b then 2 else 0
trail_space (c ∷ b ∷ a ∷ s) =
    if is_ascii_space c then 1 else if is_space2 b c then 2 else if is_space3 a b c then 3 else 0

-- A round drops a byte at least, so the length of the text is fuel enough.
trim_by : (Bytes → ℕ) → ℕ → Bytes → Bytes
trim_by space zero s = s
trim_by space (suc f) s = elim (space s) [ zero ↦ s | suc n ↦ trim_by space f (drop (suc n) s) ]

unfoldable pub trim_space : Bytes → Bytes
unfolding trim_by lead_space trail_space
trim_space s =
    let t = trim_by lead_space (length s) s in reverse (trim_by trail_space (length t) (reverse t))
