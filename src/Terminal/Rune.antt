-- ===== src/Terminal/Rune.antt =====
-- `utf8.FullRune` and the size that `utf8.DecodeRune` returns.
use hull.Prelude.{ℕ, Bool, true, false, not, ◌&&◌, [], ◌∷◌, Bytes, if◌then◌else◌, ltb, within}

-- How many bytes a rune takes that begins with `c`, and 1 where no rune does.
pub lead_len : ℕ → ℕ
lead_len c =
    if ltb c 0xc2
    then 1
    else if ltb c 0xe0
    then 2
    else if ltb c 0xf0
    then 3
    else if ltb c 0xf5
    then 4
    else 1

-- The values that the second byte may have, which overlong forms and surrogates narrow.
pub second_ok : ℕ → ℕ → Bool
second_ok c d =
    if within 0xe0 0xe0 c
    then within 0xa0 0xbf d
    else if within 0xed 0xed c
    then within 0x80 0x9f d
    else if within 0xf0 0xf0 c
    then within 0x90 0xbf d
    else if within 0xf4 0xf4 c
    then within 0x80 0x8f d
    else within 0x80 0xbf d

pub continues : ℕ → Bool
continues d = within 0x80 0xbf d

-- Whether a decision about the first rune needs no byte behind these.
unfoldable pub full_rune : Bytes → Bool
unfolding lead_len second_ok continues
full_rune [] = false
full_rune (c ∷ []) = ltb (lead_len c) 2
full_rune (c ∷ d ∷ []) = if ltb (lead_len c) 3 then true else not (second_ok c d)
full_rune (c ∷ d ∷ e ∷ []) =
    if ltb (lead_len c) 4 then true else if not (second_ok c d) then true else not (continues e)
full_rune (c ∷ d ∷ e ∷ g ∷ s) = true

-- An encoding that is not valid has size 1.
unfoldable pub rune_size : Bytes → ℕ
unfolding lead_len second_ok continues
rune_size [] = 0
rune_size (c ∷ []) = 1
rune_size (c ∷ d ∷ []) = if within 2 2 (lead_len c) && second_ok c d then 2 else 1
rune_size (c ∷ d ∷ e ∷ []) =
    if ltb (lead_len c) 2
    then 1
    else if not (second_ok c d)
    then 1
    else if within 2 2 (lead_len c)
    then 2
    else if not (continues e)
    then 1
    else if within 3 3 (lead_len c)
    then 3
    else 1
rune_size (c ∷ d ∷ e ∷ g ∷ s) =
    if ltb (lead_len c) 2
    then 1
    else if not (second_ok c d)
    then 1
    else if within 2 2 (lead_len c)
    then 2
    else if not (continues e)
    then 1
    else if within 3 3 (lead_len c)
    then 3
    else if not (continues g)
    then 1
    else 4
