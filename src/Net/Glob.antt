-- ===== src/Net/Glob.antt =====
-- `path.Match`, as the standard library has it: chunk by chunk, where a star takes no slash and the
-- first place at which the chunk behind it matches is kept.
use hull.Prelude.{
  ℕ, zero, suc, ◌+◌, ◌*◌, ◌%◌, ◌≡◌, refl, Bool, true, false, not, ◌&&◌, ◌||◌, Option, none, some,
  [], ◌∷◌, Bytes, if◌then◌else◌, leb, ltb, ◌==◌, length, drop, codes,
}
use hull.Terminal.Rune.{rune_size}

-- The value of the rune at the front, 0xFFFD where the encoding is not valid.
abbrev rune_of : ℕ → Bytes → ℕ
rune_of size [] = 0xfffd
rune_of size (a ∷ []) = if ltb a 0x80 then a else 0xfffd
rune_of size (a ∷ b ∷ []) =
    if ltb a 0x80 then a else if size == 2 then (a % 32) * 64 + b % 64 else 0xfffd
rune_of size (a ∷ b ∷ c ∷ []) =
    if ltb a 0x80
    then a
    else if size == 2
    then (a % 32) * 64 + b % 64
    else if size == 3
    then ((a % 16) * 64 + b % 64) * 64 + c % 64
    else 0xfffd
rune_of size (a ∷ b ∷ c ∷ d ∷ s) =
    if ltb a 0x80
    then a
    else if size == 2
    then (a % 32) * 64 + b % 64
    else if size == 3
    then ((a % 16) * 64 + b % 64) * 64 + c % 64
    else if size == 4
    then (((a % 8) * 64 + b % 64) * 64 + c % 64) * 64 + d % 64
    else 0xfffd

abbrev decode : Bytes → ℕ
decode s = rune_of (rune_size s) s

-- What stands for a rune in a class: the rune and the rest, `none` for a bad pattern.
abbrev escaped : Bytes → Option (ℕ × Bytes)
escaped [] = none
escaped (c ∷ s) =
    let size = rune_size (c ∷ s) in
    let r = decode (c ∷ s) in
    if r == 0xfffd && size == 1
    then none
    else elim (drop size (c ∷ s)) [ [] ↦ none | d ∷ t ↦ some (r, d ∷ t) ]

get_esc : Bytes → Option (ℕ × Bytes)
get_esc [] = none
get_esc (c ∷ s) =
    if c == b'-' || c == b']' then none else if c == b'\\' then escaped s else escaped (c ∷ s)

-- The ranges of a class up to its `]`: whether `r` is in one, and the rest.
abbrev high_end : ℕ → Bytes → Option (ℕ × Bytes)
high_end lo [] = none
high_end lo (c ∷ s) = if c == b'-' then get_esc s else some (lo, c ∷ s)

ranges : ℕ → ℕ → Bool → Bool → Bytes → Option (Bool × Bytes)
ranges zero r some_seen in_one chunk = none
ranges (suc f) r some_seen in_one [] = none
ranges (suc f) r some_seen in_one (c ∷ s) =
    if c == b']' && some_seen then some (in_one, s) else elim (get_esc (c ∷ s)) [
      | none ↦ none
      | some (lo, t) ↦ elim (high_end lo t) [
        | none ↦ none
        | some (hi, u) ↦ ranges f r true (in_one || (leb lo r && leb r hi)) u
      ]
    ]

pub data Chunk : Type 0 where
  bad : Chunk
  missed : Chunk
  matched : Bytes → Chunk

-- The text left to match, `none` once the match has failed: the rest of the chunk is only checked.
abbrev consume : ℕ → Option Bytes → Option Bytes
consume c none = none
consume c (some []) = none
consume c (some (a ∷ s)) = if c == a then some s else none

abbrev any_rune : Option Bytes → Option Bytes
any_rune none = none
any_rune (some []) = none
any_rune (some (a ∷ s)) = if a == b'/' then none else some (drop (rune_size (a ∷ s)) (a ∷ s))

abbrev class_rune : Option Bytes → ℕ
class_rune none = 0
class_rune (some s) = decode s

abbrev class_rest : Bool → Option Bytes → Option Bytes
class_rest ok none = none
class_rest ok (some []) = none
class_rest ok (some (a ∷ s)) = if ok then some (drop (rune_size (a ∷ s)) (a ∷ s)) else none

abbrev differ : Bool → Bool → Bool
differ true b = not b
differ false b = b

abbrev negation : Bytes → Bool × Bytes
negation [] = (false, [])
negation (c ∷ s) = if c == b'^' then (true, s) else (false, c ∷ s)

match_chunk : ℕ → Bytes → Option Bytes → Chunk
match_chunk zero chunk s = bad
match_chunk (suc f) [] none = missed
match_chunk (suc f) [] (some s) = matched s
match_chunk (suc f) (c ∷ chunk) s =
    let plain = match_chunk f chunk (consume c s) in
    let question = match_chunk f chunk (any_rune s) in
    let escape : Chunk = elim chunk [ [] ↦ bad | d ∷ t ↦ match_chunk f t (consume d s) ] in
    let class : Chunk =
      elim (ranges (suc (length chunk)) (class_rune s) false false (negation chunk).1) [
        | none ↦ bad
        | some (in_one, t) ↦ match_chunk f t (class_rest (differ in_one (negation chunk).0) s)
      ] in
    if c == b'['
    then class
    else if c == b'?'
    then question
    else if c == b'\\'
    then escape
    else plain

-- The chunk up to the next star outside of a class, and the rest.
scan_chunk : Bool → Bytes → Bytes × Bytes
scan_chunk in_class [] = ([], [])
scan_chunk in_class (c ∷ []) = if c == b'*' && not in_class then ([], c ∷ []) else (c ∷ [], [])
scan_chunk in_class (c ∷ d ∷ s) =
    let skipped = scan_chunk in_class s in
    let next =
      scan_chunk (if c == b'[' then true else if c == b']' then false else in_class) (d ∷ s) in
    if c == b'\\'
    then (c ∷ d ∷ skipped.0, skipped.1)
    else if c == b'*' && not in_class
    then ([], c ∷ d ∷ s)
    else (c ∷ next.0, next.1)

strip_stars : Bytes → Bool × Bytes
strip_stars [] = (false, [])
strip_stars (c ∷ s) =
    let rest = strip_stars s in if c == b'*' then (true, rest.1) else (false, c ∷ s)

abbrev no_slash : Bytes → Bool
no_slash [] = true
no_slash (c ∷ s) = not (c == b'/') && no_slash s

abbrev is_end : Bytes → Bool
is_end [] = true
is_end (_ ∷ _) = false

-- Where a chunk matches behind a star: the rest, or that it nowhere does.
star_places : Bytes → Bool → Bytes → Chunk
star_places chunk last [] = missed
star_places chunk last (a ∷ s) =
    let later = star_places chunk last s in
    if a == b'/' then missed else elim (match_chunk (suc (length chunk)) chunk (some s)) [
      | bad ↦ bad
      | missed ↦ later
      | matched t ↦ if last && not (is_end t) then later else matched t
    ]

-- The rest of the pattern is checked before a failure is reported.
check_rest : ℕ → Bytes → Option Bool
check_rest zero pattern = some false
check_rest (suc f) [] = some false
check_rest (suc f) (c ∷ pattern) =
    let (chunk, rest) = scan_chunk false (strip_stars (c ∷ pattern)).1 in
    elim (match_chunk (suc (length chunk)) chunk (some [])) [
      | bad ↦ none
      | missed ↦ check_rest f rest
      | matched t ↦ check_rest f rest
    ]

-- A round takes a star or a byte at least, so the length of the pattern is fuel enough. `none` is
-- `ErrBadPattern`.
match_rounds : ℕ → Bytes → Bytes → Option Bool
match_rounds zero pattern name = some (is_end name)
match_rounds (suc f) [] name = some (is_end name)
match_rounds (suc f) (c ∷ pattern) name =
    let (star, behind) = strip_stars (c ∷ pattern) in
    let (chunk, rest) = scan_chunk false behind in
    let fail = check_rest f rest in
    let starred : Option Bool = elim (star_places chunk (is_end rest) name) [
      | bad ↦ none
      | missed ↦ fail
      | matched t ↦ match_rounds f rest t
    ] in
    if star && is_end chunk
    then some (no_slash name)
    else elim (match_chunk (suc (length chunk)) chunk (some name)) [
      | bad ↦ none
      | missed ↦ if star then starred else fail
      | matched t ↦
          let on = match_rounds f rest t in
          if is_end t || not (is_end rest) then on else if star then starred else fail
    ]

unfoldable pub path_match : Bytes → Bytes → Option Bool
unfolding get_esc ranges match_chunk scan_chunk strip_stars star_places check_rest match_rounds
path_match pattern name = match_rounds (suc (length pattern)) pattern name

stars : path_match (codes "*.example.com") (codes "a.b.example.com") ≡ some true
unfolding path_match rune_size
stars = refl

class : path_match (codes "[a-c]?[^x].io") (codes "bzy.io") ≡ some true
unfolding path_match rune_size
class = refl

open_class : path_match (codes "a[b") (codes "zzz") ≡ none
unfolding path_match rune_size
open_class = refl

no_match : path_match (codes "*.example.com") (codes "example.com") ≡ some false
unfolding path_match rune_size
no_match = refl
