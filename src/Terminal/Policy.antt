-- ===== src/Terminal/Policy.antt =====
-- Which complete escape sequences may reach the terminal: `escapeIsSafe`, `csiIsSafe`, `oscIsSafe`
-- and `oscClipboardIsQuery`.
use hull.Prelude.{
  ℕ, Bool, true, false, not, ◌&&◌, ◌||◌, Option, none, some, List, [], ◌∷◌, Bytes, codes,
  if◌then◌else◌, ltb, leb, ◌==◌, within, last, init, same, has_prefix, split, length, drop,
}
use hull.Prelude.Int.{ℤ, pos, negsuc}
use hull.Text.Number.{atoi, itoa}
use hull.Text.Trim.{trim_space}
use hull.Terminal.Measure.{esc, bel, st8, st7}

-- `params`: what is left in front of the trailing intermediate bytes.
unfoldable pub csi_params : Bytes → Bytes
csi_params [] = []
csi_params (c ∷ s) = elim (csi_params s) [
  | [] ↦ if within 0x20 0x2f c then [] else c ∷ []
  | d ∷ t ↦ c ∷ d ∷ t
]

-- `inter`: those intermediate bytes.
unfoldable pub csi_inter : Bytes → Bytes
csi_inter rest = drop (length (csi_params rest)) rest

-- The `switch` over the final byte.
unfoldable pub csi_final_is_safe : ℕ → Bytes → Bytes → Bool
unfolding same has_prefix
csi_final_is_safe final inter params =
    if final == b'c'
    then false
    else if final == b'n'
    then false
    else if final == b'x'
    then not (same inter [])
    else if final == b'q'
    then not (has_prefix params (codes ">"))
    else if final == b'p'
    then not (same inter (codes "$"))
    else if final == b't'
    then same params (codes "22")
      || same params (codes "23")
      || has_prefix params (codes "22;")
      || has_prefix params (codes "23;")
    else true

-- `body` is `seq[2:]`.
unfoldable pub csi_is_safe : Bytes → Bool
unfolding csi_final_is_safe csi_params csi_inter
csi_is_safe [] = false
csi_is_safe (c ∷ s) =
    let body = c ∷ s in
    csi_final_is_safe (last body) (csi_inter (init body)) (csi_params (init body))

abbrev pub last_field : List Bytes → Bytes
last_field [] = []
last_field (f ∷ []) = f
last_field (f ∷ g ∷ fs) = last_field (g ∷ fs)

-- Of an OSC 52, `fields` being the code, the selector and the value.
unfoldable pub osc_clipboard_is_query : List Bytes → Bool
unfolding same trim_space
osc_clipboard_is_query fields =
    let value = trim_space (last_field fields) in
    if ltb (length fields) 3 then true else same value (codes "?") || same value []

abbrev pub osc_queryable_codes : List Bytes
osc_queryable_codes =
    codes "4"
    ∷ codes "5"
    ∷ codes "10"
    ∷ codes "11"
    ∷ codes "12"
    ∷ codes "13"
    ∷ codes "14"
    ∷ codes "15"
    ∷ codes "16"
    ∷ codes "17"
    ∷ codes "18"
    ∷ codes "19"
    ∷ codes "20"
    ∷ codes "21"
    ∷ []

unfoldable pub contains : Bytes → List Bytes → Bool
unfolding same
contains k [] = false
contains k (j ∷ js) = same k j || contains k js

unfoldable pub osc_queryable : ℤ → Bool
unfolding contains itoa
osc_queryable code = contains (itoa code) osc_queryable_codes

-- The text of an OSC in front of its terminator, which is BEL, the 8-bit ST or the 7-bit ST.
unfoldable pub osc_text : Bytes → Option Bytes
osc_text [] = none
osc_text (a ∷ s) =
    let body = a ∷ s in
    if last body == bel || last body == st8
    then some (init body)
    else if leb 2 (length body) && last (init body) == esc && last body == st7
    then some (init (init body))
    else none

-- The `switch` over the code, and the colour query behind it; `rest` is `fields[1:]`.
unfoldable pub osc_code_is_safe : ℤ → List Bytes → List Bytes → Bool
unfolding osc_clipboard_is_query osc_queryable contains
osc_code_is_safe (pos n) fields rest =
    if n == 52
    then not (osc_clipboard_is_query fields)
    else if n == 1337
    then false
    else not (osc_queryable (pos n) && contains (codes "?") rest)
osc_code_is_safe (negsuc n) fields rest =
    not (osc_queryable (negsuc n) && contains (codes "?") rest)

abbrev pub osc_parsed_is_safe : Option ℤ → List Bytes → List Bytes → Bool
osc_parsed_is_safe none fields rest = false
osc_parsed_is_safe (some code) fields rest = osc_code_is_safe code fields rest

unfoldable pub osc_fields_are_safe : List Bytes → Bool
unfolding osc_code_is_safe atoi
osc_fields_are_safe [] = false
osc_fields_are_safe (f ∷ fs) = osc_parsed_is_safe (atoi f) (f ∷ fs) fs

abbrev pub osc_text_is_safe : Option Bytes → Bool
osc_text_is_safe none = false
osc_text_is_safe (some text) = osc_fields_are_safe (split b';' text)

-- `body` is `seq[2:]`.
unfoldable pub osc_is_safe : Bytes → Bool
unfolding osc_text osc_fields_are_safe split
osc_is_safe body = osc_text_is_safe (osc_text body)

-- The checks on the byte behind ESC and on the last byte of the sequence, before the `switch`.
unfoldable pub shape_is_safe : ℕ → ℕ → Bool
shape_is_safe kind final =
    if final == esc
    then false
    else if leb 0x80 kind
    then false
    else if kind == b'%'
    then false
    else if kind == b'[' && not (within 0x40 0x7e final)
    then false
    else not (within 0x20 0x2f kind && not (within 0x30 0x7e final))

unfoldable pub kind_is_safe : ℕ → Bytes → Bool
unfolding csi_is_safe osc_is_safe
kind_is_safe kind body =
    if kind == b'['
    then csi_is_safe body
    else if kind == b']'
    then osc_is_safe body
    else not (
        kind == b'P' || kind == b'X' || kind == b'^' || kind == b'_' || kind == b'Z' || kind == st7)

unfoldable pub escape_is_safe : Bytes → Bool
unfolding shape_is_safe kind_is_safe
escape_is_safe [] = false
escape_is_safe (_ ∷ []) = false
escape_is_safe (_ ∷ kind ∷ body) = shape_is_safe kind (last (kind ∷ body)) && kind_is_safe kind body
