-- ===== src/Terminal/Measure.antt =====
-- How long an escape sequence is: `c1Introducer`, `escapeLen`, `stringSeqLen` and
-- `escapeLenAfterIntro`. `none` is `ok == false`: the sequence is not complete yet.
use hull.Prelude.{
  ℕ, ◌+◌, Bool, ◌||◌, Option, none, some, [], ◌∷◌, Bytes, if◌then◌else◌, ◌==◌, within,
}

abbrev pub esc : ℕ
esc = 0x1b

abbrev pub bel : ℕ
bel = 0x07

-- ST in its 8-bit spelling.
abbrev pub st8 : ℕ
st8 = 0x9c

-- The second byte of ST in its 7-bit spelling, a backslash.
abbrev pub st7 : ℕ
st7 = 0x5c

unfoldable pub c1_introducer : ℕ → Option ℕ
c1_introducer c =
    if c == 0x90
    then some b'P'
    else if c == 0x98
    then some b'X'
    else if c == 0x9b
    then some b'['
    else if c == 0x9d
    then some b']'
    else if c == 0x9e
    then some b'^'
    else if c == 0x9f
    then some b'_'
    else none

-- The loop over intermediate bytes from index `i`, and what the byte behind them decides. An ESC is
-- no final byte: the measure stops in front of it.
unfoldable pub intermediates : Bytes → ℕ → Option ℕ
intermediates [] i = none
intermediates (c ∷ s) i =
    if within 0x20 0x2f c
    then intermediates s (i + 1)
    else if c == esc
    then some i
    else some (i + 1)

-- The loop over parameter bytes in front of it.
unfoldable pub parameters : Bytes → ℕ → Option ℕ
parameters [] i = none
parameters (c ∷ s) i = if within 0x30 0x3f c then parameters s (i + 1) else intermediates (c ∷ s) i

-- What an ESC inside a string sequence decides: the end by ST, or a cut in front of it.
abbrev pub string_esc : Bytes → ℕ → Option ℕ
string_esc [] i = none
string_esc (d ∷ s) i = if d == st7 then some (i + 2) else some i

unfoldable pub string_seq_len : Bytes → ℕ → Option ℕ
string_seq_len [] i = none
string_seq_len (c ∷ s) i =
    if c == bel || c == st8
    then some (i + 1)
    else if c == esc
    then string_esc s i
    else string_seq_len s (i + 1)

abbrev pub introduces_string : ℕ → Bool
introduces_string c = c == b']' || c == b'P' || c == b'X' || c == b'^' || c == b'_'

-- The sequence with the byte `c` behind its ESC and `s` behind that.
unfoldable pub escape_len2 : ℕ → Bytes → Option ℕ
unfolding parameters intermediates string_seq_len
escape_len2 c s =
    if c == b'['
    then parameters s 2
    else if introduces_string c
    then string_seq_len s 2
    else if c == esc
    then some 1
    else if within 0x20 0x2f c
    then intermediates s 2
    else some 2

unfoldable pub escape_len : Bytes → Option ℕ
unfolding escape_len2
escape_len [] = none
escape_len (_ ∷ []) = none
escape_len (_ ∷ c ∷ s) = escape_len2 c s

-- The index counts the introducer, which is the byte at 0.
unfoldable pub escape_len_after_intro : ℕ → Bytes → Option ℕ
unfolding parameters intermediates string_seq_len
escape_len_after_intro intro s =
    if intro == b'['
    then parameters s 1
    else if introduces_string intro
    then string_seq_len s 1
    else some 1
