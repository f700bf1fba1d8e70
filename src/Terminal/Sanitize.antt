-- ===== src/Terminal/Sanitize.antt =====
-- `sanitizeTerminalBytes`, `sanitizeGuestText` and `terminalSanitizer.Write`.
use hull.Prelude.{
  ℕ, zero, suc, ◌+◌, Bool, ◌&&◌, Option, none, some, [], ◌∷◌, ◌++◌, Bytes, if◌then◌else◌, ltb, leb,
  ◌==◌, length, take, drop,
}
use hull.Terminal.Rune.{full_rune, rune_size}
use hull.Terminal.Measure.{esc, c1_introducer, escape_len, escape_len_after_intro}
use hull.Terminal.Policy.{escape_is_safe}

-- One round of the loop: what it appends to `out`, and by how much it advances `i`.
pub record Round : Type 0 where
  pub emit : Bytes
  pub advance : ℕ

-- The case `c == 0x1b`.
abbrev pub escape_round : Bytes → Option ℕ → Option Round
escape_round b none = none
escape_round b (some n) =
    some (record { emit = if escape_is_safe (take n b) then take n b else []; advance = n })

-- The case of an eight-bit control or a stray continuation byte, behind which `s` stands. It emits nothing.
abbrev pub skip : Option ℕ → Option Round
skip none = none
skip (some n) = some (record { emit = []; advance = n })

abbrev pub c1_round : Option ℕ → Bytes → Option Round
c1_round none s = skip (some 1)
c1_round (some equiv) s = skip (escape_len_after_intro equiv s)

-- The case of a byte that may begin a rune.
abbrev pub rune_round : Bytes → Option Round
rune_round b =
    if full_rune b
    then some (record { emit = take (rune_size b) b; advance = rune_size b })
    else none

-- `none` is the early return, with the rest of the text not consumed.
unfoldable pub round : Bytes → Option Round
round [] = none
round (c ∷ s) =
    if c == esc
    then escape_round (c ∷ s) (escape_len (c ∷ s))
    else if leb 0x80 c && ltb c 0xc0
    then c1_round (c1_introducer c) s
    else if leb 0xc0 c
    then rune_round (c ∷ s)
    else some (record { emit = c ∷ []; advance = 1 })

pub record Scan : Type 0 where
  pub out : Bytes
  pub consumed : ℕ

abbrev pub after : Round → Scan → Scan
after r rest = record { out = r.emit ++ rest.out; consumed = r.advance + rest.consumed }

abbrev pub nothing : Scan
nothing = record { out = []; consumed = 0 }

-- The loop over `b[i:]`. Each round consumes a byte at least, so the length of the text is fuel
-- enough; at the end of the text `round` returns `none`.
unfoldable pub rounds : ℕ → Bytes → Scan
rounds zero b = nothing
rounds (suc f) b = elim (round b) [
  | none ↦ nothing
  | some r ↦ after r (rounds f (drop r.advance b))
]

unfoldable pub sanitize_terminal_bytes : Bytes → Scan
unfolding rounds
sanitize_terminal_bytes b = rounds (length b) b

-- What is not consumed at the end is dropped.
unfoldable pub sanitize_guest_text : Bytes → Bytes
unfolding sanitize_terminal_bytes
sanitize_guest_text s = (sanitize_terminal_bytes s).out

abbrev pub max_held_escape : ℕ
max_held_escape = 4096

-- The writer's state is `held`.
pub record Sanitizer : Type 0 where
  pub held : Bytes

-- The count that `Write` returns, or the error of the writer below it.
pub data WriteResult : Type 0 where
  wrote : ℕ → WriteResult
  failed : WriteResult

pub record Written : Type 0 where
  pub state : Sanitizer
  pub output : Bytes
  pub result : WriteResult

-- An overlong tail is dropped.
abbrev pub keep : Bytes → Bytes
keep rest = if ltb max_held_escape (length rest) then [] else rest

-- `refuses out` says that the writer below fails on `out`; it is not called on an empty text.
unfoldable pub write : (Bytes → Bool) → Sanitizer → Bytes → Written
unfolding sanitize_terminal_bytes
write refuses t p =
    let buf = t.held ++ p in
    let scan = sanitize_terminal_bytes buf in
    record {
      state = record { held = keep (drop scan.consumed buf) };
      output = scan.out;
      result = if ltb 0 (length scan.out) && refuses scan.out then failed else wrote (length p);
    }
