-- ===== src/Terminal/Pieces.antt =====
-- What the filter emits, as a terminal reads it.
use hull.Prelude.{
  ℕ, zero, suc, ◌-◌, ◌≤◌, ◌<◌, ◌≡◌, ◌≢◌, ◌⊎◌, inl, inr, refl, sym, ◌∙◌, true, ◌&&◌, Option, none,
  some, [], ◌∷◌, ◌++◌, Bytes, arith, length, length-take, length-drop, take, drop, ltb, leb, ◌==◌,
  all_bytes, Option-cases, Bool-cases,
}
use hull.Terminal.Rune.{rune_size, continues}
use hull.Terminal.Measure.{esc, c1_introducer, escape_len, escape_len_after_intro}
use hull.Terminal.Policy.{escape_is_safe}
use hull.Terminal.Sanitize.{
  Round, escape_round, c1_round, rune_round, round, sanitize_terminal_bytes,
}
use hull.Terminal.Extend.{escape_len_bounds}
use hull.Terminal.Stream.{sanitize_held, sanitize_on, round_bounds}
use hull.Terminal.Complete.{escape_len_of_safe}
use hull.Terminal.Queries.{Solicits}
use hull.Terminal.Refuse.{escape_is_safe-Solicits}

-- One piece: an ASCII byte other than ESC, a byte that may begin a rune with the continuation bytes
-- behind it, or an escape sequence that is complete by itself and of none of the forms that
-- `Solicits` lists.
pub data Piece (s : Bytes) : Type 0 where
  text : (c : ℕ) → c < 0x80 → c ≢ esc → s ≡ c ∷ [] → Piece s
  rune :
      (c : ℕ) (more : Bytes) → 0xc0 ≤ c → all_bytes continues more ≡ true → s ≡ c ∷ more → Piece s
  sequence :
      (more : Bytes) → s ≡ esc ∷ more → escape_len s ≡ some (length s) → ¬ Solicits s → Piece s

-- A text that is a row of pieces.
pub data Pieces : Bytes → Type 0 where
  done : Pieces []
  next :
      {whole : Bytes} (piece rest : Bytes)
      → Piece piece
      → Pieces rest
      → whole ≡ piece ++ rest
      → Pieces whole

-- What a round emits is nothing or one piece.
abbrev Emits : Bytes → Type 0
Emits s = (s ≡ []) ⊎ Piece s

safe-Piece :
    (m : ℕ) (s : Bytes)
    → escape_len (esc ∷ s) ≡ some (suc m)
    → escape_is_safe (take (suc m) (esc ∷ s)) ≡ true
    → Piece (esc ∷ take m s)
safe-Piece m s h safe =
    let (_, le) = escape_len_bounds (esc ∷ s) (suc m) h in
    let all_in : suc m ≡ length (esc ∷ take m s) = omega (arith, length-take m s) in
    Piece.sequence (take m s) refl (rw (← all_in) (escape_len_of_safe (esc ∷ s) (suc m) h safe))
      (λ p. cc (safe, escape_is_safe-Solicits (esc ∷ take m s) p))

judged_Emits :
    (m : ℕ) (s : Bytes) (r : Round)
    → escape_len (esc ∷ s) ≡ some (suc m)
    → escape_round (esc ∷ s) (some (suc m)) ≡ some r
    → Emits r.emit
judged_Emits m s r h e = elim (Bool-cases (escape_is_safe (esc ∷ take m s))) [
  | inl safe ↦
      let emitted : esc ∷ take m s ≡ r.emit = ground (arith, safe) in
      inr (rw (← emitted) (safe-Piece m s h safe))
  | inr unsafe ↦ inl (ground (arith, unsafe))
]

counted_Emits :
    (n : ℕ) (s : Bytes) (r : Round)
    → escape_len (esc ∷ s) ≡ some n
    → escape_round (esc ∷ s) (some n) ≡ some r
    → Emits r.emit
counted_Emits zero s r h e = absurd (ground (arith, escape_len_bounds (esc ∷ s) zero h))
counted_Emits (suc m) s r h e = judged_Emits m s r h e

escape_round-Emits :
    (s : Bytes) (r : Round) → escape_round (esc ∷ s) (escape_len (esc ∷ s)) ≡ some r → Emits r.emit
escape_round-Emits s r e = elim (Option-cases (escape_len (esc ∷ s))) [
  | inl open_end ↦ absurd (ground (arith, open_end))
  | inr (n, closed) ↦ counted_Emits n s r closed (rw closed at e)
]

take_rune :
    (c : ℕ) (s : Bytes) → take (rune_size (c ∷ s)) (c ∷ s) ≡ c ∷ take (rune_size (c ∷ s) - 1) s
unfolding rune_size
take_rune c [] = refl
take_rune c (d ∷ []) = ground arith
take_rune c (d ∷ e ∷ []) = ground arith
take_rune c (d ∷ e ∷ g ∷ s) = ground arith

rune_continues : (c : ℕ) (s : Bytes) → all_bytes continues (take (rune_size (c ∷ s) - 1) s) ≡ true
unfolding rune_size all_bytes
rune_continues c [] = refl
rune_continues c (d ∷ []) = ground arith
rune_continues c (d ∷ e ∷ []) = ground arith
rune_continues c (d ∷ e ∷ g ∷ s) = ground arith

rune_round-Emits :
    (c : ℕ) (s : Bytes) (r : Round) → 0xc0 ≤ c → rune_round (c ∷ s) ≡ some r → Emits r.emit
rune_round-Emits c s r high h =
    let emitted : take (rune_size (c ∷ s)) (c ∷ s) ≡ r.emit = ground arith in
    inr (
      Piece.rune c (take (rune_size (c ∷ s) - 1) s) high (rune_continues c s)
        (sym emitted ∙ take_rune c s))

c1_round-Emits : (o : Option ℕ) (s : Bytes) (r : Round) → c1_round o s ≡ some r → r.emit ≡ []
c1_round-Emits none s r h = ground arith
c1_round-Emits (some c) s r h = elim (Option-cases (escape_len_after_intro c s)) [
  | inl open_end ↦ ground (arith, open_end)
  | inr (n, closed) ↦ ground (arith, closed)
]

round-Emits : (b : Bytes) (r : Round) → round b ≡ some r → Emits r.emit
unfolding round
round-Emits [] r h = cc
round-Emits (c ∷ s) r h = elim (Bool-cases (c == esc)) [
  | inl is_esc ↦
      let at_esc : c ≡ esc = ground arith in escape_round-Emits s r (rw (← at_esc) (rw is_esc at h))
  | inr not_esc ↦ elim (Bool-cases (leb 0x80 c && ltb c 0xc0)) [
    | inl c1 ↦ inl (c1_round-Emits (c1_introducer c) s r (rw (not_esc, c1) at h))
    | inr not_c1 ↦ elim (Bool-cases (leb 0xc0 c)) [
      | inl high ↦ rune_round-Emits c s r (ground arith) (rw (not_esc, not_c1, high) at h)
      | inr low ↦ inr (Piece.text c (ground arith) (λ e. ground arith) (ground arith))
    ]
  ]
]

after-Pieces : (s rest : Bytes) → Emits s → Pieces rest → Pieces (s ++ rest)
after-Pieces s rest (inl e) p = rw e p
after-Pieces s rest (inr piece) p = Pieces.next s rest piece p refl

sanitize-Pieces_by : (f : ℕ) (b : Bytes) → length b < f → Pieces (sanitize_terminal_bytes b).out
sanitize-Pieces_by zero b h = elim h [ ]
sanitize-Pieces_by (suc f) b h = elim (Option-cases (round b)) [
  | inl e ↦ rw (sanitize_held b e) Pieces.done
  | inr (r, e) ↦ rw (sanitize_on b r e) (
      after-Pieces r.emit (sanitize_terminal_bytes (drop r.advance b)).out (round-Emits b r e) (
        sanitize-Pieces_by f (drop r.advance b)
          (omega (arith, round_bounds b r e, length-drop r.advance b))))
]

-- Whatever the guest prints, what the filter emits is a row of pieces: ASCII bytes other than ESC,
-- bytes that may begin a rune with the continuation bytes behind them, and escape sequences that are
-- complete by themselves and of none of the forms that `Solicits` lists. (That list is not of every
-- query that a terminal may answer: OSC 50 with `?` is none of its forms, nor is OSC 52 with a
-- control in front of the `?`.)
pub sanitize-Pieces : (b : Bytes) → Pieces (sanitize_terminal_bytes b).out
sanitize-Pieces b = sanitize-Pieces_by (suc (length b)) b (omega arith)
