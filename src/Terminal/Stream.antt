-- ===== src/Terminal/Stream.antt =====
-- The loop of `sanitizeTerminalBytes` against the boundaries of writes.
use hull.Prelude.{
  ℕ, zero, suc, ◌+◌, ◌≤◌, ◌<◌, ◌≡◌, refl, sym, ap, ◌∙◌, Option, none, some, [], ◌∷◌, ◌++◌, Bytes,
  arith, length, drop, append_assoc, take-append_le, drop-append_le, drop-drop, length-drop,
  Option-cases, Bool-cases, inl, inr,
}
use hull.Terminal.Rune.{full_rune, rune_size}
use hull.Terminal.Measure.{c1_introducer, escape_len, escape_len_after_intro}
use hull.Terminal.Sanitize.{
  Round, escape_round, c1_round, rune_round, round, Scan, after, nothing, rounds,
  sanitize_terminal_bytes,
}
use hull.Terminal.Extend.{
  escape_len-append, escape_len_after_intro-append, full_rune-append, rune_size-append,
  escape_len_bounds, escape_len_after_intro_bounds, rune_size_bounds,
}

escape_round-append :
    (b q : Bytes) (o : Option ℕ) (r : Round)
    → ((n : ℕ) → o ≡ some n → n ≤ length b)
    → escape_round b o ≡ some r
    → escape_round (b ++ q) o ≡ some r
escape_round-append b q none r h e = cc
escape_round-append b q (some n) r h e = rw (take-append_le n b q (h n refl)) e

escape_round_extends :
    (b q : Bytes) (r : Round)
    → escape_round b (escape_len b) ≡ some r
    → escape_round (b ++ q) (escape_len (b ++ q)) ≡ some r
escape_round_extends b q r e = elim (Option-cases (escape_len b)) [
  | inl open_end ↦ ground (arith, open_end)
  | inr (n, closed) ↦
      let e' : escape_round b (some n) ≡ some r = rw closed at e in
      rw (escape_len-append b q n closed) (
        escape_round-append b q (some n) r (λ m p. ground (arith, escape_len_bounds b n closed)) e')
]

c1_round_extends :
    (o : Option ℕ) (s q : Bytes) (r : Round) → c1_round o s ≡ some r → c1_round o (s ++ q) ≡ some r
c1_round_extends none s q r e = e
c1_round_extends (some c) s q r e = elim (Option-cases (escape_len_after_intro c s)) [
  | inl open_end ↦ ground (arith, open_end)
  | inr (n, closed) ↦ rw (escape_len_after_intro-append c s q n closed) (rw closed at e)
]

rune_round_extends :
    (c : ℕ) (s q : Bytes) (r : Round)
    → rune_round (c ∷ s) ≡ some r
    → rune_round (c ∷ s ++ q) ≡ some r
rune_round_extends c s q r e = elim (Bool-cases (full_rune (c ∷ s))) [
  | inr short ↦ ground (arith, short)
  | inl full ↦ rw (full_rune-append (c ∷ s) q full) (
      rw (rune_size-append (c ∷ s) q full)
        (rw (take-append_le (rune_size (c ∷ s)) (c ∷ s) q (rune_size_bounds c s).1) (rw full at e)))
]

-- A round that consumes something consumes the same whatever follows.
pub round-append : (b q : Bytes) (r : Round) → round b ≡ some r → round (b ++ q) ≡ some r
unfolding round
round-append [] q r e = cc
round-append (c ∷ s) q r e = ground (
  arith,
  escape_round_extends (c ∷ s) q r,
  c1_round_extends (c1_introducer c) s q r,
  rune_round_extends c s q r,
)

escape_round_bounds :
    (b : Bytes) (r : Round)
    → escape_round b (escape_len b) ≡ some r
    → (1 ≤ r.advance) × (r.advance ≤ length b)
escape_round_bounds b r e = elim (Option-cases (escape_len b)) [
  | inl open_end ↦ ground (arith, open_end)
  | inr (n, closed) ↦ ground (arith, escape_len_bounds b n closed)
]

c1_round_bounds :
    (o : Option ℕ) (s : Bytes) (r : Round)
    → c1_round o s ≡ some r
    → (1 ≤ r.advance) × (r.advance ≤ suc (length s))
c1_round_bounds none s r e = ground arith
c1_round_bounds (some c) s r e = elim (Option-cases (escape_len_after_intro c s)) [
  | inl open_end ↦ ground (arith, open_end)
  | inr (n, closed) ↦ ground (arith, escape_len_after_intro_bounds c s n closed)
]

-- A round advances by at least one byte, and not past the end.
pub round_bounds :
    (b : Bytes) (r : Round) → round b ≡ some r → (1 ≤ r.advance) × (r.advance ≤ length b)
unfolding round
round_bounds [] r e = cc
round_bounds (c ∷ s) r e = ground (
  arith,
  escape_round_bounds (c ∷ s) r,
  c1_round_bounds (c1_introducer c) s r,
  rune_size_bounds c s,
)

rounds_held : (f : ℕ) (b : Bytes) → round b ≡ none → rounds f b ≡ nothing
unfolding rounds
rounds_held zero b e = refl
rounds_held (suc f) b e = rw (e, rounds)

rounds_on :
    (f : ℕ) (b : Bytes) (r : Round)
    → round b ≡ some r
    → rounds (suc f) b ≡ after r (rounds f (drop r.advance b))
unfolding rounds
rounds_on f b r e = rw (e, rounds)

round-empty : round [] ≡ none
unfolding round
round-empty = refl

rounds_fuel_empty : (f : ℕ) → rounds f [] ≡ nothing
rounds_fuel_empty f = rounds_held f [] round-empty

-- Any fuel from the length of the text on gives the same scan.
pub rounds_fuel : (f g : ℕ) (b : Bytes) → length b ≤ f → length b ≤ g → rounds f b ≡ rounds g b
rounds_fuel zero g [] h k = rounds_fuel_empty zero ∙ sym (rounds_fuel_empty g)
rounds_fuel zero g (c ∷ b) h k = absurd (omega arith)
rounds_fuel (suc f) zero [] h k = rounds_fuel_empty (suc f) ∙ sym (rounds_fuel_empty zero)
rounds_fuel (suc f) zero (c ∷ b) h k = absurd (omega arith)
rounds_fuel (suc f) (suc g) b h k = elim (Option-cases (round b)) [
  | inl e ↦ rounds_held (suc f) b e ∙ sym (rounds_held (suc g) b e)
  | inr (r, e) ↦
      let (pos, le) = round_bounds b r e in
      rw (rounds_on f b r e, rounds_on g b r e)
        (ap (after r) (
          rounds_fuel f g (drop r.advance b) (omega (arith, length-drop r.advance b))
            (omega (arith, length-drop r.advance b))))
]

pub sanitize_held : (b : Bytes) → round b ≡ none → sanitize_terminal_bytes b ≡ nothing
unfolding sanitize_terminal_bytes
sanitize_held b e = rounds_held (length b) b e

-- The scan of a text is its first round and the scan of what is left.
pub sanitize_on :
    (b : Bytes) (r : Round)
    → round b ≡ some r
    → sanitize_terminal_bytes b ≡ after r (sanitize_terminal_bytes (drop r.advance b))
unfolding sanitize_terminal_bytes
sanitize_on b r e =
    let (pos, le) = round_bounds b r e in
    rounds_fuel (length b) (suc (length b)) b (omega arith) (omega arith)
    ∙ rounds_on (length b) b r e
    ∙ ap (after r) (
        rounds_fuel (length b) (length (drop r.advance b)) (drop r.advance b)
          (omega (arith, length-drop r.advance b)) (omega arith))

abbrev pub joined : Scan → Scan → Scan
joined s t = record { out = s.out ++ t.out; consumed = s.consumed + t.consumed }

joined-after : (r : Round) (s t : Scan) → after r (joined s t) ≡ joined (after r s) t
joined-after r s t = ground (arith, append_assoc r.emit s.out t.out)

consumed-le : (f : ℕ) (b : Bytes) → (rounds f b).consumed ≤ length b
consumed-le zero b = unfold rounds in omega arith
consumed-le (suc f) b = elim (Option-cases (round b)) [
  | inl e ↦ rw (rounds_held (suc f) b e) (omega arith)
  | inr (r, e) ↦
      rw (rounds_on f b r e) (
        omega
          (arith, round_bounds b r e, consumed-le f (drop r.advance b), length-drop r.advance b))
]

-- The loop never consumes more than it was given.
pub sanitize-consumed_le : (b : Bytes) → (sanitize_terminal_bytes b).consumed ≤ length b
unfolding sanitize_terminal_bytes
sanitize-consumed_le b = consumed-le (length b) b

-- The step of the induction: the rest of the text is shorter, and the claim holds of it.
sanitize-append_on :
    (b q : Bytes) (r : Round)
    → round b ≡ some r
    → sanitize_terminal_bytes (drop r.advance b ++ q)
      ≡ joined (sanitize_terminal_bytes (drop r.advance b)) (
          sanitize_terminal_bytes
            (drop (sanitize_terminal_bytes (drop r.advance b)).consumed (drop r.advance b) ++ q))
    → sanitize_terminal_bytes (b ++ q)
      ≡ joined
          (sanitize_terminal_bytes b)
          (sanitize_terminal_bytes (drop (sanitize_terminal_bytes b).consumed b ++ q))
sanitize-append_on b q r e ih =
    let (pos, le) = round_bounds b r e in
    rw (sanitize_on (b ++ q) r (round-append b q r e)) (
      rw (drop-append_le r.advance b q le) (
        rw ih (
          rw (sanitize_on b r e) (
            rw (drop-drop r.advance (sanitize_terminal_bytes (drop r.advance b)).consumed b)
              (joined-after r _ _)))))

sanitize-append_by :
    (f : ℕ) (b q : Bytes)
    → length b < f
    → sanitize_terminal_bytes (b ++ q)
      ≡ joined
          (sanitize_terminal_bytes b)
          (sanitize_terminal_bytes (drop (sanitize_terminal_bytes b).consumed b ++ q))
sanitize-append_by zero b q h = elim h [ ]
sanitize-append_by (suc f) b q h = elim (Option-cases (round b)) [
  | inl e ↦ rw (sanitize_held b e) (ground arith)
  | inr (r, e) ↦ sanitize-append_on b q r e (
      sanitize-append_by f (drop r.advance b) q
        (omega (arith, round_bounds b r e, length-drop r.advance b)))
]

-- Scanning a text whose end comes later gives what scanning it whole gives, once the tail that was
-- not consumed is scanned again with what comes.
pub sanitize-append :
    (b q : Bytes)
    → sanitize_terminal_bytes (b ++ q)
      ≡ joined
          (sanitize_terminal_bytes b)
          (sanitize_terminal_bytes (drop (sanitize_terminal_bytes b).consumed b ++ q))
sanitize-append b q = sanitize-append_by (suc (length b)) b q (omega arith)

rest-held :
    (f : ℕ) (b : Bytes) → length b < f → round (drop (sanitize_terminal_bytes b).consumed b) ≡ none
rest-held zero b h = elim h [ ]
rest-held (suc f) b h = elim (Option-cases (round b)) [
  | inl e ↦ rw (sanitize_held b e) e
  | inr (r, e) ↦ rw (sanitize_on b r e) (
      rw (← drop-drop r.advance (sanitize_terminal_bytes (drop r.advance b)).consumed b) (
        rest-held f (drop r.advance b)
          (omega (arith, round_bounds b r e, length-drop r.advance b))))
]

-- What the loop leaves is empty or begins with a sequence or a rune that is not complete.
pub sanitize-rest_held : (b : Bytes) → round (drop (sanitize_terminal_bytes b).consumed b) ≡ none
sanitize-rest_held b = rest-held (suc (length b)) b (omega arith)
