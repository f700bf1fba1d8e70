-- ===== src/Terminal/Writer.antt =====
-- `terminalSanitizer.Write` over a sequence of writes.
use hull.Prelude.{
  ◌+◌, ◌≤◌, ◌≡◌, refl, sym, ap, Bool, none, List, [], ◌∷◌, ◌++◌, Bytes, arith, length, drop,
  append_assoc, append-nil, length-drop, ltb, Bool-cases, inl, inr,
}
use hull.Terminal.Sanitize.{
  round, Scan, sanitize_terminal_bytes, max_held_escape, Sanitizer, keep, write,
}
use hull.Terminal.Stream.{sanitize_held, sanitize-append, sanitize-rest_held}

-- What a sanitizer holds between two writes: nothing that could already be judged, and not more
-- than the bound.
pub record HoldsTail (t : Sanitizer) : Type 0 where
  pub undecided : round t.held ≡ none
  pub bounded : length t.held ≤ max_held_escape

round-nil : round [] ≡ none
unfolding round
round-nil = refl

keep-HoldsTail : (rest : Bytes) → round rest ≡ none → HoldsTail (record { held = keep rest })
keep-HoldsTail rest e = elim (Bool-cases (ltb max_held_escape (length rest))) [
  | inl long ↦ rw long (record { undecided = round-nil; bounded = omega arith })
  | inr short ↦ rw short (record { undecided = e; bounded = ground arith })
]

-- Every write, whatever it is given and whatever the writer below it answers, leaves a state that
-- holds at most the bound, and holds only a sequence or rune that is still incomplete.
pub write-HoldsTail :
    (refuses : Bytes → Bool) (t : Sanitizer) (p : Bytes) → HoldsTail (write refuses t p).state
unfolding write
write-HoldsTail refuses t p =
    keep-HoldsTail (drop (sanitize_terminal_bytes (t.held ++ p)).consumed (t.held ++ p))
      (sanitize-rest_held (t.held ++ p))

-- The state after a sequence of writes, and all that they emit.
unfoldable pub write_all : (Bytes → Bool) → Sanitizer → List Bytes → Bytes
write_all refuses t [] = []
write_all refuses t (p ∷ ps) = let w = write refuses t p in w.output ++ write_all refuses w.state ps

-- No write leaves a tail that is longer than the bound.
abbrev pub Fits : (Bytes → Bool) → Sanitizer → List Bytes → Type 0
Fits refuses t [] = Unit
Fits refuses t (p ∷ ps) =
    (length (t.held ++ p) ≤ max_held_escape + (sanitize_terminal_bytes (t.held ++ p)).consumed)
    × Fits refuses (write refuses t p).state ps

abbrev pub joined_text : List Bytes → Bytes
joined_text [] = []
joined_text (p ∷ ps) = p ++ joined_text ps

write-held :
    (refuses : Bytes → Bool) (t : Sanitizer) (p : Bytes)
    → length (t.held ++ p) ≤ max_held_escape + (sanitize_terminal_bytes (t.held ++ p)).consumed
    → (write refuses t p).state.held
      ≡ drop (sanitize_terminal_bytes (t.held ++ p)).consumed (t.held ++ p)
unfolding write
write-held refuses t p h =
    ground (arith, length-drop (sanitize_terminal_bytes (t.held ++ p)).consumed (t.held ++ p))

write-output :
    (refuses : Bytes → Bool) (t : Sanitizer) (p : Bytes)
    → (write refuses t p).output ≡ (sanitize_terminal_bytes (t.held ++ p)).out
unfolding write
write-output refuses t p = refl

-- Where a sequence of writes from a state that holds only an incomplete tail never leaves a tail
-- over the bound, what they emit together is what one scan of all the bytes emits: the boundaries
-- of the writes change nothing.
pub write_all-sanitize :
    (refuses : Bytes → Bool) (t : Sanitizer) (ps : List Bytes)
    → HoldsTail t
    → Fits refuses t ps
    → write_all refuses t ps ≡ (sanitize_terminal_bytes (t.held ++ joined_text ps)).out
unfolding write_all
write_all-sanitize refuses t [] v h =
    rw (append-nil t.held) (rw (sanitize_held t.held v.undecided) refl)
write_all-sanitize refuses t (p ∷ ps) v (fits, h) =
    let ih =
      write_all-sanitize refuses (write refuses t p).state ps (write-HoldsTail refuses t p) h in
    rw ih (
      rw (write-held refuses t p fits) (
        rw (← append_assoc t.held p (joined_text ps)) (
          rw (write-output refuses t p)
            (sym (ap (λ (s : Scan). s.out) (sanitize-append (t.held ++ p) (joined_text ps)))))))
