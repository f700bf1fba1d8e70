-- ===== src/Terminal/Tests.antt =====
-- Runs of the filter of cmd/hull/termfilter.go, and its theorems at concrete inputs.
use hull.Prelude.{◌≡◌, refl, true, false, some, List, [], ◌∷◌, ◌++◌, Bytes, codes, arith}
use hull.Text.Trim.{trim_space}
use hull.Terminal.Measure.{esc, bel, escape_len}
use hull.Terminal.Policy.{escape_is_safe}
use hull.Terminal.Sanitize.{round, sanitize_terminal_bytes, sanitize_guest_text, Sanitizer, write}
use hull.Terminal.Writer.{HoldsTail, write-HoldsTail, write_all, write_all-sanitize}
use hull.Terminal.Queries.{csi, Solicits}
use hull.Terminal.Refuse.{escape_is_safe-Solicits}
use hull.Terminal.Pieces.{Pieces, sanitize-Pieces}

trims : trim_space (codes "  a b\n") ≡ codes "a b"
unfolding trim_space
trims = refl

trims_unicode : trim_space (0xe2 ∷ 0x80 ∷ 0xa8 ∷ 97 ∷ 0xc2 ∷ 0xa0 ∷ []) ≡ codes "a"
unfolding trim_space
trims_unicode = refl

csi_cut_at_esc : escape_len (esc ∷ b'[' ∷ esc ∷ codes "]52;c;x") ≡ some 2
unfolding escape_len
csi_cut_at_esc = refl

title_is_safe : escape_is_safe (esc ∷ codes "]0;vim" ++ (bel ∷ [])) ≡ true
unfolding escape_is_safe
title_is_safe = refl

clipboard_query_is_dropped :
    sanitize_guest_text (codes "a" ++ esc ∷ codes "]52;c;?" ++ 7 ∷ codes "b") ≡ codes "ab"
unfolding sanitize_guest_text round escape_len escape_is_safe
clipboard_query_is_dropped = refl

control_in_query :
    sanitize_guest_text (esc ∷ codes "]52;c;" ++ 1 ∷ codes "?" ++ 7 ∷ [])
    ≡ esc ∷ codes "]52;c;" ++ 1 ∷ codes "?" ++ 7 ∷ []
unfolding sanitize_guest_text round escape_len escape_is_safe
control_in_query = refl

abbrev idle : Sanitizer
idle = record { held = [] }

idle-HoldsTail : HoldsTail idle
unfolding round
idle-HoldsTail = record { undecided = refl; bounded = omega arith }

-- A cursor position query that two writes split.
abbrev split_query : List Bytes
split_query = (codes "a" ++ esc ∷ codes "[") ∷ codes "6nb" ∷ []

write_all-sanitize_example :
    write_all (λ _. false) idle split_query
    ≡ (sanitize_terminal_bytes (codes "a" ++ esc ∷ codes "[6nb")).out
unfolding write sanitize_terminal_bytes round escape_len escape_is_safe
write_all-sanitize_example =
    write_all-sanitize (λ _. false) idle split_query idle-HoldsTail (omega arith)

write-HoldsTail_example : HoldsTail (write (λ _. true) idle (esc ∷ codes "]0;title")).state
write-HoldsTail_example = write-HoldsTail (λ _. true) idle (esc ∷ codes "]0;title")

sanitize-Pieces_example : Pieces (sanitize_terminal_bytes (codes "x" ++ esc ∷ codes "[31my")).out
sanitize-Pieces_example = sanitize-Pieces (codes "x" ++ esc ∷ codes "[31my")

escape_is_safe-Solicits_example : escape_is_safe (csi (codes "6") b'n') ≡ false
escape_is_safe-Solicits_example =
    escape_is_safe-Solicits (csi (codes "6") b'n') (Solicits.status (codes "6") refl)
