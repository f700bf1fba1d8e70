-- ===== src/Terminal/Queries.antt =====
-- The forms of sequences that the policy note of termfilter.go names, by which a program makes a
-- terminal answer into its input, as byte patterns with no parser in them.
use hull.Prelude.{
  ℕ, ◌≤◌, ◌≡◌, ◌⊎◌, true, ◌||◌, some, List, [], ◌∷◌, ◌++◌, Bytes, codes, ◌==◌, within, all_bytes,
  split, Lacks,
}
use hull.Prelude.Int.{pos}
use hull.Text.Number.{atoi}
use hull.Terminal.Measure.{esc, bel, st8, st7}

-- The parameter bytes of a CSI.
abbrev pub IsParams : Bytes → Type 0
IsParams ps = all_bytes (within 0x30 0x3f) ps ≡ true

-- BEL or ST, which ends an OSC.
pub data IsTerminator (end : Bytes) : Type 0 where
  by_bel : end ≡ bel ∷ [] → IsTerminator end
  by_st8 : end ≡ st8 ∷ [] → IsTerminator end
  by_st : end ≡ esc ∷ st7 ∷ [] → IsTerminator end

-- A CSI with the given bytes between its introducer and its final byte.
abbrev pub csi : Bytes → ℕ → Bytes
csi middle final = esc ∷ b'[' ∷ (middle ++ final ∷ [])

-- An OSC with the given code, and the given text behind it.
abbrev pub osc : Bytes → Bytes → Bytes → Bytes
osc code text end = esc ∷ b']' ∷ ((code ++ b';' ∷ text) ++ end)

-- The window operations that push and pop the title stack: the first parameter is 22 or 23.
abbrev pub IsTitleStack : Bytes → Type 0
IsTitleStack ps =
    (rest : List Bytes) × ((split b';' ps ≡ codes "22" ∷ rest)
      ⊎ (split b';' ps ≡ codes "23" ∷ rest))

-- The forms that are listed here, and no other query that some terminal may answer.
pub data Solicits (seq : Bytes) : Type 0 where
  -- DCS, SOS, PM and APC.
  control_string :
      (kind : ℕ) (body : Bytes)
      → (kind == b'P' || kind == b'X' || kind == b'^' || kind == b'_') ≡ true
      → seq ≡ esc ∷ kind ∷ body
      → Solicits seq
  -- DECID.
  identify : seq ≡ esc ∷ b'Z' ∷ [] → Solicits seq
  -- An 8-bit control in the place of the byte behind ESC.
  c1_control : (kind : ℕ) (body : Bytes) → 0x80 ≤ kind → seq ≡ esc ∷ kind ∷ body → Solicits seq
  -- The choice of an encoding other than UTF-8.
  encoding : (body : Bytes) → seq ≡ esc ∷ b'%' ∷ body → Solicits seq
  -- DA, in all its forms.
  attributes : (middle : Bytes) → seq ≡ csi middle b'c' → Solicits seq
  -- DSR, the cursor position report included.
  status : (middle : Bytes) → seq ≡ csi middle b'n' → Solicits seq
  -- DECREQTPARM.
  terminal_parameters : (ps : Bytes) → IsParams ps → seq ≡ csi ps b'x' → Solicits seq
  -- XTVERSION.
  version : (ps : Bytes) → seq ≡ csi (b'>' ∷ ps) b'q' → Solicits seq
  -- DECRQM.
  mode : (ps : Bytes) → IsParams ps → seq ≡ csi (ps ++ b'$' ∷ []) b'p' → Solicits seq
  -- The window operations but for the title stack.
  window : (ps : Bytes) → IsParams ps → ¬ IsTitleStack ps → seq ≡ csi ps b't' → Solicits seq
  -- OSC 52 with the value `?`, for any selector.
  clipboard :
      (code selector end : Bytes)
      → Lacks b';' code
      → atoi code ≡ some (pos 52)
      → IsTerminator end
      → seq ≡ osc code (selector ++ b';' ∷ codes "?") end
      → Solicits seq
  -- OSC 1337.
  iterm :
      (code text end : Bytes)
      → Lacks b';' code
      → atoi code ≡ some (pos 1337)
      → IsTerminator end
      → seq ≡ osc code text end
      → Solicits seq
  -- A colour query: the field `?` at any place behind the code.
  colour :
      (code text end : Bytes) (front back : List Bytes) (n : ℕ)
      → Lacks b';' code
      → atoi code ≡ some (pos n)
      → (n == 4 || n == 5 || within 10 21 n) ≡ true
      → split b';' text ≡ front ++ codes "?" ∷ back
      → IsTerminator end
      → seq ≡ osc code text end
      → Solicits seq
