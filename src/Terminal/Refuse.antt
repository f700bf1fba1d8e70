-- ===== src/Terminal/Refuse.antt =====
-- Every sequence of a form that `Solicits` lists is refused by `escapeIsSafe`.
use hull.Prelude.{
  ℕ, zero, suc, ◌≤◌, ◌≡◌, inl, inr, refl, sym, ap, ◌∙◌, Bool, true, false, not, ◌&&◌, ◌||◌, some,
  List, [], ◌∷◌, ◌++◌, Bytes, codes, arith, append_assoc, length, length-append, drop, drop_all,
  drop-length, leb, ◌==◌, within, last, last_snoc, init_snoc, same, same→eq, same_refl, has_prefix,
  has_prefix→append, all_bytes, split, Lacks, split-append, split-Lacks, Bool-cases, ==_iff,
}
use hull.Prelude.Int.{ℤ, pos}
use hull.Text.Number.{atoi}
use hull.Terminal.Measure.{esc, bel, st8, st7}
use hull.Terminal.Policy.{
  csi_params, csi_inter, csi_final_is_safe, csi_is_safe, last_field, osc_clipboard_is_query,
  contains, osc_queryable, osc_text, osc_code_is_safe, osc_fields_are_safe, osc_is_safe,
  shape_is_safe, kind_is_safe, escape_is_safe,
}
use hull.Terminal.Queries.{
  IsParams, IsTerminator, by_bel, by_st8, by_st, csi, osc, IsTitleStack, Solicits,
}

refused_by_kind :
    (e kind : ℕ) (body : Bytes)
    → kind_is_safe kind body ≡ false
    → escape_is_safe (e ∷ kind ∷ body) ≡ false
unfolding escape_is_safe
refused_by_kind e kind body h = elim (Bool-cases (shape_is_safe kind (last (kind ∷ body)))) [
  | inl ok ↦ rw ok h
  | inr bad ↦ rw bad
]

csi_is_safe_at :
    (middle : Bytes) (final : ℕ)
    → csi_is_safe (middle ++ final ∷ [])
      ≡ csi_final_is_safe final (csi_inter middle) (csi_params middle)
unfolding csi_is_safe
csi_is_safe_at [] final = refl
csi_is_safe_at (a ∷ m) final = rw (last_snoc (a ∷ m) final, init_snoc (a ∷ m) final)

csi_refused :
    (middle : Bytes) (final : ℕ)
    → csi_final_is_safe final (csi_inter middle) (csi_params middle) ≡ false
    → escape_is_safe (csi middle final) ≡ false
csi_refused middle final h =
    refused_by_kind esc b'[' (middle ++ final ∷ [])
      (unfold kind_is_safe in csi_is_safe_at middle final ∙ h)

csi_params-IsParams : (ps : Bytes) → IsParams ps → csi_params ps ≡ ps
unfolding csi_params all_bytes
csi_params-IsParams [] h = refl
csi_params-IsParams (c ∷ []) h = ground arith
csi_params-IsParams (c ∷ d ∷ ps) h = ground (arith, csi_params-IsParams (d ∷ ps))

csi_params_dollar : (ps : Bytes) → IsParams ps → csi_params (ps ++ b'$' ∷ []) ≡ ps
unfolding csi_params all_bytes
csi_params_dollar [] h = refl
csi_params_dollar (c ∷ []) h = ground arith
csi_params_dollar (c ∷ d ∷ ps) h = ground (arith, csi_params_dollar (d ∷ ps))

csi_params_greater : (ps : Bytes) → has_prefix (csi_params (b'>' ∷ ps)) (codes ">") ≡ true
unfolding csi_params has_prefix
csi_params_greater ps = ground arith

csi_inter-IsParams : (ps : Bytes) → IsParams ps → csi_inter ps ≡ []
unfolding csi_inter
csi_inter-IsParams ps h = rw (csi_params-IsParams ps h) (drop-length ps)

csi_inter_dollar : (ps : Bytes) → IsParams ps → csi_inter (ps ++ b'$' ∷ []) ≡ codes "$"
unfolding csi_inter
csi_inter_dollar ps h = rw (csi_params_dollar ps h) (drop_all ps (b'$' ∷ []))

-- A prefix that ends in the separator is a first field.
prefix_is_field :
    (ps p : Bytes)
    → Lacks b';' p
    → has_prefix ps (p ++ b';' ∷ []) ≡ true
    → (rest : List Bytes) × (split b';' ps ≡ p ∷ rest)
prefix_is_field ps p lacks h =
    let tail = drop (length (p ++ b';' ∷ [])) ps in
    let whole : ps ≡ p ++ b';' ∷ tail =
      has_prefix→append ps (p ++ b';' ∷ []) h ∙ append_assoc p (b';' ∷ []) tail in
    (
      split b';' tail,
      ap (split b';') whole ∙ split-append b';' p tail ∙ rw (split-Lacks b';' p lacks),
    )

field_of_same : (ps p : Bytes) → Lacks b';' p → same ps p ≡ true → split b';' ps ≡ p ∷ []
field_of_same ps p lacks h = rw (same→eq ps p h) (split-Lacks b';' p lacks)

lacks22 : Lacks b';' (codes "22")
unfolding all_bytes
lacks22 = refl

lacks23 : Lacks b';' (codes "23")
unfolding all_bytes
lacks23 = refl

window_refused :
    (inter ps : Bytes)
    → same ps (codes "22") ≡ false
    → same ps (codes "23") ≡ false
    → has_prefix ps (codes "22;") ≡ false
    → has_prefix ps (codes "23;") ≡ false
    → csi_final_is_safe b't' inter ps ≡ false
unfolding csi_final_is_safe
window_refused inter ps a b c d = rw (a, b, c, d)

-- The operations that the policy allows are those of the title stack.
title_stack_only : (inter ps : Bytes) → ¬ IsTitleStack ps → csi_final_is_safe b't' inter ps ≡ false
title_stack_only inter ps h = elim (Bool-cases (same ps (codes "22"))) [
  | inl a ↦ absurd (h ([], inl (field_of_same ps (codes "22") lacks22 a)))
  | inr a ↦ elim (Bool-cases (same ps (codes "23"))) [
    | inl b ↦ absurd (h ([], inr (field_of_same ps (codes "23") lacks23 b)))
    | inr b ↦ elim (Bool-cases (has_prefix ps (codes "22;"))) [
      | inl c ↦
          let (rest, e) = prefix_is_field ps (codes "22") lacks22 c in absurd (h (rest, inl e))
      | inr c ↦ elim (Bool-cases (has_prefix ps (codes "23;"))) [
        | inl d ↦
            let (rest, e) = prefix_is_field ps (codes "23") lacks23 d in absurd (h (rest, inr e))
        | inr d ↦ window_refused inter ps a b c d
      ]
    ]
  ]
]

osc_text_at1 :
    (text : Bytes) (c : ℕ) → (c == bel || c == st8) ≡ true → osc_text (text ++ c ∷ []) ≡ some text
unfolding osc_text
osc_text_at1 [] c h = rw h
osc_text_at1 (a ∷ t) c h = rw (last_snoc (a ∷ t) c, h, init_snoc (a ∷ t) c)

osc_text_st : (text : Bytes) → osc_text ((text ++ esc ∷ []) ++ st7 ∷ []) ≡ some text
unfolding osc_text
osc_text_st [] = refl
osc_text_st (a ∷ t) =
    let front = a ∷ (t ++ esc ∷ []) in
    let longer : leb 2 (length (a ∷ ((t ++ esc ∷ []) ++ st7 ∷ []))) ≡ true =
      ground (arith, length-append (t ++ esc ∷ []) (st7 ∷ [])) in
    rw (
      last_snoc front st7,
      init_snoc front st7,
      last_snoc (a ∷ t) esc,
      init_snoc (a ∷ t) esc,
      longer,
    )

osc_text_at2 : (text : Bytes) → osc_text (text ++ esc ∷ st7 ∷ []) ≡ some text
osc_text_at2 text =
    let e : text ++ esc ∷ st7 ∷ [] ≡ (text ++ esc ∷ []) ++ st7 ∷ [] =
      sym (append_assoc text (esc ∷ []) (st7 ∷ [])) in
    rw e (osc_text_st text)

osc_text_of : (text end : Bytes) → IsTerminator end → osc_text (text ++ end) ≡ some text
osc_text_of text end (by_bel e) = rw e (osc_text_at1 text bel refl)
osc_text_of text end (by_st8 e) = rw e (osc_text_at1 text st8 refl)
osc_text_of text end (by_st e) = rw e (osc_text_at2 text)

osc_split :
    (code text : Bytes)
    → Lacks b';' code
    → split b';' (code ++ b';' ∷ text) ≡ code ∷ split b';' text
osc_split code text h = split-append b';' code text ∙ rw (split-Lacks b';' code h)

osc_body_refused :
    (code text end : Bytes) (z : ℤ)
    → Lacks b';' code
    → atoi code ≡ some z
    → IsTerminator end
    → osc_code_is_safe z (code ∷ split b';' text) (split b';' text) ≡ false
    → kind_is_safe b']' ((code ++ b';' ∷ text) ++ end) ≡ false
unfolding osc_fields_are_safe osc_is_safe kind_is_safe
osc_body_refused code text end z lacks is_code ends h =
    rw (osc_text_of (code ++ b';' ∷ text) end ends) (rw (osc_split code text lacks) (rw is_code h))

-- An OSC is refused where the policy on its fields refuses the code and what follows it.
osc_refused :
    (code text end : Bytes) (z : ℤ)
    → Lacks b';' code
    → atoi code ≡ some z
    → IsTerminator end
    → osc_code_is_safe z (code ∷ split b';' text) (split b';' text) ≡ false
    → escape_is_safe (osc code text end) ≡ false
osc_refused code text end z lacks is_code ends h =
    refused_by_kind esc b']' ((code ++ b';' ∷ text) ++ end)
      (osc_body_refused code text end z lacks is_code ends h)

last_field_snoc : (fs : List Bytes) (f : Bytes) → last_field (fs ++ f ∷ []) ≡ f
last_field_snoc [] f = refl
last_field_snoc (g ∷ []) f = refl
last_field_snoc (g ∷ h ∷ fs) f = last_field_snoc (h ∷ fs) f

query_of_last :
    (fields : List Bytes) → last_field fields ≡ codes "?" → osc_clipboard_is_query fields ≡ true
unfolding osc_clipboard_is_query
query_of_last fields h = rw h (ground arith)

clipboard_refused :
    (code selector : Bytes)
    → osc_code_is_safe
        (pos 52)
        (code ∷ split b';' (selector ++ b';' ∷ codes "?"))
        (split b';' (selector ++ b';' ∷ codes "?"))
      ≡ false
unfolding osc_code_is_safe split
clipboard_refused code selector = rw (
    query_of_last (code ∷ split b';' (selector ++ b';' ∷ codes "?")) (
      ap (λ (l : List Bytes). last_field (code ∷ l)) (split-append b';' selector (codes "?"))
      ∙ last_field_snoc (code ∷ split b';' selector) (codes "?")))

iterm_refused : (fields rest : List Bytes) → osc_code_is_safe (pos 1337) fields rest ≡ false
unfolding osc_code_is_safe
iterm_refused fields rest = refl

contains_middle : (front back : List Bytes) (k : Bytes) → contains k (front ++ k ∷ back) ≡ true
unfolding contains
contains_middle [] back k = rw (same_refl k)
contains_middle (f ∷ front) back k = ground (arith, contains_middle front back k)

holds_up_to : (ℕ → Bool) → ℕ → Bool
holds_up_to ok zero = ok 0
holds_up_to ok (suc m) = holds_up_to ok m && ok (suc m)

holds_up_to-elim : (ok : ℕ → Bool) (m n : ℕ) → holds_up_to ok m ≡ true → n ≤ m → ok n ≡ true
unfolding holds_up_to
holds_up_to-elim ok zero zero h le = h
holds_up_to-elim ok zero (suc n) h le = absurd (omega arith)
holds_up_to-elim ok (suc m) n h le = elim (Bool-cases (n == suc m)) [
  | inl top ↦ rw ((==_iff n (suc m)).0 top) (ground arith)
  | inr less ↦ holds_up_to-elim ok m n (ground arith) (ground arith)
]

abbrev answers_colours : ℕ → Bool
answers_colours n = n == 4 || n == 5 || within 10 21 n

queryable_upto : holds_up_to (λ n. not (answers_colours n) || osc_queryable (pos n)) 21 ≡ true
unfolding holds_up_to osc_queryable
queryable_upto = refl

queryable : (n : ℕ) → answers_colours n ≡ true → osc_queryable (pos n) ≡ true
queryable n h =
    let ok =
      holds_up_to-elim (λ n. not (answers_colours n) || osc_queryable (pos n)) 21 n queryable_upto
        (ground arith) in
    ground (arith, ok)

colour_refused :
    (n : ℕ) (fields rest front back : List Bytes)
    → answers_colours n ≡ true
    → rest ≡ front ++ codes "?" ∷ back
    → osc_code_is_safe (pos n) fields rest ≡ false
unfolding osc_code_is_safe
colour_refused n fields rest front back h e =
    let found : contains (codes "?") rest ≡ true = rw e (contains_middle front back (codes "?")) in
    ground (arith, queryable n h, found)

string_kind_refused :
    (kind : ℕ) (body : Bytes)
    → (kind == b'P' || kind == b'X' || kind == b'^' || kind == b'_') ≡ true
    → kind_is_safe kind body ≡ false
unfolding kind_is_safe
string_kind_refused kind body h = ground arith

c1_refused : (kind : ℕ) (body : Bytes) → 0x80 ≤ kind → escape_is_safe (esc ∷ kind ∷ body) ≡ false
unfolding escape_is_safe
c1_refused kind body h = ground arith

encoding_refused : (body : Bytes) → escape_is_safe (esc ∷ b'%' ∷ body) ≡ false
unfolding escape_is_safe
encoding_refused body = ground arith

final_refused :
    (inter ps : Bytes) (final : ℕ)
    → (final == b'c' || final == b'n') ≡ true
    → csi_final_is_safe final inter ps ≡ false
unfolding csi_final_is_safe
final_refused inter ps final h = ground arith

parameters_refused : (inter ps : Bytes) → inter ≡ [] → csi_final_is_safe b'x' inter ps ≡ false
unfolding csi_final_is_safe
parameters_refused inter ps h = rw h

version_refused :
    (inter ps : Bytes) → has_prefix ps (codes ">") ≡ true → csi_final_is_safe b'q' inter ps ≡ false
unfolding csi_final_is_safe
version_refused inter ps h = rw h

mode_refused : (inter ps : Bytes) → inter ≡ codes "$" → csi_final_is_safe b'p' inter ps ≡ false
unfolding csi_final_is_safe
mode_refused inter ps h = rw h

window_params_refused :
    (ps : Bytes)
    → IsParams ps
    → ¬ IsTitleStack ps
    → csi_final_is_safe b't' (csi_inter ps) (csi_params ps) ≡ false
window_params_refused ps params h =
    rw (csi_params-IsParams ps params) (title_stack_only (csi_inter ps) ps h)

-- A sequence of a form that `Solicits` lists is refused: the control
-- strings DCS, SOS, PM and APC, DECID, an 8-bit control behind ESC, a choice of encoding, device
-- attributes and status, DECREQTPARM, XTVERSION, DECRQM, window operations but for the title stack,
-- an OSC 52 with the value `?`, OSC 1337, and a colour query.
pub escape_is_safe-Solicits : (seq : Bytes) → Solicits seq → escape_is_safe seq ≡ false
escape_is_safe-Solicits seq (Solicits.control_string kind body h e) =
    rw e (refused_by_kind esc kind body (string_kind_refused kind body h))
escape_is_safe-Solicits seq (Solicits.identify e) = rw e (unfold escape_is_safe in refl)
escape_is_safe-Solicits seq (Solicits.c1_control kind body h e) = rw e (c1_refused kind body h)
escape_is_safe-Solicits seq (Solicits.encoding body e) = rw e (encoding_refused body)
escape_is_safe-Solicits seq (Solicits.attributes m e) =
    rw e (csi_refused m b'c' (final_refused (csi_inter m) (csi_params m) b'c' refl))
escape_is_safe-Solicits seq (Solicits.status m e) =
    rw e (csi_refused m b'n' (final_refused (csi_inter m) (csi_params m) b'n' refl))
escape_is_safe-Solicits seq (Solicits.terminal_parameters ps h e) = rw e (
    csi_refused ps b'x'
      (parameters_refused (csi_inter ps) (csi_params ps) (csi_inter-IsParams ps h)))
escape_is_safe-Solicits seq (Solicits.version ps e) = rw e (
    csi_refused (b'>' ∷ ps) b'q'
      (version_refused (csi_inter (b'>' ∷ ps)) (csi_params (b'>' ∷ ps)) (csi_params_greater ps)))
escape_is_safe-Solicits seq (Solicits.mode ps h e) =
    let m = ps ++ b'$' ∷ [] in
    rw e (csi_refused m b'p' (mode_refused (csi_inter m) (csi_params m) (csi_inter_dollar ps h)))
escape_is_safe-Solicits seq (Solicits.window ps params h e) =
    rw e (csi_refused ps b't' (window_params_refused ps params h))
escape_is_safe-Solicits seq (Solicits.clipboard code selector end lacks is_code ends e) = rw e (
    osc_refused code (selector ++ b';' ∷ codes "?") end (pos 52) lacks is_code ends
      (clipboard_refused code selector))
escape_is_safe-Solicits seq (Solicits.iterm code text end lacks is_code ends e) = rw e (
    osc_refused code text end (pos 1337) lacks is_code ends
      (iterm_refused (code ∷ split b';' text) (split b';' text)))
escape_is_safe-Solicits seq
      (Solicits.colour code text end front back n lacks is_code h query ends e) =
    rw e (
      osc_refused code text end (pos n) lacks is_code ends
        (colour_refused n (code ∷ split b';' text) (split b';' text) front back h query))
