-- ===== src/Terminal/Complete.antt =====
-- A sequence that the policy lets through ends in a final byte or a terminator of its own.
use hull.Prelude.{
  ℕ, zero, suc, ◌+◌, ◌≡◌, ◌⊎◌, refl, Bool, true, false, not, ◌||◌, Option, none, some, [], ◌∷◌,
  Bytes, arith, take, ◌==◌, within, last, init, all_bytes, Bool-cases, inl, inr,
}
use hull.Terminal.Measure.{
  esc, bel, st8, st7, intermediates, parameters, string_esc, introduces_string, string_seq_len,
  escape_len, escape_len2,
}
use hull.Terminal.Policy.{escape_is_safe, osc_text, osc_text_is_safe}

-- The measure ended within the first `k` bytes by its own end, or stopped in front of an ESC with
-- only bytes that `ok` admits before it.
abbrev Ends : (Bytes → ℕ → Option ℕ) → (ℕ → Bool) → Bytes → ℕ → ℕ → Type 0
Ends measure ok s i n =
    (k : ℕ) × (n ≡ i + k) × ((measure (take k s) i ≡ some n) ⊎ (all_bytes ok (take k s) ≡ true))

abbrev is_inter : ℕ → Bool
is_inter c = within 0x20 0x2f c

abbrev is_csi_body : ℕ → Bool
is_csi_body c = within 0x20 0x3f c

abbrev is_string_body : ℕ → Bool
is_string_body c = not (c == bel || c == st8 || c == esc)

intermediates-Ends :
    (s : Bytes) (i n : ℕ) → intermediates s i ≡ some n → Ends intermediates is_inter s i n
unfolding intermediates all_bytes
intermediates-Ends [] i n h = cc
intermediates-Ends (c ∷ s) i n h = elim (Bool-cases (within 0x20 0x2f c)) [
  | inl yes_inter ↦
      let (k, e, ends) = intermediates-Ends s (i + 1) n (rw yes_inter at h) in
      (suc k, omega arith, ground arith)
  | inr no_inter ↦ elim (Bool-cases (c == esc)) [
    | inl is_esc ↦ (0, ground arith, inr refl)
    | inr not_esc ↦ (1, ground arith, inl (ground arith))
  ]
]

all_bytes_wider : (s : Bytes) → all_bytes is_inter s ≡ true → all_bytes is_csi_body s ≡ true
unfolding all_bytes
all_bytes_wider [] h = refl
all_bytes_wider (c ∷ s) h = ground (arith, all_bytes_wider s)

parameters_from :
    (k c : ℕ) (s : Bytes) (i n : ℕ)
    → within 0x30 0x3f c ≡ false
    → (intermediates (take k (c ∷ s)) i ≡ some n) ⊎ (all_bytes is_inter (take k (c ∷ s)) ≡ true)
    → (parameters (take k (c ∷ s)) i ≡ some n) ⊎ (all_bytes is_csi_body (take k (c ∷ s)) ≡ true)
unfolding parameters
parameters_from zero c s i n other ends = inr (unfold all_bytes in refl)
parameters_from (suc k) c s i n other (inl e) = inl (rw other e)
parameters_from (suc k) c s i n other (inr a) = inr (all_bytes_wider (c ∷ take k s) a)

parameters-Ends :
    (s : Bytes) (i n : ℕ) → parameters s i ≡ some n → Ends parameters is_csi_body s i n
unfolding parameters all_bytes
parameters-Ends [] i n h = cc
parameters-Ends (c ∷ s) i n h = elim (Bool-cases (within 0x30 0x3f c)) [
  | inl param ↦
      let (k, e, ends) = parameters-Ends s (i + 1) n (rw param at h) in
      (suc k, omega arith, ground arith)
  | inr other ↦
      let (k, e, ends) = intermediates-Ends (c ∷ s) i n (rw other at h) in
      (k, e, parameters_from k c s i n other ends)
]

string_esc-Ends :
    (c : ℕ) (s : Bytes) (i n : ℕ)
    → (c == esc) ≡ true
    → string_esc s i ≡ some n
    → Ends string_seq_len is_string_body (c ∷ s) i n
unfolding string_seq_len all_bytes
string_esc-Ends c [] i n is_esc h = cc
string_esc-Ends c (d ∷ s) i n is_esc h = elim (Bool-cases (d == st7)) [
  | inl closes ↦ (2, ground arith, inl (ground arith))
  | inr other ↦ (0, ground arith, inr refl)
]

string_seq_len-Ends :
    (s : Bytes) (i n : ℕ) → string_seq_len s i ≡ some n → Ends string_seq_len is_string_body s i n
unfolding string_seq_len all_bytes
string_seq_len-Ends [] i n h = cc
string_seq_len-Ends (c ∷ s) i n h = elim (Bool-cases (c == bel || c == st8)) [
  | inl closes ↦ (1, ground arith, inl (ground arith))
  | inr body ↦ elim (Bool-cases (c == esc)) [
    | inl is_esc ↦ string_esc-Ends c s i n is_esc (ground arith)
    | inr not_esc ↦
        let (k, e, ends) = string_seq_len-Ends s (i + 1) n (ground arith) in
        (suc k, omega arith, ground arith)
  ]
]

last_of_all :
    (ok : ℕ → Bool) (a : ℕ) (s : Bytes)
    → ok a ≡ true
    → all_bytes ok s ≡ true
    → ok (last (a ∷ s)) ≡ true
unfolding all_bytes
last_of_all ok a [] h k = h
last_of_all ok a (b ∷ s) h k = last_of_all ok b s (ground arith) (ground arith)

-- A fragment that stopped in front of an ESC has no final byte, and the policy refuses it.
csi_fragment_unsafe :
    (e : ℕ) (s : Bytes) → all_bytes is_csi_body s ≡ true → escape_is_safe (e ∷ b'[' ∷ s) ≡ false
unfolding escape_is_safe
csi_fragment_unsafe e [] h = refl
csi_fragment_unsafe e (c ∷ s) h = ground (
  arith,
  last_of_all is_csi_body c s (unfold all_bytes in ground arith) (unfold all_bytes in ground arith),
)

intermediate_fragment_unsafe :
    (e c : ℕ) (s : Bytes)
    → is_inter c ≡ true
    → all_bytes is_inter s ≡ true
    → escape_is_safe (e ∷ c ∷ s) ≡ false
unfolding escape_is_safe
intermediate_fragment_unsafe e c s k h = ground (arith, last_of_all is_inter c s k h)

all_bytes-init : (ok : ℕ → Bool) (s : Bytes) → all_bytes ok s ≡ true → all_bytes ok (init s) ≡ true
unfolding all_bytes
all_bytes-init ok [] h = refl
all_bytes-init ok (a ∷ []) h = refl
all_bytes-init ok (a ∷ b ∷ s) h = ground (arith, all_bytes-init ok (b ∷ s))

osc_fragment : (s : Bytes) → all_bytes is_string_body s ≡ true → osc_text s ≡ none
unfolding osc_text
osc_fragment [] h = refl
osc_fragment (a ∷ []) h = unfold all_bytes in ground arith
osc_fragment (a ∷ b ∷ s) h =
    let whole =
      last_of_all is_string_body a (b ∷ s) (unfold all_bytes in ground arith)
        (unfold all_bytes in ground arith) in
    let front =
      last_of_all is_string_body a (init (b ∷ s)) (unfold all_bytes in ground arith)
        (all_bytes-init is_string_body (b ∷ s) (unfold all_bytes in ground arith)) in
    ground (arith, whole, front)

osc_fragment_unsafe :
    (s : Bytes) → all_bytes is_string_body s ≡ true → osc_text_is_safe (osc_text s) ≡ false
osc_fragment_unsafe s h = rw (osc_fragment s h) refl

string_fragment_unsafe :
    (e c : ℕ) (s : Bytes)
    → introduces_string c ≡ true
    → all_bytes is_string_body s ≡ true
    → escape_is_safe (e ∷ c ∷ s) ≡ false
unfolding escape_is_safe
string_fragment_unsafe e c s k h = ground (arith, osc_fragment s h)

-- Whole, or a fragment that the policy refuses; an ESC behind the ESC is measured alone.
abbrev Judged : ℕ → ℕ → Bytes → ℕ → Type 0
Judged e c s n =
    (n ≡ 1)
    ⊎ ((k : ℕ) × (n ≡ suc (suc k))
        × ((escape_len2 c (take k s) ≡ some n) ⊎ (escape_is_safe (e ∷ c ∷ take k s) ≡ false)))

csi_Judged : (e : ℕ) (s : Bytes) (n : ℕ) → parameters s 2 ≡ some n → Judged e b'[' s n
unfolding escape_len2
csi_Judged e s n h =
    let (k, eq, ends) = parameters-Ends s 2 n h in
    inr (
      k,
      omega arith,
      elim ends [ inl whole ↦ inl whole | inr cut ↦ inr (csi_fragment_unsafe e (take k s) cut) ],
    )

string_Judged :
    (e c : ℕ) (s : Bytes) (n : ℕ)
    → (c == b'[') ≡ false
    → introduces_string c ≡ true
    → string_seq_len s 2 ≡ some n
    → Judged e c s n
unfolding escape_len2
string_Judged e c s n not_csi intro h =
    let (k, eq, ends) = string_seq_len-Ends s 2 n h in
    inr (
      k,
      omega arith,
      elim ends [
        | inl whole ↦ inl (rw (not_csi, intro) whole)
        | inr cut ↦ inr (string_fragment_unsafe e c (take k s) intro cut)
      ],
    )

intermediate_Judged :
    (e c : ℕ) (s : Bytes) (n : ℕ) → is_inter c ≡ true → intermediates s 2 ≡ some n → Judged e c s n
unfolding escape_len2
intermediate_Judged e c s n inter h =
    let (k, eq, ends) = intermediates-Ends s 2 n h in
    inr (
      k,
      omega arith,
      elim ends [
        | inl whole ↦ inl (ground arith)
        | inr cut ↦ inr (intermediate_fragment_unsafe e c (take k s) inter cut)
      ],
    )

escape_len2-Judged : (e c : ℕ) (s : Bytes) (n : ℕ) → escape_len2 c s ≡ some n → Judged e c s n
unfolding escape_len2
escape_len2-Judged e c s n h = elim (Bool-cases (c == b'[')) [
  | inl csi ↦ let is_csi : c ≡ b'[' = ground arith in rw is_csi (csi_Judged e s n (ground arith))
  | inr not_csi ↦ elim (Bool-cases (introduces_string c)) [
    | inl intro ↦ string_Judged e c s n not_csi intro (rw (not_csi, intro) at h)
    | inr not_string ↦ elim (Bool-cases (c == esc)) [
      | inl is_esc ↦ inl (ground arith)
      | inr not_esc ↦ elim (Bool-cases (is_inter c)) [
        | inl inter ↦ intermediate_Judged e c s n inter (ground arith)
        | inr other ↦ inr (0, ground arith, inl (ground arith))
      ]
    ]
  ]
]

whole_of_Judged :
    (e c : ℕ) (s : Bytes) (n : ℕ)
    → Judged e c s n
    → escape_is_safe (take n (e ∷ c ∷ s)) ≡ true
    → escape_len (take n (e ∷ c ∷ s)) ≡ some n
unfolding escape_len
whole_of_Judged e c s n (inl one) safe =
    let unsafe : escape_is_safe (e ∷ []) ≡ true = rw one at safe in
    unfold escape_is_safe in cc unsafe
whole_of_Judged e c s n (inr (k, eq, inl whole)) safe =
    let whole' : escape_len2 c (take k s) ≡ some (suc (suc k)) = rw eq at whole in rw eq whole'
whole_of_Judged e c s n (inr (k, eq, inr unsafe)) safe =
    let safe' : escape_is_safe (e ∷ c ∷ take k s) ≡ true = rw eq at safe in cc (safe', unsafe)

-- A sequence that the policy lets through is measured to the same end when nothing follows it.
pub escape_len_of_safe :
    (b : Bytes) (n : ℕ)
    → escape_len b ≡ some n
    → escape_is_safe (take n b) ≡ true
    → escape_len (take n b) ≡ some n
unfolding escape_len2 escape_len
escape_len_of_safe [] n h safe = cc
escape_len_of_safe (e ∷ []) n h safe = cc
escape_len_of_safe (e ∷ c ∷ s) n h safe =
    whole_of_Judged e c s n (escape_len2-Judged e c s n h) safe
