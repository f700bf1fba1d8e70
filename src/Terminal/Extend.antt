-- ===== src/Terminal/Extend.antt =====
-- A measure that is complete does not change with the bytes behind it, and lies within the text.
use hull.Prelude.{ℕ, suc, ◌+◌, ◌≤◌, ◌≡◌, refl, true, some, [], ◌∷◌, ◌++◌, Bytes, arith, length}
use hull.Terminal.Rune.{full_rune, rune_size}
use hull.Terminal.Measure.{
  intermediates, parameters, string_seq_len, escape_len, escape_len_after_intro,
}

pub intermediates-append :
    (s q : Bytes) (i n : ℕ) → intermediates s i ≡ some n → intermediates (s ++ q) i ≡ some n
unfolding intermediates
intermediates-append [] q i n h = ground arith
intermediates-append (c ∷ s) q i n h = ground (arith, intermediates-append s q (i + 1) n)

pub parameters-append :
    (s q : Bytes) (i n : ℕ) → parameters s i ≡ some n → parameters (s ++ q) i ≡ some n
unfolding parameters
parameters-append [] q i n h = ground arith
parameters-append (c ∷ s) q i n h =
    ground (arith, parameters-append s q (i + 1) n, intermediates-append (c ∷ s) q i n)

pub string_seq_len-append :
    (s q : Bytes) (i n : ℕ) → string_seq_len s i ≡ some n → string_seq_len (s ++ q) i ≡ some n
unfolding string_seq_len
string_seq_len-append [] q i n h = ground arith
string_seq_len-append (c ∷ []) q i n h = ground (arith, string_seq_len-append [] q (i + 1) n)
string_seq_len-append (c ∷ d ∷ s) q i n h =
    ground (arith, string_seq_len-append (d ∷ s) q (i + 1) n)

pub escape_len-append : (b q : Bytes) (n : ℕ) → escape_len b ≡ some n → escape_len (b ++ q) ≡ some n
unfolding escape_len
escape_len-append [] q n h = ground arith
escape_len-append (e ∷ []) q n h = ground arith
escape_len-append (e ∷ c ∷ s) q n h =
    ground (
      arith,
      parameters-append s q 2 n,
      intermediates-append s q 2 n,
      string_seq_len-append s q 2 n,
    )

pub escape_len_after_intro-append :
    (c : ℕ) (s q : Bytes) (n : ℕ)
    → escape_len_after_intro c s ≡ some n
    → escape_len_after_intro c (s ++ q) ≡ some n
unfolding escape_len_after_intro
escape_len_after_intro-append c s q n h =
    ground (arith, parameters-append s q 1 n, string_seq_len-append s q 1 n)

pub full_rune-append : (b q : Bytes) → full_rune b ≡ true → full_rune (b ++ q) ≡ true
unfolding full_rune
full_rune-append [] q h = ground arith
full_rune-append (c ∷ []) [] h = h
full_rune-append (c ∷ []) (d ∷ []) h = ground arith
full_rune-append (c ∷ []) (d ∷ e ∷ []) h = ground arith
full_rune-append (c ∷ []) (d ∷ e ∷ g ∷ q) h = refl
full_rune-append (c ∷ d ∷ []) [] h = h
full_rune-append (c ∷ d ∷ []) (e ∷ []) h = ground arith
full_rune-append (c ∷ d ∷ []) (e ∷ g ∷ q) h = refl
full_rune-append (c ∷ d ∷ e ∷ []) [] h = h
full_rune-append (c ∷ d ∷ e ∷ []) (g ∷ q) h = refl
full_rune-append (c ∷ d ∷ e ∷ g ∷ s) q h = refl

pub rune_size-append : (b q : Bytes) → full_rune b ≡ true → rune_size (b ++ q) ≡ rune_size b
unfolding full_rune rune_size
rune_size-append [] q h = ground arith
rune_size-append (c ∷ []) [] h = refl
rune_size-append (c ∷ []) (d ∷ []) h = ground arith
rune_size-append (c ∷ []) (d ∷ e ∷ []) h = ground arith
rune_size-append (c ∷ []) (d ∷ e ∷ g ∷ q) h = ground arith
rune_size-append (c ∷ d ∷ []) [] h = refl
rune_size-append (c ∷ d ∷ []) (e ∷ []) h = ground arith
rune_size-append (c ∷ d ∷ []) (e ∷ g ∷ q) h = ground arith
rune_size-append (c ∷ d ∷ e ∷ []) [] h = refl
rune_size-append (c ∷ d ∷ e ∷ []) (g ∷ q) h = ground arith
rune_size-append (c ∷ d ∷ e ∷ g ∷ s) q h = refl

intermediates_bounds :
    (s : Bytes) (i n : ℕ) → intermediates s i ≡ some n → (i ≤ n) × (n ≤ i + length s)
unfolding intermediates
intermediates_bounds [] i n h = ground arith
intermediates_bounds (c ∷ s) i n h = ground (arith, intermediates_bounds s (i + 1) n)

parameters_bounds : (s : Bytes) (i n : ℕ) → parameters s i ≡ some n → (i ≤ n) × (n ≤ i + length s)
unfolding parameters
parameters_bounds [] i n h = ground arith
parameters_bounds (c ∷ s) i n h =
    ground (arith, parameters_bounds s (i + 1) n, intermediates_bounds (c ∷ s) i n)

string_seq_len_bounds :
    (s : Bytes) (i n : ℕ) → string_seq_len s i ≡ some n → (i ≤ n) × (n ≤ i + length s)
unfolding string_seq_len
string_seq_len_bounds [] i n h = ground arith
string_seq_len_bounds (c ∷ []) i n h = ground (arith, string_seq_len_bounds [] (i + 1) n)
string_seq_len_bounds (c ∷ d ∷ s) i n h = ground (arith, string_seq_len_bounds (d ∷ s) (i + 1) n)

pub escape_len_bounds : (b : Bytes) (n : ℕ) → escape_len b ≡ some n → (1 ≤ n) × (n ≤ length b)
unfolding escape_len
escape_len_bounds [] n h = ground arith
escape_len_bounds (e ∷ []) n h = ground arith
escape_len_bounds (e ∷ c ∷ s) n h =
    ground (arith, parameters_bounds s 2 n, intermediates_bounds s 2 n, string_seq_len_bounds s 2 n)

pub escape_len_after_intro_bounds :
    (c : ℕ) (s : Bytes) (n : ℕ)
    → escape_len_after_intro c s ≡ some n
    → (1 ≤ n) × (n ≤ suc (length s))
unfolding escape_len_after_intro
escape_len_after_intro_bounds c s n h =
    ground (arith, parameters_bounds s 1 n, string_seq_len_bounds s 1 n)

pub rune_size_bounds :
    (c : ℕ) (s : Bytes) → (1 ≤ rune_size (c ∷ s)) × (rune_size (c ∷ s) ≤ suc (length s))
unfolding rune_size
rune_size_bounds c [] = ground arith
rune_size_bounds c (d ∷ []) = ground arith
rune_size_bounds c (d ∷ e ∷ []) = ground arith
rune_size_bounds c (d ∷ e ∷ g ∷ s) = ground arith
