-- ===== src/Text/Number.antt =====
-- `strconv.Atoi` and `strconv.Itoa`, for the 64-bit `int` of the platforms that hull runs on.
use hull.Prelude.{
  true, all_bytes, all_bytes-append, ℕ, zero, suc, ◌+◌, ◌-◌, ◌*◌, ◌/◌, ◌%◌, ◌≤◌, ◌<◌, ◌≡◌, refl,
  Option, none, some, [], ◌∷◌, ◌++◌, arith, Bytes, if◌then◌else◌, ltb, leb, ◌==◌, within,
  Bool-cases, inl, inr,
}
use hull.Prelude.Int.{ℤ, pos, negsuc}

abbrev pub int_limit : ℕ
int_limit = 9223372036854775808

-- The digits of `s` behind the value read so far.
unfoldable pub scan : ℕ → Bytes → Option ℕ
scan n [] = some n
scan n (c ∷ s) = if within b'0' b'9' c then scan (n * 10 + (c - b'0')) s else none

unfoldable pub unsigned : Bytes → Option ℕ
unfolding scan
unsigned [] = none
unsigned (c ∷ s) = scan 0 (c ∷ s)

abbrev pub in_range : Option ℕ → Option ℤ
in_range none = none
in_range (some n) = if ltb n int_limit then some (pos n) else none

abbrev pub minus : ℕ → ℤ
minus zero = pos 0
minus (suc n) = negsuc n

abbrev pub negated : Option ℕ → Option ℤ
negated none = none
negated (some n) = if leb n int_limit then some (minus n) else none

-- An optional sign and at least one digit, and nothing else, in the range of an `int`.
unfoldable pub atoi : Bytes → Option ℤ
unfolding unsigned
atoi [] = none
atoi (c ∷ s) =
    if c == b'-'
    then negated (unsigned s)
    else if c == b'+'
    then in_range (unsigned s)
    else in_range (unsigned (c ∷ s))

-- The decimal digits of `n`. A number below the fuel has fewer digits than the fuel.
digits : ℕ → ℕ → Bytes
digits zero n = []
digits (suc f) n =
    let more = digits f (n / 10) ++ (b'0' + n % 10) ∷ [] in
    if ltb n 10 then (b'0' + n) ∷ [] else more

unfoldable pub itoa_ℕ : ℕ → Bytes
unfolding digits
itoa_ℕ n = digits (suc n) n

unfoldable pub itoa : ℤ → Bytes
unfolding itoa_ℕ
itoa (pos n) = itoa_ℕ n
itoa (negsuc n) = b'-' ∷ itoa_ℕ (suc n)

scan-append : (n : ℕ) (s t : Bytes) (m : ℕ) → scan n s ≡ some m → scan n (s ++ t) ≡ scan m t
unfolding scan
scan-append n [] t m h = ground arith
scan-append n (c ∷ s) t m h = ground (arith, scan-append (n * 10 + (c - b'0')) s t m)

scan_digit : (n d : ℕ) → d < 10 → scan n ((b'0' + d) ∷ []) ≡ some (n * 10 + d)
unfolding scan
scan_digit n d h = ground arith

scan-digits : (f n : ℕ) → n < f → scan 0 (digits f n) ≡ some n
unfolding digits
scan-digits zero n h = elim h [ ]
scan-digits (suc f) n h = elim (Bool-cases (ltb n 10)) [
  | inl small ↦ rw small (ground (arith, scan_digit 0 n))
  | inr large ↦ rw large (
      rw
        (scan-append 0 (digits f (n / 10)) ((b'0' + n % 10) ∷ []) (n / 10)
          (scan-digits f (n / 10) (ground arith)))
        (ground (arith, scan_digit (n / 10) (n % 10))))
]

-- The first byte is a digit, so no sign is read.
digits-head : (f n : ℕ) → n < f → (c : ℕ) × (s : Bytes) × (digits f n ≡ c ∷ s) × (b'0' ≤ c)
unfolding digits
digits-head zero n h = elim h [ ]
digits-head (suc f) n h = elim (Bool-cases (ltb n 10)) [
  | inl small ↦ (b'0' + n, [], rw small, omega arith)
  | inr large ↦
      let (c, s, e, le) = digits-head f (n / 10) (ground arith) in
      (c, s ++ (b'0' + n % 10) ∷ [], rw (large, e), le)
]

atoi_of_scan :
    (n c : ℕ) (s t : Bytes)
    → t ≡ c ∷ s
    → b'0' ≤ c
    → scan 0 t ≡ some n
    → n < int_limit
    → atoi t ≡ some (pos n)
unfolding atoi
atoi_of_scan n c s t e le whole h =
    let whole' : scan 0 (c ∷ s) ≡ some n = rw e at whole in rw e (ground (arith, whole'))

-- `Atoi` reads back what `Itoa` writes.
pub atoi-itoa_ℕ : (n : ℕ) → n < int_limit → atoi (itoa_ℕ n) ≡ some (pos n)
unfolding itoa_ℕ
atoi-itoa_ℕ n h =
    let (c, s, e, le) = digits-head (suc n) n (omega arith) in
    atoi_of_scan n c s (digits (suc n) n) e le (scan-digits (suc n) n (omega arith)) h

in_range-lt : (o : Option ℕ) (n : ℕ) → in_range o ≡ some (pos n) → n < int_limit
in_range-lt none n h = cc
in_range-lt (some m) n h = ground arith

negated-lt : (o : Option ℕ) (n : ℕ) → negated o ≡ some (pos n) → n < int_limit
negated-lt none n h = cc
negated-lt (some zero) n h = ground arith
negated-lt (some (suc m)) n h = ground arith

-- What `Atoi` accepts fits an `int`.
pub atoi-lt : (s : Bytes) (n : ℕ) → atoi s ≡ some (pos n) → n < int_limit
unfolding atoi
atoi-lt [] n h = ground arith
atoi-lt (c ∷ s) n h = elim (Bool-cases (c == b'-')) [
  | inl neg ↦ negated-lt (unsigned s) n (rw neg at h)
  | inr not_neg ↦ elim (Bool-cases (c == b'+')) [
    | inl plus ↦ in_range-lt (unsigned s) n (rw (not_neg, plus) at h)
    | inr bare ↦ in_range-lt (unsigned (c ∷ s)) n (rw (not_neg, bare) at h)
  ]
]

digits-visible : (f n : ℕ) → all_bytes (within 0x21 0x7e) (digits f n) ≡ true
unfolding digits
digits-visible zero n = unfold all_bytes in refl
digits-visible (suc f) n = elim (Bool-cases (ltb n 10)) [
  | inl small ↦ rw small (unfold all_bytes in ground arith)
  | inr large ↦ rw large (
      all_bytes-append (within 0x21 0x7e) (digits f (n / 10)) ((b'0' + n % 10) ∷ [])
        (digits-visible f (n / 10)) (unfold all_bytes in ground arith))
]

pub itoa_ℕ-visible : (n : ℕ) → all_bytes (within 0x21 0x7e) (itoa_ℕ n) ≡ true
unfolding itoa_ℕ
itoa_ℕ-visible n = digits-visible (suc n) n
