-- ===== src/Supervisor/RoundTrip.antt =====
-- `restartPolicy.String` and `parseRestartPolicy` against one another.
use hull.Prelude.{
  ℕ, ◌<◌, ◌≡◌, ◌≢◌, inl, inr, refl, true, false, ◌&&◌, Option, none, some, [], ◌++◌, Bytes, arith,
  ltb, length, drop, same, has_prefix, all_bytes, all_bytes-append, within, Bool-cases,
}
use hull.Prelude.Int.{ℤ, pos, negsuc}
use hull.Text.Number.{atoi, itoa_ℕ, atoi-itoa_ℕ, itoa_ℕ-visible, atoi-lt, int_limit}
use hull.Text.Trim.{trim_space}
use hull.Text.Trim.Plain.{trim_space_visible}
use hull.Supervisor.Policy.{
  RestartMode, no_restart, always, on_failure, unless_stopped, empty, RestartPolicy, policy,
  declared_as, with_count, on_failure_prefix, parse_trimmed, parse_restart_policy, is_on_failure,
  mode_or_no, mode_text, string,
}

-- What the parser makes: never the empty mode, and a cap behind `on-failure` alone that fits an `int`.
pub record IsParsed (p : RestartPolicy) : Type 0 where
  pub mode_given : p.mode ≢ empty
  pub cap_used : is_on_failure p.mode ≡ false → p.max_attempts ≡ 0
  pub cap_fits : p.max_attempts < int_limit

with_count-IsParsed :
    (raw count : Bytes) (o : Option ℤ) (p : RestartPolicy)
    → ((n : ℕ) → o ≡ some (pos n) → n < int_limit)
    → with_count raw count o ≡ policy p
    → IsParsed p
with_count-IsParsed raw count none p h e = cc
with_count-IsParsed raw count (some (pos n)) p h e = ground (arith, h n refl)
with_count-IsParsed raw count (some (negsuc n)) p h e = cc

trimmed-IsParsed : (raw s : Bytes) (p : RestartPolicy) → parse_trimmed raw s ≡ policy p → IsParsed p
unfolding parse_trimmed
trimmed-IsParsed raw s p h = elim (Bool-cases (same s [])) [
  | inl a ↦ ground (arith, a)
  | inr a ↦ elim (Bool-cases (same s (mode_text no_restart))) [
    | inl b ↦ ground (arith, a, b)
    | inr b ↦ elim (Bool-cases (same s (mode_text always))) [
      | inl c ↦ ground (arith, a, b, c)
      | inr c ↦ elim (Bool-cases (same s (mode_text on_failure))) [
        | inl d ↦ ground (arith, a, b, c, d)
        | inr d ↦ elim (Bool-cases (same s (mode_text unless_stopped))) [
          | inl e ↦ ground (arith, a, b, c, d, e)
          | inr e ↦ elim (Bool-cases (has_prefix s on_failure_prefix)) [
            | inl f ↦
                with_count-IsParsed raw (drop (length on_failure_prefix) s)
                  (atoi (drop (length on_failure_prefix) s)) p
                  (λ n g. atoi-lt (drop (length on_failure_prefix) s) n g)
                  (rw (a, b, c, d, e, f) at h)
            | inr f ↦ ground (arith, a, b, c, d, e, f)
          ]
        ]
      ]
    ]
  ]
]

pub parse-IsParsed :
    (raw : Bytes) (p : RestartPolicy) → parse_restart_policy raw ≡ policy p → IsParsed p
unfolding parse_restart_policy
parse-IsParsed raw p h = trimmed-IsParsed raw (trim_space raw) p h

counted_visible : (n : ℕ) → all_bytes (within 0x21 0x7e) (on_failure_prefix ++ itoa_ℕ n) ≡ true
counted_visible n =
    all_bytes-append (within 0x21 0x7e) on_failure_prefix (itoa_ℕ n) (unfold all_bytes in refl)
      (itoa_ℕ-visible n)

trimmed_counted :
    (raw s : Bytes) (n : ℕ)
    → atoi s ≡ some (pos n)
    → parse_trimmed raw (on_failure_prefix ++ s) ≡ declared_as on_failure n
unfolding parse_trimmed
trimmed_counted raw s n h = rw h

counted_parse :
    (n : ℕ)
    → n < int_limit
    → parse_restart_policy (on_failure_prefix ++ itoa_ℕ n) ≡ declared_as on_failure n
unfolding parse_restart_policy
counted_parse n h =
    rw (trim_space_visible (on_failure_prefix ++ itoa_ℕ n) (counted_visible n))
      (trimmed_counted (on_failure_prefix ++ itoa_ℕ n) (itoa_ℕ n) n (atoi-itoa_ℕ n h))

parse_mode :
    (m : RestartMode)
    → parse_restart_policy (mode_or_no m) ≡ declared_as (elim m [ empty ↦ no_restart | o ↦ o ]) 0
unfolding parse_restart_policy
parse_mode no_restart = refl
parse_mode always = refl
parse_mode on_failure = refl
parse_mode unless_stopped = refl
parse_mode empty = refl

string_counted :
    (p : RestartPolicy)
    → is_on_failure p.mode ≡ true
    → 0 < p.max_attempts
    → string p ≡ on_failure_prefix ++ itoa_ℕ p.max_attempts
unfolding string
string_counted p h k = ground arith

string_plain :
    (p : RestartPolicy)
    → (is_on_failure p.mode && ltb 0 p.max_attempts) ≡ false
    → string p ≡ mode_or_no p.mode
unfolding string
string_plain p h = rw h

-- For every policy with a mode, whose cap fits an `int` and stands behind `on-failure` alone: what
-- `String` writes is parsed to the same mode and the same cap.
parse-string_of :
    (p : RestartPolicy)
    → IsParsed p
    → parse_restart_policy (string p) ≡ declared_as p.mode p.max_attempts
parse-string_of p v = elim (Bool-cases (is_on_failure p.mode && ltb 0 p.max_attempts)) [
  | inl counted ↦
      let is_on : p.mode ≡ on_failure = ground arith in
      rw (string_counted p (ground arith) (ground arith))
        (rw is_on (counted_parse p.max_attempts v.cap_fits))
  | inr plain ↦
      rw (string_plain p plain) (ground (arith, parse_mode p.mode, v.mode_given, v.cap_used))
]

-- Rendering a parsed policy and parsing it again gives the same mode and cap, now declared: what
-- `compose config` renders is read back.
pub parse-string :
    (raw : Bytes) (p : RestartPolicy)
    → parse_restart_policy raw ≡ policy p
    → parse_restart_policy (string p) ≡ policy (record p { declared = true })
parse-string raw p h = parse-string_of p (parse-IsParsed raw p h)
