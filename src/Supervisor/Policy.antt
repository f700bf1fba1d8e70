-- ===== src/Supervisor/Policy.antt =====
-- The compose `restart:` value: `parseRestartPolicy`, `String`, `effectiveMode`, `restarts` and
-- `restartBackoff`.
use hull.Prelude.{
  ℕ, zero, suc, ◌-◌, ◌*◌, Bool, true, false, ◌&&◌, Option, none, some, [], ◌++◌, Bytes, codes,
  if◌then◌else◌, ltb, leb, length, drop, same, has_prefix,
}
use hull.Prelude.Int.{ℤ, pos, negsuc}
use hull.Text.Number.{atoi, itoa_ℕ}
use hull.Text.Trim.{trim_space}

-- `empty` is the mode of the zero value, the empty text.
pub data RestartMode : Type 0 where
  no_restart always on_failure unless_stopped empty : RestartMode

-- The text of a mode.
abbrev pub mode_text : RestartMode → Bytes
mode_text no_restart = codes "no"
mode_text always = codes "always"
mode_text on_failure = codes "on-failure"
mode_text unless_stopped = codes "unless-stopped"
mode_text empty = []

pub record RestartPolicy : Type 0 where
  pub mode : RestartMode
  pub max_attempts : ℕ
  pub declared : Bool

-- The error messages name the value, and the count where that is what is wrong.
pub data PolicyError : Type 0 where
  bad_count : Bytes → Bytes → PolicyError
  bad_policy : Bytes → PolicyError

pub data Parsed : Type 0 where
  policy : RestartPolicy → Parsed
  refused : PolicyError → Parsed

abbrev pub declared_as : RestartMode → ℕ → Parsed
declared_as m n = policy (record { mode = m; max_attempts = n; declared = true })

abbrev pub on_failure_prefix : Bytes
on_failure_prefix = codes "on-failure:"

-- What `Atoi` read behind `on-failure:`.
abbrev pub with_count : Bytes → Bytes → Option ℤ → Parsed
with_count raw count none = refused (bad_count raw count)
with_count raw count (some (pos n)) = declared_as on_failure n
with_count raw count (some (negsuc n)) = refused (bad_count raw count)

-- The `switch` over the trimmed text, and the count behind it.
unfoldable pub parse_trimmed : Bytes → Bytes → Parsed
unfolding same has_prefix atoi
parse_trimmed raw s =
    if same s []
    then policy (record { mode = no_restart; max_attempts = 0; declared = false })
    else if same s (mode_text no_restart)
    then declared_as no_restart 0
    else if same s (mode_text always)
    then declared_as always 0
    else if same s (mode_text on_failure)
    then declared_as on_failure 0
    else if same s (mode_text unless_stopped)
    then declared_as unless_stopped 0
    else if has_prefix s on_failure_prefix
    then with_count raw (drop (length on_failure_prefix) s)
        (atoi (drop (length on_failure_prefix) s))
    else refused (bad_policy raw)

unfoldable pub parse_restart_policy : Bytes → Parsed
unfolding parse_trimmed trim_space
parse_restart_policy raw = parse_trimmed raw (trim_space raw)

abbrev pub is_on_failure : RestartMode → Bool
is_on_failure on_failure = true
is_on_failure _ = false

abbrev pub mode_or_no : RestartMode → Bytes
mode_or_no empty = codes "no"
mode_or_no m = mode_text m

unfoldable pub string : RestartPolicy → Bytes
unfolding itoa_ℕ
string p =
    if is_on_failure p.mode && ltb 0 p.max_attempts
    then on_failure_prefix ++ itoa_ℕ p.max_attempts
    else mode_or_no p.mode

abbrev pub effective : RestartMode → RestartMode
effective on_failure = always
effective unless_stopped = always
effective always = always
effective _ = no_restart

unfoldable pub effective_mode : RestartPolicy → RestartMode
effective_mode p = effective p.mode

abbrev pub is_always : RestartMode → Bool
is_always always = true
is_always _ = false

unfoldable pub restarts : RestartPolicy → Bool
unfolding effective_mode
restarts p = is_always (effective_mode p)

-- Durations count nanoseconds.
abbrev pub second : ℕ
second = 1000000000

abbrev pub backoff_base : ℕ
backoff_base = 1 * second

abbrev pub backoff_cap : ℕ
backoff_cap = 60 * second

abbrev pub stable_uptime : ℕ
stable_uptime = 60 * second

-- The loop with `k` rounds left and the wait `d` so far.
unfoldable pub backoff_loop : ℕ → ℕ → ℕ
backoff_loop zero d = d
backoff_loop (suc k) d =
    let doubled = d * 2 in
    let rest = backoff_loop k doubled in if leb backoff_cap doubled then backoff_cap else rest

unfoldable pub restart_backoff : ℕ → ℕ
unfolding backoff_loop
restart_backoff attempt =
    if leb attempt 1 then backoff_base else backoff_loop (attempt - 1) backoff_base

-- `warnRestartDivergence`: only `on-failure` is not enforced as it stands. The warning names the
-- policy, and the cap where there is one.
unfoldable pub warn_restart_divergence : RestartPolicy → Option (Bytes × Option ℕ)
unfolding string
warn_restart_divergence p =
    if is_on_failure p.mode
    then some (string p, if ltb 0 p.max_attempts then some p.max_attempts else none)
    else none
