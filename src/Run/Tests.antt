-- ===== src/Run/Tests.antt =====
-- The theorems on environment entries at concrete inputs.
use hull.Prelude.{
  ◌≡◌, refl, inl, inr, Option, none, some, [], ◌∷◌, Bytes, if◌then◌else◌, codes, cut, has_prefix,
  same, all_bytes, Lacks,
}
use hull.Run.Env.{append_env_default, resolve_entry, resolve_env_entries}
use hull.Run.Shadow.{value_of, append_env_default-value_of}
use hull.Run.Resolve.{ComesFrom, resolve_env_entries-ComesFrom}

abbrev host : Bytes → Option Bytes
host name = if same name (codes "TOKEN") then some (codes "s") else none

resolves :
    resolve_env_entries host (codes "A=" ∷ codes "TOKEN" ∷ codes "UNSET" ∷ [])
    ≡ some (codes "A=" ∷ codes "TOKEN=s" ∷ [])
unfolding resolve_env_entries resolve_entry cut same
resolves = refl

resolve_env_entries-ComesFrom_example :
    ComesFrom host (codes "A=" ∷ codes "TOKEN" ∷ codes "UNSET" ∷ []) (codes "TOKEN=s")
resolve_env_entries-ComesFrom_example =
    resolve_env_entries-ComesFrom host (codes "A=" ∷ codes "TOKEN" ∷ codes "UNSET" ∷ [])
      (codes "A=" ∷ codes "TOKEN=s" ∷ []) (codes "TOKEN=s") resolves (inr (inl refl))

term_is_key : Lacks b'=' (codes "TERM")
unfolding all_bytes
term_is_key = refl

append_env_default-value_of_example :
    value_of
      (codes "TERM")
      (append_env_default (codes "TERM=dumb" ∷ []) (codes "TERM") (codes "xterm"))
    ≡ some (codes "dumb")
unfolding value_of has_prefix
append_env_default-value_of_example =
    append_env_default-value_of (codes "TERM=dumb" ∷ []) (codes "TERM") (codes "xterm")
      (codes "TERM") term_is_key term_is_key
