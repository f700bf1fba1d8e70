-- ===== src/Net/Policy.antt =====
-- `Policy` of internal/netgw/egress.go. A method passes the new policy on; a nil policy is `none`.
-- Times are nanoseconds, and a call reads the clock once for each value that it is given. `fold` is
-- what `strings.ToLower` makes of a text that is not ASCII.
use hull.Prelude.{
  ℕ, ◌+◌, ◌*◌, Bool, true, false, not, ◌&&◌, ◌||◌, Option, none, some, List, [], ◌∷◌, ◌++◌, Bytes,
  if◌then◌else◌, ltb, ◌==◌, length, same, within, all_bytes, codes, cut, map, last, init,
}
use hull.Text.Trim.{trim_space}
use hull.Supervisor.Policy.{second}
use hull.Net.Addr.{Addr, Prefix, contains_addr, masked}
use hull.Net.Glob.{path_match}
use hull.Net.ParseAddr.{parse_prefix}

abbrev pub pin_ttl : ℕ
pin_ttl = 60 * second

abbrev pub pin_grace : ℕ
pin_grace = 60 * second

pub data Default : Type 0 where
  allow deny : Default

pub record RuleSet : Type 0 where
  pub cidrs : List Prefix
  pub hosts : List Bytes

abbrev pub no_rules : RuleSet
no_rules = record { cidrs = []; hosts = [] }

abbrev pub Expiries : Type 0
Expiries = List (Addr × ℕ)

-- `guestPins`.
pub record GuestPins : Type 0 where
  pub allow : Expiries
  pub deny : Expiries

pub record Policy : Type 0 where
  pub default : Default
  pub allow : RuleSet
  pub deny : RuleSet
  pub pins : List (Addr × GuestPins)
  pub resolved_allow : Expiries
  pub resolved_deny : Expiries

unfoldable pub matches_addr : List Prefix → Addr → Bool
matches_addr [] a = false
matches_addr (c ∷ cidrs) a = contains_addr c a || matches_addr cidrs a

abbrev pub is_match : Option Bool → Bool
is_match none = false
is_match (some ok) = ok

unfoldable pub matches_host : List Bytes → Bytes → Bool
matches_host [] name = false
matches_host (glob ∷ hosts) name = is_match (path_match glob name) || matches_host hosts name

abbrev pub has_meta : Bytes → Bool
has_meta [] = false
has_meta (c ∷ s) = c == b'*' || c == b'?' || c == b'[' || has_meta s

unfoldable pub literal_hosts : List Bytes → List Bytes
literal_hosts [] = []
literal_hosts (glob ∷ hosts) =
    let rest = literal_hosts hosts in if has_meta glob then rest else glob ∷ rest

abbrev pub lower_byte : ℕ → ℕ
lower_byte c = if within b'A' b'Z' c then c + 32 else c

-- `strings.ToLower`.
unfoldable pub to_lower : (Bytes → Bytes) → Bytes → Bytes
to_lower fold s = if all_bytes (λ c. ltb c 0x80) s then map lower_byte s else fold s

-- `strings.TrimSuffix(s, ".")`.
abbrev pub trim_dot : Bytes → Bytes
trim_dot [] = []
trim_dot (c ∷ s) = if last (c ∷ s) == b'.' then init (c ∷ s) else c ∷ s

unfoldable pub normalize_name : (Bytes → Bytes) → Bytes → Bytes
normalize_name fold name = trim_dot (to_lower fold (trim_space name))

pub data RuleError : Type 0 where
  expected_kind not_a_cidr empty_glob bad_pattern : Bytes → RuleError

pub data Rules : Type 0 where
  failed : RuleError → Rules
  rules : RuleSet → Rules

abbrev pub is_none : Option Bool → Bool
is_none none = true
is_none (some _) = false

abbrev pub add_cidr : Bytes → Option Prefix → RuleSet → Rules
add_cidr rule none set = failed (not_a_cidr rule)
add_cidr rule (some prefix) set = rules (record set { cidrs = set.cidrs ++ masked prefix ∷ [] })

abbrev pub add_host : Bytes → Bytes → RuleSet → Rules
add_host rule [] set = failed (empty_glob rule)
add_host rule (c ∷ glob) set =
    if is_none (path_match (c ∷ glob) (codes "example.com"))
    then failed (bad_pattern rule)
    else rules (record set { hosts = set.hosts ++ (c ∷ glob) ∷ [] })

unfoldable pub parse_rule : (Bytes → Bytes) → Bytes → RuleSet → Rules
parse_rule fold rule set =
    let c = cut b'=' rule in
    if not c.found
    then failed (expected_kind rule)
    else if same c.before (codes "cidr")
    then add_cidr rule (parse_prefix c.after) set
    else if same c.before (codes "host")
    then add_host rule (normalize_name fold c.after) set
    else failed (expected_kind rule)

-- The loop of `parseRules`, with the set so far.
unfoldable pub parse_rules : (Bytes → Bytes) → RuleSet → List Bytes → Rules
parse_rules fold set [] = rules set
parse_rules fold set (rule ∷ rest) = elim (parse_rule fold rule set) [
  | failed e ↦ failed e
  | rules more ↦ parse_rules fold more rest
]

pub data PolicyError : Type 0 where
  needs_default invalid_default : PolicyError
  bad_allow bad_deny : RuleError → PolicyError

pub data Configured : Type 0 where
  refused : PolicyError → Configured
  unfiltered : Configured
  policy : Policy → Configured

abbrev pub with_rules : Default → Rules → Rules → Configured
with_rules d (failed e) _ = refused (bad_allow e)
with_rules d (rules a) (failed e) = refused (bad_deny e)
with_rules d (rules a) (rules b) = policy (record {
  default = d;
  allow = a;
  deny = b;
  pins = [];
  resolved_allow = [];
  resolved_deny = [];
})

abbrev pub none_given : List Bytes → Bool
none_given [] = true
none_given (_ ∷ _) = false

unfoldable pub parse_egress_policy : (Bytes → Bytes) → Bytes → List Bytes → List Bytes → Configured
parse_egress_policy fold def allows denies =
    if same def []
    then if none_given allows && none_given denies then unfiltered else refused needs_default
    else if same def (codes "allow")
    then with_rules allow (parse_rules fold no_rules allows) (parse_rules fold no_rules denies)
    else if same def (codes "deny")
    then with_rules deny (parse_rules fold no_rules allows) (parse_rules fold no_rules denies)
    else refused invalid_default

abbrev pub is_allow : Default → Bool
is_allow allow = true
is_allow deny = false

unfoldable pub has_host_rules : Option Policy → Bool
has_host_rules none = false
has_host_rules (some p) = ltb 0 (length p.allow.hosts) || ltb 0 (length p.deny.hosts)

unfoldable pub allows_query : (Bytes → Bytes) → Option Policy → Bytes → Bool
allows_query fold none name = true
allows_query fold (some p) name =
    let n = normalize_name fold name in
    if is_allow p.default
    then true
    else if matches_host p.deny.hosts n
    then false
    else matches_host p.allow.hosts n

unfoldable pub denies_query : (Bytes → Bytes) → Option Policy → Bytes → Bool
denies_query fold none name = false
denies_query fold (some p) name = matches_host p.deny.hosts (normalize_name fold name)
