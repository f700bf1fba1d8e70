-- ===== src/Net/Divert.antt =====
-- The diverts of internal/netgw/divert.go: a connection to a host and port that goes to a local
-- socket. A nil set is the empty list, which diverts nothing either. Parsing the flag is not here.
use hull.Prelude.{
  ℕ, Bool, true, false, not, ◌&&◌, ◌||◌, Option, none, some, List, [], ◌∷◌, Bytes, if◌then◌else◌,
  ◌==◌, length, same,
}
use hull.Net.Addr.{Addr, v4, same_addr, unmap, Prefix, contains_addr}
use hull.Net.ParseAddr.{parse_addr}
use hull.Net.Policy.{normalize_name}

-- `Divert`.
pub record Divert : Type 0 where
  pub host : Bytes
  pub port : ℕ
  pub socket : Bytes

-- `divertRule`.
pub record Rule : Type 0 where
  pub divert : Divert
  pub open divert use *
  pub named : Bool
  pub addrs : List Addr
  pub diverted : ℕ
  pub failed : ℕ

unfoldable pub has_addr : List Addr → Addr → Bool
has_addr [] a = false
has_addr (b ∷ addrs) a = same_addr b a || has_addr addrs a

abbrev pub add_addr : Addr → List Addr → List Addr
add_addr a addrs = if has_addr addrs a then addrs else a ∷ addrs

-- 169.254.0.0/16.
abbrev pub link_local : Prefix
link_local = record { addr = v4 0xa9fe0000; bits = 16 }

abbrev pub rule_for : Divert → Option Addr → Rule
rule_for d none = record { divert = d; named = true; addrs = []; diverted = 0; failed = 0 }
rule_for d (some a) = record {
  divert = d;
  named = false;
  addrs = unmap a ∷ [];
  diverted = 0;
  failed = 0;
}

unfoldable pub new_diverts : List Divert → List Rule
new_diverts [] = []
new_diverts (d ∷ ds) = rule_for d (parse_addr d.host) ∷ new_diverts ds

abbrev pub match_unmapped : List Rule → Addr → ℕ → Option Rule
match_unmapped [] dst port = none
match_unmapped (r ∷ rules) dst port =
    if r.port == port && has_addr r.addrs dst then some r else match_unmapped rules dst port

-- `match`: the first rule given wins.
unfoldable pub match_divert : List Rule → Addr → ℕ → Option Rule
match_divert rules dst port = match_unmapped rules (unmap dst) port

abbrev pub has_name : List Rule → Bytes → Bool
has_name [] name = false
has_name (r ∷ rules) name = (r.named && same r.host name) || has_name rules name

unfoldable pub covers_name : (Bytes → Bytes) → List Rule → Bytes → Bool
covers_name fold rules name = has_name rules (normalize_name fold name)

-- The loop of `learn` over the addresses: a link-local one is left out.
unfoldable pub learn_all : List Addr → List Addr → List Addr
learn_all [] known = known
learn_all (a ∷ addrs) known =
    learn_all addrs (if contains_addr link_local (unmap a) then known else add_addr (unmap a) known)

abbrev pub learn_rule : Bytes → List Addr → Rule → Rule
learn_rule name addrs r =
    if not r.named || not (same r.host name)
    then r
    else record r { addrs = learn_all addrs r.addrs }

unfoldable pub learn_named : Bytes → List Addr → List Rule → List Rule
learn_named name addrs [] = []
learn_named name addrs (r ∷ rules) = learn_rule name addrs r ∷ learn_named name addrs rules

unfoldable pub learn : (Bytes → Bytes) → Bytes → List Addr → List Rule → List Rule
learn fold name addrs rules = learn_named (normalize_name fold name) addrs rules

abbrev pub learn_looked_up : (Bytes → Bytes) → Bytes → Option (List Addr) → List Rule → List Rule
learn_looked_up fold host none rules = rules
learn_looked_up fold host (some addrs) rules = learn fold host addrs rules

-- The loop of `resolve`, over the rules as they were when it began.
unfoldable pub resolve_each :
    (Bytes → Bytes) → (Bytes → Option (List Addr)) → List Rule → List Rule → List Rule
resolve_each fold lookup [] rules = rules
resolve_each fold lookup (r ∷ rs) rules =
    resolve_each fold lookup rs
      (if not r.named then rules else learn_looked_up fold r.host (lookup r.host) rules)

unfoldable pub resolve : (Bytes → Bytes) → (Bytes → Option (List Addr)) → List Rule → List Rule
resolve fold lookup rules = resolve_each fold lookup rules rules

-- `DivertStatus`.
pub record Status : Type 0 where
  pub divert : Divert
  pub addresses : ℕ
  pub diverted : ℕ
  pub failed : ℕ

unfoldable pub status : List Rule → List Status
status [] = []
status (r ∷ rules) =
    record {
      divert = r.divert;
      addresses = length r.addrs;
      diverted = r.diverted;
      failed = r.failed;
    }
    ∷ status rules
