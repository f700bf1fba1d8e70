-- ===== src/Net/Tests.antt =====
-- The theorems on the gateway's network at concrete inputs.
use hull.Prelude.{
  ℕ, In, ap, not, ◌||◌, ◌<◌, ◌+◌, ◌*◌, ◌≡◌, refl, inl, inr, true, false, Option, none, some, List,
  [], ◌∷◌, Bytes, arith, all_bytes, if◌then◌else◌, codes, cut, same, split,
}
use hull.Supervisor.Policy.{second}
use hull.Text.Number.{scan, atoi}
use hull.Text.Trim.{trim_space}
use hull.Terminal.Rune.{rune_size}
use hull.Net.Glob.{path_match}
use hull.Net.ParseAddr.{parse_addr}
use hull.Net.Addr.{Addr, v4, v6, unmap, contains_addr, same_addr, lookup_addr, insert_addr, retain}
use hull.Net.Policy.{
  pin_ttl, pin_grace, Policy, expected_kind, no_rules, allow, deny, policy, refused, PolicyError,
  matches_addr, matches_host, normalize_name, to_lower, parse_rule, parse_rules,
  parse_egress_policy, allows_query, denies_query,
}
use hull.Net.Pins.{pin, pinned, resolved, allows, allows_connection, sweep_pins}
use hull.Net.Divert.{
  Divert, has_addr, link_local, new_diverts, learn, learn_named, learn_all, covers_name,
}
use hull.Net.Resolver.{
  a, Question, Upstream, Handler, Reply, add_answers, add_upstream_answers, answer_question,
  add_local_answers, search_zones,
}
use hull.Net.Gateway.{Event, queried, step, after, empty_reply}
use hull.Net.Forward.{
  Request, drops, tcp_forwarder, udp_forwarder, first, seen_at, reject_log_interval,
}
use hull.Net.Reach.{MayReach, allows_connection-MayReach}
use hull.Net.Metadata.{IsKeptLocal, forwarders-link_local}
use hull.Net.Usable.{answer_question-allows}
use hull.Net.Quiet.{after_calls, first-once}
use hull.Net.Maps.{ArePins}
use hull.Net.Refined.{honour, pin-honour}
use hull.Net.Closed.{IsBad, IsFresh, parse_egress_policy-refused, parse_egress_policy-IsFresh}

abbrev as_is : Bytes → Bytes
as_is s = s

abbrev api : Bytes
api = codes "api.example.com"

abbrev guest : Addr
guest = v4 0x0a000002

-- 1.2.3.4 in its IPv6 form.
abbrev server_mapped : Addr
server_mapped = v6 0xffff01020304 []

abbrev host_lookup : Bytes → Option (List Addr)
host_lookup name = if same name api then some (server_mapped ∷ []) else none

abbrev upstream : Upstream
upstream = record {
  lookup_ip_addr = host_lookup;
  lookup_cname = λ _. none;
  lookup_mx = λ _. none;
  lookup_ns = λ _. none;
  lookup_srv = λ _. none;
  lookup_txt = λ _. none;
}

abbrev by_name : Policy
by_name = record {
  default = deny;
  allow = record { cidrs = []; hosts = api ∷ [] };
  deny = no_rules;
  pins = [];
  resolved_allow = [];
  resolved_deny = [];
}

abbrev to_metadata : Divert
to_metadata = record { host = codes "169.254.169.254"; port = 80; socket = codes "/run/meta.sock" }

abbrev start : Handler
start = record {
  zones = [];
  upstream = upstream;
  policy = some by_name;
  diverts = new_diverts (to_metadata ∷ []);
}

abbrev question : Question
question = record { name = api; kind = a }

abbrev history : List Event
history = queried upstream guest ((question, 5 * second, 5 * second) ∷ []) ∷ []

is_reached :
    allows_connection (after as_is start history).policy guest (v4 0x01020304) (60 * second) ≡ true
unfolding after step add_answers answer_question add_local_answers search_zones allows_query
    denies_query matches_host path_match normalize_name to_lower all_bytes trim_space same
    add_upstream_answers learn learn_named learn_all new_diverts parse_addr covers_name pin
    sweep_pins pinned resolved allows allows_connection matches_addr contains_addr insert_addr
    lookup_addr retain same_addr unmap has_addr split scan cut atoi rune_size
is_reached = refl

allows_connection-MayReach_example :
    MayReach as_is by_name history guest (v4 0x01020304) (60 * second)
    × (matches_addr by_name.deny.cidrs (unmap (v4 0x01020304)) ≡ false)
allows_connection-MayReach_example =
    allows_connection-MayReach as_is by_name start history guest (v4 0x01020304) (60 * second) refl
      refl refl refl is_reached

abbrev metadata : Request
metadata = record { guest = guest; dst = v4 0xa9fea9fe; port = 80 }

metadata_is_near : contains_addr link_local (v4 0xa9fea9fe) ≡ true
unfolding contains_addr
metadata_is_near = refl

forwarders-link_local_example :
    IsKeptLocal
      (tcp_forwarder (some by_name) (after as_is start history).diverts (v4 0x0a000001) metadata 0)
    × (udp_forwarder (some by_name) (after as_is start history).diverts (v4 0x0a000001) metadata 0
        ≡ drops)
forwarders-link_local_example =
    forwarders-link_local as_is (to_metadata ∷ []) start history (some by_name) (v4 0x0a000001)
      metadata 0 refl metadata_is_near

api_is_allowed :
    (allows_query as_is (some by_name) api ≡ true) × (denies_query as_is (some by_name) api ≡ false)
unfolding allows_query denies_query matches_host path_match normalize_name to_lower all_bytes
    trim_space same rune_size
api_is_allowed = (refl, refl)

api_is_foreign : add_local_answers as_is start empty_reply question ≡ none
unfolding add_local_answers search_zones
api_is_foreign = refl

api_is_found : host_lookup api ≡ some (server_mapped ∷ [])
unfolding same
api_is_found = refl

server_is_v4 : unmap server_mapped ≡ v4 0x01020304
unfolding unmap
server_is_v4 = refl

answer_question-allows_example :
    (r : Reply × Handler) × (q : Policy) × (answer_question as_is start empty_reply question guest
        (5 * second)
        (6 * second)
      ≡ some r)
    × (r.1.policy ≡ some q)
    × (allows_connection (some q) guest server_mapped (60 * second)
        ≡ not (
            matches_addr q.deny.cidrs (v4 0x01020304)
            || resolved q (v4 0x01020304) true (60 * second)
            || pinned q (unmap guest) (v4 0x01020304) true (60 * second)))
answer_question-allows_example =
    answer_question-allows as_is start empty_reply api guest by_name (server_mapped ∷ [])
      server_mapped 0x01020304 (5 * second) (6 * second) (60 * second) refl api_is_foreign
      api_is_allowed.0 api_is_allowed.1 api_is_found refl (inl refl) server_is_v4 (omega arith)
      (omega arith)

abbrev line : Bytes
line = codes "tcp|10.0.0.2|1.2.3.4|443"

is_reported : (first (some []) line (7 * second)).0 ≡ true
unfolding first seen_at
is_reported = refl

call_is_within :
    (j : Bytes) (s : ℕ)
    → In {A = Bytes × ℕ} (j, s) ((codes "udp", 9 * second) ∷ [])
    → s < 7 * second + reject_log_interval
call_is_within j s (inl e) = ground (arith, ap (λ (v : Bytes × ℕ). v.1) e)
call_is_within j s (inr never) = absurd never

first-once_example :
    (first
      (after_calls (first (some []) line (7 * second)).1 ((codes "udp", 9 * second) ∷ []))
      line
      (30 * second)).0
    ≡ false
first-once_example =
    first-once line [] (7 * second) (30 * second) ((codes "udp", 9 * second) ∷ []) is_reported
      call_is_within (omega arith)

abbrev unreadable : Bytes
unreadable = codes "dns=example.com"

unreadable-IsBad : IsBad as_is unreadable
unfolding parse_rule cut same
unreadable-IsBad set = (expected_kind unreadable, refl)

parse_egress_policy-refused_example :
    (e : PolicyError) × (parse_egress_policy as_is
        (codes "deny")
        (codes "host=api" ∷ unreadable ∷ [])
        []
      ≡ refused e)
parse_egress_policy-refused_example =
    parse_egress_policy-refused as_is (codes "deny") unreadable (codes "host=api" ∷ unreadable ∷ [])
      [] (inl (inr (inl refl))) unreadable-IsBad

is_read :
    parse_egress_policy as_is (codes "deny") (codes "host=api.example.com" ∷ []) [] ≡ policy by_name
unfolding parse_egress_policy parse_rules parse_rule cut same normalize_name to_lower all_bytes
    trim_space path_match rune_size
is_read = refl

parse_egress_policy-IsFresh_example :
    IsFresh (if same (codes "deny") (codes "allow") then allow else deny) by_name
parse_egress_policy-IsFresh_example =
    parse_egress_policy-IsFresh as_is (codes "deny") (codes "host=api.example.com" ∷ []) [] by_name
      is_read

no_pins_yet : ArePins by_name.pins
no_pins_yet = tt

pin-honour_example :
    ArePins (pin by_name guest (server_mapped ∷ []) false (5 * second) (6 * second)).pins
    × (pinned
          (pin by_name guest (server_mapped ∷ []) false (5 * second) (6 * second))
          guest
          (v4 0x01020304)
          false
          (9 * second)
        ≡ honour guest
            (server_mapped ∷ [])
            false
            (5 * second + (pin_ttl + pin_grace))
            (pinned by_name)
            guest
            (v4 0x01020304)
            false
            (9 * second))
pin-honour_example =
    pin-honour by_name guest guest (v4 0x01020304) (server_mapped ∷ []) false false (5 * second)
      (6 * second) (9 * second) no_pins_yet (omega arith)
