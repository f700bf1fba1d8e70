-- ===== src/Net/Resolver.antt =====
-- The resolver that the gateway gives its guests (internal/netgw/dns.go): the records of the gateway,
-- and the host's resolver behind the policy. The host's resolver and the regular expressions of a
-- zone are functions; what it answers is a list of valid addresses, `none` for an error.
mod Message
pub use Message.*
use hull.Prelude.{
  ℕ, zero, suc, ◌-◌, Bool, true, false, not, ◌&&◌, ◌||◌, Option, none, some, List, [], ◌∷◌, ◌++◌,
  Bytes, if◌then◌else◌, ltb, length, same, take, drop, has_prefix, map,
}
use mathlib.Core.List.{reverse}
use hull.Net.Addr.{Addr, invalid, v4, v6, unmap}
use hull.Net.Policy.{Policy, normalize_name, allows_query, denies_query, has_host_rules}
use hull.Net.Pins.{pin}
use hull.Net.Divert.{Rule, covers_name, learn}

abbrev pub is_valid : Addr → Bool
is_valid invalid = false
is_valid (v4 n) = true
is_valid (v6 n z) = true

abbrev pub answer_ttl : Option Policy → ℕ
answer_ttl p = if has_host_rules p then 60 else 0

-- `To4` of each address that has one.
abbrev pub keep_v4 : Addr → List Addr → List Addr
keep_v4 (v4 n) rest = v4 n ∷ rest
keep_v4 _ rest = rest

abbrev pub only_v4 : List Addr → List Addr
only_v4 [] = []
only_v4 (x ∷ addrs) = keep_v4 (unmap x) (only_v4 addrs)

abbrev pub add_to : List Answer → Reply → Reply
add_to more m = record m { answers = m.answers ++ more }

abbrev pub fails : Reply → Reply
fails m = record m { rcode = name_error }

-- `pin` of the handler: not without a policy, nor for a sender without an address.
abbrev pub pin_answer :
    (Bytes → Bytes) → Option Policy → Addr → Bytes → List Addr → ℕ → ℕ → Option Policy
pin_answer fold none guest name ips now later = none
pin_answer fold (some p) guest name ips now later =
    if is_valid guest
    then some (pin p guest ips (denies_query fold (some p) name) now later)
    else some p

abbrev pub answer_a :
    (Bytes → Bytes)
    → Handler
    → Reply
    → Bytes
    → Addr
    → Bool
    → ℕ
    → ℕ
    → Option (List Addr)
    → Reply × Handler
answer_a fold h m name guest pins now later none = (fails m, h)
answer_a fold h m name guest pins now later (some addrs) = (
  add_to (map (address (answer_ttl h.policy)) (only_v4 addrs)) m,
  record h {
    diverts = learn fold name addrs h.diverts;
    policy =
        if pins then pin_answer fold h.policy guest name (only_v4 addrs) now later else h.policy;
  },
)

abbrev pub answer_with : {A : Type 0} → (A → Answer) → Reply → Option (List A) → Reply
answer_with f m none = fails m
answer_with f m (some records) = add_to (map f records) m

abbrev pub one_of : Option Bytes → Option (List Bytes)
one_of none = none
one_of (some s) = some (s ∷ [])

-- `splitTXT`: a round takes 255 bytes, so the length of the text is fuel enough.
split_rounds : ℕ → Bytes → List Bytes
split_rounds zero s = s ∷ []
split_rounds (suc f) s =
    let rest = take 255 s ∷ split_rounds f (drop 255 s) in
    if ltb 255 (length s) then rest else s ∷ []

unfoldable pub split_txt : Bytes → List Bytes
unfolding split_rounds
split_txt s = split_rounds (length s) s

-- `addUpstreamAnswers`. A type that is not listed is answered with no records.
unfoldable pub add_upstream_answers :
    (Bytes → Bytes) → Handler → Reply → Bytes → Kind → Addr → Bool → ℕ → ℕ → Reply × Handler
add_upstream_answers fold h m name a guest pins now later =
    answer_a fold h m name guest pins now later (h.upstream.lookup_ip_addr name)
add_upstream_answers fold h m name cname guest pins now later =
    (answer_with (alias (answer_ttl h.policy)) m (one_of (h.upstream.lookup_cname name)), h)
add_upstream_answers fold h m name mx guest pins now later =
    (answer_with (mail (answer_ttl h.policy)) m (h.upstream.lookup_mx name), h)
add_upstream_answers fold h m name ns guest pins now later =
    (answer_with (server (answer_ttl h.policy)) m (h.upstream.lookup_ns name), h)
add_upstream_answers fold h m name srv guest pins now later =
    (answer_with (service (answer_ttl h.policy)) m (h.upstream.lookup_srv name), h)
add_upstream_answers fold h m name txt guest pins now later =
    (answer_with (λ s. texts (answer_ttl h.policy) (split_txt s)) m (h.upstream.lookup_txt name), h)
add_upstream_answers fold h m name (unsupported n) guest pins now later = (m, h)

-- The name in the zone, `none` where it is not of the zone. The zone `.` has every name.
abbrev pub without_suffix : Bytes → Bytes → Option Bytes
without_suffix name suffix =
    if has_prefix (reverse name) (reverse suffix)
    then some (take (length name - length suffix) name)
    else none

abbrev pub in_zone : Bytes → Bytes → Option Bytes
in_zone name [] = some name
in_zone name (c ∷ zone) = without_suffix name (b'.' ∷ c ∷ zone)

abbrev pub is_blank : Bytes → Bool
is_blank [] = true
is_blank (_ ∷ _) = false

abbrev pub by_regexp : Option (Bytes → Bool) → Bytes → Bool
by_regexp none name = false
by_regexp (some matches) name = matches name

unfoldable pub find_record : (Bytes → Bytes) → List ZoneRecord → Bytes → Option ZoneRecord
find_record fold [] name = none
find_record fold (r ∷ records) name =
    if (not (is_blank r.name) && same (normalize_name fold r.name) name) || by_regexp r.regexp name
    then some r
    else find_record fold records name

abbrev pub is_a : Kind → Bool
is_a a = true
is_a _ = false

abbrev pub answer_record :
    (Bytes → Bytes) → Handler → Reply → Question → ZoneRecord → Reply × Handler
answer_record fold h m q r =
    if is_a q.kind
    then (
      add_to (address 0 r.ip ∷ []) m,
      if is_valid r.ip then record h { diverts = learn fold q.name (r.ip ∷ []) h.diverts } else h,
    )
    else (m, h)

abbrev pub answer_default : Reply → Question → Option Addr → Reply
answer_default m q none = fails m
answer_default m q (some ip) = if is_a q.kind then add_to (address 0 ip ∷ []) m else m

-- What the zones give: `none` where the name is none of theirs.
abbrev pub or_default :
    (Bytes → Bytes)
    → Handler
    → Reply
    → Question
    → Zone
    → Option ZoneRecord
    → Option (Reply × Handler)
    → Option (Reply × Handler)
or_default fold h m q z (some r) rest = some (answer_record fold h m q r)
or_default fold h m q z none rest =
    if is_blank (normalize_name fold z.name)
    then rest
    else some (answer_default m q z.default_ip, h)

unfoldable pub search_zones :
    (Bytes → Bytes) → Handler → Reply → Question → List Zone → Option (Reply × Handler)
search_zones fold h m q [] = none
search_zones fold h m q (z ∷ zones) =
    let rest = search_zones fold h m q zones in
    elim (in_zone (normalize_name fold q.name) (normalize_name fold z.name)) [
      | none ↦ rest
      | some short ↦ or_default fold h m q z (find_record fold z.records short) rest
    ]

unfoldable pub add_local_answers :
    (Bytes → Bytes) → Handler → Reply → Question → Option (Reply × Handler)
add_local_answers fold h m q = search_zones fold h m q h.zones

-- One question of the loop of `addAnswers`; `none` in front is the refusal that ends it.
unfoldable pub answer_question :
    (Bytes → Bytes) → Handler → Reply → Question → Addr → ℕ → ℕ → Option (Reply × Handler)
answer_question fold h m q guest now later =
    let allowed = allows_query fold h.policy q.name in
    elim (add_local_answers fold h m q) [
      | some r ↦ some r
      | none ↦
          if not allowed && not (covers_name fold h.diverts q.name)
          then none
          else some (add_upstream_answers fold h m q.name q.kind guest allowed now later)
    ]

abbrev pub refuse : Handler → Reply × Handler
refuse h = (record { answers = []; rcode = refused }, h)

-- `addAnswers`; each question comes with the times at which its pin reads the clock.
unfoldable pub add_answers :
    (Bytes → Bytes) → Handler → Reply → List (Question × ℕ × ℕ) → Addr → Reply × Handler
add_answers fold h m [] guest = (m, h)
add_answers fold h m ((q, now, later) ∷ qs) guest =
    elim (answer_question fold h m q guest now later) [
      | none ↦ refuse h
      | some (m1, h1) ↦ add_answers fold h1 m1 qs guest
    ]
