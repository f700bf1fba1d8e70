-- ===== src/Net/Closed.antt =====
-- What the flags of the egress policy are read as.
use hull.Prelude.{
  ◌≡◌, ◌≢◌, refl, sym, ◌⊎◌, inl, inr, false, ◌&&◌, Option, none, some, List, [], ◌∷◌, ◌++◌, Bytes,
  arith, if◌then◌else◌, same, codes, cut, In, In-append, Bool-cases, Option-cases,
}
use mathlib.Core.Path.{subst}
use hull.Net.Addr.{Prefix}
use hull.Net.Glob.{path_match}
use hull.Net.ParseAddr.{parse_prefix}
use hull.Net.Policy.{
  Policy, RuleSet, RuleError, not_a_cidr, empty_glob, Rules, failed, rules, no_rules, add_cidr,
  add_host, parse_rule, parse_rules, normalize_name, PolicyError, bad_allow, bad_deny,
  needs_default, invalid_default, refused, policy, with_rules, none_given, parse_egress_policy,
  Default, allow, deny,
}

abbrev pub IsBad : (Bytes → Bytes) → Bytes → Type 0
IsBad fold rule = (set : RuleSet) → (e : RuleError) × (parse_rule fold rule set ≡ failed e)

Rules-cases : (r : Rules) → ((e : RuleError) × (r ≡ failed e)) ⊎ ((set : RuleSet) × (r ≡ rules set))
Rules-cases (failed e) = inl (e, refl)
Rules-cases (rules set) = inr (set, refl)

parse_rules-failed :
    (fold : Bytes → Bytes) (rule : Bytes) (set : RuleSet) (given : List Bytes)
    → In rule given
    → IsBad fold rule
    → (e : RuleError) × (parse_rules fold set given ≡ failed e)
unfolding parse_rules
parse_rules-failed fold rule set [] i bad = absurd i
parse_rules-failed fold rule set (r ∷ given) i bad = elim (Rules-cases (parse_rule fold r set)) [
  | inl (e, here) ↦ (e, ground (arith, here))
  | inr (more, here) ↦ elim i [
    | inl same_rule ↦ let (e, fails) = bad set in absurd (ground (arith, here, fails, same_rule))
    | inr later ↦
        let (e, fails) = parse_rules-failed fold rule more given later bad in
        (e, ground (arith, here, fails))
  ]
]

none_given-In : (rule : Bytes) (given : List Bytes) → In rule given → none_given given ≡ false
none_given-In rule [] i = absurd i
none_given-In rule (_ ∷ given) i = refl

rules_failed : (set : RuleSet) (e : RuleError) → rules set ≢ failed e
rules_failed set e h = cc

with_rules-refused :
    (d : Default) (a b : Rules)
    → ((e : RuleError) × (a ≡ failed e)) ⊎ ((e : RuleError) × (b ≡ failed e))
    → (e : PolicyError) × (with_rules d a b ≡ refused e)
with_rules-refused d (failed e) b h = (bad_allow e, refl)
with_rules-refused d (rules a) (failed e) h = (bad_deny e, refl)
with_rules-refused d (rules a) (rules b) (inl (e, h)) = absurd (rules_failed a e h)
with_rules-refused d (rules a) (rules b) (inr (e, h)) = absurd (rules_failed b e h)

-- A rule of either flag that cannot be read refuses the whole policy, whatever the default and the
-- other rules are; the gateway does not start unfiltered, nor with the rules that were read.
pub parse_egress_policy-refused :
    (fold : Bytes → Bytes) (def rule : Bytes) (allows denies : List Bytes)
    → In rule allows ⊎ In rule denies
    → IsBad fold rule
    → (e : PolicyError) × (parse_egress_policy fold def allows denies ≡ refused e)
unfolding parse_egress_policy
parse_egress_policy-refused fold def rule allows denies i bad =
    let a = parse_rules fold no_rules allows in
    let b = parse_rules fold no_rules denies in
    let given : (none_given allows && none_given denies) ≡ false = elim i [
      | inl j ↦ ground (arith, none_given-In rule allows j)
      | inr j ↦ ground (arith, none_given-In rule denies j)
    ] in
    let fails : ((e : RuleError) × (a ≡ failed e)) ⊎ ((e : RuleError) × (b ≡ failed e)) = elim i [
      | inl j ↦ inl (parse_rules-failed fold rule no_rules allows j bad)
      | inr j ↦ inr (parse_rules-failed fold rule no_rules denies j bad)
    ] in
    elim (Bool-cases (same def [])) [
      | inl unset ↦ (needs_default, ground (arith, unset, given))
      | inr set ↦ elim (Bool-cases (same def (codes "allow"))) [
        | inl on ↦
            let (e, h) = with_rules-refused allow a b fails in (e, ground (arith, set, on, h))
        | inr off ↦ elim (Bool-cases (same def (codes "deny"))) [
          | inl on ↦
              let (e, h) = with_rules-refused deny a b fails in (e, ground (arith, set, off, on, h))
          | inr other ↦ (invalid_default, ground (arith, set, off, other))
        ]
      ]
    ]

-- A host glob that the resolver can match: not empty, and a pattern of `path.Match`.
abbrev pub IsGlob : Bytes → Type 0
IsGlob glob = (glob ≢ []) × (path_match glob (codes "example.com") ≢ none)

abbrev AllGlobs : RuleSet → Type 0
AllGlobs set = (glob : Bytes) → In glob set.hosts → IsGlob glob

add_cidr-AllGlobs :
    (rule : Bytes) (o : Option Prefix) (set more : RuleSet)
    → add_cidr rule o set ≡ rules more
    → AllGlobs set
    → AllGlobs more
add_cidr-AllGlobs rule none set more e g = absurd (rules_failed more (not_a_cidr rule) (sym e))
add_cidr-AllGlobs rule (some prefix) set more e g = λ glob i.
    let same_hosts : more.hosts ≡ set.hosts = ground (arith, e) in
    g glob (subst (λ v. In glob v) same_hosts i)

add_host-AllGlobs :
    (rule glob : Bytes) (set more : RuleSet)
    → add_host rule glob set ≡ rules more
    → AllGlobs set
    → AllGlobs more
add_host-AllGlobs rule [] set more e g = absurd (rules_failed more (empty_glob rule) (sym e))
add_host-AllGlobs rule (c ∷ s) set more e g =
    elim (Option-cases (path_match (c ∷ s) (codes "example.com"))) [
      | inl bad ↦ absurd (ground (arith, e, bad))
      | inr (ok, good) ↦ λ glob i.
          let same_hosts : more.hosts ≡ set.hosts ++ (c ∷ s) ∷ [] = ground (arith, e, good) in
          elim (In-append glob set.hosts ((c ∷ s) ∷ []) (subst (λ v. In glob v) same_hosts i)) [
            | inl old ↦ g glob old
            | inr (inl new) ↦
                subst (λ v. IsGlob v) (sym new) (λ h. cc, λ h. absurd (ground (arith, good, h)))
            | inr (inr never) ↦ absurd never
          ]
    ]

parse_rule-AllGlobs :
    (fold : Bytes → Bytes) (rule : Bytes) (set more : RuleSet)
    → parse_rule fold rule set ≡ rules more
    → AllGlobs set
    → AllGlobs more
unfolding parse_rule
parse_rule-AllGlobs fold rule set more e g = elim (Bool-cases (cut b'=' rule).found) [
  | inr plain ↦ absurd (ground (arith, e, plain))
  | inl parted ↦ elim (Bool-cases (same (cut b'=' rule).before (codes "cidr"))) [
    | inl cidr ↦
        add_cidr-AllGlobs rule (parse_prefix (cut b'=' rule).after) set more
          (ground (arith, e, parted, cidr)) g
    | inr other ↦ elim (Bool-cases (same (cut b'=' rule).before (codes "host"))) [
      | inl host ↦
          add_host-AllGlobs rule (normalize_name fold (cut b'=' rule).after) set more
            (ground (arith, e, parted, other, host)) g
      | inr neither ↦ absurd (ground (arith, e, parted, other, neither))
    ]
  ]
]

parse_rules-AllGlobs :
    (fold : Bytes → Bytes) (given : List Bytes) (set more : RuleSet)
    → parse_rules fold set given ≡ rules more
    → AllGlobs set
    → AllGlobs more
unfolding parse_rules
parse_rules-AllGlobs fold [] set more e g = λ glob i.
    let same_hosts : more.hosts ≡ set.hosts = ground (arith, e) in
    g glob (subst (λ v. In glob v) same_hosts i)
parse_rules-AllGlobs fold (rule ∷ given) set more e g =
    elim (Rules-cases (parse_rule fold rule set)) [
      | inl (err, here) ↦ absurd (ground (arith, e, here))
      | inr (next, here) ↦
          parse_rules-AllGlobs fold given next more (ground (arith, e, here))
            (parse_rule-AllGlobs fold rule set next here g)
    ]

abbrev pub IsFresh : Default → Policy → Type 0
IsFresh d p =
    (p.default ≡ d)
    × (p.pins ≡ [])
    × (p.resolved_allow ≡ [])
    × (p.resolved_deny ≡ [])
    × ((glob : Bytes) → In glob p.allow.hosts ⊎ In glob p.deny.hosts → IsGlob glob)

no_rules-AllGlobs : AllGlobs no_rules
no_rules-AllGlobs glob i = absurd i

fresh :
    (d : Default) (a b : RuleSet) (p : Policy)
    → with_rules d (rules a) (rules b) ≡ policy p
    → AllGlobs a
    → AllGlobs b
    → IsFresh d p
fresh d a b p e ga gb =
    let allowed : p.allow.hosts ≡ a.hosts = ground (arith, e) in
    let denied : p.deny.hosts ≡ b.hosts = ground (arith, e) in
    (
      ground (arith, e),
      ground (arith, e),
      ground (arith, e),
      ground (arith, e),
      λ glob i. elim i [
        | inl j ↦ ga glob (subst (λ v. In glob v) allowed j)
        | inr j ↦ gb glob (subst (λ v. In glob v) denied j)
      ],
    )

with_rules-IsFresh :
    (fold : Bytes → Bytes) (d : Default) (allows denies : List Bytes) (p : Policy)
    → with_rules d (parse_rules fold no_rules allows) (parse_rules fold no_rules denies) ≡ policy p
    → IsFresh d p
with_rules-IsFresh fold d allows denies p e =
    elim (Rules-cases (parse_rules fold no_rules allows)) [
      | inl (err, bad) ↦ absurd (ground (arith, e, bad))
      | inr (a, good) ↦ elim (Rules-cases (parse_rules fold no_rules denies)) [
        | inl (err, bad) ↦ absurd (ground (arith, e, good, bad))
        | inr (b, fine) ↦
            fresh d a b p (ground (arith, e, good, fine))
              (parse_rules-AllGlobs fold allows no_rules a good no_rules-AllGlobs)
              (parse_rules-AllGlobs fold denies no_rules b fine no_rules-AllGlobs)
      ]
    ]

-- A policy that the flags are read as has the default that is named, no pins and no resolved
-- addresses, and each of its host globs can be matched: it is not empty, and well-formed.
pub parse_egress_policy-IsFresh :
    (fold : Bytes → Bytes) (def : Bytes) (allows denies : List Bytes) (p : Policy)
    → parse_egress_policy fold def allows denies ≡ policy p
    → IsFresh (if same def (codes "allow") then allow else deny) p
unfolding parse_egress_policy
parse_egress_policy-IsFresh fold def allows denies p e = elim (Bool-cases (same def [])) [
  | inl unset ↦ elim (Bool-cases (none_given allows && none_given denies)) [
    | inl bare ↦ absurd (ground (arith, e, unset, bare))
    | inr given ↦ absurd (ground (arith, e, unset, given))
  ]
  | inr set ↦ elim (Bool-cases (same def (codes "allow"))) [
    | inl on ↦ rw on (with_rules-IsFresh fold allow allows denies p (ground (arith, e, set, on)))
    | inr off ↦ elim (Bool-cases (same def (codes "deny"))) [
      | inl on ↦
          rw off (with_rules-IsFresh fold deny allows denies p (ground (arith, e, set, off, on)))
      | inr other ↦ absurd (ground (arith, e, set, off, other))
    ]
  ]
]
