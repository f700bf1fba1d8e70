-- ===== src/Net/LinkLocal.antt =====
-- No name leads a guest to a link-local address, the metadata service among them.
use hull.Prelude.{
  ℕ, ◌≡◌, inl, inr, true, false, not, ◌&&◌, ◌||◌, Option, none, some, List, [], ◌∷◌, Bytes, arith,
  ◌==◌, same, Bool-cases,
}
use mathlib.Core.Path.{subst}
use hull.Net.Addr.{Addr, same_addr, same_addr→eq, unmap, contains_addr}
use hull.Net.ParseAddr.{parse_addr}
use hull.Net.Policy.{normalize_name}
use hull.Net.Divert.{
  Divert, Rule, has_addr, add_addr, link_local, rule_for, new_diverts, match_unmapped, match_divert,
  learn_all, learn_rule, learn_named, learn, learn_looked_up, resolve_each, resolve,
}

-- A rule that goes by a name has no link-local address.
abbrev pub IsClean : Rule → Type 0
IsClean r =
    r.named ≡ true → (x : Addr) → has_addr r.addrs x ≡ true → contains_addr link_local x ≡ false

abbrev pub AllClean : List Rule → Type 0
AllClean [] = Unit
AllClean (r ∷ rules) = IsClean r × AllClean rules

add_addr-clean :
    (y : Addr) (known : List Addr)
    → contains_addr link_local y ≡ false
    → ((x : Addr) → has_addr known x ≡ true → contains_addr link_local x ≡ false)
    → (x : Addr) → has_addr (add_addr y known) x ≡ true
    → contains_addr link_local x ≡ false
unfolding has_addr
add_addr-clean y known far old x h = elim (Bool-cases (has_addr known y)) [
  | inl there ↦ old x (ground (arith, h, there))
  | inr fresh ↦ elim (Bool-cases (same_addr y x)) [
    | inl e ↦ subst (λ v. contains_addr link_local v ≡ false) (same_addr→eq y x e) far
    | inr other ↦ old x (ground (arith, h, fresh, other))
  ]
]

learn_all-clean :
    (addrs known : List Addr)
    → ((x : Addr) → has_addr known x ≡ true → contains_addr link_local x ≡ false)
    → (x : Addr) → has_addr (learn_all addrs known) x ≡ true
    → contains_addr link_local x ≡ false
unfolding learn_all
learn_all-clean [] known old = old
learn_all-clean (y ∷ addrs) known old = elim (Bool-cases (contains_addr link_local (unmap y))) [
  | inl near ↦ rw near (learn_all-clean addrs known old)
  | inr far ↦
      rw far
        (learn_all-clean addrs (add_addr (unmap y) known) (add_addr-clean (unmap y) known far old))
]

learn_rule-IsClean :
    (name : Bytes) (addrs : List Addr) (r : Rule) → IsClean r → IsClean (learn_rule name addrs r)
learn_rule-IsClean name addrs r c = elim (Bool-cases (not r.named || not (same r.host name))) [
  | inl other ↦ rw other c
  | inr own ↦ rw own (λ n. learn_all-clean addrs r.addrs (c n))
]

learn_named-AllClean :
    (name : Bytes) (addrs : List Addr) (rules : List Rule)
    → AllClean rules
    → AllClean (learn_named name addrs rules)
unfolding learn_named
learn_named-AllClean name addrs [] c = tt
learn_named-AllClean name addrs (r ∷ rules) (c, cs) =
    (learn_rule-IsClean name addrs r c, learn_named-AllClean name addrs rules cs)

pub learn-AllClean :
    (fold : Bytes → Bytes) (name : Bytes) (addrs : List Addr) (rules : List Rule)
    → AllClean rules
    → AllClean (learn fold name addrs rules)
unfolding learn
learn-AllClean fold name addrs rules c =
    learn_named-AllClean (normalize_name fold name) addrs rules c

learn_looked_up-AllClean :
    (fold : Bytes → Bytes) (host : Bytes) (o : Option (List Addr)) (rules : List Rule)
    → AllClean rules
    → AllClean (learn_looked_up fold host o rules)
learn_looked_up-AllClean fold host none rules c = c
learn_looked_up-AllClean fold host (some addrs) rules c = learn-AllClean fold host addrs rules c

resolve_each-AllClean :
    (fold : Bytes → Bytes) (lookup : Bytes → Option (List Addr)) (rs rules : List Rule)
    → AllClean rules
    → AllClean (resolve_each fold lookup rs rules)
unfolding resolve_each
resolve_each-AllClean fold lookup [] rules c = c
resolve_each-AllClean fold lookup (r ∷ rs) rules c = elim (Bool-cases (not r.named)) [
  | inl literal ↦ rw literal (resolve_each-AllClean fold lookup rs rules c)
  | inr named ↦ rw named (
      resolve_each-AllClean fold lookup rs (learn_looked_up fold r.host (lookup r.host) rules)
        (learn_looked_up-AllClean fold r.host (lookup r.host) rules c))
]

pub resolve-AllClean :
    (fold : Bytes → Bytes) (lookup : Bytes → Option (List Addr)) (rules : List Rule)
    → AllClean rules
    → AllClean (resolve fold lookup rules)
unfolding resolve
resolve-AllClean fold lookup rules c = resolve_each-AllClean fold lookup rules rules c

rule_for-IsClean : (d : Divert) (o : Option Addr) → IsClean (rule_for d o)
unfolding has_addr
rule_for-IsClean d none n x h = absurd (ground (arith, h))
rule_for-IsClean d (some y) n x h = absurd (ground (arith, n))

pub new_diverts-AllClean : (ds : List Divert) → AllClean (new_diverts ds)
unfolding new_diverts
new_diverts-AllClean [] = tt
new_diverts-AllClean (d ∷ ds) = (rule_for-IsClean d (parse_addr d.host), new_diverts-AllClean ds)

-- A divert that takes a link-local address was given that address.
match_unmapped-literal :
    (rules : List Rule) (dst : Addr) (port : ℕ) (r : Rule)
    → AllClean rules
    → contains_addr link_local dst ≡ true
    → match_unmapped rules dst port ≡ some r
    → r.named ≡ false
match_unmapped-literal [] dst port r c near h = absurd (ground (arith, h))
match_unmapped-literal (s ∷ rules) dst port r (c, cs) near h =
    elim (Bool-cases (s.port == port && has_addr s.addrs dst)) [
      | inr other ↦ match_unmapped-literal rules dst port r cs near (ground (arith, h, other))
      | inl here ↦
          let same_rule : s ≡ r = ground (arith, h, here) in
          let has : has_addr s.addrs dst ≡ true = ground (arith, here) in
          subst (λ (v : Rule). v.named ≡ false) same_rule
            (elim (Bool-cases s.named) [
              | inl named ↦ absurd (ground (arith, near, c named dst has))
              | inr literal ↦ literal
            ])
    ]

pub match_divert-literal :
    (rules : List Rule) (dst : Addr) (port : ℕ) (r : Rule)
    → AllClean rules
    → contains_addr link_local (unmap dst) ≡ true
    → match_divert rules dst port ≡ some r
    → r.named ≡ false
unfolding match_divert
match_divert-literal rules dst port r c near h =
    match_unmapped-literal rules (unmap dst) port r c near h
