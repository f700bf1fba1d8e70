-- ===== src/Net/Explained.antt =====
-- Each address that a guest may reach by a name was answered to it for an allowed name.
use hull.Prelude.{
  ℕ, ◌+◌, ◌≡◌, refl, ◌∙◌, ◌⊎◌, inl, inr, true, false, Option, none, some, List, [], ◌∷◌, Bytes,
  arith, In,
}
use hull.Net.Addr.{Addr, invalid, v4, v6, unmap}
use hull.Net.Policy.{pin_ttl, pin_grace, Policy, literal_hosts, allows_query, denies_query}
use hull.Net.Resolver.{a, Question, Upstream, only_v4, keep_v4}
use hull.Net.Provenance.{EntriesFrom, PinsFrom}
use hull.Net.Gateway.{Event, queried, refreshed}

-- An A answer to the guest for a name that the policy lets it ask and no deny rule matches, whose
-- addresses are pinned until `expiry`.
pub data Learned (fold : Bytes → Bytes) (rules : Policy) (es : List Event) (guest dst : Addr)
    (expiry : ℕ) : Type 0 where
  learned :
      (up : Upstream) (asker : Addr) (qs : List (Question × ℕ × ℕ)) (q : Question) (now later : ℕ)
      (addrs : List Addr) (x : Addr)
      → In (queried up asker qs) es
      → In (q, now, later) qs
      → q.kind ≡ a
      → allows_query fold (some rules) q.name ≡ true
      → denies_query fold (some rules) q.name ≡ false
      → up.lookup_ip_addr q.name ≡ some addrs
      → In x addrs
      → dst ≡ unmap x
      → guest ≡ unmap asker
      → expiry ≡ now + (pin_ttl + pin_grace)
      → Learned fold rules es guest dst expiry

-- A refresh that resolved a literal host of the allow rules.
pub data Refreshed (rules : Policy) (es : List Event) (dst : Addr) (expiry : ℕ) : Type 0 where
  refreshed_at :
      (lookup : Bytes → Option (List Addr)) (retention now later : ℕ) (host : Bytes)
      (addrs : List Addr) (x : Addr)
      → In (refreshed lookup retention now later) es
      → In host (literal_hosts rules.allow.hosts)
      → lookup host ≡ some addrs
      → In x addrs
      → dst ≡ unmap x
      → expiry ≡ now + retention
      → Refreshed rules es dst expiry

widen-Learned :
    (fold : Bytes → Bytes) (rules : Policy) (e : Event) (es : List Event) (guest dst : Addr)
    (expiry : ℕ)
    → Learned fold rules es guest dst expiry
    → Learned fold rules (e ∷ es) guest dst expiry
widen-Learned fold rules e es guest dst expiry
      (learned up asker qs q now later addrs x i j k l m n o p r s) =
    learned up asker qs q now later addrs x (inr i) j k l m n o p r s

widen-Refreshed :
    (rules : Policy) (e : Event) (es : List Event) (dst : Addr) (expiry : ℕ)
    → Refreshed rules es dst expiry
    → Refreshed rules (e ∷ es) dst expiry
widen-Refreshed rules e es dst expiry
      (refreshed_at lookup retention now later host addrs x i j k l m n) =
    refreshed_at lookup retention now later host addrs x (inr i) j k l m n

abbrev pub SameRules : Policy → Policy → Type 0
SameRules rules p = (p.default ≡ rules.default) × (p.allow ≡ rules.allow) × (p.deny ≡ rules.deny)

abbrev pub IsExplained : (Bytes → Bytes) → Policy → List Event → Option Policy → Type 0
IsExplained fold rules es none = ⊥
IsExplained fold rules es (some p) =
    SameRules rules p
    × PinsFrom (Learned fold rules es) p.pins
    × EntriesFrom (Refreshed rules es) p.resolved_allow

pub widen :
    (fold : Bytes → Bytes) (rules : Policy) (e : Event) (es : List Event) (o : Option Policy)
    → IsExplained fold rules es o
    → IsExplained fold rules (e ∷ es) o
widen fold rules e es none h = h
widen fold rules e es (some p) (r, pins, resolved) = (
  r,
  λ g gp i x t j. widen-Learned fold rules e es g x t (pins g gp i x t j),
  λ x t j. widen-Refreshed rules e es x t (resolved x t j),
)

pub allows_query_same :
    (fold : Bytes → Bytes) (rules p : Policy) (name : Bytes)
    → SameRules rules p
    → allows_query fold (some p) name ≡ allows_query fold (some rules) name
unfolding allows_query
allows_query_same fold rules p name (d, al, de) = ground (arith, d, al, de)

pub denies_query_same :
    (fold : Bytes → Bytes) (rules p : Policy) (name : Bytes)
    → SameRules rules p
    → denies_query fold (some p) name ≡ denies_query fold (some rules) name
unfolding denies_query
denies_query_same fold rules p name (d, al, de) = ground (arith, d, al, de)

-- The IPv4 form of an address of the list.
keep_v4-In :
    (x y : Addr) (rest : List Addr) → In y (keep_v4 x rest) → ((y ≡ x) × (unmap y ≡ y)) ⊎ In y rest
unfolding unmap
keep_v4-In invalid y rest i = inr i
keep_v4-In (v4 n) y rest (inl e) = inl (e, rw e refl)
keep_v4-In (v4 n) y rest (inr i) = inr i
keep_v4-In (v6 n z) y rest i = inr i

pub only_v4-In :
    (y : Addr) (addrs : List Addr)
    → In y (only_v4 addrs)
    → (x : Addr) × In x addrs × (unmap y ≡ unmap x)
only_v4-In y [] i = absurd i
only_v4-In y (x ∷ addrs) i = elim (keep_v4-In (unmap x) y (only_v4 addrs) i) [
  | inl (e, u) ↦ (x, inl refl, u ∙ e)
  | inr j ↦ let (w, k, e) = only_v4-In y addrs j in (w, inr k, e)
]
