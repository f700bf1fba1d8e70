-- ===== src/Net/Reach.antt =====
-- What a guest can reach under a policy that denies by default.
use hull.Prelude.{
  ℕ, ◌<◌, ◌≡◌, refl, sym, ap, ◌∙◌, inl, inr, true, false, Option, none, some, List, [], Bytes,
  arith, In, Bool-cases, Option-cases,
}
use mathlib.Core.Path.{subst}
use hull.Net.Addr.{unmap-unmap, Addr, unmap, lookup_addr, lookup_addr-In}
use hull.Net.Policy.{Policy, RuleSet, deny, matches_addr}
use hull.Net.Pins.{is_current, pinned, resolved, allows, allows_connection}
use hull.Net.Resolver.{Handler}
use hull.Net.Gateway.{Event, after}
use hull.Net.Explained.{Learned, Refreshed, IsExplained}
use hull.Net.Steps.{after-IsExplained}

is_current-some :
    (now : ℕ) (o : Option ℕ) → is_current now o ≡ true → (e : ℕ) × (o ≡ some e) × now < e
is_current-some now none h = absurd (ground arith)
is_current-some now (some e) h = (e, refl, ground arith)

-- The reasons for which a connection is let through.
pub data MayReach (fold : Bytes → Bytes) (rules : Policy) (es : List Event) (guest dst : Addr)
    (now : ℕ) : Type 0 where
  by_cidr : matches_addr rules.allow.cidrs (unmap dst) ≡ true → MayReach fold rules es guest dst now
  by_refresh :
      (expiry : ℕ)
      → now < expiry
      → Refreshed rules es (unmap dst) expiry
      → MayReach fold rules es guest dst now
  by_answer :
      (expiry : ℕ)
      → now < expiry
      → Learned fold rules es (unmap guest) (unmap dst) expiry
      → MayReach fold rules es guest dst now

pinned-Learned :
    (fold : Bytes → Bytes) (rules p : Policy) (es : List Event) (guest dst : Addr) (now : ℕ)
    → IsExplained fold rules es (some p)
    → pinned p (unmap guest) (unmap dst) false now ≡ true
    → MayReach fold rules es guest dst now
unfolding pinned
pinned-Learned fold rules p es guest dst now (r, pins, rest) h =
    elim (Option-cases (lookup_addr (unmap (unmap guest)) p.pins)) [
      | inl none_yet ↦ absurd (ground (arith, h, none_yet))
      | inr (gp, has) ↦
          let current : is_current now (lookup_addr (unmap (unmap dst)) gp.allow) ≡ true =
            ground (arith, h, has) in
          let (e, found, before) =
            is_current-some now (lookup_addr (unmap (unmap dst)) gp.allow) current in
          by_answer e before (
            pins (unmap guest) gp
              (subst (λ g. In (g, gp) p.pins) (unmap-unmap guest)
                (lookup_addr-In (unmap (unmap guest)) gp p.pins has))
              (unmap dst) e
              (subst (λ x. In (x, e) gp.allow) (unmap-unmap dst)
                (lookup_addr-In (unmap (unmap dst)) e gp.allow found)))
    ]

resolved-Refreshed :
    (fold : Bytes → Bytes) (rules p : Policy) (es : List Event) (guest dst : Addr) (now : ℕ)
    → IsExplained fold rules es (some p)
    → resolved p (unmap dst) false now ≡ true
    → MayReach fold rules es guest dst now
unfolding resolved
resolved-Refreshed fold rules p es guest dst now (r, pins, rest) h =
    let (e, found, before) =
      is_current-some now (lookup_addr (unmap (unmap dst)) p.resolved_allow) h in
    by_refresh e before (
      rest (unmap dst) e (
        subst (λ x. In (x, e) p.resolved_allow) (unmap-unmap dst)
          (lookup_addr-In (unmap (unmap dst)) e p.resolved_allow found)))

allows-MayReach :
    (fold : Bytes → Bytes) (rules : Policy) (es : List Event) (o : Option Policy) (guest dst : Addr)
    (now : ℕ)
    → rules.default ≡ deny
    → IsExplained fold rules es o
    → allows_connection o guest dst now ≡ true
    → MayReach fold rules es guest dst now × (matches_addr rules.deny.cidrs (unmap dst) ≡ false)
unfolding allows_connection allows
allows-MayReach fold rules es none guest dst now d x h = absurd x
allows-MayReach fold rules es (some p) guest dst now d x h =
    let clear : matches_addr p.deny.cidrs (unmap dst) ≡ false = ground (arith, h) in
    let same_cidrs = ap (λ (rs : RuleSet). matches_addr rs.cidrs (unmap dst)) (sym x.0.1) in
    let reach : MayReach fold rules es guest dst now =
      elim (Bool-cases (matches_addr p.allow.cidrs (unmap dst))) [
        | inl cidr ↦ by_cidr (same_cidrs ∙ cidr)
        | inr no_cidr ↦ elim (Bool-cases (resolved p (unmap dst) false now)) [
          | inl host ↦ resolved-Refreshed fold rules p es guest dst now x host
          | inr no_host ↦ elim (Bool-cases (pinned p (unmap guest) (unmap dst) false now)) [
            | inl pin ↦ pinned-Learned fold rules p es guest dst now x pin
            | inr no_pin ↦ absurd (ground (arith, h, no_cidr, no_host, no_pin, x.0.0, d))
          ]
        ]
      ] in
    (reach, ap (λ (rs : RuleSet). matches_addr rs.cidrs (unmap dst)) (sym x.0.2) ∙ clear)

-- Behind any history of queries and refreshes, a policy that denies by default and begins with no
-- pins lets a guest connect to an address only if no deny rule covers it and an allow rule does, or
-- a refresh resolved a literal allow host to it within the retention, or the resolver answered this
-- guest with it, within the last 120 seconds, for a name that an allow glob and no deny glob matches.
pub allows_connection-MayReach :
    (fold : Bytes → Bytes) (rules : Policy) (h : Handler) (es : List Event) (guest dst : Addr)
    (now : ℕ)
    → h.policy ≡ some rules
    → rules.default ≡ deny
    → rules.pins ≡ []
    → rules.resolved_allow ≡ []
    → allows_connection (after fold h es).policy guest dst now ≡ true
    → MayReach fold rules es guest dst now × (matches_addr rules.deny.cidrs (unmap dst) ≡ false)
allows_connection-MayReach fold rules h es guest dst now start d pins resolved ok =
    let first : IsExplained fold rules [] (some rules) = (
      (refl, refl, refl),
      λ g gp i. absurd (subst (λ l. In (g, gp) l) pins i),
      λ x e i. absurd (subst (λ l. In (x, e) l) resolved i),
    ) in
    let explained =
      after-IsExplained fold rules h es
        (subst (λ o. IsExplained fold rules [] o) (sym start) first) in
    allows-MayReach fold rules es (after fold h es).policy guest dst now d explained ok
