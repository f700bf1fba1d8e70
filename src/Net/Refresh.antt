-- ===== src/Net/Refresh.antt =====
-- A refresh of the literal hosts keeps the state explained.
use hull.Prelude.{
  ℕ, ◌+◌, ◌≡◌, refl, inl, inr, Option, none, some, List, [], ◌∷◌, ◌++◌, Bytes, arith, In, In-append,
  Option-cases,
}
use mathlib.Core.Path.{subst}
use hull.Net.Addr.{Addr, unmap}
use hull.Net.Policy.{Policy, RuleSet, literal_hosts}
use hull.Net.Pins.{refresh_hosts, resolve_hosts, unmap_all, put_all, unexpired}
use hull.Net.Provenance.{put_all-EntriesFrom, retain-EntriesFrom}
use hull.Net.Gateway.{Event, refreshed, refresh_policy}
use hull.Net.Explained.{Refreshed, refreshed_at, IsExplained, widen}

unmap_all-In :
    (y : Addr) (addrs : List Addr)
    → In y (unmap_all addrs)
    → (x : Addr) × In x addrs × (y ≡ unmap x)
unmap_all-In y [] i = absurd i
unmap_all-In y (x ∷ addrs) (inl e) = (x, inl refl, e)
unmap_all-In y (x ∷ addrs) (inr i) = let (w, j, e) = unmap_all-In y addrs i in (w, inr j, e)

resolve_hosts-In :
    (lookup : Bytes → Option (List Addr)) (hosts : List Bytes) (y : Addr)
    → In y (resolve_hosts lookup hosts)
    → (host : Bytes) × (addrs : List Addr) × (x : Addr) × In host hosts
      × (lookup host ≡ some addrs)
      × In x addrs
      × (y ≡ unmap x)
unfolding resolve_hosts
resolve_hosts-In lookup [] y i = absurd i
resolve_hosts-In lookup (host ∷ hosts) y i = elim (Option-cases (lookup host)) [
  | inl failed ↦
      let (h, addrs, x, j, k, l, e) = resolve_hosts-In lookup hosts y (ground (arith, i, failed)) in
      (h, addrs, x, inr j, k, l, e)
  | inr (addrs, found) ↦
      let here : In y (unmap_all addrs ++ resolve_hosts lookup hosts) = ground (arith, i, found) in
      elim (In-append y (unmap_all addrs) (resolve_hosts lookup hosts) here) [
        | inl j ↦ let (x, k, e) = unmap_all-In y addrs j in (host, addrs, x, inl refl, found, k, e)
        | inr j ↦
            let (h, as_, x, k, l, n, e) = resolve_hosts-In lookup hosts y j in
            (h, as_, x, inr k, l, n, e)
      ]
]

pub refresh-IsExplained :
    (fold : Bytes → Bytes) (rules : Policy) (es : List Event) (lookup : Bytes → Option (List Addr))
    (retention now later : ℕ) (o : Option Policy)
    → IsExplained fold rules es o
    → IsExplained fold rules
        (refreshed lookup retention now later ∷ es)
        (refresh_policy lookup retention now later o)
unfolding refresh_hosts
refresh-IsExplained fold rules es lookup retention now later none h = h
refresh-IsExplained fold rules es lookup retention now later (some p) h =
    let e = refreshed lookup retention now later in
    let (r, pins, resolved) = widen fold rules e es (some p) h in
    let hosts = literal_hosts p.allow.hosts in
    let source : (y : Addr)
        → In y (resolve_hosts lookup hosts)
        → Refreshed rules (e ∷ es) y (now + retention) =
      λ y i.
        let (host, addrs, x, j, k, l, u) = resolve_hosts-In lookup hosts y i in
        refreshed_at lookup retention now later host addrs x (inl refl)
          (subst (λ (rs : RuleSet). In host (literal_hosts rs.hosts)) r.1 j) k l u refl in
    (
      r,
      pins,
      retain-EntriesFrom (Refreshed rules (e ∷ es)) (unexpired later)
          (put_all (resolve_hosts lookup hosts) (now + retention) p.resolved_allow)
          (put_all-EntriesFrom (Refreshed rules (e ∷ es)) (resolve_hosts lookup hosts)
            (now + retention) p.resolved_allow source resolved),
    )
