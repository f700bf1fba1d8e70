-- ===== src/Net/Provenance.antt =====
-- Where the entries of the pins and of the resolved addresses come from.
use hull.Prelude.{
  ℕ, ◌+◌, ◌≡◌, refl, sym, ◌⊎◌, inl, inr, Bool, true, false, ◌&&◌, List, [], ◌∷◌, arith, In,
  Bool-cases, Option-cases,
}
use mathlib.Core.Path.{subst}
use hull.Net.Addr.{
  Addr, unmap, lookup_addr, insert_addr, retain, lookup_addr-In, In-insert_addr, In-retain,
}
use hull.Net.Policy.{pin_ttl, pin_grace, Expiries, GuestPins, Policy}
use hull.Net.Pins.{
  set_all, unexpired, sweep_guest, is_bare, sweep_pins, or_no_pins, pin_guest, pin_into, pin,
  put_all,
}

-- Every expiry of the set is explained.
abbrev pub EntriesFrom : (Addr → ℕ → Type 0) → Expiries → Type 0
EntriesFrom L set = (a : Addr) (e : ℕ) → In (a, e) set → L a e

abbrev pub PinsFrom : (Addr → Addr → ℕ → Type 0) → List (Addr × GuestPins) → Type 0
PinsFrom L pins = (g : Addr) (gp : GuestPins) → In (g, gp) pins → EntriesFrom (L g) gp.allow

set_all-EntriesFrom :
    (L : Addr → ℕ → Type 0) (addrs : List Addr) (expiry : ℕ) (set : Expiries)
    → ((a : Addr) → In a addrs → L (unmap a) expiry)
    → EntriesFrom L set
    → EntriesFrom L (set_all addrs expiry set)
set_all-EntriesFrom L [] expiry set new old = old
set_all-EntriesFrom L (x ∷ addrs) expiry set new old =
    set_all-EntriesFrom L addrs expiry (insert_addr (unmap x) expiry set) (λ a i. new a (inr i))
      (λ a e i. elim (In-insert_addr (unmap x) expiry (a, e) set i) [
        | inl same ↦ subst (λ p. L p.0 p.1) (sym same) (new x (inl refl))
        | inr there ↦ old a e there
      ])

pub put_all-EntriesFrom :
    (L : Addr → ℕ → Type 0) (addrs : List Addr) (expiry : ℕ) (set : Expiries)
    → ((a : Addr) → In a addrs → L a expiry)
    → EntriesFrom L set
    → EntriesFrom L (put_all addrs expiry set)
put_all-EntriesFrom L [] expiry set new old = old
put_all-EntriesFrom L (x ∷ addrs) expiry set new old =
    put_all-EntriesFrom L addrs expiry (insert_addr x expiry set) (λ a i. new a (inr i))
      (λ a e i. elim (In-insert_addr x expiry (a, e) set i) [
        | inl same ↦ subst (λ p. L p.0 p.1) (sym same) (new x (inl refl))
        | inr there ↦ old a e there
      ])

pub retain-EntriesFrom :
    (L : Addr → ℕ → Type 0) (ok : ℕ → Bool) (set : Expiries)
    → EntriesFrom L set
    → EntriesFrom L (retain ok set)
retain-EntriesFrom L ok set old a e i = old a e (In-retain ok (a, e) set i)

swept_here :
    (now : ℕ) (g h : Addr) (gp hp : GuestPins) (pins : List (Addr × GuestPins))
    → ◌≡◌ {A = Addr × GuestPins} (g, gp) (h, sweep_guest now hp)
    → (old : GuestPins) × In (g, old) ((h, hp) ∷ pins) × (gp ≡ sweep_guest now old)
swept_here now g h gp hp pins e = (hp, inl (ground (arith, e)), ground (arith, e))

sweep_pins-In :
    (now : ℕ) (g : Addr) (gp : GuestPins) (pins : List (Addr × GuestPins))
    → In (g, gp) (sweep_pins now pins)
    → (old : GuestPins) × In (g, old) pins × (gp ≡ sweep_guest now old)
unfolding sweep_pins
sweep_pins-In now g gp [] i = absurd i
sweep_pins-In now g gp ((h, hp) ∷ pins) i =
    elim (Bool-cases (is_bare (sweep_guest now hp).allow && is_bare (sweep_guest now hp).deny)) [
      | inl bare ↦
          let (old, j, e) = sweep_pins-In now g gp pins (ground (arith, i, bare)) in (old, inr j, e)
      | inr kept ↦
          let split : (◌≡◌ {A = Addr × GuestPins} (g, gp) (h, sweep_guest now hp))
              ⊎ In (g, gp) (sweep_pins now pins) =
            ground (arith, i, kept) in
          elim split [
            | inl e ↦ swept_here now g h gp hp pins e
            | inr there ↦ let (old, j, e) = sweep_pins-In now g gp pins there in (old, inr j, e)
          ]
    ]

sweep_pins-PinsFrom :
    (L : Addr → Addr → ℕ → Type 0) (now : ℕ) (pins : List (Addr × GuestPins))
    → PinsFrom L pins
    → PinsFrom L (sweep_pins now pins)
sweep_pins-PinsFrom L now pins old g gp i a e j =
    let (was, k, eq) = sweep_pins-In now g gp pins i in
    old g was k a e (
      In-retain (unexpired now) (a, e) was.allow
        (subst (λ (q : GuestPins). In (a, e) q.allow) eq j))

or_no_pins-EntriesFrom :
    (L : Addr → Addr → ℕ → Type 0) (guest : Addr) (pins : List (Addr × GuestPins))
    → PinsFrom L pins
    → EntriesFrom (L guest) (or_no_pins (lookup_addr guest pins)).allow
or_no_pins-EntriesFrom L guest pins old = elim (Option-cases (lookup_addr guest pins)) [
  | inl none_yet ↦ λ a e i. absurd (subst (λ o. In (a, e) (or_no_pins o).allow) none_yet i)
  | inr (gp, has) ↦ λ a e i.
      old guest gp (lookup_addr-In guest gp pins has) a e
        (subst (λ o. In (a, e) (or_no_pins o).allow) has i)
]

pin_guest-EntriesFrom :
    (L : Addr → ℕ → Type 0) (denied : Bool) (addrs : List Addr) (expiry : ℕ) (g : GuestPins)
    → ((a : Addr) → In a addrs → denied ≡ false → L (unmap a) expiry)
    → EntriesFrom L g.allow
    → EntriesFrom L (pin_guest denied addrs expiry g).allow
pin_guest-EntriesFrom L true addrs expiry g new old = old
pin_guest-EntriesFrom L false addrs expiry g new old =
    set_all-EntriesFrom L addrs expiry g.allow (λ a i. new a i refl) old

pin_into-PinsFrom :
    (L : Addr → Addr → ℕ → Type 0) (pins : List (Addr × GuestPins)) (guest : Addr)
    (addrs : List Addr) (denied : Bool) (expiry : ℕ)
    → ((a : Addr) → In a addrs → denied ≡ false → L guest (unmap a) expiry)
    → PinsFrom L pins
    → PinsFrom L (pin_into pins guest addrs denied expiry)
pin_into-PinsFrom L pins guest addrs denied expiry new old g gp i =
    let fresh = pin_guest denied addrs expiry (or_no_pins (lookup_addr guest pins)) in
    elim (In-insert_addr guest fresh (g, gp) pins i) [
      | inr there ↦ old g gp there
      | inl same ↦
          subst (λ (p : Addr × GuestPins). EntriesFrom (L p.0) p.1.allow) (sym same)
            (pin_guest-EntriesFrom (L guest) denied addrs expiry
              (or_no_pins (lookup_addr guest pins)) new (or_no_pins-EntriesFrom L guest pins old))
    ]

-- A pin keeps the pins explained, if the new addresses are.
pub pin-PinsFrom :
    (L : Addr → Addr → ℕ → Type 0) (p : Policy) (guest : Addr) (addrs : List Addr) (denied : Bool)
    (now later : ℕ)
    → ((a : Addr)
        → In a addrs
        → denied ≡ false
        → L (unmap guest) (unmap a) (now + (pin_ttl + pin_grace)))
    → PinsFrom L p.pins
    → PinsFrom L (pin p guest addrs denied now later).pins
unfolding pin
pin-PinsFrom L p guest [] denied now later new old = old
pin-PinsFrom L p guest (x ∷ addrs) denied now later new old =
    sweep_pins-PinsFrom L later
      (pin_into p.pins (unmap guest) (x ∷ addrs) denied (now + (pin_ttl + pin_grace)))
      (pin_into-PinsFrom L p.pins (unmap guest) (x ∷ addrs) denied (now + (pin_ttl + pin_grace)) new
        old)
