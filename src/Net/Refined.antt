-- ===== src/Net/Refined.antt =====
-- The pins are a store that says, for a guest, an address and a side, until when it counts.
use hull.Prelude.{
  ℕ, ◌+◌, ◌≤◌, ◌≡◌, refl, sym, ap, ◌∙◌, inl, inr, Bool, true, false, not, ◌&&◌, ◌||◌, Option, none,
  some, List, [], ◌∷◌, arith, if◌then◌else◌, ltb, Bool-cases, Option-cases,
}
use mathlib.Core.Path.{subst}
use hull.Net.Addr.{
  Addr, unmap, same_addr, same_addr→eq, same_addr_refl, lookup_addr, insert_addr,
  lookup_addr-insert_addr,
}
use hull.Net.Policy.{pin_ttl, pin_grace, Expiries, GuestPins, Policy}
use hull.Net.Pins.{
  set_all, or_no_pins, pin_guest, pin_into, pin, is_current, side, pinned_by, pinned,
}
use hull.Net.Maps.{IsMap, ArePins, set_all-IsMap, sweep_pins-ArePins, pinned_by-sweep_pins}

abbrev pub is_one_of : Addr → List Addr → Bool
is_one_of x [] = false
is_one_of x (a ∷ addrs) = is_one_of x addrs || same_addr (unmap a) x

abbrev pub same_side : Bool → Bool → Bool
same_side true d = d
same_side false d = not d

-- Whether an address counts for a guest on a side at a time.
abbrev pub Store : Type 0
Store = Addr → Addr → Bool → ℕ → Bool

-- The addresses count for the guest until then, whatever was there; nothing else changes.
abbrev pub honour : Addr → List Addr → Bool → ℕ → Store → Store
honour guest addrs denied until store g x d t =
    if same_addr (unmap guest) (unmap g) && same_side denied d && is_one_of (unmap x) addrs
    then ltb t until
    else store g x d t

lookup_addr-set_all_if :
    (x : Addr) (addrs : List Addr) (expiry : ℕ) (set : Expiries)
    → lookup_addr x (set_all addrs expiry set)
      ≡ (if is_one_of x addrs then some expiry else lookup_addr x set)
lookup_addr-set_all_if x [] expiry set = refl
lookup_addr-set_all_if x (a ∷ addrs) expiry set = ground (
  arith,
  lookup_addr-set_all_if x addrs expiry (insert_addr (unmap a) expiry set),
  lookup_addr-insert_addr (unmap a) x expiry set,
)

side-pin_guest :
    (denied d : Bool) (x : Addr) (addrs : List Addr) (expiry : ℕ) (gp : GuestPins)
    → lookup_addr x (side d (pin_guest denied addrs expiry gp))
      ≡ (if same_side denied d && is_one_of x addrs then some expiry else lookup_addr x (side d gp))
side-pin_guest true true x addrs expiry gp = lookup_addr-set_all_if x addrs expiry gp.deny
side-pin_guest true false x addrs expiry gp = refl
side-pin_guest false true x addrs expiry gp = refl
side-pin_guest false false x addrs expiry gp = lookup_addr-set_all_if x addrs expiry gp.allow

-- A guest without pins has none that count.
or_no_pins-pinned_by :
    (o : Option GuestPins) (x : Addr) (d : Bool) (t : ℕ)
    → is_current t (lookup_addr (unmap x) (side d (or_no_pins o))) ≡ pinned_by o x d t
unfolding lookup_addr
or_no_pins-pinned_by none x true t = refl
or_no_pins-pinned_by none x false t = refl
or_no_pins-pinned_by (some gp) x d t = refl

pinned_by-pin_into :
    (pins : List (Addr × GuestPins)) (guest g x : Addr) (addrs : List Addr) (denied d : Bool)
    (expiry t : ℕ)
    → pinned_by (lookup_addr g (pin_into pins guest addrs denied expiry)) x d t ≡ (
        if same_addr guest g && same_side denied d && is_one_of (unmap x) addrs
        then ltb t expiry
        else pinned_by (lookup_addr g pins) x d t)
pinned_by-pin_into pins guest g x addrs denied d expiry t =
    let gp = or_no_pins (lookup_addr guest pins) in
    let fresh = pin_guest denied addrs expiry gp in
    let found = lookup_addr-insert_addr guest g fresh pins in
    let old = or_no_pins-pinned_by (lookup_addr guest pins) x d t in
    let new = ap (λ o. is_current t o) (side-pin_guest denied d (unmap x) addrs expiry gp) in
    ap (λ o. pinned_by o x d t) found ∙ elim (Bool-cases (same_addr guest g)) [
      | inr other ↦ rw other refl
      | inl here ↦
          rw (here, sym (same_addr→eq guest g here))
            (new ∙ elim (Bool-cases (same_side denied d && is_one_of (unmap x) addrs)) [
              | inl hit ↦ rw hit refl
              | inr miss ↦ rw miss old
            ])
    ]

abbrev AreMaps : GuestPins → Type 0
AreMaps gp = IsMap gp.allow × IsMap gp.deny

insert_addr-ArePins :
    (k : Addr) (gp : GuestPins) (pins : List (Addr × GuestPins))
    → AreMaps gp
    → ArePins pins
    → ArePins (insert_addr k gp pins)
unfolding insert_addr lookup_addr
insert_addr-ArePins k gp [] (a, d) u = (refl, a, d, tt)
insert_addr-ArePins k gp ((j, old) ∷ pins) (a, d) (n, x, y, u) = elim (Bool-cases (same_addr j k)) [
  | inl here ↦ rw here (subst (λ v. lookup_addr v pins ≡ none) (same_addr→eq j k here) n, a, d, u)
  | inr other ↦
      let fresh : lookup_addr j (insert_addr k gp pins) ≡ none = ground (
        arith,
        lookup_addr-insert_addr k j gp pins,
        same_addr→eq k j,
        same_addr_refl j,
        n,
        other,
      ) in
      rw other (fresh, x, y, insert_addr-ArePins k gp pins (a, d) u)
]

lookup_addr-AreMaps :
    (g : Addr) (gp : GuestPins) (pins : List (Addr × GuestPins))
    → lookup_addr g pins ≡ some gp
    → ArePins pins
    → AreMaps gp
unfolding lookup_addr
lookup_addr-AreMaps g gp [] h u = absurd (ground (arith, h))
lookup_addr-AreMaps g gp ((j, old) ∷ pins) h (n, x, y, u) = elim (Bool-cases (same_addr j g)) [
  | inl here ↦
      let same_pins : old ≡ gp = ground (arith, h, here) in subst (λ v. AreMaps v) same_pins (x, y)
  | inr other ↦ lookup_addr-AreMaps g gp pins (ground (arith, h, other)) u
]

or_no_pins-AreMaps :
    (g : Addr) (pins : List (Addr × GuestPins))
    → ArePins pins
    → AreMaps (or_no_pins (lookup_addr g pins))
or_no_pins-AreMaps g pins u = elim (Option-cases (lookup_addr g pins)) [
  | inl unseen ↦ rw unseen (tt, tt)
  | inr (gp, found) ↦ rw found (lookup_addr-AreMaps g gp pins found u)
]

pin_guest-AreMaps :
    (denied : Bool) (addrs : List Addr) (expiry : ℕ) (gp : GuestPins)
    → AreMaps gp
    → AreMaps (pin_guest denied addrs expiry gp)
pin_guest-AreMaps true addrs expiry gp (a, d) = (a, set_all-IsMap addrs expiry gp.deny d)
pin_guest-AreMaps false addrs expiry gp (a, d) = (set_all-IsMap addrs expiry gp.allow a, d)

pin_into-ArePins :
    (pins : List (Addr × GuestPins)) (guest : Addr) (addrs : List Addr) (denied : Bool) (expiry : ℕ)
    → ArePins pins
    → ArePins (pin_into pins guest addrs denied expiry)
pin_into-ArePins pins guest addrs denied expiry u =
    let gp = or_no_pins (lookup_addr guest pins) in
    insert_addr-ArePins guest (pin_guest denied addrs expiry gp) pins
      (pin_guest-AreMaps denied addrs expiry gp (or_no_pins-AreMaps guest pins u)) u

no_addrs : (b c e f : Bool) → (if b && c && false then e else f) ≡ f
no_addrs b c e f = ground arith

-- A pin implements its abstract store. Where no guest and no address of a guest stands twice in the
-- maps, that is so behind the pin too, and whether an address counts for a guest, at any time from
-- the pin's sweep on, is what the store says: until 120 seconds after the pin for what is pinned,
-- and as before for all else. The sweep is not seen.
pub pin-honour :
    (p : Policy) (guest g x : Addr) (addrs : List Addr) (denied d : Bool) (now later t : ℕ)
    → ArePins p.pins
    → later ≤ t
    → ArePins (pin p guest addrs denied now later).pins
      × (pinned (pin p guest addrs denied now later) g x d t
          ≡ honour guest addrs denied (now + (pin_ttl + pin_grace)) (pinned p) g x d t)
unfolding pin pinned
pin-honour p guest g x [] denied d now later t u le = (
  u,
  sym (
      no_addrs (same_addr (unmap guest) (unmap g)) (same_side denied d)
        (ltb t (now + (pin_ttl + pin_grace))) (pinned p g x d t)),
)
pin-honour p guest g x (y ∷ addrs) denied d now later t u le =
    let expiry = now + (pin_ttl + pin_grace) in
    let into = pin_into p.pins (unmap guest) (y ∷ addrs) denied expiry in
    let fine = pin_into-ArePins p.pins (unmap guest) (y ∷ addrs) denied expiry u in
    (
      sweep_pins-ArePins later into fine,
      pinned_by-sweep_pins later t (unmap g) x d into le fine
          ∙ pinned_by-pin_into p.pins (unmap guest) (unmap g) x (y ∷ addrs) denied d expiry t,
    )
