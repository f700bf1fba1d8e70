-- ===== src/Net/Pins.antt =====
-- The part of `Policy` that changes: pins, their expiry, addresses resolved on a timer, and the
-- verdict on a connection.
use hull.Prelude.{
  ℕ, ◌+◌, Bool, true, false, not, ◌&&◌, ◌||◌, Option, none, some, List, [], ◌∷◌, ◌++◌, Bytes,
  if◌then◌else◌, ltb,
}
use hull.Net.Addr.{Addr, unmap, lookup_addr, insert_addr, retain}
use hull.Net.Policy.{
  pin_ttl, pin_grace, Expiries, GuestPins, Policy, is_allow, matches_addr, literal_hosts,
}

abbrev pub set_all : List Addr → ℕ → Expiries → Expiries
set_all [] expiry set = set
set_all (a ∷ addrs) expiry set = set_all addrs expiry (insert_addr (unmap a) expiry set)

-- Kept where not `now.After(expiry)`.
abbrev pub unexpired : ℕ → ℕ → Bool
unexpired now expiry = not (ltb expiry now)

abbrev pub sweep_guest : ℕ → GuestPins → GuestPins
sweep_guest now g = record {
  allow = retain (unexpired now) g.allow;
  deny = retain (unexpired now) g.deny;
}

abbrev pub is_bare : Expiries → Bool
is_bare [] = true
is_bare (_ ∷ _) = false

unfoldable pub sweep_pins : ℕ → List (Addr × GuestPins) → List (Addr × GuestPins)
sweep_pins now [] = []
sweep_pins now ((guest, g) ∷ pins) =
    let rest = sweep_pins now pins in
    let swept = sweep_guest now g in
    if is_bare swept.allow && is_bare swept.deny then rest else (guest, swept) ∷ rest

abbrev pub no_pins : GuestPins
no_pins = record { allow = []; deny = [] }

abbrev pub or_no_pins : Option GuestPins → GuestPins
or_no_pins none = no_pins
or_no_pins (some g) = g

abbrev pub pin_guest : Bool → List Addr → ℕ → GuestPins → GuestPins
pin_guest denied addrs expiry g =
    if denied
    then record g { deny = set_all addrs expiry g.deny }
    else record g { allow = set_all addrs expiry g.allow }

abbrev pub pin_into :
    List (Addr × GuestPins) → Addr → List Addr → Bool → ℕ → List (Addr × GuestPins)
pin_into pins guest addrs denied expiry =
    insert_addr guest (pin_guest denied addrs expiry (or_no_pins (lookup_addr guest pins))) pins

-- `Pin`: the clock is read for the expiry, and again under the lock for the sweep.
unfoldable pub pin : Policy → Addr → List Addr → Bool → ℕ → ℕ → Policy
pin p guest [] denied now later = p
pin p guest (a ∷ addrs) denied now later = record p {
  pins =
      sweep_pins later
        (pin_into p.pins (unmap guest) (a ∷ addrs) denied (now + (pin_ttl + pin_grace)));
}

abbrev pub is_current : ℕ → Option ℕ → Bool
is_current now none = false
is_current now (some expiry) = ltb now expiry

abbrev pub side : Bool → GuestPins → Expiries
side denied g = if denied then g.deny else g.allow

abbrev pub pinned_by : Option GuestPins → Addr → Bool → ℕ → Bool
pinned_by none dst denied now = false
pinned_by (some g) dst denied now = is_current now (lookup_addr (unmap dst) (side denied g))

unfoldable pub pinned : Policy → Addr → Addr → Bool → ℕ → Bool
pinned p guest dst denied now = pinned_by (lookup_addr (unmap guest) p.pins) dst denied now

unfoldable pub resolved : Policy → Addr → Bool → ℕ → Bool
resolved p dst denied now =
    is_current now (lookup_addr (unmap dst) (if denied then p.resolved_deny else p.resolved_allow))

-- Deny beats allow beats the default.
unfoldable pub allows : Policy → Addr → Addr → ℕ → Bool
allows p guest dst now =
    if matches_addr p.deny.cidrs dst || resolved p dst true now || pinned p guest dst true now
    then false
    else if matches_addr p.allow.cidrs dst
        || resolved p dst false now
        || pinned p guest dst false now
    then true
    else is_allow p.default

unfoldable pub allows_connection : Option Policy → Addr → Addr → ℕ → Bool
allows_connection none guest dst now = true
allows_connection (some p) guest dst now = allows p (unmap guest) (unmap dst) now

abbrev pub unmap_all : List Addr → List Addr
unmap_all [] = []
unmap_all (a ∷ addrs) = unmap a ∷ unmap_all addrs

-- `resolveHosts`: what the resolver answers for each host, `none` for an error.
unfoldable pub resolve_hosts : (Bytes → Option (List Addr)) → List Bytes → List Addr
resolve_hosts lookup [] = []
resolve_hosts lookup (host ∷ hosts) =
    let rest = resolve_hosts lookup hosts in
    elim (lookup host) [ none ↦ rest | some addrs ↦ unmap_all addrs ++ rest ]

-- Addresses as they are: `RefreshHosts` has unmapped them already.
abbrev pub put_all : List Addr → ℕ → Expiries → Expiries
put_all [] expiry set = set
put_all (a ∷ addrs) expiry set = put_all addrs expiry (insert_addr a expiry set)

-- `RefreshHosts`: the clock is read for the expiry, and again under the lock for the sweep.
unfoldable pub refresh_hosts : Policy → (Bytes → Option (List Addr)) → ℕ → ℕ → ℕ → Policy
refresh_hosts p lookup retention now later = record p {
  resolved_allow = retain (unexpired later) (
      put_all (resolve_hosts lookup (literal_hosts p.allow.hosts)) (now + retention)
        p.resolved_allow);
  resolved_deny = retain (unexpired later) (
      put_all (resolve_hosts lookup (literal_hosts p.deny.hosts)) (now + retention)
        p.resolved_deny);
}
