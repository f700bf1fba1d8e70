-- ===== src/Net/Maps.antt =====
-- The pins as Go maps: no key stands twice, and the sweep takes away nothing that counts.
use hull.Prelude.{
  ℕ, ◌≤◌, ◌≡◌, refl, sym, ◌∙◌, inl, inr, Bool, true, false, ◌&&◌, none, List, [], ◌∷◌, arith, ltb,
  Bool-cases,
}
use mathlib.Core.Path.{subst}
use hull.Net.Addr.{
  Addr, unmap, same_addr, same_addr→eq, same_addr_refl, lookup_addr, insert_addr,
  lookup_addr-insert_addr, retain,
}
use hull.Net.Policy.{Expiries, GuestPins}
use hull.Net.Pins.{
  set_all, unexpired, sweep_guest, is_bare, sweep_pins, is_current, side, pinned_by,
}

module _ {V : Type 0} where
  -- No key stands twice.
  abbrev pub IsMap : List (Addr × V) → Type 0
  IsMap [] = Unit
  IsMap ((k, v) ∷ m) = (lookup_addr k m ≡ none) × IsMap m

  lookup-retain :
      (ok : V → Bool) (k : Addr) (m : List (Addr × V))
      → lookup_addr k m ≡ none
      → lookup_addr k (retain ok m) ≡ none
  unfolding lookup_addr retain
  lookup-retain ok k [] h = refl
  lookup-retain ok k ((j, v) ∷ m) h = ground (arith, lookup-retain ok k m)

  pub retain-IsMap : (ok : V → Bool) (m : List (Addr × V)) → IsMap m → IsMap (retain ok m)
  unfolding retain
  retain-IsMap ok [] u = tt
  retain-IsMap ok ((k, v) ∷ m) (n, u) = elim (Bool-cases (ok v)) [
    | inl stays ↦ rw stays (lookup-retain ok k m n, retain-IsMap ok m u)
    | inr goes ↦ rw goes (retain-IsMap ok m u)
  ]

  pub insert_addr-IsMap :
      (k : Addr) (v : V) (m : List (Addr × V)) → IsMap m → IsMap (insert_addr k v m)
  unfolding insert_addr lookup_addr
  insert_addr-IsMap k v [] u = (refl, tt)
  insert_addr-IsMap k v ((j, w) ∷ m) (n, u) = elim (Bool-cases (same_addr j k)) [
    | inl here ↦ rw here (subst (λ a. lookup_addr a m ≡ none) (same_addr→eq j k here) n, u)
    | inr other ↦ rw other (
      ground (arith, lookup_addr-insert_addr k j v m, same_addr→eq k j, same_addr_refl j, n, other),
      insert_addr-IsMap k v m u,
    )
  ]

pub set_all-IsMap :
    (addrs : List Addr) (expiry : ℕ) (set : Expiries) → IsMap set → IsMap (set_all addrs expiry set)
set_all-IsMap [] expiry set u = u
set_all-IsMap (a ∷ addrs) expiry set u =
    set_all-IsMap addrs expiry (insert_addr (unmap a) expiry set)
      (insert_addr-IsMap (unmap a) expiry set u)

-- What expired before the sweep does not count behind it.
current-retain :
    (x : Addr) (later t : ℕ) (m : Expiries)
    → later ≤ t
    → IsMap m
    → is_current t (lookup_addr x (retain (unexpired later) m)) ≡ is_current t (lookup_addr x m)
unfolding lookup_addr retain
current-retain x later t [] le u = refl
current-retain x later t ((k, e) ∷ m) le (n, u) = elim (Bool-cases (same_addr k x)) [
  | inr other ↦ ground (arith, other, current-retain x later t m le u)
  | inl here ↦ elim (Bool-cases (ltb e later)) [
    | inr stays ↦ ground (arith, here, stays)
    | inl goes ↦
        let gone : lookup_addr x (retain (unexpired later) m) ≡ none =
          lookup-retain (unexpired later) x m
            (subst (λ a. lookup_addr a m ≡ none) (same_addr→eq k x here) n) in
        ground (arith, here, goes, gone, le)
  ]
]

-- Each guest's sets are maps, and no guest stands twice.
abbrev pub ArePins : List (Addr × GuestPins) → Type 0
ArePins [] = Unit
ArePins ((g, gp) ∷ pins) =
    (lookup_addr g pins ≡ none) × IsMap gp.allow × IsMap gp.deny × ArePins pins

sweep_pins-none :
    (later : ℕ) (g : Addr) (pins : List (Addr × GuestPins))
    → lookup_addr g pins ≡ none
    → lookup_addr g (sweep_pins later pins) ≡ none
unfolding lookup_addr sweep_pins
sweep_pins-none later g [] h = refl
sweep_pins-none later g ((j, gp) ∷ pins) h = ground (arith, h, sweep_pins-none later g pins)

pub sweep_pins-ArePins :
    (later : ℕ) (pins : List (Addr × GuestPins)) → ArePins pins → ArePins (sweep_pins later pins)
unfolding sweep_pins
sweep_pins-ArePins later [] u = tt
sweep_pins-ArePins later ((g, gp) ∷ pins) (n, a, d, u) =
    elim (Bool-cases
      (is_bare (sweep_guest later gp).allow && is_bare (sweep_guest later gp).deny)) [
        | inl bare ↦ rw bare (sweep_pins-ArePins later pins u)
        | inr kept ↦ rw kept (
          sweep_pins-none later g pins n,
          retain-IsMap (unexpired later) gp.allow a,
          retain-IsMap (unexpired later) gp.deny d,
          sweep_pins-ArePins later pins u,
        )
      ]

bare_current :
    (t : ℕ) (x : Addr) (m : Expiries) → is_bare m ≡ true → is_current t (lookup_addr x m) ≡ false
unfolding lookup_addr
bare_current t x [] h = refl
bare_current t x (_ ∷ m) h = absurd (ground (arith, h))

swept_side :
    (d : Bool) (later t : ℕ) (x : Addr) (gp : GuestPins)
    → later ≤ t
    → IsMap gp.allow
    → IsMap gp.deny
    → is_current t (lookup_addr x (side d (sweep_guest later gp)))
      ≡ is_current t (lookup_addr x (side d gp))
swept_side true later t x gp le a u = current-retain x later t gp.deny le u
swept_side false later t x gp le a u = current-retain x later t gp.allow le a

bare_side :
    (d : Bool) (t : ℕ) (x : Addr) (gp : GuestPins)
    → (is_bare gp.allow && is_bare gp.deny) ≡ true
    → is_current t (lookup_addr x (side d gp)) ≡ false
bare_side true t x gp h = bare_current t x gp.deny (ground (arith, h))
bare_side false t x gp h = bare_current t x gp.allow (ground (arith, h))

-- The sweep changes no answer.
pub pinned_by-sweep_pins :
    (later t : ℕ) (g x : Addr) (d : Bool) (pins : List (Addr × GuestPins))
    → later ≤ t
    → ArePins pins
    → pinned_by (lookup_addr g (sweep_pins later pins)) x d t ≡ pinned_by (lookup_addr g pins) x d t
unfolding lookup_addr sweep_pins
pinned_by-sweep_pins later t g x d [] le u = refl
pinned_by-sweep_pins later t g x d ((j, gp) ∷ pins) le (n, a, y, u) =
    let swept = sweep_guest later gp in
    let rest = pinned_by-sweep_pins later t g x d pins le u in
    let same_side = swept_side d later t (unmap x) gp le a y in
    elim (Bool-cases (is_bare swept.allow && is_bare swept.deny)) [
      | inl bare ↦
          let empty = bare_side d t (unmap x) swept bare in
          elim (Bool-cases (same_addr j g)) [
            | inr other ↦ rw (bare, other) rest
            | inl here ↦
                let gone =
                  sweep_pins-none later g pins
                    (subst (λ v. lookup_addr v pins ≡ none) (same_addr→eq j g here) n) in
                rw (bare, here, gone) (sym empty ∙ same_side)
          ]
      | inr kept ↦ elim (Bool-cases (same_addr j g)) [
        | inr other ↦ rw (kept, other) rest
        | inl here ↦ rw (kept, here) same_side
      ]
    ]
