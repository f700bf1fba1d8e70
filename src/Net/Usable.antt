-- ===== src/Net/Usable.antt =====
-- What the resolver answered a guest stays reachable for it as long as the answer is honoured.
use hull.Prelude.{
  ℕ, ◌+◌, ◌≤◌, ◌<◌, ◌≡◌, refl, sym, ap, ◌∙◌, inl, inr, Bool, true, false, not, ◌&&◌, ◌||◌, none,
  some, List, [], ◌∷◌, Bytes, arith, In, Bool-cases,
}
use mathlib.Core.Path.{subst}
use hull.Net.Addr.{
  unmap-unmap, Addr, invalid, v4, v6, unmap, same_addr, same_addr_refl, lookup_addr, insert_addr,
  lookup_addr-insert_addr, lookup_addr-retain, retain,
}
use hull.Net.Policy.{
  pin_ttl, pin_grace, Policy, GuestPins, Expiries, matches_addr, allows_query, denies_query,
}
use hull.Net.Pins.{
  set_all, unexpired, sweep_guest, is_bare, sweep_pins, or_no_pins, pin_guest, pin_into, pin,
  is_current, side, pinned_by, pinned, resolved, allows, allows_connection,
}
use hull.Net.Resolver.{
  a, Handler, Reply, only_v4, keep_v4, is_valid, answer_a, pin_answer, add_upstream_answers,
  add_local_answers, answer_question,
}

-- The last write stays.
set_all_kept :
    (x : Addr) (addrs : List Addr) (expiry : ℕ) (set : Expiries)
    → lookup_addr x set ≡ some expiry
    → lookup_addr x (set_all addrs expiry set) ≡ some expiry
set_all_kept x [] expiry set h = h
set_all_kept x (y ∷ addrs) expiry set h =
    set_all_kept x addrs expiry (insert_addr (unmap y) expiry set)
      (ground (arith, h, lookup_addr-insert_addr (unmap y) x expiry set))

lookup_addr-set_all :
    (x : Addr) (addrs : List Addr) (expiry : ℕ) (set : Expiries)
    → In x addrs
    → lookup_addr (unmap x) (set_all addrs expiry set) ≡ some expiry
lookup_addr-set_all x [] expiry set i = absurd i
lookup_addr-set_all x (y ∷ addrs) expiry set (inr i) =
    lookup_addr-set_all x addrs expiry (insert_addr (unmap y) expiry set) i
lookup_addr-set_all x (y ∷ addrs) expiry set (inl e) =
    set_all_kept (unmap x) addrs expiry (insert_addr (unmap y) expiry set) (
      ground (
        arith,
        e,
        ap unmap e,
        same_addr_refl (unmap x),
        lookup_addr-insert_addr (unmap y) (unmap x) expiry set,
      ))

is_bare-lookup :
    (x : Addr) (e : ℕ) (set : Expiries) → lookup_addr x set ≡ some e → is_bare set ≡ false
unfolding lookup_addr
is_bare-lookup x e [] h = absurd (ground (arith, h))
is_bare-lookup x e (_ ∷ set) h = refl

lookup_addr-side :
    (denied : Bool) (x : Addr) (e later : ℕ) (g : GuestPins)
    → lookup_addr x (side denied g) ≡ some e
    → unexpired later e ≡ true
    → (lookup_addr x (side denied (sweep_guest later g)) ≡ some e)
      × ((is_bare (sweep_guest later g).allow && is_bare (sweep_guest later g).deny) ≡ false)
lookup_addr-side true x e later g h ok =
    let kept = lookup_addr-retain (unexpired later) x e g.deny h ok in
    (kept, ground (arith, is_bare-lookup x e (retain (unexpired later) g.deny) kept))
lookup_addr-side false x e later g h ok =
    let kept = lookup_addr-retain (unexpired later) x e g.allow h ok in
    (kept, ground (arith, is_bare-lookup x e (retain (unexpired later) g.allow) kept))

-- The sweep keeps a guest that has a pin left.
lookup_addr-sweep_pins :
    (later : ℕ) (guest : Addr) (g : GuestPins) (pins : List (Addr × GuestPins))
    → lookup_addr guest pins ≡ some g
    → (is_bare (sweep_guest later g).allow && is_bare (sweep_guest later g).deny) ≡ false
    → lookup_addr guest (sweep_pins later pins) ≡ some (sweep_guest later g)
unfolding lookup_addr sweep_pins
lookup_addr-sweep_pins later guest g [] h kept = absurd (ground (arith, h))
lookup_addr-sweep_pins later guest g ((other, o) ∷ pins) h kept =
    elim (Bool-cases (same_addr other guest)) [
      | inr there ↦
          ground (
            arith,
            there,
            lookup_addr-sweep_pins later guest g pins (ground (arith, h, there)) kept,
          )
      | inl here ↦
          let e : o ≡ g = ground (arith, h, here) in
          let left : (is_bare (sweep_guest later o).allow && is_bare (sweep_guest later o).deny)
              ≡ false =
            subst
              (λ v.
                (is_bare (sweep_guest later v).allow && is_bare (sweep_guest later v).deny) ≡ false)
              (sym e) kept in
          ground (arith, left, here, ap (λ v. sweep_guest later v) e)
    ]

lookup_addr-side_guest :
    (denied : Bool) (x : Addr) (addrs : List Addr) (expiry : ℕ) (g : GuestPins)
    → In x addrs
    → lookup_addr (unmap x) (side denied (pin_guest denied addrs expiry g)) ≡ some expiry
lookup_addr-side_guest true x addrs expiry g i = lookup_addr-set_all x addrs expiry g.deny i
lookup_addr-side_guest false x addrs expiry g i = lookup_addr-set_all x addrs expiry g.allow i

-- The addresses of an answer are pinned for the guest, in whichever spelling of an IPv4 address,
-- until 120 seconds after the pin, if the sweep reads the clock no later than that; whatever was
-- pinned before, for this guest or another.
pub pinned-pin :
    (p : Policy) (guest x : Addr) (addrs : List Addr) (denied : Bool) (now later t : ℕ)
    → In x addrs
    → later ≤ now + (pin_ttl + pin_grace)
    → t < now + (pin_ttl + pin_grace)
    → pinned (pin p guest addrs denied now later) guest x denied t ≡ true
unfolding pin pinned
pinned-pin p guest x [] denied now later t i swept before = absurd i
pinned-pin p guest x (y ∷ addrs) denied now later t i swept before =
    let expiry = now + (pin_ttl + pin_grace) in
    let g = pin_guest denied (y ∷ addrs) expiry (or_no_pins (lookup_addr (unmap guest) p.pins)) in
    let entry : lookup_addr (unmap guest) (pin_into p.pins (unmap guest) (y ∷ addrs) denied expiry)
        ≡ some g =
      ground (
        arith,
        same_addr_refl (unmap guest),
        lookup_addr-insert_addr (unmap guest) (unmap guest) g p.pins,
      ) in
    let fresh : unexpired later expiry ≡ true = ground (arith, swept) in
    let (kept, left) =
      lookup_addr-side denied (unmap x) expiry later g
        (lookup_addr-side_guest denied x (y ∷ addrs) expiry
          (or_no_pins (lookup_addr (unmap guest) p.pins)) i)
        fresh in
    let found =
      lookup_addr-sweep_pins later (unmap guest) g
        (pin_into p.pins (unmap guest) (y ∷ addrs) denied expiry) entry left in
    ap (λ o. pinned_by o x denied t) found
    ∙ (ap (λ o. is_current t o) kept ∙ (ground (arith, before)))

pinned-unmap :
    (p : Policy) (guest x : Addr) (denied : Bool) (t : ℕ)
    → pinned p (unmap guest) x denied t ≡ pinned p guest x denied t
unfolding pinned
pinned-unmap p guest x denied t =
    ap (λ g. pinned_by (lookup_addr g p.pins) x denied t) (unmap-unmap guest)

keep_v4-kept : (x y : Addr) (rest : List Addr) → In y rest → In y (keep_v4 x rest)
keep_v4-kept invalid y rest i = i
keep_v4-kept (v4 n) y rest i = inr i
keep_v4-kept (v6 n z) y rest i = i

In-only_v4 :
    (x : Addr) (n : ℕ) (addrs : List Addr) → In x addrs → unmap x ≡ v4 n → In (v4 n) (only_v4 addrs)
In-only_v4 x n [] i e = absurd i
In-only_v4 x n (y ∷ addrs) (inr i) e =
    keep_v4-kept (unmap y) (v4 n) (only_v4 addrs) (In-only_v4 x n addrs i e)
In-only_v4 x n (y ∷ addrs) (inl s) e =
    subst (λ v. In (v4 n) (keep_v4 v (only_v4 addrs))) (sym e ∙ ap unmap s) (inl refl)

pin_answer-some :
    (fold : Bytes → Bytes) (p : Policy) (guest : Addr) (name : Bytes) (ips : List Addr)
    (now later : ℕ)
    → is_valid guest ≡ true
    → denies_query fold (some p) name ≡ false
    → pin_answer fold (some p) guest name ips now later ≡ some (pin p guest ips false now later)
pin_answer-some fold p guest name ips now later valid free = rw (valid, free) refl

-- The answer to a question, and the policy behind it.
answer_question-pins :
    (fold : Bytes → Bytes) (h : Handler) (m : Reply) (name : Bytes) (guest : Addr) (p : Policy)
    (addrs : List Addr) (now later : ℕ)
    → h.policy ≡ some p
    → add_local_answers fold h m (record { name = name; kind = a }) ≡ none
    → allows_query fold (some p) name ≡ true
    → denies_query fold (some p) name ≡ false
    → h.upstream.lookup_ip_addr name ≡ some addrs
    → is_valid guest ≡ true
    → (r : Reply × Handler) × (answer_question fold h m
          (record { name = name; kind = a })
          guest
          now
          later
        ≡ some r)
      × (r.1.policy ≡ some (pin p guest (only_v4 addrs) false now later))
unfolding answer_question add_upstream_answers
answer_question-pins fold h m name guest p addrs now later has foreign allowed free found valid =
    let allowed_here : allows_query fold h.policy name ≡ true =
      ap (λ o. allows_query fold o name) has ∙ allowed in
    (
      answer_a fold h m name guest true now later (some addrs),
      ground (arith, foreign, allowed_here, found),
      ap (λ o. pin_answer fold o guest name (only_v4 addrs) now later) has
          ∙ pin_answer-some fold p guest name (only_v4 addrs) now later valid free,
    )

-- An answer is worth something. A guest with an address, whose A question for a name that is not of
-- the gateway's zones, that the policy lets it ask and no deny glob matches, is answered by the
-- host's resolver, may then for 120 seconds connect to each IPv4 address of the answer, unless a
-- rule or another name denies the address, whatever the default is; if the sweep reads the clock
-- within that time.
pub answer_question-allows :
    (fold : Bytes → Bytes) (h : Handler) (m : Reply) (name : Bytes) (guest : Addr) (p : Policy)
    (addrs : List Addr) (x : Addr) (n now later t : ℕ)
    → h.policy ≡ some p
    → add_local_answers fold h m (record { name = name; kind = a }) ≡ none
    → allows_query fold (some p) name ≡ true
    → denies_query fold (some p) name ≡ false
    → h.upstream.lookup_ip_addr name ≡ some addrs
    → is_valid guest ≡ true
    → In x addrs
    → unmap x ≡ v4 n
    → later ≤ now + (pin_ttl + pin_grace)
    → t < now + (pin_ttl + pin_grace)
    → (r : Reply × Handler) × (q : Policy) × (answer_question fold h m
          (record { name = name; kind = a })
          guest
          now
          later
        ≡ some r)
      × (r.1.policy ≡ some q)
      × (allows_connection (some q) guest x t
          ≡ not (
              matches_addr q.deny.cidrs (v4 n)
              || resolved q (v4 n) true t
              || pinned q (unmap guest) (v4 n) true t))
unfolding allows_connection allows
answer_question-allows fold h m name guest p addrs x n now later t has foreign allowed free found
      valid i is_v4 swept before =
    let (r, answered, now_has) =
      answer_question-pins fold h m name guest p addrs now later has foreign allowed free found
        valid in
    let q = pin p guest (only_v4 addrs) false now later in
    let pins =
      pinned-pin p guest (v4 n) (only_v4 addrs) false now later t (In-only_v4 x n addrs i is_v4)
        swept before in
    let pins_unmapped : pinned q (unmap guest) (v4 n) false t ≡ true =
      pinned-unmap q guest (v4 n) false t ∙ pins in
    (r, q, answered, now_has, rw is_v4 (ground (arith, pins_unmapped)))
