-- ===== src/Net/Metadata.antt =====
-- Every event keeps the diverts clean, so no name leads a guest to the metadata service.
use hull.Prelude.{
  some_inj, ℕ, ◌≡◌, refl, sym, ap, ◌∙◌, ◌⊎◌, inl, inr, Bool, true, false, not, ◌&&◌, Option, none,
  some, List, [], ◌∷◌, Bytes, arith, Bool-cases, Option-cases,
}
use mathlib.Core.Path.{subst}
use hull.Net.Addr.{Addr, invalid, v4, v6, unmap, contains_addr}
use hull.Net.Policy.{Policy, normalize_name, allows_query}
use hull.Net.Divert.{Divert, Rule, link_local, new_diverts, match_divert, covers_name}
use hull.Net.Resolver.{
  Kind, a, cname, mx, ns, srv, txt, unsupported, Question, Handler, Reply, Zone, ZoneRecord,
  answer_a, add_upstream_answers, is_valid, is_a, is_blank, answer_default, add_local_answers,
  search_zones, or_default, find_record, answer_record, in_zone, answer_question, add_answers,
}
use hull.Net.Gateway.{Event, queried, refreshed, resolves, step, after, empty_reply}
use hull.Net.Forward.{udp_forwarder, Verdict, Request, diverts, drops, tcp_forwarder}
use hull.Net.LinkLocal.{
  AllClean, learn-AllClean, resolve-AllClean, new_diverts-AllClean, match_divert-literal,
}

module _ (fold : Bytes → Bytes) (guest : Addr) where
  answer_a-AllClean :
      (h : Handler) (m : Reply) (name : Bytes) (pins : Bool) (now later : ℕ)
      (o : Option (List Addr))
      → AllClean h.diverts
      → AllClean (answer_a fold h m name guest pins now later o).1.diverts
  answer_a-AllClean h m name pins now later none c = c
  answer_a-AllClean h m name pins now later (some addrs) c =
      learn-AllClean fold name addrs h.diverts c

  add_upstream_answers-AllClean :
      (h : Handler) (m : Reply) (name : Bytes) (kind : Kind) (pins : Bool) (now later : ℕ)
      → AllClean h.diverts
      → AllClean (add_upstream_answers fold h m name kind guest pins now later).1.diverts
  unfolding add_upstream_answers
  add_upstream_answers-AllClean h m name a pins now later c =
      answer_a-AllClean h m name pins now later (h.upstream.lookup_ip_addr name) c
  add_upstream_answers-AllClean h m name cname pins now later c = c
  add_upstream_answers-AllClean h m name mx pins now later c = c
  add_upstream_answers-AllClean h m name ns pins now later c = c
  add_upstream_answers-AllClean h m name srv pins now later c = c
  add_upstream_answers-AllClean h m name txt pins now later c = c
  add_upstream_answers-AllClean h m name (unsupported n) pins now later c = c

  answer_record-AllClean :
      (h : Handler) (m : Reply) (q : Question) (r : ZoneRecord)
      → AllClean h.diverts
      → AllClean (answer_record fold h m q r).1.diverts
  answer_record-AllClean h m q r c = elim (Bool-cases (is_a q.kind)) [
    | inr other ↦ rw other c
    | inl kind ↦ elim (Bool-cases (is_valid r.ip)) [
      | inl valid ↦ rw (kind, valid) (learn-AllClean fold q.name (r.ip ∷ []) h.diverts c)
      | inr unset ↦ rw (kind, unset) c
    ]
  ]

  or_default-AllClean :
      (h : Handler) (m : Reply) (q : Question) (z : Zone) (o : Option ZoneRecord)
      (rest : Option (Reply × Handler)) (r : Reply × Handler)
      → or_default fold h m q z o rest ≡ some r
      → (rest ≡ some r → AllClean r.1.diverts)
      → AllClean h.diverts
      → AllClean r.1.diverts
  or_default-AllClean h m q z (some x) rest r e later c =
      subst (λ (v : Reply × Handler). AllClean v.1.diverts) (some_inj e)
        (answer_record-AllClean h m q x c)
  or_default-AllClean h m q z none rest r e later c =
      elim (Bool-cases (is_blank (normalize_name fold z.name))) [
        | inl root ↦ later (ground (arith, e, root))
        | inr own ↦
            let same_answer : some (answer_default m q z.default_ip, h) ≡ some r =
              ground (arith, e, own) in
            subst (λ (v : Reply × Handler). AllClean v.1.diverts) (some_inj same_answer) c
      ]

  search_zones-AllClean :
      (h : Handler) (m : Reply) (q : Question) (zones : List Zone) (r : Reply × Handler)
      → search_zones fold h m q zones ≡ some r
      → AllClean h.diverts
      → AllClean r.1.diverts
  unfolding search_zones
  search_zones-AllClean h m q [] r e c = absurd (ground (arith, e))
  search_zones-AllClean h m q (z ∷ zones) r e c =
      elim (Option-cases (in_zone (normalize_name fold q.name) (normalize_name fold z.name))) [
        | inl outside ↦ search_zones-AllClean h m q zones r (ground (arith, e, outside)) c
        | inr (short, inside) ↦
            or_default-AllClean h m q z (find_record fold z.records short)
              (search_zones fold h m q zones) r (ground (arith, e, inside))
              (λ k. search_zones-AllClean h m q zones r k c) c
      ]

  answer_question-AllClean :
      (h : Handler) (m : Reply) (q : Question) (now later : ℕ) (r : Reply × Handler)
      → answer_question fold h m q guest now later ≡ some r
      → AllClean h.diverts
      → AllClean r.1.diverts
  unfolding answer_question add_local_answers
  answer_question-AllClean h m q now later r e c =
      let allowed = allows_query fold h.policy q.name in
      elim (Option-cases (search_zones fold h m q h.zones)) [
        | inr (s, local) ↦
            let same_answer : s ≡ r = ground (arith, e, local) in
            subst (λ (v : Reply × Handler). AllClean v.1.diverts) same_answer
              (search_zones-AllClean h m q h.zones s local c)
        | inl foreign ↦ elim (Bool-cases (not allowed && not (covers_name fold h.diverts q.name))) [
          | inl refused ↦ absurd (ground (arith, e, foreign, refused))
          | inr open_name ↦
              let same_answer : add_upstream_answers fold h m q.name q.kind guest allowed now later
                  ≡ r =
                ground (arith, e, foreign, open_name) in
              subst (λ (v : Reply × Handler). AllClean v.1.diverts) same_answer
                (add_upstream_answers-AllClean h m q.name q.kind allowed now later c)
        ]
      ]

  add_answers-AllClean :
      (h : Handler) (m : Reply) (qs : List (Question × ℕ × ℕ))
      → AllClean h.diverts
      → AllClean (add_answers fold h m qs guest).1.diverts
  unfolding add_answers
  add_answers-AllClean h m [] c = c
  add_answers-AllClean h m ((q, now, later) ∷ qs) c =
      elim (Option-cases (answer_question fold h m q guest now later)) [
        | inl refused ↦ rw (refused, add_answers) c
        | inr (r, e) ↦
            rw (e, add_answers)
              (add_answers-AllClean r.1 r.0 qs (answer_question-AllClean h m q now later r e c))
      ]

after-AllClean :
    (fold : Bytes → Bytes) (h : Handler) (es : List Event)
    → AllClean h.diverts
    → AllClean (after fold h es).diverts
unfolding after step
after-AllClean fold h [] c = c
after-AllClean fold h (queried up guest qs ∷ es) c =
    add_answers-AllClean fold guest (record (after fold h es) { upstream = up }) empty_reply qs
      (after-AllClean fold h es c)
after-AllClean fold h (refreshed lookup retention now later ∷ es) c = after-AllClean fold h es c
after-AllClean fold h (resolves lookup ∷ es) c =
    resolve-AllClean fold lookup (after fold h es).diverts (after-AllClean fold h es c)

unmap-link_local : (x : Addr) → contains_addr link_local x ≡ true → unmap x ≡ x
unfolding unmap contains_addr
unmap-link_local invalid h = refl
unmap-link_local (v4 n) h = refl
unmap-link_local (v6 n z) h = absurd (ground (arith, h))

-- Dropped, or taken by a divert that was given by an address.
abbrev pub IsKeptLocal : Verdict → Type 0
IsKeptLocal v = (v ≡ drops) ⊎ ((rule : Rule) × (v ≡ diverts rule) × (rule.named ≡ false))

tcp_forwarder-IsKeptLocal :
    (policy : Option Policy) (rules : List Rule) (gateway : Addr) (r : Request) (now : ℕ)
    → AllClean rules
    → contains_addr link_local r.dst ≡ true
    → IsKeptLocal (tcp_forwarder policy rules gateway r now)
unfolding tcp_forwarder
tcp_forwarder-IsKeptLocal policy rules gateway r now c near =
    let unmapped = unmap-link_local r.dst near in
    let near_twice : contains_addr link_local (unmap (unmap r.dst)) ≡ true =
      ap (λ v. contains_addr link_local v) (ap unmap unmapped ∙ unmapped) ∙ near in
    elim (Option-cases (match_divert rules (unmap r.dst) r.port)) [
      | inl undiverted ↦ inl (ground (arith, undiverted, near))
      | inr (rule, found) ↦ inr (
        rule,
        ground (arith, found),
        match_divert-literal rules (unmap r.dst) r.port rule c near_twice found,
      )
    ]

-- Behind any history of queries, refreshes and resolutions that began with the diverts of the
-- command line, a TCP connection to an IPv4 link-local address is dropped, or goes to the socket of
-- a divert that was given by an address and not by a name; a datagram to one is dropped. So neither
-- is dialled, and no name leads there.
pub forwarders-link_local :
    (fold : Bytes → Bytes) (ds : List Divert) (h : Handler) (es : List Event)
    (policy : Option Policy) (gateway : Addr) (r : Request) (now : ℕ)
    → h.diverts ≡ new_diverts ds
    → contains_addr link_local r.dst ≡ true
    → IsKeptLocal (tcp_forwarder policy (after fold h es).diverts gateway r now)
      × (udp_forwarder policy (after fold h es).diverts gateway r now ≡ drops)
unfolding udp_forwarder
forwarders-link_local fold ds h es policy gateway r now start near =
    let c : AllClean (after fold h es).diverts =
      after-AllClean fold h es (subst (λ v. AllClean v) (sym start) (new_diverts-AllClean ds)) in
    (
      tcp_forwarder-IsKeptLocal policy (after fold h es).diverts gateway r now c near,
      ground (arith, near),
    )
