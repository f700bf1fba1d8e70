-- ===== src/Net/Steps.antt =====
-- Every event keeps the state explained.
use hull.Prelude.{
  some_inj, ℕ, ◌+◌, ◌≡◌, refl, sym, ap, ◌∙◌, inl, inr, Bool, true, false, not, ◌&&◌, Option, none,
  some, List, [], ◌∷◌, Bytes, arith, In, Bool-cases, Option-cases,
}
use mathlib.Core.Path.{subst}
use hull.Net.Addr.{Addr, unmap}
use hull.Net.Policy.{pin_ttl, pin_grace, Policy, normalize_name, allows_query, denies_query}
use hull.Net.Pins.{pin}
use hull.Net.Divert.{covers_name}
use hull.Net.Resolver.{
  Kind, a, cname, mx, ns, srv, txt, unsupported, Question, Upstream, Handler, Reply, Zone,
  ZoneRecord, only_v4, answer_a, pin_answer, is_valid, add_upstream_answers, add_local_answers,
  search_zones, or_default, find_record, answer_record, in_zone, answer_question, add_answers, is_a,
  is_blank, answer_default,
}
use hull.Net.Provenance.{pin-PinsFrom}
use hull.Net.Refresh.{refresh-IsExplained}
use hull.Net.Gateway.{Event, queried, refreshed, resolves, step, after, empty_reply}
use hull.Net.Explained.{
  Learned, learned, IsExplained, widen, allows_query_same, denies_query_same, only_v4-In,
}

pin_rest :
    (p : Policy) (guest : Addr) (addrs : List Addr) (denied : Bool) (now later : ℕ)
    → record p { pins = (pin p guest addrs denied now later).pins }
      ≡ pin p guest addrs denied now later
unfolding pin
pin_rest p guest [] denied now later = refl
pin_rest p guest (x ∷ addrs) denied now later = refl

module _ (fold : Bytes → Bytes) (rules : Policy) (up : Upstream) (guest : Addr)
    (all : List (Question × ℕ × ℕ)) (es : List Event) where
  abbrev history : List Event
  history = queried up guest all ∷ es

  pin-IsExplained :
      (p : Policy) (q : Question) (now later : ℕ) (addrs : List Addr)
      → In (q, now, later) all
      → q.kind ≡ a
      → allows_query fold (some p) q.name ≡ true
      → up.lookup_ip_addr q.name ≡ some addrs
      → IsExplained fold rules history (some p)
      → IsExplained fold rules history
          (some (pin p guest (only_v4 addrs) (denies_query fold (some p) q.name) now later))
  pin-IsExplained p q now later addrs i k allowed found (r, pins, resolved) =
      let denied = denies_query fold (some p) q.name in
      let source : (y : Addr)
          → In y (only_v4 addrs)
          → denied ≡ false
          → Learned fold rules history (unmap guest) (unmap y) (now + (pin_ttl + pin_grace)) =
        λ y j free.
          let (x, l, e) = only_v4-In y addrs j in
          learned up guest all q now later addrs x (inl refl) i k
            (sym (allows_query_same fold rules p q.name r) ∙ allowed)
            (sym (denies_query_same fold rules p q.name r) ∙ free) found l e refl refl in
      subst (λ v. IsExplained fold rules history (some v))
        (pin_rest p guest (only_v4 addrs) denied now later)
        (
          r,
          pin-PinsFrom (Learned fold rules history) p guest (only_v4 addrs) denied now later source
              pins,
          resolved,
        )

  pin_answer-IsExplained :
      (o : Option Policy) (q : Question) (now later : ℕ) (addrs : List Addr)
      → In (q, now, later) all
      → q.kind ≡ a
      → allows_query fold o q.name ≡ true
      → up.lookup_ip_addr q.name ≡ some addrs
      → IsExplained fold rules history o
      → IsExplained fold rules history (pin_answer fold o guest q.name (only_v4 addrs) now later)
  pin_answer-IsExplained none q now later addrs i k allowed found h = h
  pin_answer-IsExplained (some p) q now later addrs i k allowed found h =
      elim (Bool-cases (is_valid guest)) [
        | inl valid ↦ rw valid (pin-IsExplained p q now later addrs i k allowed found h)
        | inr other ↦ rw other h
      ]

  -- What a handler keeps while the message is answered.
  abbrev Going : Handler → Type 0
  Going h = (h.upstream ≡ up) × IsExplained fold rules history h.policy

  answer_a-Going :
      (h : Handler) (m : Reply) (q : Question) (now later : ℕ) (pins : Bool)
      (o : Option (List Addr))
      → In (q, now, later) all
      → q.kind ≡ a
      → (pins ≡ true → allows_query fold h.policy q.name ≡ true)
      → up.lookup_ip_addr q.name ≡ o
      → Going h
      → Going (answer_a fold h m q.name guest pins now later o).1
  answer_a-Going h m q now later pins none i k allowed found g = g
  answer_a-Going h m q now later true (some addrs) i k allowed found (u, x) =
      (u, pin_answer-IsExplained h.policy q now later addrs i k (allowed refl) found x)
  answer_a-Going h m q now later false (some addrs) i k allowed found g = g

  add_upstream_answers-Going :
      (h : Handler) (m : Reply) (q : Question) (kind : Kind) (now later : ℕ) (pins : Bool)
      → In (q, now, later) all
      → q.kind ≡ kind
      → (pins ≡ true → allows_query fold h.policy q.name ≡ true)
      → Going h
      → Going (add_upstream_answers fold h m q.name kind guest pins now later).1
  unfolding add_upstream_answers
  add_upstream_answers-Going h m q a now later pins i k allowed (u, x) =
      answer_a-Going h m q now later pins (h.upstream.lookup_ip_addr q.name) i k allowed
        (ap (λ (v : Upstream). v.lookup_ip_addr q.name) (sym u)) (u, x)
  add_upstream_answers-Going h m q cname now later pins i k allowed g = g
  add_upstream_answers-Going h m q mx now later pins i k allowed g = g
  add_upstream_answers-Going h m q ns now later pins i k allowed g = g
  add_upstream_answers-Going h m q srv now later pins i k allowed g = g
  add_upstream_answers-Going h m q txt now later pins i k allowed g = g
  add_upstream_answers-Going h m q (unsupported n) now later pins i k allowed g = g

  -- The records of the gateway change the diverts at most.
  answer_record-Going :
      (h : Handler) (m : Reply) (q : Question) (r : ZoneRecord)
      → Going h
      → Going (answer_record fold h m q r).1
  answer_record-Going h m q r g = elim (Bool-cases (is_a q.kind)) [
    | inr other ↦ rw other g
    | inl kind ↦ elim (Bool-cases (is_valid r.ip)) [
      | inl valid ↦ rw (kind, valid) g
      | inr unset ↦ rw (kind, unset) g
    ]
  ]

  or_default-Going :
      (h : Handler) (m : Reply) (q : Question) (z : Zone) (o : Option ZoneRecord)
      (rest : Option (Reply × Handler)) (r : Reply × Handler)
      → or_default fold h m q z o rest ≡ some r
      → (rest ≡ some r → Going r.1)
      → Going h
      → Going r.1
  or_default-Going h m q z (some x) rest r e later g =
      subst (λ (v : Reply × Handler). Going v.1) (some_inj e) (answer_record-Going h m q x g)
  or_default-Going h m q z none rest r e later g =
      elim (Bool-cases (is_blank (normalize_name fold z.name))) [
        | inl root ↦ later (ground (arith, e, root))
        | inr own ↦
            let same : some (answer_default m q z.default_ip, h) ≡ some r =
              ground (arith, e, own) in
            subst (λ (v : Reply × Handler). Going v.1) (some_inj same) g
      ]

  search_zones-Going :
      (h : Handler) (m : Reply) (q : Question) (zones : List Zone) (r : Reply × Handler)
      → search_zones fold h m q zones ≡ some r
      → Going h
      → Going r.1
  unfolding search_zones
  search_zones-Going h m q [] r e g = absurd (ground (arith, e))
  search_zones-Going h m q (z ∷ zones) r e g =
      elim (Option-cases (in_zone (normalize_name fold q.name) (normalize_name fold z.name))) [
        | inl outside ↦ search_zones-Going h m q zones r (ground (arith, e, outside)) g
        | inr (short, inside) ↦
            or_default-Going h m q z (find_record fold z.records short)
              (search_zones fold h m q zones) r (ground (arith, e, inside))
              (λ k. search_zones-Going h m q zones r k g) g
      ]

  answer_question-Going :
      (h : Handler) (m : Reply) (q : Question) (now later : ℕ) (r : Reply × Handler)
      → In (q, now, later) all
      → answer_question fold h m q guest now later ≡ some r
      → Going h
      → Going r.1
  unfolding answer_question add_local_answers
  answer_question-Going h m q now later r i e g =
      let allowed = allows_query fold h.policy q.name in
      elim (Option-cases (search_zones fold h m q h.zones)) [
        | inr (s, local) ↦
            let same : s ≡ r = ground (arith, e, local) in
            subst (λ (v : Reply × Handler). Going v.1) same
              (search_zones-Going h m q h.zones s local g)
        | inl foreign ↦ elim (Bool-cases (not allowed && not (covers_name fold h.diverts q.name))) [
          | inl refused ↦ absurd (ground (arith, e, foreign, refused))
          | inr open_name ↦
              let same : add_upstream_answers fold h m q.name q.kind guest allowed now later ≡ r =
                ground (arith, e, foreign, open_name) in
              subst (λ (v : Reply × Handler). Going v.1) same
                (add_upstream_answers-Going h m q q.kind now later allowed i refl (λ k. k) g)
        ]
      ]

  add_answers-Going :
      (h : Handler) (m : Reply) (qs : List (Question × ℕ × ℕ))
      → ((x : Question × ℕ × ℕ) → In x qs → In x all)
      → Going h
      → Going (add_answers fold h m qs guest).1
  unfolding add_answers
  add_answers-Going h m [] sub g = g
  add_answers-Going h m ((q, now, later) ∷ qs) sub g =
      elim (Option-cases (answer_question fold h m q guest now later)) [
        | inl refused ↦ rw (refused, add_answers) g
        | inr (r, e) ↦
            rw (e, add_answers)
              (add_answers-Going r.1 r.0 qs (λ x i. sub x (inr i))
                (answer_question-Going h m q now later r (sub (q, now, later) (inl refl)) e g))
      ]

step-IsExplained :
    (fold : Bytes → Bytes) (rules : Policy) (es : List Event) (h : Handler) (e : Event)
    → IsExplained fold rules es h.policy
    → IsExplained fold rules (e ∷ es) (step fold h e).policy
unfolding step
step-IsExplained fold rules es h (queried up guest qs) x =
    (add_answers-Going fold rules up guest qs es (record h { upstream = up }) empty_reply qs
      (λ y i. i) (refl, widen fold rules (queried up guest qs) es h.policy x)).1
step-IsExplained fold rules es h (refreshed lookup retention now later) x =
    refresh-IsExplained fold rules es lookup retention now later h.policy x
step-IsExplained fold rules es h (resolves lookup) x =
    widen fold rules (resolves lookup) es h.policy x

pub after-IsExplained :
    (fold : Bytes → Bytes) (rules : Policy) (h : Handler) (es : List Event)
    → IsExplained fold rules [] h.policy
    → IsExplained fold rules es (after fold h es).policy
unfolding after
after-IsExplained fold rules h [] x = x
after-IsExplained fold rules h (e ∷ es) x =
    step-IsExplained fold rules es (after fold h es) e (after-IsExplained fold rules h es x)
