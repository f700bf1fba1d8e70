-- ===== src/Net/Addr.antt =====
-- What the gateway uses of net/netip: addresses, prefixes, and maps keyed by an address.
use hull.Prelude.{
  ℕ, ◌-◌, ◌*◌, ◌/◌, ◌%◌, ◌^◌, ◌≡◌, refl, ◌⊎◌, inl, inr, Bool, true, false, ◌&&◌, Option, none, some,
  List, [], ◌∷◌, Bytes, arith, if◌then◌else◌, ◌==◌, same, same→eq, same_refl, In, Bool-cases,
}

-- `netip.Addr`. An IPv6 address has a zone, which is mostly empty.
pub data Addr : Type 0 where
  invalid : Addr
  v4 : ℕ → Addr
  v6 : ℕ → Bytes → Addr

unfoldable pub same_addr : Addr → Addr → Bool
same_addr invalid invalid = true
same_addr (v4 a) (v4 b) = a == b
same_addr (v6 a z) (v6 b y) = a == b && same z y
same_addr _ _ = false

pub same_addr→eq : (a b : Addr) → same_addr a b ≡ true → a ≡ b
unfolding same_addr
same_addr→eq invalid invalid h = refl
same_addr→eq (v4 a) (v4 b) h = ground arith
same_addr→eq (v6 a z) (v6 b y) h = ground (arith, same→eq z y)
same_addr→eq invalid (v4 b) h = cc
same_addr→eq invalid (v6 b y) h = cc
same_addr→eq (v4 a) invalid h = cc
same_addr→eq (v4 a) (v6 b y) h = cc
same_addr→eq (v6 a z) invalid h = cc
same_addr→eq (v6 a z) (v4 b) h = cc

pub same_addr_refl : (a : Addr) → same_addr a a ≡ true
unfolding same_addr
same_addr_refl invalid = refl
same_addr_refl (v4 a) = ground arith
same_addr_refl (v6 a z) = ground (arith, same_refl z)

-- `a.Unmap()`: an IPv4 address in IPv6 form becomes one.
unfoldable pub unmap : Addr → Addr
unmap invalid = invalid
unmap (v4 a) = v4 a
unmap (v6 a z) = if a / 2 ^ 32 == 0xffff then v4 (a % 2 ^ 32) else v6 a z

pub unmap-unmap : (x : Addr) → unmap (unmap x) ≡ unmap x
unfolding unmap
unmap-unmap invalid = refl
unmap-unmap (v4 n) = refl
unmap-unmap (v6 n z) = ground arith

-- `netip.Prefix`, with a valid number of bits.
pub record Prefix : Type 0 where
  pub addr : Addr
  pub bits : ℕ

abbrev pub has_no_zone : Bytes → Bool
has_no_zone [] = true
has_no_zone (_ ∷ _) = false

abbrev pub within_prefix : Addr → ℕ → Addr → Bool
within_prefix (v4 p) bits (v4 a) = p / 2 ^ (32 - bits) == a / 2 ^ (32 - bits)
within_prefix (v6 p y) bits (v6 a z) = has_no_zone z && p / 2 ^ (128 - bits) == a / 2 ^ (128 - bits)
within_prefix _ bits _ = false

-- `p.Contains(a)`.
unfoldable pub contains_addr : Prefix → Addr → Bool
contains_addr p a = within_prefix p.addr p.bits a

-- `p.Masked()`.
abbrev pub masked_addr : ℕ → Addr → Addr
masked_addr bits invalid = invalid
masked_addr bits (v4 a) = v4 (a / 2 ^ (32 - bits) * 2 ^ (32 - bits))
masked_addr bits (v6 a z) = v6 (a / 2 ^ (128 - bits) * 2 ^ (128 - bits)) []

unfoldable pub masked : Prefix → Prefix
masked p = record p { addr = masked_addr p.bits p.addr }

-- A Go map keyed by addresses, as its entries.
module _ {V : Type 0} where
  unfoldable pub lookup_addr : Addr → List (Addr × V) → Option V
  lookup_addr k [] = none
  lookup_addr k ((j, v) ∷ m) = if same_addr j k then some v else lookup_addr k m

  unfoldable pub insert_addr : Addr → V → List (Addr × V) → List (Addr × V)
  insert_addr k v [] = (k, v) ∷ []
  insert_addr k v ((j, w) ∷ m) =
      let rest = insert_addr k v m in if same_addr j k then (k, v) ∷ m else (j, w) ∷ rest

  -- The entries that pass, as after a loop that deletes the others.
  unfoldable pub retain : (V → Bool) → List (Addr × V) → List (Addr × V)
  retain ok [] = []
  retain ok ((j, w) ∷ m) = let rest = retain ok m in if ok w then (j, w) ∷ rest else rest

  pub lookup_addr-In :
      (k : Addr) (v : V) (m : List (Addr × V)) → lookup_addr k m ≡ some v → In (k, v) m
  unfolding lookup_addr
  lookup_addr-In k v [] h = absurd (ground arith)
  lookup_addr-In k v ((j, w) ∷ m) h = elim (Bool-cases (same_addr j k)) [
    | inl here ↦ inl (ground (arith, h, here, same_addr→eq j k here))
    | inr there ↦ inr (lookup_addr-In k v m (ground (arith, h, there)))
  ]

  pub In-insert_addr :
      (k : Addr) (v : V) (e : Addr × V) (m : List (Addr × V))
      → In e (insert_addr k v m)
      → (e ≡ (k, v)) ⊎ In e m
  unfolding insert_addr
  In-insert_addr k v e [] (inl h) = inl h
  In-insert_addr k v e [] (inr h) = inr h
  In-insert_addr k v e ((j, w) ∷ m) h = ground (arith, In-insert_addr k v e m)

  pub In-retain : (ok : V → Bool) (e : Addr × V) (m : List (Addr × V)) → In e (retain ok m) → In e m
  unfolding retain
  In-retain ok e [] h = h
  In-retain ok e ((j, w) ∷ m) h = ground (arith, In-retain ok e m)

  pub lookup_addr-insert_addr :
      (k j : Addr) (v : V) (m : List (Addr × V))
      → lookup_addr j (insert_addr k v m) ≡ (if same_addr k j then some v else lookup_addr j m)
  unfolding lookup_addr insert_addr
  lookup_addr-insert_addr k j v [] = refl
  lookup_addr-insert_addr k j v ((i, w) ∷ m) = ground (
    arith,
    same_addr→eq k j,
    same_addr→eq i k,
    same_addr→eq i j,
    same_addr_refl j,
    same_addr_refl k,
    same_addr_refl i,
    lookup_addr-insert_addr k j v m,
  )

  pub lookup_addr-retain :
      (ok : V → Bool) (k : Addr) (v : V) (m : List (Addr × V))
      → lookup_addr k m ≡ some v
      → ok v ≡ true
      → lookup_addr k (retain ok m) ≡ some v
  unfolding lookup_addr retain
  lookup_addr-retain ok k v [] h o = absurd (ground arith)
  lookup_addr-retain ok k v ((j, w) ∷ m) h o = ground (arith, lookup_addr-retain ok k v m)
