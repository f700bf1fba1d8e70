-- ===== src/Net/ParseAddr.antt =====
-- `netip.ParsePrefix` and `netip.ParseAddr`, as the standard library has them.
use hull.Prelude.{
  ℕ, zero, suc, ◌+◌, ◌-◌, ◌*◌, ◌/◌, ◌%◌, ◌≡◌, refl, Bool, true, false, not, ◌&&◌, ◌||◌, Option,
  none, some, List, [], ◌∷◌, ◌++◌, Bytes, if◌then◌else◌, leb, ltb, ◌==◌, length, replicate, codes,
  within, split, cut,
}
use hull.Prelude.Int.{ℤ, pos, negsuc}
use hull.Text.Number.{scan, atoi}
use hull.Net.Addr.{Addr, invalid, v4, v6, Prefix}

-- One field of an IPv4 address: digits with no leading zero, at most 255.
abbrev octet_value : Option ℕ → Option ℕ
octet_value none = none
octet_value (some n) = if leb n 255 then some n else none

abbrev octet : Bytes → Option ℕ
octet [] = none
octet (c ∷ []) = octet_value (scan 0 (c ∷ []))
octet (c ∷ d ∷ s) = if c == b'0' then none else octet_value (scan 0 (c ∷ d ∷ s))

abbrev ipv4_of : Option ℕ → Option ℕ → Option ℕ → Option ℕ → Option ℕ
ipv4_of (some a) (some b) (some c) (some d) = some (((a * 256 + b) * 256 + c) * 256 + d)
ipv4_of _ _ _ _ = none

abbrev ipv4_fields : List Bytes → Option ℕ
ipv4_fields (a ∷ b ∷ c ∷ d ∷ []) = ipv4_of (octet a) (octet b) (octet c) (octet d)
ipv4_fields _ = none

parse_ipv4 : Bytes → Option ℕ
parse_ipv4 s = ipv4_fields (split b'.' s)

-- The hexadecimal digits in front: their number, their value, and the rest.
abbrev hex_value : ℕ → Option ℕ
hex_value c =
    if within b'0' b'9' c
    then some (c - b'0')
    else if within b'a' b'f' c
    then some (c - b'a' + 10)
    else if within b'A' b'F' c
    then some (c - b'A' + 10)
    else none

hex_run : ℕ → ℕ → Bytes → ℕ × ℕ × Bytes
hex_run n v [] = (n, v, [])
hex_run n v (c ∷ s) = elim (hex_value c) [
  | none ↦ (n, v, c ∷ s)
  | some d ↦ hex_run (n + 1) (v * 16 + d) s
]

-- The groups of 16 bits on both sides of the `::`, if there is one.
pub record Groups : Type 0 where
  pub front : List ℕ
  pub back : List ℕ
  pub ellipsis : Bool

abbrev empty_groups : Groups
empty_groups = record { front = []; back = []; ellipsis = false }

abbrev add_group : ℕ → Groups → Groups
add_group v g =
    if g.ellipsis
    then record g { back = g.back ++ v ∷ [] }
    else record g { front = g.front ++ v ∷ [] }

abbrev group_count : Groups → ℕ
group_count g = length g.front + length g.back

abbrev add_ipv4 : Groups → Option ℕ → Option Groups
add_ipv4 g none = none
add_ipv4 g (some a) = some (add_group (a % 65536) (add_group (a / 65536) g))

abbrev ends_in_ipv4 : Groups → Bytes → Option Groups
ends_in_ipv4 g s =
    if not g.ellipsis && not (group_count g == 6)
    then none
    else if ltb 6 (group_count g)
    then none
    else add_ipv4 g (parse_ipv4 s)

-- The loop; a round takes a byte at least. A ninth group leaves text behind.
groups : ℕ → Groups → Bytes → Option Groups
groups zero g s = none
groups (suc f) g s =
    let (n, v, rest) = hex_run 0 0 s in
    let more = add_group v g in
    if leb 8 (group_count g)
    then elim s [ [] ↦ some g | _ ∷ _ ↦ none ]
    else if n == 0 || ltb 4 n
    then none
    else elim rest [
      | [] ↦ some more
      | c ∷ t ↦ if c == b'.' then ends_in_ipv4 g s else if not (c == b':') then none else elim t [
        | [] ↦ none
        | d ∷ u ↦
            if d == b':'
            then if more.ellipsis then none else elim u [
              | [] ↦ some (record more { ellipsis = true })
              | e ∷ w ↦ groups f (record more { ellipsis = true }) (e ∷ w)
            ]
            else groups f more (d ∷ u)
      ]
    ]

abbrev group_number : ℕ → List ℕ → ℕ
group_number n [] = n
group_number n (v ∷ vs) = group_number (n * 65536 + v) vs

abbrev filled : Bytes → Option Groups → Option Addr
filled zone none = none
filled zone (some g) =
    if g.ellipsis
    then if leb 8 (group_count g)
      then none
      else some (v6 (group_number 0 (g.front ++ replicate (8 - group_count g) 0 ++ g.back)) zone)
    else if group_count g == 8
    then some (v6 (group_number 0 g.front) zone)
    else none

abbrev ipv6_text : Bytes → Bytes → Option Addr
ipv6_text zone s =
    let plain = filled zone (groups (suc (length s)) empty_groups s) in
    elim s [
      | [] ↦ plain
      | c ∷ t ↦ elim t [
        | [] ↦ plain
        | d ∷ u ↦
            if c == b':' && d == b':'
            then elim u [
              | [] ↦ some (v6 0 zone)
              | e ∷ w ↦
                  filled zone (
                    groups (suc (length (e ∷ w))) (record empty_groups { ellipsis = true }) (e ∷ w))
            ]
            else plain
      ]
    ]

parse_ipv6 : Bytes → Option Addr
parse_ipv6 s =
    let c = cut b'%' s in
    if c.found
    then elim c.after [ [] ↦ none | _ ∷ _ ↦ ipv6_text c.after c.before ]
    else ipv6_text [] s

abbrev as_v4 : Option ℕ → Option Addr
as_v4 none = none
as_v4 (some a) = some (v4 a)

-- The first of `.`, `:` and `%` decides.
by_first : Bytes → Bytes → Option Addr
by_first s [] = none
by_first s (c ∷ t) =
    if c == b'.'
    then as_v4 (parse_ipv4 s)
    else if c == b':'
    then parse_ipv6 s
    else if c == b'%'
    then none
    else by_first s t

unfoldable pub parse_addr : Bytes → Option Addr
unfolding parse_ipv4 hex_run groups parse_ipv6 by_first
parse_addr s = by_first s s

-- The text in front of the last slash and behind it.
abbrev before_slash : Bytes → Bytes → Option (Bytes × Bytes) → Option (Bytes × Bytes)
before_slash s t none = none
before_slash s t (some (a, b)) = some (a, b)

last_slash : Bytes → Option (Bytes × Bytes)
last_slash [] = none
last_slash (c ∷ s) = elim (last_slash s) [
  | some (a, b) ↦ some (c ∷ a, b)
  | none ↦ if c == b'/' then some ([], s) else none
]

abbrev plain_bits : Bytes → Bool
plain_bits [] = true
plain_bits (_ ∷ []) = true
plain_bits (c ∷ _ ∷ _) = within b'1' b'9' c

abbrev max_bits : Addr → ℕ
max_bits invalid = 0
max_bits (v4 a) = 32
max_bits (v6 a z) = 128

abbrev has_zone : Addr → Bool
has_zone invalid = false
has_zone (v4 a) = false
has_zone (v6 a []) = false
has_zone (v6 a (_ ∷ _)) = true

abbrev prefix_from : Addr → Option ℤ → Option Prefix
prefix_from a none = none
prefix_from a (some (negsuc n)) = none
prefix_from a (some (pos n)) =
    if leb n (max_bits a) then some (record { addr = a; bits = n }) else none

abbrev prefix_of : Option Addr → Bytes → Option Prefix
prefix_of none bits = none
prefix_of (some a) bits =
    if has_zone a || not (plain_bits bits) then none else prefix_from a (atoi bits)

unfoldable pub parse_prefix : Bytes → Option Prefix
unfolding last_slash
parse_prefix s = elim (last_slash s) [ none ↦ none | some (a, b) ↦ prefix_of (parse_addr a) b ]

ten : parse_prefix (codes "10.1.0.0/16") ≡ some (record { addr = v4 0x0a010000; bits = 16 })
unfolding parse_prefix parse_addr split scan atoi
ten = refl

mapped : parse_addr (codes "::ffff:1.2.3.4") ≡ some (v6 0xffff01020304 [])
unfolding parse_addr split cut scan
mapped = refl

doc_net :
    parse_prefix (codes "2001:db8::/32")
    ≡ some (record { addr = v6 0x20010db8000000000000000000000000 []; bits = 32 })
unfolding parse_prefix parse_addr cut atoi
doc_net = refl

leading_zero : parse_addr (codes "10.01.0.0") ≡ none
unfolding parse_addr split scan
leading_zero = refl
