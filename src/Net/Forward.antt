-- ===== src/Net/Forward.antt =====
-- internal/netgw/forwarder.go: where a guest's connection or datagram goes, the counters of a divert,
-- and the log of rejections. What the stack and the sockets answer is given.
use hull.Prelude.{
  ℕ, ◌+◌, ◌-◌, ◌*◌, Bool, true, false, not, ◌||◌, Option, none, some, List, [], ◌∷◌, Bytes,
  if◌then◌else◌, ltb, same,
}
use hull.Supervisor.Policy.{second}
use hull.Net.Addr.{Addr, v4, same_addr, unmap, contains_addr}
use hull.Net.Policy.{Policy}
use hull.Net.Pins.{allows_connection}
use hull.Net.Divert.{Rule, link_local, match_divert}

-- A connection that the stack hands over; addresses are as the stack has them, so IPv4 ones are `v4`.
pub record Request : Type 0 where
  pub guest : Addr
  pub dst : Addr
  pub port : ℕ

pub data Verdict : Type 0 where
  diverts : Rule → Verdict
  drops : Verdict
  rejects : Verdict
  dials : Verdict

abbrev pub tcp_undiverted : Option Policy → Addr → Request → ℕ → Verdict
tcp_undiverted policy gateway r now =
    if contains_addr link_local r.dst
    then drops
    else if same_addr r.dst gateway
    then drops
    else if not (allows_connection policy (unmap r.guest) (unmap r.dst) now)
    then rejects
    else dials

-- `rejects` is a drop that is reported. A TCP connection that is dropped is reset.
unfoldable pub tcp_forwarder : Option Policy → List Rule → Addr → Request → ℕ → Verdict
tcp_forwarder policy rules gateway r now = elim (match_divert rules (unmap r.dst) r.port) [
  | some rule ↦ diverts rule
  | none ↦ tcp_undiverted policy gateway r now
]

abbrev pub is_diverted : Option Rule → Bool
is_diverted none = false
is_diverted (some rule) = true

abbrev pub broadcast : Addr
broadcast = v4 0xffffffff

unfoldable pub udp_forwarder : Option Policy → List Rule → Addr → Request → ℕ → Verdict
udp_forwarder policy rules gateway r now =
    if contains_addr link_local r.dst || same_addr r.dst broadcast
    then drops
    else if is_diverted (match_divert rules (unmap r.dst) r.port) || same_addr r.dst gateway
    then drops
    else if not (allows_connection policy (unmap r.guest) (unmap r.dst) now)
    then rejects
    else dials

-- `serve`: whether the socket could be connected and the endpoint made.
pub data Served : Type 0 where
  reset closed relayed : Served

unfoldable pub serve : Rule → Bool → Bool → Rule × Served
serve r connects has_endpoint =
    if not connects
    then (record r { failed = r.failed + 1 }, reset)
    else if not has_endpoint
    then (r, closed)
    else (record r { diverted = r.diverted + 1 }, relayed)

abbrev pub reject_log_interval : ℕ
reject_log_interval = 30 * second

abbrev pub Seen : Type 0
Seen = List (Bytes × ℕ)

unfoldable pub seen_at : Bytes → Seen → Option ℕ
seen_at k [] = none
seen_at k ((j, t) ∷ seen) = if same j k then some t else seen_at k seen

unfoldable pub set_seen : Bytes → ℕ → Seen → Seen
set_seen k now [] = (k, now) ∷ []
set_seen k now ((j, t) ∷ seen) =
    let rest = set_seen k now seen in if same j k then (k, now) ∷ seen else (j, t) ∷ rest

unfoldable pub drop_old : ℕ → Seen → Seen
drop_old now [] = []
drop_old now ((j, t) ∷ seen) =
    let rest = drop_old now seen in
    if ltb reject_log_interval (now - t) then rest else (j, t) ∷ rest

abbrev pub is_recent : ℕ → Option ℕ → Bool
is_recent now none = false
is_recent now (some last) = ltb (now - last) reject_log_interval

-- `first`: whether the key is due a line. The clock of Go's `Sub` does not go back.
unfoldable pub first : Option Seen → Bytes → ℕ → Bool × Option Seen
first none key now = (true, none)
first (some seen) key now =
    if is_recent now (seen_at key seen)
    then (false, some seen)
    else (true, some (drop_old now (set_seen key now seen)))
