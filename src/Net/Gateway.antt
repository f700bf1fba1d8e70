-- ===== src/Net/Gateway.antt =====
-- The gateway over time: queries of guests, refreshes of the literal hosts (`WatchHosts`), and
-- resolutions of the diverted names (`watch`), in any order.
use hull.Prelude.{ℕ, Option, none, some, List, [], ◌∷◌, Bytes}
use hull.Net.Addr.{Addr}
use hull.Net.Policy.{Policy}
use hull.Net.Pins.{refresh_hosts}
use hull.Net.Divert.{resolve}
use hull.Net.Resolver.{Upstream, Question, Handler, Reply, success, add_answers}

pub data Event : Type 0 where
  queried : Upstream → Addr → List (Question × ℕ × ℕ) → Event
  refreshed : (Bytes → Option (List Addr)) → ℕ → ℕ → ℕ → Event
  resolves : (Bytes → Option (List Addr)) → Event

abbrev pub refresh_policy : (Bytes → Option (List Addr)) → ℕ → ℕ → ℕ → Option Policy → Option Policy
refresh_policy lookup retention now later none = none
refresh_policy lookup retention now later (some p) =
    some (refresh_hosts p lookup retention now later)

abbrev pub empty_reply : Reply
empty_reply = record { answers = []; rcode = success }

unfoldable pub step : (Bytes → Bytes) → Handler → Event → Handler
step fold h (queried up guest qs) =
    (add_answers fold (record h { upstream = up }) empty_reply qs guest).1
step fold h (refreshed lookup retention now later) = record h {
  policy = refresh_policy lookup retention now later h.policy;
}
step fold h (resolves lookup) = record h { diverts = resolve fold lookup h.diverts }

-- The state behind a history, the last event first.
unfoldable pub after : (Bytes → Bytes) → Handler → List Event → Handler
after fold h [] = h
after fold h (e ∷ es) = step fold (after fold h es) e
