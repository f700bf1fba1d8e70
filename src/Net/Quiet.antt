-- ===== src/Net/Quiet.antt =====
-- The log of rejections writes at most one line per key in each interval.
use hull.Prelude.{
  ℕ, ◌+◌, ◌<◌, ◌≡◌, refl, inl, inr, true, false, Option, none, some, List, [], ◌∷◌, Bytes, arith,
  if◌then◌else◌, same, same→eq, same_refl, In, Bool-cases,
}
use hull.Net.Forward.{Seen, reject_log_interval, seen_at, set_seen, drop_old, is_recent, first}

-- The log behind further calls, each with its key and its time, the last call first.
unfoldable pub after_calls : Option Seen → List (Bytes × ℕ) → Option Seen
after_calls seen [] = seen
after_calls seen ((key, now) ∷ calls) = (first (after_calls seen calls) key now).1

seen_at-set_seen :
    (k j : Bytes) (now : ℕ) (seen : Seen)
    → seen_at k (set_seen j now seen) ≡ (if same j k then some now else seen_at k seen)
unfolding seen_at set_seen
seen_at-set_seen k j now [] = refl
seen_at-set_seen k j now ((i, t) ∷ seen) = ground (
  arith,
  same→eq j k,
  same→eq i k,
  same→eq i j,
  same_refl j,
  same_refl k,
  same_refl i,
  seen_at-set_seen k j now seen,
)

seen_at-drop_old :
    (k : Bytes) (now t : ℕ) (seen : Seen)
    → seen_at k seen ≡ some t
    → now < t + reject_log_interval
    → seen_at k (drop_old now seen) ≡ some t
unfolding seen_at drop_old
seen_at-drop_old k now t [] h n = absurd (ground (arith, h))
seen_at-drop_old k now t ((i, s) ∷ seen) h n = ground (arith, h, n, seen_at-drop_old k now t seen)

abbrev IsSeen : Bytes → ℕ → Option Seen → Type 0
IsSeen k t none = ⊥
IsSeen k t (some seen) = seen_at k seen ≡ some t

first-IsSeen :
    (k j : Bytes) (t now : ℕ) (o : Option Seen)
    → now < t + reject_log_interval
    → IsSeen k t o
    → IsSeen k t (first o j now).1
unfolding first
first-IsSeen k j t now none n h = absurd h
first-IsSeen k j t now (some seen) n h = elim (Bool-cases (is_recent now (seen_at j seen))) [
  | inl recent ↦ rw recent h
  | inr due ↦
      let other : seen_at k (set_seen j now seen) ≡ some t =
        ground (arith, h, due, n, same→eq j k, seen_at-set_seen k j now seen) in
      rw due (seen_at-drop_old k now t (set_seen j now seen) other n)
]

after_calls-IsSeen :
    (k : Bytes) (t : ℕ) (o : Option Seen) (calls : List (Bytes × ℕ))
    → ((j : Bytes) (now : ℕ) → In (j, now) calls → now < t + reject_log_interval)
    → IsSeen k t o
    → IsSeen k t (after_calls o calls)
unfolding after_calls
after_calls-IsSeen k t o [] n h = h
after_calls-IsSeen k t o ((j, now) ∷ calls) n h =
    first-IsSeen k j t now (after_calls o calls) (n j now (inl refl))
      (after_calls-IsSeen k t o calls (λ i s m. n i s (inr m)) h)

reported-IsSeen :
    (k : Bytes) (t : ℕ) (seen : Seen)
    → (first (some seen) k t).0 ≡ true
    → IsSeen k t (first (some seen) k t).1
unfolding first
reported-IsSeen k t seen h = elim (Bool-cases (is_recent t (seen_at k seen))) [
  | inl recent ↦ absurd (ground (arith, h, recent))
  | inr due ↦
      let here : seen_at k (set_seen k t seen) ≡ some t =
        ground (arith, same_refl k, seen_at-set_seen k k t seen) in
      rw due (seen_at-drop_old k t t (set_seen k t seen) here (ground arith))
]

quiet :
    (k : Bytes) (t now : ℕ) (o : Option Seen)
    → now < t + reject_log_interval
    → IsSeen k t o
    → (first o k now).0 ≡ false
unfolding first
quiet k t now none n h = absurd h
quiet k t now (some seen) n h = ground (arith, h, n)

-- Behind a line for a key, and any calls for this and other keys within 30 seconds of it, whichever
-- way the clock goes, a further call for the key within the 30 seconds writes no line.
pub first-once :
    (k : Bytes) (seen : Seen) (t now : ℕ) (calls : List (Bytes × ℕ))
    → (first (some seen) k t).0 ≡ true
    → ((j : Bytes) (s : ℕ) → In (j, s) calls → s < t + reject_log_interval)
    → now < t + reject_log_interval
    → (first (after_calls (first (some seen) k t).1 calls) k now).0 ≡ false
first-once k seen t now calls reported within_interval n =
    quiet k t now (after_calls (first (some seen) k t).1 calls) n (
      after_calls-IsSeen k t (first (some seen) k t).1 calls within_interval
        (reported-IsSeen k t seen reported))
