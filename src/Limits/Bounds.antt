-- ===== src/Limits/Bounds.antt =====
-- The bounds that every state of the limiter keeps.
use deep_protocol.Base.{
  ℕ, ◌-◌, ◌≡◌, ◌≤◌, ◌<◌, ◌||◌, List, [], ◌∷◌, Bytes, length, inl, inr, Bool-cases, Option-cases,
  ◌⊎◌, leb, ltb, some, arith,
}
use deep_protocol.Limits.Peers.{
  Budget, Map, Unique, Entries, Entries-find, put-Entries, prune-Entries, put-Unique, prune-Unique,
  length-put_new, length-put_found, length-prune,
}
use deep_protocol.Limits.{
  Limiter, Call, acquires, releases, asks, new_peer_limiter, reset_budget, admit, prune_when_due,
  is_idle, new_budget, enroll, acquire, release, allow_request, step, run, max_tracked_peers,
  max_connections_per_peer_minute, find, put,
}

-- One peer's share.
pub record Within (maximum requests : ℕ) (b : Budget) : Type 0 where
  pub active_le : b.active ≤ maximum
  pub connections_le : b.connections ≤ max_connections_per_peer_minute
  pub requests_le : b.requests ≤ requests

pub record IsBounded (l : Limiter) : Type 0 where
  pub unique : Unique l.peers
  pub few : length l.peers ≤ max_tracked_peers
  pub budgets : Entries (Within l.maximum l.requests) l.peers

pub new_peer_limiter-IsBounded :
    (maximum requests : ℕ) → IsBounded (new_peer_limiter maximum requests)
unfolding new_peer_limiter
new_peer_limiter-IsBounded maximum limit = record { unique = tt; few = omega arith; budgets = tt }

-- Room for an entry of `key`: it has one, or the map is not full.
abbrev HasRoom : Bytes → Map → Type 0
HasRoom key m = ((b : Budget) × (find key m ≡ some b)) ⊎ (length m < max_tracked_peers)

length-put :
    (key : Bytes) (b : Budget) (m : Map)
    → HasRoom key m
    → length m ≤ max_tracked_peers
    → length (put key b m) ≤ max_tracked_peers
length-put key b m (inl (c, e)) h = omega (arith, length-put_found key b c m e)
length-put key b m (inr r) h = omega (arith, length-put_new key b m)

put-IsBounded :
    (l : Limiter) (key : Bytes) (b : Budget)
    → IsBounded l
    → HasRoom key l.peers
    → Within l.maximum l.requests b
    → IsBounded (record l { peers = put key b l.peers })
put-IsBounded l key b v room w = record {
  unique = put-Unique key b l.peers v.unique;
  few = length-put key b l.peers room v.few;
  budgets = put-Entries _ key b l.peers w v.budgets;
}

reset_budget-Within :
    {maximum limit : ℕ} (b : Budget) (now : ℕ)
    → Within maximum limit b
    → Within maximum limit (reset_budget b now)
unfolding reset_budget
reset_budget-Within b now w = ground arith

admit-IsBounded :
    (l : Limiter) (key : Bytes) (b : Budget) (now : ℕ)
    → IsBounded l
    → HasRoom key l.peers
    → Within l.maximum l.requests b
    → IsBounded (admit l key b now).0
unfolding admit
admit-IsBounded l key b now v room w =
    let b' = reset_budget b now in
    let w' : Within l.maximum l.requests b' = reset_budget-Within b now w in
    elim (Bool-cases
      (leb l.maximum b'.active || leb max_connections_per_peer_minute b'.connections)) [
        | inl over ↦ rw over (put-IsBounded l key b' v room w')
        | inr fits ↦ rw fits (put-IsBounded l key _ v room (ground arith))
      ]

pub prune_when_due-IsBounded :
    (l : Limiter) (now : ℕ) → IsBounded l → IsBounded (prune_when_due l now)
unfolding prune_when_due
prune_when_due-IsBounded l now v = ground (
  arith,
  length-prune (is_idle now) l.peers,
  prune-Unique (is_idle now) l.peers v.unique,
  prune-Entries (Within l.maximum l.requests) (is_idle now) l.peers v.budgets,
)

enroll-IsBounded :
    (l : Limiter) (key : Bytes) (now : ℕ) → IsBounded l → IsBounded (enroll l key now).0
unfolding enroll
enroll-IsBounded l key now v = elim (Bool-cases (leb max_tracked_peers (length l.peers))) [
  | inr room ↦
      rw room (admit-IsBounded l key (new_budget now) now v (inr (ground arith)) (omega arith))
  | inl full ↦
      let l' = prune_when_due l now in
      let v' = prune_when_due-IsBounded l now v in
      rw full (elim (Bool-cases (leb max_tracked_peers (length l'.peers))) [
        | inl still ↦ rw still v'
        | inr room ↦
            rw room
              (admit-IsBounded l' key (new_budget now) now v' (inr (ground arith)) (omega arith))
      ])
]

found-Within :
    (l : Limiter) (key : Bytes) {b : Budget}
    → IsBounded l
    → find key l.peers ≡ some b
    → Within l.maximum l.requests b
found-Within l key v e = Entries-find (Within l.maximum l.requests) key l.peers v.budgets e

acquire-IsBounded :
    (l : Limiter) (key : Bytes) (now : ℕ) → IsBounded l → IsBounded (acquire l key now).0
unfolding acquire
acquire-IsBounded l key now v = elim (Option-cases (find key l.peers)) [
  | inl e ↦ rw (e, acquire) (enroll-IsBounded l key now v)
  | inr (b, e) ↦
      rw (e, acquire) (admit-IsBounded l key b now v (inl (b, e)) (found-Within l key v e))
]

release-IsBounded : (l : Limiter) (key : Bytes) → IsBounded l → IsBounded (release l key)
unfolding release
release-IsBounded l key v = elim (Option-cases (find key l.peers)) [
  | inl e ↦ rw (e, release) v
  | inr (b, e) ↦
      let w = found-Within l key v e in
      elim (Bool-cases (ltb 0 b.active)) [
        | inl held ↦
            rw (e, release, held)
              (put-IsBounded l key (record b { active = b.active - 1 }) v (inl (b, e))
                (omega arith))
        | inr free ↦ rw (e, release, free) v
      ]
]

allow_request-IsBounded :
    (l : Limiter) (key : Bytes) (now : ℕ) → IsBounded l → IsBounded (allow_request l key now).0
unfolding allow_request
allow_request-IsBounded l key now v = elim (Option-cases (find key l.peers)) [
  | inl e ↦ rw (e, allow_request) v
  | inr (b, e) ↦
      let b' = reset_budget b now in
      let w : Within l.maximum l.requests b' = reset_budget-Within b now (found-Within l key v e) in
      elim (Bool-cases (leb l.requests b'.requests)) [
        | inl over ↦ rw (e, allow_request, over) (put-IsBounded l key b' v (inl (b, e)) w)
        | inr fits ↦
            rw (e, allow_request, fits) (put-IsBounded l key _ v (inl (b, e)) (ground arith))
      ]
]

-- Every call keeps the limits: at most 4096 peers with one entry each, and no counter of an entry
-- over its bound.
pub step-IsBounded : (l : Limiter) (c : Call) → IsBounded l → IsBounded (step l c).0
unfolding step
step-IsBounded l (acquires key now) v = acquire-IsBounded l key now v
step-IsBounded l (releases key) v = release-IsBounded l key v
step-IsBounded l (asks key now) v = allow_request-IsBounded l key now v

-- Every history of calls keeps the limiter's bounds: at most 4096 peers with one entry each, and
-- no counter of an entry over its bound.
pub run-IsBounded : (l : Limiter) (cs : List Call) → IsBounded l → IsBounded (run l cs)
unfolding run
run-IsBounded l [] v = v
run-IsBounded l (c ∷ cs) v = run-IsBounded (step l c).0 cs (step-IsBounded l c v)
