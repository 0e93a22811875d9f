-- ===== src/Limits/Window.antt =====
-- What the limiter grants to one peer within any minute.
use deep_protocol.Base.{
  ℕ, ◌+◌, ◌*◌, ◌≡◌, ◌≤◌, refl, ◌∙◌, ◌&&◌, List, [], ◌∷◌, Bytes, Option, none, some, arith, equal,
  subst, All,
}
use deep_protocol.Limits.Peers.{Budget}
use deep_protocol.Limits.Bounds.{
  IsBounded, step-IsBounded, run-IsBounded, new_peer_limiter-IsBounded,
}
use deep_protocol.Limits.Ledger.{one_if}
use deep_protocol.Limits.{
  Limiter, Call, acquires, releases, asks, new_peer_limiter, admit, prune_when_due, enroll, acquire,
  release, allow_request, step, run, max_connections_per_peer_minute, find,
}
use deep_protocol.Limits.Spending.{
  requests_left, connections_left, Spends, Soon, acquire-Spends, release-Spends,
  allow_request-Spends,
}

-- The call is made within the minute from `t` on; a release takes no time.
abbrev pub CalledSoon : ℕ → Call → Type 0
CalledSoon t (acquires key now) = Soon t now
CalledSoon t (releases key) = Unit
CalledSoon t (asks key now) = Soon t now

abbrev connects : Bytes → Limiter → Call → ℕ
connects k l (acquires key now) = one_if ((acquire l key now).1 && equal key k)
connects k l _ = 0

abbrev allows : Bytes → Limiter → Call → ℕ
allows k l (asks key now) = one_if ((allow_request l key now).1 && equal key k)
allows k l _ = 0

-- The connections that peer `k` is granted in a history from `l` on.
abbrev pub connections_of : Bytes → Limiter → List Call → ℕ
connections_of k l [] = 0
connections_of k l (c ∷ cs) = connects k l c + connections_of k (step l c).0 cs

-- The requests that peer `k` is granted in a history from `l` on.
abbrev pub requests_of : Bytes → Limiter → List Call → ℕ
requests_of k l [] = 0
requests_of k l (c ∷ cs) = allows k l c + requests_of k (step l c).0 cs

step-Spends :
    (t : ℕ) (k : Bytes) (l : Limiter) (c : Call)
    → IsBounded l
    → CalledSoon t c
    → Spends t l.requests
        (find k l.peers)
        (find k (step l c).0.peers)
        (connects k l c)
        (allows k l c)
unfolding step
step-Spends t k l (acquires key now) v s = acquire-Spends t l.requests l key k now v s
step-Spends t k l (releases key) v s = release-Spends t l.requests l key k
step-Spends t k l (asks key now) v s = allow_request-Spends t l.requests l key k now refl s

step-requests : (l : Limiter) (c : Call) → (step l c).0.requests ≡ l.requests
unfolding step acquire enroll admit prune_when_due release allow_request
step-requests l (acquires key now) = ground arith
step-requests l (releases key) = ground arith
step-requests l (asks key now) = ground arith

run-requests : (l : Limiter) (cs : List Call) → (run l cs).requests ≡ l.requests
unfolding run
run-requests l [] = refl
run-requests l (c ∷ cs) = run-requests (step l c).0 cs ∙ step-requests l c

-- What a peer is granted within a minute from `t` on is what it has left.
granted-le-left :
    (t most : ℕ) (k : Bytes) (l : Limiter) (cs : List Call)
    → IsBounded l
    → l.requests ≡ most
    → All (CalledSoon t) cs
    → (requests_of k l cs ≤ requests_left t most (find k l.peers))
      × (connections_of k l cs ≤ connections_left t (find k l.peers))
granted-le-left t most k l [] v m s = (omega arith, omega arith)
granted-le-left t most k l (c ∷ cs) v m (s, ss) =
    let one =
      subst
        (λ n.
          Spends t n (find k l.peers) (find k (step l c).0.peers) (connects k l c) (allows k l c))
        m (step-Spends t k l c v s) in
    let (r, q) =
      granted-le-left t most k (step l c).0 cs (step-IsBounded l c v) (step-requests l c ∙ m) ss in
    (omega (arith, r, one.requests_le), omega (arith, q, one.connections_le))

left-le :
    (t most : ℕ) (o : Option Budget)
    → (requests_left t most o ≤ 2 * most)
      × (connections_left t o ≤ 2 * max_connections_per_peer_minute)
left-le t most none = (omega arith, omega arith)
left-le t most (some b) = (ground arith, ground arith)

-- The calls of any minute, whatever a new peerLimiter was called for before, grant a peer at most
-- twice its share of requests and 480 connections, twice its share for a minute, as a window of
-- its may end within that minute; the calls of a limiter's first minute grant it no more than its
-- share of requests and 240 connections.
pub granted-le-twice :
    (k : Bytes) (maximum most t : ℕ) (before cs : List Call)
    → All (CalledSoon t) cs
    → (requests_of k (run (new_peer_limiter maximum most) before) cs ≤ 2 * most)
      × (connections_of k (run (new_peer_limiter maximum most) before) cs ≤ 480)
      × (requests_of k (new_peer_limiter maximum most) cs ≤ most)
      × (connections_of k (new_peer_limiter maximum most) cs ≤ 240)
unfolding new_peer_limiter find
granted-le-twice k maximum most t before cs s =
    let start = new_peer_limiter maximum most in
    let fresh = new_peer_limiter-IsBounded maximum most in
    let v = run-IsBounded start before fresh in
    let (r, q) = granted-le-left t most k (run start before) cs v (run-requests start before) s in
    let (r', q') = left-le t most (find k (run start before).peers) in
    let (first, opened) = granted-le-left t most k start cs fresh refl s in
    (omega (arith, r, r'), omega (arith, q, q'), first, opened)
