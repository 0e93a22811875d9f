-- ===== src/Listener/Reachable.antt =====
-- How many connections the server serves at once, over all interleavings.
use deep_protocol.Base.{
  ℕ, ◌+◌, ◌≡◌, ◌≤◌, refl, ap, ◌∙◌, Bool, true, false, ◌&&◌, List, [], ◌∷◌, ◌++◌, Bytes, length,
  length-append, equal, ltb, if◌then◌else◌, Option, none, some, arith, Bool-cases, inl, inr,
}
use deep_protocol.Base.Int.{pos_part}
use deep_protocol.Limits.{
  ServerLimits, new_peer_limiter, acquire, release, allow_request, acquires, releases, asks, step,
  find,
}
use deep_protocol.Limits.Bounds.{IsBounded, step-IsBounded, new_peer_limiter-IsBounded}
use deep_protocol.Limits.Ledger.{active_of, active_of-le, one_if, step-tally, step-maximum}
use deep_protocol.Listener
use deep_protocol.Listener.{Pool, opened, accept, place, Step, Reach}

-- The connections of a peer in a list of peers.
abbrev pub count : Bytes → List Bytes → ℕ
count key [] = 0
count key (k ∷ ks) = one_if (equal k key) + count key ks

abbrev pub waiting : Bytes → Option Bytes → ℕ
waiting key none = 0
waiting key (some k) = one_if (equal k key)

-- The slots are enough for the connections that are served, and the limiter counts of each peer
-- what is open.
pub record IsServing (limits : ServerLimits) (p : Pool) : Type 0 where
  pub bounded : IsBounded p.limiter
  pub share : p.limiter.maximum ≡ pos_part limits.max_connections_per_peer
  pub slots : length p.running ≤ pos_part limits.max_connections
  pub counted :
      (key : Bytes)
      → active_of key p.limiter ≡ waiting key p.pending + count key p.running + count key p.leaving

count-append :
    (key : Bytes) (xs ys : List Bytes) → count key (xs ++ ys) ≡ count key xs + count key ys
count-append key [] ys = omega arith
count-append key (x ∷ xs) ys = omega (arith, count-append key xs ys)

count-around :
    (key : Bytes) (xs : List Bytes) (k : Bytes) (ys : List Bytes) {zs : List Bytes}
    → zs ≡ xs ++ k ∷ ys
    → count key zs ≡ one_if (equal k key) + count key (xs ++ ys)
count-around key xs k ys e =
    ap (count key) e ∙ omega (arith, count-append key xs (k ∷ ys), count-append key xs ys)

opened-IsServing : (limits : ServerLimits) → IsServing limits (opened limits)
unfolding opened new_peer_limiter find
opened-IsServing limits = record {
  bounded = new_peer_limiter-IsBounded _ _;
  share = refl;
  slots = omega arith;
  counted = λ key. omega arith;
}

waiting-granted :
    (granted : Bool) (key k : Bytes)
    → waiting k (if granted then some key else none) ≡ one_if (granted && equal key k)
waiting-granted true key k = refl
waiting-granted false key k = refl

waiting-some :
    (key k : Bytes) {o : Option Bytes} → o ≡ some key → waiting k o ≡ one_if (equal key k)
waiting-some key k h = ap (waiting k) h

waiting-none : (k : Bytes) {o : Option Bytes} → o ≡ none → waiting k o ≡ 0
waiting-none k h = ap (waiting k) h

length-around :
    (xs : List Bytes) (k : Bytes) (ys : List Bytes) {zs : List Bytes}
    → zs ≡ xs ++ k ∷ ys
    → length (xs ++ ys) ≤ length zs
length-around xs k ys e = omega (arith, ap length e, length-append xs (k ∷ ys), length-append xs ys)

module _ (limits : ServerLimits) (p : Pool) (v : IsServing limits p) where
  accept-IsServing :
      (key : Bytes) (now : ℕ) → p.pending ≡ none → IsServing limits (accept key now p)
  unfolding accept step
  accept-IsServing key now free = record {
    bounded = step-IsBounded p.limiter (acquires key now) v.bounded;
    share = step-maximum p.limiter (acquires key now) ∙ v.share;
    slots = v.slots;
    counted = λ k. omega (
      arith,
      step-tally k p.limiter (acquires key now) v.bounded,
      v.counted k,
      waiting-none k free,
      waiting-granted (acquire p.limiter key now).1 key k,
    );
  }

  pub place-IsServing :
      (key : Bytes)
      → p.pending ≡ some key
      → IsServing limits (place (pos_part limits.max_connections) key p)
  unfolding place step
  place-IsServing key h =
      elim (Bool-cases (ltb (length p.running) (pos_part limits.max_connections))) [
        | inl room ↦
            rw (room, place)
              (record {
                bounded = v.bounded;
                share = v.share;
                slots = ground (arith, room);
                counted = λ k. omega (arith, v.counted k, waiting-some key k h);
              })
        | inr full ↦
            rw (full, place)
              (record {
                bounded = step-IsBounded p.limiter (releases key) v.bounded;
                share = step-maximum p.limiter (releases key) ∙ v.share;
                slots = v.slots;
                counted = λ k. omega (
                  arith,
                  step-tally k p.limiter (releases key) v.bounded,
                  v.counted k,
                  waiting-some key k h,
                );
              })
      ]

  pub ends-IsServing :
      (before : List Bytes) (key : Bytes) (after : List Bytes)
      → p.running ≡ before ++ key ∷ after
      → IsServing limits (record p { running = before ++ after; leaving = key ∷ p.leaving })
  ends-IsServing before key after e = record {
    bounded = v.bounded;
    share = v.share;
    slots = omega (arith, v.slots, length-around before key after e);
    counted = λ k. omega (arith, v.counted k, count-around k before key after e);
  }

  pub leaves-IsServing :
      (before : List Bytes) (key : Bytes) (after : List Bytes)
      → p.leaving ≡ before ++ key ∷ after
      → IsServing limits (record p { limiter = release p.limiter key; leaving = before ++ after })
  unfolding step
  leaves-IsServing before key after e = record {
    bounded = step-IsBounded p.limiter (releases key) v.bounded;
    share = step-maximum p.limiter (releases key) ∙ v.share;
    slots = v.slots;
    counted = λ k. omega (
      arith,
      step-tally k p.limiter (releases key) v.bounded,
      v.counted k,
      count-around k before key after e,
    );
  }

  asks-IsServing :
      (key : Bytes) (now : ℕ)
      → IsServing limits (record p { limiter = (allow_request p.limiter key now).0 })
  unfolding step
  asks-IsServing key now = record {
    bounded = step-IsBounded p.limiter (asks key now) v.bounded;
    share = step-maximum p.limiter (asks key now) ∙ v.share;
    slots = v.slots;
    counted = λ k. step-tally k p.limiter (asks key now) v.bounded ∙ v.counted k;
  }

Step-IsServing :
    (limits : ServerLimits) (p q : Pool)
    → IsServing limits p
    → Step (pos_part limits.max_connections) p q
    → IsServing limits q
Step-IsServing limits p _ v (Listener.accepts key now free) =
    accept-IsServing limits p v key now free
Step-IsServing limits p _ v (Listener.places key h) = place-IsServing limits p v key h
Step-IsServing limits p _ v (Listener.asks key now) = asks-IsServing limits p v key now
Step-IsServing limits p _ v (Listener.ends before key after e) =
    ends-IsServing limits p v before key after e
Step-IsServing limits p _ v (Listener.leaves before key after e) =
    leaves-IsServing limits p v before key after e

-- In every state that Serve and its connections' goroutines reach, the limiter keeps its bounds,
-- the slots are enough, and the limiter counts of each peer exactly the connection that waits for
-- a slot, those that are served and those that are leaving.
pub Reach-IsServing : (limits : ServerLimits) {p : Pool} → Reach limits p → IsServing limits p
Reach-IsServing limits Listener.start = opened-IsServing limits
Reach-IsServing limits (Listener.later {p = p} {q = q} r s) =
    Step-IsServing limits p q (Reach-IsServing limits r) s

-- In every state that Serve and its connections' goroutines reach, in whatever order they run, no
-- more connections are served than max_connections, and none of a peer more than its share.
pub count-le-share :
    (limits : ServerLimits) {p : Pool} (key : Bytes)
    → Reach limits p
    → (length p.running ≤ pos_part limits.max_connections)
      × (count key p.running ≤ pos_part limits.max_connections_per_peer)
count-le-share limits {p} key r =
    let v = Reach-IsServing limits r in
    (v.slots, omega (arith, v.counted key, active_of-le key p.limiter v.bounded, v.share))
