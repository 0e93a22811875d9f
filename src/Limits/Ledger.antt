-- ===== src/Limits/Ledger.antt =====
-- What `active` counts: the connections a peer was granted and has not given back. Neither the end
-- of a minute nor the pruning of the map changes it.
use deep_protocol.Base.{
  ℕ, ◌+◌, ◌-◌, ◌≡◌, ◌≤◌, refl, ap, ◌∙◌, Bool, true, ◌&&◌, ◌||◌, List, [], ◌∷◌, Bytes, length, inl,
  inr, Bool-cases, Option-cases, leb, ltb, if◌then◌else◌, Option, none, some, arith, equal,
  equal_iff, subst,
}
use deep_protocol.Limits.Peers.{Budget, Unique, Entries-find, find-put, find-prune}
use deep_protocol.Limits.Bounds.{
  IsBounded, Within, step-IsBounded, run-IsBounded, new_peer_limiter-IsBounded,
}
use deep_protocol.Limits.{
  Limiter, Call, acquires, releases, asks, new_peer_limiter, reset_budget, admit, prune_when_due,
  is_idle, new_budget, enroll, acquire, release, allow_request, step, run, max_tracked_peers,
  max_connections_per_peer_minute, find, put,
}

abbrev pub active_in : Option Budget → ℕ
active_in none = 0
active_in (some b) = b.active

-- The open connections that the limiter counts for a peer.
abbrev pub active_of : Bytes → Limiter → ℕ
active_of k l = active_in (find k l.peers)

abbrev pub one_if : Bool → ℕ
one_if b = if b then 1 else 0

active-put :
    (l : Limiter) (key j : Bytes) (b : Budget)
    → active_in (find j (put key b l.peers)) ≡ (if equal key j then b.active else active_of j l)
active-put l key j b = rw (find-put key j b l.peers) (ground arith)

active-reset : (b : Budget) (now : ℕ) → (reset_budget b now).active ≡ b.active
unfolding reset_budget
active-reset b now = ground arith

active-admit :
    (l : Limiter) (key j : Bytes) (b : Budget) (now : ℕ)
    → active_of j (admit l key b now).0
      ≡ (if equal key j then b.active + one_if (admit l key b now).1 else active_of j l)
unfolding admit
active-admit l key j b now =
    let b' = reset_budget b now in
    let kept = active-reset b now in
    elim (Bool-cases
      (leb l.maximum b'.active || leb max_connections_per_peer_minute b'.connections)) [
        | inl over ↦ rw over (active-put l key j b' ∙ ground (arith, kept))
        | inr fits ↦ rw fits (active-put l key j _ ∙ ground (arith, kept))
      ]

active-prune :
    (l : Limiter) (now : ℕ) (j : Bytes)
    → Unique l.peers
    → active_of j (prune_when_due l now) ≡ active_of j l
unfolding prune_when_due
active-prune l now j u = elim (find-prune (is_idle now) j l.peers u) [
  | inl e ↦ ground (arith, e)
  | inr (b, e, idle, gone) ↦ ground (arith, e, idle, gone)
]

-- The change of the count for peer `j` by an `acquire` of `key`.
abbrev pub Counts : Bytes → Bytes → ℕ → Limiter × Bool → Type 0
Counts key j before r = active_of j r.0 ≡ before + one_if (r.1 && equal key j)

absent :
    (l : Limiter) (key j : Bytes) → find key l.peers ≡ none → equal key j ≡ true → active_of j l ≡ 0
absent l key j e same =
    subst (λ i. active_in (find i l.peers) ≡ 0) ((equal_iff key j).0 same) (rw e)

admit_new-Counts :
    (l : Limiter) (key j : Bytes) (now : ℕ)
    → (equal key j ≡ true → active_of j l ≡ 0)
    → Counts key j (active_of j l) (admit l key (new_budget now) now)
admit_new-Counts l key j now zero_before = active-admit l key j (new_budget now) now ∙ ground arith

enroll-Counts :
    (l : Limiter) (key j : Bytes) (now : ℕ)
    → IsBounded l
    → find key l.peers ≡ none
    → Counts key j (active_of j l) (enroll l key now)
unfolding enroll
enroll-Counts l key j now v e =
    let l' = prune_when_due l now in
    let same = active-prune l now j v.unique in
    elim (Bool-cases (leb max_tracked_peers (length l.peers))) [
      | inr room ↦ rw room (admit_new-Counts l key j now (absent l key j e))
      | inl full ↦ rw full (elim (Bool-cases (leb max_tracked_peers (length l'.peers))) [
        | inl still ↦ rw still (ground (arith, same))
        | inr room ↦ rw room (
            subst (λ n. Counts key j n (admit l' key (new_budget now) now)) same
              (admit_new-Counts l' key j now (λ h. same ∙ absent l key j e h)))
      ])
    ]

pub acquire-Counts :
    (l : Limiter) (key j : Bytes) (now : ℕ)
    → IsBounded l
    → Counts key j (active_of j l) (acquire l key now)
unfolding acquire
acquire-Counts l key j now v = elim (Option-cases (find key l.peers)) [
  | inl e ↦ rw (e, acquire) (enroll-Counts l key j now v e)
  | inr (b, e) ↦ rw (e, acquire) (active-admit l key j b now ∙ admitted b e)
]
  where
    admitted :
        (b : Budget)
        → find key l.peers ≡ some b
        → (if equal key j then b.active + one_if (admit l key b now).1 else active_of j l)
          ≡ active_of j l + one_if ((admit l key b now).1 && equal key j)
    admitted b e = elim (Bool-cases (equal key j)) [
      | inr other ↦ ground (arith, other)
      | inl same ↦
          let here : find j l.peers ≡ some b =
            subst (λ i. find i l.peers ≡ some b) ((equal_iff key j).0 same) e in
          rw here (ground (arith, same))
    ]

found_same :
    (l : Limiter) (key j : Bytes) {o : Option Budget}
    → find key l.peers ≡ o
    → equal key j ≡ true
    → find j l.peers ≡ o
found_same l key j {o} e same = subst (λ i. find i l.peers ≡ o) ((equal_iff key j).0 same) e

pub release-active :
    (l : Limiter) (key j : Bytes)
    → active_of j (release l key) ≡ active_of j l - one_if (equal key j)
unfolding release
release-active l key j = elim (Option-cases (find key l.peers)) [
  | inl e ↦
      rw (e, release)
        (elim (Bool-cases (equal key j)) [
          | inl same ↦ rw (found_same l key j e same) (omega arith)
          | inr other ↦ rw other (omega arith)
        ])
  | inr (b, e) ↦ elim (Bool-cases (ltb 0 b.active)) [
    | inl held ↦
        rw (e, release, held)
          (active-put l key j _ ∙ elim (Bool-cases (equal key j)) [
            | inl same ↦ rw (same, found_same l key j e same)
            | inr other ↦ rw other (omega arith)
          ])
    | inr free ↦
        rw (e, release, free)
          (elim (Bool-cases (equal key j)) [
            | inl same ↦ rw (same, found_same l key j e same) (ground arith)
            | inr other ↦ rw other (omega arith)
          ])
  ]
]

pub allow_request-active :
    (l : Limiter) (key j : Bytes) (now : ℕ)
    → active_of j (allow_request l key now).0 ≡ active_of j l
unfolding allow_request
allow_request-active l key j now = elim (Option-cases (find key l.peers)) [
  | inl e ↦ rw (e, allow_request)
  | inr (b, e) ↦
      let b' = reset_budget b now in
      let kept = active-reset b now in
      elim (Bool-cases (leb l.requests b'.requests)) [
        | inl over ↦ rw (e, allow_request, over) (active-put l key j b' ∙ unchanged b b' e kept)
        | inr fits ↦ rw (e, allow_request, fits) (active-put l key j _ ∙ unchanged b b' e kept)
      ]
]
  where
    unchanged :
        (b b' : Budget)
        → find key l.peers ≡ some b
        → b'.active ≡ b.active
        → (if equal key j then b'.active else active_of j l) ≡ active_of j l
    unchanged b b' e kept = elim (Bool-cases (equal key j)) [
      | inl same ↦ rw (same, found_same l key j e same) kept
      | inr other ↦ rw other
    ]

-- The connections of peer `k` by the history alone: one more for each that was granted, one less
-- for each that was given back.
abbrev tally : Bytes → ℕ → Limiter → Call → ℕ
tally k n l (acquires key now) = n + one_if ((acquire l key now).1 && equal key k)
tally k n l (releases key) = n - one_if (equal key k)
tally k n l (asks key now) = n

pub held : Bytes → ℕ → Limiter → List Call → ℕ
held k n l [] = n
held k n l (c ∷ cs) = held k (tally k n l c) (step l c).0 cs

pub step-tally :
    (k : Bytes) (l : Limiter) (c : Call)
    → IsBounded l
    → active_of k (step l c).0 ≡ tally k (active_of k l) l c
unfolding step
step-tally k l (acquires key now) v = acquire-Counts l key k now v
step-tally k l (releases key) v = release-active l key k
step-tally k l (asks key now) v = allow_request-active l key k now

-- From a limiter that keeps its bounds, the count of active connections of a peer after any calls
-- is the count before, plus the granted and less the returned connections, through every reset and
-- pruning.
pub active-run :
    (k : Bytes) (l : Limiter) (cs : List Call)
    → IsBounded l
    → active_of k (run l cs) ≡ held k (active_of k l) l cs
unfolding run held
active-run k l [] v = refl
active-run k l (c ∷ cs) v =
    active-run k (step l c).0 cs (step-IsBounded l c v)
    ∙ ap (λ n. held k n (step l c).0 cs) (step-tally k l c v)

pub step-maximum : (l : Limiter) (c : Call) → (step l c).0.maximum ≡ l.maximum
unfolding step acquire enroll admit prune_when_due release allow_request
step-maximum l (acquires key now) = ground arith
step-maximum l (releases key) = ground arith
step-maximum l (asks key now) = ground arith

run-maximum : (l : Limiter) (cs : List Call) → (run l cs).maximum ≡ l.maximum
unfolding run
run-maximum l [] = refl
run-maximum l (c ∷ cs) = run-maximum (step l c).0 cs ∙ step-maximum l c

pub active_of-le : (k : Bytes) (l : Limiter) → IsBounded l → active_of k l ≤ l.maximum
active_of-le k l v = elim (Option-cases (find k l.peers)) [
  | inl e ↦ rw e (omega arith)
  | inr (b, e) ↦ rw e (Entries-find (Within l.maximum l.requests) k l.peers v.budgets e).active_le
]

-- From a new peerLimiter and over any history of calls, the connections granted to a peer less
-- those given back never exceed the peer's share.
pub held-le-maximum :
    (k : Bytes) (maximum limit : ℕ) (cs : List Call)
    → held k 0 (new_peer_limiter maximum limit) cs ≤ maximum
unfolding new_peer_limiter find
held-le-maximum k maximum limit cs =
    let start = new_peer_limiter maximum limit in
    let v = new_peer_limiter-IsBounded maximum limit in
    omega (
      arith,
      active-run k start cs v,
      active_of-le k (run start cs) (run-IsBounded start cs v),
      run-maximum start cs,
    )
