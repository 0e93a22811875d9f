-- ===== src/Limits/Spending.antt =====
-- What each call of the limiter takes of what a peer may still be granted within a minute.
use deep_protocol.Base.{
  ℕ, ◌+◌, ◌-◌, ◌≡◌, ◌≤◌, ◌<◌, ◌∙◌, true, ◌&&◌, ◌||◌, Bytes, length, inl, inr, Bool-cases,
  Option-cases, leb, ltb, if◌then◌else◌, Option, none, some, arith, equal, equal_iff, subst,
}
use deep_protocol.Limits.Peers.{Budget, find-put, find-prune}
use deep_protocol.Limits.Bounds.{IsBounded}
use deep_protocol.Limits.Ledger.{one_if}
use deep_protocol.Limits.{
  Limiter, reset_budget, admit, prune_when_due, prune_is_due, is_idle, new_budget, enroll, acquire,
  release, allow_request, max_tracked_peers, max_connections_per_peer_minute, minute, find, put,
}

-- What a peer may still be granted of `most` from a time `t` on and within a minute of it, by what
-- it has used of its window: the rest, and all of a new window where this one began before `t`.
abbrev pub left : ℕ → ℕ → ℕ → ℕ → ℕ
left t most window used = (most - used) + (if ltb window t then most else 0)

abbrev pub requests_left : ℕ → ℕ → Option Budget → ℕ
requests_left t most none = most
requests_left t most (some b) = left t most b.window b.requests

abbrev pub connections_left : ℕ → Option Budget → ℕ
connections_left t none = max_connections_per_peer_minute
connections_left t (some b) = left t max_connections_per_peer_minute b.window b.connections

-- The peer's entry goes from `before` to `after` while it is granted `c` connections and `q`
-- requests.
pub record Spends (t most : ℕ) (before after : Option Budget) (c q : ℕ) : Type 0 where
  pub requests_le : requests_left t most after + q ≤ requests_left t most before
  pub connections_le : connections_left t after + c ≤ connections_left t before

-- A time within the minute from `t` on.
abbrev pub Soon : ℕ → ℕ → Type 0
Soon t now = (t ≤ now) × (now < t + minute)

module _ (t most : ℕ) where
  same-Spends : (o : Option Budget) → Spends t most o o 0 0
  same-Spends o = record { requests_le = omega arith; connections_le = omega arith }

  reset_budget-Spends :
      (b : Budget) (now : ℕ) → Soon t now → Spends t most (some b) (some (reset_budget b now)) 0 0
  unfolding reset_budget
  reset_budget-Spends b now s = record { requests_le = ground arith; connections_le = ground arith }

  new_budget-Spends : (now : ℕ) → Soon t now → Spends t most none (some (new_budget now)) 0 0
  new_budget-Spends now s = record { requests_le = ground arith; connections_le = ground arith }

  Spends-then :
      {a b e : Option Budget} {c q : ℕ}
      → Spends t most a b 0 0
      → Spends t most b e c q
      → Spends t most a e c q
  Spends-then s r = record {
    requests_le = omega (arith, s.requests_le, r.requests_le);
    connections_le = omega (arith, s.connections_le, r.connections_le);
  }

  connect-Spends :
      (b : Budget)
      → b.connections < max_connections_per_peer_minute
      → Spends t most
          (some b)
          (some (record b { active = b.active + 1; connections = b.connections + 1 }))
          1
          0
  connect-Spends b h = record { requests_le = omega arith; connections_le = omega arith }

  ask-Spends :
      (b : Budget)
      → b.requests < most
      → Spends t most (some b) (some (record b { requests = b.requests + 1 })) 0 1
  ask-Spends b h = record { requests_le = omega arith; connections_le = omega arith }

  -- What an entry `b` of `key` in place of `before` means to the entry of `j`.
  put_quiet :
      (l : Limiter) (key j : Bytes) (before : Option Budget) (b : Budget)
      → (equal key j ≡ true → find j l.peers ≡ before)
      → Spends t most before (some b) 0 0
      → Spends t most (find j l.peers) (find j (put key b l.peers)) 0 0
  put_quiet l key j before b same s = elim (Bool-cases (equal key j)) [
    | inl e ↦ rw (find-put key j b l.peers, e, same e) s
    | inr e ↦ rw (find-put key j b l.peers, e) (same-Spends (find j l.peers))
  ]

  put_connected :
      (l : Limiter) (key j : Bytes) (before : Option Budget) (b : Budget)
      → (equal key j ≡ true → find j l.peers ≡ before)
      → Spends t most before (some b) 1 0
      → Spends t most (find j l.peers) (find j (put key b l.peers)) (one_if (equal key j)) 0
  put_connected l key j before b same s = elim (Bool-cases (equal key j)) [
    | inl e ↦ rw (find-put key j b l.peers, e, same e) s
    | inr e ↦ rw (find-put key j b l.peers, e) (same-Spends (find j l.peers))
  ]

  put_asked :
      (l : Limiter) (key j : Bytes) (before : Option Budget) (b : Budget)
      → (equal key j ≡ true → find j l.peers ≡ before)
      → Spends t most before (some b) 0 1
      → Spends t most (find j l.peers) (find j (put key b l.peers)) 0 (one_if (equal key j))
  put_asked l key j before b same s = elim (Bool-cases (equal key j)) [
    | inl e ↦ rw (find-put key j b l.peers, e, same e) s
    | inr e ↦ rw (find-put key j b l.peers, e) (same-Spends (find j l.peers))
  ]

  -- By an `acquire` of `key` that had the entry `before`.
  admit-Spends :
      (l : Limiter) (key j : Bytes) (b : Budget) (now : ℕ) (before : Option Budget)
      → Soon t now
      → (equal key j ≡ true → find j l.peers ≡ before)
      → Spends t most before (some b) 0 0
      → Spends t most
          (find j l.peers)
          (find j (admit l key b now).0.peers)
          (one_if ((admit l key b now).1 && equal key j))
          0
  unfolding admit
  admit-Spends l key j b now before s same r =
      let b' = reset_budget b now in
      let kept = Spends-then r (reset_budget-Spends b now s) in
      elim (Bool-cases
        (leb l.maximum b'.active || leb max_connections_per_peer_minute b'.connections)) [
          | inl over ↦ rw over (put_quiet l key j before b' same kept)
          | inr fits ↦ rw fits (
              put_connected l key j before _ same
                (Spends-then kept (connect-Spends b' (ground arith))))
        ]

  prune-Spends :
      (l : Limiter) (now : ℕ) (j : Bytes)
      → IsBounded l
      → Soon t now
      → Spends t most (find j l.peers) (find j (prune_when_due l now).peers) 0 0
  unfolding prune_when_due
  prune-Spends l now j v s = elim (Bool-cases (prune_is_due l.last_prune now)) [
    | inr not_due ↦ rw not_due (same-Spends (find j l.peers))
    | inl due ↦ elim (find-prune (is_idle now) j l.peers v.unique) [
      | inl e ↦ rw (due, e) (same-Spends (find j l.peers))
      | inr (b, e, idle, gone) ↦ rw (due, e, gone) (forgotten b idle)
    ]
  ]
    where
      forgotten : (b : Budget) → is_idle now b ≡ true → Spends t most (some b) none 0 0
      forgotten b idle = record {
        requests_le = ground (arith, idle);
        connections_le = ground (arith, idle);
      }

  found_same :
      (l : Limiter) (key j : Bytes) {o : Option Budget}
      → find key l.peers ≡ o
      → equal key j ≡ true
      → find j l.peers ≡ o
  found_same l key j {o} e same = subst (λ i. find i l.peers ≡ o) ((equal_iff key j).0 same) e

  prune_none :
      (l : Limiter) (key : Bytes) (now : ℕ)
      → IsBounded l
      → find key l.peers ≡ none
      → find key (prune_when_due l now).peers ≡ none
  unfolding prune_when_due
  prune_none l key now v e = elim (Bool-cases (prune_is_due l.last_prune now)) [
    | inr not_due ↦ rw not_due e
    | inl due ↦ elim (find-prune (is_idle now) key l.peers v.unique) [
      | inl same ↦ rw due (same ∙ e)
      | inr (b, _, _, gone) ↦ rw due gone
    ]
  ]

  enroll-Spends :
      (l : Limiter) (key j : Bytes) (now : ℕ)
      → IsBounded l
      → Soon t now
      → find key l.peers ≡ none
      → Spends t most
          (find j l.peers)
          (find j (enroll l key now).0.peers)
          (one_if ((enroll l key now).1 && equal key j))
          0
  unfolding enroll
  enroll-Spends l key j now v s e =
      let l' = prune_when_due l now in
      let pruned = prune-Spends l now j v s in
      elim (Bool-cases (leb max_tracked_peers (length l.peers))) [
        | inr room ↦ rw room (
            admit-Spends l key j (new_budget now) now none s (found_same l key j e)
              (new_budget-Spends now s))
        | inl full ↦ rw full (elim (Bool-cases (leb max_tracked_peers (length l'.peers))) [
          | inl still ↦ rw still pruned
          | inr room ↦ rw room (
              Spends-then pruned (
                admit-Spends l' key j (new_budget now) now none s
                  (found_same l' key j (prune_none l key now v e)) (new_budget-Spends now s)))
        ])
      ]

  pub acquire-Spends :
      (l : Limiter) (key j : Bytes) (now : ℕ)
      → IsBounded l
      → Soon t now
      → Spends t most
          (find j l.peers)
          (find j (acquire l key now).0.peers)
          (one_if ((acquire l key now).1 && equal key j))
          0
  unfolding acquire
  acquire-Spends l key j now v s = elim (Option-cases (find key l.peers)) [
    | inl e ↦ rw (e, acquire) (enroll-Spends l key j now v s e)
    | inr (b, e) ↦
        rw (e, acquire)
          (admit-Spends l key j b now (some b) s (found_same l key j e) (same-Spends (some b)))
  ]

  pub release-Spends :
      (l : Limiter) (key j : Bytes)
      → Spends t most (find j l.peers) (find j (release l key).peers) 0 0
  unfolding release
  release-Spends l key j = elim (Option-cases (find key l.peers)) [
    | inl e ↦ rw (e, release) (same-Spends (find j l.peers))
    | inr (b, e) ↦ elim (Bool-cases (ltb 0 b.active)) [
      | inr free ↦ rw (e, release, free) (same-Spends (find j l.peers))
      | inl held ↦
          rw (e, release, held) (put_quiet l key j (some b) _ (found_same l key j e) (returned b))
    ]
  ]
    where
      returned :
          (b : Budget) → Spends t most (some b) (some (record b { active = b.active - 1 })) 0 0
      returned b = record { requests_le = omega arith; connections_le = omega arith }

  pub allow_request-Spends :
      (l : Limiter) (key j : Bytes) (now : ℕ)
      → l.requests ≡ most
      → Soon t now
      → Spends t most
          (find j l.peers)
          (find j (allow_request l key now).0.peers)
          0
          (one_if ((allow_request l key now).1 && equal key j))
  unfolding allow_request
  allow_request-Spends l key j now m s = elim (Option-cases (find key l.peers)) [
    | inl e ↦ rw (e, allow_request) (same-Spends (find j l.peers))
    | inr (b, e) ↦
        let b' = reset_budget b now in
        let kept = reset_budget-Spends b now s in
        let same = found_same l key j e in
        elim (Bool-cases (leb l.requests b'.requests)) [
          | inl over ↦ rw (e, allow_request, over) (put_quiet l key j (some b) b' same kept)
          | inr fits ↦
              rw (e, allow_request, fits)
                (put_asked l key j (some b) _ same
                  (Spends-then kept (ask-Spends b' (ground (arith, m, fits)))))
        ]
  ]
