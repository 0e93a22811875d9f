-- ===== src/Limits.antt =====
-- limits.go: the server's operational limits and the per-peer budgets of `peerLimiter`.
-- A duration or a time is its nanoseconds; times do not go below the origin, and `now.Sub(t)` of a
-- later `t` is below every threshold that the code compares it with, as `now - t` is here.
-- The mutex makes each method one step. A map is an association list.
mod Peers
pub mod Config
pub mod Bounds
pub mod Ledger
pub mod Spending
pub mod Window
unfoldable pub use Peers.{find, put, prune}
use deep_protocol.Base.{
  ℕ, zero, suc, ◌+◌, ◌-◌, ◌*◌, ◌^◌, ◌≡◌, ◌≤◌, Bool, true, false, not, ◌&&◌, ◌||◌, List, [], ◌∷◌,
  Bytes, length, equal, leb, ltb, ◌==◌, if◌then◌else◌, Option, none, some, Error, failure, Result,
  ok, err, reject_if, ◌>>=◌, ◌>>◌,
}
use deep_protocol.Base.Int.{ℤ, pos, negsuc, ltb_ℤ, eq_ℤ, is_negative}
use Peers.{Budget}

abbrev pub second : ℕ
second = 1_000_000_000

abbrev pub minute : ℕ
minute = 60 * second

abbrev pub hour : ℕ
hour = 60 * minute

-- The limits among the fields of `Server`.
pub record ServerLimits : Type 0 where
  pub timeout : ℤ
  pub max_connections : ℤ
  pub max_connections_per_peer : ℤ
  pub max_requests_per_session : ℕ
  pub max_bytes : ℤ
  pub requests_per_minute : ℤ
  pub handshake_timeout : ℤ
  pub idle_timeout : ℤ
  pub session_timeout : ℤ

abbrev pub default_max_bytes : ℕ
default_max_bytes = 2 ^ 30

-- `if x == 0 { x = d }`
abbrev pub or_default : ℤ → ℤ → ℤ
or_default x d = if eq_ℤ x (pos 0) then d else x

abbrev pub min_ℤ : ℤ → ℤ → ℤ
min_ℤ a b = if ltb_ℤ b a then b else a

abbrev pub any_negative : ServerLimits → Bool
any_negative s =
    is_negative s.timeout
    || is_negative s.handshake_timeout
    || is_negative s.idle_timeout
    || is_negative s.session_timeout
    || is_negative s.max_connections
    || is_negative s.max_connections_per_peer
    || is_negative s.max_bytes
    || is_negative s.requests_per_minute

unfoldable pub with_defaults : ServerLimits → ServerLimits
with_defaults s =
    let connections = or_default s.max_connections (pos 64) in
    record {
      timeout = or_default s.timeout (pos (30 * second));
      max_connections = connections;
      max_connections_per_peer = or_default s.max_connections_per_peer (min_ℤ (pos 16) connections);
      max_requests_per_session =
          if s.max_requests_per_session == 0 then 128 else s.max_requests_per_session;
      max_bytes = or_default s.max_bytes (pos default_max_bytes);
      requests_per_minute = or_default s.requests_per_minute (pos 120);
      handshake_timeout = or_default s.handshake_timeout (pos (5 * second));
      idle_timeout = or_default s.idle_timeout (pos (30 * second));
      session_timeout = or_default s.session_timeout (pos (5 * minute));
    }

abbrev pub exceeds_bounds : ServerLimits → Bool
exceeds_bounds s =
    ltb_ℤ (pos 4096) s.max_connections
    || ltb_ℤ s.max_connections s.max_connections_per_peer
    || ltb 1_000_000 s.max_requests_per_session
    || ltb_ℤ (pos (2 ^ 40)) s.max_bytes
    || ltb_ℤ (pos 1_000_000) s.requests_per_minute
    || ltb_ℤ (pos minute) s.handshake_timeout
    || ltb_ℤ (pos hour) s.idle_timeout
    || ltb_ℤ (pos hour) s.timeout
    || ltb_ℤ (pos (24 * hour)) s.session_timeout

unfoldable pub configured : ServerLimits → Result ServerLimits
configured s = do
  reject_if (any_negative s) (failure "server limits cannot be negative")
  let t = with_defaults s
  reject_if (exceeds_bounds t) (failure "server limits exceed supported bounds")
  ok t

abbrev pub max_tracked_peers : ℕ
max_tracked_peers = 4096

abbrev pub max_connections_per_peer_minute : ℕ
max_connections_per_peer_minute = 240

-- `peerLimiter`; `none` is the zero time, long ago.
pub record Limiter : Type 0 where
  pub peers : List (Bytes × Budget)
  pub maximum : ℕ
  pub requests : ℕ
  pub last_prune : Option ℕ

unfoldable pub new_peer_limiter : ℕ → ℕ → Limiter
new_peer_limiter maximum requests = record {
  peers = [];
  maximum = maximum;
  requests = requests;
  last_prune = none;
}

unfoldable pub reset_budget : Budget → ℕ → Budget
reset_budget b now =
    if leb minute (now - b.window)
    then record b { window = now; connections = 0; requests = 0 }
    else b

-- The end of `acquire`, on the peer's budget.
unfoldable pub admit : Limiter → Bytes → Budget → ℕ → Limiter × Bool
admit l key budget now =
    let b = reset_budget budget now in
    if leb l.maximum b.active || leb max_connections_per_peer_minute b.connections
    then (record l { peers = put key b l.peers }, false)
    else (
      record l {
        peers =
            put key (record b { active = b.active + 1; connections = b.connections + 1 }) l.peers;
      },
      true,
    )

abbrev pub prune_is_due : Option ℕ → ℕ → Bool
prune_is_due none now = true
prune_is_due (some last) now = leb second (now - last)

abbrev pub is_idle : ℕ → Budget → Bool
is_idle now b = b.active == 0 && leb minute (now - b.window)

unfoldable pub prune_when_due : Limiter → ℕ → Limiter
prune_when_due l now =
    if prune_is_due l.last_prune now
    then record l { peers = prune (is_idle now) l.peers; last_prune = some now }
    else l

abbrev pub new_budget : ℕ → Budget
new_budget now = record { active = 0; window = now; connections = 0; requests = 0 }

unfoldable pub enroll : Limiter → Bytes → ℕ → Limiter × Bool
enroll l key now =
    if leb max_tracked_peers (length l.peers)
    then (let l' = prune_when_due l now in
        if leb max_tracked_peers (length l'.peers)
        then (l', false)
        else admit l' key (new_budget now) now)
    else admit l key (new_budget now) now

unfoldable pub acquire : Limiter → Bytes → ℕ → Limiter × Bool
acquire l key now = elim (find key l.peers) [
  | none ↦ enroll l key now
  | some budget ↦ admit l key budget now
]

unfoldable pub release : Limiter → Bytes → Limiter
release l key = elim (find key l.peers) [
  | none ↦ l
  | some b ↦
      if ltb 0 b.active
      then record l { peers = put key (record b { active = b.active - 1 }) l.peers }
      else l
]

unfoldable pub allow_request : Limiter → Bytes → ℕ → Limiter × Bool
allow_request l key now = elim (find key l.peers) [
  | none ↦ (l, false)
  | some budget ↦
      let b = reset_budget budget now in
      if leb l.requests b.requests
      then (record l { peers = put key b l.peers }, false)
      else (record l { peers = put key (record b { requests = b.requests + 1 }) l.peers }, true)
]

-- The calls of the limiter's methods; the server makes them in some order.
pub data Call : Type 0 where
  acquires : Bytes → ℕ → Call
  releases : Bytes → Call
  asks : Bytes → ℕ → Call

-- The new state, and whether the call was granted.
unfoldable pub step : Limiter → Call → Limiter × Bool
step l (acquires key now) = acquire l key now
step l (releases key) = (release l key, true)
step l (asks key now) = allow_request l key now

unfoldable pub run : Limiter → List Call → Limiter
run l [] = l
run l (c ∷ cs) = run (step l c).0 cs
