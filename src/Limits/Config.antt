-- ===== src/Limits/Config.antt =====
-- `Server.configured`: defaults and bounds of the server's limits.
use deep_protocol.Base.{
  ℕ, zero, suc, ◌+◌, ◌^◌, ◌*◌, ◌≡◌, ◌≤◌, refl, Bool, true, false, arith, ltb, ◌==◌, ok, Error,
  subst, failure, reject_if, >>=-eq-ok,
}
use deep_protocol.Base.Int.{ℤ, pos, negsuc, pos_part, neg_part, ltb_ℤ, is_negative}
use deep_protocol.Limits.{
  ServerLimits, or_default, min_ℤ, any_negative, with_defaults, exceeds_bounds, configured, minute,
  hour, default_max_bytes, second,
}

abbrev pub IsPositive : ℤ → Type 0
IsPositive z = (neg_part z ≡ 0) × (1 ≤ pos_part z)

-- `z` is positive and at most `bound`.
abbrev pub UpTo : ℕ → ℤ → Type 0
UpTo bound z = IsPositive z × (pos_part z ≤ bound)

pub record InBounds (s : ServerLimits) : Type 0 where
  pub connections : UpTo 4096 s.max_connections
  pub per_peer : UpTo (pos_part s.max_connections) s.max_connections_per_peer
  pub requests : (1 ≤ s.max_requests_per_session) × (s.max_requests_per_session ≤ 1_000_000)
  pub bytes : UpTo (2 ^ 40) s.max_bytes
  pub rate : UpTo 1_000_000 s.requests_per_minute
  pub handshake : UpTo minute s.handshake_timeout
  pub idle : UpTo hour s.idle_timeout
  pub request_time : UpTo hour s.timeout
  pub session : UpTo (24 * hour) s.session_timeout

or_default-IsPositive :
    (x d : ℤ) → is_negative x ≡ false → IsPositive d → IsPositive (or_default x d)
or_default-IsPositive (pos zero) d n p = p
or_default-IsPositive (pos (suc x)) d n p = ground arith
or_default-IsPositive (negsuc x) d n p = cc

or_default_kept : (x d : ℤ) → IsPositive x → or_default x d ≡ x
or_default_kept (pos zero) d p = absurd (omega arith)
or_default_kept (pos (suc x)) d p = ground arith
or_default_kept (negsuc x) d p = ground arith

min_ℤ-IsPositive : (a b : ℤ) → IsPositive a → IsPositive b → IsPositive (min_ℤ a b)
min_ℤ-IsPositive a b p q = ground arith

not_above : (k : ℕ) (z : ℤ) → IsPositive z → ltb_ℤ (pos k) z ≡ false → UpTo k z
not_above k (pos n) p h = (p, ground arith)
not_above k (negsuc n) p h = absurd (omega arith)

-- The defaults are positive, so each limit is from there on.
record Positive (s : ServerLimits) : Type 0 where
  connections : IsPositive s.max_connections
  per_peer : IsPositive s.max_connections_per_peer
  requests : 1 ≤ s.max_requests_per_session
  bytes : IsPositive s.max_bytes
  rate : IsPositive s.requests_per_minute
  handshake : IsPositive s.handshake_timeout
  idle : IsPositive s.idle_timeout
  request_time : IsPositive s.timeout
  session : IsPositive s.session_timeout

record NoneNegative (s : ServerLimits) : Type 0 where
  connections : is_negative s.max_connections ≡ false
  per_peer : is_negative s.max_connections_per_peer ≡ false
  bytes : is_negative s.max_bytes ≡ false
  rate : is_negative s.requests_per_minute ≡ false
  handshake : is_negative s.handshake_timeout ≡ false
  idle : is_negative s.idle_timeout ≡ false
  request_time : is_negative s.timeout ≡ false
  session : is_negative s.session_timeout ≡ false

any_negative-NoneNegative : (s : ServerLimits) → any_negative s ≡ false → NoneNegative s
any_negative-NoneNegative s h = ground arith

with_defaults-Positive : (s : ServerLimits) → NoneNegative s → Positive (with_defaults s)
unfolding with_defaults
with_defaults-Positive s n =
    let c = or_default-IsPositive s.max_connections (pos 64) n.connections (omega arith) in
    record {
      connections = c;
      per_peer =
          or_default-IsPositive s.max_connections_per_peer _ n.per_peer
            (min_ℤ-IsPositive (pos 16) _ (omega arith) c);
      requests = ground arith;
      bytes = or_default-IsPositive s.max_bytes _ n.bytes (omega arith);
      rate = or_default-IsPositive s.requests_per_minute _ n.rate (omega arith);
      handshake = or_default-IsPositive s.handshake_timeout _ n.handshake (omega arith);
      idle = or_default-IsPositive s.idle_timeout _ n.idle (omega arith);
      request_time = or_default-IsPositive s.timeout _ n.request_time (omega arith);
      session = or_default-IsPositive s.session_timeout _ n.session (omega arith);
    }

accepted : (b : Bool) (e : Error) {u : Unit {0}} → reject_if b e ≡ ok u → b ≡ false
accepted true e h = cc
accepted false e h = refl

ok-injective : {s t : ServerLimits} → ok s ≡ ok t → s ≡ t
ok-injective {s} {t} h = cc

not_greater : (a b : ℤ) → ltb_ℤ a b ≡ false → pos_part b + neg_part a ≤ pos_part a + neg_part b
not_greater a b h = ground arith

within_connections :
    (t : ServerLimits)
    → Positive t
    → exceeds_bounds t ≡ false
    → pos_part t.max_connections_per_peer ≤ pos_part t.max_connections
within_connections t p h =
    let e : ltb_ℤ t.max_connections t.max_connections_per_peer ≡ false = ground arith in
    omega (arith, not_greater t.max_connections t.max_connections_per_peer e)

exceeds_bounds-InBounds : (t : ServerLimits) → Positive t → exceeds_bounds t ≡ false → InBounds t
exceeds_bounds-InBounds t p h = record {
  connections = not_above 4096 t.max_connections p.connections (ground arith);
  per_peer = (p.per_peer, within_connections t p h);
  requests = ground arith;
  bytes = not_above (2 ^ 40) t.max_bytes p.bytes (ground arith);
  rate = not_above 1_000_000 t.requests_per_minute p.rate (ground arith);
  handshake = not_above minute t.handshake_timeout p.handshake (ground arith);
  idle = not_above hour t.idle_timeout p.idle (ground arith);
  request_time = not_above hour t.timeout p.request_time (ground arith);
  session = not_above (24 * hour) t.session_timeout p.session (ground arith);
}

-- The limits that configured returns are positive and within the supported bounds.
pub configured-InBounds : (s : ServerLimits) {t : ServerLimits} → configured s ≡ ok t → InBounds t
unfolding configured
configured-InBounds s {t} e =
    let (_, a, e₁) =
      >>=-eq-ok (reject_if (any_negative s) (failure "server limits cannot be negative")) _ e in
    let (_, b, e₂) =
      >>=-eq-ok
        (reject_if (exceeds_bounds (with_defaults s))
          (failure "server limits exceed supported bounds"))
        _ e₁ in
    subst InBounds (ok-injective e₂) (
      exceeds_bounds-InBounds (with_defaults s)
        (with_defaults-Positive s (any_negative-NoneNegative s (accepted _ _ a))) (accepted _ _ b))

not_negative : (z : ℤ) → neg_part z ≡ 0 → is_negative z ≡ false
not_negative (pos n) h = refl
not_negative (negsuc n) h = absurd (omega arith)

none_negative : (s : ServerLimits) → InBounds s → any_negative s ≡ false
none_negative s b = rw (
  not_negative s.timeout b.request_time.0.0,
  not_negative s.handshake_timeout b.handshake.0.0,
  not_negative s.idle_timeout b.idle.0.0,
  not_negative s.session_timeout b.session.0.0,
  not_negative s.max_connections b.connections.0.0,
  not_negative s.max_connections_per_peer b.per_peer.0.0,
  not_negative s.max_bytes b.bytes.0.0,
  not_negative s.requests_per_minute b.rate.0.0,
)

at_most : (k : ℕ) (z : ℤ) → UpTo k z → ltb_ℤ (pos k) z ≡ false
at_most k z h = ground arith

at_most_ℤ : (a b : ℤ) → IsPositive a → UpTo (pos_part a) b → ltb_ℤ a b ≡ false
at_most_ℤ a b p h = ground arith

none_exceeds : (s : ServerLimits) → InBounds s → exceeds_bounds s ≡ false
none_exceeds s b =
    let requests : ltb 1_000_000 s.max_requests_per_session ≡ false = ground arith in
    rw (
      at_most 4096 s.max_connections b.connections,
      at_most_ℤ s.max_connections s.max_connections_per_peer b.connections.0 b.per_peer,
      requests,
      at_most (2 ^ 40) s.max_bytes b.bytes,
      at_most 1_000_000 s.requests_per_minute b.rate,
      at_most minute s.handshake_timeout b.handshake,
      at_most hour s.idle_timeout b.idle,
      at_most hour s.timeout b.request_time,
      at_most (24 * hour) s.session_timeout b.session,
    )

with_defaults_kept : (s : ServerLimits) → InBounds s → with_defaults s ≡ s
unfolding with_defaults
with_defaults_kept s b =
    let requests : (s.max_requests_per_session == 0) ≡ false = ground arith in
    rw (
      or_default_kept s.timeout (pos (30 * second)) b.request_time.0,
      or_default_kept s.max_connections (pos 64) b.connections.0,
      or_default_kept s.max_connections_per_peer _ b.per_peer.0,
      requests,
      or_default_kept s.max_bytes (pos default_max_bytes) b.bytes.0,
      or_default_kept s.requests_per_minute (pos 120) b.rate.0,
      or_default_kept s.handshake_timeout (pos (5 * second)) b.handshake.0,
      or_default_kept s.idle_timeout (pos (30 * second)) b.idle.0,
      or_default_kept s.session_timeout (pos (5 * minute)) b.session.0,
    )

-- Limits within the bounds are returned by configured as they are.
configured-kept : (s : ServerLimits) → InBounds s → configured s ≡ ok s
unfolding configured
configured-kept s b = rw (none_negative s b, with_defaults_kept s b, none_exceeds s b)
