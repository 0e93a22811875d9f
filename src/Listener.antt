-- ===== src/Listener.antt =====
-- server.go: `Serve`. Accepting takes two steps, the peer's share and a slot, between which the
-- goroutines of other connections run; such a goroutine asks for its requests, gives its slot back
-- when it ends, and then its share. An error of the listener ends the accepting alone.
pub mod Reachable
pub mod Draining
pub mod Starting
use deep_protocol.Base.{
  ℕ, ◌+◌, ◌≡◌, Bool, true, false, not, ◌||◌, List, [], ◌∷◌, ◌++◌, Bytes, length, ltb, ◌==◌,
  if◌then◌else◌, Option, none, some, failure, Result, ok, err, reject_if, ◌>>=◌, ◌>>◌,
}
use deep_protocol.Base.Int.{pos_part}
use deep_protocol.Uri.{validate_authority}
use deep_protocol.Limits.{
  ServerLimits, Limiter, new_peer_limiter, acquire, release, allow_request, configured,
}
use deep_protocol.Security.{Crypto, Identity, validate_server_identity}

-- What `Serve` reads of a `Server`: of its TLS configuration, if any, the certificates.
pub record Setup : Type 0 where
  pub authority : Bytes
  pub certificates : Option (List Identity)
  pub has_handler : Bool
  pub limits : ServerLimits

-- The peer whose connection waits for a slot, the peers of the connections that are served, and
-- those of the ones that have given back their slot but not yet their share.
pub record Pool : Type 0 where
  pub limiter : Limiter
  pub pending : Option Bytes
  pub running : List Bytes
  pub leaving : List Bytes

abbrev pub certificates_of : Option (List Identity) → List Identity
certificates_of none = []
certificates_of (some cs) = cs

abbrev pub is_none : Option (List Identity) → Bool
is_none none = true
is_none (some cs) = false

abbrev pub one_identity : List Identity → Result Identity
one_identity (cert ∷ []) = ok cert
one_identity _ = err (failure "server requires exactly one static identity")

-- The checks of `Serve` at its start; the limits that it goes on with.
unfoldable pub listen : Crypto → ℕ → Setup → Result ServerLimits
listen crypto now s = do
  validate_authority s.authority
  reject_if (is_none s.certificates || not s.has_handler)
      (failure "server requires TLS identity and resource handler")
  limits ← configured s.limits
  cert ← one_identity (certificates_of s.certificates)
  validate_server_identity crypto now cert s.authority
  ok limits

unfoldable pub opened : ServerLimits → Pool
opened limits = record {
  limiter =
      new_peer_limiter (pos_part limits.max_connections_per_peer)
        (pos_part limits.requests_per_minute);
  pending = none;
  running = [];
  leaving = [];
}

-- `peers.acquire`; a connection that it refuses is closed.
unfoldable pub accept : Bytes → ℕ → Pool → Pool
accept key now p =
    let (l, granted) = acquire p.limiter key now in
    record p { limiter = l; pending = if granted then some key else none }

-- The `select`: a slot for the connection, or its share back.
unfoldable pub place : ℕ → Bytes → Pool → Pool
place capacity key p =
    if ltb (length p.running) capacity
    then record p { pending = none; running = key ∷ p.running }
    else record p { limiter = release p.limiter key; pending = none }

-- A step of the loop or of a connection's goroutine.
pub data Step (capacity : ℕ) (p : Pool) : Pool → Type 0 where
  accepts : (key : Bytes) (now : ℕ) → p.pending ≡ none → Step capacity p (accept key now p)
  places : (key : Bytes) → p.pending ≡ some key → Step capacity p (place capacity key p)
  asks :
      (key : Bytes) (now : ℕ)
      → Step capacity p (record p { limiter = (allow_request p.limiter key now).0 })
  ends :
      (before : List Bytes) (key : Bytes) (after : List Bytes)
      → p.running ≡ before ++ key ∷ after
      → Step capacity p (record p { running = before ++ after; leaving = key ∷ p.leaving })
  leaves :
      (before : List Bytes) (key : Bytes) (after : List Bytes)
      → p.leaving ≡ before ++ key ∷ after
      → Step capacity p (record p { limiter = release p.limiter key; leaving = before ++ after })

pub data Reach (limits : ServerLimits) : Pool → Type 0 where
  start : Reach limits (opened limits)
  later :
      {p q : Pool} → Reach limits p → Step (pos_part limits.max_connections) p q → Reach limits q
