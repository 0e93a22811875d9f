-- ===== src/Client/Dial.antt =====
-- `Client.Dial` of client.go. Opening a stream is a dialer's, and the handshake is crypto/tls's:
-- both are parameters.
use deep_protocol.Base.{
  ℕ, ◌≡◌, Bool, true, false, List, [], ◌∷◌, Bytes, codes, Option, none, some, Error, failure,
  Result, ok, err, ◌>>=◌, ◌>>◌,
}
use deep_protocol.Base.Int.{ℤ, pos}
use deep_protocol.Uri.{parse_uri}
use deep_protocol.Messages.{Library}
use deep_protocol.Limits.{default_max_bytes, or_default}
use deep_protocol.Body.{Link}
use deep_protocol.Application.{or_failure}
use deep_protocol.Adapters.{Endpoint, Registry, resolve}
use deep_protocol.Security.{
  Crypto, Identity, ConnectionState, Verifier, client_config, validate_client_identity,
  inspect_security,
}
use deep_protocol.Client.{Session, take_deadline, greet_server}

-- The dialers, by transport, and the TLS handshake at a time. The handshake asks the callback of
-- its configuration before it completes. Of a raw connection: whether its deadlines cannot be set,
-- and what its `Close` returns.
pub record Network : Type 1 where
  pub Raw : Type 0
  pub dialer : Bytes → Option (Endpoint → Result Raw)
  pub deadlines : Raw → List Bool
  pub closing : Raw → Option Error
  pub handshake : Verifier → ℕ → Raw → Result (ConnectionState × Link)
  pub handshake-verified :
      (verify : Verifier) (now : ℕ) (raw : Raw) (state : ConnectionState) (l : Link)
      → handshake verify now raw ≡ ok (state, l)
      → verify now state ≡ ok tt

pub record Client : Type 0 where
  pub registry : Option Registry
  pub max_bytes : ℤ
  pub identity : Option Identity

abbrev pub or_tcp : Bytes → Bytes
or_tcp [] = codes "tcp"
or_tcp (c ∷ cs) = c ∷ cs

abbrev pub session_of : Result (Unit {0}) × Session → Result Session
session_of (err e, s) = err e
session_of (ok u, s) = ok s

module _ (lib : Library) (crypto : Crypto) (network : Network) (client : Client) where
  abbrev pub check_own_identity : ℕ → Option Identity → Result (Unit {0})
  check_own_identity now none = ok tt
  check_own_identity now (some identity) = validate_client_identity crypto now identity

  -- What `Dial` does with a raw connection.
  unfoldable pub over : Verifier → ℕ → Bytes → network.Raw → Result Session
  over verify now authority raw = do
    let (deadline, rest) = take_deadline (network.deadlines raw)
    deadline
    (state, l) ← network.handshake verify now raw
    security ← inspect_security crypto state
    let limit = or_default client.max_bytes (pos default_max_bytes)
    session_of (
        greet_server lib limit (record {
          link = l;
          deadlines = rest;
          security = security;
          authority = authority;
          max_bytes = limit;
          next_id = 1;
          locked = false;
          is_closed = false;
          connected = true;
          closing = network.closing raw;
        }))

  -- `Dial` at the time `now`, with what `ctx.Err()` says around the adapter's call.
  unfoldable pub dial : ℕ → Option Error → Option Error → Bytes → Result Session
  dial now at_first at_last value = do
    uri ← parse_uri value
    registry ← or_failure (failure "no network adapter registry") client.registry
    endpoint ← resolve registry at_first at_last uri.authority
    dialer ←
        or_failure (failure "no transport registered") (network.dialer (or_tcp endpoint.transport))
    verify ← client_config crypto uri.authority endpoint.pin_sha256
    check_own_identity now client.identity
    raw ← dialer endpoint
    over verify now uri.authority raw
