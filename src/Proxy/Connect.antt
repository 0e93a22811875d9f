-- ===== src/Proxy/Connect.antt =====
-- proxy.go: `DialProxy`, `ProxyAdapter.Resolve` and the connection that `proxyHandshake` opens. An
-- error closes the connection.
use deep_protocol.Base.{
  Bool, not, ◌||◌, [], ◌∷◌, Bytes, length, codes, equal, ◌==◌, if◌then◌else◌, Option, none, some,
  failure, Result, ok, err, reject_if, ◌>>=◌, ◌>>◌, map,
}
use deep_protocol.Base.Int.{ℤ, pos, is_negative}
use deep_protocol.Uri.{validate_authority, to_lower}
use deep_protocol.Adapters.{Endpoint, validate_endpoint, validate_proxy_address}
use deep_protocol.Proxy.Handshake.{ProxyRequest, ProxyResponse, Channel, Url, Surroundings, talk}

abbrev pub proxy_transport : Bytes
proxy_transport = codes "deep-proxy"

-- `strings.TrimPrefix(path, "/")`
abbrev pub trim_slash : Bytes → Bytes
trim_slash [] = []
trim_slash (c ∷ cs) = if c == b'/' then cs else c ∷ cs

abbrev pub connected : Result ProxyResponse × Channel → Result (ProxyResponse × Channel)
connected (err e, c) = err e
connected (ok r, c) = ok (r, c)

abbrev pub read_url : Option Url → Result Url
read_url none = err (failure "invalid native DEEP proxy endpoint")
read_url (some u) = ok u

abbrev pub bad_url : Url → Bool
bad_url u =
    not (equal u.scheme proxy_transport)
    || u.has_user
    || not (length u.opaque_part == 0)
    || not (length u.raw_query == 0)
    || u.force_query
    || not (length u.fragment == 0)
    || not (length u.raw_path == 0)

abbrev pub bad_endpoint : Endpoint → Url → Bool
bad_endpoint e u = not (equal e.transport proxy_transport) || bad_url u

module _ (around : Surroundings) where
  -- `proxyHandshake`
  unfoldable pub proxy_handshake : Bytes → ℤ → ProxyRequest → Result (ProxyResponse × Channel)
  proxy_handshake address timeout q = do
    validate_proxy_address around.is_loopback address
    reject_if (is_negative timeout) (failure "proxy timeout must be positive")
    c ← around.open_connection address
    connected (talk around q c)

  -- `parseProxyEndpoint`: the proxy's address and the authority.
  unfoldable pub parse_proxy_endpoint : Endpoint → Result (Bytes × Bytes)
  parse_proxy_endpoint e = do
    validate_endpoint e
    u ← read_url (around.parse_url e.address)
    reject_if (bad_endpoint e u) (failure "invalid native DEEP proxy endpoint")
    validate_proxy_address around.is_loopback u.host
    let authority = trim_slash u.path
    validate_authority authority
    reject_if (not (equal e.address (around.print_url u.host (b'/' ∷ authority))))
        (failure "noncanonical proxy endpoint")
    ok (u.host, authority)

  -- `DialProxy`
  unfoldable pub dial_proxy : Endpoint → Result (ProxyResponse × Channel)
  dial_proxy e = do
    (address, authority) ← parse_proxy_endpoint e
    proxy_handshake address (pos 0) (record {
      version = pos 1;
      operation = codes "connect";
      authority = authority;
      pin_sha256 = map to_lower e.pin_sha256;
    })

  -- `ProxyAdapter.Resolve` of an adapter with this address and timeout.
  unfoldable pub resolve_proxy : Bytes → ℤ → Bytes → Result Endpoint
  resolve_proxy address timeout authority = do
    reject_if (length address == 0) (failure "DEEP proxy is not configured")
    validate_authority authority
    (response, c) ← proxy_handshake address timeout (record {
      version = pos 1;
      operation = codes "resolve";
      authority = authority;
      pin_sha256 = [];
    })
    ok (record {
      address = around.print_url address (b'/' ∷ authority);
      pin_sha256 = response.pin_sha256;
      transport = proxy_transport;
    })
