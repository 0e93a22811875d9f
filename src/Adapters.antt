-- ===== src/Adapters.antt =====
-- adapters.go: endpoints, `Registry` and `StaticAdapter`; and `ValidateProxyAddress` of proxy.go.
-- A network adapter is an interface: a function from an authority to an endpoint or an error. The
-- texts of errors leave out the names that they quote and the causes that they wrap.
pub mod Resolution
pub mod Config
pub mod Entries
pub mod Address
pub mod Loading
pub mod Executing
use deep_protocol.Base.{
  ℕ, zero, suc, ◌+◌, ◌*◌, ◌-◌, Bool, true, false, not, ◌&&◌, ◌||◌, List, [], ◌∷◌, ◌++◌, Bytes,
  length, all, drop, take, codes, equal, leb, ltb, ◌==◌, within, if◌then◌else◌, Option, none, some,
  Error, failure, Result, ok, err, reject_if, is_ok, ◌>>=◌, ◌>>◌,
}
use deep_protocol.Uri.{
  valid_label, validate_authority, validate_ascii, is_label_byte, is_hex, split_dots, has_byte,
  before, from, behind_mark,
}

pub record Endpoint : Type 0 where
  pub address : Bytes
  pub pin_sha256 : Bytes
  pub transport : Bytes

unfoldable pub valid_transport_name : Bytes → Bool
valid_transport_name [] = false
valid_transport_name (c ∷ cs) =
    if ltb 32 (length (c ∷ cs)) || not (within b'a' b'z' c) then false else all is_label_byte cs

abbrev pub is_colon : ℕ → Bool
is_colon c = c == b':'

-- The parts around the last colon, if there is one.
unfoldable pub split_last_colon : Bytes → Option (Bytes × Bytes)
unfolding has_byte
split_last_colon [] = none
split_last_colon (c ∷ cs) = elim (split_last_colon cs) [
  | some (host, port) ↦ some (c ∷ host, port)
  | none ↦ if c == b':' then some ([], cs) else none
]

-- The host of `[host]:port` behind its first bracket, if nothing else is between `]` and the colon.
abbrev pub bracketed : Bytes → Option Bytes
bracketed rest =
    let inside = before (λ c. c == b']') rest in
    if equal (from (λ c. c == b']') rest) (b']' ∷ []) && not (has_byte inside b'[')
    then some inside
    else none

-- `net.SplitHostPort`
unfoldable pub split_host_port : Bytes → Option (Bytes × Bytes)
unfolding split_last_colon has_byte before from equal
split_host_port address = elim (split_last_colon address) [
  | none ↦ none
  | some (front, port) ↦ if has_byte port b'[' || has_byte port b']' then none else elim front [
    | [] ↦ some ([], port)
    | c ∷ rest ↦
        if c == b'['
        then elim (bracketed rest) [ none ↦ none | some host ↦ some (host, port) ]
        else if has_byte (c ∷ rest) b':' || has_byte (c ∷ rest) b'[' || has_byte (c ∷ rest) b']'
        then none
        else some (c ∷ rest, port)
  ]
]

abbrev pub is_digit : ℕ → Bool
is_digit = within b'0' b'9'

unfoldable pub decimal : ℕ → Bytes → ℕ
decimal acc [] = acc
decimal acc (c ∷ cs) = decimal (acc * 10 + (c - b'0')) cs

-- `strconv.Atoi` succeeds with a value from 1 to 65535 that `strconv.Itoa` writes in the same way.
unfoldable pub valid_port : Bytes → Bool
unfolding decimal
valid_port [] = false
valid_port (c ∷ cs) =
    all is_digit (c ∷ cs) && not (c == b'0') && within 1 65535 (decimal 0 (c ∷ cs))

unfoldable pub valid_tcp_address : Bytes → Result (Unit {0})
unfolding split_host_port valid_port has_byte
valid_tcp_address address = elim (split_host_port address) [
  | none ↦ err (failure "TCP endpoint address must be host:port")
  | some (host, port) ↦
      if length host == 0
      then err (failure "TCP endpoint address must be host:port")
      else if not (is_ok (validate_ascii address))
          || not (all (λ c. not (has_byte (codes "/\\?#@") c)) host)
      then err (failure "invalid endpoint host")
      else if not (valid_port port)
      then err (failure "endpoint port must be an integer from 1 to 65535")
      else ok tt
]

unfoldable pub validate_endpoint : Endpoint → Result (Unit {0})
unfolding valid_transport_name
validate_endpoint e = do
  reject_if (length e.address == 0 || ltb 1024 (length e.address))
      (failure "endpoint address must contain 1 to 1024 bytes")
  reject_if (not (length e.transport == 0) && not (valid_transport_name e.transport))
      (failure "invalid endpoint transport name")
  reject_if (not (all (within 32 126) e.address))
      (failure "endpoint address must contain printable ASCII characters")
  (if length e.transport == 0 || equal e.transport (codes "tcp")
      then valid_tcp_address e.address
      else ok tt)
  reject_if (not (length e.pin_sha256 == 64))
      (failure "endpoint pin_sha256 must contain 64 hexadecimal characters")
  reject_if (not (all is_hex e.pin_sha256))
      (failure "endpoint pin_sha256 must contain 64 hexadecimal characters")

-- `NetworkAdapter`
abbrev pub Adapter : Type 0
Adapter = Bytes → Result Endpoint

pub record Registry : Type 0 where
  pub networks : List (Bytes × Adapter)
  pub proxy : Option Adapter

abbrev pub new_registry : Registry
new_registry = record { networks = []; proxy = none }

unfoldable pub find_network : Bytes → List (Bytes × Adapter) → Option Adapter
find_network k [] = none
find_network k ((j, a) ∷ m) = if equal j k then some a else find_network k m

abbrev pub is_some : Option Adapter → Bool
is_some none = false
is_some (some a) = true

-- `Register`; a nil adapter is `none`.
unfoldable pub register : Bytes → Option Adapter → Registry → Result Registry
register network none r = do
  reject_if (not (valid_label network))
      (failure "network must be a canonical lowercase ASCII label")
  err (failure "network adapter must not be nil")
register network (some a) r = do
  reject_if (not (valid_label network))
      (failure "network must be a canonical lowercase ASCII label")
  reject_if (is_some (find_network network r.networks)) (failure "network is already registered")
  ok (record r { networks = (network, a) ∷ r.networks })

-- `ValidateProxyAddress`; `is_loopback` tells of a text whether `net.ParseIP` reads it as a
-- loopback address.
unfoldable pub validate_proxy_address : (Bytes → Bool) → Bytes → Result (Unit {0})
unfolding split_host_port valid_port
validate_proxy_address is_loopback address = elim (split_host_port address) [
  | none ↦ err (failure "DEEP proxy must be a numeric loopback IP:PORT")
  | some (host, port) ↦
      reject_if (not (is_loopback host) || not (valid_port port))
        (failure "DEEP proxy must be a numeric loopback IP and port from 1 to 65535")
]

-- `SetProxy`; `proxy_adapter` makes the `ProxyAdapter` of an address.
unfoldable pub set_proxy : (Bytes → Bool) → (Bytes → Adapter) → Bytes → Registry → Result Registry
set_proxy is_loopback proxy_adapter [] r = ok (record r { proxy = none })
set_proxy is_loopback proxy_adapter (c ∷ cs) r = do
  validate_proxy_address is_loopback (c ∷ cs)
  ok (record r { proxy = some (proxy_adapter (c ∷ cs)) })

abbrev pub last_label : List Bytes → Bytes
last_label [] = []
last_label (p ∷ []) = p
last_label (p ∷ q ∷ ps) = last_label (q ∷ ps)

-- The adapter for an authority: the proxy, if there is one.
unfoldable pub adapter_for : Registry → Bytes → Option Adapter
unfolding find_network split_dots
adapter_for r authority = elim r.proxy [
  | some a ↦ some a
  | none ↦ find_network (last_label (split_dots authority)) r.networks
]

-- `if err := ctx.Err(); err != nil { return err }`
abbrev pub unless_canceled : Option Error → Result (Unit {0})
unless_canceled none = ok tt
unless_canceled (some e) = err e

abbrev pub installed : Option Adapter → Result Adapter
installed none = err (failure "no adapter installed for network")
installed (some a) = ok a

-- `Registry.Resolve`, with what `ctx.Err()` says before and behind the adapter's call.
unfoldable pub resolve : Registry → Option Error → Option Error → Bytes → Result Endpoint
resolve r at_first at_last authority = do
  validate_authority authority
  unless_canceled at_first
  adapter ← installed (adapter_for r authority)
  endpoint ← adapter authority
  unless_canceled at_last
  validate_endpoint endpoint
  ok endpoint

unfoldable pub find_endpoint : Bytes → List (Bytes × Endpoint) → Option Endpoint
find_endpoint k [] = none
find_endpoint k ((j, e) ∷ m) = if equal j k then some e else find_endpoint k m

abbrev pub known : Option Endpoint → Result Endpoint
known none = err (failure "unknown authority")
known (some e) = ok e

-- `StaticAdapter.Resolve`
unfoldable pub resolve_static : List (Bytes × Endpoint) → Option Error → Bytes → Result Endpoint
unfolding find_endpoint
resolve_static m canceled authority = do
  unless_canceled canceled
  validate_authority authority
  e ← known (find_endpoint authority m)
  validate_endpoint e
  ok e
