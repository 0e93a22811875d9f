-- ===== src/Proxy/Handshake.antt =====
-- proxy.go: the exchange of `proxyHandshake` on an open connection. Opening a TCP connection, encoding/json and net/url are parameters. A pin is hexadecimal where it is
-- compared, so `EqualFold` and `ToLower` are those of ASCII.
use deep_protocol.Base.{
  Bool, false, not, ◌&&◌, ◌||◌, List, Bytes, length, codes, equal, ◌==◌, if◌then◌else◌, Option,
  none, some, failure, Result, err, reject_if, map,
}
use deep_protocol.Base.Int.{ℤ, pos, eq_ℤ}
use deep_protocol.Io.{Exec, ◌>>=◌, ◌>>◌, pure, lift}
use deep_protocol.Uri.{to_lower}
use deep_protocol.Body.{Link, check_context, on_input, on_output}
use deep_protocol.Security.{hex_decode}
use deep_protocol.Client.{take_deadline}
use deep_protocol.Proxy.{write_proxy_message, read_proxy_message}

pub record ProxyRequest : Type 0 where
  pub version : ℤ
  pub operation : Bytes
  pub authority : Bytes
  pub pin_sha256 : Bytes

pub record ProxyResponse : Type 0 where
  pub version : ℤ
  pub accepted : Bool
  pub pin_sha256 : Bytes
  pub error : Bytes

-- A connection to the proxy. `deadlines` tells of each deadline whether it cannot be set.
pub record Channel : Type 0 where
  pub link : Link
  pub deadlines : List Bool

-- What `url.Parse` reads.
pub record Url : Type 0 where
  pub scheme : Bytes
  pub has_user : Bool
  pub opaque_part : Bytes
  pub host : Bytes
  pub path : Bytes
  pub raw_path : Bytes
  pub raw_query : Bytes
  pub force_query : Bool
  pub fragment : Bytes

-- The other code that the proxy's client uses; `print_url` writes a URL of the proxy's scheme with
-- a host and a path.
pub record Surroundings : Type 0 where
  pub is_loopback : Bytes → Bool
  pub open_connection : Bytes → Result Channel
  pub marshal : ProxyRequest → Result Bytes
  pub decode : Bytes → Result ProxyResponse
  pub parse_url : Bytes → Option Url
  pub print_url : Bytes → Bytes → Bytes

unfoldable pub on_link : {A : Type 0} → Exec Link A → Exec Channel A
on_link m c = let (r, l) = m c.link in (r, record c { link = l })

unfoldable pub set_deadline : Exec Channel (Unit {0})
set_deadline c = let (r, rest) = take_deadline c.deadlines in (r, record c { deadlines = rest })

abbrev pub is_digest : Option Bytes → Bool
is_digest none = false
is_digest (some pin) = length pin == 32

-- `hex.DecodeString` of a pin gives 32 bytes.
unfoldable pub is_pin : Bytes → Bool
unfolding hex_decode
is_pin pin = is_digest (hex_decode pin)

unfoldable pub equal_fold : Bytes → Bytes → Bool
equal_fold a b = equal (map to_lower a) (map to_lower b)

unfoldable pub check_response : ProxyRequest → ProxyResponse → Result (Unit {0})
unfolding is_pin equal_fold
check_response q r =
    if not (eq_ℤ r.version (pos 1))
    then err (failure "unsupported DEEP proxy version")
    else if not r.accepted
    then err (failure "DEEP proxy rejected the requested authority or identity pin")
    else if not (is_pin r.pin_sha256)
        || not (length r.pin_sha256 == 64)
        || not (length r.error == 0)
    then err (failure "DEEP proxy returned an invalid identity pin")
    else reject_if
        (equal q.operation (codes "connect") && not (equal_fold q.pin_sha256 r.pin_sha256))
        (failure "DEEP proxy identity pin changed during connection")

module _ (around : Surroundings) where
  -- `proxyHandshake` on an open connection.
  unfoldable pub talk : ProxyRequest → Exec Channel ProxyResponse
  talk q = do
    set_deadline
    on_link (on_output (write_proxy_message (around.marshal q)))
    r ← on_link (on_input (read_proxy_message around.decode))
    lift (check_response q r)
    on_link check_context
    set_deadline
    pure r
