-- ===== src/Examples/Proxies.antt =====
-- The theorems on the proxy at concrete inputs.
use deep_protocol.Base.{
  ◌≡◌, refl, true, false, [], ◌++◌, Bytes, map, codes, equal, some, eof, ok, arith,
}
use deep_protocol.Base.Int.{pos}
use deep_protocol.Json.{hex_digit}
use deep_protocol.Uri.{
  to_lower, valid_label, is_lower_alnum, validate_authority, split_dots, is_hex, has_byte, before,
  from,
}
use deep_protocol.Adapters.{
  Endpoint, validate_endpoint, valid_transport_name, split_host_port, split_last_colon, valid_port,
  decimal, validate_proxy_address,
}
use deep_protocol.Body.Sending.{quiet}
use deep_protocol.Body.RoundTrip.{stream}
use deep_protocol.Security.{hex_decode}
use deep_protocol.Proxy.RoundTrip.{message}
use deep_protocol.Proxy.Handshake.{
  ProxyRequest, ProxyResponse, Channel, Surroundings, is_pin, equal_fold, check_response, talk,
}
use deep_protocol.Proxy.Connect.{proxy_transport, proxy_handshake, parse_proxy_endpoint, dial_proxy}
use deep_protocol.Proxy.Pinned.{IsConnected, dial_proxy-IsConnected, talk-message}
use deep_protocol.Examples.Identities.{pin}

abbrev answered : ProxyResponse
answered = record { version = pos 1; accepted = true; pin_sha256 = pin; error = [] }

abbrev channel : Bytes → Bytes → Channel
channel input sent = record { link = quiet (stream input eof) sent; deadlines = [] }

abbrev proxied : Bytes
proxied = codes "deep-proxy://127.0.0.1:9/a.b"

-- One proxy with one answer.
abbrev around : Surroundings
around = record {
  is_loopback = λ host. true;
  open_connection = λ address. ok (channel (message (codes "yes") ++ codes "tls") []);
  marshal = λ q. ok (codes "ask");
  decode = λ raw. ok answered;
  parse_url = λ text. some (record {
    scheme = proxy_transport;
    has_user = false;
    opaque_part = [];
    host = codes "127.0.0.1:9";
    path = codes "/a.b";
    raw_path = [];
    raw_query = [];
    force_query = false;
    fragment = [];
  });
  print_url = λ host path. proxied;
}

abbrev question : ProxyRequest
question = record {
  version = pos 1;
  operation = codes "connect";
  authority = codes "a.b";
  pin_sha256 = pin;
}

answer_checked : check_response question answered ≡ ok tt
unfolding check_response is_pin equal_fold hex_decode hex_digit equal to_lower
answer_checked = refl

talk-message_example :
    talk around question (channel (message (codes "yes") ++ codes "tls") [])
    ≡ (ok answered, channel (codes "tls") (message (codes "ask")))
talk-message_example =
    talk-message around question answered (codes "ask") (codes "yes") [] (codes "tls") eof refl
      (omega arith, omega arith) refl (omega arith, omega arith) answer_checked

talked :
    talk around question (channel (message (codes "yes") ++ codes "tls") [])
    ≡ (ok answered, channel (codes "tls") (message (codes "ask")))
talked =
    talk-message around question answered (codes "ask") (codes "yes") [] (codes "tls") eof refl
      (omega arith, omega arith) refl (omega arith, omega arith) answer_checked

abbrev endpoint : Endpoint
endpoint = record { address = proxied; pin_sha256 = pin; transport = proxy_transport }

parsed : parse_proxy_endpoint around endpoint ≡ ok (codes "127.0.0.1:9", codes "a.b")
unfolding parse_proxy_endpoint validate_endpoint valid_transport_name validate_proxy_address
    split_host_port split_last_colon valid_port decimal has_byte before from validate_authority
    valid_label is_lower_alnum split_dots equal is_hex
parsed = refl

lowered : map to_lower pin ≡ pin
unfolding to_lower
lowered = refl

shaken :
    proxy_handshake around (codes "127.0.0.1:9") (pos 0) question
    ≡ ok (answered, channel (codes "tls") (message (codes "ask")))
unfolding proxy_handshake validate_proxy_address split_host_port split_last_colon valid_port decimal
    has_byte before from equal
shaken = rw talked

connection :
    dial_proxy around endpoint ≡ ok (answered, channel (codes "tls") (message (codes "ask")))
unfolding dial_proxy
connection = rw (parsed, lowered, shaken)

dial_proxy-IsConnected_example : IsConnected endpoint answered
dial_proxy-IsConnected_example = dial_proxy-IsConnected around endpoint connection
