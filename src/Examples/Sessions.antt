-- ===== src/Examples/Sessions.antt =====
-- The theorems on the client's sessions at concrete inputs.
use deep_protocol.Base.{
  ℕ, ◌*◌, ◌≡◌, refl, true, false, [], ◌∷◌, ◌++◌, Bytes, codes, equal, contains, none, some, eof,
  failure, closed, Result, ok, err, subst, arith,
}
use deep_protocol.Base.Int.{pos}
use deep_protocol.Json.{
  validate_json, decode_metadata, check_fields, validate_surrogates, scan_surrogates, walk,
  utf8_from, hex_digit,
}
use deep_protocol.Frame
use deep_protocol.Frame.{
  Frame, read_frame, has_preface, write_header, put_uint32, validate_header, write_frame, write_all,
  write_all_to, send,
}
use deep_protocol.Frame.RoundTrip.{encode, IsFrame, read_frame-encode}
use deep_protocol.Messages.{decode_welcome, expect}
use deep_protocol.Uri.{
  parse_uri, valid_label, is_lower_alnum, validate_ascii, before, from, to_lower,
  validate_authority, parse_tail, validate_component, validate_resource, is_plain, is_hex,
  split_dots,
}
use deep_protocol.Limits.{second, default_max_bytes}
use deep_protocol.Application.{ApplicationRequest, valid_method}
use deep_protocol.Adapters.{
  Endpoint, Registry, resolve, find_network, validate_endpoint, valid_tcp_address, split_host_port,
  split_last_colon, valid_port, adapter_for,
}
use deep_protocol.Body.{Link, check_context, on_output, on_input}
use deep_protocol.Body.Wire.{wire}
use deep_protocol.Body.Sending.{quiet, reliable}
use deep_protocol.Body.RoundTrip.{stream}
use deep_protocol.Security.{
  server_auth, ConnectionState, Verifier, client_config, client_verifier, verify_security_profile,
  validate_identity, validate_identity_key, decode_identity_pin, hex_decode, inspect_security,
}
use deep_protocol.Examples.Documents.{
  toy_json, hello_document, welcome_document, response_document, toy, hi-Carries,
}
use deep_protocol.Examples.Identities.{pin, toy_crypto, handshaken}
use deep_protocol.Client.{
  Session, Transfer, on_link, set_deadline, say_hello, next_frame, check_welcome, greet_server,
  on_session, ready, check_usable, usable, fetch_to,
}
use deep_protocol.Client.Exchange.{exchange_to, check_outgoing}
use deep_protocol.Client.Dial.{Network, Client, over, dial}
use deep_protocol.Client.Dialing.{Dialed, dial-Dialed}
use deep_protocol.Client.Outcomes.{Outcome}
use deep_protocol.Client.Fetching.{Typed, fetch_to-Outcome}
use deep_protocol.Client.Exchanging.{Answered, exchange_to-Outcome}
use deep_protocol.Client.Closing.{Failed, fetch_to-Failed, exchange_to-Failed}

abbrev welcome : Bytes
welcome =
    encode (record { kind = Frame.welcome; request_id = 0; metadata = welcome_document; body = [] })

-- What the node answers to a FETCH of its front page.
abbrev answer : Bytes
answer =
    encode
      (record { kind = Frame.response; request_id = 1; metadata = response_document; body = [] })
    ++ wire toy 1 (codes "hi") hi-Carries

-- The handshake is over at once, if the client takes it.
abbrev shaken : Result (Unit {0}) → Result (ConnectionState × Link)
shaken (ok _) = ok (handshaken server_auth, quiet (stream (welcome ++ answer) eof) [])
shaken (err e) = err e

abbrev shake : Verifier → ℕ → Unit {0} → Result (ConnectionState × Link)
shake verify now raw = shaken (verify now (handshaken server_auth))

shake-verified :
    (verify : Verifier) (now : ℕ) (raw : Unit {0}) (state : ConnectionState) (l : Link)
    → shake verify now raw ≡ ok (state, l)
    → verify now state ≡ ok tt
shake-verified verify now raw state l h = go (verify now (handshaken server_auth)) refl h
  where
    go :
        (r : Result (Unit {0}))
        → verify now (handshaken server_auth) ≡ r
        → shaken r ≡ ok (state, l)
        → verify now state ≡ ok tt
    go (ok _) p q = subst (λ t. verify now t ≡ ok tt) (same q) p
      where
        same : shaken (ok tt) ≡ ok (state, l) → handshaken server_auth ≡ state
        same q = cc
    go (err e) p q = cc

abbrev network : Network
network = record {
  Raw = Unit {0};
  dialer = λ transport. some (λ e. ok tt);
  deadlines = λ raw. [];
  closing = λ raw. none;
  handshake = shake;
  handshake-verified = shake-verified;
}

abbrev node : Endpoint
node = record { address = codes "127.0.0.1:4433"; pin_sha256 = pin; transport = [] }

abbrev registry : Registry
registry = record { networks = (codes "b", λ authority. ok node) ∷ []; proxy = none }

abbrev client : Client
client = record { registry = some registry; max_bytes = pos 0; identity = none }

abbrev attempt : Result Session
attempt = dial toy toy_crypto network client (2 * second) none none (codes "deep://a.b/")

-- The session that comes of it.
abbrev pub session : Session
session = record {
  link = quiet (stream answer eof) (
      encode (record { kind = Frame.hello; request_id = 0; metadata = hello_document; body = [] }));
  deadlines = [];
  security = record {
    tls_version = codes "TLS 1.3";
    key_exchange = codes "X25519MLKEM768";
    cipher_suite = codes "TLS_AES_128_GCM_SHA256";
    authentication = codes "ML-DSA-65";
    post_quantum_key_exchange = true;
    post_quantum_authentication = true;
  };
  authority = codes "a.b";
  max_bytes = pos default_max_bytes;
  next_id = 1;
  locked = false;
  is_closed = false;
  connected = true;
  closing = none;
}

abbrev raw_session : Session
raw_session = record session { link = quiet (stream (welcome ++ answer) eof) [] }

abbrev greeting : Session
greeting = record session { link = record session.link { input = stream (welcome ++ answer) eof } }

hello_said : say_hello toy raw_session ≡ (ok tt, greeting)
unfolding say_hello on_link on_output write_header put_uint32 validate_header write_frame write_all
    write_all_to send validate_json validate_surrogates scan_surrogates walk utf8_from contains
    equal
hello_said = refl

abbrev welcome_frame : Frame
welcome_frame = record {
  kind = Frame.welcome;
  request_id = 0;
  metadata = welcome_document;
  body = [];
}

welcome-IsFrame : IsFrame toy_json welcome_frame
unfolding validate_header validate_json validate_surrogates scan_surrogates walk utf8_from contains
    equal
welcome-IsFrame = record { id_fits = omega arith; header_valid = refl; metadata_valid = refl }

welcome_read : next_frame toy Frame.welcome 0 greeting ≡ (ok welcome_frame, session)
unfolding next_frame on_link on_input expect
welcome_read = rw (read_frame-encode toy_json welcome_frame answer eof welcome-IsFrame)

welcome_checked : check_welcome toy welcome_frame ≡ ok tt
unfolding check_welcome decode_welcome decode_metadata check_fields equal validate_json
    validate_surrogates scan_surrogates walk utf8_from contains
welcome_checked = refl

greeted : greet_server toy (pos default_max_bytes) raw_session ≡ (ok tt, session)
unfolding greet_server on_link check_context set_deadline
greeted = rw (hello_said, welcome_read, welcome_checked)

dialed : attempt ≡ ok session
unfolding dial over parse_uri validate_ascii before from to_lower equal validate_authority
    parse_tail validate_component validate_resource is_plain is_hex split_dots valid_label
    is_lower_alnum resolve adapter_for find_network validate_endpoint valid_tcp_address
    split_host_port split_last_colon valid_port client_config client_verifier
    verify_security_profile validate_identity validate_identity_key decode_identity_pin hex_decode
    hex_digit inspect_security
dialed = rw greeted

dial-Dialed_example :
    Dialed toy toy_crypto network client (2 * second) (codes "deep://a.b/") session
dial-Dialed_example =
    dial-Dialed toy toy_crypto network client (2 * second) none none (codes "deep://a.b/") dialed

abbrev transfer : Transfer
transfer = record { session = session; destination = reliable (codes ">") }

fetch_to-Outcome_example :
    Outcome toy (λ x. x) Typed transfer (fetch_to toy (codes "deep://a.b/") transfer)
fetch_to-Outcome_example = fetch_to-Outcome toy (codes "deep://a.b/") transfer

abbrev question : ApplicationRequest
question = record { method = codes "GET"; headers = none; body = [] }

exchange_to-Outcome_example :
    Outcome toy
      (λ x. x.fetched)
      (Answered (codes "GET"))
      transfer
      (exchange_to toy question (codes "deep://a.b/") transfer)
exchange_to-Outcome_example = exchange_to-Outcome toy question (codes "deep://a.b/") transfer

-- A session that is closed already.
abbrev gone : Transfer
gone = record transfer { session = record session { is_closed = true } }

gone-failed : fetch_to toy (codes "deep://a.b/") gone ≡ (err closed, gone)
unfolding fetch_to on_session ready check_usable usable parse_uri validate_ascii before from
    to_lower equal validate_authority parse_tail validate_component validate_resource is_plain
    is_hex split_dots valid_label is_lower_alnum
gone-failed = refl

fetch_to-Failed_example : Failed gone gone
fetch_to-Failed_example = fetch_to-Failed toy (codes "deep://a.b/") gone gone-failed

-- A request that the client does not send.
abbrev odd : ApplicationRequest
odd = record { method = codes "get"; headers = none; body = [] }

odd-failed :
    exchange_to toy odd (codes "deep://a.b/") transfer
    ≡ (err (failure "invalid application request"), transfer)
unfolding exchange_to check_outgoing valid_method
odd-failed = refl

exchange_to-Failed_example : Failed transfer transfer
exchange_to-Failed_example = exchange_to-Failed toy odd (codes "deep://a.b/") transfer odd-failed
