-- ===== src/Examples.antt =====
-- The theorems at concrete inputs.
mod Documents
mod Identities
mod Sessions
mod Conversations
mod Listeners
mod Proxies
mod Loads
use deep_protocol.Base.{
  ℕ, String, suc, ◌*◌, ◌≡◌, ◌≤◌, ◌<◌, refl, subst, sym, inl, inr, ◌↔◌, Bool, true, false, List, [],
  ◌∷◌, ◌++◌, Bytes, length, codes, equal, contains, equal_iff, if◌then◌else◌, Option, none, some,
  eof, failure, Result, ok, err, arith, Bool-cases,
}
use deep_protocol.Base.Int.{pos}
use deep_protocol.Io.{Exec, Writer}
use deep_protocol.Json.{
  Json, Token, open_object, close_object, open_array, close_array, text, scalar, Read, got, at_end,
  validate_json, decode_metadata, check_fields, validate_surrogates, scan_surrogates, walk,
  utf8_from,
}
use deep_protocol.Messages.{Library, Codec, EndMetadata, RequestMetadata, Header}
use deep_protocol.Frame
use deep_protocol.Frame.{
  Frame, read_frame, write_frame, write_all, write_header, put_uint32, validate_header,
}
use deep_protocol.Frame.RoundTrip.{encode, IsFrame, read_frame-encode}
use deep_protocol.Frame.Canonical.{ReadsFrame, read_frame-ReadsFrame}
use deep_protocol.Frame.Write.{Delivers}
use deep_protocol.Frame.Sends.{Writes, write_frame-Writes, write_all-Delivers}
use deep_protocol.Json.Accepts.{IsObject, validate_json-IsObject}
use deep_protocol.Examples.Documents.{
  empty_document, end_document, hello_document, request_document, toy_json, toy, empty-Encodes,
  hi-Carries,
}
use deep_protocol.Body.{receive_stream, receive_chunks, body_texts}
use deep_protocol.Body.Fuel.{rounds, receive_stream-rounds}
use deep_protocol.Body.{Download, send_body, receive_body}
use deep_protocol.Body.Wire.{Encodes, Encodes-valid, Carries, wire}
use deep_protocol.Body.Sending.{quiet, file, reliable, send_body-wire}
use deep_protocol.Body.Receiving.{Safe, receive_body-Safe}
use deep_protocol.Body.RoundTrip.{stream, receiver, receive_body-send_body}
use deep_protocol.Uri.{
  valid_label, is_lower_alnum, Uri, parse_uri, validate_ascii, before, from, to_lower,
  validate_authority, parse_tail, validate_component, validate_resource, is_plain, is_hex,
  split_dots,
}
use deep_protocol.Uri.Parse.{IsUri, Spells, written, parse_uri-IsUri, parse_uri-written}
use deep_protocol.Uri.Canonical.{IsCanonical, parse_uri-IsCanonical}
use deep_protocol.Limits.{
  ServerLimits, Call, acquires, releases, asks, new_peer_limiter, run, configured, with_defaults,
}
use deep_protocol.Application.{Resource}
use deep_protocol.Application.Allowed.{IsHeaders, validate_headers-IsHeaders}
use deep_protocol.Application.{validate_headers}
use deep_protocol.Server.{Site, Session, serve_connection, check_versions, reported}
use deep_protocol.Server.Requests.{IsLog, serve_connection-IsLog}
use deep_protocol.Server.Versions.{IsOffer, check_versions-IsOffer}
use deep_protocol.Server.Reports.{validate_remote_error-reported}
use deep_protocol.Messages.{validate_remote_error}
use deep_protocol.Adapters.{
  Endpoint, Adapter, Registry, resolve, register, find_network, new_registry,
}
use deep_protocol.Adapters.{
  validate_endpoint, valid_tcp_address, split_host_port, split_last_colon, valid_port, adapter_for,
}
use deep_protocol.Adapters.Resolution.{Resolves, resolve-Resolves, register-find_network}
use deep_protocol.Proxy.{write_proxy_message, read_proxy_message}
use deep_protocol.Proxy.RoundTrip.{message, read_proxy_message-write_proxy_message}
use deep_protocol.Json.Surrogates.{validate_surrogates-ne-out_of_fuel}
use deep_protocol.Base.{◌≢◌, out_of_fuel}
use deep_protocol.Limits.Config.{InBounds, configured-InBounds}
use deep_protocol.Limits.Bounds.{new_peer_limiter-IsBounded}
use deep_protocol.Limits.Window.{requests_of, connections_of, granted-le-twice}
use deep_protocol.Limits.Ledger.{held, active_of, active-run, held-le-maximum}

receive_body-send_body_example :
    ((send_body toy 1 2 (record { link = quiet (stream [] eof) []; source = file (codes "hi") })).0
      ≡ ok tt)
    × (receive_body toy 1 2 (
          receiver toy 1
            (codes "hi")
            hi-Carries
            eof
            []
            []
            ((send_body toy 1 2 (record {
              link = quiet (stream [] eof) [];
              source = file (codes "hi");
            })).1.link.output.sent
              ++ codes "!")
            (codes ">"))
        ≡ (
          ok (codes "00"),
          receiver toy 1 (codes "hi") hi-Carries eof [] [] (codes "!") (codes ">hi"),
        ))
receive_body-send_body_example =
    receive_body-send_body toy 1 (codes "hi") hi-Carries eof [] (codes "!") (stream [] eof)
      (codes ">")

abbrev from_peer : Download
from_peer = record {
  link = quiet (stream (wire toy 1 (codes "hi") hi-Carries) eof) [];
  destination = reliable [];
}

receive_body-Safe_example : Safe toy 2 0 [] from_peer (receive_body toy 1 2 from_peer)
receive_body-Safe_example = receive_body-Safe toy 1 2 from_peer

validate_json-IsObject_example :
    (validate_json toy_json end_document ≡ ok tt) ↔ IsObject toy_json end_document
validate_json-IsObject_example = validate_json-IsObject toy_json end_document

abbrev bye : Frame
bye = record { kind = Frame.close; request_id = 0; metadata = empty_document; body = [] }

bye-IsFrame : IsFrame toy_json bye
unfolding validate_header empty-Encodes
bye-IsFrame = record {
  id_fits = omega arith;
  header_valid = refl;
  metadata_valid = Encodes-valid toy_json toy.empty [] tt empty-Encodes;
}

abbrev farewell : Download
farewell = record { link = quiet (stream (encode bye) eof) []; destination = reliable [] }

farewell_short : length farewell.link.input.bytes < 20 * 4
unfolding write_header put_uint32
farewell_short = omega arith

-- What would be done if four frames were not enough.
abbrev spent : ℕ → Bytes → Exec Download Bytes
spent received hashed d = (err eof, d)

receive_stream-rounds_example :
    receive_stream toy body_texts 1 2 farewell ≡ rounds toy body_texts spent 4 1 2 0 [] farewell
receive_stream-rounds_example =
    receive_stream-rounds toy body_texts spent 1 2 4 farewell farewell_short

read_frame-encode_example :
    read_frame toy_json (stream (encode bye ++ codes "more") eof)
    ≡ (ok bye, stream (codes "more") eof)
read_frame-encode_example = read_frame-encode toy_json bye (codes "more") eof bye-IsFrame

read_frame-ReadsFrame_example :
    ReadsFrame toy_json (stream (encode bye ++ []) eof) bye (stream [] eof)
unfolding write_header put_uint32
read_frame-ReadsFrame_example =
    read_frame-ReadsFrame toy_json (stream (encode bye ++ []) eof) (omega arith)
      (read_frame-encode toy_json bye [] eof bye-IsFrame)

-- It takes three bytes and then fails.
abbrev poor_writer : Writer
poor_writer = record { sent = []; answers = (pos 3, none) ∷ (pos 0, some eof) ∷ [] }

write_frame-Writes_example : Writes toy_json bye poor_writer
write_frame-Writes_example = write_frame-Writes toy_json bye poor_writer (omega arith)

abbrev home : Uri
home = record {
  authority = codes "my_node.home";
  node = codes "my_node";
  network = codes "home";
  path = codes "/a";
  query = codes "q=1";
  fragment = codes "top";
}

home-parsed : parse_uri (codes "DEEP://My_Node.home/a?q=1#top") ≡ ok home
unfolding parse_uri validate_ascii before from to_lower equal validate_authority parse_tail
    validate_component validate_resource is_plain is_hex split_dots
home-parsed = refl

parse_uri-IsCanonical_example : IsCanonical (codes "DEEP://My_Node.home/a?q=1#top") home
parse_uri-IsCanonical_example =
    parse_uri-IsCanonical (codes "DEEP://My_Node.home/a?q=1#top") home-parsed

home-spelled : Spells (codes "Deep://") (codes "my_Node.HOME") home
unfolding to_lower
home-spelled = record { scheme_spelled = refl; host_spelled = refl }

home-IsUri : IsUri home
home-IsUri = parse_uri-IsUri (codes "DEEP://My_Node.home/a?q=1#top") home-parsed

parse_uri-written_example :
    parse_uri (written (codes "Deep://") (codes "my_Node.HOME") home) ≡ ok home
parse_uri-written_example =
    parse_uri-written {s = codes "Deep://"} {host = codes "my_Node.HOME"} {u = home} home-IsUri
      home-spelled (omega arith)

abbrev calls : List Call
calls =
    acquires (codes "a") 0
    ∷ acquires (codes "a") 1
    ∷ asks (codes "a") 2
    ∷ releases (codes "a")
    ∷ acquires (codes "b") 3
    ∷ []

held-le-maximum_example : held (codes "a") 0 (new_peer_limiter 1 2) calls ≤ 1
held-le-maximum_example = held-le-maximum (codes "a") 1 2 calls

abbrev asking : List Call
asking = asks (codes "a") 2 ∷ asks (codes "a") 3 ∷ asks (codes "a") 4 ∷ []

granted-le-twice_example :
    (requests_of (codes "a") (run (new_peer_limiter 1 2) calls) asking ≤ 2 * 2)
    × (connections_of (codes "a") (run (new_peer_limiter 1 2) calls) asking ≤ 480)
    × (requests_of (codes "a") (new_peer_limiter 1 2) asking ≤ 2)
    × (connections_of (codes "a") (new_peer_limiter 1 2) asking ≤ 240)
granted-le-twice_example =
    granted-le-twice (codes "a") 1 2 2 calls asking
      ((omega arith, omega arith), ((omega arith, omega arith), ((omega arith, omega arith), tt)))

active-run_example :
    active_of (codes "a") (run (new_peer_limiter 1 2) calls)
    ≡ held (codes "a") (active_of (codes "a") (new_peer_limiter 1 2)) (new_peer_limiter 1 2) calls
active-run_example =
    active-run (codes "a") (new_peer_limiter 1 2) calls (new_peer_limiter-IsBounded 1 2)

-- All limits are left to their defaults.
abbrev unset : ServerLimits
unset = record {
  timeout = pos 0;
  max_connections = pos 0;
  max_connections_per_peer = pos 0;
  max_requests_per_session = 0;
  max_bytes = pos 0;
  requests_per_minute = pos 0;
  handshake_timeout = pos 0;
  idle_timeout = pos 0;
  session_timeout = pos 0;
}

unset-configured : configured unset ≡ ok (with_defaults unset)
unfolding configured with_defaults
unset-configured = refl

configured-InBounds_example : InBounds (with_defaults unset)
configured-InBounds_example = configured-InBounds unset unset-configured

abbrev page : Resource
page = record { body = some (file (codes "hi")); media_type = codes "text/plain"; size = pos 2 }

abbrev site : Site
site = record {
  authority = codes "a.b";
  limits = record unset { max_requests_per_session = 2; max_bytes = pos 1000 };
  handler = record { open_resource = λ path query. ok page; exchange = none };
  peer = codes "a";
}

-- HELLO and two requests of the front page.
abbrev frames : Bytes
frames =
    encode (record { kind = Frame.hello; request_id = 0; metadata = hello_document; body = [] })
    ++ (encode
          (record { kind = Frame.request; request_id = 1; metadata = request_document; body = [] })
        ++ encode (record {
          kind = Frame.request;
          request_id = 7;
          metadata = request_document;
          body = [];
        }))

abbrev session : Session
session = record {
  link = quiet (stream frames eof) [];
  limiter = run (new_peer_limiter 1 2) (acquires (codes "a") 0 ∷ []);
  others = [];
  now = 0;
  times = [];
  deadlines = [];
  served = [];
}

serve_connection-IsLog_example : IsLog toy site (serve_connection toy site session).served
serve_connection-IsLog_example = serve_connection-IsLog toy site session (omega arith) refl

check_versions-IsOffer_example :
    (check_versions (pos 3 ∷ pos 2 ∷ []) ≡ ok tt) ↔ IsOffer (pos 3 ∷ pos 2 ∷ [])
check_versions-IsOffer_example = check_versions-IsOffer (pos 3 ∷ pos 2 ∷ [])

validate_remote_error-reported_example :
    validate_remote_error (λ _. false) (reported (λ _. false) (failure "cannot open")) ≡ ok tt
validate_remote_error-reported_example =
    validate_remote_error-reported (λ _. false) refl refl (failure "cannot open")

abbrev headers : List Header
headers = record { name = codes "accept"; value = codes "*/*" } ∷ []

validate_headers-IsHeaders_example : (validate_headers (some headers) ≡ ok tt) ↔ IsHeaders headers
validate_headers-IsHeaders_example = validate_headers-IsHeaders headers

abbrev node : Endpoint
node = record {
  address = codes "127.0.0.1:4433";
  pin_sha256 = codes "00112233445566778899aabbccddeeff00112233445566778899aabbccddeeff";
  transport = [];
}

abbrev to_node : Adapter
to_node authority = ok node

abbrev registry : Registry
registry = record { networks = (codes "home", to_node) ∷ []; proxy = none }

registered : register (codes "home") (some to_node) new_registry ≡ ok registry
unfolding register valid_label find_network is_lower_alnum
registered = refl

register-find_network_example :
    (find_network (codes "home") [] ≡ none)
    × (find_network (codes "work") registry.networks ≡ elim (equal (codes "home") (codes "work")) [
      | true ↦ some to_node
      | false ↦ find_network (codes "work") []
    ])
register-find_network_example =
    register-find_network (codes "home") (codes "work") to_node new_registry registered

resolved : resolve registry none none (codes "my.home") ≡ ok node
unfolding resolve validate_authority adapter_for find_network validate_endpoint valid_tcp_address
    split_host_port split_last_colon valid_port validate_ascii is_hex
resolved = refl

resolve-Resolves_example : Resolves registry (codes "my.home") node
resolve-Resolves_example = resolve-Resolves registry none none (codes "my.home") resolved

abbrev as_is : Bytes → Result Bytes
as_is raw = ok raw

read_proxy_message-write_proxy_message_example :
    (write_proxy_message (ok (codes "{}")) (record { sent = codes ">"; answers = [] })
      ≡ (ok tt, record { sent = codes ">" ++ message (codes "{}"); answers = [] }))
    × (read_proxy_message as_is (stream (message (codes "{}") ++ codes "tls") eof)
        ≡ (ok (codes "{}"), stream (codes "tls") eof))
read_proxy_message-write_proxy_message_example =
    read_proxy_message-write_proxy_message as_is (codes "{}") (codes ">") (codes "tls") eof
      (omega arith) (omega arith)

validate_surrogates-ne-out_of_fuel_example : validate_surrogates end_document ≢ err out_of_fuel
validate_surrogates-ne-out_of_fuel_example = validate_surrogates-ne-out_of_fuel end_document
