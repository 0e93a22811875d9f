-- ===== src/Examples/Conversations.antt =====
-- The theorem on a client and a server at a concrete input.
use deep_protocol.Base.{◌≡◌, refl, [], ◌++◌, codes, equal, contains, none, some, eof, ok, arith}
use deep_protocol.Base.Int.{pos}
use deep_protocol.Json.{
  validate_json, decode_metadata, check_fields, validate_surrogates, scan_surrogates, walk,
  utf8_from,
}
use deep_protocol.Frame
use deep_protocol.Uri.{
  Uri, parse_uri, valid_label, is_lower_alnum, validate_ascii, before, from, to_lower,
  validate_authority, parse_tail, validate_component, validate_resource, is_plain, is_hex,
  split_dots,
}
use deep_protocol.Messages.{validate_media_type}
use deep_protocol.Body.Sending.{quiet, file}
use deep_protocol.Body.RoundTrip.{stream}
use deep_protocol.Server.{Site, transfer, check_request}
use deep_protocol.Client.{fetch_to}
use deep_protocol.Conversation.{Serves, message, asked}
use deep_protocol.Conversation.Fetches.{fetching, request_sent, fetch_to-transfer}
use deep_protocol.Examples.Documents.{request_document, response_document, toy, hi-Carries}
use deep_protocol.Examples.Sessions.{session}

abbrev front : Uri
front = record {
  authority = codes "a.b";
  node = codes "a";
  network = codes "b";
  path = codes "/";
  query = [];
  fragment = [];
}

front-parsed : parse_uri (codes "deep://a.b/") ≡ ok front
unfolding parse_uri validate_ascii before from to_lower equal validate_authority parse_tail
    validate_component validate_resource is_plain is_hex split_dots valid_label is_lower_alnum
front-parsed = refl

abbrev site : Site
site = record {
  authority = codes "a.b";
  limits = record {
    timeout = pos 1;
    max_connections = pos 1;
    max_connections_per_peer = pos 1;
    max_requests_per_session = 2;
    max_bytes = pos 1000;
    requests_per_minute = pos 1;
    handshake_timeout = pos 1;
    idle_timeout = pos 1;
    session_timeout = pos 1;
  };
  handler = record {
    open_resource = λ path query.
        ok (record {
          body = some (file (codes "hi"));
          media_type = codes "text/plain";
          size = pos 2;
        });
    exchange = none;
  };
  peer = codes "p";
}

front-Serves : Serves toy site front 1 (codes "text/plain") (codes "hi")
unfolding decode_metadata validate_json check_fields validate_surrogates scan_surrogates walk
    utf8_from equal contains validate_media_type
front-Serves = record {
  opens = refl;
  own_authority = refl;
  media_type_valid = refl;
  small = omega arith;
  limited = refl;
  request_encodes = record { raw = request_document; marshaled = refl; read_back = refl };
  response_encodes = record { raw = response_document; marshaled = refl; read_back = refl };
  carries = hi-Carries;
}

fetch_to-transfer_example :
    (check_request toy site 0 (message Frame.request 1 request_document) ≡ ok (asked front))
    × ((transfer toy site 1 (asked front) (quiet (stream [] eof) [])).0 ≡ ok tt)
    × (fetch_to toy (codes "deep://a.b/") (
          fetching toy site front 1
            (codes "text/plain")
            (codes "hi")
            front-Serves
            session
            eof
            1
            ((transfer toy site 1 (asked front) (quiet (stream [] eof) [])).1.output.sent ++ [])
            []
            (codes ">"))
        ≡ (
          ok (record {
            media_type = codes "text/plain";
            size = 2;
            sha256 = codes "00";
            security = session.security;
          }),
          fetching toy site front 1
              (codes "text/plain")
              (codes "hi")
              front-Serves
              session
              eof
              2
              []
              (request_sent toy site front 1
                (codes "text/plain")
                (codes "hi")
                front-Serves
                session
                eof)
              (codes ">hi"),
        ))
unfolding front-Serves
fetch_to-transfer_example =
    fetch_to-transfer toy site front 1 (codes "text/plain") (codes "hi") front-Serves session eof
      (codes "deep://a.b/") 0 (stream [] eof) [] [] (codes ">") front-parsed (omega arith) refl
