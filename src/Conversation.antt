-- ===== src/Conversation.antt =====
-- client.go against server.go: `Fetch` and `transfer` over a link that neither loses nor delays.
pub mod Fetches
use deep_protocol.Base.{
  ℕ, ◌+◌, ◌%◌, ◌^◌, ◌≡◌, ◌≤◌, ◌<◌, refl, ap, true, false, ◌||◌, [], ◌∷◌, ◌++◌, Bytes, length, codes,
  equal, equal_iff, leb, ◌==◌, some, Error, ok, arith, append_assoc, String,
}
use deep_protocol.Base.Int.{pos, ltb_ℤ}
use deep_protocol.Io.{Stream}
use deep_protocol.Json.{validate_json}
use deep_protocol.Uri.{Uri, parse_uri, validate_authority, validate_resource}
use deep_protocol.Uri.Authority.{IsAuthority-accepted}
use deep_protocol.Uri.Parse.{parse_uri-IsUri}
use deep_protocol.Frame
use deep_protocol.Frame.{Frame, MessageType, validate_header, read_frame, send, max_resource_size}
use deep_protocol.Frame.RoundTrip.{encode, IsFrame, read_frame-encode}
use deep_protocol.Messages.{
  Library, RequestMetadata, validate_media_type, decode_request, decode_response, expect,
}
use deep_protocol.Body.{check_context, on_output, on_input}
use deep_protocol.Body.Wire.{Encodes, Encodes-valid, Carries, length-valid, wire}
use deep_protocol.Body.Sending.{quiet, file, reliable, send-reliable, send_stream-wire}
use deep_protocol.Body.RoundTrip.{stream, receive_stream-wire}
use deep_protocol.Application.{sending_from}
use deep_protocol.Server.{Site, transfer, check_request}
use deep_protocol.Client.{
  Session, Transfer, on_link, on_session, on_download, set_deadline, take_id, ask, next_frame,
  check_response, within_limit, collect, fetch_texts, fetch_resource, usable, check_usable,
  check_ids, ready, settle, fetch_to,
}

-- A message of a request that has no body.
abbrev pub message : MessageType → ℕ → Bytes → Frame
message kind id raw = record { kind = kind; request_id = id; metadata = raw; body = [] }

-- The request of a URI.
abbrev pub asked : Uri → RequestMetadata
asked uri = record {
  authority = uri.authority;
  path = uri.path;
  query = uri.query;
  operation = codes "FETCH";
}

module _ (lib : Library) (site : Site) (uri : Uri) (id : ℕ) (media_type body : Bytes) where
  -- The site has the body for this resource, and the library's encodings carry it and what is said
  -- around it.
  pub record Serves : Type 0 where
    pub opens :
        site.handler.open_resource uri.path uri.query
        ≡ ok (record { body = some (file body); media_type = media_type; size = pos (length body) })
    pub own_authority : uri.authority ≡ site.authority
    pub media_type_valid : validate_media_type media_type ≡ true
    pub small : length body ≤ max_resource_size
    pub limited : ltb_ℤ site.limits.max_bytes (pos (length body)) ≡ false
    pub request_encodes :
        Encodes lib.json lib.request
          (codes "authority" ∷ codes "path" ∷ codes "query" ∷ codes "operation" ∷ [])
          (asked uri)
    pub response_encodes :
        Encodes lib.json lib.response
          (codes "media_type" ∷ codes "size" ∷ [])
          (record { media_type = media_type; size = pos (length body) })
    pub carries : Carries lib id body

  module _ (k : Serves) where
    message-IsFrame :
        (kind : MessageType) (raw : Bytes)
        → (kind == Frame.request) || (kind == Frame.response) ≡ true
        → validate_json lib.json raw ≡ ok tt
        → IsFrame lib.json (message kind id raw)
    unfolding validate_header
    message-IsFrame kind raw h v =
        let (a, b) = length-valid lib.json raw v in
        let i = k.carries.id_pos in
        record { id_fits = k.carries.id_fits; header_valid = ground arith; metadata_valid = v }

    pub request-IsFrame : IsFrame lib.json (message Frame.request id k.request_encodes.raw)
    request-IsFrame =
        message-IsFrame Frame.request _ refl
          (Encodes-valid lib.json lib.request _ _ k.request_encodes)

    pub response-IsFrame : IsFrame lib.json (message Frame.response id k.response_encodes.raw)
    response-IsFrame =
        message-IsFrame Frame.response _ refl
          (Encodes-valid lib.json lib.response _ _ k.response_encodes)

    -- What the server sends for the request.
    abbrev pub answer : Bytes
    answer = encode (message Frame.response id k.response_encodes.raw) ++ wire lib id body k.carries

    decode_request-ok :
        decode_request lib (message Frame.request id k.request_encodes.raw) ≡ ok (asked uri)
    unfolding decode_request
    decode_request-ok = k.request_encodes.read_back

    pub decode_response-ok :
        decode_response lib (message Frame.response id k.response_encodes.raw)
        ≡ ok (record { media_type = media_type; size = pos (length body) })
    unfolding decode_response
    decode_response-ok = k.response_encodes.read_back

    pub check_request-ok :
        (last : ℕ)
        → validate_authority uri.authority ≡ ok tt
        → validate_resource uri.path uri.query ≡ ok tt
        → last < id
        → check_request lib site last (message Frame.request id k.request_encodes.raw)
          ≡ ok (asked uri)
    unfolding check_request equal
    check_request-ok last a r h =
        let new : leb id last ≡ false = ground arith in
        let own = (equal_iff uri.authority site.authority).1 k.own_authority in
        rw (new, check_request, decode_request-ok, a, own, r)

    pub transfer-answer :
        (input : Stream) (sent : Bytes)
        → transfer lib site id (asked uri) (quiet input sent)
          ≡ (ok tt, quiet input (sent ++ answer))
    unfolding transfer on_output sending_from
    transfer-answer input sent =
        let large : ltb_ℤ (pos max_resource_size) (pos (length body)) ≡ false =
          ground (arith, k.small) in
        let head =
          send-reliable lib.json Frame.response id k.response_encodes.raw [] sent
            k.response_encodes.marshaled response-IsFrame in
        let stream =
          send_stream-wire lib id body k.carries input
            (codes "resource ended before its announced size")
            (codes "resource size changed during transfer")
            (sent ++ encode (message Frame.response id k.response_encodes.raw)) in
        rw (k.opens, large, k.media_type_valid, k.limited, head, stream, append_assoc)
