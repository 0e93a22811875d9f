-- ===== src/Conversation/Fetches.antt =====
-- The client's part of a conversation, and the two parts together.
use deep_protocol.Base.{
  ℕ, ◌+◌, ◌%◌, ◌^◌, ◌≡◌, ◌<◌, refl, ap, true, false, [], ◌++◌, Bytes, length, equal_iff, ◌==◌,
  Error, ok, arith, append_assoc, String,
}
use deep_protocol.Base.Int.{pos, ltb_ℤ}
use deep_protocol.Io.{Stream}
use deep_protocol.Uri.{Uri, parse_uri}
use deep_protocol.Uri.Authority.{IsAuthority-accepted}
use deep_protocol.Uri.Parse.{parse_uri-IsUri}
use deep_protocol.Frame
use deep_protocol.Frame.{Frame, MessageType, validate_header, read_frame, send, max_resource_size}
use deep_protocol.Frame.RoundTrip.{encode, read_frame-encode}
use deep_protocol.Messages.{Library, expect}
use deep_protocol.Body.{check_context, on_output, on_input}
use deep_protocol.Body.Wire.{wire}
use deep_protocol.Body.Sending.{quiet, reliable, send-reliable}
use deep_protocol.Body.RoundTrip.{stream, receive_stream-wire}
use deep_protocol.Server.{Site, transfer, check_request}
use deep_protocol.Client.{
  Session, Transfer, on_link, on_session, on_download, set_deadline, take_id, ask, next_frame,
  check_response, within_limit, collect, fetch_texts, fetch_resource, usable, check_usable,
  check_ids, ready, settle, fetch_to,
}
use deep_protocol.Conversation.{
  message, asked, Serves, request-IsFrame, response-IsFrame, answer, decode_response-ok,
  check_request-ok, transfer-answer,
}

module _ (lib : Library) (site : Site) (uri : Uri) (id : ℕ) (media_type body : Bytes)
    (k : Serves lib site uri id media_type body) (s : Session) (fault : Error) where
  -- An open session of the URI's node, with the ID of its next request, what comes in, what
  -- has gone out, and what is written.
  abbrev pub during : ℕ → Bytes → Bytes → Session
  during next input sent = record s {
    link = quiet (stream input fault) sent;
    deadlines = [];
    authority = uri.authority;
    next_id = next;
    locked = false;
    is_closed = false;
  }

  abbrev pub fetching : ℕ → Bytes → Bytes → Bytes → Transfer
  fetching next input sent written = record {
    session = during next input sent;
    destination = reliable written;
  }

  abbrev pub request_sent : Bytes
  request_sent = encode (message Frame.request id k.request_encodes.raw)

  set_deadline-during :
      (next : ℕ) (input sent : Bytes)
      → set_deadline (during next input sent) ≡ (ok tt, during next input sent)
  unfolding set_deadline
  set_deadline-during next input sent = refl

  ask-during :
      (input sent : Bytes)
      → ask lib uri "FETCH" (during id input sent)
        ≡ (ok id, during ((id + 1) % 2 ^ 32) input (sent ++ request_sent))
  unfolding ask set_deadline take_id on_link on_output
  ask-during input sent = rw (
      send-reliable lib.json Frame.request id k.request_encodes.raw [] sent
        k.request_encodes.marshaled (request-IsFrame lib site uri id media_type body k))

  next_frame-during :
      (next : ℕ) (after sent : Bytes)
      → next_frame lib Frame.response id
          (during next (encode (message Frame.response id k.response_encodes.raw) ++ after) sent)
        ≡ (ok (message Frame.response id k.response_encodes.raw), during next after sent)
  unfolding next_frame on_link on_input expect
  next_frame-during next after sent =
      let e : (id == id) ≡ true = ground arith in
      rw (
        read_frame-encode lib.json (message Frame.response id k.response_encodes.raw) after fault
            (response-IsFrame lib site uri id media_type body k),
        e,
      )

  collect-during :
      (next : ℕ) (rest sent written : Bytes)
      → collect lib fetch_texts id media_type
          (pos (length body))
          (fetching next (wire lib id body k.carries ++ rest) sent written)
        ≡ (
          ok (record {
            media_type = media_type;
            size = length body;
            sha256 = lib.sha256 body;
            security = s.security;
          }),
          fetching next rest sent (written ++ body),
        )
  unfolding collect on_download on_session set_deadline
  collect-during next rest sent written =
      rw (receive_stream-wire lib id body k.carries fault sent rest fetch_texts written)

  -- The checks before a FETCH.
  ready-during :
      (busy exhausted : String) (value input sent : Bytes)
      → parse_uri value ≡ ok uri
      → ready busy exhausted value (during id input sent) ≡ (ok uri, during id input sent)
  unfolding ready check_usable usable on_link check_context check_ids
  ready-during busy exhausted value input sent p =
      let own = (equal_iff uri.authority uri.authority).1 refl in
      let i = k.carries.id_pos in
      let used : (id == 0) ≡ false = ground arith in rw (p, usable, own, used)

  check_response-ok :
      check_response lib (record { media_type = media_type; size = pos (length body) }) ≡ ok tt
  unfolding check_response
  check_response-ok =
      let large : ltb_ℤ (pos max_resource_size) (pos (length body)) ≡ false =
        ground (arith, k.small) in
      rw (k.media_type_valid, large)

  within_limit-during :
      (next : ℕ) (input sent : Bytes)
      → ltb_ℤ s.max_bytes (pos (length body)) ≡ false
      → within_limit lib (pos (length body)) (during next input sent)
        ≡ (ok tt, during next input sent)
  unfolding within_limit
  within_limit-during next input sent h = rw h

  fetch_resource-during :
      (rest sent written : Bytes)
      → ltb_ℤ s.max_bytes (pos (length body)) ≡ false
      → fetch_resource lib uri
          (fetching id (answer lib site uri id media_type body k ++ rest) sent written)
        ≡ (
          ok (record {
            media_type = media_type;
            size = length body;
            sha256 = lib.sha256 body;
            security = s.security;
          }),
          fetching ((id + 1) % 2 ^ 32) rest (sent ++ request_sent) (written ++ body),
        )
  unfolding fetch_resource on_session
  fetch_resource-during rest sent written h =
      rw
        (append_assoc (encode (message Frame.response id k.response_encodes.raw))
          (wire lib id body k.carries) rest)
        (rw (
          ask-during _ sent,
          next_frame-during _ _ _,
          (decode_response-ok lib site uri id media_type body k),
          check_response-ok,
          within_limit-during _ _ _ h,
          collect-during _ rest _ written,
        ))

  fetch_to-during :
      (value rest sent written : Bytes)
      → parse_uri value ≡ ok uri
      → ltb_ℤ s.max_bytes (pos (length body)) ≡ false
      → fetch_to lib value
          (fetching id (answer lib site uri id media_type body k ++ rest) sent written)
        ≡ (
          ok (record {
            media_type = media_type;
            size = length body;
            sha256 = lib.sha256 body;
            security = s.security;
          }),
          fetching ((id + 1) % 2 ^ 32) rest (sent ++ request_sent) (written ++ body),
        )
  unfolding fetch_to on_session settle
  fetch_to-during value rest sent written p h =
      rw (ready-during _ _ value _ sent p, fetch_resource-during rest sent written h)

  -- For a site that has a body for the path and query of a URI of its authority, within both
  -- limits and carried by the library's encodings, over a link that does not fail, the server
  -- takes the client's request as a new one, its transfer succeeds, and Fetch on what it has sent
  -- comes to success: with the body's size and digest, the body written to the destination, the
  -- request sent, and whatever follows left unread.
  pub fetch_to-transfer :
      (value : Bytes) (last : ℕ) (input : Stream) (rest sent written : Bytes)
      → parse_uri value ≡ ok uri
      → last < id
      → ltb_ℤ s.max_bytes (pos (length body)) ≡ false
      → (check_request lib site last (message Frame.request id k.request_encodes.raw)
          ≡ ok (asked uri))
        × ((transfer lib site id (asked uri) (quiet input [])).0 ≡ ok tt)
        × (fetch_to lib value (
              fetching id
                ((transfer lib site id (asked uri) (quiet input [])).1.output.sent ++ rest)
                sent
                written)
            ≡ (
              ok (record {
                media_type = media_type;
                size = length body;
                sha256 = lib.sha256 body;
                security = s.security;
              }),
              fetching ((id + 1) % 2 ^ 32) rest (sent ++ request_sent) (written ++ body),
            ))
  fetch_to-transfer value last input rest sent written p new fits =
      let u = parse_uri-IsUri value p in
      let e = (transfer-answer lib site uri id media_type body k) input [] in
      (
        (check_request-ok lib site uri id media_type body k) last
            (IsAuthority-accepted u.authority_valid) u.resource_valid new,
        ap (λ r. r.0) e,
        rw e (fetch_to-during value rest sent written p fits),
      )
