-- ===== src/Server.antt =====
-- server.go: a connection behind its TLS handshake, from HELLO on. The peer limiter is shared with
-- the other connections, whose calls come in between. A deadline may fail to be set; one that
-- passes is a network error of the link.
pub mod Requests
pub mod Versions
pub mod Reports
use deep_protocol.Base.{
  ℕ, zero, suc, ◌+◌, ◌%◌, ◌^◌, Bool, true, false, not, ◌&&◌, ◌||◌, List, [], ◌∷◌, Bytes, length,
  codes, equal, leb, ltb, ◌==◌, if◌then◌else◌, Option, none, some, Error, failure, protocol, remote,
  RemoteError, Result, ok, err, reject_if, is_ok, String,
}
use deep_protocol.Base.Int.{ℤ, pos, ltb_ℤ, eq_ℤ, is_negative, pos_part}
use deep_protocol.Io.{Exec, ◌>>=◌, ◌>>◌, pure, lift, raise, Stream}
use deep_protocol.Uri.{validate_authority, validate_resource}
use deep_protocol.Frame
use deep_protocol.Frame.{
  Frame, read_frame, send, protocol_version, max_chunk_size, max_resource_size,
}
use deep_protocol.Messages.{
  Library, HelloMetadata, RequestMetadata, decode_hello, decode_request, decode_empty,
  validate_remote_error, validate_media_type,
}
use deep_protocol.Limits.{ServerLimits, Limiter, Call, allow_request, run}
use deep_protocol.Body.{Link, on_input, on_output, send_stream}
use deep_protocol.Application.{Handler, Resource, or_failure, sending_from, exchange}

-- The server's configuration, and the peer of the connection.
pub record Site : Type 0 where
  pub authority : Bytes
  pub limits : ServerLimits
  pub handler : Handler
  pub peer : Bytes

-- A request that the handler was called for.
pub record Served : Type 0 where
  pub id : ℕ
  pub request : RequestMetadata

-- `deadlines` tells of each deadline whether it cannot be set. `others` are the calls that other
-- connections make before each request, and `times` what the clock shows then; from where they
-- end, no call is made and the clock shows `now`. `served` has the last request first.
pub record Session : Type 0 where
  pub link : Link
  pub limiter : Limiter
  pub others : List (List Call)
  pub now : ℕ
  pub times : List ℕ
  pub deadlines : List Bool
  pub served : List Served

unfoldable pub on_link : {A : Type 0} → Exec Link A → Exec Session A
on_link m s = let (r, l) = m s.link in (r, record s { link = l })

-- Goes on if the deadline is set, and returns otherwise.
unfoldable pub with_deadline : (Session → Session) → Session → Session
with_deadline k s = elim s.deadlines [
  | [] ↦ k s
  | fails ∷ rest ↦
      if fails then record s { deadlines = rest } else k (record s { deadlines = rest })
]

abbrev refusal : String → String → Error
refusal code message = remote (record { code = codes code; message = codes message })

abbrev contains_ℤ : List ℤ → ℤ → Bool
contains_ℤ [] v = false
contains_ℤ (u ∷ us) v = eq_ℤ u v || contains_ℤ us v

-- The loop over the offered versions, behind those that it has seen.
unfoldable pub scan_versions : List ℤ → List ℤ → Result (List ℤ)
scan_versions seen [] = ok seen
scan_versions seen (v ∷ vs) =
    let rest = scan_versions (v ∷ seen) vs in
    if ltb_ℤ v (pos 1) || ltb_ℤ (pos 65535) v || contains_ℤ seen v
    then err (protocol "invalid version offer")
    else rest

unfoldable pub check_versions : List ℤ → Result (Unit {0})
check_versions versions =
    if length versions == 0 || ltb 16 (length versions)
    then err (protocol "invalid version offer")
    else elim (scan_versions [] versions) [
      | err e ↦ err e
      | ok seen ↦
          reject_if (not (contains_ℤ seen (pos protocol_version)))
            (refusal "UNSUPPORTED_VERSION" "no common application version")
    ]

-- The error that `sendError` reports for a cause.
unfoldable pub reported : (Bytes → Bool) → Error → RemoteError
reported has_hidden (protocol message) = record {
  code = codes "PROTOCOL_ERROR";
  message = codes "invalid DEEP message";
}
reported has_hidden (remote specified) =
    if is_ok (validate_remote_error has_hidden specified)
    then specified
    else record { code = codes "INTERNAL_ERROR"; message = codes "resource provider failed" }
reported has_hidden _ = record {
  code = codes "INTERNAL_ERROR";
  message = codes "resource provider failed";
}

abbrev next_time : Session → ℕ × List ℕ
next_time s = elim s.times [ [] ↦ (s.now, []) | t ∷ ts ↦ (t, ts) ]

abbrev next_calls : List (List Call) → List Call × List (List Call)
next_calls [] = ([], [])
next_calls (cs ∷ rest) = (cs, rest)

module _ (lib : Library) where
  -- `sendError`, which ignores whether the frame could be sent.
  unfoldable pub send_error : ℕ → Error → Session → Session
  send_error id cause = with_deadline λ s.
      (on_link
        (on_output
          (send lib.json Frame.error id (lib.error.marshal (reported lib.has_hidden cause)) []))
        s).1

  module _ (site : Site) where
    abbrev checked_resource : Resource → Result (Unit {0})
    checked_resource r =
        if is_negative r.size
          || ltb_ℤ (pos max_resource_size) r.size
          || not (validate_media_type r.media_type)
        then err (failure "invalid resource from provider")
        else reject_if (ltb_ℤ site.limits.max_bytes r.size)
            (refusal "TOO_LARGE" "resource exceeds the server limit")

    -- `Server.transfer`
    unfoldable pub transfer : ℕ → RequestMetadata → Exec Link (Unit {0})
    transfer id request = do
      r ← lift (site.handler.open_resource request.path request.query)
      body ← lift (or_failure (failure "provider returned no body") r.body)
      lift (checked_resource r)
      on_output (
          send lib.json Frame.response id
            (lib.response.marshal (record { media_type = r.media_type; size = r.size })) [])
      sending_from body (
          send_stream lib (codes "resource ended before its announced size")
            (codes "resource size changed during transfer") id (pos_part r.size))

    -- The checks of a frame that is not CLOSE, behind the request `last`.
    unfoldable pub check_request : ℕ → Frame → Result RequestMetadata
    check_request last f =
        if not (f.kind == Frame.request) || leb f.request_id last
        then err (protocol "expected a new, increasing request ID")
        else elim (decode_request lib f) [
          | err e ↦ err e
          | ok r ↦
              if not (is_ok (validate_authority r.authority))
              then err (protocol "invalid authority")
              else if not (equal r.authority site.authority)
              then err (refusal "UNKNOWN_AUTHORITY" "this server does not serve that authority")
              else if not (equal r.operation (codes "FETCH"))
                  && not (equal r.operation (codes "EXCHANGE"))
              then err (refusal "UNSUPPORTED_OPERATION" "this operation is not supported")
              else if not (is_ok (validate_resource r.path r.query))
              then err (protocol "invalid resource")
              else ok r
        ]

    -- `peers.allowRequest(peer, time.Now())`, behind the calls of other connections.
    unfoldable pub ask_limiter : Exec Session Bool
    ask_limiter s =
        let (calls, others) = next_calls s.others in
        let (now, times) = next_time s in
        let (l, granted) = allow_request (run s.limiter calls) site.peer now in
        (ok granted, record s { limiter = l; others = others; now = now; times = times })

    unfoldable pub admit_request : ℕ → Exec Session (Unit {0})
    admit_request count = do
      lift (
          reject_if (leb site.limits.max_requests_per_session count)
            (refusal "SESSION_LIMIT" "session request limit reached; open a new connection"))
      granted ← ask_limiter
      lift (reject_if (not granted) (refusal "RATE_LIMITED" "peer request rate limit reached"))

    unfoldable pub dispatch : ℕ → RequestMetadata → Exec Session (Unit {0})
    dispatch id r s =
        let s' : Session = record s { served = record { id = id; request = r } ∷ s.served } in
        on_link
          (if equal r.operation (codes "EXCHANGE")
            then exchange lib site.handler site.limits.max_bytes id r
            else transfer id r)
          s'

    -- What follows a step that may fail: an error is reported and ends the session.
    abbrev pub or_report : (Session → Session) → ℕ → Result (Unit {0}) × Session → Session
    or_report k id (err e, s) = send_error id e s
    or_report k id (ok u, s) = k s

    -- A frame of the loop; `go_on` is the loop behind this request, with its ID and the count.
    unfoldable pub on_request : (ℕ → ℕ → Session → Session) → ℕ → ℕ → Frame → Session → Session
    on_request go_on last count f s = elim (f.kind == Frame.close) [
      | true ↦ elim (decode_empty lib f) [ err e ↦ send_error 0 e s | ok _ ↦ s ]
      | false ↦ elim (check_request last f) [
        | err e ↦ send_error f.request_id e s
        | ok r ↦
            or_report
              (with_deadline λ t.
                or_report (go_on f.request_id ((count + 1) % 2 ^ 32)) f.request_id
                  (dispatch f.request_id r t))
              f.request_id (admit_request count s)
      ]
    ]

    -- `return` if the frame cannot be read.
    abbrev pub or_hang_up : (Frame → Session → Session) → Result Frame × Session → Session
    or_hang_up k (err e, s) = s
    or_hang_up k (ok f, s) = k f s

    -- The loop over the requests. Each frame takes a byte at least from the input, which bounds
    -- the fuel.
    unfoldable pub serve_requests : ℕ → ℕ → ℕ → Session → Session
    serve_requests zero last count s = s
    serve_requests (suc fuel) last count s =
        with_deadline
          (λ t.
            or_hang_up (on_request (serve_requests fuel) last count)
              (on_link (on_input (read_frame lib.json)) t))
          s

    unfoldable pub greet : Frame → Exec Session (Unit {0})
    greet f = do
      lift (reject_if (not (f.kind == Frame.hello)) (protocol "expected HELLO"))
      h ← lift (decode_hello lib f)
      lift (check_versions h.versions)

    unfoldable pub send_welcome : Exec Session (Unit {0})
    send_welcome = on_link (
        on_output (
          send lib.json Frame.welcome 0
            (lib.welcome.marshal
              (record { version = pos protocol_version; max_chunk = pos max_chunk_size }))
            []))

    -- `return` if WELCOME cannot be sent.
    abbrev welcomed : (Session → Session) → Result (Unit {0}) × Session → Session
    welcomed k (err e, s) = s
    welcomed k (ok u, s) = k s

    -- The loop from its start.
    unfoldable pub serve_all : Session → Session
    serve_all s = serve_requests (suc (length s.link.input.bytes)) 0 0 s

    -- What follows the first frame.
    unfoldable pub serve_hello : Frame → Session → Session
    serve_hello f s = or_report (λ t. welcomed serve_all (send_welcome t)) 0 (greet f s)

    -- `serveConnection` behind `InspectSecurity`.
    unfoldable pub serve_connection : Session → Session
    serve_connection =
        with_deadline λ s. or_hang_up serve_hello (on_link (on_input (read_frame lib.json)) s)
