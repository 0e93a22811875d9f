-- ===== src/Client.antt =====
-- client.go: `Client.Dial`, `Session.Fetch` and `Session.Close`.
-- Deadlines may fail to be set; one that passes is a network error of the link.
-- `session.mutex` is the field `locked`, which other calls hold or not when a method starts.
pub mod Exchange
pub mod Dial
pub mod Dialing
pub mod Along
pub mod Outcomes
pub mod Fetching
pub mod Exchanging
pub mod Closing
pub mod Ending
use deep_protocol.Base.{
  ℕ, zero, suc, ◌+◌, ◌%◌, ◌^◌, Bool, true, false, not, ◌&&◌, ◌||◌, List, [], ◌∷◌, Bytes, length,
  codes, equal, leb, ltb, ◌==◌, if◌then◌else◌, Option, none, some, Error, failure, protocol, closed,
  eof, Result, ok, err, reject_if, String,
}
use deep_protocol.Base.Int.{ℤ, pos, ltb_ℤ, eq_ℤ, is_negative, pos_part}
use deep_protocol.Io.{Exec, ◌>>=◌, ◌>>◌, pure, lift, raise, Stream, Writer}
use deep_protocol.Uri.{Uri, parse_uri}
use deep_protocol.Frame
use deep_protocol.Frame.{
  Frame, read_frame, send, protocol_version, max_chunk_size, max_resource_size,
}
use deep_protocol.Messages.{
  Library, Header, Headers, decode_welcome, ResponseMetadata, decode_response, decode_continue,
  decode_application_response, validate_media_type, expect,
}
use deep_protocol.Body.{
  Link, Upload, Download, Texts, body_texts, check_context, on_input, on_output, send_body,
  receive_stream, receive_body,
}
use deep_protocol.Application.{
  ApplicationRequest, valid_method, is_reading, validate_headers, or_no_headers, max_request_bytes,
  max_response_bytes, or_failure, sending_from,
}
use deep_protocol.Security.{SecurityInfo}

-- `Session`. `deadlines` tells of each deadline whether it cannot be set, and `closing` is what
-- `connection.Close()` returns.
pub record Session : Type 0 where
  pub link : Link
  pub deadlines : List Bool
  pub security : SecurityInfo
  pub authority : Bytes
  pub max_bytes : ℤ
  pub next_id : ℕ
  pub locked : Bool
  pub is_closed : Bool
  pub connected : Bool
  pub closing : Option Error

-- A session and the destination of a download.
pub record Transfer : Type 0 where
  pub session : Session
  pub destination : Writer

-- `Result`
pub record Fetched : Type 0 where
  pub media_type : Bytes
  pub size : ℕ
  pub sha256 : Bytes
  pub security : SecurityInfo

unfoldable pub on_link : {A : Type 0} → Exec Link A → Exec Session A
on_link m s = let (r, l) = m s.link in (r, record s { link = l })

unfoldable pub on_session : {A : Type 0} → Exec Session A → Exec Transfer A
on_session m t = let (r, s) = m t.session in (r, record t { session = s })

-- A method that reads the link into the destination.
unfoldable pub on_download : {A : Type 0} → Exec Download A → Exec Transfer A
on_download m t =
    let (r, d) = m (record { link = t.session.link; destination = t.destination }) in
    (r, record { session = record t.session { link = d.link }; destination = d.destination })

abbrev pub take_deadline : List Bool → Result (Unit {0}) × List Bool
take_deadline [] = (ok tt, [])
take_deadline (fails ∷ rest) = (reject_if fails (failure "cannot set the deadline"), rest)

-- `setDeadline`, `SetDeadline` and `SetWriteDeadline`
unfoldable pub set_deadline : Exec Session (Unit {0})
set_deadline s = let (r, rest) = take_deadline s.deadlines in (r, record s { deadlines = rest })

-- `id := s.nextID; s.nextID++`
unfoldable pub take_id : Exec Session ℕ
take_id s = (ok s.next_id, record s { next_id = (s.next_id + 1) % 2 ^ 32 })

-- A URI of the session's node, while no other call holds the session and it is open.
unfoldable pub usable : String → Bytes → Session → Result Uri
usable busy value s = elim (parse_uri value) [
  | err e ↦ err e
  | ok uri ↦
      if not (equal uri.authority s.authority)
      then err (failure "session belongs to a different authority")
      else if s.locked
      then err (failure busy)
      else if s.is_closed
      then err closed
      else ok uri
]

unfoldable pub check_usable : String → Bytes → Exec Session Uri
check_usable busy value s = (usable busy value s, s)

unfoldable pub check_ids : String → Exec Session (Unit {0})
check_ids exhausted s = (reject_if (s.next_id == 0) (failure exhausted), s)

-- What `Fetch` and `Exchange` check before they use the connection.
unfoldable pub ready : String → String → Bytes → Exec Session Uri
ready busy exhausted value = do
  uri ← check_usable busy value
  on_link check_context
  check_ids exhausted
  pure uri

-- The deferred calls: an error closes the session, and the lock is given back.
unfoldable pub settle : {A : Type 0} → Result A × Transfer → Result A × Transfer
settle (ok a, t) = (ok a, t)
settle (err e, t) =
    (err e, record t { session = record t.session { is_closed = true; connected = false } })

abbrev pub fetch_texts : Texts
fetch_texts = record {
  other_request = "response request ID mismatch";
  mismatch = "resource size or SHA-256 mismatch";
}

-- A destination that may be nil.
abbrev pub with_destination :
    {A : Type 0}
    → Error
    → Exec Transfer A
    → Session
    → Option Writer
    → Result A × (Session × Option Writer)
with_destination e m s none = (err e, (s, none))
with_destination e m s (some w) =
    let (r, t) = m (record { session = s; destination = w }) in (r, (t.session, some t.destination))

-- A method behind `ready`.
abbrev pub settled :
    {A : Type 0} → (Uri → Exec Transfer A) → Result Uri × Transfer → Result A × Transfer
settled run (err e, t) = (err e, t)
settled run (ok uri, t) = settle (run uri t)

module _ (lib : Library) where
  -- A request of `uri`, with its ID.
  unfoldable pub ask : Uri → String → Exec Session ℕ
  ask uri operation = do
    set_deadline
    id ← take_id
    on_link (
        on_output (
          send lib.json Frame.request id
            (lib.request.marshal (record {
              authority = uri.authority;
              path = uri.path;
              query = uri.query;
              operation = codes operation;
            }))
            []))
    pure id

  -- The next frame, which must be of this type.
  unfoldable pub next_frame : Frame.MessageType → ℕ → Exec Session Frame
  next_frame kind id = do
    f ← on_link (on_input (read_frame lib.json))
    lift (expect lib f kind id)
    pure f

  -- The body of a response, and what is known once it has come.
  unfoldable pub collect : Texts → ℕ → Bytes → ℤ → Exec Transfer Fetched
  collect texts id media_type size = do
    digest ← on_download (receive_stream lib texts id (pos_part size))
    on_session set_deadline
    security ← on_session (λ s. (ok s.security, s))
    pure (record {
      media_type = media_type;
      size = pos_part size;
      sha256 = digest;
      security = security;
    })

  unfoldable pub check_response : ResponseMetadata → Result (Unit {0})
  check_response m =
      reject_if
        (not (validate_media_type m.media_type)
          || is_negative m.size
          || ltb_ℤ (pos max_resource_size) m.size)
        (protocol "invalid resource metadata")

  -- The session's limit, and that a size is within it.
  unfoldable pub within_limit : ℤ → Exec Session (Unit {0})
  within_limit size s =
      (reject_if (ltb_ℤ s.max_bytes size) (failure "resource exceeds client limit"), s)

  -- `Fetch` behind its checks.
  unfoldable pub fetch_resource : Uri → Exec Transfer Fetched
  fetch_resource uri = do
    id ← on_session (ask uri "FETCH")
    f ← on_session (next_frame Frame.response id)
    m ← lift (decode_response lib f)
    lift (check_response m)
    on_session (within_limit m.size)
    collect fetch_texts id m.media_type m.size

  -- `Fetch` with a destination.
  unfoldable pub fetch_to : Bytes → Exec Transfer Fetched
  fetch_to value t = settled fetch_resource (
      on_session
        (ready "session is busy; wait for FETCH to finish or open another session"
          "request IDs exhausted; open a new session" value)
        t)

  -- `Session.Fetch`
  unfoldable pub fetch :
      Bytes → Session → Option Writer → Result Fetched × (Session × Option Writer)
  fetch value = with_destination (failure "nil resource destination") (fetch_to value)

  -- The farewell of `Close`, whose errors it ignores.
  unfoldable pub say_close : Exec Session (Unit {0})
  say_close = do
    set_deadline
    on_link (on_output (send lib.json Frame.close 0 (lib.empty.marshal tt) []))

  abbrev closing_result : Option Error → Result (Unit {0})
  closing_result none = ok tt
  closing_result (some e) = err e

  -- `Session.Close`
  unfoldable pub close_session : Exec Session (Unit {0})
  close_session s =
      if s.is_closed
      then (ok tt, s)
      else (let t = record s { is_closed = true } in
          let u = if t.locked then t else (say_close t).1 in
          (closing_result u.closing, record u { connected = false }))

  -- The two messages that open a session.
  unfoldable pub say_hello : Exec Session (Unit {0})
  say_hello = on_link (
      on_output (
        send lib.json Frame.hello 0
          (lib.hello.marshal (record { versions = pos protocol_version ∷ [] })) []))

  unfoldable pub check_welcome : Frame → Result (Unit {0})
  check_welcome f = elim (decode_welcome lib f) [
    | err e ↦ err e
    | ok m ↦
        reject_if
          (not (eq_ℤ m.version (pos protocol_version))
            || not (eq_ℤ m.max_chunk (pos max_chunk_size)))
          (protocol "unsupported protocol version or chunk size")
  ]

  abbrev pub check_limit : ℤ → Result (Unit {0})
  check_limit limit =
      reject_if (is_negative limit || ltb_ℤ (pos max_resource_size) limit)
        (failure "invalid resource byte limit")

  -- The messages of `Dial`. `limit` is the client's `MaxBytes`, or the default.
  unfoldable pub greet_server : ℤ → Exec Session (Unit {0})
  greet_server limit = do
    say_hello
    f ← next_frame Frame.welcome 0
    lift (check_welcome f)
    on_link check_context
    lift (check_limit limit)
    set_deadline
