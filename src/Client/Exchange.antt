-- ===== src/Client/Exchange.antt =====
-- `Session.Exchange` of application.go.
use deep_protocol.Base.{
  ℕ, Bool, not, ◌&&◌, ◌||◌, [], Bytes, length, codes, equal, ltb, ◌==◌, if◌then◌else◌, Option,
  failure, protocol, eof, Result, ok, err, reject_if,
}
use deep_protocol.Base.Int.{ℤ, pos, ltb_ℤ, eq_ℤ, is_negative}
use deep_protocol.Io.{Exec, ◌>>=◌, ◌>>◌, pure, lift, Writer}
use deep_protocol.Uri.{Uri}
use deep_protocol.Frame
use deep_protocol.Frame.{
  Frame, Frame, read_frame, send, protocol_version, max_chunk_size, max_resource_size,
}
use deep_protocol.Messages.{
  Library, Headers, decode_continue, decode_application_response, ApplicationResponseMetadata,
  validate_media_type,
}
use deep_protocol.Body.{Link, body_texts, on_output, send_body}
use deep_protocol.Application.{
  ApplicationRequest, valid_method, is_reading, validate_headers, or_no_headers, max_request_bytes,
  max_response_bytes, sending_from,
}
use deep_protocol.Client.{
  Session, Transfer, Fetched, on_link, on_session, ready, with_destination, settled, ask,
  next_frame, collect,
}

-- `ApplicationResult`
pub record Exchanged : Type 0 where
  pub fetched : Fetched
  pub status : ℤ
  pub headers : Headers

abbrev pub min_limit : ℤ → ℤ
min_limit limit = if ltb_ℤ (pos max_response_bytes) limit then pos max_response_bytes else limit

abbrev pub bad_answer : ApplicationResponseMetadata → ℤ → Bool
bad_answer m limit =
    ltb_ℤ m.status (pos 200)
    || ltb_ℤ (pos 599) m.status
    || not (validate_media_type m.media_type)
    || is_negative m.size
    || ltb_ℤ (min_limit limit) m.size

module _ (lib : Library) where
  unfoldable pub check_outgoing : ApplicationRequest → Result (Unit {0})
  check_outgoing q =
      if not (valid_method q.method) || ltb max_request_bytes (length q.body)
      then err (failure "invalid application request")
      else elim (validate_headers (or_no_headers q.headers)) [
        | err e ↦ err e
        | ok _ ↦
            reject_if (is_reading q.method && not (length q.body == 0))
              (failure "GET and HEAD must not carry a body")
      ]

  unfoldable pub check_continue : Frame → Result (Unit {0})
  check_continue f = elim (decode_continue lib f) [
    | err e ↦ err e
    | ok m ↦
        reject_if
          (not (equal m.profile (codes "app/1")) || not (eq_ℤ m.max_body (pos max_request_bytes)))
          (protocol "unsupported application profile")
  ]

  unfoldable pub announce : ℕ → ApplicationRequest → Exec Link (Unit {0})
  announce id q = on_output (
      send lib.json Frame.request id
        (lib.application_request.marshal (record {
          method = q.method;
          headers = or_no_headers q.headers;
          size = pos (length q.body);
        }))
        [])

  unfoldable pub check_head : ApplicationRequest → ApplicationResponseMetadata → Result (Unit {0})
  check_head q m =
      reject_if (equal q.method (codes "HEAD") && not (eq_ℤ m.size (pos 0)))
        (protocol "HEAD response has a body")

  -- The upload of a request once the server is ready for it.
  unfoldable pub submit : ℕ → ApplicationRequest → Exec Session (Unit {0})
  submit id q = do
    f ← next_frame lib Frame.proceed id
    lift (check_continue f)
    on_link (announce id q)
    on_link
        (sending_from (record { bytes = q.body; fault = eof }) (send_body lib id (length q.body)))

  unfoldable pub check_answer : ApplicationResponseMetadata → Exec Session (Unit {0})
  check_answer m s =
      (reject_if (bad_answer m s.max_bytes) (protocol "invalid application response"), s)

  -- `Exchange` behind its checks.
  unfoldable pub exchange_request : ApplicationRequest → Uri → Exec Transfer Exchanged
  exchange_request q uri = do
    id ← on_session (ask lib uri "EXCHANGE")
    on_session (submit id q)
    f ← on_session (next_frame lib Frame.response id)
    m ← lift (decode_application_response lib f)
    on_session (check_answer m)
    lift (check_head q m)
    lift (validate_headers m.headers)
    fetched ← collect lib body_texts id m.media_type m.size
    pure (record { fetched = fetched; status = m.status; headers = m.headers })

  unfoldable pub exchange_to : ApplicationRequest → Bytes → Exec Transfer Exchanged
  exchange_to q value = do
    lift (check_outgoing q)
    λ t.
        settled (exchange_request q)
          (on_session (ready "session is busy" "request IDs exhausted" value) t)

  -- `Session.Exchange`
  unfoldable pub exchange :
      Bytes
      → ApplicationRequest
      → Session
      → Option Writer
      → Result Exchanged × (Session × Option Writer)
  exchange value q = with_destination (failure "invalid application request") (exchange_to q value)
