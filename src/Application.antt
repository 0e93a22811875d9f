-- ===== src/Application.antt =====
-- application.go: methods and headers of the application profile, and `Server.exchange`.
-- Handlers are an interface: they are parameters, with the resource or the error they return.
pub mod Allowed
use deep_protocol.Base.{
  ℕ, zero, suc, ◌+◌, ◌*◌, ◌^◌, Bool, true, false, not, ◌&&◌, ◌||◌, List, [], ◌∷◌, Bytes, length,
  all, codes, equal, contains, leb, ltb, ◌==◌, within, if◌then◌else◌, Option, none, some, Error,
  eof, failure, protocol, Result, ok, err, reject_if,
}
use deep_protocol.Base.Int.{ℤ, pos, pos_part, ltb_ℤ, eq_ℤ, is_negative}
use deep_protocol.Io.{Exec, ◌>>=◌, ◌>>◌, pure, lift, raise, Stream, Writer}
use deep_protocol.Uri.{is_lower_alnum, has_byte}
use deep_protocol.Frame
use deep_protocol.Frame.{Frame, read_frame, send}
use deep_protocol.Messages.{
  Library, Header, Headers, RequestMetadata, ApplicationRequestMetadata, decode_application_request,
  validate_media_type, expect,
}
use deep_protocol.Body.{Link, Upload, Download, on_input, on_output, send_body, receive_body}

abbrev pub max_request_bytes : ℕ
max_request_bytes = 2 ^ 20

abbrev pub max_response_bytes : ℕ
max_response_bytes = 16 * 2 ^ 20

pub record Resource : Type 0 where
  pub body : Option Stream
  pub media_type : Bytes
  pub size : ℤ

pub record ApplicationRequest : Type 0 where
  pub method : Bytes
  pub headers : Headers
  pub body : Bytes

pub record ApplicationResponse : Type 0 where
  pub status : ℤ
  pub headers : Headers
  pub resource : Resource

-- `Handler`, and whether it is an `ApplicationHandler` too.
pub record Handler : Type 0 where
  pub open_resource : Bytes → Bytes → Result Resource
  pub exchange : Option (Bytes → Bytes → ApplicationRequest → Result ApplicationResponse)

abbrev pub methods : List Bytes
methods =
    codes "GET"
    ∷ codes "HEAD"
    ∷ codes "POST"
    ∷ codes "PUT"
    ∷ codes "PATCH"
    ∷ codes "DELETE"
    ∷ codes "OPTIONS"
    ∷ []

unfoldable pub valid_method : Bytes → Bool
unfolding contains
valid_method method = contains methods method

unfoldable pub is_name_byte : ℕ → Bool
unfolding is_lower_alnum has_byte
is_name_byte c = is_lower_alnum c || has_byte (codes "!#$%&'*+-.^_`|~") c

unfoldable pub check_header : Header → Result (Unit {0})
check_header h =
    if length h.name == 0 || ltb 64 (length h.name) || ltb 4096 (length h.value)
    then err (protocol "invalid application header size")
    else if not (all is_name_byte h.name)
    then err (protocol "invalid application header name")
    else if not (all (within 32 126) h.value)
    then err (protocol "invalid application header value")
    else ok tt

-- The loop over the headers, with `total` so far; it returns the total.
unfoldable pub check_headers : ℕ → List Header → Result ℕ
check_headers total [] = ok total
check_headers total (h ∷ hs) =
    let rest = check_headers (total + (length h.name + length h.value)) hs in
    elim (check_header h) [ err e ↦ err e | ok _ ↦ rest ]

unfoldable pub validate_headers : Headers → Result (Unit {0})
validate_headers none = err (protocol "invalid application header count")
validate_headers (some hs) =
    if ltb 64 (length hs)
    then err (protocol "invalid application header count")
    else elim (check_headers 0 hs) [
      | err e ↦ err e
      | ok total ↦ reject_if (ltb 6144 total) (protocol "application headers exceed limit")
    ]

-- `method == "GET" || method == "HEAD"`
abbrev pub is_reading : Bytes → Bool
is_reading method = equal method (codes "GET") || equal method (codes "HEAD")

unfoldable pub check_application_request : ApplicationRequestMetadata → Result (Unit {0})
check_application_request m =
    if not (valid_method m.method) || is_negative m.size || ltb_ℤ (pos max_request_bytes) m.size
    then err (protocol "invalid application request")
    else if is_reading m.method && not (eq_ℤ m.size (pos 0))
    then err (protocol "GET and HEAD must not carry a body")
    else validate_headers m.headers

abbrev pub or_no_headers : Headers → Headers
or_no_headers none = some []
or_no_headers (some hs) = some hs

abbrev only_reading : Bytes
only_reading = codes "This service only supports GET and HEAD."

abbrev method_not_allowed : ApplicationResponse
method_not_allowed = record {
  status = pos 405;
  headers = some (record { name = codes "allow"; value = codes "GET, HEAD" } ∷ []);
  resource = record {
    body = some (record { bytes = only_reading; fault = eof });
    media_type = codes "text/plain; charset=utf-8";
    size = pos (length only_reading);
  };
}

abbrev opened : Result Resource → Result ApplicationResponse
opened (err e) = err e
opened (ok r) = ok (record { status = pos 200; headers = some []; resource = r })

-- Whose answer the request gets.
unfoldable pub answer : Handler → RequestMetadata → ApplicationRequest → Result ApplicationResponse
answer handler target q = elim handler.exchange [
  | some f ↦ f target.path target.query q
  | none ↦
      if is_reading q.method
      then opened (handler.open_resource target.path target.query)
      else ok method_not_allowed
]

unfoldable pub check_application_response : ℤ → ApplicationResponse → Result (Unit {0})
check_application_response max_bytes r =
    let most =
      if ltb_ℤ (pos max_response_bytes) max_bytes then pos max_response_bytes else max_bytes in
    elim (validate_headers (or_no_headers r.headers)) [
      | err e ↦ err e
      | ok _ ↦
          reject_if
            (ltb_ℤ r.status (pos 200)
              || ltb_ℤ (pos 599) r.status
              || not (validate_media_type r.resource.media_type)
              || is_negative r.resource.size
              || ltb_ℤ most r.resource.size)
            (failure "invalid application provider response")
    ]

abbrev pub or_failure {ℓ} : {A : Type ℓ} → Error → Option A → Result A
or_failure e none = err e
or_failure e (some a) = ok a

-- A method that reads from this source, on the link alone.
unfoldable pub sending_from : {A : Type 0} → Stream → Exec Upload A → Exec Link A
sending_from source m l = let (r, u) = m (record { link = l; source = source }) in (r, u.link)

-- A `bytes.Buffer` takes all it is given.
abbrev pub buffered : Result Bytes → Bytes → Result Bytes
buffered (err e) bytes = err e
buffered (ok digest) bytes = ok bytes

module _ (lib : Library) where
  unfoldable pub receive_buffer : ℕ → ℕ → Exec Link Bytes
  receive_buffer id size l =
      let (r, d) =
        receive_body lib id size
          (record { link = l; destination = record { sent = []; answers = [] } }) in
      (buffered r d.destination.sent, d.link)

  -- What is sent back; HEAD has no body.
  unfoldable pub respond : ℕ → Bytes → ApplicationResponse → Stream → Exec Link (Unit {0})
  respond id method r body = do
    let head = equal method (codes "HEAD")
    let size = if head then 0 else pos_part r.resource.size
    let payload : Stream = if head then record { bytes = []; fault = eof } else body
    on_output (
        send lib.json Frame.response id
          (lib.application_response.marshal (record {
            status = r.status;
            headers = or_no_headers r.headers;
            media_type = r.resource.media_type;
            size = pos size;
          }))
          [])
    sending_from payload (send_body lib id size)

  -- `Server.exchange`; `max_bytes` is the server's.
  unfoldable pub exchange : Handler → ℤ → ℕ → RequestMetadata → Exec Link (Unit {0})
  exchange handler max_bytes id target = do
    on_output (
        send lib.json Frame.proceed id
          (lib.proceed.marshal
            (record { profile = codes "app/1"; max_body = pos max_request_bytes }))
          [])
    f ← on_input (read_frame lib.json)
    lift (expect lib f Frame.request id)
    m ← lift (decode_application_request lib f)
    lift (check_application_request m)
    bytes ← receive_buffer id (pos_part m.size)
    r ←
        lift
          (answer handler target (record { method = m.method; headers = m.headers; body = bytes }))
    body ← lift (or_failure (failure "application provider returned no body") r.resource.body)
    lift (check_application_response max_bytes r)
    respond id m.method r body
