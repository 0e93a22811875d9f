-- ===== src/Messages.antt =====
-- The metadata of the messages in protocol.go and application.go, their checks, and `expect` of
-- client.go. encoding/json is the parameter `Json`, with a `Codec` for each metadata type.
use deep_protocol.Base.{
  ℕ, Bool, false, not, ◌||◌, List, [], ◌∷◌, Bytes, length, all, codes, ltb, ◌==◌, within,
  if◌then◌else◌, Option, protocol, remote, RemoteError, Result, ok, err, reject_if, ◌>>=◌, ◌>>◌,
  is_ok,
}
use deep_protocol.Base.Int.{ℤ}
use deep_protocol.Json.{Json, decode_metadata, utf8_valid}
use deep_protocol.Frame
use deep_protocol.Frame.{Frame, MessageType}

pub record HelloMetadata : Type 0 where
  pub versions : List ℤ

pub record WelcomeMetadata : Type 0 where
  pub version : ℤ
  pub max_chunk : ℤ

pub record RequestMetadata : Type 0 where
  pub authority : Bytes
  pub path : Bytes
  pub query : Bytes
  pub operation : Bytes

pub record ResponseMetadata : Type 0 where
  pub media_type : Bytes
  pub size : ℤ

pub record EndMetadata : Type 0 where
  pub size : ℤ
  pub sha256 : Bytes

pub record Header : Type 0 where
  pub name : Bytes
  pub value : Bytes

-- A nil list of headers is `none`.
abbrev pub Headers : Type 0
Headers = Option (List Header)

pub record ApplicationContinue : Type 0 where
  pub profile : Bytes
  pub max_body : ℤ

pub record ApplicationRequestMetadata : Type 0 where
  pub method : Bytes
  pub headers : Headers
  pub size : ℤ

pub record ApplicationResponseMetadata : Type 0 where
  pub status : ℤ
  pub headers : Headers
  pub media_type : Bytes
  pub size : ℤ

-- `json.Marshal` of a value, and the strict `Decode` into its type.
pub record Codec (A : Type 0) : Type 0 where
  pub marshal : A → Result Bytes
  pub decode : Bytes → Option A

-- The parts of Go's libraries that the messages go through. `has_hidden` tells whether a text has
-- a rune that `unicode.IsControl` or the tables Cf, Zl or Zp hold; `sha256` is the hex digest.
pub record Library : Type 1 where
  pub json : Json
  pub empty : Codec (Unit {0})
  pub hello : Codec HelloMetadata
  pub welcome : Codec WelcomeMetadata
  pub request : Codec RequestMetadata
  pub response : Codec ResponseMetadata
  pub end : Codec EndMetadata
  pub error : Codec RemoteError
  pub proceed : Codec ApplicationContinue
  pub application_request : Codec ApplicationRequestMetadata
  pub application_response : Codec ApplicationResponseMetadata
  pub has_hidden : Bytes → Bool
  pub sha256 : Bytes → Bytes

abbrev pub is_upper : ℕ → Bool
is_upper c = within b'A' b'Z' c

abbrev pub is_code_byte : ℕ → Bool
is_code_byte c = is_upper c || within b'0' b'9' c || c == b'_'

abbrev pub starts_upper : Bytes → Bool
starts_upper [] = false
starts_upper (c ∷ cs) = is_upper c

-- `ValidateRemoteError`; the range over a code that is not ASCII meets a byte that is not allowed.
unfoldable pub validate_remote_error : (Bytes → Bool) → RemoteError → Result (Unit {0})
validate_remote_error has_hidden e = do
  reject_if (ltb (length e.code) 1 || ltb 64 (length e.code) || not (starts_upper e.code))
      (protocol "invalid remote error code")
  reject_if (not (all is_code_byte e.code)) (protocol "invalid remote error code")
  reject_if (not (utf8_valid e.message) || ltb 1024 (length e.message))
      (protocol "invalid remote error message")
  reject_if (has_hidden e.message) (protocol "invalid remote error message")

unfoldable pub validate_media_type : Bytes → Bool
validate_media_type value =
    if length value == 0 || ltb 255 (length value) then false else all (within 32 126) value

module _ (lib : Library) where
  -- `DecodeMetadata` with no fields.
  unfoldable pub decode_empty : Frame → Result (Unit {0})
  decode_empty f = decode_metadata lib.json lib.empty.decode [] f.metadata

  unfoldable pub decode_end : Frame → Result EndMetadata
  decode_end f =
      decode_metadata lib.json lib.end.decode (codes "size" ∷ codes "sha256" ∷ []) f.metadata

  unfoldable pub decode_error : Frame → Result RemoteError
  decode_error f =
      decode_metadata lib.json lib.error.decode (codes "code" ∷ codes "message" ∷ []) f.metadata

  unfoldable pub decode_hello : Frame → Result HelloMetadata
  decode_hello f = decode_metadata lib.json lib.hello.decode (codes "versions" ∷ []) f.metadata

  unfoldable pub decode_welcome : Frame → Result WelcomeMetadata
  decode_welcome f =
      decode_metadata lib.json lib.welcome.decode (codes "version" ∷ codes "max_chunk" ∷ [])
        f.metadata

  unfoldable pub decode_response : Frame → Result ResponseMetadata
  decode_response f =
      decode_metadata lib.json lib.response.decode (codes "media_type" ∷ codes "size" ∷ [])
        f.metadata

  unfoldable pub decode_continue : Frame → Result ApplicationContinue
  decode_continue f =
      decode_metadata lib.json lib.proceed.decode (codes "profile" ∷ codes "max_body" ∷ [])
        f.metadata

  unfoldable pub decode_application_response : Frame → Result ApplicationResponseMetadata
  decode_application_response f =
      decode_metadata lib.json lib.application_response.decode
        (codes "status" ∷ codes "headers" ∷ codes "media_type" ∷ codes "size" ∷ []) f.metadata

  unfoldable pub decode_request : Frame → Result RequestMetadata
  decode_request f =
      decode_metadata lib.json lib.request.decode
        (codes "authority" ∷ codes "path" ∷ codes "query" ∷ codes "operation" ∷ []) f.metadata

  unfoldable pub decode_application_request : Frame → Result ApplicationRequestMetadata
  decode_application_request f =
      decode_metadata lib.json lib.application_request.decode
        (codes "method" ∷ codes "headers" ∷ codes "size" ∷ []) f.metadata

  -- An Error frame is an error in any case.
  unfoldable pub remote_error : Frame → Result (Unit {0})
  remote_error f = do
    r ← decode_error f
    reject_if (not (is_ok (validate_remote_error lib.has_hidden r)))
        (protocol "invalid remote error")
    err (remote r)

  unfoldable pub expect : Frame → MessageType → ℕ → Result (Unit {0})
  unfolding remote_error
  expect f kind id =
      if not (f.request_id == id)
      then err (protocol "response request ID mismatch")
      else if f.kind == Frame.error
      then remote_error f
      else if not (f.kind == kind)
      then err (protocol "unexpected message type")
      else ok tt
