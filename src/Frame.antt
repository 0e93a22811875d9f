-- ===== src/Frame.antt =====
-- protocol.go: the frames of the wire, `validateHeader`, `ReadFrame`, `WriteFrame`, `writeAll` and
-- `send`. A `uint32` of the header is written out modulo 2 ^ 32.
pub mod Words
pub mod Write
pub mod RoundTrip
pub mod Canonical
pub mod Sends
use deep_protocol.Base.{
  ℕ, zero, suc, ◌+◌, ◌*◌, ◌/◌, ◌%◌, ◌^◌, ◌≡◌, ◌≤◌, Bool, true, false, not, ◌&&◌, ◌||◌, List, [],
  ◌∷◌, ◌++◌, Bytes, length, take, drop, codes, equal, leb, ltb, ◌==◌, within, if◌then◌else◌, Option,
  none, some, Error, protocol, short_write, Result, ok, err, reject_if,
}
use deep_protocol.Base
use deep_protocol.Base.Int.{ℤ, pos_part, is_negative}
use deep_protocol.Io.{Exec, ◌>>=◌, ◌>>◌, pure, lift, raise, Stream, read_full, Answer, Writer}
use deep_protocol.Json.{Json, validate_json, max_metadata_size}

abbrev pub header_size : ℕ
header_size = 20

abbrev pub max_chunk_size : ℕ
max_chunk_size = 65536

abbrev pub max_resource_size : ℕ
max_resource_size = 2 ^ 40

abbrev pub protocol_version : ℕ
protocol_version = 2

-- `MessageType` is a uint8.
abbrev pub MessageType : Type 0
MessageType = ℕ

abbrev pub hello : MessageType
hello = 1

abbrev pub welcome : MessageType
welcome = 2

abbrev pub request : MessageType
request = 3

abbrev pub response : MessageType
response = 4

abbrev pub chunk : MessageType
chunk = 5

abbrev pub ending : MessageType
ending = 6

abbrev pub error : MessageType
error = 7

abbrev pub close : MessageType
close = 8

abbrev pub proceed : MessageType
proceed = 9

pub record Frame : Type 0 where
  pub kind : MessageType
  pub request_id : ℕ
  pub metadata : Bytes
  pub body : Bytes

unfoldable pub validate_header : MessageType → ℕ → ℕ → ℕ → Result (Unit {0})
validate_header kind id meta_size body_size =
    if ltb kind hello || ltb proceed kind
    then err (protocol "unknown message type")
    else if ltb meta_size 2 || ltb max_metadata_size meta_size || ltb max_chunk_size body_size
    then err (protocol "frame size limit exceeded")
    else if not (kind == chunk) && not (body_size == 0)
    then err (protocol "only DATA has a body")
    else if kind == chunk && body_size == 0
    then err (protocol "empty DATA frame")
    else if (kind == hello || kind == welcome || kind == close) && not (id == 0)
    then err (protocol "control message with request ID")
    else if (leb request kind && leb kind ending || kind == proceed) && id == 0
    then err (protocol "resource message without request ID")
    else ok tt

-- `binary.BigEndian.PutUint32`
unfoldable pub put_uint32 : ℕ → Bytes
put_uint32 v = (v / 2 ^ 24 % 256) ∷ (v / 2 ^ 16 % 256) ∷ (v / 2 ^ 8 % 256) ∷ (v % 256) ∷ []

-- `binary.BigEndian.Uint32` of the first four bytes.
unfoldable pub uint32 : Bytes → ℕ
uint32 (a ∷ b ∷ c ∷ d ∷ rest) = a * 2 ^ 24 + b * 2 ^ 16 + c * 2 ^ 8 + d
uint32 _ = 0

-- `binary.BigEndian.Uint16` of the first two bytes.
unfoldable pub uint16 : Bytes → ℕ
uint16 (a ∷ b ∷ rest) = a * 2 ^ 8 + b
uint16 _ = 0

abbrev pub byte_at : ℕ → Bytes → ℕ
byte_at i [] = 0
byte_at zero (c ∷ cs) = c
byte_at (suc i) (c ∷ cs) = byte_at i cs

abbrev pub magic : Bytes
magic = codes "DEEP"

-- `header[:4]`, `header[4]` and `header[6:8]` are as this version writes them.
abbrev pub has_preface : Bytes → Bool
has_preface header =
    equal (take 4 header) magic
    && byte_at 4 header == protocol_version
    && uint16 (drop 6 header) == 0

-- The 20 bytes that `WriteFrame` puts before metadata and body.
unfoldable pub write_header : Frame → Bytes
unfolding put_uint32
write_header f =
    magic
    ++ (protocol_version
        ∷ f.kind
        ∷ 0
        ∷ 0
        ∷ (put_uint32 f.request_id
            ++ (put_uint32 (length f.metadata) ++ put_uint32 (length f.body))))

-- `writeAll`: the loop goes on while `Write` takes a part and reports no error.
unfoldable pub write_all_to : List Answer → Bytes → Bytes → Result (Unit {0}) × Writer
write_all_to answers sent [] = (ok tt, record { sent = sent; answers = answers })
write_all_to [] sent (c ∷ cs) = (ok tt, record { sent = sent ++ (c ∷ cs); answers = [] })
write_all_to ((n, e) ∷ answers) sent (c ∷ cs) =
    let rest =
      write_all_to answers (sent ++ take (pos_part n) (c ∷ cs)) (drop (pos_part n) (c ∷ cs)) in
    let taken : Writer = record { sent = sent ++ take (pos_part n) (c ∷ cs); answers = answers } in
    if is_negative n || ltb (length (c ∷ cs)) (pos_part n)
    then (err short_write, record { sent = sent; answers = answers })
    else elim e [
      | some cause ↦ (err cause, taken)
      | none ↦ if pos_part n == 0 then (err short_write, taken) else rest
    ]

unfoldable pub write_all : Bytes → Exec Writer (Unit {0})
unfolding write_all_to
write_all bytes w = write_all_to w.answers w.sent bytes

module _ (json : Json) where
  unfoldable pub read_frame : Exec Stream Frame
  read_frame = do
    header ← read_full header_size
    lift
        (reject_if (not (has_preface header)) (protocol "unknown magic, framing version, or flags"))
    let kind = byte_at 5 header
    let id = uint32 (drop 8 header)
    let meta_size = uint32 (drop 12 header)
    let body_size = uint32 (drop 16 header)
    lift (validate_header kind id meta_size body_size)
    metadata ← read_full meta_size
    lift (validate_json json metadata)
    body ← read_full body_size
    pure (record { kind = kind; request_id = id; metadata = metadata; body = body })

  unfoldable pub write_frame : Frame → Exec Writer (Unit {0})
  write_frame f = do
    lift (
        reject_if (ltb max_metadata_size (length f.metadata) || ltb max_chunk_size (length f.body))
          (protocol "frame size limit exceeded"))
    lift (validate_header f.kind f.request_id (length f.metadata % 2 ^ 32) (length f.body % 2 ^ 32))
    lift (validate_json json f.metadata)
    write_all (write_header f)
    write_all f.metadata
    write_all f.body

  -- `send`: `json.Marshal` of the metadata, or its error, and then the frame.
  unfoldable pub send : MessageType → ℕ → Result Bytes → Bytes → Exec Writer (Unit {0})
  unfolding write_frame
  send kind id marshaled body = do
    raw ← lift marshaled
    write_frame (record { kind = kind; request_id = id; metadata = raw; body = body })
