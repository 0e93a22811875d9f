-- ===== src/Frame/RoundTrip.antt =====
-- `ReadFrame` and `WriteFrame` undo one another.
use deep_protocol.Base.{
  ℕ, ◌^◌, ◌≡◌, ◌≤◌, ◌<◌, refl, true, ◌++◌, append_assoc, Bytes, length, drop, Error, ok, arith,
  equal,
}
use deep_protocol.Io.{read_full-append}
use deep_protocol.Json.{Json, validate_json, max_metadata_size}
use deep_protocol.Frame.{
  hello, proceed, Frame, read_frame, write_header, validate_header, has_preface, max_chunk_size,
  uint32, uint16, byte_at,
}

-- The bytes of a frame on the wire.
abbrev pub encode : Frame → Bytes
encode f = write_header f ++ (f.metadata ++ f.body)

module _ (json : Json) where
  -- The frames of the protocol.
  pub record IsFrame (f : Frame) : Type 0 where
    pub id_fits : f.request_id < 2 ^ 32
    pub header_valid :
        validate_header f.kind f.request_id (length f.metadata) (length f.body) ≡ ok tt
    pub metadata_valid : validate_json json f.metadata ≡ ok tt

pub record HeaderBounds (kind id meta_size body_size : ℕ) : Type 0 where
  pub kind_known : (hello ≤ kind) × (kind ≤ proceed)
  pub meta_bounds : (2 ≤ meta_size) × (meta_size ≤ max_metadata_size)
  pub body_bound : body_size ≤ max_chunk_size

pub validate_header-HeaderBounds :
    (kind id meta_size body_size : ℕ)
    → validate_header kind id meta_size body_size ≡ ok tt
    → HeaderBounds kind id meta_size body_size
unfolding validate_header
validate_header-HeaderBounds kind id m b h = ground arith

length-write_header : (f : Frame) → length (write_header f) ≡ 20
unfolding write_header
length-write_header f = refl

has_preface-write_header : (f : Frame) → has_preface (write_header f) ≡ true
unfolding write_header uint16 equal
has_preface-write_header f = refl

kind-write_header : (f : Frame) → byte_at 5 (write_header f) ≡ f.kind
unfolding write_header
kind-write_header f = refl

uint32-write_header :
    (f : Frame)
    → f.request_id < 2 ^ 32
    → length f.metadata < 2 ^ 32
    → length f.body < 2 ^ 32
    → (uint32 (drop 8 (write_header f)) ≡ f.request_id)
      × (uint32 (drop 12 (write_header f)) ≡ length f.metadata)
      × (uint32 (drop 16 (write_header f)) ≡ length f.body)
unfolding write_header uint32
uint32-write_header f a b c = omega arith

module _ (json : Json) where
  -- ReadFrame reads a frame of the protocol back from its encoding and leaves whatever follows it.
  pub read_frame-encode :
      (f : Frame) (rest : Bytes) (fault : Error)
      → IsFrame json f
      → read_frame json (record { bytes = encode f ++ rest; fault = fault })
        ≡ (ok f, record { bytes = rest; fault = fault })
  unfolding read_frame
  read_frame-encode f rest fault v =
      let b =
        validate_header-HeaderBounds f.kind f.request_id (length f.metadata) (length f.body)
          v.header_valid in
      let (id_is, meta_is, body_is) = uint32-write_header f v.id_fits (omega arith) (omega arith) in
      let header =
        read_full-append 20 (write_header f) (f.metadata ++ (f.body ++ rest)) fault
          (length-write_header f) in
      let metadata = read_full-append (length f.metadata) f.metadata (f.body ++ rest) fault refl in
      let body = read_full-append (length f.body) f.body rest fault refl in
      rw (
        append_assoc,
        append_assoc,
        header,
        has_preface-write_header f,
        kind-write_header f,
        id_is,
        meta_is,
        body_is,
        v.header_valid,
        metadata,
        v.metadata_valid,
        body,
      )
