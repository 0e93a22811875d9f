-- ===== src/Body/Wire.antt =====
-- The frames that carry a body: DATA frames of at most 65536 bytes each, and an END frame.
use deep_protocol.Base.{
  ℕ, zero, suc, ◌+◌, ◌^◌, ◌≡◌, ◌≤◌, ◌<◌, min, not, ◌||◌, List, [], ◌∷◌, ◌++◌, Bytes, length,
  length-take, length-drop, take, drop, codes, ltb, ok, reject_if, protocol, >>=-eq-ok, arith,
}
use deep_protocol.Base.Int.{pos}
use deep_protocol.Json.{Json, validate_json, decode_metadata, max_metadata_size, utf8_valid}
use deep_protocol.Frame.{Frame, chunk, ending, max_chunk_size, validate_header}
use deep_protocol.Frame.RoundTrip.{encode, IsFrame}
use deep_protocol.Messages.{Library, Codec}

abbrev pub first_part : Bytes → Bytes
first_part r = take (min max_chunk_size (length r)) r

abbrev pub rest_part : Bytes → Bytes
rest_part r = drop (min max_chunk_size (length r)) r

abbrev pub data_frame : ℕ → Bytes → Bytes → Frame
data_frame id raw part = record { kind = chunk; request_id = id; metadata = raw; body = part }

abbrev pub end_frame : ℕ → Bytes → Frame
end_frame id raw = record { kind = ending; request_id = id; metadata = raw; body = [] }

-- The DATA frames of `r`, of which there are no more than `fuel`.
unfoldable pub wire_chunks : ℕ → ℕ → Bytes → Bytes → Bytes
wire_chunks zero id raw r = []
wire_chunks (suc fuel) id raw [] = []
wire_chunks (suc fuel) id raw (c ∷ cs) =
    encode (data_frame id raw (first_part (c ∷ cs))) ++ wire_chunks fuel id raw (rest_part (c ∷ cs))

-- encoding/json writes `a` as `raw`, which `DecodeMetadata` reads back.
pub record Encodes {A : Type 0} (json : Json) (c : Codec A) (names : List Bytes) (a : A)
    : Type 0 where
  pub raw : Bytes
  pub marshaled : c.marshal a ≡ ok raw
  pub read_back : decode_metadata json c.decode names raw ≡ ok a

pub Encodes-valid :
    {A : Type 0} (json : Json) (c : Codec A) (names : List Bytes) (a : A)
    (e : Encodes json c names a)
    → validate_json json e.raw ≡ ok tt
unfolding decode_metadata
Encodes-valid json c names a e =
    let (_, v, _) = >>=-eq-ok (validate_json json e.raw) _ e.read_back in v

-- What the library must do for the body `body` of request `id` to be carried.
pub record Carries (lib : Library) (id : ℕ) (body : Bytes) : Type 0 where
  pub id_pos : 1 ≤ id
  pub id_fits : id < 2 ^ 32
  pub empty_encodes : Encodes lib.json lib.empty [] tt
  pub end_encodes :
      Encodes lib.json lib.end
        (codes "size" ∷ codes "sha256" ∷ [])
        (record { size = pos (length body); sha256 = lib.sha256 body })

pub length-valid :
    (json : Json) (raw : Bytes)
    → validate_json json raw ≡ ok tt
    → (2 ≤ length raw) × (length raw ≤ max_metadata_size)
unfolding validate_json
length-valid json raw e =
    let fails = ltb (length raw) 2 || ltb max_metadata_size (length raw) || not (utf8_valid raw) in
    let (_, a, _) =
      >>=-eq-ok (reject_if fails (protocol "invalid metadata encoding or size")) _ e in
    ground arith

pub part_bounds :
    (c : ℕ) (cs : Bytes)
    → (1 ≤ length (first_part (c ∷ cs)))
      × (length (first_part (c ∷ cs)) ≤ max_chunk_size)
      × (length (first_part (c ∷ cs)) + length (rest_part (c ∷ cs)) ≡ length (c ∷ cs))
part_bounds c cs =
    let n = min max_chunk_size (length (c ∷ cs)) in
    omega (arith, length-take n (c ∷ cs), length-drop n (c ∷ cs))

module _ (lib : Library) (id : ℕ) (body : Bytes) (k : Carries lib id body) where
  pub data-IsFrame :
      (part : Bytes)
      → 1 ≤ length part
      → length part ≤ max_chunk_size
      → IsFrame lib.json (data_frame id k.empty_encodes.raw part)
  unfolding validate_header
  data-IsFrame part lo hi =
      let v = Encodes-valid lib.json lib.empty [] tt k.empty_encodes in
      let (a, b) = length-valid lib.json k.empty_encodes.raw v in
      let i = k.id_pos in
      record { id_fits = k.id_fits; header_valid = ground arith; metadata_valid = v }

  pub end-IsFrame : IsFrame lib.json (end_frame id k.end_encodes.raw)
  unfolding validate_header
  end-IsFrame =
      let v = Encodes-valid lib.json lib.end _ _ k.end_encodes in
      let (a, b) = length-valid lib.json k.end_encodes.raw v in
      let i = k.id_pos in
      record { id_fits = k.id_fits; header_valid = ground arith; metadata_valid = v }

  -- The bytes of the whole message.
  abbrev pub wire : Bytes
  wire =
      wire_chunks (length body) id k.empty_encodes.raw body
      ++ encode (end_frame id k.end_encodes.raw)
