-- ===== src/Frame/Canonical.antt =====
-- A frame that `ReadFrame` accepts had only one way to be written.
use deep_protocol.Base.{
  ℕ, ◌^◌, ◌≡◌, ◌<◌, ap, ◌∙◌, true, not, [], ◌∷◌, ◌++◌, append_assoc, Bytes, length, drop, ok,
  reject_if, arith, equal, All, All-split, IsByte,
}
use deep_protocol.Io.{Stream, read_full, read_full-Takes, Takes, >>=-elim, lift-elim}
use deep_protocol.Json.{Json, validate_json}
use deep_protocol.Frame.Words.{put_uint32-uint32, uint32-lt}
use deep_protocol.Frame.RoundTrip.{encode, IsFrame}
use deep_protocol.Frame.{
  Frame, read_frame, write_header, validate_header, has_preface, header_size, uint32, uint16,
  byte_at, put_uint32, magic, protocol_version,
}

-- The header with these four values.
abbrev header_with : ℕ → ℕ → ℕ → ℕ → Bytes
header_with kind id m b =
    magic ++ (protocol_version ∷ kind ∷ 0 ∷ 0 ∷ (put_uint32 id ++ (put_uint32 m ++ put_uint32 b)))

has_preface-front :
    (a b c d v k f g : ℕ) (rest : Bytes)
    → has_preface (a ∷ b ∷ c ∷ d ∷ v ∷ k ∷ f ∷ g ∷ rest) ≡ true
    → a ∷ b ∷ c ∷ d ∷ v ∷ k ∷ f ∷ g ∷ rest ≡ magic ++ (protocol_version ∷ k ∷ 0 ∷ 0 ∷ rest)
unfolding equal uint16
has_preface-front a b c d v k f g rest h = ground arith

header_canonical :
    (a : Bytes)
    → length a ≡ 20
    → has_preface a ≡ true
    → All IsByte a
    → a ≡ header_with (byte_at 5 a) (uint32 (drop 8 a)) (uint32 (drop 12 a)) (uint32 (drop 16 a))
header_canonical
      (a ∷ b ∷ c ∷ d ∷ v ∷ k ∷ f ∷ g ∷ i0 ∷ i1 ∷ i2 ∷ i3 ∷ m0 ∷ m1 ∷ m2 ∷ m3 ∷ b0 ∷ b1 ∷ b2 ∷ b3
        ∷ [])
      e h u =
    has_preface-front a b c d v k f g _ h
    ∙ rw (
      put_uint32-uint32 i0 i1 i2 i3 _ (omega arith),
      put_uint32-uint32 m0 m1 m2 m3 _ (omega arith),
      put_uint32-uint32 b0 b1 b2 b3 [] (omega arith),
    )
header_canonical _ e h u = absurd (omega arith)

header_id_fits : (a : Bytes) → length a ≡ 20 → All IsByte a → uint32 (drop 8 a) < 2 ^ 32
header_id_fits (a ∷ b ∷ c ∷ d ∷ v ∷ k ∷ f ∷ g ∷ i0 ∷ i1 ∷ i2 ∷ i3 ∷ rest) e u =
    uint32-lt i0 i1 i2 i3 rest (omega arith)
header_id_fits _ e u = absurd (omega arith)

module _ (json : Json) where
  -- What `ReadFrame` has done when it returns a frame.
  pub record ReadsFrame (s : Stream) (f : Frame) (s' : Stream) : Type 0 where
    pub splits : s.bytes ≡ encode f ++ s'.bytes
    pub valid : IsFrame json f
    pub fault_is : s'.fault ≡ s.fault

  -- The successful steps of a `ReadFrame` from `s` to `t`.
  record Steps (s : Stream) (f : Frame) (t : Stream) : Type 0 where
    header : Bytes
    s₁ : Stream
    s₂ : Stream
    reads_header : Takes 20 s header s₁
    preface : has_preface header ≡ true
    header_valid :
        validate_header
          (byte_at 5 header)
          (uint32 (drop 8 header))
          (uint32 (drop 12 header))
          (uint32 (drop 16 header))
        ≡ ok tt
    reads_metadata : Takes (uint32 (drop 12 header)) s₁ f.metadata s₂
    metadata_valid : validate_json json f.metadata ≡ ok tt
    reads_body : Takes (uint32 (drop 16 header)) s₂ f.body t
    kind_is : f.kind ≡ byte_at 5 header
    id_is : f.request_id ≡ uint32 (drop 8 header)

  read_frame-Steps :
      (s : Stream) {f : Frame} {t : Stream} → read_frame json s ≡ (ok f, t) → Steps s f t
  unfolding read_frame
  read_frame-Steps s {f} {t} e = >>=-elim (read_full header_size) _ s e λ header s₁ a e₁.
      lift-elim (reject_if (not (has_preface header)) _) _ s₁ e₁ λ _ p e₂.
        lift-elim
          (validate_header (byte_at 5 header) (uint32 (drop 8 header)) (uint32 (drop 12 header))
            (uint32 (drop 16 header)))
          _ s₁ e₂
          λ _ v e₃. >>=-elim (read_full (uint32 (drop 12 header))) _ s₁ e₃ λ metadata s₂ c e₄.
            lift-elim (validate_json json metadata) _ s₂ e₄ λ _ d e₅.
              >>=-elim (read_full (uint32 (drop 16 header))) _ s₂ e₅ λ body s₃ g e₆. record {
                header = header;
                s₁ = s₁;
                s₂ = s₂;
                reads_header = read_full-Takes 20 s a;
                preface = ground arith;
                header_valid = v;
                reads_metadata = ground (arith, read_full-Takes (uint32 (drop 12 header)) s₁ c);
                metadata_valid = ground arith;
                reads_body = ground (arith, read_full-Takes (uint32 (drop 16 header)) s₂ g);
                kind_is = ground arith;
                id_is = ground arith;
              }

  module _ {s : Stream} {f : Frame} {t : Stream} (st : Steps s f t)
      (bytes : All IsByte s.bytes) where
    open st use {header, s₁, s₂, reads_header, reads_metadata, reads_body}

    header_bytes : All IsByte header
    header_bytes = (All-split IsByte header s₁.bytes (rw reads_header.splits at bytes)).0

    header-write_header : header ≡ write_header f
    unfolding write_header
    header-write_header =
        header_canonical header reads_header.length_is st.preface header_bytes
        ∙ rw (st.kind_is, st.id_is, reads_metadata.length_is, reads_body.length_is)

    Steps-splits : s.bytes ≡ encode f ++ t.bytes
    Steps-splits =
        reads_header.splits
        ∙ ap (◌++◌ header) (reads_metadata.splits ∙ ap (◌++◌ f.metadata) reads_body.splits)
        ∙ rw (header-write_header, append_assoc, append_assoc)

    Steps-IsFrame : IsFrame json f
    Steps-IsFrame = record {
      id_fits = rw st.id_is (header_id_fits header reads_header.length_is header_bytes);
      header_valid =
          rw (st.kind_is, st.id_is, reads_metadata.length_is, reads_body.length_is) st.header_valid;
      metadata_valid = st.metadata_valid;
    }

    Steps-ReadsFrame : ReadsFrame s f t
    Steps-ReadsFrame = record {
      splits = Steps-splits;
      valid = Steps-IsFrame;
      fault_is = reads_body.fault_is ∙ reads_metadata.fault_is ∙ reads_header.fault_is;
    }

  -- When ReadFrame returns a frame from a stream of bytes, it is one that WriteFrame accepts, and
  -- the bytes it has taken are exactly its encoding.
  pub read_frame-ReadsFrame :
      (s : Stream) {f : Frame} {s' : Stream}
      → All IsByte s.bytes
      → read_frame json s ≡ (ok f, s')
      → ReadsFrame s f s'
  read_frame-ReadsFrame s bytes e = Steps-ReadsFrame (read_frame-Steps s e) bytes
