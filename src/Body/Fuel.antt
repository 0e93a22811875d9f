-- ===== src/Body/Fuel.antt =====
-- The loop of `receiveBody`, and how many frames it reads.
use deep_protocol.Base.{
  ℕ, zero, suc, ◌+◌, ◌≡◌, ◌≤◌, ◌<◌, ◌*◌, refl, sym, ap, ◌∙◌, inl, inr, not, [], ◌++◌, Bytes, length,
  length-append, drop, ◌==◌, protocol, ok, reject_if, arith, Bool-cases,
}
use deep_protocol.Io.{
  Exec, ◌>>=◌, lift, Stream, read_full, Takes, read_full-Takes, >>=-elim, lift-elim, >>=-agree,
}
use deep_protocol.Json.{Json, validate_json}
use deep_protocol.Frame.{
  Frame, header_size, read_frame, has_preface, byte_at, uint32, validate_header, chunk,
}
use deep_protocol.Messages.{Library}
use deep_protocol.Body.{
  Download, Texts, on_input, downloading, on_destination, check_data, on_frame, receive_chunks,
  receive_stream,
}

Takes-length :
    (n : ℕ) (s t : Stream) {a : Bytes} → Takes n s a t → length t.bytes + n ≡ length s.bytes
Takes-length n s t {a} k = omega (arith, ap length k.splits, length-append a t.bytes, k.length_is)

read_frame-shorter :
    (json : Json) (s t : Stream) {f : Frame}
    → read_frame json s ≡ (ok f, t)
    → length t.bytes + 20 ≤ length s.bytes
unfolding read_frame
read_frame-shorter json s t {f} h = >>=-elim (read_full header_size) _ s h λ header s₁ a h₁.
    lift-elim
      (reject_if (not (has_preface header)) (protocol "unknown magic, framing version, or flags")) _
      s₁ h₁
      λ _ _ h₂.
        lift-elim
          (validate_header (byte_at 5 header) (uint32 (drop 8 header)) (uint32 (drop 12 header))
            (uint32 (drop 16 header)))
          _ s₁ h₂
          λ _ _ h₃. >>=-elim (read_full (uint32 (drop 12 header))) _ s₁ h₃ λ metadata s₂ b h₄.
            lift-elim (validate_json json metadata) _ s₂ h₄ λ _ _ h₅.
              >>=-elim (read_full (uint32 (drop 16 header))) _ s₂ h₅ λ body s₃ c h₆.
                shorter s₁ s₂ s₃ (uint32 (drop 12 header)) (uint32 (drop 16 header))
                  (Takes-length _ s s₁ (read_full-Takes _ s a))
                  (Takes-length _ s₁ s₂ (read_full-Takes _ s₁ b))
                  (Takes-length _ s₂ s₃ (read_full-Takes _ s₂ c)) (ap (λ r. length r.1.bytes) h₆)
  where
    shorter :
        (s₁ s₂ s₃ : Stream) (m n : ℕ)
        → length s₁.bytes + 20 ≡ length s.bytes
        → length s₂.bytes + m ≡ length s₁.bytes
        → length s₃.bytes + n ≡ length s₂.bytes
        → length s₃.bytes ≡ length t.bytes
        → length t.bytes + 20 ≤ length s.bytes
    shorter s₁ s₂ s₃ m n a b c d = omega arith

module _ (lib : Library) (texts : Texts) where
  on_destination-link :
      (body : Bytes) (d d' : Download) {u : Unit {0}}
      → on_destination lib body d ≡ (ok u, d')
      → d'.link ≡ d.link
  unfolding on_destination
  on_destination-link body d d' h = ap (λ r. r.1.link) (sym h)

  on_frame-agree :
      (go other : ℕ → Bytes → Exec Download Bytes) (id size received : ℕ) (hashed : Bytes)
      (f : Frame) (d : Download)
      → ((n : ℕ) (h : Bytes) (d' : Download) → d'.link ≡ d.link → go n h d' ≡ other n h d')
      → on_frame lib texts go id size received hashed f d
        ≡ on_frame lib texts other id size received hashed f d
  unfolding on_frame
  on_frame-agree go other id size received hashed f d same =
      elim (Bool-cases (f.request_id == id)) [
        | inr strange ↦ rw (strange, on_frame) refl
        | inl own ↦
            rw (own, on_frame)
              (elim (Bool-cases (f.kind == chunk)) [
                | inr no_data ↦ rw no_data refl
                | inl data_frame ↦ rw data_frame (
                    >>=-agree (lift (check_data lib size received f)) _ _ d λ u t p.
                      >>=-agree (on_destination lib f.body) _ _ t λ v d' q.
                        same (received + length f.body) (hashed ++ f.body) d'
                          (on_destination-link f.body t d' q ∙ ap (λ r. r.1.link) (sym p)))
              ])
      ]

  downloading-shorter :
      (d d' : Download) {f : Frame}
      → downloading (on_input (read_frame lib.json)) d ≡ (ok f, d')
      → length d'.link.input.bytes + 20 ≤ length d.link.input.bytes
  unfolding downloading on_input
  downloading-shorter d d' h =
      read_frame-shorter lib.json d.link.input d'.link.input (ap (λ r. (r.0, r.1.link.input)) h)

  -- The frames of a body, at most `n` of them, with `spent` for what is done behind the last.
  abbrev pub rounds :
      (ℕ → Bytes → Exec Download Bytes) → ℕ → ℕ → ℕ → ℕ → Bytes → Exec Download Bytes
  rounds spent zero id size received hashed = spent received hashed
  rounds spent (suc n) id size received hashed = do
    f ← downloading (on_input (read_frame lib.json))
    on_frame lib texts (rounds spent n id size) id size received hashed f

  receive_chunks-rounds :
      (spent : ℕ → Bytes → Exec Download Bytes) (fuel n id size received : ℕ) (hashed : Bytes)
      (d : Download)
      → length d.link.input.bytes < fuel
      → length d.link.input.bytes < 20 * n
      → receive_chunks lib texts fuel id size received hashed d
        ≡ rounds spent n id size received hashed d
  unfolding receive_chunks
  receive_chunks-rounds spent zero n id size received hashed d h k = absurd (omega arith)
  receive_chunks-rounds spent (suc fuel) zero id size received hashed d h k = absurd (omega arith)
  receive_chunks-rounds spent (suc fuel) (suc n) id size received hashed d h k =
      >>=-agree (downloading (on_input (read_frame lib.json))) _ _ d λ f d' p.
        let less = downloading-shorter d d' p in
        on_frame-agree (receive_chunks lib texts fuel id size) (rounds spent n id size) id size
          received hashed f d'
          λ m b e q.
            let same = ap (λ l. length l.input.bytes) q in
            receive_chunks-rounds spent fuel n id size m b e (omega arith) (omega arith)

  -- The loop over the frames of a body ends, whatever comes, within any number of rounds of which
  -- there are more than one for every 20 bytes of the input: its result is what so many rounds
  -- give, whatever action were put in behind the last of them, so that point is never reached.
  pub receive_stream-rounds :
      (spent : ℕ → Bytes → Exec Download Bytes) (id size n : ℕ) (d : Download)
      → length d.link.input.bytes < 20 * n
      → receive_stream lib texts id size d ≡ rounds spent n id size 0 [] d
  unfolding receive_stream
  receive_stream-rounds spent id size n d h =
      receive_chunks-rounds spent (suc (length d.link.input.bytes)) n id size 0 [] d (omega arith) h
