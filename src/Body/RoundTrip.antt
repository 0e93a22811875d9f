-- ===== src/Body/RoundTrip.antt =====
-- What `sendBody` puts out, `receiveBody` takes in.
use deep_protocol.Base.{
  ℕ, zero, suc, ◌+◌, ◌-◌, ◌≡◌, ◌≤◌, ◌<◌, min, refl, sym, ap, ◌∙◌, true, false, [], ◌∷◌, ◌++◌,
  append-nil, append_assoc, Bytes, length, length-append, take-append-drop, ltb, ◌==◌, equal_iff,
  Error, ok, arith,
}
use deep_protocol.Base.Int.{pos, eq_ℤ}
use deep_protocol.Io.{Exec, Stream}
use deep_protocol.Frame.{Frame, max_chunk_size, read_frame, write_header}
use deep_protocol.Frame.RoundTrip.{encode, IsFrame, read_frame-encode}
use deep_protocol.Frame.Sends.{write_all-reliable}
use deep_protocol.Messages.{Library, decode_empty, decode_end}
use deep_protocol.Body.Wire.{
  first_part, rest_part, data_frame, end_frame, wire_chunks, Carries, part_bounds, data-IsFrame,
  end-IsFrame, wire,
}
use deep_protocol.Body.Sending.{reliable, quiet, file, send_body-wire}
use deep_protocol.Body.{
  Download, check_context, on_input, downloading, check_data, check_end, on_destination, on_frame,
  receive_chunks, receive_stream, receive_body, Texts, body_texts, send_body,
}

-- A stream of these bytes.
abbrev pub stream : Bytes → Error → Stream
stream bytes fault = record { bytes = bytes; fault = fault }

module _ (lib : Library) (id : ℕ) (body : Bytes) (k : Carries lib id body) (fault : Error)
    (sent rest : Bytes) where
  -- A receiver with these bytes to come and these written out.
  abbrev pub receiver : Bytes → Bytes → Download
  receiver input written = record {
    link = quiet (stream input fault) sent;
    destination = reliable written;
  }

  read_frame-receiver :
      (f : Frame) (after written : Bytes)
      → IsFrame lib.json f
      → downloading (on_input (read_frame lib.json)) (receiver (encode f ++ after) written)
        ≡ (ok f, receiver after written)
  unfolding downloading on_input
  read_frame-receiver f after written v = rw (read_frame-encode lib.json f after fault v)

  decode_empty-ok :
      (part : Bytes) → decode_empty lib (data_frame id k.empty_encodes.raw part) ≡ ok tt
  unfolding decode_empty
  decode_empty-ok part = k.empty_encodes.read_back

  decode_end-ok :
      decode_end lib (end_frame id k.end_encodes.raw)
      ≡ ok (record { size = pos (length body); sha256 = lib.sha256 body })
  unfolding decode_end
  decode_end-ok = k.end_encodes.read_back

  check_data-ok :
      (size received : ℕ) (part : Bytes)
      → received + length part ≤ size
      → check_data lib size received (data_frame id k.empty_encodes.raw part) ≡ ok tt
  unfolding check_data
  check_data-ok size received part h =
      let e : ltb (size - received) (length part) ≡ false = ground arith in
      rw (decode_empty-ok part, check_data, e)

  module _ (texts : Texts) where
    check_end-ok :
        check_end lib texts (length body) (length body) body (end_frame id k.end_encodes.raw)
        ≡ ok (lib.sha256 body)
    unfolding check_end
    check_end-ok =
        let e : (length body == length body) ≡ true = ground arith in
        let i : eq_ℤ (pos (length body)) (pos (length body)) ≡ true = ground arith in
        rw (decode_end-ok, check_end, e, i, (equal_iff (lib.sha256 body) (lib.sha256 body)).1 refl)

    on_destination-ok :
        (input written part : Bytes)
        → on_destination lib part (receiver input written)
          ≡ (ok tt, receiver input (written ++ part))
    unfolding on_destination
    on_destination-ok input written part = rw (write_all-reliable written part)

    on_data :
        (go_on : ℕ → Bytes → Exec Download Bytes) (size received : ℕ)
        (hashed part input written : Bytes)
        → received + length part ≤ size
        → on_frame lib texts go_on id size received hashed
            (data_frame id k.empty_encodes.raw part)
            (receiver input written)
          ≡ go_on (received + length part) (hashed ++ part) (receiver input (written ++ part))
    unfolding on_frame
    on_data go_on size received hashed part input written h =
        let e : (id == id) ≡ true = ground arith in
        rw (e, on_frame, check_data-ok size received part h, on_destination-ok input written part)

    on_end :
        (go_on : ℕ → Bytes → Exec Download Bytes) (input written : Bytes)
        → on_frame lib texts go_on id
            (length body)
            (length body)
            body
            (end_frame id k.end_encodes.raw)
            (receiver input written)
          ≡ (ok (lib.sha256 body), receiver input written)
    unfolding on_frame downloading check_context
    on_end go_on input written =
        let e : (id == id) ≡ true = ground arith in rw (e, on_frame, check_end-ok)

    receive_end :
        (more received : ℕ) (hashed written : Bytes)
        → hashed ≡ body
        → received ≡ length body
        → receive_chunks lib texts
            (suc more)
            id
            (length body)
            received
            hashed
            (receiver (encode (end_frame id k.end_encodes.raw) ++ rest) written)
          ≡ (ok (lib.sha256 body), receiver rest (written ++ []))
    unfolding receive_chunks
    receive_end more received hashed written h n = rw (
      h,
      n,
      append-nil written,
      read_frame-receiver (end_frame id k.end_encodes.raw) rest written (end-IsFrame lib id body k),
      on_end (receive_chunks lib texts more id (length body)) rest written,
    )

    receive_data :
        (more received : ℕ) (hashed part after written : Bytes)
        → 1 ≤ length part
        → length part ≤ max_chunk_size
        → received + length part ≤ length body
        → receive_chunks lib texts
            (suc more)
            id
            (length body)
            received
            hashed
            (receiver (encode (data_frame id k.empty_encodes.raw part) ++ after) written)
          ≡ receive_chunks lib texts more id
              (length body)
              (received + length part)
              (hashed ++ part)
              (receiver after (written ++ part))
    unfolding receive_chunks
    receive_data more received hashed part after written lo hi fits = rw (
      read_frame-receiver (data_frame id k.empty_encodes.raw part) after written
          (data-IsFrame lib id body k part lo hi),
      on_data (receive_chunks lib texts more id (length body)) (length body) received hashed part
          after written fits,
    )

    receive_chunks-wire :
        (fuel more received : ℕ) (hashed r written : Bytes)
        → hashed ++ r ≡ body
        → received ≡ length hashed
        → length r ≤ fuel
        → length r < more
        → receive_chunks lib texts more id (length body) received hashed (
            receiver
              (wire_chunks fuel id k.empty_encodes.raw r
                ++ (encode (end_frame id k.end_encodes.raw) ++ rest))
              written)
          ≡ (ok (lib.sha256 body), receiver rest (written ++ r))
    unfolding wire_chunks
    receive_chunks-wire fuel zero received hashed r written h n b m = absurd (omega arith)
    receive_chunks-wire zero (suc more) received hashed [] written h n b m =
        let e = sym (append-nil hashed) ∙ h in
        receive_end more received hashed written e (n ∙ ap length e)
    receive_chunks-wire zero (suc more) received hashed (c ∷ cs) written h n b m =
        absurd (omega arith)
    receive_chunks-wire (suc fuel) (suc more) received hashed [] written h n b m =
        let e = sym (append-nil hashed) ∙ h in
        receive_end more received hashed written e (n ∙ ap length e)
    receive_chunks-wire (suc fuel) (suc more) received hashed (c ∷ cs) written h n b m =
        let r = c ∷ cs in
        let part = first_part r in
        let (lo, hi, sum) = part_bounds c cs in
        let whole = take-append-drop (min max_chunk_size (length r)) r in
        let total = sym (ap length h) ∙ length-append hashed r in
        let after = encode (end_frame id k.end_encodes.raw) ++ rest in
        let tail = wire_chunks fuel id k.empty_encodes.raw (rest_part r) ++ after in
        let step = receive_data more received hashed part tail written lo hi (omega arith) in
        let next =
          receive_chunks-wire fuel more (received + length part) (hashed ++ part) (rest_part r)
            (written ++ part)
            (append_assoc hashed part (rest_part r) ∙ ap (λ x. hashed ++ x) whole ∙ h)
            (ap (λ x. x + length part) n ∙ sym (length-append hashed part)) (omega arith)
            (omega arith) in
        rw (append_assoc (encode (data_frame id k.empty_encodes.raw part)))
          (step ∙ next ∙ rw (append_assoc written part (rest_part r), whole))

    length-wire_chunks :
        (fuel : ℕ) (r : Bytes)
        → length r ≤ fuel
        → length r ≤ length (wire_chunks fuel id k.empty_encodes.raw r)
    unfolding wire_chunks
    length-wire_chunks fuel [] b = omega arith
    length-wire_chunks zero (c ∷ cs) b = absurd (omega arith)
    length-wire_chunks (suc fuel) (c ∷ cs) b =
        let r = c ∷ cs in
        let (lo, hi, sum) = part_bounds c cs in
        let next = length-wire_chunks fuel (rest_part r) (omega arith) in
        let put = data_frame id k.empty_encodes.raw (first_part r) in
        let header = length-append (write_header put) (put.metadata ++ put.body) in
        omega (
          arith,
          header,
          length-append put.metadata put.body,
          length-append (encode put) (wire_chunks fuel id k.empty_encodes.raw (rest_part r)),
        )

    -- `receiveBody`, or the loop of `Fetch`, reads the frames of `body` back: it returns the digest, has written the body
    -- and has taken its frames from the input, and no more.
    pub receive_stream-wire :
        (written : Bytes)
        → receive_stream lib texts id (length body) (receiver (wire lib id body k ++ rest) written)
          ≡ (ok (lib.sha256 body), receiver rest (written ++ body))
    unfolding receive_stream
    receive_stream-wire written =
        let raw = k.empty_encodes.raw in
        let sent = wire_chunks (length body) id raw body in
        let last = encode (end_frame id k.end_encodes.raw) in
        let long = length-wire_chunks (length body) body (omega arith) in
        let split = append_assoc sent last rest in
        let total = length-append sent (last ++ rest) in
        rw split (
          receive_chunks-wire (length body) (suc (length (sent ++ (last ++ rest)))) 0 [] body
            written refl refl (omega arith) (omega arith))

  -- For a body and a request ID that the library's encodings carry, an uncancelled context and
  -- writers that do not fail, sendBody succeeds, and receiveBody on what it has sent, with any
  -- bytes behind, returns the digest, has written the body to its destination, and leaves the
  -- bytes behind unread.
  pub receive_body-send_body :
      (input : Stream) (written : Bytes)
      → ((send_body lib id (length body) (record { link = quiet input []; source = file body })).0
          ≡ ok tt)
        × (receive_body lib id (length body) (
              receiver
                ((send_body lib id
                    (length body)
                    (record { link = quiet input []; source = file body })).1.link.output.sent
                  ++ rest)
                written)
            ≡ (ok (lib.sha256 body), receiver rest (written ++ body)))
  unfolding receive_body
  receive_body-send_body input written =
      let e = send_body-wire lib id body k input [] in
      (ap (λ r. r.0) e, rw e (receive_stream-wire body_texts written))
