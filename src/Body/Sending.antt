-- ===== src/Body/Sending.antt =====
-- `sendBody` over a writer that takes all it is given.
use deep_protocol.Base.{
  ℕ, zero, suc, ◌+◌, ◌-◌, ◌≡◌, ◌≤◌, min, true, false, [], ◌∷◌, ◌++◌, append-nil, append_assoc,
  Bytes, length, take, drop, take-append-drop, leb, ltb, eof, Result, ok, arith,
}
use deep_protocol.Io.{Stream, Writer, read_full}
use deep_protocol.Json.{Json}
use deep_protocol.Frame.{MessageType, chunk, ending, max_chunk_size, send}
use deep_protocol.Frame.RoundTrip.{encode, IsFrame}
use deep_protocol.Frame.Sends.{write_frame-reliable}
use deep_protocol.Messages.{Library}
use deep_protocol.Body.Wire.{
  first_part, rest_part, data_frame, wire_chunks, Carries, part_bounds, data-IsFrame, end-IsFrame,
  wire,
}
use deep_protocol.Body.{
  Link, check_context, on_output, uploading, read_source, expect_eof, send_chunks, send_stream,
  send_body,
}

-- A writer that takes all, with what it has taken.
abbrev pub reliable : Bytes → Writer
reliable sent = record { sent = sent; answers = [] }

-- A link whose context is not cancelled.
abbrev pub quiet : Stream → Bytes → Link
quiet input sent = record { input = input; output = reliable sent; checks = [] }

-- A file with these bytes left.
abbrev pub file : Bytes → Stream
file r = record { bytes = r; fault = eof }

pub send-reliable :
    (json : Json) (kind : MessageType) (id : ℕ) (raw body sent : Bytes) {m : Result Bytes}
    → m ≡ ok raw
    → IsFrame json (record { kind = kind; request_id = id; metadata = raw; body = body })
    → send json kind id m body (reliable sent) ≡ (
      ok tt,
      reliable
          (sent ++ encode (record { kind = kind; request_id = id; metadata = raw; body = body })),
    )
unfolding send
send-reliable json kind id raw body sent e v = rw e (write_frame-reliable json _ sent v)

read_source-file :
    (message r : Bytes) (n : ℕ) (l : Link)
    → n ≤ length r
    → read_source message n (record { link = l; source = file r })
      ≡ (ok (take n r), record { link = l; source = file (drop n r) })
unfolding read_source read_full
read_source-file message r n l h = let e : leb n (length r) ≡ true = ground arith in rw e

module _ (lib : Library) (id : ℕ) (body : Bytes) (k : Carries lib id body) (input : Stream) where
  send_chunks-wire :
      (fuel : ℕ) (message : Bytes) (size total : ℕ) (hashed r sent : Bytes)
      → total + length r ≡ size
      → length r ≤ fuel
      → send_chunks lib fuel message id size total hashed
          (record { link = quiet input sent; source = file r })
        ≡ (
          ok (size, hashed ++ r),
          record {
            link = quiet input (sent ++ wire_chunks fuel id k.empty_encodes.raw r);
            source = file [];
          },
        )
  unfolding send_chunks wire_chunks uploading check_context on_output
  send_chunks-wire zero message size total hashed [] sent h b =
      let e : ltb total size ≡ false = ground arith in rw (e, append-nil, append-nil) (ground arith)
  send_chunks-wire zero message size total hashed (c ∷ cs) sent h b = absurd (omega arith)
  send_chunks-wire (suc fuel) message size total hashed [] sent h b =
      let e : ltb total size ≡ false = ground arith in
      rw (e, send_chunks, append-nil, append-nil) (ground arith)
  send_chunks-wire (suc fuel) message size total hashed (c ∷ cs) sent h b =
      let r : Bytes = c ∷ cs in
      let part = first_part r in
      let (lo, hi, sum) = part_bounds c cs in
      let more : ltb total size ≡ true = ground arith in
      let left_over : size - total ≡ length r = omega arith in
      let sent' = sent ++ encode (data_frame id k.empty_encodes.raw part) in
      let read =
        read_source-file message r (min max_chunk_size (length r)) (quiet input sent)
          (omega arith) in
      let put =
        send-reliable lib.json chunk id k.empty_encodes.raw part sent k.empty_encodes.marshaled
          (data-IsFrame lib id body k part lo hi) in
      let on =
        send_chunks-wire fuel message size (total + length part) (hashed ++ part) (rest_part r)
          sent' (omega arith) (omega arith) in
      rw
        (
          more,
          send_chunks,
          left_over,
          read,
          put,
          on,
          append_assoc hashed part (rest_part r),
          take-append-drop (min max_chunk_size (length r)) r,
        )
        (rw append_assoc)

  -- `sendBody`, or the loop of `transfer`, sends the frames of the body and uses up its file.
  pub send_stream-wire :
      (short long sent : Bytes)
      → send_stream lib short long id
          (length body)
          (record { link = quiet input sent; source = file body })
        ≡ (ok tt, record { link = quiet input (sent ++ wire lib id body k); source = file [] })
  unfolding send_stream expect_eof read_full uploading on_output
  send_stream-wire short long sent =
      let chunks = wire_chunks (length body) id k.empty_encodes.raw body in
      let loop =
        send_chunks-wire (length body) short (length body) 0 [] body sent (omega arith)
          (omega arith) in
      let last =
        send-reliable lib.json ending id k.end_encodes.raw [] (sent ++ chunks)
          k.end_encodes.marshaled (end-IsFrame lib id body k) in
      rw (loop, last, append_assoc)

  -- For a body and a request ID that the library's encodings carry, an uncancelled context and a
  -- writer that does not fail, sendBody sends the body's DATA frames and its END frame and uses up
  -- its file.
  pub send_body-wire :
      (sent : Bytes)
      → send_body lib id (length body) (record { link = quiet input sent; source = file body })
        ≡ (ok tt, record { link = quiet input (sent ++ wire lib id body k); source = file [] })
  unfolding send_body
  send_body-wire sent = send_stream-wire _ _ sent
