-- ===== src/Frame/Sends.antt =====
-- `WriteFrame` on any writer, and on one that takes all it is given.
use deep_protocol.Base.{
  ◌%◌, ◌^◌, ◌≡◌, ◌≤◌, ◌<◌, refl, sym, ap, ◌∙◌, inl, inr, Bool, true, false, ◌||◌, [], ◌∷◌, ◌++◌,
  append-nil, append_assoc, Bytes, length, ltb, Error, Result, ok, err, protocol, arith, Bool-cases,
  check-cases,
}
use deep_protocol.Io.{Exec, continue, Writer, ◌>>◌}
use deep_protocol.Json.{Json, validate_json, max_metadata_size}
use deep_protocol.Frame.RoundTrip.{encode, IsFrame, validate_header-HeaderBounds}
use deep_protocol.Frame.Write.{Delivers, write_all_to-Delivers}
use deep_protocol.Frame.{
  Frame, write_all_to, write_all, write_frame, write_header, validate_header, max_chunk_size,
}

-- Whatever the writer answers, writeAll has sent a part at the front of its bytes, and all of them
-- when it reports no error.
pub write_all-Delivers : (bytes : Bytes) (w : Writer) → Delivers w.sent bytes (write_all bytes w)
unfolding write_all
write_all-Delivers bytes w = write_all_to-Delivers w.answers w.sent bytes

-- One delivery after another, the second only if the first came to its end.
Delivers-bind :
    (before a b : Bytes) (r : Result (Unit {0}) × Writer) (k : Exec Writer (Unit {0}))
    → Delivers before a r
    → ((w : Writer) → Delivers w.sent b (k w))
    → Delivers before (a ++ b) (continue r.0 (λ _. k) r.1)
Delivers-bind before a b (ok u, w) k d then_b =
    let e = then_b w in
    let all_taken : a ≡ d.taken = d.splits ∙ rw (d.whole refl) (append-nil d.taken) in
    record {
      taken = a ++ e.taken;
      left_out = e.left_out;
      splits = ap (◌++◌ a) e.splits ∙ sym (append_assoc a e.taken e.left_out);
      sent_is =
          e.sent_is
          ∙ ap (λ s. s ++ e.taken) d.sent_is
          ∙ append_assoc before d.taken e.taken
          ∙ rw (← all_taken);
      whole = e.whole;
    }
Delivers-bind before a b (err x, w) k d then_b = record {
  taken = d.taken;
  left_out = d.left_out ++ b;
  splits = ap (λ s. s ++ b) d.splits ∙ append_assoc d.taken d.left_out b;
  sent_is = d.sent_is;
  whole = λ h. cc;
}

err-ne-ok : {r : Result (Unit {0})} {e : Error} → r ≡ err e → r ≡ ok tt → ⊥
err-ne-ok p q = cc

pub write_all-reliable :
    (sent bytes : Bytes)
    → write_all bytes (record { sent = sent; answers = [] })
      ≡ (ok tt, record { sent = sent ++ bytes; answers = [] })
unfolding write_all write_all_to
write_all-reliable sent [] = rw append-nil
write_all-reliable sent (c ∷ cs) = refl

module _ (json : Json) where
  -- The three writes of `WriteFrame`.
  abbrev put : Frame → Exec Writer (Unit {0})
  put f = write_all (write_header f) >> (write_all f.metadata >> write_all f.body)

  put-Delivers : (f : Frame) (w : Writer) → Delivers w.sent (encode f) (put f w)
  put-Delivers f w =
      Delivers-bind w.sent (write_header f) (f.metadata ++ f.body) (write_all (write_header f) w)
        (write_all f.metadata >> write_all f.body) (write_all-Delivers (write_header f) w)
        λ w'.
          Delivers-bind w'.sent f.metadata f.body (write_all f.metadata w') (write_all f.body)
            (write_all-Delivers f.metadata w') (write_all-Delivers f.body)

  write_frame-IsFrame : (f : Frame) (w : Writer) → IsFrame json f → write_frame json f w ≡ put f w
  unfolding write_frame
  write_frame-IsFrame f w v =
      let b =
        validate_header-HeaderBounds f.kind f.request_id (length f.metadata) (length f.body)
          v.header_valid in
      let small : (ltb max_metadata_size (length f.metadata) || ltb max_chunk_size (length f.body))
          ≡ false =
        ground arith in
      let m : length f.metadata % 2 ^ 32 ≡ length f.metadata = omega arith in
      let c : length f.body % 2 ^ 32 ≡ length f.body = omega arith in
      rw (small, m, c, v.header_valid, v.metadata_valid)

  -- What a call of `WriteFrame` does.
  pub data Writes (f : Frame) (w : Writer) : Type 0 where
    -- The frame is in order, and it or a part at its front is sent.
    sends : IsFrame json f → Delivers w.sent (encode f) (write_frame json f w) → Writes f w
    -- The frame is refused and nothing is sent.
    refuses : ¬ IsFrame json f → (e : Error) → write_frame json f w ≡ (err e, w) → Writes f w

  abbrev too_long : Frame → Bool
  too_long f = ltb max_metadata_size (length f.metadata) || ltb max_chunk_size (length f.body)

  refuses_long : (f : Frame) (w : Writer) → too_long f ≡ true → Writes f w
  unfolding write_frame
  refuses_long f w l = refuses (λ v. not_long v) (protocol "frame size limit exceeded") (rw l)
    where
      not_long : IsFrame json f → ⊥
      not_long v =
          let b =
            validate_header-HeaderBounds f.kind f.request_id (length f.metadata) (length f.body)
              v.header_valid in
          ground arith

  module _ (f : Frame) (w : Writer) (fits : too_long f ≡ false) where
    meta_mod : length f.metadata % 2 ^ 32 ≡ length f.metadata
    meta_mod = let h : length f.metadata ≤ max_metadata_size = ground arith in omega arith

    body_mod : length f.body % 2 ^ 32 ≡ length f.body
    body_mod = let h : length f.body ≤ max_chunk_size = ground arith in omega arith

    refuses_header :
        (e : Error)
        → validate_header f.kind f.request_id (length f.metadata) (length f.body) ≡ err e
        → Writes f w
    unfolding write_frame
    refuses_header e h =
        refuses (λ v. absurd (err-ne-ok h v.header_valid)) e (rw (fits, meta_mod, body_mod, h))

    refuses_metadata :
        (e : Error)
        → validate_header f.kind f.request_id (length f.metadata) (length f.body) ≡ ok tt
        → validate_json json f.metadata ≡ err e
        → Writes f w
    unfolding write_frame
    refuses_metadata e h m =
        refuses (λ v. absurd (err-ne-ok m v.metadata_valid)) e (rw (fits, meta_mod, body_mod, h, m))

  -- For every frame with a 32-bit request ID and every writer, WriteFrame either accepts a frame
  -- of the protocol and sends its encoding, or a part at its front if it returns an error, or
  -- refuses any other frame and sends nothing.
  pub write_frame-Writes : (f : Frame) (w : Writer) → f.request_id < 2 ^ 32 → Writes f w
  write_frame-Writes f w id_fits = elim (Bool-cases (too_long f)) [
    | inl l ↦ refuses_long f w l
    | inr fits ↦
        elim (check-cases
          (validate_header f.kind f.request_id (length f.metadata) (length f.body))) [
            | inr (e, h) ↦ refuses_header f w fits e h
            | inl h ↦ elim (check-cases (validate_json json f.metadata)) [
              | inr (e, m) ↦ refuses_metadata f w fits e h m
              | inl m ↦
                  let v : IsFrame json f = record {
                    id_fits = id_fits;
                    header_valid = h;
                    metadata_valid = m;
                  } in
                  sends v (rw (write_frame-IsFrame f w v) (put-Delivers f w))
            ]
          ]
  ]

  -- A writer that takes all it is given has the whole frame behind what it had.
  pub write_frame-reliable :
      (f : Frame) (sent : Bytes)
      → IsFrame json f
      → write_frame json f (record { sent = sent; answers = [] })
        ≡ (ok tt, record { sent = sent ++ encode f; answers = [] })
  write_frame-reliable f sent v =
      write_frame-IsFrame f _ v
      ∙ rw (write_all-reliable, write_all-reliable, write_all-reliable, append_assoc, append_assoc)
