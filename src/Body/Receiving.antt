-- ===== src/Body/Receiving.antt =====
-- `receiveBody` on any input: how much it writes out, and what a digest stands for.
use deep_protocol.Base.{
  ℕ, zero, suc, ◌+◌, ◌≡◌, ◌≤◌, ◌≢◌, refl, sym, ap, ◌∙◌, inl, inr, true, [], ◌++◌, append-nil,
  append_assoc, Bytes, length, length-append, ◌==◌, Error, Result, ok, err, arith, Bool-cases,
}
use deep_protocol.Io.{Exec, ◌>>=◌, ◌>>◌, pure, lift, >>=-rule, lift-rule}
use deep_protocol.Frame
use deep_protocol.Frame.{Frame, chunk, ending, read_frame, write_all}
use deep_protocol.Frame.Sends.{write_all-Delivers}
use deep_protocol.Messages.{Library, expect, remote_error}
use deep_protocol.Body.{
  Link, Download, check_context, on_input, downloading, check_data, check_end, on_destination,
  on_frame, receive_chunks, receive_stream, receive_body, Texts, body_texts,
}

module _ (lib : Library) where
  -- From `received` bytes on, that were hashed as `hashed`: what the destination has got since.
  pub record Safe (size received : ℕ) (hashed : Bytes) (d : Download) (r : Result Bytes × Download)
      : Type 0 where
    pub got : Bytes
    pub written : r.1.destination.sent ≡ d.destination.sent ++ got
    pub bounded : received + length got ≤ size
    pub complete :
        (digest : Bytes)
        → r.0 ≡ ok digest
        → (received + length got ≡ size) × (digest ≡ lib.sha256 (hashed ++ got))

  ok-injective : {a b : Bytes} → ok a ≡ ok b → a ≡ b
  ok-injective e = cc

  fails :
      (size received : ℕ) (hashed : Bytes) (d d' : Download) (e : Error)
      → received ≤ size
      → d'.destination ≡ d.destination
      → Safe size received hashed d (err e, d')
  fails size received hashed d d' e h same = record {
    got = [];
    written = ap (λ w. w.sent) same ∙ sym (append-nil d.destination.sent);
    bounded = omega arith;
    complete = λ digest p. cc;
  }

  module _ (texts : Texts) where
    check_data-fits :
        (size received : ℕ) (f : Frame) {u : Unit {0}}
        → received ≤ size
        → check_data lib size received f ≡ ok u
        → received + length f.body ≤ size
    unfolding check_data
    check_data-fits size received f h e = ground arith

    check_end-agrees :
        (size received : ℕ) (hashed : Bytes) (f : Frame) {digest : Bytes}
        → check_end lib texts size received hashed f ≡ ok digest
        → (received ≡ size) × (digest ≡ lib.sha256 hashed)
    unfolding check_end
    check_end-agrees size received hashed f e = ground arith

    remote_error-fails : (f : Frame) {u : Unit {0}} → remote_error lib f ≢ ok u
    unfolding remote_error
    remote_error-fails f e = ground arith

    error_frame-fails :
        (f : Frame) (id : ℕ) {u : Unit {0}}
        → (f.kind == Frame.error) ≡ true
        → expect lib f ending id ≢ ok u
    unfolding expect
    error_frame-fails f id k e = ground (arith, remote_error-fails f {u = tt})

    partly_written :
        (size received : ℕ) (hashed body : Bytes) (d d' : Download) (e : Error)
        → received + length body ≤ size
        → on_destination lib body d ≡ (err e, d')
        → Safe size received hashed d (err e, d')
    unfolding on_destination
    partly_written size received hashed body d d' e h p =
        let w = write_all-Delivers body d.destination in
        record {
          got = w.taken;
          written = ap (λ r. r.1.destination.sent) (sym p) ∙ w.sent_is;
          bounded = omega (arith, ap length w.splits, length-append w.taken w.left_out);
          complete = λ digest q. cc;
        }

    whole_written :
        (body : Bytes) (d d' : Download) {u : Unit {0}}
        → on_destination lib body d ≡ (ok u, d')
        → d'.destination.sent ≡ d.destination.sent ++ body
    unfolding on_destination
    whole_written body d d' p =
        let w = write_all-Delivers body d.destination in
        let all_taken : body ≡ w.taken =
          w.splits ∙ rw (w.whole (ap (λ r. r.0) p)) (append-nil w.taken) in
        ap (λ r. r.1.destination.sent) (sym p) ∙ w.sent_is ∙ rw (← all_taken)

    -- What comes behind a DATA frame that was written out whole.
    Safe-then :
        (size received : ℕ) (hashed body : Bytes) (d d' : Download) (r : Result Bytes × Download)
        → d'.destination.sent ≡ d.destination.sent ++ body
        → Safe size (received + length body) (hashed ++ body) d' r
        → Safe size received hashed d r
    Safe-then size received hashed body d d' r same s = record {
      got = body ++ s.got;
      written = s.written ∙ ap (λ b. b ++ s.got) same ∙ append_assoc d.destination.sent body s.got;
      bounded = omega (arith, s.bounded, length-append body s.got);
      complete = λ digest q.
          let (full, same_hash) = s.complete digest q in
          (
            omega (arith, full, length-append body s.got),
            same_hash ∙ ap lib.sha256 (append_assoc hashed body s.got),
          );
    }

    finished :
        (size received : ℕ) (hashed digest : Bytes) (d d' : Download)
        → d'.destination ≡ d.destination
        → received ≡ size
        → digest ≡ lib.sha256 hashed
        → Safe size received hashed d (ok digest, d')
    finished size received hashed digest d d' same full agrees = record {
      got = [];
      written = ap (λ w. w.sent) same ∙ sym (append-nil d.destination.sent);
      bounded = omega arith;
      complete = λ other q.
          (omega arith, sym (ok-injective q) ∙ agrees ∙ ap lib.sha256 (sym (append-nil hashed)));
    }

    downloading-destination :
        {A : Type 0} (m : Exec Link A) (d d' : Download) {r : Result A}
        → downloading m d ≡ (r, d')
        → d'.destination ≡ d.destination
    unfolding downloading
    downloading-destination m d d' p = ap (λ r. r.1.destination) (sym p)

    module _ (go_on : ℕ → Bytes → Exec Download Bytes) (id size : ℕ)
        (safe : (received : ℕ) (hashed : Bytes) (d : Download)
          → received ≤ size
          → Safe size received hashed d (go_on received hashed d))
        (received : ℕ) (hashed : Bytes) (f : Frame) (d : Download) (h : received ≤ size) where
      data-Safe : Safe size received hashed d (
          (lift (check_data lib size received f)
              >> (on_destination lib f.body >> go_on (received + length f.body) (hashed ++ f.body)))
            d)
      data-Safe =
          lift-rule (Safe size received hashed d) (check_data lib size received f) _ d
            (λ e p. fails size received hashed d d e h refl)
            λ u p.
              let fits = check_data-fits size received f h p in
              >>=-rule (Safe size received hashed d) (on_destination lib f.body) _ d
                (λ e d' q. partly_written size received hashed f.body d d' e fits q)
                λ u' d' q.
                  Safe-then size received hashed f.body d d' _ (whole_written f.body d d' q)
                    (safe (received + length f.body) (hashed ++ f.body) d' fits)

      end-Safe : Safe size received hashed d (
          (lift (check_end lib texts size received hashed f) >>= λ digest.
          (downloading check_context >> pure digest))
            d)
      end-Safe =
          lift-rule (Safe size received hashed d) (check_end lib texts size received hashed f) _ d
            (λ e p. fails size received hashed d d e h refl)
            λ digest p.
              let (full, agrees) = check_end-agrees size received hashed f p in
              >>=-rule (Safe size received hashed d) (downloading check_context) _ d
                (λ e d' q.
                  fails size received hashed d d' e h
                    (downloading-destination check_context d d' q))
                λ u d' q.
                  finished size received hashed digest d d'
                    (downloading-destination check_context d d' q) full agrees

      error-Safe :
          (f.kind == Frame.error) ≡ true
          → Safe size received hashed d ((lift (expect lib f ending id) >> pure []) d)
      error-Safe k =
          lift-rule (Safe size received hashed d) (expect lib f ending id) _ d
            (λ e p. fails size received hashed d d e h refl)
            λ u p. absurd (error_frame-fails f id k p)

      on_frame-Safe :
          Safe size received hashed d (on_frame lib texts go_on id size received hashed f d)
      unfolding on_frame
      on_frame-Safe = elim (Bool-cases (f.request_id == id)) [
        | inr other ↦ rw (other, on_frame) (fails size received hashed d d _ h refl)
        | inl same ↦
            rw (same, on_frame)
              (elim (Bool-cases (f.kind == chunk)) [
                | inl k ↦ rw k data-Safe
                | inr not_data ↦ rw not_data (elim (Bool-cases (f.kind == ending)) [
                  | inl k ↦ rw k end-Safe
                  | inr not_end ↦ rw not_end (elim (Bool-cases (f.kind == Frame.error)) [
                    | inl k ↦ rw k (error-Safe k)
                    | inr not_error ↦ rw not_error (fails size received hashed d d _ h refl)
                  ])
                ])
              ])
      ]

    Safe-same :
        (size received : ℕ) (hashed : Bytes) (d d' : Download) (r : Result Bytes × Download)
        → d'.destination ≡ d.destination
        → Safe size received hashed d' r
        → Safe size received hashed d r
    Safe-same size received hashed d d' r same s = record {
      got = s.got;
      written = s.written ∙ ap (λ w. w.sent ++ s.got) same;
      bounded = s.bounded;
      complete = s.complete;
    }

    receive_chunks-Safe :
        (fuel id size received : ℕ) (hashed : Bytes) (d : Download)
        → received ≤ size
        → Safe size received hashed d (receive_chunks lib texts fuel id size received hashed d)
    unfolding receive_chunks
    receive_chunks-Safe zero id size received hashed d h = fails size received hashed d d _ h refl
    receive_chunks-Safe (suc fuel) id size received hashed d h =
        >>=-rule (Safe size received hashed d) (downloading (on_input (read_frame lib.json))) _ d
          (λ e d' p. fails size received hashed d d' e h (downloading-destination _ d d' p))
          λ f d' p. Safe-same size received hashed d d' _ (downloading-destination _ d d' p) (
            on_frame-Safe (receive_chunks lib texts fuel id size) id size
              (λ n b e k. receive_chunks-Safe fuel id size n b e k) received hashed f d' h)

    pub receive_stream-Safe :
        (id size : ℕ) (d : Download) → Safe size 0 [] d (receive_stream lib texts id size d)
    unfolding receive_stream
    receive_stream-Safe id size d =
        receive_chunks-Safe (suc (length d.link.input.bytes)) id size 0 [] d (omega arith)

  -- Whatever the peer sends, and whatever the destination and the context do, receiveBody writes
  -- out no more than the announced size; when it returns a digest, it has written out exactly so
  -- many bytes, and the digest is theirs.
  pub receive_body-Safe :
      (id size : ℕ) (d : Download) → Safe size 0 [] d (receive_body lib id size d)
  unfolding receive_body
  receive_body-Safe = receive_stream-Safe body_texts
