-- ===== src/Client/Exchanging.antt =====
-- `Exchange`: what it leaves, whatever the server sends.
use deep_protocol.Base.{
  ℕ, ◌≡◌, ◌≤◌, refl, sym, ap, ◌∙◌, subst, Bool, true, false, not, ◌&&◌, ◌||◌, Bytes, equal, codes,
  ok, arith, ◌⊎◌, inl, inr, reject_if-passed,
}
use deep_protocol.Base.Int.{ℤ, pos, negsuc, pos_part, is_negative, ltb_ℤ, eq_ℤ}
use deep_protocol.Io.Keeps.{Keeps, >>=-Keeps, lift->>=-Keeps, keep-then, check-then}
use deep_protocol.Uri.{Uri}
use deep_protocol.Frame
use deep_protocol.Messages.{
  Library, ApplicationResponseMetadata, validate_media_type, decode_application_response,
}
use deep_protocol.Body.{body_texts}
use deep_protocol.Application.{ApplicationRequest, validate_headers, max_response_bytes}
use deep_protocol.Client.{Session, Transfer, Fetched, on_link, on_session, ask, next_frame, collect}
use deep_protocol.Client.Along.{
  along, within, on_link-Along, on_session-Within, ready-Along, next_frame-Along, ask-Along,
}
use deep_protocol.Client.Outcomes.{
  Outcome, Announced, outcome, pure-Outcome, collect-Outcome, settled-Outcome,
}
use deep_protocol.Client.Exchange.{
  Exchanged, check_continue, announce, submit, min_limit, bad_answer, check_answer, check_head,
  exchange_request, check_outgoing, exchange_to,
}

-- An answer as the client hands it on: its status, its type, its headers and its size.
pub record Answered (method : Bytes) (x : Exchanged) : Type 0 where
  pub status : ℕ
  pub status_is : x.status ≡ pos status
  pub status_from : 200 ≤ status
  pub status_to : status ≤ 599
  pub media_type_valid : validate_media_type x.fetched.media_type ≡ true
  pub headers_valid : validate_headers x.headers ≡ ok tt
  pub small : x.fetched.size ≤ max_response_bytes
  pub no_head_body : (equal method (codes "HEAD") ≡ false) ⊎ (x.fetched.size ≡ 0)

module _ (lib : Library) where
  submit-Along : (id : ℕ) (q : ApplicationRequest) → Keeps along (submit lib id q)
  unfolding submit
  submit-Along id q =
      >>=-Keeps along (next_frame lib Frame.proceed id) _ (next_frame-Along lib Frame.proceed id)
        λ f. lift->>=-Keeps along (check_continue lib f) _ λ _.
          >>=-Keeps along (on_link (announce lib id q)) _ (on_link-Along (announce lib id q))
            λ _. on_link-Along _

  check_answer-Along : (m : ApplicationResponseMetadata) → Keeps along (check_answer lib m)
  unfolding check_answer
  check_answer-Along m s = along.same s

  -- What the checks of an answer say of it.
  record Fits (m : ApplicationResponseMetadata) (s : Session) : Type 0 where
    status : ℕ
    status_is : m.status ≡ pos status
    status_from : 200 ≤ status
    status_to : status ≤ 599
    media_type_valid : validate_media_type m.media_type ≡ true
    small : pos_part m.size ≤ max_response_bytes
    limited : pos_part m.size ≤ pos_part s.max_bytes

  none_of_five :
      (a b c d e : Bool)
      → a || b || c || d || e ≡ false
      → (a ≡ false) × (b ≡ false) × (c ≡ false) × (e ≡ false)
  none_of_five false false false false e h = (refl, refl, refl, h)
  none_of_five false false false true e h = cc
  none_of_five false false true d e h = cc
  none_of_five false true c d e h = cc
  none_of_five true b c d e h = cc

  min_limit-small :
      (size limit : ℤ)
      → ltb_ℤ (min_limit limit) size ≡ false
      → (pos_part size ≤ max_response_bytes) × (pos_part size ≤ pos_part limit)
  min_limit-small (pos n) (pos k) h = (ground (arith, h), ground (arith, h))
  min_limit-small (pos n) (negsuc k) h = (ground (arith, h), ground (arith, h))
  min_limit-small (negsuc n) limit h = (omega arith, omega arith)

  in_range :
      (status : ℤ)
      → ltb_ℤ status (pos 200) ≡ false
      → ltb_ℤ (pos 599) status ≡ false
      → (n : ℕ) × (status ≡ pos n) × (200 ≤ n) × (n ≤ 599)
  in_range (pos n) h k = (n, refl, ground (arith, h), ground (arith, k))
  in_range (negsuc n) h k = absurd (ground (arith, h))

  check_answer-Fits :
      (m : ApplicationResponseMetadata) (s t : Session)
      → check_answer lib m s ≡ (ok tt, t)
      → Fits m s
  unfolding check_answer
  check_answer-Fits m s t h =
      let (a, b, c, d) =
        none_of_five (ltb_ℤ m.status (pos 200)) (ltb_ℤ (pos 599) m.status)
          (not (validate_media_type m.media_type)) (is_negative m.size)
          (ltb_ℤ (min_limit s.max_bytes) m.size)
          (reject_if-passed (bad_answer m s.max_bytes) _ (ap (λ r. r.0) h)) in
      let (n, is, low, high) = in_range m.status a b in
      let (small, limited) = min_limit-small m.size s.max_bytes d in
      record {
        status = n;
        status_is = is;
        status_from = low;
        status_to = high;
        media_type_valid = ground (arith, c);
        small = small;
        limited = limited;
      }

  check_head_sound :
      (q : ApplicationRequest) (m : ApplicationResponseMetadata)
      → check_head lib q m ≡ ok tt
      → (equal q.method (codes "HEAD") ≡ false) ⊎ (pos_part m.size ≡ 0)
  unfolding check_head
  check_head_sound q m h =
      go (equal q.method (codes "HEAD")) m.size
        (reject_if-passed (equal q.method (codes "HEAD") && not (eq_ℤ m.size (pos 0))) _ h)
    where
      go :
          (b : Bool) (size : ℤ)
          → b && not (eq_ℤ size (pos 0)) ≡ false
          → (b ≡ false) ⊎ (pos_part size ≡ 0)
      go false size h = inl refl
      go true (pos n) h = inr (ground (arith, h))
      go true (negsuc n) h = inr refl

  on_session-Fits :
      (m : ApplicationResponseMetadata) (w x : Transfer)
      → on_session (check_answer lib m) w ≡ (ok tt, x)
      → Fits m w.session
  unfolding on_session
  on_session-Fits m w x h = check_answer-Fits m w.session x.session (ap (λ r. (r.0, r.1.session)) h)

  answered :
      (q : ApplicationRequest) (m : ApplicationResponseMetadata) (s : Session)
      → Fits m s
      → check_head lib q m ≡ ok tt
      → validate_headers m.headers ≡ ok tt
      → (x : Fetched) → Announced lib m.media_type (pos_part m.size) x
      → Answered q.method (record { fetched = x; status = m.status; headers = m.headers })
  answered q m s f c v x (media, size) = record {
    status = f.status;
    status_is = f.status_is;
    status_from = f.status_from;
    status_to = f.status_to;
    media_type_valid = ap validate_media_type media ∙ f.media_type_valid;
    headers_valid = v;
    small = subst (λ n. n ≤ max_response_bytes) (sym size) f.small;
    no_head_body =
        subst (λ n. (equal q.method (codes "HEAD") ≡ false) ⊎ (n ≡ 0)) (sym size)
          (check_head_sound q m c);
  }

  exchange_request-Outcome :
      (q : ApplicationRequest) (uri : Uri) (t : Transfer)
      → Outcome lib (λ x. x.fetched) (Answered q.method) t (exchange_request lib q uri t)
  unfolding exchange_request
  exchange_request-Outcome q uri t =
      keep-then within (outcome lib) (on_session (ask lib uri "EXCHANGE")) _ t
        (on_session-Within _ (ask-Along lib uri "EXCHANGE"))
        λ id u _ _.
          keep-then within (outcome lib) (on_session (submit lib id q)) _ u
            (on_session-Within _ (submit-Along id q))
            λ _ v _ _.
              keep-then within (outcome lib) (on_session (next_frame lib Frame.response id)) _ v
                (on_session-Within _ (next_frame-Along lib Frame.response id))
                λ f w _ _.
                  check-then within (outcome lib) (decode_application_response lib f) _ w λ m _.
                    keep-then within (outcome lib) (on_session (check_answer lib m)) _ w
                      (on_session-Within _ (check_answer-Along m))
                      λ _ x k h. check-then within (outcome lib) (check_head lib q m) _ x λ _ c.
                        check-then within (outcome lib) (validate_headers m.headers) _ x λ _ v.
                          pure-Outcome lib (λ y. y.fetched) (Answered q.method)
                            (λ y. record { fetched = y; status = m.status; headers = m.headers })
                            (collect lib body_texts id m.media_type m.size) x
                            (answered q m w.session (on_session-Fits m w x h) c v) (λ y. refl)
                            (collect-Outcome lib body_texts id m.media_type m.size x (
                              subst (λ n. pos_part m.size ≤ pos_part n)
                                (sym k.session_along.limit_is) (on_session-Fits m w x h).limited))

  -- Whatever the server sends, and whatever the destination, the deadlines and the context do,
  -- Exchange writes out no more than the session's limit; when it succeeds, it has written out
  -- exactly the bytes that its result tells of, the status is 200 to 599, the media type and the
  -- headers are valid, the body is within the limit of responses, and there is none for HEAD.
  pub exchange_to-Outcome :
      (q : ApplicationRequest) (value : Bytes) (t : Transfer)
      → Outcome lib (λ x. x.fetched) (Answered q.method) t (exchange_to lib q value t)
  unfolding exchange_to
  exchange_to-Outcome q value t = check-then within (outcome lib) (check_outgoing lib q) _ t λ _ _.
      settled-Outcome lib (exchange_request lib q) _ t (ready-Along _ _ value)
        (exchange_request-Outcome q)
