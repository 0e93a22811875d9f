-- ===== src/Client/Fetching.antt =====
-- `Fetch`: what it leaves, whatever the server sends.
use deep_protocol.Base.{◌∙◌, ◌≡◌, ◌≤◌, sym, ap, subst, true, false, Bytes, ok, arith}
use deep_protocol.Base.Int.{ℤ, pos_part, is_negative}
use deep_protocol.Io.Keeps.{keep-then, check-then}
use deep_protocol.Uri.{Uri}
use deep_protocol.Frame
use deep_protocol.Messages.{Library, ResponseMetadata, validate_media_type, decode_response}
use deep_protocol.Client.{
  Session, Transfer, Fetched, on_session, ask, next_frame, check_response, within_limit,
  fetch_texts, fetch_resource, fetch_to,
}
use deep_protocol.Client.Along.{
  Within, within, on_session-Within, ready-Along, next_frame-Along, ask-Along, within_limit-Along,
}
use deep_protocol.Client.Outcomes.{
  Outcome, Announced, weaken-Outcome, outcome, fitting, collect-Outcome, settled-Outcome,
}

-- What `Fetch` answers has a media type.
abbrev pub Typed : Fetched → Type 0
Typed x = validate_media_type x.media_type ≡ true

module _ (lib : Library) where
  check_response_sound :
      (m : ResponseMetadata)
      → check_response lib m ≡ ok tt
      → (validate_media_type m.media_type ≡ true) × (is_negative m.size ≡ false)
  unfolding check_response
  check_response_sound m h = (ground (arith, h), ground (arith, h))

  within_limit_sound :
      (size : ℤ) (s t : Session)
      → within_limit lib size s ≡ (ok tt, t)
      → pos_part size ≤ pos_part s.max_bytes
  unfolding within_limit
  within_limit_sound size s t h = fitting lib size s.max_bytes (ground (arith, ap (λ r. r.0) h))

  pub on_session-small :
      (size : ℤ) (v w : Transfer)
      → Within v w
      → on_session (within_limit lib size) v ≡ (ok tt, w)
      → pos_part size ≤ pos_part w.session.max_bytes
  unfolding on_session
  on_session-small size v w k h =
      subst (λ n. pos_part size ≤ pos_part n) (sym k.session_along.limit_is)
        (within_limit_sound size v.session w.session (ap (λ r. (r.0, r.1.session)) h))

  fetch_resource-Outcome :
      (uri : Uri) (t : Transfer) → Outcome lib (λ x. x) Typed t (fetch_resource lib uri t)
  unfolding fetch_resource
  fetch_resource-Outcome uri t =
      keep-then within (outcome lib) (on_session (ask lib uri "FETCH")) _ t
        (on_session-Within _ (ask-Along lib uri "FETCH"))
        λ id u _ _.
          keep-then within (outcome lib) (on_session (next_frame lib Frame.response id)) _ u
            (on_session-Within _ (next_frame-Along lib Frame.response id))
            λ f v _ _. check-then within (outcome lib) (decode_response lib f) _ v λ m _.
              check-then within (outcome lib) (check_response lib m) _ v λ _ c.
                keep-then within (outcome lib) (on_session (within_limit lib m.size)) _ v
                  (on_session-Within _ (within_limit-Along lib m.size))
                  λ _ w k h.
                    weaken-Outcome lib (Announced lib m.media_type (pos_part m.size)) Typed w _
                      (λ x (media, _). ap validate_media_type media ∙ (check_response_sound m c).0)
                      (collect-Outcome lib fetch_texts id m.media_type m.size w
                        (on_session-small m.size v w k h))

  -- Whatever the server sends, and whatever the destination, the deadlines and the context do,
  -- Fetch writes out no more than the session's limit; when it succeeds, it has written out
  -- exactly the bytes that its result tells of, by size and digest, the media type is valid, and
  -- the session is still as open as it was.
  pub fetch_to-Outcome :
      (value : Bytes) (t : Transfer) → Outcome lib (λ x. x) Typed t (fetch_to lib value t)
  unfolding fetch_to
  fetch_to-Outcome value t =
      settled-Outcome lib (fetch_resource lib) _ t (ready-Along _ _ value) fetch_resource-Outcome
