-- ===== src/Client/Along.antt =====
-- What the messages of a request leave of a session, whatever comes of them.
use deep_protocol.Base.{ℕ, ◌≡◌, refl, ◌∙◌, Bytes, String}
use deep_protocol.Base.Int.{ℤ}
use deep_protocol.Io.{Exec}
use deep_protocol.Io.Keeps.{Preorder, Keeps, >>=-Keeps, lift->>=-Keeps}
use deep_protocol.Uri.{Uri}
use deep_protocol.Frame
use deep_protocol.Messages.{Library}
use deep_protocol.Body.{Link, check_context}
use deep_protocol.Client.{
  Session, Transfer, on_link, on_session, set_deadline, take_id, ask, next_frame, within_limit,
  ready, check_usable, check_ids,
}

-- What the messages of a request leave of a session: all but the link, the deadlines and the IDs.
pub record Along (s t : Session) : Type 0 where
  pub authority_is : t.authority ≡ s.authority
  pub limit_is : t.max_bytes ≡ s.max_bytes
  pub lock_is : t.locked ≡ s.locked
  pub closed_is : t.is_closed ≡ s.is_closed
  pub security_is : t.security ≡ s.security

pub along : Preorder Along
along = record {
  same = λ s. record {
    authority_is = refl;
    limit_is = refl;
    lock_is = refl;
    closed_is = refl;
    security_is = refl;
  };
  both = λ s t u a b. record {
    authority_is = b.authority_is ∙ a.authority_is;
    limit_is = b.limit_is ∙ a.limit_is;
    lock_is = b.lock_is ∙ a.lock_is;
    closed_is = b.closed_is ∙ a.closed_is;
    security_is = b.security_is ∙ a.security_is;
  };
}

pub on_link-Along : {A : Type 0} (m : Exec Link A) → Keeps along (on_link m)
unfolding on_link
on_link-Along m s = record {
  authority_is = refl;
  limit_is = refl;
  lock_is = refl;
  closed_is = refl;
  security_is = refl;
}

pub set_deadline-Along : Keeps along set_deadline
unfolding set_deadline
set_deadline-Along s = record {
  authority_is = refl;
  limit_is = refl;
  lock_is = refl;
  closed_is = refl;
  security_is = refl;
}

pub take_id-Along : Keeps along take_id
unfolding take_id
take_id-Along s = record {
  authority_is = refl;
  limit_is = refl;
  lock_is = refl;
  closed_is = refl;
  security_is = refl;
}

-- A session in a transfer whose destination has got nothing yet.
pub record Within (t u : Transfer) : Type 0 where
  pub session_along : Along t.session u.session
  pub destination_is : u.destination ≡ t.destination

pub within : Preorder Within
within = record {
  same = λ t. record { session_along = along.same t.session; destination_is = refl };
  both = λ t u v a b. record {
    session_along = along.both t.session u.session v.session a.session_along b.session_along;
    destination_is = b.destination_is ∙ a.destination_is;
  };
}

pub on_session-Within :
    {A : Type 0} (m : Exec Session A) → Keeps along m → Keeps within (on_session m)
unfolding on_session
on_session-Within m k t = record { session_along = k t.session; destination_is = refl }

check_usable-Along : (busy : String) (value : Bytes) → Keeps along (check_usable busy value)
unfolding check_usable
check_usable-Along busy value s = along.same s

check_ids-Along : (exhausted : String) → Keeps along (check_ids exhausted)
unfolding check_ids
check_ids-Along exhausted s = along.same s

pub ready-Along :
    (busy exhausted : String) (value : Bytes) → Keeps along (ready busy exhausted value)
unfolding ready
ready-Along busy exhausted value =
    >>=-Keeps along (check_usable busy value) _ (check_usable-Along busy value) λ uri.
      >>=-Keeps along (on_link check_context) _ (on_link-Along check_context)
        λ _. >>=-Keeps along (check_ids exhausted) _ (check_ids-Along exhausted) λ _. along.same

module _ (lib : Library) where
  pub next_frame-Along : (kind : Frame.MessageType) (id : ℕ) → Keeps along (next_frame lib kind id)
  unfolding next_frame
  next_frame-Along kind id =
      >>=-Keeps along (on_link _) _ (on_link-Along _) λ f. lift->>=-Keeps along _ _ λ _. along.same

  pub ask-Along : (uri : Uri) (operation : String) → Keeps along (ask lib uri operation)
  unfolding ask
  ask-Along uri operation = >>=-Keeps along set_deadline _ set_deadline-Along λ _.
      >>=-Keeps along take_id _ take_id-Along
        λ id. >>=-Keeps along (on_link _) _ (on_link-Along _) λ _. along.same

  pub within_limit-Along : (size : ℤ) → Keeps along (within_limit lib size)
  unfolding within_limit
  within_limit-Along size s = along.same s
