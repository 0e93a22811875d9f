-- ===== src/Client/Ending.antt =====
-- `Close` of client.go, and what a session does behind it.
use deep_protocol.Base.{◌≡◌, refl, Bool, true, false, Result, ok, if◌then◌else◌}
use deep_protocol.Io.Keeps.{Keeps, >>=-Keeps}
use deep_protocol.Messages.{Library}
use deep_protocol.Client.Along.{along, on_link-Along, set_deadline-Along}
use deep_protocol.Client.{Session, set_deadline, say_close, close_session, closing_result}

module _ (lib : Library) where
  say_close-Along : Keeps along (say_close lib)
  unfolding say_close
  say_close-Along = >>=-Keeps along set_deadline _ set_deadline-Along λ _. on_link-Along _

  either_closed :
      (held : Bool) (t u : Session)
      → t.is_closed ≡ true
      → u.is_closed ≡ true
      → (if held then t else u).is_closed ≡ true
  either_closed true t u h k = h
  either_closed false t u h k = k

  -- `Close` of a session in either state, with what it does to an open one.
  abbrev Ends : Session → Bool → Result (Unit {0}) × Session → Type 0
  Ends s shut r = (r.1.is_closed ≡ true) × (r.1.connected ≡ (if shut then s.connected else false))

  ended :
      (shut : Bool) (s u : Session) (r : Result (Unit {0}))
      → s.is_closed ≡ shut
      → u.is_closed ≡ true
      → Ends s shut (if shut then (ok tt, s) else (r, record u { connected = false }))
  ended true s u r h k = (h, refl)
  ended false s u r h k = (k, refl)

  -- Behind Close the session is closed, whatever became of the farewell, and one that was open has
  -- its connection closed.
  pub close_session-closed :
      (s : Session)
      → ((close_session lib s).1.is_closed ≡ true)
        × ((close_session lib s).1.connected ≡ (if s.is_closed then s.connected else false))
  unfolding close_session
  close_session-closed s =
      let t = record s { is_closed = true } in
      let u = if t.locked then t else (say_close lib t).1 in
      ended s.is_closed s u (closing_result lib u.closing) refl
        (either_closed t.locked t (say_close lib t).1 refl (say_close-Along t).closed_is)

  shut_lem :
      (shut : Bool) (t : Session) (x : Result (Unit {0}) × Session)
      → shut ≡ true
      → (if shut then (ok tt, t) else x) ≡ (ok tt, t)
  shut_lem true t x h = refl
  shut_lem false t x h = cc

  shut_session : (t : Session) → t.is_closed ≡ true → close_session lib t ≡ (ok tt, t)
  unfolding close_session
  shut_session t h = shut_lem t.is_closed t _ h

  -- A second Close does nothing.
  pub close_session-close_session :
      (s : Session) → close_session lib (close_session lib s).1 ≡ (ok tt, (close_session lib s).1)
  close_session-close_session s = shut_session (close_session lib s).1 (close_session-closed s).0
