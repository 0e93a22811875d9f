-- ===== src/Client/Closing.antt =====
-- Which errors of `Fetch` and `Exchange` close the session.
use deep_protocol.Base.{
  ◌≡◌, refl, sym, ap, ◌∙◌, subst, true, false, Bytes, Error, Result, ok, err, String,
}
use deep_protocol.Io.{Exec, ◌>>◌, lift}
use deep_protocol.Io.Keeps.{Preorder, Keeps, >>=-Keeps}
use deep_protocol.Uri.{Uri}
use deep_protocol.Messages.{Library}
use deep_protocol.Body.{check_context}
use deep_protocol.Application.{ApplicationRequest}
use deep_protocol.Client.{
  Session, Transfer, on_link, on_session, ready, check_usable, check_ids, settle, settled,
  fetch_resource, fetch_to,
}
use deep_protocol.Client.Exchange.{exchange_request, check_outgoing, exchange_to}

-- A session on which nothing was read or sent: only the context was asked.
pub record Untouched (s t : Session) : Type 0 where
  pub input_is : t.link.input ≡ s.link.input
  pub output_is : t.link.output ≡ s.link.output
  pub id_is : t.next_id ≡ s.next_id
  pub lock_is : t.locked ≡ s.locked
  pub closed_is : t.is_closed ≡ s.is_closed
  pub connected_is : t.connected ≡ s.connected

unchanged : (s : Session) → Untouched s s
unchanged s = record {
  input_is = refl;
  output_is = refl;
  id_is = refl;
  lock_is = refl;
  closed_is = refl;
  connected_is = refl;
}

untouched : Preorder Untouched
untouched = record {
  same = unchanged;
  both = λ s t u a b. record {
    input_is = b.input_is ∙ a.input_is;
    output_is = b.output_is ∙ a.output_is;
    id_is = b.id_is ∙ a.id_is;
    lock_is = b.lock_is ∙ a.lock_is;
    closed_is = b.closed_is ∙ a.closed_is;
    connected_is = b.connected_is ∙ a.connected_is;
  };
}

check_usable-Untouched : (busy : String) (value : Bytes) → Keeps untouched (check_usable busy value)
unfolding check_usable
check_usable-Untouched busy value s = unchanged s

check_ids-Untouched : (exhausted : String) → Keeps untouched (check_ids exhausted)
unfolding check_ids
check_ids-Untouched exhausted s = unchanged s

context-Untouched : Keeps untouched (on_link check_context)
unfolding on_link check_context
context-Untouched s = record {
  input_is = refl;
  output_is = refl;
  id_is = refl;
  lock_is = refl;
  closed_is = refl;
  connected_is = refl;
}

ready-Untouched :
    (busy exhausted : String) (value : Bytes) → Keeps untouched (ready busy exhausted value)
unfolding ready
ready-Untouched busy exhausted value =
    >>=-Keeps untouched (check_usable busy value) _ (check_usable-Untouched busy value) λ uri.
      >>=-Keeps untouched (on_link check_context) _ context-Untouched λ _.
        >>=-Keeps untouched (check_ids exhausted) _ (check_ids-Untouched exhausted) λ _. unchanged

-- The two ways in which a transfer fails.
pub data Failed (t u : Transfer) : Type 0 where
  refused : u.destination ≡ t.destination → Untouched t.session u.session → Failed t u
  broken : u.session.is_closed ≡ true → u.session.connected ≡ false → Failed t u

settle-broken :
    {A : Type 0} (r : Result A × Transfer) {t u : Transfer} {e : Error}
    → settle r ≡ (err e, u)
    → Failed t u
unfolding settle
settle-broken (ok a, v) h = absurd (ok_err (ap (λ r. r.0) h))
  where
    ok_err : {A : Type 0} {a : A} {e : Error} → ok a ≡ err e → ⊥
    ok_err h = cc
settle-broken (err x, v) h =
    broken (ap (λ r. r.1.session.is_closed) (sym h)) (ap (λ r. r.1.session.connected) (sym h))

settled-Failed :
    {A : Type 0} (run : Uri → Exec Transfer A) (m : Exec Session Uri) (t : Transfer) {u : Transfer}
    {e : Error}
    → Keeps untouched m
    → settled run (on_session m t) ≡ (err e, u)
    → Failed t u
unfolding on_session
settled-Failed {A = A} run m t {u} {e} k h = go (m t.session) (k t.session) h
  where
    go :
        (r : Result Uri × Session)
        → Untouched t.session r.1
        → settled run (r.0, record t { session = r.1 }) ≡ (err e, u)
        → Failed t u
    go (err x, s) keep h =
        refused (ap (λ r. r.1.destination) (sym h))
          (subst (λ r. Untouched t.session r.1.session) h keep)
    go (ok uri, s) keep h = settle-broken (run uri (record t { session = s })) h

module _ (lib : Library) where
  -- When Fetch returns an error, either it has read and sent nothing, used no request ID, written
  -- nothing and left the session as open as it was, or the session is closed.
  pub fetch_to-Failed :
      (value : Bytes) (t : Transfer) {u : Transfer} {e : Error}
      → fetch_to lib value t ≡ (err e, u)
      → Failed t u
  unfolding fetch_to
  fetch_to-Failed value t h = settled-Failed (fetch_resource lib) _ t (ready-Untouched _ _ value) h

  -- When Exchange returns an error, either it has read and sent nothing, used no request ID,
  -- written nothing and left the session as open as it was, or the session is closed.
  pub exchange_to-Failed :
      (q : ApplicationRequest) (value : Bytes) (t : Transfer) {u : Transfer} {e : Error}
      → exchange_to lib q value t ≡ (err e, u)
      → Failed t u
  unfolding exchange_to
  exchange_to-Failed q value t {u} {e} h = go (check_outgoing lib q) h
    where
      go :
          (r : Result (Unit {0}))
          → (lift r >> λ t.
                settled
                  (exchange_request lib q)
                  (on_session (ready "session is busy" "request IDs exhausted" value) t))
              t
            ≡ (err e, u)
          → Failed t u
      go (err x) h =
          refused (ap (λ r. r.1.destination) (sym h))
            (subst (λ r. Untouched t.session r.1.session) h (unchanged t.session))
      go (ok _) h = settled-Failed (exchange_request lib q) _ t (ready-Untouched _ _ value) h
