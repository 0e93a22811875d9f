-- ===== src/Server/Requests.antt =====
-- `serveConnection`: the requests that reach the handler.
use deep_protocol.Base.{
  ℕ, zero, suc, ◌+◌, ◌%◌, ◌^◌, ◌≡◌, ◌≤◌, ◌<◌, refl, sym, subst, ◌∙◌, ◌⊎◌, inl, inr, Bool, true,
  ◌||◌, List, [], ◌∷◌, length, All, codes, equal, equal_iff, ◌==◌, Error, Result, ok, err,
  is_ok_lem, Bool-cases, arith, check-cases, result_cases,
}
use deep_protocol.Io.{Exec}
use deep_protocol.Uri.{validate_resource}
use deep_protocol.Frame
use deep_protocol.Frame.{Frame, read_frame}
use deep_protocol.Messages.{Library, RequestMetadata, decode_empty}
use deep_protocol.Body.{Link, on_input}
use deep_protocol.Server.{
  Site, Served, Session, on_link, with_deadline, send_error, check_request, ask_limiter,
  admit_request, dispatch, or_report, or_hang_up, on_request, serve_requests, greet, welcomed,
  send_welcome, serve_all, serve_hello, serve_connection,
}

-- The first ID is below `n`.
abbrev pub Below : ℕ → List Served → Type 0
Below n [] = Unit
Below n (c ∷ cs) = c.id < n

-- The IDs grow from each request to the next.
abbrev pub Descends : List Served → Type 0
Descends [] = Unit
Descends (c ∷ cs) = Below c.id cs × Descends cs

deadlines_cases : (ds : List Bool) → (ds ≡ []) ⊎ ((d : Bool) × (rest : List Bool) × (ds ≡ d ∷ rest))
deadlines_cases [] = inl refl
deadlines_cases (d ∷ rest) = inr (d, rest, refl)

-- The parts of a `with_deadline` and of `send_error` that matter to the log.
with_deadline-served :
    (Q : List Served → Type 0) (k : Session → Session) (s : Session)
    → Q s.served
    → ((t : Session) → t.served ≡ s.served → Q (k t).served)
    → Q (with_deadline k s).served
unfolding with_deadline
with_deadline-served Q k s q go = elim (deadlines_cases s.deadlines) [
  | inl e ↦ rw (e, with_deadline) (go s refl)
  | inr (fails, rest, e) ↦
      rw (e, with_deadline)
        (elim (Bool-cases fails) [
          | inl f ↦ rw f q
          | inr f ↦ rw f (go (record s { deadlines = rest }) refl)
        ])
]

on_link-served : {A : Type 0} (m : Exec Link A) (s : Session) → (on_link m s).1.served ≡ s.served
unfolding on_link
on_link-served m s = refl

module _ (lib : Library) where
  send_error-served : (id : ℕ) (e : Error) (s : Session) → (send_error lib id e s).served ≡ s.served
  unfolding send_error
  send_error-served id e s =
      with_deadline-served (λ log. log ≡ s.served) _ s refl λ t p. on_link-served _ t ∙ p

  module _ (site : Site) where
    -- A request that this server is for.
    pub record IsAccepted (c : Served) : Type 0 where
      pub authority_is : c.request.authority ≡ site.authority
      pub operation_known :
          (equal c.request.operation (codes "FETCH")
            || equal c.request.operation (codes "EXCHANGE"))
          ≡ true
      pub resource_valid : validate_resource c.request.path c.request.query ≡ ok tt

    pub record IsLog (log : List Served) : Type 0 where
      pub accepted : All IsAccepted log
      pub ascending : Descends log
      pub few : length log ≤ site.limits.max_requests_per_session

    check_request-IsAccepted :
        (last : ℕ) (f : Frame) {r : RequestMetadata}
        → check_request lib site last f ≡ ok r
        → (last < f.request_id) × IsAccepted (record { id = f.request_id; request = r })
    unfolding check_request
    check_request-IsAccepted last f {r} h = (
      ground arith,
      record {
        authority_is = ground (arith, equal_iff r.authority site.authority);
        operation_known = ground arith;
        resource_valid = ground (arith, is_ok_lem (validate_resource r.path r.query));
      },
    )

    admit_request-served :
        (count : ℕ) (s : Session) → (admit_request lib site count s).1.served ≡ s.served
    unfolding admit_request ask_limiter
    admit_request-served count s = ground arith

    admit_request-lt :
        (count : ℕ) (s : Session)
        → (admit_request lib site count s).0 ≡ ok tt
        → count < site.limits.max_requests_per_session
    unfolding admit_request
    admit_request-lt count s h = ground arith

    dispatch-served :
        (id : ℕ) (r : RequestMetadata) (s : Session)
        → (dispatch lib site id r s).1.served ≡ record { id = id; request = r } ∷ s.served
    unfolding dispatch
    dispatch-served id r s = on_link-served _ _

    -- The log at the head of the loop: `last` is its greatest ID and `count` its length.
    record IsHead (last count : ℕ) (log : List Served) : Type 0 where
      log_valid : IsLog log
      below : Below (suc last) log
      counted : length log ≡ count

    Below-mono : {m n : ℕ} (log : List Served) → m ≤ n → Below m log → Below n log
    Below-mono [] h b = tt
    Below-mono (c ∷ cs) h b = omega arith

    IsHead-next :
        (last count id : ℕ) (r : RequestMetadata) (log : List Served)
        → site.limits.max_requests_per_session < 2 ^ 32
        → IsHead last count log
        → (last < id) × IsAccepted (record { id = id; request = r })
        → count < site.limits.max_requests_per_session
        → IsHead id ((count + 1) % 2 ^ 32) (record { id = id; request = r } ∷ log)
    IsHead-next last count id r log fits v (newer, a) more = record {
      log_valid = record {
        accepted = (a, v.log_valid.accepted);
        ascending = (Below-mono log newer v.below, v.log_valid.ascending);
        few = omega (arith, v.counted);
      };
      below = omega arith;
      counted = omega (arith, v.counted);
    }

    sends :
        (id : ℕ) (e : Error) (s : Session) → IsLog s.served → IsLog (send_error lib id e s).served
    sends id e s v = subst IsLog (sym (send_error-served id e s)) v

    or_report-IsLog :
        (k : Session → Session) (id : ℕ) (p : Result (Unit {0}) × Session)
        → IsLog p.1.served
        → (p.0 ≡ ok tt → IsLog (k p.1).served)
        → IsLog (or_report lib site k id p).served
    or_report-IsLog k id (err e, s) v h = sends id e s v
    or_report-IsLog k id (ok u, s) v h = h refl

    module _ (fits : site.limits.max_requests_per_session < 2 ^ 32)
        (go_on : ℕ → ℕ → Session → Session)
        (keeps : (last count : ℕ) (s : Session)
          → IsHead last count s.served
          → IsLog (go_on last count s).served) where
      dispatched :
          (id last count : ℕ) (r : RequestMetadata) (t : Session)
          → IsHead last count t.served
          → (last < id) × IsAccepted (record { id = id; request = r })
          → count < site.limits.max_requests_per_session
          → IsLog
              (or_report lib site
                (go_on id ((count + 1) % 2 ^ 32))
                id
                (dispatch lib site id r t)).served
      dispatched id last count r t v a more =
          let next = IsHead-next last count id r t.served fits v a more in
          let log = sym (dispatch-served id r t) in
          or_report-IsLog (go_on id ((count + 1) % 2 ^ 32)) id (dispatch lib site id r t)
            (subst IsLog log next.log_valid)
            λ _.
              keeps id ((count + 1) % 2 ^ 32) (dispatch lib site id r t).1
                (subst (IsHead id ((count + 1) % 2 ^ 32)) log next)

      on_request-IsLog :
          (last count : ℕ) (f : Frame) (s : Session)
          → IsHead last count s.served
          → IsLog (on_request lib site go_on last count f s).served
      unfolding on_request
      on_request-IsLog last count f s v = elim (Bool-cases (f.kind == Frame.close)) [
        | inl c ↦
            rw (c, on_request)
              (elim (check-cases (decode_empty lib f)) [
                | inl e ↦ rw e v.log_valid
                | inr (e, p) ↦ rw p (sends 0 e s v.log_valid)
              ])
        | inr o ↦
            rw (o, on_request)
              (elim (result_cases (check_request lib site last f)) [
                | inr (e, p) ↦ rw p (sends f.request_id e s v.log_valid)
                | inl (r, p) ↦
                    let a = check_request-IsAccepted last f p in
                    let same = sym (admit_request-served count s) in
                    let head = subst (IsHead last count) same v in
                    rw p (
                      or_report-IsLog _ f.request_id (admit_request lib site count s) head.log_valid
                        λ q.
                          with_deadline-served IsLog _ (admit_request lib site count s).1
                            head.log_valid
                            λ t e.
                              dispatched f.request_id last count r t
                                (subst (IsHead last count) (sym e) head) a
                                (admit_request-lt count s q))
              ])
      ]

    or_hang_up-IsLog :
        (k : Frame → Session → Session) (p : Result Frame × Session)
        → IsLog p.1.served
        → ((f : Frame) → IsLog (k f p.1).served)
        → IsLog (or_hang_up lib site k p).served
    or_hang_up-IsLog k (err e, s) v h = v
    or_hang_up-IsLog k (ok f, s) v h = h f

    serve_requests-IsLog :
        (fuel last count : ℕ) (s : Session)
        → site.limits.max_requests_per_session < 2 ^ 32
        → IsHead last count s.served
        → IsLog (serve_requests lib site fuel last count s).served
    unfolding serve_requests
    serve_requests-IsLog zero last count s fits v = v.log_valid
    serve_requests-IsLog (suc fuel) last count s fits v =
        with_deadline-served IsLog _ s v.log_valid λ t e.
          let read = on_link (on_input (read_frame lib.json)) t in
          let head = subst (IsHead last count) (sym (on_link-served _ t ∙ e)) v in
          or_hang_up-IsLog (on_request lib site (serve_requests lib site fuel) last count) read
            head.log_valid
            λ f.
              on_request-IsLog fits (serve_requests lib site fuel)
                (λ l c u w. serve_requests-IsLog fuel l c u fits w) last count f read.1 head

    IsHead-empty : (log : List Served) → log ≡ [] → IsHead 0 0 log
    IsHead-empty log e = subst (IsHead 0 0) (sym e) (record {
      log_valid = record { accepted = tt; ascending = tt; few = omega arith };
      below = tt;
      counted = refl;
    })

    nil-IsLog : (log : List Served) → log ≡ [] → IsLog log
    nil-IsLog log e = (IsHead-empty log e).log_valid

    welcomed-IsLog :
        (k : Session → Session) (p : Result (Unit {0}) × Session)
        → IsLog p.1.served
        → IsLog (k p.1).served
        → IsLog (welcomed lib site k p).served
    welcomed-IsLog k (err e, s) v w = v
    welcomed-IsLog k (ok u, s) v w = w

    greet-served : (f : Frame) (s : Session) → (greet lib site f s).1.served ≡ s.served
    unfolding greet
    greet-served f s = ground arith

    send_welcome-served : (s : Session) → (send_welcome lib site s).1.served ≡ s.served
    unfolding send_welcome
    send_welcome-served s = on_link-served _ s

    serve_all-IsLog :
        (s : Session)
        → site.limits.max_requests_per_session < 2 ^ 32
        → s.served ≡ []
        → IsLog (serve_all lib site s).served
    unfolding serve_all
    serve_all-IsLog s fits e =
        serve_requests-IsLog (suc (length s.link.input.bytes)) 0 0 s fits (IsHead-empty s.served e)

    serve_hello-IsLog :
        (f : Frame) (s : Session)
        → site.limits.max_requests_per_session < 2 ^ 32
        → s.served ≡ []
        → IsLog (serve_hello lib site f s).served
    unfolding serve_hello
    serve_hello-IsLog f s fits e =
        let g = greet lib site f s in
        let clean = greet-served f s ∙ e in
        let w = send_welcome lib site g.1 in
        let clean' = send_welcome-served g.1 ∙ clean in
        or_report-IsLog (λ t. welcomed lib site (serve_all lib site) (send_welcome lib site t)) 0 g
          (nil-IsLog g.1.served clean)
          λ q.
            welcomed-IsLog (serve_all lib site) w (nil-IsLog w.1.served clean')
              (serve_all-IsLog w.1 fits clean')

    -- For a session that starts with no request served and a request limit of 32 bits, whatever
    -- the peer sends: each request that reaches the handler is for the server's own authority, a
    -- FETCH or an EXCHANGE and of a valid resource, their IDs grow, and there are no more of them
    -- than the limit.
    pub serve_connection-IsLog :
        (s : Session)
        → site.limits.max_requests_per_session < 2 ^ 32
        → s.served ≡ []
        → IsLog (serve_connection lib site s).served
    unfolding serve_connection
    serve_connection-IsLog s fits e = with_deadline-served IsLog _ s (nil-IsLog s.served e) λ t p.
        let read = on_link (on_input (read_frame lib.json)) t in
        let clean = on_link-served (on_input (read_frame lib.json)) t ∙ p ∙ e in
        or_hang_up-IsLog (serve_hello lib site) read (nil-IsLog read.1.served clean)
          λ f. serve_hello-IsLog f read.1 fits clean
