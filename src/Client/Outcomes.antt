-- ===== src/Client/Outcomes.antt =====
-- What a body leaves that the client receives, and the methods that end with one.
use deep_protocol.Base.{
  ℕ, ◌≡◌, ◌≤◌, refl, sym, ap, ◌∙◌, subst, false, [], ◌++◌, append-nil, Bytes, length, Error, Result,
  ok, err, arith,
}
use deep_protocol.Base.Int.{ℤ, pos, negsuc, pos_part, ltb_ℤ}
use deep_protocol.Io.{Exec, ◌>>=◌, pure, continue, >>=-rule}
use deep_protocol.Io.Keeps.{Keeps, Outward}
use deep_protocol.Uri.{Uri}
use deep_protocol.Messages.{Library}
use deep_protocol.Body.{Texts, receive_stream}
use deep_protocol.Body.Receiving.{receive_stream-Safe}
use deep_protocol.Client.{
  Session, Transfer, Fetched, on_session, on_download, set_deadline, collect, settle, settled,
}
use deep_protocol.Client.Along.{Along, along, Within, within, set_deadline-Along, on_session-Within}

ok-injective {ℓ} : {A : Type ℓ} {a b : A} → ok a ≡ ok b → a ≡ b
ok-injective e = cc

module _ (lib : Library) where
  -- What a method has written out of a response: never more than the session's limit, and, when
  -- it succeeds, the body that `fetched` tells of.
  pub record Outcome {A : Type 0} (fetched : A → Fetched) (Valid : A → Type 0) (t : Transfer)
      (r : Result A × Transfer) : Type 0 where
    pub got : Bytes
    pub written : r.1.destination.sent ≡ t.destination.sent ++ got
    pub bounded : length got ≤ pos_part t.session.max_bytes
    pub complete :
        (a : A)
        → r.0 ≡ ok a
        → ((fetched a).size ≡ length got)
          × ((fetched a).sha256 ≡ lib.sha256 got)
          × Valid a
          × ((fetched a).security ≡ t.session.security)
          × Along t.session r.1.session

  fails-Outcome :
      {A : Type 0} {fetched : A → Fetched} {Valid : A → Type 0} (t u : Transfer) (e : Error)
      → Within t u
      → Outcome fetched Valid t (err e, u)
  fails-Outcome t u e w = record {
    got = [];
    written = ap (λ d. d.sent) w.destination_is ∙ sym (append-nil t.destination.sent);
    bounded = omega arith;
    complete = λ a h. cc;
  }

  back-Outcome :
      {A : Type 0} {fetched : A → Fetched} {Valid : A → Type 0} (t u : Transfer)
      (r : Result A × Transfer)
      → Within t u
      → Outcome fetched Valid u r
      → Outcome fetched Valid t r
  back-Outcome t u r w o = record {
    got = o.got;
    written = o.written ∙ ap (λ d. d.sent ++ o.got) w.destination_is;
    bounded = subst (λ n. length o.got ≤ pos_part n) w.session_along.limit_is o.bounded;
    complete = λ a h.
        let (size, digest, media, security, kept) = o.complete a h in
        (
          size,
          digest,
          media,
          security ∙ w.session_along.security_is,
          along.both t.session u.session r.1.session w.session_along kept,
        );
  }

  pub outcome :
      {A : Type 0} {fetched : A → Fetched} {Valid : A → Type 0}
      → Outward within (Outcome fetched Valid)
  outcome = record { fails = fails-Outcome; back = back-Outcome }

  -- What a response says of its body.
  abbrev pub Announced : Bytes → ℕ → Fetched → Type 0
  Announced media_type size x = (x.media_type ≡ media_type) × (x.size ≡ size)

  -- What a body has left in a transfer.
  record Collected (size : ℕ) (t : Transfer) (r : Result Bytes × Transfer) : Type 0 where
    got : Bytes
    written : r.1.destination.sent ≡ t.destination.sent ++ got
    bounded : length got ≤ size
    kept : Along t.session r.1.session
    complete : (digest : Bytes) → r.0 ≡ ok digest → (length got ≡ size) × (digest ≡ lib.sha256 got)

  on_download-Collected :
      (texts : Texts) (id size : ℕ) (t : Transfer)
      → Collected size t (on_download (receive_stream lib texts id size) t)
  unfolding on_download
  on_download-Collected texts id size t =
      let s =
        receive_stream-Safe lib texts id size
          (record { link = t.session.link; destination = t.destination }) in
      record {
        got = s.got;
        written = s.written;
        bounded = omega (arith, s.bounded);
        kept = record {
          authority_is = refl;
          limit_is = refl;
          lock_is = refl;
          closed_is = refl;
          security_is = refl;
        };
        complete =
            λ digest q. let (full, agrees) = s.complete digest q in (omega (arith, full), agrees);
      }

  -- An error behind the body, or before its end.
  failed-Outcome :
      {A : Type 0} {Valid : A → Type 0} (fetched : A → Fetched) (size : ℕ) (t u v : Transfer)
      (r : Result Bytes) (e : Error)
      → size ≤ pos_part t.session.max_bytes
      → Collected size t (r, u)
      → Within u v
      → Outcome fetched Valid t (err e, v)
  failed-Outcome fetched size t u v r e h c w = record {
    got = c.got;
    written = ap (λ d. d.sent) w.destination_is ∙ c.written;
    bounded = omega (arith, h, c.bounded);
    complete = λ a k. cc;
  }

  finished-Outcome :
      (media_type digest : Bytes) (size : ℕ) (t u v : Transfer)
      → size ≤ pos_part t.session.max_bytes
      → Collected size t (ok digest, u)
      → Within u v
      → Outcome
          (λ x. x)
          (Announced media_type size)
          t
          (
            ok (record {
              media_type = media_type;
              size = size;
              sha256 = digest;
              security = v.session.security;
            }),
            v,
          )
  finished-Outcome media_type digest size t u v h c w =
      let (full, agrees) = c.complete digest refl in
      let kept = along.both t.session u.session v.session c.kept w.session_along in
      record {
        got = c.got;
        written = ap (λ d. d.sent) w.destination_is ∙ c.written;
        bounded = omega (arith, h, c.bounded);
        complete = λ a k.
            let same = ok-injective k in
            (
              ap (λ x. x.size) (sym same) ∙ sym full,
              ap (λ x. x.sha256) (sym same) ∙ agrees,
              (ap (λ x. x.media_type) (sym same), ap (λ x. x.size) (sym same)),
              ap (λ x. x.security) (sym same) ∙ kept.security_is,
              kept,
            );
      }

  pub collect-Outcome :
      (texts : Texts) (id : ℕ) (media_type : Bytes) (size : ℤ) (t : Transfer)
      → pos_part size ≤ pos_part t.session.max_bytes
      → Outcome
          (λ x. x)
          (Announced media_type (pos_part size))
          t
          (collect lib texts id media_type size t)
  unfolding collect on_session
  collect-Outcome texts id media_type size t h =
      >>=-rule (Outcome (λ x. x) (Announced media_type (pos_part size)) t)
        (on_download (receive_stream lib texts id (pos_part size))) _ t
        (λ e u p.
          failed-Outcome (λ x. x) (pos_part size) t u u (err e) e h
            (subst (Collected (pos_part size) t) p
              (on_download-Collected texts id (pos_part size) t))
            (within.same u))
        λ digest u p.
          let c =
            subst (Collected (pos_part size) t) p
              (on_download-Collected texts id (pos_part size) t) in
          >>=-rule (Outcome (λ x. x) (Announced media_type (pos_part size)) t)
            (on_session set_deadline) _ u
            (λ e w q. failed-Outcome (λ x. x) (pos_part size) t u w (ok digest) e h c (next u w q))
            λ _ w q. finished-Outcome media_type digest (pos_part size) t u w h c (next u w q)
    where
      next :
          (u w : Transfer) {r : Result (Unit {0})} → on_session set_deadline u ≡ (r, w) → Within u w
      next u w q = subst (λ r. Within u r.1) q (on_session-Within set_deadline set_deadline-Along u)

  -- A limit on sizes that are not negative.
  pub fitting : (size limit : ℤ) → ltb_ℤ limit size ≡ false → pos_part size ≤ pos_part limit
  fitting (pos n) (pos k) h = ground (arith, h)
  fitting (pos n) (negsuc k) h = ground (arith, h)
  fitting (negsuc n) limit h = omega arith

  pub weaken-Outcome :
      {A : Type 0} {fetched : A → Fetched} (V W : A → Type 0) (t : Transfer)
      (r : Result A × Transfer)
      → ((a : A) → V a → W a)
      → Outcome fetched V t r
      → Outcome fetched W t r
  weaken-Outcome V W t r f o = record {
    got = o.got;
    written = o.written;
    bounded = o.bounded;
    complete = λ a h.
        let (size, digest, v, security, kept) = o.complete a h in
        (size, digest, f a v, security, kept);
  }

  settle-Outcome :
      {A : Type 0} {Valid : A → Type 0} (fetched : A → Fetched) (t : Transfer)
      (r : Result A × Transfer)
      → Outcome fetched Valid t r
      → Outcome fetched Valid t (settle r)
  unfolding settle
  settle-Outcome fetched t (ok a, u) o = o
  settle-Outcome fetched t (err e, u) o = record {
    got = o.got;
    written = o.written;
    bounded = o.bounded;
    complete = λ a h. cc;
  }

  pub settled-Outcome :
      {A : Type 0} {fetched : A → Fetched} {Valid : A → Type 0} (run : Uri → Exec Transfer A)
      (m : Exec Session Uri) (t : Transfer)
      → Keeps along m
      → ((uri : Uri) (u : Transfer) → Outcome fetched Valid u (run uri u))
      → Outcome fetched Valid t (settled run (on_session m t))
  settled-Outcome {fetched = fetched} {Valid = Valid} run m t k good =
      go (on_session m t) (on_session-Within m k t)
    where
      go : (r : Result Uri × Transfer) → Within t r.1 → Outcome fetched Valid t (settled run r)
      go (err e, u) w = fails-Outcome t u e w
      go (ok uri, u) w = back-Outcome t u _ w (settle-Outcome fetched u (run uri u) (good uri u))

  -- What is made of the value of a method.
  pub pure-Outcome :
      {A B : Type 0} {f : A → Fetched} {V : A → Type 0} (fetched : B → Fetched) (Valid : B → Type 0)
      (make : A → B) (m : Exec Transfer A) (t : Transfer)
      → ((a : A) → V a → Valid (make a))
      → ((a : A) → fetched (make a) ≡ f a)
      → Outcome f V t (m t)
      → Outcome fetched Valid t ((m >>= λ a. pure (make a)) t)
  pure-Outcome {A = A} {f = f} {V = V} fetched Valid make m t valid same = go (m t)
    where
      made :
          (a : A) (o : Transfer)
          → Outcome f V t (ok a, o)
          → Outcome fetched Valid t (ok (make a), o)
      made a u o =
          let (size, digest, v, security, kept) = o.complete a refl in
          record {
            got = o.got;
            written = o.written;
            bounded = o.bounded;
            complete = λ b h.
                subst
                  (λ c.
                    ((fetched c).size ≡ length o.got)
                    × ((fetched c).sha256 ≡ lib.sha256 o.got)
                    × Valid c
                    × ((fetched c).security ≡ t.session.security)
                    × Along t.session u.session)
                  (ok-injective h)
                  (
                    ap (λ x. x.size) (same a) ∙ size,
                    ap (λ x. x.sha256) (same a) ∙ digest,
                    valid a v,
                    ap (λ x. x.security) (same a) ∙ security,
                    kept,
                  );
          }

      go :
          (r : Result A × Transfer)
          → Outcome f V t r
          → Outcome fetched Valid t (continue r.0 (λ a. pure (make a)) r.1)
      go (ok a, u) o = made a u o
      go (err e, u) o = record {
        got = o.got;
        written = o.written;
        bounded = o.bounded;
        complete = λ b h. cc;
      }
