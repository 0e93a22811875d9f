-- ===== src/Client/Dialing.antt =====
-- With whom `Dial` has a session.
use deep_protocol.Base.{
  ℕ, ◌≡◌, refl, sym, ap, ◌∙◌, false, Bytes, Option, none, some, Error, Result, ok, err, arith,
  chain-elim, subst, failure,
}
use deep_protocol.Base.Int.{ℤ, pos, is_negative, ltb_ℤ}
use deep_protocol.Io.{Exec, >>=-elim, lift-elim}
use deep_protocol.Io.Keeps.{Preorder, Keeps, >>=-Keeps, lift->>=-Keeps}
use deep_protocol.Uri.{Uri, parse_uri}
use deep_protocol.Frame
use deep_protocol.Frame.{max_resource_size, max_chunk_size, protocol_version}
use deep_protocol.Messages.{Library}
use deep_protocol.Limits.{default_max_bytes, or_default}
use deep_protocol.Body.{Link, check_context}
use deep_protocol.Application.{or_failure}
use deep_protocol.Adapters.{Endpoint, Registry, resolve}
use deep_protocol.Adapters.Resolution.{Resolves, resolve-Resolves}
use deep_protocol.Security.{
  Crypto, ConnectionState, Verifier, SecurityInfo, client_config, inspect_security,
}
use deep_protocol.Security.Peers.{Authentic, client_config-Authentic}
use deep_protocol.Client.{
  Session, on_link, set_deadline, next_frame, say_hello, check_welcome, check_limit, greet_server,
  take_deadline,
}
use deep_protocol.Client.Dial.{Network, Client, or_tcp, session_of, over, check_own_identity, dial}

-- The parts of a session that its messages leave alone.
pub record SameSession (s t : Session) : Type 0 where
  pub authority_is : t.authority ≡ s.authority
  pub limit_is : t.max_bytes ≡ s.max_bytes
  pub id_is : t.next_id ≡ s.next_id
  pub lock_is : t.locked ≡ s.locked
  pub closed_is : t.is_closed ≡ s.is_closed
  pub security_is : t.security ≡ s.security

pub on_link-Same : {A : Type 0} (m : Exec Link A) (s : Session) → SameSession s (on_link m s).1
unfolding on_link
on_link-Same m s = record {
  authority_is = refl;
  limit_is = refl;
  id_is = refl;
  lock_is = refl;
  closed_is = refl;
  security_is = refl;
}

pub set_deadline-Same : (s : Session) → SameSession s (set_deadline s).1
unfolding set_deadline
set_deadline-Same s = record {
  authority_is = refl;
  limit_is = refl;
  id_is = refl;
  lock_is = refl;
  closed_is = refl;
  security_is = refl;
}

pub same : (s : Session) → SameSession s s
same s = record {
  authority_is = refl;
  limit_is = refl;
  id_is = refl;
  lock_is = refl;
  closed_is = refl;
  security_is = refl;
}

pub same_session : Preorder SameSession
same_session = record {
  same = same;
  both = λ s t u a b. record {
    authority_is = b.authority_is ∙ a.authority_is;
    limit_is = b.limit_is ∙ a.limit_is;
    id_is = b.id_is ∙ a.id_is;
    lock_is = b.lock_is ∙ a.lock_is;
    closed_is = b.closed_is ∙ a.closed_is;
    security_is = b.security_is ∙ a.security_is;
  };
}

-- The limit of a client that has been welcomed is that of a resource, or less.
pub record Bounded (limit : ℤ) : Type 0 where
  pub not_negative : is_negative limit ≡ false
  pub small : ltb_ℤ (pos max_resource_size) limit ≡ false

session_of-eq-ok :
    (r : Result (Unit {0}) × Session) {s : Session}
    → session_of r ≡ ok s
    → (u : Unit {0}) × (r ≡ (ok u, s))
session_of-eq-ok (err e, t) h = cc
session_of-eq-ok (ok u, t) {s} h = (tt, cc)

or_failure-some {ℓ} :
    {A : Type ℓ} (e : Error) (o : Option A) {a : A} → or_failure e o ≡ ok a → o ≡ some a
or_failure-some e none h = cc
or_failure-some e (some a) h = cc

module _ (lib : Library) where
  pub next_frame-Same : (kind id : ℕ) → Keeps same_session (next_frame lib kind id)
  unfolding next_frame
  next_frame-Same kind id =
      >>=-Keeps same_session (on_link _) _ (on_link-Same _)
        λ f. lift->>=-Keeps same_session _ _ λ _. same

  say_hello-Same : Keeps same_session (say_hello lib)
  unfolding say_hello
  say_hello-Same = on_link-Same _

  greet_server-Same : (limit : ℤ) → Keeps same_session (greet_server lib limit)
  unfolding greet_server
  greet_server-Same limit = >>=-Keeps same_session (say_hello lib) _ say_hello-Same λ _.
      >>=-Keeps same_session (next_frame lib Frame.welcome 0) _ (next_frame-Same Frame.welcome 0)
        λ f. lift->>=-Keeps same_session (check_welcome lib f) _ λ _.
          >>=-Keeps same_session (on_link check_context) _ (on_link-Same check_context)
            λ _. lift->>=-Keeps same_session (check_limit lib limit) _ λ _. set_deadline-Same

  check_limit-Bounded : (limit : ℤ) → check_limit lib limit ≡ ok tt → Bounded limit
  check_limit-Bounded limit h = record {
    not_negative = ground (arith, h);
    small = ground (arith, h);
  }

  greet_server-Bounded :
      (limit : ℤ) (s t : Session) {u : Unit {0}}
      → greet_server lib limit s ≡ (ok u, t)
      → Bounded limit
  unfolding greet_server
  greet_server-Bounded limit s t h = >>=-elim (say_hello lib) _ s h λ _ s₁ _ h₁.
      >>=-elim (next_frame lib Frame.welcome 0) _ s₁ h₁ λ f s₂ _ h₂.
        lift-elim (check_welcome lib f) _ s₂ h₂ λ _ _ h₃.
          >>=-elim (on_link check_context) _ s₂ h₃ λ _ s₃ _ h₄.
            lift-elim (check_limit lib limit) _ s₃ h₄ λ _ c _. check_limit-Bounded limit c

module _ (lib : Library) (crypto : Crypto) (network : Network) (client : Client) where
  -- A session as the client begins it.
  pub record Fresh (authority : Bytes) (info : SecurityInfo) (s : Session) : Type 0 where
    pub same_authority : s.authority ≡ authority
    pub same_security : s.security ≡ info
    pub limit : s.max_bytes ≡ or_default client.max_bytes (pos default_max_bytes)
    pub first_id : s.next_id ≡ 1
    pub unlocked : s.locked ≡ false
    pub still_open : s.is_closed ≡ false

  -- A session with the node that an endpoint of the registry stands for.
  pub record Dialed (now : ℕ) (value : Bytes) (s : Session) : Type 0 where
    pub uri : Uri
    pub parsed : parse_uri value ≡ ok uri
    pub registry : Registry
    pub own_registry : client.registry ≡ some registry
    pub endpoint : Endpoint
    pub resolved : Resolves registry uri.authority endpoint
    pub state : ConnectionState
    pub authentic : Authentic crypto now state uri.authority endpoint.pin_sha256
    pub info : SecurityInfo
    pub inspected : inspect_security crypto state ≡ ok info
    pub fresh : Fresh uri.authority info s
    pub bounded : Bounded s.max_bytes

  record Over (verify : Verifier) (now : ℕ) (authority : Bytes) (s : Session) : Type 0 where
    state : ConnectionState
    verified : verify now state ≡ ok tt
    info : SecurityInfo
    inspected : inspect_security crypto state ≡ ok info
    fresh : Fresh authority info s
    bounded : Bounded s.max_bytes

  Fresh-Same :
      (authority : Bytes) (info : SecurityInfo) (s t : Session)
      → Fresh authority info s
      → SameSession s t
      → Fresh authority info t
  Fresh-Same authority info s t f k = record {
    same_authority = k.authority_is ∙ f.same_authority;
    same_security = k.security_is ∙ f.same_security;
    limit = k.limit_is ∙ f.limit;
    first_id = k.id_is ∙ f.first_id;
    unlocked = k.lock_is ∙ f.unlocked;
    still_open = k.closed_is ∙ f.still_open;
  }

  -- What the messages leave of a session that is as the client begins it.
  greeted-Fresh :
      (authority : Bytes) (info : SecurityInfo) (s t : Session) {u : Unit {0}}
      → Fresh authority info s
      → greet_server lib s.max_bytes s ≡ (ok u, t)
      → Fresh authority info t × Bounded t.max_bytes
  greeted-Fresh authority info s t f h =
      let k = subst (SameSession s) (ap (λ r. r.1) h) (greet_server-Same lib s.max_bytes s) in
      (
        Fresh-Same authority info s t f k,
        subst Bounded (sym k.limit_is) (greet_server-Bounded lib s.max_bytes s t h),
      )

  over-Over :
      (verify : Verifier) (now : ℕ) (authority : Bytes) (raw : network.Raw) {s : Session}
      → over lib crypto network client verify now authority raw ≡ ok s
      → Over verify now authority s
  unfolding over
  over-Over verify now authority raw h =
      chain-elim (take_deadline (network.deadlines raw)).0 _ h λ _ _ h₁.
        chain-elim (network.handshake verify now raw) _ h₁ λ (state, l) p h₂.
          chain-elim (inspect_security crypto state) _ h₂ λ info i h₃.
            let (u, g) = session_of-eq-ok _ h₃ in
            let (f, b) =
              greeted-Fresh authority info _ _
                (record {
                  same_authority = refl;
                  same_security = refl;
                  limit = refl;
                  first_id = refl;
                  unlocked = refl;
                  still_open = refl;
                })
                g in
            record {
              state = state;
              verified = network.handshake-verified verify now raw state l p;
              info = info;
              inspected = i;
              fresh = f;
              bounded = b;
            }

  -- When Dial returns a session, its URI was parsed, the client's registry resolved the authority
  -- to an endpoint, the peer showed in a TLS state of the DEEP profile one valid server identity
  -- of that authority whose key has the endpoint's pin, and the session is fresh: of that
  -- authority, open, with request ID 1 and a limit of 0 to 2^40 bytes.
  pub dial-Dialed :
      (now : ℕ) (at_first at_last : Option Error) (value : Bytes) {s : Session}
      → dial lib crypto network client now at_first at_last value ≡ ok s
      → Dialed now value s
  unfolding dial
  dial-Dialed now at_first at_last value {s} h = chain-elim (parse_uri value) _ h λ uri p h₁.
      chain-elim (or_failure (failure "no network adapter registry") client.registry) _ h₁
        λ registry r h₂.
          chain-elim (resolve registry at_first at_last uri.authority) _ h₂ λ endpoint q h₃.
            chain-elim
              (or_failure (failure "no transport registered")
                (network.dialer (or_tcp endpoint.transport)))
              _ h₃
              λ dialer _ h₄.
                chain-elim (client_config crypto uri.authority endpoint.pin_sha256) _ h₄
                  λ verify c h₅.
                    chain-elim (check_own_identity lib crypto network client now client.identity) _
                      h₅
                      λ _ _ h₆. chain-elim (dialer endpoint) _ h₆ λ raw _ h₇.
                        let o = over-Over verify now uri.authority raw h₇ in
                        record {
                          uri = uri;
                          parsed = p;
                          registry = registry;
                          own_registry = or_failure-some _ client.registry r;
                          endpoint = endpoint;
                          resolved = resolve-Resolves registry at_first at_last uri.authority q;
                          state = o.state;
                          authentic =
                              client_config-Authentic crypto uri.authority endpoint.pin_sha256 c now
                                o.state o.verified;
                          info = o.info;
                          inspected = o.inspected;
                          fresh = o.fresh;
                          bounded = o.bounded;
                        }
