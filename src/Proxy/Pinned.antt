-- ===== src/Proxy/Pinned.antt =====
-- What a connection through the proxy is pinned to, and what the exchange leaves unread.
use deep_protocol.Base.{
  ℕ, ◌*◌, ◌+◌, ◌≡◌, ◌≤◌, refl, sym, ap, ◌∙◌, subst, Bool, true, false, not, ◌&&◌, ◌||◌, [], ◌∷◌,
  ◌++◌, Bytes, length, map, codes, equal, equal_iff, ◌==◌, ◌⊎◌, inl, inr, Option, none, some, Error,
  Result, ok, err, arith, chain-elim, checked, reject_if-passed, passed,
}
use deep_protocol.Base.Int.{ℤ, pos, eq_ℤ, is_negative}
use deep_protocol.Io.{>>=-elim, lift-elim}
use deep_protocol.Uri.{to_lower}
use deep_protocol.Json.{hex_digit}
use deep_protocol.Adapters.{Endpoint, validate_endpoint, validate_proxy_address}
use deep_protocol.Body.{check_context, on_input, on_output}
use deep_protocol.Body.Sending.{quiet}
use deep_protocol.Body.RoundTrip.{stream}
use deep_protocol.Security.{hex_decode}
use deep_protocol.Proxy.{write_proxy_message, read_proxy_message}
use deep_protocol.Proxy.RoundTrip.{message, read_proxy_message-write_proxy_message}
use deep_protocol.Proxy.Handshake.{
  ProxyRequest, ProxyResponse, Channel, Surroundings, on_link, set_deadline, is_digest, is_pin,
  equal_fold, check_response, talk,
}
use deep_protocol.Proxy.Connect.{
  proxy_transport, connected, read_url, bad_url, bad_endpoint, proxy_handshake,
  parse_proxy_endpoint, dial_proxy,
}

hex_digit-to_lower : (c : ℕ) → hex_digit (to_lower c) ≡ hex_digit c
unfolding hex_digit to_lower
hex_digit-to_lower c = ground arith

-- A byte of two digits, and those behind it.
abbrev next_byte : Option ℕ → Option ℕ → Option Bytes → Option Bytes
next_byte none low rest = none
next_byte (some high) none rest = none
next_byte (some high) (some low) none = none
next_byte (some high) (some low) (some rest) = some ((high * 16 + low) ∷ rest)

hex_decode-next :
    (c d : ℕ) (cs : Bytes)
    → hex_decode (c ∷ d ∷ cs) ≡ next_byte (hex_digit c) (hex_digit d) (hex_decode cs)
unfolding hex_decode hex_digit
hex_decode-next c d cs = ground arith

hex_decode-map : (pin : Bytes) → hex_decode (map to_lower pin) ≡ hex_decode pin
unfolding hex_decode
hex_decode-map [] = refl
hex_decode-map (c ∷ []) = refl
hex_decode-map (c ∷ d ∷ cs) = again c d cs (hex_decode-map cs)
  where
    middle :
        (c d : ℕ) (cs : Bytes)
        → hex_decode (map to_lower cs) ≡ hex_decode cs
        → next_byte (hex_digit (to_lower c)) (hex_digit (to_lower d)) (hex_decode (map to_lower cs))
          ≡ next_byte (hex_digit c) (hex_digit d) (hex_decode cs)
    middle c d cs h = rw (hex_digit-to_lower c, hex_digit-to_lower d, h)

    again :
        (c d : ℕ) (cs : Bytes)
        → hex_decode (map to_lower cs) ≡ hex_decode cs
        → hex_decode (to_lower c ∷ to_lower d ∷ map to_lower cs) ≡ hex_decode (c ∷ d ∷ cs)
    again c d cs h =
        hex_decode-next (to_lower c) (to_lower d) (map to_lower cs)
        ∙ (middle c d cs h ∙ sym (hex_decode-next c d cs))

-- What a client may take from the proxy's answer.
pub record IsAnswer (q : ProxyRequest) (r : ProxyResponse) : Type 0 where
  pub version_is : eq_ℤ r.version (pos 1) ≡ true
  pub accepted : r.accepted ≡ true
  pub no_error : r.error ≡ []
  pub digest : is_digest (hex_decode r.pin_sha256) ≡ true
  pub same_pin :
      (equal q.operation (codes "connect") ≡ false)
      ⊎ (hex_decode r.pin_sha256 ≡ hex_decode q.pin_sha256)

not-not : (b : Bool) → not b ≡ false → b ≡ true
not-not true h = refl
not-not false h = cc

none_of_three : (a b c : Bool) → a || b || c ≡ false → (a ≡ false) × (b ≡ false) × (c ≡ false)
none_of_three false false c h = (refl, refl, h)
none_of_three false true c h = cc
none_of_three true b c h = cc

empty_lem : (bs : Bytes) → not (length bs == 0) ≡ false → bs ≡ []
empty_lem [] h = refl
empty_lem (b ∷ bs) h = absurd (ground arith)

folded : (a b : Bytes) → equal_fold a b ≡ true → hex_decode b ≡ hex_decode a
unfolding equal_fold
folded a b h =
    sym (hex_decode-map b)
    ∙ ap hex_decode (sym ((equal_iff (map to_lower a) (map to_lower b)).0 h))
    ∙ hex_decode-map a

check_response-IsAnswer :
    (q : ProxyRequest) (r : ProxyResponse) → check_response q r ≡ ok tt → IsAnswer q r
unfolding check_response is_pin
check_response-IsAnswer q r h =
    let (a, h₁) = passed (not (eq_ℤ r.version (pos 1))) _ _ h in
    let (b, h₂) = passed (not r.accepted) _ _ h₁ in
    let (c, h₃) =
      passed
        (not (is_pin r.pin_sha256) || not (length r.pin_sha256 == 64) || not (length r.error == 0))
        _ _ h₂ in
    let (d, _, e) =
      none_of_three (not (is_pin r.pin_sha256)) (not (length r.pin_sha256 == 64))
        (not (length r.error == 0)) c in
    let k =
      reject_if-passed
        (equal q.operation (codes "connect") && not (equal_fold q.pin_sha256 r.pin_sha256)) _ h₃ in
    record {
      version_is = not-not _ a;
      accepted = not-not _ b;
      no_error = empty_lem r.error e;
      digest = not-not _ d;
      same_pin =
          go (equal q.operation (codes "connect")) (equal_fold q.pin_sha256 r.pin_sha256) k
            (folded q.pin_sha256 r.pin_sha256);
    }
  where
    go :
        (b c : Bool)
        → b && not c ≡ false
        → (c ≡ true → hex_decode r.pin_sha256 ≡ hex_decode q.pin_sha256)
        → (b ≡ false) ⊎ (hex_decode r.pin_sha256 ≡ hex_decode q.pin_sha256)
    go false c h k = inl refl
    go true true h k = inr (k refl)
    go true false h k = cc

-- A connection that the proxy has opened to the node with the endpoint's key.
pub record IsConnected (e : Endpoint) (r : ProxyResponse) : Type 0 where
  pub endpoint_valid : validate_endpoint e ≡ ok tt
  pub transport_is : e.transport ≡ proxy_transport
  pub accepted : r.accepted ≡ true
  pub no_error : r.error ≡ []
  pub digest : is_digest (hex_decode r.pin_sha256) ≡ true
  pub same_pin : hex_decode r.pin_sha256 ≡ hex_decode e.pin_sha256

or_first : (a b : Bool) → a || b ≡ false → a ≡ false
or_first false b h = refl
or_first true b h = cc

module _ (around : Surroundings) where
  talk-IsAnswer :
      (q : ProxyRequest) (c c' : Channel) {r : ProxyResponse}
      → talk around q c ≡ (ok r, c')
      → IsAnswer q r
  unfolding talk
  talk-IsAnswer q c c' {r} h = >>=-elim set_deadline _ c h λ _ c₁ _ h₁.
      >>=-elim (on_link (on_output (write_proxy_message (around.marshal q)))) _ c₁ h₁ λ _ c₂ _ h₂.
        >>=-elim (on_link (on_input (read_proxy_message around.decode))) _ c₂ h₂ λ a c₃ _ h₃.
          lift-elim (check_response q a) _ c₃ h₃ λ _ k h₄.
            >>=-elim (on_link check_context) _ c₃ h₄ λ _ c₄ _ h₅.
              >>=-elim set_deadline _ c₄ h₅
                λ _ c₅ _ h₆. subst (IsAnswer q) (same h₆) (check_response-IsAnswer q a k)
    where
      same :
          {a b : ProxyResponse} {c d : Channel}
          → ◌≡◌ {A = Result ProxyResponse × Channel} (ok a, c) (ok b, d)
          → a ≡ b
      same h = cc

  connected_lem :
      (x : Result ProxyResponse × Channel) {r : ProxyResponse} {c : Channel}
      → connected x ≡ ok (r, c)
      → x ≡ (ok r, c)
  connected_lem (err e, d) h = cc
  connected_lem (ok a, d) h = cc

  proxy_handshake-IsAnswer :
      (address : Bytes) (timeout : ℤ) (q : ProxyRequest) {r : ProxyResponse} {c : Channel}
      → proxy_handshake around address timeout q ≡ ok (r, c)
      → IsAnswer q r
  unfolding proxy_handshake
  proxy_handshake-IsAnswer address timeout q h =
      chain-elim (validate_proxy_address around.is_loopback address) _ h λ _ _ h₁.
        let (_, h₂) = checked (is_negative timeout) _ _ h₁ in
        chain-elim (around.open_connection address) _ h₂
          λ c _ h₃. talk-IsAnswer q c _ (connected_lem (talk around q c) h₃)

  -- An endpoint of the proxy's transport.
  parse_proxy_endpoint_lem :
      (e : Endpoint) {x : Bytes × Bytes}
      → parse_proxy_endpoint around e ≡ ok x
      → (validate_endpoint e ≡ ok tt) × (e.transport ≡ proxy_transport)
  unfolding parse_proxy_endpoint
  parse_proxy_endpoint_lem e h = chain-elim (validate_endpoint e) _ h λ _ v h₁.
      chain-elim (read_url (around.parse_url e.address)) _ h₁ λ u _ h₂.
        let (a, _) = checked (bad_endpoint e u) _ _ h₂ in
        (
          v,
          (equal_iff e.transport proxy_transport).0
              (not-not _ (or_first (not (equal e.transport proxy_transport)) (bad_url u) a)),
        )

  connect_lem :
      (a b : Option Bytes) → (equal (codes "connect") (codes "connect") ≡ false) ⊎ (a ≡ b) → a ≡ b
  unfolding equal
  connect_lem a b (inl h) = absurd (true_false h)
    where
      true_false : true ≡ false → ⊥
      true_false h = cc
  connect_lem a b (inr h) = h

  -- When DialProxy returns a connection, its endpoint is valid and of the proxy's transport, and
  -- the proxy has accepted the request without an error and with a pin of 32 bytes that is the
  -- endpoint's, in whatever case they are written.
  pub dial_proxy-IsConnected :
      (e : Endpoint) {r : ProxyResponse} {c : Channel}
      → dial_proxy around e ≡ ok (r, c)
      → IsConnected e r
  unfolding dial_proxy
  dial_proxy-IsConnected e {r} {c} h = chain-elim (parse_proxy_endpoint around e) _ h λ x p h₁.
      let a =
        proxy_handshake-IsAnswer x.0 (pos 0)
          (record {
            version = pos 1;
            operation = codes "connect";
            authority = x.1;
            pin_sha256 = map to_lower e.pin_sha256;
          })
          h₁ in
      let (v, t) = parse_proxy_endpoint_lem e p in
      record {
        endpoint_valid = v;
        transport_is = t;
        accepted = a.accepted;
        no_error = a.no_error;
        digest = a.digest;
        same_pin =
            connect_lem (hex_decode r.pin_sha256) (hex_decode (map to_lower e.pin_sha256))
              a.same_pin
            ∙ hex_decode-map e.pin_sha256;
      }

  -- Over a connection that does not fail, for a request and an answer that are encoded in 1 to
  -- 4096 bytes, where the answer passes the checks, proxyHandshake sends the request, returns the
  -- answer, and leaves the bytes behind it unread for the TLS handshake.
  pub talk-message :
      (q : ProxyRequest) (r : ProxyResponse) (asked answered sent rest : Bytes) (fault : Error)
      → around.marshal q ≡ ok asked
      → (1 ≤ length asked) × (length asked ≤ 4096)
      → around.decode answered ≡ ok r
      → (1 ≤ length answered) × (length answered ≤ 4096)
      → check_response q r ≡ ok tt
      → talk around q
          (record { link = quiet (stream (message answered ++ rest) fault) sent; deadlines = [] })
        ≡ (
          ok r,
          record { link = quiet (stream rest fault) (sent ++ message asked); deadlines = [] },
        )
  unfolding talk on_link set_deadline on_input on_output check_context
  talk-message q r asked answered sent rest fault m (a, b) d (c, e) k =
      let out =
        (read_proxy_message-write_proxy_message around.decode asked sent rest fault a b).0 in
      let in_ =
        (read_proxy_message-write_proxy_message around.decode answered sent rest fault c e).1 in
      rw (m, out, in_, d, k)
