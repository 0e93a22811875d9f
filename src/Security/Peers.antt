-- ===== src/Security/Peers.antt =====
-- Whom the TLS callbacks let in.
use deep_protocol.Base.{
  ℕ, ◌≡◌, ◌⊎◌, inl, inr, refl, Bool, true, false, not, ◌||◌, List, [], ◌∷◌, Bytes, length, equal,
  equal_iff, contains, ltb, ◌==◌, ok, err, Error, reject_if, arith, checked, chain-elim, subst,
  Option, none, some, ap, sym, ◌∙◌, All, IsByte, String,
}
use deep_protocol.Uri.{validate_authority}
use deep_protocol.Security.{
  Certificate, Crypto, Identity, ConnectionState, Verifier, server_auth, client_auth, alpn, tls13,
  x25519_mlkem768, hex_decode, sized_pin, decode_identity_pin, verify_security_profile, the_peer,
  client_verifier, client_config, private_verifier, private_server, server_verifier, trusted_pins,
  max_client_pins, validate_local_identity, identity_leaf, identity_pin, validate_identity_key,
}
use deep_protocol.Security.Identities.{IsIdentity, Named, validate_identity-IsIdentity}
use deep_protocol.Security.Hex.{hex_decode-hex_encode}

-- The profile of a connection.
pub record IsProfile (state : ConnectionState) : Type 0 where
  pub version_is : state.version ≡ tls13
  pub curve_is : state.curve ≡ x25519_mlkem768
  pub protocol_is : state.negotiated_protocol ≡ alpn
  pub fresh : state.did_resume ≡ false

is_same : (a b : ℕ) → not (a == b) ≡ false → a ≡ b
is_same a b h = ground arith

not-false : (b : Bool) → not b ≡ false → b ≡ true
not-false true h = refl
not-false false h = cc

last_passed : (b : Bool) (e : Error) → reject_if b e ≡ ok tt → b ≡ false
last_passed true e h = cc
last_passed false e h = refl

verify_security_profile-IsProfile :
    (state : ConnectionState) → verify_security_profile state ≡ ok tt → IsProfile state
unfolding verify_security_profile
verify_security_profile-IsProfile state h =
    let (a, h₁) = checked (not (state.version == tls13)) _ _ h in
    let (b, h₂) = checked (not (state.curve == x25519_mlkem768)) _ _ h₁ in
    let (c, h₃) = checked (not (equal state.negotiated_protocol alpn)) _ _ h₂ in
    record {
      version_is = is_same state.version tls13 a;
      curve_is = is_same state.curve x25519_mlkem768 b;
      protocol_is = (equal_iff state.negotiated_protocol alpn).0 (not-false _ c);
      fresh = last_passed state.did_resume _ h₃;
    }

or_cases : (a b : Bool) → (a || b) ≡ true → (a ≡ true) ⊎ (b ≡ true)
or_cases true b h = inl refl
or_cases false b h = inr h

pin_injective : {a b : Bytes} → ok a ≡ ok b → a ≡ b
pin_injective e = cc

pins_injective : {a b : List Bytes} → ok a ≡ ok b → a ≡ b
pins_injective e = cc

the_peer_lem :
    (message : String) (leaves : List Certificate) {leaf : Certificate}
    → the_peer message leaves ≡ ok leaf
    → leaves ≡ leaf ∷ []
the_peer_lem message [] h = cc
the_peer_lem message (a ∷ []) h = cc
the_peer_lem message (a ∷ b ∷ leaves) h = cc

sized_pin_lem :
    (o : Option Bytes) {digest : Bytes}
    → sized_pin o ≡ ok digest
    → (o ≡ some digest) × (length digest ≡ 32)
sized_pin_lem none h = cc
sized_pin_lem (some d) h = ground arith

module _ (crypto : Crypto) where
  -- The one certificate of the peer has the pinned key and is a valid identity for its role.
  pub record Authentic (now : ℕ) (state : ConnectionState) (authority pin : Bytes) : Type 0 where
    pub profile : IsProfile state
    pub leaf : Certificate
    pub only_peer : state.peer_certificates ≡ leaf ∷ []
    pub pinned : hex_decode pin ≡ some (crypto.digest leaf.spki)
    pub server_role : IsIdentity now leaf server_auth
    pub named : Named authority leaf

  verifier-Authentic :
      (authority pin expected : Bytes) (now : ℕ) (state : ConnectionState)
      → hex_decode pin ≡ some expected
      → client_verifier crypto authority expected now state ≡ ok tt
      → Authentic now state authority pin
  unfolding client_verifier
  verifier-Authentic authority pin expected now state p h =
      chain-elim (verify_security_profile state) _ h λ _ a h₁.
        chain-elim
          (the_peer "DEEP server must present exactly one identity certificate"
            state.peer_certificates)
          _ h₁
          λ leaf b h₂.
            let (c, h₃) = checked (not (equal expected (crypto.digest leaf.spki))) _ _ h₂ in
            let (i, n) = (validate_identity-IsIdentity now leaf authority server_auth).0 h₃ in
            record {
              profile = verify_security_profile-IsProfile state a;
              leaf = leaf;
              only_peer = the_peer_lem _ state.peer_certificates b;
              pinned =
                  p ∙ ap some ((equal_iff expected (crypto.digest leaf.spki)).0 (not-false _ c));
              server_role = i;
              named = n;
            }

  -- A TLS state that the callback of ClientTLSConfig accepts has the DEEP profile and exactly one
  -- certificate, whose key has the pin and which is a valid server identity of the authority at
  -- that time.
  pub client_config-Authentic :
      (authority pin : Bytes) {verify : Verifier}
      → client_config crypto authority pin ≡ ok verify
      → (now : ℕ) (state : ConnectionState) → verify now state ≡ ok tt
      → Authentic now state authority pin
  unfolding client_config decode_identity_pin
  client_config-Authentic authority pin {verify} h now state v =
      chain-elim (validate_authority authority) _ h λ _ _ h₁.
        chain-elim (sized_pin (hex_decode pin)) _ h₁ λ expected p h₂.
          verifier-Authentic authority pin expected now state (sized_pin_lem (hex_decode pin) p).0
            (same_verifier expected h₂ ∙ v)
    where
      same_verifier :
          (expected : Bytes)
          → ok (client_verifier crypto authority expected) ≡ ok verify
          → client_verifier crypto authority expected now state ≡ verify now state
      same_verifier _ e = ap (λ r. elim r [ ok f ↦ f now state | err x ↦ err x ]) e

  -- One of the pins is the peer's.
  abbrev pub Pinned : List Bytes → Certificate → Type 0
  Pinned [] leaf = ⊥
  Pinned (pin ∷ pins) leaf = (hex_decode pin ≡ some (crypto.digest leaf.spki)) ⊎ Pinned pins leaf

  trusted_pins-Pinned :
      (seen pins : List Bytes) (leaf : Certificate) {trusted : List Bytes}
      → trusted_pins seen pins ≡ ok trusted
      → contains trusted (crypto.digest leaf.spki) ≡ true
      → (contains seen (crypto.digest leaf.spki) ≡ true) ⊎ Pinned pins leaf
  unfolding trusted_pins decode_identity_pin contains
  trusted_pins-Pinned seen [] leaf h c =
      inl (subst (λ t. contains t (crypto.digest leaf.spki) ≡ true) (sym (pins_injective h)) c)
  trusted_pins-Pinned seen (pin ∷ pins) leaf h c =
      chain-elim (sized_pin (hex_decode pin)) _ h λ digest p h₁.
        let (f, h₂) = checked (contains seen digest) _ _ h₁ in
        elim (trusted_pins-Pinned (digest ∷ seen) pins leaf h₂ c) [
          | inr q ↦ inr (inr q)
          | inl e ↦ elim (or_cases (equal digest (crypto.digest leaf.spki)) _ e) [
            | inl same ↦ inr (
                inl (
                  (sized_pin_lem (hex_decode pin) p).0
                  ∙ ap some ((equal_iff digest (crypto.digest leaf.spki)).0 same)))
            | inr old ↦ inl old
          ]
        ]

  pub record Authorized (now : ℕ) (state : ConnectionState) (pins : List Bytes) : Type 0 where
    pub profile : IsProfile state
    pub leaf : Certificate
    pub only_peer : state.peer_certificates ≡ leaf ∷ []
    pub pinned : Pinned pins leaf
    pub client_role : IsIdentity now leaf client_auth

  private_verifier-Authorized :
      (cert : Identity) (pins trusted : List Bytes) (now : ℕ) (state : ConnectionState)
      → trusted_pins [] pins ≡ ok trusted
      → private_verifier crypto cert trusted now state ≡ ok tt
      → Authorized now state pins
  unfolding private_verifier server_verifier contains
  private_verifier-Authorized cert pins trusted now state t h =
      chain-elim (server_verifier crypto cert now state) _ h λ _ s h₁.
        chain-elim (verify_security_profile state) _ s λ _ a _.
          chain-elim (the_peer "DEEP requires one pinned client identity" state.peer_certificates) _
            h₁
            λ leaf b h₂.
              let (c, h₃) = checked (not (contains trusted (crypto.digest leaf.spki))) _ _ h₂ in
              let (i, n) = (validate_identity-IsIdentity now leaf [] client_auth).0 h₃ in
              record {
                profile = verify_security_profile-IsProfile state a;
                leaf = leaf;
                only_peer = the_peer_lem _ state.peer_certificates b;
                pinned = elim (trusted_pins-Pinned [] pins leaf t (not-false _ c)) [
                  | inl e ↦ absurd (false_true e)
                  | inr q ↦ q
                ];
                client_role = i;
              }
    where
      false_true : false ≡ true → ⊥
      false_true e = cc

  -- A TLS state that the callback of ServerTLSConfigWithClientPins accepts has the DEEP profile
  -- and exactly one certificate, whose key has one of the configured pins and which is a valid
  -- client identity at that time.
  pub private_server-Authorized :
      (start : ℕ) (cert : Identity) (pins : List Bytes) {verify : Verifier}
      → private_server crypto start cert pins ≡ ok verify
      → (now : ℕ) (state : ConnectionState) → verify now state ≡ ok tt
      → Authorized now state pins
  unfolding private_server
  private_server-Authorized start cert pins {verify} h now state v =
      chain-elim (validate_local_identity crypto start cert [] server_auth) _ h λ _ _ h₁.
        let (_, h₂) = checked (length pins == 0 || ltb max_client_pins (length pins)) _ _ h₁ in
        chain-elim (trusted_pins [] pins) _ h₂ λ trusted t h₃.
          private_verifier-Authorized cert pins trusted now state t (same_verifier trusted h₃ ∙ v)
    where
      same_verifier :
          (trusted : List Bytes)
          → ok (private_verifier crypto cert trusted) ≡ ok verify
          → private_verifier crypto cert trusted now state ≡ verify now state
      same_verifier _ e = ap (λ r. elim r [ ok f ↦ f now state | err x ↦ err x ]) e

  -- For a digest of 32 bytes, the pin that IdentityPin returns of a certificate is decoded to the
  -- digest of its key.
  pub decode_identity_pin-identity_pin :
      (cert : Identity) {pin : Bytes}
      → ((bs : Bytes) → (length (crypto.digest bs) ≡ 32) × All IsByte (crypto.digest bs))
      → identity_pin crypto cert ≡ ok pin
      → (leaf : Certificate) × (identity_leaf crypto cert ≡ ok leaf)
        × (decode_identity_pin pin ≡ ok (crypto.digest leaf.spki))
  unfolding identity_pin decode_identity_pin
  decode_identity_pin-identity_pin cert {pin} sized h =
      chain-elim (identity_leaf crypto cert) _ h λ leaf a h₁.
        chain-elim (validate_identity_key leaf) _ h₁ λ _ _ h₂.
          let (long, bytes) = sized leaf.spki in
          let back = hex_decode-hex_encode (crypto.digest leaf.spki) bytes in
          let same = ap hex_decode (sym (pin_injective h₂)) ∙ back in
          let fits : (length (crypto.digest leaf.spki) == 32) ≡ true = ground (arith, long) in
          (leaf, a, rw (same, fits) refl)
