-- ===== src/Security.antt =====
-- security.go: identities, and what the callbacks of the TLS configurations accept.
mod Certificates
pub mod Hex
pub mod Identities
pub mod Peers
unfoldable pub use Certificates.*
use deep_protocol.Base.{
  ℕ, zero, suc, ◌+◌, ◌-◌, ◌*◌, ◌/◌, ◌%◌, Bool, true, false, not, ◌&&◌, ◌||◌, List, [], ◌∷◌, Bytes,
  length, codes, equal, contains, leb, ltb, ◌==◌, if◌then◌else◌, Option, none, some, Error, failure,
  Result, ok, err, reject_if, is_ok, ◌>>=◌, ◌>>◌, String,
}
use deep_protocol.Json.{hex_digit}
use deep_protocol.Uri.{validate_authority}
use deep_protocol.Limits.{second, minute}

unfoldable pub validate_identity_key : Certificate → Result (Unit {0})
validate_identity_key leaf =
    reject_if (not (is_mldsa65 leaf.public_key))
      (failure "DEEP V2 requires an ML-DSA-65 identity; classical authentication is forbidden")

abbrev pub one_canonical_name : List Bytes → Bool
one_canonical_name (name ∷ []) = is_ok (validate_authority name)
one_canonical_name _ = false

abbrev pub first_name : List Bytes → Bytes
first_name [] = []
first_name (name ∷ names) = name

-- `now` is the time of the check.
unfoldable pub validate_identity : ℕ → Certificate → Bytes → Usage → Result (Unit {0})
unfolding validate_identity_key
validate_identity now leaf authority usage = do
  validate_identity_key leaf
  reject_if
      (not (is_mldsa65_signature leaf.signature_algorithm) || not (equal leaf.issuer leaf.subject))
      (failure "DEEP identity must be self-signed with ML-DSA-65")
  reject_if (not leaf.self_signed) (failure "DEEP identity self-signature")
  reject_if
      (not leaf.basic_constraints_valid
        || leaf.is_ca
        || not (leaf.key_usage == digital_signature)
        || not (only_usage usage leaf.ext_key_usage)
        || not (leaf.unknown_ext_key_usage == 0))
      (failure "DEEP identity has an invalid certificate role or key usage")
  reject_if (not (leaf.unhandled_critical_extensions == 0))
      (failure "DEEP identity contains an unsupported critical extension")
  reject_if
      (not (one_canonical_name leaf.dns_names)
        || not (leaf.ip_addresses == 0)
        || not (leaf.email_addresses == 0)
        || not (leaf.uris == 0))
      (failure "DEEP identity requires one canonical node.network DNS name")
  reject_if (not (length authority == 0) && not (equal (first_name leaf.dns_names) authority))
      (failure "DEEP identity authority mismatch")
  reject_if (ltb now leaf.not_before || not (ltb now leaf.not_after))
      (failure "DEEP identity is outside its validity period")

unfoldable pub verify_security_profile : ConnectionState → Result (Unit {0})
verify_security_profile state = do
  reject_if (not (state.version == tls13)) (failure "DEEP V2 requires TLS 1.3")
  reject_if (not (state.curve == x25519_mlkem768))
      (failure "DEEP V2 requires X25519MLKEM768; classical fallback is forbidden")
  reject_if (not (equal state.negotiated_protocol alpn)) (failure "DEEP V2 ALPN was not negotiated")
  reject_if state.did_resume (failure "DEEP V2 requires a fresh authenticated handshake")

abbrev pub check_keys : List Certificate → Result (Unit {0})
check_keys [] = ok tt
check_keys (leaf ∷ leaves) = validate_identity_key leaf >> check_keys leaves

-- `VerifyConnection` of a `tls.Config`, at the time of the handshake.
abbrev pub Verifier : Type 0
Verifier = ℕ → ConnectionState → Result (Unit {0})

abbrev same_key : PublicKey → PublicKey → Bool
same_key (mldsa65 a) (mldsa65 b) = equal a b
same_key _ _ = false

abbrev signs_for : Certificate → PrivateKey → Result (Unit {0})
signs_for leaf no_signer = err (failure "DEEP identity requires a signing private key")
signs_for leaf (signer key) =
    reject_if (not (is_mldsa65 key) || not (same_key key leaf.public_key))
      (failure "DEEP identity private key does not match its ML-DSA-65 certificate")

abbrev the_peer : String → List Certificate → Result Certificate
the_peer message (leaf ∷ []) = ok leaf
the_peer message _ = err (failure message)

-- The loop over the pins of a private server, behind those that it has decoded.
unfoldable pub trusted_pins : List Bytes → List Bytes → Result (List Bytes)
unfolding contains
trusted_pins seen [] = ok seen
trusted_pins seen (pin ∷ pins) = do
  digest ← decode_identity_pin pin
  reject_if (contains seen digest) (failure "duplicate trusted client pin")
  trusted_pins (digest ∷ seen) pins

module _ (crypto : Crypto) where
  abbrev parsed : Option Certificate → Result Certificate
  parsed none = err (failure "parse DEEP identity")
  parsed (some leaf) = ok leaf

  unfoldable pub identity_leaf : Identity → Result Certificate
  identity_leaf cert = elim cert.chain [
    | der ∷ rest ↦ elim rest [
      | [] ↦ parsed (crypto.parse_certificate der)
      | next ∷ others ↦
          err (failure "DEEP V2 requires exactly one self-signed identity certificate")
    ]
    | [] ↦ err (failure "DEEP V2 requires exactly one self-signed identity certificate")
  ]

  unfoldable pub identity_pin : Identity → Result Bytes
  identity_pin cert = do
    leaf ← identity_leaf cert
    validate_identity_key leaf
    ok (hex_encode (crypto.digest leaf.spki))

  unfoldable pub validate_local_identity : ℕ → Identity → Bytes → Usage → Result (Unit {0})
  validate_local_identity now cert authority usage = do
    leaf ← identity_leaf cert
    validate_identity now leaf authority usage
    signs_for leaf cert.private_key

  unfoldable pub validate_server_identity : ℕ → Identity → Bytes → Result (Unit {0})
  validate_server_identity now cert authority = do
    validate_authority authority
    validate_local_identity now cert authority server_auth

  unfoldable pub validate_client_identity : ℕ → Identity → Result (Unit {0})
  validate_client_identity now cert = validate_local_identity now cert [] client_auth

  -- The callback of `ServerTLSConfig`.
  unfoldable pub server_verifier : Identity → Verifier
  server_verifier cert now state = do
    verify_security_profile state
    reject_if (length state.server_name == 0) (failure "DEEP requires an authority in TLS SNI")
    validate_server_identity now cert state.server_name

  -- The callback of `ServerTLSConfigWithClientPins`, for the decoded pins.
  unfoldable pub private_verifier : Identity → List Bytes → Verifier
  private_verifier cert trusted now state = do
    server_verifier cert now state
    leaf ← the_peer "DEEP requires one pinned client identity" state.peer_certificates
    reject_if (not (contains trusted (crypto.digest leaf.spki)))
        (failure "DEEP client identity is not authorized")
    validate_identity now leaf [] client_auth

  -- `ServerTLSConfigWithClientPins`; of the configuration, its callback.
  unfoldable pub private_server : ℕ → Identity → List Bytes → Result Verifier
  private_server now cert pins = do
    validate_local_identity now cert [] server_auth
    reject_if (length pins == 0 || ltb max_client_pins (length pins))
        (failure "private servers require 1 to 256 trusted client pins")
    trusted ← trusted_pins [] pins
    ok (private_verifier cert trusted)

  -- The callback of `ClientTLSConfig`, for the decoded pin.
  unfoldable pub client_verifier : Bytes → Bytes → Verifier
  client_verifier authority expected now state = do
    verify_security_profile state
    leaf ←
        the_peer "DEEP server must present exactly one identity certificate" state.peer_certificates
    reject_if (not (equal expected (crypto.digest leaf.spki)))
        (failure "DEEP server identity pin mismatch")
    validate_identity now leaf authority server_auth

  -- `ClientTLSConfig`; of the configuration, its callback.
  unfoldable pub client_config : Bytes → Bytes → Result Verifier
  client_config authority pin = do
    validate_authority authority
    expected ← decode_identity_pin pin
    ok (client_verifier authority expected)

  unfoldable pub inspect_security : ConnectionState → Result SecurityInfo
  inspect_security state = do
    reject_if (not state.handshake_complete) (failure "DEEP TLS handshake is incomplete")
    verify_security_profile state
    check_keys state.peer_certificates
    ok (record {
      tls_version = crypto.version_name state.version;
      key_exchange = crypto.curve_name state.curve;
      cipher_suite = crypto.cipher_suite_name state.cipher_suite;
      authentication = codes "ML-DSA-65";
      post_quantum_key_exchange = true;
      post_quantum_authentication = true;
    })

-- `generateIdentity`: the certificate that comes of its template and a fresh key, as
-- `ParseCertificate` reads it back: X.509 keeps whole seconds. `spki` and `subject` are the DER of
-- the key and of the name; a negative duration is 0 here. Left out are the serial number, the errors
-- of the random source and of the encoders, and the PEM texts and the pin that are made of the
-- certificate and its key.
unfoldable pub generate_identity :
    ℕ → Bytes → Bytes → Bytes → Bytes → ℕ → Usage → Result Certificate
generate_identity now key spki subject authority valid_for usage = do
  validate_authority authority
  reject_if (valid_for == 0) (failure "identity validity must be positive")
  ok (record {
    public_key = mldsa65 key;
    spki = spki;
    signature_algorithm = mldsa65_signature;
    issuer = subject;
    subject = subject;
    self_signed = true;
    basic_constraints_valid = true;
    is_ca = false;
    key_usage = digital_signature;
    ext_key_usage = usage ∷ [];
    unknown_ext_key_usage = 0;
    unhandled_critical_extensions = 0;
    dns_names = authority ∷ [];
    ip_addresses = 0;
    email_addresses = 0;
    uris = 0;
    not_before = (now - minute) / second * second;
    not_after = (now + valid_for) / second * second;
  })
