-- ===== src/Examples/Identities.antt =====
-- The theorems on identities at concrete inputs.
use deep_protocol.Base.{
  ◌*◌, ◌≡◌, ◌<◌, ◌↔◌, refl, true, false, [], ◌∷◌, Bytes, codes, equal, contains, some, ok, All,
  IsByte, arith,
}
use deep_protocol.Json.{hex_digit}
use deep_protocol.Uri.{valid_label, is_lower_alnum, validate_authority, split_dots}
use deep_protocol.Limits.{second}
use deep_protocol.Security.{
  Certificate, mldsa65, mldsa65_signature, Usage, server_auth, client_auth, signer, Identity,
  ConnectionState, Crypto, Verifier, tls13, x25519_mlkem768, alpn, digital_signature, hex_decode,
  hex_encode, decode_identity_pin, validate_identity_key, validate_identity,
  verify_security_profile, trusted_pins, identity_leaf, identity_pin, validate_local_identity,
  validate_server_identity, server_verifier, private_verifier, private_server, client_verifier,
  client_config, generate_identity,
}
use deep_protocol.Security.Hex.{hex_decode-hex_encode}
use deep_protocol.Security.Identities.{
  IsIdentity, Named, validate_identity-IsIdentity, generate_identity-IsIdentity,
}
use deep_protocol.Security.Peers.{
  Authentic, Authorized, client_config-Authentic, private_server-Authorized,
  decode_identity_pin-identity_pin,
}

hex_decode-hex_encode_example : hex_decode (hex_encode (10 ∷ 255 ∷ [])) ≡ some (10 ∷ 255 ∷ [])
hex_decode-hex_encode_example =
    hex_decode-hex_encode (10 ∷ 255 ∷ []) (omega arith, (omega arith, tt))

-- A day from the time `second`.
abbrev pub certificate : Usage → Certificate
certificate usage = record {
  public_key = mldsa65 (codes "key");
  spki = codes "spki";
  signature_algorithm = mldsa65_signature;
  issuer = codes "CN=a.b";
  subject = codes "CN=a.b";
  self_signed = true;
  basic_constraints_valid = true;
  is_ca = false;
  key_usage = digital_signature;
  ext_key_usage = usage ∷ [];
  unknown_ext_key_usage = 0;
  unhandled_critical_extensions = 0;
  dns_names = codes "a.b" ∷ [];
  ip_addresses = 0;
  email_addresses = 0;
  uris = 0;
  not_before = second;
  not_after = 86401 * second;
}

abbrev pub pin : Bytes
pin = codes "0707070707070707070707070707070707070707070707070707070707070707"

abbrev sevens : Bytes
sevens =
    7 ∷ 7 ∷ 7 ∷ 7 ∷ 7 ∷ 7 ∷ 7 ∷ 7 ∷ 7 ∷ 7 ∷ 7 ∷ 7 ∷ 7 ∷ 7 ∷ 7 ∷ 7 ∷ 7 ∷ 7 ∷ 7 ∷ 7 ∷ 7 ∷ 7 ∷ 7 ∷ 7
    ∷ 7 ∷ 7 ∷ 7 ∷ 7 ∷ 7 ∷ 7 ∷ 7 ∷ 7 ∷ []

-- Every certificate is the server's, and every digest is the same.
abbrev pub toy_crypto : Crypto
toy_crypto = record {
  parse_certificate = λ der. some (certificate server_auth);
  digest = λ raw. sevens;
  version_name = λ n. codes "TLS 1.3";
  curve_name = λ n. codes "X25519MLKEM768";
  cipher_suite_name = λ n. codes "TLS_AES_128_GCM_SHA256";
}

abbrev own : Identity
own = record { chain = codes "der" ∷ []; private_key = signer (mldsa65 (codes "key")) }

abbrev pub handshaken : Usage → ConnectionState
handshaken usage = record {
  version = tls13;
  curve = x25519_mlkem768;
  cipher_suite = 0x1301;
  negotiated_protocol = alpn;
  did_resume = false;
  handshake_complete = true;
  server_name = codes "a.b";
  peer_certificates = certificate usage ∷ [];
}

validate_identity-IsIdentity_example :
    (validate_identity (2 * second) (certificate server_auth) (codes "a.b") server_auth ≡ ok tt) ↔ (
      IsIdentity (2 * second) (certificate server_auth) server_auth
      × Named (codes "a.b") (certificate server_auth))
validate_identity-IsIdentity_example =
    validate_identity-IsIdentity (2 * second) (certificate server_auth) (codes "a.b") server_auth

generated :
    generate_identity
      (61 * second)
      (codes "key")
      (codes "spki")
      (codes "CN=a.b")
      (codes "a.b")
      (86340 * second)
      server_auth
    ≡ ok (certificate server_auth)
unfolding generate_identity validate_authority valid_label is_lower_alnum split_dots
generated = refl

generate_identity-IsIdentity_example :
    IsIdentity (70 * second) (certificate server_auth) server_auth
    × ((certificate server_auth).dns_names ≡ codes "a.b" ∷ [])
generate_identity-IsIdentity_example =
    generate_identity-IsIdentity (61 * second) (codes "key") (codes "spki") (codes "CN=a.b")
      (codes "a.b") (86340 * second) server_auth generated (70 * second) (omega arith) (omega arith)

abbrev client_check : Verifier
client_check = client_verifier toy_crypto (codes "a.b") sevens

configured : client_config toy_crypto (codes "a.b") pin ≡ ok client_check
unfolding client_config validate_authority valid_label is_lower_alnum split_dots decode_identity_pin
    hex_decode hex_digit
configured = refl

verified : client_check (2 * second) (handshaken server_auth) ≡ ok tt
unfolding client_verifier verify_security_profile validate_identity validate_identity_key
    validate_authority valid_label is_lower_alnum split_dots equal
verified = refl

client_config-Authentic_example :
    Authentic toy_crypto (2 * second) (handshaken server_auth) (codes "a.b") pin
client_config-Authentic_example =
    client_config-Authentic toy_crypto (codes "a.b") pin configured (2 * second)
      (handshaken server_auth) verified

abbrev private_check : Verifier
private_check = private_verifier toy_crypto own (sevens ∷ [])

guarded : private_server toy_crypto (2 * second) own (pin ∷ []) ≡ ok private_check
unfolding private_server validate_local_identity identity_leaf validate_identity
    validate_identity_key trusted_pins decode_identity_pin hex_decode hex_digit validate_authority
    valid_label is_lower_alnum split_dots equal contains
guarded = refl

admitted : private_check (2 * second) (handshaken client_auth) ≡ ok tt
unfolding private_verifier server_verifier validate_server_identity validate_local_identity
    identity_leaf verify_security_profile validate_identity validate_identity_key validate_authority
    valid_label is_lower_alnum split_dots equal contains
admitted = refl

private_server-Authorized_example :
    Authorized toy_crypto (2 * second) (handshaken client_auth) (pin ∷ [])
private_server-Authorized_example =
    private_server-Authorized toy_crypto (2 * second) own (pin ∷ []) guarded (2 * second)
      (handshaken client_auth) admitted

key_pinned : identity_pin toy_crypto own ≡ ok pin
unfolding identity_pin identity_leaf validate_identity_key hex_encode
key_pinned = refl

small : 7 < 256
small = omega arith

all_sevens : All IsByte sevens
all_sevens = (
  small,
  (
    small,
    (
      small,
      (
        small,
        (
          small,
          (
            small,
            (
              small,
              (
                small,
                (
                  small,
                  (
                    small,
                    (
                      small,
                      (
                        small,
                        (
                          small,
                          (
                            small,
                            (
                              small,
                              (
                                small,
                                (
                                  small,
                                  (
                                    small,
                                    (
                                      small,
                                      (
                                        small,
                                        (
                                          small,
                                          (
                                            small,
                                            (
                                              small,
                                              (
                                                small,
                                                (
                                                  small,
                                                  (
                                                    small,
                                                    (
                                                      small,
                                                      (
                                                        small,
                                                        (small, (small, (small, (small, tt)))),
                                                      ),
                                                    ),
                                                  ),
                                                ),
                                              ),
                                            ),
                                          ),
                                        ),
                                      ),
                                    ),
                                  ),
                                ),
                              ),
                            ),
                          ),
                        ),
                      ),
                    ),
                  ),
                ),
              ),
            ),
          ),
        ),
      ),
    ),
  ),
)

decode_identity_pin-identity_pin_example :
    (leaf : Certificate) × (identity_leaf toy_crypto own ≡ ok leaf)
    × (decode_identity_pin pin ≡ ok (toy_crypto.digest leaf.spki))
decode_identity_pin-identity_pin_example =
    decode_identity_pin-identity_pin toy_crypto own (λ raw. (refl, all_sevens)) key_pinned
