-- ===== src/Security/Certificates.antt =====
-- security.go: what crypto/x509 and crypto/tls tell of a connection, and the pins. Certificates are
-- records of what crypto/x509 parses; `self_signed` is whether `CheckSignature` of the certificate
-- under its own key succeeds. A time is its nanoseconds.
use deep_protocol.Base.{
  ℕ, ◌+◌, ◌-◌, ◌*◌, ◌/◌, ◌%◌, Bool, true, false, List, [], ◌∷◌, Bytes, length, codes, ltb, ◌==◌,
  if◌then◌else◌, Option, none, some, failure, Result, ok, err,
}
use deep_protocol.Json.{hex_digit}

-- A key of ML-DSA-65, or any other key or none.
pub data PublicKey : Type 0 where
  mldsa65 : Bytes → PublicKey
  other_key : PublicKey

pub data SignatureAlgorithm : Type 0 where
  mldsa65_signature other_signature : SignatureAlgorithm

-- `x509.ExtKeyUsage`
pub data Usage : Type 0 where
  server_auth client_auth other_usage : Usage

pub record Certificate : Type 0 where
  pub public_key : PublicKey
  pub spki : Bytes
  pub signature_algorithm : SignatureAlgorithm
  pub issuer : Bytes
  pub subject : Bytes
  pub self_signed : Bool
  pub basic_constraints_valid : Bool
  pub is_ca : Bool
  pub key_usage : ℕ
  pub ext_key_usage : List Usage
  pub unknown_ext_key_usage : ℕ
  pub unhandled_critical_extensions : ℕ
  pub dns_names : List Bytes
  pub ip_addresses : ℕ
  pub email_addresses : ℕ
  pub uris : ℕ
  pub not_before : ℕ
  pub not_after : ℕ

-- The private key of a `tls.Certificate`: a signer with its public key, or something else.
pub data PrivateKey : Type 0 where
  signer : PublicKey → PrivateKey
  no_signer : PrivateKey

-- `tls.Certificate`, its chain in DER.
pub record Identity : Type 0 where
  pub chain : List Bytes
  pub private_key : PrivateKey

-- `tls.ConnectionState`
pub record ConnectionState : Type 0 where
  pub version : ℕ
  pub curve : ℕ
  pub cipher_suite : ℕ
  pub negotiated_protocol : Bytes
  pub did_resume : Bool
  pub handshake_complete : Bool
  pub server_name : Bytes
  pub peer_certificates : List Certificate

-- crypto/x509's parser, the digest of crypto/sha256, and the names of crypto/tls.
pub record Crypto : Type 0 where
  pub parse_certificate : Bytes → Option Certificate
  pub digest : Bytes → Bytes
  pub version_name : ℕ → Bytes
  pub curve_name : ℕ → Bytes
  pub cipher_suite_name : ℕ → Bytes

pub record SecurityInfo : Type 0 where
  pub tls_version : Bytes
  pub key_exchange : Bytes
  pub cipher_suite : Bytes
  pub authentication : Bytes
  pub post_quantum_key_exchange : Bool
  pub post_quantum_authentication : Bool

abbrev pub alpn : Bytes
alpn = codes "deep/2"

abbrev pub max_client_pins : ℕ
max_client_pins = 256

-- `tls.VersionTLS13`
abbrev pub tls13 : ℕ
tls13 = 0x0304

-- `tls.X25519MLKEM768`
abbrev pub x25519_mlkem768 : ℕ
x25519_mlkem768 = 4588

-- `x509.KeyUsageDigitalSignature`
abbrev pub digital_signature : ℕ
digital_signature = 1

abbrev pub same_usage : Usage → Usage → Bool
same_usage server_auth server_auth = true
same_usage client_auth client_auth = true
same_usage other_usage other_usage = true
same_usage _ _ = false

abbrev pub is_mldsa65_signature : SignatureAlgorithm → Bool
is_mldsa65_signature mldsa65_signature = true
is_mldsa65_signature other_signature = false

-- `len(usages) == 1 && usages[0] == usage`
abbrev pub only_usage : Usage → List Usage → Bool
only_usage usage (u ∷ []) = same_usage u usage
only_usage usage _ = false

-- `hex.DecodeString`
unfoldable pub hex_decode : Bytes → Option Bytes
unfolding hex_digit
hex_decode [] = some []
hex_decode (c ∷ []) = none
hex_decode (c ∷ d ∷ cs) = elim (hex_digit c) [
  | none ↦ none
  | some high ↦ elim (hex_digit d) [
    | none ↦ none
    | some low ↦ elim (hex_decode cs) [ none ↦ none | some rest ↦ some ((high * 16 + low) ∷ rest) ]
  ]
]

abbrev pub hex_char : ℕ → ℕ
hex_char n = if ltb n 10 then b'0' + n else b'a' + (n - 10)

-- `hex.EncodeToString`
unfoldable pub hex_encode : Bytes → Bytes
hex_encode [] = []
hex_encode (b ∷ bs) = hex_char (b / 16) ∷ hex_char (b % 16) ∷ hex_encode bs

abbrev pub sized_pin : Option Bytes → Result Bytes
sized_pin none = err (failure "identity pin must contain exactly 64 hexadecimal characters")
sized_pin (some digest) =
    if length digest == 32
    then ok digest
    else err (failure "identity pin must contain exactly 64 hexadecimal characters")

unfoldable pub decode_identity_pin : Bytes → Result Bytes
unfolding hex_decode
decode_identity_pin pin = sized_pin (hex_decode pin)

abbrev pub is_mldsa65 : PublicKey → Bool
is_mldsa65 (mldsa65 key) = true
is_mldsa65 other_key = false
