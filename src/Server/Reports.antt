-- ===== src/Server/Reports.antt =====
-- What `sendError` reports to the peer.
use deep_protocol.Base.{
  ◌≡◌, Bytes, codes, Bool, false, Error, protocol, remote, ok, is_ok, is_ok_lem, Bool-cases, inl,
  inr,
}
use deep_protocol.Json.{utf8_from}
use deep_protocol.Messages.{validate_remote_error}
use deep_protocol.Server.{reported}

own-valid :
    (has_hidden : Bytes → Bool)
    → has_hidden (codes "invalid DEEP message") ≡ false
    → validate_remote_error has_hidden
        (record { code = codes "PROTOCOL_ERROR"; message = codes "invalid DEEP message" })
      ≡ ok tt
unfolding validate_remote_error utf8_from
own-valid has_hidden a = rw a

internal-valid :
    (has_hidden : Bytes → Bool)
    → has_hidden (codes "resource provider failed") ≡ false
    → validate_remote_error has_hidden
        (record { code = codes "INTERNAL_ERROR"; message = codes "resource provider failed" })
      ≡ ok tt
unfolding validate_remote_error utf8_from
internal-valid has_hidden b = rw b

-- Where the two texts of sendError itself have no control or format characters, every error that
-- it reports, whatever the cause, is a valid remote error.
pub validate_remote_error-reported :
    (has_hidden : Bytes → Bool)
    → has_hidden (codes "invalid DEEP message") ≡ false
    → has_hidden (codes "resource provider failed") ≡ false
    → (cause : Error) → validate_remote_error has_hidden (reported has_hidden cause) ≡ ok tt
unfolding reported
validate_remote_error-reported hh a b (protocol m) = own-valid hh a
validate_remote_error-reported hh a b (remote e) =
    elim (Bool-cases (is_ok (validate_remote_error hh e))) [
      | inl v ↦ rw v (is_ok_lem (validate_remote_error hh e) v)
      | inr n ↦ rw n (internal-valid hh b)
    ]
validate_remote_error-reported hh a b _ = internal-valid hh b
