-- ===== src/Security/Hex.antt =====
-- `hex.DecodeString` undoes `hex.EncodeToString`.
use deep_protocol.Base.{
  ℕ, ◌+◌, ◌*◌, ◌/◌, ◌%◌, ◌≡◌, ◌<◌, refl, some, [], ◌∷◌, Bytes, All, IsByte, arith,
}
use deep_protocol.Json.{hex_digit}
use deep_protocol.Security.{hex_decode, hex_encode, hex_char}

hex_digit-hex_char : (n : ℕ) → n < 16 → hex_digit (hex_char n) ≡ some n
unfolding hex_digit
hex_digit-hex_char n h = ground arith

pub hex_decode-hex_encode : (bs : Bytes) → All IsByte bs → hex_decode (hex_encode bs) ≡ some bs
unfolding hex_decode hex_encode
hex_decode-hex_encode [] h = refl
hex_decode-hex_encode (b ∷ bs) h =
    let high = hex_digit-hex_char (b / 16) (omega arith) in
    let low = hex_digit-hex_char (b % 16) (omega arith) in
    let rest = hex_decode-hex_encode bs h.1 in
    let whole : b / 16 * 16 + b % 16 ≡ b = omega arith in rw (high, hex_decode, low, rest, whole)
