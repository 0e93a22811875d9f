-- ===== src/Application/Allowed.antt =====
-- The headers that the application profile lets through.
use deep_protocol.Base.{
  ℕ, ◌+◌, ◌≡◌, ◌≤◌, ◌↔◌, ap, inl, inr, true, false, ◌||◌, List, [], ◌∷◌, length, All, all, ltb,
  ◌==◌, within, ok, err, arith, protocol, Error, passed, result_cases, check-cases, some,
}
use deep_protocol.Messages.{Header}
use deep_protocol.Application.{is_name_byte, check_header, check_headers, validate_headers}

-- The bytes of names and values.
abbrev pub total_bytes : List Header → ℕ
total_bytes [] = 0
total_bytes (h ∷ hs) = (length h.name + length h.value) + total_bytes hs

pub record IsHeader (h : Header) : Type 0 where
  pub name_size : (1 ≤ length h.name) × (length h.name ≤ 64)
  pub value_size : length h.value ≤ 4096
  pub name_token : all is_name_byte h.name ≡ true
  pub value_printable : all (within 32 126) h.value ≡ true

pub record IsHeaders (hs : List Header) : Type 0 where
  pub few : length hs ≤ 64
  pub each : All IsHeader hs
  pub small : total_bytes hs ≤ 6144

check_header_sound : (h : Header) → check_header h ≡ ok tt → IsHeader h
unfolding check_header
check_header_sound h e = record {
  name_size = ground arith;
  value_size = ground arith;
  name_token = ground arith;
  value_printable = ground arith;
}

check_header_complete : (h : Header) → IsHeader h → check_header h ≡ ok tt
unfolding check_header
check_header_complete h v =
    let (a, b) = v.name_size in
    let c = v.value_size in
    let sizes : (length h.name == 0 || ltb 64 (length h.name) || ltb 4096 (length h.value))
        ≡ false =
      ground arith in
    rw (sizes, v.name_token, v.value_printable)

check_headers_sound :
    (total : ℕ) (hs : List Header) {n : ℕ}
    → check_headers total hs ≡ ok n
    → All IsHeader hs × (n ≡ total + total_bytes hs)
unfolding check_headers
check_headers_sound total [] e = (tt, ground arith)
check_headers_sound total (h ∷ hs) {n} e = elim (check-cases (check_header h)) [
  | inr (x, p) ↦ absurd (failed x p)
  | inl p ↦
      let (each, sum) =
        check_headers_sound (total + (length h.name + length h.value)) hs (rest p) in
      ((check_header_sound h p, each), omega (arith, sum))
]
  where
    failed : (x : Error) → check_header h ≡ err x → ⊥
    failed x p = ground (arith, e, p)

    rest :
        check_header h ≡ ok tt → check_headers (total + (length h.name + length h.value)) hs ≡ ok n
    rest p = ground (arith, e, p)

check_headers_complete :
    (total : ℕ) (hs : List Header)
    → All IsHeader hs
    → check_headers total hs ≡ ok (total + total_bytes hs)
unfolding check_headers
check_headers_complete total [] v = ap ok (omega arith)
check_headers_complete total (h ∷ hs) v =
    let more = total + (length h.name + length h.value) in
    ground (arith, check_header_complete h v.0, check_headers_complete more hs v.1)

validate_headers_sound : (hs : List Header) → validate_headers (some hs) ≡ ok tt → IsHeaders hs
unfolding validate_headers
validate_headers_sound hs e =
    let (few, rest) =
      passed (ltb 64 (length hs)) (protocol "invalid application header count") _ e in
    elim (result_cases (check_headers 0 hs)) [
      | inr (x, p) ↦ absurd (failed x p)
      | inl (n, p) ↦
          let (each, sum) = check_headers_sound 0 hs p in
          record { few = ground arith; each = each; small = ground (arith, e, p, sum) }
    ]
  where
    failed : (x : Error) → check_headers 0 hs ≡ err x → ⊥
    failed x p = ground (arith, e, p)

validate_headers_complete : (hs : List Header) → IsHeaders hs → validate_headers (some hs) ≡ ok tt
unfolding validate_headers
validate_headers_complete hs v =
    let few : ltb 64 (length hs) ≡ false = ground (arith, v.few) in
    let small : ltb 6144 (0 + total_bytes hs) ≡ false = ground (arith, v.small) in
    rw (few, check_headers_complete 0 hs v.each, small)

-- ValidateApplicationHeaders accepts a list of headers exactly when it has at most 64, each with a
-- name of 1 to 64 token bytes and a printable value of at most 4096, and at most 6144 bytes in
-- all.
pub validate_headers-IsHeaders :
    (hs : List Header) → (validate_headers (some hs) ≡ ok tt) ↔ IsHeaders hs
validate_headers-IsHeaders hs = (validate_headers_sound hs, validate_headers_complete hs)
