-- ===== src/Adapters/Address.antt =====
-- `ValidateProxyAddress` of proxy.go, by the parts of the address it accepts.
use deep_protocol.Base.{
  ℕ, ◌≤◌, ◌≡◌, refl, sym, ap, ◌∙◌, subst, Bool, true, false, not, ◌&&◌, [], ◌∷◌, ◌++◌, All, Bytes,
  equal, equal_iff, append_assoc, ◌==◌, within, Option, none, some, ok, Bool-cases, Option-cases,
  inl, inr, arith, all, ◌⊎◌, if◌then◌else◌, &&-true,
}
use deep_protocol.Uri.{before, from}
use deep_protocol.Uri.Labels.{StartsWith}
use deep_protocol.Uri.Canonical.{before-from}
use deep_protocol.Adapters.{
  split_host_port, split_last_colon, bracketed, valid_port, decimal, validate_proxy_address,
  is_digit,
}

-- A port in decimal digits, without a leading zero, from 1 to 65535.
pub record IsPort (port : Bytes) : Type 0 where
  pub digits : All (λ c. (b'0' ≤ c) × (c ≤ b'9')) port
  pub leading : StartsWith (λ c. (b'1' ≤ c) × (c ≤ b'9')) port
  pub value : (1 ≤ decimal 0 port) × (decimal 0 port ≤ 65535)

-- `host:port`, or `[host]:port`.
abbrev pub IsAddress : Bytes → Bytes → Bytes → Type 0
IsAddress address host port =
    (address ≡ host ++ b':' ∷ port) ⊎ (address ≡ b'[' ∷ (host ++ b']' ∷ b':' ∷ port))

some-injective : {x y : Bytes × Bytes} → some x ≡ some y → x ≡ y
some-injective e = cc

first_colon :
    (c : ℕ) (cs : Bytes) (t : Bool) (cut : Bytes × Bytes)
    → (c == b':') ≡ t
    → if◌then◌else◌ {A = Option (Bytes × Bytes)} t (some ([], cs)) none ≡ some cut
    → c ∷ cs ≡ cut.0 ++ b':' ∷ cut.1
first_colon c cs true cut e k =
    subst (λ p. c ∷ cs ≡ p.0 ++ b':' ∷ p.1) (some-injective k) (ap (λ x. x ∷ cs) (colon e))
  where
    colon : (c == b':') ≡ true → c ≡ b':'
    colon e = ground arith
first_colon c cs false cut e k = cc

split_last_colon_sound :
    (s : Bytes) (cut : Bytes × Bytes) → split_last_colon s ≡ some cut → s ≡ cut.0 ++ b':' ∷ cut.1
unfolding split_last_colon
split_last_colon_sound [] cut h = cc
split_last_colon_sound (c ∷ cs) cut h = elim (Option-cases (split_last_colon cs)) [
  | inl e ↦ first_colon c cs (c == b':') cut refl (sym (rw e refl) ∙ h)
  | inr (later, e) ↦
      subst (λ p. c ∷ cs ≡ p.0 ++ b':' ∷ p.1) {x = (c ∷ later.0, later.1)} {y = cut}
        (some-injective (behind later e)) (ap (◌∷◌ c) (split_last_colon_sound cs later e))
]
  where
    behind :
        (later : Bytes × Bytes)
        → split_last_colon cs ≡ some later
        → some (c ∷ later.0, later.1) ≡ some cut
    behind later e = ground (arith, h, e)

bracketed_sound : (rest host : Bytes) → bracketed rest ≡ some host → rest ≡ host ++ b']' ∷ []
bracketed_sound rest host h =
    let inside = before (λ c. c == b']') rest in
    let (p, q) = closed h in
    sym (before-from (λ c. c == b']') rest)
    ∙ ap (λ b. inside ++ b) ((equal_iff (from (λ c. c == b']') rest) (b']' ∷ [])).0 p)
    ∙ ap (λ b. b ++ b']' ∷ []) q
  where
    closed :
        bracketed rest ≡ some host
        → (equal (from (λ c. c == b']') rest) (b']' ∷ []) ≡ true)
          × (before (λ c. c == b']') rest ≡ host)
    closed h = ground (arith, h)

pub split_host_port-IsAddress :
    (address host port : Bytes)
    → split_host_port address ≡ some (host, port)
    → IsAddress address host port
unfolding split_host_port
split_host_port-IsAddress address host port h = elim (Option-cases (split_last_colon address)) [
  | inl e ↦ absurd (no_colon e)
  | inr ((front, tail), e) ↦ parts front tail e (split_last_colon_sound address (front, tail) e)
]
  where
    no_colon : split_last_colon address ≡ none → ⊥
    no_colon e = ground (arith, h, e)

    bare : (tail : Bytes) → split_last_colon address ≡ some ([], tail) → (host ≡ []) × (port ≡ tail)
    bare tail e = ground (arith, h, e)

    plain :
        (c : ℕ) (rest tail : Bytes)
        → split_last_colon address ≡ some (c ∷ rest, tail)
        → (c == b'[') ≡ false
        → (host ≡ c ∷ rest) × (port ≡ tail)
    plain c rest tail e t = ground (arith, h, e, t)

    in_brackets :
        (c : ℕ) (rest tail : Bytes)
        → split_last_colon address ≡ some (c ∷ rest, tail)
        → (c == b'[') ≡ true
        → (bracketed rest ≡ some host) × (port ≡ tail)
    in_brackets c rest tail e t = ground (arith, h, e, t)

    parts :
        (front tail : Bytes)
        → split_last_colon address ≡ some (front, tail)
        → address ≡ front ++ b':' ∷ tail
        → IsAddress address host port
    parts [] tail e k = let (p, q) = bare tail e in inl (k ∙ rw (p, q) refl)
    parts (c ∷ rest) tail e k = elim (Bool-cases (c == b'[')) [
      | inr other ↦ let (p, q) = plain c rest tail e other in inl (k ∙ rw (p, q) refl)
      | inl bracket ↦
          let (p, q) = in_brackets c rest tail e bracket in
          inr (
            k
            ∙ ap (λ r. c ∷ (r ++ b':' ∷ tail)) (bracketed_sound rest host p)
            ∙ ap (λ x. x ∷ ((host ++ b']' ∷ []) ++ b':' ∷ tail)) (is_bracket c bracket)
            ∙ ap (◌∷◌ b'[') (append_assoc host (b']' ∷ []) (b':' ∷ tail))
            ∙ rw q refl)
    ]
      where
        is_bracket : (c : ℕ) → (c == b'[') ≡ true → c ≡ b'['
        is_bracket c t = ground arith

all_digits_sound : (v : Bytes) → all is_digit v ≡ true → All (λ c. (b'0' ≤ c) × (c ≤ b'9')) v
all_digits_sound [] h = tt
all_digits_sound (c ∷ cs) h =
    let (p, q) = &&-true (is_digit c) (all is_digit cs) h in (digit p, all_digits_sound cs q)
  where
    digit : is_digit c ≡ true → (b'0' ≤ c) × (c ≤ b'9')
    digit p = ground arith

valid_port-IsPort : (port : Bytes) → valid_port port ≡ true → IsPort port
unfolding valid_port
valid_port-IsPort [] h = cc
valid_port-IsPort (c ∷ cs) h =
    let (p, q, v) =
      all_three (all is_digit (c ∷ cs)) (not (c == b'0')) (within 1 65535 (decimal 0 (c ∷ cs))) h in
    let digits = all_digits_sound (c ∷ cs) p in
    record { digits = digits; leading = not_zero digits.0 q; value = value v }
  where
    all_three : (a b d : Bool) → (a && b && d) ≡ true → (a ≡ true) × (b ≡ true) × (d ≡ true)
    all_three true true true h = (refl, refl, refl)
    all_three true true false h = cc
    all_three true false d h = cc
    all_three false b d h = cc

    not_zero : (b'0' ≤ c) × (c ≤ b'9') → not (c == b'0') ≡ true → (b'1' ≤ c) × (c ≤ b'9')
    not_zero d q = ground arith

    value :
        within 1 65535 (decimal 0 (c ∷ cs)) ≡ true
        → (1 ≤ decimal 0 (c ∷ cs)) × (decimal 0 (c ∷ cs) ≤ 65535)
    value v = ground arith

-- A proxy's address, with a host that is a loopback IP and a port.
pub record IsProxyAddress (is_loopback : Bytes → Bool) (address : Bytes) : Type 0 where
  pub host : Bytes
  pub port : Bytes
  pub address_is : IsAddress address host port
  pub host_is : is_loopback host ≡ true
  pub port_is : IsPort port

pub validate_proxy_address-IsProxyAddress :
    (is_loopback : Bytes → Bool) (address : Bytes)
    → validate_proxy_address is_loopback address ≡ ok tt
    → IsProxyAddress is_loopback address
unfolding validate_proxy_address
validate_proxy_address-IsProxyAddress is_loopback address h =
    elim (Option-cases (split_host_port address)) [
      | inl e ↦ absurd (no_parts e)
      | inr ((host, port), e) ↦
          let (l, p) = checks host port e in
          record {
            host = host;
            port = port;
            address_is = split_host_port-IsAddress address host port e;
            host_is = l;
            port_is = valid_port-IsPort port p;
          }
    ]
  where
    no_parts : split_host_port address ≡ none → ⊥
    no_parts e = ground (arith, h, e)

    checks :
        (host port : Bytes)
        → split_host_port address ≡ some (host, port)
        → (is_loopback host ≡ true) × (valid_port port ≡ true)
    checks host port e = ground (arith, h, e)
