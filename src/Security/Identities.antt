-- ===== src/Security/Identities.antt =====
-- What `validateIdentity` accepts.
use deep_protocol.Base.{
  ℕ, ◌+◌, ◌*◌, ◌/◌, ◌≡◌, ◌≤◌, ◌<◌, ◌↔◌, ◌⊎◌, inl, inr, refl, Bool, true, false, not, ◌&&◌, ◌||◌,
  List, [], ◌∷◌, Bytes, length, equal, equal_iff, ltb, ◌==◌, ok, reject_if, is_ok_lem, arith,
  checked, Error, chain-elim, subst,
}
use deep_protocol.Uri.{validate_authority}
use deep_protocol.Limits.{second}
use deep_protocol.Security.{
  Certificate, PublicKey, mldsa65, other_key, SignatureAlgorithm, mldsa65_signature,
  other_signature, Usage, server_auth, client_auth, other_usage, digital_signature, same_usage,
  only_usage, is_mldsa65, is_mldsa65_signature, one_canonical_name, first_name,
  validate_identity_key, validate_identity, generate_identity,
}

-- An identity for one role, at one time.
pub record IsIdentity (now : ℕ) (leaf : Certificate) (usage : Usage) : Type 0 where
  pub key : (raw : Bytes) × (leaf.public_key ≡ mldsa65 raw)
  pub algorithm_is : leaf.signature_algorithm ≡ mldsa65_signature
  pub own_issuer : leaf.issuer ≡ leaf.subject
  pub signature_valid : leaf.self_signed ≡ true
  pub role :
      (leaf.is_ca ≡ false)
      × (leaf.key_usage ≡ digital_signature)
      × (leaf.ext_key_usage ≡ usage ∷ [])
  pub nothing_unknown :
      (leaf.basic_constraints_valid ≡ true)
      × (leaf.unknown_ext_key_usage ≡ 0)
      × (leaf.unhandled_critical_extensions ≡ 0)
  pub name :
      (authority : Bytes) × (leaf.dns_names ≡ authority ∷ [])
      × (validate_authority authority ≡ ok tt)
  pub no_other_names : (leaf.ip_addresses ≡ 0) × (leaf.email_addresses ≡ 0) × (leaf.uris ≡ 0)
  pub in_force : (leaf.not_before ≤ now) × (now < leaf.not_after)

-- The name that is asked for, if one is.
abbrev pub Named : Bytes → Certificate → Type 0
Named authority leaf = (authority ≡ []) ⊎ (leaf.dns_names ≡ authority ∷ [])

is_mldsa65_lem : (k : PublicKey) → is_mldsa65 k ≡ true → (raw : Bytes) × (k ≡ mldsa65 raw)
is_mldsa65_lem (mldsa65 raw) h = (raw, refl)
is_mldsa65_lem other_key h = cc

algorithm_lem : (a : SignatureAlgorithm) → is_mldsa65_signature a ≡ true → a ≡ mldsa65_signature
algorithm_lem mldsa65_signature h = refl
algorithm_lem other_signature h = cc

same_usage_lem : (u v : Usage) → same_usage u v ≡ true → u ≡ v
same_usage_lem server_auth server_auth h = refl
same_usage_lem client_auth client_auth h = refl
same_usage_lem other_usage other_usage h = refl
same_usage_lem _ _ h = ground arith

same_usage_self : (u : Usage) → same_usage u u ≡ true
same_usage_self server_auth = refl
same_usage_self client_auth = refl
same_usage_self other_usage = refl

only_usage_lem : (u : Usage) (us : List Usage) → only_usage u us ≡ true → us ≡ u ∷ []
only_usage_lem u (v ∷ []) h = rw (same_usage_lem v u h)
only_usage_lem u [] h = cc
only_usage_lem u (v ∷ w ∷ us) h = cc

one_name_lem :
    (names : List Bytes)
    → one_canonical_name names ≡ true
    → (a : Bytes) × (names ≡ a ∷ []) × (validate_authority a ≡ ok tt)
one_name_lem (a ∷ []) h = (a, refl, is_ok_lem (validate_authority a) h)
one_name_lem [] h = cc
one_name_lem (a ∷ b ∷ names) h = cc

named_lem :
    (authority name : Bytes) (leaf : Certificate)
    → leaf.dns_names ≡ name ∷ []
    → (not (length authority == 0) && not (equal (first_name leaf.dns_names) authority)) ≡ false
    → Named authority leaf
named_lem [] name leaf e h = inl refl
named_lem (c ∷ cs) name leaf e h =
    inr (ground (arith, equal_iff (first_name leaf.dns_names) (c ∷ cs)))

not-false : (b : Bool) → not b ≡ false → b ≡ true
not-false true h = refl
not-false false h = cc

is_zero : (n : ℕ) → not (n == 0) ≡ false → n ≡ 0
is_zero n h = ground arith

two_tests : (a b : Bool) → (not a || not b) ≡ false → (a ≡ true) × (b ≡ true)
two_tests a b h = ground arith

role_tests :
    (bc ca : Bool) (ku : ℕ) (only : Bool) (unknown : ℕ)
    → (not bc || ca || not (ku == digital_signature) || not only || not (unknown == 0)) ≡ false
    → (bc ≡ true) × (ca ≡ false) × (ku ≡ digital_signature) × (only ≡ true) × (unknown ≡ 0)
role_tests bc ca ku only unknown h = ground arith

name_tests :
    (one : Bool) (ip em ur : ℕ)
    → (not one || not (ip == 0) || not (em == 0) || not (ur == 0)) ≡ false
    → (one ≡ true) × (ip ≡ 0) × (em ≡ 0) × (ur ≡ 0)
name_tests one ip em ur h = ground arith

in_time : (now a b : ℕ) → (ltb now a || not (ltb now b)) ≡ false → (a ≤ now) × (now < b)
in_time now a b h = ground arith

timely_lem : (now a b : ℕ) → (a ≤ now) × (now < b) → (ltb now a || not (ltb now b)) ≡ false
timely_lem now a b h = ground arith

reject_passed : (b : Bool) (e : Error) → reject_if b e ≡ ok tt → (b ≡ false) × Unit {0}
reject_passed true e h = cc
reject_passed false e h = (refl, tt)

asked_lem :
    (authority : Bytes) (leaf : Certificate)
    → Named authority leaf
    → (not (length authority == 0) && not (equal (first_name leaf.dns_names) authority)) ≡ false
asked_lem authority leaf (inl e) = rw e refl
asked_lem authority leaf (inr e) = rw (e, (equal_iff authority authority).1 refl) (ground arith)

validate_identity_sound :
    (now : ℕ) (leaf : Certificate) (authority : Bytes) (usage : Usage)
    → validate_identity now leaf authority usage ≡ ok tt
    → IsIdentity now leaf usage × Named authority leaf
unfolding validate_identity validate_identity_key
validate_identity_sound now leaf authority usage h =
    let (k, h₁) = checked (not (is_mldsa65 leaf.public_key)) _ _ h in
    let (a, h₂) =
      checked
        (not (is_mldsa65_signature leaf.signature_algorithm)
          || not (equal leaf.issuer leaf.subject))
        _ _ h₁ in
    let (sg, h₃) = checked (not leaf.self_signed) _ _ h₂ in
    let (r, h₄) =
      checked
        (not leaf.basic_constraints_valid
          || leaf.is_ca
          || not (leaf.key_usage == digital_signature)
          || not (only_usage usage leaf.ext_key_usage)
          || not (leaf.unknown_ext_key_usage == 0))
        _ _ h₃ in
    let (x, h₅) = checked (not (leaf.unhandled_critical_extensions == 0)) _ _ h₄ in
    let (n, h₆) =
      checked
        (not (one_canonical_name leaf.dns_names)
          || not (leaf.ip_addresses == 0)
          || not (leaf.email_addresses == 0)
          || not (leaf.uris == 0))
        _ _ h₅ in
    let (m, h₇) =
      checked (not (length authority == 0) && not (equal (first_name leaf.dns_names) authority)) _ _
        h₆ in
    let (t, _) = reject_passed (ltb now leaf.not_before || not (ltb now leaf.not_after)) _ h₇ in
    let (alg, own) =
      two_tests (is_mldsa65_signature leaf.signature_algorithm) (equal leaf.issuer leaf.subject)
        a in
    let (bc, ca, ku, only, unknown) =
      role_tests leaf.basic_constraints_valid leaf.is_ca leaf.key_usage
        (only_usage usage leaf.ext_key_usage) leaf.unknown_ext_key_usage r in
    let (one, ip, em, ur) =
      name_tests (one_canonical_name leaf.dns_names) leaf.ip_addresses leaf.email_addresses
        leaf.uris n in
    let (name, names, canonical) = one_name_lem leaf.dns_names one in
    (
      record {
        key = is_mldsa65_lem leaf.public_key (not-false (is_mldsa65 leaf.public_key) k);
        algorithm_is = algorithm_lem leaf.signature_algorithm alg;
        own_issuer = (equal_iff leaf.issuer leaf.subject).0 own;
        signature_valid = not-false leaf.self_signed sg;
        role = (ca, ku, only_usage_lem usage leaf.ext_key_usage only);
        nothing_unknown = (bc, unknown, is_zero leaf.unhandled_critical_extensions x);
        name = (name, names, canonical);
        no_other_names = (ip, em, ur);
        in_force = in_time now leaf.not_before leaf.not_after t;
      },
      named_lem authority name leaf names m,
    )

validate_identity_complete :
    (now : ℕ) (leaf : Certificate) (authority : Bytes) (usage : Usage)
    → IsIdentity now leaf usage × Named authority leaf
    → validate_identity now leaf authority usage ≡ ok tt
unfolding validate_identity validate_identity_key
validate_identity_complete now leaf authority usage (v, n) =
    let (raw, key) = v.key in
    let (ca, ku, eku) = v.role in
    let (bc, uk, uc) = v.nothing_unknown in
    let (name, names, canonical) = v.name in
    let (ip, em, ur) = v.no_other_names in
    let own : equal leaf.issuer leaf.subject ≡ true =
      (equal_iff leaf.issuer leaf.subject).1 v.own_issuer in
    let asked : (not (length authority == 0) && not (equal (first_name leaf.dns_names) authority))
        ≡ false =
      asked_lem authority leaf n in
    let timely = timely_lem now leaf.not_before leaf.not_after v.in_force in
    rw (
      asked,
      timely,
      own,
      key,
      v.algorithm_is,
      v.signature_valid,
      ca,
      ku,
      eku,
      same_usage_self usage,
      bc,
      uk,
      uc,
      names,
      canonical,
      ip,
      em,
      ur,
    )

-- ValidateIdentity accepts a certificate exactly when it is a self-signed ML-DSA-65 identity for
-- that one role, with one canonical name, which is the authority if one is asked for, and in force
-- at that time.
pub validate_identity-IsIdentity :
    (now : ℕ) (leaf : Certificate) (authority : Bytes) (usage : Usage)
    → (validate_identity now leaf authority usage ≡ ok tt)
      ↔ (IsIdentity now leaf usage × Named authority leaf)
validate_identity-IsIdentity now leaf authority usage = (
  validate_identity_sound now leaf authority usage,
  validate_identity_complete now leaf authority usage,
)

ok-injective : {a b : Certificate} → ok a ≡ ok b → a ≡ b
ok-injective e = cc

-- A certificate that generateIdentity makes is a valid identity for its role and of its authority
-- from then on, until the whole second in which its validity ends.
pub generate_identity-IsIdentity :
    (now : ℕ) (key spki subject authority : Bytes) (valid_for : ℕ) (usage : Usage)
    {leaf : Certificate}
    → generate_identity now key spki subject authority valid_for usage ≡ ok leaf
    → (later : ℕ) → now ≤ later
    → later < (now + valid_for) / second * second
    → IsIdentity later leaf usage × (leaf.dns_names ≡ authority ∷ [])
unfolding generate_identity
generate_identity-IsIdentity now key spki subject authority valid_for usage {leaf} h later lo hi =
    chain-elim (validate_authority authority) _ h λ _ v h₁.
      let (_, h₂) = checked (valid_for == 0) _ _ h₁ in
      subst (λ l. IsIdentity later l usage × (l.dns_names ≡ authority ∷ [])) (ok-injective h₂)
        (
          record {
            key = (key, refl);
            algorithm_is = refl;
            own_issuer = refl;
            signature_valid = refl;
            role = (refl, refl, refl);
            nothing_unknown = (refl, refl, refl);
            name = (authority, refl, v);
            no_other_names = (refl, refl, refl);
            in_force = (omega arith, hi);
          },
          refl,
        )
