-- ===== src/Uri/Chars.antt =====
-- Which bytes the checks of uri.go let through.
use deep_protocol.Base.{
  ℕ, ◌≡◌, ap, refl, Bool, true, false, [], ◌∷◌, ◌++◌, arith, Bytes, All, ◌==◌, ok,
}
use deep_protocol.Uri.{
  is_lower_alnum, is_hex, is_plain, is_forbidden, is_question, is_hash, validate_ascii,
  validate_component, ends_authority, before, from, to_lower, is_label_byte, dash_byte,
}

-- A byte that a component may hold: printable, and no mark that ends a path or a query.
pub record IsComponentByte (question : Bool) (c : ℕ) : Type 0 where
  pub visible : is_forbidden c ≡ false
  pub no_hash : is_hash c ≡ false
  pub no_question : is_question c ≡ true → question ≡ true

is_plain-IsComponentByte : (q : Bool) (c : ℕ) → is_plain q c ≡ true → IsComponentByte q c
unfolding is_plain
is_plain-IsComponentByte q c h = ground arith

is_hex-IsComponentByte : (q : Bool) (c : ℕ) → is_hex c ≡ true → IsComponentByte q c
unfolding is_hex
is_hex-IsComponentByte q c h = ground arith

percent-IsComponentByte : (q : Bool) (c : ℕ) → (c == b'%') ≡ true → IsComponentByte q c
percent-IsComponentByte q c h = ground arith

module _ (q : Bool) where
  pub validate_component-All :
      (v : Bytes) → validate_component q v ≡ ok tt → All (IsComponentByte q) v
  unfolding validate_component
  validate_component-All [] h = tt
  validate_component-All (c ∷ []) h = (ground (arith, is_plain-IsComponentByte q c), tt)
  validate_component-All (c ∷ d ∷ []) h =
      ground (arith, is_plain-IsComponentByte q c, validate_component-All (d ∷ []))
  validate_component-All (c ∷ d ∷ e ∷ rest) h = ground (
    arith,
    percent-IsComponentByte q c,
    is_hex-IsComponentByte q d,
    is_hex-IsComponentByte q e,
    is_plain-IsComponentByte q c,
    validate_component-All rest,
    validate_component-All (d ∷ e ∷ rest),
  )

-- The bytes of a canonical authority.
pub record IsAuthorityByte (c : ℕ) : Type 0 where
  pub visible : is_forbidden c ≡ false
  pub inside : ends_authority c ≡ false
  pub lower : to_lower c ≡ c

pub is_label_byte-IsAuthorityByte : (c : ℕ) → is_label_byte c ≡ true → IsAuthorityByte c
unfolding is_lower_alnum to_lower
is_label_byte-IsAuthorityByte c h = ground arith

pub dash_byte-IsAuthorityByte : (c : ℕ) → is_label_byte (dash_byte c) ≡ true → IsAuthorityByte c
unfolding is_lower_alnum to_lower
dash_byte-IsAuthorityByte c h = ground arith

pub dot-IsAuthorityByte : (c : ℕ) → (c == b'.') ≡ true → IsAuthorityByte c
unfolding to_lower
dot-IsAuthorityByte c h = ground arith

pub validate_ascii-All :
    (v : Bytes) → All (λ c. is_forbidden c ≡ false) v → validate_ascii v ≡ ok tt
unfolding validate_ascii
validate_ascii-All [] h = refl
validate_ascii-All (c ∷ cs) h = ground (arith, validate_ascii-All cs)

module _ (stop : ℕ → Bool) where
  -- A run of bytes that do not stop is cut off whole in front of a stop or at the end.
  pub before-append :
      (v : Bytes) (c : ℕ) (rest : Bytes)
      → All (λ c. stop c ≡ false) v
      → stop c ≡ true
      → (before stop (v ++ c ∷ rest) ≡ v) × (from stop (v ++ c ∷ rest) ≡ c ∷ rest)
  unfolding before from
  before-append [] c rest h e = (rw e, rw e)
  before-append (x ∷ v) c rest h e =
      let r = before-append v c rest h.1 e in (rw h.0 (ap (◌∷◌ x) r.0), rw h.0 r.1)

  pub before-all :
      (v : Bytes) → All (λ c. stop c ≡ false) v → (before stop v ≡ v) × (from stop v ≡ [])
  unfolding before from
  before-all [] h = (refl, refl)
  before-all (x ∷ v) h = let r = before-all v h.1 in (rw h.0 (ap (◌∷◌ x) r.0), rw h.0 r.1)
