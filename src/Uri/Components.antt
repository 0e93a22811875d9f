-- ===== src/Uri/Components.antt =====
-- Percent-encoded components by their bytes, as `validateComponent` of uri.go takes them.
use deep_protocol.Base.{
  ℕ, ◌≤◌, ◌≡◌, refl, Bool, true, false, ◌&&◌, ◌||◌, [], ◌∷◌, arith, Bytes, subst, ◌==◌, ok, ◌∙◌,
  sym, ◌⊎◌, inl, inr, codes, within, &&-true, Bool-cases,
}
use deep_protocol.Uri.{is_lower_alnum, has_byte, is_hex, is_plain, validate_component}
use deep_protocol.Uri.Labels.{IsAlnum, is_lower_alnum_sound}

abbrev Among : Bytes → ℕ → Type 0
Among [] c = ⊥
Among (b ∷ bs) c = (c ≡ b) ⊎ Among bs c

abbrev IsHexDigit : ℕ → Type 0
IsHexDigit c = ((b'0' ≤ c) × (c ≤ b'9')) ⊎ ((b'a' ≤ c) × (c ≤ b'f')) ⊎ ((b'A' ≤ c) × (c ≤ b'F'))

-- A byte that stands for itself in a component; a question mark does in a query or a fragment.
abbrev IsLiteral : Bool → ℕ → Type 0
IsLiteral question c =
    IsAlnum c
    ⊎ ((b'A' ≤ c) × (c ≤ b'Z'))
    ⊎ Among (codes "-._~!$&'()*+,;=:@/") c
    ⊎ ((question ≡ true) × (c ≡ b'?'))

-- A component: literal bytes and escapes of two hexadecimal digits.
pub data IsComponent (question : Bool) : Bytes → Type 0 where
  done : IsComponent question []
  literal :
      {c : ℕ} {cs : Bytes}
      → IsLiteral question c
      → IsComponent question cs
      → IsComponent question (c ∷ cs)
  escape :
      {d e : ℕ} {cs : Bytes}
      → IsHexDigit d
      → IsHexDigit e
      → IsComponent question cs
      → IsComponent question (b'%' ∷ d ∷ e ∷ cs)

has_byte-Among : (bs : Bytes) (c : ℕ) → has_byte bs c ≡ true → Among bs c
unfolding has_byte
has_byte-Among [] c h = cc
has_byte-Among (b ∷ bs) c h = elim (Bool-cases (b == c)) [
  | inl same ↦ inl (ground arith)
  | inr other ↦ inr (has_byte-Among bs c (sym (rw other refl) ∙ h))
]

is_hex_sound : (c : ℕ) → is_hex c ≡ true → IsHexDigit c
unfolding is_hex
is_hex_sound c h = ground arith

one_of_four :
    (a b c d : Bool) → (a || b || c || d) ≡ true → (a ≡ true) ⊎ (b ≡ true) ⊎ (c ≡ true) ⊎ (d ≡ true)
one_of_four true b c d h = inl refl
one_of_four false true c d h = inr (inl refl)
one_of_four false false true d h = inr (inr (inl refl))
one_of_four false false false d h = inr (inr (inr h))

is_plain_sound : (q : Bool) (c : ℕ) → is_plain q c ≡ true → IsLiteral q c
unfolding is_plain
is_plain_sound q c h =
    elim (one_of_four (is_lower_alnum c) (within b'A' b'Z' c)
      (has_byte (codes "-._~!$&'()*+,;=:@/") c) (q && c == b'?') h) [
        | inl a ↦ inl (is_lower_alnum_sound c a)
        | inr (inl a) ↦ inr (inl (ground arith))
        | inr (inr (inl a)) ↦ inr (inr (inl (has_byte-Among (codes "-._~!$&'()*+,;=:@/") c a)))
        | inr (inr (inr a)) ↦ inr (inr (inr (ground arith)))
      ]

pub validate_component-IsComponent :
    (q : Bool) (v : Bytes) → validate_component q v ≡ ok tt → IsComponent q v
unfolding validate_component
validate_component-IsComponent q [] h = done
validate_component-IsComponent q (c ∷ []) h = literal (is_plain_sound q c (ground arith)) done
validate_component-IsComponent q (c ∷ d ∷ []) h =
    literal (is_plain_sound q c (ground arith))
      (validate_component-IsComponent q (d ∷ []) (ground arith))
validate_component-IsComponent q (c ∷ d ∷ e ∷ rest) h = elim (Bool-cases (c == b'%')) [
  | inl percent ↦
      let (hex, more) = escaped percent in
      let (p, r) = &&-true (is_hex d) (is_hex e) hex in
      subst (λ b. IsComponent q (b ∷ d ∷ e ∷ rest)) (sym (is_percent percent))
        (escape (is_hex_sound d p) (is_hex_sound e r) (validate_component-IsComponent q rest more))
  | inr other ↦
      let (plain, more) = plainly other in
      literal (is_plain_sound q c plain) (validate_component-IsComponent q (d ∷ e ∷ rest) more)
]
  where
    is_percent : (c == b'%') ≡ true → c ≡ b'%'
    is_percent p = ground arith

    escaped :
        (c == b'%') ≡ true → ((is_hex d && is_hex e) ≡ true) × (validate_component q rest ≡ ok tt)
    escaped p = ground (arith, h)

    plainly :
        (c == b'%') ≡ false → (is_plain q c ≡ true) × (validate_component q (d ∷ e ∷ rest) ≡ ok tt)
    plainly p = ground (arith, h)
