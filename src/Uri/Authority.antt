-- ===== src/Uri/Authority.antt =====
-- Authorities: `strings.Split` at the dots, and the bytes of the two labels.
use deep_protocol.Base.{
  ℕ, ◌≤◌, ◌≡◌, ap, refl, true, false, List, [], ◌∷◌, ◌++◌, map, arith, Bytes, length, All, all,
  All-append, subst, ◌==◌, ok, ◌∙◌, sym, Bool-cases, inl, inr, &&-true,
}
use deep_protocol.Uri.{
  is_lower_alnum, validate_authority, valid_label, valid_node_label, split_dots, first_part,
  second_part, check_labels, onto_head, is_label_byte, dash_byte,
}
use deep_protocol.Uri.Chars.{
  IsAuthorityByte, is_label_byte-IsAuthorityByte, dash_byte-IsAuthorityByte, dot-IsAuthorityByte,
}

-- The parts with a dot between each two.
abbrev pub join_dots : List Bytes → Bytes
join_dots [] = []
join_dots (p ∷ []) = p
join_dots (p ∷ q ∷ ps) = p ++ b'.' ∷ join_dots (q ∷ ps)

split_dots-ne-nil : (s : Bytes) → (p : Bytes) × (ps : List Bytes) × (split_dots s ≡ p ∷ ps)
unfolding split_dots
split_dots-ne-nil [] = ([], [], refl)
split_dots-ne-nil (c ∷ cs) =
    let (p, ps, e) = split_dots-ne-nil cs in
    elim (Bool-cases (c == b'.')) [
      | inl dot ↦ ([], p ∷ ps, rw (dot, e))
      | inr other ↦ (c ∷ p, ps, rw (other, e))
    ]

join_dots-onto_head : (c : ℕ) (ps : List Bytes) → join_dots (onto_head c ps) ≡ c ∷ join_dots ps
join_dots-onto_head c [] = refl
join_dots-onto_head c (p ∷ []) = refl
join_dots-onto_head c (p ∷ q ∷ ps) = refl

pub join_dots-split_dots : (s : Bytes) → join_dots (split_dots s) ≡ s
unfolding split_dots
join_dots-split_dots [] = refl
join_dots-split_dots (c ∷ cs) =
    let (p, ps, e) = split_dots-ne-nil cs in
    elim (Bool-cases (c == b'.')) [
      | inl dot ↦ ground (arith, join_dots-split_dots cs, e)
      | inr other ↦ rw (other, join_dots-onto_head) (ap (◌∷◌ c) (join_dots-split_dots cs))
    ]

split_dots-free : (s : Bytes) → All (λ c. (c == b'.') ≡ false) s → split_dots s ≡ s ∷ []
unfolding split_dots
split_dots-free [] h = refl
split_dots-free (c ∷ cs) h = rw (h.0, split_dots-free cs h.1)

split_dots-append :
    (s t : Bytes) → All (λ c. (c == b'.') ≡ false) s → split_dots (s ++ b'.' ∷ t) ≡ s ∷ split_dots t
unfolding split_dots
split_dots-append [] t h = refl
split_dots-append (c ∷ cs) t h = rw (h.0, split_dots-append cs t h.1)

all-label_bytes : (v : Bytes) → all is_label_byte v ≡ true → All IsAuthorityByte v
all-label_bytes [] h = tt
all-label_bytes (c ∷ cs) h = ground (arith, is_label_byte-IsAuthorityByte c, all-label_bytes cs)

all-dash_bytes : (v : Bytes) → all is_label_byte (map dash_byte v) ≡ true → All IsAuthorityByte v
all-dash_bytes [] h = tt
all-dash_bytes (c ∷ cs) h =
    let (p, q) = &&-true (is_label_byte (dash_byte c)) _ h in
    (dash_byte-IsAuthorityByte c p, all-dash_bytes cs q)

-- What a label that passes is: 1 to 63 label bytes.
pub valid_label_sound :
    (v : Bytes)
    → valid_label v ≡ true
    → (1 ≤ length v) × (length v ≤ 63) × (all is_label_byte v ≡ true)
unfolding valid_label
valid_label_sound [] h = cc
valid_label_sound (c ∷ cs) h = ground arith

-- What `ValidateAuthority` accepts: a node and a network label, joined by one dot.
pub record IsAuthority (a node network : Bytes) : Type 0 where
  pub parts : split_dots a ≡ node ∷ network ∷ []
  pub node_valid : valid_node_label node ≡ true
  pub network_valid : valid_label network ≡ true

check_labels_sound :
    (a : Bytes) (ps : List Bytes)
    → split_dots a ≡ ps
    → check_labels ps ≡ ok tt
    → IsAuthority a (first_part ps) (second_part ps)
check_labels_sound a [] e h = cc
check_labels_sound a (p ∷ []) e h = cc
check_labels_sound a (p ∷ q ∷ []) e h = record {
  parts = e;
  node_valid = ground arith;
  network_valid = ground arith;
}
check_labels_sound a (p ∷ q ∷ r ∷ ps) e h = cc

pub validate_authority_sound :
    (a : Bytes)
    → validate_authority a ≡ ok tt
    → IsAuthority a (first_part (split_dots a)) (second_part (split_dots a))
unfolding validate_authority
validate_authority_sound a h = check_labels_sound a (split_dots a) refl h

module _ {a node network : Bytes} (v : IsAuthority a node network) where
  pub IsAuthority-join : a ≡ node ++ b'.' ∷ network
  IsAuthority-join = sym (join_dots-split_dots a) ∙ rw v.parts

  pub IsAuthority-All : All IsAuthorityByte a
  unfolding valid_node_label
  IsAuthority-All = subst (All IsAuthorityByte) (sym IsAuthority-join) (
      All-append IsAuthorityByte node (b'.' ∷ network)
        (all-dash_bytes node (valid_label_sound (map dash_byte node) v.node_valid).2)
        (
          dot-IsAuthorityByte b'.' refl,
          all-label_bytes network (valid_label_sound network v.network_valid).2,
        ))

  pub IsAuthority-accepted : validate_authority a ≡ ok tt
  unfolding validate_authority
  IsAuthority-accepted = rw (v.parts, v.node_valid, v.network_valid)

pub label_no_dot : (v : Bytes) → all is_label_byte v ≡ true → All (λ c. (c == b'.') ≡ false) v
unfolding is_lower_alnum
label_no_dot [] h = tt
label_no_dot (c ∷ cs) h = ground (arith, label_no_dot cs)

pub node_label_no_dot :
    (v : Bytes) → all is_label_byte (map dash_byte v) ≡ true → All (λ c. (c == b'.') ≡ false) v
unfolding is_lower_alnum
node_label_no_dot [] h = tt
node_label_no_dot (c ∷ cs) h = ground (arith, node_label_no_dot cs)

-- `ValidateAuthority` accepts a node label and a network label joined by a dot.
pub join_dots-IsAuthority :
    (node network : Bytes)
    → valid_node_label node ≡ true
    → valid_label network ≡ true
    → IsAuthority (node ++ b'.' ∷ network) node network
unfolding valid_node_label
join_dots-IsAuthority node network p q = record {
  parts =
      split_dots-append node network
        (node_label_no_dot node (valid_label_sound (map dash_byte node) p).2)
      ∙ ap (◌∷◌ node)
          (split_dots-free network (label_no_dot network (valid_label_sound network q).2));
  node_valid = p;
  network_valid = q;
}
