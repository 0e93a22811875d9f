-- ===== src/Uri/Labels.antt =====
-- Labels and authorities by their bytes: lowercase letters, digits and inner dashes.
use deep_protocol.Base.{
  ℕ, ◌≤◌, ◌≡◌, refl, true, [], ◌∷◌, ◌++◌, map, arith, Bytes, length, All, ◌⊎◌, all, &&-true,
}
use deep_protocol.Uri.{
  is_lower_alnum, is_label_byte, dash_byte, last_byte, valid_label, valid_node_label,
}
use deep_protocol.Uri.Authority.{IsAuthority, IsAuthority-join}

abbrev pub IsAlnum : ℕ → Type 0
IsAlnum c = ((b'a' ≤ c) × (c ≤ b'z')) ⊎ ((b'0' ≤ c) × (c ≤ b'9'))

abbrev pub IsLabelByte : ℕ → Type 0
IsLabelByte c = IsAlnum c ⊎ (c ≡ b'-')

abbrev pub IsNodeByte : ℕ → Type 0
IsNodeByte c = IsLabelByte c ⊎ (c ≡ b'_')

abbrev pub StartsWith : (ℕ → Type 0) → Bytes → Type 0
StartsWith P [] = ⊥
StartsWith P (c ∷ cs) = P c

abbrev pub EndsWith : (ℕ → Type 0) → Bytes → Type 0
EndsWith P [] = ⊥
EndsWith P (c ∷ []) = P c
EndsWith P (c ∷ d ∷ cs) = EndsWith P (d ∷ cs)

-- A label of the bytes of `P`: 1 to 63 of them, with a letter or a digit at both ends.
pub record IsLabel (P : ℕ → Type 0) (v : Bytes) : Type 0 where
  pub short : length v ≤ 63
  pub bytes : All P v
  pub first : StartsWith IsAlnum v
  pub last : EndsWith IsAlnum v

pub is_lower_alnum_sound : (c : ℕ) → is_lower_alnum c ≡ true → IsAlnum c
unfolding is_lower_alnum
is_lower_alnum_sound c h = ground arith

is_label_byte_sound : (c : ℕ) → is_label_byte c ≡ true → IsLabelByte c
is_label_byte_sound c h = ground (arith, is_lower_alnum_sound c)

dash_byte-IsNodeByte : (c : ℕ) → IsLabelByte (dash_byte c) → IsNodeByte c
dash_byte-IsNodeByte c h = ground arith

dash_byte-IsAlnum : (c : ℕ) → IsAlnum (dash_byte c) → IsAlnum c
dash_byte-IsAlnum c h = ground arith

all-label_bytes_sound : (v : Bytes) → all is_label_byte v ≡ true → All IsLabelByte v
all-label_bytes_sound [] h = tt
all-label_bytes_sound (c ∷ cs) h =
    let (p, q) = &&-true (is_label_byte c) (all is_label_byte cs) h in
    (is_label_byte_sound c p, all-label_bytes_sound cs q)

last_byte_sound :
    (c : ℕ) (cs : Bytes) → is_lower_alnum (last_byte c cs) ≡ true → EndsWith IsAlnum (c ∷ cs)
last_byte_sound c [] h = is_lower_alnum_sound c h
last_byte_sound c (d ∷ cs) h = last_byte_sound d cs h

valid_label-fields :
    (c : ℕ) (cs : Bytes)
    → valid_label (c ∷ cs) ≡ true
    → (length (c ∷ cs) ≤ 63)
      × (is_lower_alnum c ≡ true)
      × (is_lower_alnum (last_byte c cs) ≡ true)
      × (all is_label_byte (c ∷ cs) ≡ true)
unfolding valid_label
valid_label-fields c cs h = ground arith

pub valid_label-IsLabel : (v : Bytes) → valid_label v ≡ true → IsLabel IsLabelByte v
unfolding valid_label
valid_label-IsLabel [] h = cc
valid_label-IsLabel (c ∷ cs) h =
    let (short, first, last, bytes) = valid_label-fields c cs h in
    record {
      short = short;
      bytes = all-label_bytes_sound (c ∷ cs) bytes;
      first = is_lower_alnum_sound c first;
      last = last_byte_sound c cs last;
    }

StartsWith-map :
    (P Q : ℕ → Type 0) (f : ℕ → ℕ) (v : Bytes)
    → ((c : ℕ) → P (f c) → Q c)
    → StartsWith P (map f v)
    → StartsWith Q v
StartsWith-map P Q f [] k h = h
StartsWith-map P Q f (c ∷ cs) k h = k c h

EndsWith-map :
    (P Q : ℕ → Type 0) (f : ℕ → ℕ) (v : Bytes)
    → ((c : ℕ) → P (f c) → Q c)
    → EndsWith P (map f v)
    → EndsWith Q v
EndsWith-map P Q f [] k h = h
EndsWith-map P Q f (c ∷ []) k h = k c h
EndsWith-map P Q f (c ∷ d ∷ cs) k h = EndsWith-map P Q f (d ∷ cs) k h

All-unmap :
    (P Q : ℕ → Type 0) (f : ℕ → ℕ) (v : Bytes)
    → ((c : ℕ) → P (f c) → Q c)
    → All P (map f v)
    → All Q v
All-unmap P Q f [] k h = tt
All-unmap P Q f (c ∷ cs) k h = (k c h.0, All-unmap P Q f cs k h.1)

length-map_dash : (v : Bytes) → length (map dash_byte v) ≡ length v
length-map_dash [] = refl
length-map_dash (c ∷ cs) = omega (arith, length-map_dash cs)

pub valid_node_label-IsLabel : (v : Bytes) → valid_node_label v ≡ true → IsLabel IsNodeByte v
unfolding valid_node_label
valid_node_label-IsLabel v h =
    let l = valid_label-IsLabel (map dash_byte v) h in
    record {
      short = omega (arith, length-map_dash v, l.short);
      bytes = All-unmap IsLabelByte IsNodeByte dash_byte v dash_byte-IsNodeByte l.bytes;
      first = StartsWith-map IsAlnum IsAlnum dash_byte v dash_byte-IsAlnum l.first;
      last = EndsWith-map IsAlnum IsAlnum dash_byte v dash_byte-IsAlnum l.last;
    }

-- An authority of two labels.
pub record HasLabels (authority node network : Bytes) : Type 0 where
  pub joined : authority ≡ node ++ b'.' ∷ network
  pub node_is : IsLabel IsNodeByte node
  pub network_is : IsLabel IsLabelByte network

pub IsAuthority-HasLabels :
    {authority node network : Bytes}
    → IsAuthority authority node network
    → HasLabels authority node network
IsAuthority-HasLabels {authority} {node} {network} v = record {
  joined = IsAuthority-join v;
  node_is = valid_node_label-IsLabel node v.node_valid;
  network_is = valid_label-IsLabel network v.network_valid;
}
