-- ===== src/Adapters/Entries.antt =====
-- The networks and the proxy of a configuration, described without the loops of
-- `registryFromConfig`.
use deep_protocol.Base.{
  ◌-◌, ◌≡◌, refl, sym, ap, ◌∙◌, subst, Bool, true, false, not, ◌||◌, List, [], ◌∷◌, ◌++◌, All,
  Bytes, length, equal, equal_iff, ◌==◌, Option, none, some, ok, chain-elim, checked, Bool-cases,
  inl, inr, codes, arith, drop, take, take-append-drop, is_ok, is_ok_lem, ◌⊎◌,
}
use deep_protocol.Base.Int.{pos}
use deep_protocol.Uri.{validate_authority, split_dots, first_part, second_part}
use deep_protocol.Uri.Authority.{validate_authority_sound}
use deep_protocol.Uri.Labels.{HasLabels, IsLabelByte, IsNodeByte, IsAuthority-HasLabels}
use deep_protocol.Adapters.{Endpoint, Adapter, validate_endpoint, resolve_static}
use deep_protocol.Adapters.Config.{
  NetworkFile, System, adapter_of, static_adapter, check_endpoints, has_suffix, resolve_exec,
  blank_command, or_empty, is_given,
}

-- An endpoint of a static network: its authority is a node of the network, and it is valid.
pub record Belongs (network : Bytes) (entry : Bytes × Endpoint) : Type 0 where
  pub node : Bytes
  pub labels : HasLabels entry.0 node network
  pub valid : validate_endpoint entry.1 ≡ ok tt

label_bytes-NoDot : (v : Bytes) → All IsLabelByte v → All (λ c. (c == b'.') ≡ false) v
label_bytes-NoDot [] h = tt
label_bytes-NoDot (c ∷ cs) (h, hs) = (byte h, label_bytes-NoDot cs hs)
  where
    byte : IsLabelByte c → (c == b'.') ≡ false
    byte h = ground arith

node_bytes-NoDot : (v : Bytes) → All IsNodeByte v → All (λ c. (c == b'.') ≡ false) v
node_bytes-NoDot [] h = tt
node_bytes-NoDot (c ∷ cs) (h, hs) = (byte h, node_bytes-NoDot cs hs)
  where
    byte : IsNodeByte c → (c == b'.') ≡ false
    byte h = ground arith

no_dot_inside : (ps net : Bytes) → All (λ c. (c == b'.') ≡ false) (ps ++ b'.' ∷ net) → ⊥
no_dot_inside [] net (h, _) = absurd (ground arith)
no_dot_inside (p ∷ ps) net (_, h) = no_dot_inside ps net h

-- What stands behind the only dot.
behind_dot :
    (n m front net : Bytes)
    → All (λ c. (c == b'.') ≡ false) n
    → All (λ c. (c == b'.') ≡ false) m
    → n ++ b'.' ∷ m ≡ front ++ b'.' ∷ net
    → m ≡ net
behind_dot [] m [] net a b e = cc
behind_dot [] m (p ∷ ps) net a b e =
    absurd (no_dot_inside ps net (subst (All (λ c. (c == b'.') ≡ false)) (tail_of e) b))
  where
    tail_of : b'.' ∷ m ≡ p ∷ (ps ++ b'.' ∷ net) → m ≡ ps ++ b'.' ∷ net
    tail_of e = cc
behind_dot (c ∷ n) m [] net (a, _) b e = absurd (dotted (head_of e))
  where
    head_of : c ∷ (n ++ b'.' ∷ m) ≡ b'.' ∷ net → c ≡ b'.'
    head_of e = cc

    dotted : c ≡ b'.' → ⊥
    dotted p = ground (arith, a)
behind_dot (c ∷ n) m (p ∷ ps) net (_, a) b e = behind_dot n m ps net a b (tail_of e)
  where
    tail_of : c ∷ (n ++ b'.' ∷ m) ≡ p ∷ (ps ++ b'.' ∷ net) → n ++ b'.' ∷ m ≡ ps ++ b'.' ∷ net
    tail_of e = cc

has_suffix_sound :
    (suffix s : Bytes) → has_suffix suffix s ≡ true → (front : Bytes) × (s ≡ front ++ suffix)
has_suffix_sound suffix s h =
    let n = length s - length suffix in
    let same : drop n s ≡ suffix = (equal_iff (drop n s) suffix).0 (ground arith) in
    (take n s, sym (take-append-drop n s) ∙ ap (λ b. take n s ++ b) same)

member :
    (network authority : Bytes) (e : Endpoint)
    → validate_authority authority ≡ ok tt
    → has_suffix (b'.' ∷ network) authority ≡ true
    → validate_endpoint e ≡ ok tt
    → Belongs network (authority, e)
member network authority e v h w =
    let l = IsAuthority-HasLabels (validate_authority_sound authority v) in
    let (front, k) = has_suffix_sound (b'.' ∷ network) authority h in
    let node = first_part (split_dots authority) in
    let same =
      behind_dot node (second_part (split_dots authority)) front network
        (node_bytes-NoDot node l.node_is.bytes) (label_bytes-NoDot _ l.network_is.bytes)
        (sym l.joined ∙ k) in
    record { node = node; labels = subst (HasLabels authority node) same l; valid = w }

pub check_endpoints-Belongs :
    (network : Bytes) (m : List (Bytes × Endpoint))
    → check_endpoints network m ≡ ok tt
    → All (Belongs network) m
unfolding check_endpoints
check_endpoints-Belongs network [] h = tt
check_endpoints-Belongs network ((authority, e) ∷ m) h =
    let (named, h₁) =
      checked
        (not (is_ok (validate_authority authority)) || not (has_suffix (b'.' ∷ network) authority))
        _ _ h in
    let (v, s) =
      both (is_ok (validate_authority authority)) (has_suffix (b'.' ∷ network) authority) named in
    chain-elim (validate_endpoint e) _ h₁ λ _ w h₂. (
      member network authority e (is_ok_lem (validate_authority authority) v) s w,
      check_endpoints-Belongs network m h₂,
    )
  where
    both : (a b : Bool) → (not a || not b) ≡ false → (a ≡ true) × (b ≡ true)
    both true true h = (refl, refl)
    both true false h = cc
    both false b h = cc

-- A static network, and the adapter that answers from its endpoints.
pub record IsStatic (network : Bytes) (file : NetworkFile) (a : Adapter) : Type 0 where
  pub kind : file.adapter ≡ codes "static"
  pub entries : List (Bytes × Endpoint)
  pub endpoints_are : file.endpoints ≡ some entries
  pub no_command : file.command ≡ none
  pub members : All (Belongs network) entries
  pub adapter_is : a ≡ resolve_static entries none

given_none : {A : Type 0} (o : Option A) → is_given o ≡ false → o ≡ none
given_none none h = refl
given_none (some a) h = cc

adapter-injective : {a b : Adapter} → ok a ≡ ok b → b ≡ a
adapter-injective e = cc

module _ (system : System) where
  -- A network whose program resolves, and the adapter that runs it in the configuration's place.
  pub record IsExec (place : Bytes) (file : NetworkFile) (a : Adapter) : Type 0 where
    pub kind : file.adapter ≡ codes "exec"
    pub name : Bytes
    pub arguments : List Bytes
    pub command_is : file.command ≡ some (name ∷ arguments)
    pub named : system.is_blank name ≡ false
    pub no_endpoints : file.endpoints ≡ none
    pub adapter_is :
        a
        ≡ resolve_exec system
            (record { command = name ∷ arguments; timeout = pos 0; work_dir = place })

  static_adapter-IsStatic :
      (network : Bytes) (file : NetworkFile) (a : Adapter)
      → file.adapter ≡ codes "static"
      → static_adapter system network (is_given file.command) file.endpoints ≡ ok a
      → IsStatic network file a
  unfolding static_adapter
  static_adapter-IsStatic network file a k h = go file.endpoints refl h
    where
      go :
          (o : Option (List (Bytes × Endpoint)))
          → file.endpoints ≡ o
          → static_adapter system network (is_given file.command) o ≡ ok a
          → IsStatic network file a
      go none e h = cc
      go (some m) e h =
          let (bare, h₁) = checked (is_given file.command) _ _ h in
          chain-elim (check_endpoints network m) _ h₁ λ _ c h₂. record {
            kind = k;
            entries = m;
            endpoints_are = e;
            no_command = given_none file.command bare;
            members = check_endpoints-Belongs network m c;
            adapter_is = adapter-injective h₂;
          }

  resolve_exec-IsExec :
      (place : Bytes) (file : NetworkFile) (a : Adapter)
      → file.adapter ≡ codes "exec"
      → (blank_command system (or_empty file.command) || is_given file.endpoints) ≡ false
      → ok (
          resolve_exec system
            (record { command = or_empty file.command; timeout = pos 0; work_dir = place }))
        ≡ ok a
      → IsExec place file a
  resolve_exec-IsExec place file a k t h = go file.command refl t h
    where
      go :
          (o : Option (List Bytes))
          → file.command ≡ o
          → (blank_command system (or_empty o) || is_given file.endpoints) ≡ false
          → ok (
              resolve_exec system
                (record { command = or_empty o; timeout = pos 0; work_dir = place }))
            ≡ ok a
          → IsExec place file a
      go none e t h = cc
      go (some []) e t h = cc
      go (some (name ∷ arguments)) e t h =
          let (p, q) = neither (system.is_blank name) (is_given file.endpoints) t in
          record {
            kind = k;
            name = name;
            arguments = arguments;
            command_is = e;
            named = p;
            no_endpoints = given_none file.endpoints q;
            adapter_is = adapter-injective h;
          }
        where
          neither : (a b : Bool) → (a || b) ≡ false → (a ≡ false) × (b ≡ false)
          neither true b h = cc
          neither false b h = (refl, h)

  pub adapter_of_sound :
      (place network : Bytes) (file : NetworkFile) (a : Adapter)
      → adapter_of system place network file ≡ ok a
      → IsStatic network file a ⊎ IsExec place file a
  unfolding adapter_of
  adapter_of_sound place network file a h =
      elim (Bool-cases (equal file.adapter (codes "static"))) [
        | inl s ↦ inl (
            static_adapter-IsStatic network file a ((equal_iff file.adapter (codes "static")).0 s)
              (static_branch s))
        | inr s ↦ elim (Bool-cases (equal file.adapter (codes "exec"))) [
          | inr x ↦ absurd (refused s x)
          | inl x ↦
              let k = (equal_iff file.adapter (codes "exec")).0 x in
              elim (Bool-cases
                (blank_command system (or_empty file.command) || is_given file.endpoints)) [
                  | inl bad ↦ absurd (empty s x bad)
                  | inr good ↦ inr (resolve_exec-IsExec place file a k good (exec_branch s x good))
                ]
        ]
      ]
    where
      static_branch :
          equal file.adapter (codes "static") ≡ true
          → static_adapter system network (is_given file.command) file.endpoints ≡ ok a
      static_branch s = sym (rw s refl) ∙ h

      refused :
          equal file.adapter (codes "static") ≡ false
          → equal file.adapter (codes "exec") ≡ false
          → ⊥
      refused s x = ground (arith, h, s, x)

      empty :
          equal file.adapter (codes "static") ≡ false
          → equal file.adapter (codes "exec") ≡ true
          → (blank_command system (or_empty file.command) || is_given file.endpoints) ≡ true
          → ⊥
      empty s x b = ground (arith, h, s, x, b)

      exec_branch :
          equal file.adapter (codes "static") ≡ false
          → equal file.adapter (codes "exec") ≡ true
          → (blank_command system (or_empty file.command) || is_given file.endpoints) ≡ false
          → ok (
              resolve_exec system
                (record { command = or_empty file.command; timeout = pos 0; work_dir = place }))
            ≡ ok a
      exec_branch s x b = sym (rw (s, x, b) refl) ∙ h
