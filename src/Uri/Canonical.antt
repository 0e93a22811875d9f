-- ===== src/Uri/Canonical.antt =====
-- What ParseURI accepts, described by the bytes themselves: labels of lowercase letters, digits and
-- inner dashes, and the percent-encoded components of uri.go.
use deep_protocol.Base.{
  ℕ, ◌+◌, ◌≤◌, ◌≡◌, ap, refl, Bool, true, false, not, ◌||◌, [], ◌∷◌, ◌++◌, map, arith, Bytes,
  length, subst, ltb, ◌==◌, ok, ◌∙◌, sym, ◌⊎◌, inl, inr, Bool-cases, take, drop, take-append-drop,
  append_assoc, equal, equal_iff, checked, chain-elim,
}
use deep_protocol.Uri.{
  Uri, validate_resource, starts_with_slash, max_uri_length, scheme, validate_component,
  query_length, parse_uri, to_lower, before, from, ends_authority, validate_authority, parse_tail,
  behind_mark, or_root, is_hash, is_question, validate_ascii,
}
use deep_protocol.Uri.Parse.{Spells, parse_uri-IsUri, validate_resource-sound}
use deep_protocol.Uri.Labels.{HasLabels, IsAuthority-HasLabels, StartsWith}
use deep_protocol.Uri.Components.{IsComponent, validate_component-IsComponent}

-- Absent, or behind its mark.
abbrev pub Marked : ℕ → Bytes → Bytes → Type 0
Marked mark t raw = ((raw ≡ []) × (t ≡ [])) ⊎ (raw ≡ mark ∷ t)

pub before-from : (stop : ℕ → Bool) (s : Bytes) → before stop s ++ from stop s ≡ s
unfolding before from
before-from stop [] = refl
before-from stop (c ∷ cs) = elim (Bool-cases (stop c)) [
  | inl e ↦ rw e
  | inr e ↦ rw e (ap (◌∷◌ c) (before-from stop cs))
]

from-Marked :
    (mark : ℕ) (s : Bytes)
    → Marked mark (behind_mark (from (λ c. c == mark) s)) (from (λ c. c == mark) s)
unfolding from
from-Marked mark [] = inl (refl, refl)
from-Marked mark (c ∷ cs) = elim (Bool-cases (c == mark)) [
  | inl e ↦ rw e (inr (ground arith))
  | inr e ↦ rw e (from-Marked mark cs)
]

or_root_cases : (p : Bytes) → (p ≡ or_root p) ⊎ ((p ≡ []) × (or_root p ≡ b'/' ∷ []))
or_root_cases [] = inr (refl, refl)
or_root_cases (c ∷ cs) = inl refl

-- Path, query and fragment as they stand behind the authority of `u`.
pub record IsTail (raw : Bytes) (u : Uri) : Type 0 where
  pub path : Bytes
  pub query : Bytes
  pub fragment : Bytes
  pub whole : raw ≡ path ++ (query ++ fragment)
  pub path_is : (path ≡ u.path) ⊎ ((path ≡ []) × (u.path ≡ b'/' ∷ []))
  pub query_is : Marked b'?' u.query query
  pub fragment_is : Marked b'#' u.fragment fragment

parse_tail-IsTail :
    (authority rest : Bytes) {u : Uri}
    → parse_tail authority rest ≡ ok u
    → (u.authority ≡ authority) × IsTail rest u
unfolding parse_tail
parse_tail-IsTail authority rest {u} h =
    let resource = before is_hash rest in
    let fragment = behind_mark (from is_hash rest) in
    let query = behind_mark (from is_question resource) in
    let path = or_root (before is_question resource) in
    chain-elim (validate_component true fragment) _ h λ _ _ h₁.
      chain-elim (validate_resource path query) _ h₁ λ _ _ h₂.
        subst (λ u. (u.authority ≡ authority) × IsTail rest u) (ok-injective h₂)
          (
            refl,
            record {
              path = before is_question resource;
              query = from is_question resource;
              fragment = from is_hash rest;
              whole =
                  sym (before-from is_hash rest)
                  ∙ ap (λ r. r ++ from is_hash rest) (sym (before-from is_question resource))
                  ∙ append_assoc (before is_question resource) _ _;
              path_is = or_root_cases (before is_question resource);
              query_is = from-Marked b'?' resource;
              fragment_is = from-Marked b'#' rest;
            },
          )
  where
    ok-injective : {a b : Uri} → ok a ≡ ok b → a ≡ b
    ok-injective e = cc

-- A canonical URI, and the text that it was read from.
pub record IsCanonical (raw : Bytes) (u : Uri) : Type 0 where
  pub short : (1 ≤ length raw) × (length raw ≤ 4096)
  pub start : Bytes
  pub host : Bytes
  pub rest : Bytes
  pub whole : raw ≡ start ++ (host ++ rest)
  pub spelled : Spells start host u
  pub tail_is : IsTail rest u
  pub labels : HasLabels u.authority u.node u.network
  pub rooted : StartsWith (λ c. c ≡ b'/') u.path
  pub resource_short : length u.path + query_length u.query ≤ 4096
  pub path_is : IsComponent false u.path
  pub query_is : IsComponent true u.query
  pub fragment_is : IsComponent true u.fragment

starts_with_slash_sound : (v : Bytes) → starts_with_slash v ≡ true → StartsWith (λ c. c ≡ b'/') v
starts_with_slash_sound [] h = cc
starts_with_slash_sound (c ∷ cs) h = ground arith

-- Every URI that ParseURI returns has an authority of two labels of 1 to 63 bytes, lowercase
-- letters, digits and dashes, in the node's also underscores, with a letter or a digit at both
-- ends; a path from a slash on that has with its query at most 4096 bytes; and path, query and
-- fragment of literal bytes and two-digit escapes. The text, of 1 to 4096 bytes, was the scheme
-- and the authority in any case of letters, the path, which may be absent where it is a slash, and
-- query and fragment behind their marks.
pub parse_uri-IsCanonical : (raw : Bytes) {u : Uri} → parse_uri raw ≡ ok u → IsCanonical raw u
unfolding parse_uri
parse_uri-IsCanonical raw {u} h =
    let v = parse_uri-IsUri raw h in
    let r = validate_resource-sound u.path u.query v.resource_valid in
    let rest = drop 7 raw in
    let authority = map to_lower (before ends_authority rest) in
    let (sized, h₁) = checked (length raw == 0 || ltb max_uri_length (length raw)) _ _ h in
    chain-elim (validate_ascii raw) _ h₁ λ _ _ h₂.
      let (starts, h₃) =
        checked (ltb (length raw) (length scheme) || not (equal (map to_lower (take 7 raw)) scheme))
          _ _ h₂ in
      chain-elim (validate_authority authority) _ h₃ λ _ _ h₄.
        let (named, t) = parse_tail-IsTail authority (from ends_authority rest) h₄ in
        record {
          short = ground (arith, sized);
          start = take 7 raw;
          host = before ends_authority rest;
          rest = from ends_authority rest;
          whole =
              sym (take-append-drop 7 raw) ∙ ap (λ b. take 7 raw ++ b) (sym (before-from _ rest));
          spelled = record {
            scheme_spelled =
                (equal_iff (map to_lower (take 7 raw)) scheme).0
                  (spelled_scheme (ltb (length raw) (length scheme)) _ starts);
            host_spelled = sym named;
          };
          tail_is = t;
          labels = IsAuthority-HasLabels v.authority_valid;
          rooted = starts_with_slash_sound u.path r.rooted;
          resource_short = r.short;
          path_is = validate_component-IsComponent false u.path r.path_valid;
          query_is = validate_component-IsComponent true u.query r.query_valid;
          fragment_is = validate_component-IsComponent true u.fragment v.fragment_valid;
        }
  where
    spelled_scheme : (a b : Bool) → (a || not b) ≡ false → b ≡ true
    spelled_scheme true b h = cc
    spelled_scheme false true h = refl
    spelled_scheme false false h = cc
