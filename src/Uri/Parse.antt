-- ===== src/Uri/Parse.antt =====
-- `ParseURI` against the written form of a URI.
use deep_protocol.Base.{
  ℕ, ◌+◌, ◌≤◌, ◌≡◌, ap, refl, Bool, true, false, ◌||◌, [], ◌∷◌, ◌++◌, map, arith, Bytes, length,
  All, All-append, All-mono, subst, ltb, ◌==◌, ok, ◌∙◌, sym, length-append, length-map, take, drop,
  append_assoc, append-nil, equal_iff, take-length-append, length-map, drop-length-append,
  length-map,
}
use deep_protocol.Uri.{
  Uri, max_uri_length, scheme, split_dots, first_part, second_part, to_lower, is_forbidden,
  ends_authority, before, from, is_hash, is_question, validate_component, validate_resource,
  parse_uri, parse_tail, starts_with_slash, query_length, behind_mark, or_root,
}
use deep_protocol.Uri.Chars.{
  IsAuthorityByte, validate_component-All, validate_ascii-All, before-append, before-all,
}
use deep_protocol.Uri.Authority.{
  IsAuthority, IsAuthority-All, IsAuthority-accepted, validate_authority_sound,
}

abbrev pub with_mark : ℕ → Bytes → Bytes
with_mark mark [] = []
with_mark mark (c ∷ cs) = mark ∷ c ∷ cs

-- Path, query and fragment as they are written.
abbrev pub written_tail : Bytes → Bytes → Bytes → Bytes
written_tail path query fragment = path ++ (with_mark b'?' query ++ with_mark b'#' fragment)

-- The well-formed results of `ParseURI`.
pub record IsUri (u : Uri) : Type 0 where
  pub authority_valid : IsAuthority u.authority u.node u.network
  pub resource_valid : validate_resource u.path u.query ≡ ok tt
  pub fragment_valid : validate_component true u.fragment ≡ ok tt

pub record IsResource (path query : Bytes) : Type 0 where
  pub rooted : starts_with_slash path ≡ true
  pub short : length path + query_length query ≤ max_uri_length
  pub path_valid : validate_component false path ≡ ok tt
  pub query_valid : validate_component true query ≡ ok tt

pub validate_resource-sound :
    (path query : Bytes) → validate_resource path query ≡ ok tt → IsResource path query
unfolding validate_resource
validate_resource-sound path query h = record {
  rooted = ground arith;
  short = ground arith;
  path_valid = ground arith;
  query_valid = ground arith;
}

parse_tail-IsUri :
    (authority rest : Bytes) {u : Uri}
    → IsAuthority authority (first_part (split_dots authority)) (second_part (split_dots authority))
    → parse_tail authority rest ≡ ok u
    → IsUri u
unfolding parse_tail
parse_tail-IsUri authority rest {u} v h = ground arith

-- Every URI that ParseURI returns has a canonical authority with its two labels, and a path, query
-- and fragment that pass the validators.
pub parse_uri-IsUri : (raw : Bytes) {u : Uri} → parse_uri raw ≡ ok u → IsUri u
unfolding parse_uri
parse_uri-IsUri raw {u} h =
    let rest = drop 7 raw in
    let authority = map to_lower (before ends_authority rest) in
    ground (
      arith,
      validate_authority_sound authority,
      parse_tail-IsUri authority (from ends_authority rest) {u = u},
    )

-- A part behind its mark is split off where the part in front holds no such mark.
cut-with_mark :
    (stop : ℕ → Bool) (v : Bytes) (mark : ℕ) (t : Bytes)
    → All (λ c. stop c ≡ false) v
    → stop mark ≡ true
    → (before stop (v ++ with_mark mark t) ≡ v)
      × (behind_mark (from stop (v ++ with_mark mark t)) ≡ t)
cut-with_mark stop v mark [] h e = let r = before-all stop v h in rw append-nil (r.0, rw r.1)
cut-with_mark stop v mark (c ∷ cs) h e =
    let r = before-append stop v mark (c ∷ cs) h e in (r.0, rw r.1)

no_hash : (q : Bool) (v : Bytes) → validate_component q v ≡ ok tt → All (λ c. is_hash c ≡ false) v
no_hash q v h = All-mono (λ c b. b.no_hash) v (validate_component-All q v h)

no_question : (v : Bytes) → validate_component false v ≡ ok tt → All (λ c. is_question c ≡ false) v
no_question v h =
    All-mono (λ c b. ground (arith, b.no_question)) v (validate_component-All false v h)

with_mark-All :
    (P : ℕ → Type 0) (mark : ℕ) (v : Bytes) → P mark → All P v → All P (with_mark mark v)
with_mark-All P mark [] h k = tt
with_mark-All P mark (c ∷ cs) h k = (h, k)

or_root-rooted : (path : Bytes) → starts_with_slash path ≡ true → or_root path ≡ path
or_root-rooted [] h = cc
or_root-rooted (c ∷ cs) h = refl

module _ (path query fragment : Bytes) (resource : validate_resource path query ≡ ok tt)
    (tail_valid : validate_component true fragment ≡ ok tt) where
  fields : IsResource path query
  fields = validate_resource-sound path query resource

  resource_no_hash : All (λ c. is_hash c ≡ false) (path ++ with_mark b'?' query)
  unfolding fields
  resource_no_hash =
      All-append _ path (with_mark b'?' query) (no_hash false path fields.path_valid)
        (with_mark-All _ b'?' query refl (no_hash true query fields.query_valid))

  parse_tail-written_tail :
      (authority : Bytes)
      → parse_tail authority (written_tail path query fragment)
        ≡ ok (record {
          authority = authority;
          node = first_part (split_dots authority);
          network = second_part (split_dots authority);
          path = path;
          query = query;
          fragment = fragment;
        })
  unfolding parse_tail
  parse_tail-written_tail authority =
      let hash =
        cut-with_mark is_hash (path ++ with_mark b'?' query) b'#' fragment resource_no_hash refl in
      let mark =
        cut-with_mark is_question path b'?' query (no_question path fields.path_valid) refl in
      rw (
        ← append_assoc path (with_mark b'?' query) (with_mark b'#' fragment),
        hash.0,
        hash.1,
        tail_valid,
        mark.0,
        mark.1,
        or_root-rooted path fields.rooted,
        resource,
      )

visible_of_lower :
    (v : Bytes)
    → All (λ c. is_forbidden c ≡ false) (map to_lower v)
    → All (λ c. is_forbidden c ≡ false) v
unfolding to_lower
visible_of_lower [] h = tt
visible_of_lower (c ∷ cs) h = (lower_visible c h.0, visible_of_lower cs h.1)
  where
    lower_visible : (c : ℕ) → is_forbidden (to_lower c) ≡ false → is_forbidden c ≡ false
    lower_visible c h = ground arith

inside_of_lower :
    (v : Bytes)
    → All (λ c. ends_authority c ≡ false) (map to_lower v)
    → All (λ c. ends_authority c ≡ false) v
unfolding to_lower
inside_of_lower [] h = tt
inside_of_lower (c ∷ cs) h = (lower_inside c h.0, inside_of_lower cs h.1)
  where
    lower_inside : (c : ℕ) → ends_authority (to_lower c) ≡ false → ends_authority c ≡ false
    lower_inside c h = ground arith

component_visible :
    (q : Bool) (v : Bytes) → validate_component q v ≡ ok tt → All (λ c. is_forbidden c ≡ false) v
component_visible q v h = All-mono (λ c b. b.visible) v (validate_component-All q v h)

-- A host in front of a rooted path ends where the path begins.
cut_host :
    (host path rest : Bytes)
    → starts_with_slash path ≡ true
    → All (λ c. ends_authority c ≡ false) host
    → (before ends_authority (host ++ (path ++ rest)) ≡ host)
      × (from ends_authority (host ++ (path ++ rest)) ≡ path ++ rest)
cut_host host [] rest s h = cc
cut_host host (c ∷ cs) rest s h = before-append ends_authority host c (cs ++ rest) h (ground arith)

-- How a URI may be written: the scheme and the authority in either case of letters.
pub record Spells (s host : Bytes) (u : Uri) : Type 0 where
  pub scheme_spelled : map to_lower s ≡ scheme
  pub host_spelled : map to_lower host ≡ u.authority

abbrev pub written : Bytes → Bytes → Uri → Bytes
written s host u = s ++ (host ++ written_tail u.path u.query u.fragment)

module _ {s host : Bytes} {u : Uri} (valid : IsUri u) (spells : Spells s host u) where
  length-scheme : length s ≡ 7
  length-scheme = omega (arith, length-map s to_lower, ap length spells.scheme_spelled)

  host_bytes : All IsAuthorityByte (map to_lower host)
  host_bytes =
      subst (All IsAuthorityByte) (sym spells.host_spelled) (IsAuthority-All valid.authority_valid)

  host_inside : All (λ c. ends_authority c ≡ false) host
  unfolding host_bytes
  host_inside = inside_of_lower host (All-mono (λ c b. b.inside) (map to_lower host) host_bytes)

  resource_fields : IsResource u.path u.query
  resource_fields = validate_resource-sound u.path u.query valid.resource_valid

  written_visible : All (λ c. is_forbidden c ≡ false) (written s host u)
  written_visible =
      let r = resource_fields in
      All-append _ s _
        (visible_of_lower s (
          subst (All (λ c. is_forbidden c ≡ false)) (sym spells.scheme_spelled)
            (refl, (refl, (refl, (refl, (refl, (refl, (refl, tt)))))))))
        (All-append _ host _
          (visible_of_lower host (All-mono (λ c b. b.visible) (map to_lower host) host_bytes))
          (All-append _ u.path _ (component_visible false u.path r.path_valid) (
            All-append _ (with_mark b'?' u.query) _
              (with_mark-All _ b'?' u.query refl (component_visible true u.query r.query_valid))
              (with_mark-All _ b'#' u.fragment refl
                (component_visible true u.fragment valid.fragment_valid)))))

  cut_scheme : (rest : Bytes) → (take 7 (s ++ rest) ≡ s) × (drop 7 (s ++ rest) ≡ rest)
  cut_scheme rest = (
    subst (λ n. take n (s ++ rest) ≡ s) length-scheme (take-length-append s rest),
    subst (λ n. drop n (s ++ rest) ≡ rest) length-scheme (drop-length-append s rest),
  )

  -- A well-formed URI, written with its scheme and host in any letter case and in at most 4096
  -- bytes, is parsed back by ParseURI.
  pub parse_uri-written :
      length (written s host u) ≤ max_uri_length → parse_uri (written s host u) ≡ ok u
  unfolding parse_uri
  parse_uri-written short =
      let tail = written_tail u.path u.query u.fragment in
      let cut = cut_scheme (host ++ tail) in
      let split =
        cut_host host u.path (with_mark b'?' u.query ++ with_mark b'#' u.fragment)
          resource_fields.rooted host_inside in
      let sized : (length (written s host u) == 0 || ltb max_uri_length (length (written s host u)))
          ≡ false =
        ground (arith, length-append s (host ++ tail), length-scheme) in
      let long : ltb (length (written s host u)) 7 ≡ false =
        ground (arith, length-append s (host ++ tail), length-scheme) in
      rw
        (
          sized,
          validate_ascii-All (written s host u) written_visible,
          long,
          cut.0,
          spells.scheme_spelled,
          (equal_iff scheme scheme).1 refl,
          cut.1,
          split.0,
          split.1,
          spells.host_spelled,
          IsAuthority-accepted valid.authority_valid,
        )
        (parse_tail-written_tail u.path u.query u.fragment valid.resource_valid valid.fragment_valid
            u.authority
          ∙ rw valid.authority_valid.parts)
