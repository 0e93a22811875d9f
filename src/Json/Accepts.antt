-- ===== src/Json/Accepts.antt =====
-- `walkJSON` and `validateJSON` accept exactly the trees that are shallow and repeat no key.
use deep_protocol.Base.{
  ℕ, zero, suc, ◌+◌, ◌*◌, ◌≤◌, ◌≡◌, refl, ap, sym, subst, Bool, true, false, not, ◌||◌, List, [],
  ◌∷◌, Bytes, arith, ◌↔◌, ltb, ok, protocol, length, reject_if, >>=-eq-ok,
}
use deep_protocol.Json.{
  Json, Token, open_object, close_object, close_array, text, Read, got, at_end, failed, walk,
  members, elements, validate_json, first_object, nothing_behind, validate_surrogates, utf8_valid,
  max_metadata_size,
}
use deep_protocol.Json.Walk.{
  Tree, leaf, object, array, Fields, done, field, Items, nil, cons, depth, depth_fields,
  depth_items, Distinct, DistinctFields, DistinctItems, Reads, ReadsFields, ReadsItems, walk_lem,
}

module _ (json : Json) where
  open json use {State, start, token, more, left, left-start, left-token}

  mutual
    unfolding Reads ReadsFields ReadsItems depth Distinct walk members elements

    walk-Reads :
        (v : Tree) (fuel : ℕ) (k : Token) (d : ℕ) (s t : State)
        → Reads json k s v t
        → d + depth v ≤ 17
        → Distinct v
        → 2 * left s + 2 ≤ fuel
        → (walk json fuel k d s ≡ ok t) × (left t ≤ left s)
    walk-Reads v zero k d s t r b u h = absurd (omega arith)
    walk-Reads leaf (suc fuel) k d s t (c, p) b u h =
        (rw (c, walk) (ap ok p), omega (arith, ap left p))
    walk-Reads (object fs) (suc fuel) k d s t (o, r) b u h =
        let (e, l) = members-Reads fs fuel [] d s t r (omega arith) u (omega arith) in
        let fits : ltb 16 d ≡ false = ground arith in
        (subst (λ k'. walk json (suc fuel) k' d s ≡ ok t) (sym o) (rw (fits, walk) e), l)
    walk-Reads (array xs) (suc fuel) k d s t (o, r) b u h =
        let (e, l) = elements-Reads xs fuel d s t r (omega arith) u (omega arith) in
        let fits : ltb 16 d ≡ false = ground arith in
        (subst (λ k'. walk json (suc fuel) k' d s ≡ ok t) (sym o) (rw (fits, walk) e), l)

    members-Reads :
        (fs : Fields) (fuel : ℕ) (keys : List Bytes) (d : ℕ) (s t : State)
        → ReadsFields json s fs t
        → d + 1 + depth_fields fs ≤ 17
        → DistinctFields keys fs
        → 2 * left s + 1 ≤ fuel
        → (members json fuel keys d s ≡ ok t) × (left t ≤ left s)
    members-Reads fs zero keys d s t r b u h = absurd (omega arith)
    members-Reads done (suc fuel) keys d s t (m, p) b u h =
        (ground (arith, m, p), omega (arith, left-token s t close_object p))
    members-Reads (field key v fs) (suc fuel) keys d s t (k, s₁, s₂, s₃, m, p, q, r, r') b
          (u, x, x') h =
        let a = left-token s s₁ (text key) p in
        let c = left-token s₁ s₂ k q in
        let (e, l) = walk-Reads v fuel k (d + 1) s₂ s₃ r (omega arith) x (omega arith) in
        let (e', l') =
          members-Reads fs fuel (key ∷ keys) d s₃ t r' (omega arith) x' (omega arith) in
        (ground (arith, m, p, u, q, e, e'), omega arith)

    elements-Reads :
        (xs : Items) (fuel d : ℕ) (s t : State)
        → ReadsItems json s xs t
        → d + 1 + depth_items xs ≤ 17
        → DistinctItems xs
        → 2 * left s + 1 ≤ fuel
        → (elements json fuel d s ≡ ok t) × (left t ≤ left s)
    elements-Reads xs zero d s t r b u h = absurd (omega arith)
    elements-Reads nil (suc fuel) d s t (m, p) b u h =
        (ground (arith, m, p), omega (arith, left-token s t close_array p))
    elements-Reads (cons v xs) (suc fuel) d s t (k, s₁, s₂, m, p, r, r') b (x, x') h =
        let a = left-token s s₁ k p in
        let (e, l) = walk-Reads v fuel k (d + 1) s₁ s₂ r (omega arith) x (omega arith) in
        let (e', l') = elements-Reads xs fuel d s₂ t r' (omega arith) x' (omega arith) in
        (ground (arith, m, p, e, e'), omega arith)

  -- Metadata that is one JSON object of bounded size and depth whose objects repeat no key.
  abbrev pub IsObject : Bytes → Type 0
  IsObject raw =
      (fs : Fields) × (s : State) × (t : State) × (2 ≤ length raw)
      × (length raw ≤ max_metadata_size)
      × (utf8_valid raw ≡ true)
      × (validate_surrogates raw ≡ ok tt)
      × (token (start raw) ≡ got open_object s)
      × ReadsFields json s fs t
      × (token t ≡ at_end)
      × (depth (object fs) ≤ 16)
      × Distinct (object fs)

  first_object-got :
      (r : Read State) {s : State} → first_object json r ≡ ok s → r ≡ got open_object s
  first_object-got (got open_object s) e = ground arith
  first_object-got (got _ s) e = cc
  first_object-got at_end e = cc
  first_object-got failed e = cc

  nothing_behind-at_end : (r : Read State) → nothing_behind json r ≡ ok tt → r ≡ at_end
  nothing_behind-at_end at_end e = refl
  nothing_behind-at_end _ e = cc

  abbrev encoding_fails : Bytes → Bool
  encoding_fails raw =
      ltb (length raw) 2 || ltb max_metadata_size (length raw) || not (utf8_valid raw)

  abbrev Walked : Bytes → Type 0
  Walked raw =
      (s : State) × (t : State) × (encoding_fails raw ≡ false)
      × (validate_surrogates raw ≡ ok tt)
      × (token (start raw) ≡ got open_object s)
      × (walk json (2 * length raw) open_object 1 s ≡ ok t)
      × (token t ≡ at_end)

  validate_json-Walked : (raw : Bytes) → validate_json json raw ≡ ok tt → Walked raw
  unfolding validate_json
  validate_json-Walked raw e =
      let (_, a, e₁) =
        >>=-eq-ok (reject_if (encoding_fails raw) (protocol "invalid metadata encoding or size")) _
          e in
      let (_, b, e₂) = >>=-eq-ok (validate_surrogates raw) _ e₁ in
      let (s, c, e₃) = >>=-eq-ok (first_object json (token (start raw))) _ e₂ in
      let (t, w, e₄) = >>=-eq-ok (walk json (2 * length raw) open_object 1 s) _ e₃ in
      (s, t, ground arith, ground arith, first_object-got _ c, w, nothing_behind-at_end _ e₄)

  object-Reads :
      (s t : State) (v : Tree)
      → Reads json open_object s v t
      → (fs : Fields) × (v ≡ object fs) × ReadsFields json s fs t
  unfolding Reads
  object-Reads s t leaf (c, p) = cc
  object-Reads s t (object fs) (o, r) = (fs, refl, r)
  object-Reads s t (array xs) (o, r) = cc

  validate_json_sound : (raw : Bytes) → validate_json json raw ≡ ok tt → IsObject raw
  validate_json_sound raw e =
      let (s, t, a, b, c, w, z) = validate_json-Walked raw e in
      let shallow : 1 ≤ 17 = omega arith in
      let (v, r, d, u) = walk_lem json (2 * length raw) open_object 1 s t shallow w in
      let (fs, p, r') = object-Reads s t v r in
      (
        fs,
        s,
        t,
        ground arith,
        ground arith,
        ground arith,
        b,
        c,
        r',
        z,
        omega (arith, ap depth p),
        rw p at u,
      )

  validate_json_complete : (raw : Bytes) → IsObject raw → validate_json json raw ≡ ok tt
  unfolding validate_json
  validate_json_complete raw (fs, s, t, small, big, utf, b, c, r, z, d, u) =
      let fails : encoding_fails raw ≡ false = ground arith in
      let shorter = left-token (start raw) s open_object c in
      let (e, l) =
        walk-Reads (object fs) (2 * length raw) open_object 1 s t (unfold Reads in (refl, r))
          (omega arith) u (omega (arith, left-start raw)) in
      rw (fails, b, c, e, z)

  -- ValidateJSON accepts a text exactly when its size, UTF-8 and surrogates are in order and its
  -- tokens spell one object, with nothing behind it, that nests at most 16 deep and has no key
  -- twice in any object.
  pub validate_json-IsObject : (raw : Bytes) → (validate_json json raw ≡ ok tt) ↔ IsObject raw
  validate_json-IsObject raw = (validate_json_sound raw, validate_json_complete raw)
