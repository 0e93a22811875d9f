-- ===== src/Json/Walk.antt =====
-- `walkJSON` against the tree that its tokens spell.
use deep_protocol.Base.{
  ℕ, zero, suc, ◌+◌, ◌≤◌, ◌≡◌, true, false, List, [], ◌∷◌, Bytes, arith, inl, inr, ◌⊎◌, Bool-cases,
  contains, ok, max, String, >>=-eq-ok,
}
use deep_protocol.Json.{
  Json, Token, open_object, close_object, open_array, close_array, text, got, walk, members,
  elements, is_container, next, fresh_key,
}

-- A JSON value with its keys; what a scalar holds does not matter here.
mutual
  pub data Tree : Type 0 where
    leaf : Tree
    object : Fields → Tree
    array : Items → Tree

  pub data Fields : Type 0 where
    done : Fields
    field : Bytes → Tree → Fields → Fields

  pub data Items : Type 0 where
    nil : Items
    cons : Tree → Items → Items

unfoldable mutual
  -- How deep containers stand in one another.
  pub depth : Tree → ℕ
  depth leaf = 0
  depth (object fs) = suc (depth_fields fs)
  depth (array xs) = suc (depth_items xs)

  pub depth_fields : Fields → ℕ
  depth_fields done = 0
  depth_fields (field k v fs) = max (depth v) (depth_fields fs)

  pub depth_items : Items → ℕ
  depth_items nil = 0
  depth_items (cons v xs) = max (depth v) (depth_items xs)

unfoldable mutual
  -- No object has a key twice, here or below.
  pub Distinct : Tree → Type 0
  Distinct leaf = Unit
  Distinct (object fs) = DistinctFields [] fs
  Distinct (array xs) = DistinctItems xs

  -- The keys in front are `keys`.
  pub DistinctFields : List Bytes → Fields → Type 0
  DistinctFields keys done = Unit
  DistinctFields keys (field k v fs) =
      (contains keys k ≡ false) × Distinct v × DistinctFields (k ∷ keys) fs

  pub DistinctItems : Items → Type 0
  DistinctItems nil = Unit
  DistinctItems (cons v xs) = Distinct v × DistinctItems xs

module _ (json : Json) where
  open json use {State, token, more, left, left-token}

  unfoldable mutual
    -- The tokens from state `s` on, behind `k`, spell the tree and lead to `t`.
    pub Reads : Token → State → Tree → State → Type 0
    Reads k s leaf t = (is_container k ≡ false) × (s ≡ t)
    Reads k s (object fs) t = (k ≡ open_object) × ReadsFields s fs t
    Reads k s (array xs) t = (k ≡ open_array) × ReadsItems s xs t

    pub ReadsFields : State → Fields → State → Type 0
    ReadsFields s done t = (more s ≡ false) × (token s ≡ got close_object t)
    ReadsFields s (field key v fs) t =
        (k : Token) × (s₁ : State) × (s₂ : State) × (s₃ : State) × (more s ≡ true)
        × (token s ≡ got (text key) s₁)
        × (token s₁ ≡ got k s₂)
        × Reads k s₂ v s₃
        × ReadsFields s₃ fs t

    pub ReadsItems : State → Items → State → Type 0
    ReadsItems s nil t = (more s ≡ false) × (token s ≡ got close_array t)
    ReadsItems s (cons v xs) t =
        (k : Token) × (s₁ : State) × (s₂ : State) × (more s ≡ true)
        × (token s ≡ got k s₁)
        × Reads k s₁ v s₂
        × ReadsItems s₂ xs t

  next-got :
      (message : String) (s : State) {k : Token} {t : State}
      → next json message s ≡ ok (k, t)
      → token s ≡ got k t
  next-got message s e = ground arith

  fresh_key-text :
      (keys : List Bytes) (k : Token) {key : Bytes}
      → fresh_key json keys k ≡ ok key
      → (k ≡ text key) × (contains keys key ≡ false)
  fresh_key-text keys (text key) e = ground arith
  fresh_key-text keys _ e = ground arith

  abbrev MemberStep : ℕ → List Bytes → ℕ → State → State → Type 0
  MemberStep fuel keys d s t =
      (key : Bytes) × (k : Token) × (s₁ : State) × (s₂ : State) × (s₃ : State) × (token s
        ≡ got (text key) s₁)
      × (contains keys key ≡ false)
      × (token s₁ ≡ got k s₂)
      × (walk json fuel k (d + 1) s₂ ≡ ok s₃)
      × (members json fuel (key ∷ keys) d s₃ ≡ ok t)

  member_step :
      (fuel : ℕ) (keys : List Bytes) (d : ℕ) (s t : State)
      → more s ≡ true
      → members json (suc fuel) keys d s ≡ ok t
      → MemberStep fuel keys d s t
  unfolding members
  member_step fuel keys d s t m e =
      let ((k, s₁), p, e₁) = >>=-eq-ok (next json "invalid JSON" s) _ (rw m at e) in
      let (key, q, e₂) = >>=-eq-ok (fresh_key json keys k) _ e₁ in
      let ((v, s₂), r, e₃) = >>=-eq-ok (next json "invalid JSON" s₁) _ e₂ in
      let (s₃, w, e₄) = >>=-eq-ok (walk json fuel v (d + 1) s₂) _ e₃ in
      let (is_text, fresh) = fresh_key-text keys k q in
      (key, v, s₁, s₂, s₃, rw is_text at (next-got _ s p), fresh, next-got _ s₁ r, w, e₄)

  abbrev ElementStep : ℕ → ℕ → State → State → Type 0
  ElementStep fuel d s t =
      (k : Token) × (s₁ : State) × (s₂ : State) × (token s ≡ got k s₁)
      × (walk json fuel k (d + 1) s₁ ≡ ok s₂)
      × (elements json fuel d s₂ ≡ ok t)

  element_step :
      (fuel d : ℕ) (s t : State)
      → more s ≡ true
      → elements json (suc fuel) d s ≡ ok t
      → ElementStep fuel d s t
  unfolding elements
  element_step fuel d s t m e =
      let ((v, s₁), p, e₁) = >>=-eq-ok (next json "invalid JSON" s) _ (rw m at e) in
      let (s₂, w, e₂) = >>=-eq-ok (walk json fuel v (d + 1) s₁) _ e₁ in
      (v, s₁, s₂, next-got _ s p, w, e₂)

  members_end :
      (fuel : ℕ) (keys : List Bytes) (d : ℕ) (s t : State)
      → more s ≡ false
      → members json (suc fuel) keys d s ≡ ok t
      → token s ≡ got close_object t
  unfolding members
  members_end fuel keys d s t m e = ground arith

  elements_end :
      (fuel d : ℕ) (s t : State)
      → more s ≡ false
      → elements json (suc fuel) d s ≡ ok t
      → token s ≡ got close_array t
  unfolding elements
  elements_end fuel d s t m e = ground arith

  walk_step :
      (fuel : ℕ) (k : Token) (d : ℕ) (s t : State)
      → walk json (suc fuel) k d s ≡ ok t
      → ((is_container k ≡ false) × (s ≡ t))
        ⊎ ((k ≡ open_object) × (d ≤ 16) × (members json fuel [] d s ≡ ok t))
        ⊎ ((k ≡ open_array) × (d ≤ 16) × (elements json fuel d s ≡ ok t))
  unfolding walk
  walk_step fuel k d s t e = ground arith

  mutual
    unfolding Reads ReadsFields ReadsItems depth Distinct walk members elements

    pub walk_lem :
        (fuel : ℕ) (k : Token) (d : ℕ) (s t : State)
        → d ≤ 17
        → walk json fuel k d s ≡ ok t
        → (v : Tree) × Reads k s v t × (d + depth v ≤ 17) × Distinct v
    walk_lem zero k d s t h e = cc
    walk_lem (suc fuel) k d s t h e = elim (walk_step fuel k d s t e) [
      | inl (c, p) ↦ (leaf, (c, p), omega arith, tt)
      | inr (inl (o, l, m)) ↦
          let (fs, r, b, u) = members-reads fuel [] d s t l m in (object fs, (o, r), omega arith, u)
      | inr (inr (o, l, m)) ↦
          let (xs, r, b, u) = elements-reads fuel d s t l m in (array xs, (o, r), omega arith, u)
    ]

    members-reads :
        (fuel : ℕ) (keys : List Bytes) (d : ℕ) (s t : State)
        → d ≤ 16
        → members json fuel keys d s ≡ ok t
        → (fs : Fields) × ReadsFields s fs t
          × (d + 1 + depth_fields fs ≤ 17)
          × DistinctFields keys fs
    members-reads zero keys d s t h e = cc
    members-reads (suc fuel) keys d s t h e = elim (Bool-cases (more s)) [
      | inr m ↦ (done, (m, members_end fuel keys d s t m e), omega arith, tt)
      | inl m ↦
          let (key, k, s₁, s₂, s₃, p, u, q, w, rest) = member_step fuel keys d s t m e in
          let (v, r, b, x) = walk_lem fuel k (d + 1) s₂ s₃ (omega arith) w in
          let (fs, r', b', x') = members-reads fuel (key ∷ keys) d s₃ t h rest in
          (field key v fs, (k, s₁, s₂, s₃, m, p, q, r, r'), omega arith, (u, x, x'))
    ]

    elements-reads :
        (fuel d : ℕ) (s t : State)
        → d ≤ 16
        → elements json fuel d s ≡ ok t
        → (xs : Items) × ReadsItems s xs t × (d + 1 + depth_items xs ≤ 17) × DistinctItems xs
    elements-reads zero d s t h e = cc
    elements-reads (suc fuel) d s t h e = elim (Bool-cases (more s)) [
      | inr m ↦ (nil, (m, elements_end fuel d s t m e), omega arith, tt)
      | inl m ↦
          let (k, s₁, s₂, p, w, rest) = element_step fuel d s t m e in
          let (v, r, b, x) = walk_lem fuel k (d + 1) s₁ s₂ (omega arith) w in
          let (xs, r', b', x') = elements-reads fuel d s₂ t h rest in
          (cons v xs, (k, s₁, s₂, m, p, r, r'), omega arith, (x, x'))
    ]
