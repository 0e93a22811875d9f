-- ===== src/Limits/Peers.antt =====
-- The map of `peerLimiter`: its entries, in an order that the code does not depend on.
use deep_protocol.Base.{
  ℕ, ◌+◌, ◌≡◌, ◌≤◌, refl, subst, Bool, true, List, [], ◌∷◌, Bytes, length, inl, inr, Bool-cases,
  ◌⊎◌, equal, equal_iff, if◌then◌else◌, Option, none, some, arith, All,
}

-- `peerBudget`
pub record Budget : Type 0 where
  pub active : ℕ
  pub window : ℕ
  pub connections : ℕ
  pub requests : ℕ

abbrev pub Map : Type 0
Map = List (Bytes × Budget)

unfoldable pub find : Bytes → Map → Option Budget
find k [] = none
find k ((j, b) ∷ m) = if equal j k then some b else find k m

unfoldable pub put : Bytes → Budget → Map → Map
put k b [] = (k, b) ∷ []
put k b ((j, c) ∷ m) = if equal j k then (k, b) ∷ m else (j, c) ∷ put k b m

-- Deletes the entries whose budget passes the test.
unfoldable pub prune : (Budget → Bool) → Map → Map
prune idle [] = []
prune idle ((j, b) ∷ m) = let rest = prune idle m in if idle b then rest else (j, b) ∷ rest

pub find-put :
    (k j : Bytes) (b : Budget) (m : Map)
    → find j (put k b m) ≡ (if equal k j then some b else find j m)
unfolding find put
find-put k j b [] = refl
find-put k j b ((i, c) ∷ m) =
    ground (arith, equal_iff k j, equal_iff i k, equal_iff i j, find-put k j b m)

pub length-put_new : (k : Bytes) (b : Budget) (m : Map) → length (put k b m) ≤ length m + 1
unfolding put
length-put_new k b [] = omega arith
length-put_new k b ((j, c) ∷ m) = ground (arith, length-put_new k b m)

pub length-put_found :
    (k : Bytes) (b c : Budget) (m : Map) → find k m ≡ some c → length (put k b m) ≡ length m
unfolding find put
length-put_found k b c [] h = cc
length-put_found k b c ((j, d) ∷ m) h = ground (arith, length-put_found k b c m)

pub length-prune : (idle : Budget → Bool) (m : Map) → length (prune idle m) ≤ length m
unfolding prune
length-prune idle [] = omega arith
length-prune idle ((j, b) ∷ m) = ground (arith, length-prune idle m)

-- No key stands in two entries.
abbrev pub Unique : Map → Type 0
Unique [] = Unit {0}
Unique ((j, b) ∷ m) = (find j m ≡ none) × Unique m

pub put-Unique : (k : Bytes) (b : Budget) (m : Map) → Unique m → Unique (put k b m)
unfolding put find
put-Unique k b [] u = (refl, tt)
put-Unique k b ((j, c) ∷ m) u =
    ground (arith, equal_iff j k, equal_iff k j, find-put k j b m, put-Unique k b m u.1)

find-prune-none :
    (idle : Budget → Bool) (k : Bytes) (m : Map) → find k m ≡ none → find k (prune idle m) ≡ none
unfolding find prune
find-prune-none idle k [] h = refl
find-prune-none idle k ((j, b) ∷ m) h = ground (arith, find-prune-none idle k m)

pub prune-Unique : (idle : Budget → Bool) (m : Map) → Unique m → Unique (prune idle m)
unfolding prune
prune-Unique idle [] u = tt
prune-Unique idle ((j, b) ∷ m) u =
    ground (arith, find-prune-none idle j m u.0, prune-Unique idle m u.1)

-- Pruning deletes an entry that is idle, and leaves any other as it is.
pub find-prune :
    (idle : Budget → Bool) (k : Bytes) (m : Map)
    → Unique m
    → (find k (prune idle m) ≡ find k m)
      ⊎ ((b : Budget) × (find k m ≡ some b) × (idle b ≡ true) × (find k (prune idle m) ≡ none))
unfolding find prune
find-prune idle k [] u = inl refl
find-prune idle k ((j, b) ∷ m) u = elim (Bool-cases (equal j k)) [
  | inl hit ↦
      let here : find j (prune idle m) ≡ none = find-prune-none idle j m u.0 in
      elim (Bool-cases (idle b)) [
        | inl gone ↦ inr (
          b,
          rw hit,
          gone,
          rw gone (subst (λ i. find i (prune idle m) ≡ none) ((equal_iff j k).0 hit) here),
        )
        | inr kept ↦ inl (rw (kept, hit))
      ]
  | inr other ↦ elim (Bool-cases (idle b)) [
    | inl gone ↦ rw (gone, other) (find-prune idle k m u.1)
    | inr kept ↦ rw (kept, other) (find-prune idle k m u.1)
  ]
]

-- A property of every entry.
abbrev pub Entries : (Budget → Type 0) → Map → Type 0
Entries P m = All (λ (e : Bytes × Budget). P e.1) m

module _ (P : Budget → Type 0) where
  pub Entries-find : (k : Bytes) (m : Map) {b : Budget} → Entries P m → find k m ≡ some b → P b
  unfolding find
  Entries-find k [] h e = cc
  Entries-find k ((j, c) ∷ m) {b = b} h e = elim (Bool-cases (equal j k)) [
    | inl hit ↦ let same : c ≡ b = ground arith in subst P same h.0
    | inr other ↦ Entries-find k m h.1 (rw other at e)
  ]

  pub put-Entries : (k : Bytes) (b : Budget) (m : Map) → P b → Entries P m → Entries P (put k b m)
  unfolding put
  put-Entries k b [] p h = (p, tt)
  put-Entries k b ((j, c) ∷ m) p h = ground (arith, put-Entries k b m p h.1)

  pub prune-Entries : (idle : Budget → Bool) (m : Map) → Entries P m → Entries P (prune idle m)
  unfolding prune
  prune-Entries idle [] h = tt
  prune-Entries idle ((j, c) ∷ m) h = ground (arith, prune-Entries idle m h.1)
