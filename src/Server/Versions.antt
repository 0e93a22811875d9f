-- ===== src/Server/Versions.antt =====
-- The versions that a HELLO offers.
use deep_protocol.Base.{
  ◌≡◌, ◌≤◌, ◌↔◌, refl, ◌∙◌, inl, inr, Bool, true, false, ◌||◌, List, [], ◌∷◌, length, All, ltb,
  ◌==◌, ok, err, arith, protocol, passed, result_cases, Error,
}
use deep_protocol.Base.Int.{ℤ, pos, negsuc, pos_part, ltb_ℤ}
use deep_protocol.Frame.{protocol_version}
use deep_protocol.Server.{contains_ℤ, scan_versions, check_versions}

abbrev pub InRange : ℤ → Type 0
InRange v = (1 ≤ pos_part v) × (pos_part v ≤ 65535)

abbrev pub Distinct : List ℤ → Type 0
Distinct [] = Unit
Distinct (v ∷ vs) = (contains_ℤ vs v ≡ false) × Distinct vs

-- None of them is among `seen`.
abbrev Apart : List ℤ → List ℤ → Type 0
Apart seen vs = All (λ v. contains_ℤ seen v ≡ false) vs

-- An offer that the server takes.
pub record IsOffer (vs : List ℤ) : Type 0 where
  pub some_versions : 1 ≤ length vs
  pub few : length vs ≤ 16
  pub in_range : All InRange vs
  pub distinct : Distinct vs
  pub has_version : contains_ℤ vs (pos protocol_version) ≡ true

Apart-cons :
    (u : ℤ) (seen vs : List ℤ) → Apart (u ∷ seen) vs → (contains_ℤ vs u ≡ false) × Apart seen vs
Apart-cons u seen [] h = (refl, tt)
Apart-cons u seen (v ∷ vs) h = let (a, b) = Apart-cons u seen vs h.1 in ground arith

cons-Apart :
    (u : ℤ) (seen vs : List ℤ) → contains_ℤ vs u ≡ false → Apart seen vs → Apart (u ∷ seen) vs
cons-Apart u seen [] h a = tt
cons-Apart u seen (v ∷ vs) h a = (ground arith, cons-Apart u seen vs (ground arith) a.1)

abbrev bad : List ℤ → ℤ → Bool
bad seen v = ltb_ℤ v (pos 1) || ltb_ℤ (pos 65535) v || contains_ℤ seen v

bad-InRange : (seen : List ℤ) (v : ℤ) → bad seen v ≡ false → InRange v × (contains_ℤ seen v ≡ false)
bad-InRange seen (pos n) h = ground arith
bad-InRange seen (negsuc n) h = ground arith

InRange-bad : (seen : List ℤ) (v : ℤ) → InRange v → contains_ℤ seen v ≡ false → bad seen v ≡ false
InRange-bad seen (pos n) r h = ground arith
InRange-bad seen (negsuc n) r h = absurd (omega arith)

scan_sound :
    (seen vs : List ℤ) {out : List ℤ}
    → scan_versions seen vs ≡ ok out
    → All InRange vs × Distinct vs × Apart seen vs
unfolding scan_versions
scan_sound seen [] h = (tt, tt, tt)
scan_sound seen (v ∷ vs) h =
    let (g, e) =
      passed (bad seen v) (protocol "invalid version offer") (scan_versions (v ∷ seen) vs) h in
    let (r, a) = bad-InRange seen v g in
    let (rs, ds, gaps) = scan_sound (v ∷ seen) vs e in
    let (n, apart) = Apart-cons v seen vs gaps in ((r, rs), (n, ds), (a, apart))

scan_complete :
    (seen vs : List ℤ)
    → All InRange vs
    → Distinct vs
    → Apart seen vs
    → (out : List ℤ) × (scan_versions seen vs ≡ ok out)
unfolding scan_versions
scan_complete seen [] r d a = (seen, refl)
scan_complete seen (v ∷ vs) r d a =
    let (out, e) = scan_complete (v ∷ seen) vs r.1 d.1 (cons-Apart v seen vs d.0 a.1) in
    (out, rw (InRange-bad seen v r.0 a.0) e)

scan_members :
    (seen vs : List ℤ) (x : ℤ) {out : List ℤ}
    → scan_versions seen vs ≡ ok out
    → contains_ℤ out x ≡ (contains_ℤ vs x || contains_ℤ seen x)
unfolding scan_versions
scan_members seen [] x h = ground arith
scan_members seen (v ∷ vs) x h =
    let (g, e) =
      passed (bad seen v) (protocol "invalid version offer") (scan_versions (v ∷ seen) vs) h in
    let m = scan_members (v ∷ seen) vs x e in m ∙ ground arith

Apart-nil : (vs : List ℤ) → Apart [] vs
Apart-nil [] = tt
Apart-nil (v ∷ vs) = (refl, Apart-nil vs)

check_versions_sound : (vs : List ℤ) → check_versions vs ≡ ok tt → IsOffer vs
unfolding check_versions
check_versions_sound vs h =
    let sizes = length vs == 0 || ltb 16 (length vs) in
    let (sized, e) = passed sizes (protocol "invalid version offer") _ h in
    elim (result_cases (scan_versions [] vs)) [
      | inr (x, p) ↦ absurd (refused x p)
      | inl (out, p) ↦
          let (r, d, a) = scan_sound [] vs p in
          let m = scan_members [] vs (pos protocol_version) p in
          record {
            some_versions = ground arith;
            few = ground arith;
            in_range = r;
            distinct = d;
            has_version = ground (arith, check_versions vs, h, p);
          }
    ]
  where
    refused : (x : Error) → scan_versions [] vs ≡ err x → ⊥
    refused x p = ground (arith, h, p)

check_versions_complete : (vs : List ℤ) → IsOffer vs → check_versions vs ≡ ok tt
unfolding check_versions
check_versions_complete vs o =
    let (out, e) = scan_complete [] vs o.in_range o.distinct (Apart-nil vs) in
    let m = scan_members [] vs (pos protocol_version) e in
    let sized : (length vs == 0 || ltb 16 (length vs)) ≡ false =
      ground (arith, o.some_versions, o.few) in
    let found : contains_ℤ out (pos protocol_version) ≡ true = ground (arith, o.has_version) in
    rw (sized, e, found)

-- The server takes a version offer exactly when it has 1 to 16 versions, all from 1 to 65535 and
-- distinct, and the server's own among them.
pub check_versions-IsOffer : (vs : List ℤ) → (check_versions vs ≡ ok tt) ↔ IsOffer vs
check_versions-IsOffer vs = (check_versions_sound vs, check_versions_complete vs)
