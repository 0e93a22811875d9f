-- ===== src/Json/Surrogates.antt =====
-- `validateSurrogates` comes to its end: the fuel of the scan is enough.
use deep_protocol.Base.{
  String, ℕ, zero, suc, ◌≡◌, ◌≢◌, ◌≤◌, inl, inr, Bool, false, not, ◌||◌, [], ◌∷◌, Bytes, length,
  drop, length-drop, ◌==◌, Result, ok, err, Error, protocol, out_of_fuel, Bool-cases, result_cases,
  arith, subst,
}
use deep_protocol.Json.{skip_low, skip_unicode, skip_escape, scan_surrogates, validate_surrogates}

-- What is left behind an escape is no longer, and its errors are the protocol's.
abbrev IsStep : Bytes → Result Bytes → Type 0
IsStep rest (ok after) = length after ≤ length rest
IsStep rest (err e) = e ≢ out_of_fuel

protocol-ne : (message : String) → protocol message ≢ out_of_fuel
protocol-ne message h = cc

err-injective : {x y : Error} → ◌≡◌ {A = Result (Unit {0})} (err x) (err y) → x ≡ y
err-injective e = cc

skip_low-IsStep : (rest : Bytes) → IsStep rest (skip_low rest)
unfolding skip_low
skip_low-IsStep rest = ground (arith, length-drop 6 rest)

skip_unicode-IsStep : (rest : Bytes) → IsStep rest (skip_unicode rest)
unfolding skip_unicode
skip_unicode-IsStep rest = ground (arith, length-drop 4 rest, skip_low-IsStep (drop 4 rest))

skip_escape-IsStep : (rest : Bytes) → IsStep rest (skip_escape rest)
unfolding skip_escape
skip_escape-IsStep [] = protocol-ne "unfinished JSON escape"
skip_escape-IsStep (c ∷ rest) = ground (arith, skip_unicode-IsStep rest)

scan_enough :
    (fuel : ℕ) (quoted : Bool) (raw : Bytes)
    → length raw ≤ fuel
    → scan_surrogates fuel quoted raw ≢ err out_of_fuel
unfolding scan_surrogates
scan_enough fuel quoted [] h = λ e. cc
scan_enough zero quoted (c ∷ rest) h = absurd (omega arith)
scan_enough (suc fuel) quoted (c ∷ rest) h = elim (Bool-cases (c == b'"')) [
  | inl q ↦ rw (q, scan_surrogates) (scan_enough fuel (not quoted) rest (omega arith))
  | inr n ↦
      rw (n, scan_surrogates)
        (elim (Bool-cases (not quoted || not (c == b'\\'))) [
          | inl p ↦ rw p (scan_enough fuel quoted rest (omega arith))
          | inr s ↦ rw s (elim (result_cases (skip_escape rest)) [
            | inl (after, p) ↦
                let shorter : length after ≤ length rest =
                  subst (IsStep rest) p (skip_escape-IsStep rest) in
                rw p (scan_enough fuel quoted after (omega arith))
            | inr (x, p) ↦
                let other : x ≢ out_of_fuel = subst (IsStep rest) p (skip_escape-IsStep rest) in
                rw p (λ e. other (err-injective e))
          ])
        ])
]

-- The scan of validateSurrogates comes to its end on every text within the fuel that it is given,
-- the text's length.
pub validate_surrogates-ne-out_of_fuel : (raw : Bytes) → validate_surrogates raw ≢ err out_of_fuel
unfolding validate_surrogates
validate_surrogates-ne-out_of_fuel raw = scan_enough (length raw) false raw (omega arith)
