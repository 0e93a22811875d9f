-- ===== src/Base/Errors.antt =====
-- Go's (value, error) results, and the errors the package makes.
use Prim.Native.String.{String}
use mathlib.Core.Path.{◌≡◌, refl}
use mathlib.Core.Logic.{◌⊎◌, inl, inr}
use mathlib.Core.Bool.{Bool, true, false}
use deep_protocol.Base.Lists.{Bytes}
use deep_protocol.Base.Tests.{if◌then◌else◌}

-- `RemoteError` in protocol.go.
pub record RemoteError : Type 0 where
  pub code : Bytes
  pub message : Bytes

-- `protocol` wraps ErrProtocol, `failure` is an error of another kind, each with its text.
-- `eof` is io.EOF, `unexpected_eof` is io.ErrUnexpectedEOF, `short_write` is io.ErrShortWrite.
-- `out_of_fuel` is no Go value: the model's bound on a loop was too small.
pub data Error : Type 0 where
  protocol : String → Error
  failure : String → Error
  remote : RemoteError → Error
  eof unexpected_eof short_write closed canceled out_of_fuel : Error

-- A pair of a value and a nil error, or an error.
pub data Result {ℓ} (Value : Type ℓ) : Type ℓ where
  err : Error → Result Value
  ok : Value → Result Value

-- Go on with the value, or `return err`.
infixl 5 ◌>>=◌
abbrev pub ◌>>=◌ {κ ι} : {X : Type κ} {Y : Type ι} → Result X → (X → Result Y) → Result Y
err e >>= rest = err e
ok x >>= rest = rest x

infixl 5 ◌>>◌
abbrev pub ◌>>◌ {ι} : {Y : Type ι} → Result (Unit {0}) → Result Y → Result Y
check >> rest = check >>= λ _. rest

-- `if test { return e }`
abbrev pub reject_if : Bool → Error → Result (Unit {0})
reject_if true e = err e
reject_if false e = ok tt

abbrev pub is_ok {ℓ} : {A : Type ℓ} → Result A → Bool
is_ok (ok a) = true
is_ok (err e) = false

-- The value that a successful chain has gone on with.
pub >>=-eq-ok {κ ι} :
    {X : Type κ} {Y : Type ι} (r : Result X) (rest : X → Result Y) {y : Y}
    → (r >>= rest) ≡ ok y
    → (x : X) × (r ≡ ok x) × (rest x ≡ ok y)
>>=-eq-ok (err e) rest h = cc
>>=-eq-ok (ok x) rest h = (x, refl, h)

pub check-cases : (r : Result (Unit {0})) → (r ≡ ok tt) ⊎ ((e : Error) × (r ≡ err e))
check-cases (ok u) = inl refl
check-cases (err e) = inr (e, refl)

pub is_ok_lem : (r : Result (Unit {0})) → is_ok r ≡ true → r ≡ ok tt
is_ok_lem (ok u) h = refl
is_ok_lem (err e) h = cc

-- A guard that was passed.
pub passed {ℓ} :
    {A : Type ℓ} (test : Bool) (e : Error) (rest : Result A) {a : A}
    → (if test then err e else rest) ≡ ok a
    → (test ≡ false) × (rest ≡ ok a)
passed true e rest h = cc
passed false e rest h = (refl, h)

pub result_cases {ℓ} :
    {A : Type ℓ} (r : Result A) → ((a : A) × (r ≡ ok a)) ⊎ ((e : Error) × (r ≡ err e))
result_cases (ok a) = inl (a, refl)
result_cases (err e) = inr (e, refl)

-- The same as a case rule.
pub chain-elim {κ ι υ} :
    {X : Type κ} {Y : Type ι} {P : Type υ} (r : Result X) (rest : X → Result Y) {y : Y}
    → (r >>= rest) ≡ ok y
    → ((x : X) → r ≡ ok x → rest x ≡ ok y → P)
    → P
chain-elim r rest h k = let (x, p, q) = >>=-eq-ok r rest h in k x p q

-- A check that a chain has passed.
pub checked {ℓ} :
    {A : Type ℓ} (test : Bool) (e : Error) (rest : Result A) {a : A}
    → (reject_if test e >> rest) ≡ ok a
    → (test ≡ false) × (rest ≡ ok a)
checked true e rest h = cc
checked false e rest h = (refl, h)

pub reject_if-passed : (test : Bool) (e : Error) → reject_if test e ≡ ok tt → test ≡ false
reject_if-passed true e h = cc
reject_if-passed false e h = refl
