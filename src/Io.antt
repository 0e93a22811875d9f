-- ===== src/Io.antt =====
-- What the protocol uses of Go's io package: a reader as the bytes still to come, a writer as the
-- bytes it has taken, and methods that change state and may fail.
pub mod Keeps
use deep_protocol.Base.{
  ℕ, ◌≡◌, refl, true, List, [], ◌++◌, Bytes, length, take, drop, leb, ◌==◌, if◌then◌else◌, Option,
  Error, eof, unexpected_eof, Result, ok, err, arith, ap, subst, take-append-drop, length-take,
  length-append, take-length-append, drop-length-append,
}
use deep_protocol.Base.Int.{ℤ}

-- A method on the state `S`; what was done before an error stays done.
abbrev pub Exec {ℓ} : (State Value : Type ℓ) → Type ℓ
Exec State Value = State → Result Value × State

module _ {ℓ} {S A B : Type ℓ} where
  abbrev pub continue : Result A → (A → Exec S B) → Exec S B
  continue (ok a) f s = f a s
  continue (err e) f s = (err e, s)

  infixl 5 ◌>>=◌
  abbrev pub ◌>>=◌ : Exec S A → (A → Exec S B) → Exec S B
  ◌>>=◌ m f s = let (r, s') = m s in continue r f s'

module _ {ℓ} {S : Type ℓ} {A B : Type ℓ} where
  infixl 5 ◌>>◌
  abbrev pub ◌>>◌ : Exec S A → Exec S B → Exec S B
  first >> second = first >>= λ _. second

module _ {ℓ} {S A : Type ℓ} where
  abbrev pub pure : A → Exec S A
  pure a s = (ok a, s)

  abbrev pub lift : Result A → Exec S A
  lift r s = (r, s)

  abbrev pub raise : Error → Exec S A
  raise e s = (err e, s)

-- A connection or a file to read from: `fault` is what `Read` returns once `bytes` are used up,
-- io.EOF or a network error.
pub record Stream : Type 0 where
  pub bytes : Bytes
  pub fault : Error

-- The end of the input inside a `ReadFull`.
abbrev pub cut_short : Error → Error
cut_short eof = unexpected_eof
cut_short e = e

-- `io.ReadFull` into a buffer of `n` bytes. A short read uses up what there was.
unfoldable pub read_full : ℕ → Exec Stream Bytes
read_full n s =
    if leb n (length s.bytes)
    then (ok (take n s.bytes), record s { bytes = drop n s.bytes })
    else (err (if length s.bytes == 0 then s.fault else cut_short s.fault), record s { bytes = [] })

-- What one call of `Write` answers: the count of bytes and an error.
abbrev pub Answer : Type 0
Answer = ℤ × Option Error

-- A writer with the bytes that it has taken and its answers to the calls to come; from where these
-- end, it takes all it is given.
pub record Writer : Type 0 where
  pub sent : Bytes
  pub answers : List Answer

module _ {ℓ} {S A B : Type ℓ} where
  -- Inversion of a method that came to its end.
  pub >>=-eq-ok :
      (m : Exec S A) (f : A → Exec S B) (s : S) {b : B} {t : S}
      → (m >>= f) s ≡ (ok b, t)
      → (a : A) × (s' : S) × (m s ≡ (ok a, s')) × (f a s' ≡ (ok b, t))
  >>=-eq-ok m f s {b} {t} e = go (m s) refl e
    where
      err-ne-ok : {x : Error} {y : B} → err x ≡ ok y → ⊥
      err-ne-ok e = cc

      go :
          (r : Result A × S)
          → m s ≡ r
          → continue r.0 f r.1 ≡ (ok b, t)
          → (a : A) × (s' : S) × (m s ≡ (ok a, s')) × (f a s' ≡ (ok b, t))
      go (ok a, s') p q = (a, s', p, q)
      go (err x, s') p q = absurd (err-ne-ok (ap (λ r. r.0) q))

-- A full read takes `n` bytes off the front, and there were as many.
pub record Takes (n : ℕ) (s : Stream) (a : Bytes) (s' : Stream) : Type 0 where
  pub splits : s.bytes ≡ a ++ s'.bytes
  pub length_is : length a ≡ n
  pub fault_is : s'.fault ≡ s.fault

pub read_full-Takes :
    (n : ℕ) (s : Stream) {a : Bytes} {s' : Stream} → read_full n s ≡ (ok a, s') → Takes n s a s'
unfolding read_full
read_full-Takes n s e = ground (arith, take-append-drop n s.bytes, length-take n s.bytes)

pub read_full-append :
    (n : ℕ) (a b : Bytes) (fault : Error)
    → length a ≡ n
    → read_full n (record { bytes = a ++ b; fault = fault })
      ≡ (ok a, record { bytes = b; fault = fault })
unfolding read_full
read_full-append n a b fault e =
    let enough : leb n (length (a ++ b)) ≡ true = ground (arith, length-append a b) in
    let taken = subst (λ k. take k (a ++ b) ≡ a) e (take-length-append a b) in
    let left_over = subst (λ k. drop k (a ++ b) ≡ b) e (drop-length-append a b) in
    rw (enough, taken, left_over)

module _ {ℓ κ} {S A B : Type ℓ} {P : Type κ} where
  -- The same as a case rule, which keeps what it finds abstract.
  pub >>=-elim :
      (m : Exec S A) (f : A → Exec S B) (s : S) {b : B} {t : S}
      → (m >>= f) s ≡ (ok b, t)
      → ((a : A) (s' : S) → m s ≡ (ok a, s') → f a s' ≡ (ok b, t) → P)
      → P
  >>=-elim m f s e k = let (a, s', p, q) = >>=-eq-ok m f s e in k a s' p q

  pub lift-elim :
      (r : Result A) (f : A → Exec S B) (s : S) {b : B} {t : S}
      → (lift r >>= f) s ≡ (ok b, t)
      → ((a : A) → r ≡ ok a → f a s ≡ (ok b, t) → P)
      → P
  lift-elim (ok a) f s e k = k a refl e
  lift-elim (err x) f s e k = absurd (err-ne-ok (ap (λ p. p.0) e))
    where
      err-ne-ok : {x : Error} {y : B} → err x ≡ ok y → ⊥
      err-ne-ok e = cc

module _ {ℓ κ} {S A B : Type ℓ} (Q : Result B × S → Type κ) where
  -- A postcondition of two methods in a row, by cases on the outcome of the first.
  pub >>=-rule :
      (m : Exec S A) (f : A → Exec S B) (s : S)
      → ((e : Error) (s' : S) → m s ≡ (err e, s') → Q (err e, s'))
      → ((a : A) (s' : S) → m s ≡ (ok a, s') → Q (f a s'))
      → Q ((m >>= f) s)
  >>=-rule m f s failed went_on = go (m s) refl
    where
      go : (r : Result A × S) → m s ≡ r → Q (continue r.0 f r.1)
      go (err e, s') p = failed e s' p
      go (ok a, s') p = went_on a s' p

  pub lift-rule :
      (r : Result A) (f : A → Exec S B) (s : S)
      → ((e : Error) → r ≡ err e → Q (err e, s))
      → ((a : A) → r ≡ ok a → Q (f a s))
      → Q ((lift r >>= f) s)
  lift-rule (err e) f s failed went_on = failed e refl
  lift-rule (ok a) f s failed went_on = went_on a refl

module _ {ℓ} {S A B : Type ℓ} where
  -- Two methods that go on in the same way from where the first has come.
  pub >>=-agree :
      (m : Exec S A) (f g : A → Exec S B) (s : S)
      → ((a : A) (t : S) → m s ≡ (ok a, t) → f a t ≡ g a t)
      → (m >>= f) s ≡ (m >>= g) s
  >>=-agree m f g s same = go (m s) refl
    where
      go : (r : Result A × S) → m s ≡ r → continue r.0 f r.1 ≡ continue r.0 g r.1
      go (ok a, t) p = same a t p
      go (err e, t) p = refl
