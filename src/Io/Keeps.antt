-- ===== src/Io/Keeps.antt =====
-- A relation between the states before and behind a method, whatever the method returns.
use deep_protocol.Base.{Result, ok, err, Error, ◌≡◌, subst}
use deep_protocol.Io.{Exec, ◌>>=◌, lift, continue, >>=-rule, lift-rule}

-- A relation that holds over no step and over one after another.
pub record Preorder {ℓ κ} {S : Type ℓ} (R : S → S → Type κ) : Type (ℓ ⊔ κ) where
  pub same : (s : S) → R s s
  pub both : (s t u : S) → R s t → R t u → R s u

module _ {ℓ κ} {S : Type ℓ} {R : S → S → Type κ} (p : Preorder R) where
  abbrev pub Keeps : {A : Type ℓ} → Exec S A → Type (ℓ ⊔ κ)
  Keeps m = (s : S) → R s (m s).1

  pub lift-Keeps : {A : Type ℓ} (r : Result A) → Keeps (lift r)
  lift-Keeps r s = p.same s

  pub >>=-Keeps :
      {A B : Type ℓ} (m : Exec S A) (f : A → Exec S B)
      → Keeps m
      → ((a : A) → Keeps (f a))
      → Keeps (m >>= f)
  >>=-Keeps {A = A} m f k ks s = go (m s).0 (m s).1 (k s)
    where
      go : (r : Result A) (t : S) → R s t → R s (continue r f t).1
      go (ok a) t h = p.both s t _ h (ks a t)
      go (err e) t h = h

  -- A check first, or a method that is known already.
  pub lift->>=-Keeps :
      {A B : Type ℓ} (r : Result A) (f : A → Exec S B)
      → ((a : A) → Keeps (f a))
      → Keeps (lift r >>= f)
  lift->>=-Keeps r f ks = >>=-Keeps (lift r) f (lift-Keeps r) ks

  -- A postcondition over the first state that holds when a method fails, and that a method which
  -- keeps the relation leaves to the next one.
  pub record Outward {υ} {B : Type ℓ} (Q : S → Result B × S → Type υ) : Type (ℓ ⊔ κ ⊔ υ) where
    pub fails : (s t : S) (e : Error) → R s t → Q s (err e, t)
    pub back : (s t : S) (r : Result B × S) → R s t → Q t r → Q s r

  module _ {υ} {B : Type ℓ} {Q : S → Result B × S → Type υ} (q : Outward Q) where
    pub keep-then :
        {A : Type ℓ} (m : Exec S A) (f : A → Exec S B) (s : S)
        → Keeps m
        → ((a : A) (t : S) → R s t → m s ≡ (ok a, t) → Q t (f a t))
        → Q s ((m >>= f) s)
    keep-then m f s k rest =
        >>=-rule (Q s) m f s (λ e t h. q.fails s t e (subst (λ r. R s r.1) h (k s)))
          λ a t h. let after = subst (λ r. R s r.1) h (k s) in q.back s t _ after (rest a t after h)

    pub check-then :
        {A : Type ℓ} (r : Result A) (f : A → Exec S B) (s : S)
        → ((a : A) → r ≡ ok a → Q s (f a s))
        → Q s ((lift r >>= f) s)
    check-then r f s rest = lift-rule (Q s) r f s (λ e h. q.fails s s e (p.same s)) rest
