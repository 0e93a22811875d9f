-- ===== src/Listener/Draining.antt =====
-- Open connections can come to their end, and leave nothing behind.
use deep_protocol.Base.{ℕ, ◌≡◌, refl, ap, List, [], ◌∷◌, Bytes, Option, none, some, arith}
use deep_protocol.Base.Int.{pos_part}
use deep_protocol.Limits.{ServerLimits}
use deep_protocol.Limits.Ledger.{active_of}
use deep_protocol.Listener
use deep_protocol.Listener.{Pool, opened, accept, place, Step, Reach}
use deep_protocol.Listener.Reachable.{
  IsServing, count, waiting, ends-IsServing, leaves-IsServing, place-IsServing, Reach-IsServing,
}

-- Any number of steps.
pub data Steps (capacity : ℕ) : Pool → Pool → Type 0 where
  done : {p : Pool} → Steps capacity p p
  next : {p q r : Pool} → Step capacity p q → Steps capacity q r → Steps capacity p r

-- No connection is open, waits or is counted.
pub record IsIdle (p : Pool) : Type 0 where
  pub nothing_pending : p.pending ≡ none
  pub nothing_running : p.running ≡ []
  pub nothing_leaving : p.leaving ≡ []
  pub nothing_counted : (key : Bytes) → active_of key p.limiter ≡ 0

module _ (limits : ServerLimits) where
  abbrev Drains : Pool → Type 0
  Drains p = (q : Pool) × Steps (pos_part limits.max_connections) p q × IsIdle q

  IsServing-IsIdle :
      (p : Pool)
      → IsServing limits p
      → p.pending ≡ none
      → p.running ≡ []
      → p.leaving ≡ []
      → IsIdle p
  IsServing-IsIdle p v n r l = record {
    nothing_pending = n;
    nothing_running = r;
    nothing_leaving = l;
    nothing_counted =
        λ key. omega (arith, v.counted key, ap (waiting key) n, ap (count key) r, ap (count key) l);
  }

  drain_leaving :
      (keys : List Bytes) (p : Pool)
      → IsServing limits p
      → p.leaving ≡ keys
      → p.running ≡ []
      → p.pending ≡ none
      → Drains p
  drain_leaving [] p v l r n = (p, done, IsServing-IsIdle p v n r l)
  drain_leaving (key ∷ keys) p v l r n =
      let (q, s, i) = drain_leaving keys _ (leaves-IsServing limits p v [] key keys l) refl r n in
      (q, next (Listener.leaves [] key keys l) s, i)

  drain_running :
      (keys : List Bytes) (p : Pool)
      → IsServing limits p
      → p.running ≡ keys
      → p.pending ≡ none
      → Drains p
  drain_running [] p v r n = drain_leaving p.leaving p v refl r n
  drain_running (key ∷ keys) p v r n =
      let (q, s, i) = drain_running keys _ (ends-IsServing limits p v [] key keys r) refl n in
      (q, next (Listener.ends [] key keys r) s, i)

  place_pending : (capacity : ℕ) (key : Bytes) (p : Pool) → (place capacity key p).pending ≡ none
  unfolding place
  place_pending capacity key p = ground arith

  drain_pending : (o : Option Bytes) (p : Pool) → IsServing limits p → p.pending ≡ o → Drains p
  drain_pending none p v n = drain_running p.running p v refl n
  drain_pending (some key) p v n =
      let (q, s, i) =
        drain_running _ (place (pos_part limits.max_connections) key p)
          (place-IsServing limits p v key n) refl (place_pending _ key p) in
      (q, next (Listener.places key n) s, i)

  -- From every state that Serve and its connections' goroutines reach, some steps lead to one
  -- where no connection is open and no peer is charged for any.
  pub Reach-Drains : {p : Pool} → Reach limits p → Drains p
  Reach-Drains {p} r = drain_pending p.pending p (Reach-IsServing limits r) refl
