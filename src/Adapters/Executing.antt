-- ===== src/Adapters/Executing.antt =====
-- What a program that resolves may answer.
use deep_protocol.Base.{
  ℕ, ◌-◌, ◌≡◌, ◌≤◌, refl, sym, ap, ◌∙◌, subst, Bool, true, false, List, [], ◌∷◌, ◌++◌, append-nil,
  append_assoc, Bytes, length, length-append, ltb, none, ok, arith, chain-elim, checked,
  if◌then◌else◌,
}
use deep_protocol.Base.Int.{is_negative}
use deep_protocol.Uri.{validate_authority}
use deep_protocol.Adapters.{Endpoint, validate_endpoint}
use deep_protocol.Adapters.Config.{
  Finished, System, ExecAdapter, adapter_timeout, LimitedBuffer, limited_write, copy_output,
  max_adapter_output, run_error, blank_command, run_command, resolve_exec,
}

-- All that was written.
abbrev pub joined : List Bytes → Bytes
joined [] = []
joined (part ∷ parts) = part ++ joined parts

limited_write_lem :
    (limit : ℕ) (part : Bytes) (b : LimitedBuffer)
    → length b.buffer ≤ limit
    → (limited_write limit part b).exceeded ≡ false
    → ((limited_write limit part b).buffer ≡ b.buffer ++ part) × (length (b.buffer ++ part) ≤ limit)
unfolding limited_write
limited_write_lem limit part b h e = go (ltb (limit - length b.buffer) (length part)) refl e
  where
    fitting :
        ltb (limit - length b.buffer) (length part) ≡ false → length (b.buffer ++ part) ≤ limit
    fitting f = ground (arith, length-append b.buffer part, h)

    go :
        (t : Bool)
        → ltb (limit - length b.buffer) (length part) ≡ t
        → (if t
            then record b { exceeded = true }
            else record b { buffer = b.buffer ++ part }).exceeded
          ≡ false
        → ((if t
              then record b { exceeded = true }
              else record b { buffer = b.buffer ++ part }).buffer
            ≡ b.buffer ++ part)
          × (length (b.buffer ++ part) ≤ limit)
    go true p e = cc
    go false p e = (refl, fitting p)

limited_write-exceeded :
    (limit : ℕ) (part : Bytes) (b : LimitedBuffer)
    → (limited_write limit part b).exceeded ≡ false
    → b.exceeded ≡ false
unfolding limited_write
limited_write-exceeded limit part b e = go (ltb (limit - length b.buffer) (length part)) e
  where
    go :
        (t : Bool)
        → (if t
            then record b { exceeded = true }
            else record b { buffer = b.buffer ++ part }).exceeded
          ≡ false
        → b.exceeded ≡ false
    go true e = cc
    go false e = e

copy_output-exceeded :
    (limit : ℕ) (parts : List Bytes) (b : LimitedBuffer)
    → (copy_output limit parts b).exceeded ≡ false
    → b.exceeded ≡ false
unfolding copy_output
copy_output-exceeded limit [] b e = e
copy_output-exceeded limit (part ∷ parts) b e =
    limited_write-exceeded limit part b
      (copy_output-exceeded limit parts (limited_write limit part b) e)

-- A buffer that has not been exceeded holds all that was written, within its limit.
copy_output_lem :
    (limit : ℕ) (parts : List Bytes) (b : LimitedBuffer)
    → length b.buffer ≤ limit
    → (copy_output limit parts b).exceeded ≡ false
    → ((copy_output limit parts b).buffer ≡ b.buffer ++ joined parts)
      × (length (b.buffer ++ joined parts) ≤ limit)
unfolding copy_output
copy_output_lem limit [] b h e =
    (sym (append-nil b.buffer), subst (λ bs. length bs ≤ limit) (sym (append-nil b.buffer)) h)
copy_output_lem limit (part ∷ parts) b h e =
    let (same, small) =
      limited_write_lem limit part b h
        (copy_output-exceeded limit parts (limited_write limit part b) e) in
    let (all, short) =
      copy_output_lem limit parts (limited_write limit part b)
        (subst (λ bs. length bs ≤ limit) (sym same) small) e in
    let whole = ap (λ bs. bs ++ joined parts) same ∙ append_assoc b.buffer part (joined parts) in
    (all ∙ whole, subst (λ bs. length bs ≤ limit) whole short)

module _ (system : System) where
  -- What a program has answered.
  pub record IsAnswered (parts : List Bytes) (e : Endpoint) : Type 0 where
    pub small : length (joined parts) ≤ max_adapter_output
    pub decoded : system.decode_endpoint (joined parts) ≡ ok e
    pub valid : validate_endpoint e ≡ ok tt

  run_error_lem :
      (f : Finished) (out : LimitedBuffer)
      → run_error f out ≡ ok tt
      → (f.failed ≡ none) × (out.exceeded ≡ false)
  run_error_lem f out h = ground (arith, h)

  answered :
      (f : Finished) (e : Endpoint)
      → run_error f
          (copy_output max_adapter_output f.parts (record { buffer = []; exceeded = false }))
        ≡ ok tt
      → system.decode_endpoint
          (copy_output max_adapter_output f.parts (record { buffer = []; exceeded = false })).buffer
        ≡ ok e
      → validate_endpoint e ≡ ok tt
      → (f.failed ≡ none) × IsAnswered f.parts e
  answered f e r d v =
      let (done, fits) =
        run_error_lem f
          (copy_output max_adapter_output f.parts (record { buffer = []; exceeded = false })) r in
      let (all, short) =
        copy_output_lem max_adapter_output f.parts (record { buffer = []; exceeded = false })
          (omega arith) fits in
      (done, record { small = short; decoded = ap system.decode_endpoint (sym all) ∙ d; valid = v })

  -- When ExecAdapter.Resolve returns an endpoint, the program has come to its end without an
  -- error, all that it has written is at most 65536 bytes, these bytes were decoded to the
  -- endpoint, and the endpoint is valid.
  pub resolve_exec-IsAnswered :
      (a : ExecAdapter) (authority : Bytes) {e : Endpoint}
      → resolve_exec system a authority ≡ ok e
      → (request : Bytes) × (system.marshal_request authority ≡ ok request)
        × ((run_command system a (request ++ 10 ∷ [])).failed ≡ none)
        × IsAnswered (run_command system a (request ++ 10 ∷ [])).parts e
  unfolding resolve_exec
  resolve_exec-IsAnswered a authority {e} h =
      chain-elim (validate_authority authority) _ h λ _ _ h₁.
        let (_, h₂) = checked (blank_command system a.command) _ _ h₁ in
        let (_, h₃) = checked (is_negative (adapter_timeout system a)) _ _ h₂ in
        chain-elim (system.marshal_request authority) _ h₃ λ request m h₄.
          let f = run_command system a (request ++ 10 ∷ []) in
          let out =
            copy_output max_adapter_output f.parts (record { buffer = []; exceeded = false }) in
          chain-elim (run_error f out) _ h₄ λ _ r h₅.
            chain-elim (system.decode_endpoint out.buffer) _ h₅ λ x d h₆.
              chain-elim (validate_endpoint x) _ h₆ λ _ v h₇.
                let (done, all) = answered f x r d v in
                (request, m, done, subst (IsAnswered f.parts) (ok-injective h₇) all)
    where
      ok-injective : {a b : Endpoint} → ok a ≡ ok b → a ≡ b
      ok-injective e = cc
