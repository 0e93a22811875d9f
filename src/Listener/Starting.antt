-- ===== src/Listener/Starting.antt =====
-- With what `Serve` starts.
use deep_protocol.Base.{
  ℕ, ◌≡◌, not, ◌||◌, List, [], ◌∷◌, Option, none, some, ok, chain-elim, checked, subst,
}
use deep_protocol.Uri.{validate_authority}
use deep_protocol.Limits.{ServerLimits, configured}
use deep_protocol.Limits.Config.{InBounds, configured-InBounds}
use deep_protocol.Security.{
  Crypto, Identity, Certificate, server_auth, identity_leaf, validate_identity,
  validate_local_identity, validate_server_identity,
}
use deep_protocol.Security.Identities.{IsIdentity, Named, validate_identity-IsIdentity}
use deep_protocol.Listener.{Setup, certificates_of, is_none, one_identity, listen}

-- A server with one valid identity of its authority, and with limits within the bounds.
pub record IsListening (crypto : Crypto) (now : ℕ) (s : Setup) (limits : ServerLimits)
    : Type 0 where
  pub authority_valid : validate_authority s.authority ≡ ok tt
  pub identity : Identity
  pub only_identity : s.certificates ≡ some (identity ∷ [])
  pub leaf : Certificate
  pub parsed : identity_leaf crypto identity ≡ ok leaf
  pub valid : IsIdentity now leaf server_auth
  pub named : Named s.authority leaf
  pub limits_configured : configured s.limits ≡ ok limits
  pub limits_bounded : InBounds limits

one_identity_lem :
    (o : Option (List Identity)) {c : Identity}
    → one_identity (certificates_of o) ≡ ok c
    → o ≡ some (c ∷ [])
one_identity_lem none h = cc
one_identity_lem (some []) h = cc
one_identity_lem (some (c ∷ [])) h = cc
one_identity_lem (some (c ∷ d ∷ cs)) h = cc

-- When Serve passes its checks, its authority is valid, it has one certificate, a valid server
-- identity of that authority, and it goes on with configured limits that are within the bounds.
pub listen-IsListening :
    (crypto : Crypto) (now : ℕ) (s : Setup) {limits : ServerLimits}
    → listen crypto now s ≡ ok limits
    → IsListening crypto now s limits
unfolding listen validate_server_identity validate_local_identity
listen-IsListening crypto now s {limits} h =
    chain-elim (validate_authority s.authority) _ h λ _ a h₁.
      let (_, h₂) = checked (is_none s.certificates || not s.has_handler) _ _ h₁ in
      chain-elim (configured s.limits) _ h₂ λ l c h₃.
        chain-elim (one_identity (certificates_of s.certificates)) _ h₃ λ cert o h₄.
          chain-elim (validate_server_identity crypto now cert s.authority) _ h₄ λ _ i h₅.
            chain-elim (validate_authority s.authority) _ i λ _ _ i₁.
              chain-elim (identity_leaf crypto cert) _ i₁ λ leaf p i₂.
                chain-elim (validate_identity now leaf s.authority server_auth) _ i₂ λ _ v _.
                  let (valid, named) =
                    (validate_identity-IsIdentity now leaf s.authority server_auth).0 v in
                  subst (IsListening crypto now s) (ok-injective h₅) (record {
                    authority_valid = a;
                    identity = cert;
                    only_identity = one_identity_lem s.certificates o;
                    leaf = leaf;
                    parsed = p;
                    valid = valid;
                    named = named;
                    limits_configured = c;
                    limits_bounded = configured-InBounds s.limits c;
                  })
  where
    ok-injective : {a b : ServerLimits} → ok a ≡ ok b → a ≡ b
    ok-injective e = cc
