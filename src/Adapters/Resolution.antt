-- ===== src/Adapters/Resolution.antt =====
-- What the registry resolves.
use deep_protocol.Base.{
  ◌≡◌, refl, ap, sym, ◌∙◌, ◌⊎◌, inl, inr, Bytes, Option, none, some, ok, Error, chain-elim, subst,
  true, false, arith, equal, equal_iff,
}
use deep_protocol.Uri.{validate_authority, split_dots}
use deep_protocol.Uri.Authority.{IsAuthority, validate_authority_sound}
use deep_protocol.Uri.Labels.{HasLabels, IsAuthority-HasLabels}
use deep_protocol.Adapters.{
  Endpoint, Adapter, Registry, adapter_for, resolve, validate_endpoint, unless_canceled, installed,
  register, find_network, last_label,
}

-- The adapter in charge of an authority: the proxy's, whatever the network, or without a proxy the
-- one that is registered for the authority's network.
abbrev pub Chosen : Registry → Bytes → Adapter → Type 0
Chosen r authority a =
    (r.proxy ≡ some a)
    ⊎ ((r.proxy ≡ none)
        × (node : Bytes) × (network : Bytes) × HasLabels authority node network
        × (find_network network r.networks ≡ some a))

-- How the registry comes to an endpoint.
pub record Resolves (r : Registry) (authority : Bytes) (e : Endpoint) : Type 0 where
  pub adapter : Adapter
  pub chosen : Chosen r authority adapter
  pub answered : adapter authority ≡ ok e
  pub authority_valid : validate_authority authority ≡ ok tt
  pub endpoint_valid : validate_endpoint e ≡ ok tt

ok-injective : {a b : Endpoint} → ok a ≡ ok b → a ≡ b
ok-injective e = cc

installed_lem : (o : Option Adapter) {a : Adapter} → installed o ≡ ok a → o ≡ some a
installed_lem none h = cc
installed_lem (some a) h = cc

adapter_for-Chosen :
    (r : Registry) (authority : Bytes) (a : Adapter) {node network : Bytes}
    → IsAuthority authority node network
    → adapter_for r authority ≡ some a
    → Chosen r authority a
unfolding adapter_for
adapter_for-Chosen r authority a {node} {network} v h = go r.proxy refl h
  where
    go :
        (p : Option Adapter)
        → r.proxy ≡ p
        → elim p [
          | some b ↦ some b
          | none ↦ find_network (last_label (split_dots authority)) r.networks
        ]
          ≡ some a
        → Chosen r authority a
    go (some b) e k = inl (e ∙ k)
    go none e k = inr (
      e,
      node,
      network,
      IsAuthority-HasLabels v,
      ap (λ ps. find_network (last_label ps) r.networks) (sym v.parts) ∙ k,
    )

-- An endpoint that Registry.Resolve returns for an authority is valid, the authority is valid, and
-- the endpoint is the answer for that authority of the proxy's adapter if the registry has a
-- proxy, whatever networks it has, or else of the adapter that is registered for the authority's
-- second label.
pub resolve-Resolves :
    (r : Registry) (at_first at_last : Option Error) (authority : Bytes) {e : Endpoint}
    → resolve r at_first at_last authority ≡ ok e
    → Resolves r authority e
unfolding resolve
resolve-Resolves r at_first at_last authority {e} h =
    chain-elim (validate_authority authority) _ h λ _ v h₁.
      chain-elim (unless_canceled at_first) _ h₁ λ _ c h₂.
        chain-elim (installed (adapter_for r authority)) _ h₂ λ a i h₃.
          chain-elim (a authority) _ h₃ λ x p h₄.
            chain-elim (unless_canceled at_last) _ h₄ λ _ d h₅.
              chain-elim (validate_endpoint x) _ h₅ λ _ w h₆.
                subst (Resolves r authority) (ok-injective h₆) (record {
                  adapter = a;
                  chosen =
                      adapter_for-Chosen r authority a (validate_authority_sound authority v)
                        (installed_lem (adapter_for r authority) i);
                  answered = p;
                  authority_valid = v;
                  endpoint_valid = w;
                })

-- When Registry.Register succeeds, the network had no adapter, it now has this one, and every
-- other network has the adapter that it had.
pub register-find_network :
    (network other : Bytes) (a : Adapter) (r : Registry) {s : Registry}
    → register network (some a) r ≡ ok s
    → (find_network network r.networks ≡ none)
      × (find_network other s.networks
          ≡ elim (equal network other) [ true ↦ some a | false ↦ find_network other r.networks ])
unfolding register find_network
register-find_network network other a r h = ground (arith, equal_iff network other)
