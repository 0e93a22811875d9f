-- ===== src/Adapters/Loading.antt =====
-- What a loaded registry resolves.
use deep_protocol.Base.{
  ◌*◌, ◌≤◌, ◌≡◌, refl, sym, ap, ◌∙◌, subst, true, false, not, List, [], ◌∷◌, All, All-mono, Bytes,
  length, equal, equal_iff, ltb, Option, none, some, ok, chain-elim, checked, Bool-cases, inl, inr,
  ◌⊎◌, arith, Result,
}
use deep_protocol.Base.Int.{ℤ, pos, negsuc, eq_ℤ}
use deep_protocol.Uri.{valid_label}
use deep_protocol.Uri.Labels.{IsLabel, IsLabelByte, valid_label-IsLabel}
use deep_protocol.Adapters.{
  Adapter, Registry, new_registry, register, find_network, set_proxy, validate_proxy_address,
}
use deep_protocol.Adapters.Resolution.{register-find_network}
use deep_protocol.Adapters.Entries.{IsStatic, IsExec, adapter_of_sound}
use deep_protocol.Adapters.Address.{IsProxyAddress, validate_proxy_address-IsProxyAddress}
use deep_protocol.Adapters.Config.{
  NetworkFile, RegistryFile, IdentityFile, System, adapter_of, register_all, with_proxy,
  registry_from_config, load_registry_config, load_registry, check_proxy, check_identity_files,
  valid_identity_path,
}

ok-injective : {a b : Registry} → ok a ≡ ok b → a ≡ b
ok-injective e = cc

networks_of : {a b : Registry} → ok a ≡ ok b → b.networks ≡ a.networks
networks_of e = cc

proxy_of : {a b : Registry} → ok a ≡ ok b → b.proxy ≡ a.proxy
proxy_of e = cc

register_sound :
    (network : Bytes) (a : Adapter) (r : Registry) {s : Registry}
    → register network (some a) r ≡ ok s
    → (valid_label network ≡ true) × (s.proxy ≡ r.proxy)
unfolding register
register_sound network a r {s} h = ground (arith, h)

keeps_network :
    (network other : Bytes) (a c : Adapter) (r : Registry) {s : Registry}
    → find_network other r.networks ≡ some c
    → register network (some a) r ≡ ok s
    → find_network other s.networks ≡ some c
keeps_network network other a c r {s} h e =
    let (new, found) = register-find_network network other a r e in
    elim (Bool-cases (equal network other)) [
      | inl same ↦ absurd (
          none-ne-some (
            sym new
            ∙ subst (λ n. find_network n r.networks ≡ some c)
                (sym ((equal_iff network other).0 same)) h))
      | inr different ↦ found ∙ rw different h
    ]
  where
    none-ne-some : none ≡ some c → ⊥
    none-ne-some e = cc

module _ (system : System) (place : Bytes) where
  -- A network of the configuration: its name is a label, and the registry has the adapter that its
  -- entry describes.
  pub record Installed (r : Registry) (entry : Bytes × NetworkFile) : Type 0 where
    pub network_is : IsLabel IsLabelByte entry.0
    pub adapter : Adapter
    pub found : find_network entry.0 r.networks ≡ some adapter
    pub described : IsStatic entry.0 entry.1 adapter ⊎ IsExec system place entry.1 adapter

  register_all-keeps :
      (files : List (Bytes × NetworkFile)) (other : Bytes) (c : Adapter) (r : Registry)
      {s : Registry}
      → find_network other r.networks ≡ some c
      → register_all system place files r ≡ ok s
      → find_network other s.networks ≡ some c
  unfolding register_all
  register_all-keeps [] other c r h e =
      subst (λ t. find_network other t.networks ≡ some c) (ok-injective e) h
  register_all-keeps ((network, file) ∷ files) other c r h e =
      chain-elim (adapter_of system place network file) _ e λ a _ e₁.
        chain-elim (register network (some a) r) _ e₁
          λ r' p e₂. register_all-keeps files other c r' (keeps_network network other a c r h p) e₂

  register_all-proxy :
      (files : List (Bytes × NetworkFile)) (r : Registry) {s : Registry}
      → register_all system place files r ≡ ok s
      → s.proxy ≡ r.proxy
  unfolding register_all
  register_all-proxy [] r e = proxy_of e
  register_all-proxy ((network, file) ∷ files) r e =
      chain-elim (adapter_of system place network file) _ e λ a _ e₁.
        chain-elim (register network (some a) r) _ e₁
          λ r' p e₂. register_all-proxy files r' e₂ ∙ (register_sound network a r p).1

  register_all-Installed :
      (files : List (Bytes × NetworkFile)) (r : Registry) {s : Registry}
      → register_all system place files r ≡ ok s
      → All (Installed s) files
  unfolding register_all
  register_all-Installed [] r e = tt
  register_all-Installed ((network, file) ∷ files) r {s} e =
      chain-elim (adapter_of system place network file) _ e λ a p e₁.
        chain-elim (register network (some a) r) _ e₁ λ r' q e₂. (
          record {
            network_is = valid_label-IsLabel network (register_sound network a r q).0;
            adapter = a;
            found = register_all-keeps files network a r' (registered a r' q) e₂;
            described = adapter_of_sound system place network file a p;
          },
          register_all-Installed files r' e₂,
        )
    where
      registered :
          (a : Adapter) (r' : Registry)
          → register network (some a) r ≡ ok r'
          → find_network network r'.networks ≡ some a
      registered a r' q =
          (register-find_network network network a r q).1 ∙ rw ((equal_iff network network).1 refl)

module _ (system : System) where
  -- The registry's proxy, by the configuration's: none, or the one at a loopback address.
  abbrev pub IsProxied : Option Bytes → Registry → Type 0
  IsProxied none r = r.proxy ≡ none
  IsProxied (some address) r =
      IsProxyAddress system.is_loopback address × (r.proxy ≡ some (system.proxy_adapter address))

  -- A path that is neither blank nor has hidden characters.
  abbrev pub IsPath : Bytes → Type 0
  IsPath path = (system.is_blank path ≡ false) × (system.has_hidden path ≡ false)

  abbrev pub HasPaths : Option IdentityFile → Type 0
  HasPaths none = Unit
  HasPaths (some i) = IsPath i.certificate × IsPath i.private_key

  -- A registry of a configuration of the protocol's version.
  pub record IsLoaded (directory : Result Bytes) (text : Bytes) (r : Registry) : Type 0 where
    pub small : length text ≤ 1_048_576
    pub config : RegistryFile
    pub decoded : system.decode_config text ≡ ok config
    pub version_is : config.version ≡ pos 2
    pub identity_is : HasPaths config.client_identity
    pub place : Bytes
    pub placed : directory ≡ ok place
    pub networks_are : All (Installed system place r) config.networks
    pub proxied : IsProxied config.proxy r

  with_proxy_sound :
      (proxy : Option Bytes) (r : Registry) {s : Registry}
      → check_proxy system proxy ≡ ok tt
      → r.proxy ≡ none
      → with_proxy system proxy r ≡ ok s
      → (s.networks ≡ r.networks) × IsProxied proxy s
  unfolding set_proxy validate_proxy_address
  with_proxy_sound none r c n e = (networks_of e, proxy_of e ∙ n)
  with_proxy_sound (some []) r c n e = cc
  with_proxy_sound (some (b ∷ bs)) r c n e =
      chain-elim (validate_proxy_address system.is_loopback (b ∷ bs)) _ e λ _ _ e₁. (
        networks_of e₁,
        (validate_proxy_address-IsProxyAddress system.is_loopback (b ∷ bs) c, proxy_of e₁),
      )

  check_identity_files-HasPaths :
      (i : Option IdentityFile) → check_identity_files system i ≡ ok tt → HasPaths i
  unfolding valid_identity_path
  check_identity_files-HasPaths none h = tt
  check_identity_files-HasPaths (some i) h = ground (arith, h)

  version_two : (v : ℤ) → not (eq_ℤ v (pos 2)) ≡ false → v ≡ pos 2
  version_two (pos n) h = ap pos (ground (arith, h))
  version_two (negsuc n) h = absurd (ground (arith, h))

  -- What `registryFromConfig` makes of a configuration whose proxy has passed.
  registry_from_config_sound :
      (config : RegistryFile) (place : Bytes) {r : Registry}
      → check_proxy system config.proxy ≡ ok tt
      → registry_from_config system config place ≡ ok r
      → All (Installed system place r) config.networks × IsProxied config.proxy r
  unfolding registry_from_config
  registry_from_config_sound config place {r} c h =
      chain-elim (register_all system place config.networks new_registry) _ h λ r' g h₁.
        let (same, p) =
          with_proxy_sound config.proxy r' c
            (register_all-proxy system place config.networks new_registry g) h₁ in
        (
          All-mono
              (λ entry i. record {
                network_is = i.network_is;
                adapter = i.adapter;
                found = ap (find_network entry.0) same ∙ i.found;
                described = i.described;
              })
              config.networks (register_all-Installed system place config.networks new_registry g),
          p,
        )

  -- When LoadRegistry returns a registry, the text has at most 1 MiB and was decoded to a
  -- configuration of version 2; each network is a canonical label and has the adapter of its
  -- entry: of a static one, whose endpoints are all valid and each of a node of that network, with
  -- no command, or of a program with a name, with no endpoints, that runs in the configuration's
  -- directory; identity paths are neither blank nor have hidden characters; and the registry has
  -- no proxy, or the configuration's, which is at a loopback IP and a port from 1 to 65535.
  pub load_registry-IsLoaded :
      (directory : Result Bytes) (text : Bytes) {r : Registry}
      → load_registry system directory text ≡ ok r
      → IsLoaded directory text r
  unfolding load_registry load_registry_config
  load_registry-IsLoaded directory text {r} h =
      chain-elim (load_registry_config system directory text) _ h λ loaded l h'.
        let (short, h₁) = checked (ltb (1024 * 1024) (length text)) _ _ l in
        chain-elim (system.decode_config text) _ h₁ λ c d h₂.
          let (v, h₃) = checked (not (eq_ℤ c.version (pos 2))) _ _ h₂ in
          chain-elim (check_proxy system c.proxy) _ h₃ λ _ p h₄.
            chain-elim (check_identity_files system c.client_identity) _ h₄ λ _ i h₅.
              chain-elim directory _ h₅ λ place q h₆.
                let (networks, proxied) =
                  registry_from_config_sound c place p
                    (subst (λ x. registry_from_config system x.0 x.1 ≡ ok r) (sym (pair h₆)) h') in
                record {
                  small = ground (arith, short);
                  config = c;
                  decoded = d;
                  version_is = version_two c.version v;
                  identity_is = check_identity_files-HasPaths c.client_identity i;
                  place = place;
                  placed = q;
                  networks_are = networks;
                  proxied = proxied;
                }
    where
      pair : {a b : RegistryFile × Bytes} → ok a ≡ ok b → a ≡ b
      pair e = cc
