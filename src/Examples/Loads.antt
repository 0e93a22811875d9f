-- ===== src/Examples/Loads.antt =====
-- The theorems on configurations and resolvers at concrete inputs.
use deep_protocol.Base.{
  ◌≡◌, refl, true, false, List, [], ◌∷◌, ◌++◌, Bytes, codes, equal, none, some, failure, ok, err,
  if◌then◌else◌,
}
use deep_protocol.Base.Int.{pos}
use deep_protocol.Uri.{
  valid_label, is_lower_alnum, validate_authority, split_dots, validate_ascii, is_hex, has_byte,
  before, from,
}
use deep_protocol.Adapters.{
  Endpoint, Registry, set_proxy, validate_proxy_address, register, find_network, validate_endpoint,
  valid_tcp_address, split_host_port, split_last_colon, valid_port, decimal, resolve_static,
}
use deep_protocol.Adapters.Config.{
  RegistryFile, System, ExecAdapter, limited_write, copy_output, run_command, resolve_exec,
  check_endpoints, static_adapter, adapter_of, register_all, registry_from_config,
  load_registry_config, load_registry,
}
use deep_protocol.Adapters.Loading.{IsLoaded, load_registry-IsLoaded}
use deep_protocol.Adapters.Executing.{IsAnswered, resolve_exec-IsAnswered}
use deep_protocol.Examples.Identities.{pin}

abbrev node : Endpoint
node = record { address = codes "127.0.0.1:4433"; pin_sha256 = pin; transport = [] }

abbrev entries : List (Bytes × Endpoint)
entries = (codes "a.b", node) ∷ []

abbrev config : RegistryFile
config = record {
  version = pos 2;
  networks =
      (codes "b", record { adapter = codes "static"; endpoints = some entries; command = none })
      ∷ [];
  proxy = some (codes "127.0.0.1:9050");
  client_identity = none;
}

-- One configuration, and a program that writes its answer in two parts.
abbrev system : System
system = record {
  decode_config = λ text. ok config;
  decode_endpoint =
      λ text. if equal text (codes "node") then ok node else err (failure "no endpoint");
  marshal_request = λ authority. ok authority;
  run_program = λ directory timeout name arguments input. record {
    parts = codes "no" ∷ codes "de" ∷ [];
    failed = none;
    canceled = none;
  };
  is_abs = λ name. false;
  join = λ directory name. directory ++ name;
  is_blank = λ text. false;
  has_hidden = λ text. false;
  is_loopback = λ host. true;
  proxy_adapter = λ address authority. err (failure "no proxy");
}

abbrev registry : Registry
registry = record {
  networks = (codes "b", resolve_static entries none) ∷ [];
  proxy = some (system.proxy_adapter (codes "127.0.0.1:9050"));
}

loaded : load_registry system (ok (codes "/etc")) (codes "{}") ≡ ok registry
unfolding load_registry load_registry_config registry_from_config register_all adapter_of
    static_adapter check_endpoints validate_endpoint valid_tcp_address split_host_port
    split_last_colon valid_port decimal validate_ascii is_hex has_byte before from register
    find_network validate_authority valid_label is_lower_alnum split_dots equal set_proxy
    validate_proxy_address
loaded = refl

load_registry-IsLoaded_example : IsLoaded system (ok (codes "/etc")) (codes "{}") registry
load_registry-IsLoaded_example =
    load_registry-IsLoaded system (ok (codes "/etc")) (codes "{}") loaded

abbrev resolver : ExecAdapter
resolver = record { command = codes "bin/resolver" ∷ []; timeout = pos 0; work_dir = codes "/etc" }

answered : resolve_exec system resolver (codes "a.b") ≡ ok node
unfolding resolve_exec copy_output limited_write validate_endpoint valid_tcp_address split_host_port
    split_last_colon valid_port decimal validate_ascii is_hex has_byte before from
    validate_authority valid_label is_lower_alnum split_dots equal
answered = refl

resolve_exec-IsAnswered_example :
    (request : Bytes) × (system.marshal_request (codes "a.b") ≡ ok request)
    × ((run_command system resolver (request ++ 10 ∷ [])).failed ≡ none)
    × IsAnswered system (run_command system resolver (request ++ 10 ∷ [])).parts node
resolve_exec-IsAnswered_example = resolve_exec-IsAnswered system resolver (codes "a.b") answered
