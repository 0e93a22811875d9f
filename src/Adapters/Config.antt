-- ===== src/Adapters/Config.antt =====
-- adapters.go: `loadRegistryConfig` behind the reading of its file, `registryFromConfig`, and
-- `ExecAdapter` with its bounded output. Running a program, the decoding of JSON into a
-- configuration, and Unicode's classes are parameters. A Go map is the list of its entries in the
-- order in which the loop over it meets them.
use deep_protocol.Base.{
  ℕ, ◌-◌, ◌*◌, Bool, true, false, not, ◌&&◌, ◌||◌, List, [], ◌∷◌, ◌++◌, Bytes, length, drop, codes,
  equal, leb, ltb, if◌then◌else◌, Option, none, some, Error, failure, Result, ok, err, reject_if,
  is_ok, ◌>>=◌, ◌>>◌,
}
use deep_protocol.Base.Int.{ℤ, pos, eq_ℤ, is_negative}
use deep_protocol.Limits.{or_default, second}
use deep_protocol.Uri.{validate_authority, has_byte}
use deep_protocol.Adapters.{
  Endpoint, Adapter, Registry, new_registry, register, set_proxy, resolve_static, validate_endpoint,
  validate_proxy_address,
}

-- `networkFile`
pub record NetworkFile : Type 0 where
  pub adapter : Bytes
  pub endpoints : Option (List (Bytes × Endpoint))
  pub command : Option (List Bytes)

-- `clientIdentityFile`
pub record IdentityFile : Type 0 where
  pub certificate : Bytes
  pub private_key : Bytes

-- `registryFile`
pub record RegistryFile : Type 0 where
  pub version : ℤ
  pub networks : List (Bytes × NetworkFile)
  pub proxy : Option Bytes
  pub client_identity : Option IdentityFile

-- `ExecAdapter`
pub record ExecAdapter : Type 0 where
  pub command : List Bytes
  pub timeout : ℤ
  pub work_dir : Bytes

-- What a program that was run has left: the parts that it wrote to its standard output, the error
-- of `command.Run`, and what `ctx.Err()` says then.
pub record Finished : Type 0 where
  pub parts : List Bytes
  pub failed : Option Error
  pub canceled : Option Error

-- The other code: `DecodeConfigJSON` for the two types, `json.Marshal` of a resolver's request, the
-- programs by directory, timeout, name, arguments and input, `filepath.IsAbs` and `filepath.Join`,
-- `strings.TrimSpace(s) == ""`, and whether a text has control or format characters.
pub record System : Type 0 where
  pub decode_config : Bytes → Result RegistryFile
  pub decode_endpoint : Bytes → Result Endpoint
  pub marshal_request : Bytes → Result Bytes
  pub run_program : Bytes → ℤ → Bytes → List Bytes → Bytes → Finished
  pub is_abs : Bytes → Bool
  pub join : Bytes → Bytes → Bytes
  pub is_blank : Bytes → Bool
  pub has_hidden : Bytes → Bool
  pub is_loopback : Bytes → Bool
  pub proxy_adapter : Bytes → Adapter

-- `strings.HasSuffix`
abbrev pub has_suffix : Bytes → Bytes → Bool
has_suffix suffix s =
    leb (length suffix) (length s) && equal (drop (length s - length suffix) s) suffix

abbrev pub max_adapter_output : ℕ
max_adapter_output = 64 * 1024

-- `limitedBuffer`
pub record LimitedBuffer : Type 0 where
  pub buffer : Bytes
  pub exceeded : Bool

-- `limitedBuffer.Write`; an error is that the limit is exceeded now.
unfoldable pub limited_write : ℕ → Bytes → LimitedBuffer → LimitedBuffer
limited_write limit part b =
    if ltb (limit - length b.buffer) (length part)
    then record b { exceeded = true }
    else record b { buffer = b.buffer ++ part }

-- The calls of `Write` that a program's output makes.
unfoldable pub copy_output : ℕ → List Bytes → LimitedBuffer → LimitedBuffer
copy_output limit [] b = b
copy_output limit (part ∷ parts) b = copy_output limit parts (limited_write limit part b)

abbrev pub or_empty : Option (List Bytes) → List Bytes
or_empty none = []
or_empty (some xs) = xs

abbrev pub is_given {ℓ} : {A : Type ℓ} → Option A → Bool
is_given none = false
is_given (some a) = true

abbrev pub exceeds_output : Error
exceeds_output = failure "exec adapter output exceeds 65536 bytes"

abbrev pub run_error : Finished → LimitedBuffer → Result (Unit {0})
run_error f out = elim f.failed [
  | none ↦ reject_if out.exceeded exceeds_output
  | some e ↦ elim f.canceled [
    | some c ↦ err c
    | none ↦ if out.exceeded then err exceeds_output else err (failure "exec adapter failed")
  ]
]

-- The loop over the endpoints of a static network.
unfoldable pub check_endpoints : Bytes → List (Bytes × Endpoint) → Result (Unit {0})
check_endpoints network [] = ok tt
check_endpoints network ((authority, e) ∷ m) = do
  reject_if
      (not (is_ok (validate_authority authority)) || not (has_suffix (b'.' ∷ network) authority))
      (failure "endpoint does not belong to network")
  validate_endpoint e
  check_endpoints network m

module _ (system : System) where
  abbrev pub blank_command : List Bytes → Bool
  blank_command [] = true
  blank_command (name ∷ arguments) = system.is_blank name

  -- The name of a program: a relative one with a separator stands in the directory.
  abbrev pub command_name : Bytes → Bytes → Bytes
  command_name [] name = name
  command_name (c ∷ cs) name =
      if not (system.is_abs name) && (has_byte name b'/' || has_byte name b'\\')
      then system.join (c ∷ cs) name
      else name

  abbrev pub adapter_timeout : ExecAdapter → ℤ
  adapter_timeout a = or_default a.timeout (pos (10 * second))

  abbrev pub run_in : Bytes → ℤ → List Bytes → Bytes → Finished
  run_in work_dir timeout [] input = system.run_program work_dir timeout [] [] input
  run_in work_dir timeout (name ∷ arguments) input =
      system.run_program work_dir timeout (command_name work_dir name) arguments input

  abbrev pub run_command : ExecAdapter → Bytes → Finished
  run_command a input = run_in a.work_dir (adapter_timeout a) a.command input

  -- `ExecAdapter.Resolve`
  unfoldable pub resolve_exec : ExecAdapter → Bytes → Result Endpoint
  resolve_exec a authority = do
    validate_authority authority
    reject_if (blank_command a.command) (failure "exec adapter requires a command")
    reject_if (is_negative (adapter_timeout a)) (failure "exec adapter timeout must be positive")
    request ← system.marshal_request authority
    let f = run_command a (request ++ 10 ∷ [])
    let out = copy_output max_adapter_output f.parts (record { buffer = []; exceeded = false })
    run_error f out
    e ← system.decode_endpoint out.buffer
    validate_endpoint e
    ok e

  -- A static network, whose endpoints are `m`.
  unfoldable pub static_adapter : Bytes → Bool → Option (List (Bytes × Endpoint)) → Result Adapter
  static_adapter network has_command none =
      err (failure "static network requires endpoints and forbids command")
  static_adapter network has_command (some m) = do
    reject_if has_command (failure "static network requires endpoints and forbids command")
    check_endpoints network m
    ok (resolve_static m none)

  -- The adapter of a network in the loop of `registryFromConfig`, in a directory.
  unfoldable pub adapter_of : Bytes → Bytes → NetworkFile → Result Adapter
  adapter_of directory network file =
      if equal file.adapter (codes "static")
      then static_adapter network (is_given file.command) file.endpoints
      else if equal file.adapter (codes "exec")
      then (if blank_command (or_empty file.command) || is_given file.endpoints
          then err (failure "exec network requires command and forbids endpoints")
          else ok (
              resolve_exec (record {
                command = or_empty file.command;
                timeout = pos 0;
                work_dir = directory;
              })))
      else err (failure "unsupported adapter")

  unfoldable pub register_all : Bytes → List (Bytes × NetworkFile) → Registry → Result Registry
  register_all directory [] r = ok r
  register_all directory ((network, file) ∷ files) r = do
    a ← adapter_of directory network file
    r' ← register network (some a) r
    register_all directory files r'

  abbrev pub with_proxy : Option Bytes → Registry → Result Registry
  with_proxy none r = ok r
  with_proxy (some address) r = set_proxy system.is_loopback system.proxy_adapter address r

  unfoldable pub registry_from_config : RegistryFile → Bytes → Result Registry
  registry_from_config config directory = do
    r ← register_all directory config.networks new_registry
    with_proxy config.proxy r

  unfoldable pub valid_identity_path : Bytes → Bool
  valid_identity_path value = not (system.is_blank value) && not (system.has_hidden value)

  abbrev pub check_proxy : Option Bytes → Result (Unit {0})
  check_proxy none = ok tt
  check_proxy (some address) = validate_proxy_address system.is_loopback address

  abbrev pub check_identity_files : Option IdentityFile → Result (Unit {0})
  check_identity_files none = ok tt
  check_identity_files (some i) =
      reject_if (not (valid_identity_path i.certificate) || not (valid_identity_path i.private_key))
        (failure "client_identity requires certificate and private_key paths")

  -- `loadRegistryConfig` of a file with this text; `directory` is the answer to where it stands, of
  -- `filepath.Abs`.
  unfoldable pub load_registry_config : Result Bytes → Bytes → Result (RegistryFile × Bytes)
  load_registry_config directory text = do
    reject_if (ltb (1024 * 1024) (length text)) (failure "adapter configuration exceeds 1 MiB")
    config ← system.decode_config text
    reject_if (not (eq_ℤ config.version (pos 2)))
        (failure "adapter configuration version must be 2")
    check_proxy config.proxy
    check_identity_files config.client_identity
    place ← directory
    ok (config, place)

  -- `LoadRegistry`
  unfoldable pub load_registry : Result Bytes → Bytes → Result Registry
  load_registry directory text = do
    (config, place) ← load_registry_config directory text
    registry_from_config config place
