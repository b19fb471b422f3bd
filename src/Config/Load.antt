-- ===== src/Config/Load.antt =====
-- core/config/load.go: Load. The YAML library's decoders are parameters, each with the value that it
-- decodes into. The top-level keys come from a Go map, in any order.
use codespace_ssh_gateway.Shared.{
  String, ◌⁺◌, Bool, ◌||◌, [], ◌∷◌, ◌++◌, ◌==◌, string_eq, if◌then◌else◌,
}
use codespace_ssh_gateway.Shared.Map.{Map, put}
use codespace_ssh_gateway.Providers.Errors.{Failure, Sentinel, Result, ok, err}
use codespace_ssh_gateway.Ssh.Auth.{FileRead, contents, missing, unreadable}
use codespace_ssh_gateway.Config.{
  Config, SshConfig, LifecycleConfig, LogConfig, ControlConfig, defaults,
}
use codespace_ssh_gateway.Config.Paths.{
  Surroundings, expand_path, default_config_path, default_state_dir,
}
use codespace_ssh_gateway.Config.Validate.{validate}

-- The YAML library, and what os.Stat says of the modes of a file.
pub record Yaml (Node : Type 0) : Type 0 where
  pub unmarshal : String → Result (Map Node)
  pub text : Node → String → Result String
  pub ssh : Node → SshConfig → Result SshConfig
  pub lifecycle : Node → LifecycleConfig → Result LifecycleConfig
  pub log : Node → LogConfig → Result LogConfig
  pub control : Node → ControlConfig → Result ControlConfig

-- coreKeys
unfoldable pub core_key : String → Bool
core_key key =
    (key == "provider")
    || ((key == "state_dir")
        || ((key == "ssh") || ((key == "lifecycle") || ((key == "log") || (key == "control")))))

abbrev pub then_ok {ℓ κ} : {A : Type ℓ} {B : Type κ} → (A → B) → Result A → Result B
then_ok f (ok a) = ok (f a)
then_ok f (err e) = err e

module _ {Node : Type 0} (yaml : Yaml Node) where
  -- The body of the loop over the keys.
  unfoldable pub decode_core : String → Node → Config Node → Result (Config Node)
  decode_core key n c =
      if key == "provider"
      then then_ok (λ v. record c { provider = v }) (yaml.text n c.provider)
      else if key == "state_dir"
      then then_ok (λ v. record c { state_dir = v }) (yaml.text n c.state_dir)
      else if key == "ssh"
      then then_ok (λ v. record c { ssh = v }) (yaml.ssh n c.ssh)
      else if key == "lifecycle"
      then then_ok (λ v. record c { lifecycle = v }) (yaml.lifecycle n c.lifecycle)
      else if key == "log"
      then then_ok (λ v. record c { log = v }) (yaml.log n c.log)
      else if key == "control"
      then then_ok (λ v. record c { control = v }) (yaml.control n c.control)
      else ok c

  unfoldable pub decode_key : String → Node → Config Node → Result (Config Node)
  decode_key key n c =
      if core_key key
      then decode_core key n c
      else ok (record c { sections = put c.sections key n })

  abbrev pub placed : String → String → Result (Config Node) → Result (Config Node)
  placed path key (ok c) = ok c
  placed path key (err e) = err (Failure.wrap (path ⁺ (": " ⁺ (key ⁺ ": "))) "" e)

  abbrev pub and_then :
      Result (Config Node) → (Config Node → Result (Config Node)) → Result (Config Node)
  and_then (ok c) f = f c
  and_then (err e) f = err e

  unfoldable pub decode_keys : String → Map Node → Config Node → Result (Config Node)
  decode_keys path [] c = ok c
  decode_keys path ((key, n) ∷ top) c =
      and_then (placed path key (decode_key key n c)) (decode_keys path top)

  module _ (s : Surroundings) (perm_warning : String → String) where
    -- From the state directory on.
    unfoldable pub with_state_dir : Config Node → Config Node
    with_state_dir c =
        let d = expand_path s c.state_dir in
        record c { state_dir = if d == "" then default_state_dir s else d }

    unfoldable pub with_warning : String → Config Node → Config Node
    with_warning w c = if w == "" then c else record c { warnings = c.warnings ++ (w ∷ []) }

    abbrev pub located : String → Result (Config Node) → Result (Config Node)
    located path (ok c) = ok c
    located path (err e) = err (Failure.wrap (path ⁺ ": ") "" e)

    abbrev pub finished : String → Result (Config Node) → Result (Config Node)
    finished path (err e) = err e
    finished path (ok c) =
        located path (validate (with_warning (perm_warning path) (with_state_dir c)))

    abbrev pub parsed : String → Result (Map Node) → Result (Config Node)
    parsed path (err e) = err (Failure.wrap ("parse " ⁺ (path ⁺ ": ")) "" e)
    parsed path (ok top) =
        finished path
          (decode_keys path top (record (defaults (default_state_dir s)) { path = path }))

    unfoldable pub load_file : String → FileRead → Result (Config Node)
    load_file path missing = err (
        Failure.wrap "" (" at " ⁺ (path ⁺ " (run `gateway config init`)"))
          (Failure.sentinel Sentinel.no_config))
    load_file path (unreadable e) = err e
    load_file path (contents raw) = parsed path (yaml.unmarshal raw)

    -- Load, of the file that stands at each path
    unfoldable pub load : (String → FileRead) → String → Result (Config Node)
    load read_file path =
        let at = expand_path s (if path == "" then default_config_path s else path) in
        load_file at (read_file at)
