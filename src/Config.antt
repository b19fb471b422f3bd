-- ===== src/Config.antt =====
-- core/config/config.go: the configuration and its defaults. A provider's section is of a type
-- `Node`, which the YAML library gives.
pub mod Paths
pub mod Validate
pub mod Load
pub mod Keys
pub mod Order
pub mod Bounds
pub mod Examples
use codespace_ssh_gateway.Shared.{
  ℕ, ◌*◌, String, Bool, true, false, not, Option, none, some, List, [], ◌∷◌, map, if◌then◌else◌,
}
use codespace_ssh_gateway.Shared.Map.{Map, get}
use codespace_ssh_gateway.Shared.Integers.{ℤ, pos}
use codespace_ssh_gateway.Secret.{Value}

pub record SshConfig : Type 0 where
  pub listen : String
  pub host_key : String
  pub authorized_keys : String
  pub authorized_keys_inline : List String
  pub password_auth : Bool
  pub password : Value
  pub allowed_users : List String
  pub max_sessions : ℤ
  pub max_sessions_per_env : ℤ
  pub handshake_timeout : ℤ
  pub banner : String
  pub shutdown_grace : ℤ
  pub install_alias : Option Bool

pub record LifecycleConfig : Type 0 where
  pub auto_create : Bool
  pub start_timeout : ℤ
  pub create_timeout : ℤ
  pub connect_timeout : ℤ
  pub status_poll_interval : ℤ
  pub connect_retries : ℤ
  pub stop_on_last_disconnect : Bool

pub record LogConfig : Type 0 where
  pub level : String
  pub format : String
  pub file : String

pub record ControlConfig : Type 0 where
  pub enabled : Bool
  pub socket : String

pub record Config (Node : Type 0) : Type 0 where
  pub provider : String
  pub state_dir : String
  pub ssh : SshConfig
  pub lifecycle : LifecycleConfig
  pub log : LogConfig
  pub control : ControlConfig
  pub path : String
  pub sections : Map Node
  pub warnings : List String

-- time.Second and time.Minute, and time.Millisecond
abbrev pub seconds : ℕ → ℤ
seconds n = pos (n * 1000000000)

abbrev pub minutes : ℕ → ℤ
minutes n = seconds (n * 60)

-- The parts of Defaults.
unfoldable pub default_ssh : SshConfig
default_ssh = record {
  listen = "127.0.0.1:2222";
  host_key = "";
  authorized_keys = "";
  authorized_keys_inline = [];
  password_auth = false;
  password = record { v = "" };
  allowed_users = [];
  max_sessions = pos 0;
  max_sessions_per_env = pos 0;
  handshake_timeout = seconds 30;
  banner = "";
  shutdown_grace = seconds 5;
  install_alias = none;
}

unfoldable pub default_lifecycle : LifecycleConfig
default_lifecycle = record {
  auto_create = true;
  start_timeout = minutes 5;
  create_timeout = minutes 20;
  connect_timeout = minutes 2;
  status_poll_interval = seconds 2;
  connect_retries = pos 10;
  stop_on_last_disconnect = false;
}

abbrev pub or_true : Option Bool → Bool
or_true none = true
or_true (some b) = b

module _ {Node : Type 0} where
  -- Defaults, with DefaultStateDir
  unfoldable pub defaults : String → Config Node
  defaults state_dir = record {
    provider = "github";
    state_dir = state_dir;
    ssh = default_ssh;
    lifecycle = default_lifecycle;
    log = record { level = "info"; format = "text"; file = "" };
    control = record { enabled = true; socket = "" };
    path = "";
    sections = [];
    warnings = [];
  }

  -- AliasEnabled
  unfoldable pub alias_enabled : Config Node → Bool
  alias_enabled c = or_true c.ssh.install_alias

  -- SectionKeys
  unfoldable pub section_keys : Config Node → List String
  section_keys c = map (λ (e : String × Node). e.0) c.sections

  abbrev pub present : (Node → Bool) → Option Node → Option Node
  present is_zero none = none
  present is_zero (some n) = if is_zero n then none else some n

  -- ProviderSection, with the library's IsZero
  unfoldable pub provider_section : (Node → Bool) → String → Config Node → Option Node
  provider_section is_zero key c = present is_zero (get c.sections key)
