-- ===== src/Gateway/Wiring.antt =====
-- core/gateway/gateway.go: LoopbackListen, and what New hands to the lifecycle manager, the registry
-- and the SSH server. net.ParseIP with IsLoopback is a parameter.
use codespace_ssh_gateway.Shared.{
  String, Char, code, Bool, true, false, ◌&&◌, ◌||◌, ◌==◌, string_eq, nat_eq, if◌then◌else◌,
}
use codespace_ssh_gateway.Shared.Integers.{to_nat}
use codespace_ssh_gateway.Providers.Errors.{Result, ok, err}
use codespace_ssh_gateway.Lifecycle.Defaults.{Settings}
use codespace_ssh_gateway.Github.Client.{lower}
use codespace_ssh_gateway.Session.Manager.{Manager, new_manager}
use codespace_ssh_gateway.Config.{Config}
use codespace_ssh_gateway.Config.Paths.{Surroundings, authorized_keys_path}
use codespace_ssh_gateway.Config.Validate.{split_host_port}
use codespace_ssh_gateway.Ssh.Auth.{AuthConfig}

-- strings.Trim(host, "[]")
abbrev pub bracket : Char → Bool
bracket c = code c == b'[' || code c == b']'

unfoldable pub trim_left_brackets : String → String
trim_left_brackets String.[] = ""
trim_left_brackets (String.◌∷◌ c s) =
    let rest = trim_left_brackets s in if bracket c then rest else String.◌∷◌ c s

abbrev pub keep_if_rest : Char → String → String
keep_if_rest c String.[] = if bracket c then "" else String.◌∷◌ c ""
keep_if_rest c (String.◌∷◌ d s) = String.◌∷◌ c (String.◌∷◌ d s)

unfoldable pub trim_right_brackets : String → String
trim_right_brackets String.[] = ""
trim_right_brackets (String.◌∷◌ c s) = keep_if_rest c (trim_right_brackets s)

unfoldable pub trim_brackets : String → String
trim_brackets s = trim_right_brackets (trim_left_brackets s)

-- strings.ToLower(s) == t, for `t` in lower case
unfoldable pub lowers_to : String → String → Bool
lowers_to String.[] String.[] = true
lowers_to String.[] (String.◌∷◌ d t) = false
lowers_to (String.◌∷◌ c s) String.[] = false
lowers_to (String.◌∷◌ c s) (String.◌∷◌ d t) = lower (code c) == code d && lowers_to s t

module _ (loopback_ip : String → Bool) where
  unfoldable pub loopback_host : String → Bool
  loopback_host host =
      if lowers_to host "localhost"
      then true
      else if host == ""
      then false
      else loopback_ip (trim_brackets host)

  abbrev pub of_host : Result (String × String) → Bool
  of_host (ok (host, port)) = loopback_host host
  of_host (err e) = false

  -- LoopbackListen
  unfoldable pub loopback_listen : String → Bool
  loopback_listen addr = of_host (split_host_port addr)

  module _ {Node : Type 0} where
    -- The AuthConfig of New.
    unfoldable pub auth_config : Surroundings → Config Node → AuthConfig
    auth_config s cfg = record {
      authorized_keys_file = authorized_keys_path s cfg;
      authorized_keys_inline = cfg.ssh.authorized_keys_inline;
      password_auth = cfg.ssh.password_auth;
      password = cfg.ssh.password;
      allowed_users = cfg.ssh.allowed_users;
      allow_anonymous = loopback_listen cfg.ssh.listen;
    }

module _ {Node : Type 0} where
  -- The Options of New.
  unfoldable pub lifecycle_settings : Config Node → Settings
  lifecycle_settings cfg = record {
    auto_create = cfg.lifecycle.auto_create;
    start_timeout = cfg.lifecycle.start_timeout;
    create_timeout = cfg.lifecycle.create_timeout;
    connect_timeout = cfg.lifecycle.connect_timeout;
    poll_interval = cfg.lifecycle.status_poll_interval;
    connect_retries = cfg.lifecycle.connect_retries;
    stop_on_last_disconnect = cfg.lifecycle.stop_on_last_disconnect;
  }

  -- The registry of New.
  unfoldable pub registry : Config Node → Manager
  registry cfg = new_manager (to_nat cfg.ssh.max_sessions) (to_nat cfg.ssh.max_sessions_per_env)
