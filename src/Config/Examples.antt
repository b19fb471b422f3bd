-- ===== src/Config/Examples.antt =====
-- Runs of the configuration's model, and the properties at concrete inputs.
use codespace_ssh_gateway.Shared.{
  String, Bool, true, false, ◌||◌, none, some, [], ◌∷◌, ◌==◌, string_eq, ◌≡◌, refl, eq_iff,
  Bool-cases, inl, inr, subst,
}
use codespace_ssh_gateway.Shared.Map.{Map, get, put}
use codespace_ssh_gateway.Shared.Integers.{pos, negsuc}
use codespace_ssh_gateway.Providers.Errors.{Failure, Result, ok, err}
use codespace_ssh_gateway.Config.{Config, defaults, default_ssh, default_lifecycle}
use codespace_ssh_gateway.Config.Paths.{
  Surroundings, default_state_dir, authorized_keys_path, default_config_dir, dir, to_last_slash,
  expand_path, expand_trimmed, join, join_raw, clean, split_slash, resolve_from, join_slash,
  home_dir,
}
use codespace_ssh_gateway.Config.Validate.{
  validate, validate_address, validate_limits, validate_lifecycle, check_level, with_listen,
  with_handshake, with_durations, floored, split_host_port, holds_byte, cut_last, parse_log_level,
}
use codespace_ssh_gateway.Config.Load.{
  Yaml, decode_keys, decode_key, decode_core, core_key, load, load_file, with_state_dir,
  with_warning,
}
use codespace_ssh_gateway.Config.Bounds.{Valid, validate-Valid, filled}
use codespace_ssh_gateway.Config.Order.{SameConfig, decode_keys_order}
use codespace_ssh_gateway.Lifecycle.Defaults.{with_defaults}
use codespace_ssh_gateway.Gateway.Wiring.{
  lifecycle_settings, auth_config, lowers_to, trim_brackets, loopback_listen, loopback_host,
  trim_left_brackets, trim_right_brackets,
}
use codespace_ssh_gateway.Gateway.Access.{load-Valid, authenticate_nothing_lem}
use codespace_ssh_gateway.Ssh.Auth.{
  Authorizer, KeyLine, contents, missing, new_authorizer, load_keys, inline_keys, read_keys,
  both_keys, with_keys, finish, no_keys, allow_list,
}
use codespace_ssh_gateway.Ssh.Auth.Checking.{
  nothing, authenticate, authenticate_none, unless_refused, check_user, allowed_in,
}
use codespace_ssh_gateway.Ssh.Auth.Policy.{accepted, is_nil, lines_of}
use codespace_ssh_gateway.Gateway.Names.{parse_login, trim_space, trim_left, trim_right, space}

abbrev laptop : Surroundings
laptop = record { getenv = λ name. ""; user_home = some "/home/ada" }

-- A relative path stays relative.
relative_path : expand_path laptop " state " ≡ "state"
unfolding expand_path expand_trimmed trim_space trim_left trim_right space
relative_path = refl

home_path : expand_path laptop "~/./keys//a" ≡ "/home/ada/keys/a"
unfolding expand_path expand_trimmed trim_space trim_left trim_right space join join_raw clean
    split_slash resolve_from join_slash home_dir
home_path = refl

-- A node is a text, and only texts are decoded.
abbrev texts : Yaml String
texts = record {
  unmarshal = λ raw. ok [];
  text = λ n old. ok n;
  ssh = λ n old. ok (record old { listen = n });
  lifecycle = λ n old. ok (record old { connect_retries = negsuc 0 });
  log = λ n old. ok (record old { level = n });
  control = λ n old. ok (record old { socket = n });
}

abbrev keys : Map String
keys = ("provider", "github") ∷ ("github", "token: x") ∷ ("ssh", "0.0.0.0:2222") ∷ []

abbrev keys_again : Map String
keys_again = ("ssh", "0.0.0.0:2222") ∷ ("provider", "github") ∷ ("github", "token: x") ∷ []

abbrev given : Config String
given = record (defaults "/state") {
  ssh = record default_ssh { listen = "0.0.0.0:2222" };
  sections = ("github", "token: x") ∷ [];
}

keys_lem : decode_keys texts "c.yaml" keys (defaults "/state") ≡ ok given
unfolding decode_keys decode_key decode_core core_key put defaults
keys_lem = refl

keys_again_lem : decode_keys texts "c.yaml" keys_again (defaults "/state") ≡ ok given
unfolding decode_keys decode_key decode_core core_key put defaults
keys_again_lem = refl

same_keys : (k : String) → get keys k ≡ get keys_again k
unfolding get
same_keys k = elim (Bool-cases ("ssh" == k)) [
  | inl e ↦ subst (λ z. get keys z ≡ get keys_again z) ((eq_iff "ssh" k).0 e) refl
  | inr e ↦ rw e refl
]

decode_keys_order_example : SameConfig texts given given
unfolding get
decode_keys_order_example =
    decode_keys_order texts "c.yaml" keys keys_again (defaults "/state") given given
      (refl, (refl, (refl, tt))) (refl, (refl, (refl, tt))) same_keys keys_lem keys_again_lem

abbrev short : Config String
short = record given {
  ssh = record given.ssh { listen = ""; handshake_timeout = negsuc 4 };
  lifecycle = record given.lifecycle { start_timeout = pos 0; status_poll_interval = pos 5 };
}

short_lem : validate short ≡ ok (filled short)
unfolding validate validate_address validate_limits validate_lifecycle check_level with_listen
    with_handshake with_durations floored filled split_host_port holds_byte cut_last parse_log_level
    defaults default_ssh default_lifecycle
short_lem = refl

validate-Valid_example : Valid (filled short) × (filled short ≡ filled short)
validate-Valid_example = validate-Valid short (filled short) short_lem

-- An empty file.
abbrev loaded : Config String
loaded = record (defaults "/home/ada/.local/state/ssh-gateway") { path = "c.yaml" }

loaded_lem : load texts laptop (λ path. "") (λ path. contents "") "c.yaml" ≡ ok loaded
unfolding load load_file with_state_dir with_warning decode_keys default_state_dir expand_path
    expand_trimmed trim_space trim_left trim_right space join join_raw clean split_slash
    resolve_from join_slash home_dir validate validate_address validate_limits validate_lifecycle
    check_level with_listen with_handshake with_durations floored filled split_host_port holds_byte
    cut_last parse_log_level defaults default_ssh default_lifecycle
loaded_lem = refl

load-Valid_example :
    Valid loaded × (with_defaults (lifecycle_settings loaded) ≡ lifecycle_settings loaded)
load-Valid_example =
    load-Valid texts laptop (λ path. "") (λ path. contents "") "c.yaml" loaded loaded_lem

abbrev no_ip : String → Bool
no_ip host = host == "127.0.0.1"

abbrev no_key : String → Result KeyLine
no_key line = err (Failure.text "ssh: no key found")

abbrev local_authorizer : Authorizer
local_authorizer = record {
  keys = [];
  password_auth = false;
  password = record { v = "" };
  generated = false;
  anonymous = true;
  allowed = none;
}

abbrev no_password : Result String
no_password = err (Failure.text "no randomness")

local_authorizer_lem :
    new_authorizer no_key (auth_config no_ip laptop loaded) missing no_password
    ≡ ok local_authorizer
unfolding new_authorizer load_keys inline_keys read_keys both_keys with_keys finish no_keys
    allow_list auth_config authorized_keys_path default_config_dir dir to_last_slash home_dir join
    join_raw clean split_slash resolve_from join_slash loopback_listen loopback_host lowers_to
    trim_brackets trim_left_brackets trim_right_brackets split_host_port holds_byte cut_last
    defaults default_ssh
local_authorizer_lem = refl

anyone : accepted (authenticate (λ key. key) local_authorizer "root" nothing) ≡ true
unfolding authenticate authenticate_none unless_refused check_user allowed_in parse_login
anyone = refl

authenticate_nothing_lem_example :
    (host : String) × (port : String) × (split_host_port loaded.ssh.listen ≡ ok (host, port))
    × ((lowers_to host "localhost" || no_ip (trim_brackets host)) ≡ true)
    × (loaded.ssh.password_auth ≡ false)
    × (is_nil (lines_of no_key (auth_config no_ip laptop loaded) missing) ≡ true)
authenticate_nothing_lem_example =
    authenticate_nothing_lem no_ip no_key (λ key. key) laptop loaded missing no_password
      local_authorizer local_authorizer_lem "root" anyone
