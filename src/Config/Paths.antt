-- ===== src/Config/Paths.antt =====
-- core/config/paths.go, and the paths of config.go.
use codespace_ssh_gateway.Shared.{
  String, Char, code, ◌⁺◌, Bool, false, not, ◌&&◌, Option, none, some, List, [], ◌∷◌, ◌==◌,
  string_eq, nat_eq, if◌then◌else◌,
}
use codespace_ssh_gateway.Gateway.Names.{trim_space}
use codespace_ssh_gateway.Config.{Config}

-- path/filepath, on paths with slashes: the elements between slashes, without the empty ones and
-- the dots.
abbrev pub joined : Char → List String → List String
joined c [] = String.◌∷◌ c "" ∷ []
joined c (e ∷ es) = String.◌∷◌ c e ∷ es

unfoldable pub split_slash : String → List String
split_slash String.[] = "" ∷ []
split_slash (String.◌∷◌ c s) =
    let rest = split_slash s in if code c == b'/' then "" ∷ rest else joined c rest

abbrev pub rooted : String → Bool
rooted String.[] = false
rooted (String.◌∷◌ c s) = code c == b'/'

-- One element of a path, on the elements so far, last first.
abbrev pub parent : Bool → List String → List String
parent abs [] = if abs then [] else ".." ∷ []
parent abs (e ∷ es) = if e == ".." then ".." ∷ e ∷ es else es

unfoldable pub resolve_from : Bool → List String → List String → List String
resolve_from abs done [] = done
resolve_from abs done (e ∷ es) =
    resolve_from abs
      (if e == ""
        then done
        else if e == "."
        then done
        else if e == ".."
        then parent abs done
        else e ∷ done)
      es

unfoldable pub join_slash : List String → String → String
join_slash [] acc = acc
join_slash (e ∷ es) acc = join_slash es (if acc == "" then e else e ⁺ ("/" ⁺ acc))

-- filepath.Clean
unfoldable pub clean : String → String
clean path =
    let text = join_slash (resolve_from (rooted path) [] (split_slash path)) "" in
    if rooted path then "/" ⁺ text else if text == "" then "." else text

-- filepath.Join
unfoldable pub join_raw : List String → String
join_raw [] = ""
join_raw (e ∷ es) =
    let rest = join_raw es in if e == "" then rest else if rest == "" then e else e ⁺ ("/" ⁺ rest)

unfoldable pub join : List String → String
join es = let raw = join_raw es in if raw == "" then "" else clean raw

-- filepath.Dir: what stands before the last slash, cleaned
abbrev pub unless_last : Char → Option String → Option String
unless_last c none = if code c == b'/' then some "/" else none
unless_last c (some s) = some (String.◌∷◌ c s)

unfoldable pub to_last_slash : String → Option String
to_last_slash String.[] = none
to_last_slash (String.◌∷◌ c s) = unless_last c (to_last_slash s)

abbrev pub or_empty : Option String → String
or_empty none = ""
or_empty (some s) = s

unfoldable pub dir : String → String
dir path = clean (or_empty (to_last_slash path))

-- os.Getenv, of a variable that may be unset, and os.UserHomeDir.
pub record Surroundings : Type 0 where
  pub getenv : String → String
  pub user_home : Option String

-- homeDir
abbrev pub home_of : Option String → String
home_of none = "."
home_of (some h) = if h == "" then "." else h

unfoldable pub home_dir : Surroundings → String
home_dir s = home_of s.user_home

-- AppName
abbrev pub app_name : String
app_name = "ssh-gateway"

-- ExpandPath, of a path that is trimmed
unfoldable pub expand_trimmed : Surroundings → String → String
expand_trimmed s String.[] = ""
expand_trimmed s (String.◌∷◌ c String.[]) = if code c == b'~' then home_dir s else String.◌∷◌ c ""
expand_trimmed s (String.◌∷◌ c (String.◌∷◌ d p)) =
    if (code c == b'~') && (code d == b'/')
    then join (home_dir s ∷ p ∷ [])
    else String.◌∷◌ c (String.◌∷◌ d p)

unfoldable pub expand_path : Surroundings → String → String
expand_path s p = expand_trimmed s (trim_space p)

-- DefaultConfigDir
unfoldable pub default_config_dir : Surroundings → String
default_config_dir s =
    if not (s.getenv "GATEWAY_CONFIG" == "")
    then dir (expand_path s (s.getenv "GATEWAY_CONFIG"))
    else if not (s.getenv "XDG_CONFIG_HOME" == "")
    then join (expand_path s (s.getenv "XDG_CONFIG_HOME") ∷ app_name ∷ [])
    else join (home_dir s ∷ ".config" ∷ app_name ∷ [])

-- DefaultConfigPath
unfoldable pub default_config_path : Surroundings → String
default_config_path s =
    if not (s.getenv "GATEWAY_CONFIG" == "")
    then expand_path s (s.getenv "GATEWAY_CONFIG")
    else join (default_config_dir s ∷ "config.yaml" ∷ [])

-- DefaultStateDir
unfoldable pub default_state_dir : Surroundings → String
default_state_dir s =
    if not (s.getenv "GATEWAY_STATE_DIR" == "")
    then expand_path s (s.getenv "GATEWAY_STATE_DIR")
    else if not (s.getenv "XDG_STATE_HOME" == "")
    then join (expand_path s (s.getenv "XDG_STATE_HOME") ∷ app_name ∷ [])
    else join (home_dir s ∷ ".local" ∷ "state" ∷ app_name ∷ [])

module _ {Node : Type 0} (s : Surroundings) (c : Config Node) where
  -- HostKeyPath
  unfoldable pub host_key_path : String
  host_key_path =
      if c.ssh.host_key == ""
      then join (c.state_dir ∷ "host_ed25519" ∷ [])
      else expand_path s c.ssh.host_key

  -- AuthorizedKeysPath
  unfoldable pub authorized_keys_path : String
  authorized_keys_path =
      if c.ssh.authorized_keys == ""
      then join
          ((if c.path == "" then default_config_dir s else dir c.path) ∷ "authorized_keys" ∷ [])
      else expand_path s c.ssh.authorized_keys

  -- ControlSocketPath
  unfoldable pub control_socket_path : String
  control_socket_path =
      if c.control.socket == ""
      then join (c.state_dir ∷ "control.sock" ∷ [])
      else expand_path s c.control.socket

module _ {Node : Type 0} (c : Config Node) where
  -- ProviderStateDir
  unfoldable pub provider_state_dir : String → String
  provider_state_dir name = join (c.state_dir ∷ "providers" ∷ name ∷ [])
