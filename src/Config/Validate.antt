-- ===== src/Config/Validate.antt =====
-- core/config/load.go: validate, with net.SplitHostPort.
use codespace_ssh_gateway.Shared.{
  ℕ, String, Char, code, ◌⁺◌, Bool, false, not, ◌||◌, Option, none, some, ◌==◌, string_eq, nat_eq,
  if◌then◌else◌,
}
use codespace_ssh_gateway.Shared.Integers.{ℤ, pos, negative, positive, below}
use codespace_ssh_gateway.Providers.Errors.{Failure, Result, ok, err, quoted}
use codespace_ssh_gateway.Config.{
  Config, SshConfig, LifecycleConfig, default_ssh, default_lifecycle, seconds,
}

-- strings.IndexByte(s, c) >= 0
unfoldable pub holds_byte : ℕ → String → Bool
holds_byte b String.[] = false
holds_byte b (String.◌∷◌ c s) = code c == b || holds_byte b s

-- What stands before and after the last of a byte, if there is one.
abbrev pub Parts : Type 0
Parts = Option (String × String)

abbrev pub cut_before : ℕ → Char → String → Parts → Parts
cut_before b c s none = if code c == b then some ("", s) else none
cut_before b c s (some (x, y)) = some (String.◌∷◌ c x, y)

unfoldable pub cut_last : ℕ → String → Parts
cut_last b String.[] = none
cut_last b (String.◌∷◌ c s) = cut_before b c s (cut_last b s)

-- The same for the first.
abbrev pub cut_after : Char → Parts → Parts
cut_after c none = none
cut_after c (some (x, y)) = some (String.◌∷◌ c x, y)

unfoldable pub cut_first : ℕ → String → Parts
cut_first b String.[] = none
cut_first b (String.◌∷◌ c s) =
    let rest = cut_after c (cut_first b s) in if code c == b then some ("", s) else rest

abbrev pub no_port : Failure
no_port = Failure.text "missing port in address"

abbrev pub many_colons : Failure
many_colons = Failure.text "too many colons in address"

-- What follows the bracket has to be a colon and the port.
abbrev pub bracketed : String → String → Result (String × String)
bracketed host String.[] = err no_port
bracketed host (String.◌∷◌ c port) =
    if not (code c == b':')
    then err no_port
    else if holds_byte b':' port
    then err many_colons
    else if holds_byte b'[' host || holds_byte b'[' port
    then err (Failure.text "unexpected '[' in address")
    else if holds_byte b']' port
    then err (Failure.text "unexpected ']' in address")
    else ok (host, port)

abbrev pub in_brackets : Parts → Result (String × String)
in_brackets none = err (Failure.text "missing ']' in address")
in_brackets (some (host, rest)) = bracketed host rest

abbrev pub plain : Parts → Result (String × String)
plain none = err no_port
plain (some (host, port)) =
    if holds_byte b':' host
    then err many_colons
    else if holds_byte b'[' host || holds_byte b'[' port
    then err (Failure.text "unexpected '[' in address")
    else if holds_byte b']' host || holds_byte b']' port
    then err (Failure.text "unexpected ']' in address")
    else ok (host, port)

-- net.SplitHostPort, with the texts of its errors but for the address
unfoldable pub split_host_port : String → Result (String × String)
split_host_port String.[] = err no_port
split_host_port (String.◌∷◌ c s) =
    if not (holds_byte b':' (String.◌∷◌ c s))
    then err no_port
    else if code c == b'['
    then in_brackets (cut_first b']' s)
    else plain (cut_last b':' (String.◌∷◌ c s))

-- parseLogLevel
unfoldable pub parse_log_level : String → Result String
parse_log_level s =
    if (s == "")
      || ((s == "debug")
          || ((s == "info") || ((s == "warn") || ((s == "warning") || (s == "error")))))
    then ok s
    else err (Failure.text ("log.level " ⁺ (quoted s ⁺ " is not one of debug|info|warn|error")))

-- minPollInterval
abbrev pub min_poll_interval : ℕ
min_poll_interval = 100000000

abbrev pub or_if_not_positive : ℤ → ℤ → ℤ
or_if_not_positive z d = if positive z then z else d

-- The durations and limits of ssh.
unfoldable pub with_listen : SshConfig → SshConfig
with_listen c = record c { listen = if c.listen == "" then default_ssh.listen else c.listen }

unfoldable pub with_handshake : SshConfig → SshConfig
with_handshake c = record c {
  handshake_timeout = or_if_not_positive c.handshake_timeout (seconds 30);
}

unfoldable pub floored : ℤ → ℤ → ℤ
floored z d =
    if not (positive z) then d else if below z min_poll_interval then pos min_poll_interval else z

-- The durations of lifecycle.
unfoldable pub with_durations : LifecycleConfig → LifecycleConfig
with_durations c = record c {
  start_timeout = or_if_not_positive c.start_timeout default_lifecycle.start_timeout;
  create_timeout = or_if_not_positive c.create_timeout default_lifecycle.create_timeout;
  connect_timeout = or_if_not_positive c.connect_timeout default_lifecycle.connect_timeout;
  status_poll_interval = floored c.status_poll_interval default_lifecycle.status_poll_interval;
}

module _ {Node : Type 0} where
  -- The last tests of validate, with the configuration it has filled in.
  unfoldable pub check_level : Config Node → Result String → Result (Config Node)
  check_level c (err e) = err e
  check_level c (ok _) = ok c

  unfoldable pub validate_lifecycle : Config Node → Result (Config Node)
  validate_lifecycle c =
      if negative c.lifecycle.connect_retries
      then err (Failure.text "lifecycle.connect_retries must not be negative")
      else check_level (record c { lifecycle = with_durations c.lifecycle })
          (parse_log_level c.log.level)

  unfoldable pub validate_limits : Config Node → Result (Config Node)
  validate_limits c =
      if negative c.ssh.shutdown_grace
      then err (Failure.text "ssh.shutdown_grace must not be negative")
      else if negative c.ssh.max_sessions || negative c.ssh.max_sessions_per_env
      then err (Failure.text "ssh session limits must not be negative")
      else validate_lifecycle c

  unfoldable pub validate_address : Config Node → Result (String × String) → Result (Config Node)
  validate_address c (err e) =
      err (Failure.wrap ("ssh.listen " ⁺ (quoted c.ssh.listen ⁺ " is not host:port: ")) "" e)
  validate_address c (ok _) = validate_limits (record c { ssh = with_handshake c.ssh })

  -- validate, with the configuration that it leaves
  unfoldable pub validate : Config Node → Result (Config Node)
  validate c =
      if c.provider == ""
      then err (Failure.text "provider must be set")
      else validate_address (record c { ssh = with_listen c.ssh })
          (split_host_port (with_listen c.ssh).listen)
