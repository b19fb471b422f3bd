-- ===== src/Secret.antt =====
-- core/secret/secret.go: a text that does not show itself.
use codespace_ssh_gateway.Shared.{String, Bool, Option, none, some, ◌==◌, string_eq, if◌then◌else◌}
use codespace_ssh_gateway.Gateway.Names.{trim_space}

pub record Value : Type 0 where
  pub v : String

-- Redacted
abbrev pub redacted : String
redacted = "***redacted***"

-- New
unfoldable pub new_secret : String → Value
new_secret s = record { v = trim_space s }

unfoldable pub reveal : Value → String
reveal s = s.v

-- Empty
unfoldable pub is_empty : Value → Bool
is_empty s = s.v == ""

-- String, which GoString, MarshalJSON and MarshalYAML give too
unfoldable pub to_string : Value → String
to_string s = if s.v == "" then "" else redacted

-- Equal
unfoldable pub equal : Value → String → Bool
equal s other = s.v == other

-- UnmarshalJSON, of the text that was read, if it was one
unfoldable pub unmarshal_json : Option String → Option Value
unmarshal_json none = none
unmarshal_json (some raw) = some (new_secret raw)

-- UnmarshalYAML
unfoldable pub unmarshal_yaml : Option String → Option Value
unmarshal_yaml none = none
unmarshal_yaml (some raw) = some (new_secret (if raw == redacted then "" else raw))
