-- ===== src/Github/Settings.antt =====
-- providers/github/config.go: the provider's section with its defaults and its token, and lifecycle.go,
-- mergeCreateOptions.
use codespace_ssh_gateway.Shared.{
  String, code, ◌⁺◌, Bool, true, false, not, ◌&&◌, ◌||◌, Option, none, some, ◌==◌, nat_eq,
  string_eq, if◌then◌else◌,
}
use codespace_ssh_gateway.Shared.Integers.{ℤ, pos, negsuc, positive, below}
use codespace_ssh_gateway.Gateway.Names.{trim_space}
use codespace_ssh_gateway.Providers.Errors.{Failure, Result, ok, err, quoted}
use codespace_ssh_gateway.Secret.{Value, new_secret, is_empty}
use codespace_ssh_gateway.Github.Sources.{CreateConfig}
use codespace_ssh_gateway.Github.Creating.{slashes}

pub record Section : Type 0 where
  pub token : Value
  pub token_file : String
  pub codespace : String
  pub api_url : String
  pub gh_path : String
  pub connector : String
  pub host_key_policy : String
  pub ssh_user : String
  pub request_timeout : ℤ
  pub create : CreateConfig

-- strings.HasPrefix(s, t)
unfoldable pub has_prefix : String → String → Bool
has_prefix s String.[] = true
has_prefix String.[] (String.◌∷◌ d t) = false
has_prefix (String.◌∷◌ c s) (String.◌∷◌ d t) = code c == code d && has_prefix s t

-- strings.TrimSuffix(s, "/")
unfoldable pub trim_slash : String → String
trim_slash String.[] = ""
trim_slash (String.◌∷◌ c String.[]) = if code c == b'/' then "" else String.◌∷◌ c ""
trim_slash (String.◌∷◌ c (String.◌∷◌ d s)) = String.◌∷◌ c (trim_slash (String.◌∷◌ d s))

unfoldable pub clean_url : String → String
clean_url url = trim_slash (trim_space (if url == "" then "https://api.github.com" else url))

-- The switches over the two settings with a few values; `none` is their default case.
unfoldable pub connector_of : String → Option String
connector_of name =
    if name == ""
    then some "auto"
    else if (name == "auto") || ((name == "stdio") || (name == "exec"))
    then some name
    else none

unfoldable pub policy_of : String → Option String
policy_of name =
    if name == ""
    then some "tofu"
    else if (name == "tofu") || ((name == "strict") || (name == "insecure"))
    then some name
    else none

abbrev pub is_zero : ℤ → Bool
is_zero (pos n) = n == 0
is_zero (negsuc n) = false

-- GitHub's own limits; 0 is no setting.
unfoldable pub idle_out_of_range : ℤ → Bool
idle_out_of_range z = not (is_zero z) && (below z 5 || not (below z 241))

abbrev pub wrong : String → String → String → Failure
wrong key value must = Failure.text (key ⁺ (" " ⁺ (quoted value ⁺ (" must be " ⁺ must))))

unfoldable pub check_create : Section → Result Section
check_create c =
    if idle_out_of_range c.create.idle_timeout_minutes
    then err (
        Failure.text
          "github.create.idle_timeout_minutes must be between 5 and 240 (GitHub's own limits)")
    else if not (c.create.repository == "") && not (slashes c.create.repository == 1)
    then err (wrong "github.create.repository" c.create.repository "owner/name")
    else ok c

unfoldable pub with_timeout : Section → Section
with_timeout c = record c {
  request_timeout = if positive c.request_timeout then c.request_timeout else pos 30000000000;
}

unfoldable pub with_policy : Section → Option String → Result Section
with_policy c none =
    err (wrong "github.host_key_policy" c.host_key_policy "tofu, strict or insecure")
with_policy c (some policy) = check_create (with_timeout (record c { host_key_policy = policy }))

unfoldable pub with_connector : Section → Option String → Result Section
with_connector c none = err (wrong "github.connector" c.connector "auto, stdio or exec")
with_connector c (some name) =
    with_policy (record c { connector = name }) (policy_of c.host_key_policy)

-- applyDefaults, with the section that it leaves
unfoldable pub apply_defaults : Section → Result Section
apply_defaults c =
    let url = clean_url c.api_url in
    if not (has_prefix url "https://") && not (has_prefix url "http://")
    then err (wrong "github.api_url" url "an http(s) URL")
    else with_connector (record c { api_url = url }) (connector_of c.connector)

-- resolveToken. `read` is what os.ReadFile answers for the token file, and `gh` what the GitHub CLI
-- answers when it is there.
abbrev pub from_file : String → Result String → Result (Value × String)
from_file path (err e) = err (Failure.wrap "read github.token_file: " "" e)
from_file path (ok raw) =
    if is_empty (new_secret raw)
    then err (Failure.text ("github.token_file " ⁺ (path ⁺ " is empty")))
    else ok (new_secret raw, "token_file")

abbrev pub no_token : Failure
no_token = Failure.text (
    "no GitHub token available: set github.token, github.token_file, "
    ⁺ "$GITHUB_TOKEN/$GH_TOKEN, or sign in with `gh auth login`")

abbrev pub from_gh : Option (Result Value) → Result (Value × String)
from_gh none = err no_token
from_gh (some (err e)) = err no_token
from_gh (some (ok tok)) = if is_empty tok then err no_token else ok (tok, "gh auth token")

unfoldable pub from_env : (String → String) → Result (Value × String) → Result (Value × String)
from_env getenv otherwise =
    if not (trim_space (getenv "GITHUB_TOKEN") == "")
    then ok (new_secret (trim_space (getenv "GITHUB_TOKEN")), "environment")
    else if not (trim_space (getenv "GH_TOKEN") == "")
    then ok (new_secret (trim_space (getenv "GH_TOKEN")), "environment")
    else otherwise

unfoldable pub resolve_token :
    Section → Result String → (String → String) → Option (Result Value) → Result (Value × String)
resolve_token c read getenv gh =
    if not (is_empty c.token)
    then ok (c.token, "config file")
    else if not (c.token_file == "")
    then from_file c.token_file read
    else from_env getenv (from_gh gh)
