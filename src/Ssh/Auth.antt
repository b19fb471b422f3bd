-- ===== src/Ssh/Auth.antt =====
-- ssh/auth.go, and the callbacks that New in ssh/server.go hands to the SSH library. A public key is
-- its wire form (Marshal), and a fingerprint is a function of it. What gossh.ParseAuthorizedKey,
-- FingerprintSHA256, os.ReadFile and rand.Read answer are parameters.
pub mod Checking
pub mod Policy
pub mod Loading
pub mod Admits
use codespace_ssh_gateway.Shared.{
  ℕ, ◌+◌, suc, String, ◌⁺◌, Char, code, Bool, true, false, not, ◌&&◌, ◌||◌, Option, none, some,
  List, [], ◌∷◌, ◌++◌, ◌==◌, string_eq, nat_eq, ltb, if◌then◌else◌, decimal, length,
}
use codespace_ssh_gateway.Shared.Map.{Map, get, put}
use codespace_ssh_gateway.Providers.Errors.{Failure, Sentinel, Result, ok, err, quoted}
use codespace_ssh_gateway.Gateway.Names.{trim_space, Login, parse_login}
use codespace_ssh_gateway.Secret.{Value, new_secret, reveal, is_empty}

pub record AuthConfig : Type 0 where
  pub authorized_keys_file : String
  pub authorized_keys_inline : List String
  pub password_auth : Bool
  pub password : Value
  pub allowed_users : List String
  pub allow_anonymous : Bool

pub record AuthorizedKey : Type 0 where
  pub key : String
  pub comment : String
  pub source : String

pub record Authorizer : Type 0 where
  pub keys : List AuthorizedKey
  pub password_auth : Bool
  pub password : Value
  pub generated : Bool
  pub anonymous : Bool
  pub allowed : Option (Map Bool)

-- What ParseAuthorizedKey finds in a line.
pub record KeyLine : Type 0 where
  pub key : String
  pub comment : String
  pub options : List String

-- What os.ReadFile answers.
pub data FileRead : Type 0 where
  contents : String → FileRead
  missing : FileRead
  unreadable : Failure → FileRead

-- Permissions, by the extensions that the callbacks fill.
abbrev pub Permissions : Type 0
Permissions = Map String

abbrev pub before_break : Char → List String → List String
before_break c [] = String.◌∷◌ c "" ∷ []
before_break c (l ∷ ls) = String.◌∷◌ c l ∷ ls

-- strings.Split(raw, "\n")
unfoldable pub split_lines : String → List String
split_lines String.[] = "" ∷ []
split_lines (String.◌∷◌ c s) =
    let rest = split_lines s in if code c == 10 then "" ∷ rest else before_break c rest

-- `trimmed == "" || strings.HasPrefix(trimmed, "#")`
unfoldable pub skipped : String → Bool
skipped String.[] = true
skipped (String.◌∷◌ c s) = code c == b'#'

-- ErrNoAuthMethods
abbrev pub no_auth_methods : Failure
no_auth_methods = Failure.sentinel Sentinel.no_auth_methods

-- `%v` of a list of texts, without its brackets
unfoldable pub spaced : List String → String
spaced [] = ""
spaced (o ∷ []) = o
spaced (o ∷ p ∷ os) = o ⁺ (" " ⁺ spaced (p ∷ os))

abbrev pub without : KeyLine → List String → Result AuthorizedKey
without line [] = ok (record { key = line.key; comment = line.comment; source = "" })
without line (o ∷ os) =
    err (Failure.text ("authorized_keys options are not supported: [" ⁺ (spaced (o ∷ os) ⁺ "]")))

unfoldable pub without_options : Result KeyLine → Result AuthorizedKey
without_options (err e) = err (Failure.wrap "not a valid public key: " "" e)
without_options (ok line) = without line line.options

-- The key of one line before those of the lines after it, which are read only if it parses.
unfoldable pub first_key :
    String
    → String
    → Result AuthorizedKey
    → Result (List AuthorizedKey)
    → Result (List AuthorizedKey)
first_key place source (err e) rest = err (Failure.wrap (place ⁺ ": ") "" e)
first_key place source (ok k) (err e) = err e
first_key place source (ok k) (ok ks) = ok (record k { source = source } ∷ ks)

unfoldable pub both_keys :
    Result (List AuthorizedKey) → Result (List AuthorizedKey) → Result (List AuthorizedKey)
both_keys (err e) _ = err e
both_keys (ok ks) (err e) = err e
both_keys (ok ks) (ok ls) = ok (ks ++ ls)

-- The allow list; no list admits every name.
unfoldable pub allow : List String → Map Bool → Map Bool
allow [] m = m
allow (u ∷ us) m = allow us (if trim_space u == "" then m else put m (trim_space u) true)

unfoldable pub allow_list : List String → Option (Map Bool)
allow_list [] = none
allow_list (u ∷ us) = some (allow (u ∷ us) [])

unfoldable pub no_keys : List AuthorizedKey → Bool
no_keys [] = true
no_keys (_ ∷ _) = false

-- From the password on.
unfoldable pub finish : AuthConfig → List AuthorizedKey → Value → Bool → Result Authorizer
finish cfg keys password generated =
    let bare = no_keys keys && not cfg.password_auth in
    if bare && not cfg.allow_anonymous
    then err no_auth_methods
    else ok (record {
      keys = keys;
      password_auth = cfg.password_auth;
      password = password;
      generated = generated;
      anonymous = bare;
      allowed = allow_list cfg.allowed_users;
    })

unfoldable pub with_random : AuthConfig → List AuthorizedKey → Result String → Result Authorizer
with_random cfg keys (err e) = err e
with_random cfg keys (ok pw) = finish cfg keys (new_secret pw) true

unfoldable pub with_keys :
    AuthConfig → Result String → Result (List AuthorizedKey) → Result Authorizer
with_keys cfg random (err e) = err e
with_keys cfg random (ok keys) =
    if cfg.password_auth && is_empty cfg.password
    then with_random cfg keys random
    else finish cfg keys cfg.password false

module _ (parse_key : String → Result KeyLine) where
  -- parseAuthorizedKey
  unfoldable pub parse_authorized_key : String → Result AuthorizedKey
  parse_authorized_key line = without_options (parse_key line)

  -- The loop over AuthorizedKeysInline, from its line `i` on.
  unfoldable pub inline_keys : ℕ → List String → Result (List AuthorizedKey)
  inline_keys i [] = ok []
  inline_keys i (line ∷ lines) =
      first_key ("ssh.authorized_keys_inline[" ⁺ (decimal i ⁺ "]")) "config"
        (parse_authorized_key line) (inline_keys (suc i) lines)

  -- The loop over the lines of the file, from its line `n + 1` on.
  unfoldable pub file_keys : String → ℕ → List String → Result (List AuthorizedKey)
  file_keys path n [] = ok []
  file_keys path n (line ∷ lines) =
      let rest = file_keys path (suc n) lines in
      if skipped (trim_space line)
      then rest
      else first_key (path ⁺ (":" ⁺ decimal (n + 1))) path (parse_authorized_key (trim_space line))
          rest

  unfoldable pub read_keys : String → FileRead → Result (List AuthorizedKey)
  read_keys path (contents raw) = file_keys path 0 (split_lines raw)
  read_keys path missing = ok []
  read_keys path (unreadable e) = err (Failure.wrap ("read " ⁺ (path ⁺ ": ")) "" e)

  unfoldable pub load_keys : AuthConfig → FileRead → Result (List AuthorizedKey)
  load_keys cfg file =
      both_keys (inline_keys 0 cfg.authorized_keys_inline)
        (if cfg.authorized_keys_file == "" then ok [] else read_keys cfg.authorized_keys_file file)

  -- NewAuthorizer, with what randomPassword answers
  unfoldable pub new_authorizer : AuthConfig → FileRead → Result String → Result Authorizer
  new_authorizer cfg file random = with_keys cfg random (load_keys cfg file)
