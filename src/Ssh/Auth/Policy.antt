-- ===== src/Ssh/Auth/Policy.antt =====
-- ssh/auth.go and ssh/server.go: whom the gateway is to let in, said of its configuration.
use codespace_ssh_gateway.Shared.{
  String, Bool, true, false, not, ◌&&◌, ◌||◌, Option, none, some, List, [], ◌∷◌, ◌++◌, ◌==◌,
  string_eq, if◌then◌else◌, ◌≡◌,
}
use codespace_ssh_gateway.Providers.Errors.{Result, ok, err}
use codespace_ssh_gateway.Gateway.Names.{trim_space}
use codespace_ssh_gateway.Secret.{new_secret, reveal, is_empty}
use codespace_ssh_gateway.Ssh.Auth.{
  AuthConfig, AuthorizedKey, KeyLine, FileRead, contents, missing, unreadable, split_lines, skipped,
  Permissions,
}
use codespace_ssh_gateway.Ssh.Auth.Checking.{Attempt, nothing, public_key, password}

abbrev pub accepted : Result Permissions → Bool
accepted (ok p) = true
accepted (err e) = false

abbrev pub or_some : Option AuthorizedKey → Bool
or_some none = false
or_some (some k) = true

abbrev pub is_nil {ℓ} : {A : Type ℓ} → List A → Bool
is_nil [] = true
is_nil (x ∷ xs) = false

-- The lines of a file that hold keys.
unfoldable pub key_lines : List String → List String
key_lines [] = []
key_lines (line ∷ lines) =
    let rest = key_lines lines in if skipped (trim_space line) then rest else trim_space line ∷ rest

unfoldable pub file_lines : FileRead → List String
file_lines (contents raw) = key_lines (split_lines raw)
file_lines missing = []
file_lines (unreadable e) = []

-- Whether a name is one that ssh.allowed_users allows: any, if it is empty.
unfoldable pub among : List String → String → Bool
among [] user = false
among (u ∷ us) user = trim_space u == user || among us user

unfoldable pub named : List String → String → Bool
named users user = not (user == "") && (is_nil users || among users user)

abbrev pub password_of : AuthConfig → Result String → String
password_of cfg (ok pw) =
    if cfg.password_auth && is_empty cfg.password
    then reveal (new_secret pw)
    else reveal cfg.password
password_of cfg (err e) = reveal cfg.password

module _ (parse_key : String → Result KeyLine) where
  -- Whether a line holds a key, with no options.
  abbrev pub is_key : String → Result KeyLine → Bool
  is_key key (err e) = false
  is_key key (ok line) = line.key == key

  unfoldable pub lists : List String → String → Bool
  lists [] key = false
  lists (line ∷ lines) key = is_key key (parse_key line) || lists lines key

  -- The lines that the configuration names.
  unfoldable pub lines_of : AuthConfig → FileRead → List String
  lines_of cfg file =
      cfg.authorized_keys_inline ++ (if cfg.authorized_keys_file == "" then [] else file_lines file)

  unfoldable pub presented : AuthConfig → FileRead → Result String → Attempt → Bool
  presented cfg file random nothing =
      cfg.allow_anonymous && (not cfg.password_auth && is_nil (lines_of cfg file))
  presented cfg file random (public_key key) = lists (lines_of cfg file) key
  presented cfg file random (password given) =
      cfg.password_auth && (given == password_of cfg random)

  -- What a client that is let in has shown, on a listener that needs a credential.
  abbrev pub Shown : AuthConfig → FileRead → Attempt → Type 0
  Shown cfg file nothing = ⊥
  Shown cfg file (public_key key) = lists (lines_of cfg file) key ≡ true
  Shown cfg file (password given) = (cfg.password_auth ≡ true) × ((given == "") ≡ false)
