-- ===== src/Ssh/Auth/Checking.antt =====
-- ssh/auth.go, what an Authorizer answers, and the callbacks that New in ssh/server.go makes of it.
use codespace_ssh_gateway.Shared.{
  String, ◌⁺◌, Bool, true, false, not, ◌&&◌, Option, none, some, List, [], ◌∷◌, ◌==◌, string_eq,
  if◌then◌else◌, decimal, length,
}
use codespace_ssh_gateway.Shared.Map.{Map, get}
use codespace_ssh_gateway.Providers.Errors.{Failure, Result, ok, err, quoted}
use codespace_ssh_gateway.Gateway.Names.{parse_login}
use codespace_ssh_gateway.Secret.{reveal}
use codespace_ssh_gateway.Ssh.Auth.{Authorizer, AuthorizedKey, Permissions, no_keys}

abbrev pub or_false : Option Bool → Bool
or_false none = false
or_false (some b) = b

unfoldable pub allowed_in : String → Option (Map Bool) → Bool
allowed_in user none = true
allowed_in user (some m) = or_false (get m user)

-- CheckUser
unfoldable pub check_user : Authorizer → String → Option Failure
check_user a user =
    if user == ""
    then some (Failure.text "empty username")
    else if allowed_in user a.allowed
    then none
    else some (Failure.text ("user " ⁺ (quoted user ⁺ " is not in ssh.allowed_users")))

unfoldable pub find_key : List AuthorizedKey → String → Option AuthorizedKey
find_key [] key = none
find_key (k ∷ ks) key = if k.key == key then some k else find_key ks key

unfoldable pub unless_refused : Option Failure → Result Permissions → Result Permissions
unless_refused none r = r
unless_refused (some e) r = err e

module _ (fingerprint : String → String) where
  unfoldable pub permissions_of : String → Option AuthorizedKey → Result Permissions
  permissions_of key none =
      err (Failure.text ("public key " ⁺ (fingerprint key ⁺ " is not authorized")))
  permissions_of key (some k) = ok (
      ("gateway-auth", "publickey")
      ∷ ("gateway-key", fingerprint key)
      ∷ ("gateway-key-comment", k.comment)
      ∷ [])

  -- AuthenticateKey
  unfoldable pub authenticate_key : Authorizer → String → String → Result Permissions
  authenticate_key a user key =
      unless_refused (check_user a user) (permissions_of key (find_key a.keys key))

-- AuthenticatePassword
unfoldable pub authenticate_password : Authorizer → String → String → Result Permissions
authenticate_password a user given =
    if not a.password_auth
    then err (Failure.text "password authentication is disabled")
    else unless_refused (check_user a user) (
        if reveal a.password == given
        then ok (("gateway-auth", "password") ∷ [])
        else err (Failure.text "password rejected"))

-- NoClientAuthCallback
unfoldable pub authenticate_none : Authorizer → String → Result Permissions
authenticate_none a user = unless_refused (check_user a user) (ok (("gateway-auth", "none") ∷ []))

-- What a client presents.
pub data Attempt : Type 0 where
  nothing : Attempt
  public_key password : String → Attempt

-- The SSH library's method: "none" only with NoClientAuth, and "password" only with a
-- PasswordCallback.
unfoldable pub no_method : Result Permissions
no_method = err (Failure.text "no supported methods remain")

-- The ServerConfig of New.
module _ (fingerprint : String → String) where
  unfoldable pub authenticate : Authorizer → String → Attempt → Result Permissions
  authenticate a raw nothing =
      if a.anonymous then authenticate_none a (parse_login raw).user else no_method
  authenticate a raw (public_key key) = authenticate_key fingerprint a (parse_login raw).user key
  authenticate a raw (password given) =
      if a.password_auth then authenticate_password a (parse_login raw).user given else no_method

-- Mode
unfoldable pub mode : Authorizer → String
mode a =
    if a.anonymous
    then "免认证（仅本机监听）"
    else if not (no_keys a.keys) && a.password_auth
    then decimal (length a.keys) ⁺ " 个公钥 + 密码"
    else if not (no_keys a.keys)
    then decimal (length a.keys) ⁺ " 个公钥"
    else "密码"

-- GeneratedPassword
unfoldable pub generated_password : Authorizer → Option String
generated_password a = if a.generated then some (reveal a.password) else none
