-- ===== src/Ssh/Auth/Admits.antt =====
-- ssh/auth.go and ssh/server.go: the gateway lets in whom its configuration names.
use codespace_ssh_gateway.Shared.{
  String, Bool, true, false, not, ◌&&◌, ◌||◌, Option, none, some, List, [], ◌∷◌, ◌==◌, string_eq,
  eq_iff, if◌then◌else◌, ◌≡◌, refl, ◌∙◌, ap, sym, arith, inl, inr, Bool-cases,
}
use codespace_ssh_gateway.Shared.Map.{Map, get, put, get-put}
use codespace_ssh_gateway.Providers.Errors.{Failure, Result, ok, err}
use codespace_ssh_gateway.Gateway.Names.{trim_space, parse_login}
use codespace_ssh_gateway.Secret.{Value, new_secret, reveal, is_empty}
use codespace_ssh_gateway.Ssh.Auth.{
  AuthConfig, AuthorizedKey, Authorizer, KeyLine, FileRead, allow, allow_list, no_keys, finish,
  with_random, with_keys, load_keys, new_authorizer, Permissions,
}
use codespace_ssh_gateway.Ssh.Auth.Checking.{
  or_false, allowed_in, check_user, find_key, unless_refused, permissions_of, authenticate_key,
  authenticate_password, authenticate_none, Attempt, nothing, public_key, password, no_method,
  authenticate,
}
use codespace_ssh_gateway.Ssh.Auth.Policy.{
  accepted, or_some, is_nil, among, named, password_of, lines_of, presented, Shown,
}
use codespace_ssh_gateway.Ssh.Auth.Loading.{Holds, load_keys-Holds}

get-allow :
    (us : List String) (m : Map Bool) (user : String)
    → (user == "") ≡ false
    → or_false (get (allow us m) user) ≡ (or_false (get m user) || among us user)
unfolding allow among get
get-allow [] m user ne = ground arith
get-allow (u ∷ us) m user ne = ground (
  arith,
  get-allow us m user ne,
  get-allow us (put m (trim_space u) true) user ne,
  get-put m (trim_space u) true user,
  eq_iff (trim_space u) "",
  eq_iff user "",
  eq_iff (trim_space u) user,
)

allowed_in_lem :
    (users : List String) (user : String)
    → (user == "") ≡ false
    → allowed_in user (allow_list users) ≡ (is_nil users || among users user)
unfolding allow_list allowed_in get
allowed_in_lem [] user ne = refl
allowed_in_lem (u ∷ us) user ne = get-allow (u ∷ us) [] user ne

check_user_lem :
    (a : Authorizer) (users : List String) (user : String)
    → a.allowed ≡ allow_list users
    → (r : Result Permissions)
    → accepted (unless_refused (check_user a user) r) ≡ (named users user && accepted r)
unfolding check_user unless_refused named
check_user_lem a users user h r = ground (arith, h, allowed_in_lem users user)

-- What finish leaves in an Authorizer.
pub record Finished (cfg : AuthConfig) (ks : List AuthorizedKey) (pw : Value) (a : Authorizer)
    : Type 0 where
  pub keys : a.keys ≡ ks
  pub password_auth : a.password_auth ≡ cfg.password_auth
  pub password : a.password ≡ pw
  pub anonymous : a.anonymous ≡ (cfg.allow_anonymous && (not cfg.password_auth && no_keys ks))
  pub allowed : a.allowed ≡ allow_list cfg.allowed_users

finish-Finished :
    (cfg : AuthConfig) (ks : List AuthorizedKey) (pw : Value) (generated : Bool) (a : Authorizer)
    → finish cfg ks pw generated ≡ ok a
    → Finished cfg ks pw a
unfolding finish
finish-Finished cfg ks pw generated a h = record {
  keys = ground (arith, h);
  password_auth = ground (arith, h);
  password = ground (arith, h);
  anonymous = ground (arith, h);
  allowed = ground (arith, h);
}

password_of_given :
    (cfg : AuthConfig) (random : Result String)
    → (cfg.password_auth && is_empty cfg.password) ≡ false
    → password_of cfg random ≡ reveal cfg.password
password_of_given cfg (ok pw) h = ground (arith, h)
password_of_given cfg (err e) h = refl

-- An Authorizer with passwords has one that is not empty.
with_random-strong :
    (cfg : AuthConfig) (random : Result String) (ks : List AuthorizedKey) (a : Authorizer)
    → ((pw : String) → random ≡ ok pw → (reveal (new_secret pw) == "") ≡ false)
    → (cfg.password_auth && is_empty cfg.password) ≡ true
    → with_random cfg ks random ≡ ok a
    → (password_of cfg random == "") ≡ false
unfolding with_random
with_random-strong cfg (err e) ks a strong fresh h = absurd (ground (arith, h))
with_random-strong cfg (ok pw) ks a strong fresh h = ground (arith, fresh, strong pw refl)

with_keys-strong :
    (cfg : AuthConfig) (random : Result String) (r : Result (List AuthorizedKey)) (a : Authorizer)
    → ((pw : String) → random ≡ ok pw → (reveal (new_secret pw) == "") ≡ false)
    → with_keys cfg random r ≡ ok a
    → cfg.password_auth ≡ true
    → (password_of cfg random == "") ≡ false
unfolding with_keys is_empty reveal
with_keys-strong cfg random (err e) a strong h on = absurd (ground (arith, h))
with_keys-strong cfg random (ok ks) a strong h on =
    elim (Bool-cases (cfg.password_auth && is_empty cfg.password)) [
      | inl fresh ↦ with_random-strong cfg random ks a strong fresh (rw fresh at h)
      | inr given ↦ ground (arith, given, on, password_of_given cfg random given)
    ]

permissions_of_lem :
    (fingerprint : String → String) (key : String) (o : Option AuthorizedKey)
    → accepted (permissions_of fingerprint key o) ≡ or_some o
unfolding permissions_of
permissions_of_lem fingerprint key none = refl
permissions_of_lem fingerprint key (some k) = refl

module _ (parse_key : String → Result KeyLine) (fingerprint : String → String) where
  abbrev Agrees : AuthConfig → FileRead → Result String → Authorizer → Type 0
  Agrees cfg file random a =
      (raw : String) (attempt : Attempt)
      → accepted (authenticate fingerprint a raw attempt) ≡ (
          named cfg.allowed_users (parse_login raw).user
          && presented parse_key cfg file random attempt)

  Finished-Agrees :
      (cfg : AuthConfig) (file : FileRead) (random : Result String) (ks : List AuthorizedKey)
      (pw : Value) (a : Authorizer)
      → Finished cfg ks pw a
      → Holds parse_key (lines_of parse_key cfg file) ks
      → reveal pw ≡ password_of cfg random
      → Agrees cfg file random a
  unfolding authenticate authenticate_none authenticate_key authenticate_password no_method
      presented permissions_of
  Finished-Agrees cfg file random ks pw a f held secret raw nothing =
      let user = (parse_login raw).user in
      let r : Result Permissions = ok (("gateway-auth", "none") ∷ []) in
      ground (arith, f.anonymous, held.1, check_user_lem a cfg.allowed_users user f.allowed r)
  Finished-Agrees cfg file random ks pw a f held secret raw (public_key key) =
      let user = (parse_login raw).user in
      let r = permissions_of fingerprint key (find_key a.keys key) in
      check_user_lem a cfg.allowed_users user f.allowed r
      ∙ ap (λ b. named cfg.allowed_users user && b)
          (permissions_of_lem fingerprint key (find_key a.keys key) ∙ rw f.keys (held.0 key))
  Finished-Agrees cfg file random ks pw a f held secret raw (password given) =
      let user = (parse_login raw).user in
      let r : Result Permissions =
        (if reveal a.password == given
          then ok (("gateway-auth", "password") ∷ [])
          else err (Failure.text "password rejected")) in
      ground (
        arith,
        f.password_auth,
        f.password,
        secret,
        check_user_lem a cfg.allowed_users user f.allowed r,
        eq_iff (reveal a.password) given,
        eq_iff given (password_of cfg random),
      )

  with_random-Agrees :
      (cfg : AuthConfig) (file : FileRead) (random : Result String) (ks : List AuthorizedKey)
      (a : Authorizer)
      → Holds parse_key (lines_of parse_key cfg file) ks
      → (cfg.password_auth && is_empty cfg.password) ≡ true
      → with_random cfg ks random ≡ ok a
      → Agrees cfg file random a
  unfolding with_random
  with_random-Agrees cfg file (err e) ks a held fresh h = absurd (ground (arith, h))
  with_random-Agrees cfg file (ok pw) ks a held fresh h =
      Finished-Agrees cfg file (ok pw) ks (new_secret pw) a
        (finish-Finished cfg ks (new_secret pw) true a h) held (ground (arith, fresh))

  with_keys-Agrees :
      (cfg : AuthConfig) (file : FileRead) (random : Result String)
      (r : Result (List AuthorizedKey)) (a : Authorizer)
      → ((ks : List AuthorizedKey) → r ≡ ok ks → Holds parse_key (lines_of parse_key cfg file) ks)
      → with_keys cfg random r ≡ ok a
      → Agrees cfg file random a
  unfolding with_keys
  with_keys-Agrees cfg file random (err e) a p h = absurd (ground (arith, h))
  with_keys-Agrees cfg file random (ok ks) a p h =
      elim (Bool-cases (cfg.password_auth && is_empty cfg.password)) [
        | inl fresh ↦ with_random-Agrees cfg file random ks a (p ks refl) fresh (rw fresh at h)
        | inr given ↦
            Finished-Agrees cfg file random ks cfg.password a
              (finish-Finished cfg ks cfg.password false a (rw given at h)) (p ks refl)
              (sym (password_of_given cfg random given))
      ]

  -- The gateway lets a client in exactly if its configuration says so. If New succeeds, a client with
  -- the name `raw` is accepted if and only if the user in that name is allowed and what the client
  -- presents is good: a key of one of the configured lines, the password if passwords are on, or
  -- nothing at all if that is allowed, passwords are off and no line holds a key.
  pub authenticate-new_authorizer :
      (cfg : AuthConfig) (file : FileRead) (random : Result String) (a : Authorizer)
      → new_authorizer parse_key cfg file random ≡ ok a
      → (raw : String) (attempt : Attempt)
      → accepted (authenticate fingerprint a raw attempt) ≡ (
          named cfg.allowed_users (parse_login raw).user
          && presented parse_key cfg file random attempt)
  unfolding new_authorizer
  authenticate-new_authorizer cfg file random a h =
      with_keys-Agrees cfg file random (load_keys parse_key cfg file) a
        (load_keys-Holds parse_key cfg file) h

  -- Where no anonymous client is allowed and the generated password is not blank, whoever is let in
  -- has shown a listed key, or a password that is not empty with passwords on, and names a user that
  -- is not empty.
  pub authenticate-Shown :
      (cfg : AuthConfig) (file : FileRead) (random : Result String) (a : Authorizer)
      → new_authorizer parse_key cfg file random ≡ ok a
      → cfg.allow_anonymous ≡ false
      → ((pw : String) → random ≡ ok pw → (reveal (new_secret pw) == "") ≡ false)
      → (raw : String) (attempt : Attempt)
      → accepted (authenticate fingerprint a raw attempt) ≡ true
      → Shown parse_key cfg file attempt × (((parse_login raw).user == "") ≡ false)
  unfolding presented named
  authenticate-Shown cfg file random a h closed strong raw nothing y = absurd (
      ground (arith, closed, sym (authenticate-new_authorizer cfg file random a h raw nothing) ∙ y))
  authenticate-Shown cfg file random a h closed strong raw (public_key key) y =
      ground (arith, sym (authenticate-new_authorizer cfg file random a h raw (public_key key)) ∙ y)
  authenticate-Shown cfg file random a h closed strong raw (password given) y = ground (
    arith,
    sym (authenticate-new_authorizer cfg file random a h raw (password given)) ∙ y,
    with_keys-strong cfg random (load_keys parse_key cfg file) a strong
        (unfold new_authorizer in h),
    eq_iff given (password_of cfg random),
    eq_iff given "",
    eq_iff (password_of cfg random) "",
  )
