-- ===== src/Gateway/Names.antt =====
-- The names that a client may give: ssh/backend.go, ParseLogin, and core/gateway/backend.go,
-- validEnvironmentName. A text is read by its characters.
use Prim.Native.String.{len}
use codespace_ssh_gateway.Shared.{
  ℕ, ◌⁺◌, String, Char, code, Bool, true, ◌&&◌, ◌||◌, Option, none, some, ◌==◌, nat_eq, ltb, leb,
  if◌then◌else◌,
}
use codespace_ssh_gateway.Providers.Errors.{Failure, quoted}

pub record Login : Type 0 where
  pub user : String
  pub environment_hint : String

-- `raw[:i]` and `raw[i+1:]`, around the first plus sign.
abbrev pub before_plus : Char → Login → Login
before_plus c l = record l { user = String.◌∷◌ c l.user }

-- ParseLogin
unfoldable pub parse_login : String → Login
parse_login String.[] = record { user = ""; environment_hint = "" }
parse_login (String.◌∷◌ c raw) =
    let rest = parse_login raw in
    if code c == b'+' then record { user = ""; environment_hint = raw } else before_plus c rest

abbrev pub within : ℕ → ℕ → ℕ → Bool
within lo hi n = leb lo n && leb n hi

-- The two cases of the switch.
unfoldable pub name_char : Char → Bool
name_char c =
    within b'a' b'z' (code c)
    || (within b'A' b'Z' (code c)
        || (within b'0' b'9' (code c)
            || (code c == b'-' || (code c == b'_' || (code c == b'.' || code c == b' ')))))

unfoldable pub name_chars : String → Bool
name_chars String.[] = true
name_chars (String.◌∷◌ c s) = name_char c && name_chars s

-- validEnvironmentName
unfoldable pub valid_environment_name : String → Option Failure
valid_environment_name name =
    if ltb 200 (len name)
    then some (Failure.text "environment name is too long")
    else if name_chars name
    then none
    else some
        (Failure.text ("environment name " ⁺ (quoted name ⁺ " contains unsupported characters")))

-- unicode.IsSpace
unfoldable pub space : Char → Bool
space c =
    within 9 13 (code c)
    || (code c == 32
        || (code c == 0x85
            || (code c == 0xa0
                || (code c == 0x1680
                    || (within 0x2000 0x200a (code c)
                        || (code c == 0x2028
                            || (code c == 0x2029
                                || (code c == 0x202f
                                    || (code c == 0x205f || code c == 0x3000)))))))))

unfoldable pub trim_left : String → String
trim_left String.[] = ""
trim_left (String.◌∷◌ c s) = let rest = trim_left s in if space c then rest else String.◌∷◌ c s

abbrev pub keep_if_text : Char → String → String
keep_if_text c String.[] = if space c then "" else String.◌∷◌ c ""
keep_if_text c (String.◌∷◌ d s) = String.◌∷◌ c (String.◌∷◌ d s)

unfoldable pub trim_right : String → String
trim_right String.[] = ""
trim_right (String.◌∷◌ c s) = keep_if_text c (trim_right s)

-- strings.TrimSpace
unfoldable pub trim_space : String → String
trim_space s = trim_right (trim_left s)
