-- ===== src/Github/Options.antt =====
-- providers/github/lifecycle.go: mergeCreateOptions, over the options in the order in which Go goes
-- through their map.
use codespace_ssh_gateway.Shared.{
  ℕ, ◌+◌, ◌-◌, ◌*◌, ◌^◌, String, code, ◌⁺◌, not, ◌&&◌, ◌||◌, Option, none, some, [], ◌∷◌, ◌==◌,
  nat_eq, string_eq, ltb, leb, if◌then◌else◌,
}
use codespace_ssh_gateway.Shared.Map.{Map}
use codespace_ssh_gateway.Shared.Integers.{ℤ, pos, negsuc}
use codespace_ssh_gateway.Gateway.Names.{trim_space}
use codespace_ssh_gateway.Providers.Errors.{Failure, Result, ok, err, quoted}
use codespace_ssh_gateway.Github.Sources.{CreateConfig}
use codespace_ssh_gateway.Github.Creating.{slashes}

-- The dynamic types that asInt tells apart. A float comes with what `int(v)` makes of it, and each
-- value that is no text with what fmt.Sprint prints.
pub data Value : Type 0 where
  int_value int64_value float_value : ℤ → String → Value
  text_value : String → Value
  other_value : String → Value

-- fmt.Sprint
unfoldable pub print : Value → String
print (int_value n shown) = shown
print (int64_value n shown) = shown
print (float_value n shown) = shown
print (text_value s) = s
print (other_value shown) = shown

-- strconv.Atoi
unfoldable pub all_digits : ℕ → String → Option ℕ
all_digits acc String.[] = some acc
all_digits acc (String.◌∷◌ c s) =
    let rest = all_digits (acc * 10 + (code c - b'0')) s in
    if leb b'0' (code c) && leb (code c) b'9' then rest else none

unfoldable pub unsigned : String → Option ℕ
unsigned String.[] = none
unsigned (String.◌∷◌ c s) = all_digits 0 (String.◌∷◌ c s)

abbrev pub at_most : Option ℕ → Option ℤ
at_most none = none
at_most (some n) = if ltb n (2 ^ 63) then some (pos n) else none

abbrev pub negated : Option ℕ → Option ℤ
negated none = none
negated (some n) =
    if n == 0 then some (pos 0) else if leb n (2 ^ 63) then some (negsuc (n - 1)) else none

unfoldable pub atoi : String → Option ℤ
atoi String.[] = none
atoi (String.◌∷◌ c s) =
    if code c == b'-'
    then negated (unsigned s)
    else if code c == b'+'
    then at_most (unsigned s)
    else at_most (unsigned (String.◌∷◌ c s))

abbrev pub parsed : String → Option ℤ → Result ℤ
parsed s none = err (Failure.text (quoted s ⁺ " is not a number"))
parsed s (some n) = ok n

unfoldable pub as_int : Value → Result ℤ
as_int (int_value n shown) = ok n
as_int (int64_value n shown) = ok n
as_int (float_value n shown) = ok n
as_int (text_value s) = parsed s (atoi (trim_space s))
as_int (other_value shown) = err (Failure.text (shown ⁺ " is not a number"))

abbrev pub option_of : String → (ℤ → CreateConfig) → Result ℤ → Result CreateConfig
option_of key f (ok n) = ok (f n)
option_of key f (err e) = err (Failure.wrap ("option " ⁺ (key ⁺ ": ")) "" e)

-- The body of the loop.
unfoldable pub set_option : String → Value → CreateConfig → Result CreateConfig
set_option key raw c =
    if key == "repository"
    then ok (record c { repository = print raw })
    else if (key == "branch") || (key == "ref")
    then ok (record c { branch = print raw })
    else if key == "machine"
    then ok (record c { machine = print raw })
    else if key == "location"
    then ok (record c { location = print raw })
    else if key == "devcontainer_path"
    then ok (record c { devcontainer_path = print raw })
    else if key == "display_name"
    then ok (record c { display_name = print raw })
    else if key == "idle_timeout_minutes"
    then option_of key (λ n. record c { idle_timeout_minutes = n }) (as_int raw)
    else if key == "retention_period_minutes"
    then option_of key (λ n. record c { retention_period_minutes = n }) (as_int raw)
    else err (Failure.text ("unknown create option " ⁺ (quoted key ⁺ " for the github provider")))

abbrev pub go_on : Result CreateConfig → (CreateConfig → Result CreateConfig) → Result CreateConfig
go_on (ok c) f = f c
go_on (err e) f = err e

unfoldable pub set_options : Map Value → CreateConfig → Result CreateConfig
set_options [] c = ok c
set_options ((key, raw) ∷ opts) c = go_on (set_option key raw c) (set_options opts)

abbrev pub named : Result CreateConfig → Result CreateConfig
named (err e) = err e
named (ok c) =
    if not (c.repository == "") && not (slashes c.repository == 1)
    then err (Failure.text ("repository " ⁺ (quoted c.repository ⁺ " must be owner/name")))
    else ok c

-- mergeCreateOptions
unfoldable pub merge_create_options : CreateConfig → Map Value → Result CreateConfig
merge_create_options base opts = named (set_options opts base)
