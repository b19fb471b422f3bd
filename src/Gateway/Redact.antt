-- ===== src/Gateway/Redact.antt =====
-- core/logging/redact.go
use Prim.Native.String.{len}
use text.Mathlib.Text.{starts_with}
use codespace_ssh_gateway.Shared.{
  ℕ, zero, suc, ◌-◌, String, ◌⁺◌, Bool, false, ◌||◌, List, [], ◌∷◌, ◌++◌, ◌==◌, string_eq, ltb,
  if◌then◌else◌,
}

abbrev pub min_redact_len : ℕ
min_redact_len = 8

-- has
unfoldable pub has : List String → String → Bool
has [] s = false
has (t ∷ secrets) s = t == s || has secrets s

-- Add, of one secret
unfoldable pub add_secret : List String → String → List String
add_secret secrets s =
    if ltb (len s) min_redact_len
    then secrets
    else if has secrets s
    then secrets
    else secrets ++ (s ∷ [])

-- Add
unfoldable pub add : List String → List String → List String
add secrets [] = secrets
add secrets (s ∷ ss) = add (add_secret secrets s) ss

-- The characters of a text.
unfoldable pub count : String → ℕ
count String.[] = 0
count (String.◌∷◌ c s) = suc (count s)

-- strings.ReplaceAll, for a text `old` that is not empty; `skip` characters belong to a match.
unfoldable pub replace_from : ℕ → String → String → String → String
replace_from skip old new String.[] = ""
replace_from (suc skip) old new (String.◌∷◌ c s) = replace_from skip old new s
replace_from zero old new (String.◌∷◌ c s) =
    let past = replace_from (count old - 1) old new s in
    let on = replace_from zero old new s in
    if starts_with (String.◌∷◌ c s) old then new ⁺ past else String.◌∷◌ c on

-- Redact; ReplaceAll of a secret that does not occur changes nothing.
unfoldable pub redact : List String → String → String
redact [] s = s
redact (t ∷ secrets) s = redact secrets (replace_from 0 t "***" s)
