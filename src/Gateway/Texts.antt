-- ===== src/Gateway/Texts.antt =====
-- ssh/backend.go, ParseLogin, and core/logging/redact.go: what they read and what they leave alone.
use Prim.Native.String.{len}
use text.Mathlib.Text.{starts_with}
use text.Mathlib.TextLemmas.{cons-append, nil-append}
use codespace_ssh_gateway.Shared.{
  zero, String, ◌⁺◌, code, Bool, true, false, not, ◌&&◌, ◌||◌, List, [], ◌∷◌, ◌++◌, ◌≡◌, refl, ap,
  ◌∙◌, arith, inl, inr, Bool-cases, ◌==◌, nat_eq, string_eq, eq_iff, ltb,
}
use codespace_ssh_gateway.Gateway.Names.{parse_login}
use codespace_ssh_gateway.Gateway.Redact.{
  has, add_secret, add, replace_from, redact, min_redact_len,
}

unfoldable pub has_plus : String → Bool
has_plus String.[] = false
has_plus (String.◌∷◌ c s) = code c == b'+' || has_plus s

-- A login name without a plus sign, a plus sign and any environment are read as these two.
pub parse_login_lem :
    (user hint : String)
    → has_plus user ≡ false
    → parse_login (user ⁺ ("+" ⁺ hint)) ≡ record { user = user; environment_hint = hint }
unfolding parse_login has_plus
parse_login_lem String.[] hint h =
    rw (nil-append ("+" ⁺ hint), cons-append "+" String.[] hint, nil-append hint)
parse_login_lem (String.◌∷◌ c user) hint h =
    let tail : has_plus user ≡ false = ground (arith, h) in
    let head : (code c == b'+') ≡ false = ground (arith, h) in
    rw (cons-append c user ("+" ⁺ hint), head, parse_login_lem user hint tail)

-- Whether `t` occurs in `s`.
unfoldable pub occurs : String → String → Bool
occurs t String.[] = false
occurs t (String.◌∷◌ c s) = starts_with (String.◌∷◌ c s) t || occurs t s

unfoldable pub any_occurs : List String → String → Bool
any_occurs [] s = false
any_occurs (t ∷ secrets) s = occurs t s || any_occurs secrets s

replace_absent : (t new s : String) → occurs t s ≡ false → replace_from zero t new s ≡ s
unfolding replace_from occurs
replace_absent t new String.[] h = refl
replace_absent t new (String.◌∷◌ c s) h =
    let here : starts_with (String.◌∷◌ c s) t ≡ false = ground (arith, h) in
    let later : occurs t s ≡ false = ground (arith, h) in rw (here, replace_absent t new s later)

-- Redact leaves a text alone in which no registered secret occurs.
pub redact_absent :
    (secrets : List String) (s : String) → any_occurs secrets s ≡ false → redact secrets s ≡ s
unfolding redact any_occurs
redact_absent [] s h = refl
redact_absent (t ∷ secrets) s h =
    ap (redact secrets) (replace_absent t "***" s (ground (arith, h)))
    ∙ redact_absent secrets s (ground (arith, h))

-- A list of secrets with no repetition, each long enough to be one.
unfoldable pub are_secrets : List String → Bool
are_secrets [] = true
are_secrets (s ∷ ss) = not (ltb (len s) min_redact_len) && (not (has ss s) && are_secrets ss)

has-append : (xs : List String) (y s : String) → has (xs ++ (y ∷ [])) s ≡ (has xs s || y == s)
unfolding has
has-append [] y s = ground arith
has-append (x ∷ xs) y s = ground (arith, has-append xs y s)

are_secrets-append :
    (xs : List String) (y : String)
    → are_secrets xs ≡ true
    → ltb (len y) min_redact_len ≡ false
    → has xs y ≡ false
    → are_secrets (xs ++ (y ∷ [])) ≡ true
unfolding are_secrets has
are_secrets-append [] y h long new = ground (arith, long)
are_secrets-append (x ∷ xs) y h long new = ground (
  arith,
  h,
  long,
  new,
  has-append xs y x,
  eq_iff x y,
  eq_iff y x,
  are_secrets-append xs y (ground (arith, h)) long (ground (arith, new)),
)

add_secret-are_secrets :
    (xs : List String) (y : String) → are_secrets xs ≡ true → are_secrets (add_secret xs y) ≡ true
unfolding add_secret
add_secret-are_secrets xs y h = elim (Bool-cases (ltb (len y) min_redact_len)) [
  | inl short ↦ rw short h
  | inr long ↦ elim (Bool-cases (has xs y)) [
    | inl old ↦ rw (long, old) h
    | inr new ↦ rw (long, new) (are_secrets-append xs y h long new)
  ]
]

-- Add keeps a list of secrets free of repetitions and of values too short to be one.
pub add-are_secrets : (xs ys : List String) → are_secrets xs ≡ true → are_secrets (add xs ys) ≡ true
unfolding add
add-are_secrets xs [] h = h
add-are_secrets xs (y ∷ ys) h = add-are_secrets (add_secret xs y) ys (add_secret-are_secrets xs y h)
