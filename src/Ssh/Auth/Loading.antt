-- ===== src/Ssh/Auth/Loading.antt =====
-- ssh/auth.go, the keys that NewAuthorizer reads.
use codespace_ssh_gateway.Shared.{
  ℕ, suc, String, false, ◌&&◌, ◌||◌, List, [], ◌∷◌, ◌++◌, ◌==◌, string_eq, if◌then◌else◌, ◌≡◌,
  subst, refl, arith, inl, inr, Bool-cases,
}
use codespace_ssh_gateway.Providers.Errors.{Result, ok, err}
use codespace_ssh_gateway.Gateway.Names.{trim_space}
use codespace_ssh_gateway.Ssh.Auth.{
  AuthConfig, AuthorizedKey, KeyLine, FileRead, contents, missing, unreadable, split_lines, skipped,
  without, without_options, first_key, both_keys, no_keys, parse_authorized_key, inline_keys,
  file_keys, read_keys, load_keys,
}
use codespace_ssh_gateway.Ssh.Auth.Checking.{find_key}
use codespace_ssh_gateway.Ssh.Auth.Policy.{
  or_some, is_nil, key_lines, file_lines, is_key, lists, lines_of,
}

find_key-append :
    (ks ls : List AuthorizedKey) (key : String)
    → or_some (find_key (ks ++ ls) key) ≡ (or_some (find_key ks key) || or_some (find_key ls key))
unfolding find_key
find_key-append [] ls key = refl
find_key-append (k ∷ ks) ls key = ground (arith, find_key-append ks ls key)

no_keys-append : (ks ls : List AuthorizedKey) → no_keys (ks ++ ls) ≡ (no_keys ks && no_keys ls)
unfolding no_keys
no_keys-append [] ls = refl
no_keys-append (k ∷ ks) ls = refl

is_nil-append : (xs ys : List String) → is_nil (xs ++ ys) ≡ (is_nil xs && is_nil ys)
is_nil-append [] ys = refl
is_nil-append (x ∷ xs) ys = refl

module _ (parse_key : String → Result KeyLine) where
  -- What the lines that were read hold, and whether there is one.
  abbrev pub Holds : List String → List AuthorizedKey → Type 0
  Holds lines ks =
      ((key : String) → or_some (find_key ks key) ≡ lists parse_key lines key)
      × (no_keys ks ≡ is_nil lines)

  abbrev HoldsNext : Result KeyLine → List String → List AuthorizedKey → Type 0
  HoldsNext r lines ks =
      ((key : String)
        → or_some (find_key ks key) ≡ (is_key parse_key key r || lists parse_key lines key))
      × (no_keys ks ≡ false)

  without-Holds :
      (place source : String) (line : KeyLine) (options lines : List String)
      (rest : Result (List AuthorizedKey))
      → ((ks : List AuthorizedKey) → rest ≡ ok ks → Holds lines ks)
      → (ks : List AuthorizedKey) → first_key place source (without line options) rest ≡ ok ks
      → HoldsNext (ok line) lines ks
  unfolding first_key find_key no_keys
  without-Holds place source line (o ∷ os) lines rest ih ks h = absurd (ground (arith, h))
  without-Holds place source line [] lines (err e) ih ks h = absurd (ground (arith, h))
  without-Holds place source line [] lines (ok ks₁) ih ks h =
      let p = ih ks₁ refl in (λ key. ground (arith, h, p.0 key), ground (arith, h))

  first_key-Holds :
      (place source : String) (r : Result KeyLine) (lines : List String)
      (rest : Result (List AuthorizedKey))
      → ((ks : List AuthorizedKey) → rest ≡ ok ks → Holds lines ks)
      → (ks : List AuthorizedKey) → first_key place source (without_options r) rest ≡ ok ks
      → HoldsNext r lines ks
  unfolding first_key without_options
  first_key-Holds place source (err e) lines rest ih ks h = absurd (ground (arith, h))
  first_key-Holds place source (ok line) lines rest ih ks h =
      without-Holds place source line line.options lines rest ih ks h

  inline_keys-Holds :
      (i : ℕ) (lines : List String) (ks : List AuthorizedKey)
      → inline_keys parse_key i lines ≡ ok ks
      → Holds lines ks
  unfolding inline_keys lists find_key no_keys parse_authorized_key
  inline_keys-Holds i [] ks h = (λ key. ground (arith, h), ground (arith, h))
  inline_keys-Holds i (line ∷ lines) ks h =
      first_key-Holds _ "config" (parse_key line) lines (inline_keys parse_key (suc i) lines)
        (inline_keys-Holds (suc i) lines) ks h

  file_keys-Holds :
      (path : String) (n : ℕ) (lines : List String) (ks : List AuthorizedKey)
      → file_keys parse_key path n lines ≡ ok ks
      → Holds (key_lines lines) ks
  unfolding file_keys lists find_key no_keys key_lines parse_authorized_key
  file_keys-Holds path n [] ks h = (λ key. ground (arith, h), ground (arith, h))
  file_keys-Holds path n (line ∷ lines) ks h = elim (Bool-cases (skipped (trim_space line))) [
    | inl skip ↦ rw skip (file_keys-Holds path (suc n) lines ks (rw skip at h))
    | inr held ↦ rw held (
        first_key-Holds _ path (parse_key (trim_space line)) (key_lines lines)
          (file_keys parse_key path (suc n) lines) (file_keys-Holds path (suc n) lines) ks
          (rw held at h))
  ]

  read_keys-Holds :
      (path : String) (file : FileRead) (ks : List AuthorizedKey)
      → read_keys parse_key path file ≡ ok ks
      → Holds (file_lines file) ks
  unfolding read_keys file_lines lists find_key no_keys
  read_keys-Holds path (contents raw) ks h = file_keys-Holds path 0 (split_lines raw) ks h
  read_keys-Holds path missing ks h = (λ key. ground (arith, h), ground (arith, h))
  read_keys-Holds path (unreadable e) ks h = absurd (ground (arith, h))

  lists-append :
      (xs ys : List String) (key : String)
      → lists parse_key (xs ++ ys) key ≡ (lists parse_key xs key || lists parse_key ys key)
  unfolding lists
  lists-append [] ys key = refl
  lists-append (x ∷ xs) ys key = ground (arith, lists-append xs ys key)

  both_keys-Holds :
      (xs ys : List String) (r₁ r₂ : Result (List AuthorizedKey))
      → ((ks : List AuthorizedKey) → r₁ ≡ ok ks → Holds xs ks)
      → ((ks : List AuthorizedKey) → r₂ ≡ ok ks → Holds ys ks)
      → (ks : List AuthorizedKey) → both_keys r₁ r₂ ≡ ok ks
      → Holds (xs ++ ys) ks
  unfolding both_keys
  both_keys-Holds xs ys (err e) r₂ p q ks h = absurd (ground (arith, h))
  both_keys-Holds xs ys (ok a) (err e) p q ks h = absurd (ground (arith, h))
  both_keys-Holds xs ys (ok a) (ok b) p q ks h =
      let e : a ++ b ≡ ks = ground (arith, h) in
      let P = p a refl in
      let Q = q b refl in
      subst (Holds (xs ++ ys)) e (
        λ key. rw (find_key-append a b key, lists-append xs ys key, P.0 key, Q.0 key) refl,
        rw (no_keys-append a b, is_nil-append xs ys, P.1, Q.1) refl,
      )

  named_file-Holds :
      (path : String) (file : FileRead) (ks : List AuthorizedKey)
      → (if path == "" then ok [] else read_keys parse_key path file) ≡ ok ks
      → Holds (if path == "" then [] else file_lines file) ks
  unfolding lists find_key no_keys
  named_file-Holds path file ks h = elim (Bool-cases (path == "")) [
    | inl e ↦ rw e (λ key. ground (arith, rw e at h), ground (arith, rw e at h))
    | inr e ↦ rw e (read_keys-Holds path file ks (rw e at h))
  ]

  pub load_keys-Holds :
      (cfg : AuthConfig) (file : FileRead) (ks : List AuthorizedKey)
      → load_keys parse_key cfg file ≡ ok ks
      → Holds (lines_of parse_key cfg file) ks
  unfolding load_keys lines_of
  load_keys-Holds cfg file ks h =
      both_keys-Holds cfg.authorized_keys_inline
        (if cfg.authorized_keys_file == "" then [] else file_lines file)
        (inline_keys parse_key 0 cfg.authorized_keys_inline)
        (if cfg.authorized_keys_file == ""
          then ok []
          else read_keys parse_key cfg.authorized_keys_file file)
        (inline_keys-Holds 0 cfg.authorized_keys_inline)
        (named_file-Holds cfg.authorized_keys_file file) ks h
