-- ===== src/Github/HostKeys.antt =====
-- providers/github/keys.go: the pinned host keys of codespaces. A key is the text of
-- gossh.MarshalAuthorizedKey. The answers of the file system are parameters: what reading the file
-- gives, and whether writing it fails.
use codespace_ssh_gateway.Shared.{
  ℕ, suc, String, code, ◌⁺◌, ◌||◌, Option, none, some, List, [], ◌∷◌, ◌==◌, nat_eq, string_eq,
  if◌then◌else◌,
}
use codespace_ssh_gateway.Shared.Map.{Map, get, put}
use codespace_ssh_gateway.Gateway.Names.{trim_space}
use codespace_ssh_gateway.Providers.Errors.{Failure, Result, ok, err}
use codespace_ssh_gateway.Ssh.Auth.{FileRead, contents, missing, unreadable, split_lines, skipped}

-- strings.Cut(line, " ")
abbrev pub cut_on : String → Option (String × String) → Option (String × String)
cut_on c none = none
cut_on c (some (before, after)) = some (c ⁺ before, after)

unfoldable pub cut_space : String → Option (String × String)
cut_space String.[] = none
cut_space (String.◌∷◌ c s) =
    let rest = cut_on (String.◌∷◌ c "") (cut_space s) in if code c == 32 then some ("", s) else rest

abbrev pub pin : Option (String × String) → Map String → Map String
pin none out = out
pin (some (name, key)) out = put out name (trim_space key ⁺ "\n")

-- The loop of load.
unfoldable pub load_lines : List String → Map String → Map String
load_lines [] out = out
load_lines (line ∷ lines) out =
    load_lines lines
      (if skipped (trim_space line) then out else pin (cut_space (trim_space line)) out)

unfoldable pub load : FileRead → Result (Map String)
load (contents raw) = ok (load_lines (split_lines raw) [])
load missing = ok []
load (unreadable e) = err e

-- The text of the file, with no file as an empty one.
abbrev pub text_of : FileRead → String
text_of (contents raw) = raw
text_of missing = ""
text_of (unreadable e) = ""

-- appendLocked, with the file that it leaves
unfoldable pub append_locked :
    String → String → Option Failure → FileRead → Option Failure × FileRead
append_locked name key (some e) file = (some e, file)
append_locked name key none file =
    (none, contents (text_of file ⁺ (name ⁺ (" " ⁺ (trim_space key ⁺ "\n")))))

-- check, after the policy insecure, with the file that it leaves
module _ (policy name key fingerprint : String) (fails : Option Failure) (file : FileRead) where
  unfoldable pub check_pinned : Option String → Option Failure × FileRead
  check_pinned (some pinned) = if pinned == key then (none, file) else (
    some (
        Failure.text (
          "host key for codespace "
          ⁺ (name
              ⁺ (" changed (now "
                  ⁺ (fingerprint
                      ⁺ ("). If the codespace was rebuilt this is expected: run `gateway codespace forget-host-key "
                          ⁺ (name ⁺ "` and reconnect"))))))),
    file,
  )
  check_pinned none =
      if policy == "strict"
      then (
        some (
            Failure.text (
              "codespace "
              ⁺ (name
                  ⁺ (" has no pinned host key and host_key_policy is strict (fingerprint "
                      ⁺ (fingerprint ⁺ ")"))))),
        file,
      )
      else append_locked name key fails file

  unfoldable pub check_known : Result (Map String) → Option Failure × FileRead
  check_known (err e) = (some e, file)
  check_known (ok known) = check_pinned (get known name)

  -- check
  unfoldable pub check : Option Failure × FileRead
  check = if policy == "insecure" then (none, file) else check_known (load file)

-- The loop of Forget, over an order of the map: how many are dropped, and the text of the others.
unfoldable pub keep_others : String → Map String → ℕ × String
keep_others name [] = (0, "")
keep_others name ((k, v) ∷ known) =
    let rest = keep_others name known in
    if (name == "") || (k == name) then (suc rest.0, rest.1) else (rest.0, k ⁺ (" " ⁺ (v ⁺ rest.1)))

abbrev pub kept : ℕ × String → FileRead → FileRead
kept (removed, text) file =
    if removed == 0 then file else if text == "" then missing else contents text

-- Forget, of a known map in the order in which Go goes through it, where no write fails
unfoldable pub forget_from : String → Map String → FileRead → ℕ × FileRead
forget_from name known file = let r = keep_others name known in (r.0, kept r file)
