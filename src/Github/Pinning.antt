-- ===== src/Github/Pinning.antt =====
-- providers/github/keys.go: what becomes of a pinned host key.
use codespace_ssh_gateway.Shared.{
  String, false, Option, none, some, ◌==◌, nat_eq, string_eq, eq_iff, ◌≡◌, ◌↔◌, refl, arith, inl,
  inr, Bool-cases,
}
use codespace_ssh_gateway.Shared.Map.{Map, get}
use codespace_ssh_gateway.Providers.Errors.{Failure, ok}
use codespace_ssh_gateway.Ssh.Auth.{FileRead}
use codespace_ssh_gateway.Github.HostKeys.{load, check_pinned, check_known, check}

pinned_lem :
    (policy name key fingerprint : String) (fails : Option Failure) (file : FileRead)
    (pinned : String)
    → ((check_pinned policy name key fingerprint fails file (some pinned)).1 ≡ file)
      × (((check_pinned policy name key fingerprint fails file (some pinned)).0 ≡ none)
          ↔ (pinned ≡ key))
unfolding check_pinned
pinned_lem policy name key fingerprint fails file pinned = elim (Bool-cases (pinned == key)) [
  | inl e ↦ rw e (refl, (λ h. (eq_iff pinned key).0 e, λ h. refl))
  | inr e ↦ rw e (
    refl,
    (λ h. absurd (ground (arith, h)), λ h. absurd (ground (arith, e, (eq_iff pinned key).1 h))),
  )
]

-- Under every policy but insecure, a codespace with a pinned key is accepted with that key and with no
-- other, and the file stays as it is. Under strict a codespace without one is refused.
pub check_lem :
    (policy name key fingerprint : String) (fails : Option Failure) (file : FileRead)
    (known : Map String)
    → (policy == "insecure") ≡ false
    → load file ≡ ok known
    → (pinned : String) → get known name ≡ some pinned
    → ((check policy name key fingerprint fails file).1 ≡ file)
      × (((check policy name key fingerprint fails file).0 ≡ none) ↔ (pinned ≡ key))
unfolding check check_known
check_lem policy name key fingerprint fails file known p l pinned g =
    rw (p, l, g) (pinned_lem policy name key fingerprint fails file pinned)
