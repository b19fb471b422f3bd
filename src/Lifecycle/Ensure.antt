-- ===== src/Lifecycle/Ensure.antt =====
-- core/lifecycle/ensure.go: get, adopt and create, for one goroutine.
use codespace_ssh_gateway.Shared.{
  ℕ, zero, suc, ◌+◌, String, ◌⁺◌, Option, none, some, List, [], ◌∷◌, nat_eq, string_eq, ltb,
  if◌then◌else◌,
}
use codespace_ssh_gateway.Providers.Environment.{Environment}
use codespace_ssh_gateway.Providers.Errors.{Failure, Result, ok, err, is_temporary, quoted}
use codespace_ssh_gateway.Lifecycle.Phase.{Phase}
use codespace_ssh_gateway.Lifecycle.States.{add_create}
use codespace_ssh_gateway.Lifecycle.World.{
  Oracle, M, pure, ◌>>=◌, ◌>>◌, Ended, ended_error, Pause, Message, call_get, call_list,
  call_create, wait, tell, set_phase, record_err, bump,
}

module _ (o : Oracle) where
  -- The body of get's loop; `again` is the next round, with the error of this one.
  unfoldable pub retry_or :
      (Failure → M (Result Environment)) → String → ℕ → Result Environment → M (Result Environment)
  retry_or again id attempt (ok env) = pure (ok env)
  retry_or again id attempt (err e) =
      if is_temporary e
      then (do tell o id (Message.retrying (attempt + 1)); again e)
      else pure (err e)

  unfoldable pub get_after :
      (Failure → M (Result Environment)) → String → ℕ → Option Ended → M (Result Environment)
  get_after again id attempt (some ended) = pure (err (ended_error ended))
  get_after again id attempt none = do r ← call_get o id; retry_or again id attempt r

  -- The rounds of `for attempt := 0; attempt < 3; attempt++`, with lastErr.
  unfoldable pub get_rounds : ℕ → String → ℕ → Failure → M (Result Environment)
  get_rounds zero id attempt last = pure (err last)
  get_rounds (suc left) id attempt last = do
    ended ← if ltb 0 attempt then wait o Pause.retry else pure none
    get_after (get_rounds left id (attempt + 1)) id attempt ended

  -- get; the loop body sets lastErr before it is returned.
  unfoldable pub get : String → M (Result Environment)
  get id = get_rounds 3 id 0 (Failure.text "")

  unfoldable pub adopt_from : String → Result (List Environment) → M (Option Environment)
  adopt_from handle (ok (env ∷ [])) = do
    tell o handle (Message.adopted handle env.id)
    pure (some env)
  adopt_from handle _ = pure none

  unfoldable pub adopt : String → M (Option Environment)
  adopt handle = do envs ← call_list o; adopt_from handle envs

  -- `m.recordErr(handle, err); m.setPhase(handle, PhaseFailed, reason)`
  unfoldable pub fail : String → Failure → String → M (Unit {0})
  fail handle e reason = do record_err o handle e; set_phase o handle Phase.failed reason

  unfoldable pub create_result : String → Result Environment → M (Result Environment)
  create_result handle (ok env) = do bump o handle add_create; pure (ok env)
  create_result handle (err e) = do
    fail handle e "create failed"
    pure (err (Failure.wrap ("create environment " ⁺ (quoted handle ⁺ ": ")) "" e))

  unfoldable pub create : String → M (Result Environment)
  create handle = do
    set_phase o handle Phase.provisioning "environment does not exist, creating it"
    r ← call_create o handle
    create_result handle r
