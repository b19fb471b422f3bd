-- ===== src/Lifecycle/Connect.antt =====
-- core/lifecycle/connect.go, and Ensure for a caller that nobody joins: its operation runs to its
-- end before its select.
use codespace_ssh_gateway.Shared.{
  ℕ, zero, suc, ◌+◌, ◌*◌, String, ◌⁺◌, Bool, true, false, not, ◌||◌, ◌&&◌, Option, none, some, ◌==◌,
  string_eq, ltb, if◌then◌else◌,
}
use codespace_ssh_gateway.Providers.Environment.{Environment, no_environment, ConnectRequest}
use codespace_ssh_gateway.Providers.Errors.{Failure, Sentinel, Result, ok, err, is, is_temporary}
use codespace_ssh_gateway.Lifecycle.Phase.{Phase}
use codespace_ssh_gateway.Lifecycle.States.{add_connect, resolved_id}
use codespace_ssh_gateway.Lifecycle.World.{
  Oracle, Options, M, pure, ◌>>=◌, ◌>>◌, Ended, ended_error, Pause, Message, second, call_connect,
  call_stop, wait, tell, set_phase, bump,
}
use codespace_ssh_gateway.Lifecycle.Ensure.{fail}
use codespace_ssh_gateway.Lifecycle.BringUp.{ensure}

-- A connection is a number; the environment is returned beside an error too.
abbrev pub Connection : Type 0
Connection = Result ℕ × Environment

abbrev pub twice_below : ℕ → ℕ
twice_below backoff = if ltb backoff (15 * second) then backoff * 2 else backoff

-- The environment for the next attempt.
abbrev pub refreshed : Environment → Result Environment → Environment
refreshed env (ok env') = env'
refreshed env (err e) = env

module _ (o : Oracle) (opts : Options) (fuel : ℕ) where
  unfoldable pub selected : String → Result Environment → Option Ended → M (Result Environment)
  selected handle r none = pure r
  selected handle r (some ended) =
      pure
        (err (Failure.wrap ("waiting for environment " ⁺ (handle ⁺ ": ")) "" (ended_error ended)))

  unfoldable pub ensure_alone : String → M (Result Environment)
  ensure_alone handle =
      if handle == ""
      then pure
          (err (Failure.text "no environment selected (run `gateway codespace select <name>`)"))
      else (do r ← ensure o opts fuel handle; t ← wait o Pause.join; selected handle r t)

  unfoldable pub notify_client : String → ConnectRequest → Message → M (Unit {0})
  notify_client handle req message = if req.progress then tell o handle message else pure tt

  -- What follows the loop.
  unfoldable pub give_up : String → Environment → Failure → M Connection
  give_up handle env e = do
    fail o handle e "connect failed"
    pure (err (Failure.wrap ("connect to " ⁺ (env.id ⁺ ": ")) "" e), env)

  unfoldable pub dialled_with :
      (Failure → M Connection) → String → Environment → Result ℕ → M Connection
  dialled_with again handle env (ok conn) = do bump o handle add_connect; pure (ok conn, env)
  dialled_with again handle env (err e) =
      if not (is_temporary e) || is e Sentinel.auth then give_up handle env e else again e

  unfoldable pub dial : (Failure → M Connection) → String → Environment → M Connection
  dial again handle env = do r ← call_connect o env.id; dialled_with again handle env r

  -- The select before a further attempt.
  unfoldable pub after_backoff :
      (Environment → Failure → M Connection) → String → Environment → Option Ended → M Connection
  after_backoff again handle env (some ended) =
      pure (err (Failure.wrap ("connecting to " ⁺ (env.id ⁺ ": ")) "" (ended_error ended)), env)
  after_backoff again handle env none = do
    r ← ensure_alone handle
    dial (again (refreshed env r)) handle (refreshed env r)

  -- The rounds from the second on, `left` of them, with lastErr.
  unfoldable pub retries :
      ℕ → String → ConnectRequest → ℕ → ℕ → Environment → Failure → M Connection
  retries zero handle req attempt backoff env last = give_up handle env last
  retries (suc left) handle req attempt backoff env last = do
    notify_client handle req (Message.reconnecting attempt opts.connect_retries)
    t ← wait o (Pause.backoff backoff)
    after_backoff (retries left handle req (attempt + 1) (twice_below backoff)) handle env t

  unfoldable pub connect_to : String → ConnectRequest → Result Environment → M Connection
  connect_to handle req (err e) = pure (err e, no_environment)
  connect_to handle req (ok env) = do
    set_phase o handle Phase.connecting "opening session"
    dial (retries opts.connect_retries handle req 1 second env) handle env

  -- Connect
  unfoldable pub connect : String → ConnectRequest → M Connection
  connect handle req = do r ← ensure_alone handle; connect_to handle req r

module _ (o : Oracle) where
  unfoldable pub on_session_opened : String → M (Unit {0})
  on_session_opened handle = set_phase o handle Phase.connected "client session attached"

  unfoldable pub stop_result : String → String → Option Failure → M (Option Failure)
  stop_result handle id none = do set_phase o handle Phase.stopped "stopped on request"; pure none
  stop_result handle id (some e) = do
    fail o handle e "stop failed"
    pure (some (Failure.wrap ("stop environment " ⁺ (id ⁺ ": ")) "" e))

  unfoldable pub resolved : String → M String
  resolved handle w = some (resolved_id handle w.states, w)

  -- Stop
  unfoldable pub stop : String → M (Option Failure)
  stop handle = do
    id ← resolved handle
    set_phase o handle Phase.stopping "stop requested"
    r ← call_stop o id
    stop_result handle id r

  abbrev pub idle_reason : String
  idle_reason =
      if o.capabilities.provider_managed_idle
      then "last session closed; idle handling owned by " ⁺ o.capabilities.idle_mechanism
      else "last session closed; no gateway-side idle handling"

  -- OnSessionClosed, and whether it starts the goroutine that calls Stop.
  unfoldable pub on_session_closed : Options → String → ℕ → M Bool
  on_session_closed opts handle remaining =
      if ltb 0 remaining
      then pure false
      else if opts.stop_on_last_disconnect && o.capabilities.stop
      then (do
        set_phase o handle Phase.stopping "stop_on_last_disconnect: last session closed"
        pure true)
      else (do set_phase o handle Phase.provider_managed idle_reason; pure false)
