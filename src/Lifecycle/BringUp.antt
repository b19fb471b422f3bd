-- ===== src/Lifecycle/BringUp.antt =====
-- core/lifecycle/ensure.go: ensure, for one goroutine.
use codespace_ssh_gateway.Shared.{ℕ, String, ◌⁺◌, Option, none, some, if◌then◌else◌}
use codespace_ssh_gateway.Providers.Environment.{
  Environment, State, connectable, startable, same_state, state_text,
}
use codespace_ssh_gateway.Providers.Errors.{Failure, Sentinel, Result, ok, err, is}
use codespace_ssh_gateway.Lifecycle.Phase.{Phase, phase_for_state}
use codespace_ssh_gateway.Lifecycle.States.{add_start}
use codespace_ssh_gateway.Lifecycle.World.{
  Oracle, Options, M, pure, ◌>>=◌, ◌>>◌, call_start, set_phase, observe, resolve, record_err, bump,
}
use codespace_ssh_gateway.Lifecycle.Ensure.{get, adopt, create, fail}
use codespace_ssh_gateway.Lifecycle.Watch.{Goal, wait_for}

module _ (o : Oracle) (opts : Options) (fuel : ℕ) where
  -- `m.setPhase(handle, PhaseRunning, reason); return env, nil`
  unfoldable pub arrive_at : String → Environment → String → M (Result Environment)
  arrive_at handle env reason = do set_phase o handle Phase.running reason; pure (ok env)

  unfoldable pub arrive : String → Result Environment → M (Result Environment)
  arrive handle (ok env) = arrive_at handle env "environment ready"
  arrive handle (err e) = do fail o handle e "did not become ready"; pure (err e)

  -- The last wait.
  unfoldable pub await : String → Environment → M (Result Environment)
  await handle env = do r ← wait_for o fuel handle env.id Goal.become_running; arrive handle r

  unfoldable pub after_start : String → Environment → Option Failure → M (Result Environment)
  after_start handle env (some e) = do
    fail o handle e "start failed"
    pure (err (Failure.wrap ("start environment " ⁺ (env.id ⁺ ": ")) "" e))
  after_start handle env none = do bump o handle add_start; await handle env

  -- `if env.State.Startable() { … } else { … }` and what follows
  unfoldable pub start_or_wait : String → Environment → M (Result Environment)
  start_or_wait handle env =
      if startable env.state
      then (do
        set_phase o handle Phase.starting "start requested for incoming ssh session"
        r ← call_start o env.id
        after_start handle env r)
      else (do
        set_phase o handle (phase_for_state env.state)
            ("environment already transitioning (" ⁺ (state_text env.state ⁺ ")"))
        await handle env)

  unfoldable pub after_stop : String → Result Environment → M (Result Environment)
  after_stop handle (err e) = do fail o handle e "waiting for shutdown failed"; pure (err e)
  after_stop handle (ok env) =
      if connectable env.state
      then arrive_at handle env "environment came back up on its own"
      else start_or_wait handle env

  -- An environment that is not yet connectable.
  unfoldable pub settle : String → Environment → M (Result Environment)
  settle handle env =
      if same_state env.state State.stopping
      then (do
        set_phase o handle Phase.stopping "environment is shutting down; waiting before starting it"
        r ← wait_for o fuel handle env.id Goal.stop_to_finish
        after_stop handle r)
      else start_or_wait handle env

  unfoldable pub bring_up : String → Result Environment → M (Result Environment)
  bring_up handle (err e) = pure (err e)
  bring_up handle (ok env) = do
    resolve o handle env
    observe o env
    if connectable env.state
        then arrive_at handle env "environment already running"
        else settle handle env

  unfoldable pub replace : String → Failure → Option Environment → M (Result Environment)
  replace handle e (some env) = pure (ok env)
  replace handle e none = if opts.auto_create then create o handle else (do
    record_err o handle e
    pure (err (Failure.wrap "auto-create is disabled (lifecycle.auto_create: false): " "" e)))

  -- What the lookup leads to: the environment to bring up, or the error to return.
  unfoldable pub found : String → Result Environment → M (Result Environment)
  found handle (ok env) = pure (ok env)
  found handle (err e) =
      if is e Sentinel.not_found
      then (do adopted ← adopt o handle; replace handle e adopted)
      else (do fail o handle e "lookup failed"; pure (err e))

  unfoldable pub ensure : String → M (Result Environment)
  ensure handle = do r ← get o handle; env ← found handle r; bring_up handle env
