-- ===== src/Lifecycle/Watch.antt =====
-- core/lifecycle/ensure.go: waitFor, for one goroutine. The rounds of its loop are bounded by fuel;
-- Lifecycle/Halting shows when they are enough.
use codespace_ssh_gateway.Shared.{
  ℕ, zero, suc, ◌+◌, ◌-◌, ◌*◌, String, ◌⁺◌, Bool, not, Option, none, some, ltb, leb, ◌&&◌,
  if◌then◌else◌,
}
use codespace_ssh_gateway.Providers.Environment.{
  Environment, State, connectable, same_state, state_text,
}
use codespace_ssh_gateway.Providers.Errors.{
  Failure, Sentinel, Result, ok, err, is, is_temporary, quoted,
}
use codespace_ssh_gateway.Lifecycle.World.{
  Oracle, M, pure, ◌>>=◌, ◌>>◌, Ended, ended_error, Pause, Message, second, call_get, wait, clock,
  tell, observe,
}

-- The variables of the loop.
pub record Watch : Type 0 where
  pub last : State
  pub fails : ℕ
  pub last_notify : ℕ

-- The two calls of waitFor, by what they wait for.
pub data Goal : Type 0 where
  stop_to_finish become_running : Goal

unfoldable pub goal_text : Goal → String
goal_text stop_to_finish = "stop to finish"
goal_text become_running = "environment to become RUNNING"

-- done(state)
unfoldable pub reached : Goal → State → Bool
reached stop_to_finish s = not (same_state s State.stopping)
reached become_running s = connectable s

-- The error of a state that waitFor does not wait behind.
unfoldable pub terminal : String → String → Environment → Option Failure
terminal provider id env =
    if same_state env.state State.failed
    then some (
        Failure.text (
          "environment "
          ⁺ (id ⁺ (" failed to start (provider state " ⁺ (quoted env.native_state ⁺ ")")))))
    else if same_state env.state State.not_found
    then some (Failure.not_found_error provider id)
    else none

module _ (o : Oracle) where
  unfoldable pub timed_out_error : Goal → String → State → Ended → Failure
  timed_out_error goal id last ended =
      Failure.wrap
        ("timed out waiting for "
          ⁺ (goal_text goal ⁺ (" on " ⁺ (id ⁺ (" (last state " ⁺ (state_text last ⁺ "): "))))))
        "" (ended_error ended)

  -- The line that is due every five seconds, and the new lastNotify.
  unfoldable pub remind_at : String → Environment → ℕ → Watch → ℕ → M ℕ
  remind_at handle env started_at v now =
      if leb (v.last_notify + 5 * second) now
      then (do tell o handle (Message.still_waiting env.native_state (now - started_at)); pure now)
      else pure v.last_notify

  unfoldable pub remind : String → Environment → ℕ → Watch → M ℕ
  remind handle env started_at v = do now ← clock o; remind_at handle env started_at v now

  unfoldable pub go_on :
      (Watch → M (Result Environment)) → Watch → ℕ → Option Failure → M (Result Environment)
  go_on again v notified (some e) = pure (err e)
  go_on again v notified none = again (record v { last_notify = notified })

  -- A state that is not the goal's.
  unfoldable pub short_of :
      (Watch → M (Result Environment))
      → String
      → String
      → ℕ
      → Watch
      → Environment
      → M (Result Environment)
  short_of again handle id started_at v env = do
    notified ← remind handle env started_at v
    go_on again (record v { last = env.state; fails = 0 }) notified (terminal o.name id env)

  unfoldable pub answered :
      (Watch → M (Result Environment))
      → String
      → String
      → Goal
      → ℕ
      → Watch
      → Result Environment
      → M (Result Environment)
  answered again handle id goal started_at v (err e) =
      if is e Sentinel.auth
      then pure (err e)
      else if is_temporary e && ltb v.fails 5
      then again (record v { fails = v.fails + 1 })
      else pure (err e)
  answered again handle id goal started_at v (ok env) = do
    observe o env
    if reached goal env.state then pure (ok env) else short_of again handle id started_at v env

  unfoldable pub ticked :
      (Watch → M (Result Environment))
      → String
      → String
      → Goal
      → ℕ
      → Watch
      → Option Ended
      → M (Result Environment)
  ticked again handle id goal started_at v (some ended) =
      pure (err (timed_out_error goal id v.last ended))
  ticked again handle id goal started_at v none = do
    r ← call_get o id
    answered again handle id goal started_at v r

  unfoldable pub watch : ℕ → String → String → Goal → ℕ → Watch → M (Result Environment)
  watch zero handle id goal started_at v w = none
  watch (suc fuel) handle id goal started_at v w =
      (wait o Pause.poll
          >>= ticked (watch fuel handle id goal started_at) handle id goal started_at v)
        w

  unfoldable pub wait_for : ℕ → String → String → Goal → M (Result Environment)
  wait_for fuel handle id goal = do
    started_at ← clock o
    watch fuel handle id goal started_at
        (record { last = State.unknown; fails = 0; last_notify = started_at })
