-- ===== src/Lifecycle/Halting/Calls.antt =====
-- core/lifecycle: the calls that are not polls answer at once.
use codespace_ssh_gateway.Shared.{ℕ, ◌≤◌, String, Option, none, some}
use codespace_ssh_gateway.Providers.Environment.{Environment}
use codespace_ssh_gateway.Providers.Errors.{Failure}
use codespace_ssh_gateway.Lifecycle.Phase.{Phase}
use codespace_ssh_gateway.Lifecycle.States.{EnvState}
use codespace_ssh_gateway.Lifecycle.World.{
  Oracle, World, Message, Pause, call_get, call_list, call_create, call_start, wait, clock, tell,
  line_event, set_phase, observe, resolve, record_err, bump,
}
use codespace_ssh_gateway.Lifecycle.Halting.{polls, Halts, Halts-bind}
use codespace_ssh_gateway.Lifecycle.Ensure.{fail}

module _ (o : Oracle) (k : ℕ) where
  told-polls :
      (env : String) (l : Option String) (w : World)
      → k ≤ polls w.trace
      → k ≤ polls (line_event o env l w).trace
  unfolding line_event polls
  told-polls env none w h = h
  told-polls env (some l) w h = h

  pub set_phase-Halts :
      (env : String) (p : Phase) (reason : String) → Halts k (set_phase o env p reason)
  unfolding set_phase
  set_phase-Halts env p reason = record { run = λ w le. told-polls env _ _ le }

  pub fail-Halts :
      (handle : String) (e : Failure) (reason : String) → Halts k (fail o handle e reason)
  unfolding fail record_err
  fail-Halts handle e reason =
      Halts-bind _ _ (record { run = λ w le. le }) (λ _. set_phase-Halts handle Phase.failed reason)

  -- The calls that count no poll.
  pub pause-Halts : Halts k (wait o Pause.retry)
  unfolding wait polls
  pause-Halts = record { run = λ w le. le }

  pub get-Halts : (id : String) → Halts k (call_get o id)
  unfolding call_get polls
  get-Halts id = record { run = λ w le. le }

  pub list-Halts : Halts k (call_list o)
  unfolding call_list polls
  list-Halts = record { run = λ w le. le }

  pub create-Halts : (name : String) → Halts k (call_create o name)
  unfolding call_create polls
  create-Halts name = record { run = λ w le. le }

  pub start-Halts : (id : String) → Halts k (call_start o id)
  unfolding call_start polls
  start-Halts id = record { run = λ w le. le }

  pub tell-Halts : (env : String) (message : Message) → Halts k (tell o env message)
  unfolding tell polls
  tell-Halts env message = record { run = λ w le. le }

  pub clock-Halts : Halts k (clock o)
  unfolding clock
  clock-Halts = record { run = λ w le. le }

  pub observe-Halts : (env : Environment) → Halts k (observe o env)
  unfolding observe
  observe-Halts env = record { run = λ w le. le }

  pub resolve-Halts : (handle : String) (env : Environment) → Halts k (resolve o handle env)
  unfolding resolve
  resolve-Halts handle env = record { run = λ w le. le }

  pub record_err-Halts : (env : String) (e : Failure) → Halts k (record_err o env e)
  unfolding record_err
  record_err-Halts env e = record { run = λ w le. le }

  pub bump-Halts : (env : String) (f : EnvState → EnvState) → Halts k (bump o env f)
  unfolding bump
  bump-Halts env f = record { run = λ w le. le }
