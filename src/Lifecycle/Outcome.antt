-- ===== src/Lifecycle/Outcome.antt =====
-- What ensure leaves behind with each of its answers.
use codespace_ssh_gateway.Shared.{
  ℕ, String, ◌⁺◌, true, false, Option, none, some, ◌≡◌, ◌⊎◌, inl, inr, arith, string_eq, eq_iff,
}
use codespace_ssh_gateway.Shared.Map
use codespace_ssh_gateway.Shared.Map.{get-put}
use codespace_ssh_gateway.Providers.Environment.{
  Environment, State, connectable, startable, same_state, state_text,
}
use codespace_ssh_gateway.Providers.Errors.{Failure, Sentinel, Result, ok, err, is}
use codespace_ssh_gateway.Lifecycle.Phase.{Phase, phase_for_state}
use codespace_ssh_gateway.Lifecycle.History.{same_phase→eq}
use codespace_ssh_gateway.Lifecycle.States
use codespace_ssh_gateway.Lifecycle.States.{EnvState, States, state_locked, move, enter, add_start}
use codespace_ssh_gateway.Lifecycle.World.{
  line_event, Oracle, Options, World, M, pure, ◌>>=◌, set_phase, record_err, call_start,
}
use codespace_ssh_gateway.Lifecycle.Wp.{Holds, Ends, Ends-after, Ends-if, Ends-bind}
use codespace_ssh_gateway.Lifecycle.Ensure.{create, create_result, adopt, fail}
use codespace_ssh_gateway.Lifecycle.Reaching.{Reached, wait_for-Reached}
use codespace_ssh_gateway.Lifecycle.Watch.{Goal, reached, wait_for}
use codespace_ssh_gateway.Lifecycle.BringUp.{
  arrive_at, arrive, after_start, after_stop, replace, await, start_or_wait, settle, bring_up,
  found, ensure,
}

-- The recorded phase and error of an environment.
abbrev pub phase_in : Option EnvState → Phase
phase_in none = Phase.unknown
phase_in (some st) = st.phase

abbrev pub IsAt : String → Phase → World → Type 0
IsAt handle p w = phase_in (Map.get w.states handle) ≡ p

phase-move :
    (now : ℕ) (to : Phase) (reason : String) (st : EnvState) → (move now to reason st).phase ≡ to
unfolding move enter
phase-move now to reason st = ground (arith, same_phase→eq st.phase to)

module _ (o : Oracle) where
  line-IsAt :
      (env handle : String) (p : Phase) (w : World) (l : Option String)
      → IsAt handle p w
      → IsAt handle p (line_event o env l w)
  unfolding line_event
  line-IsAt env handle p w none h = h
  line-IsAt env handle p w (some s) h = h

  pub set_phase-IsAt :
      (handle : String) (p : Phase) (reason : String)
      → Ends (set_phase o handle p reason) (λ _ w. IsAt handle p w)
  unfolding set_phase States.set_phase
  set_phase-IsAt handle p reason = record {
    run = λ w.
        line-IsAt _ handle p _ (States.set_phase (o.now w.trace) handle p reason w.states).1 (
          ground (
            arith,
            get-put w.states handle
                (move (o.now w.trace) p reason (state_locked (o.now w.trace) handle w.states))
                handle,
            eq_iff handle handle,
            phase-move (o.now w.trace) p reason (state_locked (o.now w.trace) handle w.states),
          ));
  }

-- What ensure's tail promises with an answer: an environment that is connectable under a phase of
-- RUNNING, or an error under a phase of FAILED.
abbrev pub Arrives : String → Result Environment → World → Type 0
Arrives handle (ok env) w = (connectable env.state ≡ true) × IsAt handle Phase.running w
Arrives handle (err e) w = IsAt handle Phase.failed w

module _ (o : Oracle) where
  -- The last two calls of every failing branch.
  fail-Arrives :
      (handle : String) (e e' : Failure) (reason : String)
      → Ends (fail o handle e reason >>= λ _. pure (err e')) (Arrives handle)
  unfolding fail
  fail-Arrives handle e e' reason =
      Ends-bind _ _ (Ends-after _ _ (λ _. set_phase-IsAt o handle Phase.failed reason)) (λ _ w h. h)

-- An error leaves FAILED, except where the environment does not exist and auto_create is off.
abbrev pub Outcome : Options → String → Result Environment → World → Type 0
Outcome opts handle (ok env) w = (connectable env.state ≡ true) × IsAt handle Phase.running w
Outcome opts handle (err e) w =
    IsAt handle Phase.failed w ⊎ ((opts.auto_create ≡ false) × (is e Sentinel.not_found ≡ true))

module _ (o : Oracle) (opts : Options) (fuel : ℕ) where
  arrive_at-Arrives :
      (handle : String) (env : Environment) (reason : String)
      → connectable env.state ≡ true
      → Ends (arrive_at o opts fuel handle env reason) (Arrives handle)
  unfolding arrive_at
  arrive_at-Arrives handle env reason c =
      Ends-bind _ _ (set_phase-IsAt o handle Phase.running reason) (λ _ w h. (c, h))

  arrive-Arrives :
      (handle : String) (r : Result Environment) (w : World)
      → Reached Goal.become_running r w
      → Holds (Arrives handle) (arrive o opts fuel handle r w)
  unfolding arrive reached
  arrive-Arrives handle (ok env) w c = (arrive_at-Arrives handle env "environment ready" c).run w
  arrive-Arrives handle (err e) w c = (fail-Arrives o handle e e "did not become ready").run w

  await-Arrives :
      (handle : String) (env : Environment) → Ends (await o opts fuel handle env) (Arrives handle)
  unfolding await
  await-Arrives handle env =
      Ends-bind _ _ (wait_for-Reached o fuel handle env.id Goal.become_running)
        (arrive-Arrives handle)

  after_start-Arrives :
      (handle : String) (env : Environment) (r : Option Failure)
      → Ends (after_start o opts fuel handle env r) (Arrives handle)
  unfolding after_start
  after_start-Arrives handle env (some e) = fail-Arrives o handle e _ "start failed"
  after_start-Arrives handle env none = Ends-after _ _ (λ _. await-Arrives handle env)

  start_or_wait-Arrives :
      (handle : String) (env : Environment)
      → Ends (start_or_wait o opts fuel handle env) (Arrives handle)
  unfolding start_or_wait
  start_or_wait-Arrives handle env =
      Ends-if (startable env.state)
        (set_phase o handle Phase.starting "start requested for incoming ssh session" >>= λ _.
          call_start o env.id >>= after_start o opts fuel handle env)
        (set_phase o handle (phase_for_state env.state)
            ("environment already transitioning (" ⁺ (state_text env.state ⁺ ")"))
          >>= λ _. await o opts fuel handle env)
        (λ _. Ends-after _ _ (λ _. Ends-after _ _ (after_start-Arrives handle env)))
        (λ _. Ends-after _ _ (λ _. await-Arrives handle env))

  after_stop-Arrives :
      (handle : String) (r : Result Environment)
      → Ends (after_stop o opts fuel handle r) (Arrives handle)
  unfolding after_stop
  after_stop-Arrives handle (err e) = fail-Arrives o handle e e "waiting for shutdown failed"
  after_stop-Arrives handle (ok env) =
      Ends-if (connectable env.state)
        (arrive_at o opts fuel handle env "environment came back up on its own")
        (start_or_wait o opts fuel handle env)
        (arrive_at-Arrives handle env "environment came back up on its own")
        (λ _. start_or_wait-Arrives handle env)

  settle-Arrives :
      (handle : String) (env : Environment) → Ends (settle o opts fuel handle env) (Arrives handle)
  unfolding settle
  settle-Arrives handle env =
      Ends-if (same_state env.state State.stopping)
        (set_phase o handle Phase.stopping
            "environment is shutting down; waiting before starting it"
          >>= λ _.
              wait_for o fuel handle env.id Goal.stop_to_finish >>= after_stop o opts fuel handle)
        (start_or_wait o opts fuel handle env)
        (λ _. Ends-after _ _ (λ _. Ends-after _ _ (after_stop-Arrives handle)))
        (λ _. start_or_wait-Arrives handle env)

  bring_up-Arrives :
      (handle : String) (env : Environment)
      → Ends (bring_up o opts fuel handle (ok env)) (Arrives handle)
  unfolding bring_up
  bring_up-Arrives handle env = Ends-after _ _ (λ _. Ends-after _ _ (λ _.
      Ends-if (connectable env.state)
        (arrive_at o opts fuel handle env "environment already running")
        (settle o opts fuel handle env) (arrive_at-Arrives handle env "environment already running")
        (λ _. settle-Arrives handle env)))

  -- Without an environment there is an answer already, with its outcome.
  abbrev Found : String → Result Environment → World → Type 0
  Found handle (ok env) w = Unit
  Found handle (err e) w = Outcome opts handle (err e) w

  err-Found :
      (handle reason : String) (e e' : Failure)
      → Ends (fail o handle e reason >>= λ _. pure (err e')) (Found handle)
  unfolding fail
  err-Found handle reason e e' =
      Ends-bind _ _ (Ends-after _ _ (λ _. set_phase-IsAt o handle Phase.failed reason))
        (λ _ w h. inl h)

  create_result-Found :
      (handle : String) (r : Result Environment) → Ends (create_result o handle r) (Found handle)
  unfolding create_result
  create_result-Found handle (ok env) = Ends-after _ _ (λ _. record { run = λ w. tt })
  create_result-Found handle (err e) = err-Found handle "create failed" e _

  create-Found : (handle : String) → Ends (create o handle) (Found handle)
  unfolding create
  create-Found handle = Ends-after _ _ (λ _. Ends-after _ _ (create_result-Found handle))

  replace-Found :
      (handle : String) (e : Failure) (r : Option Environment)
      → is e Sentinel.not_found ≡ true
      → Ends (replace o opts fuel handle e r) (Found handle)
  unfolding replace is
  replace-Found handle e (some env) missing = record { run = λ w. tt }
  replace-Found handle e none missing =
      Ends-if opts.auto_create (create o handle)
        (record_err o handle e >>= λ _.
          pure (err (Failure.wrap "auto-create is disabled (lifecycle.auto_create: false): " "" e)))
        (λ _. create-Found handle)
        (λ q. Ends-after _ _ (λ _. record { run = λ w. inr (q, missing) }))

  found-Found :
      (handle : String) (r : Result Environment) → Ends (found o opts fuel handle r) (Found handle)
  unfolding found
  found-Found handle (ok env) = record { run = λ w. tt }
  found-Found handle (err e) =
      Ends-if (is e Sentinel.not_found) (adopt o handle >>= replace o opts fuel handle e)
        (fail o handle e "lookup failed" >>= λ _. pure (err e))
        (λ q. Ends-after _ _ (λ r. replace-Found handle e r q))
        (λ _. err-Found handle "lookup failed" e e)

  Arrives→Outcome :
      (handle : String) (r : Result Environment) (w : World)
      → Arrives handle r w
      → Outcome opts handle r w
  Arrives→Outcome handle (ok env) w h = h
  Arrives→Outcome handle (err e) w h = inl h

  Holds-map :
      (handle : String) (r : Option (Result Environment × World))
      → Holds (Arrives handle) r
      → Holds (Outcome opts handle) r
  Holds-map handle none h = tt
  Holds-map handle (some (r, w)) h = Arrives→Outcome handle r w h

  Ends-Outcome :
      (handle : String) (m : M (Result Environment))
      → Ends m (Arrives handle)
      → Ends m (Outcome opts handle)
  Ends-Outcome handle m h = record { run = λ w. Holds-map handle (m w) (h.run w) }

  bring_up-Outcome :
      (handle : String) (r : Result Environment) (w : World)
      → Found handle r w
      → Holds (Outcome opts handle) (bring_up o opts fuel handle r w)
  unfolding bring_up
  bring_up-Outcome handle (err e) w h = h
  bring_up-Outcome handle (ok env) w h =
      (Ends-Outcome handle (bring_up o opts fuel handle (ok env)) (bring_up-Arrives handle env)).run
        w

-- Whatever the provider, the clock and the context answer, every answer of ensure keeps its
-- promise: without an error the environment is connectable and the phase recorded under the handle
-- is RUNNING; with an error the phase is FAILED, or else auto_create is off and the provider said
-- that the environment does not exist.
pub ensure-Outcome :
    (o : Oracle) (opts : Options) (fuel : ℕ) (handle : String)
    → Ends (ensure o opts fuel handle) (Outcome opts handle)
unfolding ensure bring_up
ensure-Outcome o opts fuel handle =
    Ends-after _ _
      (λ r. Ends-bind _ _ (found-Found o opts fuel handle r) (bring_up-Outcome o opts fuel handle))
