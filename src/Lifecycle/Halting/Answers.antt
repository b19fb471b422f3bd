-- ===== src/Lifecycle/Halting/Answers.antt =====
-- core/lifecycle/ensure.go: ensure returns, once its context ends.
use codespace_ssh_gateway.Shared.{ℕ, ◌<◌, String, ◌⁺◌, Option, none, some, ◌≡◌, arith}
use codespace_ssh_gateway.Providers.Environment.{
  Environment, State, connectable, startable, same_state, state_text,
}
use codespace_ssh_gateway.Providers.Errors.{Failure, Result, ok, err}
use codespace_ssh_gateway.Lifecycle.Phase.{Phase, phase_for_state}
use codespace_ssh_gateway.Lifecycle.World.{Oracle, Options, World, M, ◌>>=◌, call_start, set_phase}
use codespace_ssh_gateway.Lifecycle.Halting.{Expires, Goes, Halts, Halts-bind, Halts-pure, Halts-if}
use codespace_ssh_gateway.Lifecycle.Halting.Calls.{
  set_phase-Halts, start-Halts, clock-Halts, observe-Halts, resolve-Halts, bump-Halts,
}
use codespace_ssh_gateway.Lifecycle.Ensure.{get}
use codespace_ssh_gateway.Lifecycle.Watch.{Goal, wait_for}
use codespace_ssh_gateway.Lifecycle.BringUp.{
  arrive_at, arrive, after_start, after_stop, await, start_or_wait, settle, bring_up, ensure,
}
use codespace_ssh_gateway.Lifecycle.Halting.Parts.{
  get_rounds-Halts, failed-Halts, found-Halts, watch-Halts,
}

module _ (o : Oracle) (opts : Options) (fuel n : ℕ) (expires : Expires o n)
    (enough : n < fuel) where
  wait_for-Halts : (handle id : String) (goal : Goal) → Halts 0 (wait_for o fuel handle id goal)
  unfolding wait_for
  wait_for-Halts handle id goal =
      Halts-bind _ _ (clock-Halts o 0)
        (λ t. watch-Halts o handle id goal t n expires fuel 0 _ (omega arith) (omega arith))

  arrive_at-Halts :
      (handle : String) (env : Environment) (reason : String)
      → Halts 0 (arrive_at o opts fuel handle env reason)
  unfolding arrive_at
  arrive_at-Halts handle env reason = Halts-bind _ _ (set_phase-Halts o 0 _ _ _) (λ _. Halts-pure _)

  arrive-Halts : (handle : String) (r : Result Environment) → Halts 0 (arrive o opts fuel handle r)
  unfolding arrive
  arrive-Halts handle (ok env) = arrive_at-Halts handle env _
  arrive-Halts handle (err e) = failed-Halts o 0 handle _ e _

  await-Halts : (handle : String) (env : Environment) → Halts 0 (await o opts fuel handle env)
  unfolding await
  await-Halts handle env = Halts-bind _ _ (wait_for-Halts handle _ _) (arrive-Halts handle)

  after_start-Halts :
      (handle : String) (env : Environment) (r : Option Failure)
      → Halts 0 (after_start o opts fuel handle env r)
  unfolding after_start
  after_start-Halts handle env (some e) = failed-Halts o 0 handle _ e _
  after_start-Halts handle env none =
      Halts-bind _ _ (bump-Halts o 0 _ _) (λ _. await-Halts handle env)

  start_or_wait-Halts :
      (handle : String) (env : Environment) → Halts 0 (start_or_wait o opts fuel handle env)
  unfolding start_or_wait
  start_or_wait-Halts handle env =
      Halts-if (startable env.state)
        (set_phase o handle Phase.starting "start requested for incoming ssh session" >>= λ _.
          call_start o env.id >>= after_start o opts fuel handle env)
        (set_phase o handle (phase_for_state env.state)
            ("environment already transitioning (" ⁺ (state_text env.state ⁺ ")"))
          >>= λ _. await o opts fuel handle env)
        (Halts-bind _ _ (set_phase-Halts o 0 _ _ _)
          (λ _. Halts-bind _ _ (start-Halts o 0 _) (after_start-Halts handle env)))
        (Halts-bind _ _ (set_phase-Halts o 0 _ _ _) (λ _. await-Halts handle env))

  after_stop-Halts :
      (handle : String) (r : Result Environment) → Halts 0 (after_stop o opts fuel handle r)
  unfolding after_stop
  after_stop-Halts handle (err e) = failed-Halts o 0 handle _ e _
  after_stop-Halts handle (ok env) =
      Halts-if (connectable env.state)
        (arrive_at o opts fuel handle env "environment came back up on its own")
        (start_or_wait o opts fuel handle env) (arrive_at-Halts handle env _)
        (start_or_wait-Halts handle env)

  settle-Halts : (handle : String) (env : Environment) → Halts 0 (settle o opts fuel handle env)
  unfolding settle
  settle-Halts handle env =
      Halts-if (same_state env.state State.stopping)
        (set_phase o handle Phase.stopping
            "environment is shutting down; waiting before starting it"
          >>= λ _.
              wait_for o fuel handle env.id Goal.stop_to_finish >>= after_stop o opts fuel handle)
        (start_or_wait o opts fuel handle env)
        (Halts-bind _ _ (set_phase-Halts o 0 _ _ _)
          (λ _. Halts-bind _ _ (wait_for-Halts handle _ _) (after_stop-Halts handle)))
        (start_or_wait-Halts handle env)

  bring_up-Halts :
      (handle : String) (r : Result Environment) → Halts 0 (bring_up o opts fuel handle r)
  unfolding bring_up
  bring_up-Halts handle (err e) = Halts-pure _
  bring_up-Halts handle (ok env) = Halts-bind _ _ (resolve-Halts o 0 _ _) (λ _.
      Halts-bind _ _ (observe-Halts o 0 _) (λ _.
        Halts-if (connectable env.state)
          (arrive_at o opts fuel handle env "environment already running")
          (settle o opts fuel handle env) (arrive_at-Halts handle env _) (settle-Halts handle env)))

  pub ensure-Halts : (handle : String) → Halts 0 (ensure o opts fuel handle)
  unfolding ensure get
  ensure-Halts handle =
      Halts-bind _ _ (get_rounds-Halts o 0 3 handle 0 (Failure.text ""))
        (λ r. Halts-bind _ _ (found-Halts o 0 opts fuel handle r) (bring_up-Halts handle))

Goes-answers : {A : Type 0} (r : Option (A × World)) → Goes 0 r → ¬ (r ≡ none)
Goes-answers none h e = h
Goes-answers (some p) h e = cc e

pub Halts-answers : {A : Type 0} (m : M A) → Halts 0 m → (w : World) → ¬ (m w ≡ none)
Halts-answers m h w = Goes-answers (m w) (h.run w (omega arith))

-- Once a context ends after at most `n` polls, `n + 1` rounds of waitFor are enough: ensure then
-- answers, whatever the provider and the clock do.
pub ensure_answers :
    (o : Oracle) (opts : Options) (fuel n : ℕ) (handle : String) (w : World)
    → Expires o n
    → n < fuel
    → ¬ (ensure o opts fuel handle w ≡ none)
ensure_answers o opts fuel n handle w expires enough =
    Halts-answers _ (ensure-Halts o opts fuel n expires enough handle) w
