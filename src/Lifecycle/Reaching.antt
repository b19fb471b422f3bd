-- ===== src/Lifecycle/Reaching.antt =====
-- core/lifecycle/ensure.go, waitFor: the state of the environment that it returns.
use codespace_ssh_gateway.Shared.{
  ℕ, zero, suc, ◌+◌, String, Bool, true, false, Option, none, some, ◌≡◌, ltb, ◌&&◌, if◌then◌else◌,
}
use codespace_ssh_gateway.Providers.Environment.{Environment}
use codespace_ssh_gateway.Providers.Errors.{Failure, Sentinel, Result, ok, err, is, is_temporary}
use codespace_ssh_gateway.Lifecycle.World.{Oracle, World, M, pure, Ended}
use codespace_ssh_gateway.Lifecycle.Wp.{Ends, Ends-after, Ends-if}
use codespace_ssh_gateway.Lifecycle.Watch.{
  Goal, Watch, reached, remind, go_on, short_of, answered, ticked, terminal, watch, wait_for,
}

-- What waitFor returns is in a state that it waited for.
abbrev pub Reached : Goal → Result Environment → World → Type 0
Reached goal (ok env) w = reached goal env.state ≡ true
Reached goal (err e) w = Unit {0}

module _ (o : Oracle) (handle id : String) (goal : Goal) (started_at : ℕ) where
  Ends-err : (e : Failure) → Ends (pure {A = Result Environment} (err e)) (Reached goal)
  Ends-err e = record { run = λ w. tt }

  module _ (again : Watch → M (Result Environment))
      (ih : (v : Watch) → Ends (again v) (Reached goal)) where
    go_on-Reached :
        (v : Watch) (n : ℕ) (t : Option Failure) → Ends (go_on o again v n t) (Reached goal)
    unfolding go_on
    go_on-Reached v n (some e) = Ends-err e
    go_on-Reached v n none = ih _

    answered_err-Reached :
        (v : Watch) (e : Failure) (b c : Bool)
        → Ends
            (if b
              then pure {A = Result Environment} (err e)
              else if c
              then again (record v { fails = v.fails + 1 })
              else pure (err e))
            (Reached goal)
    answered_err-Reached v e true c = Ends-err e
    answered_err-Reached v e false true = ih (record v { fails = v.fails + 1 })
    answered_err-Reached v e false false = Ends-err e

    short_of-Reached :
        (v : Watch) (env : Environment)
        → Ends (short_of o again handle id started_at v env) (Reached goal)
    unfolding short_of
    short_of-Reached v env =
        Ends-after (remind o handle env started_at v) _
          (λ n. go_on-Reached (record v { last = env.state; fails = 0 }) n (terminal o.name id env))

    answered-Reached :
        (v : Watch) (r : Result Environment)
        → Ends (answered o again handle id goal started_at v r) (Reached goal)
    unfolding answered
    answered-Reached v (err e) =
        answered_err-Reached v e (is e Sentinel.auth) (is_temporary e && ltb v.fails 5)
    answered-Reached v (ok env) = Ends-after _ _ (λ _.
        Ends-if (reached goal env.state) (pure (ok env))
          (short_of o again handle id started_at v env) (λ there. record { run = λ w. there })
          (λ _. short_of-Reached v env))

    ticked-Reached :
        (v : Watch) (t : Option Ended)
        → Ends (ticked o again handle id goal started_at v t) (Reached goal)
    unfolding ticked
    ticked-Reached v (some ended) = Ends-err _
    ticked-Reached v none = Ends-after _ _ (λ r. answered-Reached v r)

  watch-Reached :
      (fuel : ℕ) (v : Watch) → Ends (watch o fuel handle id goal started_at v) (Reached goal)
  unfolding watch
  watch-Reached zero v = record { run = λ w. tt }
  watch-Reached (suc fuel) v = record {
    run = λ w.
        (Ends-after _ _ (λ t.
            ticked-Reached (watch o fuel handle id goal started_at) (watch-Reached fuel) v t)).run
          w;
  }

-- What waitFor returns without an error has reached the state that it waits for: a state other than
-- STOPPING, or a connectable one.
pub wait_for-Reached :
    (o : Oracle) (fuel : ℕ) (handle id : String) (goal : Goal)
    → Ends (wait_for o fuel handle id goal) (Reached goal)
unfolding wait_for
wait_for-Reached o fuel handle id goal =
    Ends-after _ _ (λ t. watch-Reached o handle id goal t fuel _)
