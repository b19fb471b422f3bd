-- ===== src/Lifecycle/Halting/Parts.antt =====
-- core/lifecycle/ensure.go: the parts of ensure end, once their context does.
use codespace_ssh_gateway.Shared.{
  ℕ, zero, suc, ◌+◌, ◌-◌, ◌*◌, ◌<◌, String, ◌&&◌, Option, none, some, List, [], ◌∷◌, arith,
  if◌then◌else◌, ltb, leb,
}
use codespace_ssh_gateway.Providers.Environment.{Environment}
use codespace_ssh_gateway.Providers.Errors.{Failure, Sentinel, Result, ok, err, is, is_temporary}
use codespace_ssh_gateway.Lifecycle.World.{
  Oracle, Options, M, Message, Pause, Ended, pure, ◌>>=◌, second, wait, tell, record_err,
}
use codespace_ssh_gateway.Lifecycle.Halting.{
  Expires, Halts, Halts-bind, Halts-pure, Halts-if, Halts-poll,
}
use codespace_ssh_gateway.Lifecycle.Halting.Calls.{
  set_phase-Halts, fail-Halts, pause-Halts, get-Halts, list-Halts, create-Halts, tell-Halts,
  clock-Halts, observe-Halts, record_err-Halts, bump-Halts,
}
use codespace_ssh_gateway.Lifecycle.Ensure.{
  retry_or, get_after, get_rounds, adopt_from, adopt, fail, create_result, create,
}
use codespace_ssh_gateway.Lifecycle.Watch.{
  Goal, Watch, reached, remind, remind_at, go_on, short_of, answered, ticked, terminal, watch,
}
use codespace_ssh_gateway.Lifecycle.BringUp.{replace, found}

module _ (o : Oracle) (k : ℕ) where
  module _ (again : Failure → M (Result Environment)) (ih : (e : Failure) → Halts k (again e))
      (id : String) (attempt : ℕ) where
    retry_or-Halts : (r : Result Environment) → Halts k (retry_or o again id attempt r)
    unfolding retry_or
    retry_or-Halts (ok env) = Halts-pure _
    retry_or-Halts (err e) =
        Halts-if (is_temporary e) (tell o id (Message.retrying (attempt + 1)) >>= λ _. again e)
          (pure (err e)) (Halts-bind _ _ (tell-Halts o k _ _) (λ _. ih e)) (Halts-pure _)

    get_after-Halts : (t : Option Ended) → Halts k (get_after o again id attempt t)
    unfolding get_after
    get_after-Halts (some ended) = Halts-pure _
    get_after-Halts none = Halts-bind _ _ (get-Halts o k id) retry_or-Halts

  pub get_rounds-Halts :
      (left : ℕ) (id : String) (attempt : ℕ) (last : Failure)
      → Halts k (get_rounds o left id attempt last)
  unfolding get_rounds
  get_rounds-Halts zero id attempt last = Halts-pure _
  get_rounds-Halts (suc left) id attempt last =
      Halts-bind _ _
        (Halts-if (ltb 0 attempt) (wait o Pause.retry) (pure none) (pause-Halts o k)
          (Halts-pure none))
        (get_after-Halts (get_rounds o left id (attempt + 1))
          (get_rounds-Halts left id (attempt + 1)) id attempt)

  adopt_from-Halts :
      (handle : String) (r : Result (List Environment)) → Halts k (adopt_from o handle r)
  unfolding adopt_from
  adopt_from-Halts handle (ok []) = Halts-pure _
  adopt_from-Halts handle (ok (env ∷ [])) = Halts-bind _ _ (tell-Halts o k _ _) (λ _. Halts-pure _)
  adopt_from-Halts handle (ok (env ∷ env' ∷ envs)) = Halts-pure _
  adopt_from-Halts handle (err e) = Halts-pure _

  create_result-Halts :
      (handle : String) (r : Result Environment) → Halts k (create_result o handle r)
  unfolding create_result
  create_result-Halts handle (ok env) = Halts-bind _ _ (bump-Halts o k _ _) (λ _. Halts-pure _)
  create_result-Halts handle (err e) = Halts-bind _ _ (fail-Halts o k _ _ _) (λ _. Halts-pure _)

  pub failed-Halts :
      (handle reason : String) (e : Failure) (r : Result Environment)
      → Halts k (fail o handle e reason >>= λ _. pure r)
  failed-Halts handle reason e r =
      Halts-bind _ _ (fail-Halts o k handle e reason) (λ _. Halts-pure r)

  module _ (opts : Options) (fuel : ℕ) where
    replace-Halts :
        (handle : String) (e : Failure) (r : Option Environment)
        → Halts k (replace o opts fuel handle e r)
    unfolding replace create
    replace-Halts handle e (some env) = Halts-pure _
    replace-Halts handle e none =
        Halts-if opts.auto_create (create o handle)
          (record_err o handle e >>= λ _.
            pure
              (err (Failure.wrap "auto-create is disabled (lifecycle.auto_create: false): " "" e)))
          (Halts-bind _ _ (set_phase-Halts o k _ _ _)
            (λ _. Halts-bind _ _ (create-Halts o k handle) (create_result-Halts handle)))
          (Halts-bind _ _ (record_err-Halts o k _ _) (λ _. Halts-pure _))

    pub found-Halts :
        (handle : String) (r : Result Environment) → Halts k (found o opts fuel handle r)
    unfolding found adopt
    found-Halts handle (ok env) = Halts-pure _
    found-Halts handle (err e) =
        Halts-if (is e Sentinel.not_found) (adopt o handle >>= replace o opts fuel handle e)
          (fail o handle e "lookup failed" >>= λ _. pure (err e))
          (Halts-bind _ _ (Halts-bind _ _ (list-Halts o k) (adopt_from-Halts handle))
            (replace-Halts handle e))
          (failed-Halts handle "lookup failed" e _)

module _ (o : Oracle) (handle id : String) (goal : Goal) (started_at : ℕ) where
  module _ (k : ℕ) (again : Watch → M (Result Environment))
      (ih : (v : Watch) → Halts k (again v)) where
    go_on-Halts : (v : Watch) (n : ℕ) (t : Option Failure) → Halts k (go_on o again v n t)
    unfolding go_on
    go_on-Halts v n (some e) = Halts-pure _
    go_on-Halts v n none = ih (record v { last_notify = n })

    remind-Halts : (env : Environment) (v : Watch) → Halts k (remind o handle env started_at v)
    unfolding remind remind_at
    remind-Halts env v = Halts-bind _ _ (clock-Halts o k) (λ now.
        Halts-if (leb (v.last_notify + 5 * second) now)
          (tell o handle (Message.still_waiting env.native_state (now - started_at)) >>= λ _.
            pure now)
          (pure v.last_notify) (Halts-bind _ _ (tell-Halts o k _ _) (λ _. Halts-pure _))
          (Halts-pure _))

    short_of-Halts :
        (v : Watch) (env : Environment) → Halts k (short_of o again handle id started_at v env)
    unfolding short_of
    short_of-Halts v env =
        Halts-bind _ _ (remind-Halts env v)
          (λ n. go_on-Halts (record v { last = env.state; fails = 0 }) n (terminal o.name id env))

    answered-Halts :
        (v : Watch) (r : Result Environment)
        → Halts k (answered o again handle id goal started_at v r)
    unfolding answered
    answered-Halts v (err e) =
        Halts-if (is e Sentinel.auth) (pure (err e))
          (if is_temporary e && ltb v.fails 5
            then again (record v { fails = v.fails + 1 })
            else pure (err e))
          (Halts-pure _)
          (Halts-if (is_temporary e && ltb v.fails 5) (again (record v { fails = v.fails + 1 }))
            (pure (err e)) (ih (record v { fails = v.fails + 1 })) (Halts-pure _))
    answered-Halts v (ok env) = Halts-bind _ _ (observe-Halts o k env) (λ _.
        Halts-if (reached goal env.state) (pure (ok env))
          (short_of o again handle id started_at v env) (Halts-pure _) (short_of-Halts v env))

    ticked_on-Halts : (v : Watch) → Halts k (ticked o again handle id goal started_at v none)
    unfolding ticked
    ticked_on-Halts v = Halts-bind _ _ (get-Halts o k id) (answered-Halts v)

  module _ (n : ℕ) (expires : Expires o n) where
    pub watch-Halts :
        (fuel k : ℕ) (v : Watch)
        → 0 < fuel
        → n < fuel + k
        → Halts k (watch o fuel handle id goal started_at v)
    unfolding watch ticked
    watch-Halts zero k v pos enough = absurd (omega arith)
    watch-Halts (suc fuel) k v pos enough = record {
      run = λ w le.
          (Halts-poll o k n expires
              (ticked o (watch o fuel handle id goal started_at) handle id goal started_at v)
              (λ e. Halts-pure _)
              (λ lt.
                ticked_on-Halts (suc k) (watch o fuel handle id goal started_at)
                  (λ v'. watch-Halts fuel (suc k) v' (omega arith) (omega arith)) v)).run
            w le;
    }
