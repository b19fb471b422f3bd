-- ===== src/Lifecycle/Halting/Connects.antt =====
-- core/lifecycle/connect.go: Connect returns, once the contexts of its operations end.
use codespace_ssh_gateway.Shared.{
  ℕ, zero, suc, ◌+◌, ◌<◌, String, not, ◌||◌, Option, none, some, ◌≡◌, ◌==◌, string_eq,
}
use codespace_ssh_gateway.Providers.Environment.{Environment, ConnectRequest}
use codespace_ssh_gateway.Providers.Errors.{Failure, Sentinel, Result, ok, err, is, is_temporary}
use codespace_ssh_gateway.Lifecycle.World.{
  Oracle, Options, World, M, pure, ◌>>=◌, Ended, Pause, Message, second, call_connect, wait, tell,
}
use codespace_ssh_gateway.Lifecycle.Halting.{
  polls, Expires, Halts, Halts-bind, Halts-pure, Halts-if,
}
use codespace_ssh_gateway.Lifecycle.Halting.Calls.{
  set_phase-Halts, fail-Halts, tell-Halts, bump-Halts,
}
use codespace_ssh_gateway.Lifecycle.Halting.Answers.{ensure-Halts, Halts-answers}
use codespace_ssh_gateway.Lifecycle.BringUp.{ensure}
use codespace_ssh_gateway.Lifecycle.Connect.{
  Connection, twice_below, refreshed, selected, ensure_alone, notify_client, give_up, dialled_with,
  dial, after_backoff, retries, connect_to, connect,
}

module _ (o : Oracle) (opts : Options) (fuel n : ℕ) (expires : Expires o n) (enough : n < fuel)
    (handle : String) where
  join-Halts : Halts 0 (wait o Pause.join)
  unfolding wait polls
  join-Halts = record { run = λ w le. le }

  backoff-Halts : (d : ℕ) → Halts 0 (wait o (Pause.backoff d))
  unfolding wait polls
  backoff-Halts d = record { run = λ w le. le }

  call_connect-Halts : (id : String) → Halts 0 (call_connect o id)
  unfolding call_connect polls
  call_connect-Halts id = record { run = λ w le. le }

  selected-Halts :
      (r : Result Environment) (t : Option Ended) → Halts 0 (selected o opts fuel handle r t)
  unfolding selected
  selected-Halts r none = Halts-pure _
  selected-Halts r (some t) = Halts-pure _

  ensure_alone-Halts : Halts 0 (ensure_alone o opts fuel handle)
  unfolding ensure_alone
  ensure_alone-Halts =
      Halts-if (handle == "")
        (pure
          (err (Failure.text "no environment selected (run `gateway codespace select <name>`)")))
        (ensure o opts fuel handle >>= λ r. wait o Pause.join >>= selected o opts fuel handle r)
        (Halts-pure _)
        (Halts-bind _ _ (ensure-Halts o opts fuel n expires enough handle)
          (λ r. Halts-bind _ _ join-Halts (selected-Halts r)))

  notify_client-Halts :
      (req : ConnectRequest) (message : Message)
      → Halts 0 (notify_client o opts fuel handle req message)
  unfolding notify_client
  notify_client-Halts req message =
      Halts-if req.progress (tell o handle message) (pure tt) (tell-Halts o 0 handle message)
        (Halts-pure tt)

  give_up-Halts : (env : Environment) (e : Failure) → Halts 0 (give_up o opts fuel handle env e)
  unfolding give_up
  give_up-Halts env e = Halts-bind _ _ (fail-Halts o 0 handle e _) (λ _. Halts-pure _)

  module _ (again : Failure → M Connection) (ih : (e : Failure) → Halts 0 (again e))
      (env : Environment) where
    dialled_with-Halts : (r : Result ℕ) → Halts 0 (dialled_with o opts fuel again handle env r)
    unfolding dialled_with
    dialled_with-Halts (ok conn) = Halts-bind _ _ (bump-Halts o 0 handle _) (λ _. Halts-pure _)
    dialled_with-Halts (err e) =
        Halts-if (not (is_temporary e) || is e Sentinel.auth) (give_up o opts fuel handle env e)
          (again e) (give_up-Halts env e) (ih e)

    dial-Halts : Halts 0 (dial o opts fuel again handle env)
    unfolding dial
    dial-Halts = Halts-bind _ _ (call_connect-Halts env.id) dialled_with-Halts

  module _ (again : Environment → Failure → M Connection)
      (ih : (env : Environment) (e : Failure) → Halts 0 (again env e)) (env : Environment) where
    after_backoff-Halts :
        (t : Option Ended) → Halts 0 (after_backoff o opts fuel again handle env t)
    unfolding after_backoff
    after_backoff-Halts (some t) = Halts-pure _
    after_backoff-Halts none =
        Halts-bind _ _ ensure_alone-Halts
          (λ r. dial-Halts (again (refreshed env r)) (ih (refreshed env r)) (refreshed env r))

  retries-Halts :
      (left : ℕ) (req : ConnectRequest) (attempt backoff : ℕ) (env : Environment) (last : Failure)
      → Halts 0 (retries o opts fuel left handle req attempt backoff env last)
  unfolding retries
  retries-Halts zero req attempt backoff env last = give_up-Halts env last
  retries-Halts (suc left) req attempt backoff env last =
      Halts-bind _ _ (notify_client-Halts req _) (λ _. Halts-bind _ _ (backoff-Halts backoff) (
        after_backoff-Halts
          (retries o opts fuel left handle req (attempt + 1) (twice_below backoff))
          (retries-Halts left req (attempt + 1) (twice_below backoff)) env))

  connect_to-Halts :
      (req : ConnectRequest) (r : Result Environment)
      → Halts 0 (connect_to o opts fuel handle req r)
  unfolding connect_to
  connect_to-Halts req (err e) = Halts-pure _
  connect_to-Halts req (ok env) = Halts-bind _ _ (set_phase-Halts o 0 handle _ _) (λ _.
      dial-Halts (retries o opts fuel opts.connect_retries handle req 1 second env)
        (retries-Halts opts.connect_retries req 1 second env) env)

  connect-Halts : (req : ConnectRequest) → Halts 0 (connect o opts fuel handle req)
  unfolding connect
  connect-Halts req = Halts-bind _ _ ensure_alone-Halts (connect_to-Halts req)

-- If the contexts of its operations let at most `n` polls pass in all, `n + 1` rounds of waitFor are
-- enough for Connect to answer, with all its attempts.
pub connect_answers :
    (o : Oracle) (opts : Options) (fuel n : ℕ) (handle : String) (req : ConnectRequest) (w : World)
    → Expires o n
    → n < fuel
    → ¬ (connect o opts fuel handle req w ≡ none)
connect_answers o opts fuel n handle req w expires enough =
    Halts-answers _ (connect-Halts o opts fuel n expires enough handle req) w
