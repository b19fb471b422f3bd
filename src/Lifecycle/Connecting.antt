-- ===== src/Lifecycle/Connecting.antt =====
-- core/lifecycle/connect.go: what Connect returns, and that it does.
use codespace_ssh_gateway.Shared.{
  ℕ, zero, suc, ◌+◌, String, true, false, not, ◌||◌, Option, none, some, List, ◌∷◌, ◌≡◌, refl, ◌⊎◌,
  inl, inr, arith, ◌==◌, string_eq, eq_iff,
}
use codespace_ssh_gateway.Providers.Environment.{Environment, ConnectRequest}
use codespace_ssh_gateway.Providers.Errors.{Failure, Sentinel, Result, ok, err, is, is_temporary}
use codespace_ssh_gateway.Lifecycle.Phase.{Phase}
use codespace_ssh_gateway.Lifecycle.World.{
  Oracle, Options, World, M, pure, ◌>>=◌, Event, dialled, Ended, cancelled, timed_out, ended_error,
  Pause, second, call_connect, wait, bump,
}
use codespace_ssh_gateway.Lifecycle.Wp.{Holds, Ends, Ends-after, Ends-if, Ends-bind}
use codespace_ssh_gateway.Lifecycle.Ensure.{fail}
use codespace_ssh_gateway.Lifecycle.BringUp.{ensure}
use codespace_ssh_gateway.Lifecycle.Outcome.{IsAt, set_phase-IsAt, Outcome, ensure-Outcome}
use codespace_ssh_gateway.Lifecycle.Connect.{
  Connection, twice_below, refreshed, selected, ensure_alone, give_up, dialled_with, dial,
  after_backoff, retries, connect_to, connect,
}

abbrev pub IsEnded : Failure → Type 0
IsEnded e = (is e Sentinel.canceled ≡ true) ⊎ (is e Sentinel.deadline_exceeded ≡ true)

-- Why Connect, or Ensure before it, returns an error: the phase is FAILED, or the client is gone or
-- its time is up, or the environment does not exist and may not be created, or none was named.
abbrev pub Explained : Options → String → Failure → World → Type 0
Explained opts handle e w =
    IsAt handle Phase.failed w
    ⊎ (IsEnded e
        ⊎ (((opts.auto_create ≡ false) × (is e Sentinel.not_found ≡ true)) ⊎ (handle ≡ "")))

-- A connection is the answer to the last call, and leads to the environment beside it.
abbrev pub Connected : Options → String → Connection → World → Type 0
Connected opts handle (ok conn, env) w =
    (rest : List Event) × (w.trace ≡ dialled env.id (ok conn) ∷ rest)
Connected opts handle (err e, env) w = Explained opts handle e w

wrapped_ended : (p : String) (t : Ended) → IsEnded (Failure.wrap p "" (ended_error t))
unfolding is ended_error
wrapped_ended p cancelled = inl refl
wrapped_ended p timed_out = inr refl

abbrev Ensured : Options → String → Result Environment → World → Type 0
Ensured opts handle (ok env) w = Unit
Ensured opts handle (err e) w = Explained opts handle e w

module _ (o : Oracle) (opts : Options) (fuel : ℕ) (handle : String) where
  selected-Ensured :
      (r : Result Environment) (w : World)
      → Outcome opts handle r w
      → (t : Option Ended) → (v : World) → v.states ≡ w.states
      → Holds (Ensured opts handle) (selected o opts fuel handle r t v)
  unfolding selected
  selected-Ensured r w h (some t) v e = inr (inl (wrapped_ended _ t))
  selected-Ensured (ok env) w h none v e = tt
  selected-Ensured (err f) w (inl at) none v e = inl (rw e at)
  selected-Ensured (err f) w (inr gone) none v e = inr (inr (inl gone))

  ensure_alone-Ensured : Ends (ensure_alone o opts fuel handle) (Ensured opts handle)
  unfolding ensure_alone
  ensure_alone-Ensured =
      Ends-if (handle == "")
        (pure
          (err (Failure.text "no environment selected (run `gateway codespace select <name>`)")))
        (ensure o opts fuel handle >>= λ r. wait o Pause.join >>= selected o opts fuel handle r)
        (λ named. record { run = λ w. inr (inr (inr (ground (arith, named, eq_iff handle "")))) })
        (λ _. Ends-bind _ _ (ensure-Outcome o opts fuel handle) (λ r w h.
          unfold wait ◌>>=◌ in selected-Ensured r w h (o.pause w.trace Pause.join) _ refl))

  give_up-Connected :
      (env : Environment) (e : Failure)
      → Ends (give_up o opts fuel handle env e) (Connected opts handle)
  unfolding give_up fail
  give_up-Connected env e =
      Ends-bind _ _ (Ends-after _ _ (λ _. set_phase-IsAt o handle Phase.failed "connect failed"))
        (λ _ w h. inl h)

  module _ (again : Failure → M Connection)
      (ih : (e : Failure) → Ends (again e) (Connected opts handle)) (env : Environment) where
    dialled_with-Connected :
        (r : Result ℕ) (w : World) (rest : List Event)
        → w.trace ≡ dialled env.id r ∷ rest
        → Holds (Connected opts handle) (dialled_with o opts fuel again handle env r w)
    unfolding dialled_with bump ◌>>=◌
    dialled_with-Connected (ok conn) w rest at = (rest, at)
    dialled_with-Connected (err e) w rest at =
        (Ends-if (not (is_temporary e) || is e Sentinel.auth) (give_up o opts fuel handle env e)
            (again e) (λ _. give_up-Connected env e) (λ _. ih e)).run
          w

    dial-Connected : Ends (dial o opts fuel again handle env) (Connected opts handle)
    unfolding dial call_connect ◌>>=◌
    dial-Connected = record {
      run = λ w. dialled_with-Connected (o.connect w.trace env.id) _ w.trace refl;
    }

  module _ (again : Environment → Failure → M Connection)
      (ih : (env : Environment) (e : Failure) → Ends (again env e) (Connected opts handle))
      (env : Environment) where
    after_backoff-Connected :
        (t : Option Ended)
        → Ends (after_backoff o opts fuel again handle env t) (Connected opts handle)
    unfolding after_backoff
    after_backoff-Connected (some t) = record { run = λ w. inr (inl (wrapped_ended _ t)) }
    after_backoff-Connected none =
        Ends-after _ _
          (λ r. dial-Connected (again (refreshed env r)) (ih (refreshed env r)) (refreshed env r))

  retries-Connected :
      (left : ℕ) (req : ConnectRequest) (attempt backoff : ℕ) (env : Environment) (last : Failure)
      → Ends (retries o opts fuel left handle req attempt backoff env last) (Connected opts handle)
  unfolding retries
  retries-Connected zero req attempt backoff env last = give_up-Connected env last
  retries-Connected (suc left) req attempt backoff env last = Ends-after _ _ (λ _. Ends-after _ _ (
      after_backoff-Connected
        (retries o opts fuel left handle req (attempt + 1) (twice_below backoff))
        (retries-Connected left req (attempt + 1) (twice_below backoff)) env))

  connect_to-Connected :
      (req : ConnectRequest) (r : Result Environment) (w : World)
      → Ensured opts handle r w
      → Holds (Connected opts handle) (connect_to o opts fuel handle req r w)
  unfolding connect_to
  connect_to-Connected req (err e) w h = h
  connect_to-Connected req (ok env) w h =
      (Ends-after _ _ (λ _.
          dial-Connected (retries o opts fuel opts.connect_retries handle req 1 second env)
            (retries-Connected opts.connect_retries req 1 second env) env)).run
        w

-- Whatever the provider, the clock and the client's context answer: a connection that Connect
-- returns is the provider's answer to the last call, which was for the environment returned beside
-- it. With an error the phase recorded under the handle is FAILED, or the error comes from the
-- client's context, or it says that the environment does not exist while auto_create is off, or the
-- handle is empty.
pub connect-Connected :
    (o : Oracle) (opts : Options) (fuel : ℕ) (handle : String) (req : ConnectRequest)
    → Ends (connect o opts fuel handle req) (Connected opts handle)
unfolding connect
connect-Connected o opts fuel handle req =
    Ends-bind _ _ (ensure_alone-Ensured o opts fuel handle)
      (connect_to-Connected o opts fuel handle req)
