-- ===== src/Lifecycle/World.antt =====
-- What a goroutine of the manager sees: the provider, the clock, its context, the lines for the
-- clients that wait, and the manager's records.
--
-- The outside is an `Oracle`: each answer is any function of the trace of events so far, newest
-- first. One goroutine runs here; Lifecycle/History and Lifecycle/Flight treat interleavings.
use codespace_ssh_gateway.Shared.{Bool, ℕ, String, Bool, Option, none, some, List, ◌∷◌}
use codespace_ssh_gateway.Providers.Environment.{Environment, Capabilities}
use codespace_ssh_gateway.Providers.Errors.{Failure, Sentinel, Result}
use codespace_ssh_gateway.Lifecycle.Phase.{Phase}
use codespace_ssh_gateway.Lifecycle.States
use codespace_ssh_gateway.Lifecycle.States.{States, EnvState}

-- ctx.Err(), of a context that has ended
pub data Ended : Type 0 where
  cancelled timed_out : Ended

unfoldable pub ended_error : Ended → Failure
ended_error cancelled = Failure.sentinel Sentinel.canceled
ended_error timed_out = Failure.sentinel Sentinel.deadline_exceeded

-- The selects between a context and a timer, in get, waitFor and Connect, and the one between a
-- context and an operation, in Ensure. That of Connect has
-- its delay.
pub data Pause : Type 0 where
  retry poll join : Pause
  backoff : ℕ → Pause

-- The lines that `notify` sends.
pub data Message : Type 0 where
  phase_line : String → Message
  retrying : ℕ → Message
  adopted : String → String → Message
  still_waiting : String → ℕ → Message
  reconnecting : ℕ → ℕ → Message

-- A call of the outside, with its answer. A connection is a number.
pub data Event : Type 0 where
  got : String → Result Environment → Event
  listed : Result (List Environment) → Event
  created : String → Result Environment → Event
  started : String → Option Failure → Event
  stop_asked : String → Option Failure → Event
  dialled : String → Result ℕ → Event
  paused : Pause → Option Ended → Event
  told : String → Message → Event

pub record Oracle : Type 0 where
  pub name : String
  pub capabilities : Capabilities
  pub now : List Event → ℕ
  pub get : List Event → String → Result Environment
  pub list : List Event → Result (List Environment)
  pub create : List Event → String → Result Environment
  pub start : List Event → String → Option Failure
  pub stop : List Event → String → Option Failure
  pub connect : List Event → String → Result ℕ
  pub pause : List Event → Pause → Option Ended

abbrev pub second : ℕ
second = 1000000000

-- The options that the functions of the manager read, but for the durations.
pub record Options : Type 0 where
  pub auto_create : Bool
  pub connect_retries : ℕ
  pub stop_on_last_disconnect : Bool

pub record World : Type 0 where
  pub states : States
  pub trace : List Event

-- `none` is a run that has used up the rounds that it was given.
abbrev pub M : Type 0 → Type 0
M A = World → Option (A × World)

abbrev pub pure : {A : Type 0} → A → M A
pure a w = some (a, w)

abbrev pub continue : {A B : Type 0} → Option (A × World) → (A → M B) → Option (B × World)
continue none f = none
continue (some (a, w)) f = f a w

infixl 5 ◌>>=◌ ◌>>◌
unfoldable pub ◌>>=◌ : {A B : Type 0} → M A → (A → M B) → M B
◌>>=◌ m f w = continue (m w) f

abbrev pub ◌>>◌ : {A B : Type 0} → M A → M B → M B
m >> k = m >>= λ _. k

abbrev pub log : Event → World → World
log e w = record w { trace = e ∷ w.trace }

module _ (o : Oracle) where
  unfoldable pub call_get : String → M (Result Environment)
  call_get id w = let r = o.get w.trace id in some (r, log (got id r) w)

  unfoldable pub call_list : M (Result (List Environment))
  call_list w = let r = o.list w.trace in some (r, log (listed r) w)

  unfoldable pub call_create : String → M (Result Environment)
  call_create name w = let r = o.create w.trace name in some (r, log (created name r) w)

  unfoldable pub call_start : String → M (Option Failure)
  call_start id w = let r = o.start w.trace id in some (r, log (started id r) w)

  unfoldable pub call_stop : String → M (Option Failure)
  call_stop id w = let r = o.stop w.trace id in some (r, log (stop_asked id r) w)

  unfoldable pub call_connect : String → M (Result ℕ)
  call_connect id w = let r = o.connect w.trace id in some (r, log (dialled id r) w)

  unfoldable pub wait : Pause → M (Option Ended)
  wait p w = let r = o.pause w.trace p in some (r, log (paused p r) w)

  unfoldable pub clock : M ℕ
  clock w = some (o.now w.trace, w)

  unfoldable pub tell : String → Message → M (Unit {0})
  tell env message w = some (tt, log (told env message) w)

  unfoldable pub line_event : String → Option String → World → World
  line_event env none w = w
  line_event env (some s) w = log (told env (phase_line s)) w

  unfoldable pub set_phase : String → Phase → String → M (Unit {0})
  set_phase env to reason w =
      let r = States.set_phase (o.now w.trace) env to reason w.states in
      some (tt, line_event env r.1 (record w { states = r.0 }))

  unfoldable pub observe : Environment → M (Unit {0})
  observe env w = some (tt, record w { states = States.observe (o.now w.trace) env w.states })

  unfoldable pub resolve : String → Environment → M (Unit {0})
  resolve handle env w =
      some (tt, record w { states = States.resolve (o.now w.trace) handle env w.states })

  unfoldable pub record_err : String → Failure → M (Unit {0})
  record_err env e w =
      some (tt, record w { states = States.record_err (o.now w.trace) env e w.states })

  unfoldable pub bump : String → (EnvState → EnvState) → M (Unit {0})
  bump env f w = some (tt, record w { states = States.bump (o.now w.trace) env f w.states })
