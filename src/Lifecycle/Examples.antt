-- ===== src/Lifecycle/Examples.antt =====
-- A stopped environment that is started, and clients that come and go.
use codespace_ssh_gateway.Shared.{
  ◌==◌, nat_eq, if◌then◌else◌, ℕ, Bool, true, false, Option, none, some, List, [], ◌∷◌, ◌++◌, ◌≡◌,
  refl, arith, leb, if◌then◌else◌,
}
use codespace_ssh_gateway.Shared.Map.{get, put}
use codespace_ssh_gateway.Providers.Environment.{Environment, State, no_environment}
use codespace_ssh_gateway.Providers.Errors.{Failure, ok, err}
use codespace_ssh_gateway.Lifecycle.Phase.{Phase}
use codespace_ssh_gateway.Lifecycle.History.{
  AreLogs, perform_all, perform_all-AreLogs, sets, observes,
}
use codespace_ssh_gateway.Lifecycle.Flight.Counting.{callers, times}
use codespace_ssh_gateway.Lifecycle.Flight.System.{
  Ticket, System, start, Reach, here, next, enters, entered, released,
}
use codespace_ssh_gateway.Lifecycle.Flight.Safety.{single_flight, waits_for_live, abandons_lem}
use codespace_ssh_gateway.Lifecycle.Flight.{Operation, enter, lookup, add_notifier}
use codespace_ssh_gateway.Lifecycle.World.{Event, started, Oracle, Options, World, Ended, timed_out}
use codespace_ssh_gateway.Lifecycle.Wp.{Ends}
use codespace_ssh_gateway.Lifecycle.BringUp.{ensure}
use codespace_ssh_gateway.Lifecycle.Outcome.{Outcome, ensure-Outcome}
use codespace_ssh_gateway.Lifecycle.Halting.{polls, Expires}
use codespace_ssh_gateway.Lifecycle.Halting.Answers.{ensure_answers}
use codespace_ssh_gateway.Providers.Environment.{ConnectRequest}
use codespace_ssh_gateway.Lifecycle.Wp.{Holds}
use codespace_ssh_gateway.Lifecycle.Connect.{connect, on_session_closed}
use codespace_ssh_gateway.Lifecycle.Connecting.{Connected, connect-Connected}
use codespace_ssh_gateway.Lifecycle.Closing.{ClosedAt, on_session_closed_lem}
use codespace_ssh_gateway.Lifecycle.Halting.Connects.{connect_answers}

-- The environment runs once it was started.
was_started : List Event → Bool
was_started [] = false
was_started (started id none ∷ es) = true
was_started (_ ∷ es) = was_started es

after : ℕ → List Event → Option Ended
after n es = if leb n (polls es) then some timed_out else none

abbrev laptop : Bool → Environment
laptop on = record no_environment {
  id = "box";
  state = if on then State.running else State.stopped;
}

abbrev provider : Oracle
provider = record {
  name = "lab";
  capabilities = record {
    create = true;
    stop = true;
    provider_managed_idle = false;
    idle_mechanism = "";
  };
  now = λ es. 7;
  get = λ es id. ok (laptop (was_started es));
  list = λ es. ok (laptop (was_started es) ∷ []);
  create = λ es name. err (Failure.text "quota");
  start = λ es id. none;
  stop = λ es id. none;
  connect = λ es id. ok 1;
  pause = λ es p. after 3 es;
}

abbrev opts : Options
opts = record { auto_create = true; connect_retries = 2; stop_on_last_disconnect = false }

abbrev empty : World
empty = record { states = []; trace = [] }

provider-Expires : Expires provider 3
unfolding after
provider-Expires es le e = ground (arith, le, e)

ensure-Outcome_example : Ends (ensure provider opts 4 "box") (Outcome opts "box")
ensure-Outcome_example = ensure-Outcome provider opts 4 "box"

ensure_answers_example : ¬ (ensure provider opts 4 "box" empty ≡ none)
ensure_answers_example = ensure_answers provider opts 4 3 "box" empty provider-Expires (omega arith)

perform_all-AreLogs_example : AreLogs (
    perform_all [] (
      sets 1 "box" Phase.starting "start"
      ∷ observes 2 (laptop true)
      ∷ sets 3 "box" Phase.starting "start"
      ∷ sets 4 "box" Phase.running "ready"
      ∷ []))
perform_all-AreLogs_example = perform_all-AreLogs (
    sets 1 "box" Phase.starting "start"
    ∷ observes 2 (laptop true)
    ∷ sets 3 "box" Phase.starting "start"
    ∷ sets 4 "box" Phase.running "ready"
    ∷ [])

-- Two clients join one operation.
abbrev two : System
two = entered 8 "box" none (entered 7 "box" (some 1) start)

two-Reach : Reach two
two-Reach = next (next here (enters 7 "box" (some 1) refl)) (enters 8 "box" none refl)

abbrev seat : Ticket
seat = record { handle = "box"; op = 0 }

abbrev other : Ticket
other = record { handle = "box"; op = 0 }

abbrev shared : Operation
shared = record {
  handle = "box";
  done = false;
  result = none;
  waiters = 2;
  cancelled = false;
  started_at = 7;
  notifiers = (1, 1) ∷ [];
  next_token = 1;
}

single_flight_example : seat.op ≡ other.op
unfolding start enter lookup get put add_notifier callers
single_flight_example =
    single_flight seat.op other.op shared shared two-Reach refl refl refl refl refl (omega arith)
      (omega arith)

waits_for_live_example :
    (shared.cancelled ≡ false) × (times 0 two.cancelling ≡ 0) × (get two.flight.ops "box" ≡ some 0)
unfolding start enter lookup get put add_notifier
waits_for_live_example = waits_for_live [] (other ∷ []) seat shared two-Reach refl refl refl

abandons_lem_example :
    let u = released seat shared true ([] ++ (other ∷ [])) two in
    (get u.flight.ops "box"
      ≡ (if callers seat.op ([] ++ (other ∷ [])) == 0 then none else some seat.op))
    × (u.cancelling ≡ (
        if callers seat.op ([] ++ (other ∷ [])) == 0
        then seat.op ∷ two.cancelling
        else two.cancelling))
unfolding start enter lookup get put add_notifier
abandons_lem_example = abandons_lem [] (other ∷ []) seat shared two-Reach refl refl refl

abbrev request : ConnectRequest
request = record {
  pty = true;
  term = "xterm";
  rows = 24;
  cols = 80;
  command = "";
  subsystem = "";
  progress = true;
  modes = [];
  env = [];
}

connect-Connected_example : Ends (connect provider opts 4 "box" request) (Connected opts "box")
connect-Connected_example = connect-Connected provider opts 4 "box" request

connect_answers_example : ¬ (connect provider opts 4 "box" request empty ≡ none)
connect_answers_example =
    connect_answers provider opts 4 3 "box" request empty provider-Expires (omega arith)

on_session_closed_lem_example :
    Holds (ClosedAt provider opts "box" 0 empty) (on_session_closed provider opts "box" 0 empty)
on_session_closed_lem_example = on_session_closed_lem provider opts "box" 0 empty
