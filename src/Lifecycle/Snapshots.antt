-- ===== src/Lifecycle/Snapshots.antt =====
-- core/lifecycle/manager.go: Status and All, for `gateway status`.
use codespace_ssh_gateway.Shared.{
  ℕ, String, Bool, true, false, Option, none, some, List, [], ◌∷◌, if◌then◌else◌, ◌≡◌, refl, arith,
  string_eq, eq_iff,
}
use codespace_ssh_gateway.Shared.Map.{get, put, get-put}
use codespace_ssh_gateway.Session.Listing.{text_before}
use codespace_ssh_gateway.Lifecycle.Phase.{Phase, Transition}
use codespace_ssh_gateway.Lifecycle.States.{States, state_locked}
use codespace_ssh_gateway.Lifecycle.Flight.{Flight, Operation}

pub record EnvStatus : Type 0 where
  pub environment : String
  pub resolved : String
  pub phase : Phase
  pub since : ℕ
  pub native_state : String
  pub last_error : String
  pub starts : ℕ
  pub creates : ℕ
  pub connects : ℕ
  pub in_flight : Bool
  pub waiters : ℕ
  pub history : List Transition

abbrev pub waiters_at : Option Operation → ℕ
waiters_at none = 0
waiters_at (some op) = op.waiters

abbrev pub with_operation : Flight → Option ℕ → EnvStatus → EnvStatus
with_operation f none out = out
with_operation f (some o) out = record out { in_flight = true; waiters = waiters_at (f.heap o) }

-- Status, with the entry that it makes for an unknown name.
unfoldable pub status : ℕ → Flight → String → States → EnvStatus × States
status now f env m =
    let st = state_locked now env m in
    (
      with_operation f (get f.ops env) (record {
        environment = env;
        resolved = st.resolved;
        phase = st.phase;
        since = st.since;
        native_state = st.native;
        last_error = st.last_err;
        starts = st.starts;
        creates = st.creates;
        connects = st.connects;
        in_flight = false;
        waiters = 0;
        history = st.history;
      }),
      put m env st,
    )

-- sort.Strings
unfoldable pub insert_name : String → List String → List String
insert_name a [] = a ∷ []
insert_name a (b ∷ l) =
    let rest = insert_name a l in if text_before b a then b ∷ rest else a ∷ b ∷ l

-- The names of the map, sorted.
unfoldable pub names_of : States → List String
names_of [] = []
names_of ((name, st) ∷ m) = insert_name name (names_of m)

unfoldable pub status_each : ℕ → Flight → List String → States → List EnvStatus × States
status_each now f [] m = ([], m)
status_each now f (env ∷ names) m =
    let r = status now f env m in let rest = status_each now f names r.1 in (r.0 ∷ rest.0, rest.1)

-- All
unfoldable pub all : ℕ → Flight → States → List EnvStatus × States
all now f m = status_each now f (names_of m) m

operation_lem :
    (f : Flight) (o : Option ℕ) (out : EnvStatus)
    → ((with_operation f o out).phase ≡ out.phase)
      × ((with_operation f o out).history ≡ out.history)
operation_lem f none out = (refl, refl)
operation_lem f (some o) out = (refl, refl)

-- Status tells what is recorded and makes no difference to it: each environment has the records that
-- stateLocked finds, before and after.
pub status_lem :
    (now : ℕ) (f : Flight) (env : String) (m : States) (other : String)
    → (state_locked now other (status now f env m).1 ≡ state_locked now other m)
      × ((status now f env m).0.phase ≡ (state_locked now env m).phase)
      × ((status now f env m).0.history ≡ (state_locked now env m).history)
unfolding status state_locked
status_lem now f env m other = (
  ground (arith, get-put m env (state_locked now env m) other, eq_iff env other),
  (operation_lem f (get f.ops env) _).0,
  (operation_lem f (get f.ops env) _).1,
)
