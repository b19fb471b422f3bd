-- ===== src/Lifecycle/States.antt =====
-- core/lifecycle/manager.go: what the manager records of each environment. The mutex makes each
-- method one step; the time of `m.now()` is an argument.
use codespace_ssh_gateway.Shared.{
  ℕ, ◌+◌, ◌-◌, String, Option, none, some, List, [], ◌∷◌, ◌++◌, ◌==◌, string_eq, ltb, length, drop,
  if◌then◌else◌,
}
use codespace_ssh_gateway.Shared.Map.{Map, get, put}
use codespace_ssh_gateway.Providers.Environment.{Environment}
use codespace_ssh_gateway.Providers.Errors.{Failure, error_text}
use codespace_ssh_gateway.Lifecycle.Phase.{Phase, Transition, same_phase, notice, max_history}

-- The entries of `states`; each pointer of that map belongs to one key.
pub record EnvState : Type 0 where
  pub phase : Phase
  pub since : ℕ
  pub resolved : String
  pub native : String
  pub last_err : String
  pub starts : ℕ
  pub creates : ℕ
  pub connects : ℕ
  pub history : List Transition

abbrev pub States : Type 0
States = Map EnvState

-- What stateLocked stores for a name that it does not know.
unfoldable pub new_state : ℕ → EnvState
new_state now = record {
  phase = Phase.unknown;
  since = now;
  resolved = "";
  native = "";
  last_err = "";
  starts = 0;
  creates = 0;
  connects = 0;
  history = [];
}

abbrev pub or_new : ℕ → Option EnvState → EnvState
or_new now none = new_state now
or_new now (some st) = st

-- stateLocked: the entry, made if it is missing. Each caller writes it back.
unfoldable pub state_locked : ℕ → String → States → EnvState
state_locked now env m = or_new now (get m env)

-- The last `max_history` transitions.
unfoldable pub trim : List Transition → List Transition
trim h = if ltb max_history (length h) then drop (length h - max_history) h else h

abbrev pub transition : ℕ → Phase → String → EnvState → Transition
transition now to reason st = record { from = st.phase; to = to; at = now; reason = reason }

-- The writes of setPhase, for a phase that changes.
unfoldable pub enter : ℕ → Phase → String → EnvState → EnvState
unfolding trim
enter now to reason st = record st {
  phase = to;
  since = now;
  last_err = if same_phase to Phase.failed then st.last_err else "";
  history = trim (st.history ++ transition now to reason st ∷ []);
}

-- setPhase of one entry; a repeated phase is collapsed.
unfoldable pub move : ℕ → Phase → String → EnvState → EnvState
move now to reason st = if same_phase st.phase to then st else enter now to reason st

-- The line that setPhase sends to the clients that wait, if any.
unfoldable pub line : Phase → EnvState → Option String
line to st =
    if same_phase st.phase to then none else if notice to == "" then none else some (notice to)

unfoldable pub set_phase : ℕ → String → Phase → String → States → States × Option String
set_phase now env to reason m =
    let st = state_locked now env m in (put m env (move now to reason st), line to st)

-- Phase: the answer, and the entry that it makes for an unknown name.
unfoldable pub phase_of : ℕ → String → States → Phase × States
phase_of now env m = let st = state_locked now env m in (st.phase, put m env st)

unfoldable pub observe : ℕ → Environment → States → States
observe now env m =
    if env.id == ""
    then m
    else (let st = state_locked now env.id m in
        put m env.id
          (record st { native = if env.native_state == "" then st.native else env.native_state }))

unfoldable pub resolve : ℕ → String → Environment → States → States
resolve now handle env m =
    if env.id == ""
    then m
    else put m handle (record (state_locked now handle m) { resolved = env.id })

or_handle : String → Option EnvState → String
or_handle handle none = handle
or_handle handle (some st) = if st.resolved == "" then handle else st.resolved

unfoldable pub resolved_id : String → States → String
unfolding or_handle
resolved_id handle m = or_handle handle (get m handle)

unfoldable pub record_err : ℕ → String → Failure → States → States
record_err now env e m = put m env (record (state_locked now env m) { last_err = error_text e })

unfoldable pub bump : ℕ → String → (EnvState → EnvState) → States → States
bump now env f m = put m env (f (state_locked now env m))

abbrev pub add_start : EnvState → EnvState
add_start s = record s { starts = s.starts + 1 }

abbrev pub add_create : EnvState → EnvState
add_create s = record s { creates = s.creates + 1 }

abbrev pub add_connect : EnvState → EnvState
add_connect s = record s { connects = s.connects + 1 }
