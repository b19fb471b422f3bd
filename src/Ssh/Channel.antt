-- ===== src/Ssh/Channel.antt =====
-- ssh/session.go and the parts of proxy.go and forward.go that it uses. A channel's requests come
-- one at a time; a payload that gossh.Unmarshal refuses is `none`. The mutex makes each locked
-- section one step, and what a request does outside is a list of effects.
use codespace_ssh_gateway.Shared.{
  ℕ, ◌%◌, ◌^◌, String, Bool, true, false, not, ◌&&◌, Option, none, some, List, [], ◌∷◌, ◌++◌, ◌==◌,
  string_eq, ltb, if◌then◌else◌,
}
use codespace_ssh_gateway.Shared.Map.{Map, get, put, del}
use codespace_ssh_gateway.Gateway.Names.{Login}
use codespace_ssh_gateway.Gateway.Opening.{OpenRequest}

-- The wire messages. Dimensions are uint32; modes are bytes.
pub record PtyRequest : Type 0 where
  pub term : String
  pub columns : ℕ
  pub rows : ℕ
  pub modes : List ℕ

pub record WindowChange : Type 0 where
  pub columns : ℕ
  pub rows : ℕ

-- The type of a request, with its payload.
pub data Kind : Type 0 where
  pty_req : Option PtyRequest → Kind
  env : Option (String × String) → Kind
  window_change : Option WindowChange → Kind
  signal : Option String → Kind
  shell : Kind
  exec subsystem : Option String → Kind
  other : String → Kind

pub record Request : Type 0 where
  pub kind : Kind
  pub want_reply : Bool

-- sessionState; a connection is a number.
pub record Channel : Type 0 where
  pub pty : Bool
  pub term : String
  pub rows : ℕ
  pub cols : ℕ
  pub modes : List ℕ
  pub env : Map String
  pub quiet : Bool
  pub started : Bool
  pub conn : Option ℕ

-- A reply to the client, a call of the connection, or the goroutine that runs the session.
pub data Effect : Type 0 where
  replied : Bool → Effect
  resized : ℕ → ℕ → ℕ → Effect
  signalled : ℕ → String → Effect
  ran : String → String → String → Effect

unfoldable pub new_channel : Channel
new_channel = record {
  pty = false;
  term = "";
  rows = 0;
  cols = 0;
  modes = [];
  env = [];
  quiet = false;
  started = false;
  conn = none;
}

-- clampDimension
unfoldable pub clamp_dimension : ℕ → ℕ
clamp_dimension v = if ltb 0xffff v then 0xffff else v % 2 ^ 16

unfoldable pub reply : Request → Bool → List Effect
reply req ok = if req.want_reply then replied ok ∷ [] else []

abbrev pub resize_conn : Option ℕ → ℕ → ℕ → List Effect
resize_conn none rows cols = []
resize_conn (some conn) rows cols =
    if ltb 0 rows && ltb 0 cols then resized conn rows cols ∷ [] else []

unfoldable pub resize : ℕ → ℕ → Channel → Channel × List Effect
resize rows cols st =
    let st' = record st { rows = rows; cols = cols } in (st', resize_conn st'.conn rows cols)

abbrev pub signal_conn : Option ℕ → String → List Effect
signal_conn none name = []
signal_conn (some conn) name = signalled conn name ∷ []

-- forwardSignal
unfoldable pub forward_signal : String → Channel → List Effect
forward_signal name st = signal_conn st.conn name

unfoldable pub begin : Request → String → String → String → Channel → Channel × List Effect
begin req kind command name st = if st.started then (st, reply req false) else (
  record st { started = true; quiet = not (name == "") },
  reply req true ++ (ran kind command name ∷ []),
)

unfoldable pub set_pty : PtyRequest → Channel → Channel
set_pty m st = if st.started then st else record st {
  pty = true;
  term = m.term;
  rows = clamp_dimension m.rows;
  cols = clamp_dimension m.columns;
  modes = m.modes;
}

unfoldable pub set_env : String → String → Channel → Channel
set_env name value st = if st.started then st else record st { env = put st.env name value }

abbrev pub with_effects : List Effect → Channel × List Effect → Channel × List Effect
with_effects es (st, fs) = (st, fs ++ es)

-- The body of handleSession's loop.
unfoldable pub handle_kind : Request → Kind → Channel → Channel × List Effect
handle_kind req (pty_req none) st = (st, reply req false)
handle_kind req (pty_req (some m)) st = (set_pty m st, reply req (not st.started))
handle_kind req (env none) st = (st, reply req false)
handle_kind req (env (some (name, value))) st = (set_env name value st, reply req true)
handle_kind req (window_change none) st = (st, reply req false)
handle_kind req (window_change (some m)) st =
    with_effects (reply req true) (resize (clamp_dimension m.rows) (clamp_dimension m.columns) st)
handle_kind req (signal none) st = (st, reply req true)
handle_kind req (signal (some name)) st = (st, forward_signal name st ++ reply req true)
handle_kind req shell st = begin req "shell" "" "" st
handle_kind req (exec none) st = (st, reply req false)
handle_kind req (exec (some command)) st = begin req "exec" command "" st
handle_kind req (subsystem none) st = (st, reply req false)
handle_kind req (subsystem (some name)) st = begin req "subsystem" "" name st
handle_kind req (other name) st = (st, reply req false)

unfoldable pub handle : Request → Channel → Channel × List Effect
handle req st = handle_kind req req.kind st

-- EnvVarEnvironment
abbrev pub environment_variable : String
environment_variable = "GATEWAY_ENV"

-- The variables that snapshot returns.
unfoldable pub forwarded_env : Channel → Map String
forwarded_env st = del st.env environment_variable

abbrev pub or_text : Option String → String
or_text none = ""
or_text (some s) = s

-- environmentHint
unfoldable pub environment_hint : Login → Channel → String
environment_hint login st =
    if login.environment_hint == ""
    then or_text (get st.env environment_variable)
    else login.environment_hint

-- The request that run makes of the backend.
unfoldable pub open_request :
    Login → String → String → String → String → String → Channel → OpenRequest
open_request login remote_addr client_version key_fingerprint command name st = record {
  user = login.user;
  environment_hint = environment_hint login st;
  remote_addr = remote_addr;
  client_version = client_version;
  key_fingerprint = key_fingerprint;
  connect = record {
    pty = st.pty;
    term = st.term;
    rows = st.rows;
    cols = st.cols;
    command = command;
    subsystem = name;
    progress = true;
    modes = st.modes;
    env = forwarded_env st;
  };
}

-- setConn, of a connection that OpenSession returned
unfoldable pub set_conn : ℕ → Channel → Channel × List Effect
set_conn conn st = (record st { conn = some conn }, resize_conn (some conn) st.rows st.cols)

-- What takes the channel's lock: a request of the client, or run with the connection it opened.
pub data Event : Type 0 where
  asked : Request → Event
  connected : ℕ → Event

unfoldable pub react : Event → Channel → Channel × List Effect
react (asked req) st = handle req st
react (connected conn) st = set_conn conn st

-- The loop of handleSession, with run beside it, in the order in which the lock is taken.
unfoldable pub handle_session : List Event → Channel → Channel × List Effect
handle_session [] st = (st, [])
handle_session (e ∷ es) st =
    let r = react e st in let rest = handle_session es r.0 in (rest.0, r.1 ++ rest.1)
