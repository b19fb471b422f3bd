-- ===== src/Providers/Environment.antt =====
-- providers/environment.go, the fields of capabilities.go and conn.go that the core reads.
use codespace_ssh_gateway.Shared.{ℕ, String, Bool, true, false, List, [], ◌==◌, string_eq}
use codespace_ssh_gateway.Shared.Map.{Map}

pub data State : Type 0 where
  unknown not_found provisioning starting running stopping stopped failed unavailable : State

-- `string(s)`
unfoldable pub state_text : State → String
state_text State.unknown = "UNKNOWN"
state_text State.not_found = "NOT_FOUND"
state_text State.provisioning = "PROVISIONING"
state_text State.starting = "STARTING"
state_text State.running = "RUNNING"
state_text State.stopping = "STOPPING"
state_text State.stopped = "STOPPED"
state_text State.failed = "FAILED"
state_text State.unavailable = "UNAVAILABLE"

-- s == t, for the constants above
unfoldable pub same_state : State → State → Bool
unfolding state_text
same_state s t = state_text s == state_text t

unfoldable pub transitional : State → Bool
transitional State.provisioning = true
transitional State.starting = true
transitional State.stopping = true
transitional _ = false

unfoldable pub connectable : State → Bool
connectable State.running = true
connectable _ = false

unfoldable pub startable : State → Bool
startable State.stopped = true
startable State.unknown = true
startable State.failed = true
startable _ = false

-- The fields that only the status output and the logs show are kept as text or numbers.
pub record Environment : Type 0 where
  pub id : String
  pub display_name : String
  pub provider : String
  pub state : State
  pub native_state : String
  pub attributes : List (String × String)
  pub idle_timeout : ℕ
  pub last_used_at : ℕ
  pub web_url : String

-- `providers.Environment{}`
abbrev pub no_environment : Environment
no_environment = record {
  id = "";
  display_name = "";
  provider = "";
  state = State.unknown;
  native_state = "";
  attributes = [];
  idle_timeout = 0;
  last_used_at = 0;
  web_url = "";
}

-- The fields of Capabilities that the core branches on.
pub record Capabilities : Type 0 where
  pub create : Bool
  pub stop : Bool
  pub provider_managed_idle : Bool
  pub idle_mechanism : String

-- ConnectRequest; a request with no Progress has `progress` false. Modes are bytes.
pub record ConnectRequest : Type 0 where
  pub pty : Bool
  pub term : String
  pub rows : ℕ
  pub cols : ℕ
  pub command : String
  pub modes : List ℕ
  pub env : Map String
  pub subsystem : String
  pub progress : Bool
