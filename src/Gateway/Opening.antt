-- ===== src/Gateway/Opening.antt =====
-- core/gateway/backend.go: OpenSession and Release.
use codespace_ssh_gateway.Shared.{
  ℕ, String, ◌⁺◌, Bool, true, false, Option, none, some, List, ◌==◌, string_eq, if◌then◌else◌,
}
use codespace_ssh_gateway.Providers.Environment.{ConnectRequest}
use codespace_ssh_gateway.Providers.Errors.{Result, ok, err}
use codespace_ssh_gateway.Session.Manager as Registry
use codespace_ssh_gateway.Session.Manager.{Info, close_session, count_for}
use codespace_ssh_gateway.Lifecycle.World.{Oracle, Options, World}
use codespace_ssh_gateway.Lifecycle.Connect.{
  Connection, connect, on_session_opened, on_session_closed,
}
use codespace_ssh_gateway.Gateway.Resolve.{resolve_environment, user_facing}

pub record OpenRequest : Type 0 where
  pub user : String
  pub environment_hint : String
  pub remote_addr : String
  pub client_version : String
  pub key_fingerprint : String
  pub connect : ConnectRequest

-- The state behind the SSH server: the registry, and the lifecycle with its provider.
pub record Gateway : Type 0 where
  pub sessions : Registry.Manager
  pub world : World

-- What OpenSession returns. Release is `release`, with the session's address and its handle;
-- `released` is its variable.
pub record Opened : Type 0 where
  pub conn : ℕ
  pub environment : String
  pub session : ℕ
  pub handle : String
  pub released : Bool

unfoldable pub kind_of : ConnectRequest → String
kind_of req =
    if req.subsystem == ""
    then (if req.command == "" then "shell" else "exec")
    else "subsystem:" ⁺ req.subsystem

unfoldable pub info_of : OpenRequest → String → Info
info_of req handle = record {
  id = "";
  user = req.user;
  environment = handle;
  remote_addr = req.remote_addr;
  client_version = req.client_version;
  started_at = 0;
  pty = req.connect.pty;
  kind = kind_of req.connect;
  phase = "preparing";
}

-- A step that may run out of the rounds of waitFor.
abbrev pub Outcome : Type 0
Outcome = Option (Gateway × Result Opened)

module _ (o : Oracle) (opts : Options) (fuel : ℕ) (default : String) (secrets : List String) where
  abbrev pub marked : Opened → Registry.Manager → Option (Unit {0} × World) → Outcome
  marked s m none = none
  marked s m (some (u, w)) =
      some (record { sessions = Registry.set_phase "connected" s.session m; world = w }, ok s)

  -- The connection's answer, for the session at address `p`.
  unfoldable pub attached : ℕ → String → Registry.Manager → Option (Connection × World) → Outcome
  attached p handle m none = none
  attached p handle m (some ((err e, env), w)) =
      some (
        record { sessions = (close_session p m).0; world = w },
        err (user_facing o secrets handle e),
      )
  attached p handle m (some ((ok conn, env), w)) =
      marked
        (record {
          conn = conn;
          environment = env.id;
          session = p;
          handle = handle;
          released = false;
        })
        m (on_session_opened o handle w)

  -- From the registry's answer on.
  unfoldable pub admitted : OpenRequest → String → World → Registry.Manager → Result ℕ → Outcome
  admitted req handle w m (err e) = some (record { sessions = m; world = w }, err e)
  admitted req handle w m (ok p) = attached p handle m (connect o opts fuel handle req.connect w)

  unfoldable pub open_on :
      ℕ → OpenRequest → Registry.Manager → Option (Result String × World) → Outcome
  open_on now req m none = none
  open_on now req m (some (err e, w)) = some (record { sessions = m; world = w }, err e)
  open_on now req m (some (ok handle, w)) =
      let r = Registry.open_session now (info_of req handle) m in admitted req handle w r.0 r.1

  -- OpenSession
  unfoldable pub open_session : ℕ → OpenRequest → Gateway → Outcome
  open_session now req g =
      open_on now req g.sessions (resolve_environment o default req.environment_hint g.world)

  abbrev pub closing :
      Registry.Manager → Opened → Option (Bool × World) → Option (Gateway × Opened × Bool)
  closing m s none = none
  closing m s (some (asked, w)) =
      some (record { sessions = m; world = w }, record s { released = true }, asked)

  -- Release, and whether it starts a stop of the environment
  unfoldable pub release : Opened → Gateway → Option (Gateway × Opened × Bool)
  release s g =
      if s.released
      then some (g, s, false)
      else (let m = (close_session s.session g.sessions).0 in
          closing m s (on_session_closed o opts s.handle (count_for m s.handle) g.world))
