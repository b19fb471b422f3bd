-- ===== src/Gateway/Examples.antt =====
-- A client that is let in, one that is not, and what each leaves.
use codespace_ssh_gateway.Shared.{◌⁺◌, true, false, none, some, [], ◌∷◌, ◌≡◌, refl, arith}
use codespace_ssh_gateway.Providers.Environment.{ConnectRequest}
use codespace_ssh_gateway.Providers.Errors.{Failure, err}
use codespace_ssh_gateway.Session.Manager.{new_manager, insert}
use codespace_ssh_gateway.Session.Invariant.{Inv, new_manager-Inv, insert-Inv}
use codespace_ssh_gateway.Lifecycle.World.{Oracle, Options}
use codespace_ssh_gateway.Gateway.Names.{parse_login}
use codespace_ssh_gateway.Gateway.Redact.{redact, replace_from, count}
use codespace_ssh_gateway.Gateway.Texts.{has_plus, parse_login_lem}
use codespace_ssh_gateway.Gateway.Opening.{
  OpenRequest, Gateway, Opened, info_of, open_session, release,
}
use codespace_ssh_gateway.Gateway.Leaks.{
  Settled, open_session-Settled, Released, release-Released, IsHeld, inserted-IsHeld,
}

abbrev shell : ConnectRequest
shell = record {
  pty = true;
  term = "xterm";
  rows = 24;
  cols = 80;
  command = "";
  subsystem = "";
  progress = true;
  modes = [];
  env = [];
}

abbrev request : OpenRequest
request = record {
  user = "root";
  environment_hint = "box";
  remote_addr = "127.0.0.1:5000";
  client_version = "SSH-2.0-OpenSSH_9.6";
  key_fingerprint = "SHA256:k";
  connect = shell;
}

-- A provider without a network.
abbrev offline : Oracle
offline = record {
  name = "lab";
  capabilities = record {
    create = false;
    stop = true;
    provider_managed_idle = true;
    idle_mechanism = "timeout";
  };
  now = λ es. 7;
  get = λ es id. err (Failure.text "no route to host");
  list = λ es. err (Failure.text "no route to host");
  create = λ es name. err (Failure.text "no route to host");
  start = λ es id. some (Failure.text "no route to host");
  stop = λ es id. none;
  connect = λ es id. err (Failure.text "no route to host");
  pause = λ es p. none;
}

abbrev opts : Options
opts = record { auto_create = false; connect_retries = 1; stop_on_last_disconnect = true }

abbrev idle : Gateway
idle = record { sessions = new_manager 2 1; world = record { states = []; trace = [] } }

open_session-Settled_example :
    Settled (new_manager 2 1) (open_session offline opts 5 "" [] 7 request idle)
unfolding new_manager
open_session-Settled_example =
    open_session-Settled offline opts 5 "" [] 7 request idle (new_manager-Inv 2 1) (omega arith)

abbrev held : Opened
held = record { conn = 1; environment = "box-1"; session = 0; handle = "box"; released = false }

abbrev serving : Gateway
serving = record idle { sessions = insert 1 7 (info_of request "box") (new_manager 2 1) }

serving-Inv : Inv serving.sessions
unfolding new_manager
serving-Inv =
    insert-Inv 7 1 (info_of request "box") (new_manager 2 1) (new_manager-Inv 2 1) (omega arith)

serving-IsHeld : IsHeld (new_manager 2 1) held serving.sessions
unfolding new_manager info_of
serving-IsHeld =
    inserted-IsHeld 7 (info_of request "box") (new_manager 2 1) (new_manager-Inv 2 1) (omega arith)
      1 "box-1"

release-Released_example :
    Released offline opts 5 "" [] (new_manager 2 1) (release offline opts 5 "" [] held serving)
release-Released_example =
    release-Released offline opts 5 "" [] (new_manager 2 1) held serving serving-Inv serving-IsHeld

parse_login_lem_example :
    parse_login ("root" ⁺ ("+" ⁺ "my+box")) ≡ record { user = "root"; environment_hint = "my+box" }
unfolding has_plus
parse_login_lem_example = parse_login_lem "root" "my+box" refl

-- A secret that continues one registered before it is not replaced as a whole.
rest_of_longer_secret : redact ("abcdefgh" ∷ "abcdefghij" ∷ []) "abcdefghij" ≡ "***ij"
unfolding redact replace_from count
rest_of_longer_secret = refl
