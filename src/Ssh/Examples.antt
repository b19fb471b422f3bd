-- ===== src/Ssh/Examples.antt =====
-- Runs of the ssh model, and the properties at concrete inputs.
use codespace_ssh_gateway.Shared.{
  ◌+◌, ◌⁺◌, List, not, true, false, ◌&&◌, some, [], ◌∷◌, ◌≡◌, ◌≤◌, refl, arith, ◌==◌, string_eq,
  if◌then◌else◌, String,
}
use codespace_ssh_gateway.Providers.Errors.{Failure, Result, ok, err}
use codespace_ssh_gateway.Gateway.Names.{
  Login, parse_login, trim_space, trim_left, trim_right, space,
}
use codespace_ssh_gateway.Secret.{is_empty}
use codespace_ssh_gateway.Shared.Map.{get, put}
use codespace_ssh_gateway.Ssh.Channel.{
  subsystem, Kind, pty_req, env, window_change, shell, Channel, Event, asked, connected,
  handle_session, new_channel, react, handle, handle_kind, set_env, begin, reply, resize,
  clamp_dimension, set_conn, set_pty, open_request,
}
use codespace_ssh_gateway.Ssh.Answers.{
  runs, replies, wanted, bit, replies-handle_session, runs-handle_session, with_size,
  open_request-handle_session,
}
use codespace_ssh_gateway.Shared.Integers.{pos}
use codespace_ssh_gateway.Ssh.Exit.{ExitStatus, notify, pump_end, fail, is_zero}
use codespace_ssh_gateway.Ssh.Notices.{succeeds, succeeds-pump_end, notify-begin}
use codespace_ssh_gateway.Ssh.Teardown.{
  finished, ended, Life, start, Move, begins, opens, stores, pumped, looks, hangs_up, joins, once,
  step, and_then, run_all, begins_at, opens_at, stores_at, pumped_at, looks_at, hangs_up_at,
  joins_at, released,
}
use codespace_ssh_gateway.Ssh.Releasing.{closes-run_all, releases-run_all, left, teardown_ends}
use codespace_ssh_gateway.Ssh.Auth.{
  AuthConfig, Authorizer, KeyLine, missing, new_authorizer, load_keys, inline_keys,
  parse_authorized_key, without_options, first_key, both_keys, with_keys, finish, no_keys,
  allow_list, allow,
}
use codespace_ssh_gateway.Ssh.Auth.Checking.{
  public_key, authenticate, authenticate_key, unless_refused, check_user, allowed_in,
  permissions_of, find_key,
}
use codespace_ssh_gateway.Ssh.Auth.Policy.{accepted, named, presented, Shown}
use codespace_ssh_gateway.Ssh.Auth.Admits.{authenticate-new_authorizer, authenticate-Shown}

abbrev asking : Kind → Event
asking k = asked (record { kind = k; want_reply = true })

abbrev select : Event
select = asking (env (some ("GATEWAY_ENV", "dev")))

-- A client that asks for two shells, and a connection that comes between.
abbrev talk : List Event
talk =
    select
    ∷ asking (pty_req (some (record { term = "xterm"; columns = 80; rows = 70000; modes = [] })))
    ∷ asking shell
    ∷ connected 4
    ∷ asking (window_change (some (record { columns = 100; rows = 40 })))
    ∷ asking shell
    ∷ []

replies-handle_session_example : replies (handle_session talk new_channel).1 ≡ wanted talk
replies-handle_session_example = replies-handle_session talk new_channel

runs-handle_session_example :
    bit new_channel.started + runs (handle_session talk new_channel).1
    ≡ bit (handle_session talk new_channel).0.started
runs-handle_session_example = runs-handle_session talk new_channel

one_run : runs (handle_session talk new_channel).1 ≡ 1
unfolding handle_session react handle handle_kind set_env begin reply resize clamp_dimension
    set_conn set_pty new_channel runs
one_run = refl

abbrev guest : Login
guest = record { user = "git"; environment_hint = "" }

abbrev started_channel : Channel
started_channel = record new_channel { started = true }

open_request-handle_session_example :
    open_request guest "10.0.0.9:5" "SSH-2.0-Go" "" "" "" (handle_session talk started_channel).0
    ≡ with_size
        (handle_session talk started_channel).0.rows
        (handle_session talk started_channel).0.cols
        (open_request guest "10.0.0.9:5" "SSH-2.0-Go" "" "" "" started_channel)
open_request-handle_session_example =
    open_request-handle_session guest "10.0.0.9:5" "SSH-2.0-Go" "" "" "" talk started_channel refl

-- The client hangs up before the session is open: nobody releases it.
abbrev hung_up : List Move
hung_up = begins ∷ looks ∷ hangs_up ∷ opens ∷ stores ∷ pumped ∷ joins ∷ []

abbrev orphan : Life
orphan = record {
  runner = finished;
  closer = ended;
  started = true;
  stored = true;
  opened = true;
  late = true;
  closes = 0;
  releases = 0;
}

hung_up_lem : run_all hung_up start ≡ some orphan
unfolding run_all and_then step start begins_at opens_at stores_at pumped_at looks_at hangs_up_at
    joins_at released
hung_up_lem = refl

closes-run_all_example :
    (orphan.closes ≡ once (orphan.stored && not orphan.late))
    × (orphan.releases ≡ once (orphan.stored && not orphan.late))
closes-run_all_example = closes-run_all hung_up orphan hung_up_lem refl

releases-run_all_example :
    (orphan.releases ≤ once orphan.opened)
    × (orphan.closes ≤ once orphan.opened)
    × (orphan.releases ≤ orphan.closes)
releases-run_all_example = releases-run_all hung_up orphan hung_up_lem

teardown_ends_example :
    (l' : Life) × (run_all (left start.closer start.started) start ≡ some l')
    × (l'.closer ≡ ended)
    × (l'.runner ≡ start.runner)
teardown_ends_example = teardown_ends start

abbrev parse : String → Result KeyLine
parse line =
    if line == "ssh-ed25519 AAAA me"
    then ok (record { key = "AAAA"; comment = "me"; options = [] })
    else err (Failure.text "ssh: no key found")

abbrev print : String → String
print key = "SHA256:" ⁺ key

abbrev listed_config : AuthConfig
listed_config = record {
  authorized_keys_file = "";
  authorized_keys_inline = "ssh-ed25519 AAAA me" ∷ [];
  password_auth = false;
  password = record { v = "" };
  allowed_users = "root" ∷ [];
  allow_anonymous = false;
}

abbrev no_password : Result String
no_password = err (Failure.text "no randomness")

abbrev root_authorizer : Authorizer
root_authorizer = record {
  keys = record { key = "AAAA"; comment = "me"; source = "config" } ∷ [];
  password_auth = false;
  password = record { v = "" };
  generated = false;
  anonymous = false;
  allowed = some (("root", true) ∷ []);
}

root_authorizer_lem : new_authorizer parse listed_config missing no_password ≡ ok root_authorizer
unfolding new_authorizer load_keys inline_keys parse_authorized_key without_options first_key
    both_keys with_keys finish is_empty no_keys allow_list allow put trim_space trim_left trim_right
    space
root_authorizer_lem = refl

authenticate-new_authorizer_example :
    accepted (authenticate print root_authorizer "root+dev" (public_key "AAAA")) ≡ (
      named listed_config.allowed_users (parse_login "root+dev").user
      && presented parse listed_config missing no_password (public_key "AAAA"))
authenticate-new_authorizer_example =
    authenticate-new_authorizer parse print listed_config missing no_password root_authorizer
      root_authorizer_lem "root+dev" (public_key "AAAA")

root_is_let_in : accepted (authenticate print root_authorizer "root+dev" (public_key "AAAA")) ≡ true
unfolding authenticate authenticate_key unless_refused check_user allowed_in get permissions_of
    find_key parse_login
root_is_let_in = refl

authenticate-Shown_example :
    Shown parse listed_config missing (public_key "AAAA")
    × (((parse_login "root+dev").user == "") ≡ false)
authenticate-Shown_example =
    authenticate-Shown parse print listed_config missing no_password root_authorizer
      root_authorizer_lem refl (λ pw h. absurd (ground (arith, h))) "root+dev" (public_key "AAAA")
      root_is_let_in

abbrev clean_exit : ExitStatus
clean_exit = record { exit_code = pos 0; signal = "" }

-- A connection that breaks after a command with the code 0.
succeeds-pump_end_example :
    (succeeds (pump_end clean_exit true)
      ≡ (not true && (is_zero clean_exit.exit_code && (clean_exit.signal == ""))))
    × (succeeds (fail (Failure.text "no environment") new_channel) ≡ false)
succeeds-pump_end_example =
    succeeds-pump_end clean_exit true (Failure.text "no environment") new_channel (omega arith)

notify-begin_example :
    notify "starting"
      (handle_session talk
        (begin
          (record { kind = subsystem (some "sftp"); want_reply = true })
          "subsystem"
          ""
          "sftp"
          new_channel).0).0
    ≡ []
unfolding new_channel
notify-begin_example =
    notify-begin (record { kind = subsystem (some "sftp"); want_reply = true }) "subsystem" ""
      "sftp" new_channel talk "starting" refl refl
