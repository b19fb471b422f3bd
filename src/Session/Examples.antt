-- ===== src/Session/Examples.antt =====
-- A registry for two sessions, one for each environment.
use codespace_ssh_gateway.Shared.{
  ℕ, ◌+◌, true, false, List, [], ◌∷◌, ◌≡◌, refl, arith, nat_eq, string_eq,
}
use codespace_ssh_gateway.Shared.Map.{Map, put, get}
use codespace_ssh_gateway.Providers.Errors.{Sentinel, is}
use codespace_ssh_gateway.Session.Invariant.{Inv, new_manager-Inv, set_hooks-Inv}
use codespace_ssh_gateway.Session.Runs.{run-Inv, run-new-Inv}
use codespace_ssh_gateway.Session.Limits.{Within, run-new-Within}
use codespace_ssh_gateway.Session.Refinement.{Visits, rules_of, occupancy, run-Visits}
use codespace_ssh_gateway.Session.Hooks.{firsts, lasts, occupied, run-hooks}
use codespace_ssh_gateway.Session.Behaviour.{admits, accepted, refused_as, open_admits}
use codespace_ssh_gateway.Session.Steps.{Call, opens, closes, phases, step, run}
use codespace_ssh_gateway.Session.Manager.{
  Info, Manager, count_for, total, too_many, too_many_for, open_session, new_manager, set_hooks,
  register, insert, opened,
}

abbrev box : Info
box = record {
  id = "";
  user = "dev";
  environment = "box";
  remote_addr = "127.0.0.1:5000";
  client_version = "SSH-2.0-OpenSSH_9.6";
  started_at = 0;
  pty = true;
  kind = "";
  phase = "";
}

abbrev calls : List Call
calls = opens 5 box ∷ opens 6 box ∷ phases "shell" 0 ∷ closes 0 ∷ closes 0 ∷ []

abbrev desk : Manager
desk = set_hooks (new_manager 2 1) true true

desk-Inv : Inv desk
desk-Inv = set_hooks-Inv (new_manager 2 1) true true (new_manager-Inv 2 1)

abbrev busy : Manager
busy = (run desk (opens 5 box ∷ [])).0

busy-Inv : Inv busy
unfolding set_hooks new_manager
busy-Inv = run-Inv desk (opens 5 box ∷ []) desk-Inv (omega arith)

run-new-Inv_example : Inv (run (new_manager 2 1) calls).0
run-new-Inv_example = run-new-Inv 2 1 calls (omega arith)

run-new-Within_example : Within 2 1 (run (new_manager 2 1) calls).0
run-new-Within_example = run-new-Within 2 1 calls (omega arith)

run-Visits_example :
    Visits (rules_of desk) (occupancy desk) (occupancy (run desk calls).0) (run desk calls).1
unfolding new_manager set_hooks
run-Visits_example = run-Visits desk calls desk-Inv (omega arith)

run-hooks_example :
    firsts "box" (run desk calls).1 + occupied desk "box"
    ≡ lasts "box" (run desk calls).1 + occupied (run desk calls).0 "box"
unfolding new_manager set_hooks
run-hooks_example = run-hooks desk calls "box" desk-Inv (omega arith) (refl, refl)

open_admits_example :
    (accepted (open_session 6 box busy).1 ≡ false)
    × (refused_as Sentinel.too_many_sessions (open_session 6 box busy).1 ≡ false)
    × (refused_as Sentinel.too_many_sessions_for_env (open_session 6 box busy).1 ≡ true)
    × ((open_session 6 box busy).0 ≡ busy)
    × ((open_session 6 box busy).2 ≡ [])
unfolding new_manager run step open_session register insert too_many too_many_for count_for total
    get opened set_hooks put admits is
open_admits_example = open_admits 6 box busy

-- Two sessions that began at the same time.
abbrev pair : Manager
pair = (run (new_manager 0 0) (opens 5 box ∷ opens 5 box ∷ [])).0

abbrev other_order : Map ℕ
other_order = ("s2", 1) ∷ ("s1", 0) ∷ []
