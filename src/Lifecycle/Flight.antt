-- ===== src/Lifecycle/Flight.antt =====
-- core/lifecycle/manager.go and ensure.go: one operation for all the callers that want the same
-- environment. An *operation is an address into `heap`; each locked section is one function.
pub mod System
pub mod Counting
pub mod Invariant
pub mod Callers
pub mod Entry
pub mod Safety
use codespace_ssh_gateway.Shared.{
  ℕ, ◌+◌, ◌-◌, ◌^◌, ◌%◌, String, Bool, true, false, ◌&&◌, Option, none, some, List, [], ◌∷◌, ◌==◌,
  nat_eq, if◌then◌else◌,
}
use codespace_ssh_gateway.Shared.Map.{Map, get, put, del}
use codespace_ssh_gateway.Providers.Environment.{Environment}
use codespace_ssh_gateway.Providers.Errors.{Result}

-- `handle` is the environment that the operation's goroutine and its callers carry along. A
-- notifier is the number of the client that it writes to. `result` is the pair env, err, once set.
pub record Operation : Type 0 where
  pub handle : String
  pub done : Bool
  pub result : Option (Result Environment)
  pub waiters : ℕ
  pub cancelled : Bool
  pub started_at : ℕ
  pub notifiers : List (ℕ × ℕ)
  pub next_token : ℕ

pub record Flight : Type 0 where
  pub heap : ℕ → Option Operation
  pub next : ℕ
  pub ops : Map ℕ

abbrev pub store : (ℕ → Option Operation) → ℕ → Operation → ℕ → Option Operation
store heap o op q = if o == q then some op else heap q

unfoldable pub add_notifier : Option ℕ → Operation → Operation × ℕ
add_notifier none op = (op, 0)
add_notifier (some client) op =
    let token = op.next_token + 1 in
    (record op { next_token = token; notifiers = (token, client) ∷ op.notifiers }, token)

drop_token : ℕ → List (ℕ × ℕ) → List (ℕ × ℕ)
drop_token token [] = []
drop_token token ((t, client) ∷ rest) =
    let rest' = drop_token token rest in if t == token then rest' else (t, client) ∷ rest'

unfoldable pub remove_notifier : ℕ → Operation → Operation
unfolding drop_token
remove_notifier token op =
    if token == 0 then op else record op { notifiers = drop_token token op.notifiers }

abbrev pub new_operation : ℕ → String → Operation
new_operation now env = record {
  handle = env;
  done = false;
  result = none;
  waiters = 1;
  cancelled = false;
  started_at = now;
  notifiers = [];
  next_token = 0;
}

abbrev pub with_address : ℕ → Option Operation → Option (ℕ × Operation)
with_address o none = none
with_address o (some op) = some (o, op)

abbrev pub lookup_at : Flight → Option ℕ → Option (ℕ × Operation)
lookup_at f none = none
lookup_at f (some o) = with_address o (f.heap o)

-- `m.ops[env]`: the operation at work for the environment, if there is one.
unfoldable pub lookup : Flight → String → Option (ℕ × Operation)
lookup f env = lookup_at f (get f.ops env)

abbrev pub enter_found : ℕ → String → Option ℕ → Flight → Option (ℕ × Operation) → Flight × ℕ × ℕ
enter_found now env notify f (some (o, op)) =
    let (op', token) = add_notifier notify (record op { waiters = op.waiters + 1 }) in
    (record f { heap = store f.heap o op' }, o, token)
enter_found now env notify f none =
    let (op', token) = add_notifier notify (new_operation now env) in
    (
      record f { heap = store f.heap f.next op'; next = f.next + 1; ops = put f.ops env f.next },
      f.next,
      token,
    )

-- The first locked section of Ensure: the operation to wait for, and the notifier's token.
unfoldable pub enter : ℕ → String → Option ℕ → Flight → Flight × ℕ × ℕ
enter now env notify f = enter_found now env notify f (lookup f env)

abbrev pub drop_entry : Map ℕ → String → ℕ → Option ℕ → Map ℕ
drop_entry ops env o none = ops
drop_entry ops env o (some q) = if q == o then del ops env else ops

-- `if m.ops[envID] == op { delete(m.ops, envID) }`
unfoldable pub delete_if : Map ℕ → String → ℕ → Map ℕ
delete_if ops env o = drop_entry ops env o (get ops env)

-- The locked section of release, with the value of `orphaned`.
unfoldable pub release : String → ℕ → Operation → Bool → Flight → Flight × Bool
release env o op abandoned f =
    let op' = record op { waiters = op.waiters - 1 } in
    let orphaned = abandoned && op'.waiters == 0 in
    (
      record f {
        heap = store f.heap o op';
        ops = if orphaned then delete_if f.ops env o else f.ops;
      },
      orphaned,
    )

-- The locked section of runEnsure.
unfoldable pub settle : ℕ → Operation → Result Environment → Flight → Flight
settle o op r f = record f {
  heap = store f.heap o (record op { result = some r });
  ops = delete_if f.ops op.handle o;
}

-- op.cancel()
unfoldable pub cancel : ℕ → Operation → Flight → Flight
cancel o op f = record f { heap = store f.heap o (record op { cancelled = true }) }

-- op.cancel(); close(op.done)
unfoldable pub finish : ℕ → Operation → Flight → Flight
finish o op f = record f { heap = store f.heap o (record op { cancelled = true; done = true }) }

-- The clients that `notify` writes to.
recipients_of : List (ℕ × ℕ) → List ℕ
recipients_of [] = []
recipients_of ((t, client) ∷ rest) = client ∷ recipients_of rest

unfoldable pub recipients : String → Flight → List ℕ
unfolding recipients_of
recipients env f = elim (lookup f env) [ none ↦ [] | some (o, op) ↦ recipients_of op.notifiers ]
