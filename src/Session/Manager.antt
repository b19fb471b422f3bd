-- ===== src/Session/Manager.antt =====
-- core/session/session.go. A *Session is an address into `cells`, so that a session that was
-- closed is still seen by whoever holds its pointer. The mutexes make each method one step.
use codespace_ssh_gateway.Shared.{
  ℕ, ◌+◌, ◌-◌, ◌^◌, ◌%◌, String, Bool, true, false, ◌&&◌, Option, none, some, List, [], ◌∷◌, ◌⁺◌,
  ◌==◌, nat_eq, string_eq, ltb, leb, length, decimal, if◌then◌else◌,
}
use codespace_ssh_gateway.Shared.Map.{Map, get, put, del}
use codespace_ssh_gateway.Providers.Errors.{Failure, Sentinel, Result, ok, err}

pub record Info : Type 0 where
  pub id : String
  pub user : String
  pub environment : String
  pub remote_addr : String
  pub client_version : String
  pub started_at : ℕ  -- 0 is the zero time
  pub pty : Bool
  pub kind : String
  pub phase : String

pub record Session : Type 0 where
  pub info : Info
  pub closed : Bool

-- A limit of 0 means none. `on_first` and `on_last` say whether a hook is set.
pub record Manager : Type 0 where
  pub cells : ℕ → Option Session
  pub next : ℕ  -- the first free address
  pub by_id : Map ℕ
  pub per_env : Map ℕ
  pub seq : ℕ  -- uint64
  pub max_total : ℕ
  pub max_per_env : ℕ
  pub on_first : Bool
  pub on_last : Bool

-- The hooks that a call fires, on the caller's goroutine.
pub data Hook : Type 0 where
  first_opened last_closed : String → Hook

unfoldable pub new_manager : ℕ → ℕ → Manager
new_manager max_total max_per_env = record {
  cells = λ p. none;
  next = 0;
  by_id = [];
  per_env = [];
  seq = 0;
  max_total = max_total;
  max_per_env = max_per_env;
  on_first = false;
  on_last = false;
}

unfoldable pub set_hooks : Manager → Bool → Bool → Manager
set_hooks m on_first on_last = record m { on_first = on_first; on_last = on_last }

-- A write through a pointer.
abbrev pub store : (ℕ → Option Session) → ℕ → Session → ℕ → Option Session
store cells p s q = if p == q then some s else cells q

-- m[k] of a map of numbers: 0 where there is no entry
abbrev pub or_zero : Option ℕ → ℕ
or_zero none = 0
or_zero (some n) = n

unfoldable pub session_id : ℕ → String
session_id n = "s" ⁺ decimal n

unfoldable pub count_for : Manager → String → ℕ
count_for m env = or_zero (get m.per_env env)

unfoldable pub total : Manager → ℕ
total m = length m.by_id

unfoldable pub too_many : Manager → Bool
too_many m = ltb 0 m.max_total && leb m.max_total (total m)

unfoldable pub too_many_for : Manager → String → Bool
too_many_for m env = ltb 0 m.max_per_env && leb m.max_per_env (count_for m env)

abbrev pub fire : Bool → Hook → List Hook
fire true h = h ∷ []
fire false h = []

-- What Open stores for the session that it registers.
unfoldable pub opened : ℕ → Info → ℕ → Session
unfolding session_id
opened now info seq = record {
  info = record info {
    started_at = if info.started_at == 0 then now else info.started_at;
    id = session_id seq;
    phase = if info.phase == "" then "opening" else info.phase;
  };
  closed = false;
}

-- The writes of Open, under the sequence number that it took.
unfoldable pub insert : ℕ → ℕ → Info → Manager → Manager
unfolding opened session_id count_for
insert seq now info m = record m {
  cells = store m.cells m.next (opened now info seq);
  next = m.next + 1;
  by_id = put m.by_id (session_id seq) m.next;
  per_env = put m.per_env info.environment (count_for m info.environment + 1);
  seq = seq;
}

-- The registration, behind the tests of the limits.
unfoldable pub register : ℕ → Info → Manager → Manager
register now info m = insert ((m.seq + 1) % 2 ^ 64) now info m

-- Open: the new pointer or the error, and the hooks fired.
unfoldable pub open_session : ℕ → Info → Manager → Manager × Result ℕ × List Hook
open_session now info m =
    if too_many m
    then (
      m,
      err (
          Failure.wrap "" (" (limit " ⁺ (decimal m.max_total ⁺ ")"))
            (Failure.sentinel Sentinel.too_many_sessions)),
      [],
    )
    else if too_many_for m info.environment
    then (
      m,
      err (
          Failure.wrap "" (" " ⁺ (info.environment ⁺ (" (limit " ⁺ (decimal m.max_per_env ⁺ ")"))))
            (Failure.sentinel Sentinel.too_many_sessions_for_env)),
      [],
    )
    else (let m' = register now info m in
        (
          m',
          ok m.next,
          fire (count_for m' info.environment == 1 && m'.on_first) (first_opened info.environment),
        ))

-- The locked part of Close, for a session whose flag was just set.
unfoldable pub deregister : ℕ → Session → Manager → Manager
unfolding count_for
deregister p s m =
    let env = s.info.environment in
    let n = count_for m env in
    record m {
      cells = store m.cells p (record s { closed = true });
      by_id = del m.by_id s.info.id;
      per_env = if leb n 1 then del m.per_env env else put m.per_env env (n - 1);
    }

-- Close of a session: its flag is set before the mutex is taken, and the hook is called after it is
-- given back; here the three are one step.
unfoldable pub close_cell : Manager → ℕ → Option Session → Manager × List Hook
close_cell m p none = (m, [])
close_cell m p (some s) =
    if s.closed
    then (m, [])
    else (let m' = deregister p s m in
        (
          m',
          fire (count_for m' s.info.environment == 0 && m'.on_last)
              (last_closed s.info.environment),
        ))

-- Close, of a pointer; nil is an address that is not allocated.
unfoldable pub close_session : ℕ → Manager → Manager × List Hook
unfolding close_cell
close_session p m = close_cell m p (m.cells p)

unfoldable pub set_info : Manager → ℕ → (Info → Info) → Option Session → Manager
set_info m p f none = m
set_info m p f (some s) = record m { cells = store m.cells p (record s { info = f s.info }) }

unfoldable pub set_phase : String → ℕ → Manager → Manager
set_phase phase p m = set_info m p (λ i. record i { phase = phase }) (m.cells p)

unfoldable pub set_kind : String → Bool → ℕ → Manager → Manager
set_kind kind pty p m = set_info m p (λ i. record i { kind = kind; pty = pty }) (m.cells p)
