-- ===== src/Ssh/Teardown.antt =====
-- ssh/forward.go: the end of a channel. handleSession's goroutine calls teardown after the last
-- request, once (closeOnce), while run may still be on its way on its own goroutine. A step is what
-- one of them does between two points where the other can come in.
use codespace_ssh_gateway.Shared.{
  ℕ, ◌+◌, Bool, true, false, not, Option, none, some, List, [], ◌∷◌, if◌then◌else◌,
}

-- Where run stands: not begun, in OpenSession, between its return and setConn, in pump, or at the end,
-- where it closes `done`.
pub data Runner : Type 0 where
  absent opening holding pumping finished : Runner

-- Where teardown stands; what it read of conn and release, and of started, goes with it.
pub data Closer : Type 0 where
  waiting : Closer
  looked joining : Bool → Bool → Closer
  ended : Closer

-- `opened`, `closes`, `releases` and `late` are not state of the program: they record that
-- OpenSession succeeded, how often conn.Close and release were called, and that setConn came after
-- teardown had read the channel.
pub record Life : Type 0 where
  pub runner : Runner
  pub closer : Closer
  pub started : Bool
  pub stored : Bool
  pub opened : Bool
  pub late : Bool
  pub closes : ℕ
  pub releases : ℕ

unfoldable pub start : Life
start = record {
  runner = absent;
  closer = waiting;
  started = false;
  stored = false;
  opened = false;
  late = false;
  closes = 0;
  releases = 0;
}

pub data Move : Type 0 where
  begins opens fails stores pumped : Move
  looks hangs_up joins times_out : Move

abbrev pub once : Bool → ℕ
once b = if b then 1 else 0

abbrev pub is_waiting : Closer → Bool
is_waiting waiting = true
is_waiting (looked h s) = false
is_waiting (joining h s) = false
is_waiting ended = false

-- begin, from the loop that teardown follows
unfoldable pub begins_at : Runner → Closer → Life → Option Life
begins_at absent waiting l = some (record l { runner = opening; started = true })
begins_at _ _ l = none

-- OpenSession returns a session.
unfoldable pub opens_at : Runner → Life → Option Life
opens_at opening l = some (record l { runner = holding; opened = true })
opens_at _ l = none

-- OpenSession returns an error.
unfoldable pub fails_at : Runner → Life → Option Life
fails_at opening l = some (record l { runner = finished })
fails_at _ l = none

-- setConn
unfoldable pub stores_at : Runner → Life → Option Life
stores_at holding l =
    some (record l { runner = pumping; stored = true; late = not (is_waiting l.closer) })
stores_at _ l = none

-- pump returns.
unfoldable pub pumped_at : Runner → Life → Option Life
pumped_at pumping l = some (record l { runner = finished })
pumped_at _ l = none

-- teardown's locked section
unfoldable pub looks_at : Closer → Life → Option Life
looks_at waiting l = some (record l { closer = looked l.stored l.started })
looks_at _ l = none

-- `if conn != nil`
unfoldable pub hangs_up_at : Closer → Life → Option Life
hangs_up_at (looked held began) l =
    some (record l { closer = joining held began; closes = l.closes + once held })
hangs_up_at _ l = none

-- `if release != nil`
unfoldable pub released : Bool → Life → Life
released held l = record l { closer = ended; releases = l.releases + once held }

-- `<-st.done`, which nothing that had not started waits for
unfoldable pub joins_at : Closer → Runner → Life → Option Life
joins_at (joining held false) r l = some (released held l)
joins_at (joining held true) finished l = some (released held l)
joins_at _ _ l = none

-- `<-time.After(5 * time.Second)`
unfoldable pub times_out_at : Closer → Life → Option Life
times_out_at (joining held true) l = some (released held l)
times_out_at _ l = none

unfoldable pub step : Move → Life → Option Life
step begins l = begins_at l.runner l.closer l
step opens l = opens_at l.runner l
step fails l = fails_at l.runner l
step stores l = stores_at l.runner l
step pumped l = pumped_at l.runner l
step looks l = looks_at l.closer l
step hangs_up l = hangs_up_at l.closer l
step joins l = joins_at l.closer l.runner l
step times_out l = times_out_at l.closer l

unfoldable pub and_then : Option Life → (Life → Option Life) → Option Life
and_then none f = none
and_then (some l) f = f l

unfoldable pub run_all : List Move → Life → Option Life
run_all [] l = some l
run_all (m ∷ ms) l = and_then (step m l) (run_all ms)
