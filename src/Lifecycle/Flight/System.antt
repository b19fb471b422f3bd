-- ===== src/Lifecycle/Flight/System.antt =====
-- The callers of Ensure, the goroutines that run the operations, and how their steps interleave.
use codespace_ssh_gateway.Shared.{
  ℕ, String, Bool, true, false, Option, none, some, List, [], ◌∷◌, ◌++◌, ◌≡◌, if◌then◌else◌,
}
use codespace_ssh_gateway.Providers.Environment.{Environment}
use codespace_ssh_gateway.Providers.Errors.{Result}
use codespace_ssh_gateway.Lifecycle.Flight.{
  Operation, Flight, store, enter, release, settle, cancel, finish, remove_notifier,
}

-- A caller that waits in Ensure's select, by the address of its operation.
pub record Ticket : Type 0 where
  pub handle : String
  pub op : ℕ

-- `cancelling` holds the operations whose last caller left release's lock and has still to call
-- op.cancel().
pub record System : Type 0 where
  pub flight : Flight
  pub waiting : List Ticket
  pub cancelling : List ℕ

unfoldable pub start : System
start = record {
  flight = record { heap = λ o. none; next = 0; ops = [] };
  waiting = [];
  cancelling = [];
}

abbrev pub entered : ℕ → String → Option ℕ → System → System
entered now env notify s =
    let r = enter now env notify s.flight in
    record s { flight = r.0; waiting = record { handle = env; op = r.1 } ∷ s.waiting }

abbrev pub released : Ticket → Operation → Bool → List Ticket → System → System
released t op abandoned rest s =
    let r = release t.handle t.op op abandoned s.flight in
    record s {
      flight = r.0;
      waiting = rest;
      cancelling = if r.1 then t.op ∷ s.cancelling else s.cancelling;
    }

pub data Step (s : System) (u : System) : Type 0 where
  -- a caller of Ensure takes the lock for the first time
  enters : (now : ℕ) (env : String) (notify : Option ℕ) → u ≡ entered now env notify s → Step s u
  -- a caller receives from op.done
  returns :
      (xs ys : List Ticket) (t : Ticket) (op : Operation)
      → s.waiting ≡ xs ++ (t ∷ ys)
      → s.flight.heap t.op ≡ some op
      → op.done ≡ true
      → u ≡ released t op false (xs ++ ys) s
      → Step s u
  -- a caller's own context ends
  abandons :
      (xs ys : List Ticket) (t : Ticket) (op : Operation)
      → s.waiting ≡ xs ++ (t ∷ ys)
      → s.flight.heap t.op ≡ some op
      → u ≡ released t op true (xs ++ ys) s
      → Step s u
  -- the abandoning caller goes on to op.cancel()
  cancels :
      (xs ys : List ℕ) (o : ℕ) (op : Operation)
      → s.cancelling ≡ xs ++ (o ∷ ys)
      → s.flight.heap o ≡ some op
      → u ≡ record s { flight = cancel o op s.flight; cancelling = xs ++ ys }
      → Step s u
  -- the goroutine stores its result
  settles :
      (o : ℕ) (op : Operation) (r : Result Environment)
      → s.flight.heap o ≡ some op
      → op.result ≡ none
      → u ≡ record s { flight = settle o op r s.flight }
      → Step s u
  -- and wakes the callers
  finishes :
      (o : ℕ) (op : Operation) (r : Result Environment)
      → s.flight.heap o ≡ some op
      → op.result ≡ some r
      → u ≡ record s { flight = finish o op s.flight }
      → Step s u
  -- a caller that has left drops its notifier
  forgets :
      (o : ℕ) (op : Operation) (token : ℕ)
      → s.flight.heap o ≡ some op
      → u ≡ record s {
        flight = record s.flight { heap = store s.flight.heap o (remove_notifier token op) };
      }
      → Step s u

pub data Reach : System → Type 0 where
  here : Reach start
  next : {s u : System} → Reach s → Step s u → Reach u
