-- ===== src/Lifecycle/Flight/Invariant.antt =====
-- What holds between any two steps of the callers and the goroutines.
use codespace_ssh_gateway.Shared.{
  ℕ, ◌≤◌, ◌<◌, String, true, Option, none, some, List, ◌≡◌, ◌≢◌, refl, ◌∙◌, inl, inr, arith, ◌==◌,
  nat_eq, string_eq, eq_iff, Bool-cases, if◌then◌else◌,
}
use codespace_ssh_gateway.Shared.Map.{Map, get, get-del}
use codespace_ssh_gateway.Providers.Environment.{Environment}
use codespace_ssh_gateway.Providers.Errors.{Result}
use codespace_ssh_gateway.Lifecycle.Flight.Counting.{callers, times, times-nil, AllFit, AllFit-heap}
use codespace_ssh_gateway.Lifecycle.Flight.System.{Ticket, System, start}
use codespace_ssh_gateway.Lifecycle.Flight.{Operation, store, delete_if, settle}

pub record FlightInv (s : System) : Type 0 where
  pub allocated : (o : ℕ) → s.flight.next ≤ o → s.flight.heap o ≡ none
  -- an entry of the table is an operation at work, of that environment, with callers
  pub present : (env : String) (o : ℕ) → get s.flight.ops env ≡ some o → s.flight.heap o ≢ none
  pub entry :
      (env : String) (o : ℕ) (op : Operation)
      → get s.flight.ops env ≡ some o
      → s.flight.heap o ≡ some op
      → (op.handle ≡ env) × (op.result ≡ none) × (0 < op.waiters)
  -- waiters is the number of callers that wait
  pub counted :
      (o : ℕ) (op : Operation) → s.flight.heap o ≡ some op → op.waiters ≡ callers o s.waiting
  -- an operation at work that has callers is in the table
  pub registered :
      (o : ℕ) (op : Operation)
      → s.flight.heap o ≡ some op
      → op.result ≡ none
      → 0 < op.waiters
      → get s.flight.ops op.handle ≡ some o
  pub finished :
      (o : ℕ) (op : Operation) → s.flight.heap o ≡ some op → op.done ≡ true → op.result ≢ none
  -- one that is cancelled, or about to be, while at work has no callers
  pub cancelled :
      (o : ℕ) (op : Operation)
      → s.flight.heap o ≡ some op
      → op.cancelled ≡ true
      → op.result ≡ none
      → op.waiters ≡ 0
  pub pending :
      (o : ℕ) (op : Operation)
      → s.flight.heap o ≡ some op
      → 0 < times o s.cancelling
      → op.result ≡ none
      → op.waiters ≡ 0
  pub known : (o : ℕ) → 0 < times o s.cancelling → s.flight.heap o ≢ none
  -- each caller waits for an operation of its environment
  pub fit : AllFit s.flight.heap s.waiting

pub start-FlightInv : FlightInv start
unfolding start get
start-FlightInv = record {
  allocated = λ o h. refl;
  present = λ env o e. ground (arith, e);
  entry = λ env o op e h. ground (arith, e);
  counted = λ o op e. ground (arith, e);
  registered = λ o op e r w. ground (arith, e);
  finished = λ o op e d. ground (arith, e);
  cancelled = λ o op e c r. ground (arith, e);
  pending = λ o op e p r. ground (arith, e);
  known = λ o lt e. omega (arith, times-nil o, lt);
  fit = tt;
}

abbrev pub other_than : ℕ → Option ℕ → Option ℕ
other_than o none = none
other_than o (some p) = if p == o then none else some p

pub get-delete_if :
    (m : Map ℕ) (h : String) (o : ℕ) (env : String)
    → get (delete_if m h o) env ≡ (if h == env then other_than o (get m h) else get m env)
unfolding delete_if
get-delete_if m h o env = ground (arith, get-del m h env, eq_iff h env)

module _ (s : System) (v : FlightInv s) (o : ℕ) (op : Operation)
    (at : s.flight.heap o ≡ some op) where
  -- The table without the operation.
  pub delete_keeps :
      (env : String) (q : ℕ)
      → get (delete_if s.flight.ops op.handle o) env ≡ some q
      → (get s.flight.ops env ≡ some q) × (q ≢ o)
  delete_keeps env q e =
      let kept : get s.flight.ops env ≡ some q =
        ground (arith, get-delete_if s.flight.ops op.handle o env, eq_iff op.handle env) in
      (
        kept,
        λ (b : q ≡ o). ground (
          arith,
          get-delete_if s.flight.ops op.handle o env,
          eq_iff op.handle env,
          v.entry env q op kept,
          at,
        ),
      )

  pub delete_rest :
      (env : String) (q : ℕ)
      → q ≢ o
      → get s.flight.ops env ≡ some q
      → get (delete_if s.flight.ops op.handle o) env ≡ some q
  delete_rest env q n e =
      ground (arith, get-delete_if s.flight.ops op.handle o env, eq_iff op.handle env)

  pub Fits-store :
      (op' : Operation) (ts : List Ticket)
      → op'.handle ≡ op.handle
      → AllFit s.flight.heap ts
      → AllFit (store s.flight.heap o op') ts
  Fits-store op' ts e h =
      AllFit-heap s.flight.heap (store s.flight.heap o op') ts
        (λ t f. elim (Bool-cases (o == t.op)) [
          | inl hit ↦ (op', rw hit, e ∙ ground (arith, f, at))
          | inr miss ↦ (f.0, ground (arith, f), f.2)
        ])
        h

  -- A change of neither the result nor the callers.
  pub relabel-FlightInv :
      (op' : Operation) (cs : List ℕ)
      → op'.handle ≡ op.handle
      → op'.result ≡ op.result
      → op'.waiters ≡ op.waiters
      → (op'.done ≡ true → op.result ≢ none)
      → (op'.cancelled ≡ true → op.result ≡ none → op.waiters ≡ 0)
      → ((q : ℕ) → 0 < times q cs → 0 < times q s.cancelling)
      → FlightInv (record s {
        flight = record s.flight { heap = store s.flight.heap o op' };
        cancelling = cs;
      })
  relabel-FlightInv op' cs h r w d c sub = record {
    allocated = λ q lt. ground (arith, v.allocated q);
    present = λ env q e b. ground (arith, v.present env q e);
    entry = λ env q t e f. ground (arith, v.entry env q op, v.entry env q t);
    counted = λ q t f. ground (arith, v.counted q op, v.counted q t);
    registered = λ q t f e lt. ground (arith, v.registered q op, v.registered q t);
    finished = λ q t f e. ground (arith, v.finished q t);
    cancelled = λ q t f e n. ground (arith, v.cancelled q t, c);
    pending = λ q t f e n. ground (arith, sub q, v.pending q op, v.pending q t);
    known = λ q lt e. ground (arith, sub q, v.known q);
    fit = Fits-store op' s.waiting h v.fit;
  }

  pub settle-FlightInv :
      (r : Result Environment)
      → op.result ≡ none
      → FlightInv (record s { flight = settle o op r s.flight })
  unfolding settle
  settle-FlightInv r n = record {
    allocated = λ q lt. ground (arith, v.allocated q);
    present = λ env q e b. ground (arith, delete_keeps env q e, v.present env q);
    entry = λ env q t e f. ground (arith, delete_keeps env q e, v.entry env q t);
    counted = λ q t f. ground (arith, v.counted q op, v.counted q t);
    registered = λ q t f e lt. ground (arith, v.registered q t, delete_rest t.handle q);
    finished = λ q t f e. ground (arith, v.finished q t);
    cancelled = λ q t f e m. ground (arith, v.cancelled q t);
    pending = λ q t f e m. ground (arith, v.pending q t);
    known = λ q lt e. ground (arith, v.known q);
    fit = Fits-store (record op { result = some r }) s.waiting refl v.fit;
  }
