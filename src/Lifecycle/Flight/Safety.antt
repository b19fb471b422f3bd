-- ===== src/Lifecycle/Flight/Safety.antt =====
-- What every interleaving of callers and goroutines guarantees.
use codespace_ssh_gateway.Shared.{
  ℕ, ◌+◌, ◌<◌, true, false, none, some, List, ◌∷◌, ◌++◌, ◌≡◌, refl, sym, ◌∙◌, ap, subst, inl, inr,
  arith, ◌==◌, nat_eq, string_eq, eq_iff, Bool-cases, if◌then◌else◌,
}
use codespace_ssh_gateway.Shared.Map.{get}
use codespace_ssh_gateway.Lifecycle.Flight.Counting.{
  callers, callers-remove, times, times-remove, AllFit, AllFit-pick,
}
use codespace_ssh_gateway.Lifecycle.Flight.System.{
  Ticket, System, released, Step, enters, returns, abandons, cancels, settles, finishes, forgets,
  Reach, here, next,
}
use codespace_ssh_gateway.Lifecycle.Flight.Invariant.{
  FlightInv, start-FlightInv, get-delete_if, relabel-FlightInv, settle-FlightInv,
}
use codespace_ssh_gateway.Lifecycle.Flight.Callers.{released-FlightInv}
use codespace_ssh_gateway.Lifecycle.Flight.Entry.{SameWork, entered-FlightInv}
use codespace_ssh_gateway.Lifecycle.Flight.{
  Operation, store, release, cancel, finish, remove_notifier,
}

cancels-FlightInv :
    (s : System) (v : FlightInv s) (xs ys : List ℕ) (o : ℕ) (op : Operation)
    → s.cancelling ≡ xs ++ (o ∷ ys)
    → s.flight.heap o ≡ some op
    → FlightInv (record s { flight = cancel o op s.flight; cancelling = xs ++ ys })
unfolding cancel
cancels-FlightInv s v xs ys o op e at =
    relabel-FlightInv s v o op at (record op { cancelled = true }) (xs ++ ys) refl refl refl
      (v.finished o op at) (λ _ n. v.pending o op at (omega (arith, before o, here_once)) n)
      (λ q lt. omega (arith, before q, lt))
  where
    before : (q : ℕ) → times q s.cancelling ≡ (if o == q then 1 else 0) + times q (xs ++ ys)
    before q = ap (times q) e ∙ times-remove q xs o ys

    here_once : 0 < (if o == o then 1 else 0)
    here_once = ground arith

remove_notifier-SameWork : (token : ℕ) (op : Operation) → SameWork op (remove_notifier token op)
unfolding remove_notifier
remove_notifier-SameWork token op = elim (Bool-cases (token == 0)) [
  | inl absent ↦
      rw absent
        (record { handle = refl; done = refl; result = refl; waiters = refl; cancelled = refl })
  | inr held ↦
      rw held
        (record { handle = refl; done = refl; result = refl; waiters = refl; cancelled = refl })
]

forgets-FlightInv :
    (s : System) (v : FlightInv s) (o : ℕ) (op : Operation) (token : ℕ)
    → s.flight.heap o ≡ some op
    → FlightInv (record s {
      flight = record s.flight { heap = store s.flight.heap o (remove_notifier token op) };
    })
forgets-FlightInv s v o op token at =
    let same = remove_notifier-SameWork token op in
    relabel-FlightInv s v o op at (remove_notifier token op) s.cancelling same.handle same.result
      same.waiters (λ d. v.finished o op at (sym same.done ∙ d))
      (λ c. v.cancelled o op at (sym same.cancelled ∙ c)) (λ q lt. lt)

pub Step-FlightInv : {s u : System} → Step s u → FlightInv s → FlightInv u
Step-FlightInv {s} (enters now env notify e) v = rw e (entered-FlightInv s v env now notify)
Step-FlightInv {s} (returns xs ys t op w at d e) v =
    rw e (released-FlightInv s v t op xs ys at w false (λ _. d))
Step-FlightInv {s} (abandons xs ys t op w at e) v =
    rw e (released-FlightInv s v t op xs ys at w true (λ b. cc))
Step-FlightInv {s} (cancels xs ys o op c at e) v = rw e (cancels-FlightInv s v xs ys o op c at)
Step-FlightInv {s} (settles o op r at n e) v = rw e (settle-FlightInv s v o op at r n)
Step-FlightInv {s} (finishes o op r at d e) v = rw e (
    unfold finish in
    relabel-FlightInv s v o op at (record op { cancelled = true; done = true }) s.cancelling refl
      refl refl (λ _ n. cc (n, d)) (λ _ n. absurd (cc (n, d))) (λ q lt. lt))
Step-FlightInv {s} (forgets o op token at e) v = rw e (forgets-FlightInv s v o op token at)

-- Whatever the order in which callers join, return and give up, and goroutines finish: the table,
-- the waiter counts and the operations agree as `FlightInv` says.
pub Reach-FlightInv : {s : System} → Reach s → FlightInv s
Reach-FlightInv here = start-FlightInv
Reach-FlightInv (next r st) = Step-FlightInv st (Reach-FlightInv r)

-- Two operations of one environment that both are at work and have callers are the same one.
pub single_flight :
    {s : System} (o p : ℕ) (op oq : Operation)
    → Reach s
    → s.flight.heap o ≡ some op
    → s.flight.heap p ≡ some oq
    → op.handle ≡ oq.handle
    → op.result ≡ none
    → oq.result ≡ none
    → 0 < callers o s.waiting
    → 0 < callers p s.waiting
    → o ≡ p
single_flight {s} o p op oq r at there same work work' lt lt' =
    let v = Reach-FlightInv r in
    ground (arith, v.registered o op, v.registered p oq, v.counted o op, v.counted p oq, same)

-- A caller that waits for an operation at work waits for one that is not cancelled, that nobody is
-- about to cancel, and that later callers of the environment join.
pub waits_for_live :
    {s : System} (xs ys : List Ticket) (t : Ticket) (op : Operation)
    → Reach s
    → s.waiting ≡ xs ++ (t ∷ ys)
    → s.flight.heap t.op ≡ some op
    → op.result ≡ none
    → (op.cancelled ≡ false)
      × (times t.op s.cancelling ≡ 0)
      × (get s.flight.ops t.handle ≡ some t.op)
waits_for_live {s} xs ys t op r w at work =
    let v = Reach-FlightInv r in
    let fits = AllFit-pick s.flight.heap xs t ys (subst (AllFit s.flight.heap) w v.fit) in
    let named : op.handle ≡ t.handle = ground (arith, fits, at) in
    let waits : 0 < callers t.op s.waiting =
      ground (arith, ap (callers t.op) w, callers-remove t.op xs t ys) in
    (
      ground (arith, v.cancelled t.op op, v.counted t.op op, waits),
      ground (arith, v.pending t.op op, v.counted t.op op, waits),
      ground (arith, v.registered t.op op, v.counted t.op op, waits, named),
    )

-- When a caller gives up on an operation at work: if it was the last one, the environment has no
-- entry afterwards and the operation is due to be cancelled; if others wait, the entry stays and
-- nothing more is due.
pub abandons_lem :
    {s : System} (xs ys : List Ticket) (t : Ticket) (op : Operation)
    → Reach s
    → s.waiting ≡ xs ++ (t ∷ ys)
    → s.flight.heap t.op ≡ some op
    → op.result ≡ none
    → let u = released t op true (xs ++ ys) s in
      (get u.flight.ops t.handle ≡ (if callers t.op (xs ++ ys) == 0 then none else some t.op))
      × (u.cancelling
          ≡ (if callers t.op (xs ++ ys) == 0 then t.op ∷ s.cancelling else s.cancelling))
unfolding release
abandons_lem {s} xs ys t op r w at work =
    let live = waits_for_live xs ys t op r w at work in
    let count : op.waiters ≡ 1 + callers t.op (xs ++ ys) =
      (Reach-FlightInv r).counted t.op op at
      ∙ ap (callers t.op) w
      ∙ ground (arith, callers-remove t.op xs t ys) in
    (
      ground (
        arith,
        count,
        live.2,
        get-delete_if s.flight.ops t.handle t.op t.handle,
        eq_iff t.handle t.handle,
      ),
      ground (arith, count),
    )
