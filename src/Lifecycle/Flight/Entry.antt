-- ===== src/Lifecycle/Flight/Entry.antt =====
-- A caller that joins an operation, or starts one, keeps the invariant.
use codespace_ssh_gateway.Shared.{
  ℕ, ◌+◌, String, Option, none, some, ◌∷◌, ◌≡◌, refl, ◌∙◌, ◌⊎◌, inl, inr, arith, nat_eq, string_eq,
  eq_iff, Option-cases,
}
use codespace_ssh_gateway.Shared.Map.{get, put, get-put}
use codespace_ssh_gateway.Lifecycle.Flight.Counting.{callers-cons, callers_free, AllFit-heap}
use codespace_ssh_gateway.Lifecycle.Flight.System.{System, entered}
use codespace_ssh_gateway.Lifecycle.Flight.Invariant.{FlightInv, Fits-store}
use codespace_ssh_gateway.Lifecycle.Flight.{
  Operation, store, enter, lookup, add_notifier, new_operation,
}

-- A notifier changes neither the result nor the callers.
pub record SameWork (op op' : Operation) : Type 0 where
  pub handle : op'.handle ≡ op.handle
  pub done : op'.done ≡ op.done
  pub result : op'.result ≡ op.result
  pub waiters : op'.waiters ≡ op.waiters
  pub cancelled : op'.cancelled ≡ op.cancelled

add_notifier-SameWork :
    (notify : Option ℕ) (op : Operation) → SameWork op (add_notifier notify op).0
unfolding add_notifier
add_notifier-SameWork none op = record {
  handle = refl;
  done = refl;
  result = refl;
  waiters = refl;
  cancelled = refl;
}
add_notifier-SameWork (some c) op = record {
  handle = refl;
  done = refl;
  result = refl;
  waiters = refl;
  cancelled = refl;
}

module _ (s : System) (v : FlightInv s) (env : String) where
  module _ (o : ℕ) (op op' : Operation) (named : get s.flight.ops env ≡ some o)
      (at : s.flight.heap o ≡ some op)
      (same : SameWork (record op { waiters = op.waiters + 1 }) op') where
    join-FlightInv : FlightInv (record s {
      flight = record s.flight { heap = store s.flight.heap o op' };
      waiting = record { handle = env; op = o } ∷ s.waiting;
    })
    join-FlightInv = record {
      allocated = λ q lt. ground (arith, v.allocated q);
      present = λ e q f b. ground (arith, v.present e q f);
      entry = λ e q u f g. ground (arith, v.entry e q op, v.entry e q u);
      counted = λ q u f. ground (
        arith,
        v.counted q op,
        v.counted q u,
        callers-cons q (record { handle = env; op = o }) s.waiting,
      );
      registered = λ q u f e lt. ground (arith, v.entry env q op, v.registered q u);
      finished = λ q u f e. ground (arith, v.finished q op, v.finished q u);
      cancelled = λ q u f e n. ground (arith, v.cancelled q op, v.cancelled q u, v.entry env q op);
      pending = λ q u f e n. ground (arith, v.pending q op, v.pending q u, v.entry env q op);
      known = λ q lt e. ground (arith, v.known q);
      fit = (
        (op', ground arith, same.handle ∙ (v.entry env o op named at).0),
        Fits-store s v o op at op' s.waiting same.handle v.fit,
      );
    }

  module _ (now : ℕ) (op' : Operation) (absent : get s.flight.ops env ≡ none)
      (same : SameWork (new_operation now env) op') where
    free : s.flight.heap s.flight.next ≡ none
    free = v.allocated s.flight.next (omega arith)

    start-FlightInv' : FlightInv (record s {
      flight = record s.flight {
        heap = store s.flight.heap s.flight.next op';
        next = s.flight.next + 1;
        ops = put s.flight.ops env s.flight.next;
      };
      waiting = record { handle = env; op = s.flight.next } ∷ s.waiting;
    })
    start-FlightInv' = record {
      allocated = λ q lt. ground (arith, v.allocated q);
      present = λ e q f b.
          ground (arith, get-put s.flight.ops env s.flight.next e, v.present e q, eq_iff env e);
      entry = λ e q u f g. ground (
        arith,
        get-put s.flight.ops env s.flight.next e,
        v.entry e q u,
        v.present e q,
        eq_iff env e,
        free,
      );
      counted = λ q u f. ground (
        arith,
        v.counted q u,
        callers-cons q (record { handle = env; op = s.flight.next }) s.waiting,
        callers_free s.flight.heap s.flight.next s.waiting free v.fit,
      );
      registered = λ q u f e lt. ground (
        arith,
        get-put s.flight.ops env s.flight.next u.handle,
        v.registered q u,
        eq_iff env u.handle,
        absent,
      );
      finished = λ q u f e. ground (arith, v.finished q u);
      cancelled = λ q u f e n. ground (arith, v.cancelled q u);
      pending = λ q u f e n. ground (arith, v.pending q u, v.known q, free);
      known = λ q lt e. ground (arith, v.known q, free);
      fit = (
        (op', ground arith, same.handle),
        AllFit-heap s.flight.heap (store s.flight.heap s.flight.next op') s.waiting
            (λ t f. (f.0, ground (arith, f.1, free), f.2)) v.fit,
      );
    }

  lookup_cases :
      ((lookup s.flight env ≡ none) × (get s.flight.ops env ≡ none))
      ⊎ ((o : ℕ) × (op : Operation) × (lookup s.flight env ≡ some (o, op))
          × (get s.flight.ops env ≡ some o)
          × (s.flight.heap o ≡ some op))
  unfolding lookup
  lookup_cases = elim (Option-cases (get s.flight.ops env)) [
    | inl absent ↦ inl (rw absent, absent)
    | inr (o, named) ↦ elim (Option-cases (s.flight.heap o)) [
      | inl lost ↦ absurd (v.present env o named lost)
      | inr (op, at) ↦ inr (o, op, rw named (rw at), named, at)
    ]
  ]

  pub entered-FlightInv : (now : ℕ) (notify : Option ℕ) → FlightInv (entered now env notify s)
  unfolding enter
  entered-FlightInv now notify = elim lookup_cases [
    | inl (missing, absent) ↦
        rw missing
          (start-FlightInv' now _ absent (add_notifier-SameWork notify (new_operation now env)))
    | inr (o, op, found, named, at) ↦ rw found (
        join-FlightInv o op _ named at
          (add_notifier-SameWork notify (record op { waiters = op.waiters + 1 })))
  ]
