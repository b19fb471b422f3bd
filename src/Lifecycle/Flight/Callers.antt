-- ===== src/Lifecycle/Flight/Callers.antt =====
-- Callers that come and go keep the invariant.
use codespace_ssh_gateway.Shared.{
  ℕ, ◌+◌, ◌-◌, ◌<◌, Bool, true, false, none, some, List, ◌∷◌, ◌++◌, ◌≡◌, refl, ◌∙◌, ap, subst, inl,
  inr, arith, ◌==◌, nat_eq, string_eq, Bool-cases, if◌then◌else◌,
}
use codespace_ssh_gateway.Lifecycle.Flight.Counting.{
  callers, callers-remove, times-cons, AllFit, AllFit-pick, AllFit-remove,
}
use codespace_ssh_gateway.Lifecycle.Flight.System.{Ticket, System, released}
use codespace_ssh_gateway.Lifecycle.Flight.Invariant.{
  FlightInv, delete_keeps, delete_rest, Fits-store,
}
use codespace_ssh_gateway.Lifecycle.Flight.{Operation, store, delete_if, release}

module _ (s : System) (v : FlightInv s) (t : Ticket) (op : Operation) (xs ys : List Ticket)
    (at : s.flight.heap t.op ≡ some op) (waits : s.waiting ≡ xs ++ (t ∷ ys)) where
  abbrev left : Operation
  left = record op { waiters = op.waiters - 1 }

  whole : AllFit s.flight.heap (xs ++ (t ∷ ys))
  whole = subst (AllFit s.flight.heap) waits v.fit

  same_handle : op.handle ≡ t.handle
  same_handle = ground (arith, AllFit-pick s.flight.heap xs t ys whole, at)

  fewer : (q : ℕ) → callers q s.waiting ≡ (if t.op == q then 1 else 0) + callers q (xs ++ ys)
  fewer q = ap (callers q) waits ∙ callers-remove q xs t ys

  rest_fits : AllFit (store s.flight.heap t.op left) (xs ++ ys)
  rest_fits =
      Fits-store s v t.op op at left (xs ++ ys) refl (AllFit-remove s.flight.heap xs t ys whole)

  -- Others wait still, or the operation is done.
  release-FlightInv :
      (op.result ≡ none → 0 < op.waiters - 1)
      → FlightInv (record s {
        flight = record s.flight { heap = store s.flight.heap t.op left };
        waiting = xs ++ ys;
      })
  release-FlightInv more = record {
    allocated = λ q lt. ground (arith, v.allocated q);
    present = λ env q e b. ground (arith, v.present env q e);
    entry = λ env q u e f. ground (arith, v.entry env q op, v.entry env q u);
    counted = λ q u f. ground (arith, v.counted q op, v.counted q u, fewer q);
    registered = λ q u f e lt. ground (arith, v.registered q op, v.registered q u);
    finished = λ q u f e. ground (arith, v.finished q op, v.finished q u);
    cancelled = λ q u f e n. ground (arith, v.cancelled q op, v.cancelled q u);
    pending = λ q u f e n. ground (arith, v.pending q op, v.pending q u);
    known = λ q lt e. ground (arith, v.known q);
    fit = rest_fits;
  }

  -- The last caller has gone.
  orphan-FlightInv :
      op.waiters - 1 ≡ 0
      → FlightInv (record s {
        flight = record s.flight {
          heap = store s.flight.heap t.op left;
          ops = delete_if s.flight.ops op.handle t.op;
        };
        waiting = xs ++ ys;
        cancelling = t.op ∷ s.cancelling;
      })
  orphan-FlightInv none_left = record {
    allocated = λ q lt. ground (arith, v.allocated q);
    present = λ env q e b. ground (arith, delete_keeps s v t.op op at env q e, v.present env q);
    entry = λ env q u e f. ground (arith, delete_keeps s v t.op op at env q e, v.entry env q u);
    counted = λ q u f. ground (arith, v.counted q op, v.counted q u, fewer q);
    registered =
        λ q u f e lt. ground (arith, v.registered q u, delete_rest s v t.op op at u.handle q);
    finished = λ q u f e. ground (arith, v.finished q op, v.finished q u);
    cancelled = λ q u f e n. ground (arith, v.cancelled q op, v.cancelled q u);
    pending =
        λ q u f e n. ground (arith, v.pending q op, v.pending q u, times-cons q t.op s.cancelling);
    known = λ q lt e. ground (arith, v.known q, times-cons q t.op s.cancelling);
    fit = rest_fits;
  }

  pub released-FlightInv :
      (abandoned : Bool)
      → (abandoned ≡ false → op.done ≡ true)
      → FlightInv (released t op abandoned (xs ++ ys) s)
  unfolding release
  released-FlightInv false d = release-FlightInv (λ n. absurd (v.finished t.op op at (d refl) n))
  released-FlightInv true d = elim (Bool-cases (op.waiters - 1 == 0)) [
    | inl last ↦ simp (last, ← same_handle) (orphan-FlightInv (ground arith))
    | inr more ↦ simp more (release-FlightInv (λ n. ground arith))
  ]
