-- ===== src/Lifecycle/Flight/Counting.antt =====
-- The callers that wait for one operation, and what holds of each of them.
use codespace_ssh_gateway.Shared.{
  ℕ, ◌+◌, Option, none, some, List, [], ◌∷◌, ◌++◌, ◌≡◌, ◌==◌, nat_eq, arith, if◌then◌else◌,
}
use codespace_ssh_gateway.Lifecycle.Flight.{Operation}
use codespace_ssh_gateway.Lifecycle.Flight.System.{Ticket}

unfoldable pub callers : ℕ → List Ticket → ℕ
callers o [] = 0
callers o (t ∷ ts) = (if t.op == o then 1 else 0) + callers o ts

pub callers-nil : (o : ℕ) → callers o [] ≡ 0
unfolding callers
callers-nil o = omega arith

pub callers-cons :
    (o : ℕ) (t : Ticket) (ts : List Ticket)
    → callers o (t ∷ ts) ≡ (if t.op == o then 1 else 0) + callers o ts
unfolding callers
callers-cons o t ts = omega arith

pub callers-remove :
    (o : ℕ) (xs : List Ticket) (t : Ticket) (ys : List Ticket)
    → callers o (xs ++ (t ∷ ys)) ≡ (if t.op == o then 1 else 0) + callers o (xs ++ ys)
unfolding callers
callers-remove o [] t ys = omega arith
callers-remove o (x ∷ xs) t ys = omega (arith, callers-remove o xs t ys)

-- How often an operation stands in a list of addresses.
pub times : ℕ → List ℕ → ℕ
times o [] = 0
times o (p ∷ ps) = (if p == o then 1 else 0) + times o ps

pub times-nil : (o : ℕ) → times o [] ≡ 0
unfolding times
times-nil o = omega arith

pub times-cons : (o p : ℕ) (ps : List ℕ) → times o (p ∷ ps) ≡ (if p == o then 1 else 0) + times o ps
unfolding times
times-cons o p ps = omega arith

pub times-remove :
    (o : ℕ) (xs : List ℕ) (p : ℕ) (ys : List ℕ)
    → times o (xs ++ (p ∷ ys)) ≡ (if p == o then 1 else 0) + times o (xs ++ ys)
unfolding times
times-remove o [] p ys = omega arith
times-remove o (x ∷ xs) p ys = omega (arith, times-remove o xs p ys)

-- The operation of each ticket is allocated, and of the ticket's environment.
abbrev pub Fits : (ℕ → Option Operation) → Ticket → Type 0
Fits heap t = (op : Operation) × (heap t.op ≡ some op) × (op.handle ≡ t.handle)

abbrev pub AllFit : (ℕ → Option Operation) → List Ticket → Type 0
AllFit heap [] = Unit {0}
AllFit heap (t ∷ ts) = Fits heap t × AllFit heap ts

pub AllFit-pick :
    (heap : ℕ → Option Operation) (xs : List Ticket) (t : Ticket) (ys : List Ticket)
    → AllFit heap (xs ++ (t ∷ ys))
    → Fits heap t
AllFit-pick heap [] t ys h = h.0
AllFit-pick heap (x ∷ xs) t ys h = AllFit-pick heap xs t ys h.1

pub AllFit-remove :
    (heap : ℕ → Option Operation) (xs : List Ticket) (t : Ticket) (ys : List Ticket)
    → AllFit heap (xs ++ (t ∷ ys))
    → AllFit heap (xs ++ ys)
AllFit-remove heap [] t ys h = h.1
AllFit-remove heap (x ∷ xs) t ys h = (h.0, AllFit-remove heap xs t ys h.1)

pub AllFit-heap :
    (h k : ℕ → Option Operation) (ts : List Ticket)
    → ((t : Ticket) → Fits h t → Fits k t)
    → AllFit h ts
    → AllFit k ts
AllFit-heap h k [] f a = tt
AllFit-heap h k (t ∷ ts) f a = (f t a.0, AllFit-heap h k ts f a.1)

-- Nobody waits for an address that is free.
pub callers_free :
    (heap : ℕ → Option Operation) (o : ℕ) (ts : List Ticket)
    → heap o ≡ none
    → AllFit heap ts
    → callers o ts ≡ 0
unfolding callers
callers_free heap o [] e h = omega arith
callers_free heap o (t ∷ ts) e h = ground (arith, callers_free heap o ts e h.1, h.0)
