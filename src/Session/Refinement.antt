-- ===== src/Session/Refinement.antt =====
-- core/session/session.go against what the package promises: who is in which environment, the limits,
-- and the hooks at the first entry and the last exit. Tables, ids and pointers are forgotten.
use codespace_ssh_gateway.Shared.{
  ℕ, ◌+◌, ◌-◌, ◌^◌, ◌<◌, String, Bool, false, List, [], ◌∷◌, ◌++◌, ◌≡◌, refl, ◌∙◌, ap, subst, arith,
  ◌==◌, nat_eq, string_eq, ltb, leb, length, if◌then◌else◌, ◌&&◌,
}
use codespace_ssh_gateway.Session.Invariant.{Inv, total-insert}
use codespace_ssh_gateway.Session.Closing.{total-deregister, count-pos}
use codespace_ssh_gateway.Session.Steps.{
  Call, step, run, Change, keeps, adds, drops, relabels, step-Change, count-insert,
  count-deregister,
}
use codespace_ssh_gateway.Session.Runs.{Change-Inv, Change-seq}
use codespace_ssh_gateway.Session.Manager.{
  Manager, Hook, first_opened, last_closed, fire, count_for, total, insert, deregister, too_many,
  too_many_for,
}

pub record Rules : Type 0 where
  pub max_total : ℕ
  pub max_per_env : ℕ
  pub on_first : Bool
  pub on_last : Bool

pub record Occupancy : Type 0 where
  pub all : ℕ
  pub of : String → ℕ

unfoldable pub rules_of : Manager → Rules
rules_of m = record {
  max_total = m.max_total;
  max_per_env = m.max_per_env;
  on_first = m.on_first;
  on_last = m.on_last;
}

unfoldable pub occupancy : Manager → Occupancy
occupancy m = record { all = total m; of = count_for m }

-- A limit of 0 is none.
abbrev pub reached : ℕ → ℕ → Bool
reached limit n = ltb 0 limit && leb limit n

-- What one call may do, seen from outside, with the hooks that go with it.
pub data Visit (r : Rules) (a b : Occupancy) (hs : List Hook) : Type 0 where
  stays : b.all ≡ a.all → ((env : String) → b.of env ≡ a.of env) → hs ≡ [] → Visit r a b hs
  enters :
      (env : String)
      → reached r.max_total a.all ≡ false
      → reached r.max_per_env (a.of env) ≡ false
      → b.all ≡ a.all + 1
      → ((e : String) → b.of e ≡ (if env == e then a.of e + 1 else a.of e))
      → hs ≡ fire (a.of env == 0 && r.on_first) (first_opened env)
      → Visit r a b hs
  leaves :
      (env : String)
      → 0 < a.of env
      → b.all + 1 ≡ a.all
      → ((e : String) → b.of e ≡ (if env == e then a.of e - 1 else a.of e))
      → hs ≡ fire (a.of env == 1 && r.on_last) (last_closed env)
      → Visit r a b hs

pub data Visits (r : Rules) : Occupancy → Occupancy → List Hook → Type 0 where
  over : (a : Occupancy) → Visits r a a []
  next :
      (a b c : Occupancy) (hs hs' : List Hook)
      → Visit r a b hs
      → Visits r b c hs'
      → Visits r a c (hs ++ hs')

last_hook : (n : ℕ) (b : Bool) (h : Hook) → 0 < n → fire (leb n 1 && b) h ≡ fire (n == 1 && b) h
last_hook n b h pos = ground arith

Change-Visit :
    (m : Manager) {n : Manager} {hs : List Hook}
    → Change m n hs
    → Inv m
    → Visit (rules_of m) (occupancy m) (occupancy n) hs
unfolding rules_of occupancy
Change-Visit m (keeps e h) v = stays (ap total e) (λ env. ap (λ n. count_for n env) e) h
Change-Visit m (adds now info few few_for e h) v =
    enters info.environment (unfold too_many in few) (unfold too_many_for in few_for)
      (rw e (unfold total in omega (arith, total-insert now (m.seq + 1) info m v (omega arith))))
      (λ env. rw e (count-insert (m.seq + 1) now info m env)) h
Change-Visit m (drops p s at live e h) v =
    leaves s.info.environment (count-pos p s m v at live)
      (rw e (unfold total in omega (arith, total-deregister p s m v at live)))
      (λ env. rw e (count-deregister p s m env))
      (h ∙ last_hook (count_for m s.info.environment) m.on_last _ (count-pos p s m v at live))
Change-Visit m (relabels p s info at i k e h) v =
    stays (unfold total in rw e refl) (λ env. unfold count_for in rw e refl) h

Change-rules : {m n : Manager} {hs : List Hook} → Change m n hs → rules_of n ≡ rules_of m
unfolding rules_of insert deregister
Change-rules (keeps e h) = ap rules_of e
Change-rules (adds now info few few_for e h) = rw e refl
Change-rules (drops p s at live e h) = rw e refl
Change-rules (relabels p s info at i k e h) = rw e refl

-- Every history of calls on the registry that leaves room in the sequence number is, seen from
-- outside, a history of entries and exits: nobody enters at a limit, nobody leaves an empty
-- environment, and the hooks fire, in order, at first entries and last exits and at no other time.
pub run-Visits :
    (m : Manager) (calls : List Call)
    → Inv m
    → m.seq + length calls < 2 ^ 64
    → Visits (rules_of m) (occupancy m) (occupancy (run m calls).0) (run m calls).1
unfolding run
run-Visits m [] v room = over (occupancy m)
run-Visits m (c ∷ cs) v room =
    let change = step-Change m c (omega arith) in
    let rest =
      run-Visits (step m c).0 cs (Change-Inv change v) (omega (arith, Change-seq change)) in
    next (occupancy m) (occupancy (step m c).0) (occupancy (run (step m c).0 cs).0) (step m c).1
      (run (step m c).0 cs).1 (Change-Visit m change v)
      (subst
        (λ r.
          Visits r (occupancy (step m c).0) (occupancy (run (step m c).0 cs).0)
            (run (step m c).0 cs).1)
        (Change-rules change) rest)
