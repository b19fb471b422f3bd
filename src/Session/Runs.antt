-- ===== src/Session/Runs.antt =====
-- What every history of calls keeps.
use codespace_ssh_gateway.Shared.{
  ℕ, ◌+◌, ◌^◌, ◌≤◌, ◌<◌, some, List, [], ◌∷◌, ◌≡◌, ◌∙◌, inl, inr, arith, ◌==◌, nat_eq, string_eq,
  length, Bool-cases,
}
use codespace_ssh_gateway.Session.Counting.{count_env-cells}
use codespace_ssh_gateway.Session.Invariant.{Inv, new_manager-Inv, insert-Inv}
use codespace_ssh_gateway.Session.Closing.{deregister-Inv}
use codespace_ssh_gateway.Session.Steps.{
  Call, step, run, Change, keeps, adds, drops, relabels, step-Change,
}
use codespace_ssh_gateway.Session.Manager.{
  Info, Session, Manager, Hook, store, count_for, insert, deregister, new_manager,
}

relabel-Inv :
    (p : ℕ) (s : Session) (info : Info) (m : Manager)
    → Inv m
    → m.cells p ≡ some s
    → info.id ≡ s.info.id
    → info.environment ≡ s.info.environment
    → Inv (record m { cells = store m.cells p (record s { info = info }) })
relabel-Inv p s info m v at same_id same_env = record {
  unique = v.unique;
  allocated = λ q h. ground (arith, v.allocated q);
  live = λ id q e. elim (Bool-cases (p == q)) [
    | inl hit ↦ (
      record s { info = info },
      ground (arith),
      ground (arith, v.live id q e),
      ground (arith, v.live id q e),
    )
    | inr miss ↦ let (t, there, flag, same) = v.live id q e in (t, ground arith, flag, same)
  ];
  registered = λ q t e c. ground (arith, v.registered q t, v.registered p s);
  counted = λ env.
      unfold count_for in
      (v.counted env
        ∙ count_env-cells m.cells (store m.cells p (record s { info = info })) env m.by_id v.unique
            (λ id q e. ground (arith)));
  fresh = v.fresh;
}

pub Change-Inv : {m n : Manager} {hs : List Hook} → Change m n hs → Inv m → Inv n
Change-Inv (keeps e _) v = rw e v
Change-Inv {m} (adds now info _ _ e _) v = rw e (insert-Inv now (m.seq + 1) info m v (omega arith))
Change-Inv {m} (drops p s at flag e _) v = rw e (deregister-Inv p s m v at flag)
Change-Inv {m} (relabels p s info at i k e _) v = rw e (relabel-Inv p s info m v at i k)

pub Change-seq : {m n : Manager} {hs : List Hook} → Change m n hs → n.seq ≤ m.seq + 1
unfolding insert deregister
Change-seq (keeps e _) = ground arith
Change-seq (adds now info _ _ e _) = ground arith
Change-seq (drops p s at flag e _) = ground arith
Change-seq (relabels p s info at i k e _) = ground arith

pub run-Inv :
    (m : Manager) (calls : List Call) → Inv m → m.seq + length calls < 2 ^ 64 → Inv (run m calls).0
unfolding run
run-Inv m [] v room = v
run-Inv m (c ∷ cs) v room =
    let change = step-Change m c (omega arith) in
    run-Inv (step m c).0 cs (Change-Inv change v) (omega (arith, Change-seq change))

-- From a new registry, every history of fewer than 2^64 calls leaves the tables, the counters and
-- the session flags in agreement.
pub run-new-Inv :
    (a b : ℕ) (calls : List Call) → length calls < 2 ^ 64 → Inv (run (new_manager a b) calls).0
run-new-Inv a b calls room =
    run-Inv (new_manager a b) calls (new_manager-Inv a b) (unfold new_manager in omega arith)
