-- ===== src/Session/Limits.antt =====
-- The limits of the registry, and the hooks that it fires.
use codespace_ssh_gateway.Shared.{
  ℕ, ◌+◌, ◌^◌, ◌≤◌, ◌<◌, String, false, some, List, [], ◌∷◌, ◌≡◌, refl, arith, nat_eq, string_eq,
  eq_iff, length,
}
use codespace_ssh_gateway.Shared.Map.{get}
use codespace_ssh_gateway.Session.Invariant.{Inv, total-insert, new_manager-Inv}
use codespace_ssh_gateway.Session.Closing.{total-deregister}
use codespace_ssh_gateway.Session.Runs.{Change-Inv, Change-seq}
use codespace_ssh_gateway.Session.Steps.{
  Call, step, run, Change, keeps, adds, drops, relabels, step-Change, count-insert,
  count-deregister,
}
use codespace_ssh_gateway.Session.Manager.{
  Info, Session, Manager, Hook, count_for, total, too_many, too_many_for, insert, deregister,
  new_manager,
}

pub record Within (a b : ℕ) (m : Manager) : Type 0 where
  pub total_limit : m.max_total ≡ a
  pub env_limit : m.max_per_env ≡ b
  pub in_total : 0 < a → total m ≤ a
  pub in_env : (env : String) → 0 < b → count_for m env ≤ b

insert-Within :
    {a b : ℕ} (k now : ℕ) (info : Info) (m : Manager)
    → Inv m
    → m.seq < k
    → too_many m ≡ false
    → too_many_for m info.environment ≡ false
    → Within a b m
    → Within a b (insert k now info m)
unfolding too_many too_many_for total
insert-Within k now info m v new few few_for w = record {
  total_limit = unfold insert in w.total_limit;
  env_limit = unfold insert in w.env_limit;
  in_total = λ h. ground (arith, total-insert now k info m v new, w.in_total, w.total_limit);
  in_env = λ env h. ground (
    arith,
    count-insert k now info m env,
    eq_iff info.environment env,
    w.in_env env,
    w.env_limit,
  );
}

deregister-Within :
    {a b : ℕ} (p : ℕ) (s : Session) (m : Manager)
    → Inv m
    → m.cells p ≡ some s
    → s.closed ≡ false
    → Within a b m
    → Within a b (deregister p s m)
unfolding total
deregister-Within p s m v at flag w = record {
  total_limit = unfold deregister in w.total_limit;
  env_limit = unfold deregister in w.env_limit;
  in_total = λ h. omega (arith, total-deregister p s m v at flag, w.in_total h);
  in_env = λ env h. ground (arith, count-deregister p s m env, w.in_env env h);
}

Change-Within :
    {a b : ℕ} {m n : Manager} {hs : List Hook} → Change m n hs → Inv m → Within a b m → Within a b n
Change-Within (keeps e _) v w = rw e w
Change-Within {m = m} (adds now info few few_for e _) v w =
    rw e (insert-Within (m.seq + 1) now info m v (omega arith) few few_for w)
Change-Within {m = m} (drops p s at flag e _) v w = rw e (deregister-Within p s m v at flag w)
Change-Within (relabels p s info at i k e _) v w = rw e (
    unfold count_for total in
    record {
      total_limit = w.total_limit;
      env_limit = w.env_limit;
      in_total = w.in_total;
      in_env = w.in_env;
    })

run-Within :
    {a b : ℕ} (m : Manager) (calls : List Call)
    → Inv m
    → m.seq + length calls < 2 ^ 64
    → Within a b m
    → Within a b (run m calls).0
unfolding run
run-Within m [] v room w = w
run-Within m (c ∷ cs) v room w =
    let change = step-Change m c (omega arith) in
    run-Within (step m c).0 cs (Change-Inv change v) (omega (arith, Change-seq change))
      (Change-Within change v w)

-- In every history of fewer than 2^64 calls on a new registry, the number of registered sessions
-- never passes a positive total limit, nor the count of any environment a positive limit for it.
pub run-new-Within :
    (a b : ℕ) (calls : List Call)
    → length calls < 2 ^ 64
    → Within a b (run (new_manager a b) calls).0
unfolding get
run-new-Within a b calls room =
    run-Within (new_manager a b) calls (new_manager-Inv a b) (unfold new_manager in omega arith) (
      unfold new_manager total count_for in
      record {
        total_limit = refl;
        env_limit = refl;
        in_total = λ h. omega arith;
        in_env = λ env h. omega arith;
      })
