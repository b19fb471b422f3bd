-- ===== src/Session/Hooks.antt =====
-- The hooks for the first and the last session of an environment.
use codespace_ssh_gateway.Shared.{
  ℕ, ◌+◌, ◌^◌, ◌<◌, String, true, List, [], ◌∷◌, ◌++◌, ◌≡◌, refl, arith, ◌==◌, nat_eq, string_eq,
  eq_iff, length, if◌then◌else◌,
}
use codespace_ssh_gateway.Session.Invariant.{Inv}
use codespace_ssh_gateway.Session.Closing.{count-pos}
use codespace_ssh_gateway.Session.Runs.{Change-Inv, Change-seq}
use codespace_ssh_gateway.Session.Steps.{
  Call, step, run, Change, keeps, adds, drops, relabels, step-Change, count-insert,
  count-deregister,
}
use codespace_ssh_gateway.Session.Manager.{
  Manager, Hook, first_opened, last_closed, count_for, insert, deregister,
}

pub firsts : String → List Hook → ℕ
firsts env [] = 0
firsts env (first_opened e ∷ hs) = (if e == env then 1 else 0) + firsts env hs
firsts env (last_closed e ∷ hs) = firsts env hs

pub lasts : String → List Hook → ℕ
lasts env [] = 0
lasts env (first_opened e ∷ hs) = lasts env hs
lasts env (last_closed e ∷ hs) = (if e == env then 1 else 0) + lasts env hs

firsts-append :
    (env : String) (xs ys : List Hook) → firsts env (xs ++ ys) ≡ firsts env xs + firsts env ys
unfolding firsts
firsts-append env [] ys = omega arith
firsts-append env (first_opened e ∷ xs) ys = omega (arith, firsts-append env xs ys)
firsts-append env (last_closed e ∷ xs) ys = firsts-append env xs ys

lasts-append :
    (env : String) (xs ys : List Hook) → lasts env (xs ++ ys) ≡ lasts env xs + lasts env ys
unfolding lasts
lasts-append env [] ys = omega arith
lasts-append env (first_opened e ∷ xs) ys = lasts-append env xs ys
lasts-append env (last_closed e ∷ xs) ys = omega (arith, lasts-append env xs ys)

-- Whether the environment has a session.
abbrev pub occupied : Manager → String → ℕ
occupied m env = if count_for m env == 0 then 0 else 1

abbrev pub IsHooked : Manager → Type 0
IsHooked m = (m.on_first ≡ true) × (m.on_last ≡ true)

Change-IsHooked : {m n : Manager} {hs : List Hook} → Change m n hs → IsHooked m → IsHooked n
unfolding insert deregister
Change-IsHooked (keeps e _) h = rw e h
Change-IsHooked (adds now info _ _ e _) h = rw e h
Change-IsHooked (drops p s at flag e _) h = rw e h
Change-IsHooked (relabels p s info at i k e _) h = rw e h

Change-balance :
    {m n : Manager} {hs : List Hook} (env : String)
    → Change m n hs
    → Inv m
    → IsHooked m
    → firsts env hs + occupied m env ≡ lasts env hs + occupied n env
unfolding firsts lasts
Change-balance env (keeps e f) v h = rw (e, f)
Change-balance {m} env (adds now info _ _ e f) v h =
    rw (e, f) (ground (arith, count-insert (m.seq + 1) now info m env, eq_iff info.environment env))
Change-balance {m} env (drops p s at flag e f) v h =
    rw (e, f)
      (ground (
        arith,
        count-deregister p s m env,
        count-pos p s m v at flag,
        eq_iff s.info.environment env,
      ))
Change-balance env (relabels p s info at i k e f) v h = rw (e, f) (unfold count_for in refl)

-- While both hooks are set, and the history leaves room in the sequence number: the times that the
-- first-session hook fired for an environment, and one more if it had a session before the history,
-- are the times that its last-session hook fired, and one more if it has a session afterwards.
pub run-hooks :
    (m : Manager) (calls : List Call) (env : String)
    → Inv m
    → m.seq + length calls < 2 ^ 64
    → IsHooked m
    → firsts env (run m calls).1 + occupied m env
      ≡ lasts env (run m calls).1 + occupied (run m calls).0 env
unfolding run
run-hooks m [] env v room h = unfold firsts lasts in refl
run-hooks m (c ∷ cs) env v room h =
    let change = step-Change m c (omega arith) in
    omega (
      arith,
      Change-balance env change v h,
      firsts-append env (step m c).1 (run (step m c).0 cs).1,
      lasts-append env (step m c).1 (run (step m c).0 cs).1,
      run-hooks (step m c).0 cs env (Change-Inv change v) (omega (arith, Change-seq change))
          (Change-IsHooked change h),
    )
