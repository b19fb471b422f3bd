-- ===== src/Session/Behaviour.antt =====
-- What one Open and one Close do, on every branch.
use codespace_ssh_gateway.Shared.{
  ℕ, ◌+◌, ◌-◌, ◌^◌, ◌<◌, String, Bool, true, false, not, none, some, [], ◌≡◌, refl, ◌∙◌, inl, inr,
  Bool-cases, arith, ◌==◌, nat_eq, string_eq, eq_iff, ltb, leb, if◌then◌else◌, ◌&&◌, ◌||◌,
}
use codespace_ssh_gateway.Shared.Map.{get, get-put, get-del}
use codespace_ssh_gateway.Providers.Errors.{Sentinel, Result, ok, err, is}
use codespace_ssh_gateway.Session.Invariant.{Inv, total-insert}
use codespace_ssh_gateway.Session.Closing.{total-deregister, count-pos}
use codespace_ssh_gateway.Session.Steps.{
  count-insert, count-deregister, register_lem, first_test, last_test,
}
use codespace_ssh_gateway.Session.Manager.{
  Info, Session, Manager, Hook, first_opened, last_closed, fire, count_for, total, too_many,
  too_many_for, insert, deregister, open_session, close_session, close_cell, session_id,
}

-- Whether a limit leaves room beside `n` sessions; 0 means no limit.
unfoldable pub admits : ℕ → ℕ → Bool
admits limit n = (limit == 0) || ltb n limit

abbrev pub accepted : Result ℕ → Bool
accepted (ok p) = true
accepted (err e) = false

abbrev pub refused_as : Sentinel → Result ℕ → Bool
refused_as s (ok p) = false
refused_as s (err e) = is e s

too_many_lem : (m : Manager) → too_many m ≡ not (admits m.max_total (total m))
unfolding too_many admits
too_many_lem m = ground arith

too_many_for_lem :
    (m : Manager) (env : String) → too_many_for m env ≡ not (admits m.max_per_env (count_for m env))
unfolding too_many_for admits
too_many_for_lem m env = ground arith

-- Open takes a session exactly if both limits leave room for one more, a limit of 0 being none. It
-- refuses one with ErrTooManySessions exactly if the total limit leaves no room, and with
-- ErrTooManySessionsForEnv exactly if the total limit leaves room and that of the environment leaves
-- none. Where it refuses, the registry is as before and no hook fires.
pub open_admits :
    (now : ℕ) (info : Info) (m : Manager)
    → let r = open_session now info m in
      let all_of_them = admits m.max_total (total m) in
      let in_env = admits m.max_per_env (count_for m info.environment) in
      (accepted r.1 ≡ (all_of_them && in_env))
      × (refused_as Sentinel.too_many_sessions r.1 ≡ not all_of_them)
      × (refused_as Sentinel.too_many_sessions_for_env r.1 ≡ (all_of_them && not in_env))
      × ((if all_of_them && in_env then m else r.0) ≡ m)
      × ((if all_of_them && in_env then [] else r.2) ≡ [])
unfolding open_session is
open_admits now info m =
    let t = too_many_lem m in
    let t' = too_many_for_lem m info.environment in
    elim (Bool-cases (admits m.max_total (total m))) [
      | inl h ↦ elim (Bool-cases (admits m.max_per_env (count_for m info.environment))) [
        | inl k ↦ simp (t, t', h, k) (refl, refl, refl, refl, refl)
        | inr k ↦ simp (t, t', h, k) (refl, refl, refl, refl, refl)
      ]
      | inr h ↦ simp (t, h) (refl, refl, refl, refl, refl)
    ]

-- Below the limits Open registers a new session under an id that was free. The count of its
-- environment and the total grow by one, other environments keep theirs, and the first-session
-- hook fires exactly if it is set and the environment had no session.
pub open_registers :
    (now : ℕ) (info : Info) (m : Manager)
    → Inv m
    → m.seq + 1 < 2 ^ 64
    → too_many m ≡ false
    → too_many_for m info.environment ≡ false
    → let m' = (open_session now info m).0 in
      ((open_session now info m).1 ≡ ok m.next)
      × (get m.by_id (session_id (m.seq + 1)) ≡ none)
      × (get m'.by_id (session_id (m.seq + 1)) ≡ some m.next)
      × (total m' ≡ total m + 1)
      × ((env : String)
          → count_for m' env
            ≡ (if info.environment == env then count_for m env + 1 else count_for m env))
      × ((open_session now info m).2
          ≡ fire (count_for m info.environment == 0 && m.on_first) (first_opened info.environment))
unfolding open_session
open_registers now info m v room few few_for =
    simp (few, few_for, register_lem now info m room)
      (
        refl,
        v.fresh (m.seq + 1) (omega arith),
        (unfold insert in
            ground (
              arith,
              get-put m.by_id (session_id (m.seq + 1)) m.next (session_id (m.seq + 1)),
              eq_iff (session_id (m.seq + 1)) (session_id (m.seq + 1)),
            )),
        (unfold total in omega (arith, total-insert now (m.seq + 1) info m v (omega arith))),
        (λ env. count-insert (m.seq + 1) now info m env),
        first_test (m.seq + 1) now info m,
      )

last_one : (n : ℕ) (b : Bool) (h : Hook) → 0 < n → fire (leb n 1 && b) h ≡ fire (n == 1 && b) h
last_one n b h pos = ground arith

-- Closing an open session frees its id, takes one from the total and from the count of its
-- environment and from no other, and fires the last-session hook exactly if it is set and that was
-- the last session there.
pub close_releases :
    (p : ℕ) (s : Session) (m : Manager)
    → Inv m
    → m.cells p ≡ some s
    → s.closed ≡ false
    → let m' = (close_session p m).0 in
      (get m'.by_id s.info.id ≡ none)
      × (total m' + 1 ≡ total m)
      × ((env : String)
          → count_for m' env
            ≡ (if s.info.environment == env then count_for m env - 1 else count_for m env))
      × ((close_session p m).1
          ≡ fire
              (count_for m s.info.environment == 1 && m.on_last)
              (last_closed s.info.environment))
unfolding close_session close_cell
close_releases p s m v at flag =
    simp (at, flag)
      (
        unfold deregister in
            ground (arith, get-del m.by_id s.info.id s.info.id, eq_iff s.info.id s.info.id),
        unfold total in omega (arith, total-deregister p s m v at flag),
        (λ env. count-deregister p s m env),
        last_test p s m
            ∙ last_one (count_for m s.info.environment) m.on_last _ (count-pos p s m v at flag),
      )

-- A second Close of the same session changes nothing and fires no hook.
pub close_twice :
    (p : ℕ) (m : Manager) → close_session p (close_session p m).0 ≡ ((close_session p m).0, [])
unfolding close_session close_cell deregister
close_twice p m = ground arith
