-- ===== src/Gateway/Leaks.antt =====
-- core/gateway/backend.go: the registry before and after a session.
use codespace_ssh_gateway.Shared.{
  ℕ, ◌+◌, ◌^◌, ◌<◌, String, Bool, false, Option, none, some, List, ◌≡◌, refl, ◌⊎◌, inl, inr, arith,
  Bool-cases, ◌==◌, nat_eq, string_eq, eq_iff, if◌then◌else◌,
}
use codespace_ssh_gateway.Providers.Errors.{Failure, Result, ok, err}
use codespace_ssh_gateway.Session.Manager as Registry
use codespace_ssh_gateway.Session.Manager.{
  Info, Session, store, opened, total, count_for, too_many, too_many_for, insert, register,
  set_info, close_session,
}
use codespace_ssh_gateway.Session.Invariant.{Inv, insert-Inv, total-insert}
use codespace_ssh_gateway.Session.Steps.{register_lem, count-insert, step-Change, step, Call}
use codespace_ssh_gateway.Session.Runs.{Change-Inv}
use codespace_ssh_gateway.Session.Behaviour.{close_releases}
use codespace_ssh_gateway.Lifecycle.World.{Oracle, Options, World}
use codespace_ssh_gateway.Lifecycle.Connect.{Connection, connect, on_session_opened}
use codespace_ssh_gateway.Gateway.Opening.{
  OpenRequest, Gateway, Opened, Outcome, marked, info_of, attached, admitted, open_on, open_session,
  closing, release,
}

pub record SameCounts (n m : Registry.Manager) : Type 0 where
  pub in_all : total n ≡ total m
  pub in_env : (env : String) → count_for n env ≡ count_for m env

-- `n` is `m` with one open session more, the one that `s` was given for.
pub record IsHeld (m : Registry.Manager) (s : Opened) (n : Registry.Manager) : Type 0 where
  pub cell : Session
  pub there : n.cells s.session ≡ some cell
  pub live : cell.closed ≡ false
  pub placed : cell.info.environment ≡ s.handle
  pub in_all : total n ≡ total m + 1
  pub in_env :
      (env : String)
      → count_for n env ≡ (if s.handle == env then count_for m env + 1 else count_for m env)
  pub unreleased : s.released ≡ false

open_cases :
    (now : ℕ) (info : Info) (m : Registry.Manager)
    → m.seq + 1 < 2 ^ 64
    → ((e : Failure) × ((Registry.open_session now info m).0 ≡ m)
        × ((Registry.open_session now info m).1 ≡ err e))
      ⊎ (((Registry.open_session now info m).0 ≡ insert (m.seq + 1) now info m)
          × ((Registry.open_session now info m).1 ≡ ok m.next))
unfolding Registry.open_session
open_cases now info m room = elim (Bool-cases (too_many m)) [
  | inl full ↦ inl (simp full (_, refl, refl))
  | inr few ↦ elim (Bool-cases (too_many_for m info.environment)) [
    | inl full ↦ inl (simp (few, full) (_, refl, refl))
    | inr few_for ↦ inr (simp (few, few_for, register_lem now info m room) (refl, refl))
  ]
]

-- A closed session leaves the registry as it was without it.
close-SameCounts :
    (m n : Registry.Manager) (s : Opened)
    → Inv n
    → IsHeld m s n
    → SameCounts (close_session s.session n).0 m
close-SameCounts m n s v h =
    let r = close_releases s.session h.cell n v h.there h.live in
    record {
      in_all = omega (arith, r.1, h.in_all);
      in_env = λ env. ground (
        arith,
        r.2 env,
        h.in_env env,
        h.placed,
        eq_iff s.handle env,
        eq_iff h.cell.info.environment env,
      );
    }

module _ (now : ℕ) (info : Info) (m : Registry.Manager) (v : Inv m)
    (room : m.seq + 1 < 2 ^ 64) where
  -- The session that Open has just registered, under any phase.
  pub inserted-IsHeld :
      (conn : ℕ) (environment : String)
      → IsHeld m
          (record {
            conn = conn;
            environment = environment;
            session = m.next;
            handle = info.environment;
            released = false;
          })
          (insert (m.seq + 1) now info m)
  unfolding total
  inserted-IsHeld conn environment = record {
    cell = opened now info (m.seq + 1);
    there = unfold insert in ground arith;
    live = unfold opened in refl;
    placed = unfold opened in refl;
    in_all = omega (arith, total-insert now (m.seq + 1) info m v (omega arith));
    in_env = λ env. count-insert (m.seq + 1) now info m env;
    unreleased = refl;
  }

call-Inv : (m : Registry.Manager) (c : Call) → m.seq + 1 < 2 ^ 64 → Inv m → Inv (step m c).0
call-Inv m c room v = Change-Inv (step-Change m c room) v

set_phase-Inv :
    (phase : String) (p : ℕ) (m : Registry.Manager)
    → m.seq + 1 < 2 ^ 64
    → Inv m
    → Inv (Registry.set_phase phase p m)
unfolding step
set_phase-Inv phase p m room v = call-Inv m (Call.phases phase p) room v

close-Inv : (p : ℕ) (m : Registry.Manager) → m.seq + 1 < 2 ^ 64 → Inv m → Inv (close_session p m).0
unfolding step
close-Inv p m room v = call-Inv m (Call.closes p) room v

set_phase-IsHeld :
    (phase : String) (m n : Registry.Manager) (s : Opened)
    → IsHeld m s n
    → IsHeld m s (Registry.set_phase phase s.session n)
unfolding Registry.set_phase set_info total count_for
set_phase-IsHeld phase m n s h = rw h.there (record {
  cell = record h.cell { info = record h.cell.info { phase = phase } };
  there = ground arith;
  live = h.live;
  placed = h.placed;
  in_all = h.in_all;
  in_env = h.in_env;
  unreleased = h.unreleased;
})

-- What OpenSession promises of a registry `m`: after an error the counts are as they were, and else
-- there is one session more, which the result holds.
abbrev pub Settled : Registry.Manager → Outcome → Type 0
Settled m none = Unit
Settled m (some (g, err e)) = Inv g.sessions × SameCounts g.sessions m
Settled m (some (g, ok s)) = Inv g.sessions × IsHeld m s g.sessions

module _ (o : Oracle) (opts : Options) (fuel : ℕ) (default : String) (secrets : List String)
    (now : ℕ) (req : OpenRequest) (m : Registry.Manager) (v : Inv m) (room : m.seq + 2 < 2 ^ 64)
    (handle : String) where
  abbrev grown : Registry.Manager
  grown = insert (m.seq + 1) now (info_of req handle) m

  grown-Inv : Inv grown
  grown-Inv = insert-Inv now (m.seq + 1) (info_of req handle) m v (omega arith)

  grown-room : grown.seq + 1 < 2 ^ 64
  unfolding insert
  grown-room = omega (arith, room)

  marked-Settled :
      (s : Opened) (r : Option (Unit {0} × World))
      → IsHeld m s grown
      → Settled m (marked o opts fuel default secrets s grown r)
  marked-Settled s none h = tt
  marked-Settled s (some (u, w)) h = (
    set_phase-Inv "connected" s.session grown grown-room grown-Inv,
    set_phase-IsHeld "connected" m grown s h,
  )

  attached-Settled :
      (r : Option (Connection × World))
      → Settled m (attached o opts fuel default secrets m.next handle grown r)
  unfolding attached
  attached-Settled none = tt
  attached-Settled (some ((err e, env), w)) =
      let held = inserted-IsHeld now (info_of req handle) m v (omega arith) 0 env.id in
      (
        close-Inv m.next grown grown-room grown-Inv,
        unfold info_of in close-SameCounts m grown _ grown-Inv held,
      )
  attached-Settled (some ((ok conn, env), w)) =
      unfold info_of in
      marked-Settled _ (on_session_opened o handle w)
        (inserted-IsHeld now (info_of req handle) m v (omega arith) conn env.id)

  admitted-Settled :
      (w : World) (n : Registry.Manager) (r : Result ℕ)
      → ((e : Failure) × (n ≡ m) × (r ≡ err e)) ⊎ ((n ≡ grown) × (r ≡ ok m.next))
      → Settled m (admitted o opts fuel default secrets req handle w n r)
  unfolding admitted
  admitted-Settled w n r (inl (e, same, refused)) =
      rw (same, refused) (v, record { in_all = refl; in_env = λ env. refl })
  admitted-Settled w n r (inr (more, given)) =
      rw (more, given) (attached-Settled (connect o opts fuel handle req.connect w))

open_on-Settled :
    (o : Oracle) (opts : Options) (fuel : ℕ) (default : String) (secrets : List String) (now : ℕ)
    (req : OpenRequest) (m : Registry.Manager) (r : Option (Result String × World))
    → Inv m
    → m.seq + 2 < 2 ^ 64
    → Settled m (open_on o opts fuel default secrets now req m r)
unfolding open_on
open_on-Settled o opts fuel default secrets now req m none v room = tt
open_on-Settled o opts fuel default secrets now req m (some (err e, w)) v room =
    (v, record { in_all = refl; in_env = λ env. refl })
open_on-Settled o opts fuel default secrets now req m (some (ok handle, w)) v room =
    admitted-Settled o opts fuel default secrets now req m v room handle w _ _
      (open_cases now (info_of req handle) m (omega arith))

-- OpenSession leaks no session: when it returns an error, whatever failed, the total and the count
-- of each environment are as they were. When it succeeds, the result holds an open session of its
-- environment, which is the one more that is counted. The registry stays consistent.
pub open_session-Settled :
    (o : Oracle) (opts : Options) (fuel : ℕ) (default : String) (secrets : List String) (now : ℕ)
    (req : OpenRequest) (g : Gateway)
    → Inv g.sessions
    → g.sessions.seq + 2 < 2 ^ 64
    → Settled g.sessions (open_session o opts fuel default secrets now req g)
unfolding open_session
open_session-Settled o opts fuel default secrets now req g v room =
    open_on-Settled o opts fuel default secrets now req g.sessions _ v room

abbrev pub Released :
    (o : Oracle) (opts : Options) (fuel : ℕ) (default : String) (secrets : List String)
    → Registry.Manager
    → Option (Gateway × Opened × Bool)
    → Type 0
Released o opts fuel default secrets m none = Unit
Released o opts fuel default secrets m (some (g, s, asked)) =
    SameCounts g.sessions m × (release o opts fuel default secrets s g ≡ some (g, s, false))

closing-Released :
    (o : Oracle) (opts : Options) (fuel : ℕ) (default : String) (secrets : List String)
    (m n : Registry.Manager) (s : Opened) (r : Option (Bool × World))
    → SameCounts n m
    → Released o opts fuel default secrets m (closing o opts fuel default secrets n s r)
unfolding release
closing-Released o opts fuel default secrets m n s none h = tt
closing-Released o opts fuel default secrets m n s (some (asked, w)) h = (h, refl)

-- Release of a held session brings the counts back to those without it, and a second Release
-- changes nothing and starts no stop.
pub release-Released :
    (o : Oracle) (opts : Options) (fuel : ℕ) (default : String) (secrets : List String)
    (m : Registry.Manager) (s : Opened) (g : Gateway)
    → Inv g.sessions
    → IsHeld m s g.sessions
    → Released o opts fuel default secrets m (release o opts fuel default secrets s g)
unfolding release
release-Released o opts fuel default secrets m s g v h =
    rw h.unreleased
      (closing-Released o opts fuel default secrets m _ s _ (close-SameCounts m g.sessions s v h))
