-- ===== src/Session/Steps.antt =====
-- Any history of calls on the registry, with the hooks that it fires.
use codespace_ssh_gateway.Shared.{
  ℕ, ◌+◌, ◌-◌, ◌^◌, ◌<◌, String, Bool, false, Option, none, some, List, [], ◌∷◌, ◌++◌, ◌≡◌, refl,
  ap, inl, inr, ◌&&◌, arith, ◌==◌, nat_eq, string_eq, eq_iff, leb, Bool-cases, if◌then◌else◌,
}
use codespace_ssh_gateway.Shared.Map.{get, get-put, get-del}
use codespace_ssh_gateway.Session.Manager.{
  Info, fire, too_many, too_many_for, close_cell, Session, Manager, Hook, first_opened, last_closed,
  store, or_zero, count_for, insert, register, deregister, open_session, close_session, set_info,
  set_phase, set_kind,
}

pub data Call : Type 0 where
  opens : ℕ → Info → Call
  closes : ℕ → Call
  phases : String → ℕ → Call
  kinds : String → Bool → ℕ → Call

unfoldable pub step : Manager → Call → Manager × List Hook
step m (opens now info) = let r = open_session now info m in (r.0, r.2)
step m (closes p) = close_session p m
step m (phases phase p) = (set_phase phase p m, [])
step m (kinds kind pty p) = (set_kind kind pty p m, [])

unfoldable pub run : Manager → List Call → Manager × List Hook
run m [] = (m, [])
run m (c ∷ cs) = let r = step m c in let rest = run r.0 cs in (rest.0, r.1 ++ rest.1)

-- What a step leaves: the manager that it found, or one session more, one less, or one relabelled.
pub data Change (m : Manager) : Manager → List Hook → Type 0 where
  keeps : {n : Manager} {hs : List Hook} → n ≡ m → hs ≡ [] → Change m n hs
  adds :
      (now : ℕ) (info : Info) {n : Manager} {hs : List Hook}
      → too_many m ≡ false
      → too_many_for m info.environment ≡ false
      → n ≡ insert (m.seq + 1) now info m
      → hs ≡ fire (count_for m info.environment == 0 && m.on_first) (first_opened info.environment)
      → Change m n hs
  drops :
      (p : ℕ) (s : Session) {n : Manager} {hs : List Hook}
      → m.cells p ≡ some s
      → s.closed ≡ false
      → n ≡ deregister p s m
      → hs
        ≡ fire
            (leb (count_for m s.info.environment) 1 && m.on_last)
            (last_closed s.info.environment)
      → Change m n hs
  relabels :
      (p : ℕ) (s : Session) (info : Info) {n : Manager} {hs : List Hook}
      → m.cells p ≡ some s
      → info.id ≡ s.info.id
      → info.environment ≡ s.info.environment
      → n ≡ record m { cells = store m.cells p (record s { info = info }) }
      → hs ≡ []
      → Change m n hs

pub count-insert :
    (k now : ℕ) (info : Info) (m : Manager) (env : String)
    → count_for (insert k now info m) env
      ≡ (if info.environment == env then count_for m env + 1 else count_for m env)
unfolding insert count_for
count-insert k now info m env = ground (
  arith,
  get-put m.per_env info.environment (or_zero (get m.per_env info.environment) + 1) env,
  eq_iff info.environment env,
)

pub count-deregister :
    (p : ℕ) (s : Session) (m : Manager) (env : String)
    → count_for (deregister p s m) env
      ≡ (if s.info.environment == env then count_for m env - 1 else count_for m env)
unfolding deregister count_for
count-deregister p s m env = ground (
  arith,
  get-put m.per_env s.info.environment (or_zero (get m.per_env s.info.environment) - 1) env,
  get-del m.per_env s.info.environment env,
  eq_iff s.info.environment env,
)

pub register_lem :
    (now : ℕ) (info : Info) (m : Manager)
    → m.seq + 1 < 2 ^ 64
    → register now info m ≡ insert (m.seq + 1) now info m
unfolding register
register_lem now info m room = ap (λ k. insert k now info m) (omega arith)

on_first-insert :
    (k now : ℕ) (info : Info) (m : Manager) → (insert k now info m).on_first ≡ m.on_first
unfolding insert
on_first-insert k now info m = refl

on_last-deregister : (p : ℕ) (s : Session) (m : Manager) → (deregister p s m).on_last ≡ m.on_last
unfolding deregister
on_last-deregister p s m = refl

pub first_test :
    (k now : ℕ) (info : Info) (m : Manager)
    → fire
        (count_for (insert k now info m) info.environment == 1 && (insert k now info m).on_first)
        (first_opened info.environment)
      ≡ fire (count_for m info.environment == 0 && m.on_first) (first_opened info.environment)
first_test k now info m = ground (
  arith,
  count-insert k now info m info.environment,
  eq_iff info.environment info.environment,
  on_first-insert k now info m,
)

pub last_test :
    (p : ℕ) (s : Session) (m : Manager)
    → fire
        (count_for (deregister p s m) s.info.environment == 0 && (deregister p s m).on_last)
        (last_closed s.info.environment)
      ≡ fire (leb (count_for m s.info.environment) 1 && m.on_last) (last_closed s.info.environment)
last_test p s m = ground (
  arith,
  count-deregister p s m s.info.environment,
  eq_iff s.info.environment s.info.environment,
  on_last-deregister p s m,
)

open-Change :
    (now : ℕ) (info : Info) (m : Manager)
    → m.seq + 1 < 2 ^ 64
    → Change m (open_session now info m).0 (open_session now info m).2
unfolding open_session
open-Change now info m room = elim (Bool-cases (too_many m)) [
  | inl full ↦ rw full (keeps refl refl)
  | inr room_left ↦ rw room_left (elim (Bool-cases (too_many_for m info.environment)) [
    | inl full ↦ rw full (keeps refl refl)
    | inr free ↦
        rw (free, register_lem now info m room)
          (adds now info room_left free refl (first_test (m.seq + 1) now info m))
  ])
]

cell-Change :
    (p : ℕ) (m : Manager) (c : Option Session)
    → m.cells p ≡ c
    → Change m (close_cell m p c).0 (close_cell m p c).1
unfolding close_cell
cell-Change p m none e = keeps refl refl
cell-Change p m (some s) e = elim (Bool-cases s.closed) [
  | inl done ↦ simp done (keeps refl refl)
  | inr live ↦ simp live (drops p s e live refl (last_test p s m))
]

close-Change : (p : ℕ) (m : Manager) → Change m (close_session p m).0 (close_session p m).1
unfolding close_session
close-Change p m = cell-Change p m (m.cells p) refl

relabel-Change :
    (p : ℕ) (f : Info → Info) (m : Manager) (c : Option Session)
    → m.cells p ≡ c
    → ((i : Info) → (f i).id ≡ i.id)
    → ((i : Info) → (f i).environment ≡ i.environment)
    → Change m (set_info m p f c) []
unfolding set_info
relabel-Change p f m none e h k = keeps refl refl
relabel-Change p f m (some s) e h k = relabels p s (f s.info) e (h s.info) (k s.info) refl refl

-- Every call makes one of the four changes.
pub step-Change : (m : Manager) (c : Call) → m.seq + 1 < 2 ^ 64 → Change m (step m c).0 (step m c).1
unfolding step set_phase set_kind
step-Change m (opens now info) room = open-Change now info m room
step-Change m (closes p) room = close-Change p m
step-Change m (phases phase p) room =
    relabel-Change p (λ i. record i { phase = phase }) m (m.cells p) refl (λ i. refl) (λ i. refl)
step-Change m (kinds kind pty p) room =
    relabel-Change p (λ i. record i { kind = kind; pty = pty }) m (m.cells p) refl (λ i. refl)
      (λ i. refl)
