-- ===== src/Ssh/Releasing.antt =====
-- ssh/forward.go, teardown: how often a session is closed and released, in every order of the two
-- goroutines.
use codespace_ssh_gateway.Shared.{
  ◌≤◌, Bool, true, false, not, ◌&&◌, some, List, [], ◌∷◌, ◌≡◌, refl, arith, subst, if◌then◌else◌,
  Option-cases, inl, inr,
}
use codespace_ssh_gateway.Ssh.Teardown.{
  Runner, absent, opening, holding, pumping, finished, Closer, waiting, looked, joining, ended,
  Life, start, Move, begins, opens, fails, stores, pumped, looks, hangs_up, joins, times_out, once,
  begins_at, opens_at, fails_at, stores_at, pumped_at, looks_at, hangs_up_at, released, joins_at,
  times_out_at, step, and_then, run_all,
}

-- What teardown has done so far, for what it read.
unfoldable pub Done : Closer → Life → Type 0
Done waiting l = (l.closes ≡ 0) × (l.releases ≡ 0) × (l.late ≡ false)
Done (looked held began) l = (l.closes ≡ 0) × (l.releases ≡ 0) × (held ≡ (l.stored && not l.late))
Done (joining held began) l =
    (l.closes ≡ once held) × (l.releases ≡ 0) × (held ≡ (l.stored && not l.late))
Done ended l =
    (l.closes ≡ once (l.stored && not l.late))
    × (l.releases ≡ once (l.stored && not l.late))
    × Unit {0}

-- What run has done so far.
unfoldable pub Going : Runner → Life → Type 0
Going absent l = (l.opened ≡ false) × (l.stored ≡ false) × (l.late ≡ false)
Going opening l = (l.opened ≡ false) × (l.stored ≡ false) × (l.late ≡ false)
Going holding l = (l.opened ≡ true) × (l.stored ≡ false) × (l.late ≡ false)
Going pumping l = (l.opened ≡ true) × (l.stored ≡ true) × Unit {0}
Going finished l = (l.opened ≡ l.stored) × Unit {0}

pub record Sound (l : Life) : Type 0 where
  pub done : Done l.closer l
  pub going : Going l.runner l

start-Sound : Sound start
unfolding start Done Going
start-Sound = record { done = (refl, refl, refl); going = (refl, refl, refl) }

module _ (l l' : Life) where
  begins-Sound : step begins l ≡ some l' → Sound l → Sound l'
  unfolding step begins_at Done Going
  begins-Sound h s = record {
    done = ground (arith, h, s.done, s.going);
    going = ground (arith, h, s.done, s.going);
  }

  opens-Sound : step opens l ≡ some l' → Sound l → Sound l'
  unfolding step opens_at Done Going
  opens-Sound h s = record {
    done = ground (arith, h, s.done, s.going);
    going = ground (arith, h, s.done, s.going);
  }

  fails-Sound : step fails l ≡ some l' → Sound l → Sound l'
  unfolding step fails_at Done Going
  fails-Sound h s = record {
    done = ground (arith, h, s.done, s.going);
    going = ground (arith, h, s.done, s.going);
  }

  stores-Sound : step stores l ≡ some l' → Sound l → Sound l'
  unfolding step stores_at Done Going
  stores-Sound h s = record {
    done = ground (arith, h, s.done, s.going);
    going = ground (arith, h, s.done, s.going);
  }

  pumped-Sound : step pumped l ≡ some l' → Sound l → Sound l'
  unfolding step pumped_at Done Going
  pumped-Sound h s = record {
    done = ground (arith, h, s.done, s.going);
    going = ground (arith, h, s.done, s.going);
  }

  looks-Sound : step looks l ≡ some l' → Sound l → Sound l'
  unfolding step looks_at Done Going
  looks-Sound h s = record {
    done = ground (arith, h, s.done, s.going);
    going = ground (arith, h, s.done, s.going);
  }

  hangs_up-Sound : step hangs_up l ≡ some l' → Sound l → Sound l'
  unfolding step hangs_up_at Done Going
  hangs_up-Sound h s = record {
    done = ground (arith, h, s.done, s.going);
    going = ground (arith, h, s.done, s.going);
  }

  joins-Sound : step joins l ≡ some l' → Sound l → Sound l'
  unfolding step joins_at Done Going released
  joins-Sound h s = record {
    done = ground (arith, h, s.done, s.going);
    going = ground (arith, h, s.done, s.going);
  }

  times_out-Sound : step times_out l ≡ some l' → Sound l → Sound l'
  unfolding step times_out_at Done Going released
  times_out-Sound h s = record {
    done = ground (arith, h, s.done, s.going);
    going = ground (arith, h, s.done, s.going);
  }

step-Sound : (m : Move) (l l' : Life) → step m l ≡ some l' → Sound l → Sound l'
step-Sound begins l l' = begins-Sound l l'
step-Sound opens l l' = opens-Sound l l'
step-Sound fails l l' = fails-Sound l l'
step-Sound stores l l' = stores-Sound l l'
step-Sound pumped l l' = pumped-Sound l l'
step-Sound looks l l' = looks-Sound l l'
step-Sound hangs_up l l' = hangs_up-Sound l l'
step-Sound joins l l' = joins-Sound l l'
step-Sound times_out l l' = times_out-Sound l l'

run_all-Sound : (ms : List Move) (l l' : Life) → run_all ms l ≡ some l' → Sound l → Sound l'
unfolding run_all and_then
run_all-Sound [] l l' h s = subst Sound (cc) s
run_all-Sound (m ∷ ms) l l' h s = elim (Option-cases (step m l)) [
  | inl stuck ↦ ground (arith, h, stuck)
  | inr (l₁, e) ↦ run_all-Sound ms l₁ l' (rw e at h) (step-Sound m l l₁ e s)
]

-- A channel's life, in any order of its two goroutines' steps: once teardown has ended, the
-- connection was closed and the session released once if the connection was stored when teardown
-- read the channel, and never otherwise.
pub closes-run_all :
    (ms : List Move) (l : Life)
    → run_all ms start ≡ some l
    → l.closer ≡ ended
    → (l.closes ≡ once (l.stored && not l.late)) × (l.releases ≡ once (l.stored && not l.late))
unfolding Done
closes-run_all ms l h e =
    let d = subst (λ c. Done c l) e (run_all-Sound ms start l h start-Sound).done in (d.0, d.1)

-- At every point of a channel's life: what was closed or released had been opened, and no session
-- is closed or released twice.
pub releases-run_all :
    (ms : List Move) (l : Life)
    → run_all ms start ≡ some l
    → (l.releases ≤ once l.opened) × (l.closes ≤ once l.opened) × (l.releases ≤ l.closes)
unfolding Done Going
releases-run_all ms l h =
    let s = run_all-Sound ms start l h start-Sound in ground (arith, s.done, s.going)

-- The steps that are left to teardown when run makes none: a started session is waited for until
-- the timeout.
abbrev pub last : Bool → Move
last began = if began then times_out else joins

abbrev pub left : Closer → Bool → List Move
left waiting began = looks ∷ hangs_up ∷ last began ∷ []
left (looked held began) _ = hangs_up ∷ last began ∷ []
left (joining held began) _ = last began ∷ []
left ended _ = []

abbrev Ends : Closer → Bool → Life → Type 0
Ends c began l =
    (l' : Life) × (run_all (left c began) l ≡ some l')
    × (l'.closer ≡ ended)
    × (l'.runner ≡ l.runner)

left-Ends :
    (c : Closer) (began : Bool) (l : Life) → Ends c began (record l { closer = c; started = began })
unfolding run_all and_then step looks_at hangs_up_at joins_at times_out_at released
left-Ends waiting true l = (_, refl, refl, refl)
left-Ends waiting false l = (_, refl, refl, refl)
left-Ends (looked held true) b l = (_, refl, refl, refl)
left-Ends (looked held false) b l = (_, refl, refl, refl)
left-Ends (joining held true) b l = (_, refl, refl, refl)
left-Ends (joining held false) b l = (_, refl, refl, refl)
left-Ends ended b l = (_, refl, refl, refl)

-- teardown ends: from every point of a channel's life, its own steps, three at most, are possible
-- one after the other without any of run's, and lead to its end.
pub teardown_ends :
    (l : Life)
    → (l' : Life) × (run_all (left l.closer l.started) l ≡ some l')
      × (l'.closer ≡ ended)
      × (l'.runner ≡ l.runner)
teardown_ends l = left-Ends l.closer l.started l
